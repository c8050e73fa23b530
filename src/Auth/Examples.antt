-- ===== src/Auth/Examples.antt =====
-- The authentication of internal/auth/service.go, run on small inputs.
use ai_workflow.Base.{◌≡◌, refl, String, List, [], ◌∷◌, Result, ok, err, is_blank, trim_space}
use ai_workflow.Base.Dict.{Dict, lookup, insert}
use ai_workflow.Tenant.Service
use ai_workflow.Tenant.Service.{Tenant, get, get_by_id}
use ai_workflow.Auth.{
  ApiKey, Identity, active, inactive, inactive_api_key, invalid_api_key, missing_api_key,
  new_memory_repository, add_keys, lookup_by_hash, resolve, authenticate,
}
use ai_workflow.Auth.Keys.{Admits, Separates, none_left, one_more, authenticate_iff}

abbrev tenants : Dict Tenant
tenants = ("acme", record { id = "acme"; name = "Acme"; status = Service.active }) ∷ []

-- The second key replaces the first.
abbrev keys : List ApiKey
keys =
    record { id = "k1"; tenant_id = "acme"; label = "old"; plaintext = "one"; status = inactive }
    ∷ record { id = "k2"; tenant_id = "acme"; label = "new"; plaintext = "one"; status = active }
    ∷ record { id = "k3"; tenant_id = "acme"; label = "off"; plaintext = "two"; status = inactive }
    ∷ record { id = "k4"; tenant_id = "gone"; label = "lost"; plaintext = "three"; status = active }
    ∷ []

-- Each text is its own hash.
abbrev same : String → String
same s = s

abbrev attempt : String → Result ai_workflow.Auth.Error Identity
attempt raw = authenticate same (new_memory_repository same keys) tenants raw

abbrev identity : Identity
identity = record {
  tenant_id = "acme";
  tenant_name = "Acme";
  tenant_status = Service.active;
  api_key_id = "k2";
  api_key_label = "new";
}

outcomes :
    (attempt " one " ≡ ok identity)
    × (attempt " " ≡ err missing_api_key)
    × (attempt "two" ≡ err inactive_api_key)
    × (attempt "three" ≡ err invalid_api_key)
    × (attempt "four" ≡ err invalid_api_key)
unfolding authenticate resolve get get_by_id lookup_by_hash new_memory_repository add_keys is_blank
    trim_space lookup insert
outcomes = (refl, refl, refl, refl, refl)

separated : Separates same (trim_space " one ") keys
separated = one_more (λ e. e) (one_more (λ e. e) (one_more (λ e. e) (one_more (λ e. e) none_left)))

authenticate_iff_example : Admits keys tenants " one " identity
authenticate_iff_example =
    (authenticate_iff same keys tenants " one " identity separated).0 outcomes.0
