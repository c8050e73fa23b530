-- ===== src/Auth/Keys.antt =====
-- Authenticate of internal/auth/service.go over the keys that its repository was made from.
use ai_workflow.Base.{
  ◌≡◌, refl, ap, ◌↔◌, String, true, false, Option, none, some, List, [], ◌∷◌, arith, ok, eq_iff,
  Option-cases, inl, inr, trim_space, is_blank, ◌==◌, if◌then◌else◌,
}
use mathlib.Core.Option.{map}
use ai_workflow.Base.Dict.{Dict, lookup, insert, lookup-insert}
use ai_workflow.Tenant.Service.{Tenant, get, get_by_id}
use ai_workflow.Auth.{
  ApiKey, Credential, Identity, is_active, is_active_tenant, credential_of, add_keys,
  new_memory_repository, lookup_by_hash, resolve, authenticate,
}

-- The last of the keys with a plaintext.
abbrev pub last_key : String → Option ApiKey → List ApiKey → Option ApiKey
last_key text found [] = found
last_key text found (key ∷ keys) =
    last_key text (if key.plaintext == text then some key else found) keys

-- Among the plaintexts of the keys, only the text itself has its hash.
pub data Separates (hash_api_key : String → String) (text : String) : List ApiKey → Type 0 where
  none_left : Separates hash_api_key text []
  one_more :
      {key : ApiKey} {keys : List ApiKey}
      → (hash_api_key key.plaintext ≡ hash_api_key text → key.plaintext ≡ text)
      → Separates hash_api_key text keys
      → Separates hash_api_key text (key ∷ keys)

module _ (hash_api_key : String → String) (text : String) where
  lookup-add_keys :
      (keys : List ApiKey) (records : Dict Credential) (found : Option ApiKey)
      → Separates hash_api_key text keys
      → lookup (hash_api_key text) records ≡ map (credential_of hash_api_key) found
      → lookup (hash_api_key text) (add_keys hash_api_key records keys)
        ≡ map (credential_of hash_api_key) (last_key text found keys)
  unfolding add_keys
  lookup-add_keys [] records found none_left e = e
  lookup-add_keys (key ∷ keys) records found (one_more separate rest) e =
      lookup-add_keys keys
        (insert (hash_api_key key.plaintext) (credential_of hash_api_key key) records)
        (if key.plaintext == text then some key else found) rest
        (ground (
          arith,
          e,
          separate,
          eq_iff key.plaintext text,
          eq_iff (hash_api_key key.plaintext) (hash_api_key text),
          (λ (same : key.plaintext ≡ text). ap hash_api_key same),
          lookup-insert (hash_api_key key.plaintext) (hash_api_key text)
              (credential_of hash_api_key key) records,
        ))

-- What lets a request in under an identity.
pub record Admits (keys : List ApiKey) (tenants : Dict Tenant) (raw : String) (i : Identity)
    : Type 0 where
  pub key : ApiKey
  pub tenant : Tenant
  pub given : is_blank raw ≡ false
  pub known : last_key (trim_space raw) none keys ≡ some key
  pub key_active : is_active key.status ≡ true
  pub owner : lookup key.tenant_id tenants ≡ some tenant
  pub tenant_active : is_active_tenant tenant.status ≡ true
  pub identified : i ≡ record {
    tenant_id = tenant.id;
    tenant_name = tenant.name;
    tenant_status = tenant.status;
    api_key_id = key.id;
    api_key_label = key.label;
  }

module _ (hash_api_key : String → String) (keys : List ApiKey) (tenants : Dict Tenant) where
  module _ (raw : String) (i : Identity)
      (apart : Separates hash_api_key (trim_space raw) keys) where
    lookup-new_memory_repository :
        lookup (hash_api_key (trim_space raw)) (new_memory_repository hash_api_key keys)
        ≡ map (credential_of hash_api_key) (last_key (trim_space raw) none keys)
    unfolding new_memory_repository lookup
    lookup-new_memory_repository =
        lookup-add_keys hash_api_key (trim_space raw) keys [] none apart refl

    authenticate-Admits :
        Admits keys tenants raw i
        → authenticate hash_api_key (new_memory_repository hash_api_key keys) tenants raw ≡ ok i
    unfolding authenticate lookup_by_hash resolve get get_by_id
    authenticate-Admits a = ground (
      arith, lookup-new_memory_repository, a.given, a.known, a.key_active, a.owner, a.tenant_active,
      a.identified,
    )

    Admits-authenticate :
        authenticate hash_api_key (new_memory_repository hash_api_key keys) tenants raw ≡ ok i
        → Admits keys tenants raw i
    unfolding authenticate lookup_by_hash resolve get get_by_id
    Admits-authenticate accepted = elim (Option-cases (last_key (trim_space raw) none keys)) [
      | inl unknown ↦ absurd (ground (arith, lookup-new_memory_repository, unknown, accepted))
      | inr (key, known) ↦ elim (Option-cases (lookup key.tenant_id tenants)) [
        | inl lost ↦ absurd (ground (arith, lookup-new_memory_repository, known, lost, accepted))
        | inr (tenant, owner) ↦ record {
          key = key;
          tenant = tenant;
          given = ground (arith, lookup-new_memory_repository, known, owner, accepted);
          known = known;
          key_active = ground (arith, lookup-new_memory_repository, known, owner, accepted);
          owner = owner;
          tenant_active = ground (arith, lookup-new_memory_repository, known, owner, accepted);
          identified = ground (arith, lookup-new_memory_repository, known, owner, accepted);
        }
      ]
    ]

-- Authenticate on the repository made from a list of keys succeeds with an identity exactly when
-- the raw key is not blank, the last key whose plaintext is the raw key without the white space
-- around it is active, its tenant is stored and active, and the identity is that of this key and
-- tenant; no other key of the list may have the hash of that text.
pub authenticate_iff :
    (hash_api_key : String → String) (keys : List ApiKey) (tenants : Dict Tenant)
    → (raw : String) (i : Identity) → Separates hash_api_key (trim_space raw) keys
    → (authenticate hash_api_key (new_memory_repository hash_api_key keys) tenants raw ≡ ok i)
      ↔ Admits keys tenants raw i
authenticate_iff hash_api_key keys tenants raw i apart = (
  Admits-authenticate hash_api_key keys tenants raw i apart,
  authenticate-Admits hash_api_key keys tenants raw i apart,
)
