-- ===== src/Auth.antt =====
-- internal/auth/service.go: API keys, their credentials and the identity of a request.
use ai_workflow.Base.{
  String, Bool, true, false, none, some, List, [], ◌∷◌, Result, ok, err, trim_space, is_blank,
  if◌then◌else◌,
}
use ai_workflow.Base.Dict.{Dict, lookup, insert}
use ai_workflow.Tenant.Service
use ai_workflow.Tenant.Service.{Tenant, get}
pub mod Keys
mod Examples

pub data Status : Type 0 where
  active inactive : Status

abbrev pub is_active : Status → Bool
is_active active = true
is_active inactive = false

abbrev pub is_active_tenant : Service.Status → Bool
is_active_tenant Service.active = true
is_active_tenant Service.inactive = false

pub data Error : Type 0 where
  missing_api_key invalid_api_key inactive_api_key inactive_tenant : Error

pub record ApiKey : Type 0 where
  pub id : String
  pub tenant_id : String
  pub label : String
  pub plaintext : String
  pub status : Status

pub record Credential : Type 0 where
  pub id : String
  pub tenant_id : String
  pub label : String
  pub key_hash : String
  pub status : Status

pub record Identity : Type 0 where
  pub tenant_id : String
  pub tenant_name : String
  pub tenant_status : Service.Status
  pub api_key_id : String
  pub api_key_label : String

-- `HashAPIKey` is the hexadecimal SHA-256 of the text, a function of the standard library.
module _ (hash_api_key : String → String) where
  abbrev pub credential_of : ApiKey → Credential
  credential_of key = record {
    id = key.id;
    tenant_id = key.tenant_id;
    label = key.label;
    key_hash = hash_api_key key.plaintext;
    status = key.status;
  }

  pub add_keys : Dict Credential → List ApiKey → Dict Credential
  add_keys records [] = records
  add_keys records (key ∷ keys) =
      add_keys (insert (hash_api_key key.plaintext) (credential_of key) records) keys

  unfoldable pub new_memory_repository : List ApiKey → Dict Credential
  new_memory_repository keys = add_keys [] keys

unfoldable pub lookup_by_hash : Dict Credential → String → Result Error Credential
lookup_by_hash records key_hash = elim (lookup key_hash records) [
  | none ↦ err invalid_api_key
  | some c ↦ ok c
]

-- `Authenticate` from the credential that was found on.
unfoldable pub resolve : Dict Tenant → Credential → Result Error Identity
resolve tenants credential =
    if is_active credential.status
    then elim (get tenants credential.tenant_id) [
      | err _ ↦ err invalid_api_key
      | ok t ↦
          if is_active_tenant t.status
          then ok record {
            tenant_id = t.id;
            tenant_name = t.name;
            tenant_status = t.status;
            api_key_id = credential.id;
            api_key_label = credential.label;
          }
          else err inactive_tenant
    ]
    else err inactive_api_key

unfoldable pub authenticate :
    (String → String) → Dict Credential → Dict Tenant → String → Result Error Identity
authenticate hash_api_key records tenants raw_key =
    if is_blank raw_key
    then err missing_api_key
    else elim (lookup_by_hash records (hash_api_key (trim_space raw_key))) [
      | err e ↦ err e
      | ok credential ↦ resolve tenants credential
    ]
