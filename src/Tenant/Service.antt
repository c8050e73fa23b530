-- ===== src/Tenant/Service.antt =====
-- internal/tenant/service.go: the tenant records and their lookup.
use ai_workflow.Base.{String, none, some, List, [], ◌∷◌, Result, ok, err}
use ai_workflow.Base.Dict.{Dict, lookup, insert}

pub data Status : Type 0 where
  active inactive : Status

pub record Tenant : Type 0 where
  pub id : String
  pub name : String
  pub status : Status

pub data Error : Type 0 where
  not_found : Error

-- Later tenants of one id overwrite earlier ones.
unfoldable pub add_tenants : Dict Tenant → List Tenant → Dict Tenant
add_tenants records [] = records
add_tenants records (t ∷ ts) = add_tenants (insert t.id t records) ts

unfoldable pub new_memory_repository : List Tenant → Dict Tenant
new_memory_repository tenants = add_tenants [] tenants

unfoldable pub get_by_id : Dict Tenant → String → Result Error Tenant
get_by_id records id = elim (lookup id records) [ none ↦ err not_found | some t ↦ ok t ]

-- `Service.Get` forwards to the repository.
unfoldable pub get : Dict Tenant → String → Result Error Tenant
unfolding get_by_id
get records id = get_by_id records id
