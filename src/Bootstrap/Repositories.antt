-- ===== src/Bootstrap/Repositories.antt =====
-- internal/platform/bootstrap/repositories.go: the repositories that a server starts with when no
-- database is configured.
use ai_workflow.Base.{String, Bool, true, List, [], ◌∷◌, map, if◌then◌else◌}
use ai_workflow.Base.Dict.{Dict, insert, is_set}
use ai_workflow.Auth
use ai_workflow.Auth.{ApiKey, Credential}
use ai_workflow.Bootstrap.{BootstrapApiKey}
use ai_workflow.Documents
use ai_workflow.Executor.Repository as Runs
use ai_workflow.Tenant.Service as Tenants
use ai_workflow.Tenant.Service.{Tenant}
use ai_workflow.Workflow.{Workflow}

abbrev pub tenant_of : BootstrapApiKey → Tenant
tenant_of entry = record { id = entry.tenant_id; name = entry.tenant_name; status = Tenants.active }

abbrev pub api_key_of : BootstrapApiKey → ApiKey
api_key_of entry = record {
  id = entry.api_key_id;
  tenant_id = entry.tenant_id;
  label = entry.label;
  plaintext = entry.plaintext_key;
  status = Auth.active;
}

-- The loop of `buildBootstrapTenants`, with the ids that were seen.
unfoldable pub new_tenants : Dict Bool → List BootstrapApiKey → List Tenant
new_tenants seen [] = []
new_tenants seen (entry ∷ entries) =
    let exists = is_set entry.tenant_id seen in
    let rest = new_tenants (if exists then seen else insert entry.tenant_id true seen) entries in
    if exists then rest else tenant_of entry ∷ rest

abbrev pub build_bootstrap_tenants : List BootstrapApiKey → List Tenant
build_bootstrap_tenants entries = new_tenants [] entries

abbrev pub build_bootstrap_api_keys : List BootstrapApiKey → List ApiKey
build_bootstrap_api_keys entries = map api_key_of entries

pub record Repositories : Type 0 where
  pub tenants : Dict Tenant
  pub auth : Dict Credential
  pub documents : Documents.Store
  pub workflows : Dict Workflow
  pub executor : Runs.Store

-- `OpenRepositories` with an empty `PostgresDSN`; the journal of events starts empty too.
unfoldable pub open_repositories : (String → String) → List BootstrapApiKey → Repositories
open_repositories hash_api_key entries = record {
  tenants = Tenants.new_memory_repository (build_bootstrap_tenants entries);
  auth = Auth.new_memory_repository hash_api_key (build_bootstrap_api_keys entries);
  documents = Documents.empty_store;
  workflows = [];
  executor = Runs.empty_store;
}
