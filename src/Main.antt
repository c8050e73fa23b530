-- ===== src/Main.antt =====
-- cmd/api/main.go: the server that is set up from a configuration, with the queue in memory and the
-- worker in the same process.
pub mod Histories
mod Examples
use ai_workflow.Base.{String, some, []}
use ai_workflow.Base.Int.{pos}
use ai_workflow.Audit.{Journal}
use ai_workflow.Api.{App}
use ai_workflow.Bootstrap.Config.{Config}
use ai_workflow.Bootstrap.Repositories.{Repositories, open_repositories}
use ai_workflow.Executor.{World}
use ai_workflow.Executor.Jobs.{new_memory_queue}
use ai_workflow.Tenant.Controls.{new_trigger_control}

-- Nothing was drawn, read or recorded.
abbrev pub first_journal : Journal
first_journal = record { ids_drawn = 0; clock_reads = 0; events = [] }

abbrev pub first_world : World
first_world = record { journal = first_journal; node_calls = 0 }

-- The services that `main` makes of the repositories, with no Redis address.
unfoldable pub services_of : {Float : Type 0} → Repositories → Config Float → App
services_of repositories cfg = record {
  system = record {
    store = repositories.executor;
    workflows = repositories.workflows;
    jobs = some (new_memory_queue (pos 128));
    world = first_world;
  };
  documents = repositories.documents;
  control =
      some (new_trigger_control cfg.limits.tenant_execute_limit cfg.limits.tenant_execute_window);
  credentials = repositories.auth;
  tenants = repositories.tenants;
}

unfoldable pub start : {Float : Type 0} → (String → String) → Config Float → App
unfolding services_of
start hash_api_key cfg = services_of (open_repositories hash_api_key cfg.bootstrap_api_keys) cfg
