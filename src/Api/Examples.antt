-- ===== src/Api/Examples.antt =====
-- The server of internal/api/server.go, run on small inputs.
use ai_workflow.Base.{
  ◌≡◌, refl, true, false, some, [], ◌∷◌, arith, ok, eq_iff, trim_space, is_blank,
}
use ai_workflow.Base.Dict.{lookup}
use ai_workflow.Auth
use ai_workflow.Auth.{Identity, Credential, authenticate, resolve, lookup_by_hash}
use ai_workflow.Documents
use ai_workflow.Documents.{Services}
use ai_workflow.Tenant.Service as Tenants
use ai_workflow.Tenant.Service.{Tenant}
use ai_workflow.Tenant.Controls.{TriggerControl, lookup_record, allow, store_record}
use ai_workflow.Executor.{Run}
use ai_workflow.Executor.Repository.{empty_store}
use ai_workflow.Executor.Repository.Laws as Runs
use ai_workflow.Executor.Service.Async.{async_run, execute_async}
use ai_workflow.Executor.Triggers.{lookup_idempotent_run, reserve_execution, store_idempotent_run}
use ai_workflow.Executor.Jobs.{enqueue}
use ai_workflow.Audit.{draw_id, read_clock}
use ai_workflow.Workflow.Service as Workflows
use ai_workflow.Api.{App, Setup, Decoded, decoded, run, respond, aborted, with_service}
use ai_workflow.Api.Access.{no_such_run, serve-foreign}
use ai_workflow.Api.Shown.{ShownTo}
use ai_workflow.Api.Shown.Served.{serve-ShownTo}
use ai_workflow.Api.Invariant.{IsSound}
use ai_workflow.Api.Invariant.Served.{serve-IsSound}
use ai_workflow.Api.Replays.{execute_workflow-twice}
use ai_workflow.Api.Runs.{ResumeRequest, handle_get_run_events}
use ai_workflow.Api.Server.{
  get_runs, get_run, get_run_steps, get_run_events, post_resume, post_workflow, route, serve,
}
use ai_workflow.Api.Trigger.{
  after_lookup, after_run, ExecuteRequest, with_headers, replay_header, status_code_for_run,
  handle_execute_workflow,
}
use ai_workflow.Samples.{sources, env, system, branching, review}

abbrev pub services : Services
services = record {
  sources = sources;
  to_lower = λ s. s;
  join_path = λ a b. a;
  put = λ key content. ok (record { size_bytes = 0; checksum = "" });
}

abbrev pub setup : Setup
setup = record {
  env = env;
  services = services;
  hash_api_key = λ s. s;
  context_error = "full";
  marshal_request = λ mode id input. ok mode;
  has_authenticator = true;
  has_documents = true;
  has_workflows = true;
  has_executor = true;
  has_audit = true;
}

abbrev credential : Credential
credential = record {
  id = "k";
  tenant_id = "acme";
  label = "";
  key_hash = "secret";
  status = Auth.active;
}

abbrev tenant : Tenant
tenant = record { id = "acme"; name = "Acme"; status = Tenants.active }

abbrev control : TriggerControl
control = record { limit = 1; window = 60; quotas = []; records = [] }

abbrev app : App
app = record {
  system = system branching;
  documents = Documents.empty_store;
  control = some control;
  credentials = ("secret", credential) ∷ [];
  tenants = ("acme", tenant) ∷ [];
}

abbrev identity : Identity
identity = record {
  tenant_id = "acme";
  tenant_name = "Acme";
  tenant_status = Tenants.active;
  api_key_id = "k";
  api_key_label = "";
}

abbrev body : Decoded ExecuteRequest
body = decoded (record { mode = " async "; input = [] })

abbrev queued_run : Run
queued_run = async_run "id" "acme" "flow" [] 2

runs-IsSound : Runs.IsSound empty_store
unfolding lookup
runs-IsSound = record { keyed = λ k r e. absurd (ground (arith, e)); pending = λ k. refl }

first_response :
    (handle_execute_workflow setup identity "flow" "key" body app).0.payload ≡ run queued_run
unfolding handle_execute_workflow after_lookup lookup_idempotent_run lookup_record trim_space lookup
    reserve_execution is_blank allow after_run execute_async Workflows.get draw_id enqueue
    store_idempotent_run store_record read_clock
first_response = refl

execute_workflow-twice_example :
    handle_execute_workflow setup identity "flow" "key" body
      (handle_execute_workflow setup identity "flow" "key" body app).1
    ≡ (
      with_headers replay_header (respond (status_code_for_run queued_run) (run queued_run)),
      (handle_execute_workflow setup identity "flow" "key" body app).1,
    )
unfolding lookup is_blank trim_space
execute_workflow-twice_example =
    execute_workflow-twice setup identity "flow" "key" body app control queued_run refl refl
      runs-IsSound (λ id drawn. refl) first_response

abbrev theirs : Run
theirs = record queued_run { id = "r"; tenant_id = "other" }

abbrev shared_app : App
shared_app = record app {
  system = record app.system { store = record app.system.store { runs = ("r", theirs) ∷ [] } };
}

abbrev resume_request : ResumeRequest
resume_request = record { approved = some true; comment = ""; input = [] }

serve-foreign_example :
    (serve setup "secret" (get_run "r") shared_app ≡ (no_such_run, shared_app))
    × (serve setup "secret" (get_run_steps "r") shared_app ≡ (no_such_run, shared_app))
    × (serve setup "secret" (get_run_events "r") shared_app ≡ (no_such_run, shared_app))
    × (serve setup "secret" (post_resume "r" (decoded resume_request)) shared_app
        ≡ (no_such_run, shared_app))
unfolding authenticate resolve lookup_by_hash Tenants.get Tenants.get_by_id lookup is_blank
    trim_space
serve-foreign_example =
    serve-foreign setup "secret" "r" resume_request true shared_app identity theirs refl refl refl
      refl refl refl (λ e. absurd (cc ((eq_iff "other" "acme").1 e))) refl

-- Without an executor the handler of events panics.
events_unguarded :
    route (record setup { has_executor = false }) identity (get_run_events "r") app ≡ (aborted, app)
unfolding route handle_get_run_events with_service
events_unguarded = refl

abbrev both_app : App
both_app = record app {
  system = record app.system {
    store = record app.system.store { runs = ("r", theirs) ∷ ("id", queued_run) ∷ [] };
  };
}

both_app-IsSound : Runs.IsSound both_app.system.store
unfolding lookup async_run
both_app-IsSound = record {
  keyed = λ k r e. ground (arith, e, eq_iff "r" k, eq_iff "id" k);
  pending = λ k. ground arith;
}

serve-ShownTo_example : ShownTo "acme" (serve setup "secret" (get_runs "") both_app).0.payload
unfolding authenticate resolve lookup_by_hash Tenants.get Tenants.get_by_id lookup is_blank
    trim_space
serve-ShownTo_example =
    serve-ShownTo setup "secret" (get_runs "") both_app identity refl both_app-IsSound

abbrev new_app : App
new_app = record app { system = record app.system { workflows = [] } }

new_app-IsSound : IsSound setup new_app
unfolding lookup
new_app-IsSound = record {
  runs = runs-IsSound;
  workflows = record { keyed = λ id w e. absurd (cc e); accepted = λ id w e. absurd (cc e) };
  documents = record { stored = λ id d e. absurd (cc e) };
}

serve-IsSound_example :
    IsSound setup (serve setup "secret" (post_workflow (decoded review)) new_app).1
unfolding lookup
serve-IsSound_example =
    serve-IsSound setup "secret" (post_workflow (decoded review)) new_app new_app-IsSound
      (λ id drawn. refl)
