-- ===== src/Executor/Service/Examples.antt =====
-- Runs of the executor service (internal/executor) on small states.
use ai_workflow.Base.{
  ◌≡◌, refl, String, true, false, some, [], ◌∷◌, Result, ok, err, eq_iff, trim_space, is_blank,
}
use ai_workflow.Base.Dict.{lookup, insert}
use ai_workflow.Base.Value.{Value, null}
use ai_workflow.Workflow.Validate.Examples.{review-valid}
use ai_workflow.Workflow.Service
use ai_workflow.Workflow.Service.Laws
use ai_workflow.Executor.{
  Run, Step, PendingState, running, queued, waiting_approval, step_waiting, sync, async, Env,
}
use ai_workflow.Executor.Graph.{Graph, build_graph}
use ai_workflow.Executor.Engine.{ExecutionState, paused, new_execution_state, continue_execution}
use ai_workflow.Executor.Jobs.{Job}
use ai_workflow.Executor.Repository.{
  Store, run_not_found, not_awaiting_review, empty_store, save_pending, complete_run, load_pending,
  get_run,
}
use ai_workflow.Executor.Repository.Laws.{IsSound, save_pending-IsSound}
use ai_workflow.Executor.Repository.Loading.{load-save_pending}
use ai_workflow.Executor.Service.{Error, System, repository_error}
use ai_workflow.Executor.Service.Sync.{execute_sync, service_get_run, service_list_steps}
use ai_workflow.Executor.Service.Async.{process_async_job}
use ai_workflow.Executor.Service.Accepted.{HasRun, execute_sync-HasRun}
use ai_workflow.Executor.Service.Resume.{Decision, resume_approval}
use ai_workflow.Executor.Service.Decided.{resume_once}
use ai_workflow.Executor.Service.Tenancy.{foreign_run}
use ai_workflow.Tenant.Controls.{TriggerControl, store_record, lookup_record, record_key}
use ai_workflow.Executor.Triggers.{store_idempotent_run, lookup_idempotent_run}
use ai_workflow.Executor.Triggers.Replays.{lookup_idempotent_run_owner}
use ai_workflow.Samples.{platform, env, world, review, system, stored, graph_or_empty, state_of}

-- A run that waits in the node `ask`.
abbrev waiting_run : Run
waiting_run = record {
  id = "r";
  tenant_id = "acme";
  workflow_id = "flow";
  status = waiting_approval;
  trigger_mode = sync;
  attempt = 0;
  max_attempts = 0;
  input = [];
  output = null;
  error = "";
  created_at = 1;
  started_at = 1;
  completed_at = 0;
}

abbrev pending : PendingState
pending = record { waiting_node_id = "ask"; queue = "note" ∷ []; step_outputs = []; executed = [] }

abbrev ask_step : Step
ask_step = record {
  id = "s";
  run_id = "r";
  node_id = "ask";
  node_type = "approval";
  status = step_waiting;
  attempt = 1;
  input = [];
  output = null;
  error = "";
  started_at = 1;
  completed_at = 0;
}

abbrev waiting_system : System
waiting_system = record (system review) {
  store = save_pending waiting_run (ask_step ∷ []) pending empty_store;
}

waiting-IsSound : IsSound waiting_system.store
unfolding lookup
waiting-IsSound =
    save_pending-IsSound waiting_run (ask_step ∷ []) pending empty_store refl
      (record { keyed = λ k r e. absurd (cc e); pending = λ k. refl })

abbrev approval : Decision
approval = record { approved = true; comment = "" }

abbrev rejection : Decision
rejection = record { approved = false; comment = "" }

load-save_pending_example :
    (load_pending "acme" "r" waiting_system.store
      ≡ ok (record { run = waiting_run; steps = ask_step ∷ []; pending = pending }))
    × (load_pending "other" "r" waiting_system.store ≡ err run_not_found)
    × (load_pending "acme" "r" (complete_run waiting_run [] waiting_system.store)
        ≡ err not_awaiting_review)
load-save_pending_example =
    load-save_pending waiting_run waiting_run (ask_step ∷ []) [] pending "other" empty_store refl
      (λ e. absurd (cc ((eq_iff "acme" "other").1 e)))

workflows-IsSound : Service.Laws.IsSound platform (system review).workflows
unfolding lookup insert Service.put
workflows-IsSound =
    Service.Laws.put-IsSound platform (stored review) [] review-valid
      (record { keyed = λ id w e. absurd (cc e); accepted = λ id w e. absurd (cc e) })

execute_sync-HasRun_example : HasRun (execute_sync env "acme" "flow" [] (system review)).0
unfolding is_blank trim_space Service.get Service.get_by_id lookup
execute_sync-HasRun_example =
    execute_sync-HasRun platform env "acme" "flow" [] (stored review) (system review) refl
      workflows-IsSound refl

abbrev rejected : Result Error Run × System
rejected = resume_approval env "acme" "r" rejection [] waiting_system

abbrev rejected_run : Run
rejected_run = elim rejected.0 [ ok r ↦ r | err e ↦ waiting_run ]

resume_once_example :
    resume_approval env "acme" "r" approval [] rejected.1
    ≡ (err (repository_error not_awaiting_review), rejected.1)
unfolding resume_approval is_blank load_pending get_run lookup save_pending insert Service.get
    build_graph
resume_once_example =
    resume_once env "acme" "r" rejection approval [] [] waiting_system rejected_run waiting-IsSound
      refl refl

abbrev job : String → Job
job tenant_id = record {
  run_id = "r";
  tenant_id = tenant_id;
  workflow_id = "flow";
  attempt = 1;
  max_attempts = 3;
  input = [];
}

foreign_run_example :
    (service_get_run "other" "r" waiting_system ≡ err (repository_error run_not_found))
    × (service_list_steps "other" "r" waiting_system ≡ err (repository_error run_not_found))
    × (resume_approval env "other" "r" approval [] waiting_system
        ≡ (err (repository_error run_not_found), waiting_system))
    × (process_async_job env (job "other") waiting_system
        ≡ (err (repository_error run_not_found), waiting_system))
unfolding is_blank trim_space save_pending lookup insert
foreign_run_example =
    foreign_run env (job "other") approval [] waiting_system waiting_run refl refl
      (λ e. absurd (cc ((eq_iff "acme" "other").1 e)))

abbrev graph : Graph
graph = graph_or_empty (build_graph review)

abbrev paused_state : ExecutionState
paused_state =
    state_of
      (continue_execution env "r" "acme" graph [] 3 (new_execution_state ("ask" ∷ [])) world).0

abbrev saved : PendingState
saved =
    elim (continue_execution env "r" "acme" graph [] 3 (new_execution_state ("ask" ∷ [])) world).0 [
      | paused st output p ↦ p
      | _ ↦ pending
    ]

abbrev payload : Value
payload =
    elim (continue_execution env "r" "acme" graph [] 3 (new_execution_state ("ask" ∷ [])) world).0 [
      | paused st output p ↦ output
      | _ ↦ null
    ]

abbrev queued_run : Run
queued_run = record waiting_run { status = queued; attempt = 1; max_attempts = 3 }

abbrev queued_system : System
queued_system = record (system review) {
  store = record { runs = ("r", queued_run) ∷ []; steps = []; pending = [] };
}

abbrev result_run : Run
result_run = elim (process_async_job env (job "acme") queued_system).0 [
  | ok r ↦ r
  | err e ↦ queued_run
]

-- Controls without a limit, and a run that is asked for twice.
abbrev control : TriggerControl
control = record { limit = 0; window = 60; quotas = []; records = [] }

abbrev replayed_store : Store
replayed_store = queued_system.store

again :
    lookup_idempotent_run
      (store_idempotent_run (some control) "acme" "k" "f" queued_run).0
      "acme"
      "k"
      "f"
      replayed_store
    ≡ ok (some queued_run)
unfolding is_blank trim_space lookup store_idempotent_run store_record lookup_idempotent_run get_run
    lookup_record record_key insert
again = refl

lookup_idempotent_run_owner_example :
    (queued_run.tenant_id ≡ "acme")
    × (id : String) × (lookup id replayed_store.runs ≡ some queued_run)
lookup_idempotent_run_owner_example =
    lookup_idempotent_run_owner (store_idempotent_run (some control) "acme" "k" "f" queued_run).0
      "acme" "k" "f" replayed_store queued_run again
