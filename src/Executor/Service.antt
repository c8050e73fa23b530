-- ===== src/Executor/Service.antt =====
-- internal/executor/service.go and async.go: the state of the executor service and the part that
-- all executions share, `executeRun`.
pub mod Sync
pub mod Async
pub mod Resume
pub mod Outcomes
pub mod Waiting
pub mod Processing
pub mod Tenancy
pub mod Resuming
pub mod Decided
pub mod Resumed
pub mod Accepted
pub mod Owners
pub mod Definitions
pub mod Examples
use ai_workflow.Base.{ℕ, suc, String, not, Option, [], ◌∷◌, length, Result, ok, err}
use Prim.Native.String as Text
use ai_workflow.Base.Dict.{Dict, insert, keys}
use ai_workflow.Base.Value.{Value, str, obj, field, end}
use ai_workflow.Audit.{RecordParams}
use ai_workflow.Workflow.{Workflow}
use ai_workflow.Workflow.Service
use ai_workflow.Executor.{
  Run, RunStatus, PendingState, Env, World, waiting_approval, completed, failed, draw, read,
  record_audit,
}
use ai_workflow.Executor.Graph.{Graph, GraphError, contains_cycle, build_run_output, cycle_message}
use ai_workflow.Executor.Engine.{
  ExecutionState, Outcome, finished, paused, failed_at, broken, out_of_fuel, continue_execution,
}
use ai_workflow.Executor.Jobs.{MemoryQueue}
use ai_workflow.Executor.Repository.{
  Store, RepositoryError, run_not_found, not_awaiting_review, complete_run, save_pending,
}

-- `engine_stuck` stands for a loop that does not end, which `Engine.Terminates` rules out.
pub data Error : Type 0 where
  invalid_tenant async_disabled run_not_awaiting_review engine_stuck : Error
  repository_error : RepositoryError → Error
  workflow_error : Service.Error → Error
  graph_error : GraphError → Error
  generate_run_id step_failed_to_start enqueue_failed : String → Error

-- The repositories, the job queue if one is set, and the world.
pub record System : Type 0 where
  pub store : Store
  pub workflows : Dict Workflow
  pub jobs : Option MemoryQueue
  pub world : World

abbrev pub with_world : System → World → System
with_world s w = record s { world = w }

-- `err.Error()` on the errors that are stored in a run.
unfoldable pub error_text : Error → String
error_text (workflow_error e) = Service.error_text e
error_text (graph_error contains_cycle) = cycle_message
error_text (enqueue_failed e) = e
error_text (generate_run_id e) = Text.◌++◌ "generate run id: " e
error_text (step_failed_to_start e) = e
error_text invalid_tenant = "invalid tenant"
error_text async_disabled = "async execution is not configured"
error_text run_not_awaiting_review = "workflow run is not awaiting approval"
error_text (repository_error run_not_found) = "workflow run not found"
error_text (repository_error not_awaiting_review) = "workflow run is not awaiting approval"
error_text engine_stuck = ""

pub new_run_audit : Run → String → String → Dict Value → RecordParams
new_run_audit r event_type message metadata = record {
  run_id = r.id;
  workflow_id = r.workflow_id;
  step_id = "";
  node_id = "";
  event_type = event_type;
  message = message;
  metadata = metadata;
}

unfoldable pub audit_run : Env → Run → String → String → Dict Value → System → System
unfolding record_audit new_run_audit
audit_run env r event_type message metadata s =
    with_world s
      (record_audit env r.tenant_id (new_run_audit r event_type message metadata) s.world)

-- More rounds than a graph has nodes.
abbrev pub enough_fuel : Graph → ℕ
enough_fuel g = suc (length (keys g.nodes))

-- What `executeRun` does with the outcome of the engine.
unfoldable pub settle : Env → Run → Outcome × System → Result Error Run × System
unfolding audit_run
settle env run (failed_at st node e, s) =
    let (now, w) = read env s.world in
    let run' : Run = record run {
      status = failed;
      error = e;
      output = obj (field "failed_node" (str node) end);
      completed_at = now;
    } in
    let s' = record s { store = complete_run run' st.steps s.store; world = w } in
    (ok run', audit_run env run' "run_failed" e (("failed_node", str node) ∷ []) s')
settle env run (paused st output pending, s) =
    let run' : Run = record run { status = waiting_approval; output = output } in
    let s' = record s { store = save_pending run' st.steps pending s.store } in
    (
      ok run',
      audit_run env run' "run_waiting_approval" "workflow run is waiting for approval" [] s',
    )
settle env run (finished st, s) =
    let (now, w) = read env s.world in
    let run' : Run = record run {
      status = completed;
      output = build_run_output st.last_node_id st.step_outputs;
      completed_at = now;
    } in
    let s' = record s { store = complete_run run' st.steps s.store; world = w } in
    (ok run', audit_run env run' "run_completed" "workflow run completed" [] s')
settle env run (broken st e, s) = (err (step_failed_to_start e), s)
settle env run (out_of_fuel, s) = (err engine_stuck, s)

unfoldable pub execute_run :
    Env → Run → Graph → Dict Value → ExecutionState → System → Result Error Run × System
unfolding audit_run
execute_run env run g input st s =
    let s1 = audit_run env run "run_started" "workflow run started" [] s in
    let (o, w) = continue_execution env run.id run.tenant_id g input (enough_fuel g) st s1.world in
    settle env run (o, with_world s1 w)
