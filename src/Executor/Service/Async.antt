-- ===== src/Executor/Service/Async.antt =====
-- internal/executor/async.go: queueing a run, processing a job, retries and dead letters.
use ai_workflow.Base.{
  ℕ, suc, String, true, none, some, [], ◌∷◌, ltb, if◌then◌else◌, Result, ok, err, is_blank,
}
use ai_workflow.Base.Dict.{Dict, insert}
use ai_workflow.Base.Value.{Value, null, num, bool, obj, field, end}
use ai_workflow.Workflow.{Workflow}
use ai_workflow.Workflow.Service
use ai_workflow.Executor.{
  Run, RunStatus-discrete, Env, queued, running, failed, dead_letter, async, draw, read,
}
use ai_workflow.Executor.Graph.{Graph, GraphError, build_graph}
use ai_workflow.Executor.Engine.{new_execution_state}
use ai_workflow.Executor.Jobs.{Job, MemoryQueue, enqueue}
use ai_workflow.Executor.Repository.{create_run, update_run, complete_run, get_run}
use ai_workflow.Executor.Service.{
  Error, System, with_world, invalid_tenant, async_disabled, workflow_error, graph_error,
  generate_run_id, enqueue_failed, repository_error, error_text, audit_run, execute_run,
}
use mathlib.Core.Logic.{ite}
use ai_workflow.Executor.Repository.{RepositoryError}

abbrev pub default_async_max_attempts : ℕ
default_async_max_attempts = 3

-- `mergeInput`
unfoldable pub merge_input : Dict Value → Dict Value → Dict Value
merge_input base [] = base
merge_input base ((k, v) ∷ extra) = merge_input (insert k v base) extra

unfoldable pub async_run : String → String → String → Dict Value → ℕ → Run
async_run id tenant_id workflow_id input now = record {
  id = id;
  tenant_id = tenant_id;
  workflow_id = workflow_id;
  status = queued;
  trigger_mode = async;
  attempt = 0;
  max_attempts = default_async_max_attempts;
  input = input;
  output = null;
  error = "";
  created_at = now;
  started_at = 0;
  completed_at = 0;
}

-- A run that failed with this error before it ran, stored with no steps.
unfoldable pub fail_run : Env → Run → String → System → Run × System
fail_run env run e s =
    let (now, w) = read env s.world in
    let run' : Run = record run { status = failed; error = e; completed_at = now } in
    (run', record s { store = complete_run run' [] s.store; world = w })

unfoldable pub after_enqueue :
    Env → Run → System → Result String MemoryQueue → Result Error Run × System
unfolding fail_run
after_enqueue env run s (err e) = (err (enqueue_failed e), (fail_run env run e s).1)
after_enqueue env run s (ok q) = (ok run, record s { jobs = some q })

abbrev pub job_of : Run → Job
job_of run = record {
  run_id = run.id;
  tenant_id = run.tenant_id;
  workflow_id = run.workflow_id;
  attempt = 0;
  max_attempts = default_async_max_attempts;
  input = run.input;
}

unfoldable pub async_drawn :
    Env
    → String
    → String
    → String
    → Dict Value
    → MemoryQueue
    → System
    → Result String String
    → Result Error Run × System
unfolding after_enqueue async_run audit_run
async_drawn env context_error tenant_id workflow_id input q s (err e) = (err (generate_run_id e), s)
async_drawn env context_error tenant_id workflow_id input q s (ok run_id) =
    let (now, w) = read env s.world in
    let run = async_run run_id tenant_id workflow_id input now in
    let s1 = record s { store = create_run run s.store; world = w } in
    let s2 = audit_run env run "run_queued" "async run queued" [] s1 in
    after_enqueue env run s2 (enqueue context_error (job_of run) q)

unfoldable pub async_found :
    Env
    → String
    → String
    → String
    → Dict Value
    → MemoryQueue
    → System
    → Result Service.Error Workflow
    → Result Error Run × System
unfolding async_drawn
async_found env context_error tenant_id workflow_id input q s (err e) = (err (workflow_error e), s)
async_found env context_error tenant_id workflow_id input q s (ok wf) =
    let (r, w) = draw env s.world in
    async_drawn env context_error tenant_id workflow_id input q (with_world s w) r

-- `ExecuteAsync`; the context's error is that of a full queue.
unfoldable pub execute_async :
    Env → String → String → String → Dict Value → System → Result Error Run × System
unfolding async_found
execute_async env context_error tenant_id workflow_id input s =
    if is_blank tenant_id then (err invalid_tenant, s) else elim s.jobs [
      | none ↦ (err async_disabled, s)
      | some q ↦
          async_found env context_error tenant_id workflow_id input q s
            (Service.get tenant_id workflow_id s.workflows)
    ]

unfoldable pub process_on_graph :
    Env → Job → Run → System → Result GraphError Graph → Result Error Run × System
unfolding fail_run merge_input
process_on_graph env job run s (err e) =
    let (run', s') = fail_run env run (error_text (graph_error e)) s in (ok run', s')
process_on_graph env job run s (ok g) =
    let (now, w) = read env s.world in
    let run' : Run = record run {
      status = running;
      attempt = suc job.attempt;
      max_attempts = if ltb 0 job.max_attempts then job.max_attempts else run.max_attempts;
      input = merge_input run.input job.input;
      started_at = now;
    } in
    execute_run env run' g run'.input (new_execution_state g.roots)
      (record s { store = update_run run' s.store; world = w })

unfoldable pub process_workflow :
    Env → Job → Run → System → Result Service.Error Workflow → Result Error Run × System
unfolding process_on_graph fail_run
process_workflow env job run s (err e) =
    let (run', s') = fail_run env run (error_text (workflow_error e)) s in (ok run', s')
process_workflow env job run s (ok wf) = process_on_graph env job run s (build_graph wf.definition)

unfoldable pub process_run :
    Env → Job → System → Result RepositoryError Run → Result Error Run × System
unfolding process_workflow
process_run env job s (err e) = (err (repository_error e), s)
process_run env job s (ok run) =
    ite (RunStatus-discrete run.status queued)
      (process_workflow env job run s (Service.get job.tenant_id job.workflow_id s.workflows))
      (ok run, s)

-- `ProcessAsyncJob`
unfoldable pub process_async_job : Env → Job → System → Result Error Run × System
unfolding process_run
process_async_job env job s =
    if is_blank job.tenant_id
    then (err invalid_tenant, s)
    else process_run env job s (get_run job.tenant_id job.run_id s.store)

-- `MarkAsyncRetry`, for a delay in milliseconds.
unfoldable pub mark_async_retry : Env → Run → ℕ → System → Run × System
unfolding audit_run
mark_async_retry env run delay_ms s =
    let run' : Run = record run {
      status = queued;
      completed_at = 0;
      output = obj (
          field "retry_scheduled" (bool true) (
            field "retry_in_ms" (num delay_ms) (
              field "attempt" (num run.attempt)
                (field "max_attempts" (num run.max_attempts) end))));
    } in
    (
      run',
      audit_run env run' "retry_scheduled" "async retry scheduled"
          (("retry_in_ms", num delay_ms) ∷ []) (record s { store = update_run run' s.store }),
    )

-- `MarkDeadLetter`
unfoldable pub mark_dead_letter : Env → Run → System → Run × System
unfolding audit_run
mark_dead_letter env run s =
    let run' : Run = record run {
      status = dead_letter;
      output = obj (
          field "dead_lettered" (bool true)
            (field "attempt" (num run.attempt) (field "max_attempts" (num run.max_attempts) end)));
    } in
    (
      run',
      audit_run env run' "run_dead_lettered" "async run moved to dead letter" []
          (record s { store = update_run run' s.store }),
    )
