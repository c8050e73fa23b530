-- ===== src/Worker/Examples.antt =====
-- The worker (internal/worker/service.go) on small queues.
use ai_workflow.Base.{◌≡◌, refl, none, some, [], ◌∷◌, arith, ok, err, trim_space, is_blank}
use ai_workflow.Base.Dict.{lookup, insert}
use ai_workflow.Base.Value.{null}
use ai_workflow.Workflow.Service
use ai_workflow.Audit.{draw_id}
use ai_workflow.Executor.Graph.{build_graph}
use ai_workflow.Executor.Queue.{mark_all}
use ai_workflow.Executor.Steps.{await_approval}
use ai_workflow.Executor.Engine.{continue_execution, loop, round, node_at, new_execution_state}
use ai_workflow.Executor.Service.{execute_run, settle}
use ai_workflow.Executor.{RunStatus-discrete}
use ai_workflow.Executor.{Run, queued, async}
use ai_workflow.Executor.Jobs.{Job, MemoryQueue, dequeue}
use ai_workflow.Executor.Repository.{get_run}
use ai_workflow.Executor.Repository.Laws.{IsSound}
use ai_workflow.Executor.Service.{System}
use ai_workflow.Executor.Service.Sync.{execute_sync}
use ai_workflow.Executor.Service.Async.{process_async_job}
use ai_workflow.Worker.{process_next, retry_job}
use ai_workflow.Worker.Histories.{start, syncs, works, reached-IsSound}
use ai_workflow.Worker.Retries.{RetriedOrDead, process_next_lem, missing_workflow_retried}
use ai_workflow.Samples.{env, queue, review, system}

-- After a run that waits, the worker looks at its empty queue.
reached-IsSound_example :
    IsSound
      (process_next env none queue (execute_sync env "acme" "flow" [] (system review)).1).1.store
unfolding execute_sync lookup is_blank trim_space Service.get build_graph insert draw_id execute_run
    settle continue_execution loop round node_at new_execution_state await_approval mark_all
reached-IsSound_example =
    reached-IsSound env
      (process_next env none queue (execute_sync env "acme" "flow" [] (system review)).1).1
      (works none queue (execute_sync env "acme" "flow" [] (system review)).1
        (syncs "acme" "flow" [] (system review) (start (system review) refl) (λ id e. refl)) refl)

abbrev queued_run : Run
queued_run = record {
  id = "r";
  tenant_id = "acme";
  workflow_id = "gone";
  status = queued;
  trigger_mode = async;
  attempt = 0;
  max_attempts = 3;
  input = [];
  output = null;
  error = "";
  created_at = 1;
  started_at = 0;
  completed_at = 0;
}

abbrev job : Job
job = record {
  run_id = "r";
  tenant_id = "acme";
  workflow_id = "gone";
  attempt = 0;
  max_attempts = 3;
  input = [];
}

abbrev full : MemoryQueue
full = record queue { ready = job ∷ [] }

abbrev busy : System
busy = record (system review) {
  store = record { runs = ("r", queued_run) ∷ []; steps = []; pending = [] };
  jobs = some full;
}

abbrev failed_run : Run
failed_run = elim (process_async_job env job (record busy { jobs = some queue })).0 [
  | ok r ↦ r
  | err e ↦ queued_run
]

process_next_lem_example : RetriedOrDead job failed_run queue (process_next env none full busy)
unfolding dequeue process_async_job is_blank trim_space get_run lookup Service.get
    RunStatus-discrete
process_next_lem_example = process_next_lem env job failed_run full queue busy refl refl refl

missing_workflow_retried_example :
    (r : Run) × (lookup "r" (process_next env none full busy).1.store.runs ≡ some r)
    × (r.status ≡ queued)
    × (r.attempt ≡ 0)
    × ((process_next env none full busy).1.jobs
        ≡ some (record queue { delayed = retry_job job queued_run ∷ [] }))
unfolding dequeue is_blank trim_space get_run lookup Service.get
missing_workflow_retried_example =
    missing_workflow_retried env job queued_run full queue busy Service.not_found refl refl refl
      refl refl (omega arith)
