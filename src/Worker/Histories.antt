-- ===== src/Worker/Histories.antt =====
-- The states that calls of internal/executor and internal/worker lead to, one call at a time.
use ai_workflow.Base.{◌≡◌, refl, String, Option, none, some, ok}
use ai_workflow.Base.Dict.{Dict, lookup}
use ai_workflow.Base.Value.{Value}
use ai_workflow.Executor.{Env, draw}
use ai_workflow.Executor.Jobs.{MemoryQueue, Fires}
use ai_workflow.Executor.Repository.{empty_store}
use ai_workflow.Executor.Repository.Laws.{IsSound}
use ai_workflow.Executor.Service.{System}
use ai_workflow.Executor.Service.Sync.{execute_sync}
use ai_workflow.Executor.Service.Async.{execute_async}
use ai_workflow.Executor.Service.Resume.{Decision, resume_approval}
use ai_workflow.Executor.Service.Waiting.{execute_sync-IsKept, execute_async-IsKept}
use ai_workflow.Executor.Service.Resuming.{resume_approval-IsKept}
use ai_workflow.Worker.{process_next}
use ai_workflow.Worker.Attempts.{process_next-IsSound}

-- The systems reached from one with no runs. A run's id is one that no run has.
pub data Reached (env : Env) : System → Type 0 where
  start : (s : System) → s.store ≡ empty_store → Reached env s
  syncs :
      (tenant_id workflow_id : String) (input : Dict Value) (s : System)
      → Reached env s
      → ((id : String) → (draw env s.world).0 ≡ ok id → lookup id s.store.runs ≡ none)
      → Reached env (execute_sync env tenant_id workflow_id input s).1
  asyncs :
      (context_error tenant_id workflow_id : String) (input : Dict Value) (s : System)
      → Reached env s
      → ((id : String) → (draw env s.world).0 ≡ ok id → lookup id s.store.runs ≡ none)
      → Reached env (execute_async env context_error tenant_id workflow_id input s).1
  resumes :
      (tenant_id run_id : String) (d : Decision) (input : Dict Value) (s : System)
      → Reached env s
      → Reached env (resume_approval env tenant_id run_id d input s).1
  works :
      (context : Option String) (q : MemoryQueue) (s : System)
      → Reached env s
      → s.jobs ≡ some q
      → Reached env (process_next env context q s).1
  timer :
      (q q' : MemoryQueue) (s : System)
      → Reached env s
      → s.jobs ≡ some q
      → Fires q q'
      → Reached env (record s { jobs = some q' })

empty-IsSound : IsSound empty_store
unfolding lookup
empty-IsSound = record { keyed = λ k r e. absurd (cc e); pending = λ k. refl }

-- In every state that is reached from an empty store by executing, queueing, processing and
-- resuming runs, in any order, where each id drawn for a new run is one that no run has, each run
-- is stored under its id, and a state is pending for exactly the runs that wait for an approval.
pub reached-IsSound : (env : Env) (s : System) → Reached env s → IsSound s.store
reached-IsSound env _ (start s e) = rw e empty-IsSound
reached-IsSound env _ (syncs tenant_id workflow_id input s h fresh) =
    (execute_sync-IsKept env tenant_id workflow_id input s (reached-IsSound env s h) fresh).sound
reached-IsSound env _ (asyncs context_error tenant_id workflow_id input s h fresh) =
    (execute_async-IsKept env context_error tenant_id workflow_id input s (reached-IsSound env s h)
      fresh).sound
reached-IsSound env _ (resumes tenant_id run_id d input s h) =
    (resume_approval-IsKept env tenant_id d run_id input s (reached-IsSound env s h)).sound
reached-IsSound env _ (works context q s h e) =
    process_next-IsSound env context q s (reached-IsSound env s h)
reached-IsSound env _ (timer q q' s h e f) = reached-IsSound env s h
