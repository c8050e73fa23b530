-- ===== src/Worker/Attempts.antt =====
-- What one call of `ProcessNext` (internal/worker/service.go) does to a job and to the store.
use ai_workflow.Base.{refl, ap, ◌∙◌, String, Bool, Option, none, some, ltb, Result, ok, err}
use ai_workflow.Base.{ite_rule, if_rule}
use ai_workflow.Executor.{Run, RunStatus-discrete, Env, failed}
use ai_workflow.Executor.Jobs.{Job, MemoryQueue, dequeue, enqueue_after}
use ai_workflow.Executor.Repository.Laws.{IsSound, is_waiting, waits}
use ai_workflow.Executor.Service.{Error, System}
use ai_workflow.Executor.Service.Outcomes.{IsKept}
use ai_workflow.Executor.Service.Async.{process_async_job}
use ai_workflow.Executor.Service.Processing.{
  process_async_job-IsKept, mark_async_retry-IsSound, mark_dead_letter-IsSound,
}
use ai_workflow.Worker.{
  process_next, dequeued, after_processing, retry_or_give_up, requeue, retry_job, retry_delay,
}

abbrev Keeps : Result Error Bool × System → Type 0
Keeps x = IsSound x.1.store

requeue-Keeps :
    (context : Option String) (job : Job) (q : MemoryQueue) (s : System)
    → IsSound s.store
    → Keeps (requeue context job q s)
unfolding requeue enqueue_after
requeue-Keeps none job q s h = h
requeue-Keeps (some e) job q s h = h

module _ (env : Env) (context : Option String) where
  after_processing-Keeps :
      (job : Job) (q : MemoryQueue) (x : Result Error Run × System)
      → IsKept x
      → Keeps (after_processing env context job q x)
  unfolding after_processing retry_or_give_up
  after_processing-Keeps job q (err e, s) h = h.sound
  after_processing-Keeps job q (ok run, s) h =
      ite_rule Keeps (RunStatus-discrete run.status failed) _ _
        (λ e.
          let free = ap waits (h.stored run refl) ∙ ap is_waiting e in
          if_rule Keeps (ltb run.attempt run.max_attempts) _ _
            (requeue-Keeps context (retry_job job run) q _
              (mark_async_retry-IsSound env run (retry_delay run.attempt) s h.sound free))
            (mark_dead_letter-IsSound env run s h.sound free))
        (λ ne. h.sound)

  dequeued-Keeps :
      (s : System) (x : Option Job × MemoryQueue)
      → IsSound s.store
      → Keeps (dequeued env context s x)
  unfolding dequeued
  dequeued-Keeps s (none, q) h = h
  dequeued-Keeps s (some job, q) h =
      after_processing-Keeps job q (process_async_job env job (record s { jobs = some q }))
        (process_async_job-IsKept env job (record s { jobs = some q }) h)

  pub process_next-IsSound :
      (q : MemoryQueue) (s : System)
      → IsSound s.store
      → IsSound (process_next env context q s).1.store
  unfolding process_next
  process_next-IsSound q s h = dequeued-Keeps s (dequeue q) h
