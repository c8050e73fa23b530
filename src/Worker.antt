-- ===== src/Worker.antt =====
-- internal/worker/service.go: the worker takes a job from the queue, has it processed, and queues
-- it again or gives it up when its run failed. Tracing and logging are left out.
pub mod Attempts
pub mod Histories
pub mod Retries
pub mod Definitions
pub mod Redis
pub mod Examples
use ai_workflow.Base.{
  ℕ, zero, suc, ◌-◌, ◌*◌, String, Bool, true, false, Option, none, some, ltb, leb, if◌then◌else◌,
  Result, ok, err,
}
use ai_workflow.Executor.{Run, RunStatus-discrete, Env, failed}
use ai_workflow.Executor.Jobs.{Job, MemoryQueue, dequeue, enqueue_after}
use ai_workflow.Executor.Service.{Error, System, enqueue_failed}
use ai_workflow.Executor.Service.Async.{process_async_job, mark_async_retry, mark_dead_letter}
use mathlib.Core.Logic.{ite}

-- The queue and `baseBackoff` of the worker's service, 50 milliseconds unless a test sets it.
abbrev pub base_backoff : ℕ
base_backoff = 50

pub power_of_two : ℕ → ℕ
power_of_two zero = 1
power_of_two (suc n) = 2 * power_of_two n

-- `retryDelay`, in milliseconds. A run that `ExecuteAsync` makes has three attempts, so that the
-- shift is at most by one; the overflow of a shift by far more attempts is not modelled.
unfoldable pub retry_delay : ℕ → ℕ
unfolding power_of_two
retry_delay attempt =
    if leb attempt 1 then base_backoff else base_backoff * power_of_two (attempt - 1)

-- The job as it is queued again.
unfoldable pub retry_job : Job → Run → Job
retry_job job run = record job { attempt = run.attempt; max_attempts = run.max_attempts }

requeue : Option String → Job → MemoryQueue → System → Result Error Bool × System
requeue context job q s = elim (enqueue_after context job q) [
  | err e ↦ (err (enqueue_failed e), s)
  | ok q' ↦ (ok true, record s { jobs = some q' })
]

retry_or_give_up :
    Env → Option String → Job → Run → MemoryQueue → System → Result Error Bool × System
unfolding requeue retry_job retry_delay
retry_or_give_up env context job run q s =
    if ltb run.attempt run.max_attempts
    then requeue context (retry_job job run) q
        (mark_async_retry env run (retry_delay run.attempt) s).1
    else (ok true, (mark_dead_letter env run s).1)

after_processing :
    Env → Option String → Job → MemoryQueue → Result Error Run × System → Result Error Bool × System
unfolding retry_or_give_up
after_processing env context job q (err e, s) = (err e, s)
after_processing env context job q (ok run, s) =
    ite (RunStatus-discrete run.status failed) (retry_or_give_up env context job run q s)
      (ok true, s)

dequeued : Env → Option String → System → Option Job × MemoryQueue → Result Error Bool × System
unfolding after_processing
dequeued env context s (none, q) = (ok false, s)
dequeued env context s (some job, q) =
    after_processing env context job q (process_async_job env job (record s { jobs = some q }))

-- `ProcessNext` for a queue; `context` is the error of a context that has ended.
unfoldable pub process_next :
    Env → Option String → MemoryQueue → System → Result Error Bool × System
unfolding dequeued
process_next env context q s = dequeued env context s (dequeue q)
