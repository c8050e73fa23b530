-- ===== src/Executor/Jobs.antt =====
-- Async jobs (internal/executor/service.go) and the in-memory job queue
-- (internal/worker/memory_queue.go). A map is a value, so `cloneJob` is the identity.
use ai_workflow.Base.{
  ℕ, ◌<◌, ◌≡◌, String, Option, none, some, List, [], ◌∷◌, ◌++◌, ltb, if◌then◌else◌, length, Result,
  ok, err,
}
use ai_workflow.Base.Dict.{Dict}
use ai_workflow.Base.Int.{ℤ, is_nonpositive, to_ℕ}
use ai_workflow.Base.Value.{Value}

pub record Job : Type 0 where
  pub run_id : String
  pub tenant_id : String
  pub workflow_id : String
  pub attempt : ℕ
  pub max_attempts : ℕ
  pub input : Dict Value

-- The channel's buffer, oldest first, and the jobs of the timers that have not fired.
pub record MemoryQueue : Type 0 where
  pub capacity : ℕ
  pub ready : List Job
  pub delayed : List Job

unfoldable pub new_memory_queue : ℤ → MemoryQueue
new_memory_queue size = record {
  capacity = if is_nonpositive size then 128 else to_ℕ size;
  ready = [];
  delayed = [];
}

-- Sending blocks while the buffer is full, until the context ends with the given error.
unfoldable pub enqueue : String → Job → MemoryQueue → Result String MemoryQueue
enqueue context_error job q =
    if ltb (length q.ready) q.capacity
    then ok (record q { ready = q.ready ++ job ∷ [] })
    else err context_error

-- `EnqueueAfter` starts a timer; `none` is a context that has not ended.
unfoldable pub enqueue_after : Option String → Job → MemoryQueue → Result String MemoryQueue
enqueue_after none job q = ok (record q { delayed = q.delayed ++ job ∷ [] })
enqueue_after (some e) job q = err e

-- A timer fires: its goroutine sends the job once there is room.
pub data Fires : MemoryQueue → MemoryQueue → Type 0 where
  fires :
      (q : MemoryQueue) (before after : List Job) (job : Job)
      → q.delayed ≡ before ++ job ∷ after
      → length q.ready < q.capacity
      → Fires q (record q { ready = q.ready ++ job ∷ []; delayed = before ++ after })

-- `Dequeue`: the oldest job, or none when the wait times out on an empty buffer.
unfoldable pub dequeue : MemoryQueue → Option Job × MemoryQueue
dequeue q = elim q.ready [ [] ↦ (none, q) | job ∷ rest ↦ (some job, record q { ready = rest }) ]
