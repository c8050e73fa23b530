-- ===== src/Worker/Redis/Queue.antt =====
-- The operations of the queue of internal/worker/redis_queue.go. The server and the connections to
-- it are a parameter: a command, as bytes, in a state of the server gives the pieces in which the
-- reply arrives and the next state, or `none` when it cannot be written.
use ai_workflow.Base.{
  ℕ, zero, suc, ◌+◌, String, Option, none, some, List, [], ◌∷◌, ◌++◌, ltb, if◌then◌else◌, length,
  Result, ok, err, is_blank,
}
use Prim.Native.Nat.{◌/◌}
use Prim.Native.String as Text
use ai_workflow.Base.Int.{ℤ, pos}
use ai_workflow.Base.Text.{codes}
use ai_workflow.Executor.Jobs.{Job}
use ai_workflow.Worker.Redis.Decimal.{Bytes, decimal}
use ai_workflow.Worker.Redis.Reader.{Reader, reader}
use ai_workflow.Worker.Redis.Wire.{write_resp_array, RespError, read_resp_integer, read_resp_array}

pub data QueueError : Type 0 where
  marshal_failed connect_failed decode_failed : String → QueueError
  write_failed : QueueError
  bad_reply : RespError → QueueError
  unexpected_length : ℕ → QueueError
  -- the rounds that are allowed to `promoteDueJobs` are used up
  out_of_fuel : QueueError

pub record RedisQueue : Type 0 where
  pub key : Bytes
  pub delayed_key : Bytes

-- `dial` and `command` stand for the server, `marshal` and `unmarshal` for encoding/json.
pub record Server (S : Type 0) : Type 0 where
  pub dial : S → Option String
  pub command : Bytes → S → Option (List Bytes × S)
  pub marshal : Job → Result String Bytes
  pub unmarshal : Bytes → Result String Job

-- An open connection: the server, and the replies that are not read yet.
pub record Connection (S : Type 0) : Type 0 where
  pub server : S
  pub replies : Reader

-- The server's state, for the error paths too.
abbrev pub Attempt : Type 0 → Type 0 → Type 0
Attempt S A = Result QueueError A × S

abbrev pub due_command : RedisQueue → ℕ → List Bytes
due_command q now =
    codes "ZRANGEBYSCORE"
    ∷ q.delayed_key
    ∷ codes "-inf"
    ∷ decimal now
    ∷ codes "LIMIT"
    ∷ codes "0"
    ∷ codes "32"
    ∷ []

abbrev pub seconds : ℕ → ℕ
seconds wait = if ltb (wait / 1000) 1 then 1 else wait / 1000

module _ {S : Type 0} (redis : Server S) where
  abbrev pub sent : Connection S → Option (List Bytes × S) → Option (Connection S)
  sent c none = none
  sent c (some (pieces, s)) =
      some record { server = s; replies = reader c.replies.buffer (c.replies.arriving ++ pieces) }

  -- `writeRESPArray` on a connection.
  abbrev pub write_command : List Bytes → Connection S → Option (Connection S)
  write_command values c = sent c (redis.command (write_resp_array values) c.server)

  unfoldable pub integer_reply : Connection S → Attempt (Connection S) ℤ
  integer_reply c = elim (read_resp_integer c.replies) [
    | err e ↦ (err (bad_reply e), c)
    | ok (n, r) ↦ (ok n, record c { replies = r })
  ]

  -- A command whose reply is an integer.
  unfoldable pub ask_integer : List Bytes → Connection S → Attempt (Connection S) ℤ
  unfolding integer_reply
  ask_integer values c = elim (write_command values c) [
    | none ↦ (err write_failed, c)
    | some c' ↦ integer_reply c'
  ]

  unfoldable pub array_reply : Connection S → Attempt (Connection S) (Option (List Bytes))
  array_reply c = elim (read_resp_array c.replies) [
    | err e ↦ (err (bad_reply e), c)
    | ok (values, r) ↦ (ok values, record c { replies = r })
  ]

  -- A command whose reply is an array.
  unfoldable pub ask_array :
      List Bytes → Connection S → Attempt (Connection S) (Option (List Bytes))
  unfolding array_reply
  ask_array values c = elim (write_command values c) [
    | none ↦ (err write_failed, c)
    | some c' ↦ array_reply c'
  ]

  abbrev pub connected : S → Connection S
  connected s = record { server = s; replies = reader [] [] }

  -- A body that runs on a connection, which is closed after it.
  abbrev pub close : {A : Type 0} → Attempt (Connection S) A → Attempt S A
  close (result, c) = (result, c.server)

  -- What follows a step that succeeds.
  abbrev pub and_then :
      {A B : Type 0}
      → Attempt (Connection S) A
      → (A → Connection S → Attempt (Connection S) B)
      → Attempt (Connection S) B
  and_then (err e, c) next = (err e, c)
  and_then (ok a, c) next = next a c

  abbrev pub ignored : ℤ → Connection S → Attempt (Connection S) Unit
  ignored _ c = (ok tt, c)

  -- `connect`
  abbrev pub with_connection :
      {A : Type 0} → (Connection S → Attempt (Connection S) A) → S → Attempt S A
  with_connection body s = elim (redis.dial s) [
    | some e ↦ (err (connect_failed e), s)
    | none ↦ close (body (connected s))
  ]

  unfoldable pub enqueue : RedisQueue → Job → S → Attempt S Unit
  unfolding ask_integer
  enqueue q job s = elim (redis.marshal job) [
    | err e ↦ (err (marshal_failed e), s)
    | ok payload ↦
        with_connection
          (λ c. and_then (ask_integer (codes "LPUSH" ∷ q.key ∷ payload ∷ []) c) ignored) s
  ]

  -- The score is the time, in milliseconds, from which on the job is due.
  unfoldable pub enqueue_after : RedisQueue → Job → ℕ → ℕ → S → Attempt S Unit
  unfolding ask_integer
  enqueue_after q job now delay s = elim (redis.marshal job) [
    | err e ↦ (err (marshal_failed e), s)
    | ok payload ↦
        with_connection
          (λ c.
            and_then
              (ask_integer (codes "ZADD" ∷ q.delayed_key ∷ decimal (now + delay) ∷ payload ∷ []) c)
              ignored)
          s
  ]

  -- The push that follows the removal of a payload, unless another worker has removed it.
  unfoldable pub push_removed : RedisQueue → Bytes → ℤ → Connection S → Attempt (Connection S) Unit
  unfolding ask_integer
  push_removed q payload (pos zero) c = (ok tt, c)
  push_removed q payload removed c =
      and_then (ask_integer (codes "LPUSH" ∷ q.key ∷ payload ∷ []) c) ignored

  unfoldable pub promote_one : RedisQueue → Bytes → Connection S → Attempt (Connection S) Unit
  unfolding push_removed
  promote_one q payload c =
      and_then (ask_integer (codes "ZREM" ∷ q.delayed_key ∷ payload ∷ []) c)
        (push_removed q payload)

  -- The inner loop of `promoteDueJobs`.
  unfoldable pub promote_all : RedisQueue → List Bytes → Connection S → Attempt (Connection S) Unit
  unfolding promote_one
  promote_all q [] c = (ok tt, c)
  promote_all q (payload ∷ payloads) c =
      and_then (promote_one q payload c) (λ _ c'. promote_all q payloads c')

  -- `promoteDueJobs`, with at most as many rounds as the fuel.
  unfoldable pub promote_due_jobs : ℕ → RedisQueue → ℕ → Connection S → Attempt (Connection S) Unit
  unfolding ask_array promote_all
  promote_due_jobs zero q now c = (err out_of_fuel, c)
  promote_due_jobs (suc fuel) q now c = and_then (ask_array (due_command q now) c) (λ values c'.
      elim values [
        | none ↦ (ok tt, c')
        | some payloads ↦ elim payloads [
          | [] ↦ (ok tt, c')
          | first ∷ rest ↦
              and_then (promote_all q (first ∷ rest) c') (λ _ c''. promote_due_jobs fuel q now c'')
        ]
      ])

  -- The reply to `BRPOP`: the key and the payload.
  unfoldable pub decoded : Option (List Bytes) → Result QueueError (Option Job)
  decoded none = ok none
  decoded (some (key ∷ payload ∷ [])) = elim (redis.unmarshal payload) [
    | err e ↦ err (decode_failed e)
    | ok job ↦ ok (some job)
  ]
  decoded (some values) = err (unexpected_length (length values))

  unfoldable pub pop : RedisQueue → ℕ → Connection S → Attempt (Connection S) (Option Job)
  unfolding ask_array decoded
  pop q wait c =
      and_then (ask_array (codes "BRPOP" ∷ q.key ∷ decimal (seconds wait) ∷ []) c)
        (λ values c'. (decoded values, c'))

  -- `Dequeue`, at a time and with a number of milliseconds to wait; `none` is no job.
  unfoldable pub dequeue : ℕ → RedisQueue → ℕ → ℕ → S → Attempt S (Option Job)
  unfolding promote_due_jobs pop
  dequeue fuel q now wait s =
      with_connection (λ c. and_then (promote_due_jobs fuel q now c) (λ _. pop q wait)) s

-- `NewRedisQueue`, without the address; the key is an ASCII text.
unfoldable pub new_redis_queue : String → RedisQueue
new_redis_queue key =
    let name = if is_blank key then "workflow:jobs:async" else key in
    record { key = codes name; delayed_key = codes (Text.◌++◌ name ":delayed") }
