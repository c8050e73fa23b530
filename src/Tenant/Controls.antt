-- ===== src/Tenant/Controls.antt =====
-- internal/tenant/controls.go: the rate limit of each tenant and the idempotency records. Times and
-- durations are nanoseconds; time 0 is the zero `time.Time`. A call holds the mutex throughout, so
-- it is one step; the value of the clock is an argument.
pub mod Quota
pub mod Idempotency
pub mod Examples
use Prim.Native.String
use ai_workflow.Base.{
  ℕ, suc, ◌+◌, ◌-◌, String, Bool, false, ◌||◌, not, Option, none, some, leb, eqb, if◌then◌else◌,
  ◌==◌, trim_space, Result, ok, err, [],
}
use ai_workflow.Base.Int.{ℤ, to_ℕ, is_nonpositive}
use ai_workflow.Base.Dict.{Dict, lookup, lookup_or, insert}

pub data Error : Type 0 where
  rate_limited idempotency_conflict : Error

pub record TriggerQuota : Type 0 where
  pub limit : ℕ
  pub remaining : ℕ
  pub reset_at : ℕ

abbrev pub no_quota : TriggerQuota
no_quota = record { limit = 0; remaining = 0; reset_at = 0 }

pub record IdempotencyRecord : Type 0 where
  pub fingerprint : String
  pub run_id : String
  pub trigger_mode : String

pub record QuotaBucket : Type 0 where
  pub window_start : ℕ
  pub count : ℕ

abbrev pub empty_bucket : QuotaBucket
empty_bucket = record { window_start = 0; count = 0 }

pub record TriggerControl : Type 0 where
  pub limit : ℕ
  pub window : ℕ
  pub quotas : Dict QuotaBucket
  pub records : Dict IdempotencyRecord

-- `time.Minute`
abbrev pub minute : ℕ
minute = 60_000_000_000

unfoldable pub new_trigger_control : ℤ → ℤ → TriggerControl
new_trigger_control limit window = record {
  limit = to_ℕ limit;
  window = if is_nonpositive window then minute else to_ℕ window;
  quotas = [];
  records = [];
}

-- The bucket that a call at `now` counts in: a new one once the window is over.
unfoldable pub current_bucket : TriggerControl → ℕ → QuotaBucket → QuotaBucket
current_bucket c now b =
    if eqb b.window_start 0 || leb (b.window_start + c.window) now
    then record { window_start = now; count = 0 }
    else b

-- The part of `Allow` after the bucket is chosen.
unfoldable pub charge :
    TriggerControl → String → QuotaBucket → TriggerControl × TriggerQuota × Option Error
charge c tenant_id b =
    if leb c.limit b.count
    then (
      c,
      record { limit = c.limit; remaining = 0; reset_at = b.window_start + c.window },
      some rate_limited,
    )
    else (
      record c { quotas = insert tenant_id (record b { count = suc b.count }) c.quotas },
      record {
        limit = c.limit;
        remaining = c.limit - suc b.count;
        reset_at = b.window_start + c.window;
      },
      none,
    )

unfoldable pub allow : TriggerControl → ℕ → String → TriggerControl × TriggerQuota × Option Error
unfolding current_bucket charge
allow c now tenant_id =
    if eqb c.limit 0
    then (c, no_quota, none)
    else charge c tenant_id (current_bucket c now (lookup_or empty_bucket tenant_id c.quotas))

unfoldable pub record_key : String → String → String
record_key tenant_id key = String.◌++◌ tenant_id (String.◌++◌ ":" key)

pub check_fingerprint : String → Option IdempotencyRecord → Result Error (Option IdempotencyRecord)
check_fingerprint fingerprint none = ok none
check_fingerprint fingerprint (some r) =
    if r.fingerprint == fingerprint then ok (some r) else err idempotency_conflict

-- `Lookup`; `ok none` is the result with `false` and no error.
unfoldable pub lookup_record :
    TriggerControl → String → String → String → Result Error (Option IdempotencyRecord)
unfolding check_fingerprint
lookup_record c tenant_id key fingerprint =
    let key' = trim_space key in
    if key' == ""
    then ok none
    else check_fingerprint fingerprint (lookup (record_key tenant_id key') c.records)

-- `existing.Fingerprint != record.Fingerprint`, for an existing record.
pub conflicts : Option IdempotencyRecord → IdempotencyRecord → Bool
conflicts none r = false
conflicts (some existing) r = not (existing.fingerprint == r.fingerprint)

unfoldable pub store_record :
    TriggerControl → String → String → IdempotencyRecord → TriggerControl × Option Error
unfolding conflicts
store_record c tenant_id key r =
    let key' = trim_space key in
    let storage_key = record_key tenant_id key' in
    if key' == ""
    then (c, none)
    else if conflicts (lookup storage_key c.records) r
    then (c, some idempotency_conflict)
    else (record c { records = insert storage_key r c.records }, none)
