-- ===== src/Executor/Triggers.antt =====
-- `ReserveExecution`, `LookupIdempotentRun` and `StoreIdempotentRun` of
-- internal/executor/service.go, which apply the trigger controls of the tenants. `none` is a
-- service without controls.
pub mod Replays
use ai_workflow.Base.{ℕ, String, Option, none, some, if◌then◌else◌, Result, ok, err, is_blank}
use ai_workflow.Executor.{Run, TriggerMode, sync, async}
use ai_workflow.Executor.Repository.{Store, RepositoryError, get_run}
use ai_workflow.Tenant.Controls.{
  TriggerControl, TriggerQuota, IdempotencyRecord, Error, no_quota, allow, lookup_record,
  store_record,
}

pub data TriggerError : Type 0 where
  invalid_tenant : TriggerError
  control_error : Error → TriggerError

pub mode_text : TriggerMode → String
mode_text sync = "sync"
mode_text async = "async"

pub reserved :
    TriggerControl × TriggerQuota × Option Error
    → Option TriggerControl × TriggerQuota × Option TriggerError
reserved (c, quota, none) = (some c, quota, none)
reserved (c, quota, some e) = (some c, quota, some (control_error e))

unfoldable pub reserve_execution :
    Option TriggerControl → ℕ → String → Option TriggerControl × TriggerQuota × Option TriggerError
unfolding reserved
reserve_execution control now tenant_id =
    if is_blank tenant_id
    then (control, no_quota, some invalid_tenant)
    else elim control [ none ↦ (none, no_quota, none) | some c ↦ reserved (allow c now tenant_id) ]

-- A record whose run is not found counts as no record.
pub found_run : Result RepositoryError Run → Option Run
found_run (err e) = none
found_run (ok r) = some r

pub replayed : String → Store → Result Error (Option IdempotencyRecord) → Result Error (Option Run)
unfolding found_run
replayed tenant_id s (err e) = err e
replayed tenant_id s (ok none) = ok none
replayed tenant_id s (ok (some r)) = ok (found_run (get_run tenant_id r.run_id s))

-- `ok none` is the result with `false` and no error.
unfoldable pub lookup_idempotent_run :
    Option TriggerControl → String → String → String → Store → Result Error (Option Run)
unfolding replayed
lookup_idempotent_run none tenant_id key fingerprint s = ok none
lookup_idempotent_run (some c) tenant_id key fingerprint s =
    replayed tenant_id s (lookup_record c tenant_id key fingerprint)

abbrev pub idempotency_record : String → Run → IdempotencyRecord
idempotency_record fingerprint run = record {
  fingerprint = fingerprint;
  run_id = run.id;
  trigger_mode = mode_text run.trigger_mode;
}

unfoldable pub store_idempotent_run :
    Option TriggerControl → String → String → String → Run → Option TriggerControl × Option Error
unfolding mode_text
store_idempotent_run none tenant_id key fingerprint run = (none, none)
store_idempotent_run (some c) tenant_id key fingerprint run =
    let (c', e) = store_record c tenant_id key (idempotency_record fingerprint run) in (some c', e)
