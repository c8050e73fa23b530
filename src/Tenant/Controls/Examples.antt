-- ===== src/Tenant/Controls/Examples.antt =====
-- The quota and the idempotency records of internal/tenant/controls.go, run on small inputs.
use ai_workflow.Base.{
  ◌-◌, ◌≡◌, refl, ◌⊎◌, none, some, List, [], ◌∷◌, arith, ok, err, eq_iff, trim_space, is_blank,
}
use Prim.Native.Nat.{min}
use ai_workflow.Base.Dict.{lookup}
use ai_workflow.Tenant.Controls.{
  TriggerControl, QuotaBucket, IdempotencyRecord, idempotency_conflict, record_key, lookup_record,
  store_record,
}
use ai_workflow.Tenant.Controls.Quota.{Call, admitted, calls_of, admitted-eq-min}
use ai_workflow.Tenant.Controls.Idempotency.{lookup-store, lookup-store_ne, tenants_meet}

-- A limit of two calls, one of which is used.
abbrev bucket : QuotaBucket
bucket = record { window_start = 10; count = 1 }

abbrev control : TriggerControl
control = record { limit = 2; window = 60; quotas = ("acme", bucket) ∷ []; records = [] }

abbrev calls : List Call
calls =
    record { now = 20; tenant_id = "acme" }
    ∷ record { now = 21; tenant_id = "other" }
    ∷ record { now = 22; tenant_id = "acme" }
    ∷ []

admitted-eq-min_example :
    admitted control "acme" calls ≡ min (calls_of "acme" calls) (control.limit - bucket.count)
unfolding lookup
admitted-eq-min_example =
    admitted-eq-min control "acme" bucket calls
      (record { limited = omega arith; bucket = refl; started = omega arith; within = omega arith })
      (omega arith, (omega arith, (omega arith, tt)))

abbrev idempotent : IdempotencyRecord
idempotent = record { fingerprint = "f"; run_id = "r"; trigger_mode = "sync" }

lookup-store_example :
    (((store_record control "acme" "k" idempotent).1 ≡ none)
      × (lookup_record (store_record control "acme" "k" idempotent).0 "acme" "k" "g"
          ≡ err idempotency_conflict))
    ⊎ (((store_record control "acme" "k" idempotent).1 ≡ some idempotency_conflict)
        × ((store_record control "acme" "k" idempotent).0 ≡ control)
        × (lookup_record control "acme" "k" "f" ≡ err idempotency_conflict))
unfolding is_blank trim_space
lookup-store_example = lookup-store control "acme" "k" "g" idempotent refl

lookup-store_ne_example :
    lookup_record (store_record control "acme" "k" idempotent).0 "other" "k" "f"
    ≡ lookup_record control "other" "k" "f"
lookup-store_ne_example =
    lookup-store_ne control "acme" "other" "k" "k" "f" idempotent
      (omega arith, (omega arith, (omega arith, (omega arith, tt))))
      (omega arith, (omega arith, (omega arith, (omega arith, (omega arith, tt)))))
      (λ e. absurd (cc ((eq_iff "acme" "other").1 e)))

tenants_meet_example :
    lookup_record (store_record control "a:x" "k" idempotent).0 "a" "x:k" "f" ≡ ok (some idempotent)
unfolding is_blank trim_space store_record record_key lookup
tenants_meet_example = tenants_meet control "a" "x" "k" idempotent refl refl refl
