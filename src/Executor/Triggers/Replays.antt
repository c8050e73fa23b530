-- ===== src/Executor/Triggers/Replays.antt =====
-- Which run a repeated request is answered with (internal/executor/service.go).
use ai_workflow.Base.{
  ◌≡◌, refl, ℕ, inl, inr, Bool-cases, String, false, Option, none, some, Result, ok, err, is_blank,
}
use ai_workflow.Base.Dict.{lookup}
use ai_workflow.Executor.{Run}
use ai_workflow.Executor.Repository.{Store, RepositoryError, get_run}
use ai_workflow.Executor.Repository.Loading.{get_run-eq-ok, get_run_stored}
use ai_workflow.Tenant.Controls.{
  TriggerControl, TriggerQuota, allow, IdempotencyRecord, Error, lookup_record,
}
use ai_workflow.Tenant.Controls.Idempotency.{lookup-stored}
use ai_workflow.Executor.Triggers.{
  reserved, reserve_execution, found_run, replayed, lookup_idempotent_run, store_idempotent_run,
  idempotency_record,
}

replayed_owner :
    (tenant_id : String) (r : Run) (s : Store) (x : Result Error (Option IdempotencyRecord))
    → replayed tenant_id s x ≡ ok (some r)
    → (id : String) × (get_run tenant_id id s ≡ ok r)
unfolding replayed
replayed_owner tenant_id r s (err e) h = absurd (cc h)
replayed_owner tenant_id r s (ok none) h = absurd (cc h)
replayed_owner tenant_id r s (ok (some i)) h =
    (i.run_id, found (get_run tenant_id i.run_id s) (cc h))
  where
    found : (x : Result RepositoryError Run) → found_run x ≡ some r → x ≡ ok r
    found (err e) e' = absurd (cc e')
    found (ok y) e' = cc e'

-- Whatever the idempotency records hold, a run that `LookupIdempotentRun` finds for a tenant is a
-- stored run of that tenant.
pub lookup_idempotent_run_owner :
    (control : Option TriggerControl) (tenant_id key fingerprint : String) (s : Store) (r : Run)
    → lookup_idempotent_run control tenant_id key fingerprint s ≡ ok (some r)
    → (r.tenant_id ≡ tenant_id) × (id : String) × (lookup id s.runs ≡ some r)
unfolding lookup_idempotent_run
lookup_idempotent_run_owner none tenant_id key fingerprint s r h = absurd (cc h)
lookup_idempotent_run_owner (some c) tenant_id key fingerprint s r h =
    let (id, got) = replayed_owner tenant_id r s (lookup_record c tenant_id key fingerprint) h in
    let (found, owner) = get_run-eq-ok tenant_id id r s got in (owner, id, found)

-- A request that stored its run under a nonblank key is answered with that run when it is repeated:
-- same tenant, key and fingerprint, while the run is stored.
pub replayed_request :
    (c : TriggerControl) (key fingerprint : String) (run : Run) (s : Store)
    → is_blank key ≡ false
    → lookup run.id s.runs ≡ some run
    → (store_idempotent_run (some c) run.tenant_id key fingerprint run).1 ≡ none
    → lookup_idempotent_run
        (store_idempotent_run (some c) run.tenant_id key fingerprint run).0
        run.tenant_id
        key
        fingerprint
        s
      ≡ ok (some run)
unfolding lookup_idempotent_run store_idempotent_run replayed found_run
replayed_request c key fingerprint run s given stored e =
    let r = idempotency_record fingerprint run in
    simp (lookup-stored c run.tenant_id key r given e, get_run_stored run.id run s stored) refl

reserved-some :
    (x : TriggerControl × TriggerQuota × Option Error)
    → (c : TriggerControl) × ((reserved x).0 ≡ some c)
unfolding reserved
reserved-some (c, quota, none) = (c, refl)
reserved-some (c, quota, some e) = (c, refl)

-- A service with controls keeps them.
pub reserve_execution-some :
    (c : TriggerControl) (now : ℕ) (tenant_id : String)
    → (c' : TriggerControl) × ((reserve_execution (some c) now tenant_id).0 ≡ some c')
unfolding reserve_execution
reserve_execution-some c now tenant_id = elim (Bool-cases (is_blank tenant_id)) [
  | inl blank ↦ (c, rw blank refl)
  | inr given ↦ let (c', kept) = reserved-some (allow c now tenant_id) in (c', rw given kept)
]
