-- ===== src/Api/Remembered.antt =====
-- The runs in the responses of `handleExecuteWorkflow` of internal/api/server.go are found again.
use ai_workflow.Base.{
  ℕ, ◌≡◌, refl, String, false, Option, none, some, arith, if◌then◌else◌, Result, ok, err, ◌==◌,
  is_blank,
}
use ai_workflow.Base.{if_rule}
use mathlib.Core.Path.{subst}
use ai_workflow.Base.Dict.{Dict, lookup}
use ai_workflow.Base.Value.{Value}
use ai_workflow.Executor.{Run, draw}
use ai_workflow.Executor.Repository.Laws.{IsSound}
use ai_workflow.Executor.Service as Execution
use ai_workflow.Executor.Service.{System, with_world}
use ai_workflow.Executor.Service.Outcomes.{IsKept}
use ai_workflow.Executor.Service.Waiting.{execute_sync-IsKept, execute_async-IsKept}
use ai_workflow.Executor.Service.Owners.{Owned, execute_sync-Owned, execute_async-Owned}
use ai_workflow.Executor.Service.Sync.{execute_sync}
use ai_workflow.Executor.Service.Async.{execute_async}
use ai_workflow.Executor.Triggers.{TriggerError, lookup_idempotent_run, store_idempotent_run}
use ai_workflow.Executor.Triggers.Replays.{replayed_request}
use ai_workflow.Tenant.Controls as Controls
use ai_workflow.Tenant.Controls.{TriggerControl, TriggerQuota}
use ai_workflow.Api.{Response, App, Setup, run, write_error}
use ai_workflow.Api.Errors.{
  write_execution_error-payload, Failure, of_execution, of_trigger, of_control,
  write_execution_error,
}
use ai_workflow.Api.Trigger.{Call, stored_response, after_run, run_mode, after_reserve}

-- No response to an error carries a run.
abbrev pub NoRun : Response → Type 0
NoRun r = (x : Run) → ¬ (r.payload ≡ run x)

pub write_execution_error-NoRun :
    (e : Failure) (fallback : String) → NoRun (write_execution_error e fallback)
write_execution_error-NoRun e fallback x same =
    let (m, payload) = write_execution_error-payload e fallback in
    absurd (ground (arith, same, payload))

module _ (setup : Setup) (call : Call) (fingerprint : String)
    (given : is_blank call.key ≡ false) where
  -- A run in the response is found again under the key.
  abbrev pub Remembered : Response × App → Type 0
  Remembered (response, app) =
      (r : Run)
      → response.payload ≡ run r
      → lookup_idempotent_run app.control call.tenant_id call.key fingerprint app.system.store
        ≡ ok (some r)

  stored_response-Remembered :
      (status : ℕ) (r : Run) (s : System) (app : App)
      → (x : Option TriggerControl × Option Controls.Error)
      → (x.1 ≡ none
          → lookup_idempotent_run x.0 call.tenant_id call.key fingerprint s.store ≡ ok (some r))
      → Remembered (stored_response setup call status r s app x)
  unfolding stored_response
  stored_response-Remembered status r s app (control, none) found r' same =
      let e : r ≡ r' = ground (arith, same) in
      subst
        (λ (y : Run).
          lookup_idempotent_run control call.tenant_id call.key fingerprint s.store ≡ ok (some y))
        e (found refl)
  stored_response-Remembered status r s app (control, some e) found r' same =
      absurd (
        write_execution_error-NoRun (of_control e) "failed to store idempotent workflow run" r'
          same)

  -- What `replayed_request` says, for a run of the tenant of the call.
  found_again :
      (c : TriggerControl) (r : Run) (s : System) (control : Option TriggerControl)
      → control ≡ some c
      → r.tenant_id ≡ call.tenant_id
      → lookup r.id s.store.runs ≡ some r
      → (store_idempotent_run control call.tenant_id call.key fingerprint r).1 ≡ none
      → lookup_idempotent_run
          (store_idempotent_run control call.tenant_id call.key fingerprint r).0
          call.tenant_id
          call.key
          fingerprint
          s.store
        ≡ ok (some r)
  found_again c r s control on owner stored = rw on (
      subst
        (λ (t : String).
          (store_idempotent_run (some c) t call.key fingerprint r).1 ≡ none
          → lookup_idempotent_run (store_idempotent_run (some c) t call.key fingerprint r).0 t
              call.key fingerprint s.store
            ≡ ok (some r))
        owner (replayed_request c call.key fingerprint r s.store given stored))

  after_run-Remembered :
      (c : TriggerControl) (status : ℕ) (app : App) (x : Result Execution.Error Run × System)
      → app.control ≡ some c
      → IsKept x
      → Owned call.tenant_id x
      → Remembered (after_run setup call fingerprint status app x)
  unfolding after_run
  after_run-Remembered c status app (err e, s) on kept owned = write_execution_error-lem e
    where
      write_execution_error-lem :
          (e : Execution.Error)
          → Remembered (
            write_execution_error (of_execution e) "failed to execute workflow",
            record app { system = s },
          )
      write_execution_error-lem e r' same =
          absurd (write_execution_error-NoRun (of_execution e) "failed to execute workflow" r' same)
  after_run-Remembered c status app (ok r, s) on kept owned =
      stored_response-Remembered status r s app
        (store_idempotent_run app.control call.tenant_id call.key fingerprint r)
        (found_again c r s app.control on owned (kept.stored r refl))

  run_mode-Remembered :
      (c : TriggerControl) (mode : String) (input : Dict Value) (app : App)
      → app.control ≡ some c
      → IsSound app.system.store
      → ((id : String)
          → (draw setup.env app.system.world).0 ≡ ok id
          → lookup id app.system.store.runs ≡ none)
      → Remembered (run_mode setup call mode fingerprint input app)
  unfolding run_mode
  run_mode-Remembered c mode input app on sound fresh =
      let t = call.tenant_id in
      let id = call.workflow_id in
      let by_sync = execute_sync setup.env t id input app.system in
      let by_async = execute_async setup.env setup.context_error t id input app.system in
      if_rule Remembered (mode == "sync") (after_run setup call fingerprint 200 app by_sync)
        (if mode == "async"
          then after_run setup call fingerprint 202 app by_async
          else (write_error 400 "execution mode must be sync or async", app))
        (after_run-Remembered c 200 app by_sync on
          (execute_sync-IsKept setup.env t id input app.system sound fresh)
          (execute_sync-Owned setup.env t id input app.system))
        (if_rule Remembered (mode == "async") (after_run setup call fingerprint 202 app by_async)
          (write_error 400 "execution mode must be sync or async", app)
          (after_run-Remembered c 202 app by_async on
            (execute_async-IsKept setup.env setup.context_error t id input app.system sound fresh)
            (execute_async-Owned setup.env t id input setup.context_error app.system))
          (λ r same. absurd (ground (arith, same))))

  pub after_reserve-Remembered :
      (c : TriggerControl) (mode : String) (input : Dict Value) (now : ℕ) (app : App)
      → (x : Option TriggerControl × TriggerQuota × Option TriggerError) → x.0 ≡ some c
      → IsSound app.system.store
      → ((id : String)
          → (draw setup.env app.system.world).0 ≡ ok id
          → lookup id app.system.store.runs ≡ none)
      → Remembered (after_reserve setup call mode fingerprint input now app x)
  unfolding after_reserve
  after_reserve-Remembered c mode input now app (control, quota, some e) on sound fresh r same =
      absurd (
        write_execution_error-NoRun (of_trigger e) "failed to reserve tenant execution capacity" r
          same)
  after_reserve-Remembered c mode input now app (control, quota, none) on sound fresh r same =
      run_mode-Remembered c mode input (record app { control = control }) on sound fresh r same
