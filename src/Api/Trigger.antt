-- ===== src/Api/Trigger.antt =====
-- `handleExecuteWorkflow` of internal/api/server.go.
use ai_workflow.Base.{
  ℕ, ◌-◌, String, Option, none, some, [], ◌∷◌, ◌++◌, eqb, if◌then◌else◌, Result, ok, err, ◌==◌,
  trim_space,
}
use Prim.Native.Nat.{◌/◌}
use ai_workflow.Base.Dict.{Dict}
use ai_workflow.Base.Value.{Value}
use ai_workflow.Auth.{Identity}
use ai_workflow.Executor.{Run, sync, async, Env, read}
use ai_workflow.Executor.Service as Execution
use ai_workflow.Executor.Service.{System, with_world}
use ai_workflow.Executor.Service.Sync.{execute_sync}
use ai_workflow.Executor.Service.Async.{execute_async}
use ai_workflow.Executor.Triggers.{
  TriggerError, reserve_execution, lookup_idempotent_run, store_idempotent_run,
}
use ai_workflow.Tenant.Controls as Controls
use ai_workflow.Tenant.Controls.{TriggerControl, TriggerQuota}
use ai_workflow.Api.{
  Response, App, Setup, Decoded, decoded, empty_body, undecodable, run, respond, write_error,
  with_service,
}
use ai_workflow.Api.Errors.{of_execution, of_trigger, of_control, write_execution_error}

-- `options.timeout_ms` only gives the context of the call a deadline.
pub record ExecuteRequest : Type 0 where
  pub mode : String
  pub input : Dict Value

-- The workflow and the tenant of a call, with the text of the `Idempotency-Key` header.
pub record Call : Type 0 where
  pub tenant_id : String
  pub workflow_id : String
  pub key : String

abbrev pub with_headers : Dict String → Response → Response
with_headers headers r = record r { headers = headers ++ r.headers }

-- `time.Second`, in nanoseconds
abbrev pub second : ℕ
second = 1_000_000_000

unfoldable pub status_code_for_run : Run → ℕ
status_code_for_run r = elim r.trigger_mode [ async ↦ 202 | sync ↦ 200 ]

-- `writeQuotaHeaders`, at a time `now`. A quota that is over is retried after no time.
unfoldable pub quota_headers : Env → ℕ → TriggerQuota → Dict String
quota_headers env now quota =
    if eqb quota.limit 0
    then []
    else ("X-RateLimit-Limit", env.decimal quota.limit)
      ∷ ("X-RateLimit-Remaining", env.decimal quota.remaining)
      ∷ (if eqb quota.reset_at 0
          then []
          else ("X-RateLimit-Reset", env.decimal (quota.reset_at / second))
            ∷ ("Retry-After", env.decimal ((quota.reset_at - now) / second))
            ∷ [])

abbrev pub replay_header : Dict String
replay_header = ("X-Idempotent-Replay", "true") ∷ []

module _ (setup : Setup) (call : Call) where
  unfoldable pub stored_response :
      ℕ → Run → System → App → Option TriggerControl × Option Controls.Error → Response × App
  stored_response status r s app (control, none) =
      (respond status (run r), record app { system = s; control = control })
  stored_response status r s app (control, some e) = (
    write_execution_error (of_control e) "failed to store idempotent workflow run",
    record app { system = s; control = control },
  )

  -- The run that was executed is stored under the key.
  unfoldable pub after_run : String → ℕ → App → Result Execution.Error Run × System → Response × App
  unfolding stored_response
  after_run fingerprint status app (err e, s) = (
    write_execution_error (of_execution e) "failed to execute workflow",
    record app { system = s },
  )
  after_run fingerprint status app (ok r, s) =
      stored_response status r s app
        (store_idempotent_run app.control call.tenant_id call.key fingerprint r)

  unfoldable pub run_mode : String → String → Dict Value → App → Response × App
  run_mode mode fingerprint input app =
      if mode == "sync"
      then after_run fingerprint 200 app
          (execute_sync setup.env call.tenant_id call.workflow_id input app.system)
      else if mode == "async"
      then after_run fingerprint 202 app (
          execute_async setup.env setup.context_error call.tenant_id call.workflow_id input
            app.system)
      else (write_error 400 "execution mode must be sync or async", app)

  -- What follows a call of `ReserveExecution`.
  unfoldable pub after_reserve :
      String
      → String
      → Dict Value
      → ℕ
      → App
      → Option TriggerControl × TriggerQuota × Option TriggerError
      → Response × App
  unfolding run_mode
  after_reserve mode fingerprint input now app (control, quota, some e) = (
    with_headers (quota_headers setup.env now quota)
        (write_execution_error (of_trigger e) "failed to reserve tenant execution capacity"),
    record app { control = control },
  )
  after_reserve mode fingerprint input now app (control, quota, none) =
      let (response, app') = run_mode mode fingerprint input (record app { control = control }) in
      (with_headers (quota_headers setup.env now quota) response, app')

  -- The time is read once, and serves the quota and its headers.
  unfoldable pub reserve : String → String → Dict Value → App → Response × App
  unfolding after_reserve
  reserve mode fingerprint input app =
      let (now, w) = read setup.env app.system.world in
      after_reserve mode fingerprint input now (record app { system = with_world app.system w })
        (reserve_execution app.control now call.tenant_id)

  unfoldable pub after_lookup :
      String → String → Dict Value → App → Result Controls.Error (Option Run) → Response × App
  unfolding reserve status_code_for_run
  after_lookup mode fingerprint input app (err e) =
      (write_execution_error (of_control e) "failed to resolve idempotent workflow run", app)
  after_lookup mode fingerprint input app (ok (some r)) =
      (with_headers replay_header (respond (status_code_for_run r) (run r)), app)
  after_lookup mode fingerprint input app (ok none) = reserve mode fingerprint input app

  unfoldable pub execute_fingerprinted :
      String → Dict Value → App → Result String String → Response × App
  execute_fingerprinted mode input app (err e) =
      (write_error 400 "failed to fingerprint workflow execution request", app)
  execute_fingerprinted mode input app (ok fingerprint) =
      after_lookup mode fingerprint input app
        (lookup_idempotent_run app.control call.tenant_id call.key fingerprint app.system.store)

  unfoldable pub execute_requested : ExecuteRequest → App → Response × App
  unfolding execute_fingerprinted
  execute_requested request app =
      let given = trim_space request.mode in
      let mode = if given == "" then "sync" else given in
      execute_fingerprinted mode request.input app
        (setup.marshal_request mode call.workflow_id request.input)

  unfoldable pub execute_decoded : Decoded ExecuteRequest → App → Response × App
  unfolding execute_requested
  execute_decoded (decoded request) app = execute_requested request app
  execute_decoded empty_body app = execute_requested (record { mode = ""; input = [] }) app
  execute_decoded undecodable app = (write_error 400 "invalid workflow execution payload", app)

unfoldable pub handle_execute_workflow :
    Setup → Identity → String → String → Decoded ExecuteRequest → App → Response × App
unfolding execute_decoded with_service
handle_execute_workflow setup identity workflow_id key body app =
    let call : Call = record {
      tenant_id = identity.tenant_id;
      workflow_id = workflow_id;
      key = trim_space key;
    } in
    with_service setup.has_executor "executor service is not configured" app
      (execute_decoded setup call body app)
