-- ===== src/Api/Shown/Triggers.antt =====
-- Whose runs the trigger of internal/api/server.go shows.
use ai_workflow.Base.{
  ◌≡◌, refl, String, ℕ, Option, none, some, [], if◌then◌else◌, Result, ok, err, ◌==◌, trim_space,
}
use ai_workflow.Base.{if_rule}
use ai_workflow.Base.Dict.{Dict}
use ai_workflow.Base.Value.{Value}
use ai_workflow.Auth.{Identity}
use ai_workflow.Executor.{Run, read}
use ai_workflow.Executor.Service as Execution
use ai_workflow.Executor.Service.{System, with_world}
use ai_workflow.Executor.Service.Sync.{execute_sync}
use ai_workflow.Executor.Service.Async.{execute_async}
use ai_workflow.Executor.Service.Owners.{Owned, execute_sync-Owned, execute_async-Owned}
use ai_workflow.Executor.Triggers.{
  TriggerError, reserve_execution, lookup_idempotent_run, store_idempotent_run,
}
use ai_workflow.Executor.Triggers.Replays.{lookup_idempotent_run_owner}
use ai_workflow.Tenant.Controls as Controls
use ai_workflow.Tenant.Controls.{TriggerControl, TriggerQuota}
use ai_workflow.Api.{App, Setup, Decoded, decoded, empty_body, undecodable}
use ai_workflow.Api.Errors.{of_execution, of_trigger, of_control}
use ai_workflow.Api.Shown.{Shown, write_execution_error-Shown, with_service-Shown}
use ai_workflow.Api.Trigger.{
  ExecuteRequest, Call, stored_response, after_run, run_mode, after_reserve, reserve, after_lookup,
  execute_fingerprinted, execute_requested, execute_decoded, handle_execute_workflow,
}

module _ (setup : Setup) (call : Call) where
  stored_response-Shown :
      (status : ℕ) (r : Run) (s : System) (app : App)
      → (x : Option TriggerControl × Option Controls.Error) → r.tenant_id ≡ call.tenant_id
      → Shown call.tenant_id (stored_response setup call status r s app x)
  unfolding stored_response
  stored_response-Shown status r s app (control, none) owner = owner
  stored_response-Shown status r s app (control, some e) owner =
      write_execution_error-Shown call.tenant_id (of_control e)
        "failed to store idempotent workflow run"

  after_run-Shown :
      (fingerprint : String) (status : ℕ) (app : App) (x : Result Execution.Error Run × System)
      → Owned call.tenant_id x
      → Shown call.tenant_id (after_run setup call fingerprint status app x)
  unfolding after_run
  after_run-Shown fingerprint status app (err e, s) owned =
      write_execution_error-Shown call.tenant_id (of_execution e) "failed to execute workflow"
  after_run-Shown fingerprint status app (ok r, s) owned =
      stored_response-Shown status r s app
        (store_idempotent_run app.control call.tenant_id call.key fingerprint r) owned

  run_mode-Shown :
      (mode fingerprint : String) (input : Dict Value) (app : App)
      → Shown call.tenant_id (run_mode setup call mode fingerprint input app)
  unfolding run_mode
  run_mode-Shown mode fingerprint input app =
      if_rule (Shown call.tenant_id) (mode == "sync") _ _
        (after_run-Shown fingerprint 200 app
          (execute_sync setup.env call.tenant_id call.workflow_id input app.system)
          (execute_sync-Owned setup.env call.tenant_id call.workflow_id input app.system))
        (if_rule (Shown call.tenant_id) (mode == "async") _ _
          (after_run-Shown fingerprint 202 app
            (execute_async setup.env setup.context_error call.tenant_id call.workflow_id input
              app.system)
            (execute_async-Owned setup.env call.tenant_id call.workflow_id input setup.context_error
              app.system))
          tt)

  after_reserve-Shown :
      (mode fingerprint : String) (input : Dict Value) (now : ℕ) (app : App)
      → (x : Option TriggerControl × TriggerQuota × Option TriggerError)
      → Shown call.tenant_id (after_reserve setup call mode fingerprint input now app x)
  unfolding after_reserve
  after_reserve-Shown mode fingerprint input now app (control, quota, some e) =
      write_execution_error-Shown call.tenant_id (of_trigger e)
        "failed to reserve tenant execution capacity"
  after_reserve-Shown mode fingerprint input now app (control, quota, none) =
      run_mode-Shown mode fingerprint input (record app { control = control })

  after_lookup-Shown :
      (mode fingerprint : String) (input : Dict Value) (app : App)
      → (x : Result Controls.Error (Option Run))
      → ((r : Run) → x ≡ ok (some r) → r.tenant_id ≡ call.tenant_id)
      → Shown call.tenant_id (after_lookup setup call mode fingerprint input app x)
  unfolding after_lookup reserve
  after_lookup-Shown mode fingerprint input app (err e) owner =
      write_execution_error-Shown call.tenant_id (of_control e)
        "failed to resolve idempotent workflow run"
  after_lookup-Shown mode fingerprint input app (ok (some r)) owner = owner r refl
  after_lookup-Shown mode fingerprint input app (ok none) owner =
      let (now, w) = read setup.env app.system.world in
      let app' = record app { system = with_world app.system w } in
      after_reserve-Shown mode fingerprint input now app'
        (reserve_execution app.control now call.tenant_id)

  execute_fingerprinted-Shown :
      (mode : String) (input : Dict Value) (app : App) (x : Result String String)
      → Shown call.tenant_id (execute_fingerprinted setup call mode input app x)
  unfolding execute_fingerprinted
  execute_fingerprinted-Shown mode input app (err e) = tt
  execute_fingerprinted-Shown mode input app (ok fingerprint) =
      after_lookup-Shown mode fingerprint input app
        (lookup_idempotent_run app.control call.tenant_id call.key fingerprint app.system.store)
        (λ r found.
          (lookup_idempotent_run_owner app.control call.tenant_id call.key fingerprint
            app.system.store r found).0)

  execute_requested-Shown :
      (request : ExecuteRequest) (app : App)
      → Shown call.tenant_id (execute_requested setup call request app)
  unfolding execute_requested
  execute_requested-Shown request app =
      let given = trim_space request.mode in
      let mode = if given == "" then "sync" else given in
      execute_fingerprinted-Shown mode request.input app
        (setup.marshal_request mode call.workflow_id request.input)

  execute_decoded-Shown :
      (body : Decoded ExecuteRequest) (app : App)
      → Shown call.tenant_id (execute_decoded setup call body app)
  unfolding execute_decoded
  execute_decoded-Shown (decoded request) app = execute_requested-Shown request app
  execute_decoded-Shown empty_body app =
      execute_requested-Shown (record { mode = ""; input = [] }) app
  execute_decoded-Shown undecodable app = tt

pub handle_execute_workflow-Shown :
    (setup : Setup) (identity : Identity) (workflow_id key : String) (body : Decoded ExecuteRequest)
    (app : App)
    → Shown identity.tenant_id (handle_execute_workflow setup identity workflow_id key body app)
unfolding handle_execute_workflow
handle_execute_workflow-Shown setup identity workflow_id key body app =
    let call : Call = record {
      tenant_id = identity.tenant_id;
      workflow_id = workflow_id;
      key = trim_space key;
    } in
    with_service-Shown identity.tenant_id setup.has_executor _ app _
      (execute_decoded-Shown setup call body app)
