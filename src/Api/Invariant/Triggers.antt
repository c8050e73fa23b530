-- ===== src/Api/Invariant/Triggers.antt =====
-- `handleExecuteWorkflow` of internal/api/server.go keeps the repositories sound.
use ai_workflow.Base.{
  ℕ, String, Option, none, some, [], if◌then◌else◌, Result, ok, err, ◌==◌, trim_space,
}
use ai_workflow.Base.{if_rule}
use ai_workflow.Base.Dict.{Dict}
use ai_workflow.Base.Value.{Value}
use ai_workflow.Audit.{draw_id, read_clock}
use ai_workflow.Executor.{Run, read}
use ai_workflow.Executor.Service as Execution
use ai_workflow.Executor.Service.{System, with_world}
use ai_workflow.Executor.Service.Definitions.{execute_sync-Keeps, execute_async-Keeps}
use ai_workflow.Executor.Service.Sync.{execute_sync}
use ai_workflow.Executor.Service.Async.{execute_async}
use ai_workflow.Executor.Service.Waiting.{execute_sync-IsKept, execute_async-IsKept}
use ai_workflow.Executor.Triggers.{
  TriggerError, reserve_execution, lookup_idempotent_run, store_idempotent_run,
}
use ai_workflow.Tenant.Controls as Controls
use ai_workflow.Tenant.Controls.{TriggerControl, TriggerQuota}
use ai_workflow.Api.{App, Setup, Decoded, decoded, empty_body, undecodable, write_error}
use ai_workflow.Api.Trigger.{
  ExecuteRequest, Call, stored_response, after_run, run_mode, after_reserve, reserve, after_lookup,
  execute_fingerprinted, execute_requested, execute_decoded,
}
use ai_workflow.Api.Invariant.{IsSound, Fresh, Sound, after_call}

module _ (setup : Setup) (call : Call) where
  stored_response-Sound :
      (status : ℕ) (r : Run) (s : System) (app : App)
      → (x : Option TriggerControl × Option Controls.Error)
      → IsSound setup (record app { system = s })
      → Sound setup (stored_response setup call status r s app x)
  unfolding stored_response
  stored_response-Sound status r s app (control, none) h = record {
    runs = h.runs;
    workflows = h.workflows;
    documents = h.documents;
  }
  stored_response-Sound status r s app (control, some e) h = record {
    runs = h.runs;
    workflows = h.workflows;
    documents = h.documents;
  }

  after_run-Sound :
      (fingerprint : String) (status : ℕ) (app : App) (x : Result Execution.Error Run × System)
      → IsSound setup (record app { system = x.1 })
      → Sound setup (after_run setup call fingerprint status app x)
  unfolding after_run
  after_run-Sound fingerprint status app (err e, s) h = h
  after_run-Sound fingerprint status app (ok r, s) h =
      stored_response-Sound status r s app
        (store_idempotent_run app.control call.tenant_id call.key fingerprint r) h

  run_mode-Sound :
      (mode fingerprint : String) (input : Dict Value) (app : App)
      → IsSound setup app
      → Fresh setup app
      → Sound setup (run_mode setup call mode fingerprint input app)
  unfolding run_mode
  run_mode-Sound mode fingerprint input app h fresh =
      let t = call.tenant_id in
      let id = call.workflow_id in
      let s = app.system in
      let by_sync = execute_sync setup.env t id input s in
      let by_async = execute_async setup.env setup.context_error t id input s in
      let refused = write_error 400 "execution mode must be sync or async" in
      if_rule (Sound setup) (mode == "sync") (after_run setup call fingerprint 200 app by_sync)
        (if mode == "async"
          then after_run setup call fingerprint 202 app by_async
          else (refused, app))
        (after_run-Sound fingerprint 200 app by_sync (
          after_call setup by_sync.1 app
            (execute_sync-IsKept setup.env t id input s h.runs fresh).sound
            (execute_sync-Keeps setup.env t id input s) h))
        (if_rule (Sound setup) (mode == "async") (after_run setup call fingerprint 202 app by_async)
          (refused, app)
          (after_run-Sound fingerprint 202 app by_async (
            after_call setup by_async.1 app
              (execute_async-IsKept setup.env setup.context_error t id input s h.runs fresh).sound
              (execute_async-Keeps setup.env t id input setup.context_error s) h))
          h)

  after_reserve-Sound :
      (mode fingerprint : String) (input : Dict Value) (now : ℕ) (app : App)
      → (x : Option TriggerControl × TriggerQuota × Option TriggerError) → IsSound setup app
      → Fresh setup app
      → Sound setup (after_reserve setup call mode fingerprint input now app x)
  unfolding after_reserve
  after_reserve-Sound mode fingerprint input now app (control, quota, some e) h fresh = record {
    runs = h.runs;
    workflows = h.workflows;
    documents = h.documents;
  }
  after_reserve-Sound mode fingerprint input now app (control, quota, none) h fresh =
      run_mode-Sound mode fingerprint input (record app { control = control })
        (record { runs = h.runs; workflows = h.workflows; documents = h.documents }) fresh

  after_lookup-Sound :
      (mode fingerprint : String) (input : Dict Value) (app : App)
      → (x : Result Controls.Error (Option Run)) → IsSound setup app
      → Fresh setup app
      → Sound setup (after_lookup setup call mode fingerprint input app x)
  unfolding after_lookup reserve draw_id read_clock
  after_lookup-Sound mode fingerprint input app (err e) h fresh = h
  after_lookup-Sound mode fingerprint input app (ok (some r)) h fresh = h
  after_lookup-Sound mode fingerprint input app (ok none) h fresh =
      let (now, w) = read setup.env app.system.world in
      let app' = record app { system = with_world app.system w } in
      after_reserve-Sound mode fingerprint input now app'
        (reserve_execution app.control now call.tenant_id)
        (record { runs = h.runs; workflows = h.workflows; documents = h.documents }) fresh

  execute_fingerprinted-Sound :
      (mode : String) (input : Dict Value) (app : App) (x : Result String String)
      → IsSound setup app
      → Fresh setup app
      → Sound setup (execute_fingerprinted setup call mode input app x)
  unfolding execute_fingerprinted
  execute_fingerprinted-Sound mode input app (err e) h fresh = h
  execute_fingerprinted-Sound mode input app (ok fingerprint) h fresh =
      after_lookup-Sound mode fingerprint input app
        (lookup_idempotent_run app.control call.tenant_id call.key fingerprint app.system.store) h
        fresh

  execute_requested-Sound :
      (request : ExecuteRequest) (app : App)
      → IsSound setup app
      → Fresh setup app
      → Sound setup (execute_requested setup call request app)
  unfolding execute_requested
  execute_requested-Sound request app h fresh =
      let text = trim_space request.mode in
      let mode = if text == "" then "sync" else text in
      execute_fingerprinted-Sound mode request.input app
        (setup.marshal_request mode call.workflow_id request.input) h fresh

  pub execute_decoded-Sound :
      (body : Decoded ExecuteRequest) (app : App)
      → IsSound setup app
      → Fresh setup app
      → Sound setup (execute_decoded setup call body app)
  unfolding execute_decoded
  execute_decoded-Sound (decoded request) app h fresh = execute_requested-Sound request app h fresh
  execute_decoded-Sound empty_body app h fresh =
      execute_requested-Sound (record { mode = ""; input = [] }) app h fresh
  execute_decoded-Sound undecodable app h fresh = h
