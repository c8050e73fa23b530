-- ===== src/Api/Replays.antt =====
-- What a client sees who sends a request with an `Idempotency-Key` twice (internal/api/server.go).
use ai_workflow.Base.{
  ◌≡◌, refl, sym, ap, ◌∙◌, inl, inr, String, true, false, Option, none, some, [], arith,
  if◌then◌else◌, Bool-cases, Result, ok, err, ◌==◌, trim_space, is_blank,
}
use ai_workflow.Base.Trim.{is_blank-trim_space}
use ai_workflow.Base.Dict.{Dict, lookup}
use ai_workflow.Base.Value.{Value}
use ai_workflow.Audit.{draw_id, read_clock}
use ai_workflow.Auth.{Identity}
use ai_workflow.Executor.{Run, draw, read}
use ai_workflow.Executor.Repository.Laws.{IsSound}
use ai_workflow.Executor.Service.{with_world}
use ai_workflow.Executor.Triggers.{reserve_execution, lookup_idempotent_run}
use ai_workflow.Executor.Triggers.Replays.{reserve_execution-some}
use ai_workflow.Tenant.Controls as Controls
use ai_workflow.Tenant.Controls.{TriggerControl, TriggerQuota}
use ai_workflow.Api.{
  Response, App, Setup, Decoded, decoded, empty_body, undecodable, run, respond, with_service,
}
use ai_workflow.Api.Errors.{of_control}
use ai_workflow.Api.Trigger.{
  ExecuteRequest, Call, with_headers, status_code_for_run, replay_header, reserve, after_lookup,
  execute_fingerprinted, execute_requested, execute_decoded, handle_execute_workflow,
}
use ai_workflow.Api.Remembered.{write_execution_error-NoRun, after_reserve-Remembered}

module _ (setup : Setup) (call : Call) where
  -- The response to a request that is repeated.
  abbrev Replayed : Run → Response
  Replayed r = with_headers replay_header (respond (status_code_for_run r) (run r))

  after_lookup-twice :
      (c : TriggerControl) (mode fingerprint : String) (input : Dict Value) (app : App) (r : Run)
      → (x : Result Controls.Error (Option Run)) → is_blank call.key ≡ false
      → app.control ≡ some c
      → IsSound app.system.store
      → ((id : String)
          → (draw setup.env app.system.world).0 ≡ ok id
          → lookup id app.system.store.runs ≡ none)
      → lookup_idempotent_run app.control call.tenant_id call.key fingerprint app.system.store ≡ x
      → (after_lookup setup call mode fingerprint input app x).0.payload ≡ run r
      → lookup_idempotent_run
          (after_lookup setup call mode fingerprint input app x).1.control
          call.tenant_id
          call.key
          fingerprint
          (after_lookup setup call mode fingerprint input app x).1.system.store
        ≡ ok (some r)
  unfolding after_lookup reserve draw_id read_clock
  after_lookup-twice c mode fingerprint input app r (err e) given on sound fresh looked same =
      absurd (
        write_execution_error-NoRun (of_control e) "failed to resolve idempotent workflow run" r
          same)
  after_lookup-twice c mode fingerprint input app r (ok (some r')) given on sound fresh looked
        same =
      let e : r' ≡ r = ground (arith, same) in looked ∙ ap (λ (y : Run). ok (some y)) e
  after_lookup-twice c mode fingerprint input app r (ok none) given on sound fresh looked same =
      let (now, w) = read setup.env app.system.world in
      let app' = record app { system = with_world app.system w } in
      let (c', kept) = reserve_execution-some c now call.tenant_id in
      after_reserve-Remembered setup call fingerprint given c' mode input now app'
        (reserve_execution app.control now call.tenant_id)
        (ap (λ k. (reserve_execution k now call.tenant_id).0) on ∙ kept) sound fresh r same

  execute_fingerprinted-twice :
      (c : TriggerControl) (mode : String) (input : Dict Value) (app : App) (r : Run)
      → (fingerprint : Result String String) → is_blank call.key ≡ false
      → app.control ≡ some c
      → IsSound app.system.store
      → ((id : String)
          → (draw setup.env app.system.world).0 ≡ ok id
          → lookup id app.system.store.runs ≡ none)
      → (execute_fingerprinted setup call mode input app fingerprint).0.payload ≡ run r
      → execute_fingerprinted setup call mode input
          (execute_fingerprinted setup call mode input app fingerprint).1
          fingerprint
        ≡ (Replayed r, (execute_fingerprinted setup call mode input app fingerprint).1)
  unfolding execute_fingerprinted after_lookup
  execute_fingerprinted-twice c mode input app r (err e) given on sound fresh same =
      absurd (ground (arith, same))
  execute_fingerprinted-twice c mode input app r (ok fingerprint) given on sound fresh same =
      let looked =
        lookup_idempotent_run app.control call.tenant_id call.key fingerprint app.system.store in
      let after = (after_lookup setup call mode fingerprint input app looked).1 in
      ap (after_lookup setup call mode fingerprint input after)
        (after_lookup-twice c mode fingerprint input app r looked given on sound fresh refl same)

  execute_decoded-twice :
      (c : TriggerControl) (body : Decoded ExecuteRequest) (app : App) (r : Run)
      → is_blank call.key ≡ false
      → app.control ≡ some c
      → IsSound app.system.store
      → ((id : String)
          → (draw setup.env app.system.world).0 ≡ ok id
          → lookup id app.system.store.runs ≡ none)
      → (execute_decoded setup call body app).0.payload ≡ run r
      → execute_decoded setup call body (execute_decoded setup call body app).1
        ≡ (Replayed r, (execute_decoded setup call body app).1)
  unfolding execute_decoded execute_requested
  execute_decoded-twice c (decoded request) app r given on sound fresh same =
      let text = trim_space request.mode in
      let mode = if text == "" then "sync" else text in
      execute_fingerprinted-twice c mode request.input app r
        (setup.marshal_request mode call.workflow_id request.input) given on sound fresh same
  execute_decoded-twice c empty_body app r given on sound fresh same =
      let text = trim_space "" in
      let mode = if text == "" then "sync" else text in
      execute_fingerprinted-twice c mode [] app r (setup.marshal_request mode call.workflow_id [])
        given on sound fresh same
  execute_decoded-twice c undecodable app r given on sound fresh same =
      absurd (ground (arith, same))

abbrev call_of : Identity → String → String → Call
call_of identity workflow_id key = record {
  tenant_id = identity.tenant_id;
  workflow_id = workflow_id;
  key = trim_space key;
}

module _ (setup : Setup) (identity : Identity) (workflow_id key : String)
    (body : Decoded ExecuteRequest) (app : App) where
  handled :
      setup.has_executor ≡ true
      → handle_execute_workflow setup identity workflow_id key body app
        ≡ execute_decoded setup (call_of identity workflow_id key) body app
  unfolding handle_execute_workflow with_service
  handled set = rw set refl

  unset_lem :
      (r : Run)
      → setup.has_executor ≡ false
      → ¬ ((handle_execute_workflow setup identity workflow_id key body app).0.payload ≡ run r)
  unfolding handle_execute_workflow with_service
  unset_lem r unset same = ground (arith, same, unset)

-- A trigger with a key that is not blank, on a server with trigger controls, whose response carries
-- a run: the same request, sent again in the state that it left, is answered with that run and the
-- header of a replay, and changes nothing. The store of runs is sound, and the id that is drawn
-- next is not the id of a stored run.
pub execute_workflow-twice :
    (setup : Setup) (identity : Identity) (workflow_id key : String)
    → (body : Decoded ExecuteRequest) (app : App) (c : TriggerControl) (r : Run)
    → is_blank key ≡ false
    → app.control ≡ some c
    → IsSound app.system.store
    → ((id : String)
        → (draw setup.env app.system.world).0 ≡ ok id
        → lookup id app.system.store.runs ≡ none)
    → (handle_execute_workflow setup identity workflow_id key body app).0.payload ≡ run r
    → handle_execute_workflow setup identity workflow_id key body
        (handle_execute_workflow setup identity workflow_id key body app).1
      ≡ (
        with_headers replay_header (respond (status_code_for_run r) (run r)),
        (handle_execute_workflow setup identity workflow_id key body app).1,
      )
execute_workflow-twice setup identity workflow_id key body app c r given on sound fresh same =
    let call = call_of identity workflow_id key in
    let first = handled setup identity workflow_id key body app in
    elim (Bool-cases setup.has_executor) [
      | inl set ↦
          rw
            (
              first set,
              handled setup identity workflow_id key body (execute_decoded setup call body app).1
                  set,
            )
            (execute_decoded-twice setup call c body app r (is_blank-trim_space key ∙ given) on
              sound fresh (ap (λ (x : Response × App). x.0.payload) (sym (first set)) ∙ same))
      | inr unset ↦ absurd (unset_lem setup identity workflow_id key body app r unset same)
    ]
