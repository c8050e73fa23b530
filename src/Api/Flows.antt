-- ===== src/Api/Flows.antt =====
-- The handlers of workflows in internal/api/server.go.
use ai_workflow.Base.{String}
use ai_workflow.Auth.{Identity}
use ai_workflow.Workflow.{Definition}
use ai_workflow.Workflow.Service
use ai_workflow.Api.{
  Response, App, Setup, Decoded, decoded, empty_body, undecodable, workflow, validation, respond,
  write_error, with_service, journal_of, with_journal, answer,
}
use ai_workflow.Api.Errors.{write_workflow_error}

-- An invalid definition is answered with its validation.
unfoldable pub create_refused : Service.Created → Service.Error → Response
create_refused c Service.invalid_definition = respond 400 (validation c.validation)
create_refused c e = write_workflow_error e "failed to create workflow"

unfoldable pub create_decoded : Setup → Identity → App → Decoded Definition → Response × App
unfolding create_refused
create_decoded setup identity app (decoded definition) =
    let c =
      Service.create setup.env.platform setup.env.sources identity.tenant_id definition
        app.system.workflows (journal_of app) in
    (
      answer (create_refused c) (λ w. respond 201 (workflow w)) c.result,
      with_journal (record app { system = record app.system { workflows = c.workflows } })
          c.journal,
    )
create_decoded setup identity app empty_body =
    (write_error 400 "invalid workflow definition payload", app)
create_decoded setup identity app undecodable =
    (write_error 400 "invalid workflow definition payload", app)

unfoldable pub handle_create_workflow : Setup → Identity → Decoded Definition → App → Response × App
unfolding create_decoded with_service
handle_create_workflow setup identity body app =
    with_service setup.has_workflows "workflow service is not configured" app
      (create_decoded setup identity app body)

unfoldable pub handle_get_workflow : Setup → Identity → String → App → Response × App
unfolding with_service
handle_get_workflow setup identity workflow_id app =
    with_service setup.has_workflows "workflow service is not configured" app (
      answer (λ e. write_workflow_error e "failed to fetch workflow")
          (λ w. respond 200 (workflow w))
          (Service.get identity.tenant_id workflow_id app.system.workflows),
      app,
    )

unfoldable pub handle_validate_workflow : Setup → Identity → String → App → Response × App
unfolding with_service
handle_validate_workflow setup identity workflow_id app =
    with_service setup.has_workflows "workflow service is not configured" app (
      answer (λ e. write_workflow_error e "failed to validate workflow")
          (λ v. respond 200 (validation v))
          (Service.validate setup.env.platform identity.tenant_id workflow_id app.system.workflows),
      app,
    )
