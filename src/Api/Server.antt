-- ===== src/Api/Server.antt =====
-- `NewHandler` and `requireAPIKey` of internal/api/server.go. Logging and tracing are left out.
use ai_workflow.Base.{String, Option, if◌then◌else◌, Result, ok, err, trim_space}
use ai_workflow.Auth as Auth
use ai_workflow.Auth.{Identity, authenticate}
use ai_workflow.Workflow.{Definition}
use ai_workflow.Api.{Response, App, Setup, Decoded, tenant_self, respond, write_error}
use ai_workflow.Api.Uploads.{
  Upload, handle_upload_document, handle_get_document, handle_get_document_chunks,
}
use ai_workflow.Api.Flows.{handle_create_workflow, handle_get_workflow, handle_validate_workflow}
use ai_workflow.Api.Runs.{
  ResumeRequest, handle_get_run, handle_list_runs, handle_get_run_steps, handle_get_run_events,
  handle_resume_run,
}
use ai_workflow.Api.Trigger.{ExecuteRequest, handle_execute_workflow}

-- The protected routes, with the values of the path, the query, the headers and the body that the
-- handler reads.
pub data Request : Type 0 where
  get_tenant_self : Request
  post_document : Option Upload → Request
  get_document : String → Request
  get_document_chunks : String → Request
  post_workflow : Decoded Definition → Request
  get_workflow : String → Request
  post_validate : String → Request
  post_execute : String → String → Decoded ExecuteRequest → Request
  get_runs : String → Request
  get_run : String → Request
  get_run_steps : String → Request
  get_run_events : String → Request
  post_resume : String → Decoded ResumeRequest → Request

unfoldable pub handle_tenant_self : Identity → App → Response × App
handle_tenant_self identity app = (respond 200 (tenant_self identity), app)

unfoldable pub route : Setup → Identity → Request → App → Response × App
route setup identity get_tenant_self app = handle_tenant_self identity app
route setup identity (post_document upload) app = handle_upload_document setup identity upload app
route setup identity (get_document id) app = handle_get_document setup identity id app
route setup identity (get_document_chunks id) app = handle_get_document_chunks setup identity id app
route setup identity (post_workflow body) app = handle_create_workflow setup identity body app
route setup identity (get_workflow id) app = handle_get_workflow setup identity id app
route setup identity (post_validate id) app = handle_validate_workflow setup identity id app
route setup identity (post_execute id key body) app =
    handle_execute_workflow setup identity id key body app
route setup identity (get_runs status) app = handle_list_runs setup identity status app
route setup identity (get_run id) app = handle_get_run setup identity id app
route setup identity (get_run_steps id) app = handle_get_run_steps setup identity id app
route setup identity (get_run_events id) app = handle_get_run_events setup identity id app
route setup identity (post_resume id body) app = handle_resume_run setup identity id body app

unfoldable pub unauthorized : Auth.Error → Response
unauthorized Auth.missing_api_key = write_error 401 "missing api key"
unauthorized Auth.inactive_api_key = write_error 401 "inactive credential"
unauthorized Auth.inactive_tenant = write_error 401 "inactive credential"
unauthorized Auth.invalid_api_key = write_error 401 "invalid api key"

unfoldable pub authenticated : Setup → Request → App → Result Auth.Error Identity → Response × App
unfolding route unauthorized
authenticated setup request app (err e) = (unauthorized e, app)
authenticated setup request app (ok identity) = route setup identity request app

-- A request with the text of its `X-API-Key` header.
unfoldable pub serve : Setup → String → Request → App → Response × App
unfolding authenticated
serve setup api_key request app =
    if setup.has_authenticator
    then authenticated setup request app
        (authenticate setup.hash_api_key app.credentials app.tenants (trim_space api_key))
    else (write_error 503 "authentication is not configured", app)
