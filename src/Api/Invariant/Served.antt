-- ===== src/Api/Invariant/Served.antt =====
-- Every request to the server of internal/api/server.go keeps the repositories sound.
use ai_workflow.Base.{String, Bool, Result, ok, err, trim_space}
use ai_workflow.Base.{if_rule}
use ai_workflow.Auth
use ai_workflow.Auth.{Identity, authenticate}
use ai_workflow.Api.{Response, App, Setup, write_error, with_service}
use ai_workflow.Api.Uploads.{
  upload_file, handle_upload_document, handle_get_document, handle_get_document_chunks,
}
use ai_workflow.Api.Flows.{
  create_decoded, handle_create_workflow, handle_get_workflow, handle_validate_workflow,
}
use ai_workflow.Api.Runs.{
  resume_decoded, handle_resume_run, handle_get_run, handle_list_runs, handle_get_run_steps,
  handle_get_run_events,
}
use ai_workflow.Api.Trigger.{Call, execute_decoded, handle_execute_workflow}
use ai_workflow.Api.Server.{
  Request, get_tenant_self, post_document, get_document, get_document_chunks, post_workflow,
  get_workflow, post_validate, post_execute, get_runs, get_run, get_run_steps, get_run_events,
  post_resume, handle_tenant_self, route, authenticated, serve,
}
use ai_workflow.Api.Invariant.{
  IsSound, Fresh, Sound, with_service-Sound, upload_file-Sound, create_decoded-Sound,
  resume_decoded-Sound,
}
use ai_workflow.Api.Invariant.Triggers.{execute_decoded-Sound}

module _ (setup : Setup) where
  read_Sound :
      (configured : Bool) (name : String) (app : App) (response : Response)
      → IsSound setup app
      → Sound setup (with_service configured name app (response, app))
  read_Sound configured name app response h =
      with_service-Sound setup configured name app (response, app) h h

  route-Sound :
      (identity : Identity) (request : Request) (app : App)
      → IsSound setup app
      → Fresh setup app
      → Sound setup (route setup identity request app)
  unfolding route handle_tenant_self handle_upload_document handle_get_document
      handle_get_document_chunks handle_create_workflow handle_get_workflow handle_validate_workflow
      handle_execute_workflow handle_list_runs handle_get_run handle_get_run_steps
      handle_get_run_events handle_resume_run
  route-Sound identity get_tenant_self app h fresh = h
  route-Sound identity (post_document upload) app h fresh =
      with_service-Sound setup setup.has_documents "document service is not configured" app
        (upload_file setup identity app upload) h (upload_file-Sound setup identity app upload h)
  route-Sound identity (post_workflow body) app h fresh =
      with_service-Sound setup setup.has_workflows "workflow service is not configured" app
        (create_decoded setup identity app body) h (create_decoded-Sound setup identity app body h)
  route-Sound identity (post_execute id key body) app h fresh =
      let call : Call = record {
        tenant_id = identity.tenant_id;
        workflow_id = id;
        key = trim_space key;
      } in
      with_service-Sound setup setup.has_executor "executor service is not configured" app
        (execute_decoded setup call body app) h (execute_decoded-Sound setup call body app h fresh)
  route-Sound identity (post_resume id body) app h fresh =
      with_service-Sound setup setup.has_executor "executor service is not configured" app
        (resume_decoded setup identity id app body) h
        (resume_decoded-Sound setup identity id app body h)
  route-Sound identity (get_document id) app h fresh = read_Sound setup.has_documents _ app _ h
  route-Sound identity (get_document_chunks id) app h fresh =
      read_Sound setup.has_documents _ app _ h
  route-Sound identity (get_workflow id) app h fresh = read_Sound setup.has_workflows _ app _ h
  route-Sound identity (post_validate id) app h fresh = read_Sound setup.has_workflows _ app _ h
  route-Sound identity (get_runs status) app h fresh = read_Sound setup.has_executor _ app _ h
  route-Sound identity (get_run id) app h fresh = read_Sound setup.has_executor _ app _ h
  route-Sound identity (get_run_steps id) app h fresh = read_Sound setup.has_executor _ app _ h
  route-Sound identity (get_run_events id) app h fresh = read_Sound setup.has_audit _ app _ h

  authenticated-Sound :
      (request : Request) (app : App) (x : Result Auth.Error Identity)
      → IsSound setup app
      → Fresh setup app
      → Sound setup (authenticated setup request app x)
  unfolding authenticated
  authenticated-Sound request app (err e) h fresh = h
  authenticated-Sound request app (ok identity) h fresh = route-Sound identity request app h fresh

-- Whatever a request asks for and whoever sends it, it keeps the repositories of runs, workflows
-- and documents sound, where the id that is drawn next is not the id of a stored run.
pub serve-IsSound :
    (setup : Setup) (api_key : String) (request : Request) (app : App)
    → IsSound setup app
    → Fresh setup app
    → IsSound setup (serve setup api_key request app).1
unfolding serve
serve-IsSound setup api_key request app h fresh =
    let known = authenticate setup.hash_api_key app.credentials app.tenants (trim_space api_key) in
    if_rule (λ (x : Response × App). IsSound setup x.1) setup.has_authenticator
      (authenticated setup request app known)
      (write_error 503 "authentication is not configured", app)
      (authenticated-Sound setup request app known h fresh) h
