-- ===== src/Api/Shown/Served.antt =====
-- Whose runs the server of internal/api/server.go shows.
use ai_workflow.Base.{◌≡◌, String, Option, none, some, Result, ok, err, trim_space}
use ai_workflow.Base.{if_rule}
use ai_workflow.Audit.{list_run_events}
use ai_workflow.Auth.{Identity, authenticate}
use ai_workflow.Documents
use ai_workflow.Documents.{Document, CreateParams}
use ai_workflow.Executor.{Run}
use ai_workflow.Executor.Repository.Laws.{IsSound}
use ai_workflow.Executor.Service as Execution
use ai_workflow.Executor.Service.Sync.{service_get_run, service_list_steps}
use ai_workflow.Workflow.{Definition}
use ai_workflow.Workflow.Service
use ai_workflow.Api.{
  Response, App, Setup, Decoded, decoded, empty_body, undecodable, chunks, document, events, steps,
  workflow, validation, respond, journal_of,
}
use ai_workflow.Api.Errors.{
  of_audit, of_execution, write_document_error, write_workflow_error, write_execution_error,
}
use ai_workflow.Api.Uploads.{
  Upload, Sniffed, after_create, upload_sniffed, upload_file, handle_upload_document,
  handle_get_document, handle_get_document_chunks,
}
use ai_workflow.Api.Flows.{
  create_refused, create_decoded, handle_create_workflow, handle_get_workflow,
  handle_validate_workflow,
}
use ai_workflow.Api.Runs.{refused, run_events, handle_get_run_steps, handle_get_run_events}
use ai_workflow.Api.Server.{
  Request, get_tenant_self, post_document, get_document, get_document_chunks, post_workflow,
  get_workflow, post_validate, post_execute, get_runs, get_run, get_run_steps, get_run_events,
  post_resume, handle_tenant_self, route, authenticated, serve,
}
use ai_workflow.Api.Shown.{
  ShownTo, Shown, write_mapped_error-Shown, write_execution_error-Shown, answer-Shown,
  with_service-Shown,
}
use ai_workflow.Api.Shown.Runs.{
  handle_list_runs-Shown, handle_get_run-Shown, handle_resume_run-Shown,
}
use ai_workflow.Api.Shown.Triggers.{handle_execute_workflow-Shown}

module _ (tenant_id : String) where
  write_document_error-Shown :
      (e : Documents.Error) (fallback : String)
      → ShownTo tenant_id (write_document_error e fallback).payload
  unfolding write_document_error
  write_document_error-Shown e fallback = write_mapped_error-Shown tenant_id _ fallback _

  write_workflow_error-Shown :
      (e : Service.Error) (fallback : String)
      → ShownTo tenant_id (write_workflow_error e fallback).payload
  unfolding write_workflow_error
  write_workflow_error-Shown e fallback = write_mapped_error-Shown tenant_id _ fallback _

  create_refused-Shown :
      (c : Service.Created) (e : Service.Error) → ShownTo tenant_id (create_refused c e).payload
  unfolding create_refused
  create_refused-Shown c Service.invalid_definition = tt
  create_refused-Shown c Service.not_found = write_workflow_error-Shown Service.not_found _
  create_refused-Shown c Service.invalid_tenant =
      write_workflow_error-Shown Service.invalid_tenant _
  create_refused-Shown c (Service.generate_id e) =
      write_workflow_error-Shown (Service.generate_id e) _

module _ (setup : Setup) (identity : Identity) where
  upload_file-Shown :
      (app : App) (upload : Option Upload)
      → Shown identity.tenant_id (upload_file setup identity app upload)
  unfolding upload_file upload_sniffed after_create
  upload_file-Shown app none = tt
  upload_file-Shown app (some upload) = sniffed-Shown upload.sniffed
    where
      sniffed-Shown :
          (x : Result String Sniffed)
          → Shown identity.tenant_id (upload_sniffed setup identity upload.filename app x)
      sniffed-Shown (err e) = tt
      sniffed-Shown (ok sniffed) =
          answer-Shown identity.tenant_id (λ e. write_document_error e "failed to upload document")
            (λ d. respond 201 (document d))
            (Documents.create setup.services identity.tenant_id
              (record {
                filename = upload.filename;
                content_type = sniffed.content_type;
                content = some sniffed.content;
              })
              app.documents (journal_of app)).0
            (λ e. write_document_error-Shown identity.tenant_id e _) (λ d found. tt)

  create_decoded-Shown :
      (app : App) (body : Decoded Definition)
      → Shown identity.tenant_id (create_decoded setup identity app body)
  unfolding create_decoded
  create_decoded-Shown app (decoded definition) =
      let c =
        Service.create setup.env.platform setup.env.sources identity.tenant_id definition
          app.system.workflows (journal_of app) in
      answer-Shown identity.tenant_id (create_refused c) (λ w. respond 201 (workflow w)) c.result
        (create_refused-Shown identity.tenant_id c) (λ w found. tt)
  create_decoded-Shown app empty_body = tt
  create_decoded-Shown app undecodable = tt

  run_events-Shown :
      (run_id : String) (app : App) (x : Result Execution.Error Run)
      → ShownTo identity.tenant_id (run_events identity run_id app x).payload
  unfolding run_events
  run_events-Shown run_id app (err e) =
      write_execution_error-Shown identity.tenant_id (of_execution e) _
  run_events-Shown run_id app (ok r) =
      answer-Shown identity.tenant_id
        (λ e. write_execution_error (of_audit e) "failed to fetch workflow run events")
        (λ es. respond 200 (events es)) (list_run_events (journal_of app) identity.tenant_id run_id)
        (λ e. write_execution_error-Shown identity.tenant_id (of_audit e) _) (λ es found. tt)

  route-Shown :
      (request : Request) (app : App)
      → IsSound app.system.store
      → Shown identity.tenant_id (route setup identity request app)
  unfolding route handle_tenant_self handle_upload_document handle_get_document
      handle_get_document_chunks handle_create_workflow handle_get_workflow handle_validate_workflow
      handle_get_run_steps handle_get_run_events
  route-Shown get_tenant_self app sound = tt
  route-Shown (post_document upload) app sound =
      with_service-Shown identity.tenant_id setup.has_documents _ app _
        (upload_file-Shown app upload)
  route-Shown (get_document id) app sound =
      with_service-Shown identity.tenant_id setup.has_documents _ app _ (
        answer-Shown identity.tenant_id (λ e. write_document_error e "failed to fetch document")
          (λ d. respond 200 (document d)) (Documents.get app.documents identity.tenant_id id)
          (λ e. write_document_error-Shown identity.tenant_id e _) (λ d found. tt))
  route-Shown (get_document_chunks id) app sound =
      with_service-Shown identity.tenant_id setup.has_documents _ app _ (
        answer-Shown identity.tenant_id
          (λ e. write_document_error e "failed to fetch document chunks")
          (λ cs. respond 200 (chunks cs))
          (Documents.list_chunks app.documents identity.tenant_id id)
          (λ e. write_document_error-Shown identity.tenant_id e _) (λ d found. tt))
  route-Shown (post_workflow body) app sound =
      with_service-Shown identity.tenant_id setup.has_workflows _ app _
        (create_decoded-Shown app body)
  route-Shown (get_workflow id) app sound =
      with_service-Shown identity.tenant_id setup.has_workflows _ app _ (
        answer-Shown identity.tenant_id (λ e. write_workflow_error e "failed to fetch workflow")
          (λ w. respond 200 (workflow w)) (Service.get identity.tenant_id id app.system.workflows)
          (λ e. write_workflow_error-Shown identity.tenant_id e _) (λ w found. tt))
  route-Shown (post_validate id) app sound =
      with_service-Shown identity.tenant_id setup.has_workflows _ app _ (
        answer-Shown identity.tenant_id (λ e. write_workflow_error e "failed to validate workflow")
          (λ v. respond 200 (validation v))
          (Service.validate setup.env.platform identity.tenant_id id app.system.workflows)
          (λ e. write_workflow_error-Shown identity.tenant_id e _) (λ w found. tt))
  route-Shown (post_execute id key body) app sound =
      handle_execute_workflow-Shown setup identity id key body app
  route-Shown (get_runs status) app sound = handle_list_runs-Shown setup identity status app
  route-Shown (get_run id) app sound = handle_get_run-Shown setup identity id app
  route-Shown (get_run_steps id) app sound =
      with_service-Shown identity.tenant_id setup.has_executor _ app _ (
        answer-Shown identity.tenant_id (refused "failed to fetch workflow steps")
          (λ xs. respond 200 (steps xs)) (service_list_steps identity.tenant_id id app.system)
          (λ e. write_execution_error-Shown identity.tenant_id (of_execution e) _) (λ xs found. tt))
  route-Shown (get_run_events id) app sound =
      with_service-Shown identity.tenant_id setup.has_audit _ app _ (
        if_rule (λ (response : Response). ShownTo identity.tenant_id response.payload)
          setup.has_executor _ _
          (run_events-Shown id app (service_get_run identity.tenant_id id app.system)) tt)
  route-Shown (post_resume id body) app sound =
      handle_resume_run-Shown setup identity id body app sound

-- Whatever a request with an accepted key asks for, the runs that the response shows, one or a
-- list, belong to the tenant of the key, in a sound repository of runs.
pub serve-ShownTo :
    (setup : Setup) (api_key : String) (request : Request) (app : App) (identity : Identity)
    → authenticate setup.hash_api_key app.credentials app.tenants (trim_space api_key) ≡ ok identity
    → IsSound app.system.store
    → ShownTo identity.tenant_id (serve setup api_key request app).0.payload
unfolding serve authenticated
serve-ShownTo setup api_key request app identity known sound =
    if_rule (Shown identity.tenant_id) setup.has_authenticator _ _
      (rw known (route-Shown setup identity request app sound)) tt
