-- ===== src/Api/Invariant.antt =====
-- What holds between the requests to the server of internal/api/server.go.
pub mod Triggers
pub mod Served
use ai_workflow.Base.{◌≡◌, sym, String, Bool, Option, none, some, Result, ok, err}
use ai_workflow.Base.{if_rule}
use mathlib.Core.Path.{subst}
use ai_workflow.Base.Dict.{Dict, lookup}
use ai_workflow.Base.Value.{Value}
use ai_workflow.Audit.{Journal, draw_id, read_clock}
use ai_workflow.Auth
use ai_workflow.Auth.{Identity, authenticate}
use ai_workflow.Workflow.{Definition}
use ai_workflow.Workflow.Service.Laws as Flows
use ai_workflow.Documents
use ai_workflow.Documents.{Document, CreateParams}
use ai_workflow.Documents.Created
use ai_workflow.Executor.{Run, draw, read}
use ai_workflow.Executor.Repository.Laws as Runs
use ai_workflow.Executor.Service as Execution
use ai_workflow.Executor.Service.{System, with_world}
use ai_workflow.Executor.Service.Definitions.{
  execute_sync-Keeps, execute_async-Keeps, resume_approval-Keeps,
}
use ai_workflow.Executor.Service.Resume.{Decision, resume_approval}
use ai_workflow.Executor.Service.Sync.{execute_sync}
use ai_workflow.Executor.Service.Async.{execute_async}
use ai_workflow.Executor.Service.Waiting.{execute_sync-IsKept, execute_async-IsKept}
use ai_workflow.Executor.Service.Resuming.{resume_approval-IsKept}
use ai_workflow.Executor.Triggers.{
  TriggerError, reserve_execution, lookup_idempotent_run, store_idempotent_run,
}
use ai_workflow.Tenant.Controls as Controls
use ai_workflow.Tenant.Controls.{TriggerControl, TriggerQuota}
use ai_workflow.Api.{
  Response, App, Setup, Decoded, decoded, empty_body, undecodable, write_error, with_service,
  with_journal, journal_of,
}
use ai_workflow.Api.Uploads.{
  Upload, Sniffed, after_create, upload_sniffed, upload_file, handle_upload_document,
  handle_get_document, handle_get_document_chunks,
}
use ai_workflow.Api.Flows.{
  create_decoded, handle_create_workflow, handle_get_workflow, handle_validate_workflow,
}
use ai_workflow.Api.Runs.{
  ResumeRequest, after_resume, resume_decided, resume_decoded, handle_resume_run, handle_get_run,
  handle_list_runs, handle_get_run_steps, handle_get_run_events,
}
use ai_workflow.Api.Trigger.{
  ExecuteRequest, Call, with_headers, stored_response, after_run, run_mode, after_reserve, reserve,
  after_lookup, execute_fingerprinted, execute_requested, execute_decoded, handle_execute_workflow,
}
use ai_workflow.Api.Server.{
  Request, get_tenant_self, post_document, get_document, get_document_chunks, post_workflow,
  get_workflow, post_validate, post_execute, get_runs, get_run, get_run_steps, get_run_events,
  post_resume, handle_tenant_self, route, authenticated, serve,
}

-- The repositories of runs, workflows and documents are sound.
pub record IsSound (setup : Setup) (app : App) : Type 0 where
  pub runs : Runs.IsSound app.system.store
  pub workflows : Flows.IsSound setup.env.platform app.system.workflows
  pub documents : Created.IsSound app.documents

-- The id that is drawn next is not the id of a stored run.
abbrev pub Fresh : Setup → App → Type 0
Fresh setup app =
    (id : String)
    → (draw setup.env app.system.world).0 ≡ ok id
    → lookup id app.system.store.runs ≡ none

module _ (setup : Setup) where
  abbrev pub Sound : Response × App → Type 0
  Sound x = IsSound setup x.1

  pub with_service-Sound :
      (configured : Bool) (name : String) (app : App) (x : Response × App)
      → IsSound setup app
      → Sound x
      → Sound (with_service configured name app x)
  unfolding with_service
  with_service-Sound configured name app x h k =
      if_rule Sound configured x (write_error 503 name, app) k h

  -- A call of the executor that keeps the workflows.
  pub after_call :
      (s : System) (app : App)
      → Runs.IsSound s.store
      → s.workflows ≡ app.system.workflows
      → IsSound setup app
      → IsSound setup (record app { system = s })
  after_call s app runs same h = record {
    runs = runs;
    workflows = subst (Flows.IsSound setup.env.platform) (sym same) h.workflows;
    documents = h.documents;
  }

  pub upload_file-Sound :
      (identity : Identity) (app : App) (upload : Option Upload)
      → IsSound setup app
      → Sound (upload_file setup identity app upload)
  unfolding upload_file upload_sniffed after_create
  upload_file-Sound identity app none h = h
  upload_file-Sound identity app (some upload) h = sniffed_Sound upload.sniffed
    where
      sniffed_Sound :
          (sniffed : Result String Sniffed)
          → Sound (upload_sniffed setup identity upload.filename app sniffed)
      sniffed_Sound (err e) = h
      sniffed_Sound (ok sniffed) =
          let params : CreateParams = record {
            filename = upload.filename;
            content_type = sniffed.content_type;
            content = some sniffed.content;
          } in
          record {
            runs = h.runs;
            workflows = h.workflows;
            documents =
                Created.create_document-IsSound setup.services identity.tenant_id params
                  app.documents (journal_of app) h.documents;
          }

  pub create_decoded-Sound :
      (identity : Identity) (app : App) (body : Decoded Definition)
      → IsSound setup app
      → Sound (create_decoded setup identity app body)
  unfolding create_decoded
  create_decoded-Sound identity app (decoded definition) h = record {
    runs = h.runs;
    workflows =
        Flows.create-IsSound setup.env.platform setup.env.sources identity.tenant_id definition
          app.system.workflows (journal_of app) h.workflows;
    documents = h.documents;
  }
  create_decoded-Sound identity app empty_body h = h
  create_decoded-Sound identity app undecodable h = h

  pub resume_decoded-Sound :
      (identity : Identity) (run_id : String) (app : App) (body : Decoded ResumeRequest)
      → IsSound setup app
      → Sound (resume_decoded setup identity run_id app body)
  unfolding resume_decoded resume_decided after_resume
  resume_decoded-Sound identity run_id app (decoded request) h = decided_Sound request.approved
    where
      decided_Sound :
          (approved : Option Bool)
          → Sound (resume_decided setup identity run_id app request.comment request.input approved)
      decided_Sound none = h
      decided_Sound (some approved) =
          let d : Decision = record { approved = approved; comment = request.comment } in
          let t = identity.tenant_id in
          after_call (resume_approval setup.env t run_id d request.input app.system).1 app
            (resume_approval-IsKept setup.env t d run_id request.input app.system h.runs).sound
            (resume_approval-Keeps setup.env t d request.input run_id app.system) h
  resume_decoded-Sound identity run_id app empty_body h = h
  resume_decoded-Sound identity run_id app undecodable h = h
