-- ===== src/Api/Uploads.antt =====
-- The handlers of documents in internal/api/server.go.
use ai_workflow.Base.{String, Option, none, some, Result, ok, err}
use ai_workflow.Audit.{Journal}
use ai_workflow.Auth.{Identity}
use ai_workflow.Documents
use ai_workflow.Documents.{Document, CreateParams}
use ai_workflow.Api.{
  Response, App, Setup, document, chunks, respond, write_error, with_service, journal_of,
  with_journal, answer,
}
use ai_workflow.Api.Errors.{write_document_error}

-- What `sniffedContent` gives of a file: its detected type, and what reading all of it gives.
pub record Sniffed : Type 0 where
  pub content_type : String
  pub content : Result String String

pub record Upload : Type 0 where
  pub filename : String
  pub sniffed : Result String Sniffed

unfoldable pub after_create :
    App → Result Documents.Error Document × Documents.Store × Journal → Response × App
after_create app (result, s, j) = (
  answer (λ e. write_document_error e "failed to upload document") (λ d. respond 201 (document d))
      result,
  with_journal (record app { documents = s }) j,
)

unfoldable pub upload_sniffed :
    Setup → Identity → String → App → Result String Sniffed → Response × App
unfolding after_create
upload_sniffed setup identity filename app (err e) =
    (write_error 400 "failed to read uploaded file", app)
upload_sniffed setup identity filename app (ok sniffed) =
    let params : CreateParams = record {
      filename = filename;
      content_type = sniffed.content_type;
      content = some sniffed.content;
    } in
    after_create app
      (Documents.create setup.services identity.tenant_id params app.documents (journal_of app))

-- `none` is a form without the field.
unfoldable pub upload_file : Setup → Identity → App → Option Upload → Response × App
unfolding upload_sniffed
upload_file setup identity app none = (write_error 400 "missing multipart file field", app)
upload_file setup identity app (some upload) =
    upload_sniffed setup identity upload.filename app upload.sniffed

unfoldable pub handle_upload_document : Setup → Identity → Option Upload → App → Response × App
unfolding upload_file with_service
handle_upload_document setup identity upload app =
    with_service setup.has_documents "document service is not configured" app
      (upload_file setup identity app upload)

unfoldable pub handle_get_document : Setup → Identity → String → App → Response × App
unfolding with_service
handle_get_document setup identity document_id app =
    with_service setup.has_documents "document service is not configured" app (
      answer (λ e. write_document_error e "failed to fetch document")
          (λ d. respond 200 (document d))
          (Documents.get app.documents identity.tenant_id document_id),
      app,
    )

unfoldable pub handle_get_document_chunks : Setup → Identity → String → App → Response × App
unfolding with_service
handle_get_document_chunks setup identity document_id app =
    with_service setup.has_documents "document service is not configured" app (
      answer (λ e. write_document_error e "failed to fetch document chunks")
          (λ cs. respond 200 (chunks cs))
          (Documents.list_chunks app.documents identity.tenant_id document_id),
      app,
    )
