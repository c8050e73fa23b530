-- ===== src/Api/Errors.antt =====
-- The mapping of errors to responses in internal/api/server.go.
use ai_workflow.Base.{
  ℕ, ◌≡◌, refl, inl, inr, String, Bool, true, false, ◌||◌, Option, none, some, List, [], ◌∷◌,
  if◌then◌else◌, Bool-cases, ◌==◌,
}
use Prim.Native.String as Text
use mathlib.Core.Logic.{ite}
use ai_workflow.Documents
use ai_workflow.Documents.{error_text}
use ai_workflow.Workflow.Service
use ai_workflow.Executor.Service as Execution
use ai_workflow.Executor.Repository
use ai_workflow.Executor.Triggers
use ai_workflow.Tenant.Controls
use ai_workflow.Audit
use ai_workflow.Api.{Response, error_message, write_error}

-- The exported error values that handlers look for.
pub data Sentinel : Type 0 where
  document_not_found invalid_filename missing_content unsupported_content_type : Sentinel
  workflow_not_found workflow_invalid_tenant invalid_definition : Sentinel
  run_not_found not_awaiting_review idempotency_conflict rate_limited : Sentinel
  execution_invalid_tenant async_disabled : Sentinel

unfoldable pub Sentinel-discrete : Discrete Sentinel
Sentinel-discrete = hlevel

-- An error as it reaches a handler.
pub data Failure : Type 0 where
  of_documents : Documents.Error → Failure
  of_workflows : Service.Error → Failure
  of_execution : Execution.Error → Failure
  of_trigger : Triggers.TriggerError → Failure
  of_control : Controls.Error → Failure
  of_audit : Audit.Error → Failure

abbrev document_sentinel : Documents.Error → Option Sentinel
document_sentinel Documents.not_found = some document_not_found
document_sentinel Documents.invalid_filename = some invalid_filename
document_sentinel Documents.missing_content = some missing_content
document_sentinel Documents.unsupported_content_type = some unsupported_content_type
document_sentinel _ = none

abbrev workflow_sentinel : Service.Error → Option Sentinel
workflow_sentinel Service.not_found = some workflow_not_found
workflow_sentinel Service.invalid_tenant = some workflow_invalid_tenant
workflow_sentinel Service.invalid_definition = some invalid_definition
workflow_sentinel (Service.generate_id e) = none

abbrev execution_sentinel : Execution.Error → Option Sentinel
execution_sentinel Execution.invalid_tenant = some execution_invalid_tenant
execution_sentinel Execution.async_disabled = some async_disabled
execution_sentinel Execution.run_not_awaiting_review = some not_awaiting_review
execution_sentinel (Execution.repository_error Repository.run_not_found) = some run_not_found
execution_sentinel (Execution.repository_error Repository.not_awaiting_review) =
    some not_awaiting_review
execution_sentinel (Execution.workflow_error e) = workflow_sentinel e
execution_sentinel _ = none

abbrev control_sentinel : Controls.Error → Sentinel
control_sentinel Controls.rate_limited = rate_limited
control_sentinel Controls.idempotency_conflict = idempotency_conflict

-- The exported value that an error is or wraps.
abbrev pub sentinel : Failure → Option Sentinel
sentinel (of_documents e) = document_sentinel e
sentinel (of_workflows e) = workflow_sentinel e
sentinel (of_execution e) = execution_sentinel e
sentinel (of_trigger Triggers.invalid_tenant) = some execution_invalid_tenant
sentinel (of_trigger (Triggers.control_error e)) = some (control_sentinel e)
sentinel (of_control e) = some (control_sentinel e)
sentinel (of_audit e) = none

control_text : Controls.Error → String
control_text Controls.rate_limited = "tenant execution rate limit exceeded"
control_text Controls.idempotency_conflict = "idempotency key already used with different request"

-- `err.Error()`
pub failure_text : Failure → String
unfolding control_text
failure_text (of_documents e) = error_text e
failure_text (of_workflows e) = Service.error_text e
failure_text (of_execution e) = Execution.error_text e
failure_text (of_trigger Triggers.invalid_tenant) = "invalid tenant"
failure_text (of_trigger (Triggers.control_error e)) = control_text e
failure_text (of_control e) = control_text e
failure_text (of_audit Audit.invalid_tenant) = "invalid tenant"
failure_text (of_audit (Audit.generate_event_id e)) = Text.◌++◌ "generate audit event id: " e

pub record ErrorRule : Type 0 where
  pub status : ℕ
  pub message : String
  pub use_err : Bool
  pub sentinels : List Sentinel

-- `errors.Is`, for the value that an error is or wraps.
unfoldable pub errors_is : Option Sentinel → Sentinel → Bool
errors_is none s = false
errors_is (some t) s = ite (Sentinel-discrete t s) true false

unfoldable pub matches_any : Option Sentinel → List Sentinel → Bool
unfolding errors_is
matches_any e [] = false
matches_any e (s ∷ rest) = errors_is e s || matches_any e rest

unfoldable pub write_mapped_error : Failure → String → List ErrorRule → Response
write_mapped_error e fallback [] = write_error 500 fallback
write_mapped_error e fallback (rule ∷ rules) =
    let rest = write_mapped_error e fallback rules in
    if matches_any (sentinel e) rule.sentinels
    then write_error rule.status (
        if rule.use_err
        then failure_text e
        else if rule.message == ""
        then fallback
        else rule.message)
    else rest

abbrev use_text : ℕ → List Sentinel → ErrorRule
use_text status sentinels = record {
  status = status;
  message = "";
  use_err = true;
  sentinels = sentinels;
}

abbrev say : ℕ → String → Sentinel → ErrorRule
say status message s = record {
  status = status;
  message = message;
  use_err = false;
  sentinels = s ∷ [];
}

unfoldable pub write_document_error : Documents.Error → String → Response
write_document_error e fallback = write_mapped_error (of_documents e) fallback (
    use_text 400 (invalid_filename ∷ missing_content ∷ unsupported_content_type ∷ [])
    ∷ say 404 "document not found" document_not_found
    ∷ [])

unfoldable pub write_workflow_error : Service.Error → String → Response
write_workflow_error e fallback = write_mapped_error (of_workflows e) fallback (
    say 404 "workflow not found" workflow_not_found
    ∷ use_text 400 (workflow_invalid_tenant ∷ invalid_definition ∷ [])
    ∷ [])

unfoldable pub write_execution_error : Failure → String → Response
write_execution_error e fallback = write_mapped_error e fallback (
    say 404 "workflow not found" workflow_not_found
    ∷ say 404 "workflow run not found" run_not_found
    ∷ use_text 409 (not_awaiting_review ∷ idempotency_conflict ∷ [])
    ∷ use_text 429 (rate_limited ∷ [])
    ∷ use_text 400 (execution_invalid_tenant ∷ async_disabled ∷ [])
    ∷ [])

-- Every error is answered with a message.
pub write_mapped_error-payload :
    (e : Failure) (fallback : String) (rules : List ErrorRule)
    → (m : String) × ((write_mapped_error e fallback rules).payload ≡ error_message m)
unfolding write_mapped_error
write_mapped_error-payload e fallback [] = (fallback, refl)
write_mapped_error-payload e fallback (rule ∷ rules) =
    let (m, same) = write_mapped_error-payload e fallback rules in
    elim (Bool-cases (matches_any (sentinel e) rule.sentinels)) [
      | inl fits ↦ (
        if rule.use_err
            then failure_text e
            else if rule.message == ""
            then fallback
            else rule.message,
        rw fits refl,
      )
      | inr other ↦ (m, rw other same)
    ]

pub write_execution_error-payload :
    (e : Failure) (fallback : String)
    → (m : String) × ((write_execution_error e fallback).payload ≡ error_message m)
unfolding write_execution_error
write_execution_error-payload e fallback = write_mapped_error-payload e fallback (
    say 404 "workflow not found" workflow_not_found
    ∷ say 404 "workflow run not found" run_not_found
    ∷ use_text 409 (not_awaiting_review ∷ idempotency_conflict ∷ [])
    ∷ use_text 429 (rate_limited ∷ [])
    ∷ use_text 400 (execution_invalid_tenant ∷ async_disabled ∷ [])
    ∷ [])
