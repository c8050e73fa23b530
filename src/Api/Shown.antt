-- ===== src/Api/Shown.antt =====
-- Whose runs the responses of internal/api/server.go show.
use ai_workflow.Base.{
  ◌≡◌, refl, sym, ◌∙◌, inl, inr, ap, String, Bool, true, false, Option, none, some, List, Result,
  ok, err, All, is_blank, Bool-cases, ◌==◌, trim_space,
}
pub mod Runs
pub mod Triggers
pub mod Served
use mathlib.Core.Path.{subst}
use ai_workflow.Base.{if_rule}
use ai_workflow.Base.Dict.{Dict}
use ai_workflow.Base.Value.{Value}
use ai_workflow.Base.Lists.{Result-cases}
use ai_workflow.Auth.{Identity}
use ai_workflow.Executor.{
  Run, RunStatus, queued, running, waiting_approval, completed, failed, dead_letter,
}
use ai_workflow.Executor.Repository.{get_run}
use ai_workflow.Executor.Repository.Loading.{get_run-eq-ok}
use ai_workflow.Executor.Repository.Listing.{list_runs-owned}
use ai_workflow.Executor.Service as Execution
use ai_workflow.Executor.Service.{System}
use ai_workflow.Executor.Service.Sync.{from_repository, service_list_runs, service_get_run}
use ai_workflow.Executor.Service.Resume.{Decision, resume_approval}
use ai_workflow.Executor.Service.Decided.{resume_approval-Continues}
use ai_workflow.Api.{
  Response, App, Setup, Payload, Decoded, decoded, empty_body, undecodable, run, runs,
  error_message, respond, answer, with_service,
}
use ai_workflow.Api.Errors.{
  Failure, ErrorRule, of_execution, write_mapped_error, write_mapped_error-payload,
  write_execution_error, write_execution_error-payload,
}
use ai_workflow.Api.Runs.{
  ResumeRequest, refused, runs_with, handle_list_runs, handle_get_run, after_resume, resume_decided,
  resume_decoded, handle_resume_run,
}

-- The runs in a payload belong to a tenant.
abbrev pub ShownTo : String → Payload → Type 0
ShownTo tenant_id (run r) = r.tenant_id ≡ tenant_id
ShownTo tenant_id (runs rs) = All (λ r. r.tenant_id ≡ tenant_id) rs
ShownTo tenant_id _ = Unit

abbrev pub Shown : String → Response × App → Type 0
Shown tenant_id (response, app) = ShownTo tenant_id response.payload

module _ (tenant_id : String) where
  pub write_mapped_error-Shown :
      (e : Failure) (fallback : String) (rules : List ErrorRule)
      → ShownTo tenant_id (write_mapped_error e fallback rules).payload
  write_mapped_error-Shown e fallback rules =
      let (m, same) = write_mapped_error-payload e fallback rules in
      subst (ShownTo tenant_id) (sym same) tt

  pub write_execution_error-Shown :
      (e : Failure) (fallback : String)
      → ShownTo tenant_id (write_execution_error e fallback).payload
  write_execution_error-Shown e fallback =
      let (m, same) = write_execution_error-payload e fallback in
      subst (ShownTo tenant_id) (sym same) tt

  pub answer-Shown :
      {E A : Type 0} (on_error : E → Response) (on_found : A → Response) (x : Result E A)
      → ((e : E) → ShownTo tenant_id (on_error e).payload)
      → ((a : A) → x ≡ ok a → ShownTo tenant_id (on_found a).payload)
      → ShownTo tenant_id (answer on_error on_found x).payload
  answer-Shown on_error on_found (err e) f g = f e
  answer-Shown on_error on_found (ok a) f g = g a refl

  pub with_service-Shown :
      (configured : Bool) (name : String) (app : App) (handled : Response × App)
      → Shown tenant_id handled
      → Shown tenant_id (with_service configured name app handled)
  unfolding with_service
  with_service-Shown true name app handled h = h
  with_service-Shown false name app handled h = tt
