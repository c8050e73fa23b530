-- ===== src/Api/Shown/Runs.antt =====
-- Whose runs the handlers of runs in internal/api/server.go show.
use ai_workflow.Base.{
  ◌≡◌, arith, inl, inr, String, Bool, Option, none, some, List, Result, ok, err, All, is_blank,
  Bool-cases, ◌==◌, trim_space,
}
use mathlib.Core.Path.{subst}
use ai_workflow.Base.{if_rule}
use ai_workflow.Base.Dict.{Dict}
use ai_workflow.Base.Value.{Value}
use ai_workflow.Base.Lists.{Result-cases}
use ai_workflow.Auth.{Identity}
use ai_workflow.Executor.{
  Run, RunStatus, queued, running, waiting_approval, completed, failed, dead_letter,
}
use ai_workflow.Executor.Repository.{get_run}
use ai_workflow.Executor.Repository.Laws.{IsSound}
use ai_workflow.Executor.Repository.Loading.{get_run-eq-ok}
use ai_workflow.Executor.Repository.Listing.{list_runs-owned}
use ai_workflow.Executor.Service as Execution
use ai_workflow.Executor.Service.{System}
use ai_workflow.Executor.Service.Sync.{from_repository, service_list_runs, service_get_run}
use ai_workflow.Executor.Service.Resume.{Decision, resume_approval}
use ai_workflow.Executor.Service.Decided.{resume_approval-Continues}
use ai_workflow.Api.{App, Setup, Decoded, decoded, empty_body, undecodable, run, runs, respond}
use ai_workflow.Api.Errors.{of_execution}
use ai_workflow.Api.Runs.{
  ResumeRequest, refused, runs_with, handle_list_runs, handle_get_run, after_resume, resume_decided,
  resume_decoded, handle_resume_run,
}
use ai_workflow.Api.Shown.{Shown, write_execution_error-Shown, answer-Shown, with_service-Shown}

module _ (tenant_id : String) where
  service_list_runs-owned :
      (status : Option RunStatus) (s : System) (rs : List Run)
      → service_list_runs tenant_id status s ≡ ok rs
      → All (λ r. r.tenant_id ≡ tenant_id) rs
  unfolding service_list_runs
  service_list_runs-owned status s rs h = elim (Bool-cases (is_blank tenant_id)) [
    | inl blank ↦ absurd (cc (simp blank at h))
    | inr given ↦
        subst (All (λ r. r.tenant_id ≡ tenant_id)) (cc (simp given at h))
          (list_runs-owned tenant_id status s.store)
  ]

  abbrev Own : Result Execution.Error (List Run) → Type 0
  Own (err e) = Unit
  Own (ok rs) = All (λ r. r.tenant_id ≡ tenant_id) rs

  listed-Own : (status : Option RunStatus) (s : System) → Own (service_list_runs tenant_id status s)
  listed-Own status s = elim (Result-cases (service_list_runs tenant_id status s)) [
    | inl (rs, e) ↦ rw (e, Own) (service_list_runs-owned status s rs e)
    | inr (e', e) ↦ rw (e, Own) tt
  ]

  runs_with-Own : (status : String) (s : System) → Own (runs_with tenant_id status s)
  unfolding runs_with
  runs_with-Own status s = if_rule Own (status == "") _ _ (listed-Own none s) (
      if_rule Own (status == "queued") _ _ (listed-Own (some queued) s) (
        if_rule Own (status == "running") _ _ (listed-Own (some running) s) (
          if_rule Own (status == "waiting_approval") _ _ (listed-Own (some waiting_approval) s) (
            if_rule Own (status == "completed") _ _ (listed-Own (some completed) s) (
              if_rule Own (status == "failed") _ _ (listed-Own (some failed) s) (
                if_rule Own (status == "dead_letter") _ _ (listed-Own (some dead_letter) s)
                  (if_rule Own (is_blank tenant_id) _ _ tt tt)))))))

  service_get_run-owned :
      (run_id : String) (s : System) (r : Run)
      → service_get_run tenant_id run_id s ≡ ok r
      → r.tenant_id ≡ tenant_id
  unfolding service_get_run from_repository
  service_get_run-owned run_id s r h = elim (Bool-cases (is_blank tenant_id)) [
    | inl blank ↦ absurd (cc (simp blank at h))
    | inr given ↦ elim (Result-cases (get_run tenant_id run_id s.store)) [
      | inl (r', e) ↦ (get_run-eq-ok tenant_id run_id r s.store (ground (arith, h, given, e))).1
      | inr (e', e) ↦ absurd (ground (arith, h, given, e))
    ]
  ]

module _ (setup : Setup) (identity : Identity) where
  pub handle_list_runs-Shown :
      (status : String) (app : App)
      → Shown identity.tenant_id (handle_list_runs setup identity status app)
  unfolding handle_list_runs
  handle_list_runs-Shown status app =
      with_service-Shown identity.tenant_id setup.has_executor _ app _ (
        answer-Shown identity.tenant_id (refused "failed to list workflow runs")
          (λ rs. respond 200 (runs rs))
          (runs_with identity.tenant_id (trim_space status) app.system)
          (λ e. write_execution_error-Shown identity.tenant_id (of_execution e) _)
          (λ rs found.
            subst (Own identity.tenant_id) found
              (runs_with-Own identity.tenant_id (trim_space status) app.system)))

  pub handle_get_run-Shown :
      (run_id : String) (app : App)
      → Shown identity.tenant_id (handle_get_run setup identity run_id app)
  unfolding handle_get_run
  handle_get_run-Shown run_id app =
      with_service-Shown identity.tenant_id setup.has_executor _ app _ (
        answer-Shown identity.tenant_id (refused "failed to fetch workflow run")
          (λ r. respond 200 (run r)) (service_get_run identity.tenant_id run_id app.system)
          (λ e. write_execution_error-Shown identity.tenant_id (of_execution e) _)
          (λ r found. service_get_run-owned identity.tenant_id run_id app.system r found))

  resume_decided-Shown :
      (run_id comment : String) (app : App) (input : Dict Value) (approved : Option Bool)
      → IsSound app.system.store
      → Shown identity.tenant_id (resume_decided setup identity run_id app comment input approved)
  unfolding resume_decided after_resume
  resume_decided-Shown run_id comment app input none sound = tt
  resume_decided-Shown run_id comment app input (some approved) sound =
      let d : Decision = record { approved = approved; comment = comment } in
      answer-Shown identity.tenant_id (refused "failed to resume workflow run")
        (λ r. respond 200 (run r))
        (resume_approval setup.env identity.tenant_id run_id d input app.system).0
        (λ e. write_execution_error-Shown identity.tenant_id (of_execution e) _)
        (λ r found.
          (resume_approval-Continues setup.env identity.tenant_id d run_id input app.system r sound
            found).2)

  pub handle_resume_run-Shown :
      (run_id : String) (body : Decoded ResumeRequest) (app : App)
      → IsSound app.system.store
      → Shown identity.tenant_id (handle_resume_run setup identity run_id body app)
  unfolding handle_resume_run resume_decoded
  handle_resume_run-Shown run_id body app sound =
      with_service-Shown identity.tenant_id setup.has_executor _ app _ (decided body)
    where
      decided :
          (body : Decoded ResumeRequest)
          → Shown identity.tenant_id (resume_decoded setup identity run_id app body)
      decided (decoded request) =
          resume_decided-Shown run_id request.comment app request.input request.approved sound
      decided empty_body = tt
      decided undecodable = tt
