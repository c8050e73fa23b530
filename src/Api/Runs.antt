-- ===== src/Api/Runs.antt =====
-- The handlers of runs in internal/api/server.go.
use ai_workflow.Base.{
  String, Bool, Option, none, some, List, [], if◌then◌else◌, Result, ok, err, ◌==◌, trim_space,
  is_blank,
}
use ai_workflow.Base.Dict.{Dict}
use ai_workflow.Base.Value.{Value}
use ai_workflow.Audit.{list_run_events}
use ai_workflow.Auth.{Identity}
use ai_workflow.Executor.{Run, queued, running, waiting_approval, completed, failed, dead_letter}
use ai_workflow.Executor.Service as Execution
use ai_workflow.Executor.Service.{System}
use ai_workflow.Executor.Service.Sync.{service_get_run, service_list_steps, service_list_runs}
use ai_workflow.Executor.Service.Resume.{Decision, resume_approval}
use ai_workflow.Api.{
  Response, App, Setup, Decoded, decoded, empty_body, undecodable, run, runs, steps, events,
  respond, write_error, aborted, with_service, journal_of, answer,
}
use ai_workflow.Api.Errors.{of_execution, of_audit, write_execution_error}

-- The error of a call of the executor.
abbrev pub refused : String → Execution.Error → Response
refused fallback e = write_execution_error (of_execution e) fallback

unfoldable pub handle_get_run : Setup → Identity → String → App → Response × App
unfolding with_service
handle_get_run setup identity run_id app =
    with_service setup.has_executor "executor service is not configured" app (
      answer (refused "failed to fetch workflow run") (λ r. respond 200 (run r))
          (service_get_run identity.tenant_id run_id app.system),
      app,
    )

-- The runs with a status that is given as a text; there are none with another text.
unfoldable pub runs_with : String → String → System → Result Execution.Error (List Run)
runs_with tenant_id status s =
    if status == ""
    then service_list_runs tenant_id none s
    else if status == "queued"
    then service_list_runs tenant_id (some queued) s
    else if status == "running"
    then service_list_runs tenant_id (some running) s
    else if status == "waiting_approval"
    then service_list_runs tenant_id (some waiting_approval) s
    else if status == "completed"
    then service_list_runs tenant_id (some completed) s
    else if status == "failed"
    then service_list_runs tenant_id (some failed) s
    else if status == "dead_letter"
    then service_list_runs tenant_id (some dead_letter) s
    else if is_blank tenant_id
    then err Execution.invalid_tenant
    else ok []

unfoldable pub handle_list_runs : Setup → Identity → String → App → Response × App
unfolding with_service runs_with
handle_list_runs setup identity status app =
    with_service setup.has_executor "executor service is not configured" app (
      answer (refused "failed to list workflow runs") (λ rs. respond 200 (runs rs))
          (runs_with identity.tenant_id (trim_space status) app.system),
      app,
    )

unfoldable pub handle_get_run_steps : Setup → Identity → String → App → Response × App
unfolding with_service
handle_get_run_steps setup identity run_id app =
    with_service setup.has_executor "executor service is not configured" app (
      answer (refused "failed to fetch workflow steps") (λ xs. respond 200 (steps xs))
          (service_list_steps identity.tenant_id run_id app.system),
      app,
    )

-- The events are listed after the run was found, which is not tested to be possible: without an
-- executor the handler panics.
unfoldable pub run_events : Identity → String → App → Result Execution.Error Run → Response
run_events identity run_id app (err e) = refused "failed to fetch workflow run events" e
run_events identity run_id app (ok r) =
    answer (λ e. write_execution_error (of_audit e) "failed to fetch workflow run events")
      (λ es. respond 200 (events es)) (list_run_events (journal_of app) identity.tenant_id run_id)

unfoldable pub handle_get_run_events : Setup → Identity → String → App → Response × App
unfolding with_service run_events
handle_get_run_events setup identity run_id app =
    let found = service_get_run identity.tenant_id run_id app.system in
    with_service setup.has_audit "audit service is not configured" app
      (if setup.has_executor then run_events identity run_id app found else aborted, app)

pub record ResumeRequest : Type 0 where
  pub approved : Option Bool
  pub comment : String
  pub input : Dict Value

unfoldable pub after_resume : App → Result Execution.Error Run × System → Response × App
after_resume app (result, s) = (
  answer (refused "failed to resume workflow run") (λ r. respond 200 (run r)) result,
  record app { system = s },
)

unfoldable pub resume_decided :
    Setup → Identity → String → App → String → Dict Value → Option Bool → Response × App
unfolding after_resume
resume_decided setup identity run_id app comment input none =
    (write_error 400 "approved decision is required", app)
resume_decided setup identity run_id app comment input (some approved) =
    let decision : Decision = record { approved = approved; comment = comment } in
    after_resume app (resume_approval setup.env identity.tenant_id run_id decision input app.system)

unfoldable pub resume_decoded :
    Setup → Identity → String → App → Decoded ResumeRequest → Response × App
unfolding resume_decided
resume_decoded setup identity run_id app (decoded request) =
    resume_decided setup identity run_id app request.comment request.input request.approved
resume_decoded setup identity run_id app empty_body =
    (write_error 400 "invalid workflow resume payload", app)
resume_decoded setup identity run_id app undecodable =
    (write_error 400 "invalid workflow resume payload", app)

unfoldable pub handle_resume_run :
    Setup → Identity → String → Decoded ResumeRequest → App → Response × App
unfolding with_service resume_decoded
handle_resume_run setup identity run_id body app =
    with_service setup.has_executor "executor service is not configured" app
      (resume_decoded setup identity run_id app body)
