-- ===== src/Api/Access.antt =====
-- Who is answered by the server of internal/api/server.go.
use ai_workflow.Base.{
  ◌≡◌, ◌≢◌, refl, ◌∙◌, String, Bool, true, false, some, [], ok, err, trim_space, is_blank,
}
use ai_workflow.Base.Dict.{lookup}
use ai_workflow.Auth.{Identity, authenticate}
use ai_workflow.Executor.{Run}
use ai_workflow.Executor.Jobs.{Job}
use ai_workflow.Executor.Repository.{run_not_found}
use ai_workflow.Executor.Service.{repository_error}
use ai_workflow.Executor.Service.Tenancy.{foreign_run}
use ai_workflow.Executor.Service.Resume.{Decision}
use ai_workflow.Executor.Service.Sync.{service_get_run}
use ai_workflow.Api.{Response, App, Setup, decoded, write_error, with_service}
use ai_workflow.Api.Errors.{
  of_execution, write_execution_error, write_mapped_error, matches_any, Sentinel-discrete,
  errors_is,
}
use ai_workflow.Api.Runs.{
  ResumeRequest, run_events, resume_decoded, resume_decided, after_resume, handle_get_run,
  handle_get_run_steps, handle_get_run_events, handle_resume_run,
}
use ai_workflow.Api.Server.{
  Request, get_run, get_run_steps, get_run_events, post_resume, route, authenticated, serve,
}

run_not_found_lem :
    (fallback : String)
    → write_execution_error (of_execution (repository_error run_not_found)) fallback
      ≡ write_error 404 "workflow run not found"
unfolding write_execution_error write_mapped_error matches_any errors_is Sentinel-discrete
run_not_found_lem fallback = refl

-- The response to a request for a run that is not the tenant's.
abbrev pub no_such_run : Response
no_such_run = write_error 404 "workflow run not found"

module _ (setup : Setup) (identity : Identity) (run_id : String) (request : ResumeRequest)
    (approved : Bool) (app : App) (r : Run) (given : is_blank identity.tenant_id ≡ false)
    (found : lookup run_id app.system.store.runs ≡ some r)
    (foreign : r.tenant_id ≢ identity.tenant_id) (executor : setup.has_executor ≡ true)
    (audit : setup.has_audit ≡ true) where
  abbrev job : Job
  job = record {
    run_id = run_id;
    tenant_id = identity.tenant_id;
    workflow_id = "";
    attempt = 0;
    max_attempts = 0;
    input = [];
  }

  abbrev decision : Decision
  decision = record { approved = approved; comment = request.comment }

  unread :
      service_get_run identity.tenant_id run_id app.system ≡ err (repository_error run_not_found)
  unread = (foreign_run setup.env job decision request.input app.system r given found foreign).0

  get_run_foreign : route setup identity (get_run run_id) app ≡ (no_such_run, app)
  unfolding route handle_get_run with_service
  get_run_foreign =
      rw (executor, unread) (rw (run_not_found_lem "failed to fetch workflow run") refl)

  get_run_steps_foreign : route setup identity (get_run_steps run_id) app ≡ (no_such_run, app)
  unfolding route handle_get_run_steps with_service
  get_run_steps_foreign =
      let unlisted =
        (foreign_run setup.env job decision request.input app.system r given found foreign).1 in
      rw (executor, unlisted) (rw (run_not_found_lem "failed to fetch workflow steps") refl)

  get_run_events_foreign : route setup identity (get_run_events run_id) app ≡ (no_such_run, app)
  unfolding route handle_get_run_events with_service run_events
  get_run_events_foreign =
      rw (audit, executor, unread)
        (rw (run_not_found_lem "failed to fetch workflow run events") refl)

  post_resume_foreign :
      request.approved ≡ some approved
      → route setup identity (post_resume run_id (decoded request)) app ≡ (no_such_run, app)
  unfolding route handle_resume_run with_service resume_decoded resume_decided after_resume
  post_resume_foreign decided =
      let unresumed =
        (foreign_run setup.env job decision request.input app.system r given found foreign).2 in
      rw (executor, decided, unresumed)
        (rw (run_not_found_lem "failed to resume workflow run") refl)

served :
    (setup : Setup) (api_key : String) (request : Request) (app : App) (identity : Identity)
    → setup.has_authenticator ≡ true
    → authenticate setup.hash_api_key app.credentials app.tenants (trim_space api_key) ≡ ok identity
    → serve setup api_key request app ≡ route setup identity request app
unfolding serve authenticated
served setup api_key request app identity set known = rw (set, known) refl

-- To a request with an accepted key a stored run of another tenant does not exist: reading it, its
-- steps or its events, and deciding on it, are all answered with status 404 and change nothing. The
-- services are set, and the tenant's id is not blank.
pub serve-foreign :
    (setup : Setup) (api_key run_id : String) (request : ResumeRequest) (approved : Bool)
    → (app : App) (identity : Identity) (r : Run) → setup.has_authenticator ≡ true
    → setup.has_executor ≡ true
    → setup.has_audit ≡ true
    → authenticate setup.hash_api_key app.credentials app.tenants (trim_space api_key) ≡ ok identity
    → is_blank identity.tenant_id ≡ false
    → lookup run_id app.system.store.runs ≡ some r
    → r.tenant_id ≢ identity.tenant_id
    → request.approved ≡ some approved
    → (serve setup api_key (get_run run_id) app ≡ (no_such_run, app))
      × (serve setup api_key (get_run_steps run_id) app ≡ (no_such_run, app))
      × (serve setup api_key (get_run_events run_id) app ≡ (no_such_run, app))
      × (serve setup api_key (post_resume run_id (decoded request)) app ≡ (no_such_run, app))
serve-foreign setup api_key run_id request approved app identity r set executor audit known given
      found foreign decided =
    let to = λ (q : Request). served setup api_key q app identity set known in
    (
      to (get_run run_id)
          ∙ get_run_foreign setup identity run_id request approved app r given found foreign
              executor audit,
      to (get_run_steps run_id)
          ∙ get_run_steps_foreign setup identity run_id request approved app r given found foreign
              executor audit,
      to (get_run_events run_id)
          ∙ get_run_events_foreign setup identity run_id request approved app r given found foreign
              executor audit,
      to (post_resume run_id (decoded request))
          ∙ post_resume_foreign setup identity run_id request approved app r given found foreign
              executor audit decided,
    )
