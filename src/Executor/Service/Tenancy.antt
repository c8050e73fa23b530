-- ===== src/Executor/Service/Tenancy.antt =====
-- The runs of another tenant, for the operations of internal/executor that name a run.
use ai_workflow.Base.{◌≡◌, ◌≢◌, refl, false, some, err, is_blank}
use ai_workflow.Base.Dict.{Dict, lookup}
use ai_workflow.Base.Value.{Value}
use ai_workflow.Executor.{Run, Env}
use ai_workflow.Executor.Jobs.{Job}
use ai_workflow.Executor.Repository.{run_not_found}
use ai_workflow.Executor.Repository.Loading.{
  get_run-foreign, load_pending-foreign, list_steps-foreign,
}
use ai_workflow.Executor.Service.{System, repository_error}
use ai_workflow.Executor.Service.Sync.{from_repository, service_get_run, service_list_steps}
use ai_workflow.Executor.Service.Async.{process_run, process_async_job}
use ai_workflow.Executor.Service.Resume.{Decision, resume_approval}
use ai_workflow.Executor.Service.Decided.{resume_refused}

-- To a tenant that is not blank, a stored run of another tenant does not exist: reading it, listing
-- its steps, resuming it and processing a job for it all say that no run is found, and change
-- nothing.
pub foreign_run :
    (env : Env) (job : Job) (d : Decision) (input : Dict Value) (s : System) (r : Run)
    → is_blank job.tenant_id ≡ false
    → lookup job.run_id s.store.runs ≡ some r
    → r.tenant_id ≢ job.tenant_id
    → (service_get_run job.tenant_id job.run_id s ≡ err (repository_error run_not_found))
      × (service_list_steps job.tenant_id job.run_id s ≡ err (repository_error run_not_found))
      × (resume_approval env job.tenant_id job.run_id d input s
          ≡ (err (repository_error run_not_found), s))
      × (process_async_job env job s ≡ (err (repository_error run_not_found), s))
unfolding service_get_run service_list_steps process_async_job process_run from_repository
foreign_run env job d input s r given found foreign =
    let unread = get_run-foreign job.tenant_id job.run_id r s.store found foreign in
    (
      simp (given, unread) refl,
      simp (given, list_steps-foreign job.tenant_id job.run_id r s.store found foreign) refl,
      resume_refused env job.tenant_id job.run_id d input s run_not_found given
          (load_pending-foreign job.tenant_id job.run_id r s.store found foreign),
      simp (given, unread) refl,
    )
