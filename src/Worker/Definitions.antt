-- ===== src/Worker/Definitions.antt =====
-- The worker of internal/worker/service.go does not change the workflows.
use ai_workflow.Base.{
  suc, ◌≡◌, refl, inl, inr, String, Option, none, some, ltb, if◌then◌else◌, Option-cases, Result,
  ok, err, is_blank,
}
use ai_workflow.Base.{if_rule}
use ai_workflow.Base.{ite_rule, if_rule}
use ai_workflow.Base.Dict.{Dict}
use ai_workflow.Workflow.{Workflow}
use ai_workflow.Workflow.Service as Service
use ai_workflow.Executor.{Run, RunStatus-discrete, Env, read, running, queued, failed}
use ai_workflow.Executor.Engine.{new_execution_state}
use ai_workflow.Executor.Graph.{GraphError, Graph, build_graph}
use ai_workflow.Executor.Jobs.{Job, MemoryQueue, dequeue, enqueue_after}
use ai_workflow.Executor.Repository.{RepositoryError, get_run, update_run}
use ai_workflow.Executor.Service.{Error, System, invalid_tenant, audit_run}
use ai_workflow.Executor.Service.Definitions.{execute_run-Keeps}
use ai_workflow.Executor.Service.Async.{
  fail_run, merge_input, process_async_job, process_run, process_workflow, process_on_graph,
  mark_async_retry, mark_dead_letter,
}
use ai_workflow.Worker.{
  requeue, retry_or_give_up, retry_job, retry_delay, after_processing, dequeued, process_next,
}

abbrev Keeps : {A : Type 0} → Dict Workflow → A × System → Type 0
Keeps flows x = x.1.workflows ≡ flows

module _ (env : Env) where
  process_on_graph-Keeps :
      (job : Job) (run : Run) (s : System) (g : Result GraphError Graph)
      → Keeps s.workflows (process_on_graph env job run s g)
  unfolding process_on_graph fail_run
  process_on_graph-Keeps job run s (err e) = refl
  process_on_graph-Keeps job run s (ok g) =
      let (now, w) = read env s.world in
      let run' : Run = record run {
        status = running;
        attempt = suc job.attempt;
        max_attempts = if ltb 0 job.max_attempts then job.max_attempts else run.max_attempts;
        input = merge_input run.input job.input;
        started_at = now;
      } in
      execute_run-Keeps env run' g run'.input (new_execution_state g.roots)
        (record s { store = update_run run' s.store; world = w })

  process_workflow-Keeps :
      (job : Job) (run : Run) (s : System) (found : Result Service.Error Workflow)
      → Keeps s.workflows (process_workflow env job run s found)
  unfolding process_workflow fail_run
  process_workflow-Keeps job run s (err e) = refl
  process_workflow-Keeps job run s (ok wf) =
      process_on_graph-Keeps job run s (build_graph wf.definition)

  process_run-Keeps :
      (job : Job) (s : System) (found : Result RepositoryError Run)
      → Keeps s.workflows (process_run env job s found)
  unfolding process_run
  process_run-Keeps job s (err e) = refl
  process_run-Keeps job s (ok run) =
      ite_rule (Keeps s.workflows) (RunStatus-discrete run.status queued) _ _
        (λ e.
          process_workflow-Keeps job run s (Service.get job.tenant_id job.workflow_id s.workflows))
        (λ ne. refl)

  process_async_job-Keeps :
      (job : Job) (s : System) → Keeps s.workflows (process_async_job env job s)
  unfolding process_async_job
  process_async_job-Keeps job s =
      if_rule (Keeps s.workflows) (is_blank job.tenant_id) (err invalid_tenant, s)
        (process_run env job s (get_run job.tenant_id job.run_id s.store)) refl
        (process_run-Keeps job s (get_run job.tenant_id job.run_id s.store))

  module _ (context : Option String) where
    requeue-Keeps :
        (flows : Dict Workflow) (job : Job) (q : MemoryQueue) (s : System)
        → s.workflows ≡ flows
        → Keeps flows (requeue context job q s)
    unfolding requeue enqueue_after
    requeue-Keeps flows job q s h = elim (Option-cases context) [
      | inl going ↦ rw going h
      | inr (e, ended) ↦ rw ended h
    ]

    after_processing-Keeps :
        (flows : Dict Workflow) (job : Job) (q : MemoryQueue) (x : Result Error Run × System)
        → Keeps flows x
        → Keeps flows (after_processing env context job q x)
    unfolding after_processing retry_or_give_up mark_async_retry mark_dead_letter audit_run
    after_processing-Keeps flows job q (err e, s) h = h
    after_processing-Keeps flows job q (ok run, s) h =
        ite_rule (Keeps flows) (RunStatus-discrete run.status failed) _ _
          (λ e.
            if_rule (Keeps flows) (ltb run.attempt run.max_attempts) _ _
              (requeue-Keeps flows (retry_job job run) q
                (mark_async_retry env run (retry_delay run.attempt) s).1 h)
              h)
          (λ ne. h)

    dequeued-Keeps :
        (s : System) (x : Option Job × MemoryQueue) → Keeps s.workflows (dequeued env context s x)
    unfolding dequeued
    dequeued-Keeps s (none, q) = refl
    dequeued-Keeps s (some job, q) =
        after_processing-Keeps s.workflows job q
          (process_async_job env job (record s { jobs = some q }))
          (process_async_job-Keeps job (record s { jobs = some q }))

    pub process_next-Keeps :
        (q : MemoryQueue) (s : System) → (process_next env context q s).1.workflows ≡ s.workflows
    unfolding process_next
    process_next-Keeps q s = dequeued-Keeps s (dequeue q)
