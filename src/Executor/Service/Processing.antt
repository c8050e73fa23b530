-- ===== src/Executor/Service/Processing.antt =====
-- The store under `ProcessAsyncJob`, `MarkAsyncRetry` and `MarkDeadLetter`
-- (internal/executor/async.go).
use ai_workflow.Base.{
  ℕ, ◌≡◌, refl, sym, ap, ◌∙◌, inl, inr, false, some, Bool-cases, Result, ok, err, is_blank,
}
use mathlib.Core.Path.{subst}
use ai_workflow.Base.{ite_rule}
use ai_workflow.Base.Dict.{lookup}
use ai_workflow.Workflow.{Workflow}
use ai_workflow.Workflow.Service
use ai_workflow.Executor.{Run, RunStatus-discrete, Env, queued}
use ai_workflow.Executor.Graph.{Graph, GraphError, build_graph}
use ai_workflow.Executor.Engine.{new_execution_state}
use ai_workflow.Executor.Jobs.{Job}
use ai_workflow.Executor.Repository.{RepositoryError, get_run}
use ai_workflow.Executor.Repository.Laws.{IsSound, is_waiting, waits, update_run-IsSound}
use ai_workflow.Executor.Repository.Loading.{get_run-eq-ok}
use ai_workflow.Executor.Service.{
  System, invalid_tenant, workflow_error, graph_error, repository_error, error_text, audit_run,
}
use ai_workflow.Executor.Service.Outcomes.{IsKept, IsKept-error, IsKept-run, execute_run-IsKept}
use ai_workflow.Executor.Service.Async.{
  process_on_graph, process_workflow, process_run, process_async_job, mark_async_retry,
  mark_dead_letter,
}
use ai_workflow.Executor.Service.Waiting.{fail_run-IsKept}

module _ (env : Env) where
  process_on_graph-IsKept :
      (job : Job) (run : Run) (s : System) (x : Result GraphError Graph)
      → IsSound s.store
      → waits (lookup run.id s.store.runs) ≡ false
      → IsKept (process_on_graph env job run s x)
  unfolding process_on_graph
  process_on_graph-IsKept job run s (err e) h free =
      fail_run-IsKept env run (error_text (graph_error e)) s h
  process_on_graph-IsKept job run s (ok g) h free =
      execute_run-IsKept env _ g _ (new_execution_state g.roots) _
        (update_run-IsSound _ s.store refl free h)

  process_workflow-IsKept :
      (job : Job) (run : Run) (s : System) (x : Result Service.Error Workflow)
      → IsSound s.store
      → waits (lookup run.id s.store.runs) ≡ false
      → IsKept (process_workflow env job run s x)
  unfolding process_workflow
  process_workflow-IsKept job run s (err e) h free =
      fail_run-IsKept env run (error_text (workflow_error e)) s h
  process_workflow-IsKept job run s (ok wf) h free =
      process_on_graph-IsKept job run s (build_graph wf.definition) h free

  process_run-IsKept :
      (job : Job) (s : System) (x : Result RepositoryError Run)
      → IsSound s.store
      → ((r : Run) → x ≡ ok r → lookup r.id s.store.runs ≡ some r)
      → IsKept (process_run env job s x)
  unfolding process_run
  process_run-IsKept job s (err e) h stored = IsKept-error (repository_error e) s h
  process_run-IsKept job s (ok run) h stored =
      ite_rule IsKept (RunStatus-discrete run.status queued)
        (process_workflow env job run s (Service.get job.tenant_id job.workflow_id s.workflows))
        (ok run, s)
        (λ e.
          process_workflow-IsKept job run s (Service.get job.tenant_id job.workflow_id s.workflows)
            h (ap waits (stored run refl) ∙ ap is_waiting e))
        (λ ne. IsKept-run run s h (stored run refl))

  pub process_async_job-IsKept :
      (job : Job) (s : System) → IsSound s.store → IsKept (process_async_job env job s)
  unfolding process_async_job
  process_async_job-IsKept job s h = elim (Bool-cases (is_blank job.tenant_id)) [
    | inl blank ↦ simp blank (IsKept-error invalid_tenant s h)
    | inr given ↦ simp given (
        process_run-IsKept job s (get_run job.tenant_id job.run_id s.store) h (λ r e.
          let (found, _) = get_run-eq-ok job.tenant_id job.run_id r s.store e in
          subst (λ k. lookup k s.store.runs ≡ some r) (sym (h.keyed job.run_id r found)) found))
  ]

  pub mark_async_retry-IsSound :
      (run : Run) (delay_ms : ℕ) (s : System)
      → IsSound s.store
      → waits (lookup run.id s.store.runs) ≡ false
      → IsSound (mark_async_retry env run delay_ms s).1.store
  unfolding mark_async_retry audit_run
  mark_async_retry-IsSound run delay_ms s h free = update_run-IsSound _ s.store refl free h

  pub mark_dead_letter-IsSound :
      (run : Run) (s : System)
      → IsSound s.store
      → waits (lookup run.id s.store.runs) ≡ false
      → IsSound (mark_dead_letter env run s).1.store
  unfolding mark_dead_letter audit_run
  mark_dead_letter-IsSound run s h free = update_run-IsSound _ s.store refl free h
