-- ===== src/Executor/Service/Resuming.antt =====
-- The store under `ResumeApproval` (internal/executor/service.go).
use ai_workflow.Base.{
  refl, inl, inr, String, Option, none, some, List, Bool-cases, Result, ok, err, is_blank,
}
use ai_workflow.Base.Dict.{Dict}
use ai_workflow.Base.Value.{Value}
use ai_workflow.Workflow.{Workflow}
use ai_workflow.Workflow.Service
use ai_workflow.Executor.{Run, Step, PendingState, Env, World, read}
use ai_workflow.Executor.Graph.{Graph, GraphError, build_graph}
use ai_workflow.Executor.Repository.{RepositoryError, Loaded, load_pending}
use ai_workflow.Executor.Repository.Laws.{IsSound}
use ai_workflow.Executor.Service.{
  System, invalid_tenant, run_not_awaiting_review, workflow_error, graph_error, repository_error,
  audit_run,
}
use ai_workflow.Executor.Service.Outcomes.{
  IsKept, IsKept-error, IsKept-completed, execute_run-IsKept,
}
use ai_workflow.Executor.Service.Async.{merge_input}
use ai_workflow.Executor.Service.Resume.{
  Decision, approval_output, resolve_last, reject, approve, resolved, resume_on_graph,
  resume_workflow, resume_loaded, resume_approval,
}

module _ (env : Env) (tenant_id : String) (d : Decision) where
  resolved-IsKept :
      (pending : PendingState) (run : Run) (g : Graph) (s : System) (w : World)
      (x : Option (List Step × Step))
      → IsSound s.store
      → IsKept (resolved env tenant_id d pending run g s w x)
  unfolding resolved reject approve audit_run
  resolved-IsKept pending run g s w none h = IsKept-error run_not_awaiting_review s h
  resolved-IsKept pending run g s w (some (steps, last)) h = elim (Bool-cases d.approved) [
    | inl approved ↦ simp approved (execute_run-IsKept env _ g _ _ _ h)
    | inr refused ↦ simp refused (IsKept-completed _ steps s.store _ refl refl h)
  ]

  resume_on_graph-IsKept :
      (input : Dict Value) (l : Loaded) (s : System) (x : Result GraphError Graph)
      → IsSound s.store
      → IsKept (resume_on_graph env tenant_id d input l.run l.steps l.pending s x)
  unfolding resume_on_graph
  resume_on_graph-IsKept input l s (err e) h = IsKept-error (graph_error e) s h
  resume_on_graph-IsKept input l s (ok g) h =
      let (now, w) = read env s.world in
      let run : Run = record l.run { input = merge_input l.run.input input } in
      resolved-IsKept l.pending run g s w
        (resolve_last l.pending.waiting_node_id (approval_output d) now l.steps) h

  resume_loaded-IsKept :
      (input : Dict Value) (s : System) (x : Result RepositoryError Loaded)
      → IsSound s.store
      → IsKept (resume_loaded env tenant_id d input s x)
  unfolding resume_loaded resume_workflow
  resume_loaded-IsKept input s (err e) h = IsKept-error (repository_error e) s h
  resume_loaded-IsKept input s (ok l) h = go (Service.get tenant_id l.run.workflow_id s.workflows)
    where
      go :
          (x : Result Service.Error Workflow)
          → IsKept (resume_workflow env tenant_id d input l.run l.steps l.pending s x)
      go (err e) = IsKept-error (workflow_error e) s h
      go (ok wf) = resume_on_graph-IsKept input l s (build_graph wf.definition) h

  pub resume_approval-IsKept :
      (run_id : String) (input : Dict Value) (s : System)
      → IsSound s.store
      → IsKept (resume_approval env tenant_id run_id d input s)
  unfolding resume_approval
  resume_approval-IsKept run_id input s h = elim (Bool-cases (is_blank tenant_id)) [
    | inl blank ↦ simp blank (IsKept-error invalid_tenant s h)
    | inr given ↦
        simp given (resume_loaded-IsKept input s (load_pending tenant_id run_id s.store) h)
  ]
