-- ===== src/Executor/Service/Decided.antt =====
-- `ResumeApproval` (internal/executor/service.go), called again.
use ai_workflow.Base.{
  ◌≡◌, refl, ◌∙◌, inl, inr, String, false, Option, none, some, List, Bool-cases, Result, ok, err,
  is_blank,
}
use mathlib.Core.Path.{subst}
use ai_workflow.Base.{if_rule}
use ai_workflow.Executor.Service.Resuming.{resume_approval-IsKept}
use ai_workflow.Executor.Repository.Laws.{IsSound, is_waiting}
use ai_workflow.Executor.Repository.Loading.{load_pending-not_waiting, load_pending-eq-ok}
use ai_workflow.Base.Dict.{Dict}
use ai_workflow.Base.Value.{Value}
use ai_workflow.Workflow.{Workflow}
use ai_workflow.Workflow.Service
use ai_workflow.Executor.{Run, Step, PendingState, Env, World, read}
use ai_workflow.Executor.Graph.{Graph, GraphError, build_graph}
use ai_workflow.Executor.Repository.{RepositoryError, Loaded, load_pending, not_awaiting_review}
use ai_workflow.Executor.Service.{
  Error, System, run_not_awaiting_review, workflow_error, graph_error, repository_error,
}
use ai_workflow.Executor.Service.Outcomes.{
  Continues, Continues-ok, Continues-err, execute_run-Continues,
}
use ai_workflow.Executor.Service.Async.{merge_input}
use ai_workflow.Base.Value.{null}
use ai_workflow.Executor.{running}
use ai_workflow.Executor.Service.Resume.{
  Decision, resumed_state, approval_output, resolve_last, reject, approve, resolved,
  resume_on_graph, resume_workflow, resume_loaded, resume_approval,
}

module _ (env : Env) (tenant_id : String) (d : Decision) where
  resolved-Continues :
      (pending : PendingState) (run : Run) (g : Graph) (s : System) (w : World)
      (x : Option (List Step × Step))
      → Continues run (resolved env tenant_id d pending run g s w x).0
  unfolding resolved reject approve resumed_state approval_output
  resolved-Continues pending run g s w none = Continues-err run run_not_awaiting_review
  resolved-Continues pending run g s w (some (steps, last)) =
      let run' : Run = record run {
        status = running;
        error = "";
        output = null;
        completed_at = 0;
      } in
      if_rule (λ (x : Result Error Run × System). Continues run x.0) d.approved _ _
        (execute_run-Continues env run' g run'.input
          (resumed_state steps pending (approval_output d)) _)
        (Continues-ok run _ (refl, refl, refl, refl))

  resume_on_graph-Continues :
      (input : Dict Value) (l : Loaded) (s : System) (x : Result GraphError Graph)
      → Continues l.run (resume_on_graph env tenant_id d input l.run l.steps l.pending s x).0
  unfolding resume_on_graph
  resume_on_graph-Continues input l s (err e) = Continues-err l.run (graph_error e)
  resume_on_graph-Continues input l s (ok g) =
      let (now, w) = read env s.world in
      let run : Run = record l.run { input = merge_input l.run.input input } in
      resolved-Continues l.pending run g s w
        (resolve_last l.pending.waiting_node_id (approval_output d) now l.steps)

  resume_workflow-Continues :
      (input : Dict Value) (l : Loaded) (s : System) (x : Result Service.Error Workflow)
      → Continues l.run (resume_workflow env tenant_id d input l.run l.steps l.pending s x).0
  unfolding resume_workflow
  resume_workflow-Continues input l s (err e) = Continues-err l.run (workflow_error e)
  resume_workflow-Continues input l s (ok wf) =
      resume_on_graph-Continues input l s (build_graph wf.definition)

  resume_loaded-Continues :
      (input : Dict Value) (s : System) (x : Result RepositoryError Loaded) (r : Run)
      → (resume_loaded env tenant_id d input s x).0 ≡ ok r
      → (l : Loaded) × (x ≡ ok l) × (r.id ≡ l.run.id) × (r.tenant_id ≡ l.run.tenant_id)
  unfolding resume_loaded
  resume_loaded-Continues input s (err e) r h = absurd (cc h)
  resume_loaded-Continues input s (ok l) r h =
      let same =
        resume_workflow-Continues input l s (Service.get tenant_id l.run.workflow_id s.workflows) r
          h in
      (l, refl, same.0, same.1)

  pub resume_approval-Continues :
      (run_id : String) (input : Dict Value) (s : System) (r : Run)
      → IsSound s.store
      → (resume_approval env tenant_id run_id d input s).0 ≡ ok r
      → (is_blank tenant_id ≡ false) × (r.id ≡ run_id) × (r.tenant_id ≡ tenant_id)
  unfolding resume_approval
  resume_approval-Continues run_id input s r sound h = elim (Bool-cases (is_blank tenant_id)) [
    | inl blank ↦ absurd (cc (simp blank at h))
    | inr given ↦
        let (l, e, same_id, same_tenant) =
          resume_loaded-Continues input s (load_pending tenant_id run_id s.store) r
            (simp given at h) in
        let (found, owner, _, _) = load_pending-eq-ok tenant_id run_id l s.store e in
        (given, same_id ∙ sound.keyed run_id l.run found, same_tenant ∙ owner)
  ]

pub resume_refused :
    (env : Env) (tenant_id run_id : String) (d : Decision) (input : Dict Value) (s : System)
    (e : RepositoryError)
    → is_blank tenant_id ≡ false
    → load_pending tenant_id run_id s.store ≡ err e
    → resume_approval env tenant_id run_id d input s ≡ (err (repository_error e), s)
unfolding resume_approval resume_loaded
resume_refused env tenant_id run_id d input s e given h = simp (given, h) refl

-- An approval is decided once: when resuming a run of a sound store returns a run that does not
-- wait again, resuming it once more, with any decision and input, is refused and changes nothing.
pub resume_once :
    (env : Env) (tenant_id run_id : String) (d d' : Decision) (input input' : Dict Value)
    (s : System) (r : Run)
    → IsSound s.store
    → (resume_approval env tenant_id run_id d input s).0 ≡ ok r
    → is_waiting r.status ≡ false
    → let s' = (resume_approval env tenant_id run_id d input s).1 in
      resume_approval env tenant_id run_id d' input' s'
      ≡ (err (repository_error not_awaiting_review), s')
resume_once env tenant_id run_id d d' input input' s r sound h status =
    let s' = (resume_approval env tenant_id run_id d input s).1 in
    let kept = resume_approval-IsKept env tenant_id d run_id input s sound in
    let (given, id, owner) = resume_approval-Continues env tenant_id d run_id input s r sound h in
    let refused = load_pending-not_waiting r s'.store kept.sound (kept.stored r h) status in
    resume_refused env tenant_id run_id d' input' s' not_awaiting_review given (
      subst (λ t. load_pending t run_id s'.store ≡ err not_awaiting_review) owner
        (subst (λ k. load_pending r.tenant_id k s'.store ≡ err not_awaiting_review) id refused))
