-- ===== src/Executor/Service/Resume.antt =====
-- `ResumeApproval` of internal/executor/service.go.
use ai_workflow.Base.{
  ℕ, String, Bool, true, Option, none, some, List, [], ◌∷◌, if◌then◌else◌, Result, ok, err, ◌==◌,
  trim_space, is_blank,
}
use ai_workflow.Base.Dict.{Dict, insert}
use ai_workflow.Base.Value.{Value, null, str, bool, obj, field, end}
use ai_workflow.Workflow.{Workflow}
use ai_workflow.Workflow.Service
use ai_workflow.Executor.{
  Run, Step, PendingState, Env, World, running, failed, step_completed, read, record_audit,
}
use ai_workflow.Executor.Graph.{Graph, GraphError, build_graph}
use ai_workflow.Executor.Engine.{ExecutionState, state_from_pending}
use ai_workflow.Executor.Repository.{RepositoryError, Loaded, load_pending, complete_run}
use ai_workflow.Executor.Service.{
  Error, System, with_world, invalid_tenant, run_not_awaiting_review, workflow_error, graph_error,
  repository_error, audit_run, execute_run,
}
use ai_workflow.Executor.Service.Async.{merge_input}

-- The decision: whether it is an approval, and the comment.
pub record Decision : Type 0 where
  pub approved : Bool
  pub comment : String

unfoldable pub approval_output : Decision → Value
approval_output d =
    obj (field "approved" (bool d.approved) (field "comment" (str (trim_space d.comment)) end))

abbrev pub keep_step : Step → Option (List Step × Step) → Option (List Step × Step)
keep_step s none = none
keep_step s (some (steps, last)) = some (s ∷ steps, last)

-- The last of the steps, completed with the decision; `none` if there is no step, or the last one
-- is not of the waiting node.
unfoldable pub resolve_last : String → Value → ℕ → List Step → Option (List Step × Step)
resolve_last node_id output now [] = none
resolve_last node_id output now (s ∷ []) =
    let s' : Step = record s { status = step_completed; output = output; completed_at = now } in
    if s.node_id == node_id then some (s' ∷ [], s') else none
resolve_last node_id output now (s ∷ t ∷ steps) =
    keep_step s (resolve_last node_id output now (t ∷ steps))

unfoldable pub reject :
    Env → Decision → PendingState → Run → List Step → System → Result Error Run × System
unfolding audit_run approval_output
reject env d pending run steps s =
    let output =
      field "failed_node" (str pending.waiting_node_id)
        (field "approval" (approval_output d) end) in
    let (now, w) = read env s.world in
    let run' : Run = record run {
      status = failed;
      error = "approval rejected";
      output = obj output;
      completed_at = now;
    } in
    let s' = record s { store = complete_run run' steps s.store; world = w } in
    (
      ok run',
      audit_run env run' "run_failed" "approval rejected"
          (("failed_node", str pending.waiting_node_id) ∷ ("approval", approval_output d) ∷ []) s',
    )

-- The state of the engine once the waiting node is resolved.
unfoldable pub resumed_state : List Step → PendingState → Value → ExecutionState
unfolding state_from_pending
resumed_state steps pending output =
    let st = state_from_pending steps pending in
    record st {
      step_outputs = insert pending.waiting_node_id output st.step_outputs;
      executed = insert pending.waiting_node_id true st.executed;
      last_node_id = pending.waiting_node_id;
    }

unfoldable pub approve :
    Env → Decision → PendingState → Run → List Step → Graph → System → Result Error Run × System
unfolding resumed_state approval_output
approve env d pending run steps g s =
    let run' : Run = record run { status = running; error = ""; output = null; completed_at = 0 } in
    execute_run env run' g run'.input (resumed_state steps pending (approval_output d)) s

-- The clock is read only for a step that is resolved: `w` is the world after the reading.
unfoldable pub resolved :
    Env
    → String
    → Decision
    → PendingState
    → Run
    → Graph
    → System
    → World
    → Option (List Step × Step)
    → Result Error Run × System
unfolding reject approve record_audit
resolved env tenant_id d pending run g s w none = (err run_not_awaiting_review, s)
resolved env tenant_id d pending run g s w (some (steps, last)) =
    let s' = with_world s (
      record_audit env tenant_id
        (record {
          run_id = run.id;
          workflow_id = run.workflow_id;
          step_id = last.id;
          node_id = pending.waiting_node_id;
          event_type = "approval_resolved";
          message = "approval decision recorded";
          metadata = ("approved", bool d.approved) ∷ ("comment", str (trim_space d.comment)) ∷ [];
        })
        w) in
    if d.approved then approve env d pending run steps g s' else reject env d pending run steps s'

unfoldable pub resume_on_graph :
    Env
    → String
    → Decision
    → Dict Value
    → Run
    → List Step
    → PendingState
    → System
    → Result GraphError Graph
    → Result Error Run × System
unfolding resolved resolve_last merge_input approval_output
resume_on_graph env tenant_id d input run steps pending s (err e) = (err (graph_error e), s)
resume_on_graph env tenant_id d input run steps pending s (ok g) =
    let (now, w) = read env s.world in
    let run' : Run = record run { input = merge_input run.input input } in
    resolved env tenant_id d pending run' g s w
      (resolve_last pending.waiting_node_id (approval_output d) now steps)

unfoldable pub resume_workflow :
    Env
    → String
    → Decision
    → Dict Value
    → Run
    → List Step
    → PendingState
    → System
    → Result Service.Error Workflow
    → Result Error Run × System
unfolding resume_on_graph
resume_workflow env tenant_id d input run steps pending s (err e) = (err (workflow_error e), s)
resume_workflow env tenant_id d input run steps pending s (ok wf) =
    resume_on_graph env tenant_id d input run steps pending s (build_graph wf.definition)

unfoldable pub resume_loaded :
    Env
    → String
    → Decision
    → Dict Value
    → System
    → Result RepositoryError Loaded
    → Result Error Run × System
unfolding resume_workflow
resume_loaded env tenant_id d input s (err e) = (err (repository_error e), s)
resume_loaded env tenant_id d input s (ok l) =
    resume_workflow env tenant_id d input l.run l.steps l.pending s
      (Service.get tenant_id l.run.workflow_id s.workflows)

-- `ResumeApproval`
unfoldable pub resume_approval :
    Env → String → String → Decision → Dict Value → System → Result Error Run × System
unfolding resume_loaded
resume_approval env tenant_id run_id d input s =
    if is_blank tenant_id
    then (err invalid_tenant, s)
    else resume_loaded env tenant_id d input s (load_pending tenant_id run_id s.store)
