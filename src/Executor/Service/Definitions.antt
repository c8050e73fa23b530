-- ===== src/Executor/Service/Definitions.antt =====
-- No operation of internal/executor changes the stored workflows.
use ai_workflow.Base.{
  ◌≡◌, refl, inl, inr, String, Option, none, some, List, [], ◌∷◌, Bool-cases, Option-cases, Result,
  ok, err, trim_space, is_blank,
}
use ai_workflow.Base.{if_rule}
use ai_workflow.Base.Dict.{Dict}
use ai_workflow.Base.Value.{Value, null, bool, str}
use ai_workflow.Audit.{RecordParams}
use ai_workflow.Workflow.{Workflow}
use ai_workflow.Workflow.Service
use ai_workflow.Executor.{Run, Step, PendingState, World, Env, running, record_audit, draw, read}
use ai_workflow.Executor.Graph.{Graph, GraphError, build_graph}
use ai_workflow.Executor.Engine.{
  ExecutionState, Outcome, finished, paused, failed_at, broken, out_of_fuel, continue_execution,
  new_execution_state,
}
use ai_workflow.Executor.Jobs.{MemoryQueue, enqueue}
use ai_workflow.Executor.Repository.{RepositoryError, Loaded, create_run, load_pending}
use ai_workflow.Executor.Service.{
  Error, System, invalid_tenant, with_world, audit_run, settle, execute_run, enough_fuel,
}
use ai_workflow.Executor.Service.Sync.{
  sync_run, sync_on_graph, sync_drawn, sync_found, execute_sync,
}
use ai_workflow.Executor.Service.Async.{
  job_of, async_run, after_enqueue, async_drawn, async_found, execute_async, fail_run, merge_input,
}
use ai_workflow.Executor.Service.Resume.{
  Decision, reject, approve, resumed_state, approval_output, resolve_last, resolved,
  resume_on_graph, resume_workflow, resume_loaded, resume_approval,
}

abbrev Keeps : System → Result Error Run × System → Type 0
Keeps s x = x.1.workflows ≡ s.workflows

settle-Keeps : (env : Env) (run : Run) (o : Outcome) (s : System) → Keeps s (settle env run (o, s))
unfolding settle audit_run
settle-Keeps env run (failed_at st node e) s = refl
settle-Keeps env run (paused st output pending) s = refl
settle-Keeps env run (finished st) s = refl
settle-Keeps env run (broken st e) s = refl
settle-Keeps env run out_of_fuel s = refl

module _ (env : Env) where
  pub execute_run-Keeps :
      (run : Run) (g : Graph) (input : Dict Value) (st : ExecutionState) (s : System)
      → Keeps s (execute_run env run g input st s)
  unfolding execute_run audit_run
  execute_run-Keeps run g input st s =
      let s1 = audit_run env run "run_started" "workflow run started" [] s in
      let (o, w) =
        continue_execution env run.id run.tenant_id g input (enough_fuel g) st s1.world in
      settle-Keeps env run o (with_world s1 w)

  module _ (tenant_id workflow_id : String) (input : Dict Value) where
    sync_on_graph-Keeps :
        (run : Run) (s : System) (g : Result GraphError Graph)
        → Keeps s (sync_on_graph env run input s g)
    unfolding sync_on_graph
    sync_on_graph-Keeps run s (err e) = refl
    sync_on_graph-Keeps run s (ok g) = execute_run-Keeps run g input (new_execution_state g.roots) s

    sync_drawn-Keeps :
        (wf : Workflow) (s : System) (r : Result String String)
        → Keeps s (sync_drawn env tenant_id wf workflow_id input s r)
    unfolding sync_drawn
    sync_drawn-Keeps wf s (err e) = refl
    sync_drawn-Keeps wf s (ok id) =
        let (now, w) = read env s.world in
        let run = sync_run id tenant_id workflow_id input now in
        sync_on_graph-Keeps run (record s { store = create_run run s.store; world = w })
          (build_graph wf.definition)

    sync_found-Keeps :
        (s : System) (found : Result Service.Error Workflow)
        → Keeps s (sync_found env tenant_id workflow_id input s found)
    unfolding sync_found
    sync_found-Keeps s (err e) = refl
    sync_found-Keeps s (ok wf) =
        let (r, w) = draw env s.world in sync_drawn-Keeps wf (with_world s w) r

    pub execute_sync-Keeps :
        (s : System) → (execute_sync env tenant_id workflow_id input s).1.workflows ≡ s.workflows
    unfolding execute_sync
    execute_sync-Keeps s =
        let found = Service.get tenant_id workflow_id s.workflows in
        if_rule (Keeps s) (is_blank tenant_id) (err invalid_tenant, s)
          (sync_found env tenant_id workflow_id input s found) refl (sync_found-Keeps s found)

    module _ (context_error : String) where
      after_enqueue-Keeps :
          (run : Run) (s : System) (q : Result String MemoryQueue)
          → Keeps s (after_enqueue env run s q)
      unfolding after_enqueue fail_run
      after_enqueue-Keeps run s (err e) = refl
      after_enqueue-Keeps run s (ok q) = refl

      async_drawn-Keeps :
          (q : MemoryQueue) (s : System) (r : Result String String)
          → Keeps s (async_drawn env context_error tenant_id workflow_id input q s r)
      unfolding async_drawn audit_run
      async_drawn-Keeps q s (err e) = refl
      async_drawn-Keeps q s (ok id) =
          let (now, w) = read env s.world in
          let run = async_run id tenant_id workflow_id input now in
          let s1 = record s { store = create_run run s.store; world = w } in
          let s2 = audit_run env run "run_queued" "async run queued" [] s1 in
          after_enqueue-Keeps run s2 (enqueue context_error (job_of run) q)

      async_found-Keeps :
          (q : MemoryQueue) (s : System) (found : Result Service.Error Workflow)
          → Keeps s (async_found env context_error tenant_id workflow_id input q s found)
      unfolding async_found
      async_found-Keeps q s (err e) = refl
      async_found-Keeps q s (ok wf) =
          let (r, w) = draw env s.world in async_drawn-Keeps q (with_world s w) r

      pub execute_async-Keeps :
          (s : System)
          → (execute_async env context_error tenant_id workflow_id input s).1.workflows
            ≡ s.workflows
      unfolding execute_async
      execute_async-Keeps s = elim (Bool-cases (is_blank tenant_id)) [
        | inl blank ↦ rw blank refl
        | inr given ↦ elim (Option-cases s.jobs) [
          | inl off ↦ rw (given, off) refl
          | inr (q, on) ↦
              rw (given, on) (async_found-Keeps q s (Service.get tenant_id workflow_id s.workflows))
        ]
      ]

  module _ (tenant_id : String) (d : Decision) (input : Dict Value) where
    approve-Keeps :
        (pending : PendingState) (run : Run) (steps : List Step) (g : Graph) (s : System)
        → Keeps s (approve env d pending run steps g s)
    unfolding approve
    approve-Keeps pending run steps g s =
        let run' : Run = record run {
          status = running;
          error = "";
          output = null;
          completed_at = 0;
        } in
        execute_run-Keeps run' g run'.input (resumed_state steps pending (approval_output d)) s

    reject-Keeps :
        (pending : PendingState) (run : Run) (steps : List Step) (s : System)
        → Keeps s (reject env d pending run steps s)
    unfolding reject audit_run
    reject-Keeps pending run steps s = refl

    resolved-Keeps :
        (pending : PendingState) (run : Run) (g : Graph) (s : System) (w : World)
        → (found : Option (List Step × Step))
        → Keeps s (resolved env tenant_id d pending run g s w found)
    unfolding resolved
    resolved-Keeps pending run g s w none = refl
    resolved-Keeps pending run g s w (some (steps, last)) =
        let recorded : RecordParams = record {
          run_id = run.id;
          workflow_id = run.workflow_id;
          step_id = last.id;
          node_id = pending.waiting_node_id;
          event_type = "approval_resolved";
          message = "approval decision recorded";
          metadata = ("approved", bool d.approved) ∷ ("comment", str (trim_space d.comment)) ∷ [];
        } in
        let s' = with_world s (record_audit env tenant_id recorded w) in
        if_rule (Keeps s) d.approved (approve env d pending run steps g s')
          (reject env d pending run steps s') (approve-Keeps pending run steps g s')
          (reject-Keeps pending run steps s')

    resume_on_graph-Keeps :
        (run : Run) (steps : List Step) (pending : PendingState) (s : System)
        → (g : Result GraphError Graph)
        → Keeps s (resume_on_graph env tenant_id d input run steps pending s g)
    unfolding resume_on_graph
    resume_on_graph-Keeps run steps pending s (err e) = refl
    resume_on_graph-Keeps run steps pending s (ok g) =
        let (now, w) = read env s.world in
        let run' : Run = record run { input = merge_input run.input input } in
        resolved-Keeps pending run' g s w
          (resolve_last pending.waiting_node_id (approval_output d) now steps)

    resume_workflow-Keeps :
        (run : Run) (steps : List Step) (pending : PendingState) (s : System)
        → (found : Result Service.Error Workflow)
        → Keeps s (resume_workflow env tenant_id d input run steps pending s found)
    unfolding resume_workflow
    resume_workflow-Keeps run steps pending s (err e) = refl
    resume_workflow-Keeps run steps pending s (ok wf) =
        resume_on_graph-Keeps run steps pending s (build_graph wf.definition)

    resume_loaded-Keeps :
        (s : System) (l : Result RepositoryError Loaded)
        → Keeps s (resume_loaded env tenant_id d input s l)
    unfolding resume_loaded
    resume_loaded-Keeps s (err e) = refl
    resume_loaded-Keeps s (ok l) =
        resume_workflow-Keeps l.run l.steps l.pending s
          (Service.get tenant_id l.run.workflow_id s.workflows)

    pub resume_approval-Keeps :
        (run_id : String) (s : System)
        → (resume_approval env tenant_id run_id d input s).1.workflows ≡ s.workflows
    unfolding resume_approval
    resume_approval-Keeps run_id s =
        let l = load_pending tenant_id run_id s.store in
        if_rule (Keeps s) (is_blank tenant_id) (err invalid_tenant, s)
          (resume_loaded env tenant_id d input s l) refl (resume_loaded-Keeps s l)
