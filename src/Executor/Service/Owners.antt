-- ===== src/Executor/Service/Owners.antt =====
-- The tenant of the runs that `ExecuteSync` and `ExecuteAsync` return (internal/executor).
use ai_workflow.Base.{
  ◌≡◌, refl, inl, inr, String, [], Bool-cases, Option-cases, Result, ok, err, is_blank,
}
use ai_workflow.Base.{if_rule}
use ai_workflow.Base.Dict.{Dict}
use ai_workflow.Base.Value.{Value}
use ai_workflow.Workflow.{Workflow}
use ai_workflow.Workflow.Service
use ai_workflow.Executor.{Run, Env, draw, read}
use ai_workflow.Executor.Graph.{Graph, GraphError, build_graph}
use ai_workflow.Executor.Engine.{
  Outcome, finished, paused, failed_at, broken, out_of_fuel, continue_execution,
  new_execution_state,
}
use ai_workflow.Executor.Jobs.{MemoryQueue, enqueue}
use ai_workflow.Executor.Repository.{create_run}
use ai_workflow.Executor.Service.{
  Error, System, invalid_tenant, with_world, audit_run, settle, execute_run, enough_fuel,
}
use ai_workflow.Executor.Service.Sync.{
  sync_run, sync_on_graph, sync_drawn, sync_found, execute_sync,
}
use ai_workflow.Executor.Service.Async.{
  job_of, async_run, after_enqueue, async_drawn, async_found, execute_async,
}

-- A run that is returned belongs to the tenant.
abbrev pub Owned : String → Result Error Run × System → Type 0
Owned tenant_id (err e, s) = Unit
Owned tenant_id (ok r, s) = r.tenant_id ≡ tenant_id

settle-Owned :
    (env : Env) (run : Run) (o : Outcome) (s : System) → Owned run.tenant_id (settle env run (o, s))
unfolding settle
settle-Owned env run (failed_at st node e) s = refl
settle-Owned env run (paused st output pending) s = refl
settle-Owned env run (finished st) s = refl
settle-Owned env run (broken st e) s = tt
settle-Owned env run out_of_fuel s = tt

module _ (env : Env) (tenant_id workflow_id : String) (input : Dict Value) where
  sync_on_graph-Owned :
      (run : Run) (s : System) (g : Result GraphError Graph)
      → Owned run.tenant_id (sync_on_graph env run input s g)
  unfolding sync_on_graph execute_run
  sync_on_graph-Owned run s (err e) = tt
  sync_on_graph-Owned run s (ok g) =
      let s1 = audit_run env run "run_started" "workflow run started" [] s in
      let (o, w) =
        continue_execution env run.id run.tenant_id g input (enough_fuel g)
          (new_execution_state g.roots) s1.world in
      settle-Owned env run o (with_world s1 w)

  sync_found-Owned :
      (s : System) (found : Result Service.Error Workflow)
      → Owned tenant_id (sync_found env tenant_id workflow_id input s found)
  unfolding sync_found
  sync_found-Owned s (err e) = tt
  sync_found-Owned s (ok wf) = let (r, w) = draw env s.world in drawn_Owned wf (with_world s w) r
    where
      drawn_Owned :
          (wf : Workflow) (s : System) (r : Result String String)
          → Owned tenant_id (sync_drawn env tenant_id wf workflow_id input s r)
      drawn_Owned wf s (err e) = tt
      drawn_Owned wf s (ok id) =
          let (now, w) = read env s.world in
          let run = sync_run id tenant_id workflow_id input now in
          sync_on_graph-Owned run (record s { store = create_run run s.store; world = w })
            (build_graph wf.definition)

  pub execute_sync-Owned :
      (s : System) → Owned tenant_id (execute_sync env tenant_id workflow_id input s)
  unfolding execute_sync
  execute_sync-Owned s =
      let found = Service.get tenant_id workflow_id s.workflows in
      if_rule (Owned tenant_id) (is_blank tenant_id) (err invalid_tenant, s)
        (sync_found env tenant_id workflow_id input s found) tt (sync_found-Owned s found)

  module _ (context_error : String) where
    after_enqueue-Owned :
        (run : Run) (s : System) (q : Result String MemoryQueue)
        → Owned run.tenant_id (after_enqueue env run s q)
    unfolding after_enqueue
    after_enqueue-Owned run s (err e) = tt
    after_enqueue-Owned run s (ok q) = refl

    async_drawn-Owned :
        (q : MemoryQueue) (s : System) (r : Result String String)
        → Owned tenant_id (async_drawn env context_error tenant_id workflow_id input q s r)
    unfolding async_drawn async_run
    async_drawn-Owned q s (err e) = tt
    async_drawn-Owned q s (ok id) =
        let (now, w) = read env s.world in
        let run = async_run id tenant_id workflow_id input now in
        let s1 = record s { store = create_run run s.store; world = w } in
        let s2 = audit_run env run "run_queued" "async run queued" [] s1 in
        after_enqueue-Owned run s2 (enqueue context_error (job_of run) q)

    async_found-Owned :
        (q : MemoryQueue) (s : System) (found : Result Service.Error Workflow)
        → Owned tenant_id (async_found env context_error tenant_id workflow_id input q s found)
    unfolding async_found
    async_found-Owned q s (err e) = tt
    async_found-Owned q s (ok wf) =
        let (r, w) = draw env s.world in async_drawn-Owned q (with_world s w) r

    pub execute_async-Owned :
        (s : System)
        → Owned tenant_id (execute_async env context_error tenant_id workflow_id input s)
    unfolding execute_async
    execute_async-Owned s = elim (Bool-cases (is_blank tenant_id)) [
      | inl blank ↦ rw blank tt
      | inr given ↦ elim (Option-cases s.jobs) [
        | inl off ↦ rw (given, off) tt
        | inr (q, on) ↦
            rw (given, on) (async_found-Owned q s (Service.get tenant_id workflow_id s.workflows))
      ]
    ]
