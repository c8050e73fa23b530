-- ===== src/Executor/Service/Waiting.antt =====
-- The store under `ExecuteSync` and `ExecuteAsync` (internal/executor/service.go and async.go).
use ai_workflow.Base.{
  ◌≡◌, refl, ap, inl, inr, String, none, some, [], Bool-cases, Option-cases, Result, ok, err,
  is_blank,
}
use ai_workflow.Base.Dict.{Dict, lookup}
use ai_workflow.Base.Value.{Value}
use ai_workflow.Workflow.{Workflow}
use ai_workflow.Workflow.Service
use ai_workflow.Executor.{Run, Env, draw, read}
use ai_workflow.Executor.Graph.{Graph, GraphError, build_graph}
use ai_workflow.Executor.Engine.{new_execution_state}
use ai_workflow.Executor.Jobs.{MemoryQueue}
use ai_workflow.Executor.Repository.{create_run, update_run}
use ai_workflow.Executor.Repository.Laws.{IsSound, waits, create_run-IsSound}
use ai_workflow.Executor.Service.{
  System, with_world, invalid_tenant, async_disabled, generate_run_id, workflow_error, graph_error,
  enqueue_failed, audit_run,
}
use ai_workflow.Executor.Service.Outcomes.{
  IsKept, IsKept-error, IsKept-run, IsKept-completed, IsKept-updated, execute_run-IsKept,
}
use ai_workflow.Executor.Service.Sync.{
  execute_sync, sync_run, sync_on_graph, sync_drawn, sync_found,
}
use ai_workflow.Executor.Service.Async.{
  async_run, fail_run, after_enqueue, async_drawn, async_found, execute_async,
}

module _ (env : Env) where
  sync_on_graph-IsKept :
      (run : Run) (input : Dict Value) (s : System) (g : Result GraphError Graph)
      → IsSound s.store
      → IsKept (sync_on_graph env run input s g)
  unfolding sync_on_graph
  sync_on_graph-IsKept run input s (err e) h = IsKept-error (graph_error e) s h
  sync_on_graph-IsKept run input s (ok g) h =
      execute_run-IsKept env run g input (new_execution_state g.roots) s h

  sync_drawn-IsKept :
      (tenant_id workflow_id : String) (wf : Workflow) (input : Dict Value) (s : System)
      (r : Result String String)
      → IsSound s.store
      → ((id : String) → r ≡ ok id → lookup id s.store.runs ≡ none)
      → IsKept (sync_drawn env tenant_id wf workflow_id input s r)
  unfolding sync_drawn
  sync_drawn-IsKept tenant_id workflow_id wf input s (err e) h fresh =
      IsKept-error (generate_run_id e) s h
  sync_drawn-IsKept tenant_id workflow_id wf input s (ok id) h fresh =
      let (now, w) = read env s.world in
      let run = sync_run id tenant_id workflow_id input now in
      let s' = record s { store = create_run run s.store; world = w } in
      sync_on_graph-IsKept run input s' (build_graph wf.definition)
        (create_run-IsSound run s.store refl (fresh id refl) h)

  sync_found-IsKept :
      (tenant_id workflow_id : String) (input : Dict Value) (s : System)
      (x : Result Service.Error Workflow)
      → IsSound s.store
      → ((id : String) → (draw env s.world).0 ≡ ok id → lookup id s.store.runs ≡ none)
      → IsKept (sync_found env tenant_id workflow_id input s x)
  unfolding sync_found
  sync_found-IsKept tenant_id workflow_id input s (err e) h fresh =
      IsKept-error (workflow_error e) s h
  sync_found-IsKept tenant_id workflow_id input s (ok wf) h fresh =
      let (r, w) = draw env s.world in
      sync_drawn-IsKept tenant_id workflow_id wf input (with_world s w) r h fresh

  pub execute_sync-IsKept :
      (tenant_id workflow_id : String) (input : Dict Value) (s : System)
      → IsSound s.store
      → ((id : String) → (draw env s.world).0 ≡ ok id → lookup id s.store.runs ≡ none)
      → IsKept (execute_sync env tenant_id workflow_id input s)
  unfolding execute_sync
  execute_sync-IsKept tenant_id workflow_id input s h fresh =
      elim (Bool-cases (is_blank tenant_id)) [
        | inl blank ↦ simp blank (IsKept-error invalid_tenant s h)
        | inr given ↦ simp given (
            sync_found-IsKept tenant_id workflow_id input s
              (Service.get tenant_id workflow_id s.workflows) h fresh)
      ]

  pub fail_run-IsKept :
      (run : Run) (e : String) (s : System)
      → IsSound s.store
      → IsKept (ok (fail_run env run e s).0, (fail_run env run e s).1)
  unfolding fail_run
  fail_run-IsKept run e s h =
      IsKept-completed (fail_run env run e s).0 [] s.store (fail_run env run e s).1 refl refl h

  after_enqueue-IsKept :
      (run : Run) (s : System) (x : Result String MemoryQueue)
      → IsSound s.store
      → lookup run.id s.store.runs ≡ some run
      → IsKept (after_enqueue env run s x)
  unfolding after_enqueue
  after_enqueue-IsKept run s (err e) h stored =
      IsKept-error (enqueue_failed e) (fail_run env run e s).1 (fail_run-IsKept run e s h).sound
  after_enqueue-IsKept run s (ok q) h stored = IsKept-run run (record s { jobs = some q }) h stored

  async_drawn-IsKept :
      (context_error tenant_id workflow_id : String) (input : Dict Value) (q : MemoryQueue)
      (s : System) (r : Result String String)
      → IsSound s.store
      → ((id : String) → r ≡ ok id → lookup id s.store.runs ≡ none)
      → IsKept (async_drawn env context_error tenant_id workflow_id input q s r)
  unfolding async_drawn audit_run update_run create_run
  async_drawn-IsKept context_error tenant_id workflow_id input q s (err e) h fresh =
      IsKept-error (generate_run_id e) s h
  async_drawn-IsKept context_error tenant_id workflow_id input q s (ok id) h fresh =
      let (now, w) = read env s.world in
      let run = async_run id tenant_id workflow_id input now in
      let s1 = record s { store = create_run run s.store; world = w } in
      let s2 = audit_run env run "run_queued" "async run queued" [] s1 in
      let kept = IsKept-updated run s.store s2 refl refl (ap waits (fresh id refl)) h in
      after_enqueue-IsKept run s2 _ kept.sound (kept.stored run refl)

  async_found-IsKept :
      (context_error tenant_id workflow_id : String) (input : Dict Value) (q : MemoryQueue)
      (s : System) (x : Result Service.Error Workflow)
      → IsSound s.store
      → ((id : String) → (draw env s.world).0 ≡ ok id → lookup id s.store.runs ≡ none)
      → IsKept (async_found env context_error tenant_id workflow_id input q s x)
  unfolding async_found
  async_found-IsKept context_error tenant_id workflow_id input q s (err e) h fresh =
      IsKept-error (workflow_error e) s h
  async_found-IsKept context_error tenant_id workflow_id input q s (ok wf) h fresh =
      let (r, w) = draw env s.world in
      async_drawn-IsKept context_error tenant_id workflow_id input q (with_world s w) r h fresh

  pub execute_async-IsKept :
      (context_error tenant_id workflow_id : String) (input : Dict Value) (s : System)
      → IsSound s.store
      → ((id : String) → (draw env s.world).0 ≡ ok id → lookup id s.store.runs ≡ none)
      → IsKept (execute_async env context_error tenant_id workflow_id input s)
  unfolding execute_async
  execute_async-IsKept context_error tenant_id workflow_id input s h fresh =
      elim (Bool-cases (is_blank tenant_id)) [
        | inl blank ↦ simp blank (IsKept-error invalid_tenant s h)
        | inr given ↦ elim (Option-cases s.jobs) [
          | inl off ↦ simp (given, off) (IsKept-error async_disabled s h)
          | inr (q, on) ↦
              simp (given, on)
                (async_found-IsKept context_error tenant_id workflow_id input q s
                  (Service.get tenant_id workflow_id s.workflows) h fresh)
        ]
      ]
