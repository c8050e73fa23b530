-- ===== src/Executor/Service/Accepted.antt =====
-- `ExecuteSync` (internal/executor/service.go) on accepted workflows.
use ai_workflow.Base.{
  ◌≡◌, refl, ◌⊎◌, inl, inr, String, true, false, Distinct, Result, ok, err, is_blank,
}
use ai_workflow.Base.Dict.{Dict, lookup}
use ai_workflow.Base.Value.{Value}
use ai_workflow.Workflow.{Workflow, Definition}
use ai_workflow.Workflow.Egress.{Platform}
use ai_workflow.Workflow.Validate.{validate_definition}
use ai_workflow.Workflow.Service
use ai_workflow.Workflow.Service.Laws.{IsSound, get-eq-ok}
use ai_workflow.Executor.Repository.{create_run}
use ai_workflow.Executor.{Run, Env, draw, read}
use ai_workflow.Executor.Graph.{Graph, build_graph}
use ai_workflow.Executor.Graph.Built.{IsGraphOf, accepted_graph}
use ai_workflow.Executor.Engine.{new_execution_state}
use ai_workflow.Executor.Service.{Error, System, step_failed_to_start, generate_run_id, execute_run}
use ai_workflow.Executor.Service.Outcomes.{IsSettled, HasSettled, execute_run-HasSettled}
use ai_workflow.Executor.Service.Sync.{
  sync_run, execute_sync, sync_on_graph, sync_drawn, sync_found,
}

-- A settled run, or the error of a source of ids.
abbrev pub HasRun : Result Error Run → Type 0
HasRun (ok r) = IsSettled r.status
HasRun (err e) = (x : String) × ((e ≡ step_failed_to_start x) ⊎ (e ≡ generate_run_id x))

HasSettled-HasRun : (x : Result Error Run) → HasSettled x → HasRun x
HasSettled-HasRun (ok r) h = h
HasSettled-HasRun (err e) (x, same) = (x, inl same)

sync_on_graph-HasRun :
    (env : Env) (run : Run) (input : Dict Value) (s : System) (d : Definition) (g : Graph)
    → build_graph d ≡ ok g
    → IsGraphOf d g
    → Distinct g.roots
    → HasRun (sync_on_graph env run input s (build_graph d)).0
unfolding sync_on_graph new_execution_state lookup
sync_on_graph-HasRun env run input s d g e built distinct = simp e (
    HasSettled-HasRun (execute_run env run g input (new_execution_state g.roots) s).0 (
      execute_run-HasSettled env run g input (new_execution_state g.roots) s built.keyed distinct
        (λ k h. refl)))

module _ (p : Platform) (env : Env) (tenant_id workflow_id : String) (input : Dict Value)
    (wf : Workflow) (valid : (validate_definition p wf.definition).valid ≡ true) where
  sync_drawn-HasRun :
      (s : System) (r : Result String String)
      → HasRun (sync_drawn env tenant_id wf workflow_id input s r).0
  unfolding sync_drawn
  sync_drawn-HasRun s (err e) = (e, inr refl)
  sync_drawn-HasRun s (ok run_id) =
      let (now, w) = read env s.world in
      let run = sync_run run_id tenant_id workflow_id input now in
      let (g, e, built, distinct) = accepted_graph p wf.definition valid in
      sync_on_graph-HasRun env run input (record s { store = create_run run s.store; world = w })
        wf.definition g e built distinct

  sync_found-HasRun : (s : System) → HasRun (sync_found env tenant_id workflow_id input s (ok wf)).0
  unfolding sync_found
  sync_found-HasRun s =
      let (r, w) = draw env s.world in sync_drawn-HasRun (record s { world = w }) r

-- Executing a stored workflow of a tenant that is not blank, when the stored workflows are accepted
-- ones, ends: it returns a run that completed, failed or waits for an approval, or the error of the
-- source of ids. It is never refused as cyclic, and the engine's loop always ends.
pub execute_sync-HasRun :
    (p : Platform) (env : Env) (tenant_id workflow_id : String) (input : Dict Value) (wf : Workflow)
    (s : System)
    → is_blank tenant_id ≡ false
    → IsSound p s.workflows
    → Service.get tenant_id workflow_id s.workflows ≡ ok wf
    → HasRun (execute_sync env tenant_id workflow_id input s).0
unfolding execute_sync
execute_sync-HasRun p env tenant_id workflow_id input wf s given sound e =
    let (stored, _) = get-eq-ok tenant_id workflow_id wf s.workflows e in
    simp (given, e)
      (sync_found-HasRun p env tenant_id workflow_id input wf (sound.accepted workflow_id wf stored)
        s)
