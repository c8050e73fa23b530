-- ===== src/Executor/Service/Sync.antt =====
-- `ExecuteSync` and the reading methods of internal/executor/service.go. Tracing is left out.
use ai_workflow.Base.{ℕ, String, Option, List, if◌then◌else◌, Result, ok, err, is_blank}
use ai_workflow.Base.Dict.{Dict}
use ai_workflow.Base.Value.{Value, null}
use ai_workflow.Workflow.{Workflow}
use ai_workflow.Workflow.Service
use ai_workflow.Executor.{Run, RunStatus, Step, Env, running, sync, draw, read}
use ai_workflow.Executor.Graph.{Graph, GraphError, build_graph}
use ai_workflow.Executor.Engine.{new_execution_state}
use ai_workflow.Executor.Repository.{RepositoryError, create_run, get_run, list_steps, list_runs}
use ai_workflow.Executor.Service.{
  Error, System, with_world, invalid_tenant, workflow_error, graph_error, generate_run_id,
  repository_error, execute_run,
}

-- The run that `ExecuteSync` creates.
unfoldable pub sync_run : String → String → String → Dict Value → ℕ → Run
sync_run id tenant_id workflow_id input now = record {
  id = id;
  tenant_id = tenant_id;
  workflow_id = workflow_id;
  status = running;
  trigger_mode = sync;
  attempt = 0;
  max_attempts = 0;
  input = input;
  output = null;
  error = "";
  created_at = now;
  started_at = now;
  completed_at = 0;
}

unfoldable pub sync_on_graph :
    Env → Run → Dict Value → System → Result GraphError Graph → Result Error Run × System
sync_on_graph env run input s (err e) = (err (graph_error e), s)
sync_on_graph env run input s (ok g) = execute_run env run g input (new_execution_state g.roots) s

unfoldable pub sync_drawn :
    Env
    → String
    → Workflow
    → String
    → Dict Value
    → System
    → Result String String
    → Result Error Run × System
unfolding sync_on_graph sync_run
sync_drawn env tenant_id wf workflow_id input s (err e) = (err (generate_run_id e), s)
sync_drawn env tenant_id wf workflow_id input s (ok run_id) =
    let (now, w) = read env s.world in
    let run = sync_run run_id tenant_id workflow_id input now in
    sync_on_graph env run input (record s { store = create_run run s.store; world = w })
      (build_graph wf.definition)

unfoldable pub sync_found :
    Env
    → String
    → String
    → Dict Value
    → System
    → Result Service.Error Workflow
    → Result Error Run × System
unfolding sync_drawn
sync_found env tenant_id workflow_id input s (err e) = (err (workflow_error e), s)
sync_found env tenant_id workflow_id input s (ok wf) =
    let (r, w) = draw env s.world in
    sync_drawn env tenant_id wf workflow_id input (with_world s w) r

unfoldable pub execute_sync :
    Env → String → String → Dict Value → System → Result Error Run × System
unfolding sync_found
execute_sync env tenant_id workflow_id input s =
    if is_blank tenant_id
    then (err invalid_tenant, s)
    else sync_found env tenant_id workflow_id input s
        (Service.get tenant_id workflow_id s.workflows)

unfoldable pub from_repository : {A : Type 0} → Result RepositoryError A → Result Error A
from_repository (err e) = err (repository_error e)
from_repository (ok a) = ok a

unfoldable pub service_get_run : String → String → System → Result Error Run
unfolding from_repository
service_get_run tenant_id run_id s =
    if is_blank tenant_id
    then err invalid_tenant
    else from_repository (get_run tenant_id run_id s.store)

unfoldable pub service_list_steps : String → String → System → Result Error (List Step)
unfolding from_repository
service_list_steps tenant_id run_id s =
    if is_blank tenant_id
    then err invalid_tenant
    else from_repository (list_steps tenant_id run_id s.store)

unfoldable pub service_list_runs : String → Option RunStatus → System → Result Error (List Run)
service_list_runs tenant_id status s =
    if is_blank tenant_id then err invalid_tenant else ok (list_runs tenant_id status s.store)
