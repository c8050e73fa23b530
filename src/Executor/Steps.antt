-- ===== src/Executor/Steps.antt =====
-- `executeStep`, `executeNode` (internal/executor/service.go), `awaitApproval` and
-- `auditParamsForStep` (engine.go): one step of a run.
pub mod Laws
use ai_workflow.Base.{ℕ, suc, String, not, [], ◌∷◌, if◌then◌else◌, Result, ok, err, ◌==◌}
use Prim.Native.String as Text
use ai_workflow.Base.Dict.{Dict, lookup}
use ai_workflow.Base.Value.{Value, null, str, obj, field, end, to_fields}
use ai_workflow.Audit.{RecordParams}
use ai_workflow.Workflow.{Node}
use ai_workflow.Executor.Config.{string_config}
use ai_workflow.Executor.Nodes.{execute_llm, execute_condition, execute_http_tool, execute_audit}
use ai_workflow.Executor.{
  Step, Env, World, no_status, step_waiting, step_completed, step_failed, draw, read,
}

abbrev pub zero_step : Step
zero_step = record {
  id = "";
  run_id = "";
  node_id = "";
  node_type = "";
  status = no_status;
  attempt = 0;
  input = [];
  output = null;
  error = "";
  started_at = 0;
  completed_at = 0;
}

abbrev pub step_id_error : String → String
step_id_error e = Text.◌++◌ "generate step id: " e

abbrev pub config_input : Node → Dict Value
config_input node = ("config", obj (to_fields node.config)) ∷ []

-- The switch of `executeNode`.
unfoldable pub execute_node :
    Env → ℕ → String → Node → Dict Value → Dict Value → Result String Value
execute_node env calls tenant_id node input outputs =
    if node.node_type == "retrieve_documents"
    then env.execute_retrieval calls tenant_id node.config input
    else if node.node_type == "llm"
    then execute_llm env calls node.config input outputs
    else if node.node_type == "condition"
    then execute_condition env node.config input outputs
    else if node.node_type == "http_tool"
    then execute_http_tool env calls node.config input outputs
    else if node.node_type == "audit_log"
    then ok (execute_audit env node.config outputs)
    else err (
        Text.◌++◌ "node type "
          (Text.◌++◌ (env.quote node.node_type) " is not supported by sync execution yet"))

finish_step : Step → Result String Value → ℕ → Step × Result String Value
finish_step step (err e) now =
    (record step { status = step_failed; error = e; completed_at = now }, err e)
finish_step step (ok output) now = (record step { output = output; completed_at = now }, ok output)

-- The step before its node runs.
begun_step : String → Node → String → ℕ → Step
begun_step run_id node step_id started = record zero_step {
  id = step_id;
  run_id = run_id;
  node_id = node.id;
  node_type = node.node_type;
  status = step_completed;
  attempt = 1;
  input = config_input node;
  started_at = started;
}

run_step :
    Env
    → String
    → String
    → Node
    → Dict Value
    → Dict Value
    → Result String String × World
    → (Step × Result String Value) × World
unfolding finish_step execute_node begun_step
run_step env run_id tenant_id node input outputs (err e, w) =
    ((zero_step, err (step_id_error e)), w)
run_step env run_id tenant_id node input outputs (ok step_id, w) =
    let (started, w1) = read env w in
    let result = execute_node env w1.node_calls tenant_id node input outputs in
    let (ended, w2) = read env (record w1 { node_calls = suc w1.node_calls }) in
    (finish_step (begun_step run_id node step_id started) result ended, w2)

unfoldable pub execute_step :
    Env
    → String
    → String
    → Node
    → Dict Value
    → Dict Value
    → World
    → (Step × Result String Value) × World
unfolding run_step
execute_step env run_id tenant_id node input outputs w =
    run_step env run_id tenant_id node input outputs (draw env w)

approval_output : Env → Node → Value
unfolding string_config
approval_output env node =
    obj (field "message" (str (string_config env node.config "message" "approval required")) end)

wait_step : Env → String → Node → Result String String × World → Result String Step × World
unfolding approval_output
wait_step env run_id node (err e, w) = (err (step_id_error e), w)
wait_step env run_id node (ok step_id, w) =
    let (started, w1) = read env w in
    (
      ok (record zero_step {
        id = step_id;
        run_id = run_id;
        node_id = node.id;
        node_type = node.node_type;
        status = step_waiting;
        attempt = 1;
        input = config_input node;
        output = approval_output env node;
        started_at = started;
      }),
      w1,
    )

-- The second result of the code is the output of the step.
unfoldable pub await_approval : Env → String → Node → World → Result String Step × World
unfolding wait_step
await_approval env run_id node w = wait_step env run_id node (draw env w)

unfoldable pub audit_params_for_step : String → String → Step → Dict Value → RecordParams
audit_params_for_step event_type message step metadata = record {
  run_id = step.run_id;
  workflow_id = "";
  step_id = step.id;
  node_id = step.node_id;
  event_type = event_type;
  message = message;
  metadata = metadata;
}
