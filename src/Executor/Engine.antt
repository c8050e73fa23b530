-- ===== src/Executor/Engine.antt =====
-- internal/executor/engine.go: the loop that runs the nodes of a graph, on fuel. A map is a value,
-- so `cloneMap` and `cloneBoolMap` are the identity.
pub mod Round
pub mod Ends
pub mod Terminates
pub mod Stops
pub mod Closure
pub mod Records
pub mod Runs
pub mod Pauses
pub mod Examples
use ai_workflow.Base.{
  ℕ, zero, suc, String, Bool, true, none, some, List, [], ◌∷◌, ◌++◌, if◌then◌else◌, Result, ok, err,
  ◌==◌,
}
use ai_workflow.Base.Dict.{Dict, lookup, insert, remove}
use ai_workflow.Base.Value.{Value, null, str, obj, field, end, to_fields}
use ai_workflow.Audit.{RecordParams}
use ai_workflow.Workflow.{Node, zero_node}
use ai_workflow.Executor.{
  Step, PendingState, Env, World, no_status, step_waiting, step_completed, step_failed, draw, read,
  record_audit,
}
use ai_workflow.Executor.Graph.{Graph, next}
use ai_workflow.Executor.Steps.{execute_step, await_approval, audit_params_for_step}
use ai_workflow.Executor.Queue.{Frontier, mark_all, offer_all, append_queue}

pub record ExecutionState : Type 0 where
  pub steps : List Step
  pub step_outputs : Dict Value
  pub last_node_id : String
  pub queue : List String
  pub executed : Dict Bool

unfoldable pub new_execution_state : List String → ExecutionState
new_execution_state roots = record {
  steps = [];
  step_outputs = [];
  last_node_id = "";
  queue = roots;
  executed = [];
}

unfoldable pub state_from_pending : List Step → PendingState → ExecutionState
state_from_pending steps pending = record {
  steps = steps;
  step_outputs = pending.step_outputs;
  last_node_id = "";
  queue = pending.queue;
  executed = pending.executed;
}

-- What `continueExecution` returns: the run is finished, waits for approval with this output and
-- state, failed at a node, or an approval step could not be made.
pub data Outcome : Type 0 where
  finished : ExecutionState → Outcome
  paused : ExecutionState → Value → PendingState → Outcome
  failed_at : ExecutionState → String → String → Outcome
  broken : ExecutionState → String → Outcome
  out_of_fuel : Outcome

-- One round of the loop stops it, or goes on with this state and set of queued ids.
pub data RoundResult : Type 0 where
  stop : Outcome → RoundResult
  go : ExecutionState → Dict Bool → RoundResult

-- `graph.nodes[nodeID]`
unfoldable pub node_at : Graph → String → Node
node_at g id = elim (lookup id g.nodes) [ none ↦ zero_node | some n ↦ n ]

module _ (env : Env) (run_id tenant_id : String) (g : Graph) (input : Dict Value) where
  -- The rounds of an approval node; the state's queue is the rest of the queue.
  pause_round : Node → ExecutionState → Result String Step × World → RoundResult × World
  unfolding record_audit
  pause_round node st (err e, w) = (stop (broken st e), w)
  pause_round node st (ok step, w) =
      let st' = record st { steps = st.steps ++ step ∷ []; last_node_id = node.id } in
      let pending : PendingState = record {
        waiting_node_id = node.id;
        queue = append_queue st.queue (next g node step.output) st.executed;
        step_outputs = st.step_outputs;
        executed = st.executed;
      } in
      (
        stop (paused st' step.output pending),
        record_audit env tenant_id
            (audit_params_for_step "step_waiting_approval" "" step (("output", step.output) ∷ []))
            w,
      )

  -- The rounds of all other nodes.
  step_round :
      Node → ExecutionState → Dict Bool → (Step × Result String Value) × World → RoundResult × World
  unfolding record_audit
  step_round node st queued ((step, err e), w) = (
    stop
        (failed_at (record st { steps = st.steps ++ step ∷ []; last_node_id = node.id }) node.id e),
    record_audit env tenant_id (audit_params_for_step "step_failed" e step (("error", str e) ∷ []))
        w,
  )
  step_round node st queued ((step, ok output), w) =
      let executed = insert node.id true st.executed in
      let f =
        offer_all executed (next g node output) (record { queue = st.queue; queued = queued }) in
      (
        go
            (record {
              steps = st.steps ++ step ∷ [];
              step_outputs = insert node.id output st.step_outputs;
              last_node_id = node.id;
              queue = f.queue;
              executed = executed;
            })
            f.queued,
        record_audit env tenant_id
            (audit_params_for_step "step_completed" "" step (("output", output) ∷ [])) w,
      )

  -- The body of the loop for the node id at the head of the queue.
  unfoldable pub round :
      String → List String → ExecutionState → Dict Bool → World → RoundResult × World
  unfolding pause_round step_round node_at
  round id rest st queued w =
      let node = node_at g id in
      let st' = record st { queue = rest } in
      if node.node_type == "approval"
      then pause_round node st' (await_approval env run_id node w)
      else step_round node st' (remove id queued)
          (execute_step env run_id tenant_id node input st.step_outputs w)

  unfoldable pub loop : ℕ → ExecutionState → Dict Bool → World → Outcome × World
  loop zero st queued w = elim st.queue [ [] ↦ (finished st, w) | _ ∷ _ ↦ (out_of_fuel, w) ]
  loop (suc fuel) st queued w = elim st.queue [
    | [] ↦ (finished st, w)
    | id ∷ rest ↦
        let (r, w') = round id rest st queued w in
        elim r [ stop o ↦ (o, w') | go st' queued' ↦ loop fuel st' queued' w' ]
  ]

  unfoldable pub continue_execution : ℕ → ExecutionState → World → Outcome × World
  continue_execution fuel st w = loop fuel st (mark_all st.queue []) w
