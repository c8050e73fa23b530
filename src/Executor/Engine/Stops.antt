-- ===== src/Executor/Engine/Stops.antt =====
-- The rounds of `continueExecution` (internal/executor/engine.go) that return from it.
use ai_workflow.Base.{
  ◌≡◌, ◌≢◌, refl, inl, inr, String, Bool, List, [], ◌∷◌, ◌++◌, arith, Bool-cases, Result, ok, err,
  ◌==◌, eq_iff,
}
use ai_workflow.Base.Dict.{Dict, remove}
use ai_workflow.Base.Value.{Value}
use ai_workflow.Executor.{Step, PendingState, Env, World, step_completed, step_waiting}
use ai_workflow.Executor.Graph.{Graph, next}
use ai_workflow.Executor.Steps.{execute_step, await_approval}
use ai_workflow.Executor.Steps.Laws.{execute_step-failed, await_approval-ok}
use ai_workflow.Executor.Queue.{append_queue}
use ai_workflow.Executor.Engine.{
  ExecutionState, Outcome, stop, paused, failed_at, broken, pause_round, step_round, node_at, round,
}

-- The state that a round leaves when it stops after adding a step.
abbrev pub stopped_state : String → String → List String → ExecutionState → Step → ExecutionState
stopped_state node_id id rest st step = record {
  steps = st.steps ++ step ∷ [];
  step_outputs = st.step_outputs;
  last_node_id = node_id;
  queue = rest;
  executed = st.executed;
}

abbrev pub pending_at : Graph → String → List String → ExecutionState → Step → PendingState
pending_at g id rest st step = record {
  waiting_node_id = (node_at g id).id;
  queue = append_queue rest (next g (node_at g id) step.output) st.executed;
  step_outputs = st.step_outputs;
  executed = st.executed;
}

module _ (g : Graph) (run_id id : String) (rest : List String) (st : ExecutionState) where
  pub data Stopped (o : Outcome) : Type 0 where
    pauses :
        (step : Step)
        → (node_at g id).node_type ≡ "approval"
        → step.node_id ≡ (node_at g id).id
        → step.status ≡ step_waiting
        → o
          ≡ paused
              (stopped_state (node_at g id).id id rest st step)
              step.output
              (pending_at g id rest st step)
        → Stopped o
    fails :
        (step : Step) (e : String)
        → step.status ≢ step_completed
        → o ≡ failed_at (stopped_state (node_at g id).id id rest st step) (node_at g id).id e
        → Stopped o
    breaks : (e : String) → o ≡ broken (record st { queue = rest }) e → Stopped o

module _ (env : Env) (run_id tenant_id : String) (g : Graph) (input : Dict Value) (id : String)
    (rest : List String) (st : ExecutionState) where
  pause_round-Stopped :
      (r : Result String Step × World) (o : Outcome)
      → (node_at g id).node_type ≡ "approval"
      → ((step : Step)
          → r.0 ≡ ok step
          → (step.node_id ≡ (node_at g id).id) × (step.status ≡ step_waiting))
      → (pause_round env run_id tenant_id g input (node_at g id) (record st { queue = rest }) r).0
        ≡ stop o
      → Stopped g run_id id rest st o
  unfolding pause_round
  pause_round-Stopped (err e, w) o t made h = breaks e (ground arith)
  pause_round-Stopped (ok step, w) o t made h =
      pauses step t (made step refl).0 (made step refl).1 (ground arith)

  step_round-Stopped :
      (queued : Dict Bool) (r : (Step × Result String Value) × World) (o : Outcome)
      → ((step : Step) (e : String) → r.0 ≡ (step, err e) → step.status ≢ step_completed)
      → (step_round env run_id tenant_id g input
          (node_at g id)
          (record st { queue = rest })
          queued
          r).0
        ≡ stop o
      → Stopped g run_id id rest st o
  unfolding step_round
  step_round-Stopped queued ((step, err e), w) o made h =
      fails step e (made step e refl) (ground arith)
  step_round-Stopped queued ((step, ok out), w) o made h = absurd (cc h)

  pub round-Stopped :
      (queued : Dict Bool) (w : World) (o : Outcome)
      → (round env run_id tenant_id g input id rest st queued w).0 ≡ stop o
      → Stopped g run_id id rest st o
  unfolding round
  round-Stopped queued w o h = elim (Bool-cases ((node_at g id).node_type == "approval")) [
    | inl approval ↦
        pause_round-Stopped (await_approval env run_id (node_at g id) w) o
          ((eq_iff (node_at g id).node_type "approval").0 approval)
          (λ step e.
            let (node, status, _) = await_approval-ok env run_id (node_at g id) w step e in
            (node, status))
          (rw approval at h)
    | inr other ↦
        step_round-Stopped (remove id queued)
          (execute_step env run_id tenant_id (node_at g id) input st.step_outputs w) o
          (execute_step-failed env run_id tenant_id (node_at g id) input st.step_outputs w)
          (rw other at h)
  ]
