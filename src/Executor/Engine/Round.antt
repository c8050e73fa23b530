-- ===== src/Executor/Engine/Round.antt =====
-- A round of the loop of `continueExecution` (internal/executor/engine.go) that goes on.
use ai_workflow.Base.{
  ◌≡◌, ◌≢◌, refl, ◌⊎◌, inl, inr, String, Bool, true, List, [], ◌∷◌, ◌++◌, arith, Bool-cases, Result,
  ok, err, ◌==◌, eq_iff,
}
use ai_workflow.Base.Dict.{Dict, insert, remove}
use ai_workflow.Base.Value.{Value}
use ai_workflow.Workflow.{Node}
use ai_workflow.Executor.{Step, Env, World}
use ai_workflow.Executor.Graph.{Graph, next}
use ai_workflow.Executor.Steps.{execute_step}
use ai_workflow.Executor.Steps.Laws.{StepOk, execute_step-StepOk}
use ai_workflow.Executor.Queue.{Frontier, offer_all}
use ai_workflow.Executor.Engine.{
  ExecutionState, Outcome, RoundResult, stop, go, pause_round, step_round, node_at, round,
}

pub List-cases {ℓ} :
    {A : Type ℓ} (xs : List A) → (xs ≡ []) ⊎ ((x : A) × (rest : List A) × (xs ≡ x ∷ rest))
List-cases [] = inl refl
List-cases (x ∷ xs) = inr (x, xs, refl)

pub RoundResult-cases :
    (r : RoundResult)
    → ((o : Outcome) × (r ≡ stop o))
      ⊎ ((st : ExecutionState) × (queued : Dict Bool) × (r ≡ go st queued))
RoundResult-cases (stop o) = inl (o, refl)
RoundResult-cases (go st queued) = inr (st, queued, refl)

module _ (g : Graph) where
  -- The queue and its set after node `id` returned `out`.
  abbrev pub frontier : String → List String → ExecutionState → Dict Bool → Value → Frontier
  frontier id rest st queued out =
      let node = node_at g id in
      offer_all (insert node.id true st.executed) (next g node out)
        (record { queue = rest; queued = remove id queued })

  abbrev pub advance :
      String → List String → ExecutionState → Dict Bool → Step → Value → ExecutionState
  advance id rest st queued step out =
      let node = node_at g id in
      record {
        steps = st.steps ++ step ∷ [];
        step_outputs = insert node.id out st.step_outputs;
        last_node_id = node.id;
        queue = (frontier id rest st queued out).queue;
        executed = insert node.id true st.executed;
      }

module _ (env : Env) (run_id tenant_id : String) (g : Graph) (input : Dict Value) where
  -- The node's step completed with output `out`, and the state advanced by it.
  pub record Advanced (id : String) (rest : List String) (st : ExecutionState) (queued : Dict Bool)
      (st' : ExecutionState) (queued' : Dict Bool) : Type 0 where
    pub step : Step
    pub out : Value
    pub not_approval : (node_at g id).node_type ≢ "approval"
    pub done : StepOk env run_id tenant_id (node_at g id) input st.step_outputs step out
    pub state : st' ≡ advance g id rest st queued step out
    pub set : queued' ≡ (frontier g id rest st queued out).queued

  step_round-go :
      (id : String) (rest : List String) (st : ExecutionState) (queued : Dict Bool)
      (r : (Step × Result String Value) × World) (st' : ExecutionState) (queued' : Dict Bool)
      → (step_round env run_id tenant_id g input
          (node_at g id)
          (record st { queue = rest })
          (remove id queued)
          r).0
        ≡ go st' queued'
      → (step : Step) × (out : Value) × (r.0 ≡ (step, ok out))
        × (st' ≡ advance g id rest st queued step out)
        × (queued' ≡ (frontier g id rest st queued out).queued)
  unfolding step_round
  step_round-go id rest st queued ((step, err e), w) st' queued' h = absurd (cc h)
  step_round-go id rest st queued ((step, ok out), w) st' queued' h =
      (step, out, refl, ground arith, ground arith)

  pause_round-go :
      (node : Node) (st : ExecutionState) (r : Result String Step × World) (st' : ExecutionState)
      (queued' : Dict Bool)
      → (pause_round env run_id tenant_id g input node st r).0 ≢ go st' queued'
  unfolding pause_round
  pause_round-go node st (err e, w) st' queued' h = cc h
  pause_round-go node st (ok step, w) st' queued' h = cc h

  pub round-go :
      (id : String) (rest : List String) (st : ExecutionState) (queued : Dict Bool) (w : World)
      (st' : ExecutionState) (queued' : Dict Bool)
      → (round env run_id tenant_id g input id rest st queued w).0 ≡ go st' queued'
      → Advanced id rest st queued st' queued'
  unfolding round
  round-go id rest st queued w st' queued' h =
      elim (Bool-cases ((node_at g id).node_type == "approval")) [
        | inl approval ↦ absurd (pause_round-go _ _ _ st' queued' (rw approval at h))
        | inr other ↦
            let (step, out, e, state, set) =
              step_round-go id rest st queued
                (execute_step env run_id tenant_id (node_at g id) input st.step_outputs w) st'
                queued' (rw other at h) in
            record {
              step = step;
              out = out;
              not_approval = λ e. cc ((eq_iff (node_at g id).node_type "approval").1 e);
              done =
                  execute_step-StepOk env run_id tenant_id (node_at g id) input st.step_outputs w
                    step out e;
              state = state;
              set = set;
            }
      ]
