-- ===== src/Executor/Engine/Pauses.antt =====
-- The state that `continueExecution` (internal/executor/engine.go) saves when it pauses.
use ai_workflow.Base.{
  ℕ, ◌≡◌, ◌≢◌, refl, sym, ap, ◌∙◌, String, Bool, true, false, List, [], ◌∷◌, ◌++◌, arith, contains,
  Distinct, eq_refl,
}
use ai_workflow.Base.Dict.{Dict, is_set}
use ai_workflow.Base.Value.{Value}
use ai_workflow.Executor.{Step, PendingState, Env, World}
use ai_workflow.Executor.Graph.{Graph, next}
use ai_workflow.Executor.Queue.{append_queue_lem, mark_all}
use ai_workflow.Executor.Engine.{ExecutionState, Outcome, paused, node_at, continue_execution}
use ai_workflow.Executor.Engine.Ends.{
  IsKeyed, Ended, at_end, at_stop, at_limit, loop_rule, node_at-keyed,
}
use ai_workflow.Executor.Engine.Stops.{pending_at, Stopped, pauses, fails, breaks, round-Stopped}
use ai_workflow.Executor.Engine.Records.{step_nodes, AllCompleted, IsRecorded, Advanced-IsRecorded}
use ai_workflow.Executor.Engine.Runs.{IsConsistent, IsRecorded-mark_all}

-- A saved state that the steps agree with: all of them completed but the last, which is of the
-- waiting node; the executed nodes are those of the completed steps; and the queue has distinct
-- nodes that are neither executed nor waiting.
pub record IsResumable (steps : List Step) (p : PendingState) : Type 0 where
  pub done : List Step
  pub last : Step
  pub split : steps ≡ done ++ last ∷ []
  pub completed : AllCompleted done
  pub once : Distinct (step_nodes done)
  pub complete : (k : String) → is_set k p.executed ≡ contains k (step_nodes done)
  pub waits : last.node_id ≡ p.waiting_node_id
  pub new : is_set p.waiting_node_id p.executed ≡ false
  pub distinct : Distinct p.queue
  pub waiting : (k : String) → contains k p.queue ≡ true → is_set k p.executed ≡ false
  pub apart : contains p.waiting_node_id p.queue ≡ false

-- No node is its own successor.
abbrev pub HasNoLoop : Graph → Type 0
HasNoLoop g =
    (k : String) (out : Value) → contains (node_at g k).id (next g (node_at g k) out) ≡ false

-- The steps and the saved state of an outcome, if it is a pause.
abbrev pub IsResumableOutcome : Outcome → Type 0
IsResumableOutcome (paused st output p) = IsResumable st.steps p
IsResumableOutcome _ = Unit

module _ (env : Env) (run_id tenant_id : String) (g : Graph) (input : Dict Value) where
  Stopped-IsResumable :
      IsKeyed g
      → HasNoLoop g
      → (id : String) (rest : List String) (st : ExecutionState) (queued : Dict Bool) (o : Outcome)
      → st.queue ≡ id ∷ rest
      → IsRecorded st queued
      → Stopped g run_id id rest st o
      → IsResumableOutcome o
  Stopped-IsResumable keyed free id rest st queued o q r (fails step x s e) = rw e tt
  Stopped-IsResumable keyed free id rest st queued o q r (breaks x e) = rw e tt
  Stopped-IsResumable keyed free id rest st queued o q r (pauses step t n s e) =
      let typed : (node_at g id).node_type ≢ "" = λ x. absurd (cc (sym x ∙ t)) in
      let (same, _) = node_at-keyed g id keyed typed in
      let first : (contains id rest ≡ false) × Distinct rest = rw q at r.ready.distinct in
      let waiting : (k : String) → contains k rest ≡ true → is_set k st.executed ≡ false =
        λ k h. r.ready.waiting k (rw q (ground (arith, h))) in
      let (distinct, members) =
        append_queue_lem rest (next g (node_at g id) step.output) st.executed first.1 waiting in
      let saved : IsResumable (st.steps ++ step ∷ []) (pending_at g id rest st step) = record {
        done = st.steps;
        last = step;
        split = refl;
        completed = r.completed;
        once = r.once;
        complete = r.complete;
        waits = n;
        new = rw same (r.ready.waiting id (rw q (ground (arith, eq_refl id))));
        distinct = distinct;
        waiting = λ k h. ground (arith, members k, waiting k);
        apart = ground (
          arith,
          members (node_at g id).id,
          free id step.output,
          first.0,
          ap (λ k. contains k rest) same,
        );
      } in
      rw e saved

  Ended-IsResumable :
      IsKeyed g
      → HasNoLoop g
      → (o : Outcome) → Ended env run_id tenant_id g input IsRecorded o
      → IsResumableOutcome o
  Ended-IsResumable keyed free o (at_end st queued r q e) = rw e tt
  Ended-IsResumable keyed free o (at_stop st queued id rest w r q s) =
      Stopped-IsResumable keyed free id rest st queued o q r
        (round-Stopped env run_id tenant_id g input id rest st queued w o s)
  Ended-IsResumable keyed free o (at_limit e) = rw e tt

  pub continue_execution-IsResumable :
      (fuel : ℕ) (st : ExecutionState) (w : World)
      → IsKeyed g
      → HasNoLoop g
      → IsConsistent st
      → IsResumableOutcome (continue_execution env run_id tenant_id g input fuel st w).0
  unfolding continue_execution
  continue_execution-IsResumable fuel st w keyed free c =
      Ended-IsResumable keyed free (continue_execution env run_id tenant_id g input fuel st w).0 (
        loop_rule env run_id tenant_id g input IsRecorded
          (Advanced-IsRecorded env run_id tenant_id g input keyed) fuel st (mark_all st.queue []) w
          (IsRecorded-mark_all env run_id tenant_id g input st c))
