-- ===== src/Executor/Engine/Terminates.antt =====
-- Termination of the loop of `continueExecution` (internal/executor/engine.go).
use ai_workflow.Base.{
  ℕ, zero, suc, ◌<◌, ◌≡◌, ◌≢◌, ap, inl, inr, String, Bool, true, false, List, [], ◌∷◌, arith,
  Bool-cases, length, contains, Distinct, Result, ok, err, ◌==◌, eq_iff, eq_refl,
}
use ai_workflow.Base.Dict.{Dict, lookup, insert, remove, keys, is_set, is_set-insert, is_set-remove}
use ai_workflow.Executor.{Step, Env, World}
use ai_workflow.Executor.Graph.{Graph, next}
use ai_workflow.Executor.Steps.Laws.{execute_node-zero}
use ai_workflow.Executor.Queue.{IsFresh, mark_all, is_set-mark_all, offer_all-IsFresh}
use ai_workflow.Executor.Engine.{
  ExecutionState, Outcome, stop, out_of_fuel, node_at, round, loop, pause_round, step_round,
  continue_execution,
}
use ai_workflow.Executor.Engine.Round.{List-cases, RoundResult-cases, Advanced, round-go}
use ai_workflow.Executor.Engine.Ends.{
  IsKeyed, idle, idle-insert_lt, idle-le-length, IsReady, node_at-keyed, loop-nil, loop-stop,
  loop-go,
}
use ai_workflow.Workflow.{Node}
use ai_workflow.Base.Value.{Value}

-- The queue without its head, once the head is executed.
pub IsFresh-tail :
    (executed : Dict Bool) (id : String) (rest : List String) (queued : Dict Bool)
    → IsFresh executed (record { queue = id ∷ rest; queued = queued })
    → IsFresh (insert id true executed) (record { queue = rest; queued = remove id queued })
IsFresh-tail executed id rest queued h = record {
  distinct = h.distinct.1;
  agrees = λ k. ground (arith, is_set-remove id k queued, h.agrees k, h.distinct, eq_iff id k);
  waiting =
      λ k e. ground (arith, is_set-insert id k executed, h.waiting k, h.distinct, eq_iff id k);
}

module _ (env : Env) (run_id tenant_id : String) (g : Graph) (input : Dict Value) where
  pub Advanced-keyed :
      (id : String) (rest : List String) (st : ExecutionState) (queued : Dict Bool)
      (st' : ExecutionState) (queued' : Dict Bool)
      → IsKeyed g
      → Advanced env run_id tenant_id g input id rest st queued st' queued'
      → ((node_at g id).id ≡ id) × (contains id (keys g.nodes) ≡ true)
  Advanced-keyed id rest st queued st' queued' keyed a = node_at-keyed g id keyed (
      execute_node-zero env a.done.calls tenant_id (node_at g id) input st.step_outputs a.out
        a.done.returned)

  pub Advanced-IsReady :
      (id : String) (rest : List String) (st : ExecutionState) (queued : Dict Bool)
      (st' : ExecutionState) (queued' : Dict Bool)
      → IsKeyed g
      → st.queue ≡ id ∷ rest
      → IsReady st queued
      → Advanced env run_id tenant_id g input id rest st queued st' queued'
      → IsReady st' queued'
  Advanced-IsReady id rest st queued st' queued' keyed e h a =
      let (same, _) = Advanced-keyed id rest st queued st' queued' keyed a in
      let tail : IsFresh (insert (node_at g id).id true st.executed)
          (record { queue = rest; queued = remove id queued }) =
        rw same (IsFresh-tail st.executed id rest queued (rw e at h)) in
      rw (a.state, a.set)
        (offer_all-IsFresh (insert (node_at g id).id true st.executed) (next g (node_at g id) a.out)
          (record { queue = rest; queued = remove id queued }) tail)

  pause_round-stop :
      (node : Node) (st : ExecutionState) (r : Result String Step × World)
      → (pause_round env run_id tenant_id g input node st r).0 ≢ stop out_of_fuel
  unfolding pause_round
  pause_round-stop node st (err e, w) h = cc h
  pause_round-stop node st (ok step, w) h = cc h

  step_round-stop :
      (node : Node) (st : ExecutionState) (queued : Dict Bool)
      (r : (Step × Result String Value) × World)
      → (step_round env run_id tenant_id g input node st queued r).0 ≢ stop out_of_fuel
  unfolding step_round
  step_round-stop node st queued ((step, err e), w) h = cc h
  step_round-stop node st queued ((step, ok out), w) h = cc h

  round-ne-out_of_fuel :
      (id : String) (rest : List String) (st : ExecutionState) (queued : Dict Bool) (w : World)
      → (round env run_id tenant_id g input id rest st queued w).0 ≢ stop out_of_fuel
  unfolding round
  round-ne-out_of_fuel id rest st queued w h =
      elim (Bool-cases ((node_at g id).node_type == "approval")) [
        | inl approval ↦
            pause_round-stop (node_at g id) (record st { queue = rest }) _ (rw approval at h)
        | inr other ↦
            step_round-stop (node_at g id) (record st { queue = rest }) (remove id queued) _
              (rw other at h)
      ]

  loop_ends :
      (fuel : ℕ) (st : ExecutionState) (queued : Dict Bool) (w : World)
      → IsKeyed g
      → IsReady st queued
      → idle st.executed (keys g.nodes) < fuel
      → (loop env run_id tenant_id g input fuel st queued w).0 ≢ out_of_fuel
  loop_ends zero st queued w keyed h less e = elim less [ ]
  loop_ends (suc fuel) st queued w keyed h less e = elim (List-cases st.queue) [
    | inl empty ↦ cc (
      ap (λ (x : Outcome × World). x.0)
          (loop-nil env run_id tenant_id g input (suc fuel) st queued w empty),
      e,
    )
    | inr (id, rest, q) ↦
        let r = round env run_id tenant_id g input id rest st queued w in
        elim (RoundResult-cases r.0) [
          | inl (o, stopped) ↦
              let same =
                loop-stop env run_id tenant_id g input fuel st queued w id rest o q stopped in
              round-ne-out_of_fuel id rest st queued w (cc (stopped, same, e))
          | inr (st', queued', going) ↦
              let a = round-go env run_id tenant_id g input id rest st queued w st' queued' going in
              let (same, member) = Advanced-keyed id rest st queued st' queued' keyed a in
              let fewer : idle st'.executed (keys g.nodes) < idle st.executed (keys g.nodes) =
                rw (a.state, same)
                  (idle-insert_lt st.executed id (keys g.nodes) member
                    (h.waiting id (rw q (ground (arith, eq_refl id))))) in
              loop_ends fuel st' queued' r.1 keyed
                (Advanced-IsReady id rest st queued st' queued' keyed q h a) (omega arith)
                (rw
                  (loop-go env run_id tenant_id g input fuel st queued w id rest st' queued' q
                    going)
                  at e)
        ]
  ]

  pub IsReady-mark_all :
      (st : ExecutionState)
      → Distinct st.queue
      → ((k : String) → contains k st.queue ≡ true → is_set k st.executed ≡ false)
      → IsReady st (mark_all st.queue [])
  unfolding lookup
  IsReady-mark_all st distinct waiting = record {
    distinct = distinct;
    agrees = λ k. ground (arith, is_set-mark_all k st.queue []);
    waiting = waiting;
  }

pub continue_execution_ends :
    (env : Env) (run_id tenant_id : String) (g : Graph) (input : Dict Value) (fuel : ℕ)
    (st : ExecutionState) (w : World)
    → IsKeyed g
    → Distinct st.queue
    → ((k : String) → contains k st.queue ≡ true → is_set k st.executed ≡ false)
    → length (keys g.nodes) < fuel
    → (continue_execution env run_id tenant_id g input fuel st w).0 ≢ out_of_fuel
unfolding continue_execution
continue_execution_ends env run_id tenant_id g input fuel st w keyed distinct waiting less =
    loop_ends env run_id tenant_id g input fuel st (mark_all st.queue []) w keyed
      (IsReady-mark_all env run_id tenant_id g input st distinct waiting)
      (omega (arith, idle-le-length st.executed (keys g.nodes)))
