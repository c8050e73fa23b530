-- ===== src/Executor/Engine/Runs.antt =====
-- Whole runs of `continueExecution` (internal/executor/engine.go).
use ai_workflow.Base.{
  ℕ, ◌<◌, ◌≡◌, ◌≢◌, refl, ◌↔◌, String, Bool, true, false, List, [], ◌∷◌, ◌++◌, arith, length,
  contains, Distinct,
}
use mathlib.Core.Path.{subst}
use ai_workflow.Base.Dict.{Dict, lookup, keys, is_set}
use ai_workflow.Base.Value.{Value}
use ai_workflow.Executor.{Step, Env, World, step_completed, step_waiting}
use ai_workflow.Executor.Graph.{Graph}
use ai_workflow.Executor.Queue.{mark_all}
use ai_workflow.Executor.Engine.{
  ExecutionState, Outcome, finished, paused, failed_at, broken, out_of_fuel, new_execution_state,
  continue_execution,
}
use ai_workflow.Executor.Engine.Ends.{IsKeyed, IsReady, Ended, at_end, at_stop, at_limit, loop_rule}
use ai_workflow.Executor.Engine.Terminates.{IsReady-mark_all, continue_execution_ends}
use ai_workflow.Executor.Engine.Stops.{Stopped, pauses, fails, breaks, round-Stopped}
use ai_workflow.Executor.Engine.Records.{step_nodes, AllCompleted, IsRecorded, Advanced-IsRecorded}
use ai_workflow.Executor.Engine.Closure.{Reached, root, IsTraced, Advanced-IsTraced, complete}

-- The steps of an outcome: each node at most once, every step completed but the last of a run that
-- failed or waits, which waits exactly if the run does.
abbrev pub IsTidy : Outcome → Type 0
IsTidy (finished st) =
    AllCompleted st.steps
    × Distinct (step_nodes st.steps)
    × ((k : String) → is_set k st.executed ≡ contains k (step_nodes st.steps))
IsTidy (paused st output pending) =
    (done : List Step) × (last : Step) × (st.steps ≡ done ++ last ∷ [])
    × AllCompleted done
    × Distinct (step_nodes done)
    × (last.status ≡ step_waiting)
    × (last.node_id ≡ pending.waiting_node_id)
IsTidy (failed_at st node e) =
    (done : List Step) × (last : Step) × (st.steps ≡ done ++ last ∷ [])
    × AllCompleted done
    × Distinct (step_nodes done)
    × (last.status ≢ step_completed)
IsTidy (broken st e) = AllCompleted st.steps × Distinct (step_nodes st.steps)
IsTidy out_of_fuel = ⊥

-- The steps so far are those of the executed nodes, each completed once, and the queue is fresh.
pub record IsConsistent (st : ExecutionState) : Type 0 where
  pub completed : AllCompleted st.steps
  pub once : Distinct (step_nodes st.steps)
  pub complete : (k : String) → is_set k st.executed ≡ contains k (step_nodes st.steps)
  pub distinct : Distinct st.queue
  pub waiting : (k : String) → contains k st.queue ≡ true → is_set k st.executed ≡ false

module _ (env : Env) (run_id tenant_id : String) (g : Graph) (input : Dict Value) where
  pub IsRecorded-mark_all :
      (st : ExecutionState) → IsConsistent st → IsRecorded st (mark_all st.queue [])
  IsRecorded-mark_all st c = record {
    ready = IsReady-mark_all env run_id tenant_id g input st c.distinct c.waiting;
    completed = c.completed;
    once = c.once;
    complete = c.complete;
  }

  Stopped-IsTidy :
      (id : String) (rest : List String) (st : ExecutionState) (queued : Dict Bool) (o : Outcome)
      → IsRecorded st queued
      → Stopped g run_id id rest st o
      → IsTidy o
  Stopped-IsTidy id rest st queued o r (pauses step t n s e) =
      rw e (st.steps, step, refl, r.completed, r.once, s, n)
  Stopped-IsTidy id rest st queued o r (fails step x s e) =
      rw e (st.steps, step, refl, r.completed, r.once, s)
  Stopped-IsTidy id rest st queued o r (breaks x e) = rw e (r.completed, r.once)

  Ended-IsTidy :
      (o : Outcome) → o ≢ out_of_fuel → Ended env run_id tenant_id g input IsRecorded o → IsTidy o
  Ended-IsTidy o h (at_end st queued r q e) = rw e (r.completed, r.once, r.complete)
  Ended-IsTidy o h (at_stop st queued id rest w r q s) =
      Stopped-IsTidy id rest st queued o r
        (round-Stopped env run_id tenant_id g input id rest st queued w o s)
  Ended-IsTidy o h (at_limit e) = absurd (h e)

-- From a consistent state, on a graph that keeps its nodes under their ids, with more fuel than the
-- graph has nodes, the engine returns, and what it returns is tidy: no node ran twice, all steps
-- before the last completed, and the last is a waiting step of the pending node if the run waits
-- and not a completed one if it failed.
pub continue_execution-IsTidy :
    (env : Env) (run_id tenant_id : String) (g : Graph) (input : Dict Value) (fuel : ℕ)
    (st : ExecutionState) (w : World)
    → IsKeyed g
    → IsConsistent st
    → length (keys g.nodes) < fuel
    → IsTidy (continue_execution env run_id tenant_id g input fuel st w).0
unfolding continue_execution
continue_execution-IsTidy env run_id tenant_id g input fuel st w keyed c less =
    Ended-IsTidy env run_id tenant_id g input
      (continue_execution env run_id tenant_id g input fuel st w).0
      (continue_execution_ends env run_id tenant_id g input fuel st w keyed c.distinct c.waiting
        less)
      (loop_rule env run_id tenant_id g input IsRecorded
        (Advanced-IsRecorded env run_id tenant_id g input keyed) fuel st (mark_all st.queue []) w
        (IsRecorded-mark_all env run_id tenant_id g input st c))

start-IsTraced :
    (g : Graph) (roots : List String)
    → IsReady (new_execution_state roots) (mark_all roots [])
    → IsTraced g roots (new_execution_state roots) (mark_all roots [])
unfolding new_execution_state lookup
start-IsTraced g roots ready = record {
  ready = ready;
  only_executed = λ p out h. absurd (cc h);
  has_output = λ p h. absurd (cc h);
  sound = λ k h. root k h;
  started = λ k h. h;
  closed = λ p k s. absurd (cc s.recorded);
}

Stopped-ne-finished :
    (g : Graph) (run_id id : String) (rest : List String) (st st' : ExecutionState) (o : Outcome)
    → o ≡ finished st'
    → ¬ Stopped g run_id id rest st o
Stopped-ne-finished g run_id id rest st st' o h (pauses step t n s e) = cc (h, e)
Stopped-ne-finished g run_id id rest st st' o h (fails step x s e) = cc (h, e)
Stopped-ne-finished g run_id id rest st st' o h (breaks x e) = cc (h, e)

module _ (env : Env) (run_id tenant_id : String) (g : Graph) (input : Dict Value)
    (roots : List String) where
  Ended-reached :
      (o : Outcome) (st : ExecutionState)
      → o ≡ finished st
      → Ended env run_id tenant_id g input (IsTraced g roots) o
      → (k : String) → (is_set k st.executed ≡ true) ↔ Reached g roots st.step_outputs k
  Ended-reached o st h (at_end st' queued t q e) k =
      let same : st' ≡ st = ground arith in
      let t' = subst (λ x. IsTraced g roots x queued) same t in
      let q' = subst (λ (x : ExecutionState). x.queue ≡ []) same q in
      (λ x. t'.sound k (rw x), complete g roots st queued t' q' k)
  Ended-reached o st h (at_stop st' queued id rest w t q s) k = absurd (
      Stopped-ne-finished g run_id id rest st' st o h
        (round-Stopped env run_id tenant_id g input id rest st' queued w o s))
  Ended-reached o st h (at_limit e) k = absurd (cc (h, e))

-- A new run that finishes, on a graph that keeps its nodes under their ids and from distinct roots,
-- has executed exactly the nodes that are reached from the roots by the successors which the
-- recorded outputs select: every branch taken, and no branch not taken.
pub finished_reached :
    (env : Env) (run_id tenant_id : String) (g : Graph) (input : Dict Value) (roots : List String)
    (fuel : ℕ) (st : ExecutionState) (w : World)
    → IsKeyed g
    → Distinct roots
    → (continue_execution env run_id tenant_id g input fuel (new_execution_state roots) w).0
      ≡ finished st
    → (k : String) → (is_set k st.executed ≡ true) ↔ Reached g roots st.step_outputs k
unfolding continue_execution new_execution_state lookup
finished_reached env run_id tenant_id g input roots fuel st w keyed distinct e =
    let start = new_execution_state roots in
    let ready = IsReady-mark_all env run_id tenant_id g input start distinct (λ k h. refl) in
    Ended-reached env run_id tenant_id g input roots
      (continue_execution env run_id tenant_id g input fuel start w).0 st e
      (loop_rule env run_id tenant_id g input (IsTraced g roots)
        (Advanced-IsTraced env run_id tenant_id g input roots keyed) fuel start (mark_all roots [])
        w (start-IsTraced g roots ready))
