-- ===== src/Executor/Engine/Ends.antt =====
-- Invariants and fuel of the loop of `continueExecution` (internal/executor/engine.go).
use ai_workflow.Base.{
  ℕ, zero, suc, ◌≤◌, ◌<◌, ◌≡◌, ◌≢◌, refl, inl, inr, String, Bool, true, false, some, List, [], ◌∷◌,
  arith, if◌then◌else◌, Option-cases, length, contains, eq_iff,
}
use ai_workflow.Base.Dict.{Dict, lookup, insert, keys, is_set, is_set-insert}
use ai_workflow.Base.Value.{Value}
use ai_workflow.Workflow.{Node}
use ai_workflow.Executor.{Env, World}
use ai_workflow.Executor.Graph.{Graph}
use ai_workflow.Executor.Queue.{Frontier, IsFresh}
use ai_workflow.Executor.Engine.{
  ExecutionState, Outcome, stop, go, finished, out_of_fuel, node_at, round, loop,
}
use ai_workflow.Executor.Engine.Round.{List-cases, RoundResult-cases, Advanced, round-go}

-- Every node stands under its own id.
abbrev pub IsKeyed : Graph → Type 0
IsKeyed g = (k : String) (n : Node) → lookup k g.nodes ≡ some n → n.id ≡ k

-- How many of the ids are not executed.
pub idle : Dict Bool → List String → ℕ
idle executed [] = 0
idle executed (id ∷ ids) =
    let rest = idle executed ids in if is_set id executed then rest else suc rest

idle-insert_le :
    (executed : Dict Bool) (id : String) (ids : List String)
    → idle (insert id true executed) ids ≤ idle executed ids
unfolding idle
idle-insert_le executed id [] = omega arith
idle-insert_le executed id (k ∷ ids) =
    ground (arith, is_set-insert id k executed, idle-insert_le executed id ids)

pub idle-insert_lt :
    (executed : Dict Bool) (id : String) (ids : List String)
    → contains id ids ≡ true
    → is_set id executed ≡ false
    → idle (insert id true executed) ids < idle executed ids
unfolding idle
idle-insert_lt executed id [] h new = absurd (cc h)
idle-insert_lt executed id (k ∷ ids) h new = ground (
  arith,
  is_set-insert id k executed,
  idle-insert_le executed id ids,
  idle-insert_lt executed id ids,
  eq_iff k id,
  eq_iff id k,
)

pub idle-le-length : (executed : Dict Bool) (ids : List String) → idle executed ids ≤ length ids
unfolding idle
idle-le-length executed [] = omega arith
idle-le-length executed (id ∷ ids) = ground (arith, idle-le-length executed ids)

lookup-contains {ℓ} :
    {V : Type ℓ} (k : String) (m : Dict V) (v : V)
    → lookup k m ≡ some v
    → contains k (keys m) ≡ true
unfolding lookup
lookup-contains k [] v h = absurd (cc h)
lookup-contains k ((j, w) ∷ m) v h = ground (arith, lookup-contains k m v)

abbrev pub front : ExecutionState → Dict Bool → Frontier
front st queued = record { queue = st.queue; queued = queued }

-- The ids of the queue are distinct, recorded in `queued`, and not yet executed.
abbrev pub IsReady : ExecutionState → Dict Bool → Type 0
IsReady st queued = IsFresh st.executed (front st queued)

-- A node that completes is a node of the graph.
pub node_at-keyed :
    (g : Graph) (id : String)
    → IsKeyed g
    → (node_at g id).node_type ≢ ""
    → ((node_at g id).id ≡ id) × (contains id (keys g.nodes) ≡ true)
unfolding node_at
node_at-keyed g id keyed h = elim (Option-cases (lookup id g.nodes)) [
  | inl e ↦ absurd (h (rw (e, node_at)))
  | inr (n, e) ↦ (rw (e, node_at) (keyed id n e), lookup-contains id g.nodes n e)
]

module _ (env : Env) (run_id tenant_id : String) (g : Graph) (input : Dict Value) where
  -- Where a loop that returns `o` stopped, and that the invariant held there.
  pub data Ended {ℓ} (P : ExecutionState → Dict Bool → Type ℓ) (o : Outcome) : Type ℓ where
    at_end :
        (st : ExecutionState) (queued : Dict Bool)
        → P st queued
        → st.queue ≡ []
        → o ≡ finished st
        → Ended P o
    at_stop :
        (st : ExecutionState) (queued : Dict Bool) (id : String) (rest : List String) (w : World)
        → P st queued
        → st.queue ≡ id ∷ rest
        → (round env run_id tenant_id g input id rest st queued w).0 ≡ stop o
        → Ended P o
    at_limit : o ≡ out_of_fuel → Ended P o

  pub loop-nil :
      (fuel : ℕ) (st : ExecutionState) (queued : Dict Bool) (w : World)
      → st.queue ≡ []
      → loop env run_id tenant_id g input fuel st queued w ≡ (finished st, w)
  unfolding loop
  loop-nil zero st queued w e = simp (e, loop)
  loop-nil (suc fuel) st queued w e = simp (e, loop)

  loop-zero :
      (st : ExecutionState) (queued : Dict Bool) (w : World) (id : String) (rest : List String)
      → st.queue ≡ id ∷ rest
      → loop env run_id tenant_id g input zero st queued w ≡ (out_of_fuel, w)
  unfolding loop
  loop-zero st queued w id rest e = simp (e, loop)

  pub loop-stop :
      (fuel : ℕ) (st : ExecutionState) (queued : Dict Bool) (w : World) (id : String)
      (rest : List String) (o : Outcome)
      → st.queue ≡ id ∷ rest
      → (round env run_id tenant_id g input id rest st queued w).0 ≡ stop o
      → (loop env run_id tenant_id g input (suc fuel) st queued w).0 ≡ o
  unfolding loop
  loop-stop fuel st queued w id rest o e stopped = simp (e, loop) (simp stopped)

  pub loop-go :
      (fuel : ℕ) (st : ExecutionState) (queued : Dict Bool) (w : World) (id : String)
      (rest : List String) (st' : ExecutionState) (queued' : Dict Bool)
      → st.queue ≡ id ∷ rest
      → (round env run_id tenant_id g input id rest st queued w).0 ≡ go st' queued'
      → loop env run_id tenant_id g input (suc fuel) st queued w
        ≡ loop env run_id tenant_id g input fuel st' queued'
            (round env run_id tenant_id g input id rest st queued w).1
  unfolding loop
  loop-go fuel st queued w id rest st' queued' e going = simp (e, loop) (simp going)

  pub loop_rule {ℓ} :
      (P : ExecutionState → Dict Bool → Type ℓ)
      → ((id : String) (rest : List String) (st : ExecutionState) (queued : Dict Bool)
            (st' : ExecutionState) (queued' : Dict Bool)
          → st.queue ≡ id ∷ rest
          → P st queued
          → Advanced env run_id tenant_id g input id rest st queued st' queued'
          → P st' queued')
      → (fuel : ℕ) (st : ExecutionState) (queued : Dict Bool) (w : World) → P st queued
      → Ended P (loop env run_id tenant_id g input fuel st queued w).0
  loop_rule P keep zero st queued w p = elim (List-cases st.queue) [
    | inl e ↦ rw (loop-nil zero st queued w e) (at_end st queued p e refl)
    | inr (id, rest, e) ↦ rw (loop-zero st queued w id rest e) (at_limit refl)
  ]
  loop_rule P keep (suc fuel) st queued w p = elim (List-cases st.queue) [
    | inl e ↦ rw (loop-nil (suc fuel) st queued w e) (at_end st queued p e refl)
    | inr (id, rest, e) ↦
        let r = round env run_id tenant_id g input id rest st queued w in
        elim (RoundResult-cases r.0) [
          | inl (o, stopped) ↦
              rw (loop-stop fuel st queued w id rest o e stopped)
                (at_stop st queued id rest w p e stopped)
          | inr (st', queued', going) ↦ rw (loop-go fuel st queued w id rest st' queued' e going) (
              loop_rule P keep fuel st' queued' r.1 (
                keep id rest st queued st' queued' e p
                  (round-go env run_id tenant_id g input id rest st queued w st' queued' going)))
        ]
  ]
