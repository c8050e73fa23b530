-- ===== src/Executor/Engine/Closure.antt =====
-- The nodes that the outputs of a run select (`continueExecution`, internal/executor/engine.go).
use ai_workflow.Base.{
  ◌≡◌, ◌≢◌, ◌⊎◌, inl, inr, String, Bool, true, false, ◌||◌, some, List, [], ◌∷◌, arith, Bool-cases,
  contains, ◌==◌, eq_iff, eq_refl,
}
use mathlib.Core.Path.{subst}
use ai_workflow.Base.Dict.{Dict, lookup, insert, remove, is_set, is_set-insert, lookup-insert}
use ai_workflow.Base.Value.{Value}
use ai_workflow.Executor.{Env}
use ai_workflow.Executor.Graph.{Graph, next}
use ai_workflow.Executor.Queue.{IsFresh, contains-offer_all}
use ai_workflow.Executor.Engine.{ExecutionState, node_at}
use ai_workflow.Executor.Engine.Round.{Advanced}
use ai_workflow.Executor.Engine.Ends.{IsKeyed, IsReady}
use ai_workflow.Executor.Engine.Terminates.{Advanced-keyed, Advanced-IsReady, IsFresh-tail}

-- Node `k` is among the successors that node `p` has for the output recorded for it.
pub record Selects (g : Graph) (outputs : Dict Value) (p k : String) : Type 0 where
  pub out : Value
  pub recorded : lookup p outputs ≡ some out
  pub chosen : contains k (next g (node_at g p) out) ≡ true

pub data Reached (g : Graph) (roots : List String) (outputs : Dict Value) : String → Type 0 where
  root : (k : String) → contains k roots ≡ true → Reached g roots outputs k
  step :
      (p k : String) → Reached g roots outputs p → Selects g outputs p k → Reached g roots outputs k

abbrev Extends : Dict Value → Dict Value → Type 0
Extends m m' = (p : String) (out : Value) → lookup p m ≡ some out → lookup p m' ≡ some out

Reached-mono :
    (g : Graph) (roots : List String) (m m' : Dict Value) (k : String)
    → Extends m m'
    → Reached g roots m k
    → Reached g roots m' k
Reached-mono g roots m m' k more (root k' h) = root k' h
Reached-mono g roots m m' k more (step p k' r s) =
    step p k' (Reached-mono g roots m m' p more r)
      (record { out = s.out; recorded = more p s.out s.recorded; chosen = s.chosen })

-- Executed nodes have outputs; what they select is executed or queued, and nothing else is.
pub record IsTraced (g : Graph) (roots : List String) (st : ExecutionState) (queued : Dict Bool)
    : Type 0 where
  pub ready : IsReady st queued
  pub only_executed :
      (p : String) (out : Value) → lookup p st.step_outputs ≡ some out → is_set p st.executed ≡ true
  pub has_output :
      (p : String)
      → is_set p st.executed ≡ true
      → (out : Value) × (lookup p st.step_outputs ≡ some out)
  pub sound :
      (k : String)
      → (is_set k st.executed || contains k st.queue) ≡ true
      → Reached g roots st.step_outputs k
  pub started :
      (k : String) → contains k roots ≡ true → (is_set k st.executed || contains k st.queue) ≡ true
  pub closed :
      (p k : String)
      → Selects g st.step_outputs p k
      → (is_set k st.executed || contains k st.queue) ≡ true

module _ (g : Graph) (roots : List String) where
  pub complete :
      (st : ExecutionState) (queued : Dict Bool)
      → IsTraced g roots st queued
      → st.queue ≡ []
      → (k : String) → Reached g roots st.step_outputs k
      → is_set k st.executed ≡ true
  complete st queued t e k (root k' h) = ground (arith, t.started k h)
  complete st queued t e k (step p k' r s) = ground (arith, t.closed p k s)

  -- One node executed with output `out`, its successors queued.
  pub record Executes (id : String) (rest : List String) (out : Value) (st st' : ExecutionState)
      : Type 0 where
    pub head : st.queue ≡ id ∷ rest
    pub executed : st'.executed ≡ insert id true st.executed
    pub outputs : st'.step_outputs ≡ insert id out st.step_outputs
    pub queue_from :
        (k : String)
        → contains k st'.queue ≡ true
        → (contains k rest || contains k (next g (node_at g id) out)) ≡ true
    pub queue_to :
        (k : String)
        → (contains k rest || contains k (next g (node_at g id) out)) ≡ true
        → (is_set k st'.executed || contains k st'.queue) ≡ true

  module _ (id : String) (rest : List String) (out : Value) (st st' : ExecutionState)
      (queued : Dict Bool) (t : IsTraced g roots st queued) (x : Executes id rest out st st') where
    unexecuted : is_set id st.executed ≡ false
    unexecuted = t.ready.waiting id (rw x.head (ground (arith, eq_refl id)))

    new_output : (p : String) (o : Value) → lookup p st.step_outputs ≡ some o → p ≢ id
    new_output p o h e = cc (t.only_executed p o h, unexecuted, e)

    extends : Extends st.step_outputs st'.step_outputs
    extends p o h =
        rw x.outputs
          (ground (arith, lookup-insert id p out st.step_outputs, eq_iff id p, new_output p o h))

    -- What was executed or queued still is.
    stays :
        (k : String)
        → (is_set k st.executed || contains k st.queue) ≡ true
        → (is_set k st'.executed || contains k st'.queue) ≡ true
    stays k h = ground (
      arith,
      rw x.head at h,
      x.queue_to k,
      x.executed,
      is_set-insert id k st.executed,
      eq_iff id k,
    )

    own_output : lookup id st'.step_outputs ≡ some out
    own_output = rw x.outputs (ground (arith, lookup-insert id id out st.step_outputs, eq_refl id))

    reached_head : Reached g roots st'.step_outputs id
    reached_head =
        Reached-mono g roots st.step_outputs st'.step_outputs id extends
          (t.sound id (rw x.head (ground (arith, eq_refl id))))

    origin :
        (k : String)
        → (is_set k st'.executed || contains k st'.queue) ≡ true
        → (id ≡ k)
          ⊎ ((is_set k st.executed || contains k st.queue) ≡ true)
          ⊎ (contains k (next g (node_at g id) out) ≡ true)
    origin k h =
        rw x.head
          (ground (arith, x.queue_from k, x.executed, is_set-insert id k st.executed, eq_iff id k))

    sound_next :
        (k : String)
        → (is_set k st'.executed || contains k st'.queue) ≡ true
        → Reached g roots st'.step_outputs k
    sound_next k h = elim (origin k h) [
      | inl e ↦ subst (Reached g roots st'.step_outputs) e reached_head
      | inr (inl old) ↦
          Reached-mono g roots st.step_outputs st'.step_outputs k extends (t.sound k old)
      | inr (inr new) ↦
          step id k reached_head (record { out = out; recorded = own_output; chosen = new })
    ]

    closed_next :
        (p k : String)
        → Selects g st'.step_outputs p k
        → (is_set k st'.executed || contains k st'.queue) ≡ true
    closed_next p k s = elim (Bool-cases (id == p)) [
      | inl same ↦
          let e = (eq_iff id p).0 same in
          let o : s.out ≡ out = ground (arith, s.recorded, own_output, e) in
          x.queue_to k (ground (arith, s.chosen, o, e))
      | inr other ↦ stays k (
          t.closed p k (record {
            out = s.out;
            recorded =
                ground
                  (arith, s.recorded, x.outputs, lookup-insert id p out st.step_outputs, other);
            chosen = s.chosen;
          }))
    ]

    has_output_next :
        (p : String)
        → is_set p st'.executed ≡ true
        → (o : Value) × (lookup p st'.step_outputs ≡ some o)
    has_output_next p h = elim (Bool-cases (id == p)) [
      | inl same ↦ (out, rw ((eq_iff id p).0 same) at own_output)
      | inr other ↦
          let (o, e) =
            t.has_output p (ground (arith, x.executed, is_set-insert id p st.executed, other, h)) in
          (o, extends p o e)
    ]

    pub Executes-IsTraced :
        (queued' : Dict Bool) → IsReady st' queued' → IsTraced g roots st' queued'
    Executes-IsTraced queued' ready = record {
      ready = ready;
      only_executed = λ p o h. ground (
        arith,
        x.executed,
        x.outputs,
        is_set-insert id p st.executed,
        lookup-insert id p out st.step_outputs,
        t.only_executed p o,
        eq_iff id p,
      );
      has_output = has_output_next;
      sound = sound_next;
      started = λ k h. stays k (t.started k h);
      closed = closed_next;
    }

module _ (env : Env) (run_id tenant_id : String) (g : Graph) (input : Dict Value)
    (roots : List String) where
  Advanced-Executes :
      IsKeyed g
      → (id : String) (rest : List String) (st : ExecutionState) (queued : Dict Bool)
        (st' : ExecutionState) (queued' : Dict Bool)
      → st.queue ≡ id ∷ rest
      → IsReady st queued
      → (a : Advanced env run_id tenant_id g input id rest st queued st' queued')
      → Executes g roots id rest a.out st st'
  Advanced-Executes keyed id rest st queued st' queued' e ready a =
      let (same, _) =
        Advanced-keyed env run_id tenant_id g input id rest st queued st' queued' keyed a in
      let executed = insert (node_at g id).id true st.executed in
      let tail : IsFresh executed (record { queue = rest; queued = remove id queued }) =
        rw same (IsFresh-tail st.executed id rest queued (rw e at ready)) in
      let holds = λ (k : String).
        contains-offer_all executed (next g (node_at g id) a.out) k
          (record { queue = rest; queued = remove id queued }) tail in
      record {
        head = e;
        executed = rw (a.state, same);
        outputs = rw (a.state, same);
        queue_from = λ k h. ground (arith, a.state, holds k);
        queue_to = λ k h. ground (arith, a.state, holds k);
      }

  pub Advanced-IsTraced :
      IsKeyed g
      → (id : String) (rest : List String) (st : ExecutionState) (queued : Dict Bool)
        (st' : ExecutionState) (queued' : Dict Bool)
      → st.queue ≡ id ∷ rest
      → IsTraced g roots st queued
      → Advanced env run_id tenant_id g input id rest st queued st' queued'
      → IsTraced g roots st' queued'
  Advanced-IsTraced keyed id rest st queued st' queued' e t a =
      Executes-IsTraced g roots id rest a.out st st' queued t
        (Advanced-Executes keyed id rest st queued st' queued' e t.ready a) queued'
        (Advanced-IsReady env run_id tenant_id g input id rest st queued st' queued' keyed e t.ready
          a)
