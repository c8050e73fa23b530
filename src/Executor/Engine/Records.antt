-- ===== src/Executor/Engine/Records.antt =====
-- The list of steps that `continueExecution` (internal/executor/engine.go) builds.
use ai_workflow.Base.{
  ◌≡◌, refl, sym, ap, ◌∙◌, String, Bool, false, List, [], ◌∷◌, ◌++◌, arith, All, contains, Distinct,
  eq_refl,
}
use ai_workflow.Base.Lists.{contains-concat, Distinct-concat}
use ai_workflow.Base.Dict.{Dict, is_set, is_set-insert}
use ai_workflow.Executor.{Step, Env, step_completed}
use ai_workflow.Executor.Graph.{Graph}
use ai_workflow.Base.Value.{Value}
use ai_workflow.Executor.Engine.{ExecutionState}
use ai_workflow.Executor.Engine.Round.{Advanced}
use ai_workflow.Executor.Engine.Ends.{IsKeyed, IsReady}
use ai_workflow.Executor.Engine.Terminates.{Advanced-keyed, Advanced-IsReady}

abbrev pub step_nodes : List Step → List String
step_nodes [] = []
step_nodes (s ∷ steps) = s.node_id ∷ step_nodes steps

abbrev pub AllCompleted : List Step → Type 0
AllCompleted = All (λ s. s.status ≡ step_completed)

pub step_nodes-concat :
    (steps : List Step) (s : Step)
    → step_nodes (steps ++ s ∷ []) ≡ step_nodes steps ++ s.node_id ∷ []
step_nodes-concat [] s = refl
step_nodes-concat (x ∷ steps) s = ap (◌∷◌ x.node_id) (step_nodes-concat steps s)

pub AllCompleted-concat :
    (steps : List Step) (s : Step)
    → AllCompleted steps
    → s.status ≡ step_completed
    → AllCompleted (steps ++ s ∷ [])
AllCompleted-concat [] s h e = (e, tt)
AllCompleted-concat (x ∷ steps) s h e = (h.0, AllCompleted-concat steps s h.1 e)

pub record IsRecorded (st : ExecutionState) (queued : Dict Bool) : Type 0 where
  pub ready : IsReady st queued
  pub completed : AllCompleted st.steps
  pub once : Distinct (step_nodes st.steps)
  pub complete : (k : String) → is_set k st.executed ≡ contains k (step_nodes st.steps)

module _ (env : Env) (run_id tenant_id : String) (g : Graph) (input : Dict Value) where
  pub Advanced-IsRecorded :
      IsKeyed g
      → (id : String) (rest : List String) (st : ExecutionState) (queued : Dict Bool)
        (st' : ExecutionState) (queued' : Dict Bool)
      → st.queue ≡ id ∷ rest
      → IsRecorded st queued
      → Advanced env run_id tenant_id g input id rest st queued st' queued'
      → IsRecorded st' queued'
  Advanced-IsRecorded keyed id rest st queued st' queued' e r a =
      let (same, _) =
        Advanced-keyed env run_id tenant_id g input id rest st queued st' queued' keyed a in
      let named : a.step.node_id ≡ id = a.done.node_id ∙ same in
      let new : contains id (step_nodes st.steps) ≡ false =
        sym (r.complete id) ∙ r.ready.waiting id (rw e (ground (arith, eq_refl id))) in
      record {
        ready =
            Advanced-IsReady env run_id tenant_id g input id rest st queued st' queued' keyed e
              r.ready a;
        completed = rw a.state (AllCompleted-concat st.steps a.step r.completed a.done.status);
        once = rw a.state (
            rw (step_nodes-concat st.steps a.step, named)
              (Distinct-concat id (step_nodes st.steps) r.once new));
        complete = λ k. rw a.state (
            rw (step_nodes-concat st.steps a.step, named, same)
              (ground (
                arith,
                is_set-insert id k st.executed,
                contains-concat k id (step_nodes st.steps),
                r.complete k,
              )));
      }
