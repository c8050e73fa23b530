-- ===== src/Executor/Service/Resumed.antt =====
-- Continuing from a saved state (`ResumeApproval`, internal/executor/service.go).
use ai_workflow.Base.{
  ℕ, ◌<◌, ◌≡◌, refl, sym, ap, ◌∙◌, String, false, some, List, [], ◌∷◌, ◌++◌, arith, length,
  contains, eq_iff, eq_refl,
}
use ai_workflow.Base.Lists.{Distinct-concat, contains-concat}
use ai_workflow.Base.Dict.{Dict, is_set-insert, keys}
use ai_workflow.Base.Value.{Value}
use ai_workflow.Executor.{Step, PendingState, Env, World, step_completed}
use ai_workflow.Executor.Graph.{Graph}
use ai_workflow.Executor.Engine.{state_from_pending, continue_execution}
use ai_workflow.Executor.Engine.Ends.{IsKeyed}
use ai_workflow.Executor.Engine.Records.{step_nodes, AllCompleted-concat, step_nodes-concat}
use ai_workflow.Executor.Engine.Runs.{IsConsistent, IsTidy, continue_execution-IsTidy}
use ai_workflow.Executor.Engine.Pauses.{IsResumable}
use ai_workflow.Executor.Service.Resume.{keep_step, resolve_last, resumed_state}

abbrev completed_step : Value → ℕ → Step → Step
completed_step output now s = record s {
  status = step_completed;
  output = output;
  completed_at = now;
}

-- The last step is the one that is resolved.
resolve_last-concat :
    (node_id : String) (output : Value) (now : ℕ) (done : List Step) (last : Step)
    → last.node_id ≡ node_id
    → resolve_last node_id output now (done ++ last ∷ [])
      ≡ some (done ++ completed_step output now last ∷ [], completed_step output now last)
unfolding resolve_last
resolve_last-concat node_id output now [] last e = rw (e, eq_refl node_id) refl
resolve_last-concat node_id output now (s ∷ []) last e =
    ap (keep_step s) (resolve_last-concat node_id output now [] last e)
resolve_last-concat node_id output now (s ∷ t ∷ done) last e =
    ap (keep_step s) (resolve_last-concat node_id output now (t ∷ done) last e)

resumed_state-IsConsistent :
    (output : Value) (now : ℕ) (p : PendingState) (steps : List Step) (r : IsResumable steps p)
    → IsConsistent (resumed_state (r.done ++ completed_step output now r.last ∷ []) p output)
unfolding resumed_state state_from_pending
resumed_state-IsConsistent output now p steps r =
    let last = completed_step output now r.last in
    let nodes = step_nodes-concat r.done last in
    let unseen : contains p.waiting_node_id (step_nodes r.done) ≡ false =
      sym (r.complete p.waiting_node_id) ∙ r.new in
    record {
      completed = AllCompleted-concat r.done last r.completed refl;
      once =
          rw (nodes, r.waits) (Distinct-concat p.waiting_node_id (step_nodes r.done) r.once unseen);
      complete = λ k.
          rw (nodes, r.waits)
            (ground (
              arith,
              is_set-insert p.waiting_node_id k p.executed,
              contains-concat k p.waiting_node_id (step_nodes r.done),
              r.complete k,
            ));
      distinct = r.distinct;
      waiting = λ k h. ground (
        arith,
        is_set-insert p.waiting_node_id k p.executed,
        r.waiting k,
        eq_iff p.waiting_node_id k,
        r.apart,
      );
    }

-- The decision on a resumable state resolves its last step, and the engine continues from there to
-- an end: no node that was executed before the pause is executed again, nor is the waiting one.
pub resumed-IsTidy :
    (env : Env) (run_id tenant_id : String) (g : Graph) (input : Dict Value) (fuel : ℕ)
    (output : Value) (now : ℕ) (steps : List Step) (p : PendingState) (w : World)
    → IsKeyed g
    → IsResumable steps p
    → length (keys g.nodes) < fuel
    → (steps' : List Step) × (last : Step) × (resolve_last p.waiting_node_id output now steps
        ≡ some (steps', last))
      × IsTidy
          (continue_execution env run_id tenant_id g input fuel (resumed_state steps' p output) w).0
resumed-IsTidy env run_id tenant_id g input fuel output now steps p w keyed r less =
    let last = completed_step output now r.last in
    let steps' = r.done ++ last ∷ [] in
    (
      steps',
      last,
      ap (resolve_last p.waiting_node_id output now) r.split
          ∙ resolve_last-concat p.waiting_node_id output now r.done r.last r.waits,
      continue_execution-IsTidy env run_id tenant_id g input fuel (resumed_state steps' p output) w
          keyed (resumed_state-IsConsistent output now p steps r) less,
    )
