-- ===== src/Executor/Service/Outcomes.antt =====
-- What `executeRun` (internal/executor/service.go) leaves in the store and returns.
use ai_workflow.Base.{
  ◌≡◌, ◌≢◌, refl, sym, ap, ◌∙◌, ◌⊎◌, inl, inr, String, true, false, some, List, [], arith, contains,
  Distinct, Result, ok, err,
}
use ai_workflow.Base.Dict.{Dict, is_set, lookup}
use mathlib.Core.Path.{subst}
use ai_workflow.Base.Value.{Value}
use ai_workflow.Executor.{
  Run, RunStatus, Step, PendingState, Env, waiting_approval, completed, failed,
}
use ai_workflow.Executor.Graph.{Graph}
use ai_workflow.Executor.Engine.{
  ExecutionState, Outcome, finished, paused, failed_at, broken, out_of_fuel, continue_execution,
}
use ai_workflow.Executor.Engine.Ends.{IsKeyed}
use ai_workflow.Executor.Engine.Terminates.{continue_execution_ends}
use ai_workflow.Executor.Repository.{Store, complete_run, save_pending, update_run}
use ai_workflow.Executor.Repository.Laws.{
  IsSound, is_waiting, waits, complete_run-IsSound, lookup-insert_same, save_pending-IsSound,
  update_run-IsSound,
}
use ai_workflow.Executor.Service.{
  Error, System, with_world, audit_run, settle, execute_run, enough_fuel, engine_stuck,
  step_failed_to_start,
}

-- The store is sound, and a run that is returned is stored as it is returned.
pub record IsKept (x : Result Error Run × System) : Type 0 where
  pub sound : IsSound x.1.store
  pub stored : (r : Run) → x.0 ≡ ok r → lookup r.id x.1.store.runs ≡ some r

pub IsKept-error : (e : Error) (s : System) → IsSound s.store → IsKept (err e, s)
IsKept-error e s h = record { sound = h; stored = λ r eq. absurd (cc eq) }

pub IsKept-run :
    (r : Run) (s : System) → IsSound s.store → lookup r.id s.store.runs ≡ some r → IsKept (ok r, s)
IsKept-run r s h e = record {
  sound = h;
  stored = λ x eq.
      let same : r ≡ x = cc eq in subst (λ (y : Run). lookup y.id s.store.runs ≡ some y) same e;
}

pub IsKept-completed :
    (r : Run) (steps : List Step) (store : Store) (s : System)
    → s.store ≡ complete_run r steps store
    → is_waiting r.status ≡ false
    → IsSound store
    → IsKept (ok r, s)
unfolding complete_run
IsKept-completed r steps store s e status h =
    IsKept-run r s (subst IsSound (sym e) (complete_run-IsSound r steps store status h))
      (ap (λ (x : Store). lookup r.id x.runs) e ∙ lookup-insert_same r.id r store.runs)

IsKept-saved :
    (r : Run) (steps : List Step) (p : PendingState) (store : Store) (s : System)
    → s.store ≡ save_pending r steps p store
    → is_waiting r.status ≡ true
    → IsSound store
    → IsKept (ok r, s)
unfolding save_pending
IsKept-saved r steps p store s e status h =
    IsKept-run r s (subst IsSound (sym e) (save_pending-IsSound r steps p store status h))
      (ap (λ (x : Store). lookup r.id x.runs) e ∙ lookup-insert_same r.id r store.runs)

pub IsKept-updated :
    (r : Run) (store : Store) (s : System)
    → s.store ≡ update_run r store
    → is_waiting r.status ≡ false
    → waits (lookup r.id store.runs) ≡ false
    → IsSound store
    → IsKept (ok r, s)
unfolding update_run
IsKept-updated r store s e status free h =
    IsKept-run r s (subst IsSound (sym e) (update_run-IsSound r store status free h))
      (ap (λ (x : Store). lookup r.id x.runs) e ∙ lookup-insert_same r.id r store.runs)

module _ (env : Env) (run : Run) where
  pub settle-IsKept : (o : Outcome) (s : System) → IsSound s.store → IsKept (settle env run (o, s))
  unfolding settle audit_run
  settle-IsKept (failed_at st node e) s h =
      let x = settle env run (failed_at st node e, s) in
      IsKept-completed _ st.steps s.store x.1 refl refl h
  settle-IsKept (paused st output pending) s h =
      let x = settle env run (paused st output pending, s) in
      IsKept-saved _ st.steps pending s.store x.1 refl refl h
  settle-IsKept (finished st) s h =
      let x = settle env run (finished st, s) in IsKept-completed _ st.steps s.store x.1 refl refl h
  settle-IsKept (broken st e) s h = IsKept-error (step_failed_to_start e) s h
  settle-IsKept out_of_fuel s h = IsKept-error engine_stuck s h

  pub execute_run-IsKept :
      (g : Graph) (input : Dict Value) (st : ExecutionState) (s : System)
      → IsSound s.store
      → IsKept (execute_run env run g input st s)
  unfolding execute_run audit_run
  execute_run-IsKept g input st s h =
      let s1 = audit_run env run "run_started" "workflow run started" [] s in
      let (o, w) =
        continue_execution env run.id run.tenant_id g input (enough_fuel g) st s1.world in
      settle-IsKept o (with_world s1 w) h

-- A run whose execution ended: completed, failed or waiting for an approval.
abbrev pub IsSettled : RunStatus → Type 0
IsSettled x = (x ≡ completed) ⊎ ((x ≡ failed) ⊎ (x ≡ waiting_approval))

-- The run is settled, or a step could not be started because its id was not drawn.
abbrev pub HasSettled : Result Error Run → Type 0
HasSettled (ok r) = IsSettled r.status
HasSettled (err e) = (x : String) × (e ≡ step_failed_to_start x)

settle-HasSettled :
    (env : Env) (run : Run) (o : Outcome) (s : System)
    → o ≢ out_of_fuel
    → HasSettled (settle env run (o, s)).0
unfolding settle
settle-HasSettled env run (failed_at st node e) s h = inr (inl refl)
settle-HasSettled env run (paused st output pending) s h = inr (inr refl)
settle-HasSettled env run (finished st) s h = inl refl
settle-HasSettled env run (broken st e) s h = (e, refl)
settle-HasSettled env run out_of_fuel s h = absurd (h refl)

pub execute_run-HasSettled :
    (env : Env) (run : Run) (g : Graph) (input : Dict Value) (st : ExecutionState) (s : System)
    → IsKeyed g
    → Distinct st.queue
    → ((k : String) → contains k st.queue ≡ true → is_set k st.executed ≡ false)
    → HasSettled (execute_run env run g input st s).0
unfolding execute_run
execute_run-HasSettled env run g input st s keyed distinct waiting =
    let s1 = audit_run env run "run_started" "workflow run started" [] s in
    let (o, w) = continue_execution env run.id run.tenant_id g input (enough_fuel g) st s1.world in
    settle-HasSettled env run o (with_world s1 w) (
      continue_execution_ends env run.id run.tenant_id g input (enough_fuel g) st s1.world keyed
        distinct waiting (omega arith))

-- The run that is returned is the given one in what names it and counts its attempts.
abbrev pub SameRun : Run → Run → Type 0
SameRun r run =
    (r.id ≡ run.id)
    × (r.tenant_id ≡ run.tenant_id)
    × (r.attempt ≡ run.attempt)
    × (r.max_attempts ≡ run.max_attempts)

abbrev pub Continues : Run → Result Error Run → Type 0
Continues run x = (r : Run) → x ≡ ok r → SameRun r run

pub Continues-ok : (run r : Run) → SameRun r run → Continues run (ok r)
Continues-ok run r h x e = let same : r ≡ x = cc e in subst (λ y. SameRun y run) same h

pub Continues-err : (run : Run) (e : Error) → Continues run (err e)
Continues-err run e x eq = absurd (cc eq)

settle-Continues :
    (env : Env) (run : Run) (o : Outcome) (s : System) → Continues run (settle env run (o, s)).0
unfolding settle
settle-Continues env run (failed_at st node e) s = Continues-ok run _ (refl, refl, refl, refl)
settle-Continues env run (paused st output pending) s = Continues-ok run _ (refl, refl, refl, refl)
settle-Continues env run (finished st) s = Continues-ok run _ (refl, refl, refl, refl)
settle-Continues env run (broken st e) s = Continues-err run (step_failed_to_start e)
settle-Continues env run out_of_fuel s = Continues-err run engine_stuck

pub execute_run-Continues :
    (env : Env) (run : Run) (g : Graph) (input : Dict Value) (st : ExecutionState) (s : System)
    → Continues run (execute_run env run g input st s).0
unfolding execute_run
execute_run-Continues env run g input st s =
    let s1 = audit_run env run "run_started" "workflow run started" [] s in
    let (o, w) = continue_execution env run.id run.tenant_id g input (enough_fuel g) st s1.world in
    settle-Continues env run o (with_world s1 w)
