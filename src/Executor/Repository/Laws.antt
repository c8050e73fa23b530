-- ===== src/Executor/Repository/Laws.antt =====
-- The repository of runs (internal/executor/service.go): which runs wait.
use ai_workflow.Base.{
  ◌≡◌, ap, String, Bool, true, false, Option, none, some, List, arith, eq_iff, eq_refl,
}
use ai_workflow.Base.Dict.{Dict, lookup, insert, remove, has_key, lookup-insert, lookup-remove}
use ai_workflow.Executor.{Run, RunStatus, Step, PendingState, waiting_approval}
use ai_workflow.Executor.Repository.{Store, create_run, update_run, complete_run, save_pending}

abbrev pub is_waiting : RunStatus → Bool
is_waiting waiting_approval = true
is_waiting _ = false

abbrev pub waits : Option Run → Bool
waits none = false
waits (some r) = is_waiting r.status

-- Runs are stored under their ids, and a state is pending for exactly the runs that wait.
pub record IsSound (s : Store) : Type 0 where
  pub keyed : (k : String) (r : Run) → lookup k s.runs ≡ some r → r.id ≡ k
  pub pending : (k : String) → has_key k s.pending ≡ waits (lookup k s.runs)

pub complete_run-IsSound :
    (r : Run) (steps : List Step) (s : Store)
    → is_waiting r.status ≡ false
    → IsSound s
    → IsSound (complete_run r steps s)
unfolding complete_run
complete_run-IsSound r steps s e h = record {
  keyed = λ k x eq. ground (arith, eq_iff r.id k, lookup-insert r.id k r s.runs, h.keyed k x);
  pending = λ k. ground (
    arith,
    eq_iff r.id k,
    lookup-insert r.id k r s.runs,
    lookup-remove r.id k s.pending,
    h.pending k,
  );
}

pub save_pending-IsSound :
    (r : Run) (steps : List Step) (p : PendingState) (s : Store)
    → is_waiting r.status ≡ true
    → IsSound s
    → IsSound (save_pending r steps p s)
unfolding save_pending
save_pending-IsSound r steps p s e h = record {
  keyed = λ k x eq. ground (arith, eq_iff r.id k, lookup-insert r.id k r s.runs, h.keyed k x);
  pending = λ k. ground (
    arith,
    eq_iff r.id k,
    lookup-insert r.id k r s.runs,
    lookup-insert r.id k p s.pending,
    h.pending k,
  );
}

-- Storing a run that does not wait in the place of one that does not.
pub update_run-IsSound :
    (r : Run) (s : Store)
    → is_waiting r.status ≡ false
    → waits (lookup r.id s.runs) ≡ false
    → IsSound s
    → IsSound (update_run r s)
unfolding update_run
update_run-IsSound r s e free h = record {
  keyed = λ k x eq. ground (arith, eq_iff r.id k, lookup-insert r.id k r s.runs, h.keyed k x);
  pending = λ k.
      ground (arith, eq_iff r.id k, lookup-insert r.id k r s.runs, h.pending k, h.pending r.id);
}

-- A run under an id that no run has.
pub create_run-IsSound :
    (r : Run) (s : Store)
    → is_waiting r.status ≡ false
    → lookup r.id s.runs ≡ none
    → IsSound s
    → IsSound (create_run r s)
unfolding create_run update_run
create_run-IsSound r s e free h = update_run-IsSound r s e (ap waits free) h

module _ {ℓ} {V : Type ℓ} where
  pub lookup-insert_same : (k : String) (v : V) (m : Dict V) → lookup k (insert k v m) ≡ some v
  lookup-insert_same k v m = ground (arith, lookup-insert k k v m, eq_refl k)

  pub lookup-remove_same : (k : String) (m : Dict V) → lookup k (remove k m) ≡ none
  lookup-remove_same k m = ground (arith, lookup-remove k k m, eq_refl k)
