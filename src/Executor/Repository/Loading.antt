-- ===== src/Executor/Repository/Loading.antt =====
-- The repository of runs (internal/executor/service.go): what can be loaded, and by whom.
use ai_workflow.Base.{
  ◌≡◌, ◌≢◌, refl, sym, ap, ◌∙◌, inl, inr, String, false, Option, none, some, List, [], arith,
  if◌then◌else◌, Bool-cases, Result, ok, err, ◌==◌, eq_iff, eq_refl,
}
use ai_workflow.Base.Dict.{lookup, lookup_or, has_key}
use ai_workflow.Executor.{Run, Step, PendingState}
use ai_workflow.Executor.Repository.{
  Store, Loaded, RepositoryError, of_tenant, with_pending, with_steps, list_steps,
  not_awaiting_review, run_not_found, complete_run, save_pending, get_run, load_pending,
}
use ai_workflow.Executor.Repository.Laws.{
  IsSound, is_waiting, waits, lookup-insert_same, lookup-remove_same,
}

of_tenant-eq-ok :
    (tenant_id : String) (x : Option Run) (r : Run)
    → of_tenant tenant_id x ≡ ok r
    → (x ≡ some r) × (r.tenant_id ≡ tenant_id)
unfolding of_tenant
of_tenant-eq-ok tenant_id none r h = absurd (cc h)
of_tenant-eq-ok tenant_id (some x) r h = elim (Bool-cases (x.tenant_id == tenant_id)) [
  | inl e ↦
      let same : ok x ≡ ok r = simp e at h in
      let x_is_r : x ≡ r = cc same in
      (
        ap some x_is_r,
        ap (λ (y : Run). y.tenant_id) (sym x_is_r) ∙ (eq_iff x.tenant_id tenant_id).0 e,
      )
  | inr e ↦ absurd (cc (simp e at h))
]

pub get_run-eq-ok :
    (tenant_id run_id : String) (r : Run) (s : Store)
    → get_run tenant_id run_id s ≡ ok r
    → (lookup run_id s.runs ≡ some r) × (r.tenant_id ≡ tenant_id)
unfolding get_run
get_run-eq-ok tenant_id run_id r s h = of_tenant-eq-ok tenant_id (lookup run_id s.runs) r h

with_pending-eq-ok :
    (steps : List Step) (p : Option PendingState) (x : Result RepositoryError Run) (l : Loaded)
    → with_pending steps p x ≡ ok l
    → (x ≡ ok l.run) × (p ≡ some l.pending) × (steps ≡ l.steps)
unfolding with_pending
with_pending-eq-ok steps p (err e) l h = absurd (cc h)
with_pending-eq-ok steps none (ok r) l h = absurd (cc h)
with_pending-eq-ok steps (some p) (ok r) l h =
    let same : record { run = r; steps = steps; pending = p } ≡ l = cc h in
    (
      ap (λ (x : Loaded). ok x.run) same,
      ap (λ (x : Loaded). some x.pending) same,
      ap (λ (x : Loaded). x.steps) same,
    )

pub load_pending-eq-ok :
    (tenant_id run_id : String) (l : Loaded) (s : Store)
    → load_pending tenant_id run_id s ≡ ok l
    → (lookup run_id s.runs ≡ some l.run)
      × (l.run.tenant_id ≡ tenant_id)
      × (lookup run_id s.pending ≡ some l.pending)
      × (lookup_or [] run_id s.steps ≡ l.steps)
unfolding load_pending
load_pending-eq-ok tenant_id run_id l s h =
    let (got, pending, steps) =
      with_pending-eq-ok (lookup_or [] run_id s.steps) (lookup run_id s.pending)
        (get_run tenant_id run_id s) l h in
    let (run, owner) = get_run-eq-ok tenant_id run_id l.run s got in (run, owner, pending, steps)

pub get_run_stored :
    (k : String) (r : Run) (s : Store) → lookup k s.runs ≡ some r → get_run r.tenant_id k s ≡ ok r
unfolding get_run of_tenant
get_run_stored k r s e = simp (e, eq_refl) refl

load_pending_lem :
    (tenant_id k : String) (r : Run) (p : Option PendingState) (steps : List Step) (s : Store)
    → lookup k s.runs ≡ some r
    → lookup k s.pending ≡ p
    → lookup_or [] k s.steps ≡ steps
    → load_pending tenant_id k s
      ≡ with_pending steps p (if r.tenant_id == tenant_id then ok r else err run_not_found)
unfolding load_pending get_run of_tenant
load_pending_lem tenant_id k r p steps s run pending done = rw (run, pending, done) refl

module _ (r : Run) (steps : List Step) (s : Store) where
  load-saved :
      (p : PendingState) (tenant_id : String)
      → load_pending tenant_id r.id (save_pending r steps p s)
        ≡ with_pending steps (some p) (if r.tenant_id == tenant_id then ok r else err run_not_found)
  unfolding save_pending
  load-saved p tenant_id =
      load_pending_lem tenant_id r.id r (some p) steps (save_pending r steps p s)
        (lookup-insert_same r.id r s.runs) (lookup-insert_same r.id p s.pending)
        (ground (arith, lookup-insert_same r.id steps s.steps))

  pub load-completed :
      load_pending r.tenant_id r.id (complete_run r steps s) ≡ err not_awaiting_review
  unfolding complete_run with_pending
  load-completed =
      load_pending_lem r.tenant_id r.id r none steps (complete_run r steps s)
        (lookup-insert_same r.id r s.runs) (lookup-remove_same r.id s.pending)
        (ground (arith, lookup-insert_same r.id steps s.steps))
      ∙ rw (eq_refl r.tenant_id) refl

-- What is saved for a waiting run is loaded again by its tenant, whatever was stored before;
-- another tenant is told that there is no such run; and once a run with the same id is completed,
-- nothing is pending for it.
pub load-save_pending :
    (r r' : Run) (steps steps' : List Step) (p : PendingState) (other : String) (s : Store)
    → r'.id ≡ r.id
    → r.tenant_id ≢ other
    → (load_pending r.tenant_id r.id (save_pending r steps p s)
        ≡ ok (record { run = r; steps = steps; pending = p }))
      × (load_pending other r.id (save_pending r steps p s) ≡ err run_not_found)
      × (load_pending r'.tenant_id r.id (complete_run r' steps' (save_pending r steps p s))
          ≡ err not_awaiting_review)
unfolding with_pending
load-save_pending r r' steps steps' p other s same foreign = (
  load-saved r steps s p r.tenant_id ∙ rw (eq_refl r.tenant_id) refl,
  load-saved r steps s p other ∙ ground (arith, eq_iff r.tenant_id other),
  ap (λ k. load_pending r'.tenant_id k (complete_run r' steps' (save_pending r steps p s)))
        (sym same)
      ∙ load-completed r' steps' (save_pending r steps p s),
)

-- A run that is stored but does not wait has nothing to load in a sound store.
pub load_pending-not_waiting :
    (r : Run) (s : Store)
    → IsSound s
    → lookup r.id s.runs ≡ some r
    → is_waiting r.status ≡ false
    → load_pending r.tenant_id r.id s ≡ err not_awaiting_review
unfolding with_pending
load_pending-not_waiting r s h found status =
    let left : has_key r.id s.pending ≡ false = h.pending r.id ∙ ap waits found ∙ status in
    let gone : lookup r.id s.pending ≡ none = ground arith in
    load_pending_lem r.tenant_id r.id r none (lookup_or [] r.id s.steps) s found gone refl
    ∙ rw (eq_refl r.tenant_id) refl

pub get_run-foreign :
    (tenant_id run_id : String) (r : Run) (s : Store)
    → lookup run_id s.runs ≡ some r
    → r.tenant_id ≢ tenant_id
    → get_run tenant_id run_id s ≡ err run_not_found
unfolding get_run of_tenant
get_run-foreign tenant_id run_id r s found foreign =
    simp found (ground (arith, eq_iff r.tenant_id tenant_id))

pub load_pending-foreign :
    (tenant_id run_id : String) (r : Run) (s : Store)
    → lookup run_id s.runs ≡ some r
    → r.tenant_id ≢ tenant_id
    → load_pending tenant_id run_id s ≡ err run_not_found
unfolding load_pending with_pending
load_pending-foreign tenant_id run_id r s found foreign =
    rw (get_run-foreign tenant_id run_id r s found foreign) refl

pub list_steps-foreign :
    (tenant_id run_id : String) (r : Run) (s : Store)
    → lookup run_id s.runs ≡ some r
    → r.tenant_id ≢ tenant_id
    → list_steps tenant_id run_id s ≡ err run_not_found
unfolding list_steps with_steps
list_steps-foreign tenant_id run_id r s found foreign =
    rw (get_run-foreign tenant_id run_id r s found foreign) refl
