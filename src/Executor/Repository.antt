-- ===== src/Executor/Repository.antt =====
-- The in-memory repository of runs (internal/executor/service.go). A method holds the mutex
-- throughout; slices and maps are copied on the way in and out, so a stored value is not shared.
pub mod Laws
pub mod Loading
pub mod Listing
use ai_workflow.Base.{
  String, Bool, true, false, ◌&&◌, Option, none, some, List, [], ◌∷◌, ltb, if◌then◌else◌, Result,
  ok, err, ◌==◌,
}
use Prim.Native.Nat.{Ordering}
use Prim.Native.String as Text
use ai_workflow.Base.Dict.{Dict, lookup, lookup_or, insert, remove}
use ai_workflow.Executor.{Run, RunStatus, RunStatus-discrete, Step, PendingState}
use mathlib.Core.Logic.{ite}

pub data RepositoryError : Type 0 where
  run_not_found not_awaiting_review : RepositoryError

pub record Store : Type 0 where
  pub runs : Dict Run
  pub steps : Dict (List Step)
  pub pending : Dict PendingState

abbrev pub empty_store : Store
empty_store = record { runs = []; steps = []; pending = [] }

unfoldable pub create_run : Run → Store → Store
create_run r s = record s { runs = insert r.id r s.runs }

unfoldable pub update_run : Run → Store → Store
update_run r s = record s { runs = insert r.id r s.runs }

unfoldable pub complete_run : Run → List Step → Store → Store
complete_run r steps s = record {
  runs = insert r.id r s.runs;
  steps = insert r.id steps s.steps;
  pending = remove r.id s.pending;
}

unfoldable pub save_pending : Run → List Step → PendingState → Store → Store
save_pending r steps p s = record {
  runs = insert r.id r s.runs;
  steps = insert r.id steps s.steps;
  pending = insert r.id p s.pending;
}

pub of_tenant : String → Option Run → Result RepositoryError Run
of_tenant tenant_id none = err run_not_found
of_tenant tenant_id (some r) = if r.tenant_id == tenant_id then ok r else err run_not_found

unfoldable pub get_run : String → String → Store → Result RepositoryError Run
unfolding of_tenant
get_run tenant_id run_id s = of_tenant tenant_id (lookup run_id s.runs)

pub record Loaded : Type 0 where
  pub run : Run
  pub steps : List Step
  pub pending : PendingState

pub with_pending :
    List Step → Option PendingState → Result RepositoryError Run → Result RepositoryError Loaded
with_pending steps p (err e) = err e
with_pending steps none (ok r) = err not_awaiting_review
with_pending steps (some p) (ok r) = ok (record { run = r; steps = steps; pending = p })

unfoldable pub load_pending : String → String → Store → Result RepositoryError Loaded
unfolding with_pending
load_pending tenant_id run_id s =
    with_pending (lookup_or [] run_id s.steps) (lookup run_id s.pending)
      (get_run tenant_id run_id s)

pub with_steps : List Step → Result RepositoryError Run → Result RepositoryError (List Step)
with_steps steps (err e) = err e
with_steps steps (ok r) = ok steps

unfoldable pub list_steps : String → String → Store → Result RepositoryError (List Step)
unfolding with_steps
list_steps tenant_id run_id s =
    with_steps (lookup_or [] run_id s.steps) (get_run tenant_id run_id s)

-- `none` is the empty status, which lets every run through.
has_status : Option RunStatus → Run → Bool
has_status none r = true
has_status (some status) r = ite (RunStatus-discrete r.status status) true false

select_runs : String → Option RunStatus → Dict Run → List Run
select_runs tenant_id status [] = []
select_runs tenant_id status ((_, r) ∷ runs) =
    let rest = select_runs tenant_id status runs in
    if r.tenant_id == tenant_id && has_status status r then r ∷ rest else rest

-- The comparison of `ListRuns`: later first, then by id.
comes_first : Run → Run → Bool
comes_first a b =
    if ltb b.created_at a.created_at
    then true
    else if ltb a.created_at b.created_at
    then false
    else elim (Text.compare a.id b.id) [ Ordering.gt ↦ false | _ ↦ true ]

insert_run : Run → List Run → List Run
insert_run a [] = a ∷ []
insert_run a (b ∷ runs) =
    let rest = insert_run a runs in if comes_first a b then a ∷ b ∷ runs else b ∷ rest

sort_runs : List Run → List Run
sort_runs [] = []
sort_runs (a ∷ runs) = insert_run a (sort_runs runs)

-- Ids are unique in the map, so the order that `slices.SortFunc` makes is this one.
unfoldable pub list_runs : String → Option RunStatus → Store → List Run
unfolding has_status select_runs comes_first insert_run sort_runs
list_runs tenant_id status s = sort_runs (select_runs tenant_id status s.runs)
