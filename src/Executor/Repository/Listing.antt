-- ===== src/Executor/Repository/Listing.antt =====
-- Whose runs `ListRuns` of internal/executor/repository.go lists.
use ai_workflow.Base.{
  ◌≡◌, inl, inr, String, ◌&&◌, Option, List, [], ◌∷◌, arith, Bool-cases, All, ◌==◌, eq_iff,
}
use ai_workflow.Base.Dict.{Dict}
use ai_workflow.Executor.{Run, RunStatus}
use ai_workflow.Executor.Repository.{
  Store, has_status, select_runs, comes_first, insert_run, sort_runs, list_runs,
}

module _ (tenant_id : String) where
  select_runs-owned :
      (status : Option RunStatus) (stored : Dict Run)
      → All (λ r. r.tenant_id ≡ tenant_id) (select_runs tenant_id status stored)
  unfolding select_runs
  select_runs-owned status [] = tt
  select_runs-owned status ((_, r) ∷ stored) =
      elim (Bool-cases (r.tenant_id == tenant_id && has_status status r)) [
        | inl taken ↦ rw taken (
          (eq_iff r.tenant_id tenant_id).0 (ground (arith, taken)),
          select_runs-owned status stored,
        )
        | inr skipped ↦ rw skipped (select_runs-owned status stored)
      ]

  module _ (P : Run → Type 0) where
    All-insert_run : (a : Run) (runs : List Run) → P a → All P runs → All P (insert_run a runs)
    unfolding insert_run
    All-insert_run a [] h hs = (h, tt)
    All-insert_run a (b ∷ runs) h (k, hs) = elim (Bool-cases (comes_first a b)) [
      | inl first ↦ rw first (h, (k, hs))
      | inr later ↦ rw later (k, All-insert_run a runs h hs)
    ]

    All-sort_runs : (runs : List Run) → All P runs → All P (sort_runs runs)
    unfolding sort_runs
    All-sort_runs [] hs = tt
    All-sort_runs (a ∷ runs) (h, hs) = All-insert_run a (sort_runs runs) h (All-sort_runs runs hs)

  -- The runs that are listed for a tenant are its own.
  pub list_runs-owned :
      (status : Option RunStatus) (s : Store)
      → All (λ r. r.tenant_id ≡ tenant_id) (list_runs tenant_id status s)
  unfolding list_runs
  list_runs-owned status s =
      All-sort_runs (λ r. r.tenant_id ≡ tenant_id) (select_runs tenant_id status s.runs)
        (select_runs-owned status s.runs)
