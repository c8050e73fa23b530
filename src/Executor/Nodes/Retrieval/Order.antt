-- ===== src/Executor/Nodes/Retrieval/Order.antt =====
-- The order in which `executeRetrieval` of internal/executor/nodes.go puts its results.
use ai_workflow.Base.{
  ◌≤◌, ◌<◌, ◌≡◌, refl, sym, ◌⊎◌, inl, inr, true, false, List, [], ◌∷◌, arith, ltb, leb, Bool-cases,
}
use Prim.Native.Nat.{Ordering}
use Prim.Native.String as Text
use text.Mathlib.TextEquality.{path_by_compare}
use ai_workflow.Base.Sorting.{IsSorted, compare-swap}
use ai_workflow.Executor.Nodes.Retrieval.{Scored, ranks_before}

-- A higher score comes first, of equal scores the lower id of the document, and of the chunks of
-- one document the lower index.
abbrev pub InOrder : Scored → Scored → Type 0
InOrder a b =
    (b.score < a.score)
    ⊎ ((a.score ≡ b.score)
        × ((Text.compare a.chunk.document_id b.chunk.document_id ≡ Ordering.lt)
            ⊎ ((a.chunk.document_id ≡ b.chunk.document_id)
                × (a.chunk.chunk_index ≤ b.chunk.chunk_index))))

-- Each result is in order with the next.
abbrev pub IsRanked : List Scored → Type 0
IsRanked [] = Unit
IsRanked (a ∷ []) = Unit
IsRanked (a ∷ b ∷ rs) = InOrder a b × IsRanked (b ∷ rs)

pub ranks_before-total : (a b : Scored) → ranks_before a b ≡ false → ranks_before b a ≡ true
unfolding ranks_before
ranks_before-total a b h = ground (
  arith,
  h,
  compare-swap a.chunk.document_id b.chunk.document_id,
  compare-swap b.chunk.document_id a.chunk.document_id,
)

ranks_before-InOrder : (a b : Scored) → ranks_before a b ≡ true → InOrder a b
unfolding ranks_before
ranks_before-InOrder a b h = elim (Bool-cases (ltb b.score a.score)) [
  | inl higher ↦ inl (ground (arith, higher))
  | inr lower ↦ elim (Bool-cases (ltb a.score b.score)) [
    | inl less ↦ absurd (ground (arith, h, lower, less))
    | inr more ↦ inr (
      ground (arith, lower, more),
      by_document (Text.compare a.chunk.document_id b.chunk.document_id) refl
          (rw (sym h) (rw (lower, more) refl)),
    )
  ]
]
  where
    by_document :
        (o : Ordering)
        → Text.compare a.chunk.document_id b.chunk.document_id ≡ o
        → (elim o [
          | Ordering.lt ↦ true
          | Ordering.gt ↦ false
          | Ordering.eq ↦ leb a.chunk.chunk_index b.chunk.chunk_index
        ])
          ≡ true
        → (Text.compare a.chunk.document_id b.chunk.document_id ≡ Ordering.lt)
          ⊎ ((a.chunk.document_id ≡ b.chunk.document_id)
              × (a.chunk.chunk_index ≤ b.chunk.chunk_index))
    by_document Ordering.lt e k = inl e
    by_document Ordering.gt e k = absurd (cc k)
    by_document Ordering.eq e k =
        inr (path_by_compare a.chunk.document_id b.chunk.document_id e, ground (arith, k))

-- What the test orders is in order.
pub IsSorted-IsRanked : (rs : List Scored) → IsSorted ranks_before rs → IsRanked rs
IsSorted-IsRanked [] h = tt
IsSorted-IsRanked (a ∷ []) h = tt
IsSorted-IsRanked (a ∷ b ∷ rs) (first, rest) =
    (ranks_before-InOrder a b first, IsSorted-IsRanked (b ∷ rs) rest)
