-- ===== src/Base/Sorting.antt =====
-- `slices.SortFunc` as an insertion sort: a test says when one element may stand before another.
use Prim.Native.Nat.{Ordering}
use Prim.Native.String as Text
use Prim.Native.String.{String}
use mathlib.Core.Path.{◌≡◌}
use mathlib.Core.Bool.{Bool, true, false}
use mathlib.Core.Logic.{inl, inr}
use mathlib.Core.List.{List, [], ◌∷◌, Perm}
use mathlib.Core.List.Perm
use native.Mathlib.Omega.{arith}
use text.Mathlib.TextPositions.{compare_refl}
use ai_workflow.Base.Lists.{All}
use ai_workflow.Base.Tests.{if◌then◌else◌, Bool-cases}

module _ {ℓ} {A : Type ℓ} (before : A → A → Bool) where
  pub insert_by : A → List A → List A
  insert_by a [] = a ∷ []
  insert_by a (b ∷ xs) = let rest = insert_by a xs in if before a b then a ∷ b ∷ xs else b ∷ rest

  unfoldable pub sort_by : List A → List A
  unfolding insert_by
  sort_by [] = []
  sort_by (a ∷ xs) = insert_by a (sort_by xs)

  -- Each element may stand before the next.
  abbrev pub Follows : A → List A → Type 0
  Follows a [] = Unit
  Follows a (b ∷ xs) = before a b ≡ true

  abbrev pub IsSorted : List A → Type 0
  IsSorted [] = Unit
  IsSorted (a ∷ xs) = Follows a xs × IsSorted xs

  insert_by-perm : (a : A) (xs : List A) → Perm (insert_by a xs) (a ∷ xs)
  unfolding insert_by
  insert_by-perm a [] = Perm.refl (a ∷ [])
  insert_by-perm a (b ∷ xs) = elim (Bool-cases (before a b)) [
    | inl first ↦ rw first (Perm.refl (a ∷ b ∷ xs))
    | inr later ↦ rw later (Perm.trans (Perm.cons b (insert_by-perm a xs)) (Perm.swap a b xs))
  ]

  -- Sorting keeps the elements.
  pub sort_by-perm : (xs : List A) → Perm (sort_by xs) xs
  unfolding sort_by
  sort_by-perm [] = Perm.refl []
  sort_by-perm (a ∷ xs) = Perm.trans (insert_by-perm a (sort_by xs)) (Perm.cons a (sort_by-perm xs))

  module _ {κ} (P : A → Type κ) where
    All-insert_by : (a : A) (xs : List A) → P a → All P xs → All P (insert_by a xs)
    unfolding insert_by
    All-insert_by a [] h hs = (h, tt)
    All-insert_by a (b ∷ xs) h (k, hs) = elim (Bool-cases (before a b)) [
      | inl first ↦ rw first (h, (k, hs))
      | inr later ↦ rw later (k, All-insert_by a xs h hs)
    ]

    pub All-sort_by : (xs : List A) → All P xs → All P (sort_by xs)
    unfolding sort_by
    All-sort_by [] h = tt
    All-sort_by (a ∷ xs) (h, hs) = All-insert_by a (sort_by xs) h (All-sort_by xs hs)

  module _ (total : (a b : A) → before a b ≡ false → before b a ≡ true) where
    insert_by-Follows :
        (c a : A) (xs : List A) → before c a ≡ true → Follows c xs → Follows c (insert_by a xs)
    unfolding insert_by
    insert_by-Follows c a [] h f = h
    insert_by-Follows c a (b ∷ xs) h f = elim (Bool-cases (before a b)) [
      | inl first ↦ rw first h
      | inr later ↦ rw later f
    ]

    insert_by-IsSorted : (a : A) (xs : List A) → IsSorted xs → IsSorted (insert_by a xs)
    unfolding insert_by
    insert_by-IsSorted a [] s = (tt, tt)
    insert_by-IsSorted a (b ∷ xs) s = elim (Bool-cases (before a b)) [
      | inl first ↦ rw first (first, s)
      | inr later ↦
          rw later (insert_by-Follows b a xs (total a b later) s.0, insert_by-IsSorted a xs s.1)
    ]

    pub sort_by-IsSorted : (xs : List A) → IsSorted (sort_by xs)
    unfolding sort_by
    sort_by-IsSorted [] = tt
    sort_by-IsSorted (a ∷ xs) = insert_by-IsSorted a (sort_by xs) (sort_by-IsSorted xs)

-- `strings.Compare` of two texts is that of the swapped texts, turned round.
pub compare-swap : (s t : String) → Text.compare s t ≡ Ordering.gt → Text.compare t s ≡ Ordering.lt
compare-swap String.[] String.[] h = cc (h, compare_refl "")
compare-swap String.[] (String.◌∷◌ d t) h = cc (h, Text.compare.nil-cons d t)
compare-swap (String.◌∷◌ c s) String.[] h = Text.compare.nil-cons c s
compare-swap (String.◌∷◌ c s) (String.◌∷◌ d t) h =
    ground
      (arith, h, Text.compare.cons-cons c d s t, Text.compare.cons-cons d c t s, compare-swap s t)
