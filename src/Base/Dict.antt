-- ===== src/Base/Dict.antt =====
-- Go maps with string keys, as association lists with one entry for each key. `nil` is the empty
-- map.
use native.Mathlib.Omega.{arith}
use Prim.Native.String.{String}
use mathlib.Core.Path.{◌≡◌, refl, ap}
use mathlib.Core.Bool.{Bool, true, false, ◌||◌}
use mathlib.Core.Option.{Option, none, some}
use ai_workflow.Base.Tests.{if◌then◌else◌}
use ai_workflow.Base.Lists.{contains}
use mathlib.Core.List.{List, [], ◌∷◌, ◌++◌}
use text.Mathlib.Text.{◌==◌}
use text.Mathlib.TextEquality.{eq_iff}

abbrev pub Dict {ℓ} : Type ℓ → Type ℓ
Dict V = List (String × V)

module _ {ℓ} {V : Type ℓ} where
  -- `v, ok := m[k]`
  unfoldable pub lookup : String → Dict V → Option V
  lookup key ((other, value) ∷ rest) = if other == key then some value else lookup key rest
  lookup key [] = none

  -- `m[k] = v`
  unfoldable pub insert : String → V → Dict V → Dict V
  insert key value ((other, old) ∷ rest) =
      let tail = insert key value rest in
      if other == key then (key, value) ∷ rest else (other, old) ∷ tail
  insert key value [] = (key, value) ∷ []

  -- `delete(m, k)`
  unfoldable pub remove : String → Dict V → Dict V
  remove key ((other, value) ∷ rest) =
      let tail = remove key rest in if other == key then tail else (other, value) ∷ tail
  remove key [] = []

  pub lookup-insert :
      (key read : String) (value : V) (dict : Dict V)
      → lookup read (insert key value dict) ≡ (if key == read then some value else lookup read dict)
  unfolding lookup insert
  lookup-insert key read value ((other, old) ∷ rest) =
      let found = lookup-insert key read value rest in
      ground (arith, found, eq_iff other key, eq_iff other read, eq_iff key read)
  lookup-insert key read value [] = refl

  pub lookup-remove :
      (key read : String) (dict : Dict V)
      → lookup read (remove key dict) ≡ (if key == read then none else lookup read dict)
  unfolding lookup remove
  lookup-remove key read ((other, value) ∷ rest) =
      let found = lookup-remove key read rest in
      ground (arith, found, eq_iff other key, eq_iff other read, eq_iff key read)
  lookup-remove key read [] = ground arith

  -- `m[k]`, with the zero value of the element type for a missing key.
  abbrev pub lookup_or : V → String → Dict V → V
  lookup_or zero_value k m = elim (lookup k m) [ none ↦ zero_value | some v ↦ v ]

  abbrev pub has_key : String → Dict V → Bool
  has_key k m = elim (lookup k m) [ none ↦ false | some _ ↦ true ]

-- A `map[string]bool` read as a set.
abbrev pub is_set : String → Dict Bool → Bool
is_set = lookup_or false

pub is_set-insert :
    (k j : String) (m : Dict Bool) → is_set j (insert k true m) ≡ (k == j || is_set j m)
is_set-insert k j m = ground (arith, lookup-insert k j true m)

pub is_set-remove :
    (k j : String) (m : Dict Bool) → is_set j (remove k m) ≡ (if k == j then false else is_set j m)
is_set-remove k j m = ground (arith, lookup-remove k j m)

pub ruleset dict_laws = (lookup-insert, lookup-remove)

module _ {ℓ} {V : Type ℓ} where
  abbrev pub keys : Dict V → List String
  keys [] = []
  keys ((k, _) ∷ m) = k ∷ keys m

  pub has_key-eq-contains : (k : String) (m : Dict V) → has_key k m ≡ contains k (keys m)
  unfolding lookup
  has_key-eq-contains k [] = refl
  has_key-eq-contains k ((j, v) ∷ m) = ground (arith, has_key-eq-contains k m)

  -- A new key goes to the end.
  pub insert-eq-concat :
      (k : String) (v : V) (m : Dict V)
      → contains k (keys m) ≡ false
      → insert k v m ≡ m ++ (k, v) ∷ []
  unfolding insert
  insert-eq-concat k v [] h = refl
  insert-eq-concat k v ((j, w) ∷ m) h = ground (arith, insert-eq-concat k v m)

  pub keys-append : (m n : Dict V) → keys (m ++ n) ≡ keys m ++ keys n
  keys-append [] n = refl
  keys-append ((k, v) ∷ m) n = ap (◌∷◌ k) (keys-append m n)
