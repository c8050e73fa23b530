-- ===== src/Bootstrap/Keys.antt =====
-- What internal/platform/config/bootstrap.go makes of the texts that it accepts.
use ai_workflow.Base.{
  ◌≡◌, ◌+◌, refl, ap, String, ℕ, true, false, List, [], ◌∷◌, arith, Result, ok, err, trim_space,
  is_blank, if◌then◌else◌, Bool-cases, length, All, inl, inr,
}
use ai_workflow.Base.Trim.{trim_space-trim_space}
use ai_workflow.Bootstrap.{
  BootstrapApiKey, Error, prepend, split, parse_fields, parse_items, parse_bootstrap_api_keys,
}

-- A text that is not blank and has no white space around it.
pub record IsClean (s : String) : Type 0 where
  pub given : is_blank s ≡ false
  pub trimmed : trim_space s ≡ s

pub record IsCleanKey (key : BootstrapApiKey) : Type 0 where
  pub tenant_id : IsClean key.tenant_id
  pub tenant_name : IsClean key.tenant_name
  pub plaintext_key : IsClean key.plaintext_key

trim_space-IsClean :
    (s trimmed : String) → is_blank s ≡ false → trimmed ≡ trim_space s → IsClean trimmed
unfolding is_blank
trim_space-IsClean s trimmed e same = record {
  given = ground (arith, e, same, ap trim_space same, trim_space-trim_space s);
  trimmed = cc (same, ap trim_space same, trim_space-trim_space s);
}

-- Both results that make up a list are successes.
prepend-ok :
    (r : Result Error BootstrapApiKey) (rs : Result Error (List BootstrapApiKey))
    → (key : BootstrapApiKey) (keys : List BootstrapApiKey) → prepend r rs ≡ ok (key ∷ keys)
    → (r ≡ ok key) × (rs ≡ ok keys)
prepend-ok r (err e) key keys h = absurd (ground (arith, h))
prepend-ok (err e) (ok ks) key keys h = absurd (ground (arith, h))
prepend-ok (ok k) (ok ks) key keys h = (ground (arith, h), ground (arith, h))

prepend-nonempty :
    (r : Result Error BootstrapApiKey) (rs : Result Error (List BootstrapApiKey))
    → ¬ (prepend r rs ≡ ok [])
prepend-nonempty (err e) rs h = ground (arith, h)
prepend-nonempty (ok k) (err e) h = ground (arith, h)
prepend-nonempty (ok k) (ok ks) h = ground (arith, h)

-- The number of entries of the variable.
abbrev pub entries : String → ℕ
entries raw = if is_blank raw then 0 else length (split b',' (trim_space raw))

module _ (decimal : ℕ → String) where
  parse_fields-IsCleanKey :
      (index : ℕ) (item : String) (fields : List String) (key : BootstrapApiKey)
      → parse_fields decimal index item fields ≡ ok key
      → IsCleanKey key
  unfolding parse_fields
  parse_fields-IsCleanKey index item [] key e = absurd (ground (arith, e))
  parse_fields-IsCleanKey index item (a ∷ []) key e = absurd (ground (arith, e))
  parse_fields-IsCleanKey index item (a ∷ b ∷ []) key e = absurd (ground (arith, e))
  parse_fields-IsCleanKey index item (a ∷ b ∷ c ∷ d ∷ rest) key e = absurd (ground (arith, e))
  parse_fields-IsCleanKey index item (a ∷ b ∷ c ∷ []) key e = record {
    tenant_id = trim_space-IsClean a key.tenant_id (ground (arith, e)) (ground (arith, e));
    tenant_name = trim_space-IsClean b key.tenant_name (ground (arith, e)) (ground (arith, e));
    plaintext_key = trim_space-IsClean c key.plaintext_key (ground (arith, e)) (ground (arith, e));
  }

  parse_items-IsCleanKey :
      (index : ℕ) (items : List String) (keys : List BootstrapApiKey)
      → parse_items decimal index items ≡ ok keys
      → All IsCleanKey keys × (length keys ≡ length items)
  unfolding parse_items
  parse_items-IsCleanKey index [] [] e = (tt, refl)
  parse_items-IsCleanKey index [] (key ∷ keys) e = absurd (ground (arith, e))
  parse_items-IsCleanKey index (item ∷ items) [] e = absurd (
      prepend-nonempty (parse_fields decimal index item (split b'|' (trim_space item)))
        (parse_items decimal (index + 1) items) e)
  parse_items-IsCleanKey index (item ∷ items) (key ∷ keys) e =
      let (first, rest) =
        prepend-ok (parse_fields decimal index item (split b'|' (trim_space item)))
          (parse_items decimal (index + 1) items) key keys e in
      let (clean, size) = parse_items-IsCleanKey (index + 1) items keys rest in
      (
        (parse_fields-IsCleanKey index item (split b'|' (trim_space item)) key first, clean),
        omega (arith, size),
      )

module _ (decimal : ℕ → String) (raw : String) where
  parse_blank_lem :
      (keys : List BootstrapApiKey)
      → is_blank raw ≡ true
      → parse_bootstrap_api_keys decimal raw ≡ ok keys
      → All IsCleanKey keys × (length keys ≡ entries raw)
  unfolding parse_bootstrap_api_keys
  parse_blank_lem [] blank e = (tt, ground (arith, blank))
  parse_blank_lem (key ∷ keys) blank e = absurd (ground (arith, blank, e))

  parse_given_lem :
      (keys : List BootstrapApiKey)
      → is_blank raw ≡ false
      → parse_bootstrap_api_keys decimal raw ≡ ok keys
      → All IsCleanKey keys × (length keys ≡ entries raw)
  unfolding parse_bootstrap_api_keys
  parse_given_lem keys given e =
      let (clean, size) =
        parse_items-IsCleanKey decimal 0 (split b',' (trim_space raw)) keys
          (ground (arith, given, e)) in
      (clean, ground (arith, given, size))

-- Parsing that succeeds gives one key for each entry between the commas of the variable, none for a
-- blank variable, and the tenant id, tenant name and plaintext of every key are not blank and have
-- no white space around them.
pub parse_bootstrap_api_keys-IsCleanKey :
    (decimal : ℕ → String) (raw : String) (keys : List BootstrapApiKey)
    → parse_bootstrap_api_keys decimal raw ≡ ok keys
    → All IsCleanKey keys × (length keys ≡ entries raw)
parse_bootstrap_api_keys-IsCleanKey decimal raw keys e = elim (Bool-cases (is_blank raw)) [
  | inl blank ↦ parse_blank_lem decimal raw keys blank e
  | inr given ↦ parse_given_lem decimal raw keys given e
]
