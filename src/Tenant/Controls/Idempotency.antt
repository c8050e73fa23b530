-- ===== src/Tenant/Controls/Idempotency.antt =====
-- `Store` and `Lookup` of internal/tenant/controls.go, and the keys that they use.
use ai_workflow.Base.{
  ◌≡◌, ◌≢◌, refl, sym, ap, ◌∙◌, ◌⊎◌, inl, inr, String, true, false, Option, none, some, arith,
  if◌then◌else◌, Bool-cases, ok, err, ◌==◌, eq_iff, eq_refl, trim_space, is_blank,
}
use Prim.Native.Char.{Char, code}
use Prim.Native.String
use text.Mathlib.TextLemmas.{
  append_assoc, nil-append, cons-append, cons-eq-cons, append-eq-nil_iff, cons≢nil,
}
use ai_workflow.Base.Dict.{lookup, lookup-insert}
use ai_workflow.Tenant.Controls.{
  TriggerControl, IdempotencyRecord, idempotency_conflict, record_key, lookup_record, store_record,
  conflicts, check_fingerprint,
}

conflicts_lem :
    (x : Option IdempotencyRecord) (r : IdempotencyRecord)
    → conflicts x r ≡ true
    → (old : IdempotencyRecord) × (x ≡ some old) × ((old.fingerprint == r.fingerprint) ≡ false)
unfolding conflicts
conflicts_lem none r h = absurd (cc h)
conflicts_lem (some old) r h = (old, refl, ground arith)

-- A store under a nonblank key either succeeds, and the same tenant and key then find the record
-- for its fingerprint and conflict for any other; or it is refused as a conflict and changes
-- nothing, and then the record that is there conflicts with the fingerprint.
pub lookup-store :
    (c : TriggerControl) (tenant key fingerprint : String) (r : IdempotencyRecord)
    → is_blank key ≡ false
    → (((store_record c tenant key r).1 ≡ none)
        × (lookup_record (store_record c tenant key r).0 tenant key fingerprint
            ≡ (if r.fingerprint == fingerprint then ok (some r) else err idempotency_conflict)))
      ⊎ (((store_record c tenant key r).1 ≡ some idempotency_conflict)
          × ((store_record c tenant key r).0 ≡ c)
          × (lookup_record c tenant key r.fingerprint ≡ err idempotency_conflict))
unfolding lookup_record store_record is_blank conflicts check_fingerprint
lookup-store c tenant key fingerprint r h =
    let k = record_key tenant (trim_space key) in
    elim (Bool-cases (conflicts (lookup k c.records) r)) [
      | inl clash ↦
          let (old, found, differs) = conflicts_lem (lookup k c.records) r clash in
          inr (simp (h, clash) (refl, refl, rw (found, differs) refl))
      | inr free ↦
          inl (simp (h, free) (refl, ground (arith, lookup-insert k k r c.records, eq_refl k)))
    ]

-- After a store that succeeded, the record is found.
pub lookup-stored :
    (c : TriggerControl) (tenant key : String) (r : IdempotencyRecord)
    → is_blank key ≡ false
    → (store_record c tenant key r).1 ≡ none
    → lookup_record (store_record c tenant key r).0 tenant key r.fingerprint ≡ ok (some r)
lookup-stored c tenant key r h e = elim (lookup-store c tenant key r.fingerprint r h) [
  | inl (_, found) ↦ found ∙ rw (eq_refl r.fingerprint) refl
  | inr (refused, _, _) ↦ absurd (cc (e, refused))
]

-- No character of the text is a colon.
abbrev pub NoColon : String → Type 0
NoColon String.[] = Unit
NoColon (String.◌∷◌ c s) = (code c ≢ b':') × NoColon s

record_key-nil : (k : String) → record_key "" k ≡ String.◌∷◌ ":" k
unfolding record_key
record_key-nil k =
    nil-append (String.◌++◌ ":" k) ∙ cons-append ":" "" k ∙ ap (String.◌∷◌ ":") (nil-append k)

record_key-cons :
    (c : Char) (s k : String) → record_key (String.◌∷◌ c s) k ≡ String.◌∷◌ c (record_key s k)
unfolding record_key
record_key-cons c s k = simp cons-append

-- Storage keys of colon-free tenant ids are equal only for equal tenants.
pub record_key-injective :
    (a b k l : String) → NoColon a → NoColon b → record_key a k ≡ record_key b l → (a ≡ b) × (k ≡ l)
record_key-injective String.[] String.[] k l ha hb e =
    (refl, cc (record_key-nil k, record_key-nil l))
record_key-injective String.[] (String.◌∷◌ c s) k l ha hb e =
    absurd
      (hb.0 (ap code (sym (cons-eq-cons.0 (sym (record_key-nil k) ∙ e ∙ record_key-cons c s l)).0)))
record_key-injective (String.◌∷◌ c s) String.[] k l ha hb e =
    absurd
      (ha.0 (ap code ((cons-eq-cons.0 (sym (record_key-cons c s k) ∙ e ∙ record_key-nil l)).0)))
record_key-injective (String.◌∷◌ c s) (String.◌∷◌ d t) k l ha hb e =
    let (head, tail) = cons-eq-cons.0 (sym (record_key-cons c s k) ∙ e ∙ record_key-cons d t l) in
    let (same, rest) = record_key-injective s t k l ha.1 hb.1 tail in (cc (head, same), rest)

-- Tenants whose ids have no colon do not see one another: whatever one of them stores, under any
-- key, every lookup of the other has the result that it had before.
pub lookup-store_ne :
    (c : TriggerControl) (a b key other fingerprint : String) (r : IdempotencyRecord)
    → NoColon a
    → NoColon b
    → a ≢ b
    → lookup_record (store_record c a key r).0 b other fingerprint
      ≡ lookup_record c b other fingerprint
unfolding lookup_record store_record
lookup-store_ne c a b key other fingerprint r ha hb ne =
    let j = record_key a (trim_space key) in
    let k = record_key b (trim_space other) in
    ground (
      arith,
      lookup-insert j k r c.records,
      eq_iff j k,
      record_key-injective a b (trim_space key) (trim_space other),
    )

-- The key under which tenant `a` reads what tenant `a:x` stored under `key`.
abbrev pub meeting_key : String → String → String
meeting_key x key = String.◌++◌ x (String.◌++◌ ":" (trim_space key))

-- A text with a colon in it is not empty.
meeting_key-ne-nil : (x key : String) → meeting_key x key ≢ ""
meeting_key-ne-nil x key e =
    let (_, e1) = append-eq-nil_iff.0 e in let (colon, _) = append-eq-nil_iff.0 e1 in cons≢nil colon

-- With colons in tenant ids the tenants do meet: what tenant `a:x` stored under a nonblank key,
-- tenant `a` finds under `x:` and that key, if the store succeeded and this text has no space
-- around it.
pub tenants_meet :
    (c : TriggerControl) (a x key : String) (r : IdempotencyRecord)
    → is_blank key ≡ false
    → trim_space (meeting_key x key) ≡ meeting_key x key
    → (store_record c (record_key a x) key r).1 ≡ none
    → lookup_record (store_record c (record_key a x) key r).0 a (meeting_key x key) r.fingerprint
      ≡ ok (some r)
unfolding lookup_record store_record is_blank record_key
tenants_meet c a x key r h t s =
    let shared = meeting_key x key in
    let j = record_key (record_key a x) (trim_space key) in
    let k = record_key a (trim_space shared) in
    ground (
      arith,
      lookup-insert j k r c.records,
      eq_iff j k,
      eq_refl r.fingerprint,
      eq_iff (trim_space shared) "",
      meeting_key-ne-nil x key,
      append_assoc a (String.◌++◌ ":" x) (String.◌++◌ ":" (trim_space key)),
      append_assoc ":" x (String.◌++◌ ":" (trim_space key)),
    )
