-- ===== src/Tenant/Controls/Quota.antt =====
-- `Allow` of internal/tenant/controls.go over histories of calls.
use ai_workflow.Base.{
  ℕ, suc, ◌+◌, ◌-◌, ◌≤◌, ◌<◌, ◌≡◌, String, Bool, true, false, Option, none, some, List, [], ◌∷◌,
  leb, if◌then◌else◌, arith, All, ◌==◌, eq_iff, Bool-cases, inl, inr, eq_refl, ◌∙◌,
}
use Prim.Native.Nat.{min}
use ai_workflow.Base.Dict.{lookup, lookup_or, insert, lookup-insert}
use ai_workflow.Tenant.Controls.{
  TriggerControl, TriggerQuota, QuotaBucket, Error, current_bucket, charge, allow,
}

-- A call of `Allow`: the clock and the tenant.
pub record Call : Type 0 where
  pub now : ℕ
  pub tenant_id : String

abbrev pub was_admitted : TriggerControl × TriggerQuota × Option Error → Bool
was_admitted (c, q, none) = true
was_admitted (c, q, some e) = false

-- How many calls of one tenant a history admits.
pub admitted : TriggerControl → String → List Call → ℕ
admitted c t [] = 0
admitted c t (call ∷ calls) =
    let result = allow c call.now call.tenant_id in
    let later = admitted result.0 t calls in
    if call.tenant_id == t then (if was_admitted result then suc later else later) else later

pub calls_of : String → List Call → ℕ
calls_of t [] = 0
calls_of t (call ∷ calls) =
    let later = calls_of t calls in if call.tenant_id == t then suc later else later

-- The tenant's window is open, and every call of the history comes before its end.
pub record InWindow (c : TriggerControl) (t : String) (b : QuotaBucket) : Type 0 where
  pub limited : 0 < c.limit
  pub bucket : lookup t c.quotas ≡ some b
  pub started : 0 < b.window_start
  pub within : b.count ≤ c.limit

abbrev pub BeforeEnd : TriggerControl → QuotaBucket → List Call → Type 0
BeforeEnd c b = All (λ call. call.now < b.window_start + c.window)

-- What one call does inside the window.
allow_mine :
    (c : TriggerControl) (t : String) (b : QuotaBucket) (now : ℕ)
    → InWindow c t b
    → now < b.window_start + c.window
    → allow c now t ≡ charge c t b
unfolding allow current_bucket
allow_mine c t b now h before = ground (arith, h.bucket)

charge_room :
    (c : TriggerControl) (t : String) (b : QuotaBucket)
    → b.count < c.limit
    → (was_admitted (charge c t b) ≡ true)
      × ((charge c t b).0
          ≡ record c { quotas = insert t (record b { count = suc b.count }) c.quotas })
unfolding charge
charge_room c t b h = ground arith

charge_full :
    (c : TriggerControl) (t : String) (b : QuotaBucket)
    → c.limit ≤ b.count
    → (was_admitted (charge c t b) ≡ false) × ((charge c t b).0 ≡ c)
unfolding charge
charge_full c t b h = ground arith

-- A call of another tenant leaves the bucket alone.
allow_other :
    (c : TriggerControl) (t u : String) (now : ℕ)
    → (u == t) ≡ false
    → (lookup t (allow c now u).0.quotas ≡ lookup t c.quotas)
      × ((allow c now u).0.limit ≡ c.limit)
      × ((allow c now u).0.window ≡ c.window)
unfolding allow charge
allow_other c t u now h =
    let b = current_bucket c now (lookup_or (record { window_start = 0; count = 0 }) u c.quotas) in
    ground (arith, lookup-insert u t (record b { count = suc b.count }) c.quotas)

-- While a tenant's window is open, with a positive limit, a history of calls before its end, of any
-- tenants in any order, admits exactly as many of that tenant's calls as it makes, up to what the
-- limit still leaves in the window.
pub admitted-eq-min :
    (c : TriggerControl) (t : String) (b : QuotaBucket) (calls : List Call)
    → InWindow c t b
    → BeforeEnd c b calls
    → admitted c t calls ≡ min (calls_of t calls) (c.limit - b.count)
unfolding admitted calls_of
admitted-eq-min c t b [] h e = omega arith
admitted-eq-min c t b (call ∷ calls) h e = elim (Bool-cases (call.tenant_id == t)) [
  | inr other ↦
      let (same, lim, win) = allow_other c t call.tenant_id call.now other in
      let c' = (allow c call.now call.tenant_id).0 in
      let later =
        admitted-eq-min c' t b calls
          (record {
            limited = rw lim h.limited;
            bucket = same ∙ h.bucket;
            started = h.started;
            within = rw lim h.within;
          })
          (rw win e.1) in
      rw other (later ∙ rw lim)
  | inl mine ↦
      let same = (eq_iff call.tenant_id t).0 mine in
      rw mine (
        rw same (
          rw (allow_mine c t b call.now h e.0) (elim (Bool-cases (leb c.limit b.count)) [
            | inl full ↦
                let spent : c.limit ≤ b.count = ground arith in
                let (no_entry, kept) = charge_full c t b spent in
                rw (no_entry, kept) (omega (arith, admitted-eq-min c t b calls h e.1))
            | inr room ↦
                let left : b.count < c.limit = ground arith in
                let (entry, next) = charge_room c t b left in
                let b' = record b { count = suc b.count } in
                let c' = record c { quotas = insert t b' c.quotas } in
                rw (entry, next)
                  (omega (
                    arith,
                    admitted-eq-min c' t b' calls
                        (record {
                          limited = h.limited;
                          bucket = ground (arith, lookup-insert t t b' c.quotas, eq_refl t);
                          started = h.started;
                          within = ground arith;
                        })
                        e.1,
                  ))
          ])))
]
