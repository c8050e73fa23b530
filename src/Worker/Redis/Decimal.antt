-- ===== src/Worker/Redis/Decimal.antt =====
-- `fmt.Sprintf("%d", n)` and `strconv.Atoi`, as internal/worker/redis_queue.go calls them.
use ai_workflow.Base.{
  ℕ, zero, suc, ◌+◌, ◌-◌, ◌*◌, ◌≤◌, ◌<◌, ◌≡◌, ◌≢◌, refl, inl, inr, ◌||◌, Option, none, some, List,
  [], ◌∷◌, arith, ltb, leb, eqb, if◌then◌else◌, Bool-cases, All,
}
use Prim.Native.Nat.{◌/◌, ◌%◌, ◌^◌}
use ai_workflow.Base.Int.{ℤ, pos, negsuc}

abbrev pub Bytes : Type 0
Bytes = List ℕ

abbrev pub IsDigit : ℕ → Type 0
IsDigit c = (b'0' ≤ c) × (c ≤ b'9')

-- The largest `int`.
abbrev pub max_int : ℕ
max_int = 2 ^ 63 - 1

unfoldable pub digits : ℕ → ℕ → Bytes → Bytes
digits zero n out = out
digits (suc fuel) n out =
    let rest = digits fuel (n / 10) ((b'0' + n % 10) ∷ out) in
    if ltb n 10 then (b'0' + n) ∷ out else rest

-- The fuel is enough, since a tenth of a positive number is smaller.
unfoldable pub decimal : ℕ → Bytes
unfolding digits
decimal n = digits (suc n) n []

unfoldable pub scan : Bytes → ℕ → Option ℕ
scan [] n = some n
scan (c ∷ s) n =
    let rest = scan s (n * 10 + (c - b'0')) in if ltb c b'0' || ltb b'9' c then none else rest

unfoldable pub magnitude : Bytes → Option ℕ
unfolding scan
magnitude [] = none
magnitude (c ∷ s) = scan (c ∷ s) 0

abbrev pub up_to_max : Option ℕ → Option ℤ
up_to_max none = none
up_to_max (some n) = if leb n max_int then some (pos n) else none

abbrev pub negated : Option ℕ → Option ℤ
negated none = none
negated (some zero) = some (pos 0)
negated (some (suc n)) = if leb n max_int then some (negsuc n) else none

-- `none` is an error.
unfoldable pub atoi : Bytes → Option ℤ
unfolding magnitude
atoi [] = none
atoi (c ∷ s) =
    if eqb c b'-'
    then negated (magnitude s)
    else if eqb c b'+'
    then up_to_max (magnitude s)
    else up_to_max (magnitude (c ∷ s))

scan-digits : (fuel n : ℕ) (out : Bytes) → n < fuel → scan (digits fuel n out) 0 ≡ scan out n
unfolding scan digits
scan-digits zero n out h = absurd (omega (arith, h))
scan-digits (suc fuel) n out h =
    ground (arith, h, scan-digits fuel (n / 10) ((b'0' + n % 10) ∷ out))

digits-IsDigit : (fuel n : ℕ) (out : Bytes) → All IsDigit out → All IsDigit (digits fuel n out)
unfolding digits
digits-IsDigit zero n out h = h
digits-IsDigit (suc fuel) n out h = elim (Bool-cases (ltb n 10)) [
  | inl small ↦ rw small ((omega arith, ground (arith, small)), h)
  | inr large ↦
      rw large
        (digits-IsDigit fuel (n / 10) ((b'0' + n % 10) ∷ out) ((omega arith, omega arith), h))
]

digits-ne-nil : (fuel n : ℕ) (c : ℕ) (out : Bytes) → digits fuel n (c ∷ out) ≢ []
unfolding digits
digits-ne-nil zero n c out = λ e. cc e
digits-ne-nil (suc fuel) n c out =
    ground (arith, digits-ne-nil fuel (n / 10) (b'0' + n % 10) (c ∷ out))

pub decimal-IsDigit : (n : ℕ) → All IsDigit (decimal n)
unfolding decimal
decimal-IsDigit n = digits-IsDigit (suc n) n [] tt

decimal-ne-nil : (n : ℕ) → decimal n ≢ []
unfolding decimal digits
decimal-ne-nil n = ground (arith, digits-ne-nil n (n / 10) (b'0' + n % 10) [])

atoi_digits_lem :
    (s : Bytes) (n : ℕ)
    → s ≢ []
    → All IsDigit s
    → scan s 0 ≡ some n
    → n ≤ max_int
    → atoi s ≡ some (pos n)
unfolding atoi magnitude
atoi_digits_lem [] n given d e fits = absurd (given refl)
atoi_digits_lem (c ∷ s) n given (d, _) e fits = ground (arith, d, e, fits)

-- A number that is printed is read back.
pub atoi-decimal : (n : ℕ) → n ≤ max_int → atoi (decimal n) ≡ some (pos n)
unfolding decimal scan
atoi-decimal n fits =
    atoi_digits_lem (decimal n) n (decimal-ne-nil n) (decimal-IsDigit n)
      (scan-digits (suc n) n [] (omega arith)) fits
