-- ===== src/Base/Text.antt =====
-- The functions of Go's `strings` package that the program calls, over code points.
use Prim.Native.String.{String}
use mathlib.Core.Path.{◌≡◌, refl}
use mathlib.Core.Bool.{Bool, true, false, ◌&&◌, ◌||◌}
use Prim.Native.Char.{code}
use ai_workflow.Base.Tests.{leb, eqb, if◌then◌else◌}
use Prim.Native.Nat.{ℕ, ◌+◌, ◌-◌}
use mathlib.Core.List.{List, [], ◌∷◌, map}
use text.Mathlib.Text.{◌==◌}

-- `unicode.IsSpace`
unfoldable pub is_space : ℕ → Bool
is_space c =
    leb 9 c && leb c 13
    || eqb c 0x20
    || eqb c 0x85
    || eqb c 0xa0
    || eqb c 0x1680
    || leb 0x2000 c && leb c 0x200a
    || eqb c 0x2028
    || eqb c 0x2029
    || eqb c 0x202f
    || eqb c 0x205f
    || eqb c 0x3000

abbrev pub is_empty : String → Bool
is_empty String.[] = true
is_empty (String.◌∷◌ _ _) = false

unfoldable pub trim_left : String → String
trim_left String.[] = String.[]
trim_left (String.◌∷◌ c s) =
    let rest = trim_left s in if is_space (code c) then rest else String.◌∷◌ c s

unfoldable pub trim_right : String → String
trim_right String.[] = String.[]
trim_right (String.◌∷◌ c s) =
    let rest = trim_right s in
    if is_space (code c) && is_empty rest then String.[] else String.◌∷◌ c rest

-- `strings.TrimSpace`
unfoldable pub trim_space : String → String
unfolding is_space trim_left trim_right
trim_space s = trim_right (trim_left s)

-- The test `strings.TrimSpace(s) == ""`.
unfoldable pub is_blank : String → Bool
unfolding trim_space
is_blank s = trim_space s == ""

abbrev pub codes : String → List ℕ
codes (String.◌∷◌ first rest) = code first ∷ codes rest
codes String.[] = []

-- `unicode.ToLower` on the code points whose lower case is an ASCII letter; all others stay.
lower_code : ℕ → ℕ
lower_code c =
    if leb b'A' c && leb c b'Z'
    then c + 32
    else if eqb c 0x130
    then b'i'
    else if eqb c 0x212a
    then b'k'
    else c

-- The representative of a code point under simple case folding, exact beside an ASCII code point.
fold_code : ℕ → ℕ
fold_code c =
    if leb b'A' c && leb c b'Z'
    then c + 32
    else if eqb c 0x17f
    then b's'
    else if eqb c 0x212a
    then b'k'
    else c

unfoldable pub same_codes : List ℕ → List ℕ → Bool
same_codes [] [] = true
same_codes (a ∷ xs) (b ∷ ys) = eqb a b && same_codes xs ys
same_codes _ _ = false

-- `strings.ToLower(s) == t` for a `t` in ASCII.
unfoldable pub lower_is : String → String → Bool
unfolding lower_code same_codes
lower_is s t = same_codes (map lower_code (codes s)) (codes t)

-- `unicode.ToUpper` on the code points whose upper case is an ASCII letter; all others stay.
upper_code : ℕ → ℕ
upper_code c =
    if leb b'a' c && leb c b'z'
    then c - 32
    else if eqb c 0x131
    then b'I'
    else if eqb c 0x17f
    then b'S'
    else c

-- `strings.ToUpper(s) == t` for a `t` in ASCII.
unfoldable pub upper_is : String → String → Bool
unfolding upper_code same_codes
upper_is s t = same_codes (map upper_code (codes s)) (codes t)

-- `strings.HasSuffix` on code points.
unfoldable pub has_suffix : List ℕ → List ℕ → Bool
unfolding same_codes
has_suffix [] t = same_codes [] t
has_suffix (c ∷ s) t = same_codes (c ∷ s) t || has_suffix s t

-- The code points of `strings.ToLower(s)`, exact where they are compared with ASCII.
unfoldable pub lower : String → List ℕ
unfolding lower_code
lower s = map lower_code (codes s)

-- `strings.EqualFold(s, t)` for a `t` in ASCII.
unfoldable pub equal_fold : String → String → Bool
unfolding fold_code same_codes
equal_fold s t = same_codes (map fold_code (codes s)) (map fold_code (codes t))

trims : trim_space " a b\n" ≡ "a b"
unfolding trim_space
trims = refl

blank_only : is_blank " \t\n" ≡ true
unfolding is_blank
blank_only = refl

folds : equal_fold "TRUE" "true" ≡ true
unfolding equal_fold
folds = refl
