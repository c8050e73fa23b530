-- ===== src/Base/Words.antt =====
-- `strings.Fields` and `strings.ReplaceAll(s, "\r\n", "\n")`, over code points.
use Prim.Native.Nat.{ℕ}
use Prim.Native.Char.{Char, code}
use Prim.Native.String as Text
use Prim.Native.String.{String}
use mathlib.Core.Path.{◌≡◌, refl}
use mathlib.Core.Bool.{Bool, true, false, ◌&&◌, not}
use mathlib.Core.List.{List, [], ◌∷◌, ◌++◌}
use native.Mathlib.Omega.{arith}
use mathlib.Core.Logic.{inl, inr}
use text.Mathlib.TextLemmas.{nil-append, cons-append}
use ai_workflow.Base.Tests.{eqb, Bool-cases, if◌then◌else◌}
use ai_workflow.Base.Text.{is_space, is_empty}
use ai_workflow.Base.Lists.{All}

pub flush : String → List String → List String
flush String.[] ws = ws
flush (String.◌∷◌ c s) ws = String.◌∷◌ c s ∷ ws

-- The word at the start of a text, empty before white space, and the words after it.
pub scan_words : String → String × List String
scan_words String.[] = (String.[], [])
scan_words (String.◌∷◌ c s) =
    let (w, ws) = scan_words s in
    if is_space (code c) then (String.[], flush w ws) else (String.◌∷◌ c w, ws)

-- `strings.Fields`
unfoldable pub fields : String → List String
unfolding flush scan_words
fields s = let (w, ws) = scan_words s in flush w ws

abbrev starts_newline : String → Bool
starts_newline String.[] = false
starts_newline (String.◌∷◌ c s) = eqb (code c) 10

-- `strings.ReplaceAll(s, "\r\n", "\n")`
unfoldable pub replace_crlf : String → String
replace_crlf String.[] = String.[]
replace_crlf (String.◌∷◌ c s) =
    let rest = replace_crlf s in
    if eqb (code c) 13 && starts_newline s then rest else String.◌∷◌ c rest

abbrev pub no_space : String → Bool
no_space String.[] = true
no_space (String.◌∷◌ c s) = not (is_space (code c)) && no_space s

-- A word has no white space in it.
pub record IsWord (w : String) : Type 0 where
  pub nonempty : is_empty w ≡ false
  pub solid : no_space w ≡ true

flush-append : (w : String) (xs ys : List String) → flush w (xs ++ ys) ≡ flush w xs ++ ys
unfolding flush
flush-append String.[] xs ys = refl
flush-append (String.◌∷◌ c w) xs ys = refl

scan_words-space : (t : String) → scan_words (String.◌∷◌ " " t) ≡ (String.[], fields t)
unfolding fields is_space
scan_words-space t = refl

-- White space between two texts parts their words.
scan_words-append :
    (s t : String)
    → scan_words (Text.◌++◌ s (String.◌∷◌ " " t)) ≡ ((scan_words s).0, (scan_words s).1 ++ fields t)
unfolding scan_words
scan_words-append String.[] t = rw (nil-append (String.◌∷◌ " " t)) (scan_words-space t)
scan_words-append (String.◌∷◌ c s) t = rw (cons-append c s (String.◌∷◌ " " t)) (
    ground
      (arith, scan_words-append s t, flush-append (scan_words s).0 (scan_words s).1 (fields t)))

pub fields-append : (s t : String) → fields (Text.◌++◌ s (String.◌∷◌ " " t)) ≡ fields s ++ fields t
unfolding fields
fields-append s t =
    ground (arith, scan_words-append s t, flush-append (scan_words s).0 (scan_words s).1 (fields t))

scan_words-solid : (w : String) → no_space w ≡ true → scan_words w ≡ (w, [])
unfolding scan_words
scan_words-solid String.[] h = refl
scan_words-solid (String.◌∷◌ c w) h = ground (arith, scan_words-solid w)

pub fields_word : (w : String) → IsWord w → fields w ≡ w ∷ []
unfolding fields
fields_word String.[] h = absurd (ground (arith, h.nonempty))
fields_word (String.◌∷◌ c w) h = ground (arith, scan_words-solid (String.◌∷◌ c w), h.solid)

flush-IsWord :
    (w : String) (ws : List String) → no_space w ≡ true → All IsWord ws → All IsWord (flush w ws)
unfolding flush
flush-IsWord String.[] ws h hs = hs
flush-IsWord (String.◌∷◌ c w) ws h hs = (record { nonempty = refl; solid = h }, hs)

scan_words-IsWord : (s : String) → (no_space (scan_words s).0 ≡ true) × All IsWord (scan_words s).1
unfolding scan_words
scan_words-IsWord String.[] = (refl, tt)
scan_words-IsWord (String.◌∷◌ c s) =
    let (solid, words) = scan_words-IsWord s in
    elim (Bool-cases (is_space (code c))) [
      | inl space ↦ rw space (refl, flush-IsWord (scan_words s).0 (scan_words s).1 solid words)
      | inr other ↦ rw other (ground (arith, other, solid), words)
    ]

pub fields-IsWord : (s : String) → All IsWord (fields s)
unfolding fields
fields-IsWord s =
    flush-IsWord (scan_words s).0 (scan_words s).1 (scan_words-IsWord s).0 (scan_words-IsWord s).1

flush_nil : (ws : List String) → flush String.[] ws ≡ ws
unfolding flush
flush_nil ws = refl

scan_words_newline : (s : String) → starts_newline s ≡ true → (scan_words s).0 ≡ String.[]
unfolding scan_words is_space
scan_words_newline String.[] h = refl
scan_words_newline (String.◌∷◌ c s) h = ground arith

is_space_return : (n : ℕ) → eqb n 13 ≡ true → is_space n ≡ true
unfolding is_space
is_space_return n h = ground arith

scan_words-replace_crlf : (s : String) → scan_words (replace_crlf s) ≡ scan_words s
unfolding scan_words replace_crlf
scan_words-replace_crlf String.[] = refl
scan_words-replace_crlf (String.◌∷◌ c s) = elim (Bool-cases (eqb (code c) 13 && starts_newline s)) [
  | inl pair ↦ rw pair (pair_lem c s pair (scan_words-replace_crlf s))
  | inr other ↦ rw other (rw (scan_words-replace_crlf s))
]
  where
    pair_lem :
        (c : Char) (s : String)
        → (eqb (code c) 13 && starts_newline s) ≡ true
        → scan_words (replace_crlf s) ≡ scan_words s
        → scan_words (replace_crlf s) ≡ scan_words (String.◌∷◌ c s)
    pair_lem c s pair same = rw (is_space_return (code c) (ground (arith, pair))) (
        ground
          (arith, same, scan_words_newline s (ground (arith, pair)), flush_nil (scan_words s).1))

-- A carriage return before a newline is white space in any case.
pub fields-replace_crlf : (s : String) → fields (replace_crlf s) ≡ fields s
unfolding fields
fields-replace_crlf s = ground (arith, scan_words-replace_crlf s)
