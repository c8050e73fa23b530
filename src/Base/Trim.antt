-- ===== src/Base/Trim.antt =====
-- What `strings.TrimSpace` leaves.
use native.Mathlib.Omega.{arith}
use Prim.Native.Char.{code}
use Prim.Native.String.{String}
use mathlib.Core.Path.{◌≡◌, refl, ap}
use mathlib.Core.Bool.{Bool, false}
use text.Mathlib.Text.{◌==◌}
use ai_workflow.Base.Text.{is_space, is_empty, trim_left, trim_right, trim_space, is_blank}

abbrev starts_blank : String → Bool
starts_blank String.[] = false
starts_blank (String.◌∷◌ c s) = is_space (code c)

starts_blank-trim_left : (s : String) → starts_blank (trim_left s) ≡ false
unfolding trim_left
starts_blank-trim_left String.[] = refl
starts_blank-trim_left (String.◌∷◌ c s) = ground (arith, starts_blank-trim_left s)

starts_blank-trim_right :
    (s : String) → starts_blank s ≡ false → starts_blank (trim_right s) ≡ false
unfolding trim_right
starts_blank-trim_right String.[] e = refl
starts_blank-trim_right (String.◌∷◌ c s) e = ground (arith, e)

trim_left_lem : (s : String) → starts_blank s ≡ false → trim_left s ≡ s
unfolding trim_left
trim_left_lem String.[] e = refl
trim_left_lem (String.◌∷◌ c s) e = ground (arith, e)

trim_right-trim_right : (s : String) → trim_right (trim_right s) ≡ trim_right s
unfolding trim_right
trim_right-trim_right String.[] = refl
trim_right-trim_right (String.◌∷◌ c s) =
    ground (arith, trim_right-trim_right s, ap is_empty (trim_right-trim_right s))

pub trim_space-trim_space : (s : String) → trim_space (trim_space s) ≡ trim_space s
unfolding trim_space
trim_space-trim_space s = cc (
  trim_left_lem (trim_right (trim_left s))
      (starts_blank-trim_right (trim_left s) (starts_blank-trim_left s)),
  trim_right-trim_right (trim_left s),
)

pub is_blank-trim_space : (s : String) → is_blank (trim_space s) ≡ is_blank s
unfolding is_blank
is_blank-trim_space s = ap (λ (t : String). t == "") (trim_space-trim_space s)
