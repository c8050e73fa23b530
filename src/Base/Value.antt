-- ===== src/Base/Value.antt =====
-- The values of Go's `any` that configurations, inputs and outputs hold: decoded JSON.
use Prim.Native.Nat.{ℕ}
use Prim.Native.String.{String}
use mathlib.Core.Bool.{Bool}
use mathlib.Core.Option.{Option, none, some}
use mathlib.Core.List.{List, [], ◌∷◌}
use text.Mathlib.Text.{◌==◌}
use ai_workflow.Base.Int.{ℤ}
use ai_workflow.Base.Tests.{if◌then◌else◌}

-- `num` is a natural number within the range of an `int`; `signed` is any other number, negative or
-- with a fraction, with the `int` that Go converts it to, which is rounded towards zero, and its
-- text.
mutual
  pub data Fields : Type 0 where
    field : String → Value → Fields → Fields
    end : Fields

  pub data Elements : Type 0 where
    element : Value → Elements → Elements
    done : Elements

  pub data Value : Type 0 where
    obj : Fields → Value
    arr : Elements → Value
    str : String → Value
    num : ℕ → Value
    signed : ℤ → String → Value
    bool : Bool → Value
    null : Value

-- A map as an object's fields.
abbrev pub to_fields : List (String × Value) → Fields
to_fields [] = end
to_fields ((k, v) ∷ m) = field k v (to_fields m)

unfoldable pub get_field : String → Fields → Option Value
get_field k end = none
get_field k (field j v fs) = if j == k then some v else get_field k fs
