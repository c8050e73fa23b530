-- ===== src/Bootstrap.antt =====
-- internal/platform/config/bootstrap.go: the API keys that the environment gives.
use ai_workflow.Base.{
  ◌+◌, String, ℕ, List, [], ◌∷◌, Result, ok, err, ◌||◌, eqb, trim_space, is_blank, if◌then◌else◌,
}
use Prim.Native.Char.{Char, code}
use Prim.Native.String.{◌++◌}
pub mod Repositories
pub mod Config
mod Keys
mod Access
pub mod Examples

pub record BootstrapApiKey : Type 0 where
  pub api_key_id : String
  pub label : String
  pub tenant_id : String
  pub tenant_name : String
  pub plaintext_key : String

-- The entry that an error names.
pub data Error : Type 0 where
  expected_three_fields empty_field : String → Error

abbrev pub prefix_first : Char → List String → List String
prefix_first c [] = String.◌∷◌ c String.[] ∷ []
prefix_first c (s ∷ rest) = String.◌∷◌ c s ∷ rest

-- `strings.Split` at one code point.
pub split : ℕ → String → List String
split separator String.[] = String.[] ∷ []
split separator (String.◌∷◌ c s) =
    let rest = split separator s in
    if eqb (code c) separator then String.[] ∷ rest else prefix_first c rest

abbrev pub prepend :
    Result Error BootstrapApiKey
    → Result Error (List BootstrapApiKey)
    → Result Error (List BootstrapApiKey)
prepend (err e) _ = err e
prepend (ok key) (err e) = err e
prepend (ok key) (ok keys) = ok (key ∷ keys)

-- `fmt.Sprintf("%d", n)` is the first parameter.
module _ (decimal : ℕ → String) where
  unfoldable pub parse_fields : ℕ → String → List String → Result Error BootstrapApiKey
  parse_fields index item (first ∷ second ∷ third ∷ []) =
      if is_blank first || is_blank second || is_blank third
      then err (empty_field item)
      else ok record {
        api_key_id = "bootstrap-key-" ++ decimal (index + 1);
        label = "bootstrap";
        tenant_id = trim_space first;
        tenant_name = trim_space second;
        plaintext_key = trim_space third;
      }
  parse_fields index item _ = err (expected_three_fields item)

  -- The loop of `parseBootstrapAPIKeys` from an index on.
  pub parse_items : ℕ → List String → Result Error (List BootstrapApiKey)
  parse_items index [] = ok []
  parse_items index (item ∷ items) =
      prepend (parse_fields index item (split b'|' (trim_space item)))
        (parse_items (index + 1) items)

  unfoldable pub parse_bootstrap_api_keys : String → Result Error (List BootstrapApiKey)
  parse_bootstrap_api_keys raw =
      if is_blank raw then ok [] else parse_items 0 (split b',' (trim_space raw))
