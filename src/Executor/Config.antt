-- ===== src/Executor/Config.antt =====
-- The helpers of internal/executor/helpers.go that read configurations and render values.
use ai_workflow.Base.{String, ◌||◌, none, some, [], if◌then◌else◌, ◌==◌, trim_space}
use ai_workflow.Base.Dict.{Dict, lookup, insert}
use ai_workflow.Base.Value.{Value, Fields, null, str, obj, field, end}
use ai_workflow.Executor.{Env}

-- `anyString`
unfoldable pub any_string : Env → Value → String
any_string env null = ""
any_string env (str s) = s
any_string env v = env.render v

-- `renderAny`: a text is rendered with its quotes.
unfoldable pub render_any : Env → Value → String
render_any env null = ""
render_any env v = env.render v

or_fallback : String → String → String
or_fallback text fallback = if text == "" then fallback else text

-- `stringConfig`
unfoldable pub string_config : Env → Dict Value → String → String → String
unfolding any_string or_fallback
string_config env config key fallback = elim (lookup key config) [
  | none ↦ fallback
  | some v ↦ or_fallback (trim_space (any_string env v)) fallback
]

string_entries : Env → Fields → Dict String → Dict String
unfolding any_string
string_entries env end m = m
string_entries env (field k v fs) m =
    let key = trim_space k in
    let value = trim_space (any_string env v) in
    string_entries env fs (if key == "" || value == "" then m else insert key value m)

-- `stringMapConfig` on decoded JSON, where a map is an object.
unfoldable pub string_map_config : Env → Dict Value → String → Dict String
unfolding string_entries
string_map_config env config key = elim (lookup key config) [
  | some (obj fs) ↦ string_entries env fs []
  | _ ↦ []
]
