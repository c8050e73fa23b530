-- ===== src/Executor/Nodes.antt =====
-- internal/executor/nodes.go: what the nodes of each type do. The client of the language model and
-- the HTTP client, with the building of requests and the reading of bodies, are parameters, and so
-- is the retrieval of documents.
use ai_workflow.Base.{
  ℕ, String, Bool, false, ◌||◌, Option, none, some, List, [], ◌∷◌, ◌++◌, leb, if◌then◌else◌, Result,
  ok, err, ◌==◌, trim_space,
}
pub mod Targets
pub mod Conditions
pub mod Retrieval
pub mod Examples
use Prim.Native.String as Text
use ai_workflow.Base.{lower_is}
use ai_workflow.Base.Dict.{Dict, lookup, lookup_or, insert, keys}
use ai_workflow.Base.Value.{Value, null, bool, num, str, obj, to_fields}
use ai_workflow.Workflow.Egress.{
  UrlError, missing_url, invalid_url, unsafe_credentials, unsafe_host, validate_http_tool_url,
}
use ai_workflow.Executor.{Env, Request, Response}
use ai_workflow.Executor.Config.{any_string, render_any, string_config, string_map_config}

-- The values of a map for a key that is given, `none` for one that is blank.
given : String → Option String
given key = if key == "" then none else some key

part : String → List String
part text = if text == "" then [] else text ∷ []

input_part : Env → Dict Value → Option String → List String
unfolding part
input_part env input none = []
input_part env input (some key) = part (any_string env (lookup_or null key input))

context_part : Env → Dict Value → Option String → List String
context_part env outputs none = []
context_part env outputs (some step) = elim (lookup step outputs) [
  | none ↦ []
  | some v ↦ render_any env v ∷ []
]

join : String → List String → String
join separator [] = ""
join separator (text ∷ []) = text
join separator (text ∷ next ∷ texts) =
    Text.◌++◌ text (Text.◌++◌ separator (join separator (next ∷ texts)))

llm_prompt : Env → Dict Value → Dict Value → Dict Value → String
unfolding part input_part context_part given join
llm_prompt env config input outputs = join "\n\n" (
    part (string_config env config "prompt" "")
    ++ input_part env input (given (string_config env config "input_key" ""))
    ++ context_part env outputs (given (string_config env config "context_step" "")))

unfoldable pub execute_llm : Env → ℕ → Dict Value → Dict Value → Dict Value → Result String Value
unfolding llm_prompt
execute_llm env calls config input outputs =
    let prompt = llm_prompt env config input outputs in
    elim (env.generate calls prompt) [
      | err e ↦ err e
      | ok text ↦ ok (obj (to_fields (("prompt", str prompt) ∷ ("text", str text) ∷ [])))
    ]

unfoldable pub execute_audit : Env → Dict Value → Dict Value → Value
execute_audit env config outputs =
    let message = str (string_config env config "message" "audit logged") in
    let from_step = string_config env config "from_step" "" in
    obj (
      to_fields (
        ("message", message)
        ∷ (if from_step == ""
            then []
            else ("from_step", str from_step) ∷ ("value", lookup_or null from_step outputs) ∷ [])))

pub condition_value : Env → Dict Value → Dict Value → Dict Value → String
condition_value env config input outputs =
    let context_step = string_config env config "context_step" "" in
    if context_step == ""
    then any_string env (lookup_or null (string_config env config "input_key" "") input)
    else render_any env (lookup_or null context_step outputs)

pub condition_result : Bool → String → String → String → Result String Value
condition_result matched operator value target = ok (
    obj (
      to_fields (
        ("matched", bool matched)
        ∷ ("operator", str operator)
        ∷ ("value", str value)
        ∷ ("target", str target)
        ∷ [])))

unfoldable pub execute_condition : Env → Dict Value → Dict Value → Dict Value → Result String Value
unfolding condition_value condition_result
execute_condition env config input outputs =
    let value = condition_value env config input outputs in
    let operator = env.to_lower (string_config env config "operator" "equals") in
    let target = string_config env config "equals" (string_config env config "value" "") in
    if operator == "equals"
    then condition_result (env.equal_fold (trim_space value) (trim_space target)) operator value
        target
    else if operator == "contains"
    then condition_result (env.has_text (env.to_lower value) (env.to_lower target)) operator value
        target
    else err (Text.◌++◌ "unsupported condition operator " (env.quote operator))

-- `err.Error()`
pub url_error_text : Env → UrlError → String
url_error_text env missing_url = "http_tool url is required"
url_error_text env invalid_url = "http_tool url must be an absolute http or https URL"
url_error_text env unsafe_credentials =
    "http_tool url target is not allowed: embedded credentials are not supported"
url_error_text env (unsafe_host host) =
    Text.◌++◌ "http_tool url target is not allowed: host "
      (Text.◌++◌ (env.quote (env.to_lower host)) " is local or private")

input_payload : Dict Value → Option String → Dict Value
input_payload input none = []
input_payload input (some key) = ("input", lookup_or null key input) ∷ ("input_key", str key) ∷ []

context_payload : Dict Value → Option String → Dict Value
context_payload outputs none = []
context_payload outputs (some step) =
    ("context", lookup_or null step outputs) ∷ ("context_step", str step) ∷ []

-- The payload, which is no body if it is nil.
body_of : Value → Option Value
body_of null = none
body_of v = some v

map_payload : Dict Value → Option Value
map_payload [] = none
map_payload (entry ∷ m) = some (obj (to_fields (entry ∷ m)))

unfoldable pub http_tool_payload : Env → Dict Value → Dict Value → Dict Value → Option Value
unfolding input_payload context_payload body_of map_payload given
http_tool_payload env config input outputs = elim (lookup "body" config) [
  | some v ↦ body_of v
  | none ↦ map_payload (
      input_payload input (given (string_config env config "input_key" ""))
      ++ context_payload outputs (given (string_config env config "context_step" "")))
]

-- The loop over the configured headers: `Header.Set` puts a value under the canonical name.
set_headers : Env → Dict String → Dict String → Dict String
set_headers env [] headers = headers
set_headers env ((key, value) ∷ rest) headers =
    set_headers env rest (insert (env.canonical_header key) value headers)

headers_for : Option Value → Dict String → Dict String
headers_for none headers = headers
headers_for (some v) headers =
    if lookup_or "" "Content-Type" headers == ""
    then insert "Content-Type" "application/json" headers
    else headers

unfoldable pub decode_http_tool_body : Env → String → String → Value
decode_http_tool_body env content_type body =
    let text = trim_space body in
    if text == ""
    then str ""
    else if env.has_text (env.to_lower content_type) "application/json"
    then elim (env.unmarshal body) [ none ↦ str text | some v ↦ v ]
    else str text

response_value : Env → String → String → ℕ → String → String → Dict Value
response_value env method url status content_type body =
    ("method", str method)
    ∷ ("url", str url)
    ∷ ("status_code", num status)
    ∷ (if body == "" then [] else ("body", decode_http_tool_body env content_type body) ∷ [])

unfoldable pub read_http_tool_response : Env → String → String → Response → Result String Value
unfolding response_value
read_http_tool_response env method url r = elim r.body [
  | err e ↦ err (Text.◌++◌ "read http tool response: " e)
  | ok body ↦
      if leb 400 r.status_code
      then err (Text.◌++◌ "http tool returned status " (env.decimal r.status_code))
      else ok (obj (to_fields (response_value env method url r.status_code r.content_type body)))
]

pub http_tool_request : Env → Dict Value → Dict Value → Dict Value → Request
unfolding headers_for set_headers
http_tool_request env config input outputs =
    let payload = http_tool_payload env config input outputs in
    record {
      method = env.to_upper (string_config env config "method" "POST");
      url = string_config env config "url" "";
      headers = headers_for payload (set_headers env (string_map_config env config "headers") []);
      body = payload;
    }

pub after_send : Env → Request → Result String Response → Result String Value
after_send env request (err e) = err e
after_send env request (ok response) =
    read_http_tool_response env request.method request.url response

pub send_checked : Env → ℕ → Request → Option UrlError → Result String Value
unfolding after_send url_error_text
send_checked env calls request (some e) = err (url_error_text env e)
send_checked env calls request none = after_send env request (env.send calls request)

unfoldable pub execute_http_tool :
    Env → ℕ → Dict Value → Dict Value → Dict Value → Result String Value
unfolding send_checked http_tool_request
execute_http_tool env calls config input outputs =
    let request = http_tool_request env config input outputs in
    send_checked env calls request (validate_http_tool_url env.platform request.url)
