-- ===== src/Executor/Nodes/Targets.antt =====
-- What an http_tool node may reach (internal/executor/nodes.go).
use ai_workflow.Base.{ℕ, ◌<◌, ◌≡◌, refl, String, Option, none, some, arith, Result, ok, err}
use ai_workflow.Base.Dict.{Dict}
use ai_workflow.Base.Value.{Value}
use ai_workflow.Workflow.Egress.{UrlError, validate_http_tool_url}
use ai_workflow.Executor.{Env, Request, Response}
use ai_workflow.Executor.Nodes.{
  execute_http_tool, after_send, send_checked, http_tool_request, read_http_tool_response,
}

answered :
    (env : Env) (request : Request) (r : Response) (out : Value)
    → read_http_tool_response env request.method request.url r ≡ ok out
    → r.status_code < 400
unfolding read_http_tool_response
answered env request r out h = ground arith

after_send-eq-ok :
    (env : Env) (request : Request) (x : Result String Response) (out : Value)
    → after_send env request x ≡ ok out
    → (r : Response) × (x ≡ ok r) × (r.status_code < 400)
unfolding after_send
after_send-eq-ok env request (err e) out h = absurd (cc h)
after_send-eq-ok env request (ok r) out h = (r, refl, answered env request r out h)

send_checked-eq-ok :
    (env : Env) (calls : ℕ) (request : Request) (x : Option UrlError) (out : Value)
    → send_checked env calls request x ≡ ok out
    → (x ≡ none) × (r : Response) × (env.send calls request ≡ ok r) × (r.status_code < 400)
unfolding send_checked
send_checked-eq-ok env calls request (some e) out h = absurd (cc h)
send_checked-eq-ok env calls request none out h =
    let (r, sent, status) = after_send-eq-ok env request (env.send calls request) out h in
    (refl, r, sent, status)

-- An http_tool node that succeeds had a target that the policy allows, and its request was answered
-- with a status below 400.
pub execute_http_tool-eq-ok :
    (env : Env) (calls : ℕ) (config input outputs : Dict Value) (out : Value)
    → execute_http_tool env calls config input outputs ≡ ok out
    → (validate_http_tool_url env.platform (http_tool_request env config input outputs).url ≡ none)
      × (r : Response) × (env.send calls (http_tool_request env config input outputs) ≡ ok r)
      × (r.status_code < 400)
unfolding execute_http_tool
execute_http_tool-eq-ok env calls config input outputs out h =
    let request = http_tool_request env config input outputs in
    send_checked-eq-ok env calls request (validate_http_tool_url env.platform request.url) out h
