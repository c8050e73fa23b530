-- ===== src/Executor/Nodes/Examples.antt =====
-- Nodes of internal/executor/nodes.go on small configurations.
use ai_workflow.Base.{
  ◌<◌, ◌≡◌, refl, true, false, none, some, [], ◌∷◌, if◌then◌else◌, ok, err, trim_space,
}
use ai_workflow.Base.Dict.{Dict, lookup, lookup_or}
use ai_workflow.Base.Value.{Value, null, str}
use ai_workflow.Workflow.Egress.{validate_http_tool_url}
use ai_workflow.Workflow.{Node}
use ai_workflow.Executor.{Env, Request, Response}
use ai_workflow.Executor.Config.{string_config}
use ai_workflow.Executor.Graph.{Graph, next, build_graph}
use ai_workflow.Executor.Nodes.{
  execute_http_tool, http_tool_request, http_tool_payload, url_error_text, execute_condition,
}
use ai_workflow.Executor.Nodes.Targets.{execute_http_tool-eq-ok}
use ai_workflow.Executor.Nodes.Conditions.{targets_with, holds, condition_routes}
use ai_workflow.Samples.{env, branching, graph_or_empty}

abbrev response : Response
response = record { status_code = 200; content_type = ""; body = ok "" }

-- A platform on which the url is that of a public host, and a client that answers.
abbrev answering : Env
answering = record env {
  platform = record {
    sprint = λ v. "";
    parse_url = λ s.
        some
          (record { is_abs = true; scheme = "https"; has_user = false; hostname = "example.org" });
    is_blocked_ip = λ s. false;
  };
  send = λ n request. ok response;
}

abbrev config : Dict Value
config = ("url", str "https://example.org") ∷ []

abbrev returned : Value
returned = elim (execute_http_tool answering 0 config [] []) [ ok v ↦ v | err e ↦ null ]

execute_http_tool-eq-ok_example :
    (validate_http_tool_url answering.platform (http_tool_request answering config [] []).url
      ≡ none)
    × (r : Response) × (answering.send 0 (http_tool_request answering config [] []) ≡ ok r)
    × (r.status_code < 400)
unfolding execute_http_tool string_config lookup validate_http_tool_url trim_space
    ai_workflow.Base.lower_is ai_workflow.Base.has_suffix ai_workflow.Base.lower
    ai_workflow.Executor.Nodes.read_http_tool_response
execute_http_tool-eq-ok_example = execute_http_tool-eq-ok answering 0 config [] [] returned refl

abbrev graph : Graph
graph = graph_or_empty (build_graph branching)

abbrev check : Node
check = record { id = "check"; node_type = "condition"; config = [] }

abbrev checked : Value
checked = elim (execute_condition env [] [] []) [ ok v ↦ v | err e ↦ null ]

condition_routes_example :
    next graph check checked
    ≡ targets_with
        (if holds env [] [] [] then "true" else "false")
        (lookup_or [] "check" graph.outbound)
unfolding execute_condition string_config lookup
condition_routes_example = condition_routes env graph check [] [] checked refl refl
