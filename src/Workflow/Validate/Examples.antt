-- ===== src/Workflow/Validate/Examples.antt =====
-- Definitions that `ValidateDefinition` and `Create` of internal/workflow/service.go accept.
use ai_workflow.Base.{◌≡◌, refl, ◌↔◌, true, Distinct, ok, trim_space, is_blank}
use ai_workflow.Base.Dict.{lookup, insert}
use ai_workflow.Workflow.Validate.{
  validate_definition, is_nil, scan_conditions, scan_condition, degree_scan, scan_degrees,
  node_scan, scan_nodes, scan_node, scan_degree, edge_scan, scan_edges, scan_edge, header_errors,
  all_errors, increment, supported_node_type, validate_node_config,
}
use ai_workflow.Workflow.Validate.Spec.{IsWellFormed}
use ai_workflow.Workflow.Validate.Correct.{validate_iff}
use ai_workflow.Executor.Graph.{build_graph, Graph}
use ai_workflow.Executor.Graph.Built.{IsGraphOf, accepted_graph}
use ai_workflow.Samples.{platform, branching, review}

validate_iff_example :
    ((validate_definition platform branching).valid ≡ true) ↔ IsWellFormed platform branching
validate_iff_example = validate_iff platform branching

pub review-valid : (validate_definition platform review).valid ≡ true
unfolding validate_definition is_nil scan_conditions scan_condition degree_scan scan_degrees
    node_scan scan_nodes scan_node trim_space lookup insert scan_degree edge_scan scan_edges
    scan_edge header_errors is_blank all_errors increment supported_node_type validate_node_config
review-valid = refl

accepted_graph_example :
    (g : Graph) × (build_graph review ≡ ok g) × IsGraphOf review g × Distinct g.roots
accepted_graph_example = accepted_graph platform review review-valid
