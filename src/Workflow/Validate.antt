-- ===== src/Workflow/Validate.antt =====
-- `ValidateDefinition` and its helpers (internal/workflow/service.go).
-- Field paths and messages are constructors. Go's map order is unspecified: the pass over the node
-- ids goes in the order in which they were recorded.
pub mod Spec
mod Laws
pub mod Nodes
pub mod Edges
pub mod Degrees
pub mod Branches
pub mod Correct
pub mod Examples
use ai_workflow.Base.{
  ℕ, suc, String, Bool, true, false, not, ◌&&◌, ◌||◌, Option, none, some, List, [], ◌∷◌, ◌++◌, ltb,
  eqb, if◌then◌else◌, ◌==◌, trim_space, is_blank,
}
use ai_workflow.Base.{lower_is, upper_is}
use ai_workflow.Base.Int.{is_nonpositive}
use ai_workflow.Base.Dict.{Dict, lookup, lookup_or, insert, has_key}
use ai_workflow.Base.Value.{null}
use ai_workflow.Workflow.{Node, Edge, Definition}
use ai_workflow.Workflow.Egress.{Platform, UrlError, any_string, validate_http_tool_url}

pub data Field : Type 0 where
  name version nodes edges : Field
  node_id node_type node_url node_method edge edge_from edge_to : ℕ → Field

pub data Message : Type 0 where
  name_required version_positive node_required id_required id_unique unsupported_type : Message
  url_error : UrlError → Message
  unsupported_method endpoints_required self_edge unknown_source unknown_target : Message
  two_outgoing no_merges root_required edge_label both_branches : Message

pub record ValidationError : Type 0 where
  pub field : Field
  pub message : Message

pub record ValidationResult : Type 0 where
  pub valid : Bool
  pub errors : List ValidationError

abbrev error_at : Field → Message → ValidationError
error_at f m = record { field = f; message = m }

-- The errors of a check, reported if its test holds.
abbrev pub report : Bool → Field → Message → List ValidationError
report true f m = error_at f m ∷ []
report false f m = []

pub supported_http_method : String → Bool
supported_http_method m =
    upper_is m "GET"
    || upper_is m "POST"
    || upper_is m "PUT"
    || upper_is m "PATCH"
    || upper_is m "DELETE"

pub supported_node_type : String → Bool
supported_node_type t =
    t == "retrieve_documents"
    || t == "llm"
    || t == "condition"
    || t == "http_tool"
    || t == "approval"
    || t == "audit_log"

url_errors : Option UrlError → ℕ → List ValidationError
url_errors none index = []
url_errors (some e) index = error_at (node_url index) (url_error e) ∷ []

validate_http_tool_node : Platform → Node → ℕ → List ValidationError
unfolding any_string supported_http_method url_errors
validate_http_tool_node p node index =
    let url = any_string p (lookup_or null "url" node.config) in
    let method = trim_space (any_string p (lookup_or null "method" node.config)) in
    url_errors (validate_http_tool_url p url) index
    ++ report (not (method == "") && not (supported_http_method method)) (node_method index)
        unsupported_method

pub validate_node_config : Platform → Node → ℕ → List ValidationError
unfolding validate_http_tool_node
validate_node_config p node index =
    if node.node_type == "http_tool" then validate_http_tool_node p node index else []

-- The first loop: the node ids seen so far and the errors.
pub record NodeScan : Type 0 where
  pub errors : List ValidationError
  pub node_ids : Dict Node

pub scan_node : Platform → ℕ → Node → NodeScan → NodeScan
scan_node p index node s =
    let id = trim_space node.id in
    if id == ""
    then record s { errors = s.errors ++ error_at (node_id index) id_required ∷ [] }
    else if has_key id s.node_ids
    then record s { errors = s.errors ++ error_at (node_id index) id_unique ∷ [] }
    else record {
      errors =
          (s.errors
            ++ report (not (supported_node_type (trim_space node.node_type))) (node_type index)
                unsupported_type)
          ++ validate_node_config p node index;
      node_ids = insert id node s.node_ids;
    }

pub scan_nodes : Platform → ℕ → List Node → NodeScan → NodeScan
scan_nodes p index [] s = s
scan_nodes p index (n ∷ ns) s = scan_nodes p (suc index) ns (scan_node p index n s)

-- The second loop: the degrees of the nodes and the errors.
pub record EdgeScan : Type 0 where
  pub errors : List ValidationError
  pub incoming : Dict ℕ
  pub outgoing : Dict ℕ

-- `m[k]++`
pub increment : String → Dict ℕ → Dict ℕ
increment k m = insert k (suc (lookup_or 0 k m)) m

pub scan_edge : Dict Node → ℕ → Edge → EdgeScan → EdgeScan
unfolding increment
scan_edge node_ids index e s =
    let from = trim_space e.from in
    let to = trim_space e.to in
    if from == "" || to == ""
    then record s { errors = s.errors ++ error_at (edge index) endpoints_required ∷ [] }
    else record {
      errors =
          ((s.errors ++ report (from == to) (edge index) self_edge)
            ++ report (not (has_key from node_ids)) (edge_from index) unknown_source)
          ++ report (not (has_key to node_ids)) (edge_to index) unknown_target;
      incoming = increment to s.incoming;
      outgoing = increment from s.outgoing;
    }

pub scan_edges : Dict Node → ℕ → List Edge → EdgeScan → EdgeScan
scan_edges node_ids index [] s = s
scan_edges node_ids index (e ∷ es) s =
    scan_edges node_ids (suc index) es (scan_edge node_ids index e s)

-- The third loop: the roots counted and the errors.
pub record DegreeScan : Type 0 where
  pub errors : List ValidationError
  pub root_count : ℕ

pub scan_degree : EdgeScan → String × Node → DegreeScan → DegreeScan
scan_degree degrees (id, node) s =
    let indegree = lookup_or 0 id degrees.incoming in
    record {
      errors =
          (s.errors
            ++ report (node.node_type == "condition" && ltb (lookup_or 0 id degrees.outgoing) 2)
                edges two_outgoing)
          ++ report (ltb 1 indegree) edges no_merges;
      root_count = if eqb indegree 0 then suc s.root_count else s.root_count;
    }

pub scan_degrees : EdgeScan → List (String × Node) → DegreeScan → DegreeScan
scan_degrees degrees [] s = s
scan_degrees degrees (entry ∷ rest) s = scan_degrees degrees rest (scan_degree degrees entry s)

-- The last loop: the labels of one condition node's edges.
pub record BranchScan : Type 0 where
  pub errors : List ValidationError
  pub true_branch : Bool
  pub false_branch : Bool

pub scan_branch : Node → Edge → BranchScan → BranchScan
scan_branch node e s =
    let label = trim_space e.condition in
    if not (e.from == node.id)
    then s
    else if lower_is label "true"
    then record s { true_branch = true }
    else if lower_is label "false"
    then record s { false_branch = true }
    else record s { errors = s.errors ++ error_at edges edge_label ∷ [] }

pub scan_branches : Node → List Edge → BranchScan → BranchScan
scan_branches node [] s = s
scan_branches node (e ∷ es) s = scan_branches node es (scan_branch node e s)

pub scan_condition : List Edge → Node → List ValidationError → List ValidationError
scan_condition es node errors =
    let s =
      scan_branches node es
        (record { errors = errors; true_branch = false; false_branch = false }) in
    if node.node_type == "condition"
    then s.errors ++ report (not s.true_branch || not s.false_branch) edges both_branches
    else errors

pub scan_conditions : List Edge → List Node → List ValidationError → List ValidationError
scan_conditions es [] errors = errors
scan_conditions es (n ∷ ns) errors = scan_conditions es ns (scan_condition es n errors)

pub is_nil {ℓ} : {A : Type ℓ} → List A → Bool
is_nil [] = true
is_nil (_ ∷ _) = false

-- The checks before the first loop.
pub header_errors : Definition → List ValidationError
header_errors d =
    (report (is_blank d.name) name name_required
      ++ report (is_nonpositive d.version) version version_positive)
    ++ report (is_nil d.nodes) nodes node_required

pub node_scan : Platform → Definition → NodeScan
node_scan p d = scan_nodes p 0 d.nodes (record { errors = header_errors d; node_ids = [] })

pub edge_scan : Platform → Definition → EdgeScan
edge_scan p d =
    let s = node_scan p d in
    scan_edges s.node_ids 0 d.edges (record { errors = s.errors; incoming = []; outgoing = [] })

pub degree_scan : Platform → Definition → DegreeScan
degree_scan p d =
    let s = edge_scan p d in
    scan_degrees s (node_scan p d).node_ids (record { errors = s.errors; root_count = 0 })

pub all_errors : Platform → Definition → List ValidationError
all_errors p d =
    let s = degree_scan p d in
    scan_conditions d.edges d.nodes (
      s.errors
      ++ report (not (is_nil (node_scan p d).node_ids) && eqb s.root_count 0) nodes root_required)

unfoldable pub validate_definition : Platform → Definition → ValidationResult
unfolding all_errors
validate_definition p d =
    let found = all_errors p d in record { valid = is_nil found; errors = found }
