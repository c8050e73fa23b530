-- ===== src/Workflow/Validate/Spec.antt =====
-- What `ValidateDefinition` (internal/workflow/service.go) is to accept, said of the definition
-- alone.
use ai_workflow.Base.{
  ℕ, suc, ◌≤◌, ◌≡◌, ◌≢◌, ◌⊎◌, String, Bool, true, false, ◌&&◌, ◌||◌, none, List, [], ◌∷◌, eqb,
  if◌then◌else◌, All, contains, Distinct, ◌==◌, trim_space,
}
use ai_workflow.Base.{lower_is}
use ai_workflow.Base.Int.{is_nonpositive}
use ai_workflow.Base.Dict.{lookup_or}
use ai_workflow.Base.Value.{null}
use ai_workflow.Workflow.{Node, Edge, Definition}
use ai_workflow.Workflow.Egress.{Platform, any_string, validate_http_tool_url}
use ai_workflow.Workflow.Validate.{supported_node_type, supported_http_method}

abbrev pub trimmed_id : Node → String
trimmed_id n = trim_space n.id

abbrev pub trimmed_ids : List Node → List String
trimmed_ids [] = []
trimmed_ids (n ∷ ns) = trimmed_id n ∷ trimmed_ids ns

-- How many edges lead to a node, and from it.
unfoldable pub in_degree : String → List Edge → ℕ
in_degree id [] = 0
in_degree id (e ∷ es) = if trim_space e.to == id then suc (in_degree id es) else in_degree id es

unfoldable pub out_degree : String → List Edge → ℕ
out_degree id [] = 0
out_degree id (e ∷ es) =
    if trim_space e.from == id then suc (out_degree id es) else out_degree id es

abbrev pub method_of : Platform → Node → String
method_of p n = trim_space (any_string p (lookup_or null "method" n.config))

-- An http_tool node has an allowed target and a supported method, if any.
pub record ConfigOk (p : Platform) (n : Node) : Type 0 where
  pub target :
      n.node_type ≡ "http_tool"
      → validate_http_tool_url p (any_string p (lookup_or null "url" n.config)) ≡ none
  pub method :
      n.node_type ≡ "http_tool"
      → (method_of p n ≡ "") ⊎ (supported_http_method (method_of p n) ≡ true)

pub record NodeOk (p : Platform) (n : Node) : Type 0 where
  pub identified : trimmed_id n ≢ ""
  pub typed : supported_node_type (trim_space n.node_type) ≡ true
  pub configured : ConfigOk p n

pub record EdgeOk (ids : List String) (e : Edge) : Type 0 where
  pub from_given : trim_space e.from ≢ ""
  pub to_given : trim_space e.to ≢ ""
  pub no_loop : trim_space e.from ≢ trim_space e.to
  pub source : contains (trim_space e.from) ids ≡ true
  pub target : contains (trim_space e.to) ids ≡ true

pub record DegreeOk (es : List Edge) (n : Node) : Type 0 where
  pub at_most_one : in_degree (trimmed_id n) es ≤ 1
  pub splits : n.node_type ≡ "condition" → 2 ≤ out_degree (trimmed_id n) es

-- Some node has no incoming edge.
unfoldable pub has_root : List Edge → List Node → Bool
has_root es [] = false
has_root es (n ∷ ns) = eqb (in_degree (trimmed_id n) es) 0 || has_root es ns

abbrev pub is_branch : String → Node → Edge → Bool
is_branch label n e = e.from == n.id && lower_is (trim_space e.condition) label

unfoldable pub has_branch : String → Node → List Edge → Bool
has_branch label n [] = false
has_branch label n (e ∷ es) = is_branch label n e || has_branch label n es

abbrev pub IsLabelled : Node → Edge → Type 0
IsLabelled n e =
    e.from ≡ n.id
    → (lower_is (trim_space e.condition) "true" ≡ true)
      ⊎ (lower_is (trim_space e.condition) "false" ≡ true)

pub record BranchesOk (es : List Edge) (n : Node) : Type 0 where
  pub labelled : All (IsLabelled n) es
  pub on_true : has_branch "true" n es ≡ true
  pub on_false : has_branch "false" n es ≡ true

pub record IsWellFormed (p : Platform) (d : Definition) : Type 0 where
  pub named : trim_space d.name ≢ ""
  pub versioned : is_nonpositive d.version ≡ false
  pub nonempty : d.nodes ≢ []
  pub nodes : All (NodeOk p) d.nodes
  pub distinct : Distinct (trimmed_ids d.nodes)
  pub edges : All (EdgeOk (trimmed_ids d.nodes)) d.edges
  pub degrees : All (DegreeOk d.edges) d.nodes
  pub root : has_root d.edges d.nodes ≡ true
  pub branches : All (λ n. n.node_type ≡ "condition" → BranchesOk d.edges n) d.nodes
