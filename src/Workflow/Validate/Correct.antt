-- ===== src/Workflow/Validate/Correct.antt =====
-- `ValidateDefinition` (internal/workflow/service.go) against its specification.
use ai_workflow.Base.{
  ◌≡◌, ◌≢◌, refl, ◌↔◌, true, false, not, ◌&&◌, List, [], ◌∷◌, ◌++◌, arith, eqb, All, Distinct,
  eq_iff, trim_space, is_blank,
}
use ai_workflow.Base.Int.{is_nonpositive}
use ai_workflow.Base.Dict.{keys, lookup}
use ai_workflow.Workflow.{Node, Definition}
use ai_workflow.Workflow.Egress.{Platform}
use ai_workflow.Workflow.Validate.{
  DegreeScan, report, name, version, nodes, name_required, version_positive, node_required,
  root_required, header_errors, node_scan, edge_scan, degree_scan, all_errors, is_nil,
  validate_definition,
}
use ai_workflow.Workflow.Validate.Spec.{
  trimmed_ids, NodeOk, EdgeOk, DegreeOk, BranchesOk, has_root, IsWellFormed,
}
use ai_workflow.Workflow.Validate.Nodes.{entries, scan_nodes_iff, scan_nodes_ids, NodesFrom-nil_iff}
use ai_workflow.Workflow.Validate.Edges.{scan_edges_iff, scan_edges_degrees}
use ai_workflow.Workflow.Validate.Degrees.{
  Counts, scan_degrees_iff, root_count_iff, scan_degrees_adds,
}
use ai_workflow.Workflow.Validate.Branches.{scan_conditions_iff}
use ai_workflow.Workflow.Validate.Laws.{append-eq-nil, is_nil_iff}

record HeaderOk (d : Definition) : Type 0 where
  named : trim_space d.name ≢ ""
  versioned : is_nonpositive d.version ≡ false
  nonempty : d.nodes ≢ []

header_iff : (d : Definition) → (header_errors d ≡ []) ↔ HeaderOk d
unfolding header_errors is_blank
header_iff d =
    let a = report (is_blank d.name) name name_required in
    let b = report (is_nonpositive d.version) version version_positive in
    let c = report (is_nil d.nodes) nodes node_required in
    ground (
      arith,
      append-eq-nil (a ++ b) c,
      append-eq-nil a b,
      eq_iff (trim_space d.name) "",
      is_nil_iff d.nodes,
    )

keys-entries : (ns : List Node) → keys (entries ns) ≡ trimmed_ids ns
keys-entries [] = refl
keys-entries (n ∷ ns) = rw (keys-entries ns)

module _ (p : Platform) (d : Definition) where
  nodes_iff :
      ((node_scan p d).errors ≡ [])
      ↔ (HeaderOk d × All (NodeOk p) d.nodes × Distinct (trimmed_ids d.nodes))
  unfolding node_scan
  nodes_iff =
      let (to, from) =
        scan_nodes_iff p 0 d.nodes (record { errors = header_errors d; node_ids = [] }) in
      let (spec_to, spec_from) = NodesFrom-nil_iff p d.nodes in
      (
        λ e.
            let (clean, good) = to e in
            ((header_iff d).0 clean, (spec_to good).0, (spec_to good).1),
        λ h. from ((header_iff d).1 h.0, spec_from (h.1, h.2)),
      )

  node_ids_lem :
      All (NodeOk p) d.nodes
      → Distinct (trimmed_ids d.nodes)
      → (node_scan p d).node_ids ≡ entries d.nodes
  unfolding node_scan
  node_ids_lem good distinct =
      scan_nodes_ids p 0 d.nodes (record { errors = header_errors d; node_ids = [] })
        ((NodesFrom-nil_iff p d.nodes).1 (good, distinct))

  edges_iff :
      (node_scan p d).node_ids ≡ entries d.nodes
      → ((edge_scan p d).errors ≡ [])
        ↔ (((node_scan p d).errors ≡ []) × All (EdgeOk (trimmed_ids d.nodes)) d.edges)
  unfolding edge_scan
  edges_iff ids =
      let both =
        scan_edges_iff (entries d.nodes) 0 d.edges
          (record { errors = (node_scan p d).errors; incoming = []; outgoing = [] }) in
      rw ids (rw (keys-entries d.nodes) at both)

  counts : All (EdgeOk (trimmed_ids d.nodes)) d.edges → Counts (edge_scan p d) d.edges
  unfolding edge_scan lookup
  counts good id =
      let h =
        scan_edges_degrees (node_scan p d).node_ids 0 (trimmed_ids d.nodes) d.edges
          (record { errors = (node_scan p d).errors; incoming = []; outgoing = [] }) id good in
      (omega (arith, h.0), omega (arith, h.1))

  degrees_iff :
      (node_scan p d).node_ids ≡ entries d.nodes
      → All (EdgeOk (trimmed_ids d.nodes)) d.edges
      → (((degree_scan p d).errors ≡ [])
          ↔ (((edge_scan p d).errors ≡ []) × All (DegreeOk d.edges) d.nodes))
        × (((degree_scan p d).root_count ≡ 0) ↔ (has_root d.edges d.nodes ≡ false))
  unfolding degree_scan
  degrees_iff ids good =
      let start : DegreeScan = record { errors = (edge_scan p d).errors; root_count = 0 } in
      let one = scan_degrees_iff (edge_scan p d) d.edges (counts good) d.nodes start in
      let two = root_count_iff (edge_scan p d) d.edges (counts good) d.nodes start in
      rw ids (one, (λ e. (two.0 e).1, λ h. two.1 (refl, h)))

  is_nil-entries : d.nodes ≢ [] → is_nil (entries d.nodes) ≡ false
  unfolding is_nil
  is_nil-entries h = ground arith

  -- Every loop only adds errors.
  all_errors_iff : (all_errors p d ≡ []) ↔ (
      ((degree_scan p d).errors ≡ [])
      × ((not (is_nil (node_scan p d).node_ids) && eqb (degree_scan p d).root_count 0) ≡ false)
      × All (λ n. n.node_type ≡ "condition" → BranchesOk d.edges n) d.nodes)
  unfolding all_errors
  all_errors_iff =
      let test = not (is_nil (node_scan p d).node_ids) && eqb (degree_scan p d).root_count 0 in
      let before = (degree_scan p d).errors ++ report test nodes root_required in
      ground (
        arith,
        scan_conditions_iff d.edges d.nodes before,
        append-eq-nil (degree_scan p d).errors (report test nodes root_required),
      )

  valid_iff : ((validate_definition p d).valid ≡ true) ↔ (all_errors p d ≡ [])
  unfolding validate_definition
  valid_iff = is_nil_iff (all_errors p d)

  edges_clean : (degree_scan p d).errors ≡ [] → (edge_scan p d).errors ≡ []
  unfolding degree_scan
  edges_clean e =
      scan_degrees_adds (edge_scan p d) (node_scan p d).node_ids
        (record { errors = (edge_scan p d).errors; root_count = 0 }) e

  nodes_clean : (edge_scan p d).errors ≡ [] → (node_scan p d).errors ≡ []
  unfolding edge_scan
  nodes_clean e =
      ((scan_edges_iff (node_scan p d).node_ids 0 d.edges
          (record { errors = (node_scan p d).errors; incoming = []; outgoing = [] })).0
        e).0

  rooted_iff :
      (node_scan p d).node_ids ≡ entries d.nodes
      → d.nodes ≢ []
      → ((degree_scan p d).root_count ≡ 0) ↔ (has_root d.edges d.nodes ≡ false)
      → ((not (is_nil (node_scan p d).node_ids) && eqb (degree_scan p d).root_count 0) ≡ false)
        ↔ (has_root d.edges d.nodes ≡ true)
  rooted_iff ids filled roots = rw (ids, is_nil-entries filled) (ground arith)

  valid-IsWellFormed : (validate_definition p d).valid ≡ true → IsWellFormed p d
  valid-IsWellFormed e =
      let (clean, rooted, branches) = all_errors_iff.0 (valid_iff.0 e) in
      let edges_done = edges_clean clean in
      let (header, good, distinct) = nodes_iff.0 (nodes_clean edges_done) in
      let ids = node_ids_lem good distinct in
      let (_, joined) = (edges_iff ids).0 edges_done in
      let (degrees, roots) = degrees_iff ids joined in
      record {
        named = header.named;
        versioned = header.versioned;
        nonempty = header.nonempty;
        nodes = good;
        distinct = distinct;
        edges = joined;
        degrees = (degrees.0 clean).1;
        root = (rooted_iff ids header.nonempty roots).0 rooted;
        branches = branches;
      }

  IsWellFormed-valid : IsWellFormed p d → (validate_definition p d).valid ≡ true
  IsWellFormed-valid w =
      let header : HeaderOk d = record {
        named = w.named;
        versioned = w.versioned;
        nonempty = w.nonempty;
      } in
      let ids = node_ids_lem w.nodes w.distinct in
      let nodes_done = nodes_iff.1 (header, w.nodes, w.distinct) in
      let edges_done = (edges_iff ids).1 (nodes_done, w.edges) in
      let (degrees, roots) = degrees_iff ids w.edges in
      valid_iff.1 (
        all_errors_iff.1 (
          degrees.1 (edges_done, w.degrees),
          (rooted_iff ids w.nonempty roots).1 w.root,
          w.branches,
        ))

-- A definition is accepted exactly when it is well formed: it has a name, a positive version, nodes
-- with distinct ids, supported types and allowed targets, edges between two different existing
-- nodes, at most one edge into each node, a root, and on each condition node only edges labelled
-- true or false, with both labels and at least two edges there.
pub validate_iff :
    (p : Platform) (d : Definition) → ((validate_definition p d).valid ≡ true) ↔ IsWellFormed p d
validate_iff p d = (valid-IsWellFormed p d, IsWellFormed-valid p d)
