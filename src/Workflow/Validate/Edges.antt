-- ===== src/Workflow/Validate/Edges.antt =====
-- The second loop of `ValidateDefinition` (internal/workflow/service.go): edges and their counts.
use ai_workflow.Base.{
  ℕ, suc, ◌+◌, ◌≡◌, ◌≢◌, ◌∙◌, ◌↔◌, String, not, List, [], ◌∷◌, ◌++◌, arith, if◌then◌else◌, All,
  ◌==◌, eq_iff, trim_space,
}
use ai_workflow.Base.Dict.{Dict, lookup_or, has_key, keys, has_key-eq-contains, lookup-insert}
use ai_workflow.Workflow.{Node, Edge}
use ai_workflow.Workflow.Validate.{
  EdgeScan, scan_edge, scan_edges, increment, report, edge, edge_from, edge_to, self_edge,
  unknown_source, unknown_target, endpoints_required,
}
use ai_workflow.Workflow.Validate.Spec.{EdgeOk, in_degree, out_degree}
use ai_workflow.Workflow.Validate.Laws.{append-eq-nil, concat-ne-nil}

scan_edge_iff :
    (m : Dict Node) (i : ℕ) (e : Edge) (s : EdgeScan)
    → ((scan_edge m i e s).errors ≡ []) ↔ ((s.errors ≡ []) × EdgeOk (keys m) e)
unfolding scan_edge
scan_edge_iff m i e s =
    let from = trim_space e.from in
    let to = trim_space e.to in
    let loop = report (from == to) (edge i) self_edge in
    let source = report (not (has_key from m)) (edge_from i) unknown_source in
    let target = report (not (has_key to m)) (edge_to i) unknown_target in
    ground (
      arith,
      eq_iff from "",
      eq_iff to "",
      eq_iff from to,
      has_key-eq-contains from m,
      has_key-eq-contains to m,
      append-eq-nil s.errors (record { field = edge i; message = endpoints_required } ∷ []),
      append-eq-nil s.errors loop,
      append-eq-nil (s.errors ++ loop) source,
      append-eq-nil ((s.errors ++ loop) ++ source) target,
      concat-ne-nil s.errors,
    )

increment_lem :
    (k j : String) (m : Dict ℕ)
    → lookup_or 0 j (increment k m) ≡ (if k == j then suc (lookup_or 0 j m) else lookup_or 0 j m)
unfolding increment
increment_lem k j m = ground (arith, lookup-insert k j (suc (lookup_or 0 k m)) m, eq_iff k j)

scan_edge_degrees :
    (m : Dict Node) (i : ℕ) (e : Edge) (s : EdgeScan)
    → trim_space e.from ≢ ""
    → trim_space e.to ≢ ""
    → ((scan_edge m i e s).incoming ≡ increment (trim_space e.to) s.incoming)
      × ((scan_edge m i e s).outgoing ≡ increment (trim_space e.from) s.outgoing)
unfolding scan_edge
scan_edge_degrees m i e s f t =
    ground (arith, eq_iff (trim_space e.from) "", eq_iff (trim_space e.to) "")

-- The loop reports nothing exactly when the edges are good.
pub scan_edges_iff :
    (m : Dict Node) (i : ℕ) (es : List Edge) (s : EdgeScan)
    → ((scan_edges m i es s).errors ≡ []) ↔ ((s.errors ≡ []) × All (EdgeOk (keys m)) es)
unfolding scan_edges
scan_edges_iff m i [] s = (λ e. (e, tt), λ h. h.0)
scan_edges_iff m i (e ∷ es) s =
    let (one_to, one_from) = scan_edge_iff m i e s in
    let (rest_to, rest_from) = scan_edges_iff m (suc i) es (scan_edge m i e s) in
    (
      λ c.
          let (clean, rest) = rest_to c in
          let (before, good) = one_to clean in (before, (good, rest)),
      λ h. rest_from (one_from (h.0, h.1.0), h.1.1),
    )

-- Where every edge has its endpoints, the loop counts the degrees.
pub scan_edges_degrees :
    (m : Dict Node) (i : ℕ) (ids : List String) (es : List Edge) (s : EdgeScan) (id : String)
    → All (EdgeOk ids) es
    → (lookup_or 0 id (scan_edges m i es s).incoming ≡ lookup_or 0 id s.incoming + in_degree id es)
      × (lookup_or 0 id (scan_edges m i es s).outgoing
          ≡ lookup_or 0 id s.outgoing + out_degree id es)
unfolding scan_edges in_degree out_degree
scan_edges_degrees m i ids [] s id h = (omega arith, omega arith)
scan_edges_degrees m i ids (e ∷ es) s id (good, rest) =
    let (inc, out) = scan_edge_degrees m i e s good.from_given good.to_given in
    let (later_in, later_out) = scan_edges_degrees m (suc i) ids es (scan_edge m i e s) id rest in
    (
      later_in ∙ rw inc (ground (arith, increment_lem (trim_space e.to) id s.incoming)),
      later_out ∙ rw out (ground (arith, increment_lem (trim_space e.from) id s.outgoing)),
    )
