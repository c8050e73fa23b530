-- ===== src/Workflow/Validate/Degrees.antt =====
-- The third loop of `ValidateDefinition` (internal/workflow/service.go): merges, exits and roots.
use ai_workflow.Base.{
  ◌≡◌, refl, ◌↔◌, String, false, ◌&&◌, List, [], ◌∷◌, ◌++◌, arith, ltb, All, ◌==◌, eq_iff,
}
use ai_workflow.Base.Dict.{lookup_or}
use ai_workflow.Workflow.{Node, Edge}
use ai_workflow.Workflow.Validate.{
  EdgeScan, DegreeScan, scan_degree, scan_degrees, report, edges, two_outgoing, no_merges,
}
use ai_workflow.Workflow.Validate.Spec.{DegreeOk, in_degree, out_degree, trimmed_id, has_root}
use ai_workflow.Workflow.Validate.Nodes.{entries}
use ai_workflow.Workflow.Validate.Laws.{append-eq-nil}

-- The counts of the second loop are the degrees.
abbrev pub Counts : EdgeScan → List Edge → Type 0
Counts t es =
    (id : String)
    → (lookup_or 0 id t.incoming ≡ in_degree id es) × (lookup_or 0 id t.outgoing ≡ out_degree id es)

module _ (t : EdgeScan) (es : List Edge) (counts : Counts t es) where
  scan_degree_iff :
      (n : Node) (s : DegreeScan)
      → ((scan_degree t (trimmed_id n, n) s).errors ≡ []) ↔ ((s.errors ≡ []) × DegreeOk es n)
  unfolding scan_degree
  scan_degree_iff n s =
      let id = trimmed_id n in
      let one_exit =
        report (n.node_type == "condition" && ltb (lookup_or 0 id t.outgoing) 2) edges
          two_outgoing in
      ground (
        arith,
        counts id,
        eq_iff n.node_type "condition",
        append-eq-nil s.errors one_exit,
        append-eq-nil (s.errors ++ one_exit)
            (report (ltb 1 (lookup_or 0 id t.incoming)) edges no_merges),
      )

  pub scan_degrees_iff :
      (ns : List Node) (s : DegreeScan)
      → ((scan_degrees t (entries ns) s).errors ≡ []) ↔ ((s.errors ≡ []) × All (DegreeOk es) ns)
  unfolding scan_degrees
  scan_degrees_iff [] s = (λ e. (e, tt), λ h. h.0)
  scan_degrees_iff (n ∷ ns) s =
      let (one_to, one_from) = scan_degree_iff n s in
      let (rest_to, rest_from) = scan_degrees_iff ns (scan_degree t (trimmed_id n, n) s) in
      (
        λ c.
            let (clean, rest) = rest_to c in
            let (before, good) = one_to clean in (before, (good, rest)),
        λ h. rest_from (one_from (h.0, h.1.0), h.1.1),
      )

  -- The roots counted are none exactly when no node is without an incoming edge.
  pub root_count_iff :
      (ns : List Node) (s : DegreeScan)
      → ((scan_degrees t (entries ns) s).root_count ≡ 0)
        ↔ ((s.root_count ≡ 0) × (has_root es ns ≡ false))
  unfolding scan_degrees has_root scan_degree
  root_count_iff [] s = (λ e. (e, refl), λ h. h.0)
  root_count_iff (n ∷ ns) s =
      ground (arith, counts (trimmed_id n), root_count_iff ns (scan_degree t (trimmed_id n, n) s))

-- The loop only adds errors, whatever the entries and the counts.
scan_degree_adds :
    (t : EdgeScan) (entry : String × Node) (s : DegreeScan)
    → (scan_degree t entry s).errors ≡ []
    → s.errors ≡ []
unfolding scan_degree
scan_degree_adds t (id, n) s h =
    let one_exit =
      report (n.node_type == "condition" && ltb (lookup_or 0 id t.outgoing) 2) edges two_outgoing in
    let merge = report (ltb 1 (lookup_or 0 id t.incoming)) edges no_merges in
    ((append-eq-nil s.errors one_exit).0 ((append-eq-nil (s.errors ++ one_exit) merge).0 h).0).0

pub scan_degrees_adds :
    (t : EdgeScan) (items : List (String × Node)) (s : DegreeScan)
    → (scan_degrees t items s).errors ≡ []
    → s.errors ≡ []
unfolding scan_degrees
scan_degrees_adds t [] s h = h
scan_degrees_adds t (entry ∷ rest) s h =
    scan_degree_adds t entry s (scan_degrees_adds t rest (scan_degree t entry s) h)
