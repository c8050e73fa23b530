-- ===== src/Workflow/Validate/Branches.antt =====
-- The last loop of `ValidateDefinition` (internal/workflow/service.go): the labels of condition
-- edges.
use ai_workflow.Base.{
  ◌≡◌, refl, ◌↔◌, String, true, false, not, ◌||◌, List, [], ◌∷◌, arith, All, eq_iff, trim_space,
}
use ai_workflow.Base.{lower_is}
use ai_workflow.Workflow.{Node, Edge}
use ai_workflow.Workflow.Validate.{
  ValidationError, BranchScan, scan_branch, scan_branches, scan_condition, scan_conditions, report,
  edges, edge_label, both_branches,
}
use ai_workflow.Workflow.Validate.Spec.{IsLabelled, BranchesOk, has_branch}
use ai_workflow.Workflow.Validate.Laws.{append-eq-nil, concat-ne-nil}

-- No text has the lower case of both labels.
one_label : (s : String) → lower_is s "true" ≡ true → lower_is s "false" ≡ false
unfolding lower_is
one_label String.[] h = refl
one_label (String.◌∷◌ c s) h = ground arith

module _ (n : Node) where
  pub record Scanned (es : List Edge) (before after : BranchScan) : Type 0 where
    pub clean : (after.errors ≡ []) ↔ ((before.errors ≡ []) × All (IsLabelled n) es)
    pub on_true : after.true_branch ≡ (before.true_branch || has_branch "true" n es)
    pub on_false : after.false_branch ≡ (before.false_branch || has_branch "false" n es)

  scan_branch-Scanned : (e : Edge) (s : BranchScan) → Scanned (e ∷ []) s (scan_branch n e s)
  unfolding scan_branch has_branch
  scan_branch-Scanned e s = ground (
    arith,
    eq_iff e.from n.id,
    one_label (trim_space e.condition),
    concat-ne-nil s.errors,
    append-eq-nil s.errors (record { field = edges; message = edge_label } ∷ []),
  )

  scan_branches-Scanned : (es : List Edge) (s : BranchScan) → Scanned es s (scan_branches n es s)
  unfolding scan_branches has_branch
  scan_branches-Scanned [] s = record {
    clean = (λ e. (e, tt), λ h. h.0);
    on_true = ground arith;
    on_false = ground arith;
  }
  scan_branches-Scanned (e ∷ es) s =
      let one = scan_branch-Scanned e s in
      let rest = scan_branches-Scanned es (scan_branch n e s) in
      ground (arith, one.on_true, one.on_false, rest.on_true, rest.on_false, one.clean, rest.clean)

scan_condition_iff :
    (es : List Edge) (n : Node) (errors : List ValidationError)
    → (scan_condition es n errors ≡ [])
      ↔ ((errors ≡ []) × (n.node_type ≡ "condition" → BranchesOk es n))
unfolding scan_condition
scan_condition_iff es n errors =
    let start : BranchScan = record {
      errors = errors;
      true_branch = false;
      false_branch = false;
    } in
    let s = scan_branches n es start in
    let scanned = scan_branches-Scanned n es start in
    ground (
      arith,
      eq_iff n.node_type "condition",
      scanned.clean,
      scanned.on_true,
      scanned.on_false,
      append-eq-nil s.errors (report (not s.true_branch || not s.false_branch) edges both_branches),
    )

-- The loop reports nothing exactly when every condition node has both branches and no other.
pub scan_conditions_iff :
    (es : List Edge) (ns : List Node) (errors : List ValidationError)
    → (scan_conditions es ns errors ≡ [])
      ↔ ((errors ≡ []) × All (λ n. n.node_type ≡ "condition" → BranchesOk es n) ns)
unfolding scan_conditions
scan_conditions_iff es [] errors = (λ e. (e, tt), λ h. h.0)
scan_conditions_iff es (n ∷ ns) errors =
    let (one_to, one_from) = scan_condition_iff es n errors in
    let (rest_to, rest_from) = scan_conditions_iff es ns (scan_condition es n errors) in
    (
      λ c.
          let (clean, rest) = rest_to c in
          let (before, good) = one_to clean in (before, (good, rest)),
      λ h. rest_from (one_from (h.0, h.1.0), h.1.1),
    )
