-- ===== src/Executor/Graph/Loops.antt =====
-- The successors of a node (`next` of internal/executor/graph.go) in the graph of an accepted
-- definition.
use ai_workflow.Base.{
  ◌≡◌, refl, ap, String, true, false, List, [], ◌∷◌, arith, if◌then◌else◌, All, contains, ◌==◌,
  eq_iff, trim_space,
}
use ai_workflow.Base.{if_rule}
use ai_workflow.Base.Value.{Value}
use ai_workflow.Workflow.{Node, Edge, Definition}
use ai_workflow.Workflow.Egress.{Platform}
use ai_workflow.Workflow.Validate.{validate_definition}
use ai_workflow.Workflow.Validate.Spec.{EdgeOk, trimmed_ids}
use ai_workflow.Workflow.Validate.Correct.{validate_iff}
use ai_workflow.Executor.Graph.{Graph, next, targets, labelled_targets, matched}
use ai_workflow.Executor.Graph.Built.{IsGraphOf, edges_from}

module _ (ids : List String) (id : String) where
  targets-no_loop :
      (es : List Edge) → All (EdgeOk ids) es → contains id (targets (edges_from id es)) ≡ false
  unfolding targets edges_from
  targets-no_loop [] h = refl
  targets-no_loop (e ∷ es) h =
      ground (
        arith,
        eq_iff e.from id,
        eq_iff e.to id,
        targets-no_loop es h.1,
        ap trim_space,
        h.0.no_loop,
      )

  labelled_targets-no_loop :
      (label : String) (es : List Edge)
      → All (EdgeOk ids) es
      → contains id (labelled_targets label (edges_from id es)) ≡ false
  unfolding labelled_targets edges_from
  labelled_targets-no_loop label [] h = refl
  labelled_targets-no_loop label (e ∷ es) h = ground (
    arith,
    eq_iff e.from id,
    eq_iff e.to id,
    labelled_targets-no_loop label es h.1,
    ap trim_space,
    h.0.no_loop,
  )

pub next-no_loop :
    (p : Platform) (d : Definition) (g : Graph) (n : Node) (out : Value)
    → (validate_definition p d).valid ≡ true
    → IsGraphOf d g
    → contains n.id (next g n out) ≡ false
unfolding next
next-no_loop p d g n out valid built =
    let w = (validate_iff p d).0 valid in
    let ids = trimmed_ids d.nodes in
    rw (built.outgoing n.id) (
      if_rule (λ x. contains n.id x ≡ false) (n.node_type == "condition") _ _
        (labelled_targets-no_loop ids n.id (if matched out then "true" else "false") d.edges
          w.edges)
        (targets-no_loop ids n.id d.edges w.edges))
