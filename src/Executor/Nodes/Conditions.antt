-- ===== src/Executor/Nodes/Conditions.antt =====
-- Which way a condition node goes (`executeCondition` of internal/executor/nodes.go and `next` of
-- graph.go).
use ai_workflow.Base.{
  ◌≡◌, refl, sym, ap, inl, inr, String, Bool, true, false, [], if◌then◌else◌, Bool-cases, Result,
  ok, err, ◌==◌, eq_iff, trim_space,
}
use ai_workflow.Base.{List, ◌∷◌, map, equal_fold}
use ai_workflow.Base.Lists.{keep}
use ai_workflow.Base.Dict.{Dict, lookup_or}
use ai_workflow.Base.Value.{Value}
use ai_workflow.Workflow.{Node, Edge}
use ai_workflow.Executor.{Env}
use ai_workflow.Executor.Graph.{Graph, next, labelled_targets, matched}
use ai_workflow.Executor.Config.{string_config}
use ai_workflow.Executor.Nodes.{condition_value, execute_condition, condition_result}

-- What is returned says whether the condition matched.
condition_result-matched :
    (m : Bool) (operator value target : String) (out : Value)
    → condition_result m operator value target ≡ ok out
    → matched out ≡ m
unfolding condition_result matched
condition_result-matched m operator value target out h = ap matched_in (sym h)
  where
    matched_in : Result String Value → Bool
    matched_in (ok v) = matched v
    matched_in (err e) = false

-- Whether the condition holds: the value equals the target without regard to case and to the space
-- around them, or contains it without regard to case.
abbrev pub holds : Env → Dict Value → Dict Value → Dict Value → Bool
holds env config input outputs =
    let value = condition_value env config input outputs in
    let target = string_config env config "equals" (string_config env config "value" "") in
    if env.to_lower (string_config env config "operator" "equals") == "equals"
    then env.equal_fold (trim_space value) (trim_space target)
    else env.has_text (env.to_lower value) (env.to_lower target)

execute_condition-matched :
    (env : Env) (config input outputs : Dict Value) (out : Value)
    → execute_condition env config input outputs ≡ ok out
    → matched out ≡ holds env config input outputs
unfolding execute_condition
execute_condition-matched env config input outputs out h =
    let operator = env.to_lower (string_config env config "operator" "equals") in
    elim (Bool-cases (operator == "equals")) [
      | inl eq ↦ simp eq (condition_result-matched _ _ _ _ out (simp eq at h))
      | inr ne ↦ elim (Bool-cases (operator == "contains")) [
        | inl con ↦ simp ne (condition_result-matched _ _ _ _ out (simp (ne, con) at h))
        | inr bad ↦ absurd (cc (simp (ne, bad) at h))
      ]
    ]

-- The targets of the edges with a label, without regard to case and to the space around it.
abbrev pub targets_with : String → List Edge → List String
targets_with label edges =
    map (λ (e : Edge). e.to) (keep (λ (e : Edge). equal_fold (trim_space e.condition) label) edges)

labelled_targets-eq :
    (label : String) (edges : List Edge) → labelled_targets label edges ≡ targets_with label edges
unfolding labelled_targets
labelled_targets-eq label [] = refl
labelled_targets-eq label (e ∷ es) = elim (Bool-cases (equal_fold (trim_space e.condition) label)) [
  | inl taken ↦ rw taken (ap (◌∷◌ e.to) (labelled_targets-eq label es))
  | inr skipped ↦ rw skipped (labelled_targets-eq label es)
]

-- A condition node that succeeds goes on to the targets of those of its edges, in their order, that
-- are labelled with whether its condition holds.
pub condition_routes :
    (env : Env) (g : Graph) (n : Node) (input outputs : Dict Value) (out : Value)
    → n.node_type ≡ "condition"
    → execute_condition env n.config input outputs ≡ ok out
    → next g n out
      ≡ targets_with
          (if holds env n.config input outputs then "true" else "false")
          (lookup_or [] n.id g.outbound)
unfolding next
condition_routes env g n input outputs out t h =
    let test : (n.node_type == "condition") ≡ true = (eq_iff n.node_type "condition").1 t in
    simp (test, execute_condition-matched env n.config input outputs out h)
      (labelled_targets-eq (if holds env n.config input outputs then "true" else "false")
        (lookup_or [] n.id g.outbound))
