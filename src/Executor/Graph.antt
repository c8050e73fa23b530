-- ===== src/Executor/Graph.antt =====
-- internal/executor/graph.go: the graph of a definition, its roots, and the successors of a node.
pub mod Built
pub mod Loops
use ai_workflow.Base.{
  ℕ, suc, String, Bool, false, Option, some, List, [], ◌∷◌, ◌++◌, eqb, if◌then◌else◌, contains,
  Result, ok, err, ◌==◌, trim_space,
}
use ai_workflow.Base.{equal_fold}
use ai_workflow.Base.Dict.{Dict, lookup, lookup_or, insert}
use ai_workflow.Base.Value.{Value, null, bool, str, obj, field, end, get_field}
use ai_workflow.Workflow.{Node, Edge, Definition}

pub record Graph : Type 0 where
  pub nodes : Dict Node
  pub outbound : Dict (List Edge)
  pub roots : List String

pub data GraphError : Type 0 where
  contains_cycle : GraphError

abbrev pub cycle_message : String
cycle_message = "workflow contains a cycle and cannot be executed"

-- The first loop of `buildGraph`.
pub add_nodes : List Node → Dict Node → Dict Node
add_nodes [] m = m
add_nodes (n ∷ ns) m = add_nodes ns (insert n.id n m)

pub zero_degrees : List Node → Dict ℕ → Dict ℕ
zero_degrees [] m = m
zero_degrees (n ∷ ns) m = zero_degrees ns (insert n.id 0 m)

-- The second loop.
pub add_outbound : List Edge → Dict (List Edge) → Dict (List Edge)
add_outbound [] m = m
add_outbound (e ∷ es) m = add_outbound es (insert e.from (lookup_or [] e.from m ++ e ∷ []) m)

pub add_degrees : List Edge → Dict ℕ → Dict ℕ
add_degrees [] m = m
add_degrees (e ∷ es) m = add_degrees es (insert e.to (suc (lookup_or 0 e.to m)) m)

-- The third loop.
pub find_roots : Dict ℕ → List Node → List String
find_roots degrees [] = []
find_roots degrees (n ∷ ns) =
    let rest = find_roots degrees ns in
    if eqb (lookup_or 0 n.id degrees) 0 then n.id ∷ rest else rest

if_rooted : Graph → List String → Result GraphError Graph
if_rooted g [] = err contains_cycle
if_rooted g (r ∷ rs) = ok g

unfoldable pub build_graph : Definition → Result GraphError Graph
unfolding add_nodes zero_degrees add_outbound add_degrees find_roots if_rooted
build_graph d =
    let roots = find_roots (add_degrees d.edges (zero_degrees d.nodes [])) d.nodes in
    if_rooted
      (record { nodes = add_nodes d.nodes []; outbound = add_outbound d.edges []; roots = roots })
      roots

targets : List Edge → List String
targets [] = []
targets (e ∷ es) = e.to ∷ targets es

unfoldable pub labelled_targets : String → List Edge → List String
labelled_targets label [] = []
labelled_targets label (e ∷ es) =
    let rest = labelled_targets label es in
    if equal_fold (trim_space e.condition) label then e.to ∷ rest else rest

pub as_bool : Option Value → Bool
as_bool (some (bool b)) = b
as_bool _ = false

-- `payload["matched"].(bool)`, false where the output is no object or the field no Boolean.
unfoldable pub matched : Value → Bool
unfolding as_bool get_field
matched (obj fields) = as_bool (get_field "matched" fields)
matched _ = false

-- The method `next`.
unfoldable pub next : Graph → Node → Value → List String
unfolding targets labelled_targets matched
next g node output =
    let outgoing = lookup_or [] node.id g.outbound in
    if node.node_type == "condition"
    then labelled_targets (if matched output then "true" else "false") outgoing
    else targets outgoing

-- `buildRunOutput`
unfoldable pub build_run_output : String → Dict Value → Value
build_run_output last_node_id step_outputs =
    if last_node_id == ""
    then null
    else obj (
        field "last_node" (str last_node_id)
          (field "result" (lookup_or null last_node_id step_outputs) end))
