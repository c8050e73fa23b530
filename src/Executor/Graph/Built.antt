-- ===== src/Executor/Graph/Built.antt =====
-- The graph that `buildGraph` (internal/executor/graph.go) makes of a definition.
use ai_workflow.Base.{
  ℕ, suc, ◌+◌, ◌≤◌, ◌≡◌, ◌≢◌, refl, sym, ap, ◌∙◌, String, true, false, ◌&&◌, none, some, Option,
  List, [], ◌∷◌, ◌++◌, arith, eqb, if◌then◌else◌, contains, Distinct, ok, ◌==◌, eq_iff, trim_space,
}
use ai_workflow.Base.Dict.{Dict, lookup, insert, lookup_or, lookup-insert}
use mathlib.Core.Path.{subst}
use mathlib.Core.List.{append-nil, append_assoc}
use ai_workflow.Workflow.{Node, Edge, Definition}
use ai_workflow.Workflow.Egress.{Platform}
use ai_workflow.Workflow.Validate.{validate_definition}
use ai_workflow.Workflow.Validate.Spec.{IsWellFormed, in_degree, has_root, trimmed_ids, trimmed_id}
use ai_workflow.Workflow.Validate.Correct.{validate_iff}
use ai_workflow.Executor.Graph.{
  Graph, build_graph, add_nodes, zero_degrees, add_outbound, add_degrees, find_roots, if_rooted,
}

pub ids : List Node → List String
ids [] = []
ids (n ∷ ns) = n.id ∷ ids ns

-- The edges that leave a node, in their order, and how many lead to it.
unfoldable pub edges_from : String → List Edge → List Edge
edges_from id [] = []
edges_from id (e ∷ es) = if e.from == id then e ∷ edges_from id es else edges_from id es

pub edges_to : String → List Edge → ℕ
edges_to id [] = 0
edges_to id (e ∷ es) = if e.to == id then suc (edges_to id es) else edges_to id es

-- Every node is stored under its id.
abbrev pub IsKeyedDict : Dict Node → Type 0
IsKeyedDict m = (k : String) (n : Node) → lookup k m ≡ some n → n.id ≡ k

add_nodes-IsKeyedDict :
    (ns : List Node) (m : Dict Node) → IsKeyedDict m → IsKeyedDict (add_nodes ns m)
unfolding add_nodes
add_nodes-IsKeyedDict [] m h = h
add_nodes-IsKeyedDict (n ∷ ns) m h =
    add_nodes-IsKeyedDict ns (insert n.id n m)
      (λ k x e. ground (arith, lookup-insert n.id k n m, h k x, eq_iff n.id k))

-- The last of the nodes with an id.
abbrev pub last_node : String → Option Node → List Node → Option Node
last_node id found [] = found
last_node id found (n ∷ ns) = last_node id (if n.id == id then some n else found) ns

lookup-add_nodes :
    (id : String) (ns : List Node) (m : Dict Node)
    → lookup id (add_nodes ns m) ≡ last_node id (lookup id m) ns
unfolding add_nodes
lookup-add_nodes id [] m = refl
lookup-add_nodes id (n ∷ ns) m =
    lookup-add_nodes id ns (insert n.id n m)
    ∙ ap (λ (found : Option Node). last_node id found ns) (lookup-insert n.id id n m)

lookup-add_outbound :
    (id : String) (es : List Edge) (m : Dict (List Edge))
    → lookup_or [] id (add_outbound es m) ≡ lookup_or [] id m ++ edges_from id es
unfolding add_outbound edges_from
lookup-add_outbound id [] m = sym (append-nil (lookup_or [] id m))
lookup-add_outbound id (e ∷ es) m =
    let out = lookup_or [] e.from m ++ e ∷ [] in
    ground (
      arith,
      eq_iff e.from id,
      lookup-insert e.from id out m,
      lookup-add_outbound id es (insert e.from out m),
      append_assoc (lookup_or [] id m) (e ∷ []) (edges_from id es),
    )

lookup-add_degrees :
    (id : String) (es : List Edge) (m : Dict ℕ)
    → lookup_or 0 id (add_degrees es m) ≡ lookup_or 0 id m + edges_to id es
unfolding add_degrees edges_to
lookup-add_degrees id [] m = omega arith
lookup-add_degrees id (e ∷ es) m = ground (
  arith,
  eq_iff e.to id,
  lookup-insert e.to id (suc (lookup_or 0 e.to m)) m,
  lookup-add_degrees id es (insert e.to (suc (lookup_or 0 e.to m)) m),
)

lookup-zero_degrees :
    (id : String) (ns : List Node) (m : Dict ℕ)
    → lookup_or 0 id m ≡ 0
    → lookup_or 0 id (zero_degrees ns m) ≡ 0
unfolding zero_degrees
lookup-zero_degrees id [] m h = h
lookup-zero_degrees id (n ∷ ns) m h =
    lookup-zero_degrees id ns (insert n.id 0 m) (ground (arith, lookup-insert n.id id 0 m))

module _ (degrees : Dict ℕ) where
  contains-find_roots :
      (k : String) (ns : List Node)
      → contains k (find_roots degrees ns) ≡ (contains k (ids ns) && eqb (lookup_or 0 k degrees) 0)
  unfolding find_roots ids
  contains-find_roots k [] = refl
  contains-find_roots k (n ∷ ns) = ground (arith, eq_iff n.id k, contains-find_roots k ns)

  find_roots-Distinct : (ns : List Node) → Distinct (ids ns) → Distinct (find_roots degrees ns)
  unfolding find_roots ids
  find_roots-Distinct [] d = tt
  find_roots-Distinct (n ∷ ns) d =
      ground (arith, contains-find_roots n.id ns, find_roots-Distinct ns)

if_rooted-eq-ok : (g' g : Graph) (rs : List String) → if_rooted g' rs ≡ ok g → (g' ≡ g) × (rs ≢ [])
unfolding if_rooted
if_rooted-eq-ok g' g [] h = absurd (cc h)
if_rooted-eq-ok g' g (r ∷ rs) h = (cc h, λ e. absurd (cc e))

-- What a built graph holds: each node of the definition under its id and no others, the edges from
-- a node in their order, and as roots the nodes that no edge leads to.
pub record IsGraphOf (d : Definition) (g : Graph) : Type 0 where
  pub held : (k : String) → lookup k g.nodes ≡ last_node k none d.nodes
  pub keyed : (k : String) (n : Node) → lookup k g.nodes ≡ some n → n.id ≡ k
  pub outgoing : (k : String) → lookup_or [] k g.outbound ≡ edges_from k d.edges
  pub initial :
      (k : String) → contains k g.roots ≡ (contains k (ids d.nodes) && eqb (edges_to k d.edges) 0)
  pub rooted : g.roots ≢ []
  pub distinct : Distinct (ids d.nodes) → Distinct g.roots

abbrev graph_of : Definition → Graph
graph_of d = record {
  nodes = add_nodes d.nodes [];
  outbound = add_outbound d.edges [];
  roots = find_roots (add_degrees d.edges (zero_degrees d.nodes [])) d.nodes;
}

degrees_lem :
    (k : String) (d : Definition)
    → lookup_or 0 k (add_degrees d.edges (zero_degrees d.nodes [])) ≡ edges_to k d.edges
unfolding lookup
degrees_lem k d = ground (
  arith,
  lookup-add_degrees k d.edges (zero_degrees d.nodes []),
  lookup-zero_degrees k d.nodes [],
)

graph_of-IsGraphOf : (d : Definition) → (graph_of d).roots ≢ [] → IsGraphOf d (graph_of d)
unfolding lookup
graph_of-IsGraphOf d h =
    let degrees = add_degrees d.edges (zero_degrees d.nodes []) in
    record {
      held = λ k. lookup-add_nodes k d.nodes [];
      keyed = add_nodes-IsKeyedDict d.nodes [] (λ k n e. absurd (cc e));
      outgoing = λ k. lookup-add_outbound k d.edges [];
      initial = λ k. contains-find_roots degrees k d.nodes ∙ rw (degrees_lem k d) refl;
      rooted = h;
      distinct = find_roots-Distinct degrees d.nodes;
    }

-- A graph that is built from a definition holds the definition's nodes, edges and roots.
pub build_graph-IsGraphOf : (d : Definition) (g : Graph) → build_graph d ≡ ok g → IsGraphOf d g
unfolding build_graph
build_graph-IsGraphOf d g h =
    let (same, filled) = if_rooted-eq-ok (graph_of d) g (graph_of d).roots h in
    subst (IsGraphOf d) same (graph_of-IsGraphOf d filled)

edges_to-le-in_degree :
    (id : String) (es : List Edge) → edges_to id es ≤ in_degree (trim_space id) es
unfolding edges_to in_degree
edges_to-le-in_degree id [] = omega arith
edges_to-le-in_degree id (e ∷ es) = ground (
  arith,
  eq_iff e.to id,
  eq_iff (trim_space e.to) (trim_space id),
  edges_to-le-in_degree id es,
  ap trim_space,
)

contains-ids :
    (k : String) (ns : List Node)
    → contains (trim_space k) (trimmed_ids ns) ≡ false
    → contains k (ids ns) ≡ false
unfolding ids
contains-ids k [] h = refl
contains-ids k (n ∷ ns) h =
    ground
      (arith, contains-ids k ns, eq_iff n.id k, eq_iff (trimmed_id n) (trim_space k), ap trim_space)

-- Ids that differ when trimmed differ.
ids-Distinct : (ns : List Node) → Distinct (trimmed_ids ns) → Distinct (ids ns)
unfolding ids
ids-Distinct [] d = tt
ids-Distinct (n ∷ ns) d = ground (arith, contains-ids n.id ns, ids-Distinct ns)

has_root-find_roots :
    (degrees : Dict ℕ) (es : List Edge) (ns : List Node)
    → ((k : String) → lookup_or 0 k degrees ≡ edges_to k es)
    → has_root es ns ≡ true
    → find_roots degrees ns ≢ []
unfolding has_root find_roots
has_root-find_roots degrees es [] same h = absurd (cc h)
has_root-find_roots degrees es (n ∷ ns) same h =
    ground (arith, same n.id, edges_to-le-in_degree n.id es, has_root-find_roots degrees es ns same)

if_rooted_ok : (g : Graph) (rs : List String) → rs ≢ [] → if_rooted g rs ≡ ok g
unfolding if_rooted
if_rooted_ok g [] h = absurd (h refl)
if_rooted_ok g (r ∷ rs) h = refl

-- A graph is built of each well-formed definition.
pub build_graph-IsWellFormed :
    (p : Platform) (d : Definition)
    → IsWellFormed p d
    → (g : Graph) × (build_graph d ≡ ok g) × IsGraphOf d g × Distinct g.roots
unfolding build_graph
build_graph-IsWellFormed p d w =
    let degrees = add_degrees d.edges (zero_degrees d.nodes []) in
    let filled = has_root-find_roots degrees d.edges d.nodes (λ k. degrees_lem k d) w.root in
    let built = graph_of-IsGraphOf d filled in
    (
      graph_of d,
      if_rooted_ok (graph_of d) (graph_of d).roots filled,
      built,
      built.distinct (ids-Distinct d.nodes w.distinct),
    )

-- A definition that `ValidateDefinition` accepts has a graph: it is not refused as cyclic, what the
-- graph holds under an id is the node of the definition with this id, or nothing when there is
-- none, it holds the edges from each node in their order, and its roots are the nodes that no edge
-- leads to, each once.
pub accepted_graph :
    (p : Platform) (d : Definition)
    → (validate_definition p d).valid ≡ true
    → (g : Graph) × (build_graph d ≡ ok g) × IsGraphOf d g × Distinct g.roots
accepted_graph p d h = build_graph-IsWellFormed p d ((validate_iff p d).0 h)
