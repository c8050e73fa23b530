-- ===== src/Workflow/Validate/Nodes.antt =====
-- The first loop of `ValidateDefinition` (internal/workflow/service.go): nodes and their ids.
use ai_workflow.Base.{
  ℕ, suc, ◌≡◌, ◌≢◌, refl, sym, ◌∙◌, ◌↔◌, ◌⊎◌, inl, inr, String, true, false, not, ◌&&◌, none, List,
  [], ◌∷◌, ◌++◌, arith, Bool-cases, All, contains, Distinct, ◌==◌, eq_iff, trim_space,
}
use mathlib.Core.List.{append-nil, append_assoc}
use ai_workflow.Base.Lists.{contains-concat}
use ai_workflow.Base.Dict.{
  Dict, lookup_or, keys, has_key-eq-contains, insert-eq-concat, keys-append,
}
use ai_workflow.Base.Value.{null}
use ai_workflow.Workflow.{Node}
use ai_workflow.Workflow.Egress.{Platform, any_string, validate_http_tool_url}
use ai_workflow.Workflow.Validate.{
  NodeScan, scan_node, scan_nodes, validate_node_config, url_errors, validate_http_tool_node,
  report, supported_node_type, supported_http_method, node_method, node_type, unsupported_method,
  unsupported_type, node_id, id_required, id_unique,
}
use ai_workflow.Workflow.Validate.Spec.{trimmed_id, trimmed_ids, method_of, ConfigOk, NodeOk}
use ai_workflow.Workflow.Validate.Laws.{append-eq-nil, concat-ne-nil}

http_tool_iff :
    (p : Platform) (n : Node) (i : ℕ)
    → (validate_http_tool_node p n i ≡ []) ↔ (
        (validate_http_tool_url p (any_string p (lookup_or null "url" n.config)) ≡ none)
        × ((method_of p n ≡ "") ⊎ (supported_http_method (method_of p n) ≡ true)))
unfolding validate_http_tool_node url_errors
http_tool_iff p n i =
    let url = validate_http_tool_url p (any_string p (lookup_or null "url" n.config)) in
    let wrong = not (method_of p n == "") && not (supported_http_method (method_of p n)) in
    ground (
      arith,
      append-eq-nil (url_errors url i) (report wrong (node_method i) unsupported_method),
      eq_iff (method_of p n) "",
    )

config_iff : (p : Platform) (n : Node) (i : ℕ) → (validate_node_config p n i ≡ []) ↔ ConfigOk p n
unfolding validate_node_config
config_iff p n i =
    let (to, from) = http_tool_iff p n i in
    let is_http = eq_iff n.node_type "http_tool" in
    elim (Bool-cases (n.node_type == "http_tool")) [
      | inl http ↦ (
        λ e.
            let (url, method) = to (rw http at e) in
            record { target = λ _. url; method = λ _. method },
        λ ok. rw http (from (ok.target (is_http.0 http), ok.method (is_http.0 http))),
      )
      | inr other ↦ (
        λ _. record {
          target = λ e. absurd (cc (is_http.1 e));
          method = λ e. absurd (cc (is_http.1 e));
        },
        λ _. rw other,
      )
    ]

-- The nodes from here on, after nodes with the given ids.
abbrev pub NodesFrom : Platform → List String → List Node → Type 0
NodesFrom p ids [] = Unit
NodesFrom p ids (n ∷ ns) =
    NodeOk p n × (contains (trimmed_id n) ids ≡ false) × NodesFrom p (ids ++ trimmed_id n ∷ []) ns

scan_node_iff :
    (p : Platform) (i : ℕ) (n : Node) (s : NodeScan)
    → ((scan_node p i n s).errors ≡ [])
      ↔ ((s.errors ≡ []) × NodeOk p n × (contains (trimmed_id n) (keys s.node_ids) ≡ false))
unfolding scan_node
scan_node_iff p i n s =
    let typed =
      report (not (supported_node_type (trim_space n.node_type))) (node_type i) unsupported_type in
    ground (
      arith,
      eq_iff (trimmed_id n) "",
      has_key-eq-contains (trimmed_id n) s.node_ids,
      concat-ne-nil s.errors,
      append-eq-nil s.errors typed,
      append-eq-nil (s.errors ++ typed) (validate_node_config p n i),
      append-eq-nil s.errors (record { field = node_id i; message = id_required } ∷ []),
      append-eq-nil s.errors (record { field = node_id i; message = id_unique } ∷ []),
      config_iff p n i,
    )

scan_node_ids :
    (p : Platform) (i : ℕ) (n : Node) (s : NodeScan)
    → trimmed_id n ≢ ""
    → contains (trimmed_id n) (keys s.node_ids) ≡ false
    → (scan_node p i n s).node_ids ≡ s.node_ids ++ (trimmed_id n, n) ∷ []
unfolding scan_node
scan_node_ids p i n s given new = ground (
  arith,
  eq_iff (trimmed_id n) "",
  has_key-eq-contains (trimmed_id n) s.node_ids,
  insert-eq-concat (trimmed_id n) n s.node_ids,
)

abbrev pub entries : List Node → Dict Node
entries [] = []
entries (n ∷ ns) = (trimmed_id n, n) ∷ entries ns

keys-scan_node :
    (p : Platform) (i : ℕ) (n : Node) (s : NodeScan)
    → trimmed_id n ≢ ""
    → contains (trimmed_id n) (keys s.node_ids) ≡ false
    → keys (scan_node p i n s).node_ids ≡ keys s.node_ids ++ trimmed_id n ∷ []
keys-scan_node p i n s given new =
    rw (scan_node_ids p i n s given new) (keys-append s.node_ids ((trimmed_id n, n) ∷ []))

pub scan_nodes_iff :
    (p : Platform) (i : ℕ) (ns : List Node) (s : NodeScan)
    → ((scan_nodes p i ns s).errors ≡ []) ↔ ((s.errors ≡ []) × NodesFrom p (keys s.node_ids) ns)
unfolding scan_nodes
scan_nodes_iff p i [] s = (λ e. (e, tt), λ h. h.0)
scan_nodes_iff p i (n ∷ ns) s =
    let s' = scan_node p i n s in
    let (one_to, one_from) = scan_node_iff p i n s in
    let (rest_to, rest_from) = scan_nodes_iff p (suc i) ns s' in
    (
      λ e.
          let (clean, rest) = rest_to e in
          let (before, good, new) = one_to clean in
          (before, (good, new, rw (keys-scan_node p i n s good.identified new) at rest)),
      λ h.
          let (good, new, rest) = h.1 in
          rest_from
            (one_from (h.0, good, new), rw (keys-scan_node p i n s good.identified new) rest),
    )

pub scan_nodes_ids :
    (p : Platform) (i : ℕ) (ns : List Node) (s : NodeScan)
    → NodesFrom p (keys s.node_ids) ns
    → (scan_nodes p i ns s).node_ids ≡ s.node_ids ++ entries ns
unfolding scan_nodes
scan_nodes_ids p i [] s h = sym (append-nil s.node_ids)
scan_nodes_ids p i (n ∷ ns) s (good, new, rest) =
    let s' = scan_node p i n s in
    let grown = scan_node_ids p i n s good.identified new in
    scan_nodes_ids p (suc i) ns s' (rw (keys-scan_node p i n s good.identified new) rest)
    ∙ rw grown (append_assoc s.node_ids ((trimmed_id n, n) ∷ []) (entries ns))

Apart : List String → List Node → Type 0
Apart ids = All (λ n. contains (trimmed_id n) ids ≡ false)

Apart-concat :
    (ids : List String) (x : String) (ns : List Node)
    → Apart (ids ++ x ∷ []) ns ↔ (Apart ids ns × (contains x (trimmed_ids ns) ≡ false))
unfolding Apart
Apart-concat ids x [] = (λ _. (tt, refl), λ _. tt)
Apart-concat ids x (n ∷ ns) = ground (
  arith,
  Apart-concat ids x ns,
  contains-concat (trimmed_id n) x ids,
  eq_iff (trimmed_id n) x,
  eq_iff x (trimmed_id n),
)

NodesFrom-iff :
    (p : Platform) (ids : List String) (ns : List Node)
    → NodesFrom p ids ns ↔ (All (NodeOk p) ns × Distinct (trimmed_ids ns) × Apart ids ns)
unfolding Apart
NodesFrom-iff p ids [] = (λ _. (tt, tt, tt), λ _. tt)
NodesFrom-iff p ids (n ∷ ns) =
    let (to, from) = NodesFrom-iff p (ids ++ trimmed_id n ∷ []) ns in
    let (apart_to, apart_from) = Apart-concat ids (trimmed_id n) ns in
    (
      λ h.
          let (goods, distinct, apart) = to h.2 in
          let (old, own) = apart_to apart in ((h.0, goods), (own, distinct), (h.1, old)),
      λ h. (h.0.0, h.2.0, from (h.0.1, h.1.1, apart_from (h.2.1, h.1.0))),
    )

Apart-nil : (ns : List Node) → Apart [] ns
unfolding Apart
Apart-nil [] = tt
Apart-nil (n ∷ ns) = (refl, Apart-nil ns)

pub NodesFrom-nil_iff :
    (p : Platform) (ns : List Node)
    → NodesFrom p [] ns ↔ (All (NodeOk p) ns × Distinct (trimmed_ids ns))
NodesFrom-nil_iff p ns =
    let (to, from) = NodesFrom-iff p [] ns in
    (λ h. ((to h).0, (to h).1), λ h. from (h.0, h.1, Apart-nil ns))
