-- ===== src/Rewrite.antt =====
-- crates/onnx-vulkan-core/src/rewrite.rs: the index of readers, the names that subgraphs capture, and the
-- pruning of initializers and nodes that nothing reads. A map or set is a list of its entries.
pub mod Layernorm
pub mod Readers
pub mod Consumers
pub mod Retain
pub mod Prune
pub mod Orphans
pub mod Fold
use onnx_vulkan_rs_edge.Prelude.{
  ℕ, zero, suc, ◌+◌, ◌-◌, Bool, true, false, not, ◌&&◌, ◌||◌, List, [], ◌∷◌, ◌++◌, Option, none,
  some, length, ◌==◌, if◌then◌else◌, String, str_eq,
}
use onnx_vulkan_rs_edge.Graph.Initializer.{InitializerIr}
use onnx_vulkan_rs_edge.Graph.Ir.{
  AttrValue, int, ints, float, floats, string, tensor, graph, Attributes, no_attrs, attr, NodeIr,
  node_ir, Nodes, no_nodes, node, Subgraph, subgraph, GraphIr, inputs_of, outputs_of, attrs_of, has,
  is_empty, outputs_in,
}

-- HashMap::get on the initializers
unfoldable pub entry : String → List (String × InitializerIr) → Option InitializerIr
entry x [] = none
entry x ((name, init) ∷ rest) = if str_eq name x then some init else entry x rest

-- `Index`
pub record Index : Type 0 where
  pub consumers : List (String × List ℕ)
  pub graph_outputs : List String

abbrev pub last_is : ℕ → List ℕ → Bool
last_is i [] = false
last_is i (j ∷ []) = j == i
last_is i (j ∷ k ∷ js) = last_is i (k ∷ js)

-- let list = consumers.entry(name).or_default(); if list.last() != Some(&i) { list.push(i); }
unfoldable pub enter : String → ℕ → List (String × List ℕ) → List (String × List ℕ)
enter name i [] = (name, i ∷ []) ∷ []
enter name i ((key, list) ∷ rest) =
    if str_eq key name
    then (key, if last_is i list then list else list ++ i ∷ []) ∷ rest
    else (key, list) ∷ enter name i rest

unfoldable pub enter_inputs : ℕ → List String → List (String × List ℕ) → List (String × List ℕ)
unfolding enter
enter_inputs i [] consumers = consumers
enter_inputs i (name ∷ ins) consumers =
    enter_inputs i ins (if is_empty name then consumers else enter name i consumers)

unfoldable pub enter_nodes : ℕ → List NodeIr → List (String × List ℕ) → List (String × List ℕ)
unfolding enter_inputs
enter_nodes i [] consumers = consumers
enter_nodes i (n ∷ nodes) consumers =
    enter_nodes (suc i) nodes (enter_inputs i (inputs_of n) consumers)

-- `Index::build`
unfoldable pub build : GraphIr → Index
unfolding enter_nodes
build ir = record { consumers = enter_nodes 0 ir.nodes []; graph_outputs = ir.outputs }

unfoldable pub get_consumers : String → List (String × List ℕ) → Option (List ℕ)
get_consumers name [] = none
get_consumers name ((key, list) ∷ rest) =
    if str_eq key name then some list else get_consumers name rest

unfoldable pub only_consumer : Index → String → Option ℕ
unfolding get_consumers
only_consumer index name =
    if has index.graph_outputs name then none else elim (get_consumers name index.consumers) [
      | none ↦ none
      | some [] ↦ none
      | some (only ∷ []) ↦ some only
      | some (i ∷ j ∷ rest) ↦ none
    ]

-- The names of a list that are not empty and not defined in the subgraph.
abbrev pub undefined : List String → List String → List String
undefined defined [] = []
undefined defined (name ∷ names) =
    if not (is_empty name) && not (has defined name)
    then name ∷ undefined defined names
    else undefined defined names

-- `collect_free_reads`: what it adds to `out`.
unfoldable mutual
  pub free_reads : Subgraph → List String
  free_reads (subgraph nodes initializers ins outs) =
      ins ++ node_reads (ins ++ outputs_in nodes) nodes

  pub node_reads : List String → Nodes → List String
  node_reads defined no_nodes = []
  node_reads defined (node n rest) = reads_of defined n ++ node_reads defined rest

  pub reads_of : List String → NodeIr → List String
  reads_of defined (node_ir d o v name ins outs attrs) = undefined defined ins ++ attr_reads attrs

  pub attr_reads : Attributes → List String
  attr_reads no_attrs = []
  attr_reads (attr key value rest) = value_reads value ++ attr_reads rest

  pub value_reads : AttrValue → List String
  value_reads (int i) = []
  value_reads (ints is) = []
  value_reads (float f) = []
  value_reads (floats fs) = []
  value_reads (string s) = []
  value_reads (tensor t) = []
  value_reads (graph g) = free_reads g

unfoldable pub captured_names : List NodeIr → List String
unfolding attr_reads
captured_names [] = []
captured_names (n ∷ nodes) = attr_reads (attrs_of n) ++ captured_names nodes

unfoldable pub all_inputs : List NodeIr → List String
all_inputs [] = []
all_inputs (n ∷ nodes) = inputs_of n ++ all_inputs nodes

-- The initializers that are kept, and the bytes of the others.
unfoldable pub keep_live :
    List String → List (String × InitializerIr) → List (String × InitializerIr) × ℕ
keep_live live [] = ([], 0)
keep_live live ((name, init) ∷ rest) =
    let (kept, released) = keep_live live rest in
    if has live name then ((name, init) ∷ kept, released) else (kept, length init.bytes + released)

unfoldable pub prune_dead_initializers : GraphIr → GraphIr × ℕ
unfolding captured_names all_inputs keep_live
prune_dead_initializers ir =
    let live = all_inputs ir.nodes ++ (ir.outputs ++ captured_names ir.nodes) in
    let (kept, released) = keep_live live ir.initializers in
    (record ir { initializers = kept }, released)

abbrev pub is_some {ℓ} : {A : Type ℓ} → Option A → Bool
is_some none = false
is_some (some a) = true

-- Whether the closure of `prune_dead_nodes` keeps a name.
abbrev pub is_read : Index → List String → String → Bool
is_read index captured name =
    not (is_empty name)
    && (has index.graph_outputs name
        || (is_some (get_consumers name index.consumers) || has captured name))

abbrev pub any_read : Index → List String → List String → Bool
any_read index captured [] = false
any_read index captured (name ∷ names) =
    is_read index captured name || any_read index captured names

unfoldable pub retain : (NodeIr → Bool) → List NodeIr → List NodeIr
retain keep [] = []
retain keep (n ∷ nodes) = if keep n then n ∷ retain keep nodes else retain keep nodes

-- One round of the loop.
unfoldable pub prune_once : GraphIr → GraphIr
unfolding build captured_names retain get_consumers
prune_once ir =
    let index = build ir in
    let captured = captured_names ir.nodes in
    record ir { nodes = retain (λ n. any_read index captured (outputs_of n)) ir.nodes }

unfoldable pub prune_from : ℕ → ℕ → GraphIr → GraphIr × ℕ
unfolding prune_once
prune_from zero removed ir = (ir, removed)
prune_from (suc fuel) removed ir =
    let next = prune_once ir in
    let removed' = removed + (length ir.nodes - length next.nodes) in
    elim (length next.nodes == length ir.nodes) [
      | true ↦ (next, removed')
      | false ↦ prune_from fuel removed' next
    ]

-- Each round but the last removes a node, so one more round than nodes is enough.
unfoldable pub prune_dead_nodes : GraphIr → GraphIr × ℕ
unfolding prune_from
prune_dead_nodes ir = prune_from (suc (length ir.nodes)) 0 ir

-- The end of `Executor::new`'s rewrites: the graph, the nodes pruned and the bytes released.
unfoldable pub prune_orphans : GraphIr → GraphIr × (ℕ × ℕ)
unfolding prune_dead_nodes prune_dead_initializers
prune_orphans ir =
    let (ir₁, pruned) = prune_dead_nodes ir in
    let (ir₂, released) = prune_dead_initializers ir₁ in (ir₂, (pruned, released))
