-- ===== src/Interp.antt =====
-- crates/onnx-vulkan-core/src/interp.rs: which nodes a run executes, after which of them a value is released,
-- and the loop over the nodes. A map is a list of its entries.
pub mod Simulate
pub mod Last
pub mod Producers
pub mod Kept
pub mod Demand
pub mod Refine
use onnx_vulkan_rs_edge.Prelude.{
  ℕ, zero, suc, ◌+◌, Bool, true, false, not, ◌&&◌, ◌||◌, List, [], ◌∷◌, ◌++◌, Option, none, some,
  length, get_or, get_elem?, set, replicate, ◌==◌, if◌then◌else◌, String, str_eq,
}
use onnx_vulkan_rs_edge.Error.{Error, backend, Result, ok, err, ◌>>=◌}
use onnx_vulkan_rs_edge.Graph.Initializer.{InitializerIr}
use onnx_vulkan_rs_edge.Graph.Ir.{
  NodeIr, Subgraph, subgraph, GraphIr, op, inputs_of, outputs_of, attrs_of, get_attr, as_graph, has,
  is_empty, inputs_in,
}
use onnx_vulkan_rs_edge.Graph.Meaning.{Store, Operators, bind}

-- The inputs of the nodes of a branch, if the node has it.
unfoldable pub branch_inputs : String → NodeIr → List String
unfolding get_attr
branch_inputs branch n = elim (get_attr branch (attrs_of n)) [
  | none ↦ []
  | some value ↦ elim (as_graph value) [
    | none ↦ []
    | some (subgraph nodes initializers ins outs) ↦ inputs_in nodes
  ]
]

-- What `kept_nodes` and `dead_after` take a node to read.
unfoldable pub needed_inputs : NodeIr → List String
unfolding branch_inputs
needed_inputs n =
    inputs_of n
    ++ (if str_eq (op n) "If"
        then branch_inputs "then_branch" n ++ branch_inputs "else_branch" n
        else [])

unfoldable pub find_index : String → List (String × ℕ) → Option ℕ
find_index name [] = none
find_index name ((key, i) ∷ rest) = if str_eq key name then some i else find_index name rest

-- producer.insert(o, i) for each output; the newest binding stands first.
unfoldable pub enter_outputs : ℕ → List String → List (String × ℕ) → List (String × ℕ)
enter_outputs i [] m = m
enter_outputs i (o ∷ outs) m = enter_outputs i outs ((o, i) ∷ m)

unfoldable pub enter_producers : ℕ → List NodeIr → List (String × ℕ) → List (String × ℕ)
unfolding enter_outputs
enter_producers i [] m = m
enter_producers i (n ∷ nodes) m = enter_producers (suc i) nodes (enter_outputs i (outputs_of n) m)

abbrev pub entry_names : List (String × InitializerIr) → List String
entry_names [] = []
entry_names ((name, init) ∷ rest) = name ∷ entry_names rest

-- The names that the loops put into the frontier, and the names seen afterwards; `skip` tells the roots.
unfoldable pub fresh : (String → Bool) → List String → List String → List String × List String
fresh skip [] seen = ([], seen)
fresh skip (x ∷ xs) seen =
    if is_empty x || skip x || has seen x
    then fresh skip xs seen
    else let (new, seen') = fresh skip xs (x ∷ seen) in (x ∷ new, seen')

abbrev pub is_root : GraphIr → String → Bool
is_root ir x = has ir.inputs x || has (entry_names ir.initializers) x

-- `while let Some(name) = frontier.pop_front()`
unfoldable pub keep_from :
    ℕ → GraphIr → List (String × ℕ) → List String → List String → List Bool → List Bool
unfolding find_index needed_inputs fresh
keep_from zero ir producer frontier seen kept = kept
keep_from (suc fuel) ir producer [] seen kept = kept
keep_from (suc fuel) ir producer (name ∷ frontier) seen kept = elim (find_index name producer) [
  | none ↦ keep_from fuel ir producer frontier seen kept
  | some i ↦ elim (get_or kept i false) [
    | true ↦ keep_from fuel ir producer frontier seen kept
    | false ↦ elim (get_elem? ir.nodes i) [
      | none ↦ kept
      | some n ↦
          let (new, seen') = fresh (is_root ir) (needed_inputs n) seen in
          keep_from fuel ir producer (frontier ++ new) seen' (set kept i true)
    ]
  ]
]

abbrev pub total_inputs : List NodeIr → ℕ
total_inputs [] = 0
total_inputs (n ∷ nodes) = length (needed_inputs n) + total_inputs nodes

abbrev pub wanted_names : GraphIr → Option (List String) → List String
wanted_names ir none = ir.outputs
wanted_names ir (some wanted) = wanted

-- Each name that enters the frontier is wanted, or an input of a node that was not kept before.
unfoldable pub kept_nodes : GraphIr → Option (List String) → List Bool
unfolding keep_from enter_producers
kept_nodes ir wanted =
    let start = wanted_names ir wanted in
    let (frontier, seen) = fresh (λ x. false) start [] in
    keep_from (suc (length start + total_inputs ir.nodes)) ir (enter_producers 0 ir.nodes [])
      frontier seen (replicate (length ir.nodes) false)

-- HashMap::remove
unfoldable pub forget : String → List (String × ℕ) → List (String × ℕ)
forget name [] = []
forget name ((key, i) ∷ rest) =
    if str_eq key name then forget name rest else (key, i) ∷ forget name rest

unfoldable pub forget_all : List String → List (String × ℕ) → List (String × ℕ)
unfolding forget
forget_all [] last = last
forget_all (name ∷ rest) last = forget_all rest (forget name last)

-- last.insert(name, index) for each name that is not empty
unfoldable pub read_by : ℕ → List String → List (String × ℕ) → List (String × ℕ)
unfolding forget
read_by i [] last = last
read_by i (name ∷ rest) last =
    read_by i rest (if is_empty name then last else (name, i) ∷ forget name last)

unfoldable pub last_readers : ℕ → List NodeIr → List (String × ℕ) → List (String × ℕ)
unfolding read_by needed_inputs
last_readers i [] last = last
last_readers i (n ∷ nodes) last = last_readers (suc i) nodes (read_by i (needed_inputs n) last)

-- dead[i] of `for (name, index) in last { dead[index].push(name); }`
unfoldable pub dying : ℕ → List (String × ℕ) → List String
dying i [] = []
dying i ((name, j) ∷ last) = if j == i then name ∷ dying i last else dying i last

unfoldable pub dead_from : ℕ → ℕ → List (String × ℕ) → List (List String)
unfolding dying
dead_from i zero last = []
dead_from i (suc n) last = dying i last ∷ dead_from (suc i) n last

unfoldable pub dead_after : GraphIr → List (List String)
unfolding last_readers forget_all dead_from
dead_after ir =
    dead_from 0 (length ir.nodes) (
      forget_all (entry_names ir.initializers) (forget_all ir.outputs (last_readers 0 ir.nodes [])))

-- The run, with the operators and the table of values by name.
module _ {ℓ} {V : Type ℓ} where
  unfoldable pub release_names : List String → Store V → Store V
  release_names [] s = s
  release_names (name ∷ rest) s = release_names rest (λ x. if str_eq name x then none else s x)

  unfoldable pub execute_from :
      Operators V → List Bool → List (List String) → ℕ → List NodeIr → Store V → Result (Store V)
  unfolding bind release_names
  execute_from ops kept dead i [] s = ok s
  execute_from ops kept dead i (n ∷ nodes) s =
      if not (get_or kept i false)
      then execute_from ops kept dead (suc i) nodes s
      else ops.evaluate n s >>= λ bs.
          execute_from ops kept dead (suc i) nodes (release_names (get_or dead i []) (bind bs s))

  unfoldable pub execute_nodes :
      Operators V → GraphIr → Option (List String) → Store V → Result (Store V)
  unfolding execute_from kept_nodes dead_after
  execute_nodes ops ir wanted s =
      execute_from ops (kept_nodes ir wanted) (dead_after ir) 0 ir.nodes s

  -- map_err(|e| Error::Backend(…))
  abbrev pub as_backend : Result (Store V) → Result (Store V)
  as_backend (ok s) = ok s
  as_backend (err e) = err backend

  unfoldable pub execute_wanted :
      Operators V → GraphIr → Option (List String) → Store V → Result (Store V)
  unfolding execute_nodes
  execute_wanted ops ir wanted s = as_backend (execute_nodes ops ir wanted s)
