-- ===== src/Rewrite/Fold.antt =====
-- `fold_constants` (rewrite.rs): nodes whose inputs are all constant become initializers. The host's
-- evaluation of a node is a parameter.
pub mod Steps
pub mod Runs
pub mod Entries
pub mod Whole
use onnx_vulkan_rs_edge.Prelude.{
  ℕ, suc, ◌+◌, Bool, true, false, not, ◌&&◌, ◌||◌, List, [], ◌∷◌, ◌++◌, Option, none, some,
  if◌then◌else◌, String, str_eq,
}
use onnx_vulkan_rs_edge.Graph.Initializer.{InitializerIr}
use onnx_vulkan_rs_edge.Graph.Ir.{NodeIr, GraphIr, op, inputs_of, outputs_of, has, constant_outputs}
use onnx_vulkan_rs_edge.Rewrite.{entry}

abbrev pub Evaluate : Type 0
Evaluate = NodeIr → List InitializerIr → Option InitializerIr

abbrev pub sole : List String → Option String
sole [] = none
sole (o ∷ []) = some o
sole (o ∷ p ∷ outs) = none

abbrev pub no_inputs : List String → Bool
no_inputs [] = true
no_inputs (x ∷ xs) = false

unfoldable pub constant_inputs :
    List (String × InitializerIr) → List String → Option (List InitializerIr)
unfolding entry
constant_inputs cs [] = some []
constant_inputs cs (x ∷ xs) = elim (entry x cs) [
  | none ↦ none
  | some c ↦ elim (constant_inputs cs xs) [ none ↦ none | some vals ↦ some (c ∷ vals) ]
]

-- The turn of a node: the output and the value it is folded to.
unfoldable pub fold_node :
    Evaluate
    → List String
    → List (String × InitializerIr)
    → NodeIr
    → Option (String × InitializerIr)
unfolding constant_inputs
fold_node evaluate outputs cs n = elim (sole (outputs_of n)) [
  | none ↦ none
  | some out ↦
      if str_eq (op n) "Constant" || (no_inputs (inputs_of n) || has outputs out)
      then none
      else elim (constant_inputs cs (inputs_of n)) [
        | none ↦ none
        | some vals ↦ elim (evaluate n vals) [ none ↦ none | some v ↦ some (out, v) ]
      ]
]

-- For each node, what it is folded to, if it is; the index of a folded node stands for its place.
unfoldable pub fold_nodes :
    Evaluate
    → List String
    → List (String × InitializerIr)
    → List NodeIr
    → List (Option (String × InitializerIr))
unfolding fold_node
fold_nodes evaluate outputs cs [] = []
fold_nodes evaluate outputs cs (n ∷ nodes) = elim (fold_node evaluate outputs cs n) [
  | none ↦ none ∷ fold_nodes evaluate outputs cs nodes
  | some e ↦ some e ∷ fold_nodes evaluate outputs (e ∷ cs) nodes
]

unfoldable pub remaining : List (Option (String × InitializerIr)) → List NodeIr → List NodeIr
remaining folded [] = []
remaining [] (n ∷ nodes) = n ∷ nodes
remaining (none ∷ folded) (n ∷ nodes) = n ∷ remaining folded nodes
remaining (some e ∷ folded) (n ∷ nodes) = remaining folded nodes

unfoldable pub drop_entry : String → List (String × InitializerIr) → List (String × InitializerIr)
drop_entry name [] = []
drop_entry name ((key, init) ∷ rest) =
    if str_eq key name then drop_entry name rest else (key, init) ∷ drop_entry name rest

-- for (_, name, value) in folded { ir.initializers.insert(name, value); }
unfoldable pub insert_folded :
    List (Option (String × InitializerIr))
    → List (String × InitializerIr)
    → List (String × InitializerIr)
unfolding drop_entry
insert_folded [] inits = inits
insert_folded (none ∷ folded) inits = insert_folded folded inits
insert_folded (some (name, v) ∷ folded) inits =
    insert_folded folded ((name, v) ∷ drop_entry name inits)

abbrev pub count_folded : List (Option (String × InitializerIr)) → ℕ
count_folded [] = 0
count_folded (none ∷ folded) = count_folded folded
count_folded (some e ∷ folded) = suc (count_folded folded)

unfoldable pub fold_constants : Evaluate → GraphIr → GraphIr × ℕ
unfolding fold_nodes remaining insert_folded constant_outputs
fold_constants evaluate ir =
    let folded =
      fold_nodes evaluate ir.outputs (ir.initializers ++ constant_outputs ir.nodes) ir.nodes in
    (
      record ir {
        nodes = remaining folded ir.nodes;
        initializers = insert_folded folded ir.initializers;
      },
      count_folded folded,
    )
