-- ===== src/Rewrite/Layernorm.antt =====
-- `match_layernorm` and `fuse_layernorm` (rewrite.rs): the decomposed layer normalization. A float is the bits
-- of an f32, and an index out of range, on which the code panics, is no match.
pub mod Chain
pub mod Inner
use onnx_vulkan_rs_edge.Prelude.{
  ℕ, zero, suc, ◌+◌, ◌*◌, Bool, true, false, not, ◌&&◌, ◌||◌, List, [], ◌∷◌, ◌++◌, Option, none,
  some, length, get_elem?, get_or, set, replicate, ◌==◌, ltb, max, if◌then◌else◌, String, str_eq, ℤ,
  pos, negsuc, ◌==ℤ◌,
}
use Prim.Native.String.{◌++◌ as ◌+s◌}
use onnx_vulkan_rs_edge.Graph.Initializer.{InitializerIr}
use onnx_vulkan_rs_edge.Graph.Ir.{
  NodeIr, node_ir, Attributes, no_attrs, attr, int, float, GraphIr, domain, op, inputs_of,
  outputs_of, attrs_of, get_attr, as_ints, as_i64, has, is_empty, constant_outputs,
}
use onnx_vulkan_rs_edge.Error.{Result, ok, err}
use onnx_vulkan_rs_edge.Execution.{HostTensor}
use onnx_vulkan_rs_edge.Execution.Residency.{validate}
use onnx_vulkan_rs_edge.Rewrite.{Index, build, entry, only_consumer, get_consumers}

infixl 5 ◌>>=◌
abbrev pub ◌>>=◌ {ℓ κ} : {A : Type ℓ} {B : Type κ} → Option A → (A → Option B) → Option B
none >>= f = none
some a >>= f = f a

-- if !b { return None; }
abbrev pub require {ℓ} : {A : Type ℓ} → Bool → Option A → Option A
require true o = o
require false o = none

abbrev head {ℓ} : {A : Type ℓ} → List A → Option A
head [] = none
head (x ∷ xs) = some x

-- chunks_exact(4), little-endian
abbrev words_of : List ℕ → List ℕ
words_of (a ∷ b ∷ c ∷ d ∷ rest) = (a + 256 * b + 65536 * c + 16777216 * d) ∷ words_of rest
words_of _ = []

abbrev the_only : List ℕ → Option ℕ
the_only (w ∷ []) = some w
the_only _ = none

unfoldable pub scalar_f32 : String → List (String × InitializerIr) → Option ℕ
unfolding entry validate
scalar_f32 name constants = entry name constants >>= λ tensor.
    require (tensor.dtype ==ℤ pos 1)
      (elim (validate
        (record { dtype = tensor.dtype; shape = tensor.shape; bytes = tensor.bytes })) [
          | err e ↦ none
          | ok count ↦ the_only (words_of tensor.bytes)
        ])

abbrev longer_than_one : List ℤ → Option ℤ
longer_than_one (pos n ∷ []) = if ltb 1 n then some (pos n) else none
longer_than_one _ = none

unfoldable pub per_channel_len : String → List (String × InitializerIr) → Option ℤ
unfolding entry
per_channel_len name constants = entry name constants >>= λ tensor.
    require (tensor.dtype ==ℤ pos 1) (longer_than_one tensor.shape)

abbrev other_of : String → List String → Option String
other_of known (a ∷ b ∷ []) =
    if str_eq a known then some b else if str_eq b known then some a else none
other_of known _ = none

abbrev pub other_input : NodeIr → String → Option String
other_input n known = other_of known (inputs_of n)

abbrev is_last_axis : Option (List ℤ) → Bool
is_last_axis (some (negsuc zero ∷ [])) = true
is_last_axis _ = false

abbrev is_zero : Option ℤ → Bool
is_zero (some (pos zero)) = true
is_zero _ = false

unfoldable pub reduces_last_axis : NodeIr → Bool
unfolding get_attr
reduces_last_axis n =
    is_last_axis (get_attr "axes" (attrs_of n) >>= as_ints)
    && not (is_zero (get_attr "keepdims" (attrs_of n) >>= as_i64))

abbrev pub is_op : NodeIr → String → Bool
is_op n o = str_eq (op n) o && is_empty (domain n)

-- outputs[0]
abbrev pub first_output : NodeIr → String
first_output (node_ir d o v name ins [] attrs) = ""
first_output (node_ir d o v name ins (out ∷ outs) attrs) = out

abbrev pub starts_with : String → List String → Bool
starts_with name [] = false
starts_with name (x ∷ xs) = str_eq x name

abbrev same_pair : String → String → List String → Bool
same_pair a b (x ∷ y ∷ []) = str_eq x a && str_eq y b
same_pair a b _ = false

-- The first of some nodes that has an operator.
unfoldable pub find_op : List NodeIr → String → List ℕ → Option ℕ
find_op nodes o [] = none
find_op nodes o (i ∷ is) = elim (get_elem? nodes i) [
  | none ↦ none
  | some n ↦ elim (is_op n o) [ true ↦ some i | false ↦ find_op nodes o is ]
]

abbrev pub contains_index : List ℕ → ℕ → Bool
contains_index [] i = false
contains_index (j ∷ js) i = j == i || contains_index js i

-- The only consumer of the output of a node, where it has the operator.
unfoldable pub follow : List NodeIr → Index → NodeIr → String → Option (ℕ × NodeIr)
unfolding only_consumer
follow nodes index from o = only_consumer index (first_output from) >>= λ i.
    get_elem? nodes i >>= λ n. require (is_op n o) (some (i, n))

-- `Match`
pub record Match : Type 0 where
  pub members : List ℕ
  pub fused : NodeIr

abbrev pub fused_node : String → List String → ℕ → NodeIr
fused_node output ins epsilon =
    node_ir "" "LayerNormalization" (pos 17) (output +s "_fused_LayerNormalization") ins
      (output ∷ []) (attr "axis" (int (negsuc zero)) (attr "epsilon" (float epsilon) no_attrs))

-- The node that adds a bias of as many channels to the product, and the bias.
unfoldable pub find_bias :
    List NodeIr
    → Index
    → List (String × InitializerIr)
    → NodeIr
    → ℤ
    → Option ((ℕ × NodeIr) × String)
unfolding follow per_channel_len
find_bias nodes index constants mul channels = follow nodes index mul "Add" >>= λ add.
    other_input add.1 (first_output mul) >>= λ bias.
    per_channel_len bias constants >>= λ len. require (len ==ℤ channels) (some (add, bias))

unfoldable pub with_bias :
    List NodeIr
    → Index
    → List (String × InitializerIr)
    → List ℕ
    → NodeIr
    → List String
    → ℕ
    → ℤ
    → Match
unfolding find_bias
with_bias nodes index constants members mul ins epsilon channels =
    elim (find_bias nodes index constants mul channels) [
      | none ↦ record { members = members; fused = fused_node (first_output mul) ins epsilon }
      | some (add, bias) ↦ record {
        members = members ++ add.0 ∷ [];
        fused = fused_node (first_output add.1) (ins ++ bias ∷ []) epsilon;
      }
    ]

unfoldable pub match_layernorm :
    List NodeIr → ℕ → Index → List (String × InitializerIr) → Option Match
unfolding follow reduces_last_axis get_consumers find_op scalar_f32 per_channel_len with_bias
match_layernorm nodes root index constants = get_elem? nodes root >>= λ mean.
    require (is_op mean "ReduceMean" && reduces_last_axis mean) (
      head (inputs_of mean) >>= λ x. follow nodes index mean "Sub" >>= λ sub.
      require (same_pair x (first_output mean) (inputs_of sub.1)) (
        require (not (has index.graph_outputs (first_output sub.1))) (
          get_consumers (first_output sub.1) index.consumers >>= λ readers.
          require (length readers == 2) (
            find_op nodes "Pow" readers >>= λ i_pow. get_elem? nodes i_pow >>= λ pow.
            require (starts_with (first_output sub.1) (inputs_of pow)) (
              get_elem? (inputs_of pow) 1 >>= λ exponent. scalar_f32 exponent constants >>= λ two.
              require (two == 1073741824) (
                follow nodes index pow "ReduceMean" >>= λ var.
                require
                  (starts_with (first_output pow) (inputs_of var.1) && reduces_last_axis var.1)
                  (follow nodes index var.1 "Add" >>= λ add_eps.
                    other_input add_eps.1 (first_output var.1) >>= λ eps.
                    scalar_f32 eps constants >>= λ epsilon.
                    follow nodes index add_eps.1 "Sqrt" >>= λ sqrt.
                    require (starts_with (first_output add_eps.1) (inputs_of sqrt.1)) (
                      follow nodes index sqrt.1 "Div" >>= λ div.
                      require
                        (same_pair (first_output sub.1) (first_output sqrt.1) (inputs_of div.1))
                        (require (contains_index readers div.0) (
                          follow nodes index div.1 "Mul" >>= λ mul.
                          other_input mul.1 (first_output div.1) >>= λ scale.
                          per_channel_len scale constants >>= λ channels. some (
                            with_bias nodes index constants
                              (root ∷ sub.0 ∷ i_pow ∷ var.0 ∷ add_eps.0 ∷ sqrt.0 ∷ div.0 ∷ mul.0
                                ∷ [])
                              mul.1 (x ∷ scale ∷ []) epsilon channels)))))))))))

abbrev pub any_claimed : List Bool → List ℕ → Bool
any_claimed claimed [] = false
any_claimed claimed (i ∷ is) = get_or claimed i false || any_claimed claimed is

abbrev pub claim : List Bool → List ℕ → List Bool
claim claimed [] = claimed
claim claimed (i ∷ is) = claim (set claimed i true) is

-- The loop over the roots: what is claimed, and the matches in their order.
unfoldable pub match_from :
    GraphIr → Index → List (String × InitializerIr) → ℕ → ℕ → List Bool → List Bool × List Match
unfolding match_layernorm
match_from ir index constants root zero claimed = (claimed, [])
match_from ir index constants root (suc left) claimed =
    elim (match_layernorm ir.nodes root index constants) [
      | none ↦ match_from ir index constants (suc root) left claimed
      | some m ↦ elim (any_claimed claimed m.members) [
        | true ↦ match_from ir index constants (suc root) left claimed
        | false ↦
            let (claimed', matches) =
              match_from ir index constants (suc root) left (claim claimed m.members) in
            (claimed', m ∷ matches)
      ]
    ]

abbrev pub largest : List ℕ → ℕ
largest [] = 0
largest (i ∷ is) = max i (largest is)

-- `replacement.remove(&i)`: the last of the matches whose slot is the index.
abbrev pub replacement : List Match → ℕ → Option NodeIr
replacement [] i = none
replacement (m ∷ matches) i = elim (replacement matches i) [
  | some fused ↦ some fused
  | none ↦ if largest m.members == i then some m.fused else none
]

unfoldable pub replace_from : ℕ → List Bool → List Match → List NodeIr → List NodeIr
replace_from i claimed matches [] = []
replace_from i claimed matches (n ∷ nodes) =
    let rest = replace_from (suc i) claimed matches nodes in
    elim (get_or claimed i false) [
      | false ↦ n ∷ rest
      | true ↦ elim (replacement matches i) [ none ↦ rest | some fused ↦ fused ∷ rest ]
    ]

unfoldable pub fuse_layernorm : GraphIr → GraphIr × ℕ
unfolding build constant_outputs match_from replace_from
fuse_layernorm ir =
    let (claimed, matches) =
      match_from ir (build ir) (ir.initializers ++ constant_outputs ir.nodes) 0 (length ir.nodes)
        (replicate (length ir.nodes) false) in
    (record ir { nodes = replace_from 0 claimed matches ir.nodes }, length matches)
