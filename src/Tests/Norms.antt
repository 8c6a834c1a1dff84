-- ===== src/Tests/Norms.antt =====
-- A decomposed layer normalization, and instances of the theorems on its match and on the index of readers.
use onnx_vulkan_rs_edge.Prelude.{
  ℕ, ◌≡◌, ◌↔◌, ◌⊎◌, refl, false, List, [], ◌∷◌, Option, none, some, String, pos, negsuc, length,
}
use onnx_vulkan_rs_edge.Graph.Initializer.{InitializerIr}
use onnx_vulkan_rs_edge.Graph.Ir.{NodeIr, node_ir, no_attrs, attr, ints, GraphIr, has}
use onnx_vulkan_rs_edge.Shape.{element_count}
use onnx_vulkan_rs_edge.Graph.ElementType.{storage_len}
use onnx_vulkan_rs_edge.Rewrite.{build, only_consumer, enter_nodes}
use onnx_vulkan_rs_edge.Rewrite.Consumers.{readers, only_consumer_iff}
use onnx_vulkan_rs_edge.Rewrite.Layernorm.{Match, first_output, match_layernorm, fuse_layernorm}
use onnx_vulkan_rs_edge.Rewrite.Layernorm.Chain.{Inner}
use onnx_vulkan_rs_edge.Rewrite.Layernorm.Inner.{match_layernorm-Inner}
use onnx_vulkan_rs_edge.Tests.Graphs.{plain}

abbrev mean_of : String → String → NodeIr
mean_of x y =
    node_ir "" "ReduceMean" (pos 13) y (x ∷ []) (y ∷ [])
      (attr "axes" (ints (negsuc 0 ∷ [])) no_attrs)

abbrev float_bytes : List ℕ → InitializerIr
float_bytes bytes = record { dtype = pos 1; shape = []; bytes = bytes }

abbrev per_channel : InitializerIr
per_channel = record {
  dtype = pos 1;
  shape = pos 2 ∷ [];
  bytes = 0 ∷ 0 ∷ 128 ∷ 63 ∷ 0 ∷ 0 ∷ 128 ∷ 63 ∷ [];
}

abbrev decomposed : GraphIr
decomposed = record {
  nodes =
      mean_of "x" "mu"
      ∷ plain "Sub" ("x" ∷ "mu" ∷ []) ("dev" ∷ [])
      ∷ plain "Pow" ("dev" ∷ "two" ∷ []) ("sq" ∷ [])
      ∷ mean_of "sq" "var"
      ∷ plain "Add" ("var" ∷ "eps" ∷ []) ("shifted" ∷ [])
      ∷ plain "Sqrt" ("shifted" ∷ []) ("std" ∷ [])
      ∷ plain "Div" ("dev" ∷ "std" ∷ []) ("unit" ∷ [])
      ∷ plain "Mul" ("unit" ∷ "scale" ∷ []) ("scaled" ∷ [])
      ∷ plain "Add" ("scaled" ∷ "bias" ∷ []) ("y" ∷ [])
      ∷ [];
  initializers =
      ("two", float_bytes (0 ∷ 0 ∷ 0 ∷ 64 ∷ []))
      ∷ ("eps", float_bytes (172 ∷ 197 ∷ 39 ∷ 55 ∷ []))
      ∷ ("scale", per_channel)
      ∷ ("bias", per_channel)
      ∷ [];
  inputs = "x" ∷ [];
  outputs = "y" ∷ [];
}

abbrev no_match : Match
no_match = record { members = []; fused = plain "" [] [] }

abbrev match_of : Option Match → Match
match_of none = no_match
match_of (some m) = m

abbrev matched : Match
matched = match_of (match_layernorm decomposed.nodes 0 (build decomposed) decomposed.initializers)

matches :
    match_layernorm decomposed.nodes 0 (build decomposed) decomposed.initializers ≡ some matched
unfolding match_layernorm build enter_nodes element_count storage_len
matches = refl

-- One node is left of the nine.
fuses : length (fuse_layernorm decomposed).0.nodes ≡ 1
unfolding fuse_layernorm element_count storage_len
fuses = refl

match_layernorm-Inner_example :
    ("mu" ≡ first_output matched.fused) ⊎ Inner decomposed matched.members "mu"
unfolding match_layernorm build enter_nodes element_count storage_len
match_layernorm-Inner_example =
    match_layernorm-Inner decomposed 0 decomposed.initializers matched 0 (mean_of "x" "mu") matches
      refl refl refl

only_consumer_iff_example :
    (only_consumer (build decomposed) "mu" ≡ some 1)
    ↔ ((has decomposed.outputs "mu" ≡ false) × (readers 0 decomposed.nodes "mu" ≡ 1 ∷ []))
only_consumer_iff_example = only_consumer_iff decomposed "mu" 1 refl
