-- ===== src/Tests/Groups.antt =====
-- `convex_groups` on the graphs of the tests in crates/onnx-vulkan-core/src/fusion.rs, and on a graph of
-- three groups.
use onnx_vulkan_rs_edge.Prelude.{
  ℕ, ◌≡◌, refl, Bool, true, false, List, [], ◌∷◌, String, Option, some,
}
use onnx_vulkan_rs_edge.Fusion.{convex_groups}
use onnx_vulkan_rs_edge.Fusion.Bits.{set_bits_outside, zero_bits}
use onnx_vulkan_rs_edge.Fusion.UnionFind.{new, find}
use onnx_vulkan_rs_edge.Fusion.Merge.{attempt, pass, greedy, try_merge}
use onnx_vulkan_rs_edge.Fusion.Links.{links}
use onnx_vulkan_rs_edge.Fusion.Topo.{topo_order}
use onnx_vulkan_rs_edge.Fusion.Sweep.{sweep}
use onnx_vulkan_rs_edge.Fusion.Collect.{collect_from}

unfoldable run : ℕ → List (List String) → List (List String) → List Bool → Option (List (List ℕ))
unfolding convex_groups sweep topo_order links collect_from find greedy pass attempt new try_merge
    set_bits_outside zero_bits
run n node_inputs node_outputs supported = convex_groups n node_inputs node_outputs supported

chain_of_three :
    run 3
      ([] ∷ ("a" ∷ []) ∷ ("b" ∷ []) ∷ [])
      (("a" ∷ []) ∷ ("b" ∷ []) ∷ ("c" ∷ []) ∷ [])
      (true ∷ true ∷ true ∷ [])
    ≡ some ((0 ∷ 1 ∷ 2 ∷ []) ∷ [])
unfolding run
chain_of_three = refl

around_an_unsupported_node :
    run 3
      ([] ∷ ("a" ∷ []) ∷ ("a" ∷ "b" ∷ []) ∷ [])
      (("a" ∷ []) ∷ ("b" ∷ []) ∷ ("c" ∷ []) ∷ [])
      (true ∷ false ∷ true ∷ [])
    ≡ some ((0 ∷ []) ∷ (2 ∷ []) ∷ [])
unfolding run
around_an_unsupported_node = refl

-- Three groups whose quotient has a cycle, through the unsupported nodes 9, 10 and 11: 0 → 9 → 3,
-- 4 → 10 → 6 and 7 → 11 → 1.
three_in_a_ring :
    run 12
      ([]
        ∷ ("z" ∷ [])
        ∷ ("a" ∷ "b" ∷ [])
        ∷ ("x" ∷ [])
        ∷ []
        ∷ ("c" ∷ "c'" ∷ [])
        ∷ ("y" ∷ [])
        ∷ []
        ∷ ("d" ∷ "d'" ∷ [])
        ∷ ("a" ∷ [])
        ∷ ("c'" ∷ [])
        ∷ ("d'" ∷ [])
        ∷ [])
      (("a" ∷ [])
        ∷ ("b" ∷ [])
        ∷ ("sa" ∷ [])
        ∷ ("c" ∷ [])
        ∷ ("c'" ∷ [])
        ∷ ("sc" ∷ [])
        ∷ ("d" ∷ [])
        ∷ ("d'" ∷ [])
        ∷ ("sd" ∷ [])
        ∷ ("x" ∷ [])
        ∷ ("y" ∷ [])
        ∷ ("z" ∷ [])
        ∷ [])
      (true ∷ true ∷ true ∷ true ∷ true ∷ true ∷ true ∷ true ∷ true ∷ false ∷ false ∷ false ∷ [])
    ≡ some ((0 ∷ 1 ∷ 2 ∷ []) ∷ (3 ∷ 4 ∷ 5 ∷ []) ∷ (6 ∷ 7 ∷ 8 ∷ []) ∷ [])
unfolding run
three_in_a_ring = refl
