-- ===== src/Tests/Shapes.antt =====
-- Instances of the theorems on shapes.
use onnx_vulkan_rs_edge.Prelude.{◌≡◌, ◌<◌, ◌↔◌, refl, List, [], ◌∷◌, arith, ℤ, pos, max, length}
use onnx_vulkan_rs_edge.Error.{ok}
use onnx_vulkan_rs_edge.Shape.{Broadcast, broadcast, bc_offset, padded, element_count}
use onnx_vulkan_rs_edge.Shape.Loops.{volume}
use onnx_vulkan_rs_edge.Shape.Index.{source, broadcast_index}
use onnx_vulkan_rs_edge.Shape.Symmetry.{swap_result, broadcast_comm}
use onnx_vulkan_rs_edge.Shape.Count.{PrefixesFit, volume_from, element_count_iff}

abbrev wide : List ℤ
wide = pos 2 ∷ pos 3 ∷ []

abbrev narrow : List ℤ
narrow = pos 3 ∷ []

rows_of_three : Broadcast
rows_of_three = record {
  out_shape = wide;
  out_strides = 3 ∷ 1 ∷ [];
  a_strides = 3 ∷ 1 ∷ [];
  b_strides = 0 ∷ 1 ∷ [];
}

broadcast_index_example :
    (bc_offset (3 ∷ 1 ∷ []) (3 ∷ 1 ∷ []) 4
      ≡ source (padded (max (length wide) (length wide)) wide) wide 4)
    × (bc_offset (3 ∷ 1 ∷ []) (0 ∷ 1 ∷ []) 4
        ≡ source (padded (max (length wide) (length narrow)) narrow) wide 4)
    × (bc_offset (3 ∷ 1 ∷ []) (3 ∷ 1 ∷ []) 4 < volume wide)
    × (bc_offset (3 ∷ 1 ∷ []) (0 ∷ 1 ∷ []) 4 < volume narrow)
unfolding broadcast rows_of_three
broadcast_index_example = broadcast_index wide narrow rows_of_three 4 refl (omega arith)

broadcast_comm_example : broadcast narrow wide ≡ swap_result (broadcast wide narrow)
broadcast_comm_example = broadcast_comm wide narrow

element_count_iff_example :
    (element_count wide ≡ ok 6) ↔ (PrefixesFit 1 wide × (volume_from 1 wide ≡ 6))
element_count_iff_example = element_count_iff wide 6
