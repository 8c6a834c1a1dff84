-- ===== src/Tests/Types.antt =====
-- Instances of the theorems on element types and sizes, at int4 (code 22) and float32 (code 1).
use onnx_vulkan_rs_edge.Prelude.{◌≡◌, ◌≤◌, ◌<◌, ◌+◌, ◌*◌, ◌%◌, ◌↔◌, refl, pos, some}
use onnx_vulkan_rs_edge.Graph.ElementType.{
  int4, code, try_from, bit_width, storage_len, in_usize, device_storage_bytes,
}
use onnx_vulkan_rs_edge.Graph.ElementType.Laws.{try_from_iff, device_storage_bytes_bounds}

try_from_iff_example : (try_from (pos 22) ≡ some int4) ↔ (code int4 ≡ pos 22)
try_from_iff_example = try_from_iff (pos 22) int4

device_storage_bytes_bounds_example : (8 % 4 ≡ 0) × (4 ≤ 8) × (9 * 4 ≤ 8 * 8) × (8 * 8 < 9 * 4 + 40)
unfolding device_storage_bytes storage_len try_from bit_width in_usize
device_storage_bytes_bounds_example = device_storage_bytes_bounds (pos 22) int4 4 9 8 refl refl refl
