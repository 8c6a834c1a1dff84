-- ===== src/Graph/Initializer.antt =====
-- `InitializerIr` of crates/onnx-vulkan-core/src/graph.rs.
use onnx_vulkan_rs_edge.Prelude.{ℕ, List, ℤ}

-- `bytes` is `data`.
pub record InitializerIr : Type 0 where
  pub dtype : ℤ
  pub shape : List ℤ
  pub bytes : List ℕ
