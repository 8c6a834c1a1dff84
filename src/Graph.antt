-- ===== src/Graph.antt =====
-- crates/onnx-vulkan-core/src/graph.rs
pub mod ElementType
pub mod Initializer
pub mod Ir
pub mod Meaning
