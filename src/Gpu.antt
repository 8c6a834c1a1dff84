-- ===== src/Gpu.antt =====
-- crates/vk-compute: the buffers, the command stream and the descriptor arena of a Vulkan context.
pub mod Buffer
pub mod Descriptor
pub mod Stream
