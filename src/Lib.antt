-- ===== src/Lib.antt =====
-- The core of onnx-vulkan-rs: graph rewrites and runs, grouping of nodes, shapes, element types, GPU buffers.
--
-- The program runs ONNX graphs on Vulkan. A frontend builds a graph, the nodes that the interpreter
-- supports are grouped into convex blocks, and a block is executed by kernels over device buffers.
--
--   Error: crates/onnx-vulkan-core/src/error.rs. A result is a value or one of the four kinds of error;
--     messages are left out.
--   Shape: crates/onnx-vulkan-core/src/shape.rs, and `bc_offset` of host_ops.rs beside it. Dimensions
--   are integers; products are checked against 2^64 (usize of the supported targets) and 2^32 (u32).
--   Graph: crates/onnx-vulkan-core/src/graph.rs. ElementType holds the element types and storage sizes, with
--     `device_storage_bytes` of execution.rs; Ir the attributes, nodes and graphs, where a graph in an
--     attribute is a `Subgraph`. Meaning says what it is to run a list of nodes, for any values and operators
--     (`Operators`): it is what the rewrites and the interpreter's loop are compared with. The names that a
--     branch of an `If` binds for itself are left out there.
--   Fusion: `convex_groups` of crates/onnx-vulkan-core/src/fusion.rs, in the order of the source: Links
--   (producers and arcs), Topo (Kahn's order), Sweep (ancestors and descendants), UnionFind, Merge (the
--   greedy passes) and Collect (the groups). A bitset of u64 words is the list of its bits, of length 64
--   times the number of words; an index out of bounds, which the code does not have on inputs of one
--   length, reads a default and writes nothing. `none` is the panic of `split_two` on a node that is its
--   own input, or a loop, Kahn's or the one of the passes, that has not ended within
--   its fuel.
--   Gpu: Buffer is crates/vk-compute/src/buffer.rs, its pools and the life of buffers, each known by the
--     number of its creation. Descriptor is descriptor.rs beside it, the arena of descriptor pools. Stream
--     is stream.rs: recording, submission with a cap on what is in flight, deferred work and reaping, with
--     `record_dispatch` of pipeline.rs; it calls Buffer and Descriptor. A sum of u64 wraps around, as in a
--     release build, and a panic is a failure there. What Vulkan answers is a parameter of each operation.
--   Cache: crates/onnx-vulkan-core/src/cache.rs, the pipelines and buffers that a session keeps. What other
--     threads do while its lock is free is a parameter of each request.
--   Execution: `ExecutionEnv` of crates/onnx-vulkan-core/src/execution.rs with the tensors of device.rs, the
--     values of a run: lookups, residency on the device through Cache, and who frees a buffer. The live
--     references (`Arc`) to shared buffers are the field `references`, one entry for each; a drop of the last
--     one hands the buffer to `defer_destroy`. A table is drained in its order. The field
--     `data` is `bytes` here, and `host`, `set` and `release` are `host_copy`, `set_value` and
--     `release_value`.
--   Rewrite: crates/onnx-vulkan-core/src/rewrite.rs, the index of readers, the captured names, both prunings
--     as executor.rs calls them, Fold for `fold_constants` and Layernorm for `fuse_layernorm`. The host's
--     evaluation of a node, `evaluate`,
--     is a parameter (`HostEvaluator`). Folded nodes stand at their place in a list instead of by index.
--   Interp: crates/onnx-vulkan-core/src/interp.rs, `execute_wanted` with `kept_nodes` and `dead_after`; a node
--     is executed by `Operators`. A table of values is a function from names there, and a map a list.
--
-- Loops without a structural measure run on fuel: `find` and the passes on one more than the number of
-- nodes, `kahn` on the number of nodes, the search for a power of two on 64, the end of the
-- stream on the number of submissions in flight, the pruning of nodes on one more than the number of nodes,
-- and the worklist of `kept_nodes` on the number of wanted names and of all inputs.
--
-- Not modelled: the contents of buffers and the calls of Vulkan, the interpreter's kernels and shaders, `If`,
-- the folds of slices and masks, what the host evaluates at load time, the reading of models, the ONNX
-- Runtime plugin and the command lines.
mod Prelude
pub mod Error
pub mod Shape
pub mod Graph
pub mod Fusion
pub mod Gpu
pub mod Cache
pub mod Execution
pub mod Rewrite
pub mod Interp
pub mod Tests
