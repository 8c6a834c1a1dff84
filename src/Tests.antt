-- ===== src/Tests.antt =====
-- Tests of the definitions on the graphs and shapes of the source's own tests, and instances of the
-- theorems at concrete inputs.
pub mod Graphs
pub mod Foldings
pub mod Norms
pub mod Groups
pub mod Groupings
pub mod Shapes
pub mod Types
pub mod Buffers
pub mod Streams
pub mod Caches
pub mod Runs
