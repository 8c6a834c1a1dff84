-- ===== src/Execution/Ownership.antt =====
-- Who frees the buffers of a run.
use onnx_vulkan_rs_edge.Prelude.{ℕ, ◌+◌, ◌≡◌, refl, List, [], ◌∷◌, arith, String}
use onnx_vulkan_rs_edge.Gpu.Buffer.{GpuBuffer, Memory, recycle_storage_buffer}
use onnx_vulkan_rs_edge.Gpu.Buffer.Ledger.{copies, held, held-recycle, pooled, pooled-put}
use onnx_vulkan_rs_edge.Execution.{
  ExecutionEnv, find, release_value, owned_buffers, owned_of, recycle_all,
}
use onnx_vulkan_rs_edge.Execution.References.{
  shared_buffers, shared_of, all_owned, IsCounted, live, copies-remove, removal-Dropped,
}

-- How often a buffer is owned by a value, held by the context or destroyed, shared, or waits to be
-- destroyed.
abbrev pub accounted : ℕ → ExecutionEnv → ℕ
accounted i env =
    copies i (all_owned env.values)
    + held i env.cache.context.memory
    + live i env.references
    + copies i env.deferred

held-recycle_all :
    (i : ℕ) (bs : List GpuBuffer) (m : Memory) → held i (recycle_all bs m) ≡ copies i bs + held i m
held-recycle_all i [] m = omega arith
held-recycle_all i (b ∷ bs) m =
    omega (arith, held-recycle_all i bs (recycle_storage_buffer m b), held-recycle i m b)

-- Recycling touches the storage pool only.
pooled-recycle_all :
    (i : ℕ) (bs : List GpuBuffer) (m : Memory)
    → (pooled i (recycle_all bs m).storage_pool ≡ copies i bs + pooled i m.storage_pool)
      × ((recycle_all bs m).destroyed ≡ m.destroyed)
unfolding recycle_storage_buffer
pooled-recycle_all i [] m = (omega arith, refl)
pooled-recycle_all i (b ∷ bs) m =
    let (pool, kept) = pooled-recycle_all i bs (recycle_storage_buffer m b) in
    (omega (arith, pool, pooled-put i b m.storage_pool), kept)

-- If the references in the table are among the live ones, releasing a value, present or not, takes its
-- owned buffer from those that values own and puts it into the storage pool once, destroys nothing, and
-- drops its reference to a shared buffer; each buffer is accounted for as often as before, among those
-- owned, held or destroyed, shared and waiting to be destroyed, so that the last reference to a shared
-- buffer leaves it to be destroyed; and the references in the table are still among the live ones.
pub accounted-release_value :
    (i : ℕ) (name : String) (env : ExecutionEnv)
    → IsCounted env
    → let env' = release_value name env in
      (accounted i env' ≡ accounted i env)
      × (copies i (all_owned env'.values) + copies i (owned_of (find name env.values))
          ≡ copies i (all_owned env.values))
      × (pooled i env'.cache.context.memory.storage_pool
          ≡ pooled i env.cache.context.memory.storage_pool
            + copies i (owned_of (find name env.values)))
      × (env'.cache.context.memory.destroyed ≡ env.cache.context.memory.destroyed)
      × (copies i env'.references + copies i (shared_of (find name env.values))
          ≡ copies i env.references)
      × IsCounted env'
unfolding release_value
accounted-release_value i name env c =
    let mine = owned_of (find name env.values) in
    let m = env.cache.context.memory in
    let (fewer, waits) = removal-Dropped i name env c in
    let gone = copies-remove owned_buffers i name env.values in
    let (pool, kept) = pooled-recycle_all i mine m in
    (
      omega (arith, gone, waits, held-recycle_all i mine m),
      omega (arith, gone),
      omega (arith, pool),
      kept,
      fewer i,
      λ j. omega (arith, c j, fewer j, copies-remove shared_buffers j name env.values),
    )
