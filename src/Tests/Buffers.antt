-- ===== src/Tests/Buffers.antt =====
-- Instances of the theorems on buffers, for a context with one free storage buffer of 256 bytes and
-- two free upload buffers.
use onnx_vulkan_rs_edge.Prelude.{ℕ, ◌≡◌, ◌≤◌, refl, Bool, true, false, [], ◌∷◌, arith}
use onnx_vulkan_rs_edge.Gpu.Buffer.{
  GpuBuffer, Memory, create_storage_buffer, acquire_staging, take, take_large, refill,
  destroy_storage_pool, destroy_staging_pool,
}
use onnx_vulkan_rs_edge.Gpu.Buffer.Ledger.{
  HandsStorage, HandsStaging, held, create_storage_buffer-Hands, acquire_staging-Hands,
  held-destroy_pools,
}
use onnx_vulkan_rs_edge.Gpu.Buffer.Staging.{acquire_staging-size}

abbrev tensor : GpuBuffer
tensor = record { id = 0; size = 256; storage = true }

abbrev small : GpuBuffer
small = record { id = 1; size = 65536; storage = false }

abbrev large : GpuBuffer
large = record { id = 2; size = 131072; storage = false }

abbrev memory : Memory
memory = record {
  created = 3;
  storage_pool = (256, tensor ∷ []) ∷ [];
  upload = small ∷ large ∷ [];
  download = [];
  destroyed = [];
}

abbrev all_granted : ℕ → ℕ → Bool
all_granted i size = true

create_storage_buffer-Hands_example :
    HandsStorage memory 256 tensor (record memory { storage_pool = (256, []) ∷ [] })
unfolding create_storage_buffer take
create_storage_buffer-Hands_example = create_storage_buffer-Hands all_granted memory 256 refl

acquire_staging-Hands_example :
    HandsStaging memory 100000 true large (record memory { upload = small ∷ [] })
unfolding acquire_staging take_large refill
acquire_staging-Hands_example = acquire_staging-Hands all_granted memory 100000 true refl

acquire_staging-size_example : 100000 ≤ large.size
unfolding acquire_staging take_large refill
acquire_staging-size_example =
    acquire_staging-size all_granted memory 100000 true {m' = record memory { upload = small ∷ [] }}
      (omega arith) refl

held-destroy_pools_example :
    (held 2 (destroy_staging_pool (destroy_storage_pool memory)) ≡ held 2 memory)
    × ((destroy_staging_pool (destroy_storage_pool memory)).storage_pool ≡ [])
    × ((destroy_staging_pool (destroy_storage_pool memory)).upload ≡ [])
    × ((destroy_staging_pool (destroy_storage_pool memory)).download ≡ [])
held-destroy_pools_example = held-destroy_pools 2 memory
