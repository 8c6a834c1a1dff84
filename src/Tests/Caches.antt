-- ===== src/Tests/Caches.antt =====
-- Instances of the theorems on the kernel cache, for an empty cache.
use onnx_vulkan_rs_edge.Prelude.{◌+◌, ◌≡◌, refl, true, List, [], ◌∷◌, Option, none, some, pos}
use onnx_vulkan_rs_edge.Gpu.Buffer.{GpuBuffer}
use onnx_vulkan_rs_edge.Gpu.Buffer.Ledger.{copy, copies}
use onnx_vulkan_rs_edge.Cache.{
  VkContext, PackedKey, UploadKey, KernelCache, get, settle, discard_buffer, same_upload,
  packed_weight, packed_weight_cached, initializer, values, to_list, drop,
}
use onnx_vulkan_rs_edge.Cache.Warm.{
  packed_weight-warm, initializer-warm, initializer-keeps, upload_refl,
}
use onnx_vulkan_rs_edge.Cache.Teardown.{Settled, settle-copies, destroyed-drop}

abbrev weight : GpuBuffer
weight = record { id = 0; size = 64; storage = true }

abbrev spare : GpuBuffer
spare = record { id = 1; size = 64; storage = true }

abbrev context : VkContext
context = record {
  memory = record { created = 2; storage_pool = []; upload = []; download = []; destroyed = [] };
  pipelines_destroyed = [];
}

abbrev empty : KernelCache
empty = record {
  context = context;
  pipelines = [];
  packed = [];
  uploads = [];
  transposed = [];
  zero_scalar = none;
  pipeline_builds = 0;
  packed_builds = 0;
  upload_builds = 0;
}

abbrev packed_key : PackedKey
packed_key = record { name = "w"; rows = 4; columns = 4 }

abbrev upload_key : UploadKey
upload_key = record { name = "w"; dtype = pos 1; len = 64 }

abbrev gives : GpuBuffer → VkContext → Option GpuBuffer × VkContext
gives b c = (some b, c)

abbrev packed_once : KernelCache
packed_once = record empty { packed = (packed_key, weight) ∷ []; packed_builds = 1 }

abbrev uploaded_once : KernelCache
uploaded_once = record empty { uploads = (upload_key, weight) ∷ []; upload_builds = 1 }

packed_weight-warm_example :
    packed_weight (λ c. c) packed_key (gives spare) packed_once ≡ (some weight, packed_once)
unfolding packed_weight packed_weight_cached settle
packed_weight-warm_example =
    packed_weight-warm (λ c. c) (λ c. c) packed_key (gives weight) (gives spare) empty packed_once
      weight refl

initializer-warm_example :
    initializer (λ c. c) upload_key (gives spare) uploaded_once ≡ (some weight, uploaded_once)
unfolding initializer settle
initializer-warm_example =
    initializer-warm (λ c. c) (λ c. c) upload_key (gives weight) (gives spare) empty uploaded_once
      weight refl

abbrev other_key : UploadKey
other_key = record { name = "v"; dtype = pos 1; len = 64 }

initializer-keeps_example :
    get same_upload upload_key
      (initializer (λ c. c) other_key (gives spare) uploaded_once).1.uploads
    ≡ some weight
unfolding get same_upload
initializer-keeps_example =
    initializer-keeps (λ c. c) other_key upload_key (gives spare) uploaded_once weight (λ d h. h)
      refl

-- Another thread has put `weight` under the key.
abbrev raced : GpuBuffer × List (UploadKey × GpuBuffer) × VkContext
raced = settle same_upload discard_buffer upload_key spare ((upload_key, weight) ∷ [], context)

settle-copies_example :
    Settled same_upload upload_key spare ((upload_key, weight) ∷ []) context raced.0 raced.1 raced.2
    × (get same_upload upload_key raced.1 ≡ some raced.0)
    × (copies 1 raced.2.memory.destroyed + copies 1 (values raced.1)
        ≡ copies 1 context.memory.destroyed
          + copies 1 (values ((upload_key, weight) ∷ []))
          + copy 1 spare)
    × (raced.2.memory.storage_pool ≡ context.memory.storage_pool)
    × (raced.2.memory.upload ≡ context.memory.upload)
    × (raced.2.memory.download ≡ context.memory.download)
settle-copies_example =
    settle-copies same_upload 1 upload_key spare ((upload_key, weight) ∷ []) context
      (upload_refl upload_key)

destroyed-drop_example :
    (copies 0 (drop (λ c. c) uploaded_once).memory.destroyed
      ≡ copies 0 context.memory.destroyed
        + copies 0 (values uploaded_once.packed)
        + copies 0 (values uploaded_once.uploads)
        + copies 0 (to_list uploaded_once.zero_scalar))
    × ((drop (λ c. c) uploaded_once).memory.storage_pool ≡ context.memory.storage_pool)
    × ((drop (λ c. c) uploaded_once).memory.upload ≡ context.memory.upload)
    × ((drop (λ c. c) uploaded_once).memory.download ≡ context.memory.download)
destroyed-drop_example = destroyed-drop 0 (λ c. c) uploaded_once
