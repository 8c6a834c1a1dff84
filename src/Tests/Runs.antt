-- ===== src/Tests/Runs.antt =====
-- Instances of the theorems on the table of values of a run.
use onnx_vulkan_rs_edge.Prelude.{◌+◌, ◌≡◌, refl, true, [], ◌∷◌, pos, none, arith}
use onnx_vulkan_rs_edge.Gpu.Buffer.Ledger.{copies, pooled}
use onnx_vulkan_rs_edge.Execution.References.{IsCounted, all_owned, shared_of}
use onnx_vulkan_rs_edge.Cache.{KernelCache, initializer, get}
use onnx_vulkan_rs_edge.Graph.ElementType.{device_storage_bytes}
use onnx_vulkan_rs_edge.Shape.{element_count}
use onnx_vulkan_rs_edge.Gpu.Buffer.{GpuBuffer, create_storage_buffer}
use onnx_vulkan_rs_edge.Execution.Residency.{
  Device, cache_entry, cached_initializer, ensure_device_dtype, ensure_device_dtype-on_device,
}
use onnx_vulkan_rs_edge.Execution.{
  Tensor, device, DeviceBuffer, owned, shared, ExecutionEnv, find, release_value, release_owned,
  owned_of, on_device,
}
use onnx_vulkan_rs_edge.Execution.Ownership.{accounted, accounted-release_value}

abbrev result : Tensor
result = device (record {
  dtype = pos 1;
  shape = pos 4 ∷ [];
  elem_count = 4;
  buf = owned (record { id = 0; size = 16; storage = true });
})

abbrev spare : GpuBuffer
spare = record { id = 1; size = 16; storage = true }

abbrev lent : GpuBuffer
lent = record { id = 7; size = 16; storage = true }

abbrev on_buffer : DeviceBuffer → Tensor
on_buffer d = device (record { dtype = pos 1; shape = pos 4 ∷ []; elem_count = 4; buf = d })

abbrev empty_cache : KernelCache
empty_cache = record {
  context = record {
    memory = record { created = 1; storage_pool = []; upload = []; download = []; destroyed = [] };
    pipelines_destroyed = [];
  };
  pipelines = [];
  packed = [];
  uploads = [];
  transposed = [];
  zero_scalar = none;
  pipeline_builds = 0;
  packed_builds = 0;
  upload_builds = 0;
}

-- The table holds the only reference to the shared buffer.
abbrev running : ExecutionEnv
running = record {
  values = ("y", result) ∷ ("s", on_buffer (shared lent)) ∷ [];
  initializers = [];
  host_cache = [];
  cache = empty_cache;
  references = lent ∷ [];
  deferred = [];
}

running-IsCounted : IsCounted running
running-IsCounted j = omega arith

accounted-release_value_example :
    (accounted 0 (release_value "y" running) ≡ accounted 0 running)
    × (copies 0 (all_owned (release_value "y" running).values)
          + copies 0 (owned_of (find "y" running.values))
        ≡ copies 0 (all_owned running.values))
    × (pooled 0 (release_value "y" running).cache.context.memory.storage_pool
        ≡ pooled 0 running.cache.context.memory.storage_pool
          + copies 0 (owned_of (find "y" running.values)))
    × ((release_value "y" running).cache.context.memory.destroyed
        ≡ running.cache.context.memory.destroyed)
    × (copies 0 (release_value "y" running).references
          + copies 0 (shared_of (find "y" running.values))
        ≡ copies 0 running.references)
    × IsCounted (release_value "y" running)
accounted-release_value_example = accounted-release_value 0 "y" running running-IsCounted

-- The last reference to the shared buffer.
released_last : (release_value "s" running).deferred ≡ lent ∷ []
unfolding release_value get
released_last = refl

released_at_end :
    (release_owned running).deferred ≡ record { id = 0; size = 16; storage = true } ∷ lent ∷ []
unfolding release_owned
released_at_end = refl

abbrev all_well : Device
all_well = record {
  grants = λ i size. true;
  uploads = λ b. true;
  download = λ b len. none;
  meanwhile = λ c. c;
}

-- A constant of one float that is not on the device yet.
abbrev starting : ExecutionEnv
starting = record running {
  initializers =
      ("w", record { dtype = pos 1; shape = pos 1 ∷ []; bytes = 0 ∷ 0 ∷ 0 ∷ 0 ∷ [] }) ∷ [];
}

ensure_device_dtype-on_device_example :
    (on_device (ensure_device_dtype all_well "w" starting).1 "w" ≡ true)
    × (ensure_device_dtype all_well "w" (ensure_device_dtype all_well "w" starting).1
        ≡ (true, (ensure_device_dtype all_well "w" starting).1))
unfolding ensure_device_dtype cached_initializer cache_entry initializer on_device element_count
    device_storage_bytes create_storage_buffer
ensure_device_dtype-on_device_example = ensure_device_dtype-on_device all_well "w" starting refl
