-- ===== src/Execution.antt =====
-- `ExecutionEnv` of crates/onnx-vulkan-core/src/execution.rs: the table of values of a run, where each
-- resides, and who frees its buffer. A table of values has one entry for a name, as a HashMap. Buffers
-- handed to `defer_destroy` of the stream stand in `deferred`.
pub mod References
pub mod Ownership
pub mod Residency
use onnx_vulkan_rs_edge.Prelude.{
  ℕ, Bool, true, false, List, [], ◌∷◌, ◌++◌, Option, none, some, leb, ◌==◌, length, if◌then◌else◌,
  String, str_eq, ℤ,
}
use onnx_vulkan_rs_edge.Error.{Result, ok, err, backend, invalid_tensor}
use onnx_vulkan_rs_edge.Gpu.Buffer.{GpuBuffer, Memory, drain, recycle_storage_buffer}
use onnx_vulkan_rs_edge.Gpu.Buffer.Ledger.{copies}
use onnx_vulkan_rs_edge.Graph.Initializer.{InitializerIr}
use onnx_vulkan_rs_edge.Graph.ElementType.{storage_len}
use onnx_vulkan_rs_edge.Cache.{VkContext, KernelCache, UploadKey, get, initializer}

pub record HostTensor : Type 0 where
  pub dtype : ℤ
  pub shape : List ℤ
  pub bytes : List ℕ

-- `DeviceBuffer`: a shared buffer goes to `defer_destroy` when the last of its references is dropped.
pub data DeviceBuffer : Type 0 where
  owned borrowed shared : GpuBuffer → DeviceBuffer

pub record DeviceTensor : Type 0 where
  pub dtype : ℤ
  pub shape : List ℤ
  pub elem_count : ℕ
  pub buf : DeviceBuffer

abbrev pub buffer_of : DeviceBuffer → GpuBuffer
buffer_of (owned b) = b
buffer_of (borrowed b) = b
buffer_of (shared b) = b

pub data Tensor : Type 0 where
  device : DeviceTensor → Tensor
  host : HostTensor → Tensor

pub record ExecutionEnv : Type 0 where
  pub values : List (String × Tensor)
  pub initializers : List (String × InitializerIr)
  pub host_cache : List (String × HostTensor)
  pub cache : KernelCache
  -- one entry for each live reference to a shared buffer, in the table of values or elsewhere
  pub references : List GpuBuffer
  pub deferred : List GpuBuffer

abbrev pub with_memory : Memory → KernelCache → KernelCache
with_memory m c = record c { context = record c.context { memory = m } }

module _ {ℓ} {V : Type ℓ} where
  abbrev pub find : String → List (String × V) → Option V
  find name table = get str_eq name table

  -- HashMap::remove
  unfoldable pub remove : String → List (String × V) → List (String × V)
  remove name [] = []
  remove name ((key, v) ∷ table) = if str_eq key name then table else (key, v) ∷ remove name table

  -- HashMap::insert
  unfoldable pub insert : String → V → List (String × V) → List (String × V)
  unfolding remove
  insert name v table = (name, v) ∷ remove name table

abbrev pub host_memo_max_bytes : ℕ
host_memo_max_bytes = 4096

abbrev pub is_device : Option Tensor → Bool
is_device (some (device t)) = true
is_device _ = false

unfoldable pub on_device : ExecutionEnv → String → Bool
on_device env name = is_device (find name env.values)

abbrev pub initializer_len : Option InitializerIr → ℕ → Bool
initializer_len (some i) max_bytes = leb (length i.bytes) max_bytes
initializer_len none max_bytes = false

unfoldable pub host_resident_small : ExecutionEnv → String → ℕ → Bool
host_resident_small env name max_bytes = elim (find name env.values) [
  | some (host t) ↦ leb (length t.bytes) max_bytes
  | some (device t) ↦ false
  | none ↦ initializer_len (find name env.initializers) max_bytes
]

-- `host`; `download` is what `stream_download` gives for a buffer and a number of bytes. The second part is
-- the host cache afterwards.
unfoldable pub download_host :
    (GpuBuffer → ℕ → Option (List ℕ))
    → ExecutionEnv
    → String
    → DeviceTensor
    → Result HostTensor × List (String × HostTensor)
unfolding insert
download_host download env name t = elim (storage_len t.dtype t.elem_count) [
  | none ↦ (err invalid_tensor, env.host_cache)
  | some byte_len ↦ elim (if byte_len == 0 then some [] else download (buffer_of t.buf) byte_len) [
    | none ↦ (err backend, env.host_cache)
    | some bytes ↦
        let copy : HostTensor = record { dtype = t.dtype; shape = t.shape; bytes = bytes } in
        (
          ok copy,
          if leb byte_len host_memo_max_bytes
              then insert name copy env.host_cache
              else env.host_cache,
        )
  ]
]

unfoldable pub host_copy :
    (GpuBuffer → ℕ → Option (List ℕ))
    → ExecutionEnv
    → String
    → Result HostTensor × List (String × HostTensor)
unfolding download_host
host_copy download env name = elim (find name env.initializers) [
  | some i ↦ (ok (record { dtype = i.dtype; shape = i.shape; bytes = i.bytes }), env.host_cache)
  | none ↦ elim (find name env.values) [
    | some (host t) ↦ (ok t, env.host_cache)
    | some (device t) ↦ elim (find name env.host_cache) [
      | some memo ↦ (ok memo, env.host_cache)
      | none ↦ download_host download env name t
    ]
    | none ↦ (err invalid_tensor, env.host_cache)
  ]
]

unfoldable pub dtype_of : ExecutionEnv → String → Result ℤ
dtype_of env name = elim (find name env.values) [
  | some (device t) ↦ ok t.dtype
  | some (host t) ↦ ok t.dtype
  | none ↦ elim (find name env.initializers) [ some i ↦ ok i.dtype | none ↦ err invalid_tensor ]
]

unfoldable pub shape_of : ExecutionEnv → String → Result (List ℤ)
shape_of env name = elim (find name env.values) [
  | some (device t) ↦ ok t.shape
  | some (host t) ↦ ok t.shape
  | none ↦ elim (find name env.initializers) [ some i ↦ ok i.shape | none ↦ err invalid_tensor ]
]

-- One reference fewer to the buffer of a number.
unfoldable pub remove_reference : ℕ → List GpuBuffer → List GpuBuffer
remove_reference i [] = []
remove_reference i (b ∷ bs) = if b.id == i then bs else b ∷ remove_reference i bs

-- Dropping an `Arc`, on the references and the deferred buffers: the drop of the last reference to a
-- `SharedDeviceBuffer` runs its `drop`, which calls `defer_destroy`.
unfoldable pub drop_reference :
    GpuBuffer → List GpuBuffer × List GpuBuffer → List GpuBuffer × List GpuBuffer
unfolding remove_reference
drop_reference b (references, deferred) =
    let left = remove_reference b.id references in
    (left, if copies b.id left == 0 then deferred ++ b ∷ [] else deferred)

-- The drop of a tensor. A `GpuBuffer` that it owns has no `drop`, so nothing frees that one.
unfoldable pub drop_buffer :
    DeviceBuffer → List GpuBuffer × List GpuBuffer → List GpuBuffer × List GpuBuffer
unfolding drop_reference
drop_buffer (owned b) s = s
drop_buffer (borrowed b) s = s
drop_buffer (shared b) s = drop_reference b s

unfoldable pub drop_value :
    Option Tensor → List GpuBuffer × List GpuBuffer → List GpuBuffer × List GpuBuffer
unfolding drop_buffer
drop_value none s = s
drop_value (some (host t)) s = s
drop_value (some (device t)) s = drop_buffer t.buf s

-- `set`; the value that `insert` replaces is dropped.
unfoldable pub set_value : String → Tensor → ExecutionEnv → ExecutionEnv
unfolding insert drop_value
set_value name t env =
    let (references, deferred) = drop_value (find name env.values) (env.references, env.deferred) in
    record env {
      values = insert name t env.values;
      host_cache = remove name env.host_cache;
      references = references;
      deferred = deferred;
    }

unfoldable pub move_value : String → String → ExecutionEnv → Result (Unit {0}) × ExecutionEnv
unfolding insert drop_value
move_value from to env = elim (find from env.values) [
  | none ↦ (err invalid_tensor, env)
  | some value ↦
      let others = remove from env.values in
      let (references, deferred) = drop_value (find to others) (env.references, env.deferred) in
      (
        ok tt,
        record env {
          values = insert to value others;
          host_cache = remove to (remove from env.host_cache);
          references = references;
          deferred = deferred;
        },
      )
]

abbrev pub take_owned : String → DeviceTensor → ExecutionEnv → Result DeviceTensor × ExecutionEnv
take_owned name t env = elim t.buf [
  | owned b ↦ (
    ok t,
    record env { values = remove name env.values; host_cache = remove name env.host_cache },
  )
  | borrowed b ↦ (err invalid_tensor, env)
  | shared b ↦ (err invalid_tensor, env)
]

-- A value that is not an owned one is put back.
unfoldable pub take_device : String → ExecutionEnv → Result DeviceTensor × ExecutionEnv
unfolding remove
take_device name env = elim (find name env.values) [
  | none ↦ (err invalid_tensor, env)
  | some (host t) ↦ (err invalid_tensor, env)
  | some (device t) ↦ take_owned name t env
]

-- The buffer of a value that the run must free.
abbrev pub owned_in : DeviceBuffer → List GpuBuffer
owned_in (owned b) = b ∷ []
owned_in (borrowed b) = []
owned_in (shared b) = []

abbrev pub owned_buffers : Tensor → List GpuBuffer
owned_buffers (host t) = []
owned_buffers (device t) = owned_in t.buf

abbrev pub recycle_all : List GpuBuffer → Memory → Memory
recycle_all [] m = m
recycle_all (b ∷ bs) m = recycle_all bs (recycle_storage_buffer m b)

-- The buffers of a kind of a value that may be there.
abbrev pub buffers_of : (Tensor → List GpuBuffer) → Option Tensor → List GpuBuffer
buffers_of kind none = []
buffers_of kind (some t) = kind t

abbrev pub owned_of : Option Tensor → List GpuBuffer
owned_of v = buffers_of owned_buffers v

-- `release`: an owned buffer goes to the pool, and any other value is dropped.
unfoldable pub release_value : String → ExecutionEnv → ExecutionEnv
unfolding remove drop_value
release_value name env =
    let (references, deferred) = drop_value (find name env.values) (env.references, env.deferred) in
    record env {
      values = remove name env.values;
      host_cache = remove name env.host_cache;
      references = references;
      deferred = deferred;
      cache =
          with_memory (recycle_all (owned_of (find name env.values)) env.cache.context.memory)
            env.cache;
    }

-- A tensor in the loop of `release_owned`: an owned buffer goes to `defer_destroy`, and any other is dropped.
unfoldable pub drain_buffer :
    DeviceBuffer → List GpuBuffer × List GpuBuffer → List GpuBuffer × List GpuBuffer
unfolding drop_reference
drain_buffer (owned b) (references, deferred) = (references, deferred ++ b ∷ [])
drain_buffer (borrowed b) s = s
drain_buffer (shared b) s = drop_reference b s

-- The loop over `self.values.drain()`, in the order of the table.
unfoldable pub drain_values :
    List (String × Tensor) → List GpuBuffer × List GpuBuffer → List GpuBuffer × List GpuBuffer
unfolding drain_buffer
drain_values [] s = s
drain_values ((name, host t) ∷ table) s = drain_values table s
drain_values ((name, device t) ∷ table) s = drain_values table (drain_buffer t.buf s)

-- `release_owned`, with `drain_storage_pool` of buffer.rs.
unfoldable pub release_owned : ExecutionEnv → ExecutionEnv
unfolding drain_values drain
release_owned env =
    let (references, deferred) = drain_values env.values (env.references, env.deferred) in
    record env {
      values = [];
      references = references;
      deferred = deferred ++ drain env.cache.context.memory.storage_pool;
      cache = with_memory (record env.cache.context.memory { storage_pool = [] }) env.cache;
    }
