-- ===== src/Execution/Residency.antt =====
-- The operations of execution.rs that bring a value to the device. What the context and other threads do
-- during one is the parameter `Device`.
use onnx_vulkan_rs_edge.Prelude.{
  ℕ, ◌≡◌, refl, Bool, true, false, ◌||◌, List, Option, none, some, ◌==◌, length, if◌then◌else◌,
  String, str_eq, arith, Option-cases, Bool-cases, inl, inr,
}
use text.Mathlib.TextEquality.{eq_iff}
use onnx_vulkan_rs_edge.Error.{Result, ok, err, backend, invalid_tensor, Result-cases, ◌>>=◌}
use onnx_vulkan_rs_edge.Shape.{element_count}
use onnx_vulkan_rs_edge.Gpu.Buffer.{GpuBuffer, create_storage_buffer}
use onnx_vulkan_rs_edge.Graph.Initializer.{InitializerIr}
use onnx_vulkan_rs_edge.Graph.ElementType.{storage_len, device_storage_bytes, or_invalid}
use onnx_vulkan_rs_edge.Cache.{VkContext, KernelCache, UploadKey, get, initializer}
use onnx_vulkan_rs_edge.Execution.{
  HostTensor, DeviceTensor, owned, borrowed, device, ExecutionEnv, find, insert, on_device,
  host_copy, set_value,
}

-- Whether a buffer is granted and an upload to it succeeds, what a download gives, and what other threads
-- do to the cache.
pub record Device : Type 0 where
  pub grants : ℕ → ℕ → Bool
  pub uploads : GpuBuffer → Bool
  pub download : GpuBuffer → ℕ → Option (List ℕ)
  pub meanwhile : KernelCache → KernelCache

-- `create_storage_buffer`, and `stream_upload` of `len` bytes, unless there are none; a buffer whose upload
-- fails is dropped.
unfoldable pub build_upload : Device → ℕ → ℕ → VkContext → Option GpuBuffer × VkContext
build_upload dev bytes len context = elim (create_storage_buffer dev.grants context.memory bytes) [
  | none ↦ (none, context)
  | some (b, memory) ↦
      (if len == 0 || dev.uploads b then some b else none, record context { memory = memory })
]

-- `HostTensor::validate`
unfoldable pub validate : HostTensor → Result ℕ
validate t = do
  count ← element_count t.shape
  expected ← or_invalid (storage_len t.dtype count)
  if length t.bytes == expected then ok count else err invalid_tensor

unfoldable pub upload_key : String → InitializerIr → UploadKey
upload_key name i = record { name = name; dtype = i.dtype; len = length i.bytes }

-- From the lookups of `cached_initializer` on: the tensor, and the cache afterwards.
unfoldable pub cache_entry :
    Device → String → InitializerIr → KernelCache → Result (Option DeviceTensor) × KernelCache
unfolding upload_key build_upload
cache_entry dev name i cache = elim (element_count i.shape) [
  | err e ↦ (err e, cache)
  | ok count ↦ elim (device_storage_bytes i.dtype count) [
    | err e ↦ (err e, cache)
    | ok bytes ↦
        let (found, cache') =
          initializer dev.meanwhile (upload_key name i) (build_upload dev bytes (length i.bytes))
            cache in
        elim found [
          | none ↦ (err backend, cache')
          | some b ↦ (
            ok (
                some (record {
                  dtype = i.dtype;
                  shape = i.shape;
                  elem_count = count;
                  buf = borrowed b;
                })),
            cache',
          )
        ]
  ]
]

unfoldable pub cached_initializer :
    Device → String → ExecutionEnv → Result (Option DeviceTensor) × KernelCache
unfolding cache_entry
cached_initializer dev name env = elim (find name env.initializers) [
  | none ↦ (ok none, env.cache)
  | some i ↦ elim (find name env.values) [
    | some value ↦ (ok none, env.cache)
    | none ↦ cache_entry dev name i env.cache
  ]
]

-- The last part of `ensure_device_dtype`: an upload of the validated host copy, with the count of its
-- elements, to a buffer of the run's own.
unfoldable pub upload_host : Device → String → HostTensor → ℕ → ExecutionEnv → Bool × ExecutionEnv
unfolding build_upload
upload_host dev name t count env = elim (device_storage_bytes t.dtype count) [
  | err e ↦ (false, env)
  | ok bytes ↦
      let (made, context) = build_upload dev bytes (length t.bytes) env.cache.context in
      let env₁ = record env { cache = record env.cache { context = context } } in
      elim made [
        | none ↦ (false, env₁)
        | some b ↦ (
          true,
          set_value name
              (device
                (record { dtype = t.dtype; shape = t.shape; elem_count = count; buf = owned b }))
              env₁,
        )
      ]
]

-- From `let host = self.host(name)?` on.
unfoldable pub upload_copy : Device → String → ExecutionEnv → Bool × ExecutionEnv
unfolding validate upload_host
upload_copy dev name env =
    let (copied, host_cache) = host_copy dev.download env name in
    let env₁ = record env { host_cache = host_cache } in
    elim copied [
      | err e ↦ (false, env₁)
      | ok t ↦ elim (validate t) [
        | err e ↦ (false, env₁)
        | ok count ↦ upload_host dev name t count env₁
      ]
    ]

-- Whether it returns `Ok`, and the run afterwards.
unfoldable pub ensure_device_dtype : Device → String → ExecutionEnv → Bool × ExecutionEnv
unfolding cached_initializer upload_copy
ensure_device_dtype dev name env =
    let (cached, cache) = cached_initializer dev name env in
    let env₁ = record env { cache = cache } in
    if on_device env name then (true, env) else elim cached [
      | err e ↦ (false, env₁)
      | ok (some t) ↦ (true, set_value name (device t) env₁)
      | ok none ↦ upload_copy dev name env₁
    ]

name_refl : (s : String) → str_eq s s ≡ true
name_refl s = (eq_iff s s).1 refl

on_device-set_value :
    (name : String) (t : DeviceTensor) (env : ExecutionEnv)
    → on_device (set_value name (device t) env) name ≡ true
unfolding on_device set_value insert get
on_device-set_value name t env = rw (name_refl name) refl

upload_host-on_device :
    (dev : Device) (name : String) (t : HostTensor) (count : ℕ) (env : ExecutionEnv)
    → (upload_host dev name t count env).0 ≡ true
    → on_device (upload_host dev name t count env).1 name ≡ true
unfolding upload_host
upload_host-on_device dev name t count env h =
    elim (Result-cases (device_storage_bytes t.dtype count)) [
      | inr (x, e) ↦ absurd (ground arith)
      | inl (bytes, e) ↦
          elim (Option-cases (build_upload dev bytes (length t.bytes) env.cache.context).0) [
            | inl failed ↦ absurd (ground arith)
            | inr (b, made) ↦
                let context = (build_upload dev bytes (length t.bytes) env.cache.context).1 in
                let new : DeviceTensor = record {
                  dtype = t.dtype;
                  shape = t.shape;
                  elem_count = count;
                  buf = owned b;
                } in
                rw (upload_host, e, made)
                  (on_device-set_value name new
                    (record env { cache = record env.cache { context = context } }))
          ]
    ]

upload_copy-on_device :
    (dev : Device) (name : String) (env : ExecutionEnv)
    → (upload_copy dev name env).0 ≡ true
    → on_device (upload_copy dev name env).1 name ≡ true
unfolding upload_copy
upload_copy-on_device dev name env h =
    let env₁ = record env { host_cache = (host_copy dev.download env name).1 } in
    elim (Result-cases (host_copy dev.download env name).0) [
      | inr (x, e) ↦ absurd (ground arith)
      | inl (t, e) ↦ elim (Result-cases (validate t)) [
        | inr (x, e₁) ↦ absurd (ground arith)
        | inl (count, e₁) ↦
            let done : (upload_host dev name t count env₁).0 ≡ true = ground arith in
            rw (upload_copy, e, e₁) (upload_host-on_device dev name t count env₁ done)
      ]
    ]

present :
    (dev : Device) (name : String) (env : ExecutionEnv)
    → (ensure_device_dtype dev name env).0 ≡ true
    → on_device (ensure_device_dtype dev name env).1 name ≡ true
unfolding ensure_device_dtype
present dev name env h =
    let env₁ = record env { cache = (cached_initializer dev name env).1 } in
    elim (Bool-cases (on_device env name)) [
      | inl on ↦ rw (ensure_device_dtype, on) on
      | inr off ↦ elim (Result-cases (cached_initializer dev name env).0) [
        | inr (x, e) ↦ absurd (ground arith)
        | inl (found, e) ↦ elim (Option-cases found) [
          | inr (t, f) ↦ rw (ensure_device_dtype, off, e, f) (on_device-set_value name t env₁)
          | inl f ↦
              let done : (upload_copy dev name env₁).0 ≡ true = ground arith in
              rw (ensure_device_dtype, off, e, f) (upload_copy-on_device dev name env₁ done)
        ]
      ]
    ]

again :
    (dev : Device) (name : String) (env : ExecutionEnv)
    → on_device env name ≡ true
    → ensure_device_dtype dev name env ≡ (true, env)
unfolding ensure_device_dtype
again dev name env o = rw (ensure_device_dtype, o) refl

-- If `ensure_device_dtype` succeeds, the value is on the device, whether it was there, came from the cache
-- or was uploaded; and a second call then succeeds and changes nothing.
pub ensure_device_dtype-on_device :
    (dev : Device) (name : String) (env : ExecutionEnv)
    → (ensure_device_dtype dev name env).0 ≡ true
    → (on_device (ensure_device_dtype dev name env).1 name ≡ true)
      × (ensure_device_dtype dev name (ensure_device_dtype dev name env).1
          ≡ (true, (ensure_device_dtype dev name env).1))
ensure_device_dtype-on_device dev name env h =
    let there = present dev name env h in
    (there, again dev name (ensure_device_dtype dev name env).1 there)
