-- ===== src/Cache.antt =====
-- crates/onnx-vulkan-core/src/cache.rs: the resources that a session keeps across executions. A pipeline
-- and a buffer are known by their numbers. What a `build` closure does to the context is a parameter: a
-- function of the context to the thing built, or none if it fails, and the context after it.
pub mod Warm
pub mod Teardown
use onnx_vulkan_rs_edge.Prelude.{
  ℕ, suc, Bool, true, false, ◌&&◌, List, [], ◌∷◌, Option, none, some, ◌==◌, if◌then◌else◌, String,
  str_eq, ℤ, ◌==ℤ◌,
}
use onnx_vulkan_rs_edge.Gpu.Buffer.{
  GpuBuffer, Memory, create_storage_buffer, destroy_buffer, destroy_all,
}

-- The context, as far as the cache changes it.
pub record VkContext : Type 0 where
  pub memory : Memory
  pub pipelines_destroyed : List ℕ

pub record PackedKey : Type 0 where
  pub name : String
  pub rows : ℕ
  pub columns : ℕ

-- also the key of a transposed initializer
pub record UploadKey : Type 0 where
  pub name : String
  pub dtype : ℤ
  pub len : ℕ

unfoldable pub same_packed : PackedKey → PackedKey → Bool
same_packed k l = str_eq k.name l.name && (k.rows == l.rows && k.columns == l.columns)

unfoldable pub same_upload : UploadKey → UploadKey → Bool
same_upload k l = str_eq k.name l.name && (k.dtype ==ℤ l.dtype && k.len == l.len)

pub record KernelCache : Type 0 where
  pub context : VkContext
  pub pipelines : List (String × ℕ)
  pub packed : List (PackedKey × GpuBuffer)
  pub uploads : List (UploadKey × GpuBuffer)
  pub transposed : List (UploadKey × GpuBuffer)
  pub zero_scalar : Option GpuBuffer
  pub pipeline_builds : ℕ
  pub packed_builds : ℕ
  pub upload_builds : ℕ

unfoldable pub new : VkContext → KernelCache
new context = record {
  context = context;
  pipelines = [];
  packed = [];
  uploads = [];
  transposed = [];
  zero_scalar = none;
  pipeline_builds = 0;
  packed_builds = 0;
  upload_builds = 0;
}

module _ {ℓ κ} {K : Type ℓ} {V : Type κ} (same : K → K → Bool) where
  -- map.get(&key)
  unfoldable pub get : K → List (K × V) → Option V
  get key [] = none
  get key ((k, v) ∷ map) = if same k key then some v else get key map

  -- match map.entry(key): another thread may have put a value there since `get`, and then `discard` has
  -- the one just built.
  unfoldable pub settle :
      (V → VkContext → VkContext) → K → V → List (K × V) × VkContext → V × List (K × V) × VkContext
  unfolding get
  settle discard key built (map, context) = elim (get key map) [
    | some existing ↦ (existing, map, discard built context)
    | none ↦ (built, (key, built) ∷ map, context)
  ]

abbrev pub destroy_pipeline : ℕ → VkContext → VkContext
destroy_pipeline p context = record context {
  pipelines_destroyed = p ∷ context.pipelines_destroyed;
}

unfoldable pub discard_buffer : GpuBuffer → VkContext → VkContext
discard_buffer b context = record context { memory = destroy_buffer context.memory b }

-- `meanwhile` is what other threads do to the cache while the lock is not held.
unfoldable pub pipeline :
    (KernelCache → KernelCache)
    → String
    → (VkContext → Option ℕ × VkContext)
    → KernelCache
    → Option ℕ × KernelCache
unfolding settle
pipeline meanwhile key build c = elim (get str_eq key c.pipelines) [
  | some existing ↦ (some existing, c)
  | none ↦
      let counted = record c { pipeline_builds = suc c.pipeline_builds } in
      let (made, context) = build c.context in
      elim made [
        | none ↦ (none, record counted { context = context })
        | some built ↦
            let d = meanwhile (record counted { context = context }) in
            let (v, map, context') =
              settle str_eq destroy_pipeline key built (d.pipelines, d.context) in
            (some v, record d { pipelines = map; context = context' })
      ]
]

unfoldable pub packed_weight_cached : PackedKey → KernelCache → Option GpuBuffer
unfolding get
packed_weight_cached key c = get same_packed key c.packed

unfoldable pub packed_weight :
    (KernelCache → KernelCache)
    → PackedKey
    → (VkContext → Option GpuBuffer × VkContext)
    → KernelCache
    → Option GpuBuffer × KernelCache
unfolding settle packed_weight_cached
packed_weight meanwhile key build c = elim (packed_weight_cached key c) [
  | some existing ↦ (some existing, c)
  | none ↦
      let counted = record c { packed_builds = suc c.packed_builds } in
      let (made, context) = build c.context in
      elim made [
        | none ↦ (none, record counted { context = context })
        | some built ↦
            let d = meanwhile (record counted { context = context }) in
            let (v, map, context') =
              settle same_packed discard_buffer key built (d.packed, d.context) in
            (some v, record d { packed = map; context = context' })
      ]
]

unfoldable pub initializer :
    (KernelCache → KernelCache)
    → UploadKey
    → (VkContext → Option GpuBuffer × VkContext)
    → KernelCache
    → Option GpuBuffer × KernelCache
unfolding settle
initializer meanwhile key build c = elim (get same_upload key c.uploads) [
  | some existing ↦ (some existing, c)
  | none ↦
      let counted = record c { upload_builds = suc c.upload_builds } in
      let (made, context) = build c.context in
      elim made [
        | none ↦ (none, record counted { context = context })
        | some built ↦
            let d = meanwhile (record counted { context = context }) in
            let (v, map, context') =
              settle same_upload discard_buffer key built (d.uploads, d.context) in
            (some v, record d { uploads = map; context = context' })
      ]
]

unfoldable pub transposed_initializer_cached : UploadKey → KernelCache → Option GpuBuffer
unfolding get
transposed_initializer_cached key c = get same_upload key c.transposed

unfoldable pub transposed_initializer :
    (KernelCache → KernelCache)
    → UploadKey
    → (VkContext → Option GpuBuffer × VkContext)
    → KernelCache
    → Option GpuBuffer × KernelCache
unfolding settle transposed_initializer_cached
transposed_initializer meanwhile key build c = elim (transposed_initializer_cached key c) [
  | some existing ↦ (some existing, c)
  | none ↦
      let (made, context) = build c.context in
      elim made [
        | none ↦ (none, record c { context = context })
        | some built ↦
            let d = meanwhile (record c { context = context }) in
            let (v, map, context') =
              settle same_upload discard_buffer key built (d.transposed, d.context) in
            (some v, record d { transposed = map; context = context' })
      ]
]

-- The lock is held throughout. `uploaded` is whether the upload of the zero succeeds; a buffer whose
-- upload fails is dropped.
unfoldable pub zero_scalar_buffer :
    (ℕ → ℕ → Bool) → Bool → KernelCache → Option GpuBuffer × KernelCache
zero_scalar_buffer grants uploaded c = elim c.zero_scalar [
  | some existing ↦ (some existing, c)
  | none ↦ elim (create_storage_buffer grants c.context.memory 4) [
    | none ↦ (none, c)
    | some (b, memory) ↦
        let d = record c { context = record c.context { memory = memory } } in
        if uploaded then (some b, record d { zero_scalar = some b }) else (none, d)
  ]
]

unfoldable pub values {ℓ} : {K : Type ℓ} → List (K × GpuBuffer) → List GpuBuffer
values [] = []
values ((k, b) ∷ map) = b ∷ values map

unfoldable pub pipelines_of : List (String × ℕ) → List ℕ
pipelines_of [] = []
pipelines_of ((k, p) ∷ map) = p ∷ pipelines_of map

unfoldable pub destroy_pipelines : List ℕ → VkContext → VkContext
destroy_pipelines [] context = context
destroy_pipelines (p ∷ ps) context = destroy_pipelines ps (destroy_pipeline p context)

abbrev pub to_list : Option GpuBuffer → List GpuBuffer
to_list none = []
to_list (some b) = b ∷ []

-- `Drop for KernelCache`: the context after it. `flushed` is the context after the flush.
unfoldable pub drop : (VkContext → VkContext) → KernelCache → VkContext
unfolding values pipelines_of destroy_pipelines destroy_all
drop flushed c =
    let context = destroy_pipelines (pipelines_of c.pipelines) (flushed c.context) in
    let packed = destroy_all context.memory (values c.packed) in
    let uploads = destroy_all packed (values c.uploads) in
    record context { memory = destroy_all uploads (to_list c.zero_scalar) }
