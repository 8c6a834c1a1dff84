-- ===== src/Cache/Teardown.antt =====
-- The buffers of cache.rs: a race of two builds for one key, and `drop`.
use onnx_vulkan_rs_edge.Prelude.{
  ℕ, ◌+◌, ◌≡◌, refl, ap, ◌∙◌, ◌⊎◌, Bool, true, some, none, List, [], ◌∷◌, arith, Option-cases, inl,
  inr,
}
use onnx_vulkan_rs_edge.Gpu.Buffer.{GpuBuffer, Memory, destroy_buffer, destroy_all}
use onnx_vulkan_rs_edge.Gpu.Buffer.Ledger.{copy, copies, destroy_all-pools, destroyed-destroy_all}
use onnx_vulkan_rs_edge.Cache.Warm.{settle-occupied, settle-vacant, get-settle}
use onnx_vulkan_rs_edge.Cache.{
  VkContext, KernelCache, get, settle, discard_buffer, values, pipelines_of, destroy_pipeline,
  destroy_pipelines, to_list, drop,
}

-- What `settle` does with a buffer `built` for a key, by its result: if another thread had put a buffer
-- under the key, that one is the result, the map is as it was, and the built one is destroyed; if not,
-- the built one is the result and in the map, and the context is as it was.
abbrev pub Settled {ℓ} :
    {K : Type ℓ} (same : K → K → Bool)
    → K
    → GpuBuffer
    → List (K × GpuBuffer)
    → VkContext
    → GpuBuffer
    → List (K × GpuBuffer)
    → VkContext
    → Type ℓ
Settled same key built map context b map' context' =
    (get same key map ≡ some b)
      × (map' ≡ map)
      × (context'.memory.destroyed ≡ built ∷ context.memory.destroyed)
    ⊎ (get same key map ≡ none) × (b ≡ built) × (map' ≡ (key, built) ∷ map) × (context' ≡ context)

-- For a reflexive test of keys: a buffer that was built for a key is afterwards the one under the key and
-- what is returned, unless another thread had put one there, which then is returned, stays, and leaves the
-- map as it was, while the built one is destroyed. Each buffer is counted as often as before, the built
-- one once more, among those in the map and those destroyed; and the pools keep their buffers.
pub settle-copies {ℓ} :
    {K : Type ℓ} (same : K → K → Bool) (i : ℕ) (key : K) (built : GpuBuffer)
    (map : List (K × GpuBuffer)) (context : VkContext)
    → same key key ≡ true
    → let s = settle same discard_buffer key built (map, context) in
      Settled same key built map context s.0 s.1 s.2
      × (get same key s.1 ≡ some s.0)
      × (copies i s.2.memory.destroyed + copies i (values s.1)
          ≡ copies i context.memory.destroyed + copies i (values map) + copy i built)
      × (s.2.memory.storage_pool ≡ context.memory.storage_pool)
      × (s.2.memory.upload ≡ context.memory.upload)
      × (s.2.memory.download ≡ context.memory.download)
unfolding discard_buffer destroy_buffer values
settle-copies same i key built map context r =
    let here = get-settle same discard_buffer key built map context r in
    elim (Option-cases (get same key map)) [
      | inl vacant ↦
          let e = settle-vacant same discard_buffer key built map context vacant in
          rw e (inr (vacant, refl, refl, refl), rw e at here, omega arith, refl, refl, refl)
      | inr (v, occupied) ↦
          let e = settle-occupied same discard_buffer key built map context occupied in
          rw e (inl (occupied, refl, refl), occupied, omega arith, refl, refl, refl)
    ]

destroy_pipelines-memory :
    (ps : List ℕ) (context : VkContext) → (destroy_pipelines ps context).memory ≡ context.memory
unfolding destroy_pipelines
destroy_pipelines-memory [] context = refl
destroy_pipelines-memory (p ∷ ps) context = destroy_pipelines-memory ps (destroy_pipeline p context)

-- Dropping the cache destroys each packed weight, each uploaded initializer and the zero scalar once more
-- than the flush before it, and no other buffer, so none of the transposed initializers; the pools stay
-- as the flush left them.
pub destroyed-drop :
    (i : ℕ) (flushed : VkContext → VkContext) (c : KernelCache)
    → (copies i (drop flushed c).memory.destroyed
        ≡ copies i (flushed c.context).memory.destroyed
          + copies i (values c.packed)
          + copies i (values c.uploads)
          + copies i (to_list c.zero_scalar))
      × ((drop flushed c).memory.storage_pool ≡ (flushed c.context).memory.storage_pool)
      × ((drop flushed c).memory.upload ≡ (flushed c.context).memory.upload)
      × ((drop flushed c).memory.download ≡ (flushed c.context).memory.download)
unfolding drop
destroyed-drop i flushed c =
    let context = destroy_pipelines (pipelines_of c.pipelines) (flushed c.context) in
    let same = destroy_pipelines-memory (pipelines_of c.pipelines) (flushed c.context) in
    let packed = destroy_all context.memory (values c.packed) in
    let uploads = destroy_all packed (values c.uploads) in
    let first = destroy_all-pools context.memory (values c.packed) in
    let second = destroy_all-pools packed (values c.uploads) in
    let third = destroy_all-pools uploads (to_list c.zero_scalar) in
    (
      omega (
        arith,
        ap (λ (m : Memory). copies i m.destroyed) same,
        destroyed-destroy_all i context.memory (values c.packed),
        destroyed-destroy_all i packed (values c.uploads),
        destroyed-destroy_all i uploads (to_list c.zero_scalar),
      ),
      third.0 ∙ second.0 ∙ first.0 ∙ ap (λ (m : Memory). m.storage_pool) same,
      third.1 ∙ second.1 ∙ first.1 ∙ ap (λ (m : Memory). m.upload) same,
      third.2 ∙ second.2 ∙ first.2 ∙ ap (λ (m : Memory). m.download) same,
    )
