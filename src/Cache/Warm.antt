-- ===== src/Cache/Warm.antt =====
-- Later requests to the cache of cache.rs, after one that gave an entry.
use onnx_vulkan_rs_edge.Prelude.{
  suc, ◌≡◌, refl, sym, subst, Bool, true, List, ◌∷◌, Option, none, some, arith, Bool-cases,
  Option-cases, inl, inr, str_eq, ℤ, pos, negsuc, ◌==ℤ◌,
}
use text.Mathlib.TextEquality.{eq_iff}
use onnx_vulkan_rs_edge.Gpu.Buffer.{GpuBuffer}
use onnx_vulkan_rs_edge.Cache.{
  VkContext, PackedKey, UploadKey, same_packed, same_upload, KernelCache, get, settle,
  discard_buffer, packed_weight_cached, packed_weight, initializer,
}

module _ {ℓ κ} {K : Type ℓ} {V : Type κ} (same : K → K → Bool) where
  pub settle-occupied :
      (discard : V → VkContext → VkContext) (key : K) {v : V} (built : V) (map : List (K × V))
      (context : VkContext)
      → get same key map ≡ some v
      → settle same discard key built (map, context) ≡ (v, map, discard built context)
  unfolding settle
  settle-occupied discard key built map context e = rw (settle, e) refl

  pub settle-vacant :
      (discard : V → VkContext → VkContext) (key : K) (built : V) (map : List (K × V))
      (context : VkContext)
      → get same key map ≡ none
      → settle same discard key built (map, context) ≡ (built, (key, built) ∷ map, context)
  unfolding settle
  settle-vacant discard key built map context e = rw (settle, e) refl

  pub get-settle :
      (discard : V → VkContext → VkContext) (key : K) (built : V) (map : List (K × V))
      (context : VkContext)
      → same key key ≡ true
      → get same key (settle same discard key built (map, context)).1
        ≡ some (settle same discard key built (map, context)).0
  unfolding get
  get-settle discard key built map context r = elim (Option-cases (get same key map)) [
    | inl vacant ↦ rw (settle-vacant discard key built map context vacant, get, r) refl
    | inr (v, occupied) ↦ rw (settle-occupied discard key built map context occupied) occupied
  ]

  pub settle-keeps :
      (discard : V → VkContext → VkContext) (key k : K) (built w : V) (map : List (K × V))
      (context : VkContext)
      → (same key k ≡ true → key ≡ k)
      → get same k map ≡ some w
      → get same k (settle same discard key built (map, context)).1 ≡ some w
  unfolding get
  settle-keeps discard key k built w map context c h = elim (Option-cases (get same key map)) [
    | inr (v, occupied) ↦ rw (settle-occupied discard key built map context occupied) h
    | inl vacant ↦ elim (Bool-cases (same key k)) [
      | inr differs ↦ rw (settle-vacant discard key built map context vacant, get, differs) h
      | inl equal ↦
          let found : get same key map ≡ some w =
            subst (λ l. get same l map ≡ some w) (sym (c equal)) h in
          absurd (ground arith)
    ]
  ]

int_refl : (x : ℤ) → (x ==ℤ x) ≡ true
int_refl (pos n) = ground arith
int_refl (negsuc n) = ground arith

packed_refl : (k : PackedKey) → same_packed k k ≡ true
unfolding same_packed
packed_refl k = let n = (eq_iff k.name k.name).1 refl in ground arith

pub upload_refl : (k : UploadKey) → same_upload k k ≡ true
unfolding same_upload
upload_refl k = let n = (eq_iff k.name k.name).1 refl in let t = int_refl k.dtype in ground arith

packed_weight-resident :
    (meanwhile : KernelCache → KernelCache) (key : PackedKey)
    (build : VkContext → Option GpuBuffer × VkContext) (c c' : KernelCache) (b : GpuBuffer)
    → packed_weight meanwhile key build c ≡ (some b, c')
    → packed_weight_cached key c' ≡ some b
unfolding packed_weight packed_weight_cached
packed_weight-resident meanwhile key build c c' b h =
    elim (Option-cases (packed_weight_cached key c)) [
      | inr (v, resident) ↦ ground arith
      | inl absent ↦ elim (Option-cases (build c.context).0) [
        | inl failed ↦ absurd (ground arith)
        | inr (built, e) ↦
            let d =
              meanwhile
                (record c { packed_builds = suc c.packed_builds; context = (build c.context).1 }) in
            ground (
              arith,
              get-settle same_packed discard_buffer key built d.packed d.context (packed_refl key),
            )
      ]
    ]

-- After a request for a packed weight that gave a buffer, whatever other threads did during it, each
-- request for the key gives that buffer, builds nothing and changes nothing.
pub packed_weight-warm :
    (meanwhile meanwhile' : KernelCache → KernelCache) (key : PackedKey)
    (build build' : VkContext → Option GpuBuffer × VkContext) (c c' : KernelCache) (b : GpuBuffer)
    → packed_weight meanwhile key build c ≡ (some b, c')
    → packed_weight meanwhile' key build' c' ≡ (some b, c')
unfolding packed_weight packed_weight_cached
packed_weight-warm meanwhile meanwhile' key build build' c c' b h =
    let there = packed_weight-resident meanwhile key build c c' b h in ground arith

initializer-resident :
    (meanwhile : KernelCache → KernelCache) (key : UploadKey)
    (build : VkContext → Option GpuBuffer × VkContext) (c c' : KernelCache) (b : GpuBuffer)
    → initializer meanwhile key build c ≡ (some b, c')
    → get same_upload key c'.uploads ≡ some b
unfolding initializer
initializer-resident meanwhile key build c c' b h =
    elim (Option-cases (get same_upload key c.uploads)) [
      | inr (v, resident) ↦ ground arith
      | inl absent ↦ elim (Option-cases (build c.context).0) [
        | inl failed ↦ absurd (ground arith)
        | inr (built, e) ↦
            let d =
              meanwhile
                (record c { upload_builds = suc c.upload_builds; context = (build c.context).1 }) in
            ground (
              arith,
              get-settle same_upload discard_buffer key built d.uploads d.context (upload_refl key),
            )
      ]
    ]

-- After a request for an initializer on the device that gave a buffer, whatever other threads did during
-- it, each request for the key gives that buffer, uploads nothing and changes nothing.
pub initializer-warm :
    (meanwhile meanwhile' : KernelCache → KernelCache) (key : UploadKey)
    (build build' : VkContext → Option GpuBuffer × VkContext) (c c' : KernelCache) (b : GpuBuffer)
    → initializer meanwhile key build c ≡ (some b, c')
    → initializer meanwhile' key build' c' ≡ (some b, c')
unfolding initializer
initializer-warm meanwhile meanwhile' key build build' c c' b h =
    let there = initializer-resident meanwhile key build c c' b h in ground arith

int_eq : (x y : ℤ) → (x ==ℤ y) ≡ true → x ≡ y
int_eq (pos m) (pos n) h = ground arith
int_eq (pos m) (negsuc n) h = absurd (ground arith)
int_eq (negsuc m) (pos n) h = absurd (ground arith)
int_eq (negsuc m) (negsuc n) h = ground arith

upload_eq : (k l : UploadKey) → same_upload k l ≡ true → k ≡ l
unfolding same_upload
upload_eq k l h =
    let s : str_eq k.name l.name ≡ true = ground arith in
    let t : (k.dtype ==ℤ l.dtype) ≡ true = ground arith in
    let u : k.len ≡ l.len = ground arith in
    let name = (eq_iff k.name l.name).0 s in
    let dtype = int_eq k.dtype l.dtype t in
    λ i. record { name = name i; dtype = dtype i; len = u i }

-- If other threads remove no entry, a request for any initializer, whether or not it succeeds, leaves an
-- entry of the cache where it is: its buffer stays that of its key.
pub initializer-keeps :
    (meanwhile : KernelCache → KernelCache) (key other : UploadKey)
    (build : VkContext → Option GpuBuffer × VkContext) (c : KernelCache) (b : GpuBuffer)
    → ((d : KernelCache)
        → get same_upload other d.uploads ≡ some b
        → get same_upload other (meanwhile d).uploads ≡ some b)
    → get same_upload other c.uploads ≡ some b
    → get same_upload other (initializer meanwhile key build c).1.uploads ≡ some b
unfolding initializer
initializer-keeps meanwhile key other build c b stays h =
    elim (Option-cases (get same_upload key c.uploads)) [
      | inr (v, resident) ↦ ground arith
      | inl absent ↦ elim (Option-cases (build c.context).0) [
        | inl failed ↦ ground arith
        | inr (built, e) ↦
            let before = record c {
              upload_builds = suc c.upload_builds;
              context = (build c.context).1;
            } in
            let d = meanwhile before in
            ground (
              arith,
              settle-keeps same_upload discard_buffer key other built b d.uploads d.context
                  (upload_eq key other) (stays before h),
            )
      ]
    ]
