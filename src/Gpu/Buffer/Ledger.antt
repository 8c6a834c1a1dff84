-- ===== src/Gpu/Buffer/Ledger.antt =====
-- The buffers of buffer.rs: how often a buffer is pooled, destroyed or handed out.
use onnx_vulkan_rs_edge.Prelude.{
  ℕ, suc, ◌+◌, ◌≤◌, ◌<◌, ◌≡◌, ◌⊎◌, refl, ◌∙◌, Bool, true, false, List, [], ◌∷◌, ◌++◌, none, some,
  ◌==◌, if◌then◌else◌, arith, Option-cases, inl, inr,
}
use onnx_vulkan_rs_edge.Gpu.Buffer.{
  GpuBuffer, StoragePool, take, put, drain, Memory, create_storage_buffer, recycle_storage_buffer,
  destroy_buffer, destroy_all, destroy_storage_pool, last_or, without_last, refill, take_large,
  acquire_staging, staging, with_staging, create_buffer, release_staging, destroy_staging_pool,
}

-- How often the buffer of a number stands in a list.
abbrev pub copies : ℕ → List GpuBuffer → ℕ
copies i [] = 0
copies i (b ∷ bs) = (if b.id == i then 1 else 0) + copies i bs

abbrev pub copy : ℕ → GpuBuffer → ℕ
copy i b = if b.id == i then 1 else 0

abbrev pub pooled : ℕ → StoragePool → ℕ
pooled i [] = 0
pooled i ((key, bs) ∷ pool) = copies i bs + pooled i pool

pub copies-append :
    (i : ℕ) (xs ys : List GpuBuffer) → copies i (xs ++ ys) ≡ copies i xs + copies i ys
copies-append i [] ys = omega arith
copies-append i (x ∷ xs) ys = omega (arith, copies-append i xs ys)

pooled-take :
    (i size : ℕ) (pool : StoragePool) {b : GpuBuffer} {pool' : StoragePool}
    → take size pool ≡ some (b, pool')
    → copy i b + pooled i pool' ≡ pooled i pool
unfolding take
pooled-take i size [] e = ground arith
pooled-take i size ((key, []) ∷ pool) e = elim (Option-cases (take size pool)) [
  | inl none' ↦ ground arith
  | inr ((c, rest), found) ↦ ground (arith, pooled-take i size pool found)
]
pooled-take i size ((key, x ∷ xs) ∷ pool) e = elim (Option-cases (take size pool)) [
  | inl none' ↦ ground arith
  | inr ((c, rest), found) ↦ ground (arith, pooled-take i size pool found)
]

pub pooled-put :
    (i : ℕ) (b : GpuBuffer) (pool : StoragePool) → pooled i (put b pool) ≡ copy i b + pooled i pool
unfolding put
pooled-put i b [] = omega arith
pooled-put i b ((key, bs) ∷ pool) = ground (arith, pooled-put i b pool)

pub copies-drain : (i : ℕ) (pool : StoragePool) → copies i (drain pool) ≡ pooled i pool
unfolding drain
copies-drain i [] = refl
copies-drain i ((key, bs) ∷ pool) =
    omega (arith, copies-append i bs (drain pool), copies-drain i pool)

-- How often a buffer stands among those that a context holds or has destroyed.
abbrev pub held : ℕ → Memory → ℕ
held i m = pooled i m.storage_pool + copies i m.upload + copies i m.download + copies i m.destroyed

pub held-destroy_all :
    (i : ℕ) (m : Memory) (bs : List GpuBuffer) → held i (destroy_all m bs) ≡ held i m + copies i bs
unfolding destroy_all
held-destroy_all i m [] = omega arith
held-destroy_all i m (b ∷ bs) = omega (arith, held-destroy_all i (destroy_buffer m b) bs)

pub destroyed-destroy_all :
    (i : ℕ) (m : Memory) (bs : List GpuBuffer)
    → copies i (destroy_all m bs).destroyed ≡ copies i m.destroyed + copies i bs
unfolding destroy_all
destroyed-destroy_all i m [] = omega arith
destroyed-destroy_all i m (b ∷ bs) = omega (arith, destroyed-destroy_all i (destroy_buffer m b) bs)

-- The last buffer and the others are all the buffers.
copies-last :
    (i : ℕ) (b : GpuBuffer) (cs : List GpuBuffer)
    → copy i (last_or b cs) + copies i (without_last (b ∷ cs)) ≡ copies i (b ∷ cs)
unfolding last_or without_last
copies-last i b [] = omega arith
copies-last i b (c ∷ cs) = omega (arith, copies-last i c cs)

copies-refill : (i : ℕ) (bs : List GpuBuffer) → copies i (refill bs) ≡ copies i bs
unfolding refill
copies-refill i [] = refl
copies-refill i (c ∷ cs) = copies-last i c cs

pub copies-take_large :
    (i size : ℕ) (bs : List GpuBuffer) {b : GpuBuffer} {bs' : List GpuBuffer}
    → take_large size bs ≡ some (b, bs')
    → (copy i b + copies i bs' ≡ copies i bs) × (size ≤ b.size)
unfolding take_large
copies-take_large i size [] e = ground arith
copies-take_large i size (x ∷ xs) e = elim (Option-cases (take_large size xs)) [
  | inl none' ↦ ground (arith, copies-refill i xs)
  | inr ((c, rest), found) ↦ ground (arith, copies-refill i xs, copies-take_large i size xs found)
]

-- The free buffers of a size: the vector under that key.
abbrev pub of_size : ℕ → StoragePool → List GpuBuffer
of_size size [] = []
of_size size ((key, bs) ∷ pool) = if key == size then bs else of_size size pool

of_size-take :
    (size : ℕ) (pool : StoragePool) {b : GpuBuffer} {pool' : StoragePool}
    → take size pool ≡ some (b, pool')
    → of_size size pool ≡ b ∷ of_size size pool'
unfolding take
of_size-take size [] e = ground arith
of_size-take size ((key, []) ∷ pool) e = elim (Option-cases (take size pool)) [
  | inl none' ↦ ground arith
  | inr ((c, rest), found) ↦ ground (arith, of_size-take size pool found)
]
of_size-take size ((key, x ∷ xs) ∷ pool) e = elim (Option-cases (take size pool)) [
  | inl none' ↦ ground arith
  | inr ((c, rest), found) ↦ ground (arith, of_size-take size pool found)
]

of_size-none : (size : ℕ) (pool : StoragePool) → take size pool ≡ none → of_size size pool ≡ []
unfolding take
of_size-none size [] e = refl
of_size-none size ((key, []) ∷ pool) e = elim (Option-cases (take size pool)) [
  | inl none' ↦ ground (arith, of_size-none size pool none')
  | inr ((c, rest), found) ↦ ground arith
]
of_size-none size ((key, x ∷ xs) ∷ pool) e = elim (Option-cases (take size pool)) [
  | inl none' ↦ ground (arith, of_size-none size pool none')
  | inr ((c, rest), found) ↦ ground arith
]

-- A step from `m` to `m'` hands out `b` for a size: the newest free storage buffer of the size, and all
-- else stays; or, if there is none, a new storage buffer, and no buffer moves.
abbrev pub HandsStorage : Memory → ℕ → GpuBuffer → Memory → Type 0
HandsStorage m size b m' =
    (m' ≡ record m { storage_pool = m'.storage_pool })
      × (of_size size m.storage_pool ≡ b ∷ of_size size m'.storage_pool)
      × ((i : ℕ) → copy i b + pooled i m'.storage_pool ≡ pooled i m.storage_pool)
    ⊎ (of_size size m.storage_pool ≡ [])
      × (b ≡ record { id = m.created; size = size; storage = true })
      × (m' ≡ record m { created = suc m.created })

-- Asking for a storage buffer hands out the newest free one of exactly that size, which the pool then
-- holds once less, while nothing else changes; or, if the pool has none of the size, a new storage
-- buffer of the size, while no buffer of a pool moves.
pub create_storage_buffer-Hands :
    (grants : ℕ → ℕ → Bool) (m : Memory) (size : ℕ) {b : GpuBuffer} {m' : Memory}
    → create_storage_buffer grants m size ≡ some (b, m')
    → HandsStorage m size b m'
unfolding create_storage_buffer create_buffer
create_storage_buffer-Hands grants m size {b = b} {m' = m'} e =
    elim (Option-cases (take size m.storage_pool)) [
      | inl none' ↦ inr (of_size-none size m.storage_pool none', ground arith, ground arith)
      | inr ((c, pool), found) ↦
          let whole = of_size-take size m.storage_pool found in
          inl (
            ground arith,
            ground (arith, whole),
            λ i. ground (arith, pooled-take i size m.storage_pool found),
          )
    ]

abbrev pub AllSmaller : ℕ → List GpuBuffer → Type 0
AllSmaller size [] = Unit {0}
AllSmaller size (b ∷ bs) = (b.size < size) × AllSmaller size bs

take_large-none : (size : ℕ) (bs : List GpuBuffer) → take_large size bs ≡ none → AllSmaller size bs
unfolding take_large
take_large-none size [] e = tt
take_large-none size (x ∷ xs) e = elim (Option-cases (take_large size xs)) [
  | inl none' ↦ (ground arith, take_large-none size xs none')
  | inr ((c, rest), found) ↦ absurd (ground arith)
]

-- A step from `m` to `m'` hands out `b` for a size and a direction: a large enough buffer from the pool
-- of the direction, and all else stays; or, if all of the direction are smaller, a new host buffer, and no
-- buffer moves.
abbrev pub HandsStaging : Memory → ℕ → Bool → GpuBuffer → Memory → Type 0
HandsStaging m size upload b m' =
    (m' ≡ with_staging m upload (staging m' upload))
      × (size ≤ b.size)
      × ((i : ℕ) → copy i b + copies i (staging m' upload) ≡ copies i (staging m upload))
    ⊎ AllSmaller size (staging m upload)
      × (b.id ≡ m.created)
      × (b.storage ≡ false)
      × (m' ≡ record m { created = suc m.created })

-- Asking for a staging buffer of a direction hands out a large enough one of the pool of that direction,
-- which then holds it once less, while nothing else changes; or, if all buffers of that direction are
-- smaller, a new buffer that is not a storage buffer, while no buffer of a pool moves.
pub acquire_staging-Hands :
    (grants : ℕ → ℕ → Bool) (m : Memory) (size : ℕ) (upload : Bool) {b : GpuBuffer} {m' : Memory}
    → acquire_staging grants m size upload ≡ some (b, m')
    → HandsStaging m size upload b m'
unfolding acquire_staging create_buffer
acquire_staging-Hands grants m size true e = elim (Option-cases (take_large size m.upload)) [
  | inl none' ↦ inr (take_large-none size m.upload none', ground arith, ground arith, ground arith)
  | inr ((c, bs), found) ↦
      let taken = λ (i : ℕ). copies-take_large i size m.upload found in
      inl (ground arith, ground (arith, (taken 0).1), λ i. ground (arith, (taken i).0))
]
acquire_staging-Hands grants m size false e = elim (Option-cases (take_large size m.download)) [
  | inl none' ↦
      inr (take_large-none size m.download none', ground arith, ground arith, ground arith)
  | inr ((c, bs), found) ↦
      let taken = λ (i : ℕ). copies-take_large i size m.download found in
      inl (ground arith, ground (arith, (taken 0).1), λ i. ground (arith, (taken i).0))
]

pub held-recycle :
    (i : ℕ) (m : Memory) (b : GpuBuffer) → held i (recycle_storage_buffer m b) ≡ copy i b + held i m
unfolding recycle_storage_buffer
held-recycle i m b = omega (arith, pooled-put i b m.storage_pool)

pub held-release_staging :
    (i : ℕ) (m : Memory) (b : GpuBuffer) (upload : Bool)
    → held i (release_staging m b upload) ≡ copy i b + held i m
unfolding release_staging
held-release_staging i m b true = omega (arith, copies-append i m.upload (b ∷ []))
held-release_staging i m b false = omega (arith, copies-append i m.download (b ∷ []))

pub destroy_all-pools :
    (m : Memory) (bs : List GpuBuffer)
    → ((destroy_all m bs).storage_pool ≡ m.storage_pool)
      × ((destroy_all m bs).upload ≡ m.upload)
      × ((destroy_all m bs).download ≡ m.download)
      × ((destroy_all m bs).created ≡ m.created)
unfolding destroy_all
destroy_all-pools m [] = (refl, refl, refl, refl)
destroy_all-pools m (b ∷ bs) = destroy_all-pools (destroy_buffer m b) bs

held-destroy_storage_pool : (i : ℕ) (m : Memory) → held i (destroy_storage_pool m) ≡ held i m
unfolding destroy_storage_pool
held-destroy_storage_pool i m = omega (
  arith,
  held-destroy_all i (record m { storage_pool = [] }) (drain m.storage_pool),
  copies-drain i m.storage_pool,
)

held-destroy_staging_pool : (i : ℕ) (m : Memory) → held i (destroy_staging_pool m) ≡ held i m
unfolding destroy_staging_pool
held-destroy_staging_pool i m = omega (
  arith,
  held-destroy_all i (record m { upload = []; download = [] }) (m.upload ++ m.download),
  copies-append i m.upload m.download,
)

-- Destroying both pools empties them, and keeps the count of each buffer among those that are held or
-- destroyed: each pooled buffer is destroyed exactly once.
pub held-destroy_pools :
    (i : ℕ) (m : Memory)
    → (held i (destroy_staging_pool (destroy_storage_pool m)) ≡ held i m)
      × ((destroy_staging_pool (destroy_storage_pool m)).storage_pool ≡ [])
      × ((destroy_staging_pool (destroy_storage_pool m)).upload ≡ [])
      × ((destroy_staging_pool (destroy_storage_pool m)).download ≡ [])
unfolding destroy_staging_pool destroy_storage_pool
held-destroy_pools i m =
    let m₁ = destroy_storage_pool m in
    let bs = m₁.upload ++ m₁.download in
    let (p, u, d, c) = destroy_all-pools (record m₁ { upload = []; download = [] }) bs in
    let first = destroy_all-pools (record m { storage_pool = [] }) (drain m.storage_pool) in
    (held-destroy_staging_pool i m₁ ∙ held-destroy_storage_pool i m, p ∙ first.0, u, d)
