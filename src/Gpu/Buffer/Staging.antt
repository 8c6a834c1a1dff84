-- ===== src/Gpu/Buffer/Staging.antt =====
-- The sizes of the buffers that buffer.rs hands out.
use onnx_vulkan_rs_edge.Prelude.{
  ℕ, zero, suc, ◌*◌, ◌^◌, ◌≤◌, ◌≡◌, refl, ap, max, Bool, List, [], ◌∷◌, some, arith, Option-cases,
  inl, inr,
}
use native.Mathlib.Nat.{pow-suc, pow-zero}
use onnx_vulkan_rs_edge.Gpu.Buffer.{
  GpuBuffer, StoragePool, take, put, Memory, create_storage_buffer, recycle_storage_buffer,
  take_large, acquire_staging, double_up, next_power_of_two, staging_capacity, staging,
}
use onnx_vulkan_rs_edge.Gpu.Buffer.Ledger.{copies-take_large}

-- Each free storage buffer stands under its own size.
abbrev pub AllSized : ℕ → List GpuBuffer → Type 0
AllSized size [] = Unit {0}
AllSized size (b ∷ bs) = (b.size ≡ size) × AllSized size bs

abbrev pub IsKeyed : StoragePool → Type 0
IsKeyed [] = Unit {0}
IsKeyed ((key, bs) ∷ pool) = AllSized key bs × IsKeyed pool

put-IsKeyed : (b : GpuBuffer) (pool : StoragePool) → IsKeyed pool → IsKeyed (put b pool)
unfolding put
put-IsKeyed b [] h = ((refl, tt), tt)
put-IsKeyed b ((key, bs) ∷ pool) h = ground (arith, put-IsKeyed b pool)

take-IsKeyed :
    (size : ℕ) (pool : StoragePool) {b : GpuBuffer} {pool' : StoragePool}
    → IsKeyed pool
    → take size pool ≡ some (b, pool')
    → (b.size ≡ size) × IsKeyed pool'
unfolding take
take-IsKeyed size [] h e = ground arith
take-IsKeyed size ((key, []) ∷ pool) h e = elim (Option-cases (take size pool)) [
  | inl none' ↦ ground arith
  | inr ((c, rest), found) ↦ ground (arith, take-IsKeyed size pool h.1 found)
]
take-IsKeyed size ((key, x ∷ xs) ∷ pool) h e = elim (Option-cases (take size pool)) [
  | inl none' ↦ ground arith
  | inr ((c, rest), found) ↦ ground (arith, take-IsKeyed size pool h.1 found)
]

-- A storage buffer has exactly the size that was asked for, and the pool stays keyed by size.
pub create_storage_buffer-size :
    (grants : ℕ → ℕ → Bool) (m : Memory) (size : ℕ) {b : GpuBuffer} {m' : Memory}
    → IsKeyed m.storage_pool
    → create_storage_buffer grants m size ≡ some (b, m')
    → (b.size ≡ size) × IsKeyed m'.storage_pool
unfolding create_storage_buffer
create_storage_buffer-size grants m size h e = elim (Option-cases (take size m.storage_pool)) [
  | inl none' ↦ ground arith
  | inr ((c, pool), found) ↦ ground (arith, take-IsKeyed size m.storage_pool h found)
]

pub recycle-IsKeyed :
    (m : Memory) (b : GpuBuffer)
    → IsKeyed m.storage_pool
    → IsKeyed (recycle_storage_buffer m b).storage_pool
unfolding recycle_storage_buffer
recycle-IsKeyed m b h = put-IsKeyed b m.storage_pool h

double_up-le :
    (fuel p n : ℕ)
    → n ≤ p * 2 ^ fuel
    → (n ≤ double_up fuel p n) × (double_up fuel p n ≤ max p (2 * n))
unfolding double_up
double_up-le zero p n h = omega (arith, pow-zero 2)
double_up-le (suc fuel) p n h =
    let half : n ≤ (2 * p) * 2 ^ fuel =
      omega (arith, pow-suc 2 fuel, ap (λ (k : ℕ). p * k) (pow-suc 2 fuel)) in
    ground (arith, double_up-le fuel (2 * p) n half)

-- The capacity of a new staging buffer holds the request and is at most twice what is needed.
staging_capacity_bounds :
    (size : ℕ)
    → size ≤ 2 ^ 63
    → (size ≤ staging_capacity size)
      × (64 * 1024 ≤ staging_capacity size)
      × (staging_capacity size ≤ 2 * max size (64 * 1024))
unfolding staging_capacity next_power_of_two
staging_capacity_bounds size h =
    omega (arith, double_up-le 64 1 (max size (64 * 1024)) (omega arith))

-- A staging buffer of either direction is as large as the request, for requests up to 2^63 bytes.
pub acquire_staging-size :
    (grants : ℕ → ℕ → Bool) (m : Memory) (size : ℕ) (upload : Bool) {b : GpuBuffer} {m' : Memory}
    → size ≤ 2 ^ 63
    → acquire_staging grants m size upload ≡ some (b, m')
    → size ≤ b.size
unfolding acquire_staging
acquire_staging-size grants m size upload h e =
    let new = staging_capacity_bounds size h in
    elim (Option-cases (take_large size (staging m upload))) [
      | inl none' ↦ ground arith
      | inr ((c, bs), found) ↦ ground (arith, copies-take_large 0 size (staging m upload) found)
    ]
