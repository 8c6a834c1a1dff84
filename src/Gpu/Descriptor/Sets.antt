-- ===== src/Gpu/Descriptor/Sets.antt =====
-- Which sets the descriptor arena hands out.
use onnx_vulkan_rs_edge.Prelude.{
  ℕ, suc, ◌+◌, ◌*◌, ◌≤◌, ◌<◌, ◌≡◌, ◌⊎◌, inl, inr, refl, Bool, true, false, leb, ltb, arith,
  Bool-cases,
}
use onnx_vulkan_rs_edge.Gpu.Descriptor.{
  DescriptorArena, failed, panicked, set_of, new_descriptor_pool, first_pool, next_pool, allocate,
  acquire_descriptor_set,
}

-- The arena is empty, or its current pool exists; no pool has given more sets than it has.
abbrev pub IsArena : DescriptorArena → Type 0
IsArena a =
    ((a.pools ≡ 0) × (a.current ≡ 0) × (a.used_in_current ≡ 0))
    ⊎ ((a.current < a.pools) × (a.used_in_current ≤ 1024))

-- How many sets the arena has passed since it was reset.
abbrev pub given : DescriptorArena → ℕ
given a = a.current * 1024 + a.used_in_current

first_pool-IsArena :
    (a : DescriptorArena)
    → IsArena a
    → ((first_pool true a).0 ≡ true)
      × (given (first_pool true a).1 ≡ given a)
      × ((first_pool true a).1.current < (first_pool true a).1.pools)
      × ((first_pool true a).1.used_in_current ≤ 1024)
unfolding first_pool new_descriptor_pool
first_pool-IsArena a (inl h) = ground arith
first_pool-IsArena a (inr h) = ground arith

next_pool-given :
    (a : DescriptorArena)
    → a.current < a.pools
    → a.used_in_current ≤ 1024
    → ((next_pool true a).0 ≡ true)
      × (given (next_pool true a).1 ≡ given a)
      × ((next_pool true a).1.current < (next_pool true a).1.pools)
      × ((next_pool true a).1.used_in_current < 1024)
unfolding next_pool new_descriptor_pool
next_pool-given a h u = elim (Bool-cases (leb 1024 a.used_in_current)) [
  | inl full ↦ elim (Bool-cases (leb a.pools (suc a.current))) [
    | inl last ↦ ground arith
    | inr more ↦ ground arith
  ]
  | inr room ↦ ground arith
]

-- If the arena is well formed and Vulkan grants a pool and a set, the next set is handed out: its number,
-- over all pools in their order, is the number of sets passed since the last reset, which grows by one,
-- so no set is handed out twice; it lies within its pool, and the arena stays well formed.
pub acquire_descriptor_set-lem :
    (a : DescriptorArena)
    → IsArena a
    → (pool : ℕ) × (i : ℕ) × ((acquire_descriptor_set true true a).0 ≡ set_of pool i)
      × (pool * 1024 + i ≡ given a)
      × (i < 1024)
      × (pool < (acquire_descriptor_set true true a).1.pools)
      × (given (acquire_descriptor_set true true a).1 ≡ suc (given a))
      × IsArena (acquire_descriptor_set true true a).1
unfolding acquire_descriptor_set allocate
acquire_descriptor_set-lem a h =
    let (s, g, c, u) = first_pool-IsArena a h in
    let b = (first_pool true a).1 in
    let (s', g', c', u') = next_pool-given b c u in
    let d = (next_pool true b).1 in
    let lt : ltb d.current d.pools ≡ true = ground arith in
    rw (s, s', lt)
      (
        d.current,
        d.used_in_current,
        refl,
        omega (arith, g, g'),
        u',
        c',
        omega (arith, g, g'),
        inr (c', u'),
      )

-- If the current pool of an arena is its last and is used up, and Vulkan refuses a new pool, the call
-- fails, and the next call panics, whatever Vulkan grants then.
pub acquire_descriptor_set-after_failure :
    (a : DescriptorArena) (creates allocates : Bool)
    → suc a.current ≡ a.pools
    → 1024 ≤ a.used_in_current
    → ((acquire_descriptor_set false true a).0 ≡ failed)
      × ((acquire_descriptor_set creates allocates (acquire_descriptor_set false true a).1).0
          ≡ panicked)
unfolding acquire_descriptor_set first_pool next_pool new_descriptor_pool allocate
acquire_descriptor_set-after_failure a creates allocates h u = ground arith
