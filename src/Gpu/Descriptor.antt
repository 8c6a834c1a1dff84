-- ===== src/Gpu/Descriptor.antt =====
-- crates/vk-compute/src/descriptor.rs: the arena of descriptor pools. A pool is known by its number; that
-- Vulkan grants a new pool, and a set from a pool, are the flags `creates` and `allocates` of a call.
pub mod Sets
use onnx_vulkan_rs_edge.Prelude.{
  ℕ, zero, suc, ◌+◌, Bool, true, false, not, leb, ltb, ◌==◌, if◌then◌else◌,
}

abbrev pub sets_per_pool : ℕ
sets_per_pool = 1024

-- `pools` is the number of pools, which are those from 0 on.
pub record DescriptorArena : Type 0 where
  pub pools : ℕ
  pub current : ℕ
  pub used_in_current : ℕ

-- An error of Vulkan, an index out of bounds, or the set of a pool and its number in it.
pub data Acquired : Type 0 where
  failed panicked : Acquired
  set_of : ℕ → ℕ → Acquired

unfoldable pub new_descriptor_pool : Bool → DescriptorArena → Bool × DescriptorArena
new_descriptor_pool creates arena =
    if creates then (true, record arena { pools = suc arena.pools }) else (false, arena)

-- if arena.pools.is_empty() { … }
unfoldable pub first_pool : Bool → DescriptorArena → Bool × DescriptorArena
unfolding new_descriptor_pool
first_pool creates arena =
    if arena.pools == 0 then new_descriptor_pool creates arena else (true, arena)

-- if arena.used_in_current >= SETS_PER_POOL { … }
unfoldable pub next_pool : Bool → DescriptorArena → Bool × DescriptorArena
unfolding new_descriptor_pool
next_pool creates arena =
    let moved = record arena { current = suc arena.current; used_in_current = 0 } in
    if leb sets_per_pool arena.used_in_current
    then (if leb arena.pools (suc arena.current)
        then new_descriptor_pool creates moved
        else (true, moved))
    else (true, arena)

-- From `let pool = arena.pools[arena.current]` on.
unfoldable pub allocate : Bool → DescriptorArena → Acquired × DescriptorArena
allocate allocates arena =
    if not (ltb arena.current arena.pools)
    then (panicked, arena)
    else if allocates
    then (
      set_of arena.current arena.used_in_current,
      record arena { used_in_current = suc arena.used_in_current },
    )
    else (failed, arena)

unfoldable pub acquire_descriptor_set : Bool → Bool → DescriptorArena → Acquired × DescriptorArena
unfolding first_pool next_pool allocate
acquire_descriptor_set creates allocates arena =
    let (started, arena₁) = first_pool creates arena in
    let (ready, arena₂) = next_pool creates arena₁ in
    if not started
    then (failed, arena₁)
    else if not ready
    then (failed, arena₂)
    else allocate allocates arena₂

unfoldable pub reset_descriptors : DescriptorArena → DescriptorArena
reset_descriptors arena = record arena { current = 0; used_in_current = 0 }

-- `drain(..)` leaves the other fields as they are.
unfoldable pub destroy_descriptors : DescriptorArena → DescriptorArena
destroy_descriptors arena = record arena { pools = 0 }
