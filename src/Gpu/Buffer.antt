-- ===== src/Gpu/Buffer.antt =====
-- crates/vk-compute/src/buffer.rs: buffers, the pool of storage buffers by exact size, and the staging
-- buffers. A buffer is known by the number of its creation; that Vulkan and the allocator grant a
-- buffer is the parameter `grants`, of that number and the size.
pub mod Ledger
pub mod Staging
use onnx_vulkan_rs_edge.Prelude.{
  ℕ, zero, suc, ◌+◌, ◌*◌, ◌^◌, max, Bool, true, false, List, [], ◌∷◌, ◌++◌, Option, none, some,
  ◌==◌, leb, if◌then◌else◌,
}

pub record GpuBuffer : Type 0 where
  pub id : ℕ
  pub size : ℕ
  -- a device-local tensor buffer
  pub storage : Bool

-- `HashMap<u64, Vec<GpuBuffer>>`; each vector stands with its last element first.
abbrev pub StoragePool : Type 0
StoragePool = List (ℕ × List GpuBuffer)

-- `take`: the newest free buffer of exactly this size.
unfoldable pub take : ℕ → StoragePool → Option (GpuBuffer × StoragePool)
take size [] = none
take size ((key, []) ∷ pool) =
    let rest = take size pool in
    if key == size
    then none
    else elim rest [ none ↦ none | some (b, pool') ↦ some (b, (key, []) ∷ pool') ]
take size ((key, b ∷ bs) ∷ pool) =
    let rest = take size pool in
    if key == size
    then some (b, (key, bs) ∷ pool)
    else elim rest [ none ↦ none | some (b', pool') ↦ some (b', (key, b ∷ bs) ∷ pool') ]

-- `put`, under the buffer's own size
unfoldable pub put : GpuBuffer → StoragePool → StoragePool
put b [] = (b.size, b ∷ []) ∷ []
put b ((key, bs) ∷ pool) = if key == b.size then (key, b ∷ bs) ∷ pool else (key, bs) ∷ put b pool

-- `drain`: what was in the pool, which is then empty.
unfoldable pub drain : StoragePool → List GpuBuffer
drain [] = []
drain ((key, bs) ∷ pool) = bs ++ drain pool

-- The buffers of a context: the pools, the count of creations, and the buffers destroyed so far.
pub record Memory : Type 0 where
  pub created : ℕ
  pub storage_pool : StoragePool
  pub upload : List GpuBuffer
  pub download : List GpuBuffer
  pub destroyed : List GpuBuffer

-- `create_buffer`, and the flag that `create_storage_buffer` sets
unfoldable pub create_buffer : (ℕ → ℕ → Bool) → Memory → ℕ → Bool → Option (GpuBuffer × Memory)
create_buffer grants m size storage =
    if grants m.created size
    then some (
      record { id = m.created; size = size; storage = storage },
      record m { created = suc m.created },
    )
    else none

unfoldable pub create_storage_buffer : (ℕ → ℕ → Bool) → Memory → ℕ → Option (GpuBuffer × Memory)
unfolding take create_buffer
create_storage_buffer grants m size = elim (take size m.storage_pool) [
  | some (b, pool) ↦ some (b, record m { storage_pool = pool })
  | none ↦ create_buffer grants m size true
]

unfoldable pub recycle_storage_buffer : Memory → GpuBuffer → Memory
unfolding put
recycle_storage_buffer m b = record m { storage_pool = put b m.storage_pool }

unfoldable pub destroy_buffer : Memory → GpuBuffer → Memory
destroy_buffer m b = record m { destroyed = b ∷ m.destroyed }

unfoldable pub destroy_all : Memory → List GpuBuffer → Memory
unfolding destroy_buffer
destroy_all m [] = m
destroy_all m (b ∷ bs) = destroy_all (destroy_buffer m b) bs

unfoldable pub destroy_storage_pool : Memory → Memory
unfolding drain destroy_all
destroy_storage_pool m = destroy_all (record m { storage_pool = [] }) (drain m.storage_pool)

-- list.iter().position(|b| b.size >= size) and swap_remove: the last buffer takes the free place.
unfoldable pub last_or : GpuBuffer → List GpuBuffer → GpuBuffer
last_or b [] = b
last_or b (c ∷ cs) = last_or c cs

unfoldable pub without_last : List GpuBuffer → List GpuBuffer
without_last [] = []
without_last (b ∷ []) = []
without_last (b ∷ c ∷ cs) = b ∷ without_last (c ∷ cs)

unfoldable pub refill : List GpuBuffer → List GpuBuffer
unfolding last_or without_last
refill [] = []
refill (c ∷ cs) = last_or c cs ∷ without_last (c ∷ cs)

unfoldable pub take_large : ℕ → List GpuBuffer → Option (GpuBuffer × List GpuBuffer)
unfolding refill
take_large size [] = none
take_large size (b ∷ bs) =
    let rest = take_large size bs in
    if leb size b.size
    then some (b, refill bs)
    else elim rest [ none ↦ none | some (c, bs') ↦ some (c, b ∷ bs') ]

-- u64::next_power_of_two, by doubling; 64 rounds reach every u64.
unfoldable pub double_up : ℕ → ℕ → ℕ → ℕ
double_up zero p n = p
double_up (suc fuel) p n = let more = double_up fuel (2 * p) n in if leb n p then p else more

unfoldable pub next_power_of_two : ℕ → ℕ
unfolding double_up
next_power_of_two n = double_up 64 1 n

unfoldable pub staging_capacity : ℕ → ℕ
unfolding next_power_of_two
staging_capacity size = next_power_of_two (max size (64 * 1024))

-- The pool of one direction: upload (true) or download (false).
abbrev pub staging : Memory → Bool → List GpuBuffer
staging m true = m.upload
staging m false = m.download

abbrev pub with_staging : Memory → Bool → List GpuBuffer → Memory
with_staging m true bs = record m { upload = bs }
with_staging m false bs = record m { download = bs }

unfoldable pub acquire_staging : (ℕ → ℕ → Bool) → Memory → ℕ → Bool → Option (GpuBuffer × Memory)
unfolding take_large create_buffer staging_capacity
acquire_staging grants m size upload = elim (take_large size (staging m upload)) [
  | some (b, bs) ↦ some (b, with_staging m upload bs)
  | none ↦ create_buffer grants m (staging_capacity size) false
]

unfoldable pub release_staging : Memory → GpuBuffer → Bool → Memory
release_staging m b upload = with_staging m upload (staging m upload ++ b ∷ [])

unfoldable pub destroy_staging_pool : Memory → Memory
unfolding destroy_all
destroy_staging_pool m =
    destroy_all (record m { upload = []; download = [] }) (m.upload ++ m.download)
