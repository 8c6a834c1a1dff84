-- ===== src/Gpu/Stream.antt =====
-- crates/vk-compute/src/stream.rs: recording into the open command buffer, submission with a bounded
-- number in flight, deferred work, and reaping. What a call of Vulkan answers during an operation is the
-- parameter `Answers`; an operation gives whether it returned `Ok`, and the state it leaves. The contents
-- of buffers, the time stamps of profiling, and the traces are left out.
pub mod Bounded
pub mod Ledger
use onnx_vulkan_rs_edge.Prelude.{
  ℕ, zero, suc, ◌+◌, ◌%◌, ◌^◌, Bool, true, false, not, ◌&&◌, ◌||◌, List, [], ◌∷◌, ◌++◌, length, map,
  Option, none, some, ltb, leb, ◌==◌, if◌then◌else◌,
}
use onnx_vulkan_rs_edge.Gpu.Buffer.{
  GpuBuffer, Memory, acquire_staging, destroy_buffer, release_staging,
}
use onnx_vulkan_rs_edge.Gpu.Descriptor.{
  DescriptorArena, Acquired, failed, panicked, set_of, acquire_descriptor_set, reset_descriptors,
}

-- `Deferred`: a storage buffer to destroy, a staging buffer to return to the pool of a direction.
pub data Deferred : Type 0 where
  buffer : GpuBuffer → Deferred
  staging : GpuBuffer → Bool → Deferred

-- A command buffer is the numbers of the buffers that its commands use, the newest command first.
abbrev pub Commands : Type 0
Commands = List (List ℕ)

-- `fence` is the number of the submission.
pub record Submission : Type 0 where
  pub commands : Commands
  pub fence : ℕ
  pub on_complete : List Deferred

-- `StreamState`, with the parts of the context that its operations change; `pending` stands with the
-- oldest submission first.
pub record StreamState : Type 0 where
  pub memory : Memory
  pub descriptors : DescriptorArena
  pub recorded : Commands
  pub pending_dispatches : ℕ
  pub is_open : Bool
  pub finished : Bool
  pub pending_deferred : List Deferred
  pub pending : List Submission
  pub submitted : ℕ

-- The caps of the environment variables.
pub record Caps : Type 0 where
  pub max_in_flight : ℕ
  pub max_dispatches : ℕ

-- Whether a command buffer opens, the bindings of a dispatch pass their checks, a descriptor pool is created,
-- a descriptor set is allocated, a staging buffer is mapped, a command buffer
-- ends, a fence is created, the queue takes a submission, a copy out runs, and the wait for the fence of
-- a number succeeds; and whether a buffer of a number and size is granted.
pub record Answers : Type 0 where
  pub opens : Bool
  pub records : Bool
  pub creates : Bool
  pub allocates : Bool
  pub maps : Bool
  pub ends : Bool
  pub fences : Bool
  pub submits : Bool
  pub copies : Bool
  pub waits : ℕ → Bool
  pub grants : ℕ → ℕ → Bool

unfoldable pub ensure_buffer : Answers → StreamState → Bool × StreamState
ensure_buffer a s =
    if s.finished
    then (false, s)
    else if s.is_open
    then (true, s)
    else if a.opens
    then (true, record s { recorded = []; is_open = true })
    else (false, s)

-- The loop of `run_completion`.
unfoldable pub complete : List Deferred → Memory → Memory
complete [] m = m
complete (buffer b ∷ ds) m = complete ds (destroy_buffer m b)
complete (staging b is_upload ∷ ds) m = complete ds (release_staging m b is_upload)

abbrev pub is_empty {ℓ} : {A : Type ℓ} → List A → Bool
is_empty [] = true
is_empty (x ∷ xs) = false

unfoldable pub run_completion : StreamState → Submission → StreamState
unfolding complete
run_completion s sub =
    let done = record s { memory = complete sub.on_complete s.memory } in
    if is_empty s.pending && not s.is_open
    then record done { descriptors = reset_descriptors s.descriptors }
    else done

unfoldable pub wait_and_reap : Answers → StreamState → Submission → Bool × StreamState
unfolding run_completion
wait_and_reap a s sub = if a.waits sub.fence then (true, run_completion s sub) else (false, s)

unfoldable pub defer_to_last : GpuBuffer → Submission → List Submission → List Submission
defer_to_last b sub [] = record sub { on_complete = sub.on_complete ++ buffer b ∷ [] } ∷ []
defer_to_last b sub (next ∷ pending) = sub ∷ defer_to_last b next pending

unfoldable pub defer_from : GpuBuffer → List Submission → StreamState → StreamState
unfolding defer_to_last
defer_from b [] s = record s { pending_deferred = s.pending_deferred ++ buffer b ∷ [] }
defer_from b (sub ∷ pending) s = record s { pending = defer_to_last b sub pending }

-- The command buffer of a pending submission is never null.
unfoldable pub defer_destroy : GpuBuffer → StreamState → StreamState
unfolding defer_from
defer_destroy b s = defer_from b s.pending s

-- if stream.pending.len() >= max_in_flight() { … }
unfoldable pub reap_oldest : Caps → Answers → List Submission → StreamState → Bool × StreamState
unfolding wait_and_reap
reap_oldest caps a [] s = (true, s)
reap_oldest caps a (oldest ∷ rest) s =
    if leb caps.max_in_flight (length (oldest ∷ rest))
    then wait_and_reap a (record s { pending = rest }) oldest
    else (true, s)

-- From `end_command_buffer` on.
unfoldable pub submit : Answers → StreamState → Bool × StreamState
submit a s =
    if not a.ends
    then (false, s)
    else if not a.fences
    then (false, record s { is_open = false; pending_dispatches = 0 })
    else (
      a.submits,
      record s {
        is_open = false;
        pending_dispatches = 0;
        pending_deferred = [];
        pending =
            s.pending
            ++ record {
              commands = s.recorded;
              fence = s.submitted;
              on_complete = s.pending_deferred;
            }
              ∷ [];
        submitted = suc s.submitted;
      },
    )

unfoldable pub flush : Caps → Answers → StreamState → Bool × StreamState
unfolding reap_oldest submit
flush caps a s =
    let (reaped, s₁) = reap_oldest caps a s.pending s in
    if not s.is_open then (true, s) else if reaped then submit a s₁ else (false, s₁)

-- `pop`: the newest submission, and the others.
unfoldable pub newest : Submission → List Submission → Submission
newest sub [] = sub
newest sub (next ∷ pending) = newest next pending

unfoldable pub older : Submission → List Submission → List Submission
older sub [] = []
older sub (next ∷ pending) = sub ∷ older next pending

unfoldable pub reap_newest : Answers → List Submission → StreamState → Bool × StreamState
unfolding newest older wait_and_reap
reap_newest a [] s = (true, s)
reap_newest a (sub ∷ pending) s =
    wait_and_reap a (record s { pending = older sub pending }) (newest sub pending)

unfoldable pub flush_wait : Caps → Answers → StreamState → Bool × StreamState
unfolding flush reap_newest
flush_wait caps a s =
    let (flushed, s₁) = flush caps a s in
    if flushed then reap_newest a s₁.pending s₁ else (false, s₁)

-- while let Some(sub) = stream.pending.pop() { … }
unfoldable pub reap_all : ℕ → Answers → StreamState → Bool × StreamState
unfolding reap_newest
reap_all zero a s = (true, s)
reap_all (suc fuel) a s =
    let (reaped, s₁) = reap_newest a s.pending s in
    if reaped then reap_all fuel a s₁ else (false, s₁)

-- One round for each pending submission.
unfoldable pub finish_stream : Answers → StreamState → Bool × StreamState
unfolding reap_all
finish_stream a s =
    let (reaped, s₁) = reap_all (length s.pending) a s in
    if reaped then (true, record s₁ { is_open = false }) else (false, s₁)

abbrev pub is_set : Acquired → Bool
is_set failed = false
is_set panicked = false
is_set (set_of pool set) = true

-- `record_dispatch`, which binds `buffers` in a descriptor set of the arena; a panic is a failure here.
unfoldable pub record_dispatch : Answers → List GpuBuffer → StreamState → Bool × StreamState
unfolding acquire_descriptor_set
record_dispatch a buffers s =
    let (acquired, arena) = acquire_descriptor_set a.creates a.allocates s.descriptors in
    if not a.records
    then (false, s)
    else if is_set acquired
    then (
      true,
      record s {
        descriptors = arena;
        recorded = map (λ (b : GpuBuffer). b.id) buffers ∷ s.recorded;
      },
    )
    else (false, record s { descriptors = arena })

unfoldable pub stream_dispatch_slices :
    Caps → Answers → List GpuBuffer → StreamState → Bool × StreamState
unfolding ensure_buffer record_dispatch flush
stream_dispatch_slices caps a buffers s =
    let (opened, s₁) = ensure_buffer a s in
    let (dispatched, s₂) = record_dispatch a buffers s₁ in
    let s₃ = record s₂ { pending_dispatches = suc s₂.pending_dispatches } in
    if not opened
    then (false, s₁)
    else if not dispatched
    then (false, s₂)
    else if leb caps.max_dispatches s₃.pending_dispatches
    then flush caps a s₃
    else (true, s₃)

-- A sum of u64, which wraps around in a release build.
unfoldable pub add_u64 : ℕ → ℕ → ℕ
add_u64 m n = (m + n) % 2 ^ 64

unfoldable pub stream_copy_range :
    Answers → GpuBuffer → ℕ → GpuBuffer → ℕ → ℕ → StreamState → Bool × StreamState
unfolding add_u64 ensure_buffer
stream_copy_range a src src_offset dst dst_offset bytes s =
    let (opened, s₁) = ensure_buffer a s in
    if bytes == 0
    then (true, s)
    else if not (leb (add_u64 src_offset bytes) src.size && leb (add_u64 dst_offset bytes) dst.size)
    then (false, s)
    else if opened
    then (true, record s₁ { recorded = (src.id ∷ dst.id ∷ []) ∷ s₁.recorded })
    else (false, s₁)

-- The part of `stream_upload_at` from the staging buffer on.
unfoldable pub upload_from : Answers → GpuBuffer → GpuBuffer → StreamState → Bool × StreamState
unfolding ensure_buffer
upload_from a dst from s =
    let (opened, s₁) = ensure_buffer a s in
    if not a.maps
    then (false, s)
    else if opened
    then (
      true,
      record s₁ {
        recorded = (from.id ∷ dst.id ∷ []) ∷ s₁.recorded;
        pending_deferred = s₁.pending_deferred ++ staging from true ∷ [];
      },
    )
    else (false, s₁)

unfoldable pub stream_upload_at : Answers → GpuBuffer → ℕ → ℕ → StreamState → Bool × StreamState
unfolding add_u64 upload_from
stream_upload_at a dst dst_offset len s =
    if not (leb (add_u64 dst_offset len) dst.size)
    then (false, s)
    else if len == 0
    then (true, s)
    else elim (acquire_staging a.grants s.memory len true) [
      | none ↦ (false, s)
      | some (from, memory) ↦ upload_from a dst from (record s { memory = memory })
    ]

-- From the staging buffer on; the copy's own command buffer and fence are gone when it returns.
unfoldable pub download_with : Answers → ℕ → StreamState → Bool × StreamState
download_with a bytes s = elim (acquire_staging a.grants s.memory bytes false) [
  | none ↦ (false, s)
  | some (to, memory) ↦
      if a.copies && a.maps
      then (true, record s { memory = release_staging memory to false })
      else (false, record s { memory = memory })
]

unfoldable pub stream_download_at :
    Caps → Answers → GpuBuffer → ℕ → ℕ → StreamState → Bool × StreamState
unfolding add_u64 flush download_with
stream_download_at caps a src src_offset bytes s =
    let (flushed, s₁) = flush caps a s in
    if not (leb (add_u64 src_offset bytes) src.size)
    then (false, s)
    else if flushed
    then download_with a bytes s₁
    else (false, s₁)
