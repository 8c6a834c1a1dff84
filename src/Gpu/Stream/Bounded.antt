-- ===== src/Gpu/Stream/Bounded.antt =====
-- The bounds of the command stream: submissions in flight, and dispatches in the open command buffer.
use onnx_vulkan_rs_edge.Prelude.{
  ℕ, zero, suc, ◌≤◌, ◌<◌, ◌≡◌, refl, ap, ◌∙◌, Bool, true, false, List, [], ◌∷◌, length,
  length-append, leb, arith, Bool-cases, Option-cases, inl, inr,
}
use onnx_vulkan_rs_edge.Gpu.Buffer.{GpuBuffer, acquire_staging}
use onnx_vulkan_rs_edge.Gpu.Descriptor.{acquire_descriptor_set}
use onnx_vulkan_rs_edge.Gpu.Stream.{
  StreamState, Submission, Caps, Answers, ensure_buffer, run_completion, wait_and_reap,
  defer_to_last, defer_from, defer_destroy, reap_oldest, submit, flush, newest, older, reap_newest,
  flush_wait, reap_all, finish_stream, is_set, record_dispatch, stream_dispatch_slices,
  stream_copy_range, upload_from, stream_upload_at, download_with, stream_download_at,
}

-- An operation of the stream with its arguments.
pub data Operation : Type 0 where
  upload : GpuBuffer → ℕ → ℕ → Operation
  dispatch : List GpuBuffer → Operation
  copy_range : GpuBuffer → ℕ → GpuBuffer → ℕ → ℕ → Operation
  defer : GpuBuffer → Operation
  submit_open submit_and_wait finish : Operation
  download : GpuBuffer → ℕ → ℕ → Operation

abbrev pub perform : Caps → Answers → Operation → StreamState → Bool × StreamState
perform caps a (upload dst offset len) s = stream_upload_at a dst offset len s
perform caps a (dispatch buffers) s = stream_dispatch_slices caps a buffers s
perform caps a (copy_range src from dst to bytes) s = stream_copy_range a src from dst to bytes s
perform caps a (defer b) s = (true, defer_destroy b s)
perform caps a submit_open s = flush caps a s
perform caps a submit_and_wait s = flush_wait caps a s
perform caps a finish s = finish_stream a s
perform caps a (download src offset bytes) s = stream_download_at caps a src offset bytes s

-- The states after each of a sequence of operations, each of which may have failed.
abbrev pub run : Caps → List (Operation × Answers) → StreamState → StreamState
run caps [] s = s
run caps ((op, a) ∷ ops) s = run caps ops (perform caps a op s).1

pub wait_and_reap-pending :
    (a : Answers) (s : StreamState) (sub : Submission)
    → ((wait_and_reap a s sub).1.pending ≡ s.pending)
      × ((wait_and_reap a s sub).1.is_open ≡ s.is_open)
unfolding wait_and_reap run_completion
wait_and_reap-pending a s sub = ground arith

pub length-older : (sub : Submission) (p : List Submission) → length (older sub p) ≡ length p
unfolding older
length-older sub [] = refl
length-older sub (next ∷ p) = ap suc (length-older next p)

length-defer_to_last :
    (b : GpuBuffer) (sub : Submission) (p : List Submission)
    → length (defer_to_last b sub p) ≡ suc (length p)
unfolding defer_to_last
length-defer_to_last b sub [] = refl
length-defer_to_last b sub (next ∷ p) = ap suc (length-defer_to_last b next p)

record_dispatch-pending :
    (a : Answers) (buffers : List GpuBuffer) (s : StreamState)
    → ((record_dispatch a buffers s).1.pending ≡ s.pending)
      × ((record_dispatch a buffers s).1.is_open ≡ s.is_open)
      × ((record_dispatch a buffers s).1.pending_dispatches ≡ s.pending_dispatches)
unfolding record_dispatch
record_dispatch-pending a buffers s =
    let sets = (acquire_descriptor_set a.creates a.allocates s.descriptors).0 in
    elim (Bool-cases a.records) [
      | inr refused ↦ rw (record_dispatch, refused) (refl, refl, refl)
      | inl checked ↦ elim (Bool-cases (is_set sets)) [
        | inl found ↦ rw (record_dispatch, checked, found) (refl, refl, refl)
        | inr missing ↦ rw (record_dispatch, checked, missing) (refl, refl, refl)
      ]
    ]

module _ (caps : Caps) (positive : 0 < caps.max_in_flight) where
  reap_oldest-below :
      (a : Answers) (p : List Submission) (s : StreamState)
      → s.pending ≡ p
      → length p ≤ caps.max_in_flight
      → length (reap_oldest caps a p s).1.pending < caps.max_in_flight
  unfolding reap_oldest
  reap_oldest-below a [] s e h = ground arith
  reap_oldest-below a (oldest ∷ rest) s e h =
      let (same, _) = wait_and_reap-pending a (record s { pending = rest }) oldest in
      elim (Bool-cases (leb caps.max_in_flight (length (oldest ∷ rest)))) [
        | inl full ↦ rw (full, same) (omega arith)
        | inr room ↦ rw (room, e) (ground arith)
      ]

  submit-below :
      (a : Answers) (s : StreamState)
      → length s.pending < caps.max_in_flight
      → length (submit a s).1.pending ≤ caps.max_in_flight
  unfolding submit
  submit-below a s h =
      let grown = λ (x : Submission). length-append s.pending (x ∷ []) in
      ground (
        arith,
        grown (record {
          commands = s.recorded;
          fence = s.submitted;
          on_complete = s.pending_deferred;
        }),
      )

  flush-below :
      (a : Answers) (s : StreamState)
      → length s.pending ≤ caps.max_in_flight
      → length (flush caps a s).1.pending ≤ caps.max_in_flight
  unfolding flush
  flush-below a s h =
      let below = reap_oldest-below a s.pending s refl h in
      ground (arith, submit-below a (reap_oldest caps a s.pending s).1 below)

  reap_newest-below :
      (a : Answers) (p : List Submission) (s : StreamState)
      → s.pending ≡ p
      → length p ≤ caps.max_in_flight
      → length (reap_newest a p s).1.pending ≤ caps.max_in_flight
  unfolding reap_newest
  reap_newest-below a [] s e h = ground arith
  reap_newest-below a (sub ∷ p) s e h =
      let (same, _) = wait_and_reap-pending a (record s { pending = older sub p }) (newest sub p) in
      rw same (omega (arith, length-older sub p))

  reap_all-below :
      (fuel : ℕ) (a : Answers) (s : StreamState)
      → length s.pending ≤ caps.max_in_flight
      → length (reap_all fuel a s).1.pending ≤ caps.max_in_flight
  unfolding reap_all
  reap_all-below zero a s h = h
  reap_all-below (suc fuel) a s h =
      let once = reap_newest-below a s.pending s refl h in
      ground (arith, reap_all-below fuel a (reap_newest a s.pending s).1 once)

  ensure_buffer-pending :
      (a : Answers) (s : StreamState) → (ensure_buffer a s).1.pending ≡ s.pending
  unfolding ensure_buffer
  ensure_buffer-pending a s = ground arith

  dispatch-below :
      (a : Answers) (buffers : List GpuBuffer) (s : StreamState)
      → length s.pending ≤ caps.max_in_flight
      → length (stream_dispatch_slices caps a buffers s).1.pending ≤ caps.max_in_flight
  unfolding stream_dispatch_slices
  dispatch-below a buffers s h =
      let s₁ = (ensure_buffer a s).1 in
      let s₂ = (record_dispatch a buffers s₁).1 in
      let kept : length s₂.pending ≤ caps.max_in_flight =
        rw ((record_dispatch-pending a buffers s₁).0, ensure_buffer-pending a s) h in
      let counted = record s₂ { pending_dispatches = suc s₂.pending_dispatches } in
      elim (Bool-cases (ensure_buffer a s).0) [
        | inr refused ↦ rw (stream_dispatch_slices, refused) (rw (ensure_buffer-pending a s) h)
        | inl opened ↦ elim (Bool-cases (record_dispatch a buffers s₁).0) [
          | inr refused ↦ rw (stream_dispatch_slices, opened, refused) kept
          | inl dispatched ↦
              elim (Bool-cases (leb caps.max_dispatches (suc s₂.pending_dispatches))) [
                | inr room ↦ rw (stream_dispatch_slices, opened, dispatched, room) kept
                | inl full ↦
                    rw (stream_dispatch_slices, opened, dispatched, full)
                      (flush-below a counted kept)
              ]
        ]
      ]

  upload-below :
      (a : Answers) (dst : GpuBuffer) (offset len : ℕ) (s : StreamState)
      → length s.pending ≤ caps.max_in_flight
      → length (stream_upload_at a dst offset len s).1.pending ≤ caps.max_in_flight
  unfolding stream_upload_at upload_from
  upload-below a dst offset len s h =
      elim (Option-cases (acquire_staging a.grants s.memory len true)) [
        | inl refused ↦ ground arith
        | inr ((from, memory), e) ↦
            ground (arith, ensure_buffer-pending a (record s { memory = memory }))
      ]

  download-below :
      (a : Answers) (src : GpuBuffer) (offset bytes : ℕ) (s : StreamState)
      → length s.pending ≤ caps.max_in_flight
      → length (stream_download_at caps a src offset bytes s).1.pending ≤ caps.max_in_flight
  unfolding stream_download_at download_with
  download-below a src offset bytes s h =
      let flushed = flush-below a s h in
      let m = (flush caps a s).1.memory in
      elim (Option-cases (acquire_staging a.grants m bytes false)) [
        | inl refused ↦ ground arith
        | inr ((to, memory), e) ↦ ground arith
      ]

  defer-below :
      (b : GpuBuffer) (p : List Submission) (s : StreamState)
      → s.pending ≡ p
      → length p ≤ caps.max_in_flight
      → length (defer_from b p s).pending ≤ caps.max_in_flight
  unfolding defer_from
  defer-below b [] s e h = ground arith
  defer-below b (sub ∷ p) s e h = omega (arith, length-defer_to_last b sub p)

  perform-below :
      (a : Answers) (op : Operation) (s : StreamState)
      → length s.pending ≤ caps.max_in_flight
      → length (perform caps a op s).1.pending ≤ caps.max_in_flight
  unfolding defer_destroy flush_wait finish_stream stream_copy_range
  perform-below a (upload dst offset len) s h = upload-below a dst offset len s h
  perform-below a (dispatch buffers) s h = dispatch-below a buffers s h
  perform-below a (copy_range src from dst to bytes) s h = ground (arith, ensure_buffer-pending a s)
  perform-below a (defer b) s h = defer-below b s.pending s refl h
  perform-below a submit_open s h = flush-below a s h
  perform-below a submit_and_wait s h =
      let s₁ = (flush caps a s).1 in
      let flushed = flush-below a s h in
      ground (arith, flushed, reap_newest-below a s₁.pending s₁ refl flushed)
  perform-below a finish s h = ground (arith, reap_all-below (length s.pending) a s h)
  perform-below a (download src offset bytes) s h = download-below a src offset bytes s h

  -- If the cap on submissions in flight is positive and is kept at first, then it is kept after any
  -- sequence of operations, whatever Vulkan answers in each of them, and whether or not it succeeds.
  pub run-below :
      (ops : List (Operation × Answers)) (s : StreamState)
      → length s.pending ≤ caps.max_in_flight
      → length (run caps ops s).pending ≤ caps.max_in_flight
  run-below [] s h = h
  run-below ((op, a) ∷ ops) s h = run-below ops (perform caps a op s).1 (perform-below a op s h)

submit-empties :
    (a : Answers) (s : StreamState) → (submit a s).0 ≡ true → (submit a s).1.pending_dispatches ≡ 0
unfolding submit
submit-empties a s h = ground arith

flush-empties :
    (caps : Caps) (a : Answers) (s : StreamState)
    → s.is_open ≡ true
    → (flush caps a s).0 ≡ true
    → (flush caps a s).1.pending_dispatches ≡ 0
unfolding flush
flush-empties caps a s o h = ground (arith, submit-empties a (reap_oldest caps a s.pending s).1)

ensure_buffer-opens :
    (a : Answers) (s : StreamState)
    → (ensure_buffer a s).0 ≡ true
    → ((ensure_buffer a s).1.is_open ≡ true)
      × ((ensure_buffer a s).1.pending_dispatches ≡ s.pending_dispatches)
unfolding ensure_buffer
ensure_buffer-opens a s h = ground arith

-- If a dispatch succeeds and the open command buffer had fewer dispatches than the positive cap, it has
-- fewer than the cap afterwards.
pub stream_dispatch_slices-below :
    (caps : Caps) (a : Answers) (buffers : List GpuBuffer) (s : StreamState)
    → 0 < caps.max_dispatches
    → s.pending_dispatches < caps.max_dispatches
    → (stream_dispatch_slices caps a buffers s).0 ≡ true
    → (stream_dispatch_slices caps a buffers s).1.pending_dispatches < caps.max_dispatches
unfolding stream_dispatch_slices
stream_dispatch_slices-below caps a buffers s h b ok =
    let s₁ = (ensure_buffer a s).1 in
    let s₂ = (record_dispatch a buffers s₁).1 in
    let (_, still, kept) = record_dispatch-pending a buffers s₁ in
    let counted = record s₂ { pending_dispatches = suc s₂.pending_dispatches } in
    elim (Bool-cases (ensure_buffer a s).0) [
      | inr refused ↦ absurd (let e = rw (stream_dispatch_slices, refused) at ok in ground arith)
      | inl opened ↦ elim (Bool-cases (record_dispatch a buffers s₁).0) [
        | inr refused ↦
            absurd (let e = rw (stream_dispatch_slices, opened, refused) at ok in ground arith)
        | inl dispatched ↦ elim (Bool-cases (leb caps.max_dispatches (suc s₂.pending_dispatches))) [
          | inr room ↦ rw (stream_dispatch_slices, opened, dispatched, room) (ground arith)
          | inl full ↦
              let (open_now, _) = ensure_buffer-opens a s opened in
              let flushed : (flush caps a counted).0 ≡ true =
                rw (stream_dispatch_slices, opened, dispatched, full) at ok in
              let empty = flush-empties caps a counted (still ∙ open_now) flushed in
              rw (stream_dispatch_slices, opened, dispatched, full) (rw empty h)
        ]
      ]
    ]
