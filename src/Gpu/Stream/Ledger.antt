-- ===== src/Gpu/Stream/Ledger.antt =====
-- The deferred work of stream.rs: how often a buffer is held, destroyed, or waits for either.
use onnx_vulkan_rs_edge.Prelude.{
  ℕ, zero, suc, ◌+◌, ◌≡◌, refl, ◌∙◌, ap, true, false, List, [], ◌∷◌, ◌++◌, length, arith,
}
use onnx_vulkan_rs_edge.Gpu.Buffer.{GpuBuffer, Memory, destroy_buffer, release_staging}
use onnx_vulkan_rs_edge.Gpu.Buffer.Ledger.{copy, held, held-release_staging}
use onnx_vulkan_rs_edge.Gpu.Stream.{
  Deferred, buffer, staging, StreamState, Submission, Caps, Answers, complete, run_completion,
  wait_and_reap, defer_to_last, defer_from, defer_destroy, reap_oldest, submit, flush, newest,
  older, reap_newest, reap_all, finish_stream,
}
use onnx_vulkan_rs_edge.Gpu.Stream.Bounded.{length-older}

-- How often the buffer of a number waits in a list of deferred work.
abbrev pub waiting : ℕ → List Deferred → ℕ
waiting i [] = 0
waiting i (buffer b ∷ ds) = copy i b + waiting i ds
waiting i (staging b is_upload ∷ ds) = copy i b + waiting i ds

abbrev pub in_flight : ℕ → List Submission → ℕ
in_flight i [] = 0
in_flight i (sub ∷ p) = waiting i sub.on_complete + in_flight i p

-- How often a buffer is held or destroyed, or waits for either.
abbrev pub owed : ℕ → StreamState → ℕ
owed i s = held i s.memory + waiting i s.pending_deferred + in_flight i s.pending

waiting-append :
    (i : ℕ) (ds es : List Deferred) → waiting i (ds ++ es) ≡ waiting i ds + waiting i es
waiting-append i [] es = omega arith
waiting-append i (buffer b ∷ ds) es = omega (arith, waiting-append i ds es)
waiting-append i (staging b is_upload ∷ ds) es = omega (arith, waiting-append i ds es)

in_flight-append :
    (i : ℕ) (p q : List Submission) → in_flight i (p ++ q) ≡ in_flight i p + in_flight i q
in_flight-append i [] q = omega arith
in_flight-append i (sub ∷ p) q = omega (arith, in_flight-append i p q)

held-complete :
    (i : ℕ) (ds : List Deferred) (m : Memory) → held i (complete ds m) ≡ held i m + waiting i ds
unfolding complete destroy_buffer
held-complete i [] m = omega arith
held-complete i (buffer b ∷ ds) m = omega (arith, held-complete i ds (destroy_buffer m b))
held-complete i (staging b is_upload ∷ ds) m = omega (
  arith,
  held-complete i ds (release_staging m b is_upload),
  held-release_staging i m b is_upload,
)

-- Reaping a submission does its deferred work once, and leaves the other work.
owed-wait_and_reap :
    (i : ℕ) (a : Answers) (s : StreamState) (sub : Submission)
    → (wait_and_reap a s sub).0 ≡ true
    → owed i (wait_and_reap a s sub).1 ≡ owed i s + waiting i sub.on_complete
unfolding wait_and_reap run_completion
owed-wait_and_reap i a s sub h = ground (arith, held-complete i sub.on_complete s.memory)

owed-reap_oldest :
    (i : ℕ) (caps : Caps) (a : Answers) (p : List Submission) (s : StreamState)
    → s.pending ≡ p
    → (reap_oldest caps a p s).0 ≡ true
    → owed i (reap_oldest caps a p s).1 ≡ owed i s
unfolding reap_oldest
owed-reap_oldest i caps a [] s e h = refl
owed-reap_oldest i caps a (oldest ∷ rest) s e h =
    let out : in_flight i s.pending ≡ waiting i oldest.on_complete + in_flight i rest =
      ap (in_flight i) e in
    ground (arith, owed-wait_and_reap i a (record s { pending = rest }) oldest)

owed-submit :
    (i : ℕ) (a : Answers) (s : StreamState)
    → (submit a s).0 ≡ true
    → owed i (submit a s).1 ≡ owed i s
unfolding submit
owed-submit i a s h = ground (
  arith,
  in_flight-append i s.pending (
      record { commands = s.recorded; fence = s.submitted; on_complete = s.pending_deferred } ∷ []),
)

-- A flush that succeeds keeps the count of each buffer among those that are held or destroyed or wait
-- in deferred work: no deferred work is lost or done twice.
pub owed-flush :
    (i : ℕ) (caps : Caps) (a : Answers) (s : StreamState)
    → (flush caps a s).0 ≡ true
    → owed i (flush caps a s).1 ≡ owed i s
unfolding flush
owed-flush i caps a s h =
    let reaped = owed-reap_oldest i caps a s.pending s refl in
    ground (arith, reaped, owed-submit i a (reap_oldest caps a s.pending s).1)

in_flight-newest :
    (i : ℕ) (sub : Submission) (p : List Submission)
    → waiting i (newest sub p).on_complete + in_flight i (older sub p) ≡ in_flight i (sub ∷ p)
unfolding newest older
in_flight-newest i sub [] = refl
in_flight-newest i sub (next ∷ p) = omega (arith, in_flight-newest i next p)

owed-reap_newest :
    (i : ℕ) (a : Answers) (p : List Submission) (s : StreamState)
    → s.pending ≡ p
    → (reap_newest a p s).0 ≡ true
    → owed i (reap_newest a p s).1 ≡ owed i s
unfolding reap_newest
owed-reap_newest i a [] s e h = refl
owed-reap_newest i a (sub ∷ p) s e h =
    let out : in_flight i s.pending ≡ in_flight i (sub ∷ p) = ap (in_flight i) e in
    omega (
      arith,
      out,
      in_flight-newest i sub p,
      owed-wait_and_reap i a (record s { pending = older sub p }) (newest sub p) h,
    )

reap_newest-goes :
    (a : Answers) (sub : Submission) (p : List Submission) (s : StreamState)
    → a.waits (newest sub p).fence ≡ true
    → ((reap_newest a (sub ∷ p) s).0 ≡ true) × ((reap_newest a (sub ∷ p) s).1.pending ≡ older sub p)
unfolding reap_newest wait_and_reap run_completion
reap_newest-goes a sub p s h = ground arith

reap_all-step :
    (fuel : ℕ) (a : Answers) (p : List Submission) (s : StreamState)
    → s.pending ≡ p
    → (reap_newest a p s).0 ≡ true
    → reap_all (suc fuel) a s ≡ reap_all fuel a (reap_newest a p s).1
unfolding reap_all
reap_all-step fuel a p s e went =
    let call : reap_newest a s.pending s ≡ reap_newest a p s = ap (λ q. reap_newest a q s) e in
    rw (call, went) refl

reap_all-ends :
    (i fuel : ℕ) (a : Answers) (p : List Submission) (s : StreamState)
    → ((k : ℕ) → a.waits k ≡ true)
    → s.pending ≡ p
    → length p ≡ fuel
    → ((reap_all fuel a s).0 ≡ true)
      × ((reap_all fuel a s).1.pending ≡ [])
      × (owed i (reap_all fuel a s).1 ≡ owed i s)
unfolding reap_all
reap_all-ends i zero a [] s w e l = (refl, e, refl)
reap_all-ends i zero a (sub ∷ p) s w e l = absurd (omega arith)
reap_all-ends i (suc fuel) a [] s w e l = absurd (omega arith)
reap_all-ends i (suc fuel) a (sub ∷ p) s w e l =
    let (went, left) = reap_newest-goes a sub p s (w (newest sub p).fence) in
    let s₁ = (reap_newest a (sub ∷ p) s).1 in
    let (rest, none_left, same) =
      reap_all-ends i fuel a (older sub p) s₁ w left (omega (arith, length-older sub p)) in
    let once = owed-reap_newest i a (sub ∷ p) s e went in
    rw (reap_all-step fuel a (sub ∷ p) s e went) (rest, none_left, same ∙ once)

-- If each wait for a fence succeeds, `finish_stream` succeeds, leaves no submission in flight and no
-- open command buffer, and keeps the count of each buffer among those that are held or destroyed or wait
-- in deferred work: the deferred work of the submissions is done, once.
pub finish_stream-lem :
    (i : ℕ) (a : Answers) (s : StreamState)
    → ((k : ℕ) → a.waits k ≡ true)
    → ((finish_stream a s).0 ≡ true)
      × ((finish_stream a s).1.pending ≡ [])
      × ((finish_stream a s).1.is_open ≡ false)
      × (owed i (finish_stream a s).1 ≡ owed i s)
unfolding finish_stream
finish_stream-lem i a s w =
    let (done, none_left, same) = reap_all-ends i (length s.pending) a s.pending s w refl refl in
    rw done (refl, none_left, refl, same)

in_flight-defer_to_last :
    (i : ℕ) (b : GpuBuffer) (sub : Submission) (p : List Submission)
    → in_flight i (defer_to_last b sub p) ≡ copy i b + in_flight i (sub ∷ p)
unfolding defer_to_last
in_flight-defer_to_last i b sub [] = omega (arith, waiting-append i sub.on_complete (buffer b ∷ []))
in_flight-defer_to_last i b sub (next ∷ p) = omega (arith, in_flight-defer_to_last i b next p)

owed-defer_from :
    (i : ℕ) (b : GpuBuffer) (p : List Submission) (s : StreamState)
    → s.pending ≡ p
    → owed i (defer_from b p s) ≡ copy i b + owed i s
unfolding defer_from
owed-defer_from i b [] s e = omega (arith, waiting-append i s.pending_deferred (buffer b ∷ []))
owed-defer_from i b (sub ∷ p) s e =
    let out : in_flight i s.pending ≡ in_flight i (sub ∷ p) = ap (in_flight i) e in
    omega (arith, out, in_flight-defer_to_last i b sub p)

-- A buffer whose destruction is deferred, by a stream with or without submissions in flight, and a flush
-- that then succeeds: the buffer is counted once more among those that are held or destroyed or wait.
pub owed-defer_destroy :
    (i : ℕ) (caps : Caps) (a : Answers) (b : GpuBuffer) (s : StreamState)
    → (flush caps a (defer_destroy b s)).0 ≡ true
    → owed i (flush caps a (defer_destroy b s)).1 ≡ copy i b + owed i s
unfolding defer_destroy
owed-defer_destroy i caps a b s h =
    owed-flush i caps a (defer_destroy b s) h ∙ owed-defer_from i b s.pending s refl
