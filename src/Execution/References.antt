-- ===== src/Execution/References.antt =====
-- The references of a run to shared buffers, and what a drop of some does (device.rs, execution.rs).
use onnx_vulkan_rs_edge.Prelude.{
  ℕ, ◌+◌, ◌≤◌, ◌≡◌, refl, List, [], ◌∷◌, ◌++◌, ◌==◌, ==_iff, if◌then◌else◌, arith, Bool-cases, inl,
  inr, Option, none, some, String, str_eq,
}
use onnx_vulkan_rs_edge.Gpu.Buffer.{GpuBuffer}
use onnx_vulkan_rs_edge.Gpu.Buffer.Ledger.{copy, copies, copies-append}
use onnx_vulkan_rs_edge.Cache.{get}
use onnx_vulkan_rs_edge.Execution.{
  Tensor, host, device, DeviceBuffer, owned, borrowed, shared, ExecutionEnv, find, remove,
  remove_reference, drop_reference, drop_buffer, drop_value, owned_buffers, owned_in, buffers_of,
  drain_buffer, drain_values,
}

-- The shared buffer that a value refers to.
abbrev pub shared_in : DeviceBuffer → List GpuBuffer
shared_in (owned b) = []
shared_in (borrowed b) = []
shared_in (shared b) = b ∷ []

abbrev pub shared_buffers : Tensor → List GpuBuffer
shared_buffers (host t) = []
shared_buffers (device t) = shared_in t.buf

abbrev pub shared_of : Option Tensor → List GpuBuffer
shared_of v = buffers_of shared_buffers v

-- The buffers of a kind of all the values of a table.
abbrev pub all_of : (Tensor → List GpuBuffer) → List (String × Tensor) → List GpuBuffer
all_of kind [] = []
all_of kind ((name, t) ∷ table) = kind t ++ all_of kind table

abbrev pub all_owned : List (String × Tensor) → List GpuBuffer
all_owned table = all_of owned_buffers table

abbrev pub all_shared : List (String × Tensor) → List GpuBuffer
all_shared table = all_of shared_buffers table

-- The references of some values are among the live ones.
abbrev pub Covers : List GpuBuffer → List GpuBuffer → Type 0
Covers references bs = (j : ℕ) → copies j bs ≤ copies j references

abbrev pub IsCounted : ExecutionEnv → Type 0
IsCounted env = Covers env.references (all_shared env.values)

-- 1 if a shared buffer has a reference
abbrev pub live : ℕ → List GpuBuffer → ℕ
live i references = if copies i references == 0 then 0 else 1

pub copies-remove :
    (kind : Tensor → List GpuBuffer) (i : ℕ) (name : String) (table : List (String × Tensor))
    → copies i (buffers_of kind (find name table)) + copies i (all_of kind (remove name table))
      ≡ copies i (all_of kind table)
unfolding remove get
copies-remove kind i name [] = refl
copies-remove kind i name ((key, t) ∷ table) = elim (Bool-cases (str_eq key name)) [
  | inl same ↦ rw same (omega (arith, copies-append i (kind t) (all_of kind table)))
  | inr differs ↦ rw differs (
      omega (
        arith,
        copies-append i (kind t) (all_of kind table),
        copies-append i (kind t) (all_of kind (remove name table)),
        copies-remove kind i name table,
      ))
]

copies-remove_reference :
    (j : ℕ) (b : GpuBuffer) (references : List GpuBuffer)
    → 1 ≤ copies b.id references
    → copies j (remove_reference b.id references) + copy j b ≡ copies j references
unfolding remove_reference
copies-remove_reference j b [] h = absurd (omega arith)
copies-remove_reference j b (r ∷ references) h = elim (Bool-cases (r.id == b.id)) [
  | inl same ↦ let e : r.id ≡ b.id = (==_iff r.id b.id).0 same in ground arith
  | inr other ↦
      let rest : 1 ≤ copies b.id references = ground arith in
      ground (arith, copies-remove_reference j b references rest)
]

-- What a step on the references and the deferred buffers has done that drops the references `bs` and defers
-- the buffers `os`: `bs` fewer are live, and each of `os` waits once more to be destroyed, and so does each
-- of `bs` that has no reference left.
abbrev pub Dropped :
    ℕ
    → List GpuBuffer
    → List GpuBuffer
    → List GpuBuffer × List GpuBuffer
    → List GpuBuffer × List GpuBuffer
    → Type 0
Dropped i bs os s s' =
    ((j : ℕ) → copies j s'.0 + copies j bs ≡ copies j s.0)
    × (live i s'.0 + copies i s'.1 ≡ live i s.0 + copies i s.1 + copies i os)

nothing-Dropped : (i : ℕ) (s : List GpuBuffer × List GpuBuffer) → Dropped i [] [] s s
nothing-Dropped i s = (λ j. omega arith, omega arith)

drop_reference-Dropped :
    (i : ℕ) (b : GpuBuffer) (s : List GpuBuffer × List GpuBuffer)
    → Covers s.0 (b ∷ [])
    → Dropped i (b ∷ []) [] s (drop_reference b s)
unfolding drop_reference
drop_reference-Dropped i b (references, deferred) c =
    let h : 1 ≤ copies b.id references = ground (arith, c b.id) in
    let at = λ (j : ℕ). copies-remove_reference j b references h in
    let more = copies-append i deferred (b ∷ []) in
    (
      λ j. omega (arith, at j),
      elim (Bool-cases (b.id == i)) [
        | inl same ↦
            let e : b.id ≡ i = (==_iff b.id i).0 same in ground (arith, at i, at b.id, more)
        | inr other ↦ ground (arith, at i, more)
      ],
    )

drop_buffer-Dropped :
    (i : ℕ) (d : DeviceBuffer) (s : List GpuBuffer × List GpuBuffer)
    → Covers s.0 (shared_in d)
    → Dropped i (shared_in d) [] s (drop_buffer d s)
unfolding drop_buffer
drop_buffer-Dropped i (owned b) s c = nothing-Dropped i s
drop_buffer-Dropped i (borrowed b) s c = nothing-Dropped i s
drop_buffer-Dropped i (shared b) s c = drop_reference-Dropped i b s c

drop_value-Dropped :
    (i : ℕ) (v : Option Tensor) (s : List GpuBuffer × List GpuBuffer)
    → Covers s.0 (shared_of v)
    → Dropped i (shared_of v) [] s (drop_value v s)
unfolding drop_value
drop_value-Dropped i none s c = nothing-Dropped i s
drop_value-Dropped i (some (host t)) s c = nothing-Dropped i s
drop_value-Dropped i (some (device t)) s c = drop_buffer-Dropped i t.buf s c

drain_buffer-Dropped :
    (i : ℕ) (d : DeviceBuffer) (s : List GpuBuffer × List GpuBuffer)
    → Covers s.0 (shared_in d)
    → Dropped i (shared_in d) (owned_in d) s (drain_buffer d s)
unfolding drain_buffer
drain_buffer-Dropped i (owned b) (references, deferred) c =
    (λ j. omega arith, omega (arith, copies-append i deferred (b ∷ [])))
drain_buffer-Dropped i (borrowed b) s c = nothing-Dropped i s
drain_buffer-Dropped i (shared b) s c = drop_reference-Dropped i b s c

pub drain_values-Dropped :
    (i : ℕ) (table : List (String × Tensor)) (s : List GpuBuffer × List GpuBuffer)
    → Covers s.0 (all_shared table)
    → Dropped i (all_shared table) (all_owned table) s (drain_values table s)
unfolding drain_values
drain_values-Dropped i [] s c = nothing-Dropped i s
drain_values-Dropped i ((name, host t) ∷ table) s c = drain_values-Dropped i table s c
drain_values-Dropped i ((name, device t) ∷ table) s c =
    let split = λ (j : ℕ). copies-append j (shared_in t.buf) (all_shared table) in
    let (first, waits) = drain_buffer-Dropped i t.buf s (λ j. omega (arith, c j, split j)) in
    let (later, waits') =
      drain_values-Dropped i table (drain_buffer t.buf s)
        (λ j. omega (arith, c j, split j, first j)) in
    (
      λ j. omega (arith, split j, first j, later j),
      omega (arith, waits, waits', copies-append i (owned_in t.buf) (all_owned table)),
    )

-- What the removal of a value from the table drops.
pub removal-Dropped :
    (i : ℕ) (name : String) (env : ExecutionEnv)
    → IsCounted env
    → Dropped i
        (shared_of (find name env.values))
        []
        (env.references, env.deferred)
        (drop_value (find name env.values) (env.references, env.deferred))
removal-Dropped i name env c =
    drop_value-Dropped i (find name env.values) (env.references, env.deferred)
      (λ j. omega (arith, c j, copies-remove shared_buffers j name env.values))
