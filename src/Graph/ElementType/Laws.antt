-- ===== src/Graph/ElementType/Laws.antt =====
-- The codes and sizes of element types.
use onnx_vulkan_rs_edge.Prelude.{
  ℕ, ◌+◌, ◌*◌, ◌≤◌, ◌<◌, ◌%◌, ◌/◌, ◌≡◌, ◌≢◌, ◌↔◌, inl, inr, max, ◌∙◌, ap, sym, ℤ, Option, some,
  arith, Option-cases,
}
use onnx_vulkan_rs_edge.Error.{ok}
use onnx_vulkan_rs_edge.Graph.ElementType.{
  ElementType, code, try_from, bit_width, byte_width, elem_size, storage_len, in_usize,
  device_storage_bytes, undefined, and_then, unwrap_or,
}

-- A code is read as a type exactly if it is that type's code.
pub try_from_iff : (value : ℤ) (t : ElementType) → (try_from value ≡ some t) ↔ (code t ≡ value)
unfolding try_from code
try_from_iff v undefined = ground arith
try_from_iff v t = ground arith

-- The storage of some elements of a known type.
abbrev pub packed : Option ℕ → ℕ → Option ℕ
packed bits n =
    and_then bits
      λ b. and_then (in_usize (n * b)) λ p. and_then (in_usize (p + 7)) λ k. some (k / 8)

storage_len-known :
    (dtype : ℤ) (t : ElementType) (n : ℕ)
    → try_from dtype ≡ some t
    → storage_len dtype n ≡ packed (bit_width t) n
unfolding storage_len
storage_len-known dtype t n h = rw h

elem_size-known :
    (dtype : ℤ) (t : ElementType)
    → try_from dtype ≡ some t
    → elem_size dtype ≡ unwrap_or (byte_width t) 0
unfolding elem_size
elem_size-known dtype t h = rw h

packed-bytes :
    (t : ElementType) (n len : ℕ)
    → unwrap_or (byte_width t) 0 ≢ 0
    → packed (bit_width t) n ≡ some len
    → len ≡ n * unwrap_or (byte_width t) 0
unfolding byte_width bit_width in_usize
packed-bytes undefined n len h e = ground arith
packed-bytes t n len h e = ground arith

packed-bits :
    (t : ElementType) (bits n len : ℕ)
    → bit_width t ≡ some bits
    → packed (bit_width t) n ≡ some len
    → (n * bits ≤ 8 * len) × (8 * len < n * bits + 8)
unfolding in_usize
packed-bits t bits n len h e = ground arith

-- If an element takes a whole number of bytes, the storage of `n` elements is `n` times that.
pub storage_len-elem_size :
    (dtype : ℤ) (n len : ℕ)
    → elem_size dtype ≢ 0
    → storage_len dtype n ≡ some len
    → len ≡ n * elem_size dtype
unfolding elem_size storage_len
storage_len-elem_size dtype n len h e = elim (Option-cases (try_from dtype)) [
  | inl absent ↦ ground arith
  | inr (t, found) ↦
      let size = elem_size-known dtype t found in
      packed-bytes t n len (λ z. h (size ∙ z)) (sym (storage_len-known dtype t n found) ∙ e)
      ∙ ap (λ x. n * x) (sym size)
]

aligned_bounds :
    (len b : ℕ) → max ((len + 3) / 4 * 4) 4 ≡ b → (b % 4 ≡ 0) × (4 ≤ b) × (len ≤ b) × (b ≤ len + 4)
aligned_bounds len b h = omega arith

device-inv :
    (dtype : ℤ) (n b : ℕ)
    → device_storage_bytes dtype n ≡ ok b
    → (len : ℕ) × (storage_len dtype n ≡ some len) × (max ((len + 3) / 4 * 4) 4 ≡ b)
unfolding device_storage_bytes
device-inv dtype n b h = elim (Option-cases (storage_len dtype n)) [
  | inl e ↦ absurd (ground arith)
  | inr (len, e) ↦ (len, e, ground arith)
]

-- If a device buffer is sized for `n` elements of a type of `bits` bits, its size is a multiple of
-- 4 bytes and at least 4, the elements fit in it, and fewer than 40 bits of it are beyond them.
pub device_storage_bytes_bounds :
    (dtype : ℤ) (t : ElementType) (bits n b : ℕ)
    → try_from dtype ≡ some t
    → bit_width t ≡ some bits
    → device_storage_bytes dtype n ≡ ok b
    → (b % 4 ≡ 0) × (4 ≤ b) × (n * bits ≤ 8 * b) × (8 * b < n * bits + 40)
device_storage_bytes_bounds dtype t bits n b h w e =
    let (len, stored, size) = device-inv dtype n b e in
    let (lo, hi) = packed-bits t bits n len w (sym (storage_len-known dtype t n h) ∙ stored) in
    omega (arith, aligned_bounds len b size)
