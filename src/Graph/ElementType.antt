-- ===== src/Graph/ElementType.antt =====
-- `ElementType` of crates/onnx-vulkan-core/src/graph.rs: the ONNX type codes and their widths, and the
-- storage sizes that follow from them.
pub mod Laws
use onnx_vulkan_rs_edge.Prelude.{
  ℕ, ◌+◌, ◌*◌, ◌/◌, Option, none, some, ltb, leb, if◌then◌else◌, ℤ, pos, negsuc, max, List, [], ◌∷◌,
  get_elem?, ◌≤◌,
}
use onnx_vulkan_rs_edge.Error.{Result, ok, err, invalid_tensor, ◌>>=◌}
use onnx_vulkan_rs_edge.Shape.{usize_limit}

pub data ElementType : Type 0 where
  undefined float32 uint8 int8 uint16 int16 : ElementType
  int32 int64 string bool float16 float64 : ElementType
  uint32 uint64 complex64 complex128 bfloat16 float8_e4m3_fn : ElementType
  float8_e4m3_fnuz float8_e5m2 float8_e5m2_fnuz uint4 int4 float4_e2m1 : ElementType
  uint2 int2 float8_e8m0 : ElementType

-- `self as i32`
unfoldable pub code : ElementType → ℤ
code undefined = pos 0
code float32 = pos 1
code uint8 = pos 2
code int8 = pos 3
code uint16 = pos 4
code int16 = pos 5
code int32 = pos 6
code int64 = pos 7
code string = pos 8
code bool = pos 9
code float16 = pos 10
code float64 = pos 11
code uint32 = pos 12
code uint64 = pos 13
code complex64 = pos 14
code complex128 = pos 15
code bfloat16 = pos 16
code float8_e4m3_fn = pos 17
code float8_e4m3_fnuz = pos 18
code float8_e5m2 = pos 19
code float8_e5m2_fnuz = pos 20
code uint4 = pos 21
code int4 = pos 22
code float4_e2m1 = pos 23
code uint2 = pos 24
code int2 = pos 25
code float8_e8m0 = pos 26

-- The types in the order of their codes.
abbrev pub element_types : List ElementType
element_types =
    undefined ∷ float32 ∷ uint8 ∷ int8 ∷ uint16 ∷ int16 ∷ int32 ∷ int64 ∷ string ∷ bool ∷ float16
    ∷ float64 ∷ uint32 ∷ uint64 ∷ complex64 ∷ complex128 ∷ bfloat16 ∷ float8_e4m3_fn
    ∷ float8_e4m3_fnuz ∷ float8_e5m2 ∷ float8_e5m2_fnuz ∷ uint4 ∷ int4 ∷ float4_e2m1 ∷ uint2 ∷ int2
    ∷ float8_e8m0 ∷ []

-- `ElementType::try_from`; `none` is `UnknownElementType`.
unfoldable pub try_from : ℤ → Option ElementType
try_from (pos value) = get_elem? element_types value
try_from (negsuc value) = none

unfoldable pub bit_width : ElementType → Option ℕ
bit_width undefined = none
bit_width float32 = some 32
bit_width uint8 = some 8
bit_width int8 = some 8
bit_width uint16 = some 16
bit_width int16 = some 16
bit_width int32 = some 32
bit_width int64 = some 64
bit_width string = none
bit_width bool = some 8
bit_width float16 = some 16
bit_width float64 = some 64
bit_width uint32 = some 32
bit_width uint64 = some 64
bit_width complex64 = some 64
bit_width complex128 = some 128
bit_width bfloat16 = some 16
bit_width float8_e4m3_fn = some 8
bit_width float8_e4m3_fnuz = some 8
bit_width float8_e5m2 = some 8
bit_width float8_e5m2_fnuz = some 8
bit_width uint4 = some 4
bit_width int4 = some 4
bit_width float4_e2m1 = some 4
bit_width uint2 = some 2
bit_width int2 = some 2
bit_width float8_e8m0 = some 8

-- The match of `byte_width` on the bit width.
unfoldable pub whole_bytes : Option ℕ → Option ℕ
whole_bytes (some bits) = if leb 8 bits then some (bits / 8) else none
whole_bytes none = none

unfoldable pub byte_width : ElementType → Option ℕ
unfolding bit_width whole_bytes
byte_width t = whole_bytes (bit_width t)

abbrev pub and_then {ℓ κ} : {A : Type ℓ} {B : Type κ} → Option A → (A → Option B) → Option B
and_then (some a) f = f a
and_then none f = none

abbrev pub unwrap_or : Option ℕ → ℕ → ℕ
unwrap_or (some n) d = n
unwrap_or none d = d

unfoldable pub elem_size : ℤ → ℕ
unfolding try_from byte_width
elem_size dtype = unwrap_or (and_then (try_from dtype) byte_width) 0

-- checked_add and checked_mul on usize
unfoldable pub in_usize : ℕ → Option ℕ
in_usize n = if ltb n usize_limit then some n else none

unfoldable pub storage_len : ℤ → ℕ → Option ℕ
unfolding try_from bit_width in_usize
storage_len dtype element_count = and_then (and_then (try_from dtype) bit_width) λ bits.
    and_then (in_usize (element_count * bits))
      λ product. and_then (in_usize (product + 7)) λ n. some (n / 8)

-- ok_or_else
abbrev pub or_invalid : Option ℕ → Result ℕ
or_invalid (some n) = ok n
or_invalid none = err invalid_tensor

-- `device_storage_bytes` of execution.rs; u64 holds every usize.
unfoldable pub device_storage_bytes : ℤ → ℕ → Result ℕ
unfolding storage_len in_usize
device_storage_bytes dtype element_count = do
  byte_len ← or_invalid (storage_len dtype element_count)
  padded ← or_invalid (in_usize (byte_len + 3))
  ok (max (padded / 4 * 4) 4)
