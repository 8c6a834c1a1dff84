-- ===== src/Shape.antt =====
-- crates/onnx-vulkan-core/src/shape.rs: element counts, and ONNX multidirectional broadcasting with
-- the u32 strides that the Vulkan kernels take.
pub mod Count
pub mod Loops
pub mod Index
pub mod Symmetry
use onnx_vulkan_rs_edge.Prelude.{
  ℕ, zero, suc, ◌+◌, ◌-◌, ◌*◌, ◌/◌, ◌%◌, ◌^◌, max, Bool, true, false, not, ◌&&◌, ◌||◌, List, [],
  ◌∷◌, ◌++◌, ltb, if◌then◌else◌, length, replicate, ℤ, pos, negsuc, is_neg, is_one, ◌==ℤ◌,
}
use onnx_vulkan_rs_edge.Error.{Result, ok, err, invalid_shape, ◌>>=◌}

-- usize is the 64-bit one of the supported targets.
abbrev pub usize_limit : ℕ
usize_limit = 2 ^ 64

abbrev pub u32_limit : ℕ
u32_limit = 2 ^ 32

-- A product that fits below `limit`, as `checked_mul`.
unfoldable pub checked_mul : ℕ → ℕ → ℕ → Result ℕ
checked_mul limit a b = if ltb (a * b) limit then ok (a * b) else err invalid_shape

-- usize::try_from of an i64
unfoldable pub usize_from : ℤ → Result ℕ
usize_from (pos n) = ok n
usize_from (negsuc n) = err invalid_shape

-- u32::try_from of an i64
unfoldable pub u32_from : ℤ → Result ℕ
u32_from (pos n) = if ltb n u32_limit then ok n else err invalid_shape
u32_from (negsuc n) = err invalid_shape

-- The fold of `element_count` from the count so far.
unfoldable pub count_from : ℕ → List ℤ → Result ℕ
unfolding checked_mul usize_from
count_from count [] = ok count
count_from count (dimension ∷ rest) = do
  d ← usize_from dimension
  next ← checked_mul usize_limit count d
  count_from next rest

unfoldable pub element_count : List ℤ → Result ℕ
unfolding count_from
element_count shape = count_from 1 shape

pub record Broadcast : Type 0 where
  pub out_shape : List ℤ
  pub out_strides : List ℕ
  pub a_strides : List ℕ
  pub b_strides : List ℕ

-- The values of the closure `get` at the dimensions 0, …, rank - 1.
unfoldable pub padded : ℕ → List ℤ → List ℤ
padded rank shape = replicate (rank - length shape) (pos 1) ++ shape

-- One round of the loop that fills `out_shape`.
unfoldable pub out_dim : ℤ → ℤ → Result ℤ
out_dim a b =
    if is_neg a || is_neg b
    then err invalid_shape
    else if not (a ==ℤ b) && (not (is_one a) && not (is_one b))
    then err invalid_shape
    else ok (if is_one a then b else a)

unfoldable pub out_dims : List ℤ → List ℤ → Result (List ℤ)
unfolding out_dim
out_dims (a ∷ a_rest) (b ∷ b_rest) = do
  d ← out_dim a b
  rest ← out_dims a_rest b_rest
  ok (d ∷ rest)
out_dims _ _ = ok []

-- The closure `strides`, over the padded operand and the output shape. The loop runs from the last
-- dimension, so the recursion is on the tail; beside the strides it returns the accumulator.
unfoldable pub strides : List ℤ → List ℤ → Result (List ℕ × ℕ)
unfolding u32_from checked_mul
strides (dim ∷ dims) (out ∷ outs) = do
  (result, accumulator) ← strides dims outs
  d ← u32_from dim
  next ← checked_mul u32_limit accumulator d
  ok ((if is_one dim && not (is_one out) then 0 else accumulator) ∷ result, next)
strides _ _ = ok ([], 1)

-- The loop that fills `out_strides`.
unfoldable pub contiguous : List ℤ → Result (List ℕ × ℕ)
unfolding u32_from checked_mul
contiguous [] = ok ([], 1)
contiguous (dim ∷ dims) = do
  (result, accumulator) ← contiguous dims
  d ← u32_from dim
  next ← checked_mul u32_limit accumulator d
  ok (accumulator ∷ result, next)

-- `broadcast` at the two padded shapes.
unfoldable pub broadcast_padded : List ℤ → List ℤ → Result Broadcast
unfolding out_dims contiguous strides
broadcast_padded pa pb = do
  out ← out_dims pa pb
  (out_strides, _) ← contiguous out
  (a_strides, _) ← strides pa out
  (b_strides, _) ← strides pb out
  ok (record {
    out_shape = out;
    out_strides = out_strides;
    a_strides = a_strides;
    b_strides = b_strides;
  })

unfoldable pub broadcast : List ℤ → List ℤ → Result Broadcast
unfolding padded broadcast_padded
broadcast a b =
    let rank = max (length a) (length b) in broadcast_padded (padded rank a) (padded rank b)

-- `bc_offset` of host_ops.rs, from the remainder and the offset so far.
unfoldable pub bc_offset_from : List ℕ → List ℕ → ℕ → ℕ → ℕ
bc_offset_from (o ∷ os) (s ∷ ss) rem off =
    bc_offset_from os ss (rem % max o 1) (off + rem / max o 1 * s)
bc_offset_from _ _ rem off = off

unfoldable pub bc_offset : List ℕ → List ℕ → ℕ → ℕ
unfolding bc_offset_from
bc_offset out_strides strides i = bc_offset_from out_strides strides i 0
