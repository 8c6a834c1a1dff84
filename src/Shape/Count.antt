-- ===== src/Shape/Count.antt =====
-- `element_count` of shape.rs.
use onnx_vulkan_rs_edge.Prelude.{ℕ, ◌*◌, ◌<◌, ◌≡◌, ◌↔◌, List, [], ◌∷◌, ℤ, pos, negsuc, arith}
use onnx_vulkan_rs_edge.Error.{ok}
use onnx_vulkan_rs_edge.Shape.{count_from, element_count, usize_limit}

-- The dimensions as numbers, if none is negative.
abbrev pub IsStatic : List ℤ → Type 0
IsStatic [] = Unit {0}
IsStatic (pos n ∷ rest) = IsStatic rest
IsStatic (negsuc n ∷ rest) = ⊥

abbrev pub volume_from : ℕ → List ℤ → ℕ
volume_from count [] = count
volume_from count (pos n ∷ rest) = volume_from (count * n) rest
volume_from count (negsuc n ∷ rest) = 0

-- Each product of the dimensions from the left fits in a usize.
abbrev pub PrefixesFit : ℕ → List ℤ → Type 0
PrefixesFit count [] = Unit {0}
PrefixesFit count (pos n ∷ rest) = (count * n < usize_limit) × PrefixesFit (count * n) rest
PrefixesFit count (negsuc n ∷ rest) = ⊥

count_from_iff :
    (shape : List ℤ) (count n : ℕ)
    → (count_from count shape ≡ ok n) ↔ (PrefixesFit count shape × (volume_from count shape ≡ n))
unfolding count_from
count_from_iff [] count n = ground arith
count_from_iff (pos d ∷ rest) count n = ground (arith, count_from_iff rest (count * d) n)
count_from_iff (negsuc d ∷ rest) count n = ground arith

-- `element_count` succeeds exactly on a shape with no negative dimension, the products of whose
-- dimensions from the left all fit in a usize, and then returns the product of the dimensions.
pub element_count_iff :
    (shape : List ℤ) (n : ℕ)
    → (element_count shape ≡ ok n) ↔ (PrefixesFit 1 shape × (volume_from 1 shape ≡ n))
unfolding element_count
element_count_iff shape n = count_from_iff shape 1 n
