-- ===== src/Shape/Symmetry.antt =====
-- The operands of `broadcast` (shape.rs) exchanged.
use onnx_vulkan_rs_edge.Prelude.{◌≡◌, refl, List, [], ◌∷◌, length, ℤ, arith, max, inl, inr}
use onnx_vulkan_rs_edge.Error.{Error, invalid_shape, Result, Result-cases, ok, err}
use onnx_vulkan_rs_edge.Shape.{
  Broadcast, out_dim, out_dims, strides, contiguous, broadcast_padded, broadcast, padded,
}

-- The same broadcasting with the operands in the other order.
abbrev pub swap : Broadcast → Broadcast
swap bc = record bc { a_strides = bc.b_strides; b_strides = bc.a_strides }

abbrev pub swap_result : Result Broadcast → Result Broadcast
swap_result (ok bc) = ok (swap bc)
swap_result (err e) = err e

out_dim_comm : (a b : ℤ) → out_dim b a ≡ out_dim a b
unfolding out_dim
out_dim_comm a b = ground arith

out_dims_comm : (pa pb : List ℤ) → out_dims pb pa ≡ out_dims pa pb
unfolding out_dims
out_dims_comm [] [] = refl
out_dims_comm [] (b ∷ pb) = refl
out_dims_comm (a ∷ pa) [] = refl
out_dims_comm (a ∷ pa) (b ∷ pb) = rw (out_dim_comm a b, out_dims_comm pa pb)

strides-err : (ds os : List ℤ) {e : Error} → strides ds os ≡ err e → e ≡ invalid_shape
unfolding strides
strides-err [] os h = ground arith
strides-err (d ∷ ds) [] h = ground arith
strides-err (d ∷ ds) (o ∷ os) h = elim (Result-cases (strides ds os)) [
  | inl ((r, a), e) ↦ ground arith
  | inr (x, e) ↦ ground (arith, strides-err ds os e)
]

broadcast_padded_comm :
    (pa pb : List ℤ) → broadcast_padded pb pa ≡ swap_result (broadcast_padded pa pb)
unfolding broadcast_padded
broadcast_padded_comm pa pb = rw (out_dims_comm pa pb) (elim (Result-cases (out_dims pa pb)) [
  | inr (x, e) ↦ ground arith
  | inl (out, e) ↦ elim (Result-cases (contiguous out)) [
    | inr (x, e₁) ↦ ground arith
    | inl ((os, v), e₁) ↦ elim (Result-cases (strides pa out)) [
      | inl ((sa, x), e₂) ↦ elim (Result-cases (strides pb out)) [
        | inl ((sb, y), e₃) ↦ ground arith
        | inr (y, e₃) ↦ ground arith
      ]
      | inr (x, e₂) ↦ elim (Result-cases (strides pb out)) [
        | inl ((sb, y), e₃) ↦ ground arith
        | inr (y, e₃) ↦ ground (arith, strides-err pa out e₂, strides-err pb out e₃)
      ]
    ]
  ]
])

-- `broadcast b a` is `broadcast a b` with the two operands' strides exchanged, and fails exactly
-- where that fails, with the same kind of error.
pub broadcast_comm : (a b : List ℤ) → broadcast b a ≡ swap_result (broadcast a b)
unfolding broadcast
broadcast_comm a b =
    let e : max (length b) (length a) ≡ max (length a) (length b) = omega arith in
    rw e (
      broadcast_padded_comm (padded (max (length a) (length b)) a)
        (padded (max (length a) (length b)) b))
