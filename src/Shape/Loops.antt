-- ===== src/Shape/Loops.antt =====
-- The loops of `broadcast` (shape.rs) read backwards: what a successful run has computed.
use native.Mathlib.Nat.{mul_comm}
use onnx_vulkan_rs_edge.Prelude.{
  ℕ, ◌*◌, ◌≡◌, ◌∙◌, ap, ◌⊎◌, inl, inr, List, [], ◌∷◌, ℤ, pos, negsuc, length, pos_part, is_one, not,
  ◌&&◌, arith, if◌then◌else◌,
}
use onnx_vulkan_rs_edge.Error.{Result-cases, ok}
use onnx_vulkan_rs_edge.Shape.{Broadcast, out_dim, out_dims, strides, contiguous, broadcast_padded}

-- The number of elements, the dimensions being none negative.
abbrev pub volume : List ℤ → ℕ
volume [] = 1
volume (d ∷ ds) = pos_part d * volume ds

-- The operand's dimensions are the output's, or 1.
abbrev pub Fits : List ℤ → List ℤ → Type 0
Fits [] [] = Unit {0}
Fits (pos d ∷ ds) (pos o ∷ os) = ((d ≡ o) ⊎ (d ≡ 1)) × Fits ds os
Fits _ _ = ⊥

-- One round of the loop of `contiguous`, read backwards.
pub contiguous-cons :
    (d : ℤ) (ds : List ℤ) (ss : List ℕ) (acc : ℕ)
    → contiguous (d ∷ ds) ≡ ok (ss, acc)
    → (r : List ℕ) × (a : ℕ) × (contiguous ds ≡ ok (r, a)) × (ss ≡ a ∷ r) × (acc ≡ a * pos_part d)
unfolding contiguous
contiguous-cons d ds ss acc h = elim (Result-cases (contiguous ds)) [
  | inl ((r, a), e) ↦ (r, a, e, ground arith, ground arith)
  | inr (x, e) ↦ absurd (ground arith)
]

pub strides-cons :
    (d o : ℤ) (ds os : List ℤ) (ss : List ℕ) (acc : ℕ)
    → strides (d ∷ ds) (o ∷ os) ≡ ok (ss, acc)
    → (r : List ℕ) × (a : ℕ) × (strides ds os ≡ ok (r, a))
      × (ss ≡ (if is_one d && not (is_one o) then 0 else a) ∷ r)
      × (acc ≡ a * pos_part d)
unfolding strides
strides-cons d o ds os ss acc h = elim (Result-cases (strides ds os)) [
  | inl ((r, a), e) ↦ (r, a, e, ground arith, ground arith)
  | inr (x, e) ↦ absurd (ground arith)
]

pub contiguous-volume :
    (ds : List ℤ) (ss : List ℕ) (acc : ℕ) → contiguous ds ≡ ok (ss, acc) → acc ≡ volume ds
unfolding contiguous
contiguous-volume [] ss acc h = ground arith
contiguous-volume (d ∷ ds) ss acc h =
    let (r, a, e, p, q) = contiguous-cons d ds ss acc h in
    q ∙ ap (λ x. x * pos_part d) (contiguous-volume ds r a e) ∙ mul_comm (volume ds) (pos_part d)

pub strides-volume :
    (ds os : List ℤ) (ss : List ℕ) (acc : ℕ)
    → Fits ds os
    → strides ds os ≡ ok (ss, acc)
    → acc ≡ volume ds
unfolding strides
strides-volume [] [] ss acc f h = ground arith
strides-volume [] (o ∷ os) ss acc f h = absurd f
strides-volume (pos d ∷ ds) [] ss acc f h = absurd f
strides-volume (negsuc d ∷ ds) os ss acc f h = absurd f
strides-volume (pos d ∷ ds) (negsuc o ∷ os) ss acc f h = absurd f
strides-volume (pos d ∷ ds) (pos o ∷ os) ss acc f h =
    let (r, a, e, p, q) = strides-cons (pos d) (pos o) ds os ss acc h in
    q ∙ ap (λ x. x * d) (strides-volume ds os r a f.1 e) ∙ mul_comm (volume ds) d

out_dim-Fits : (a b d : ℤ) → out_dim a b ≡ ok d → Fits (a ∷ []) (d ∷ []) × Fits (b ∷ []) (d ∷ [])
unfolding out_dim
out_dim-Fits (pos x) (pos y) (pos z) h = ground arith
out_dim-Fits (pos x) (pos y) (negsuc z) h = absurd (ground arith)
out_dim-Fits (pos x) (negsuc y) d h = absurd (ground arith)
out_dim-Fits (negsuc x) b d h = absurd (ground arith)

Fits-cons :
    (a d : ℤ) (rest ds : List ℤ) → Fits (a ∷ []) (d ∷ []) → Fits rest ds → Fits (a ∷ rest) (d ∷ ds)
Fits-cons (pos x) (pos y) rest ds h t = (h.0, t)
Fits-cons (pos x) (negsuc y) rest ds h t = absurd h
Fits-cons (negsuc x) d rest ds h t = absurd h

-- Along a dimension of the output the operands have the output's size, or 1.
pub out_dims-Fits :
    (pa pb out : List ℤ)
    → length pa ≡ length pb
    → out_dims pa pb ≡ ok out
    → Fits pa out × Fits pb out
unfolding out_dims
out_dims-Fits [] [] out n h = ground arith
out_dims-Fits [] (b ∷ pb) out n h = absurd (omega arith)
out_dims-Fits (a ∷ pa) [] out n h = absurd (omega arith)
out_dims-Fits (a ∷ pa) (b ∷ pb) out n h = elim (Result-cases (out_dim a b)) [
  | inr (x, e) ↦ absurd (ground arith)
  | inl (d, e) ↦ elim (Result-cases (out_dims pa pb)) [
    | inr (x, e') ↦ absurd (ground arith)
    | inl (ds, e') ↦
        let (fa, fb) = out_dim-Fits a b d e in
        let (ta, tb) = out_dims-Fits pa pb ds (omega arith) e' in
        let shape : d ∷ ds ≡ out = ground arith in
        rw (← shape) (Fits-cons a d pa ds fa ta, Fits-cons b d pb ds fb tb)
  ]
]

-- What a successful `broadcast_padded` has computed.
pub broadcast_padded-inv :
    (pa pb : List ℤ) (bc : Broadcast)
    → broadcast_padded pa pb ≡ ok bc
    → (v x y : ℕ) × (out_dims pa pb ≡ ok bc.out_shape)
      × (contiguous bc.out_shape ≡ ok (bc.out_strides, v))
      × (strides pa bc.out_shape ≡ ok (bc.a_strides, x))
      × (strides pb bc.out_shape ≡ ok (bc.b_strides, y))
unfolding broadcast_padded
broadcast_padded-inv pa pb bc h = elim (Result-cases (out_dims pa pb)) [
  | inr (x, e) ↦ absurd (ground arith)
  | inl (out, e) ↦ elim (Result-cases (contiguous out)) [
    | inr (x, e₁) ↦ absurd (ground arith)
    | inl ((os, v), e₁) ↦ elim (Result-cases (strides pa out)) [
      | inr (x, e₂) ↦ absurd (ground arith)
      | inl ((sa, x), e₂) ↦ elim (Result-cases (strides pb out)) [
        | inr (y, e₃) ↦ absurd (ground arith)
        | inl ((sb, y), e₃) ↦ (v, x, y, ground arith, ground arith, ground arith, ground arith)
      ]
    ]
  ]
]
