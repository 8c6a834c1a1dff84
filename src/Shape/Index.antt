-- ===== src/Shape/Index.antt =====
-- What the broadcast strides address: `bc_offset` of host_ops.rs over the strides of `broadcast`.
use native.Mathlib.Nat.{zero-add, mul-zero, mod-lt, div-lt_iff_lt-mul}
use onnx_vulkan_rs_edge.Prelude.{
  ℕ, zero, suc, ◌+◌, ◌*◌, ◌/◌, ◌%◌, ◌≤◌, ◌<◌, max, ◌≡◌, ◌∙◌, ◌⊎◌, refl, List, [], ◌∷◌, ℤ, pos,
  negsuc, length, replicate, length-append, length-replicate, ◌++◌, ◌-◌, sym, pos_part, not, ◌&&◌,
  arith, ◌==◌, if◌then◌else◌,
}
use onnx_vulkan_rs_edge.Error.{ok}
use onnx_vulkan_rs_edge.Shape.{
  Broadcast, strides, contiguous, broadcast_padded, broadcast, padded, bc_offset_from, bc_offset,
}
use onnx_vulkan_rs_edge.Shape.Loops.{
  volume, Fits, contiguous-cons, strides-cons, contiguous-volume, strides-volume, out_dims-Fits,
  broadcast_padded-inv,
}

-- The coordinates of the element at a row-major index.
abbrev pub unravel : List ℤ → ℕ → List ℕ
unravel [] i = []
unravel (d ∷ ds) i = (i / max (volume ds) 1) ∷ unravel ds (i % max (volume ds) 1)

-- The row-major index of the element at some coordinates.
abbrev pub ravel : List ℤ → List ℕ → ℕ
ravel (d ∷ ds) (c ∷ cs) = c * volume ds + ravel ds cs
ravel _ _ = 0

-- The coordinates in an operand of the element that is read for some coordinates of the output: 0
-- along each dimension in which the operand has one element.
abbrev pub clip : List ℤ → List ℕ → List ℕ
clip (d ∷ ds) (c ∷ cs) = (if pos_part d == 1 then 0 else c) ∷ clip ds cs
clip _ _ = []

-- The inner product is positive where an index is below the outer one.
max-inner : (o v rem : ℕ) → rem < o * v → max v 1 ≡ v
max-inner o zero rem h = absurd (omega (arith, mul-zero o))
max-inner o (suc v) rem h = omega arith

rest_in_range : (o v rem : ℕ) → rem < o * v → rem % max v 1 < v
rest_in_range o v rem h = rw (max-inner o v rem h) (mod-lt rem (inner_pos o v rem h))
  where
    inner_pos : (o v rem : ℕ) → rem < o * v → 0 < v
    inner_pos o v rem h = omega (arith, max-inner o v rem h)

coordinate_in_range : (o v rem : ℕ) → rem < o * v → rem / max v 1 < o
coordinate_in_range o v rem h =
    rw (max-inner o v rem h) ((div-lt_iff_lt-mul (inner_pos o v rem h)).1 h)
  where
    inner_pos : (o v rem : ℕ) → rem < o * v → 0 < v
    inner_pos o v rem h = omega (arith, max-inner o v rem h)

-- The step of the loop of `bc_offset` at one dimension.
step_coordinate :
    (d o a c : ℕ)
    → (d ≡ o) ⊎ (d ≡ 1)
    → c < o
    → c * (if d == 1 && not (o == 1) then 0 else a) ≡ (if d == 1 then 0 else c) * a
step_coordinate d o a c f h = ground arith

-- The coordinate read in the operand is in range.
clip_in_range : (d o c : ℕ) → (d ≡ o) ⊎ (d ≡ 1) → c < o → (if d == 1 then 0 else c) < d
clip_in_range d o c f h = ground arith

-- From any remainder in range, the loop adds the row-major index of the clipped coordinates.
bc_offset_from-lem :
    (ds os : List ℤ) (ss outs : List ℕ) (a v rem off : ℕ)
    → Fits ds os
    → contiguous os ≡ ok (outs, v)
    → strides ds os ≡ ok (ss, a)
    → rem < volume os
    → bc_offset_from outs ss rem off ≡ off + ravel ds (clip ds (unravel os rem))
unfolding bc_offset_from strides contiguous
bc_offset_from-lem [] [] ss outs a v rem off f hc hs h = ground arith
bc_offset_from-lem [] (o ∷ os) ss outs a v rem off f hc hs h = absurd f
bc_offset_from-lem (pos d ∷ ds) [] ss outs a v rem off f hc hs h = absurd f
bc_offset_from-lem (negsuc d ∷ ds) os ss outs a v rem off f hc hs h = absurd f
bc_offset_from-lem (pos d ∷ ds) (negsuc o ∷ os) ss outs a v rem off f hc hs h = absurd f
bc_offset_from-lem (pos d ∷ ds) (pos o ∷ os) ss outs a v rem off f hc hs h =
    let (rc, vc, ec, pc, qc) = contiguous-cons (pos o) os outs v hc in
    let (rs, av, es, ps, qs) = strides-cons (pos d) (pos o) ds os ss a hs in
    let c = rem / max (volume os) 1 in
    let ev = contiguous-volume os rc vc ec in
    let ea = strides-volume ds os rs av f.1 es in
    let ih =
      bc_offset_from-lem ds os rs rc av vc (rem % max (volume os) 1)
        (off + c * (if d == 1 && not (o == 1) then 0 else volume ds)) f.1 ec es
        (rest_in_range o (volume os) rem h) in
    let here = step_coordinate d o (volume ds) c f.0 (coordinate_in_range o (volume os) rem h) in
    rw (pc, ps, ev, ea) (ih ∙ omega (arith, here))

ravel-clip-lt :
    (ds os : List ℤ) (i : ℕ)
    → Fits ds os
    → i < volume os
    → ravel ds (clip ds (unravel os i)) < volume ds
ravel-clip-lt [] [] i f h = omega arith
ravel-clip-lt [] (o ∷ os) i f h = absurd f
ravel-clip-lt (pos d ∷ ds) [] i f h = absurd f
ravel-clip-lt (negsuc d ∷ ds) os i f h = absurd f
ravel-clip-lt (pos d ∷ ds) (negsuc o ∷ os) i f h = absurd f
ravel-clip-lt (pos d ∷ ds) (pos o ∷ os) i f h =
    let c = i / max (volume os) 1 in
    let tail = ravel-clip-lt ds os (i % max (volume os) 1) f.1 (rest_in_range o (volume os) i h) in
    let head = clip_in_range d o c f.0 (coordinate_in_range o (volume os) i h) in grind arith

module _ (pa pb : List ℤ) {bc : Broadcast} (n : length pa ≡ length pb) (i : ℕ) where
  padded_index :
      broadcast_padded pa pb ≡ ok bc
      → i < volume bc.out_shape
      → (bc_offset bc.out_strides bc.a_strides i ≡ ravel pa (clip pa (unravel bc.out_shape i)))
        × (bc_offset bc.out_strides bc.b_strides i ≡ ravel pb (clip pb (unravel bc.out_shape i)))
        × (ravel pa (clip pa (unravel bc.out_shape i)) < volume pa)
        × (ravel pb (clip pb (unravel bc.out_shape i)) < volume pb)
  unfolding bc_offset
  padded_index h lt =
      let (v, x, y, eo, ec, ea, eb) = broadcast_padded-inv pa pb bc h in
      let (fa, fb) = out_dims-Fits pa pb bc.out_shape n eo in
      (
        bc_offset_from-lem pa bc.out_shape bc.a_strides bc.out_strides x v i 0 fa ec ea lt
            ∙ zero-add _,
        bc_offset_from-lem pb bc.out_shape bc.b_strides bc.out_strides y v i 0 fb ec eb lt
            ∙ zero-add _,
        ravel-clip-lt pa bc.out_shape i fa lt,
        ravel-clip-lt pb bc.out_shape i fb lt,
      )

volume-ones : (k : ℕ) (s : List ℤ) → volume (replicate k (pos 1) ++ s) ≡ volume s
volume-ones zero s = refl
volume-ones (suc k) s = omega (arith, volume-ones k s)

pub volume-padded : (rank : ℕ) (s : List ℤ) → volume (padded rank s) ≡ volume s
unfolding padded
volume-padded rank s = volume-ones (rank - length s) s

pub length-padded : (rank : ℕ) (s : List ℤ) → length s ≤ rank → length (padded rank s) ≡ rank
unfolding padded
length-padded rank s h = omega (
  arith,
  length-append (replicate (rank - length s) (pos 1)) s,
  length-replicate (rank - length s) (pos 1),
)

-- The place that ONNX broadcasting reads in an operand for the output's element `i`: the row-major
-- index of the output's coordinates, with 0 along each dimension in which the operand has size 1.
abbrev pub source : List ℤ → List ℤ → ℕ → ℕ
source operand out i = ravel operand (clip operand (unravel out i))

-- If `broadcast` succeeds, then for each element of the output `bc_offset` gives, with the strides
-- of either operand, the place that ONNX broadcasting reads, and this lies inside the operand.
pub broadcast_index :
    (a b : List ℤ) (bc : Broadcast) (i : ℕ)
    → broadcast a b ≡ ok bc
    → i < volume bc.out_shape
    → (bc_offset bc.out_strides bc.a_strides i
        ≡ source (padded (max (length a) (length b)) a) bc.out_shape i)
      × (bc_offset bc.out_strides bc.b_strides i
          ≡ source (padded (max (length a) (length b)) b) bc.out_shape i)
      × (bc_offset bc.out_strides bc.a_strides i < volume a)
      × (bc_offset bc.out_strides bc.b_strides i < volume b)
unfolding broadcast
broadcast_index a b bc i h lt =
    let rank = max (length a) (length b) in
    let la = length-padded rank a (omega arith) in
    let lb = length-padded rank b (omega arith) in
    let (ea, eb, ia, ib) =
      padded_index (padded rank a) (padded rank b) {bc = bc} (la ∙ sym lb) i h lt in
    (
      ea,
      eb,
      omega (arith, ea, ia, volume-padded rank a),
      omega (arith, eb, ib, volume-padded rank b),
    )
