-- ===== src/Fusion/Start.antt =====
-- The clusters of `convex_groups` (fusion.rs) before the first pass satisfy the invariant.
use native.Mathlib.Decide.{dec_lt}
use onnx_vulkan_rs_edge.Prelude.{
  ℕ, zero, suc, ◌+◌, ◌*◌, ◌/◌, ◌≤◌, ◌<◌, ◌≡◌, refl, subst, sym, ◌∙◌, ap, Bool, true, false, ◌&&◌,
  List, [], ◌∷◌, length, replicate, length-replicate, get_or-replicate, get_or-beyond, ◌==◌, ==_iff,
  if◌then◌else◌, Bool-cases, inl, inr, arith,
}
use onnx_vulkan_rs_edge.Fusion.Bits.{
  Bits, bit, words, zero_bits, set_bit, bit-set_bit, length-set_bit,
}
use onnx_vulkan_rs_edge.Fusion.UnionFind.Link.{new-IsForest}
use onnx_vulkan_rs_edge.Fusion.Links.{is_supported}
use onnx_vulkan_rs_edge.Fusion.Merge.{row}
use onnx_vulkan_rs_edge.Fusion.Merge.Invariant.{Inv, IsTable, moved}
use onnx_vulkan_rs_edge.Fusion.{members_from, initial}

bit-zero_bits : (n i : ℕ) → bit (zero_bits n) i ≡ false
unfolding zero_bits
bit-zero_bits n i = elim (dec_lt i (64 * words n)) [
  | yes lt ↦ get_or-replicate (64 * words n) i false false lt
  | no ge ↦
      get_or-beyond (replicate (64 * words n) false) i false
        (omega (arith, length-replicate (64 * words n) false))
]

length-zero_bits : (n : ℕ) → n ≤ length (zero_bits n)
unfolding zero_bits words
length-zero_bits n = omega (arith, length-replicate (64 * ((n + 63) / 64)) false)

moved-id : (n : ℕ) → moved (λ x. x) n ≡ 0
moved-id zero = refl
moved-id (suc n) = ground (arith, moved-id n)

length-members_from :
    (i : ℕ) (sup : List Bool) (b : Bits) → length (members_from i sup b) ≡ length sup
unfolding members_from
length-members_from i [] b = refl
length-members_from i (true ∷ sup) b = ap suc (length-members_from (suc i) sup b)
length-members_from i (false ∷ sup) b = ap suc (length-members_from (suc i) sup b)

row-members_from :
    (i r : ℕ) (sup : List Bool) (b : Bits)
    → r < length sup
    → row (members_from i sup b) r ≡ (if is_supported sup r then set_bit b (i + r) else b)
unfolding members_from
row-members_from i r [] b lt = absurd (omega arith)
row-members_from i zero (true ∷ sup) b lt = let e : i + 0 ≡ i = omega arith in rw e
row-members_from i zero (false ∷ sup) b lt = refl
row-members_from i (suc r) (true ∷ sup) b lt =
    let e : i + suc r ≡ suc i + r = omega arith in
    rw e (row-members_from (suc i) r sup b (omega arith))
row-members_from i (suc r) (false ∷ sup) b lt =
    let e : i + suc r ≡ suc i + r = omega arith in
    rw e (row-members_from (suc i) r sup b (omega arith))

module _ (n : ℕ) (supported : List Bool) (size : length supported ≡ n) where
  member_row :
      (r : ℕ)
      → r < n
      → row (members_from 0 supported (zero_bits n)) r
        ≡ (if is_supported supported r then set_bit (zero_bits n) r else zero_bits n)
  member_row r lt =
      let e : 0 + r ≡ r = omega arith in
      rw e at (row-members_from 0 r supported (zero_bits n) (omega arith))

  members_width :
      (r : ℕ)
      → r < n
      → length (row (members_from 0 supported (zero_bits n)) r) ≡ length (zero_bits n)
  members_width r lt = elim (Bool-cases (is_supported supported r)) [
    | inl on ↦ rw (member_row r lt, on) (length-set_bit (zero_bits n) r)
    | inr off ↦ rw (member_row r lt, off)
  ]

  members_bit :
      (r x : ℕ)
      → r < n
      → bit (row (members_from 0 supported (zero_bits n)) r) x
        ≡ (x == r && is_supported supported x)
  members_bit r x lt = elim (Bool-cases (is_supported supported r)) [
    | inl on ↦
        ap (λ (b : Bits). bit b x) (member_row r lt)
        ∙ rw on (
            bit-set_bit (zero_bits n) r x (omega (arith, length-zero_bits n))
            ∙ elim (Bool-cases (x == r)) [
              | inl same ↦ ground (arith, ap (is_supported supported) ((==_iff x r).0 same))
              | inr other ↦ ground (arith, bit-zero_bits n x)
            ])
    | inr off ↦
        ap (λ (b : Bits). bit b x) (member_row r lt)
        ∙ rw off (
            bit-zero_bits n x ∙ elim (Bool-cases (x == r)) [
              | inl same ↦ ground (arith, ap (is_supported supported) ((==_iff x r).0 same))
              | inr other ↦ ground arith
            ])
  ]

  -- If the tables hold what is before and behind each node, and no two nodes are each before the
  -- other, the initial clusters satisfy the invariant.
  pub initial-Inv :
      (Before : ℕ → ℕ → Type 0) (anc desc : List Bits)
      → IsTable n (length (zero_bits n)) anc
      → IsTable n (length (zero_bits n)) desc
      → ((x y : ℕ) → Before x y → bit (row anc y) x ≡ true)
      → ((x y : ℕ) → Before x y → bit (row desc x) y ≡ true)
      → ((x y : ℕ) → Before x y → Before y x → ⊥)
      → Inv n
          (length (zero_bits n))
          (is_supported supported)
          Before
          (λ x. x)
          (initial n supported anc desc)
  unfolding initial
  initial-Inv Before anc desc ta td up down acyclic = record {
    forest = rw (moved-id n) (new-IsForest n);
    s_table = record {
      size = length-members_from 0 supported (zero_bits n) ∙ size;
      width = members_width;
    };
    canc_table = ta;
    cdesc_table = td;
    members = λ r x lt e. members_bit r x lt;
    up = up;
    down = down;
    alone = λ x y h e. e;
    untangled = λ x y x' y' xy yx' ex ey.
        absurd (
          acyclic x y xy
            (subst (λ a. Before a x) (sym ey) (subst (λ b. Before y' b) (sym ex) yx')));
  }
