-- ===== src/Fusion/Sweep/Tables.antt =====
-- The sweeps of `convex_groups` (fusion.rs) keep one bitset of one width for each node.
use native.Mathlib.Decide.{dec_lt}
use onnx_vulkan_rs_edge.Prelude.{
  ℕ, zero, suc, ◌<◌, ◌≡◌, refl, ◌∙◌, ap, List, [], ◌∷◌, length, set, length-replicate, get_or,
  get_or-replicate, ◌==◌, Bool-cases, Option-cases, inl, inr, arith, some,
}
use onnx_vulkan_rs_edge.Fusion.Bits.{
  Bits, zero_bits, set_bit, or_into, length-set_bit, length-or_into,
}
use onnx_vulkan_rs_edge.Fusion.Merge.{row}
use onnx_vulkan_rs_edge.Fusion.Merge.Invariant.{IsTable}
use onnx_vulkan_rs_edge.Fusion.Merge.Invariant.Merged.{set-IsTable}
use onnx_vulkan_rs_edge.Fusion.Sweep.{absorb, absorb_all, sweep, blank_rows}

set-beyond : (rows : List Bits) (i : ℕ) (b : Bits) → length rows < suc i → set rows i b ≡ rows
set-beyond [] i b h = refl
set-beyond (x ∷ rows) zero b h = absurd (omega arith)
set-beyond (x ∷ rows) (suc i) b h = ap (λ t. x ∷ t) (set-beyond rows i b (omega arith))

pub absorb-IsTable :
    {n w : ℕ} (rows : List Bits) (v u : ℕ) {rows' : List Bits}
    → IsTable n w rows
    → absorb rows v u ≡ some rows'
    → IsTable n w rows'
unfolding absorb
absorb-IsTable {n = n} {w = w} rows v u {rows' = rows'} t e = elim (Bool-cases (v == u)) [
  | inl same ↦ absurd (ground arith)
  | inr other ↦
      let b = set_bit (or_into (row rows v) (row rows u)) u in
      let result : set rows v b ≡ rows' = ground arith in
      rw (← result) (elim (dec_lt v n) [
        | yes lt ↦
            set-IsTable v b lt
              (length-set_bit (or_into (row rows v) (row rows u)) u
                ∙ length-or_into (row rows v) (row rows u)
                ∙ t.width v lt)
              t
        | no ge ↦ rw (set-beyond rows v b (omega (arith, t.size))) t
      ])
]

pub absorb_all-IsTable :
    {n w : ℕ} (us : List ℕ) (rows : List Bits) (v : ℕ) {rows' : List Bits}
    → IsTable n w rows
    → absorb_all rows v us ≡ some rows'
    → IsTable n w rows'
unfolding absorb_all
absorb_all-IsTable [] rows v {rows' = rows'} t e =
    let same : rows ≡ rows' = ground arith in rw (← same) t
absorb_all-IsTable (u ∷ us) rows v t e = elim (Option-cases (absorb rows v u)) [
  | inl stop ↦ absurd (ground arith)
  | inr (mid, go) ↦
      absorb_all-IsTable us mid v (absorb-IsTable rows v u t go) (rw (go, absorb_all) at e)
]

pub sweep-IsTable :
    {n w : ℕ} (links : List (List ℕ)) (order : List ℕ) (rows : List Bits) {rows' : List Bits}
    → IsTable n w rows
    → sweep links order rows ≡ some rows'
    → IsTable n w rows'
unfolding sweep
sweep-IsTable links [] rows {rows' = rows'} t e =
    let same : rows ≡ rows' = ground arith in rw (← same) t
sweep-IsTable links (v ∷ order) rows t e =
    elim (Option-cases (absorb_all rows v (get_or links v []))) [
      | inl stop ↦ absurd (ground arith)
      | inr (mid, go) ↦
          sweep-IsTable links order mid (absorb_all-IsTable (get_or links v []) rows v t go)
            (rw (go, sweep) at e)
    ]

pub blank_rows-IsTable : (n : ℕ) → IsTable n (length (zero_bits n)) (blank_rows n)
blank_rows-IsTable n = record {
  size = length-replicate n (zero_bits n);
  width = λ i lt. ap length (get_or-replicate n i (zero_bits n) [] lt);
}
