-- ===== src/Fusion/Merge/Invariant/Blocked.antt =====
-- The test by which fusion.rs rejects a merge.
use onnx_vulkan_rs_edge.Prelude.{
  ℕ, ◌<◌, ◌≡◌, ◌≢◌, ◌⊎◌, inl, inr, sym, ◌∙◌, Bool, true, false, ◌||◌, List, length, arith, map, ap,
}
use onnx_vulkan_rs_edge.Fusion.Bits.{
  Bits, bit, contains, or_into, set_bits_outside, bit-or_into, length-or_into,
  contains-set_bits_outside,
}
use onnx_vulkan_rs_edge.Fusion.Merge.{Clusters, row}
use onnx_vulkan_rs_edge.Fusion.Merge.Finds.{hits, contains-map, hits-contains}
use onnx_vulkan_rs_edge.Fusion.Merge.Invariant.{Inv, IsTable}

pub bit-union :
    {n w : ℕ} {rows : List Bits} (t : IsTable n w rows) (ra rb i : ℕ)
    → ra < n
    → rb < n
    → bit (or_into (row rows ra) (row rows rb)) i ≡ (bit (row rows ra) i || bit (row rows rb) i)
bit-union {rows = rows} t ra rb i la lb =
    bit-or_into (row rows ra) (row rows rb) i (t.width ra la ∙ sym (t.width rb lb))

pub length-union :
    {n w : ℕ} {rows : List Bits} (t : IsTable n w rows) (ra rb : ℕ)
    → ra < n
    → length (or_into (row rows ra) (row rows rb)) ≡ w
length-union {rows = rows} t ra rb la = length-or_into (row rows ra) (row rows rb) ∙ t.width ra la

-- The members, the ancestors and the descendants of the merged set.
abbrev pub merged : List Bits → ℕ → ℕ → Bits
merged rows ra rb = or_into (row rows ra) (row rows rb)

-- Whether a cluster outside the merged set lies both behind and before it.
abbrev pub blocked : (ℕ → ℕ) → Clusters → ℕ → ℕ → Bool
blocked rep c ra rb =
    hits rep (map rep (set_bits_outside (merged c.cdesc ra rb) (merged c.s ra rb)))
      (set_bits_outside (merged c.canc ra rb) (merged c.s ra rb))

module _ {n w : ℕ} {sup : ℕ → Bool} {Before : ℕ → ℕ → Type 0} {rep : ℕ → ℕ} {c : Clusters}
    (inv : Inv n w sup Before rep c) (ra rb : ℕ) (la : ra < n) (lb : rb < n) (ea : rep ra ≡ ra)
    (eb : rep rb ≡ rb) where
  -- A node of neither set is not in the merged set.
  not_member : (y : ℕ) → rep y ≢ ra → rep y ≢ rb → bit (merged c.s ra rb) y ≡ false
  not_member y na nb =
      bit-union inv.s_table ra rb y la lb
      ∙ ground (arith, inv.members ra y la ea, inv.members rb y lb eb)

  pub union_left :
      (rows : List Bits)
      → IsTable n w rows
      → (r y : ℕ) → (r ≡ ra) ⊎ (r ≡ rb)
      → bit (row rows r) y ≡ true
      → bit (merged rows ra rb) y ≡ true
  union_left rows t r y (inl e) h =
      bit-union t ra rb y la lb ∙ ground (arith, ap (λ (k : ℕ). bit (row rows k) y) e)
  union_left rows t r y (inr e) h =
      bit-union t ra rb y la lb ∙ ground (arith, ap (λ (k : ℕ). bit (row rows k) y) e)

  -- If the test passes, no other cluster has a node behind and a node before the merged set.
  pub no_crossing :
      blocked rep c ra rb ≡ false
      → (x y x' y' : ℕ) → Before x y
      → Before y' x'
      → (rep x ≡ ra) ⊎ (rep x ≡ rb)
      → (rep x' ≡ ra) ⊎ (rep x' ≡ rb)
      → rep y ≡ rep y'
      → rep y ≢ ra
      → rep y ≢ rb
      → ⊥
  no_crossing ok x y x' y' xy yx' mx mx' e na nb =
      let behind = union_left c.cdesc inv.cdesc_table (rep x) y mx (inv.down x y xy) in
      let before = union_left c.canc inv.canc_table (rep x') y' mx' (inv.up y' x' yx') in
      let out = not_member y na nb in
      let out' = not_member y' (λ h. na (e ∙ h)) (λ h. nb (e ∙ h)) in
      let ls = length-union inv.s_table ra rb la in
      let sd =
        contains-set_bits_outside (merged c.cdesc ra rb) (merged c.s ra rb) y
          (length-union inv.cdesc_table ra rb la ∙ sym ls) in
      let su =
        contains-set_bits_outside (merged c.canc ra rb) (merged c.s ra rb) y'
          (length-union inv.canc_table ra rb la ∙ sym ls) in
      let found : contains (set_bits_outside (merged c.cdesc ra rb) (merged c.s ra rb)) y ≡ true =
        ground arith in
      let found' : contains (set_bits_outside (merged c.canc ra rb) (merged c.s ra rb)) y' ≡ true =
        ground arith in
      let hit =
        contains-map rep (set_bits_outside (merged c.cdesc ra rb) (merged c.s ra rb)) y found in
      let miss =
        hits-contains rep (map rep (set_bits_outside (merged c.cdesc ra rb) (merged c.s ra rb)))
          (set_bits_outside (merged c.canc ra rb) (merged c.s ra rb)) y' ok found' in
      ground (
        arith,
        ap (contains (map rep (set_bits_outside (merged c.cdesc ra rb) (merged c.s ra rb)))) e,
      )
