-- ===== src/Fusion/Merge/Invariant/Merged.antt =====
-- The commit of a merge in fusion.rs keeps the invariant of the clusters.
use onnx_vulkan_rs_edge.Prelude.{
  ℕ, zero, suc, ◌+◌, ◌<◌, ◌≡◌, ◌≢◌, ◌⊎◌, inl, inr, sym, ◌∙◌, Bool, true, false, not, ◌&&◌, List, [],
  length, length-set, set, get_or-set, ◌==◌, ==_iff, if◌then◌else◌, arith, ap, Bool-cases, ltb,
}
use onnx_vulkan_rs_edge.Fusion.Bits.{Bits, bit}
use onnx_vulkan_rs_edge.Fusion.UnionFind.{Parents}
use onnx_vulkan_rs_edge.Fusion.UnionFind.Forest.{IsForest}
use onnx_vulkan_rs_edge.Fusion.UnionFind.Link.{link, link-IsForest}
use onnx_vulkan_rs_edge.Fusion.Merge.{Clusters, row, commit}
use onnx_vulkan_rs_edge.Fusion.Merge.Invariant.{Inv, IsTable, moved}
use onnx_vulkan_rs_edge.Fusion.Merge.Invariant.Blocked.{
  merged, blocked, bit-union, length-union, union_left, no_crossing,
}

module _ (rep : ℕ → ℕ) (ra rb : ℕ) (ea : rep ra ≡ ra) (eb : rep rb ≡ rb) (ne : ra ≢ rb) where
  link-fixed : (x : ℕ) → (link rep ra rb x == x) ≡ (rep x == x && not (x == rb))
  link-fixed x = elim (Bool-cases (x == rb)) [
    | inl same ↦ ground (arith, ap rep ((==_iff x rb).0 same))
    | inr other ↦ elim (Bool-cases (x == ra)) [
      | inl same ↦ ground (arith, ap rep ((==_iff x ra).0 same))
      | inr other' ↦ ground arith
    ]
  ]

  moved-link-from : (m : ℕ) → moved (link rep ra rb) m ≡ (if ltb rb m then 1 else 0) + moved rep m
  moved-link-from zero = ground arith
  moved-link-from (suc m) = elim (Bool-cases (m == rb)) [
    | inl same ↦ ground (arith, moved-link-from m, link-fixed m, ap rep ((==_iff m rb).0 same))
    | inr other ↦ ground (arith, moved-link-from m, link-fixed m)
  ]

pub moved-link :
    (n : ℕ) (rep : ℕ → ℕ) (ra rb : ℕ)
    → rep ra ≡ ra
    → rep rb ≡ rb
    → ra ≢ rb
    → rb < n
    → moved (link rep ra rb) n ≡ suc (moved rep n)
moved-link n rep ra rb ea eb ne lb = ground (arith, moved-link-from rep ra rb ea eb ne n)

pub row-set :
    (rows : List Bits) (i j : ℕ) (b : Bits)
    → i < length rows
    → row (set rows i b) j ≡ (if i == j then b else row rows j)
row-set rows i j b h = get_or-set rows i j b [] h

pub set-IsTable :
    {n w : ℕ} {rows : List Bits} (i : ℕ) (b : Bits)
    → i < n
    → length b ≡ w
    → IsTable n w rows
    → IsTable n w (set rows i b)
set-IsTable {rows = rows} i b h e t = record {
  size = length-set rows i b ∙ t.size;
  width = λ j lt. elim (Bool-cases (i == j)) [
    | inl same ↦ rw (row-set rows i j b (omega (arith, t.size)), same) e
    | inr other ↦ rw (row-set rows i j b (omega (arith, t.size)), other) (t.width j lt)
  ];
}

module _ {n w : ℕ} {sup : ℕ → Bool} {Before : ℕ → ℕ → Type 0} {rep : ℕ → ℕ} {c : Clusters}
    (inv : Inv n w sup Before rep c) (p : Parents) (fp : IsForest n rep (moved rep n) p) (ra rb : ℕ)
    (la : ra < n) (lb : rb < n) (ea : rep ra ≡ ra) (eb : rep rb ≡ rb) (ne : ra ≢ rb)
    (sa : sup ra ≡ true) (sb : sup rb ≡ true) (free : blocked rep c ra rb ≡ false) where
  merged-row :
      (rows : List Bits)
      → IsTable n w rows
      → (r : ℕ)
      → row (set rows ra (merged rows ra rb)) r
        ≡ (if ra == r then merged rows ra rb else row rows r)
  merged-row rows t r = row-set rows ra r (merged rows ra rb) (omega (arith, t.size))

  merged-IsTable :
      (rows : List Bits) → IsTable n w rows → IsTable n w (set rows ra (merged rows ra rb))
  merged-IsTable rows t = set-IsTable ra (merged rows ra rb) la (length-union t ra rb la) t

  -- The bits of a cluster's table, at the representative after the merge.
  linked-bit :
      (rows : List Bits)
      → IsTable n w rows
      → (x y : ℕ) → bit (row rows (rep y)) x ≡ true
      → bit (row (set rows ra (merged rows ra rb)) (link rep ra rb y)) x ≡ true
  linked-bit rows t x y h = elim (Bool-cases (rep y == rb)) [
    | inl same ↦
        let big =
          union_left inv ra rb la lb ea eb rows t (rep y) x (inr ((==_iff (rep y) rb).0 same)) h in
        rw same (ground (arith, ap (λ (b : Bits). bit b x) (merged-row rows t ra)))
    | inr other ↦ elim (Bool-cases (rep y == ra)) [
      | inl same ↦
          let big =
            union_left inv ra rb la lb ea eb rows t (rep y) x (inl ((==_iff (rep y) ra).0 same))
              h in
          rw other (ground (arith, ap (λ (b : Bits). bit b x) (merged-row rows t (rep y))))
      | inr other' ↦
          rw other (ground (arith, ap (λ (b : Bits). bit b x) (merged-row rows t (rep y))))
    ]
  ]

  -- A representative after the merge was one before it.
  fixed_before : (r : ℕ) → link rep ra rb r ≡ r → rep r ≡ r
  fixed_before r e = elim (Bool-cases (rep r == rb)) [
    | inl same ↦ let to_ra : ra ≡ r = rw same at e in absurd (ground (arith, ap rep to_ra))
    | inr other ↦ rw other at e
  ]

  merged-members :
      (r x : ℕ)
      → r < n
      → link rep ra rb r ≡ r
      → bit (row (set c.s ra (merged c.s ra rb)) r) x ≡ (link rep ra rb x == r && sup x)
  merged-members r x lt e = elim (Bool-cases (ra == r)) [
    | inl same ↦
        let to_ra = (==_iff ra r).0 same in
        ap (λ (b : Bits). bit b x) (merged-row c.s inv.s_table r)
        ∙ rw same (
            bit-union inv.s_table ra rb x la lb
            ∙ ground (arith, inv.members ra x la ea, inv.members rb x lb eb))
    | inr other ↦
        let fixed = fixed_before r e in
        ap (λ (b : Bits). bit b x) (merged-row c.s inv.s_table r)
        ∙ rw other (ground (arith, inv.members r x lt fixed))
  ]

  merged-alone : (x y : ℕ) → sup x ≡ false → link rep ra rb y ≡ link rep ra rb x → y ≡ x
  merged-alone x y h e =
      let not_a : rep x ≢ ra =
        λ g. absurd (ground (arith, ap sup (inv.alone x ra h (ea ∙ sym g)))) in
      let not_b : rep x ≢ rb =
        λ g. absurd (ground (arith, ap sup (inv.alone x rb h (eb ∙ sym g)))) in
      inv.alone x y h (ground (arith, not_a, not_b))

  -- Where a node stands with respect to the merged set.
  abbrev Inside : ℕ → Type 0
  Inside z = ((rep z ≡ ra) ⊎ (rep z ≡ rb)) × (link rep ra rb z ≡ ra)

  abbrev Outside : ℕ → Type 0
  Outside z = (rep z ≢ ra) × (rep z ≢ rb) × (link rep ra rb z ≡ rep z)

  side : (z : ℕ) → Inside z ⊎ Outside z
  side z = elim (Bool-cases (rep z == rb)) [
    | inl same ↦ inl (inr ((==_iff (rep z) rb).0 same), rw same)
    | inr other ↦ elim (Bool-cases (rep z == ra)) [
      | inl same ↦ inl (inl ((==_iff (rep z) ra).0 same), rw other ((==_iff (rep z) ra).0 same))
      | inr other' ↦ inr (ground arith, ground arith, rw other)
    ]
  ]

  same-Inside : (x y : ℕ) → link rep ra rb x ≡ link rep ra rb y → Inside x → Inside y
  same-Inside x y e h = elim (side y) [ inl g ↦ g | inr g ↦ absurd (g.0 (sym g.2 ∙ sym e ∙ h.1)) ]

  same-Outside : (x y : ℕ) → link rep ra rb x ≡ link rep ra rb y → Outside x → rep x ≡ rep y
  same-Outside x y e h = elim (side y) [
    | inl g ↦ absurd (h.0 (sym h.2 ∙ e ∙ g.1))
    | inr g ↦ sym h.2 ∙ e ∙ g.2
  ]

  merged-untangled :
      (x y x' y' : ℕ)
      → Before x y
      → Before y' x'
      → link rep ra rb x ≡ link rep ra rb x'
      → link rep ra rb y ≡ link rep ra rb y'
      → link rep ra rb x ≡ link rep ra rb y
  merged-untangled x y x' y' xy yx' ex ey = elim (side x) [
    | inl mx ↦ elim (side y) [
      | inl my ↦ mx.1 ∙ sym my.1
      | inr oy ↦ absurd (
          no_crossing inv ra rb la lb ea eb free x y x' y' xy yx' mx.0 (same-Inside x x' ex mx).0
            (same-Outside y y' ey oy) oy.0 oy.1)
    ]
    | inr ox ↦ elim (side y) [
      | inl my ↦
          let e = same-Outside x x' ex ox in
          absurd (
            no_crossing inv ra rb la lb ea eb free y' x' y x yx' xy (same-Inside y y' ey my).0 my.0
              (sym e) (λ h. ox.0 (e ∙ h)) (λ h. ox.1 (e ∙ h)))
      | inr oy ↦
          ox.2
          ∙ inv.untangled x y x' y' xy yx' (same-Outside x x' ex ox) (same-Outside y y' ey oy)
          ∙ sym oy.2
    ]
  ]

  pub commit-Inv :
      Inv n w sup Before
        (link rep ra rb)
        (commit c p ra rb (merged c.s ra rb) (merged c.canc ra rb) (merged c.cdesc ra rb))
  unfolding commit
  commit-Inv = record {
    forest = rw (moved-link n rep ra rb ea eb ne lb) (link-IsForest ra rb la lb ea eb ne fp);
    s_table = merged-IsTable c.s inv.s_table;
    canc_table = merged-IsTable c.canc inv.canc_table;
    cdesc_table = merged-IsTable c.cdesc inv.cdesc_table;
    members = merged-members;
    up = λ x y h. linked-bit c.canc inv.canc_table x y (inv.up x y h);
    down = λ x y h. linked-bit c.cdesc inv.cdesc_table y x (inv.down x y h);
    alone = merged-alone;
    untangled = merged-untangled;
  }
