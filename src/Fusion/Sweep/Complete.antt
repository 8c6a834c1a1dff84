-- ===== src/Fusion/Sweep/Complete.antt =====
-- The sweeps of `convex_groups` (fusion.rs), in an order in which each node comes after its neighbours:
-- they end without a panic, and each bitset holds all that its node reaches.
use onnx_vulkan_rs_edge.Prelude.{
  ℕ, ◌≤◌, ◌<◌, ◌≡◌, refl, sym, ◌∙◌, ap, subst, true, false, ◌||◌, List, [], ◌∷◌, set, length, ◌==◌,
  ==_iff, some, Bool-cases, inl, inr, arith,
}
use native.Mathlib.Decide.{dec_lt}
use onnx_vulkan_rs_edge.Fusion.Bits.{
  Bits, bit, set_bit, or_into, contains, bit-set_bit, bit-or_into, length-or_into,
}
use onnx_vulkan_rs_edge.Fusion.Merge.{row}
use onnx_vulkan_rs_edge.Fusion.Merge.Invariant.{IsTable}
use onnx_vulkan_rs_edge.Fusion.Merge.Invariant.Merged.{row-set}
use onnx_vulkan_rs_edge.Fusion.Topo.Kahn.{neighbours, Below, Ordered}
use onnx_vulkan_rs_edge.Fusion.Sweep.{absorb, absorb_all, sweep}
use onnx_vulkan_rs_edge.Fusion.Sweep.Tables.{absorb-IsTable, absorb_all-IsTable}

-- There is a path of arcs from a node to another; `rows` lists the nodes one arc before each node.
pub data PathTo (rows : List (List ℕ)) : ℕ → ℕ → Type 0 where
  arc : {x v : ℕ} → contains (neighbours rows v) x ≡ true → PathTo rows x v
  step : {x u v : ℕ} → PathTo rows x u → contains (neighbours rows v) u ≡ true → PathTo rows x v

absorb_none : (rows : List Bits) (v : ℕ) → absorb_all rows v [] ≡ some rows
unfolding absorb_all
absorb_none rows v = refl

apart_from :
    (us : List ℕ) (v u : ℕ) → contains us u ≡ true → contains us v ≡ false → (v == u) ≡ false
apart_from us v u h h' = elim (Bool-cases (v == u)) [
  | inr other ↦ other
  | inl same ↦ let e : v ≡ u = (==_iff v u).0 same in absurd (ground (arith, ap (contains us) e))
]

module _ (n w : ℕ) (wide : n ≤ w) where
  -- Absorbing a node adds the node and its bits to one bitset.
  absorb-lem :
      (rows : List Bits) (v u : ℕ)
      → IsTable n w rows
      → v < n
      → u < n
      → (v == u) ≡ false
      → (rows' : List Bits) × (absorb rows v u ≡ some rows')
        × ((x : ℕ) → bit (row rows' v) x ≡ ((u == x || bit (row rows v) x) || bit (row rows u) x))
        × ((y : ℕ) → (v == y) ≡ false → row rows' y ≡ row rows y)
  unfolding absorb
  absorb-lem rows v u t lv lu ne =
      let merged = or_into (row rows v) (row rows u) in
      let b = set_bit merged u in
      let len = length-or_into (row rows v) (row rows u) in
      let eq : length (row rows v) ≡ length (row rows u) = t.width v lv ∙ sym (t.width u lu) in
      (
        set rows v b,
        rw ne refl,
        (λ x.
            let here = row-set rows v v b (omega (arith, t.size)) in
            let same : (v == v) ≡ true = ground arith in
            let at : row (set rows v b) v ≡ b = rw same at here in
            ap (λ r. bit r x) at
            ∙ bit-set_bit merged u x (omega (arith, len, t.width v lv))
            ∙ ground (arith, bit-or_into (row rows v) (row rows u) x eq)),
        (λ y other. rw other at (row-set rows v y b (omega (arith, t.size)))),
      )

  absorb_all-lem :
      (us : List ℕ) (rows : List Bits) (v : ℕ)
      → IsTable n w rows
      → v < n
      → Below n us
      → contains us v ≡ false
      → (rows' : List Bits) × (absorb_all rows v us ≡ some rows')
        × ((x u : ℕ)
            → contains us u ≡ true
            → (u == x || bit (row rows u) x) ≡ true
            → bit (row rows' v) x ≡ true)
        × ((x : ℕ) → bit (row rows v) x ≡ true → bit (row rows' v) x ≡ true)
        × ((y : ℕ) → (v == y) ≡ false → row rows' y ≡ row rows y)
  unfolding absorb_all
  absorb_all-lem [] rows v t lv b ne =
      (rows, refl, (λ x u h. absurd (ground arith)), (λ x h. h), (λ y h. refl))
  absorb_all-lem (u ∷ us) rows v t lv b ne =
      let differs : (v == u) ≡ false = ground arith in
      let (r₁, e₁, gain, stay) = absorb-lem rows v u t lv b.0 differs in
      let t₁ = absorb-IsTable rows v u t e₁ in
      let (r₂, e₂, all, grow, others) = absorb_all-lem us r₁ v t₁ lv b.1 (ground arith) in
      (
        r₂,
        rw (absorb_all, e₁) e₂,
        (λ x u' h g. elim (Bool-cases (u == u')) [
          | inl same ↦
              let e : u ≡ u' = (==_iff u u').0 same in
              let g' = subst (λ y. (y == x || bit (row rows y) x) ≡ true) (sym e) g in
              grow x (gain x ∙ ground arith)
          | inr other ↦
              let there : contains us u' ≡ true = ground arith in
              let apart = apart_from us v u' there (ground arith) in
              all x u' there (subst (λ r. (u' == x || bit r x) ≡ true) (sym (stay u' apart)) g)
        ]),
        (λ x h. grow x (gain x ∙ ground arith)),
        (λ y other. others y other ∙ stay y other),
      )

  -- The bitsets of the nodes swept so far hold all that reaches them.
  abbrev Swept : List (List ℕ) → List ℕ → List Bits → Type 0
  Swept links done rows =
      (v x : ℕ) → contains done v ≡ true → PathTo links x v → bit (row rows v) x ≡ true

  module _ (links : List (List ℕ)) (below : (v : ℕ) → Below n (neighbours links v))
      (beyond : (v : ℕ) → n ≤ v → neighbours links v ≡ [])
      (loopless : (v : ℕ) → contains (neighbours links v) v ≡ false) where
    -- What absorbing all its neighbours does for a node whose neighbours were swept.
    Swept-here :
        (done : List ℕ) (rows mid : List Bits) (v x : ℕ)
        → ((p : ℕ) → contains (neighbours links v) p ≡ true → contains done p ≡ true)
        → Swept links done rows
        → ((x u : ℕ)
            → contains (neighbours links v) u ≡ true
            → (u == x || bit (row rows u) x) ≡ true
            → bit (row mid v) x ≡ true)
        → PathTo links x v
        → bit (row mid v) x ≡ true
    Swept-here done rows mid v x before s all (arc h) =
        all x x h (let e : (x == x) ≡ true = ground arith in rw e refl)
    Swept-here done rows mid v x before s all (step {u = u} p h) =
        let known = s u x (before u h) p in all x u h (ground arith)

    Swept-next :
        (done : List ℕ) (rows mid : List Bits) (v : ℕ)
        → ((p : ℕ) → contains (neighbours links v) p ≡ true → contains done p ≡ true)
        → Swept links done rows
        → ((x u : ℕ)
            → contains (neighbours links v) u ≡ true
            → (u == x || bit (row rows u) x) ≡ true
            → bit (row mid v) x ≡ true)
        → ((y : ℕ) → (v == y) ≡ false → row mid y ≡ row rows y)
        → Swept links (v ∷ done) mid
    Swept-next done rows mid v before s all others y x c p = elim (Bool-cases (v == y)) [
      | inl same ↦
          let e : v ≡ y = (==_iff v y).0 same in
          subst (λ z. bit (row mid z) x ≡ true) e
            (Swept-here done rows mid v x before s all (subst (λ z. PathTo links x z) (sym e) p))
      | inr other ↦ subst (λ r. bit r x ≡ true) (sym (others y other)) (s y x (ground arith) p)
    ]

    -- A sweep ends, and its bitsets hold all that reaches their nodes.
    pub sweep_complete :
        (order done : List ℕ) (rows : List Bits)
        → IsTable n w rows
        → Ordered links done order
        → Swept links done rows
        → (rows' : List Bits) × (sweep links order rows ≡ some rows')
          × ((v x : ℕ)
              → (contains done v || contains order v) ≡ true
              → PathTo links x v
              → bit (row rows' v) x ≡ true)
    unfolding sweep
    sweep_complete [] done rows t o s = (rows, refl, λ v x h p. s v x (ground arith) p)
    sweep_complete (v ∷ order) done rows t o s = elim (dec_lt v n) [
      | yes lt ↦
          let (mid, e, all, grow, others) =
            absorb_all-lem (neighbours links v) rows v t lt (below v) (loopless v) in
          let t' = absorb_all-IsTable (neighbours links v) rows v t e in
          let (rows', e', done') =
            sweep_complete order (v ∷ done) mid t' o.2
              (Swept-next done rows mid v o.1 s all others) in
          (rows', rw (sweep, e) e', λ y x h p. done' y x (ground arith) p)
      | no ge ↦
          let nothing = beyond v (omega arith) in
          let stay : absorb_all rows v (neighbours links v) ≡ some rows =
            subst (λ us. absorb_all rows v us ≡ some rows) (sym nothing) (absorb_none rows v) in
          let (rows', e', done') = sweep_complete order (v ∷ done) rows t o.2 (
            Swept-next done rows rows v o.1 s
              (λ x u h g. absurd (
                subst (λ us. contains us u ≡ true → ⊥) (sym nothing) (λ q. absurd (ground arith))
                  h))
              (λ y other. refl)) in
          (rows', rw (sweep, stay) e', λ y x h p. done' y x (ground arith) p)
    ]
