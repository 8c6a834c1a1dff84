-- ===== src/Fusion/Topo/Order.antt =====
-- The order of `convex_groups` (fusion.rs) on a graph whose arcs ascend in some ranking.
use mathlib.Core.List.{append-nil, reverse, reverse-cons}
use onnx_vulkan_rs_edge.Prelude.{
  ℕ, zero, suc, ◌+◌, ◌≤◌, ◌<◌, ◌≡◌, refl, sym, ◌∙◌, ap, subst, Bool, true, false, ◌||◌, List, [],
  ◌∷◌, ◌++◌, map, get_or, length, ◌==◌, ==_iff, ltb, if◌then◌else◌, Bool-cases, inl, inr, arith,
  some,
}
use onnx_vulkan_rs_edge.Fusion.Bits.{contains}
use onnx_vulkan_rs_edge.Fusion.UnionFind.{range_from}
use onnx_vulkan_rs_edge.Fusion.Topo.{keep, with_residue, topo_order}
use onnx_vulkan_rs_edge.Fusion.Topo.Kahn.{
  times, Below, neighbours, waiting, contains-times, Running, Ordered, Taken, kahn-Taken,
  pend-nothing, get_or-lengths, length-lengths, times-keep, length-keep,
}

-- The arcs of a graph of `n` nodes, from both ends, and a ranking in which they ascend.
pub record IsRanked (n : ℕ) (preds succs : List (List ℕ)) (rank : ℕ → ℕ) : Type 0 where
  pub size : length preds ≡ n
  pub below : (u : ℕ) → Below n (neighbours succs u)
  pub dual : (u v : ℕ) → times v (neighbours succs u) ≡ times u (neighbours preds v)
  pub inside : (u v : ℕ) → contains (neighbours preds v) u ≡ true → u < n
  pub ascends : (u v : ℕ) → contains (neighbours preds v) u ≡ true → rank u < rank v

keep-none :
    (test : ℕ → Bool) (i k : ℕ)
    → ((v : ℕ) → i ≤ v → v < i + k → test v ≡ false)
    → keep test (range_from i k) ≡ []
unfolding keep range_from
keep-none test i zero h = refl
keep-none test i (suc k) h =
    rw (h i (omega arith) (omega arith))
      (keep-none test (suc i) k (λ v a b. h v (omega arith) (omega arith)))

contains-append :
    (v : ℕ) (xs ys : List ℕ) → contains (xs ++ ys) v ≡ (contains xs v || contains ys v)
contains-append v [] ys = refl
contains-append v (x ∷ xs) ys = ground (arith, contains-append v xs ys)

contains-reverse : (v : ℕ) (xs : List ℕ) → contains (reverse xs) v ≡ contains xs v
contains-reverse v [] = refl
contains-reverse v (x ∷ xs) =
    ap (λ ys. contains ys v) (reverse-cons x xs)
    ∙ contains-append v (reverse xs) (x ∷ [])
    ∙ ground (arith, contains-reverse v xs)

pub below-contains : (n : ℕ) (xs : List ℕ) (w : ℕ) → Below n xs → contains xs w ≡ true → w < n
below-contains n [] w b h = absurd (ground arith)
below-contains n (x ∷ xs) w b h = elim (Bool-cases (x == w)) [
  | inl same ↦ ground arith
  | inr other ↦ below-contains n xs w b.1 (ground arith)
]

module _ {n : ℕ} {preds succs : List (List ℕ)} {rank : ℕ → ℕ}
    (g : IsRanked n preds succs rank) where
  abbrev Sorted : List (List ℕ) → List ℕ → List ℕ → Type 0
  Sorted = Ordered

  abbrev indegree : List ℕ
  indegree = map length preds

  abbrev sources : List ℕ
  sources = keep (λ v. get_or indegree v 0 == 0) (range_from 0 n)

  starts : Running n preds succs g.below g.dual [] [] sources indegree
  starts = record {
    size = length-lengths preds ∙ g.size;
    left = λ v h. omega (
      arith,
      get_or-lengths preds v,
      pend-nothing n preds succs g.below g.dual (neighbours preds v),
    );
    placed = λ v. ground (arith, times-keep (λ w. get_or indegree w 0 == 0) 0 n v);
  }

  enough : length sources + waiting indegree ≤ n
  enough =
      let e = length-lengths preds ∙ g.size in
      let h =
        length-keep (λ v. get_or indegree v 0) 0 indegree
          (λ j lt. let e' : 0 + j ≡ j = omega arith in rw e' refl) in
      omega (
        arith,
        e,
        subst
            (λ (k : ℕ).
              length (keep (λ v. get_or indegree v 0 == 0) (range_from 0 k)) + waiting indegree ≡ k)
            e h,
      )

  pub taken : Taken n preds succs g.below g.dual [] sources indegree n
  taken = kahn-Taken n preds succs g.below g.dual n [] sources indegree enough starts

  -- The order that the loop ends with.
  abbrev pub order : List ℕ
  order = taken.topo

  order_climb : (k v : ℕ) → rank v < k → v < n → contains order v ≡ true
  order_climb zero v h lt = absurd (omega arith)
  order_climb (suc k) v h lt =
      taken.closed v lt (λ p c. order_climb k p (omega (arith, g.ascends p v c)) (g.inside p v c))

  -- The loop ends, and no node is left for the residue.
  pub topo_order-lem : topo_order n preds succs ≡ some order
  unfolding topo_order with_residue
  topo_order-lem =
      let nothing =
        keep-none (λ v. if contains order v then false else true) 0 n
          (λ v a b.
            let e = order_climb (suc (rank v)) v (omega arith) (omega arith) in rw e refl) in
      rw (topo_order, taken.ends)
        (elim (Bool-cases (ltb (length order) n)) [
          | inl short ↦ rw (short, nothing) (ap some (append-nil order))
          | inr full ↦ rw full refl
        ])

  Sorted-new :
      (rows : List (List ℕ)) (done xs : List ℕ) (v : ℕ)
      → Sorted rows done xs
      → contains done v ≡ true
      → contains xs v ≡ false
  Sorted-new rows done [] v s h = refl
  Sorted-new rows done (x ∷ xs) v s h =
      let rest = Sorted-new rows (x ∷ done) xs v s.2 (ground arith) in
      elim (Bool-cases (x == v)) [
        | inl same ↦
            let e : x ≡ v = (==_iff x v).0 same in
            absurd (ground (arith, s.0, ap (contains done) e))
        | inr other ↦ ground arith
      ]

  Sorted-append :
      (rows : List (List ℕ)) (done xs : List ℕ) (v : ℕ)
      → Sorted rows done xs
      → (contains done v || contains xs v) ≡ false
      → ((p : ℕ)
          → contains (neighbours rows v) p ≡ true
          → (contains done p || contains xs p) ≡ true)
      → Sorted rows done (xs ++ v ∷ [])
  Sorted-append rows done [] v s new c = (ground arith, (λ p q. ground (arith, c p q)), tt)
  Sorted-append rows done (x ∷ xs) v s new c = (
    s.0,
    s.1,
    Sorted-append rows (x ∷ done) xs v s.2 (ground arith) (λ p q. ground (arith, c p q)),
  )

  -- A successor of a node is not among what came before it, and not the node itself.
  after :
      (done xs : List ℕ) (v w : ℕ)
      → contains done v ≡ false
      → ((d p : ℕ)
          → contains done d ≡ true
          → contains (neighbours preds d) p ≡ true
          → contains done p ≡ true)
      → ((u w : ℕ)
          → contains (v ∷ xs) u ≡ true
          → contains (neighbours succs u) w ≡ true
          → (contains done w || contains (v ∷ xs) w) ≡ true)
      → contains (neighbours succs v) w ≡ true
      → contains xs w ≡ true
  after done xs v w new c r q =
      let at = r v w (let e : (v == v) ≡ true = ground arith in rw e refl) q in
      let back : contains (neighbours preds w) v ≡ true = ground (
        arith,
        contains-times v (neighbours preds w),
        contains-times w (neighbours succs v),
        g.dual v w,
      ) in
      elim (Bool-cases (contains done w)) [
        | inl old ↦ absurd (ground (arith, c w v old back))
        | inr fresh ↦ elim (Bool-cases (v == w)) [
          | inr other ↦ ground arith
          | inl same ↦
              let e : v ≡ w = (==_iff v w).0 same in
              absurd (omega (arith, g.ascends v w back, ap rank e))
        ]
      ]

  -- The reverse of an order in which predecessors come first has successors first.
  reverse-Sorted :
      (done xs : List ℕ)
      → Sorted preds done xs
      → ((d p : ℕ)
          → contains done d ≡ true
          → contains (neighbours preds d) p ≡ true
          → contains done p ≡ true)
      → ((v w : ℕ)
          → contains xs v ≡ true
          → contains (neighbours succs v) w ≡ true
          → (contains done w || contains xs w) ≡ true)
      → Sorted succs [] (reverse xs)
  reverse-Sorted done [] s c r = tt
  reverse-Sorted done (v ∷ xs) s c r =
      let (new, before, rest) = s in
      let ih =
        reverse-Sorted (v ∷ done) xs rest
          (λ d p h q. elim (Bool-cases (v == d)) [
            | inl same ↦
                let e : v ≡ d = (==_iff v d).0 same in
                let q' = subst (λ x. contains (neighbours preds x) p ≡ true) (sym e) q in
                let old = before p q' in ground arith
            | inr other ↦ let old = c d p (ground arith) q in ground arith
          ])
          (λ u w h q. let at = r u w (ground arith) q in ground arith) in
      let once =
        Sorted-new preds (v ∷ done) xs v rest
          (let e : (v == v) ≡ true = ground arith in rw e refl) in
      subst (λ ys. Sorted succs [] ys) (sym (reverse-cons v xs))
        (Sorted-append succs [] (reverse xs) v ih (contains-reverse v xs ∙ once)
          (λ w q. contains-reverse w xs ∙ after done xs v w new c r q))

  -- In the order of `convex_groups` each node comes once, after its predecessors, and all nodes come.
  pub order-Sorted : Sorted preds [] order
  order-Sorted = taken.ordered

  pub order_all : (v : ℕ) → v < n → contains order v ≡ true
  order_all v lt = order_climb (suc (rank v)) v (omega arith) lt

  pub reverse-order-Sorted : Sorted succs [] (reverse order)
  reverse-order-Sorted =
      reverse-Sorted [] order order-Sorted (λ d p h q. absurd (ground arith))
        (λ v w h q. order_all w (below-contains n (neighbours succs v) w (g.below v) q))

  pub reverse-order_all : (v : ℕ) → v < n → contains (reverse order) v ≡ true
  reverse-order_all v lt = contains-reverse v order ∙ order_all v lt
