-- ===== src/Fusion/Links/Arcs.antt =====
-- The two lists of neighbours that `convex_groups` (fusion.rs) collects, and what they stand for.
use onnx_vulkan_rs_edge.Prelude.{
  ℕ, suc, ◌+◌, ◌-◌, ltb, ◌≤◌, ◌<◌, ◌≡◌, refl, sym, ◌∙◌, ap, subst, Bool, true, false, ◌&&◌, List,
  [], ◌∷◌, ◌++◌, get_or, get_or-set, get_or-replicate, get_or-beyond, length, length-set,
  length-replicate, replicate, ◌==◌, ==_iff, if◌then◌else◌, Bool-cases, Option-cases, inl, inr,
  arith, some, none, String,
}
use native.Mathlib.Decide.{dec_lt}
use onnx_vulkan_rs_edge.Fusion.Topo.Kahn.{times, times-append, neighbours, Below}
use onnx_vulkan_rs_edge.Fusion.Links.{
  Producers, Links, lookup, producers, push_at, add_arc, link_found, link_inputs, link_nodes, links,
}
use onnx_vulkan_rs_edge.Fusion.Links.Bounds.{AllBelow, lookup-below, producers_from-below}

times-push_at :
    (rows : List (List ℕ)) (i x j y : ℕ)
    → i < length rows
    → times y (neighbours (push_at rows i x) j)
      ≡ times y (neighbours rows j) + (if i == j && x == y then 1 else 0)
unfolding push_at
times-push_at rows i x j y h =
    let at = get_or-set rows i j (neighbours rows i ++ x ∷ []) [] h in
    elim (Bool-cases (i == j)) [
      | inr other ↦ ap (times y) at ∙ rw other (omega arith)
      | inl same ↦
          let e : i ≡ j = (==_iff i j).0 same in
          ap (times y) at
          ∙ rw same (
              times-append y (neighbours rows i) (x ∷ [])
              ∙ omega (arith, ap (λ k. times y (neighbours rows k)) e))
    ]

Below-append : (n : ℕ) (xs : List ℕ) (x : ℕ) → Below n xs → x < n → Below n (xs ++ x ∷ [])
Below-append n [] x b h = (h, tt)
Below-append n (y ∷ xs) x b h = (b.0, Below-append n xs x b.1 h)

push_at-Below :
    (n : ℕ) (rows : List (List ℕ)) (i x : ℕ)
    → i < length rows
    → x < n
    → ((j : ℕ) → Below n (neighbours rows j))
    → (j : ℕ) → Below n (neighbours (push_at rows i x) j)
unfolding push_at
push_at-Below n rows i x h lt b j =
    let at = get_or-set rows i j (neighbours rows i ++ x ∷ []) [] h in
    subst (λ r. Below n r) (sym at)
      (elim (Bool-cases (i == j)) [
        | inl same ↦ rw same (Below-append n (neighbours rows i) x (b i) lt)
        | inr other ↦ rw other (b j)
      ])

module _ (n : ℕ) (supported : List Bool) where
  -- Both lists have `n` entries with nodes below `n`, and hold the same arcs.
  pub record IsLinked (l : Links) : Type 0 where
    pub preds_size : length l.preds ≡ n
    pub succs_size : length l.succs ≡ n
    pub preds_below : (v : ℕ) → Below n (neighbours l.preds v)
    pub succs_below : (u : ℕ) → Below n (neighbours l.succs u)
    pub dual : (u v : ℕ) → times v (neighbours l.succs u) ≡ times u (neighbours l.preds v)

  add_arc-IsLinked :
      (u v : ℕ) (l : Links) → u < n → v < n → IsLinked l → IsLinked (add_arc supported u v l)
  unfolding add_arc push_at
  add_arc-IsLinked u v l lu lv g = record {
    preds_size = length-set l.preds v (neighbours l.preds v ++ u ∷ []) ∙ g.preds_size;
    succs_size = length-set l.succs u (neighbours l.succs u ++ v ∷ []) ∙ g.succs_size;
    preds_below = push_at-Below n l.preds v u (omega (arith, g.preds_size)) lu g.preds_below;
    succs_below = push_at-Below n l.succs u v (omega (arith, g.succs_size)) lv g.succs_below;
    dual = λ a b. ground (
      arith,
      times-push_at l.succs u v a b (omega (arith, g.succs_size)),
      times-push_at l.preds v u b a (omega (arith, g.preds_size)),
      g.dual a b,
    );
  }

  link_inputs-IsLinked :
      (m : Producers) (v : ℕ) (ins : List String) (l : Links)
      → AllBelow n m
      → v < n
      → IsLinked l
      → IsLinked (link_inputs m supported v ins l)
  unfolding link_inputs link_found
  link_inputs-IsLinked m v [] l b lt g = g
  link_inputs-IsLinked m v (name ∷ ins) l b lt g = elim (Option-cases (lookup name m)) [
    | inl absent ↦ rw (absent, link_inputs) (link_inputs-IsLinked m v ins l b lt g)
    | inr (u, found) ↦
        rw (found, link_inputs)
          (link_inputs-IsLinked m v ins (add_arc supported u v l) b lt
            (add_arc-IsLinked u v l (lookup-below n name m b found) lt g))
  ]

  link_nodes-IsLinked :
      (m : Producers) (v : ℕ) (rest : List (List String)) (l : Links)
      → AllBelow n m
      → v + length rest ≤ n
      → IsLinked l
      → IsLinked (link_nodes m supported v rest l)
  unfolding link_nodes
  link_nodes-IsLinked m v [] l b h g = g
  link_nodes-IsLinked m v (ins ∷ rest) l b h g =
      link_nodes-IsLinked m (suc v) rest (link_inputs m supported v ins l) b (omega arith)
        (link_inputs-IsLinked m v ins l b (omega arith) g)

  no_neighbours : (v : ℕ) → neighbours (replicate n []) v ≡ []
  no_neighbours v =
      let empty : List ℕ = [] in
      elim (dec_lt v n) [
        | yes lt ↦ get_or-replicate n v [] [] lt
        | no ge ↦ get_or-beyond (replicate n []) v [] (omega (arith, length-replicate n empty))
      ]

  pub start-IsLinked :
      IsLinked (record { preds = replicate n []; succs = replicate n []; edges = [] })
  start-IsLinked = record {
    preds_size = length-replicate n [];
    succs_size = length-replicate n [];
    preds_below = λ v. subst (λ r. Below n r) (sym (no_neighbours v)) tt;
    succs_below = λ v. subst (λ r. Below n r) (sym (no_neighbours v)) tt;
    dual = λ u v. ap (times v) (no_neighbours u) ∙ sym (ap (times u) (no_neighbours v));
  }

  pub links-IsLinked :
      (node_inputs node_outputs : List (List String))
      → length node_inputs ≡ n
      → length node_outputs ≡ n
      → IsLinked (links n node_inputs node_outputs supported)
  unfolding links producers
  links-IsLinked node_inputs node_outputs li lo =
      link_nodes-IsLinked (producers node_outputs) 0 node_inputs _
        (producers_from-below n 0 node_outputs [] (omega arith) tt) (omega arith) start-IsLinked

-- The producers of the values of a list, of those that have one.
abbrev pub sources_of : Producers → List String → List ℕ
sources_of m [] = []
sources_of m (name ∷ ins) = elim (lookup name m) [
  | none ↦ sources_of m ins
  | some u ↦ u ∷ sources_of m ins
]

append-nothing : (xs : List ℕ) → xs ++ [] ≡ xs
append-nothing [] = refl
append-nothing (x ∷ xs) = ap (λ ys. x ∷ ys) (append-nothing xs)

append-one : (xs : List ℕ) (y : ℕ) (zs : List ℕ) → (xs ++ y ∷ []) ++ zs ≡ xs ++ y ∷ zs
append-one [] y zs = refl
append-one (x ∷ xs) y zs = ap (λ ys. x ∷ ys) (append-one xs y zs)

module _ (n : ℕ) (supported : List Bool) (m : Producers) where
  link_inputs-preds :
      (v : ℕ) (ins : List String) (l : Links) (j : ℕ)
      → v < length l.preds
      → neighbours (link_inputs m supported v ins l).preds j
        ≡ (if v == j then neighbours l.preds j ++ sources_of m ins else neighbours l.preds j)
  unfolding link_inputs link_found add_arc push_at
  link_inputs-preds v [] l j h = elim (Bool-cases (v == j)) [
    | inl same ↦ rw same (sym (append-nothing (neighbours l.preds j)))
    | inr other ↦ rw other refl
  ]
  link_inputs-preds v (name ∷ ins) l j h = elim (Option-cases (lookup name m)) [
    | inl absent ↦ rw (absent, link_inputs, sources_of) (link_inputs-preds v ins l j h)
    | inr (u, found) ↦
        let l' = add_arc supported u v l in
        let longer : v < length l'.preds =
          omega (arith, length-set l.preds v (neighbours l.preds v ++ u ∷ [])) in
        let rest = link_inputs-preds v ins l' j longer in
        let at = get_or-set l.preds v j (neighbours l.preds v ++ u ∷ []) [] h in
        rw (found, link_inputs, sources_of)
          (rest ∙ elim (Bool-cases (v == j)) [
            | inl same ↦
                let e : v ≡ j = (==_iff v j).0 same in
                let here = rw same at at in
                let tail = sources_of m ins in
                rw same (
                  ap (λ r. r ++ tail) here
                  ∙ append-one (neighbours l.preds v) u tail
                  ∙ ap (λ k. neighbours l.preds k ++ u ∷ tail) e)
            | inr other ↦ let here = rw other at at in rw other here
          ])
  ]

  link_nodes-preds :
      (v : ℕ) (rest : List (List String)) (l : Links) (k : ℕ)
      → v + length rest ≤ n
      → IsLinked n supported l
      → AllBelow n m
      → neighbours (link_nodes m supported v rest l).preds k ≡ (
          if ltb k v
          then neighbours l.preds k
          else neighbours l.preds k ++ sources_of m (get_or rest (k - v) []))
  unfolding link_nodes
  link_nodes-preds v [] l k h g b = elim (Bool-cases (ltb k v)) [
    | inl early ↦ rw early refl
    | inr late ↦ rw late (sym (append-nothing (neighbours l.preds k)))
  ]
  link_nodes-preds v (ins ∷ rest) l k h g b =
      let lt : v < n = omega arith in
      let l' = link_inputs m supported v ins l in
      let ih =
        link_nodes-preds (suc v) rest l' k (omega arith)
          (link_inputs-IsLinked n supported m v ins l b lt g) b in
      let mine = link_inputs-preds v ins l k (omega (arith, g.preds_size)) in
      elim (Bool-cases (ltb k v)) [
        | inl early ↦
            let later : ltb k (suc v) ≡ true = ground arith in
            let other : (v == k) ≡ false = ground arith in
            rw early (ih ∙ rw later (mine ∙ rw other refl))
        | inr late ↦ elim (Bool-cases (v == k)) [
          | inl same ↦
              let later : ltb k (suc v) ≡ true = ground arith in
              let zero_off : k - v ≡ 0 = ground arith in
              rw (late, zero_off) (ih ∙ rw later (mine ∙ rw same refl))
          | inr other ↦
              let later : ltb k (suc v) ≡ false = ground arith in
              let off : k - v ≡ suc (k - suc v) = ground arith in
              rw (late, off)
                (ih
                  ∙ rw later (
                      ap (λ r. r ++ sources_of m (get_or rest (k - suc v) []))
                        (mine ∙ rw other refl)))
        ]
      ]

-- If the inputs and outputs have one entry for each of `n` nodes, the predecessors that `convex_groups`
-- collects for a node are what its map gives for its inputs, in their order and with repetitions.
pub neighbours-links :
    (n : ℕ) (node_inputs node_outputs : List (List String)) (supported : List Bool) (v : ℕ)
    → length node_inputs ≡ n
    → length node_outputs ≡ n
    → neighbours (links n node_inputs node_outputs supported).preds v
      ≡ sources_of (producers node_outputs) (get_or node_inputs v [])
unfolding links producers
neighbours-links n node_inputs node_outputs supported v li lo =
    let all =
      link_nodes-preds n supported (producers node_outputs) 0 node_inputs
        (record { preds = replicate n []; succs = replicate n []; edges = [] }) v (omega arith)
        (start-IsLinked n supported) (producers_from-below n 0 node_outputs [] (omega arith) tt) in
    let empty = no_neighbours n supported v in
    let off : v - 0 ≡ v = omega arith in
    let begin : ltb v 0 ≡ false = ground arith in
    (rw (begin, off) at all)
    ∙ ap (λ r. r ++ sources_of (producers node_outputs) (get_or node_inputs v [])) empty
