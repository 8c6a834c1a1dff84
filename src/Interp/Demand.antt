-- ===== src/Interp/Demand.antt =====
-- `kept_nodes` (interp.rs) against the names that the wanted ones demand, by any number of steps.
use onnx_vulkan_rs_edge.Prelude.{
  ℕ, zero, suc, ◌+◌, ◌≡◌, ◌↔◌, refl, sym, ◌∙◌, ap, Bool, true, false, ◌||◌, List, [], ◌∷◌, ◌++◌,
  Option, some, length, get_or, get_elem?, set, replicate, ◌==◌, ==_iff, Bool-cases, Option-cases,
  inl, inr, String, str_eq, arith,
}
use text.Mathlib.TextEquality.{eq_iff}
use onnx_vulkan_rs_edge.Graph.Ir.{NodeIr, GraphIr, has, is_empty}
use onnx_vulkan_rs_edge.Graph.Meaning.{has-append, has_refl}
use onnx_vulkan_rs_edge.Interp.{
  needed_inputs, find_index, enter_producers, fresh, is_root, keep_from, total_inputs, wanted_names,
  kept_nodes,
}
use onnx_vulkan_rs_edge.Interp.Kept.{kept_nodes-Closed}

-- The index of the node that binds a name, the last one if there are several.
abbrev pub producer_of : GraphIr → String → Option ℕ
producer_of ir x = find_index x (enter_producers 0 ir.nodes [])

-- A name that is wanted, or that a node takes in which binds a demanded name.
pub data Demanded (ir : GraphIr) (wanted : Option (List String)) : String → Type 0 where
  asked :
      {x : String}
      → is_empty x ≡ false
      → has (wanted_names ir wanted) x ≡ true
      → Demanded ir wanted x
  through :
      {x y : String} (i : ℕ) (n : NodeIr)
      → Demanded ir wanted y
      → producer_of ir y ≡ some i
      → get_elem? ir.nodes i ≡ some n
      → is_empty x ≡ false
      → is_root ir x ≡ false
      → has (needed_inputs n) x ≡ true
      → Demanded ir wanted x

fresh-lem :
    (skip : String → Bool) (xs seen : List String) (x : String)
    → has (fresh skip xs seen).0 x ≡ true
    → (is_empty x ≡ false) × (skip x ≡ false) × (has xs x ≡ true)
unfolding fresh
fresh-lem skip [] seen x h = absurd cc
fresh-lem skip (y ∷ xs) seen x h = elim (Bool-cases (is_empty y || skip y || has seen y)) [
  | inl drop ↦
      let h' : has (fresh skip xs seen).0 x ≡ true = rw (fresh, drop) at h in
      let (ne, sk, b) = fresh-lem skip xs seen x h' in (ne, sk, ground arith)
  | inr keep ↦
      let h' : (str_eq y x || has (fresh skip xs (y ∷ seen)).0 x) ≡ true = rw (fresh, keep) at h in
      elim (Bool-cases (str_eq y x)) [
        | inr miss ↦
            let (ne, sk, b) = fresh-lem skip xs (y ∷ seen) x (ground arith) in
            (ne, sk, ground arith)
        | inl hit ↦
            let e : y ≡ x = (eq_iff y x).0 hit in
            let at : (is_empty x || skip x || has seen x) ≡ false =
              ap (λ q. is_empty q || skip q || has seen q) (sym e) ∙ keep in
            (ground arith, ground arith, ground arith)
      ]
]

get_or-set_other :
    (kept : List Bool) (i k : ℕ)
    → (i == k) ≡ false
    → get_or (set kept i true) k false ≡ get_or kept k false
get_or-set_other [] i k ne = refl
get_or-set_other (b ∷ kept) zero zero ne = absurd (ground arith)
get_or-set_other (b ∷ kept) zero (suc k) ne = refl
get_or-set_other (b ∷ kept) (suc i) zero ne = refl
get_or-set_other (b ∷ kept) (suc i) (suc k) ne = get_or-set_other kept i k (ground arith)

get_or-blank : (n j : ℕ) → get_or (replicate n false) j false ≡ false
get_or-blank zero j = refl
get_or-blank (suc n) zero = refl
get_or-blank (suc n) (suc j) = get_or-blank n j

module _ (ir : GraphIr) (wanted : Option (List String)) where
  -- The node binds a demanded name.
  abbrev pub Useful : ℕ → Type 0
  Useful i = (y : String) × Demanded ir wanted y × (producer_of ir y ≡ some i)

  keep_from-Useful :
      (fuel : ℕ) (frontier seen : List String) (kept : List Bool)
      → ((x : String) → has frontier x ≡ true → Demanded ir wanted x)
      → ((j : ℕ) → get_or kept j false ≡ true → Useful j)
      → (j : ℕ)
      → get_or (keep_from fuel ir (enter_producers 0 ir.nodes []) frontier seen kept) j false ≡ true
      → Useful j
  unfolding keep_from
  keep_from-Useful zero frontier seen kept front useful j h = useful j h
  keep_from-Useful (suc fuel) [] seen kept front useful j h = useful j h
  keep_from-Useful (suc fuel) (name ∷ frontier) seen kept front useful j h =
      let front' : (x : String) → has frontier x ≡ true → Demanded ir wanted x =
        λ x b. front x (ground arith) in
      let rest = keep_from-Useful fuel frontier seen kept front' useful j in
      elim (Option-cases (producer_of ir name)) [
        | inl absent ↦ rest (rw (keep_from, absent) at h)
        | inr (i, found) ↦ elim (Bool-cases (get_or kept i false)) [
          | inl on ↦ rest (rw (keep_from, found, on) at h)
          | inr off ↦ elim (Option-cases (get_elem? ir.nodes i)) [
            | inl gone ↦ useful j (rw (keep_from, found, off, gone) at h)
            | inr (n, at) ↦
                let need : Demanded ir wanted name =
                  front name (let self = has_refl name in ground arith) in
                let scanned = fresh (is_root ir) (needed_inputs n) seen in
                keep_from-Useful fuel (frontier ++ scanned.0) scanned.1 (set kept i true)
                  (λ x b. elim (Bool-cases (has frontier x)) [
                    | inl old ↦ front' x old
                    | inr new ↦
                        let (ne, sk, b') =
                          fresh-lem (is_root ir) (needed_inputs n) seen x
                            (ground (arith, has-append x frontier scanned.0)) in
                        through i n need found at ne sk b'
                  ])
                  (λ k b. elim (Bool-cases (i == k)) [
                    | inl same ↦
                        let e : i ≡ k = (==_iff i k).0 same in (name, need, found ∙ ap some e)
                    | inr other ↦ useful k (sym (get_or-set_other kept i k other) ∙ b)
                  ])
                  j (rw (keep_from, found, off, at) at h)
          ]
        ]
      ]

  Demanded-Closed :
      (x : String)
      → Demanded ir wanted x
      → (i : ℕ) → producer_of ir x ≡ some i
      → get_or (kept_nodes ir wanted) i false ≡ true
  Demanded-Closed x (asked ne w) = (kept_nodes-Closed ir wanted).0 x ne w
  Demanded-Closed x (through {y = y} j n need found at ne root b) =
      let on = Demanded-Closed y need j found in
      (kept_nodes-Closed ir wanted).1 j n x at on ne root b

  -- The worklist ends, and a node is kept just where it is the one that binds a demanded name: a wanted name,
  -- or one that is no graph input and no initializer and that a node takes in which binds a demanded name.
  pub kept_nodes-Useful : (i : ℕ) → (get_or (kept_nodes ir wanted) i false ≡ true) ↔ Useful i
  unfolding kept_nodes
  kept_nodes-Useful i = (
    (λ on.
        keep_from-Useful (suc (length (wanted_names ir wanted) + total_inputs ir.nodes))
          (fresh (λ x. false) (wanted_names ir wanted) []).0
          (fresh (λ x. false) (wanted_names ir wanted) []).1 (replicate (length ir.nodes) false)
          (λ x b.
            let (ne, sk, w) = fresh-lem (λ x. false) (wanted_names ir wanted) [] x b in asked ne w)
          (λ j bad. let off = get_or-blank (length ir.nodes) j in absurd cc) i on),
    (λ u. Demanded-Closed u.0 u.1 i u.2),
  )
