-- ===== src/Fusion/Merge/Finds.antt =====
-- The two loops over `scratch` of fusion.rs, read through the representatives.
use onnx_vulkan_rs_edge.Prelude.{
  ℕ, ◌≤◌, ◌≡◌, refl, Bool, true, false, ◌||◌, List, [], ◌∷◌, map, ◌==◌, ==_iff, arith, Bool-cases,
  ap, inl, inr,
}
use onnx_vulkan_rs_edge.Fusion.Bits.{contains}
use onnx_vulkan_rs_edge.Fusion.UnionFind.{Parents, find}
use onnx_vulkan_rs_edge.Fusion.UnionFind.Forest.{IsForest}
use onnx_vulkan_rs_edge.Fusion.UnionFind.Ends.{find-lem}
use onnx_vulkan_rs_edge.Fusion.Merge.{finds, any_in}

-- Whether the representative of one of the nodes is in the set.
abbrev pub hits : (ℕ → ℕ) → List ℕ → List ℕ → Bool
hits rep down [] = false
hits rep down (x ∷ xs) = contains down (rep x) || hits rep down xs

pub finds-lem :
    {n k : ℕ} {rep : ℕ → ℕ} (xs : List ℕ) (p : Parents)
    → k ≤ n
    → IsForest n rep k p
    → ((finds p xs).0 ≡ map rep xs) × IsForest n rep k (finds p xs).1
unfolding finds
finds-lem [] p b f = (refl, f)
finds-lem (x ∷ xs) p b f =
    let (e, g) = find-lem x b f in
    let (es, gs) = finds-lem xs (find p x).1 b g in (ground arith, gs)

pub any_in-lem :
    {n k : ℕ} {rep : ℕ → ℕ} (down xs : List ℕ) (p : Parents)
    → k ≤ n
    → IsForest n rep k p
    → ((any_in down p xs).0 ≡ hits rep down xs) × IsForest n rep k (any_in down p xs).1
unfolding any_in
any_in-lem down [] p b f = (refl, f)
any_in-lem {rep = rep} down (x ∷ xs) p b f =
    let (e, g) = find-lem x b f in
    let (es, gs) = any_in-lem down xs (find p x).1 b g in
    elim (Bool-cases (contains down (find p x).0)) [
      | inl hit ↦ rw (hit, any_in) (ground arith, g)
      | inr miss ↦ rw (miss, any_in) (ground arith, gs)
    ]

pub contains-map :
    (rep : ℕ → ℕ) (xs : List ℕ) (y : ℕ)
    → contains xs y ≡ true
    → contains (map rep xs) (rep y) ≡ true
contains-map rep [] y h = ground arith
contains-map rep (x ∷ xs) y h = elim (Bool-cases (x == y)) [
  | inl same ↦ ground (arith, ap rep ((==_iff x y).0 same))
  | inr other ↦ ground (arith, contains-map rep xs y)
]

pub hits-contains :
    (rep : ℕ → ℕ) (down xs : List ℕ) (y : ℕ)
    → hits rep down xs ≡ false
    → contains xs y ≡ true
    → contains down (rep y) ≡ false
hits-contains rep down [] y h c = ground arith
hits-contains rep down (x ∷ xs) y h c = elim (Bool-cases (x == y)) [
  | inl same ↦
      ground
        (arith, ap rep ((==_iff x y).0 same), ap (contains down) (ap rep ((==_iff x y).0 same)))
  | inr other ↦ ground (arith, hits-contains rep down xs y)
]
