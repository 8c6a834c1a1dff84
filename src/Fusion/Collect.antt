-- ===== src/Fusion/Collect.antt =====
-- The end of `convex_groups` (fusion.rs): the groups, in the order of their representatives.
pub mod Members
use onnx_vulkan_rs_edge.Prelude.{
  ℕ, zero, suc, Bool, true, false, List, [], ◌∷◌, ◌++◌, map, ◌==◌, ltb, if◌then◌else◌,
}
use onnx_vulkan_rs_edge.Fusion.UnionFind.{Parents, find}

-- `BTreeMap<usize, Vec<usize>>`, its entries by ascending key.
abbrev pub Groups : Type 0
Groups = List (ℕ × List ℕ)

-- by_rep.entry(r).or_default().push(i)
unfoldable pub push_member : ℕ → ℕ → Groups → Groups
push_member r i [] = (r, i ∷ []) ∷ []
push_member r i ((k, ms) ∷ rest) =
    if r == k
    then (k, ms ++ i ∷ []) ∷ rest
    else if ltb r k
    then (r, i ∷ []) ∷ (k, ms) ∷ rest
    else (k, ms) ∷ push_member r i rest

-- The loop over the supported nodes, from node `i` on.
unfoldable pub collect_from : ℕ → List Bool → Parents → Groups → Groups
unfolding push_member
collect_from i [] p m = m
collect_from i (true ∷ supported) p m =
    let (r, p') = find p i in collect_from (suc i) supported p' (push_member r i m)
collect_from i (false ∷ supported) p m = collect_from (suc i) supported p m

-- by_rep.into_values()
abbrev pub values : Groups → List (List ℕ)
values [] = []
values ((k, ms) ∷ rest) = ms ∷ values rest
