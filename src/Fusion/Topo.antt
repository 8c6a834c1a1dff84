-- ===== src/Fusion/Topo.antt =====
-- The topological order of `convex_groups` (fusion.rs), by Kahn's algorithm.
pub mod Kahn
pub mod Order
use onnx_vulkan_rs_edge.Prelude.{
  ℕ, zero, suc, ◌-◌, Bool, true, false, List, [], ◌∷◌, ◌++◌, map, get_or, set, length, ◌==◌, ltb,
  if◌then◌else◌, Option, none, some,
}
use onnx_vulkan_rs_edge.Fusion.Bits.{contains}
use onnx_vulkan_rs_edge.Fusion.UnionFind.{range_from}

-- The nodes of a list that pass a test.
unfoldable pub keep : (ℕ → Bool) → List ℕ → List ℕ
keep test [] = []
keep test (x ∷ xs) = let rest = keep test xs in if test x then x ∷ rest else rest

-- for &v in &succs[u] { indeg[v] -= 1; if indeg[v] == 0 { queue.push(v); } }
unfoldable pub release : List ℕ → List ℕ → List ℕ → List ℕ × List ℕ
release [] indeg queue = (indeg, queue)
release (v ∷ vs) indeg queue =
    let left = get_or indeg v 0 - 1 in
    release vs (set indeg v left) (if left == 0 then queue ++ v ∷ [] else queue)

-- The `while` loop, over the part of the queue from `head` on. Each node enters the queue at most
-- once, when its last predecessor leaves it, so the number of nodes is enough fuel; `none` if the loop has
-- not ended within it.
unfoldable pub kahn : ℕ → List (List ℕ) → List ℕ → List ℕ → Option (List ℕ)
unfolding release
kahn fuel succs [] indeg = some []
kahn zero succs (u ∷ queue) indeg = none
kahn (suc fuel) succs (u ∷ queue) indeg =
    let (indeg', queue') = release (get_or succs u []) indeg queue in
    elim (kahn fuel succs queue' indeg') [ none ↦ none | some topo ↦ some (u ∷ topo) ]

-- if topo.len() < num_nodes { … }
unfoldable pub with_residue : ℕ → List ℕ → List ℕ
unfolding keep range_from
with_residue n topo =
    if ltb (length topo) n
    then topo ++ keep (λ v. if contains topo v then false else true) (range_from 0 n)
    else topo

unfoldable pub topo_order : ℕ → List (List ℕ) → List (List ℕ) → Option (List ℕ)
unfolding kahn with_residue keep range_from
topo_order n preds succs =
    let indeg = map length preds in
    elim (kahn n succs (keep (λ v. get_or indeg v 0 == 0) (range_from 0 n)) indeg) [
      | none ↦ none
      | some topo ↦ some (with_residue n topo)
    ]
