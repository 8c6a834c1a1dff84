-- ===== src/Fusion.antt =====
-- crates/onnx-vulkan-core/src/fusion.rs: the partition of the supported nodes of a graph into convex
-- groups. The children model its parts in the order of the source, and prove what they do.
pub mod Bits
pub mod UnionFind
pub mod Merge
pub mod Links
pub mod Topo
pub mod Sweep
pub mod Collect
pub mod Start
pub mod Result
pub mod Acyclic
use mathlib.Core.List.{reverse}
use onnx_vulkan_rs_edge.Prelude.{
  ℕ, suc, Bool, true, false, List, [], ◌∷◌, String, Option, none, some,
}
use onnx_vulkan_rs_edge.Fusion.Bits.{zero_bits, set_bit}
use onnx_vulkan_rs_edge.Fusion.UnionFind.{new}
use onnx_vulkan_rs_edge.Fusion.Merge.{Clusters, greedy}
use onnx_vulkan_rs_edge.Fusion.Links.{links}
use onnx_vulkan_rs_edge.Fusion.Topo.{topo_order}
use onnx_vulkan_rs_edge.Fusion.Sweep.{sweep, blank_rows, ◌>>=◌}
use onnx_vulkan_rs_edge.Fusion.Collect.{collect_from, values}

-- for (i, &sup) in supported.iter().enumerate() { if sup { set_bit(&mut s[i], i); } }
unfoldable pub members_from : ℕ → List Bool → Bits.Bits → List Bits.Bits
members_from i [] b = []
members_from i (true ∷ supported) b = set_bit b i ∷ members_from (suc i) supported b
members_from i (false ∷ supported) b = b ∷ members_from (suc i) supported b

-- The state of the union-find and the clusters before the first pass.
unfoldable pub initial : ℕ → List Bool → List Bits.Bits → List Bits.Bits → Clusters
unfolding members_from
initial n supported anc desc = record {
  uf = new n;
  s = members_from 0 supported (zero_bits n);
  canc = anc;
  cdesc = desc;
}

-- From the union-find on: the passes, and the groups. Each pass but the last merges, so one more pass
-- than nodes is enough fuel; `none` if they have not ended within it.
unfoldable pub group_nodes :
    ℕ → List (ℕ × ℕ) → List Bool → List Bits.Bits → List Bits.Bits → Option (List (List ℕ))
unfolding initial
group_nodes num_nodes edges supported anc desc =
    elim (greedy (suc num_nodes) edges (initial num_nodes supported anc desc)) [
      | none ↦ none
      | some merged ↦ some (values (collect_from 0 supported merged.uf []))
    ]

-- `none` is a panic, or a loop that has not ended within its fuel.
unfoldable pub convex_groups :
    ℕ → List (List String) → List (List String) → List Bool → Option (List (List ℕ))
unfolding group_nodes
convex_groups num_nodes node_inputs node_outputs supported =
    let l = links num_nodes node_inputs node_outputs supported in
    do
      topo ← topo_order num_nodes l.preds l.succs
      anc ← sweep l.preds topo (blank_rows num_nodes)
      desc ← sweep l.succs (reverse topo) (blank_rows num_nodes)
      group_nodes num_nodes l.edges supported anc desc
