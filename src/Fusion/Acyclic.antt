-- ===== src/Fusion/Acyclic.antt =====
-- `convex_groups` (fusion.rs) on a graph without cycles: from the inputs to the groups.
use mathlib.Core.List.{reverse}
use onnx_vulkan_rs_edge.Prelude.{
  ℕ, ◌+◌, ◌≤◌, ◌<◌, ◌/◌, ◌*◌, ◌≡◌, sym, ◌∙◌, subst, Bool, true, false, List, [], get_elem?,
  get_or-beyond, length, length-replicate, Bool-cases, inl, inr, arith, some, String,
}
use onnx_vulkan_rs_edge.Fusion.Bits.{Bits, bit, contains, words, zero_bits}
use onnx_vulkan_rs_edge.Fusion.Merge.{row}
use onnx_vulkan_rs_edge.Fusion.Links.{Links, links}
use onnx_vulkan_rs_edge.Fusion.Links.Bounds.{links-Edges}
use onnx_vulkan_rs_edge.Fusion.Links.Arcs.{IsLinked, links-IsLinked}
use onnx_vulkan_rs_edge.Fusion.Topo.Kahn.{contains-times, neighbours}
use onnx_vulkan_rs_edge.Fusion.Topo.Order.{
  IsRanked, below-contains, topo_order-lem, order, order-Sorted, order_all, reverse-order-Sorted,
  reverse-order_all,
}
use onnx_vulkan_rs_edge.Fusion.Sweep.{sweep, blank_rows}
use onnx_vulkan_rs_edge.Fusion.Sweep.Tables.{sweep-IsTable, blank_rows-IsTable}
use onnx_vulkan_rs_edge.Fusion.Sweep.Complete.{PathTo, arc, step, sweep_complete}
use onnx_vulkan_rs_edge.Fusion.{convex_groups}
use onnx_vulkan_rs_edge.Fusion.Result.{
  IsPrepared, groups_of, group_nodes-lem, groups_convex, groups_untangled,
}

wide_enough : (n : ℕ) → n ≤ length (zero_bits n)
unfolding zero_bits words
wide_enough n = omega (arith, length-replicate (64 * ((n + 63) / 64)) false)

path-from : {rows : List (List ℕ)} {x u y : ℕ} → PathTo rows x u → PathTo rows u y → PathTo rows x y
path-from p (arc h) = step p h
path-from p (step q h) = step (path-from p q) h

module _ {n : ℕ} {preds succs : List (List ℕ)} {rank : ℕ → ℕ}
    (g : IsRanked n preds succs rank) where
  flip : (u v : ℕ) → contains (neighbours preds v) u ≡ true → contains (neighbours succs u) v ≡ true
  flip u v h = ground (
    arith,
    contains-times u (neighbours preds v),
    contains-times v (neighbours succs u),
    g.dual u v,
  )

  flip_back :
      (u v : ℕ) → contains (neighbours succs u) v ≡ true → contains (neighbours preds v) u ≡ true
  flip_back u v h = ground (
    arith,
    contains-times u (neighbours preds v),
    contains-times v (neighbours succs u),
    g.dual u v,
  )

  -- A path backwards.
  turn : {x y : ℕ} → PathTo preds x y → PathTo succs y x
  turn {x = x} {y = y} (arc h) = arc (flip x y h)
  turn {x = x} {y = y} (step {u = u} p h) = path-from (arc (flip u y h)) (turn p)

  path-climbs : {x y : ℕ} → PathTo preds x y → rank x < rank y
  path-climbs {x = x} {y = y} (arc h) = g.ascends x y h
  path-climbs {x = x} {y = y} (step {u = u} p h) = omega (arith, path-climbs p, g.ascends u y h)

  path-below : {x y : ℕ} → PathTo preds x y → (x < n) × (y < n)
  path-below {x = x} {y = y} (arc h) =
      (g.inside x y h, below-contains n (neighbours succs x) y (g.below x) (flip x y h))
  path-below {x = x} {y = y} (step {u = u} p h) =
      ((path-below p).0, below-contains n (neighbours succs u) y (g.below u) (flip u y h))

module _ (n : ℕ) (node_inputs node_outputs : List (List String)) (supported : List Bool)
    (rank : ℕ → ℕ) (li : length node_inputs ≡ n) (lo : length node_outputs ≡ n)
    (ls : length supported ≡ n)
    (ascends : (u v : ℕ)
      → contains (neighbours (links n node_inputs node_outputs supported).preds v) u ≡ true
      → rank u < rank v) where
  abbrev graph : Links
  graph = links n node_inputs node_outputs supported

  linked : IsLinked n supported graph
  linked = links-IsLinked n supported node_inputs node_outputs li lo

  ranked : IsRanked n graph.preds graph.succs rank
  ranked = record {
    size = linked.preds_size;
    below = linked.succs_below;
    dual = linked.dual;
    inside = λ u v h. below-contains n (neighbours graph.preds v) u (linked.preds_below v) h;
    ascends = ascends;
  }

  abbrev topo : List ℕ
  topo = order ranked

  loopless : (v : ℕ) → contains (neighbours graph.preds v) v ≡ false
  loopless v = elim (Bool-cases (contains (neighbours graph.preds v) v)) [
    | inl loop ↦ absurd (omega (arith, ascends v v loop))
    | inr none' ↦ none'
  ]

  loopless_back : (v : ℕ) → contains (neighbours graph.succs v) v ≡ false
  loopless_back v = elim (Bool-cases (contains (neighbours graph.succs v) v)) [
    | inl loop ↦ absurd (omega (arith, ascends v v (flip_back ranked v v loop)))
    | inr none' ↦ none'
  ]

  ancestors :
      (anc : List Bits) × (sweep graph.preds topo (blank_rows n) ≡ some anc)
      × ((v x : ℕ) → contains topo v ≡ true → PathTo graph.preds x v → bit (row anc v) x ≡ true)
  ancestors =
      sweep_complete n (length (zero_bits n)) (wide_enough n) graph.preds linked.preds_below
        (λ v h. get_or-beyond graph.preds v [] (omega (arith, linked.preds_size))) loopless topo []
        (blank_rows n) (blank_rows-IsTable n) (order-Sorted ranked)
        (λ v x h p. absurd (ground arith))

  descendants :
      (desc : List Bits) × (sweep graph.succs (reverse topo) (blank_rows n) ≡ some desc)
      × ((v x : ℕ)
          → contains (reverse topo) v ≡ true
          → PathTo graph.succs x v
          → bit (row desc v) x ≡ true)
  descendants =
      sweep_complete n (length (zero_bits n)) (wide_enough n) graph.succs linked.succs_below
        (λ v h. get_or-beyond graph.succs v [] (omega (arith, linked.succs_size))) loopless_back
        (reverse topo) [] (blank_rows n) (blank_rows-IsTable n) (reverse-order-Sorted ranked)
        (λ v x h p. absurd (ground arith))

  prepared : IsPrepared n (PathTo graph.preds) graph.edges supported ancestors.0 descendants.0
  prepared = record {
    size = ls;
    anc_table = sweep-IsTable graph.preds topo (blank_rows n) (blank_rows-IsTable n) ancestors.1;
    desc_table =
        sweep-IsTable graph.succs (reverse topo) (blank_rows n) (blank_rows-IsTable n)
          descendants.1;
    up = λ x y p. ancestors.2 y x (order_all ranked y (path-below ranked p).1) p;
    down = λ x y p.
        descendants.2 x y (reverse-order_all ranked x (path-below ranked p).0) (turn ranked p);
    acyclic = λ x y p q. omega (arith, path-climbs ranked p, path-climbs ranked q);
    joins =
        links-Edges n (length (zero_bits n)) supported (PathTo graph.preds) node_inputs node_outputs
          li lo;
  }

  abbrev grouped : List (List ℕ)
  grouped =
      groups_of n (PathTo graph.preds) graph.edges supported ancestors.0 descendants.0 prepared

  convex_groups-lem : convex_groups n node_inputs node_outputs supported ≡ some grouped
  unfolding convex_groups
  convex_groups-lem =
      rw (topo_order-lem ranked, ancestors.1, descendants.1)
        (group_nodes-lem n (PathTo graph.preds) graph.edges supported ancestors.0 descendants.0
          prepared)

  -- If the inputs, outputs and flags have one entry for each of the `n` nodes, and the arcs ascend in
  -- some ranking of the nodes, `convex_groups` returns: no assertion fails, and Kahn's loop and the passes
  -- end within their fuel, each by its own test.
  pub convex_groups-returns :
      (groups : List (List ℕ)) × (convex_groups n node_inputs node_outputs supported ≡ some groups)
  convex_groups-returns = (grouped, convex_groups-lem)

  group_nodes-convex_groups :
      {groups : List (List ℕ)}
      → convex_groups n node_inputs node_outputs supported ≡ some groups
      → groups ≡ grouped
  group_nodes-convex_groups e = let same = sym e ∙ convex_groups-lem in ground arith

  -- If the inputs, outputs and flags have one entry for each of the `n` nodes, and the arcs ascend in
  -- some ranking of the nodes, each group that `convex_groups` returns is convex: a node on a path from
  -- one of its members to another is a member.
  pub convex_groups-convex :
      (i : ℕ) {groups : List (List ℕ)} {g : List ℕ} (x y z : ℕ)
      → convex_groups n node_inputs node_outputs supported ≡ some groups
      → get_elem? groups i ≡ some g
      → contains g x ≡ true
      → contains g z ≡ true
      → PathTo graph.preds x y
      → PathTo graph.preds y z
      → contains g y ≡ true
  convex_groups-convex i {g = g} x y z e at gx gz xy yz =
      let here = subst (λ gs. get_elem? gs i ≡ some g) (group_nodes-convex_groups e) at in
      groups_convex n (PathTo graph.preds) graph.edges supported ancestors.0 descendants.0 prepared
        i x y z here gx gz xy yz

  -- If the inputs, outputs and flags have one entry for each of the `n` nodes, and the arcs ascend in
  -- some ranking of the nodes, then of two groups that `convex_groups` returns, each with a path from one
  -- of its members to a member of the other, both have the same nodes.
  pub convex_groups-untangled :
      (i i' : ℕ) {groups : List (List ℕ)} {g g' : List ℕ} (x y x' y' j : ℕ)
      → convex_groups n node_inputs node_outputs supported ≡ some groups
      → get_elem? groups i ≡ some g
      → get_elem? groups i' ≡ some g'
      → contains g x ≡ true
      → contains g x' ≡ true
      → contains g' y ≡ true
      → contains g' y' ≡ true
      → PathTo graph.preds x y
      → PathTo graph.preds y' x'
      → contains g j ≡ contains g' j
  convex_groups-untangled i i' {g = g} {g' = g'} x y x' y' j e at at' gx gx' gy gy' xy yx =
      let same = group_nodes-convex_groups e in
      groups_untangled n (PathTo graph.preds) graph.edges supported ancestors.0 descendants.0
        prepared i i' x y x' y' j (subst (λ gs. get_elem? gs i ≡ some g) same at)
        (subst (λ gs. get_elem? gs i' ≡ some g') same at') gx gx' gy gy' xy yx
