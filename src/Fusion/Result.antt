-- ===== src/Fusion/Result.antt =====
-- What the groups of `convex_groups` (fusion.rs) are.
use onnx_vulkan_rs_edge.Prelude.{
  get_elem?, subst, ℕ, zero, suc, ◌-◌, ◌≡◌, refl, sym, ◌∙◌, ap, Bool, true, ◌&&◌, List, [], ◌∷◌,
  length, ◌==◌, if◌then◌else◌, Bool-cases, Option-cases, inl, inr, arith, String, some,
}
use mathlib.Core.List.{reverse}
use onnx_vulkan_rs_edge.Fusion.Bits.{Bits, bit, contains, zero_bits}
use onnx_vulkan_rs_edge.Fusion.Links.{links, is_supported}
use onnx_vulkan_rs_edge.Fusion.Links.Bounds.{links-Edges}
use onnx_vulkan_rs_edge.Fusion.Topo.{topo_order}
use onnx_vulkan_rs_edge.Fusion.Sweep.{sweep, blank_rows}
use onnx_vulkan_rs_edge.Fusion.Sweep.Tables.{sweep-IsTable, blank_rows-IsTable}
use onnx_vulkan_rs_edge.Fusion.Merge.{Clusters, row, greedy}
use onnx_vulkan_rs_edge.Fusion.Merge.Invariant.{IsTable}
use onnx_vulkan_rs_edge.Fusion.Merge.Passes.{AllEdges, Ended, greedy-Ended, moved-le}
use onnx_vulkan_rs_edge.Fusion.Collect.{Groups, collect_from, values}
use onnx_vulkan_rs_edge.Fusion.Collect.Members.{
  total, total-collect_from, listed, group, group-collect_from, AllEntries, group-entries,
}
use onnx_vulkan_rs_edge.Fusion.Start.{initial-Inv}
use onnx_vulkan_rs_edge.Fusion.{initial, group_nodes, convex_groups}

abbrev pub AllGroups {ℓ} : (List ℕ → Type ℓ) → List (List ℕ) → Type ℓ
AllGroups P [] = Unit
AllGroups P (g ∷ gs) = P g × AllGroups P gs

-- A group is all the supported nodes that have one representative.
abbrev pub IsClass : (ℕ → Bool) → (ℕ → ℕ) → List ℕ → Type 0
IsClass sup rep g = (k : ℕ) × ((j : ℕ) → contains g j ≡ (sup j && rep j == k))

-- A group is convex if each node on a path between two of its members is a member.
abbrev pub IsConvex : (ℕ → ℕ → Type 0) → List ℕ → Type 0
IsConvex Before g =
    (x y z : ℕ)
    → contains g x ≡ true
    → contains g z ≡ true
    → Before x y
    → Before y z
    → contains g y ≡ true

module _ (n : ℕ) (Before : ℕ → ℕ → Type 0) (edges : List (ℕ × ℕ)) (supported : List Bool)
    (anc desc : List Bits) where
  -- What the second half of `convex_groups` relies on: the tables hold all that is before and behind
  -- each node, no two nodes are each before the other, and the edges join supported nodes.
  pub record IsPrepared : Type 0 where
    pub size : length supported ≡ n
    pub anc_table : IsTable n (length (zero_bits n)) anc
    pub desc_table : IsTable n (length (zero_bits n)) desc
    pub up : (x y : ℕ) → Before x y → bit (row anc y) x ≡ true
    pub down : (x y : ℕ) → Before x y → bit (row desc x) y ≡ true
    pub acyclic : (x y : ℕ) → Before x y → Before y x → ⊥
    pub joins : AllEdges n (length (zero_bits n)) (is_supported supported) Before edges

  abbrev pub IsEnd : Clusters → Type 0
  IsEnd d =
      Ended n (length (zero_bits n)) (is_supported supported) Before (λ x. x)
        (initial n supported anc desc) d edges

  pub ended :
      IsPrepared
      → (d : Clusters) × (greedy (suc n) edges (initial n supported anc desc) ≡ some d) × IsEnd d
  ended h =
      greedy-Ended n (length (zero_bits n)) (is_supported supported) Before (suc n) edges
        (initial n supported anc desc) (omega arith)
        (initial-Inv n supported h.size Before anc desc h.anc_table h.desc_table h.up h.down
          h.acyclic)
        h.joins

  abbrev pub groups_of : IsPrepared → List (List ℕ)
  groups_of h = values (collect_from 0 supported (ended h).0.uf [])

  pub group_nodes-lem :
      (h : IsPrepared) → group_nodes n edges supported anc desc ≡ some (groups_of h)
  unfolding group_nodes
  group_nodes-lem h = rw (group_nodes, (ended h).1) refl

  listed-all : (j : ℕ) → listed 0 supported j ≡ is_supported supported j
  listed-all j = let e : j - 0 ≡ j = omega arith in rw e (ground arith)

  pub groups_partition :
      (h : IsPrepared) (j : ℕ) → total j (groups_of h) ≡ (if is_supported supported j then 1 else 0)
  groups_partition h j =
      ground (arith, total-collect_from j 0 supported (ended h).0.uf [], listed-all j)

  classes-from :
      (rep : ℕ → ℕ) (m es : Groups)
      → ((k j : ℕ) → contains (group k m) j ≡ (is_supported supported j && rep j == k))
      → AllEntries (λ k ms. group k m ≡ ms) es
      → AllGroups (IsClass (is_supported supported) rep) (values es)
  classes-from rep m [] h a = tt
  classes-from rep m ((k, ms) ∷ es) h a =
      ((k, λ j. rw (← a.0) (h k j)), classes-from rep m es h a.1)

  classes :
      (h : IsPrepared) → AllGroups (IsClass (is_supported supported) (ended h).2.rep') (groups_of h)
  classes h =
      let end = (ended h).2 in
      let uf = (ended h).0.uf in
      let m = collect_from 0 supported uf [] in
      let found = λ (k j : ℕ).
        group-collect_from 0 supported uf [] k j (moved-le end.rep' n) end.inv.forest tt in
      classes-from end.rep' m m
        (λ k j. (found k j).0 ∙ ap (λ (b : Bool). b && end.rep' j == k) (listed-all j))
        (group-entries 0 m (found 0 0).1)

  module _ (h : IsPrepared) where
    -- A node and its representative's other nodes are all supported, if one of them is.
    supported_with :
        (x y : ℕ)
        → (ended h).2.rep' x ≡ (ended h).2.rep' y
        → is_supported supported x ≡ true
        → is_supported supported y ≡ true
    supported_with x y e sx = elim (Bool-cases (is_supported supported y)) [
      | inl on ↦ on
      | inr off ↦
          let same = (ended h).2.inv.alone y x off e in
          absurd (ground (arith, ap (is_supported supported) same))
    ]

    class-IsConvex :
        (g : List ℕ) → IsClass (is_supported supported) (ended h).2.rep' g → IsConvex Before g
    class-IsConvex g (k, c) x y z gx gz xy yz =
        let rep = (ended h).2.rep' in
        let rx : rep x ≡ k = ground (arith, c x) in
        let rz : rep z ≡ k = ground (arith, c z) in
        let e : rep x ≡ rep y = (ended h).2.inv.untangled x y z y xy yz (rx ∙ sym rz) refl in
        let sy = supported_with x y e (ground (arith, c x)) in ground (arith, c y)

    -- Of two groups, if each has a node before a node of the other, the groups have the same nodes.
    abbrev pub IsUntangled : List ℕ → List ℕ → Type 0
    IsUntangled g g' =
        (x y x' y' : ℕ)
        → contains g x ≡ true
        → contains g x' ≡ true
        → contains g' y ≡ true
        → contains g' y' ≡ true
        → Before x y
        → Before y' x'
        → (j : ℕ) → contains g j ≡ contains g' j

    class-IsUntangled :
        (g g' : List ℕ)
        → IsClass (is_supported supported) (ended h).2.rep' g
        → IsClass (is_supported supported) (ended h).2.rep' g'
        → IsUntangled g g'
    class-IsUntangled g g' (k, c) (k', c') x y x' y' gx gx' gy gy' xy yx' j =
        let rep = (ended h).2.rep' in
        let rx : rep x ≡ k = ground (arith, c x) in
        let rx' : rep x' ≡ k = ground (arith, c x') in
        let ry : rep y ≡ k' = ground (arith, c' y) in
        let ry' : rep y' ≡ k' = ground (arith, c' y') in
        let e : rep x ≡ rep y =
          (ended h).2.inv.untangled x y x' y' xy yx' (rx ∙ sym rx') (ry ∙ sym ry') in
        let same : k ≡ k' = sym rx ∙ e ∙ ry in ground (arith, c j, c' j)

    all_groups {ℓ κ} :
        {P : List ℕ → Type ℓ} {Q : List ℕ → Type κ} (gs : List (List ℕ))
        → ((g : List ℕ) → P g → Q g)
        → AllGroups P gs
        → AllGroups Q gs
    all_groups [] f a = tt
    all_groups (g ∷ gs) f a = (f g a.0, all_groups gs f a.1)

    group_at {ℓ} :
        (P : List ℕ → Type ℓ) (gs : List (List ℕ)) (i : ℕ) {g : List ℕ}
        → AllGroups P gs
        → get_elem? gs i ≡ some g
        → P g
    group_at P [] i a e = absurd (ground arith)
    group_at P (g ∷ gs) zero {g = found} a e =
        let same : g ≡ found = ground arith in subst P same a.0
    group_at P (g ∷ gs) (suc i) a e = group_at P gs i a.1 e

    -- If the tables hold all that is before and behind each node, no two nodes are each before the
    -- other, and the edges join supported nodes, then each group is convex: a node after one of its
    -- members and before another of them is a member.
    pub groups_convex :
        (i : ℕ) {g : List ℕ} (x y z : ℕ)
        → get_elem? (groups_of h) i ≡ some g
        → contains g x ≡ true
        → contains g z ≡ true
        → Before x y
        → Before y z
        → contains g y ≡ true
    groups_convex i {g} x y z at gx gz xy yz =
        let gs = groups_of h in class-IsConvex g (group_at _ gs i (classes h) at) x y z gx gz xy yz

    -- If the tables hold all that is before and behind each node, no two nodes are each before the
    -- other, and the edges join supported nodes, then of two groups each of which has a node before a
    -- node of the other, both have the same nodes: no two groups depend on each other.
    pub groups_untangled :
        (i i' : ℕ) {g g' : List ℕ} (x y x' y' j : ℕ)
        → get_elem? (groups_of h) i ≡ some g
        → get_elem? (groups_of h) i' ≡ some g'
        → contains g x ≡ true
        → contains g x' ≡ true
        → contains g' y ≡ true
        → contains g' y' ≡ true
        → Before x y
        → Before y' x'
        → contains g j ≡ contains g' j
    groups_untangled i i' {g} {g'} x y x' y' j at at' gx gx' gy gy' xy yx' =
        let gs = groups_of h in
        let c = classes h in
        class-IsUntangled g g' (group_at _ gs i c at) (group_at _ gs i' c at') x y x' y' gx gx' gy
          gy' xy yx' j

-- If the lists of inputs, outputs and flags have one entry for each of the `n` nodes and
-- `convex_groups` returns, each supported node stands exactly once in exactly one of the groups, and
-- no other node in any.
pub convex_groups_partition :
    (n : ℕ) (node_inputs node_outputs : List (List String)) (supported : List Bool)
    (groups : List (List ℕ)) (j : ℕ)
    → length node_inputs ≡ n
    → length node_outputs ≡ n
    → length supported ≡ n
    → convex_groups n node_inputs node_outputs supported ≡ some groups
    → total j groups ≡ (if is_supported supported j then 1 else 0)
unfolding convex_groups
convex_groups_partition n ins outs supported groups j li lo ls e =
    let l = links n ins outs supported in
    elim (Option-cases (topo_order n l.preds l.succs)) [
      | inl stop ↦ absurd (ground arith)
      | inr (topo, et) ↦ elim (Option-cases (sweep l.preds topo (blank_rows n))) [
        | inl stop ↦ absurd (ground arith)
        | inr (anc, ea) ↦ elim (Option-cases (sweep l.succs (reverse topo) (blank_rows n))) [
          | inl stop ↦ absurd (ground arith)
          | inr (desc, ed) ↦
              let prepared : IsPrepared n (λ x y. ⊥) l.edges supported anc desc = record {
                size = ls;
                anc_table = sweep-IsTable l.preds topo (blank_rows n) (blank_rows-IsTable n) ea;
                desc_table =
                    sweep-IsTable l.succs (reverse topo) (blank_rows n) (blank_rows-IsTable n) ed;
                up = λ x y b. absurd b;
                down = λ x y b. absurd b;
                acyclic = λ x y b. absurd b;
                joins = links-Edges n (length (zero_bits n)) supported (λ x y. ⊥) ins outs li lo;
              } in
              let same : groups_of n (λ x y. ⊥) l.edges supported anc desc prepared ≡ groups =
                ground (arith, group_nodes-lem n (λ x y. ⊥) l.edges supported anc desc prepared) in
              rw (← same) (groups_partition n (λ x y. ⊥) l.edges supported anc desc prepared j)
        ]
      ]
    ]
