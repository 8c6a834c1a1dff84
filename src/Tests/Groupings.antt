-- ===== src/Tests/Groupings.antt =====
-- Instances of the theorems on the groups of fusion.rs, on the graph 0 → 1 → 2 with 0 → 2.
use onnx_vulkan_rs_edge.Prelude.{
  String, some, ℕ, zero, suc, ◌≡◌, ◌<◌, refl, Bool, true, false, List, [], ◌∷◌, arith, length,
  if◌then◌else◌,
}
use onnx_vulkan_rs_edge.Fusion.Bits.{Bits, contains, zero_bits, set_bit, bit, or_into}
use onnx_vulkan_rs_edge.Fusion.Links.{is_supported, links}
use onnx_vulkan_rs_edge.Fusion.Topo.{topo_order}
use onnx_vulkan_rs_edge.Fusion.Sweep.{sweep}
use onnx_vulkan_rs_edge.Fusion.Merge.{Clusters, row, try_merge, attempt, pass, greedy}
use onnx_vulkan_rs_edge.Fusion.Merge.Invariant.{IsTable}
use onnx_vulkan_rs_edge.Fusion.Merge.Passes.{Ended, greedy-Ended}
use onnx_vulkan_rs_edge.Fusion.Start.{initial-Inv}
use onnx_vulkan_rs_edge.Fusion.{convex_groups, group_nodes, initial}
use onnx_vulkan_rs_edge.Fusion.Result.{IsPrepared, convex_groups_partition}
use onnx_vulkan_rs_edge.Fusion.Acyclic.{
  convex_groups-returns, convex_groups-convex, convex_groups-untangled,
}
use onnx_vulkan_rs_edge.Fusion.Links.Sources.{producers_of, links-preds}
use onnx_vulkan_rs_edge.Fusion.Topo.Kahn.{neighbours}
use onnx_vulkan_rs_edge.Fusion.Sweep.Complete.{arc}
use onnx_vulkan_rs_edge.Fusion.Collect.{collect_from}
use onnx_vulkan_rs_edge.Fusion.Collect.Members.{total}
use onnx_vulkan_rs_edge.Fusion.Bits.{set_bits_outside}
use onnx_vulkan_rs_edge.Fusion.UnionFind.{new, find, find_with}
use onnx_vulkan_rs_edge.Fusion.UnionFind.Forest.{IsForest}
use onnx_vulkan_rs_edge.Fusion.UnionFind.Link.{link, link-IsForest, new-IsForest}
use onnx_vulkan_rs_edge.Fusion.UnionFind.Ends.{find_with_more}

-- 0 → 1 → 2 and 0 → 2.
data Before : ℕ → ℕ → Type 0 where
  first : Before 0 1
  second : Before 1 2
  both : Before 0 2

abbrev flags : List Bool
flags = true ∷ true ∷ true ∷ []

abbrev arcs : List (ℕ × ℕ)
arcs = (0, 1) ∷ (1, 2) ∷ (0, 2) ∷ []

abbrev above : List Bits
above = zero_bits 3 ∷ set_bit (zero_bits 3) 0 ∷ set_bit (set_bit (zero_bits 3) 0) 1 ∷ []

abbrev below : List Bits
below = set_bit (set_bit (zero_bits 3) 1) 2 ∷ set_bit (zero_bits 3) 2 ∷ zero_bits 3 ∷ []

three-IsTable :
    (w : ℕ) (a b c : Bits)
    → length a ≡ w
    → length b ≡ w
    → length c ≡ w
    → IsTable 3 w (a ∷ b ∷ c ∷ [])
three-IsTable w a b c ea eb ec = record { size = refl; width = three_rows }
  where
    three_rows : (i : ℕ) → i < 3 → length (row (a ∷ b ∷ c ∷ []) i) ≡ w
    three_rows zero h = ea
    three_rows (suc zero) h = eb
    three_rows (suc (suc zero)) h = ec
    three_rows (suc (suc (suc i))) h = absurd (omega arith)

table_above : (x y : ℕ) → Before x y → bit (row above y) x ≡ true
unfolding set_bit zero_bits
table_above _ _ first = refl
table_above _ _ second = refl
table_above _ _ both = refl

table_below : (x y : ℕ) → Before x y → bit (row below x) y ≡ true
unfolding set_bit zero_bits
table_below _ _ first = refl
table_below _ _ second = refl
table_below _ _ both = refl

ascends : (x y : ℕ) → Before x y → x < y
ascends _ _ first = omega arith
ascends _ _ second = omega arith
ascends _ _ both = omega arith

one_way : (x y : ℕ) → Before x y → Before y x → ⊥
one_way x y h h' = omega (arith, ascends x y h, ascends y x h')

prepared : IsPrepared 3 Before arcs flags above below
unfolding set_bit zero_bits
prepared = record {
  size = refl;
  anc_table =
      three-IsTable 64 (zero_bits 3) (set_bit (zero_bits 3) 0) (set_bit (set_bit (zero_bits 3) 0) 1)
        refl refl refl;
  desc_table =
      three-IsTable 64 (set_bit (set_bit (zero_bits 3) 1) 2) (set_bit (zero_bits 3) 2) (zero_bits 3)
        refl refl refl;
  up = table_above;
  down = table_below;
  acyclic = one_way;
  joins = (
    (omega arith, omega arith, refl, refl),
    ((omega arith, omega arith, refl, refl), ((omega arith, omega arith, refl, refl), tt)),
  );
}

convex_groups_partition_example :
    total 2 ((0 ∷ []) ∷ (2 ∷ []) ∷ [])
    ≡ (if is_supported (true ∷ false ∷ true ∷ []) 2 then 1 else 0)
unfolding convex_groups sweep topo_order links group_nodes find greedy pass attempt new try_merge
    set_bits_outside set_bit zero_bits initial collect_from or_into
convex_groups_partition_example =
    convex_groups_partition 3 ([] ∷ ("a" ∷ []) ∷ ("a" ∷ "b" ∷ []) ∷ [])
      (("a" ∷ []) ∷ ("b" ∷ []) ∷ ("c" ∷ []) ∷ []) (true ∷ false ∷ true ∷ [])
      ((0 ∷ []) ∷ (2 ∷ []) ∷ []) 2 refl refl refl refl

greedy-Ended_example :
    (d : Clusters) × (greedy 4 arcs (initial 3 flags above below) ≡ some d)
    × Ended 3
        (length (zero_bits 3))
        (is_supported flags)
        Before
        (λ x. x)
        (initial 3 flags above below)
        d
        arcs
greedy-Ended_example =
    greedy-Ended 3 (length (zero_bits 3)) (is_supported flags) Before 4 arcs
      (initial 3 flags above below) (omega arith)
      (initial-Inv 3 flags refl Before above below prepared.anc_table prepared.desc_table
        prepared.up prepared.down prepared.acyclic)
      prepared.joins

-- 2 under 1 under 0, by two joins of three single nodes
chain-IsForest : IsForest 3 (link (link (λ x. x) 1 2) 0 1) 2 (0 ∷ 0 ∷ 1 ∷ [])
unfolding new
chain-IsForest = link-IsForest {k = 1} 0 1 (omega arith) (omega arith) refl refl (ground arith) (
    link-IsForest {k = 0} 1 2 (omega arith) (omega arith) refl refl (ground arith) (new-IsForest 3))

find_with_more_example :
    (find_with 8 (0 ∷ 0 ∷ 1 ∷ []) 2 ≡ some (find (0 ∷ 0 ∷ 1 ∷ []) 2))
    × ((find (0 ∷ 0 ∷ 1 ∷ []) 2).0 ≡ 0)
find_with_more_example = find_with_more 4 2 (omega arith) chain-IsForest

-- The same graph from its values: a from 0 to 1 and 2, b from 1 to 2.
abbrev inputs : List (List String)
inputs = [] ∷ ("a" ∷ []) ∷ ("b" ∷ "a" ∷ []) ∷ []

abbrev outputs : List (List String)
outputs = ("a" ∷ []) ∷ ("b" ∷ []) ∷ ("c" ∷ []) ∷ []

ascending :
    (u v : ℕ) → contains (neighbours (links 3 inputs outputs flags).preds v) u ≡ true → u < v
unfolding links
ascending u zero h = absurd (ground arith)
ascending u (suc zero) h = ground arith
ascending u (suc (suc zero)) h = ground arith
ascending u (suc (suc (suc v))) h = absurd (ground arith)

convex_groups-returns_example :
    (groups : List (List ℕ)) × (convex_groups 3 inputs outputs flags ≡ some groups)
convex_groups-returns_example =
    convex_groups-returns 3 inputs outputs flags (λ v. v) refl refl refl ascending

convex_groups-convex_example : contains (0 ∷ 1 ∷ 2 ∷ []) 1 ≡ true
unfolding convex_groups sweep topo_order links group_nodes find greedy pass attempt new try_merge
    set_bits_outside set_bit zero_bits initial collect_from or_into
convex_groups-convex_example =
    convex_groups-convex 3 inputs outputs flags (λ v. v) refl refl refl ascending 0
      {groups = (0 ∷ 1 ∷ 2 ∷ []) ∷ []} 0 1 2 refl refl refl refl (arc refl) (arc refl)

convex_groups-untangled_example : contains (0 ∷ 1 ∷ 2 ∷ []) 2 ≡ contains (0 ∷ 1 ∷ 2 ∷ []) 2
unfolding convex_groups sweep topo_order links group_nodes find greedy pass attempt new try_merge
    set_bits_outside set_bit zero_bits initial collect_from or_into
convex_groups-untangled_example =
    convex_groups-untangled 3 inputs outputs flags (λ v. v) refl refl refl ascending 0 0
      {groups = (0 ∷ 1 ∷ 2 ∷ []) ∷ []} 0 1 2 1 2 refl refl refl refl refl refl refl (arc refl)
      (arc refl)

links-preds_example :
    neighbours (links 3 inputs outputs flags).preds 2 ≡ producers_of outputs ("b" ∷ "a" ∷ [])
links-preds_example = links-preds 3 inputs outputs flags 2 refl refl
