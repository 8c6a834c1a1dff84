-- ===== src/Fusion/Links/Sources.antt =====
-- The predecessors that `convex_groups` (fusion.rs) collects, against the lists of outputs of the nodes.
use onnx_vulkan_rs_edge.Prelude.{
  ℕ, suc, ◌≡◌, refl, ◌∙◌, ap, Bool, false, not, ◌&&◌, ◌||◌, List, [], ◌∷◌, get_or, length,
  if◌then◌else◌, Bool-cases, Option-cases, inl, inr, arith, Option, some, none, String, str_eq,
}
use text.Mathlib.TextEquality.{eq_iff}
use onnx_vulkan_rs_edge.Fusion.Topo.Kahn.{neighbours}
use onnx_vulkan_rs_edge.Fusion.Links.{
  Producers, lookup, insert_outputs, producers_from, producers, links,
}
use onnx_vulkan_rs_edge.Fusion.Links.Arcs.{sources_of, neighbours-links}

-- Whether a name is among the outputs of a node.
abbrev pub among : String → List String → Bool
among name [] = false
among name (o ∷ outs) = str_eq o name || among name outs

-- A named value is produced by a node that has it among its outputs; the empty name is no value.
abbrev pub produces : List String → String → Bool
produces outs name = not (str_eq name "") && among name outs

-- The last of the nodes, numbered from `i` on, that produces a value.
abbrev pub last_producer : ℕ → List (List String) → String → Option ℕ
last_producer i [] name = none
last_producer i (outs ∷ rest) name = elim (last_producer (suc i) rest name) [
  | some j ↦ some j
  | none ↦ if produces outs name then some i else none
]

-- The last producers of the values of a list, of those that have one.
abbrev pub producers_of : List (List String) → List String → List ℕ
producers_of node_outputs [] = []
producers_of node_outputs (name ∷ ins) = elim (last_producer 0 node_outputs name) [
  | none ↦ producers_of node_outputs ins
  | some u ↦ u ∷ producers_of node_outputs ins
]

lookup-insert_outputs :
    (i : ℕ) (outs : List String) (m : Producers) (name : String)
    → lookup name (insert_outputs i outs m) ≡ (if produces outs name then some i else lookup name m)
unfolding insert_outputs lookup
lookup-insert_outputs i [] m name = ground arith
lookup-insert_outputs i (o ∷ outs) m name = elim (Bool-cases (str_eq o name)) [
  | inl same ↦
      let e : str_eq o "" ≡ str_eq name "" =
        ap (λ (s : String). str_eq s "") ((eq_iff o name).0 same) in
      ground
        (arith, lookup-insert_outputs i outs m name, lookup-insert_outputs i outs ((o, i) ∷ m) name)
  | inr other ↦
      ground
        (arith, lookup-insert_outputs i outs m name, lookup-insert_outputs i outs ((o, i) ∷ m) name)
]

abbrev or_before : Option ℕ → Option ℕ → Option ℕ
or_before (some j) before = some j
or_before none before = before

lookup-producers_from :
    (i : ℕ) (rest : List (List String)) (m : Producers) (name : String)
    → lookup name (producers_from i rest m) ≡ or_before (last_producer i rest name) (lookup name m)
unfolding producers_from
lookup-producers_from i [] m name = refl
lookup-producers_from i (outs ∷ rest) m name =
    let later = lookup-producers_from (suc i) rest (insert_outputs i outs m) name in
    let here = lookup-insert_outputs i outs m name in
    elim (Option-cases (last_producer (suc i) rest name)) [
      | inr (j, found) ↦ rw found (later ∙ rw found refl)
      | inl absent ↦ rw absent (
          later
          ∙ rw absent (elim (Bool-cases (produces outs name)) [
            | inl made ↦ rw made (here ∙ rw made refl)
            | inr not_made ↦ rw not_made (here ∙ rw not_made refl)
          ]))
    ]

lookup-producers :
    (node_outputs : List (List String)) (name : String)
    → lookup name (producers node_outputs) ≡ last_producer 0 node_outputs name
unfolding producers lookup
lookup-producers node_outputs name =
    lookup-producers_from 0 node_outputs [] name
    ∙ elim (Option-cases (last_producer 0 node_outputs name)) [
      | inl absent ↦ rw absent refl
      | inr (j, found) ↦ rw found refl
    ]

sources_of-producers :
    (node_outputs : List (List String)) (ins : List String)
    → sources_of (producers node_outputs) ins ≡ producers_of node_outputs ins
sources_of-producers node_outputs [] = refl
sources_of-producers node_outputs (name ∷ ins) =
    let rest = sources_of-producers node_outputs ins in
    rw (sources_of, lookup-producers node_outputs name)
      (elim (Option-cases (last_producer 0 node_outputs name)) [
        | inl absent ↦ rw (absent, producers_of) rest
        | inr (j, found) ↦ rw (found, producers_of) (ap (λ us. j ∷ us) rest)
      ])

-- If the inputs and outputs have one entry for each of `n` nodes, the predecessors that `convex_groups`
-- collects for a node are, for its inputs in their order and with repetitions, the number of the last node
-- that has the input among its outputs, where there is one and the name is not empty.
pub links-preds :
    (n : ℕ) (node_inputs node_outputs : List (List String)) (supported : List Bool) (v : ℕ)
    → length node_inputs ≡ n
    → length node_outputs ≡ n
    → neighbours (links n node_inputs node_outputs supported).preds v
      ≡ producers_of node_outputs (get_or node_inputs v [])
links-preds n node_inputs node_outputs supported v li lo =
    neighbours-links n node_inputs node_outputs supported v li lo
    ∙ sources_of-producers node_outputs (get_or node_inputs v [])
