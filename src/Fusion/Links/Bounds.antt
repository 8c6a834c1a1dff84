-- ===== src/Fusion/Links/Bounds.antt =====
-- The edges that `convex_groups` (fusion.rs) collects join supported nodes.
use onnx_vulkan_rs_edge.Prelude.{
  ℕ, suc, ◌+◌, ◌≤◌, ◌<◌, ◌≡◌, refl, Bool, ◌&&◌, List, [], ◌∷◌, ◌++◌, length, Bool-cases, inl, inr,
  arith, Option, some, none, String, str_eq,
}
use onnx_vulkan_rs_edge.Fusion.Links.{
  Producers, Links, lookup, insert_outputs, producers_from, producers, is_supported, add_arc,
  link_found, link_inputs, link_nodes, links,
}
use onnx_vulkan_rs_edge.Fusion.Merge.Passes.{IsEdge, AllEdges}

abbrev pub AllBelow : ℕ → Producers → Type 0
AllBelow n [] = Unit {0}
AllBelow n ((key, i) ∷ m) = (i < n) × AllBelow n m

pub lookup-below :
    (n : ℕ) (name : String) (m : Producers) {i : ℕ} → AllBelow n m → lookup name m ≡ some i → i < n
unfolding lookup
lookup-below n name [] a e = ground arith
lookup-below n name ((key, k) ∷ m) a e = elim (Bool-cases (str_eq key name)) [
  | inl same ↦ ground arith
  | inr other ↦ lookup-below n name m a.1 (ground arith)
]

insert_outputs-below :
    (n i : ℕ) (outs : List String) (m : Producers)
    → i < n
    → AllBelow n m
    → AllBelow n (insert_outputs i outs m)
unfolding insert_outputs
insert_outputs-below n i [] m lt a = a
insert_outputs-below n i (o ∷ outs) m lt a = elim (Bool-cases (str_eq o "")) [
  | inl same ↦ rw (same, insert_outputs) (insert_outputs-below n i outs m lt a)
  | inr other ↦ rw (other, insert_outputs) (insert_outputs-below n i outs ((o, i) ∷ m) lt (lt, a))
]

pub producers_from-below :
    (n i : ℕ) (rest : List (List String)) (m : Producers)
    → i + length rest ≤ n
    → AllBelow n m
    → AllBelow n (producers_from i rest m)
unfolding producers_from
producers_from-below n i [] m b a = a
producers_from-below n i (outs ∷ rest) m b a =
    producers_from-below n (suc i) rest (insert_outputs i outs m) (omega arith)
      (insert_outputs-below n i outs m (omega arith) a)

module _ (n w : ℕ) (supported : List Bool) (Before : ℕ → ℕ → Type 0) where
  abbrev Edges : List (ℕ × ℕ) → Type 0
  Edges = AllEdges n w (is_supported supported) Before

  Edges-append :
      (es : List (ℕ × ℕ)) (e : ℕ × ℕ)
      → Edges es
      → IsEdge n w (is_supported supported) Before e
      → Edges (es ++ e ∷ [])
  Edges-append [] e a h = (h, tt)
  Edges-append (x ∷ es) e a h = (a.0, Edges-append es e a.1 h)

  link_found-Edges :
      (v : ℕ) (found : Option ℕ) (l : Links)
      → v < n
      → ((u : ℕ) → found ≡ some u → u < n)
      → Edges l.edges
      → Edges (link_found supported v found l).edges
  unfolding link_found add_arc
  link_found-Edges v none l lt b a = a
  link_found-Edges v (some u) l lt b a =
      elim (Bool-cases (is_supported supported u && is_supported supported v)) [
        | inl both ↦
            rw both (Edges-append l.edges (u, v) a (b u refl, lt, ground arith, ground arith))
        | inr not_both ↦ rw not_both a
      ]

  link_inputs-Edges :
      (m : Producers) (v : ℕ) (ins : List String) (l : Links)
      → AllBelow n m
      → v < n
      → Edges l.edges
      → Edges (link_inputs m supported v ins l).edges
  unfolding link_inputs
  link_inputs-Edges m v [] l b lt a = a
  link_inputs-Edges m v (name ∷ ins) l b lt a =
      link_inputs-Edges m v ins (link_found supported v (lookup name m) l) b lt
        (link_found-Edges v (lookup name m) l lt (λ u e. lookup-below n name m b e) a)

  link_nodes-Edges :
      (m : Producers) (v : ℕ) (rest : List (List String)) (l : Links)
      → AllBelow n m
      → v + length rest ≤ n
      → Edges l.edges
      → Edges (link_nodes m supported v rest l).edges
  unfolding link_nodes
  link_nodes-Edges m v [] l b lt a = a
  link_nodes-Edges m v (ins ∷ rest) l b lt a =
      link_nodes-Edges m (suc v) rest (link_inputs m supported v ins l) b (omega arith)
        (link_inputs-Edges m v ins l b (omega arith) a)

  pub links-Edges :
      (node_inputs node_outputs : List (List String))
      → length node_inputs ≡ n
      → length node_outputs ≡ n
      → Edges (links n node_inputs node_outputs supported).edges
  unfolding links producers
  links-Edges node_inputs node_outputs li lo =
      link_nodes-Edges (producers node_outputs) 0 node_inputs _
        (producers_from-below n 0 node_outputs [] (omega arith) tt) (omega arith) tt
