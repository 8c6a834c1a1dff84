-- ===== src/Fusion/Links.antt =====
-- The first part of `convex_groups` (fusion.rs): the producer of each value, and the arcs of the graph.
pub mod Bounds
pub mod Arcs
pub mod Sources
use onnx_vulkan_rs_edge.Prelude.{
  ℕ, zero, suc, Bool, true, false, not, ◌&&◌, ◌||◌, List, [], ◌∷◌, ◌++◌, get_or, set, length,
  replicate, ◌==◌, if◌then◌else◌, Option, none, some,
}
use onnx_vulkan_rs_edge.Prelude.{String, str_eq}

-- `HashMap<&str, usize>`, the newest binding first.
abbrev pub Producers : Type 0
Producers = List (String × ℕ)

unfoldable pub lookup : String → Producers → Option ℕ
lookup name [] = none
lookup name ((key, i) ∷ m) = if str_eq key name then some i else lookup name m

-- for o in outs { if !o.is_empty() { producer.insert(o, i); } }
unfoldable pub insert_outputs : ℕ → List String → Producers → Producers
insert_outputs i [] m = m
insert_outputs i (o ∷ outs) m = insert_outputs i outs (if str_eq o "" then m else (o, i) ∷ m)

unfoldable pub producers_from : ℕ → List (List String) → Producers → Producers
unfolding insert_outputs
producers_from i [] m = m
producers_from i (outs ∷ rest) m = producers_from (suc i) rest (insert_outputs i outs m)

unfoldable pub producers : List (List String) → Producers
unfolding producers_from
producers node_outputs = producers_from 0 node_outputs []

pub record Links : Type 0 where
  pub preds : List (List ℕ)
  pub succs : List (List ℕ)
  pub edges : List (ℕ × ℕ)

-- rows[i].push(x)
unfoldable pub push_at : List (List ℕ) → ℕ → ℕ → List (List ℕ)
push_at rows i x = set rows i (get_or rows i [] ++ x ∷ [])

abbrev pub is_supported : List Bool → ℕ → Bool
is_supported supported i = get_or supported i false

-- preds[v].push(u); succs[u].push(v); and the edge, if both ends are supported
unfoldable pub add_arc : List Bool → ℕ → ℕ → Links → Links
unfolding push_at
add_arc supported u v l = record {
  preds = push_at l.preds v u;
  succs = push_at l.succs u v;
  edges =
      if is_supported supported u && is_supported supported v
      then l.edges ++ (u, v) ∷ []
      else l.edges;
}

unfoldable pub link_found : List Bool → ℕ → Option ℕ → Links → Links
unfolding add_arc
link_found supported v none l = l
link_found supported v (some u) l = add_arc supported u v l

unfoldable pub link_inputs : Producers → List Bool → ℕ → List String → Links → Links
unfolding link_found lookup
link_inputs m supported v [] l = l
link_inputs m supported v (name ∷ ins) l =
    link_inputs m supported v ins (link_found supported v (lookup name m) l)

unfoldable pub link_nodes : Producers → List Bool → ℕ → List (List String) → Links → Links
unfolding link_inputs
link_nodes m supported v [] l = l
link_nodes m supported v (ins ∷ rest) l =
    link_nodes m supported (suc v) rest (link_inputs m supported v ins l)

unfoldable pub links : ℕ → List (List String) → List (List String) → List Bool → Links
unfolding link_nodes producers
links num_nodes node_inputs node_outputs supported =
    link_nodes (producers node_outputs) supported 0 node_inputs
      (record { preds = replicate num_nodes []; succs = replicate num_nodes []; edges = [] })
