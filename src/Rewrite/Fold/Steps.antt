-- ===== src/Rewrite/Fold/Steps.antt =====
-- `fold_constants` (rewrite.rs) as a relation between the constants known, the nodes and what they fold to.
use onnx_vulkan_rs_edge.Prelude.{
  ◌≡◌, refl, sym, ◌∙◌, ap, Bool, true, false, not, ◌&&◌, ◌||◌, List, [], ◌∷◌, Option, none, some,
  if◌then◌else◌, Bool-cases, Option-cases, inl, inr, String, str_eq, arith,
}
use text.Mathlib.TextEquality.{eq_iff}
use onnx_vulkan_rs_edge.Graph.Initializer.{InitializerIr}
use onnx_vulkan_rs_edge.Graph.Ir.{NodeIr, op, inputs_of, outputs_of, has, is_empty}
use onnx_vulkan_rs_edge.Graph.Meaning.{has-append}
use onnx_vulkan_rs_edge.Interp.Producers.{bound_names, named, has-named}
use onnx_vulkan_rs_edge.Rewrite.{reads_of}
use onnx_vulkan_rs_edge.Rewrite.Fold.{
  Evaluate, sole, no_inputs, constant_inputs, fold_node, fold_nodes,
}

abbrev pub Entries : Type 0
Entries = List (String × InitializerIr)

abbrev pub Folded : Type 0
Folded = List (Option (String × InitializerIr))

pub data Folds (evaluate : Evaluate) (outputs : List String)
    : Entries → List NodeIr → Folded → Type 0 where
  over : {cs : Entries} → Folds evaluate outputs cs [] []
  skip :
      {cs : Entries} {n : NodeIr} {nodes : List NodeIr} {folded : Folded}
      → fold_node evaluate outputs cs n ≡ none
      → Folds evaluate outputs cs nodes folded
      → Folds evaluate outputs cs (n ∷ nodes) (none ∷ folded)
  fold :
      {cs : Entries} {n : NodeIr} {nodes : List NodeIr} {folded : Folded} {out : String}
      {v : InitializerIr}
      → fold_node evaluate outputs cs n ≡ some (out, v)
      → Folds evaluate outputs ((out, v) ∷ cs) nodes folded
      → Folds evaluate outputs cs (n ∷ nodes) (some (out, v) ∷ folded)

pub fold_nodes-Folds :
    (evaluate : Evaluate) (outputs : List String) (cs : Entries) (nodes : List NodeIr)
    → Folds evaluate outputs cs nodes (fold_nodes evaluate outputs cs nodes)
unfolding fold_nodes
fold_nodes-Folds evaluate outputs cs [] = over
fold_nodes-Folds evaluate outputs cs (n ∷ nodes) =
    elim (Option-cases (fold_node evaluate outputs cs n)) [
      | inl unmet ↦ rw (fold_nodes, unmet) (skip unmet (fold_nodes-Folds evaluate outputs cs nodes))
      | inr ((out, v), met) ↦
          rw (fold_nodes, met) (fold met (fold_nodes-Folds evaluate outputs ((out, v) ∷ cs) nodes))
    ]

-- What a node that is folded looks like.
pub fold_node-some :
    (evaluate : Evaluate) (outputs : List String) (cs : Entries) (n : NodeIr) (out : String)
    (v : InitializerIr)
    → fold_node evaluate outputs cs n ≡ some (out, v)
    → (vals : List InitializerIr) × (sole (outputs_of n) ≡ some out)
      × (constant_inputs cs (inputs_of n) ≡ some vals)
      × (evaluate n vals ≡ some v)
unfolding fold_node
fold_node-some evaluate outputs cs n out v h = elim (Option-cases (sole (outputs_of n))) [
  | inl unmet ↦ absurd (let h' : none ≡ some (out, v) = rw (fold_node, unmet) at h in cc)
  | inr (o, is) ↦
      elim (Bool-cases (str_eq (op n) "Constant" || (no_inputs (inputs_of n) || has outputs o))) [
        | inl stays ↦ absurd (let h' : none ≡ some (out, v) = rw (fold_node, is, stays) at h in cc)
        | inr goes ↦ elim (Option-cases (constant_inputs cs (inputs_of n))) [
          | inl unmet ↦
              absurd (let h' : none ≡ some (out, v) = rw (fold_node, is, goes, unmet) at h in cc)
          | inr (vals, ins) ↦ elim (Option-cases (evaluate n vals)) [
            | inl unmet ↦
                absurd
                  (let h' : none ≡ some (out, v) = rw (fold_node, is, goes, ins, unmet) at h in cc)
            | inr (w, gives) ↦
                let h' : some (o, w) ≡ some (out, v) = rw (fold_node, is, goes, ins, gives) at h in
                let e : o ≡ out = cc in
                let e' : w ≡ v = cc in (vals, is ∙ ap some e, ins, gives ∙ ap some e')
          ]
        ]
      ]
]

-- What a name is folded to.
abbrev pub folded_to : String → Folded → Option InitializerIr
folded_to x [] = none
folded_to x (none ∷ folded) = folded_to x folded
folded_to x (some (name, v) ∷ folded) = if str_eq name x then some v else folded_to x folded

pub sole-has : (outs : List String) (o x : String) → sole outs ≡ some o → has outs x ≡ str_eq o x
sole-has [] o x h = absurd cc
sole-has (p ∷ []) o x h = let e : p ≡ o = cc in rw e (ground arith)
sole-has (p ∷ q ∷ outs) o x h = absurd cc

-- Only a name that a node binds is folded.
pub folded_to-bound :
    (evaluate : Evaluate) (outputs : List String) {cs : Entries} {nodes : List NodeIr}
    {folded : Folded} (x : String)
    → Folds evaluate outputs cs nodes folded
    → is_empty x ≡ false
    → has (bound_names nodes) x ≡ false
    → folded_to x folded ≡ none
folded_to-bound evaluate outputs x over ne free = refl
folded_to-bound evaluate outputs x (skip {n = n} {nodes = nodes} unmet rest) ne free =
    folded_to-bound evaluate outputs x rest ne
      (ground (arith, has-append x (named (outputs_of n)) (bound_names nodes)))
folded_to-bound evaluate outputs {cs = cs} x
      (fold {n = n} {nodes = nodes} {out = out} {v = v} met rest) ne free =
    let (vals, is, ins, gives) = fold_node-some evaluate outputs cs n out v met in
    elim (Bool-cases (str_eq out x)) [
      | inl hit ↦
          let b = has-named x (outputs_of n) ne (sole-has (outputs_of n) out x is ∙ hit) in
          absurd (ground (arith, b, has-append x (named (outputs_of n)) (bound_names nodes)))
      | inr miss ↦ rw miss (
          folded_to-bound evaluate outputs x rest ne
            (ground (arith, has-append x (named (outputs_of n)) (bound_names nodes))))
    ]

abbrev apart : List String → List String → Bool
apart [] ys = true
apart (x ∷ xs) ys = not (has ys x) && apart xs ys

-- No node reads what it or a later node binds.
abbrev pub in_order : List NodeIr → Bool
in_order [] = true
in_order (n ∷ nodes) = apart (reads_of [] n) (bound_names (n ∷ nodes)) && in_order nodes

pub apart-has :
    (xs ys : List String) (x : String) → apart xs ys ≡ true → has xs x ≡ true → has ys x ≡ false
apart-has [] ys x h b = absurd cc
apart-has (y ∷ xs) ys x h b = elim (Bool-cases (str_eq y x)) [
  | inl hit ↦
      let e : y ≡ x = (eq_iff y x).0 hit in
      ap (has ys) (sym e) ∙ (let h' : not (has ys y) ≡ true = ground arith in ground arith)
  | inr miss ↦ apart-has xs ys x (ground arith) (ground arith)
]

abbrev pub first_is_empty : List String → Bool
first_is_empty [] = false
first_is_empty (o ∷ outs) = is_empty o

-- The first output of each node has a name.
abbrev pub first_named : List NodeIr → Bool
first_named [] = true
first_named (n ∷ nodes) = not (first_is_empty (outputs_of n)) && first_named nodes

pub sole-named :
    (outs : List String) (o : String) → sole outs ≡ some o → first_is_empty outs ≡ is_empty o
sole-named [] o h = absurd cc
sole-named (p ∷ []) o h = let e : p ≡ o = cc in ap is_empty e
sole-named (p ∷ q ∷ outs) o h = absurd cc
