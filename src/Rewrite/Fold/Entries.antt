-- ===== src/Rewrite/Fold/Entries.antt =====
-- `fold_constants` (rewrite.rs): the constants that it starts with, and the initializers that it inserts.
use onnx_vulkan_rs_edge.Prelude.{
  ℕ, zero, suc, ◌≡◌, ◌⊎◌, refl, sym, ◌∙◌, ap, true, false, List, [], ◌∷◌, ◌++◌, none, some,
  get_elem?, if◌then◌else◌, Bool-cases, Option-cases, inl, inr, String, str_eq, arith,
}
use text.Mathlib.TextEquality.{eq_iff}
use onnx_vulkan_rs_edge.Graph.Initializer.{InitializerIr}
use onnx_vulkan_rs_edge.Graph.Ir.{
  NodeIr, GraphIr, outputs_of, has, is_empty, constant_of, constants_from, constant_outputs,
}
use onnx_vulkan_rs_edge.Interp.{entry_names}
use onnx_vulkan_rs_edge.Interp.Producers.{bound_names, distinct, distinct-append, named}
use onnx_vulkan_rs_edge.Rewrite.{entry}
use onnx_vulkan_rs_edge.Rewrite.Retain.{In}
use onnx_vulkan_rs_edge.Rewrite.Fold.{Evaluate, insert_folded, drop_entry}
use onnx_vulkan_rs_edge.Rewrite.Fold.Steps.{
  Entries, Folded, Folds, over, skip, fold, fold_node-some, folded_to, folded_to-bound, first_named,
  sole-has, first_is_empty,
}
use onnx_vulkan_rs_edge.Rewrite.Fold.Runs.{constant_of-first, bound-once}

pub entry-append :
    (x : String) (cs ds : Entries)
    → entry x (cs ++ ds) ≡ elim (entry x cs) [ none ↦ entry x ds | some c ↦ some c ]
unfolding entry
entry-append x [] ds = refl
entry-append x ((name, c) ∷ cs) ds = elim (Bool-cases (str_eq name x)) [
  | inl hit ↦ rw hit refl
  | inr miss ↦ rw miss (entry-append x cs ds)
]

pub entry_names-has :
    (x : String) (cs : Entries) → has (entry_names cs) x ≡ false → entry x cs ≡ none
unfolding entry
entry_names-has x [] h = refl
entry_names-has x ((name, c) ∷ cs) h = ground (arith, entry_names-has x cs)

pub entry-named :
    (x : String) (cs : Entries) (c : InitializerIr)
    → entry x cs ≡ some c
    → has (entry_names cs) x ≡ true
entry-named x cs c e = elim (Bool-cases (has (entry_names cs) x)) [
  | inl h ↦ h
  | inr h ↦ absurd (let e' = entry_names-has x cs h in cc)
]

-- The entries of `constant_outputs` are those of `Constant` nodes.
pub constants_from-entry :
    (x : String) (c : InitializerIr) (found : Entries) (nodes : List NodeIr)
    → entry x (constants_from found nodes) ≡ some c
    → (entry x found ≡ some c) ⊎ ((n : NodeIr) × In nodes n × (constant_of n ≡ some (x, c)))
unfolding constants_from entry
constants_from-entry x c found [] e = inl e
constants_from-entry x c found (n ∷ nodes) e = elim (Option-cases (constant_of n)) [
  | inl unmet ↦ elim (constants_from-entry x c found nodes (rw (constants_from, unmet) at e)) [
    | inl old ↦ inl old
    | inr (m, i, is) ↦ inr (m, (suc i.0, i.1), is)
  ]
  | inr ((name, v), met) ↦
      elim (constants_from-entry x c ((name, v) ∷ found) nodes (rw (constants_from, met) at e)) [
        | inr (m, i, is) ↦ inr (m, (suc i.0, i.1), is)
        | inl new ↦ elim (Bool-cases (str_eq name x)) [
          | inr miss ↦ inl (rw miss at new)
          | inl hit ↦
              let e' : name ≡ x = (eq_iff name x).0 hit in
              let e'' : some v ≡ some c = rw hit at new in
              let same : v ≡ c = cc in
              inr (n, (0, refl), met ∙ ap (λ q. some (q, v)) e' ∙ ap (λ q. some (x, q)) same)
        ]
      ]
]

pub entry-drop_entry :
    (x name : String) (cs : Entries)
    → str_eq name x ≡ false
    → entry x (drop_entry name cs) ≡ entry x cs
unfolding entry drop_entry
entry-drop_entry x name [] miss = refl
entry-drop_entry x name ((key, c) ∷ cs) miss =
    let tail = entry-drop_entry x name cs miss in
    elim (Bool-cases (str_eq key name)) [
      | inr other ↦ rw other (ap (λ q. if str_eq key x then some c else q) tail)
      | inl same ↦
          let apart : str_eq key x ≡ false =
            ap (λ q. str_eq q x) ((eq_iff key name).0 same) ∙ miss in
          rw (same, apart) tail
    ]

pub insert_folded-absent :
    (x : String) (folded : Folded) (inits : Entries)
    → folded_to x folded ≡ none
    → entry x (insert_folded folded inits) ≡ entry x inits
unfolding insert_folded entry
insert_folded-absent x [] inits e = refl
insert_folded-absent x (none ∷ folded) inits e = insert_folded-absent x folded inits e
insert_folded-absent x (some (name, v) ∷ folded) inits e = elim (Bool-cases (str_eq name x)) [
  | inl hit ↦ absurd (let e' : some v ≡ none = rw hit at e in cc)
  | inr miss ↦
      insert_folded-absent x folded ((name, v) ∷ drop_entry name inits) (rw miss at e)
      ∙ rw miss (entry-drop_entry x name inits miss)
]

-- The value that a name is folded to becomes its initializer.
pub insert_folded-entry :
    (evaluate : Evaluate) (outputs : List String) {cs : Entries} {nodes : List NodeIr}
    {folded : Folded} (x : String) (v : InitializerIr) (inits : Entries)
    → Folds evaluate outputs cs nodes folded
    → distinct (bound_names nodes) ≡ true
    → is_empty x ≡ false
    → folded_to x folded ≡ some v
    → entry x (insert_folded folded inits) ≡ some v
unfolding insert_folded entry
insert_folded-entry evaluate outputs x v inits over d ne e = absurd cc
insert_folded-entry evaluate outputs x v inits (skip {n = n} {nodes = nodes} unmet rel) d ne e =
    insert_folded-entry evaluate outputs x v inits rel
      (distinct-append "" (named (outputs_of n)) (bound_names nodes) d).0 ne e
insert_folded-entry evaluate outputs x v inits
      (fold {cs = cs} {n = n} {nodes = nodes} {folded = folded} {out = out} {v = w} met rel) d ne
      e =
    elim (Bool-cases (str_eq out x)) [
      | inr miss ↦
          insert_folded-entry evaluate outputs x v ((out, w) ∷ drop_entry out inits) rel
            (distinct-append "" (named (outputs_of n)) (bound_names nodes) d).0 ne (rw miss at e)
      | inl hit ↦
          let (vals, is, ins, gives) = fold_node-some evaluate outputs cs n out w met in
          let free : has (bound_names nodes) x ≡ false =
            elim (Bool-cases (has (bound_names nodes) x)) [
              | inr free ↦ free
              | inl b ↦
                  let apart =
                    sym (sole-has (outputs_of n) out x is) ∙ bound-once n nodes x d ne b in
                  absurd cc
            ] in
          insert_folded-absent x folded ((out, w) ∷ drop_entry out inits)
            (folded_to-bound evaluate outputs x rel ne free)
          ∙ rw hit (let e' : some w ≡ some v = rw hit at e in e')
    ]

-- A constant that is known at the start is an initializer's, or a `Constant` node's.
pub start-cases :
    (ir : GraphIr) (x : String) (c : InitializerIr)
    → entry x (ir.initializers ++ constant_outputs ir.nodes) ≡ some c
    → (entry x ir.initializers ≡ some c)
      ⊎ ((n : NodeIr) × In ir.nodes n × (constant_of n ≡ some (x, c)))
unfolding constant_outputs
start-cases ir x c e = elim (Option-cases (entry x ir.initializers)) [
  | inr (c', found) ↦
      let split = entry-append x ir.initializers (constants_from [] ir.nodes) in
      let split' : entry x (ir.initializers ++ constants_from [] ir.nodes) ≡ some c' =
        rw found at split in
      inl cc
  | inl absent ↦
      let split = entry-append x ir.initializers (constants_from [] ir.nodes) in
      let split' : entry x (ir.initializers ++ constants_from [] ir.nodes)
          ≡ entry x (constants_from [] ir.nodes) =
        rw absent at split in
      elim (constants_from-entry x c [] ir.nodes (sym split' ∙ e)) [
        | inl bad ↦ absurd (let free = entry_names-has x [] refl in cc)
        | inr constant ↦ inr constant
      ]
]

first_named-constant :
    (nodes : List NodeIr) (p : ℕ) (n : NodeIr) (c : InitializerIr)
    → first_named nodes ≡ true
    → get_elem? nodes p ≡ some n
    → constant_of n ≡ some ("", c)
    → ⊥
unfolding constant_of
first_named-constant [] p n c h at is = absurd cc
first_named-constant (m ∷ nodes) (suc p) n c h at is =
    first_named-constant nodes p n c (ground arith) at is
first_named-constant (m ∷ nodes) zero n c h at is =
    let e : m ≡ n = cc in
    let (outs, first) = constant_of-first n "" c is in
    let e' : first_is_empty (outputs_of m) ≡ true =
      ap (λ q. first_is_empty (outputs_of q)) e ∙ ap first_is_empty first in
    absurd cc

pub start-blank :
    (ir : GraphIr)
    → first_named ir.nodes ≡ true
    → has (entry_names ir.initializers) "" ≡ false
    → entry "" (ir.initializers ++ constant_outputs ir.nodes) ≡ none
start-blank ir fn unnamed =
    elim (Option-cases (entry "" (ir.initializers ++ constant_outputs ir.nodes))) [
      | inl absent ↦ absent
      | inr (c, found) ↦ elim (start-cases ir "" c found) [
        | inl init ↦ let absent = entry_names-has "" ir.initializers unnamed in absurd cc
        | inr (n, i, is) ↦ absurd (first_named-constant ir.nodes i.0 n c fn i.1 is)
      ]
    ]
