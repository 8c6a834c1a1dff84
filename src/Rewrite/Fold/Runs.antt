-- ===== src/Rewrite/Fold/Runs.antt =====
-- A run of the nodes that `fold_constants` (rewrite.rs) leaves, beside a run of all nodes.
use onnx_vulkan_rs_edge.Prelude.{
  zero, suc, ◌≡◌, ◌⊎◌, refl, sym, ◌∙◌, ap, subst, true, false, not, ◌||◌, List, [], ◌∷◌, none, some,
  Bool-cases, Option-cases, inl, inr, String, str_eq, arith,
}
use onnx_vulkan_rs_edge.Error.{ok}
use onnx_vulkan_rs_edge.Graph.Initializer.{InitializerIr}
use onnx_vulkan_rs_edge.Graph.Ir.{
  NodeIr, node_ir, inputs_of, outputs_of, has, is_empty, get_attr, as_tensor, constant_of,
}
use onnx_vulkan_rs_edge.Graph.Meaning.{
  Store, Operators, bind, bind-agrees, bind-outside, has-append, has_refl, blank_apart,
}
use onnx_vulkan_rs_edge.Interp.Producers.{
  bound_names, distinct, distinct-append, named, has-named, has-bound_names,
}
use onnx_vulkan_rs_edge.Rewrite.{entry, reads_of, undefined, attr_reads}
use onnx_vulkan_rs_edge.Rewrite.Retain.{In}
use onnx_vulkan_rs_edge.Rewrite.Fold.{Evaluate, sole, constant_inputs}
use onnx_vulkan_rs_edge.Rewrite.Fold.Steps.{
  Entries, Folded, Folds, folded_to, folded_to-bound, sole-has,
}

module _ {V : Type 0} (load : InitializerIr → V) where
  -- The names have the given constants as their values.
  abbrev pub Holds : Store V → List String → List InitializerIr → Type 0
  Holds s [] [] = Unit
  Holds s [] (c ∷ vals) = ⊥
  Holds s (x ∷ xs) [] = ⊥
  Holds s (x ∷ xs) (c ∷ vals) = (s x ≡ some (load c)) × Holds s xs vals

-- The host's evaluation of a node with one output gives what its operator binds where the inputs have the
-- same values, and the operator of a `Constant` node binds the tensor of its attribute.
pub record HostEvaluator {V : Type 0} (ops : Operators V) (load : InitializerIr → V) : Type 0 where
  pub evaluate : Evaluate
  pub evaluates :
      (n : NodeIr) (s : Store V) (vals : List InitializerIr) (out : String) (v : InitializerIr)
      → evaluate n vals ≡ some v
      → sole (outputs_of n) ≡ some out
      → Holds load s (inputs_of n) vals
      → ops.evaluate n s ≡ ok ((out, load v) ∷ [])
  pub constant :
      (n : NodeIr) (s : Store V) (out : String) (t : InitializerIr)
      → constant_of n ≡ some (out, t)
      → ops.evaluate n s ≡ ok ((out, load t) ∷ [])

-- Before the nodes run: the constants known, the store of the run of all nodes, and that of the other run.
pub record Folding {V : Type 0} (load : InitializerIr → V) (cs : Entries) (nodes : List NodeIr)
    (folded : Folded) (s t : Store V) : Type 0 where
  pub blank : entry "" cs ≡ none
  pub known :
      (x : String) (c : InitializerIr)
      → is_empty x ≡ false
      → entry x cs ≡ some c
      → has (bound_names nodes) x ≡ false
      → s x ≡ some (load c)
  pub later :
      (x : String) (c : InitializerIr)
      → is_empty x ≡ false
      → entry x cs ≡ some c
      → has (bound_names nodes) x ≡ true
      → (n : NodeIr) × In nodes n × (constant_of n ≡ some (x, c))
  pub same : (x : String) → is_empty x ≡ false → folded_to x folded ≡ none → s x ≡ t x
  pub given :
      (x : String) (v : InitializerIr)
      → is_empty x ≡ false
      → folded_to x folded ≡ some v
      → t x ≡ some (load v)

bound-cons :
    (n : NodeIr) (nodes : List NodeIr) (x : String)
    → is_empty x ≡ false
    → (has (bound_names nodes) x ≡ true → has (bound_names (n ∷ nodes)) x ≡ true)
      × (has (outputs_of n) x ≡ true → has (bound_names (n ∷ nodes)) x ≡ true)
bound-cons n nodes x ne =
    let split = has-append x (named (outputs_of n)) (bound_names nodes) in
    (
      λ b. ground (arith, split),
      λ b. let b' = has-named x (outputs_of n) ne b in ground (arith, split),
    )

named-has : (x : String) (xs : List String) → has (named xs) x ≡ true → has xs x ≡ true
named-has x [] h = h
named-has x (y ∷ xs) h = elim (Bool-cases (is_empty y)) [
  | inl blank ↦ let h' : has (named xs) x ≡ true = rw blank at h in ground (arith, named-has x xs)
  | inr full ↦
      let h' : (str_eq y x || has (named xs) x) ≡ true = rw full at h in
      ground (arith, named-has x xs)
]

unbound-cons :
    (n : NodeIr) (nodes : List NodeIr) (x : String)
    → has (outputs_of n) x ≡ false
    → has (bound_names nodes) x ≡ false
    → has (bound_names (n ∷ nodes)) x ≡ false
unbound-cons n nodes x out free =
    let split = has-append x (named (outputs_of n)) (bound_names nodes) in
    ground (arith, split, named-has x (outputs_of n))

-- A name is bound by a node or by a later one, not by both.
pub bound-once :
    (n : NodeIr) (nodes : List NodeIr) (x : String)
    → distinct (bound_names (n ∷ nodes)) ≡ true
    → is_empty x ≡ false
    → has (bound_names nodes) x ≡ true
    → has (outputs_of n) x ≡ false
bound-once n nodes x d ne b = elim (Bool-cases (has (outputs_of n) x)) [
  | inr free ↦ free
  | inl out ↦ absurd (
      (distinct-append x (named (outputs_of n)) (bound_names nodes) d).1
        (has-named x (outputs_of n) ne out) b)
]

pub constant_of-first :
    (n : NodeIr) (x : String) (c : InitializerIr)
    → constant_of n ≡ some (x, c)
    → (outs : List String) × (outputs_of n ≡ x ∷ outs)
unfolding constant_of
constant_of-first (node_ir d o v name ins [] attrs) x c h = absurd cc
constant_of-first (node_ir d o v name ins (out ∷ outs) attrs) x c h =
    elim (Bool-cases (not (str_eq o "Constant") || not (is_empty d))) [
      | inl other ↦ absurd (let h' : none ≡ some (x, c) = rw (constant_of, other) at h in cc)
      | inr plain ↦ elim (Option-cases (get_attr "value" attrs)) [
        | inl absent ↦
            absurd (let h' : none ≡ some (x, c) = rw (constant_of, plain, absent) at h in cc)
        | inr (value, found) ↦ elim (Option-cases (as_tensor value)) [
          | inl absent ↦
              absurd
                (let h' : none ≡ some (x, c) = rw (constant_of, plain, found, absent) at h in cc)
          | inr (w, is) ↦
              let h' : some (out, w) ≡ some (x, c) = rw (constant_of, plain, found, is) at h in
              let e : out ≡ x = cc in (outs, ap (λ q. q ∷ outs) e)
        ]
      ]
    ]

pub constant_of-has :
    (n : NodeIr) (x : String) (c : InitializerIr)
    → constant_of n ≡ some (x, c)
    → has (outputs_of n) x ≡ true
constant_of-has n x c h =
    let (outs, e) = constant_of-first n x c h in
    let self = has_refl x in ap (λ q. has q x) e ∙ ground arith

In-split : (n : NodeIr) (nodes : List NodeIr) (m : NodeIr) → In (n ∷ nodes) m → (n ≡ m) ⊎ In nodes m
In-split n nodes m (zero, at) = inl cc
In-split n nodes m (suc p, at) = inr (p, at)

bind-hit :
    {V : Type 0} (x y : String) (v : V) (s : Store V)
    → str_eq x y ≡ true
    → bind ((x, v) ∷ []) s y ≡ some v
unfolding bind
bind-hit x y v s hit = rw hit refl

bind-other :
    {V : Type 0} (x y : String) (v : V) (s : Store V)
    → str_eq x y ≡ false
    → bind ((x, v) ∷ []) s y ≡ s y
unfolding bind
bind-other x y v s miss = rw miss refl

pub constant_inputs-Holds :
    {V : Type 0} (load : InitializerIr → V) (cs : Entries) (s : Store V) (xs : List String)
    (vals : List InitializerIr)
    → constant_inputs cs xs ≡ some vals
    → ((x : String) (c : InitializerIr)
        → has xs x ≡ true
        → entry x cs ≡ some c
        → s x ≡ some (load c))
    → Holds load s xs vals
unfolding constant_inputs
constant_inputs-Holds load cs s [] vals h known =
    let e : [] ≡ vals = cc in subst (λ q. Holds load s [] q) e tt
constant_inputs-Holds load cs s (x ∷ xs) vals h known = elim (Option-cases (entry x cs)) [
  | inl absent ↦ absurd (let h' : none ≡ some vals = rw (constant_inputs, absent) at h in cc)
  | inr (c, found) ↦ elim (Option-cases (constant_inputs cs xs)) [
    | inl absent ↦
        absurd (let h' : none ≡ some vals = rw (constant_inputs, found, absent) at h in cc)
    | inr (rest, tail) ↦
        let h' : some (c ∷ rest) ≡ some vals = rw (constant_inputs, found, tail) at h in
        let e : c ∷ rest ≡ vals = cc in
        let self = has_refl x in
        subst (λ q. Holds load s (x ∷ xs) q) e
          (
            known x c (ground arith) found,
            constant_inputs-Holds load cs s xs rest tail (λ y c' b. known y c' (ground arith)),
          )
  ]
]

-- The inputs of a node stand among what it reads.
pub inputs-read :
    (n : NodeIr) (x : String)
    → is_empty x ≡ false
    → has (inputs_of n) x ≡ true
    → has (reads_of [] n) x ≡ true
unfolding reads_of
inputs-read (node_ir d o v name ins outs attrs) x ne h =
    ground
      (arith, has-append x (undefined [] ins) (attr_reads attrs), has-undefined_empty ins x ne h)
  where
    has-undefined_empty :
        (xs : List String) (x : String)
        → is_empty x ≡ false
        → has xs x ≡ true
        → has (undefined [] xs) x ≡ true
    has-undefined_empty [] x ne h = h
    has-undefined_empty (y ∷ xs) x ne h = elim (Bool-cases (is_empty y)) [
      | inl empty ↦ ground (arith, has-undefined_empty xs x ne, blank_apart y x empty ne)
      | inr full ↦ ground (arith, has-undefined_empty xs x ne)
    ]

module _ {V : Type 0} (ops : Operators V) (load : InitializerIr → V) (host : HostEvaluator ops load)
    (outputs : List String) where
  -- A node that is not folded runs in both.
  pub skip-Folding :
      (cs : Entries) (n : NodeIr) (nodes : List NodeIr) (folded : Folded) (s t : Store V)
      (bs : List (String × V))
      → distinct (bound_names (n ∷ nodes)) ≡ true
      → Folds host.evaluate outputs cs nodes folded
      → ops.evaluate n s ≡ ok bs
      → ops.evaluate n t ≡ ok bs
      → Folding load cs (n ∷ nodes) (none ∷ folded) s t
      → Folding load cs nodes folded (bind bs s) (bind bs t)
  unfolding bind
  skip-Folding cs n nodes folded s t bs d rel gives gives' f = record {
    blank = f.blank;
    known = λ x c ne e free. elim (Bool-cases (has (outputs_of n) x)) [
      | inr out ↦
          bind-outside bs s x (ops.binds n s bs x gives out)
          ∙ f.known x c ne e (unbound-cons n nodes x out free)
      | inl bound ↦
          let (m, i, is) = f.later x c ne e ((bound-cons n nodes x ne).1 bound) in
          elim (In-split n nodes m i) [
            | inr i' ↦
                let b = has-bound_names nodes i'.0 m x i'.1 ne (constant_of-has m x c is) in
                absurd cc
            | inl here ↦
                let gives'' = host.constant n s x c (ap constant_of here ∙ is) in
                let only : bs ≡ (x, load c) ∷ [] = cc in
                ap (λ q. bind q s x) only ∙ bind-hit x x (load c) s (has_refl x)
          ]
    ];
    later = λ x c ne e b.
        let (m, i, is) = f.later x c ne e ((bound-cons n nodes x ne).0 b) in
        elim (In-split n nodes m i) [
          | inr i' ↦ (m, i', is)
          | inl here ↦
              let out = constant_of-has n x c (ap constant_of here ∙ is) in
              let free = bound-once n nodes x d ne b in absurd cc
        ];
    same = λ x ne e. bind-agrees bs s t x (f.same x ne e);
    given = λ x v ne e. elim (Bool-cases (has (bound_names nodes) x)) [
      | inr free ↦ absurd (let e' = folded_to-bound host.evaluate outputs x rel ne free in cc)
      | inl b ↦
          bind-outside bs t x (ops.binds n t bs x gives' (bound-once n nodes x d ne b))
          ∙ f.given x v ne e
    ];
  }

  -- A node that is folded runs in one of them, and the other has its value already.
  pub fold-Folding :
      (cs : Entries) (n : NodeIr) (nodes : List NodeIr) (folded : Folded) (s t : Store V)
      (out : String) (v : InitializerIr)
      → distinct (bound_names (n ∷ nodes)) ≡ true
      → Folds host.evaluate outputs ((out, v) ∷ cs) nodes folded
      → sole (outputs_of n) ≡ some out
      → is_empty out ≡ false
      → Folding load cs (n ∷ nodes) (some (out, v) ∷ folded) s t
      → Folding load ((out, v) ∷ cs) nodes folded (bind ((out, load v) ∷ []) s) t
  unfolding entry
  fold-Folding cs n nodes folded s t out v d rel is ne f =
      let apart : (x : String)
          → is_empty x ≡ false
          → has (bound_names nodes) x ≡ true
          → str_eq out x ≡ false =
        λ x ne' b. sym (sole-has (outputs_of n) out x is) ∙ bound-once n nodes x d ne' b in
      record {
        blank = rw ne f.blank;
        known = λ x c ne' e free. elim (Bool-cases (str_eq out x)) [
          | inl hit ↦
              let e' : some v ≡ some c = rw hit at e in
              let same : v ≡ c = cc in bind-hit out x (load v) s hit ∙ ap (λ q. some (load q)) same
          | inr miss ↦
              bind-other out x (load v) s miss
              ∙ f.known x c ne' (rw miss at e)
                  (unbound-cons n nodes x (sole-has (outputs_of n) out x is ∙ miss) free)
        ];
        later = λ x c ne' e b.
            let (m, i, con) =
              f.later x c ne' (rw (apart x ne' b) at e) ((bound-cons n nodes x ne').0 b) in
            elim (In-split n nodes m i) [
              | inr i' ↦ (m, i', con)
              | inl here ↦
                  let o = constant_of-has n x c (ap constant_of here ∙ con) in
                  let free = bound-once n nodes x d ne' b in absurd cc
            ];
        same = λ x ne' e. elim (Bool-cases (str_eq out x)) [
          | inl hit ↦ bind-hit out x (load v) s hit ∙ sym (f.given x v ne' (rw hit refl))
          | inr miss ↦ bind-other out x (load v) s miss ∙ f.same x ne' (rw miss e)
        ];
        given = λ x w ne' e. elim (Bool-cases (has (bound_names nodes) x)) [
          | inr free ↦ absurd (let e' = folded_to-bound host.evaluate outputs x rel ne' free in cc)
          | inl b ↦ f.given x w ne' (rw (apart x ne' b) e)
        ];
      }
