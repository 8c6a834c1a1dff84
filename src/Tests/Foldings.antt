-- ===== src/Tests/Foldings.antt =====
-- Operators that the host evaluates, and an instance of the theorem on constant folding.
use onnx_vulkan_rs_edge.Prelude.{
  ℕ, ◌+◌, ◌≡◌, refl, sym, ◌∙◌, ap, Bool, true, false, ◌||◌, List, [], ◌∷◌, Option, none, some,
  if◌then◌else◌, Bool-cases, Option-cases, inl, inr, String, str_eq, arith, pos,
}
use text.Mathlib.TextEquality.{eq_iff}
use onnx_vulkan_rs_edge.Error.{Result, ok}
use onnx_vulkan_rs_edge.Graph.Initializer.{InitializerIr}
use onnx_vulkan_rs_edge.Graph.Ir.{
  NodeIr, node_ir, no_attrs, attr, tensor, GraphIr, inputs_of, outputs_of, has, is_empty,
  constant_of, get_attr,
}
use onnx_vulkan_rs_edge.Graph.Meaning.{Store, Bindings, names, Reads, Operators, run, bind}
use onnx_vulkan_rs_edge.Interp.{entry_names}
use onnx_vulkan_rs_edge.Interp.Producers.{bound_names}
use onnx_vulkan_rs_edge.Rewrite.{reads_of, entry}
use onnx_vulkan_rs_edge.Rewrite.Orphans.{scope}
use onnx_vulkan_rs_edge.Rewrite.Fold.{sole, fold_constants}
use onnx_vulkan_rs_edge.Rewrite.Fold.Runs.{Holds, HostEvaluator, constant_of-has}
use onnx_vulkan_rs_edge.Rewrite.Fold.Whole.{fold_constants-run}
use onnx_vulkan_rs_edge.Tests.Graphs.{total, bind_all, plain, one_byte, load, given, store_of, sums}

-- As `sums`, but a `Constant` node binds its tensor.
abbrev machine_evaluate : NodeIr → Store ℕ → Result (Bindings ℕ)
machine_evaluate n s = elim (constant_of n) [
  | none ↦ sums.evaluate n s
  | some (out, t) ↦ ok ((out, load t) ∷ [])
]

machine-local :
    (n : NodeIr) (s t : Store ℕ)
    → ((x : String) → Reads n x → s x ≡ t x)
    → machine_evaluate n s ≡ machine_evaluate n t
machine-local n s t agree = elim (Option-cases (constant_of n)) [
  | inl unmet ↦ rw (unmet, machine_evaluate) (sums.local n s t agree)
  | inr (e, met) ↦ rw (met, machine_evaluate) refl
]

machine-binds :
    (n : NodeIr) (s : Store ℕ) (bs : Bindings ℕ) (x : String)
    → machine_evaluate n s ≡ ok bs
    → has (outputs_of n) x ≡ false
    → has (names bs) x ≡ false
machine-binds n s bs x e free = elim (Option-cases (constant_of n)) [
  | inl unmet ↦ sums.binds n s bs x (rw (machine_evaluate, unmet) at e) free
  | inr ((out, t), met) ↦
      let e' : ok ((out, load t) ∷ []) ≡ ok bs = rw (machine_evaluate, met) at e in
      let only : (out, load t) ∷ [] ≡ bs = cc in
      ap (λ q. has (names q) x) (sym only) ∙ elim (Bool-cases (str_eq out x)) [
        | inr miss ↦ rw miss refl
        | inl hit ↦
            let same : out ≡ x = (eq_iff out x).0 hit in
            let bound = constant_of-has n x t (met ∙ ap (λ q. some (q, t)) same) in absurd cc
      ]
]

abbrev machine : Operators ℕ
machine = record { evaluate = machine_evaluate; local = machine-local; binds = machine-binds }

abbrev total_of : List InitializerIr → ℕ
total_of [] = 1
total_of (c ∷ vals) = load c + total_of vals

abbrev any_empty : List String → Bool
any_empty [] = false
any_empty (x ∷ xs) = is_empty x || any_empty xs

abbrev byte : ℕ → InitializerIr
byte k = record { dtype = pos 2; shape = pos 1 ∷ []; bytes = k ∷ [] }

abbrev host_evaluate : NodeIr → List InitializerIr → Option InitializerIr
host_evaluate n vals =
    if any_empty (inputs_of n)
    then none
    else elim (constant_of n) [ none ↦ some (byte (total_of vals)) | some e ↦ none ]

total-Holds :
    (xs : List String) (vals : List InitializerIr) (s : Store ℕ)
    → any_empty xs ≡ false
    → Holds load s xs vals
    → total xs s ≡ total_of vals
total-Holds [] [] s full h = refl
total-Holds [] (c ∷ vals) s full h = absurd h
total-Holds (x ∷ xs) [] s full h = absurd h
total-Holds (x ∷ xs) (c ∷ vals) s full h =
    let ne : is_empty x ≡ false = ground arith in
    rw (ne, h.0, total-Holds xs vals s (ground arith) h.1) refl

bind_all-sole :
    (outs : List String) (out : String) (v : ℕ)
    → sole outs ≡ some out
    → bind_all outs v ≡ (out, v) ∷ []
bind_all-sole [] out v h = absurd cc
bind_all-sole (o ∷ []) out v h = let e : o ≡ out = cc in ap (λ q. (q, v) ∷ []) e
bind_all-sole (o ∷ p ∷ outs) out v h = absurd cc

machine-evaluates :
    (n : NodeIr) (s : Store ℕ) (vals : List InitializerIr) (out : String) (v : InitializerIr)
    → host_evaluate n vals ≡ some v
    → sole (outputs_of n) ≡ some out
    → Holds load s (inputs_of n) vals
    → machine_evaluate n s ≡ ok ((out, load v) ∷ [])
machine-evaluates n s vals out v gives is holds = elim (Bool-cases (any_empty (inputs_of n))) [
  | inl blank ↦ absurd (let h : none ≡ some v = rw (host_evaluate, blank) at gives in cc)
  | inr full ↦ elim (Option-cases (constant_of n)) [
    | inr (e, met) ↦ absurd (let h : none ≡ some v = rw (host_evaluate, full, met) at gives in cc)
    | inl unmet ↦
        let h : some (byte (total_of vals)) ≡ some v = rw (host_evaluate, full, unmet) at gives in
        let same : byte (total_of vals) ≡ v = cc in
        let sum = total-Holds (inputs_of n) vals s full holds in
        rw (unmet, machine_evaluate)
          (ap ok (
            bind_all-sole (outputs_of n) out (total (inputs_of n) s) is
            ∙ ap (λ q. (out, q) ∷ []) (sum ∙ ap load same)))
  ]
]

abbrev host : HostEvaluator machine load
host = record {
  evaluate = host_evaluate;
  evaluates = machine-evaluates;
  constant = λ n s out t met. rw (met, machine_evaluate) refl;
}

-- "k" and then "c" are constant, "d" is not.
abbrev foldable : GraphIr
foldable = record {
  nodes =
      node_ir "" "Constant" (pos 13) "k" [] ("k" ∷ []) (attr "value" (tensor one_byte) no_attrs)
      ∷ plain "Cast" ("k" ∷ "b" ∷ []) ("c" ∷ [])
      ∷ plain "Mul" ("a" ∷ "c" ∷ []) ("d" ∷ [])
      ∷ [];
  initializers = ("b", one_byte) ∷ [];
  inputs = "a" ∷ [];
  outputs = "d" ∷ [];
}

foldable_folds : (fold_constants host_evaluate foldable).1 ≡ 1
unfolding fold_constants
foldable_folds = refl

given-free :
    (x : String)
    → (has (entry_names foldable.initializers) x || has (bound_names foldable.nodes) x) ≡ true
    → given x ≡ none
given-free x h = elim (Bool-cases (str_eq x "a")) [
  | inr miss ↦ rw miss refl
  | inl hit ↦
      let e : x ≡ "a" = (eq_iff x "a").0 hit in
      let bad : false ≡ true =
        sym (
          ap (λ q. has (entry_names foldable.initializers) q || has (bound_names foldable.nodes) q)
            e)
        ∙ h in
      absurd cc
]

abbrev first_store : Store ℕ
first_store = scope load foldable.initializers given

foldable_runs :
    run machine foldable.nodes first_store ≡ ok (store_of (run machine foldable.nodes first_store))
unfolding run bind scope entry constant_of get_attr
foldable_runs = refl

fold_constants-run_example :
    (r' : Store ℕ) × (run machine
        (fold_constants host_evaluate foldable).0.nodes
        (scope load (fold_constants host_evaluate foldable).0.initializers given)
      ≡ ok r')
    × ((x : String)
        → is_empty x ≡ false
        → r' x ≡ store_of (run machine foldable.nodes first_store) x)
unfolding reads_of
fold_constants-run_example =
    fold_constants-run machine load host foldable given
      (store_of (run machine foldable.nodes first_store)) refl refl refl refl given-free
      foldable_runs
