-- ===== src/Rewrite/Fold/Whole.antt =====
-- `fold_constants` (rewrite.rs) on a graph, from the constants that it starts with.
use onnx_vulkan_rs_edge.Prelude.{
  ◌≡◌, refl, sym, ◌∙◌, ap, true, false, ◌||◌, List, [], ◌∷◌, ◌++◌, none, some, Bool-cases, inl, inr,
  String, arith,
}
use text.Mathlib.TextEquality.{eq_iff}
use onnx_vulkan_rs_edge.Error.{ok, err, ◌>>=◌, Result-cases}
use onnx_vulkan_rs_edge.Graph.Initializer.{InitializerIr}
use onnx_vulkan_rs_edge.Graph.Ir.{
  NodeIr, GraphIr, inputs_of, outputs_of, has, is_empty, constant_outputs,
}
use onnx_vulkan_rs_edge.Graph.Meaning.{Store, Operators, bind, run}
use onnx_vulkan_rs_edge.Interp.{entry_names}
use onnx_vulkan_rs_edge.Interp.Producers.{
  is_ssa, bound_names, distinct, distinct-append, named, no_roots, no_roots-has, has-bound_names,
}
use onnx_vulkan_rs_edge.Rewrite.{entry, reads_of}
use onnx_vulkan_rs_edge.Rewrite.Orphans.{scope, scope-entry}
use onnx_vulkan_rs_edge.Rewrite.Fold.{Evaluate, remaining, insert_folded, fold_constants}
use onnx_vulkan_rs_edge.Rewrite.Fold.Steps.{
  Entries, Folded, Folds, over, skip, fold, fold_nodes-Folds, fold_node-some, folded_to-bound,
  in_order, apart-has, first_named, sole-named,
}
use onnx_vulkan_rs_edge.Rewrite.Fold.Entries.{
  start-cases, start-blank, entry-named, insert_folded-absent, insert_folded-entry,
}
use onnx_vulkan_rs_edge.Rewrite.Fold.Runs.{
  HostEvaluator, Folding, skip-Folding, fold-Folding, constant_inputs-Holds, inputs-read,
  constant_of-has,
}

module _ {V : Type 0} (ops : Operators V) (load : InitializerIr → V) (host : HostEvaluator ops load)
    (outputs : List String) where
  remaining-run :
      {cs : Entries} {nodes : List NodeIr} {folded : Folded} (s t r : Store V)
      → Folds host.evaluate outputs cs nodes folded
      → distinct (bound_names nodes) ≡ true
      → in_order nodes ≡ true
      → first_named nodes ≡ true
      → Folding load cs nodes folded s t
      → run ops nodes s ≡ ok r
      → (r' : Store V) × (run ops (remaining folded nodes) t ≡ ok r')
        × ((x : String) → is_empty x ≡ false → r' x ≡ r x)
  unfolding run remaining
  remaining-run s t r over d o fn f e =
      let end : s ≡ r = cc in (t, refl, λ x ne. sym (f.same x ne refl) ∙ ap (λ q. q x) end)
  remaining-run s t r (skip {cs = cs} {n = n} {nodes = nodes} {folded = folded} unmet rel) d o fn f
        e =
      elim (Result-cases (ops.evaluate n s)) [
        | inr (x, fails) ↦
            let bad : err x ≡ ok r =
              sym (ap (λ q. q >>= λ bs. run ops nodes (bind bs s)) fails) ∙ e in
            absurd cc
        | inl (bs, gives) ↦
            let e' : run ops nodes (bind bs s) ≡ ok r =
              sym (ap (λ q. q >>= λ bs. run ops nodes (bind bs s)) gives) ∙ e in
            let gives' : ops.evaluate n t ≡ ok bs =
              sym (
                ops.local n s t (λ x rd. f.same x rd.0 (
                  folded_to-bound host.evaluate outputs x (skip unmet rel) rd.0
                    (apart-has (reads_of [] n) (bound_names (n ∷ nodes)) x (ground arith) rd.1))))
              ∙ gives in
            let f' =
              skip-Folding ops load host outputs cs n nodes folded s t bs d rel gives gives' f in
            let (r', runs, same) =
              remaining-run (bind bs s) (bind bs t) r rel
                (distinct-append "" (named (outputs_of n)) (bound_names nodes) d).0 (ground arith)
                (ground arith) f' e' in
            (r', rw (run, gives') runs, same)
      ]
  remaining-run s t r
        (fold {cs = cs} {n = n} {nodes = nodes} {folded = folded} {out = out} {v = v} met rel) d o
        fn f e =
      let (vals, is, ins, gives) = fold_node-some host.evaluate outputs cs n out v met in
      let ne : is_empty out ≡ false = ground (arith, sole-named (outputs_of n) out is) in
      let holds = constant_inputs-Holds load cs s (inputs_of n) vals ins (λ x c b found.
        let nx : is_empty x ≡ false = elim (Bool-cases (is_empty x)) [
          | inr full ↦ full
          | inl blank ↦
              let absent : entry x cs ≡ none =
                ap (λ q. entry q cs) ((eq_iff x "").0 blank) ∙ f.blank in
              absurd cc
        ] in
        f.known x c nx found (
          apart-has (reads_of [] n) (bound_names (n ∷ nodes)) x (ground arith)
            (inputs-read n x nx b))) in
      let gives' = host.evaluates n s vals out v gives is holds in
      let e' : run ops nodes (bind ((out, load v) ∷ []) s) ≡ ok r =
        sym (ap (λ q. q >>= λ bs. run ops nodes (bind bs s)) gives') ∙ e in
      let f' = fold-Folding ops load host outputs cs n nodes folded s t out v d rel is ne f in
      remaining-run (bind ((out, load v) ∷ []) s) t r rel
        (distinct-append "" (named (outputs_of n)) (bound_names nodes) d).0 (ground arith)
        (ground arith) f' e'

-- The state before the first node, where no value given is an initializer's or a node's.
begin-Folding :
    {V : Type 0} (load : InitializerIr → V) (evaluate : Evaluate) (ir : GraphIr) (folded : Folded)
    (s : Store V)
    → Folds evaluate ir.outputs (ir.initializers ++ constant_outputs ir.nodes) ir.nodes folded
    → is_ssa ir ≡ true
    → first_named ir.nodes ≡ true
    → has (entry_names ir.initializers) "" ≡ false
    → ((x : String)
        → (has (entry_names ir.initializers) x || has (bound_names ir.nodes) x) ≡ true
        → s x ≡ none)
    → Folding load
        (ir.initializers ++ constant_outputs ir.nodes)
        ir.nodes
        folded
        (scope load ir.initializers s)
        (scope load (insert_folded folded ir.initializers) s)
unfolding scope constant_outputs
begin-Folding load evaluate ir folded s rel ssa fn unnamed free =
    let d : distinct (bound_names ir.nodes) ≡ true = ground arith in
    let roots : no_roots ir (bound_names ir.nodes) ≡ true = ground arith in
    let cases = start-cases ir in
    record {
      blank = start-blank ir fn unnamed;
      known = λ x c ne e unbound. elim (cases x c e) [
        | inl init ↦
            let named = entry-named x ir.initializers c init in
            let unset = free x (ground arith) in scope-entry load ir.initializers s x c unset init
        | inr (n, i, is) ↦
            let b = has-bound_names ir.nodes i.0 n x i.1 ne (constant_of-has n x c is) in absurd cc
      ];
      later = λ x c ne e b. elim (cases x c e) [
        | inr constant ↦ constant
        | inl init ↦
            let named = entry-named x ir.initializers c init in
            let root = no_roots-has ir (bound_names ir.nodes) x roots b in absurd (ground arith)
      ];
      same = λ x ne e.
          ap
            (λ o. elim (s x) [
              | some v ↦ some v
              | none ↦ elim o [ none ↦ none | some init ↦ some (load init) ]
            ])
            (sym (insert_folded-absent x folded ir.initializers e));
      given = λ x v ne e. elim (Bool-cases (has (bound_names ir.nodes) x)) [
        | inr unbound ↦ absurd (let e' = folded_to-bound evaluate ir.outputs x rel ne unbound in cc)
        | inl b ↦
            let unset = free x (ground arith) in
            let new = insert_folded-entry evaluate ir.outputs x v ir.initializers rel d ne e in
            scope-entry load (insert_folded folded ir.initializers) s x v unset new
      ];
    }

-- For operators that the host evaluates as they run, in a graph that binds each name once, whose nodes read
-- nothing that they or later nodes bind, in which no initializer and no node's first output has the empty name,
-- and from inputs that give no value to an initializer or to an output of a node: where the run of the graph
-- ends without an error, the run of the folded graph does too, from its own initializers, and both give each
-- name the same value.
pub fold_constants-run :
    {V : Type 0} (ops : Operators V) (load : InitializerIr → V) (host : HostEvaluator ops load)
    (ir : GraphIr) (s r : Store V)
    → is_ssa ir ≡ true
    → in_order ir.nodes ≡ true
    → first_named ir.nodes ≡ true
    → has (entry_names ir.initializers) "" ≡ false
    → ((x : String)
        → (has (entry_names ir.initializers) x || has (bound_names ir.nodes) x) ≡ true
        → s x ≡ none)
    → run ops ir.nodes (scope load ir.initializers s) ≡ ok r
    → (r' : Store V) × (run ops
          (fold_constants host.evaluate ir).0.nodes
          (scope load (fold_constants host.evaluate ir).0.initializers s)
        ≡ ok r')
      × ((x : String) → is_empty x ≡ false → r' x ≡ r x)
unfolding fold_constants
fold_constants-run ops load host ir s r ssa ordered fn unnamed free e =
    let cs = ir.initializers ++ constant_outputs ir.nodes in
    let rel = fold_nodes-Folds host.evaluate ir.outputs cs ir.nodes in
    remaining-run ops load host ir.outputs _ _ r rel (ground arith) ordered fn
      (begin-Folding load host.evaluate ir _ s rel ssa fn unnamed free) e
