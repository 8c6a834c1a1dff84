-- ===== src/Rewrite/Orphans.antt =====
-- `prune_dead_initializers` (rewrite.rs), and both prunings as `Executor::new` (executor.rs) runs them.
use onnx_vulkan_rs_edge.Prelude.{
  ℕ, zero, suc, ◌+◌, ◌-◌, ◌≡◌, refl, sym, ◌∙◌, ap, true, false, List, [], ◌∷◌, ◌++◌, none, some,
  length, ◌==◌, if◌then◌else◌, Bool-cases, inl, inr, String, str_eq, arith,
}
use text.Mathlib.TextEquality.{eq_iff}
use onnx_vulkan_rs_edge.Error.{ok}
use onnx_vulkan_rs_edge.Graph.Initializer.{InitializerIr}
use onnx_vulkan_rs_edge.Graph.Ir.{NodeIr, GraphIr, has, is_empty}
use onnx_vulkan_rs_edge.Graph.Meaning.{Store, Operators, run, has-append}
use onnx_vulkan_rs_edge.Rewrite.{
  captured_names, all_inputs, keep_live, prune_dead_initializers, entry, retain, prune_once,
  prune_from, prune_dead_nodes, prune_orphans,
}
use onnx_vulkan_rs_edge.Rewrite.Readers.{is_live}
use onnx_vulkan_rs_edge.Rewrite.Prune.{Reads-live, output-live, prune_dead_nodes-run}
use onnx_vulkan_rs_edge.Rewrite.Retain.{run-retain}

abbrev pub total_bytes : List (String × InitializerIr) → ℕ
total_bytes [] = 0
total_bytes ((name, init) ∷ rest) = length init.bytes + total_bytes rest

keep_live-entry :
    (live : List String) (inits : List (String × InitializerIr)) (x : String)
    → entry x (keep_live live inits).0 ≡ (if has live x then entry x inits else none)
unfolding keep_live entry
keep_live-entry live [] x = elim (Bool-cases (has live x)) [ inl h ↦ rw h refl | inr h ↦ rw h refl ]
keep_live-entry live ((name, init) ∷ rest) x =
    let tail = keep_live-entry live rest x in
    elim (Bool-cases (has live name)) [
      | inl l ↦ elim (Bool-cases (str_eq name x)) [
        | inr miss ↦ rw (l, miss) tail
        | inl hit ↦
            let lx : has live x ≡ true = ap (has live) (sym ((eq_iff name x).0 hit)) ∙ l in
            rw (l, hit, lx) refl
      ]
      | inr d ↦ elim (Bool-cases (str_eq name x)) [
        | inr miss ↦ rw (d, miss) tail
        | inl hit ↦
            let lx : has live x ≡ false = ap (has live) (sym ((eq_iff name x).0 hit)) ∙ d in
            let absent : entry x (keep_live live rest).0 ≡ none = rw lx at tail in rw (d, lx) absent
      ]
    ]

keep_live-bytes :
    (live : List String) (inits : List (String × InitializerIr))
    → (keep_live live inits).1 + total_bytes (keep_live live inits).0 ≡ total_bytes inits
unfolding keep_live
keep_live-bytes live [] = refl
keep_live-bytes live ((name, init) ∷ rest) = elim (Bool-cases (has live name)) [
  | inl l ↦ rw l (omega (arith, keep_live-bytes live rest))
  | inr d ↦ rw d (omega (arith, keep_live-bytes live rest))
]

-- A live name keeps its initializer and any other loses it, and the number that is returned is the number
-- of bytes that the dropped initializers hold.
pub prune_dead_initializers-lem :
    (ir : GraphIr)
    → ((x : String)
        → is_empty x ≡ false
        → entry x (prune_dead_initializers ir).0.initializers
          ≡ (if is_live ir x then entry x ir.initializers else none))
      × ((prune_dead_initializers ir).1 + total_bytes (prune_dead_initializers ir).0.initializers
          ≡ total_bytes ir.initializers)
unfolding prune_dead_initializers
prune_dead_initializers-lem ir =
    let live = all_inputs ir.nodes ++ (ir.outputs ++ captured_names ir.nodes) in
    (
      (λ x ne.
          let same : has live x ≡ is_live ir x = ground (
            arith,
            has-append x (all_inputs ir.nodes) (ir.outputs ++ captured_names ir.nodes),
            has-append x ir.outputs (captured_names ir.nodes),
          ) in
          keep_live-entry live ir.initializers x
          ∙ ap (λ b. if b then entry x ir.initializers else none) same),
      keep_live-bytes live ir.initializers,
    )

-- The scope in which a run starts: its inputs, and the initializers as values.
module _ {ℓ} {V : Type ℓ} where
  unfoldable pub scope : (InitializerIr → V) → List (String × InitializerIr) → Store V → Store V
  unfolding entry
  scope load inits s = λ x. elim (s x) [
    | some v ↦ some v
    | none ↦ elim (entry x inits) [ none ↦ none | some init ↦ some (load init) ]
  ]

-- The pruning of nodes leaves the initializers and the outputs.
prune_from-keeps :
    (fuel removed : ℕ) (ir : GraphIr)
    → ((prune_from fuel removed ir).0.outputs ≡ ir.outputs)
      × ((prune_from fuel removed ir).0.initializers ≡ ir.initializers)
unfolding prune_from prune_once
prune_from-keeps zero removed ir = (refl, refl)
prune_from-keeps (suc fuel) removed ir =
    let later =
      prune_from-keeps fuel (removed + (length ir.nodes - length (prune_once ir).nodes))
        (prune_once ir) in
    elim (Bool-cases (length (prune_once ir).nodes == length ir.nodes)) [
      | inl still ↦ rw (prune_from, still) (refl, refl)
      | inr fewer ↦ rw (prune_from, fewer) later
    ]

pub scope-entry :
    {V : Type 0} (load : InitializerIr → V) (inits : List (String × InitializerIr)) (s : Store V)
    (x : String) (c : InitializerIr)
    → s x ≡ none
    → entry x inits ≡ some c
    → scope load inits s x ≡ some (load c)
unfolding scope
scope-entry load inits s x c unset found =
    ap
      (λ o. elim o [
        | some v ↦ some v
        | none ↦ elim (entry x inits) [ none ↦ none | some init ↦ some (load init) ]
      ])
      unset
    ∙ ap (λ o. elim o [ none ↦ none | some init ↦ some (load init) ]) found

retain-true : (nodes : List NodeIr) → retain (λ n. true) nodes ≡ nodes
unfolding retain
retain-true [] = refl
retain-true (n ∷ nodes) = ap (λ q. n ∷ q) (retain-true nodes)

scope-prune :
    {V : Type 0} (load : InitializerIr → V) (ir : GraphIr) (s : Store V) (x : String)
    → is_live ir x ≡ true
    → scope load ir.initializers s x ≡ scope load (prune_dead_initializers ir).0.initializers s x
unfolding scope
scope-prune load ir s x l =
    let same = (prune_dead_initializers-lem ir).0 x (ground arith) in
    let e : entry x (prune_dead_initializers ir).0.initializers ≡ entry x ir.initializers =
      rw l at same in
    ap
      (λ o. elim (s x) [
        | some v ↦ some v
        | none ↦ elim o [ none ↦ none | some init ↦ some (load init) ]
      ])
      (sym e)

-- Where the run of the graph ends without an error, from some inputs and its initializers, the run of the
-- graph without its orphans does too, from the initializers that are left, and both give each output of the
-- graph the same value.
pub prune_orphans-run :
    {V : Type 0} (ops : Operators V) (load : InitializerIr → V) (ir : GraphIr) (s r : Store V)
    → run ops ir.nodes (scope load ir.initializers s) ≡ ok r
    → (r' : Store V) × (run ops
          (prune_orphans ir).0.nodes
          (scope load (prune_orphans ir).0.initializers s)
        ≡ ok r')
      × ((x : String) → is_empty x ≡ false → has ir.outputs x ≡ true → r' x ≡ r x)
unfolding prune_orphans prune_dead_initializers prune_dead_nodes
prune_orphans-run ops load ir s r e =
    let ir₁ = (prune_dead_nodes ir).0 in
    let (outs, inits) = prune_from-keeps (suc (length ir.nodes)) 0 ir in
    let (r₁, runs₁, same₁) = prune_dead_nodes-run ops ir (scope load ir.initializers s) r e in
    let (r₂, runs₂, same₂) =
      run-retain ops (λ n. true) (is_live ir₁) ir₁.nodes (scope load ir.initializers s)
        (scope load (prune_dead_initializers ir₁).0.initializers s) r₁
        (λ n x i rd. Reads-live ir₁ n x i rd) (λ n x i drop l. absurd cc)
        (λ x l. ap (λ q. scope load q s x) (sym inits) ∙ scope-prune load ir₁ s x l) runs₁ in
    (
      r₂,
      ap (λ q. run ops q (scope load (prune_dead_initializers ir₁).0.initializers s))
            (sym (retain-true ir₁.nodes))
          ∙ runs₂,
      λ x ne o. same₂ x (output-live ir₁ x ne (ap (λ q. has q x) outs ∙ o)) ∙ same₁ x ne o,
    )
