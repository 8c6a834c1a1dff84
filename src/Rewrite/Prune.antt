-- ===== src/Rewrite/Prune.antt =====
-- `prune_dead_nodes` (rewrite.rs): when it ends, what it leaves, and the runs before and after.
use onnx_vulkan_rs_edge.Prelude.{
  ℕ, zero, suc, ◌+◌, ◌-◌, ◌≡◌, refl, ◌∙◌, ap, Bool, true, false, ◌||◌, List, [], ◌∷◌, length, ◌==◌,
  Bool-cases, inl, inr, String, str_eq, arith,
}
use text.Mathlib.TextEquality.{eq_iff}
use onnx_vulkan_rs_edge.Error.{ok}
use onnx_vulkan_rs_edge.Graph.Ir.{NodeIr, GraphIr, has, is_empty, outputs_of}
use onnx_vulkan_rs_edge.Graph.Meaning.{Store, Operators, run, Reads}
use onnx_vulkan_rs_edge.Rewrite.{
  build, captured_names, any_read, prune_once, prune_from, prune_dead_nodes,
}
use onnx_vulkan_rs_edge.Rewrite.Readers.{is_live, is_read-lem, Reads-is_live}
use onnx_vulkan_rs_edge.Rewrite.Retain.{In, run-retain}

abbrev any_live : GraphIr → List String → Bool
any_live ir [] = false
any_live ir (x ∷ xs) = is_live ir x || any_live ir xs

-- Each node binds a name that is live.
abbrev pub AllLive : GraphIr → Type 0
AllLive ir = (n : NodeIr) → In ir.nodes n → any_live ir (outputs_of n) ≡ true

any_read-outside :
    (ir : GraphIr) (xs : List String) (x : String)
    → any_read (build ir) (captured_names ir.nodes) xs ≡ false
    → is_live ir x ≡ true
    → has xs x ≡ false
any_read-outside ir [] x h l = refl
any_read-outside ir (y ∷ xs) x h l = elim (Bool-cases (str_eq y x)) [
  | inl hit ↦
      let e : y ≡ x = (eq_iff y x).0 hit in
      let l' : is_live ir y ≡ true = ap (is_live ir) e ∙ l in
      absurd (ground (arith, is_read-lem ir y))
  | inr miss ↦ ground (arith, any_read-outside ir xs x)
]

pub Reads-live :
    (ir : GraphIr) (n : NodeIr) (x : String) → In ir.nodes n → Reads n x → is_live ir x ≡ true
Reads-live ir n x i r = let l = Reads-is_live ir x ir.nodes i.0 n i.1 r in ground (arith, l, r.0)

pub output-live :
    (ir : GraphIr) (x : String) → is_empty x ≡ false → has ir.outputs x ≡ true → is_live ir x ≡ true
output-live ir x ne o = ground arith

module _ {ℓ} {V : Type ℓ} (ops : Operators V) where
  prune_once-run :
      (ir : GraphIr) (s t r : Store V)
      → ((x : String) → is_live ir x ≡ true → s x ≡ t x)
      → run ops ir.nodes s ≡ ok r
      → (r' : Store V) × (run ops (prune_once ir).nodes t ≡ ok r')
        × ((x : String) → is_empty x ≡ false → has ir.outputs x ≡ true → r' x ≡ r x)
  unfolding prune_once
  prune_once-run ir s t r agree e =
      let (r', runs, same) =
        run-retain ops (λ n. any_read (build ir) (captured_names ir.nodes) (outputs_of n))
          (is_live ir) ir.nodes s t r (λ n x i rd. Reads-live ir n x i rd)
          (λ n x i drop l. any_read-outside ir (outputs_of n) x drop l) agree e in
      (r', runs, λ x ne o. same x (output-live ir x ne o))

  prune_from-run :
      (fuel removed : ℕ) (ir : GraphIr) (s r : Store V)
      → run ops ir.nodes s ≡ ok r
      → (r' : Store V) × (run ops (prune_from fuel removed ir).0.nodes s ≡ ok r')
        × ((x : String) → is_empty x ≡ false → has ir.outputs x ≡ true → r' x ≡ r x)
  unfolding prune_from
  prune_from-run zero removed ir s r e = (r, e, λ x ne o. refl)
  prune_from-run (suc fuel) removed ir s r e =
      let (r₁, runs, same) = prune_once-run ir s s r (λ x l. refl) e in
      elim (Bool-cases (length (prune_once ir).nodes == length ir.nodes)) [
        | inl still ↦ (r₁, rw (prune_from, still) runs, same)
        | inr fewer ↦
            let (r₂, runs₂, same₂) =
              prune_from-run fuel (removed + (length ir.nodes - length (prune_once ir).nodes))
                (prune_once ir) s r₁ runs in
            (r₂, rw (prune_from, fewer) runs₂, λ x ne o. same₂ x ne o ∙ same x ne o)
      ]

-- Where the run of the nodes before the pruning ends without an error, the run of the nodes that are left
-- does too, and both give each output of the graph the same value.
pub prune_dead_nodes-run {ℓ} :
    {V : Type ℓ} (ops : Operators V) (ir : GraphIr) (s r : Store V)
    → run ops ir.nodes s ≡ ok r
    → (r' : Store V) × (run ops (prune_dead_nodes ir).0.nodes s ≡ ok r')
      × ((x : String) → is_empty x ≡ false → has ir.outputs x ≡ true → r' x ≡ r x)
unfolding prune_dead_nodes
prune_dead_nodes-run ops ir s r e = prune_from-run ops (suc (length ir.nodes)) 0 ir s r e
