-- ===== src/Graph/Meaning.antt =====
-- What it means to run the nodes of a graph (interp.rs), for any values and any operators that read no
-- other names than those that their node, or a subgraph of it, reads from the scope.
use onnx_vulkan_rs_edge.Prelude.{
  ◌≡◌, refl, ◌∙◌, ap, true, false, ◌||◌, List, [], ◌∷◌, ◌++◌, Option, some, if◌then◌else◌,
  Bool-cases, inl, inr, String, str_eq, arith,
}
use text.Mathlib.TextEquality.{eq_iff}
use onnx_vulkan_rs_edge.Error.{Result, ok, ◌>>=◌}
use onnx_vulkan_rs_edge.Graph.Ir.{NodeIr, has, is_empty, outputs_of}
use onnx_vulkan_rs_edge.Rewrite.{reads_of}

pub has_refl : (x : String) → str_eq x x ≡ true
has_refl x = (eq_iff x x).1 refl

-- The empty name is no other name.
pub blank_apart : (y x : String) → is_empty y ≡ true → is_empty x ≡ false → str_eq y x ≡ false
blank_apart y x blank ne = elim (Bool-cases (str_eq y x)) [
  | inr miss ↦ miss
  | inl hit ↦
      let e : y ≡ x = (eq_iff y x).0 hit in
      let bad : is_empty y ≡ is_empty x = ap is_empty e in absurd cc
]

pub has-append : (x : String) (xs ys : List String) → has (xs ++ ys) x ≡ (has xs x || has ys x)
has-append x [] ys = refl
has-append x (y ∷ xs) ys = ground (arith, has-append x xs ys)

module _ {ℓ} (V : Type ℓ) where
  abbrev pub Store : Type ℓ
  Store = String → Option V

  abbrev pub Bindings : Type ℓ
  Bindings = List (String × V)

module _ {ℓ} {V : Type ℓ} where
  -- The values of a scope after some names are bound.
  unfoldable pub bind : Bindings V → Store V → Store V
  bind [] s = s
  bind ((name, v) ∷ rest) s = bind rest (λ x. if str_eq name x then some v else s x)

  abbrev pub names : Bindings V → List String
  names [] = []
  names ((name, v) ∷ rest) = name ∷ names rest

  pub bind-agrees :
      (bs : Bindings V) (s t : Store V) (x : String) → s x ≡ t x → bind bs s x ≡ bind bs t x
  unfolding bind
  bind-agrees [] s t x e = e
  bind-agrees ((name, v) ∷ rest) s t x e =
      bind-agrees rest _ _ x (ap (λ o. if str_eq name x then some v else o) e)

  pub bind-outside :
      (bs : Bindings V) (s : Store V) (x : String) → has (names bs) x ≡ false → bind bs s x ≡ s x
  unfolding bind
  bind-outside [] s x h = refl
  bind-outside ((name, v) ∷ rest) s x h =
      let other : str_eq name x ≡ false = ground arith in
      let outside : has (names rest) x ≡ false = ground arith in
      bind-outside rest _ x outside ∙ ap (λ b. if b then some v else s x) other

-- A name that the node reads: an input, or one that a subgraph of the node captures.
abbrev pub Reads : NodeIr → String → Type 0
Reads n x = (is_empty x ≡ false) × (has (reads_of [] n) x ≡ true)

-- The operators: what a node binds, or its error. They read what the node reads, and bind its outputs.
pub record Operators {ℓ} (V : Type ℓ) : Type ℓ where
  pub evaluate : NodeIr → Store V → Result (Bindings V)
  pub local :
      (n : NodeIr) (s t : Store V)
      → ((x : String) → Reads n x → s x ≡ t x)
      → evaluate n s ≡ evaluate n t
  pub binds :
      (n : NodeIr) (s : Store V) (bs : Bindings V) (x : String)
      → evaluate n s ≡ ok bs
      → has (outputs_of n) x ≡ false
      → has (names bs) x ≡ false

-- All nodes, in their order, with every value kept: the meaning of a list of nodes.
module _ {ℓ} {V : Type ℓ} (ops : Operators V) where
  unfoldable pub run : List NodeIr → Store V → Result (Store V)
  unfolding bind
  run [] s = ok s
  run (n ∷ nodes) s = ops.evaluate n s >>= λ bs. run nodes (bind bs s)
