-- ===== src/Rewrite/Layernorm/Inner.antt =====
-- `match_layernorm` (rewrite.rs): who reads what the nodes of a match bind.
use onnx_vulkan_rs_edge.Prelude.{
  ℕ, ◌≡◌, ◌⊎◌, sym, ◌∙◌, ap, subst, true, false, List, [], ◌∷◌, ◌++◌, some, get_elem?, ◌==◌,
  Bool-cases, Option-cases, inl, inr, String, arith, ℤ, ◌==ℤ◌,
}
use onnx_vulkan_rs_edge.Graph.Initializer.{InitializerIr}
use onnx_vulkan_rs_edge.Graph.Ir.{NodeIr, GraphIr, is_empty}
use onnx_vulkan_rs_edge.Rewrite.{Index, build}
use onnx_vulkan_rs_edge.Rewrite.Layernorm.{
  per_channel_len, other_input, first_output, contains_index, follow, Match, find_bias, with_bias,
  match_layernorm, fused_node,
}
use onnx_vulkan_rs_edge.Rewrite.Layernorm.Chain.{
  bound, required, bind-Bound, require-Required, follow-some, Inner, Settled, AllSettled-Settled,
  one_consumer-Settled, contains_index-append, contains_index_self, some_injective, Chain,
  match_layernorm-Chain,
}

contains_index-last :
    (xs : List ℕ) (k j : ℕ)
    → contains_index (xs ++ k ∷ []) j ≡ true
    → (contains_index xs j ≡ true) ⊎ (k ≡ j)
contains_index-last [] k j h = inr (ground arith)
contains_index-last (x ∷ xs) k j h = elim (Bool-cases (x == j)) [
  | inl same ↦ inl (ground arith)
  | inr other ↦ elim (contains_index-last xs k j (ground arith)) [
    | inl b ↦ inl (ground arith)
    | inr e ↦ inr e
  ]
]

-- Every node of the chain is settled, and its last one where it binds the output.
Chain-Settled :
    (ir : GraphIr) (is members : List ℕ) (mul : NodeIr) (out : String) (i : ℕ)
    → (c : Chain ir is mul)
    → ((j : ℕ) → contains_index is j ≡ true → contains_index members j ≡ true)
    → Settled ir members out c.last
    → contains_index is i ≡ true
    → Settled ir members out i
Chain-Settled ir is members mul out i c within final h =
    elim (contains_index-last c.chain c.last i (ap (λ q. contains_index q i) (sym c.whole) ∙ h)) [
      | inl b ↦ AllSettled-Settled ir members out c.chain i (c.inner members out within) b
      | inr e ↦ subst (Settled ir members out) e final
    ]

find_bias-follow :
    (nodes : List NodeIr) (index : Index) (constants : List (String × InitializerIr)) (mul : NodeIr)
    (channels : ℤ) (p : ℕ × NodeIr) (bias : String)
    → find_bias nodes index constants mul channels ≡ some (p, bias)
    → follow nodes index mul "Add" ≡ some p
unfolding find_bias
find_bias-follow nodes index constants mul channels p bias h =
    elim (bind-Bound (follow nodes index mul "Add") _ (p, bias) h) [
      | bound add to_add h₁ ↦
          elim (bind-Bound (other_input add.1 (first_output mul)) _ (p, bias) h₁) [
            | bound b t₁ h₂ ↦ elim (bind-Bound (per_channel_len b constants) _ (p, bias) h₂) [
              | bound len t₂ h₃ ↦ elim (require-Required (len ==ℤ channels) _ (p, bias) h₃) [
                | required t₃ h₄ ↦
                    to_add ∙ ap some (ap (λ q. q.0) (some_injective (add, b) (p, bias) h₄))
              ]
            ]
          ]
    ]

binds_output-Settled :
    (ir : GraphIr) (members : List ℕ) (i : ℕ) (m : NodeIr)
    → get_elem? ir.nodes i ≡ some m
    → Settled ir members (first_output m) i
binds_output-Settled ir members i m at n at' ne =
    let e : m ≡ n = some_injective m n (sym at ∙ at') in inl (ap first_output (sym e))

-- What a node of a match binds first is the output of the fused node, or it is no output of the graph and
-- only nodes of the match take it in. Subgraphs that capture it are not looked for.
pub match_layernorm-Inner :
    (ir : GraphIr) (root : ℕ) (constants : List (String × InitializerIr)) (m : Match) (i : ℕ)
    (n : NodeIr)
    → match_layernorm ir.nodes root (build ir) constants ≡ some m
    → contains_index m.members i ≡ true
    → get_elem? ir.nodes i ≡ some n
    → is_empty (first_output n) ≡ false
    → (first_output n ≡ first_output m.fused) ⊎ Inner ir m.members (first_output n)
unfolding with_bias
match_layernorm-Inner ir root constants m i n h member at ne =
    let (is, mul, ins, eps, channels, c, e) = match_layernorm-Chain ir root constants m h in
    elim (Option-cases (find_bias ir.nodes (build ir) constants mul channels)) [
      | inl unmet ↦
          let e' : record { members = is; fused = fused_node (first_output mul) ins eps } ≡ m =
            rw (with_bias, unmet) at e in
          subst
            (λ q.
              contains_index q.members i ≡ true
              → (first_output n ≡ first_output q.fused) ⊎ Inner ir q.members (first_output n))
            e'
            (λ b.
              Chain-Settled ir is is mul (first_output mul) i c (λ j b'. b')
                (binds_output-Settled ir is c.last mul c.end) b n at ne)
            member
      | inr ((add, bias), met) ↦
          let e' : record {
            members = is ++ add.0 ∷ [];
            fused = fused_node (first_output add.1) (ins ++ bias ∷ []) eps;
          }
              ≡ m =
            rw (with_bias, met) at e in
          let members = is ++ add.0 ∷ [] in
          let out = first_output add.1 in
          let f =
            follow-some ir.nodes (build ir) mul "Add" add
              (find_bias-follow ir.nodes (build ir) constants mul channels add bias met) in
          let within : (j : ℕ) → contains_index is j ≡ true → contains_index members j ≡ true =
            λ j b. contains_index-append is add.0 j b in
          let final =
            one_consumer-Settled ir members out c.last add.0 mul c.end f.0
              (contains_index_self is add.0) in
          subst
            (λ q.
              contains_index q.members i ≡ true
              → (first_output n ≡ first_output q.fused) ⊎ Inner ir q.members (first_output n))
            e'
            (λ b. elim (contains_index-last is add.0 i b) [
              | inl b' ↦ Chain-Settled ir is members mul out i c within final b' n at ne
              | inr e'' ↦
                  subst (Settled ir members out) e''
                    (binds_output-Settled ir members add.0 add.1 f.1) n at ne
            ])
            member
    ]
