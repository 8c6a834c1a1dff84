-- ===== src/Rewrite/Layernorm/Chain.antt =====
-- `match_layernorm` (rewrite.rs): the chain of nodes that a match is made of.
use onnx_vulkan_rs_edge.Prelude.{
  ℕ, ◌≡◌, ◌⊎◌, refl, sym, ◌∙◌, ap, subst, Bool, true, false, not, ◌&&◌, ◌||◌, List, [], ◌∷◌, ◌++◌,
  Option, none, some, length, get_elem?, ◌==◌, ==_iff, Bool-cases, Option-cases, inl, inr, String,
  str_eq, arith, ℤ,
}
use text.Mathlib.TextEquality.{eq_iff}
use onnx_vulkan_rs_edge.Graph.Initializer.{InitializerIr}
use onnx_vulkan_rs_edge.Graph.Ir.{NodeIr, GraphIr, has, is_empty, inputs_of, op}
use onnx_vulkan_rs_edge.Rewrite.{Index, build, only_consumer, get_consumers}
use onnx_vulkan_rs_edge.Rewrite.Consumers.{readers, only_consumer_iff, consumers_of-build, or_nil}
use onnx_vulkan_rs_edge.Rewrite.Layernorm.{
  ◌>>=◌, require, head, scalar_f32, per_channel_len, other_input, reduces_last_axis, is_op,
  first_output, same_pair, starts_with, find_op, contains_index, follow, Match, with_bias,
  match_layernorm,
}

bind-some {ℓ κ} :
    {A : Type ℓ} {B : Type κ} (o : Option A) (f : A → Option B) (b : B)
    → (o >>= f) ≡ some b
    → (a : A) × (o ≡ some a) × (f a ≡ some b)
bind-some none f b h = absurd cc
bind-some (some a) f b h = (a, refl, h)

require-some {ℓ} :
    {A : Type ℓ} (t : Bool) (o : Option A) (a : A)
    → require t o ≡ some a
    → (t ≡ true) × (o ≡ some a)
require-some true o a h = (refl, h)
require-some false o a h = absurd cc

pub follow-some :
    (nodes : List NodeIr) (index : Index) (n : NodeIr) (o : String) (p : ℕ × NodeIr)
    → follow nodes index n o ≡ some p
    → (only_consumer index (first_output n) ≡ some p.0)
      × (get_elem? nodes p.0 ≡ some p.1)
      × (is_op p.1 o ≡ true)
unfolding follow
follow-some nodes index n o p h =
    let (i, c, h₁) = bind-some (only_consumer index (first_output n)) _ p h in
    let (m, at, h₂) = bind-some (get_elem? nodes i) _ p h₁ in
    let (is, e) = require-some (is_op m o) (some (i, m)) p h₂ in
    let same : (i, m) ≡ p = cc in
    (
      c ∙ ap (λ q. some q.0) same,
      subst (λ q. get_elem? nodes q.0 ≡ some q.1) same at,
      subst (λ q. is_op q.1 o ≡ true) same is,
    )

-- The same, to split on: what was bound, and what was required.
pub data Bound {ℓ κ} {A : Type ℓ} {B : Type κ} (o : Option A) (f : A → Option B) (b : B)
    : Type (ℓ ⊔ κ) where
  bound : (a : A) → o ≡ some a → f a ≡ some b → Bound o f b

pub data Required {ℓ} {A : Type ℓ} (t : Bool) (o : Option A) (a : A) : Type ℓ where
  required : t ≡ true → o ≡ some a → Required t o a

pub bind-Bound {ℓ κ} :
    {A : Type ℓ} {B : Type κ} (o : Option A) (f : A → Option B) (b : B)
    → (o >>= f) ≡ some b
    → Bound o f b
bind-Bound o f b h = let (a, e, h') = bind-some o f b h in bound a e h'

pub require-Required {ℓ} :
    {A : Type ℓ} (t : Bool) (o : Option A) (a : A) → require t o ≡ some a → Required t o a
require-Required t o a h = let (e, h') = require-some t o a h in required e h'

-- The name is no output of the graph, and only the given nodes take it in.
abbrev pub Inner : GraphIr → List ℕ → String → Type 0
Inner ir members x =
    (has ir.outputs x ≡ false)
    × ((j : ℕ) → contains_index (readers 0 ir.nodes x) j ≡ true → contains_index members j ≡ true)

-- What the node at an index binds first is the given output, or inner.
abbrev pub Settled : GraphIr → List ℕ → String → ℕ → Type 0
Settled ir members out i =
    (n : NodeIr)
    → get_elem? ir.nodes i ≡ some n
    → is_empty (first_output n) ≡ false
    → (first_output n ≡ out) ⊎ Inner ir members (first_output n)

abbrev pub AllSettled : GraphIr → List ℕ → String → List ℕ → Type 0
AllSettled ir members out [] = Unit
AllSettled ir members out (i ∷ is) = Settled ir members out i × AllSettled ir members out is

pub AllSettled-Settled :
    (ir : GraphIr) (members : List ℕ) (out : String) (is : List ℕ) (i : ℕ)
    → AllSettled ir members out is
    → contains_index is i ≡ true
    → Settled ir members out i
AllSettled-Settled ir members out [] i all h = absurd cc
AllSettled-Settled ir members out (j ∷ is) i all h = elim (Bool-cases (j == i)) [
  | inl same ↦ subst (Settled ir members out) ((==_iff j i).0 same) all.0
  | inr other ↦ AllSettled-Settled ir members out is i all.1 (ground arith)
]

-- A node whose first output has one consumer, a member.
pub one_consumer-Settled :
    (ir : GraphIr) (members : List ℕ) (out : String) (i j : ℕ) (m : NodeIr)
    → get_elem? ir.nodes i ≡ some m
    → only_consumer (build ir) (first_output m) ≡ some j
    → contains_index members j ≡ true
    → Settled ir members out i
one_consumer-Settled ir members out i j m at only c n at' ne =
    let e : m ≡ n = cc in
    let only' : only_consumer (build ir) (first_output n) ≡ some j =
      ap (λ q. only_consumer (build ir) (first_output q)) (sym e) ∙ only in
    let (free, rs) = (only_consumer_iff ir (first_output n) j ne).0 only' in
    inr (
      free,
      λ k h.
          let h' : (j == k || false) ≡ true = ap (λ q. contains_index q k) (sym rs) ∙ h in
          elim (Bool-cases (j == k)) [
            | inl same ↦ ap (contains_index members) (sym ((==_iff j k).0 same)) ∙ c
            | inr other ↦ absurd (ground arith)
          ],
    )

find_op-some :
    (nodes : List NodeIr) (o : String) (is : List ℕ) (i : ℕ)
    → find_op nodes o is ≡ some i
    → (contains_index is i ≡ true) × ((n : NodeIr) → get_elem? nodes i ≡ some n → is_op n o ≡ true)
unfolding find_op
find_op-some nodes o [] i h = absurd cc
find_op-some nodes o (j ∷ is) i h = elim (Option-cases (get_elem? nodes j)) [
  | inl gone ↦ absurd (let h' : none ≡ some i = rw (find_op, gone) at h in cc)
  | inr (n, at) ↦ elim (Bool-cases (is_op n o)) [
    | inl is_o ↦
        let h' : some j ≡ some i = rw (find_op, at, is_o) at h in
        let e : j ≡ i = cc in
        (
          (let s = (==_iff j i).1 e in ground arith),
          λ n' at'.
              let same : some n ≡ some n' = sym at ∙ ap (get_elem? nodes) e ∙ at' in
              let e' : n ≡ n' = cc in ap (λ q. is_op q o) (sym e') ∙ is_o,
        )
    | inr other ↦
        let (c, all) = find_op-some nodes o is i (rw (find_op, at, other) at h) in
        (ground arith, all)
  ]
]

apart_ops : (n : NodeIr) → is_op n "Pow" ≡ true → is_op n "Div" ≡ true → ⊥
apart_ops n p d =
    let p' : str_eq (op n) "Pow" ≡ true = ground arith in
    let d' : str_eq (op n) "Div" ≡ true = ground arith in
    let e : str_eq "Pow" "Div" ≡ true =
      ap (λ q. str_eq q "Div") (sym ((eq_iff (op n) "Pow").0 p')) ∙ d' in
    absurd cc

-- Two different numbers of a list of two are all that it holds.
both_of_two :
    (rs : List ℕ) (p d j : ℕ)
    → (length rs == 2) ≡ true
    → contains_index rs p ≡ true
    → contains_index rs d ≡ true
    → (p == d) ≡ false
    → contains_index rs j ≡ true
    → ((p == j) ≡ true) ⊎ ((d == j) ≡ true)
both_of_two [] p d j l cp cd ne cj = absurd cc
both_of_two (a ∷ []) p d j l cp cd ne cj = absurd (ground arith)
both_of_two (a ∷ b ∷ []) p d j l cp cd ne cj = elim (Bool-cases (p == j)) [
  | inl e ↦ inl e
  | inr o ↦ inr (ground arith)
]
both_of_two (a ∷ b ∷ c ∷ rs) p d j l cp cd ne cj = absurd (ground arith)

two_consumers-Settled :
    (ir : GraphIr) (members : List ℕ) (out : String) (i p d : ℕ) (m : NodeIr) (rs : List ℕ)
    → get_elem? ir.nodes i ≡ some m
    → has ir.outputs (first_output m) ≡ false
    → get_consumers (first_output m) (build ir).consumers ≡ some rs
    → ((j : ℕ) → contains_index rs j ≡ true → contains_index members j ≡ true)
    → Settled ir members out i
two_consumers-Settled ir members out i p d m rs at free found within n at' ne =
    let e : m ≡ n = cc in
    let list = consumers_of-build ir (first_output n) ne in
    let found' : get_consumers (first_output n) (build ir).consumers ≡ some rs =
      ap (λ q. get_consumers (first_output q) (build ir).consumers) (sym e) ∙ found in
    let same : rs ≡ readers 0 ir.nodes (first_output n) = sym (ap or_nil found') ∙ list in
    inr (
      ap (λ q. has ir.outputs (first_output q)) (sym e) ∙ free,
      λ j h. within j (ap (λ q. contains_index q j) same ∙ h),
    )

pub contains_index-append :
    (xs : List ℕ) (k j : ℕ) → contains_index xs j ≡ true → contains_index (xs ++ k ∷ []) j ≡ true
contains_index-append [] k j h = absurd cc
contains_index-append (x ∷ xs) k j h = ground (arith, contains_index-append xs k j)

pub contains_index_self : (xs : List ℕ) (k : ℕ) → contains_index (xs ++ k ∷ []) k ≡ true
contains_index_self [] k = ground arith
contains_index_self (x ∷ xs) k = ground (arith, contains_index_self xs k)

-- A chain of eight nodes, in the order of the pattern, of which all but the last are settled whatever
-- other member there is.
pub record Chain (ir : GraphIr) (is : List ℕ) (mul : NodeIr) : Type 0 where
  pub last : ℕ
  pub chain : List ℕ
  pub whole : is ≡ chain ++ last ∷ []
  pub end : get_elem? ir.nodes last ≡ some mul
  pub inner :
      (members : List ℕ) (out : String)
      → ((j : ℕ) → contains_index is j ≡ true → contains_index members j ≡ true)
      → AllSettled ir members out chain

pub some_injective {ℓ} : {A : Type ℓ} (a b : A) → some a ≡ some b → a ≡ b
some_injective a b h = cc

pattern-Chain :
    (ir : GraphIr) (root i_pow : ℕ) (mean pow : NodeIr) (sub var add sqrt div mul : ℕ × NodeIr)
    (rs : List ℕ)
    → get_elem? ir.nodes root ≡ some mean
    → follow ir.nodes (build ir) mean "Sub" ≡ some sub
    → not (has ir.outputs (first_output sub.1)) ≡ true
    → get_consumers (first_output sub.1) (build ir).consumers ≡ some rs
    → (length rs == 2) ≡ true
    → find_op ir.nodes "Pow" rs ≡ some i_pow
    → get_elem? ir.nodes i_pow ≡ some pow
    → follow ir.nodes (build ir) pow "ReduceMean" ≡ some var
    → follow ir.nodes (build ir) var.1 "Add" ≡ some add
    → follow ir.nodes (build ir) add.1 "Sqrt" ≡ some sqrt
    → follow ir.nodes (build ir) sqrt.1 "Div" ≡ some div
    → contains_index rs div.0 ≡ true
    → follow ir.nodes (build ir) div.1 "Mul" ≡ some mul
    → Chain ir (root ∷ sub.0 ∷ i_pow ∷ var.0 ∷ add.0 ∷ sqrt.0 ∷ div.0 ∷ mul.0 ∷ []) mul.1
pattern-Chain ir root i_pow mean pow sub var add sqrt div mul rs at_mean to_sub free found two
      to_pow at_pow to_var to_add to_sqrt to_div in_rs to_mul =
    let is : List ℕ = root ∷ sub.0 ∷ i_pow ∷ var.0 ∷ add.0 ∷ sqrt.0 ∷ div.0 ∷ mul.0 ∷ [] in
    let f_sub = follow-some ir.nodes (build ir) mean "Sub" sub to_sub in
    let f_var = follow-some ir.nodes (build ir) pow "ReduceMean" var to_var in
    let f_add = follow-some ir.nodes (build ir) var.1 "Add" add to_add in
    let f_sqrt = follow-some ir.nodes (build ir) add.1 "Sqrt" sqrt to_sqrt in
    let f_div = follow-some ir.nodes (build ir) sqrt.1 "Div" div to_div in
    let f_mul = follow-some ir.nodes (build ir) div.1 "Mul" mul to_mul in
    let f_pow = find_op-some ir.nodes "Pow" rs i_pow to_pow in
    let differ : (i_pow == div.0) ≡ false = elim (Bool-cases (i_pow == div.0)) [
      | inr other ↦ other
      | inl same ↦
          let e : i_pow ≡ div.0 = (==_iff i_pow div.0).0 same in
          absurd (apart_ops div.1 (f_pow.1 div.1 (ap (get_elem? ir.nodes) e ∙ f_div.1)) f_div.2)
    ] in
    record {
      last = mul.0;
      chain = root ∷ sub.0 ∷ i_pow ∷ var.0 ∷ add.0 ∷ sqrt.0 ∷ div.0 ∷ [];
      whole = refl;
      end = f_mul.1;
      inner = λ members out within. (
        one_consumer-Settled ir members out root sub.0 mean at_mean f_sub.0
            (within sub.0 (ground arith)),
        (
          two_consumers-Settled ir members out sub.0 i_pow div.0 sub.1 rs f_sub.1 (ground arith)
              found
              (λ j h. elim (both_of_two rs i_pow div.0 j two f_pow.0 in_rs differ h) [
                | inl e ↦ within j (ground arith)
                | inr e ↦ within j (ground arith)
              ]),
          (
            one_consumer-Settled ir members out i_pow var.0 pow at_pow f_var.0
                (within var.0 (ground arith)),
            (
              one_consumer-Settled ir members out var.0 add.0 var.1 f_var.1 f_add.0
                  (within add.0 (ground arith)),
              (
                one_consumer-Settled ir members out add.0 sqrt.0 add.1 f_add.1 f_sqrt.0
                    (within sqrt.0 (ground arith)),
                (
                  one_consumer-Settled ir members out sqrt.0 div.0 sqrt.1 f_sqrt.1 f_div.0
                      (within div.0 (ground arith)),
                  (
                    one_consumer-Settled ir members out div.0 mul.0 div.1 f_div.1 f_mul.0
                        (within mul.0 (ground arith)),
                    tt,
                  ),
                ),
              ),
            ),
          ),
        ),
      );
    }

pub match_layernorm-Chain :
    (ir : GraphIr) (root : ℕ) (constants : List (String × InitializerIr)) (m : Match)
    → match_layernorm ir.nodes root (build ir) constants ≡ some m
    → (is : List ℕ) × (mul : NodeIr) × (ins : List String) × (eps : ℕ) × (channels : ℤ) × Chain ir
        is mul
      × (with_bias ir.nodes (build ir) constants is mul ins eps channels ≡ m)
unfolding match_layernorm build
match_layernorm-Chain ir root constants m h = elim (bind-Bound (get_elem? ir.nodes root) _ m h) [
  | bound mean at_mean h₁ ↦
      elim (require-Required (is_op mean "ReduceMean" && reduces_last_axis mean) _ m h₁) [
        | required t₁ h₂ ↦ elim (bind-Bound (head (inputs_of mean)) _ m h₂) [
          | bound x first h₃ ↦ elim (bind-Bound (follow ir.nodes (build ir) mean "Sub") _ m h₃) [
            | bound sub to_sub h₄ ↦
                elim (require-Required (same_pair x (first_output mean) (inputs_of sub.1)) _ m h₄) [
                  | required t₂ h₅ ↦
                      elim (require-Required (not (has ir.outputs (first_output sub.1))) _ m h₅) [
                        | required free h₆ ↦
                            elim (bind-Bound
                              (get_consumers (first_output sub.1) (build ir).consumers) _ m h₆) [
                                | bound rs found h₇ ↦
                                    elim (require-Required (length rs == 2) _ m h₇) [
                                      | required two h₈ ↦
                                          elim (bind-Bound (find_op ir.nodes "Pow" rs) _ m h₈) [
                                            | bound i_pow to_pow h₉ ↦
                                                elim (bind-Bound (get_elem? ir.nodes i_pow) _ m
                                                  h₉) [
                                                    | bound pow at_pow h₁₀ ↦
                                                        elim (require-Required
                                                          (starts_with (first_output sub.1)
                                                            (inputs_of pow))
                                                          _ m h₁₀) [
                                                            | required t₃ h₁₁ ↦
                                                              elim (bind-Bound
                                                              (get_elem? (inputs_of pow) 1) _ m
                                                              h₁₁) [
                                                                | bound exponent t₄ h₁₂ ↦
                                                                  elim (bind-Bound
                                                                  (scalar_f32 exponent constants) _
                                                                  m h₁₂) [
                                                                    | bound bits t₅ h₁₃ ↦
                                                                      elim (require-Required
                                                                      (bits == 1073741824) _ m
                                                                      h₁₃) [
                                                                        | required t₆ h₁₄ ↦
                                                                          elim (bind-Bound
                                                                          (follow ir.nodes
                                                                          (build ir) pow
                                                                          "ReduceMean")
                                                                          _ m h₁₄) [
                                                                            | bound var to_var h₁₅ ↦
                                                                              elim (require-Required
                                                                              (starts_with
                                                                              (first_output pow)
                                                                              (inputs_of var.1)
                                                                              && reduces_last_axis
                                                                              var.1)
                                                                              _ m h₁₅) [
                                                                                | required t₇ h₁₆ ↦
                                                                                  elim (bind-Bound
                                                                                  (follow ir.nodes
                                                                                  (build ir) var.1
                                                                                  "Add")
                                                                                  _ m h₁₆) [
                                                                                    | bound add
                                                                                      to_add h₁₇ ↦
                                                                                      elim (bind-Bound
                                                                                      (other_input
                                                                                      add.1
                                                                                      (first_output
                                                                                      var.1))
                                                                                      _ m h₁₇) [
                                                                                        | bound eps
                                                                                          t₈ h₁₈ ↦
                                                                                          elim (bind-Bound
                                                                                          (scalar_f32
                                                                                          eps
                                                                                          constants)
                                                                                          _ m h₁₈) [
                                                                                            | bound
                                                                                              epsilon
                                                                                              t₉
                                                                                              h₁₉ ↦
                                                                                              elim (bind-Bound
                                                                                              (follow
                                                                                              ir.nodes
                                                                                              (build
                                                                                              ir)
                                                                                              add.1
                                                                                              "Sqrt")
                                                                                              _ m
                                                                                              h₁₉) [
                                                                                                | bound
                                                                                                  sqrt
                                                                                                  to_sqrt
                                                                                                  h₂₀ ↦
                                                                                                  elim (require-Required
                                                                                                  (starts_with
                                                                                                  (first_output
                                                                                                  add.1)
                                                                                                  (inputs_of
                                                                                                  sqrt.1))
                                                                                                  _
                                                                                                  m
                                                                                                  h₂₀) [
                                                                                                    | required t₁₀ h₂₁ ↦ elim (bind-Bound (follow ir.nodes (build ir) sqrt.1 "Div") _ m h₂₁) [ bound div to_div h₂₂ ↦ elim (require-Required (same_pair (first_output sub.1) (first_output sqrt.1) (inputs_of div.1)) _ m h₂₂) [ required t₁₁ h₂₃ ↦ elim (require-Required (contains_index rs div.0) _ m h₂₃) [ required in_readers h₂₄ ↦ elim (bind-Bound (follow ir.nodes (build ir) div.1 "Mul") _ m h₂₄) [ bound mul to_mul h₂₅ ↦ elim (bind-Bound (other_input mul.1 (first_output div.1)) _ m h₂₅) [ bound scale t₁₂ h₂₆ ↦ elim (bind-Bound (per_channel_len scale constants) _ m h₂₆) [ bound channels t₁₃ h₂₇ ↦ (root ∷ sub.0 ∷ i_pow ∷ var.0 ∷ add.0 ∷ sqrt.0 ∷ div.0 ∷ mul.0 ∷ [], mul.1, x ∷ scale ∷ [], epsilon, channels, pattern-Chain ir root i_pow mean pow sub var add sqrt div mul rs at_mean to_sub free found two to_pow at_pow to_var to_add to_sqrt to_div in_readers to_mul, some_injective (with_bias ir.nodes (build ir) constants (root ∷ sub.0 ∷ i_pow ∷ var.0 ∷ add.0 ∷ sqrt.0 ∷ div.0 ∷ mul.0 ∷ []) mul.1 (x ∷ scale ∷ []) epsilon channels) m h₂₇) ] ] ] ] ] ]
                                                                                                  ]
                                                                                              ]
                                                                                          ]
                                                                                      ]
                                                                                  ]
                                                                              ]
                                                                          ]
                                                                      ]
                                                                  ]
                                                              ]
                                                          ]
                                                  ]
                                          ]
                                    ]
                              ]
                      ]
                ]
          ]
        ]
      ]
]
