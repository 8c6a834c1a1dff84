-- ===== src/Rewrite/Consumers.antt =====
-- The lists of consumers that `Index::build` (rewrite.rs) makes, and `only_consumer`.
use onnx_vulkan_rs_edge.Prelude.{
  ℕ, suc, ◌<◌, ◌≡◌, ◌↔◌, refl, sym, ◌∙◌, ap, subst, true, false, List, [], ◌∷◌, ◌++◌, Option, none,
  some, if◌then◌else◌, Bool-cases, Option-cases, inl, inr, String, str_eq, arith,
}
use text.Mathlib.TextEquality.{eq_iff}
use onnx_vulkan_rs_edge.Graph.Ir.{NodeIr, GraphIr, has, is_empty, inputs_of}
use onnx_vulkan_rs_edge.Graph.Meaning.{blank_apart}
use onnx_vulkan_rs_edge.Rewrite.{
  last_is, enter, enter_inputs, enter_nodes, build, get_consumers, only_consumer,
}

-- The indices of the nodes that take the name in, from a first index on.
abbrev pub readers : ℕ → List NodeIr → String → List ℕ
readers i [] x = []
readers i (n ∷ nodes) x =
    if has (inputs_of n) x then i ∷ readers (suc i) nodes x else readers (suc i) nodes x

abbrev pub or_nil : Option (List ℕ) → List ℕ
or_nil none = []
or_nil (some list) = list

abbrev pub consumers_of : String → List (String × List ℕ) → List ℕ
consumers_of x m = or_nil (get_consumers x m)

-- A list with a number at its end, once.
abbrev with_last : ℕ → List ℕ → List ℕ
with_last i list = if last_is i list then list else list ++ i ∷ []

last_is-append : (i : ℕ) (list : List ℕ) → last_is i (list ++ i ∷ []) ≡ true
last_is-append i [] = ground arith
last_is-append i (j ∷ []) = ground arith
last_is-append i (j ∷ k ∷ list) = last_is-append i (k ∷ list)

with_last-again : (i : ℕ) (list : List ℕ) → with_last i (with_last i list) ≡ with_last i list
with_last-again i list = elim (Bool-cases (last_is i list)) [
  | inl last ↦ rw (last, last) refl
  | inr other ↦ rw (other, last_is-append i list) refl
]

consumers_of-enter :
    (x name : String) (i : ℕ) (m : List (String × List ℕ))
    → consumers_of x (enter name i m)
      ≡ (if str_eq name x then with_last i (consumers_of x m) else consumers_of x m)
unfolding enter get_consumers
consumers_of-enter x name i [] = elim (Bool-cases (str_eq name x)) [
  | inl hit ↦ rw hit refl
  | inr miss ↦ rw miss refl
]
consumers_of-enter x name i ((key, list) ∷ m) = elim (Bool-cases (str_eq key name)) [
  | inl same ↦
      let e : key ≡ name = (eq_iff key name).0 same in
      elim (Bool-cases (str_eq key x)) [
        | inl hit ↦
            let n : str_eq name x ≡ true = ap (λ q. str_eq q x) (sym e) ∙ hit in
            rw (same, hit, n) refl
        | inr miss ↦
            let n : str_eq name x ≡ false = ap (λ q. str_eq q x) (sym e) ∙ miss in
            rw (same, miss, n) refl
      ]
  | inr other ↦ elim (Bool-cases (str_eq key x)) [
    | inr miss ↦ rw (other, miss) (consumers_of-enter x name i m)
    | inl hit ↦ elim (Bool-cases (str_eq name x)) [
      | inr n ↦ rw (other, hit, n) refl
      | inl n ↦
          let bad : str_eq key name ≡ true =
            (eq_iff key name).1 ((eq_iff key x).0 hit ∙ sym ((eq_iff name x).0 n)) in
          absurd cc
    ]
  ]
]

consumers_of-enter_inputs :
    (x : String) (i : ℕ) (ins : List String) (m : List (String × List ℕ))
    → is_empty x ≡ false
    → consumers_of x (enter_inputs i ins m)
      ≡ (if has ins x then with_last i (consumers_of x m) else consumers_of x m)
unfolding enter_inputs
consumers_of-enter_inputs x i [] m ne = refl
consumers_of-enter_inputs x i (y ∷ ins) m ne = elim (Bool-cases (is_empty y)) [
  | inl blank ↦ rw (blank, blank_apart y x blank ne) (consumers_of-enter_inputs x i ins m ne)
  | inr full ↦
      let tail = consumers_of-enter_inputs x i ins (enter y i m) ne in
      let head = consumers_of-enter x y i m in
      elim (Bool-cases (str_eq y x)) [
        | inr miss ↦
            rw (full, miss)
              (tail ∙ ap (λ q. if has ins x then with_last i q else q) (rw miss at head))
        | inl hit ↦
            let head' : consumers_of x (enter y i m) ≡ with_last i (consumers_of x m) =
              rw hit at head in
            rw (full, hit)
              (tail
                ∙ ap (λ q. if has ins x then with_last i q else q) head'
                ∙ elim (Bool-cases (has ins x)) [
                  | inl more ↦ rw more (with_last-again i (consumers_of x m))
                  | inr done ↦ rw done refl
                ])
      ]
]

abbrev AllBelow : ℕ → List ℕ → Type 0
AllBelow i [] = Unit
AllBelow i (j ∷ list) = (j < i) × AllBelow i list

AllBelow-last : (i : ℕ) (list : List ℕ) → AllBelow i list → last_is i list ≡ false
AllBelow-last i [] b = refl
AllBelow-last i (j ∷ []) b = let lt = b.0 in ground arith
AllBelow-last i (j ∷ k ∷ list) b = AllBelow-last i (k ∷ list) b.1

AllBelow-suc : (i : ℕ) (list : List ℕ) → AllBelow i list → AllBelow (suc i) list
AllBelow-suc i [] b = tt
AllBelow-suc i (j ∷ list) b = (let lt = b.0 in omega arith, AllBelow-suc i list b.1)

AllBelow-append : (i : ℕ) (list : List ℕ) → AllBelow i list → AllBelow (suc i) (list ++ i ∷ [])
AllBelow-append i [] b = (omega arith, tt)
AllBelow-append i (j ∷ list) b = (let lt = b.0 in omega arith, AllBelow-append i list b.1)

append_assoc : (xs : List ℕ) (i : ℕ) (ys : List ℕ) → (xs ++ i ∷ []) ++ ys ≡ xs ++ i ∷ ys
append_assoc [] i ys = refl
append_assoc (x ∷ xs) i ys = ap (λ q. x ∷ q) (append_assoc xs i ys)

append-nil : (xs : List ℕ) → xs ++ [] ≡ xs
append-nil [] = refl
append-nil (x ∷ xs) = ap (λ q. x ∷ q) (append-nil xs)

consumers_of-enter_nodes :
    (x : String) (i : ℕ) (nodes : List NodeIr) (m : List (String × List ℕ))
    → is_empty x ≡ false
    → AllBelow i (consumers_of x m)
    → consumers_of x (enter_nodes i nodes m) ≡ consumers_of x m ++ readers i nodes x
unfolding enter_nodes
consumers_of-enter_nodes x i [] m ne b = sym (append-nil (consumers_of x m))
consumers_of-enter_nodes x i (n ∷ nodes) m ne b =
    let here = consumers_of-enter_inputs x i (inputs_of n) m ne in
    let rest = consumers_of-enter_nodes x (suc i) nodes (enter_inputs i (inputs_of n) m) ne in
    elim (Bool-cases (has (inputs_of n) x)) [
      | inr miss ↦
          let here' : consumers_of x (enter_inputs i (inputs_of n) m) ≡ consumers_of x m =
            rw miss at here in
          rw miss (
            rest (subst (AllBelow (suc i)) (sym here') (AllBelow-suc i (consumers_of x m) b))
            ∙ ap (λ q. q ++ readers (suc i) nodes x) here')
      | inl hit ↦
          let here' : consumers_of x (enter_inputs i (inputs_of n) m) ≡ consumers_of x m ++ i ∷ [] =
            rw (hit, AllBelow-last i (consumers_of x m) b) at here in
          rw hit (
            rest (subst (AllBelow (suc i)) (sym here') (AllBelow-append i (consumers_of x m) b))
            ∙ ap (λ q. q ++ readers (suc i) nodes x) here'
            ∙ append_assoc (consumers_of x m) i (readers (suc i) nodes x))
    ]

pub consumers_of-build :
    (ir : GraphIr) (x : String)
    → is_empty x ≡ false
    → consumers_of x (build ir).consumers ≡ readers 0 ir.nodes x
unfolding build get_consumers
consumers_of-build ir x ne = consumers_of-enter_nodes x 0 ir.nodes [] ne tt

-- What `only_consumer` makes of the consumers that it finds.
abbrev single_of : Option (List ℕ) → Option ℕ
single_of none = none
single_of (some []) = none
single_of (some (i ∷ [])) = some i
single_of (some (i ∷ j ∷ list)) = none

single_of_iff : (o : Option (List ℕ)) (i : ℕ) → (single_of o ≡ some i) ↔ (or_nil o ≡ i ∷ [])
single_of_iff none i = (λ e. absurd cc, λ e. absurd cc)
single_of_iff (some []) i = (λ e. absurd cc, λ e. absurd cc)
single_of_iff (some (j ∷ [])) i = (λ e. cc, λ e. cc)
single_of_iff (some (j ∷ k ∷ list)) i = (λ e. absurd cc, λ e. absurd cc)

only_consumer-free :
    (ir : GraphIr) (x : String)
    → has ir.outputs x ≡ false
    → only_consumer (build ir) x ≡ single_of (get_consumers x (build ir).consumers)
unfolding only_consumer build
only_consumer-free ir x free = elim (Option-cases (get_consumers x (build ir).consumers)) [
  | inl absent ↦ rw (only_consumer, free, absent) refl
  | inr ([], found) ↦ rw (only_consumer, free, found) refl
  | inr (i ∷ [], found) ↦ rw (only_consumer, free, found) refl
  | inr (i ∷ j ∷ list, found) ↦ rw (only_consumer, free, found) refl
]

-- For a name that is not empty, `only_consumer` gives a node exactly if the name is no output of the graph
-- and the node is the only one that takes it in.
pub only_consumer_iff :
    (ir : GraphIr) (x : String) (i : ℕ)
    → is_empty x ≡ false
    → (only_consumer (build ir) x ≡ some i)
      ↔ ((has ir.outputs x ≡ false) × (readers 0 ir.nodes x ≡ i ∷ []))
unfolding only_consumer build
only_consumer_iff ir x i ne =
    let list = consumers_of-build ir x ne in
    elim (Bool-cases (has ir.outputs x)) [
      | inl out ↦ (
        λ e. absurd (let e' : none ≡ some i = rw (only_consumer, out) at e in cc),
        λ p. absurd (let free = p.0 in cc),
      )
      | inr free ↦
          let o = get_consumers x (build ir).consumers in
          let opened = only_consumer-free ir x free in
          (
            (λ e. (free, sym list ∙ (single_of_iff o i).0 (sym opened ∙ e))),
            (λ p. opened ∙ (single_of_iff o i).1 (list ∙ p.1)),
          )
    ]
