-- ===== src/Interp/Producers.antt =====
-- The map of producers of `kept_nodes` (interp.rs), and graphs in which a value has one producer.
use onnx_vulkan_rs_edge.Prelude.{
  ℕ, zero, suc, ◌+◌, ◌≡◌, ◌⊎◌, refl, sym, ◌∙◌, ap, Bool, true, false, not, ◌&&◌, List, [], ◌∷◌,
  ◌++◌, none, some, get_elem?, if◌then◌else◌, Bool-cases, Option-cases, inl, inr, String, str_eq,
  arith,
}
use text.Mathlib.TextEquality.{eq_iff}
use onnx_vulkan_rs_edge.Graph.Ir.{NodeIr, GraphIr, outputs_of, has, is_empty}
use onnx_vulkan_rs_edge.Graph.Meaning.{has-append}
use onnx_vulkan_rs_edge.Interp.{find_index, enter_outputs, enter_producers, is_root}

-- The names of a list that are not empty.
abbrev pub named : List String → List String
named [] = []
named (x ∷ xs) = if is_empty x then named xs else x ∷ named xs

abbrev pub bound_names : List NodeIr → List String
bound_names [] = []
bound_names (n ∷ nodes) = named (outputs_of n) ++ bound_names nodes

abbrev pub distinct : List String → Bool
distinct [] = true
distinct (x ∷ xs) = not (has xs x) && distinct xs

abbrev pub no_roots : GraphIr → List String → Bool
no_roots ir [] = true
no_roots ir (x ∷ xs) = not (is_root ir x) && no_roots ir xs

-- Each name is bound once: by one node, as a graph input, or as an initializer.
abbrev pub is_ssa : GraphIr → Bool
is_ssa ir = distinct (bound_names ir.nodes) && no_roots ir (bound_names ir.nodes)

enter_outputs-find :
    (x : String) (i k : ℕ) (outs : List String) (m : List (String × ℕ))
    → find_index x (enter_outputs k outs m) ≡ some i
    → ((i ≡ k) × (has outs x ≡ true)) ⊎ (find_index x m ≡ some i)
unfolding enter_outputs find_index
enter_outputs-find x i k [] m h = inr h
enter_outputs-find x i k (o ∷ outs) m h = elim (enter_outputs-find x i k outs ((o, k) ∷ m) h) [
  | inl (e, b) ↦ inl (e, ground arith)
  | inr old ↦ elim (Bool-cases (str_eq o x)) [
    | inl hit ↦ let e : k ≡ i = ground arith in inl (sym e, ground arith)
    | inr miss ↦ inr (rw miss at old)
  ]
]

enter_outputs-none :
    (x : String) (k : ℕ) (outs : List String) (m : List (String × ℕ))
    → find_index x (enter_outputs k outs m) ≡ none
    → (has outs x ≡ false) × (find_index x m ≡ none)
unfolding enter_outputs find_index
enter_outputs-none x k [] m h = (refl, h)
enter_outputs-none x k (o ∷ outs) m h =
    let (out, old) = enter_outputs-none x k outs ((o, k) ∷ m) h in
    elim (Bool-cases (str_eq o x)) [
      | inl hit ↦ absurd (ground arith)
      | inr miss ↦ (ground arith, rw miss at old)
    ]

pub enter_producers-find :
    (x : String) (i k : ℕ) (nodes : List NodeIr) (m : List (String × ℕ))
    → find_index x (enter_producers k nodes m) ≡ some i
    → ((p : ℕ) × (n : NodeIr) × (i ≡ k + p)
        × (get_elem? nodes p ≡ some n)
        × (has (outputs_of n) x ≡ true))
      ⊎ (find_index x m ≡ some i)
unfolding enter_producers
enter_producers-find x i k [] m h = inr h
enter_producers-find x i k (n ∷ nodes) m h =
    elim (enter_producers-find x i (suc k) nodes (enter_outputs k (outputs_of n) m) h) [
      | inl (p, n', e, at, b) ↦ inl (suc p, n', omega arith, at, b)
      | inr old ↦ elim (enter_outputs-find x i k (outputs_of n) m old) [
        | inl (e, b) ↦ inl (0, n, omega arith, refl, b)
        | inr older ↦ inr older
      ]
    ]

pub enter_producers-none :
    (x : String) (k : ℕ) (nodes : List NodeIr) (m : List (String × ℕ))
    → find_index x (enter_producers k nodes m) ≡ none
    → (find_index x m ≡ none)
      × ((p : ℕ) (n : NodeIr) → get_elem? nodes p ≡ some n → has (outputs_of n) x ≡ false)
unfolding enter_producers
enter_producers-none x k [] m h = (h, λ p n at. absurd cc)
enter_producers-none x k (n ∷ nodes) m h =
    let (old, out) = enter_producers-none x (suc k) nodes (enter_outputs k (outputs_of n) m) h in
    let (here, older) = enter_outputs-none x k (outputs_of n) m old in
    (older, all_out n nodes x here out)
  where
    all_out :
        (n : NodeIr) (nodes : List NodeIr) (x : String)
        → has (outputs_of n) x ≡ false
        → ((p : ℕ) (n' : NodeIr) → get_elem? nodes p ≡ some n' → has (outputs_of n') x ≡ false)
        → (p : ℕ) (n' : NodeIr) → get_elem? (n ∷ nodes) p ≡ some n'
        → has (outputs_of n') x ≡ false
    all_out n nodes x here out zero n' at =
        let e : n ≡ n' = cc in ap (λ q. has (outputs_of q) x) (sym e) ∙ here
    all_out n nodes x here out (suc p) n' at = out p n' at

pub has-named :
    (x : String) (xs : List String) → is_empty x ≡ false → has xs x ≡ true → has (named xs) x ≡ true
has-named x [] ne h = h
has-named x (y ∷ xs) ne h = elim (Bool-cases (is_empty y)) [
  | inr named ↦ ground (arith, has-named x xs)
  | inl blank ↦ elim (Bool-cases (str_eq y x)) [
    | inl hit ↦
        let e : y ≡ x = (eq_iff y x).0 hit in
        let e' : is_empty y ≡ is_empty x = ap is_empty e in absurd cc
    | inr miss ↦ ground (arith, has-named x xs)
  ]
]

pub has-bound_names :
    (nodes : List NodeIr) (i : ℕ) (n : NodeIr) (x : String)
    → get_elem? nodes i ≡ some n
    → is_empty x ≡ false
    → has (outputs_of n) x ≡ true
    → has (bound_names nodes) x ≡ true
has-bound_names [] i n x at ne b = absurd cc
has-bound_names (n' ∷ nodes) zero n x at ne b =
    let e : n' ≡ n = cc in
    let here = has-named x (outputs_of n') ne (ap (λ q. has (outputs_of q) x) e ∙ b) in
    ground (arith, has-append x (named (outputs_of n')) (bound_names nodes))
has-bound_names (n' ∷ nodes) (suc i) n x at ne b =
    let later = has-bound_names nodes i n x at ne b in
    ground (arith, has-append x (named (outputs_of n')) (bound_names nodes))

pub distinct-append :
    (x : String) (xs ys : List String)
    → distinct (xs ++ ys) ≡ true
    → (distinct ys ≡ true) × (has xs x ≡ true → has ys x ≡ true → ⊥)
distinct-append x [] ys d = (d, λ h h'. absurd cc)
distinct-append x (y ∷ xs) ys d =
    let (d', apart) = distinct-append x xs ys (ground arith) in
    (
      d',
      λ h h'. elim (Bool-cases (str_eq y x)) [
        | inl hit ↦
            let e : y ≡ x = (eq_iff y x).0 hit in
            let split = has-append x xs ys in
            let bad : has (xs ++ ys) x ≡ false =
              ap (has (xs ++ ys)) (sym e)
              ∙ (let d₁ : not (has (xs ++ ys) y) ≡ true = ground arith in ground arith) in
            ground (arith, bad)
        | inr miss ↦ apart (ground arith) h'
      ],
    )

single :
    (nodes : List NodeIr) (i j : ℕ) (n n' : NodeIr) (x : String)
    → distinct (bound_names nodes) ≡ true
    → is_empty x ≡ false
    → get_elem? nodes i ≡ some n
    → get_elem? nodes j ≡ some n'
    → has (outputs_of n) x ≡ true
    → has (outputs_of n') x ≡ true
    → i ≡ j
single [] i j n n' x d ne at at' b b' = absurd cc
single (m ∷ nodes) zero zero n n' x d ne at at' b b' = refl
single (m ∷ nodes) zero (suc j) n n' x d ne at at' b b' =
    let e : m ≡ n = cc in
    let here = has-named x (outputs_of m) ne (ap (λ q. has (outputs_of q) x) e ∙ b) in
    absurd ((distinct-append x _ _ d).1 here (has-bound_names nodes j n' x at' ne b'))
single (m ∷ nodes) (suc i) zero n n' x d ne at at' b b' =
    let e : m ≡ n' = cc in
    let here = has-named x (outputs_of m) ne (ap (λ q. has (outputs_of q) x) e ∙ b') in
    absurd ((distinct-append x _ _ d).1 here (has-bound_names nodes i n x at ne b))
single (m ∷ nodes) (suc i) (suc j) n n' x d ne at at' b b' =
    ap suc (single nodes i j n n' x (distinct-append x (named (outputs_of m)) _ d).0 ne at at' b b')

pub no_roots-has :
    (ir : GraphIr) (xs : List String) (x : String)
    → no_roots ir xs ≡ true
    → has xs x ≡ true
    → is_root ir x ≡ false
no_roots-has ir [] x h b = absurd cc
no_roots-has ir (y ∷ xs) x h b = elim (Bool-cases (str_eq y x)) [
  | inl hit ↦
      let e : y ≡ x = (eq_iff y x).0 hit in
      ap (is_root ir) (sym e) ∙ (let h' : not (is_root ir y) ≡ true = ground arith in ground arith)
  | inr miss ↦ no_roots-has ir xs x (ground arith) (ground arith)
]

pub find_index-empty : (x : String) (j : ℕ) → find_index x [] ≡ some j → ⊥
unfolding find_index
find_index-empty x j h = cc

-- The map of producers leads to each node that binds the name, and the name is no root.
pub producer-lem :
    (ir : GraphIr) (i : ℕ) (n : NodeIr) (x : String)
    → is_ssa ir ≡ true
    → is_empty x ≡ false
    → get_elem? ir.nodes i ≡ some n
    → has (outputs_of n) x ≡ true
    → (find_index x (enter_producers 0 ir.nodes []) ≡ some i) × (is_root ir x ≡ false)
producer-lem ir i n x ssa ne at b =
    let d : distinct (bound_names ir.nodes) ≡ true = ground arith in
    let r : no_roots ir (bound_names ir.nodes) ≡ true = ground arith in
    (
      elim (Option-cases (find_index x (enter_producers 0 ir.nodes []))) [
        | inl absent ↦
            let free = (enter_producers-none x 0 ir.nodes [] absent).1 i n at in absurd cc
        | inr (j, found) ↦ elim (enter_producers-find x j 0 ir.nodes [] found) [
          | inr none_before ↦ absurd (find_index-empty x j none_before)
          | inl (p, n', e, at', b') ↦
              let e' : i ≡ p = single ir.nodes i p n n' x d ne at at' b b' in
              found ∙ ap some (omega arith)
        ]
      ],
      no_roots-has ir (bound_names ir.nodes) x r (has-bound_names ir.nodes i n x at ne b),
    )
