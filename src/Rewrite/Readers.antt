-- ===== src/Rewrite/Readers.antt =====
-- The index of `Index::build` (rewrite.rs) against the lists of inputs and captured names of the nodes.
use onnx_vulkan_rs_edge.Prelude.{
  ℕ, zero, suc, ◌≡◌, refl, sym, ◌∙◌, ap, Bool, true, false, not, ◌&&◌, ◌||◌, List, [], ◌∷◌, some,
  get_elem?, Bool-cases, inl, inr, String, str_eq, arith,
}
use text.Mathlib.TextEquality.{eq_iff}
use onnx_vulkan_rs_edge.Graph.Ir.{NodeIr, node_ir, GraphIr, has, is_empty, inputs_of, attrs_of}
use onnx_vulkan_rs_edge.Graph.Meaning.{Reads, has-append, blank_apart}
use onnx_vulkan_rs_edge.Rewrite.{
  enter, enter_inputs, enter_nodes, build, get_consumers, captured_names, undefined, reads_of,
  attr_reads, all_inputs, is_some, is_read,
}

get_consumers-enter :
    (x name : String) (i : ℕ) (m : List (String × List ℕ))
    → is_some (get_consumers x (enter name i m)) ≡ (str_eq name x || is_some (get_consumers x m))
unfolding enter get_consumers
get_consumers-enter x name i [] = elim (Bool-cases (str_eq name x)) [
  | inl hit ↦ rw hit refl
  | inr miss ↦ rw miss refl
]
get_consumers-enter x name i ((key, list) ∷ m) = elim (Bool-cases (str_eq key name)) [
  | inl same ↦
      let e : key ≡ name = (eq_iff key name).0 same in
      elim (Bool-cases (str_eq key x)) [
        | inl hit ↦
            let n : str_eq name x ≡ true = ap (λ q. str_eq q x) (sym e) ∙ hit in
            rw (same, hit, n) refl
        | inr miss ↦
            let n : str_eq name x ≡ false = ap (λ q. str_eq q x) (sym e) ∙ miss in
            rw (same, miss, n) refl
      ]
  | inr other ↦ elim (Bool-cases (str_eq key x)) [
    | inl hit ↦ elim (Bool-cases (str_eq name x)) [
      | inl n ↦ rw (other, hit, n) refl
      | inr n ↦ rw (other, hit, n) refl
    ]
    | inr miss ↦ rw (other, miss) (get_consumers-enter x name i m)
  ]
]

get_consumers-enter_inputs :
    (x : String) (i : ℕ) (ins : List String) (m : List (String × List ℕ))
    → is_empty x ≡ false
    → is_some (get_consumers x (enter_inputs i ins m)) ≡ (has ins x || is_some (get_consumers x m))
unfolding enter_inputs
get_consumers-enter_inputs x i [] m ne = refl
get_consumers-enter_inputs x i (y ∷ ins) m ne = elim (Bool-cases (is_empty y)) [
  | inl blank ↦ rw (blank, blank_apart y x blank ne) (get_consumers-enter_inputs x i ins m ne)
  | inr named ↦ rw named (
      get_consumers-enter_inputs x i ins (enter y i m) ne
      ∙ ground (arith, get_consumers-enter x y i m))
]

get_consumers-enter_nodes :
    (x : String) (i : ℕ) (nodes : List NodeIr) (m : List (String × List ℕ))
    → is_empty x ≡ false
    → is_some (get_consumers x (enter_nodes i nodes m))
      ≡ (has (all_inputs nodes) x || is_some (get_consumers x m))
unfolding enter_nodes all_inputs
get_consumers-enter_nodes x i [] m ne = refl
get_consumers-enter_nodes x i (n ∷ nodes) m ne =
    get_consumers-enter_nodes x (suc i) nodes (enter_inputs i (inputs_of n) m) ne
    ∙ ground (
      arith,
      get_consumers-enter_inputs x i (inputs_of n) m ne,
      has-append x (inputs_of n) (all_inputs nodes),
    )

-- Whether a graph output, an input of a node or a subgraph has the name.
abbrev pub is_live : GraphIr → String → Bool
is_live ir x =
    not (is_empty x)
    && (has ir.outputs x || (has (all_inputs ir.nodes) x || has (captured_names ir.nodes) x))

pub is_read-lem :
    (ir : GraphIr) (x : String) → is_read (build ir) (captured_names ir.nodes) x ≡ is_live ir x
unfolding build get_consumers
is_read-lem ir x = elim (Bool-cases (is_empty x)) [
  | inl blank ↦ rw blank refl
  | inr named ↦ ground (arith, get_consumers-enter_nodes x 0 ir.nodes [] named)
]

has-undefined : (xs : List String) (x : String) → has (undefined [] xs) x ≡ true → has xs x ≡ true
has-undefined [] x h = absurd cc
has-undefined (y ∷ xs) x h = ground (arith, has-undefined xs x)

-- What a node of the graph reads is live.
pub Reads-is_live :
    (ir : GraphIr) (x : String)
    → (nodes : List NodeIr) (p : ℕ) (n : NodeIr) → get_elem? nodes p ≡ some n
    → Reads n x
    → (has (all_inputs nodes) x || has (captured_names nodes) x) ≡ true
unfolding all_inputs captured_names reads_of
Reads-is_live ir x [] p n at r = absurd cc
Reads-is_live ir x (node_ir d o v name ins outs attrs ∷ nodes) zero n at r =
    let e : node_ir d o v name ins outs attrs ≡ n = cc in
    let r' : has (reads_of [] (node_ir d o v name ins outs attrs)) x ≡ true =
      ap (λ q. has (reads_of [] q) x) e ∙ r.1 in
    ground (
      arith,
      r',
      has-undefined ins x,
      has-append x (undefined [] ins) (attr_reads attrs),
      has-append x ins (all_inputs nodes),
      has-append x (attr_reads attrs) (captured_names nodes),
    )
Reads-is_live ir x (m ∷ nodes) (suc p) n at r =
    let later = Reads-is_live ir x nodes p n at r in
    ground (
      arith,
      later,
      has-append x (inputs_of m) (all_inputs nodes),
      has-append x (attr_reads (attrs_of m)) (captured_names nodes),
    )
