-- ===== src/Tests/Graphs.antt =====
-- A small graph and its operators, and instances of the theorems on pruning and on runs.
use onnx_vulkan_rs_edge.Prelude.{
  ℕ, ◌+◌, ◌≡◌, ◌↔◌, refl, sym, ◌∙◌, ap, true, false, List, [], ◌∷◌, none, some, if◌then◌else◌,
  Bool-cases, inl, inr, String, str_eq, arith, pos, length, get_or,
}
use text.Mathlib.TextEquality.{eq_iff}
use onnx_vulkan_rs_edge.Error.{Result, ok, err}
use onnx_vulkan_rs_edge.Graph.Initializer.{InitializerIr}
use onnx_vulkan_rs_edge.Graph.Ir.{
  NodeIr, node_ir, no_attrs, GraphIr, inputs_of, outputs_of, has, is_empty,
}
use onnx_vulkan_rs_edge.Graph.Meaning.{
  Store, Bindings, names, Reads, Operators, run, bind, blank_apart, has-append,
}
use onnx_vulkan_rs_edge.Interp.{needed_inputs, wanted_names, kept_nodes, execute_wanted}
use onnx_vulkan_rs_edge.Interp.Demand.{Useful, kept_nodes-Useful}
use onnx_vulkan_rs_edge.Interp.Refine.{execute_wanted-run}
use onnx_vulkan_rs_edge.Rewrite.Readers.{is_live}
use onnx_vulkan_rs_edge.Rewrite.Orphans.{
  total_bytes, scope, prune_dead_initializers-lem, prune_orphans-run,
}
use onnx_vulkan_rs_edge.Rewrite.{
  entry, prune_dead_initializers, prune_orphans, undefined, reads_of, attr_reads,
}

-- One more than the sum of the inputs.
abbrev pub total : List String → Store ℕ → ℕ
total [] s = 1
total (x ∷ xs) s = (if is_empty x then 0 else elim (s x) [ none ↦ 0 | some v ↦ v ]) + total xs s

abbrev pub bind_all : List String → ℕ → Bindings ℕ
bind_all [] v = []
bind_all (o ∷ outs) v = (o, v) ∷ bind_all outs v

total-local :
    (xs : List String) (s t : Store ℕ)
    → ((x : String) → is_empty x ≡ false → has xs x ≡ true → s x ≡ t x)
    → total xs s ≡ total xs t
total-local [] s t agree = refl
total-local (y ∷ xs) s t agree =
    let rest = total-local xs s t (λ x ne h. agree x ne (ground arith)) in
    elim (Bool-cases (is_empty y)) [
      | inl blank ↦ rw (blank, rest) refl
      | inr named ↦
          let e : s y ≡ t y =
            agree y named (let self : str_eq y y ≡ true = (eq_iff y y).1 refl in ground arith) in
          rw (named, rest, e) refl
    ]

has-undefined_empty :
    (xs : List String) (x : String)
    → is_empty x ≡ false
    → has xs x ≡ true
    → has (undefined [] xs) x ≡ true
has-undefined_empty [] x ne h = h
has-undefined_empty (y ∷ xs) x ne h = elim (Bool-cases (is_empty y)) [
  | inl blank ↦ ground (arith, has-undefined_empty xs x ne, blank_apart y x blank ne)
  | inr named ↦ ground (arith, has-undefined_empty xs x ne)
]

pub evaluate-local :
    (n : NodeIr) (s t : Store ℕ)
    → ((x : String) → Reads n x → s x ≡ t x)
    → total (inputs_of n) s ≡ total (inputs_of n) t
unfolding reads_of
evaluate-local (node_ir d o v name ins outs attrs) s t agree = total-local ins s t (λ x ne h.
    agree x (
      ne,
      ground (
        arith,
        has-append x (undefined [] ins) (attr_reads attrs),
        has-undefined_empty ins x ne h,
      ),
    ))

pub names-bind_all : (outs : List String) (v : ℕ) → names (bind_all outs v) ≡ outs
names-bind_all [] v = refl
names-bind_all (o ∷ outs) v = ap (λ q. o ∷ q) (names-bind_all outs v)

abbrev pub sums : Operators ℕ
sums = record {
  evaluate = λ n s. ok (bind_all (outputs_of n) (total (inputs_of n) s));
  local = λ n s t agree. ap (λ q. ok (bind_all (outputs_of n) q)) (evaluate-local n s t agree);
  binds = λ n s bs x e free.
      let same : bind_all (outputs_of n) (total (inputs_of n) s) ≡ bs = cc in
      ap (λ q. has (names q) x) (sym same)
      ∙ ap (λ q. has q x) (names-bind_all (outputs_of n) (total (inputs_of n) s))
      ∙ free;
}

abbrev pub plain : String → List String → List String → NodeIr
plain o ins outs = node_ir "" o (pos 17) o ins outs no_attrs

abbrev pub one_byte : InitializerIr
one_byte = record { dtype = pos 2; shape = pos 1 ∷ []; bytes = 7 ∷ [] }

-- "e" and "f" are read by no output, and "w" by no node.
abbrev small : GraphIr
small = record {
  nodes =
      plain "Add" ("a" ∷ "b" ∷ []) ("c" ∷ [])
      ∷ plain "Relu" ("c" ∷ []) ("e" ∷ [])
      ∷ plain "Neg" ("e" ∷ []) ("f" ∷ [])
      ∷ plain "Mul" ("c" ∷ "c" ∷ []) ("d" ∷ [])
      ∷ [];
  initializers = ("b", one_byte) ∷ ("w", one_byte) ∷ [];
  inputs = "a" ∷ [];
  outputs = "d" ∷ [];
}

abbrev pub given : Store ℕ
given = λ x. if str_eq x "a" then some 3 else none

abbrev pub store_of : Result (Store ℕ) → Store ℕ
store_of (ok s) = s
store_of (err e) = given

small_runs : run sums small.nodes given ≡ ok (store_of (run sums small.nodes given))
unfolding run bind
small_runs = refl

execute_wanted-run_example :
    (r' : Store ℕ) × (execute_wanted sums small (some ("d" ∷ [])) given ≡ ok r')
    × ((x : String)
        → is_empty x ≡ false
        → has (wanted_names small (some ("d" ∷ []))) x ≡ true
        → r' x ≡ store_of (run sums small.nodes given) x)
unfolding reads_of needed_inputs
execute_wanted-run_example =
    execute_wanted-run sums small (some ("d" ∷ [])) refl refl refl given
      (store_of (run sums small.nodes given)) small_runs

prune_dead_initializers-lem_example :
    ((x : String)
      → is_empty x ≡ false
      → entry x (prune_dead_initializers small).0.initializers
        ≡ (if is_live small x then entry x small.initializers else none))
    × ((prune_dead_initializers small).1
          + total_bytes (prune_dead_initializers small).0.initializers
        ≡ 2)
prune_dead_initializers-lem_example = prune_dead_initializers-lem small

-- The first byte, as a value.
abbrev pub load : InitializerIr → ℕ
load init = get_or init.bytes 0 0

abbrev start : Store ℕ
start = scope load small.initializers given

start_runs : run sums small.nodes start ≡ ok (store_of (run sums small.nodes start))
unfolding run bind scope
start_runs = refl

prune_orphans-run_example :
    (r' : Store ℕ) × (run sums
        (prune_orphans small).0.nodes
        (scope load (prune_orphans small).0.initializers given)
      ≡ ok r')
    × ((x : String)
        → is_empty x ≡ false
        → has small.outputs x ≡ true
        → r' x ≡ store_of (run sums small.nodes start) x)
prune_orphans-run_example =
    prune_orphans-run sums load small given (store_of (run sums small.nodes start)) start_runs

-- Two of the four nodes go, and the initializer that no node reads.
small_pruned : length (prune_orphans small).0.nodes ≡ 2
unfolding prune_orphans
small_pruned = refl

small_kept : kept_nodes small (some ("d" ∷ [])) ≡ true ∷ false ∷ false ∷ true ∷ []
unfolding kept_nodes
small_kept = refl

kept_nodes-Useful_example :
    (get_or (kept_nodes small (some ("d" ∷ []))) 0 false ≡ true) ↔ Useful small (some ("d" ∷ [])) 0
kept_nodes-Useful_example = kept_nodes-Useful small (some ("d" ∷ [])) 0
