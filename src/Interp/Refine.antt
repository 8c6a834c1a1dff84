-- ===== src/Interp/Refine.antt =====
-- `execute_wanted` (interp.rs) against a run of all nodes that keeps every value.
use onnx_vulkan_rs_edge.Prelude.{
  ℕ, zero, suc, ◌≡◌, refl, sym, ◌∙◌, ap, Bool, true, false, ◌&&◌, ◌||◌, List, [], ◌∷◌, Option, some,
  get_or, get_elem?, Bool-cases, inl, inr, String, str_eq, arith,
}
use text.Mathlib.TextEquality.{eq_iff}
use onnx_vulkan_rs_edge.Error.{ok}
use onnx_vulkan_rs_edge.Graph.Ir.{NodeIr, GraphIr, has, is_empty, outputs_of}
use onnx_vulkan_rs_edge.Graph.Meaning.{Store, Operators, run, Reads}
use onnx_vulkan_rs_edge.Rewrite.{reads_of}
use onnx_vulkan_rs_edge.Interp.{
  needed_inputs, wanted_names, kept_nodes, dead_after, execute_nodes, execute_wanted, as_backend,
}
use onnx_vulkan_rs_edge.Interp.Producers.{is_ssa, producer-lem}
use onnx_vulkan_rs_edge.Interp.Kept.{kept_nodes-Closed}
use onnx_vulkan_rs_edge.Interp.Last.{dead_after-lem}
use onnx_vulkan_rs_edge.Interp.Simulate.{Needed, observed, read, execute_from-run}

abbrev subset : List String → List String → Bool
subset [] ys = true
subset (x ∷ xs) ys = (is_empty x || has ys x) && subset xs ys

-- What a node reads from the scope, at any depth, is among what the analyses scan.
abbrev pub scanned_all : List NodeIr → Bool
scanned_all [] = true
scanned_all (n ∷ nodes) = subset (reads_of [] n) (needed_inputs n) && scanned_all nodes

abbrev pub only_outputs : GraphIr → Option (List String) → Bool
only_outputs ir wanted = subset (wanted_names ir wanted) ir.outputs

subset-has :
    (xs ys : List String) (x : String)
    → subset xs ys ≡ true
    → is_empty x ≡ false
    → has xs x ≡ true
    → has ys x ≡ true
subset-has [] ys x h ne b = absurd cc
subset-has (y ∷ xs) ys x h ne b = elim (Bool-cases (str_eq y x)) [
  | inl hit ↦
      let e : y ≡ x = (eq_iff y x).0 hit in
      let at : (is_empty x || has ys x) ≡ true =
        ap (λ q. is_empty q || has ys q) (sym e)
        ∙ (let h' : (is_empty y || has ys y) ≡ true = ground arith in h') in
      ground arith
  | inr miss ↦ subset-has xs ys x (ground arith) ne (ground arith)
]

scanned_all-has :
    (nodes : List NodeIr) (i : ℕ) (m : NodeIr) (x : String)
    → scanned_all nodes ≡ true
    → get_elem? nodes i ≡ some m
    → Reads m x
    → has (needed_inputs m) x ≡ true
scanned_all-has [] i m x h at r = absurd cc
scanned_all-has (n ∷ nodes) zero m x h at r =
    let e : n ≡ m = cc in
    subset-has (reads_of [] m) (needed_inputs m) x
      (ap (λ q. subset (reads_of [] q) (needed_inputs q)) (sym e) ∙ ground arith) r.0 r.1
scanned_all-has (n ∷ nodes) (suc i) m x h at r = scanned_all-has nodes i m x (ground arith) at r

module _ {ℓ} {V : Type ℓ} (ops : Operators V) (ir : GraphIr) (wanted : Option (List String))
    (ssa : is_ssa ir ≡ true) (scanned : scanned_all ir.nodes ≡ true)
    (some_outputs : only_outputs ir wanted ≡ true) where
  -- No node that is skipped binds a name that is needed.
  skipped :
      (i : ℕ) (m : NodeIr) (x : String)
      → get_elem? ir.nodes i ≡ some m
      → get_or (kept_nodes ir wanted) i false ≡ false
      → has (outputs_of m) x ≡ true
      → ¬ Needed ir.nodes (kept_nodes ir wanted) (wanted_names ir wanted) 0 x
  skipped i m x at off b (observed ne w) =
      let (found, root) = producer-lem ir i m x ssa ne at b in
      let on = (kept_nodes-Closed ir wanted).0 x ne w i found in absurd cc
  skipped i m x at off b (read j m' le at' k reads) =
      let (found, root) = producer-lem ir i m x ssa reads.0 at b in
      let need = scanned_all-has ir.nodes j m' x scanned at' reads in
      let on = (kept_nodes-Closed ir wanted).1 j m' x at' k reads.0 root need i found in absurd cc

  -- No name that is released is needed later.
  released :
      (i : ℕ) (m : NodeIr) (x : String)
      → get_elem? ir.nodes i ≡ some m
      → has (get_or (dead_after ir) i []) x ≡ true
      → ¬ Needed ir.nodes (kept_nodes ir wanted) (wanted_names ir wanted) (suc i) x
  released i m x at dies (observed ne w) =
      let out = subset-has (wanted_names ir wanted) ir.outputs x some_outputs ne w in
      let (not_out, not_init, after) = dead_after-lem ir i x dies in absurd cc
  released i m x at dies (read j m' le at' k reads) =
      let need = scanned_all-has ir.nodes j m' x scanned at' reads in
      let (not_out, not_init, after) = dead_after-lem ir i x dies in
      let free = after j m' (omega arith) at' reads.0 in absurd cc

  -- In a graph that binds each name once, whose nodes read from the scope only names that the analyses scan,
  -- and for wanted names among the outputs: where the run of all nodes that keeps every value ends without
  -- an error, the run that skips nodes and releases values ends without an error too, and gives each wanted
  -- name the same value.
  pub execute_wanted-run :
      (s r : Store V)
      → run ops ir.nodes s ≡ ok r
      → (r' : Store V) × (execute_wanted ops ir wanted s ≡ ok r')
        × ((x : String) → is_empty x ≡ false → has (wanted_names ir wanted) x ≡ true → r' x ≡ r x)
  unfolding execute_wanted execute_nodes
  execute_wanted-run s r e =
      let (r', runs, same) =
        execute_from-run ops ir.nodes (kept_nodes ir wanted) (dead_after ir)
          (wanted_names ir wanted) skipped released 0 ir.nodes s s r
          (λ p. ap (get_elem? ir.nodes) (omega arith)) (λ x need. refl) e in
      (r', ap as_backend runs, same)
