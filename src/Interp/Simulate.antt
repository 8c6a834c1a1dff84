-- ===== src/Interp/Simulate.antt =====
-- The loop of `execute_nodes` (interp.rs) beside a run of all nodes: what it takes for the two to agree.
use onnx_vulkan_rs_edge.Prelude.{
  ℕ, suc, ◌+◌, ◌≤◌, ◌≡◌, refl, sym, ◌∙◌, ap, Bool, true, false, List, [], ◌∷◌, none, some, get_or,
  get_elem?, if◌then◌else◌, Bool-cases, inl, inr, String, str_eq, arith,
}
use onnx_vulkan_rs_edge.Error.{ok, err, ◌>>=◌, Result-cases}
use onnx_vulkan_rs_edge.Graph.Ir.{NodeIr, has, is_empty, outputs_of}
use onnx_vulkan_rs_edge.Graph.Meaning.{
  Store, Operators, bind, bind-agrees, bind-outside, run, Reads,
}
use onnx_vulkan_rs_edge.Interp.{release_names, execute_from}

-- A name that is observed at the end, or that a kept node at an index from `i` on reads.
pub data Needed (nodes : List NodeIr) (kept : List Bool) (wanted : List String)
    : ℕ → String → Type 0 where
  observed :
      {i : ℕ} {x : String} → is_empty x ≡ false → has wanted x ≡ true → Needed nodes kept wanted i x
  read :
      {i : ℕ} {x : String} (j : ℕ) (m : NodeIr)
      → i ≤ j
      → get_elem? nodes j ≡ some m
      → get_or kept j false ≡ true
      → Reads m x
      → Needed nodes kept wanted i x

module _ {ℓ} {V : Type ℓ} where
  release_names-outside :
      (xs : List String) (s : Store V) (x : String) → has xs x ≡ false → release_names xs s x ≡ s x
  unfolding release_names
  release_names-outside [] s x h = refl
  release_names-outside (y ∷ xs) s x h =
      let other : str_eq y x ≡ false = ground arith in
      let outside : has xs x ≡ false = ground arith in
      release_names-outside xs _ x outside ∙ ap (λ b. if b then none else s x) other

module _ {ℓ} {V : Type ℓ} (ops : Operators V) (nodes : List NodeIr) (kept : List Bool)
    (dead : List (List String)) (wanted : List String)
    (skipped : (i : ℕ) (m : NodeIr) (x : String)
      → get_elem? nodes i ≡ some m
      → get_or kept i false ≡ false
      → has (outputs_of m) x ≡ true
      → ¬ Needed nodes kept wanted 0 x)
    (dying : (i : ℕ) (m : NodeIr) (x : String)
      → get_elem? nodes i ≡ some m
      → has (get_or dead i []) x ≡ true
      → ¬ Needed nodes kept wanted (suc i) x) where
  sooner :
      {i j : ℕ} {x : String} → i ≤ j → Needed nodes kept wanted j x → Needed nodes kept wanted i x
  sooner le (observed e w) = observed e w
  sooner le (read k m le' at keep reads) = read k m (omega arith) at keep reads

  unbound :
      (i : ℕ) (m : NodeIr) (x : String)
      → get_elem? nodes i ≡ some m
      → get_or kept i false ≡ false
      → Needed nodes kept wanted (suc i) x
      → has (outputs_of m) x ≡ false
  unbound i m x at drop need = elim (Bool-cases (has (outputs_of m) x)) [
    | inl bound ↦ absurd (skipped i m x at drop bound (sooner (omega arith) need))
    | inr free ↦ free
  ]

  remains :
      (i : ℕ) (m : NodeIr) (x : String)
      → get_elem? nodes i ≡ some m
      → Needed nodes kept wanted (suc i) x
      → has (get_or dead i []) x ≡ false
  remains i m x at need = elim (Bool-cases (has (get_or dead i []) x)) [
    | inl dies ↦ absurd (dying i m x at dies need)
    | inr stays ↦ stays
  ]

  -- From stores that agree on what is needed, both end in stores that agree on what is observed.
  pub execute_from-run :
      (i : ℕ) (rest : List NodeIr) (s t r : Store V)
      → ((p : ℕ) → get_elem? nodes (i + p) ≡ get_elem? rest p)
      → ((x : String) → Needed nodes kept wanted i x → s x ≡ t x)
      → run ops rest s ≡ ok r
      → (r' : Store V) × (execute_from ops kept dead i rest t ≡ ok r')
        × ((x : String) → is_empty x ≡ false → has wanted x ≡ true → r' x ≡ r x)
  unfolding run execute_from
  execute_from-run i [] s t r at agree e =
      let same : s ≡ r = cc in
      (t, refl, λ x ne w. sym (agree x (observed ne w)) ∙ ap (λ q. q x) same)
  execute_from-run i (n ∷ rest) s t r at agree e =
      let here : get_elem? nodes i ≡ some n = ap (get_elem? nodes) (omega arith) ∙ at 0 in
      let later : (p : ℕ) → get_elem? nodes (suc i + p) ≡ get_elem? rest p =
        λ p. ap (get_elem? nodes) (omega arith) ∙ at (suc p) in
      elim (Result-cases (ops.evaluate n s)) [
        | inr (x, fails) ↦
            let bad : err x ≡ ok r =
              sym (ap (λ q. q >>= λ bs. run ops rest (bind bs s)) fails) ∙ e in
            absurd cc
        | inl (bs, gives) ↦
            let e' : run ops rest (bind bs s) ≡ ok r =
              sym (ap (λ q. q >>= λ bs. run ops rest (bind bs s)) gives) ∙ e in
            elim (Bool-cases (get_or kept i false)) [
              | inr drop ↦
                  let (r', runs, same) =
                    execute_from-run (suc i) rest (bind bs s) t r later
                      (λ x need.
                        bind-outside bs s x
                          (ops.binds n s bs x gives (unbound i n x here drop need))
                        ∙ agree x (sooner (omega arith) need))
                      e' in
                  (r', rw drop runs, same)
              | inl keep ↦
                  let gives' : ops.evaluate n t ≡ ok bs =
                    sym (
                      ops.local n s t (λ x reads. agree x (read i n (omega arith) here keep reads)))
                    ∙ gives in
                  let (r', runs, same) =
                    execute_from-run (suc i) rest (bind bs s)
                      (release_names (get_or dead i []) (bind bs t)) r later
                      (λ x need.
                        bind-agrees bs s t x (agree x (sooner (omega arith) need))
                        ∙ sym (
                            release_names-outside (get_or dead i []) (bind bs t) x
                              (remains i n x here need)))
                      e' in
                  (r', rw (keep, gives') runs, same)
            ]
      ]
