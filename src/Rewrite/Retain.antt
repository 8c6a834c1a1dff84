-- ===== src/Rewrite/Retain.antt =====
-- A run of the nodes that a rewrite retains, beside a run of all nodes.
use onnx_vulkan_rs_edge.Prelude.{
  ℕ, zero, suc, ◌≡◌, refl, sym, ◌∙◌, ap, Bool, true, false, List, [], ◌∷◌, some, length, get_elem?,
  Bool-cases, inl, inr, String, arith, ◌≤◌,
}
use onnx_vulkan_rs_edge.Error.{ok, err, ◌>>=◌, Result-cases}
use onnx_vulkan_rs_edge.Graph.Ir.{NodeIr, has, outputs_of}
use onnx_vulkan_rs_edge.Graph.Meaning.{
  Store, Operators, bind, bind-agrees, bind-outside, run, Reads,
}
use onnx_vulkan_rs_edge.Rewrite.{retain}

-- A node of a list.
abbrev pub In : List NodeIr → NodeIr → Type 0
In nodes n = (p : ℕ) × (get_elem? nodes p ≡ some n)

module _ {ℓ} {V : Type ℓ} (ops : Operators V) (keep : NodeIr → Bool) (live : String → Bool) where
  -- Where the live names hold all that the nodes read and nothing that a dropped node binds, the runs agree
  -- on the live names, from stores that do.
  pub run-retain :
      (nodes : List NodeIr) (s t r : Store V)
      → ((n : NodeIr) (x : String) → In nodes n → Reads n x → live x ≡ true)
      → ((n : NodeIr) (x : String)
          → In nodes n
          → keep n ≡ false
          → live x ≡ true
          → has (outputs_of n) x ≡ false)
      → ((x : String) → live x ≡ true → s x ≡ t x)
      → run ops nodes s ≡ ok r
      → (r' : Store V) × (run ops (retain keep nodes) t ≡ ok r')
        × ((x : String) → live x ≡ true → r' x ≡ r x)
  unfolding run retain
  run-retain [] s t r reads binds agree e =
      let same : s ≡ r = cc in (t, refl, λ x l. sym (agree x l) ∙ ap (λ q. q x) same)
  run-retain (n ∷ nodes) s t r reads binds agree e =
      let here : In (n ∷ nodes) n = (0, refl) in
      let reads' : (m : NodeIr) (x : String) → In nodes m → Reads m x → live x ≡ true =
        λ m x i. reads m x (suc i.0, i.1) in
      let binds' : (m : NodeIr) (x : String)
          → In nodes m
          → keep m ≡ false
          → live x ≡ true
          → has (outputs_of m) x ≡ false =
        λ m x i. binds m x (suc i.0, i.1) in
      elim (Result-cases (ops.evaluate n s)) [
        | inr (x, fails) ↦
            let bad : err x ≡ ok r =
              sym (ap (λ q. q >>= λ bs. run ops nodes (bind bs s)) fails) ∙ e in
            absurd cc
        | inl (bs, gives) ↦
            let e' : run ops nodes (bind bs s) ≡ ok r =
              sym (ap (λ q. q >>= λ bs. run ops nodes (bind bs s)) gives) ∙ e in
            elim (Bool-cases (keep n)) [
              | inr drop ↦
                  let (r', runs, same) =
                    run-retain nodes (bind bs s) t r reads' binds'
                      (λ x l.
                        bind-outside bs s x (ops.binds n s bs x gives (binds n x here drop l))
                        ∙ agree x l)
                      e' in
                  (r', rw drop runs, same)
              | inl kept ↦
                  let gives' : ops.evaluate n t ≡ ok bs =
                    sym (ops.local n s t (λ x rd. agree x (reads n x here rd))) ∙ gives in
                  let (r', runs, same) =
                    run-retain nodes (bind bs s) (bind bs t) r reads' binds'
                      (λ x l. bind-agrees bs s t x (agree x l)) e' in
                  (r', rw (kept, run, gives') runs, same)
            ]
      ]

-- What is retained is as long as the list only where nothing is dropped.
pub length-retain :
    (keep : NodeIr → Bool) (nodes : List NodeIr) → length (retain keep nodes) ≤ length nodes
unfolding retain
length-retain keep [] = omega arith
length-retain keep (n ∷ nodes) = ground (arith, length-retain keep nodes)

pub retain-all :
    (keep : NodeIr → Bool) (nodes : List NodeIr)
    → length (retain keep nodes) ≡ length nodes
    → (retain keep nodes ≡ nodes) × ((n : NodeIr) → In nodes n → keep n ≡ true)
unfolding retain
retain-all keep [] e = (refl, λ n i. absurd cc)
retain-all keep (m ∷ nodes) e = elim (Bool-cases (keep m)) [
  | inr drop ↦
      let e' : length (retain keep nodes) ≡ suc (length nodes) = rw drop at e in
      absurd (omega (arith, length-retain keep nodes))
  | inl kept ↦
      let e' : suc (length (retain keep nodes)) ≡ suc (length nodes) = rw kept at e in
      let (same, all) = retain-all keep nodes (omega arith) in
      (rw kept (ap (λ q. m ∷ q) same), λ n i. all_kept m nodes kept all n i.0 i.1)
]
  where
    all_kept :
        (m : NodeIr) (nodes : List NodeIr)
        → keep m ≡ true
        → ((n : NodeIr) → In nodes n → keep n ≡ true)
        → (n : NodeIr) (p : ℕ) → get_elem? (m ∷ nodes) p ≡ some n
        → keep n ≡ true
    all_kept m nodes kept all n zero at = let same : m ≡ n = cc in ap keep (sym same) ∙ kept
    all_kept m nodes kept all n (suc p) at = all n (p, at)
