-- ===== src/Interp/Last.antt =====
-- `dead_after` (interp.rs): what its map of last readers holds.
use onnx_vulkan_rs_edge.Prelude.{
  ℕ, zero, suc, ◌+◌, ◌≤◌, ◌<◌, ◌≡◌, ◌⊎◌, refl, sym, ◌∙◌, ap, Bool, true, false, ◌&&◌, ◌||◌, List,
  [], ◌∷◌, some, length, get_or, get_elem?, ◌==◌, if◌then◌else◌, Bool-cases, inl, inr, String,
  str_eq, arith,
}
use text.Mathlib.TextEquality.{eq_iff}
use onnx_vulkan_rs_edge.Graph.Ir.{NodeIr, GraphIr, has, is_empty}
use onnx_vulkan_rs_edge.Graph.Meaning.{blank_apart}
use onnx_vulkan_rs_edge.Interp.{
  needed_inputs, entry_names, forget, forget_all, read_by, last_readers, dying, dead_from,
  dead_after,
}

-- Whether the map binds the name to the index.
abbrev listed : String → ℕ → List (String × ℕ) → Bool
listed x i [] = false
listed x i ((name, j) ∷ last) = (str_eq name x && j == i) || listed x i last

-- No node of the list reads the name.
abbrev Unread : List NodeIr → String → Type 0
Unread nodes x =
    (p : ℕ) (m : NodeIr)
    → get_elem? nodes p ≡ some m
    → is_empty x ≡ false
    → has (needed_inputs m) x ≡ false

dying-listed :
    (i : ℕ) (x : String) (last : List (String × ℕ))
    → has (dying i last) x ≡ true
    → listed x i last ≡ true
unfolding dying
dying-listed i x [] h = h
dying-listed i x ((name, j) ∷ last) h = elim (Bool-cases (j == i)) [
  | inl same ↦ ground (arith, dying-listed i x last)
  | inr other ↦ ground (arith, dying-listed i x last)
]

dead_from-listed :
    (k n i : ℕ) (x : String) (last : List (String × ℕ))
    → has (get_or (dead_from k n last) i []) x ≡ true
    → listed x (k + i) last ≡ true
unfolding dead_from
dead_from-listed k zero i x last h = absurd cc
dead_from-listed k (suc n) zero x last h =
    let e : k ≡ k + 0 = omega arith in ap (λ j. listed x j last) (sym e) ∙ dying-listed k x last h
dead_from-listed k (suc n) (suc i) x last h =
    let e : k + suc i ≡ suc k + i = omega arith in
    ap (λ j. listed x j last) e ∙ dead_from-listed (suc k) n i x last h

listed-forget :
    (i : ℕ) (x name : String) (last : List (String × ℕ))
    → listed x i (forget name last) ≡ true
    → (listed x i last ≡ true) × (str_eq name x ≡ false)
unfolding forget
listed-forget i x name [] h = absurd cc
listed-forget i x name ((key, j) ∷ last) h = elim (Bool-cases (str_eq key name)) [
  | inl same ↦ let (l, other) = listed-forget i x name last (ground arith) in (ground arith, other)
  | inr other ↦ elim (Bool-cases (str_eq key x)) [
    | inl is ↦
        let e : key ≡ x = (eq_iff key x).0 is in
        elim (Bool-cases (str_eq name x)) [
          | inl hit ↦
              let e' : name ≡ x = (eq_iff name x).0 hit in
              let bad : str_eq key name ≡ true = (eq_iff key name).1 (e ∙ sym e') in absurd cc
          | inr miss ↦ elim (Bool-cases (j == i)) [
            | inl at ↦ (ground arith, miss)
            | inr off ↦
                let (l, miss') = listed-forget i x name last (ground arith) in (ground arith, miss)
          ]
        ]
    | inr not ↦ let (l, miss) = listed-forget i x name last (ground arith) in (ground arith, miss)
  ]
]

listed-forget_all :
    (i : ℕ) (x : String) (xs : List String) (last : List (String × ℕ))
    → listed x i (forget_all xs last) ≡ true
    → (listed x i last ≡ true) × (has xs x ≡ false)
unfolding forget_all
listed-forget_all i x [] last h = (h, refl)
listed-forget_all i x (y ∷ xs) last h =
    let (l, outside) = listed-forget_all i x xs (forget y last) h in
    let (l', other) = listed-forget i x y last l in (l', ground arith)

listed-read_by :
    (i k : ℕ) (x : String) (xs : List String) (last : List (String × ℕ))
    → listed x i (read_by k xs last) ≡ true
    → ((listed x i last ≡ true) × (is_empty x ≡ false → has xs x ≡ false)) ⊎ (i ≡ k)
unfolding read_by
listed-read_by i k x [] last h = inl (h, λ ne. refl)
listed-read_by i k x (y ∷ xs) last h =
    elim (listed-read_by i k x xs (if is_empty y then last else (y, k) ∷ forget y last) h) [
      | inr at ↦ inr at
      | inl (l, outside) ↦ elim (Bool-cases (is_empty y)) [
        | inl blank ↦
            let l' : listed x i last ≡ true = rw blank at l in
            inl (l', λ ne. ground (arith, outside ne, blank_apart y x blank ne))
        | inr named ↦
            let l' : ((str_eq y x && k == i) || listed x i (forget y last)) ≡ true =
              rw named at l in
            elim (Bool-cases (listed x i (forget y last))) [
              | inl old ↦
                  let (l'', other) = listed-forget i x y last old in
                  inl (l'', λ ne. ground (arith, outside ne))
              | inr new ↦ inr (ground arith)
            ]
      ]
    ]

-- No node after the index `i` reads the name, where the nodes of the list begin at the index `k`.
abbrev UnreadAfter : ℕ → ℕ → List NodeIr → String → Type 0
UnreadAfter i k nodes x =
    (p : ℕ) (m : NodeIr)
    → i < k + p
    → get_elem? nodes p ≡ some m
    → is_empty x ≡ false
    → has (needed_inputs m) x ≡ false

Unread-cons :
    (n : NodeIr) (nodes : List NodeIr) (x : String)
    → (is_empty x ≡ false → has (needed_inputs n) x ≡ false)
    → Unread nodes x
    → Unread (n ∷ nodes) x
Unread-cons n nodes x outside unread zero m at ne =
    let e : n ≡ m = cc in ap (λ q. has (needed_inputs q) x) (sym e) ∙ outside ne
Unread-cons n nodes x outside unread (suc p) m at ne = unread p m at ne

UnreadAfter-cons :
    (i k : ℕ) (n : NodeIr) (nodes : List NodeIr) (x : String)
    → k ≤ i
    → UnreadAfter i (suc k) nodes x
    → UnreadAfter i k (n ∷ nodes) x
UnreadAfter-cons i k n nodes x le after zero m lt at ne = absurd (omega arith)
UnreadAfter-cons i k n nodes x le after (suc p) m lt at ne = after p m (omega arith) at ne

listed-last_readers :
    (i k : ℕ) (x : String) (nodes : List NodeIr) (last : List (String × ℕ))
    → listed x i (last_readers k nodes last) ≡ true
    → ((listed x i last ≡ true) × Unread nodes x) ⊎ ((k ≤ i) × UnreadAfter i k nodes x)
unfolding last_readers
listed-last_readers i k x [] last h = inl (h, λ p m at. absurd cc)
listed-last_readers i k x (n ∷ nodes) last h =
    elim (listed-last_readers i (suc k) x nodes (read_by k (needed_inputs n) last) h) [
      | inr (le, after) ↦ inr (omega arith, UnreadAfter-cons i k n nodes x (omega arith) after)
      | inl (l, unread) ↦ elim (listed-read_by i k x (needed_inputs n) last l) [
        | inl (l', outside) ↦ inl (l', Unread-cons n nodes x outside unread)
        | inr here ↦ inr (
          omega arith,
          UnreadAfter-cons i k n nodes x (omega arith) (λ p m lt at ne. unread p m at ne),
        )
      ]
    ]

-- What the lists of `dead_after` hold: no output, and no name that a later node reads.
pub dead_after-lem :
    (ir : GraphIr) (i : ℕ) (x : String)
    → has (get_or (dead_after ir) i []) x ≡ true
    → (has ir.outputs x ≡ false)
      × (has (entry_names ir.initializers) x ≡ false)
      × ((j : ℕ) (m : NodeIr)
          → i < j
          → get_elem? ir.nodes j ≡ some m
          → is_empty x ≡ false
          → has (needed_inputs m) x ≡ false)
unfolding dead_after
dead_after-lem ir i x h =
    let read = last_readers 0 ir.nodes [] in
    let l = dead_from-listed 0 (length ir.nodes) i x _ h in
    let (l₁, not_init) =
      listed-forget_all (0 + i) x (entry_names ir.initializers) (forget_all ir.outputs read) l in
    let (l₂, not_output) = listed-forget_all (0 + i) x ir.outputs read l₁ in
    elim (listed-last_readers (0 + i) 0 x ir.nodes [] l₂) [
      | inl (bad, unread) ↦ absurd cc
      | inr (le, after) ↦ (not_output, not_init, λ j m lt at ne. after j m (omega arith) at ne)
    ]
