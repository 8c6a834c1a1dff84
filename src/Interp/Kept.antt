-- ===== src/Interp/Kept.antt =====
-- `kept_nodes` (interp.rs): the worklist keeps all that the wanted values need, and its fuel is enough.
use onnx_vulkan_rs_edge.Prelude.{
  ℕ, zero, suc, ◌+◌, ◌≤◌, ◌<◌, ◌≡◌, ◌⊎◌, refl, sym, ◌∙◌, ap, subst, Bool, true, false, ◌||◌, List,
  [], ◌∷◌, ◌++◌, Option, some, length, length-append, length-set, length-replicate, get_or,
  get_or-set, get_or-replicate, get_elem?, set, replicate, ◌==◌, ==_iff, if◌then◌else◌, Bool-cases,
  Option-cases, inl, inr, String, str_eq, arith,
}
use text.Mathlib.TextEquality.{eq_iff}
use onnx_vulkan_rs_edge.Graph.Ir.{NodeIr, GraphIr, has, is_empty}
use onnx_vulkan_rs_edge.Graph.Meaning.{has-append}
use onnx_vulkan_rs_edge.Interp.{
  needed_inputs, find_index, enter_producers, fresh, is_root, keep_from, total_inputs, wanted_names,
  kept_nodes,
}
use onnx_vulkan_rs_edge.Interp.Producers.{enter_producers-find, find_index-empty}

-- What `fresh` gives: nothing is lost, and no more enters the frontier than was scanned.
record Scanned (skip : String → Bool) (xs seen new seen' : List String) : Type 0 where
  few : length new ≤ length xs
  whence : (x : String) → has seen' x ≡ true → (has seen x ≡ true) ⊎ (has new x ≡ true)
  stays : (x : String) → has seen x ≡ true → has seen' x ≡ true
  enters : (x : String) → is_empty x ≡ false → skip x ≡ false → has xs x ≡ true → has seen' x ≡ true

fresh-Scanned :
    (skip : String → Bool) (xs seen : List String)
    → Scanned skip xs seen (fresh skip xs seen).0 (fresh skip xs seen).1
unfolding fresh
fresh-Scanned skip [] seen = record {
  few = omega arith;
  whence = λ x h. inl h;
  stays = λ x h. h;
  enters = λ x ne sk h. absurd cc;
}
fresh-Scanned skip (y ∷ xs) seen = elim (Bool-cases (is_empty y || skip y || has seen y)) [
  | inl drop ↦
      let rest = fresh-Scanned skip xs seen in
      rw drop (record {
        few = omega (arith, rest.few);
        whence = rest.whence;
        stays = rest.stays;
        enters = λ x ne sk h. elim (Bool-cases (str_eq y x)) [
          | inr miss ↦ rest.enters x ne sk (ground arith)
          | inl hit ↦
              let e : y ≡ x = (eq_iff y x).0 hit in
              let at : (is_empty x || skip x || has seen x) ≡ true =
                ap (λ q. is_empty q || skip q || has seen q) (sym e) ∙ drop in
              rest.stays x (ground arith)
        ];
      })
  | inr keep ↦
      let rest = fresh-Scanned skip xs (y ∷ seen) in
      rw keep (record {
        few = omega (arith, rest.few);
        whence = λ x h. elim (rest.whence x h) [
          | inr new ↦ inr (ground arith)
          | inl old ↦ elim (Bool-cases (str_eq y x)) [
            | inl hit ↦ inr (ground arith)
            | inr miss ↦ inl (ground arith)
          ]
        ];
        stays = λ x h. rest.stays x (ground arith);
        enters = λ x ne sk h. elim (Bool-cases (str_eq y x)) [
          | inl hit ↦ rest.stays x (ground arith)
          | inr miss ↦ rest.enters x ne sk (ground arith)
        ];
      })
]

-- The inputs of the nodes that are not kept.
abbrev pending : List Bool → List NodeIr → ℕ
pending [] nodes = 0
pending (b ∷ kept) [] = 0
pending (b ∷ kept) (n ∷ nodes) = (if b then 0 else length (needed_inputs n)) + pending kept nodes

pending-set :
    (kept : List Bool) (nodes : List NodeIr) (i : ℕ) (n : NodeIr)
    → i < length kept
    → get_or kept i false ≡ false
    → get_elem? nodes i ≡ some n
    → length (needed_inputs n) + pending (set kept i true) nodes ≡ pending kept nodes
pending-set [] nodes i n lt off at = absurd (omega arith)
pending-set (b ∷ kept) [] i n lt off at = absurd cc
pending-set (b ∷ kept) (m ∷ nodes) zero n lt off at =
    let e : m ≡ n = cc in
    let e' : length (needed_inputs m) ≡ length (needed_inputs n) =
      ap (λ q. length (needed_inputs q)) e in
    ground arith
pending-set (b ∷ kept) (m ∷ nodes) (suc i) n lt off at =
    omega (arith, pending-set kept nodes i n (omega arith) off at)

pending-replicate :
    (nodes : List NodeIr) → pending (replicate (length nodes) false) nodes ≡ total_inputs nodes
pending-replicate [] = refl
pending-replicate (n ∷ nodes) = ap (λ q. length (needed_inputs n) + q) (pending-replicate nodes)

in_range :
    (nodes : List NodeIr) (i : ℕ) (n : NodeIr) → get_elem? nodes i ≡ some n → i < length nodes
in_range [] i n at = absurd cc
in_range (m ∷ nodes) zero n at = omega arith
in_range (m ∷ nodes) (suc i) n at = omega (arith, in_range nodes i n at)

module _ (ir : GraphIr) where
  abbrev producer : List (String × ℕ)
  producer = enter_producers 0 ir.nodes []

  -- The node that binds the name, if there is one, is kept.
  abbrev pub Closed : List Bool → String → Type 0
  Closed kept x = (i : ℕ) → find_index x producer ≡ some i → get_or kept i false ≡ true

  -- All that the kept nodes need has been seen.
  abbrev Covers : List String → List Bool → Type 0
  Covers seen kept =
      (j : ℕ) (m : NodeIr) (x : String)
      → get_elem? ir.nodes j ≡ some m
      → get_or kept j false ≡ true
      → is_empty x ≡ false
      → is_root ir x ≡ false
      → has (needed_inputs m) x ≡ true
      → has seen x ≡ true

  record Working (frontier seen : List String) (kept : List Bool) : Type 0 where
    size : length kept ≡ length ir.nodes
    waits : (x : String) → has seen x ≡ true → (has frontier x ≡ true) ⊎ Closed kept x
    covers : Covers seen kept

  -- The names that end up seen.
  record Done (before : List String) (kept : List Bool) : Type 0 where
    seen : List String
    grows : (x : String) → has before x ≡ true → has seen x ≡ true
    closed : (x : String) → has seen x ≡ true → Closed kept x
    covers : Covers seen kept

  -- The first name of the frontier is done with.
  popped :
      (name : String) (frontier seen : List String) (kept : List Bool)
      → Working (name ∷ frontier) seen kept
      → Closed kept name
      → Working frontier seen kept
  popped name frontier seen kept w c = record {
    size = w.size;
    waits = λ x h. elim (w.waits x h) [
      | inr closed ↦ inr closed
      | inl front ↦ elim (Bool-cases (str_eq name x)) [
        | inr miss ↦ inl (ground arith)
        | inl hit ↦ let e : name ≡ x = (eq_iff name x).0 hit in inr (subst (Closed kept) e c)
      ]
    ];
    covers = w.covers;
  }

  set-keeps :
      (kept : List Bool) (i j : ℕ)
      → i < length kept
      → get_or kept j false ≡ true
      → get_or (set kept i true) j false ≡ true
  set-keeps kept i j lt h = ground (arith, get_or-set kept i j true false lt)

  -- A node is kept, and what it needs enters the frontier.
  expanded :
      (name : String) (frontier seen new seen' : List String) (kept : List Bool) (i : ℕ)
      (n : NodeIr)
      → Working (name ∷ frontier) seen kept
      → find_index name producer ≡ some i
      → get_elem? ir.nodes i ≡ some n
      → i < length kept
      → Scanned (is_root ir) (needed_inputs n) seen new seen'
      → Working (frontier ++ new) seen' (set kept i true)
  expanded name frontier seen new seen' kept i n w found at lt s = record {
    size = length-set kept i true ∙ w.size;
    waits = λ x h. elim (s.whence x h) [
      | inr fresh ↦ inl (ground (arith, has-append x frontier new))
      | inl old ↦ elim (w.waits x old) [
        | inr closed ↦ inr (λ j e. set-keeps kept i j lt (closed j e))
        | inl front ↦ elim (Bool-cases (str_eq name x)) [
          | inr miss ↦
              let in_front : has frontier x ≡ true = ground arith in
              inl (ground (arith, has-append x frontier new))
          | inl hit ↦
              let e : name ≡ x = (eq_iff name x).0 hit in
              inr (λ j e'.
                let found' : some j ≡ some i =
                  sym e' ∙ ap (λ q. find_index q producer) (sym e) ∙ found in
                let is : j ≡ i = cc in ground (arith, get_or-set kept i j true false lt))
        ]
      ]
    ];
    covers = λ j m x at' k ne root need. elim (Bool-cases (i == j)) [
      | inl same ↦
          let is : i ≡ j = (==_iff i j).0 same in
          let both : some n ≡ some m = sym at ∙ ap (get_elem? ir.nodes) is ∙ at' in
          let e : m ≡ n = cc in
          s.enters x ne root (ap (λ q. has (needed_inputs q) x) (sym e) ∙ need)
      | inr other ↦
          let k' : get_or kept j false ≡ true = ground (arith, get_or-set kept i j true false lt) in
          s.stays x (w.covers j m x at' k' ne root need)
    ];
  }

  finished : (seen : List String) (kept : List Bool) → Working [] seen kept → Done seen kept
  finished seen kept w = record {
    seen = seen;
    grows = λ x h. h;
    closed = λ x h. elim (w.waits x h) [ inl bad ↦ absurd cc | inr closed ↦ closed ];
    covers = w.covers;
  }

  -- With fuel for the frontier and for what can still enter it, the loop ends with an empty frontier.
  keep_from-Done :
      (fuel : ℕ) (frontier seen : List String) (kept : List Bool)
      → Working frontier seen kept
      → length frontier + pending kept ir.nodes ≤ fuel
      → Done seen (keep_from fuel ir producer frontier seen kept)
  unfolding keep_from
  keep_from-Done zero [] seen kept w le = finished seen kept w
  keep_from-Done (suc fuel) [] seen kept w le = finished seen kept w
  keep_from-Done zero (name ∷ frontier) seen kept w le = absurd (omega arith)
  keep_from-Done (suc fuel) (name ∷ frontier) seen kept w le =
      elim (Option-cases (find_index name producer)) [
        | inl absent ↦
            let w' = popped name frontier seen kept w (λ i e. absurd cc) in
            rw (absent, keep_from) (keep_from-Done fuel frontier seen kept w' (omega arith))
        | inr (i, found) ↦ elim (Bool-cases (get_or kept i false)) [
          | inl on ↦
              let w' =
                popped name frontier seen kept w
                  (λ j e. let is : i ≡ j = cc in ap (λ q. get_or kept q false) (sym is) ∙ on) in
              rw (found, on, keep_from) (keep_from-Done fuel frontier seen kept w' (omega arith))
          | inr off ↦ elim (enter_producers-find name i 0 ir.nodes [] found) [
            | inr bad ↦ absurd (find_index-empty name i bad)
            | inl (p, n, e, here, b) ↦
                let at : get_elem? ir.nodes i ≡ some n =
                  ap (get_elem? ir.nodes) (omega arith) ∙ here in
                let s = fresh-Scanned (is_root ir) (needed_inputs n) seen in
                let scanned = fresh (is_root ir) (needed_inputs n) seen in
                let lt : i < length kept = omega (arith, w.size, in_range ir.nodes i n at) in
                let w' = expanded name frontier seen _ _ kept i n w found at lt s in
                let d = keep_from-Done fuel _ _ _ w' (
                  omega (
                    arith,
                    s.few,
                    length-append frontier scanned.0,
                    pending-set kept ir.nodes i n lt off at,
                  )) in
                let d' : Done seen (
                    keep_from fuel ir producer (frontier ++ scanned.0) scanned.1
                      (set kept i true)) =
                  record {
                    seen = d.seen;
                    grows = λ x h. d.grows x (s.stays x h);
                    closed = d.closed;
                    covers = d.covers;
                  } in
                rw (found, off, at, keep_from) d'
          ]
        ]
      ]

  starting :
      (frontier seen : List String)
      → ((x : String) → has seen x ≡ true → has frontier x ≡ true)
      → Working frontier seen (replicate (length ir.nodes) false)
  starting frontier seen waits = record {
    size = length-replicate (length ir.nodes) false;
    waits = λ x h. inl (waits x h);
    covers = λ j m x at k ne root need.
        let off = get_or-replicate (length ir.nodes) j false false (in_range ir.nodes j m at) in
        absurd cc;
  }

  -- What the flags of `kept_nodes` are closed under.
  pub kept_nodes-Closed :
      (wanted : Option (List String))
      → ((x : String)
          → is_empty x ≡ false
          → has (wanted_names ir wanted) x ≡ true
          → Closed (kept_nodes ir wanted) x)
        × ((j : ℕ) (m : NodeIr) (x : String)
            → get_elem? ir.nodes j ≡ some m
            → get_or (kept_nodes ir wanted) j false ≡ true
            → is_empty x ≡ false
            → is_root ir x ≡ false
            → has (needed_inputs m) x ≡ true
            → Closed (kept_nodes ir wanted) x)
  unfolding kept_nodes
  kept_nodes-Closed wanted =
      let start = wanted_names ir wanted in
      let s = fresh-Scanned (λ x. false) start [] in
      let d =
        keep_from-Done (suc (length start + total_inputs ir.nodes)) _ _ _
          (starting (fresh (λ x. false) start []).0 (fresh (λ x. false) start []).1
            (λ x h. elim (s.whence x h) [ inl bad ↦ absurd cc | inr new ↦ new ]))
          (omega (arith, s.few, pending-replicate ir.nodes)) in
      (
        (λ x ne want. d.closed x (d.grows x (s.enters x ne refl want))),
        (λ j m x at k ne root need. d.closed x (d.covers j m x at k ne root need)),
      )
