-- ===== src/Fusion/Topo/Kahn.antt =====
-- Kahn's loop of `convex_groups` (fusion.rs): what the queue and the counts are while it runs.
use onnx_vulkan_rs_edge.Prelude.{
  ℕ, zero, suc, ◌+◌, ◌-◌, ◌≤◌, ◌<◌, ◌≡◌, refl, ◌∙◌, ap, subst, Bool, true, false, not, ◌&&◌, ◌||◌,
  List, [], ◌∷◌, ◌++◌, map, get_or, get_or-set, set, length, length-set, length-append, ◌==◌,
  ==_iff, ltb, if◌then◌else◌, Bool-cases, inl, inr, arith, some,
}
use onnx_vulkan_rs_edge.Fusion.Bits.{contains}
use onnx_vulkan_rs_edge.Fusion.UnionFind.{range_from}
use onnx_vulkan_rs_edge.Fusion.Topo.{keep, release, kahn}

-- How often a node stands in a list.
abbrev pub times : ℕ → List ℕ → ℕ
times v [] = 0
times v (x ∷ xs) = (if x == v then 1 else 0) + times v xs

-- How many entries of a list are not in another.
abbrev pub pend : List ℕ → List ℕ → ℕ
pend done [] = 0
pend done (p ∷ ps) = (if contains done p then 0 else 1) + pend done ps

abbrev pub Below : ℕ → List ℕ → Type 0
Below n [] = Unit {0}
Below n (x ∷ xs) = (x < n) × Below n xs

abbrev pub neighbours : List (List ℕ) → ℕ → List ℕ
neighbours rows v = get_or rows v []

-- How many counts are not zero.
abbrev pub waiting : List ℕ → ℕ
waiting [] = 0
waiting (d ∷ ds) = (if d == 0 then 0 else 1) + waiting ds

pub contains-times : (v : ℕ) (xs : List ℕ) → contains xs v ≡ not (times v xs == 0)
contains-times v [] = ground arith
contains-times v (x ∷ xs) = ground (arith, contains-times v xs)

pub times-append : (v : ℕ) (xs ys : List ℕ) → times v (xs ++ ys) ≡ times v xs + times v ys
times-append v [] ys = omega arith
times-append v (x ∷ xs) ys = omega (arith, times-append v xs ys)

pend-cons :
    (u : ℕ) (done ps : List ℕ)
    → contains done u ≡ false
    → pend done ps ≡ pend (u ∷ done) ps + times u ps
pend-cons u done [] h = omega arith
pend-cons u done (p ∷ ps) h = elim (Bool-cases (u == p)) [
  | inl same ↦
      let e : u ≡ p = (==_iff u p).0 same in
      let out : contains done p ≡ false = subst (λ q. contains done q ≡ false) e h in
      let back : (p == u) ≡ true = ground arith in ground (arith, pend-cons u done ps h)
  | inr other ↦ let back : (p == u) ≡ false = ground arith in ground (arith, pend-cons u done ps h)
]

-- A list with nothing pending is within the other.
pend-zero :
    (done ps : List ℕ) (p : ℕ) → pend done ps ≡ 0 → contains ps p ≡ true → contains done p ≡ true
pend-zero done [] p h c = absurd (ground arith)
pend-zero done (q ∷ ps) p h c = elim (Bool-cases (q == p)) [
  | inl same ↦ subst (λ r. contains done r ≡ true) ((==_iff q p).0 same) (ground arith)
  | inr other ↦ pend-zero done ps p (ground arith) (ground arith)
]

pend-within :
    (done ps : List ℕ)
    → ((p : ℕ) → contains ps p ≡ true → contains done p ≡ true)
    → pend done ps ≡ 0
pend-within done [] h = refl
pend-within done (q ∷ ps) h =
    let first : contains done q ≡ true = h q (ground arith) in
    let rest = pend-within done ps (λ p c. h p (ground arith)) in ground arith

waiting-set :
    (ds : List ℕ) (v x : ℕ)
    → v < length ds
    → waiting (set ds v x) + (if get_or ds v 0 == 0 then 0 else 1)
      ≡ waiting ds + (if x == 0 then 0 else 1)
waiting-set [] v x h = absurd (omega arith)
waiting-set (d ∷ ds) zero x h = omega arith
waiting-set (d ∷ ds) (suc v) x h = omega (arith, waiting-set ds v x (omega arith))

-- Each node of the order is new, and comes after all its predecessors.
abbrev pub Ordered : List (List ℕ) → List ℕ → List ℕ → Type 0
Ordered rows done [] = Unit {0}
Ordered rows done (v ∷ vs) =
    (contains done v ≡ false)
    × ((p : ℕ) → contains (neighbours rows v) p ≡ true → contains done p ≡ true)
    × Ordered rows (v ∷ done) vs

module _ (n : ℕ) (preds succs : List (List ℕ)) (below : (u : ℕ) → Below n (neighbours succs u))
    (dual : (u v : ℕ) → times v (neighbours succs u) ≡ times u (neighbours preds v)) where
  -- The loop has taken the nodes `done` from the queue, and the nodes `vs` are still to be released.
  pub record Running (done vs queue indeg : List ℕ) : Type 0 where
    pub size : length indeg ≡ n
    pub left : (v : ℕ) → v < n → get_or indeg v 0 ≡ pend done (neighbours preds v) + times v vs
    pub placed :
        (v : ℕ) → times v done + times v queue ≡ (if ltb v n && get_or indeg v 0 == 0 then 1 else 0)

  release-step :
      (done vs queue indeg : List ℕ) (v : ℕ)
      → v < n
      → Running done (v ∷ vs) queue indeg
      → Running done vs
          (if get_or indeg v 0 - 1 == 0 then queue ++ v ∷ [] else queue)
          (set indeg v (get_or indeg v 0 - 1))
  release-step done vs queue indeg v lt r =
      let x = get_or indeg v 0 - 1 in
      let at = λ (w : ℕ). get_or-set indeg v w x 0 (omega (arith, r.size)) in
      let mine = r.left v lt in
      record {
        size = length-set indeg v x ∙ r.size;
        left = λ w h. elim (Bool-cases (v == w)) [
          | inl same ↦ let e : v ≡ w = (==_iff v w).0 same in ground (arith, at w, r.left w h)
          | inr other ↦ ground (arith, at w, r.left w h)
        ];
        placed = λ w. elim (Bool-cases (v == w)) [
          | inl same ↦
              let e : v ≡ w = (==_iff v w).0 same in
              ground (arith, at w, r.placed w, times-append w queue (v ∷ []))
          | inr other ↦ ground (arith, at w, r.placed w, times-append w queue (v ∷ []))
        ];
      }

  release-Running :
      (vs done queue indeg : List ℕ)
      → Below n vs
      → Running done vs queue indeg
      → Running done [] (release vs indeg queue).1 (release vs indeg queue).0
        × (length (release vs indeg queue).1 + waiting (release vs indeg queue).0
            ≡ length queue + waiting indeg)
  unfolding release
  release-Running [] done queue indeg b r = (r, refl)
  release-Running (v ∷ vs) done queue indeg b r =
      let x = get_or indeg v 0 - 1 in
      let queue' = if x == 0 then queue ++ v ∷ [] else queue in
      let (r', same) =
        release-Running vs done queue' (set indeg v x) b.1
          (release-step done vs queue indeg v b.0 r) in
      let moved : length queue' + waiting (set indeg v x) ≡ length queue + waiting indeg = ground (
        arith,
        waiting-set indeg v x (omega (arith, r.size, b.0)),
        r.left v b.0,
        length-append queue (v ∷ []),
      ) in
      (r', same ∙ moved)

  -- The head of the queue is a new node with nothing pending.
  head-new :
      (done queue indeg : List ℕ) (u : ℕ)
      → Running done [] (u ∷ queue) indeg
      → (contains done u ≡ false) × (u < n) × (pend done (neighbours preds u) ≡ 0)
  head-new done queue indeg u r =
      let here = r.placed u in
      let one : times u (u ∷ queue) ≡ suc (times u queue) = ground arith in
      let inside : (ltb u n && get_or indeg u 0 == 0) ≡ true = ground arith in
      let lt : u < n = ground arith in
      (ground (arith, contains-times u done), lt, ground (arith, r.left u lt))

  take-head :
      (done queue indeg : List ℕ) (u : ℕ)
      → Running done [] (u ∷ queue) indeg
      → Running (u ∷ done) (neighbours succs u) queue indeg
  take-head done queue indeg u r =
      let new = (head-new done queue indeg u r).0 in
      record {
        size = r.size;
        left =
            λ v h. omega (arith, r.left v h, pend-cons u done (neighbours preds v) new, dual u v);
        placed = λ v. omega (arith, r.placed v);
      }

  drained :
      (done indeg : List ℕ) (v : ℕ)
      → Running done [] [] indeg
      → v < n
      → ((p : ℕ) → contains (neighbours preds v) p ≡ true → contains done p ≡ true)
      → (contains done v || false) ≡ true
  drained done indeg v r lt c =
      let none_left = pend-within done (neighbours preds v) c in
      ground (arith, r.left v lt, r.placed v, contains-times v done)

  -- What the loop ends with: an order of new nodes, each after its predecessors, without which no node
  -- is left all of whose predecessors were taken.
  pub record Taken (done queue indeg : List ℕ) (fuel : ℕ) : Type 0 where
    pub topo : List ℕ
    pub ends : kahn fuel succs queue indeg ≡ some topo
    pub ordered : Ordered preds done topo
    pub closed :
        (v : ℕ)
        → v < n
        → ((p : ℕ)
            → contains (neighbours preds v) p ≡ true
            → (contains done p || contains topo p) ≡ true)
        → (contains done v || contains topo v) ≡ true

  pub kahn-Taken :
      (fuel : ℕ) (done queue indeg : List ℕ)
      → length queue + waiting indeg ≤ fuel
      → Running done [] queue indeg
      → Taken done queue indeg fuel
  unfolding kahn
  kahn-Taken fuel done [] indeg h r = record {
    topo = [];
    ends = refl;
    ordered = tt;
    closed = λ v lt c. drained done indeg v r lt (λ p q. ground (arith, c p q));
  }
  kahn-Taken zero done (u ∷ queue) indeg h r = absurd (omega arith)
  kahn-Taken (suc fuel) done (u ∷ queue) indeg h r =
      let (new, lt, none_left) = head-new done queue indeg u r in
      let vs = neighbours succs u in
      let (r', same) =
        release-Running vs (u ∷ done) queue indeg (below u) (take-head done queue indeg u r) in
      let rest =
        kahn-Taken fuel (u ∷ done) (release vs indeg queue).1 (release vs indeg queue).0
          (omega arith) r' in
      record {
        topo = u ∷ rest.topo;
        ends = rw (kahn, rest.ends) refl;
        ordered = (new, (λ p c. pend-zero done (neighbours preds u) p none_left c), rest.ordered);
        closed = λ v inside c.
            let later = rest.closed v inside (λ p q. ground (arith, c p q)) in ground arith;
      }

  pub pend-nothing : (ps : List ℕ) → pend [] ps ≡ length ps
  pend-nothing [] = refl
  pend-nothing (p ∷ ps) = omega (arith, pend-nothing ps)

pub get_or-lengths :
    (rows : List (List ℕ)) (v : ℕ) → get_or (map length rows) v 0 ≡ length (neighbours rows v)
get_or-lengths [] v = refl
get_or-lengths (r ∷ rows) zero = refl
get_or-lengths (r ∷ rows) (suc v) = get_or-lengths rows v

pub length-lengths : (rows : List (List ℕ)) → length (map length rows) ≡ length rows
length-lengths [] = refl
length-lengths (r ∷ rows) = ap suc (length-lengths rows)

pub times-keep :
    (test : ℕ → Bool) (i k v : ℕ)
    → times v (keep test (range_from i k))
      ≡ (if not (ltb v i) && (ltb v (i + k) && test v) then 1 else 0)
unfolding keep range_from
times-keep test i zero v = ground arith
times-keep test i (suc k) v = elim (Bool-cases (i == v)) [
  | inl same ↦
      let e : i ≡ v = (==_iff i v).0 same in
      let t : test i ≡ test v = ap test e in ground (arith, times-keep test (suc i) k v)
  | inr other ↦ ground (arith, times-keep test (suc i) k v)
]

pub length-keep :
    (f : ℕ → ℕ) (i : ℕ) (ds : List ℕ)
    → ((j : ℕ) → j < length ds → get_or ds j 0 ≡ f (i + j))
    → length (keep (λ v. f v == 0) (range_from i (length ds))) + waiting ds ≡ length ds
unfolding keep range_from
length-keep f i [] h = refl
length-keep f i (d ∷ ds) h =
    let first : d ≡ f i = let e : i + 0 ≡ i = omega arith in rw e at (h 0 (omega arith)) in
    let rest =
      length-keep f (suc i) ds
        (λ j lt. let e : suc i + j ≡ i + suc j = omega arith in rw e (h (suc j) (omega arith))) in
    ground arith
