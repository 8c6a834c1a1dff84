-- ===== src/Fusion/UnionFind/Link.antt =====
-- Uniting two sets, `uf.parent[rb] = ra` in fusion.rs, and the forest of `Uf::new`.
use onnx_vulkan_rs_edge.Prelude.{
  ℕ, zero, suc, ◌+◌, ◌<◌, ◌≡◌, ◌≢◌, inl, inr, refl, ◌∙◌, get_or, set, length, length-set, ◌==◌,
  ==_iff, Bool-cases, arith, if◌then◌else◌, subst, ap,
}
use onnx_vulkan_rs_edge.Fusion.UnionFind.{Parents, parent, new, range_from}
use onnx_vulkan_rs_edge.Fusion.UnionFind.Forest.{
  Climbs, IsForest, climb_root, climb_here, parent-set, parent-rep,
}

-- The representatives after the set of `rb` has joined that of `ra`.
abbrev pub link : (ℕ → ℕ) → ℕ → ℕ → ℕ → ℕ
link rep ra rb x = if rep x == rb then ra else rep x

module _ (p : Parents) (ra rb : ℕ) (h : rb < length p) (ea : parent p ra ≡ ra)
    (eb : parent p rb ≡ rb) (ne : ra ≢ rb) where
  parent-link : (x : ℕ) → parent (set p rb ra) x ≡ (if rb == x then ra else parent p x)
  parent-link x = parent-set p rb ra x h

  parent-link_ra : parent (set p rb ra) ra ≡ ra
  parent-link_ra = ground (arith, parent-link ra)

  -- At a root, with a step to spare.
  climb-link_root :
      (j x r : ℕ)
      → (x ≡ r) × (parent p r ≡ r)
      → Climbs (set p rb ra) (suc j) x (if r == rb then ra else r)
  climb-link_root j x r g = elim (Bool-cases (r == rb)) [
    | inl same ↦
        let to_ra : ra ≡ parent (set p rb ra) x = ground (arith, parent-link x) in
        rw same (
          inr (
            subst (λ y. Climbs (set p rb ra) j y ra) to_ra
              (climb_here (set p rb ra) j ra parent-link_ra)))
    | inr other ↦ rw other (inl (g.0, ground (arith, parent-link r)))
  ]

  climb-link :
      (j x r : ℕ) → Climbs p j x r → Climbs (set p rb ra) (suc j) x (if r == rb then ra else r)
  climb-link zero x r g = climb-link_root zero x r g
  climb-link (suc j) x r (inl g) = climb-link_root (suc j) x r g
  climb-link (suc j) x r (inr g) = elim (Bool-cases (rb == x)) [
    | inl same ↦
        let root : parent p x ≡ x = ground (arith, ap (parent p) ((==_iff rb x).0 same)) in
        let top : x ≡ r = climb_root p (suc j) x r root (inr g) in
        climb-link_root (suc j) x r (top, subst (λ y. parent p y ≡ y) top root)
    | inr other ↦ inr (rw (parent-link x, other) (climb-link j (parent p x) r g))
  ]

-- Joining two different trees gives the forest of the joined sets, one step higher.
pub link-IsForest :
    {n k : ℕ} {rep : ℕ → ℕ} {p : Parents} (ra rb : ℕ)
    → ra < n
    → rb < n
    → rep ra ≡ ra
    → rep rb ≡ rb
    → ra ≢ rb
    → IsForest n rep k p
    → IsForest n (link rep ra rb) (suc k) (set p rb ra)
link-IsForest {n} {k} {rep} {p} ra rb la lb ea eb ne f =
    let h : rb < length p = omega (arith, f.size) in
    let pa = subst (λ y. parent p y ≡ y) ea (parent-rep f ra) in
    let pb = subst (λ y. parent p y ≡ y) eb (parent-rep f rb) in
    record {
      size = length-set p rb ra ∙ f.size;
      inside = λ x lt. ground (arith, parent-link p ra rb h pa pb ne x, f.inside x lt);
      climb = λ x. climb-link p ra rb h pa pb ne k x (rep x) (f.climb x);
    }

parent-range_from : (i n x : ℕ) → get_or (range_from i n) x (i + x) ≡ i + x
unfolding range_from
parent-range_from i zero x = refl
parent-range_from i (suc n) zero = omega arith
parent-range_from i (suc n) (suc x) =
    let e : suc i + x ≡ i + suc x = omega arith in rw e at (parent-range_from (suc i) n x)

pub length-range_from : (i n : ℕ) → length (range_from i n) ≡ n
unfolding range_from
length-range_from i zero = refl
length-range_from i (suc n) = ap suc (length-range_from (suc i) n)

-- At first each node is alone in its set.
pub new-IsForest : (n : ℕ) → IsForest n (λ x. x) 0 (new n)
unfolding new
new-IsForest n =
    let own = λ (x : ℕ). let e : 0 + x ≡ x = omega arith in rw e at (parent-range_from 0 n x) in
    record {
      size = length-range_from 0 n;
      inside = λ x lt. omega (arith, own x);
      climb = λ x. (refl, own x);
    }
