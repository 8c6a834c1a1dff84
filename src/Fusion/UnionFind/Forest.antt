-- ===== src/Fusion/UnionFind/Forest.antt =====
-- What the vector of parents stands for: a map from each node to the representative of its set.
use onnx_vulkan_rs_edge.Prelude.{
  ℕ, zero, suc, ◌<◌, ◌≡◌, ◌⊎◌, inl, inr, refl, sym, subst, get_or-set, get_or-beyond, ap, ◌∙◌, set,
  length, length-set, ◌==◌, ==_iff, Bool-cases, arith, if◌then◌else◌,
}
use onnx_vulkan_rs_edge.Fusion.UnionFind.{Parents, parent}

-- From `x` at most `k` steps to parents lead to `r`, which is its own parent.
abbrev pub Climbs : Parents → ℕ → ℕ → ℕ → Type 0
Climbs p zero x r = (x ≡ r) × (parent p r ≡ r)
Climbs p (suc k) x r = ((x ≡ r) × (parent p r ≡ r)) ⊎ Climbs p k (parent p x) r

-- The parents of `n` nodes are a forest of height at most `k`, and `rep` gives each node's root.
pub record IsForest (n : ℕ) (rep : ℕ → ℕ) (k : ℕ) (p : Parents) : Type 0 where
  pub size : length p ≡ n
  pub inside : (x : ℕ) → x < n → parent p x < n
  pub climb : (x : ℕ) → Climbs p k x (rep x)

module _ (p : Parents) where
  pub root_of_climb : (k x r : ℕ) → Climbs p k x r → parent p r ≡ r
  root_of_climb zero x r h = h.1
  root_of_climb (suc k) x r (inl h) = h.1
  root_of_climb (suc k) x r (inr h) = root_of_climb k (parent p x) r h

  pub climb_root : (k x r : ℕ) → parent p x ≡ x → Climbs p k x r → x ≡ r
  climb_root zero x r e h = h.0
  climb_root (suc k) x r e (inl h) = h.0
  climb_root (suc k) x r e (inr h) = climb_root k x r e (rw e at h)

  -- A node that is its own parent climbs to itself only.
  climb_from_root : (k x r s : ℕ) → (x ≡ r) × (parent p r ≡ r) → Climbs p k x s → r ≡ s
  climb_from_root k x r s h g =
      sym h.0 ∙ climb_root k x s (subst (λ y. parent p y ≡ y) (sym h.0) h.1) g

  pub climb_unique : (j k x r s : ℕ) → Climbs p j x r → Climbs p k x s → r ≡ s
  climb_unique zero k x r s h g = climb_from_root k x r s h g
  climb_unique (suc j) k x r s (inl h) g = climb_from_root k x r s h g
  climb_unique (suc j) zero x r s (inr h) g = sym (climb_from_root (suc j) x s r g (inr h))
  climb_unique (suc j) (suc k) x r s (inr h) (inl g) = sym (climb_from_root (suc j) x s r g (inr h))
  climb_unique (suc j) (suc k) x r s (inr h) (inr g) = climb_unique j k (parent p x) r s h g

  pub climb_here : (k r : ℕ) → parent p r ≡ r → Climbs p k r r
  climb_here zero r e = (refl, e)
  climb_here (suc k) r e = inl (refl, e)

  climb_more : (k x r : ℕ) → Climbs p k x r → Climbs p (suc k) x r
  climb_more zero x r h = inl h
  climb_more (suc k) x r (inl h) = inl h
  climb_more (suc k) x r (inr h) = inr (climb_more k (parent p x) r h)

-- Reading the parents after a write in range.
pub parent-set :
    (p : Parents) (c r x : ℕ)
    → c < length p
    → parent (set p c r) x ≡ (if c == x then r else parent p x)
parent-set p c r x h = get_or-set p c x r x h

-- A node out of range is its own parent.
pub parent-beyond : (p : Parents) (x : ℕ) → length p < suc x → parent p x ≡ x
parent-beyond p x h = get_or-beyond p x x h

module _ {n k : ℕ} {rep : ℕ → ℕ} {p : Parents} (f : IsForest n rep k p) where
  pub parent-rep : (x : ℕ) → parent p (rep x) ≡ rep x
  parent-rep x = root_of_climb p k x (rep x) (f.climb x)

  pub rep_of_root : (x : ℕ) → parent p x ≡ x → rep x ≡ x
  rep_of_root x e = sym (climb_root p k x (rep x) e (f.climb x))

  pub rep-rep : (x : ℕ) → rep (rep x) ≡ rep x
  rep-rep x = rep_of_root (rep x) (parent-rep x)

  pub rep-parent : (x : ℕ) → rep (parent p x) ≡ rep x
  rep-parent x =
      climb_unique p (suc k) k x (rep (parent p x)) (rep x) (inr (f.climb (parent p x))) (f.climb x)

  climb_in_range : (j x r : ℕ) → x < n → Climbs p j x r → r < n
  climb_in_range zero x r lt h = omega arith
  climb_in_range (suc j) x r lt (inl h) = omega arith
  climb_in_range (suc j) x r lt (inr h) = climb_in_range j (parent p x) r (f.inside x lt) h

  pub rep_in_range : (x : ℕ) → x < n → rep x < n
  rep_in_range x h = climb_in_range k x (rep x) h (f.climb x)

  module _ (c : ℕ) (h : c < n) where
    parent-shortcut : (x : ℕ) → parent (set p c (rep c)) x ≡ (if c == x then rep c else parent p x)
    parent-shortcut x = parent-set p c (rep c) x (omega (arith, f.size))

    root-shortcut : (r : ℕ) → parent p r ≡ r → parent (set p c (rep c)) r ≡ r
    root-shortcut r e = elim (Bool-cases (c == r)) [
      | inl same ↦ ground (arith, parent-shortcut r, rep_of_root r e, ap rep ((==_iff c r).0 same))
      | inr other ↦ ground (arith, parent-shortcut r)
    ]

    -- A shortcut from a node to its root keeps the forest.
    pub climb-shortcut : (j x r : ℕ) → r ≡ rep x → Climbs p j x r → Climbs (set p c (rep c)) j x r
    climb-shortcut zero x r e g = (g.0, root-shortcut r g.1)
    climb-shortcut (suc j) x r e (inl g) = inl (g.0, root-shortcut r g.1)
    climb-shortcut (suc j) x r e (inr g) = elim (Bool-cases (c == x)) [
      | inl same ↦
          let to_r : r ≡ parent (set p c (rep c)) x =
            ground (arith, parent-shortcut x, ap rep ((==_iff c x).0 same)) in
          inr (
            subst (λ y. Climbs (set p c (rep c)) j y r) to_r
              (climb_here (set p c (rep c)) j r
                (root-shortcut r (root_of_climb p j (parent p x) r g))))
      | inr other ↦ inr (
          rw (parent-shortcut x, other)
            (climb-shortcut j (parent p x) r (e ∙ sym (rep-parent x)) g))
    ]

    pub shortcut-IsForest : IsForest n rep k (set p c (rep c))
    shortcut-IsForest = record {
      size = length-set p c (rep c) ∙ f.size;
      inside = λ x lt. ground (arith, parent-shortcut x, rep_in_range c h, f.inside x lt);
      climb = λ x. climb-shortcut k x (rep x) refl (f.climb x);
    }
