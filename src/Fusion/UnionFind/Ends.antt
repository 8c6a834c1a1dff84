-- ===== src/Fusion/UnionFind/Ends.antt =====
-- The two loops of `find` (fusion.rs): where they end, and how soon.
use onnx_vulkan_rs_edge.Prelude.{
  ℕ, zero, suc, ◌+◌, ◌-◌, ◌≤◌, ◌<◌, ◌≡◌, inl, inr, refl, sym, subst, ap, ◌∙◌, some, false, set,
  length, ◌==◌, ==_iff, Bool-cases, arith,
}
use native.Mathlib.Decide.{dec_lt}
use onnx_vulkan_rs_edge.Fusion.UnionFind.{
  Parents, parent, find_root, compress, compressed, find_with, find,
}
use onnx_vulkan_rs_edge.Fusion.UnionFind.Forest.{
  Climbs, IsForest, climb_root, rep_of_root, rep-parent, parent-beyond, climb-shortcut,
  shortcut-IsForest,
}

find_root_here :
    (fuel : ℕ) (p : Parents) (x : ℕ) → parent p x ≡ x → find_root (suc fuel) p x ≡ some x
unfolding find_root
find_root_here fuel p x e = ground arith

-- With fuel above the height, the first loop of `find` stops at the root.
find_root-climb :
    (fuel k : ℕ) (p : Parents) (x r : ℕ)
    → k ≤ fuel
    → Climbs p k x r
    → find_root (suc fuel) p x ≡ some r
unfolding find_root
find_root-climb fuel zero p x r h g =
    find_root_here fuel p x (subst (λ y. parent p y ≡ y) (sym g.0) g.1) ∙ ap some g.0
find_root-climb fuel (suc k) p x r h (inl g) =
    find_root_here fuel p x (subst (λ y. parent p y ≡ y) (sym g.0) g.1) ∙ ap some g.0
find_root-climb zero (suc k) p x r h (inr g) = absurd (omega arith)
find_root-climb (suc fuel) (suc k) p x r h (inr g) = elim (Bool-cases (parent p x == x)) [
  | inl stop ↦
      let root = (==_iff (parent p x) x).0 stop in
      find_root_here (suc fuel) p x root ∙ ap some (climb_root p (suc k) x r root (inr g))
  | inr go ↦ rw (go, find_root) (find_root-climb fuel k p (parent p x) r (omega arith) g)
]

compress_stops :
    (fuel : ℕ) (p : Parents) (r c : ℕ) → parent p c ≡ r → compress (suc fuel) p r c ≡ some p
unfolding compress
compress_stops fuel p r c e = ground arith

compress_goes :
    (fuel : ℕ) (p : Parents) (r c : ℕ)
    → (parent p c == r) ≡ false
    → compress (suc fuel) p r c ≡ compress fuel (set p c r) r (parent p c)
unfolding compress
compress_goes fuel p r c e = rw (e, compress)

-- What the second loop ends with, within any fuel above `j`: the forest with the map it had.
abbrev Compressed : (n : ℕ) → (ℕ → ℕ) → ℕ → Parents → ℕ → ℕ → ℕ → Type 0
Compressed n rep k p r c j =
    (p' : Parents) × ((fuel : ℕ) → j ≤ fuel → compress (suc fuel) p r c ≡ some p')
    × IsForest n rep k p'

compress-climb :
    (j : ℕ) {n k : ℕ} {rep : ℕ → ℕ} {p : Parents} (r c : ℕ)
    → c < n
    → rep c ≡ r
    → Climbs p j c r
    → IsForest n rep k p
    → Compressed n rep k p r c j
compress-climb zero {p = p} r c h e g f =
    let root : parent p c ≡ r = subst (λ y. parent p y ≡ r) (sym g.0) g.1 in
    (p, λ fuel b. compress_stops fuel p r c root, f)
compress-climb (suc j) {p = p} r c h e (inl g) f =
    let root : parent p c ≡ r = subst (λ y. parent p y ≡ r) (sym g.0) g.1 in
    (p, λ fuel b. compress_stops fuel p r c root, f)
compress-climb (suc j) {rep = rep} {p = p} r c h e (inr g) f = elim (Bool-cases (parent p c == r)) [
  | inl stop ↦
      let root = (==_iff (parent p c) r).0 stop in (p, λ fuel b. compress_stops fuel p r c root, f)
  | inr go ↦
      let (p', ends, f') =
        compress-climb j r (parent p c) (f.inside c h) (rep-parent f c ∙ e)
          (rw e at (climb-shortcut f c h j (parent p c) r (sym (rep-parent f c ∙ e)) g))
          (rw e at (shortcut-IsForest f c h)) in
      (
        p',
        λ fuel b.
            let more : fuel ≡ suc (fuel - 1) = omega arith in
            compress_goes fuel p r c go
            ∙ subst (λ left. compress left (set p c r) r (parent p c) ≡ some p') (sym more)
                (ends (fuel - 1) (omega arith)),
        f',
      )
]

-- Both loops of `find` end within any fuel above the height: the first at the representative, the second
-- with parents that stand for the same map.
find_ends :
    {n k : ℕ} {rep : ℕ → ℕ} {p : Parents} (x : ℕ)
    → IsForest n rep k p
    → (p' : Parents) × ((fuel : ℕ) → k ≤ fuel → find_with (suc fuel) p x ≡ some (rep x, p'))
      × IsForest n rep k p'
unfolding find_with
find_ends {n} {k} {rep} {p} x f = elim (dec_lt x n) [
  | yes h ↦
      let (p', ends, f') = compress-climb k (rep x) x h refl (f.climb x) f in
      (
        p',
        λ fuel b.
            rw (find_root-climb fuel k p x (rep x) b (f.climb x), compressed, ends fuel b) refl,
        f',
      )
  | no h ↦
      let own : parent p x ≡ x = parent-beyond p x (omega (arith, f.size)) in
      let root : parent p x ≡ rep x = own ∙ sym (rep_of_root f x own) in
      (
        p,
        λ fuel b.
            rw
              (
                find_root-climb fuel k p x (rep x) b (f.climb x),
                compressed,
                compress_stops fuel p (rep x) x root,
              )
              refl,
        f,
      )
]

-- `find` returns the representative and keeps the forest with its map.
pub find-lem :
    {n k : ℕ} {rep : ℕ → ℕ} {p : Parents} (x : ℕ)
    → k ≤ n
    → IsForest n rep k p
    → ((find p x).0 ≡ rep x) × IsForest n rep k (find p x).1
unfolding find
find-lem {n} {k} {rep} {p} x b f =
    let (p', ends, f') = find_ends x f in
    let e = ends (length p) (omega (arith, f.size)) in rw e (refl, f')

-- On a forest of height at most `n` over `n` nodes, both loops of `find` end by their own tests within one
-- more step than the number of nodes, whatever further steps they are given: with `find`, that is, which
-- returns the representative.
pub find_with_more :
    (more : ℕ) {n k : ℕ} {rep : ℕ → ℕ} {p : Parents} (x : ℕ)
    → k ≤ n
    → IsForest n rep k p
    → (find_with (suc (more + n)) p x ≡ some (find p x)) × ((find p x).0 ≡ rep x)
unfolding find
find_with_more more {n} {k} {rep} {p} x b f =
    let (p', ends, f') = find_ends x f in
    let e = ends (length p) (omega (arith, f.size)) in rw e (ends (more + n) (omega arith), refl)
