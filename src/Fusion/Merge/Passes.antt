-- ===== src/Fusion/Merge/Passes.antt =====
-- The greedy loop of fusion.rs: attempts, passes, and the end of the passes.
use onnx_vulkan_rs_edge.Prelude.{
  ℕ, zero, suc, ◌+◌, ◌≤◌, ◌<◌, ◌≡◌, ◌≢◌, ◌⊎◌, inl, inr, refl, sym, ◌∙◌, Bool, true, false, not,
  ◌||◌, List, [], ◌∷◌, ◌==◌, ==_iff, if◌then◌else◌, arith, map, ap, Bool-cases, subst, some,
}
use onnx_vulkan_rs_edge.Fusion.Bits.{set_bits_outside}
use onnx_vulkan_rs_edge.Fusion.UnionFind.{Parents, find}
use onnx_vulkan_rs_edge.Fusion.UnionFind.Forest.{IsForest, rep-rep, rep_in_range}
use onnx_vulkan_rs_edge.Fusion.UnionFind.Ends.{find-lem}
use onnx_vulkan_rs_edge.Fusion.UnionFind.Link.{link}
use onnx_vulkan_rs_edge.Fusion.Merge.{
  Clusters, finds, any_in, commit, try_merge, attempt, pass, greedy,
}
use onnx_vulkan_rs_edge.Fusion.Merge.Finds.{finds-lem, any_in-lem}
use onnx_vulkan_rs_edge.Fusion.Merge.Invariant.{Inv, moved}
use onnx_vulkan_rs_edge.Fusion.Merge.Invariant.Blocked.{merged, blocked}
use onnx_vulkan_rs_edge.Fusion.Merge.Invariant.Merged.{moved-link, commit-Inv}

pub moved-le : (rep : ℕ → ℕ) (n : ℕ) → moved rep n ≤ n
moved-le rep zero = omega arith
moved-le rep (suc n) = ground (arith, moved-le rep n)

-- The tables of two states are the same; the parents may differ by path compression.
abbrev pub SameTables : Clusters → Clusters → Type 0
SameTables c d = (c.s ≡ d.s) × (c.canc ≡ d.canc) × (c.cdesc ≡ d.cdesc)

module _ (n w : ℕ) (sup : ℕ → Bool) (Before : ℕ → ℕ → Type 0) where
  -- What a step has done that started from the representatives `rep` and the state `c`, and ended in
  -- the state `d`; the flag says whether it merged clusters.
  pub record Stepped (rep : ℕ → ℕ) (c d : Clusters) (changed : Bool) : Type 0 where
    pub rep' : ℕ → ℕ
    pub inv : Inv n w sup Before rep' d
    pub count : (if changed then 1 else 0) + moved rep n ≤ moved rep' n
    pub coarser : (x y : ℕ) → rep x ≡ rep y → rep' x ≡ rep' y
    pub unchanged : changed ≡ false → (rep' ≡ rep) × SameTables d c

  -- An edge between supported nodes.
  abbrev pub IsEdge : ℕ × ℕ → Type 0
  IsEdge e = (e.0 < n) × (e.1 < n) × (sup e.0 ≡ true) × (sup e.1 ≡ true)

  abbrev pub AllEdges : List (ℕ × ℕ) → Type 0
  AllEdges [] = Unit {0}
  AllEdges (e ∷ es) = IsEdge e × AllEdges es

  with_uf :
      {rep : ℕ → ℕ} {c : Clusters} (p : Parents)
      → IsForest n rep (moved rep n) p
      → Inv n w sup Before rep c
      → Inv n w sup Before rep (record c { uf = p })
  with_uf p f inv = record {
    forest = f;
    s_table = inv.s_table;
    canc_table = inv.canc_table;
    cdesc_table = inv.cdesc_table;
    members = inv.members;
    up = inv.up;
    down = inv.down;
    alone = inv.alone;
    untangled = inv.untangled;
  }

  stayed :
      {rep : ℕ → ℕ} {c : Clusters} (p : Parents)
      → IsForest n rep (moved rep n) p
      → Inv n w sup Before rep c
      → Stepped rep c (record c { uf = p }) false
  stayed {rep = rep} p f inv = record {
    rep' = rep;
    inv = with_uf p f inv;
    count = omega arith;
    coarser = λ x y h. h;
    unchanged = λ _. (refl, (refl, refl, refl));
  }

  -- The representative of a supported node is supported.
  sup-rep :
      {rep : ℕ → ℕ} {c : Clusters}
      → Inv n w sup Before rep c
      → (u : ℕ) → sup u ≡ true
      → sup (rep u) ≡ true
  sup-rep {rep = rep} inv u h = elim (Bool-cases (sup (rep u))) [
    | inl yes' ↦ yes'
    | inr no' ↦
        let here = inv.alone (rep u) u no' (sym (rep-rep inv.forest u)) in
        absurd (ground (arith, ap sup here))
  ]

  -- The test of `try_merge`, and the parents after it.
  tested :
      {rep : ℕ → ℕ} {c : Clusters}
      → Inv n w sup Before rep c
      → (ra rb : ℕ)
      → (p : Parents) × IsForest n rep (moved rep n) p
        × (try_merge c ra rb ≡ (
            if blocked rep c ra rb then (record c { uf = p }, false) else (
              commit c p ra rb (merged c.s ra rb) (merged c.canc ra rb) (merged c.cdesc ra rb),
              true,
            )))
  unfolding try_merge
  tested {rep = rep} {c = c} inv ra rb =
      let below = set_bits_outside (merged c.cdesc ra rb) (merged c.s ra rb) in
      let above = set_bits_outside (merged c.canc ra rb) (merged c.s ra rb) in
      let (e, f) = finds-lem below c.uf (moved-le rep n) inv.forest in
      let (e', f') = any_in-lem (map rep below) above (finds c.uf below).1 (moved-le rep n) f in
      ((any_in (map rep below) (finds c.uf below).1 above).1, f', rw (e, e'))

  -- An attempt at two different representatives keeps the invariant, and merges unless it is blocked.
  try_merge-Stepped :
      {rep : ℕ → ℕ} {c : Clusters}
      → Inv n w sup Before rep c
      → (ra rb : ℕ) → ra < n
      → rb < n
      → rep ra ≡ ra
      → rep rb ≡ rb
      → ra ≢ rb
      → sup ra ≡ true
      → sup rb ≡ true
      → Stepped rep c (try_merge c ra rb).0 (try_merge c ra rb).1
        × ((try_merge c ra rb).1 ≡ not (blocked rep c ra rb))
  try_merge-Stepped {rep = rep} {c = c} inv ra rb la lb ea eb ne sa sb =
      let (p, f, e) = tested inv ra rb in
      rw e (elim (Bool-cases (blocked rep c ra rb)) [
        | inl stop ↦ rw stop (stayed p f inv, refl)
        | inr go ↦ rw go (
          record {
            rep' = link rep ra rb;
            inv = commit-Inv inv p f ra rb la lb ea eb ne sa sb go;
            count = omega (arith, moved-link n rep ra rb ea eb ne lb);
            coarser = λ x y h. ap (λ (r : ℕ). if r == rb then ra else r) h;
            unchanged = λ h. absurd (ground arith);
          },
          refl,
        )
      ])

  rebase :
      {rep : ℕ → ℕ} {c d : Clusters} {changed : Bool} (p : Parents)
      → Stepped rep (record c { uf = p }) d changed
      → Stepped rep c d changed
  rebase p step = record {
    rep' = step.rep';
    inv = step.inv;
    count = step.count;
    coarser = step.coarser;
    unchanged = step.unchanged;
  }

  -- What an attempt that merges nothing has found: one cluster, or a test that forbids the merge.
  abbrev pub Settled : (ℕ → ℕ) → Clusters → ℕ × ℕ → Type 0
  Settled rep c e = (rep e.0 ≡ rep e.1) ⊎ (blocked rep c (rep e.0) (rep e.1) ≡ true)

  attempt-Stepped :
      {rep : ℕ → ℕ} {c : Clusters}
      → Inv n w sup Before rep c
      → (u v : ℕ) → IsEdge (u, v)
      → Stepped rep c (attempt c u v).0 (attempt c u v).1
        × ((attempt c u v).1 ≡ false → Settled rep c (u, v))
  unfolding attempt
  attempt-Stepped {rep = rep} {c = c} inv u v edge =
      let (eu, fu) = find-lem u (moved-le rep n) inv.forest in
      let (ev, fv) = find-lem v (moved-le rep n) fu in
      let p = (find (find c.uf u).1 v).1 in
      let inv' = with_uf p fv inv in
      elim (Bool-cases (rep u == rep v)) [
        | inl same ↦ rw (eu, ev, same) (stayed p fv inv, λ _. inl ((==_iff (rep u) (rep v)).0 same))
        | inr other ↦
            let (step, flag) =
              try_merge-Stepped inv' (rep u) (rep v) (rep_in_range inv.forest u edge.0)
                (rep_in_range inv.forest v edge.1) (rep-rep inv.forest u) (rep-rep inv.forest v)
                (ground arith) (sup-rep inv u edge.2) (sup-rep inv v edge.3) in
            rw (eu, ev, other) (rebase p step, λ h. inr (ground arith))
      ]

  abbrev pub AllSettled : (ℕ → ℕ) → Clusters → List (ℕ × ℕ) → Type 0
  AllSettled rep c [] = Unit {0}
  AllSettled rep c (e ∷ es) = Settled rep c e × AllSettled rep c es

  Settled-one :
      (rep : ℕ → ℕ) (c d : Clusters) (e : ℕ × ℕ)
      → SameTables c d
      → Settled rep d e
      → Settled rep c e
  Settled-one rep c d e h (inl same) = inl same
  Settled-one rep c d e h (inr stop) =
      let test : blocked rep c (rep e.0) (rep e.1) ≡ blocked rep d (rep e.0) (rep e.1) =
        cc (h.0, h.1, h.2) in
      inr (test ∙ stop)

  settled_by_tables :
      (rep : ℕ → ℕ) (c d : Clusters) (es : List (ℕ × ℕ))
      → SameTables c d
      → AllSettled rep d es
      → AllSettled rep c es
  settled_by_tables rep c d [] h a = tt
  settled_by_tables rep c d (e ∷ es) h a =
      (Settled-one rep c d e h a.0, settled_by_tables rep c d es h a.1)

  compose :
      {rep : ℕ → ℕ} {c d e : Clusters} {m m' : Bool} (s : Stepped rep c d m)
      → Stepped s.rep' d e m'
      → Stepped rep c e (m || m')
  compose {m = m} {m' = m'} s t = record {
    rep' = t.rep';
    inv = t.inv;
    count = ground arith;
    coarser = λ x y h. t.coarser x y (s.coarser x y h);
    unchanged = λ h.
        let first : m ≡ false = ground arith in
        let second : m' ≡ false = ground arith in
        let (same, tables) = s.unchanged first in
        let (same', tables') = t.unchanged second in
        (same' ∙ same, (tables'.0 ∙ tables.0, tables'.1 ∙ tables.1, tables'.2 ∙ tables.2));
  }

  pass-Stepped :
      (edges : List (ℕ × ℕ)) {rep : ℕ → ℕ} {c : Clusters}
      → Inv n w sup Before rep c
      → AllEdges edges
      → Stepped rep c (pass edges c).0 (pass edges c).1
        × ((pass edges c).1 ≡ false → AllSettled rep c edges)
  unfolding pass
  pass-Stepped [] {rep = rep} {c = c} inv a = (stayed c.uf inv.forest inv, λ _. tt)
  pass-Stepped ((u, v) ∷ edges) {rep = rep} {c = c} inv a =
      let (s, settled) = attempt-Stepped inv u v a.0 in
      let (t, rest) = pass-Stepped edges s.inv a.1 in
      (
        compose s t,
        λ h.
            let first : (attempt c u v).1 ≡ false = ground arith in
            let second : (pass edges (attempt c u v).0).1 ≡ false = ground arith in
            let (same, tables) = s.unchanged first in
            (
              settled first,
              settled_by_tables rep c (attempt c u v).0 edges
                  (sym tables.0, sym tables.1, sym tables.2)
                  (subst (λ r. AllSettled r (attempt c u v).0 edges) same (rest second)),
            ),
      )

  -- What the passes end with: clusters that keep the invariant, and of which no two that an edge joins
  -- can be merged.
  pub record Ended (rep : ℕ → ℕ) (c d : Clusters) (edges : List (ℕ × ℕ)) : Type 0 where
    pub rep' : ℕ → ℕ
    pub inv : Inv n w sup Before rep' d
    pub coarser : (x y : ℕ) → rep x ≡ rep y → rep' x ≡ rep' y
    pub settled : AllSettled rep' d edges

  -- From a state that keeps the invariant and edges that join supported nodes, the passes end, with one
  -- that changes nothing, within any fuel above the number of nodes that can still move: the invariant
  -- holds at the end, what was joined stays joined, and no edge is left along which the two clusters could
  -- still be merged.
  pub greedy-Ended :
      (fuel : ℕ) (edges : List (ℕ × ℕ)) {rep : ℕ → ℕ} (c : Clusters)
      → n < fuel + moved rep n
      → Inv n w sup Before rep c
      → AllEdges edges
      → (d : Clusters) × (greedy fuel edges c ≡ some d) × Ended rep c d edges
  unfolding greedy
  greedy-Ended zero edges {rep = rep} c enough inv a = absurd (omega (arith, moved-le rep n))
  greedy-Ended (suc fuel) edges {rep = rep} c enough inv a =
      let (s, settled) = pass-Stepped edges inv a in
      elim (Bool-cases (pass edges c).1) [
        | inl more ↦
            let progress : 1 + moved rep n ≤ moved s.rep' n = rw more at s.count in
            let rest =
              greedy-Ended fuel edges {rep = s.rep'} (pass edges c).0 (omega arith) s.inv a in
            let end = rest.2 in
            (
              rest.0,
              rw (more, greedy) rest.1,
              record {
                rep' = end.rep';
                inv = end.inv;
                coarser = λ x y h. end.coarser x y (s.coarser x y h);
                settled = end.settled;
              },
            )
        | inr done ↦
            let (same, tables) = s.unchanged done in
            (
              (pass edges c).0,
              rw (done, greedy) refl,
              record {
                rep' = s.rep';
                inv = s.inv;
                coarser = s.coarser;
                settled =
                    settled_by_tables s.rep' (pass edges c).0 c edges tables
                      (subst (λ r. AllSettled r c edges) (sym same) (settled done));
              },
            )
      ]
