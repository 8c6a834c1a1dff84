-- ===== src/Fusion/Merge.antt =====
-- The greedy union of fusion.rs: the state of the clusters, one attempt to merge along an edge, a pass
-- over the edges, and the passes until one changes nothing.
pub mod Finds
pub mod Invariant
pub mod Passes
use onnx_vulkan_rs_edge.Prelude.{
  ℕ, zero, suc, Bool, true, false, ◌||◌, List, [], ◌∷◌, get_or, set, ◌==◌, if◌then◌else◌, Option,
  none, some,
}
use onnx_vulkan_rs_edge.Fusion.Bits.{Bits, contains, or_into, set_bits_outside}
use onnx_vulkan_rs_edge.Fusion.UnionFind.{Parents, find}

-- `uf`, and for each representative its members and the union of their ancestors and descendants.
pub record Clusters : Type 0 where
  pub uf : Parents
  pub s : List Bits
  pub canc : List Bits
  pub cdesc : List Bits

abbrev pub row : List Bits → ℕ → Bits
row rows i = get_or rows i []

-- for &x in &scratch { down.insert(uf.find(x)); }
unfoldable pub finds : Parents → List ℕ → List ℕ × Parents
finds p [] = ([], p)
finds p (x ∷ xs) = let (r, p') = find p x in let (rs, p'') = finds p' xs in (r ∷ rs, p'')

-- scratch.iter().any(|&x| down.contains(&uf.find(x)))
unfoldable pub any_in : List ℕ → Parents → List ℕ → Bool × Parents
any_in down p [] = (false, p)
any_in down p (x ∷ xs) =
    let (r, p') = find p x in
    let rest = any_in down p' xs in if contains down r then (true, p') else rest

-- The commit of a merge of `rb` into `ra`.
unfoldable pub commit : Clusters → Parents → ℕ → ℕ → Bits → Bits → Bits → Clusters
commit c p ra rb ms ma md = record {
  uf = set p rb ra;
  s = set c.s ra ms;
  canc = set c.canc ra ma;
  cdesc = set c.cdesc ra md;
}

-- The body of the loop for two different representatives; the flag says whether they were merged.
unfoldable pub try_merge : Clusters → ℕ → ℕ → Clusters × Bool
unfolding finds any_in commit
try_merge c ra rb =
    let ms = or_into (row c.s ra) (row c.s rb) in
    let ma = or_into (row c.canc ra) (row c.canc rb) in
    let md = or_into (row c.cdesc ra) (row c.cdesc rb) in
    let (down, p) = finds c.uf (set_bits_outside md ms) in
    let (blocked, p') = any_in down p (set_bits_outside ma ms) in
    if blocked then (record c { uf = p' }, false) else (commit c p' ra rb ms ma md, true)

-- The body of the loop over `edges`.
unfoldable pub attempt : Clusters → ℕ → ℕ → Clusters × Bool
attempt c u v =
    let (ra, p) = find c.uf u in
    let (rb, p') = find p v in
    if ra == rb then (record c { uf = p' }, false) else try_merge (record c { uf = p' }) ra rb

-- One round of `loop`: the flag is `changed`.
unfoldable pub pass : List (ℕ × ℕ) → Clusters → Clusters × Bool
pass [] c = (c, false)
pass ((u, v) ∷ edges) c =
    let (c', merged) = attempt c u v in
    let (c'', changed) = pass edges c' in (c'', merged || changed)

-- `loop`; `none` if its passes have not ended within the fuel.
unfoldable pub greedy : ℕ → List (ℕ × ℕ) → Clusters → Option Clusters
greedy zero edges c = none
greedy (suc fuel) edges c =
    let (c', changed) = pass edges c in
    elim changed [ true ↦ greedy fuel edges c' | false ↦ some c' ]
