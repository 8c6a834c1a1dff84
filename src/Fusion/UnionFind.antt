-- ===== src/Fusion/UnionFind.antt =====
-- `Uf` of fusion.rs: union-find with path compression, over the vector of parents.
pub mod Forest
pub mod Link
pub mod Ends
use onnx_vulkan_rs_edge.Prelude.{
  ℕ, zero, suc, true, false, List, [], ◌∷◌, get_or, set, length, ◌==◌, Option, none, some,
}

abbrev pub Parents : Type 0
Parents = List ℕ

-- (i..i + k)
unfoldable pub range_from : ℕ → ℕ → List ℕ
range_from i zero = []
range_from i (suc k) = i ∷ range_from (suc i) k

-- `Uf::new`
unfoldable pub new : ℕ → Parents
unfolding range_from
new n = range_from 0 n

-- self.parent[x]; an index out of range, which the callers do not have, would be its own parent.
abbrev pub parent : Parents → ℕ → ℕ
parent p x = get_or p x x

-- while self.parent[r] != r { r = self.parent[r]; }; `none` is a loop that has not ended within the fuel.
unfoldable pub find_root : ℕ → Parents → ℕ → Option ℕ
find_root zero p r = none
find_root (suc fuel) p r = elim (parent p r == r) [
  | true ↦ some r
  | false ↦ find_root fuel p (parent p r)
]

-- while self.parent[c] != r { let n = self.parent[c]; self.parent[c] = r; c = n; }
unfoldable pub compress : ℕ → Parents → ℕ → ℕ → Option Parents
compress zero p r c = none
compress (suc fuel) p r c = elim (parent p c == r) [
  | true ↦ some p
  | false ↦ compress fuel (set p c r) r (parent p c)
]

unfoldable pub compressed : ℕ → Parents → ℕ → Option ℕ → Option (ℕ × Parents)
unfolding compress
compressed fuel p x none = none
compressed fuel p x (some r) = elim (compress fuel p r x) [ none ↦ none | some p' ↦ some (r, p') ]

unfoldable pub find_with : ℕ → Parents → ℕ → Option (ℕ × Parents)
unfolding find_root compressed
find_with fuel p x = compressed fuel p x (find_root fuel p x)

abbrev pub or_start : Parents → ℕ → Option (ℕ × Parents) → ℕ × Parents
or_start p x none = (x, p)
or_start p x (some found) = found

-- The fuel is one more than the number of nodes. A loop that did not end would leave all as it was.
unfoldable pub find : Parents → ℕ → ℕ × Parents
unfolding find_with
find p x = or_start p x (find_with (suc (length p)) p x)
