-- ===== src/Fusion/Merge/Invariant.antt =====
-- What the clusters of fusion.rs satisfy between two attempts to merge.
pub mod Blocked
pub mod Merged
use onnx_vulkan_rs_edge.Prelude.{
  ℕ, zero, suc, ◌+◌, ◌≤◌, ◌<◌, ◌≡◌, Bool, true, false, ◌&&◌, List, length, ◌==◌, if◌then◌else◌,
}
use onnx_vulkan_rs_edge.Fusion.Bits.{Bits, bit}
use onnx_vulkan_rs_edge.Fusion.UnionFind.Forest.{IsForest}
use onnx_vulkan_rs_edge.Fusion.Merge.{Clusters, row}

-- How many of the nodes below `n` are not their own representatives.
abbrev pub moved : (ℕ → ℕ) → ℕ → ℕ
moved rep zero = 0
moved rep (suc n) = (if rep n == n then 0 else 1) + moved rep n

-- A table of `n` bitsets of one width.
pub record IsTable (n w : ℕ) (rows : List Bits) : Type 0 where
  pub size : length rows ≡ n
  pub width : (i : ℕ) → i < n → length (row rows i) ≡ w

-- `rep` is the representative of each of `n` nodes, `sup` says which nodes are supported, and
-- `Before x y` that there is a path from `x` to `y` in the graph.
pub record Inv (n w : ℕ) (sup : ℕ → Bool) (Before : ℕ → ℕ → Type 0) (rep : ℕ → ℕ) (c : Clusters)
    : Type 0 where
  pub forest : IsForest n rep (moved rep n) c.uf
  pub s_table : IsTable n w c.s
  pub canc_table : IsTable n w c.canc
  pub cdesc_table : IsTable n w c.cdesc
  -- The members of a cluster are the supported nodes that it represents.
  pub members : (r x : ℕ) → r < n → rep r ≡ r → bit (row c.s r) x ≡ (rep x == r && sup x)
  -- A cluster's bitsets hold all the nodes before and behind its members.
  pub up : (x y : ℕ) → Before x y → bit (row c.canc (rep y)) x ≡ true
  pub down : (x y : ℕ) → Before x y → bit (row c.cdesc (rep x)) y ≡ true
  -- An unsupported node is alone.
  pub alone : (x y : ℕ) → sup x ≡ false → rep y ≡ rep x → y ≡ x
  -- No two clusters lie each before the other.
  pub untangled :
      (x y x' y' : ℕ) → Before x y → Before y' x' → rep x ≡ rep x' → rep y ≡ rep y' → rep x ≡ rep y
