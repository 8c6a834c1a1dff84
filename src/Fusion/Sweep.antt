-- ===== src/Fusion/Sweep.antt =====
-- The ancestor and descendant bitsets of `convex_groups` (fusion.rs).
pub mod Tables
pub mod Complete
use onnx_vulkan_rs_edge.Prelude.{
  ℕ, List, [], ◌∷◌, get_or, set, replicate, ◌==◌, if◌then◌else◌, Option, none, some,
}
use onnx_vulkan_rs_edge.Fusion.Bits.{Bits, zero_bits, set_bit, or_into}
use onnx_vulkan_rs_edge.Fusion.Merge.{row}

infixl 5 ◌>>=◌
abbrev pub ◌>>=◌ {ℓ κ} : {A : Type ℓ} {B : Type κ} → Option A → (A → Option B) → Option B
some a >>= f = f a
none >>= f = none

-- or_into(av, au); set_bit(av, u); `none` is the failed assertion of `split_two`, that v and u differ.
unfoldable pub absorb : List Bits → ℕ → ℕ → Option (List Bits)
unfolding or_into set_bit
absorb rows v u =
    if v == u then none else some (set rows v (set_bit (or_into (row rows v) (row rows u)) u))

unfoldable pub absorb_all : List Bits → ℕ → List ℕ → Option (List Bits)
absorb_all rows v [] = some rows
absorb_all rows v (u ∷ us) = do rows' ← absorb rows v u; absorb_all rows' v us

-- The nodes of `order`, each absorbing its neighbours and what they have absorbed.
unfoldable pub sweep : List (List ℕ) → List ℕ → List Bits → Option (List Bits)
unfolding absorb_all absorb
sweep links [] rows = some rows
sweep links (v ∷ order) rows = do
  rows' ← absorb_all rows v (get_or links v [])
  sweep links order rows'

abbrev pub blank_rows : ℕ → List Bits
blank_rows n = replicate n (zero_bits n)
