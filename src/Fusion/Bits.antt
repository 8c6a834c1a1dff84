-- ===== src/Fusion/Bits.antt =====
-- The bitsets of crates/onnx-vulkan-core/src/fusion.rs. A `Bits`, a vector of u64 words, is the list
-- of its bits: bit `i` stands at bit `i % 64` of word `i / 64`.
use onnx_vulkan_rs_edge.Prelude.{
  ℕ, zero, suc, ◌+◌, ◌*◌, ◌/◌, ◌<◌, ◌≡◌, refl, Bool, true, false, not, ◌&&◌, ◌||◌, List, [], ◌∷◌,
  arith, get_or, set, length, length-set, replicate, ◌==◌, if◌then◌else◌, ap,
}

abbrev pub Bits : Type 0
Bits = List Bool

unfoldable pub words : ℕ → ℕ
words n = (n + 63) / 64

-- vec![0u64; words(n)]
unfoldable pub zero_bits : ℕ → Bits
unfolding words
zero_bits n = replicate (64 * words n) false

abbrev pub bit : Bits → ℕ → Bool
bit b i = get_or b i false

unfoldable pub set_bit : Bits → ℕ → Bits
set_bit b i = set b i true

unfoldable pub or_into : Bits → Bits → Bits
or_into (d ∷ dst) (s ∷ src) = (d || s) ∷ or_into dst src
or_into dst _ = dst

-- `set_bits_outside`, from bit `k` on.
unfoldable pub outside_from : ℕ → Bits → Bits → List ℕ
outside_from k (x ∷ b) (m ∷ mask) =
    let rest = outside_from (suc k) b mask in if x && not m then k ∷ rest else rest
outside_from k _ _ = []

unfoldable pub set_bits_outside : Bits → Bits → List ℕ
unfolding outside_from
set_bits_outside b mask = outside_from 0 b mask

-- Whether a list of indices, or a set that holds them, has an index.
abbrev pub contains : List ℕ → ℕ → Bool
contains [] i = false
contains (x ∷ xs) i = x == i || contains xs i

pub bit-or_into :
    (a b : Bits) (i : ℕ) → length a ≡ length b → bit (or_into a b) i ≡ (bit a i || bit b i)
unfolding or_into
bit-or_into [] [] i h = refl
bit-or_into [] (y ∷ b) i h = absurd (omega arith)
bit-or_into (x ∷ a) [] i h = absurd (omega arith)
bit-or_into (x ∷ a) (y ∷ b) zero h = refl
bit-or_into (x ∷ a) (y ∷ b) (suc i) h = bit-or_into a b i (omega arith)

pub length-or_into : (a b : Bits) → length (or_into a b) ≡ length a
unfolding or_into
length-or_into [] b = refl
length-or_into (x ∷ a) [] = refl
length-or_into (x ∷ a) (y ∷ b) = ap suc (length-or_into a b)

pub bit-set_bit : (b : Bits) (i j : ℕ) → i < length b → bit (set_bit b i) j ≡ (i == j || bit b j)
unfolding set_bit
bit-set_bit [] i j h = absurd (omega arith)
bit-set_bit (x ∷ b) zero zero h = ground arith
bit-set_bit (x ∷ b) zero (suc j) h = ground arith
bit-set_bit (x ∷ b) (suc i) zero h = ground arith
bit-set_bit (x ∷ b) (suc i) (suc j) h = ground (arith, bit-set_bit b i j)

pub length-set_bit : (b : Bits) (i : ℕ) → length (set_bit b i) ≡ length b
unfolding set_bit
length-set_bit b i = length-set b i true

outside_from-below : (k j : ℕ) (b m : Bits) → j < k → contains (outside_from k b m) j ≡ false
unfolding outside_from
outside_from-below k j [] m h = refl
outside_from-below k j (x ∷ b) [] h = refl
outside_from-below k j (x ∷ b) (y ∷ m) h = ground (arith, outside_from-below (suc k) j b m)

outside_from-lem :
    (k i : ℕ) (b m : Bits)
    → length b ≡ length m
    → contains (outside_from k b m) (k + i) ≡ (bit b i && not (bit m i))
unfolding outside_from
outside_from-lem k i [] [] h = refl
outside_from-lem k i [] (y ∷ m) h = absurd (omega arith)
outside_from-lem k i (x ∷ b) [] h = absurd (omega arith)
outside_from-lem k zero (x ∷ b) (y ∷ m) h = ground (arith, outside_from-below (suc k) (k + 0) b m)
outside_from-lem k (suc i) (x ∷ b) (y ∷ m) h =
    let e : suc k + i ≡ k + suc i = omega arith in
    let ih = rw e at (outside_from-lem (suc k) i b m (omega arith)) in ground arith

-- `set_bits_outside` lists exactly the bits of the one set that are not in the other.
pub contains-set_bits_outside :
    (b m : Bits) (i : ℕ)
    → length b ≡ length m
    → contains (set_bits_outside b m) i ≡ (bit b i && not (bit m i))
unfolding set_bits_outside
contains-set_bits_outside b m i h =
    let e : 0 + i ≡ i = omega arith in rw e at (outside_from-lem 0 i b m h)
