-- ===== src/Fusion/Collect/Members.antt =====
-- Which nodes the groups of `convex_groups` (fusion.rs) hold.
use onnx_vulkan_rs_edge.Prelude.{
  ℕ, suc, ◌+◌, ◌-◌, ◌≤◌, ◌<◌, ◌≡◌, refl, ◌∙◌, ap, Bool, true, false, ◌&&◌, ◌||◌, List, [], ◌∷◌,
  ◌++◌, ◌==◌, ==_iff, leb, if◌then◌else◌, Bool-cases, inl, inr, arith, get_or,
}
use native.Mathlib.Decide.{dec_lt}
use onnx_vulkan_rs_edge.Fusion.Bits.{contains}
use onnx_vulkan_rs_edge.Fusion.UnionFind.{Parents, find}
use onnx_vulkan_rs_edge.Fusion.UnionFind.Forest.{IsForest}
use onnx_vulkan_rs_edge.Fusion.UnionFind.Ends.{find-lem}
use onnx_vulkan_rs_edge.Fusion.Collect.{Groups, push_member, collect_from, values}

-- How often a node stands in a list, and in all the groups together.
abbrev pub occurrences : ℕ → List ℕ → ℕ
occurrences j [] = 0
occurrences j (x ∷ xs) = (if x == j then 1 else 0) + occurrences j xs

abbrev pub total : ℕ → List (List ℕ) → ℕ
total j [] = 0
total j (g ∷ gs) = occurrences j g + total j gs

occurrences-append :
    (j i : ℕ) (xs : List ℕ)
    → occurrences j (xs ++ i ∷ []) ≡ occurrences j xs + (if i == j then 1 else 0)
occurrences-append j i [] = omega arith
occurrences-append j i (x ∷ xs) = omega (arith, occurrences-append j i xs)

total-push_member :
    (j r i : ℕ) (m : Groups)
    → total j (values (push_member r i m)) ≡ total j (values m) + (if i == j then 1 else 0)
unfolding push_member
total-push_member j r i [] = ground arith
total-push_member j r i ((k, ms) ∷ m) =
    ground (arith, occurrences-append j i ms, total-push_member j r i m)

-- The supported nodes from `i` on.
abbrev pub listed : ℕ → List Bool → ℕ → Bool
listed i supported j = leb i j && get_or supported (j - i) false

listed-cons :
    (i j : ℕ) (b : Bool) (supported : List Bool)
    → listed i (b ∷ supported) j ≡ (if i == j then b else listed (suc i) supported j)
listed-cons i j b supported = elim (dec_lt i j) [
  | yes lt ↦ let e : j - i ≡ suc (j - suc i) = omega arith in rw e (ground arith)
  | no ge ↦ elim (Bool-cases (i == j)) [
    | inl same ↦ let e : j - i ≡ 0 = ground arith in rw e (ground arith)
    | inr other ↦ ground arith
  ]
]

pub total-collect_from :
    (j i : ℕ) (supported : List Bool) (p : Parents) (m : Groups)
    → total j (values (collect_from i supported p m))
      ≡ total j (values m) + (if listed i supported j then 1 else 0)
unfolding collect_from
total-collect_from j i [] p m = ground arith
total-collect_from j i (true ∷ supported) p m = ground (
  arith,
  listed-cons i j true supported,
  total-push_member j (find p i).0 i m,
  total-collect_from j (suc i) supported (find p i).1 (push_member (find p i).0 i m),
)
total-collect_from j i (false ∷ supported) p m =
    ground (arith, listed-cons i j false supported, total-collect_from j (suc i) supported p m)

-- The members of the group of a representative, if it has one.
abbrev pub group : ℕ → Groups → List ℕ
group k [] = []
group k ((k', ms) ∷ m) = if k' == k then ms else group k m

-- The keys ascend from `lo`.
abbrev pub Ascends : ℕ → Groups → Type 0
Ascends lo [] = Unit {0}
Ascends lo ((k, ms) ∷ m) = (lo ≤ k) × Ascends (suc k) m

group-below : (k lo : ℕ) (m : Groups) → Ascends lo m → k < lo → group k m ≡ []
group-below k lo [] h lt = refl
group-below k lo ((k', ms) ∷ m) h lt = ground (arith, group-below k (suc k') m h.1)

Ascends-push_member :
    (lo r i : ℕ) (m : Groups) → lo ≤ r → Ascends lo m → Ascends lo (push_member r i m)
unfolding push_member
Ascends-push_member lo r i [] b h = (b, tt)
Ascends-push_member lo r i ((k, ms) ∷ m) b h = ground (arith, Ascends-push_member (suc k) r i m)

group-push_member :
    (lo k r i : ℕ) (m : Groups)
    → Ascends lo m
    → group k (push_member r i m) ≡ (if r == k then group k m ++ i ∷ [] else group k m)
unfolding push_member
group-push_member lo k r i [] h = ground arith
group-push_member lo k r i ((k', ms) ∷ m) h =
    ground (arith, group-push_member (suc k') k r i m h.1, group-below k (suc k') m h.1)

contains-append : (i j : ℕ) (xs : List ℕ) → contains (xs ++ i ∷ []) j ≡ (contains xs j || i == j)
contains-append i j [] = ground arith
contains-append i j (x ∷ xs) = ground (arith, contains-append i j xs)

contains-push_member :
    (s r i j : ℕ) (m : Groups)
    → Ascends 0 m
    → contains (group r (push_member s i m)) j ≡ (contains (group r m) j || (s == r && i == j))
contains-push_member s r i j m a = elim (Bool-cases (s == r)) [
  | inl same ↦ rw (group-push_member 0 r s i m a, same) (contains-append i j (group r m))
  | inr other ↦ rw (group-push_member 0 r s i m a, other) (ground arith)
]

-- Each group holds, beside what it held before, the nodes from `i` on of its representative.
pub group-collect_from :
    (i : ℕ) (supported : List Bool) {n k : ℕ} {rep : ℕ → ℕ} (p : Parents) (m : Groups) (r j : ℕ)
    → k ≤ n
    → IsForest n rep k p
    → Ascends 0 m
    → (contains (group r (collect_from i supported p m)) j
        ≡ (contains (group r m) j || (listed i supported j && rep j == r)))
      × Ascends 0 (collect_from i supported p m)
unfolding collect_from
group-collect_from i [] p m r j b f a = (ground arith, a)
group-collect_from i (false ∷ supported) p m r j b f a =
    let (e, a') = group-collect_from (suc i) supported p m r j b f a in
    (ground (arith, listed-cons i j false supported), a')
group-collect_from i (true ∷ supported) {rep = rep} p m r j b f a =
    let (e, f') = find-lem i b f in
    let pushed = push_member (find p i).0 i m in
    let asc = Ascends-push_member 0 (find p i).0 i m (omega arith) a in
    let (g, a') = group-collect_from (suc i) supported (find p i).1 pushed r j b f' asc in
    let new = contains-push_member (find p i).0 r i j m a in
    (
      elim (Bool-cases (i == j)) [
        | inl same ↦
            let e' : (find p i).0 ≡ rep j = e ∙ ap rep ((==_iff i j).0 same) in
            let new' = rw e' at new in ground (arith, listed-cons i j true supported, e')
        | inr other ↦ ground (arith, listed-cons i j true supported)
      ],
      a',
    )

-- The entries of an ascending map are its groups.
abbrev pub AllEntries {ℓ} : (ℕ → List ℕ → Type ℓ) → Groups → Type ℓ
AllEntries P [] = Unit
AllEntries P ((k, ms) ∷ m) = P k ms × AllEntries P m

entries-above : (lo : ℕ) (m : Groups) → Ascends lo m → AllEntries (λ k ms. lo ≤ k) m
entries-above lo [] a = tt
entries-above lo ((k, ms) ∷ m) a =
    (a.0, weaken (suc k) lo m (omega arith) (entries-above (suc k) m a.1))
  where
    weaken :
        (a b : ℕ) (m : Groups) → b ≤ a → AllEntries (λ k ms. a ≤ k) m → AllEntries (λ k ms. b ≤ k) m
    weaken a b [] h x = tt
    weaken a b ((k, ms) ∷ m) h x = (omega arith, weaken a b m h x.1)

pub group-entries : (lo : ℕ) (m : Groups) → Ascends lo m → AllEntries (λ k ms. group k m ≡ ms) m
group-entries lo [] a = tt
group-entries lo ((k, ms) ∷ m) a =
    (ground arith, carry m (entries-above (suc k) m a.1) (group-entries (suc k) m a.1))
  where
    carry :
        (es : Groups)
        → AllEntries (λ k' ms'. suc k ≤ k') es
        → AllEntries (λ k' ms'. group k' m ≡ ms') es
        → AllEntries (λ k' ms'. group k' ((k, ms) ∷ m) ≡ ms') es
    carry [] x y = tt
    carry ((k', ms') ∷ es) x y = (ground arith, carry es x.1 y.1)
