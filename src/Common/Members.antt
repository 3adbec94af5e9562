-- ===== src/Common/Members.antt =====
-- `std::unordered_set<int>` and `std::list<int>`: a list of numbers in its order of iteration.
use Prim.Native.Nat.{ℕ}
use mathlib.Core.Path.{◌≡◌, refl}
use mathlib.Core.Logic.{inl, inr}
use mathlib.Core.Bool.{Bool, false, not, ◌&&◌, ◌||◌}
use mathlib.Core.List.{List, [], ◌∷◌, ◌++◌}
use native.Mathlib.Omega.{arith}
use flexps_paper_version.Common.Tests.{◌==◌, if◌then◌else◌, Bool-cases, ==→eq}

unfoldable pub has : ℕ → List ℕ → Bool
has x [] = false
has x (y ∷ ys) = (x == y) || has x ys

-- `s.insert(x)`.
unfoldable pub insert : ℕ → List ℕ → List ℕ
unfolding has
insert x ys = if has x ys then ys else x ∷ ys

-- `s.erase(x)`, and `l.remove_if` for the elements equal to `x`.
unfoldable pub erase : ℕ → List ℕ → List ℕ
erase x [] = []
erase x (y ∷ ys) = let rest = erase x ys in if x == y then rest else y ∷ rest

pub has-append : (x : ℕ) (ys zs : List ℕ) → has x (ys ++ zs) ≡ (has x ys || has x zs)
unfolding has
has-append x [] zs = refl
has-append x (y ∷ ys) zs = ground (arith, has-append x ys zs)

pub has-insert : (x y : ℕ) (ys : List ℕ) → has x (insert y ys) ≡ ((x == y) || has x ys)
unfolding has insert
has-insert x y ys = elim (Bool-cases (has y ys)) [
  | inl e ↦ elim (Bool-cases (x == y)) [
    | inl same ↦ rw (e, same) (rw (==→eq x y same) e)
    | inr other ↦ rw (e, other) refl
  ]
  | inr e ↦ rw e refl
]

pub has-erase : (x y : ℕ) (ys : List ℕ) → has x (erase y ys) ≡ (not (x == y) && has x ys)
unfolding has erase
has-erase x y [] = ground arith
has-erase x y (z ∷ zs) = ground (arith, has-erase x y zs)

abbrev pub IsDistinct : List ℕ → Type 0
IsDistinct [] = Unit
IsDistinct (x ∷ xs) = (has x xs ≡ false) × IsDistinct xs
