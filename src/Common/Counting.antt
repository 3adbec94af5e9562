-- ===== src/Common/Counting.antt =====
-- How many of a list of numbers have an entry of a vector that lies above a bound.
use flexps_paper_version.Common.Tests.{ltb, ◌==◌, ==_refl, Bool-cases, if◌then◌else◌, ==→eq}
use flexps_paper_version.Common.Lists.{get_or, length}
use flexps_paper_version.Common.Members.{has, IsDistinct}
use flexps_paper_version.Common.Vectors.{grow, get_or-grow}
use mathlib.Core.Logic.{inl, inr}
use Prim.Native.Nat.{ℕ, zero, suc, ◌+◌, ◌≤◌, ◌<◌}
use mathlib.Core.Path.{◌≡◌, refl}
use mathlib.Core.Bool.{true, false}
use mathlib.Core.List.{List, [], ◌∷◌}
use native.Mathlib.Omega.{arith}
use native.Mathlib.Decide.{ℕ_discrete}

-- The number of `i` in the list with `k < xs[i]`; entries behind the end count as 0.
unfoldable pub ahead : ℕ → List ℕ → List ℕ → ℕ
ahead k [] xs = 0
ahead k (w ∷ ws) xs = ahead k ws xs + (if ltb k (get_or xs w 0) then 1 else 0)

pub ahead-le : (k : ℕ) (ws xs : List ℕ) → ahead k ws xs ≤ length ws
unfolding ahead
ahead-le k [] xs = omega arith
ahead-le k (w ∷ ws) xs = ground (arith, ahead-le k ws xs)

pub ahead-nil : (k : ℕ) (ws : List ℕ) → ahead k ws [] ≡ 0
unfolding ahead
ahead-nil k [] = refl
ahead-nil k (w ∷ ws) = ground (arith, ahead-nil k ws)

pub ahead-anti : (k : ℕ) (ws xs : List ℕ) → ahead (suc k) ws xs ≤ ahead k ws xs
unfolding ahead
ahead-anti k [] xs = omega arith
ahead-anti k (w ∷ ws) xs = ground (arith, ahead-anti k ws xs)

pub ahead-grow : (m k : ℕ) (ws xs : List ℕ) → ahead k ws (grow m 0 xs) ≡ ahead k ws xs
unfolding ahead
ahead-grow m k [] xs = refl
ahead-grow m k (w ∷ ws) xs = rw (ahead-grow m k ws xs, get_or-grow m 0 xs w)

-- Somebody is not ahead when the count is not full.
pub ahead_partial :
    (k : ℕ) (ws xs : List ℕ)
    → ahead k ws xs < length ws
    → (i : ℕ) × (has i ws ≡ true) × (get_or xs i 0 ≤ k)
unfolding ahead has
ahead_partial k [] xs h = absurd (omega arith)
ahead_partial k (w ∷ ws) xs h = elim (Bool-cases (ltb k (get_or xs w 0))) [
  | inl passed ↦
      let (i, inside, le) = ahead_partial k ws xs (ground arith) in (i, ground (arith, inside), le)
  | inr behind ↦ (w, ground (arith, ==_refl w), ground arith)
]

-- All are ahead when the count is full.
pub ahead_full :
    (k : ℕ) (ws xs : List ℕ)
    → ahead k ws xs ≡ length ws
    → (i : ℕ) → has i ws ≡ true
    → k < get_or xs i 0
unfolding ahead has
ahead_full k [] xs h i inside = cc
ahead_full k (w ∷ ws) xs h i inside = elim (Bool-cases (i == w)) [
  | inl here ↦ rw (==→eq i w here) (ground (arith, ahead-le k ws xs))
  | inr there ↦
      ahead_full k ws xs (ground (arith, ahead-le k ws xs)) i (ground (arith, there, inside))
]

-- A vector that differs at `i` only, by one more, is counted once more at the old value.
module _ (xs ys : List ℕ) (i : ℕ)
    (bumped : (j : ℕ) → get_or ys j 0 ≡ (if i == j then get_or xs j 0 + 1 else get_or xs j 0)) where
  ahead-bump_away : (k : ℕ) (ws : List ℕ) → has i ws ≡ false → ahead k ws ys ≡ ahead k ws xs
  unfolding ahead has
  ahead-bump_away k [] away = refl
  ahead-bump_away k (w ∷ ws) away = ground (arith, ahead-bump_away k ws, bumped w)

  pub ahead-bump :
      (k : ℕ) (ws : List ℕ)
      → IsDistinct ws
      → has i ws ≡ true
      → ahead k ws ys ≡ ahead k ws xs + (if k == get_or xs i 0 then 1 else 0)
  unfolding ahead has
  ahead-bump k [] distinct inside = cc
  ahead-bump k (w ∷ ws) distinct inside = elim (Bool-cases (i == w)) [
    | inl here ↦
        let e = ==→eq i w here in
        rw (ahead-bump_away k ws (rw e distinct.0), bumped w, e, ==_refl w) (ground arith)
    | inr there ↦
        ground (arith, ahead-bump k ws distinct.1 (ground (arith, there, inside)), bumped w)
  ]

pub ahead_lt_of :
    (k : ℕ) (ws xs : List ℕ) (i : ℕ)
    → has i ws ≡ true
    → get_or xs i 0 ≤ k
    → ahead k ws xs < length ws
ahead_lt_of k ws xs i inside le = elim (ℕ_discrete (ahead k ws xs) (length ws)) [
  | yes full ↦ absurd (omega (arith, ahead_full k ws xs full i inside))
  | no short ↦ omega (arith, ahead-le k ws xs)
]

-- The numbers below `n`.
unfoldable pub below : ℕ → List ℕ
below zero = []
below (suc n) = n ∷ below n

pub length-below : (n : ℕ) → length (below n) ≡ n
unfolding below
length-below zero = refl
length-below (suc n) = ground (arith, length-below n)

has-below : (i n : ℕ) → has i (below n) ≡ ltb i n
unfolding below has
has-below i zero = ground arith
has-below i (suc n) = ground (arith, has-below i n)

-- A number is among those below `n` exactly when it is smaller.
pub below-has : (i n : ℕ) → i < n → has i (below n) ≡ true
below-has i n lt = ground (arith, has-below i n)

pub has-below_lt : (i n : ℕ) → has i (below n) ≡ true → i < n
has-below_lt i n inside = ground (arith, has-below i n)

pub below-IsDistinct : (n : ℕ) → IsDistinct (below n)
unfolding below
below-IsDistinct zero = tt
below-IsDistinct (suc n) = (ground (arith, has-below n n), below-IsDistinct n)
