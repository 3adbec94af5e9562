-- ===== src/Common/Sums.antt =====
-- Weighted sums over a vector, and over a vector of buckets.
use Prim.Native.Nat.{ℕ, zero, suc, ◌+◌, ◌<◌}
use mathlib.Core.Path.{◌≡◌, refl}
use mathlib.Core.List.{List, [], ◌∷◌, ◌++◌}
use native.Mathlib.Omega.{arith}
use flexps_paper_version.Common.Lists.{length, get_or, set}
use flexps_paper_version.Common.Vectors.{grow, push_at, length-grow}

module _ {ℓ} {A : Type ℓ} (w : A → ℕ) where
  unfoldable pub total : List A → ℕ
  total [] = 0
  total (x ∷ xs) = w x + total xs

  pub total-append : (xs ys : List A) → total (xs ++ ys) ≡ total xs + total ys
  unfolding total
  total-append [] ys = omega arith
  total-append (x ∷ xs) ys = omega (arith, total-append xs ys)

  pub total-set :
      (xs : List A) (i : ℕ) (v d : A)
      → i < length xs
      → total (set xs i v) + w (get_or xs i d) ≡ total xs + w v
  unfolding total
  total-set [] i v d h = elim h [ ]
  total-set (x ∷ xs) zero v d h = omega arith
  total-set (x ∷ xs) (suc i) v d h = omega (arith, total-set xs i v d (omega arith))

  pub total-grow : (d : A) (n : ℕ) (xs : List A) → w d ≡ 0 → total (grow n d xs) ≡ total xs
  unfolding total grow
  total-grow d zero xs h = refl
  total-grow d (suc n) [] h = omega (arith, total-grow d n [] h)
  total-grow d (suc n) (x ∷ xs) h = omega (arith, total-grow d n xs h)

module _ {ℓ} {A : Type ℓ} (w : A → ℕ) where
  -- The weight of all buckets.
  abbrev pub pending : List (List A) → ℕ
  pending bs = total (total w) bs

  nil-total : total w [] ≡ 0
  unfolding total
  nil-total = refl

  pub pending-push_at :
      (i : ℕ) (e : A) (bs : List (List A))
      → pending (push_at i e (grow (suc i) [] bs)) ≡ pending bs + w e
  unfolding push_at total
  pending-push_at i e bs =
      let grown = grow (suc i) [] bs in
      omega (
        arith,
        total-set (total w) grown i (get_or grown i [] ++ e ∷ []) []
            (omega (arith, length-grow (suc i) [] bs)),
        total-append w (get_or grown i []) (e ∷ []),
        total-grow (total w) [] (suc i) bs nil-total,
      )

  pub pending-clear :
      (i : ℕ) (bs : List (List A))
      → pending (set (grow (suc i) [] bs) i []) + total w (get_or (grow (suc i) [] bs) i [])
        ≡ pending bs
  pending-clear i bs =
      let grown = grow (suc i) [] bs in
      omega (
        arith,
        total-set (total w) grown i [] [] (omega (arith, length-grow (suc i) [] bs)),
        total-grow (total w) [] (suc i) bs nil-total,
        nil-total,
      )
