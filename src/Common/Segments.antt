-- ===== src/Common/Segments.antt =====
-- Segments of arrays, by positions.
use Prim.Native.Nat.{ℕ, zero, suc, ◌+◌, ◌-◌, ◌≤◌}
use mathlib.Core.Path.{◌≡◌, refl, sym, ap, ◌∙◌}
use mathlib.Core.List.{List, [], ◌∷◌, ◌++◌}
use native.Mathlib.Omega.{arith}
use flexps_paper_version.Common.Lists.{length}

module _ {ℓ} {A : Type ℓ} where
  unfoldable pub take : ℕ → List A → List A
  take zero xs = []
  take (suc n) [] = []
  take (suc n) (x ∷ xs) = x ∷ take n xs

  unfoldable pub drop : ℕ → List A → List A
  drop zero xs = xs
  drop (suc n) [] = []
  drop (suc n) (x ∷ xs) = drop n xs

  -- The items at the positions of [b, e).
  unfoldable pub segment : (b e : ℕ) → List A → List A
  unfolding take drop
  segment b e xs = take (e - b) (drop b xs)

  pub take_all : (n : ℕ) (xs : List A) → length xs ≤ n → take n xs ≡ xs
  unfolding take
  take_all zero [] le = refl
  take_all zero (x ∷ xs) le = absurd (omega arith)
  take_all (suc n) [] le = refl
  take_all (suc n) (x ∷ xs) le = ap (◌∷◌ x) (take_all n xs (omega arith))

  pub drop-nil : (n : ℕ) → drop n [] ≡ []
  unfolding drop
  drop-nil zero = refl
  drop-nil (suc n) = refl

  pub drop-drop : (m n : ℕ) (xs : List A) → drop n (drop m xs) ≡ drop (m + n) xs
  unfolding drop
  drop-drop zero n xs = let e : n ≡ 0 + n = omega arith in ap (λ k. drop k xs) e
  drop-drop (suc m) n [] = drop-nil n ∙ sym (drop-nil (suc m + n))
  drop-drop (suc m) n (x ∷ xs) =
      let e : suc (m + n) ≡ suc m + n = omega arith in
      drop-drop m n xs ∙ ap (λ k. drop k (x ∷ xs)) e

  pub length-drop : (n : ℕ) (xs : List A) → length (drop n xs) ≡ length xs - n
  unfolding drop
  length-drop zero xs = omega arith
  length-drop (suc n) [] = omega arith
  length-drop (suc n) (x ∷ xs) = omega (arith, length-drop n xs)

  pub length-take : (n : ℕ) (xs : List A) → n ≤ length xs → length (take n xs) ≡ n
  unfolding take
  length-take zero xs le = refl
  length-take (suc n) [] le = absurd (omega arith)
  length-take (suc n) (x ∷ xs) le = omega (arith, length-take n xs (omega arith))

  pub take-nil : (n : ℕ) → take n [] ≡ []
  unfolding take
  take-nil zero = refl
  take-nil (suc n) = refl

  pub take-append-drop : (n : ℕ) (xs : List A) → take n xs ++ drop n xs ≡ xs
  unfolding take drop
  take-append-drop zero xs = refl
  take-append-drop (suc n) [] = refl
  take-append-drop (suc n) (x ∷ xs) = ap (◌∷◌ x) (take-append-drop n xs)

  pub take_add : (m n : ℕ) (xs : List A) → take m xs ++ take n (drop m xs) ≡ take (m + n) xs
  unfolding take drop
  take_add zero n xs = let e : n ≡ 0 + n = omega arith in ap (λ k. take k xs) e
  take_add (suc m) n [] = take-nil n ∙ sym (take-nil (suc m + n))
  take_add (suc m) n (x ∷ xs) =
      let e : suc (m + n) ≡ suc m + n = omega arith in
      ap (◌∷◌ x) (take_add m n xs) ∙ ap (λ k. take k (x ∷ xs)) e

  -- Neighbouring segments join up.
  pub segment-append :
      (p q r : ℕ) (xs : List A) → p ≤ q → q ≤ r → segment p q xs ++ segment q r xs ≡ segment p r xs
  unfolding segment
  segment-append p q r xs low high =
      let e : p + (q - p) ≡ q = omega arith in
      let e' : (q - p) + (r - q) ≡ r - p = omega arith in
      ap (λ k. take (q - p) (drop p xs) ++ take (r - q) k)
        (sym (drop-drop p (q - p) xs ∙ ap (λ k. drop k xs) e))
      ∙ take_add (q - p) (r - q) (drop p xs)
      ∙ ap (λ k. take k (drop p xs)) e'

  pub segment_empty : (p : ℕ) (xs : List A) → segment p p xs ≡ []
  unfolding segment take
  segment_empty p xs = let e : p - p ≡ 0 = omega arith in ap (λ k. take k (drop p xs)) e

  pub segment_all : (n : ℕ) (xs : List A) → length xs ≤ n → segment 0 n xs ≡ xs
  unfolding segment drop
  segment_all n xs le = let e : n - 0 ≡ n = omega arith in ap (λ k. take k xs) e ∙ take_all n xs le
