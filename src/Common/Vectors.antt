-- ===== src/Common/Vectors.antt =====
-- `std::vector` as the program grows it: `if (i >= v.size()) v.resize(i + 1)`, then a write at `i`.
use Prim.Native.Nat.{ℕ, zero, suc, ◌+◌, ◌<◌, max}
use mathlib.Core.Path.{◌≡◌, refl, ◌∙◌}
use mathlib.Core.List.{List, [], ◌∷◌, ◌++◌}
use mathlib.Core.Option.{some}
use native.Mathlib.Omega.{arith}
use flexps_paper_version.Common.Tests.{◌==◌, if◌then◌else◌}
use flexps_paper_version.Common.Lists.{length, get_elem?, get_or, set}
use flexps_paper_version.Common.Results.{ok, read}

module _ {ℓ} {A : Type ℓ} where
  -- `if (v.size() < n) v.resize(n)`.
  unfoldable pub grow : ℕ → A → List A → List A
  grow zero d xs = xs
  grow (suc n) d [] = d ∷ grow n d []
  grow (suc n) d (x ∷ xs) = x ∷ grow n d xs

  pub get_or-nil : (i : ℕ) (d : A) → get_or [] i d ≡ d
  get_or-nil i d = refl

  pub get_or-grow : (n : ℕ) (d : A) (xs : List A) (i : ℕ) → get_or (grow n d xs) i d ≡ get_or xs i d
  unfolding grow
  get_or-grow zero d xs i = refl
  get_or-grow (suc n) d [] zero = refl
  get_or-grow (suc n) d [] (suc i) = get_or-grow n d [] i
  get_or-grow (suc n) d (x ∷ xs) zero = refl
  get_or-grow (suc n) d (x ∷ xs) (suc i) = get_or-grow n d xs i

  pub length-grow : (n : ℕ) (d : A) (xs : List A) → length (grow n d xs) ≡ max n (length xs)
  unfolding grow
  length-grow zero d xs = omega arith
  length-grow (suc n) d [] = omega (arith, length-grow n d [])
  length-grow (suc n) d (x ∷ xs) = omega (arith, length-grow n d xs)

  pub length-set : (xs : List A) (i : ℕ) (v : A) → length (set xs i v) ≡ length xs
  length-set [] i v = refl
  length-set (x ∷ xs) zero v = refl
  length-set (x ∷ xs) (suc i) v = omega (arith, length-set xs i v)

  pub get_or-set :
      (xs : List A) (i j : ℕ) (v d : A)
      → i < length xs
      → get_or (set xs i v) j d ≡ (if i == j then v else get_or xs j d)
  get_or-set [] i j v d h = elim h [ ]
  get_or-set (x ∷ xs) zero zero v d h = refl
  get_or-set (x ∷ xs) zero (suc j) v d h = ground arith
  get_or-set (x ∷ xs) (suc i) zero v d h = ground arith
  get_or-set (x ∷ xs) (suc i) (suc j) v d h = ground (arith, get_or-set xs i j v d)

  pub get_elem?-get_or :
      (xs : List A) (i : ℕ) (d : A) → i < length xs → get_elem? xs i ≡ some (get_or xs i d)
  get_elem?-get_or [] i d h = elim h [ ]
  get_elem?-get_or (x ∷ xs) zero d h = refl
  get_elem?-get_or (x ∷ xs) (suc i) d h = get_elem?-get_or xs i d (omega arith)

  pub read-get_or : (xs : List A) (i : ℕ) (d : A) → i < length xs → read xs i ≡ ok (get_or xs i d)
  read-get_or xs i d h = rw (get_elem?-get_or xs i d h, read)

  -- Growing so that `i` is an index, then writing there.
  pub get_or-set-grow :
      (i k : ℕ) (v d : A) (xs : List A)
      → get_or (set (grow (suc i) d xs) i v) k d ≡ (if i == k then v else get_or xs k d)
  get_or-set-grow i k v d xs = rw (
    get_or-set (grow (suc i) d xs) i k v d (omega (arith, length-grow (suc i) d xs)),
    get_or-grow (suc i) d xs k,
  )

  -- `v[i].emplace_back(e)` on a vector of buckets.
  unfoldable pub push_at : ℕ → A → List (List A) → List (List A)
  push_at i e xs = set xs i (get_or xs i [] ++ e ∷ [])

-- `v[i] += 1`.
unfoldable pub add_at : ℕ → List ℕ → List ℕ
add_at i xs = set xs i (get_or xs i 0 + 1)

pub get_or-add_at :
    (i j : ℕ) (xs : List ℕ)
    → i < length xs
    → get_or (add_at i xs) j 0 ≡ (if i == j then get_or xs j 0 + 1 else get_or xs j 0)
unfolding add_at
get_or-add_at i j xs h = ground (arith, get_or-set xs i j (get_or xs i 0 + 1) 0 h)

pub length-add_at : (i : ℕ) (xs : List ℕ) → length (add_at i xs) ≡ length xs
unfolding add_at
length-add_at i xs = length-set xs i (get_or xs i 0 + 1)

-- Growing so that `i` is an index, then counting at `i`.
pub get_or-add_at-grow :
    (i j : ℕ) (xs : List ℕ)
    → get_or (add_at i (grow (suc i) 0 xs)) j 0
      ≡ (if i == j then get_or xs j 0 + 1 else get_or xs j 0)
get_or-add_at-grow i j xs = rw (
  get_or-add_at i j (grow (suc i) 0 xs) (omega (arith, length-grow (suc i) 0 xs)),
  get_or-grow (suc i) 0 xs j,
)

pub get_or-push_at-grow {ℓ} :
    {A : Type ℓ} (i k : ℕ) (e : A) (xs : List (List A))
    → get_or (push_at i e (grow (suc i) [] xs)) k []
      ≡ (if i == k then get_or xs i [] ++ e ∷ [] else get_or xs k [])
unfolding push_at
get_or-push_at-grow i k e xs =
    get_or-set-grow i k (get_or (grow (suc i) [] xs) i [] ++ e ∷ []) [] xs
    ∙ rw (get_or-grow (suc i) [] xs i)
