-- ===== src/Common/Results.antt =====
-- Outcomes of code that may throw. `out_of_range` stands for an access behind the end of a vector,
-- which C++ leaves undefined, and `endless` for a loop that goes on behind its fuel.
use Prim.Native.Nat.{ℕ}
use mathlib.Core.Path.{◌≡◌, refl}
use mathlib.Core.Logic.{◌⊎◌, inl, inr}
use mathlib.Core.List.{List}
use mathlib.Core.Option.{none, some}
use flexps_paper_version.Common.Lists.{get_elem?}

pub data Error : Type 0 where
  unknown_cmd : ℕ → Error
  out_of_range failed_assert incompatible_options cannot_assign threads_overflow illegal_hint
        endless :
      Error

pub data Result {ℓ} (A : Type ℓ) : Type ℓ where
  err : Error → Result A
  ok : A → Result A

infixl 5 ◌>>=◌
-- What follows a call that may throw.
abbrev pub ◌>>=◌ {κ ℓ} : {S : Type κ} {T : Type ℓ} → Result S → (S → Result T) → Result T
err thrown >>= next = err thrown
ok made >>= next = next made

-- `v[i]` as a read.
abbrev pub read {ℓ} : {A : Type ℓ} → List A → ℕ → Result A
read xs i = elim (get_elem? xs i) [ none ↦ err out_of_range | some a ↦ ok a ]

-- A chain of calls that returns has a first call that returns.
pub >>=-eq-ok {κ ℓ} :
    {S : Type κ} {T : Type ℓ} (call : Result S) (next : S → Result T) {t : T}
    → (call >>= next) ≡ ok t
    → (made : S) × (call ≡ ok made) × (next made ≡ ok t)
>>=-eq-ok (err thrown) next returns = cc
>>=-eq-ok (ok made) next returns = (made, refl, returns)

pub Result-cases {ℓ} :
    {A : Type ℓ} (r : Result A) → ((a : A) × (r ≡ ok a)) ⊎ ((e : Error) × (r ≡ err e))
Result-cases (ok a) = inl (a, refl)
Result-cases (err e) = inr (e, refl)

pub ok-injective {ℓ} : {A : Type ℓ} {a b : A} → ok a ≡ ok b → a ≡ b
ok-injective e = cc
