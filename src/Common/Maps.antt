-- ===== src/Common/Maps.antt =====
-- `std::unordered_map<int, V>`: an association list in its order of iteration.
use Prim.Native.Nat.{ℕ}
use mathlib.Core.Path.{◌≡◌, refl}
use mathlib.Core.List.{List, [], ◌∷◌}
use mathlib.Core.Option.{Option, none, some}
use native.Mathlib.Omega.{arith}
use mathlib.Core.Logic.{inl, inr}
use mathlib.Core.Bool.{false}
use flexps_paper_version.Common.Tests.{◌==◌, if◌then◌else◌, Bool-cases}

abbrev pub Map {ℓ} : Type ℓ → Type ℓ
Map V = List (ℕ × V)

module _ {ℓ} {V : Type ℓ} where
  -- `m.find(k)`.
  unfoldable pub find : ℕ → Map V → Option V
  find k [] = none
  find k ((i, v) ∷ m) = let rest = find k m in if k == i then some v else rest

  -- `m[k]` as a value, where a missing key gives a fresh one.
  unfoldable pub find_or : V → ℕ → Map V → V
  find_or d k [] = d
  find_or d k ((i, v) ∷ m) = let rest = find_or d k m in if k == i then v else rest

  -- `m[k] = f(m[k])`, where a missing key is entered first.
  unfoldable pub modify : V → ℕ → (V → V) → Map V → Map V
  modify d k f [] = (k, f d) ∷ []
  modify d k f ((i, v) ∷ m) =
      let rest = modify d k f m in if k == i then (i, f v) ∷ m else (i, v) ∷ rest

  -- `m.erase(k)`.
  unfoldable pub remove : ℕ → Map V → Map V
  remove k [] = []
  remove k ((i, v) ∷ m) = let rest = remove k m in if k == i then rest else (i, v) ∷ rest

  pub find_or-modify :
      (d : V) (j k : ℕ) (f : V → V) (m : Map V)
      → find_or d j (modify d k f m) ≡ (if j == k then f (find_or d k m) else find_or d j m)
  unfolding find_or modify
  find_or-modify d j k f [] = refl
  find_or-modify d j k f ((i, v) ∷ m) = ground (arith, find_or-modify d j k f m)

  pub find_or-remove :
      (d : V) (j k : ℕ) (m : Map V)
      → find_or d j (remove k m) ≡ (if j == k then d else find_or d j m)
  unfolding find_or remove
  find_or-remove d j k [] = ground arith
  find_or-remove d j k ((i, v) ∷ m) = ground (arith, find_or-remove d j k m)

  pub find_or-modify_const :
      (d e : V) (j k : ℕ) (v : V) (m : Map V)
      → find_or d j (modify e k (λ _. v) m) ≡ (if j == k then v else find_or d j m)
  unfolding find_or modify
  find_or-modify_const d e j k v [] = refl
  find_or-modify_const d e j k v ((i, w) ∷ m) = ground (arith, find_or-modify_const d e j k v m)

  -- No key stands twice.
  abbrev pub IsMap : Map V → Type ℓ
  IsMap [] = Unit
  IsMap ((i, v) ∷ m) = (find i m ≡ none) × IsMap m

  find-modify_other :
      (d : V) (j k : ℕ) (f : V → V) (m : Map V)
      → (k == j) ≡ false
      → find j m ≡ none
      → find j (modify d k f m) ≡ none
  unfolding find modify
  find-modify_other d j k f [] apart absent = ground (arith, apart)
  find-modify_other d j k f ((i, v) ∷ m) apart absent = elim (Bool-cases (j == i)) [
    | inl here ↦ absurd (some_not-none (rw here at absent))
    | inr there ↦
        let rest : find j m ≡ none = rw there at absent in
        elim (Bool-cases (k == i)) [
          | inl first ↦ rw first (rw there rest)
          | inr later ↦ rw later (rw there (find-modify_other d j k f m apart rest))
        ]
  ]
    where
      some_not-none : some v ≡ none → ⊥
      some_not-none e = cc

  pub modify-IsMap : (d : V) (k : ℕ) (f : V → V) (m : Map V) → IsMap m → IsMap (modify d k f m)
  unfolding modify find
  modify-IsMap d k f [] h = (refl, tt)
  modify-IsMap d k f ((i, v) ∷ m) h = elim (Bool-cases (k == i)) [
    | inl first ↦ rw first h
    | inr later ↦ rw later (find-modify_other d i k f m later h.0, modify-IsMap d k f m h.1)
  ]

  pub find_or-absent : (d : V) (k : ℕ) (m : Map V) → find k m ≡ none → find_or d k m ≡ d
  unfolding find find_or
  find_or-absent d k [] absent = refl
  find_or-absent d k ((i, v) ∷ m) absent = elim (Bool-cases (k == i)) [
    | inl here ↦ absurd (some_not-none (rw here at absent))
    | inr there ↦ rw there (find_or-absent d k m (rw there at absent))
  ]
    where
      some_not-none : some v ≡ none → ⊥
      some_not-none e = cc

  pub find-modify :
      (d : V) (j k : ℕ) (f : V → V) (m : Map V)
      → find j (modify d k f m) ≡ (if j == k then some (f (find_or d k m)) else find j m)
  unfolding find find_or modify
  find-modify d j k f [] = refl
  find-modify d j k f ((i, v) ∷ m) = ground (arith, find-modify d j k f m)

  pub find_or-find : (d : V) (k : ℕ) (m : Map V) (v : V) → find k m ≡ some v → find_or d k m ≡ v
  unfolding find find_or
  find_or-find d k [] v e = cc
  find_or-find d k ((i, w) ∷ m) v e = elim (Bool-cases (k == i)) [
    | inl here ↦ rw here (let same : some w ≡ some v = rw here at e in cc)
    | inr there ↦ rw there (find_or-find d k m v (rw there at e))
  ]
