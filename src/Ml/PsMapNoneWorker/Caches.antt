-- ===== src/Ml/PsMapNoneWorker/Caches.antt =====
-- ml/mlworker/ps.hpp: PSMapNoneWorker's loops over its cache, key by key.
use flexps_paper_version.Common.{
  ℕ, suc, ◌≤◌, ◌≡◌, refl, sym, ◌∙◌, ap, inl, inr, false, none, some, List, [], ◌∷◌, map, ok, arith,
  ◌==◌, ◌||◌, if◌then◌else◌, length, Bool-cases, Option-cases, ==→eq, All, All-imp, ne→==_false,
  ==_refl,
}
use mathlib.Core.Option
use flexps_paper_version.Common.Members.{has}
use flexps_paper_version.Common.Maps.{Map, find, find_or, modify, find-modify, find_or-find}
use flexps_paper_version.Ml.PsMapNoneWorker.{add_each, missing, enter_each, read_each}

module _ {Val : Type 0} where
  -- The keys are all cached.
  abbrev pub AllIn : List ℕ → Map Val → Type 0
  AllIn keys m = All (λ k. (v : Val) × (find k m ≡ some v)) keys

  -- What holds of each key and its value; there are as many values as keys.
  abbrev pub Each : (ℕ → Val → Type 0) → List ℕ → List Val → Type 0
  Each P [] [] = Unit
  Each P (k ∷ keys) (v ∷ vals) = P k v × Each P keys vals
  Each P [] (v ∷ vals) = ⊥
  Each P (k ∷ keys) [] = ⊥

  module _ (zero_val : Val) (add : Val → Val → Val) where
    -- A value after the increments of its key.
    unfoldable pub bumped : ℕ → List ℕ → List Val → Val → Val
    bumped k [] vals x = x
    bumped k (j ∷ keys) [] x = x
    bumped k (j ∷ keys) (v ∷ vals) x = bumped k keys vals (if k == j then add x v else x)

    kept :
        (j : ℕ) (f : Val → Val) (m : Map Val) (k : ℕ)
        → (v : Val) × (find k m ≡ some v)
        → (v : Val) × (find k (modify zero_val j f m) ≡ some v)
    kept j f m k known = elim (Bool-cases (k == j)) [
      | inl e ↦ (f (find_or zero_val j m), find-modify zero_val k j f m ∙ rw e refl)
      | inr e ↦ (known.0, find-modify zero_val k j f m ∙ rw e known.1)
    ]

    bumped_first :
        (k j : ℕ) (keys : List ℕ) (vals : List Val) (v : Val) (m : Map Val)
        → (x : Val) × (find j m ≡ some x)
        → Option.map (bumped k keys vals) (find k (modify zero_val j (λ old. add old v) m))
          ≡ Option.map (bumped k (j ∷ keys) (v ∷ vals)) (find k m)
    unfolding bumped
    bumped_first k j keys vals v m known =
        rw (find-modify zero_val k j (λ old. add old v) m) (elim (Bool-cases (k == j)) [
          | inl e ↦
              rw (e) (
                rw (==→eq k j e, find_or-find zero_val j m known.0 known.1, known.1, ==_refl j)
                  refl)
          | inr e ↦ rw e (elim (Option-cases (find k m)) [
            | inl none_there ↦ rw none_there refl
            | inr (x, there) ↦ rw there (rw e refl)
          ])
        ])

    pub add_each_lem :
        (keys : List ℕ) (vals : List Val) (m : Map Val)
        → AllIn keys m
        → length vals ≡ length keys
        → (m' : Map Val) × (add_each zero_val add keys vals m ≡ ok m')
          × ((k : ℕ) → find k m' ≡ Option.map (bumped k keys vals) (find k m))
    unfolding add_each bumped
    add_each_lem [] vals m known same = (
      m,
      refl,
      λ k. elim (Option-cases (find k m)) [ inl e ↦ rw e refl | inr (v, e) ↦ rw e refl ],
    )
    add_each_lem (j ∷ keys) [] m known same = let no : suc (length keys) ≡ 0 = sym same in cc
    add_each_lem (j ∷ keys) (v ∷ vals) m known same =
        let f = λ (old : Val). add old v in
        let m1 = modify zero_val j f m in
        let ih = add_each_lem keys vals m1 (All-imp _ _ (kept j f m) keys known.1) (omega arith) in
        (ih.0, ih.1, λ k. ih.2 k ∙ bumped_first k j keys vals v m known.0)

    pub enter_each_lem :
        (s : ℕ → Val) (keys : List ℕ) (m : Map Val)
        → (m' : Map Val) × (enter_each zero_val add keys (map s keys) m ≡ ok m')
          × ((k : ℕ) → find k m' ≡ (if has k keys then some (s k) else find k m))
    unfolding enter_each has
    enter_each_lem s [] m = (m, refl, λ k. refl)
    enter_each_lem s (j ∷ keys) m =
        let ih = enter_each_lem s keys (modify zero_val j (λ _. s j) m) in
        (
          ih.0,
          ih.1,
          λ k. ih.2 k ∙ elim (Bool-cases (k == j)) [
            | inl e ↦ ground (arith, find-modify zero_val k j (λ _. s j) m, ap s (==→eq k j e), e)
            | inr e ↦ ground (arith, find-modify zero_val k j (λ _. s j) m, e)
          ],
        )

    touched :
        (k j : ℕ) (m : Map Val)
        → (v : Val) × (find j m ≡ some v)
        → find k (modify zero_val j (λ old. old) m) ≡ find k m
    touched k j m known = find-modify zero_val k j (λ old. old) m ∙ elim (Bool-cases (k == j)) [
      | inl e ↦ rw (e) (rw (==→eq k j e, find_or-find zero_val j m known.0 known.1) (sym known.1))
      | inr e ↦ rw e refl
    ]

    -- Reading cached keys leaves the cache as it is.
    pub read_each_lem :
        (P : ℕ → Val → Type 0) (keys : List ℕ) (m : Map Val)
        → ((k : ℕ) (v : Val) → find k m ≡ some v → P k v)
        → AllIn keys m
        → Each P keys (read_each zero_val add keys m).0
          × ((k : ℕ) → find k (read_each zero_val add keys m).1 ≡ find k m)
    unfolding read_each
    read_each_lem P [] m holds known = (tt, λ k. refl)
    read_each_lem P (j ∷ keys) m holds known =
        let m1 = modify zero_val j (λ old. old) m in
        let same = λ (k : ℕ). touched k j m known.0 in
        let ih =
          read_each_lem P keys m1 (λ k v e. holds k v (sym (same k) ∙ e))
            (All-imp _ _ (λ k h. (h.0, same k ∙ h.1)) keys known.1) in
        (
          (
            holds j _ (known.0.1 ∙ ap some (sym (find_or-find zero_val j m known.0.0 known.0.1))),
            ih.0,
          ),
          λ k. ih.1 k ∙ same k,
        )

    differ :
        (k j : ℕ) (m : Map Val) (v : Val) → find k m ≡ none → find j m ≡ some v → (k == j) ≡ false
    differ k j m v absent there =
        ne→==_false k j (λ e. some_not-none (sym there ∙ (ap (λ i. find i m) (sym e) ∙ absent)))
      where
        some_not-none : some v ≡ none → ⊥
        some_not-none e = cc

    pub has-missing :
        (k : ℕ) (keys : List ℕ) (m : Map Val)
        → find k m ≡ none
        → has k (missing zero_val add keys m) ≡ has k keys
    unfolding missing has
    has-missing k [] m absent = refl
    has-missing k (j ∷ keys) m absent = elim (Option-cases (find j m)) [
      | inl e ↦ rw (missing, e) (ap (λ b. (k == j) || b) (has-missing k keys m absent))
      | inr (v, e) ↦
          rw (missing, e) (has-missing k keys m absent ∙ rw (differ k j m v absent e) refl)
    ]

    pub length-missing-le :
        (keys : List ℕ) (m : Map Val) → length (missing zero_val add keys m) ≤ length keys
    unfolding missing
    length-missing-le [] m = omega arith
    length-missing-le (k ∷ keys) m = ground (arith, length-missing-le keys m)

    pub missing_all :
        (keys : List ℕ) (m : Map Val)
        → length (missing zero_val add keys m) ≡ length keys
        → missing zero_val add keys m ≡ keys
    unfolding missing
    missing_all [] m same = refl
    missing_all (k ∷ keys) m same = elim (Option-cases (find k m)) [
      | inl e ↦
          rw (missing, e)
            (ap (λ (ks : List ℕ). k ∷ ks)
              (missing_all keys m (
                let h : suc (length (missing zero_val add keys m)) ≡ suc (length keys) =
                  rw (missing, e) at same in
                omega arith)))
      | inr (v, e) ↦ absurd (
          let h : length (missing zero_val add keys m) ≡ suc (length keys) =
            rw (missing, e) at same in
          let bound = length-missing-le keys m in
          let none_left : ¬ (length (missing zero_val add keys m) ≡ suc (length keys)) =
            omega arith in
          none_left h)
    ]
