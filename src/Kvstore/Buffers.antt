-- ===== src/Kvstore/Buffers.antt =====
-- `blocked_pushes_` and `blocked_pulls_` of the servers in kvstore/handles/: buckets of buffered
-- requests, one for each clock or iteration.
use flexps_paper_version.Common.{
  ℕ, zero, suc, ◌≤◌, ◌<◌, ◌≡◌, refl, inl, inr, List, [], ◌∷◌, arith, length, All, All-append,
  get_or, set, get_or-set, grow, push_at, get_or-push_at-grow, get_or-set-grow, Bool-cases, ◌==◌,
  ltb, ltb→lt, if◌then◌else◌,
}

-- Buckets below the bound are empty, and the others hold requests that `P` holds of.
pub record IsBuffer {E : Type 0} (P : E → Type 0) (bound : ℕ) (bs : List (List E)) : Type 0 where
  pub released : (k : ℕ) → k < bound → get_or bs k [] ≡ []
  pub fit : (k : ℕ) → All P (get_or bs k [])

module _ {E : Type 0} (P : E → Type 0) where
  pub nil-IsBuffer : (bound : ℕ) → IsBuffer P bound []
  nil-IsBuffer bound = record { released = λ k lt. refl; fit = λ k. tt }

  pub push_at-IsBuffer :
      (bound i : ℕ) (e : E) (bs : List (List E))
      → bound ≤ i
      → P e
      → IsBuffer P bound bs
      → IsBuffer P bound (push_at i e (grow (suc i) [] bs))
  push_at-IsBuffer bound i e bs late p v = record {
    released = λ k lt. ground (arith, get_or-push_at-grow i k e bs, v.released k lt);
    fit = λ k. elim (Bool-cases (i == k)) [
      | inl same ↦
          rw (get_or-push_at-grow i k e bs, same)
            (All-append P (get_or bs i []) (e ∷ []) (v.fit i) (p, tt))
      | inr other ↦ rw (get_or-push_at-grow i k e bs, other) (v.fit k)
    ];
  }

  -- The bucket at the bound is emptied after it was resized to exist.
  pub clear-IsBuffer :
      (bound : ℕ) (bs : List (List E))
      → IsBuffer P bound bs
      → IsBuffer P (suc bound) (set (grow (suc bound) [] bs) bound [])
  clear-IsBuffer bound bs v = record {
    released = λ k lt. ground (arith, get_or-set-grow bound k [] [] bs, v.released k);
    fit = λ k. elim (Bool-cases (bound == k)) [
      | inl same ↦ rw (get_or-set-grow bound k [] [] bs, same) tt
      | inr other ↦ rw (get_or-set-grow bound k [] [] bs, other) (v.fit k)
    ];
  }

  get_or_outside : (bs : List (List E)) (k : ℕ) → length bs ≤ k → get_or bs k [] ≡ []
  get_or_outside [] k h = refl
  get_or_outside (b ∷ bs) zero h = absurd (omega arith)
  get_or_outside (b ∷ bs) (suc k) h = get_or_outside bs k (omega arith)

  -- It is emptied if it exists.
  pub clear_existing-IsBuffer :
      (bound : ℕ) (bs : List (List E))
      → IsBuffer P bound bs
      → IsBuffer P (suc bound) (if ltb bound (length bs) then set bs bound [] else bs)
  clear_existing-IsBuffer bound bs v = elim (Bool-cases (ltb bound (length bs))) [
    | inl there ↦
        let at = λ (k : ℕ). get_or-set bs bound k [] [] (ltb→lt _ _ there) in
        rw there (record {
          released = λ k lt. ground (arith, at k, v.released k);
          fit = λ k. elim (Bool-cases (bound == k)) [
            | inl same ↦ rw (at k, same) tt
            | inr other ↦ rw (at k, other) (v.fit k)
          ];
        })
    | inr missing ↦ rw missing (record {
      released = λ k lt. ground (arith, get_or_outside bs k, v.released k);
      fit = v.fit;
    })
  ]
