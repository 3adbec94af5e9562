-- ===== src/Kvstore/RangeManager/Chunks.antt =====
-- The chunks of each server: the two loops of `SetMaxKeyAndChunkSize` in kvstore/range_manager.cpp.
use mathlib.Core.List.{append_assoc}
use flexps_paper_version.Common.{
  ℕ, zero, suc, ◌+◌, ◌-◌, ◌*◌, ◌/◌, ◌%◌, ◌≤◌, ◌<◌, ◌≡◌, ◌⊎◌, refl, ap, inl, inr, List, [], ◌∷◌,
  ◌++◌, arith, All, All-append, length, length-append,
}
use flexps_paper_version.Kvstore.Ranges.{Range, range, Tiles, Tiles-append, Tiles-begin_le}
use flexps_paper_version.Kvstore.RangeManager.{spans, chunk_ranges}

spans-Tiles :
    (start width i count a b : ℕ)
    → a ≡ start + i * width
    → b ≡ start + (i + count) * width
    → Tiles a b (spans start width i count)
unfolding spans
spans-Tiles start width i zero a b p q = omega arith
spans-Tiles start width i (suc count) a b p q = (
  omega arith,
  omega arith,
  spans-Tiles start width (i + 1) count (start + (i + 1) * width) b refl (omega arith),
)

length-spans : (start width i count : ℕ) → length (spans start width i count) ≡ count
unfolding spans
length-spans start width i zero = refl
length-spans start width i (suc count) = omega (arith, length-spans start width (i + 1) count)

-- A server holds `base` chunks, or one more.
abbrev pub IsEven : ℕ → Range → Type 0
IsEven base r = (r.end ≡ r.begin + base) ⊎ (r.end ≡ r.begin + base + 1)

spans-IsEven :
    (base start width i count : ℕ)
    → (width ≡ base) ⊎ (width ≡ base + 1)
    → All (IsEven base) (spans start width i count)
unfolding spans
spans-IsEven base start width i zero w = tt
spans-IsEven base start width i (suc count) (inl w) =
    (inl (omega arith), spans-IsEven base start width (i + 1) count (inl w))
spans-IsEven base start width i (suc count) (inr w) =
    (inr (omega arith), spans-IsEven base start width (i + 1) count (inr w))

module _ (n chunk_num : ℕ) (some_servers : 0 < n) where
  abbrev base : ℕ
  base = chunk_num / n

  abbrev remain : ℕ
  remain = chunk_num % n

  split : n * base + remain ≡ chunk_num
  split = omega arith

  abbrev last_begin : ℕ
  last_begin = remain * (base + 1) + (n - remain - 1) * base

  -- The last server's chunks begin `base` chunks before the end.
  last_begin_lem : last_begin + base ≡ chunk_num
  last_begin_lem =
      let rest = n - remain - 1 in
      let e : n ≡ remain + rest + 1 = omega arith in
      omega (arith, split, ap (λ (t : ℕ). t * base) e)

  front_Tiles :
      Tiles 0 last_begin
        (spans 0 (base + 1) 0 remain ++ spans (remain * (base + 1)) base 0 (n - remain - 1))
  front_Tiles =
      Tiles-append 0 (remain * (base + 1)) last_begin (spans 0 (base + 1) 0 remain) _
        (spans-Tiles 0 (base + 1) 0 remain 0 (remain * (base + 1)) (omega arith) (omega arith))
        (spans-Tiles (remain * (base + 1)) base 0 (n - remain - 1) (remain * (base + 1)) last_begin
          (omega arith) (omega arith))

  last_Tiles : Tiles last_begin chunk_num (range last_begin chunk_num ∷ [])
  last_Tiles = (refl, omega (arith, last_begin_lem), refl)

  pub chunk_ranges_tiled : Tiles 0 chunk_num (chunk_ranges n chunk_num)
  unfolding chunk_ranges
  chunk_ranges_tiled =
      rw
        (← append_assoc (spans 0 (base + 1) 0 remain)
          (spans (remain * (base + 1)) base 0 (n - remain - 1)) (range last_begin chunk_num ∷ []))
        (Tiles-append 0 last_begin chunk_num _ _ front_Tiles last_Tiles)

  pub length-chunk_ranges : length (chunk_ranges n chunk_num) ≡ n
  unfolding chunk_ranges
  length-chunk_ranges = omega (
    arith,
    length-append (spans 0 (base + 1) 0 remain)
        (spans (remain * (base + 1)) base 0 (n - remain - 1) ++ (range last_begin chunk_num ∷ [])),
    length-append (spans (remain * (base + 1)) base 0 (n - remain - 1))
        (range last_begin chunk_num ∷ []),
    length-spans 0 (base + 1) 0 remain,
    length-spans (remain * (base + 1)) base 0 (n - remain - 1),
  )

  -- For a positive number of servers, the servers' chunk ranges cut up [0, chunk_num), and there
  -- are as many ranges as servers.
  pub chunk_ranges-Tiles :
      Tiles 0 chunk_num (chunk_ranges n chunk_num) × (length (chunk_ranges n chunk_num) ≡ n)
  chunk_ranges-Tiles = (chunk_ranges_tiled, length-chunk_ranges)

  -- For a positive number of servers, no server has two chunks more than another.
  pub chunk_ranges-IsEven : All (IsEven base) (chunk_ranges n chunk_num)
  unfolding chunk_ranges
  chunk_ranges-IsEven =
      All-append (IsEven base) (spans 0 (base + 1) 0 remain) _
        (spans-IsEven base 0 (base + 1) 0 remain (inr refl))
        (All-append (IsEven base) (spans (remain * (base + 1)) base 0 (n - remain - 1)) _
          (spans-IsEven base (remain * (base + 1)) base 0 (n - remain - 1) (inl refl))
          (inl (omega (arith, last_begin_lem)), tt))

  -- Every range begins `base` chunks before the end at the latest.
  pub chunk_ranges-begin_le : All (λ r. r.begin + base ≤ chunk_num) (chunk_ranges n chunk_num)
  unfolding chunk_ranges
  chunk_ranges-begin_le =
      rw
        (← append_assoc (spans 0 (base + 1) 0 remain)
          (spans (remain * (base + 1)) base 0 (n - remain - 1)) (range last_begin chunk_num ∷ []))
        (All-append (λ r. r.begin + base ≤ chunk_num) _ (range last_begin chunk_num ∷ [])
          (shift _ (Tiles-begin_le 0 last_begin _ front_Tiles)) (omega (arith, last_begin_lem), tt))
    where
      shift :
          (rs : List Range)
          → All (λ r. r.begin ≤ last_begin) rs
          → All (λ r. r.begin + base ≤ chunk_num) rs
      shift [] p = tt
      shift (r ∷ rs) p = (omega (arith, last_begin_lem, p.0), shift rs p.1)
