-- ===== src/Kvstore/RangeManager/Keys.antt =====
-- The key ranges: the scaling, the last range and the backward loop of `SetMaxKeyAndChunkSize` in
-- kvstore/range_manager.cpp, against the ranges that they should come to.
use mathlib.Core.Path.{subst₂}
use native.Mathlib.Decide.{dec_lt}
use flexps_paper_version.Common.{
  ℕ, ◌+◌, ◌-◌, ◌*◌, ◌/◌, ◌%◌, ◌≤◌, ◌<◌, min, ◌≡◌, refl, ap, ap₂, inl, inr, Bool, true, false, List,
  [], ◌∷◌, map, arith, All, length, Bool-cases, ltb, ltb→lt,
}
use flexps_paper_version.Kvstore.Ranges.{Range, range, Tiles, u64_mod}
use flexps_paper_version.Kvstore.RangeManager.{
  to_keys, cap_last, shrink, clip_step, clip, key_ranges, chunk_ranges, chunk_count,
}
use flexps_paper_version.Kvstore.RangeManager.Chunks.{
  chunk_ranges_tiled, length-chunk_ranges, chunk_ranges-begin_le,
}

-- The keys of a range of chunks, cut off at `max_key`.
abbrev pub capped : ℕ → ℕ → Range → Range
capped max_key chunk_size r =
    range (min (r.begin * chunk_size) max_key) (min (r.end * chunk_size) max_key)

range_cong : {a b c d : ℕ} → a ≡ b → c ≡ d → range a c ≡ range b d
range_cong p q = cc

module _ (max_key : ℕ) where
  capped_below : (b e : ℕ) → b ≤ e → e ≤ max_key → range b e ≡ range (min b max_key) (min e max_key)
  capped_below b e ordered below = range_cong (omega arith) (omega arith)

  -- A range that ends behind `max_key` is cut off there.
  shrink_lem :
      (b e : ℕ) (next : Range)
      → b ≤ e
      → next.begin ≡ min e max_key
      → next.begin < e
      → shrink (range b e) next ≡ range (min b max_key) (min e max_key)
  unfolding shrink
  shrink_lem b e next ordered meet over = elim (Bool-cases (ltb next.begin b)) [
    | inl behind ↦ rw behind (range_cong (ground arith) (omega arith))
    | inr inside ↦ rw inside (range_cong (ground arith) (omega arith))
  ]

module _ (max_key chunk_size : ℕ) where
  -- What the backward loop has made of a list of ranges, and that it stopped only where the
  -- remaining ranges end at or before `max_key`.
  abbrev Clipped : ℕ → List Range → Bool × List Range → Type 0
  Clipped a rs o =
      (o.1 ≡ map (capped max_key chunk_size) rs) × (o.0 ≡ false → a * chunk_size ≤ max_key)

  clip_step-Clipped :
      (r s : Range) (rs : List Range) (o : Bool × List Range)
      → r.begin ≤ r.end
      → s.begin ≡ r.end
      → Clipped s.begin (s ∷ rs) o
      → Clipped r.begin
          (r ∷ s ∷ rs)
          (clip_step (range (r.begin * chunk_size) (r.end * chunk_size)) o)
  unfolding clip_step
  clip_step-Clipped r s rs (false, os) ordered meet (e, stopped) =
      let scaled : r.begin * chunk_size ≤ r.end * chunk_size = grind arith in
      let met : s.begin * chunk_size ≡ r.end * chunk_size = ap (λ (t : ℕ). t * chunk_size) meet in
      (
        ap₂ ◌∷◌ (capped_below max_key _ _ scaled (omega (arith, met, stopped refl))) e,
        λ _. omega (arith, met, scaled, stopped refl),
      )
  clip_step-Clipped r s rs (true, os) ordered meet (e, stopped) =
      let scaled : r.begin * chunk_size ≤ r.end * chunk_size = grind arith in
      let met : s.begin * chunk_size ≡ r.end * chunk_size = ap (λ (t : ℕ). t * chunk_size) meet in
      rw e (elim (Bool-cases (ltb (min (s.begin * chunk_size) max_key) (r.end * chunk_size))) [
        | inl over ↦ rw over (
          ap (λ x. x ∷ map (capped max_key chunk_size) (s ∷ rs))
              (shrink_lem max_key _ _ (capped max_key chunk_size s) scaled (omega (arith, met))
                (ltb→lt _ _ over)),
          λ wrong. cc,
        )
        | inr below ↦
            let fits : r.end * chunk_size ≤ max_key = ground (arith, met) in
            rw below (
              ap (λ x. x ∷ map (capped max_key chunk_size) (s ∷ rs))
                  (capped_below max_key _ _ scaled fits),
              λ _. omega (arith, scaled, fits),
            )
      ])

  clip-cons :
      (x y : Range) (ys : List Range)
      → clip max_key (x ∷ cap_last max_key (y ∷ ys))
        ≡ clip_step x (clip max_key (cap_last max_key (y ∷ ys)))
  unfolding cap_last clip
  clip-cons x y [] = refl
  clip-cons x y (z ∷ ys) = refl

  to_keys_small :
      (r : Range)
      → r.begin * chunk_size < u64_mod
      → r.end * chunk_size < u64_mod
      → to_keys chunk_size r ≡ range (r.begin * chunk_size) (r.end * chunk_size)
  unfolding to_keys
  to_keys_small r p q = range_cong (omega arith) (omega arith)

  -- `clip` after `cap_last`, for chunk ranges whose begins do not wrap when they are scaled.
  clip-Clipped :
      (a chunk_num : ℕ) (r : Range) (rs : List Range)
      → Tiles a chunk_num (r ∷ rs)
      → All (λ r. r.begin * chunk_size < u64_mod) (r ∷ rs)
      → max_key ≤ chunk_num * chunk_size
      → Clipped r.begin
          (r ∷ rs)
          (clip max_key (cap_last max_key (map (to_keys chunk_size) (r ∷ rs))))
  unfolding clip cap_last to_keys
  clip-Clipped a chunk_num r [] (begins, ordered, ends) (small, _) covered = (
    let wraps : r.begin * chunk_size % u64_mod ≡ r.begin * chunk_size = omega arith in
        let scaled : r.begin * chunk_size ≤ r.end * chunk_size = grind arith in
        let all : r.end * chunk_size ≡ chunk_num * chunk_size =
          ap (λ (t : ℕ). t * chunk_size) ends in
        rw wraps (
          ap (λ x. x ∷ [])
            (elim (Bool-cases (ltb max_key (r.begin * chunk_size))) [
              | inl behind ↦ rw behind (range_cong (ground arith) (omega (arith, all)))
              | inr inside ↦ rw inside (range_cong (ground arith) (omega (arith, all)))
            ])),
    λ wrong. cc,
  )
  clip-Clipped a chunk_num r (s ∷ rs) (begins, ordered, tiles) (small, smalls) covered =
      let met : s.begin * chunk_size ≡ r.end * chunk_size =
        ap (λ (t : ℕ). t * chunk_size) tiles.0 in
      rw
        (
          clip-cons (to_keys chunk_size r) (to_keys chunk_size s) (map (to_keys chunk_size) rs),
          to_keys_small r small (omega (arith, met, smalls.0)),
        )
        (clip_step-Clipped r s rs _ (omega arith) tiles.0
          (clip-Clipped r.end chunk_num s rs tiles smalls covered))

module _ (max_key chunk_size : ℕ) (some_keys : 0 < max_key) (fits : max_key < u64_mod)
    (some_size : 0 < chunk_size) where
  abbrev before_last : ℕ
  before_last = (max_key - 1) / chunk_size

  before_last_le : before_last * chunk_size + 1 ≤ max_key
  before_last_le = grind arith

  before_last_small : before_last + 1 ≤ max_key
  before_last_small = grind (arith, before_last_le)

  chunk_count_lem : chunk_count max_key chunk_size ≡ before_last + 1
  unfolding chunk_count
  chunk_count_lem =
      let e : (max_key + u64_mod - 1) % u64_mod ≡ max_key - 1 = omega arith in
      rw e (omega (arith, before_last_small))

  -- The chunks cover the keys.
  pub chunk_count_covers : max_key ≤ chunk_count max_key chunk_size * chunk_size
  chunk_count_covers = rw chunk_count_lem (grind arith)

  -- All but the last are full.
  pub chunk_count_tight :
      (c : ℕ) → c + 1 ≤ chunk_count max_key chunk_size → c * chunk_size < max_key
  chunk_count_tight c le =
      let below : c ≤ before_last = omega (arith, chunk_count_lem) in
      let scaled : c * chunk_size ≤ before_last * chunk_size = grind arith in
      omega (arith, before_last_le)

  module _ (n : ℕ) (some_servers : 0 < n) (small : n * chunk_size < u64_mod) where
    begin_small :
        (b : ℕ)
        → b + chunk_count max_key chunk_size / n ≤ chunk_count max_key chunk_size
        → b * chunk_size < u64_mod
    begin_small b le = elim (dec_lt b (chunk_count max_key chunk_size)) [
      | yes inside ↦ omega (arith, chunk_count_tight b (omega arith), fits)
      | no last ↦
          let few : chunk_count max_key chunk_size < n = grind arith in
          let scaled : b * chunk_size ≤ n * chunk_size = grind arith in omega arith
    ]

    pub begins_small :
        (rs : List Range)
        → All
            (λ r. r.begin + chunk_count max_key chunk_size / n ≤ chunk_count max_key chunk_size)
            rs
        → All (λ r. r.begin * chunk_size < u64_mod) rs
    begins_small [] p = tt
    begins_small (r ∷ rs) p = (begin_small r.begin p.0, begins_small rs p.1)

clip_list :
    (max_key chunk_size chunk_num : ℕ) (rs : List Range)
    → 0 < length rs
    → Tiles 0 chunk_num rs
    → All (λ r. r.begin * chunk_size < u64_mod) rs
    → max_key ≤ chunk_num * chunk_size
    → (clip max_key (cap_last max_key (map (to_keys chunk_size) rs))).1
      ≡ map (capped max_key chunk_size) rs
clip_list max_key chunk_size chunk_num [] some tiles small covered = absurd (omega arith)
clip_list max_key chunk_size chunk_num (r ∷ rs) some tiles small covered =
    (clip-Clipped max_key chunk_size 0 chunk_num r rs tiles small covered).0

-- Under the same bounds, the scaling and the backward loop come to each chunk range scaled and cut
-- off at max_key.
pub key_ranges-eq-capped :
    (n max_key chunk_size : ℕ)
    → 0 < n
    → 0 < max_key
    → max_key < u64_mod
    → 0 < chunk_size
    → n * chunk_size < u64_mod
    → let chunks = chunk_ranges n (chunk_count max_key chunk_size) in
      key_ranges max_key chunk_size chunks ≡ map (capped max_key chunk_size) chunks
unfolding key_ranges
key_ranges-eq-capped n max_key chunk_size some_servers some_keys fits some_size small =
    let chunk_num = chunk_count max_key chunk_size in
    clip_list max_key chunk_size chunk_num (chunk_ranges n chunk_num)
      (omega (arith, length-chunk_ranges n chunk_num some_servers))
      (chunk_ranges_tiled n chunk_num some_servers)
      (begins_small max_key chunk_size some_keys fits some_size n some_servers small _
        (chunk_ranges-begin_le n chunk_num some_servers))
      (chunk_count_covers max_key chunk_size some_keys fits some_size)

capped-Tiles :
    (max_key chunk_size a b : ℕ) (rs : List Range)
    → Tiles a b rs
    → Tiles
        (min (a * chunk_size) max_key)
        (min (b * chunk_size) max_key)
        (map (capped max_key chunk_size) rs)
capped-Tiles max_key chunk_size a b [] p = rw p
capped-Tiles max_key chunk_size a b (r ∷ rs) (begins, ordered, p) =
    let scaled : a * chunk_size ≤ r.end * chunk_size = grind arith in
    (rw begins, omega arith, capped-Tiles max_key chunk_size r.end b rs p)

-- For a positive number of servers, of keys and a chunk size within the machine's bounds, the key
-- ranges that SetMaxKeyAndChunkSize computes cut up [0, max_key).
pub key_ranges-Tiles :
    (n max_key chunk_size : ℕ)
    → 0 < n
    → 0 < max_key
    → max_key < u64_mod
    → 0 < chunk_size
    → n * chunk_size < u64_mod
    → Tiles 0 max_key
        (key_ranges max_key chunk_size (chunk_ranges n (chunk_count max_key chunk_size)))
key_ranges-Tiles n max_key chunk_size some_servers some_keys fits some_size small =
    let chunk_num = chunk_count max_key chunk_size in
    let covered = chunk_count_covers max_key chunk_size some_keys fits some_size in
    let e : min (chunk_num * chunk_size) max_key ≡ max_key = omega arith in
    let z : min (0 * chunk_size) max_key ≡ 0 = omega arith in
    rw (key_ranges-eq-capped n max_key chunk_size some_servers some_keys fits some_size small) (
      subst₂ (λ a b. Tiles a b (map (capped max_key chunk_size) (chunk_ranges n chunk_num))) z e
        (capped-Tiles max_key chunk_size 0 chunk_num (chunk_ranges n chunk_num)
          (chunk_ranges_tiled n chunk_num some_servers)))
