-- ===== src/Kvstore/SspServer/Clocks.antt =====
-- The clocks of the SSP server, apart from its buffers and its store: ssp_server.hpp, the push and
-- pull branches of `Process` and the test in `process_push`.
use flexps_paper_version.Common.{
  ℕ, suc, ◌+◌, ◌≤◌, ◌<◌, ◌≡◌, ◌∙◌, sym, ◌≢◌, List, [], arith, length, get_or, grow, add_at,
  get_or-grow, get_or-add_at-grow, length-grow, length-add_at, ◌==◌, if◌then◌else◌, max, true,
}
use flexps_paper_version.Common.Members.{has, IsDistinct}
use flexps_paper_version.Common.Counting.{
  ahead, ahead-le, ahead-nil, ahead-anti, ahead-grow, ahead_full, ahead_partial, ahead-bump,
}

-- The `n` workers have the ids `ws`, `m` is the progress of the slowest one, and `counts[k]` the
-- number of workers with more than `k` pushes.
pub record IsSynced (ws : List ℕ) (n m : ℕ) (counts progress : List ℕ) : Type 0 where
  pub distinct : IsDistinct ws
  pub size : length ws ≡ n
  pub counted : (k : ℕ) → get_or counts k 0 ≡ ahead k ws progress
  pub slowest : (i : ℕ) → has i ws ≡ true → m ≤ get_or progress i 0
  pub behind : ahead m ws progress < n
  pub room : (i : ℕ) → has i ws ≡ true → get_or progress i 0 ≤ length counts

pub fresh-IsSynced :
    (ws : List ℕ) (n k : ℕ)
    → IsDistinct ws
    → length ws ≡ n
    → 0 < n
    → IsSynced ws n 0 [] (grow k 0 [])
fresh-IsSynced ws n k distinct size h = record {
  distinct = distinct;
  size = size;
  counted = λ j. sym (ahead-grow k j ws [] ∙ ahead-nil j ws);
  slowest = λ i lt. omega arith;
  behind = omega (arith, ahead-grow k 0 ws [], ahead-nil 0 ws);
  room = λ i lt. omega (arith, get_or-grow {A = ℕ} k 0 [] i);
}

pub grow-IsSynced :
    {ws : List ℕ} {n m : ℕ} {counts progress : List ℕ} (k : ℕ)
    → IsSynced ws n m counts progress
    → IsSynced ws n m counts (grow k 0 progress)
grow-IsSynced {ws} {n} {m} {progress} k v = record {
  distinct = v.distinct;
  size = v.size;
  counted = λ j. v.counted j ∙ sym (ahead-grow k j ws progress);
  slowest = λ i lt. omega (arith, get_or-grow k 0 progress i, v.slowest i lt);
  behind = omega (arith, ahead-grow k m ws progress, v.behind);
  room = λ i lt. omega (arith, get_or-grow k 0 progress i, v.room i lt);
}

-- The slowest worker stands exactly at the minimal clock.
pub slowest_exists :
    {ws : List ℕ} {n m : ℕ} {counts progress : List ℕ}
    → IsSynced ws n m counts progress
    → (i : ℕ) × (has i ws ≡ true) × (get_or progress i 0 ≡ m)
slowest_exists {ws} {n} {m} {progress} v =
    let (i, lt, le) = ahead_partial m ws progress (omega (arith, v.behind, v.size)) in
    (i, lt, omega (arith, v.slowest i lt))

module _ {ws : List ℕ} {n m : ℕ} {counts progress : List ℕ} (v : IsSynced ws n m counts progress)
    (src : ℕ) (known : has src ws ≡ true) where
  abbrev at : ℕ
  at = get_or (grow (suc src) 0 progress) src 0

  pub at_lem : at ≡ get_or progress src 0
  at_lem = get_or-grow (suc src) 0 progress src

  abbrev counts' : List ℕ
  counts' = add_at at (grow (suc at) 0 counts)

  abbrev progress' : List ℕ
  progress' = add_at src (grow (suc src) 0 progress)

  bumped :
      (j : ℕ)
      → get_or progress' j 0 ≡ (if src == j then get_or progress j 0 + 1 else get_or progress j 0)
  bumped j = get_or-add_at-grow src j progress

  counted' : (k : ℕ) → get_or counts' k 0 ≡ ahead k ws progress'
  counted' k = ground (
    arith,
    at_lem,
    get_or-add_at-grow at k counts,
    v.counted k,
    ahead-bump progress progress' src bumped k ws v.distinct known,
  )

  length-counts' : length counts' ≡ max (suc at) (length counts)
  length-counts' = length-add_at at (grow (suc at) 0 counts) ∙ length-grow (suc at) 0 counts

  room' : (i : ℕ) → has i ws ≡ true → get_or progress' i 0 ≤ length counts'
  room' i lt = ground (arith, at_lem, bumped i, v.room i lt, length-counts')

  -- The count that `process_push` reads lies within the vector.
  pub count_in_range : m < length counts'
  count_in_range = omega (arith, at_lem, length-counts', v.slowest src known)

  -- A push that does not complete the minimal clock leaves it where it is.
  pub push-IsSynced : get_or counts' m 0 ≢ n → IsSynced ws n m counts' progress'
  push-IsSynced open_clock = record {
    distinct = v.distinct;
    size = v.size;
    counted = counted';
    slowest = λ i lt. ground (arith, bumped i, v.slowest i lt);
    behind = omega (arith, counted' m, v.size, ahead-le m ws progress', open_clock);
    room = room';
  }

  -- A push that completes it moves it on by one, and by no more.
  pub complete-IsSynced : get_or counts' m 0 ≡ n → IsSynced ws n (suc m) counts' progress'
  complete-IsSynced full = record {
    distinct = v.distinct;
    size = v.size;
    counted = counted';
    slowest = λ i lt.
        omega (arith, ahead_full m ws progress' (sym (counted' m) ∙ full ∙ sym v.size) i lt);
    behind = ground (
      arith,
      counted' m,
      v.behind,
      ahead-anti m ws progress,
      ahead-bump progress progress' src bumped m ws v.distinct known,
      ahead-bump progress progress' src bumped (suc m) ws v.distinct known,
    );
    room = room';
  }

  -- Only the slowest workers can complete the minimal clock.
  pub complete_by_slowest : get_or counts' m 0 ≡ n → at ≡ m
  complete_by_slowest full = ground (
    arith,
    at_lem,
    counted' m,
    v.behind,
    ahead-bump progress progress' src bumped m ws v.distinct known,
  )
