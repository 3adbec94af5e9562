-- ===== src/Kvstore/BspServer/Turns.antt =====
-- Whose turn it is in kvstore/handles/bsp_server.hpp, for pushes and pulls alike: one kind of
-- request is active, in iteration `a`, and the other waits for its iteration `b`.
use flexps_paper_version.Common.{
  ℕ, suc, ◌+◌, ◌-◌, ◌≤◌, ◌<◌, ◌≡◌, ◌≢◌, ◌∙◌, sym, List, [], arith, length, get_or, ◌==◌,
  if◌then◌else◌, grow, add_at, get_or-grow, get_or-add_at-grow, length-grow, length-add_at, max,
  true,
}
use flexps_paper_version.Common.Members.{has, IsDistinct}
use flexps_paper_version.Common.Counting.{
  ahead, ahead-le, ahead-nil, ahead_full, ahead_partial, ahead-bump, ahead_lt_of,
}

-- The workers have the ids `ws`, and `counts[k]` is the number of workers with more than `k` requests
-- of a kind.
pub record IsCounted (ws : List ℕ) (counts xs : List ℕ) : Type 0 where
  pub distinct : IsDistinct ws
  pub counted : (k : ℕ) → get_or counts k 0 ≡ ahead k ws xs
  pub room : (i : ℕ) → has i ws ≡ true → get_or xs i 0 ≤ length counts

-- Each worker alternates: with `e` its requests of the active kind are those of the other kind or
-- one fewer (`e ≡ 1`), or those or one more (`e ≡ 0`). Nobody is behind its iteration, and somebody
-- has not yet sent the active request of iteration `a`.
pub record IsTurn (ws : List ℕ) (n e a b : ℕ) (xs ys : List ℕ) : Type 0 where
  pub members : IsDistinct ws
  pub size : length ws ≡ n
  pub small : e ≤ 1
  pub offset : b ≡ a + e
  pub low : (i : ℕ) → has i ws ≡ true → get_or xs i 0 + e ≤ get_or ys i 0 + 1
  pub high : (i : ℕ) → has i ws ≡ true → get_or ys i 0 ≤ get_or xs i 0 + e
  pub active : (i : ℕ) → has i ws ≡ true → a ≤ get_or xs i 0
  pub passive : (i : ℕ) → has i ws ≡ true → b ≤ get_or ys i 0
  pub behind : ahead a ws xs < n

pub start-IsTurn :
    (ws : List ℕ) (n : ℕ) → IsDistinct ws → length ws ≡ n → 0 < n → IsTurn ws n 0 0 0 [] []
start-IsTurn ws n distinct size some_workers = record {
  members = distinct;
  size = size;
  small = omega arith;
  offset = omega arith;
  low = λ i lt. omega arith;
  high = λ i lt. omega arith;
  active = λ i lt. omega arith;
  passive = λ i lt. omega arith;
  behind = omega (arith, ahead-nil 0 ws);
}

pub start-IsCounted : (ws : List ℕ) → IsDistinct ws → IsCounted ws [] []
start-IsCounted ws distinct = record {
  distinct = distinct;
  counted = λ k. sym (ahead-nil k ws);
  room = λ i lt. omega arith;
}

-- The slowest worker stands at the beginning of the iteration.
pub slowest_exists :
    {ws : List ℕ} {n e a b : ℕ} {xs ys : List ℕ}
    → IsTurn ws n e a b xs ys
    → (i : ℕ) × (has i ws ≡ true) × (get_or xs i 0 ≡ a)
slowest_exists {ws} {n} {e} {a} {b} {xs} v =
    let (i, lt, le) = ahead_partial a ws xs (omega (arith, v.behind, v.size)) in
    (i, lt, omega (arith, v.active i lt))

module _ (ws : List ℕ) (n : ℕ) (counts xs : List ℕ) (src : ℕ) (known : has src ws ≡ true) where
  abbrev at : ℕ
  at = get_or (grow (suc src) 0 xs) src 0

  pub at_lem : at ≡ get_or xs src 0
  at_lem = get_or-grow (suc src) 0 xs src

  abbrev counts' : List ℕ
  counts' = add_at at (grow (suc at) 0 counts)

  abbrev xs' : List ℕ
  xs' = add_at src (grow (suc src) 0 xs)

  pub bumped : (j : ℕ) → get_or xs' j 0 ≡ (if src == j then get_or xs j 0 + 1 else get_or xs j 0)
  bumped j = get_or-add_at-grow src j xs

  pub length-counts' : length counts' ≡ max (suc at) (length counts)
  length-counts' = length-add_at at (grow (suc at) 0 counts) ∙ length-grow (suc at) 0 counts

  pub count_in_range : at < length counts'
  count_in_range = omega (arith, length-counts')

  pub count-IsCounted : IsCounted ws counts xs → IsCounted ws counts' xs'
  count-IsCounted v = record {
    distinct = v.distinct;
    counted = λ k. ground (
      arith,
      at_lem,
      get_or-add_at-grow at k counts,
      v.counted k,
      ahead-bump xs xs' src bumped k ws v.distinct known,
    );
    room = λ i lt. ground (arith, at_lem, bumped i, v.room i lt, length-counts');
  }

  -- A request of the active kind that does not complete the iteration, or is for a later one.
  pub active-IsTurn :
      {e a b : ℕ} {ys : List ℕ}
      → IsTurn ws n e a b xs ys
      → get_or xs src 0 + e ≡ get_or ys src 0
      → ahead a ws xs' ≢ n
      → IsTurn ws n e a b xs' ys
  active-IsTurn v may open_turn = record {
    members = v.members;
    size = v.size;
    small = v.small;
    offset = v.offset;
    low = λ i lt. ground (arith, bumped i, v.low i lt, may);
    high = λ i lt. ground (arith, bumped i, v.high i lt);
    active = λ i lt. ground (arith, bumped i, v.active i lt);
    passive = v.passive;
    behind = omega (arith, ahead-le _ ws xs', v.size, open_turn);
  }

  -- The request that completes an iteration is for that iteration.
  pub complete_at :
      {e a b : ℕ} {ys : List ℕ} → IsTurn ws n e a b xs ys → ahead a ws xs' ≡ n → get_or xs src 0 ≡ a
  complete_at {e} {a} v full =
      ground (arith, v.behind, ahead-bump xs xs' src bumped a ws v.members known)

  -- It hands the turn over: its sender has not yet sent the next request of the other kind.
  pub complete-IsTurn :
      {e a b : ℕ} {ys : List ℕ}
      → IsTurn ws n e a b xs ys
      → get_or xs src 0 + e ≡ get_or ys src 0
      → ahead a ws xs' ≡ n
      → IsTurn ws n (1 - e) b (suc a) ys xs'
  complete-IsTurn {e} {a} {b} {ys} v may full = record {
    members = v.members;
    size = v.size;
    small = omega arith;
    offset = omega (arith, v.small, v.offset);
    low = λ i lt. ground (arith, bumped i, v.high i lt, v.small);
    high = λ i lt. ground (arith, bumped i, v.low i lt, v.small, may);
    active = v.passive;
    passive = λ i lt. omega (arith, ahead_full a ws xs' (full ∙ sym v.size) i lt);
    behind = omega (
      arith,
      v.size,
      ahead_lt_of b ws ys src known (omega (arith, complete_at v full, may, v.offset)),
    );
  }

  -- A request of the other kind is for its iteration or a later one.
  pub passive-IsTurn :
      {e a b : ℕ} {zs : List ℕ}
      → IsTurn ws n e a b zs xs
      → get_or xs src 0 + 1 ≡ get_or zs src 0 + e
      → IsTurn ws n e a b zs xs'
  passive-IsTurn v may = record {
    members = v.members;
    size = v.size;
    small = v.small;
    offset = v.offset;
    low = λ i lt. ground (arith, bumped i, v.low i lt);
    high = λ i lt. ground (arith, bumped i, v.high i lt, may);
    active = v.active;
    passive = λ i lt. ground (arith, bumped i, v.passive i lt);
    behind = v.behind;
  }
