-- ===== src/Ml/PsMapChunkWorker.antt =====
-- ml/mlworker/ps.hpp: PSMapChunkWorker, a worker with a cache of its own in front of the cache of its process.
-- `serve` is the cache of the process: at the n-th pull it answers keys, with a clock that is asked for, by
-- its own clock and their values. The loops over the cache are those of PSMapNoneWorker.
pub mod Batches
use flexps_paper_version.Common.{
  ℕ, zero, suc, ◌+◌, ◌-◌, Bool, true, false, Option, none, some, List, [], ◌∷◌, ◌++◌, Result, ok,
  err, failed_assert, out_of_range, ◌>>=◌, read, set, ltb, ◌==◌, ◌||◌, if◌then◌else◌, length,
}
use flexps_paper_version.Common.Maps.{Map, find, find_or, modify}
use flexps_paper_version.Ml.ChunkBasedModel.{repeat}
use flexps_paper_version.Ml.PsMapNoneWorker.{
  KvCall, push_call, wait_for_last, add_each, missing, enter_each, read_each,
}

pub record PsMapChunkWorker (Val : Type 0) : Type 0 where
  pub staleness : ℕ
  pub cache_ts : ℕ
  pub cached_kv : Map Val
  pub push_count : ℕ
  pub pull_count : ℕ
  pub has_request : Bool
  pub keys : List ℕ
  pub delta : List Val

-- The constructor, which asks for what that of PSMapNoneWorker does. `cache_ts` is what stands in the
-- memory at first.
unfoldable pub new_mapped : {Val : Type 0} → (staleness cache_ts : ℕ) → PsMapChunkWorker Val
new_mapped staleness cache_ts = record {
  staleness = staleness;
  cache_ts = cache_ts;
  cached_kv = [];
  push_count = 0;
  pull_count = 0;
  has_request = false;
  keys = [];
  delta = [];
}

module _ {Val : Type 0} (zero_val : Val) (add : Val → Val → Val) where
  unfoldable pub push_mapped :
      List ℕ → List Val → PsMapChunkWorker Val → Result (List (KvCall Val) × PsMapChunkWorker Val)
  unfolding add_each
  push_mapped keys vals w =
      if w.pull_count == w.push_count + 1
      then (add_each zero_val add keys vals w.cached_kv >>= λ m. ok (
        push_call keys vals ∷ [],
        record w { cached_kv = m; push_count = w.push_count + 1; has_request = true },
      ))
      else err failed_assert

  module _ (serve : (n required_clock : ℕ) → List ℕ → ℕ × List Val) where
    -- The uncached keys, from the cache of the process; `kept` is the cache that is not too old.
    unfoldable pub fetch_mapped :
        (keys uncached : List ℕ)
        → (kept : Map Val) → PsMapChunkWorker Val
        → Result (PsMapChunkWorker Val)
    unfolding enter_each
    fetch_mapped keys [] kept w = ok (record w { cached_kv = kept })
    fetch_mapped keys (k ∷ uncached) kept w =
        let answer = serve w.pull_count (w.pull_count - w.staleness) (k ∷ uncached) in
        enter_each zero_val add (k ∷ uncached) answer.1 kept >>= λ m. ok (record w {
          cached_kv = m;
          cache_ts = if length keys == length (k ∷ uncached) then answer.0 else w.cache_ts;
        })

    unfoldable pub prepare_mapped : List ℕ → PsMapChunkWorker Val → Result (PsMapChunkWorker Val)
    unfolding fetch_mapped missing
    prepare_mapped keys w =
        if ltb (w.cache_ts + w.staleness) w.pull_count || length w.cached_kv == 0
        then fetch_mapped keys keys [] w
        else fetch_mapped keys (missing zero_val add keys w.cached_kv) w.cached_kv w

    unfoldable pub pull_mapped :
        List ℕ → PsMapChunkWorker Val → Result (List Val × List (KvCall Val) × PsMapChunkWorker Val)
    unfolding prepare_mapped read_each wait_for_last
    pull_mapped keys w =
        if w.pull_count == w.push_count
        then (prepare_mapped keys (record w { pull_count = w.pull_count + 1 }) >>= λ w'.
            let vals = read_each zero_val add keys w'.cached_kv in
            ok (vals.0, wait_for_last w.has_request, record w' { cached_kv = vals.1 }))
        else err failed_assert

    unfoldable pub prepare_v2 : List ℕ → PsMapChunkWorker Val → Result (PsMapChunkWorker Val)
    unfolding prepare_mapped repeat
    prepare_v2 keys w =
        prepare_mapped keys (record w { pull_count = w.pull_count + 1; keys = keys }) >>= λ w'.
        ok (record w' { delta = repeat (length keys) zero_val })

  unfoldable pub get_v2 : (idx : ℕ) → PsMapChunkWorker Val → Result (Val × PsMapChunkWorker Val)
  unfolding find_or modify
  get_v2 idx w = read w.keys idx >>= λ key. ok (
    find_or zero_val key w.cached_kv,
    record w { cached_kv = modify zero_val key (λ old. old) w.cached_kv },
  )

  unfoldable pub update_v2 : (idx : ℕ) → Val → PsMapChunkWorker Val → Result (PsMapChunkWorker Val)
  unfolding modify
  update_v2 idx val w = read w.delta idx >>= λ d. read w.keys idx >>= λ key. ok (record w {
    delta = set w.delta idx (add d val);
    cached_kv = modify zero_val key (λ old. add old val) w.cached_kv;
  })

  -- From index `i` on.
  unfoldable pub update_all_v2 :
      (i : ℕ) → List Val → PsMapChunkWorker Val → Result (PsMapChunkWorker Val)
  unfolding update_v2
  update_all_v2 i [] w = ok w
  update_all_v2 i (val ∷ vals) w = update_v2 i val w >>= λ w'. update_all_v2 (suc i) vals w'

  unfoldable pub clock_v2 : PsMapChunkWorker Val → Result (List (KvCall Val) × PsMapChunkWorker Val)
  unfolding push_mapped
  clock_v2 w = push_mapped w.keys w.delta w
