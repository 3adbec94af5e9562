-- ===== src/Ml/PsMapNoneWorker.antt =====
-- ml/mlworker/ps.hpp: PSMapNoneWorker, a worker with a cache of its own in front of the kv worker, which
-- may be `staleness` pulls old. `reply` is the kv worker: what its `Pull` fills in for the keys that the
-- worker's n-th pull asks of it. `cache_ts` is what stands in the memory at first, where a negative
-- number is left out; `has_request` is `ts_ != -1`.
pub mod Caches
pub mod Freshness
pub mod Rounds
use flexps_paper_version.Common.{
  ℕ, zero, suc, ◌+◌, Bool, true, false, Option, none, some, List, [], ◌∷◌, ◌++◌, Result, ok, err,
  failed_assert, out_of_range, ◌>>=◌, ltb, ◌==◌, ◌||◌, if◌then◌else◌, length,
}
use flexps_paper_version.Common.Maps.{Map, find, find_or, modify}

pub record PsMapNoneWorker (Val : Type 0) : Type 0 where
  pub staleness : ℕ
  pub cache_ts : ℕ
  pub cached_kv : Map Val
  pub push_count : ℕ
  pub pull_count : ℕ
  pub has_request : Bool

-- What the worker asks of the kv worker. A wait is for the last request.
pub data KvCall (Val : Type 0) : Type 0 where
  push_call : List ℕ → List Val → KvCall Val
  pull_call : List ℕ → KvCall Val
  wait_call : KvCall Val
  init_call : (num_workers : ℕ) → KvCall Val

unfoldable pub wait_for_last : {Val : Type 0} → Bool → List (KvCall Val)
wait_for_last has_request = if has_request then wait_call ∷ [] else []

-- What the constructor asks for.
unfoldable pub opening_calls : {Val : Type 0} → (num_workers : ℕ) → List (KvCall Val)
opening_calls num_workers = init_call num_workers ∷ wait_call ∷ []

module _ {Val : Type 0} where
  unfoldable pub new_worker : (staleness cache_ts : ℕ) → PsMapNoneWorker Val
  new_worker staleness cache_ts = record {
    staleness = staleness;
    cache_ts = cache_ts;
    cached_kv = [];
    push_count = 0;
    pull_count = 0;
    has_request = false;
  }

  module _ (zero_val : Val) (add : Val → Val → Val) where
    -- `cached_kv_[keys[i]] += vals[i]` for each i.
    unfoldable pub add_each : List ℕ → List Val → Map Val → Result (Map Val)
    unfolding modify
    add_each [] vals m = ok m
    add_each (k ∷ keys) [] m = err out_of_range
    add_each (k ∷ keys) (v ∷ vals) m = add_each keys vals (modify zero_val k (λ old. add old v) m)

    unfoldable pub push_cached :
        List ℕ → List Val → PsMapNoneWorker Val → Result (List (KvCall Val) × PsMapNoneWorker Val)
    unfolding add_each
    push_cached keys vals w =
        if w.push_count + 1 == w.pull_count
        then (add_each keys vals w.cached_kv >>= λ m. ok (
          push_call keys vals ∷ [],
          record w { cached_kv = m; push_count = w.push_count + 1; has_request = true },
        ))
        else err failed_assert

    unfoldable pub missing : List ℕ → Map Val → List ℕ
    unfolding find
    missing [] m = []
    missing (k ∷ keys) m =
        let rest = missing keys m in elim (find k m) [ none ↦ k ∷ rest | some v ↦ rest ]

    -- The cache is too old, or empty, or else lacks some of the keys.
    unfoldable pub uncached_keys : List ℕ → PsMapNoneWorker Val → List ℕ
    unfolding missing
    uncached_keys keys w =
        if ltb (w.cache_ts + w.staleness) w.pull_count || length w.cached_kv == 0
        then keys
        else missing keys w.cached_kv

    -- `cached_kv_[uncached_keys[i]] = (*vals)[i]` for each i.
    unfoldable pub enter_each : List ℕ → List Val → Map Val → Result (Map Val)
    unfolding modify
    enter_each [] vals m = ok m
    enter_each (k ∷ keys) [] m = err out_of_range
    enter_each (k ∷ keys) (v ∷ vals) m = enter_each keys vals (modify zero_val k (λ _. v) m)

    -- `(*vals)[i] = cached_kv_[keys[i]]` for each i; a missing key would be entered.
    unfoldable pub read_each : List ℕ → Map Val → List Val × Map Val
    unfolding modify find_or
    read_each [] m = ([], m)
    read_each (k ∷ keys) m =
        let rest = read_each keys (modify zero_val k (λ old. old) m) in
        (find_or zero_val k m ∷ rest.0, rest.1)

    unfoldable pub refresh :
        (reply : ℕ → List ℕ → List Val)
        → (keys uncached : List ℕ) → PsMapNoneWorker Val
        → Result (List (KvCall Val) × PsMapNoneWorker Val)
    unfolding enter_each
    refresh reply keys [] w = ok ([], w)
    refresh reply keys (k ∷ uncached) w =
        let all = length (k ∷ uncached) == length keys in
        enter_each (k ∷ uncached) (reply w.pull_count (k ∷ uncached))
          (if all then [] else w.cached_kv)
        >>= λ m. ok (
          pull_call (k ∷ uncached) ∷ wait_call ∷ [],
          record w {
            cache_ts = if all then w.pull_count else w.cache_ts;
            cached_kv = m;
            has_request = true;
          },
        )

    unfoldable pub pull_cached :
        (reply : ℕ → List ℕ → List Val)
        → List ℕ
        → PsMapNoneWorker Val
        → Result (List Val × List (KvCall Val) × PsMapNoneWorker Val)
    unfolding uncached_keys refresh read_each wait_for_last
    pull_cached reply keys w =
        if w.push_count == w.pull_count
        then (let w' = record w { pull_count = w.pull_count + 1 } in
            refresh reply keys (uncached_keys keys w') w' >>= λ r.
            let vals = read_each keys (r.1).cached_kv in
            ok (vals.0, wait_for_last w.has_request ++ r.0, record (r.1) { cached_kv = vals.1 }))
        else err failed_assert
