-- ===== src/Kvstore/Handles.antt =====
-- kvstore/handles/basic.hpp: `update` and `retrieve`, which apply a push to a server's store and
-- answer a pull from it.
--
-- A stream (third-party) is what its reads yield: keys, values, chunk ids, chunks, and the number
-- of workers of an init message. The zero-copy commands 2 and 3 read the same through a pointer.
-- A store is a function: an unordered_map gives 0 for a missing key, and a vector is taken to be long
-- enough, as it is for the keys of its server; what an index behind its end does is undefined in the
-- source, and not modelled. Index arithmetic is that of uint64_t.
pub mod Commute
pub mod Agree
pub mod Interface
use flexps_paper_version.Common.{
  ℕ, zero, suc, ◌+◌, ◌-◌, ◌*◌, ◌%◌, Bool, true, false, Option, none, some, List, [], ◌∷◌, ◌++◌, map,
  Result, ok, err, out_of_range, unknown_cmd, ◌>>=◌, ◌==◌, if◌then◌else◌, length,
}
use flexps_paper_version.Kvstore.Ranges.{u64_mod}
use flexps_paper_version.Kvstore.RangeManager.{
  RangeManager, get_chunk_size, get_chunk_num, get_last_chunk_size, get_server_interval,
}

pub record Bin (Val : Type 0) : Type 0 where
  pub size : ℕ
  pub keys : List ℕ
  pub vals : List Val
  pub chunk_ids : List ℕ
  pub chunks : List (List Val)
  pub next_num_workers : Option ℕ

pub record KvPairs (Val : Type 0) : Type 0 where
  pub keys : List ℕ
  pub vals : List Val

-- What a server holds fixed: its id, and whether its store is a vector.
pub record Place : Type 0 where
  pub server_id : ℕ
  pub is_vector : Bool

-- `is_vector ? GetServerInterval(kv_id, server_id) : 0`.
unfoldable pub interval : RangeManager → Place → ℕ → Result ℕ
interval m p kv_id = if p.is_vector then get_server_interval kv_id p.server_id m else ok 0

-- `key - interval` on uint64_t.
unfoldable pub index : (interval key : ℕ) → ℕ
index interval key = (key + u64_mod - interval) % u64_mod

-- The keys start, start + 1, ... of a chunk.
unfoldable pub keys_from : (start count : ℕ) → List ℕ
keys_from start zero = []
keys_from start (suc count) = start ∷ keys_from (start + 1) count

abbrev pub Store : Type 0 → Type 0
Store Val = ℕ → Val

-- The last chunk may be shorter.
unfoldable pub real_chunk_size : RangeManager → (kv_id chunk_id : ℕ) → ℕ
real_chunk_size m kv_id chunk_id =
    if chunk_id + 1 == get_chunk_num kv_id m
    then get_last_chunk_size kv_id m
    else get_chunk_size kv_id m

-- `send.vals[i] = store[send.keys[i] - interval]`.
unfoldable pub values : {Val : Type 0} → (interval : ℕ) → List ℕ → Store Val → List Val
values interval ks store = map (λ k. store (index interval k)) ks

unfoldable pub chunk_values :
    {Val : Type 0} → RangeManager → (kv_id interval : ℕ) → List ℕ → Store Val → List Val
unfolding values real_chunk_size keys_from
chunk_values m kv_id interval [] store = []
chunk_values m kv_id interval (c ∷ cs) store =
    values interval (keys_from (c * get_chunk_size kv_id m) (real_chunk_size m kv_id c)) store
    ++ chunk_values m kv_id interval cs store

unfoldable pub retrieve :
    {Val : Type 0}
    → RangeManager
    → Place
    → (kv_id cmd : ℕ) → Bin Val
    → Store Val
    → Result (KvPairs Val)
unfolding values chunk_values interval
retrieve m p kv_id cmd bin store =
    if cmd == 0
    then (interval m p kv_id >>= λ i.
        ok (record { keys = bin.keys; vals = values i bin.keys store }))
    else if cmd == 1
    then (interval m p kv_id >>= λ i.
        ok (record { keys = bin.chunk_ids; vals = chunk_values m kv_id i bin.chunk_ids store }))
    else if cmd == 2
    then (interval m p kv_id >>= λ i.
        ok (record { keys = bin.keys; vals = values i bin.keys store }))
    else if cmd == 3
    then (interval m p kv_id >>= λ i.
        ok (record { keys = bin.chunk_ids; vals = chunk_values m kv_id i bin.chunk_ids store }))
    else err (unknown_cmd cmd)

module _ {Val : Type 0} (add : Val → Val → Val) where
  -- `store[i] = v` or `store[i] += v`.
  unfoldable pub put : Bool → ℕ → Val → Store Val → Store Val
  put is_assign i v store j = if i == j then (if is_assign then v else add (store j) v) else store j

  -- The loop over `recv.keys`; `recv.vals[i]` behind its end is out of range.
  unfoldable pub apply_pairs :
      Bool → (interval : ℕ) → List ℕ → List Val → Store Val → Result (Store Val)
  apply_pairs is_assign interval [] vals store = ok store
  apply_pairs is_assign interval (k ∷ ks) [] store = err out_of_range
  apply_pairs is_assign interval (k ∷ ks) (v ∷ vs) store =
      apply_pairs is_assign interval ks vs (put is_assign (index interval k) v store)

  -- The loop over one chunk.
  unfoldable pub apply_chunk : Bool → (interval start : ℕ) → List Val → Store Val → Store Val
  apply_chunk is_assign interval start [] store = store
  apply_chunk is_assign interval start (v ∷ vs) store =
      apply_chunk is_assign interval (start + 1) vs (put is_assign (index interval start) v store)

  -- The loop over the chunk ids.
  unfoldable pub apply_chunks :
      Bool → (interval chunk_size : ℕ) → List ℕ → List (List Val) → Store Val → Result (Store Val)
  apply_chunks is_assign interval chunk_size [] chunks store = ok store
  apply_chunks is_assign interval chunk_size (c ∷ cs) [] store = err out_of_range
  apply_chunks is_assign interval chunk_size (c ∷ cs) (vs ∷ chunks) store =
      apply_chunks is_assign interval chunk_size cs chunks
        (apply_chunk is_assign interval (c * chunk_size) vs store)

  module _ (m : RangeManager) (p : Place) where
    unfoldable pub update : (kv_id cmd : ℕ) → Bool → Bin Val → Store Val → Result (Store Val)
    unfolding apply_pairs apply_chunks interval
    update kv_id cmd is_assign bin store =
        if cmd == 0
        then (interval m p kv_id >>= λ i. apply_pairs is_assign i bin.keys bin.vals store)
        else if cmd == 1
        then (interval m p kv_id >>= λ i.
            apply_chunks is_assign i (get_chunk_size kv_id m) bin.chunk_ids bin.chunks store)
        else if cmd == 2
        then (interval m p kv_id >>= λ i. apply_pairs is_assign i bin.keys bin.vals store)
        else if cmd == 3
        then (interval m p kv_id >>= λ i.
            apply_chunks is_assign i (get_chunk_size kv_id m) bin.chunk_ids bin.chunks store)
        else err (unknown_cmd cmd)
