-- ===== src/Kvstore/KvWorker/Replies.antt =====
-- kvstore/kvworker.hpp: what a worker does with the replies that its receiving thread gets, and the
-- callbacks that put the replies to a pull together. A callback is one of the lambdas that the
-- pulls register; a lambda of the user's, which runs last, is left to the user.
pub mod Assembly
pub mod Rounds
use flexps_paper_version.Common.{
  ℕ, zero, suc, ◌+◌, ◌%◌, Bool, true, false, not, ◌&&◌, ◌||◌, Option, none, some, List, [], ◌∷◌,
  ◌++◌, map, Result, ok, err, failed_assert, out_of_range, ◌>>=◌, leb, ltb, ◌==◌, if◌then◌else◌,
  length,
}
use flexps_paper_version.Common.Members.{has}
use flexps_paper_version.Common.Segments.{drop, segment}
use flexps_paper_version.Kvstore.Messages.{Reply, consistency_control_off_magic}
use flexps_paper_version.Kvstore.Handles.{KvPairs}
use flexps_paper_version.Kvstore.KvWorker.{Tracker, count_reply}

-- `std::unordered_map` keyed by <kv_id, ts>.
abbrev pub Requests : Type 0 → Type 0
Requests V = List ((ℕ × ℕ) × V)

module _ {V : Type 0} where
  unfoldable pub lookup : (kv_id ts : ℕ) → Requests V → Option V
  lookup kv_id ts [] = none
  lookup kv_id ts (((i, t), v) ∷ m) =
      let rest = lookup kv_id ts m in if kv_id == i && ts == t then some v else rest

  unfoldable pub forget : (kv_id ts : ℕ) → Requests V → Requests V
  forget kv_id ts [] = []
  forget kv_id ts (((i, t), v) ∷ m) =
      let rest = forget kv_id ts m in if kv_id == i && ts == t then rest else ((i, t), v) ∷ rest

  unfoldable pub enter : (kv_id ts : ℕ) → V → Requests V → Requests V
  unfolding forget
  enter kv_id ts v m = ((kv_id, ts), v) ∷ forget kv_id ts m

-- The first key of a reply; only replies with keys are kept.
unfoldable pub front : {Val : Type 0} → KvPairs Val → ℕ
front kvs = elim kvs.keys [ [] ↦ 0 | ◌∷◌ k ks ↦ k ]

-- One reply as it is kept: the pairs, and the minimal clock where the server sent one.
pub record Received (Val : Type 0) : Type 0 where
  pub kvs : KvPairs Val
  pub min_clock : Option ℕ

module _ {Val : Type 0} where
  -- `std::sort` by the first key.
  unfoldable pub insert_by_front : Received Val → List (Received Val) → List (Received Val)
  unfolding front
  insert_by_front x [] = x ∷ []
  insert_by_front x (y ∷ ys) =
      let rest = insert_by_front x ys in
      if leb (front x.kvs) (front y.kvs) then x ∷ y ∷ ys else y ∷ rest

  unfoldable pub sort_by_front : List (Received Val) → List (Received Val)
  unfolding insert_by_front
  sort_by_front [] = []
  sort_by_front (x ∷ xs) = insert_by_front x (sort_by_front xs)

  -- The copies of `Pull_`.
  unfoldable pub join : List (Received Val) → List Val
  join [] = []
  join (x ∷ xs) = x.kvs.vals ++ join xs

  unfoldable pub fill_vals : List (Received Val) → List Val
  unfolding join sort_by_front
  fill_vals kvs = join (sort_by_front kvs)

  -- The copies of one reply to `PullChunks`; the last chunk of a store takes what is left.
  unfoldable pub split :
      (chunk_size chunk_num start : ℕ) → List ℕ → List Val → Result (List (List Val))
  unfolding drop segment
  split chunk_size chunk_num start [] vals = ok []
  split chunk_size chunk_num start (k ∷ ks) vals =
      split chunk_size chunk_num (start + chunk_size) ks vals >>= λ rest.
      if k + 1 == chunk_num
      then ok (drop start vals ∷ rest)
      else if leb (start + chunk_size) (length vals)
      then ok (segment start (start + chunk_size) vals ∷ rest)
      else err out_of_range

  unfoldable pub split_all :
      (chunk_size chunk_num : ℕ) → List (Received Val) → Result (List (List Val))
  unfolding split
  split_all chunk_size chunk_num [] = ok []
  split_all chunk_size chunk_num (x ∷ xs) =
      split chunk_size chunk_num 0 x.kvs.keys x.kvs.vals >>= λ chunks.
      split_all chunk_size chunk_num xs >>= λ rest. ok (chunks ++ rest)

  unfoldable pub fill_chunks :
      (chunk_size chunk_num : ℕ) → List (Received Val) → Result (List (List Val))
  unfolding split_all sort_by_front
  fill_chunks chunk_size chunk_num kvs = split_all chunk_size chunk_num (sort_by_front kvs)

  -- `min_clock_local`, from `std::numeric_limits<int>::max()` on.
  unfoldable pub smallest_clock : ℕ → List (Received Val) → ℕ
  smallest_clock least [] = least
  smallest_clock least (x ∷ xs) =
      smallest_clock (elim x.min_clock [ none ↦ least | some c ↦ if ltb c least then c else least ])
        xs

pub data Callback : Type 0 where
  to_vals to_local_vals : Callback
  to_chunks : (with_min_clock : Bool) → (chunk_size chunk_num : ℕ) → Callback
  notify : Callback

-- What a callback hands to the caller.
pub data Delivery (Val : Type 0) : Type 0 where
  some_vals : List Val → Delivery Val
  some_chunks : List (List Val) → Option ℕ → Delivery Val
  notified : Delivery Val

-- `process_map` as the stores that have a function in it.
pub record KvWorker (Val : Type 0) : Type 0 where
  pub process_map : List ℕ
  pub tracker : Tracker
  pub recv_kvs : Requests (List (Received Val))
  pub callbacks : Requests Callback

module _ {Val : Type 0} where
  unfoldable pub add_process_func : ℕ → KvWorker Val → Result (KvWorker Val)
  unfolding has
  add_process_func kv_id w =
      if has kv_id w.process_map
      then err failed_assert
      else ok (record w { process_map = kv_id ∷ w.process_map })

  unfoldable pub add_callback : (kv_id ts : ℕ) → Callback → KvWorker Val → KvWorker Val
  unfolding enter
  add_callback kv_id ts cb w = record w { callbacks = enter kv_id ts cb w.callbacks }

  -- The replies that are kept for a request.
  abbrev pub kept : Option (List (Received Val)) → List (Received Val)
  kept none = []
  kept (some xs) = xs

  -- `update_kvs`: the first reply makes the entry, and replies without keys are dropped.
  unfoldable pub update_kvs : (kv_id ts : ℕ) → Received Val → KvWorker Val → KvWorker Val
  unfolding lookup enter
  update_kvs kv_id ts x w =
      let before : List (Received Val) = kept (lookup kv_id ts w.recv_kvs) in
      let after = if length x.kvs.keys == 0 then before else before ++ x ∷ [] in
      record w { recv_kvs = enter kv_id ts after w.recv_kvs }

  -- The body of a callback on the replies of its request.
  unfoldable pub deliver : Callback → List (Received Val) → Result (Delivery Val)
  unfolding fill_vals fill_chunks smallest_clock
  deliver to_vals kvs = ok (some_vals (fill_vals kvs))
  deliver to_local_vals (x ∷ []) = ok (some_vals x.kvs.vals)
  deliver to_local_vals kvs = err failed_assert
  deliver (to_chunks with_min_clock chunk_size chunk_num) kvs =
      fill_chunks chunk_size chunk_num kvs >>= λ cs.
      ok (some_chunks cs (if with_min_clock then some (smallest_clock 2147483647 kvs) else none))
  deliver notify kvs = ok notified

  -- `RunCallback`. A callback of a pull reads and erases the replies; without any there is only a
  -- null pointer.
  unfoldable pub run_callback :
      (kv_id ts : ℕ) → KvWorker Val → Result (KvWorker Val × Option (Delivery Val))
  unfolding lookup forget deliver
  run_callback kv_id ts w = elim (lookup kv_id ts w.callbacks) [
    | none ↦ ok (w, none)
    | some notify ↦ ok (record w { callbacks = forget kv_id ts w.callbacks }, some notified)
    | some cb ↦ elim (lookup kv_id ts w.recv_kvs) [
      | none ↦ err out_of_range
      | some kvs ↦ deliver cb kvs >>= λ d. ok (
        record w { recv_kvs = forget kv_id ts w.recv_kvs; callbacks = forget kv_id ts w.callbacks },
        some d,
      )
    ]
  ]

  -- The pairs of a reply, with the clock for `PullChunksWithMinClock`.
  unfoldable pub read_reply : Reply (KvPairs Val) → Result (Received Val)
  read_reply r =
      let cmd = r.cmd % consistency_control_off_magic in
      if cmd == 13 || cmd == 11
      then elim r.min_clock [
        | none ↦ err out_of_range
        | some c ↦ ok (record { kvs = r.res; min_clock = some c })
      ]
      else ok (record { kvs = r.res; min_clock = none })

  -- `UniqueProcess`.
  unfoldable pub unique_process :
      Reply (KvPairs Val)
      → (run : Bool) → KvWorker Val
      → Result (KvWorker Val × Option (Delivery Val))
  unfolding read_reply update_kvs run_callback
  unique_process r run w =
      (if r.push then ok w else (read_reply r >>= λ x. ok (update_kvs r.kv_id r.ts x w))) >>= λ w'.
      if run then run_callback r.kv_id r.ts w' else ok (w', none)

  -- `Process`.
  unfoldable pub process_reply :
      Reply (KvPairs Val)
      → (run : Bool) → KvWorker Val
      → Result (KvWorker Val × Option (Delivery Val))
  unfolding unique_process has
  process_reply r run w =
      if has r.kv_id w.process_map then unique_process r run w else err failed_assert

  -- One round of the loop in `Receiving`.
  unfoldable pub receive :
      Reply (KvPairs Val) → KvWorker Val → Result (KvWorker Val × Option (Delivery Val))
  unfolding count_reply process_reply
  receive r w = count_reply r.kv_id r.ts w.tracker >>= λ counted.
      process_reply r counted.0 w >>= λ done. ok (record done.0 { tracker = counted.1 }, done.1)

  -- The loop in `Receiving`, on the messages in the order in which they come, with what the
  -- callbacks hand out.
  unfoldable pub receive_all :
      List (Reply (KvPairs Val))
      → KvWorker Val
      → Result (KvWorker Val × List (Option (Delivery Val)))
  unfolding receive
  receive_all [] w = ok (w, [])
  receive_all (r ∷ rs) w =
      receive r w >>= λ done. receive_all rs done.0 >>= λ rest. ok (rest.0, done.1 ∷ rest.1)
