-- ===== src/Kvstore/KvWorker/Pulls/Lifecycle.antt =====
-- kvstore/kvworker.hpp and workercustomer.cpp: the life of a pull, from the request to its last reply.
use flexps_paper_version.Common.{
  ℕ, suc, ◌+◌, ◌/◌, ◌<◌, ◌≡◌, refl, ap, ◌∙◌, inl, inr, true, not, Option, none, List, [], ◌∷◌, ◌++◌,
  map, Result, ok, read, read-get_or, get_or-grow, length-grow, length-append, length-map, get_or,
  grow, arith, ◌==◌, length, Bool-cases, All,
}
use flexps_paper_version.Common.Members.{has}
use flexps_paper_version.Common.Segments.{drop, segment, drop-drop, length-take}
use flexps_paper_version.Kvstore.Ranges.{Range, Tiles}
use flexps_paper_version.Kvstore.Messages.{Reply}
use flexps_paper_version.Kvstore.Handles.{KvPairs}
use flexps_paper_version.Kvstore.KvWorker.{
  PsInfo, Options, Slice, slice, slice_at, slices_from, empty_slices, positions_from, lower_bound,
  wait_num, get_timestamp, new_request, Tracker, pull,
}
use flexps_paper_version.Kvstore.KvWorker.Slices.{
  IsAscending, taken_lem, lower_bound-le, first_position_lem,
}
use flexps_paper_version.Kvstore.KvWorker.Replies.{
  Received, KvWorker, lookup, receive_all, Delivery, some_vals, fill_vals, to_vals, kept,
  add_callback,
}
use flexps_paper_version.Kvstore.KvWorker.Replies.Assembly.{
  Arrival, Inserted, answers, fill_vals-Arrival,
}
use flexps_paper_version.Kvstore.KvWorker.Replies.Rounds.{
  Waits, IsAnswer, IsDone, received, at_last, receive_all-IsDone, lookup-enter, read-set,
}
use flexps_paper_version.Kvstore.KvWorker.Pulls.{pull_request}

read-append : (rows : List (ℕ × ℕ)) (row : ℕ × ℕ) → read (rows ++ row ∷ []) (length rows) ≡ ok row
read-append [] row = refl
read-append (x ∷ rows) row = read-append rows row

-- The timestamp of the request that comes next.
abbrev pub next_ts : ℕ → Tracker → ℕ
next_ts kv_id tracker = length (get_or tracker kv_id [])

new_request_lem :
    (kv_id n : ℕ) (tracker : Tracker)
    → ((new_request kv_id n tracker).1 ≡ next_ts kv_id tracker)
      × (read (new_request kv_id n tracker).0 kv_id ≡ ok (get_or tracker kv_id [] ++ (n, 0) ∷ []))
unfolding new_request
new_request_lem kv_id n tracker =
    let old = get_or tracker kv_id [] in
    rw (get_or-grow (suc kv_id) [] tracker kv_id) (
      omega (arith, length-append old ((n, 0) ∷ [])),
      read-set (grow (suc kv_id) [] tracker) kv_id _ (old ++ (n, 0) ∷ []) (
          read-get_or (grow (suc kv_id) [] tracker) kv_id []
            (omega (arith, length-grow (suc kv_id) [] tracker))),
    )

module _ {Val : Type 0} where
  length-Inserted :
      (x : Received Val) (ys zs : List (Received Val))
      → Inserted x ys zs
      → length zs ≡ suc (length ys)
  length-Inserted x ys zs (Inserted.here _) = refl
  length-Inserted x _ _ (Inserted.later y ys zs i) = omega (arith, length-Inserted x ys zs i)

  length-Arrival : (xs ys : List (Received Val)) → Arrival xs ys → length ys ≡ length xs
  length-Arrival _ _ Arrival.nil = refl
  length-Arrival _ zs (Arrival.arrive x xs ys _ a i) =
      omega (arith, length-Inserted x ys zs i, length-Arrival xs ys a)

  -- A slice is marked exactly when it has keys.
  abbrev IsMarked : Slice Val → Type 0
  IsMarked s = (length s.kvs.keys == 0) ≡ not s.some_keys

  -- As many servers answer as a request waits for.
  length-answers :
      (f : ℕ → Val) (ss : List (Slice Val)) → All IsMarked ss → length (answers f ss) ≡ wait_num ss
  unfolding answers wait_num
  length-answers f [] marked = refl
  length-answers f (s ∷ ss) marked = elim (Bool-cases s.some_keys) [
    | inl full ↦ rw (marked.0, full) (omega (arith, length-answers f ss marked.1))
    | inr void ↦ rw (marked.0, void) (omega (arith, length-answers f ss marked.1))
  ]

  empty_slices-IsMarked :
      (f : Option Val) (rs : List Range) → All IsMarked (empty_slices {Val = Val} rs)
  unfolding empty_slices
  empty_slices-IsMarked f [] = tt
  empty_slices-IsMarked f (r ∷ rs) = (refl, empty_slices-IsMarked f rs)

  slice_at-IsMarked :
      (k : ℕ) (keys : List ℕ) (vals : List Val) (p bound : ℕ)
      → IsMarked (slice_at k keys vals p (p + lower_bound bound (drop p keys)))
  unfolding slice_at
  slice_at-IsMarked k keys vals p bound =
      let len = lower_bound bound (drop p keys) in
      let whole : length (segment p (p + len) keys) ≡ len =
        ap length (taken_lem p len keys)
        ∙ length-take len (drop p keys) (lower_bound-le bound (drop p keys)) in
      elim (Bool-cases (p + len == p)) [
        | inl same ↦ rw same refl
        | inr apart ↦ rw (apart, whole) (ground (arith, apart))
      ]

  slices_from-IsMarked :
      (k : ℕ) (keys : List ℕ) (vals : List Val) (p : ℕ) (rs : List Range)
      → All IsMarked (slices_from k keys vals p (positions_from p (drop p keys) rs))
  unfolding slices_from positions_from
  slices_from-IsMarked k keys vals p [] = tt
  slices_from-IsMarked k keys vals p (r ∷ rs) =
      let len = lower_bound r.end (drop p keys) in
      (
        slice_at-IsMarked k keys vals p r.end,
        rw (drop-drop p len keys) (slices_from-IsMarked k keys vals (p + len) rs),
      )

  slice-IsMarked :
      (send : KvPairs Val) (b : ℕ) (ranges : List Range)
      → Tiles 0 b ranges
      → All IsMarked (slice send ranges)
  unfolding slice drop
  slice-IsMarked send b ranges tiles = elim (Bool-cases (length send.keys == 0)) [
    | inl void ↦ rw void (empty_slices-IsMarked none ranges)
    | inr full ↦
        rw (full, first_position_lem b send.keys ranges tiles)
          (slices_from-IsMarked (length send.vals / length send.keys) send.keys send.vals 0 ranges)
  ]

  -- A worker without anything left of a request with this timestamp, and with the store's function.
  pub record IsFresh (kv_id : ℕ) (w : KvWorker Val) : Type 0 where
    pub known : has kv_id w.process_map ≡ true
    pub no_replies : lookup kv_id (next_ts kv_id w.tracker) w.recv_kvs ≡ none

  pull_request-Waits :
      (info : PsInfo) (o : Options) (kv_id : ℕ) (ranges : List Range) (keys : List ℕ)
      (w : KvWorker Val)
      → IsFresh kv_id w
      → Waits kv_id
          (next_ts kv_id w.tracker)
          (wait_num (slice {Val = Val} (record { keys = keys; vals = [] }) ranges))
          0
          []
          (pull_request info o kv_id ranges keys w).0
  unfolding pull_request pull get_timestamp add_callback
  pull_request-Waits info o kv_id ranges keys w fresh =
      let n = wait_num (slice {Val = Val} (record { keys = keys; vals = [] }) ranges) in
      let (ts, rows) = new_request_lem kv_id n w.tracker in
      record {
        known = fresh.known;
        rows = get_or w.tracker kv_id [] ++ (n, 0) ∷ [];
        has_rows = rows;
        counted = read-append (get_or w.tracker kv_id []) (n, 0);
        keeps = ap kept fresh.no_replies;
        calls = rw ts (lookup-enter kv_id (next_ts kv_id w.tracker) to_vals w.callbacks);
      }

  -- Let `k` have the value `f k` on its server. After a pull of increasing keys, at least one,
  -- below the end of consecutive key ranges from 0 on, by a worker that has nothing left of the
  -- timestamp, and whatever the order in which the answers to the slices come, the worker handles
  -- all of them without an error and hands out nothing before the last and then the values of the
  -- keys in their order; the request is complete then, and neither replies nor a callback are left
  -- of it.
  pub pull_request-Delivers :
      (f : ℕ → Val) (info : PsInfo) (o : Options) (kv_id b : ℕ) (ranges : List Range) (k : ℕ)
      (keys : List ℕ) (w : KvWorker Val) (rs : List (Reply (KvPairs Val)))
      → Tiles 0 b ranges
      → IsAscending (k ∷ keys)
      → All (λ j. j < b) (k ∷ keys)
      → IsFresh kv_id w
      → All (IsAnswer kv_id (next_ts kv_id w.tracker)) rs
      → Arrival (answers f (slice (record { keys = k ∷ keys; vals = [] }) ranges)) (map received rs)
      → (w' : KvWorker Val) × (receive_all rs (pull_request info o kv_id ranges (k ∷ keys) w).0
          ≡ ok (w', at_last (some_vals (map f (k ∷ keys))) rs))
        × IsDone kv_id (next_ts kv_id w.tracker) w'
  unfolding fill_vals
  pull_request-Delivers f info o kv_id b ranges k keys w [] tiles s below fresh answered arrival =
      let none_given = fill_vals-Arrival f (k ∷ keys) b ranges [] tiles s below arrival in cc
  pull_request-Delivers f info o kv_id b ranges k keys w (r ∷ rs) tiles s below fresh answered
        arrival =
      let send : KvPairs Val = record { keys = k ∷ keys; vals = [] } in
      let count : length (map received (r ∷ rs)) ≡ wait_num (slice send ranges) =
        length-Arrival (answers f (slice send ranges)) (map received (r ∷ rs)) arrival
        ∙ length-answers f (slice send ranges) (slice-IsMarked send b ranges tiles) in
      let (w', e, done) =
        receive_all-IsDone kv_id (next_ts kv_id w.tracker) (wait_num (slice send ranges)) 0 [] _ r
          rs (pull_request-Waits info o kv_id ranges (k ∷ keys) w fresh) answered
          (omega (arith, length-map received (r ∷ rs), count)) in
      let given : List Val → Result (KvWorker Val × List (Option (Delivery Val))) =
        λ vs. ok (w', at_last (some_vals vs) (r ∷ rs)) in
      (
        w',
        e
            ∙ ap given (
                fill_vals-Arrival f (k ∷ keys) b ranges (map received (r ∷ rs)) tiles s below
                  arrival),
        done,
      )
