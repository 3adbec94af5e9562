-- ===== src/Kvstore/KvWorker/Examples.antt =====
-- Tests and witnesses for the worker: two servers over thirteen keys, in chunks of five.
use flexps_paper_version.Common.{
  ℕ, ◌+◌, ◌*◌, ◌≡◌, refl, true, false, none, some, List, [], ◌∷◌, map, ok, err, ◌>>=◌, All,
  failed_assert, arith,
}
use flexps_paper_version.Common.Members.{has}
use flexps_paper_version.Kvstore.Ranges.{Range, range, Tiles}
use flexps_paper_version.Kvstore.Handles.{KvPairs}
use flexps_paper_version.Kvstore.KvWorker.{PsInfo, Options, slice, zpush, pull}
use flexps_paper_version.Kvstore.KvWorker.Chunks.{partition_chunks, push_chunks, pull_chunks}
use flexps_paper_version.Kvstore.KvWorker.Slices.{all_keys, all_vals, IsCut, slice-IsCut}
use flexps_paper_version.Kvstore.KvWorker.Partition.{IsPartition, partition_chunks-IsPartition}
use flexps_paper_version.Kvstore.Messages.{Reply}
use flexps_paper_version.Kvstore.KvWorker.Pulls.{pull_request}
use flexps_paper_version.Kvstore.KvWorker.Pulls.Lifecycle.{IsFresh, next_ts, pull_request-Delivers}
use flexps_paper_version.Kvstore.KvWorker.Replies.Rounds.{IsAnswer, IsDone, at_last}
use flexps_paper_version.Kvstore.KvWorker.Replies.{
  Received, KvWorker, fill_vals, receive_all, lookup, some_vals,
}
use flexps_paper_version.Kvstore.KvWorker.Replies.Assembly.{
  Arrival, Inserted, answers, fill_vals-Arrival,
}

abbrev key_ranges : List Range
key_ranges = range 0 10 ∷ range 10 13 ∷ []

abbrev wanted : List ℕ
wanted = 3 ∷ 4 ∷ 11 ∷ []

abbrev pushed : KvPairs ℕ
pushed = record { keys = wanted; vals = 30 ∷ 40 ∷ 110 ∷ [] }

abbrev info : PsInfo
info = record { global_id = 7; local_server_ids = 1 ∷ []; server_id_to_global_id = λ i. 100 + i }

abbrev options : Options
options = record { send_all = true; local_zero_copy = true; consistency_control = true }

program : Unit {0}
unfolding slice zpush pull partition_chunks push_chunks pull_chunks fill_vals answers has
    pull_request receive_all lookup
program = tt

slice_test : map (λ s. s.kvs.keys) (slice pushed key_ranges) ≡ (3 ∷ 4 ∷ []) ∷ (11 ∷ []) ∷ []
unfolding program
slice_test = refl

zpush_test :
    map {B = ℕ × ℕ} (λ m. (m.dst, m.cmd)) (zpush info options 0 key_ranges pushed []).2
    ≡ (100, 0) ∷ (101, 2) ∷ []
unfolding program
zpush_test = refl

partition_test : partition_chunks 5 (0 ∷ 2 ∷ []) key_ranges ≡ ok (0 ∷ 1 ∷ 2 ∷ [])
unfolding program
partition_test = refl

options_test :
    pull_chunks {Val = ℕ} info options true 0 5 key_ranges (0 ∷ 2 ∷ []) 1 [] ≡ err failed_assert
unfolding program
options_test = refl

tiles : Tiles 0 13 key_ranges
tiles = (refl, omega arith, (refl, omega arith, refl))

slice-IsCut_example :
    (all_keys (slice pushed key_ranges) ≡ wanted)
    × (all_vals (slice pushed key_ranges) ≡ 30 ∷ 40 ∷ 110 ∷ [])
    × IsCut (slice pushed key_ranges) key_ranges
slice-IsCut_example =
    slice-IsCut pushed 13 1 key_ranges tiles
      ((omega arith, (omega arith, tt)), ((omega arith, tt), (tt, tt)))
      (omega arith, (omega arith, (omega arith, tt))) refl

partition_chunks-IsPartition_example :
    (pos : List ℕ) × (partition_chunks 5 (0 ∷ 2 ∷ []) key_ranges ≡ ok (0 ∷ pos))
    × IsPartition 5 (0 ∷ 2 ∷ []) 0 pos key_ranges
partition_chunks-IsPartition_example =
    partition_chunks-IsPartition 5 13 (0 ∷ 2 ∷ []) (range 0 10) (range 10 13 ∷ []) tiles
      (omega arith) ((omega arith, tt), (tt, tt)) (omega arith, (omega arith, tt))

abbrev first : Received ℕ
first = record { kvs = record { keys = 3 ∷ 4 ∷ []; vals = 30 ∷ 40 ∷ [] }; min_clock = none }

abbrev second : Received ℕ
second = record { kvs = record { keys = 11 ∷ []; vals = 110 ∷ [] }; min_clock = none }

-- The second server answers first.
arrival :
    Arrival
      (answers (λ k. 10 * k) (slice (record { keys = wanted; vals = [] }) key_ranges))
      (second ∷ first ∷ [])
unfolding program
arrival =
    Arrival.arrive first (second ∷ []) (second ∷ []) (second ∷ first ∷ [])
      (Arrival.arrive second [] [] (second ∷ []) Arrival.nil (Inserted.here []))
      (Inserted.later second [] (first ∷ []) (Inserted.here []))

fill_vals-Arrival_example : fill_vals (second ∷ first ∷ []) ≡ map (λ k. 10 * k) wanted
fill_vals-Arrival_example =
    fill_vals-Arrival (λ k. 10 * k) wanted 13 key_ranges (second ∷ first ∷ []) tiles
      ((omega arith, (omega arith, tt)), ((omega arith, tt), (tt, tt)))
      (omega arith, (omega arith, (omega arith, tt))) arrival

abbrev worker : KvWorker ℕ
worker = record { process_map = 0 ∷ []; tracker = []; recv_kvs = []; callbacks = [] }

abbrev reply : ℕ → KvPairs ℕ → Reply (KvPairs ℕ)
reply cmd res = record {
  kv_id = 0;
  ts = 0;
  cmd = cmd;
  push = false;
  src = 7;
  res = res;
  min_clock = none;
}

-- Nothing after the first reply, the values after the second.
lifecycle_test :
    (receive_all
        (reply 2 second.kvs ∷ reply 0 first.kvs ∷ [])
        (pull_request info options 0 key_ranges wanted worker).0
      >>= λ done. ok done.1)
    ≡ ok (none ∷ some (some_vals (30 ∷ 40 ∷ 110 ∷ [])) ∷ [])
unfolding program
lifecycle_test = refl

fresh : IsFresh 0 worker
unfolding program
fresh = record { known = refl; no_replies = refl }

abbrev came : List (Reply (KvPairs ℕ))
came = reply 2 second.kvs ∷ reply 0 first.kvs ∷ []

answered : All (IsAnswer 0 0) came
answered = (
  record { same_kv = refl; same_ts = refl; is_pull = refl; no_clock = refl; some_keys = refl },
  (
    record { same_kv = refl; same_ts = refl; is_pull = refl; no_clock = refl; some_keys = refl },
    tt,
  ),
)

pull_request-Delivers_example :
    (w' : KvWorker ℕ) × (receive_all came (pull_request info options 0 key_ranges wanted worker).0
      ≡ ok (w', at_last (some_vals (map (λ k. 10 * k) wanted)) came))
    × IsDone 0 (next_ts 0 []) w'
pull_request-Delivers_example =
    pull_request-Delivers (λ k. 10 * k) info options 0 13 key_ranges 3 (4 ∷ 11 ∷ []) worker came
      tiles ((omega arith, (omega arith, tt)), ((omega arith, tt), (tt, tt)))
      (omega arith, (omega arith, (omega arith, tt))) fresh answered arrival
