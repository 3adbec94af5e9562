-- ===== src/Kvstore/KvWorker/Chunks.antt =====
-- kvstore/kvworker.hpp: chunks sliced over the servers, for `PushChunks` and `PullChunks`.
use flexps_paper_version.Common.{
  ℕ, suc, ◌+◌, ◌*◌, ◌%◌, Bool, true, false, not, ◌&&◌, List, [], ◌∷◌, Result, ok, err,
  failed_assert, out_of_range, incompatible_options, ◌>>=◌, leb, ◌==◌, if◌then◌else◌, length,
}
use flexps_paper_version.Common.Segments.{segment}
use flexps_paper_version.Kvstore.Ranges.{Range, u64_mod}
use flexps_paper_version.Kvstore.Messages.{consistency_control_off_magic, with_min_clock_magic}
use flexps_paper_version.Kvstore.KvWorker.{
  PsInfo, Options, is_local, local_zero_copy_magic, Tracker, new_request, Message, Payload, chunks,
  no_payload,
}

-- The positions that are left when the chunk ids are used up.
unfoldable pub fill : ℕ → List Range → List ℕ
fill n [] = []
fill n (r ∷ rs) = n ∷ fill n rs

-- `pos[1]` to `pos[n]`: the loops of `PartitionChunks_`, at chunk `i` and the first of the ranges
-- that are left. The assertion fails when the last range is passed.
unfoldable pub partition_from : (chunk_size total i : ℕ) → List ℕ → List Range → Result (List ℕ)
unfolding fill
partition_from chunk_size total i [] rs = ok (fill total rs)
partition_from chunk_size total i (c ∷ cs) [] = err failed_assert
partition_from chunk_size total i (c ∷ cs) (r ∷ rs) = elim (leb r.end (c * chunk_size % u64_mod)) [
  | true ↦ partition_from chunk_size total i (c ∷ cs) rs >>= λ pos. ok (i ∷ pos)
  | false ↦ partition_from chunk_size total (suc i) cs (r ∷ rs)
]

-- Without a server the read of `ranges[0]` is out of range.
unfoldable pub partition_chunks : (chunk_size : ℕ) → List ℕ → List Range → Result (List ℕ)
unfolding partition_from
partition_chunks chunk_size [] [] = ok (0 ∷ [])
partition_chunks chunk_size (c ∷ cs) [] = err out_of_range
partition_chunks chunk_size ids (r ∷ rs) =
    partition_from chunk_size (length ids) 0 ids (r ∷ rs) >>= λ pos. ok (0 ∷ pos)

-- Between neighbouring positions that differ lies a request that is answered.
unfoldable pub wait_num_chunks : (p : ℕ) → List ℕ → ℕ
wait_num_chunks p [] = 0
wait_num_chunks p (q ∷ qs) = (if p == q then 0 else 1) + wait_num_chunks q qs

unfoldable pub get_timestamp_chunk : (kv_id : ℕ) → (p : ℕ) → List ℕ → Tracker → Tracker × ℕ
unfolding wait_num_chunks new_request
get_timestamp_chunk kv_id p qs tracker = new_request kv_id (wait_num_chunks p qs) tracker

unfoldable pub chunk_cmd : (here with_min_clock consistency_control : Bool) → ℕ
chunk_cmd here with_min_clock consistency_control =
    1
    + (if here then local_zero_copy_magic else 0)
    + (if with_min_clock then with_min_clock_magic else 0)
    + (if consistency_control then 0 else consistency_control_off_magic)

-- `chunks[j]` of the push for the positions of [p, q); no chunks for a pull.
unfoldable pub chunk_payload :
    {Val : Type 0} → (push : Bool) → List ℕ → List (List Val) → (p q : ℕ) → Payload Val
unfolding segment
chunk_payload push ids cs p q =
    if p == q then no_payload else chunks (segment p q ids) (if push then segment p q cs else [])

-- `SendChunks_`, from server `i` on, whose chunks begin at `p`. Both options at once throw.
unfoldable pub send_chunks_from :
    {Val : Type 0}
    → PsInfo
    → Options
    → (with_min_clock : Bool) → (kv_id ts : ℕ) → (push : Bool) → List ℕ
    → List (List Val)
    → (i p : ℕ) → List ℕ
    → Result (List (Message Val))
unfolding is_local chunk_cmd chunk_payload
send_chunks_from info o with_min_clock kv_id ts push ids cs i p [] = ok []
send_chunks_from info o with_min_clock kv_id ts push ids cs i p (q ∷ qs) =
    let rest = send_chunks_from info o with_min_clock kv_id ts push ids cs (suc i) q qs in
    let message : Message _ = record {
      dst = info.server_id_to_global_id i;
      kv_id = kv_id;
      ts = ts;
      cmd = chunk_cmd (is_local info o i) with_min_clock o.consistency_control;
      push = push;
      src = info.global_id;
      payload = chunk_payload push ids cs p q;
    } in
    if not o.send_all && p == q
    then rest
    else if with_min_clock && not o.consistency_control
    then err incompatible_options
    else rest >>= λ messages. ok (message ∷ messages)

-- `PushChunks`, and the sends of `PullChunks` (no chunks) and `PullChunksWithMinClock`. The
-- positions have one more entry than there are servers.
unfoldable pub request_chunks :
    {Val : Type 0}
    → PsInfo
    → Options
    → (with_min_clock push : Bool) → (kv_id chunk_size : ℕ) → List Range
    → List ℕ
    → List (List Val)
    → Tracker
    → Result (Tracker × ℕ × List (Message Val))
unfolding partition_chunks get_timestamp_chunk send_chunks_from
request_chunks info o with_min_clock push kv_id chunk_size ranges ids cs tracker =
    partition_chunks chunk_size ids ranges >>= λ pos. elim pos [
      | [] ↦ err out_of_range
      | ◌∷◌ p qs ↦
          let asked = get_timestamp_chunk kv_id p qs tracker in
          send_chunks_from info o with_min_clock kv_id asked.1 push ids cs 0 p qs >>= λ messages.
          ok (asked.0, asked.1, messages)
    ]

-- `assert(chunk_ids.size() == chunks.size())`.
unfoldable pub push_chunks :
    {Val : Type 0}
    → PsInfo
    → Options
    → (kv_id chunk_size : ℕ) → List Range
    → List ℕ
    → List (List Val)
    → Tracker
    → Result (Tracker × ℕ × List (Message Val))
unfolding request_chunks
push_chunks info o kv_id chunk_size ranges ids cs tracker =
    if length ids == length cs
    then request_chunks info o false true kv_id chunk_size ranges ids cs tracker
    else err failed_assert

-- `PullChunksWithMinClock` asks with consistency control; `places` is the number of chunks given to
-- be filled.
unfoldable pub pull_chunks :
    {Val : Type 0}
    → PsInfo
    → Options
    → (with_min_clock : Bool) → (kv_id chunk_size : ℕ) → List Range
    → List ℕ
    → (places : ℕ) → Tracker
    → Result (Tracker × ℕ × List (Message Val))
unfolding request_chunks
pull_chunks info o with_min_clock kv_id chunk_size ranges ids places tracker =
    let asked = if with_min_clock then record o { consistency_control = true } else o in
    if length ids == places
    then request_chunks info asked with_min_clock false kv_id chunk_size ranges ids [] tracker
    else err failed_assert
