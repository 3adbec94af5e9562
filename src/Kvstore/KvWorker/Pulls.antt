-- ===== src/Kvstore/KvWorker/Pulls.antt =====
-- kvstore/kvworker.hpp: `Pull_`, `PullChunks` and `PullChunksWithMinClock` as a whole: the request, its
-- callback and the messages.
pub mod Lifecycle
use flexps_paper_version.Common.{ℕ, Bool, List, Result, ok, ◌>>=◌}
use flexps_paper_version.Kvstore.Ranges.{Range}
use flexps_paper_version.Kvstore.KvWorker.{PsInfo, Options, Message, pull}
use flexps_paper_version.Kvstore.KvWorker.Chunks.{pull_chunks}
use flexps_paper_version.Kvstore.KvWorker.Replies.{KvWorker, add_callback, to_vals, to_chunks}

module _ {Val : Type 0} (info : PsInfo) (o : Options) where
  -- The worker, the timestamp and the messages.
  unfoldable pub pull_request :
      (kv_id : ℕ) → List Range → List ℕ → KvWorker Val → KvWorker Val × ℕ × List (Message Val)
  unfolding pull add_callback
  pull_request kv_id ranges keys w =
      let asked = pull info o kv_id ranges keys w.tracker in
      (add_callback kv_id asked.1 to_vals (record w { tracker = asked.0 }), asked.1, asked.2)

  -- `places` is the number of chunks given to be filled.
  unfoldable pub pull_chunks_request :
      (with_min_clock : Bool)
      → (kv_id chunk_size chunk_num : ℕ) → List Range
      → List ℕ
      → (places : ℕ) → KvWorker Val
      → Result (KvWorker Val × ℕ × List (Message Val))
  unfolding pull_chunks add_callback
  pull_chunks_request with_min_clock kv_id chunk_size chunk_num ranges ids places w =
      pull_chunks info o with_min_clock kv_id chunk_size ranges ids places w.tracker >>= λ asked.
      ok (
        add_callback kv_id asked.1 (to_chunks with_min_clock chunk_size chunk_num)
            (record w { tracker = asked.0 }),
        asked.1,
        asked.2,
      )
