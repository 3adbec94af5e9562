-- ===== src/Kvstore/Examples.antt =====
-- Tests and witnesses for kvstore/: two servers over thirteen keys in chunks of five, and servers
-- with two workers over a store of numbers.
use flexps_paper_version.Common.{
  length, ℕ, ◌+◌, ◌*◌, ◌<◌, ◌≡◌, ◌≢◌, ◌↔◌, refl, Bool, true, false, none, some, List, [], ◌∷◌, ok,
  ok-injective, ◌>>=◌, arith, grow, add_at, push_at, All, get_or,
}
use flexps_paper_version.Common.Members.{has, IsDistinct}
use flexps_paper_version.Kvstore.Ranges.{range, Tiles}
use flexps_paper_version.Kvstore.RangeManager.{
  RangeManager, chunk_ranges, key_ranges, chunk_count, set_max_key_and_chunk_size,
  get_server_from_key, get_server_from_chunk, get_location, get_server_interval, get_chunk_size,
  get_chunk_num, get_last_chunk_size, get_max_key,
}
use flexps_paper_version.Kvstore.RangeManager.Chunks.{
  chunk_ranges-Tiles, chunk_ranges-IsEven, IsEven,
}
use flexps_paper_version.Kvstore.RangeManager.Keys.{key_ranges-Tiles}
use flexps_paper_version.Kvstore.RangeManager.Lookup.{
  Holds, IsLayout, set_max_key-Owns, get_server_from_key-chunk, get_location_roundtrip,
}
use flexps_paper_version.Kvstore.Handles.{
  Bin, KvPairs, Place, Store, put, interval, index, update, retrieve,
}
use flexps_paper_version.Kvstore.Handles.Commute.{update_comm}
use flexps_paper_version.Kvstore.Handles.Agree.{merge, IsPairs, retrieve-update}
use flexps_paper_version.Kvstore.Handles.Interface.{basic_handle}
use flexps_paper_version.Kvstore.Messages.{Handle, Request, Reply, answer_push, answer_pull}
use flexps_paper_version.Kvstore.SspServer
use flexps_paper_version.Kvstore.BspServer

abbrev servers : RangeManager
servers = record {
  num_servers = 2;
  server_key_ranges = [];
  server_chunk_ranges = [];
  max_keys = [];
  chunk_sizes = [];
  chunk_nums = [];
}

layout : IsLayout 2 13 5
layout = record {
  some_servers = omega arith;
  some_keys = omega arith;
  fits = omega arith;
  some_size = omega arith;
  small = omega arith;
}

program : Unit {0}
unfolding set_max_key_and_chunk_size grow get_server_from_key get_server_from_chunk get_location
    interval update retrieve get_server_interval get_chunk_size get_chunk_num get_last_chunk_size
    get_max_key index
program = tt

-- The example in the source: chunks {5, 5, 3} on servers {[0, 10), [10, 13)}.
key_ranges_test : key_ranges 13 5 (chunk_ranges 2 3) ≡ range 0 10 ∷ range 10 13 ∷ []
unfolding program
key_ranges_test = refl

-- The other one: one chunk, three servers.
key_ranges_few : key_ranges 3 10 (chunk_ranges 3 1) ≡ range 0 3 ∷ range 3 3 ∷ range 3 3 ∷ []
unfolding program
key_ranges_few = refl

chunk_ranges-Tiles_example : Tiles 0 7 (chunk_ranges 3 7) × (length (chunk_ranges 3 7) ≡ 3)
chunk_ranges-Tiles_example = chunk_ranges-Tiles 3 7 (omega arith)

chunk_ranges-IsEven_example : All (IsEven 2) (chunk_ranges 3 7)
chunk_ranges-IsEven_example = chunk_ranges-IsEven 3 7 (omega arith)

key_ranges-Tiles_example : Tiles 0 13 (key_ranges 13 5 (chunk_ranges 2 (chunk_count 13 5)))
key_ranges-Tiles_example =
    key_ranges-Tiles 2 13 5 (omega arith) (omega arith) (omega arith) (omega arith) (omega arith)

set_max_key-Owns_example :
    (m' : RangeManager) × (i : ℕ) × (set_max_key_and_chunk_size 0 13 5 servers ≡ ok m')
    × (get_server_from_key 0 11 m' ≡ some i)
    × Holds 11 (get_or m'.server_key_ranges 0 []) i
set_max_key-Owns_example = set_max_key-Owns 0 13 5 servers layout 11 (omega arith)

-- The layout that the call makes.
abbrev laid_out : RangeManager
laid_out = record {
  num_servers = 2;
  server_key_ranges = (range 0 10 ∷ range 10 13 ∷ []) ∷ [];
  server_chunk_ranges = (range 0 2 ∷ range 2 3 ∷ []) ∷ [];
  max_keys = 13 ∷ [];
  chunk_sizes = 5 ∷ [];
  chunk_nums = 3 ∷ [];
}

laid_out_lem : set_max_key_and_chunk_size 0 13 5 servers ≡ ok laid_out
unfolding program
laid_out_lem = refl

get_server_from_key-chunk_example :
    get_server_from_key 0 11 laid_out ≡ get_server_from_chunk 0 2 laid_out
get_server_from_key-chunk_example =
    get_server_from_key-chunk 0 13 5 servers layout 11 laid_out (omega arith) laid_out_lem

get_location_roundtrip_example :
    (loc : ℕ × ℕ) × (get_location 0 11 laid_out ≡ ok loc)
    × (loc.0 * 5 + loc.1 ≡ 11)
    × (loc.1 < 5)
    × (loc.0 < chunk_count 13 5)
get_location_roundtrip_example =
    get_location_roundtrip 0 13 5 servers layout 11 laid_out (omega arith) laid_out_lem

abbrev place : Place
place = record { server_id = 1; is_vector = true }

abbrev bin : List ℕ → List ℕ → List ℕ → List (List ℕ) → Bin ℕ
bin keys vals ids chunks = record {
  size = 8;
  keys = keys;
  vals = vals;
  chunk_ids = ids;
  chunks = chunks;
  next_num_workers = none;
}

abbrev zeros : Store ℕ
zeros = λ _. 0

add_swap : (x a b : ℕ) → x + a + b ≡ x + b + a
add_swap x a b = omega arith

update_comm_example :
    (update ◌+◌ laid_out place 0 0 false (bin (11 ∷ []) (4 ∷ []) [] []) zeros
      >>= update ◌+◌ laid_out place 0 1 false (bin [] [] (2 ∷ []) ((1 ∷ 2 ∷ 3 ∷ []) ∷ [])))
    ≡ (update ◌+◌ laid_out place 0 1 false (bin [] [] (2 ∷ []) ((1 ∷ 2 ∷ 3 ∷ []) ∷ [])) zeros
        >>= update ◌+◌ laid_out place 0 0 false (bin (11 ∷ []) (4 ∷ []) [] []))
update_comm_example =
    update_comm ◌+◌ add_swap laid_out place 0 0 1 (bin (11 ∷ []) (4 ∷ []) [] [])
      (bin [] [] (2 ∷ []) ((1 ∷ 2 ∷ 3 ∷ []) ∷ [])) zeros (omega arith) (omega arith)

two_keys : IsPairs laid_out place 0 (bin (12 ∷ 10 ∷ []) (4 ∷ 6 ∷ []) [] [])
unfolding program
two_keys = record {
  distinct = omega arith;
  local = λ first e. let e' = ok-injective e in rw (← e') (omega arith);
  paired = refl;
}

pushed : Store ℕ
unfolding program put
pushed = put ◌+◌ false 0 6 (put ◌+◌ false 2 4 zeros)

pushed_lem :
    update ◌+◌ laid_out place 0 0 false (bin (12 ∷ 10 ∷ []) (4 ∷ 6 ∷ []) [] []) zeros ≡ ok pushed
unfolding program pushed
pushed_lem = refl

before_lem :
    retrieve laid_out place 0 0 (bin (12 ∷ 10 ∷ []) (4 ∷ 6 ∷ []) [] []) zeros
    ≡ ok (record { keys = 12 ∷ 10 ∷ []; vals = 0 ∷ 0 ∷ [] })
unfolding program
before_lem = refl

retrieve-update_example :
    retrieve laid_out place 0 0 (bin (12 ∷ 10 ∷ []) (4 ∷ 6 ∷ []) [] []) pushed
    ≡ ok (record { keys = 12 ∷ 10 ∷ []; vals = merge ◌+◌ false (0 ∷ 0 ∷ []) (4 ∷ 6 ∷ []) })
retrieve-update_example =
    retrieve-update ◌+◌ laid_out place 0 false (bin (12 ∷ 10 ∷ []) (4 ∷ 6 ∷ []) [] [])
      (record { keys = 12 ∷ 10 ∷ []; vals = 0 ∷ 0 ∷ [] }) zeros pushed two_keys before_lem
      pushed_lem

abbrev shared : Place
shared = record { server_id = 0; is_vector = false }

abbrev store : Handle
store = basic_handle ◌+◌ laid_out shared refl

abbrev push_request : ℕ → Request (Bin ℕ)
push_request src = record {
  kv_id = 0;
  ts = 7;
  cmd = 0;
  push = true;
  src = src;
  bin = bin (3 ∷ []) (5 ∷ []) [] [];
}

abbrev pull_request : ℕ → Request (Bin ℕ)
pull_request src = record {
  kv_id = 0;
  ts = 8;
  cmd = 0;
  push = false;
  src = src;
  bin = bin (3 ∷ []) [] [] [];
}

-- The ids of the two workers of a cluster with two workers, whose servers have the ids 0 and 1.
abbrev senders : List ℕ
senders = 2 ∷ 3 ∷ []

senders-IsDistinct : IsDistinct senders
unfolding has
senders-IsDistinct = (refl, (refl, tt))

is_sender : has 3 senders ≡ true
unfolding has
is_sender = refl

-- Two workers, none of which may be more than one push ahead.
ssp_start : SspServer.State store
unfolding SspServer.start
ssp_start = SspServer.start store 2 1 zeros

ssp_start-IsValid : SspServer.Validity.IsValid store senders ssp_start
unfolding ssp_start
ssp_start-IsValid =
    (SspServer.Invariant.new-IsValid store senders 2 1 zeros senders-IsDistinct refl (omega arith)
      (omega arith)).1

ssp_process-IsValid_example :
    SspServer.Validity.Keeps store senders (SspServer.process store (push_request 3) ssp_start)
unfolding ssp_start SspServer.Validity.workers_after
ssp_process-IsValid_example =
    SspServer.Invariant.ssp_process-IsValid store senders (push_request 3) ssp_start
      (SspServer.Validity.push refl (omega arith, (refl, refl)) is_sender) ssp_start-IsValid

abbrev reply : Bool → ℕ → ℕ → KvPairs ℕ → Reply (KvPairs ℕ)
reply push ts src res = record {
  kv_id = 0;
  ts = ts;
  cmd = 0;
  push = push;
  src = src;
  res = res;
  min_clock = none;
}

abbrev value : ℕ → KvPairs ℕ
value v = record { keys = 3 ∷ []; vals = v ∷ [] }

abbrev no_value : KvPairs ℕ
no_value = record { keys = []; vals = [] }

servers_program : Unit {0}
unfolding program ssp_start SspServer.process SspServer.controlled_pull SspServer.controlled_push
    SspServer.count_push SspServer.process_push SspServer.advance SspServer.entry
    SspServer.plain_cmd SspServer.reply_clock answer_push answer_pull add_at push_at put
    SspServer.release_pushes SspServer.release_pulls
servers_program = tt

-- A pull of worker 2, whose progress the server did not keep yet.
ssp_pulled : SspServer.State store
unfolding servers_program
ssp_pulled = record ssp_start { worker_progress = 0 ∷ 0 ∷ 0 ∷ [] }

ssp_pull_lem :
    SspServer.process store (pull_request 2) ssp_start
    ≡ ok (ssp_pulled, reply false 8 2 (value 0) ∷ [])
unfolding servers_program ssp_pulled
ssp_pull_lem = refl

ssp_pull_at_once_iff_example :
    (reply false 8 2 (value 0) ∷ []) ≢ [] ↔ SspServer.Staleness.IsNear senders ssp_start 2
unfolding ssp_start SspServer.plain_cmd
ssp_pull_at_once_iff_example =
    SspServer.Staleness.ssp_pull_at_once_iff store senders (pull_request 2) ssp_start
      (ssp_pulled, reply false 8 2 (value 0) ∷ []) ssp_start-IsValid refl (omega arith)
      (omega arith) ssp_pull_lem

-- Worker 3 has pushed once, and is still near enough to push again.
ssp_pushed : SspServer.State store
unfolding servers_program
ssp_pushed = record ssp_start {
  clock_count = 1 ∷ [];
  worker_progress = 0 ∷ 0 ∷ 0 ∷ 1 ∷ [];
  store = put ◌+◌ false 3 5 zeros;
}

ssp_push_lem :
    SspServer.process store (push_request 3) ssp_start
    ≡ ok (ssp_pushed, reply true 7 3 no_value ∷ [])
unfolding servers_program ssp_pushed
ssp_push_lem = refl

ssp_push_at_once_iff_example :
    (reply true 7 3 no_value ∷ []) ≢ [] ↔ SspServer.Staleness.IsNear senders ssp_start 3
unfolding ssp_start
ssp_push_at_once_iff_example =
    SspServer.Staleness.ssp_push_at_once_iff store senders (push_request 3) ssp_start
      (ssp_pushed, reply true 7 3 no_value ∷ []) ssp_start-IsValid refl (omega arith) (omega arith)
      ssp_push_lem

-- Two workers that pull first.
bsp_start : BspServer.State store
unfolding BspServer.new
bsp_start = BspServer.new store 2 false true zeros

bsp_start-IsValid : BspServer.Validity.IsValid store senders bsp_start
unfolding bsp_start
bsp_start-IsValid =
    BspServer.Invariant.new-IsValid store senders 2 false zeros senders-IsDistinct refl
      (omega arith)

bsp_process-IsValid_example :
    BspServer.Validity.Keeps store senders (BspServer.process store (pull_request 3) bsp_start)
unfolding bsp_start BspServer.Validity.workers_after
bsp_process-IsValid_example =
    BspServer.Invariant.bsp_process-IsValid store senders (pull_request 3) bsp_start
      (BspServer.Validity.pull refl (omega arith) is_sender (omega arith)) bsp_start-IsValid

bsp_program : Unit {0}
unfolding program bsp_start BspServer.process BspServer.controlled_pull BspServer.controlled_push
    BspServer.count_pull BspServer.count_push BspServer.finish_pulls BspServer.finish_pushes
    BspServer.entry answer_push answer_pull add_at push_at put BspServer.release_pushes
    BspServer.release_pulls
bsp_program = tt

bsp_pulled : BspServer.State store
unfolding bsp_program
bsp_pulled = record bsp_start { pull_count = 1 ∷ []; pull_progress = 0 ∷ 0 ∷ 0 ∷ 1 ∷ [] }

bsp_pull_lem :
    BspServer.process store (pull_request 3) bsp_start
    ≡ ok (bsp_pulled, reply false 8 3 (value 0) ∷ [])
unfolding bsp_program bsp_pulled
bsp_pull_lem = refl

bsp_pull_at_once_iff_example :
    (reply false 8 3 (value 0) ∷ []) ≢ [] ↔ BspServer.Barrier.PushedBefore store senders bsp_start 3
unfolding bsp_start
bsp_pull_at_once_iff_example =
    BspServer.Barrier.bsp_pull_at_once_iff store senders (pull_request 3) bsp_start
      (bsp_pulled, reply false 8 3 (value 0) ∷ []) bsp_start-IsValid refl (omega arith) is_sender
      (omega arith) bsp_pull_lem

bsp_waiting : BspServer.State store
unfolding bsp_program
bsp_waiting = record bsp_start {
  push_count = 1 ∷ [];
  push_progress = 0 ∷ 0 ∷ 0 ∷ 1 ∷ [];
  blocked_pushes = (BspServer.entry store (push_request 3) ∷ []) ∷ [];
}

-- A push that comes before the pulls waits.
bsp_push_lem : BspServer.process store (push_request 3) bsp_start ≡ ok (bsp_waiting, [])
unfolding bsp_program bsp_waiting
bsp_push_lem = refl

bsp_push_at_once_iff_example :
    ◌≢◌ {A = List (Reply (KvPairs ℕ))} [] []
    ↔ BspServer.Barrier.PulledBefore store senders bsp_start 3
unfolding bsp_start
bsp_push_at_once_iff_example =
    BspServer.Barrier.bsp_push_at_once_iff store senders (push_request 3) bsp_start
      (bsp_waiting, []) bsp_start-IsValid refl (omega arith) is_sender (omega arith) bsp_push_lem
