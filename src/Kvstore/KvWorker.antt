-- ===== src/Kvstore/KvWorker.antt =====
-- kvstore/kvworker.hpp: how a worker slices its requests over the servers, numbers them, and puts
-- the replies together. kvstore/workercustomer.cpp: how it counts the replies.
--
-- `std::lower_bound` is a scan here: on sorted keys, as the worker passes them, it is the same. An
-- array of ps_lite/sarray.h is a list. A message is what the writes to its stream are; a pointer
-- sent to a server of the same process is the value behind it.
pub mod Chunks
pub mod Replies
pub mod Slices
pub mod Requests
pub mod Partition
pub mod Pulls
mod Examples
use flexps_paper_version.Common.{
  ℕ, zero, suc, ◌+◌, ◌-◌, ◌*◌, ◌/◌, ◌%◌, Bool, true, false, not, ◌&&◌, ◌||◌, Option, none, some,
  List, [], ◌∷◌, ◌++◌, map, Result, ok, err, Error, failed_assert, out_of_range, ◌>>=◌, read, ltb,
  leb, ◌==◌, if◌then◌else◌, length, get_or, set, grow, All,
}
use flexps_paper_version.Common.Members.{has}
use flexps_paper_version.Common.Segments.{take, drop, segment}
use flexps_paper_version.Kvstore.Ranges.{Range, u64_mod}
use flexps_paper_version.Kvstore.Messages.{
  consistency_control_off_magic, with_min_clock_magic, init_cmd,
}
use flexps_paper_version.Kvstore.Handles.{KvPairs}

-- What a worker knows of the servers: its own id, and which of them are in its process.
pub record PsInfo : Type 0 where
  pub global_id : ℕ
  pub local_server_ids : List ℕ
  pub server_id_to_global_id : ℕ → ℕ

abbrev pub local_zero_copy_magic : ℕ
local_zero_copy_magic = 2

-- Slicing

-- The number of leading keys below `bound`.
unfoldable pub lower_bound : ℕ → List ℕ → ℕ
lower_bound bound [] = 0
lower_bound bound (k ∷ ks) = let rest = lower_bound bound ks in if ltb k bound then suc rest else 0

-- The positions `pos[i + 1]` from `pos[i]` on, with the keys that are left at `begin`.
unfoldable pub positions_from : ℕ → List ℕ → List Range → List ℕ
unfolding lower_bound drop
positions_from p ks [] = []
positions_from p ks (r ∷ rs) =
    let len = lower_bound r.end ks in (p + len) ∷ positions_from (p + len) (drop len ks) rs

unfoldable pub first_position : List ℕ → List Range → ℕ
unfolding lower_bound
first_position ks [] = 0
first_position ks (r ∷ rs) = lower_bound r.begin ks

pub record Slice (Val : Type 0) : Type 0 where
  pub some_keys : Bool
  pub kvs : KvPairs Val

abbrev pub nothing : {Val : Type 0} → KvPairs Val
nothing = record { keys = []; vals = [] }

-- The slice between two positions. `k` is the number of values of each key.
unfoldable pub slice_at : {Val : Type 0} → (k : ℕ) → List ℕ → List Val → (p q : ℕ) → Slice Val
unfolding segment
slice_at k keys vals p q = if q == p then record { some_keys = false; kvs = nothing } else record {
  some_keys = true;
  kvs = record { keys = segment p q keys; vals = segment (p * k) (q * k) vals };
}

unfoldable pub slices_from :
    {Val : Type 0} → (k : ℕ) → List ℕ → List Val → (p : ℕ) → List ℕ → List (Slice Val)
unfolding slice_at
slices_from k keys vals p [] = []
slices_from k keys vals p (q ∷ qs) = slice_at k keys vals p q ∷ slices_from k keys vals q qs

unfoldable pub empty_slices : {Val : Type 0} → List Range → List (Slice Val)
empty_slices [] = []
empty_slices (r ∷ rs) = record { some_keys = false; kvs = nothing } ∷ empty_slices rs

unfoldable pub slice : {Val : Type 0} → KvPairs Val → List Range → List (Slice Val)
unfolding positions_from first_position slices_from empty_slices
slice send ranges =
    if length send.keys == 0
    then empty_slices ranges
    else let first = first_position send.keys ranges in
      slices_from (length send.vals / length send.keys) send.keys send.vals first
        (positions_from first (drop first send.keys) ranges)

-- Requests

-- `tracker_`: of every store and timestamp, the replies expected and those that came.
abbrev pub Tracker : Type 0
Tracker = List (List (ℕ × ℕ))

unfoldable pub new_request : (kv_id num_responses : ℕ) → Tracker → Tracker × ℕ
unfolding grow
new_request kv_id n tracker =
    let grown = grow (suc kv_id) [] tracker in
    let requests = get_or grown kv_id [] ++ (n, 0) ∷ [] in
    (set grown kv_id requests, length requests - 1)

-- Whether the wait in `WaitRequest` ends.
unfoldable pub is_complete : (kv_id ts : ℕ) → Tracker → Result Bool
is_complete kv_id ts tracker =
    read tracker kv_id >>= λ requests. read requests ts >>= λ r. ok (r.0 == r.1)

unfoldable pub num_response : (kv_id ts : ℕ) → Tracker → Result ℕ
num_response kv_id ts tracker = read tracker kv_id >>= λ requests. read requests ts >>= λ r. ok r.1

-- What `Receiving` does with one message: whether it is the last that is expected, and the count.
unfoldable pub count_reply : (kv_id ts : ℕ) → Tracker → Result (Bool × Tracker)
count_reply kv_id ts tracker = read tracker kv_id >>= λ requests. read requests ts >>= λ r.
    ok (r.1 + 1 == r.0, set tracker kv_id (set requests ts (r.0, r.1 + 1)))

unfoldable pub wait_num : {Val : Type 0} → List (Slice Val) → ℕ
wait_num [] = 0
wait_num (s ∷ ss) = (if s.some_keys then 1 else 0) + wait_num ss

unfoldable pub get_timestamp : {Val : Type 0} → ℕ → List (Slice Val) → Tracker → Tracker × ℕ
unfolding wait_num new_request
get_timestamp kv_id sliced tracker = new_request kv_id (wait_num sliced) tracker

-- Messages

-- The payload of a message: nothing, the keys and values of a slice (only the keys for a pull over
-- the network), or chunks.
pub data Payload (Val : Type 0) : Type 0 where
  no_payload : Payload Val
  pairs : KvPairs Val → Payload Val
  chunks : List ℕ → List (List Val) → Payload Val
  num_workers : Option ℕ → Payload Val

pub record Message (Val : Type 0) : Type 0 where
  pub dst : ℕ
  pub kv_id : ℕ
  pub ts : ℕ
  pub cmd : ℕ
  pub push : Bool
  pub src : ℕ
  pub payload : Payload Val

pub record Options : Type 0 where
  pub send_all : Bool
  pub local_zero_copy : Bool
  pub consistency_control : Bool

unfoldable pub is_local : PsInfo → Options → ℕ → Bool
is_local info o i = o.local_zero_copy && has i info.local_server_ids

unfoldable pub send_cmd : Bool → Bool → ℕ
send_cmd here consistency_control =
    (if here then local_zero_copy_magic else 0)
    + (if consistency_control then 0 else consistency_control_off_magic)

unfoldable pub send_payload : {Val : Type 0} → (here push : Bool) → Slice Val → Payload Val
send_payload here push s =
    if s.some_keys
    then (if here || push then pairs s.kvs else pairs (record { keys = s.kvs.keys; vals = [] }))
    else no_payload

-- `Send_`, from server `i` on.
unfoldable pub send_from :
    {Val : Type 0}
    → PsInfo
    → Options
    → (kv_id ts : ℕ) → (push : Bool) → (i : ℕ) → List (Slice Val)
    → List (Message Val)
unfolding is_local send_cmd send_payload
send_from info o kv_id ts push i [] = []
send_from info o kv_id ts push i (s ∷ ss) =
    let rest = send_from info o kv_id ts push (suc i) ss in
    let here = is_local info o i in
    let message : Message _ = record {
      dst = info.server_id_to_global_id i;
      kv_id = kv_id;
      ts = ts;
      cmd = send_cmd here o.consistency_control;
      push = push;
      src = info.global_id;
      payload = send_payload here push s;
    } in
    if not o.send_all && not s.some_keys then rest else message ∷ rest

-- `ZPush`: the tracker, the timestamp and the messages.
unfoldable pub zpush :
    {Val : Type 0}
    → PsInfo
    → Options
    → (kv_id : ℕ) → List Range
    → KvPairs Val
    → Tracker
    → Tracker × ℕ × List (Message Val)
unfolding slice get_timestamp send_from
zpush info o kv_id ranges kvs tracker =
    let sliced = slice kvs ranges in
    let asked = get_timestamp kv_id sliced tracker in
    (asked.0, asked.1, send_from info o kv_id asked.1 true 0 sliced)

-- The sends of `Pull_`; its callback is below.
unfoldable pub pull :
    {Val : Type 0}
    → PsInfo
    → Options
    → (kv_id : ℕ) → List Range
    → List ℕ
    → Tracker
    → Tracker × ℕ × List (Message Val)
unfolding slice get_timestamp send_from
pull info o kv_id ranges keys tracker =
    let sliced = slice (record { keys = keys; vals = [] }) ranges in
    let asked = get_timestamp kv_id sliced tracker in
    (asked.0, asked.1, send_from info o kv_id asked.1 false 0 sliced)

-- `InitForConsistencyControl`: one message to every server.
unfoldable pub init_messages :
    {Val : Type 0} → PsInfo → (kv_id ts : ℕ) → Option ℕ → (i count : ℕ) → List (Message Val)
init_messages info kv_id ts n i zero = []
init_messages info kv_id ts n i (suc count) =
    record {
      dst = info.server_id_to_global_id i;
      kv_id = kv_id;
      ts = ts;
      cmd = init_cmd;
      push = true;
      src = info.global_id;
      payload = num_workers n;
    }
    ∷ init_messages info kv_id ts n (suc i) count

-- `PushLocal` and the request of `PullLocal`: one message over the network to server `dst`.
unfoldable pub request_local :
    {Val : Type 0}
    → PsInfo
    → (push : Bool) → (kv_id dst : ℕ) → KvPairs Val
    → Tracker
    → Tracker × ℕ × Message Val
unfolding new_request
request_local info push kv_id dst kvs tracker =
    let asked = new_request kv_id 1 tracker in
    (
      asked.0,
      asked.1,
      record {
        dst = info.server_id_to_global_id dst;
        kv_id = kv_id;
        ts = asked.1;
        cmd = 0;
        push = push;
        src = info.global_id;
        payload = pairs (if push then kvs else record { keys = kvs.keys; vals = [] });
      },
    )
