-- ===== src/Kvstore/RangeManager.antt =====
-- kvstore/range_manager.hpp and range_manager.cpp: which server owns which keys. `num_servers_` is
-- -1 until it is set; that is 0 here, and both fail the assertions. Keys are uint64_t, so products
-- wrap; the vectors are indexed by kv_id.
pub mod Chunks
pub mod Keys
pub mod Lookup
use flexps_paper_version.Common.{
  ℕ, zero, suc, ◌+◌, ◌-◌, ◌*◌, ◌/◌, ◌%◌, ◌^◌, Bool, true, false, not, ◌&&◌, List, [], ◌∷◌, ◌++◌,
  map, Result, ok, err, failed_assert, out_of_range, ◌>>=◌, read, ltb, leb, ◌==◌, if◌then◌else◌,
  length, get_or, set, grow, Option, none, some,
}
use flexps_paper_version.Kvstore.Ranges.{Range, range, size, u64_mod}

pub record RangeManager : Type 0 where
  pub num_servers : ℕ
  pub server_key_ranges : List (List Range)
  pub server_chunk_ranges : List (List Range)
  pub max_keys : List ℕ
  pub chunk_sizes : List ℕ
  pub chunk_nums : List ℕ

abbrev pub default_chunk_size : ℕ
default_chunk_size = 100

-- `Clear`.
unfoldable pub clear : RangeManager
clear = record {
  num_servers = 0;
  server_key_ranges = [];
  server_chunk_ranges = [];
  max_keys = [];
  chunk_sizes = [];
  chunk_nums = [];
}

unfoldable pub set_num_servers : ℕ → RangeManager → RangeManager
set_num_servers n m = record m { num_servers = n }

-- for (i = ...; count rounds; ++i) push_back(Range(start + i * width, start + (i + 1) * width)).
unfoldable pub spans : (start width i count : ℕ) → List Range
spans start width i zero = []
spans start width i (suc count) =
    range (start + i * width) (start + (i + 1) * width) ∷ spans start width (i + 1) count

-- The chunks of each server: `remain` servers have one more than the others.
unfoldable pub chunk_ranges : (num_servers chunk_num : ℕ) → List Range
unfolding spans
chunk_ranges num_servers chunk_num =
    let base = chunk_num / num_servers in
    let remain = chunk_num % num_servers in
    let end = remain * (base + 1) in
    spans 0 (base + 1) 0 remain
    ++ (spans end base 0 (num_servers - remain - 1)
        ++ (range (end + (num_servers - remain - 1) * base) chunk_num ∷ []))

unfoldable pub to_keys : ℕ → Range → Range
to_keys chunk_size r = range (r.begin * chunk_size % u64_mod) (r.end * chunk_size % u64_mod)

-- `back() = Range(back().begin(), max_key)`.
unfoldable pub cap_last : ℕ → List Range → List Range
cap_last max_key [] = []
cap_last max_key (r ∷ []) = range r.begin max_key ∷ []
cap_last max_key (r ∷ s ∷ rs) = r ∷ cap_last max_key (s ∷ rs)

-- What the backward loop does to a range in front of `next`.
unfoldable pub shrink : Range → Range → Range
shrink r next =
    if ltb next.begin r.begin then range next.begin next.begin else range r.begin next.begin

unfoldable pub clip_step : Range → Bool × List Range → Bool × List Range
unfolding shrink
clip_step r (true, []) = (true, r ∷ [])
clip_step r (true, next ∷ rs) =
    if ltb next.begin r.end then (true, shrink r next ∷ next ∷ rs) else (false, r ∷ next ∷ rs)
clip_step r (false, rs) = (false, r ∷ rs)

-- The last range, and the loop from the one before it to the front; the flag says whether the loop
-- still runs, that is, has not met its `break`.
unfoldable pub clip : ℕ → List Range → Bool × List Range
unfolding clip_step
clip max_key [] = (true, [])
clip max_key (r ∷ []) = (true, (if ltb r.end r.begin then range max_key max_key else r) ∷ [])
clip max_key (r ∷ s ∷ rs) = clip_step r (clip max_key (s ∷ rs))

unfoldable pub key_ranges : (max_key chunk_size : ℕ) → List Range → List Range
unfolding to_keys cap_last clip
key_ranges max_key chunk_size chunks =
    (clip max_key (cap_last max_key (map (to_keys chunk_size) chunks))).1

-- `(max_key - 1) / chunk_size + 1` on uint64_t.
unfoldable pub chunk_count : (max_key chunk_size : ℕ) → ℕ
chunk_count max_key chunk_size = ((max_key + u64_mod - 1) % u64_mod / chunk_size + 1) % u64_mod

unfoldable pub resize : ℕ → RangeManager → RangeManager
resize n m = record m {
  server_key_ranges = grow n [] m.server_key_ranges;
  server_chunk_ranges = grow n [] m.server_chunk_ranges;
  max_keys = grow n 0 m.max_keys;
  chunk_sizes = grow n 0 m.chunk_sizes;
  chunk_nums = grow n 0 m.chunk_nums;
}

-- The writes at `kv_id` that both setters end with.
unfoldable pub write :
    (kv_id max_key chunk_size chunk_num : ℕ)
    → (keys chunks : List Range) → RangeManager
    → RangeManager
unfolding resize
write kv_id max_key chunk_size chunk_num keys chunks m =
    let m' = resize (suc kv_id) m in
    record m' {
      server_key_ranges = set m'.server_key_ranges kv_id keys;
      server_chunk_ranges = set m'.server_chunk_ranges kv_id chunks;
      max_keys = set m'.max_keys kv_id max_key;
      chunk_sizes = set m'.chunk_sizes kv_id chunk_size;
      chunk_nums = set m'.chunk_nums kv_id chunk_num;
    }

unfoldable pub set_max_key_and_chunk_size :
    (kv_id max_key chunk_size : ℕ) → RangeManager → Result RangeManager
unfolding chunk_ranges key_ranges chunk_count write
set_max_key_and_chunk_size kv_id max_key chunk_size m =
    if m.num_servers == 0
    then err failed_assert
    else let chunk_num = chunk_count max_key chunk_size in
      let chunks = chunk_ranges m.num_servers chunk_num in
      ok (write kv_id max_key chunk_size chunk_num (key_ranges max_key chunk_size chunks) chunks m)

unfoldable pub customize_ranges :
    (kv_id max_key chunk_size chunk_num : ℕ)
    → (keys chunks : List Range) → RangeManager
    → Result RangeManager
unfolding write
customize_ranges kv_id max_key chunk_size chunk_num keys chunks m =
    if not (m.num_servers == 0) && (length keys == m.num_servers && length chunks == m.num_servers)
    then ok (write kv_id max_key chunk_size chunk_num keys chunks m)
    else err failed_assert

-- The number of leading ranges that begin at or before the key: where the loop of
-- `GetServerFromKey` stops. The list has `num_servers_` ranges.
unfoldable pub leading : ℕ → List Range → ℕ
leading key [] = 0
leading key (r ∷ rs) = let rest = leading key rs in if leb r.begin key then suc rest else 0

-- `i - 1`; `none` is the -1 that comes out if even the first range begins behind the key.
unfoldable pub server_from_key : ℕ → List Range → Option ℕ
unfolding leading
server_from_key key rs = elim (leading key rs) [ zero ↦ none | suc i ↦ some i ]

unfoldable pub get_server_from_key : (kv_id key : ℕ) → RangeManager → Option ℕ
unfolding server_from_key
get_server_from_key kv_id key m = server_from_key key (get_or m.server_key_ranges kv_id [])

unfoldable pub get_chunk_size : ℕ → RangeManager → ℕ
get_chunk_size kv_id m = get_or m.chunk_sizes kv_id 0

unfoldable pub get_chunk_num : ℕ → RangeManager → ℕ
get_chunk_num kv_id m = get_or m.chunk_nums kv_id 0

unfoldable pub get_max_key : ℕ → RangeManager → ℕ
get_max_key kv_id m = get_or m.max_keys kv_id 0

unfoldable pub get_server_from_chunk : (kv_id chunk_id : ℕ) → RangeManager → Option ℕ
unfolding get_server_from_key get_chunk_size
get_server_from_chunk kv_id chunk_id m =
    get_server_from_key kv_id (chunk_id * get_chunk_size kv_id m % u64_mod) m

unfoldable pub get_last_chunk_size : ℕ → RangeManager → ℕ
unfolding get_max_key get_chunk_size
get_last_chunk_size kv_id m =
    let rest = get_max_key kv_id m % get_chunk_size kv_id m in
    if rest == 0 then get_chunk_size kv_id m else rest

-- <chunk, offset in the chunk>.
unfoldable pub get_location : (kv_id key : ℕ) → RangeManager → Result (ℕ × ℕ)
unfolding get_max_key get_chunk_size
get_location kv_id key m =
    if ltb key (get_max_key kv_id m)
    then ok (key / get_chunk_size kv_id m, key % get_chunk_size kv_id m)
    else err failed_assert

-- `int` from uint64_t, widened again where it is subtracted from a key: sign-extended.
unfoldable pub int_of_u64 : ℕ → ℕ
int_of_u64 x = let low = x % 2 ^ 32 in if ltb low (2 ^ 31) then low else low + (u64_mod - 2 ^ 32)

-- `.at(kv_id).at(server_id).begin()`.
unfoldable pub get_server_interval : (kv_id server_id : ℕ) → RangeManager → Result ℕ
unfolding int_of_u64
get_server_interval kv_id server_id m =
    read m.server_key_ranges kv_id >>= λ rs. read rs server_id >>= λ r. ok (int_of_u64 r.begin)

unfoldable pub get_server_size : (kv_id server_id : ℕ) → RangeManager → Result ℕ
unfolding size
get_server_size kv_id server_id m =
    read m.server_key_ranges kv_id >>= λ rs. read rs server_id >>= λ r. ok (size r)
