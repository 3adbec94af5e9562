-- ===== src/Kvstore/RangeManager/Lookup.antt =====
-- Who owns a key: `GetServerFromKey`, `GetServerFromChunk` and `GetLocation` of
-- kvstore/range_manager.hpp on the ranges that `SetMaxKeyAndChunkSize` sets.
use native.Mathlib.Decide.{dec_le}
use flexps_paper_version.Common.{
  ℕ, suc, ◌+◌, ◌*◌, ◌/◌, ◌%◌, ◌≤◌, ◌<◌, min, ◌≡◌, ◌∙◌, refl, sym, some, List, [], ◌∷◌, map, ok,
  ok-injective, arith, get_elem?, get_or, get_or-set-grow, leb, lt→ltb, ==_refl, le→leb,
  lt→leb_false, ne→==_false,
}
use flexps_paper_version.Kvstore.Ranges.{Range, Tiles, u64_mod}
use flexps_paper_version.Kvstore.RangeManager.{
  RangeManager, resize, write, set_max_key_and_chunk_size, key_ranges, chunk_ranges, chunk_count,
  leading, server_from_key, get_server_from_key, get_server_from_chunk, get_chunk_size, get_max_key,
  get_location,
}
use flexps_paper_version.Kvstore.RangeManager.Keys.{
  capped, key_ranges-eq-capped, key_ranges-Tiles, chunk_count_covers,
}

-- The range at `i` holds the key.
abbrev pub Holds : ℕ → List Range → ℕ → Type 0
Holds key rs i = (r : Range) × (get_elem? rs i ≡ some r) × (r.begin ≤ key) × (key < r.end)

leading-Holds :
    (key a b : ℕ) (rs : List Range)
    → Tiles a b rs
    → a ≤ key
    → key < b
    → (i : ℕ) × (leading key rs ≡ suc i) × Holds key rs i
unfolding leading
leading-Holds key a b [] tiles above below = absurd (omega arith)
leading-Holds key a b (r ∷ []) (begins, ordered, ends) above below =
    (0, ground arith, (r, refl, omega arith, omega arith))
leading-Holds key a b (r ∷ s ∷ rs) (begins, ordered, tiles) above below = elim (dec_le r.end key) [
  | yes past ↦
      let (i, e, held) = leading-Holds key r.end b (s ∷ rs) tiles past below in
      (suc i, rw (e, le→leb r.begin key (omega arith)), held)
  | no inside ↦ (0, ground arith, (r, refl, omega arith, omega arith))
]

-- In ranges that cut up [0, b) every key below `b` has a server, and that server's range holds it.
pub server_from_key-Holds :
    (key b : ℕ) (rs : List Range)
    → Tiles 0 b rs
    → key < b
    → (i : ℕ) × (server_from_key key rs ≡ some i) × Holds key rs i
unfolding server_from_key
server_from_key-Holds key b rs tiles below =
    let (i, e, held) = leading-Holds key 0 b rs tiles (omega arith) below in
    (i, rw (e, server_from_key), held)

module _ (max_key chunk_size : ℕ) (some_size : 0 < chunk_size) where
  -- A scaled range begins at or before a key exactly when it begins at or before its chunk.
  begin_le_iff :
      (key b : ℕ)
      → key < max_key
      → leb (min (b * chunk_size) max_key) key
        ≡ leb (min (b * chunk_size) max_key) (key / chunk_size * chunk_size)
  begin_le_iff key b below =
      let chunk = key / chunk_size in
      let low : chunk * chunk_size ≤ key = grind arith in
      let high : key < (chunk + 1) * chunk_size = grind arith in
      elim (dec_le b chunk) [
        | yes before ↦
            let scaled : b * chunk_size ≤ chunk * chunk_size = grind arith in
            rw (
              le→leb (min (b * chunk_size) max_key) key (omega arith),
              le→leb (min (b * chunk_size) max_key) (chunk * chunk_size) (omega arith),
            )
        | no behind ↦
            let scaled : (chunk + 1) * chunk_size ≤ b * chunk_size = grind arith in
            rw (
              lt→leb_false (min (b * chunk_size) max_key) key (omega arith),
              lt→leb_false (min (b * chunk_size) max_key) (chunk * chunk_size) (omega arith),
            )
      ]

  leading-chunk :
      (key : ℕ) (rs : List Range)
      → key < max_key
      → leading key (map (capped max_key chunk_size) rs)
        ≡ leading (key / chunk_size * chunk_size) (map (capped max_key chunk_size) rs)
  unfolding leading
  leading-chunk key [] below = refl
  leading-chunk key (r ∷ rs) below = rw (begin_le_iff key r.begin below, leading-chunk key rs below)

server_from_key_cong :
    (key key' : ℕ) (rs : List Range)
    → leading key rs ≡ leading key' rs
    → server_from_key key rs ≡ server_from_key key' rs
unfolding server_from_key
server_from_key_cong key key' rs e = rw (e, server_from_key)

chunk_lt :
    (key max_key size count : ℕ)
    → 0 < size
    → key < max_key
    → max_key ≤ count * size
    → key / size < count
chunk_lt key max_key size count some_size below covers = elim (dec_le count (key / size)) [
  | no inside ↦ omega arith
  | yes outside ↦
      let scaled : count * size ≤ key / size * size = grind arith in
      let low : key / size * size ≤ key = grind arith in absurd (omega arith)
]

-- What the setters write for `kv_id`.
get_or-write_keys :
    (kv_id max_key chunk_size chunk_num : ℕ) (keys chunks : List Range) (m : RangeManager)
    → get_or (write kv_id max_key chunk_size chunk_num keys chunks m).server_key_ranges kv_id []
      ≡ keys
unfolding write resize
get_or-write_keys kv_id max_key chunk_size chunk_num keys chunks m =
    get_or-set-grow kv_id kv_id keys [] m.server_key_ranges ∙ rw (==_refl kv_id)

get_or-write_sizes :
    (kv_id max_key chunk_size chunk_num : ℕ) (keys chunks : List Range) (m : RangeManager)
    → get_or (write kv_id max_key chunk_size chunk_num keys chunks m).chunk_sizes kv_id 0
      ≡ chunk_size
unfolding write resize
get_or-write_sizes kv_id max_key chunk_size chunk_num keys chunks m =
    get_or-set-grow kv_id kv_id chunk_size 0 m.chunk_sizes ∙ rw (==_refl kv_id)

get_or-write_max :
    (kv_id max_key chunk_size chunk_num : ℕ) (keys chunks : List Range) (m : RangeManager)
    → get_or (write kv_id max_key chunk_size chunk_num keys chunks m).max_keys kv_id 0 ≡ max_key
unfolding write resize
get_or-write_max kv_id max_key chunk_size chunk_num keys chunks m =
    get_or-set-grow kv_id kv_id max_key 0 m.max_keys ∙ rw (==_refl kv_id)

-- The arguments of `SetMaxKeyAndChunkSize` that its callers pass: positive sizes, a key in
-- uint64_t, and two `int`s whose product fits.
pub record IsLayout (num_servers max_key chunk_size : ℕ) : Type 0 where
  pub some_servers : 0 < num_servers
  pub some_keys : 0 < max_key
  pub fits : max_key < u64_mod
  pub some_size : 0 < chunk_size
  pub small : num_servers * chunk_size < u64_mod

module _ (kv_id max_key chunk_size : ℕ) (m : RangeManager)
    (layout : IsLayout m.num_servers max_key chunk_size) where
  abbrev chunks : List Range
  chunks = chunk_ranges m.num_servers (chunk_count max_key chunk_size)

  abbrev configured : RangeManager
  configured =
      write kv_id max_key chunk_size (chunk_count max_key chunk_size)
        (key_ranges max_key chunk_size chunks) chunks m

  set_max_key_and_chunk_size_lem :
      set_max_key_and_chunk_size kv_id max_key chunk_size m ≡ ok configured
  unfolding set_max_key_and_chunk_size
  set_max_key_and_chunk_size_lem =
      rw (ne→==_false m.num_servers 0 (omega (arith, layout.some_servers)))

  -- With a layout within the bounds, SetMaxKeyAndChunkSize succeeds, and then GetServerFromKey
  -- finds for every key below max_key a server whose key range holds it.
  pub set_max_key-Owns :
      (key : ℕ)
      → key < max_key
      → (m' : RangeManager) × (i : ℕ) × (set_max_key_and_chunk_size kv_id max_key chunk_size m
          ≡ ok m')
        × (get_server_from_key kv_id key m' ≡ some i)
        × Holds key (get_or m'.server_key_ranges kv_id []) i
  unfolding get_server_from_key
  set_max_key-Owns key below =
      let tiles =
        key_ranges-Tiles m.num_servers max_key chunk_size layout.some_servers layout.some_keys
          layout.fits layout.some_size layout.small in
      let (i, e, held) = server_from_key-Holds key max_key _ tiles below in
      let keys =
        get_or-write_keys kv_id max_key chunk_size (chunk_count max_key chunk_size)
          (key_ranges max_key chunk_size chunks) chunks m in
      (configured, i, set_max_key_and_chunk_size_lem, rw keys e, rw keys held)

  -- After SetMaxKeyAndChunkSize with a layout within the bounds, a key below max_key has the
  -- server of its chunk.
  pub get_server_from_key-chunk :
      (key : ℕ) (m' : RangeManager)
      → key < max_key
      → set_max_key_and_chunk_size kv_id max_key chunk_size m ≡ ok m'
      → get_server_from_key kv_id key m' ≡ get_server_from_chunk kv_id (key / chunk_size) m'
  unfolding get_server_from_chunk get_server_from_key get_chunk_size server_from_key
  get_server_from_key-chunk key m' below done =
      let e = ok-injective (sym set_max_key_and_chunk_size_lem ∙ done) in
      let keys =
        get_or-write_keys kv_id max_key chunk_size (chunk_count max_key chunk_size)
          (key_ranges max_key chunk_size chunks) chunks m in
      let sizes =
        get_or-write_sizes kv_id max_key chunk_size (chunk_count max_key chunk_size)
          (key_ranges max_key chunk_size chunks) chunks m in
      let capped_keys =
        key_ranges-eq-capped m.num_servers max_key chunk_size layout.some_servers layout.some_keys
          layout.fits layout.some_size layout.small in
      let low : key / chunk_size * chunk_size ≤ key = grind arith in
      let fits : key / chunk_size * chunk_size % u64_mod ≡ key / chunk_size * chunk_size =
        omega (arith, layout.fits) in
      rw (← e, keys, sizes, fits, capped_keys)
        (server_from_key_cong key (key / chunk_size * chunk_size)
          (map (capped max_key chunk_size) chunks)
          (leading-chunk max_key chunk_size layout.some_size key chunks below))

  -- After SetMaxKeyAndChunkSize with a layout within the bounds, GetLocation splits a key below
  -- max_key into an existing chunk and an offset within it that give back the key.
  pub get_location_roundtrip :
      (key : ℕ) (m' : RangeManager)
      → key < max_key
      → set_max_key_and_chunk_size kv_id max_key chunk_size m ≡ ok m'
      → (loc : ℕ × ℕ) × (get_location kv_id key m' ≡ ok loc)
        × (loc.0 * chunk_size + loc.1 ≡ key)
        × (loc.1 < chunk_size)
        × (loc.0 < chunk_count max_key chunk_size)
  unfolding get_location get_max_key get_chunk_size
  get_location_roundtrip key m' below done =
      let e = ok-injective (sym set_max_key_and_chunk_size_lem ∙ done) in
      let sizes =
        get_or-write_sizes kv_id max_key chunk_size (chunk_count max_key chunk_size)
          (key_ranges max_key chunk_size chunks) chunks m in
      let max =
        get_or-write_max kv_id max_key chunk_size (chunk_count max_key chunk_size)
          (key_ranges max_key chunk_size chunks) chunks m in
      let covers =
        chunk_count_covers max_key chunk_size layout.some_keys layout.fits layout.some_size in
      (
        (key / chunk_size, key % chunk_size),
        rw (← e, sizes, max, lt→ltb _ _ below),
        grind arith,
        (let some_size = layout.some_size in grind arith),
        chunk_lt key max_key chunk_size _ layout.some_size below covers,
      )
