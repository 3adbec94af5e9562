-- ===== src/Ml/ChunkBasedModel/Views.antt =====
-- ml/model/chunk_based_model.hpp: the values of the keys as the model shows them, whether a chunk is
-- cached or still in the kv store.
use flexps_paper_version.Common.{
  ℕ, zero, suc, ◌/◌, ◌%◌, ◌<◌, ◌≡◌, refl, sym, subst, ap, inl, inr, ◌⊎◌, true, false, Option, none,
  some, List, [], ◌∷◌, map, Result, ok, arith, ◌>>=◌, >>=-eq-ok, ok-injective, ◌≤◌, read, lt→ltb,
  ◌==◌, if◌then◌else◌, length, get_or, Bool-cases, ==→eq, eq→==, read-get_or, All, All-imp,
}
use native.Mathlib.Nat.{div-add-mod', div-zero, le-div_iff_mul-le}
use flexps_paper_version.Common.Members.{has}
use flexps_paper_version.Kvstore.RangeManager.{
  RangeManager, get_location, get_chunk_size, get_max_key,
}
use flexps_paper_version.Kvstore.KvWorker.Slices.{IsAscending}
use flexps_paper_version.Ml.ChunkBasedModel.{
  ChunkBasedModel, chunks_of, prepare_chunks, prepare, look_up, pull,
}
use flexps_paper_version.Ml.ChunkBasedModel.Fetching.{
  Serves, chunks_to_fetch-IsFetch, fill, fetch-eq-fill, length-fill, get_or-fill,
}

pub read-lt : {A : Type 0} (xs : List A) (i : ℕ) (a : A) → read xs i ≡ ok a → i < length xs
read-lt [] i a e = cc
read-lt (x ∷ xs) zero a e = omega arith
read-lt (x ∷ xs) (suc i) a e = omega (arith, read-lt xs i a e)

div_mono : (n x k : ℕ) → x ≤ k → x / n ≤ k / n
div_mono zero x k le = rw (div-zero x, div-zero k) (omega arith)
div_mono (suc n) x k le =
    (le-div_iff_mul-le (omega arith)).1 (omega (arith, div-add-mod' x (suc n)))

module _ (kv_id : ℕ) (rm : RangeManager) where
  abbrev pub chunk_of : ℕ → ℕ
  chunk_of k = k / get_chunk_size kv_id rm

  abbrev pub offset_of : ℕ → ℕ
  offset_of k = k % get_chunk_size kv_id rm

  abbrev pub Below : List ℕ → Type 0
  Below keys = All (λ k. k < get_max_key kv_id rm) keys

  pub get_location_below :
      (k : ℕ) → k < get_max_key kv_id rm → get_location kv_id k rm ≡ ok (chunk_of k, offset_of k)
  unfolding get_location
  get_location_below k below = rw (lt→ltb k (get_max_key kv_id rm) below) refl

module _ {Val : Type 0} (remote : ℕ → List Val) where
  -- A chunk as it is cached, or else as it is in the kv store.
  unfoldable pub chunk_at : ChunkBasedModel Val → ℕ → Result (List Val)
  chunk_at m c =
      read m.is_cached c >>= λ known. elim known [ true ↦ read m.params c | false ↦ ok (remote c) ]

  pub record Prepared (cs : List ℕ) (m m' : ChunkBasedModel Val) : Type 0 where
    pub valid : length m'.params ≡ length m'.is_cached
    pub same_length : length m'.is_cached ≡ length m.is_cached
    pub same : (j : ℕ) → j < length m.is_cached → chunk_at m' j ≡ chunk_at m j
    pub cached :
        (j : ℕ) → j < length m.is_cached → has j cs ≡ true → get_or m'.is_cached j false ≡ true

  chunk_at_of :
      (m : ChunkBasedModel Val) (j : ℕ)
      → length m.params ≡ length m.is_cached
      → j < length m.is_cached
      → chunk_at m j ≡ ok (if get_or m.is_cached j false then get_or m.params j [] else remote j)
  unfolding chunk_at
  chunk_at_of m j valid below = elim (Bool-cases (get_or m.is_cached j false)) [
    | inl e ↦
        rw (read-get_or m.is_cached j false below, e) (read-get_or m.params j [] (omega arith))
    | inr e ↦ rw (read-get_or m.is_cached j false below, e) refl
  ]

  pub prepare_chunks-Prepared :
      (reply : List ℕ → List (List Val)) (served : Serves remote reply) (cs : List ℕ)
      (m : ChunkBasedModel Val)
      → IsAscending cs
      → length m.params ≡ length m.is_cached
      → All (λ c. c < length m.is_cached) cs
      → (m' : ChunkBasedModel Val) × (prepare_chunks reply cs m ≡ ok m') × Prepared cs m m'
  unfolding prepare_chunks
  prepare_chunks-Prepared reply served cs m ascending valid below =
      let f = chunks_to_fetch-IsFetch cs m.is_cached below in
      let m' : ChunkBasedModel Val = record {
        params = fill remote f.0.0 m.params;
        is_cached = f.0.1;
      } in
      let len = length-fill remote f.0.0 m.params in
      let valid' : length m'.params ≡ length m'.is_cached = omega (arith, len, f.2.same_length) in
      let reads = λ (j : ℕ).
        get_or-fill remote f.0.0 m.params j
          (subst (λ n. All (λ c. c < n) f.0.0) (sym valid) f.2.below) in
      (
        m',
        rw (f.1, fetch-eq-fill remote reply f.0.0 m.params served (f.2.ascending ascending)) refl,
        record {
          valid = valid';
          same_length = f.2.same_length;
          same = λ j h.
              rw (chunk_at_of m j valid h, chunk_at_of m' j valid' (omega (arith, f.2.same_length)))
                (ground (arith, reads j, f.2.marked j h, f.2.fetched j h));
          cached = λ j h member. rw (f.2.marked j h, member) (ground arith);
        },
      )

  module _ (kv_id : ℕ) (rm : RangeManager) where
    unfoldable pub view : ChunkBasedModel Val → ℕ → Result Val
    unfolding chunk_at
    view m k = chunk_at m (chunk_of kv_id rm k) >>= λ chunk. read chunk (offset_of kv_id rm k)

    -- Every key below max_key has its value.
    pub record Shows (f : ℕ → Val) (m : ChunkBasedModel Val) : Type 0 where
      pub valid : length m.params ≡ length m.is_cached
      pub shows : (k : ℕ) → k < get_max_key kv_id rm → view m k ≡ ok (f k)

    -- The chunk of a key is there.
    pub Shows-lt :
        (f : ℕ → Val) (m : ChunkBasedModel Val)
        → Shows f m
        → (k : ℕ) → k < get_max_key kv_id rm
        → chunk_of kv_id rm k < length m.is_cached
    unfolding view chunk_at
    Shows-lt f m s k below =
        let known = >>=-eq-ok (chunk_at m (chunk_of kv_id rm k)) _ (s.shows k below) in
        let flag = >>=-eq-ok (read m.is_cached (chunk_of kv_id rm k)) _ (known.1) in
        read-lt m.is_cached (chunk_of kv_id rm k) flag.0 flag.1

    abbrev Covers : Option ℕ → List ℕ → List ℕ → Type 0
    Covers back cs keys =
        All (λ k. (back ≡ some (chunk_of kv_id rm k)) ⊎ (has (chunk_of kv_id rm k) cs ≡ true)) keys

    kept :
        (back : Option ℕ) (b : ℕ) (cs keys : List ℕ)
        → Covers (some b) cs keys
        → Covers back (b ∷ cs) keys
    unfolding has
    kept back b cs keys covers =
        All-imp _ _
          (λ k h. elim h [
            | inl e ↦ inr (
                let same : b ≡ chunk_of kv_id rm k = cc in
                rw (eq→== (chunk_of kv_id rm k) b (sym same)) refl)
            | inr e ↦ inr (ground (arith, e))
          ])
          keys covers

    -- The chunks of the keys are in the list, but for one that is at its back already.
    chunks_of_lem :
        (n : ℕ) (back : Option ℕ) (keys : List ℕ)
        → Below kv_id rm keys
        → All (λ k. chunk_of kv_id rm k < n) keys
        → (cs : List ℕ) × (chunks_of kv_id rm back keys ≡ ok cs)
          × All (λ c. c < n) cs
          × Covers back cs keys
    unfolding chunks_of has
    chunks_of_lem n back [] below placed = ([], refl, tt, tt)
    chunks_of_lem n none (k ∷ keys) below placed =
        let ih = chunks_of_lem n (some (chunk_of kv_id rm k)) keys below.1 placed.1 in
        (
          chunk_of kv_id rm k ∷ ih.0,
          rw (get_location_below kv_id rm k below.0) (rw ih.1 refl),
          (placed.0, ih.2),
          (inr (ground arith), kept none (chunk_of kv_id rm k) ih.0 keys ih.3),
        )
    chunks_of_lem n (some b) (k ∷ keys) below placed =
        let ih = chunks_of_lem n (some (chunk_of kv_id rm k)) keys below.1 placed.1 in
        elim (Bool-cases (chunk_of kv_id rm k == b)) [
          | inl e ↦ (
            ih.0,
            rw (get_location_below kv_id rm k below.0) (rw (ih.1, e) refl),
            ih.2,
            (
              inl (ap some (sym (==→eq (chunk_of kv_id rm k) b e))),
              subst (λ c. Covers (some c) ih.0 keys) (==→eq (chunk_of kv_id rm k) b e) ih.3,
            ),
          )
          | inr e ↦ (
            chunk_of kv_id rm k ∷ ih.0,
            rw (get_location_below kv_id rm k below.0) (rw (ih.1, e) refl),
            (placed.0, ih.2),
            (inr (ground arith), kept (some b) (chunk_of kv_id rm k) ih.0 keys ih.3),
          )
        ]

    chunk_of_mono : (x k : ℕ) → x ≤ k → chunk_of kv_id rm x ≤ chunk_of kv_id rm k
    chunk_of_mono x k le = div_mono (get_chunk_size kv_id rm) x k le

    lows :
        (x : ℕ) (keys : List ℕ)
        → All (λ k. x ≤ k) keys
        → All (λ k. chunk_of kv_id rm x ≤ chunk_of kv_id rm k) keys
    lows x keys h = All-imp _ _ (chunk_of_mono x) keys h

    -- The two ends of a list of chunks that begins with a key's.
    back_or_front :
        (c : ℕ) (back : Option ℕ) (rest cs keys : List ℕ)
        → ok (elim back [ none ↦ c ∷ rest | some b ↦ if c == b then rest else c ∷ rest ]) ≡ ok cs
        → All (λ d. c ≤ d) rest
        → IsAscending rest
        → ((b : ℕ) → All (λ k. b ≤ chunk_of kv_id rm k) keys → All (λ d. b ≤ d) rest)
        → IsAscending cs
          × ((b : ℕ) → (b ≤ c) × All (λ k. b ≤ chunk_of kv_id rm k) keys → All (λ d. b ≤ d) cs)
    back_or_front c none rest cs keys e above sorted low =
        rw (← ok-injective e) ((above, sorted), λ b h. (h.0, low b h.1))
    back_or_front c (some back) rest cs keys e above sorted low = elim (Bool-cases (c == back)) [
      | inl same ↦ rw (← ok-injective (rw same at e)) (sorted, λ b h. low b h.1)
      | inr other ↦ rw (← ok-injective (rw other at e)) ((above, sorted), λ b h. (h.0, low b h.1))
    ]

    -- Ascending keys have ascending chunks.
    chunks_of-IsAscending :
        (back : Option ℕ) (keys cs : List ℕ)
        → Below kv_id rm keys
        → IsAscending keys
        → chunks_of kv_id rm back keys ≡ ok cs
        → IsAscending cs × ((b : ℕ) → All (λ k. b ≤ chunk_of kv_id rm k) keys → All (λ c. b ≤ c) cs)
    unfolding chunks_of
    chunks_of-IsAscending back [] cs below ascending e = rw (← ok-injective e) (tt, λ b h. tt)
    chunks_of-IsAscending back (k ∷ keys) cs below ascending e =
        let c = chunk_of kv_id rm k in
        let (rest, done, last) =
          >>=-eq-ok (chunks_of kv_id rm (some c) keys) _
            (rw (get_location_below kv_id rm k below.0) at e) in
        let (sorted, low) = chunks_of-IsAscending (some c) keys rest below.1 ascending.1 done in
        back_or_front c back rest cs keys last (low c (lows k keys ascending.0)) sorted low

    -- The chunks of the keys are cached.
    abbrev pub Cached : ChunkBasedModel Val → List ℕ → Type 0
    Cached m keys = All (λ k. get_or m.is_cached (chunk_of kv_id rm k) false ≡ true) keys

    placed_of :
        (f : ℕ → Val) (m : ChunkBasedModel Val)
        → Shows f m
        → (keys : List ℕ) → Below kv_id rm keys
        → All (λ k. chunk_of kv_id rm k < length m.is_cached) keys
    placed_of f m s keys below = All-imp _ _ (Shows-lt f m s) keys below

    fetched_keys :
        (cs : List ℕ) (m m' : ChunkBasedModel Val)
        → Prepared cs m m'
        → (keys : List ℕ) → All (λ k. chunk_of kv_id rm k < length m.is_cached) keys
        → Covers none cs keys
        → Cached m' keys
    fetched_keys cs m m' p [] placed covers = tt
    fetched_keys cs m m' p (k ∷ keys) placed covers = (
      elim covers.0 [ inl e ↦ cc | inr e ↦ p.cached (chunk_of kv_id rm k) placed.0 e ],
      fetched_keys cs m m' p keys placed.1 covers.1,
    )

    pub prepare-Shows :
        (reply : List ℕ → List (List Val)) (served : Serves remote reply) (f : ℕ → Val)
        (m : ChunkBasedModel Val) (keys : List ℕ)
        → Shows f m
        → Below kv_id rm keys
        → IsAscending keys
        → (m' : ChunkBasedModel Val) × (prepare kv_id rm reply keys m ≡ ok m')
          × Shows f m'
          × Cached m' keys
    unfolding prepare view
    prepare-Shows reply served f m keys s below ascending =
        let n = length m.is_cached in
        let placed = placed_of f m s keys below in
        let c = chunks_of_lem n none keys below placed in
        let p =
          prepare_chunks-Prepared reply served c.0 m
            (chunks_of-IsAscending none keys c.0 below ascending c.1).0 s.valid c.2 in
        (
          p.0,
          rw (c.1) (p.1),
          record {
            valid = p.2.valid;
            shows = λ k h. rw (p.2.same (chunk_of kv_id rm k) (Shows-lt f m s k h)) (s.shows k h);
          },
          fetched_keys c.0 m p.0 p.2 keys placed c.3,
        )

    pub peek-Shows :
        (f : ℕ → Val) (m : ChunkBasedModel Val) (k : ℕ)
        → Shows f m
        → k < get_max_key kv_id rm
        → get_or m.is_cached (chunk_of kv_id rm k) false ≡ true
        → (chunk : List Val) × (read m.params (chunk_of kv_id rm k) ≡ ok chunk)
          × (read chunk (offset_of kv_id rm k) ≡ ok (f k))
    unfolding view chunk_at
    peek-Shows f m k s below cached =
        let there = read-get_or m.is_cached (chunk_of kv_id rm k) false (Shows-lt f m s k below) in
        >>=-eq-ok (read m.params (chunk_of kv_id rm k)) _ (rw (there, cached) at (s.shows k below))

    pub look_up-Shows :
        (f : ℕ → Val) (m : ChunkBasedModel Val) (keys : List ℕ)
        → Shows f m
        → Below kv_id rm keys
        → Cached m keys
        → look_up kv_id rm m.params keys ≡ ok (map f keys)
    unfolding look_up
    look_up-Shows f m [] s below cached = refl
    look_up-Shows f m (k ∷ keys) s below cached =
        let p = peek-Shows f m k s below.0 cached.0 in
        rw (get_location_below kv_id rm k below.0)
          (rw (p.1) (rw (p.2) (rw (look_up-Shows f m keys s below.1 cached.1) refl)))

    pub pull-Shows :
        (reply : List ℕ → List (List Val)) (served : Serves remote reply) (f : ℕ → Val)
        (m : ChunkBasedModel Val) (keys : List ℕ)
        → Shows f m
        → Below kv_id rm keys
        → IsAscending keys
        → (m' : ChunkBasedModel Val) × (pull kv_id rm reply keys m ≡ ok (map f keys, m'))
          × Shows f m'
          × Cached m' keys
    unfolding pull
    pull-Shows reply served f m keys s below ascending =
        let p = prepare-Shows reply served f m keys s below ascending in
        (p.0, rw (p.1) (rw (look_up-Shows f p.0 keys p.2 below p.3) refl), p.2, p.3)
