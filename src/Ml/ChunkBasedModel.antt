-- ===== src/Ml/ChunkBasedModel.antt =====
-- ml/model/chunk_based_model.hpp: the parameters of one process in chunks, fetched when they are needed.
-- The kv worker is a parameter: `reply` is what its `PullChunks` fills in for a list of chunk ids, at the
-- time of the call. `+=` on values is a parameter, too.
pub mod Fetching
pub mod Views
pub mod Pushes
use flexps_paper_version.Common.{
  ℕ, zero, suc, Bool, true, false, Option, none, some, List, [], ◌∷◌, Result, ok, err,
  failed_assert, out_of_range, illegal_hint, ◌>>=◌, read, ltb, ◌==◌, if◌then◌else◌, length, set,
}
use flexps_paper_version.Kvstore.RangeManager.{RangeManager, get_location}

pub record ChunkBasedModel (Val : Type 0) : Type 0 where
  pub params : List (List Val)
  pub is_cached : List Bool

unfoldable pub repeat : {A : Type 0} → ℕ → A → List A
repeat zero a = []
repeat (suc n) a = a ∷ repeat n a

-- i, i + 1, … in a list of this length.
unfoldable pub indices : (i : ℕ) → ℕ → List ℕ
indices i zero = []
indices i (suc n) = i ∷ indices (suc i) n

-- `Load` and `Dump` know these hints.
pub data Hint : Type 0 where
  kv_store_chunks kv_store_integral transfer_integral other_hint : Hint

-- What `Dump` sends: chunks to the kv store, or all of them to the transfer store.
pub data Dumped (Val : Type 0) : Type 0 where
  to_kv_store : List ℕ → List (List Val) → Dumped Val
  to_transfer_store : List (List Val) → Dumped Val

-- The chunks of some keys, without equal neighbours. `back` is the last one.
unfoldable pub chunks_of : (kv_id : ℕ) → RangeManager → (back : Option ℕ) → List ℕ → Result (List ℕ)
unfolding get_location
chunks_of kv_id rm back [] = ok []
chunks_of kv_id rm back (key ∷ keys) = get_location kv_id key rm >>= λ loc.
    chunks_of kv_id rm (some loc.0) keys >>= λ rest.
    ok (elim back [ none ↦ loc.0 ∷ rest | some b ↦ if loc.0 == b then rest else loc.0 ∷ rest ])

-- The loop of `PrepareChunks`: the chunks to fetch, which count as cached from now on.
unfoldable pub chunks_to_fetch : List ℕ → List Bool → Result (List ℕ × List Bool)
chunks_to_fetch [] is_cached = ok ([], is_cached)
chunks_to_fetch (c ∷ cs) is_cached =
    if ltb c (length is_cached)
    then (read is_cached c >>= λ known. elim known [
      | true ↦ chunks_to_fetch cs is_cached
      | false ↦ chunks_to_fetch cs (set is_cached c true) >>= λ rest. ok (c ∷ rest.0, rest.1)
    ])
    else err failed_assert

module _ {Val : Type 0} where
  unfoldable pub new : (num_chunks : ℕ) → ChunkBasedModel Val
  unfolding repeat
  new num_chunks = record { params = repeat num_chunks []; is_cached = repeat num_chunks false }

  -- The places of the chunks in `params_`, filled in the order of the ids.
  unfoldable pub place_each : List ℕ → List (List Val) → List (List Val) → List (List Val)
  place_each (c ∷ cs) (chunk ∷ chunks) params = place_each cs chunks (set params c chunk)
  place_each [] chunks params = params
  place_each (c ∷ cs) [] params = params

  -- `fetch_chunk` and `wait`.
  unfoldable pub fetch :
      (reply : List ℕ → List (List Val)) → List ℕ → List (List Val) → List (List Val)
  unfolding place_each
  fetch reply cs params = place_each cs (reply cs) params

  unfoldable pub prepare_chunks :
      (reply : List ℕ → List (List Val))
      → List ℕ
      → ChunkBasedModel Val
      → Result (ChunkBasedModel Val)
  unfolding chunks_to_fetch fetch
  prepare_chunks reply cs m = chunks_to_fetch cs m.is_cached >>= λ found.
      ok (record { params = fetch reply found.0 m.params; is_cached = found.1 })

  unfoldable pub prepare :
      (kv_id : ℕ)
      → RangeManager
      → (reply : List ℕ → List (List Val)) → List ℕ
      → ChunkBasedModel Val
      → Result (ChunkBasedModel Val)
  unfolding chunks_of prepare_chunks
  prepare kv_id rm reply keys m = chunks_of kv_id rm none keys >>= λ cs. prepare_chunks reply cs m

  -- `params_[loc.first][loc.second]` for every key.
  unfoldable pub look_up : (kv_id : ℕ) → RangeManager → List (List Val) → List ℕ → Result (List Val)
  unfolding get_location
  look_up kv_id rm params [] = ok []
  look_up kv_id rm params (key ∷ keys) = get_location kv_id key rm >>= λ loc.
      read params loc.0 >>= λ chunk.
      read chunk loc.1 >>= λ v. look_up kv_id rm params keys >>= λ rest. ok (v ∷ rest)

  unfoldable pub pull :
      (kv_id : ℕ)
      → RangeManager
      → (reply : List ℕ → List (List Val)) → List ℕ
      → ChunkBasedModel Val
      → Result (List Val × ChunkBasedModel Val)
  unfolding prepare look_up
  pull kv_id rm reply keys m = prepare kv_id rm reply keys m >>= λ m'.
      look_up kv_id rm m'.params keys >>= λ vals. ok (vals, m')

  unfoldable pub pull_each : List (List Val) → List ℕ → Result (List (List Val))
  pull_each params [] = ok []
  pull_each params (c ∷ cs) =
      read params c >>= λ chunk. pull_each params cs >>= λ rest. ok (chunk ∷ rest)

  -- `places` is the number of chunks given to be filled.
  unfoldable pub pull_chunks :
      (reply : List ℕ → List (List Val))
      → List ℕ
      → (places : ℕ) → ChunkBasedModel Val
      → Result (List (List Val) × ChunkBasedModel Val)
  unfolding prepare_chunks pull_each
  pull_chunks reply [] places m = ok ([], m)
  pull_chunks reply (c ∷ cs) places m =
      if length (c ∷ cs) == places
      then (prepare_chunks reply (c ∷ cs) m >>= λ m'.
          pull_each m'.params (c ∷ cs) >>= λ chunks. ok (chunks, m'))
      else err failed_assert

  -- The hint of a direct transfer reads what the mailbox has, if it has anything.
  unfoldable pub load :
      (reply : List ℕ → List (List Val))
      → (mailbox : Option (List (List Val))) → Hint
      → ChunkBasedModel Val
      → Result (ChunkBasedModel Val)
  unfolding fetch repeat indices
  load reply mailbox kv_store_chunks m = ok m
  load reply mailbox kv_store_integral m = ok (record {
    params = fetch reply (indices 0 (length m.params)) m.params;
    is_cached = repeat (length m.is_cached) true;
  })
  load reply mailbox transfer_integral m = ok (record {
    params = elim mailbox [ none ↦ m.params | some chunks ↦ chunks ];
    is_cached = repeat (length m.is_cached) true;
  })
  load reply mailbox other_hint m = err illegal_hint

  -- The chunks from `i` on that are not empty.
  unfoldable pub filled : (i : ℕ) → List (List Val) → List ℕ × List (List Val)
  filled i [] = ([], [])
  filled i (chunk ∷ params) =
      let rest = filled (suc i) params in
      if length chunk == 0 then rest else (i ∷ rest.0, chunk ∷ rest.1)

  unfoldable pub dump : Hint → ChunkBasedModel Val → Result (Dumped Val)
  unfolding filled indices
  dump kv_store_chunks m =
      let some_chunks = filled 0 m.params in ok (to_kv_store some_chunks.0 some_chunks.1)
  dump kv_store_integral m = ok (to_kv_store (indices 0 (length m.params)) m.params)
  dump transfer_integral m = ok (to_transfer_store m.params)
  dump other_hint m = err illegal_hint

  -- `params_[c][o] += v`.
  unfoldable pub add_to :
      (add : Val → Val → Val) → ℕ × ℕ → Val → List (List Val) → Result (List (List Val))
  add_to add loc v params = read params loc.0 >>= λ chunk.
      read chunk loc.1 >>= λ old. ok (set params loc.0 (set chunk loc.1 (add old v)))

  -- Keys must be pulled before they are pushed.
  unfoldable pub push :
      (add : Val → Val → Val)
      → (kv_id : ℕ) → RangeManager
      → List ℕ
      → List Val
      → ChunkBasedModel Val
      → Result (ChunkBasedModel Val)
  unfolding get_location add_to
  push add kv_id rm [] vals m = ok m
  push add kv_id rm (key ∷ keys) [] m = err out_of_range
  push add kv_id rm (key ∷ keys) (v ∷ vals) m = get_location kv_id key rm >>= λ loc.
      read m.is_cached loc.0 >>= λ known. elim known [
        | false ↦ err failed_assert
        | true ↦ add_to add loc v m.params >>= λ params.
            push add kv_id rm keys vals (record m { params = params })
      ]

  unfoldable pub add_all : (add : Val → Val → Val) → List Val → List Val → List Val
  add_all add (x ∷ xs) (v ∷ vs) = add x v ∷ add_all add xs vs
  add_all add [] vs = []
  add_all add (x ∷ xs) [] = x ∷ xs

  unfoldable pub push_chunks :
      (add : Val → Val → Val)
      → List ℕ
      → List (List Val)
      → ChunkBasedModel Val
      → Result (ChunkBasedModel Val)
  unfolding add_all
  push_chunks add [] chunk_vals m = ok m
  push_chunks add (c ∷ cs) [] m = err out_of_range
  push_chunks add (c ∷ cs) (vals ∷ chunk_vals) m = read m.params c >>= λ chunk.
      elim (length chunk == length vals) [
        | false ↦ err failed_assert
        | true ↦
            push_chunks add cs chunk_vals
              (record m { params = set m.params c (add_all add chunk vals) })
      ]
