-- ===== src/Ml/PsWorker.antt =====
-- ml/mlworker/ps.hpp: PSWorker, which waits for every request. `serve` is the kv store: at the n-th pull it
-- answers keys or chunks by their values. `has_request` is `ts_ != -1`.
pub mod Turns
use flexps_paper_version.Common.{
  ℕ, zero, suc, ◌+◌, Bool, true, false, List, [], ◌∷◌, ◌++◌, Result, ok, err, failed_assert, ◌>>=◌,
  ◌==◌, ◌||◌, if◌then◌else◌, length,
}
use flexps_paper_version.Ml.Batch.{Batch, prepared}

pub data Consistency : Type 0 where
  asp ssp bsp other_consistency : Consistency

-- The calls of the kv worker, with `send_all`; a wait is for the last request.
pub data PsCall (Val : Type 0) : Type 0 where
  push_keys : Bool → List ℕ → List Val → PsCall Val
  pull_keys : Bool → List ℕ → PsCall Val
  push_whole_chunks : Bool → List ℕ → List (List Val) → PsCall Val
  pull_whole_chunks : Bool → List ℕ → PsCall Val
  wait_last : PsCall Val
  init_control : (num_workers : ℕ) → PsCall Val

pub record PsWorker : Type 0 where
  pub push_count : ℕ
  pub pull_count : ℕ
  pub has_request : Bool
  pub send_all : Bool

unfoldable pub start_worker : Consistency → PsWorker
start_worker c = record {
  push_count = 0;
  pull_count = 0;
  has_request = false;
  send_all = elim c [ asp ↦ false | ssp ↦ true | bsp ↦ true | other_consistency ↦ false ];
}

module _ {Val : Type 0} where
  -- What the constructor asks for.
  unfoldable pub start_calls : (num_workers : ℕ) → Consistency → List (PsCall Val)
  start_calls num_workers c =
      let controlled = init_control num_workers ∷ wait_last ∷ [] in
      elim c [ asp ↦ [] | ssp ↦ controlled | bsp ↦ controlled | other_consistency ↦ [] ]

  unfoldable pub push_waiting : List ℕ → List Val → PsWorker → Result (List (PsCall Val) × PsWorker)
  push_waiting keys vals w =
      if w.push_count + 1 == w.pull_count
      then ok (
        push_keys w.send_all keys vals ∷ wait_last ∷ [],
        record w { push_count = w.push_count + 1; has_request = true },
      )
      else err failed_assert

  unfoldable pub pull_waiting :
      (serve : ℕ → List ℕ → List Val)
      → List ℕ
      → PsWorker
      → Result (List Val × List (PsCall Val) × PsWorker)
  pull_waiting serve keys w =
      if w.push_count == w.pull_count
      then ok (
        serve (w.pull_count + 1) keys,
        (if w.has_request then wait_last ∷ [] else [])
            ++ pull_keys w.send_all keys ∷ wait_last ∷ [],
        record w { pull_count = w.pull_count + 1; has_request = true },
      )
      else err failed_assert

  unfoldable pub push_chunks_waiting :
      List ℕ → List (List Val) → PsWorker → Result (List (PsCall Val) × PsWorker)
  push_chunks_waiting cs chunk_vals w =
      if w.push_count + 1 == w.pull_count
      then (if length cs == length chunk_vals
          then ok (
            push_whole_chunks true cs chunk_vals ∷ wait_last ∷ [],
            record w { push_count = w.push_count + 1; has_request = true },
          )
          else err failed_assert)
      else err failed_assert

  -- `places` is the number of chunks given to be filled.
  unfoldable pub pull_chunks_waiting :
      (serve : ℕ → List ℕ → List (List Val))
      → List ℕ
      → (places : ℕ) → PsWorker
      → Result (List (List Val) × List (PsCall Val) × PsWorker)
  pull_chunks_waiting serve cs places w =
      if w.push_count == w.pull_count
      then (if length cs == places
          then ok (
            serve (w.pull_count + 1) cs,
            pull_whole_chunks true cs ∷ wait_last ∷ [],
            record w { pull_count = w.pull_count + 1; has_request = true },
          )
          else err failed_assert)
      else err failed_assert

  unfoldable pub prepare_batch :
      (zero_val : Val)
      → (serve : ℕ → List ℕ → List Val) → List ℕ
      → PsWorker
      → Result (Batch Val × List (PsCall Val) × PsWorker)
  unfolding pull_waiting prepared
  prepare_batch zero_val serve keys w =
      pull_waiting serve keys w >>= λ r. ok (prepared zero_val keys r.0, r.1, r.2)

  unfoldable pub clock_batch : Batch Val → PsWorker → Result (List (PsCall Val) × PsWorker)
  unfolding push_waiting
  clock_batch b w = push_waiting b.keys b.delta w
