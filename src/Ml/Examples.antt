-- ===== src/Ml/Examples.antt =====
-- ml/: the theorems about models and workers at concrete inputs.
use flexps_paper_version.Common.{
  ℕ, zero, suc, ◌+◌, ◌*◌, ◌<◌, ◌↔◌, some, ◌≡◌, refl, true, false, List, [], ◌∷◌, ok, arith, map,
}
use flexps_paper_version.Kvstore.RangeManager.{RangeManager, get_max_key, get_chunk_size}
use flexps_paper_version.Ml.ChunkBasedModel.{ChunkBasedModel, new, pull, push}
use flexps_paper_version.Ml.ChunkBasedModel.Views.{Shows, view}
use flexps_paper_version.Ml.ChunkBasedModel.Pushes.{after, pull-push-Shows}
use flexps_paper_version.Common.Maps.{find}
use flexps_paper_version.Ml.PsMapNoneWorker.{PsMapNoneWorker, new_worker, push_call}
use flexps_paper_version.Ml.PsMapNoneWorker.Rounds.{run_rounds, AllRecent, rounds-AllRecent}
use flexps_paper_version.Ml.PsMapChunkWorker.{PsMapChunkWorker, update_v2, clock_v2}
use flexps_paper_version.Ml.PsMapChunkWorker.Batches.{update-clock_doubles}
use flexps_paper_version.Ml.Batch.{Batch, prepared}
use flexps_paper_version.Ml.Batch.Sums.{
  Update, one_update, all_updates, run_updates, IsSum, updates-IsSum,
}
use flexps_paper_version.Ml.PsWorker.{PsWorker, PsCall, ssp, start_worker}
use flexps_paper_version.Ml.PsWorker.Turns.{
  Operation, push_op, pull_op, run_operations, TakeTurns, run_operations_iff,
}

-- Five keys in chunks of two.
abbrev five_keys : RangeManager
five_keys = record {
  num_servers = 1;
  server_key_ranges = [];
  server_chunk_ranges = [];
  max_keys = 5 ∷ [];
  chunk_sizes = 2 ∷ [];
  chunk_nums = 3 ∷ [];
}

abbrev stored : ℕ → List ℕ
stored zero = 10 ∷ 11 ∷ []
stored (suc zero) = 12 ∷ 13 ∷ []
stored (suc (suc c)) = 14 ∷ []

abbrev plus : ℕ → ℕ → ℕ
plus x y = x + y

new-Shows : Shows stored 0 five_keys (plus 10) (new 3)
unfolding new view get_max_key get_chunk_size
new-Shows = record { valid = refl; shows = shown }
  where
    shown : (k : ℕ) → k < 5 → view stored 0 five_keys (new 3) k ≡ ok (plus 10 k)
    shown zero h = refl
    shown (suc zero) h = refl
    shown (suc (suc zero)) h = refl
    shown (suc (suc (suc zero))) h = refl
    shown (suc (suc (suc (suc zero)))) h = refl
    shown (suc (suc (suc (suc (suc k))))) h =
        absurd (let none_left : ¬ (suc (suc (suc (suc (suc k)))) < 5) = omega arith in none_left h)

pull-push-Shows_example :
    (m' m'' : ChunkBasedModel ℕ) × (pull 0 five_keys (map stored) (1 ∷ 1 ∷ 4 ∷ []) (new 3)
      ≡ ok (11 ∷ 11 ∷ 14 ∷ [], m'))
    × Shows stored 0 five_keys (plus 10) m'
    × (push plus 0 five_keys (1 ∷ 1 ∷ 4 ∷ []) (5 ∷ 6 ∷ 7 ∷ []) m' ≡ ok m'')
    × Shows stored 0 five_keys (after plus (1 ∷ 1 ∷ 4 ∷ []) (5 ∷ 6 ∷ 7 ∷ []) (plus 10)) m''
unfolding get_max_key
pull-push-Shows_example =
    pull-push-Shows plus stored 0 five_keys (map stored) (λ cs ascending. refl) (plus 10) (new 3)
      (1 ∷ 1 ∷ 4 ∷ []) (5 ∷ 6 ∷ 7 ∷ []) new-Shows (omega arith, (omega arith, (omega arith, tt)))
      ((omega arith, (omega arith, tt)), ((omega arith, tt), (tt, tt))) refl

-- The value of a key in the n-th reply.
abbrev replies : ℕ → ℕ → ℕ
replies n k = 100 * n + k

abbrev fill : ℕ → List ℕ → List ℕ
fill n keys = map (replies n) keys

abbrev three_rounds : List (List ℕ × List ℕ)
three_rounds = (1 ∷ 2 ∷ [], 5 ∷ 6 ∷ []) ∷ (2 ∷ 3 ∷ [], 7 ∷ 8 ∷ []) ∷ (2 ∷ [], 9 ∷ []) ∷ []

rounds-AllRecent_example :
    (r : List (List ℕ) × PsMapNoneWorker ℕ) × (run_rounds 0 plus replies fill three_rounds
        (new_worker 1 77)
      ≡ ok r)
    × AllRecent 0 plus replies 0 1 [] three_rounds r.0
rounds-AllRecent_example =
    rounds-AllRecent 0 plus replies fill (λ n keys ascending. refl) 1 77 three_rounds
      (
        (((omega arith, tt), (tt, tt)), refl),
        ((((omega arith, tt), (tt, tt)), refl), (((tt, tt), refl), tt)),
      )

abbrev mapped : PsMapChunkWorker ℕ
mapped = record {
  staleness = 1;
  cache_ts = 1;
  cached_kv = (7, 40) ∷ [];
  push_count = 0;
  pull_count = 1;
  has_request = false;
  keys = 7 ∷ [];
  delta = 0 ∷ [];
}

update-clock_doubles_example :
    (w' w'' : PsMapChunkWorker ℕ) × (update_v2 0 plus 0 5 mapped ≡ ok w')
    × (find 7 w'.cached_kv ≡ some 45)
    × (clock_v2 0 plus w' ≡ ok (push_call (7 ∷ []) (5 ∷ []) ∷ [], w''))
    × (find 7 w''.cached_kv ≡ some 50)
unfolding find
update-clock_doubles_example = update-clock_doubles 0 plus 7 5 40 mapped refl refl refl refl

abbrev two_updates : List (Update ℕ)
two_updates = one_update 1 5 ∷ all_updates (2 ∷ 3 ∷ []) ∷ []

plus_assoc : (x y z : ℕ) → plus (plus x y) z ≡ plus x (plus y z)
plus_assoc x y z = omega arith

plus_zero : (x : ℕ) → plus x 0 ≡ x
plus_zero x = omega arith

updates-IsSum_example :
    (b : Batch ℕ) × (run_updates 0 plus two_updates (prepared 0 (3 ∷ 4 ∷ []) (30 ∷ 40 ∷ [])) ≡ ok b)
    × IsSum 0 plus (30 ∷ 40 ∷ []) b
updates-IsSum_example =
    updates-IsSum 0 plus plus_assoc (3 ∷ 4 ∷ []) (30 ∷ 40 ∷ []) two_updates plus_zero refl
      (omega arith, (refl, tt))

abbrev no_values : ℕ → List ℕ → List ℕ
no_values n keys = []

abbrev no_chunks : ℕ → List ℕ → List (List ℕ)
no_chunks n keys = []

abbrev two_calls : List (Operation ℕ)
two_calls = pull_op (1 ∷ []) ∷ push_op (1 ∷ []) (5 ∷ []) ∷ []

run_operations_iff_example :
    ((r : List (PsCall ℕ) × PsWorker) × (run_operations no_values no_chunks two_calls
          (start_worker ssp)
        ≡ ok r))
    ↔ TakeTurns no_values no_chunks true two_calls
run_operations_iff_example = run_operations_iff no_values no_chunks ssp two_calls
