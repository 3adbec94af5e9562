-- ===== src/Ml/PsMapChunkWorker/Batches.antt =====
-- ml/mlworker/ps.hpp: a batch of PSMapChunkWorker's second interface: Prepare_v2, Update_v2, Clock_v2.
use flexps_paper_version.Common.{ℕ, ◌+◌, ◌≡◌, refl, ◌∙◌, true, some, [], ◌∷◌, ok, ==_refl, eq→==}
use flexps_paper_version.Common.Maps.{find, modify, find-modify, find_or-find}
use flexps_paper_version.Ml.PsMapNoneWorker.{push_call, add_each}
use flexps_paper_version.Ml.PsMapChunkWorker.{PsMapChunkWorker, push_mapped, update_v2, clock_v2}

module _ {Val : Type 0} (zero_val : Val) (add : Val → Val → Val) where
  -- In a batch of one key that has the value x in the cache of PSMapChunkWorker, with nothing
  -- updated yet and a push due, Update_v2 by v makes that x + v; Clock_v2 then pushes 0 + v to the
  -- kv store and adds it to the cached value once more.
  pub update-clock_doubles :
      (k : ℕ) (v x : Val) (w : PsMapChunkWorker Val)
      → w.keys ≡ k ∷ []
      → w.delta ≡ zero_val ∷ []
      → w.pull_count ≡ w.push_count + 1
      → find k w.cached_kv ≡ some x
      → (w' w'' : PsMapChunkWorker Val) × (update_v2 zero_val add 0 v w ≡ ok w')
        × (find k w'.cached_kv ≡ some (add x v))
        × (clock_v2 zero_val add w' ≡ ok (push_call (k ∷ []) (add zero_val v ∷ []) ∷ [], w''))
        × (find k w''.cached_kv ≡ some (add (add x v) (add zero_val v)))
  unfolding update_v2 clock_v2 push_mapped add_each
  update-clock_doubles k v x w one zeros turn there =
      let m = modify zero_val k (λ old. add old v) w.cached_kv in
      let once : find k m ≡ some (add x v) =
        find-modify zero_val k k (λ old. add old v) w.cached_kv
        ∙ rw (==_refl k, find_or-find zero_val k w.cached_kv x there) refl in
      let m' = modify zero_val k (λ old. add old (add zero_val v)) m in
      (
        record w { delta = add zero_val v ∷ []; cached_kv = m },
        record w {
          delta = add zero_val v ∷ [];
          cached_kv = m';
          push_count = w.push_count + 1;
          has_request = true;
        },
        rw (zeros, one) refl,
        once,
        rw (eq→== w.pull_count (w.push_count + 1) turn, one) refl,
        find-modify zero_val k k (λ old. add old (add zero_val v)) m
            ∙ rw (==_refl k, find_or-find zero_val k m (add x v) once) refl,
      )
