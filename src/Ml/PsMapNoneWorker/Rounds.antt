-- ===== src/Ml/PsMapNoneWorker/Rounds.antt =====
-- ml/mlworker/ps.hpp: rounds of Pull and Push of a PSMapNoneWorker.
use flexps_paper_version.Common.{
  ℕ, ◌+◌, ◌≤◌, ◌≡◌, refl, sym, ◌∙◌, subst, inl, inr, ◌⊎◌, true, some, List, [], ◌∷◌, ◌++◌, Result,
  ok, arith, ◌>>=◌, length, eq→==, All, All-imp,
}
use flexps_paper_version.Common.Maps.{find}
use flexps_paper_version.Kvstore.KvWorker.Slices.{IsAscending}
use flexps_paper_version.Ml.PsMapNoneWorker.{
  PsMapNoneWorker, KvCall, push_call, wait_for_last, new_worker, pull_cached, push_cached,
  read_each,
}
use flexps_paper_version.Ml.PsMapNoneWorker.Caches.{AllIn, Each, add_each_lem, read_each_lem}
use flexps_paper_version.Ml.PsMapNoneWorker.Freshness.{
  Log, Serves, grown, FreshAt, Known, IsFresh, pushed-Known, refresh-IsRefreshed,
}

module _ {Val : Type 0} (zero_val : Val) (add : Val → Val → Val) (serve : ℕ → ℕ → Val) where
  -- The values of a pull: none is older than `staleness` pulls, nor lacks an own push since.
  abbrev pub Recent : (p staleness : ℕ) → Log Val → ℕ → Val → Type 0
  Recent p staleness log k v =
      (q : ℕ) × (p ≤ q + staleness) × (q ≤ p) × (v ≡ grown zero_val add serve k q log)

  young_values :
      (p staleness low : ℕ) (log : Log Val) (keys : List ℕ) (vals : List Val)
      → (keys ≡ []) ⊎ (p ≤ low + staleness)
      → Each (FreshAt zero_val add serve low p log) keys vals
      → Each (Recent p staleness log) keys vals
  young_values p staleness low log [] [] recent each = tt
  young_values p staleness low log (k ∷ keys) (v ∷ vals) recent each =
      let bound : p ≤ low + staleness = elim recent [ inl e ↦ absurd (no_key e) | inr h ↦ h ] in
      let f = each.0 in
      (
        (f.0, omega (arith, f.1), f.2, f.3),
        young_values p staleness low log keys vals (inr bound) each.1,
      )
    where
      no_key : k ∷ keys ≡ [] → ⊥
      no_key e = cc
  young_values p staleness low log [] (v ∷ vals) recent each = each
  young_values p staleness low log (k ∷ keys) [] recent each = each

  -- The pushed keys are cached, so that their values grow in the cache as they do in the log.
  push-IsFresh :
      (log : Log Val) (w : PsMapNoneWorker Val) (keys : List ℕ) (vals : List Val)
      → IsFresh zero_val add serve log w
      → w.push_count + 1 ≡ w.pull_count
      → AllIn keys w.cached_kv
      → length vals ≡ length keys
      → (r : List (KvCall Val) × PsMapNoneWorker Val) × (push_cached zero_val add keys vals w
          ≡ ok r)
        × IsFresh zero_val add serve ((w.pull_count, keys, vals) ∷ log) r.1
        × (r.1.push_count ≡ r.1.pull_count)
        × (r.1.staleness ≡ w.staleness)
        × (r.1.pull_count ≡ w.pull_count)
  unfolding push_cached
  push-IsFresh log w keys vals fresh turn there same =
      let e = add_each_lem zero_val add keys vals w.cached_kv there same in
      (
        (
          push_call keys vals ∷ [],
          record w { cached_kv = e.0; push_count = w.push_count + 1; has_request = true },
        ),
        rw (eq→== (w.push_count + 1) w.pull_count turn) (rw (e.1) refl),
        record {
          older = (omega arith, All-imp _ _ (λ x h. omega arith) log fresh.older);
          counts = omega arith;
          known =
              pushed-Known zero_val add serve w.cache_ts w.pull_count log keys vals w.cached_kv e.0
                e.2 fresh.known;
        },
        turn,
        refl,
        refl,
      )

  pull-IsFresh :
      (reply : ℕ → List ℕ → List Val) (served : Serves zero_val add serve reply) (log : Log Val)
      (w : PsMapNoneWorker Val) (keys : List ℕ)
      → IsFresh zero_val add serve log w
      → w.push_count ≡ w.pull_count
      → IsAscending keys
      → (vals : List Val) × (calls : List (KvCall Val)) × (w' : PsMapNoneWorker Val) × (pull_cached
            zero_val add reply keys w
          ≡ ok (vals, calls, w'))
        × Each (Recent (w.pull_count + 1) w.staleness log) keys vals
        × IsFresh zero_val add serve log w'
        × AllIn keys w'.cached_kv
        × (w'.push_count + 1 ≡ w'.pull_count)
        × (w'.pull_count ≡ w.pull_count + 1)
        × (w'.staleness ≡ w.staleness)
  unfolding pull_cached
  pull-IsFresh reply served log w keys fresh turn ascending =
      let p = w.pull_count + 1 in
      let w1 = record w { pull_count = p } in
      let widened : Known zero_val add serve w.cache_ts p log w.cached_kv =
        λ k v e. (let f = fresh.known k v e in (f.0, f.1, omega (arith, f.2), f.3)) in
      let r =
        refresh-IsRefreshed zero_val add serve reply served log keys w1 fresh.older
          (omega (arith, fresh.counts)) widened ascending in
      let x =
        read_each_lem zero_val add (FreshAt zero_val add serve r.0.1.cache_ts p log) keys
          r.0.1.cached_kv r.2.known r.2.there in
      let vals = read_each zero_val add keys r.0.1.cached_kv in
      (
        vals.0,
        wait_for_last w.has_request ++ r.0.0,
        record (r.0.1) { cached_kv = vals.1 },
        rw (eq→== w.push_count w.pull_count turn) (rw (r.1) refl),
        young_values p w.staleness r.0.1.cache_ts log keys vals.0 r.2.recent x.0,
        record {
          older = rw (r.2.same_push) fresh.older;
          counts = omega (arith, r.2.same_push, r.2.same_pull, fresh.counts);
          known = λ k v e.
              (let f = r.2.known k v (sym (x.1 k) ∙ e) in
                (f.0, f.1, omega (arith, f.2, r.2.same_pull), f.3));
        },
        All-imp _ _ (λ k h. (h.0, x.1 k ∙ h.1)) keys r.2.there,
        omega (arith, r.2.same_push, r.2.same_pull, turn),
        r.2.same_pull,
        r.2.same_staleness,
      )

  -- A pull of some keys and a push of increments for them, again and again.
  unfoldable pub run_rounds :
      (reply : ℕ → List ℕ → List Val)
      → List (List ℕ × List Val)
      → PsMapNoneWorker Val
      → Result (List (List Val) × PsMapNoneWorker Val)
  unfolding pull_cached push_cached
  run_rounds reply [] w = ok ([], w)
  run_rounds reply ((keys, vals) ∷ rounds) w = pull_cached zero_val add reply keys w >>= λ pulled.
      push_cached zero_val add keys vals (pulled.2) >>= λ pushed.
      run_rounds reply rounds (pushed.1) >>= λ rest. ok (pulled.0 ∷ rest.0, rest.1)

  -- Each round's values, the first round being the pull after the `p`-th.
  abbrev pub AllRecent :
      (p staleness : ℕ) → Log Val → List (List ℕ × List Val) → List (List Val) → Type 0
  AllRecent p staleness log [] [] = Unit
  AllRecent p staleness log ((keys, vals) ∷ rounds) (pulled ∷ results) =
      Each (Recent (p + 1) staleness log) keys pulled
      × AllRecent (p + 1) staleness ((p + 1, keys, vals) ∷ log) rounds results
  AllRecent p staleness log [] (pulled ∷ results) = ⊥
  AllRecent p staleness log (round ∷ rounds) [] = ⊥

  run-AllRecent :
      (reply : ℕ → List ℕ → List Val) (served : Serves zero_val add serve reply)
      (rounds : List (List ℕ × List Val)) (log : Log Val) (w : PsMapNoneWorker Val)
      → All (λ (r : List ℕ × List Val). IsAscending r.0 × (length r.1 ≡ length r.0)) rounds
      → IsFresh zero_val add serve log w
      → w.push_count ≡ w.pull_count
      → (r : List (List Val) × PsMapNoneWorker Val) × (run_rounds reply rounds w ≡ ok r)
        × AllRecent w.pull_count w.staleness log rounds r.0
  unfolding run_rounds
  run-AllRecent reply served [] log w same fresh turn = (([], w), refl, tt)
  run-AllRecent reply served ((keys, vals) ∷ rounds) log w same fresh turn =
      let a = pull-IsFresh reply served log w keys fresh turn same.0.0 in
      let b = push-IsFresh log a.2 keys vals a.5 a.7 a.6 same.0.1 in
      let ih =
        run-AllRecent reply served rounds ((a.2.pull_count, keys, vals) ∷ log) b.0.1 same.1 b.2
          b.3 in
      (
        (a.0 ∷ ih.0.0, ih.0.1),
        rw (a.3) (rw (b.1) (rw (ih.1) refl)),
        (
          a.4,
          subst
              (λ (p : ℕ).
                AllRecent p w.staleness ((w.pull_count + 1, keys, vals) ∷ log) rounds ih.0.0)
              (b.5 ∙ a.8)
              (subst
                (λ (s : ℕ).
                  AllRecent b.0.1.pull_count s ((w.pull_count + 1, keys, vals) ∷ log) rounds ih.0.0)
                (b.4 ∙ a.9)
                (subst
                  (λ (q : ℕ).
                    AllRecent b.0.1.pull_count b.0.1.staleness ((q, keys, vals) ∷ log) rounds
                      ih.0.0)
                  a.8 ih.2)),
        ),
      )

  -- Over a kv worker that answers ascending keys with one value for each, in order: whatever
  -- natural number stands in the uninitialised time stamp, and for all rounds of a pull of
  -- ascending keys and a push of increments for the same keys, as many as the keys,
  -- PSMapNoneWorker runs them without a failed assertion, and each value that the p-th pull
  -- returns is the value that its key has in the kv store at some q-th pull, with q at most p and
  -- p at most q + staleness, with exactly the worker's own pushes from the q-th round on added.
  pub rounds-AllRecent :
      (reply : ℕ → List ℕ → List Val) (served : Serves zero_val add serve reply)
      (staleness cache_ts : ℕ) (rounds : List (List ℕ × List Val))
      → All (λ (r : List ℕ × List Val). IsAscending r.0 × (length r.1 ≡ length r.0)) rounds
      → (r : List (List Val) × PsMapNoneWorker Val) × (run_rounds reply rounds
            (new_worker staleness cache_ts)
          ≡ ok r)
        × AllRecent 0 staleness [] rounds r.0
  unfolding new_worker find
  rounds-AllRecent reply served staleness cache_ts rounds same =
      run-AllRecent reply served rounds [] (new_worker staleness cache_ts) same
        (record { older = tt; counts = omega arith; known = λ k v e. absurd (empty k v e) }) refl
    where
      empty : (k : ℕ) (v : Val) → find k [] ≡ some v → ⊥
      empty k v e = cc
