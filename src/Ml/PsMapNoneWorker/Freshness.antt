-- ===== src/Ml/PsMapNoneWorker/Freshness.antt =====
-- ml/mlworker/ps.hpp: how old the values are that PSMapNoneWorker's Pull returns.
use flexps_paper_version.Common.{
  ℕ, suc, ◌+◌, ◌≤◌, ◌<◌, ◌≡◌, refl, sym, ◌∙◌, ap, inl, inr, ◌⊎◌, true, false, ◌||◌, none, some,
  List, [], ◌∷◌, ok, arith, ltb, leb, ◌==◌, if◌then◌else◌, length, Bool-cases, Option-cases, ==→eq,
  ==_refl, All, map, le→leb, lt→leb_false,
}
use mathlib.Core.Option
use flexps_paper_version.Common.Members.{has}
use flexps_paper_version.Common.Maps.{Map, find}
use flexps_paper_version.Kvstore.KvWorker.Slices.{IsAscending}
use flexps_paper_version.Ml.PsMapNoneWorker.{
  PsMapNoneWorker, KvCall, pull_call, wait_call, missing, uncached_keys, refresh,
}
use flexps_paper_version.Ml.PsMapNoneWorker.Caches.{
  AllIn, bumped, enter_each_lem, has-missing, missing_all,
}

-- The pushes so far, the last first: the number of pulls at that time, keys and increments.
abbrev pub Log : Type 0 → Type 0
Log Val = List (ℕ × List ℕ × List Val)

module _ {Val : Type 0} (zero_val : Val) (add : Val → Val → Val) (serve : ℕ → ℕ → Val) where
  -- A value of the q-th pull after the worker's own pushes since.
  unfoldable pub grown : (k q : ℕ) → Log Val → Val
  unfolding bumped
  grown k q [] = serve q k
  grown k q ((p, keys, vals) ∷ log) =
      let before = grown k q log in
      if leb q p then bumped zero_val add k keys vals before else before

  -- The value of a pull between `low` and `high`, with the own pushes since.
  abbrev pub FreshAt : (low high : ℕ) → Log Val → ℕ → Val → Type 0
  FreshAt low high log k v = (q : ℕ) × (low ≤ q) × (q ≤ high) × (v ≡ grown k q log)

  abbrev pub Older : ℕ → Log Val → Type 0
  Older n log = All (λ (e : ℕ × List ℕ × List Val). e.0 ≤ n) log

  abbrev pub Known : (low high : ℕ) → Log Val → Map Val → Type 0
  Known low high log m = (k : ℕ) (v : Val) → find k m ≡ some v → FreshAt low high log k v

  pub record IsFresh (log : Log Val) (w : PsMapNoneWorker Val) : Type 0 where
    pub older : Older w.push_count log
    pub counts : w.push_count ≤ w.pull_count
    pub known : Known w.cache_ts w.pull_count log w.cached_kv

  pub grown_new : (k q n : ℕ) (log : Log Val) → Older n log → n < q → grown k q log ≡ serve q k
  unfolding grown
  grown_new k q n [] older after = refl
  grown_new k q n ((p, keys, vals) ∷ log) older after =
      rw (lt→leb_false q p (omega (arith, older.0))) (grown_new k q n log older.1 after)

  -- What a pull enters is fresh, and what stays is what it was.
  enter-Known :
      (low p n : ℕ) (log : Log Val) (cs : List ℕ) (m m' : Map Val)
      → Older n log
      → n < p
      → low ≤ p
      → ((k : ℕ) → find k m' ≡ (if has k cs then some (serve p k) else find k m))
      → Known low p log m
      → Known low p log m'
  enter-Known low p n log cs m m' older after bound entered known k v there =
      elim (Bool-cases (has k cs)) [
        | inl e ↦ (
          p,
          bound,
          omega arith,
          let same : some (serve p k) ≡ some v = sym (entered k ∙ rw e refl) ∙ there in
              let same' : serve p k ≡ v = cc in sym same' ∙ sym (grown_new k p n log older after),
        )
        | inr e ↦ known k v (sym (entered k ∙ rw e refl) ∙ there)
      ]

  pub pushed-Known :
      (low p : ℕ) (log : Log Val) (keys : List ℕ) (vals : List Val) (m m' : Map Val)
      → ((k : ℕ) → find k m' ≡ Option.map (bumped zero_val add k keys vals) (find k m))
      → Known low p log m
      → Known low p ((p, keys, vals) ∷ log) m'
  unfolding grown
  pushed-Known low p log keys vals m m' pushed known k v there = elim (Option-cases (find k m)) [
    | inl e ↦ absurd (none_not-some (sym (rw e at (pushed k)) ∙ there))
    | inr (x, e) ↦
        let f = known k x e in
        let same : some (bumped zero_val add k keys vals x) ≡ some v =
          sym (rw e at (pushed k)) ∙ there in
        let same' : bumped zero_val add k keys vals x ≡ v = cc in
        (
          f.0,
          f.1,
          f.2,
          sym same' ∙ rw (le→leb f.0 p f.2) (ap (bumped zero_val add k keys vals) f.3),
        )
  ]
    where
      none_not-some : none ≡ some v → ⊥
      none_not-some e = cc

  -- A pull has made the cache fit for reading the keys.
  pub record IsRefreshed (log : Log Val) (p : ℕ) (keys : List ℕ) (w w' : PsMapNoneWorker Val)
      : Type 0 where
    pub known : Known w'.cache_ts p log w'.cached_kv
    pub there : AllIn keys w'.cached_kv
    pub recent : (keys ≡ []) ⊎ (p ≤ w'.cache_ts + w.staleness)
    pub same_push : w'.push_count ≡ w.push_count
    pub same_pull : w'.pull_count ≡ w.pull_count
    pub same_staleness : w'.staleness ≡ w.staleness

  all_entered :
      (s : ℕ → Val) (keys cs : List ℕ) (m m' : Map Val)
      → ((k : ℕ) → has k keys ≡ true → (has k cs ≡ true) ⊎ ((v : Val) × (find k m ≡ some v)))
      → ((k : ℕ) → find k m' ≡ (if has k cs then some (s k) else find k m))
      → (all : List ℕ) → ((k : ℕ) → has k all ≡ true → has k keys ≡ true)
      → AllIn all m'
  unfolding has
  all_entered s keys cs m m' covers entered [] sub = tt
  all_entered s keys cs m m' covers entered (k ∷ all) sub = (
    elim (covers k (sub k (rw (==_refl k) refl))) [
      | inl e ↦ (s k, entered k ∙ rw e refl)
      | inr (v, e) ↦ elim (Bool-cases (has k cs)) [
        | inl e' ↦ (s k, entered k ∙ rw e' refl)
        | inr e' ↦ (v, entered k ∙ rw e' e)
      ]
    ],
    all_entered s keys cs m m' covers entered all (λ j h. sub j (ground (arith, h))),
  )

  -- What `Pull` of the kv worker does with keys in ascending order: one value for each, in order.
  abbrev pub Serves : (ℕ → List ℕ → List Val) → Type 0
  Serves reply = (n : ℕ) (keys : List ℕ) → IsAscending keys → reply n keys ≡ map (serve n) keys

  missing-All :
      (P : ℕ → Type 0) (keys : List ℕ) (m : Map Val)
      → All P keys
      → All P (missing zero_val add keys m)
  unfolding missing
  missing-All P [] m h = tt
  missing-All P (k ∷ keys) m h = elim (Option-cases (find k m)) [
    | inl e ↦ rw (All, missing, e) (h.0, missing-All P keys m h.1)
    | inr (v, e) ↦ rw (All, missing, e) (missing-All P keys m h.1)
  ]

  missing-IsAscending :
      (keys : List ℕ) (m : Map Val) → IsAscending keys → IsAscending (missing zero_val add keys m)
  unfolding missing
  missing-IsAscending [] m h = tt
  missing-IsAscending (k ∷ keys) m h = elim (Option-cases (find k m)) [
    | inl e ↦
        rw (IsAscending, missing, e)
          (missing-All (λ j. k ≤ j) keys m h.0, missing-IsAscending keys m h.1)
    | inr (v, e) ↦ rw (IsAscending, missing, e) (missing-IsAscending keys m h.1)
  ]

  -- All keys are fetched into an empty cache.
  refresh_all :
      (reply : ℕ → List ℕ → List Val) (served : Serves reply) (log : Log Val) (keys : List ℕ)
      (w : PsMapNoneWorker Val)
      → Older w.push_count log
      → w.push_count < w.pull_count
      → Known w.cache_ts w.pull_count log w.cached_kv
      → IsAscending keys
      → (r : List (KvCall Val) × PsMapNoneWorker Val) × (refresh zero_val add reply keys keys w
          ≡ ok r)
        × IsRefreshed log w.pull_count keys w r.1
  unfolding refresh find
  refresh_all reply served log [] w older after known ascending = (
    ([], w),
    refl,
    record {
      known = known;
      there = tt;
      recent = inl refl;
      same_push = refl;
      same_pull = refl;
      same_staleness = refl;
    },
  )
  refresh_all reply served log (k ∷ keys) w older after known ascending =
      let e = enter_each_lem zero_val add (serve w.pull_count) (k ∷ keys) [] in
      (
        (
          pull_call (k ∷ keys) ∷ wait_call ∷ [],
          record w { cache_ts = w.pull_count; cached_kv = e.0; has_request = true },
        ),
        rw (==_refl (suc (length keys)), served w.pull_count (k ∷ keys) ascending) (rw (e.1) refl),
        record {
          known =
              enter-Known w.pull_count w.pull_count w.push_count log (k ∷ keys) [] e.0 older after
                (omega arith) e.2 (λ j v h. cc);
          there =
              all_entered (serve w.pull_count) (k ∷ keys) (k ∷ keys) [] e.0 (λ j h. inl h) e.2
                (k ∷ keys) (λ j h. h);
          recent = inr (omega arith);
          same_push = refl;
          same_pull = refl;
          same_staleness = refl;
        },
      )

  -- Only the missing keys are fetched, into a cache that is not too old.
  refresh_missing :
      (reply : ℕ → List ℕ → List Val) (served : Serves reply) (log : Log Val) (keys cs : List ℕ)
      (w : PsMapNoneWorker Val)
      → Older w.push_count log
      → w.push_count < w.pull_count
      → w.cache_ts ≤ w.pull_count
      → Known w.cache_ts w.pull_count log w.cached_kv
      → w.pull_count ≤ w.cache_ts + w.staleness
      → ((k : ℕ)
          → has k keys ≡ true
          → (has k cs ≡ true) ⊎ ((v : Val) × (find k w.cached_kv ≡ some v)))
      → (length cs == length keys) ≡ false
      → IsAscending cs
      → (r : List (KvCall Val) × PsMapNoneWorker Val) × (refresh zero_val add reply keys cs w
          ≡ ok r)
        × IsRefreshed log w.pull_count keys w r.1
  unfolding refresh has
  refresh_missing reply served log keys [] w older after bound known recent covers fewer ascending =
      (
        ([], w),
        refl,
        record {
          known = known;
          there =
              all_entered (serve w.pull_count) keys [] w.cached_kv w.cached_kv covers (λ k. refl)
                keys (λ k h. h);
          recent = inr recent;
          same_push = refl;
          same_pull = refl;
          same_staleness = refl;
        },
      )
  refresh_missing reply served log keys (c ∷ cs) w older after bound known recent covers fewer
        ascending =
      let e = enter_each_lem zero_val add (serve w.pull_count) (c ∷ cs) w.cached_kv in
      (
        (pull_call (c ∷ cs) ∷ wait_call ∷ [], record w { cached_kv = e.0; has_request = true }),
        rw (fewer, served w.pull_count (c ∷ cs) ascending) (rw (e.1) refl),
        record {
          known =
              enter-Known w.cache_ts w.pull_count w.push_count log (c ∷ cs) w.cached_kv e.0 older
                after bound e.2 known;
          there =
              all_entered (serve w.pull_count) keys (c ∷ cs) w.cached_kv e.0 covers e.2 keys
                (λ k h. h);
          recent = inr recent;
          same_push = refl;
          same_pull = refl;
          same_staleness = refl;
        },
      )

  missing_covers :
      (keys : List ℕ) (m : Map Val) (k : ℕ)
      → has k keys ≡ true
      → (has k (missing zero_val add keys m) ≡ true) ⊎ ((v : Val) × (find k m ≡ some v))
  missing_covers keys m k member = elim (Option-cases (find k m)) [
    | inl e ↦ inl (has-missing zero_val add k keys m e ∙ member)
    | inr found ↦ inr found
  ]

  low-le :
      (low p : ℕ) (log : Log Val) (m : Map Val)
      → (length m == 0) ≡ false
      → Known low p log m
      → low ≤ p
  unfolding find
  low-le low p log [] some_there known = cc
  low-le low p log ((k, v) ∷ m) some_there known =
      let f = known k v (rw (==_refl k) refl) in omega (arith, f.1, f.2)

  -- When nothing but missing keys is asked for, all of them are fetched.
  pub refresh-IsRefreshed :
      (reply : ℕ → List ℕ → List Val) (served : Serves reply) (log : Log Val) (keys : List ℕ)
      (w : PsMapNoneWorker Val)
      → Older w.push_count log
      → w.push_count < w.pull_count
      → Known w.cache_ts w.pull_count log w.cached_kv
      → IsAscending keys
      → (r : List (KvCall Val) × PsMapNoneWorker Val) × (refresh zero_val add reply keys
            (uncached_keys zero_val add keys w)
            w
          ≡ ok r)
        × IsRefreshed log w.pull_count keys w r.1
  unfolding uncached_keys
  refresh-IsRefreshed reply served log keys w older after known ascending =
      elim (Bool-cases (ltb (w.cache_ts + w.staleness) w.pull_count || length w.cached_kv == 0)) [
        | inl e ↦
            rw (uncached_keys, e) (refresh_all reply served log keys w older after known ascending)
        | inr e ↦
            rw (uncached_keys, e)
              (elim (Bool-cases (length (missing zero_val add keys w.cached_kv) == length keys)) [
                | inl all ↦
                    rw (missing_all zero_val add keys w.cached_kv (==→eq _ _ all))
                      (refresh_all reply served log keys w older after known ascending)
                | inr fewer ↦
                    refresh_missing reply served log keys (missing zero_val add keys w.cached_kv) w
                      older after
                      (low-le w.cache_ts w.pull_count log w.cached_kv (ground (arith, e)) known)
                      known (ground (arith, e)) (missing_covers keys w.cached_kv) fewer
                      (missing-IsAscending keys w.cached_kv ascending)
              ])
      ]
