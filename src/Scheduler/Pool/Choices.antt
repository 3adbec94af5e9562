-- ===== src/Scheduler/Pool/Choices.antt =====
-- cluster_manager/task_scheduler/: a selection for any kind of task, and the history over selections.
use flexps_paper_version.Common.{
  ℕ, suc, ◌%◌, ◌≤◌, ◌<◌, ◌≡◌, ◌≢◌, ◌⊎◌, refl, sym, subst, ok-injective, out_of_range, ap, ◌∙◌, inl,
  inr, true, false, none, some, List, [], ◌∷◌, map, Result, ok, err, arith, ◌==◌, ==_refl,
  Bool-cases, ◌>>=◌, >>=-eq-ok, length, ltb, add_at, length-add_at, read,
}
use flexps_paper_version.Common.Members.{has}
use flexps_paper_version.Common.Maps.{find_or-modify, find_or-modify_const}
use flexps_paper_version.Scheduler.HistoryManager.{
  HistoryManager, update_history, get_task_history, visit, zeros, unique, sort, get_preferred_proc,
  places,
}
use flexps_paper_version.Scheduler.HistoryManager.Visits.{update_history-Visits}
use flexps_paper_version.Scheduler.AvailableWorkers.{
  Thread, AvailableWorkers, get_traverse_workers, get_workers, same,
}
use flexps_paper_version.Scheduler.AvailableWorkers.Selection.{get_traverse_workers-Selects}
use flexps_paper_version.Scheduler.AvailableWorkers.Counts.{count}
use flexps_paper_version.Scheduler.AvailableWorkers.Validity.{IsValid, Gives}
use flexps_paper_version.Scheduler.SelectThreads.{
  Hint, Kind, Instance, configurable, basic, other_kind, select_hint, select_configured,
  select_spread, select_threads_from_subset, threads_per_worker, threads_per_cluster, local_threads,
  threads_traverse_cluster, threads_on_worker, other_hint,
}
use flexps_paper_version.Common.Members.{IsDistinct}
use flexps_paper_version.Scheduler.SelectThreads.Hints.{
  select_configured-Selected, select_local-Selects,
}
use flexps_paper_version.Scheduler.SelectThreads.Totals.{select_spread-Spreads}

length-visit :
    (pids counts counts' : List ℕ) → visit pids counts ≡ ok counts' → length counts' ≡ length counts
unfolding visit
length-visit [] counts counts' e = ap length (sym (ok-injective e))
length-visit (pid ∷ pids) counts counts' e = elim (Bool-cases (ltb pid (length counts))) [
  | inl below ↦
      length-visit pids (add_at pid counts) counts' (rw below at e) ∙ length-add_at pid counts
  | inr beyond ↦ absurd (err_not-ok (rw beyond at e))
]
  where
    err_not-ok : err out_of_range ≡ ok counts' → ⊥
    err_not-ok e = cc

-- A process of a selection has a thread of it.
has-count :
    (q : ℕ) (selected : List Thread)
    → has q (map (λ w. w.0) selected) ≡ true
    → (t : ℕ) × (1 ≤ count (q, t) selected)
unfolding has count same
has-count q [] e = cc
has-count q ((pid, tid) ∷ selected) e = elim (Bool-cases (q == pid)) [
  | inl here ↦ (tid, rw (here, ==_refl tid) (omega arith))
  | inr there ↦ let (t, le) = has-count q selected (rw there at e) in (t, omega (arith, le))
]

module _ {Remembered : Type 0} where
  -- Every task has, or will get, a count for each of `n` processes.
  abbrev pub FitsHistory : ℕ → HistoryManager Remembered → Type 0
  FitsHistory n h = (id : ℕ) → length (get_task_history id h).0 ≡ n

  pub looked-FitsHistory :
      (n id : ℕ) (h : HistoryManager Remembered)
      → FitsHistory n h
      → FitsHistory n (get_task_history id h).1
  unfolding get_task_history
  looked-FitsHistory n id h fits j =
      ap length (find_or-modify (zeros h.num_processes) j id (λ c. c) h.history)
      ∙ elim (Bool-cases (j == id)) [ inl e ↦ rw e (fits id) | inr e ↦ rw e (fits j) ]

  updated-FitsHistory :
      (n id : ℕ) (selected : List Thread) (h h' : HistoryManager Remembered)
      → FitsHistory n h
      → update_history id selected h ≡ ok h'
      → FitsHistory n h'
  unfolding update_history get_task_history
  updated-FitsHistory n id selected h h' fits done j =
      let (counts, visited, e) =
        >>=-eq-ok (visit (unique (sort (map (λ w. w.0) selected))) (get_task_history id h).0) _
          done in
      let h1 = (get_task_history id h).1 in
      subst (λ (x : HistoryManager Remembered). length (get_task_history j x).0 ≡ n)
        (ok-injective e)
        (ap length (find_or-modify_const (zeros h.num_processes) [] j id counts h1.history)
          ∙ elim (Bool-cases (j == id)) [
            | inl at_id ↦ rw at_id (length-visit _ _ counts visited ∙ fits id)
            | inr other ↦ rw other (looked-FitsHistory n id h fits j)
          ])

  -- A selection of processes that the history has is entered.
  pub update_history-FitsHistory :
      (n id : ℕ) (selected : List Thread) (h : HistoryManager Remembered)
      → FitsHistory n h
      → ((p t : ℕ) → 1 ≤ count (p, t) selected → p < n)
      → (h' : HistoryManager Remembered) × (update_history id selected h ≡ ok h') × FitsHistory n h'
  update_history-FitsHistory n id selected h fits inside =
      let done =
        update_history-Visits id selected h (λ q e.
          (let (t, le) = has-count q selected e in omega (arith, inside q t le, fits id))) in
      (done.0, done.1, updated-FitsHistory n id selected h done.0 fits done.1)

-- The settings of a task: at least as many as its numbers of threads, and one number at least.
abbrev pub IsLegal : Kind → Type 0
IsLegal (configurable nums hints) = (0 < length nums) × (length nums ≤ length hints)
IsLegal (basic local) = Unit
IsLegal other_kind = Unit

module _ {Remembered : Type 0} (rand : ℕ → ℕ) (n : ℕ) (id : ℕ) (h : HistoryManager Remembered)
    (s : AvailableWorkers) where
  -- A selection that meets no error: it takes just what it gives, and the history is looked up at most.
  abbrev pub Chosen : Result ((List Thread × AvailableWorkers) × HistoryManager Remembered) → Type 0
  Chosen r =
      (got : List Thread × AvailableWorkers) × (h' : HistoryManager Remembered) × (r ≡ ok (got, h'))
      × IsValid got.1
      × Gives s got.0 got.1
      × ((h' ≡ h) ⊎ (h' ≡ (get_task_history id h).1))

  select_hint-history :
      (hint : Hint) (m : ℕ) (got : List Thread × AvailableWorkers) (h' : HistoryManager Remembered)
      → (length (get_task_history id h).0 == 0) ≡ false
      → IsValid s
      → select_hint rand n hint m id h s ≡ ok (got, h')
      → (h' ≡ h) ⊎ (h' ≡ (get_task_history id h).1)
  unfolding select_hint get_traverse_workers
  select_hint-history threads_per_worker m got h' known valid e = inl cc
  select_hint-history threads_per_cluster m got h' known valid e =
      let r = >>=-eq-ok (get_workers rand m s) _ e in inl (let same = r.2 in cc)
  select_hint-history local_threads m got h' known valid e = inl cc
  select_hint-history threads_traverse_cluster m got h' known valid e =
      let (other, done, selects) = get_traverse_workers-Selects id m n h s known valid in
      inr (let same : ok (other, (get_task_history id h).1) ≡ ok (got, h') = sym done ∙ e in cc)
  select_hint-history (threads_on_worker (some pid)) m got h' known valid e = inl cc
  select_hint-history (threads_on_worker none) m got h' known valid e = inl cc
  select_hint-history other_hint m got h' known valid e = inl cc

  spread-Chosen :
      (wanted : ℕ) (pids : List ℕ)
      → IsValid s
      → n ≢ 0
      → length pids ≤ n
      → IsDistinct pids
      → Chosen (select_spread wanted n pids s >>= λ got. ok (got, h))
  spread-Chosen wanted pids valid positive few distinct =
      let (got, done, kept) = select_spread-Spreads wanted n pids s positive few distinct valid in
      (got, h, rw done refl, kept.0, kept.1, inl refl)

  configured-Chosen :
      (nums : List ℕ) (hints : List Hint) (epoch : ℕ)
      → IsLegal (configurable nums hints)
      → IsValid s
      → (length (get_task_history id h).0 == 0) ≡ false
      → Chosen (select_configured rand n nums hints id epoch h s)
  unfolding select_configured
  configured-Chosen [] hints epoch legal valid known =
      absurd (let no : ¬ (0 < 0) = omega arith in no legal.0)
  configured-Chosen (m ∷ nums) hints epoch legal valid known =
      let pos = epoch % length (m ∷ nums) in
      let (got, h', done, kept) =
        select_configured-Selected rand n h s m nums hints id epoch valid legal.1 known in
      let (hint, _, rest) = >>=-eq-ok (read hints pos) _ done in
      let (k, _, last) = >>=-eq-ok (read (m ∷ nums) pos) _ rest in
      (got, h', done, kept.0, kept.1, select_hint-history hint k got h' known valid last)

  pub select-Chosen :
      (wanted : ℕ) (pids : List ℕ) (instance : Instance) (kind : Kind)
      → instance.id ≡ id
      → instance.kind ≡ kind
      → IsValid s
      → IsLegal kind
      → n ≢ 0
      → length pids ≤ n
      → IsDistinct pids
      → (length (get_task_history id h).0 == 0) ≡ false
      → Chosen (select_threads_from_subset rand n wanted pids instance h s)
  unfolding select_threads_from_subset
  select-Chosen wanted pids instance (configurable nums hints) same_id e valid legal positive few
        distinct known =
      rw (select_threads_from_subset, e, same_id)
        (configured-Chosen nums hints instance.epoch legal valid known)
  select-Chosen wanted pids instance (basic true) same_id e valid legal positive few distinct
        known =
      let (got, done, kept) = select_local-Selects wanted n pids s valid in
      rw (select_threads_from_subset, e) (got, h, rw done refl, kept.0, kept.1, inl refl)
  select-Chosen wanted pids instance (basic false) same_id e valid legal positive few distinct
        known =
      rw (select_threads_from_subset, e) (spread-Chosen wanted pids valid positive few distinct)
  select-Chosen wanted pids instance other_kind same_id e valid legal positive few distinct known =
      rw (select_threads_from_subset, e) (spread-Chosen wanted pids valid positive few distinct)

-- The processes that are preferred: each once, and no more than there are.
length-places-le : (i x : ℕ) (ys : List ℕ) → length (places i x ys) ≤ length ys
unfolding places
length-places-le i x [] = omega arith
length-places-le i x (y ∷ ys) = ground (arith, length-places-le (suc i) x ys)

has-places : (i x j : ℕ) (ys : List ℕ) → j < i → has j (places i x ys) ≡ false
unfolding places has
has-places i x j [] below = refl
has-places i x j (y ∷ ys) below = ground (arith, has-places (suc i) x j ys (omega arith))

places-IsDistinct : (i x : ℕ) (ys : List ℕ) → IsDistinct (places i x ys)
unfolding places
places-IsDistinct i x [] = tt
places-IsDistinct i x (y ∷ ys) = elim (Bool-cases (y == x)) [
  | inl e ↦ rw e (has-places (suc i) x i ys (omega arith), places-IsDistinct (suc i) x ys)
  | inr e ↦ rw e (places-IsDistinct (suc i) x ys)
]

pub preferred-IsDistinct :
    {Remembered : Type 0} (id : ℕ) (h : HistoryManager Remembered)
    → IsDistinct (get_preferred_proc id h).0
      × (length (get_preferred_proc id h).0 ≤ length (get_task_history id h).0)
unfolding get_preferred_proc
preferred-IsDistinct id h = (
  places-IsDistinct 0 _ (get_task_history id h).0,
  length-places-le 0 _ (get_task_history id h).0,
)
