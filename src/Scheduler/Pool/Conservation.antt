-- ===== src/Scheduler/Pool/Conservation.antt =====
-- cluster_manager/task_scheduler/: every thread of the cluster is free or runs for one task, and stays so.
use flexps_paper_version.Common.{
  ℕ, ◌+◌, ◌≤◌, ◌≡◌, ◌&&◌, refl, ap, ◌∙◌, inl, inr, List, [], ◌∷◌, arith, ◌==◌, ==→eq, ==_refl,
  if◌then◌else◌, Bool-cases,
}
use flexps_paper_version.Common.Members.{has}
use flexps_paper_version.Common.Maps.{Map, IsMap, find_or, remove}
use flexps_paper_version.Scheduler.HistoryManager.{HistoryManager}
use flexps_paper_version.Scheduler.AvailableWorkers.{Thread, AvailableWorkers, add_worker, same}
use flexps_paper_version.Scheduler.AvailableWorkers.Counts.{count}
use flexps_paper_version.Scheduler.AvailableWorkers.Validity.{IsValid, Gives, add_worker-IsValid}
use flexps_paper_version.Scheduler.TaskManager.{track, is_empty}
use flexps_paper_version.Scheduler.Pool.{Pool, all_free, return_thread}
use flexps_paper_version.Scheduler.Pool.Running.{
  in_task, running, running-track, track-IsMap, running-left, running-gone, running-remove,
  left-IsMap, gone-IsMap, remove-IsMap, threads, left, gone,
}

pub return_thread-history :
    {Remembered : Type 0} (proc_of : ℕ → ℕ) (id tid : ℕ) (pool : Pool Remembered)
    → (return_thread proc_of id tid pool).1.history ≡ pool.history
unfolding return_thread
return_thread-history proc_of id tid pool =
    elim (Bool-cases (is_empty (threads id (proc_of tid) tid pool.tracked))) [
      | inr e ↦ rw e refl
      | inl e ↦
          elim (Bool-cases (is_empty (find_or [] id (gone id (proc_of tid) tid pool.tracked)))) [
            | inr e' ↦ rw e (rw e' refl)
            | inl e' ↦ rw e (rw e' refl)
          ]
    ]

-- The threads of the cluster: `whole p t` is 1 for thread t of process p, and else 0.
module _ {Remembered : Type 0} (whole : ℕ → ℕ → ℕ) where
  pub record IsConserved (pool : Pool Remembered) : Type 0 where
    pub valid : IsValid pool.available
    pub keys : IsMap pool.tracked
    pub kept :
        (p t : ℕ) → count (t, p) pool.available.workers + running p t pool.tracked ≡ whole p t

  -- A state after the end of a thread, whatever is cleaned up behind it.
  returned-IsConserved :
      (pid tid : ℕ) (pool : Pool Remembered) (tracked : Map (Map (List ℕ)))
      → ((p t : ℕ) → whole p t ≤ 1)
      → IsConserved pool
      → IsMap tracked
      → ((p t : ℕ)
          → running p t tracked + count (p, t) ((pid, tid) ∷ []) ≡ running p t pool.tracked)
      → IsConserved
          (record pool { available = add_worker pid tid pool.available; tracked = tracked })
        × (count (tid, pid) (add_worker pid tid pool.available).workers ≡ 1)
  unfolding count same
  returned-IsConserved pid tid pool tracked once c keys fewer =
      let added = add_worker-IsValid pid tid pool.available c.valid in
      (
        record {
          valid = added.0;
          keys = keys;
          kept = λ p t. ground (arith, added.1 p t, fewer p t, c.kept p t, once p t);
        },
        ground (arith, added.1 pid tid, ==_refl pid, ==_refl tid),
      )

  -- The end of a thread that runs for the task: it is free then.
  pub return_thread-IsConserved :
      (proc_of : ℕ → ℕ) (id tid : ℕ) (pool : Pool Remembered)
      → ((p t : ℕ) → whole p t ≤ 1)
      → IsConserved pool
      → in_task (proc_of tid) tid (find_or [] id pool.tracked) ≡ 1
      → IsConserved (return_thread proc_of id tid pool).1
        × (count (tid, proc_of tid) (return_thread proc_of id tid pool).1.available.workers ≡ 1)
  unfolding return_thread
  return_thread-IsConserved proc_of id tid pool once c runs =
      let pid = proc_of tid in
      let m = pool.tracked in
      let fewer = λ (p : ℕ) (t : ℕ). running-left id pid tid m p t runs in
      elim (Bool-cases (is_empty (threads id pid tid m))) [
        | inr e ↦ rw e (
            returned-IsConserved pid tid pool (left id pid tid m) once c
              (left-IsMap id pid tid m c.keys) fewer)
        | inl e ↦ elim (Bool-cases (is_empty (find_or [] id (gone id pid tid m)))) [
          | inr e' ↦ rw e (
              rw e' (
                returned-IsConserved pid tid pool (gone id pid tid m) once c
                  (gone-IsMap id pid tid m c.keys)
                  (λ p t. omega (arith, fewer p t, running-gone id pid tid m p t e))))
          | inl e' ↦ rw e (
              rw e' (
                returned-IsConserved pid tid pool (remove id (gone id pid tid m)) once c
                  (remove-IsMap id (gone id pid tid m) (gone-IsMap id pid tid m c.keys))
                  (λ p t. omega (
                    arith,
                    fewer p t,
                    running-gone id pid tid m p t e,
                    running-remove id pid tid m p t c.keys e',
                  ))))
        ]
      ]

  -- A selection of free threads runs from then on.
  pub start_selected-IsConserved :
      (id : ℕ) (selected : List Thread) (pool : Pool Remembered) (available : AvailableWorkers)
      (h : HistoryManager Remembered)
      → ((p t : ℕ) → whole p t ≤ 1)
      → IsConserved pool
      → IsValid available
      → Gives pool.available selected available
      → IsConserved
          (record { available = available; tracked = track id selected pool.tracked; history = h })
  start_selected-IsConserved id selected pool available h once c valid gives = record {
    valid = valid;
    keys = track-IsMap id selected pool.tracked c.keys;
    kept = λ p t. omega (
      arith,
      gives p t,
      c.kept p t,
      once p t,
      running-track p t id selected pool.tracked (omega (arith, gives p t, c.kept p t, once p t)),
    );
  }

-- At first the threads that are added are free, and no others.
pub all_free-IsValid :
    (proc_of : ℕ → ℕ) (tids : List ℕ) (s : AvailableWorkers)
    → IsValid s
    → IsValid (all_free proc_of tids s)
      × ((p t : ℕ)
          → count (t, p) (all_free proc_of tids s).workers
            ≡ (if has t tids && proc_of t == p then 1 else count (t, p) s.workers))
unfolding all_free has same
all_free-IsValid proc_of [] s valid = (valid, λ p t. refl)
all_free-IsValid proc_of (tid ∷ tids) s valid =
    let added = add_worker-IsValid (proc_of tid) tid s valid in
    let rest = all_free-IsValid proc_of tids (add_worker (proc_of tid) tid s) added.0 in
    (
      rest.0,
      λ p t. rest.1 p t ∙ elim (Bool-cases (t == tid)) [
        | inl e ↦ elim (Bool-cases (proc_of t == p)) [
          | inl at_p ↦ ground (arith, added.1 p t, e, at_p, ap proc_of (==→eq t tid e))
          | inr off_p ↦ ground (arith, added.1 p t, e, off_p, ap proc_of (==→eq t tid e))
        ]
        | inr e ↦ ground (arith, added.1 p t, e)
      ],
    )
