-- ===== src/Scheduler/AvailableWorkers/Validity.antt =====
-- cluster_manager/task_scheduler/available_workers.hpp: the set of all
-- free threads and the sets of the processes agree, and threads that are taken are lost nowhere.
use flexps_paper_version.Common.{
  ℕ, ◌+◌, ◌≤◌, ◌≡◌, sym, ◌∙◌, inl, inr, List, [], ◌∷◌, arith, ◌==◌, ==→eq, if◌then◌else◌,
  Bool-cases,
}
use flexps_paper_version.Common.Members.{insert, erase}
use flexps_paper_version.Common.Maps.{Map, IsMap, find_or, modify, find_or-modify, modify-IsMap}
use flexps_paper_version.Scheduler.AvailableWorkers.{
  Thread, same, AvailableWorkers, add_worker, remove_worker, erase_all, erase_tids, take_threads,
}
use flexps_paper_version.Scheduler.AvailableWorkers.Counts.{
  count, count_tid, count-erase_thread, count-insert_thread, count_tid-erase, count_tid-insert,
  count-erase_all, count_tid-erase_tids,
}

-- The set of all free threads and the sets of the processes have the same threads, each once, and
-- each process has one set.
abbrev Agrees : AvailableWorkers → Type 0
Agrees s =
    (p t : ℕ)
    → (count (t, p) s.workers ≡ count_tid t (find_or [] p s.pid_tids))
      × (count (t, p) s.workers ≤ 1)

pub record IsValid (s : AvailableWorkers) : Type 0 where
  pub agree : Agrees s
  pub keys : IsMap s.pid_tids

-- Between two states just the threads of a selection go.
abbrev pub Gives : AvailableWorkers → List Thread → AvailableWorkers → Type 0
Gives s selected s' =
    (p t : ℕ) → count (t, p) s.workers ≡ count (t, p) s'.workers + count (p, t) selected

erase_tids-IsMap :
    (selected : List Thread) (m : Map (List ℕ)) → IsMap m → IsMap (erase_tids selected m)
unfolding erase_tids
erase_tids-IsMap [] m h = h
erase_tids-IsMap ((pid, tid) ∷ selected) m h =
    erase_tids-IsMap selected (modify [] pid (erase tid) m) (modify-IsMap [] pid (erase tid) m h)

-- Erasing a selection from the sets of the processes, too, keeps the two views in agreement.
pub erase_tids-IsValid :
    (selected ws : List Thread) (s : AvailableWorkers)
    → IsValid s
    → Gives s selected (record { workers = ws; pid_tids = erase_tids selected s.pid_tids })
    → IsValid (record { workers = ws; pid_tids = erase_tids selected s.pid_tids })
erase_tids-IsValid selected ws s valid gives = record {
  agree = λ p t. (
    ground (arith, gives p t, valid.agree p t, count_tid-erase_tids p t selected s.pid_tids),
    omega (arith, gives p t, (valid.agree p t).1),
  );
  keys = erase_tids-IsMap selected s.pid_tids valid.keys;
}

pub erase_all-Gives :
    (p t : ℕ) (selected : List Thread) (s : AvailableWorkers)
    → IsValid s
    → count (p, t) selected ≤ count (t, p) s.workers
    → count (t, p) s.workers ≡ count (t, p) (erase_all selected s.workers) + count (p, t) selected
erase_all-Gives p t selected s valid free =
    ground (arith, count-erase_all p t selected s.workers, (valid.agree p t).1, free)

-- Taking free threads, each at most once.
pub take_threads-IsValid :
    (selected : List Thread) (s : AvailableWorkers)
    → IsValid s
    → ((p t : ℕ) → count (p, t) selected ≤ count (t, p) s.workers)
    → IsValid (take_threads selected s) × Gives s selected (take_threads selected s)
unfolding take_threads
take_threads-IsValid selected s valid free =
    let gives = λ (p : ℕ) (t : ℕ). erase_all-Gives p t selected s valid (free p t) in
    (erase_tids-IsValid selected (erase_all selected s.workers) s valid gives, gives)

added :
    (pid tid p t : ℕ) (s : AvailableWorkers)
    → IsValid s
    → count_tid t (find_or [] p (modify [] pid (insert tid) s.pid_tids))
      ≡ (if same (t, p) (tid, pid) then 1 else count (t, p) s.workers)
unfolding same
added pid tid p t s valid =
    rw (find_or-modify [] p pid (insert tid) s.pid_tids) (elim (Bool-cases (p == pid)) [
      | inl here ↦
          let most : count_tid t (find_or [] pid s.pid_tids) ≤ 1 =
            omega (arith, (valid.agree pid t).0, (valid.agree pid t).1) in
          rw (here, ==→eq p pid here)
            (rw (count_tid-insert t tid (find_or [] pid s.pid_tids) most)
              (ground (arith, (valid.agree pid t).0)))
      | inr there ↦ rw there (ground (arith, there, (valid.agree p t).0))
    ])

-- Adding a worker to a valid state makes that thread free, once, changes no other thread, and
-- keeps the state valid.
pub add_worker-IsValid :
    (pid tid : ℕ) (s : AvailableWorkers)
    → IsValid s
    → IsValid (add_worker pid tid s)
      × ((p t : ℕ)
          → count (t, p) (add_worker pid tid s).workers
            ≡ (if same (t, p) (tid, pid) then 1 else count (t, p) s.workers))
unfolding add_worker
add_worker-IsValid pid tid s valid =
    let counted =
      λ (p : ℕ) (t : ℕ). count-insert_thread (t, p) (tid, pid) s.workers (valid.agree p t).1 in
    (
      record {
        agree = λ p t. (
          counted p t ∙ sym (added pid tid p t s valid),
          ground (arith, counted p t, (valid.agree p t).1),
        );
        keys = modify-IsMap [] pid (insert tid) s.pid_tids valid.keys;
      },
      counted,
    )

removed :
    (pid tid p t : ℕ) (s : AvailableWorkers)
    → IsValid s
    → count_tid t (find_or [] p (modify [] pid (erase tid) s.pid_tids))
      ≡ (if same (t, p) (tid, pid) then 0 else count (t, p) s.workers)
unfolding same
removed pid tid p t s valid =
    rw (find_or-modify [] p pid (erase tid) s.pid_tids) (elim (Bool-cases (p == pid)) [
      | inl here ↦
          rw (here, ==→eq p pid here)
            (rw (count_tid-erase t tid (find_or [] pid s.pid_tids))
              (ground (arith, (valid.agree pid t).0)))
      | inr there ↦ rw there (ground (arith, there, (valid.agree p t).0))
    ])

-- Removing a worker from a valid state makes that thread free no more, changes no other thread,
-- and keeps the state valid.
pub remove_worker-IsValid :
    (pid tid : ℕ) (s : AvailableWorkers)
    → IsValid s
    → IsValid (remove_worker pid tid s)
      × ((p t : ℕ)
          → count (t, p) (remove_worker pid tid s).workers
            ≡ (if same (t, p) (tid, pid) then 0 else count (t, p) s.workers))
unfolding remove_worker
remove_worker-IsValid pid tid s valid =
    let counted = λ (p : ℕ) (t : ℕ). count-erase_thread (t, p) (tid, pid) s.workers in
    (
      record {
        agree = λ p t. (
          counted p t ∙ sym (removed pid tid p t s valid),
          ground (arith, counted p t, (valid.agree p t).1),
        );
        keys = modify-IsMap [] pid (erase tid) s.pid_tids valid.keys;
      },
      counted,
    )
