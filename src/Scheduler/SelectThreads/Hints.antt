-- ===== src/Scheduler/SelectThreads/Hints.antt =====
-- cluster_manager/task_scheduler/task_scheduler_utils.cpp: the selection for a task with its own
-- settings, and for a local task.
use flexps_paper_version.Common.{
  ℕ, ◌*◌, ◌%◌, ◌<◌, ◌≤◌, ◌≡◌, refl, ap, inl, inr, Bool, true, false, ◌||◌, none, some, List, [],
  ◌∷◌, Result, ok, read-get_or, get_or, arith, ◌==◌, eq→==, Bool-cases, length,
}
use flexps_paper_version.Scheduler.HistoryManager.{HistoryManager, get_task_history}
use flexps_paper_version.Scheduler.AvailableWorkers.{
  Thread, AvailableWorkers, group, get_workers_exact_process,
}
use flexps_paper_version.Scheduler.AvailableWorkers.Counts.{count}
use flexps_paper_version.Scheduler.AvailableWorkers.Validity.{IsValid}
use flexps_paper_version.Scheduler.AvailableWorkers.Selection.{
  Selects, Selects-nothing, get_workers_exact_process-Selects, get_workers_per_process-Selects,
  get_local_workers-Selects, get_traverse_workers-Selects, count-void,
}
use flexps_paper_version.Scheduler.AvailableWorkers.Selection.Draws.{get_workers-Selects}
use flexps_paper_version.Scheduler.SelectThreads.{
  Hint, select_hint, select_configured, local_from, select_local, threads_per_worker,
  threads_per_cluster, local_threads, threads_traverse_cluster, threads_on_worker, other_hint,
}

-- The number of threads that a setting asks for: `n` of each process, or `n`.
abbrev pub asked : Hint → (n num_processes : ℕ) → AvailableWorkers → ℕ
asked threads_per_worker n num_processes s = n * length (group num_processes s.workers)
asked _ n num_processes s = n

-- A selection, and the history after it.
abbrev pub Selected :
    {Remembered : Type 0}
    → ℕ
    → AvailableWorkers
    → Result ((List Thread × AvailableWorkers) × HistoryManager Remembered)
    → Type 0
Selected {Remembered = Remembered} n s r =
    (got : List Thread × AvailableWorkers) × (h' : HistoryManager Remembered) × (r ≡ ok (got, h'))
    × Selects n s got

module _ {Remembered : Type 0} (rand : ℕ → ℕ) (num_processes : ℕ) (h : HistoryManager Remembered)
    (s : AvailableWorkers) (valid : IsValid s) where
  select_hint-Selected :
      (hint : Hint) (n id : ℕ)
      → (length (get_task_history id h).0 == 0) ≡ false
      → Selected (asked hint n num_processes s) s (select_hint rand num_processes hint n id h s)
  unfolding select_hint
  select_hint-Selected threads_per_worker n id known =
      (_, h, refl, get_workers_per_process-Selects n num_processes s valid)
  select_hint-Selected threads_per_cluster n id known =
      let (got, e, selects) = get_workers-Selects rand n s valid in (got, h, rw e refl, selects)
  select_hint-Selected local_threads n id known = (_, h, refl, get_local_workers-Selects n s valid)
  select_hint-Selected threads_traverse_cluster n id known =
      let (got, e, selects) = get_traverse_workers-Selects id n num_processes h s known valid in
      (got, (get_task_history id h).1, e, selects)
  select_hint-Selected (threads_on_worker (some pid)) n id known =
      (_, h, refl, get_workers_exact_process-Selects n pid num_processes s valid)
  select_hint-Selected (threads_on_worker none) n id known = (_, h, refl, Selects-nothing n s valid)
  select_hint-Selected other_hint n id known = (_, h, refl, Selects-nothing n s valid)

pub select_configured-Selected :
    {Remembered : Type 0} (rand : ℕ → ℕ) (num_processes : ℕ) (h : HistoryManager Remembered)
    (s : AvailableWorkers) (m : ℕ) (nums : List ℕ) (hints : List Hint) (id epoch : ℕ)
    → IsValid s
    → length (m ∷ nums) ≤ length hints
    → (length (get_task_history id h).0 == 0) ≡ false
    → Selected
        (asked
          (get_or hints (epoch % length (m ∷ nums)) other_hint)
          (get_or (m ∷ nums) (epoch % length (m ∷ nums)) 0)
          num_processes
          s)
        s
        (select_configured rand num_processes (m ∷ nums) hints id epoch h s)
unfolding select_configured
select_configured-Selected rand num_processes h s m nums hints id epoch valid enough known =
    let pos : ℕ = epoch % length (m ∷ nums) in
    let inside : pos < length (m ∷ nums) = omega arith in
    rw
      (
        read-get_or hints pos other_hint (omega (arith, inside, enough)),
        read-get_or (m ∷ nums) pos 0 inside,
      )
      (select_hint-Selected rand num_processes h s valid (get_or hints pos other_hint)
        (get_or (m ∷ nums) pos 0) id known)

count-nothing : (p t : ℕ) (selected : List Thread) → selected ≡ [] → count (p, t) selected ≡ 0
count-nothing p t selected e = count-void p t selected (ap (λ (ws : List Thread). length ws == 0) e)

-- The candidates one after the other, until one has enough threads: all of them, or none.
local_from-Selects :
    (n num_processes : ℕ) (pids : List ℕ) (s : AvailableWorkers)
    → IsValid s
    → Selects n s (local_from n num_processes [] pids s)
unfolding local_from
local_from-Selects n num_processes [] s valid = Selects-nothing n s valid
local_from-Selects n num_processes (pid ∷ pids) s valid =
    let got = get_workers_exact_process n pid num_processes s in
    let (kept, gives, size) = get_workers_exact_process-Selects n pid num_processes s valid in
    elim (Bool-cases (length got.0 == n)) [
      | inl full ↦ rw full (kept, gives, size)
      | inr short ↦ elim size [
        | inl full ↦ absurd (clash (eq→== (length got.0) n full) short)
        | inr void ↦
            let (rest, more, left) = local_from-Selects n num_processes pids got.1 kept in
            rw short (
              rw void (
                rest,
                λ p t. omega (arith, gives p t, more p t, count-nothing p t got.0 void),
                left,
              ))
      ]
    ]
  where
    clash : {b : Bool} → b ≡ true → b ≡ false → ⊥
    clash e f = cc

-- In a valid state the selection for a local task meets no failed assertion, gives as many threads
-- as it is asked for or none, exactly these are free no more, and the state stays valid.
pub select_local-Selects :
    (n num_processes : ℕ) (pids : List ℕ) (s : AvailableWorkers)
    → IsValid s
    → (got : List Thread × AvailableWorkers) × (select_local n num_processes pids s ≡ ok got)
      × Selects n s got
unfolding select_local
select_local-Selects n num_processes pids s valid =
    let got = local_from n num_processes [] pids s in
    let selects = local_from-Selects n num_processes pids s valid in
    let holds : (length got.0 == n || length got.0 == 0) ≡ true = elim selects.2 [
      | inl full ↦ rw (eq→== (length got.0) n full) refl
      | inr void ↦ rw void (ground arith)
    ] in
    (got, rw holds refl, selects)
