-- ===== src/Scheduler/Pool.antt =====
-- cluster_manager/task_scheduler/: what sequential_task_scheduler.cpp and greedy_task_scheduler.cpp share: the
-- free threads, the running threads of each task (`task_id_pid_tids_`), and the history, a singleton. A thread
-- of the cluster is of the process `proc_of` gives.
pub mod Choices
pub mod Running
pub mod Conservation
pub mod Starts
mod Examples
use flexps_paper_version.Common.{
  ℕ, zero, suc, ◌+◌, Bool, true, false, Option, none, some, List, [], ◌∷◌, ◌++◌, Result, ok, err,
  ◌>>=◌, ◌==◌, if◌then◌else◌,
}
use flexps_paper_version.Common.Members.{erase}
use flexps_paper_version.Common.Maps.{Map, find_or, modify, remove}
use flexps_paper_version.Scheduler.HistoryManager.{HistoryManager, update_history}
use flexps_paper_version.Scheduler.AvailableWorkers.{Thread, AvailableWorkers, add_worker}
use flexps_paper_version.Scheduler.SelectThreads.{Instance, select_threads_from_subset}
use flexps_paper_version.Scheduler.TaskManager.{track, is_empty}

-- A task of the queue, as the instance of its current epoch.
pub record QueuedTask : Type 0 where
  pub instance : Instance
  pub total_epoch : ℕ

unfoldable pub next_epoch : QueuedTask → QueuedTask
next_epoch task = record task {
  instance = record (task.instance) { epoch = task.instance.epoch + 1 };
}

-- An instance with its threads by process, each with its number in the instance.
pub record Started : Type 0 where
  pub instance : Instance
  pub cluster : Map (List (ℕ × ℕ))

-- `add_thread` for each thread, with `j++`.
unfoldable pub add_threads : (j : ℕ) → List Thread → Map (List (ℕ × ℕ)) → Map (List (ℕ × ℕ))
unfolding modify
add_threads j [] m = m
add_threads j ((pid, tid) ∷ rest) m =
    add_threads (suc j) rest (modify [] pid (λ ts. ts ++ (tid, j) ∷ []) m)

pub record Pool (Remembered : Type 0) : Type 0 where
  pub available : AvailableWorkers
  pub tracked : Map (Map (List ℕ))
  pub history : HistoryManager Remembered

-- The constructors: every thread of the cluster is free.
unfoldable pub all_free : (proc_of : ℕ → ℕ) → List ℕ → AvailableWorkers → AvailableWorkers
unfolding add_worker
all_free proc_of [] s = s
all_free proc_of (tid ∷ tids) s = all_free proc_of tids (add_worker (proc_of tid) tid s)

module _ {Remembered : Type 0} where
  -- A selection of threads starts the instance, unless it is empty.
  unfoldable pub start_selected :
      Instance → List Thread → Pool Remembered → Result (Option Started × Pool Remembered)
  unfolding add_threads track update_history
  start_selected instance [] pool = ok (none, pool)
  start_selected instance (w ∷ selected) pool =
      update_history instance.id (w ∷ selected) pool.history >>= λ h. ok (
        some (record { instance = instance; cluster = add_threads 0 (w ∷ selected) [] }),
        record pool { tracked = track instance.id (w ∷ selected) pool.tracked; history = h },
      )

  unfoldable pub start_instance :
      (rand : ℕ → ℕ)
      → (num_processes : ℕ) → List ℕ
      → Instance
      → Pool Remembered
      → Result (Option Started × Pool Remembered)
  unfolding select_threads_from_subset start_selected
  start_instance rand num_processes pids instance pool =
      select_threads_from_subset rand num_processes instance.num_workers pids instance pool.history
        pool.available
      >>= λ got.
          start_selected instance got.0.0 (record pool { available = got.0.1; history = got.1 })

  -- A thread of a task ends; whether it was the last one.
  unfoldable pub return_thread :
      (proc_of : ℕ → ℕ) → (id tid : ℕ) → Pool Remembered → Bool × Pool Remembered
  unfolding find_or modify remove erase add_worker is_empty
  return_thread proc_of id tid pool =
      let pid = proc_of tid in
      let threads = erase tid (find_or [] pid (find_or [] id pool.tracked)) in
      let available = add_worker pid tid pool.available in
      let left = modify [] id (modify [] pid (λ _. threads)) pool.tracked in
      let gone = modify [] id (remove pid) left in
      if is_empty threads
      then (if is_empty (find_or [] id gone)
          then (true, record pool { available = available; tracked = remove id gone })
          else (false, record pool { available = available; tracked = gone }))
      else (false, record pool { available = available; tracked = left })
