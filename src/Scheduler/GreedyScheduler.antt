-- ===== src/Scheduler/GreedyScheduler.antt =====
-- cluster_manager/task_scheduler/greedy_task_scheduler.cpp: every task that is ready and finds threads runs.
pub mod Threads
use flexps_paper_version.Common.{
  ℕ, zero, suc, ◌+◌, Bool, true, false, Option, none, some, List, [], ◌∷◌, ◌++◌, map, Result, ok,
  err, out_of_range, ◌>>=◌, read, ◌==◌, ◌&&◌, if◌then◌else◌, length, set,
}
use flexps_paper_version.Scheduler.HistoryManager.{HistoryManager, get_preferred_proc, zeros}
use flexps_paper_version.Scheduler.SelectThreads.{
  Cluster, Kind, configurable, basic, other_kind, instance_basic_setup, global_guarantee_threads,
}
use flexps_paper_version.Scheduler.TaskManager.{ready, running, finished, all_finished}
use flexps_paper_version.Scheduler.Pool.{
  QueuedTask, Started, Pool, next_epoch, start_instance, return_thread,
}

-- A status is `ready`, `running` or `finished`.
pub record GreedyTaskScheduler (Remembered : Type 0) : Type 0 where
  pub tasks : List QueuedTask
  pub task_status : List ℕ
  pub num_processes : ℕ
  pub pool : Pool Remembered

-- `std::find_if`, and `distance` to what it finds.
unfoldable pub task_index : (id : ℕ) → List QueuedTask → Option (ℕ × QueuedTask)
task_index id [] = none
task_index id (task ∷ tasks) =
    let rest = task_index id tasks in
    if task.instance.id == id
    then some (0, task)
    else elim rest [ none ↦ none | some found ↦ some (suc found.0, found.1) ]

-- The processes from `i` on.
unfoldable pub processes_from : (i count : ℕ) → List ℕ
processes_from i zero = []
processes_from i (suc count) = i ∷ processes_from (suc i) count

module _ {Remembered : Type 0} where
  unfoldable pub init_greedy :
      Cluster
      → List QueuedTask
      → GreedyTaskScheduler Remembered
      → Result (GreedyTaskScheduler Remembered)
  unfolding global_guarantee_threads zeros
  init_greedy c tasks s = global_guarantee_threads c (map (λ t. t.instance) tasks) >>= λ _.
      ok (record s { tasks = tasks; task_status = zeros (length tasks) })

  -- The epoch of a task is over.
  unfoldable pub finish_task :
      Option (ℕ × QueuedTask)
      → GreedyTaskScheduler Remembered
      → Result (GreedyTaskScheduler Remembered)
  unfolding next_epoch
  finish_task none s = err out_of_range
  finish_task (some (i, task)) s = read s.task_status i >>= λ _.
      let next = next_epoch task in
      ok (record s {
        tasks = set s.tasks i next;
        task_status =
            set s.task_status i
              (if next.instance.epoch == next.total_epoch then finished else ready);
      })

  unfoldable pub finish_greedy :
      (proc_of : ℕ → ℕ)
      → (id tid : ℕ) → GreedyTaskScheduler Remembered
      → Result (GreedyTaskScheduler Remembered)
  unfolding return_thread task_index finish_task
  finish_greedy proc_of id tid s =
      let r = return_thread proc_of id tid s.pool in
      if r.0
      then finish_task (task_index id s.tasks) (record s { pool = r.1 })
      else ok (record s { pool = r.1 })

  -- A basic task that is not local may run anywhere, whatever its history.
  unfoldable pub candidates :
      Kind → (id num_processes : ℕ) → HistoryManager Remembered → List ℕ × HistoryManager Remembered
  unfolding get_preferred_proc processes_from
  candidates (basic false) id num_processes h = (processes_from 0 num_processes, h)
  candidates (basic true) id num_processes h = get_preferred_proc id h
  candidates (configurable nums hints) id num_processes h = get_preferred_proc id h
  candidates other_kind id num_processes h = get_preferred_proc id h

  -- A task that has found threads is marked as running.
  unfoldable pub note_start :
      (i : ℕ)
      → Option Started × Pool Remembered
      → GreedyTaskScheduler Remembered
      → List Started × GreedyTaskScheduler Remembered
  note_start i (none, pool) s = ([], record s { pool = pool })
  note_start i (some started, pool) s =
      (started ∷ [], record s { pool = pool; task_status = set s.task_status i running })

  unfoldable pub start_ready :
      (rand : ℕ → ℕ)
      → (i : ℕ) → QueuedTask
      → GreedyTaskScheduler Remembered
      → Result (List Started × GreedyTaskScheduler Remembered)
  unfolding instance_basic_setup candidates start_instance note_start
  start_ready rand i task s =
      let instance = instance_basic_setup task.instance in
      let chosen = candidates instance.kind instance.id s.num_processes s.pool.history in
      start_instance rand s.num_processes chosen.0 instance (record (s.pool) { history = chosen.1 })
      >>= λ r. ok (note_start i r s)

  -- The loop over the tasks, from the i-th on.
  unfoldable pub extract_from :
      (rand : ℕ → ℕ)
      → (i : ℕ) → List QueuedTask
      → GreedyTaskScheduler Remembered
      → Result (List Started × GreedyTaskScheduler Remembered)
  unfolding start_ready
  extract_from rand i [] s = ok ([], s)
  extract_from rand i (task ∷ tasks) s = read s.task_status i >>= λ status.
      (if status == ready then start_ready rand i task s else ok ([], s)) >>= λ one.
      extract_from rand (suc i) tasks one.1 >>= λ rest. ok (one.0 ++ rest.0, rest.1)

  unfoldable pub extract_greedy :
      (rand : ℕ → ℕ)
      → GreedyTaskScheduler Remembered
      → Result (List Started × GreedyTaskScheduler Remembered)
  unfolding extract_from
  extract_greedy rand s = extract_from rand 0 s.tasks s

  unfoldable pub greedy_is_finished : GreedyTaskScheduler Remembered → Bool
  unfolding all_finished
  greedy_is_finished s = all_finished s.task_status
