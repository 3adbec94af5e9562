-- ===== src/Scheduler/SequentialScheduler.antt =====
-- cluster_manager/task_scheduler/sequential_task_scheduler.cpp: one task after the other, epoch by epoch.
pub mod Threads
use flexps_paper_version.Common.{
  ℕ, zero, suc, ◌+◌, Bool, true, false, not, ◌||◌, Option, none, some, List, [], ◌∷◌, ◌++◌, map,
  Result, ok, err, cannot_assign, out_of_range, ◌>>=◌, ◌==◌, if◌then◌else◌,
}
use flexps_paper_version.Scheduler.HistoryManager.{get_preferred_proc}
use flexps_paper_version.Scheduler.SelectThreads.{
  Cluster, instance_basic_setup, global_guarantee_threads,
}
use flexps_paper_version.Scheduler.TaskManager.{is_empty}
use flexps_paper_version.Scheduler.Pool.{
  QueuedTask, Started, Pool, next_epoch, start_instance, return_thread,
}

pub record SequentialTaskScheduler (Remembered : Type 0) : Type 0 where
  pub tasks_queue : List QueuedTask
  pub num_processes : ℕ
  pub pool : Pool Remembered

-- The epoch of the first task is over.
unfoldable pub finish_front : List QueuedTask → Result (List QueuedTask)
unfolding next_epoch
finish_front [] = err out_of_range
finish_front (task ∷ rest) =
    let next = next_epoch task in
    ok (if next.instance.epoch == next.total_epoch then rest else next ∷ rest)

module _ {Remembered : Type 0} where
  unfoldable pub init_queue :
      Cluster
      → List QueuedTask
      → SequentialTaskScheduler Remembered
      → Result (SequentialTaskScheduler Remembered)
  unfolding global_guarantee_threads
  init_queue c tasks s = global_guarantee_threads c (map (λ t. t.instance) tasks) >>= λ _.
      ok (record s { tasks_queue = s.tasks_queue ++ tasks })

  unfoldable pub finish_sequential :
      (proc_of : ℕ → ℕ)
      → (id tid : ℕ) → SequentialTaskScheduler Remembered
      → Result (SequentialTaskScheduler Remembered)
  unfolding return_thread finish_front
  finish_sequential proc_of id tid s =
      let r = return_thread proc_of id tid s.pool in
      if r.0
      then (finish_front s.tasks_queue >>= λ queue.
          ok (record s { tasks_queue = queue; pool = r.1 }))
      else ok (record s { pool = r.1 })

  -- An empty selection is an exception.
  unfoldable pub started_or_throw :
      SequentialTaskScheduler Remembered
      → Option Started × Pool Remembered
      → Result (Started × SequentialTaskScheduler Remembered)
  started_or_throw s (none, pool) = err cannot_assign
  started_or_throw s (some started, pool) = ok (started, record s { pool = pool })

  unfoldable pub task_to_instance :
      (rand : ℕ → ℕ)
      → QueuedTask
      → SequentialTaskScheduler Remembered
      → Result (Started × SequentialTaskScheduler Remembered)
  unfolding instance_basic_setup get_preferred_proc start_instance started_or_throw
  task_to_instance rand task s =
      let instance = instance_basic_setup task.instance in
      let preferred = get_preferred_proc instance.id s.pool.history in
      start_instance rand s.num_processes preferred.0 instance
        (record (s.pool) { history = preferred.1 })
      >>= λ r. started_or_throw s r

  -- The first task of the queue, unless an instance still runs.
  unfoldable pub extract_first :
      (rand : ℕ → ℕ)
      → List QueuedTask
      → SequentialTaskScheduler Remembered
      → Result (List Started × SequentialTaskScheduler Remembered)
  unfolding task_to_instance is_empty
  extract_first rand [] s = ok ([], s)
  extract_first rand (task ∷ rest) s =
      if is_empty s.pool.tracked
      then (task_to_instance rand task s >>= λ r. ok (r.0 ∷ [], r.1))
      else ok ([], s)

  unfoldable pub extract_next :
      (rand : ℕ → ℕ)
      → SequentialTaskScheduler Remembered
      → Result (List Started × SequentialTaskScheduler Remembered)
  unfolding extract_first
  extract_next rand s = extract_first rand s.tasks_queue s

  unfoldable pub queue_is_finished : SequentialTaskScheduler Remembered → Bool
  unfolding is_empty
  queue_is_finished s = is_empty s.tasks_queue
