-- ===== src/Scheduler/SequentialScheduler/Threads.antt =====
-- cluster_manager/task_scheduler/sequential_task_scheduler.cpp: every thread stays free or running.
use flexps_paper_version.Common.{
  ℕ, ◌≤◌, ◌≡◌, ◌⊎◌, refl, sym, subst, inl, inr, true, false, Option, none, some, List, [], ◌∷◌,
  Result, ok, ◌>>=◌, err, cannot_assign, ◌==◌, if◌then◌else◌, Bool-cases, length,
}
use flexps_paper_version.Common.Maps.{find_or}
use flexps_paper_version.Scheduler.HistoryManager.{get_preferred_proc}
use flexps_paper_version.Scheduler.AvailableWorkers.Counts.{count}
use flexps_paper_version.Scheduler.SelectThreads.{instance_basic_setup}
use flexps_paper_version.Scheduler.TaskManager.{is_empty}
use flexps_paper_version.Scheduler.Pool.{
  QueuedTask, Started, Pool, next_epoch, return_thread, start_instance,
}
use flexps_paper_version.Scheduler.Pool.Choices.{FitsHistory, IsLegal, preferred-IsDistinct}
use flexps_paper_version.Scheduler.Pool.Running.{in_task}
use flexps_paper_version.Scheduler.Pool.Conservation.{
  return_thread-IsConserved, return_thread-history,
}
use flexps_paper_version.Scheduler.Pool.Starts.{
  IsCluster, IsSound, AllLegal, preferred-IsSound, setup_kind, start_instance-IsSound,
}
use flexps_paper_version.Scheduler.SequentialScheduler.{
  SequentialTaskScheduler, finish_front, finish_sequential, started_or_throw, task_to_instance,
  extract_first, extract_next,
}

module _ {Remembered : Type 0} (whole : ℕ → ℕ → ℕ) where
  abbrev pub IsReady : SequentialTaskScheduler Remembered → Type 0
  IsReady s = IsSound whole s.num_processes s.pool × IsCluster whole s.num_processes

  -- The selection of threads for a task of the queue.
  abbrev pub selection :
      (rand : ℕ → ℕ)
      → QueuedTask
      → SequentialTaskScheduler Remembered
      → Result (Option Started × Pool Remembered)
  selection rand task s =
      let instance = instance_basic_setup task.instance in
      let preferred = get_preferred_proc instance.id s.pool.history in
      start_instance rand s.num_processes preferred.0 instance
        (record (s.pool) { history = preferred.1 })

  -- One instance starts with the threads that are selected for the task, or there are none for it.
  abbrev pub StartsOrThrows :
      (rand : ℕ → ℕ)
      → QueuedTask
      → SequentialTaskScheduler Remembered
      → Result (List Started × SequentialTaskScheduler Remembered)
      → Type 0
  StartsOrThrows rand task s result =
      ((pool : Pool Remembered) × (selection rand task s ≡ ok (none, pool))
        × (result ≡ err cannot_assign))
      ⊎ ((started : Started) × (pool : Pool Remembered) × (selection rand task s
            ≡ ok (some started, pool))
          × (result ≡ ok (started ∷ [], record s { pool = pool }))
          × IsReady (record s { pool = pool }))

  -- Nothing happens with an empty queue or while an instance runs; else the first task starts.
  abbrev pub Extracts :
      (rand : ℕ → ℕ)
      → List QueuedTask
      → SequentialTaskScheduler Remembered
      → Result (List Started × SequentialTaskScheduler Remembered)
      → Type 0
  Extracts rand queue s result =
      (((queue ≡ []) ⊎ (is_empty s.pool.tracked ≡ false)) × (result ≡ ok ([], s)))
      ⊎ ((task : QueuedTask) × (rest : List QueuedTask) × (queue ≡ task ∷ rest)
          × (is_empty s.pool.tracked ≡ true)
          × StartsOrThrows rand task s result)

  selection-IsSound :
      (rand : ℕ → ℕ) (task : QueuedTask) (s : SequentialTaskScheduler Remembered)
      → IsReady s
      → IsLegal task.instance.kind
      → (r : Option Started × Pool Remembered) × (selection rand task s ≡ ok r)
        × IsSound whole s.num_processes r.1
  selection-IsSound rand task s ready legal =
      let (kind, same_id) = setup_kind task.instance task.instance.kind refl in
      let instance = instance_basic_setup task.instance in
      let preferred = get_preferred_proc instance.id s.pool.history in
      let (distinct, few) = preferred-IsDistinct instance.id s.pool.history in
      start_instance-IsSound whole s.num_processes rand preferred.0 instance task.instance.kind
        (record (s.pool) { history = preferred.1 }) kind legal ready.1
        (preferred-IsSound whole s.num_processes instance.id s.pool ready.0)
        (subst (λ k. length preferred.0 ≤ k) (ready.0.fits instance.id) few) distinct

  -- The first task of the queue, when nothing runs.
  idle-StartsOrThrows :
      (rand : ℕ → ℕ) (task : QueuedTask) (s : SequentialTaskScheduler Remembered)
      → IsReady s
      → IsLegal task.instance.kind
      → StartsOrThrows rand task s (task_to_instance rand task s >>= λ r. ok (r.0 ∷ [], r.1))
  unfolding task_to_instance started_or_throw
  idle-StartsOrThrows rand task s ready legal =
      let ((found, pool), done, sound) = selection-IsSound rand task s ready legal in
      ends found pool done sound
    where
      ends :
          (found : Option Started) (pool : Pool Remembered)
          → selection rand task s ≡ ok (found, pool)
          → IsSound whole s.num_processes pool
          → StartsOrThrows rand task s (task_to_instance rand task s >>= λ r. ok (r.0 ∷ [], r.1))
      ends none pool done sound = inl (pool, done, rw done refl)
      ends (some started) pool done sound =
          inr (started, pool, done, rw done refl, (sound, ready.1))

  extract_first-IsReady :
      (rand : ℕ → ℕ) (queue : List QueuedTask) (s : SequentialTaskScheduler Remembered)
      → IsReady s
      → AllLegal queue
      → Extracts rand queue s (extract_first rand queue s)
  unfolding extract_first
  extract_first-IsReady rand [] s ready legal = inl (inl refl, refl)
  extract_first-IsReady rand (task ∷ rest) s ready legal =
      elim (Bool-cases (is_empty s.pool.tracked)) [
        | inr busy ↦ inl (inr busy, rw busy refl)
        | inl idle ↦
            rw idle (inr (task, rest, refl, refl, idle-StartsOrThrows rand task s ready legal.0))
      ]

  -- In a sound state, where each thread of the cluster is free, or runs for a task, exactly once,
  -- the sets of free threads agree, and every task has a count for each process: with legal tasks
  -- in the queue, extract_instances of the sequential scheduler starts nothing and leaves all as
  -- it is if the queue is empty or an instance still runs; else it starts one instance with the
  -- threads selected for the first task, and the state stays sound, or it throws if none are
  -- selected.
  pub extract-IsReady :
      (rand : ℕ → ℕ) (s : SequentialTaskScheduler Remembered)
      → IsReady s
      → AllLegal s.tasks_queue
      → Extracts rand s.tasks_queue s (extract_next rand s)
  unfolding extract_next
  extract-IsReady rand s ready legal = extract_first-IsReady rand s.tasks_queue s ready legal

  -- In a sound state, where each thread of the cluster is free, or runs for a task, exactly once,
  -- the sets of free threads agree, and every task has a count for each process: when a thread
  -- that runs for a task ends, and the queue is not empty, finish_thread of the sequential
  -- scheduler succeeds, the state stays sound, and the thread is free, also where it is the last
  -- one of its process or of the instance.
  pub finish-IsReady :
      (proc_of : ℕ → ℕ) (id tid : ℕ) (task : QueuedTask) (rest : List QueuedTask)
      (s : SequentialTaskScheduler Remembered)
      → s.tasks_queue ≡ task ∷ rest
      → IsReady s
      → in_task (proc_of tid) tid (find_or [] id s.pool.tracked) ≡ 1
      → (s' : SequentialTaskScheduler Remembered) × (finish_sequential proc_of id tid s ≡ ok s')
        × IsReady s'
        × (count (tid, proc_of tid) s'.pool.available.workers ≡ 1)
  unfolding finish_sequential finish_front
  finish-IsReady proc_of id tid task rest s queue ready runs =
      let r = return_thread proc_of id tid s.pool in
      let (conserved, free) =
        return_thread-IsConserved whole proc_of id tid s.pool ready.1.once ready.0.conserved runs in
      let sound : IsSound whole s.num_processes r.1 = record {
        conserved = conserved;
        fits =
            subst (λ x. FitsHistory s.num_processes x)
              (sym (return_thread-history proc_of id tid s.pool)) ready.0.fits;
      } in
      let next = next_epoch task in
      let left = if next.instance.epoch == next.total_epoch then rest else next ∷ rest in
      elim (Bool-cases r.0) [
        | inl last ↦ (
          record s { tasks_queue = left; pool = r.1 },
          rw last (rw queue refl),
          (sound, ready.1),
          free,
        )
        | inr more ↦ (record s { pool = r.1 }, rw more refl, (sound, ready.1), free)
      ]
