-- ===== src/Scheduler/Pool/Examples.antt =====
-- Tests and witnesses for the schedulers: two processes with one thread each, and two tasks.
use flexps_paper_version.Common.{ℕ, ◌+◌, ◌≡◌, refl, false, List, [], ◌∷◌, ok, arith, length}
use flexps_paper_version.Common.Maps.{find, find_or, modify}
use flexps_paper_version.Common.Members.{has, insert}
use flexps_paper_version.Scheduler.HistoryManager.{HistoryManager, get_task_history, zeros}
use flexps_paper_version.Scheduler.AvailableWorkers.{
  AvailableWorkers, add_worker, insert_thread, has_thread, same,
}
use flexps_paper_version.Scheduler.AvailableWorkers.Counts.{count, count_tid}
use flexps_paper_version.Scheduler.AvailableWorkers.Validity.{IsValid, add_worker-IsValid}
use flexps_paper_version.Scheduler.SelectThreads.{basic}
use flexps_paper_version.Scheduler.Pool.{Pool, QueuedTask, Started}
use flexps_paper_version.Scheduler.Pool.Running.{in_task, running, weight}
use flexps_paper_version.Scheduler.Pool.Choices.{FitsHistory}
use flexps_paper_version.Scheduler.Pool.Starts.{IsCluster, IsSound}
use flexps_paper_version.Scheduler.SequentialScheduler.{
  SequentialTaskScheduler, extract_next, finish_sequential,
}
use flexps_paper_version.Scheduler.SequentialScheduler.Threads as Sequential
use flexps_paper_version.Scheduler.GreedyScheduler.{
  GreedyTaskScheduler, task_index, extract_greedy, finish_greedy,
}
use flexps_paper_version.Scheduler.GreedyScheduler.Threads as Greedy

abbrev nobody : AvailableWorkers
nobody = record { workers = []; pid_tids = [] }

abbrev one_free : AvailableWorkers
one_free = add_worker 1 1 nobody

abbrev two_free : AvailableWorkers
two_free = add_worker 0 0 one_free

program : Unit {0}
unfolding add_worker insert_thread has_thread same modify insert has find_or count count_tid
    get_task_history running weight in_task zeros find
program = tt

nobody-IsValid : IsValid nobody
unfolding program
nobody-IsValid = record { agree = λ p t. (refl, omega arith); keys = tt }

one_free-IsValid : IsValid one_free
one_free-IsValid = (add_worker-IsValid 1 1 nobody nobody-IsValid).0

two_free-IsValid : IsValid two_free
two_free-IsValid = (add_worker-IsValid 0 0 one_free one_free-IsValid).0

abbrev whole : ℕ → ℕ → ℕ
whole p t = count (t, p) two_free.workers

two-IsCluster : IsCluster whole 2
unfolding program
two-IsCluster = record {
  positive = omega arith;
  once = λ p t. (two_free-IsValid.agree p t).1;
  inside = λ p t le. ground (arith, le);
}

abbrev unused : HistoryManager ℕ
unused = record { history = []; last_instance = []; num_processes = 2 }

abbrev idle : Pool ℕ
idle = record { available = two_free; tracked = []; history = unused }

-- Thread 0 of process 0 runs for task 7.
abbrev busy : Pool ℕ
busy = record { available = one_free; tracked = (7, (0, 0 ∷ []) ∷ []) ∷ []; history = unused }

unused-FitsHistory : FitsHistory 2 unused
unfolding program
unused-FitsHistory id = refl

idle-IsSound : IsSound whole 2 idle
unfolding program
idle-IsSound = record {
  conserved = record { valid = two_free-IsValid; keys = tt; kept = λ p t. omega arith };
  fits = unused-FitsHistory;
}

busy-IsSound : IsSound whole 2 busy
unfolding program
busy-IsSound = record {
  conserved = record { valid = one_free-IsValid; keys = (refl, tt); kept = λ p t. ground arith };
  fits = unused-FitsHistory;
}

abbrev job : ℕ → QueuedTask
job id = record {
  instance = record { id = id; epoch = 0; num_workers = 1; kind = basic false };
  total_epoch = 2;
}

abbrev waiting : SequentialTaskScheduler ℕ
waiting = record { tasks_queue = job 7 ∷ job 8 ∷ []; num_processes = 2; pool = idle }

abbrev working : SequentialTaskScheduler ℕ
working = record { tasks_queue = job 7 ∷ job 8 ∷ []; num_processes = 2; pool = busy }

extract-IsReady_example :
    Sequential.Extracts whole (λ i. i) waiting.tasks_queue waiting (extract_next (λ i. i) waiting)
extract-IsReady_example =
    Sequential.extract-IsReady whole (λ i. i) waiting (idle-IsSound, two-IsCluster) (tt, (tt, tt))

finish-IsReady_example :
    (s' : SequentialTaskScheduler ℕ) × (finish_sequential (λ t. t) 7 0 working ≡ ok s')
    × Sequential.IsReady whole s'
    × (count (0, 0) s'.pool.available.workers ≡ 1)
unfolding program
finish-IsReady_example =
    Sequential.finish-IsReady whole (λ t. t) 7 0 (job 7) (job 8 ∷ []) working refl
      (busy-IsSound, two-IsCluster) refl

abbrev waiting_both : GreedyTaskScheduler ℕ
waiting_both = record {
  tasks = job 7 ∷ job 8 ∷ [];
  task_status = 0 ∷ 0 ∷ [];
  num_processes = 2;
  pool = idle;
}

abbrev working_one : GreedyTaskScheduler ℕ
working_one = record {
  tasks = job 7 ∷ job 8 ∷ [];
  task_status = 1 ∷ 0 ∷ [];
  num_processes = 2;
  pool = busy;
}

extract_greedy-IsReady_example :
    (r : List Started × GreedyTaskScheduler ℕ) × (extract_greedy (λ i. i) waiting_both ≡ ok r)
    × Greedy.IsReady whole r.1
    × (length r.0 + Greedy.ready_count r.1.task_status
        ≡ Greedy.ready_count waiting_both.task_status)
extract_greedy-IsReady_example =
    Greedy.extract_greedy-IsReady whole (λ i. i) waiting_both
      (record { sound = idle-IsSound; cluster = two-IsCluster; statuses = refl }) (tt, (tt, tt))

finish_greedy-IsReady_example :
    (s' : GreedyTaskScheduler ℕ) × (finish_greedy (λ t. t) 7 0 working_one ≡ ok s')
    × Greedy.IsReady whole s'
    × (count (0, 0) s'.pool.available.workers ≡ 1)
unfolding program task_index
finish_greedy-IsReady_example =
    Greedy.finish_greedy-IsReady whole (λ t. t) 7 0 (0, job 7) working_one refl
      (record { sound = busy-IsSound; cluster = two-IsCluster; statuses = refl }) refl
