-- ===== src/Scheduler/Examples.antt =====
-- Tests and witnesses for cluster_manager/task_scheduler/: three tasks on two processes.
use flexps_paper_version.Common.{
  ℕ, zero, suc, ◌≤◌, ◌<◌, ◌≡◌, ◌≢◌, ◌↔◌, refl, true, List, [], ◌∷◌, ok, arith, map, length, get_or,
  ◌==◌, if◌then◌else◌, ◌+◌, add_at,
}
use flexps_paper_version.Common.Members.{has}
use flexps_paper_version.Common.Maps.{find_or, find}
use flexps_paper_version.Scheduler.HistoryManager.{
  HistoryManager, update_history, get_task_history, get_preferred_proc,
}
use flexps_paper_version.Scheduler.HistoryManager.Visits.{
  IsLeast, IsSmall, get_preferred_proc-IsLeast, update_history-Visits,
}
use flexps_paper_version.Scheduler.TaskManager.{
  finish_thread, TaskManager, ready, fail_sched, order_by_priority, checked, reject, judge, raise,
  enrage, change,
}
use flexps_paper_version.Scheduler.TaskManager.Priorities.{IsManaged, fail_sched-IsManaged}
use flexps_paper_version.Scheduler.TaskManager.Epochs.{
  IsRunnable, HasLost, AtEnd, finish_thread-IsManaged,
}
use flexps_paper_version.Scheduler.TaskManager.Order.{IsDescending, order_by_priority-Ready}

abbrev history : HistoryManager ℕ
history = record { history = (7, 2 ∷ 0 ∷ []) ∷ []; last_instance = []; num_processes = 2 }

two_counts : (get_task_history 7 history).0 ≡ 2 ∷ 0 ∷ []
unfolding get_task_history find_or
two_counts = refl

two_cases : (P : ℕ → Type 0) → P 0 → P 1 → (i : ℕ) → i < 2 → P i
two_cases P first second zero lt = first
two_cases P first second (suc zero) lt = second
two_cases P first second (suc (suc i)) lt = absurd (omega arith)

small : IsSmall (get_task_history 7 history).0
small =
    rw two_counts
      (two_cases (λ q. get_or (2 ∷ 0 ∷ []) q 0 ≤ 2147483647) (omega arith) (omega arith))

get_preferred_proc-IsLeast_example :
    has 1 (get_preferred_proc 7 history).0 ≡ true ↔ IsLeast 1 (get_task_history 7 history).0
get_preferred_proc-IsLeast_example = get_preferred_proc-IsLeast 7 1 history small

abbrev threads : List (ℕ × ℕ)
threads = (1, 4) ∷ (1, 5) ∷ (0, 2) ∷ []

visited :
    (q : ℕ) → has q (map (λ w. w.0) threads) ≡ true → q < length (get_task_history 7 history).0
unfolding has
visited q e = rw two_counts (ground arith)

update_history-Visits_example :
    (h' : HistoryManager ℕ) × (update_history 7 threads history ≡ ok h')
    × ((q : ℕ)
        → get_or (get_task_history 7 h').0 q 0 ≡ (
            if has q (map (λ w. w.0) threads)
            then get_or (get_task_history 7 history).0 q 0 + 1
            else get_or (get_task_history 7 history).0 q 0))
    × ((other : ℕ) → other ≢ 7 → (get_task_history other h').0 ≡ (get_task_history other history).0)
update_history-Visits_example = update_history-Visits 7 threads history visited

-- Task 0 has been rejected four times.
abbrev manager : TaskManager
manager = record {
  num_tasks = 2;
  tasks =
      record { id = 0; total_epoch = 3; current_epoch = 0 }
      ∷ record { id = 1; total_epoch = 1; current_epoch = 0 }
      ∷ [];
  task_priority = (0, 4) ∷ (1, 0) ∷ [];
  task_status = 0 ∷ 0 ∷ [];
  task_rejected_times = 4 ∷ 0 ∷ [];
  tracked = [];
  angry_list = [];
}

manager-IsManaged : IsManaged manager
unfolding has find
manager-IsManaged = record {
  statuses = refl;
  rejections = refl;
  priority = two_cases _ refl refl;
  waiting = two_cases _ refl refl;
  status = two_cases _ refl refl;
}

fail_sched-IsManaged_example :
    (m' : TaskManager) × (fail_sched 0 manager ≡ ok m')
    × IsManaged m'
    × (get_or m'.task_rejected_times 0 0 ≡ 4 + 1)
fail_sched-IsManaged_example = fail_sched-IsManaged 0 manager (omega arith) manager-IsManaged

order_by_priority-Ready_example :
    (ids : List ℕ) × (m' : TaskManager) × (order_by_priority manager ≡ ok (ids, m'))
    × IsManaged m'
    × IsDescending m'.task_priority
    × ((k : ℕ) → k < 2 → has k ids ≡ (get_or manager.task_status k 0 == ready))
unfolding find
order_by_priority-Ready_example =
    order_by_priority-Ready manager manager-IsManaged (refl, (refl, tt))
      (omega arith, (omega arith, tt))

-- The fifth rejection makes task 0 angry.
fifth_rejection :
    fail_sched 0 manager
    ≡ ok (record manager {
      task_priority = (0, 5) ∷ (1, 0) ∷ [];
      task_status = 3 ∷ 0 ∷ [];
      task_rejected_times = 5 ∷ 0 ∷ [];
      angry_list = 0 ∷ [];
    })
unfolding fail_sched checked reject judge raise enrage change add_at find has
fifth_rejection = refl

-- Thread 4 of process 1 is all that runs of task 1, in its only epoch.
abbrev busy : TaskManager
busy = record manager { task_status = 0 ∷ 1 ∷ []; tracked = (1, (1, 4 ∷ []) ∷ []) ∷ [] }

busy-IsManaged : IsManaged busy
unfolding has find
busy-IsManaged = record {
  statuses = refl;
  rejections = refl;
  priority = two_cases _ refl refl;
  waiting = two_cases _ refl refl;
  status = two_cases _ refl refl;
}

busy-IsRunnable : IsRunnable 1 busy
busy-IsRunnable = record { known = omega arith; all = refl; calm = λ e. omega arith }

finish_thread-IsManaged_example :
    (m' : TaskManager) × (finish_thread 1 1 4 busy ≡ ok m')
    × IsManaged m'
    × HasLost 1 1 4 busy m'
    × AtEnd 1 busy m'
finish_thread-IsManaged_example = finish_thread-IsManaged 1 1 4 busy busy-IsRunnable busy-IsManaged
