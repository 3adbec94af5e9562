-- ===== src/Scheduler/AvailableWorkers/Examples.antt =====
-- Tests and witnesses for the free threads: two processes with two threads and one.
use flexps_paper_version.Common.{◌≡◌, refl, [], ◌∷◌, arith}
use flexps_paper_version.Common.Members.{insert, has}
use flexps_paper_version.Common.Maps.{find_or, modify}
use flexps_paper_version.Common.Segments.{take}
use flexps_paper_version.Scheduler.HistoryManager.{get_task_history}
use flexps_paper_version.Scheduler.AvailableWorkers.{
  AvailableWorkers, add_worker, remove_worker, same, get_workers, get_workers_per_process,
  get_workers_exact_process, get_local_workers, get_traverse_workers, group, insert_thread,
  has_thread, get_max_local_workers,
}
use flexps_paper_version.Scheduler.AvailableWorkers.Counts.{count, count_tid}
use flexps_paper_version.Scheduler.AvailableWorkers.Validity.{IsValid, add_worker-IsValid}

abbrev nobody : AvailableWorkers
nobody = record { workers = []; pid_tids = [] }

abbrev cluster : AvailableWorkers
cluster = add_worker 0 0 (add_worker 0 1 (add_worker 1 2 nobody))

program : Unit {0}
unfolding add_worker remove_worker insert_thread has_thread same modify insert has get_workers
    get_workers_per_process get_workers_exact_process get_local_workers get_traverse_workers group
    take find_or get_max_local_workers count count_tid get_task_history
program = tt

per_process_test : (get_workers_per_process 1 2 cluster).0 ≡ (0, 0) ∷ (1, 2) ∷ []
unfolding program
per_process_test = refl

most_test : get_max_local_workers cluster ≡ 2
unfolding program
most_test = refl

nobody-IsValid : IsValid nobody
unfolding program
nobody-IsValid = record { agree = λ p t. (refl, omega arith); keys = tt }

cluster-IsValid : IsValid cluster
cluster-IsValid =
    let one = (add_worker-IsValid 1 2 nobody nobody-IsValid).0 in
    let two = (add_worker-IsValid 0 1 (add_worker 1 2 nobody) one).0 in
    (add_worker-IsValid 0 0 (add_worker 0 1 (add_worker 1 2 nobody)) two).0
