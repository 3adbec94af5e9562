-- ===== src/Scheduler/SelectThreads/Examples.antt =====
-- Tests and witnesses for the selection of threads: two processes with two threads and one.
use flexps_paper_version.Common.{
  ℕ, ◌≡◌, ◌↔◌, refl, false, err, threads_overflow, List, [], ◌∷◌, ok, arith, All, ◌>>=◌,
}
use flexps_paper_version.Common.Members.{has, insert}
use flexps_paper_version.Common.Maps.{find_or, modify}
use flexps_paper_version.Common.Segments.{take}
use flexps_paper_version.Scheduler.HistoryManager.{HistoryManager, get_task_history}
use flexps_paper_version.Scheduler.AvailableWorkers.{
  Thread, AvailableWorkers, add_worker, same, insert_thread, has_thread,
}
use flexps_paper_version.Scheduler.AvailableWorkers.Counts.{count, count_tid}
use flexps_paper_version.Scheduler.AvailableWorkers.Validity.{IsValid, add_worker-IsValid}
use flexps_paper_version.Scheduler.SelectThreads.{
  Hint, Instance, Cluster, global_guarantee_threads, select_configured, select_local, select_spread,
  threads_per_cluster, threads_traverse_cluster, configurable, basic,
}
use flexps_paper_version.Scheduler.SelectThreads.Guarantee.{TaskFits, global_guarantee_threads_iff}
use flexps_paper_version.Common.Members.{IsDistinct}
use flexps_paper_version.Scheduler.SelectThreads.Totals.{Spreads, select_spread-Spreads}

abbrev nobody : AvailableWorkers
nobody = record { workers = []; pid_tids = [] }

abbrev machines : AvailableWorkers
machines = add_worker 0 0 (add_worker 0 1 (add_worker 1 2 nobody))

abbrev visits : HistoryManager ℕ
visits = record { history = (7, 1 ∷ 0 ∷ []) ∷ []; last_instance = []; num_processes = 2 }

program : Unit {0}
unfolding add_worker insert_thread has_thread same modify insert has take find_or count count_tid
    get_task_history global_guarantee_threads select_configured select_local select_spread
program = tt

nobody-IsValid : IsValid nobody
unfolding program
nobody-IsValid = record { agree = λ p t. (refl, omega arith); keys = tt }

machines-IsValid : IsValid machines
machines-IsValid =
    let one = (add_worker-IsValid 1 2 nobody nobody-IsValid).0 in
    let two = (add_worker-IsValid 0 1 (add_worker 1 2 nobody) one).0 in
    (add_worker-IsValid 0 0 (add_worker 0 1 (add_worker 1 2 nobody)) two).0

-- Two threads over both processes, then the third.
select_spread_test :
    (select_spread 3 2 (0 ∷ 1 ∷ []) machines >>= λ got. ok got.0)
    ≡ ok ((0, 0) ∷ (1, 2) ∷ (0, 1) ∷ [])
unfolding program
select_spread_test = refl

abbrev cluster : Cluster
cluster = record {
  pids = 0 ∷ 1 ∷ [];
  num_local = (0, 2) ∷ (1, 1) ∷ [];
  num_processes = 2;
  num_workers = 3;
}

abbrev hints : List Hint
hints = threads_traverse_cluster ∷ threads_per_cluster ∷ []

abbrev tasks : List Instance
tasks =
    record { id = 7; epoch = 0; num_workers = 0; kind = configurable (1 ∷ 3 ∷ []) hints }
    ∷ record { id = 8; epoch = 0; num_workers = 3; kind = basic false }
    ∷ []

guarantee_test : global_guarantee_threads cluster tasks ≡ ok tt
unfolding program
guarantee_test = refl

too_many_test :
    global_guarantee_threads cluster
      (record { id = 8; epoch = 0; num_workers = 4; kind = basic false } ∷ [])
    ≡ err threads_overflow
unfolding program
too_many_test = refl

global_guarantee_threads_iff_example :
    (global_guarantee_threads cluster tasks ≡ ok tt)
    ↔ All (λ task. TaskFits cluster task.kind task.num_workers) tasks
global_guarantee_threads_iff_example = global_guarantee_threads_iff cluster tasks

apart : IsDistinct (0 ∷ 1 ∷ [])
unfolding program
apart = (refl, (refl, tt))

select_spread-Spreads_example :
    (got : List Thread × AvailableWorkers) × (select_spread 3 2 (0 ∷ 1 ∷ []) machines ≡ ok got)
    × Spreads 3 (0 ∷ 1 ∷ []) machines got
select_spread-Spreads_example =
    select_spread-Spreads 3 2 (0 ∷ 1 ∷ []) machines (omega arith) (omega arith) apart
      machines-IsValid
