-- ===== src/Scheduler/SelectThreads.antt =====
-- cluster_manager/task_scheduler/task_scheduler_utils.cpp: the threads for an instance, and the test
-- that the cluster has enough for every task. A string of `worker_num_type` is what it is compared
-- with; "threads_on_worker" carries the process, unless it has no two parts.
pub mod Guarantee
pub mod Hints
pub mod Free
pub mod Spread
pub mod Totals
mod Examples
use flexps_paper_version.Common.{
  ℕ, zero, suc, ◌+◌, ◌*◌, ◌/◌, ◌%◌, Bool, true, false, not, ◌&&◌, ◌||◌, Option, none, some, List,
  [], ◌∷◌, ◌++◌, Result, ok, err, failed_assert, out_of_range, threads_overflow, illegal_hint,
  endless, ◌>>=◌, read, ltb, leb, ◌==◌, if◌then◌else◌, length,
}
use flexps_paper_version.Common.Maps.{Map, find_or}
use flexps_paper_version.Scheduler.HistoryManager.{HistoryManager}
use flexps_paper_version.Scheduler.AvailableWorkers.{
  Thread, AvailableWorkers, get_workers_per_process, get_workers, get_local_workers,
  get_traverse_workers, get_workers_exact_process, get_num_available_local_workers,
}

pub data Hint : Type 0 where
  threads_per_worker threads_per_cluster local_threads threads_traverse_cluster : Hint
  threads_on_worker : Option ℕ → Hint
  other_hint : Hint

pub data Kind : Type 0 where
  configurable : List ℕ → List Hint → Kind
  basic : (local : Bool) → Kind
  other_kind : Kind

pub record Instance : Type 0 where
  pub id : ℕ
  pub epoch : ℕ
  pub num_workers : ℕ
  pub kind : Kind

-- `instance_basic_setup`: a basic task that sets no number of workers gets one.
unfoldable pub instance_basic_setup : Instance → Instance
instance_basic_setup task = elim task.kind [
  | basic local ↦ if task.num_workers == 0 then record task { num_workers = 1 } else task
  | configurable nums hints ↦ task
  | other_kind ↦ task
]

-- The cluster: the processes, and the number of threads of each.
pub record Cluster : Type 0 where
  pub pids : List ℕ
  pub num_local : Map ℕ
  pub num_processes : ℕ
  pub num_workers : ℕ

unfoldable pub some_process : ℕ → Cluster → List ℕ → Bool
unfolding find_or
some_process n c [] = false
some_process n c (pid ∷ pids) = leb n (find_or 0 pid c.num_local) || some_process n c pids

unfoldable pub each_process : ℕ → Cluster → List ℕ → Bool
unfolding find_or
each_process n c [] = true
each_process n c (pid ∷ pids) = leb n (find_or 0 pid c.num_local) && each_process n c pids

-- Whether a cluster is large enough for one setting of a task.
unfoldable pub hint_fits : Cluster → Hint → ℕ → Result Bool
unfolding some_process each_process
hint_fits c threads_per_worker n = ok (leb (n * c.num_processes) c.num_workers)
hint_fits c threads_per_cluster n = ok (leb n c.num_workers)
hint_fits c local_threads n = ok (some_process n c c.pids)
hint_fits c threads_traverse_cluster n = ok (each_process n c c.pids)
hint_fits c (threads_on_worker (some pid)) n = ok (leb n (find_or 0 pid c.num_local))
hint_fits c (threads_on_worker none) n = err illegal_hint
hint_fits c other_hint n = err illegal_hint

-- The loop over `worker_num_type`, which stops at a setting that is too large. A setting without a
-- number reads behind the end of `worker_num`.
unfoldable pub hints_fit : Cluster → List Hint → List ℕ → Result Bool
unfolding hint_fits
hints_fit c [] nums = ok true
hints_fit c (other_hint ∷ hints) nums = err illegal_hint
hints_fit c (threads_on_worker none ∷ hints) nums = err illegal_hint
hints_fit c (hint ∷ hints) [] = err out_of_range
hints_fit c (hint ∷ hints) (n ∷ nums) =
    hint_fits c hint n >>= λ fits. if fits then hints_fit c hints nums else ok false

unfoldable pub task_fits : Cluster → Instance → Result Bool
unfolding hints_fit
task_fits c task = elim task.kind [
  | configurable nums hints ↦ hints_fit c hints nums
  | basic local ↦ ok (leb task.num_workers c.num_workers)
  | other_kind ↦ ok (leb task.num_workers c.num_workers)
]

unfoldable pub global_guarantee_threads : Cluster → List Instance → Result (Unit {0})
unfolding task_fits
global_guarantee_threads c [] = ok tt
global_guarantee_threads c (task ∷ tasks) = task_fits c task >>= λ fits.
    if fits then global_guarantee_threads c tasks else err threads_overflow

module _ {Remembered : Type 0} (rand : ℕ → ℕ) (num_processes : ℕ) where
  -- The branch of `ConfigurableWorkersTaskType`. An illegal setting is logged.
  unfoldable pub select_hint :
      Hint
      → (n id : ℕ) → HistoryManager Remembered
      → AvailableWorkers
      → Result ((List Thread × AvailableWorkers) × HistoryManager Remembered)
  unfolding get_workers_per_process get_workers get_local_workers get_traverse_workers
      get_workers_exact_process
  select_hint threads_per_worker n id h s = ok (get_workers_per_process n num_processes s, h)
  select_hint threads_per_cluster n id h s = get_workers rand n s >>= λ got. ok (got, h)
  select_hint local_threads n id h s = ok (get_local_workers n s, h)
  select_hint threads_traverse_cluster n id h s = get_traverse_workers id n num_processes h s
  select_hint (threads_on_worker (some pid)) n id h s =
      ok (get_workers_exact_process n pid num_processes s, h)
  select_hint (threads_on_worker none) n id h s = ok (([], s), h)
  select_hint other_hint n id h s = ok (([], s), h)

  -- The setting of the epoch; with no numbers the remainder is undefined.
  unfoldable pub select_configured :
      List ℕ
      → List Hint
      → (id epoch : ℕ) → HistoryManager Remembered
      → AvailableWorkers
      → Result ((List Thread × AvailableWorkers) × HistoryManager Remembered)
  unfolding select_hint
  select_configured [] hints id epoch h s = err out_of_range
  select_configured (m ∷ nums) hints id epoch h s =
      let pos = epoch % length (m ∷ nums) in
      read hints pos >>= λ hint. read (m ∷ nums) pos >>= λ n. select_hint hint n id h s

-- The branch of a local basic task: `last` is `pid_tids`.
unfoldable pub local_from :
    (n num_processes : ℕ) → List Thread → List ℕ → AvailableWorkers → List Thread × AvailableWorkers
unfolding get_workers_exact_process
local_from n num_processes last [] s = (last, s)
local_from n num_processes last (pid ∷ pids) s =
    let got = get_workers_exact_process n pid num_processes s in
    let rest = local_from n num_processes got.0 pids got.1 in
    if length got.0 == n then got else rest

unfoldable pub select_local :
    (n num_processes : ℕ) → List ℕ → AvailableWorkers → Result (List Thread × AvailableWorkers)
unfolding local_from
select_local n num_processes pids s =
    let got = local_from n num_processes [] pids s in
    if length got.0 == n || length got.0 == 0 then ok got else err failed_assert

-- The branch of all other tasks. First `min_per_proc` and `sum_available`.
unfoldable pub survey : (least sum : ℕ) → List ℕ → AvailableWorkers → ℕ × ℕ × AvailableWorkers
unfolding get_num_available_local_workers
survey least sum [] s = (least, sum, s)
survey least sum (pid ∷ pids) s =
    let free = get_num_available_local_workers pid s in
    survey (if ltb free.0 least then free.0 else least) (sum + free.0) pids free.1

unfoldable pub take_each :
    (n num_processes : ℕ) → List ℕ → AvailableWorkers → List Thread × AvailableWorkers
unfolding get_workers_exact_process
take_each n num_processes [] s = ([], s)
take_each n num_processes (pid ∷ pids) s =
    let got = get_workers_exact_process n pid num_processes s in
    let rest = take_each n num_processes pids got.1 in (got.0 ++ rest.0, rest.1)

-- One pass over the candidates, with one thread of each that has any; whether the selection is full.
unfoldable pub one_round :
    (n num_processes : ℕ)
    → List Thread
    → List ℕ
    → AvailableWorkers
    → Result (Bool × List Thread × AvailableWorkers)
unfolding get_num_available_local_workers get_workers_exact_process
one_round n num_processes selected [] s = ok (false, selected, s)
one_round n num_processes selected (pid ∷ pids) s =
    let free = get_num_available_local_workers pid s in
    let got = get_workers_exact_process 1 pid num_processes free.1 in
    let skipped = one_round n num_processes selected pids free.1 in
    if ltb 0 free.0
    then (read got.0 0 >>= λ w.
        if length (selected ++ w ∷ []) == n
        then ok (true, selected ++ w ∷ [], got.1)
        else one_round n num_processes (selected ++ w ∷ []) pids got.1)
    else skipped

unfoldable pub keep_looping :
    (fuel n num_processes : ℕ)
    → List Thread
    → List ℕ
    → AvailableWorkers
    → Result (List Thread × AvailableWorkers)
unfolding one_round
keep_looping zero n num_processes selected pids s = err endless
keep_looping (suc fuel) n num_processes selected pids s =
    one_round n num_processes selected pids s >>= λ round.
    if round.0
    then ok (round.1, round.2)
    else keep_looping fuel n num_processes round.1 pids round.2

-- Without processes the division is undefined.
unfoldable pub select_spread :
    (n num_processes : ℕ) → List ℕ → AvailableWorkers → Result (List Thread × AvailableWorkers)
unfolding survey take_each keep_looping
select_spread n num_processes pids s =
    let seen = survey (n / num_processes) 0 pids s in
    let each = if ltb 0 seen.0 then take_each seen.0 num_processes pids seen.2 else ([], seen.2) in
    if num_processes == 0
    then err out_of_range
    else if leb n seen.1
    then (if length each.0 == n then ok each else keep_looping n n num_processes each.0 pids each.1)
    else ok ([], seen.2)

unfoldable pub select_threads_from_subset :
    {Remembered : Type 0}
    → (rand : ℕ → ℕ) → (num_processes n : ℕ) → List ℕ
    → Instance
    → HistoryManager Remembered
    → AvailableWorkers
    → Result ((List Thread × AvailableWorkers) × HistoryManager Remembered)
unfolding select_configured select_local select_spread
select_threads_from_subset rand num_processes n pids instance h s = elim instance.kind [
  | configurable nums hints ↦
      select_configured rand num_processes nums hints instance.id instance.epoch h s
  | basic local ↦
      (if local then select_local n num_processes pids s else select_spread n num_processes pids s)
      >>= λ got. ok (got, h)
  | other_kind ↦ select_spread n num_processes pids s >>= λ got. ok (got, h)
]
