-- ===== src/Scheduler/AvailableWorkers.antt =====
-- cluster_manager/task_scheduler/available_workers.hpp and available_workers.cpp: the free threads of
-- the cluster, and their selection. An unordered container is a list in its order of iteration;
-- `rand()` is a parameter that gives the n-th random number.
pub mod Counts
pub mod Validity
pub mod Groups
pub mod Selection
mod Examples
use flexps_paper_version.Common.{
  ℕ, zero, suc, ◌+◌, ◌%◌, Bool, true, false, not, ◌&&◌, ◌||◌, Option, none, some, List, [], ◌∷◌,
  ◌++◌, map, Result, ok, err, failed_assert, out_of_range, ◌>>=◌, read, ltb, leb, ◌==◌,
  if◌then◌else◌, length, max,
}
use flexps_paper_version.Common.Members.{insert, erase}
use flexps_paper_version.Common.Segments.{take, drop}
use flexps_paper_version.Common.Maps.{Map, find_or, modify}
use flexps_paper_version.Scheduler.HistoryManager.{
  HistoryManager, get_task_history, places, smallest_from,
}

-- <tid, pid> in `workers_`, and <pid, tid> in a selection.
abbrev pub Thread : Type 0
Thread = ℕ × ℕ

unfoldable pub same : Thread → Thread → Bool
same a b = a.0 == b.0 && a.1 == b.1

unfoldable pub has_thread : Thread → List Thread → Bool
unfolding same
has_thread a [] = false
has_thread a (b ∷ bs) = same a b || has_thread a bs

unfoldable pub erase_thread : Thread → List Thread → List Thread
unfolding same
erase_thread a [] = []
erase_thread a (b ∷ bs) = let rest = erase_thread a bs in if same a b then rest else b ∷ rest

unfoldable pub insert_thread : Thread → List Thread → List Thread
unfolding has_thread
insert_thread a bs = if has_thread a bs then bs else a ∷ bs

pub record AvailableWorkers : Type 0 where
  pub workers : List Thread
  pub pid_tids : Map (List ℕ)

unfoldable pub add_worker : (pid tid : ℕ) → AvailableWorkers → AvailableWorkers
unfolding insert_thread modify insert
add_worker pid tid s = record {
  workers = insert_thread (tid, pid) s.workers;
  pid_tids = modify [] pid (insert tid) s.pid_tids;
}

unfoldable pub remove_worker : (pid tid : ℕ) → AvailableWorkers → AvailableWorkers
unfolding erase_thread modify erase
remove_worker pid tid s = record {
  workers = erase_thread (tid, pid) s.workers;
  pid_tids = modify [] pid (erase tid) s.pid_tids;
}

-- The two loops that erase a selection, from `workers_` and from `pid_tids_`.
unfoldable pub erase_all : List Thread → List Thread → List Thread
unfolding erase_thread
erase_all [] workers = workers
erase_all ((pid, tid) ∷ selected) workers = erase_all selected (erase_thread (tid, pid) workers)

unfoldable pub erase_tids : List Thread → Map (List ℕ) → Map (List ℕ)
unfolding modify erase
erase_tids [] m = m
erase_tids ((pid, tid) ∷ selected) m = erase_tids selected (modify [] pid (erase tid) m)

unfoldable pub take_threads : List Thread → AvailableWorkers → AvailableWorkers
unfolding erase_all erase_tids
take_threads selected s = record {
  workers = erase_all selected s.workers;
  pid_tids = erase_tids selected s.pid_tids;
}

-- `pid_tids_map[pid].push_back(tid)` on a `std::map`, which is in the order of its keys.
unfoldable pub push_tid : (pid tid : ℕ) → Map (List ℕ) → Map (List ℕ)
push_tid pid tid [] = (pid, tid ∷ []) ∷ []
push_tid pid tid ((i, tids) ∷ m) =
    let rest = push_tid pid tid m in
    if pid == i
    then (i, tids ++ tid ∷ []) ∷ m
    else if ltb pid i
    then (pid, tid ∷ []) ∷ (i, tids) ∷ m
    else (i, tids) ∷ rest

unfoldable pub push_tids : List Thread → Map (List ℕ) → Map (List ℕ)
unfolding push_tid
push_tids [] m = m
push_tids ((tid, pid) ∷ ws) m = push_tids ws (push_tid pid tid m)

-- `pid_tids_map` with no threads, for the processes from `i` on.
unfoldable pub no_tids : (i count : ℕ) → Map (List ℕ)
no_tids i zero = []
no_tids i (suc count) = (i, []) ∷ no_tids (suc i) count

unfoldable pub group : (num_processes : ℕ) → List Thread → Map (List ℕ)
unfolding push_tids no_tids
group num_processes ws = push_tids ws (no_tids 0 num_processes)

unfoldable pub all_have : ℕ → Map (List ℕ) → Bool
all_have n [] = true
all_have n ((i, tids) ∷ m) = leb n (length tids) && all_have n m

-- `n` threads of one process.
unfoldable pub pick : (pid n : ℕ) → List ℕ → List Thread
unfolding take
pick pid n tids = map (λ tid. (pid, tid)) (take n tids)

unfoldable pub pick_all : ℕ → Map (List ℕ) → List Thread
unfolding pick
pick_all n [] = []
pick_all n ((i, tids) ∷ m) = pick i n tids ++ pick_all n m

unfoldable pub get_workers_per_process :
    (n num_processes : ℕ) → AvailableWorkers → List Thread × AvailableWorkers
unfolding group all_have pick_all take_threads
get_workers_per_process n num_processes s =
    let m = group num_processes s.workers in
    let selected = pick_all n m in
    if all_have n m then (selected, take_threads selected s) else ([], s)

unfoldable pub get_workers_exact_process :
    (n pid num_processes : ℕ) → AvailableWorkers → List Thread × AvailableWorkers
unfolding group find_or pick take_threads
get_workers_exact_process n pid num_processes s =
    let tids = find_or [] pid (group num_processes s.workers) in
    let selected = pick pid n tids in
    if ltb (length tids) n then ([], s) else (selected, take_threads selected s)

-- `std::set<std::pair<int, int>>` in its order.
unfoldable pub before : Thread → Thread → Bool
before a b = ltb a.0 b.0 || (a.0 == b.0 && ltb a.1 b.1)

unfoldable pub insert_selected : Thread → List Thread → List Thread
unfolding before same
insert_selected a [] = a ∷ []
insert_selected a (b ∷ bs) =
    let rest = insert_selected a bs in
    if same a b then b ∷ bs else if before a b then a ∷ b ∷ bs else b ∷ rest

-- The loop of `get_workers`, from the i-th random number on. Each round erases a thread, so that
-- `left`, the number of threads, counts the rounds that are possible; without a thread the
-- remainder is undefined.
unfoldable pub draw :
    (rand : ℕ → ℕ) → (n i left : ℕ) → List Thread → List Thread → Result (List Thread × List Thread)
unfolding insert_selected erase_thread
draw rand n i zero selected workers =
    if leb n (length selected) then ok (selected, workers) else err out_of_range
draw rand n i (suc left) selected workers =
    if leb n (length selected)
    then ok (selected, workers)
    else read workers (rand i % length workers) >>= λ w.
        draw rand n (suc i) left (insert_selected (w.1, w.0) selected) (erase_thread w workers)

unfoldable pub get_workers :
    (rand : ℕ → ℕ) → (n : ℕ) → AvailableWorkers → Result (List Thread × AvailableWorkers)
unfolding draw erase_tids
get_workers rand n s =
    if ltb (length s.workers) n
    then ok ([], s)
    else draw rand n 0 (length s.workers) [] s.workers >>= λ drawn.
        ok (drawn.0, record { workers = drawn.1; pid_tids = erase_tids drawn.0 s.pid_tids })

-- The loop of `get_local_workers` over `pid_tids_`: the selection, if there is one, and the map.
unfoldable pub find_local : ℕ → Map (List ℕ) → Option (List Thread) × Map (List ℕ)
unfolding pick drop
find_local n [] = (none, [])
find_local n ((i, tids) ∷ m) =
    let rest = find_local n m in
    if leb n (length tids)
    then (some (pick i n tids), (i, drop n tids) ∷ m)
    else (rest.0, (i, tids) ∷ rest.1)

unfoldable pub get_local_workers : ℕ → AvailableWorkers → List Thread × AvailableWorkers
unfolding find_local erase_all
get_local_workers n s =
    let found = find_local n s.pid_tids in
    elim found.0 [
      | none ↦ ([], s)
      | some selected ↦
          (selected, record { workers = erase_all selected s.workers; pid_tids = found.1 })
    ]

-- The processes one after the other, until one has enough threads.
unfoldable pub first_process :
    (n num_processes : ℕ) → List ℕ → AvailableWorkers → List Thread × AvailableWorkers
unfolding get_workers_exact_process
first_process n num_processes [] s = ([], s)
first_process n num_processes (pid ∷ pids) s =
    let got = get_workers_exact_process n pid num_processes s in
    let rest = first_process n num_processes pids got.1 in if length got.0 == 0 then rest else got

unfoldable pub get_traverse_workers :
    {Instance : Type 0}
    → (task_id n num_processes : ℕ) → HistoryManager Instance
    → AvailableWorkers
    → Result ((List Thread × AvailableWorkers) × HistoryManager Instance)
unfolding get_task_history places smallest_from first_process
get_traverse_workers task_id n num_processes h s =
    let known = get_task_history task_id h in
    elim known.0 [
      | [] ↦ err failed_assert
      | ◌∷◌ c cs ↦
          let processes = places 0 (smallest_from c (c ∷ cs)) (c ∷ cs) in
          ok (first_process n num_processes processes s, known.1)
    ]

unfoldable pub get_num_available_workers : AvailableWorkers → ℕ
get_num_available_workers s = length s.workers

-- `pid_tids_[pid]` enters a process that is missing.
unfoldable pub get_num_available_local_workers : ℕ → AvailableWorkers → ℕ × AvailableWorkers
unfolding find_or modify
get_num_available_local_workers pid s = (
  length (find_or [] pid s.pid_tids),
  record s { pid_tids = modify [] pid (λ tids. tids) s.pid_tids },
)

unfoldable pub most_tids : Map (List ℕ) → ℕ
most_tids [] = 0
most_tids ((i, tids) ∷ m) = max (length tids) (most_tids m)

unfoldable pub get_max_local_workers : AvailableWorkers → ℕ
unfolding most_tids
get_max_local_workers s = most_tids s.pid_tids
