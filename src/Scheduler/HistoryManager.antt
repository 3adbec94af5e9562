-- ===== src/Scheduler/HistoryManager.antt =====
-- cluster_manager/task_scheduler/history_manager.hpp and history_manager.cpp: how often each task
-- has visited each process. The instances that it remembers for each task are shared pointers, and
-- a parameter here. Also `get_preferred_proc` of task_scheduler_utils.cpp, which TaskManager repeats.
pub mod Visits
use flexps_paper_version.Common.{
  ℕ, zero, suc, ◌+◌, Bool, true, false, Option, none, some, List, [], ◌∷◌, map, Result, ok, err,
  out_of_range, ◌>>=◌, ltb, leb, ◌==◌, if◌then◌else◌, length, get_or, set, add_at, min,
}
use flexps_paper_version.Common.Maps.{Map, find, find_or, modify}

pub record HistoryManager (Instance : Type 0) : Type 0 where
  pub history : Map (List ℕ)
  pub last_instance : Map Instance
  pub num_processes : ℕ

-- `std::vector<int>(n)`.
unfoldable pub zeros : ℕ → List ℕ
zeros zero = []
zeros (suc n) = 0 ∷ zeros n

-- `std::sort` on process ids.
unfoldable pub insert_sorted : ℕ → List ℕ → List ℕ
insert_sorted x [] = x ∷ []
insert_sorted x (y ∷ ys) = let rest = insert_sorted x ys in if leb x y then x ∷ y ∷ ys else y ∷ rest

unfoldable pub sort : List ℕ → List ℕ
unfolding insert_sorted
sort [] = []
sort (x ∷ xs) = insert_sorted x (sort xs)

-- `pids.erase(std::unique(...), pids.end())`: of equal neighbours one stays.
unfoldable pub unique : List ℕ → List ℕ
unique [] = []
unique (x ∷ []) = x ∷ []
unique (x ∷ y ∷ ys) = let rest = unique (y ∷ ys) in if x == y then rest else x ∷ rest

-- `for (auto pid : pids) history_.at(task_id).at(pid) += 1`; `at` throws behind the end.
unfoldable pub visit : List ℕ → List ℕ → Result (List ℕ)
visit [] counts = ok counts
visit (pid ∷ pids) counts =
    let rest = visit pids (add_at pid counts) in
    if ltb pid (length counts) then rest else err out_of_range

-- The smallest entry, from `smallest` on.
unfoldable pub smallest_from : ℕ → List ℕ → ℕ
smallest_from smallest [] = smallest
smallest_from smallest (x ∷ xs) = smallest_from (if ltb x smallest then x else smallest) xs

-- The places, from `i` on, of the entries equal to `x`.
unfoldable pub places : (i x : ℕ) → List ℕ → List ℕ
places i x [] = []
places i x (y ∷ ys) = let rest = places (suc i) x ys in if y == x then i ∷ rest else rest

-- `std::numeric_limits<int>::max()`.
abbrev pub int_max : ℕ
int_max = 2147483647

module _ {Instance : Type 0} where
  unfoldable pub start : ℕ → HistoryManager Instance → HistoryManager Instance
  start n h = record h { num_processes = n }

  unfoldable pub clear_history : HistoryManager Instance
  clear_history = record { history = []; last_instance = []; num_processes = 0 }

  unfoldable pub set_last_instance :
      ℕ → Instance → HistoryManager Instance → HistoryManager Instance
  unfolding modify
  set_last_instance task_id i h = record h {
    last_instance = modify i task_id (λ _. i) h.last_instance;
  }

  -- A task that has no history gets one of zeros, which stays.
  unfoldable pub get_task_history : ℕ → HistoryManager Instance → List ℕ × HistoryManager Instance
  unfolding modify
  get_task_history task_id h =
      let fresh = zeros h.num_processes in
      (
        find_or fresh task_id h.history,
        record h { history = modify fresh task_id (λ c. c) h.history },
      )

  unfoldable pub update_history :
      ℕ → List (ℕ × ℕ) → HistoryManager Instance → Result (HistoryManager Instance)
  unfolding visit get_task_history
  update_history task_id pid_tids h =
      let known = get_task_history task_id h in
      visit (unique (sort (map (λ w. w.0) pid_tids))) known.0 >>= λ counts.
      ok (record h { history = modify [] task_id (λ _. counts) known.1.history })

  -- The processes that a task has visited least often.
  unfoldable pub get_preferred_proc : ℕ → HistoryManager Instance → List ℕ × HistoryManager Instance
  unfolding get_task_history
  get_preferred_proc task_id h =
      let known = get_task_history task_id h in
      (places 0 (smallest_from int_max known.0) known.0, known.1)
