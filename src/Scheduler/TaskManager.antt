-- ===== src/Scheduler/TaskManager.antt =====
-- cluster_manager/task_scheduler/task_manager.hpp and task_manager.cpp: the status and the priority
-- of each task, and the tasks that have waited too long. A task is what core/task.hpp keeps of it
-- for the scheduler. The history manager, a singleton, is passed along.
pub mod Priorities
pub mod Order
pub mod Epochs
use flexps_paper_version.Common.{
  ℕ, zero, suc, ◌+◌, Bool, true, false, not, ◌&&◌, Option, none, some, List, [], ◌∷◌, ◌++◌, Result,
  ok, err, failed_assert, out_of_range, ◌>>=◌, read, ltb, leb, ◌==◌, if◌then◌else◌, length, get_or,
  set, add_at, grow, map,
}
use flexps_paper_version.Common.Members.{has, insert, erase}
use flexps_paper_version.Common.Maps.{Map, find, find_or, modify, remove}
use flexps_paper_version.Scheduler.HistoryManager.{HistoryManager, update_history}

pub record Task : Type 0 where
  pub id : ℕ
  pub total_epoch : ℕ
  pub current_epoch : ℕ

unfoldable pub inc_epoch : Task → Task
inc_epoch t = record t { current_epoch = t.current_epoch + 1 }

abbrev pub ready : ℕ
ready = 0

abbrev pub running : ℕ
running = 1

abbrev pub finished : ℕ
finished = 2

abbrev pub angry : ℕ
angry = 3

abbrev pub angry_threshold : ℕ
angry_threshold = 5

-- `tracked` is `task_id_pid_tids_`: the running threads of each task, by process.
pub record TaskManager : Type 0 where
  pub num_tasks : ℕ
  pub tasks : List Task
  pub task_priority : Map ℕ
  pub task_status : List ℕ
  pub task_rejected_times : List ℕ
  pub tracked : Map (Map (List ℕ))
  pub angry_list : List ℕ

unfoldable pub empty : TaskManager
empty = record {
  num_tasks = 0;
  tasks = [];
  task_priority = [];
  task_status = [];
  task_rejected_times = [];
  tracked = [];
  angry_list = [];
}

unfoldable pub add_tasks : List Task → TaskManager → TaskManager
add_tasks ts m =
    let tasks = m.tasks ++ ts in
    record m {
      num_tasks = length tasks;
      tasks = tasks;
      task_priority = m.task_priority ++ map (λ t. (t.id, 0)) ts;
      task_status = grow (length tasks) ready m.task_status;
      task_rejected_times = grow (length tasks) 0 m.task_rejected_times;
    }

unfoldable pub all_finished : List ℕ → Bool
all_finished [] = true
all_finished (status ∷ rest) = (status == finished) && all_finished rest

unfoldable pub is_finished : TaskManager → Bool
is_finished m = all_finished m.task_status

-- The last thread of a task is done: its epoch is over.
unfoldable pub finish_epoch : ℕ → TaskManager → Result TaskManager
unfolding inc_epoch
finish_epoch task_id m = read m.tasks task_id >>= λ task. read m.task_status task_id >>= λ _.
    let next = inc_epoch task in
    ok (record m {
      tasks = set m.tasks task_id next;
      task_status =
          set m.task_status task_id
            (if next.current_epoch == next.total_epoch then finished else ready);
    })

unfoldable pub is_empty {ℓ} : {A : Type ℓ} → List A → Bool
is_empty [] = true
is_empty (x ∷ xs) = false

unfoldable pub finish_thread : (task_id pid tid : ℕ) → TaskManager → Result TaskManager
unfolding modify erase
finish_thread task_id pid tid m =
    let threads = erase tid (find_or [] pid (find_or [] task_id m.tracked)) in
    let left = modify [] task_id (modify [] pid (λ _. threads)) m.tracked in
    let gone = modify [] task_id (remove pid) left in
    if is_empty threads
    then (if is_empty (find_or [] task_id gone)
        then finish_epoch task_id (record m { tracked = gone })
        else ok (record m { tracked = gone }))
    else ok (record m { tracked = left })

-- `std::sort` by decreasing priority. The order of equal priorities, which the standard leaves
-- open, is that of before.
unfoldable pub insert_by_priority : ℕ × ℕ → Map ℕ → Map ℕ
insert_by_priority x [] = x ∷ []
insert_by_priority x (y ∷ ys) =
    let rest = insert_by_priority x ys in if leb y.1 x.1 then x ∷ y ∷ ys else y ∷ rest

unfoldable pub sort_by_priority : Map ℕ → Map ℕ
unfolding insert_by_priority
sort_by_priority [] = []
sort_by_priority (x ∷ xs) = insert_by_priority x (sort_by_priority xs)

unfoldable pub ready_ids : List ℕ → Map ℕ → Result (List ℕ)
ready_ids status [] = ok []
ready_ids status ((i, p) ∷ rest) = read status i >>= λ st.
    ready_ids status rest >>= λ ids. ok (if st == ready then i ∷ ids else ids)

-- The ready tasks in the order of their priorities, and the manager with its priorities sorted.
unfoldable pub order_by_priority : TaskManager → Result (List ℕ × TaskManager)
unfolding sort_by_priority ready_ids
order_by_priority m =
    let sorted = sort_by_priority m.task_priority in
    ready_ids m.task_status sorted >>= λ ids. ok (ids, record m { task_priority = sorted })

-- A write through `std::find_if`: to the first entry of the task, if there is one.
unfoldable pub change : ℕ → (ℕ → ℕ) → Map ℕ → Map ℕ
change k f [] = []
change k f ((i, p) ∷ rest) =
    let below = change k f rest in if k == i then (i, f p) ∷ rest else (i, p) ∷ below

-- `task_id >= 0 && task_id < num_tasks_`, asserted.
unfoldable pub checked {ℓ} : {A : Type ℓ} → ℕ → TaskManager → A → Result A
checked task_id m a = if ltb task_id m.num_tasks then ok a else err failed_assert

unfoldable pub suc_sched : ℕ → TaskManager → Result TaskManager
unfolding checked change erase
suc_sched task_id m = checked task_id m (record m {
  task_status = set m.task_status task_id running;
  task_rejected_times = set m.task_rejected_times task_id 0;
  task_priority = change task_id (λ _. 0) m.task_priority;
  angry_list = erase task_id m.angry_list;
})

-- A task that is rejected gains priority.
unfoldable pub raise : ℕ → TaskManager → TaskManager
unfolding change
raise task_id m = record m {
  task_rejected_times = add_at task_id m.task_rejected_times;
  task_priority = change task_id suc m.task_priority;
}

unfoldable pub enrage : ℕ → TaskManager → TaskManager
enrage task_id m = record m {
  angry_list = m.angry_list ++ task_id ∷ [];
  task_status = set m.task_status task_id angry;
}

-- From the threshold on, a task that is not angry gets so.
unfoldable pub judge : ℕ → Option ℕ → TaskManager → TaskManager
unfolding enrage
judge task_id none m = m
judge task_id (some p) m =
    if leb angry_threshold p && not (has task_id m.angry_list) then enrage task_id m else m

unfoldable pub reject : ℕ → TaskManager → TaskManager
unfolding raise judge
reject task_id m =
    let raised = raise task_id m in judge task_id (find task_id raised.task_priority) raised

unfoldable pub fail_sched : ℕ → TaskManager → Result TaskManager
unfolding checked reject
fail_sched task_id m =
    checked task_id m task_id >>= λ i. read m.task_rejected_times i >>= λ _. ok (reject task_id m)

unfoldable pub track : ℕ → List (ℕ × ℕ) → Map (Map (List ℕ)) → Map (Map (List ℕ))
track task_id [] tracked = tracked
track task_id ((pid, tid) ∷ rest) tracked =
    track task_id rest (modify [] task_id (modify [] pid (insert tid)) tracked)

unfoldable pub record_and_track :
    {Instance : Type 0}
    → ℕ
    → List (ℕ × ℕ)
    → TaskManager
    → HistoryManager Instance
    → Result (TaskManager × HistoryManager Instance)
unfolding checked track
record_and_track task_id pid_tids m h =
    checked task_id m (record m { tracked = track task_id pid_tids m.tracked }) >>= λ m'.
    update_history task_id pid_tids h >>= λ h'. ok (m', h')

unfoldable pub get_task_by_id : ℕ → TaskManager → Result Task
unfolding checked
get_task_by_id task_id m = checked task_id m task_id >>= λ i. read m.tasks i

-- -1 for a task without a priority is `none`.
unfoldable pub get_task_priority : ℕ → TaskManager → Result (Option ℕ)
unfolding checked find
get_task_priority task_id m = checked task_id m (find task_id m.task_priority)

unfoldable pub get_task_status : ℕ → TaskManager → Result ℕ
unfolding checked
get_task_status task_id m = checked task_id m task_id >>= λ i. read m.task_status i

unfoldable pub get_task_rej_times : ℕ → TaskManager → Result ℕ
unfolding checked
get_task_rej_times task_id m = checked task_id m task_id >>= λ i. read m.task_rejected_times i

unfoldable pub get_tracking_threads : (task_id proc_id : ℕ) → TaskManager → List ℕ
unfolding find_or
get_tracking_threads task_id proc_id m = find_or [] proc_id (find_or [] task_id m.tracked)

unfoldable pub exist_angry_tasks : TaskManager → Bool
unfolding is_empty
exist_angry_tasks m = not (is_empty m.angry_list)
