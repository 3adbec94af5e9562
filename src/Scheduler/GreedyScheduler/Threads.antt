-- ===== src/Scheduler/GreedyScheduler/Threads.antt =====
-- cluster_manager/task_scheduler/greedy_task_scheduler.cpp: every thread stays free or running.
use flexps_paper_version.Common.{
  ℕ, zero, suc, ◌+◌, ◌≤◌, ◌<◌, ◌≡◌, refl, sym, ap, subst, ◌∙◌, inl, inr, true, false, Option, none,
  some, List, [], ◌∷◌, ◌++◌, ok, arith, ◌==◌, if◌then◌else◌, Bool-cases, length, Option-cases,
  read-get_or, get_or, set, length-set, length-append,
}
use flexps_paper_version.Common.Members.{has}
use flexps_paper_version.Common.Sums.{total, total-set}
use flexps_paper_version.Common.Maps.{find_or}
use flexps_paper_version.Scheduler.HistoryManager.{get_preferred_proc}
use flexps_paper_version.Scheduler.AvailableWorkers.Counts.{count}
use flexps_paper_version.Scheduler.SelectThreads.{
  Kind, configurable, basic, other_kind, instance_basic_setup,
}
use flexps_paper_version.Common.Members.{IsDistinct}
use flexps_paper_version.Scheduler.TaskManager.{ready, running, finished}
use flexps_paper_version.Scheduler.Pool.{QueuedTask, Started, Pool, next_epoch, return_thread}
use flexps_paper_version.Scheduler.Pool.Choices.{FitsHistory, IsLegal, preferred-IsDistinct}
use flexps_paper_version.Scheduler.Pool.Running.{in_task}
use flexps_paper_version.Scheduler.Pool.Conservation.{
  return_thread-IsConserved, return_thread-history,
}
use flexps_paper_version.Scheduler.Pool.Starts.{
  IsCluster, IsSound, AllLegal, preferred-IsSound, setup_kind, start_instance-IsSound,
}
use flexps_paper_version.Scheduler.GreedyScheduler.{
  GreedyTaskScheduler, processes_from, candidates, note_start, start_ready, extract_from,
  extract_greedy, finish_greedy, finish_task, task_index,
}

length-processes_from : (i n : ℕ) → length (processes_from i n) ≡ n
unfolding processes_from
length-processes_from i zero = refl
length-processes_from i (suc n) = omega (arith, length-processes_from (suc i) n)

has-processes_from : (i j n : ℕ) → j < i → has j (processes_from i n) ≡ false
unfolding processes_from has
has-processes_from i j zero below = refl
has-processes_from i j (suc n) below = ground (arith, has-processes_from (suc i) j n (omega arith))

processes_from-IsDistinct : (i n : ℕ) → IsDistinct (processes_from i n)
unfolding processes_from
processes_from-IsDistinct i zero = tt
processes_from-IsDistinct i (suc n) =
    (has-processes_from (suc i) i n (omega arith), processes_from-IsDistinct (suc i) n)

task_index_lt :
    (id : ℕ) (tasks : List QueuedTask) (found : ℕ × QueuedTask)
    → task_index id tasks ≡ some found
    → found.0 < length tasks
unfolding task_index
task_index_lt id [] found e = cc
task_index_lt id (task ∷ tasks) found e = elim (Bool-cases (task.instance.id == id)) [
  | inl here ↦
      (let same : some (0, task) ≡ some found = rw here at e in
        let zero_index : 0 ≡ found.0 = cc in omega (arith, zero_index))
  | inr there ↦ elim (Option-cases (task_index id tasks)) [
    | inl e' ↦ absurd (none_not-some (rw (there, e') at e))
    | inr (below, e') ↦
        let same : some (suc below.0, below.1) ≡ some found = rw (there, e') at e in
        let next_index : suc below.0 ≡ found.0 = cc in
        omega (arith, next_index, task_index_lt id tasks below e')
  ]
]
  where
    none_not-some : none ≡ some found → ⊥
    none_not-some e = cc

-- How many tasks are ready.
unfoldable pub ready_count : List ℕ → ℕ
unfolding total
ready_count statuses = total (λ (status : ℕ). if status == ready then 1 else 0) statuses

ready_count-set :
    (statuses : List ℕ) (i : ℕ)
    → i < length statuses
    → (get_or statuses i 0 == ready) ≡ true
    → 1 + ready_count (set statuses i running) ≡ ready_count statuses
unfolding ready_count
ready_count-set statuses i below e =
    let w : ℕ → ℕ = λ status. if status == ready then 1 else 0 in
    let here : w (get_or statuses i 0) ≡ 1 = rw e refl in
    omega (arith, total-set w statuses i running 0 below, here)

module _ {Remembered : Type 0} (whole : ℕ → ℕ → ℕ) where
  -- Every task has a status.
  pub record IsReady (s : GreedyTaskScheduler Remembered) : Type 0 where
    pub sound : IsSound whole s.num_processes s.pool
    pub cluster : IsCluster whole s.num_processes
    pub statuses : length s.task_status ≡ length s.tasks

  preferred :
      (id n : ℕ) (pool : Pool Remembered)
      → IsSound whole n pool
      → (length (get_preferred_proc id pool.history).0 ≤ n)
        × IsDistinct (get_preferred_proc id pool.history).0
        × IsSound whole n (record pool { history = (get_preferred_proc id pool.history).1 })
  preferred id n pool s =
      let (distinct, few) = preferred-IsDistinct id pool.history in
      (
        subst (λ (k : ℕ). length (get_preferred_proc id pool.history).0 ≤ k) (s.fits id) few,
        distinct,
        preferred-IsSound whole n id pool s,
      )

  candidates_lem :
      (kind : Kind) (id n : ℕ) (pool : Pool Remembered)
      → IsSound whole n pool
      → (length (candidates kind id n pool.history).0 ≤ n)
        × IsDistinct (candidates kind id n pool.history).0
        × IsSound whole n (record pool { history = (candidates kind id n pool.history).1 })
  unfolding candidates
  candidates_lem (basic false) id n pool s = (
    omega (arith, length-processes_from 0 n),
    processes_from-IsDistinct 0 n,
    record {
      conserved = record {
        valid = s.conserved.valid;
        keys = s.conserved.keys;
        kept = s.conserved.kept;
      };
      fits = s.fits;
    },
  )
  candidates_lem (basic true) id n pool s = preferred id n pool s
  candidates_lem (configurable nums hints) id n pool s = preferred id n pool s
  candidates_lem other_kind id n pool s = preferred id n pool s

  note_start-IsReady :
      (i : ℕ) (r : Option Started × Pool Remembered) (s : GreedyTaskScheduler Remembered)
      → IsReady s
      → IsSound whole s.num_processes r.1
      → i < length s.task_status
      → (get_or s.task_status i 0 == ready) ≡ true
      → IsReady (note_start i r s).1
        × ((note_start i r s).1.tasks ≡ s.tasks)
        × (length (note_start i r s).0 + ready_count (note_start i r s).1.task_status
            ≡ ready_count s.task_status)
  unfolding note_start
  note_start-IsReady i (none, pool) s h sound below is_ready =
      (record { sound = sound; cluster = h.cluster; statuses = h.statuses }, refl, omega arith)
  note_start-IsReady i (some started, pool) s h sound below is_ready = (
    record {
      sound = sound;
      cluster = h.cluster;
      statuses = length-set s.task_status i running ∙ h.statuses;
    },
    refl,
    ready_count-set s.task_status i below is_ready,
  )

  start_ready-IsReady :
      (rand : ℕ → ℕ) (i : ℕ) (task : QueuedTask) (s : GreedyTaskScheduler Remembered)
      → IsReady s
      → IsLegal task.instance.kind
      → i < length s.task_status
      → (get_or s.task_status i 0 == ready) ≡ true
      → (r : List Started × GreedyTaskScheduler Remembered) × (start_ready rand i task s ≡ ok r)
        × IsReady r.1
        × (r.1.tasks ≡ s.tasks)
        × (length r.0 + ready_count r.1.task_status ≡ ready_count s.task_status)
  unfolding start_ready
  start_ready-IsReady rand i task s h legal below is_ready =
      let (kind, same_id) = setup_kind task.instance task.instance.kind refl in
      let instance = instance_basic_setup task.instance in
      let chosen = candidates instance.kind instance.id s.num_processes s.pool.history in
      let (few, distinct, looked) =
        candidates_lem instance.kind instance.id s.num_processes s.pool h.sound in
      let (r, done, sound) =
        start_instance-IsSound whole s.num_processes rand chosen.0 instance task.instance.kind
          (record (s.pool) { history = chosen.1 }) kind legal h.cluster looked few distinct in
      let (after, same, counted) = note_start-IsReady i r s h sound below is_ready in
      (note_start i r s, rw done refl, after, same, counted)

  extract_from-IsReady :
      (rand : ℕ → ℕ) (tasks : List QueuedTask) (i : ℕ) (s : GreedyTaskScheduler Remembered)
      → IsReady s
      → AllLegal tasks
      → i + length tasks ≡ length s.tasks
      → (r : List Started × GreedyTaskScheduler Remembered) × (extract_from rand i tasks s ≡ ok r)
        × IsReady r.1
        × (length r.0 + ready_count r.1.task_status ≡ ready_count s.task_status)
  unfolding extract_from
  extract_from-IsReady rand [] i s h legal all = (([], s), refl, h, omega arith)
  extract_from-IsReady rand (task ∷ tasks) i s h legal all =
      let below : i < length s.task_status = omega (arith, all, h.statuses) in
      let there = read-get_or s.task_status i 0 below in
      elim (Bool-cases (get_or s.task_status i 0 == ready)) [
        | inr e ↦
            let (r, done, after, counted) =
              extract_from-IsReady rand tasks (suc i) s h legal.1 (omega (arith, all)) in
            (([] ++ r.0, r.1), rw there (rw e (rw done refl)), after, counted)
        | inl e ↦
            let (one, started, h1, same, first) =
              start_ready-IsReady rand i task s h legal.0 below e in
            let (rest, done, after, others) =
              extract_from-IsReady rand tasks (suc i) one.1 h1 legal.1
                (omega (arith, all, ap length same)) in
            (
              (one.0 ++ rest.0, rest.1),
              rw there (rw e (rw started (rw done refl))),
              after,
              omega (arith, first, others, length-append one.0 rest.0),
            )
      ]

  -- In a sound state, where each thread of the cluster is free, or runs for a task, exactly once,
  -- the sets of free threads agree, and every task has a count for each process: with a status for
  -- each task and legal tasks, extract_instances of the greedy scheduler ends without an error,
  -- the state stays sound, and there are as many new instances as tasks that are ready no more.
  pub extract_greedy-IsReady :
      (rand : ℕ → ℕ) (s : GreedyTaskScheduler Remembered)
      → IsReady s
      → AllLegal s.tasks
      → (r : List Started × GreedyTaskScheduler Remembered) × (extract_greedy rand s ≡ ok r)
        × IsReady r.1
        × (length r.0 + ready_count r.1.task_status ≡ ready_count s.task_status)
  unfolding extract_greedy
  extract_greedy-IsReady rand s h legal =
      extract_from-IsReady rand s.tasks 0 s h legal (omega arith)

  -- In a sound state, where each thread of the cluster is free, or runs for a task, exactly once,
  -- the sets of free threads agree, and every task has a count for each process: with a status for
  -- each task, when a thread that runs for a known task ends, finish_thread of the greedy
  -- scheduler succeeds, the state stays sound, and the thread is free.
  pub finish_greedy-IsReady :
      (proc_of : ℕ → ℕ) (id tid : ℕ) (found : ℕ × QueuedTask) (s : GreedyTaskScheduler Remembered)
      → task_index id s.tasks ≡ some found
      → IsReady s
      → in_task (proc_of tid) tid (find_or [] id s.pool.tracked) ≡ 1
      → (s' : GreedyTaskScheduler Remembered) × (finish_greedy proc_of id tid s ≡ ok s')
        × IsReady s'
        × (count (tid, proc_of tid) s'.pool.available.workers ≡ 1)
  unfolding finish_greedy finish_task
  finish_greedy-IsReady proc_of id tid (i, task) s known h runs =
      let r = return_thread proc_of id tid s.pool in
      let (conserved, free) =
        return_thread-IsConserved whole proc_of id tid s.pool h.cluster.once h.sound.conserved
          runs in
      let sound : IsSound whole s.num_processes r.1 = record {
        conserved = conserved;
        fits =
            subst (λ x. FitsHistory s.num_processes x)
              (sym (return_thread-history proc_of id tid s.pool)) h.sound.fits;
      } in
      let next = next_epoch task in
      let status = if next.instance.epoch == next.total_epoch then finished else ready in
      elim (Bool-cases r.0) [
        | inl last ↦ (
          record s {
            tasks = set s.tasks i next;
            task_status = set s.task_status i status;
            pool = r.1;
          },
          rw last (
              rw known (
                rw
                  (read-get_or s.task_status i 0
                    (omega (arith, h.statuses, task_index_lt id s.tasks (i, task) known)))
                  refl)),
          record {
            sound = sound;
            cluster = h.cluster;
            statuses =
                length-set s.task_status i status ∙ (h.statuses ∙ sym (length-set s.tasks i next));
          },
          free,
        )
        | inr more ↦ (
          record s { pool = r.1 },
          rw more refl,
          record { sound = sound; cluster = h.cluster; statuses = h.statuses },
          free,
        )
      ]
