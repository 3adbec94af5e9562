-- ===== src/Scheduler/TaskManager/Priorities.antt =====
-- Priorities, rejections and anger: `suc_sched` and `fail_sched` of
-- cluster_manager/task_scheduler/task_manager.cpp.
use flexps_paper_version.Common.{
  read-get_or, ℕ, suc, ◌+◌, ◌<◌, ◌≡◌, refl, ap, ◌∙◌, inl, inr, true, false, not, ◌&&◌, some, [],
  ◌∷◌, ok, arith, leb, lt→ltb, ◌==◌, ==→eq, ==_refl, if◌then◌else◌, length, get_or, get_or-set,
  length-set, get_or-add_at, length-add_at, set, add_at, Bool-cases,
}
use flexps_paper_version.Common.Members.{has, has-append, has-erase}
use flexps_paper_version.Common.Maps.{Map, find}
use flexps_paper_version.Scheduler.TaskManager.{
  TaskManager, running, angry, angry_threshold, change, checked, suc_sched, raise, enrage, judge,
  reject, fail_sched,
}

-- Of every task: its priority is the number of rejections since it last ran, and it is angry, in
-- the list and by its status, exactly when these reach the threshold.
pub record IsManaged (m : TaskManager) : Type 0 where
  pub statuses : length m.task_status ≡ m.num_tasks
  pub rejections : length m.task_rejected_times ≡ m.num_tasks
  pub priority :
      (i : ℕ) → i < m.num_tasks → find i m.task_priority ≡ some (get_or m.task_rejected_times i 0)
  pub waiting :
      (i : ℕ)
      → i < m.num_tasks
      → has i m.angry_list ≡ leb angry_threshold (get_or m.task_rejected_times i 0)
  pub status : (i : ℕ) → i < m.num_tasks → has i m.angry_list ≡ (get_or m.task_status i 0 == angry)

some-injective : {a b : ℕ} → some a ≡ some b → a ≡ b
some-injective e = cc

==_comm : (a b : ℕ) → (a == b) ≡ (b == a)
==_comm a b = ground arith

find-change :
    (i k p : ℕ) (f : ℕ → ℕ) (xs : Map ℕ)
    → find k xs ≡ some p
    → find i (change k f xs) ≡ (if k == i then some (f p) else find i xs)
unfolding find change
find-change i k p f [] h = cc
find-change i k p f ((j, q) ∷ xs) h = elim (Bool-cases (k == j)) [
  | inl here ↦
      let same = ==→eq k j here in
      let value : q ≡ p = some-injective (rw here at h) in
      rw (here, value, same, ==_comm i j)
        (elim (Bool-cases (j == i)) [ inl e ↦ rw e refl | inr e ↦ rw e refl ])
  | inr there ↦
      let below = find-change i k p f xs (rw there at h) in
      elim (Bool-cases (i == j)) [
        | inl at ↦ rw (there, at) (rw (==→eq i j at, there) refl)
        | inr off ↦ rw (there, off) below
      ]
]

-- In a managed state, suc_sched of a known task succeeds, the state stays managed, and the task is
-- running and has no rejections.
pub suc_sched-IsManaged :
    (task_id : ℕ) (m : TaskManager)
    → task_id < m.num_tasks
    → IsManaged m
    → (m' : TaskManager) × (suc_sched task_id m ≡ ok m')
      × IsManaged m'
      × (get_or m'.task_status task_id 0 ≡ running)
      × (get_or m'.task_rejected_times task_id 0 ≡ 0)
unfolding suc_sched checked
suc_sched-IsManaged task_id m known v =
    let at_status : (i : ℕ)
        → get_or (set m.task_status task_id running) i 0
          ≡ (if task_id == i then running else get_or m.task_status i 0) =
      λ i. get_or-set m.task_status task_id i running 0 (omega (arith, v.statuses)) in
    let at_rejected : (i : ℕ)
        → get_or (set m.task_rejected_times task_id 0) i 0
          ≡ (if task_id == i then 0 else get_or m.task_rejected_times i 0) =
      λ i. get_or-set m.task_rejected_times task_id i 0 0 (omega (arith, v.rejections)) in
    rw (lt→ltb task_id m.num_tasks known) (
      _,
      refl,
      record {
        statuses = length-set m.task_status task_id running ∙ v.statuses;
        rejections = length-set m.task_rejected_times task_id 0 ∙ v.rejections;
        priority = λ i lt.
            rw
              (
                find-change i task_id _ (λ _. 0) m.task_priority (v.priority task_id known),
                at_rejected i,
                v.priority i lt,
              )
              (ground arith);
        waiting = λ i lt.
            rw (has-erase i task_id m.angry_list, at_rejected i, v.waiting i lt) (ground arith);
        status = λ i lt.
            rw (has-erase i task_id m.angry_list, at_status i, v.status i lt) (ground arith);
      },
      rw (at_status task_id, ==_refl task_id) refl,
      rw (at_rejected task_id, ==_refl task_id) refl,
    )

module _ (task_id : ℕ) (m : TaskManager) (known : task_id < m.num_tasks) (v : IsManaged m) where
  abbrev raised : Map ℕ
  raised = change task_id suc m.task_priority

  at_rejected :
      (i : ℕ)
      → get_or (add_at task_id m.task_rejected_times) i 0 ≡ (
          if task_id == i
          then get_or m.task_rejected_times i 0 + 1
          else get_or m.task_rejected_times i 0)
  at_rejected i = get_or-add_at task_id i m.task_rejected_times (omega (arith, v.rejections))

  raised_priority :
      (i : ℕ)
      → i < m.num_tasks
      → find i raised ≡ some (get_or (add_at task_id m.task_rejected_times) i 0)
  raised_priority i lt =
      rw
        (
          find-change i task_id _ suc m.task_priority (v.priority task_id known),
          at_rejected i,
          v.priority i lt,
        )
        (elim (Bool-cases (task_id == i)) [
          | inl same ↦ rw (same, ==→eq task_id i same) (ap some (omega arith))
          | inr other ↦ rw other refl
        ])

  raised_length : length (add_at task_id m.task_rejected_times) ≡ m.num_tasks
  raised_length = length-add_at task_id m.task_rejected_times ∙ v.rejections

  at_angry :
      (i : ℕ)
      → get_or (set m.task_status task_id angry) i 0
        ≡ (if task_id == i then angry else get_or m.task_status i 0)
  at_angry i = get_or-set m.task_status task_id i angry 0 (omega (arith, v.statuses))

  -- The number of rejections that counts for anger.
  abbrev times : ℕ
  times = get_or m.task_rejected_times task_id 0 + 1

  times_lem : get_or (add_at task_id m.task_rejected_times) task_id 0 ≡ times
  times_lem = rw (at_rejected task_id, ==_refl task_id) refl

  reject_lem : reject task_id m ≡ (
      if leb angry_threshold times && not (has task_id m.angry_list)
      then enrage task_id (raise task_id m)
      else raise task_id m)
  unfolding reject raise judge
  reject_lem =
      ap (λ o. judge task_id o (raise task_id m))
        (raised_priority task_id known ∙ ap some times_lem)

  calm-IsManaged :
      (leb angry_threshold times && not (has task_id m.angry_list)) ≡ false
      → IsManaged (raise task_id m)
  unfolding raise
  calm-IsManaged calm = record {
    statuses = v.statuses;
    rejections = raised_length;
    priority = raised_priority;
    waiting = λ i lt. rw (at_rejected i) (elim (Bool-cases (task_id == i)) [
      | inl same ↦ rw (same, ← ==→eq task_id i same) (ground (arith, v.waiting task_id known, calm))
      | inr other ↦ rw other (v.waiting i lt)
    ]);
    status = v.status;
  }

  enraged-IsManaged :
      (leb angry_threshold times && not (has task_id m.angry_list)) ≡ true
      → IsManaged (enrage task_id (raise task_id m))
  unfolding raise enrage has
  enraged-IsManaged enraged = record {
    statuses = length-set m.task_status task_id angry ∙ v.statuses;
    rejections = raised_length;
    priority = raised_priority;
    waiting = λ i lt.
        rw (has-append i m.angry_list (task_id ∷ []), at_rejected i, has, ==_comm i task_id)
          (elim (Bool-cases (task_id == i)) [
            | inl same ↦
                rw (same, ← ==→eq task_id i same) (ground (arith, v.waiting task_id known, enraged))
            | inr other ↦ rw other (ground (arith, v.waiting i lt))
          ]);
    status = λ i lt.
        rw
          (
            has-append i m.angry_list (task_id ∷ []),
            at_angry i,
            v.status i lt,
            has,
            ==_comm i task_id,
          )
          (elim (Bool-cases (task_id == i)) [
            | inl same ↦ rw same (ground arith)
            | inr other ↦ rw other (ground arith)
          ]);
  }

  reject-IsManaged : IsManaged (reject task_id m)
  reject-IsManaged =
      rw reject_lem
        (elim (Bool-cases (leb angry_threshold times && not (has task_id m.angry_list))) [
          | inl e ↦ rw e (enraged-IsManaged e)
          | inr e ↦ rw e (calm-IsManaged e)
        ])

  reject-times : get_or (reject task_id m).task_rejected_times task_id 0 ≡ times
  unfolding raise enrage
  reject-times =
      rw reject_lem
        (elim (Bool-cases (leb angry_threshold times && not (has task_id m.angry_list))) [
          | inl e ↦ rw e times_lem
          | inr e ↦ rw e times_lem
        ])

-- In a managed state, where a task's priority is its rejections since it last ran and it is angry
-- exactly from the threshold on, fail_sched of a known task succeeds, the state stays managed, and
-- the task has one rejection more.
pub fail_sched-IsManaged :
    (task_id : ℕ) (m : TaskManager)
    → task_id < m.num_tasks
    → IsManaged m
    → (m' : TaskManager) × (fail_sched task_id m ≡ ok m')
      × IsManaged m'
      × (get_or m'.task_rejected_times task_id 0 ≡ get_or m.task_rejected_times task_id 0 + 1)
unfolding fail_sched checked
fail_sched-IsManaged task_id m known v =
    rw
      (
        lt→ltb task_id m.num_tasks known,
        read-get_or m.task_rejected_times task_id 0 (omega (arith, v.rejections)),
      )
      (_, refl, reject-IsManaged task_id m known v, reject-times task_id m known v)
