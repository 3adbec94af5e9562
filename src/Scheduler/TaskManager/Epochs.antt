-- ===== src/Scheduler/TaskManager/Epochs.antt =====
-- The end of a thread, and of an epoch: `finish_thread` of
-- cluster_manager/task_scheduler/task_manager.cpp.
use flexps_paper_version.Common.{
  ℕ, ◌<◌, ◌≡◌, ◌≢◌, refl, ap, ◌∙◌, inl, inr, Bool, true, false, List, ok, arith, ◌==◌, ==→eq,
  ==_refl, ◌∷◌, ne→==_false, if◌then◌else◌, not, ◌&&◌, ◌+◌, ◌⊎◌, [], sym, length, get_or,
  get_or-set, length-set, set, Bool-cases, read-get_or,
}
use flexps_paper_version.Common.Members.{has, erase, has-erase}
use flexps_paper_version.Common.Maps.{
  Map, find_or, modify, remove, find_or-modify, find_or-modify_const, find_or-remove,
}
use flexps_paper_version.Scheduler.TaskManager.Priorities.{IsManaged}
use flexps_paper_version.Scheduler.TaskManager.{
  Task, TaskManager, ready, finished, angry, inc_epoch, is_empty, finish_epoch, finish_thread,
}

-- What `finish_thread` leaves as it is.
same-IsManaged :
    (m : TaskManager) (task_id status : ℕ)
    → task_id < m.num_tasks
    → get_or m.task_status task_id 0 ≢ angry
    → status ≢ angry
    → IsManaged m
    → (i : ℕ) → i < m.num_tasks
    → has i m.angry_list ≡ (get_or (set m.task_status task_id status) i 0 == angry)
same-IsManaged m task_id status known calm calm' v i lt =
    rw (get_or-set m.task_status task_id i status 0 (omega (arith, v.statuses)), v.status i lt)
      (elim (Bool-cases (task_id == i)) [
        | inl same ↦
            rw
              (
                same,
                ← ==→eq task_id i same,
                ne→==_false _ angry calm,
                ne→==_false status angry calm',
              )
              refl
        | inr other ↦ rw other refl
      ])

empty_nil : {A : Type 0} (xs : List A) → is_empty xs ≡ true → xs ≡ []
unfolding is_empty
empty_nil [] e = refl
empty_nil (x ∷ xs) e = cc

not_empty : {A : Type 0} (xs : List A) → is_empty xs ≡ false → xs ≢ []
unfolding is_empty
not_empty xs some_left e = cc

calm_status : (b : Bool) → (if b then finished else ready) ≢ angry
calm_status true e = omega arith
calm_status false e = omega arith

track-IsManaged :
    (m : TaskManager) (tracked : Map (Map (List ℕ)))
    → IsManaged m
    → IsManaged (record m { tracked = tracked })
track-IsManaged m tracked v = record {
  statuses = v.statuses;
  rejections = v.rejections;
  priority = v.priority;
  waiting = v.waiting;
  status = v.status;
}

module _ (task_id : ℕ) where
  -- The task is known and runs, so it is not angry.
  pub record IsRunnable (m : TaskManager) : Type 0 where
    pub known : task_id < m.num_tasks
    pub all : length m.tasks ≡ m.num_tasks
    pub calm : get_or m.task_status task_id 0 ≢ angry

  -- The epoch of the task is over: its count goes up by one, and it is finished if that was the
  -- last epoch, and ready again if not.
  abbrev pub HasAdvanced : TaskManager → TaskManager → Type 0
  HasAdvanced m m' =
      let none : Task = record { id = 0; total_epoch = 0; current_epoch = 0 } in
      let task = get_or m.tasks task_id none in
      (m'.tasks ≡ set m.tasks task_id (record task { current_epoch = task.current_epoch + 1 }))
      × (m'.task_status
          ≡ set m.task_status task_id
              (if task.current_epoch + 1 == task.total_epoch then finished else ready))

  -- The threads of task `j` in process `p` that run.
  abbrev pub threads : (j p : ℕ) → TaskManager → List ℕ
  threads j p m = find_or [] p (find_or [] j m.tracked)

  -- Of all running threads, `tid` of the task in process `pid` is gone, and no other.
  abbrev pub HasLost : (pid tid : ℕ) → TaskManager → TaskManager → Type 0
  HasLost pid tid m m' =
      (j p t : ℕ)
      → has t (threads j p m')
        ≡ (not (j == task_id && (p == pid && t == tid)) && has t (threads j p m))

  -- The epoch advances if no process has threads of the task any more, and only then.
  abbrev pub AtEnd : TaskManager → TaskManager → Type 0
  AtEnd m m' =
      ((find_or [] task_id m'.tracked ≡ []) × HasAdvanced m m')
      ⊎ ((find_or [] task_id m'.tracked ≢ [])
          × (m'.tasks ≡ m.tasks)
          × (m'.task_status ≡ m.task_status))

  finish_epoch-IsManaged :
      (m : TaskManager)
      → IsRunnable m
      → IsManaged m
      → (m' : TaskManager) × (finish_epoch task_id m ≡ ok m')
        × IsManaged m'
        × HasAdvanced m m'
        × (m'.tracked ≡ m.tracked)
  unfolding finish_epoch inc_epoch
  finish_epoch-IsManaged m runs v =
      let none : Task = record { id = 0; total_epoch = 0; current_epoch = 0 } in
      let next = inc_epoch (get_or m.tasks task_id none) in
      let status : ℕ = if next.current_epoch == next.total_epoch then finished else ready in
      rw
        (
          read-get_or m.tasks task_id none (omega (arith, runs.all, runs.known)),
          read-get_or m.task_status task_id 0 (omega (arith, v.statuses, runs.known)),
        )
        (
          _,
          refl,
          record {
            statuses = length-set m.task_status task_id status ∙ v.statuses;
            rejections = v.rejections;
            priority = v.priority;
            waiting = v.waiting;
            status =
                same-IsManaged m task_id status runs.known runs.calm
                  (calm_status (next.current_epoch == next.total_epoch)) v;
          },
          (refl, refl),
          refl,
        )

  module _ (pid tid : ℕ) (m : TaskManager) where
    abbrev rest : List ℕ
    rest = erase tid (threads task_id pid m)

    abbrev left : Map (Map (List ℕ))
    left = modify [] task_id (modify [] pid (λ _. rest)) m.tracked

    abbrev gone : Map (Map (List ℕ))
    gone = modify [] task_id (remove pid) left

    left-HasLost : HasLost pid tid m (record m { tracked = left })
    left-HasLost j p t = elim (Bool-cases (j == task_id)) [
      | inr other ↦
          rw (find_or-modify [] j task_id (modify [] pid (λ _. rest)) m.tracked, other) refl
      | inl same ↦
          rw
            (
              find_or-modify [] j task_id (modify [] pid (λ _. rest)) m.tracked,
              same,
              find_or-modify_const [] [] p pid rest (find_or [] task_id m.tracked),
              ==→eq j task_id same,
            )
            (elim (Bool-cases (p == pid)) [
              | inr apart ↦ rw apart refl
              | inl here ↦
                  rw
                    (
                      here,
                      ==→eq p pid here,
                      has-erase t tid (find_or [] pid (find_or [] task_id m.tracked)),
                    )
                    refl
            ])
    ]

    gone-left :
        is_empty rest ≡ true
        → (j p : ℕ) → find_or [] p (find_or [] j gone) ≡ find_or [] p (find_or [] j left)
    gone-left none_left j p = elim (Bool-cases (j == task_id)) [
      | inr other ↦ rw (find_or-modify [] j task_id (remove pid) left, other) refl
      | inl same ↦
          rw (find_or-modify [] j task_id (remove pid) left, same, ==→eq j task_id same)
            (rw (find_or-remove [] p pid (find_or [] task_id left)) (elim (Bool-cases (p == pid)) [
              | inr apart ↦ rw apart refl
              | inl here ↦
                  rw
                    (
                      here,
                      ==→eq p pid here,
                      find_or-modify [] task_id task_id (modify [] pid (λ _. rest)) m.tracked,
                      ==_refl task_id,
                      find_or-modify_const [] [] pid pid rest (find_or [] task_id m.tracked),
                      ==_refl pid,
                    )
                    (sym (empty_nil rest none_left))
            ]))
    ]

    gone-HasLost : is_empty rest ≡ true → HasLost pid tid m (record m { tracked = gone })
    gone-HasLost none_left j p t = rw (gone-left none_left j p) (left-HasLost j p t)

    -- After an erasure that leaves a thread, its process still has an entry.
    left-some : is_empty rest ≡ false → find_or [] task_id left ≢ []
    unfolding find_or
    left-some some_left e =
        let one : find_or [] pid (find_or [] task_id left) ≡ rest =
          rw
            (
              find_or-modify [] task_id task_id (modify [] pid (λ _. rest)) m.tracked,
              ==_refl task_id,
              find_or-modify_const [] [] pid pid rest (find_or [] task_id m.tracked),
              ==_refl pid,
            )
            refl in
        not_empty rest some_left (sym one ∙ ap (λ xs. find_or [] pid xs) e)

  -- In a managed state, when a thread ends of a known task that is not angry, finish_thread
  -- succeeds and the state stays managed; of all running threads exactly this one is gone; and if
  -- no process has threads of the task any more, its epoch goes up by one and it is finished or
  -- ready again, as this was its last epoch or not, else its epochs and all statuses stay.
  pub finish_thread-IsManaged :
      (pid tid : ℕ) (m : TaskManager)
      → IsRunnable m
      → IsManaged m
      → (m' : TaskManager) × (finish_thread task_id pid tid m ≡ ok m')
        × IsManaged m'
        × HasLost pid tid m m'
        × AtEnd m m'
  unfolding finish_thread
  finish_thread-IsManaged pid tid m runs v = elim (Bool-cases (is_empty (rest pid tid m))) [
    | inr some_left ↦ rw some_left (
      _,
      refl,
      track-IsManaged m (left pid tid m) v,
      left-HasLost pid tid m,
      inr (left-some pid tid m some_left, refl, refl),
    )
    | inl none_left ↦ elim (Bool-cases (is_empty (find_or [] task_id (gone pid tid m)))) [
      | inr others ↦
          rw (none_left, others)
            (
              _,
              refl,
              track-IsManaged m (gone pid tid m) v,
              gone-HasLost pid tid m none_left,
              inr (not_empty _ others, refl, refl),
            )
      | inl last ↦
          let (m', done, managed, advanced, same) =
            finish_epoch-IsManaged (record m { tracked = gone pid tid m })
              (record { known = runs.known; all = runs.all; calm = runs.calm })
              (track-IsManaged m (gone pid tid m) v) in
          rw (none_left, last, done)
            (
              m',
              refl,
              managed,
              (λ j p t. rw same (gone-HasLost pid tid m none_left j p t)),
              inl (rw same (empty_nil _ last), advanced),
            )
    ]
  ]
