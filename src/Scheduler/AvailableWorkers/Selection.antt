-- ===== src/Scheduler/AvailableWorkers/Selection.antt =====
-- cluster_manager/task_scheduler/available_workers.cpp: every way to select threads gives as many free
-- threads as it is asked for, or leaves all as it is.
pub mod Draws
use flexps_paper_version.Common.{
  ℕ, zero, suc, ◌+◌, ◌*◌, ◌≤◌, ◌<◌, ◌≡◌, ◌⊎◌, refl, sym, ap, ◌∙◌, inl, inr, Bool, true, false, not,
  ◌&&◌, Option, none, some, List, [], ◌∷◌, ◌++◌, map, arith, ok, ◌==◌, ==→eq, ltb, leb, leb→le,
  if◌then◌else◌, Bool-cases, Option-cases, length, length-map,
}
use flexps_paper_version.Common.Segments.{take, drop}
use flexps_paper_version.Common.Maps.{Map, IsMap, find, find_or, find_or-absent}
use flexps_paper_version.Scheduler.HistoryManager.{
  HistoryManager, get_task_history, places, smallest_from,
}
use flexps_paper_version.Scheduler.AvailableWorkers.{
  Thread, AvailableWorkers, group, all_have, pick, pick_all, take_threads, get_workers_per_process,
  get_workers_exact_process, find_local, get_local_workers, first_process, get_traverse_workers,
  erase_all,
}
use flexps_paper_version.Scheduler.AvailableWorkers.Counts.{count, count_tid, count_tid-take-drop}
use flexps_paper_version.Scheduler.AvailableWorkers.Validity.{
  IsValid, Gives, take_threads-IsValid, erase_all-Gives,
}
use flexps_paper_version.Scheduler.AvailableWorkers.Groups.{
  find_or-group, group-IsSorted, count-tids_of, count-pick, count-pick-le, count-pick_all-le,
  length-pick, length-pick_all,
}

-- A selection of `n` free threads, which then are free no more, or of none.
abbrev pub Selects : ℕ → AvailableWorkers → List Thread × AvailableWorkers → Type 0
Selects n s (selected, s') =
    IsValid s' × Gives s selected s' × ((length selected ≡ n) ⊎ (selected ≡ []))

pub Selects-nothing : (n : ℕ) (s : AvailableWorkers) → IsValid s → Selects n s ([], s)
unfolding count
Selects-nothing n s valid = (valid, λ p t. omega arith, inr refl)

pub count-group :
    (p t n : ℕ) (s : AvailableWorkers)
    → count_tid t (find_or [] p (group n s.workers)) ≡ count (t, p) s.workers
count-group p t n s = ap (count_tid t) (find_or-group p n s.workers) ∙ count-tids_of p t s.workers

-- The threads of one process.
pub get_workers_exact_process-Selects :
    (n pid num_processes : ℕ) (s : AvailableWorkers)
    → IsValid s
    → Selects n s (get_workers_exact_process n pid num_processes s)
unfolding get_workers_exact_process
get_workers_exact_process-Selects n pid num_processes s valid =
    let tids : List ℕ = find_or [] pid (group num_processes s.workers) in
    elim (Bool-cases (ltb (length tids) n)) [
      | inl few ↦ rw few (Selects-nothing n s valid)
      | inr enough ↦
          let (kept, gives) =
            take_threads-IsValid (pick pid n tids) s valid (λ p t. selected_free p t tids enough) in
          rw enough (kept, gives, inl (length-pick pid n tids (ground (arith, enough))))
    ]
  where
    selected_free :
        (p t : ℕ) (tids : List ℕ)
        → ltb (length tids) n ≡ false
        → count (p, t) (pick pid n (find_or [] pid (group num_processes s.workers)))
          ≤ count (t, p) s.workers
    selected_free p t tids enough = elim (Bool-cases (p == pid)) [
      | inl here ↦ ground (
        arith,
        here,
        count-pick-le p pid n t (find_or [] pid (group num_processes s.workers)),
        count-group pid t num_processes s,
        ap (λ (i : ℕ). count (t, i) s.workers) (==→eq p pid here),
      )
      | inr there ↦
          ground
            (arith, there, count-pick-le p pid n t (find_or [] pid (group num_processes s.workers)))
    ]

-- `n` threads of every process.
pub get_workers_per_process-Selects :
    (n num_processes : ℕ) (s : AvailableWorkers)
    → IsValid s
    → Selects
        (n * length (group num_processes s.workers))
        s
        (get_workers_per_process n num_processes s)
unfolding get_workers_per_process
get_workers_per_process-Selects n num_processes s valid =
    let m = group num_processes s.workers in
    elim (Bool-cases (all_have n m)) [
      | inl enough ↦
          let (kept, gives) = take_threads-IsValid (pick_all n m) s valid (λ p t. omega (
            arith,
            count-pick_all-le p n t m (group-IsSorted num_processes s.workers),
            count-group p t num_processes s,
          )) in
          rw enough (kept, gives, inl (length-pick_all n m enough))
      | inr few ↦ rw few (Selects-nothing _ s valid)
    ]

some-injective : {a b : List Thread} → some a ≡ some b → a ≡ b
some-injective e = cc

-- A process of `pid_tids_` with enough threads.
find_local-Gives :
    (n p t : ℕ) (m : Map (List ℕ)) (selected : List Thread)
    → IsMap m
    → (find_local n m).0 ≡ some selected
    → (count_tid t (find_or [] p m)
        ≡ count_tid t (find_or [] p (find_local n m).1) + count (p, t) selected)
      × (length selected ≡ n)
unfolding find_local find_or count_tid
find_local-Gives n p t [] selected maps found = cc
find_local-Gives n p t ((i, tids) ∷ m) selected maps found =
    elim (Bool-cases (leb n (length tids))) [
      | inl enough ↦
          let e : pick i n tids ≡ selected = some-injective (rw enough at found) in
          let full = length-pick i n tids (leb→le n (length tids) enough) in
          rw (enough, ← e)
            (
              elim (Bool-cases (p == i)) [
                | inl here ↦
                    rw here
                      (ground (arith, here, count-pick p i n t tids, count_tid-take-drop t n tids))
                | inr there ↦ rw there (ground (arith, there, count-pick p i n t tids))
              ],
              full,
            )
      | inr few ↦
          let (gives, full) = find_local-Gives n p t m selected maps.1 (rw few at found) in
          let absent : count_tid t (find_or [] i m) ≡ 0 =
            ap (count_tid t) (find_or-absent [] i m maps.0) in
          rw few (
            elim (Bool-cases (p == i)) [
              | inl here ↦
                  let gone : count_tid t (find_or [] p m) ≡ 0 =
                    ap (λ (j : ℕ). count_tid t (find_or [] j m)) (==→eq p i here) ∙ absent in
                  rw here (omega (arith, gives, gone))
              | inr there ↦ rw there gives
            ],
            full,
          )
    ]

find-find_local : (n j : ℕ) (m : Map (List ℕ)) → find j m ≡ none → find j (find_local n m).1 ≡ none
unfolding find_local find
find-find_local n j [] absent = refl
find-find_local n j ((i, tids) ∷ m) absent = elim (Bool-cases (leb n (length tids))) [
  | inl enough ↦ rw enough (elim (Bool-cases (j == i)) [
    | inl here ↦ absurd (present tids (rw here at absent))
    | inr there ↦ rw there (rw there at absent)
  ])
  | inr few ↦ rw few (elim (Bool-cases (j == i)) [
    | inl here ↦ absurd (present tids (rw here at absent))
    | inr there ↦ rw there (find-find_local n j m (rw there at absent))
  ])
]
  where
    present : (ts : List ℕ) → some ts ≡ none → ⊥
    present ts e = cc

find_local-IsMap : (n : ℕ) (m : Map (List ℕ)) → IsMap m → IsMap (find_local n m).1
unfolding find_local
find_local-IsMap n [] maps = tt
find_local-IsMap n ((i, tids) ∷ m) maps = elim (Bool-cases (leb n (length tids))) [
  | inl enough ↦ rw enough maps
  | inr few ↦ rw few (find-find_local n i m maps.0, find_local-IsMap n m maps.1)
]

-- The threads of the first process that has enough.
pub get_local_workers-Selects :
    (n : ℕ) (s : AvailableWorkers) → IsValid s → Selects n s (get_local_workers n s)
unfolding get_local_workers
get_local_workers-Selects n s valid = elim (Option-cases (find_local n s.pid_tids).0) [
  | inl missing ↦ rw (get_local_workers, missing) (Selects-nothing n s valid)
  | inr (selected, found) ↦
      let local = λ (p : ℕ) (t : ℕ). find_local-Gives n p t s.pid_tids selected valid.keys found in
      let gives = λ (p : ℕ) (t : ℕ).
        erase_all-Gives p t selected s valid (omega (arith, (local p t).0, (valid.agree p t).0)) in
      rw (get_local_workers, found)
        (
          record {
            agree = λ p t. (
              omega (arith, gives p t, (local p t).0, (valid.agree p t).0),
              omega (arith, gives p t, (valid.agree p t).1),
            );
            keys = find_local-IsMap n s.pid_tids valid.keys;
          },
          gives,
          inl (local 0 0).1,
        )
]

pub count-void :
    (p t : ℕ) (selected : List Thread) → (length selected == 0) ≡ true → count (p, t) selected ≡ 0
unfolding count
count-void p t [] void = refl
count-void p t (w ∷ ws) void = absurd (omega (arith, ==→eq (length (w ∷ ws)) 0 void))

List-cases : (xs : List ℕ) → (xs ≡ []) ⊎ ((x : ℕ) × (ys : List ℕ) × (xs ≡ x ∷ ys))
List-cases [] = inl refl
List-cases (x ∷ ys) = inr (x, ys, refl)

nothing : {xs : List ℕ} → xs ≡ [] → (length xs == 0) ≡ false → ⊥
nothing e f = absurd (some_length (rw e at f))
  where
    some_length : (length {A = ℕ} [] == 0) ≡ false → ⊥
    some_length g = cc

first_process-Selects :
    (n num_processes : ℕ) (pids : List ℕ) (s : AvailableWorkers)
    → IsValid s
    → Selects n s (first_process n num_processes pids s)
unfolding first_process
first_process-Selects n num_processes [] s valid = Selects-nothing n s valid
first_process-Selects n num_processes (pid ∷ pids) s valid =
    let got = get_workers_exact_process n pid num_processes s in
    let (kept, gives, size) = get_workers_exact_process-Selects n pid num_processes s valid in
    elim (Bool-cases (length got.0 == 0)) [
      | inl void ↦
          let (rest, more, left) = first_process-Selects n num_processes pids got.1 kept in
          rw void (rest, λ p t. omega (arith, gives p t, more p t, count-void p t got.0 void), left)
      | inr full ↦ rw full (kept, gives, size)
    ]

-- The threads of a process that the task has visited least often.
pub get_traverse_workers-Selects :
    {Instance : Type 0} (task_id n num_processes : ℕ) (h : HistoryManager Instance)
    (s : AvailableWorkers)
    → (length (get_task_history task_id h).0 == 0) ≡ false
    → IsValid s
    → (got : List Thread × AvailableWorkers) × (get_traverse_workers task_id n num_processes h s
        ≡ ok (got, (get_task_history task_id h).1))
      × Selects n s got
unfolding get_traverse_workers
get_traverse_workers-Selects task_id n num_processes h s some_history valid =
    elim (List-cases (get_task_history task_id h).0) [
      | inl void ↦ absurd (nothing void some_history)
      | inr (c, cs, known) ↦
          let processes = places 0 (smallest_from c (c ∷ cs)) (c ∷ cs) in
          (
            first_process n num_processes processes s,
            rw (get_traverse_workers, known) refl,
            first_process-Selects n num_processes processes s valid,
          )
    ]
