-- ===== src/Scheduler/SelectThreads/Free.antt =====
-- cluster_manager/task_scheduler/: the number of free threads of each process, and how selections change
-- it.
use flexps_paper_version.Common.{
  ℕ, ◌+◌, ◌≤◌, ◌≡◌, refl, sym, ap, ◌∙◌, inl, inr, true, false, List, [], ◌∷◌, ◌++◌, arith, ◌==◌,
  ==→eq, ==_refl, ltb, Bool-cases, length, length-append,
}
use flexps_paper_version.Common.Members.{erase, has, IsDistinct}
use flexps_paper_version.Common.Segments.{take, length-take}
use flexps_paper_version.Common.Maps.{find_or, find_or-modify, modify-IsMap}
use flexps_paper_version.Scheduler.AvailableWorkers.{
  AvailableWorkers, group, get_workers_exact_process, get_num_available_local_workers,
}
use flexps_paper_version.Scheduler.AvailableWorkers.Counts.{
  count, count_tid, count_tid-erase, count_tid-append,
}
use flexps_paper_version.Scheduler.AvailableWorkers.Validity.{IsValid}
use flexps_paper_version.Scheduler.AvailableWorkers.Groups.{
  tids_of, find_or-group, count-tids_of, count-pick, count-pick-le, length-pick,
}
use flexps_paper_version.Scheduler.AvailableWorkers.Selection.{
  get_workers_exact_process-Selects, count-void,
}

length-erase : (x : ℕ) (ys : List ℕ) → length (erase x ys) + count_tid x ys ≡ length ys
unfolding erase count_tid
length-erase x [] = refl
length-erase x (y ∷ ys) = ground (arith, length-erase x ys)

-- Two lists without repetitions that have the same elements are of one length.
length-same :
    (xs ys : List ℕ)
    → ((t : ℕ) → count_tid t xs ≡ count_tid t ys)
    → ((t : ℕ) → count_tid t ys ≤ 1)
    → length xs ≡ length ys
unfolding count_tid
length-same [] [] same once = refl
length-same [] (y ∷ ys) same once = absurd (ground (arith, same y, ==_refl y))
length-same (x ∷ xs) ys same once =
    let one : count_tid x ys ≡ 1 + count_tid x xs = ground (arith, same x, ==_refl x) in
    omega (
      arith,
      length-erase x ys,
      one,
      once x,
      length-same xs (erase x ys) (λ t. left t)
          (λ t. ground (arith, count_tid-erase t x ys, once t)),
    )
  where
    left : (t : ℕ) → count_tid t xs ≡ count_tid t (erase x ys)
    left t = ground (arith, count_tid-erase t x ys, once t, same t)

-- The free threads of a process.
abbrev pub free : ℕ → AvailableWorkers → ℕ
free p s = length (find_or [] p s.pid_tids)

free-tids_of : (p : ℕ) (s : AvailableWorkers) → IsValid s → length (tids_of p s.workers) ≡ free p s
free-tids_of p s valid =
    length-same (tids_of p s.workers) (find_or [] p s.pid_tids)
      (λ t. count-tids_of p t s.workers ∙ (valid.agree p t).0)
      (λ t. omega (arith, (valid.agree p t).0, (valid.agree p t).1))

-- Taking `n` threads of one process leaves that many less there, and all others as they are.
pub exact-free_other :
    (n pid p num_processes : ℕ) (s : AvailableWorkers)
    → IsValid s
    → (p == pid) ≡ false
    → free p (get_workers_exact_process n pid num_processes s).1 ≡ free p s
unfolding get_workers_exact_process
exact-free_other n pid p num_processes s valid other =
    let got = get_workers_exact_process n pid num_processes s in
    let (kept, gives, size) = get_workers_exact_process-Selects n pid num_processes s valid in
    let tids : List ℕ = find_or [] pid (group num_processes s.workers) in
    let none_of : (t : ℕ) → count (p, t) got.0 ≡ 0 = λ t. elim (Bool-cases (ltb (length tids) n)) [
      | inl few ↦ rw few (count-void p t [] refl)
      | inr enough ↦ rw enough (ground (arith, other, count-pick-le p pid n t tids))
    ] in
    length-same (find_or [] p got.1.pid_tids) (find_or [] p s.pid_tids)
      (λ t. omega (arith, (kept.agree p t).0, (valid.agree p t).0, gives p t, none_of t))
      (λ t. omega (arith, (valid.agree p t).0, (valid.agree p t).1))

pub exact-free :
    (n pid num_processes : ℕ) (s : AvailableWorkers)
    → IsValid s
    → n ≤ free pid s
    → (length (get_workers_exact_process n pid num_processes s).0 ≡ n)
      × (free pid (get_workers_exact_process n pid num_processes s).1 + n ≡ free pid s)
unfolding get_workers_exact_process
exact-free n pid num_processes s valid le =
    let got = get_workers_exact_process n pid num_processes s in
    let (kept, gives, size) = get_workers_exact_process-Selects n pid num_processes s valid in
    let tids : List ℕ = find_or [] pid (group num_processes s.workers) in
    let all : length tids ≡ free pid s =
      ap length (find_or-group pid num_processes s.workers) ∙ free-tids_of pid s valid in
    let enough : ltb (length tids) n ≡ false = ground (arith, all, le) in
    let taken : (t : ℕ) → count (pid, t) got.0 ≡ count_tid t (take n tids) =
      λ t. rw enough (ground (arith, count-pick pid pid n t tids, ==_refl pid)) in
    let size : length got.0 ≡ n = rw enough (length-pick pid n tids (omega (arith, all, le))) in
    let rest : List ℕ = find_or [] pid got.1.pid_tids in
    (
      size,
      omega (
        arith,
        length-append rest (take n tids),
        length-take n tids (omega (arith, all, le)),
        length-same (rest ++ take n tids) (find_or [] pid s.pid_tids)
            (λ t. omega (
              arith,
              count_tid-append t rest (take n tids),
              (kept.agree pid t).0,
              (valid.agree pid t).0,
              gives pid t,
              taken t,
            ))
            (λ t. omega (arith, (valid.agree pid t).0, (valid.agree pid t).1)),
      ),
    )

-- Asking for the number of free threads changes none of them.
pub look-free :
    (pid p : ℕ) (s : AvailableWorkers) → free p (get_num_available_local_workers pid s).1 ≡ free p s
unfolding get_num_available_local_workers
look-free pid p s = ap length (
    find_or-modify [] p pid (λ tids. tids) s.pid_tids ∙ elim (Bool-cases (p == pid)) [
      | inl here ↦ rw here (ap (λ (i : ℕ). find_or [] i s.pid_tids) (sym (==→eq p pid here)))
      | inr there ↦ rw there refl
    ])

pub look-IsValid :
    (pid : ℕ) (s : AvailableWorkers) → IsValid s → IsValid (get_num_available_local_workers pid s).1
unfolding get_num_available_local_workers
look-IsValid pid s valid = record {
  agree = λ p t. (
    (valid.agree p t).0
        ∙ ap (count_tid t) (
            sym (
              find_or-modify [] p pid (λ tids. tids) s.pid_tids ∙ elim (Bool-cases (p == pid)) [
                | inl here ↦
                    rw here (ap (λ (i : ℕ). find_or [] i s.pid_tids) (sym (==→eq p pid here)))
                | inr there ↦ rw there refl
              ])),
    (valid.agree p t).1,
  );
  keys = modify-IsMap [] pid (λ tids. tids) s.pid_tids valid.keys;
}

-- The free threads of some processes.
abbrev pub total : List ℕ → AvailableWorkers → ℕ
total [] s = 0
total (p ∷ ps) s = free p s + total ps s

pub total-same :
    (ps : List ℕ) (s s' : AvailableWorkers)
    → ((p : ℕ) → free p s' ≡ free p s)
    → total ps s' ≡ total ps s
total-same [] s s' same = refl
total-same (p ∷ ps) s s' same = omega (arith, same p, total-same ps s s' same)

total_other :
    (n pid num_processes : ℕ) (ps : List ℕ) (s : AvailableWorkers)
    → IsValid s
    → has pid ps ≡ false
    → total ps (get_workers_exact_process n pid num_processes s).1 ≡ total ps s
unfolding has
total_other n pid num_processes [] s valid absent = refl
total_other n pid num_processes (p ∷ ps) s valid absent =
    let other : (p == pid) ≡ false = ground (arith, absent) in
    let rest : has pid ps ≡ false = ground (arith, absent) in
    omega (
      arith,
      exact-free_other n pid p num_processes s valid other,
      total_other n pid num_processes ps s valid rest,
    )

pub total_take :
    (n pid num_processes : ℕ) (ps : List ℕ) (s : AvailableWorkers)
    → IsValid s
    → IsDistinct ps
    → has pid ps ≡ true
    → n ≤ free pid s
    → total ps (get_workers_exact_process n pid num_processes s).1 + n ≡ total ps s
unfolding has
total_take n pid num_processes [] s valid distinct there le = cc
total_take n pid num_processes (p ∷ ps) s valid distinct there le = elim (Bool-cases (pid == p)) [
  | inl here ↦
      let e : pid ≡ p = ==→eq pid p here in
      rw (← e) (
        omega (
          arith,
          (exact-free n pid num_processes s valid le).1,
          total_other n pid num_processes ps s valid (rw (← e) at distinct.0),
        ))
  | inr apart ↦
      let other : (p == pid) ≡ false = ground (arith, apart) in
      let rest : has pid ps ≡ true = rw apart at there in
      omega (
        arith,
        exact-free_other n pid p num_processes s valid other,
        total_take n pid num_processes ps s valid distinct.1 rest le,
      )
]
