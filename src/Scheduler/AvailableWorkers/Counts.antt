-- ===== src/Scheduler/AvailableWorkers/Counts.antt =====
-- cluster_manager/task_scheduler/available_workers.hpp: how often a thread is among the free ones. The
-- set of all threads and the sets of the processes agree, and threads that are taken are lost nowhere.
use flexps_paper_version.Common.{
  ℕ, zero, suc, ◌+◌, ◌≤◌, ◌≡◌, refl, sym, ap, ◌∙◌, inl, inr, true, not, List, [], ◌∷◌, ◌++◌, arith,
  ◌==◌, ==→eq, if◌then◌else◌, Bool-cases,
}
use flexps_paper_version.Common.Members.{has, insert, erase}
use flexps_paper_version.Common.Segments.{take, drop}
use flexps_paper_version.Common.Maps.{Map, find_or, modify, find_or-modify}
use flexps_paper_version.Scheduler.AvailableWorkers.{
  Thread, same, has_thread, erase_thread, insert_thread, erase_all, erase_tids,
}

unfoldable pub count : Thread → List Thread → ℕ
unfolding same
count a [] = 0
count a (b ∷ bs) = (if same a b then 1 else 0) + count a bs

unfoldable pub count_tid : ℕ → List ℕ → ℕ
count_tid x [] = 0
count_tid x (y ∷ ys) = (if x == y then 1 else 0) + count_tid x ys

pub count-append : (a : Thread) (bs cs : List Thread) → count a (bs ++ cs) ≡ count a bs + count a cs
unfolding count
count-append a [] cs = omega arith
count-append a (b ∷ bs) cs = omega (arith, count-append a bs cs)

pub count_tid-append :
    (x : ℕ) (ys zs : List ℕ) → count_tid x (ys ++ zs) ≡ count_tid x ys + count_tid x zs
unfolding count_tid
count_tid-append x [] zs = omega arith
count_tid-append x (y ∷ ys) zs = omega (arith, count_tid-append x ys zs)

pub count_tid-take-drop :
    (x n : ℕ) (ys : List ℕ) → count_tid x (take n ys) + count_tid x (drop n ys) ≡ count_tid x ys
unfolding count_tid take drop
count_tid-take-drop x zero ys = omega arith
count_tid-take-drop x (suc n) [] = refl
count_tid-take-drop x (suc n) (y ∷ ys) = omega (arith, count_tid-take-drop x n ys)

pub count-erase_thread :
    (a b : Thread) (bs : List Thread)
    → count a (erase_thread b bs) ≡ (if same a b then 0 else count a bs)
unfolding count erase_thread
count-erase_thread a b [] = ground arith
count-erase_thread a b (c ∷ bs) = ground (arith, count-erase_thread a b bs)

has_thread-count : (a : Thread) (bs : List Thread) → has_thread a bs ≡ not (count a bs == 0)
unfolding count has_thread
has_thread-count a [] = refl
has_thread-count a (b ∷ bs) = ground (arith, has_thread-count a bs)

same_sym : (a b : Thread) → same a b ≡ true → (a.0 ≡ b.0) × (a.1 ≡ b.1)
unfolding same
same_sym a b e = (ground (arith, e), ground (arith, e))

pub count-same : (a b : Thread) (bs : List Thread) → same a b ≡ true → count a bs ≡ count b bs
unfolding count
count-same a b bs e = rw ((same_sym a b e).0, (same_sym a b e).1) refl

pub count-insert_thread :
    (a b : Thread) (bs : List Thread)
    → count a bs ≤ 1
    → count a (insert_thread b bs) ≡ (if same a b then 1 else count a bs)
unfolding insert_thread count
count-insert_thread a b bs le = elim (Bool-cases (has_thread b bs)) [
  | inl known ↦ elim (Bool-cases (same a b)) [
    | inl e ↦ rw (known, e) (ground (arith, count-same a b bs e, has_thread-count b bs, known, le))
    | inr e ↦ rw (known, e) refl
  ]
  | inr new ↦ elim (Bool-cases (same a b)) [
    | inl e ↦ rw (new, e) (ground (arith, count-same a b bs e, has_thread-count b bs, new))
    | inr e ↦ rw (new, e) (omega arith)
  ]
]

pub count_tid-erase :
    (x y : ℕ) (ys : List ℕ) → count_tid x (erase y ys) ≡ (if x == y then 0 else count_tid x ys)
unfolding count_tid erase
count_tid-erase x y [] = ground arith
count_tid-erase x y (z ∷ ys) = ground (arith, count_tid-erase x y ys)

has-count_tid : (x : ℕ) (ys : List ℕ) → has x ys ≡ not (count_tid x ys == 0)
unfolding count_tid has
has-count_tid x [] = refl
has-count_tid x (y ∷ ys) = ground (arith, has-count_tid x ys)

pub count_tid-insert :
    (x y : ℕ) (ys : List ℕ)
    → count_tid x ys ≤ 1
    → count_tid x (insert y ys) ≡ (if x == y then 1 else count_tid x ys)
unfolding count_tid insert
count_tid-insert x y ys le = elim (Bool-cases (has y ys)) [
  | inl known ↦ elim (Bool-cases (x == y)) [
    | inl e ↦
        rw (known, e)
          (ground
            (arith, has-count_tid y ys, known, le, ap (λ (z : ℕ). count_tid z ys) (==→eq x y e)))
    | inr e ↦ rw (known, e) refl
  ]
  | inr new ↦ elim (Bool-cases (x == y)) [
    | inl e ↦
        rw (new, e)
          (ground (arith, has-count_tid y ys, new, ap (λ (z : ℕ). count_tid z ys) (==→eq x y e)))
    | inr e ↦ rw (new, e) (omega arith)
  ]
]

pub count-erase_all :
    (p t : ℕ) (selected ws : List Thread)
    → count (t, p) (erase_all selected ws)
      ≡ (if count (p, t) selected == 0 then count (t, p) ws else 0)
unfolding erase_all count same
count-erase_all p t [] ws = refl
count-erase_all p t ((pid, tid) ∷ selected) ws =
    let step = count-erase_thread (t, p) (tid, pid) ws in
    let rest = count-erase_all p t selected (erase_thread (tid, pid) ws) in
    ground (arith, step, rest)

pub count_tid-erase_tids :
    (p t : ℕ) (selected : List Thread) (m : Map (List ℕ))
    → count_tid t (find_or [] p (erase_tids selected m))
      ≡ (if count (p, t) selected == 0 then count_tid t (find_or [] p m) else 0)
unfolding erase_tids count same
count_tid-erase_tids p t [] m = refl
count_tid-erase_tids p t ((pid, tid) ∷ selected) m =
    let rest = count_tid-erase_tids p t selected (modify [] pid (erase tid) m) in
    elim (Bool-cases (p == pid)) [
      | inl here ↦
          let found : find_or [] p (modify [] pid (erase tid) m) ≡ erase tid (find_or [] p m) =
            find_or-modify [] p pid (erase tid) m
            ∙ rw here (ap (λ (i : ℕ). erase tid (find_or [] i m)) (sym (==→eq p pid here))) in
          ground (arith, rest, here, ap (count_tid t) found, count_tid-erase t tid (find_or [] p m))
      | inr there ↦
          let found : find_or [] p (modify [] pid (erase tid) m) ≡ find_or [] p m =
            find_or-modify [] p pid (erase tid) m ∙ rw there refl in
          ground (arith, rest, there, ap (count_tid t) found)
    ]
