-- ===== src/Scheduler/AvailableWorkers/Groups.antt =====
-- cluster_manager/task_scheduler/available_workers.cpp: `pid_tids_map` holds for each process its free
-- threads, in the order of `workers_`, and a selection from it is of free threads.
use flexps_paper_version.Common.{
  ℕ, zero, suc, ◌*◌, ◌≤◌, ◌<◌, ◌≡◌, refl, sym, ap, ◌∙◌, inl, inr, true, false, List, [], ◌∷◌, ◌++◌,
  map, arith, ◌==◌, ==→eq, ltb, if◌then◌else◌, Bool-cases, length, length-append, length-map, All,
}
use mathlib.Core.List.{append_assoc}
use flexps_paper_version.Common.Segments.{take, length-take}
use flexps_paper_version.Common.Maps.{Map, find_or}
use flexps_paper_version.Scheduler.AvailableWorkers.{
  Thread, same, push_tid, push_tids, no_tids, group, all_have, pick, pick_all,
}
use flexps_paper_version.Scheduler.AvailableWorkers.Counts.{
  count, count_tid, count-append, count_tid-append, count_tid-take-drop,
}

-- The keys of a `std::map` rise.
abbrev pub IsSorted : Map (List ℕ) → Type 0
IsSorted [] = Unit
IsSorted ((i, tids) ∷ m) = All (λ e. i < e.0) m × IsSorted m

push_tid-All :
    (i pid tid : ℕ) (m : Map (List ℕ))
    → i < pid
    → All (λ e. i < e.0) m
    → All (λ e. i < e.0) (push_tid pid tid m)
unfolding push_tid
push_tid-All i pid tid [] lt low = (lt, tt)
push_tid-All i pid tid ((j, tids) ∷ m) lt low = elim (Bool-cases (pid == j)) [
  | inl here ↦ rw here low
  | inr there ↦ elim (Bool-cases (ltb pid j)) [
    | inl first ↦ rw (there, first) (lt, low)
    | inr later ↦ rw (there, later) (low.0, push_tid-All i pid tid m lt low.1)
  ]
]

All-below : (i j : ℕ) (m : Map (List ℕ)) → i < j → All (λ e. j < e.0) m → All (λ e. i < e.0) m
All-below i j [] lt low = tt
All-below i j (e ∷ m) lt low = (omega (arith, low.0), All-below i j m lt low.1)

push_tid-IsSorted : (pid tid : ℕ) (m : Map (List ℕ)) → IsSorted m → IsSorted (push_tid pid tid m)
unfolding push_tid
push_tid-IsSorted pid tid [] s = (tt, tt)
push_tid-IsSorted pid tid ((j, tids) ∷ m) s = elim (Bool-cases (pid == j)) [
  | inl here ↦ rw here s
  | inr there ↦ elim (Bool-cases (ltb pid j)) [
    | inl first ↦
        let lt : pid < j = ground (arith, first) in
        rw (there, first) ((lt, All-below pid j m lt s.0), s)
    | inr later ↦
        let lt : j < pid = ground (arith, there, later) in
        rw (there, later) (push_tid-All j pid tid m lt s.0, push_tid-IsSorted pid tid m s.1)
  ]
]

-- A process whose threads come later has none in the map.
find_or-above : (p : ℕ) (m : Map (List ℕ)) → All (λ e. p < e.0) m → find_or [] p m ≡ []
unfolding find_or
find_or-above p [] low = refl
find_or-above p ((i, tids) ∷ m) low = ground (arith, low.0, find_or-above p m low.1)

find_or-push_tid :
    (p pid tid : ℕ) (m : Map (List ℕ))
    → IsSorted m
    → find_or [] p (push_tid pid tid m)
      ≡ (if p == pid then find_or [] p m ++ tid ∷ [] else find_or [] p m)
unfolding find_or push_tid
find_or-push_tid p pid tid [] s = refl
find_or-push_tid p pid tid ((i, tids) ∷ m) s = elim (Bool-cases (pid == i)) [
  | inl here ↦ rw here (ground (arith, here))
  | inr there ↦ elim (Bool-cases (ltb pid i)) [
    | inl first ↦
        let lt : pid < i = ground (arith, first) in
        rw (there, first)
          (elim (Bool-cases (p == pid)) [
            | inl e ↦
                let less : p < i = omega (arith, lt, ==→eq p pid e) in
                let other : (p == i) ≡ false = ground (arith, less) in
                rw (e, other, find_or-above p m (All-below p i m less s.0)) refl
            | inr e ↦ rw e refl
          ])
    | inr later ↦ rw (there, later) (ground (arith, there, find_or-push_tid p pid tid m s.1))
  ]
]

-- The threads of a process, in the order of `workers_`.
unfoldable pub tids_of : ℕ → List Thread → List ℕ
tids_of p [] = []
tids_of p ((t, i) ∷ ws) = (if p == i then t ∷ [] else []) ++ tids_of p ws

append_nil : (xs : List ℕ) → xs ++ [] ≡ xs
append_nil [] = refl
append_nil (x ∷ xs) = ap (λ (ys : List ℕ). x ∷ ys) (append_nil xs)

push_tids_lem :
    (p : ℕ) (ws : List Thread) (m : Map (List ℕ))
    → IsSorted m
    → (find_or [] p (push_tids ws m) ≡ find_or [] p m ++ tids_of p ws) × IsSorted (push_tids ws m)
unfolding push_tids tids_of
push_tids_lem p [] m s = (sym (append_nil (find_or [] p m)), s)
push_tids_lem p ((t, i) ∷ ws) m s =
    let (rest, sorted) = push_tids_lem p ws (push_tid i t m) (push_tid-IsSorted i t m s) in
    (
      rest
          ∙ ap (λ (ts : List ℕ). ts ++ tids_of p ws) (find_or-push_tid p i t m s)
          ∙ elim (Bool-cases (p == i)) [
            | inl here ↦ rw here (append_assoc (find_or [] p m) (t ∷ []) (tids_of p ws))
            | inr there ↦ rw there refl
          ],
      sorted,
    )

no_tids-All : (i j n : ℕ) → i < j → All (λ e. i < e.0) (no_tids j n)
unfolding no_tids
no_tids-All i j zero lt = tt
no_tids-All i j (suc n) lt = (lt, no_tids-All i (suc j) n (omega arith))

no_tids-IsSorted : (i n : ℕ) → IsSorted (no_tids i n)
unfolding no_tids
no_tids-IsSorted i zero = tt
no_tids-IsSorted i (suc n) = (no_tids-All i (suc i) n (omega arith), no_tids-IsSorted (suc i) n)

find_or-no_tids : (p i n : ℕ) → find_or [] p (no_tids i n) ≡ []
unfolding find_or no_tids
find_or-no_tids p i zero = refl
find_or-no_tids p i (suc n) = ground (arith, find_or-no_tids p (suc i) n)

pub find_or-group : (p n : ℕ) (ws : List Thread) → find_or [] p (group n ws) ≡ tids_of p ws
unfolding group
find_or-group p n ws =
    (push_tids_lem p ws (no_tids 0 n) (no_tids-IsSorted 0 n)).0
    ∙ ap (λ (ts : List ℕ). ts ++ tids_of p ws) (find_or-no_tids p 0 n)

pub group-IsSorted : (n : ℕ) (ws : List Thread) → IsSorted (group n ws)
unfolding group
group-IsSorted n ws = (push_tids_lem 0 ws (no_tids 0 n) (no_tids-IsSorted 0 n)).1

pub count-tids_of : (p t : ℕ) (ws : List Thread) → count_tid t (tids_of p ws) ≡ count (t, p) ws
unfolding count_tid count same tids_of
count-tids_of p t [] = refl
count-tids_of p t ((u, i) ∷ ws) =
    let both = count_tid-append t (if p == i then u ∷ [] else []) (tids_of p ws) in
    ground (arith, both, count-tids_of p t ws)

count-map :
    (p i t : ℕ) (ts : List ℕ)
    → count (p, t) (map (λ u. (i, u)) ts) ≡ (if p == i then count_tid t ts else 0)
unfolding count count_tid same
count-map p i t [] = ground arith
count-map p i t (u ∷ ts) = ground (arith, count-map p i t ts)

pub count-pick :
    (p i n t : ℕ) (ts : List ℕ)
    → count (p, t) (pick i n ts) ≡ (if p == i then count_tid t (take n ts) else 0)
unfolding pick
count-pick p i n t ts = count-map p i t (take n ts)

-- A selection of one process has its threads only, each as often as it is there.
pub count-pick-le :
    (p i n t : ℕ) (ts : List ℕ)
    → count (p, t) (pick i n ts) ≤ (if p == i then count_tid t ts else 0)
count-pick-le p i n t ts = ground (arith, count-pick p i n t ts, count_tid-take-drop t n ts)

count-pick_all-above :
    (p n t : ℕ) (m : Map (List ℕ)) → All (λ e. p < e.0) m → count (p, t) (pick_all n m) ≡ 0
unfolding pick_all count
count-pick_all-above p n t [] low = refl
count-pick_all-above p n t ((i, ts) ∷ m) low = ground (
  arith,
  count-append (p, t) (pick i n ts) (pick_all n m),
  count-pick-le p i n t ts,
  low.0,
  count-pick_all-above p n t m low.1,
)

pub count-pick_all-le :
    (p n t : ℕ) (m : Map (List ℕ))
    → IsSorted m
    → count (p, t) (pick_all n m) ≤ count_tid t (find_or [] p m)
unfolding pick_all count find_or count_tid
count-pick_all-le p n t [] s = omega arith
count-pick_all-le p n t ((i, ts) ∷ m) s =
    let both = count-append (p, t) (pick i n ts) (pick_all n m) in
    let one = count-pick-le p i n t ts in
    elim (Bool-cases (p == i)) [
      | inl here ↦
          let none_later = count-pick_all-above i n t m s.0 in
          rw here (
            ground (
              arith,
              both,
              one,
              here,
              ap (λ (j : ℕ). count (j, t) (pick_all n m)) (==→eq p i here),
              none_later,
            ))
      | inr there ↦ rw there (ground (arith, both, one, there, count-pick_all-le p n t m s.1))
    ]

pub length-pick : (i n : ℕ) (ts : List ℕ) → n ≤ length ts → length (pick i n ts) ≡ n
unfolding pick
length-pick i n ts le = length-map (λ u. (i, u)) (take n ts) ∙ length-take n ts le

pub length-pick_all :
    (n : ℕ) (m : Map (List ℕ)) → all_have n m ≡ true → length (pick_all n m) ≡ n * length m
unfolding pick_all all_have
length-pick_all n [] enough = omega arith
length-pick_all n ((i, ts) ∷ m) enough =
    let full : n ≤ length ts = ground (arith, enough) in
    let others : all_have n m ≡ true = ground (arith, enough) in
    length-append (pick i n ts) (pick_all n m)
    ∙ grind (arith, length-pick i n ts full, length-pick_all n m others)
