-- ===== src/Scheduler/HistoryManager/Visits.antt =====
-- The visits that cluster_manager/task_scheduler/history_manager.cpp counts, and the processes that
-- `get_preferred_proc` of task_scheduler_utils.cpp picks by them.
use flexps_paper_version.Common.{
  ℕ, zero, suc, ◌+◌, ◌≤◌, ◌<◌, ◌≡◌, ◌≢◌, ◌↔◌, ◌⊎◌, refl, sym, subst, ◌∙◌, inl, inr, Bool, true,
  false, ◌&&◌, ◌||◌, List, [], ◌∷◌, map, ok, arith, leb, ltb, lt→ltb, ltb→lt, leb→le, ◌==◌, ==→eq,
  eq→==, ne→==_false, ==_refl, if◌then◌else◌, length, get_or, get_or-add_at, length-add_at, add_at,
  Bool-cases, All,
}
use flexps_paper_version.Common.Members.{has}
use flexps_paper_version.Common.Maps.{Map, find_or, find_or-modify, find_or-modify_const, modify}
use flexps_paper_version.Scheduler.HistoryManager.{
  HistoryManager, insert_sorted, sort, unique, visit, smallest_from, places, int_max,
  get_task_history, update_history, get_preferred_proc, zeros,
}

==_comm : (a b : ℕ) → (a == b) ≡ (b == a)
==_comm a b = ground arith

==_false→ne : (a b : ℕ) → (a == b) ≡ false → a ≢ b
==_false→ne a b h = ground arith

or_true : (b : Bool) → (b || true) ≡ true
or_true true = refl
or_true false = refl

and_parts : (a b : Bool) → (a && b) ≡ true → (a ≡ true) × (b ≡ true)
and_parts true b e = (refl, e)
and_parts false b e = cc

smallest_from-le : (s : ℕ) (xs : List ℕ) → smallest_from s xs ≤ s
unfolding smallest_from
smallest_from-le s [] = omega arith
smallest_from-le s (x ∷ xs) = ground (arith, smallest_from-le (if ltb x s then x else s) xs)

smallest_from-le_all :
    (s : ℕ) (xs : List ℕ) (i : ℕ) → i < length xs → smallest_from s xs ≤ get_or xs i 0
unfolding smallest_from
smallest_from-le_all s [] i lt = absurd (omega arith)
smallest_from-le_all s (x ∷ xs) zero lt =
    ground (arith, smallest_from-le (if ltb x s then x else s) xs)
smallest_from-le_all s (x ∷ xs) (suc i) lt =
    smallest_from-le_all (if ltb x s then x else s) xs i (omega arith)

-- The start or one of the entries.
smallest_from-is :
    (s : ℕ) (xs : List ℕ)
    → (smallest_from s xs ≡ s) ⊎ ((i : ℕ) × (i < length xs) × (get_or xs i 0 ≡ smallest_from s xs))
unfolding smallest_from
smallest_from-is s [] = inl refl
smallest_from-is s (x ∷ xs) = elim (smallest_from-is (if ltb x s then x else s) xs) [
  | inl e ↦ elim (Bool-cases (ltb x s)) [
    | inl less ↦ inr (0, omega arith, ground (arith, e))
    | inr more ↦ inl (ground (arith, e))
  ]
  | inr (i, lt, e) ↦ inr (suc i, omega arith, e)
]

has-places_below : (k i x : ℕ) (xs : List ℕ) → k < i → has k (places i x xs) ≡ false
unfolding has places
has-places_below k i x [] lt = refl
has-places_below k i x (y ∷ ys) lt = ground (arith, has-places_below k (suc i) x ys (omega arith))

has-places :
    (j i x : ℕ) (xs : List ℕ)
    → has (i + j) (places i x xs) ≡ (ltb j (length xs) && (get_or xs j 0 == x))
unfolding has places
has-places j i x [] = ground arith
has-places zero i x (y ∷ ys) = ground (arith, has-places_below (i + 0) (suc i) x ys (omega arith))
has-places (suc j) i x (y ∷ ys) =
    let shift : i + suc j ≡ suc i + j = omega arith in
    ground (
      arith,
      subst (λ k. has k (places (suc i) x ys) ≡ (ltb j (length ys) && (get_or ys j 0 == x)))
          (sym shift) (has-places j (suc i) x ys),
    )

-- `p` has one of the smallest counts.
abbrev pub IsLeast : ℕ → List ℕ → Type 0
IsLeast p counts =
    (p < length counts) × ((q : ℕ) → q < length counts → get_or counts p 0 ≤ get_or counts q 0)

-- Counts that an `int` holds.
abbrev pub IsSmall : List ℕ → Type 0
IsSmall counts = (q : ℕ) → q < length counts → get_or counts q 0 ≤ int_max

module _ (counts : List ℕ) (small : IsSmall counts) (p : ℕ) where
  abbrev smallest : ℕ
  smallest = smallest_from int_max counts

  IsLeast-smallest : IsLeast p counts → get_or counts p 0 ≡ smallest
  IsLeast-smallest (lt, least) =
      let low = smallest_from-le_all int_max counts p lt in
      elim (smallest_from-is int_max counts) [
        | inl e ↦ omega (arith, low, e, small p lt)
        | inr (i, below, e) ↦ omega (arith, low, e, least i below)
      ]

  places-IsLeast : has p (places 0 smallest counts) ≡ true ↔ IsLeast p counts
  places-IsLeast =
      let picked : has p (places 0 smallest counts)
          ≡ (ltb p (length counts) && (get_or counts p 0 == smallest)) =
        subst
          (λ k.
            has k (places 0 smallest counts)
            ≡ (ltb p (length counts) && (get_or counts p 0 == smallest)))
          (omega arith) (has-places p 0 smallest counts) in
      (
        λ e.
            let (lt, at) = and_parts _ _ (sym picked ∙ e) in
            let here = ==→eq _ _ at in
            (
              ltb→lt _ _ lt,
              λ q below. omega (arith, here, smallest_from-le_all int_max counts q below),
            ),
        λ least. rw (picked, lt→ltb _ _ least.0, eq→== _ _ (IsLeast-smallest least)) refl,
      )

-- Where the visit counts fit an int, get_preferred_proc gives exactly the processes with the
-- smallest count.
pub get_preferred_proc-IsLeast :
    {Instance : Type 0} (task_id p : ℕ) (h : HistoryManager Instance)
    → IsSmall (get_task_history task_id h).0
    → has p (get_preferred_proc task_id h).0 ≡ true ↔ IsLeast p (get_task_history task_id h).0
unfolding get_preferred_proc
get_preferred_proc-IsLeast task_id p h small = places-IsLeast (get_task_history task_id h).0 small p

-- Sorting and removing repetitions keeps the members, and leaves each one once.
has-insert_sorted : (k x : ℕ) (ys : List ℕ) → has k (insert_sorted x ys) ≡ ((k == x) || has k ys)
unfolding has insert_sorted
has-insert_sorted k x [] = refl
has-insert_sorted k x (y ∷ ys) = ground (arith, has-insert_sorted k x ys)

has-sort : (k : ℕ) (xs : List ℕ) → has k (sort xs) ≡ has k xs
unfolding has sort
has-sort k [] = refl
has-sort k (x ∷ xs) = rw (has-insert_sorted k x (sort xs), has-sort k xs) refl

has-unique : (k : ℕ) (xs : List ℕ) → has k (unique xs) ≡ has k xs
unfolding has unique
has-unique k [] = refl
has-unique k (x ∷ []) = refl
has-unique k (x ∷ y ∷ ys) = ground (arith, has-unique k (y ∷ ys))

-- In increasing order, where neighbours may be equal.
abbrev IsSorted : List ℕ → Type 0
IsSorted [] = Unit
IsSorted (x ∷ []) = Unit
IsSorted (x ∷ y ∷ ys) = (x ≤ y) × IsSorted (y ∷ ys)

abbrev Distinct : List ℕ → Type 0
Distinct [] = Unit
Distinct (x ∷ xs) = (has x xs ≡ false) × Distinct xs

insert_sorted-IsSorted : (x : ℕ) (ys : List ℕ) → IsSorted ys → IsSorted (insert_sorted x ys)
unfolding insert_sorted
insert_sorted-IsSorted x [] s = tt
insert_sorted-IsSorted x (y ∷ []) s = elim (Bool-cases (leb x y)) [
  | inl le ↦ rw le (leb→le x y le, tt)
  | inr gt ↦ rw gt (ground (arith, gt), tt)
]
insert_sorted-IsSorted x (y ∷ z ∷ ys) s = elim (Bool-cases (leb x y)) [
  | inl le ↦ rw le (leb→le x y le, s)
  | inr gt ↦ elim (Bool-cases (leb x z)) [
    | inl le ↦ rw (gt, le) (ground (arith, gt), (leb→le x z le, s.1))
    | inr far ↦
        let rest = insert_sorted-IsSorted x (z ∷ ys) s.1 in rw (gt, far) (s.0, rw far at rest)
  ]
]

sort-IsSorted : (xs : List ℕ) → IsSorted (sort xs)
unfolding sort
sort-IsSorted [] = tt
sort-IsSorted (x ∷ xs) = insert_sorted-IsSorted x (sort xs) (sort-IsSorted xs)

below-has : (k y : ℕ) (ys : List ℕ) → IsSorted (y ∷ ys) → k < y → has k (y ∷ ys) ≡ false
unfolding has
below-has k y [] s lt = ground arith
below-has k y (z ∷ zs) s lt = ground (arith, below-has k z zs s.1 (omega (arith, s.0)))

unique-Distinct : (xs : List ℕ) → IsSorted xs → Distinct (unique xs)
unfolding unique has
unique-Distinct [] s = tt
unique-Distinct (x ∷ []) s = (refl, tt)
unique-Distinct (x ∷ y ∷ ys) s = elim (Bool-cases (x == y)) [
  | inl e ↦ rw e (unique-Distinct (y ∷ ys) s.1)
  | inr e ↦ rw e (
    has-unique x (y ∷ ys) ∙ below-has x y ys s.1 (omega (arith, s.0, ==_false→ne x y e)),
    unique-Distinct (y ∷ ys) s.1,
  )
]

-- Every process of the list counts one visit more.
visit_lem :
    (pids counts : List ℕ)
    → Distinct pids
    → All (λ p. p < length counts) pids
    → (counts' : List ℕ) × (visit pids counts ≡ ok counts')
      × ((q : ℕ)
          → get_or counts' q 0 ≡ (if has q pids then get_or counts q 0 + 1 else get_or counts q 0))
unfolding visit has
visit_lem [] counts d known = (counts, refl, λ q. refl)
visit_lem (p ∷ ps) counts d known =
    let (counts', done, at) =
      visit_lem ps (add_at p counts) d.1 (rw (length-add_at p counts) known.1) in
    rw (lt→ltb _ _ known.0) (
      counts',
      done,
      λ q.
          rw (at q, get_or-add_at p q counts known.0)
            (elim (Bool-cases (q == p)) [
              | inl e ↦ rw (==→eq q p e, ==_refl p, d.0) refl
              | inr e ↦ rw (==_comm p q, e) refl
            ]),
    )

All-of_has : (P : ℕ → Type 0) (xs : List ℕ) → ((k : ℕ) → has k xs ≡ true → P k) → All P xs
unfolding has
All-of_has P [] h = tt
All-of_has P (x ∷ xs) h =
    (h x (rw (==_refl x) refl), All-of_has P xs (λ k e. h k (rw e (or_true (k == x)))))

stored :
    (d v : List ℕ) (j k : ℕ) (m : Map (List ℕ))
    → find_or d j (modify [] k (λ _. v) (modify d k (λ c. c) m))
      ≡ (if j == k then v else find_or d j m)
stored d v j k m =
    rw (find_or-modify_const d [] j k v (modify d k (λ c. c) m), find_or-modify d j k (λ c. c) m)
      (elim (Bool-cases (j == k)) [ inl e ↦ rw e refl | inr e ↦ rw e refl ])

-- When all threads are of processes that the history has, update_history succeeds, and counts one
-- visit more for each process with a thread, however many, and for no other process or task.
pub update_history-Visits :
    {Instance : Type 0} (task_id : ℕ) (pid_tids : List (ℕ × ℕ)) (h : HistoryManager Instance)
    → ((q : ℕ) → has q (map (λ w. w.0) pid_tids) ≡ true → q < length (get_task_history task_id h).0)
    → (h' : HistoryManager Instance) × (update_history task_id pid_tids h ≡ ok h')
      × ((q : ℕ)
          → get_or (get_task_history task_id h').0 q 0 ≡ (
              if has q (map (λ w. w.0) pid_tids)
              then get_or (get_task_history task_id h).0 q 0 + 1
              else get_or (get_task_history task_id h).0 q 0))
      × ((other : ℕ)
          → other ≢ task_id
          → (get_task_history other h').0 ≡ (get_task_history other h).0)
unfolding update_history get_task_history
update_history-Visits task_id pid_tids h known =
    let pids : List ℕ = map (λ w. w.0) pid_tids in
    let same : (q : ℕ) → has q (unique (sort pids)) ≡ has q pids =
      λ q. has-unique q (sort pids) ∙ has-sort q pids in
    let (counts, done, at) =
      visit_lem (unique (sort pids)) (get_task_history task_id h).0
        (unique-Distinct (sort pids) (sort-IsSorted pids))
        (All-of_has _ (unique (sort pids)) (λ k e. known k (sym (same k) ∙ e))) in
    rw done (
      _,
      refl,
      λ q.
          rw
            (
              stored (zeros h.num_processes) counts task_id task_id h.history,
              ==_refl task_id,
              at q,
              same q,
            )
            refl,
      λ other apart.
          rw
            (
              stored (zeros h.num_processes) counts other task_id h.history,
              ne→==_false other task_id apart,
            )
            refl,
    )
