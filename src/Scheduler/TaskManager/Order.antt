-- ===== src/Scheduler/TaskManager/Order.antt =====
-- The order in which ready tasks are tried: `order_by_priority` of
-- cluster_manager/task_scheduler/task_manager.cpp.
use flexps_paper_version.Common.{
  ℕ, ◌≤◌, ◌<◌, ◌≡◌, ◌≢◌, refl, ◌∙◌, inl, inr, Bool, true, false, ◌&&◌, none, some, List, [], ◌∷◌,
  ok, arith, leb, leb→le, ◌==◌, ==→eq, if◌then◌else◌, length, get_or, Bool-cases, All, read-get_or,
}
use flexps_paper_version.Common.Members.{has}
use flexps_paper_version.Common.Maps.{Map, find}
use flexps_paper_version.Scheduler.TaskManager.Priorities.{IsManaged}
use flexps_paper_version.Scheduler.TaskManager.{
  TaskManager, ready, insert_by_priority, sort_by_priority, ready_ids, order_by_priority,
}

and_false : (b : Bool) → (b && false) ≡ false
and_false true = refl
and_false false = refl

no_some : {p : ℕ} → some p ≢ none
no_some e = cc

-- The entry of a key that is not in the map is moved about freely.
find-insert_by_priority :
    (k : ℕ) (x : ℕ × ℕ) (xs : Map ℕ)
    → find x.0 xs ≡ none
    → find k (insert_by_priority x xs) ≡ (if k == x.0 then some x.1 else find k xs)
unfolding find insert_by_priority
find-insert_by_priority k x [] fresh = refl
find-insert_by_priority k (i, p) ((j, q) ∷ xs) fresh = elim (Bool-cases (i == j)) [
  | inl e ↦ absurd (no_some (rw e at fresh))
  | inr e ↦
      let rest = find-insert_by_priority k (i, p) xs (rw e at fresh) in
      elim (Bool-cases (leb q p)) [
        | inl le ↦ rw le refl
        | inr gt ↦
            rw (gt, rest)
              (elim (Bool-cases (k == i)) [
                | inl here ↦ rw (here, ==→eq k i here, e) refl
                | inr there ↦ rw there refl
              ])
      ]
]

-- The keys of a map are distinct.
abbrev pub Distinct : Map ℕ → Type 0
Distinct [] = Unit
Distinct (x ∷ xs) = (find x.0 xs ≡ none) × Distinct xs

abbrev keys : Map ℕ → List ℕ
keys [] = []
keys (x ∷ xs) = x.0 ∷ keys xs

find-sort_by_priority :
    (k : ℕ) (xs : Map ℕ) → Distinct xs → find k (sort_by_priority xs) ≡ find k xs
unfolding find sort_by_priority
find-sort_by_priority k [] d = refl
find-sort_by_priority k (x ∷ xs) d =
    rw
      (
        find-insert_by_priority k x (sort_by_priority xs) (find-sort_by_priority x.0 xs d.1 ∙ d.0),
        find-sort_by_priority k xs d.1,
      )
      refl

All-insert_by_priority :
    (P : ℕ × ℕ → Type 0) (x : ℕ × ℕ) (xs : Map ℕ) → P x → All P xs → All P (insert_by_priority x xs)
unfolding insert_by_priority
All-insert_by_priority P x [] px pxs = (px, tt)
All-insert_by_priority P x (y ∷ ys) px pxs = elim (Bool-cases (leb y.1 x.1)) [
  | inl le ↦ rw le (px, pxs)
  | inr gt ↦ rw gt (pxs.0, All-insert_by_priority P x ys px pxs.1)
]

All-sort_by_priority : (P : ℕ × ℕ → Type 0) (xs : Map ℕ) → All P xs → All P (sort_by_priority xs)
unfolding sort_by_priority
All-sort_by_priority P [] pxs = tt
All-sort_by_priority P (x ∷ xs) pxs =
    All-insert_by_priority P x (sort_by_priority xs) pxs.0 (All-sort_by_priority P xs pxs.1)

-- No entry has a lower priority than one behind it.
abbrev pub IsDescending : Map ℕ → Type 0
IsDescending [] = Unit
IsDescending (x ∷ xs) = All (λ y. y.1 ≤ x.1) xs × IsDescending xs

All-le : (p q : ℕ) (xs : Map ℕ) → p ≤ q → All (λ y. y.1 ≤ p) xs → All (λ y. y.1 ≤ q) xs
All-le p q [] le below = tt
All-le p q (x ∷ xs) le below = (omega (arith, below.0), All-le p q xs le below.1)

insert_by_priority-IsDescending :
    (x : ℕ × ℕ) (xs : Map ℕ) → IsDescending xs → IsDescending (insert_by_priority x xs)
unfolding insert_by_priority
insert_by_priority-IsDescending x [] d = (tt, tt)
insert_by_priority-IsDescending x (y ∷ ys) d = elim (Bool-cases (leb y.1 x.1)) [
  | inl le ↦ let low = leb→le y.1 x.1 le in rw le ((low, All-le y.1 x.1 ys low d.0), d)
  | inr gt ↦ rw gt (
    All-insert_by_priority (λ z. z.1 ≤ y.1) x ys (ground (arith, gt)) d.0,
    insert_by_priority-IsDescending x ys d.1,
  )
]

sort_by_priority-IsDescending : (xs : Map ℕ) → IsDescending (sort_by_priority xs)
unfolding sort_by_priority
sort_by_priority-IsDescending [] = tt
sort_by_priority-IsDescending (x ∷ xs) =
    insert_by_priority-IsDescending x (sort_by_priority xs) (sort_by_priority-IsDescending xs)

ready_ids_lem :
    (status : List ℕ) (xs : Map ℕ)
    → All (λ x. x.0 < length status) xs
    → (ids : List ℕ) × (ready_ids status xs ≡ ok ids)
      × ((k : ℕ) → has k ids ≡ (has k (keys xs) && (get_or status k 0 == ready)))
unfolding ready_ids has
ready_ids_lem status [] known = ([], refl, λ k. refl)
ready_ids_lem status (x ∷ xs) known =
    let (ids, done, at) = ready_ids_lem status xs known.1 in
    rw (read-get_or status x.0 0 known.0, done)
      (
        _,
        refl,
        λ k. elim (Bool-cases (get_or status x.0 0 == ready)) [
          | inl r ↦
              rw (r, at k)
                (elim (Bool-cases (k == x.0)) [
                  | inl here ↦ rw (here, ==→eq k x.0 here, r) refl
                  | inr there ↦ rw there refl
                ])
          | inr r ↦
              rw (r, at k)
                (elim (Bool-cases (k == x.0)) [
                  | inl here ↦ rw (here, ==→eq k x.0 here, r) (and_false (has x.0 (keys xs)))
                  | inr there ↦ rw there refl
                ])
        ],
      )

has-keys : (k p : ℕ) (xs : Map ℕ) → find k xs ≡ some p → has k (keys xs) ≡ true
unfolding find has
has-keys k p [] e = cc
has-keys k p ((i, q) ∷ xs) e = elim (Bool-cases (k == i)) [
  | inl here ↦ rw here refl
  | inr there ↦ rw there (has-keys k p xs (rw there at e))
]

-- In a managed state with one priority for each task, order_by_priority succeeds, the state stays
-- managed with its priorities in decreasing order, and of the known tasks exactly the ready ones
-- are given.
pub order_by_priority-Ready :
    (m : TaskManager)
    → IsManaged m
    → Distinct m.task_priority
    → All (λ x. x.0 < m.num_tasks) m.task_priority
    → (ids : List ℕ) × (m' : TaskManager) × (order_by_priority m ≡ ok (ids, m'))
      × IsManaged m'
      × IsDescending m'.task_priority
      × ((k : ℕ) → k < m.num_tasks → has k ids ≡ (get_or m.task_status k 0 == ready))
unfolding order_by_priority
order_by_priority-Ready m v d known =
    let sorted = sort_by_priority m.task_priority in
    let same : (k : ℕ) → find k sorted ≡ find k m.task_priority =
      λ k. find-sort_by_priority k m.task_priority d in
    let (ids, done, at) =
      ready_ids_lem m.task_status sorted
        (rw v.statuses (All-sort_by_priority _ m.task_priority known)) in
    rw done (
      _,
      _,
      refl,
      record {
        statuses = v.statuses;
        rejections = v.rejections;
        priority = λ i lt. same i ∙ v.priority i lt;
        waiting = v.waiting;
        status = v.status;
      },
      sort_by_priority-IsDescending m.task_priority,
      λ k lt. rw (at k, has-keys k _ sorted (same k ∙ v.priority k lt)) refl,
    )
