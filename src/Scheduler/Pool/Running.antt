-- ===== src/Scheduler/Pool/Running.antt =====
-- cluster_manager/task_scheduler/: how often a thread is among the running ones, over starts and ends.
use flexps_paper_version.Common.{
  ℕ, ◌+◌, ◌≤◌, ◌≡◌, refl, ap, ◌∙◌, inl, inr, true, false, none, some, List, [], ◌∷◌, arith, ◌==◌,
  ==→eq, ==_refl, if◌then◌else◌, Bool-cases,
}
use flexps_paper_version.Common.Members.{insert, erase}
use flexps_paper_version.Common.Maps.{
  Map, IsMap, find, find_or, modify, remove, find_or-modify, find_or-remove, modify-IsMap,
}
use flexps_paper_version.Scheduler.AvailableWorkers.{Thread, same}
use flexps_paper_version.Scheduler.AvailableWorkers.Counts.{
  count, count_tid, count_tid-erase, count_tid-insert,
}
use flexps_paper_version.Scheduler.TaskManager.{track, is_empty}

-- A key that is not in a map is not its first.
find-none :
    {V : Type 0} (k i : ℕ) (v : V) (m : Map V)
    → find k ((i, v) ∷ m) ≡ none
    → ((k == i) ≡ false) × (find k m ≡ none)
unfolding find
find-none k i v m e = elim (Bool-cases (k == i)) [
  | inl here ↦ absurd (some_not-none (rw here at e))
  | inr there ↦ (there, rw there at e)
]
  where
    some_not-none : some v ≡ none → ⊥
    some_not-none e = cc

module _ {V : Type 0} (w : V → ℕ) where
  -- A weight of the values of a map.
  unfoldable pub weight : Map V → ℕ
  weight [] = 0
  weight ((i, v) ∷ m) = w v + weight m

  pub weight-modify :
      (d : V) (k : ℕ) (f : V → V) (m : Map V)
      → w d ≡ 0
      → weight (modify d k f m) + w (find_or d k m) ≡ weight m + w (f (find_or d k m))
  unfolding weight modify find_or
  weight-modify d k f [] e = omega (arith, e)
  weight-modify d k f ((i, v) ∷ m) e = elim (Bool-cases (k == i)) [
    | inl here ↦ rw here (omega arith)
    | inr there ↦ rw there (omega (arith, weight-modify d k f m e))
  ]

  remove_absent : (k : ℕ) (m : Map V) → find k m ≡ none → remove k m ≡ m
  unfolding find remove
  remove_absent k [] e = refl
  remove_absent k ((i, v) ∷ m) e =
      let (apart, rest) = find-none k i v m e in
      rw apart (ap (λ (r : Map V). (i, v) ∷ r) (remove_absent k m rest))

  pub weight-remove :
      (d : V) (k : ℕ) (m : Map V)
      → w d ≡ 0
      → IsMap m
      → weight (remove k m) + w (find_or d k m) ≡ weight m
  unfolding weight remove find_or
  weight-remove d k [] e h = omega (arith, e)
  weight-remove d k ((i, v) ∷ m) e h = elim (Bool-cases (k == i)) [
    | inl here ↦
        rw here
          (omega (arith, ap weight (remove_absent k m (ap (λ j. find j m) (==→eq k i here) ∙ h.0))))
    | inr there ↦ rw there (omega (arith, weight-remove d k m e h.1))
  ]

find-remove_other :
    {V : Type 0} (j k : ℕ) (m : Map V) → find j m ≡ none → find j (remove k m) ≡ none
unfolding find remove
find-remove_other j k [] e = refl
find-remove_other j k ((i, v) ∷ m) e =
    let (apart, rest) = find-none j i v m e in
    elim (Bool-cases (k == i)) [
      | inl here ↦ rw here (find-remove_other j k m rest)
      | inr there ↦ rw there (rw apart (find-remove_other j k m rest))
    ]

pub remove-IsMap : {V : Type 0} (k : ℕ) (m : Map V) → IsMap m → IsMap (remove k m)
unfolding remove
remove-IsMap k [] h = h
remove-IsMap k ((i, v) ∷ m) h = elim (Bool-cases (k == i)) [
  | inl here ↦ rw here (remove-IsMap k m h.1)
  | inr there ↦ rw there (find-remove_other i k m h.0, remove-IsMap k m h.1)
]

-- A thread in the sets of one task, and in those of all tasks.
unfoldable pub in_task : (p t : ℕ) → Map (List ℕ) → ℕ
unfolding count_tid
in_task p t m = count_tid t (find_or [] p m)

unfoldable pub running : (p t : ℕ) → Map (Map (List ℕ)) → ℕ
unfolding weight in_task
running p t tracked = weight (in_task p t) tracked

in_task-modify :
    (p t pid : ℕ) (f : List ℕ → List ℕ) (m : Map (List ℕ))
    → in_task p t (modify [] pid f m)
      ≡ (if p == pid then count_tid t (f (find_or [] pid m)) else in_task p t m)
unfolding in_task
in_task-modify p t pid f m =
    ap (count_tid t) (find_or-modify [] p pid f m)
    ∙ elim (Bool-cases (p == pid)) [ inl e ↦ rw e refl | inr e ↦ rw e refl ]

in_task-le :
    (p t id : ℕ) (tracked : Map (Map (List ℕ)))
    → in_task p t (find_or [] id tracked) ≤ running p t tracked
unfolding running weight find_or in_task count_tid
in_task-le p t id [] = omega arith
in_task-le p t id ((i, m) ∷ tracked) = elim (Bool-cases (id == i)) [
  | inl e ↦ rw e (omega arith)
  | inr e ↦ rw e (omega (arith, in_task-le p t id tracked))
]

in_task-insert :
    (p t pid tid : ℕ) (m : Map (List ℕ))
    → in_task p t m + count (p, t) ((pid, tid) ∷ []) ≤ 1
    → in_task p t (modify [] pid (insert tid) m) ≡ in_task p t m + count (p, t) ((pid, tid) ∷ [])
unfolding in_task count same
in_task-insert p t pid tid m once =
    in_task-modify p t pid (insert tid) m ∙ elim (Bool-cases (p == pid)) [
      | inl e ↦ rw e (
          ground (
            arith,
            once,
            count_tid-insert t tid (find_or [] pid m)
                (omega (arith, once, ap (λ (i : ℕ). count_tid t (find_or [] i m)) (==→eq p pid e))),
            ap (λ (i : ℕ). count_tid t (find_or [] i m)) (==→eq p pid e),
          ))
      | inr e ↦ rw e (ground (arith, e))
    ]

nothing : (p t : ℕ) → in_task p t [] ≡ 0
unfolding in_task count_tid find_or
nothing p t = refl

running-insert :
    (p t id pid tid : ℕ) (tracked : Map (Map (List ℕ)))
    → running p t tracked + count (p, t) ((pid, tid) ∷ []) ≤ 1
    → running p t (modify [] id (modify [] pid (insert tid)) tracked)
      ≡ running p t tracked + count (p, t) ((pid, tid) ∷ [])
unfolding running
running-insert p t id pid tid tracked once = omega (
  arith,
  weight-modify (in_task p t) [] id (modify [] pid (insert tid)) tracked (nothing p t),
  in_task-insert p t pid tid (find_or [] id tracked)
      (omega (arith, once, in_task-le p t id tracked)),
)

-- Threads that are started run, once, if they did not before.
pub running-track :
    (p t id : ℕ) (selected : List Thread) (tracked : Map (Map (List ℕ)))
    → running p t tracked + count (p, t) selected ≤ 1
    → running p t (track id selected tracked) ≡ running p t tracked + count (p, t) selected
unfolding track count
running-track p t id [] tracked once = omega arith
running-track p t id ((pid, tid) ∷ selected) tracked once =
    let one = running-insert p t id pid tid tracked (omega (arith, once)) in
    let next : Map (Map (List ℕ)) = modify [] id (modify [] pid (insert tid)) tracked in
    omega (arith, one, running-track p t id selected next (omega (arith, one, once)))

pub track-IsMap :
    (id : ℕ) (selected : List Thread) (tracked : Map (Map (List ℕ)))
    → IsMap tracked
    → IsMap (track id selected tracked)
unfolding track
track-IsMap id [] tracked h = h
track-IsMap id ((pid, tid) ∷ selected) tracked h =
    track-IsMap id selected _ (modify-IsMap [] id (modify [] pid (insert tid)) tracked h)

is_empty-nil : {A : Type 0} (xs : List A) → is_empty xs ≡ true → xs ≡ []
unfolding is_empty
is_empty-nil [] e = refl
is_empty-nil (x ∷ xs) e = cc

-- The end of a thread of a task, in the three stages of the code.
module _ (id pid tid : ℕ) (tracked : Map (Map (List ℕ))) where
  abbrev pub threads : List ℕ
  threads = erase tid (find_or [] pid (find_or [] id tracked))

  abbrev pub left : Map (Map (List ℕ))
  left = modify [] id (modify [] pid (λ _. threads)) tracked

  abbrev pub gone : Map (Map (List ℕ))
  gone = modify [] id (remove pid) left

  same_count : (x y : ℕ) (xs : List ℕ) → (x == y) ≡ true → count_tid x xs ≡ count_tid y xs
  same_count x y xs e = ap (λ (i : ℕ). count_tid i xs) (==→eq x y e)

  pub running-left :
      (p t : ℕ)
      → in_task pid tid (find_or [] id tracked) ≡ 1
      → running p t left + count (p, t) ((pid, tid) ∷ []) ≡ running p t tracked
  unfolding running count same in_task
  running-left p t runs =
      let m = find_or [] id tracked in
      let ends = λ (x : ℕ) (xs : List ℕ). same_count x tid xs in
      let all =
        weight-modify (in_task p t) [] id (modify [] pid (λ _. threads)) tracked (nothing p t) in
      let here = in_task-modify p t pid (λ _. threads) m in
      let fewer = count_tid-erase t tid (find_or [] pid m) in
      elim (Bool-cases (p == pid)) [
        | inl e ↦ ground (
          arith,
          all,
          here,
          fewer,
          e,
          runs,
          ap (λ (i : ℕ). count_tid t (find_or [] i m)) (==→eq p pid e),
          ends t (find_or [] pid m),
        )
        | inr e ↦ ground (arith, all, here, e)
      ]

  pub running-gone : (p t : ℕ) → is_empty threads ≡ true → running p t gone ≡ running p t left
  unfolding running in_task count_tid
  running-gone p t void =
      let m = find_or [] id left in
      let found : m ≡ modify [] pid (λ _. threads) (find_or [] id tracked) =
        find_or-modify [] id id (modify [] pid (λ _. threads)) tracked ∙ rw (==_refl id) refl in
      let all = weight-modify (in_task p t) [] id (remove pid) left (nothing p t) in
      let gone_from = ap (count_tid t) (find_or-remove [] p pid m) in
      let here = in_task-modify p t pid (λ _. threads) (find_or [] id tracked) in
      let none_left : count_tid t threads ≡ 0 = ap (count_tid t) (is_empty-nil threads void) in
      elim (Bool-cases (p == pid)) [
        | inl e ↦ ground (arith, all, gone_from, here, none_left, e, ap (in_task p t) found)
        | inr e ↦ ground (arith, all, gone_from, e)
      ]

  pub left-IsMap : IsMap tracked → IsMap left
  left-IsMap h = modify-IsMap [] id (modify [] pid (λ _. threads)) tracked h

  pub gone-IsMap : IsMap tracked → IsMap gone
  gone-IsMap h = modify-IsMap [] id (remove pid) left (left-IsMap h)

  pub running-remove :
      (p t : ℕ)
      → IsMap tracked
      → is_empty (find_or [] id gone) ≡ true
      → running p t (remove id gone) ≡ running p t gone
  unfolding running in_task
  running-remove p t h void = omega (
    arith,
    weight-remove (in_task p t) [] id gone (nothing p t) (gone-IsMap h),
    ap (in_task p t) (is_empty-nil (find_or [] id gone) void),
    nothing p t,
  )
