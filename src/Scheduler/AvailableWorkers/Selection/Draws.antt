-- ===== src/Scheduler/AvailableWorkers/Selection/Draws.antt =====
-- cluster_manager/task_scheduler/available_workers.cpp: `get_workers` draws threads at random.
use flexps_paper_version.Common.{
  ℕ, zero, suc, ◌+◌, ◌%◌, ◌≤◌, ◌<◌, ◌≡◌, refl, sym, ◌∙◌, inl, inr, true, false, List, [], ◌∷◌,
  arith, ok, read, ltb, leb, leb→le, if◌then◌else◌, Bool-cases, length,
}
use flexps_paper_version.Scheduler.AvailableWorkers.{
  Thread, AvailableWorkers, same, erase_thread, before, insert_selected, draw, get_workers,
  erase_tids,
}
use flexps_paper_version.Scheduler.AvailableWorkers.Counts.{count, count-erase_thread, count-same}
use flexps_paper_version.Scheduler.AvailableWorkers.Validity.{IsValid, Gives, erase_tids-IsValid}
use flexps_paper_version.Scheduler.AvailableWorkers.Selection.{Selects}

length-erase_thread :
    (a : Thread) (bs : List Thread) → length (erase_thread a bs) + count a bs ≡ length bs
unfolding erase_thread count
length-erase_thread a [] = refl
length-erase_thread a (b ∷ bs) = ground (arith, length-erase_thread a bs)

same_refl : (a : Thread) → same a a ≡ true
unfolding same
same_refl a = ground arith

swap-same : (p t : ℕ) (w : Thread) → same (p, t) (w.1, w.0) ≡ same (t, p) w
unfolding same
swap-same p t w = ground arith

-- What is read is there.
read-count :
    (ws : List Thread) (k : ℕ)
    → k < length ws
    → (w : Thread) × (read ws k ≡ ok w) × (1 ≤ count w ws)
unfolding count
read-count [] k lt = absurd (omega arith)
read-count (w ∷ ws) zero lt = (w, refl, rw (same_refl w) (omega arith))
read-count (w ∷ ws) (suc k) lt =
    let (v, e, in_rest) = read-count ws k (omega arith) in (v, e, omega (arith, in_rest))

-- A thread that is not selected yet enters the set, which then has one more.
insert_selected-new :
    (a c : Thread) (bs : List Thread)
    → count a bs ≡ 0
    → (length (insert_selected a bs) ≡ suc (length bs))
      × (count c (insert_selected a bs) ≡ (if same c a then 1 else 0) + count c bs)
unfolding insert_selected count
insert_selected-new a c [] new = (refl, refl)
insert_selected-new a c (b ∷ bs) new =
    let other : same a b ≡ false = ground (arith, new) in
    let (longer, counted) = insert_selected-new a c bs (omega (arith, new)) in
    elim (Bool-cases (before a b)) [
      | inl first ↦ rw (other, first) (refl, refl)
      | inr later ↦ rw (other, later) (omega (arith, longer), omega (arith, counted))
    ]

moved_lem :
    (p t : ℕ) (w : Thread) (ws selected : List Thread)
    → 1 ≤ count w ws
    → count w ws + count (w.1, w.0) selected ≤ 1
    → count (p, t) (insert_selected (w.1, w.0) selected)
      ≡ (if same (p, t) (w.1, w.0) then 1 else 0) + count (p, t) selected
    → count (t, p) (erase_thread w ws) + count (p, t) (insert_selected (w.1, w.0) selected)
      ≡ count (t, p) ws + count (p, t) selected
moved_lem p t w ws selected there once added = elim (Bool-cases (same (t, p) w)) [
  | inl e ↦ ground (
    arith,
    added,
    count-erase_thread (t, p) w ws,
    e,
    swap-same p t w,
    there,
    once,
    count-same (t, p) w ws e,
  )
  | inr e ↦ ground (arith, added, count-erase_thread (t, p) w ws, e, swap-same p t w)
]

module _ (rand : ℕ → ℕ) (n : ℕ) where
  draw_lem :
      (i left : ℕ) (selected ws : List Thread)
      → length ws ≡ left
      → n ≤ length selected + left
      → length selected ≤ n
      → ((p t : ℕ) → count (t, p) ws + count (p, t) selected ≤ 1)
      → (done : List Thread × List Thread) × (draw rand n i left selected ws ≡ ok done)
        × (length done.0 ≡ n)
        × ((p t : ℕ)
            → count (t, p) ws + count (p, t) selected ≡ count (t, p) done.1 + count (p, t) done.0)
  unfolding draw
  draw_lem i zero selected ws size enough most once =
      let full : leb n (length selected) ≡ true = ground (arith, enough) in
      ((selected, ws), rw full refl, omega (arith, enough, most), λ p t. refl)
  draw_lem i (suc left) selected ws size enough most once =
      elim (Bool-cases (leb n (length selected))) [
        | inl full ↦ (
          (selected, ws),
          rw full refl,
          omega (arith, leb→le n (length selected) full, most),
          λ p t. refl,
        )
        | inr partial ↦
            let less : rand i % length ws < length ws = omega (arith, size) in
            let (w, e, there) = read-count ws (rand i % length ws) less in
            let new : count (w.1, w.0) selected ≡ 0 = omega (arith, there, once w.1 w.0) in
            let chosen = insert_selected (w.1, w.0) selected in
            let added = λ (c : Thread). insert_selected-new (w.1, w.0) c selected new in
            let shorter : length (erase_thread w ws) ≡ left =
              omega (arith, length-erase_thread w ws, size, there, once w.1 w.0) in
            let moved : (p t : ℕ)
                → count (t, p) (erase_thread w ws) + count (p, t) chosen
                  ≡ count (t, p) ws + count (p, t) selected =
              λ p t. moved_lem p t w ws selected there (once w.1 w.0) (added (p, t)).1 in
            let (done, e', full, rest) =
              draw_lem (suc i) left chosen (erase_thread w ws) shorter
                (omega (arith, (added w).0, enough)) (ground (arith, (added w).0, partial, most))
                (λ p t. omega (arith, moved p t, once p t)) in
            (done, rw (partial, e) e', full, λ p t. sym (moved p t) ∙ rest p t)
      ]

-- In a valid state, where the set of all free threads and the sets of the processes have the same
-- threads, each once: whatever the random numbers, get_workers ends without an error, gives as
-- many threads as it is asked for or none, exactly these are free no more, and the state stays
-- valid.
pub get_workers-Selects :
    (rand : ℕ → ℕ) (n : ℕ) (s : AvailableWorkers)
    → IsValid s
    → (got : List Thread × AvailableWorkers) × (get_workers rand n s ≡ ok got) × Selects n s got
unfolding get_workers count
get_workers-Selects rand n s valid = elim (Bool-cases (ltb (length s.workers) n)) [
  | inl few ↦ (([], s), rw few refl, (valid, λ p t. omega arith, inr refl))
  | inr enough ↦
      let (done, e, full, moved) =
        draw_lem rand n 0 (length s.workers) [] s.workers refl (ground (arith, enough))
          (omega arith) (λ p t. omega (arith, (valid.agree p t).1)) in
      let gives : Gives s done.0
          (record { workers = done.1; pid_tids = erase_tids done.0 s.pid_tids }) =
        λ p t. omega (arith, moved p t) in
      (
        (done.0, record { workers = done.1; pid_tids = erase_tids done.0 s.pid_tids }),
        rw (enough, e) refl,
        (erase_tids-IsValid done.0 done.1 s valid gives, gives, inl full),
      )
]
