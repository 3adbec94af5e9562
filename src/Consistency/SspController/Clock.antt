-- ===== src/Consistency/SspController/Clock.antt =====
-- ml/consistency/ssp_consistency_controller.hpp: `min_clock_` is the progress of the slowest thread, so
-- that `wait` keeps the staleness bound.
use flexps_paper_version.Common.{
  ℕ, zero, suc, ◌+◌, ◌≤◌, ◌<◌, ◌≡◌, ◌↔◌, refl, ap, inl, inr, Bool, true, false, ◌&&◌, List, [], ◌∷◌,
  ok, read-get_or, arith, ltb, leb→le, le→leb, ◌==◌, eq→==, if◌then◌else◌, Bool-cases, length,
  get_or, grow, add_at, length-add_at, length-grow,
}
use flexps_paper_version.Common.Counting.{
  below, length-below, below-has, has-below_lt, below-IsDistinct,
}
use flexps_paper_version.Kvstore.SspServer.Clocks.{
  IsSynced, fresh-IsSynced, slowest_exists, push-IsSynced, complete-IsSynced, complete_by_slowest,
}
use flexps_paper_version.Consistency.SspController.{SspController, init, may_pass, after_push}

-- The clock and the counts fit the progress of the threads, which have the ids below their number
-- and are all known.
pub record IsValid (c : SspController) : Type 0 where
  pub synced :
      IsSynced
        (below c.num_local_workers)
        c.num_local_workers
        c.min_clock
        c.clock_count
        c.worker_progress
  pub known : c.num_local_workers ≤ length c.worker_progress

-- In a valid state, where the clock and its counts fit the progress of the threads, a wait of a
-- thread ends exactly when the thread is no more than `staleness` pushes ahead of any other.
pub may_pass_iff :
    (tid : ℕ) (c : SspController)
    → IsValid c
    → (may_pass tid c ≡ true) ↔ (
        (i : ℕ)
        → i < c.num_local_workers
        → get_or c.worker_progress tid 0 ≤ get_or c.worker_progress i 0 + c.staleness)
unfolding may_pass
may_pass_iff tid c v = (
  λ e i lt. omega (arith, leb→le _ _ e, v.synced.slowest i (below-has i c.num_local_workers lt)),
  λ near.
      let (i, inside, slow) = slowest_exists v.synced in
      le→leb _ _ (omega (arith, near i (has-below_lt i c.num_local_workers inside), slow)),
)

grow_id : (n : ℕ) (xs : List ℕ) → n ≤ length xs → grow n 0 xs ≡ xs
unfolding grow
grow_id zero xs le = refl
grow_id (suc n) [] le = absurd (omega arith)
grow_id (suc n) (x ∷ xs) le = ap (λ (ys : List ℕ). x ∷ ys) (grow_id n xs (omega arith))

clash : {b : Bool} → b ≡ true → b ≡ false → ⊥
clash e f = cc

module _ (tid : ℕ) (c : SspController) (v : IsValid c) (lt : tid < c.num_local_workers) where
  abbrev progress : ℕ
  progress = get_or c.worker_progress tid 0

  abbrev counts : List ℕ
  counts = add_at progress (grow (suc progress) 0 c.clock_count)

  abbrev completes : Bool
  completes = progress == c.min_clock && get_or counts c.min_clock 0 == c.num_local_workers

  abbrev pushed : SspController
  pushed = record c {
    worker_progress = add_at tid c.worker_progress;
    clock_count = counts;
    min_clock = if completes then c.min_clock + 1 else c.min_clock;
  }

  same : grow (suc tid) 0 c.worker_progress ≡ c.worker_progress
  same = grow_id (suc tid) c.worker_progress (omega (arith, v.known, lt))

  after_push_lem : after_push tid c ≡ ok pushed
  unfolding after_push
  after_push_lem =
      let here : ltb (length c.worker_progress) tid ≡ false = ground (arith, v.known, lt) in
      rw (here, read-get_or c.worker_progress tid 0 (omega (arith, v.known, lt))) refl

  completed : get_or counts c.min_clock 0 ≡ c.num_local_workers → completes ≡ true
  completed full =
      let slow : progress ≡ c.min_clock =
        rw same at (
          complete_by_slowest v.synced tid (below-has tid c.num_local_workers lt) (rw same full)) in
      rw (eq→== progress c.min_clock slow, eq→== _ _ full) refl

  pushed-IsSynced :
      IsSynced
        (below c.num_local_workers)
        c.num_local_workers
        (if completes then c.min_clock + 1 else c.min_clock)
        counts
        (add_at tid c.worker_progress)
  pushed-IsSynced = elim (Bool-cases completes) [
    | inl last ↦
        let full : get_or counts c.min_clock 0 ≡ c.num_local_workers = ground (arith, last) in
        let e : suc c.min_clock ≡ c.min_clock + 1 = omega arith in
        rw (last, ← e)
          (rw same at
            (complete-IsSynced v.synced tid (below-has tid c.num_local_workers lt) (rw same full)))
    | inr open_clock ↦ rw open_clock (
        rw same at (
          push-IsSynced v.synced tid (below-has tid c.num_local_workers lt)
            (λ full. clash (completed (rw same at full)) open_clock)))
  ]

-- In a valid state AfterPush of a thread of the process succeeds, counts one push of that thread,
-- and keeps the state valid.
pub after_push-IsValid :
    (tid : ℕ) (c : SspController)
    → IsValid c
    → tid < c.num_local_workers
    → (c' : SspController) × (after_push tid c ≡ ok c')
      × IsValid c'
      × (c'.worker_progress ≡ add_at tid c.worker_progress)
after_push-IsValid tid c v lt = (
  pushed tid c v lt,
  after_push_lem tid c v lt,
  record {
    synced = pushed-IsSynced tid c v lt;
    known = omega (arith, length-add_at tid c.worker_progress, v.known);
  },
  refl,
)

-- A new controller with at least one thread.
pub init-IsValid : (n : ℕ) → 0 < n → IsValid (init n)
unfolding init
init-IsValid n some_threads = record {
  synced = fresh-IsSynced (below n) n n (below-IsDistinct n) (length-below n) some_threads;
  known = omega (arith, length-grow {A = ℕ} n 0 []);
}
