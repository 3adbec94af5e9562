-- ===== src/Scheduler/SelectThreads/Spread.antt =====
-- cluster_manager/task_scheduler/task_scheduler_utils.cpp: the selection over all candidates ends, with
-- as many threads as it is asked for or none.
use flexps_paper_version.Common.{
  ℕ, zero, suc, ◌+◌, ◌≤◌, ◌<◌, ◌≡◌, ◌⊎◌, refl, ap, inl, inr, Bool, true, false, List, [], ◌∷◌, ◌++◌,
  ok, arith, ◌==◌, ==→eq, ==_refl, ltb, Bool-cases, length, length-append,
}
use flexps_paper_version.Common.Members.{has, IsDistinct}
use flexps_paper_version.Scheduler.AvailableWorkers.{
  Thread, AvailableWorkers, get_workers_exact_process, get_num_available_local_workers,
}
use flexps_paper_version.Scheduler.AvailableWorkers.Counts.{count, count-append}
use flexps_paper_version.Scheduler.AvailableWorkers.Validity.{IsValid, Gives}
use flexps_paper_version.Scheduler.AvailableWorkers.Selection.{get_workers_exact_process-Selects}
use flexps_paper_version.Scheduler.SelectThreads.{one_round, keep_looping}
use flexps_paper_version.Scheduler.SelectThreads.Free.{
  free, exact-free, look-free, look-IsValid, total, total-same, total_take,
}

pub look-Gives :
    (pid p t : ℕ) (s : AvailableWorkers)
    → count (t, p) (get_num_available_local_workers pid s).1.workers ≡ count (t, p) s.workers
unfolding get_num_available_local_workers
look-Gives pid p t s = refl

pub look-value :
    (pid : ℕ) (s : AvailableWorkers) → (get_num_available_local_workers pid s).0 ≡ free pid s
unfolding get_num_available_local_workers
look-value pid s = refl

one-thread : (ws : List Thread) → length ws ≡ 1 → (w : Thread) × (ws ≡ w ∷ [])
one-thread [] e = absurd (omega arith)
one-thread (w ∷ []) e = (w, refl)
one-thread (w ∷ v ∷ ws) e = absurd (omega arith)

module _ (n num_processes : ℕ) (base : AvailableWorkers) (all : List ℕ)
    (distinct : IsDistinct all) where
  -- A selection is on its way from `base`.
  pub record IsUnderway (selected : List Thread) (s : AvailableWorkers) : Type 0 where
    pub valid : IsValid s
    pub gives : Gives base selected s
    pub sum : length selected + total all s ≡ total all base

  -- A round ends with a full selection, or with a longer one unless no candidate has a free thread.
  abbrev RoundEnds :
      List ℕ → List Thread → AvailableWorkers → Bool × List Thread × AvailableWorkers → Type 0
  RoundEnds pids selected s (full, selected', s') =
      IsUnderway selected' s'
      × (length selected ≤ length selected')
      × (((full ≡ true) × (length selected' ≡ n))
          ⊎ ((full ≡ false)
              × (length selected' < n)
              × ((total pids s ≡ 0) ⊎ (length selected < length selected'))))

  take_one :
      (selected : List Thread) (pid : ℕ) (s : AvailableWorkers)
      → IsUnderway selected s
      → has pid all ≡ true
      → 1 ≤ free pid s
      → (w : Thread) × ((get_workers_exact_process 1 pid num_processes s).0 ≡ w ∷ [])
        × IsUnderway (selected ++ w ∷ []) (get_workers_exact_process 1 pid num_processes s).1
  unfolding count
  take_one selected pid s way there some_free =
      let got = get_workers_exact_process 1 pid num_processes s in
      let (kept, gives, size) = get_workers_exact_process-Selects 1 pid num_processes s way.valid in
      let (w, e) = one-thread got.0 (exact-free 1 pid num_processes s way.valid some_free).0 in
      (
        w,
        e,
        record {
          valid = kept;
          gives = λ p t. omega (
            arith,
            way.gives p t,
            gives p t,
            ap (count (p, t)) e,
            count-append (p, t) selected (w ∷ []),
          );
          sum = omega (
            arith,
            way.sum,
            length-append selected (w ∷ []),
            total_take 1 pid num_processes all s way.valid distinct there some_free,
          );
        },
      )

  look-IsUnderway :
      (selected : List Thread) (pid : ℕ) (s : AvailableWorkers)
      → IsUnderway selected s
      → IsUnderway selected (get_num_available_local_workers pid s).1
  look-IsUnderway selected pid s way = record {
    valid = look-IsValid pid s way.valid;
    gives = λ p t. omega (arith, way.gives p t, look-Gives pid p t s);
    sum = omega (
      arith,
      way.sum,
      total-same all s (get_num_available_local_workers pid s).1 (λ p. look-free pid p s),
    );
  }

  one_round-Ends :
      (pids : List ℕ) (selected : List Thread) (s : AvailableWorkers)
      → ((p : ℕ) → has p pids ≡ true → has p all ≡ true)
      → IsUnderway selected s
      → length selected < n
      → (r : Bool × List Thread × AvailableWorkers) × (one_round n num_processes selected pids s
          ≡ ok r)
        × RoundEnds pids selected s r
  unfolding one_round has
  one_round-Ends [] selected s among way less =
      ((false, selected, s), refl, (way, omega arith, inr (refl, less, inl refl)))
  one_round-Ends (pid ∷ pids) selected s among way less =
      let looked = (get_num_available_local_workers pid s).1 in
      let way' = look-IsUnderway selected pid s way in
      let same = look-free pid pid s in
      elim (Bool-cases (ltb 0 (get_num_available_local_workers pid s).0)) [
        | inl some_free ↦
            let (w, e, taken) =
              take_one selected pid looked way' (among pid (rw (==_refl pid) refl))
                (ground (arith, some_free, look-value pid s, same)) in
            let longer = length-append selected (w ∷ []) in
            elim (Bool-cases (length (selected ++ w ∷ []) == n)) [
              | inl full ↦ (
                (
                  true,
                  selected ++ w ∷ [],
                  (get_workers_exact_process 1 pid num_processes looked).1,
                ),
                rw (some_free, e, full) refl,
                (taken, omega (arith, longer), inl (refl, ==→eq _ _ full)),
              )
              | inr short ↦
                  let (r, e', (way'', more, ends)) =
                    one_round-Ends pids (selected ++ w ∷ [])
                      (get_workers_exact_process 1 pid num_processes looked).1
                      (λ p h. among p (ground (arith, h))) taken
                      (ground (arith, short, longer, less)) in
                  (
                    r,
                    rw (some_free, e, short) e',
                    (
                      way'',
                      omega (arith, longer, more),
                      elim ends [
                        | inl done ↦ inl done
                        | inr (going, below, rest) ↦
                            inr (going, below, inr (omega (arith, longer, more)))
                      ],
                    ),
                  )
            ]
        | inr nobody ↦
            let (r, e, (way'', more, ends)) =
              one_round-Ends pids selected looked (λ p h. among p (ground (arith, h))) way' less in
            (
              r,
              rw nobody e,
              (
                way'',
                more,
                elim ends [
                  | inl done ↦ inl done
                  | inr (going, below, rest) ↦ inr (
                    going,
                    below,
                    elim rest [
                      | inl void ↦ inl (
                          ground (
                            arith,
                            void,
                            nobody,
                            look-value pid s,
                            total-same pids s looked (λ p. look-free pid p s),
                          ))
                      | inr grown ↦ inr grown
                    ],
                  )
                ],
              ),
            )
      ]

  pub keep_looping-Ends :
      (fuel : ℕ) (selected : List Thread) (s : AvailableWorkers)
      → IsUnderway selected s
      → length selected < n
      → n ≤ length selected + fuel
      → n ≤ total all base
      → (got : List Thread × AvailableWorkers) × (keep_looping fuel n num_processes selected all s
          ≡ ok got)
        × (length got.0 ≡ n)
        × IsUnderway got.0 got.1
  unfolding keep_looping
  keep_looping-Ends zero selected s way less enough free_enough = absurd (omega arith)
  keep_looping-Ends (suc fuel) selected s way less enough free_enough =
      let (r, e, (way', more, ends)) = one_round-Ends all selected s (λ p h. h) way less in
      elim ends [
        | inl (full, size) ↦ ((r.1, r.2), rw e (rw full refl), size, way')
        | inr (going, below, rest) ↦
            let grown : length selected < length r.1 = elim rest [
              | inl void ↦ absurd (omega (arith, void, way.sum))
              | inr longer ↦ longer
            ] in
            let (got, e', size, way'') =
              keep_looping-Ends fuel r.1 r.2 way' below (omega (arith, grown, enough))
                free_enough in
            (got, rw e (rw going e'), size, way'')
      ]
