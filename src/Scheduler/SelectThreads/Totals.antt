-- ===== src/Scheduler/SelectThreads/Totals.antt =====
-- cluster_manager/task_scheduler/task_scheduler_utils.cpp: the whole selection for a task that has no
-- settings and is not local.
use flexps_paper_version.Common.{
  ℕ, ◌+◌, ◌*◌, ◌/◌, ◌≤◌, ◌<◌, ◌≡◌, ◌≢◌, ◌⊎◌, refl, sym, ap, ◌∙◌, inl, inr, Bool, true, false, List,
  [], ◌∷◌, ◌++◌, ok, arith, ◌==◌, ==→eq, ==_refl, ne→==_false, ltb, leb, if◌then◌else◌, Bool-cases,
  length, length-append,
}
use mathlib.Core.List.{append-nil, append_assoc}
use flexps_paper_version.Common.Members.{has, IsDistinct}
use flexps_paper_version.Scheduler.AvailableWorkers.{
  Thread, AvailableWorkers, get_workers_exact_process, get_num_available_local_workers,
}
use flexps_paper_version.Scheduler.AvailableWorkers.Counts.{count, count-append}
use flexps_paper_version.Scheduler.AvailableWorkers.Validity.{IsValid, Gives}
use flexps_paper_version.Scheduler.AvailableWorkers.Selection.{get_workers_exact_process-Selects}
use flexps_paper_version.Scheduler.SelectThreads.{survey, take_each, select_spread}
use flexps_paper_version.Scheduler.SelectThreads.Free.{
  free, exact-free, exact-free_other, look-free, look-IsValid, total, total-same, total_take,
}
use flexps_paper_version.Scheduler.SelectThreads.Spread.{
  look-Gives, look-value, IsUnderway, keep_looping-Ends,
}

-- What `survey` finds out: a bound for every candidate, and the sum of their free threads.
pub record IsSurveyed (least sum : ℕ) (pids : List ℕ) (s : AvailableWorkers)
    (r : ℕ × ℕ × AvailableWorkers) : Type 0 where
  pub small : r.0 ≤ least
  pub bound : (p : ℕ) → has p pids ≡ true → r.0 ≤ free p s
  pub summed : r.1 ≡ sum + total pids s
  pub valid : IsValid r.2
  pub same : (p : ℕ) → free p r.2 ≡ free p s
  pub keeps : (p t : ℕ) → count (t, p) r.2.workers ≡ count (t, p) s.workers

survey-IsSurveyed :
    (least sum : ℕ) (pids : List ℕ) (s : AvailableWorkers)
    → IsValid s
    → IsSurveyed least sum pids s (survey least sum pids s)
unfolding survey has
survey-IsSurveyed least sum [] s valid = record {
  small = omega arith;
  bound = λ p h. cc;
  summed = omega arith;
  valid = valid;
  same = λ p. refl;
  keeps = λ p t. refl;
}
survey-IsSurveyed least sum (pid ∷ pids) s valid =
    let looked = (get_num_available_local_workers pid s).1 in
    let n = (get_num_available_local_workers pid s).0 in
    let next = if ltb n least then n else least in
    let rest = survey-IsSurveyed next (sum + n) pids looked (look-IsValid pid s valid) in
    let r = survey next (sum + n) pids looked in
    let low : (r.0 ≤ least) × (r.0 ≤ n) =
      (ground (arith, rest.small), ground (arith, rest.small)) in
    record {
      small = low.0;
      bound = λ p h. elim (Bool-cases (p == pid)) [
        | inl here ↦
            omega (arith, low.1, look-value pid s, ap (λ (i : ℕ). free i s) (==→eq p pid here))
        | inr there ↦ omega (arith, rest.bound p (rw there at h), look-free pid p s)
      ];
      summed =
          omega (
            arith,
            rest.summed,
            look-value pid s,
            total-same pids s looked (λ p. look-free pid p s),
          );
      valid = rest.valid;
      same = λ p. rest.same p ∙ look-free pid p s;
      keeps = λ p t. rest.keeps p t ∙ look-Gives pid p t s;
    }

clash : {b : Bool} → b ≡ true → b ≡ false → ⊥
clash e f = cc

-- The same number of threads of each candidate.
take_each-IsUnderway :
    (m n num_processes : ℕ) (base : AvailableWorkers) (all : List ℕ) (distinct : IsDistinct all)
    (pids : List ℕ) (selected : List Thread) (s : AvailableWorkers)
    → IsDistinct pids
    → ((p : ℕ) → has p pids ≡ true → has p all ≡ true)
    → ((p : ℕ) → has p pids ≡ true → n ≤ free p s)
    → IsUnderway m num_processes base all distinct selected s
    → IsUnderway m num_processes base all distinct
        (selected ++ (take_each n num_processes pids s).0)
        (take_each n num_processes pids s).1
      × (length (take_each n num_processes pids s).0 ≡ n * length pids)
unfolding take_each has count
take_each-IsUnderway m n num_processes base all distinct [] selected s apart among enough way =
    (rw (append-nil selected) way, omega arith)
take_each-IsUnderway m n num_processes base all distinct (pid ∷ pids) selected s apart among enough
      way =
    let got = get_workers_exact_process n pid num_processes s in
    let (kept, gives, size) = get_workers_exact_process-Selects n pid num_processes s way.valid in
    let some_free = enough pid (rw (==_refl pid) refl) in
    let full = (exact-free n pid num_processes s way.valid some_free).0 in
    let way' : IsUnderway m num_processes base all distinct (selected ++ got.0) got.1 = record {
      valid = kept;
      gives = λ p t. omega (arith, way.gives p t, gives p t, count-append (p, t) selected got.0);
      sum = omega (
        arith,
        way.sum,
        length-append selected got.0,
        full,
        total_take n pid num_processes all s way.valid distinct (among pid (rw (==_refl pid) refl))
            some_free,
      );
    } in
    let (rest, sizes) =
      take_each-IsUnderway m n num_processes base all distinct pids (selected ++ got.0) got.1
        apart.1 (λ p h. among p (ground (arith, h))) (λ p h. others p h) way' in
    (
      rw (← append_assoc selected got.0 (take_each n num_processes pids got.1).0) rest,
      length-append got.0 (take_each n num_processes pids got.1).0 ∙ grind (arith, full, sizes),
    )
  where
    others :
        (p : ℕ) → has p pids ≡ true → n ≤ free p (get_workers_exact_process n pid num_processes s).1
    others p h = elim (Bool-cases (p == pid)) [
      | inl here ↦ absurd (clash (ap (λ (i : ℕ). has i pids) (sym (==→eq p pid here)) ∙ h) apart.0)
      | inr there ↦ omega (
        arith,
        enough p (rw (there, h) refl),
        exact-free_other n pid p num_processes s way.valid there,
      )
    ]

share-le : (l n m k : ℕ) → l ≤ n / m → k ≤ m → m ≢ 0 → l * k ≤ n
share-le l n m k small few some =
    let whole : (n / m) * m ≤ n = grind arith in grind (arith, whole, small, few)

-- As many threads as are asked for where the candidates have so many, and none else.
abbrev pub Spreads : ℕ → List ℕ → AvailableWorkers → List Thread × AvailableWorkers → Type 0
Spreads n pids s (selected, s') =
    IsValid s'
    × Gives s selected s'
    × (((n ≤ total pids s) × (length selected ≡ n)) ⊎ ((total pids s < n) × (selected ≡ [])))

module _ (n num_processes : ℕ) (pids : List ℕ) (base : AvailableWorkers)
    (distinct : IsDistinct pids) where
  -- What the first pass gives.
  abbrev first_pass : ℕ → List Thread × AvailableWorkers
  first_pass l = if ltb 0 l then take_each l num_processes pids base else ([], base)

  first_pass-IsUnderway :
      (l : ℕ)
      → IsValid base
      → ((p : ℕ) → has p pids ≡ true → l ≤ free p base)
      → l * length pids ≤ n
      → IsUnderway n num_processes base pids distinct (first_pass l).0 (first_pass l).1
        × (length (first_pass l).0 ≤ n)
  unfolding count
  first_pass-IsUnderway l valid bound fits =
      let start : IsUnderway n num_processes base pids distinct [] base = record {
        valid = valid;
        gives = λ p t. omega arith;
        sum = omega arith;
      } in
      elim (Bool-cases (ltb 0 l)) [
        | inl some_each ↦
            let (way, size) =
              take_each-IsUnderway n l num_processes base pids distinct pids [] base distinct
                (λ p h. h) bound start in
            rw some_each (way, omega (arith, size, fits))
        | inr none_each ↦ rw none_each (start, omega arith)
      ]

-- In a valid state, with at least one process, for distinct candidates, no more than there are
-- processes, the selection for a task without settings that is not local ends without an error.
-- Where the candidates have as many free threads as are asked for, it gives exactly so many, else
-- none; exactly these are free no more, and the state stays valid.
pub select_spread-Spreads :
    (n num_processes : ℕ) (pids : List ℕ) (s : AvailableWorkers)
    → num_processes ≢ 0
    → length pids ≤ num_processes
    → IsDistinct pids
    → IsValid s
    → (got : List Thread × AvailableWorkers) × (select_spread n num_processes pids s ≡ ok got)
      × Spreads n pids s got
unfolding select_spread count
select_spread-Spreads n num_processes pids s positive few distinct valid =
    let seen : ℕ × ℕ × AvailableWorkers = survey (n / num_processes) 0 pids s in
    let sv = survey-IsSurveyed (n / num_processes) 0 pids s valid in
    let some_processes = ne→==_false num_processes 0 positive in
    let kept : total pids seen.2 ≡ total pids s = total-same pids s seen.2 sv.same in
    elim (Bool-cases (leb n seen.1)) [
      | inr scarce ↦ (
        ([], seen.2),
        rw (some_processes, scarce) refl,
        (
          sv.valid,
          λ p t. omega (arith, sv.keeps p t),
          inr (ground (arith, scarce, sv.summed), refl),
        ),
      )
      | inl plenty ↦
          let enough : n ≤ total pids s = ground (arith, plenty, sv.summed) in
          let (way, most) =
            first_pass-IsUnderway n num_processes pids seen.2 distinct seen.0 sv.valid
              (λ p h. omega (arith, sv.bound p h, sv.same p))
              (share-le seen.0 n num_processes (length pids) sv.small few positive) in
          let each = first_pass n num_processes pids seen.2 distinct seen.0 in
          elim (Bool-cases (length each.0 == n)) [
            | inl full ↦ (
              each,
              rw (some_processes, plenty, full) refl,
              (
                way.valid,
                λ p t. omega (arith, way.gives p t, sv.keeps p t),
                inl (enough, ==→eq _ _ full),
              ),
            )
            | inr short ↦
                let (got, e, size, way') =
                  keep_looping-Ends n num_processes seen.2 pids distinct n each.0 each.1 way
                    (ground (arith, short, most)) (omega arith) (omega (arith, enough, kept)) in
                (
                  got,
                  rw (some_processes, plenty, short) e,
                  (
                    way'.valid,
                    λ p t. omega (arith, way'.gives p t, sv.keeps p t),
                    inl (enough, size),
                  ),
                )
          ]
    ]
