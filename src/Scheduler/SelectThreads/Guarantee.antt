-- ===== src/Scheduler/SelectThreads/Guarantee.antt =====
-- cluster_manager/task_scheduler/task_scheduler_utils.cpp: `global_guarantee_threads` throws unless the
-- cluster is large enough for every task by itself.
use flexps_paper_version.Common.{
  ℕ, ◌*◌, ◌≤◌, ◌≡◌, ◌↔◌, refl, sym, ap, ◌∙◌, inl, inr, true, false, none, some, List, [], ◌∷◌,
  Result, ok, err, ◌>>=◌, >>=-eq-ok, ok-injective, subst, threads_overflow, arith, ◌==◌, ==→eq,
  ==_refl, leb, leb→le, le→leb, if◌then◌else◌, Bool-cases, All,
}
use flexps_paper_version.Common.Members.{has}
use flexps_paper_version.Common.Maps.{find_or}
use flexps_paper_version.Scheduler.SelectThreads.{
  Hint, Kind, Instance, Cluster, some_process, each_process, hint_fits, hints_fit, task_fits,
  global_guarantee_threads, threads_per_worker, threads_per_cluster, local_threads,
  threads_traverse_cluster, threads_on_worker, other_hint, configurable, basic, other_kind,
}

module _ (c : Cluster) where
  abbrev threads : ℕ → ℕ
  threads pid = find_or 0 pid c.num_local

  -- What a setting asks of the cluster.
  abbrev pub HintFits : Hint → ℕ → Type 0
  HintFits threads_per_worker n = n * c.num_processes ≤ c.num_workers
  HintFits threads_per_cluster n = n ≤ c.num_workers
  HintFits local_threads n = (pid : ℕ) × (has pid c.pids ≡ true) × (n ≤ threads pid)
  HintFits threads_traverse_cluster n = (pid : ℕ) → has pid c.pids ≡ true → n ≤ threads pid
  HintFits (threads_on_worker (some pid)) n = n ≤ threads pid
  HintFits (threads_on_worker none) n = ⊥
  HintFits other_hint n = ⊥

  -- Every setting has a number and fits.
  abbrev pub HintsFit : List Hint → List ℕ → Type 0
  HintsFit [] nums = Unit
  HintsFit (hint ∷ hints) [] = ⊥
  HintsFit (hint ∷ hints) (n ∷ nums) = HintFits hint n × HintsFit hints nums

  abbrev pub TaskFits : Kind → ℕ → Type 0
  TaskFits (configurable nums hints) n = HintsFit hints nums
  TaskFits (basic local) n = n ≤ c.num_workers
  TaskFits other_kind n = n ≤ c.num_workers

  some_process_iff :
      (n : ℕ) (pids : List ℕ)
      → (some_process n c pids ≡ true) ↔ ((pid : ℕ) × (has pid pids ≡ true) × (n ≤ threads pid))
  unfolding some_process has
  some_process_iff n [] = (λ e. cc, λ (pid, h, le). cc)
  some_process_iff n (p ∷ pids) =
      let (found, given) = some_process_iff n pids in
      (
        λ e. elim (Bool-cases (leb n (threads p))) [
          | inl enough ↦ (p, rw (==_refl p) refl, leb→le n (threads p) enough)
          | inr few ↦ let (pid, h, le) = found (rw few at e) in (pid, ground (arith, h), le)
        ],
        λ (pid, h, le). elim (Bool-cases (pid == p)) [
          | inl here ↦
              let most : n ≤ threads p = subst (λ (i : ℕ). n ≤ threads i) (==→eq pid p here) le in
              rw (le→leb n (threads p) most) refl
          | inr there ↦ ground (arith, given (pid, rw there at h, le))
        ],
      )

  each_process_iff :
      (n : ℕ) (pids : List ℕ)
      → (each_process n c pids ≡ true) ↔ ((pid : ℕ) → has pid pids ≡ true → n ≤ threads pid)
  unfolding each_process has
  each_process_iff n [] = (λ e pid h. cc, λ h. refl)
  each_process_iff n (p ∷ pids) =
      let (found, given) = each_process_iff n pids in
      (
        λ e pid h. elim (Bool-cases (pid == p)) [
          | inl here ↦
              let most : n ≤ threads p = ground (arith, e) in
              subst (λ (i : ℕ). n ≤ threads i) (sym (==→eq pid p here)) most
          | inr there ↦
              let rest : each_process n c pids ≡ true = ground (arith, e) in
              found rest pid (rw there at h)
        ],
        λ all.
            rw (le→leb n (threads p) (all p (rw (==_refl p) refl)))
              (given (λ pid h. all pid (ground (arith, h)))),
      )

  hint_fits_iff : (hint : Hint) (n : ℕ) → (hint_fits c hint n ≡ ok true) ↔ HintFits hint n
  unfolding hint_fits
  hint_fits_iff threads_per_worker n =
      (λ e. leb→le _ _ (ok-injective e), λ le. ap (ok) (le→leb _ _ le))
  hint_fits_iff threads_per_cluster n =
      (λ e. leb→le _ _ (ok-injective e), λ le. ap (ok) (le→leb _ _ le))
  hint_fits_iff local_threads n =
      let (found, given) = some_process_iff n c.pids in
      (λ e. found (ok-injective e), λ fits. ap (ok) (given fits))
  hint_fits_iff threads_traverse_cluster n =
      let (found, given) = each_process_iff n c.pids in
      (λ e. found (ok-injective e), λ fits. ap (ok) (given fits))
  hint_fits_iff (threads_on_worker (some pid)) n =
      (λ e. leb→le _ _ (ok-injective e), λ le. ap (ok) (le→leb _ _ le))
  hint_fits_iff (threads_on_worker none) n = (λ e. cc, λ fits. elim fits [ ])
  hint_fits_iff other_hint n = (λ e. cc, λ fits. elim fits [ ])

  hints_fit-cons :
      (hint : Hint) (hints : List Hint) (n : ℕ) (nums : List ℕ)
      → hints_fit c (hint ∷ hints) (n ∷ nums)
        ≡ (hint_fits c hint n >>= λ fits. if fits then hints_fit c hints nums else ok false)
  unfolding hints_fit hint_fits
  hints_fit-cons threads_per_worker hints n nums = refl
  hints_fit-cons threads_per_cluster hints n nums = refl
  hints_fit-cons local_threads hints n nums = refl
  hints_fit-cons threads_traverse_cluster hints n nums = refl
  hints_fit-cons (threads_on_worker (some pid)) hints n nums = refl
  hints_fit-cons (threads_on_worker none) hints n nums = refl
  hints_fit-cons other_hint hints n nums = refl

  hints_fit-nil : (hint : Hint) (hints : List Hint) → hints_fit c (hint ∷ hints) [] ≡ ok true → ⊥
  unfolding hints_fit
  hints_fit-nil threads_per_worker hints e = cc
  hints_fit-nil threads_per_cluster hints e = cc
  hints_fit-nil local_threads hints e = cc
  hints_fit-nil threads_traverse_cluster hints e = cc
  hints_fit-nil (threads_on_worker (some pid)) hints e = cc
  hints_fit-nil (threads_on_worker none) hints e = cc
  hints_fit-nil other_hint hints e = cc

  hints_fit_iff :
      (hints : List Hint) (nums : List ℕ) → (hints_fit c hints nums ≡ ok true) ↔ HintsFit hints nums
  unfolding hints_fit
  hints_fit_iff [] nums = (λ e. tt, λ fits. refl)
  hints_fit_iff (hint ∷ hints) [] =
      (λ e. absurd (hints_fit-nil hint hints e), λ fits. elim fits [ ])
  hints_fit_iff (hint ∷ hints) (n ∷ nums) =
      let (found, given) = hints_fit_iff hints nums in
      let (one_found, one_given) = hint_fits_iff hint n in
      (
        λ e.
            let (fits, one, rest) =
              >>=-eq-ok (hint_fits c hint n)
                (λ fits. if fits then hints_fit c hints nums else ok false)
                (sym (hints_fit-cons hint hints n nums) ∙ e) in
            elim (Bool-cases fits) [
              | inl yes_fits ↦ (one_found (one ∙ ap (ok) yes_fits), found (rw yes_fits at rest))
              | inr no_fits ↦ absurd (false_not-true (rw no_fits at rest))
            ],
        λ fits. hints_fit-cons hint hints n nums ∙ rw (one_given fits.0) (given fits.1),
      )
    where
      false_not-true : ok false ≡ ok true → ⊥
      false_not-true e = cc

  task_fits_iff :
      (task : Instance) → (task_fits c task ≡ ok true) ↔ TaskFits task.kind task.num_workers
  unfolding task_fits
  task_fits_iff task = by_kind task.kind refl
    where
      by_kind :
          (k : Kind)
          → task.kind ≡ k
          → (task_fits c task ≡ ok true) ↔ TaskFits task.kind task.num_workers
      by_kind (configurable nums hints) e = rw (task_fits, e) (hints_fit_iff hints nums)
      by_kind (basic local) e =
          rw (task_fits, e) (λ f. leb→le _ _ (ok-injective f), λ le. ap (ok) (le→leb _ _ le))
      by_kind other_kind e =
          rw (task_fits, e) (λ f. leb→le _ _ (ok-injective f), λ le. ap (ok) (le→leb _ _ le))

  overflow_not-ok : (r : Result (Unit {0})) → r ≡ err threads_overflow → r ≡ ok tt → ⊥
  overflow_not-ok r thrown e = cc

  -- global_guarantee_threads returns exactly when the cluster is large enough for every task, and
  -- for a task with settings when each of them is legal, has its number of threads and fits; else
  -- it throws.
  pub global_guarantee_threads_iff :
      (tasks : List Instance)
      → (global_guarantee_threads c tasks ≡ ok tt)
        ↔ All (λ task. TaskFits task.kind task.num_workers) tasks
  unfolding global_guarantee_threads
  global_guarantee_threads_iff [] = (λ e. tt, λ fits. refl)
  global_guarantee_threads_iff (task ∷ tasks) =
      let (found, given) = global_guarantee_threads_iff tasks in
      let (one_found, one_given) = task_fits_iff task in
      (
        λ e.
            let (fits, one, rest) =
              >>=-eq-ok (task_fits c task)
                (λ fits. if fits then global_guarantee_threads c tasks else err threads_overflow)
                e in
            elim (Bool-cases fits) [
              | inl yes_fits ↦ (one_found (one ∙ ap (ok) yes_fits), found (rw yes_fits at rest))
              | inr no_fits ↦ absurd (overflow_not-ok _ refl (rw no_fits at rest))
            ],
        λ fits. rw (one_given fits.0) (given fits.1),
      )
