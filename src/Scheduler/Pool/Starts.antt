-- ===== src/Scheduler/Pool/Starts.antt =====
-- cluster_manager/task_scheduler/: the start of an instance keeps every thread free or running.
use flexps_paper_version.Common.{
  ℕ, ◌≤◌, ◌<◌, ◌≡◌, ◌≢◌, refl, sym, subst, ◌∙◌, inl, inr, Option, none, some, List, [], ◌∷◌, All,
  ok, arith, ◌==◌, ne→==_false, Bool-cases, length,
}
use flexps_paper_version.Scheduler.HistoryManager.{
  HistoryManager, get_task_history, get_preferred_proc,
}
use flexps_paper_version.Scheduler.AvailableWorkers.{Thread, AvailableWorkers}
use flexps_paper_version.Scheduler.AvailableWorkers.Validity.{IsValid, Gives}
use flexps_paper_version.Scheduler.SelectThreads.{
  Instance, Kind, configurable, basic, other_kind, instance_basic_setup,
}
use flexps_paper_version.Common.Members.{IsDistinct}
use flexps_paper_version.Scheduler.TaskManager.{track}
use flexps_paper_version.Scheduler.Pool.{
  QueuedTask, Pool, Started, start_instance, start_selected, add_threads,
}
use flexps_paper_version.Scheduler.Pool.Choices.{
  FitsHistory, looked-FitsHistory, update_history-FitsHistory, IsLegal, select-Chosen,
}
use flexps_paper_version.Scheduler.Pool.Conservation.{IsConserved, start_selected-IsConserved}

-- A task is set up without a change of its kind.
pub setup_kind :
    (x : Instance) (kind : Kind)
    → x.kind ≡ kind
    → ((instance_basic_setup x).kind ≡ kind) × ((instance_basic_setup x).id ≡ x.id)
unfolding instance_basic_setup
setup_kind x (configurable nums hints) e = rw (instance_basic_setup, e) (e, refl)
setup_kind x (basic local) e = elim (Bool-cases (x.num_workers == 0)) [
  | inl none_set ↦ rw (instance_basic_setup, e) (rw none_set (e, refl))
  | inr some_set ↦ rw (instance_basic_setup, e) (rw some_set (e, refl))
]
setup_kind x other_kind e = rw (instance_basic_setup, e) (e, refl)

-- Every task of a list is legal.
abbrev pub AllLegal : List QueuedTask → Type 0
AllLegal tasks = All (λ (task : QueuedTask). IsLegal task.instance.kind) tasks

-- A cluster of `n` processes, at least one, that has each thread once.
pub record IsCluster (whole : ℕ → ℕ → ℕ) (n : ℕ) : Type 0 where
  pub positive : n ≢ 0
  pub once : (p t : ℕ) → whole p t ≤ 1
  pub inside : (p t : ℕ) → 1 ≤ whole p t → p < n

module _ {Remembered : Type 0} (whole : ℕ → ℕ → ℕ) (n : ℕ) where
  pub record IsSound (pool : Pool Remembered) : Type 0 where
    pub conserved : IsConserved whole pool
    pub fits : FitsHistory n pool.history

  -- The processes that are preferred are looked up in the history.
  pub preferred-IsSound :
      (id : ℕ) (pool : Pool Remembered)
      → IsSound pool
      → IsSound (record pool { history = (get_preferred_proc id pool.history).1 })
  unfolding get_preferred_proc
  preferred-IsSound id pool s = record {
    conserved = record {
      valid = s.conserved.valid;
      keys = s.conserved.keys;
      kept = s.conserved.kept;
    };
    fits = looked-FitsHistory n id pool.history s.fits;
  }

  select_start-IsSound :
      (instance : Instance) (selected : List Thread) (pool : Pool Remembered)
      (available : AvailableWorkers) (h : HistoryManager Remembered)
      → IsCluster whole n
      → IsConserved whole pool
      → FitsHistory n h
      → IsValid available
      → Gives pool.available selected available
      → (r : Option Started × Pool Remembered) × (start_selected instance selected
            (record pool { available = available; history = h })
          ≡ ok r)
        × IsSound r.1
  unfolding start_selected track
  select_start-IsSound instance [] pool available h cluster c fits valid gives = (
    (none, record pool { available = available; history = h }),
    refl,
    record {
      conserved =
          start_selected-IsConserved whole instance.id [] pool available h cluster.once c valid
            gives;
      fits = fits;
    },
  )
  select_start-IsSound instance (w ∷ selected) pool available h cluster c fits valid gives =
      let (h', done, fits') =
        update_history-FitsHistory n instance.id (w ∷ selected) h fits
          (λ p t le. cluster.inside p t (omega (arith, gives p t, c.kept p t, le))) in
      (
        (
          some (record { instance = instance; cluster = add_threads 0 (w ∷ selected) [] }),
          record pool {
            available = available;
            tracked = track instance.id (w ∷ selected) pool.tracked;
            history = h';
          },
        ),
        rw done refl,
        record {
          conserved =
              start_selected-IsConserved whole instance.id (w ∷ selected) pool available h'
                cluster.once c valid gives;
          fits = fits';
        },
      )

  pub start_instance-IsSound :
      (rand : ℕ → ℕ) (pids : List ℕ) (instance : Instance) (kind : Kind) (pool : Pool Remembered)
      → instance.kind ≡ kind
      → IsLegal kind
      → IsCluster whole n
      → IsSound pool
      → length pids ≤ n
      → IsDistinct pids
      → (r : Option Started × Pool Remembered) × (start_instance rand n pids instance pool ≡ ok r)
        × IsSound r.1
  unfolding start_instance
  start_instance-IsSound rand pids instance kind pool e legal cluster s few distinct =
      let known =
        ne→==_false (length (get_task_history instance.id pool.history).0) 0
          (λ void. cluster.positive (sym (s.fits instance.id) ∙ void)) in
      let (got, h', done, valid, gives, looked) =
        select-Chosen rand n instance.id pool.history pool.available instance.num_workers pids
          instance kind refl e s.conserved.valid legal cluster.positive few distinct known in
      let fits : FitsHistory n h' = elim looked [
        | inl same ↦ subst (λ x. FitsHistory n x) (sym same) s.fits
        | inr same ↦
            subst (λ x. FitsHistory n x) (sym same)
              (looked-FitsHistory n instance.id pool.history s.fits)
      ] in
      let (r, started, sound) =
        select_start-IsSound instance got.0 pool got.1 h' cluster s.conserved fits valid gives in
      (r, rw done started, sound)
