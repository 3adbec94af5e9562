-- ===== src/Consistency/Examples.antt =====
-- Tests and witnesses for ml/consistency/: two threads.
use flexps_paper_version.Common.{
  ℕ, ◌+◌, ◌≤◌, ◌<◌, ◌≡◌, ◌≢◌, ◌↔◌, refl, arith, true, ok, get_or, add_at,
}
use flexps_paper_version.Consistency.SspController
use flexps_paper_version.Consistency.SspController.{may_pass}
use flexps_paper_version.Consistency.SspController.Clock.{
  IsValid, init-IsValid, may_pass_iff, after_push-IsValid,
}
use flexps_paper_version.Consistency.BspController.{
  init, may_pull, pulling, pushing, at, move, Step, before_pull, idle_threads, first, Reachable,
  begin, next,
}
use flexps_paper_version.Consistency.BspController.Phases.{pull_apart_from_push}

pulls_first : Step (first 2) (move 0 pulling (init 2) (first 2))
unfolding first idle_threads init may_pull
pulls_first = before_pull 0 (omega arith) refl refl

one_pulls : Reachable 2 (move 0 pulling (init 2) (first 2))
one_pulls = next begin pulls_first

thread_0 : at (move 0 pulling (init 2) (first 2)) 0 ≡ pulling
unfolding move first idle_threads
thread_0 = refl

pull_apart_from_push_example : at (move 0 pulling (init 2) (first 2)) 1 ≢ pushing
pull_apart_from_push_example =
    pull_apart_from_push 2 (move 0 pulling (init 2) (first 2)) 0 1 (omega arith) one_pulls thread_0

may_pass_iff_example : (may_pass 0 (SspController.init 2) ≡ true) ↔ (
    (i : ℕ)
    → i < (SspController.init 2).num_local_workers
    → get_or (SspController.init 2).worker_progress 0 0
      ≤ get_or (SspController.init 2).worker_progress i 0 + (SspController.init 2).staleness)
may_pass_iff_example = may_pass_iff 0 (SspController.init 2) (init-IsValid 2 (omega arith))

two_threads : 1 < (SspController.init 2).num_local_workers
unfolding SspController.init
two_threads = omega arith

after_push-IsValid_example :
    (c' : SspController.SspController) × (SspController.after_push 1 (SspController.init 2) ≡ ok c')
    × IsValid c'
    × (c'.worker_progress ≡ add_at 1 (SspController.init 2).worker_progress)
after_push-IsValid_example =
    after_push-IsValid 1 (SspController.init 2) (init-IsValid 2 (omega arith)) two_threads
