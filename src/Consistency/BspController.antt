-- ===== src/Consistency/BspController.antt =====
-- ml/consistency/bsp_consistency_controller.hpp: threads that alternate pulls and pushes, each kind
-- of request by all threads before the other. Every method holds the mutex, so it is one step. A
-- wait is a step that is possible only when its loop ends. The condition variable is left out: `notify_all` wakes the threads
-- whose tests may pass from now on, and that it is called is not shown.
pub mod Phases
use flexps_paper_version.Common.{
  ℕ, zero, suc, ◌+◌, ◌<◌, ◌≡◌, Bool, true, false, List, [], ◌∷◌, ◌==◌, if◌then◌else◌, length,
  get_or, set,
}

pub record BspController : Type 0 where
  pub num_local_workers : ℕ
  pub push_count : ℕ
  pub pull_count : ℕ
  pub reply_phase : Bool

unfoldable pub init : ℕ → BspController
init n = record { num_local_workers = n; push_count = 0; pull_count = 0; reply_phase = true }

-- Whether the loop in `BeforePush` ends.
unfoldable pub may_push : BspController → Bool
may_push c = if c.reply_phase then false else true

unfoldable pub after_push : BspController → BspController
after_push c =
    let count = c.push_count + 1 in
    if count == c.num_local_workers
    then record c { push_count = 0; reply_phase = true }
    else record c { push_count = count }

-- Whether the loop in `BeforePull` ends.
unfoldable pub may_pull : BspController → Bool
may_pull c = c.reply_phase

unfoldable pub after_pull : BspController → BspController
after_pull c =
    let count = c.pull_count + 1 in
    if count == c.num_local_workers
    then record c { pull_count = 0; reply_phase = false }
    else record c { pull_count = count }

-- Where a thread stands: in front of `BeforePull`, between it and `AfterPull`, and likewise of a
-- push.
pub data Stage : Type 0 where
  idle pulling pulled pushing : Stage

pub record System : Type 0 where
  pub controller : BspController
  pub threads : List Stage

abbrev pub at : System → ℕ → Stage
at s i = get_or s.threads i idle

unfoldable pub move : ℕ → Stage → BspController → System → System
move i stage c s = record { controller = c; threads = set s.threads i stage }

-- One method of one thread.
pub data Step (s : System) : System → Type 0 where
  before_pull :
      (i : ℕ)
      → i < length s.threads
      → at s i ≡ idle
      → may_pull s.controller ≡ true
      → Step s (move i pulling s.controller s)
  end_pull :
      (i : ℕ)
      → i < length s.threads
      → at s i ≡ pulling
      → Step s (move i pulled (after_pull s.controller) s)
  before_push :
      (i : ℕ)
      → i < length s.threads
      → at s i ≡ pulled
      → may_push s.controller ≡ true
      → Step s (move i pushing s.controller s)
  end_push :
      (i : ℕ)
      → i < length s.threads
      → at s i ≡ pushing
      → Step s (move i idle (after_push s.controller) s)

unfoldable pub idle_threads : ℕ → List Stage
idle_threads zero = []
idle_threads (suc n) = idle ∷ idle_threads n

unfoldable pub first : ℕ → System
unfolding init idle_threads
first n = record { controller = init n; threads = idle_threads n }

-- What threads that start together can come to.
pub data Reachable (n : ℕ) : System → Type 0 where
  begin : Reachable n (first n)
  next : {s s' : System} → Reachable n s → Step s s' → Reachable n s'
