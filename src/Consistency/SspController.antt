-- ===== src/Consistency/SspController.antt =====
-- ml/consistency/ssp_consistency_controller.hpp: threads that may be `staleness` pushes ahead of the
-- slowest. Every method holds the mutex, so it is one step; a wakeup has no effect of its own.
pub mod Clock
use flexps_paper_version.Common.{
  ℕ, suc, ◌+◌, Bool, true, false, ◌&&◌, List, [], Result, ok, ◌>>=◌, read, ltb, leb, ◌==◌,
  if◌then◌else◌, length, get_or, grow, add_at,
}

pub record SspController : Type 0 where
  pub num_local_workers : ℕ
  pub worker_progress : List ℕ
  pub clock_count : List ℕ
  pub staleness : ℕ
  pub min_clock : ℕ

-- `Init` of a new controller.
unfoldable pub init : ℕ → SspController
unfolding grow
init n = record {
  num_local_workers = n;
  worker_progress = grow n 0 [];
  clock_count = [];
  staleness = 1;
  min_clock = 0;
}

-- `wait`, for `BeforePull` and `BeforePush`: a thread that is not known gets a progress.
unfoldable pub enter : ℕ → SspController → SspController
unfolding grow
enter tid c = record c { worker_progress = grow (suc tid) 0 c.worker_progress }

-- Whether the loop in `wait` ends.
unfoldable pub may_pass : ℕ → SspController → Bool
may_pass tid c = leb (get_or c.worker_progress tid 0) (c.min_clock + c.staleness)

-- `AfterPush`. `AfterPull` does nothing. The vector does not grow for `tid == size()`.
unfoldable pub after_push : ℕ → SspController → Result SspController
unfolding grow add_at
after_push tid c =
    let known =
      if ltb (length c.worker_progress) tid
      then grow (suc tid) 0 c.worker_progress
      else c.worker_progress in
    read known tid >>= λ progress.
    let counts = add_at progress (grow (suc progress) 0 c.clock_count) in
    ok (record c {
      worker_progress = add_at tid known;
      clock_count = counts;
      min_clock =
          if progress == c.min_clock && get_or counts c.min_clock 0 == c.num_local_workers
          then c.min_clock + 1
          else c.min_clock;
    })
