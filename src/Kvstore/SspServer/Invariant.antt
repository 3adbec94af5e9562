-- ===== src/Kvstore/SspServer/Invariant.antt =====
-- What every request keeps of the SSP server: kvstore/handles/ssp_server.hpp, all of `Process`.
use flexps_paper_version.Common.{
  ℕ, suc, ◌+◌, ◌≤◌, ◌<◌, ◌≡◌, refl, false, List, ok, arith, grow, length, ◌==◌, eq→==,
  if◌then◌else◌, ne→==_false, le→leb, lt→leb_false,
}
use flexps_paper_version.Common.Members.{IsDistinct}
use flexps_paper_version.Kvstore.Messages.{Handle, Request, init_cmd, consistency_control_off_magic}
use flexps_paper_version.Kvstore.Answers.{IsPush, uncontrolled_total}
use flexps_paper_version.Kvstore.Buffers.{nil-IsBuffer}
use flexps_paper_version.Kvstore.SspServer.Clocks.{fresh-IsSynced, grow-IsSynced}
use flexps_paper_version.Kvstore.SspServer.{
  State, reset, init_for_consistency_control, process, start, new,
}
use flexps_paper_version.Kvstore.SspServer.Validity.{
  plain_cmd_ne, plain_cmd_lt, initial, repeated, bypass, push, pull, IsPull, IsValid, IsAcceptable,
  workers_after, Keeps,
}
use flexps_paper_version.Kvstore.SspServer.Branches.{controlled_push-Keeps, controlled_pull-Keeps}

module _ (h : Handle) where
  open h use {Bin, Store, Pairs}

  reset-IsValid :
      (next : List ℕ) (r : Request Bin) (s : State h)
      → s.init_count ≡ 0
      → IsDistinct next
      → length next ≡ (reset h r s).num_workers
      → 0 < length next
      → IsValid h next (reset h r s)
  unfolding grow reset
  reset-IsValid next r s idle distinct size some_workers = record {
    synced = fresh-IsSynced next _ 0 distinct size (omega (arith, size));
    pushes = nil-IsBuffer (IsPush h) 1;
    pulls = nil-IsBuffer (IsPull h) 1;
    initiating = omega (arith, size);
  }

  count_init-IsValid :
      (ws : List ℕ) (s : State h)
      → IsValid h ws s
      → IsValid h ws (record s {
        init_count = if s.init_count + 1 == s.num_workers then 0 else s.init_count + 1;
      })
  count_init-IsValid ws s v = record {
    synced = v.synced;
    pushes = v.pushes;
    pulls = v.pulls;
    initiating = ground (arith, v.initiating);
  }

  -- For workers with any distinct ids, as many as the server counts on, and over a store that
  -- serves complete and readable requests with known commands: in a valid state, every acceptable
  -- request is processed by the SSP server without an error, and the state stays valid for the
  -- same workers, or for those of the next instance after the first init message of a round.
  -- Acceptable are an init message for one worker at least, a request that bypasses the clocks,
  -- and a push or pull of one of the workers, with a known command and keys that the store can
  -- serve.
  pub ssp_process-IsValid :
      (ws : List ℕ) (r : Request Bin) (s : State h) (a : IsAcceptable h ws r s)
      → IsValid h ws s
      → Keeps h (workers_after h ws r s a) (process h r s)
  unfolding process workers_after init_for_consistency_control
  ssp_process-IsValid ws r s (initial next is_init idle distinct size positive) v =
      rw (eq→== r.cmd init_cmd is_init, eq→== s.init_count 0 idle)
        (
          _,
          refl,
          count_init-IsValid next (reset h r s)
              (reset-IsValid next r s idle distinct size positive),
        )
  ssp_process-IsValid ws r s (repeated is_init busy) v =
      rw (eq→== r.cmd init_cmd is_init, ne→==_false s.init_count 0 busy)
        (_, refl, count_init-IsValid ws s v)
  ssp_process-IsValid ws r s (bypass large known complete) v =
      let (done, e) = uncontrolled_total h false r s.store known complete in
      rw (ne→==_false r.cmd init_cmd (omega arith), le→leb _ _ large, e)
        (
          _,
          refl,
          record {
            synced = v.synced;
            pushes = v.pushes;
            pulls = v.pulls;
            initiating = v.initiating;
          },
        )
  ssp_process-IsValid ws r s (push is_push known src) v =
      simp
        (
          ne→==_false r.cmd init_cmd (omega arith),
          lt→leb_false consistency_control_off_magic r.cmd (omega arith),
          is_push,
        )
        (controlled_push-Keeps h ws r s known src v)
  ssp_process-IsValid ws r s (pull is_pull known src) v =
      simp
        (
          ne→==_false r.cmd init_cmd (plain_cmd_ne r.cmd known.0),
          lt→leb_false consistency_control_off_magic r.cmd (plain_cmd_lt r.cmd known.0),
          is_pull,
        )
        (controlled_pull-Keeps h ws r _ known (record {
          synced = grow-IsSynced (suc r.src) v.synced;
          pushes = v.pushes;
          pulls = v.pulls;
          initiating = v.initiating;
        }))

  -- The constructor accepts a staleness up to 10, and makes a valid state.
  pub new-IsValid :
      (ws : List ℕ) (n staleness : ℕ) (store : Store)
      → IsDistinct ws
      → length ws ≡ n
      → 0 < n
      → staleness ≤ 10
      → (new h n staleness store ≡ ok (start h n staleness store))
        × IsValid h ws (start h n staleness store)
  unfolding new
  new-IsValid ws n staleness store distinct size some_workers bounded = (
    rw (le→leb staleness 10 bounded),
    record {
      synced = fresh-IsSynced ws n n distinct size some_workers;
      pushes = nil-IsBuffer (IsPush h) 1;
      pulls = nil-IsBuffer (IsPull h) 1;
      initiating = some_workers;
    },
  )
