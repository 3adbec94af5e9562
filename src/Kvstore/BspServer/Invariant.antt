-- ===== src/Kvstore/BspServer/Invariant.antt =====
-- What every request keeps of the BSP server: kvstore/handles/bsp_server.hpp, all of `Process`.
use flexps_paper_version.Common.{
  ℕ, ◌<◌, ◌≡◌, refl, inl, Bool, true, List, length, arith, eq→==, ne→==_false, le→leb, lt→leb_false,
}
use flexps_paper_version.Common.Members.{IsDistinct}
use flexps_paper_version.Kvstore.Messages.{Handle, Request, init_cmd, consistency_control_off_magic}
use flexps_paper_version.Kvstore.Answers.{IsPush, uncontrolled_total}
use flexps_paper_version.Kvstore.Buffers.{nil-IsBuffer}
use flexps_paper_version.Kvstore.BspServer.Turns.{start-IsTurn, start-IsCounted}
use flexps_paper_version.Kvstore.BspServer.{
  State, entry, reset, init_for_consistency_control, process, new,
}
use flexps_paper_version.Kvstore.BspServer.Validity.{
  initial, repeated, bypass, push, pull, IsPull, IsValid, IsAcceptable, workers_after, Keeps,
}
use flexps_paper_version.Kvstore.BspServer.Reset.{
  keep-IsValid, initiating, count_init-IsValid, reset-IsValid,
}
use flexps_paper_version.Kvstore.BspServer.Pushes.{controlled_push-Keeps}
use flexps_paper_version.Kvstore.BspServer.Pulls.{controlled_pull-Keeps}

module _ (h : Handle) where
  open h use {Bin, Store, Pairs, next_num_workers}

  -- For workers with any distinct ids, as many as the server counts on, and over a store that
  -- serves complete and readable requests with known commands: in a valid state, every acceptable
  -- request is processed by the BSP server without an error, and the state stays valid for the
  -- same workers, or for those of the next instance after the first init message of a round.
  -- Acceptable are an init message for one worker at least, a request that bypasses the
  -- iterations, and a push or pull of one of the workers, who alternate the two, with a known
  -- command and keys that the store can serve.
  pub bsp_process-IsValid :
      (ws : List ℕ) (r : Request Bin) (s : State h) (a : IsAcceptable h ws r s)
      → IsValid h ws s
      → Keeps h (workers_after h ws r s a) (process h r s)
  unfolding process entry workers_after init_for_consistency_control
  bsp_process-IsValid ws r s (initial next is_init idle distinct size positive) v =
      rw (eq→== r.cmd init_cmd is_init, eq→== s.init_count 0 idle)
        (
          _,
          refl,
          count_init-IsValid h next (reset h r s)
              (reset-IsValid h next r s idle distinct size positive),
        )
  bsp_process-IsValid ws r s (repeated is_init busy) v =
      rw (eq→== r.cmd init_cmd is_init, ne→==_false s.init_count 0 busy)
        (_, refl, count_init-IsValid h ws s v)
  bsp_process-IsValid ws r s (bypass large known complete) v =
      let (done, e) = uncontrolled_total h s.is_assign r s.store known complete in
      rw (ne→==_false r.cmd init_cmd (omega arith), le→leb _ _ large, e)
        (_, refl, keep-IsValid h ws s s.init_count done.0 v (initiating h ws s v))
  bsp_process-IsValid ws r s (push is_push known src may) v =
      simp
        (
          ne→==_false r.cmd init_cmd (omega arith),
          lt→leb_false consistency_control_off_magic r.cmd (omega arith),
          is_push,
        )
        (controlled_push-Keeps h ws r s known src may v)
  bsp_process-IsValid ws r s (pull is_pull known src may) v =
      simp
        (
          ne→==_false r.cmd init_cmd (omega arith),
          lt→leb_false consistency_control_off_magic r.cmd (omega arith),
          is_pull,
        )
        (controlled_pull-Keeps h ws r s known src may v)

  -- The constructor makes a valid state where workers pull first.
  pub new-IsValid :
      (ws : List ℕ) (n : ℕ) (b : Bool) (store : Store)
      → IsDistinct ws
      → length ws ≡ n
      → 0 < n
      → IsValid h ws (new h n b true store)
  unfolding new
  new-IsValid ws n b store distinct size some_workers = inl (record {
    phase = refl;
    pushes_counted = start-IsCounted ws distinct;
    pulls_counted = start-IsCounted ws distinct;
    turn = start-IsTurn ws n distinct size some_workers;
    pushes = nil-IsBuffer (IsPush h) 0;
    pulls = nil-IsBuffer (IsPull h) 1;
    initiating = some_workers;
  })
