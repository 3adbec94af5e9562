-- ===== src/Kvstore/BspServer/Pulls.antt =====
-- What the pull branch of `Process` keeps: kvstore/handles/bsp_server.hpp.
use flexps_paper_version.Common.{
  ℕ, suc, ◌+◌, ◌-◌, ◌<◌, ◌≡◌, ◌∙◌, sym, subst, refl, inl, inr, true, List, none, [], arith, get_or,
  grow, read-get_or, Bool-cases, ◌==◌, ==→eq,
}
use flexps_paper_version.Common.Members.{has}
use flexps_paper_version.Kvstore.Messages.{Handle, Request}
use flexps_paper_version.Kvstore.Answers.{IsPush, answer_pull_total}
use flexps_paper_version.Kvstore.Buffers.{IsBuffer, push_at-IsBuffer, clear_existing-IsBuffer}
use flexps_paper_version.Kvstore.BspServer.Turns.{
  IsCounted, IsTurn, at_lem, count_in_range, count-IsCounted, active-IsTurn, complete_at,
  complete-IsTurn, passive-IsTurn,
}
use flexps_paper_version.Kvstore.BspServer.{State, entry, finish_pulls, count_pull, controlled_pull}
use flexps_paper_version.Kvstore.BspServer.Validity.{
  lead, wait_unless, later_unless, go_unless, back, IsPull, IsReplying, IsCollecting, IsValid,
  Keeps, release_pushes_total, lead_small,
}

module _ (h : Handle) where
  open h use {Bin, Store, Pairs, next_num_workers}

  -- Once all pulls of the iteration are in, the buffered pushes are applied.
  finish_pulls-Keeps :
      (ws : List ℕ) (kv_id : ℕ) (s : State h)
      → IsCounted ws s.push_count s.push_progress
      → IsCounted ws s.pull_count s.pull_progress
      → IsTurn ws s.num_workers
          (lead s)
          s.push_iter
          (suc s.pull_iter)
          s.push_progress
          s.pull_progress
      → IsBuffer (IsPush h) s.push_iter s.blocked_pushes
      → IsBuffer (IsPull h) (suc s.pull_iter) s.blocked_pulls
      → s.init_count < s.num_workers
      → Keeps h ws (finish_pulls h kv_id s)
  unfolding finish_pulls
  finish_pulls-Keeps ws kv_id s pushes_counted pulls_counted turn pushes pulls initiating =
      let (released, done) =
        release_pushes_total h kv_id s.is_assign (get_or s.blocked_pushes s.push_iter []) s.store
          (pushes.fit s.push_iter) in
      rw done (
        _,
        refl,
        inr (record {
          phase = refl;
          pushes_counted = pushes_counted;
          pulls_counted = pulls_counted;
          turn = turn;
          pushes = clear_existing-IsBuffer (IsPush h) s.push_iter s.blocked_pushes pushes;
          pulls = pulls;
          initiating = initiating;
        }),
      )

  -- A pull that comes while pushes are taken is buffered.
  pull_collecting :
      (ws : List ℕ) (r : Request Bin) (s : State h)
      → (r.cmd < 4) × h.IsReadable r.bin
      → has r.src ws ≡ true
      → get_or s.pull_progress r.src 0 + 1 ≡ get_or s.push_progress r.src 0 + lead s
      → IsCollecting h ws s
      → Keeps h ws (controlled_pull h r s)
  unfolding controlled_pull count_pull entry
  pull_collecting ws r s known src may v =
      let n = s.num_workers in
      let xs = s.pull_progress in
      let at = at_lem ws n s.pull_count xs r.src src in
      rw (wait_unless (s.pull_iter == get_or (grow (suc r.src) 0 xs) r.src 0) v.phase) (
        _,
        refl,
        inr (record {
          phase = v.phase;
          pushes_counted = v.pushes_counted;
          pulls_counted = count-IsCounted ws n s.pull_count xs r.src src v.pulls_counted;
          turn = passive-IsTurn ws n s.pull_count xs r.src src v.turn may;
          pushes = v.pushes;
          pulls =
              push_at-IsBuffer (IsPull h) s.pull_iter _ (entry h r) s.blocked_pulls
                (omega (arith, at, v.turn.passive r.src src)) known v.pulls;
          initiating = v.initiating;
        }),
      )

  -- A pull that comes while pulls are answered is answered if it is for this iteration.
  pull_replying :
      (ws : List ℕ) (r : Request Bin) (s : State h)
      → (r.cmd < 4) × h.IsReadable r.bin
      → has r.src ws ≡ true
      → get_or s.pull_progress r.src 0 + 1 ≡ get_or s.push_progress r.src 0 + lead s
      → IsReplying h ws s
      → Keeps h ws (controlled_pull h r s)
  unfolding controlled_pull count_pull entry
  pull_replying ws r s known src may v =
      let n = s.num_workers in
      let xs = s.pull_progress in
      let at = at_lem ws n s.pull_count xs r.src src in
      let counted = count-IsCounted ws n s.pull_count xs r.src src v.pulls_counted in
      let counts = (count_pull h r.src s).pull_count in
      let may' : get_or xs r.src 0 + (1 - lead s) ≡ get_or s.push_progress r.src 0 =
        omega (arith, may, lead_small h s) in
      elim (Bool-cases (s.pull_iter == get_or (grow (suc r.src) 0 xs) r.src 0)) [
        | inr later ↦ rw (later_unless v.phase later) (
          _,
          refl,
          inl (record {
            phase = v.phase;
            pushes_counted = v.pushes_counted;
            pulls_counted = counted;
            turn =
                active-IsTurn ws n s.pull_count xs r.src src v.turn may' λ full.
                  ground (arith, at, complete_at ws n s.pull_count xs r.src src v.turn full);
            pushes = v.pushes;
            pulls =
                push_at-IsBuffer (IsPull h) (suc s.pull_iter) _ (entry h r) s.blocked_pulls
                  (ground (arith, at, v.turn.active r.src src)) known v.pulls;
            initiating = v.initiating;
          }),
        )
        | inl now ↦
            let (answered, done) =
              answer_pull_total h r.kv_id r.cmd none (entry h r) s.store known in
            let inside =
              read-get_or counts s.pull_iter 0
                (ground (arith, count_in_range ws n s.pull_count xs r.src src)) in
            let count = counted.counted s.pull_iter in
            elim (Bool-cases (get_or counts s.pull_iter 0 == n)) [
              | inl full ↦
                  let (o, moved, valid) =
                    finish_pulls-Keeps ws r.kv_id (count_pull h r.src s) v.pushes_counted counted
                      (subst
                        (λ e.
                          IsTurn ws n e s.push_iter (suc s.pull_iter) s.push_progress
                            (count_pull h r.src s).pull_progress)
                        (back (lead_small h s))
                        (complete-IsTurn ws n s.pull_count xs r.src src v.turn may'
                          (sym count ∙ ==→eq _ _ full)))
                      v.pushes v.pulls v.initiating in
                  rw (go_unless v.phase now, done, inside, full, moved) (_, refl, valid)
              | inr waits ↦
                  rw (go_unless v.phase now, done, inside, waits)
                    (
                      _,
                      refl,
                      inl (record {
                        phase = v.phase;
                        pushes_counted = v.pushes_counted;
                        pulls_counted = counted;
                        turn =
                            active-IsTurn ws n s.pull_count xs r.src src v.turn may'
                              λ full. ground (arith, count);
                        pushes = v.pushes;
                        pulls = v.pulls;
                        initiating = v.initiating;
                      }),
                    )
            ]
      ]

  pub controlled_pull-Keeps :
      (ws : List ℕ) (r : Request Bin) (s : State h)
      → (r.cmd < 4) × h.IsReadable r.bin
      → has r.src ws ≡ true
      → get_or s.pull_progress r.src 0 + 1 ≡ get_or s.push_progress r.src 0 + lead s
      → IsValid h ws s
      → Keeps h ws (controlled_pull h r s)
  controlled_pull-Keeps ws r s known src may (inl v) = pull_replying ws r s known src may v
  controlled_pull-Keeps ws r s known src may (inr v) = pull_collecting ws r s known src may v
