-- ===== src/Kvstore/BspServer/Pushes.antt =====
-- What the push branch of `Process` keeps: kvstore/handles/bsp_server.hpp.
use flexps_paper_version.Common.{
  ℕ, suc, ◌+◌, ◌-◌, ◌<◌, ◌≡◌, ◌∙◌, sym, refl, inl, inr, true, List, [], arith, get_or, grow,
  read-get_or, Bool-cases, ◌==◌, ==→eq,
}
use flexps_paper_version.Common.Members.{has}
use flexps_paper_version.Kvstore.Messages.{Handle, Request}
use flexps_paper_version.Kvstore.Answers.{IsPush, answer_push_total}
use flexps_paper_version.Kvstore.Buffers.{IsBuffer, push_at-IsBuffer, clear_existing-IsBuffer}
use flexps_paper_version.Kvstore.BspServer.Turns.{
  IsCounted, IsTurn, at_lem, count_in_range, count-IsCounted, active-IsTurn, complete_at,
  complete-IsTurn, passive-IsTurn,
}
use flexps_paper_version.Kvstore.BspServer.{
  State, entry, finish_pushes, count_push, controlled_push,
}
use flexps_paper_version.Kvstore.BspServer.Validity.{
  lead, wait_when, wait_later, go_now, IsPull, IsReplying, IsCollecting, IsValid, Keeps,
  release_pulls_total, lead_small,
}

module _ (h : Handle) where
  open h use {Bin, Store, Pairs, next_num_workers}

  -- A push that comes while pulls are answered is buffered.
  push_replying :
      (ws : List ℕ) (r : Request Bin) (s : State h)
      → IsPush h (entry h r)
      → has r.src ws ≡ true
      → get_or s.push_progress r.src 0 + lead s ≡ get_or s.pull_progress r.src 0
      → IsReplying h ws s
      → Keeps h ws (controlled_push h r s)
  unfolding controlled_push count_push entry
  push_replying ws r s known src may v =
      let n = s.num_workers in
      let xs = s.push_progress in
      let at = at_lem ws n s.push_count xs r.src src in
      rw (wait_when (s.push_iter == get_or (grow (suc r.src) 0 xs) r.src 0) v.phase) (
        _,
        refl,
        inl (record {
          phase = v.phase;
          pushes_counted = count-IsCounted ws n s.push_count xs r.src src v.pushes_counted;
          pulls_counted = v.pulls_counted;
          turn =
              passive-IsTurn ws n s.push_count xs r.src src v.turn
                (omega (arith, may, lead_small h s));
          pushes =
              push_at-IsBuffer (IsPush h) s.push_iter _ (entry h r) s.blocked_pushes
                (omega (arith, at, v.turn.passive r.src src)) known v.pushes;
          pulls = v.pulls;
          initiating = v.initiating;
        }),
      )

  -- Once all pushes of the iteration are in, the buffered pulls are answered.
  finish_pushes-Keeps :
      (ws : List ℕ) (kv_id : ℕ) (s : State h)
      → IsCounted ws s.push_count s.push_progress
      → IsCounted ws s.pull_count s.pull_progress
      → IsTurn ws s.num_workers
          (1 - lead s)
          s.pull_iter
          (suc s.push_iter)
          s.pull_progress
          s.push_progress
      → IsBuffer (IsPush h) (suc s.push_iter) s.blocked_pushes
      → IsBuffer (IsPull h) s.pull_iter s.blocked_pulls
      → s.init_count < s.num_workers
      → Keeps h ws (finish_pushes h kv_id s)
  unfolding finish_pushes
  finish_pushes-Keeps ws kv_id s pushes_counted pulls_counted turn pushes pulls initiating =
      let (released, done) =
        release_pulls_total h kv_id (get_or s.blocked_pulls s.pull_iter []) s.store
          (pulls.fit s.pull_iter) in
      rw done (
        _,
        refl,
        inl (record {
          phase = refl;
          pushes_counted = pushes_counted;
          pulls_counted = pulls_counted;
          turn = turn;
          pushes = pushes;
          pulls = clear_existing-IsBuffer (IsPull h) s.pull_iter s.blocked_pulls pulls;
          initiating = initiating;
        }),
      )

  -- A push that comes while pushes are taken is applied if it is for this iteration.
  push_collecting :
      (ws : List ℕ) (r : Request Bin) (s : State h)
      → IsPush h (entry h r)
      → has r.src ws ≡ true
      → get_or s.push_progress r.src 0 + lead s ≡ get_or s.pull_progress r.src 0
      → IsCollecting h ws s
      → Keeps h ws (controlled_push h r s)
  unfolding controlled_push count_push entry
  push_collecting ws r s known src may v =
      let n = s.num_workers in
      let xs = s.push_progress in
      let at = at_lem ws n s.push_count xs r.src src in
      let counted = count-IsCounted ws n s.push_count xs r.src src v.pushes_counted in
      let counts = (count_push h r.src s).push_count in
      elim (Bool-cases (s.push_iter == get_or (grow (suc r.src) 0 xs) r.src 0)) [
        | inr later ↦ rw (wait_later v.phase later) (
          _,
          refl,
          inr (record {
            phase = v.phase;
            pushes_counted = counted;
            pulls_counted = v.pulls_counted;
            turn =
                active-IsTurn ws n s.push_count xs r.src src v.turn may λ full.
                  ground (arith, at, complete_at ws n s.push_count xs r.src src v.turn full);
            pushes =
                push_at-IsBuffer (IsPush h) (suc s.push_iter) _ (entry h r) s.blocked_pushes
                  (ground (arith, at, v.turn.active r.src src)) known v.pushes;
            pulls = v.pulls;
            initiating = v.initiating;
          }),
        )
        | inl now ↦
            let (answered, done) =
              answer_push_total h r.kv_id s.is_assign (entry h r) s.store known in
            let inside =
              read-get_or counts s.push_iter 0
                (ground (arith, count_in_range ws n s.push_count xs r.src src)) in
            let count = counted.counted s.push_iter in
            elim (Bool-cases (get_or counts s.push_iter 0 == n)) [
              | inl full ↦
                  let (o, moved, valid) =
                    finish_pushes-Keeps ws r.kv_id
                      (record (count_push h r.src s) { store = answered.0 }) counted v.pulls_counted
                      (complete-IsTurn ws n s.push_count xs r.src src v.turn may
                        (sym count ∙ ==→eq _ _ full))
                      v.pushes v.pulls v.initiating in
                  rw (go_now v.phase now, done, inside, full, moved) (_, refl, valid)
              | inr waits ↦
                  rw (go_now v.phase now, done, inside, waits)
                    (
                      _,
                      refl,
                      inr (record {
                        phase = v.phase;
                        pushes_counted = counted;
                        pulls_counted = v.pulls_counted;
                        turn =
                            active-IsTurn ws n s.push_count xs r.src src v.turn may
                              λ full. ground (arith, count);
                        pushes = v.pushes;
                        pulls = v.pulls;
                        initiating = v.initiating;
                      }),
                    )
            ]
      ]

  pub controlled_push-Keeps :
      (ws : List ℕ) (r : Request Bin) (s : State h)
      → IsPush h (entry h r)
      → has r.src ws ≡ true
      → get_or s.push_progress r.src 0 + lead s ≡ get_or s.pull_progress r.src 0
      → IsValid h ws s
      → Keeps h ws (controlled_push h r s)
  controlled_push-Keeps ws r s known src may (inl v) = push_replying ws r s known src may v
  controlled_push-Keeps ws r s known src may (inr v) = push_collecting ws r s known src may v
