-- ===== src/Kvstore/SspServer/Branches.antt =====
-- What the push and the pull branch of `Process` keep: kvstore/handles/ssp_server.hpp.
use flexps_paper_version.Common.{
  ℕ, suc, ◌+◌, ◌-◌, ◌<◌, ◌≡◌, refl, ◌≢◌, inl, inr, true, false, List, [], arith, length, get_or,
  grow, get_or-grow, read-get_or, Bool-cases, ◌==◌, leb, ==→eq,
}
use flexps_paper_version.Common.Members.{has}
use flexps_paper_version.Kvstore.Messages.{Handle, Request, Entry}
use flexps_paper_version.Kvstore.Answers.{IsPush, answer_push_total, answer_pull_total}
use flexps_paper_version.Kvstore.Buffers.{IsBuffer, push_at-IsBuffer, clear-IsBuffer}
use flexps_paper_version.Kvstore.SspServer.Clocks.{
  IsSynced, count_in_range, push-IsSynced, complete-IsSynced, complete_by_slowest,
}
use flexps_paper_version.Kvstore.SspServer.{
  plain_cmd, reply_clock, State, entry, advance, process_push, count_push, controlled_push,
  controlled_pull,
}
use flexps_paper_version.Kvstore.SspServer.Validity.{
  IsPull, IsValid, Keeps, release_pushes_total, release_pulls_total,
}

module _ (h : Handle) where
  open h use {Bin, Store, Pairs, next_num_workers}

  advance-Keeps :
      (ws : List ℕ) (kv_id : ℕ) (s : State h)
      → IsSynced ws s.num_workers (suc s.min_clock) s.clock_count s.worker_progress
      → IsBuffer (IsPush h) (suc s.min_clock) s.blocked_pushes
      → IsBuffer (IsPull h) (suc s.min_clock) s.blocked_pulls
      → s.init_count < s.num_workers
      → Keeps h ws (advance h kv_id s)
  unfolding advance
  advance-Keeps ws kv_id s synced pushes pulls initiating =
      let clock = suc s.min_clock in
      let (pushed, done) =
        release_pushes_total h kv_id (get_or (grow (suc clock) [] s.blocked_pushes) clock [])
          s.store (rw (get_or-grow (suc clock) [] s.blocked_pushes clock) (pushes.fit clock)) in
      let (pulled, all_done) =
        release_pulls_total h kv_id clock (get_or (grow (suc clock) [] s.blocked_pulls) clock [])
          pushed.0 (rw (get_or-grow (suc clock) [] s.blocked_pulls clock) (pulls.fit clock)) in
      rw (done, all_done)
        (
          _,
          refl,
          record {
            synced = synced;
            pushes = clear-IsBuffer (IsPush h) (suc s.min_clock) s.blocked_pushes pushes;
            pulls = clear-IsBuffer (IsPull h) (suc s.min_clock) s.blocked_pulls pulls;
            initiating = initiating;
          },
        )

  process_push-Keeps :
      (ws : List ℕ) (kv_id : ℕ) (e : Entry Bin) (s : State h)
      → IsPush h e
      → s.min_clock < length s.clock_count
      → (get_or s.clock_count s.min_clock 0 ≢ s.num_workers
          → IsSynced ws s.num_workers s.min_clock s.clock_count s.worker_progress)
      → (get_or s.clock_count s.min_clock 0 ≡ s.num_workers
          → IsSynced ws s.num_workers (suc s.min_clock) s.clock_count s.worker_progress)
      → IsBuffer (IsPush h) (suc s.min_clock) s.blocked_pushes
      → IsBuffer (IsPull h) (suc s.min_clock) s.blocked_pulls
      → s.init_count < s.num_workers
      → Keeps h ws (process_push h kv_id e s)
  unfolding process_push
  process_push-Keeps ws kv_id e s known inside open_clock full pushes pulls initiating =
      let (answered, done) = answer_push_total h kv_id false e s.store known in
      let counted = read-get_or s.clock_count s.min_clock 0 inside in
      elim (Bool-cases (get_or s.clock_count s.min_clock 0 == s.num_workers)) [
        | inl last ↦
            let (o, moved, valid) =
              advance-Keeps ws kv_id (record s { store = answered.0 }) (full (==→eq _ _ last))
                pushes pulls initiating in
            rw (done, counted, last, moved) (_, refl, valid)
        | inr waits ↦
            rw (done, counted, waits)
              (
                _,
                refl,
                record {
                  synced = open_clock (λ e. ground arith);
                  pushes = pushes;
                  pulls = pulls;
                  initiating = initiating;
                },
              )
      ]

  pub controlled_push-Keeps :
      (ws : List ℕ) (r : Request Bin) (s : State h)
      → (r.cmd < 4) × h.IsComplete r.bin
      → has r.src ws ≡ true
      → IsValid h ws s
      → Keeps h ws (
          controlled_push h r (record s { worker_progress = grow (suc r.src) 0 s.worker_progress }))
  unfolding controlled_push count_push entry
  controlled_push-Keeps ws r s known src v =
      let seen = record s { worker_progress = grow (suc r.src) 0 s.worker_progress } in
      let progress = get_or seen.worker_progress r.src 0 in
      elim (Bool-cases (leb progress (s.min_clock + s.staleness))) [
        | inl near ↦ rw near (
            process_push-Keeps ws r.kv_id (entry h r) (count_push h r.src seen) known
              (count_in_range v.synced r.src src) (push-IsSynced v.synced r.src src)
              (complete-IsSynced v.synced r.src src) v.pushes v.pulls v.initiating)
        | inr far ↦ rw far (
          _,
          refl,
          record {
            synced =
                push-IsSynced v.synced r.src src
                  λ full. ground (arith, complete_by_slowest v.synced r.src src full);
            pushes =
                push_at-IsBuffer (IsPush h) (suc s.min_clock) (progress - s.staleness) (entry h r)
                  s.blocked_pushes (ground arith) known v.pushes;
            pulls = v.pulls;
            initiating = v.initiating;
          },
        )
      ]

  pub controlled_pull-Keeps :
      (ws : List ℕ) (r : Request Bin) (s : State h)
      → (plain_cmd r.cmd < 4) × h.IsReadable r.bin
      → IsValid h ws s
      → Keeps h ws (controlled_pull h r s)
  unfolding controlled_pull entry
  controlled_pull-Keeps ws r s known v =
      let progress = get_or s.worker_progress r.src 0 in
      let (rs, done) =
        answer_pull_total h r.kv_id (plain_cmd r.cmd) (reply_clock r.cmd s.min_clock) (entry h r)
          s.store known in
      elim (Bool-cases (leb progress (s.min_clock + s.staleness))) [
        | inl near ↦ rw (near, done) (_, refl, v)
        | inr far ↦ rw far (
          _,
          refl,
          record {
            synced = v.synced;
            pushes = v.pushes;
            pulls =
                push_at-IsBuffer (IsPull h) (suc s.min_clock) (progress - s.staleness) (entry h r)
                  s.blocked_pulls (ground arith) known v.pulls;
            initiating = v.initiating;
          },
        )
      ]
