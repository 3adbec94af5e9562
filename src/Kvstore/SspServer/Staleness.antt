-- ===== src/Kvstore/SspServer/Staleness.antt =====
-- Bounded staleness, the promise of kvstore/handles/ssp_server.hpp to its workers.
use flexps_paper_version.Common.{
  ℕ, suc, ◌+◌, ◌≤◌, ◌<◌, ◌≡◌, ◌≢◌, ◌↔◌, ap, inl, inr, true, false, List, [], ok, >>=-eq-ok, arith,
  get_or, get_or-grow, grow, read, ok-injective, sym, Bool-cases, ◌==◌, leb, ne→==_false,
  lt→leb_false,
}
use flexps_paper_version.Common.Members.{has}
use flexps_paper_version.Kvstore.Messages.{
  Handle, Request, Entry, Reply, init_cmd, consistency_control_off_magic, answer_push, answer_pull,
}
use flexps_paper_version.Kvstore.Answers.{append-some, answer_push-some, answer_pull-some}
use flexps_paper_version.Kvstore.SspServer.Clocks.{slowest_exists}
use flexps_paper_version.Kvstore.SspServer.Validity.{IsValid, plain_cmd_ne, plain_cmd_lt}
use flexps_paper_version.Kvstore.SspServer.{
  SspServer, plain_cmd, reply_clock, State, entry, process_push, advance, count_push,
  controlled_push, controlled_pull, process,
}

-- None of the workers `ws` is more than `staleness` pushes behind worker `src`.
abbrev pub IsNear : {Bin Store : Type 0} → List ℕ → SspServer Bin Store → ℕ → Type 0
IsNear ws s src =
    (i : ℕ)
    → has i ws ≡ true
    → get_or s.worker_progress src 0 ≤ get_or s.worker_progress i 0 + s.staleness

module _ (h : Handle) where
  open h use {Bin, Store, Pairs}

  clock-IsNear :
      (ws : List ℕ) (s : State h) (src : ℕ)
      → IsValid h ws s
      → get_or s.worker_progress src 0 ≤ s.min_clock + s.staleness
      → IsNear ws s src
  clock-IsNear ws s src v le i lt = omega (arith, v.synced.slowest i lt)

  IsNear-clock :
      (ws : List ℕ) (s : State h) (src : ℕ)
      → IsValid h ws s
      → IsNear ws s src
      → get_or s.worker_progress src 0 ≤ s.min_clock + s.staleness
  IsNear-clock ws s src v near =
      let (i, lt, at) = slowest_exists v.synced in omega (arith, near i lt)

  -- The state in which the push and pull branches start.
  abbrev pub seen : ℕ → State h → State h
  seen src s = record s { worker_progress = grow (suc src) 0 s.worker_progress }

  pub process-push :
      (r : Request Bin) (s : State h)
      → r.push ≡ true
      → r.cmd < 4
      → process h r s ≡ controlled_push h r (seen r.src s)
  unfolding process
  process-push r s is_push known = simp (
    ne→==_false r.cmd init_cmd (omega arith),
    lt→leb_false consistency_control_off_magic r.cmd (omega arith),
    is_push,
  )

  pub process-pull :
      (r : Request Bin) (s : State h)
      → r.push ≡ false
      → plain_cmd r.cmd < 4
      → process h r s ≡ controlled_pull h r (seen r.src s)
  unfolding process
  process-pull r s is_pull known = simp (
    ne→==_false r.cmd init_cmd (plain_cmd_ne r.cmd known),
    lt→leb_false consistency_control_off_magic r.cmd (plain_cmd_lt r.cmd known),
    is_pull,
  )

  process_push-some :
      (kv_id : ℕ) (e : Entry Bin) (s : State h) (o : State h × List (Reply Pairs))
      → h.size e.bin ≢ 0
      → process_push h kv_id e s ≡ ok o
      → o.1 ≢ []
  unfolding process_push
  process_push-some kv_id e s o full done =
      let (answered, answer, rest) = >>=-eq-ok (answer_push h kv_id false e s.store) _ done in
      let some_answer = answer_push-some h kv_id false e s.store answered full answer in
      let (count, counted, last) = >>=-eq-ok (read s.clock_count s.min_clock) _ rest in
      elim (Bool-cases (count == s.num_workers)) [
        | inl full_clock ↦
            let (released, moved, e) =
              >>=-eq-ok (advance h kv_id (record s { store = answered.0 })) _
                (rw full_clock at last) in
            rw (← ok-injective e) (append-some answered.1 released.1 some_answer)
        | inr waits ↦ rw (← ok-injective (rw waits at last)) some_answer
      ]

  -- The test that the push and pull branches make, on the clocks as the request finds them.
  test-IsNear :
      (ws : List ℕ) (s : State h) (src : ℕ)
      → IsValid h ws s
      → (leb (get_or (grow (suc src) 0 s.worker_progress) src 0) (s.min_clock + s.staleness) ≡ true)
        ↔ IsNear ws s src
  test-IsNear ws s src v = (
    λ near. clock-IsNear ws s src v (ground (arith, get_or-grow (suc src) 0 s.worker_progress src)),
    λ near.
        ground (arith, IsNear-clock ws s src v near, get_or-grow (suc src) 0 s.worker_progress src),
  )

  -- For workers with any distinct ids, as many as the server counts on: in a valid state, a push
  -- with a payload and a known command that the SSP server processes is answered at once exactly
  -- when none of the workers is more than `staleness` pushes behind its sender.
  pub ssp_push_at_once_iff :
      (ws : List ℕ) (r : Request Bin) (s : State h) (o : State h × List (Reply Pairs))
      → IsValid h ws s
      → r.push ≡ true
      → r.cmd < 4
      → h.size r.bin ≢ 0
      → process h r s ≡ ok o
      → o.1 ≢ [] ↔ IsNear ws s r.src
  unfolding controlled_push entry count_push
  ssp_push_at_once_iff ws r s o v is_push known full done =
      let e = rw (process-push r s is_push known) at done in
      let test = test-IsNear ws s r.src v in
      elim (Bool-cases
        (leb (get_or (grow (suc r.src) 0 s.worker_progress) r.src 0) (s.min_clock + s.staleness))) [
          | inl near ↦ (
            λ _. test.0 near,
            λ _.
                process_push-some r.kv_id (entry h r) (count_push h r.src (seen r.src s)) o full
                  (rw near at e),
          )
          | inr far ↦ (
            λ some_reply. absurd (some_reply (ap (λ p. p.1) (sym (ok-injective (rw far at e))))),
            λ near. cc (test.1 near, far),
          )
        ]

  -- For workers with any distinct ids, as many as the server counts on: in a valid state, a pull
  -- with a payload and a known command that the SSP server processes is answered at once exactly
  -- when none of the workers is more than `staleness` pushes behind its sender.
  pub ssp_pull_at_once_iff :
      (ws : List ℕ) (r : Request Bin) (s : State h) (o : State h × List (Reply Pairs))
      → IsValid h ws s
      → r.push ≡ false
      → plain_cmd r.cmd < 4
      → h.size r.bin ≢ 0
      → process h r s ≡ ok o
      → o.1 ≢ [] ↔ IsNear ws s r.src
  unfolding controlled_pull entry
  ssp_pull_at_once_iff ws r s o v is_pull known full done =
      let e = rw (process-pull r s is_pull known) at done in
      let test = test-IsNear ws s r.src v in
      elim (Bool-cases
        (leb (get_or (grow (suc r.src) 0 s.worker_progress) r.src 0) (s.min_clock + s.staleness))) [
          | inl near ↦ (
            λ _. test.0 near,
            λ _.
                let (rs, answer, at) =
                  >>=-eq-ok
                    (answer_pull h r.kv_id (plain_cmd r.cmd) (reply_clock r.cmd s.min_clock)
                      (entry h r) s.store)
                    _ (rw near at e) in
                rw (← ok-injective at) (
                  answer_pull-some h r.kv_id (plain_cmd r.cmd) (reply_clock r.cmd s.min_clock)
                    (entry h r) s.store rs full answer),
          )
          | inr far ↦ (
            λ some_reply. absurd (some_reply (ap (λ p. p.1) (sym (ok-injective (rw far at e))))),
            λ near. cc (test.1 near, far),
          )
        ]
