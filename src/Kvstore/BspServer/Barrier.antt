-- ===== src/Kvstore/BspServer/Barrier.antt =====
-- The barrier of kvstore/handles/bsp_server.hpp: when a request is served at once.
use flexps_paper_version.Common.{
  ℕ, suc, ◌+◌, ◌≤◌, ◌<◌, ◌≡◌, ◌≢◌, ◌↔◌, ap, sym, inl, inr, true, false, not, ◌||◌, none, List, [],
  ok, ok-injective, >>=-eq-ok, arith, get_or, grow, read, Bool-cases, ◌==◌, ne→==_false,
  lt→leb_false,
}
use flexps_paper_version.Common.Members.{has}
use flexps_paper_version.Kvstore.Messages.{
  Handle, Request, Reply, init_cmd, consistency_control_off_magic, answer_push, answer_pull,
}
use flexps_paper_version.Kvstore.Answers.{append-some, answer_push-some, answer_pull-some}
use flexps_paper_version.Kvstore.BspServer.Turns.{slowest_exists, at_lem}
use flexps_paper_version.Kvstore.BspServer.Validity.{
  IsValid, lead, lead_small, wait_when, wait_later, wait_unless, later_unless, go_now, go_unless,
}
use flexps_paper_version.Kvstore.BspServer.{
  State, entry, finish_pushes, finish_pulls, count_push, count_pull, controlled_push,
  controlled_pull, process,
}

module _ (h : Handle) where
  open h use {Bin, Store, Pairs}

  -- Every one of the workers `ws` has sent the pulls that come before the next push of `src`.
  abbrev pub PulledBefore : List ℕ → State h → ℕ → Type 0
  PulledBefore ws s src =
      (i : ℕ) → has i ws ≡ true → get_or s.push_progress src 0 + lead s ≤ get_or s.pull_progress i 0

  -- Every one of the workers `ws` has sent the pushes that come before the next pull of `src`.
  abbrev pub PushedBefore : List ℕ → State h → ℕ → Type 0
  PushedBefore ws s src =
      (i : ℕ)
      → has i ws ≡ true
      → get_or s.pull_progress src 0 + 1 ≤ get_or s.push_progress i 0 + lead s

  process-push :
      (r : Request Bin) (s : State h)
      → r.push ≡ true
      → r.cmd < 4
      → process h r s ≡ controlled_push h r s
  unfolding process
  process-push r s is_push known = simp (
    ne→==_false r.cmd init_cmd (omega arith),
    lt→leb_false consistency_control_off_magic r.cmd (omega arith),
    is_push,
  )

  process-pull :
      (r : Request Bin) (s : State h)
      → r.push ≡ false
      → r.cmd < 4
      → process h r s ≡ controlled_pull h r s
  unfolding process
  process-pull r s is_pull known = simp (
    ne→==_false r.cmd init_cmd (omega arith),
    lt→leb_false consistency_control_off_magic r.cmd (omega arith),
    is_pull,
  )

  -- The replies of a push that is applied, whether or not it completes its iteration.
  push_branch-some :
      (r : Request Bin) (s : State h) (o : State h × List (Reply Pairs))
      → h.size r.bin ≢ 0
      → (s.reply_phase || not (s.push_iter == get_or (grow (suc r.src) 0 s.push_progress) r.src 0))
        ≡ false
      → controlled_push h r s ≡ ok o
      → o.1 ≢ []
  unfolding controlled_push entry
  push_branch-some r s o full go done =
      let (answered, answer, rest) =
        >>=-eq-ok (answer_push h r.kv_id s.is_assign (entry h r) s.store) _ (rw go at done) in
      let some_answer =
        answer_push-some h r.kv_id s.is_assign (entry h r) s.store answered full answer in
      let (count, counted, last) =
        >>=-eq-ok (read (count_push h r.src s).push_count (count_push h r.src s).push_iter) _
          rest in
      elim (Bool-cases (count == (count_push h r.src s).num_workers)) [
        | inl complete ↦
            let (released, moved, e) =
              >>=-eq-ok
                (finish_pushes h r.kv_id (record (count_push h r.src s) { store = answered.0 })) _
                (rw complete at last) in
            rw (← ok-injective e) (append-some answered.1 released.1 some_answer)
        | inr waits ↦ rw (← ok-injective (rw waits at last)) some_answer
      ]

  pull_branch-some :
      (r : Request Bin) (s : State h) (o : State h × List (Reply Pairs))
      → h.size r.bin ≢ 0
      → (not s.reply_phase
          || not (s.pull_iter == get_or (grow (suc r.src) 0 s.pull_progress) r.src 0))
        ≡ false
      → controlled_pull h r s ≡ ok o
      → o.1 ≢ []
  unfolding controlled_pull entry
  pull_branch-some r s o full go done =
      let (answered, answer, rest) =
        >>=-eq-ok (answer_pull h r.kv_id r.cmd none (entry h r) s.store) _ (rw go at done) in
      let some_answer =
        answer_pull-some h r.kv_id r.cmd none (entry h r) s.store answered full answer in
      let (count, counted, last) =
        >>=-eq-ok (read (count_pull h r.src s).pull_count (count_pull h r.src s).pull_iter) _
          rest in
      elim (Bool-cases (count == (count_pull h r.src s).num_workers)) [
        | inl complete ↦
            let (released, moved, e) =
              >>=-eq-ok (finish_pulls h r.kv_id (count_pull h r.src s)) _ (rw complete at last) in
            rw (← ok-injective e) (append-some answered released.1 some_answer)
        | inr waits ↦ rw (← ok-injective (rw waits at last)) some_answer
      ]

  push_branch-none :
      (r : Request Bin) (s : State h) (o : State h × List (Reply Pairs))
      → (s.reply_phase || not (s.push_iter == get_or (grow (suc r.src) 0 s.push_progress) r.src 0))
        ≡ true
      → controlled_push h r s ≡ ok o
      → [] ≡ o.1
  unfolding controlled_push
  push_branch-none r s o wait done = ap (λ p. p.1) (ok-injective (rw wait at done))

  pull_branch-none :
      (r : Request Bin) (s : State h) (o : State h × List (Reply Pairs))
      → (not s.reply_phase
          || not (s.pull_iter == get_or (grow (suc r.src) 0 s.pull_progress) r.src 0))
        ≡ true
      → controlled_pull h r s ≡ ok o
      → [] ≡ o.1
  unfolding controlled_pull
  pull_branch-none r s o wait done = ap (λ p. p.1) (ok-injective (rw wait at done))

  -- For workers with any distinct ids, as many as the server counts on: in a valid state, a push
  -- of one of the workers, with a payload and a known command, that the BSP server processes is
  -- answered at once exactly when every worker has sent the pulls that come before it.
  pub bsp_push_at_once_iff :
      (ws : List ℕ) (r : Request Bin) (s : State h) (o : State h × List (Reply Pairs))
      → IsValid h ws s
      → r.push ≡ true
      → r.cmd < 4
      → has r.src ws ≡ true
      → h.size r.bin ≢ 0
      → process h r s ≡ ok o
      → o.1 ≢ [] ↔ PulledBefore ws s r.src
  bsp_push_at_once_iff ws r s o (inl v) is_push known src full done =
      let e = rw (process-push r s is_push known) at done in
      let none_sent = push_branch-none r s o (wait_when _ v.phase) e in
      (
        λ some_reply. absurd (some_reply (sym none_sent)),
        λ pulled.
            let (j, lt, at) = slowest_exists v.turn in
            absurd (
              omega
                (arith, pulled j lt, at, v.turn.offset, v.turn.passive r.src src, lead_small h s)),
      )
  bsp_push_at_once_iff ws r s o (inr v) is_push known src full done =
      let e = rw (process-push r s is_push known) at done in
      let at_src = at_lem ws s.num_workers s.push_count s.push_progress r.src src in
      elim (Bool-cases (s.push_iter == get_or (grow (suc r.src) 0 s.push_progress) r.src 0)) [
        | inl now ↦ (
          λ _ i lt. ground (arith, at_src, v.turn.passive i lt, v.turn.offset),
          λ _. push_branch-some r s o full (go_now v.phase now) e,
        )
        | inr later ↦ (
          λ some_reply.
              absurd (some_reply (sym (push_branch-none r s o (wait_later v.phase later) e))),
          λ pulled.
              let (j, lt, at) = slowest_exists v.turn in
              let apart : get_or s.push_progress r.src 0 ≢ s.push_iter = ground (arith, at_src) in
              absurd
                (omega (arith, pulled j lt, at, v.turn.high j lt, v.turn.active r.src src, apart)),
        )
      ]

  -- For workers with any distinct ids, as many as the server counts on: in a valid state, a pull
  -- of one of the workers, with a payload and a known command, that the BSP server processes is
  -- answered at once exactly when every worker has sent the pushes that come before it.
  pub bsp_pull_at_once_iff :
      (ws : List ℕ) (r : Request Bin) (s : State h) (o : State h × List (Reply Pairs))
      → IsValid h ws s
      → r.push ≡ false
      → r.cmd < 4
      → has r.src ws ≡ true
      → h.size r.bin ≢ 0
      → process h r s ≡ ok o
      → o.1 ≢ [] ↔ PushedBefore ws s r.src
  bsp_pull_at_once_iff ws r s o (inr v) is_pull known src full done =
      let e = rw (process-pull r s is_pull known) at done in
      let none_sent = pull_branch-none r s o (wait_unless _ v.phase) e in
      (
        λ some_reply. absurd (some_reply (sym none_sent)),
        λ pushed.
            let (j, lt, at) = slowest_exists v.turn in
            absurd (
              omega
                (arith, pushed j lt, at, v.turn.offset, v.turn.passive r.src src, lead_small h s)),
      )
  bsp_pull_at_once_iff ws r s o (inl v) is_pull known src full done =
      let e = rw (process-pull r s is_pull known) at done in
      let at_src = at_lem ws s.num_workers s.pull_count s.pull_progress r.src src in
      elim (Bool-cases (s.pull_iter == get_or (grow (suc r.src) 0 s.pull_progress) r.src 0)) [
        | inl now ↦ (
          λ _ i lt. ground (arith, at_src, v.turn.passive i lt, v.turn.offset, lead_small h s),
          λ _. pull_branch-some r s o full (go_unless v.phase now) e,
        )
        | inr later ↦ (
          λ some_reply.
              absurd (some_reply (sym (pull_branch-none r s o (later_unless v.phase later) e))),
          λ pushed.
              let (j, lt, at) = slowest_exists v.turn in
              let apart : get_or s.pull_progress r.src 0 ≢ s.pull_iter = ground (arith, at_src) in
              absurd (
                omega (
                  arith,
                  pushed j lt,
                  at,
                  v.turn.high j lt,
                  v.turn.active r.src src,
                  apart,
                  lead_small h s,
                )),
        )
      ]
