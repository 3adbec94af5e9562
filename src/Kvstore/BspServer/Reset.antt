-- ===== src/Kvstore/BspServer/Reset.antt =====
-- What `InitForConsistencyControl` leaves behind: kvstore/handles/bsp_server.hpp.
use flexps_paper_version.Common.{
  ℕ, ◌+◌, ◌<◌, ◌≡◌, subst, inl, inr, List, [], arith, length, Bool-cases, ◌==◌, if◌then◌else◌,
}
use flexps_paper_version.Common.Members.{IsDistinct}
use flexps_paper_version.Kvstore.Messages.{Handle, Request}
use flexps_paper_version.Kvstore.Answers.{IsPush}
use flexps_paper_version.Kvstore.Buffers.{nil-IsBuffer}
use flexps_paper_version.Kvstore.BspServer.Turns.{IsTurn, start-IsTurn, start-IsCounted}
use flexps_paper_version.Kvstore.BspServer.{State, reset}
use flexps_paper_version.Kvstore.BspServer.Validity.{IsPull, IsValid}

module _ (h : Handle) where
  open h use {Bin, Store, Pairs, next_num_workers}

  pub reset-IsValid :
      (next : List ℕ) (r : Request Bin) (s : State h)
      → s.init_count ≡ 0
      → IsDistinct next
      → length next ≡ (reset h r s).num_workers
      → 0 < length next
      → IsValid h next (reset h r s)
  unfolding reset
  reset-IsValid next r s idle distinct size positive =
      let some_workers : 0 < (reset h r s).num_workers = omega (arith, size) in
      let start = start-IsTurn next _ distinct size some_workers in
      elim (Bool-cases s.init_reply_phase) [
        | inl replies ↦ inl (record {
          phase = replies;
          pushes_counted = start-IsCounted next distinct;
          pulls_counted = start-IsCounted next distinct;
          turn =
              subst (λ e. IsTurn next (reset h r s).num_workers e 0 0 [] []) (ground arith) start;
          pushes = nil-IsBuffer (IsPush h) 0;
          pulls = nil-IsBuffer (IsPull h) 1;
          initiating = omega arith;
        })
        | inr collects ↦ inr (record {
          phase = collects;
          pushes_counted = start-IsCounted next distinct;
          pulls_counted = start-IsCounted next distinct;
          turn =
              subst (λ e. IsTurn next (reset h r s).num_workers e 0 0 [] []) (ground arith) start;
          pushes = nil-IsBuffer (IsPush h) 1;
          pulls = nil-IsBuffer (IsPull h) 0;
          initiating = omega arith;
        })
      ]

  -- Validity does not depend on the store, and on the init count only by its bound.
  pub keep-IsValid :
      (ws : List ℕ) (s : State h) (count : ℕ) (store : Store)
      → IsValid h ws s
      → count < s.num_workers
      → IsValid h ws (record s { init_count = count; store = store })
  keep-IsValid ws s count store (inl v) below = inl (record {
    phase = v.phase;
    pushes_counted = v.pushes_counted;
    pulls_counted = v.pulls_counted;
    turn = v.turn;
    pushes = v.pushes;
    pulls = v.pulls;
    initiating = below;
  })
  keep-IsValid ws s count store (inr v) below = inr (record {
    phase = v.phase;
    pushes_counted = v.pushes_counted;
    pulls_counted = v.pulls_counted;
    turn = v.turn;
    pushes = v.pushes;
    pulls = v.pulls;
    initiating = below;
  })

  pub initiating : (ws : List ℕ) (s : State h) → IsValid h ws s → s.init_count < s.num_workers
  initiating ws s (inl v) = v.initiating
  initiating ws s (inr v) = v.initiating

  pub count_init-IsValid :
      (ws : List ℕ) (s : State h)
      → IsValid h ws s
      → IsValid h ws (record s {
        init_count = if s.init_count + 1 == s.num_workers then 0 else s.init_count + 1;
      })
  count_init-IsValid ws s v = keep-IsValid ws s _ s.store v (ground (arith, initiating ws s v))
