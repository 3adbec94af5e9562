-- ===== src/Kvstore/SspServer/Validity.antt =====
-- When a state of the SSP server of kvstore/handles/ssp_server.hpp is well formed, and which
-- requests it expects.
use flexps_paper_version.Common.{
  ℕ, suc, ◌%◌, ◌≤◌, ◌<◌, ◌≡◌, refl, ◌≢◌, true, false, List, [], ◌∷◌, ok, arith, All, length,
}
use flexps_paper_version.Common.Members.{has, IsDistinct}
use flexps_paper_version.Kvstore.Messages.{
  Handle, Request, Entry, Reply, init_cmd, consistency_control_off_magic,
}
use flexps_paper_version.Kvstore.Answers.{Ok, IsPush, IsPlain, answer_push_total, answer_pull_total}
use flexps_paper_version.Kvstore.Buffers.{IsBuffer}
use flexps_paper_version.Kvstore.SspServer.Clocks.{IsSynced}
use flexps_paper_version.Kvstore.SspServer.{
  plain_cmd, reply_clock, State, Outcome, reset, release_pushes, release_pulls,
}

pub plain_cmd_ne : (cmd : ℕ) → plain_cmd cmd < 4 → cmd ≢ init_cmd
unfolding plain_cmd
plain_cmd_ne cmd h = ground arith

pub plain_cmd_lt : (cmd : ℕ) → plain_cmd cmd < 4 → cmd < consistency_control_off_magic
unfolding plain_cmd
plain_cmd_lt cmd h = ground arith

module _ (h : Handle) where
  open h use {Bin, Store, next_num_workers}

  abbrev pub IsPull : Entry Bin → Type 0
  IsPull e = (plain_cmd e.cmd < 4) × h.IsReadable e.bin

  -- The workers of the instance have the ids `ws`, which are any distinct numbers. The clocks are
  -- right, each buffer holds only requests for later clocks, with a command that the store knows, and
  -- a round of init messages is not complete.
  pub record IsValid (ws : List ℕ) (s : State h) : Type 0 where
    pub synced : IsSynced ws s.num_workers s.min_clock s.clock_count s.worker_progress
    pub pushes : IsBuffer (IsPush h) (suc s.min_clock) s.blocked_pushes
    pub pulls : IsBuffer IsPull (suc s.min_clock) s.blocked_pulls
    pub initiating : s.init_count < s.num_workers

  -- What a client of the server sends: the first init message of a round, for workers `next` as many
  -- as it says, a later one, a request that bypasses the clocks, or a push or pull of a worker.
  pub data IsAcceptable (ws : List ℕ) (r : Request Bin) (s : State h) : Type 0 where
    initial :
        (next : List ℕ)
        → r.cmd ≡ init_cmd
        → s.init_count ≡ 0
        → IsDistinct next
        → length next ≡ (reset h r s).num_workers
        → 0 < length next
        → IsAcceptable ws r s
    repeated : r.cmd ≡ init_cmd → s.init_count ≢ 0 → IsAcceptable ws r s
    bypass :
        consistency_control_off_magic ≤ r.cmd
        → r.cmd % consistency_control_off_magic < 4
        → IsPlain h r
        → IsAcceptable ws r s
    push :
        r.push ≡ true → (r.cmd < 4) × h.IsComplete r.bin → has r.src ws ≡ true → IsAcceptable ws r s
    pull :
        r.push ≡ false
        → (plain_cmd r.cmd < 4) × h.IsReadable r.bin
        → has r.src ws ≡ true
        → IsAcceptable ws r s

  -- The workers after a request: the first init message of a round brings those of the next instance.
  unfoldable pub workers_after :
      (ws : List ℕ) (r : Request Bin) (s : State h) → IsAcceptable ws r s → List ℕ
  workers_after ws r s (initial next is_init idle distinct size positive) = next
  workers_after ws r s (repeated is_init busy) = ws
  workers_after ws r s (bypass large known complete) = ws
  workers_after ws r s (push is_push known src) = ws
  workers_after ws r s (pull is_pull known src) = ws

  pub release_pushes_total :
      (kv_id : ℕ) (es : List (Entry Bin)) (store : Store)
      → All (IsPush h) es
      → Ok (release_pushes h kv_id es store)
  unfolding release_pushes
  release_pushes_total kv_id [] store known = (_, refl)
  release_pushes_total kv_id (e ∷ es) store known =
      let (first, done) = answer_push_total h kv_id false e store known.0 in
      let (rest, all_done) = release_pushes_total kv_id es first.0 known.1 in
      rw (done, all_done) (_, refl)

  pub release_pulls_total :
      (kv_id clock : ℕ) (es : List (Entry Bin)) (store : Store)
      → All IsPull es
      → Ok (release_pulls h kv_id clock es store)
  unfolding release_pulls
  release_pulls_total kv_id clock [] store known = (_, refl)
  release_pulls_total kv_id clock (e ∷ es) store known =
      let (first, done) =
        answer_pull_total h kv_id (plain_cmd e.cmd) (reply_clock e.cmd clock) e store known.0 in
      let (rest, all_done) = release_pulls_total kv_id clock es store known.1 in
      rw (done, all_done) (_, refl)

  -- A call returns a valid state.
  abbrev pub Keeps : List ℕ → Outcome h → Type 0
  Keeps ws m = (o : State h × List (Reply h.Pairs)) × (m ≡ ok o) × IsValid ws o.0
