-- ===== src/Kvstore/BspServer/Validity.antt =====
-- When a state of the BSP server of kvstore/handles/bsp_server.hpp is well formed, and which
-- requests it expects next.
use flexps_paper_version.Common.{
  ℕ, suc, ◌+◌, ◌-◌, ◌%◌, ◌≤◌, ◌<◌, ◌≡◌, refl, ◌⊎◌, Bool, true, false, not, ◌||◌, none, List, [],
  ◌∷◌, ok, arith, All, get_or, if◌then◌else◌, length, ◌≢◌,
}
use flexps_paper_version.Common.Members.{has, IsDistinct}
use flexps_paper_version.Kvstore.Messages.{
  Handle, Request, Entry, Reply, init_cmd, consistency_control_off_magic,
}
use flexps_paper_version.Kvstore.Answers.{Ok, IsPush, IsPlain, answer_push_total, answer_pull_total}
use flexps_paper_version.Kvstore.Buffers.{IsBuffer}
use flexps_paper_version.Kvstore.BspServer.Turns.{IsCounted, IsTurn}
use flexps_paper_version.Kvstore.BspServer.{
  BspServer, State, Outcome, reset, release_pushes, release_pulls,
}

-- 1 where workers pull first: a worker then has as many pushes as pulls, or one fewer.
abbrev pub lead : {Bin Store : Type 0} → BspServer Bin Store → ℕ
lead s = if s.init_reply_phase then 1 else 0

-- The tests of the two branches, on a phase and on whether the request is for this iteration.
pub wait_when : {phase : Bool} (now : Bool) → phase ≡ true → (phase || not now) ≡ true
wait_when now p = rw p

pub wait_later : {phase now : Bool} → phase ≡ false → now ≡ false → (phase || not now) ≡ true
wait_later p q = rw (p, q)

pub go_now : {phase now : Bool} → phase ≡ false → now ≡ true → (phase || not now) ≡ false
go_now p q = rw (p, q)

pub wait_unless : {phase : Bool} (now : Bool) → phase ≡ false → (not phase || not now) ≡ true
wait_unless now p = rw p

pub later_unless : {phase now : Bool} → phase ≡ true → now ≡ false → (not phase || not now) ≡ true
later_unless p q = rw (p, q)

pub go_unless : {phase now : Bool} → phase ≡ true → now ≡ true → (not phase || not now) ≡ false
go_unless p q = rw (p, q)

pub back : {d : ℕ} → d ≤ 1 → 1 - (1 - d) ≡ d
back le = omega arith

module _ (h : Handle) where
  open h use {Bin, Store, Pairs, next_num_workers}

  abbrev pub IsPull : Entry Bin → Type 0
  IsPull e = (e.cmd < 4) × h.IsReadable e.bin

  -- The workers of the instance have the ids `ws`, which are any distinct numbers. The server takes
  -- pulls: those of iteration `pull_iter` are answered, and pushes are buffered.
  pub record IsReplying (ws : List ℕ) (s : State h) : Type 0 where
    pub phase : s.reply_phase ≡ true
    pub pushes_counted : IsCounted ws s.push_count s.push_progress
    pub pulls_counted : IsCounted ws s.pull_count s.pull_progress
    pub turn :
        IsTurn ws s.num_workers (1 - lead s) s.pull_iter s.push_iter s.pull_progress s.push_progress
    pub pushes : IsBuffer (IsPush h) s.push_iter s.blocked_pushes
    pub pulls : IsBuffer IsPull (suc s.pull_iter) s.blocked_pulls
    pub initiating : s.init_count < s.num_workers

  -- The server takes pushes: those of iteration `push_iter` are applied, and pulls are buffered.
  pub record IsCollecting (ws : List ℕ) (s : State h) : Type 0 where
    pub phase : s.reply_phase ≡ false
    pub pushes_counted : IsCounted ws s.push_count s.push_progress
    pub pulls_counted : IsCounted ws s.pull_count s.pull_progress
    pub turn :
        IsTurn ws s.num_workers (lead s) s.push_iter s.pull_iter s.push_progress s.pull_progress
    pub pushes : IsBuffer (IsPush h) (suc s.push_iter) s.blocked_pushes
    pub pulls : IsBuffer IsPull s.pull_iter s.blocked_pulls
    pub initiating : s.init_count < s.num_workers

  abbrev pub IsValid : List ℕ → State h → Type 0
  IsValid ws s = IsReplying ws s ⊎ IsCollecting ws s

  -- What a client sends: the first init message of a round, for workers `next` as many as it says, a
  -- later one, a request that bypasses the iterations, or a push or pull of a worker. A worker
  -- alternates: it pushes when its pushes, with the lead of the pulls, are as many as its pulls, and
  -- pulls when they are one more.
  pub data IsAcceptable (ws : List ℕ) (r : Request Bin) (s : State h) : Type 0 where
    initial :
        (next : List ℕ)
        → r.cmd ≡ init_cmd
        → s.init_count ≡ 0
        → IsDistinct next
        → length next ≡ (reset h r s).num_workers
        → 0 < length next
        → IsAcceptable ws r s
    repeated : r.cmd ≡ init_cmd → s.init_count ≢ 0 → IsAcceptable ws r s
    bypass :
        consistency_control_off_magic ≤ r.cmd
        → r.cmd % consistency_control_off_magic < 4
        → IsPlain h r
        → IsAcceptable ws r s
    push :
        r.push ≡ true
        → (r.cmd < 4) × h.IsComplete r.bin
        → has r.src ws ≡ true
        → get_or s.push_progress r.src 0 + lead s ≡ get_or s.pull_progress r.src 0
        → IsAcceptable ws r s
    pull :
        r.push ≡ false
        → (r.cmd < 4) × h.IsReadable r.bin
        → has r.src ws ≡ true
        → get_or s.pull_progress r.src 0 + 1 ≡ get_or s.push_progress r.src 0 + lead s
        → IsAcceptable ws r s

  -- The workers after a request: the first init message of a round brings those of the next instance.
  unfoldable pub workers_after :
      (ws : List ℕ) (r : Request Bin) (s : State h) → IsAcceptable ws r s → List ℕ
  workers_after ws r s (initial next is_init idle distinct size positive) = next
  workers_after ws r s (repeated is_init busy) = ws
  workers_after ws r s (bypass large known complete) = ws
  workers_after ws r s (push is_push known src may) = ws
  workers_after ws r s (pull is_pull known src may) = ws

  -- A call returns a valid state.
  abbrev pub Keeps : List ℕ → Outcome h → Type 0
  Keeps ws m = (o : State h × List (Reply Pairs)) × (m ≡ ok o) × IsValid ws o.0

  pub release_pushes_total :
      (kv_id : ℕ) (b : Bool) (es : List (Entry Bin)) (store : Store)
      → All (IsPush h) es
      → Ok (release_pushes h kv_id b es store)
  unfolding release_pushes
  release_pushes_total kv_id b [] store known = (_, refl)
  release_pushes_total kv_id b (e ∷ es) store known =
      let (first, done) = answer_push_total h kv_id b e store known.0 in
      let (rest, all_done) = release_pushes_total kv_id b es first.0 known.1 in
      rw (done, all_done) (_, refl)

  pub release_pulls_total :
      (kv_id : ℕ) (es : List (Entry Bin)) (store : Store)
      → All IsPull es
      → Ok (release_pulls h kv_id es store)
  unfolding release_pulls
  release_pulls_total kv_id [] store known = (_, refl)
  release_pulls_total kv_id (e ∷ es) store known =
      let (first, done) = answer_pull_total h kv_id e.cmd none e store known.0 in
      let (rest, all_done) = release_pulls_total kv_id es store known.1 in
      rw (done, all_done) (_, refl)

  pub lead_small : (s : State h) → lead s ≤ 1
  lead_small s = ground arith
