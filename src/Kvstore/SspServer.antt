-- ===== src/Kvstore/SspServer.antt =====
-- kvstore/handles/ssp_server.hpp: the server side of stale synchronous parallel.
-- `int` clocks are natural numbers; `progress - staleness_` may be negative in the source, and is
-- compared as `progress <= min_clock_ + staleness_`. Where the request is buffered the difference
-- is positive, so the truncated one is the same.
pub mod Clocks
pub mod Validity
pub mod Branches
pub mod Invariant
pub mod Staleness
use flexps_paper_version.Common.{
  ℕ, suc, ◌+◌, ◌-◌, false, Option, none, some, List, [], ◌∷◌, ◌++◌, Result, ok, err, failed_assert,
  ◌>>=◌, leb, ltb, ◌==◌, if◌then◌else◌, get_or, set, read, grow, add_at, push_at,
}
use flexps_paper_version.Kvstore.Messages.{
  Handle, Request, Entry, Reply, init_cmd, consistency_control_off_magic, with_min_clock_magic,
  answer_push, answer_pull, uncontrolled,
}

pub record SspServer (Bin Store : Type 0) : Type 0 where
  pub num_workers : ℕ
  pub staleness : ℕ
  pub min_clock : ℕ
  pub clock_count : List ℕ
  pub worker_progress : List ℕ
  pub blocked_pushes : List (List (Entry Bin))
  pub blocked_pulls : List (List (Entry Bin))
  pub store : Store
  pub init_count : ℕ

-- `cmd > with_min_clock_magic_ ? cmd - with_min_clock_magic_ : cmd`.
unfoldable pub plain_cmd : ℕ → ℕ
plain_cmd cmd = if ltb with_min_clock_magic cmd then cmd - with_min_clock_magic else cmd

unfoldable pub reply_clock : ℕ → ℕ → Option ℕ
reply_clock cmd min_clock = if ltb with_min_clock_magic cmd then some min_clock else none

module _ (h : Handle) where
  open h use {Bin, Store, Pairs, next_num_workers, no_pairs}

  abbrev pub State : Type 0
  State = SspServer Bin Store

  abbrev pub Outcome : Type 0
  Outcome = Result (State × List (Reply Pairs))

  unfoldable pub entry : Request Bin → Entry Bin
  entry r = record { cmd = r.cmd; src = r.src; ts = r.ts; bin = r.bin }

  -- The loop over `blocked_pushes_[min_clock_]`.
  unfoldable pub release_pushes : ℕ → List (Entry Bin) → Store → Result (Store × List (Reply Pairs))
  release_pushes kv_id [] store = ok (store, [])
  release_pushes kv_id (e ∷ es) store = answer_push h kv_id false e store >>= λ first.
      release_pushes kv_id es first.0 >>= λ rest. ok (rest.0, first.1 ++ rest.1)

  -- The loop over `blocked_pulls_[min_clock_]`.
  unfoldable pub release_pulls : ℕ → ℕ → List (Entry Bin) → Store → Result (List (Reply Pairs))
  release_pulls kv_id clock [] store = ok []
  release_pulls kv_id clock (e ∷ es) store =
      answer_pull h kv_id (plain_cmd e.cmd) (reply_clock e.cmd clock) e store >>= λ first.
      release_pulls kv_id clock es store >>= λ rest. ok (first ++ rest)

  -- `min_clock_ += 1`, then the requests buffered for the new clock, pushes first.
  unfoldable pub advance : ℕ → State → Outcome
  advance kv_id s =
      let clock = suc s.min_clock in
      let pushes = grow (suc clock) [] s.blocked_pushes in
      let pulls = grow (suc clock) [] s.blocked_pulls in
      release_pushes kv_id (get_or pushes clock []) s.store >>= λ pushed.
      release_pulls kv_id clock (get_or pulls clock []) pushed.0 >>= λ pulled. ok (
        record s {
          min_clock = clock;
          blocked_pushes = set pushes clock [];
          blocked_pulls = set pulls clock [];
          store = pushed.0;
        },
        pushed.1 ++ pulled,
      )

  unfoldable pub process_push : ℕ → Entry Bin → State → Outcome
  process_push kv_id e s = answer_push h kv_id false e s.store >>= λ answered.
      let s' : State = record s { store = answered.0 } in
      read s'.clock_count s'.min_clock >>= λ count.
      let later = advance kv_id s' in
      if count == s'.num_workers
      then (later >>= λ released. ok (released.0, answered.1 ++ released.1))
      else ok (s', answered.1)

  -- The clocks after a push of worker `src`, before anything is answered.
  unfoldable pub count_push : ℕ → State → State
  count_push src s =
      let progress = get_or s.worker_progress src 0 in
      record s {
        clock_count = add_at progress (grow (suc progress) 0 s.clock_count);
        worker_progress = add_at src s.worker_progress;
      }

  unfoldable pub controlled_push : Request Bin → State → Outcome
  controlled_push r s =
      let progress = get_or s.worker_progress r.src 0 in
      let expected_min_clock = progress - s.staleness in
      let counted = count_push r.src s in
      if leb progress (s.min_clock + s.staleness)
      then process_push r.kv_id (entry r) counted
      else ok (
        record counted {
          blocked_pushes =
              push_at expected_min_clock (entry r)
                (grow (suc expected_min_clock) [] s.blocked_pushes);
        },
        [],
      )

  unfoldable pub controlled_pull : Request Bin → State → Outcome
  controlled_pull r s =
      let progress = get_or s.worker_progress r.src 0 in
      let expected_min_clock = progress - s.staleness in
      if leb progress (s.min_clock + s.staleness)
      then (answer_pull h r.kv_id (plain_cmd r.cmd) (reply_clock r.cmd s.min_clock) (entry r)
            s.store
          >>= λ rs. ok (s, rs))
      else ok (
        record s {
          blocked_pulls =
              push_at expected_min_clock (entry r)
                (grow (suc expected_min_clock) [] s.blocked_pulls);
        },
        [],
      )

  -- InitForConsistencyControl: the first message of a round resets the clocks and the buffers.
  unfoldable pub reset : Request Bin → State → State
  reset r s = record s {
    num_workers = elim (next_num_workers r.bin) [ none ↦ s.num_workers | some n ↦ n ];
    min_clock = 0;
    clock_count = [];
    worker_progress = [];
    blocked_pushes = [];
    blocked_pulls = [];
  }

  unfoldable pub init_for_consistency_control : Request Bin → State → State × List (Reply Pairs)
  unfolding reset
  init_for_consistency_control r s =
      let first = if s.init_count == 0 then reset r s else s in
      let count = first.init_count + 1 in
      (
        record first { init_count = if count == first.num_workers then 0 else count },
        record {
          kv_id = r.kv_id;
          ts = r.ts;
          cmd = r.cmd;
          push = r.push;
          src = r.src;
          res = no_pairs;
          min_clock = none;
        }
            ∷ [],
      )

  unfoldable pub process : Request Bin → State → Outcome
  process r s =
      if r.cmd == init_cmd
      then ok (init_for_consistency_control r s)
      else if leb consistency_control_off_magic r.cmd
      then (uncontrolled h false r s.store >>= λ done. ok (record s { store = done.0 }, done.1))
      else let seen = record s { worker_progress = grow (suc r.src) 0 s.worker_progress } in
        if r.push then controlled_push r seen else controlled_pull r seen

  unfoldable pub start : (num_workers staleness : ℕ) → Store → State
  start num_workers staleness store = record {
    num_workers = num_workers;
    staleness = staleness;
    min_clock = 0;
    clock_count = [];
    worker_progress = grow num_workers 0 [];
    blocked_pushes = [];
    blocked_pulls = [];
    store = store;
    init_count = 0;
  }

  -- The constructor, with its assertion on the staleness.
  unfoldable pub new : (num_workers staleness : ℕ) → Store → Result State
  unfolding start
  new num_workers staleness store =
      if leb staleness 10 then ok (start num_workers staleness store) else err failed_assert
