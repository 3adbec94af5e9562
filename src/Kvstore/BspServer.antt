-- ===== src/Kvstore/BspServer.antt =====
-- kvstore/handles/bsp_server.hpp: the server side of bulk synchronous parallel. Workers alternate
-- pulls and pushes; `reply_phase` tells which of the two the server takes now.
pub mod Turns
pub mod Validity
pub mod Pushes
pub mod Pulls
pub mod Reset
pub mod Invariant
pub mod Barrier
use flexps_paper_version.Common.{
  ℕ, suc, ◌+◌, Bool, true, false, not, ◌||◌, Option, none, some, List, [], ◌∷◌, ◌++◌, Result, ok,
  ◌>>=◌, leb, ltb, ◌==◌, if◌then◌else◌, length, get_or, set, read, grow, add_at, push_at,
}
use flexps_paper_version.Kvstore.Messages.{
  Handle, Request, Entry, Reply, init_cmd, consistency_control_off_magic, answer_push, answer_pull,
  uncontrolled,
}

pub record BspServer (Bin Store : Type 0) : Type 0 where
  pub num_workers : ℕ
  pub push_iter : ℕ
  pub push_count : List ℕ
  pub push_progress : List ℕ
  pub blocked_pushes : List (List (Entry Bin))
  pub pull_iter : ℕ
  pub pull_count : List ℕ
  pub pull_progress : List ℕ
  pub blocked_pulls : List (List (Entry Bin))
  pub init_reply_phase : Bool
  pub reply_phase : Bool
  pub is_assign : Bool
  pub store : Store
  pub init_count : ℕ

module _ (h : Handle) where
  open h use {Bin, Store, Pairs, next_num_workers, no_pairs}

  abbrev pub State : Type 0
  State = BspServer Bin Store

  abbrev pub Outcome : Type 0
  Outcome = Result (State × List (Reply Pairs))

  unfoldable pub entry : Request Bin → Entry Bin
  entry r = record { cmd = r.cmd; src = r.src; ts = r.ts; bin = r.bin }

  -- The loop over `blocked_pushes_[push_iter_]`.
  unfoldable pub release_pushes :
      ℕ → Bool → List (Entry Bin) → Store → Result (Store × List (Reply Pairs))
  release_pushes kv_id is_assign [] store = ok (store, [])
  release_pushes kv_id is_assign (e ∷ es) store = answer_push h kv_id is_assign e store >>= λ first.
      release_pushes kv_id is_assign es first.0 >>= λ rest. ok (rest.0, first.1 ++ rest.1)

  -- The loop over `blocked_pulls_[pull_iter_]`.
  unfoldable pub release_pulls : ℕ → List (Entry Bin) → Store → Result (List (Reply Pairs))
  release_pulls kv_id [] store = ok []
  release_pulls kv_id (e ∷ es) store = answer_pull h kv_id e.cmd none e store >>= λ first.
      release_pulls kv_id es store >>= λ rest. ok (first ++ rest)

  -- All pushes of the iteration are in: answer the buffered pulls, and take pulls from now on. A
  -- bucket that does not exist is an empty one.
  unfoldable pub finish_pushes : ℕ → State → Outcome
  finish_pushes kv_id s =
      release_pulls kv_id (get_or s.blocked_pulls s.pull_iter []) s.store >>= λ released. ok (
        record s {
          blocked_pulls =
              if ltb s.pull_iter (length s.blocked_pulls)
              then set s.blocked_pulls s.pull_iter []
              else s.blocked_pulls;
          reply_phase = true;
          push_iter = suc s.push_iter;
        },
        released,
      )

  -- All pulls of the iteration are in: apply the buffered pushes, and take pushes from now on.
  unfoldable pub finish_pulls : ℕ → State → Outcome
  finish_pulls kv_id s =
      release_pushes kv_id s.is_assign (get_or s.blocked_pushes s.push_iter []) s.store
      >>= λ released. ok (
        record s {
          blocked_pushes =
              if ltb s.push_iter (length s.blocked_pushes)
              then set s.blocked_pushes s.push_iter []
              else s.blocked_pushes;
          store = released.0;
          reply_phase = false;
          pull_iter = suc s.pull_iter;
        },
        released.1,
      )

  unfoldable pub count_push : ℕ → State → State
  count_push src s =
      let seen = grow (suc src) 0 s.push_progress in
      let progress = get_or seen src 0 in
      record s {
        push_count = add_at progress (grow (suc progress) 0 s.push_count);
        push_progress = add_at src seen;
      }

  unfoldable pub count_pull : ℕ → State → State
  count_pull src s =
      let seen = grow (suc src) 0 s.pull_progress in
      let progress = get_or seen src 0 in
      record s {
        pull_count = add_at progress (grow (suc progress) 0 s.pull_count);
        pull_progress = add_at src seen;
      }

  unfoldable pub controlled_push : Request Bin → State → Outcome
  controlled_push r s =
      let progress = get_or (grow (suc r.src) 0 s.push_progress) r.src 0 in
      let counted = count_push r.src s in
      if s.reply_phase || not (s.push_iter == progress)
      then ok (
        record counted {
          blocked_pushes = push_at progress (entry r) (grow (suc progress) [] s.blocked_pushes);
        },
        [],
      )
      else (answer_push h r.kv_id s.is_assign (entry r) s.store >>= λ answered.
          let s' : State = record counted { store = answered.0 } in
          read s'.push_count s'.push_iter >>= λ count.
          let later = finish_pushes r.kv_id s' in
          if count == s'.num_workers
          then (later >>= λ released. ok (released.0, answered.1 ++ released.1))
          else ok (s', answered.1))

  unfoldable pub controlled_pull : Request Bin → State → Outcome
  controlled_pull r s =
      let progress = get_or (grow (suc r.src) 0 s.pull_progress) r.src 0 in
      let counted = count_pull r.src s in
      if not s.reply_phase || not (s.pull_iter == progress)
      then ok (
        record counted {
          blocked_pulls = push_at progress (entry r) (grow (suc progress) [] s.blocked_pulls);
        },
        [],
      )
      else (answer_pull h r.kv_id r.cmd none (entry r) s.store >>= λ answered.
          read counted.pull_count counted.pull_iter >>= λ count.
          let later = finish_pulls r.kv_id counted in
          if count == counted.num_workers
          then (later >>= λ released. ok (released.0, answered ++ released.1))
          else ok (counted, answered))

  unfoldable pub reset : Request Bin → State → State
  reset r s = record s {
    num_workers = elim (next_num_workers r.bin) [ none ↦ s.num_workers | some n ↦ n ];
    push_iter = 0;
    pull_iter = 0;
    push_count = [];
    pull_count = [];
    push_progress = [];
    pull_progress = [];
    blocked_pulls = [];
    blocked_pushes = [];
    reply_phase = s.init_reply_phase;
  }

  unfoldable pub init_for_consistency_control : Request Bin → State → State × List (Reply Pairs)
  unfolding reset
  init_for_consistency_control r s =
      let first = if s.init_count == 0 then reset r s else s in
      let count = first.init_count + 1 in
      (
        record first { init_count = if count == first.num_workers then 0 else count },
        record {
          kv_id = r.kv_id;
          ts = r.ts;
          cmd = r.cmd;
          push = r.push;
          src = r.src;
          res = no_pairs;
          min_clock = none;
        }
            ∷ [],
      )

  unfoldable pub process : Request Bin → State → Outcome
  process r s =
      if r.cmd == init_cmd
      then ok (init_for_consistency_control r s)
      else if leb consistency_control_off_magic r.cmd
      then (uncontrolled h s.is_assign r s.store >>= λ done.
          ok (record s { store = done.0 }, done.1))
      else if r.push
      then controlled_push r s
      else controlled_pull r s

  -- The constructor: `reply_phase_` starts as true, whatever `init_reply_phase_` is.
  unfoldable pub new : (num_workers : ℕ) → (is_assign init_reply_phase : Bool) → Store → State
  new num_workers is_assign init_reply_phase store = record {
    num_workers = num_workers;
    push_iter = 0;
    push_count = [];
    push_progress = [];
    blocked_pushes = [];
    pull_iter = 0;
    pull_count = [];
    pull_progress = [];
    blocked_pulls = [];
    init_reply_phase = init_reply_phase;
    reply_phase = true;
    is_assign = is_assign;
    store = store;
    init_count = 0;
  }
