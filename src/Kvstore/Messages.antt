-- ===== src/Kvstore/Messages.antt =====
-- What the servers of kvstore/handles/ share: a request as `Process` reads it off the stream, the
-- reply that `Response` sends (handles/basic_server.hpp), a buffered request, and the interface
-- through which a server reaches its store, `update` and `retrieve` of handles/basic.hpp.
-- A stream is what is left of it behind `cmd`, `push` and `src`.
use flexps_paper_version.Common.{
  ℕ, ◌<◌, ◌≡◌, Bool, false, true, Option, none, Result, ok, ◌%◌, ◌==◌, if◌then◌else◌, List, [], ◌∷◌,
  ◌>>=◌,
}

pub record Request (Bin : Type 0) : Type 0 where
  pub kv_id : ℕ
  pub ts : ℕ
  pub cmd : ℕ
  pub push : Bool
  pub src : ℕ
  pub bin : Bin

-- The tuple <cmd, src, ts, bin> of `blocked_pushes_` and `blocked_pulls_`.
pub record Entry (Bin : Type 0) : Type 0 where
  pub cmd : ℕ
  pub src : ℕ
  pub ts : ℕ
  pub bin : Bin

-- `min_clock` is `none` where the source passes -1.
pub record Reply (Pairs : Type 0) : Type 0 where
  pub kv_id : ℕ
  pub ts : ℕ
  pub cmd : ℕ
  pub push : Bool
  pub src : ℕ
  pub res : Pairs
  pub min_clock : Option ℕ

abbrev pub init_cmd : ℕ
init_cmd = 4

abbrev pub consistency_control_off_magic : ℕ
consistency_control_off_magic = 100

abbrev pub with_min_clock_magic : ℕ
with_min_clock_magic = 10

-- A store behind `update` and `retrieve`. Both know the commands 0 to 3 and throw on any other; a
-- push whose payload is complete (`IsComplete`) is applied, and a pull whose payload is readable
-- (`IsReadable`) is answered: the store has a place for each of its keys.
-- `next_num_workers` reads the payload of an init message, where -1 is `none`.
pub record Handle : Type 1 where
  pub Bin : Type 0
  pub Store : Type 0
  pub Pairs : Type 0
  pub size : Bin → ℕ
  pub IsComplete : Bin → Type 0
  pub IsReadable : Bin → Type 0
  pub no_pairs : Pairs
  pub next_num_workers : Bin → Option ℕ
  pub update : (kv_id cmd : ℕ) → (is_assign : Bool) → Bin → Store → Result Store
  pub retrieve : (kv_id cmd : ℕ) → Bin → Store → Result Pairs
  pub update_total :
      (kv_id cmd : ℕ) (is_assign : Bool) (bin : Bin) (store : Store)
      → cmd < 4
      → IsComplete bin
      → (store' : Store) × (update kv_id cmd is_assign bin store ≡ ok store')
  pub retrieve_total :
      (kv_id cmd : ℕ) (bin : Bin) (store : Store)
      → cmd < 4
      → IsReadable bin
      → (res : Pairs) × (retrieve kv_id cmd bin store ≡ ok res)

module _ (h : Handle) where
  open h use {Bin, Store, Pairs, size, no_pairs, update, retrieve}

  -- `if (bin.size()) { update(...); Response(...); }`: an empty push is counted, not answered.
  unfoldable pub answer_push :
      (kv_id : ℕ) (is_assign : Bool) → Entry Bin → Store → Result (Store × List (Reply Pairs))
  answer_push kv_id is_assign e store =
      if size e.bin == 0
      then ok (store, [])
      else (update kv_id e.cmd is_assign e.bin store >>= λ store'. ok (
        store',
        record {
          kv_id = kv_id;
          ts = e.ts;
          cmd = e.cmd;
          push = true;
          src = e.src;
          res = no_pairs;
          min_clock = none;
        }
            ∷ [],
      ))

  -- `if (bin.size()) { res = retrieve(...); Response(...); }`. `asked` is the command handed to
  -- `retrieve`, and `clock` the minimal clock that goes into the reply.
  unfoldable pub answer_pull :
      (kv_id asked : ℕ) → (clock : Option ℕ) → Entry Bin → Store → Result (List (Reply Pairs))
  answer_pull kv_id asked clock e store =
      if size e.bin == 0
      then ok []
      else (retrieve kv_id asked e.bin store >>= λ res. ok (
          record {
            kv_id = kv_id;
            ts = e.ts;
            cmd = e.cmd;
            push = false;
            src = e.src;
            res = res;
            min_clock = clock;
          }
          ∷ []))

  -- Requests that bypass consistency control: cmd >= 100.
  unfoldable pub uncontrolled : Bool → Request Bin → Store → Result (Store × List (Reply Pairs))
  unfolding answer_push answer_pull
  uncontrolled is_assign r store =
      let cmd = r.cmd % consistency_control_off_magic in
      let e : Entry Bin = record { cmd = cmd; src = r.src; ts = r.ts; bin = r.bin } in
      if r.push
      then answer_push r.kv_id is_assign e store
      else (answer_pull r.kv_id cmd none e store >>= λ rs. ok (store, rs))
