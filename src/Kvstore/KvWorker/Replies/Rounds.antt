-- ===== src/Kvstore/KvWorker/Replies/Rounds.antt =====
-- kvstore/workercustomer.cpp and kvworker.hpp: the rounds of `Receiving` for the replies to one pull,
-- from the first, which only is kept, to the last, which runs the callback.
use flexps_paper_version.Common.{
  ℕ, zero, suc, ◌+◌, ◌%◌, ◌<◌, ◌≡◌, refl, sym, ap, inl, inr, Bool, true, false, ◌&&◌, ◌||◌, Option,
  none, some, List, [], ◌∷◌, ◌++◌, map, Result, ok, read, arith, ◌==◌, ==_refl, if◌then◌else◌,
  length, set, Bool-cases, All, ne→==_false, eq→==,
}
use mathlib.Core.List.{append_assoc}
use flexps_paper_version.Common.Members.{has}
use flexps_paper_version.Kvstore.Messages.{Reply, consistency_control_off_magic}
use flexps_paper_version.Kvstore.Handles.{KvPairs}
use flexps_paper_version.Kvstore.KvWorker.{Tracker, count_reply, is_complete}
use flexps_paper_version.Kvstore.KvWorker.Replies.{
  Requests, lookup, forget, enter, Received, fill_vals, to_vals, deliver, Delivery, some_vals,
  KvWorker, kept, run_callback, read_reply, process_reply, receive, receive_all,
}

module _ {V : Type 0} where
  pub lookup-enter :
      (kv_id ts : ℕ) (v : V) (m : Requests V) → lookup kv_id ts (enter kv_id ts v m) ≡ some v
  unfolding lookup enter
  lookup-enter kv_id ts v m = rw (==_refl kv_id, ==_refl ts) refl

  pub lookup-forget : (kv_id ts : ℕ) (m : Requests V) → lookup kv_id ts (forget kv_id ts m) ≡ none
  unfolding lookup forget
  lookup-forget kv_id ts [] = refl
  lookup-forget kv_id ts (((i, t), v) ∷ m) = elim (Bool-cases (kv_id == i && ts == t)) [
    | inl same ↦ rw same (lookup-forget kv_id ts m)
    | inr other ↦ rw other (rw other (lookup-forget kv_id ts m))
  ]

pub read-set :
    {A : Type 0} (xs : List A) (i : ℕ) (a v : A) → read xs i ≡ ok a → read (set xs i v) i ≡ ok v
read-set [] i a v e = cc
read-set (x ∷ xs) zero a v e = refl
read-set (x ∷ xs) (suc i) a v e = read-set xs i a v e

module _ {Val : Type 0} where
  -- Of `n` replies to a pull, `c` have come: `before`, in this order.
  pub record Waits (kv_id ts n c : ℕ) (before : List (Received Val)) (w : KvWorker Val)
      : Type 0 where
    pub known : has kv_id w.process_map ≡ true
    pub rows : List (ℕ × ℕ)
    pub has_rows : read w.tracker kv_id ≡ ok rows
    pub counted : read rows ts ≡ ok (n, c)
    pub keeps : kept (lookup kv_id ts w.recv_kvs) ≡ before
    pub calls : lookup kv_id ts w.callbacks ≡ some to_vals

  -- A server's reply to a pull by keys: of this request, with some keys, and without a clock.
  pub record IsAnswer (kv_id ts : ℕ) (r : Reply (KvPairs Val)) : Type 0 where
    pub same_kv : r.kv_id ≡ kv_id
    pub same_ts : r.ts ≡ ts
    pub is_pull : r.push ≡ false
    pub no_clock :
        (r.cmd % consistency_control_off_magic == 13 || r.cmd % consistency_control_off_magic == 11)
        ≡ false
    pub some_keys : (length r.res.keys == 0) ≡ false

  abbrev pub received : Reply (KvPairs Val) → Received Val
  received r = record { kvs = r.res; min_clock = none }

  -- The request has been answered, and nothing of it is left.
  pub record IsDone (kv_id ts : ℕ) (w : KvWorker Val) : Type 0 where
    pub complete : is_complete kv_id ts w.tracker ≡ ok true
    pub no_replies : lookup kv_id ts w.recv_kvs ≡ none
    pub no_callback : lookup kv_id ts w.callbacks ≡ none

module _ {Val : Type 0} (kv_id ts n c : ℕ) (before : List (Received Val)) (w : KvWorker Val)
    (r : Reply (KvPairs Val)) (waits : Waits kv_id ts n c before w)
    (answer : IsAnswer kv_id ts r) where
  abbrev counts : Tracker
  counts = set w.tracker kv_id (set waits.rows ts (n, c + 1))

  count_reply-Waits : count_reply r.kv_id r.ts w.tracker ≡ ok ((c + 1 == n), counts)
  unfolding count_reply
  count_reply-Waits = rw (answer.same_kv, answer.same_ts, waits.has_rows, waits.counted) refl

  -- The worker after a reply is kept.
  abbrev next : KvWorker Val
  next = record w { recv_kvs = enter kv_id ts (before ++ received r ∷ []) w.recv_kvs }

  read_reply-IsAnswer : read_reply r ≡ ok (received r)
  unfolding read_reply
  read_reply-IsAnswer = rw answer.no_clock refl

  process-Waits :
      (run : Bool)
      → process_reply r run w ≡ (if run then run_callback kv_id ts next else ok (next, none))
  unfolding process_reply
  process-Waits run =
      rw (answer.same_kv, answer.same_ts, waits.known, answer.is_pull, read_reply-IsAnswer)
        (rw (waits.keeps, answer.some_keys) refl)

  -- A reply that is not the last is kept, and no callback runs.
  receive-Waits :
      c + 1 < n
      → (w' : KvWorker Val) × (receive r w ≡ ok (w', none))
        × Waits kv_id ts n (c + 1) (before ++ received r ∷ []) w'
  unfolding receive
  receive-Waits more = (
    record next { tracker = counts },
    rw (count_reply-Waits, ne→==_false (c + 1) n (omega arith), process-Waits false) refl,
    record {
      known = waits.known;
      rows = set waits.rows ts (n, c + 1);
      has_rows = read-set w.tracker kv_id waits.rows _ waits.has_rows;
      counted = read-set waits.rows ts (n, c) _ waits.counted;
      keeps = ap kept (lookup-enter kv_id ts (before ++ received r ∷ []) w.recv_kvs);
      calls = waits.calls;
    },
  )

  run_callback-Waits :
      run_callback kv_id ts next
      ≡ ok (
        record next {
          recv_kvs = forget kv_id ts next.recv_kvs;
          callbacks = forget kv_id ts w.callbacks;
        },
        some (some_vals (fill_vals (before ++ received r ∷ []))),
      )
  unfolding run_callback deliver
  run_callback-Waits =
      rw (run_callback, waits.calls, lookup-enter kv_id ts (before ++ received r ∷ []) w.recv_kvs)
        refl

  -- The last reply runs the callback on all of them.
  receive-IsDone :
      c + 1 ≡ n
      → (w' : KvWorker Val) × (receive r w
          ≡ ok (w', some (some_vals (fill_vals (before ++ received r ∷ [])))))
        × IsDone kv_id ts w'
  unfolding receive is_complete
  receive-IsDone last = (
    record next {
      tracker = counts;
      recv_kvs = forget kv_id ts next.recv_kvs;
      callbacks = forget kv_id ts w.callbacks;
    },
    rw (count_reply-Waits, eq→== (c + 1) n last, process-Waits true, run_callback-Waits) refl,
    record {
      complete =
          rw
            (
              read-set w.tracker kv_id waits.rows (set waits.rows ts (n, c + 1)) waits.has_rows,
              read-set waits.rows ts (n, c) (n, c + 1) waits.counted,
              eq→== n (c + 1) (sym last),
            )
            refl;
      no_replies = lookup-forget kv_id ts next.recv_kvs;
      no_callback = lookup-forget kv_id ts w.callbacks;
    },
  )

-- What the callbacks hand out: nothing until the last reply.
abbrev pub at_last : {A Val : Type 0} → Delivery Val → List A → List (Option (Delivery Val))
at_last d [] = []
at_last d (r ∷ []) = some d ∷ []
at_last d (r ∷ r' ∷ rs) = none ∷ at_last d (r' ∷ rs)

pub receive_all-IsDone :
    {Val : Type 0} (kv_id ts n c : ℕ) (before : List (Received Val)) (w : KvWorker Val)
    (r : Reply (KvPairs Val)) (rs : List (Reply (KvPairs Val)))
    → Waits kv_id ts n c before w
    → All (IsAnswer kv_id ts) (r ∷ rs)
    → c + length (r ∷ rs) ≡ n
    → (w' : KvWorker Val) × (receive_all (r ∷ rs) w
        ≡ ok (w', at_last (some_vals (fill_vals (before ++ map received (r ∷ rs)))) (r ∷ rs)))
      × IsDone kv_id ts w'
unfolding receive_all
receive_all-IsDone kv_id ts n c before w r [] waits answers count =
    let (w', e, done) = receive-IsDone kv_id ts n c before w r waits answers.0 (omega arith) in
    (w', rw e refl, done)
receive_all-IsDone {Val = Val} kv_id ts n c before w r (r' ∷ rs) waits answers count =
    let (w₁, e₁, waits₁) = receive-Waits kv_id ts n c before w r waits answers.0 (omega arith) in
    let (w₂, e₂, done) =
      receive_all-IsDone kv_id ts n (c + 1) (before ++ received r ∷ []) w₁ r' rs waits₁ answers.1
        (omega arith) in
    let order = append_assoc before (received r ∷ []) (map received (r' ∷ rs)) in
    let given : List (Received Val) → Result (KvWorker Val × List (Option (Delivery Val))) =
      λ kvs. ok (w₂, none ∷ at_last (some_vals (fill_vals kvs)) (r' ∷ rs)) in
    (w₂, rw e₁ (rw e₂ (ap given order)), done)
