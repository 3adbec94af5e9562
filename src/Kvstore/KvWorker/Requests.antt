-- ===== src/Kvstore/KvWorker/Requests.antt =====
-- The requests of kvstore/kvworker.hpp as the servers see them: how many replies they bring, and
-- that every command is one that a server knows.
use flexps_paper_version.Common.{
  ℕ, suc, ◌+◌, ◌-◌, ◌%◌, ◌≤◌, ◌<◌, ◌≡◌, ◌⊎◌, refl, ap₂, inl, inr, Bool, true, false, not, ◌&&◌,
  ◌||◌, List, [], ◌∷◌, ◌++◌, arith, get_or, get_or-set-grow, length-append, length, ==_refl,
  if◌then◌else◌, All, Bool-cases, grow,
}
use flexps_paper_version.Kvstore.Ranges.{Range}
use flexps_paper_version.Kvstore.Messages.{consistency_control_off_magic}
use flexps_paper_version.Kvstore.Handles.{KvPairs}
use flexps_paper_version.Kvstore.KvWorker.{
  PsInfo, Options, Slice, slice, Tracker, new_request, wait_num, get_timestamp, Payload, no_payload,
  pairs, chunks, num_workers, Message, send_cmd, send_payload, is_local, send_from, zpush, pull,
}

-- A server answers a message that has a payload.
abbrev pub answered : {Val : Type 0} → Payload Val → ℕ
answered no_payload = 0
answered (pairs kvs) = 1
answered (chunks ids cs) = 1
answered (num_workers n) = 1

abbrev pub replies : {Val : Type 0} → List (Message Val) → ℕ
replies [] = 0
replies (m ∷ ms) = answered m.payload + replies ms

-- A command that every server knows, under its consistency control or without.
abbrev pub IsKnown : ℕ → Type 0
IsKnown cmd =
    (cmd < 4) ⊎ ((consistency_control_off_magic ≤ cmd) × (cmd % consistency_control_off_magic < 4))

flag : Bool → ℕ
flag b = if b then 1 else 0

unasked : (a b : Bool) → (not a && not b) ≡ true → flag b ≡ 0
unfolding flag
unasked true b e = cc
unasked false true e = cc
unasked false false e = refl

send_cmd-IsKnown : (here control : Bool) → IsKnown (send_cmd here control)
unfolding send_cmd
send_cmd-IsKnown true true = inl (omega arith)
send_cmd-IsKnown false true = inl (omega arith)
send_cmd-IsKnown true false = inr (omega arith, omega arith)
send_cmd-IsKnown false false = inr (omega arith, omega arith)

module _ {Val : Type 0} (info : PsInfo) (o : Options) (kv_id ts : ℕ) (push : Bool) where
  answered-send_payload :
      (here : Bool) (s : Slice Val)
      → answered (send_payload here push s) ≡ (if s.some_keys then 1 else 0)
  unfolding send_payload
  answered-send_payload here s = elim (Bool-cases s.some_keys) [
    | inl some ↦ elim (Bool-cases (here || push)) [
      | inl full ↦ rw (some, full) refl
      | inr keys ↦ rw (some, keys) refl
    ]
    | inr none ↦ rw none refl
  ]

  replies-send_from :
      (i : ℕ) (ss : List (Slice Val))
      → (replies (send_from info o kv_id ts push i ss) ≡ wait_num ss)
        × All (λ m. IsKnown m.cmd) (send_from info o kv_id ts push i ss)
  unfolding send_from wait_num flag
  replies-send_from i [] = (refl, tt)
  replies-send_from i (s ∷ ss) =
      let (count, known) = replies-send_from (suc i) ss in
      let here = is_local info o i in
      elim (Bool-cases (not o.send_all && not s.some_keys)) [
        | inl skipped ↦
            rw skipped (omega (arith, count, unasked o.send_all s.some_keys skipped), known)
        | inr sent ↦ rw sent (
          ap₂ (◌+◌) (answered-send_payload here s) count,
          (send_cmd-IsKnown here o.consistency_control, known),
        )
      ]

get_or-append : {A : Type 0} (xs : List A) (x d : A) → get_or (xs ++ x ∷ []) (length xs) d ≡ x
get_or-append [] x d = refl
get_or-append (y ∷ ys) x d = get_or-append ys x d

-- What the tracker holds of a request.
abbrev pub entry_of : (kv_id ts : ℕ) → Tracker → ℕ × ℕ
entry_of kv_id ts tracker = get_or (get_or tracker kv_id []) ts (0, 0)

new_request-entry_of :
    (kv_id n : ℕ) (tracker : Tracker)
    → entry_of kv_id (new_request kv_id n tracker).1 (new_request kv_id n tracker).0 ≡ (n, 0)
unfolding new_request
new_request-entry_of kv_id n tracker =
    let old = get_or (grow (suc kv_id) [] tracker) kv_id [] in
    let ts : length (old ++ (n, 0) ∷ []) - 1 ≡ length old =
      omega (arith, length-append old ((n, 0) ∷ [])) in
    rw (get_or-set-grow kv_id kv_id (old ++ (n, 0) ∷ []) [] tracker, ==_refl kv_id, ts)
      (get_or-append old (n, 0) (0, 0))

-- A request registers as many replies as its messages bring.
abbrev pub Expects : {Val : Type 0} → ℕ → Tracker × ℕ × List (Message Val) → Type 0
Expects kv_id (tracker, ts, messages) =
    (entry_of kv_id ts tracker ≡ (replies messages, 0)) × All (λ m. IsKnown m.cmd) messages

-- A push registers as many replies as its messages bring, none of which has come, and every
-- message has a command that a server knows.
pub zpush-Expects :
    {Val : Type 0} (info : PsInfo) (o : Options) (kv_id : ℕ) (ranges : List Range)
    (kvs : KvPairs Val) (tracker : Tracker)
    → Expects kv_id (zpush info o kv_id ranges kvs tracker)
unfolding zpush get_timestamp
zpush-Expects info o kv_id ranges kvs tracker =
    let (count, known) =
      replies-send_from info o kv_id (new_request kv_id (wait_num (slice kvs ranges)) tracker).1
        true 0 (slice kvs ranges) in
    (rw count (new_request-entry_of kv_id (wait_num (slice kvs ranges)) tracker), known)

-- A pull registers as many replies as its messages bring, none of which has come, and every
-- message has a command that a server knows.
pub pull-Expects :
    (Val : Type 0) (info : PsInfo) (o : Options) (kv_id : ℕ) (ranges : List Range) (keys : List ℕ)
    (tracker : Tracker)
    → Expects kv_id (pull {Val = Val} info o kv_id ranges keys tracker)
unfolding pull get_timestamp
pull-Expects Val info o kv_id ranges keys tracker =
    let ss : List (Slice Val) = slice (record { keys = keys; vals = [] }) ranges in
    let (count, known) =
      replies-send_from info o kv_id (new_request kv_id (wait_num ss) tracker).1 false 0 ss in
    (rw count (new_request-entry_of kv_id (wait_num ss) tracker), known)
