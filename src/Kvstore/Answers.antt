-- ===== src/Kvstore/Answers.antt =====
-- When the helpers of the servers (kvstore/handles/) succeed: on requests whose command the store
-- knows.
use flexps_paper_version.Common.{
  ℕ, ◌%◌, ◌<◌, ◌≡◌, refl, ◌≢◌, List, [], ◌∷◌, ◌++◌, inl, inr, Bool, true, false, Option, none,
  Result, ok, arith, Bool-cases, ◌==◌,
}
use flexps_paper_version.Kvstore.Messages.{
  Handle, Request, Entry, Reply, consistency_control_off_magic, answer_push, answer_pull,
  uncontrolled,
}

abbrev pub Ok {ℓ} : {A : Type ℓ} → Result A → Type ℓ
Ok {A} m = (a : A) × (m ≡ ok a)

pub append-some : {A : Type 0} (xs ys : List A) → xs ≢ [] → xs ++ ys ≢ []
append-some [] ys h = absurd (h refl)
append-some (x ∷ xs) ys h = λ e. cc

module _ (h : Handle) where
  open h use {Bin, Store, Pairs}

  -- A push that the store can apply.
  abbrev pub IsPush : Entry Bin → Type 0
  IsPush e = (e.cmd < 4) × h.IsComplete e.bin

  pub answer_push_total :
      (kv_id : ℕ) (b : Bool) (e : Entry Bin) (store : Store)
      → IsPush e
      → Ok (answer_push h kv_id b e store)
  unfolding answer_push
  answer_push_total kv_id b e store known =
      let (store', done) = h.update_total kv_id e.cmd b e.bin store known.0 known.1 in
      elim (Bool-cases (h.size e.bin == 0)) [
        | inl none_left ↦ rw none_left (_, refl)
        | inr some_left ↦ rw (some_left, done) (_, refl)
      ]

  pub answer_pull_total :
      (kv_id asked : ℕ) (clock : Option ℕ) (e : Entry Bin) (store : Store)
      → (asked < 4) × h.IsReadable e.bin
      → Ok (answer_pull h kv_id asked clock e store)
  unfolding answer_pull
  answer_pull_total kv_id asked clock e store known =
      let (res, done) = h.retrieve_total kv_id asked e.bin store known.0 known.1 in
      elim (Bool-cases (h.size e.bin == 0)) [
        | inl none_left ↦ rw none_left (_, refl)
        | inr some_left ↦ rw (some_left, done) (_, refl)
      ]

  -- A request that bypasses the consistency control, and that the store can serve.
  pub data IsPlain (r : Request Bin) : Type 0 where
    plain_push : r.push ≡ true → h.IsComplete r.bin → IsPlain r
    plain_pull : r.push ≡ false → h.IsReadable r.bin → IsPlain r

  pub uncontrolled_total :
      (b : Bool) (r : Request Bin) (store : Store)
      → r.cmd % consistency_control_off_magic < 4
      → IsPlain r
      → Ok (uncontrolled h b r store)
  unfolding uncontrolled
  uncontrolled_total b r store known (plain_push is_push complete) =
      let cmd = r.cmd % consistency_control_off_magic in
      let e : Entry Bin = record { cmd = cmd; src = r.src; ts = r.ts; bin = r.bin } in
      let (pushed, done) = answer_push_total r.kv_id b e store (known, complete) in
      rw (is_push, done) (_, refl)
  uncontrolled_total b r store known (plain_pull is_pull readable) =
      let cmd = r.cmd % consistency_control_off_magic in
      let e : Entry Bin = record { cmd = cmd; src = r.src; ts = r.ts; bin = r.bin } in
      let (pulled, done) = answer_pull_total r.kv_id cmd none e store (known, readable) in
      rw (is_pull, done) (_, refl)

  -- A request with a payload is answered.
  pub answer_push-some :
      (kv_id : ℕ) (b : Bool) (e : Entry Bin) (store : Store) (o : Store × List (Reply Pairs))
      → h.size e.bin ≢ 0
      → answer_push h kv_id b e store ≡ ok o
      → o.1 ≢ []
  unfolding answer_push
  answer_push-some kv_id b e store o full done empty = ground arith

  pub answer_pull-some :
      (kv_id asked : ℕ) (clock : Option ℕ) (e : Entry Bin) (store : Store) (rs : List (Reply Pairs))
      → h.size e.bin ≢ 0
      → answer_pull h kv_id asked clock e store ≡ ok rs
      → rs ≢ []
  unfolding answer_pull
  answer_pull-some kv_id asked clock e store rs full done empty = ground arith
