-- ===== src/Ml/PsWorker/Turns.antt =====
-- ml/mlworker/ps.hpp: the order of calls that PSWorker lets through.
use flexps_paper_version.Common.{
  ℕ, ◌+◌, ◌≡◌, ◌↔◌, refl, inl, inr, Bool, true, false, not, List, [], ◌∷◌, ◌++◌, Result, ok, err,
  failed_assert, arith, ◌>>=◌, >>=-eq-ok, ◌==◌, if◌then◌else◌, length, Bool-cases, eq→==,
  ne→==_false,
}
use flexps_paper_version.Ml.PsWorker.{
  PsWorker, PsCall, push_keys, pull_keys, push_whole_chunks, pull_whole_chunks, wait_last,
  Consistency, start_worker, push_waiting, pull_waiting, push_chunks_waiting, pull_chunks_waiting,
}

pub data Operation (Val : Type 0) : Type 0 where
  push_op : List ℕ → List Val → Operation Val
  pull_op : List ℕ → Operation Val
  push_chunks_op : List ℕ → List (List Val) → Operation Val
  pull_chunks_op : List ℕ → ℕ → Operation Val

module _ {Val : Type 0} (serve : ℕ → List ℕ → List Val)
    (serve_chunks : ℕ → List ℕ → List (List Val)) where
  unfoldable pub run_operation : Operation Val → PsWorker → Result (List (PsCall Val) × PsWorker)
  unfolding push_waiting pull_waiting push_chunks_waiting pull_chunks_waiting
  run_operation (push_op keys vals) w = push_waiting keys vals w
  run_operation (pull_op keys) w = pull_waiting serve keys w >>= λ r. ok (r.1, r.2)
  run_operation (push_chunks_op cs chunk_vals) w = push_chunks_waiting cs chunk_vals w
  run_operation (pull_chunks_op cs places) w =
      pull_chunks_waiting serve_chunks cs places w >>= λ r. ok (r.1, r.2)

  unfoldable pub run_operations :
      List (Operation Val) → PsWorker → Result (List (PsCall Val) × PsWorker)
  unfolding run_operation
  run_operations [] w = ok ([], w)
  run_operations (op ∷ ops) w =
      run_operation op w >>= λ r. run_operations ops r.1 >>= λ rest. ok (r.0 ++ rest.0, rest.1)

  -- A pull is due, or else a push.
  unfoldable pub takes_turn : Bool → Operation Val → Bool
  takes_turn pull_due (push_op keys vals) = not pull_due
  takes_turn pull_due (pull_op keys) = pull_due
  takes_turn pull_due (push_chunks_op cs chunk_vals) =
      if length cs == length chunk_vals then not pull_due else false
  takes_turn pull_due (pull_chunks_op cs places) = if length cs == places then pull_due else false

  abbrev pub TakeTurns : Bool → List (Operation Val) → Type 0
  TakeTurns pull_due [] = Unit
  TakeTurns pull_due (op ∷ ops) = (takes_turn pull_due op ≡ true) × TakeTurns (not pull_due) ops

  abbrev IsDue : Bool → PsWorker → Type 0
  IsDue true w = w.push_count ≡ w.pull_count
  IsDue false w = w.push_count + 1 ≡ w.pull_count

  abbrev pushed : PsWorker → PsWorker
  pushed w = record w { push_count = w.push_count + 1; has_request = true }

  abbrev pulled : PsWorker → PsWorker
  pulled w = record w { pull_count = w.pull_count + 1; has_request = true }

  operation-turn :
      (pull_due : Bool) (op : Operation Val) (w : PsWorker)
      → IsDue pull_due w
      → takes_turn pull_due op ≡ true
      → (r : List (PsCall Val) × PsWorker) × (run_operation op w ≡ ok r) × IsDue (not pull_due) r.1
  unfolding run_operation takes_turn push_waiting pull_waiting push_chunks_waiting
      pull_chunks_waiting
  operation-turn true (push_op keys vals) w due turn = cc
  operation-turn false (push_op keys vals) w due turn =
      ((push_keys w.send_all keys vals ∷ wait_last ∷ [], pushed w), rw (eq→== _ _ due) refl, due)
  operation-turn true (pull_op keys) w due turn = (
    (
      (if w.has_request then wait_last ∷ [] else []) ++ pull_keys w.send_all keys ∷ wait_last ∷ [],
      pulled w,
    ),
    rw (eq→== _ _ due) refl,
    omega (arith, due),
  )
  operation-turn false (pull_op keys) w due turn = cc
  operation-turn true (push_chunks_op cs chunk_vals) w due turn = ground (arith, turn)
  operation-turn false (push_chunks_op cs chunk_vals) w due turn =
      let same : (length cs == length chunk_vals) ≡ true = ground (arith, turn) in
      (
        (push_whole_chunks true cs chunk_vals ∷ wait_last ∷ [], pushed w),
        rw (eq→== _ _ due) (rw same refl),
        due,
      )
  operation-turn true (pull_chunks_op cs places) w due turn =
      let same : (length cs == places) ≡ true = ground (arith, turn) in
      (
        (pull_whole_chunks true cs ∷ wait_last ∷ [], pulled w),
        rw (eq→== _ _ due) (rw same refl),
        omega (arith, due),
      )
  operation-turn false (pull_chunks_op cs places) w due turn = ground (arith, turn)

  operation_out_of_turn :
      (pull_due : Bool) (op : Operation Val) (w : PsWorker)
      → IsDue pull_due w
      → takes_turn pull_due op ≡ false
      → run_operation op w ≡ err failed_assert
  unfolding run_operation takes_turn push_waiting pull_waiting push_chunks_waiting
      pull_chunks_waiting
  operation_out_of_turn true (push_op keys vals) w due turn = ground (arith, due)
  operation_out_of_turn false (push_op keys vals) w due turn = cc
  operation_out_of_turn true (pull_op keys) w due turn = cc
  operation_out_of_turn false (pull_op keys) w due turn =
      rw (ne→==_false w.push_count w.pull_count (omega (arith, due))) refl
  operation_out_of_turn true (push_chunks_op cs chunk_vals) w due turn =
      rw (ne→==_false (w.push_count + 1) w.pull_count (omega (arith, due))) refl
  operation_out_of_turn false (push_chunks_op cs chunk_vals) w due turn =
      rw (eq→== _ _ due)
        (elim (Bool-cases (length cs == length chunk_vals)) [ inl e ↦ cc | inr e ↦ rw e refl ])
  operation_out_of_turn true (pull_chunks_op cs places) w due turn =
      rw (eq→== _ _ due)
        (elim (Bool-cases (length cs == places)) [ inl e ↦ cc | inr e ↦ rw e refl ])
  operation_out_of_turn false (pull_chunks_op cs places) w due turn =
      rw (ne→==_false w.push_count w.pull_count (omega (arith, due))) refl

  run-turns :
      (pull_due : Bool) (ops : List (Operation Val)) (w : PsWorker)
      → IsDue pull_due w
      → TakeTurns pull_due ops
      → (r : List (PsCall Val) × PsWorker) × (run_operations ops w ≡ ok r)
  unfolding run_operations
  run-turns pull_due [] w due turns = (([], w), refl)
  run-turns pull_due (op ∷ ops) w due turns =
      let one = operation-turn pull_due op w due turns.0 in
      let rest = run-turns (not pull_due) ops one.0.1 one.2 turns.1 in
      ((one.0.0 ++ rest.0.0, rest.0.1), rw (one.1) (rw (rest.1) refl))

  turns-run :
      (pull_due : Bool) (ops : List (Operation Val)) (w : PsWorker)
      (r : List (PsCall Val) × PsWorker)
      → IsDue pull_due w
      → run_operations ops w ≡ ok r
      → TakeTurns pull_due ops
  unfolding run_operations
  turns-run pull_due [] w r due done = tt
  turns-run pull_due (op ∷ ops) w r due done = elim (Bool-cases (takes_turn pull_due op)) [
    | inl e ↦
        let one = operation-turn pull_due op w due e in
        let rest = >>=-eq-ok (run_operations ops one.0.1) _ (rw (one.1) at done) in
        (e, turns-run (not pull_due) ops one.0.1 rest.0 one.2 rest.1)
    | inr e ↦ absurd (failed (rw (operation_out_of_turn pull_due op w due e) at done))
  ]
    where
      failed : err failed_assert ≡ ok r → ⊥
      failed e = cc

  -- From the start, PSWorker runs a sequence of calls without a failed assertion exactly when
  -- pulls and pushes alternate, a pull first, and every call by chunks has as many chunks as ids.
  pub run_operations_iff :
      (c : Consistency) (ops : List (Operation Val))
      → ((r : List (PsCall Val) × PsWorker) × (run_operations ops (start_worker c) ≡ ok r))
        ↔ TakeTurns true ops
  unfolding start_worker
  run_operations_iff c ops = (
    λ done. turns-run true ops (start_worker c) done.0 refl done.1,
    λ turns. run-turns true ops (start_worker c) refl turns,
  )
