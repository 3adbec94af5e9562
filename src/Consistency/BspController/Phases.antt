-- ===== src/Consistency/BspController/Phases.antt =====
-- The phases of ml/consistency/bsp_consistency_controller.hpp: pulls and pushes never overlap.
use flexps_paper_version.Common.{
  ℕ, zero, suc, ◌+◌, ◌≤◌, ◌<◌, ◌≡◌, ◌≢◌, ◌⊎◌, refl, ap, subst, sym, ◌∙◌, inl, inr, Bool, true,
  false, List, [], ◌∷◌, arith, ◌==◌, ==→eq, if◌then◌else◌, length, get_or, set, length-set,
  Bool-cases,
}
use flexps_paper_version.Common.Sums.{total, total-set}
use flexps_paper_version.Consistency.BspController.{
  init, may_push, after_push, may_pull, after_pull, Stage, idle, pulling, pulled, pushing, System,
  at, move, Step, before_pull, end_pull, before_push, end_push, idle_threads, first, Reachable,
  begin, next,
}

abbrev pub is_idle : Stage → ℕ
is_idle idle = 1
is_idle pulling = 0
is_idle pulled = 0
is_idle pushing = 0

abbrev pub is_pulling : Stage → ℕ
is_pulling idle = 0
is_pulling pulling = 1
is_pulling pulled = 0
is_pulling pushing = 0

abbrev pub is_pulled : Stage → ℕ
is_pulled idle = 0
is_pulled pulling = 0
is_pulled pulled = 1
is_pulled pushing = 0

abbrev pub is_pushing : Stage → ℕ
is_pushing idle = 0
is_pushing pulling = 0
is_pushing pulled = 0
is_pushing pushing = 1

pub total_all :
    (xs : List Stage)
    → total is_idle xs + total is_pulling xs + total is_pulled xs + total is_pushing xs ≡ length xs
unfolding total
total_all [] = omega arith
total_all (idle ∷ xs) = omega (arith, total_all xs)
total_all (pulling ∷ xs) = omega (arith, total_all xs)
total_all (pulled ∷ xs) = omega (arith, total_all xs)
total_all (pushing ∷ xs) = omega (arith, total_all xs)

total-at :
    (w : Stage → ℕ) (xs : List Stage) (i : ℕ) → w idle ≡ 0 → w (get_or xs i idle) ≤ total w xs
unfolding total
total-at w [] i none = omega (arith, none)
total-at w (x ∷ xs) zero none = omega arith
total-at w (x ∷ xs) (suc i) none = omega (arith, total-at w xs i none)

-- The threads take turns: all pull, counted as they finish, and then all push.
pub record IsReplying (s : System) : Type 0 where
  pub phase : s.controller.reply_phase ≡ true
  pub alone : total is_pushing s.threads ≡ 0
  pub counted : s.controller.pull_count ≡ total is_pulled s.threads
  pub fresh : s.controller.push_count ≡ 0
  pub open_left : s.controller.pull_count < s.controller.num_local_workers
  pub size : length s.threads ≡ s.controller.num_local_workers

pub record IsCollecting (s : System) : Type 0 where
  pub phase : s.controller.reply_phase ≡ false
  pub alone : total is_pulling s.threads ≡ 0
  pub counted : s.controller.push_count ≡ total is_idle s.threads
  pub fresh : s.controller.pull_count ≡ 0
  pub open_left : s.controller.push_count < s.controller.num_local_workers
  pub size : length s.threads ≡ s.controller.num_local_workers

abbrev pub IsPhased : System → Type 0
IsPhased s = IsReplying s ⊎ IsCollecting s

no_phase : {b : Bool} → b ≡ true → b ≡ false → ⊥
no_phase p q = cc

no_collect : (b : Bool) → (if b then false else true) ≡ true → b ≡ true → ⊥
no_collect true p q = cc
no_collect false p q = cc

module _ (s : System) (i : ℕ) (lt : i < length s.threads) {old : Stage} (here : at s i ≡ old)
    (stage : Stage) where
  abbrev threads' : List Stage
  threads' = set s.threads i stage

  moved : (w : Stage → ℕ) → total w threads' + w old ≡ total w s.threads + w stage
  moved w =
      subst (λ o. total w threads' + w o ≡ total w s.threads + w stage) here
        (total-set w s.threads i stage idle lt)

  size' : length threads' ≡ length s.threads
  size' = length-set s.threads i stage

before_pull-IsReplying :
    (s : System) (i : ℕ)
    → i < length s.threads
    → at s i ≡ idle
    → IsReplying s
    → IsReplying (move i pulling s.controller s)
unfolding move
before_pull-IsReplying s i lt here v = record {
  phase = v.phase;
  alone = omega (arith, v.alone, moved s i lt here pulling is_pushing);
  counted = omega (arith, v.counted, moved s i lt here pulling is_pulled);
  fresh = v.fresh;
  open_left = v.open_left;
  size = size' s i lt here pulling ∙ v.size;
}

before_push-IsCollecting :
    (s : System) (i : ℕ)
    → i < length s.threads
    → at s i ≡ pulled
    → IsCollecting s
    → IsCollecting (move i pushing s.controller s)
unfolding move
before_push-IsCollecting s i lt here v = record {
  phase = v.phase;
  alone = omega (arith, v.alone, moved s i lt here pushing is_pulling);
  counted = omega (arith, v.counted, moved s i lt here pushing is_idle);
  fresh = v.fresh;
  open_left = v.open_left;
  size = size' s i lt here pushing ∙ v.size;
}

end_pull-IsPhased :
    (s : System) (i : ℕ)
    → i < length s.threads
    → at s i ≡ pulling
    → IsReplying s
    → IsPhased (move i pulled (after_pull s.controller) s)
unfolding move after_pull
end_pull-IsPhased s i lt here v =
    let size : length (set s.threads i pulled) ≡ s.controller.num_local_workers =
      size' s i lt here pulled ∙ v.size in
    let more = moved s i lt here pulled is_pulled in
    let none = moved s i lt here pulled is_pushing in
    let all = total_all (set s.threads i pulled) in
    elim (Bool-cases (s.controller.pull_count + 1 == s.controller.num_local_workers)) [
      | inl full ↦
          let count = ==→eq _ _ full in
          rw full (
            inr (record {
              phase = refl;
              alone = omega (arith, all, more, size, count, v.counted);
              counted = omega (arith, all, more, size, count, v.counted, v.fresh);
              fresh = refl;
              open_left = omega (arith, v.fresh, v.open_left);
              size = size;
            }))
      | inr part ↦ rw part (
          inl (record {
            phase = v.phase;
            alone = omega (arith, none, v.alone);
            counted = omega (arith, more, v.counted);
            fresh = v.fresh;
            open_left = ground (arith, part, v.open_left);
            size = size;
          }))
    ]

end_push-IsPhased :
    (s : System) (i : ℕ)
    → i < length s.threads
    → at s i ≡ pushing
    → IsCollecting s
    → IsPhased (move i idle (after_push s.controller) s)
unfolding move after_push
end_push-IsPhased s i lt here v =
    let size : length (set s.threads i idle) ≡ s.controller.num_local_workers =
      size' s i lt here idle ∙ v.size in
    let more = moved s i lt here idle is_idle in
    let none = moved s i lt here idle is_pulling in
    let all = total_all (set s.threads i idle) in
    elim (Bool-cases (s.controller.push_count + 1 == s.controller.num_local_workers)) [
      | inl full ↦
          let count = ==→eq _ _ full in
          rw full (
            inl (record {
              phase = refl;
              alone = omega (arith, all, more, size, count, v.counted);
              counted = omega (arith, all, more, size, count, v.counted, v.fresh);
              fresh = refl;
              open_left = omega (arith, v.fresh, v.open_left);
              size = size;
            }))
      | inr part ↦ rw part (
          inr (record {
            phase = v.phase;
            alone = omega (arith, none, v.alone);
            counted = omega (arith, more, v.counted);
            fresh = v.fresh;
            open_left = ground (arith, part, v.open_left);
            size = size;
          }))
    ]

-- Nobody is where the phase does not let anybody in.
busy : (w : Stage → ℕ) (s : System) (i : ℕ) → w idle ≡ 0 → total w s.threads ≡ 0 → w (at s i) ≡ 0
busy w s i none alone = omega (arith, total-at w s.threads i none, alone)

Step-IsPhased : (s s' : System) → Step s s' → IsPhased s → IsPhased s'
unfolding may_pull may_push
Step-IsPhased s s' (before_pull i lt here may) (inl v) = inl (before_pull-IsReplying s i lt here v)
Step-IsPhased s s' (before_pull i lt here may) (inr v) = absurd (no_phase may v.phase)
Step-IsPhased s s' (end_pull i lt here) (inl v) = end_pull-IsPhased s i lt here v
Step-IsPhased s s' (end_pull i lt here) (inr v) =
    absurd (omega (arith, sym (ap is_pulling here) ∙ busy is_pulling s i refl v.alone))
Step-IsPhased s s' (before_push i lt here may) (inl v) = absurd (no_collect _ may v.phase)
Step-IsPhased s s' (before_push i lt here may) (inr v) =
    inr (before_push-IsCollecting s i lt here v)
Step-IsPhased s s' (end_push i lt here) (inl v) =
    absurd (omega (arith, sym (ap is_pushing here) ∙ busy is_pushing s i refl v.alone))
Step-IsPhased s s' (end_push i lt here) (inr v) = end_push-IsPhased s i lt here v

idle_threads_lem :
    (n : ℕ)
    → (total is_pushing (idle_threads n) ≡ 0)
      × (total is_pulled (idle_threads n) ≡ 0)
      × (length (idle_threads n) ≡ n)
unfolding total idle_threads
idle_threads_lem zero = (refl, refl, refl)
idle_threads_lem (suc n) =
    let (a, b, c) = idle_threads_lem n in (omega (arith, a), omega (arith, b), omega (arith, c))

first-IsPhased : (n : ℕ) → 0 < n → IsPhased (first n)
unfolding first init
first-IsPhased n some =
    let (a, b, c) = idle_threads_lem n in
    inl (record {
      phase = refl;
      alone = a;
      counted = sym b;
      fresh = refl;
      open_left = some;
      size = c;
    })

pub Reachable-IsPhased : (n : ℕ) (s : System) → 0 < n → Reachable n s → IsPhased s
Reachable-IsPhased n s some begin = first-IsPhased n some
Reachable-IsPhased n s' some (next {s} reached step) =
    Step-IsPhased s s' step (Reachable-IsPhased n s some reached)

-- With at least one thread, in every state that threads reach from the start under the BSP
-- controller, no thread is in a push while another is in a pull.
pub pull_apart_from_push :
    (n : ℕ) (s : System) (i j : ℕ) → 0 < n → Reachable n s → at s i ≡ pulling → at s j ≢ pushing
pull_apart_from_push n s i j some reached pulls pushes =
    elim (Reachable-IsPhased n s some reached) [
      | inl v ↦
          absurd (omega (arith, sym (ap is_pushing pushes) ∙ busy is_pushing s j refl v.alone))
      | inr v ↦ absurd (omega (arith, sym (ap is_pulling pulls) ∙ busy is_pulling s i refl v.alone))
    ]
