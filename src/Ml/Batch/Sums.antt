-- ===== src/Ml/Batch/Sums.antt =====
-- ml/mlworker/ps.hpp: what updates do to a batch.
use flexps_paper_version.Common.{
  ℕ, zero, suc, ◌<◌, ◌≡◌, refl, sym, ◌∙◌, ap, ap₂, List, [], ◌∷◌, Result, ok, arith, ◌>>=◌, read,
  set, length, length-set, eq→==, All,
}
use flexps_paper_version.Ml.ChunkBasedModel.{repeat, add_all}
use flexps_paper_version.Ml.Batch.{Batch, prepared, update_one, add_into, update_all}

pub data Update (Val : Type 0) : Type 0 where
  one_update : ℕ → Val → Update Val
  all_updates : List Val → Update Val

module _ {Val : Type 0} (zero_val : Val) (add : Val → Val → Val) where
  unfoldable pub run_update : Update Val → Batch Val → Result (Batch Val)
  unfolding update_one update_all
  run_update (one_update idx val) b = update_one add idx val b
  run_update (all_updates vals) b = update_all add vals b

  unfoldable pub run_updates : List (Update Val) → Batch Val → Result (Batch Val)
  unfolding run_update
  run_updates [] b = ok b
  run_updates (u ∷ us) b = run_update u b >>= λ b'. run_updates us b'

  -- An index below `n`, or `n` values.
  abbrev pub Fits : ℕ → Update Val → Type 0
  Fits n (one_update idx val) = idx < n
  Fits n (all_updates vals) = length vals ≡ n

  -- The values are the pulled ones with the sums of the updates.
  pub record IsSum (pulled : List Val) (b : Batch Val) : Type 0 where
    pub same_vals : length b.vals ≡ length pulled
    pub same_delta : length b.delta ≡ length pulled
    pub sums : b.vals ≡ add_all add pulled b.delta

  module _ (assoc : (x y z : Val) → add (add x y) z ≡ add x (add y z)) where
    length-add_all : (xs vs : List Val) → length (add_all add xs vs) ≡ length xs
    unfolding add_all
    length-add_all [] vs = refl
    length-add_all (x ∷ xs) [] = refl
    length-add_all (x ∷ xs) (v ∷ vs) = omega (arith, length-add_all xs vs)

    add_into_lem :
        (xs vs : List Val) → length vs ≡ length xs → add_into add xs vs ≡ ok (add_all add xs vs)
    unfolding add_into add_all
    add_into_lem [] [] same = refl
    add_into_lem (x ∷ xs) [] same = refl
    add_into_lem [] (v ∷ vs) same = cc
    add_into_lem (x ∷ xs) (v ∷ vs) same = rw (add_into_lem xs vs (omega arith)) refl

    add_all_assoc :
        (xs ys zs : List Val)
        → length ys ≡ length xs
        → length zs ≡ length xs
        → add_all add (add_all add xs ys) zs ≡ add_all add xs (add_all add ys zs)
    unfolding add_all
    add_all_assoc [] [] zs h h' = refl
    add_all_assoc [] (y ∷ ys) [] h h' = refl
    add_all_assoc [] (y ∷ ys) (z ∷ zs) h h' = refl
    add_all_assoc (x ∷ xs) [] zs h h' = cc
    add_all_assoc (x ∷ xs) (y ∷ ys) [] h h' = refl
    add_all_assoc (x ∷ xs) (y ∷ ys) (z ∷ zs) h h' =
        ap₂ (λ (w : Val) (ws : List Val). w ∷ ws) (assoc x y z)
          (add_all_assoc xs ys zs (omega arith) (omega arith))

    -- One position of both lists.
    add_one_lem :
        (idx : ℕ) (v : Val) (pulled delta : List Val)
        → length delta ≡ length pulled
        → idx < length pulled
        → (d x : Val) × (read delta idx ≡ ok d)
          × (read (add_all add pulled delta) idx ≡ ok x)
          × (set (add_all add pulled delta) idx (add x v)
              ≡ add_all add pulled (set delta idx (add d v)))
    unfolding add_all
    add_one_lem idx v [] delta same below = elim below [ ]
    add_one_lem idx v (p ∷ pulled) [] same below = cc
    add_one_lem zero v (p ∷ pulled) (d ∷ delta) same below =
        (d, add p d, refl, refl, ap (λ (w : Val). w ∷ add_all add pulled delta) (assoc p d v))
    add_one_lem (suc idx) v (p ∷ pulled) (d ∷ delta) same below =
        let ih = add_one_lem idx v pulled delta (omega arith) (omega arith) in
        (ih.0, ih.1, ih.2, ih.3, ap (λ (ws : List Val). add p d ∷ ws) ih.4)

    run_update-IsSum :
        (pulled : List Val) (u : Update Val) (b : Batch Val)
        → Fits (length pulled) u
        → IsSum pulled b
        → (b' : Batch Val) × (run_update u b ≡ ok b') × IsSum pulled b'
    unfolding run_update update_one update_all
    run_update-IsSum pulled (one_update idx val) b fits s =
        let e = add_one_lem idx val pulled b.delta s.same_delta fits in
        (
          record b { vals = set b.vals idx (add e.1 val); delta = set b.delta idx (add e.0 val) },
          rw (e.2) (rw (ap (λ xs. read xs idx) s.sums ∙ e.3) refl),
          record {
            same_vals = omega (arith, length-set b.vals idx (add e.1 val), s.same_vals);
            same_delta = omega (arith, length-set b.delta idx (add e.0 val), s.same_delta);
            sums = ap (λ xs. set xs idx (add e.1 val)) s.sums ∙ e.4;
          },
        )
    run_update-IsSum pulled (all_updates vals) b fits s = (
      record b { vals = add_all add b.vals vals; delta = add_all add b.delta vals },
      rw (eq→== (length vals) (length b.vals) (omega (arith, fits, s.same_vals))) (
          rw (add_into_lem b.vals vals (omega (arith, fits, s.same_vals)))
            (rw (add_into_lem b.delta vals (omega (arith, fits, s.same_delta))) refl)),
      record {
        same_vals = omega (arith, length-add_all b.vals vals, s.same_vals);
        same_delta = omega (arith, length-add_all b.delta vals, s.same_delta);
        sums =
            ap (λ xs. add_all add xs vals) s.sums
            ∙ add_all_assoc pulled b.delta vals s.same_delta fits;
      },
    )

    run_updates-IsSum :
        (pulled : List Val) (us : List (Update Val)) (b : Batch Val)
        → All (Fits (length pulled)) us
        → IsSum pulled b
        → (b' : Batch Val) × (run_updates us b ≡ ok b') × IsSum pulled b'
    unfolding run_updates
    run_updates-IsSum pulled [] b fits s = (b, refl, s)
    run_updates-IsSum pulled (u ∷ us) b fits s =
        let one = run_update-IsSum pulled u b fits.0 s in
        let rest = run_updates-IsSum pulled us one.0 fits.1 one.2 in
        (rest.0, rw (one.1) rest.1, rest.2)

    length-repeat : (n : ℕ) → length (repeat n zero_val) ≡ n
    unfolding repeat
    length-repeat zero = refl
    length-repeat (suc n) = omega (arith, length-repeat n)

    add_all_zeros :
        (xs : List Val) (n : ℕ)
        → ((x : Val) → add x zero_val ≡ x)
        → add_all add xs (repeat n zero_val) ≡ xs
    unfolding add_all repeat
    add_all_zeros [] zero right = refl
    add_all_zeros [] (suc n) right = refl
    add_all_zeros (x ∷ xs) zero right = refl
    add_all_zeros (x ∷ xs) (suc n) right =
        ap₂ (λ (w : Val) (ws : List Val). w ∷ ws) (right x) (add_all_zeros xs n right)

    prepared-IsSum :
        (keys : List ℕ) (pulled : List Val)
        → ((x : Val) → add x zero_val ≡ x)
        → length pulled ≡ length keys
        → IsSum pulled (prepared zero_val keys pulled)
    unfolding prepared
    prepared-IsSum keys pulled right same = record {
      same_vals = refl;
      same_delta = length-repeat (length keys) ∙ sym same;
      sums = sym (add_all_zeros pulled (length keys) right);
    }

    -- If the addition is associative and zero neutral on the right: after Prepare_v2 of a pull
    -- with a value for each key, updates of indices that are there, or of as many values as were
    -- pulled, all succeed, and the values of the batch are the pulled ones with the sums to be
    -- pushed added, position by position.
    pub updates-IsSum :
        (keys : List ℕ) (pulled : List Val) (us : List (Update Val))
        → ((x : Val) → add x zero_val ≡ x)
        → length pulled ≡ length keys
        → All (Fits (length pulled)) us
        → (b : Batch Val) × (run_updates us (prepared zero_val keys pulled) ≡ ok b) × IsSum pulled b
    updates-IsSum keys pulled us right same fits =
        run_updates-IsSum pulled us (prepared zero_val keys pulled) fits
          (prepared-IsSum keys pulled right same)
