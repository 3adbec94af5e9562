-- ===== src/Ml/Batch.antt =====
-- ml/mlworker/ps.hpp: the second interface of PSWorker, PSBspWorker and PSMapNoneWorker, which are alike in
-- it: the values of the keys of a batch, which grow by updates, and the sums of the updates.
pub mod Sums
use flexps_paper_version.Common.{
  ℕ, zero, suc, Bool, true, false, Option, none, some, List, [], ◌∷◌, Result, ok, err,
  failed_assert, out_of_range, ◌>>=◌, read, set, ◌==◌, if◌then◌else◌, length,
}
use flexps_paper_version.Ml.ChunkBasedModel.{repeat}

pub record Batch (Val : Type 0) : Type 0 where
  pub keys : List ℕ
  pub vals : List Val
  pub delta : List Val

module _ {Val : Type 0} where
  -- What `Prepare_v2` keeps of a pull of the keys.
  unfoldable pub prepared : (zero_val : Val) → List ℕ → (vals : List Val) → Batch Val
  unfolding repeat
  prepared zero_val keys vals = record {
    keys = keys;
    vals = vals;
    delta = repeat (length keys) zero_val;
  }

  unfoldable pub get_val : (idx : ℕ) → Batch Val → Result Val
  get_val idx b = read b.vals idx

  module _ (add : Val → Val → Val) where
    unfoldable pub update_one : (idx : ℕ) → Val → Batch Val → Result (Batch Val)
    update_one idx val b = read b.delta idx >>= λ d. read b.vals idx >>= λ v.
        ok (record b { vals = set b.vals idx (add v val); delta = set b.delta idx (add d val) })

    -- `xs[i] += vs[i]` for each i.
    unfoldable pub add_into : List Val → List Val → Result (List Val)
    add_into xs [] = ok xs
    add_into [] (v ∷ vs) = err out_of_range
    add_into (x ∷ xs) (v ∷ vs) = add_into xs vs >>= λ rest. ok (add x v ∷ rest)

    unfoldable pub update_all : List Val → Batch Val → Result (Batch Val)
    unfolding add_into
    update_all vals b =
        if length vals == length b.vals
        then (add_into b.vals vals >>= λ vs.
            add_into b.delta vals >>= λ ds. ok (record b { vals = vs; delta = ds }))
        else err failed_assert
