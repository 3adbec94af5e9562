-- ===== src/Kvstore/Handles/Agree.antt =====
-- `update` against `retrieve` (kvstore/handles/basic.hpp): what a pull sees of a push.
use flexps_paper_version.Common.{
  if◌then◌else◌, ℕ, ◌≤◌, ◌<◌, ◌≡◌, ◌≢◌, ◌∙◌, refl, sym, ap₂, Bool, List, [], ◌∷◌, ok, ok-injective,
  >>=-eq-ok, arith, All, length, ne→==_false, ==_refl,
}
use flexps_paper_version.Kvstore.Ranges.{u64_mod}
use flexps_paper_version.Kvstore.RangeManager.{RangeManager}
use flexps_paper_version.Kvstore.Handles.{
  Bin, KvPairs, Place, Store, put, apply_pairs, interval, index, values, update, retrieve,
}

-- No key stands twice.
abbrev pub Distinct : List ℕ → Type 0
Distinct [] = Unit
Distinct (k ∷ ks) = All (λ j. k ≢ j) ks × Distinct ks

-- The keys of a server that begins at `first`.
abbrev pub Local : ℕ → List ℕ → Type 0
Local first ks = All (λ k. (first ≤ k) × (k < u64_mod)) ks

index_ne :
    (first k j : ℕ)
    → (first ≤ k) × (k < u64_mod)
    → (first ≤ j) × (j < u64_mod)
    → k ≢ j
    → index first k ≢ index first j
unfolding index
index_ne first k j hk hj ne e = ne (omega arith)

module _ {Val : Type 0} (add : Val → Val → Val) where
  -- What a key holds after a push of `v`.
  unfoldable pub merge : Bool → List Val → List Val → List Val
  merge is_assign (old ∷ olds) (v ∷ vs) =
      (if is_assign then v else add old v) ∷ merge is_assign olds vs
  merge is_assign _ _ = []

  apply_pairs-other :
      (b : Bool) (first : ℕ) (ks : List ℕ) (vs : List Val) (s s' : Store Val) (j : ℕ)
      → All (λ k. index first j ≢ index first k) ks
      → apply_pairs add b first ks vs s ≡ ok s'
      → s' (index first j) ≡ s (index first j)
  unfolding apply_pairs put
  apply_pairs-other b first [] vs s s' j others e = rw (ok-injective e)
  apply_pairs-other b first (k ∷ ks) [] s s' j others e = cc
  apply_pairs-other b first (k ∷ ks) (v ∷ vs) s s' j (other, others) e =
      apply_pairs-other b first ks vs (put add b (index first k) v s) s' j others e
      ∙ rw (ne→==_false (index first k) (index first j) (λ q. other (sym q)))

  others :
      (first k : ℕ) (ks : List ℕ)
      → (first ≤ k) × (k < u64_mod)
      → Local first ks
      → All (λ j. k ≢ j) ks
      → All (λ j. index first k ≢ index first j) ks
  others first k [] here local ne = tt
  others first k (j ∷ ks) here local ne =
      (index_ne first k j here local.0 ne.0, others first k ks here local.1 ne.1)

  put_self :
      (b : Bool) (i : ℕ) (v : Val) (s : Store Val)
      → put add b i v s i ≡ (if b then v else add (s i) v)
  unfolding put
  put_self b i v s = rw (==_refl i)

  values-put :
      (b : Bool) (first k : ℕ) (v : Val) (ks : List ℕ) (s : Store Val)
      → All (λ j. index first k ≢ index first j) ks
      → values first ks (put add b (index first k) v s) ≡ values first ks s
  unfolding values put
  values-put b first k v [] s ne = refl
  values-put b first k v (j ∷ ks) s (ne, nes) =
      ap₂ ◌∷◌ (rw (ne→==_false _ _ ne)) (values-put b first k v ks s nes)

  -- A pull of the keys that were just pushed sees the pushed values, or the sums.
  values-apply_pairs :
      (b : Bool) (first : ℕ) (ks : List ℕ) (vs : List Val) (s s' : Store Val)
      → Distinct ks
      → Local first ks
      → length ks ≡ length vs
      → apply_pairs add b first ks vs s ≡ ok s'
      → values first ks s' ≡ merge b (values first ks s) vs
  unfolding values apply_pairs merge
  values-apply_pairs b first [] vs s s' distinct local len e = refl
  values-apply_pairs b first (k ∷ ks) [] s s' distinct local len e = cc
  values-apply_pairs b first (k ∷ ks) (v ∷ vs) s s' (fresh, distinct) (here, local) len e =
      let apart = others first k ks here local fresh in
      ap₂ ◌∷◌
        (apply_pairs-other b first ks vs (put add b (index first k) v s) s' k apart e
          ∙ put_self b (index first k) v s)
        (values-apply_pairs b first ks vs (put add b (index first k) v s) s' distinct local
            (omega arith) e
          ∙ rw (values-put b first k v ks s apart))

-- The keys of one push to a server: distinct, and between the server's first key and the end of
-- uint64_t.
pub record IsPairs {Val : Type 0} (m : RangeManager) (p : Place) (kv_id : ℕ) (bin : Bin Val)
    : Type 0 where
  pub distinct : Distinct bin.keys
  pub local : (first : ℕ) → interval m p kv_id ≡ ok first → Local first bin.keys
  pub paired : length bin.keys ≡ length bin.vals

-- After a push of distinct keys with their values, by keys, a pull of the same keys succeeds and
-- gives the pushed values if the update assigns, and their sums with the values before if it adds.
pub retrieve-update :
    {Val : Type 0} (add : Val → Val → Val) (m : RangeManager) (p : Place) (kv_id : ℕ) (b : Bool)
    (bin : Bin Val) (before : KvPairs Val) (s s' : Store Val)
    → IsPairs m p kv_id bin
    → retrieve m p kv_id 0 bin s ≡ ok before
    → update add m p kv_id 0 b bin s ≡ ok s'
    → retrieve m p kv_id 0 bin s'
      ≡ ok (record { keys = bin.keys; vals = merge add b before.vals bin.vals })
unfolding retrieve update
retrieve-update add m p kv_id b bin before s s' pairs old done =
    let (first, at, e) = >>=-eq-ok (interval m p kv_id) _ done in
    let old_values = ok-injective (rw at at old) in
    rw (
      at,
      ← old_values,
      values-apply_pairs add b first bin.keys bin.vals s s' pairs.distinct (pairs.local first at)
          pairs.paired e,
    )
