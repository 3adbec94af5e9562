-- ===== src/Ml/ChunkBasedModel/Pushes.antt =====
-- ml/model/chunk_based_model.hpp: what a push changes of the values that the model shows.
use flexps_paper_version.Common.{
  ℕ, zero, suc, ◌/◌, ◌%◌, ◌*◌, ◌+◌, ◌<◌, ◌≡◌, refl, sym, ◌∙◌, ap, ap₂, inl, inr, true, false, List,
  [], ◌∷◌, map, ok, arith, read, ◌==◌, if◌then◌else◌, length, set, get_or, length-set, Bool-cases,
  ==→eq, eq→==, read-get_or, ==_refl, Result-cases, ok-injective,
}
use native.Mathlib.Nat.{div-add-mod'}
use flexps_paper_version.Kvstore.RangeManager.{RangeManager, get_chunk_size, get_max_key}
use flexps_paper_version.Kvstore.KvWorker.Slices.{IsAscending}
use flexps_paper_version.Ml.ChunkBasedModel.Fetching.{Serves}
use flexps_paper_version.Ml.ChunkBasedModel.{ChunkBasedModel, pull, add_to, push}
use flexps_paper_version.Ml.ChunkBasedModel.Views.{
  chunk_at, view, Shows, Cached, chunk_of, offset_of, Below, Shows-lt, peek-Shows,
  get_location_below, pull-Shows, read-lt,
}

-- A read behind a write.
read-set_if :
    {A : Type 0} (xs : List A) (i j : ℕ) (v : A)
    → i < length xs
    → read (set xs i v) j ≡ (if i == j then ok v else read xs j)
read-set_if [] i j v h = elim h [ ]
read-set_if (x ∷ xs) zero zero v h = refl
read-set_if (x ∷ xs) zero (suc j) v h = ground arith
read-set_if (x ∷ xs) (suc i) zero v h = ground arith
read-set_if (x ∷ xs) (suc i) (suc j) v h = ground (arith, read-set_if xs i j v (omega arith))

-- A number is given by its quotient and its remainder.
same_number : (n j k : ℕ) → j / n ≡ k / n → j % n ≡ k % n → j ≡ k
same_number n j k q r =
    sym (div-add-mod' j n) ∙ (ap₂ (λ (x y : ℕ). x * n + y) q r ∙ div-add-mod' k n)

module _ {Val : Type 0} (remote : ℕ → List Val) (kv_id : ℕ) (rm : RangeManager) where
  -- A write to another chunk.
  view-set_other :
      (m : ChunkBasedModel Val) (c j : ℕ) (chunk : List Val)
      → c < length m.params
      → (c == chunk_of kv_id rm j) ≡ false
      → view remote kv_id rm (record m { params = set m.params c chunk }) j
        ≡ view remote kv_id rm m j
  unfolding view chunk_at
  view-set_other m c j chunk below other =
      elim (Result-cases (read m.is_cached (chunk_of kv_id rm j))) [
        | inr (x, e) ↦ rw e refl
        | inl (true, e) ↦
            rw e (rw (read-set_if m.params c (chunk_of kv_id rm j) chunk below, other) refl)
        | inl (false, e) ↦ rw e refl
      ]

  -- A write to its own chunk, which is cached.
  view-set_same :
      (m : ChunkBasedModel Val) (j : ℕ) (chunk : List Val)
      → chunk_of kv_id rm j < length m.params
      → read m.is_cached (chunk_of kv_id rm j) ≡ ok true
      → view remote kv_id rm (record m { params = set m.params (chunk_of kv_id rm j) chunk }) j
        ≡ read chunk (offset_of kv_id rm j)
  unfolding view chunk_at
  view-set_same m j chunk below cached = rw (cached) (
      rw
        (
          read-set_if m.params (chunk_of kv_id rm j) (chunk_of kv_id rm j) chunk below,
          ==_refl (chunk_of kv_id rm j),
        )
        refl)

module _ {Val : Type 0} (add : Val → Val → Val) where
  -- The values after increments, the first of a key first.
  unfoldable pub after : List ℕ → List Val → (ℕ → Val) → ℕ → Val
  after [] vals f = f
  after (k ∷ keys) [] f = f
  after (k ∷ keys) (v ∷ vals) f = after keys vals (λ j. if k == j then add (f j) v else f j)

  module _ (remote : ℕ → List Val) (kv_id : ℕ) (rm : RangeManager) where
    differ : (g : ℕ → ℕ) (k j : ℕ) → (g k == g j) ≡ false → (k == j) ≡ false
    differ g k j e = elim (Bool-cases (k == j)) [
      | inl same ↦ let same' = ap g (==→eq k j same) in ground (arith, e, same')
      | inr other ↦ other
    ]

    -- A value behind the write of another value of its chunk, or of its own.
    read_same :
        (f : ℕ → Val) (k j : ℕ) (v : Val) (chunk : List Val)
        → chunk_of kv_id rm k ≡ chunk_of kv_id rm j
        → read chunk (offset_of kv_id rm k) ≡ ok (f k)
        → read chunk (offset_of kv_id rm j) ≡ ok (f j)
        → read (set chunk (offset_of kv_id rm k) (add (f k) v)) (offset_of kv_id rm j)
          ≡ ok (if k == j then add (f j) v else f j)
    read_same f k j v chunk same at_k at_j =
        let n = get_chunk_size kv_id rm in
        read-set_if chunk (k % n) (j % n) (add (f k) v) (read-lt chunk (k % n) (f k) at_k)
        ∙ elim (Bool-cases (k % n == j % n)) [
          | inl e ↦
              let number = same_number n k j same (==→eq (k % n) (j % n) e) in
              rw (e, eq→== k j number) (ap (λ (x : ℕ). ok (add (f x) v)) number)
          | inr e ↦ rw (e, differ (λ x. x % n) k j e) at_j
        ]

    pushed_same :
        (f : ℕ → Val) (m : ChunkBasedModel Val) (k j : ℕ) (v : Val) (chunk : List Val)
        → Shows remote kv_id rm f m
        → j < get_max_key kv_id rm
        → get_or m.is_cached (chunk_of kv_id rm k) false ≡ true
        → chunk_of kv_id rm k ≡ chunk_of kv_id rm j
        → read m.params (chunk_of kv_id rm k) ≡ ok chunk
        → read chunk (offset_of kv_id rm k) ≡ ok (f k)
        → view remote kv_id rm
            (record m {
              params =
                  set m.params
                    (chunk_of kv_id rm k)
                    (set chunk (offset_of kv_id rm k) (add (f k) v));
            })
            j
          ≡ ok (if k == j then add (f j) v else f j)
    pushed_same f m k j v chunk s h cached same at_c at_k =
        let q = peek-Shows remote kv_id rm f m j s h (rw (sym same) cached) in
        let one : q.0 ≡ chunk = ok-injective (sym q.1 ∙ (ap (read m.params) (sym same) ∙ at_c)) in
        let flag =
          read-get_or m.is_cached (chunk_of kv_id rm j) false
            (Shows-lt remote kv_id rm f m s j h) in
        rw (same) (
          view-set_same remote kv_id rm m j _ (read-lt m.params _ q.0 q.1)
            (flag ∙ ap ok (rw (sym same) cached)))
        ∙ read_same f k j v chunk same at_k (rw (sym one) q.2)

    add_to-Shows :
        (f : ℕ → Val) (m : ChunkBasedModel Val) (k : ℕ) (v : Val)
        → Shows remote kv_id rm f m
        → k < get_max_key kv_id rm
        → get_or m.is_cached (chunk_of kv_id rm k) false ≡ true
        → (params : List (List Val)) × (add_to add
              (chunk_of kv_id rm k, offset_of kv_id rm k)
              v
              m.params
            ≡ ok params)
          × Shows remote kv_id rm
              (λ j. if k == j then add (f j) v else f j)
              (record m { params = params })
    unfolding add_to view chunk_at
    add_to-Shows f m k v s below cached =
        let c = chunk_of kv_id rm k in
        let p = peek-Shows remote kv_id rm f m k s below cached in
        let chunk = set p.0 (offset_of kv_id rm k) (add (f k) v) in
        let params = set m.params c chunk in
        (
          params,
          rw (p.1) (rw (p.2) refl),
          record {
            valid = rw (length-set m.params c chunk) s.valid;
            shows = λ j h. elim (Bool-cases (c == chunk_of kv_id rm j)) [
              | inl e ↦
                  let same : c ≡ chunk_of kv_id rm j = ==→eq c (chunk_of kv_id rm j) e in
                  pushed_same f m k j v p.0 s h cached same p.1 p.2
              | inr e ↦
                  view-set_other remote kv_id rm m c j chunk (read-lt m.params c p.0 p.1) e
                  ∙ rw (differ (chunk_of kv_id rm) k j e) (s.shows j h)
            ];
          },
        )

    pub push-Shows :
        (keys : List ℕ) (vals : List Val) (f : ℕ → Val) (m : ChunkBasedModel Val)
        → Shows remote kv_id rm f m
        → Below kv_id rm keys
        → Cached remote kv_id rm m keys
        → length vals ≡ length keys
        → (m' : ChunkBasedModel Val) × (push add kv_id rm keys vals m ≡ ok m')
          × Shows remote kv_id rm (after keys vals f) m'
    unfolding push after
    push-Shows [] vals f m s below cached same = (m, refl, s)
    push-Shows (k ∷ keys) [] f m s below cached same =
        (let no : suc (length keys) ≡ 0 = sym same in cc)
    push-Shows (k ∷ keys) (v ∷ vals) f m s below cached same =
        let one = add_to-Shows f m k v s below.0 cached.0 in
        let rest =
          push-Shows keys vals (λ j. if k == j then add (f j) v else f j)
            (record m { params = one.0 }) one.2 below.1 cached.1 (omega arith) in
        let flag =
          read-get_or m.is_cached (chunk_of kv_id rm k) false
            (Shows-lt remote kv_id rm f m s k below.0) in
        (
          rest.0,
          rw (get_location_below kv_id rm k below.0) (rw (flag, cached.0) (rw (one.1) (rest.1))),
          rest.2,
        )

    -- Over a kv worker that answers ascending chunk ids with one chunk for each, in order, and
    -- where the model shows the value f k of every key k below max_key, in its chunks or in the kv
    -- store: a pull of ascending keys below max_key succeeds and returns their values in order,
    -- and the model shows f still; a push of as many increments for these keys succeeds then, and
    -- the model shows f with the increments added.
    pub pull-push-Shows :
        (reply : List ℕ → List (List Val)) (served : Serves remote reply) (f : ℕ → Val)
        (m : ChunkBasedModel Val) (keys : List ℕ) (vals : List Val)
        → Shows remote kv_id rm f m
        → Below kv_id rm keys
        → IsAscending keys
        → length vals ≡ length keys
        → (m' m'' : ChunkBasedModel Val) × (pull kv_id rm reply keys m ≡ ok (map f keys, m'))
          × Shows remote kv_id rm f m'
          × (push add kv_id rm keys vals m' ≡ ok m'')
          × Shows remote kv_id rm (after keys vals f) m''
    pull-push-Shows reply served f m keys vals s below ascending same =
        let p = pull-Shows remote kv_id rm reply served f m keys s below ascending in
        let q = push-Shows keys vals f p.0 p.2 below p.3 same in (p.0, q.0, p.1, p.2, q.1, q.2)
