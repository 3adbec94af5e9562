-- ===== src/Ml/ChunkBasedModel/Fetching.antt =====
-- ml/model/chunk_based_model.hpp: what `PrepareChunks` marks, fetches and leaves alone.
use flexps_paper_version.Common.{
  ℕ, ◌<◌, ◌≡◌, refl, ap, subst, inl, inr, Bool, true, false, not, ◌&&◌, ◌||◌, List, [], ◌∷◌, ok,
  arith, lt→ltb, ◌==◌, if◌then◌else◌, length, set, get_or, length-set, Bool-cases, ==→eq,
  read-get_or, get_or-set, All, map, ◌≤◌,
}
use flexps_paper_version.Common.Members.{has}
use flexps_paper_version.Kvstore.KvWorker.Slices.{IsAscending}
use flexps_paper_version.Ml.ChunkBasedModel.{chunks_to_fetch, place_each, fetch}

-- The chunks to fetch are those among `cs` that are not cached.
pub record IsFetch (cs : List ℕ) (is_cached : List Bool) (found : List ℕ) (flags : List Bool)
    : Type 0 where
  pub below : All (λ c. c < length is_cached) found
  pub same_length : length flags ≡ length is_cached
  pub marked :
      (j : ℕ) → j < length is_cached → get_or flags j false ≡ (get_or is_cached j false || has j cs)
  pub fetched :
      (j : ℕ) → j < length is_cached → has j found ≡ (has j cs && not (get_or is_cached j false))
  pub low : (b : ℕ) → All (λ c. b ≤ c) cs → All (λ c. b ≤ c) found
  pub ascending : IsAscending cs → IsAscending found

pub chunks_to_fetch-IsFetch :
    (cs : List ℕ) (is_cached : List Bool)
    → All (λ c. c < length is_cached) cs
    → (r : List ℕ × List Bool) × (chunks_to_fetch cs is_cached ≡ ok r)
      × IsFetch cs is_cached r.0 r.1
unfolding chunks_to_fetch has
chunks_to_fetch-IsFetch [] is_cached below = (
  ([], is_cached),
  refl,
  record {
    below = tt;
    same_length = refl;
    marked = λ j h. ground arith;
    fetched = λ j h. ground arith;
    low = λ b h. tt;
    ascending = λ h. tt;
  },
)
chunks_to_fetch-IsFetch (c ∷ cs) is_cached below = elim (Bool-cases (get_or is_cached c false)) [
  | inl known ↦
      let ih = chunks_to_fetch-IsFetch cs is_cached below.1 in
      (
        ih.0,
        rw (lt→ltb c (length is_cached) below.0)
            (rw (read-get_or is_cached c false below.0, known) ih.1),
        record {
          below = ih.2.below;
          same_length = ih.2.same_length;
          marked = λ j h. elim (Bool-cases (j == c)) [
            | inl same ↦ ground (arith, ih.2.marked j h, known, ==→eq j c same)
            | inr other ↦ ground (arith, ih.2.marked j h)
          ];
          fetched = λ j h. elim (Bool-cases (j == c)) [
            | inl same ↦ ground (arith, ih.2.fetched j h, known, ==→eq j c same)
            | inr other ↦ ground (arith, ih.2.fetched j h)
          ];
          low = λ b h. ih.2.low b h.1;
          ascending = λ h. ih.2.ascending h.1;
        },
      )
  | inr fresh ↦
      let flags = set is_cached c true in
      let len = length-set is_cached c true in
      let ih = chunks_to_fetch-IsFetch cs flags (rw len below.1) in
      (
        (c ∷ ih.0.0, ih.0.1),
        rw (lt→ltb c (length is_cached) below.0)
            (rw (read-get_or is_cached c false below.0, fresh) (rw ih.1 refl)),
        record {
          below = (below.0, subst (λ n. All (λ c'. c' < n) ih.0.0) len ih.2.below);
          same_length = omega (arith, ih.2.same_length, len);
          marked = λ j h. elim (Bool-cases (j == c)) [
            | inl same ↦ ground (
              arith,
              ih.2.marked j (omega (arith, len)),
              get_or-set is_cached c j true false below.0,
              ==→eq j c same,
            )
            | inr other ↦ ground (
              arith,
              ih.2.marked j (omega (arith, len)),
              get_or-set is_cached c j true false below.0,
            )
          ];
          fetched = λ j h. elim (Bool-cases (j == c)) [
            | inl same ↦ ground (
              arith,
              ih.2.fetched j (omega (arith, len)),
              get_or-set is_cached c j true false below.0,
              ==→eq j c same,
            )
            | inr other ↦ ground (
              arith,
              ih.2.fetched j (omega (arith, len)),
              get_or-set is_cached c j true false below.0,
            )
          ];
          low = λ b h. (h.0, ih.2.low b h.1);
          ascending = λ h. (ih.2.low c h.0, ih.2.ascending h.1);
        },
      )
]

module _ {Val : Type 0} (remote : ℕ → List Val) where
  -- What `PullChunks` of the kv worker does with ascending chunk ids: one chunk for each, in order.
  abbrev pub Serves : (List ℕ → List (List Val)) → Type 0
  Serves reply = (cs : List ℕ) → IsAscending cs → reply cs ≡ map remote cs

  unfoldable pub fill : List ℕ → List (List Val) → List (List Val)
  fill [] params = params
  fill (c ∷ cs) params = fill cs (set params c (remote c))

  place_each-eq-fill :
      (cs : List ℕ) (params : List (List Val))
      → place_each cs (map remote cs) params ≡ fill cs params
  unfolding place_each fill
  place_each-eq-fill [] params = refl
  place_each-eq-fill (c ∷ cs) params = place_each-eq-fill cs (set params c (remote c))

  pub fetch-eq-fill :
      (reply : List ℕ → List (List Val)) (cs : List ℕ) (params : List (List Val))
      → Serves reply
      → IsAscending cs
      → fetch reply cs params ≡ fill cs params
  unfolding fetch
  fetch-eq-fill reply cs params served ascending =
      rw (served cs ascending) (place_each-eq-fill cs params)

  pub length-fill :
      (cs : List ℕ) (params : List (List Val)) → length (fill cs params) ≡ length params
  unfolding fill
  length-fill [] params = refl
  length-fill (c ∷ cs) params =
      omega (arith, length-fill cs (set params c (remote c)), length-set params c (remote c))

  -- The chunks that are fetched are those of the kv store, the others are what they were.
  pub get_or-fill :
      (cs : List ℕ) (params : List (List Val)) (j : ℕ)
      → All (λ c. c < length params) cs
      → get_or (fill cs params) j [] ≡ (if has j cs then remote j else get_or params j [])
  unfolding fill has
  get_or-fill [] params j below = refl
  get_or-fill (c ∷ cs) params j below =
      let ih =
        get_or-fill cs (set params c (remote c)) j (rw (length-set params c (remote c)) below.1) in
      elim (Bool-cases (j == c)) [
        | inl same ↦ ground (
          arith,
          ih,
          get_or-set params c j (remote c) [] below.0,
          ap remote (==→eq j c same),
          ==→eq j c same,
        )
        | inr other ↦ ground (arith, ih, get_or-set params c j (remote c) [] below.0)
      ]
