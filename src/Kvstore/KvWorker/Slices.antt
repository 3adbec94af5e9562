-- ===== src/Kvstore/KvWorker/Slices.antt =====
-- kvstore/kvworker.hpp: `Slice_` cuts the keys of a request up among the servers, as their key
-- ranges say.
use flexps_paper_version.Common.{
  ℕ, zero, suc, ◌+◌, ◌-◌, ◌*◌, ◌/◌, ◌≤◌, ◌<◌, ◌≡◌, refl, sym, ap, ◌∙◌, inl, inr, List, [], ◌∷◌,
  ◌++◌, arith, ltb, ltb→lt, ◌==◌, ==→eq, length, All, Bool-cases,
}
use flexps_paper_version.Common.Segments.{
  take, drop, segment, drop-drop, length-drop, segment-append, segment_empty, segment_all,
}
use flexps_paper_version.Kvstore.Ranges.{Range, Tiles}
use flexps_paper_version.Kvstore.Handles.{KvPairs}
use flexps_paper_version.Kvstore.KvWorker.{
  lower_bound, positions_from, first_position, Slice, slice_at, slices_from, empty_slices, slice,
}

-- In increasing order, as a worker passes its keys.
abbrev pub IsAscending : List ℕ → Type 0
IsAscending [] = Unit
IsAscending (k ∷ ks) = All (λ j. k ≤ j) ks × IsAscending ks

All-drop : (P : ℕ → Type 0) (n : ℕ) (ks : List ℕ) → All P ks → All P (drop n ks)
unfolding drop
All-drop P zero ks h = h
All-drop P (suc n) [] h = tt
All-drop P (suc n) (k ∷ ks) h = All-drop P n ks h.1

All-take : (P : ℕ → Type 0) (n : ℕ) (ks : List ℕ) → All P ks → All P (take n ks)
unfolding take
All-take P zero ks h = tt
All-take P (suc n) [] h = tt
All-take P (suc n) (k ∷ ks) h = (h.0, All-take P n ks h.1)

All-le : (x y : ℕ) (ks : List ℕ) → x ≤ y → All (λ k. y ≤ k) ks → All (λ k. x ≤ k) ks
All-le x y [] le h = tt
All-le x y (k ∷ ks) le h = (omega (arith, h.0), All-le x y ks le h.1)

drop-IsAscending : (n : ℕ) (ks : List ℕ) → IsAscending ks → IsAscending (drop n ks)
unfolding drop
drop-IsAscending zero ks s = s
drop-IsAscending (suc n) [] s = tt
drop-IsAscending (suc n) (k ∷ ks) s = drop-IsAscending n ks s.1

-- What `std::lower_bound` finds: everything before is below the bound, nothing after it.
before-lower_bound : (x : ℕ) (ks : List ℕ) → All (λ k. k < x) (take (lower_bound x ks) ks)
unfolding take lower_bound
before-lower_bound x [] = tt
before-lower_bound x (k ∷ ks) = elim (Bool-cases (ltb k x)) [
  | inl less ↦ rw less (ltb→lt k x less, before-lower_bound x ks)
  | inr more ↦ rw more tt
]

after-lower_bound :
    (x : ℕ) (ks : List ℕ) → IsAscending ks → All (λ k. x ≤ k) (drop (lower_bound x ks) ks)
unfolding drop lower_bound
after-lower_bound x [] s = tt
after-lower_bound x (k ∷ ks) s = elim (Bool-cases (ltb k x)) [
  | inl less ↦ rw less (after-lower_bound x ks s.1)
  | inr more ↦ let le : x ≤ k = ground (arith, more) in rw more (le, All-le x k ks le s.0)
]

pub lower_bound-le : (x : ℕ) (ks : List ℕ) → lower_bound x ks ≤ length ks
unfolding lower_bound
lower_bound-le x [] = omega arith
lower_bound-le x (k ∷ ks) = ground (arith, lower_bound-le x ks)

lower_bound_lem : (x : ℕ) (ks : List ℕ) → All (λ k. k < x) ks → lower_bound x ks ≡ length ks
unfolding lower_bound
lower_bound_lem x [] h = refl
lower_bound_lem x (k ∷ ks) h = ground (arith, lower_bound_lem x ks h.1, h.0)

lower_bound_none : (x : ℕ) (ks : List ℕ) → All (λ k. x ≤ k) ks → lower_bound x ks ≡ 0
unfolding lower_bound
lower_bound_none x [] h = refl
lower_bound_none x (k ∷ ks) h = ground (arith, h.0)

-- The last of the positions.
abbrev last : ℕ → List ℕ → ℕ
last p [] = p
last p (q ∷ qs) = last q qs

abbrev IsRising : ℕ → List ℕ → Type 0
IsRising p [] = Unit
IsRising p (q ∷ qs) = (p ≤ q) × IsRising q qs

positions_from-IsRising :
    (p : ℕ) (ks : List ℕ) (rs : List Range) → IsRising p (positions_from p ks rs)
unfolding positions_from
positions_from-IsRising p ks [] = tt
positions_from-IsRising p ks (r ∷ rs) =
    (omega arith, positions_from-IsRising (p + lower_bound r.end ks) _ rs)

-- The positions end behind the last key.
last-positions_from :
    (a b p : ℕ) (ks : List ℕ) (rs : List Range)
    → Tiles a b rs
    → IsAscending ks
    → All (λ k. a ≤ k) ks
    → All (λ k. k < b) ks
    → last p (positions_from p ks rs) ≡ p + length ks
unfolding positions_from
last-positions_from a b p [] [] tiles s above below = omega arith
last-positions_from a b p (k ∷ ks) [] tiles s above below = absurd (omega (arith, above.0, below.0))
last-positions_from a b p ks (r ∷ rs) tiles s above below =
    let len = lower_bound r.end ks in
    last-positions_from r.end b (p + len) (drop len ks) rs tiles.2 (drop-IsAscending len ks s)
      (after-lower_bound r.end ks s) (All-drop (λ k. k < b) len ks below)
    ∙ omega (arith, length-drop len ks, lower_bound-le r.end ks)

last-le : (p : ℕ) (qs : List ℕ) → IsRising p qs → p ≤ last p qs
last-le p [] rising = omega arith
last-le p (q ∷ qs) rising = omega (arith, rising.0, last-le q qs rising.1)

All-both : (P Q : ℕ → Type 0) (ks : List ℕ) → All P ks → All Q ks → All (λ k. P k × Q k) ks
All-both P Q [] p q = tt
All-both P Q (k ∷ ks) p q = ((p.0, q.0), All-both P Q ks p.1 q.1)

pub taken_lem : (p len : ℕ) (ks : List ℕ) → segment p (p + len) ks ≡ take len (drop p ks)
unfolding segment
taken_lem p len ks = let e : (p + len) - p ≡ len = omega arith in ap (λ n. take n (drop p ks)) e

pub length_0 : {A : Type 0} (xs : List A) → length xs ≡ 0 → xs ≡ []
length_0 [] e = refl
length_0 (x ∷ xs) e = absurd (omega arith)

All-zero : (ks : List ℕ) → All (λ k. 0 ≤ k) ks
All-zero [] = tt
All-zero (k ∷ ks) = (omega arith, All-zero ks)

pub first_position_lem :
    (b : ℕ) (ks : List ℕ) (rs : List Range) → Tiles 0 b rs → first_position ks rs ≡ 0
unfolding first_position
first_position_lem b ks [] tiles = refl
first_position_lem b ks (r ∷ rs) tiles = rw tiles.0 (lower_bound_none 0 ks (All-zero ks))

module _ {Val : Type 0} where
  -- The keys, and the values, of all slices.
  abbrev pub all_keys : List (Slice Val) → List ℕ
  all_keys [] = []
  all_keys (s ∷ ss) = s.kvs.keys ++ all_keys ss

  abbrev pub all_vals : List (Slice Val) → List Val
  all_vals [] = []
  all_vals (s ∷ ss) = s.kvs.vals ++ all_vals ss

  pub keys-slice_at :
      (k : ℕ) (keys : List ℕ) (vals : List Val) (p q : ℕ)
      → (slice_at k keys vals p q).kvs.keys ≡ segment p q keys
  unfolding slice_at
  keys-slice_at k keys vals p q = elim (Bool-cases (q == p)) [
    | inl same ↦ rw (same, ==→eq q p same) (sym (segment_empty p keys))
    | inr apart ↦ rw apart refl
  ]

  vals-slice_at :
      (k : ℕ) (keys : List ℕ) (vals : List Val) (p q : ℕ)
      → (slice_at k keys vals p q).kvs.vals ≡ segment (p * k) (q * k) vals
  unfolding slice_at
  vals-slice_at k keys vals p q = elim (Bool-cases (q == p)) [
    | inl same ↦ rw (same, ==→eq q p same) (sym (segment_empty (p * k) vals))
    | inr apart ↦ rw apart refl
  ]

  all_keys-slices_from :
      (k : ℕ) (keys : List ℕ) (vals : List Val) (p : ℕ) (qs : List ℕ)
      → IsRising p qs
      → all_keys (slices_from k keys vals p qs) ≡ segment p (last p qs) keys
  unfolding slices_from
  all_keys-slices_from k keys vals p [] rising = sym (segment_empty p keys)
  all_keys-slices_from k keys vals p (q ∷ qs) rising =
      rw (keys-slice_at k keys vals p q, all_keys-slices_from k keys vals q qs rising.1)
        (segment-append p q (last q qs) keys rising.0 (last-le q qs rising.1))

  all_vals-slices_from :
      (k : ℕ) (keys : List ℕ) (vals : List Val) (p : ℕ) (qs : List ℕ)
      → IsRising p qs
      → all_vals (slices_from k keys vals p qs) ≡ segment (p * k) (last p qs * k) vals
  unfolding slices_from
  all_vals-slices_from k keys vals p [] rising = sym (segment_empty (p * k) vals)
  all_vals-slices_from k keys vals p (q ∷ qs) rising =
      let low : p * k ≤ q * k = grind (arith, rising.0) in
      let high : q * k ≤ last q qs * k = grind (arith, last-le q qs rising.1) in
      rw (vals-slice_at k keys vals p q, all_vals-slices_from k keys vals q qs rising.1)
        (segment-append (p * k) (q * k) (last q qs * k) vals low high)

  -- The keys of each slice lie in the range of its server.
  abbrev pub IsCut : List (Slice Val) → List Range → Type 0
  IsCut [] [] = Unit
  IsCut [] (r ∷ rs) = ⊥
  IsCut (s ∷ ss) [] = ⊥
  IsCut (s ∷ ss) (r ∷ rs) = All (λ k. (r.begin ≤ k) × (k < r.end)) s.kvs.keys × IsCut ss rs

  slices_from-IsCut :
      (k : ℕ) (keys : List ℕ) (vals : List Val) (a b p : ℕ) (rs : List Range)
      → Tiles a b rs
      → IsAscending (drop p keys)
      → All (λ j. a ≤ j) (drop p keys)
      → IsCut (slices_from k keys vals p (positions_from p (drop p keys) rs)) rs
  unfolding slices_from positions_from
  slices_from-IsCut k keys vals a b p [] tiles s above = tt
  slices_from-IsCut k keys vals a b p (r ∷ rs) tiles s above =
      let len = lower_bound r.end (drop p keys) in
      let taken : segment p (p + len) keys ≡ take len (drop p keys) = taken_lem p len keys in
      (
        rw (keys-slice_at k keys vals p (p + len), taken)
            (All-both _ _ (take len (drop p keys))
              (rw tiles.0 (All-take (λ j. a ≤ j) len (drop p keys) above))
              (before-lower_bound r.end (drop p keys))),
        rw (drop-drop p len keys) (
            slices_from-IsCut k keys vals r.end b (p + len) rs tiles.2
              (rw (← drop-drop p len keys) (drop-IsAscending len (drop p keys) s))
              (rw (← drop-drop p len keys) (after-lower_bound r.end (drop p keys) s))),
      )

module _ (Val : Type 0) where
  all_keys-empty_slices : (rs : List Range) → all_keys (empty_slices {Val = Val} rs) ≡ []
  unfolding empty_slices
  all_keys-empty_slices [] = refl
  all_keys-empty_slices (r ∷ rs) = all_keys-empty_slices rs

  all_vals-empty_slices : (rs : List Range) → all_vals (empty_slices {Val = Val} rs) ≡ []
  unfolding empty_slices
  all_vals-empty_slices [] = refl
  all_vals-empty_slices (r ∷ rs) = all_vals-empty_slices rs

  empty_slices-IsCut : (rs : List Range) → IsCut (empty_slices {Val = Val} rs) rs
  unfolding empty_slices
  empty_slices-IsCut [] = tt
  empty_slices-IsCut (r ∷ rs) = (tt, empty_slices-IsCut rs)

module _ {Val : Type 0} where
  -- The slices of keys that begin behind the first range's begin.
  slices-IsCut :
      (k b : ℕ) (keys : List ℕ) (vals : List Val) (ranges : List Range)
      → Tiles 0 b ranges
      → IsAscending keys
      → All (λ j. j < b) keys
      → length vals ≡ length keys * k
      → let ss = slices_from k keys vals 0 (positions_from 0 keys ranges) in
        (all_keys ss ≡ keys) × (all_vals ss ≡ vals) × IsCut ss ranges
  unfolding drop
  slices-IsCut k b keys vals ranges tiles s below even =
      let rising = positions_from-IsRising 0 keys ranges in
      let zero_times : 0 * k ≡ 0 = omega arith in
      let end : last 0 (positions_from 0 keys ranges) ≡ length keys =
        last-positions_from 0 b 0 keys ranges tiles s (All-zero keys) below ∙ omega arith in
      (
        all_keys-slices_from k keys vals 0 _ rising
            ∙ ap (λ n. segment 0 n keys) end
            ∙ segment_all (length keys) keys (omega arith),
        all_vals-slices_from k keys vals 0 _ rising
            ∙ ap (λ n. segment n (last 0 (positions_from 0 keys ranges) * k) vals) zero_times
            ∙ ap (λ n. segment 0 (n * k) vals) end
            ∙ segment_all (length keys * k) vals (omega (arith, even)),
        slices_from-IsCut k keys vals 0 b 0 ranges tiles s (All-zero keys),
      )

  -- For increasing keys below the end of consecutive key ranges from 0 on, with the same number of
  -- values for every key, Slice_ loses no key and no value, keeps their order, and gives each
  -- server keys of its own range only.
  pub slice-IsCut :
      (send : KvPairs Val) (b k : ℕ) (ranges : List Range)
      → Tiles 0 b ranges
      → IsAscending send.keys
      → All (λ j. j < b) send.keys
      → length send.vals ≡ k * length send.keys
      → (all_keys (slice send ranges) ≡ send.keys)
        × (all_vals (slice send ranges) ≡ send.vals)
        × IsCut (slice send ranges) ranges
  unfolding slice drop
  slice-IsCut send b k ranges tiles s below even = elim (Bool-cases (length send.keys == 0)) [
    | inl none ↦
        let no_keys = length_0 send.keys (==→eq _ _ none) in
        let no_vals =
          length_0 send.vals
            (omega (arith, even, ==→eq _ _ none, ap (λ n. k * n) (==→eq _ _ none))) in
        rw none (
          all_keys-empty_slices Val ranges ∙ sym no_keys,
          all_vals-empty_slices Val ranges ∙ sym no_vals,
          empty_slices-IsCut Val ranges,
        )
    | inr some ↦
        let per_key : length send.vals / length send.keys ≡ k = grind (arith, even, some) in
        rw (some, first_position_lem b send.keys ranges tiles, per_key)
          (slices-IsCut k b send.keys send.vals ranges tiles s below (omega (arith, even)))
  ]
