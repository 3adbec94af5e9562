-- ===== src/Kvstore/KvWorker/Replies/Assembly.antt =====
-- kvstore/kvworker.hpp: the callback of `Pull_` gives the values in the order of the keys, in
-- whatever order the servers answer.
use flexps_paper_version.Common.{
  ℕ, ◌≤◌, ◌<◌, ◌≡◌, ◌≢◌, ◌⊎◌, refl, sym, ap, ◌∙◌, inl, inr, false, none, List, [], ◌∷◌, map, arith,
  leb, le→leb, lt→leb_false, if◌then◌else◌, length, All, Bool-cases, ◌==◌, ==→eq,
}
use mathlib.Core.List.{map-append}
use native.Mathlib.Decide.{dec_le, dec_lt}
use flexps_paper_version.Kvstore.Ranges.{Range, Tiles}
use flexps_paper_version.Kvstore.Handles.{KvPairs}
use flexps_paper_version.Kvstore.KvWorker.{Slice, slice}
use flexps_paper_version.Kvstore.KvWorker.Slices.{
  all_keys, IsCut, IsAscending, slice-IsCut, length_0,
}
use flexps_paper_version.Kvstore.KvWorker.Replies.{
  Received, front, insert_by_front, sort_by_front, join, fill_vals,
}

ℕ_lt_or : (a b : ℕ) → a ≢ b → (a < b) ⊎ (b < a)
ℕ_lt_or a b apart = elim (dec_le a b) [ yes le ↦ inl (ne_lt le) | no gt ↦ inr (omega arith) ]
  where
    ne_lt : a ≤ b → a < b
    ne_lt le = elim (dec_lt a b) [ yes lt ↦ lt | no ge ↦ absurd (apart (omega arith)) ]

module _ {Val : Type 0} where
  -- `zs` is `ys` with `x` at some place.
  pub data Inserted (x : Received Val) : List (Received Val) → List (Received Val) → Type 0 where
    here : (ys : List (Received Val)) → Inserted x ys (x ∷ ys)
    later :
        (y : Received Val) (ys zs : List (Received Val))
        → Inserted x ys zs
        → Inserted x (y ∷ ys) (y ∷ zs)

  -- The second list is an order in which the first may arrive.
  pub data Arrival : List (Received Val) → List (Received Val) → Type 0 where
    nil : Arrival [] []
    arrive :
        (x : Received Val) (xs ys zs : List (Received Val))
        → Arrival xs ys
        → Inserted x ys zs
        → Arrival (x ∷ xs) zs

  abbrev key : Received Val → ℕ
  key x = front x.kvs

  -- In increasing order of their first keys.
  abbrev pub IsRising : List (Received Val) → Type 0
  IsRising [] = Unit
  IsRising (x ∷ xs) = All (λ y. key x < key y) xs × IsRising xs

  insert_by_front-first :
      (x : Received Val) (xs : List (Received Val))
      → All (λ y. key x < key y) xs
      → insert_by_front x xs ≡ x ∷ xs
  unfolding insert_by_front
  insert_by_front-first x [] low = refl
  insert_by_front-first x (y ∷ ys) low = rw (le→leb (key x) (key y) (omega (arith, low.0))) refl

  insert_by_front_comm :
      (x y : Received Val) (zs : List (Received Val))
      → key x < key y
      → insert_by_front y (insert_by_front x zs) ≡ insert_by_front x (insert_by_front y zs)
  unfolding insert_by_front
  insert_by_front_comm x y [] lt =
      rw (le→leb (key x) (key y) (omega arith), lt→leb_false (key y) (key x) lt) refl
  insert_by_front_comm x y (z ∷ zs) lt = elim (Bool-cases (leb (key x) (key z))) [
    | inl low ↦ elim (Bool-cases (leb (key y) (key z))) [
      | inl both ↦
          rw (low, both, lt→leb_false (key y) (key x) lt, le→leb (key x) (key y) (omega arith)) refl
      | inr apart ↦ rw (low, apart, lt→leb_false (key y) (key x) lt) (rw low refl)
    ]
    | inr high ↦
        let above : key z < key x = ground (arith, high) in
        let apart = lt→leb_false (key y) (key z) (omega arith) in
        rw (high, apart) (rw high (ap (◌∷◌ z) (insert_by_front_comm x y zs lt)))
  ]

  -- Where a reply stands among the others does not matter, if no other has its first key.
  sort_by_front-Inserted :
      (x : Received Val) (ys zs : List (Received Val))
      → All (λ y. key x ≢ key y) ys
      → Inserted x ys zs
      → sort_by_front zs ≡ insert_by_front x (sort_by_front ys)
  unfolding sort_by_front
  sort_by_front-Inserted x ys zs apart (here _) = refl
  sort_by_front-Inserted x (y ∷ ys) (_ ∷ zs) apart (later _ _ _ inside) =
      rw (sort_by_front-Inserted x ys zs apart.1 inside) (elim (ℕ_lt_or (key x) (key y) apart.0) [
        | inl lt ↦ insert_by_front_comm x y (sort_by_front ys) lt
        | inr gt ↦ sym (insert_by_front_comm y x (sort_by_front ys) gt)
      ])

  All-Inserted :
      (P : Received Val → Type 0) (x : Received Val) (ys zs : List (Received Val))
      → Inserted x ys zs
      → P x
      → All P ys
      → All P zs
  All-Inserted P x ys zs (here _) px pys = (px, pys)
  All-Inserted P x (y ∷ ys) (_ ∷ zs) (later _ _ _ inside) px pys =
      (pys.0, All-Inserted P x ys zs inside px pys.1)

  All-Arrival :
      (P : Received Val → Type 0) (xs zs : List (Received Val))
      → Arrival xs zs
      → All P xs
      → All P zs
  All-Arrival P [] [] nil pxs = tt
  All-Arrival P [] (_ ∷ _) a pxs = elim a [ ]
  All-Arrival P (x ∷ xs) zs (arrive _ _ ys _ before inside) pxs =
      All-Inserted P x ys zs inside pxs.0 (All-Arrival P xs ys before pxs.1)

  All-lt-ne :
      (x : Received Val) (ys : List (Received Val))
      → All (λ y. key x < key y) ys
      → All (λ y. key x ≢ key y) ys
  All-lt-ne x [] low = tt
  All-lt-ne x (y ∷ ys) low = (λ e. omega (arith, e, low.0), All-lt-ne x ys low.1)

  -- Sorting undoes every order of arrival.
  pub sort_by_front-Arrival :
      (xs zs : List (Received Val)) → IsRising xs → Arrival xs zs → sort_by_front zs ≡ xs
  unfolding sort_by_front
  sort_by_front-Arrival [] [] rising nil = refl
  sort_by_front-Arrival [] (_ ∷ _) rising a = elim a [ ]
  sort_by_front-Arrival (x ∷ xs) zs rising (arrive _ _ ys _ before inside) =
      sort_by_front-Inserted x ys zs
        (All-lt-ne x ys (All-Arrival (λ y. key x < key y) xs ys before rising.0)) inside
      ∙ ap (insert_by_front x) (sort_by_front-Arrival xs ys rising.1 before)
      ∙ insert_by_front-first x xs rising.0

  front-All :
      (P : ℕ → Type 0) (keys : List ℕ) (vals : List Val)
      → All P keys
      → (length keys == 0) ≡ false
      → P (front (record { keys = keys; vals = vals }))
  unfolding front
  front-All P [] vals all some = cc
  front-All P (k ∷ ks) vals all some = all.0

  All-low :
      (a b : ℕ) (xs : List (Received Val))
      → a ≤ b
      → All (λ y. b ≤ key y) xs
      → All (λ y. a ≤ key y) xs
  All-low a b [] le low = tt
  All-low a b (x ∷ xs) le low = (omega (arith, low.0), All-low a b xs le low.1)

  All-lt :
      (a b : ℕ) (xs : List (Received Val))
      → a < b
      → All (λ y. b ≤ key y) xs
      → All (λ y. a < key y) xs
  All-lt a b [] lt low = tt
  All-lt a b (x ∷ xs) lt low = (omega (arith, low.0), All-lt a b xs lt low.1)

  -- What the servers send back for the slices that have keys, where key `k` has the value `f k`.
  unfoldable pub answers : (ℕ → Val) → List (Slice Val) → List (Received Val)
  answers f [] = []
  answers f (s ∷ ss) =
      let rest = answers f ss in
      if length s.kvs.keys == 0
      then rest
      else record { kvs = record { keys = s.kvs.keys; vals = map f s.kvs.keys }; min_clock = none }
        ∷ rest

  join-answers : (f : ℕ → Val) (ss : List (Slice Val)) → join (answers f ss) ≡ map f (all_keys ss)
  unfolding join answers
  join-answers f [] = refl
  join-answers f (s ∷ ss) = elim (Bool-cases (length s.kvs.keys == 0)) [
    | inl void ↦ rw (void, length_0 s.kvs.keys (==→eq _ _ void)) (join-answers f ss)
    | inr some ↦ rw (some, map-append f s.kvs.keys (all_keys ss), join-answers f ss) refl
  ]

  -- The answers of the slices from `a` on begin there or later.
  answers-low :
      (f : ℕ → Val) (a b : ℕ) (ss : List (Slice Val)) (rs : List Range)
      → Tiles a b rs
      → IsCut ss rs
      → All (λ y. a ≤ key y) (answers f ss)
  unfolding answers
  answers-low f a b [] rs tiles cut = tt
  answers-low f a b (s ∷ ss) [] tiles cut = elim cut [ ]
  answers-low f a b (s ∷ ss) (r ∷ rs) tiles cut =
      let rest =
        All-low a r.end (answers f ss) tiles.1 (answers-low f r.end b ss rs tiles.2 cut.1) in
      elim (Bool-cases (length s.kvs.keys == 0)) [
        | inl void ↦ rw void rest
        | inr some ↦
            let first =
              front-All (λ k. (r.begin ≤ k) × (k < r.end)) s.kvs.keys (map f s.kvs.keys) cut.0
                some in
            rw some (omega (arith, first.0, tiles.0), rest)
      ]

  answers-IsRising :
      (f : ℕ → Val) (a b : ℕ) (ss : List (Slice Val)) (rs : List Range)
      → Tiles a b rs
      → IsCut ss rs
      → IsRising (answers f ss)
  unfolding answers
  answers-IsRising f a b [] rs tiles cut = tt
  answers-IsRising f a b (s ∷ ss) [] tiles cut = elim cut [ ]
  answers-IsRising f a b (s ∷ ss) (r ∷ rs) tiles cut =
      let rest = answers-IsRising f r.end b ss rs tiles.2 cut.1 in
      elim (Bool-cases (length s.kvs.keys == 0)) [
        | inl void ↦ rw void rest
        | inr some ↦
            let first =
              front-All (λ k. (r.begin ≤ k) × (k < r.end)) s.kvs.keys (map f s.kvs.keys) cut.0
                some in
            rw some (
              All-lt _ r.end (answers f ss) first.1 (answers-low f r.end b ss rs tiles.2 cut.1),
              rest,
            )
      ]

  -- Let `k` have the value `f k` on its server. For increasing keys below the end of consecutive
  -- key ranges from 0 on, the callback of Pull_ gives the values of the keys in their order, in
  -- whatever order the answers to the slices arrive.
  pub fill_vals-Arrival :
      (f : ℕ → Val) (keys : List ℕ) (b : ℕ) (ranges : List Range) (arrived : List (Received Val))
      → Tiles 0 b ranges
      → IsAscending keys
      → All (λ k. k < b) keys
      → Arrival (answers f (slice (record { keys = keys; vals = [] }) ranges)) arrived
      → fill_vals arrived ≡ map f keys
  unfolding fill_vals
  fill_vals-Arrival f keys b ranges arrived tiles s below arrival =
      let send : KvPairs Val = record { keys = keys; vals = [] } in
      let (whole, _, cut) = slice-IsCut send b 0 ranges tiles s below (omega arith) in
      ap join (
        sort_by_front-Arrival (answers f (slice send ranges)) arrived
          (answers-IsRising f 0 b (slice send ranges) ranges tiles cut) arrival)
      ∙ join-answers f (slice send ranges)
      ∙ ap (map f) whole
