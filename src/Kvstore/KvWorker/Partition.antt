-- ===== src/Kvstore/KvWorker/Partition.antt =====
-- kvstore/kvworker.hpp: `PartitionChunks_` gives every chunk to the server of its keys.
use flexps_paper_version.Common.{
  ℕ, suc, ◌+◌, ◌-◌, ◌*◌, ◌%◌, ◌≤◌, ◌<◌, ◌≡◌, refl, sym, ap, ◌∙◌, inl, inr, true, false, List, [],
  ◌∷◌, ok, arith, leb, leb→le, lt→leb_false, length, All, All-append, Bool-cases, ◌>>=◌,
}
use flexps_paper_version.Common.Segments.{
  take, drop, segment, segment-append, segment_empty, drop-drop,
}
use flexps_paper_version.Kvstore.Ranges.{Range, Tiles, u64_mod}
use flexps_paper_version.Kvstore.KvWorker.Slices.{IsAscending}
use flexps_paper_version.Kvstore.KvWorker.Chunks.{fill, partition_from, partition_chunks}

All-zero : (size : ℕ) (cs : List ℕ) → All (λ c. 0 ≤ c * size) cs
All-zero size [] = tt
All-zero size (c ∷ cs) = (omega arith, All-zero size cs)

module _ (size : ℕ) (ids : List ℕ) where
  -- The chunk begins in the range.
  abbrev pub Begins : Range → ℕ → Type 0
  Begins r c = (r.begin ≤ c * size) × (c * size < r.end)

  -- The chunks between two positions begin in the range between them.
  abbrev pub IsPartition : ℕ → List ℕ → List Range → Type 0
  IsPartition p [] [] = p ≡ length ids
  IsPartition p [] (r ∷ rs) = ⊥
  IsPartition p (q ∷ qs) [] = ⊥
  IsPartition p (q ∷ qs) (r ∷ rs) = (p ≤ q) × All (Begins r) (segment p q ids) × IsPartition q qs rs

  fill-IsPartition : (rs : List Range) → IsPartition (length ids) (fill (length ids) rs) rs
  unfolding fill
  fill-IsPartition [] = refl
  fill-IsPartition (r ∷ rs) =
      (omega arith, rw (segment_empty (length ids) ids) tt, fill-IsPartition rs)

  All-scaled :
      (a c : ℕ) (cs : List ℕ) → a ≤ c * size → All (λ j. c ≤ j) cs → All (λ j. a ≤ j * size) cs
  All-scaled a c [] le low = tt
  All-scaled a c (j ∷ js) le low =
      let scaled : c * size ≤ j * size = grind (arith, low.0) in
      (omega arith, All-scaled a c js le low.1)

  next_drop : (i c : ℕ) (cs : List ℕ) → drop i ids ≡ c ∷ cs → drop (suc i) ids ≡ cs
  unfolding drop
  next_drop i c cs left =
      let e : suc i ≡ i + 1 = omega arith in
      ap (λ k. drop k ids) e ∙ sym (drop-drop i 1 ids) ∙ ap (drop 1) left

  segment_one : (i c : ℕ) (cs : List ℕ) → drop i ids ≡ c ∷ cs → segment i (suc i) ids ≡ c ∷ []
  unfolding segment take
  segment_one i c cs left =
      let e : suc i - i ≡ 1 = omega arith in ap (λ k. take k (drop i ids)) e ∙ ap (take 1) left

  next_segment :
      (p i c : ℕ) (cs : List ℕ) (r : Range)
      → drop i ids ≡ c ∷ cs
      → p ≤ i
      → All (Begins r) (segment p i ids)
      → Begins r c
      → All (Begins r) (segment p (suc i) ids)
  next_segment p i c cs r left le done begins =
      rw (← segment-append p i (suc i) ids le (omega arith), segment_one i c cs left)
        (All-append (Begins r) (segment p i ids) (c ∷ []) done (begins, tt))

  partition_inside :
      (total i c : ℕ) (cs : List ℕ) (r : Range) (rs : List Range)
      → leb r.end (c * size % u64_mod) ≡ false
      → partition_from size total i (c ∷ cs) (r ∷ rs)
        ≡ partition_from size total (suc i) cs (r ∷ rs)
  unfolding partition_from
  partition_inside total i c cs r rs inside = rw (partition_from, inside) refl

  partition_past :
      (total i c : ℕ) (cs : List ℕ) (r : Range) (rs : List Range)
      → leb r.end (c * size % u64_mod) ≡ true
      → partition_from size total i (c ∷ cs) (r ∷ rs)
        ≡ (partition_from size total i (c ∷ cs) rs >>= λ pos. ok (i ∷ pos))
  unfolding partition_from
  partition_past total i c cs r rs past = rw (partition_from, past) refl

  partition_from-IsPartition :
      (b p i : ℕ) (cs : List ℕ) (r : Range) (rs : List Range)
      → drop i ids ≡ cs
      → p ≤ i
      → i + length cs ≡ length ids
      → All (Begins r) (segment p i ids)
      → Tiles r.end b rs
      → b ≤ u64_mod
      → IsAscending cs
      → All (λ c. r.begin ≤ c * size) cs
      → All (λ c. c * size < b) cs
      → (pos : List ℕ) × (partition_from size (length ids) i cs (r ∷ rs) ≡ ok pos)
        × IsPartition p pos (r ∷ rs)
  unfolding partition_from
  partition_from-IsPartition b p i [] r rs left le count done tiles fits s low high =
      let end : i ≡ length ids = omega arith in
      (_, refl, (omega arith, rw (← end) done, fill-IsPartition rs))
  partition_from-IsPartition b p i (c ∷ cs) r [] left le count done tiles fits s low high =
      let inside : leb r.end (c * size % u64_mod) ≡ false =
        lt→leb_false r.end (c * size % u64_mod) (omega (arith, tiles, high.0, fits)) in
      rw (partition_inside (length ids) i c cs r [] inside) (
        partition_from-IsPartition b p (suc i) cs r [] (next_drop i c cs left) (omega arith)
          (omega arith) (next_segment p i c cs r left le done (low.0, omega (arith, tiles, high.0)))
          tiles fits s.1 low.1 high.1)
  partition_from-IsPartition b p i (c ∷ cs) r (r' ∷ rs) left le count done tiles fits s low high =
      elim (Bool-cases (leb r.end (c * size % u64_mod))) [
        | inl past ↦
            let behind : r.end ≤ c * size = omega (arith, leb→le _ _ past, high.0, fits) in
            let here : r'.begin ≤ c * size = omega (arith, behind, tiles.0) in
            let (pos, e, cut) =
              partition_from-IsPartition b i i (c ∷ cs) r' rs left (omega arith) count
                (rw (segment_empty i ids) tt) tiles.2 fits s
                (here, All-scaled r'.begin c cs here s.0) high in
            rw (partition_past (length ids) i c cs r (r' ∷ rs) past, e)
              (i ∷ pos, refl, (le, done, cut))
        | inr inside ↦
            let before : c * size < r.end = ground (arith, inside, high.0, fits) in
            rw (partition_inside (length ids) i c cs r (r' ∷ rs) inside) (
              partition_from-IsPartition b p (suc i) cs r (r' ∷ rs) (next_drop i c cs left)
                (omega arith) (omega arith) (next_segment p i c cs r left le done (low.0, before))
                tiles fits s.1 low.1 high.1)
      ]

-- For increasing chunk ids that begin below the end of consecutive key ranges from 0 on, within
-- the machine's bounds, PartitionChunks_ meets no failed assertion and gives every server exactly
-- the chunks that begin in its range, the last ones included.
pub partition_chunks-IsPartition :
    (size b : ℕ) (ids : List ℕ) (r : Range) (rs : List Range)
    → Tiles 0 b (r ∷ rs)
    → b ≤ u64_mod
    → IsAscending ids
    → All (λ c. c * size < b) ids
    → (pos : List ℕ) × (partition_chunks size ids (r ∷ rs) ≡ ok (0 ∷ pos))
      × IsPartition size ids 0 pos (r ∷ rs)
unfolding partition_chunks drop
partition_chunks-IsPartition size b ids r rs tiles fits s high =
    let (pos, e, cut) =
      partition_from-IsPartition size ids b 0 0 ids r rs refl (omega arith) (omega arith)
        (rw (segment_empty 0 ids) tt) tiles.2 fits s (rw tiles.0 (All-zero size ids)) high in
    rw e (pos, refl, cut)
