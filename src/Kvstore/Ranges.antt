-- ===== src/Kvstore/Ranges.antt =====
-- kvstore/ps_lite/range.h, and what it means that a list of ranges cuts up an interval.
use flexps_paper_version.Common.{ℕ, ◌+◌, ◌-◌, ◌%◌, ◌^◌, ◌≤◌, ◌≡◌, List, [], ◌∷◌, ◌++◌, arith, All}

abbrev pub u64_mod : ℕ
u64_mod = 2 ^ 64

-- The range [begin, end).
pub record Range : Type 0 where
  pub begin : ℕ
  pub end : ℕ

abbrev pub range : ℕ → ℕ → Range
range b e = record { begin = b; end = e }

-- `end_ - begin_` on uint64_t.
unfoldable pub size : Range → ℕ
size r = (r.end + u64_mod - r.begin) % u64_mod

-- The ranges cut [a, b) into consecutive pieces, some of which may be empty.
abbrev pub Tiles : ℕ → ℕ → List Range → Type 0
Tiles a b [] = a ≡ b
Tiles a b (r ∷ rs) = (r.begin ≡ a) × (a ≤ r.end) × Tiles r.end b rs

pub Tiles-append :
    (a b c : ℕ) (xs ys : List Range) → Tiles a b xs → Tiles b c ys → Tiles a c (xs ++ ys)
Tiles-append a b c [] ys p q = rw p q
Tiles-append a b c (x ∷ xs) ys (begins, ordered, p) q =
    (begins, ordered, Tiles-append x.end b c xs ys p q)

pub Tiles-le : (a b : ℕ) (rs : List Range) → Tiles a b rs → a ≤ b
Tiles-le a b [] p = omega arith
Tiles-le a b (r ∷ rs) p = omega (arith, Tiles-le r.end b rs p.2)

-- Every piece begins at or before `b`.
pub Tiles-begin_le : (a b : ℕ) (rs : List Range) → Tiles a b rs → All (λ r. r.begin ≤ b) rs
Tiles-begin_le a b [] p = tt
Tiles-begin_le a b (r ∷ rs) p =
    (omega (arith, p.0, p.1, Tiles-le r.end b rs p.2), Tiles-begin_le r.end b rs p.2)
