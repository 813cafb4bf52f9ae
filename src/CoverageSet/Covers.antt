-- ===== src/CoverageSet/Covers.antt =====
-- CoverageSet::covers answers for the whole set of numbers, though it looks at one interval.
use edencommon.Common.{
  ℕ, suc, ◌≤◌, ◌<◌, ◌≡◌, ◌↔◌, ◌⊎◌, inl, inr, true, false, none, some, List, [], ◌∷◌, arith,
  Option-cases,
}
use edencommon.CoverageSet.{Interval, CoverageSet, prev_upper, holds, covers}
use edencommon.CoverageSet.Separated.{Separated, IsSeparated, held, held_below}

-- Where every interval begins past `b`, nothing up to `b` is held.
prev_upper-none :
    (lo b x : ℕ) (is : List Interval)
    → Separated lo is
    → prev_upper b is ≡ none
    → x ≤ b
    → held is x ≡ false
unfolding prev_upper
prev_upper-none lo b x [] s h p = ground arith
prev_upper-none lo b x (i ∷ is) s h p = ground (arith, held_below (suc i.end) x is s.2)

-- The interval found begins at `b` or before, and its numbers are held.
prev_upper-held :
    (lo b x : ℕ) (is : List Interval) (i : Interval)
    → Separated lo is
    → prev_upper b is ≡ some i
    → b ≤ x
    → x < i.end
    → held is x ≡ true
unfolding prev_upper
prev_upper-held lo b x [] i s h q r = ground arith
prev_upper-held lo b x (j ∷ is) i s h q r = ground (arith, prev_upper-held (suc j.end) b x is i s.2)

prev_upper-begin :
    (b : ℕ) (is : List Interval) (i : Interval) → prev_upper b is ≡ some i → i.begin ≤ b
unfolding prev_upper
prev_upper-begin b [] i h = ground arith
prev_upper-begin b (j ∷ is) i h = ground (arith, prev_upper-begin b is i)

prev_upper-bounds :
    (lo b : ℕ) (is : List Interval) (i : Interval)
    → Separated lo is
    → prev_upper b is ≡ some i
    → (lo ≤ i.begin) × (i.begin < i.end)
unfolding prev_upper
prev_upper-bounds lo b [] i s h = ground arith
prev_upper-bounds lo b (j ∷ is) i s h = ground (arith, prev_upper-bounds (suc j.end) b is i s.2)

-- Behind its end, or at `b` if that is later, comes a number that is not held.
prev_upper-gap :
    (lo b x : ℕ) (is : List Interval) (i : Interval)
    → Separated lo is
    → prev_upper b is ≡ some i
    → i.end ≤ x
    → (x ≤ b) ⊎ (x ≤ i.end)
    → held is x ≡ false
unfolding prev_upper
prev_upper-gap lo b x [] i s h p q = ground arith
prev_upper-gap lo b x (j ∷ is) i s h p q = ground (
  arith,
  prev_upper-gap (suc j.end) b x is i s.2,
  prev_upper-none (suc j.end) b x is s.2,
  held_below (suc j.end) x is s.2,
  prev_upper-bounds (suc j.end) b is i s.2,
)

module _ (s : CoverageSet) (b e : ℕ) (v : IsSeparated s) (h : b < e) where
  covers-held : covers s b e ≡ some true → (x : ℕ) → b ≤ x → x < e → held s.set x ≡ true
  unfolding covers holds
  covers-held c x p q = elim (Option-cases (prev_upper b s.set)) [
    | inl none_found ↦ ground arith
    | inr (i, found) ↦ ground (arith, prev_upper-held 0 b x s.set i v found)
  ]

  held-covers : ((x : ℕ) → b ≤ x → x < e → held s.set x ≡ true) → covers s b e ≡ some true
  unfolding covers holds
  held-covers all = elim (Option-cases (prev_upper b s.set)) [
    | inl none_found ↦ ground (arith, all b, prev_upper-none 0 b b s.set v none_found)
    | inr (i, found) ↦ ground (
      arith,
      prev_upper-begin b s.set i found,
      all b,
      all i.end,
      prev_upper-gap 0 b b s.set i v found,
      prev_upper-gap 0 b i.end s.set i v found,
    )
  ]

-- On a set with separated intervals and a non-empty range [b, e), `covers` answers yes exactly when
-- every number of the range is held by some interval of the set.
pub covers_iff_held :
    (s : CoverageSet) (b e : ℕ)
    → IsSeparated s
    → b < e
    → (covers s b e ≡ some true) ↔ ((x : ℕ) → b ≤ x → x < e → held s.set x ≡ true)
covers_iff_held s b e v h = (covers-held s b e v h, held-covers s b e v h)
