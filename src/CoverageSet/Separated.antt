-- ===== src/CoverageSet/Separated.antt =====
-- The representation invariant that CoverageSet.h states of `set_`, and the numbers a set holds.
use edencommon.Common.{
  ℕ, suc, ◌≤◌, ◌<◌, ◌≡◌, Bool, false, ◌&&◌, ◌||◌, List, [], ◌∷◌, arith, ltb, leb,
}
use edencommon.CoverageSet.{Interval, CoverageSet}

-- In order from `lo` on, none empty, no two of them overlapping or adjacent.
abbrev pub Separated : ℕ → List Interval → Type 0
Separated lo [] = Unit
Separated lo (i ∷ is) = (lo ≤ i.begin) × (i.begin < i.end) × Separated (suc i.end) is

abbrev pub IsSeparated : CoverageSet → Type 0
IsSeparated s = Separated 0 s.set

abbrev pub in_range : ℕ → ℕ → ℕ → Bool
in_range b e x = leb b x && ltb x e

-- Some interval of the list holds `x`.
abbrev pub held : List Interval → ℕ → Bool
held [] x = false
held (i ∷ is) x = in_range i.begin i.end x || held is x

pub Separated-weaken :
    (lo lo' : ℕ) (is : List Interval) → lo' ≤ lo → Separated lo is → Separated lo' is
Separated-weaken lo lo' [] h s = tt
Separated-weaken lo lo' (i ∷ is) h s = (omega arith, s.1, s.2)

-- Nothing below the bound is held.
pub held_below : (lo x : ℕ) (is : List Interval) → Separated lo is → x < lo → held is x ≡ false
held_below lo x [] s h = ground arith
held_below lo x (i ∷ is) s h = ground (arith, held_below (suc i.end) x is s.2)
