-- ===== src/CoverageSet/Tests.antt =====
-- Concrete runs of CoverageSet, and its theorems at concrete sets.
use edencommon.Common.{ℕ, ◌≤◌, ◌<◌, ◌≡◌, refl, ◌↔◌, true, false, ◌||◌, some, none, [], ◌∷◌, arith}
use edencommon.CoverageSet.{CoverageSet, interval, add, covers, get_interval_count}
use edencommon.CoverageSet.Separated.{IsSeparated, held, in_range}
use edencommon.CoverageSet.Covers.{covers_iff_held}
use edencommon.CoverageSet.Add.{add-IsSeparated}
use edencommon.CoverageSet.Overlap.{add_inside_loses}

abbrev two_ranges : CoverageSet
two_ranges = record { set = interval 1 3 ∷ interval 5 8 ∷ [] }

adds_between : add two_ranges 3 5 ≡ some (record { set = interval 1 8 ∷ [] })
unfolding add
adds_between = refl

adds_across : add two_ranges 3 6 ≡ some (record { set = interval 1 8 ∷ [] })
unfolding add
adds_across = refl

adds_behind :
    add two_ranges 9 10 ≡ some (record { set = interval 1 3 ∷ interval 5 8 ∷ interval 9 10 ∷ [] })
unfolding add
adds_behind = refl

refuses_reversed : add two_ranges 4 3 ≡ none
unfolding add
refuses_reversed = refl

overlapping :
    add two_ranges 6 7 ≡ some (record { set = interval 1 3 ∷ interval 5 8 ∷ interval 6 7 ∷ [] })
unfolding add
overlapping = refl

covers_part : covers two_ranges 6 8 ≡ some true
unfolding covers
covers_part = refl

counts_two : get_interval_count two_ranges ≡ 2
unfolding get_interval_count
counts_two = refl

covers_iff_held_example :
    (covers two_ranges 5 7 ≡ some true) ↔ ((x : ℕ) → 5 ≤ x → x < 7 → held two_ranges.set x ≡ true)
covers_iff_held_example = covers_iff_held two_ranges 5 7 (omega arith) (omega arith)

add-IsSeparated_example :
    (s' : CoverageSet) × (add two_ranges 3 6 ≡ some s')
    × IsSeparated s'
    × ((x : ℕ) → held s'.set x ≡ (in_range 3 6 x || held two_ranges.set x))
add-IsSeparated_example = add-IsSeparated two_ranges 3 6 (omega arith) (omega arith) (omega arith)

add_inside_loses_example :
    (covers two_ranges 6 8 ≡ some true)
    × ((s' : CoverageSet) × (add two_ranges 6 7 ≡ some s') × (covers s' 6 8 ≡ some false))
unfolding covers
add_inside_loses_example =
    add_inside_loses two_ranges 5 6 7 8 (omega arith) (omega arith) (omega arith) (omega arith) refl
