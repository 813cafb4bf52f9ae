-- ===== src/CoverageSet.antt =====
-- eden/common/utils/CoverageSet.h and CoverageSet.cpp: a set of numbers kept as disjoint intervals.
-- `std::set<Interval>` is the list of its intervals in the order of their begins, an iterator a
-- position in it. A failed XCHECK ends the process: `none`.
pub mod Separated
pub mod Covers
pub mod Add
pub mod Overlap
pub mod Tests
use edencommon.Common.{
  ℕ, ◌≡◌, max, Bool, true, false, ◌&&◌, Option, none, some, List, [], ◌∷◌, ◌++◌, ltb, leb, ◌==◌,
  if◌then◌else◌, length,
}

pub record Interval : Type 0 where
  pub begin : ℕ
  pub end : ℕ

abbrev pub interval : ℕ → ℕ → Interval
interval b e = record { begin = b; end = e }

pub record CoverageSet : Type 0 where
  pub set : List Interval

-- CoverageSet::clear
pub clear : CoverageSet → CoverageSet
clear s = record s { set = [] }

is_nil : List Interval → Bool
is_nil [] = true
is_nil (_ ∷ _) = false

-- CoverageSet::empty
pub empty : CoverageSet → Bool
unfolding is_nil
empty s = is_nil s.set

-- CoverageSet::getIntervalCount
pub get_interval_count : CoverageSet → ℕ
get_interval_count s = length s.set

-- The positions before `set_.lower_bound(Interval{begin, end})`, and those from it on.
pub before_lower : ℕ → List Interval → List Interval
before_lower b [] = []
before_lower b (i ∷ is) = let rest = i ∷ before_lower b is in if ltb i.begin b then rest else []

from_lower : ℕ → List Interval → List Interval
from_lower b [] = []
from_lower b (i ∷ is) = if ltb i.begin b then from_lower b is else i ∷ is

-- `left`, the last position before the lower bound, is erased if it ends where the new one begins.
merge_left : ℕ → List Interval → ℕ × List Interval
merge_left b [] = (b, [])
merge_left b (i ∷ []) = if i.end == b then (i.begin, []) else (b, i ∷ [])
merge_left b (i ∷ j ∷ is) = let (b', rest) = merge_left b (j ∷ is) in (b', i ∷ rest)

-- while (right != set_.end() && end >= right->begin)
merge_right : ℕ → List Interval → ℕ × List Interval
merge_right e [] = (e, [])
merge_right e (i ∷ is) =
    let rest = merge_right (max e i.end) is in if leb i.begin e then rest else (e, i ∷ is)

-- `std::set::insert`: an interval with the same begin is left in place.
insert : Interval → List Interval → List Interval
insert v [] = v ∷ []
insert v (i ∷ is) =
    if ltb v.begin i.begin
    then v ∷ i ∷ is
    else if ltb i.begin v.begin
    then i ∷ insert v is
    else i ∷ is

-- The body of CoverageSet::add between its early return and its end.
pub merge_in : ℕ → ℕ → List Interval → List Interval → List Interval
unfolding merge_left merge_right insert
merge_in b e lefts rights =
    let (b', ls) = merge_left b lefts in
    let (e', rs) = merge_right e rights in insert (interval b' e') (ls ++ rs)

-- CoverageSet::add
pub add : CoverageSet → ℕ → ℕ → Option CoverageSet
unfolding before_lower from_lower merge_in
add s b e =
    if leb b e
    then if b == e
      then some s
      else some (record s { set = merge_in b e (before_lower b s.set) (from_lower b s.set) })
    else none

last_from : Interval → Option Interval → Option Interval
last_from i none = some i
last_from i (some j) = some j

-- `std::prev(set_.upper_bound(Interval{begin, end}))`, if there is one.
prev_upper : ℕ → List Interval → Option Interval
unfolding last_from
prev_upper b [] = none
prev_upper b (i ∷ is) = if leb i.begin b then last_from i (prev_upper b is) else none

holds : Option Interval → ℕ → ℕ → Bool
holds none b e = false
holds (some i) b e = leb i.begin b && leb e i.end

-- CoverageSet::covers
pub covers : CoverageSet → ℕ → ℕ → Option Bool
unfolding prev_upper holds
covers s b e =
    if leb b e then if b == e then some true else some (holds (prev_upper b s.set) b e) else none
