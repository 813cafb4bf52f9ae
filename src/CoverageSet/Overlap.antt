-- ===== src/CoverageSet/Overlap.antt =====
-- CoverageSet::add looks at the interval before the new one only to see whether it ends where the
-- new one begins. What follows where it runs on into the new one.
use edencommon.Common.{
  ℕ, suc, ◌≤◌, ◌<◌, ◌≡◌, inl, inr, true, false, none, some, List, [], ◌∷◌, arith, leb, Bool-cases,
  Option-cases,
}
use edencommon.CoverageSet.{
  Interval, CoverageSet, interval, before_lower, from_lower, merge_left, merge_right, insert,
  merge_in, prev_upper, holds, add, covers,
}
use edencommon.CoverageSet.Separated.{Separated, IsSeparated}
use edencommon.CoverageSet.Covers.{covers_iff_held}
use edencommon.CoverageSet.Add.{merge_in-cons, before_lower-Separated}

-- Intervals that begin past both ends are not touched.
beyond :
    (lo b e : ℕ) (is : List Interval)
    → Separated lo is
    → b < lo
    → e < lo
    → (before_lower b is ≡ [])
      × (from_lower b is ≡ is)
      × (merge_right e is ≡ (e, is))
      × (prev_upper b is ≡ none)
unfolding before_lower from_lower merge_right prev_upper
beyond lo b e [] s h k = ground arith
beyond lo b e (i ∷ is) s h k = ground arith

add_list-beyond :
    (lo b e : ℕ) (i : Interval) (is : List Interval)
    → Separated lo (i ∷ is)
    → i.begin < b
    → b < e
    → e < i.end
    → merge_in b e (before_lower b (i ∷ is)) (from_lower b (i ∷ is)) ≡ i ∷ interval b e ∷ is
unfolding merge_in before_lower from_lower merge_left insert
add_list-beyond lo b e i [] s h k l = ground arith
add_list-beyond lo b e i (j ∷ is) s h k l = ground (arith, beyond (suc i.end) b e (j ∷ is) s.2)

before_lower-cons :
    (b : ℕ) (i : Interval) (is : List Interval)
    → i.begin < b
    → before_lower b (i ∷ is) ≡ i ∷ before_lower b is
unfolding before_lower
before_lower-cons b i is h = ground arith

from_lower-cons :
    (b : ℕ) (i : Interval) (is : List Interval)
    → i.begin < b
    → from_lower b (i ∷ is) ≡ from_lower b is
unfolding from_lower
from_lower-cons b i is h = ground arith

prev_upper-cons :
    (b : ℕ) (i j : Interval) (is : List Interval)
    → i.begin ≤ b
    → prev_upper b is ≡ some j
    → prev_upper b (i ∷ is) ≡ some j
unfolding prev_upper
prev_upper-cons b i j is h k = ground arith

-- Where `p` lies in or behind the second interval, the first is not the one found.
prev_upper-skip :
    (p : ℕ) (i j k : Interval) (is : List Interval)
    → j.begin ≤ p
    → prev_upper p (i ∷ j ∷ is) ≡ some k
    → (i.begin ≤ p) × (prev_upper p (j ∷ is) ≡ some k)
unfolding prev_upper
prev_upper-skip p i j k is h e = elim (Option-cases (prev_upper p is)) [
  | inl n ↦ ground arith
  | inr (m, n) ↦ ground arith
]

prev_upper-stop :
    (p : ℕ) (i j k : Interval) (is : List Interval)
    → p < j.begin
    → prev_upper p (i ∷ j ∷ is) ≡ some k
    → (i.begin ≤ p) × (i ≡ k)
unfolding prev_upper
prev_upper-stop p i j k is h e = ground arith

prev_upper-here :
    (lo b e : ℕ) (i : Interval) (is : List Interval)
    → Separated lo (i ∷ is)
    → i.begin < b
    → b < e
    → e < i.end
    → prev_upper b (i ∷ interval b e ∷ is) ≡ some (interval b e)
unfolding prev_upper
prev_upper-here lo b e i is s h k l = ground (arith, beyond (suc i.end) b e is s.2)

-- An interval that begins before `b` and is not the last such stays in front.
add_list-cons :
    (lo b e : ℕ) (i j : Interval) (is : List Interval)
    → Separated lo (i ∷ j ∷ is)
    → j.begin < b
    → merge_in b e (before_lower b (i ∷ j ∷ is)) (from_lower b (i ∷ j ∷ is))
      ≡ i ∷ merge_in b e (before_lower b (j ∷ is)) (from_lower b (j ∷ is))
add_list-cons lo b e i j is s h = cc (
  before_lower-cons b i (j ∷ is) (omega arith),
  before_lower-cons b j is h,
  from_lower-cons b i (j ∷ is) (omega arith),
  merge_in-cons lo b e i j (before_lower b is) (from_lower b (j ∷ is))
      (s.0, s.1, (s.2.0, s.2.1, before_lower-Separated (suc j.end) b is s.2.2)) (omega arith),
)

add_list-overlap :
    (lo p b e : ℕ) (is : List Interval) (k : Interval)
    → Separated lo is
    → prev_upper p is ≡ some k
    → p < b
    → b < e
    → e < k.end
    → prev_upper b (merge_in b e (before_lower b is) (from_lower b is)) ≡ some (interval b e)
unfolding prev_upper
add_list-overlap lo p b e [] k s f h m l = cc
add_list-overlap lo p b e (i ∷ []) k s f h m l =
    ground (arith, add_list-beyond lo b e i [] s, prev_upper-here lo b e i [] s)
add_list-overlap lo p b e (i ∷ j ∷ is) k s f h m l = elim (Bool-cases (leb j.begin p)) [
  | inl c ↦
      let (c', f') = prev_upper-skip p i j k is (ground arith) f in
      rw (add_list-cons lo b e i j is s (ground arith)) (
        prev_upper-cons b i _ _ (omega arith)
          (add_list-overlap (suc i.end) p b e (j ∷ is) k s.2 f' h m l))
  | inr c ↦
      let (c', f') = prev_upper-stop p i j k is (ground arith) f in
      let l' : e < i.end = ground arith in
      rw (add_list-beyond lo b e i (j ∷ is) s (omega arith) m l')
        (prev_upper-here lo b e i (j ∷ is) s (omega arith) m l')
]

-- If a separated set covers [p, q), then adding a range [b, e) that lies strictly inside it makes
-- the set answer that it does not cover [b, q), which it covered before.
pub add_inside_loses :
    (s : CoverageSet) (p b e q : ℕ)
    → IsSeparated s
    → p < b
    → b < e
    → e < q
    → covers s p q ≡ some true
    → (covers s b q ≡ some true)
      × ((s' : CoverageSet) × (add s b e ≡ some s') × (covers s' b q ≡ some false))
unfolding add covers holds
add_inside_loses s p b e q v h m l c = elim (Option-cases (prev_upper p s.set)) [
  | inl n ↦ ground arith
  | inr (k, n) ↦ (
    (covers_iff_held s b q v (omega arith)).1
        (λ x from to. (covers_iff_held s p q v (omega arith)).0 c x (omega arith) to),
    (
      record { set = merge_in b e (before_lower b s.set) (from_lower b s.set) },
      ground arith,
      ground (arith, add_list-overlap 0 p b e s.set k v n h m),
    ),
  )
]
