-- ===== src/CoverageSet/Add.antt =====
-- CoverageSet::add keeps the intervals separated and adds exactly the new range, where no interval
-- that begins before the range runs on into it.
use edencommon.Common.{ℕ, suc, ◌≤◌, ◌<◌, ◌≡◌, max, ◌||◌, some, List, [], ◌∷◌, ◌++◌, arith, ap, ◌∙◌}
use edencommon.CoverageSet.{
  Interval, CoverageSet, interval, before_lower, from_lower, merge_left, merge_right, insert,
  merge_in, add,
}
use edencommon.CoverageSet.Separated.{Separated, IsSeparated, in_range, held}

-- The intervals that begin before `b` end at `b` or before.
abbrev pub Clear : ℕ → List Interval → Type 0
Clear b [] = Unit
Clear b (i ∷ is) = (i.begin < b → i.end ≤ b) × Clear b is

-- The loop absorbs every interval that the range reaches, and the rest stays apart from it.
merge_right-Separated :
    (lo e : ℕ) (is : List Interval)
    → Separated lo is
    → (e ≤ (merge_right e is).0) × Separated (suc (merge_right e is).0) (merge_right e is).1
unfolding merge_right
merge_right-Separated lo e [] s = ground arith
merge_right-Separated lo e (i ∷ is) s =
    ground (arith, merge_right-Separated (suc i.end) (max e i.end) is s.2)

merge_right-held :
    (lo b e x : ℕ) (is : List Interval)
    → Separated lo is
    → b ≤ e
    → b ≤ lo
    → (in_range b (merge_right e is).0 x || held (merge_right e is).1 x)
      ≡ (in_range b e x || held is x)
unfolding merge_right
merge_right-held lo b e x [] s h k = ground arith
merge_right-held lo b e x (i ∷ is) s h k =
    ground (arith, merge_right-held (suc i.end) b (max e i.end) x is s.2)

-- Every interval ends at `b` or before.
abbrev EndsBy : ℕ → List Interval → Type 0
EndsBy b [] = Unit
EndsBy b (i ∷ is) = (i.end ≤ b) × EndsBy b is

merge_left-le :
    (lo b : ℕ) (ls : List Interval) → Separated lo ls → lo ≤ b → lo ≤ (merge_left b ls).0
unfolding merge_left
merge_left-le lo b [] s h = ground arith
merge_left-le lo b (i ∷ []) s h = ground arith
merge_left-le lo b (i ∷ j ∷ ls) s h =
    omega (arith, merge_left-le lo b (j ∷ ls) (omega arith, s.2.1, s.2.2) h)

insert-front :
    (v : Interval) (is : List Interval)
    → Separated (suc v.end) is
    → v.begin ≤ v.end
    → insert v is ≡ v ∷ is
unfolding insert
insert-front v [] s h = ground arith
insert-front v (i ∷ is) s h = ground arith

insert-next :
    (v i : Interval) (is : List Interval) → i.begin < v.begin → insert v (i ∷ is) ≡ i ∷ insert v is
unfolding insert
insert-next v i is h = ground arith

-- The intervals before the last one stay as they are.
pub merge_in-cons :
    (lo b e : ℕ) (i j : Interval) (ls rs : List Interval)
    → Separated lo (i ∷ j ∷ ls)
    → i.begin < b
    → merge_in b e (i ∷ j ∷ ls) rs ≡ i ∷ merge_in b e (j ∷ ls) rs
unfolding merge_in
merge_in-cons lo b e i j ls rs s h =
    insert-next _ i _ (merge_left-le (suc i.begin) b (j ∷ ls) (omega arith, s.2.1, s.2.2) h)

module _ (lo b e : ℕ) (rs : List Interval) (t : Separated b rs) (k : b < e) where
  merge_in-nil : merge_in b e [] rs ≡ interval b (merge_right e rs).0 ∷ (merge_right e rs).1
  unfolding merge_in merge_left
  merge_in-nil =
      insert-front _ _ (merge_right-Separated b e rs t).1
        (omega (arith, merge_right-Separated b e rs t))

  merge_in-join :
      (i : Interval)
      → i.begin < i.end
      → i.end ≡ b
      → merge_in b e (i ∷ []) rs ≡ interval i.begin (merge_right e rs).0 ∷ (merge_right e rs).1
  unfolding merge_in merge_left
  merge_in-join i h j = ground (
    arith,
    insert-front (interval i.begin (merge_right e rs).0) (merge_right e rs).1
        (merge_right-Separated b e rs t).1,
    merge_right-Separated b e rs t,
  )

  merge_in-apart :
      (i : Interval)
      → i.begin < i.end
      → i.end < b
      → merge_in b e (i ∷ []) rs ≡ i ∷ interval b (merge_right e rs).0 ∷ (merge_right e rs).1
  unfolding merge_in merge_left
  merge_in-apart i h j = ground (
    arith,
    insert-next (interval b (merge_right e rs).0) i (merge_right e rs).1,
    insert-front (interval b (merge_right e rs).0) (merge_right e rs).1
        (merge_right-Separated b e rs t).1,
    merge_right-Separated b e rs t,
  )

merge_in-Separated :
    (lo b e : ℕ) (ls rs : List Interval)
    → Separated lo ls
    → EndsBy b ls
    → Separated b rs
    → lo ≤ b
    → b < e
    → Separated lo (merge_in b e ls rs)
merge_in-Separated lo b e [] rs s d t h k =
    rw (merge_in-nil lo b e rs t k) (h, omega (arith, r), r.1)
  where
    r : (e ≤ (merge_right e rs).0) × Separated (suc (merge_right e rs).0) (merge_right e rs).1
    r = merge_right-Separated b e rs t
merge_in-Separated lo b e (i ∷ []) rs s d t h k = ground (
  arith,
  merge_in-join lo b e rs t k i,
  merge_in-apart lo b e rs t k i,
  merge_right-Separated b e rs t,
)
merge_in-Separated lo b e (i ∷ j ∷ ls) rs s d t h k =
    rw (merge_in-cons lo b e i j ls rs s (omega arith))
      (s.0, s.1, merge_in-Separated (suc i.end) b e (j ∷ ls) rs s.2 d.1 t (omega arith) k)

merge_in-held :
    (lo b e x : ℕ) (ls rs : List Interval)
    → Separated lo ls
    → EndsBy b ls
    → Separated b rs
    → b < e
    → held (merge_in b e ls rs) x ≡ (in_range b e x || held (ls ++ rs) x)
merge_in-held lo b e x [] rs s d t k =
    rw (merge_in-nil lo b e rs t k) (merge_right-held b b e x rs t (omega arith) (omega arith))
merge_in-held lo b e x (i ∷ []) rs s d t k = ground (
  arith,
  merge_in-join lo b e rs t k i,
  merge_in-apart lo b e rs t k i,
  merge_right-Separated b e rs t,
  merge_right-held b b e x rs t,
)
merge_in-held lo b e x (i ∷ j ∷ ls) rs s d t k =
    rw (merge_in-cons lo b e i j ls rs s (omega arith))
      (ground (arith, merge_in-held (suc i.end) b e x (j ∷ ls) rs s.2 d.1 t))

-- The two parts at the lower bound.
split_lem : (b : ℕ) (is : List Interval) → before_lower b is ++ from_lower b is ≡ is
unfolding before_lower from_lower
split_lem b [] = ground arith
split_lem b (i ∷ is) = ground (arith, split_lem b is)

pub before_lower-Separated :
    (lo b : ℕ) (is : List Interval) → Separated lo is → Separated lo (before_lower b is)
unfolding before_lower
before_lower-Separated lo b [] s = tt
before_lower-Separated lo b (i ∷ is) s = ground (arith, before_lower-Separated (suc i.end) b is s.2)

before_lower-EndsBy : (b : ℕ) (is : List Interval) → Clear b is → EndsBy b (before_lower b is)
unfolding before_lower
before_lower-EndsBy b [] c = tt
before_lower-EndsBy b (i ∷ is) c = ground (arith, before_lower-EndsBy b is c.1)

from_lower-Separated :
    (lo b : ℕ) (is : List Interval) → Separated lo is → Separated b (from_lower b is)
unfolding from_lower
from_lower-Separated lo b [] s = tt
from_lower-Separated lo b (i ∷ is) s = ground (arith, from_lower-Separated (suc i.end) b is s.2)

-- Where no interval that begins before b runs on past b, adding a non-empty range [b, e) to a
-- separated set returns a separated set, which holds the numbers of the range and those held
-- before, and no others.
pub add-IsSeparated :
    (s : CoverageSet) (b e : ℕ)
    → IsSeparated s
    → Clear b s.set
    → b < e
    → (s' : CoverageSet) × (add s b e ≡ some s')
      × IsSeparated s'
      × ((x : ℕ) → held s'.set x ≡ (in_range b e x || held s.set x))
unfolding add
add-IsSeparated s b e v c h = (
  record { set = merge_in b e (before_lower b s.set) (from_lower b s.set) },
  ground arith,
  merge_in-Separated 0 b e _ _ (before_lower-Separated 0 b s.set v) (before_lower-EndsBy b s.set c)
      (from_lower-Separated 0 b s.set v) (omega arith) h,
  λ x.
      merge_in-held 0 b e x _ _ (before_lower-Separated 0 b s.set v) (before_lower-EndsBy b s.set c)
        (from_lower-Separated 0 b s.set v) h
      ∙ ap (λ is. in_range b e x || held is x) (split_lem b s.set),
)
