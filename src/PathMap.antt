-- ===== src/PathMap.antt =====
-- eden/common/utils/PathMap.h: a map as a sorted vector of pairs. An iterator is the vector cut at
-- its position: the pairs before it, and those from it on. `std::lower_bound` returns the first
-- position, in a sorted vector, that the key is not behind.
pub mod Sorted
pub mod Refine
pub mod Build
pub mod Collate
pub mod Tests
use edencommon.Common.{
  ℕ, zero, suc, ◌+◌, ◌≡◌, Bool, true, false, ◌&&◌, ◌||◌, not, Option, none, some, List, [], ◌∷◌,
  ◌++◌, if◌then◌else◌, Result, ok, err, length,
}
use edencommon.Path.Order.{KeyOrder}

abbrev pub Pair : Type 0 → Type 0 → Type 0
Pair Key Value = Key × Value

-- What `at` throws on a key that is not there.
pub data NoSuchKey (Key : Type 0) : Type 0 where
  no_such_key : Key → NoSuchKey Key

module _ {Key Value : Type 0} (order : KeyOrder Key) where
  -- PathMap::lower_bound
  pub lower_bound : Key → List (Pair Key Value) → List (Pair Key Value) × List (Pair Key Value)
  lower_bound key [] = ([], [])
  lower_bound key (p ∷ m) =
      let (before, from) = lower_bound key m in
      if order.less p.0 key then (p ∷ before, from) else ([], p ∷ m)

  -- iter != end() && !compare_(key, iter->first)
  pub is_found : Key → List (Pair Key Value) → Bool
  is_found key [] = false
  is_found key (p ∷ _) = not (order.less key p.0)

  pub first_of : List (Pair Key Value) → Option (Pair Key Value)
  first_of [] = none
  first_of (p ∷ _) = some p

  pub rest_of : List (Pair Key Value) → List (Pair Key Value)
  rest_of [] = []
  rest_of (_ ∷ m) = m

  -- PathMap::find, and the pair at the iterator
  unfoldable pub find : Key → List (Pair Key Value) → Option (Pair Key Value)
  unfolding lower_bound is_found first_of
  find key m =
      let (before, from) = lower_bound key m in if is_found key from then first_of from else none

  -- PathMap::insert, and PathMap::emplace with the value constructed
  unfoldable pub insert : Pair Key Value → List (Pair Key Value) → List (Pair Key Value) × Bool
  unfolding lower_bound is_found
  insert val m =
      let (before, from) = lower_bound val.0 m in
      if is_found val.0 from then (m, false) else (before ++ val ∷ from, true)

  pub subscript_at :
      Value
      → Key
      → List (Pair Key Value)
      → List (Pair Key Value)
      → List (Pair Key Value)
      → Value × List (Pair Key Value)
  subscript_at fresh key m before [] = (fresh, before ++ (key, fresh) ∷ [])
  subscript_at fresh key m before (p ∷ from) =
      if order.less key p.0 then (fresh, before ++ (key, fresh) ∷ p ∷ from) else (p.1, m)

  -- PathMap::operator[], where `fresh` is a default value: the value that is there then, and the map
  unfoldable pub subscript : Value → Key → List (Pair Key Value) → Value × List (Pair Key Value)
  unfolding lower_bound subscript_at
  subscript fresh key m =
      let (before, from) = lower_bound key m in subscript_at fresh key m before from

  -- PathMap::at
  unfoldable pub at : Key → List (Pair Key Value) → Result (NoSuchKey Key) Value
  unfolding find
  at key m = elim (find key m) [ some p ↦ ok p.1 | none ↦ err (no_such_key key) ]

  -- PathMap::erase
  unfoldable pub erase : Key → List (Pair Key Value) → List (Pair Key Value) × ℕ
  unfolding lower_bound is_found rest_of
  erase key m =
      let (before, from) = lower_bound key m in
      if is_found key from then (before ++ rest_of from, 1) else (m, 0)

  pub is_there : Option (Pair Key Value) → ℕ
  is_there none = 0
  is_there (some _) = 1

  -- PathMap::count
  unfoldable pub count : Key → List (Pair Key Value) → ℕ
  unfolding find is_there
  count key m = is_there (find key m)

  -- The constructor from two input iterators
  unfoldable pub from_range : List (Pair Key Value) → List (Pair Key Value) → List (Pair Key Value)
  unfolding insert
  from_range m [] = m
  from_range m (val ∷ vals) = from_range (insert val m).0 vals

  -- The loop that sets `needsSortAndOrDedupe`, from the second pair on
  needs_sort_or_dedupe : List (Pair Key Value) → Bool
  needs_sort_or_dedupe [] = false
  needs_sort_or_dedupe (p ∷ []) = false
  needs_sort_or_dedupe (p ∷ q ∷ m) = not (order.less p.0 q.0) || needs_sort_or_dedupe (q ∷ m)

  -- std::stable_sort: pairs of equal keys stay in their order.
  place : Pair Key Value → List (Pair Key Value) → List (Pair Key Value)
  place p [] = p ∷ []
  place p (q ∷ m) = if order.less q.0 p.0 then q ∷ place p m else p ∷ q ∷ m

  stable_sort : List (Pair Key Value) → List (Pair Key Value)
  unfolding place
  stable_sort [] = []
  stable_sort (p ∷ m) = place p (stable_sort m)

  -- isPathPieceEqual
  module _ (is_path_piece_equal : Key → Key → Bool) where
    -- std::unique, behind a pair that is kept
    unique_after : Pair Key Value → List (Pair Key Value) → List (Pair Key Value)
    unique_after kept [] = []
    unique_after kept (p ∷ m) =
        if is_path_piece_equal kept.0 p.0 then unique_after kept m else p ∷ unique_after p m

    unique : List (Pair Key Value) → List (Pair Key Value)
    unfolding unique_after
    unique [] = []
    unique (p ∷ m) = p ∷ unique_after p m

    -- The constructor from a vector of entries
    unfoldable pub from_vector : List (Pair Key Value) → List (Pair Key Value)
    unfolding needs_sort_or_dedupe stable_sort unique
    from_vector entries =
        if needs_sort_or_dedupe entries then unique (stable_sort entries) else entries
