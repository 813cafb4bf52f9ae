-- ===== src/PathMap/Build.antt =====
-- The constructors of PathMap.
use edencommon.Common.{
  ◌≡◌, refl, ◌∙◌, inl, inr, Bool, false, Option, none, List, [], ◌∷◌, arith, All, Bool-cases,
}
use edencommon.Path.Order.{KeyOrder}
use edencommon.PathMap.{
  Pair, insert, from_range, place, stable_sort, unique_after, unique, needs_sort_or_dedupe,
  from_vector,
}
use edencommon.PathMap.Sorted.{IsSorted, same, lookup, less-same, less-same_right, All-less}
use edencommon.PathMap.Refine.{or_else, insert-lookup}

module _ {Key Value : Type 0} (order : KeyOrder Key) where
  -- No key is less than one before it.
  abbrev IsOrdered : List (Pair Key Value) → Type 0
  IsOrdered [] = Unit
  IsOrdered (p ∷ m) = All (λ q. order.less q.0 p.0 ≡ false) m × IsOrdered m

  All-place :
      (a : Key) (p : Pair Key Value) (m : List (Pair Key Value))
      → order.less p.0 a ≡ false
      → All (λ q. order.less q.0 a ≡ false) m
      → All (λ q. order.less q.0 a ≡ false) (place order p m)
  unfolding place
  All-place a p [] h k = (h, tt)
  All-place a p (q ∷ m) h k = ground (arith, All-place a p m h)

  not_less_trans :
      (a b : Key) (m : List (Pair Key Value))
      → order.less b a ≡ false
      → All (λ q. order.less q.0 b ≡ false) m
      → All (λ q. order.less q.0 a ≡ false) m
  not_less_trans a b [] h k = tt
  not_less_trans a b (q ∷ m) h k = ground (arith, not_less_trans a b m h, order.cotrans q.0 b a)

  place-IsOrdered :
      (p : Pair Key Value) (m : List (Pair Key Value)) → IsOrdered m → IsOrdered (place order p m)
  unfolding place
  place-IsOrdered p [] h = (tt, tt)
  place-IsOrdered p (q ∷ m) h =
      ground (
        arith,
        place-IsOrdered p m,
        All-place q.0 p m,
        not_less_trans p.0 q.0 m,
        order.asym q.0 p.0,
      )

  lookup-place :
      (key : Key) (p : Pair Key Value) (m : List (Pair Key Value))
      → lookup order key (place order p m) ≡ lookup order key (p ∷ m)
  unfolding place
  lookup-place key p [] = refl
  lookup-place key p (q ∷ m) =
      ground (arith, lookup-place key p m, less-same order key p.0 q.0, less-same order key q.0 p.0)

  stable_sort-IsOrdered : (m : List (Pair Key Value)) → IsOrdered (stable_sort order m)
  unfolding stable_sort
  stable_sort-IsOrdered [] = tt
  stable_sort-IsOrdered (p ∷ m) = place-IsOrdered p (stable_sort order m) (stable_sort-IsOrdered m)

  lookup-stable_sort :
      (key : Key) (m : List (Pair Key Value))
      → lookup order key (stable_sort order m) ≡ lookup order key m
  unfolding stable_sort
  lookup-stable_sort key [] = refl
  lookup-stable_sort key (p ∷ m) =
      lookup-place key p (stable_sort order m) ∙ ground (arith, lookup-stable_sort key m)

  adjacent-IsSorted :
      (m : List (Pair Key Value)) → needs_sort_or_dedupe order m ≡ false → IsSorted order m
  unfolding needs_sort_or_dedupe
  adjacent-IsSorted [] h = tt
  adjacent-IsSorted (p ∷ []) h = (tt, tt)
  adjacent-IsSorted (p ∷ q ∷ m) h =
      ground (arith, adjacent-IsSorted (q ∷ m), All-less order p.0 q.0 m)

  module _ (is_path_piece_equal : Key → Key → Bool)
      (equal_same : (a b : Key) → is_path_piece_equal a b ≡ same order a b) where
    unique_after-IsSorted :
        (kept : Pair Key Value) (m : List (Pair Key Value))
        → IsOrdered (kept ∷ m)
        → IsSorted order (kept ∷ unique_after order is_path_piece_equal kept m)
    unfolding unique_after
    unique_after-IsSorted kept [] h = (tt, tt)
    unique_after-IsSorted kept (p ∷ m) h = ground (
      arith,
      unique_after-IsSorted kept m,
      unique_after-IsSorted p m,
      All-less order kept.0 p.0 (unique_after order is_path_piece_equal p m),
      equal_same kept.0 p.0,
    )

    lookup-unique_after :
        (key : Key) (kept : Pair Key Value) (m : List (Pair Key Value))
        → lookup order key (kept ∷ unique_after order is_path_piece_equal kept m)
          ≡ lookup order key (kept ∷ m)
    unfolding unique_after
    lookup-unique_after key kept [] = refl
    lookup-unique_after key kept (p ∷ m) = ground (
      arith,
      lookup-unique_after key kept m,
      lookup-unique_after key p m,
      less-same order kept.0 p.0 key,
      less-same_right order kept.0 p.0 key,
      equal_same kept.0 p.0,
    )

    unique-IsSorted :
        (m : List (Pair Key Value))
        → IsOrdered m
        → IsSorted order (unique order is_path_piece_equal m)
    unfolding unique
    unique-IsSorted [] h = tt
    unique-IsSorted (p ∷ m) h = unique_after-IsSorted p m h

    lookup-unique :
        (key : Key) (m : List (Pair Key Value))
        → lookup order key (unique order is_path_piece_equal m) ≡ lookup order key m
    unfolding unique
    lookup-unique key [] = refl
    lookup-unique key (p ∷ m) = lookup-unique_after key p m

    -- Where equality of paths is that neither is less, the constructor from a vector builds a sorted
    -- map, in which each key has the pair that comes first with it among the entries.
    pub from_vector-lookup :
        (entries : List (Pair Key Value))
        → IsSorted order (from_vector order is_path_piece_equal entries)
          × ((key : Key)
              → lookup order key (from_vector order is_path_piece_equal entries)
                ≡ lookup order key entries)
    unfolding from_vector
    from_vector-lookup entries = elim (Bool-cases (needs_sort_or_dedupe order entries)) [
      | inl e ↦ rw e (
        unique-IsSorted (stable_sort order entries) (stable_sort-IsOrdered entries),
        λ key. lookup-unique key (stable_sort order entries) ∙ lookup-stable_sort key entries,
      )
      | inr e ↦ rw e (adjacent-IsSorted entries e, λ key. refl)
    ]

  or_else-none : (o : Option (Pair Key Value)) → o ≡ or_else o none
  or_else-none o = ground arith

  from_range_lem :
      (vals m : List (Pair Key Value))
      → IsSorted order m
      → IsSorted order (from_range order m vals)
        × ((key : Key)
            → lookup order key (from_range order m vals)
              ≡ or_else (lookup order key m) (lookup order key vals))
  unfolding from_range
  from_range_lem [] m h = (h, λ key. or_else-none (lookup order key m))
  from_range_lem (val ∷ vals) m h =
      let (sorted, _, found) = insert-lookup order val m h in
      let (sorted', found') = from_range_lem vals (insert order val m).0 sorted in
      (sorted', λ key. found' key ∙ ground (arith, found key))

  -- The constructor from two iterators builds a sorted map, in which each key has the pair that comes
  -- first with it in the range.
  pub from_range-lookup :
      (vals : List (Pair Key Value))
      → IsSorted order (from_range order [] vals)
        × ((key : Key) → lookup order key (from_range order [] vals) ≡ lookup order key vals)
  from_range-lookup vals = from_range_lem vals [] tt
