-- ===== src/PathMap/Refine.antt =====
-- PathMap is a finite map: its operations in the terms of `lookup`.
use edencommon.Common.{
  ◌≡◌, refl, sym, Bool, true, false, not, Option, none, some, List, [], ◌∷◌, arith, if◌then◌else◌,
  All, ok, err,
}
use edencommon.Path.Order.{KeyOrder}
use edencommon.PathMap.{
  is_there, subscript_at, Pair, no_such_key, lower_bound, is_found, first_of, find, insert, erase,
  subscript, at, count,
}
use edencommon.PathMap.Sorted.{
  IsSorted, same, lookup, less-same, less-same_right, same_trans, All-less, insert_rec, erase_rec,
  insert-eq-insert_rec, erase-eq-erase_rec,
}

module _ {A : Type 0} where
  abbrev pub or_else : Option A → Option A → Option A
  or_else none o = o
  or_else (some p) o = some p

  abbrev pub is_some : Option A → Bool
  is_some none = false
  is_some (some _) = true

module _ {Key Value : Type 0} (order : KeyOrder Key) where
  -- A key that is the same as one that is less than all is not there.
  pub lookup-none :
      (key : Key) (p : Pair Key Value) (m : List (Pair Key Value))
      → order.less p.0 key ≡ false
      → All (λ q. order.less p.0 q.0 ≡ true) m
      → lookup order key m ≡ none
  lookup-none key p [] h k = refl
  lookup-none key p (q ∷ m) h k =
      ground (arith, lookup-none key p m h, order.cotrans p.0 key q.0, order.asym key q.0, k)

  All-insert_rec :
      (a : Key) (val : Pair Key Value) (m : List (Pair Key Value))
      → order.less a val.0 ≡ true
      → All (λ q. order.less a q.0 ≡ true) m
      → All (λ q. order.less a q.0 ≡ true) (insert_rec order val m)
  All-insert_rec a val [] h k = (h, tt)
  All-insert_rec a val (p ∷ m) h k = ground (arith, All-insert_rec a val m h)

  insert_rec-IsSorted :
      (val : Pair Key Value) (m : List (Pair Key Value))
      → IsSorted order m
      → IsSorted order (insert_rec order val m)
  insert_rec-IsSorted val [] h = (tt, tt)
  insert_rec-IsSorted val (p ∷ m) h =
      ground
        (arith, All-insert_rec p.0 val m, insert_rec-IsSorted val m, All-less order val.0 p.0 m)

  below_all :
      (a : Key) (p : Pair Key Value) (m : List (Pair Key Value))
      → All (λ q. order.less p.0 q.0 ≡ true) m
      → order.less a p.0 ≡ true
      → All (λ q. order.less a q.0 ≡ true) m
  below_all a p m h k = All-less order a p.0 m k h

  lookup-insert_rec :
      (key : Key) (val : Pair Key Value) (m : List (Pair Key Value))
      → IsSorted order m
      → lookup order key (insert_rec order val m)
        ≡ or_else (lookup order key m) (if same order key val.0 then some val else none)
  lookup-insert_rec key val [] h = ground arith
  lookup-insert_rec key val (p ∷ m) h = ground (
    arith,
    lookup-insert_rec key val m,
    lookup-none key val (p ∷ m),
    below_all val.0 p m h.0,
    less-same order key val.0 p.0,
    less-same_right order key val.0 p.0,
  )

  find_eq :
      (key : Key) (m : List (Pair Key Value))
      → IsSorted order m
      → find order key m ≡ lookup order key m
  unfolding find lower_bound is_found first_of
  find_eq key [] h = refl
  find_eq key (p ∷ m) h = ground (arith, find_eq key m, lookup-none key p m)

  All-erase_rec :
      (a key : Key) (m : List (Pair Key Value))
      → All (λ q. order.less a q.0 ≡ true) m
      → All (λ q. order.less a q.0 ≡ true) (erase_rec order key m)
  All-erase_rec a key [] k = tt
  All-erase_rec a key (p ∷ m) k = ground (arith, All-erase_rec a key m)

  erase_rec-IsSorted :
      (key : Key) (m : List (Pair Key Value))
      → IsSorted order m
      → IsSorted order (erase_rec order key m)
  erase_rec-IsSorted key [] h = tt
  erase_rec-IsSorted key (p ∷ m) h =
      ground (arith, All-erase_rec p.0 key m, erase_rec-IsSorted key m)

  lookup-erase_rec :
      (key key' : Key) (m : List (Pair Key Value))
      → IsSorted order m
      → lookup order key' (erase_rec order key m)
        ≡ (if same order key key' then none else lookup order key' m)
  lookup-erase_rec key key' [] h = ground arith
  lookup-erase_rec key key' (p ∷ m) h = ground (
    arith,
    lookup-erase_rec key key' m,
    lookup-none key' p m,
    less-same order key key' p.0,
    less-same_right order key key' p.0,
    same_trans order key key' p.0,
    same_trans order key' key p.0,
  )

  inserted :
      (val : Pair Key Value) (m : List (Pair Key Value))
      → (insert order val m).1 ≡ not (is_some (find order val.0 m))
  unfolding insert find is_found first_of
  inserted val m = ground arith

  erased : (key : Key) (m : List (Pair Key Value)) → (erase order key m).1 ≡ count order key m
  unfolding erase count find is_there is_found first_of
  erased key m = ground arith

  subscripted :
      (fresh : Value) (key : Key) (m : List (Pair Key Value))
      → subscript order fresh key m ≡ elim (find order key m) [
        | some p ↦ (p.1, m)
        | none ↦ (fresh, (insert order (key, fresh) m).0)
      ]
  unfolding subscript find insert is_found first_of subscript_at
  subscripted fresh key m = ground arith

  -- `find` returns, on a sorted vector, the pair that a search without regard to the order finds, `at`
  -- its value or an error for a key that is not there, and `count` how many there are.
  pub find-eq-lookup :
      (key : Key) (m : List (Pair Key Value))
      → IsSorted order m
      → (find order key m ≡ lookup order key m)
        × (at order key m
            ≡ elim (lookup order key m) [ some p ↦ ok p.1 | none ↦ err (no_such_key key) ])
        × (count order key m ≡ (if is_some (lookup order key m) then 1 else 0))
  unfolding at count is_there
  find-eq-lookup key m h = ground (arith, find_eq key m h)

  -- `insert` keeps a sorted vector sorted. It leaves a key that is there, be it with its old value,
  -- and otherwise adds the pair, and says whether it did. Any other key is found as before.
  pub insert-lookup :
      (val : Pair Key Value) (m : List (Pair Key Value))
      → IsSorted order m
      → IsSorted order (insert order val m).0
        × ((insert order val m).1 ≡ not (is_some (lookup order val.0 m)))
        × ((key : Key)
            → lookup order key (insert order val m).0
              ≡ or_else (lookup order key m) (if same order key val.0 then some val else none))
  insert-lookup val m h = (
    rw insert-eq-insert_rec (insert_rec-IsSorted val m h),
    rw (sym (find_eq val.0 m h)) (inserted val m),
    λ key. rw insert-eq-insert_rec (lookup-insert_rec key val m h),
  )

  -- `erase` keeps a sorted vector sorted, removes the key and no other, and returns how many there
  -- were.
  pub erase-lookup :
      (key : Key) (m : List (Pair Key Value))
      → IsSorted order m
      → IsSorted order (erase order key m).0
        × ((erase order key m).1 ≡ count order key m)
        × ((other : Key)
            → lookup order other (erase order key m).0
              ≡ (if same order key other then none else lookup order other m))
  erase-lookup key m h = (
    rw erase-eq-erase_rec (erase_rec-IsSorted key m h),
    erased key m,
    λ other. rw erase-eq-erase_rec (lookup-erase_rec key other m h),
  )

  -- `operator[]` on a sorted vector refers to the value that is there, and leaves the map, or to a
  -- fresh one that it inserts.
  pub subscript-lookup :
      (fresh : Value) (key : Key) (m : List (Pair Key Value))
      → IsSorted order m
      → subscript order fresh key m ≡ elim (lookup order key m) [
        | some p ↦ (p.1, m)
        | none ↦ (fresh, (insert order (key, fresh) m).0)
      ]
  subscript-lookup fresh key m h = rw (sym (find_eq key m h)) (subscripted fresh key m)
