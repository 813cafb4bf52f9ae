-- ===== src/PathMap/Collate.antt =====
-- collatePathMaps of eden/common/utils/PathMap.h.
use edencommon.Common.{
  ◌≡◌, ◌∙◌, inl, inr, Bool, Option, none, some, List, [], ◌∷◌, arith, if◌then◌else◌, Bool-cases,
}
use edencommon.Path.Order.{KeyOrder, CaseSensitivity, insensitive, sensitive}
use edencommon.PathMap.{Pair, insert}
use edencommon.PathMap.Sorted.{IsSorted, same, lookup, less-same, less-same_right}
use edencommon.PathMap.Refine.{or_else, insert-lookup, lookup-none}

-- The case sensitivity of the result.
abbrev pub common_case : CaseSensitivity → CaseSensitivity → CaseSensitivity
common_case sensitive sensitive = sensitive
common_case sensitive insensitive = insensitive
common_case insensitive _ = insensitive

module _ {Key A B : Type 0} where
  abbrev pub left : Pair Key A → Pair Key (Option A × Option B)
  left p = (p.0, (some p.1, none))

  abbrev pub right : Pair Key B → Pair Key (Option A × Option B)
  right q = (q.0, (none, some q.1))

  abbrev pub both : Pair Key A → Pair Key B → Pair Key (Option A × Option B)
  both p q = (p.0, (some p.1, some q.1))

  module _ (order : KeyOrder Key) (is_path_piece_equal : Key → Key → Bool) where
    -- The loops, with the result so far.
    collate_loop :
        List (Pair Key (Option A × Option B))
        → List (Pair Key A)
        → List (Pair Key B)
        → List (Pair Key (Option A × Option B))
    unfolding insert
    collate_loop result [] [] = result
    collate_loop result (p ∷ a) [] = collate_loop (insert order (left p) result).0 a []
    collate_loop result [] (q ∷ b) = collate_loop (insert order (right q) result).0 [] b
    collate_loop result (p ∷ a) (q ∷ b) =
        let ab = collate_loop (insert order (both p q) result).0 a b in
        let aq = collate_loop (insert order (left p) result).0 a (q ∷ b) in
        let pb = collate_loop (insert order (right q) result).0 (p ∷ a) b in
        if is_path_piece_equal p.0 q.0 then ab else if order.less p.0 q.0 then aq else pb

-- collatePathMaps
unfoldable pub collate_path_maps :
    {Key A B : Type 0}
    → (CaseSensitivity → KeyOrder Key)
    → (CaseSensitivity → Key → Key → Bool)
    → CaseSensitivity
    → List (Pair Key A)
    → CaseSensitivity
    → List (Pair Key B)
    → List (Pair Key (Option A × Option B))
unfolding collate_loop
collate_path_maps order is_path_piece_equal case_a a case_b b =
    collate_loop (order (common_case case_a case_b))
      (is_path_piece_equal (common_case case_a case_b)) [] a b

module _ {Key V : Type 0} where
  abbrev pub value_of : Option (Pair Key V) → Option V
  value_of none = none
  value_of (some p) = some p.1

module _ {A B : Type 0} where
  -- What each side has at a key, where one of them has something.
  abbrev pub combined : Option A → Option B → Option (Option A × Option B)
  combined none none = none
  combined none (some b) = some (none, some b)
  combined (some a) none = some (some a, none)
  combined (some a) (some b) = some (some a, some b)

module _ {Key A B : Type 0} (order : KeyOrder Key) (is_path_piece_equal : Key → Key → Bool)
    (equal_same : (a b : Key) → is_path_piece_equal a b ≡ same order a b) where
  -- What is at a key at the end of the loops.
  abbrev Collated :
      List (Pair Key (Option A × Option B)) → List (Pair Key A) → List (Pair Key B) → Key → Type 0
  Collated result a b key =
      value_of (lookup order key (collate_loop order is_path_piece_equal result a b))
      ≡ or_else (value_of (lookup order key result))
          (combined (value_of (lookup order key a)) (value_of (lookup order key b)))

  collate_loop_lem :
      (result : List (Pair Key (Option A × Option B))) (a : List (Pair Key A))
      (b : List (Pair Key B))
      → IsSorted order result
      → IsSorted order a
      → IsSorted order b
      → IsSorted order (collate_loop order is_path_piece_equal result a b)
        × ((key : Key) → Collated result a b key)
  unfolding collate_loop
  collate_loop_lem result [] [] h u v = (h, λ key. ground arith)
  collate_loop_lem result (p ∷ a) [] h u v =
      let (sorted, _, found) = insert-lookup order (left p) result h in
      let (sorted', found') =
        collate_loop_lem (insert order (left p) result).0 a [] sorted u.1 tt in
      (sorted', λ key. found' key ∙ ground (arith, found key, lookup-none order key p a))
  collate_loop_lem result [] (q ∷ b) h u v =
      let (sorted, _, found) = insert-lookup order (right q) result h in
      let (sorted', found') =
        collate_loop_lem (insert order (right q) result).0 [] b sorted tt v.1 in
      (sorted', λ key. found' key ∙ ground (arith, found key))
  collate_loop_lem result (p ∷ a) (q ∷ b) h u v = elim (Bool-cases (is_path_piece_equal p.0 q.0)) [
    | inl e ↦
        let (sorted, _, found) = insert-lookup order (both p q) result h in
        let (sorted', found') =
          collate_loop_lem (insert order (both p q) result).0 a b sorted u.1 v.1 in
        rw e (
          sorted',
          λ key.
              found' key
              ∙ ground (
                arith,
                found key,
                equal_same p.0 q.0,
                less-same order p.0 q.0 key,
                less-same_right order p.0 q.0 key,
              ),
        )
    | inr e ↦ elim (Bool-cases (order.less p.0 q.0)) [
      | inl f ↦
          let (sorted, _, found) = insert-lookup order (left p) result h in
          let (sorted', found') =
            collate_loop_lem (insert order (left p) result).0 a (q ∷ b) sorted u.1 v in
          rw (e, f)
            (
              sorted',
              λ key.
                  found' key
                  ∙ ground (
                    arith,
                    found key,
                    less-same order key p.0 q.0,
                    order.asym key q.0,
                    lookup-none order key q b,
                  ),
            )
      | inr f ↦
          let (sorted, _, found) = insert-lookup order (right q) result h in
          let (sorted', found') =
            collate_loop_lem (insert order (right q) result).0 (p ∷ a) b sorted u v.1 in
          rw (e, f)
            (
              sorted',
              λ key.
                  found' key
                  ∙ ground (
                    arith,
                    found key,
                    equal_same p.0 q.0,
                    less-same order key q.0 p.0,
                    order.asym key p.0,
                    lookup-none order key p a,
                  ),
            )
    ]
  ]

-- Where two maps have the same case sensitivity and are sorted by its order, and equality of paths is
-- that neither is less, collatePathMaps returns a sorted map that has at each key what the two maps
-- have there, and no other keys.
pub collate_path_maps-lookup :
    {Key A B : Type 0} (order : CaseSensitivity → KeyOrder Key)
    (is_path_piece_equal : CaseSensitivity → Key → Key → Bool) (c : CaseSensitivity)
    (a : List (Pair Key A)) (b : List (Pair Key B))
    → ((k k' : Key) → is_path_piece_equal c k k' ≡ same (order c) k k')
    → IsSorted (order c) a
    → IsSorted (order c) b
    → IsSorted (order c) (collate_path_maps order is_path_piece_equal c a c b)
      × ((key : Key)
          → value_of (lookup (order c) key (collate_path_maps order is_path_piece_equal c a c b))
            ≡ combined (value_of (lookup (order c) key a)) (value_of (lookup (order c) key b)))
unfolding collate_path_maps
collate_path_maps-lookup order is_path_piece_equal insensitive a b e u v =
    collate_loop_lem (order insensitive) (is_path_piece_equal insensitive) e [] a b tt u v
collate_path_maps-lookup order is_path_piece_equal sensitive a b e u v =
    collate_loop_lem (order sensitive) (is_path_piece_equal sensitive) e [] a b tt u v
