-- ===== src/PathMap/Tests.antt =====
-- Maps with path components for keys, and the theorems at them.
use edencommon.Common.{
  ℕ, ◌≡◌, refl, Bool, true, ◌&&◌, not, none, some, List, [], ◌∷◌, if◌then◌else◌, ◌==◌,
}
use edencommon.Text.{Bytes}
use edencommon.Path.Order.{
  CaseSensitivity, insensitive, sensitive, piece_order, to_lower, is_path_piece_less,
}
use edencommon.PathMap.{Pair, insert, erase, count, from_vector}
use edencommon.PathMap.Sorted.{IsSorted, same, lookup}
use edencommon.PathMap.Refine.{or_else, insert-lookup, erase-lookup}
use edencommon.PathMap.Collate.{value_of, combined, collate_path_maps, collate_path_maps-lookup}

-- "A", "B", "a" and "b".
abbrev upper_a : Bytes
upper_a = b'A' ∷ []

abbrev upper_b : Bytes
upper_b = b'B' ∷ []

abbrev lower_a : Bytes
lower_a = b'a' ∷ []

abbrev lower_b : Bytes
lower_b = b'b' ∷ []

abbrev folded : ℕ → ℕ → Bool
folded x y = to_lower x == to_lower y

abbrev equal : CaseSensitivity → Bytes → Bytes → Bool
equal c k k' = not (is_path_piece_less c k k') && not (is_path_piece_less c k' k)

abbrev names : List (Pair Bytes ℕ)
names = (upper_b, 1) ∷ (lower_a, 2) ∷ []

names-IsSorted : IsSorted (piece_order sensitive) names
unfolding is_path_piece_less piece_order
names-IsSorted = ((refl, tt), (tt, tt))

insert-lookup_example :
    IsSorted (piece_order sensitive) (insert (piece_order sensitive) (upper_a, 3) names).0
    × ((insert (piece_order sensitive) (upper_a, 3) names).1 ≡ true)
    × ((key : Bytes)
        → lookup (piece_order sensitive) key (insert (piece_order sensitive) (upper_a, 3) names).0
          ≡ or_else
              (lookup (piece_order sensitive) key names)
              (if same (piece_order sensitive) key upper_a then some (upper_a, 3) else none))
unfolding is_path_piece_less piece_order
insert-lookup_example = insert-lookup (piece_order sensitive) (upper_a, 3) names names-IsSorted

erase-lookup_example :
    IsSorted (piece_order sensitive) (erase (piece_order sensitive) upper_b names).0
    × ((erase (piece_order sensitive) upper_b names).1
        ≡ count (piece_order sensitive) upper_b names)
    × ((other : Bytes)
        → lookup (piece_order sensitive) other (erase (piece_order sensitive) upper_b names).0 ≡ (
            if same (piece_order sensitive) upper_b other
            then none
            else lookup (piece_order sensitive) other names))
erase-lookup_example = erase-lookup (piece_order sensitive) upper_b names names-IsSorted

abbrev unsorted : List (Pair Bytes ℕ)
unsorted = (lower_b, 1) ∷ (upper_a, 2) ∷ (upper_b, 3) ∷ []

-- Without regard to case, the earlier "b" wins over "B".
sorts :
    from_vector (piece_order insensitive) (equal insensitive) unsorted
    ≡ (upper_a, 2) ∷ (lower_b, 1) ∷ []
unfolding from_vector is_path_piece_less piece_order
sorts = refl

abbrev other_names : List (Pair Bytes ℕ)
other_names = (lower_a, 5) ∷ []

collate_path_maps-lookup_example :
    IsSorted
      (piece_order sensitive)
      (collate_path_maps piece_order equal sensitive names sensitive other_names)
    × ((key : Bytes)
        → value_of (
            lookup
              (piece_order sensitive)
              key
              (collate_path_maps piece_order equal sensitive names sensitive other_names))
          ≡ combined
              (value_of (lookup (piece_order sensitive) key names))
              (value_of (lookup (piece_order sensitive) key other_names)))
unfolding is_path_piece_less piece_order
collate_path_maps-lookup_example =
    collate_path_maps-lookup piece_order equal sensitive names other_names (λ a b. refl)
      names-IsSorted (tt, tt)

-- Maps of different case sensitivity: "a" is in both, and its value in the first is lost.
loses :
    collate_path_maps piece_order equal sensitive names insensitive other_names
    ≡ (lower_a, (none, some 5)) ∷ (upper_b, (some 1, none)) ∷ []
unfolding collate_path_maps is_path_piece_less piece_order
loses = refl
