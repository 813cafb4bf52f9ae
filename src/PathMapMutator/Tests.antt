-- ===== src/PathMapMutator/Tests.antt =====
-- A mutator with path components for keys, and the theorems at it.
use edencommon.Common.{ℕ, ◌≡◌, refl, not, none, some, List, [], ◌∷◌, if◌then◌else◌}
use edencommon.Text.{Bytes}
use edencommon.Path.Order.{sensitive, piece_order, is_path_piece_less}
use edencommon.PathMap.{Pair}
use edencommon.PathMap.Sorted.{IsSorted, same, lookup}
use edencommon.PathMap.Refine.{or_else, is_some}
use edencommon.PathMapMutator.{Mutator, mutator, emplace, erase, finalize}
use edencommon.PathMapMutator.Invariant.{Inv, view, mutator-Inv}
use edencommon.PathMapMutator.Refine.{emplace-view}
use edencommon.PathMapMutator.Changes.{erase-view, finalize-view}

abbrev name_b : Bytes
name_b = b'b' ∷ []

abbrev name_d : Bytes
name_d = b'd' ∷ []

abbrev name_e : Bytes
name_e = b'e' ∷ []

abbrev entries : List (Pair Bytes ℕ)
entries = (name_b, 1) ∷ (name_e, 2) ∷ []

entries-IsSorted : IsSorted (piece_order sensitive) entries
unfolding piece_order is_path_piece_less
entries-IsSorted = ((refl, tt), (tt, tt))

-- One entry is erased, and one added behind the others.
abbrev without : Mutator Bytes ℕ
without = (erase (piece_order sensitive) (mutator entries) name_b).0

abbrev changed : Mutator Bytes ℕ
changed = (emplace (piece_order sensitive) without (name_d, 3)).0

without-Inv : Inv (piece_order sensitive) without
without-Inv =
    (erase-view (piece_order sensitive) (mutator entries) name_b
      (mutator-Inv (piece_order sensitive) entries entries-IsSorted)).0

changed-Inv : Inv (piece_order sensitive) changed
changed-Inv = (emplace-view (piece_order sensitive) without (name_d, 3) without-Inv).0

result : finalize (piece_order sensitive) changed ≡ (name_d, 3) ∷ (name_e, 2) ∷ []
unfolding finalize emplace erase piece_order is_path_piece_less
result = refl

emplace-view_example :
    Inv (piece_order sensitive) (emplace (piece_order sensitive) changed (name_b, 4)).0
    × ((emplace (piece_order sensitive) changed (name_b, 4)).1
        ≡ not (is_some (view (piece_order sensitive) changed name_b)))
    × ((key : Bytes)
        → view (piece_order sensitive) (emplace (piece_order sensitive) changed (name_b, 4)).0 key
          ≡ or_else
              (view (piece_order sensitive) changed key)
              (if same (piece_order sensitive) key name_b then some (name_b, 4) else none))
emplace-view_example = emplace-view (piece_order sensitive) changed (name_b, 4) changed-Inv

finalize-view_example :
    IsSorted (piece_order sensitive) (finalize (piece_order sensitive) changed)
    × ((key : Bytes)
        → lookup (piece_order sensitive) key (finalize (piece_order sensitive) changed)
          ≡ view (piece_order sensitive) changed key)
finalize-view_example = finalize-view (piece_order sensitive) changed changed-Inv
