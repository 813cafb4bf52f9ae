-- ===== src/PathMapMutator.antt =====
-- eden/common/utils/PathMapMutator.h. The vector is cut at `suffixStart_` into `prefix` and `suffix`,
-- and a slot is marked where `erased_` holds its index.
pub mod Slots
pub mod Merge
pub mod Invariant
pub mod Compaction
pub mod Refine
pub mod Changes
pub mod Tests
use edencommon.Common.{
  ℕ, ◌≡◌, Bool, true, false, not, Option, none, some, List, [], ◌∷◌, ◌++◌, if◌then◌else◌, map,
}
use edencommon.Path.Order.{KeyOrder}
use edencommon.PathMap.{Pair}

pub record Slot (Key Value : Type 0) : Type 0 where
  pub pair : Pair Key Value
  pub erased : Bool

pub record Mutator (Key Value : Type 0) : Type 0 where
  pub prefix : List (Slot Key Value)
  pub suffix : List (Slot Key Value)

-- A slot with those before it and those behind it.
pub record Position (Key Value : Type 0) : Type 0 where
  pub before : List (Slot Key Value)
  pub slot : Slot Key Value
  pub behind : List (Slot Key Value)

-- FindResult: where the key's slot is.
pub data FindResult (Key Value : Type 0) : Type 0 where
  in_prefix in_suffix : Position Key Value → FindResult Key Value
  nowhere : FindResult Key Value

module _ {Key Value : Type 0} where
  abbrev pub put : Position Key Value → Slot Key Value → List (Slot Key Value)
  put at s = at.before ++ s ∷ at.behind

  abbrev pub live : Pair Key Value → Slot Key Value
  live p = record { pair = p; erased = false }

  -- PathMapMutator{map}
  abbrev pub mutator : List (Pair Key Value) → Mutator Key Value
  mutator m = record { prefix = map live m; suffix = [] }

  -- The pairs that are not marked: std::remove_if.
  abbrev pub live_pairs : List (Slot Key Value) → List (Pair Key Value)
  live_pairs [] = []
  live_pairs (s ∷ ss) = if s.erased then live_pairs ss else s.pair ∷ live_pairs ss

  module _ (order : KeyOrder Key) where
    -- std::lower_bound and the test of the slot that it returns
    pub probe : Key → List (Slot Key Value) → Option (Position Key Value)
    probe key [] = none
    probe key (s ∷ ss) =
        let rest = probe key ss in
        if order.less s.pair.0 key
        then elim rest [ none ↦ none | some at ↦ some (record at { before = s ∷ at.before }) ]
        else if order.less key s.pair.0
        then none
        else some (record { before = []; slot = s; behind = ss })

    -- findImpl
    pub find_impl : Mutator Key Value → Key → FindResult Key Value
    unfolding probe
    find_impl m key = elim (probe key m.prefix) [
      | some at ↦ in_prefix at
      | none ↦ elim (probe key m.suffix) [ some at ↦ in_suffix at | none ↦ nowhere ]
    ]

    -- std::inplace_merge: of equal keys, the one of the first range comes first.
    pub merge : List (Pair Key Value) → List (Pair Key Value) → List (Pair Key Value)
    merge [] [] = []
    merge [] (q ∷ b) = q ∷ b
    merge (p ∷ a) [] = p ∷ a
    merge (p ∷ a) (q ∷ b) =
        let first = merge a (q ∷ b) in
        let second = merge (p ∷ a) b in if order.less q.0 p.0 then q ∷ second else p ∷ first

    -- compact
    pub compact : Mutator Key Value → Mutator Key Value
    unfolding merge
    compact m = record {
      prefix = map live (merge (live_pairs m.prefix) (live_pairs m.suffix));
      suffix = [];
    }

    -- finalize
    unfoldable pub finalize : Mutator Key Value → List (Pair Key Value)
    unfolding compact
    finalize m = live_pairs (compact m).prefix

    unfoldable pub live_pair : Slot Key Value → Option (Pair Key Value)
    live_pair s = if s.erased then none else some s.pair

    -- find, and the pair at the iterator
    unfoldable pub find : Mutator Key Value → Key → Option (Pair Key Value)
    unfolding find_impl live_pair
    find m key = elim (find_impl m key) [
      | in_prefix at ↦ live_pair at.slot
      | in_suffix at ↦ live_pair at.slot
      | nowhere ↦ none
    ]

    -- The slot of a position is replaced, or the iterator is `end()`.
    unfoldable pub erase : Mutator Key Value → Key → Mutator Key Value × ℕ
    unfolding find_impl
    erase m key = elim (find_impl m key) [
      | in_prefix at ↦
          if at.slot.erased
          then (m, 0)
          else (record m { prefix = put at (record at.slot { erased = true }) }, 1)
      | in_suffix at ↦
          if at.slot.erased
          then (m, 0)
          else (record m { suffix = put at (record at.slot { erased = true }) }, 1)
      | nowhere ↦ (m, 0)
    ]

    -- vec().size() <= suffixStart_ || compare_(vec().back().first, key)
    pub goes_last : List (Slot Key Value) → Key → Bool
    goes_last [] key = true
    goes_last (s ∷ []) key = order.less s.pair.0 key
    goes_last (s ∷ t ∷ ss) key = goes_last (t ∷ ss) key

    -- The end of emplace and of insert_or_assign, where the key has no slot.
    pub append : Mutator Key Value → Pair Key Value → Mutator Key Value
    unfolding goes_last compact
    append m p =
        let base = if goes_last m.suffix p.0 then m else compact m in
        record base { suffix = base.suffix ++ live p ∷ [] }

    -- emplace
    unfoldable pub emplace : Mutator Key Value → Pair Key Value → Mutator Key Value × Bool
    unfolding find_impl append
    emplace m p = elim (find_impl m p.0) [
      | in_prefix at ↦
          if at.slot.erased then (record m { prefix = put at (live p) }, true) else (m, false)
      | in_suffix at ↦
          if at.slot.erased then (record m { suffix = put at (live p) }, true) else (m, false)
      | nowhere ↦ (append m p, true)
    ]

    -- The slot that insert_or_assign leaves: an old key stays.
    pub assigned : Slot Key Value → Pair Key Value → Slot Key Value
    assigned s p = if s.erased then live p else live (s.pair.0, p.1)

    -- insert_or_assign
    pub insert_or_assign : Mutator Key Value → Pair Key Value → Mutator Key Value × Bool
    unfolding find_impl append assigned
    insert_or_assign m p = elim (find_impl m p.0) [
      | in_prefix at ↦ (record m { prefix = put at (assigned at.slot p) }, at.slot.erased)
      | in_suffix at ↦ (record m { suffix = put at (assigned at.slot p) }, at.slot.erased)
      | nowhere ↦ (append m p, true)
    ]
