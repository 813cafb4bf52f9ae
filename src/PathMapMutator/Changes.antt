-- ===== src/PathMapMutator/Changes.antt =====
-- erase, insert_or_assign and finalize in the terms of `view`.
use edencommon.Common.{
  ℕ, ◌≡◌, refl, ◌∙◌, inl, inr, Bool, true, not, none, some, arith, if◌then◌else◌, Bool-cases,
}
use edencommon.Path.Order.{KeyOrder}
use edencommon.PathMap.{Pair}
use edencommon.PathMap.Sorted.{IsSorted, same, lookup, same_keys, less_irrefl}
use edencommon.PathMap.Refine.{is_some}
use edencommon.PathMap.Collate.{value_of}
use edencommon.PathMapMutator.{
  Slot, Mutator, FindResult, in_prefix, in_suffix, nowhere, put, live_pair, find_impl, finalize,
  compact, append, assigned, erase, insert_or_assign,
}
use edencommon.PathMapMutator.Merge.{pairs-IsSorted}
use edencommon.PathMapMutator.Invariant.{
  Inv, view, Located, find_impl-Located, view-prefix, view-suffix, view-nowhere, Replaced,
  Replaced-prefix, Replaced-suffix,
}
use edencommon.PathMapMutator.Compaction.{append-Inv, compact-Inv}
use edencommon.PathMapMutator.Refine.{view-same}

module _ {Key Value : Type 0} (order : KeyOrder Key) where
  same_refl : (s : Slot Key Value) → same order s.pair.0 s.pair.0 ≡ true
  same_refl s = ground (arith, less_irrefl order s.pair.0)

  abbrev pub Erased : Mutator Key Value → Key → Mutator Key Value × ℕ → Type 0
  Erased m key (m', n) =
      Inv order m'
      × (n ≡ (if is_some (view order m key) then 1 else 0))
      × ((other : Key)
          → view order m' other ≡ (if same order other key then none else view order m other))

  absent :
      (m : Mutator Key Value) (key : Key)
      → Inv order m
      → view order m key ≡ none
      → Erased m key (m, 0)
  absent m key v f = (v, rw f refl, λ other. ground (arith, view-same order m other key, f))

  marked :
      (m m' : Mutator Key Value) (key : Key) (s : Slot Key Value)
      → Replaced order m s.pair.0 (record s { erased = true }) m'
      → same order key s.pair.0 ≡ true
      → view order m key ≡ some s.pair
      → Erased m key (m', 1)
  unfolding live_pair
  marked m m' key s (v, look) e f =
      (v, rw f refl, λ other. look other ∙ ground (arith, same_keys order key s.pair.0 other e))

  erased_at :
      (m : Mutator Key Value) (key : Key) (r : FindResult Key Value)
      → Inv order m
      → Located order m key r
      → Erased m key (elim r [
        | in_prefix at ↦
            if at.slot.erased
            then (m, 0)
            else (record m { prefix = put at (record at.slot { erased = true }) }, 1)
        | in_suffix at ↦
            if at.slot.erased
            then (m, 0)
            else (record m { suffix = put at (record at.slot { erased = true }) }, 1)
        | nowhere ↦ (m, 0)
      ])
  unfolding live_pair
  erased_at m key (in_prefix at) v h = elim (Bool-cases at.slot.erased) [
    | inl e ↦ rw e (absent m key v (view-prefix order m key at v h.0 h.1 ∙ rw e refl))
    | inr e ↦ rw e (
        marked m (record m { prefix = put at (record at.slot { erased = true }) }) key at.slot
          (Replaced-prefix order m at (record at.slot { erased = true }) v h.0 (same_refl at.slot))
          h.1 (view-prefix order m key at v h.0 h.1 ∙ rw e refl))
  ]
  erased_at m key (in_suffix at) v h = elim (Bool-cases at.slot.erased) [
    | inl e ↦ rw e (absent m key v (view-suffix order m key at v h.0 h.1 ∙ rw e refl))
    | inr e ↦ rw e (
        marked m (record m { suffix = put at (record at.slot { erased = true }) }) key at.slot
          (Replaced-suffix order m at (record at.slot { erased = true }) v h.0 (same_refl at.slot))
          h.1 (view-suffix order m key at v h.0 h.1 ∙ rw e refl))
  ]
  erased_at m key nowhere v h = absent m key v (view-nowhere order m key h.0 h.1)

  -- On a mutator that keeps its invariant, erase keeps it, removes the key and no other, and returns
  -- how many there were.
  pub erase-view :
      (m : Mutator Key Value) (key : Key)
      → Inv order m
      → Inv order (erase order m key).0
        × ((erase order m key).1 ≡ (if is_some (view order m key) then 1 else 0))
        × ((other : Key)
            → view order (erase order m key).0 other
              ≡ (if same order other key then none else view order m other))
  unfolding erase
  erase-view m key v = erased_at m key (find_impl order m key) v (find_impl-Located order m key v)

  abbrev pub Assigned : Mutator Key Value → Pair Key Value → Mutator Key Value × Bool → Type 0
  Assigned m p (m', inserted) =
      Inv order m'
      × (inserted ≡ not (is_some (view order m p.0)))
      × ((key : Key)
          → value_of (view order m' key)
            ≡ (if same order key p.0 then some p.1 else value_of (view order m key)))

  overwritten :
      (m m' : Mutator Key Value) (p : Pair Key Value) (s : Slot Key Value)
      → Replaced order m s.pair.0 (assigned order s p) m'
      → same order p.0 s.pair.0 ≡ true
      → view order m p.0 ≡ live_pair order s
      → Assigned m p (m', s.erased)
  unfolding live_pair assigned
  overwritten m m' p s (v, look) e f =
      (v, rw f (ground arith), λ key. ground (arith, look key, same_keys order p.0 s.pair.0 key e))

  assigned-same :
      (s : Slot Key Value) (p : Pair Key Value)
      → same order p.0 s.pair.0 ≡ true
      → same order s.pair.0 (assigned order s p).pair.0 ≡ true
  unfolding assigned
  assigned-same s p e = ground (arith, same_refl s)

  assigned-at :
      (m : Mutator Key Value) (p : Pair Key Value) (r : FindResult Key Value)
      → Inv order m
      → Located order m p.0 r
      → Assigned m p (elim r [
        | in_prefix at ↦ (record m { prefix = put at (assigned order at.slot p) }, at.slot.erased)
        | in_suffix at ↦ (record m { suffix = put at (assigned order at.slot p) }, at.slot.erased)
        | nowhere ↦ (append order m p, true)
      ])
  assigned-at m p (in_prefix at) v h =
      overwritten m (record m { prefix = put at (assigned order at.slot p) }) p at.slot
        (Replaced-prefix order m at (assigned order at.slot p) v h.0 (assigned-same at.slot p h.1))
        h.1 (view-prefix order m p.0 at v h.0 h.1)
  assigned-at m p (in_suffix at) v h =
      overwritten m (record m { suffix = put at (assigned order at.slot p) }) p at.slot
        (Replaced-suffix order m at (assigned order at.slot p) v h.0 (assigned-same at.slot p h.1))
        h.1 (view-suffix order m p.0 at v h.0 h.1)
  assigned-at m p nowhere v h =
      let (v', look) = append-Inv order m p v h.0 h.1 in
      let f : view order m p.0 ≡ none = view-nowhere order m p.0 h.0 h.1 in
      (v', rw f refl, λ key. ground (arith, look key, view-same order m key p.0, f))

  -- On a mutator that keeps its invariant, insert_or_assign keeps it, leaves the value at the key,
  -- changes no other, and says whether the key was not there before.
  pub insert_or_assign-view :
      (m : Mutator Key Value) (p : Pair Key Value)
      → Inv order m
      → Inv order (insert_or_assign order m p).0
        × ((insert_or_assign order m p).1 ≡ not (is_some (view order m p.0)))
        × ((key : Key)
            → value_of (view order (insert_or_assign order m p).0 key)
              ≡ (if same order key p.0 then some p.1 else value_of (view order m key)))
  unfolding insert_or_assign
  insert_or_assign-view m p v =
      assigned-at m p (find_impl order m p.0) v (find_impl-Located order m p.0 v)

  -- Of a mutator that keeps its invariant, finalize returns a sorted map with what is in the mutator
  -- at each key.
  pub finalize-view :
      (m : Mutator Key Value)
      → Inv order m
      → IsSorted order (finalize order m)
        × ((key : Key) → lookup order key (finalize order m) ≡ view order m key)
  unfolding finalize compact
  finalize-view m v =
      let (v', look) = compact-Inv order m v in
      (
        pairs-IsSorted order (compact order m).prefix v'.prefix_sorted,
        λ key. ground (arith, look key),
      )
