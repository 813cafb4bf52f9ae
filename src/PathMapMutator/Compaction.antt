-- ===== src/PathMapMutator/Compaction.antt =====
-- What compact and the end of emplace and insert_or_assign do to a mutator.
use edencommon.Common.{
  ◌≡◌, refl, ◌∙◌, inl, inr, true, false, none, some, List, [], ◌∷◌, ◌++◌, arith, if◌then◌else◌,
  Bool-cases,
}
use edencommon.Path.Order.{KeyOrder}
use edencommon.PathMap.{Pair}
use edencommon.PathMap.Sorted.{same, lookup}
use edencommon.PathMap.Refine.{or_else, is_some}
use edencommon.PathMapMutator.{Slot, Mutator, live, live_pairs, compact, append, goes_last}
use edencommon.PathMapMutator.Slots.{has, lookup-has, append-InOrder, has-append, lookup-append}
use edencommon.PathMapMutator.Merge.{
  merge-IsSorted, lookup-merge, live_pairs-live, has-live, pairs-IsSorted,
}
use edencommon.PathMapMutator.Invariant.{Inv, view, mutator-Inv, has-same}

module _ {Key Value : Type 0} (order : KeyOrder Key) where
  pairs_apart :
      (key : Key) (ss : List (Slot Key Value))
      → is_some (lookup order key (live_pairs ss)) ≡ true
      → has order key ss ≡ true
  pairs_apart key ss e = ground (arith, lookup-has order key ss, Bool-cases (has order key ss))

  compact-view :
      (m : Mutator Key Value)
      → Inv order m
      → (key : Key) → view order (compact order m) key ≡ view order m key
  unfolding compact
  compact-view m v key =
      rw
        (
          live_pairs-live,
          lookup-merge order key (live_pairs m.prefix) (live_pairs m.suffix)
              (pairs-IsSorted order m.prefix v.prefix_sorted)
              (pairs-IsSorted order m.suffix v.suffix_sorted),
        )
        (ground arith)

  compact-has :
      (m : Mutator Key Value) (key : Key)
      → Inv order m
      → has order key m.prefix ≡ false
      → has order key m.suffix ≡ false
      → has order key (compact order m).prefix ≡ false
  unfolding compact
  compact-has m key v e f =
      rw
        (
          has-live,
          lookup-merge order key (live_pairs m.prefix) (live_pairs m.suffix)
              (pairs-IsSorted order m.prefix v.prefix_sorted)
              (pairs-IsSorted order m.suffix v.suffix_sorted),
          lookup-has order key m.prefix e,
          lookup-has order key m.suffix f,
        )
        refl

  pub compact-Inv :
      (m : Mutator Key Value)
      → Inv order m
      → Inv order (compact order m)
        × ((key : Key) → view order (compact order m) key ≡ view order m key)
  unfolding compact
  compact-Inv m v = (
    mutator-Inv order _ (
        merge-IsSorted order (live_pairs m.prefix) (live_pairs m.suffix)
          (pairs-IsSorted order m.prefix v.prefix_sorted)
          (pairs-IsSorted order m.suffix v.suffix_sorted)
          (λ key. ground (arith, pairs_apart key m.prefix, pairs_apart key m.suffix, v.apart key))),
    λ key. compact-view m v key,
  )

  abbrev pub Appended : Mutator Key Value → Pair Key Value → Mutator Key Value → Type 0
  Appended m p m' =
      Inv order m'
      × ((key : Key)
          → view order m' key
            ≡ or_else (view order m key) (if same order key p.0 then some p else none))

  -- A pair that goes last is put behind the suffix.
  append_last :
      (m : Mutator Key Value) (p : Pair Key Value)
      → Inv order m
      → has order p.0 m.prefix ≡ false
      → has order p.0 m.suffix ≡ false
      → goes_last order m.suffix p.0 ≡ true
      → Appended m p (record m { suffix = m.suffix ++ live p ∷ [] })
  append_last m p v e f l = (
    record {
      prefix_sorted = v.prefix_sorted;
      suffix_sorted = append-InOrder order m.suffix (live p) v.suffix_sorted l;
      apart = λ key. ground (
        arith,
        has-append order key m.suffix (live p),
        v.apart key,
        has-same order key p.0 m.prefix,
      );
    },
    λ key. ground (arith, lookup-append order key m.suffix p),
  )

  pub append-Inv :
      (m : Mutator Key Value) (p : Pair Key Value)
      → Inv order m
      → has order p.0 m.prefix ≡ false
      → has order p.0 m.suffix ≡ false
      → Inv order (append order m p)
        × ((key : Key)
            → view order (append order m p) key
              ≡ or_else (view order m key) (if same order key p.0 then some p else none))
  unfolding append goes_last compact
  append-Inv m p v e f = elim (Bool-cases (goes_last order m.suffix p.0)) [
    | inl l ↦ rw l (append_last m p v e f l)
    | inr l ↦
        let (v', view') = compact-Inv m v in
        let (v'', view'') =
          append_last (compact order m) p v' (compact-has m p.0 v e f) refl refl in
        rw l (v'', λ key. view'' key ∙ ground (arith, view' key))
  ]
