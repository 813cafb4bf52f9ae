-- ===== src/PathMapMutator/Invariant.antt =====
-- What holds of a mutator between two calls, and what the parts of its operations do to it.
use edencommon.Common.{
  ◌≡◌, refl, true, false, ◌&&◌, Option, none, some, List, [], ◌∷◌, ◌++◌, arith, if◌then◌else◌,
}
use edencommon.Path.Order.{KeyOrder}
use edencommon.PathMap.{Pair}
use edencommon.PathMap.Sorted.{IsSorted, same, lookup, less-same, less-same_right}
use edencommon.PathMap.Refine.{or_else}
use edencommon.PathMapMutator.{
  Slot, Mutator, Position, FindResult, in_prefix, in_suffix, nowhere, put, live_pairs, live_pair,
  mutator, find_impl, probe,
}
use edencommon.PathMapMutator.Slots.{
  InOrder, has, lookup-has, Probed, probe-Probed, replace-InOrder, has-replace, lookup-at,
  lookup-replace,
}
use edencommon.PathMapMutator.Merge.{live-InOrder}

module _ {Key Value : Type 0} (order : KeyOrder Key) where
  pub record Inv (m : Mutator Key Value) : Type 0 where
    pub prefix_sorted : InOrder order m.prefix
    pub suffix_sorted : InOrder order m.suffix
    pub apart : (key : Key) → (has order key m.prefix && has order key m.suffix) ≡ false

  -- What is in the map at a key.
  abbrev pub view : Mutator Key Value → Key → Option (Pair Key Value)
  view m key =
      or_else (lookup order key (live_pairs m.prefix)) (lookup order key (live_pairs m.suffix))

  pub mutator-Inv : (m : List (Pair Key Value)) → IsSorted order m → Inv (mutator m)
  mutator-Inv m h = record {
    prefix_sorted = live-InOrder order m h;
    suffix_sorted = tt;
    apart = λ key. ground arith;
  }

  abbrev pub Located : Mutator Key Value → Key → FindResult Key Value → Type 0
  Located m key (in_prefix at) =
      (m.prefix ≡ put at at.slot) × (same order key at.slot.pair.0 ≡ true)
  Located m key (in_suffix at) =
      (m.suffix ≡ put at at.slot) × (same order key at.slot.pair.0 ≡ true)
  Located m key nowhere = (has order key m.prefix ≡ false) × (has order key m.suffix ≡ false)

  located :
      (m : Mutator Key Value) (key : Key) (o o' : Option (Position Key Value))
      → Probed order key m.prefix o
      → Probed order key m.suffix o'
      → Located m key (elim o [
        | some at ↦ in_prefix at
        | none ↦ elim o' [ some at ↦ in_suffix at | none ↦ nowhere ]
      ])
  located m key (some at) o' h k = h
  located m key none (some at) h k = k
  located m key none none h k = (h, k)

  pub find_impl-Located :
      (m : Mutator Key Value) (key : Key) → Inv m → Located m key (find_impl order m key)
  unfolding find_impl
  find_impl-Located m key v =
      located m key (probe order key m.prefix) (probe order key m.suffix)
        (probe-Probed order key m.prefix v.prefix_sorted)
        (probe-Probed order key m.suffix v.suffix_sorted)

  has-at :
      (b : List (Slot Key Value)) (s : Slot Key Value) (c : List (Slot Key Value)) (key : Key)
      → same order key s.pair.0 ≡ true
      → has order key (b ++ s ∷ c) ≡ true
  has-at [] s c key e = ground arith
  has-at (t ∷ b) s c key e = ground (arith, has-at b s c key e)

  pub has-same :
      (a b : Key) (ss : List (Slot Key Value))
      → same order a b ≡ true
      → has order a ss ≡ has order b ss
  has-same a b [] e = refl
  has-same a b (s ∷ ss) e = ground (
    arith,
    has-same a b ss e,
    less-same order a b s.pair.0 e,
    less-same_right order a b s.pair.0 e,
  )

  found :
      (xs : List (Slot Key Value)) (at : Position Key Value) (key : Key)
      → InOrder order xs
      → xs ≡ put at at.slot
      → same order key at.slot.pair.0 ≡ true
      → (lookup order key (live_pairs xs) ≡ live_pair order at.slot) × (has order key xs ≡ true)
  found xs at key h e d = rw e (
    lookup-at order at.before at.slot at.behind key (rw e at h) d,
    has-at at.before at.slot at.behind key d,
  )

  replaced :
      (xs : List (Slot Key Value)) (at : Position Key Value) (s : Slot Key Value)
      → InOrder order xs
      → xs ≡ put at at.slot
      → same order at.slot.pair.0 s.pair.0 ≡ true
      → InOrder order (put at s)
        × ((key : Key) → has order key (put at s) ≡ has order key xs)
        × ((key : Key)
            → lookup order key (live_pairs (put at s)) ≡ (
                if same order key at.slot.pair.0
                then live_pair order s
                else lookup order key (live_pairs xs)))
  replaced xs at s h e d = rw e (
    replace-InOrder order at.before at.slot s at.behind d (rw e at h),
    (λ key. has-replace order key at.before at.slot s at.behind d),
    (λ key. lookup-replace order key at.before at.slot s at.behind (rw e at h) d),
  )

  pub view-prefix :
      (m : Mutator Key Value) (key : Key) (at : Position Key Value)
      → Inv m
      → m.prefix ≡ put at at.slot
      → same order key at.slot.pair.0 ≡ true
      → view m key ≡ live_pair order at.slot
  view-prefix m key at v e d =
      ground (
        arith,
        found m.prefix at key v.prefix_sorted e d,
        v.apart key,
        lookup-has order key m.suffix,
      )

  pub view-suffix :
      (m : Mutator Key Value) (key : Key) (at : Position Key Value)
      → Inv m
      → m.suffix ≡ put at at.slot
      → same order key at.slot.pair.0 ≡ true
      → view m key ≡ live_pair order at.slot
  view-suffix m key at v e d =
      ground (
        arith,
        found m.suffix at key v.suffix_sorted e d,
        v.apart key,
        lookup-has order key m.prefix,
      )

  -- A slot is replaced by one of the same key.
  abbrev pub Replaced : Mutator Key Value → Key → Slot Key Value → Mutator Key Value → Type 0
  Replaced m key s m' =
      Inv m'
      × ((other : Key)
          → view m' other ≡ (if same order other key then live_pair order s else view m other))

  pub Replaced-prefix :
      (m : Mutator Key Value) (at : Position Key Value) (s : Slot Key Value)
      → Inv m
      → m.prefix ≡ put at at.slot
      → same order at.slot.pair.0 s.pair.0 ≡ true
      → Replaced m at.slot.pair.0 s (record m { prefix = put at s })
  Replaced-prefix m at s v e d =
      let (sorted, has', look) = replaced m.prefix at s v.prefix_sorted e d in
      (
        record {
          prefix_sorted = sorted;
          suffix_sorted = v.suffix_sorted;
          apart = λ key. ground (arith, has' key, v.apart key);
        },
        λ key. ground (
          arith,
          look key,
          found m.prefix at key v.prefix_sorted e,
          v.apart key,
          lookup-has order key m.suffix,
        ),
      )

  pub Replaced-suffix :
      (m : Mutator Key Value) (at : Position Key Value) (s : Slot Key Value)
      → Inv m
      → m.suffix ≡ put at at.slot
      → same order at.slot.pair.0 s.pair.0 ≡ true
      → Replaced m at.slot.pair.0 s (record m { suffix = put at s })
  Replaced-suffix m at s v e d =
      let (sorted, has', look) = replaced m.suffix at s v.suffix_sorted e d in
      (
        record {
          prefix_sorted = v.prefix_sorted;
          suffix_sorted = sorted;
          apart = λ key. ground (arith, has' key, v.apart key);
        },
        λ key. ground (
          arith,
          look key,
          found m.suffix at key v.suffix_sorted e,
          v.apart key,
          lookup-has order key m.prefix,
        ),
      )

  pub view-nowhere :
      (m : Mutator Key Value) (key : Key)
      → has order key m.prefix ≡ false
      → has order key m.suffix ≡ false
      → view m key ≡ none
  view-nowhere m key e f =
      ground (arith, lookup-has order key m.prefix e, lookup-has order key m.suffix f)
