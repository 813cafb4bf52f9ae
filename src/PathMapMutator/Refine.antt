-- ===== src/PathMapMutator/Refine.antt =====
-- A mutator is a finite map, as PathMap is: its operations in the terms of `view`.
use edencommon.Common.{
  ◌≡◌, refl, sym, ◌∙◌, inl, inr, Bool, true, false, not, none, some, List, [], ◌∷◌, arith,
  if◌then◌else◌, Bool-cases,
}
use edencommon.Path.Order.{KeyOrder}
use edencommon.PathMap.{Pair}
use edencommon.PathMap.Sorted.{same, lookup, less-same, less-same_right, same_sym, same_keys}
use edencommon.PathMap.Refine.{or_else, is_some}
use edencommon.PathMapMutator.{
  Slot, Mutator, FindResult, in_prefix, in_suffix, nowhere, put, live, live_pairs, live_pair,
  find_impl, find, append, emplace,
}
use edencommon.PathMapMutator.Invariant.{
  Inv, view, Located, find_impl-Located, view-prefix, view-suffix, view-nowhere, Replaced,
  Replaced-prefix, Replaced-suffix,
}
use edencommon.PathMapMutator.Compaction.{append-Inv}

module _ {Key Value : Type 0} (order : KeyOrder Key) where
  pub found_at :
      (m : Mutator Key Value) (key : Key) (r : FindResult Key Value)
      → Inv order m
      → Located order m key r
      → view order m key ≡ elim r [
        | in_prefix at ↦ live_pair order at.slot
        | in_suffix at ↦ live_pair order at.slot
        | nowhere ↦ none
      ]
  found_at m key (in_prefix at) v h = view-prefix order m key at v h.0 h.1
  found_at m key (in_suffix at) v h = view-suffix order m key at v h.0 h.1
  found_at m key nowhere v h = view-nowhere order m key h.0 h.1

  -- What emplace has done to the map.
  abbrev pub Emplaced : Mutator Key Value → Pair Key Value → Mutator Key Value × Bool → Type 0
  Emplaced m p (m', inserted) =
      Inv order m'
      × (inserted ≡ not (is_some (view order m p.0)))
      × ((key : Key)
          → view order m' key
            ≡ or_else (view order m key) (if same order key p.0 then some p else none))

  lookup-same :
      (a b : Key) (m : List (Pair Key Value))
      → same order a b ≡ true
      → lookup order a m ≡ lookup order b m
  lookup-same a b [] e = refl
  lookup-same a b (p ∷ m) e =
      ground
        (arith, lookup-same a b m e, less-same order a b p.0 e, less-same_right order a b p.0 e)

  pub view-same :
      (m : Mutator Key Value) (a b : Key) → same order a b ≡ true → view order m a ≡ view order m b
  view-same m a b e =
      rw (lookup-same a b (live_pairs m.prefix) e, lookup-same a b (live_pairs m.suffix) e) refl

  -- A marked slot takes the pair.
  revived :
      (m m' : Mutator Key Value) (p : Pair Key Value) (s : Slot Key Value)
      → Replaced order m s.pair.0 (live p) m'
      → same order p.0 s.pair.0 ≡ true
      → view order m p.0 ≡ none
      → Emplaced m p (m', true)
  unfolding live_pair
  revived m m' p s (v, look) e f = (
    v,
    rw f refl,
    λ key. look key ∙ ground (arith, same_keys order p.0 s.pair.0 key e, view-same m key p.0, f),
  )

  -- The key is there, and the map stays.
  kept :
      (m : Mutator Key Value) (p q : Pair Key Value)
      → Inv order m
      → view order m p.0 ≡ some q
      → Emplaced m p (m, false)
  kept m p q v f = (v, rw f refl, λ key. ground (arith, view-same m key p.0, f))

  emplaced_at :
      (m : Mutator Key Value) (p : Pair Key Value) (r : FindResult Key Value)
      → Inv order m
      → Located order m p.0 r
      → Emplaced m p (elim r [
        | in_prefix at ↦
            if at.slot.erased then (record m { prefix = put at (live p) }, true) else (m, false)
        | in_suffix at ↦
            if at.slot.erased then (record m { suffix = put at (live p) }, true) else (m, false)
        | nowhere ↦ (append order m p, true)
      ])
  unfolding live_pair
  emplaced_at m p (in_prefix at) v h = elim (Bool-cases at.slot.erased) [
    | inl e ↦ rw e (
        revived m (record m { prefix = put at (live p) }) p at.slot
          (Replaced-prefix order m at (live p) v h.0 (same_sym order p.0 at.slot.pair.0 h.1)) h.1
          (view-prefix order m p.0 at v h.0 h.1 ∙ rw e refl))
    | inr e ↦ rw e (kept m p at.slot.pair v (view-prefix order m p.0 at v h.0 h.1 ∙ rw e refl))
  ]
  emplaced_at m p (in_suffix at) v h = elim (Bool-cases at.slot.erased) [
    | inl e ↦ rw e (
        revived m (record m { suffix = put at (live p) }) p at.slot
          (Replaced-suffix order m at (live p) v h.0 (same_sym order p.0 at.slot.pair.0 h.1)) h.1
          (view-suffix order m p.0 at v h.0 h.1 ∙ rw e refl))
    | inr e ↦ rw e (kept m p at.slot.pair v (view-suffix order m p.0 at v h.0 h.1 ∙ rw e refl))
  ]
  emplaced_at m p nowhere v h =
      let (v', look) = append-Inv order m p v h.0 h.1 in
      (v', rw (view-nowhere order m p.0 h.0 h.1) refl, look)

  -- On a mutator that keeps its invariant, `find` returns what is in the map at the key.
  pub find-eq-view :
      (m : Mutator Key Value) (key : Key) → Inv order m → find order m key ≡ view order m key
  unfolding find
  find-eq-view m key v =
      sym (found_at m key (find_impl order m key) v (find_impl-Located order m key v))

  -- On a mutator that keeps its invariant, emplace keeps it, adds the pair where the key is not there,
  -- changes nothing else, and says whether it added it.
  pub emplace-view :
      (m : Mutator Key Value) (p : Pair Key Value)
      → Inv order m
      → Inv order (emplace order m p).0
        × ((emplace order m p).1 ≡ not (is_some (view order m p.0)))
        × ((key : Key)
            → view order (emplace order m p).0 key
              ≡ or_else (view order m key) (if same order key p.0 then some p else none))
  unfolding emplace
  emplace-view m p v = emplaced_at m p (find_impl order m p.0) v (find_impl-Located order m p.0 v)
