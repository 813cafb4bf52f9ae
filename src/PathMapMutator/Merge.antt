-- ===== src/PathMapMutator/Merge.antt =====
-- The merge of two sorted ranges, and slots without marks.
use edencommon.Common.{
  ◌≡◌, refl, ap, inl, inr, true, false, ◌&&◌, List, [], ◌∷◌, arith, All, Bool-cases, map,
}
use edencommon.Path.Order.{KeyOrder}
use edencommon.PathMap.{Pair}
use edencommon.PathMap.Sorted.{IsSorted, same, lookup, less_irrefl, less-same, All-less}
use edencommon.PathMap.Refine.{or_else, is_some, lookup-none}
use edencommon.PathMapMutator.{Slot, live, live_pairs, merge}
use edencommon.PathMapMutator.Slots.{InOrder, Behind, has}

module _ {Key Value : Type 0} (order : KeyOrder Key) where
  -- No key is in both.
  abbrev pub Apart : List (Pair Key Value) → List (Pair Key Value) → Type 0
  Apart a b = (key : Key) → (is_some (lookup order key a) && is_some (lookup order key b)) ≡ false

  Above : Key → List (Pair Key Value) → Type 0
  Above key = All (λ q. order.less key q.0 ≡ true)

  merge-Above :
      (key : Key) (a b : List (Pair Key Value))
      → Above key a
      → Above key b
      → Above key (merge order a b)
  unfolding merge Above
  merge-Above key [] [] h k = tt
  merge-Above key [] (q ∷ b) h k = k
  merge-Above key (p ∷ a) [] h k = h
  merge-Above key (p ∷ a) (q ∷ b) h k =
      ground (arith, merge-Above key a (q ∷ b) h.1 k, merge-Above key (p ∷ a) b h k.1)

  heads_differ :
      (p q : Pair Key Value) (a b : List (Pair Key Value))
      → Apart (p ∷ a) (q ∷ b)
      → same order p.0 q.0 ≡ false
  heads_differ p q a b h = ground (arith, h p.0, less_irrefl order p.0)

  Apart-left : (p : Pair Key Value) (a b : List (Pair Key Value)) → Apart (p ∷ a) b → Apart a b
  Apart-left p a b h key = ground (arith, h key)

  Apart-right : (q : Pair Key Value) (a b : List (Pair Key Value)) → Apart a (q ∷ b) → Apart a b
  Apart-right q a b h key = ground (arith, h key)

  pub merge-IsSorted :
      (a b : List (Pair Key Value))
      → IsSorted order a
      → IsSorted order b
      → Apart a b
      → IsSorted order (merge order a b)
  unfolding merge Above
  merge-IsSorted [] [] u v h = tt
  merge-IsSorted [] (q ∷ b) u v h = v
  merge-IsSorted (p ∷ a) [] u v h = u
  merge-IsSorted (p ∷ a) (q ∷ b) u v h = elim (Bool-cases (order.less q.0 p.0)) [
    | inl e ↦ rw e (
      merge-Above q.0 (p ∷ a) b (e, All-less order q.0 p.0 a e u.0) v.0,
      merge-IsSorted (p ∷ a) b u v.1 (Apart-right q (p ∷ a) b h),
    )
    | inr e ↦ rw e (
      first_below p q a b e u v (heads_differ p q a b h),
      merge-IsSorted a (q ∷ b) u.1 v (Apart-left p a (q ∷ b) h),
    )
  ]
    where
      first_below :
          (p q : Pair Key Value) (a b : List (Pair Key Value))
          → order.less q.0 p.0 ≡ false
          → IsSorted order (p ∷ a)
          → IsSorted order (q ∷ b)
          → same order p.0 q.0 ≡ false
          → Above p.0 (merge order a (q ∷ b))
      first_below p q a b e u v d =
          let l : order.less p.0 q.0 ≡ true = ground arith in
          merge-Above p.0 a (q ∷ b) u.0 (l, All-less order p.0 q.0 b l v.0)

  pub lookup-merge :
      (key : Key) (a b : List (Pair Key Value))
      → IsSorted order a
      → IsSorted order b
      → lookup order key (merge order a b) ≡ or_else (lookup order key a) (lookup order key b)
  unfolding merge
  lookup-merge key [] [] u v = refl
  lookup-merge key [] (q ∷ b) u v = refl
  lookup-merge key (p ∷ a) [] u v = ground arith
  lookup-merge key (p ∷ a) (q ∷ b) u v = ground (
    arith,
    lookup-merge key a (q ∷ b) u.1 v,
    lookup-merge key (p ∷ a) b u v.1,
    lookup-none order key p a,
    less-same order key q.0 p.0,
    order.asym key p.0,
  )

  pub live_pairs-live : (m : List (Pair Key Value)) → live_pairs (map live m) ≡ m
  live_pairs-live [] = refl
  live_pairs-live (p ∷ m) = ap (λ xs. p ∷ xs) (live_pairs-live m)

  live-Behind :
      (key : Key) (m : List (Pair Key Value)) → Above key m → Behind order key (map live m)
  unfolding Above
  live-Behind key [] h = tt
  live-Behind key (p ∷ m) h = (h.0, live-Behind key m h.1)

  pub live-InOrder : (m : List (Pair Key Value)) → IsSorted order m → InOrder order (map live m)
  unfolding Above
  live-InOrder [] h = tt
  live-InOrder (p ∷ m) h = (live-Behind p.0 m h.0, live-InOrder m h.1)

  pub has-live :
      (key : Key) (m : List (Pair Key Value))
      → has order key (map live m) ≡ is_some (lookup order key m)
  has-live key [] = refl
  has-live key (p ∷ m) = ground (arith, has-live key m)

  pairs-Above :
      (key : Key) (ss : List (Slot Key Value)) → Behind order key ss → Above key (live_pairs ss)
  unfolding Above
  pairs-Above key [] h = tt
  pairs-Above key (s ∷ ss) h = ground (arith, pairs-Above key ss h.1)

  pub pairs-IsSorted :
      (ss : List (Slot Key Value)) → InOrder order ss → IsSorted order (live_pairs ss)
  unfolding Above
  pairs-IsSorted [] h = tt
  pairs-IsSorted (s ∷ ss) h = ground (arith, pairs-IsSorted ss h.1, pairs-Above s.pair.0 ss h.0)
