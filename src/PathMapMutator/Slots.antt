-- ===== src/PathMapMutator/Slots.antt =====
-- Sorted slots, the search for a slot and the replacement of one.
use edencommon.Common.{
  ◌≡◌, refl, sym, ap, ◌∙◌, inl, inr, Bool, true, false, ◌||◌, Option, none, some, List, [], ◌∷◌,
  ◌++◌, arith, if◌then◌else◌, All, Bool-cases,
}
use edencommon.Path.Order.{KeyOrder}
use edencommon.PathMap.{Pair}
use edencommon.PathMap.Sorted.{same, lookup, less_trans, less-same, less-same_right}
use edencommon.PathMap.Refine.{or_else}
use edencommon.PathMapMutator.{Slot, Position, put, live, live_pairs, live_pair, probe, goes_last}

module _ {Key Value : Type 0} (order : KeyOrder Key) where
  abbrev pub Behind : Key → List (Slot Key Value) → Type 0
  Behind key = All (λ s. order.less key s.pair.0 ≡ true)

  abbrev pub InOrder : List (Slot Key Value) → Type 0
  InOrder [] = Unit
  InOrder (s ∷ ss) = Behind s.pair.0 ss × InOrder ss

  -- A slot has the key, be it marked or not.
  abbrev pub has : Key → List (Slot Key Value) → Bool
  has key [] = false
  has key (s ∷ ss) = same order key s.pair.0 || has key ss

  pub has_not : (key : Key) (ss : List (Slot Key Value)) → Behind key ss → has key ss ≡ false
  has_not key [] h = refl
  has_not key (s ∷ ss) h = ground (arith, has_not key ss h.1)

  pub lookup-has :
      (key : Key) (ss : List (Slot Key Value))
      → has key ss ≡ false
      → lookup order key (live_pairs ss) ≡ none
  lookup-has key [] h = refl
  lookup-has key (s ∷ ss) h = ground (arith, lookup-has key ss)

  Behind-less :
      (a b : Key) (ss : List (Slot Key Value)) → order.less b a ≡ false → Behind b ss → Behind a ss
  Behind-less a b [] h k = tt
  Behind-less a b (s ∷ ss) h k = ground (arith, Behind-less a b ss, order.cotrans b a s.pair.0)

  -- What the search says of the slots.
  abbrev pub Probed : Key → List (Slot Key Value) → Option (Position Key Value) → Type 0
  Probed key ss none = has key ss ≡ false
  Probed key ss (some at) = (ss ≡ put at at.slot) × (same order key at.slot.pair.0 ≡ true)

  step_over :
      (key : Key) (s : Slot Key Value) (ss : List (Slot Key Value))
      (o : Option (Position Key Value))
      → order.less s.pair.0 key ≡ true
      → Probed key ss o
      → Probed key
          (s ∷ ss)
          (elim o [ none ↦ none | some at ↦ some (record at { before = s ∷ at.before }) ])
  step_over key s ss none e h = ground arith
  step_over key s ss (some at) e h = (ap (λ xs. s ∷ xs) h.0, h.1)

  pub probe-Probed :
      (key : Key) (ss : List (Slot Key Value)) → InOrder ss → Probed key ss (probe order key ss)
  unfolding probe
  probe-Probed key [] h = refl
  probe-Probed key (s ∷ ss) h = elim (Bool-cases (order.less s.pair.0 key)) [
    | inl f ↦ rw f (step_over key s ss (probe order key ss) f (probe-Probed key ss h.1))
    | inr f ↦ elim (Bool-cases (order.less key s.pair.0)) [
      | inl g ↦ rw (f, g) (ground (arith, has_not key ss, Behind-less key s.pair.0 ss))
      | inr g ↦ rw (f, g) (refl, ground arith)
    ]
  ]

  Behind-at :
      (a : Key) (b : List (Slot Key Value)) (s : Slot Key Value) (c : List (Slot Key Value))
      → Behind a (b ++ s ∷ c)
      → order.less a s.pair.0 ≡ true
  Behind-at a [] s c h = h.0
  Behind-at a (t ∷ b) s c h = Behind-at a b s c h.1

  Behind-replace :
      (a : Key) (b : List (Slot Key Value)) (s s' : Slot Key Value) (c : List (Slot Key Value))
      → same order s.pair.0 s'.pair.0 ≡ true
      → Behind a (b ++ s ∷ c)
      → Behind a (b ++ s' ∷ c)
  Behind-replace a [] s s' c e h = (sym (less-same_right order s.pair.0 s'.pair.0 a e) ∙ h.0, h.1)
  Behind-replace a (t ∷ b) s s' c e h = (h.0, Behind-replace a b s s' c e h.1)

  pub replace-InOrder :
      (b : List (Slot Key Value)) (s s' : Slot Key Value) (c : List (Slot Key Value))
      → same order s.pair.0 s'.pair.0 ≡ true
      → InOrder (b ++ s ∷ c)
      → InOrder (b ++ s' ∷ c)
  replace-InOrder [] s s' c e h = ground (arith, Behind-less s'.pair.0 s.pair.0 c, h)
  replace-InOrder (t ∷ b) s s' c e h =
      (Behind-replace t.pair.0 b s s' c e h.0, replace-InOrder b s s' c e h.1)

  pub has-replace :
      (key : Key) (b : List (Slot Key Value)) (s s' : Slot Key Value) (c : List (Slot Key Value))
      → same order s.pair.0 s'.pair.0 ≡ true
      → has key (b ++ s' ∷ c) ≡ has key (b ++ s ∷ c)
  has-replace key [] s s' c e =
      ground (
        arith,
        less-same order s.pair.0 s'.pair.0 key,
        less-same_right order s.pair.0 s'.pair.0 key,
      )
  has-replace key (t ∷ b) s s' c e = ground (arith, has-replace key b s s' c e)

  pub lookup-at :
      (b : List (Slot Key Value)) (s : Slot Key Value) (c : List (Slot Key Value)) (key : Key)
      → InOrder (b ++ s ∷ c)
      → same order key s.pair.0 ≡ true
      → lookup order key (live_pairs (b ++ s ∷ c)) ≡ live_pair order s
  unfolding live_pair
  lookup-at [] s c key h e =
      ground (arith, has_not key c, Behind-less key s.pair.0 c, lookup-has key c)
  lookup-at (t ∷ b) s c key h e = ground (
    arith,
    lookup-at b s c key h.1 e,
    Behind-at t.pair.0 b s c h.0,
    less-same_right order key s.pair.0 t.pair.0,
  )

  pub lookup-replace :
      (key : Key) (b : List (Slot Key Value)) (s s' : Slot Key Value) (c : List (Slot Key Value))
      → InOrder (b ++ s ∷ c)
      → same order s.pair.0 s'.pair.0 ≡ true
      → lookup order key (live_pairs (b ++ s' ∷ c)) ≡ (
          if same order key s.pair.0
          then live_pair order s'
          else lookup order key (live_pairs (b ++ s ∷ c)))
  unfolding live_pair
  lookup-replace key [] s s' c h e = ground (
    arith,
    has_not key c,
    Behind-less key s.pair.0 c,
    lookup-has key c,
    less-same order s.pair.0 s'.pair.0 key,
    less-same_right order s.pair.0 s'.pair.0 key,
  )
  lookup-replace key (t ∷ b) s s' c h e = ground (
    arith,
    lookup-replace key b s s' c h.1 e,
    Behind-at t.pair.0 b s c h.0,
    less-same order key t.pair.0 s.pair.0,
  )

  Behind-append :
      (a : Key) (ss : List (Slot Key Value)) (s : Slot Key Value)
      → Behind a ss
      → order.less a s.pair.0 ≡ true
      → Behind a (ss ++ s ∷ [])
  Behind-append a [] s h e = (e, tt)
  Behind-append a (t ∷ ss) s h e = (h.0, Behind-append a ss s h.1 e)

  goes_last-less :
      (t : Slot Key Value) (ss : List (Slot Key Value)) (key : Key)
      → Behind t.pair.0 ss
      → InOrder ss
      → goes_last order (t ∷ ss) key ≡ true
      → order.less t.pair.0 key ≡ true
  unfolding goes_last
  goes_last-less t [] key h k e = e
  goes_last-less t (u ∷ ss) key h k e =
      less_trans order t.pair.0 u.pair.0 key h.0 (goes_last-less u ss key k.0 k.1 e)

  goes_last-rest :
      (t : Slot Key Value) (ss : List (Slot Key Value)) (key : Key)
      → goes_last order (t ∷ ss) key ≡ true
      → goes_last order ss key ≡ true
  unfolding goes_last
  goes_last-rest t [] key e = refl
  goes_last-rest t (u ∷ ss) key e = e

  pub append-InOrder :
      (ss : List (Slot Key Value)) (s : Slot Key Value)
      → InOrder ss
      → goes_last order ss s.pair.0 ≡ true
      → InOrder (ss ++ s ∷ [])
  append-InOrder [] s h e = (tt, tt)
  append-InOrder (t ∷ ss) s h e = (
    Behind-append t.pair.0 ss s h.0 (goes_last-less t ss s.pair.0 h.0 h.1 e),
    append-InOrder ss s h.1 (goes_last-rest t ss s.pair.0 e),
  )

  pub has-append :
      (key : Key) (ss : List (Slot Key Value)) (s : Slot Key Value)
      → has key (ss ++ s ∷ []) ≡ (has key ss || same order key s.pair.0)
  has-append key [] s = ground arith
  has-append key (t ∷ ss) s = ground (arith, has-append key ss s)

  pub lookup-append :
      (key : Key) (ss : List (Slot Key Value)) (p : Pair Key Value)
      → lookup order key (live_pairs (ss ++ live p ∷ []))
        ≡ or_else (lookup order key (live_pairs ss)) (if same order key p.0 then some p else none)
  lookup-append key [] p = ground arith
  lookup-append key (t ∷ ss) p = ground (arith, lookup-append key ss p)
