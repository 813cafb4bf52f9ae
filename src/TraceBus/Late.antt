-- ===== src/TraceBus/Late.antt =====
-- What a subscriber still sees after it has unsubscribed.
use edencommon.Common.{
  ℕ, ◌≤◌, ◌<◌, ◌≡◌, refl, ap, ◌∙◌, Option, none, some, Bool, false, List, [], ◌∷◌, ◌++◌, arith, inl,
  inr, ◌==◌, if◌then◌else◌, length, Bool-cases, lt→ltb,
}
use mathlib.Core.Option
use edencommon.TraceBus.Sound.{length-mark}
use edencommon.TraceBus.{
  waiting, Bus, Subscription, delivering, publishes, publish, unsubscribe, mark, collect, deliver,
  deliver_list, observe,
}

no_room : (capacity : ℕ) → 0 < capacity → (0 == capacity) ≡ false
no_room capacity c = ground arith

module _ {Event : Type 0} where
  abbrev pub find_key : ℕ → List (Subscription Event) → Option (Subscription Event)
  find_key key [] = none
  find_key key (s ∷ ss) = if s.key == key then some s else find_key key ss

  some_value : (x s : Subscription Event) → some x ≡ some s → x ≡ s
  some_value x s e = cc

  observe_key :
      (throws : ℕ → List Event → Bool) (batch : List Event) (s : Subscription Event)
      → (observe throws batch s).key ≡ s.key
  unfolding observe
  observe_key throws batch s = ground arith

  -- What the subscriber at an address has seen.
  abbrev pub seen_by : ℕ → List (Subscription Event) → Option (List Event)
  seen_by key ss = Option.map (λ s. s.seen) (find_key key ss)

  find_key-mark :
      (key number : ℕ) (ss : List (Subscription Event)) (s : Subscription Event)
      → find_key key ss ≡ some s
      → find_key key (mark key number ss) ≡ some (record s { unsubscribe = number })
  unfolding mark
  find_key-mark key number [] s e = absurd (cc)
  find_key-mark key number (x ∷ xs) s e = elim (Bool-cases (x.key == key)) [
    | inl f ↦ rw (f, f, some_value x s (rw f at e)) refl
    | inr f ↦ rw (f, f) (find_key-mark key number xs s (rw f at e))
  ]

  find_key-deliver_list :
      (throws : ℕ → List Event → Bool) (readers : ℕ) (batch : List Event) (key : ℕ)
      (ss : List (Subscription Event)) (s : Subscription Event)
      → length ss ≤ readers
      → find_key key ss ≡ some s
      → find_key key (deliver_list throws readers batch ss) ≡ some (observe throws batch s)
  unfolding deliver_list observe
  find_key-deliver_list throws readers batch key [] s l e = absurd (cc)
  find_key-deliver_list throws readers batch key (x ∷ xs) s l e = elim (Bool-cases (x.key == key)) [
    | inl f ↦
        rw (lt→ltb (length xs) readers l, observe_key throws batch x, f, some_value x s (rw f at e))
          (refl)
    | inr f ↦
        rw (lt→ltb (length xs) readers l, observe_key throws batch x, f)
          (find_key-deliver_list throws readers batch key xs s (omega arith) (rw f at e))
  ]

-- A subscriber that has not thrown unsubscribes while the background thread waits on an empty buffer,
-- of positive capacity, of a bus that is not shut down. An event that is published next, before the
-- thread wakes, is accepted, and the subscriber is called with it.
pub sees_after_unsubscribe :
    {Event : Type 0} (throws : ℕ → List Event → Bool) (capacity : ℕ) (bus : Bus Event) (key : ℕ)
    (s : Subscription Event) (event : Event)
    → 0 < capacity
    → bus.phase ≡ waiting
    → bus.done ≡ false
    → bus.write_buffer ≡ []
    → find_key key bus.subscriptions ≡ some s
    → s.has_thrown_exception ≡ false
    → (bus' : Bus Event) × (publish capacity (unsubscribe bus key) event ≡ publishes bus')
      × (collect bus').phase ≡ delivering (length bus.subscriptions) (event ∷ []) false
      × (seen_by key
            (deliver throws
              (collect bus')
              (length bus.subscriptions)
              (event ∷ [])
              false).subscriptions
          ≡ some (s.seen ++ event ∷ []))
unfolding publish unsubscribe collect deliver observe
sees_after_unsubscribe throws capacity bus key s event c p d w e t =
    rw (d, w, no_room capacity c)
      (
        _,
        refl,
        ap (λ n. delivering n (event ∷ []) false)
            (length-mark key bus.sequence_number bus.subscriptions),
        ap (Option.map (λ s. s.seen)) (
              find_key-deliver_list throws (length bus.subscriptions) (event ∷ []) key _ _
                (omega (arith, length-mark key bus.sequence_number bus.subscriptions))
                (find_key-mark key bus.sequence_number bus.subscriptions s e))
            ∙ rw t refl,
      )
