-- ===== src/TraceBus/Delivery.antt =====
-- What subscribers have seen: in order and without gaps, up to their unsubscription, and all of it
-- when the bus has shut down.
use mathlib.Core.List.{append-nil}
use edencommon.Common.{
  ℕ, ◌+◌, ◌<◌, ◌≤◌, ltb, if◌then◌else◌, ◌≡◌, sym, ap, ◌∙◌, Bool, true, false, List, [], ◌∷◌, ◌++◌,
  length, drop, All,
}
use edencommon.TraceBus.{Bus, Subscription, finished, published, is_over}
use edencommon.TraceBus.Steps.{Reach}
use edencommon.TraceBus.Sound.{Sound, Quiet, readers_of, is_last, Sound-Quiet}
use edencommon.TraceBus.Invariant.{Reach-Inv}

module _ {Event : Type 0} where
  -- What each subscriber has seen, with the batch that it is about to be called with if it is one of
  -- the last `readers`, and with what waits in the buffer, is what was published since it subscribed.
  abbrev pub InOrder : List Event → ℕ → List Event → List Event → List (Subscription Event) → Type 0
  InOrder events readers batch buffer [] = Unit
  InOrder events readers batch buffer (s ∷ ss) =
      (s.has_thrown_exception ≡ false
        → s.seen ++ ((if ltb (length ss) readers then batch else []) ++ buffer)
          ≡ drop s.from events)
      × InOrder events readers batch buffer ss

  -- It has seen all of that.
  abbrev pub SawAll : List Event → Subscription Event → Type 0
  SawAll events s = s.has_thrown_exception ≡ false → s.seen ≡ drop s.from events

  Quiet-SawAll :
      (taken : List Event) (ss : List (Subscription Event)) → Quiet taken ss → All (SawAll taken) ss
  Quiet-SawAll taken [] h = tt
  Quiet-SawAll taken (s ∷ ss) h =
      ((λ n. sym (append-nil s.seen) ∙ h.0.1 n), Quiet-SawAll taken ss h.1)

  -- The deletions that the next hold of the lock makes are of these.
  abbrev pub SawItsEvents : ℕ → List Event → Subscription Event → Type 0
  SawItsEvents last taken s =
      is_over last s ≡ true
      → (0 < s.unsubscribe)
        × (s.unsubscribe ≤ 1 + length taken)
        × (s.has_thrown_exception ≡ false → s.seen ≡ drop s.from taken)

  module _ {throws : ℕ → List Event → Bool} {capacity : ℕ} {bus : Bus Event}
      (r : Reach throws capacity bus) where
    quiet : readers_of bus.phase ≡ 0 → Quiet bus.taken bus.subscriptions
    quiet e = Sound-Quiet bus.taken _ bus.subscriptions (rw e at ((Reach-Inv r).sound))

-- When the background thread has left its loop, the bus is shut down, no event is waiting, and every
-- subscriber that has not thrown has seen all that was published since it subscribed, or was waiting
-- then.
pub Reach-finished :
    {Event : Type 0} {throws : ℕ → List Event → Bool} {capacity : ℕ} {bus : Bus Event}
    → Reach throws capacity bus
    → bus.phase ≡ finished
    → (bus.done ≡ true) × (bus.write_buffer ≡ []) × All (SawAll (published bus)) bus.subscriptions
Reach-finished {bus = bus} r e =
    let (d, w) = (Reach-Inv r).ended (ap is_last e) in
    (
      d,
      w,
      rw (w, append-nil) (Quiet-SawAll bus.taken bus.subscriptions (quiet r (ap readers_of e))),
    )
