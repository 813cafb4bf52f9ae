-- ===== src/TraceBus/Tests.antt =====
-- A concrete run of a bus of numbers, and the theorems at points of it.
use edencommon.Common.{ℕ, ◌≡◌, refl, Bool, true, false, List, [], ◌∷◌, All, arith, some}
use edencommon.TraceBus.{
  Bus, Subscription, delivering, published, publishes, publish, init, subscribe, unsubscribe,
  shut_down, sweep, collect, deliver,
}
use edencommon.TraceBus.Steps.{
  Reach, start, next, publishing, subscribing, unsubscribing, shutting_down, locking, waking,
  observing,
}
use edencommon.TraceBus.Delivery.{SawAll, Reach-finished}
use edencommon.TraceBus.Late.{seen_by, sees_after_unsubscribe}

abbrev quiet : ℕ → List ℕ → Bool
quiet key batch = false

-- A subscriber comes, and the background thread starts to wait.
abbrev asleep : Bus ℕ
asleep = sweep (subscribe (init ℕ) 7)

asleep_reached : Reach quiet 4 asleep
unfolding init subscribe
asleep_reached = next (next start (subscribing 7 tt)) (locking refl)

-- The subscriber leaves, and then an event is published.
abbrev noisy : Bus ℕ
noisy = record (unsubscribe asleep 7) { write_buffer = 5 ∷ []; sequence_number = 2 }

noisy_reached : Reach quiet 4 noisy
unfolding init subscribe sweep unsubscribe publish
noisy_reached = next (next asleep_reached (unsubscribing 7)) (publishing 5 (omega arith) refl)

-- The background thread calls the subscriber.
abbrev called : Bus ℕ
called = deliver quiet (collect noisy) 1 (5 ∷ []) false

-- The bus is shut down while another event waits.
abbrev over : Bus ℕ
over = deliver quiet (collect (shut_down noisy)) 1 (5 ∷ []) true

over_reached : Reach quiet 4 over
unfolding init subscribe sweep unsubscribe shut_down
over_reached =
    next (next (next noisy_reached shutting_down) (waking refl refl))
      (observing 1 (5 ∷ []) true refl)

Reach-finished_example :
    (over.done ≡ true) × (over.write_buffer ≡ []) × All (SawAll (published over)) over.subscriptions
unfolding deliver
Reach-finished_example = Reach-finished over_reached refl

abbrev subscriber : Subscription ℕ
subscriber = record { key = 7; has_thrown_exception = false; unsubscribe = 0; from = 0; seen = [] }

sees_after_unsubscribe_example :
    (bus' : Bus ℕ) × (publish 4 (unsubscribe asleep 7) 5 ≡ publishes bus')
    × (collect bus').phase ≡ delivering 1 (5 ∷ []) false
    × (seen_by 7 (deliver quiet (collect bus') 1 (5 ∷ []) false).subscriptions ≡ some (5 ∷ []))
unfolding init subscribe sweep
sees_after_unsubscribe_example =
    sees_after_unsubscribe quiet 4 asleep 7 subscriber 5 (omega arith) refl refl refl refl refl
