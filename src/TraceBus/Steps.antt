-- ===== src/TraceBus/Steps.antt =====
-- Any threads may publish, subscribe, unsubscribe and shut the bus down, between any two moves of
-- the background thread.
use edencommon.Common.{ℕ, ◌+◌, ◌<◌, ◌≡◌, ◌≢◌, All, Bool, true, ◌||◌, not, List}
use edencommon.TraceBus.{
  Bus, publishes, sweeping, waiting, delivering, word, init, publish, subscribe, unsubscribe,
  shut_down, sweep, collect, is_empty, deliver,
}

module _ {Event : Type 0} (throws : ℕ → List Event → Bool) (capacity : ℕ) where
  pub data Step (bus : Bus Event) : Bus Event → Type 0 where
    -- Fewer than 2 ^ 64 events are published in all. A call that blocked goes on once the buffer has
    -- room: this step. None is blocked when the destructor starts, which the source forbids.
    publishing :
        {bus' : Bus Event} (event : Event)
        → bus.sequence_number + 1 < word
        → publish capacity bus event ≡ publishes bus'
        → Step bus bus'
    -- `new` returns an address that no subscription has.
    subscribing :
        (key : ℕ) → All (λ s. s.key ≢ key) bus.subscriptions → Step bus (subscribe bus key)
    unsubscribing : (key : ℕ) → Step bus (unsubscribe bus key)
    shutting_down : Step bus (shut_down bus)
    locking : bus.phase ≡ sweeping → Step bus (sweep bus)
    waking :
        bus.phase ≡ waiting
        → (bus.done || not (is_empty bus.write_buffer)) ≡ true
        → Step bus (collect bus)
    observing :
        (readers : ℕ) (batch : List Event) (last : Bool)
        → bus.phase ≡ delivering readers batch last
        → Step bus (deliver throws bus readers batch last)

  pub data Reach : Bus Event → Type 0 where
    start : Reach (init Event)
    next : {bus bus' : Bus Event} → Reach bus → Step bus bus' → Reach bus'
