-- ===== src/TraceBus.antt =====
-- eden/common/telemetry/TraceBus.h and TraceBus-inl.h. Each function below is what a thread does in
-- one hold of the lock, or, for `deliver`, what the background thread does between two holds: none
-- of the other threads' calls reads or writes what it reads and writes there.
pub mod Steps
pub mod Sound
pub mod Invariant
pub mod Delivery
pub mod Late
pub mod Tests
use edencommon.Common.{
  ℕ, zero, suc, ◌+◌, ◌%◌, ◌^◌, Bool, true, false, ◌&&◌, ◌||◌, not, List, [], ◌∷◌, ◌++◌, ◌==◌, ltb,
  leb, if◌then◌else◌, length,
}

abbrev pub word : ℕ
word = 2 ^ 64

-- TraceBus::Subscription. The address of one is its key. `seen` and `from` are no fields of the
-- source: the events of the batches that the subscriber was called with, in order, and how many
-- events had been taken from the write buffer before it subscribed.
pub record Subscription (Event : Type 0) : Type 0 where
  pub key : ℕ
  pub has_thrown_exception : Bool
  pub unsubscribe : ℕ
  pub from : ℕ
  pub seen : List Event

-- Where the background thread is: before it takes the lock, in `emptyCV_.wait`, behind the swap
-- with the subscriptions and the batch that it read and its `done`, or behind the loop.
pub data Phase (Event : Type 0) : Type 0 where
  sweeping waiting finished : Phase Event
  delivering : ℕ → List Event → Bool → Phase Event

-- TraceBus::State, hasSubscription_ and the locals of threadLoop. `taken` is no field of the source:
-- the events that have been swapped out of the write buffer.
pub record Bus (Event : Type 0) : Type 0 where
  pub done : Bool
  pub subscriptions : List (Subscription Event)
  pub write_buffer : List Event
  pub sequence_number : ℕ
  pub has_subscription : Bool
  pub phase : Phase Event
  pub last_observed : ℕ
  pub taken : List Event

-- The outcome of `publish`: XCHECK ends the process, a full buffer blocks the caller.
pub data Publish (Event : Type 0) : Type 0 where
  aborts blocks : Publish Event
  publishes : Bus Event → Publish Event

module _ {Event : Type 0} where
  -- All that was ever published, in order.
  abbrev pub published : Bus Event → List Event
  published bus = bus.taken ++ bus.write_buffer

  pub is_empty : List Event → Bool
  is_empty [] = true
  is_empty (_ ∷ _) = false

  -- publish, with a buffer of `capacity` events
  unfoldable pub publish : ℕ → Bus Event → Event → Publish Event
  publish capacity bus event =
      if bus.done
      then aborts
      else if length bus.write_buffer == capacity
      then blocks
      else publishes (record bus {
        write_buffer = bus.write_buffer ++ event ∷ [];
        sequence_number = (bus.sequence_number + 1) % word;
      })

  -- subscribe, at an address `key`
  unfoldable pub subscribe : Bus Event → ℕ → Bus Event
  subscribe bus key = record bus {
    subscriptions =
        record {
          key = key;
          has_thrown_exception = false;
          unsubscribe = 0;
          from = length bus.taken;
          seen = [];
        }
        ∷ bus.subscriptions;
    has_subscription = true;
  }

  pub mark : ℕ → ℕ → List (Subscription Event) → List (Subscription Event)
  mark key number [] = []
  mark key number (s ∷ ss) =
      (if s.key == key then record s { unsubscribe = number } else s) ∷ mark key number ss

  -- unsubscribe, of the subscription at an address
  unfoldable pub unsubscribe : Bus Event → ℕ → Bus Event
  unfolding mark
  unsubscribe bus key = record bus {
    subscriptions = mark key bus.sequence_number bus.subscriptions;
  }

  -- The head of the destructor.
  unfoldable pub shut_down : Bus Event → Bus Event
  shut_down bus = record bus { done = true }

  -- p->unsubscribe && p->unsubscribe <= lastObservedSequenceNumber
  pub is_over : ℕ → Subscription Event → Bool
  is_over last s = not (s.unsubscribe == 0) && leb s.unsubscribe last

  pub sweep_list : ℕ → List (Subscription Event) → List (Subscription Event)
  unfolding is_over
  sweep_list last [] = []
  sweep_list last (s ∷ ss) =
      let rest = sweep_list last ss in if is_over last s then rest else s ∷ rest

  has_any : List (Subscription Event) → Bool
  has_any [] = false
  has_any (_ ∷ _) = true

  -- The swap, once the condition of the wait holds.
  pub collect : Bus Event → Bus Event
  collect bus = record bus {
    write_buffer = [];
    taken = bus.taken ++ bus.write_buffer;
    phase = delivering (length bus.subscriptions) bus.write_buffer bus.done;
  }

  -- emptyCV_.wait: the lock is kept where the condition holds at once.
  pub wait : Bus Event → Bus Event
  unfolding is_empty collect
  wait bus =
      if bus.done || not (is_empty bus.write_buffer)
      then collect bus
      else record bus { phase = waiting }

  -- The hold of the lock from its start: the deletions, and the wait.
  unfoldable pub sweep : Bus Event → Bus Event
  unfolding sweep_list has_any wait
  sweep bus =
      let kept = sweep_list bus.last_observed bus.subscriptions in
      wait (record bus {
        subscriptions = kept;
        last_observed = bus.sequence_number;
        has_subscription = if has_any kept then bus.has_subscription else false;
      })

  -- One pass of the loop over subscriptions.
  observe : (ℕ → List Event → Bool) → List Event → Subscription Event → Subscription Event
  observe throws batch s =
      if s.has_thrown_exception
      then s
      else record s { seen = s.seen ++ batch; has_thrown_exception = throws s.key batch }

  -- The loop goes over the last `readers` subscriptions: those that were there at the swap.
  pub deliver_list :
      (ℕ → List Event → Bool)
      → ℕ
      → List Event
      → List (Subscription Event)
      → List (Subscription Event)
  unfolding observe
  deliver_list throws readers batch [] = []
  deliver_list throws readers batch (s ∷ ss) =
      (if ltb (length ss) readers then observe throws batch s else s)
      ∷ deliver_list throws readers batch ss

  -- From the end of the hold to the next one or to the end of the loop. `throws key batch` says
  -- whether the subscriber at `key` throws when it is called with the batch.
  unfoldable pub deliver : (ℕ → List Event → Bool) → Bus Event → ℕ → List Event → Bool → Bus Event
  unfolding deliver_list
  deliver throws bus readers batch last = record bus {
    subscriptions = deliver_list throws readers batch bus.subscriptions;
    phase = if last then finished else sweeping;
  }

-- A bus as it is constructed, its thread started.
unfoldable pub init : (Event : Type 0) → Bus Event
init Event = record {
  done = false;
  subscriptions = [];
  write_buffer = [];
  sequence_number = 1;
  has_subscription = false;
  phase = sweeping;
  last_observed = 0;
  taken = [];
}
