-- ===== src/FaultInjector/Wait.antt =====
-- The loops of eden/common/utils/FaultInjector.cpp that sleep and look again. What the clock, the
-- token and the other threads show in each round is given: the rounds are numbered from 0.
use edencommon.Common.{
  ℕ, zero, suc, ◌+◌, ◌≤◌, ◌<◌, ◌≡◌, refl, inl, inr, Bool, true, false, Option, none, some, arith,
  ltb, leb, if◌then◌else◌, Bool-cases,
}

-- folly::OperationCancelled, and the std::runtime_error of a timeout
pub data Polled : Type 0 where
  cancelled timed_out : Polled

-- The loop of pollCancellationToken from round i on, by fuel. `elapsed` is the time since the start.
unfoldable pub poll : ℕ → ℕ → (ℕ → Bool) → (ℕ → ℕ) → ℕ → Option Polled
poll zero i requested elapsed timeout = none
poll (suc fuel) i requested elapsed timeout =
    let rest = poll fuel (i + 1) requested elapsed timeout in
    if requested i then some cancelled else if leb timeout (elapsed i) then some timed_out else rest

-- pollCancellationToken. A round that goes on sleeps for a millisecond, so one round more than the
-- timeout has milliseconds is enough.
unfoldable pub poll_cancellation_token : (ℕ → Bool) → (ℕ → ℕ) → ℕ → Option Polled
unfolding poll
poll_cancellation_token requested elapsed timeout = poll (suc timeout) 0 requested elapsed timeout

-- The loop of waitUntilBlocked. `blocked i` says whether the i-th call of getBlockedFaults finds one.
unfoldable pub wait : ℕ → ℕ → (ℕ → Bool) → (ℕ → ℕ) → ℕ → Option Bool
wait zero i blocked elapsed timeout = none
wait (suc fuel) i blocked elapsed timeout =
    let rest = wait fuel (i + 1) blocked elapsed timeout in
    if ltb (elapsed i) timeout
    then if blocked i then some (blocked (i + 1)) else rest
    else some (blocked i)

-- waitUntilBlocked
unfoldable pub wait_until_blocked : (ℕ → Bool) → (ℕ → ℕ) → ℕ → Option Bool
unfolding wait
wait_until_blocked blocked elapsed timeout = wait (suc timeout) 0 blocked elapsed timeout

module _ (requested : ℕ → Bool) (elapsed : ℕ → ℕ) (timeout : ℕ) where
  -- Why the loop ended as it did, in round n.
  abbrev pub Ended : Polled → ℕ → Type 0
  Ended cancelled n =
      (requested n ≡ true) × ((j : ℕ) → j < n → (requested j ≡ false) × (elapsed j < timeout))
  Ended timed_out n =
      (timeout ≤ elapsed n)
      × (requested n ≡ false)
      × ((j : ℕ) → j < n → (requested j ≡ false) × (elapsed j < timeout))

  one_more :
      (i : ℕ)
      → ((j : ℕ) → j < i → (requested j ≡ false) × (elapsed j < timeout))
      → requested i ≡ false
      → leb timeout (elapsed i) ≡ false
      → ((j : ℕ) → j < i + 1 → (requested j ≡ false) × (elapsed j < timeout))
  one_more i h e f j l = elim (Bool-cases (ltb j i)) [
    | inl g ↦ h j (ground arith)
    | inr g ↦ let k : j ≡ i = ground arith in rw k (e, ground arith)
  ]

  poll_ends :
      (fuel i : ℕ)
      → ((j : ℕ) → j ≤ elapsed j)
      → timeout < i + fuel
      → ((j : ℕ) → j < i → (requested j ≡ false) × (elapsed j < timeout))
      → (r : Polled) × (n : ℕ) × (poll fuel i requested elapsed timeout ≡ some r) × Ended r n
  unfolding poll
  poll_ends zero i g l h = absurd (omega (arith, (h timeout (omega arith)).1, g timeout))
  poll_ends (suc fuel) i g l h = elim (Bool-cases (requested i)) [
    | inl e ↦ (cancelled, i, rw e refl, (e, h))
    | inr e ↦ elim (Bool-cases (leb timeout (elapsed i))) [
      | inl f ↦ (timed_out, i, rw (e, f) refl, (ground arith, e, h))
      | inr f ↦ rw (e, f) (poll_ends fuel (i + 1) g (omega arith) (one_more i h e f))
    ]
  ]

-- Where each round that goes on lasts a millisecond at least, pollCancellationToken ends: it is
-- cancelled in the first round in which the token asks for that, if the timeout has not passed in a
-- round before, and else times out in a round in which the timeout has passed.
pub poll_cancellation_token-ends :
    (requested : ℕ → Bool) (elapsed : ℕ → ℕ) (timeout : ℕ)
    → ((j : ℕ) → j ≤ elapsed j)
    → (r : Polled) × (n : ℕ) × (poll_cancellation_token requested elapsed timeout ≡ some r)
      × Ended requested elapsed timeout r n
unfolding poll_cancellation_token
poll_cancellation_token-ends requested elapsed timeout g =
    poll_ends requested elapsed timeout (suc timeout) 0 g (omega arith)
      (λ j l. absurd (omega arith))

module _ (blocked : ℕ → Bool) (elapsed : ℕ → ℕ) (timeout : ℕ) where
  wait_ends :
      (fuel i : ℕ)
      → ((j : ℕ) → j ≤ elapsed j)
      → timeout < i + fuel
      → (fuel ≡ 0 → i ≤ timeout)
      → (n : ℕ) × (wait fuel i blocked elapsed timeout ≡ some (blocked n))
  unfolding wait
  wait_ends zero i g l h = absurd (omega (arith, h refl))
  wait_ends (suc fuel) i g l h = elim (Bool-cases (ltb (elapsed i) timeout)) [
    | inr e ↦ (i, rw e refl)
    | inl e ↦ elim (Bool-cases (blocked i)) [
      | inl f ↦ (i + 1, rw (e, f) refl)
      | inr f ↦ rw (e, f) (wait_ends fuel (i + 1) g (omega arith) (λ z. ground (arith, g i)))
    ]
  ]

-- Where each round that goes on lasts a millisecond at least, waitUntilBlocked returns, and what it
-- returns is what it sees when it looks for the last time.
pub wait_until_blocked-ends :
    (blocked : ℕ → Bool) (elapsed : ℕ → ℕ) (timeout : ℕ)
    → ((j : ℕ) → j ≤ elapsed j)
    → (n : ℕ) × (wait_until_blocked blocked elapsed timeout ≡ some (blocked n))
unfolding wait_until_blocked
wait_until_blocked-ends blocked elapsed timeout g =
    wait_ends blocked elapsed timeout (suc timeout) 0 g (omega arith) (λ e. absurd (omega arith))
