-- ===== src/FaultInjector/Tests.antt =====
-- Concrete runs of the fault injector, with a regex_match that compares, and its theorems there.
use edencommon.Common.{
  ℕ, ◌+◌, ◌≡◌, ◌⊎◌, refl, Bool, not, true, false, none, some, [], ◌∷◌, ◌++◌, arith, if◌then◌else◌,
  ltb, length, replicate,
}
use edencommon.Text.{Bytes, bytes_eq}
use edencommon.FaultInjector.ByClass.{get, get_or, put, IsMap}
use edencommon.FaultInjector.{
  State, block, throws, init, settle, find_fault, unblock_with, remove_fault, destroy,
  add_blocked_fault, get_blocked_faults,
}
use edencommon.FaultInjector.Inject.{inject_fault}
use edencommon.FaultInjector.Checks.{check, waits}
use edencommon.FaultInjector.Wait.{poll_cancellation_token-ends, wait_until_blocked-ends}
use edencommon.FaultInjector.Wait.{Polled, Ended, poll_cancellation_token, wait_until_blocked}
use edencommon.FaultInjector.Expiry.{find_times, Rest, find_times-expires}
use edencommon.FaultInjector.Remove.{has, without, remove_fault-without}
use edencommon.FaultInjector.Unblock.{matching, Throws, unblock_with-matching}
use edencommon.FaultInjector.Ledger.{waiting, fulfilled}
use edencommon.FaultInjector.Settled.{
  Reach, start, next, blocking, unblocking, Reach-once, destroy-settles,
}

abbrev a : Bytes
a = 97 ∷ []

abbrev b : Bytes
b = 98 ∷ []

-- Texts of at most two bytes are expressions.
abbrev short : Bytes → Bool
short text = not (ltb 2 (length text))

-- A block of a, that is used up by two checks, and an error of b after it.
abbrev two : State ℕ ℕ
two = record {
  faults =
      (
        a,
        record { key_value_regex = b; count_remaining = 0; behavior = throws 5 }
            ∷ record { key_value_regex = a; count_remaining = 2; behavior = block }
            ∷ [],
      )
      ∷ [];
  blocked_checks = [];
  made = 0;
  settled = [];
}

-- Two checks that block, of the values a and b.
abbrev blocked : State ℕ ℕ
blocked = (add_blocked_fault (add_blocked_fault init a a).1 a b).1

injected_then_blocks :
    (check {Error = ℕ} {Token = ℕ} true bytes_eq
      (inject_fault true (λ r. true) init a a block 1).0
      a
      a).0
    ≡ waits 0
unfolding check inject_fault find_fault get_or get put bytes_eq add_blocked_fault
injected_then_blocks = refl

seen_blocked : get_blocked_faults blocked a ≡ a ∷ b ∷ []
unfolding get_blocked_faults add_blocked_fault get_or get put bytes_eq
seen_blocked = refl

poll_cancellation_token-ends_example :
    (r : Polled) × (n : ℕ) × (poll_cancellation_token (λ i. ltb 2 i) (λ i. i) 10 ≡ some r)
    × Ended (λ i. ltb 2 i) (λ i. i) 10 r n
poll_cancellation_token-ends_example =
    poll_cancellation_token-ends (λ i. ltb 2 i) (λ i. i) 10 (λ j. omega arith)

wait_until_blocked-ends_example :
    (n : ℕ) × (wait_until_blocked (λ i. ltb 2 i) (λ i. i) 10 ≡ some (ltb 2 n))
wait_until_blocked-ends_example =
    wait_until_blocked-ends (λ i. ltb 2 i) (λ i. i) 10 (λ j. omega arith)

find_times-expires_example :
    ((find_times bytes_eq 2 two a a).0 ≡ replicate 2 block)
    × (get (find_times bytes_eq 2 two a a).1.faults a
        ≡ some (record { key_value_regex = b; count_remaining = 0; behavior = throws 5 } ∷ []))
    × Rest bytes_eq two (find_times bytes_eq 2 two a a).1 a
find_times-expires_example =
    find_times-expires bytes_eq 1 two a a
      (record { key_value_regex = b; count_remaining = 0; behavior = throws 5 } ∷ [])
      (record { key_value_regex = a; count_remaining = 2; behavior = block }) []
      (unfold get in unfold bytes_eq in refl) (unfold bytes_eq in (refl, tt))
      (unfold bytes_eq in refl) refl

remove_fault-without_example :
    let fs = get_or two.faults a [] in
    let (s', found) = remove_fault two a b in
    (found ≡ has b fs)
    × (get_or s'.faults a [] ≡ without b fs)
    × ((other : Bytes) → bytes_eq a other ≡ false → get s'.faults other ≡ get two.faults other)
remove_fault-without_example = remove_fault-without two a b (unfold get in (refl, tt))

unblock_with-matching_example :
    let checks = get_or blocked.blocked_checks a [] in
    let (s', n) = unblock_with bytes_eq short (some 7) blocked a b in
    (Throws bytes_eq short blocked a b × (s' ≡ blocked) × (n ≡ none))
    ⊎ ((¬ (Throws bytes_eq short blocked a b))
        × (s'.settled ≡ blocked.settled ++ settle (some 7) (matching bytes_eq true b checks))
        × (n ≡ some (length (matching bytes_eq true b checks)))
        × (get_or s'.blocked_checks a [] ≡ matching bytes_eq false b checks)
        × ((other : Bytes)
            → bytes_eq a other ≡ false
            → get s'.blocked_checks other ≡ get blocked.blocked_checks other))
unfolding put bytes_eq add_blocked_fault get_or get
unblock_with-matching_example = unblock_with-matching bytes_eq short (some 7) blocked a b (refl, tt)

abbrev blocked_reach :
    Reach true short bytes_eq (unblock_with bytes_eq short (some 7) blocked a b).0
blocked_reach = next (next (next start (blocking a a)) (blocking a b)) (unblocking (some 7) a b)

abbrev unblocked : State ℕ ℕ
unblocked = (unblock_with bytes_eq short (some 7) blocked a b).0

Reach-once_example :
    IsMap unblocked.blocked_checks
    × ((p : ℕ)
        → waiting p unblocked.blocked_checks + fulfilled p unblocked.settled
          ≡ (if ltb p unblocked.made then 1 else 0))
Reach-once_example = Reach-once blocked_reach

destroy-settles_example :
    ((destroy 9 unblocked).blocked_checks ≡ [])
    × ((p : ℕ)
        → fulfilled p (destroy 9 unblocked).settled ≡ (if ltb p unblocked.made then 1 else 0))
destroy-settles_example = destroy-settles 9 blocked_reach
