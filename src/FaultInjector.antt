-- ===== src/FaultInjector.antt =====
-- eden/common/utils/FaultInjector.h and FaultInjector.cpp. Each function below is what a thread does
-- in one hold of the lock, and a map of the source is an association list by key class.
pub mod ByClass
pub mod Checks
pub mod Inject
pub mod Wait
pub mod Expiry
pub mod Remove
pub mod Unblock
pub mod Ledger
pub mod Settled
pub mod Tests
use edencommon.Common.{
  ℕ, zero, suc, ◌+◌, ◌-◌, Bool, true, false, ◌&&◌, not, Option, none, some, List, [], ◌∷◌, ◌++◌,
  ◌==◌, ltb, if◌then◌else◌, length, map,
}
use edencommon.Text.{Bytes, bytes_eq}
use edencommon.FaultInjector.ByClass.{Dict, get, get_or, put, erase}

-- FaultBehavior, with the types of the errors and of the cancellation tokens. A duration is its
-- number of milliseconds.
pub data FaultBehavior (Error Token : Type 0) : Type 0 where
  unit block kill : FaultBehavior Error Token
  block_with_cancel : Token → ℕ → FaultBehavior Error Token
  delay : ℕ → Option Error → FaultBehavior Error Token
  throws : Error → FaultBehavior Error Token

pub record Fault (Error Token : Type 0) : Type 0 where
  pub key_value_regex : Bytes
  pub count_remaining : ℕ
  pub behavior : FaultBehavior Error Token

-- A promise is its number.
pub record BlockedCheck : Type 0 where
  pub key_value : Bytes
  pub promise : ℕ

-- State. `made` and `settled` are no fields of the source: the number of promises that were made, and
-- those that were fulfilled, in order, with the error or with a value.
pub record State (Error Token : Type 0) : Type 0 where
  pub faults : Dict (List (Fault Error Token))
  pub blocked_checks : Dict (List BlockedCheck)
  pub made : ℕ
  pub settled : List (ℕ × Option Error)

module _ {Error : Type 0} where
  -- The error with which every check that is unblocked ends, or none.
  abbrev pub settle : Option Error → List BlockedCheck → List (ℕ × Option Error)
  settle error checks = map (λ c. (c.promise, error)) checks

  -- The loops of unblockAllImpl, over the map that was swapped out.
  pub settle_all : Option Error → Dict (List BlockedCheck) → List (ℕ × Option Error)
  settle_all error [] = []
  settle_all error ((key_class, checks) ∷ rest) = settle error checks ++ settle_all error rest

-- Their number.
pub count_all : Dict (List BlockedCheck) → ℕ
count_all [] = 0
count_all ((key_class, checks) ∷ rest) = length checks + count_all rest

-- boost::regex_match is a parameter, on the text of an expression and a value.
-- The loop of extractBlockedChecks: those that match, and those that are shifted forwards.
pub extract :
    (Bytes → Bytes → Bool) → Bytes → List BlockedCheck → List BlockedCheck × List BlockedCheck
extract regex_match regex [] = ([], [])
extract regex_match regex (c ∷ cs) =
    let (matches, others) = extract regex_match regex cs in
    if regex_match regex c.key_value then (c ∷ matches, others) else (matches, c ∷ others)

pub none_left : List BlockedCheck → Bool
none_left [] = true
none_left (_ ∷ _) = false

module _ {Error Token : Type 0} where
  abbrev pub init : State Error Token
  init = record { faults = []; blocked_checks = []; made = 0; settled = [] }

  -- The end of a match: a fault with a count is used up by one.
  pub use_up : Fault Error Token → List (Fault Error Token) → List (Fault Error Token)
  use_up f fs =
      if ltb 0 f.count_remaining
      then if f.count_remaining - 1 == 0
        then fs
        else record f { count_remaining = f.count_remaining - 1 } ∷ fs
      else f ∷ fs

  -- addBlockedFault: the number of the promise that the caller waits for
  unfoldable pub add_blocked_fault : State Error Token → Bytes → Bytes → ℕ × State Error Token
  add_blocked_fault s key_class key_value = (
    s.made,
    record s {
      blocked_checks = put s.blocked_checks key_class (
          get_or s.blocked_checks key_class []
          ++ record { key_value = key_value; promise = s.made } ∷ []);
      made = s.made + 1;
    },
  )

  -- getBlockedFaults
  unfoldable pub get_blocked_faults : State Error Token → Bytes → List Bytes
  get_blocked_faults s key_class =
      map (λ (c : BlockedCheck). c.key_value) (get_or s.blocked_checks key_class [])

  -- unblockAllImpl, and with it unblockAll and unblockAllWithError
  unfoldable pub unblock_all_impl : State Error Token → Option Error → State Error Token × ℕ
  unfolding settle_all count_all
  unblock_all_impl s error = (
    record s { blocked_checks = []; settled = s.settled ++ settle_all error s.blocked_checks },
    count_all s.blocked_checks,
  )

  unfoldable pub unblock_all : State Error Token → State Error Token × ℕ
  unblock_all s = unblock_all_impl s none

  unfoldable pub unblock_all_with_error : State Error Token → Error → State Error Token × ℕ
  unblock_all_with_error s error = unblock_all_impl s (some error)

  -- The destructor, with its error.
  unfoldable pub destroy : Error → State Error Token → State Error Token
  destroy destroyed s = (unblock_all_impl s (some destroyed)).0

  -- The loop of removeFault: the other faults, if there is one of that text.
  remove_first : Bytes → List (Fault Error Token) → Option (List (Fault Error Token))
  remove_first regex [] = none
  remove_first regex (f ∷ fs) =
      let rest = remove_first regex fs in
      if bytes_eq f.key_value_regex regex
      then some fs
      else elim rest [ none ↦ none | some gs ↦ some (f ∷ gs) ]

  is_nil : List (Fault Error Token) → Bool
  is_nil [] = true
  is_nil (_ ∷ _) = false

  -- removeFault
  unfoldable pub remove_fault : State Error Token → Bytes → Bytes → State Error Token × Bool
  unfolding remove_first is_nil
  remove_fault s key_class regex = elim (get s.faults key_class) [
    | none ↦ (s, false)
    | some fs ↦ elim (remove_first regex fs) [
      | none ↦ (s, false)
      | some gs ↦ (
        record s {
          faults = if is_nil gs then erase s.faults key_class else put s.faults key_class gs;
        },
        true,
      )
    ]
  ]

  -- boost::regex_match, of the text of an expression and a value
  module _ (regex_match : Bytes → Bytes → Bool) where
    -- The loop of findFault
    pub scan :
        Bytes → List (Fault Error Token) → FaultBehavior Error Token × List (Fault Error Token)
    unfolding use_up
    scan key_value [] = (unit, [])
    scan key_value (f ∷ fs) =
        let (b, gs) = scan key_value fs in
        if regex_match f.key_value_regex key_value then (f.behavior, use_up f fs) else (b, f ∷ gs)

    -- findFault
    unfoldable pub find_fault :
        State Error Token → Bytes → Bytes → FaultBehavior Error Token × State Error Token
    unfolding scan
    find_fault s key_class key_value = elim (get s.faults key_class) [
      | none ↦ (unit, s)
      | some fs ↦
          let (b, gs) = scan key_value fs in (b, record s { faults = put s.faults key_class gs })
    ]

    -- extractBlockedChecks. `is_regex` says of which texts the constructor of boost::regex makes an
    -- expression; `none` is what it throws of the others, once the class is found.
    unfoldable pub extract_blocked_checks :
        (Bytes → Bool)
        → State Error Token
        → Bytes
        → Bytes
        → Option (List BlockedCheck × State Error Token)
    unfolding extract none_left
    extract_blocked_checks is_regex s key_class regex = elim (get s.blocked_checks key_class) [
      | none ↦ some ([], s)
      | some checks ↦
          let (matches, others) = extract regex_match regex checks in
          if is_regex regex
          then some (
            matches,
            record s {
              blocked_checks =
                  if none_left others
                  then erase s.blocked_checks key_class
                  else put s.blocked_checks key_class others;
            },
          )
          else none
    ]

    -- unblock and unblockWithError: the promises are fulfilled behind the lock. `none` is where they
    -- throw.
    unfoldable pub unblock_with :
        (Bytes → Bool)
        → Option Error
        → State Error Token
        → Bytes
        → Bytes
        → State Error Token × Option ℕ
    unfolding extract_blocked_checks
    unblock_with is_regex error s key_class regex =
        elim (extract_blocked_checks is_regex s key_class regex) [
          | none ↦ (s, none)
          | some (matches, s') ↦
              (record s' { settled = s'.settled ++ settle error matches }, some (length matches))
        ]

    -- The loop of hasBlockWithCancelFault
    has_cancel : Bytes → List (Fault Error Token) → Bool
    has_cancel key_value [] = false
    has_cancel key_value (f ∷ fs) =
        let rest = has_cancel key_value fs in
        if regex_match f.key_value_regex key_value
        then elim f.behavior [ block_with_cancel token timeout ↦ true | _ ↦ rest ]
        else rest

    -- hasBlockWithCancelFault
    unfoldable pub has_block_with_cancel_fault : State Error Token → Bytes → Bytes → Bool
    unfolding has_cancel
    has_block_with_cancel_fault s key_class key_value =
        has_cancel key_value (get_or s.faults key_class [])

    -- The loop of updateBlockWithCancelToken
    update_token : Bytes → Token → List (Fault Error Token) → List (Fault Error Token)
    update_token key_value token [] = []
    update_token key_value token (f ∷ fs) =
        let rest = update_token key_value token fs in
        if regex_match f.key_value_regex key_value
        then elim f.behavior [
          | block_with_cancel _ timeout ↦
              record f { behavior = block_with_cancel token timeout } ∷ fs
          | _ ↦ f ∷ rest
        ]
        else f ∷ rest

    -- updateBlockWithCancelToken
    unfoldable pub update_block_with_cancel_token :
        State Error Token → Bytes → Bytes → Token → State Error Token
    unfolding update_token
    update_block_with_cancel_token s key_class key_value token = elim (get s.faults key_class) [
      | none ↦ s
      | some fs ↦ record s { faults = put s.faults key_class (update_token key_value token fs) }
    ]
