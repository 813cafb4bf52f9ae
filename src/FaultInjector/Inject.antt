-- ===== src/FaultInjector/Inject.antt =====
-- injectFault of eden/common/utils/FaultInjector.cpp, and the calls that make a fault of it.
use edencommon.Common.{ℕ, none, some, List, [], ◌∷◌, ◌++◌, Bool, if◌then◌else◌}
use edencommon.Text.{Bytes}
use edencommon.FaultInjector.ByClass.{get_or, put}
use edencommon.FaultInjector.{
  State, Fault, FaultBehavior, unit, block, kill, block_with_cancel, delay, throws,
}

-- How a call ends: `std::runtime_error`, or what the constructor of boost::regex throws.
pub data Injected : Type 0 where
  injected disabled bad_regex : Injected

-- The vector of the class, with the fault emplaced at its back.
abbrev pub with_fault :
    {Error Token : Type 0}
    → State Error Token
    → Bytes
    → Bytes
    → FaultBehavior Error Token
    → ℕ
    → List (Fault Error Token)
with_fault s key_class regex behavior count =
    get_or s.faults key_class []
    ++ record { key_value_regex = regex; count_remaining = count; behavior = behavior } ∷ []

module _ {Error Token : Type 0} (enabled : Bool) (is_regex : Bytes → Bool) where
  -- injectFault. `faults[keyClass]` has made an entry of the class before a bad expression throws.
  unfoldable pub inject_fault :
      State Error Token
      → Bytes
      → Bytes
      → FaultBehavior Error Token
      → ℕ
      → State Error Token × Injected
  inject_fault s key_class regex behavior count =
      if enabled
      then (if is_regex regex
          then (
            record s {
              faults = put s.faults key_class (with_fault s key_class regex behavior count);
            },
            injected,
          )
          else (
            record s { faults = put s.faults key_class (get_or s.faults key_class []) },
            bad_regex,
          ))
      else (s, disabled)

  pub inject_error : State Error Token → Bytes → Bytes → Error → ℕ → State Error Token × Injected
  unfolding inject_fault
  inject_error s key_class regex error count = inject_fault s key_class regex (throws error) count

  pub inject_block : State Error Token → Bytes → Bytes → ℕ → State Error Token × Injected
  unfolding inject_fault
  inject_block s key_class regex count = inject_fault s key_class regex block count

  pub inject_block_with_cancel :
      State Error Token → Bytes → Bytes → Token → ℕ → ℕ → State Error Token × Injected
  unfolding inject_fault
  inject_block_with_cancel s key_class regex token timeout count =
      inject_fault s key_class regex (block_with_cancel token timeout) count

  pub inject_delay : State Error Token → Bytes → Bytes → ℕ → ℕ → State Error Token × Injected
  unfolding inject_fault
  inject_delay s key_class regex duration count =
      inject_fault s key_class regex (delay duration none) count

  pub inject_delayed_error :
      State Error Token → Bytes → Bytes → ℕ → Error → ℕ → State Error Token × Injected
  unfolding inject_fault
  inject_delayed_error s key_class regex duration error count =
      inject_fault s key_class regex (delay duration (some error)) count

  pub inject_kill : State Error Token → Bytes → Bytes → ℕ → State Error Token × Injected
  unfolding inject_fault
  inject_kill s key_class regex count = inject_fault s key_class regex kill count

  pub inject_noop : State Error Token → Bytes → Bytes → ℕ → State Error Token × Injected
  unfolding inject_fault
  inject_noop s key_class regex count = inject_fault s key_class regex unit count
