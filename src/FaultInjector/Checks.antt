-- ===== src/FaultInjector/Checks.antt =====
-- checkAsyncImpl, co_checkAsyncImpl, checkTryImpl and checkImpl of
-- eden/common/utils/FaultInjector.cpp, up to the first wait.
use edencommon.Common.{ℕ, Option, Bool, true, false}
use edencommon.Text.{Bytes}
use edencommon.FaultInjector.{
  State, FaultBehavior, unit, block, kill, block_with_cancel, delay, throws, find_fault,
  add_blocked_fault,
}

-- What a check does next: it is ready, waits for a promise, polls a token until a time, sleeps and
-- then ends with the error, fails, or has ended the process.
pub data Check (Error Token : Type 0) : Type 0 where
  ready aborted : Check Error Token
  waits : ℕ → Check Error Token
  polls : Token → ℕ → Check Error Token
  sleeps : ℕ → Option Error → Check Error Token
  fails : Error → Check Error Token

module _ {Error Token : Type 0} where
  -- The visit of the behavior. Only `block` takes the lock again.
  unfoldable pub visit :
      FaultBehavior Error Token
      → State Error Token
      → Bytes
      → Bytes
      → Check Error Token × State Error Token
  visit unit s key_class key_value = (ready, s)
  visit block s key_class key_value =
      let (promise, s') = add_blocked_fault s key_class key_value in (waits promise, s')
  visit (block_with_cancel token timeout) s key_class key_value = (polls token timeout, s)
  visit (delay duration error) s key_class key_value = (sleeps duration error, s)
  visit (throws error) s key_class key_value = (fails error, s)
  visit kill s key_class key_value = (aborted, s)

  -- checkAsyncImpl, with no other thread between its two holds of the lock. The coroutine and the
  -- blocking forms of it wait for what it returns.
  unfoldable pub check_async_impl :
      (Bytes → Bytes → Bool)
      → State Error Token
      → Bytes
      → Bytes
      → Check Error Token × State Error Token
  unfolding visit
  check_async_impl regex_match s key_class key_value =
      let (b, s') = find_fault regex_match s key_class key_value in visit b s' key_class key_value

  -- check: nothing is looked up where fault injection is disabled.
  unfoldable pub check :
      Bool
      → (Bytes → Bytes → Bool)
      → State Error Token
      → Bytes
      → Bytes
      → Check Error Token × State Error Token
  unfolding check_async_impl
  check true regex_match s key_class key_value = check_async_impl regex_match s key_class key_value
  check false regex_match s key_class key_value = (ready, s)
