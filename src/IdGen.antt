-- ===== src/IdGen.antt =====
-- eden/common/utils/IDGen.cpp. The state is the global counter and each thread's local counter. A
-- call touches shared state once, by an atomic fetch_add, so a schedule is a list of threads.
pub mod Unique
pub mod Tests
use edencommon.Common.{ℕ, suc, ◌+◌, ◌%◌, ◌^◌, List, [], ◌∷◌, ◌==◌, if◌then◌else◌}

-- kRangeSize
abbrev pub range_size : ℕ
range_size = 2048

abbrev pub word : ℕ
word = 2 ^ 64

pub record Counters : Type 0 where
  pub global : ℕ
  -- localCounter, by thread
  pub local : ℕ → ℕ

pub init : Counters
init = record { global = 0; local = λ t. 0 }

abbrev pub set_local : (ℕ → ℕ) → ℕ → ℕ → ℕ → ℕ
set_local local t v u = if u == t then v else local u

-- The end of the call, from the thread's `current`.
abbrev pub hand_out : Counters → ℕ → ℕ → ℕ × Counters
hand_out s t current =
    ((current + 1) % word, record s { local = set_local s.local t ((current + 1) % word) })

-- generateUniqueID, called on thread `t`
pub generate_unique_id : Counters → ℕ → ℕ × Counters
generate_unique_id s t =
    if s.local t % range_size == 0
    then hand_out (record s { global = (s.global + range_size) % word }) t s.global
    else hand_out s t (s.local t)

-- The ids that a schedule's calls return, the last first, in front of those returned before.
pub collect : Counters → List ℕ → List ℕ → List ℕ
collect s issued [] = issued
collect s issued (t ∷ ts) = let (id, s') = generate_unique_id s t in collect s' (id ∷ issued) ts
