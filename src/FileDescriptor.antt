-- ===== src/FileDescriptor.antt =====
-- eden/common/utils/FileDescriptor.cpp: the loops that read or write all of a buffer, or of several. The
-- answers of the system calls are given, one for each call.
pub mod Full
pub mod Vectors
pub mod Tests
use edencommon.Common.{
  ℕ, zero, suc, ◌+◌, ◌-◌, ◌≤◌, Bool, true, false, ◌&&◌, Option, none, some, List, [], ◌∷◌, ◌++◌,
  length, take, drop, leb, ◌==◌, if◌then◌else◌, Result, ok, err,
}
use edencommon.Text.{Bytes}
use edencommon.UnixSocket.Send.{concat}

-- What `read`, `write`, `readv` or `writev` does: EINTR, another error, or so many bytes.
pub data Answer (E : Type 0) : Type 0 where
  interrupted : Answer E
  failed : E → Answer E
  moved : ℕ → Answer E

module _ {E : Type 0} where
  -- wrapFull, from a round on: the bytes that are left and those that were moved, which are also how far
  -- the pointer `b` is in the buffer: it starts at its front, and each call that moves bytes adds their
  -- number to both. `none` is where the answers end. EINTR goes on with the condition of the loop.
  unfoldable pub wrap_full : Bool → Bool → List (Answer E) → ℕ → ℕ → Option (Result E ℕ)
  wrap_full is_read only_once [] count total = none
  wrap_full is_read only_once (interrupted ∷ answers) count total =
      let rest = wrap_full is_read only_once answers count total in
      if count == 0 then some (ok total) else rest
  wrap_full is_read only_once (failed e ∷ answers) count total = some (err e)
  wrap_full is_read only_once (moved r ∷ answers) count total =
      let rest = wrap_full is_read only_once answers (count - r) (total + r) in
      if is_read && (r == 0)
      then some (ok total)
      else if only_once
      then some (ok (total + r))
      else if (count - r) == 0
      then some (ok (total + r))
      else rest

  pub read_full : List (Answer E) → ℕ → Option (Result E ℕ)
  unfolding wrap_full
  read_full answers size = wrap_full true false answers size 0

  pub read_no_int : List (Answer E) → ℕ → Option (Result E ℕ)
  unfolding wrap_full
  read_no_int answers size = wrap_full true true answers size 0

  unfoldable pub write_full : List (Answer E) → ℕ → Option (Result E ℕ)
  unfolding wrap_full
  write_full answers size = wrap_full false false answers size 0

  pub write_no_int : List (Answer E) → ℕ → Option (Result E ℕ)
  unfolding wrap_full
  write_no_int answers size = wrap_full false true answers size 0

-- The loop of wrapvFull that passes over the bytes that were moved.
unfoldable pub pass : ℕ → List Bytes → List Bytes
pass r [] = []
pass r (v ∷ vs) =
    let rest = pass (r - length v) vs in
    if r == 0 then v ∷ vs else if leb (length v) r then rest else drop r v ∷ vs

unfoldable pub is_nil : List Bytes → Bool
is_nil [] = true
is_nil (_ ∷ _) = false

-- wrapvFull for writes, from a round on: what is left of the buffers, and the bytes that were written in
-- the place of their number. `iov_max` is folly::kIovMax.
unfoldable pub writev_full :
    {E : Type 0} → ℕ → List (Answer E) → List Bytes → Bytes → Option (Result E Bytes)
unfolding pass is_nil
writev_full iov_max [] iov written = none
writev_full iov_max (interrupted ∷ answers) iov written =
    let rest = writev_full iov_max answers iov written in
    if is_nil iov then some (ok written) else rest
writev_full iov_max (failed e ∷ answers) iov written = some (err e)
writev_full iov_max (moved r ∷ answers) iov written =
    let now = written ++ take r (concat (take iov_max iov)) in
    let rest = writev_full iov_max answers (pass r iov) now in
    if r == 0 then some (ok written) else if is_nil (pass r iov) then some (ok now) else rest
