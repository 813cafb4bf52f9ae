-- ===== src/Path.antt =====
-- eden/common/utils/PathFuncs.h and PathFuncs.cpp on POSIX, where `folly::kIsWindows` is false: the
-- checks that the path types make on construction, and the split at the last separator.
pub mod Order
pub mod Check
pub mod Base
pub mod Canonical
pub mod Compose
pub mod Tests
use edencommon.Common.{
  ℕ, zero, suc, ◌+◌, Bool, true, false, ◌&&◌, Option, none, some, List, [], ◌∷◌, ◌++◌, ◌==◌,
  if◌then◌else◌, ltb, take, drop, length, Result, ok, err, ◌>>=◌, ◌>>◌,
}
use edencommon.Text.{Bytes, find, rfind, starts_with_char, ends_with_char}

abbrev pub dir_separator : ℕ
dir_separator = b'/'

abbrev pub dot : ℕ
dot = b'.'

-- The exceptions that the checks throw.
pub data PathError : Type 0 where
  contains_separator nul_byte empty_component is_dot is_dot_dot not_utf8 : PathError
  absolute_string ends_with_slash not_absolute : PathError

-- detail::isDirSeparator(char)
abbrev pub is_dir_separator : ℕ → Bool
is_dir_separator c = c == dir_separator

-- dirname
pub dirname : Bytes → Bytes
unfolding rfind
dirname path = elim (rfind path dir_separator) [ some i ↦ take i path | none ↦ [] ]

-- basename
pub basename : Bytes → Bytes
unfolding rfind
basename path = elim (rfind path dir_separator) [ some i ↦ drop (i + 1) path | none ↦ path ]

-- The loop at the head of PathComponentSanityCheck.
check_bytes : Bytes → Result PathError (Unit {0})
check_bytes [] = ok tt
check_bytes (c ∷ s) =
    if is_dir_separator c
    then err contains_separator
    else if c == 0
    then err nul_byte
    else check_bytes s

-- switch (val.size())
check_size : Bytes → Result PathError (Unit {0})
check_size [] = err empty_component
check_size (c ∷ []) = if c == dot then err is_dot else ok tt
check_size (c ∷ d ∷ []) = if c == dot && d == dot then err is_dot_dot else ok tt
check_size (c ∷ d ∷ e ∷ s) = ok tt

-- ComposedPathSanityCheck::nextSeparator, counted from `start`. On POSIX the given separator and
-- isDirSeparator are the same test.
next_separator : Bytes → Option ℕ → Option ℕ
unfolding find
next_separator rest (some c) = find rest c
next_separator rest none = find rest dir_separator

module _ (is_valid_utf8 : Bytes → Bool) where
  -- PathComponentSanityCheck
  pub check_component : Bytes → Result PathError (Unit {0})
  unfolding check_bytes check_size
  check_component val = do
    check_bytes val
    check_size val
    if is_valid_utf8 val then ok tt else err not_utf8

  -- The loop of ComposedPathSanityCheck, on the part of the path from `start` on.
  check_loop : ℕ → Bytes → Option ℕ → Result PathError (Unit {0})
  unfolding next_separator
  check_loop zero rest separator = ok tt
  check_loop (suc fuel) rest separator = elim (next_separator rest separator) [
    | none ↦ check_component rest
    | some i ↦ check_component (take i rest) >> check_loop fuel (drop (i + 1) rest) separator
  ]

  -- ComposedPathSanityCheck. Each round passes a byte, so one round more than there are bytes is
  -- enough.
  pub check_composed : Bytes → Option ℕ → Result PathError (Unit {0})
  unfolding check_loop
  check_composed val separator = check_loop (suc (length val)) val separator

  -- RelativePathSanityCheck
  pub check_relative : Bytes → Result PathError (Unit {0})
  unfolding starts_with_char ends_with_char check_composed
  check_relative [] = ok tt
  check_relative (c ∷ s) =
      if is_dir_separator c
      then err absolute_string
      else if ends_with_char (c ∷ s) dir_separator
      then err ends_with_slash
      else check_composed (c ∷ s) none

  -- AbsolutePathSanityCheck
  pub check_absolute : Bytes → Result PathError (Unit {0})
  unfolding starts_with_char ends_with_char check_composed
  check_absolute val =
      if starts_with_char val dir_separator
      then if ltb 1 (length val) && ends_with_char val dir_separator
        then err ends_with_slash
        else if ltb 1 (length val)
        then check_composed (drop 1 val) (some dir_separator)
        else ok tt
      else err not_absolute

-- operator+ of two relative paths
pub compose : Bytes → Bytes → Bytes
compose [] b = b
compose (a ∷ s) [] = a ∷ s
compose (a ∷ s) (b ∷ t) = (a ∷ s) ++ dir_separator ∷ b ∷ t
