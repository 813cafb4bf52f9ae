-- ===== src/Text.antt =====
-- eden/common/utils/String.h and String.cpp. A `std::string_view` is the list of its bytes, and its
-- `find`, `substr` and `==` are those of the C++ standard library.
pub mod Split
pub mod Ends
pub mod Tests
use edencommon.Common.{
  ℕ, zero, suc, ◌+◌, ◌-◌, Bool, true, false, ◌&&◌, Option, none, some, List, [], ◌∷◌, ◌==◌, leb,
  if◌then◌else◌, length, take, drop,
}
use mathlib.Core.Option

abbrev pub Bytes : Type 0
Bytes = List ℕ

-- std::string_view::operator==
unfoldable pub bytes_eq : Bytes → Bytes → Bool
bytes_eq [] [] = true
bytes_eq [] (_ ∷ _) = false
bytes_eq (_ ∷ _) [] = false
bytes_eq (x ∷ xs) (y ∷ ys) = x == y && bytes_eq xs ys

-- std::string_view::find(char): the first position, `none` for npos.
unfoldable pub find : Bytes → ℕ → Option ℕ
find [] c = none
find (x ∷ xs) c = if x == c then some 0 else Option.map suc (find xs c)

-- The loop of `split`. `result` is built at its end by emplace_back.
unfoldable pub split_loop : ℕ → Bytes → ℕ → List Bytes
split_loop zero s delim = []
split_loop (suc fuel) s delim = elim (find s delim) [
  | none ↦ s ∷ []
  | some i ↦ take i s ∷ split_loop fuel (drop (i + 1) s) delim
]

-- Each round drops at least one byte, so one round more than there are bytes is enough.
unfoldable pub split : Bytes → ℕ → List Bytes
unfolding split_loop find
split s delim = split_loop (suc (length s)) s delim

-- starts_with(std::string_view, std::string_view)
pub starts_with : Bytes → Bytes → Bool
unfolding bytes_eq
starts_with haystack needle = bytes_eq needle (take (length needle) haystack)

-- starts_with(std::string_view, char)
unfoldable pub starts_with_char : Bytes → ℕ → Bool
starts_with_char [] needle = false
starts_with_char (c ∷ _) needle = c == needle

-- ends_with(std::string_view, std::string_view)
pub ends_with : Bytes → Bytes → Bool
unfolding bytes_eq
ends_with haystack needle =
    leb (length needle) (length haystack)
    && bytes_eq needle (drop (length haystack - length needle) haystack)

-- ends_with(std::string_view, char)
unfoldable pub ends_with_char : Bytes → ℕ → Bool
ends_with_char [] needle = false
ends_with_char (c ∷ []) needle = c == needle
ends_with_char (c ∷ d ∷ s) needle = ends_with_char (d ∷ s) needle

-- std::string_view::rfind(char)
unfoldable pub rfind : Bytes → ℕ → Option ℕ
rfind [] c = none
rfind (x ∷ xs) c = elim (rfind xs c) [
  | some i ↦ some (suc i)
  | none ↦ if x == c then some 0 else none
]
