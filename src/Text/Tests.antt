-- ===== src/Text/Tests.antt =====
-- Concrete runs of the functions on text, and the theorems on `split` at concrete texts.
use edencommon.Common.{◌≡◌, refl, true, false, List, [], ◌∷◌, arith}
use edencommon.Text.{Bytes, split, starts_with, ends_with}
use edencommon.Text.Split.{join, split-join}

-- "a/bc//"
abbrev slashes : Bytes
slashes = b'a' ∷ b'/' ∷ b'b' ∷ b'c' ∷ b'/' ∷ b'/' ∷ []

abbrev parts : List Bytes
parts = (b'a' ∷ []) ∷ (b'b' ∷ b'c' ∷ []) ∷ [] ∷ [] ∷ []

splits : split slashes b'/' ≡ parts
unfolding split
splits = refl

starts : starts_with slashes (b'a' ∷ b'/' ∷ []) ≡ true
unfolding starts_with
starts = refl

ends : ends_with slashes (b'c' ∷ b'/' ∷ []) ≡ false
unfolding ends_with
ends = refl

split-join_example : split (join b'/' parts) b'/' ≡ parts
split-join_example = split-join (b'a' ∷ []) ((b'b' ∷ b'c' ∷ []) ∷ [] ∷ [] ∷ []) b'/' (omega arith)
