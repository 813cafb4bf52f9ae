-- ===== src/Path/Tests.antt =====
-- Concrete runs of the path functions, and their theorems at concrete paths.
use edencommon.Common.{◌≡◌, refl, Bool, true, none, some, [], ◌∷◌, ok, err}
use edencommon.Text.{Bytes, split}
use edencommon.Path.{
  contains_separator, ends_with_slash, dir_separator, dirname, basename, check_component,
  check_relative, check_composed, compose,
}
use edencommon.Path.Check.{check_all, check_composed-eq-all}
use edencommon.Path.Compose.{compose-check_relative}

-- Every text counts as UTF-8.
abbrev pub lax : Bytes → Bool
lax s = true

abbrev pub a : Bytes
a = b'a' ∷ []

abbrev pub b : Bytes
b = b'b' ∷ []

-- "a/b"
abbrev pub a_b : Bytes
a_b = b'a' ∷ b'/' ∷ b'b' ∷ []

-- "/a/b"
abbrev pub root_a_b : Bytes
root_a_b = b'/' ∷ a_b

checks_slash : check_component lax a_b ≡ err contains_separator
unfolding check_component
checks_slash = refl

checks_trailing : check_relative lax (b'a' ∷ b'/' ∷ []) ≡ err ends_with_slash
unfolding check_relative
checks_trailing = refl

splits_last : (dirname root_a_b ≡ b'/' ∷ a) × (basename root_a_b ≡ b)
unfolding dirname basename
splits_last = (refl, refl)

check_composed-eq-all_example :
    (check_composed lax a_b none ≡ check_all lax (split a_b dir_separator))
    × (check_composed lax a_b (some dir_separator) ≡ check_all lax (split a_b dir_separator))
check_composed-eq-all_example = check_composed-eq-all lax a_b

compose-check_relative_example : check_relative lax (compose a_b b) ≡ ok tt
unfolding check_relative check_component
compose-check_relative_example = compose-check_relative lax a_b b refl refl
