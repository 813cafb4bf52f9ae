-- ===== src/Path/Canonical/Tests.antt =====
-- Concrete runs of the canonical forms, and their theorems at concrete paths.
use edencommon.Common.{◌≡◌, refl, true, List, [], ◌∷◌, ◌++◌, ok, err, arith, All}
use edencommon.Text.{Bytes, bytes_eq, split, starts_with_char}
use edencommon.Text.Split.{join}
use edencommon.Path.{dir_separator, check_component, check_absolute}
use edencommon.Path.Tests.{lax, a, b, a_b, root_a_b}
use edencommon.Path.Canonical.{
  canonical_path_data, canonical_path, canonical_path_from, join_and_normalize, dot_dot_name, exdev,
  joined_text, canonical_path_impl,
}
use edencommon.Path.Canonical.Resolve.{data_of, resolve, canonical_path_data-eq-resolve}
use edencommon.Path.Canonical.Names.{IsName}
use edencommon.Path.Canonical.RoundTrip.{canonical_path-twice}
use edencommon.Path.Canonical.Parents.{
  is_above, canonical_path_from-prepends, canonical_path_from-dots,
}
use edencommon.Path.Canonical.Normalize.{
  escapes, level, join_and_normalize-cases, join_and_normalize-IsName,
}

-- "../b"
abbrev up_b : Bytes
up_b = b'.' ∷ b'.' ∷ b'/' ∷ b'b' ∷ []

-- "/a//.././b/"
abbrev messy : Bytes
messy = b'/' ∷ b'a' ∷ b'/' ∷ b'/' ∷ b'.' ∷ b'.' ∷ b'/' ∷ b'.' ∷ b'/' ∷ b'b' ∷ b'/' ∷ []

messy_data : canonical_path_data messy ≡ data_of true (b ∷ [])
unfolding canonical_path_data bytes_eq
messy_data = refl

messy_path : canonical_path lax root_a_b messy ≡ ok (b'/' ∷ b)
unfolding canonical_path canonical_path_impl check_absolute check_component bytes_eq
messy_path = refl

-- "../.." goes up once.
two_dots : canonical_path_from lax (b'.' ∷ b'.' ∷ b'/' ∷ b'.' ∷ b'.' ∷ []) root_a_b ≡ ok (b'/' ∷ a)
unfolding canonical_path_from canonical_path_impl check_absolute check_component bytes_eq
two_dots = refl

normalizes : join_and_normalize lax a_b up_b ≡ ok (ok a_b)
unfolding join_and_normalize check_component starts_with_char bytes_eq
normalizes = refl

escaping : join_and_normalize lax [] up_b ≡ ok (err exdev)
unfolding join_and_normalize starts_with_char bytes_eq
escaping = refl

canonical_path_data-eq-resolve_example :
    canonical_path_data messy ≡ data_of true (resolve true [] (split messy dir_separator))
unfolding starts_with_char bytes_eq
canonical_path_data-eq-resolve_example = canonical_path_data-eq-resolve messy

canonical_path-twice_example :
    (canonical_path lax (b'/' ∷ []) (b'/' ∷ b) ≡ ok (b'/' ∷ b))
    × (canonical_path_from lax (b'/' ∷ b) (b'/' ∷ []) ≡ ok (b'/' ∷ b))
unfolding starts_with_char bytes_eq
canonical_path-twice_example =
    canonical_path-twice lax root_a_b messy (b'/' ∷ []) (b'/' ∷ b) refl messy_path

canonical_path_from-prepends_example :
    canonical_path_from lax a_b root_a_b
    ≡ canonical_path_from lax (root_a_b ++ dir_separator ∷ a_b) root_a_b
unfolding starts_with_char canonical_path_data is_above bytes_eq
canonical_path_from-prepends_example = canonical_path_from-prepends lax a_b root_a_b refl refl refl

canonical_path_from-dots_example :
    canonical_path_from lax (join dir_separator (dot_dot_name ∷ dot_dot_name ∷ b ∷ [])) root_a_b
    ≡ canonical_path_from lax up_b root_a_b
unfolding join
canonical_path_from-dots_example = canonical_path_from-dots lax 1 (b ∷ []) root_a_b (omega arith)

join_and_normalize-cases_example : join_and_normalize lax [] up_b ≡ ok (err exdev)
unfolding starts_with_char joined_text escapes level split bytes_eq
join_and_normalize-cases_example = join_and_normalize-cases lax [] up_b refl

join_and_normalize-IsName_example :
    (names : List Bytes) × All IsName names × (a_b ≡ join dir_separator names)
unfolding starts_with_char bytes_eq
join_and_normalize-IsName_example = join_and_normalize-IsName lax a_b up_b a_b refl normalizes
