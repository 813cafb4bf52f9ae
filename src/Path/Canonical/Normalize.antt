-- ===== src/Path/Canonical/Normalize.antt =====
-- joinAndNormalize: which error it reports, and that its results stay below the base.
use mathlib.Core.List.{reverse, reverse-cons}
use edencommon.Common.{
  ℕ, zero, suc, ◌≡◌, refl, ap, ◌∙◌, Bool, true, false, ◌⊎◌, inl, inr, Option, none, some, List, [],
  ◌∷◌, ◌++◌, arith, All, All-reverse, Bool-cases, if◌then◌else◌, ok, err, length,
}
use edencommon.Text.{Bytes, bytes_eq, starts_with_char, split}
use edencommon.Text.Split.{Lacks, pieces, join, pieces-All-Lacks, split-eq-pieces}
use edencommon.Path.{dir_separator}
use edencommon.Path.Canonical.{
  dot_name, dot_dot_name, canonical_path_data, joined_text, eperm, exdev, relative_from,
  within_base, join_and_normalize,
}
use edencommon.Path.Canonical.Resolve.{parent, enter, resolve, canonical_path_data-pieces}
use edencommon.Path.Canonical.Names.{IsName, resolve-InTree}
use edencommon.Path.Canonical.Parents.{is_above, is_above-resolve, is_above-names, InTree-names}

-- How deep below the start a piece leads, from a depth: `none` above the start.
unfoldable pub level : ℕ → Bytes → Option ℕ
level k [] = some k
level k (c ∷ s) =
    if bytes_eq (c ∷ s) dot_name
    then some k
    else if bytes_eq (c ∷ s) dot_dot_name
    then elim k [ zero ↦ none | suc j ↦ some j ]
    else some (suc k)

-- Following the pieces one after the other leads above the start.
unfoldable pub escapes : ℕ → List Bytes → Bool
escapes k [] = false
escapes k (p ∷ ps) = elim (level k p) [ none ↦ true | some j ↦ escapes j ps ]

enter-level :
    (names : List Bytes) (p : Bytes)
    → All IsName names
    → Lacks dir_separator p
    → ((level (length names) p ≡ none) × (is_above (enter false names p) ≡ true))
      ⊎ ((level (length names) p ≡ some (length (enter false names p)))
          × All IsName (enter false names p))
unfolding enter parent is_above bytes_eq level
enter-level names [] h l = inr (refl, h)
enter-level [] (c ∷ s) h l = elim (Bool-cases (bytes_eq (c ∷ s) dot_name)) [
  | inl e ↦ rw e (inr (refl, tt))
  | inr e ↦ elim (Bool-cases (bytes_eq (c ∷ s) dot_dot_name)) [
    | inl f ↦ rw (e, f) (inl (refl, refl))
    | inr f ↦ rw (e, f) (inr (refl, (((λ x. cc), e, f, l), tt)))
  ]
]
enter-level (n ∷ names) (c ∷ s) h l = elim (Bool-cases (bytes_eq (c ∷ s) dot_name)) [
  | inl e ↦ rw e (inr (refl, h))
  | inr e ↦ elim (Bool-cases (bytes_eq (c ∷ s) dot_dot_name)) [
    | inl f ↦ rw (e, f, h.0.2) (inr (refl, h.1))
    | inr f ↦ rw (e, f) (inr (refl, (((λ x. cc), e, f, l), h)))
  ]
]

is_above-escapes :
    (names ps : List Bytes)
    → All IsName names
    → All (Lacks dir_separator) ps
    → is_above (resolve false names ps) ≡ escapes (length names) ps
unfolding resolve escapes
is_above-escapes names [] h l = is_above-names names h
is_above-escapes names (p ∷ ps) h l = elim (enter-level names p h l.0) [
  | inl (e, up) ↦ rw (e, escapes) (is_above-resolve (enter false names p) ps up)
  | inr (e, n) ↦ rw (e, escapes) (is_above-escapes (enter false names p) ps n l.1)
]

-- The front of the vector is ".." where the names lead above.
reverse-front :
    (p : Bytes) (names : List Bytes)
    → (f : Bytes) × (rest : List Bytes) × (reverse (p ∷ names) ≡ f ∷ rest)
      × (is_above (p ∷ names) ≡ bytes_eq f dot_dot_name)
unfolding is_above
reverse-front p [] = (p, [], refl, refl)
reverse-front p (q ∷ names) =
    let (f, rest, e, k) = reverse-front q names in
    (f, rest ++ p ∷ [], reverse-cons p (q ∷ names) ∙ ap (λ ns. ns ++ p ∷ []) e, k)

within_base-reverse :
    (v : Bytes → Bool) (names : List Bytes)
    → within_base v (reverse names)
      ≡ (if is_above names then ok (err exdev) else relative_from v (reverse names))
within_base-reverse v [] = unfold within_base is_above in refl
within_base-reverse v (p ∷ names) =
    let (f, rest, e, k) = reverse-front p names in rw (e, k) (unfold within_base in refl)

joined_text-relative :
    (base path : Bytes)
    → starts_with_char base dir_separator ≡ false
    → starts_with_char path dir_separator ≡ false
    → starts_with_char (joined_text base path) dir_separator ≡ false
unfolding joined_text starts_with_char
joined_text-relative [] path b p = p
joined_text-relative (c ∷ base) [] b p = b
joined_text-relative (c ∷ base) (d ∷ path) b p = b

-- The canonical components of the joined text, front to back.
abbrev pub normal_names : Bytes → Bytes → List Bytes
normal_names base path = reverse (canonical_path_data (joined_text base path)).components

-- For a base that does not begin with the separator, joinAndNormalize answers EPERM exactly where
-- the path begins with the separator, else EXDEV exactly where following the pieces of the joined
-- text leads above the start, and else what it builds from the canonical components.
pub join_and_normalize-cases :
    (is_valid_utf8 : Bytes → Bool) (base path : Bytes)
    → starts_with_char base dir_separator ≡ false
    → join_and_normalize is_valid_utf8 base path ≡ (
        if starts_with_char path dir_separator
        then ok (err eperm)
        else if escapes 0 (split (joined_text base path) dir_separator)
        then ok (err exdev)
        else relative_from is_valid_utf8 (normal_names base path))
unfolding join_and_normalize
join_and_normalize-cases v base path b = elim (Bool-cases (starts_with_char path dir_separator)) [
  | inl p ↦ rw p refl
  | inr p ↦
      rw
        (
          p,
          canonical_path_data-pieces (joined_text base path),
          joined_text-relative base path b p,
          split-eq-pieces (joined_text base path) dir_separator,
          within_base-reverse v (resolve false [] (pieces dir_separator (joined_text base path))),
          is_above-escapes [] (pieces dir_separator (joined_text base path)) tt
              (pieces-All-Lacks dir_separator (joined_text base path)),
        )
        refl
]

relative_from-text :
    (v : Bytes → Bool) (parts : List Bytes) (q : Bytes)
    → relative_from v parts ≡ ok (ok q)
    → q ≡ join dir_separator parts
unfolding relative_from
relative_from-text v parts q h = ground arith

normalized_cases :
    (v : Bytes → Bool) (base path q : Bytes)
    → starts_with_char base dir_separator ≡ false
    → join_and_normalize v base path ≡ ok (ok q)
    → (starts_with_char path dir_separator ≡ false)
      × (escapes 0 (split (joined_text base path) dir_separator) ≡ false)
      × (relative_from v (normal_names base path) ≡ ok (ok q))
normalized_cases v base path q b h = ground (arith, join_and_normalize-cases v base path b)

normal_names-IsName :
    (base path : Bytes)
    → starts_with_char base dir_separator ≡ false
    → starts_with_char path dir_separator ≡ false
    → escapes 0 (split (joined_text base path) dir_separator) ≡ false
    → All IsName (normal_names base path)
normal_names-IsName base path b p e =
    rw (canonical_path_data-pieces text, joined_text-relative base path b p)
      (All-reverse IsName _ (
        InTree-names _ (resolve-InTree [] _ tt found) (
          is_above-escapes [] (pieces dir_separator text) tt found
          ∙ rw (split-eq-pieces text dir_separator) at e)))
  where
    text : Bytes
    text = joined_text base path

    found : All (Lacks dir_separator) (pieces dir_separator text)
    found = pieces-All-Lacks dir_separator text

-- A path that joinAndNormalize returns, for a base that does not begin with the separator, is a
-- join of names: no component of it is "", "." or "..".
pub join_and_normalize-IsName :
    (is_valid_utf8 : Bytes → Bool) (base path q : Bytes)
    → starts_with_char base dir_separator ≡ false
    → join_and_normalize is_valid_utf8 base path ≡ ok (ok q)
    → (names : List Bytes) × All IsName names × (q ≡ join dir_separator names)
join_and_normalize-IsName v base path q b h =
    let (p, e, r) = normalized_cases v base path q b h in
    (
      normal_names base path,
      normal_names-IsName base path b p e,
      relative_from-text v (normal_names base path) q r,
    )
