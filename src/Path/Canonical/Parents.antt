-- ===== src/Path/Canonical/Parents.antt =====
-- Relative paths against their base: what ".." components that lead out of the path do.
use mathlib.Core.List.{reverse, reverse-reverse}
use edencommon.Common.{
  ℕ, zero, suc, ◌≡◌, refl, ap, ◌∙◌, Bool, true, false, ◌⊎◌, inl, inr, List, [], ◌∷◌, ◌++◌, arith,
  All, All-reverse, Bool-cases, replicate,
}
use edencommon.Text.{Bytes, bytes_eq, starts_with_char}
use edencommon.Text.Split.{Lacks, pieces, join, pieces-join, pieces-append-cons, pieces-All-Lacks}
use edencommon.Path.{dir_separator}
use edencommon.Path.Canonical.{
  dot_name, dot_dot_name, append_parts, canonical_path_data, canonical_path_impl,
  canonical_path_from, make_absolute_path,
}
use edencommon.Path.Canonical.Resolve.{data_of, parent, enter, resolve, canonical_path_data-pieces}
use edencommon.Text.Ends.{bytes_eq_refl}
use edencommon.Path.Canonical.Names.{IsName, InTree, resolve-InTree}

-- The innermost directory that the names are taken from is above the tree.
unfoldable pub is_above : List Bytes → Bool
is_above [] = false
is_above (p ∷ []) = bytes_eq p dot_dot_name
is_above (p ∷ q ∷ ps) = is_above (q ∷ ps)

is_above-parent :
    (names : List Bytes) → is_above names ≡ true → is_above (parent false names) ≡ true
unfolding is_above parent
is_above-parent [] h = cc
is_above-parent (p ∷ []) h = ground arith
is_above-parent (p ∷ q ∷ ps) h = ground arith

is_above-cons :
    (p : Bytes) (names : List Bytes) → is_above names ≡ true → is_above (p ∷ names) ≡ true
unfolding is_above
is_above-cons p [] h = cc
is_above-cons p (q ∷ ps) h = h

is_above-enter :
    (names : List Bytes) (p : Bytes) → is_above names ≡ true → is_above (enter false names p) ≡ true
unfolding enter
is_above-enter names [] h = h
is_above-enter names (c ∷ s) h =
    ground (arith, is_above-parent names h, is_above-cons (c ∷ s) names h)

-- There is no way back into the tree.
pub is_above-resolve :
    (names ps : List Bytes) → is_above names ≡ true → is_above (resolve false names ps) ≡ true
unfolding resolve
is_above-resolve names [] h = h
is_above-resolve names (p ∷ ps) h =
    is_above-resolve (enter false names p) ps (is_above-enter names p h)

pub is_above-names : (names : List Bytes) → All IsName names → is_above names ≡ false
unfolding is_above
is_above-names [] h = refl
is_above-names (p ∷ []) h = h.0.2
is_above-names (p ∷ q ∷ ps) h = is_above-names (q ∷ ps) h.1

-- Entering a piece below a base. Only ".." at the top of the path reaches the base.
enter-base :
    (names base : List Bytes) (p : Bytes)
    → All IsName names
    → Lacks dir_separator p
    → (is_above (enter false names p) ≡ true)
      ⊎ (All IsName (enter false names p)
          × (enter true (names ++ base) p ≡ enter false names p ++ base))
unfolding enter parent is_above bytes_eq
enter-base names base [] h l = inr (h, refl)
enter-base [] base (c ∷ s) h l = elim (Bool-cases (bytes_eq (c ∷ s) dot_name)) [
  | inl e ↦ rw e (inr (tt, refl))
  | inr e ↦ elim (Bool-cases (bytes_eq (c ∷ s) dot_dot_name)) [
    | inl f ↦ rw (e, f) (inl refl)
    | inr f ↦ rw (e, f) (inr ((((λ x. cc), e, f, l), tt), refl))
  ]
]
enter-base (n ∷ names) base (c ∷ s) h l = elim (Bool-cases (bytes_eq (c ∷ s) dot_name)) [
  | inl e ↦ rw e (inr (h, refl))
  | inr e ↦ elim (Bool-cases (bytes_eq (c ∷ s) dot_dot_name)) [
    | inl f ↦ rw (e, f, h.0.2) (inr (h.1, refl))
    | inr f ↦ rw (e, f) (inr ((((λ x. cc), e, f, l), h), refl))
  ]
]

pub resolve-base :
    (names base ps : List Bytes)
    → All IsName names
    → All (Lacks dir_separator) ps
    → is_above (resolve false names ps) ≡ false
    → resolve true (names ++ base) ps ≡ resolve false names ps ++ base
unfolding resolve
resolve-base names base [] h l k = refl
resolve-base names base (p ∷ ps) h l k = elim (enter-base names base p h l.0) [
  | inl up ↦ cc (is_above-resolve (enter false names p) ps up)
  | inr (n, e) ↦ rw e (resolve-base (enter false names p) base ps n l.1 k)
]

resolve-append :
    (a : Bool) (names ps qs : List Bytes)
    → resolve a names (ps ++ qs) ≡ resolve a (resolve a names ps) qs
unfolding resolve
resolve-append a names [] qs = refl
resolve-append a names (p ∷ ps) qs = resolve-append a (enter a names p) ps qs

starts_with_char-append :
    (c : ℕ) (s t : Bytes) → starts_with_char s c ≡ true → starts_with_char (s ++ t) c ≡ true
unfolding starts_with_char
starts_with_char-append c [] t h = cc
starts_with_char-append c (x ∷ s) t h = h

-- Names are put behind the base.
append_parts-reverse :
    (base names : List Bytes)
    → All IsName (reverse names)
    → append_parts base (reverse names) ≡ names ++ base
append_parts-reverse base names h =
    go (reverse names) h ∙ ap (λ ns. ns ++ base) (reverse-reverse names)
  where
    go : (parts : List Bytes) → All IsName parts → append_parts base parts ≡ reverse parts ++ base
    go [] h = unfold append_parts in refl
    go (p ∷ parts) h = unfold append_parts in rw h.0.2

module _ (path base : Bytes) where
  names_of : List Bytes
  names_of = resolve false [] (pieces dir_separator path)

  resolve-prepended :
      is_above names_of ≡ false
      → resolve true [] (pieces dir_separator (base ++ dir_separator ∷ path))
        ≡ names_of ++ resolve true [] (pieces dir_separator base)
  unfolding names_of
  resolve-prepended k =
      rw (pieces-append-cons dir_separator base path, resolve-append)
        (resolve-base [] _ (pieces dir_separator path) tt (pieces-All-Lacks dir_separator path) k)

pub InTree-names : (names : List Bytes) → InTree names → is_above names ≡ false → All IsName names
unfolding is_above
InTree-names [] h k = tt
InTree-names (p ∷ []) (inl n) k = (n, tt)
InTree-names (p ∷ []) (inr e) k =
    cc (ap (λ q. bytes_eq q dot_dot_name) e, bytes_eq_refl dot_dot_name)
InTree-names (p ∷ q ∷ ps) h k = (h.0, InTree-names (q ∷ ps) h.1 k)

names_of-IsName :
    (path base : Bytes) → is_above (names_of path base) ≡ false → All IsName (names_of path base)
unfolding names_of
names_of-IsName path base k =
    InTree-names _ (resolve-InTree [] _ tt (pieces-All-Lacks dir_separator path)) k

-- A relative path that never climbs out of itself has the canonical form that the documentation
-- promises against an absolute base: that of the base, a separator and the path.
pub canonical_path_from-prepends :
    (is_valid_utf8 : Bytes → Bool) (path base : Bytes)
    → starts_with_char path dir_separator ≡ false
    → starts_with_char base dir_separator ≡ true
    → is_above (canonical_path_data path).components ≡ false
    → canonical_path_from is_valid_utf8 path base
      ≡ canonical_path_from is_valid_utf8 (base ++ dir_separator ∷ path) base
unfolding canonical_path_from canonical_path_impl names_of
canonical_path_from-prepends v path base p b k =
    rw
      (
        canonical_path_data-pieces path,
        canonical_path_data-pieces base,
        canonical_path_data-pieces (base ++ dir_separator ∷ path),
        p,
        b,
        starts_with_char-append dir_separator base (dir_separator ∷ path) b,
        resolve-prepended path base inside,
      )
      (ap (make_absolute_path v) (
        append_parts-reverse (resolve true [] (pieces dir_separator base)) (names_of path base)
          (All-reverse IsName (names_of path base) (names_of-IsName path base inside))))
  where
    inside : is_above (names_of path base) ≡ false
    inside = rw (canonical_path_data-pieces path, p) at k

abbrev dots : ℕ → List Bytes → List Bytes
dots n ps = replicate n dot_dot_name ++ ps

resolve-dots :
    (n : ℕ) (ps : List Bytes)
    → resolve false (dot_dot_name ∷ []) (dots n ps) ≡ resolve false (dot_dot_name ∷ []) ps
unfolding resolve enter parent bytes_eq
resolve-dots zero ps = refl
resolve-dots (suc n) ps = resolve-dots n ps

dots-Lacks :
    (n : ℕ) (ps : List Bytes) → All (Lacks dir_separator) ps → All (Lacks dir_separator) (dots n ps)
dots-Lacks zero ps h = h
dots-Lacks (suc n) ps h = (omega arith, dots-Lacks n ps h)

join-dots-relative :
    (ps : List Bytes)
    → starts_with_char (join dir_separator (dot_dot_name ∷ ps)) dir_separator ≡ false
unfolding join starts_with_char
join-dots-relative [] = refl
join-dots-relative (p ∷ ps) = refl

canonical_path_data-dots :
    (n : ℕ) (ps : List Bytes)
    → All (Lacks dir_separator) ps
    → canonical_path_data (join dir_separator (dot_dot_name ∷ dots n ps))
      ≡ data_of false (resolve false (dot_dot_name ∷ []) ps)
canonical_path_data-dots n ps h =
    rw
      (
        canonical_path_data-pieces (join dir_separator (dot_dot_name ∷ dots n ps)),
        join-dots-relative (dots n ps),
        pieces-join dir_separator dot_dot_name (dots n ps) (omega arith, dots-Lacks n ps h),
      )
      (ap (data_of false) (unfold resolve enter parent bytes_eq in resolve-dots n ps))

-- However many ".." components a relative path begins with, canonicalPath goes up from the base
-- once: n + 1 of them, before any pieces that lack the separator, have the canonical form of one of
-- them before these pieces.
pub canonical_path_from-dots :
    (is_valid_utf8 : Bytes → Bool) (n : ℕ) (ps : List Bytes) (base : Bytes)
    → All (Lacks dir_separator) ps
    → canonical_path_from is_valid_utf8
        (join dir_separator (dot_dot_name ∷ replicate n dot_dot_name ++ ps))
        base
      ≡ canonical_path_from is_valid_utf8 (join dir_separator (dot_dot_name ∷ ps)) base
unfolding canonical_path_from canonical_path_impl
canonical_path_from-dots v n ps base h =
    rw (canonical_path_data-dots n ps h, canonical_path_data-dots 0 ps h) refl
