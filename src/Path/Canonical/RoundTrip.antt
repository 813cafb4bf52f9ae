-- ===== src/Path/Canonical/RoundTrip.antt =====
-- A canonical path is its own canonical form, whatever the base or the working directory.
use mathlib.Core.List.{reverse, reverse-reverse, reverse-cons, append-nil, append_assoc}
use edencommon.Common.{
  ◌≡◌, refl, sym, ap, ◌∙◌, Bool, true, false, inl, inr, Option, none, some, List, [], ◌∷◌, ◌++◌,
  arith, All, All-append, All-reverse, Bool-cases, ok,
}
use edencommon.Text.{Bytes, bytes_eq, starts_with_char}
use edencommon.Text.Split.{Lacks, pieces, join, pieces-join}
use edencommon.Path.{dir_separator}
use edencommon.Path.Canonical.{
  append_parts, canonical_path_data, absolute_text, make_absolute_path, canonical_path_impl,
  canonical_path, canonical_path_from,
}
use edencommon.Path.Canonical.Resolve.{data_of, enter, resolve, canonical_path_data-pieces}
use edencommon.Path.Canonical.Names.{
  IsName, InTree, OutOfTree, canonical_path_data-IsName, InTree-reverse,
}

-- Names are entered one after the other.
enter-name : (a : Bool) (names : List Bytes) (p : Bytes) → IsName p → enter a names p ≡ p ∷ names
unfolding enter
enter-name a names [] n = absurd (n.0 refl)
enter-name a names (c ∷ s) n = rw (n.1, n.2)

resolve-names :
    (a : Bool) (names ps : List Bytes) → All IsName ps → resolve a names ps ≡ reverse ps ++ names
unfolding resolve
resolve-names a names [] h = refl
resolve-names a names (p ∷ ps) h =
    rw (enter-name a names p h.0, reverse-cons p ps, append_assoc)
      (resolve-names a (p ∷ names) ps h.1)

All-Lacks : (ps : List Bytes) → All IsName ps → All (Lacks dir_separator) ps
All-Lacks [] h = tt
All-Lacks (p ∷ ps) h = (h.0.3, All-Lacks ps h.1)

-- The pieces of an absolute text behind the first separator.
resolve-join :
    (ps : List Bytes)
    → All IsName ps
    → resolve true [] (pieces dir_separator (join dir_separator ps)) ≡ reverse ps
resolve-join [] h = unfold resolve pieces enter join in refl
resolve-join (p ∷ ps) h =
    rw (pieces-join dir_separator p ps (All-Lacks (p ∷ ps) h), resolve-names true [] (p ∷ ps) h)
      (append-nil _)

pieces-root : (s : Bytes) → pieces dir_separator (dir_separator ∷ s) ≡ [] ∷ pieces dir_separator s
unfolding pieces
pieces-root s = refl

-- Writing names as an absolute path and reading the path gives the names back.
pub canonical_path_data-absolute_text :
    (names : List Bytes)
    → All IsName names
    → canonical_path_data (absolute_text names) ≡ data_of true names
canonical_path_data-absolute_text names h =
    canonical_path_data-pieces (absolute_text names)
    ∙ unfold absolute_text starts_with_char in
      rw (pieces-root (join dir_separator (reverse names))) (
        unfold resolve enter in
        ap (data_of true)
          (resolve-join (reverse names) (All-reverse IsName names h) ∙ reverse-reverse names))

append_parts-names :
    (base parts : List Bytes)
    → All IsName base
    → All IsName parts
    → All IsName (append_parts base parts)
unfolding append_parts
append_parts-names base [] h k = h
append_parts-names base (p ∷ parts) h k =
    rw k.0.2 (All-append IsName (reverse (p ∷ parts)) base (All-reverse IsName (p ∷ parts) k) h)

pub append_parts-IsName :
    (base parts : List Bytes)
    → All IsName base
    → OutOfTree parts
    → All IsName (append_parts base parts)
append_parts-IsName base [] h k = append_parts-names base [] h tt
append_parts-IsName base (p ∷ parts) h (inl n, k) = append_parts-names base (p ∷ parts) h (n, k)
append_parts-IsName [] (p ∷ parts) h (inr e, k) =
    rw e (unfold append_parts bytes_eq in append_parts-names [] parts tt k)
append_parts-IsName (b ∷ base) (p ∷ parts) h (inr e, k) =
    rw e (unfold append_parts bytes_eq in append_parts-names base parts h.1 k)

names-IsName :
    (path : Bytes)
    → starts_with_char path dir_separator ≡ true
    → All IsName (canonical_path_data path).components
names-IsName path e = rw e at (canonical_path_data-IsName path)

names-InTree :
    (path : Bytes)
    → starts_with_char path dir_separator ≡ false
    → InTree (canonical_path_data path).components
names-InTree path e = rw e at (canonical_path_data-IsName path)

-- The text that relative paths are taken from.
abbrev pub base_text : Option Bytes → Bytes → Bytes
base_text base cwd = elim base [ some b ↦ b | none ↦ cwd ]

module _ (is_valid_utf8 : Bytes → Bool) where
  -- Whatever branch it takes, canonicalPathImpl writes out a list of names.
  pub canonical_path_impl-names :
      (path : Bytes) (base : Option Bytes) (cwd : Bytes)
      → starts_with_char (base_text base cwd) dir_separator ≡ true
      → (names : List Bytes) × All IsName names
        × (canonical_path_impl is_valid_utf8 path base cwd ≡ make_absolute_path is_valid_utf8 names)
  unfolding canonical_path_impl
  canonical_path_impl-names path base cwd b =
      elim (Bool-cases (starts_with_char path dir_separator)) [
        | inl e ↦ (
          (canonical_path_data path).components,
          names-IsName path e,
          rw (canonical_path_data-pieces path, e) refl,
        )
        | inr e ↦ (
          append_parts (canonical_path_data (base_text base cwd)).components
              (reverse (canonical_path_data path).components),
          append_parts-IsName _ _ (names-IsName (base_text base cwd) b)
              (InTree-reverse _ (names-InTree path e)),
          rw (canonical_path_data-pieces path, e) refl,
        )
      ]

  make_absolute_path-text :
      (names : List Bytes) (q : Bytes)
      → make_absolute_path is_valid_utf8 names ≡ ok q
      → q ≡ absolute_text names
  unfolding make_absolute_path absolute_text join
  make_absolute_path-text [] q h = cc
  make_absolute_path-text (p ∷ names) q h = ground arith

  canonical_path_impl-absolute_text :
      (names : List Bytes) (base : Option Bytes) (cwd : Bytes)
      → All IsName names
      → canonical_path_impl is_valid_utf8 (absolute_text names) base cwd
        ≡ make_absolute_path is_valid_utf8 names
  unfolding canonical_path_impl
  canonical_path_impl-absolute_text names base cwd h =
      rw (canonical_path_data-absolute_text names h) refl

  pub canonical_path_impl-twice :
      (path : Bytes) (base : Option Bytes) (cwd : Bytes) (base' : Option Bytes) (cwd' q : Bytes)
      → starts_with_char (base_text base cwd) dir_separator ≡ true
      → canonical_path_impl is_valid_utf8 path base cwd ≡ ok q
      → canonical_path_impl is_valid_utf8 q base' cwd' ≡ ok q
  canonical_path_impl-twice path base cwd base' cwd' q b h =
      let (names, n, e) = canonical_path_impl-names path base cwd b in
      let made : make_absolute_path is_valid_utf8 names ≡ ok q = sym e ∙ h in
      rw (make_absolute_path-text names q made) (
        canonical_path_impl-absolute_text names base' cwd' n
        ∙ made
        ∙ ap ok (make_absolute_path-text names q made))

-- Where the working directory is absolute, a path that canonicalPath returns is its own
-- canonical form, from any other working directory and relative to any other base.
pub canonical_path-twice :
    (is_valid_utf8 : Bytes → Bool) (cwd path base q : Bytes)
    → starts_with_char cwd dir_separator ≡ true
    → canonical_path is_valid_utf8 cwd path ≡ ok q
    → (canonical_path is_valid_utf8 base q ≡ ok q)
      × (canonical_path_from is_valid_utf8 q base ≡ ok q)
unfolding canonical_path canonical_path_from
canonical_path-twice v cwd path base q c h = (
  canonical_path_impl-twice v path none cwd none base q c h,
  canonical_path_impl-twice v path none cwd (some base) [] q c h,
)
