-- ===== src/Path/Canonical/Names.antt =====
-- The components that canonicalPathData finds are names; only a relative path may begin with "..".
use mathlib.Core.List.{reverse, reverse-cons}
use edencommon.Common.{
  ◌≡◌, ◌≢◌, refl, true, false, ◌⊎◌, inl, inr, List, [], ◌∷◌, ◌++◌, arith, All, All-append,
  Bool-cases, if◌then◌else◌,
}
use edencommon.Text.{Bytes, bytes_eq, starts_with_char}
use edencommon.Text.Split.{Lacks, pieces-All-Lacks}
use edencommon.Path.{dir_separator}
use edencommon.Path.Canonical.{dot_name, dot_dot_name, canonical_path_data}
use edencommon.Path.Canonical.Resolve.{parent, enter, resolve, canonical_path_data-pieces}

-- A component that is not "", "." or "..", and holds no separator.
abbrev pub IsName : Bytes → Type 0
IsName p =
    (p ≢ [])
    × (bytes_eq p dot_name ≡ false)
    × (bytes_eq p dot_dot_name ≡ false)
    × Lacks dir_separator p

-- Names, back to front, but that the front one may be "..".
abbrev pub InTree : List Bytes → Type 0
InTree [] = Unit
InTree (p ∷ []) = IsName p ⊎ (p ≡ dot_dot_name)
InTree (p ∷ q ∷ ps) = IsName p × InTree (q ∷ ps)

-- The same, front to back.
abbrev pub OutOfTree : List Bytes → Type 0
OutOfTree [] = Unit
OutOfTree (p ∷ ps) = (IsName p ⊎ (p ≡ dot_dot_name)) × All IsName ps

enter-IsName :
    (names : List Bytes) (p : Bytes)
    → All IsName names
    → Lacks dir_separator p
    → All IsName (enter true names p)
unfolding enter
enter-IsName [] [] h l = tt
enter-IsName [] (c ∷ s) h l = ground arith
enter-IsName (n ∷ names) [] h l = h
enter-IsName (n ∷ names) (c ∷ s) h l = ground arith

pub resolve-IsName :
    (names ps : List Bytes)
    → All IsName names
    → All (Lacks dir_separator) ps
    → All IsName (resolve true names ps)
unfolding resolve
resolve-IsName names [] h l = h
resolve-IsName names (p ∷ ps) h l =
    resolve-IsName (enter true names p) ps (enter-IsName names p h l.0) l.1

parent-InTree : (names : List Bytes) → InTree names → InTree (parent false names)
unfolding parent
parent-InTree [] h = inr refl
parent-InTree (n ∷ []) h = ground arith
parent-InTree (n ∷ m ∷ names) h = ground arith

push-InTree : (p : Bytes) (names : List Bytes) → IsName p → InTree names → InTree (p ∷ names)
push-InTree p [] n h = inl n
push-InTree p (q ∷ names) n h = (n, h)

enter-InTree :
    (names : List Bytes) (p : Bytes)
    → InTree names
    → Lacks dir_separator p
    → InTree (enter false names p)
unfolding enter
enter-InTree names [] h l = h
enter-InTree names (c ∷ s) h l = elim (Bool-cases (bytes_eq (c ∷ s) dot_name)) [
  | inl e ↦ rw e h
  | inr e ↦ elim (Bool-cases (bytes_eq (c ∷ s) dot_dot_name)) [
    | inl f ↦ rw (e, f) (parent-InTree names h)
    | inr f ↦ rw (e, f) (push-InTree (c ∷ s) names ((λ x. cc), e, f, l) h)
  ]
]

pub resolve-InTree :
    (names ps : List Bytes)
    → InTree names
    → All (Lacks dir_separator) ps
    → InTree (resolve false names ps)
unfolding resolve
resolve-InTree names [] h l = h
resolve-InTree names (p ∷ ps) h l =
    resolve-InTree (enter false names p) ps (enter-InTree names p h l.0) l.1

OutOfTree-append :
    (ps : List Bytes) (p : Bytes) → OutOfTree ps → IsName p → OutOfTree (ps ++ p ∷ [])
OutOfTree-append [] p h n = (inl n, tt)
OutOfTree-append (q ∷ ps) p h n = (h.0, All-append IsName ps (p ∷ []) h.1 (n, tt))

pub InTree-reverse : (names : List Bytes) → InTree names → OutOfTree (reverse names)
InTree-reverse [] h = tt
InTree-reverse (p ∷ []) h = (h, tt)
InTree-reverse (p ∷ q ∷ names) h =
    rw (reverse-cons p (q ∷ names))
      (OutOfTree-append (reverse (q ∷ names)) p (InTree-reverse (q ∷ names) h.1) h.0)

-- An absolute path has names for components. A relative one too, but that the first may be "..".
pub canonical_path_data-IsName :
    (path : Bytes)
    → (if starts_with_char path dir_separator
        then All IsName (canonical_path_data path).components
        else InTree (canonical_path_data path).components)
canonical_path_data-IsName path = elim (Bool-cases (starts_with_char path dir_separator)) [
  | inl e ↦
      rw (canonical_path_data-pieces path, e)
        (resolve-IsName [] _ tt (pieces-All-Lacks dir_separator path))
  | inr e ↦
      rw (canonical_path_data-pieces path, e)
        (resolve-InTree [] _ tt (pieces-All-Lacks dir_separator path))
]
