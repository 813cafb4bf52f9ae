-- ===== src/Path/Canonical/Resolve.antt =====
-- canonicalPathData, which walks over bytes, against a fold over the pieces that `split` finds.
use mathlib.Core.List.{append-nil, append_assoc}
use edencommon.Common.{
  ℕ, ◌≡◌, refl, sym, ◌∙◌, ap, Bool, true, false, inl, inr, List, [], ◌∷◌, ◌++◌, arith, ◌==◌,
  if◌then◌else◌, Bool-cases,
}
use edencommon.Text.{Bytes, bytes_eq, starts_with_char, split}
use edencommon.Text.Split.{pieces, cons_first, split-eq-pieces, pieces-ne-nil}
use edencommon.Path.{dir_separator}
use edencommon.Path.Canonical.{
  CanonicalData, dot_name, dot_dot_name, process_slash, canonical_loop, canonical_path_data,
}

abbrev pub data_of : Bool → List Bytes → CanonicalData
data_of absolute names = record { components = names; is_absolute = absolute }

-- Above the root is the root; a relative path keeps one ".." in front.
unfoldable pub parent : Bool → List Bytes → List Bytes
parent absolute [] = if absolute then [] else dot_dot_name ∷ []
parent absolute (top ∷ rest) = if bytes_eq top dot_dot_name then top ∷ rest else rest

unfoldable pub enter : Bool → List Bytes → Bytes → List Bytes
unfolding parent
enter absolute names [] = names
enter absolute names (c ∷ s) =
    if bytes_eq (c ∷ s) dot_name
    then names
    else if bytes_eq (c ∷ s) dot_dot_name
    then parent absolute names
    else (c ∷ s) ∷ names

-- The names that a list of pieces leads to, the innermost first.
unfoldable pub resolve : Bool → List Bytes → List Bytes → List Bytes
resolve absolute names [] = names
resolve absolute names (p ∷ ps) = resolve absolute (enter absolute names p) ps

-- What has been read of the piece goes in front of it.
prefix_first : Bytes → List Bytes → List Bytes
prefix_first s [] = []
prefix_first s (p ∷ ps) = (s ++ p) ∷ ps

prefix_first-nil : (ps : List Bytes) → prefix_first [] ps ≡ ps
unfolding prefix_first
prefix_first-nil [] = refl
prefix_first-nil (p ∷ ps) = refl

prefix_first-cons_first :
    (s : Bytes) (c : ℕ) (rest : Bytes)
    → prefix_first s (cons_first c (pieces dir_separator rest))
      ≡ prefix_first (s ++ c ∷ []) (pieces dir_separator rest)
unfolding prefix_first
prefix_first-cons_first s c rest =
    let (p, ps, h) = pieces-ne-nil dir_separator rest in
    rw h (ap (λ q. q ∷ ps) (sym (append_assoc s (c ∷ []) p)))

-- A piece that a separator ends is entered before the rest is read.
resolve-slash :
    (absolute : Bool) (names : List Bytes) (s : Bytes) (ps : List Bytes)
    → resolve absolute (enter absolute names s) (prefix_first [] ps)
      ≡ resolve absolute names (prefix_first s ([] ∷ ps))
unfolding prefix_first resolve
resolve-slash absolute names s ps = rw (append-nil, prefix_first-nil ps)

process_slash-enter :
    (absolute : Bool) (names : List Bytes) (p : Bytes)
    → process_slash (data_of absolute names) false p ≡ data_of absolute (enter absolute names p)
unfolding process_slash enter
process_slash-enter absolute names [] = refl
process_slash-enter absolute [] (c ∷ s) = ground arith
process_slash-enter absolute (n ∷ names) (c ∷ s) = ground arith

canonical_loop-slash :
    (d : CanonicalData) (b : Bool) (s : Bytes) (c : ℕ) (rest : Bytes)
    → (c == dir_separator) ≡ true
    → canonical_loop d b s (c ∷ rest) ≡ canonical_loop (process_slash d b s) false [] rest
unfolding canonical_loop
canonical_loop-slash d b [] c rest h = rw h
canonical_loop-slash d b (x ∷ s) c rest h = rw h

canonical_loop-next :
    (d : CanonicalData) (b : Bool) (s : Bytes) (c : ℕ) (rest : Bytes)
    → (c == dir_separator) ≡ false
    → canonical_loop d b s (c ∷ rest) ≡ canonical_loop d b (s ++ c ∷ []) rest
unfolding canonical_loop
canonical_loop-next d b [] c rest h = rw h
canonical_loop-next d b (x ∷ s) c rest h = rw h

pieces-slash :
    (c : ℕ) (rest : Bytes)
    → (c == dir_separator) ≡ true
    → pieces dir_separator (c ∷ rest) ≡ [] ∷ pieces dir_separator rest
unfolding pieces
pieces-slash c rest h = rw h

pieces-next :
    (c : ℕ) (rest : Bytes)
    → (c == dir_separator) ≡ false
    → pieces dir_separator (c ∷ rest) ≡ cons_first c (pieces dir_separator rest)
unfolding pieces
pieces-next c rest h = rw h

canonical_loop-resolve :
    (absolute : Bool) (names : List Bytes) (s rest : Bytes)
    → canonical_loop (data_of absolute names) false s rest
      ≡ data_of absolute (resolve absolute names (prefix_first s (pieces dir_separator rest)))
canonical_loop-resolve absolute names [] [] =
    unfold canonical_loop prefix_first pieces resolve enter in refl
canonical_loop-resolve absolute names (c ∷ s) [] =
    unfold canonical_loop prefix_first pieces resolve in
    rw append-nil (process_slash-enter absolute names (c ∷ s))
canonical_loop-resolve absolute names s (c ∷ rest) = elim (Bool-cases (c == dir_separator)) [
  | inl e ↦
      rw
        (
          canonical_loop-slash (data_of absolute names) false s c rest e,
          pieces-slash c rest e,
          process_slash-enter absolute names s,
        )
        (canonical_loop-resolve absolute (enter absolute names s) [] rest
          ∙ ap (data_of absolute) (resolve-slash absolute names s (pieces dir_separator rest)))
  | inr e ↦
      rw
        (
          canonical_loop-next (data_of absolute names) false s c rest e,
          pieces-next c rest e,
          prefix_first-cons_first s c rest,
        )
        (canonical_loop-resolve absolute names (s ++ c ∷ []) rest)
]

-- Whether the component began the path matters only where it is empty.
canonical_loop-begun :
    (d : CanonicalData) (c : ℕ) (s rest : Bytes)
    → canonical_loop d true (c ∷ s) rest ≡ canonical_loop d false (c ∷ s) rest
unfolding canonical_loop process_slash
canonical_loop-begun d c s [] = refl
canonical_loop-begun d c s (x ∷ rest) = ground (arith, canonical_loop-begun d c (s ++ x ∷ []) rest)

pub canonical_path_data-pieces :
    (path : Bytes)
    → canonical_path_data path
      ≡ data_of
          (starts_with_char path dir_separator)
          (resolve (starts_with_char path dir_separator) [] (pieces dir_separator path))
unfolding enter prefix_first
canonical_path_data-pieces [] =
    unfold canonical_path_data starts_with_char pieces resolve enter in refl
canonical_path_data-pieces (c ∷ rest) = elim (Bool-cases (c == dir_separator)) [
  | inl e ↦
      unfold canonical_path_data starts_with_char process_slash in
      rw
        (
          canonical_loop-slash (data_of false []) true [] c rest e,
          e,
          pieces-slash c rest e,
          process_slash,
        )
        (canonical_loop-resolve true [] [] rest
          ∙ ap (data_of true) (resolve-slash true [] [] (pieces dir_separator rest)))
  | inr e ↦
      unfold canonical_path_data starts_with_char in
      rw
        (
          canonical_loop-next (data_of false []) true [] c rest e,
          e,
          canonical_loop-begun (data_of false []) c [] rest,
          pieces-next c rest e,
        )
        (canonical_loop-resolve false [] (c ∷ []) rest
          ∙ ap (λ ps. data_of false (resolve false [] ps))
              (sym (prefix_first-cons_first [] c rest) ∙ prefix_first-nil _))
]

-- canonicalPathData says that a path is absolute exactly when it starts with the separator, and its
-- components are those that the pieces between the separators lead to, taken in order: "" and "."
-- stay, ".." goes to the parent, any other piece is entered. At the start, ".." stays in an absolute
-- path and is entered in a relative one, where further ".." behind it stay.
pub canonical_path_data-eq-resolve :
    (path : Bytes)
    → canonical_path_data path
      ≡ data_of
          (starts_with_char path dir_separator)
          (resolve (starts_with_char path dir_separator) [] (split path dir_separator))
canonical_path_data-eq-resolve path =
    rw (split-eq-pieces path dir_separator) (canonical_path_data-pieces path)
