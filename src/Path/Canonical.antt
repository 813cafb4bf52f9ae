-- ===== src/Path/Canonical.antt =====
-- PathFuncs.cpp: canonicalPathData, canonicalPathImpl, canonicalPath and joinAndNormalize.
pub mod Resolve
pub mod Names
pub mod RoundTrip
pub mod Parents
pub mod Normalize
pub mod Tests
use edencommon.Common.{
  Bool, true, false, Option, none, some, List, [], ◌∷◌, ◌++◌, if◌then◌else◌, Result, ok, err, ◌>>=◌,
  ◌>>◌,
}
use mathlib.Core.List.{reverse}
use edencommon.Text.{Bytes, bytes_eq, starts_with_char}
use edencommon.Text.Split.{join}
use edencommon.Path.{
  PathError, dir_separator, dot, is_dir_separator, check_component, check_absolute,
}

-- `components` is the vector from its back to its front.
pub record CanonicalData : Type 0 where
  pub components : List Bytes
  pub is_absolute : Bool

abbrev pub dot_name : Bytes
dot_name = dot ∷ []

abbrev pub dot_dot_name : Bytes
dot_dot_name = dot ∷ dot ∷ []

-- The branch of `processSlash` for "..".
step_up : CanonicalData → List Bytes → CanonicalData
step_up d [] = if d.is_absolute then d else record d { components = dot_dot_name ∷ [] }
step_up d (top ∷ rest) = if bytes_eq top dot_dot_name then d else record d { components = rest }

-- `processSlash`. `at_begin` is `component.begin() == path.begin()`.
process_slash : CanonicalData → Bool → Bytes → CanonicalData
unfolding step_up
process_slash d at_begin [] = if at_begin then record d { is_absolute = true } else d
process_slash d at_begin (c ∷ s) =
    if bytes_eq (c ∷ s) dot_name
    then d
    else if bytes_eq (c ∷ s) dot_dot_name
    then step_up d d.components
    else record d { components = (c ∷ s) ∷ d.components }

-- The loop over the bytes, with the bytes from `componentStart` on, and the call behind it, for a
-- last component that is not empty.
canonical_loop : CanonicalData → Bool → Bytes → Bytes → CanonicalData
unfolding process_slash
canonical_loop d at_begin [] [] = d
canonical_loop d at_begin (c ∷ component) [] = process_slash d at_begin (c ∷ component)
canonical_loop d at_begin component (c ∷ rest) =
    let slash = canonical_loop (process_slash d at_begin component) false [] rest in
    let next = canonical_loop d at_begin (component ++ c ∷ []) rest in
    if is_dir_separator c then slash else next

-- canonicalPathData
pub canonical_path_data : Bytes → CanonicalData
unfolding canonical_loop
canonical_path_data path =
    canonical_loop (record { components = []; is_absolute = false }) true [] path

-- `makeAbsolutePath`, with the vector from its back to its front.
unfoldable pub absolute_text : List Bytes → Bytes
unfolding join
absolute_text parts = dir_separator ∷ join dir_separator (reverse parts)

pop : List Bytes → List Bytes
pop [] = []
pop (_ ∷ rest) = rest

-- The loop over the components of a relative path, front to back, with the vector of the base's
-- components from its back to its front.
pub append_parts : List Bytes → List Bytes → List Bytes
unfolding pop
append_parts base [] = base
append_parts base (part ∷ parts) =
    if bytes_eq part dot_dot_name
    then append_parts (pop base) parts
    else reverse (part ∷ parts) ++ base

pub data Errno : Type 0 where
  eperm exdev : Errno

-- `joined`: the base and the path with a separator between them, where neither is empty.
pub joined_text : Bytes → Bytes → Bytes
joined_text [] path = path
joined_text (b ∷ base) [] = b ∷ base
joined_text (b ∷ base) (c ∷ path) = (b ∷ base) ++ dir_separator ∷ c ∷ path

module _ (is_valid_utf8 : Bytes → Bool) where
  -- `makeAbsolutePath`
  pub make_absolute_path : List Bytes → Result PathError Bytes
  unfolding absolute_text
  make_absolute_path [] = ok (dir_separator ∷ [])
  make_absolute_path (p ∷ parts) = do
    check_absolute is_valid_utf8 (absolute_text (p ∷ parts))
    ok (absolute_text (p ∷ parts))

  -- canonicalPathImpl, with the text of `getcwd()` where no base is given.
  pub canonical_path_impl : Bytes → Option Bytes → Bytes → Result PathError Bytes
  unfolding canonical_path_data append_parts make_absolute_path
  canonical_path_impl path base cwd =
      let canon = canonical_path_data path in
      let base_canon = canonical_path_data (elim base [ some b ↦ b | none ↦ cwd ]) in
      if canon.is_absolute
      then make_absolute_path canon.components
      else make_absolute_path (append_parts base_canon.components (reverse canon.components))

  -- canonicalPath(path)
  pub canonical_path : Bytes → Bytes → Result PathError Bytes
  canonical_path cwd path = canonical_path_impl path none cwd

  -- canonicalPath(path, base): the working directory is not asked for.
  pub canonical_path_from : Bytes → Bytes → Result PathError Bytes
  canonical_path_from path base = canonical_path_impl path (some base) []

  -- RelativePath{begin, end}: each component is checked, then they are joined.
  check_each : List Bytes → Result PathError (Unit {0})
  check_each [] = ok tt
  check_each (p ∷ ps) = check_component is_valid_utf8 p >> check_each ps

  pub relative_from : List Bytes → Result PathError (Result Errno Bytes)
  unfolding check_each join
  relative_from parts = do check_each parts; ok (ok (join dir_separator parts))

  within_base : List Bytes → Result PathError (Result Errno Bytes)
  unfolding relative_from
  within_base [] = relative_from []
  within_base (p ∷ parts) =
      if bytes_eq p dot_dot_name then ok (err exdev) else relative_from (p ∷ parts)

  -- joinAndNormalize
  pub join_and_normalize : Bytes → Bytes → Result PathError (Result Errno Bytes)
  unfolding joined_text canonical_path_data within_base
  join_and_normalize base path =
      if starts_with_char path dir_separator
      then ok (err eperm)
      else within_base (reverse (canonical_path_data (joined_text base path)).components)
