-- ===== src/Path/Check.antt =====
-- The checks of a whole path against its components.
use edencommon.Common.{
  ℕ, zero, suc, ◌+◌, ◌<◌, ◌≡◌, refl, ap, ◌∙◌, Bool, false, inl, inr, Option, none, some, List, [],
  ◌∷◌, ◌++◌, arith, Option-cases, Result, ok, err, length, take, drop, ◌>>◌,
}
use edencommon.Text.{Bytes, find, split, starts_with_char, ends_with_char}
use edencommon.Text.Split.{pieces, find-none, find-some, split-eq-pieces}
use edencommon.Path.{
  PathError, dir_separator, next_separator, check_component, check_loop, check_composed,
  check_relative,
}

module _ (v : Bytes → Bool) where
  -- Every piece is a component; the first that is not gives the error.
  unfoldable pub check_all : List Bytes → Result PathError (Unit {0})
  check_all [] = ok tt
  check_all (p ∷ ps) = check_component v p >> check_all ps

  last_step : (m : Result PathError (Unit {0})) → m ≡ (m >> ok tt)
  last_step (ok u) = refl
  last_step (err e) = refl

  check_loop-all :
      (fuel : ℕ) (s : Bytes) (separator : Option ℕ)
      → length s < fuel
      → next_separator s separator ≡ find s dir_separator
      → ((t : Bytes) → next_separator t separator ≡ find t dir_separator)
      → check_loop v fuel s separator ≡ check_all (pieces dir_separator s)
  unfolding check_loop check_all
  check_loop-all zero s separator h e all = elim h [ ]
  check_loop-all (suc fuel) s separator h e all = elim (Option-cases (find s dir_separator)) [
    | inl n ↦
        rw (find-none dir_separator s n) (rw (e ∙ n, check_loop) (last_step (check_component v s)))
    | inr (i, n) ↦
        let (step, shorter) = find-some dir_separator i s n in
        rw step (
          unfold check_loop check_all in
          rw (e ∙ n, check_loop)
            (ap (λ r. check_component v (take i s) >> r)
              (check_loop-all fuel (drop (i + 1) s) separator (omega arith) (all (drop (i + 1) s))
                all)))
  ]

  next_separator-any : (s : Bytes) → next_separator s none ≡ find s dir_separator
  unfolding next_separator
  next_separator-any s = refl

  next_separator-given : (s : Bytes) → next_separator s (some dir_separator) ≡ find s dir_separator
  unfolding next_separator
  next_separator-given s = refl

-- The scan over a path, with the separator given or not, checks the pieces that `split` finds, in
-- order, and throws the first error among them.
pub check_composed-eq-all :
    (is_valid_utf8 : Bytes → Bool) (s : Bytes)
    → (check_composed is_valid_utf8 s none ≡ check_all is_valid_utf8 (split s dir_separator))
      × (check_composed is_valid_utf8 s (some dir_separator)
          ≡ check_all is_valid_utf8 (split s dir_separator))
unfolding check_composed
check_composed-eq-all v s = rw (split-eq-pieces s dir_separator) (
  check_loop-all v (suc (length s)) s none (omega arith) (next_separator-any v s)
      (next_separator-any v),
  check_loop-all v (suc (length s)) s (some dir_separator) (omega arith) (next_separator-given v s)
      (next_separator-given v),
)

-- What the checks of two paths give for one after the other, with a separator between them.
pub check_all-append :
    (v : Bytes → Bool) (ps qs : List Bytes)
    → check_all v (ps ++ qs) ≡ (check_all v ps >> check_all v qs)
unfolding check_all
check_all-append v [] qs = refl
check_all-append v (p ∷ ps) qs =
    ap (λ r. check_component v p >> r) (check_all-append v ps qs)
    ∙ regroup (check_component v p) (check_all v ps) (check_all v qs)
  where
    regroup : (a b c : Result PathError (Unit {0})) → (a >> (b >> c)) ≡ ((a >> b) >> c)
    regroup (ok u) b c = refl
    regroup (err e) b c = refl

-- RelativePathSanityCheck passes exactly the paths that the test of the first and of the last byte
-- lets through and whose components all pass.
pub check_relative-ok :
    (v : Bytes → Bool) (c : ℕ) (s : Bytes)
    → check_relative v (c ∷ s) ≡ ok tt
    → (starts_with_char (c ∷ s) dir_separator ≡ false)
      × (ends_with_char (c ∷ s) dir_separator ≡ false)
      × (check_all v (pieces dir_separator (c ∷ s)) ≡ ok tt)
unfolding check_relative starts_with_char
check_relative-ok v c s h =
    let composed : check_composed v (c ∷ s) none ≡ check_all v (pieces dir_separator (c ∷ s)) =
      (check_composed-eq-all v (c ∷ s)).0
      ∙ ap (check_all v) (split-eq-pieces (c ∷ s) dir_separator) in
    ground arith

pub check_relative-intro :
    (v : Bytes → Bool) (c : ℕ) (s : Bytes)
    → starts_with_char (c ∷ s) dir_separator ≡ false
    → ends_with_char (c ∷ s) dir_separator ≡ false
    → check_all v (pieces dir_separator (c ∷ s)) ≡ ok tt
    → check_relative v (c ∷ s) ≡ ok tt
unfolding check_relative starts_with_char
check_relative-intro v c s a b h =
    let composed : check_composed v (c ∷ s) none ≡ check_all v (pieces dir_separator (c ∷ s)) =
      (check_composed-eq-all v (c ∷ s)).0
      ∙ ap (check_all v) (split-eq-pieces (c ∷ s) dir_separator) in
    ground arith
