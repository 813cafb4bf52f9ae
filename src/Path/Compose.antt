-- ===== src/Path/Compose.antt =====
-- Composing relative paths.
use mathlib.Core.List.{append_assoc}
use edencommon.Common.{ℕ, ◌≡◌, refl, ap, ◌∙◌, Bool, [], ◌∷◌, ◌++◌, ok}
use edencommon.Text.{Bytes, starts_with_char, ends_with_char}
use edencommon.Text.Split.{pieces, pieces-append-cons}
use edencommon.Path.{dir_separator, check_relative, compose}
use edencommon.Path.Check.{check_all, check_all-append, check_relative-ok, check_relative-intro}

ends_with_char-append :
    (d c e : ℕ) (s t : Bytes) → ends_with_char (s ++ e ∷ c ∷ t) d ≡ ends_with_char (c ∷ t) d
unfolding ends_with_char
ends_with_char-append d c e [] t = refl
ends_with_char-append d c e (x ∷ []) t = refl
ends_with_char-append d c e (x ∷ y ∷ s) t = ends_with_char-append d c e (y ∷ s) t

-- Two relative paths that pass RelativePathSanityCheck compose to one that passes it.
pub compose-check_relative :
    (is_valid_utf8 : Bytes → Bool) (a b : Bytes)
    → check_relative is_valid_utf8 a ≡ ok tt
    → check_relative is_valid_utf8 b ≡ ok tt
    → check_relative is_valid_utf8 (compose a b) ≡ ok tt
unfolding compose
compose-check_relative v [] b h k = k
compose-check_relative v (a ∷ s) [] h k = h
compose-check_relative v (a ∷ s) (b ∷ t) h k =
    let (h₀, h₁, h₂) = check_relative-ok v a s h in
    let (k₀, k₁, k₂) = check_relative-ok v b t k in
    check_relative-intro v a (s ++ dir_separator ∷ b ∷ t)
      (unfold starts_with_char in unfold starts_with_char in h₀)
      (ends_with_char-append dir_separator b dir_separator (a ∷ s) t ∙ k₁)
      (ap (check_all v) (pieces-append-cons dir_separator (a ∷ s) (b ∷ t))
        ∙ check_all-append v (pieces dir_separator (a ∷ s)) (pieces dir_separator (b ∷ t))
        ∙ rw (h₂, k₂) refl)

-- Composition of relative paths is associative, on any three texts.
pub compose_assoc : (a b c : Bytes) → compose (compose a b) c ≡ compose a (compose b c)
unfolding compose
compose_assoc [] b c = refl
compose_assoc (a ∷ s) [] c = refl
compose_assoc (a ∷ s) (b ∷ t) [] = refl
compose_assoc (a ∷ s) (b ∷ t) (c ∷ u) =
    ap (λ r. a ∷ r) (append_assoc s (dir_separator ∷ b ∷ t) (dir_separator ∷ c ∷ u))
