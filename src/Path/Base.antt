-- ===== src/Path/Base.antt =====
-- dirname and basename.
use edencommon.Common.{
  ℕ, zero, suc, ◌+◌, ◌≡◌, refl, ap, inl, inr, ◌⊎◌, none, some, [], ◌∷◌, ◌++◌, arith, Option-cases,
  take, drop, length,
}
use edencommon.Text.{Bytes, rfind}
use edencommon.Text.Split.{Lacks}
use edencommon.Path.{dir_separator, compose, dirname, basename}

rfind-Lacks : (d : ℕ) (s : Bytes) → Lacks d s → rfind s d ≡ none
unfolding rfind
rfind-Lacks d [] h = refl
rfind-Lacks d (c ∷ s) h = ground (arith, rfind-Lacks d s h.1)

rfind-none : (d : ℕ) (s : Bytes) → rfind s d ≡ none → Lacks d s
unfolding rfind
rfind-none d [] h = tt
rfind-none d (c ∷ s) h = ground (arith, rfind-none d s)

rfind-some :
    (d i : ℕ) (s : Bytes)
    → rfind s d ≡ some i
    → (take i s ++ d ∷ drop (i + 1) s ≡ s) × Lacks d (drop (i + 1) s)
unfolding rfind
rfind-some d i [] h = cc
rfind-some d zero (c ∷ s) h = ground (arith, rfind-none d s)
rfind-some d (suc i) (c ∷ s) h = ground (arith, rfind-some d i s)

-- basename holds no separator, and a path is its basename alone, or its dirname, a separator and
-- its basename.
pub dirname-basename :
    (path : Bytes)
    → Lacks dir_separator (basename path)
      × (((dirname path ≡ []) × (basename path ≡ path))
          ⊎ (dirname path ++ dir_separator ∷ basename path ≡ path))
unfolding dirname basename
dirname-basename path = elim (Option-cases (rfind path dir_separator)) [
  | inl e ↦ rw (e, dirname, basename) (rfind-none dir_separator path e, inl (refl, refl))
  | inr (i, e) ↦
      let (p, l) = rfind-some dir_separator i path e in rw (e, dirname, basename) (l, inr p)
]

rfind-append : (d : ℕ) (s t : Bytes) → Lacks d t → rfind (s ++ d ∷ t) d ≡ some (length s)
unfolding rfind
rfind-append d [] t h = ground (arith, rfind-Lacks d t h)
rfind-append d (c ∷ s) t h = ground (arith, rfind-append d s t h)

take-length : (d : ℕ) (s t : Bytes) → take (length s) (s ++ d ∷ t) ≡ s
take-length d [] t = refl
take-length d (c ∷ s) t = ap (λ r. c ∷ r) (take-length d s t)

drop-length : (d : ℕ) (s t : Bytes) → drop (length s + 1) (s ++ d ∷ t) ≡ t
drop-length d [] t = ground arith
drop-length d (c ∷ s) t = ground (arith, drop-length d s t)

-- A component that is not empty and lacks the separator, put behind any path, is found again by
-- basename, and the path by dirname.
pub dirname-compose :
    (a : Bytes) (c : ℕ) (s : Bytes)
    → Lacks dir_separator (c ∷ s)
    → (dirname (compose a (c ∷ s)) ≡ a) × (basename (compose a (c ∷ s)) ≡ c ∷ s)
unfolding dirname basename compose
dirname-compose [] c s h = rw (rfind-Lacks dir_separator (c ∷ s) h, dirname, basename) (refl, refl)
dirname-compose (a ∷ r) c s h =
    rw (rfind-append dir_separator (a ∷ r) (c ∷ s) h, dirname, basename)
      (take-length dir_separator (a ∷ r) (c ∷ s), drop-length dir_separator (a ∷ r) (c ∷ s))
