-- ===== src/Text/Split.antt =====
-- `split` against a reference that walks the text once, and its inverse.
use edencommon.Common.{
  ℕ, zero, suc, ◌+◌, ◌<◌, ◌≡◌, ◌≢◌, refl, ap, inl, inr, none, some, List, [], ◌∷◌, ◌++◌, arith,
  ◌==◌, if◌then◌else◌, Bool-cases, Option-cases, All, ◌∙◌, length, drop, take, sym,
}
use edencommon.Text.{Bytes, find, split, split_loop}

-- A byte in front of the first piece.
abbrev pub cons_first : ℕ → List Bytes → List Bytes
cons_first c [] = (c ∷ []) ∷ []
cons_first c (p ∷ ps) = (c ∷ p) ∷ ps

-- The pieces between the delimiters.
unfoldable pub pieces : ℕ → Bytes → List Bytes
pieces d [] = [] ∷ []
pieces d (c ∷ s) = if c == d then [] ∷ pieces d s else cons_first c (pieces d s)

pub find-none : (d : ℕ) (s : Bytes) → find s d ≡ none → pieces d s ≡ s ∷ []
unfolding find pieces
find-none d [] h = refl
find-none d (c ∷ s) h = ground (arith, find-none d s)

pub find-some :
    (d i : ℕ) (s : Bytes)
    → find s d ≡ some i
    → (pieces d s ≡ take i s ∷ pieces d (drop (i + 1) s)) × (length (drop (i + 1) s) < length s)
unfolding find pieces
find-some d i [] h = cc
find-some d zero (c ∷ s) h = ground arith
find-some d (suc i) (c ∷ s) h = ground (arith, find-some d i s)

split_loop-pieces : (fuel d : ℕ) (s : Bytes) → length s < fuel → split_loop fuel s d ≡ pieces d s
unfolding split_loop
split_loop-pieces zero d s h = elim h [ ]
split_loop-pieces (suc fuel) d s h = elim (Option-cases (find s d)) [
  | inl e ↦ rw (e, split_loop) (sym (find-none d s e))
  | inr (i, e) ↦
      let (step, shorter) = find-some d i s e in
      rw (e, split_loop, step)
        (ap (λ ps. take i s ∷ ps) (split_loop-pieces fuel d (drop (i + 1) s) (omega arith)))
]

-- `split` finds the pieces between the delimiters, on every text.
pub split-eq-pieces : (s : Bytes) (d : ℕ) → split s d ≡ pieces d s
unfolding split
split-eq-pieces s d = split_loop-pieces (suc (length s)) d s (omega arith)

-- folly::join over a delimiter of one byte.
unfoldable pub join : ℕ → List Bytes → Bytes
join d [] = []
join d (p ∷ []) = p
join d (p ∷ q ∷ ps) = p ++ d ∷ join d (q ∷ ps)

-- No byte of the text is the delimiter.
abbrev pub Lacks : ℕ → Bytes → Type 0
Lacks d [] = Unit
Lacks d (c ∷ s) = (c ≢ d) × Lacks d s

join-cons_first : (d c : ℕ) (ps : List Bytes) → join d (cons_first c ps) ≡ c ∷ join d ps
unfolding join
join-cons_first d c [] = refl
join-cons_first d c (p ∷ []) = refl
join-cons_first d c (p ∷ q ∷ ps) = refl

pub pieces-ne-nil : (d : ℕ) (s : Bytes) → (p : Bytes) × (ps : List Bytes) × (pieces d s ≡ p ∷ ps)
unfolding pieces
pieces-ne-nil d [] = ([], [], refl)
pieces-ne-nil d (c ∷ s) = elim (Bool-cases (c == d)) [
  | inl e ↦ ([], pieces d s, rw e)
  | inr e ↦ let (p, ps, h) = pieces-ne-nil d s in (c ∷ p, ps, rw (e, h))
]

join-nil-cons : (d : ℕ) (s : Bytes) → join d ([] ∷ pieces d s) ≡ d ∷ join d (pieces d s)
unfolding join
join-nil-cons d s = let (p, ps, h) = pieces-ne-nil d s in rw h

pub join-pieces : (d : ℕ) (s : Bytes) → join d (pieces d s) ≡ s
unfolding pieces
join-pieces d [] = unfold join in refl
join-pieces d (c ∷ s) =
    ground (arith, join-pieces d s, join-nil-cons d s, join-cons_first d c (pieces d s))

-- Joining the pieces that `split` returns gives the text back.
pub join-split : (s : Bytes) (d : ℕ) → join d (split s d) ≡ s
join-split s d = rw (split-eq-pieces s d) (join-pieces d s)

pieces-Lacks : (d : ℕ) (s : Bytes) → Lacks d s → pieces d s ≡ s ∷ []
unfolding pieces
pieces-Lacks d [] h = refl
pieces-Lacks d (c ∷ s) h = ground (arith, pieces-Lacks d s h.1)

cons_first-append :
    (c : ℕ) (d : ℕ) (s : Bytes) (ps : List Bytes)
    → cons_first c (pieces d s ++ ps) ≡ cons_first c (pieces d s) ++ ps
cons_first-append c d s ps = let (p, qs, h) = pieces-ne-nil d s in rw h

-- The pieces on both sides of a delimiter.
pub pieces-append-cons : (d : ℕ) (s t : Bytes) → pieces d (s ++ d ∷ t) ≡ pieces d s ++ pieces d t
unfolding pieces
pieces-append-cons d [] t = ground arith
pieces-append-cons d (c ∷ s) t = elim (Bool-cases (c == d)) [
  | inl e ↦ rw e (ap (λ ps. [] ∷ ps) (pieces-append-cons d s t))
  | inr e ↦ rw (e, pieces-append-cons d s t) (cons_first-append c d s (pieces d t))
]

pieces-append : (d : ℕ) (p s : Bytes) → Lacks d p → pieces d (p ++ d ∷ s) ≡ p ∷ pieces d s
unfolding pieces
pieces-append d [] s h = ground arith
pieces-append d (c ∷ p) s h = ground (arith, pieces-append d p s h.1)

pub pieces-join :
    (d : ℕ) (p : Bytes) (ps : List Bytes)
    → All (Lacks d) (p ∷ ps)
    → pieces d (join d (p ∷ ps)) ≡ p ∷ ps
unfolding join
pieces-join d p [] h = pieces-Lacks d p h.0
pieces-join d p (q ∷ ps) h =
    pieces-append d p (join d (q ∷ ps)) h.0 ∙ ap (λ r. p ∷ r) (pieces-join d q ps h.1)

-- Splitting what was joined from pieces that lack the delimiter, at least one, gives the pieces.
pub split-join :
    (p : Bytes) (ps : List Bytes) (d : ℕ)
    → All (Lacks d) (p ∷ ps)
    → split (join d (p ∷ ps)) d ≡ p ∷ ps
split-join p ps d h = split-eq-pieces (join d (p ∷ ps)) d ∙ pieces-join d p ps h

pub pieces-All-Lacks : (d : ℕ) (s : Bytes) → All (Lacks d) (pieces d s)
unfolding pieces
pieces-All-Lacks d [] = (tt, tt)
pieces-All-Lacks d (c ∷ s) = elim (Bool-cases (c == d)) [
  | inl e ↦ rw e (tt, pieces-All-Lacks d s)
  | inr e ↦
      let (p, ps, h) = pieces-ne-nil d s in
      let l : All (Lacks d) (p ∷ ps) = rw h at (pieces-All-Lacks d s) in
      rw (e, h) ((ground arith, l.0), l.1)
]
