-- ===== src/FileDescriptor/Vectors.antt =====
-- writevFull writes the bytes of all its buffers, in their order.
use mathlib.Core.List.{append-nil, append_assoc}
use edencommon.Common.{
  ℕ, zero, suc, ◌-◌, ◌≤◌, ◌<◌, ◌≡◌, refl, sym, ap, ◌∙◌, inl, inr, true, false, Option, some, Result,
  List, [], ◌∷◌, ◌++◌, length, take, drop, leb, ◌==◌, ok, Bool-cases, arith, length-append,
}
use edencommon.Text.{Bytes}
use edencommon.UnixSocket.Send.{concat}
use edencommon.UnixSocket.Sending.{concat-take}
use edencommon.UnixSocket.Cells.{
  take-drop, length-take_le, length-drop, take-append_le, drop-append_le, drop-append_ge, drop_all,
}
use edencommon.FileDescriptor.{Answer, interrupted, failed, moved, pass, is_nil, writev_full}

concat-pass : (r : ℕ) (vs : List Bytes) → concat (pass r vs) ≡ drop r (concat vs)
unfolding pass
concat-pass r [] = sym (drop_all r [] (omega arith))
concat-pass r (v ∷ vs) = elim (Bool-cases (r == 0)) [
  | inl e ↦ rw e (ap (λ k. drop k (v ++ concat vs)) (let z : 0 ≡ r = ground arith in z))
  | inr e ↦ elim (Bool-cases (leb (length v) r)) [
    | inl f ↦
        rw (e, f)
          (concat-pass (r - length v) vs ∙ sym (drop-append_ge r v (concat vs) (ground arith)))
    | inr f ↦ rw (e, f) (sym (drop-append_le r v (concat vs) (ground arith)))
  ]
]

is_nil-nil : (vs : List Bytes) → is_nil vs ≡ true → vs ≡ []
unfolding is_nil
is_nil-nil [] e = refl
is_nil-nil (v ∷ vs) e = cc

length-nil : (xs : Bytes) → length xs ≡ 0 → xs ≡ []
length-nil [] e = refl
length-nil (x ∷ xs) e = absurd (omega (arith, e))

abbrev pub moves : {E : Type 0} → List (Answer E) → ℕ
moves [] = 0
moves (interrupted ∷ rest) = moves rest
moves (failed e ∷ rest) = moves rest
moves (moved r ∷ rest) = suc (moves rest)

first_some :
    (n : ℕ) (v : Bytes) (vs : List Bytes) → 0 < n → 0 < length v → concat (take n (v ∷ vs)) ≡ [] → ⊥
first_some zero v vs p l e = absurd (omega (arith, p))
first_some (suc n) v vs p l e =
    absurd (omega (arith, l, length-append v (concat (take n vs)), ap length e))

offered_none : (n : ℕ) → concat (take n []) ≡ []
offered_none zero = refl
offered_none (suc n) = refl

module _ (iov_max : ℕ) where
  -- The bytes of the buffers that the system takes at once.
  abbrev pub offered : List Bytes → Bytes
  offered iov = concat (take iov_max iov)

  -- The answers of writev: EINTR, or so many of the bytes that it is offered, at least one where there
  -- are some.
  abbrev pub Gives : {E : Type 0} → List (Answer E) → List Bytes → Type 0
  Gives [] iov = Unit
  Gives (interrupted ∷ rest) iov = Gives rest iov
  Gives (failed e ∷ rest) iov = ⊥
  Gives (moved r ∷ rest) iov =
      (r ≤ length (offered iov)) × (0 < length (offered iov) → 0 < r) × Gives rest (pass r iov)

  -- No bytes come after buffers that are all empty and as many as the system takes at once.
  abbrev pub Spread : List Bytes → Type 0
  Spread [] = Unit
  Spread (v ∷ vs) = (offered (v ∷ vs) ≡ [] → concat (v ∷ vs) ≡ []) × Spread vs

  Spread-all : (iov : List Bytes) → Spread iov → offered iov ≡ [] → concat iov ≡ []
  Spread-all [] s e = refl
  Spread-all (v ∷ vs) s e = s.0 e

  trimmed :
      (r : ℕ) (v : Bytes) (vs : List Bytes)
      → 0 < iov_max
      → leb (length v) r ≡ false
      → offered (drop r v ∷ vs) ≡ []
      → ⊥
  trimmed r v vs p f g = first_some iov_max (drop r v) vs p (ground (arith, length-drop r v)) g

  nothing :
      {E : Type 0} (before : Bytes)
      → Path (Option (Result E Bytes)) (some (ok before)) (some (ok (before ++ [])))
  nothing before = ap (λ z. some (ok z)) (sym (append-nil before))

  no_offer : offered [] ≡ []
  no_offer = offered_none iov_max

  pass-Spread : (r : ℕ) (iov : List Bytes) → 0 < iov_max → Spread iov → Spread (pass r iov)
  unfolding pass
  pass-Spread r [] p s = tt
  pass-Spread r (v ∷ vs) p s = elim (Bool-cases (r == 0)) [
    | inl e ↦ rw e s
    | inr e ↦ elim (Bool-cases (leb (length v) r)) [
      | inl f ↦ rw (e, f) (pass-Spread (r - length v) vs p s.1)
      | inr f ↦ rw (e, f) ((λ g. absurd (trimmed r v vs p f g)), s.1)
    ]
  ]

  -- What a call writes, and what is left.
  pass-rest :
      (r : ℕ) (iov : List Bytes)
      → r ≤ length (offered iov)
      → take r (offered iov) ++ concat (pass r iov) ≡ concat iov
  pass-rest r iov most =
      ap (λ z. z ++ concat (pass r iov))
        (sym (take-append_le r (offered iov) (concat (drop iov_max iov)) most)
          ∙ ap (take r) (concat-take iov_max iov))
      ∙ ap (λ z. take r (concat iov) ++ z) (concat-pass r iov)
      ∙ take-drop r (concat iov)

  -- The bytes that are written, and the buffers that are left, of which none that the system takes at
  -- once has any.
  abbrev pub Ends : {E : Type 0} → Option (Result E Bytes) → List Bytes → Bytes → Type 0
  Ends result iov before =
      (w : Bytes) × ((left : List Bytes) × (result ≡ some (ok (before ++ w)))
        × (w ++ concat left ≡ concat iov)
        × (offered left ≡ [])
        × (Spread iov → concat left ≡ []))

  writes_on :
      {E : Type 0} (answers : List (Answer E)) (iov : List Bytes) (before : Bytes)
      → 0 < iov_max
      → Gives answers iov
      → length (concat iov) < moves answers
      → Ends (writev_full iov_max answers iov before) iov before
  unfolding writev_full
  writes_on [] iov before p g l = absurd (omega (arith, l))
  writes_on (interrupted ∷ rest) iov before p g l = elim (Bool-cases (is_nil iov)) [
    | inl e ↦ rw (e, is_nil-nil iov e) ([], ([], nothing before, refl, no_offer, λ _. refl))
    | inr e ↦ rw e (writes_on rest iov before p g l)
  ]
  writes_on (failed e ∷ rest) iov before p g l = absurd g
  writes_on (moved r ∷ rest) iov before p (most, least, g) l = elim (Bool-cases (r == 0)) [
    | inl e ↦
        let nil : offered iov ≡ [] = length-nil (offered iov) (ground (arith, least)) in
        rw e ([], (iov, nothing before, refl, nil, λ s. Spread-all iov s nil))
    | inr e ↦ elim (Bool-cases (is_nil (pass r iov))) [
      | inl f ↦
          rw (e, f)
            (
              take r (offered iov),
              (
                [],
                refl,
                ap (λ z. take r (offered iov) ++ concat z) (sym (is_nil-nil (pass r iov) f))
                    ∙ pass-rest r iov most,
                no_offer,
                λ _. refl,
              ),
            )
      | inr f ↦
          let shorter : length (concat (pass r iov)) < moves rest = ground (
            arith,
            l,
            ap length (pass-rest r iov most),
            length-append (take r (offered iov)) (concat (pass r iov)),
            length-take_le r (offered iov) most,
          ) in
          let (w, (left, a, b, c, d)) =
            writes_on rest (pass r iov) (before ++ take r (offered iov)) p g shorter in
          rw (e, f)
            (
              take r (offered iov) ++ w,
              (
                left,
                a ∙ ap (λ z. some (ok z)) (append_assoc before (take r (offered iov)) w),
                append_assoc (take r (offered iov)) w (concat left)
                    ∙ ap (λ z. take r (offered iov) ++ z) b
                    ∙ pass-rest r iov most,
                c,
                λ s. d (pass-Spread r iov p s),
              ),
            )
    ]
  ]

  -- writevFull: where no call fails but by EINTR, each call that succeeds writes a part of any size of
  -- the buffers that it is offered, no more of them than the system takes at once, at least a byte
  -- where they have one, and there are more such calls than bytes, it ends; what it returns that it
  -- has written are the first bytes of the buffers, in their order; of the buffers that are left then
  -- those that the system takes at once are all empty; and no bytes are left where none come after
  -- buffers that are all empty and as many as the system takes at once.
  pub writev_full-concat :
      {E : Type 0} (answers : List (Answer E)) (iov : List Bytes)
      → 0 < iov_max
      → Gives answers iov
      → length (concat iov) < moves answers
      → Ends (writev_full iov_max answers iov []) iov []
  writev_full-concat answers iov p g l = writes_on answers iov [] p g l
