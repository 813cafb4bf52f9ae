-- ===== src/UnixSocket/Pending.antt =====
-- What of an entry of the send queue is still to be sent.
use edencommon.Common.{
  ℕ, zero, suc, ◌+◌, ◌-◌, ◌<◌, ◌≤◌, ◌≡◌, refl, sym, ap, ◌∙◌, ◌&&◌, ◌==◌, leb, inl, inr, Bool, true,
  false, List, [], ◌∷◌, ◌++◌, length, take, drop, All, arith, Bool-cases,
}
use edencommon.Text.{Bytes}
use edencommon.UnixSocket.{File, Cell, attach}
use edencommon.UnixSocket.Cells.{drop-append_le, drop-append_ge, length-drop, drop_all}
use edencommon.UnixSocket.Send.{
  SendQueueEntry, max_fds, concat, is_first_send, first_files, advance,
}

-- The bytes 0 that carry the files which the first send could not take, by fuel.
abbrev more : ℕ → List File → List Cell
more zero fs = []
more (suc n) [] = []
more (suc n) (f ∷ fs) = (0, take max_fds (f ∷ fs)) ∷ more n (drop max_fds (f ∷ fs))

abbrev pub extras : List File → List Cell
extras fs = more (length fs) fs

more_enough : (n m : ℕ) (fs : List File) → length fs ≤ n → length fs ≤ m → more n fs ≡ more m fs
more_enough zero zero fs h g = refl
more_enough zero (suc m) [] h g = refl
more_enough zero (suc m) (f ∷ fs) h g = absurd (omega (arith, h))
more_enough (suc n) zero [] h g = refl
more_enough (suc n) zero (f ∷ fs) h g = absurd (omega (arith, g))
more_enough (suc n) (suc m) [] h g = refl
more_enough (suc n) (suc m) (f ∷ fs) h g =
    ap (λ l. (0, take max_fds (f ∷ fs)) ∷ l)
      (more_enough n m (drop max_fds (f ∷ fs)) (omega (arith, h, length-drop max_fds (f ∷ fs)))
        (omega (arith, g, length-drop max_fds (f ∷ fs))))

pub extras-next :
    (fs : List File) → 0 < length fs → extras fs ≡ (0, take max_fds fs) ∷ extras (drop max_fds fs)
extras-next [] h = absurd (omega (arith, h))
extras-next (f ∷ fs) h =
    ap (λ l. (0, take max_fds (f ∷ fs)) ∷ l)
      (more_enough (length fs) (length (drop max_fds (f ∷ fs))) (drop max_fds (f ∷ fs))
        (omega (arith, length-drop max_fds (f ∷ fs))) (omega arith))

-- The cells that are still to come of an entry.
abbrev pub pending : SendQueueEntry → List Cell
pending e =
    attach (first_files e) (concat e.iov)
    ++ extras (drop (e.files_sent + length (first_files e)) e.files)

-- The invariant of an entry in the queue: no iovec is empty; files are counted only once they are sent;
-- and where the data is sent, some files are, and some are not.
pub record Valid (e : SendQueueEntry) : Type 0 where
  pub filled : All (λ v. 0 < length v) e.iov
  pub unsent : is_first_send e ≡ true → e.files_sent ≡ 0
  pub some_sent : is_first_send e ≡ false → (0 < length e.files) → 0 < e.files_sent
  pub bounded : e.files_sent ≤ length e.files
  pub left : e.iov ≡ [] → (is_first_send e ≡ false) × (e.files_sent < length e.files)

-- advance
pub concat-advance :
    (n : ℕ) (vs : List Bytes) (i : ℕ) (h : Bool) → concat (advance n vs i h).0 ≡ drop n (concat vs)
unfolding advance
concat-advance n [] i h = sym (drop_all n [] (omega arith))
concat-advance n (v ∷ vs) i h = elim (Bool-cases (n == 0)) [
  | inl e ↦ rw e (ap (λ k. drop k (v ++ concat vs)) (let z : 0 ≡ n = ground arith in z))
  | inr e ↦ elim (Bool-cases (leb (length v) n)) [
    | inl f ↦
        rw (e, f)
          (concat-advance (n - length v) vs (i + 1) h
            ∙ sym (drop-append_ge n v (concat vs) (ground arith)))
    | inr f ↦ rw (e, f) (sym (drop-append_le n v (concat vs) (ground arith)))
  ]
]

pub advance-filled :
    (n : ℕ) (vs : List Bytes) (i : ℕ) (h : Bool)
    → All (λ v. 0 < length v) vs
    → All (λ v. 0 < length v) (advance n vs i h).0
unfolding advance
advance-filled n [] i h a = tt
advance-filled n (v ∷ vs) i h a = elim (Bool-cases (n == 0)) [
  | inl e ↦ rw e a
  | inr e ↦ elim (Bool-cases (leb (length v) n)) [
    | inl f ↦ rw (e, f) (advance-filled (n - length v) vs (i + 1) h a.1)
    | inr f ↦ rw (e, f) (ground (arith, length-drop n v), a.1)
  ]
]

advance_index : (n : ℕ) (vs : List Bytes) (i : ℕ) (h : Bool) → i ≤ (advance n vs i h).1.0
unfolding advance
advance_index n [] i h = omega arith
advance_index n (v ∷ vs) i h = ground (arith, advance_index (n - length v) vs (i + 1) h)

-- After bytes of it were sent, a send is not the first.
pub advance-later :
    (n : ℕ) (vs : List Bytes) (i : ℕ) (h : Bool)
    → 0 < n
    → 0 < length vs
    → (((advance n vs i h).1.0 == 0) && (advance n vs i h).1.1) ≡ false
unfolding advance
advance-later n [] i h p q = absurd (omega (arith, q))
advance-later n (v ∷ vs) i h p q = elim (Bool-cases (n == 0)) [
  | inl e ↦ absurd (ground arith)
  | inr e ↦ elim (Bool-cases (leb (length v) n)) [
    | inl f ↦ rw (e, f) (ground (arith, advance_index (n - length v) vs (i + 1) h))
    | inr f ↦ rw (e, f) (ground arith)
  ]
]
