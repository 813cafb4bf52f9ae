-- ===== src/FileDescriptor/Full.antt =====
-- What the loops move, and when they end.
use edencommon.Common.{
  ℕ, ◌+◌, ◌-◌, ◌<◌, ◌≡◌, refl, ap, ◌∙◌, inl, inr, false, some, List, [], ◌∷◌, ◌==◌, ok, Bool-cases,
  arith,
}
use edencommon.FileDescriptor.{Answer, interrupted, failed, moved, wrap_full, write_full}

-- The bytes that the answers move.
abbrev pub sum : {E : Type 0} → List (Answer E) → ℕ
sum [] = 0
sum (interrupted ∷ rest) = sum rest
sum (failed e ∷ rest) = sum rest
sum (moved r ∷ rest) = r + sum rest

-- No answer fails.
abbrev pub NoError : {E : Type 0} → List (Answer E) → Type 0
NoError [] = Unit
NoError (interrupted ∷ rest) = NoError rest
NoError (failed e ∷ rest) = ⊥
NoError (moved r ∷ rest) = NoError rest

wrap_full-all :
    {E : Type 0} (answers : List (Answer E)) (count total : ℕ)
    → NoError answers
    → 0 < count
    → sum answers ≡ count
    → wrap_full false false answers count total ≡ some (ok (total + count))
unfolding wrap_full
wrap_full-all [] count total n p e = absurd (omega (arith, p, e))
wrap_full-all (interrupted ∷ rest) count total n p e =
    let f : (count == 0) ≡ false = ground (arith, p) in rw f (wrap_full-all rest count total n p e)
wrap_full-all (failed x ∷ rest) count total n p e = absurd n
wrap_full-all (moved r ∷ rest) count total n p e = elim (Bool-cases ((count - r) == 0)) [
  | inl f ↦ let all : total + r ≡ total + count = ground (arith, e) in rw (f, all) refl
  | inr f ↦
      let sums : total + r + (count - r) ≡ total + count = ground (arith, e) in
      rw f (
        wrap_full-all rest (count - r) (total + r) n (ground arith) (omega (arith, e))
        ∙ ap (λ z. some (ok z)) sums)
]

-- writeFull of a buffer that is not empty: where no call fails but by EINTR, and the calls that succeed
-- write as many bytes as it has, in parts of any size, it returns the size of the buffer.
pub write_full-all :
    {E : Type 0} (answers : List (Answer E)) (size : ℕ)
    → NoError answers
    → 0 < size
    → sum answers ≡ size
    → write_full answers size ≡ some (ok size)
unfolding write_full
write_full-all answers size n p e =
    wrap_full-all answers size 0 n p e
    ∙ ap (λ z. some (ok z)) (let z : 0 + size ≡ size = omega arith in z)
