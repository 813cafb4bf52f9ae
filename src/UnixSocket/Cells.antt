-- ===== src/UnixSocket/Cells.antt =====
-- Lists of bytes and of cells: prefixes, and the rest of them.
use edencommon.Common.{
  ℕ, zero, suc, ◌+◌, ◌-◌, ◌<◌, ◌≤◌, ◌≡◌, refl, sym, ap, ◌∙◌, List, [], ◌∷◌, ◌++◌, length, take,
  drop, map, arith, length-append,
}
use edencommon.Text.{Bytes}
use edencommon.UnixSocket.{File, attach}

module _ {ℓ} {A : Type ℓ} where
  pub take-drop : (n : ℕ) (xs : List A) → take n xs ++ drop n xs ≡ xs
  take-drop zero xs = refl
  take-drop (suc n) [] = refl
  take-drop (suc n) (x ∷ xs) = ap (λ ys. x ∷ ys) (take-drop n xs)

  pub take-append_le : (n : ℕ) (xs ys : List A) → n ≤ length xs → take n (xs ++ ys) ≡ take n xs
  take-append_le zero xs ys h = refl
  take-append_le (suc n) [] ys h = absurd (omega (arith, h))
  take-append_le (suc n) (x ∷ xs) ys h = ap (λ l. x ∷ l) (take-append_le n xs ys (omega (arith, h)))

  pub drop-append_le :
      (n : ℕ) (xs ys : List A) → n ≤ length xs → drop n (xs ++ ys) ≡ drop n xs ++ ys
  drop-append_le zero xs ys h = refl
  drop-append_le (suc n) [] ys h = absurd (omega (arith, h))
  drop-append_le (suc n) (x ∷ xs) ys h = drop-append_le n xs ys (omega (arith, h))

  pub drop-append_ge :
      (n : ℕ) (xs ys : List A) → length xs ≤ n → drop n (xs ++ ys) ≡ drop (n - length xs) ys
  drop-append_ge n [] ys h = ap (λ k. drop k ys) (omega arith)
  drop-append_ge zero (x ∷ xs) ys h = absurd (omega (arith, h))
  drop-append_ge (suc n) (x ∷ xs) ys h =
      drop-append_ge n xs ys (omega (arith, h)) ∙ ap (λ k. drop k ys) (omega arith)

  drop_nil : (n : ℕ) → drop {A = A} n [] ≡ []
  drop_nil zero = refl
  drop_nil (suc n) = refl

  pub drop_add : (m n : ℕ) (xs : List A) → drop (m + n) xs ≡ drop n (drop m xs)
  drop_add zero n xs = ap (λ k. drop k xs) (omega arith)
  drop_add (suc m) n [] =
      ap (λ k. drop k []) (let e : suc m + n ≡ suc (m + n) = omega arith in e) ∙ sym (drop_nil n)
  drop_add (suc m) n (x ∷ xs) =
      ap (λ k. drop k (x ∷ xs)) (let e : suc m + n ≡ suc (m + n) = omega arith in e)
      ∙ drop_add m n xs

  pub drop-length-take : (n : ℕ) (xs : List A) → drop (length (take n xs)) xs ≡ drop n xs
  drop-length-take zero xs = refl
  drop-length-take (suc n) [] = refl
  drop-length-take (suc n) (x ∷ xs) = drop-length-take n xs

  pub drop-length : (xs : List A) → drop (length xs) xs ≡ []
  drop-length [] = refl
  drop-length (x ∷ xs) = drop-length xs

  pub drop_all : (n : ℕ) (xs : List A) → length xs ≤ n → drop n xs ≡ []
  drop_all zero [] h = refl
  drop_all zero (x ∷ xs) h = absurd (omega (arith, h))
  drop_all (suc n) [] h = refl
  drop_all (suc n) (x ∷ xs) h = drop_all n xs (omega (arith, h))

  pub length-drop : (n : ℕ) (xs : List A) → length (drop n xs) ≡ length xs - n
  length-drop zero xs = omega arith
  length-drop (suc n) [] = omega arith
  length-drop (suc n) (x ∷ xs) = omega (arith, length-drop n xs)

  pub length-take : (n : ℕ) (xs : List A) → length (take n xs) ≡ length xs - (length xs - n)
  length-take n xs =
      omega
        (arith, length-append (take n xs) (drop n xs), ap length (take-drop n xs), length-drop n xs)

  pub length-take_le : (n : ℕ) (xs : List A) → n ≤ length xs → length (take n xs) ≡ n
  length-take_le zero xs h = refl
  length-take_le (suc n) [] h = absurd (omega (arith, h))
  length-take_le (suc n) (x ∷ xs) h = omega (arith, length-take_le n xs (omega (arith, h)))

-- One sendmsg in two.
pub attach-split :
    (fs : List File) (n : ℕ) (bs : Bytes)
    → 0 < n
    → attach fs (take n bs) ++ attach [] (drop n bs) ≡ attach fs bs
attach-split fs zero bs h = absurd (omega (arith, h))
attach-split fs (suc n) [] h = refl
attach-split fs (suc n) (b ∷ bs) h = ap (λ l. (b, fs) ∷ l) (plain-split n bs)
  where
    plain : (bs : Bytes) → attach [] bs ≡ map (λ c. (c, [])) bs
    plain [] = refl
    plain (b ∷ bs) = refl

    plain-split :
        (n : ℕ) (bs : Bytes)
        → map (λ c. (c, [])) (take n bs) ++ attach [] (drop n bs) ≡ map (λ c. (c, [])) bs
    plain-split zero bs = plain bs
    plain-split (suc n) [] = refl
    plain-split (suc n) (b ∷ bs) = ap (λ l. (b, []) ∷ l) (plain-split n bs)
