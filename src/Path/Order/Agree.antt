-- ===== src/Path/Order/Agree.antt =====
-- The order and the equality of path components agree.
use edencommon.Common.{ℕ, ◌≡◌, ◌<◌, refl, ◌∙◌, Bool, ◌&&◌, not, [], ◌∷◌, arith, ◌==◌, ltb, All}
use edencommon.Text.{Bytes, bytes_eq}
use edencommon.Path.Order.{
  CaseSensitivity, insensitive, sensitive, to_lower, signed_rank, less_byte,
  lexicographical_compare, is_path_piece_less, equal_bytes, is_path_piece_equal,
}

abbrev pub IsByte : ℕ → Type 0
IsByte c = c < 256

equal_bytes-lexicographical :
    (less test : ℕ → ℕ → Bool)
    → ((x y : ℕ) → IsByte x → IsByte y → test x y ≡ (not (less x y) && not (less y x)))
    → (xs ys : Bytes) → All IsByte xs
    → All IsByte ys
    → equal_bytes test xs ys
      ≡ (not (lexicographical_compare less xs ys) && not (lexicographical_compare less ys xs))
unfolding equal_bytes lexicographical_compare
equal_bytes-lexicographical less test e [] [] h k = refl
equal_bytes-lexicographical less test e [] (y ∷ ys) h k = refl
equal_bytes-lexicographical less test e (x ∷ xs) [] h k = refl
equal_bytes-lexicographical less test e (x ∷ xs) (y ∷ ys) h k =
    ground (arith, e x y h.0 k.0, equal_bytes-lexicographical less test e xs ys h.1 k.1)

bytes_eq_test : (xs ys : Bytes) → bytes_eq xs ys ≡ equal_bytes (λ x y. x == y) xs ys
unfolding bytes_eq equal_bytes
bytes_eq_test [] [] = refl
bytes_eq_test [] (y ∷ ys) = refl
bytes_eq_test (x ∷ xs) [] = refl
bytes_eq_test (x ∷ xs) (y ∷ ys) = ground (arith, bytes_eq_test xs ys)

to_lower-IsByte : (c : ℕ) → IsByte c → IsByte (to_lower c)
unfolding to_lower
to_lower-IsByte c h = ground arith

rank_test :
    (x y : ℕ)
    → IsByte x
    → IsByte y
    → (x == y)
      ≡ (not (ltb (signed_rank x) (signed_rank y)) && not (ltb (signed_rank y) (signed_rank x)))
unfolding signed_rank
rank_test x y h k = ground arith

equal_test : (x y : ℕ) → (x == y) ≡ (not (ltb x y) && not (ltb y x))
equal_test x y = ground arith

-- Where folly::AsciiCaseInsensitive compares the bytes as `toLower` maps them, two components are
-- equal by isPathPieceEqual exactly when neither is less than the other by isPathPieceLess, with
-- regard to case and without.
pub is_path_piece_equal-less :
    (ascii_case_insensitive : ℕ → ℕ → Bool) (c : CaseSensitivity) (left right : Bytes)
    → ((x y : ℕ) → ascii_case_insensitive x y ≡ (to_lower x == to_lower y))
    → All IsByte left
    → All IsByte right
    → is_path_piece_equal ascii_case_insensitive c left right
      ≡ (not (is_path_piece_less c left right) && not (is_path_piece_less c right left))
unfolding is_path_piece_equal is_path_piece_less
is_path_piece_equal-less ascii sensitive left right e h k =
    rw bytes_eq_test (
      equal_bytes-lexicographical (less_byte sensitive) _ (λ x y _ _. equal_test x y) left right h
        k)
is_path_piece_equal-less ascii insensitive left right e h k =
    equal_bytes-lexicographical (less_byte insensitive) ascii
      (λ x y m n.
        e x y ∙ rank_test (to_lower x) (to_lower y) (to_lower-IsByte x m) (to_lower-IsByte y n))
      left right h k
