-- ===== src/Path/Order.antt =====
-- eden/common/utils/PathFuncs.h: the order of path components, and its case insensitive form, with
-- CaseSensitivity.h. `char` is signed, as on x86: `signed_rank` orders the bytes that way.
pub mod Agree
use edencommon.Common.{
  ℕ, ◌+◌, ◌-◌, ◌%◌, ◌≡◌, refl, inl, inr, Bool, true, false, ◌&&◌, ◌||◌, not, List, [], ◌∷◌, arith,
  ◌==◌, ltb, leb, if◌then◌else◌, Bool-cases,
}
use edencommon.Text.{Bytes, bytes_eq}

-- What a map asks of the order of its keys: it is a strict weak order.
pub record KeyOrder (Key : Type 0) : Type 0 where
  pub less : Key → Key → Bool
  pub asym : (a b : Key) → less a b ≡ true → less b a ≡ false
  pub cotrans : (a b c : Key) → less a c ≡ true → (less a b || less b c) ≡ true

pub data CaseSensitivity : Type 0 where
  insensitive sensitive : CaseSensitivity

-- AsciiLessThanCaseInsensitive::toLower
unfoldable pub to_lower : ℕ → ℕ
to_lower c = if leb b'A' c && leb c b'Z' then c + (b'a' - b'A') else c

unfoldable pub signed_rank : ℕ → ℕ
signed_rank c = (c + 128) % 256

-- The test on two bytes: that of std::string_view, or AsciiLessThanCaseInsensitive.
unfoldable pub less_byte : CaseSensitivity → ℕ → ℕ → Bool
unfolding signed_rank to_lower
less_byte sensitive l r = ltb l r
less_byte insensitive l r = ltb (signed_rank (to_lower l)) (signed_rank (to_lower r))

-- std::lexicographical_compare
unfoldable pub lexicographical_compare : (ℕ → ℕ → Bool) → Bytes → Bytes → Bool
lexicographical_compare less [] [] = false
lexicographical_compare less [] (_ ∷ _) = true
lexicographical_compare less (_ ∷ _) [] = false
lexicographical_compare less (x ∷ xs) (y ∷ ys) =
    let rest = lexicographical_compare less xs ys in
    if less x y then true else if less y x then false else rest

-- isPathPieceLess on components
unfoldable pub is_path_piece_less : CaseSensitivity → Bytes → Bytes → Bool
unfolding lexicographical_compare less_byte
is_path_piece_less case_sensitive left right =
    lexicographical_compare (less_byte case_sensitive) left right

-- std::equal
unfoldable pub equal_bytes : (ℕ → ℕ → Bool) → Bytes → Bytes → Bool
equal_bytes test [] [] = true
equal_bytes test [] (_ ∷ _) = false
equal_bytes test (_ ∷ _) [] = false
equal_bytes test (x ∷ xs) (y ∷ ys) = test x y && equal_bytes test xs ys

-- isPathPieceEqual on components, with folly::AsciiCaseInsensitive
pub is_path_piece_equal : (ℕ → ℕ → Bool) → CaseSensitivity → Bytes → Bytes → Bool
unfolding equal_bytes bytes_eq
is_path_piece_equal ascii_case_insensitive sensitive left right = bytes_eq left right
is_path_piece_equal ascii_case_insensitive insensitive left right =
    equal_bytes ascii_case_insensitive left right

module _ (less : ℕ → ℕ → Bool) (asym : (a b : ℕ) → less a b ≡ true → less b a ≡ false)
    (cotrans : (a b c : ℕ) → less a c ≡ true → (less a b || less b c) ≡ true) where
  pub lexicographical_compare_asym :
      (xs ys : Bytes)
      → lexicographical_compare less xs ys ≡ true
      → lexicographical_compare less ys xs ≡ false
  unfolding lexicographical_compare
  lexicographical_compare_asym [] [] h = refl
  lexicographical_compare_asym [] (y ∷ ys) h = refl
  lexicographical_compare_asym (x ∷ xs) [] h = absurd (cc)
  lexicographical_compare_asym (x ∷ xs) (y ∷ ys) h =
      ground (arith, lexicographical_compare_asym xs ys, asym x y, asym y x)

  pub lexicographical_compare_cotrans :
      (xs ys zs : Bytes)
      → lexicographical_compare less xs zs ≡ true
      → (lexicographical_compare less xs ys || lexicographical_compare less ys zs) ≡ true
  unfolding lexicographical_compare
  lexicographical_compare_cotrans [] [] [] h = absurd (cc)
  lexicographical_compare_cotrans [] [] (z ∷ zs) h = refl
  lexicographical_compare_cotrans [] (y ∷ ys) [] h = absurd (cc)
  lexicographical_compare_cotrans [] (y ∷ ys) (z ∷ zs) h = refl
  lexicographical_compare_cotrans (x ∷ xs) ys [] h = absurd (cc)
  lexicographical_compare_cotrans (x ∷ xs) [] (z ∷ zs) h = refl
  lexicographical_compare_cotrans (x ∷ xs) (y ∷ ys) (z ∷ zs) h = ground (
    arith,
    lexicographical_compare_cotrans xs ys zs,
    asym x y,
    asym y x,
    asym y z,
    asym z y,
    asym x z,
    cotrans x y z,
    cotrans z x y,
    cotrans y z x,
    cotrans y x z,
    cotrans z y x,
  )

pub less_byte_asym :
    (c : CaseSensitivity) (a b : ℕ) → less_byte c a b ≡ true → less_byte c b a ≡ false
unfolding less_byte
less_byte_asym sensitive a b h = ground arith
less_byte_asym insensitive a b h = rank_asym (signed_rank (to_lower a)) (signed_rank (to_lower b)) h
  where
    rank_asym : (m n : ℕ) → ltb m n ≡ true → ltb n m ≡ false
    rank_asym m n e = ground arith

pub less_byte_cotrans :
    (c : CaseSensitivity) (a b d : ℕ)
    → less_byte c a d ≡ true
    → (less_byte c a b || less_byte c b d) ≡ true
unfolding less_byte
less_byte_cotrans sensitive a b d h = ground arith
less_byte_cotrans insensitive a b d h =
    rank_cotrans (signed_rank (to_lower a)) (signed_rank (to_lower b)) (signed_rank (to_lower d)) h
  where
    rank_cotrans : (l m n : ℕ) → ltb l n ≡ true → (ltb l m || ltb m n) ≡ true
    rank_cotrans l m n e = ground arith

-- Path components are ordered, with or without regard to case.
unfoldable pub piece_order : CaseSensitivity → KeyOrder Bytes
unfolding is_path_piece_less lexicographical_compare
piece_order c = record {
  less = is_path_piece_less c;
  asym = lexicographical_compare_asym (less_byte c) (less_byte_asym c) (less_byte_cotrans c);
  cotrans = lexicographical_compare_cotrans (less_byte c) (less_byte_asym c) (less_byte_cotrans c);
}
