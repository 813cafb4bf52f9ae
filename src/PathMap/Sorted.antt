-- ===== src/PathMap/Sorted.antt =====
-- Sorted vectors, and the operations of PathMap as recursions over the vector.
use edencommon.Common.{
  ◌≡◌, refl, Bool, true, false, ◌&&◌, not, Option, none, some, List, [], ◌∷◌, arith, if◌then◌else◌,
  All,
}
use edencommon.Path.Order.{KeyOrder}
use edencommon.PathMap.{Pair, lower_bound, is_found, rest_of, insert, erase}

module _ {Key : Type 0} (order : KeyOrder Key) where
  -- Neither key is less than the other.
  abbrev pub same : Key → Key → Bool
  same a b = not (order.less a b) && not (order.less b a)

  pub less_trans :
      (a b c : Key) → order.less a b ≡ true → order.less b c ≡ true → order.less a c ≡ true
  less_trans a b c h k = ground (arith, order.cotrans a c b h, order.asym b c k)

  pub less_irrefl : (a : Key) → order.less a a ≡ false
  less_irrefl a = ground (arith, order.asym a a)

  -- Keys that are the same compare alike.
  pub less-same : (a b c : Key) → same a b ≡ true → order.less a c ≡ order.less b c
  less-same a b c h = ground (arith, order.cotrans a b c, order.cotrans b a c)

  pub less-same_right : (a b c : Key) → same a b ≡ true → order.less c a ≡ order.less c b
  less-same_right a b c h = ground (arith, order.cotrans c b a, order.cotrans c a b)

  pub same_trans : (a b c : Key) → same a c ≡ true → same b c ≡ true → same a b ≡ true
  same_trans a b c h k = ground (arith, order.cotrans a c b, order.cotrans b c a)

  pub same_sym : (a b : Key) → same a b ≡ true → same b a ≡ true
  same_sym a b e = ground arith

  pub same_keys : (a b c : Key) → same a b ≡ true → same c a ≡ same c b
  same_keys a b c e = rw (less-same a b c e, less-same_right a b c e) refl

module _ {Key Value : Type 0} (order : KeyOrder Key) where
  -- Every key is less than those behind it.
  abbrev pub IsSorted : List (Pair Key Value) → Type 0
  IsSorted [] = Unit
  IsSorted (p ∷ m) = All (λ q. order.less p.0 q.0 ≡ true) m × IsSorted m

  -- What a map promises: the pair of a key, searched for without regard to the order.
  abbrev pub lookup : Key → List (Pair Key Value) → Option (Pair Key Value)
  lookup key [] = none
  lookup key (p ∷ m) = if same order key p.0 then some p else lookup key m

  pub All-less :
      (a b : Key) (m : List (Pair Key Value))
      → order.less a b ≡ true
      → All (λ q. order.less b q.0 ≡ true) m
      → All (λ q. order.less a q.0 ≡ true) m
  All-less a b [] h k = tt
  All-less a b (q ∷ m) h k = (less_trans order a b q.0 h k.0, All-less a b m h k.1)

  -- A key less than all is not there.
  pub lookup-below :
      (key : Key) (m : List (Pair Key Value))
      → All (λ q. order.less key q.0 ≡ true) m
      → lookup key m ≡ none
  lookup-below key [] h = refl
  lookup-below key (q ∷ m) h = rw h.0 (lookup-below key m h.1)

  abbrev pub insert_rec : Pair Key Value → List (Pair Key Value) → List (Pair Key Value)
  insert_rec val [] = val ∷ []
  insert_rec val (p ∷ m) =
      let rest = insert_rec val m in
      if order.less p.0 val.0 then p ∷ rest else if order.less val.0 p.0 then val ∷ p ∷ m else p ∷ m

  abbrev pub erase_rec : Key → List (Pair Key Value) → List (Pair Key Value)
  erase_rec key [] = []
  erase_rec key (p ∷ m) =
      let rest = erase_rec key m in
      if order.less p.0 key then p ∷ rest else if order.less key p.0 then p ∷ m else m

  pub insert-eq-insert_rec :
      (val : Pair Key Value) (m : List (Pair Key Value)) → (insert order val m).0 ≡ insert_rec val m
  unfolding insert lower_bound is_found
  insert-eq-insert_rec val [] = refl
  insert-eq-insert_rec val (p ∷ m) = ground (arith, insert-eq-insert_rec val m)

  pub erase-eq-erase_rec :
      (key : Key) (m : List (Pair Key Value)) → (erase order key m).0 ≡ erase_rec key m
  unfolding erase lower_bound is_found rest_of
  erase-eq-erase_rec key [] = refl
  erase-eq-erase_rec key (p ∷ m) = ground (arith, erase-eq-erase_rec key m)
