-- ===== src/FaultInjector/ByClass.antt =====
-- A map with keys of text, as an association list: an operation is on the first entry of the key.
use edencommon.Text.Ends.{bytes_eq_iff, bytes_eq_refl}
use edencommon.Common.{◌≡◌, refl, arith, false, Option, none, some, List, [], ◌∷◌, if◌then◌else◌}
use edencommon.Text.{Bytes, bytes_eq}

abbrev pub Dict : Type 0 → Type 0
Dict V = List (Bytes × V)

module _ {V : Type 0} where
  unfoldable pub get : Dict V → Bytes → Option V
  get [] key = none
  get ((k, v) ∷ d) key = if bytes_eq k key then some v else get d key

  unfoldable pub get_or : Dict V → Bytes → V → V
  unfolding get
  get_or d key fresh = elim (get d key) [ some v ↦ v | none ↦ fresh ]

  pub get_or-cons :
      (k : Bytes) (v : V) (d : Dict V) (key : Bytes) (fresh : V)
      → get_or ((k, v) ∷ d) key fresh ≡ (if bytes_eq k key then v else get_or d key fresh)
  unfolding get_or
  get_or-cons k v d key fresh = ground arith

  pub get_or-some :
      (d : Dict V) (key : Bytes) (fresh v : V) → get d key ≡ some v → get_or d key fresh ≡ v
  unfolding get_or
  get_or-some d key fresh v e = ground arith

  pub get_or-none :
      (d : Dict V) (key : Bytes) (fresh : V) → get d key ≡ none → get_or d key fresh ≡ fresh
  unfolding get_or
  get_or-none d key fresh e = ground arith

  unfoldable pub put : Dict V → Bytes → V → Dict V
  put [] key v = (key, v) ∷ []
  put ((k, w) ∷ d) key v = if bytes_eq k key then (k, v) ∷ d else (k, w) ∷ put d key v

  unfoldable pub erase : Dict V → Bytes → Dict V
  erase [] key = []
  erase ((k, w) ∷ d) key = if bytes_eq k key then d else (k, w) ∷ erase d key

  pub get-put_self : (d : Dict V) (key : Bytes) (v : V) → get (put d key v) key ≡ some v
  unfolding get put
  get-put_self [] key v = rw bytes_eq_refl refl
  get-put_self ((k, w) ∷ d) key v = ground (arith, get-put_self d key v)

  pub get-put_other :
      (d : Dict V) (key other : Bytes) (v : V)
      → bytes_eq key other ≡ false
      → get (put d key v) other ≡ get d other
  unfolding get put
  get-put_other [] key other v e = rw e refl
  get-put_other ((k, w) ∷ d) key other v e = ground (
    arith,
    get-put_other d key other v e,
    bytes_eq_iff k key,
    bytes_eq_iff k other,
    bytes_eq_iff key other,
  )

  -- A key has one entry at most.
  abbrev pub IsMap : Dict V → Type 0
  IsMap [] = Unit
  IsMap ((k, v) ∷ d) = (get d k ≡ none) × IsMap d

  pub put-IsMap : (d : Dict V) (key : Bytes) (v : V) → IsMap d → IsMap (put d key v)
  unfolding put get
  put-IsMap [] key v h = (refl, tt)
  put-IsMap ((k, w) ∷ d) key v h = ground (
    arith,
    put-IsMap d key v h.1,
    get-put_other d key k v,
    bytes_eq_iff k key,
    bytes_eq_iff key k,
  )

  pub get-erase :
      (d : Dict V) (key other : Bytes)
      → IsMap d
      → get (erase d key) other ≡ (if bytes_eq key other then none else get d other)
  unfolding erase get
  get-erase [] key other h = ground arith
  get-erase ((k, w) ∷ d) key other h = ground (
    arith,
    get-erase d key other h.1,
    bytes_eq_iff k key,
    bytes_eq_iff k other,
    bytes_eq_iff key other,
  )

  pub erase-IsMap : (d : Dict V) (key : Bytes) → IsMap d → IsMap (erase d key)
  unfolding erase
  erase-IsMap [] key h = tt
  erase-IsMap ((k, w) ∷ d) key h = ground (arith, erase-IsMap d key h.1, get-erase d key k h.1)
