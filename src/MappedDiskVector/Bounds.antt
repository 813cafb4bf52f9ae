-- ===== src/MappedDiskVector/Bounds.antt =====
-- The records lie inside the map, which lies inside the file.
use native.Mathlib.Nat.{mul-le-mul_right, div-mul-le_self}
use mathlib.Core.Path.{subst}
use edencommon.Common.{
  ℕ, zero, suc, ◌+◌, ◌-◌, ◌*◌, ◌/◌, ◌%◌, ◌^◌, ◌≤◌, ◌<◌, ◌≡◌, refl, sym, ◌∙◌, inl, inr, false,
  Option, none, some, List, [], ◌∷◌, ◌==◌, Result, ok, err, Bool-cases, Option-cases, arith,
}
use edencommon.MappedDiskVector.{
  page_size, header_size, old_record_size_differs, round_up_to_nonzero_page_size, Header,
  RecordType, OpenError, Opened, from_scratch, loaded, migrates, is_invalid, has_duplicate,
  find_old, open_file, open_header, open_records, read_failed, incomplete_header, invalid_header,
  duplicate_version, record_size_differs,
}

pub le-round_up :
    (s : ℕ)
    → s + page_size < 2 ^ 64
    → (s ≤ round_up_to_nonzero_page_size s) × (round_up_to_nonzero_page_size s % page_size ≡ 0)
unfolding round_up_to_nonzero_page_size
le-round_up s h = (omega (arith, h), omega (arith, h))

-- A header that passes the check.
pub valid-fits :
    (h : Header) (file_size : ℕ)
    → is_invalid h file_size ≡ false
    → header_size + h.entry_count * h.record_size ≤ file_size
unfolding is_invalid
valid-fits h file_size e =
    let le : h.entry_count ≤ (file_size - header_size) / h.record_size = ground arith in
    let big : header_size ≤ file_size = ground arith in
    omega (
      arith,
      big,
      mul-le-mul_right h.record_size le,
      div-mul-le_self (file_size - header_size) h.record_size,
    )

abbrev pub nth : List RecordType → ℕ → Option RecordType
nth [] i = none
nth (t ∷ ts) zero = some t
nth (t ∷ ts) (suc i) = nth ts i

-- What `open` goes on with is in the file, and so in the map.
abbrev pub Within : RecordType → List RecordType → ℕ → Opened → Type 0
Within t olds file_size from_scratch = file_size ≡ 0
Within t olds file_size (loaded count) =
    header_size + count * t.size ≤ round_up_to_nonzero_page_size file_size
Within t olds file_size (migrates i count) =
    (old : RecordType) × (nth olds i ≡ some old)
    × (header_size + count * old.size ≤ round_up_to_nonzero_page_size file_size)

ok-inj : {A : Type 0} {x y : A} → Path (Result OpenError A) (ok x) (ok y) → x ≡ y
ok-inj e = cc

-- What the search among the old versions, from those of index i on, finds.
Found : Header → List RecordType → ℕ → Opened → Type 0
Found h ts i from_scratch = ⊥
Found h ts i (loaded count) = ⊥
Found h ts i (migrates j count) =
    (d : ℕ) × (j ≡ i + d)
    × (count ≡ h.entry_count)
    × ((old : RecordType) × (nth ts d ≡ some old) × (old.size ≡ h.record_size))

Found-later :
    (h : Header) (t : RecordType) (ts : List RecordType) (i : ℕ) (o : Opened)
    → Found h ts (i + 1) o
    → Found h (t ∷ ts) i o
unfolding Found
Found-later h t ts i from_scratch f = absurd f
Found-later h t ts i (loaded count) f = absurd f
Found-later h t ts i (migrates j count) (d, p, q, rest) = (suc d, omega (arith, p), q, rest)

find_old-Found :
    (h : Header) (ts : List RecordType) (i : ℕ) (o : Opened)
    → find_old h ts i ≡ ok o
    → Found h ts i o
unfolding find_old Found
find_old-Found h [] i o e = cc
find_old-Found h (t ∷ ts) i o e = elim (Bool-cases (t.version == h.record_version)) [
  | inl f ↦ elim (Bool-cases (t.size == h.record_size)) [
    | inl g ↦
        let here : find_old h (t ∷ ts) i ≡ ok (migrates i h.entry_count) =
          rw (f, g, find_old) refl in
        subst (Found h (t ∷ ts) i) (ok-inj (sym here ∙ e))
          (0, omega arith, refl, (t, refl, ground arith))
    | inr g ↦
        let bad : find_old h (t ∷ ts) i ≡ err old_record_size_differs = rw (f, g, find_old) refl in
        cc
  ]
  | inr f ↦
      let later : find_old h (t ∷ ts) i ≡ find_old h ts (i + 1) = rw (f, find_old) refl in
      Found-later h t ts i o (find_old-Found h ts (i + 1) o (sym later ∙ e))
]

Found-Within :
    (t : RecordType) (olds : List RecordType) (file_size : ℕ) (h : Header) (o : Opened)
    → header_size + h.entry_count * h.record_size ≤ round_up_to_nonzero_page_size file_size
    → Found h olds 0 o
    → Within t olds file_size o
unfolding Found
Found-Within t olds file_size h from_scratch fits f = absurd f
Found-Within t olds file_size h (loaded count) fits f = absurd f
Found-Within t olds file_size h (migrates j count) fits (d, p, q, (old, at, same)) =
    let here : j ≡ d = omega (arith, p) in (old, rw here at, rw (q, same) fits)

open_records-Within :
    (t : RecordType) (olds : List RecordType) (file_size : ℕ) (h : Header) (o : Opened)
    → header_size + h.entry_count * h.record_size ≤ round_up_to_nonzero_page_size file_size
    → open_records t olds h ≡ ok o
    → Within t olds file_size o
unfolding open_records
open_records-Within t olds file_size h o fits e = elim (Bool-cases (has_duplicate (t ∷ olds))) [
  | inl a ↦
      let bad : open_records t olds h ≡ err duplicate_version = rw (open_records, a) refl in cc
  | inr a ↦ elim (Bool-cases (t.version == h.record_version)) [
    | inl b ↦ elim (Bool-cases (t.size == h.record_size)) [
      | inl c ↦
          let same : t.size ≡ h.record_size = ground arith in
          let here : open_records t olds h ≡ ok (loaded h.entry_count) =
            rw (open_records, a, b, c) refl in
          subst (Within t olds file_size) (ok-inj (sym here ∙ e)) (rw same fits)
      | inr c ↦
          let bad : open_records t olds h ≡ err record_size_differs =
            rw (open_records, a, b, c) refl in
          cc
    ]
    | inr b ↦
        let found : open_records t olds h ≡ find_old h olds 0 = rw (open_records, a, b) refl in
        Found-Within t olds file_size h o fits (find_old-Found h olds 0 o (sym found ∙ e))
  ]
]

-- What `open` goes on with, on a file of that size: where records are loaded, their number times the size
-- of a record, after the header, is within the map that the constructor makes, so that its check of the
-- end cannot fail; where records are migrated, the same holds with the size of the old record at the index.
pub open_file-Within :
    (t : RecordType) (olds : List RecordType) (file_size : ℕ) (read_bytes : Option ℕ) (h : Header)
    (o : Opened)
    → file_size + page_size < 2 ^ 64
    → open_file t olds file_size read_bytes h ≡ ok o
    → Within t olds file_size o
unfolding open_file
open_file-Within t olds file_size read_bytes h o l e = elim (Bool-cases (file_size == 0)) [
  | inl a ↦
      let here : open_file t olds file_size read_bytes h ≡ ok from_scratch =
        rw (open_file, a) refl in
      let empty : file_size ≡ 0 = ground arith in
      subst (Within t olds file_size) (ok-inj (sym here ∙ e)) empty
  | inr a ↦ elim (Option-cases read_bytes) [
    | inl b ↦
        let bad : open_file t olds file_size read_bytes h ≡ err read_failed =
          rw (open_file, a, b) refl in
        cc
    | inr (n, b) ↦ elim (Bool-cases (n == header_size)) [
      | inl c ↦ elim (Bool-cases (is_invalid h file_size)) [
        | inl d ↦
            let bad : open_file t olds file_size read_bytes h ≡ err invalid_header =
              rw (open_file, a, b, c, open_header, d) refl in
            cc
        | inr d ↦
            let rest : open_file t olds file_size read_bytes h ≡ open_records t olds h =
              rw (open_file, a, b, c, open_header, d) refl in
            open_records-Within t olds file_size h o
              (omega (arith, valid-fits h file_size d, (le-round_up file_size l).0)) (sym rest ∙ e)
      ]
      | inr c ↦
          let bad : open_file t olds file_size read_bytes h ≡ err incomplete_header =
            rw (open_file, a, b, c) refl in
          cc
    ]
  ]
]
