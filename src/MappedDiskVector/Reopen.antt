-- ===== src/MappedDiskVector/Reopen.antt =====
-- What the operations keep, and that a file that is opened again has the records that were written.
use native.Mathlib.Nat.{add-mul, mul-le-mul_right, le-mul_of_pos_right, le-div_iff_mul-le}
use edencommon.Common.{
  ℕ, ◌+◌, ◌-◌, ◌*◌, ◌/◌, ◌%◌, ◌^◌, ◌≤◌, ◌<◌, ◌≡◌, refl, ap, inl, inr, true, false, Option, none,
  some, List, [], ◌∷◌, ◌++◌, length, ltb, ◌==◌, ok, Bool-cases, arith, length-append,
}
use edencommon.MappedDiskVector.{
  page_size, growth_in_pages, header_size, magic_number, Header, RecordType, loaded, is_invalid,
  has_duplicate, open_file, open_header, open_records, MappedDiskVector, Failure, extend_failed,
  remap_failed, populate_failed, constructor_threw, grow, has_room, emplace_back, pop_back,
  but_last,
}

product-suc : (n k : ℕ) → (n + 1) * k ≡ n * k + k
product-suc n k = omega (arith, add-mul n 1 k)

le-product : (n k : ℕ) → 0 < k → n ≤ n * k
le-product n k h = le-mul_of_pos_right n h

module _ {A : Type 0} (record_size : ℕ) where
  -- The records are inside the map, the map is whole pages of the file, and the header counts the
  -- records.
  pub record Valid (v : MappedDiskVector A) : Type 0 where
    pub room : header_size + length v.entries * record_size ≤ v.map_size
    pub pages : v.map_size % page_size ≡ 0
    pub in_file : v.map_size ≤ v.file_size
    pub counted : v.entry_count ≡ length v.entries

  -- The records after a call.
  abbrev pub Kept : Option Failure → MappedDiskVector A → A → MappedDiskVector A → Type 0
  Kept none v a v' = v'.entries ≡ v.entries ++ a ∷ []
  Kept (some f) v a v' = (v'.entries ≡ v.entries) × (v'.entry_count ≡ v.entry_count)

  grown :
      (v : MappedDiskVector A)
      → v.map_size + growth_in_pages * page_size < 2 ^ 64
      → Valid v
      → Valid (grow record_size none v)
  unfolding grow
  grown v h w = record {
    room = omega (arith, w.room, h);
    pages = omega (arith, w.pages, h);
    in_file = omega arith;
    counted = w.counted;
  }

  grow-Valid :
      (answer : Option Failure) (v : MappedDiskVector A)
      → v.map_size + growth_in_pages * page_size < 2 ^ 64
      → Valid v
      → Valid (grow record_size answer v)
  unfolding grow
  grow-Valid none v h w = grown v h w
  grow-Valid (some extend_failed) v h w = w
  grow-Valid (some remap_failed) v h w = record {
    room = w.room;
    pages = w.pages;
    in_file = omega (arith, w.in_file);
    counted = w.counted;
  }
  grow-Valid (some populate_failed) v h w = grown v h w
  grow-Valid (some constructor_threw) v h w = grown v h w

  append-Valid :
      (v : MappedDiskVector A) (a : A)
      → Valid v
      → header_size + (length v.entries + 1) * record_size ≤ v.map_size
      → v.map_size < 2 ^ 64
      → 0 < record_size
      → Valid
          (record v { entries = v.entries ++ a ∷ []; entry_count = (v.entry_count + 1) % 2 ^ 64 })
  append-Valid v a w fits small pos =
      let one : length (v.entries ++ a ∷ []) ≡ length v.entries + 1 =
        omega (arith, length-append v.entries (a ∷ [])) in
      record {
        room = rw one fits;
        pages = w.pages;
        in_file = w.in_file;
        counted =
            omega (
              arith,
              one,
              w.counted,
              fits,
              small,
              le-product (length v.entries + 1) record_size pos,
            );
      }

  kept_entries :
      (f : Failure) (v : MappedDiskVector A)
      → ((grow record_size (some f) v).entries ≡ v.entries)
        × ((grow record_size (some f) v).entry_count ≡ v.entry_count)
  unfolding grow
  kept_entries extend_failed v = (refl, refl)
  kept_entries remap_failed v = (refl, refl)
  kept_entries populate_failed v = (refl, refl)
  kept_entries constructor_threw v = (refl, refl)

  -- emplace_back, however it ends: the records stay inside the map, the map stays whole pages of the
  -- file, and the header counts the records; where it succeeds, the new record is behind the others, and
  -- where it fails, the records and the count are as they were. This is so where a record is no larger
  -- than the growth allows, and the map does not reach the end of the address space.
  pub emplace_back-Valid :
      (answer : Option Failure) (a : A) (v : MappedDiskVector A)
      → 0 < record_size
      → record_size ≤ growth_in_pages * page_size
      → v.map_size + growth_in_pages * page_size < 2 ^ 64
      → Valid v
      → (let (v', f) = emplace_back record_size answer a v in Valid v' × Kept f v a v')
  unfolding emplace_back
  emplace_back-Valid none a v pos small h w = elim (Bool-cases (has_room record_size v 1)) [
    | inl r ↦ rw r (append-Valid v a w (ground arith) (omega (arith, h)) pos, refl)
    | inr r ↦ rw r (
      unfold grow in
          append-Valid (grow record_size none v) a (grown v h w)
            (omega (arith, w.room, h, small, product-suc (length v.entries) record_size))
            (omega (arith, h)) pos,
      unfold grow in refl,
    )
  ]
  emplace_back-Valid (some f) a v pos small h w = elim (Bool-cases (has_room record_size v 1)) [
    | inl r ↦ rw r (w, (refl, refl))
    | inr r ↦ rw r (grow-Valid (some f) v h w, kept_entries f v)
  ]

  length-but_last : (xs : List A) → length (but_last record_size xs) ≡ length xs - 1
  unfolding but_last
  length-but_last [] = refl
  length-but_last (x ∷ []) = refl
  length-but_last (x ∷ y ∷ ys) = omega (arith, length-but_last (y ∷ ys))

  pub pop_back-Valid : (v : MappedDiskVector A) → Valid v → Valid (pop_back record_size v)
  unfolding pop_back
  pop_back-Valid v w = record {
    room = omega (
      arith,
      w.room,
      length-but_last v.entries,
      mul-le-mul_right record_size (
          let fewer : length (but_last record_size v.entries) ≤ length v.entries =
            omega (arith, length-but_last v.entries) in
          fewer),
    );
    pages = w.pages;
    in_file = w.in_file;
    counted = omega (arith, w.counted, length-but_last v.entries);
  }

-- The header in the map of a vector of that type.
abbrev pub header_of : {A : Type 0} → RecordType → MappedDiskVector A → Header
header_of t v = record {
  magic = magic_number;
  version = 1;
  record_version = t.version;
  record_size = t.size;
  entry_count = v.entry_count;
  unused = 0;
}

-- A file that holds the header and the records of a vector is opened again with all of them, where the
-- record types have different versions.
pub open_file-header_of :
    {A : Type 0} (t : RecordType) (olds : List RecordType) (v : MappedDiskVector A)
    → 0 < t.size
    → has_duplicate (t ∷ olds) ≡ false
    → Valid t.size v
    → open_file t olds v.file_size (some header_size) (header_of t v)
      ≡ ok (loaded (length v.entries))
unfolding open_file open_header open_records is_invalid
open_file-header_of t olds v pos distinct w =
    let some_bytes : (v.file_size == 0) ≡ false = ground (arith, w.room, w.in_file) in
    let big : ltb v.file_size header_size ≡ false = ground (arith, w.room, w.in_file) in
    let sized : (t.size == 0) ≡ false = ground (arith, pos) in
    let few : ltb ((v.file_size - header_size) / t.size) v.entry_count ≡ false =
      not_more ((v.file_size - header_size) / t.size) v.entry_count
        (fits (omega (arith, w.room, w.in_file, ap (λ n. n * t.size) w.counted))) in
    rw (some_bytes, big, sized, few, distinct, eq_self t.version, eq_self t.size, w.counted) refl
  where
    not_more : (a b : ℕ) → b ≤ a → ltb a b ≡ false
    not_more a b h = ground arith

    eq_self : (n : ℕ) → (n == n) ≡ true
    eq_self n = ground arith

    fits :
        v.entry_count * t.size ≤ v.file_size - header_size
        → v.entry_count ≤ (v.file_size - header_size) / t.size
    fits h = (le-div_iff_mul-le pos).1 h
