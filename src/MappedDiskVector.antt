-- ===== src/MappedDiskVector.antt =====
-- eden/common/utils/MappedDiskVector.h: a vector of records of one size in a file that is mapped. The
-- calls of the operating system are answers that are given.
pub mod Bounds
pub mod Reopen
pub mod Migration
pub mod Tests
use edencommon.Common.{
  ℕ, zero, suc, ◌+◌, ◌-◌, ◌*◌, ◌/◌, ◌%◌, ◌^◌, ◌≡◌, max, Bool, true, false, ◌||◌, not, Option, none,
  some, List, [], ◌∷◌, ◌++◌, length, map, ltb, leb, ◌==◌, if◌then◌else◌, Result, ok, err,
}

abbrev pub page_size : ℕ
page_size = 4096

abbrev pub growth_in_pages : ℕ
growth_in_pages = 256

-- sizeof(Header)
abbrev pub header_size : ℕ
header_size = 32

abbrev pub magic_number : ℕ
magic_number = 5653581

-- roundUpToNonzeroPageSize
unfoldable pub round_up_to_nonzero_page_size : ℕ → ℕ
round_up_to_nonzero_page_size s =
    max page_size ((((s + page_size) - 1) % 2 ^ 64) / page_size * page_size)

-- MappedDiskVector::Header
pub record Header : Type 0 where
  pub magic : ℕ
  pub version : ℕ
  pub record_version : ℕ
  pub record_size : ℕ
  pub entry_count : ℕ
  pub unused : ℕ

-- T::VERSION and sizeof(T)
pub record RecordType : Type 0 where
  pub version : ℕ
  pub size : ℕ

-- What `open` throws up to the record types, and what it goes on with: the file is new, or has so many
-- records of T, or of the old version of that index.
pub data OpenError : Type 0 where
  read_failed incomplete_header invalid_header duplicate_version record_size_differs : OpenError
  old_record_size_differs unexpected_version : OpenError

pub data Opened : Type 0 where
  from_scratch : Opened
  loaded : ℕ → Opened
  migrates : ℕ → ℕ → Opened

-- The check of the header against the size of the file.
unfoldable pub is_invalid : Header → ℕ → Bool
is_invalid h file_size =
    not (magic_number == h.magic)
    || (not (h.version == 1)
        || (ltb file_size header_size
            || (h.record_size == 0
                || (ltb ((file_size - header_size) / h.record_size) h.entry_count
                    || not (h.unused == 0)))))

unfoldable pub has_version : ℕ → List RecordType → Bool
has_version v [] = false
has_version v (t ∷ ts) = if v == t.version then true else has_version v ts

-- The loops over `versions`
unfoldable pub has_duplicate : List RecordType → Bool
unfolding has_version
has_duplicate [] = false
has_duplicate (t ∷ ts) = if has_version t.version ts then true else has_duplicate ts

-- The loop over the old versions, from the one of index i on.
unfoldable pub find_old : Header → List RecordType → ℕ → Result OpenError Opened
find_old h [] i = err unexpected_version
find_old h (t ∷ ts) i =
    let rest = find_old h ts (i + 1) in
    if t.version == h.record_version
    then if t.size == h.record_size
      then ok (migrates i h.entry_count)
      else err old_record_size_differs
    else rest

-- `open` from the checks of the record types on.
unfoldable pub open_records : RecordType → List RecordType → Header → Result OpenError Opened
unfolding has_duplicate find_old
open_records t olds h =
    if has_duplicate (t ∷ olds)
    then err duplicate_version
    else if t.version == h.record_version
    then if t.size == h.record_size then ok (loaded h.entry_count) else err record_size_differs
    else find_old h olds 0

-- `open` from the check of the header on.
unfoldable pub open_header : RecordType → List RecordType → ℕ → Header → Result OpenError Opened
unfolding is_invalid open_records
open_header t olds file_size h =
    if is_invalid h file_size then err invalid_header else open_records t olds h

-- MappedDiskVector::open, after fstat has given the size of the file, with what pread gives. The lock and
-- the failures of the calls before are not in it.
unfoldable pub open_file :
    RecordType → List RecordType → ℕ → Option ℕ → Header → Result OpenError Opened
unfolding open_header
open_file t olds file_size read_bytes h =
    if file_size == 0 then ok from_scratch else elim read_bytes [
      | none ↦ err read_failed
      | some n ↦ if n == header_size then open_header t olds file_size h else err incomplete_header
    ]

-- The vector: the records from begin_ to end_, the size of the map, that of the file, and the count in
-- the header, which is in the map.
pub record MappedDiskVector (A : Type 0) : Type 0 where
  pub entries : List A
  pub map_size : ℕ
  pub file_size : ℕ
  pub entry_count : ℕ

-- How emplace_back ends: fallocate, mremap or madvise fails, or the constructor throws.
pub data Failure : Type 0 where
  extend_failed remap_failed populate_failed constructor_threw : Failure

module _ {A : Type 0} where
  -- The constructor, where its calls succeed; the records are those that the file holds.
  unfoldable pub mapped : ℕ → List A → MappedDiskVector A
  unfolding round_up_to_nonzero_page_size
  mapped file_size entries =
      let desired = round_up_to_nonzero_page_size file_size in
      record {
        entries = entries;
        map_size = desired;
        file_size = if file_size == desired then file_size else desired;
        entry_count = length entries;
      }

  -- initializeFromScratch
  unfoldable pub initialize_from_scratch : MappedDiskVector A
  unfolding mapped
  initialize_from_scratch = mapped (growth_in_pages * page_size) []

  -- The size of the records of A.
  module _ (record_size : ℕ) where
    abbrev pub size : MappedDiskVector A → ℕ
    size v = length v.entries

    unfoldable pub capacity : MappedDiskVector A → ℕ
    capacity v = (v.map_size - header_size) / record_size

    -- hasRoom
    abbrev pub has_room : MappedDiskVector A → ℕ → Bool
    has_room v amount = leb (header_size + (size v + amount) * record_size) v.map_size

    -- The growth of emplace_back, by the first of its calls that fails.
    unfoldable pub grow : Option Failure → MappedDiskVector A → MappedDiskVector A
    grow answer v =
        let new_size = (v.map_size + growth_in_pages * page_size) % 2 ^ 64 in
        elim answer [
          | some extend_failed ↦ v
          | some remap_failed ↦ record v { file_size = max v.file_size new_size }
          | _ ↦ record v { file_size = max v.file_size new_size; map_size = new_size }
        ]

    -- emplace_back: the new record, or the failure. Where there is room, the calls that grow the file are
    -- not made, and do not fail.
    unfoldable pub emplace_back :
        Option Failure → A → MappedDiskVector A → MappedDiskVector A × Option Failure
    unfolding grow
    emplace_back answer a v =
        let v' = if has_room v 1 then v else grow answer v in
        elim answer [
          | some f ↦ (v', some f)
          | none ↦ (
            record v' {
              entries = v'.entries ++ a ∷ [];
              entry_count = (v'.entry_count + 1) % 2 ^ 64;
            },
            none,
          )
        ]

    but_last : List A → List A
    but_last [] = []
    but_last (a ∷ rest) = let left = but_last rest in elim rest [ [] ↦ [] | b ∷ bs ↦ a ∷ left ]

    -- pop_back, of a vector that is not empty
    unfoldable pub pop_back : MappedDiskVector A → MappedDiskVector A
    unfolding but_last
    pop_back v = record v { entries = but_last v.entries; entry_count = v.entry_count - 1 }

-- Migrator::migrateFrom, of the old version of that index: `versions` are the constructors that take a
-- record of the old version after, which is a type of its own in the source.
unfoldable pub migrate_from : {R : Type 0} → List (R → R) → ℕ → (R → R) → List R → Option (List R)
migrate_from [] i convert original = none
migrate_from (first ∷ rest) zero convert original = some (map convert original)
migrate_from (first ∷ rest) (suc i) convert original =
    migrate_from rest i (λ from. convert (first from)) original
