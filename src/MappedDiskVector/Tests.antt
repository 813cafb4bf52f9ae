-- ===== src/MappedDiskVector/Tests.antt =====
-- Concrete files and vectors of records of 16 bytes, and the theorems there.
use edencommon.Common.{ℕ, ◌≡◌, refl, some, [], ◌∷◌, ok, arith}
use edencommon.MappedDiskVector.{
  Header, RecordType, loaded, migrates, MappedDiskVector, remap_failed, open_file, open_header,
  open_records, has_duplicate, find_old, emplace_back,
}
use edencommon.MappedDiskVector.Bounds.{Within, open_file-Within}
use edencommon.MappedDiskVector.Reopen.{
  Valid, Kept, emplace_back-Valid, header_of, open_file-header_of,
}

abbrev current : RecordType
current = record { version = 2; size = 16 }

abbrev old : RecordType
old = record { version = 1; size = 8 }

-- A header of three records of the old version.
abbrev three_old : Header
three_old = record {
  magic = 5653581;
  version = 1;
  record_version = 1;
  record_size = 8;
  entry_count = 3;
  unused = 0;
}

opens_old : open_file current (old ∷ []) 4096 (some 32) three_old ≡ ok (migrates 0 3)
unfolding open_file open_header open_records find_old
opens_old = refl

-- A page with two records, which fill it if they have 2032 bytes.
abbrev full : MappedDiskVector ℕ
full = record { entries = 1 ∷ 2 ∷ []; map_size = 4096; file_size = 4096; entry_count = 2 }

full-Valid : Valid 16 full
full-Valid = record { room = omega arith; pages = refl; in_file = omega arith; counted = refl }

open_file-Within_example : Within current (old ∷ []) 4096 (migrates 0 3)
open_file-Within_example =
    open_file-Within current (old ∷ []) 4096 (some 32) three_old (migrates 0 3) (omega arith)
      (unfold open_file in unfold open_header in unfold open_records in unfold find_old in refl)

emplace_back-Valid_example :
    let (v', f) = emplace_back 2032 (some remap_failed) 3 full in
    Valid 2032 v' × Kept 2032 f full 3 v'
emplace_back-Valid_example =
    emplace_back-Valid 2032 (some remap_failed) 3 full (omega arith) (omega arith) (omega arith)
      (record { room = omega arith; pages = refl; in_file = omega arith; counted = refl })

open_file-header_of_example :
    open_file current (old ∷ []) 4096 (some 32) (header_of current full) ≡ ok (loaded 2)
unfolding has_duplicate
open_file-header_of_example =
    open_file-header_of current (old ∷ []) full (omega arith) refl full-Valid
