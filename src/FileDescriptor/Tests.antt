-- ===== src/FileDescriptor/Tests.antt =====
-- Writes in parts, and the theorems there.
use edencommon.Common.{ℕ, ◌<◌, ◌≡◌, refl, true, false, some, List, [], ◌∷◌, ok, err, arith}
use edencommon.Text.{Bytes}
use edencommon.FileDescriptor.{
  Answer, interrupted, failed, moved, wrap_full, read_full, read_no_int, write_no_int, write_full,
  writev_full, pass,
}
use edencommon.FileDescriptor.Full.{write_full-all}
use edencommon.FileDescriptor.Vectors.{Ends, Gives, writev_full-concat}

-- A call that is interrupted when nothing is left ends the loop.
nothing_left : wrap_full {E = ℕ} true false (interrupted ∷ []) 0 5 ≡ some (ok 5)
unfolding wrap_full
nothing_left = refl

-- The end of the file comes before the end of the buffer.
short_read : read_full {E = ℕ} (moved 3 ∷ interrupted ∷ moved 0 ∷ []) 10 ≡ some (ok 3)
unfolding read_full
short_read = refl

-- One call that is not interrupted is all.
one_read : read_no_int {E = ℕ} (interrupted ∷ moved 3 ∷ []) 10 ≡ some (ok 3)
unfolding read_no_int
one_read = refl

one_write : write_no_int {E = ℕ} (failed 4 ∷ []) 10 ≡ some (err 4)
unfolding write_no_int
one_write = refl

write_full-all_example :
    write_full {E = ℕ} (moved 2 ∷ interrupted ∷ moved 0 ∷ moved 3 ∷ []) 5 ≡ some (ok 5)
write_full-all_example =
    write_full-all (moved 2 ∷ interrupted ∷ moved 0 ∷ moved 3 ∷ []) 5 tt (omega arith) refl

-- Buffers of which the last is empty, and their bytes in two parts.
abbrev buffers : List Bytes
buffers = (1 ∷ 2 ∷ []) ∷ (3 ∷ 4 ∷ 5 ∷ []) ∷ [] ∷ []

abbrev parts : List (Answer ℕ)
parts = moved 3 ∷ interrupted ∷ moved 2 ∷ moved 0 ∷ moved 0 ∷ moved 0 ∷ moved 0 ∷ []

-- The trailing buffer costs one call more.
all_parts : writev_full 1024 parts buffers [] ≡ some (ok (1 ∷ 2 ∷ 3 ∷ 4 ∷ 5 ∷ []))
unfolding writev_full
all_parts = refl

-- As many empty buffers as the system takes at once end the loop before the bytes after them.
empty_in_front : writev_full {E = ℕ} 1 (moved 0 ∷ []) ([] ∷ (1 ∷ []) ∷ []) [] ≡ some (ok [])
unfolding writev_full
empty_in_front = refl

ends : Gives 1024 {E = ℕ} (moved 0 ∷ moved 0 ∷ moved 0 ∷ moved 0 ∷ []) ([] ∷ [])
unfolding pass
ends =
    let none : 0 < 0 → 0 < 0 = λ p. p in
    (omega arith, none, (omega arith, none, (omega arith, none, (omega arith, none, tt))))

writev_full-concat_example : Ends 1024 (writev_full {E = ℕ} 1024 parts buffers []) buffers []
unfolding pass
writev_full-concat_example =
    writev_full-concat 1024 parts buffers (omega arith)
      (omega arith, (λ _. omega arith), (omega arith, (λ _. omega arith), ends)) (omega arith)
