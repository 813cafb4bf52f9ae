-- ===== src/BucketedLog.antt =====
-- eden/common/utils/BucketedLog.h. The array of `Size` buckets is a function of the index, of which
-- the values below `Size` count; a time is a `uint64_t`.
pub mod Window
pub mod Refine
pub mod Tests
use edencommon.Common.{
  ℕ, zero, suc, ◌+◌, ◌-◌, ◌%◌, ◌^◌, ◌≡◌, min, Bool, true, false, ◌&&◌, not, List, [], ◌∷◌, ◌==◌,
  ltb, leb, if◌then◌else◌,
}

-- What the template asks of `Bucket`: a default value, and three methods.
pub record BucketOps (Bucket Sample : Type 0) : Type 0 where
  pub fresh : Bucket
  pub add : Bucket → Sample → Bucket
  pub merge : Bucket → Bucket → Bucket
  pub clear : Bucket → Bucket
  -- clear() empties the bucket.
  pub clear_fresh : (b : Bucket) → clear b ≡ fresh

-- uint64_t arithmetic.
abbrev pub word : ℕ
word = 2 ^ 64

pub add64 : ℕ → ℕ → ℕ
add64 a b = (a + b) % word

pub sub64 : ℕ → ℕ → ℕ
sub64 a b = (a + word - b) % word

pub record BucketedLog (Bucket : Type 0) : Type 0 where
  pub buckets : ℕ → Bucket
  pub window_start : ℕ

abbrev pub update {ℓ} : {A : Type ℓ} → (ℕ → A) → ℕ → A → ℕ → A
update f k v j = if j == k then v else f j

module _ {Bucket Sample : Type 0} (ops : BucketOps Bucket Sample) (size : ℕ) where
  -- A log as it is constructed.
  pub init : BucketedLog Bucket
  init = record { buckets = λ _. ops.fresh; window_start = 0 }

  -- for (p = newWindowStart - toClear; p < newWindowStart; ++p), by the rounds that are left.
  clear_loop : ℕ → ℕ → (ℕ → Bucket) → ℕ → Bucket
  clear_loop zero p buckets = buckets
  clear_loop (suc n) p buckets =
      clear_loop n (p + 1) (update buckets (p % size) (ops.clear (buckets (p % size))))

  -- advanceWindow
  pub advance_window : BucketedLog Bucket → ℕ → BucketedLog Bucket
  unfolding clear_loop add64 sub64
  advance_window log now =
      if ltb now (add64 log.window_start size)
      then log
      else let new_start = sub64 (add64 now 1) size in
        let to_clear = min size (sub64 new_start log.window_start) in
        record {
          buckets =
              clear_loop (new_start - sub64 new_start to_clear) (sub64 new_start to_clear)
                log.buckets;
          window_start = new_start;
        }

  -- add
  pub add : BucketedLog Bucket → ℕ → Sample → BucketedLog Bucket
  unfolding advance_window
  add log now sample =
      if ltb now log.window_start
      then log
      else let advanced = advance_window log now in
        record advanced {
          buckets =
              update advanced.buckets (now % size) (ops.add (advanced.buckets (now % size)) sample);
        }

  -- The loop of getAll from `b` on, by the rounds that are left.
  read_loop : ℕ → ℕ → (ℕ → Bucket) → List Bucket
  read_loop zero b buckets = []
  read_loop (suc n) b buckets = buckets (b % size) ∷ read_loop n (add64 b 1) buckets

  -- getAll
  pub get_all : BucketedLog Bucket → ℕ → BucketedLog Bucket × List Bucket
  unfolding advance_window read_loop add64
  get_all log now =
      let advanced = advance_window log now in
      (advanced, read_loop size (add64 now 1) advanced.buckets)

  -- The loop of merge from `i` on, by the rounds that are left.
  merge_loop : ℕ → ℕ → BucketedLog Bucket → (ℕ → Bucket) → ℕ → Bucket
  unfolding add64
  merge_loop zero i other buckets = buckets
  merge_loop (suc n) i other buckets = merge_loop n (i + 1) other (
      if leb other.window_start i && ltb i (add64 other.window_start size)
      then update buckets (i % size) (ops.merge (buckets (i % size)) (other.buckets (i % size)))
      else buckets)

  -- merge
  pub merge : BucketedLog Bucket → BucketedLog Bucket → BucketedLog Bucket
  unfolding advance_window merge_loop add64 sub64
  merge log other =
      let advanced = advance_window log (sub64 (add64 other.window_start size) 1) in
      record advanced {
        buckets =
            merge_loop (add64 advanced.window_start size - advanced.window_start)
              advanced.window_start other advanced.buckets;
      }

  -- clear: the window stays where it is.
  pub clear : BucketedLog Bucket → BucketedLog Bucket
  clear log = record log { buckets = λ i. ops.clear (log.buckets i) }
