-- ===== src/BucketedLog/Refine.antt =====
-- BucketedLog against its abstract view: a bucket for each time, fresh outside the window.
use native.Mathlib.Nat.{mod-eq-sub-mod}
use mathlib.Core.Path.{ap₂}
use edencommon.Common.{
  ℕ, zero, suc, ◌+◌, ◌-◌, ◌%◌, ◌≤◌, ◌<◌, ◌≡◌, ◌≢◌, refl, sym, ap, ◌∙◌, max, ◌&&◌, inl, inr, List,
  [], ◌∷◌, ◌==◌, ltb, leb, if◌then◌else◌, arith, Bool-cases,
}
use edencommon.BucketedLog.{
  BucketOps, BucketedLog, word, add64, sub64, advance_window, add, read_loop, get_all, merge_loop,
  merge,
}
use edencommon.BucketedLog.Window.{
  Fits, view, start_at, mod-ne, add64-eq, sub64-eq, advance_window-start, view-advance_window,
}

module _ {Bucket Sample : Type 0} (ops : BucketOps Bucket Sample) (size : ℕ)
    (some_bucket : 0 < size) where
  -- In a log of at least one bucket, whose window ends below 2 ^ 64, and for a time `now` whose
  -- successor lies below it: a sample older than the window is ignored. Any other moves the window
  -- on to its time and is added to the bucket of that time; the other times that the window still
  -- holds keep theirs, and any other time has a fresh bucket.
  pub view-add :
      (log : BucketedLog Bucket) (now : ℕ) (sample : Sample) (t : ℕ)
      → Fits ops size log
      → now + 1 < word
      → view ops size (add ops size log now sample) t ≡ (
          if ltb now log.window_start
          then view ops size log t
          else if t == now
          then ops.add (view ops size log now) sample
          else if leb (start_at ops size log now) t
          then view ops size log t
          else ops.fresh)
  unfolding add
  view-add log now sample t fits room = ground (
    arith,
    advance_window-start ops size log now fits room,
    view-advance_window ops size log now fits room t,
    view-advance_window ops size log now fits room now,
    mod-ne size t now,
    mod-ne size now t,
    ap (λ x. x % size) {x = t} {y = now},
  )

  -- The buckets of `n` times in a row, the first of them `size` before `b`; none is before 0.
  abbrev pub recent : BucketedLog Bucket → ℕ → ℕ → List Bucket
  recent log zero b = []
  recent log (suc n) b =
      (if leb size b then view ops size log (b - size) else ops.fresh) ∷ recent log n (b + 1)

  -- No bucket of a time after `now` holds anything.
  abbrev pub IsCurrent : BucketedLog Bucket → ℕ → Type 0
  IsCurrent log now = (t : ℕ) → now < t → view ops size log t ≡ ops.fresh

  read_one :
      (log : BucketedLog Bucket) (now b : ℕ)
      → Fits ops size log
      → now + 1 < word
      → IsCurrent log now
      → log.window_start ≤ now
      → now < b
      → b ≤ now + size
      → (advance_window ops size log now).buckets (b % size)
        ≡ (if leb size b then view ops size log (b - size) else ops.fresh)
  read_one log now b fits room current start from to = ground (
    arith,
    advance_window-start ops size log now fits room,
    view-advance_window ops size log now fits room b,
    view-advance_window ops size log now fits room (b - size),
    current b,
    wrap,
  )
    where
      wrap : size ≤ b → b % size ≡ (b - size) % size
      wrap h = mod-eq-sub-mod h

  read_loop-recent :
      (log : BucketedLog Bucket) (now n b : ℕ)
      → Fits ops size log
      → now + size + 1 < word
      → IsCurrent log now
      → log.window_start ≤ now
      → now < b
      → b + n ≡ now + 1 + size
      → read_loop ops size n b (advance_window ops size log now).buckets ≡ recent log n b
  unfolding read_loop
  read_loop-recent log now zero b fits room current start from to = refl
  read_loop-recent log now (suc n) b fits room current start from to =
      rw (add64-eq b 1 (omega arith)) (
        ap₂ ◌∷◌ (read_one log now b fits (omega arith) current start from (omega arith))
          (read_loop-recent log now n (b + 1) fits room current start (omega arith) (omega arith)))

  -- Of a log of at least one bucket, whose window ends below 2 ^ 64 and starts at `now` or before,
  -- and that holds nothing of a time after `now`, getAll returns the buckets of the last `size`
  -- times in order, that of `now` last, as long as now + size + 1 lies below 2 ^ 64.
  pub get_all-recent :
      (log : BucketedLog Bucket) (now : ℕ)
      → Fits ops size log
      → now + size + 1 < word
      → IsCurrent log now
      → log.window_start ≤ now
      → (get_all ops size log now).1 ≡ recent log size (now + 1)
  unfolding get_all
  get_all-recent log now fits room current start =
      ap (λ b. read_loop ops size size b (advance_window ops size log now).buckets)
        (add64-eq now 1 (omega arith))
      ∙ (read_loop-recent log now size (now + 1) fits room current start (omega arith)
          (omega arith))

  merge_loop-outside :
      (n i k : ℕ) (other : BucketedLog Bucket) (buckets : ℕ → Bucket)
      → ((j : ℕ) → i ≤ j → j < i + n → j % size ≢ k)
      → merge_loop ops size n i other buckets k ≡ buckets k
  unfolding merge_loop
  merge_loop-outside zero i k other buckets h = refl
  merge_loop-outside (suc n) i k other buckets h =
      merge_loop-outside n (i + 1) k other _ (λ j from to. h j (omega arith) (omega arith))
      ∙ ground (arith, h i)

  merge_loop-inside :
      (n i t : ℕ) (other : BucketedLog Bucket) (buckets : ℕ → Bucket)
      → n ≤ size
      → i ≤ t
      → t < i + n
      → Fits ops size other
      → merge_loop ops size n i other buckets (t % size) ≡ (
          if leb other.window_start t && ltb t (other.window_start + size)
          then ops.merge (buckets (t % size)) (other.buckets (t % size))
          else buckets (t % size))
  unfolding merge_loop
  merge_loop-inside zero i t other buckets h from to fits = absurd (omega arith)
  merge_loop-inside (suc n) i t other buckets h from to fits = elim (Bool-cases (i == t)) [
    | inl e ↦
        let e' : i ≡ t = ground arith in
        merge_loop-outside n (i + 1) (t % size) other _
          (λ j f g q. mod-ne size t j (omega arith) (omega arith) (sym q))
        ∙ rw (add64-eq other.window_start size fits, e') (ground arith)
    | inr e ↦
        merge_loop-inside n (i + 1) t other _ (omega arith) (ground arith) (omega arith) fits
        ∙ ground (arith, add64-eq other.window_start size fits, mod-ne size i t)
  ]

  -- Where the window of a merged log starts.
  abbrev pub start_of_both : BucketedLog Bucket → BucketedLog Bucket → ℕ
  start_of_both log other = max log.window_start other.window_start

  module _ (log other : BucketedLog Bucket) (fits : Fits ops size log)
      (fits' : Fits ops size other) where
    reached : ℕ
    reached = other.window_start + size - 1

    reached_lem : sub64 (add64 other.window_start size) 1 ≡ reached
    unfolding reached
    reached_lem =
        rw (add64-eq other.window_start size fits')
          (sub64-eq (other.window_start + size) 1 (omega arith) fits')

    moved : BucketedLog Bucket
    moved = advance_window ops size log reached

    moved-start : moved.window_start ≡ start_of_both log other
    unfolding moved reached
    moved-start =
        advance_window-start ops size log (other.window_start + size - 1) fits (omega arith)
        ∙ omega arith

    merge_lem :
        merge ops size log other
        ≡ record moved { buckets = merge_loop ops size size moved.window_start other moved.buckets }
    unfolding merge moved
    merge_lem =
        ap (λ r. written (advance_window ops size log r)) reached_lem
        ∙ ap
            (λ n. record moved {
              buckets = merge_loop ops size n moved.window_start other moved.buckets;
            })
            rounds
      where
        written : BucketedLog Bucket → BucketedLog Bucket
        written m = record m {
          buckets =
              merge_loop ops size (add64 m.window_start size - m.window_start) m.window_start other
                m.buckets;
        }

        rounds : add64 moved.window_start size - moved.window_start ≡ size
        rounds =
            let room : moved.window_start + size < word = rw moved-start (omega arith) in
            rw (add64-eq moved.window_start size room) (omega arith)

    view-moved :
        (t : ℕ)
        → view ops size moved t
          ≡ (if leb (start_of_both log other) t then view ops size log t else ops.fresh)
    unfolding moved reached
    view-moved t =
        view-advance_window ops size log (other.window_start + size - 1) fits (omega arith) t
        ∙ ap (λ s. if leb s t then view ops size log t else ops.fresh) (omega arith)

    -- For two logs of at least one bucket whose windows end below 2 ^ 64, merging moves the window on
    -- to the later of the two. In it the times that the other log still holds get its bucket merged
    -- in, and the others keep theirs; a time outside it has a fresh bucket.
    pub view-merge :
        (t : ℕ)
        → view ops size (merge ops size log other) t ≡ (
            if leb (start_of_both log other) t && ltb t (start_of_both log other + size)
            then if leb other.window_start t && ltb t (other.window_start + size)
              then ops.merge (view ops size log t) (view ops size other t)
              else view ops size log t
            else ops.fresh)
    view-merge t = rw merge_lem (
        ground (
          arith,
          moved-start,
          view-moved t,
          merge_loop-inside size moved.window_start t other moved.buckets,
        ))
