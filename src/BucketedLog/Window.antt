-- ===== src/BucketedLog/Window.antt =====
-- The times that a log keeps, the bucket of each, and what advanceWindow does to them.
use native.Mathlib.Nat.{div-add-mod, mod-lt, mod-eq-sub-mod, mod-eq_of_lt, mul-le-mul_left}
use edencommon.Common.{
  ℕ, zero, suc, ◌+◌, ◌-◌, ◌*◌, ◌/◌, ◌%◌, ◌≤◌, ◌<◌, ◌≡◌, ◌≢◌, refl, sym, ap, ◌∙◌, min, max, true,
  false, ◌&&◌, inl, inr, ◌==◌, ltb, leb, if◌then◌else◌, arith, Bool-cases,
}
use edencommon.BucketedLog.{BucketOps, BucketedLog, word, add64, sub64, clear_loop, advance_window}

-- Less than a round apart, two different times have different buckets.
pub mod-ne : (size a b : ℕ) → a < b → b < a + size → a % size ≢ b % size
mod-ne size a b h k e = elim (Bool-cases (ltb (a / size) (b / size))) [
  | inl q ↦ omega (
    arith,
    div-add-mod a size,
    div-add-mod b size,
    more q,
    mod-lt a {m = size} (omega arith),
    mod-lt b {m = size} (omega arith),
  )
  | inr q ↦ omega (arith, div-add-mod a size, div-add-mod b size, less q)
]
  where
    more : ltb (a / size) (b / size) ≡ true → size * (a / size) + size ≤ size * (b / size)
    more q = omega (arith, mul-le-mul_left {m = a / size + 1} {n = b / size} size (ground arith))

    less : ltb (a / size) (b / size) ≡ false → size * (b / size) ≤ size * (a / size)
    less q = mul-le-mul_left size (ground arith)

pub add64-eq : (a b : ℕ) → a + b < word → add64 a b ≡ a + b
unfolding add64
add64-eq a b h = mod-eq_of_lt h

pub sub64-eq : (a b : ℕ) → b ≤ a → a < word → sub64 a b ≡ a - b
unfolding sub64
sub64-eq a b h k = omega arith

ltb-false : (a b : ℕ) → b ≤ a → ltb a b ≡ false
ltb-false a b h = ground arith

module _ {Bucket Sample : Type 0} (ops : BucketOps Bucket Sample) (size : ℕ) where
  -- The times of the window lie below the end of the clock.
  abbrev pub Fits : BucketedLog Bucket → Type 0
  Fits log = log.window_start + size < word

  -- The bucket of a time. Outside the window it is the fresh one.
  abbrev pub view : BucketedLog Bucket → ℕ → Bucket
  view log t =
      if leb log.window_start t && ltb t (log.window_start + size)
      then log.buckets (t % size)
      else ops.fresh

  -- Where the window starts once the clock has reached `now`.
  abbrev pub start_at : BucketedLog Bucket → ℕ → ℕ
  start_at log now = max log.window_start (now + 1 - size)

  clear_loop-outside :
      (n p k : ℕ) (buckets : ℕ → Bucket)
      → ((j : ℕ) → p ≤ j → j < p + n → j % size ≢ k)
      → clear_loop ops size n p buckets k ≡ buckets k
  unfolding clear_loop
  clear_loop-outside zero p k buckets h = refl
  clear_loop-outside (suc n) p k buckets h =
      clear_loop-outside n (p + 1) k _ (λ j from to. h j (omega arith) (omega arith))
      ∙ ground (arith, h p)

  clear_loop-inside :
      (n p t : ℕ) (buckets : ℕ → Bucket)
      → n ≤ size
      → p ≤ t
      → t < p + n
      → clear_loop ops size n p buckets (t % size) ≡ ops.fresh
  unfolding clear_loop
  clear_loop-inside zero p t buckets h from to = absurd (omega arith)
  clear_loop-inside (suc n) p t buckets h from to = elim (Bool-cases (p == t)) [
    | inl e ↦
        let e' : p ≡ t = ground arith in
        clear_loop-outside n (p + 1) (t % size) _
          (λ j f g. λ q. mod-ne size t j (omega arith) (omega arith) (sym q))
        ∙ ground (arith, ops.clear_fresh (buckets (p % size)), ap (λ r. r % size) e')
    | inr e ↦ clear_loop-inside n (p + 1) t _ (omega arith) (ground arith) (omega arith)
  ]

  module _ (log : BucketedLog Bucket) (now : ℕ) (fits : Fits log) (room : now + 1 < word) where
    advance_window-still : now < log.window_start + size → advance_window ops size log now ≡ log
    unfolding advance_window
    advance_window-still h = ground (arith, add64-eq log.window_start size fits)

    -- How many buckets are cleared where the window moves on.
    cleared : ℕ
    cleared = min size (now + 1 - size - log.window_start)

    advance_window-moved :
        log.window_start + size ≤ now
        → advance_window ops size log now ≡ record {
          buckets = clear_loop ops size cleared (now + 1 - size - cleared) log.buckets;
          window_start = now + 1 - size;
        }
    unfolding advance_window cleared
    advance_window-moved h =
        rw
          (
            add64-eq log.window_start size fits,
            ltb-false now (log.window_start + size) h,
            add64-eq now 1 room,
            sub64-eq (now + 1) size (omega arith) room,
            sub64-eq (now + 1 - size) log.window_start (omega arith) (omega arith),
            sub64-eq (now + 1 - size) (min size (now + 1 - size - log.window_start)) (omega arith)
                (omega arith),
          )
          (ap
            (λ n. record {
              buckets = clear_loop ops size n (now + 1 - size - cleared) log.buckets;
              window_start = now + 1 - size;
            })
            rounds)
      where
        rounds : now + 1 - size - (now + 1 - size - cleared) ≡ cleared
        rounds = omega arith

    pub advance_window-start : (advance_window ops size log now).window_start ≡ start_at log now
    advance_window-start = elim (Bool-cases (ltb now (log.window_start + size))) [
      | inl e ↦ rw (advance_window-still (ground arith)) (ground arith)
      | inr e ↦ rw (advance_window-moved (ground arith)) (ground arith)
    ]

    -- The bucket of a time in the window after the move.
    moved_bucket :
        (t : ℕ)
        → log.window_start + size ≤ now
        → now + 1 - size ≤ t
        → t ≤ now
        → (advance_window ops size log now).buckets (t % size) ≡ view log t
    moved_bucket t h from to =
        rw (advance_window-moved h) (elim (Bool-cases (ltb t (log.window_start + size))) [
          | inl e ↦
              clear_loop-outside cleared (now + 1 - size - cleared) (t % size) log.buckets (λ j f g.
                mod-ne size j t (unfold cleared in omega arith) (unfold cleared in ground arith))
              ∙ ground arith
          | inr e ↦
              let outside : view log t ≡ ops.fresh = ground arith in
              rw (outside, mod-eq-sub-mod {n = t} {m = size} (ground arith))
                (clear_loop-inside cleared (now + 1 - size - cleared) (t - size) log.buckets
                  (unfold cleared in omega arith) (unfold cleared in ground arith)
                  (unfold cleared in ground arith))
        ])

    -- After the clock has reached `now`, the window has moved on to hold `now`, the times that are
    -- in both windows keep their buckets, and all others have fresh ones.
    pub view-advance_window :
        (t : ℕ)
        → view (advance_window ops size log now) t
          ≡ (if leb (start_at log now) t then view log t else ops.fresh)
    view-advance_window t = elim (Bool-cases (ltb now (log.window_start + size))) [
      | inl e ↦ rw (advance_window-still (ground arith)) (ground arith)
      | inr e ↦ ground (arith, advance_window-start, moved_bucket t)
    ]
