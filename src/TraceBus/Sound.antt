-- ===== src/TraceBus/Sound.antt =====
-- What each subscriber has seen, and is about to see, and how the moves change it.
use mathlib.Core.List.{append-nil}
use edencommon.Common.{
  ℕ, zero, suc, ◌≤◌, ◌≡◌, refl, sym, ap, ◌∙◌, inl, inr, Bool, true, false, List, [], ◌∷◌, ◌++◌,
  arith, ◌==◌, ltb, if◌then◌else◌, length, length-append, drop, All, Bool-cases, lt→ltb,
}
use edencommon.TraceBus.{
  Subscription, Phase, sweeping, waiting, finished, delivering, mark, sweep_list, observe,
  deliver_list, is_over,
}

none_below : (n : ℕ) → ltb n 0 ≡ false
none_below n = ground arith

module _ {Event : Type 0} where
  -- With the batch that it is about to see, a subscriber that has not thrown has seen what was taken
  -- since it subscribed.
  abbrev pub Exact : List Event → List Event → Subscription Event → Type 0
  Exact taken batch s =
      (s.from ≤ length taken)
      × (s.has_thrown_exception ≡ false → s.seen ++ batch ≡ drop s.from taken)

  -- The last `readers` subscriptions are about to see the batch, the others nothing.
  abbrev pub Sound : List Event → ℕ → List Event → List (Subscription Event) → Type 0
  Sound taken readers batch [] = Unit
  Sound taken readers batch (s ∷ ss) =
      Exact taken (if ltb (length ss) readers then batch else []) s × Sound taken readers batch ss

  abbrev pub Quiet : List Event → List (Subscription Event) → Type 0
  Quiet taken = All (Exact taken [])

  abbrev pub readers_of : Phase Event → ℕ
  readers_of sweeping = 0
  readers_of waiting = 0
  readers_of finished = 0
  readers_of (delivering readers batch last) = readers

  abbrev pub batch_of : Phase Event → List Event
  batch_of sweeping = []
  batch_of waiting = []
  batch_of finished = []
  batch_of (delivering readers batch last) = batch

  abbrev pub is_waiting : Phase Event → Bool
  is_waiting sweeping = false
  is_waiting waiting = true
  is_waiting finished = false
  is_waiting (delivering readers batch last) = false

  -- The background thread takes no more events.
  abbrev pub is_last : Phase Event → Bool
  is_last sweeping = false
  is_last waiting = false
  is_last finished = true
  is_last (delivering readers batch last) = last

  pub drop-append :
      (n : ℕ) (xs ys : List Event) → n ≤ length xs → drop n (xs ++ ys) ≡ drop n xs ++ ys
  drop-append zero xs ys h = refl
  drop-append (suc n) [] ys h = absurd (omega arith)
  drop-append (suc n) (x ∷ xs) ys h = drop-append n xs ys (omega arith)

  pub drop-length : (xs : List Event) → drop (length xs) xs ≡ []
  drop-length [] = refl
  drop-length (x ∷ xs) = drop-length xs

  pub Sound-Quiet :
      (taken batch : List Event) (ss : List (Subscription Event))
      → Sound taken 0 batch ss
      → Quiet taken ss
  Sound-Quiet taken batch [] h = tt
  Sound-Quiet taken batch (s ∷ ss) h =
      ((h.0.0, rw (none_below (length ss)) at (h.0.1)), Sound-Quiet taken batch ss h.1)

  pub Quiet-Sound :
      (taken batch : List Event) (ss : List (Subscription Event))
      → Quiet taken ss
      → Sound taken 0 batch ss
  Quiet-Sound taken batch [] h = tt
  Quiet-Sound taken batch (s ∷ ss) h =
      ((h.0.0, rw (none_below (length ss)) (h.0.1)), Quiet-Sound taken batch ss h.1)

  pub Sound-collect :
      (taken batch : List Event) (readers : ℕ) (ss : List (Subscription Event))
      → length ss ≤ readers
      → Quiet taken ss
      → Sound (taken ++ batch) readers batch ss
  Sound-collect taken batch readers [] l h = tt
  Sound-collect taken batch readers (s ∷ ss) l ((f, e), h) = (
    (
      omega (arith, length-append taken batch),
      λ n.
          rw (lt→ltb (length ss) readers l, drop-append s.from taken batch f)
            (ap (λ xs. xs ++ batch) (sym (append-nil s.seen) ∙ e n)),
    ),
    Sound-collect taken batch readers ss (omega arith) h,
  )

  pub Quiet-sweep :
      (taken : List Event) (last : ℕ) (ss : List (Subscription Event))
      → Quiet taken ss
      → Quiet taken (sweep_list last ss)
  unfolding sweep_list
  Quiet-sweep taken last [] h = tt
  Quiet-sweep taken last (s ∷ ss) h = elim (Bool-cases (is_over last s)) [
    | inl e ↦ rw e (Quiet-sweep taken last ss h.1)
    | inr e ↦ rw e (h.0, Quiet-sweep taken last ss h.1)
  ]

  pub length-mark :
      (key number : ℕ) (ss : List (Subscription Event)) → length (mark key number ss) ≡ length ss
  unfolding mark
  length-mark key number [] = refl
  length-mark key number (s ∷ ss) = ap suc (length-mark key number ss)

  pub Sound-mark :
      (taken batch : List Event) (readers key number : ℕ) (ss : List (Subscription Event))
      → Sound taken readers batch ss
      → Sound taken readers batch (mark key number ss)
  unfolding mark
  Sound-mark taken batch readers key number [] h = tt
  Sound-mark taken batch readers key number (s ∷ ss) h = elim (Bool-cases (s.key == key)) [
    | inl e ↦
        rw (e, length-mark key number ss) (h.0, Sound-mark taken batch readers key number ss h.1)
    | inr e ↦
        rw (e, length-mark key number ss) (h.0, Sound-mark taken batch readers key number ss h.1)
  ]

  module _ (throws : ℕ → List Event → Bool) where
    pub Sound-deliver :
        (taken batch : List Event) (readers : ℕ) (ss : List (Subscription Event))
        → Sound taken readers batch ss
        → Quiet taken (deliver_list throws readers batch ss)
    unfolding deliver_list observe
    Sound-deliver taken batch readers [] h = tt
    Sound-deliver taken batch readers (s ∷ ss) ((f, e), h) =
        elim (Bool-cases (ltb (length ss) readers)) [
          | inl r ↦ elim (Bool-cases s.has_thrown_exception) [
            | inl t ↦ rw (r, t) ((f, λ n. cc), Sound-deliver taken batch readers ss h)
            | inr t ↦
                rw (r, t)
                  (
                    (f, λ n. append-nil (s.seen ++ batch) ∙ (rw r at (e t))),
                    Sound-deliver taken batch readers ss h,
                  )
          ]
          | inr r ↦ rw r ((f, λ n. rw r at (e n)), Sound-deliver taken batch readers ss h)
        ]
