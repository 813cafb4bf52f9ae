-- ===== src/IdGen/Unique.antt =====
-- The ids that any threads get in any order are distinct, until the 64-bit counter is used up.
use native.Mathlib.Nat.{mod-eq_of_lt}
use edencommon.Common.{
  ℕ, ◌+◌, ◌*◌, ◌/◌, ◌%◌, ◌≤◌, ◌<◌, ◌≡◌, ◌≢◌, ◌⊎◌, inl, inr, refl, sym, ◌∙◌, List, [], ◌∷◌, arith,
  All, length, ◌==◌, true, false, Bool-cases,
}
use edencommon.IdGen.{Counters, word, init, set_local, generate_unique_id, collect}

abbrev pub Distinct : List ℕ → Type 0
Distinct [] = Unit
Distinct (x ∷ xs) = All (λ y. x ≢ y) xs × Distinct xs

-- A thread that is inside a range has ids of it left.
abbrev Active : ℕ → Type 0
Active l = l % 2048 ≢ 0

-- The id lies outside what is left of the range that `l` is in.
abbrev Outside : ℕ → ℕ → Type 0
Outside l id = (id ≤ l) ⊎ (2048 * (l / 2048) + 2048 < id)

record Inv (s : Counters) (issued : List ℕ) : Type 0 where
  aligned : s.global % 2048 ≡ 0
  below : All (λ id. id ≤ s.global) issued
  taken : (t : ℕ) → Active (s.local t) → s.local t < s.global
  left : (t : ℕ) → Active (s.local t) → All (Outside (s.local t)) issued
  apart :
      (t u : ℕ)
      → t ≢ u
      → Active (s.local t)
      → Active (s.local u)
      → s.local t / 2048 ≢ s.local u / 2048
  distinct : Distinct issued

All-map {ℓ κ μ} :
    {A : Type ℓ} {P : A → Type κ} {Q : A → Type μ} (xs : List A)
    → ((x : A) → P x → Q x)
    → All P xs
    → All Q xs
All-map [] f h = tt
All-map (x ∷ xs) f h = (f x h.0, All-map xs f h.1)

-- What a call does, by the two kinds of threads.
generate-inside :
    (s : Counters) (t : ℕ)
    → Active (s.local t)
    → s.local t + 1 < word
    → generate_unique_id s t
      ≡ (s.local t + 1, record s { local = set_local s.local t (s.local t + 1) })
unfolding generate_unique_id
generate-inside s t a r =
    let full : (s.local t % 2048 == 0) ≡ false = ground arith in
    rw (full, mod-eq_of_lt {n = s.local t + 1} {m = word} r) refl

generate-new :
    (s : Counters) (t : ℕ)
    → s.local t % 2048 ≡ 0
    → s.global + 2048 < word
    → generate_unique_id s t ≡ (
      s.global + 1,
      record { global = s.global + 2048; local = set_local s.local t (s.global + 1) },
    )
unfolding generate_unique_id
generate-new s t a r =
    let full : (s.local t % 2048 == 0) ≡ true = ground arith in
    rw
      (
        full,
        mod-eq_of_lt {n = s.global + 1} {m = word} (omega arith),
        mod-eq_of_lt {n = s.global + 2048} {m = word} r,
      )
      refl

-- A thread's counter after a call on thread `t`, by whether it is that thread.
set_local_elim {ℓ} :
    (P : ℕ → Type ℓ) (local : ℕ → ℕ) (t v u : ℕ)
    → (u ≡ t → P v)
    → (u ≢ t → P (local u))
    → P (set_local local t v u)
set_local_elim P local t v u same other = elim (Bool-cases (u == t)) [
  | inl e ↦ rw e (same (ground arith))
  | inr e ↦ rw e (other (ground arith))
]

-- The next id of a thread inside a range is new, and stays out of the way of the others.
module _ (s : Counters) (issued : List ℕ) (t : ℕ) (v : Inv s issued) where
  inside-Inv :
      Active (s.local t)
      → Inv (record s { local = set_local s.local t (s.local t + 1) }) ((s.local t + 1) ∷ issued)
  inside-Inv a = record {
    aligned = v.aligned;
    below = (omega (arith, v.taken t a), v.below);
    taken = λ u.
        set_local_elim (λ l. Active l → l < s.global) s.local t (s.local t + 1) u
          (λ e b. omega (arith, v.taken t a, v.aligned)) (λ ne b. v.taken u b);
    left = λ u.
        set_local_elim (λ l. Active l → All (Outside l) ((s.local t + 1) ∷ issued)) s.local t
          (s.local t + 1) u
          (λ e b. (inl (omega arith), All-map issued (λ id h. omega arith) (v.left t a)))
          (λ ne b. (omega (arith, v.apart t u (λ q. ne (sym q)) a b), v.left u b));
    apart = λ u w ne.
        set_local_elim
          (λ l.
            Active l
            → Active (set_local s.local t (s.local t + 1) w)
            → l / 2048 ≢ set_local s.local t (s.local t + 1) w / 2048)
          s.local t (s.local t + 1) u
          (λ e b.
            set_local_elim (λ m. Active m → (s.local t + 1) / 2048 ≢ m / 2048) s.local t
              (s.local t + 1) w (λ f c. absurd (ne (e ∙ sym f)))
              (λ nf c. omega (arith, v.apart t w (λ q. nf (sym q)) a c)))
          (λ nt b.
            set_local_elim (λ m. Active m → s.local u / 2048 ≢ m / 2048) s.local t (s.local t + 1) w
              (λ f c. omega (arith, v.apart u t nt b a)) (λ nf c. v.apart u w ne b c));
    distinct = (All-map issued (λ id h. omega arith) (v.left t a), v.distinct);
  }

  new-Inv :
      s.local t % 2048 ≡ 0
      → Inv
          (record { global = s.global + 2048; local = set_local s.local t (s.global + 1) })
          ((s.global + 1) ∷ issued)
  new-Inv a = record {
    aligned = omega (arith, v.aligned);
    below = (omega arith, All-map issued (λ id h. omega arith) v.below);
    taken = λ u.
        set_local_elim (λ l. Active l → l < s.global + 2048) s.local t (s.global + 1) u
          (λ e b. omega arith) (λ ne b. omega (arith, v.taken u b));
    left = λ u.
        set_local_elim (λ l. Active l → All (Outside l) ((s.global + 1) ∷ issued)) s.local t
          (s.global + 1) u
          (λ e b. (inl (omega arith), All-map issued (λ id h. inl (omega arith)) v.below))
          (λ ne b. (inr (omega (arith, v.taken u b, v.aligned)), v.left u b));
    apart = λ u w ne.
        set_local_elim
          (λ l.
            Active l
            → Active (set_local s.local t (s.global + 1) w)
            → l / 2048 ≢ set_local s.local t (s.global + 1) w / 2048)
          s.local t (s.global + 1) u
          (λ e b.
            set_local_elim (λ m. Active m → (s.global + 1) / 2048 ≢ m / 2048) s.local t
              (s.global + 1) w (λ f c. absurd (ne (e ∙ sym f)))
              (λ nf c. omega (arith, v.taken w c, v.aligned)))
          (λ nt b.
            set_local_elim (λ m. Active m → s.local u / 2048 ≢ m / 2048) s.local t (s.global + 1) w
              (λ f c. omega (arith, v.taken u b, v.aligned)) (λ nf c. v.apart u w ne b c));
    distinct = (All-map issued (λ id h. omega arith) v.below, v.distinct);
  }

collect-Inv :
    (ts : List ℕ) (s : Counters) (issued : List ℕ)
    → Inv s issued
    → s.global + 2048 * length ts + 2048 < word
    → Distinct (collect s issued ts)
unfolding collect
collect-Inv [] s issued v r = v.distinct
collect-Inv (t ∷ ts) s issued v r = elim (Bool-cases (s.local t % 2048 == 0)) [
  | inl e ↦ rw (generate-new s t (ground arith) (omega arith)) (
      collect-Inv ts _ ((s.global + 1) ∷ issued) (new-Inv s issued t v (ground arith))
        (omega arith))
  | inr e ↦
      let a : Active (s.local t) = ground arith in
      rw (generate-inside s t a (omega (arith, v.taken t a)))
        (collect-Inv ts _ ((s.local t + 1) ∷ issued) (inside-Inv s issued t v a) (omega arith))
]

-- Whatever threads call in whatever order, the ids that they get are all distinct, as long as a
-- range for each call fits into the 64-bit counter.
pub generate-Distinct :
    (ts : List ℕ) → 2048 * length ts + 2048 < word → Distinct (collect init [] ts)
unfolding init
generate-Distinct ts r = collect-Inv ts init [] start (omega arith)
  where
    start : Inv init []
    start = record {
      aligned = refl;
      below = tt;
      taken = λ t a. absurd (a refl);
      left = λ t a. tt;
      apart = λ t u ne a b. absurd (a refl);
      distinct = tt;
    }
