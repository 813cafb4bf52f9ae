-- ===== src/TraceBus/Invariant.antt =====
-- What holds of a bus between any two steps.
use mathlib.Core.Path.{subst}
use mathlib.Core.List.{append-nil}
use edencommon.Common.{
  ℕ, ◌+◌, ◌%◌, ◌≤◌, ◌<◌, ◌≡◌, refl, sym, ap, ◌∙◌, inl, inr, Bool, true, false, ◌||◌, not, List, [],
  ◌∷◌, ◌++◌, arith, ltb, if◌then◌else◌, length, length-append, Bool-cases,
}
use native.Mathlib.Nat.{mod-eq_of_lt, le_refl}
use edencommon.TraceBus.{
  Bus, publishes, sweeping, waiting, delivering, published, init, publish, subscribe, unsubscribe,
  shut_down, sweep, collect, wait, sweep_list, is_empty, has_any, deliver, deliver_list, word,
}
use edencommon.TraceBus.Steps.{
  Step, publishing, subscribing, unsubscribing, shutting_down, locking, waking, observing, Reach,
  start, next,
}
use edencommon.TraceBus.Sound.{
  Sound, Quiet, readers_of, batch_of, is_waiting, is_last, drop-length, Sound-Quiet, Quiet-Sound,
  Sound-collect, Quiet-sweep, length-mark, Sound-mark, Sound-deliver,
}

module _ {Event : Type 0} where
  pub record Inv (bus : Bus Event) : Type 0 where
    pub sound : Sound bus.taken (readers_of bus.phase) (batch_of bus.phase) bus.subscriptions
    pub room : readers_of bus.phase ≤ length bus.subscriptions
    pub numbered : bus.sequence_number ≡ 1 + length (published bus)
    pub observed : is_waiting bus.phase ≡ false → bus.last_observed ≤ 1 + length bus.taken
    pub behind : bus.last_observed ≤ bus.sequence_number
    pub ended : is_last bus.phase ≡ true → (bus.done ≡ true) × (bus.write_buffer ≡ [])

  published_lem :
      (capacity : ℕ) (bus bus' : Bus Event) (event : Event)
      → publish capacity bus event ≡ publishes bus'
      → (bus.done ≡ false)
        × (record bus {
          write_buffer = bus.write_buffer ++ event ∷ [];
          sequence_number = (bus.sequence_number + 1) % word;
        }
            ≡ bus')
  unfolding publish
  published_lem capacity bus bus' event e = ground arith

  publish-Inv :
      (capacity : ℕ) (bus bus' : Bus Event) (event : Event)
      → Inv bus
      → bus.sequence_number + 1 < word
      → publish capacity bus event ≡ publishes bus'
      → Inv bus'
  publish-Inv capacity bus bus' event v r e =
      let (open_bus, same) = published_lem capacity bus bus' event e in
      subst Inv same (record {
        sound = v.sound;
        room = v.room;
        numbered =
            mod-eq_of_lt r
            ∙ omega (
              arith,
              v.numbered,
              length-append bus.taken bus.write_buffer,
              length-append bus.taken (bus.write_buffer ++ event ∷ []),
              length-append bus.write_buffer (event ∷ []),
            );
        observed = v.observed;
        behind =
            let b : bus.last_observed ≤ bus.sequence_number = v.behind in
            rw (mod-eq_of_lt r) (omega arith);
        ended = λ l. cc ((v.ended l).0, open_bus);
      })

  subscribe-Inv : (bus : Bus Event) (key : ℕ) → Inv bus → Inv (subscribe bus key)
  unfolding subscribe
  subscribe-Inv bus key v = record {
    sound = ((omega arith, λ n. rw (not_reader) (sym (drop-length bus.taken))), v.sound);
    room = omega (arith, v.room);
    numbered = v.numbered;
    observed = v.observed;
    behind = v.behind;
    ended = v.ended;
  }
    where
      not_reader : ltb (length bus.subscriptions) (readers_of bus.phase) ≡ false
      not_reader = let r : readers_of bus.phase ≤ length bus.subscriptions = v.room in ground arith

  unsubscribe-Inv : (bus : Bus Event) (key : ℕ) → Inv bus → Inv (unsubscribe bus key)
  unfolding unsubscribe
  unsubscribe-Inv bus key v = record {
    sound = Sound-mark bus.taken _ _ key _ bus.subscriptions v.sound;
    room = rw (length-mark key bus.sequence_number bus.subscriptions) v.room;
    numbered = v.numbered;
    observed = v.observed;
    behind = v.behind;
    ended = v.ended;
  }

  shut_down-Inv : (bus : Bus Event) → Inv bus → Inv (shut_down bus)
  unfolding shut_down
  shut_down-Inv bus v = record {
    sound = v.sound;
    room = v.room;
    numbered = v.numbered;
    observed = v.observed;
    behind = v.behind;
    ended = λ e. (refl, (v.ended e).1);
  }

  -- The swap, from a state in which no batch is on its way.
  collect-Inv :
      (bus : Bus Event)
      → Quiet bus.taken bus.subscriptions
      → bus.sequence_number ≡ 1 + length (published bus)
      → bus.last_observed ≤ bus.sequence_number
      → Inv (collect bus)
  unfolding collect
  collect-Inv bus q n b = record {
    sound = Sound-collect bus.taken bus.write_buffer _ bus.subscriptions (omega arith) q;
    room = omega arith;
    numbered = n ∙ ap (λ xs. 1 + length xs) (sym (append-nil (bus.taken ++ bus.write_buffer)));
    observed = λ e. omega arith;
    behind = b;
    ended = λ e. (e, refl);
  }

  wait-Inv :
      (bus : Bus Event)
      → Quiet bus.taken bus.subscriptions
      → bus.sequence_number ≡ 1 + length (published bus)
      → bus.last_observed ≤ bus.sequence_number
      → Inv (wait bus)
  unfolding wait
  wait-Inv bus q n b = elim (Bool-cases (bus.done || not (is_empty bus.write_buffer))) [
    | inl e ↦ rw e (collect-Inv bus q n b)
    | inr e ↦ rw e (record {
      sound = Quiet-Sound bus.taken [] bus.subscriptions q;
      room = omega arith;
      numbered = n;
      observed = λ f. cc;
      behind = b;
      ended = λ f. cc;
    })
  ]

  sweep-Inv : (bus : Bus Event) → Inv bus → bus.phase ≡ sweeping → Inv (sweep bus)
  unfolding sweep
  sweep-Inv bus v e =
      wait-Inv
        (record bus {
          subscriptions = sweep_list bus.last_observed bus.subscriptions;
          last_observed = bus.sequence_number;
          has_subscription =
              if has_any (sweep_list bus.last_observed bus.subscriptions)
              then bus.has_subscription
              else false;
        })
        (Quiet-sweep bus.taken bus.last_observed bus.subscriptions
          (Sound-Quiet bus.taken [] bus.subscriptions quiet))
        v.numbered (le_refl bus.sequence_number)
    where
      quiet : Sound bus.taken 0 [] bus.subscriptions
      quiet = subst (λ p. Sound bus.taken (readers_of p) (batch_of p) bus.subscriptions) e v.sound

  waking-Inv : (bus : Bus Event) → Inv bus → bus.phase ≡ waiting → Inv (collect bus)
  waking-Inv bus v e =
      collect-Inv bus (Sound-Quiet bus.taken [] bus.subscriptions quiet) v.numbered v.behind
    where
      quiet : Sound bus.taken 0 [] bus.subscriptions
      quiet = subst (λ p. Sound bus.taken (readers_of p) (batch_of p) bus.subscriptions) e v.sound

  delivered :
      (throws : ℕ → List Event → Bool) (bus : Bus Event) (readers : ℕ) (batch : List Event)
      (last : Bool)
      → Inv bus
      → bus.phase ≡ delivering readers batch last
      → Quiet bus.taken (deliver_list throws readers batch bus.subscriptions)
  delivered throws bus readers batch last v e =
      Sound-deliver throws bus.taken batch readers bus.subscriptions
        (subst (λ p. Sound bus.taken (readers_of p) (batch_of p) bus.subscriptions) e v.sound)

  deliver-Inv :
      (throws : ℕ → List Event → Bool) (bus : Bus Event) (readers : ℕ) (batch : List Event)
      (last : Bool)
      → Inv bus
      → bus.phase ≡ delivering readers batch last
      → Inv (deliver throws bus readers batch last)
  unfolding deliver
  deliver-Inv throws bus readers batch false v e = record {
    sound = Quiet-Sound bus.taken [] _ (delivered throws bus readers batch false v e);
    room = omega arith;
    numbered = v.numbered;
    observed = λ f. v.observed (ap is_waiting e);
    behind = v.behind;
    ended = λ f. cc;
  }
  deliver-Inv throws bus readers batch true v e = record {
    sound = Quiet-Sound bus.taken [] _ (delivered throws bus readers batch true v e);
    room = omega arith;
    numbered = v.numbered;
    observed = λ f. v.observed (ap is_waiting e);
    behind = v.behind;
    ended = λ f. v.ended (ap is_last e);
  }

  init-Inv : Inv (init Event)
  unfolding init
  init-Inv = record {
    sound = tt;
    room = omega arith;
    numbered = refl;
    observed = λ e. omega arith;
    behind = omega arith;
    ended = λ e. cc;
  }

  Step-Inv :
      {throws : ℕ → List Event → Bool} {capacity : ℕ} {bus bus' : Bus Event}
      → Step throws capacity bus bus'
      → Inv bus
      → Inv bus'
  Step-Inv {throws} {capacity} {bus} {bus'} (publishing event r e) v =
      publish-Inv capacity bus bus' event v r e
  Step-Inv {bus = bus} (subscribing key fresh) v = subscribe-Inv bus key v
  Step-Inv {bus = bus} (unsubscribing key) v = unsubscribe-Inv bus key v
  Step-Inv {bus = bus} shutting_down v = shut_down-Inv bus v
  Step-Inv {bus = bus} (locking e) v = sweep-Inv bus v e
  Step-Inv {bus = bus} (waking e ready) v = waking-Inv bus v e
  Step-Inv {throws} {bus = bus} (observing readers batch last e) v =
      deliver-Inv throws bus readers batch last v e

  pub Reach-Inv :
      {throws : ℕ → List Event → Bool} {capacity : ℕ} {bus : Bus Event}
      → Reach throws capacity bus
      → Inv bus
  Reach-Inv start = init-Inv
  Reach-Inv (next r s) = Step-Inv s (Reach-Inv r)
