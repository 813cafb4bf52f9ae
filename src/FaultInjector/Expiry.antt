-- ===== src/FaultInjector/Expiry.antt =====
-- The first fault that matches is hit, and a fault with a count is hit that often.
use edencommon.Common.{
  ℕ, zero, suc, ◌≡◌, refl, ◌∙◌, ap, Bool, true, false, some, List, [], ◌∷◌, ◌++◌, arith, All,
  replicate,
}
use edencommon.Text.{Bytes, bytes_eq}
use edencommon.FaultInjector.ByClass.{get, put, get-put_self, get-put_other}
use edencommon.FaultInjector.{State, Fault, FaultBehavior, use_up, scan, find_fault}

module _ {Error Token : Type 0} (regex_match : Bytes → Bytes → Bool) where
  scan-first :
      (value : Bytes) (pre : List (Fault Error Token)) (f : Fault Error Token)
      (post : List (Fault Error Token))
      → All (λ g. regex_match g.key_value_regex value ≡ false) pre
      → regex_match f.key_value_regex value ≡ true
      → scan regex_match value (pre ++ f ∷ post) ≡ (f.behavior, pre ++ use_up f post)
  unfolding scan
  scan-first value [] f post h e = rw e refl
  scan-first value (g ∷ pre) f post h e = rw (h.0, scan-first value pre f post h.1 e) refl

  -- So many checks of one value, one after the other: the behaviors that they find.
  pub find_times :
      ℕ → State Error Token → Bytes → Bytes → List (FaultBehavior Error Token) × State Error Token
  unfolding find_fault
  find_times zero s key_class value = ([], s)
  find_times (suc n) s key_class value =
      let (b, s') = find_fault regex_match s key_class value in
      let (bs, s'') = find_times n s' key_class value in (b ∷ bs, s'')

  find_once :
      (s : State Error Token) (key_class value : Bytes) (pre : List (Fault Error Token))
      (f : Fault Error Token) (post : List (Fault Error Token))
      → get s.faults key_class ≡ some (pre ++ f ∷ post)
      → All (λ g. regex_match g.key_value_regex value ≡ false) pre
      → regex_match f.key_value_regex value ≡ true
      → find_fault regex_match s key_class value
        ≡ (f.behavior, record s { faults = put s.faults key_class (pre ++ use_up f post) })
  unfolding find_fault
  find_once s key_class value pre f post g h e =
      rw (g, find_fault) (rw (scan-first value pre f post h e) refl)

  use_up-last :
      (f : Fault Error Token) (post : List (Fault Error Token))
      → f.count_remaining ≡ 1
      → use_up f post ≡ post
  unfolding use_up
  use_up-last f post e = ground arith

  use_up-more :
      (f : Fault Error Token) (post : List (Fault Error Token)) (n : ℕ)
      → f.count_remaining ≡ suc (suc n)
      → use_up f post ≡ record f { count_remaining = suc n } ∷ post
  unfolding use_up
  use_up-more f post n e = ground arith

  use_up-always :
      (f : Fault Error Token) (post : List (Fault Error Token))
      → f.count_remaining ≡ 0
      → use_up f post ≡ f ∷ post
  unfolding use_up
  use_up-always f post e = rw e refl

  find_times-next :
      (n : ℕ) (s : State Error Token) (key_class value : Bytes) (b : FaultBehavior Error Token)
      (s' : State Error Token)
      → find_fault regex_match s key_class value ≡ (b, s')
      → find_times (suc n) s key_class value
        ≡ (b ∷ (find_times n s' key_class value).0, (find_times n s' key_class value).1)
  unfolding find_times
  find_times-next n s key_class value b s' e = rw e refl

  -- What is not a fault of the class is as it was.
  abbrev pub Rest : State Error Token → State Error Token → Bytes → Type 0
  Rest s s' key_class =
      ((other : Bytes)
        → bytes_eq key_class other ≡ false
        → get s'.faults other ≡ get s.faults other)
      × (s'.blocked_checks ≡ s.blocked_checks)
      × (s'.made ≡ s.made)
      × (s'.settled ≡ s.settled)

  Rest-put :
      (s : State Error Token) (key_class : Bytes) (fs : List (Fault Error Token))
      → Rest s (record s { faults = put s.faults key_class fs }) key_class
  Rest-put s key_class fs =
      ((λ other h. get-put_other s.faults key_class other fs h), refl, refl, refl)

  Rest-trans :
      (s t u : State Error Token) (key_class : Bytes)
      → Rest s t key_class
      → Rest t u key_class
      → Rest s u key_class
  Rest-trans s t u key_class (a, b, c, d) (a', b', c', d') =
      ((λ other h. a' other h ∙ a other h), b' ∙ b, c' ∙ c, d' ∙ d)

  -- Where the first fault of a class that matches a value has a count of n + 1, the next n + 1 checks
  -- of the value find its behavior, and then it is gone; the other faults of its class and those of
  -- every other class are as they were, and no check has blocked or been unblocked.
  pub find_times-expires :
      (n : ℕ) (s : State Error Token) (key_class value : Bytes) (pre : List (Fault Error Token))
      (f : Fault Error Token) (post : List (Fault Error Token))
      → get s.faults key_class ≡ some (pre ++ f ∷ post)
      → All (λ g. regex_match g.key_value_regex value ≡ false) pre
      → regex_match f.key_value_regex value ≡ true
      → f.count_remaining ≡ suc n
      → ((find_times (suc n) s key_class value).0 ≡ replicate (suc n) f.behavior)
        × (get (find_times (suc n) s key_class value).1.faults key_class ≡ some (pre ++ post))
        × Rest s (find_times (suc n) s key_class value).1 key_class
  find_times-expires zero s key_class value pre f post g h e c =
      rw (find_times-next zero s key_class value _ _ (find_once s key_class value pre f post g h e))
        (unfold find_times in
          (
            refl,
            rw (use_up-last f post c) (get-put_self s.faults key_class (pre ++ post)),
            Rest-put s key_class _,
          ))
  find_times-expires (suc n) s key_class value pre f post g h e c =
      rw
        (find_times-next (suc n) s key_class value _ _
          (find_once s key_class value pre f post g h e))
        (let left : List (Fault Error Token) = pre ++ record f { count_remaining = suc n } ∷ post in
          let (p, q, t) =
            find_times-expires n (record s { faults = put s.faults key_class left }) key_class value
              pre (record f { count_remaining = suc n }) post (get-put_self s.faults key_class left)
              h e refl in
          rw (use_up-more f post n c) (
            ap (λ bs. f.behavior ∷ bs) p,
            q,
            Rest-trans s _ _ key_class (Rest-put s key_class left) t,
          ))

  -- The first fault of a class that matches a value, if its count is 0, is found by every check of the
  -- value, and the faults of the class stay as they are, and so does all else.
  pub find_times-forever :
      (n : ℕ) (s : State Error Token) (key_class value : Bytes) (pre : List (Fault Error Token))
      (f : Fault Error Token) (post : List (Fault Error Token))
      → get s.faults key_class ≡ some (pre ++ f ∷ post)
      → All (λ g. regex_match g.key_value_regex value ≡ false) pre
      → regex_match f.key_value_regex value ≡ true
      → f.count_remaining ≡ 0
      → ((find_times n s key_class value).0 ≡ replicate n f.behavior)
        × (get (find_times n s key_class value).1.faults key_class ≡ some (pre ++ f ∷ post))
        × Rest s (find_times n s key_class value).1 key_class
  find_times-forever zero s key_class value pre f post g h e c =
      unfold find_times in (refl, g, ((λ other h. refl), refl, refl, refl))
  find_times-forever (suc n) s key_class value pre f post g h e c =
      rw (find_times-next n s key_class value _ _ (find_once s key_class value pre f post g h e)) (
        let (p, q, t) =
          find_times-forever n (record s { faults = put s.faults key_class (pre ++ f ∷ post) })
            key_class value pre f post (get-put_self s.faults key_class (pre ++ f ∷ post)) h e c in
        rw (use_up-always f post c) (
          ap (λ bs. f.behavior ∷ bs) p,
          q,
          Rest-trans s _ _ key_class (Rest-put s key_class (pre ++ f ∷ post)) t,
        ))
