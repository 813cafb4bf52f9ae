-- ===== src/FaultInjector/Unblock.antt =====
-- Which checks are unblocked, and which faults are removed.
use edencommon.Common.{
  ◌≡◌, refl, sym, ◌∙◌, ◌⊎◌, inl, inr, Bool, true, false, Option, none, some, List, [], ◌∷◌, ◌++◌,
  arith, if◌then◌else◌, length, Bool-cases, Option-cases,
}
use edencommon.Text.{Bytes, bytes_eq}
use edencommon.Text.Ends.{bytes_eq_refl}
use edencommon.FaultInjector.ByClass.{
  Dict, get, get_or, get_or-some, get_or-none, put, erase, get-put_self, get-put_other, IsMap,
  get-erase,
}
use edencommon.FaultInjector.{
  State, BlockedCheck, settle, extract, none_left, extract_blocked_checks, unblock_with,
}

module _ (regex_match : Bytes → Bytes → Bool) where
  -- The checks whose value matches, or does not, in order.
  abbrev pub matching : Bool → Bytes → List BlockedCheck → List BlockedCheck
  matching b regex [] = []
  matching true regex (c ∷ cs) =
      if regex_match regex c.key_value then c ∷ matching true regex cs else matching true regex cs
  matching false regex (c ∷ cs) =
      if regex_match regex c.key_value then matching false regex cs else c ∷ matching false regex cs

  extract-eq-matching :
      (regex : Bytes) (cs : List BlockedCheck)
      → extract regex_match regex cs ≡ (matching true regex cs, matching false regex cs)
  unfolding extract
  extract-eq-matching regex [] = refl
  extract-eq-matching regex (c ∷ cs) = rw (extract-eq-matching regex cs) (ground arith)

  pub none_left-nil : (cs : List BlockedCheck) → none_left cs ≡ true → cs ≡ []
  unfolding none_left
  none_left-nil [] e = refl
  none_left-nil (c ∷ cs) e = cc

  -- The vector of the class that is left, or no entry.
  abbrev pub rest_of :
      Dict (List BlockedCheck) → Bytes → Bytes → List BlockedCheck → Dict (List BlockedCheck)
  rest_of d key_class regex checks =
      if none_left (matching false regex checks)
      then erase d key_class
      else put d key_class (matching false regex checks)

  pub extract-none :
      {Error Token : Type 0} (is_regex : Bytes → Bool) (s : State Error Token)
      (key_class regex : Bytes)
      → get s.blocked_checks key_class ≡ none
      → extract_blocked_checks regex_match is_regex s key_class regex ≡ some ([], s)
  unfolding extract_blocked_checks
  extract-none is_regex s key_class regex e = rw (e, extract_blocked_checks) refl

  pub extract-some :
      {Error Token : Type 0} (is_regex : Bytes → Bool) (s : State Error Token)
      (key_class regex : Bytes) (checks : List BlockedCheck)
      → get s.blocked_checks key_class ≡ some checks
      → is_regex regex ≡ true
      → extract_blocked_checks regex_match is_regex s key_class regex
        ≡ some (
          matching true regex checks,
          record s { blocked_checks = rest_of s.blocked_checks key_class regex checks },
        )
  unfolding extract_blocked_checks
  extract-some is_regex s key_class regex checks e f =
      rw (e, extract_blocked_checks) (rw (extract-eq-matching regex checks, f) refl)

  pub extract-throws :
      {Error Token : Type 0} (is_regex : Bytes → Bool) (s : State Error Token)
      (key_class regex : Bytes) (checks : List BlockedCheck)
      → get s.blocked_checks key_class ≡ some checks
      → is_regex regex ≡ false
      → extract_blocked_checks regex_match is_regex s key_class regex ≡ none
  unfolding extract_blocked_checks
  extract-throws is_regex s key_class regex checks e f =
      rw (e, extract_blocked_checks) (rw (extract-eq-matching regex checks, f) refl)

  get_or-rest_of :
      (d : Dict (List BlockedCheck)) (key_class regex : Bytes) (checks : List BlockedCheck)
      → IsMap d
      → get_or (rest_of d key_class regex checks) key_class [] ≡ matching false regex checks
  get_or-rest_of d key_class regex checks h =
      elim (Bool-cases (none_left (matching false regex checks))) [
        | inl e ↦
            rw
              (
                e,
                get_or-none (erase d key_class) key_class []
                    (rw (get-erase d key_class key_class h, bytes_eq_refl key_class) refl),
              )
              (sym (none_left-nil (matching false regex checks) e))
        | inr e ↦ rw e (
            get_or-some (put d key_class (matching false regex checks)) key_class []
              (matching false regex checks)
              (get-put_self d key_class (matching false regex checks)))
      ]

  get-rest_of :
      (d : Dict (List BlockedCheck)) (key_class regex other : Bytes) (checks : List BlockedCheck)
      → IsMap d
      → bytes_eq key_class other ≡ false
      → get (rest_of d key_class regex checks) other ≡ get d other
  get-rest_of d key_class regex other checks h f =
      elim (Bool-cases (none_left (matching false regex checks))) [
        | inl e ↦ rw (e, get-erase d key_class other h, f) refl
        | inr e ↦ rw (e, get-put_other d key_class other (matching false regex checks) f) refl
      ]

  -- The class has blocked checks, and the text is not an expression.
  abbrev pub Throws :
      {Error Token : Type 0} → (Bytes → Bool) → State Error Token → Bytes → Bytes → Type 0
  Throws is_regex s key_class regex =
      (is_regex regex ≡ false)
      × ((checks : List BlockedCheck) × (get s.blocked_checks key_class ≡ some checks))

  -- `unblock` and `unblockWithError`, where the key class has its one entry. Where the class has blocked
  -- checks and the text is not an expression, they throw, and nothing has changed. Otherwise the
  -- blocked checks of the class whose values match are fulfilled, with the error if one is given, in
  -- the order in which they came, and counted; those that do not match stay blocked in their order,
  -- and those of every other class do.
  pub unblock_with-matching :
      {Error Token : Type 0} (is_regex : Bytes → Bool) (error : Option Error)
      (s : State Error Token) (key_class regex : Bytes)
      → IsMap s.blocked_checks
      → (let checks = get_or s.blocked_checks key_class [] in
          let (s', n) = unblock_with regex_match is_regex error s key_class regex in
          (Throws is_regex s key_class regex × (s' ≡ s) × (n ≡ none))
          ⊎ ((¬ (Throws is_regex s key_class regex))
              × (s'.settled ≡ s.settled ++ settle error (matching true regex checks))
              × (n ≡ some (length (matching true regex checks)))
              × (get_or s'.blocked_checks key_class [] ≡ matching false regex checks)
              × ((other : Bytes)
                  → bytes_eq key_class other ≡ false
                  → get s'.blocked_checks other ≡ get s.blocked_checks other)))
  unfolding unblock_with
  unblock_with-matching is_regex error s key_class regex h =
      elim (Option-cases (get s.blocked_checks key_class)) [
        | inl e ↦
            rw
              (
                extract-none is_regex s key_class regex e,
                unblock_with,
                get_or-none s.blocked_checks key_class [] e,
              )
              (inr (λ (f, (checks, g)). some-none (sym g ∙ e), refl, refl, refl, λ other f. refl))
        | inr (checks, e) ↦ elim (Bool-cases (is_regex regex)) [
          | inl f ↦
              rw
                (
                  extract-some is_regex s key_class regex checks e f,
                  unblock_with,
                  get_or-some s.blocked_checks key_class [] checks e,
                )
                (inr (
                  λ (g, _). true-false (sym f ∙ g),
                  refl,
                  refl,
                  get_or-rest_of s.blocked_checks key_class regex checks h,
                  λ other g. get-rest_of s.blocked_checks key_class regex other checks h g,
                ))
          | inr f ↦
              rw (extract-throws is_regex s key_class regex checks e f, unblock_with)
                (inl ((f, (checks, e)), refl, refl))
        ]
      ]
    where
      some-none : {A : Type 0} {x : A} → some x ≡ none → ⊥
      some-none e = cc

      true-false : true ≡ false → ⊥
      true-false e = cc
