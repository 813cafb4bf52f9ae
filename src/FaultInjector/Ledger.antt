-- ===== src/FaultInjector/Ledger.antt =====
-- Each check that blocks is unblocked once, whatever threads call.
use edencommon.Common.{
  ℕ, ◌+◌, ◌≡◌, refl, ◌∙◌, inl, inr, Bool, true, false, Option, List, [], ◌∷◌, ◌++◌, arith, ◌==◌,
  if◌then◌else◌, Bool-cases,
}
use edencommon.Text.{Bytes, bytes_eq}
use edencommon.FaultInjector.ByClass.{Dict, get, get_or, get_or-cons, put, erase}
use edencommon.FaultInjector.{BlockedCheck, settle, settle_all}
use edencommon.FaultInjector.Unblock.{matching}

-- How often a promise is among checks, in the map, and among those fulfilled.
abbrev pub waiting_in : ℕ → List BlockedCheck → ℕ
waiting_in p [] = 0
waiting_in p (c ∷ cs) = (if c.promise == p then 1 else 0) + waiting_in p cs

abbrev pub waiting : ℕ → Dict (List BlockedCheck) → ℕ
waiting p [] = 0
waiting p ((k, cs) ∷ d) = waiting_in p cs + waiting p d

abbrev pub fulfilled : {Error : Type 0} → ℕ → List (ℕ × Option Error) → ℕ
fulfilled p [] = 0
fulfilled p ((q, e) ∷ es) = (if q == p then 1 else 0) + fulfilled p es

pub waiting_in-append :
    (p : ℕ) (cs ds : List BlockedCheck)
    → waiting_in p (cs ++ ds) ≡ waiting_in p cs + waiting_in p ds
waiting_in-append p [] ds = omega arith
waiting_in-append p (c ∷ cs) ds = omega (arith, waiting_in-append p cs ds)

pub fulfilled-append :
    {Error : Type 0} (p : ℕ) (es fs : List (ℕ × Option Error))
    → fulfilled p (es ++ fs) ≡ fulfilled p es + fulfilled p fs
fulfilled-append p [] fs = omega arith
fulfilled-append p ((q, e) ∷ es) fs = omega (arith, fulfilled-append p es fs)

pub fulfilled-settle :
    {Error : Type 0} (p : ℕ) (e : Option Error) (cs : List BlockedCheck)
    → fulfilled p (settle e cs) ≡ waiting_in p cs
fulfilled-settle p e [] = refl
fulfilled-settle p e (c ∷ cs) = omega (arith, fulfilled-settle p e cs)

pub fulfilled-settle_all :
    {Error : Type 0} (p : ℕ) (e : Option Error) (d : Dict (List BlockedCheck))
    → fulfilled p (settle_all e d) ≡ waiting p d
unfolding settle_all
fulfilled-settle_all p e [] = refl
fulfilled-settle_all p e ((k, cs) ∷ d) =
    fulfilled-append p (settle e cs) (settle_all e d)
    ∙ omega (arith, fulfilled-settle p e cs, fulfilled-settle_all p e d)

pub waiting-put :
    (p : ℕ) (d : Dict (List BlockedCheck)) (key : Bytes) (cs : List BlockedCheck)
    → waiting p (put d key cs) + waiting_in p (get_or d key []) ≡ waiting p d + waiting_in p cs
unfolding put get_or get
waiting-put p [] key cs = omega arith
waiting-put p ((k, ds) ∷ d) key cs = elim (Bool-cases (bytes_eq k key)) [
  | inl e ↦ rw (get_or-cons, e) (omega arith)
  | inr e ↦ rw (get_or-cons, e) (omega (arith, waiting-put p d key cs))
]

pub waiting-erase :
    (p : ℕ) (d : Dict (List BlockedCheck)) (key : Bytes)
    → waiting p (erase d key) + waiting_in p (get_or d key []) ≡ waiting p d
unfolding erase get_or get
waiting-erase p [] key = omega arith
waiting-erase p ((k, ds) ∷ d) key = elim (Bool-cases (bytes_eq k key)) [
  | inl e ↦ rw (get_or-cons, e) (omega arith)
  | inr e ↦ rw (get_or-cons, e) (omega (arith, waiting-erase p d key))
]

module _ (regex_match : Bytes → Bytes → Bool) where
  pub waiting_in-matching :
      (p : ℕ) (regex : Bytes) (cs : List BlockedCheck)
      → waiting_in p (matching regex_match true regex cs)
          + waiting_in p (matching regex_match false regex cs)
        ≡ waiting_in p cs
  waiting_in-matching p regex [] = refl
  waiting_in-matching p regex (c ∷ cs) = elim (Bool-cases (regex_match regex c.key_value)) [
    | inl e ↦ rw e (omega (arith, waiting_in-matching p regex cs))
    | inr e ↦ rw e (omega (arith, waiting_in-matching p regex cs))
  ]
