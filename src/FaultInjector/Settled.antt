-- ===== src/FaultInjector/Settled.antt =====
-- Each check that blocks is unblocked once, whatever threads call in whatever order.
use edencommon.Common.{
  ℕ, ◌+◌, ◌≡◌, refl, ap, inl, inr, Bool, true, false, Option, some, List, [], ◌∷◌, ◌++◌, arith, ltb,
  if◌then◌else◌, Bool-cases, Option-cases,
}
use edencommon.Text.{Bytes}
use edencommon.FaultInjector.ByClass.{Dict, get, get_or, get_or-some, IsMap, put-IsMap, erase-IsMap}
use edencommon.FaultInjector.{
  State, FaultBehavior, BlockedCheck, init, settle, settle_all, find_fault, add_blocked_fault,
  unblock_with, unblock_all_impl, remove_fault, update_block_with_cancel_token, destroy, none_left,
}
use edencommon.FaultInjector.Inject.{inject_fault}
use edencommon.FaultInjector.Unblock.{
  matching, rest_of, none_left-nil, extract-none, extract-some, extract-throws,
}
use edencommon.FaultInjector.Ledger.{
  waiting_in, waiting, fulfilled, waiting_in-append, fulfilled-append, fulfilled-settle,
  fulfilled-settle_all, waiting-put, waiting-erase, waiting_in-matching,
}

module _ (regex_match : Bytes → Bytes → Bool) where
  waiting-rest_of :
      (p : ℕ) (d : Dict (List BlockedCheck)) (key_class regex : Bytes) (checks : List BlockedCheck)
      → get d key_class ≡ some checks
      → waiting p (rest_of regex_match d key_class regex checks)
          + waiting_in p (matching regex_match true regex checks)
        ≡ waiting p d
  waiting-rest_of p d key_class regex checks e =
      elim (Bool-cases (none_left (matching regex_match false regex checks))) [
        | inl f ↦ rw f (
            omega (
              arith,
              ap (waiting_in p)
                  (none_left-nil regex_match (matching regex_match false regex checks) f),
              ap (waiting_in p) (get_or-some d key_class [] checks e),
              waiting-erase p d key_class,
              waiting_in-matching regex_match p regex checks,
            ))
        | inr f ↦ rw f (
            omega (
              arith,
              ap (waiting_in p) (get_or-some d key_class [] checks e),
              waiting-put p d key_class (matching regex_match false regex checks),
              waiting_in-matching regex_match p regex checks,
            ))
      ]

  rest_of-IsMap :
      (d : Dict (List BlockedCheck)) (key_class regex : Bytes) (checks : List BlockedCheck)
      → IsMap d
      → IsMap (rest_of regex_match d key_class regex checks)
  rest_of-IsMap d key_class regex checks h =
      elim (Bool-cases (none_left (matching regex_match false regex checks))) [
        | inl f ↦ rw f (erase-IsMap d key_class h)
        | inr f ↦ rw f (put-IsMap d key_class (matching regex_match false regex checks) h)
      ]

module _ {Error Token : Type 0} (enabled : Bool) (is_regex : Bytes → Bool)
    (regex_match : Bytes → Bytes → Bool) where
  -- A hold of the lock by some thread. The promises that `unblock` has extracted are fulfilled behind
  -- it, where no other thread reaches them.
  pub data Step (s : State Error Token) : State Error Token → Type 0 where
    injecting :
        (key_class regex : Bytes) (behavior : FaultBehavior Error Token) (count : ℕ)
        → Step s (inject_fault enabled is_regex s key_class regex behavior count).0
    removing : (key_class regex : Bytes) → Step s (remove_fault s key_class regex).0
    finding : (key_class value : Bytes) → Step s (find_fault regex_match s key_class value).1
    updating :
        (key_class value : Bytes) (token : Token)
        → Step s (update_block_with_cancel_token regex_match s key_class value token)
    blocking : (key_class value : Bytes) → Step s (add_blocked_fault s key_class value).1
    unblocking :
        (error : Option Error) (key_class regex : Bytes)
        → Step s (unblock_with regex_match is_regex error s key_class regex).0
    unblocking_all : (error : Option Error) → Step s (unblock_all_impl s error).0

  pub data Reach : State Error Token → Type 0 where
    start : Reach init
    next : {s s' : State Error Token} → Reach s → Step s s' → Reach s'

  pub record Inv (s : State Error Token) : Type 0 where
    pub is_map : IsMap s.blocked_checks
    pub once :
        (p : ℕ)
        → waiting p s.blocked_checks + fulfilled p s.settled ≡ (if ltb p s.made then 1 else 0)

  inject-Inv :
      (s : State Error Token) (key_class regex : Bytes) (behavior : FaultBehavior Error Token)
      (count : ℕ)
      → Inv s
      → Inv (inject_fault enabled is_regex s key_class regex behavior count).0
  unfolding inject_fault
  inject-Inv s key_class regex behavior count v = ground (arith, v.is_map, v.once)

  remove-Inv :
      (s : State Error Token) (key_class regex : Bytes)
      → Inv s
      → Inv (remove_fault s key_class regex).0
  unfolding remove_fault
  remove-Inv s key_class regex v = ground (arith, v.is_map, v.once)

  find-Inv :
      (s : State Error Token) (key_class value : Bytes)
      → Inv s
      → Inv (find_fault regex_match s key_class value).1
  unfolding find_fault
  find-Inv s key_class value v = ground (arith, v.is_map, v.once)

  update-Inv :
      (s : State Error Token) (key_class value : Bytes) (token : Token)
      → Inv s
      → Inv (update_block_with_cancel_token regex_match s key_class value token)
  unfolding update_block_with_cancel_token
  update-Inv s key_class value token v = ground (arith, v.is_map, v.once)

  block-Inv :
      (s : State Error Token) (key_class value : Bytes)
      → Inv s
      → Inv (add_blocked_fault s key_class value).1
  unfolding add_blocked_fault
  block-Inv s key_class value v = record {
    is_map = put-IsMap s.blocked_checks key_class _ v.is_map;
    once = λ p. ground (
      arith,
      v.once p,
      waiting-put p s.blocked_checks key_class (
          get_or s.blocked_checks key_class []
          ++ record { key_value = value; promise = s.made } ∷ []),
      waiting_in-append p (get_or s.blocked_checks key_class [])
          (record { key_value = value; promise = s.made } ∷ []),
    );
  }

  unblock-Inv :
      (error : Option Error) (s : State Error Token) (key_class regex : Bytes)
      → Inv s
      → Inv (unblock_with regex_match is_regex error s key_class regex).0
  unfolding unblock_with
  unblock-Inv error s key_class regex v = elim (Option-cases (get s.blocked_checks key_class)) [
    | inl e ↦
        rw (extract-none regex_match is_regex s key_class regex e, unblock_with)
          (record {
            is_map = v.is_map;
            once = λ p. omega (arith, v.once p, fulfilled-append p s.settled []);
          })
    | inr (checks, e) ↦ elim (Bool-cases (is_regex regex)) [
      | inl f ↦
          rw (extract-some regex_match is_regex s key_class regex checks e f, unblock_with)
            (record {
              is_map = rest_of-IsMap regex_match s.blocked_checks key_class regex checks v.is_map;
              once = λ p. omega (
                arith,
                v.once p,
                waiting-rest_of regex_match p s.blocked_checks key_class regex checks e,
                fulfilled-append p s.settled
                    (settle error (matching regex_match true regex checks)),
                fulfilled-settle p error (matching regex_match true regex checks),
              );
            })
      | inr f ↦
          rw (extract-throws regex_match is_regex s key_class regex checks e f, unblock_with) v
    ]
  ]

  unblock_all-Inv :
      (s : State Error Token) (error : Option Error) → Inv s → Inv (unblock_all_impl s error).0
  unfolding unblock_all_impl
  unblock_all-Inv s error v = record {
    is_map = tt;
    once = λ p. omega (
      arith,
      v.once p,
      fulfilled-append p s.settled (settle_all error s.blocked_checks),
      fulfilled-settle_all p error s.blocked_checks,
    );
  }

  Step-Inv : {s s' : State Error Token} → Step s s' → Inv s → Inv s'
  Step-Inv {s} (injecting key_class regex behavior count) v =
      inject-Inv s key_class regex behavior count v
  Step-Inv {s} (removing key_class regex) v = remove-Inv s key_class regex v
  Step-Inv {s} (finding key_class value) v = find-Inv s key_class value v
  Step-Inv {s} (updating key_class value token) v = update-Inv s key_class value token v
  Step-Inv {s} (blocking key_class value) v = block-Inv s key_class value v
  Step-Inv {s} (unblocking error key_class regex) v = unblock-Inv error s key_class regex v
  Step-Inv {s} (unblocking_all error) v = unblock_all-Inv s error v

  pub Reach-Inv : {s : State Error Token} → Reach s → Inv s
  Reach-Inv start = record { is_map = tt; once = λ p. ground arith }
  Reach-Inv (next r step) = Step-Inv step (Reach-Inv r)

-- Whatever threads call in whatever order, the map of the blocked checks has one entry for a key class
-- at most, and each check that has blocked either waits in it, once, or has been fulfilled, once.
pub Reach-once :
    {Error Token : Type 0} {enabled : Bool} {is_regex : Bytes → Bool}
    {regex_match : Bytes → Bytes → Bool} {s : State Error Token}
    → Reach enabled is_regex regex_match s
    → IsMap s.blocked_checks
      × ((p : ℕ)
          → waiting p s.blocked_checks + fulfilled p s.settled ≡ (if ltb p s.made then 1 else 0))
Reach-once r = let v = Reach-Inv _ _ _ r in (v.is_map, v.once)

-- At the end of the destructor every check that ever blocked has been fulfilled once, and none waits.
pub destroy-settles :
    {Error Token : Type 0} {enabled : Bool} {is_regex : Bytes → Bool}
    {regex_match : Bytes → Bytes → Bool} {s : State Error Token} (destroyed : Error)
    → Reach enabled is_regex regex_match s
    → ((destroy destroyed s).blocked_checks ≡ [])
      × ((p : ℕ) → fulfilled p (destroy destroyed s).settled ≡ (if ltb p s.made then 1 else 0))
unfolding destroy unblock_all_impl
destroy-settles {s = s} destroyed r = (
  refl,
  λ p. omega (arith, (unblock_all-Inv _ _ _ s (some destroyed) (Reach-Inv _ _ _ r)).once p),
)
