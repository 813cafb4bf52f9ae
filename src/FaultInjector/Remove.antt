-- ===== src/FaultInjector/Remove.antt =====
-- Which faults removeFault of eden/common/utils/FaultInjector.cpp removes.
use edencommon.Common.{
  ◌≡◌, refl, inl, inr, Bool, true, false, none, some, List, [], ◌∷◌, sym, arith, if◌then◌else◌,
  Bool-cases, Option-cases,
}
use edencommon.Text.{Bytes, bytes_eq}
use edencommon.Text.Ends.{bytes_eq_refl}
use edencommon.FaultInjector.ByClass.{
  Dict, get, get_or, get_or-some, get_or-none, put, erase, get-put_self, get-put_other, IsMap,
  get-erase,
}
use edencommon.FaultInjector.{State, Fault, remove_first, is_nil, remove_fault}

module _ {Error Token : Type 0} where
  -- Whether a fault has that text, and the faults without the first such.
  abbrev pub has : Bytes → List (Fault Error Token) → Bool
  has regex [] = false
  has regex (f ∷ fs) = if bytes_eq f.key_value_regex regex then true else has regex fs

  abbrev pub without : Bytes → List (Fault Error Token) → List (Fault Error Token)
  without regex [] = []
  without regex (f ∷ fs) = if bytes_eq f.key_value_regex regex then fs else f ∷ without regex fs

  remove_first-eq :
      (regex : Bytes) (fs : List (Fault Error Token))
      → remove_first regex fs ≡ (if has regex fs then some (without regex fs) else none)
  unfolding remove_first
  remove_first-eq regex [] = refl
  remove_first-eq regex (f ∷ fs) = rw (remove_first-eq regex fs) (ground arith)

  without-none :
      (regex : Bytes) (fs : List (Fault Error Token)) → has regex fs ≡ false → without regex fs ≡ fs
  without-none regex [] e = refl
  without-none regex (f ∷ fs) e = ground (arith, without-none regex fs)

  is_nil-nil : (fs : List (Fault Error Token)) → is_nil fs ≡ true → fs ≡ []
  unfolding is_nil
  is_nil-nil [] e = refl
  is_nil-nil (f ∷ fs) e = cc

  -- The map after a removal.
  abbrev left :
      Dict (List (Fault Error Token))
      → Bytes
      → List (Fault Error Token)
      → Dict (List (Fault Error Token))
  left d key_class gs = if is_nil gs then erase d key_class else put d key_class gs

  get_or-left :
      (d : Dict (List (Fault Error Token))) (key_class : Bytes) (gs : List (Fault Error Token))
      → IsMap d
      → get_or (left d key_class gs) key_class [] ≡ gs
  get_or-left d key_class gs h = elim (Bool-cases (is_nil gs)) [
    | inl e ↦
        rw
          (
            e,
            get_or-none (erase d key_class) key_class []
                (rw (get-erase d key_class key_class h, bytes_eq_refl key_class) refl),
          )
          (sym (is_nil-nil gs e))
    | inr e ↦ rw e (get_or-some (put d key_class gs) key_class [] gs (get-put_self d key_class gs))
  ]

  get-left :
      (d : Dict (List (Fault Error Token))) (key_class other : Bytes)
      (gs : List (Fault Error Token))
      → IsMap d
      → bytes_eq key_class other ≡ false
      → get (left d key_class gs) other ≡ get d other
  get-left d key_class other gs h f = elim (Bool-cases (is_nil gs)) [
    | inl e ↦ rw (e, get-erase d key_class other h, f) refl
    | inr e ↦ rw (e, get-put_other d key_class other gs f) refl
  ]

  -- removeFault, where the key class has its one entry: it answers whether the class has a fault whose
  -- expression has that text, and then the first such is gone and the others are as they were, in their
  -- order; the faults of every other class are as they were.
  pub remove_fault-without :
      (s : State Error Token) (key_class regex : Bytes)
      → IsMap s.faults
      → (let fs = get_or s.faults key_class [] in
          let (s', found) = remove_fault s key_class regex in
          (found ≡ has regex fs)
          × (get_or s'.faults key_class [] ≡ without regex fs)
          × ((other : Bytes)
              → bytes_eq key_class other ≡ false
              → get s'.faults other ≡ get s.faults other))
  unfolding remove_fault
  remove_fault-without s key_class regex h = elim (Option-cases (get s.faults key_class)) [
    | inl e ↦
        rw (e, remove_fault, get_or-none s.faults key_class [] e) (refl, refl, λ other f. refl)
    | inr (fs, e) ↦ elim (Bool-cases (has regex fs)) [
      | inl f ↦
          rw
            (
              e,
              remove_fault,
              remove_first-eq regex fs,
              f,
              get_or-some s.faults key_class [] fs e,
              f,
            )
            (
              refl,
              get_or-left s.faults key_class (without regex fs) h,
              λ other g. get-left s.faults key_class other (without regex fs) h g,
            )
      | inr f ↦
          rw
            (
              e,
              remove_fault,
              remove_first-eq regex fs,
              f,
              get_or-some s.faults key_class [] fs e,
              f,
            )
            (refl, sym (without-none regex fs f), λ other g. refl)
    ]
  ]
