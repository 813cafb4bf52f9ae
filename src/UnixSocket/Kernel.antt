-- ===== src/UnixSocket/Kernel.antt =====
-- Big endian numbers, and a stream of which each call takes two bytes, for the tests of the socket.
use native.Mathlib.Nat.{pow-suc}
use edencommon.Common.{
  ℕ, zero, suc, ◌+◌, ◌*◌, ◌/◌, ◌%◌, ◌^◌, ◌<◌, ◌≡◌, refl, sym, ap, ◌∙◌, inl, List, [], ◌∷◌, ◌++◌,
  length, take, drop, arith, length-append,
}
use edencommon.Text.{Bytes}
use edencommon.UnixSocket.{Cell, Endian, attach, bytes_of, files_of, Sender, sent}
use edencommon.UnixSocket.Cells.{length-take}
use edencommon.UnixSocket.Sending as Sending
use edencommon.UnixSocket.Receive.{Receiver, again, recv_failed, got, control_of}
use edencommon.UnixSocket.Phases as Phases
use edencommon.UnixSocket.Phases.{Refused}

abbrev be : ℕ → ℕ → Bytes
be zero x = []
be (suc w) x = be w (x / 256) ++ (x % 256) ∷ []

abbrev value : ℕ → Bytes → ℕ
value acc [] = acc
value acc (b ∷ bs) = value (acc * 256 + b) bs

-- The value of so many bytes.
abbrev un_be : ℕ → Bytes → ℕ
un_be w bs = value 0 (take w bs)

pub length-be : (w x : ℕ) → length (be w x) ≡ w
length-be zero x = refl
length-be (suc w) x =
    omega (arith, length-append (be w (x / 256)) ((x % 256) ∷ []), length-be w (x / 256))

value-snoc : (acc : ℕ) (bs : Bytes) (b : ℕ) → value acc (bs ++ b ∷ []) ≡ value acc bs * 256 + b
value-snoc acc [] b = refl
value-snoc acc (c ∷ bs) b = value-snoc (acc * 256 + c) bs b

pub value-be : (w x : ℕ) → x < 256 ^ w → value 0 (be w x) ≡ x
value-be zero x h = omega (arith, h)
value-be (suc w) x h =
    value-snoc 0 (be w (x / 256)) (x % 256)
    ∙ omega (arith, value-be w (x / 256) (omega (arith, h, pow-suc 256 w)))

pub take-exact : (n : ℕ) (xs ys : Bytes) → length xs ≡ n → take n (xs ++ ys) ≡ xs
take-exact zero [] ys e = refl
take-exact zero (x ∷ xs) ys e = absurd (omega (arith, e))
take-exact (suc n) [] ys e = absurd (omega (arith, e))
take-exact (suc n) (x ∷ xs) ys e = ap (λ l. x ∷ l) (take-exact n xs ys (omega (arith, e)))

unfoldable pub big_endian : Endian
big_endian = record {
  write_be = be;
  read_be = un_be;
  length-write_be = length-be;
  read-write_be =
      λ w x rest h. ap (value 0) (take-exact w (be w x) rest (length-be w x)) ∙ value-be w x h;
}

-- A call sends two bytes of those that it is given, or one if there is one.
abbrev pub two_sent : Sender (List Cell)
two_sent = record {
  wire = λ k. k;
  sendmsg = λ k bs fs. (sent (length (take 2 bs)), k ++ attach fs (take 2 bs));
}

pub two_sent-Law : (iov_max : ℕ) → Sending.Law two_sent iov_max
two_sent-Law iov_max k [] fs h = absurd (omega (arith, h))
two_sent-Law iov_max k (b ∷ []) fs h = (omega arith, omega arith, refl)
two_sent-Law iov_max k (b ∷ c ∷ bs) fs h = (omega arith, omega arith, refl)

-- A call sends all that it is given.
abbrev pub all_sent : Sender (List Cell)
all_sent = record { wire = λ k. k; sendmsg = λ k bs fs. (sent (length bs), k ++ attach fs bs) }

take-length : (bs : Bytes) → take (length bs) bs ≡ bs
take-length [] = refl
take-length (b ∷ bs) = ap (λ l. b ∷ l) (take-length bs)

pub all_sent-Law : (iov_max : ℕ) → Sending.Law all_sent iov_max
all_sent-Law iov_max k bs fs h = (h, omega arith, ap (λ l. k ++ attach fs l) (sym (take-length bs)))

-- A call receives two bytes, or as many as it asks for or as there are.
abbrev pub two_received : Receiver (List Cell)
two_received = record {
  wire = λ k. k;
  recvmsg = λ k n. elim k [
    | [] ↦ (again, [])
    | c ∷ cs ↦
        let pre = take n (take 2 (c ∷ cs)) in
        (got 0 (bytes_of pre) (control_of (files_of pre)), drop (length pre) (c ∷ cs))
  ];
}

prefix-drop :
    (n m : ℕ) (cs : List Cell) → take n (take m cs) ++ drop (length (take n (take m cs))) cs ≡ cs
prefix-drop zero m cs = refl
prefix-drop (suc n) zero cs = refl
prefix-drop (suc n) (suc m) [] = refl
prefix-drop (suc n) (suc m) (c ∷ cs) = ap (λ l. c ∷ l) (prefix-drop n m cs)

pub two_received-Law : Phases.Law 1 two_received
two_received-Law [] n h = refl
two_received-Law (c ∷ cs) zero h = absurd (omega (arith, h))
two_received-Law (c ∷ cs) (suc n) h = (
  refl,
  (
    take (suc n) (take 2 (c ∷ cs)),
    sym (prefix-drop (suc n) 2 (c ∷ cs)),
    refl,
    refl,
    omega (arith, length-take (suc n) (take 2 (c ∷ cs))),
    inl (omega arith),
  ),
)

pub two_received-again : ¬ (Refused 1 two_received again)
two_received-again ([], n, h, e) = absurd (omega (arith, h))
two_received-again (c ∷ cs, n, h, e) = cc

pub two_received-recv_failed : ¬ (Refused 1 two_received recv_failed)
two_received-recv_failed ([], n, h, e) = absurd (omega (arith, h))
two_received-recv_failed (c ∷ cs, n, h, e) = cc
