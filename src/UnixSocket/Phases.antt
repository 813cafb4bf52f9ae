-- ===== src/UnixSocket/Phases.antt =====
-- Where the receive side is in a message: in its header, its data, or the bytes with its other files.
use mathlib.Core.List.{append-nil, append_assoc}
use edencommon.Common.{
  ℕ, suc, ◌-◌, ◌%◌, ◌^◌, ◌<◌, ◌≤◌, ◌≡◌, refl, sym, ap, ◌∙◌, inl, inr, true, List, [], ◌∷◌, ◌++◌,
  length, drop, map, arith, length-append,
}
use edencommon.Text.{Bytes}
use edencommon.UnixSocket.{File, Cell, Endian, attach, bytes_of, files_of}
use edencommon.UnixSocket.Cells.{drop-append_ge}
use edencommon.UnixSocket.Send.{protocol_id, serialize_header}
use edencommon.UnixSocket.Receive.{
  Received, Control, again, recv_failed, recv_error, got, Receiver, Header, ReceiveState, Call,
  would_block, error, read, call_recv_msg, process_received_control_data, control_of, ReceivedAs,
  deserialize_header,
}

plain_cells : (bs : Bytes) → map (λ b. (b, [])) bs ≡ attach [] bs
plain_cells [] = refl
plain_cells (b ∷ bs) = refl

files_of-plain :
    (pre : List Cell) (bs : Bytes) (zs ws : List Cell)
    → map (λ b. (b, [])) bs ++ zs ≡ pre ++ ws
    → length pre ≤ length bs
    → (b2 : Bytes) × (bs ≡ bytes_of pre ++ b2) × (files_of pre ≡ []) × (ws ≡ attach [] b2 ++ zs)
files_of-plain [] bs zs ws e l = (bs, refl, refl, sym e ∙ ap (λ x. x ++ zs) (plain_cells bs))
files_of-plain ((b, fs) ∷ pre) [] zs ws e l = absurd (omega (arith, l))
files_of-plain ((b, fs) ∷ pre) (c ∷ bs) zs ws e l =
    let tails : map (λ b. (b, [])) bs ++ zs ≡ pre ++ ws = cc in
    let heads : c ≡ b = cc in
    let none : [] ≡ fs = cc in
    let (b2, p, q, r) = files_of-plain pre bs zs ws tails (omega (arith, l)) in
    (b2, rw (heads, p) refl, rw (sym none) q, r)

-- What is read of bytes that files came with.
pub read-attach :
    (fs : List File) (bs : Bytes) (zs pre ws : List Cell)
    → attach fs bs ++ zs ≡ pre ++ ws
    → length pre ≤ length bs
    → 0 < length pre
    → (b2 : Bytes) × (bs ≡ bytes_of pre ++ b2) × (files_of pre ≡ fs) × (ws ≡ attach [] b2 ++ zs)
read-attach fs bs zs [] ws e l p = absurd (omega (arith, p))
read-attach fs [] zs (c ∷ pre) ws e l p = absurd (omega (arith, l))
read-attach fs (b ∷ bs) zs ((c, gs) ∷ pre) ws e l p =
    let tails : map (λ b. (b, [])) bs ++ zs ≡ pre ++ ws = cc in
    let heads : b ≡ c = cc in
    let same : fs ≡ gs = cc in
    let (b2, q, n, r) = files_of-plain pre bs zs ws tails (omega (arith, l)) in
    (b2, rw (heads, q) refl, rw (n, same) (append-nil gs), r)

pub drop-exact : (n : ℕ) (xs ys : Bytes) → length xs ≡ n → drop n (xs ++ ys) ≡ ys
drop-exact n xs ys e =
    drop-append_ge n xs ys (omega (arith, e))
    ∙ ap (λ k. drop k ys) (let z : n - length xs ≡ 0 = omega (arith, e) in z)

-- deserializeHeader is a left inverse of serializeHeader, where the sizes fit in 32 bits.
pub deserialize-serialize :
    (endian : Endian) (data_size num_files : ℕ)
    → data_size < 2 ^ 32
    → num_files < 2 ^ 32
    → deserialize_header endian (serialize_header endian data_size num_files)
      ≡ record { id = protocol_id; data_size = data_size; num_files = num_files }
unfolding deserialize_header serialize_header
deserialize-serialize endian n m h g =
    let p = endian.write_be 8 protocol_id in
    let a = endian.write_be 4 (n % 2 ^ 32) in
    let b = endian.write_be 4 (m % 2 ^ 32) in
    let lp : length p ≡ 8 = endian.length-write_be 8 protocol_id in
    let la : length a ≡ 4 = endian.length-write_be 4 (n % 2 ^ 32) in
    header-eq (endian.read-write_be 8 protocol_id (a ++ b) (omega arith))
      (ap (endian.read_be 4) (drop-exact 8 p (a ++ b) lp)
        ∙ endian.read-write_be 4 (n % 2 ^ 32) b (omega arith)
        ∙ omega (arith, h))
      (ap (endian.read_be 4) (
          ap (drop 12) (sym (append_assoc p a b))
          ∙ drop-exact 12 (p ++ a) b (omega (arith, lp, la, length-append p a))
          ∙ sym (append-nil b))
        ∙ endian.read-write_be 4 (m % 2 ^ 32) [] (omega arith)
        ∙ omega (arith, g))
  where
    header-eq :
        {i j k l u v : ℕ}
        → i ≡ j
        → k ≡ l
        → u ≡ v
        → Path Header
            (record { id = i; data_size = k; num_files = u })
            (record { id = j; data_size = l; num_files = v })
    header-eq p q r = rw (p, q, r) refl

pub length-serialize_header :
    (endian : Endian) (data_size num_files : ℕ)
    → length (serialize_header endian data_size num_files) ≡ 16
unfolding serialize_header
length-serialize_header endian n m =
    let a = endian.write_be 4 (n % 2 ^ 32) in
    let b = endian.write_be 4 (m % 2 ^ 32) in
    omega (
      arith,
      length-append (endian.write_be 8 protocol_id) (a ++ b),
      length-append a b,
      endian.length-write_be 8 protocol_id,
      endian.length-write_be 4 (n % 2 ^ 32),
      endian.length-write_be 4 (m % 2 ^ 32),
    )

process-control_of :
    (fs gs : List File) → process_received_control_data (control_of fs) gs ≡ (true, gs ++ fs)
unfolding process_received_control_data
process-control_of [] gs = rw (append-nil gs) refl
process-control_of (f ∷ fs) gs = refl

pub length-attach : (fs : List File) (bs : Bytes) → length (attach fs bs) ≡ length bs
length-attach fs [] = refl
length-attach fs (b ∷ bs) = ap suc (go bs)
  where
    go : (bs : Bytes) → length {A = Cell} (map (λ b. (b, [])) bs) ≡ length bs
    go [] = refl
    go (b ∷ bs) = ap suc (go bs)

length-bytes_of : (pre : List Cell) → length (bytes_of pre) ≡ length pre
length-bytes_of [] = refl
length-bytes_of (c ∷ pre) = ap suc (length-bytes_of pre)

module _ {K : Type 0} (msg_ctrunc : ℕ) (receiver : Receiver K) where
  -- The law of the kernel's recvmsg.
  abbrev pub Law : Type 0
  Law =
      (k : K) (n : ℕ)
      → 0 < n
      → ReceivedAs msg_ctrunc (receiver.wire k) n (receiver.recvmsg k n).0
          (receiver.wire (receiver.recvmsg k n).1)

  -- Calls of recvmsg, one after the other, each of which gave something.
  pub data Calls : K → K → Type 0 where
    no_call : {k : K} → Calls k k
    call_then :
        {k k' : K} (n flags : ℕ) (bytes : Bytes) (cs : List Control)
        → (receiver.recvmsg k n).0 ≡ got flags bytes cs
        → Calls (receiver.recvmsg k n).1 k'
        → Calls k k'

  pub Calls-append : {k k1 k2 : K} → Calls k k1 → Calls k1 k2 → Calls k k2
  Calls-append no_call d = d
  Calls-append (call_then n flags bytes cs e c) d = call_then n flags bytes cs e (Calls-append c d)

  -- The first call, with something to receive, gave `a`, and it was the only one.
  abbrev pub OnlyCall : Received → K → K → Type 0
  OnlyCall a k k' =
      (n : ℕ) × (0 < length (receiver.wire k))
      × ((receiver.recvmsg k n).0 ≡ a)
      × (k' ≡ (receiver.recvmsg k n).1)

  -- The last of the calls from `k` to `k'` gave `a`, with something to receive, and those before it
  -- gave something.
  abbrev pub LastCall : Received → K → K → Type 0
  LastCall a k k' = (k0 : K) × (Calls k k0 × OnlyCall a k0 k')

  -- The kernel has refused a call in which there was something to receive.
  abbrev pub Refused : Received → Type 0
  Refused a = (k : K) × (n : ℕ) × (0 < length (receiver.wire k)) × ((receiver.recvmsg k n).0 ≡ a)

  -- What a call for at most so many of the bytes gives, with the files that came with the first.
  abbrev pub Taken :
      List File → Bytes → List Cell → ReceiveState → K → ℕ → Call → ReceiveState → Type 0
  Taken fs bs zs r k size would_block r' =
      OnlyCall again k (receiver.recvmsg k size).1
      × (r' ≡ r)
      × (receiver.wire (receiver.recvmsg k size).1 ≡ receiver.wire k)
  Taken fs bs zs r k size (error f) r' =
      (f ≡ recv_error) × OnlyCall recv_failed k (receiver.recvmsg k size).1
  Taken fs bs zs r k size (read b1) r' =
      Calls k (receiver.recvmsg k size).1
      × (b2 : Bytes) × (bs ≡ b1 ++ b2)
      × (0 < length b1)
      × (length b1 ≤ size)
      × (r' ≡ record r { files = r.files ++ fs })
      × (receiver.wire (receiver.recvmsg k size).1 ≡ attach [] b2 ++ zs)

  wire-nonempty :
      (k : K) (fs : List File) (bs : Bytes) (zs : List Cell)
      → receiver.wire k ≡ attach fs bs ++ zs
      → 0 < length bs
      → 0 < length (receiver.wire k)
  wire-nonempty k fs bs zs w p =
      omega (arith, p, ap length w, length-append (attach fs bs) zs, length-attach fs bs)

  pub call-Taken :
      (answer : Received) (k : K) (r : ReceiveState) (fs : List File) (bs : Bytes) (zs : List Cell)
      (size : ℕ)
      → (receiver.recvmsg k size).0 ≡ answer
      → ReceivedAs msg_ctrunc
          (receiver.wire k)
          size
          answer
          (receiver.wire (receiver.recvmsg k size).1)
      → receiver.wire k ≡ attach fs bs ++ zs
      → 0 < length bs
      → size ≤ length bs
      → Taken fs bs zs r k size
          (call_recv_msg msg_ctrunc answer r).0
          (call_recv_msg msg_ctrunc answer r).1
  unfolding call_recv_msg
  call-Taken again k r fs bs zs size a law w p l =
      ((size, wire-nonempty k fs bs zs w p, a, refl), refl, law)
  call-Taken recv_failed k r fs bs zs size a law w p l =
      (refl, (size, wire-nonempty k fs bs zs w p, a, refl))
  call-Taken (got flags bytes cs) k r fs bs zs size a law w p l =
      let (f, (pre, e, b, c, most, least)) = law in
      let some : 0 < length pre = elim least [
        | inl q ↦ q
        | inr z ↦ absurd (omega (arith, wire-nonempty k fs bs zs w p, ap length z))
      ] in
      let (b2, q, n, rest) =
        read-attach fs bs zs pre (receiver.wire (receiver.recvmsg k size).1) (sym w ∙ e)
          (omega (arith, most, l)) some in
      rw (f, sym c, process-control_of (files_of pre) r.files)
        (
          call_then size flags bytes cs a no_call,
          b2,
          rw (sym b) q,
          rw (sym b) (omega (arith, some, length-bytes_of pre)),
          rw (sym b) (omega (arith, most, length-bytes_of pre)),
          rw n refl,
          rest,
        )
