-- ===== src/UnixSocket/Whole.antt =====
-- tryReceiveOne as a whole, and a message received in as many calls as it takes.
use edencommon.Common.{
  ℕ, ◌+◌, ◌<◌, ◌≡◌, refl, sym, ap, ◌∙◌, inl, inr, ◌⊎◌, Bool, not, ◌&&◌, true, false, List, [], ◌∷◌,
  length, arith, Bool-cases, length-append, ltb,
}
use edencommon.UnixSocket.{File, Cell, Message, Endian}
use edencommon.UnixSocket.Receive.{
  Receiver, Header, ReceiveState, aborted, is_nil, receive_data, try_receive_one, header_length,
}
use edencommon.UnixSocket.Phases.{Law, length-serialize_header}
use edencommon.UnixSocket.Receiving.{
  not_over, head, body, sizes, InFrame, in_header, in_data, in_files, Allowed, After, files-After,
}
use edencommon.UnixSocket.Delivery.{data-After}
use edencommon.UnixSocket.Heading.{Small, in_header-After}

module _ (endian : Endian) (m : Message) (rest : List Cell) where
  module _ {K : Type 0} (msg_ctrunc : ℕ) (receiver : Receiver K) where
    filled :
        (r : ReceiveState)
        → r.header_buffer ≡ head endian m rest
        → ltb (length r.header_buffer) header_length ≡ false
    filled r b =
        rw
          (ap length b
            ∙ length-serialize_header endian (length (body endian m rest)) (length m.files))
          refl

    complete :
        (r : ReceiveState)
        → r.header_buffer ≡ head endian m rest
        → length r.header_buffer < header_length
        → ⊥
    complete r b l = absurd (
        omega (
          arith,
          l,
          ap length b,
          length-serialize_header endian (length (body endian m rest)) (length m.files),
        ))

    no_data :
        (r : ReceiveState)
        → r.header ≡ sizes endian m rest
        → r.content ≡ body endian m rest
        → ltb (length r.content) r.header.data_size ≡ false
    no_data r h c =
        not_over r.header.data_size 0 (length r.content)
          (omega (arith, ap length c, ap (λ (z : Header). z.data_size) h))

    -- The checks of a debug build fail: the header is incomplete and files are there.
    abbrev pub Asserts : Bool → ReceiveState → Type 0
    Asserts debug r =
        (debug ≡ true) × (length r.header_buffer < header_length) × (0 < length r.files)

    -- What a call of tryReceiveOne does from this state.
    abbrev pub Outcome : Bool → ReceiveState → K → Type 0
    Outcome debug r k =
        (Asserts debug r
          × (try_receive_one endian msg_ctrunc receiver debug r k ≡ (aborted, (r, k))))
        ⊎ ((¬ (Asserts debug r))
            × (let (status, (r', k')) = try_receive_one endian msg_ctrunc receiver debug r k in
                After endian m rest msg_ctrunc receiver status r' k' k))

    -- A call of tryReceiveOne anywhere in a message that the limits allow. If it is a debug build, the
    -- header is incomplete and files of the message are there already, it aborts, and changes nothing.
    -- If not: if it returns that the message is complete, its data and its files are those that were
    -- sent and the wire is at what follows; if it returns that it is not, the receiver is again somewhere
    -- in the message, and bytes of it were received, or the call of recvmsg, the only one, gave EAGAIN
    -- and the wire is as it was; it never sees an end; and what it throws is the error of recvmsg, whose
    -- last call, after others that gave something, failed.
    pub try_receive_one-After :
        Law msg_ctrunc receiver
        → Small endian m rest
        → (debug : Bool) (r : ReceiveState) (k : K) → Allowed endian m rest r
        → InFrame endian m rest r (receiver.wire k)
        → Outcome debug r k
    unfolding try_receive_one is_nil
    try_receive_one-After law s debug r k a (in_header h2 fs b p f c w) =
        let total : length r.header_buffer + length h2 ≡ header_length =
          sym (length-append r.header_buffer h2)
          ∙ ap length b
          ∙ length-serialize_header endian (length (body endian m rest)) (length m.files) in
        let u : ltb (length r.header_buffer) header_length ≡ true = short _ _ total p in
        elim (Bool-cases (debug && not (is_nil r.files))) [
          | inl y ↦ inl (
            (
              (and_true debug _ y).0,
              omega (arith, total, p),
              non_empty r.files ((and_true debug _ y).1),
            ),
            rw (u, guard r debug c ∙ y) refl,
          )
          | inr y ↦ inr (
            λ q. quiet debug r.files y q.0 q.2,
            rw (u, guard r debug c ∙ y)
                (in_header-After endian m rest msg_ctrunc receiver law s r k h2 fs a b p f c w),
          )
        ]
      where
        short : (l d : ℕ) → l + d ≡ header_length → 0 < d → ltb l header_length ≡ true
        short l d h g = ground arith

        and_true : (x y : Bool) → (x && y) ≡ true → (x ≡ true) × (y ≡ true)
        and_true true true e = (refl, refl)
        and_true true false e = cc
        and_true false y e = cc

        guard :
            (r : ReceiveState) (debug : Bool)
            → r.content ≡ []
            → (debug && not (is_nil r.content && is_nil r.files)) ≡ (debug && not (is_nil r.files))
        guard r debug c = ap (λ z. debug && not (is_nil z && is_nil r.files)) c

        non_empty : (fs : List File) → not (is_nil fs) ≡ true → 0 < length fs
        non_empty [] e = cc
        non_empty (f ∷ fs) e = omega arith

        quiet :
            (x : Bool) (fs : List File)
            → (x && not (is_nil fs)) ≡ false
            → x ≡ true
            → 0 < length fs
            → ⊥
        quiet true [] e d l = absurd (omega (arith, l))
        quiet true (f ∷ fs) e d l = cc
        quiet false fs e d l = cc
    try_receive_one-After law s debug r k a (in_data d2 b h c f w) = inr (
      λ q. complete r b q.1,
      rw (filled r b) (data-After endian m rest msg_ctrunc receiver law r k d2 a b h c f w),
    )
    try_receive_one-After law s debug r k a (in_files fs2 b h c f w) = inr (
      λ q. complete r b q.1,
      rw (filled r b) (
          unfold receive_data in
          rw (no_data r h c)
            (files-After endian m rest msg_ctrunc receiver law r k fs2 a b h c f w)),
    )
