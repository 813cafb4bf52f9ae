-- ===== src/UnixSocket/Heading.antt =====
-- tryReceiveHeader and the checks of the header, and what follows them in tryReceiveOne.
use mathlib.Core.List.{append-nil, append_assoc}
use edencommon.Common.{
  ℕ, ◌+◌, ◌-◌, ◌^◌, ◌<◌, ◌≤◌, ◌≡◌, refl, sym, ap, ◌∙◌, ◌==◌, inl, inr, false, List, [], ◌∷◌, ◌++◌,
  length, arith, Bool-cases, length-append, ltb,
}
use edencommon.Text.{Bytes}
use edencommon.UnixSocket.{File, Cell, Message, Endian, attach}
use edencommon.UnixSocket.Send.{protocol_id}
use edencommon.UnixSocket.Pending.{extras}
use edencommon.UnixSocket.Receive.{
  Receiver, Header, ReceiveState, Call, would_block, error, read, Status, done, not_yet, eof,
  aborted, failed, header_received, check_header, and_then, receive_part, receive_data,
  header_length, deserialize_header,
}
use edencommon.UnixSocket.Phases.{
  Law, Calls, no_call, Taken, call-Taken, deserialize-serialize, length-serialize_header,
}
use edencommon.UnixSocket.Receiving.{
  none_left, length-nil, head, body, first, others, sizes, in_header, Allowed, After,
}
use edencommon.UnixSocket.Delivery.{split_prefix, shrinks, weaken, data-After}

module _ (endian : Endian) (m : Message) (rest : List Cell) where
  -- The sizes of the message fit in the header.
  abbrev pub Small : Type 0
  Small = (length (body endian m rest) < 2 ^ 32) × (length m.files < 2 ^ 32)

  check-eq :
      (r : ReceiveState)
      → Small
      → Allowed endian m rest r
      → r.header_buffer ≡ head endian m rest
      → r.content ≡ []
      → check_header endian r ≡ (done, record r { header = sizes endian m rest; content = [] })
  unfolding check_header
  check-eq r s a b c =
      let decoded : deserialize_header endian r.header_buffer ≡ sizes endian m rest =
        ap (deserialize_header endian) b
        ∙ deserialize-serialize endian (length (body endian m rest)) (length m.files) s.0 s.1 in
      let i : (deserialize_header endian r.header_buffer).id ≡ protocol_id =
        ap (λ (z : Header). z.id) decoded in
      let j : (deserialize_header endian r.header_buffer).data_size ≡ length (body endian m rest) =
        ap (λ (z : Header). z.data_size) decoded in
      let n : (deserialize_header endian r.header_buffer).num_files ≡ length m.files =
        ap (λ (z : Header). z.num_files) decoded in
      let fits : ltb r.max_data_length (length (body endian m rest)) ≡ false = over _ _ a.0 in
      let few : ltb r.max_files (length m.files) ≡ false = over _ _ a.1 in
      elim (Bool-cases (ltb 0 (length (body endian m rest)))) [
        | inl u ↦ rw (i, j, n, fits, few, u) refl
        | inr u ↦
            rw (i, j, n, fits, few, u)
              (ap (λ z. (done, record r { header = sizes endian m rest; content = z })) c)
      ]
    where
      over : (l n : ℕ) → n ≤ l → ltb l n ≡ false
      over l n h = ground arith

  module _ {K : Type 0} (msg_ctrunc : ℕ) (receiver : Receiver K) where
    -- After the header.
    abbrev HeaderPart : Status → ReceiveState → K → K → Type 0
    HeaderPart done r k' k =
        Allowed endian m rest r
        × (r.header_buffer ≡ head endian m rest)
        × (r.content ≡ [])
        × (r.files ≡ first endian m rest)
        × (receiver.wire k'
            ≡ attach [] (body endian m rest) ++ (extras (others endian m rest) ++ rest))
        × (length (receiver.wire k') < length (receiver.wire k))
        × Calls msg_ctrunc receiver k k'
    HeaderPart not_yet r k' k = After endian m rest msg_ctrunc receiver not_yet r k' k
    HeaderPart eof r k' k = After endian m rest msg_ctrunc receiver eof r k' k
    HeaderPart aborted r k' k = After endian m rest msg_ctrunc receiver aborted r k' k
    HeaderPart (failed f) r k' k = After endian m rest msg_ctrunc receiver (failed f) r k' k

    header_step :
        (c : Call) (r r' : ReceiveState) (h2 : Bytes) (fs : List File) (k : K) (size : ℕ)
        → Allowed endian m rest r
        → r.header_buffer ++ h2 ≡ head endian m rest
        → 0 < length h2
        → r.files ++ fs ≡ first endian m rest
        → r.content ≡ []
        → receiver.wire k
          ≡ attach fs (h2 ++ body endian m rest) ++ (extras (others endian m rest) ++ rest)
        → size ≤ length h2
        → Taken msg_ctrunc receiver fs
            (h2 ++ body endian m rest)
            (extras (others endian m rest) ++ rest)
            r
            k
            size
            c
            r'
        → HeaderPart (header_received c r').0 (header_received c r').1 (receiver.recvmsg k size).1 k
    unfolding header_received
    header_step would_block r r' h2 fs k size a b p f c w l (o, e, g) =
        rw e (a, in_header h2 fs b p f c (g ∙ w), inr (o, g))
    header_step (error e) r r' h2 fs k size a b p f c w l (e', o) = (e', (k, (no_call, o)))
    header_step (read []) r r' h2 fs k size a b p f c w l (_, _, _, pos, _, _, _) =
        absurd (omega (arith, pos))
    header_step (read (x ∷ xs)) r r' h2 fs k size a b p f c w l t =
        let (calls, b2, q, pos, most, e, g) = t in
        let (h3, u, v) =
          split_prefix h2 (body endian m rest) (x ∷ xs) b2 q (omega (arith, most, l)) in
        let all : (r.header_buffer ++ x ∷ xs) ++ h3 ≡ head endian m rest =
          append_assoc r.header_buffer (x ∷ xs) h3 ∙ ap (λ z. r.header_buffer ++ z) (sym u) ∙ b in
        let total : length (r.header_buffer ++ x ∷ xs) + length h3 ≡ header_length =
          sym (length-append (r.header_buffer ++ x ∷ xs) h3)
          ∙ ap length all
          ∙ length-serialize_header endian (length (body endian m rest)) (length m.files) in
        let less =
          shrinks fs [] (h2 ++ body endian m rest) (x ∷ xs) b2
            (extras (others endian m rest) ++ rest) q pos in
        let files : (r.files ++ fs) ++ [] ≡ first endian m rest = append-nil (r.files ++ fs) ∙ f in
        elim (Bool-cases (length (r.header_buffer ++ x ∷ xs) == header_length)) [
          | inl y ↦
              let last : h3 ≡ [] =
                length-nil h3
                  (none_left (length (r.header_buffer ++ x ∷ xs)) _ header_length total y) in
              rw (e, y, g)
                (
                  a,
                  sym (append-nil (r.header_buffer ++ x ∷ xs))
                      ∙ ap (λ z. (r.header_buffer ++ x ∷ xs) ++ z) (sym last)
                      ∙ all,
                  c,
                  f,
                  ap (λ z. attach [] z ++ (extras (others endian m rest) ++ rest))
                      (v ∙ ap (λ z. z ++ body endian m rest) last),
                  rw w (omega (arith, less)),
                  calls,
                )
          | inr y ↦
              rw (e, y, g)
                (
                  a,
                  in_header h3 [] all
                      (more (length (r.header_buffer ++ x ∷ xs)) (length h3) total y) files c
                      (ap (λ z. attach [] z ++ (extras (others endian m rest) ++ rest)) v),
                  inl (rw w less),
                )
        ]
      where
        more : (l d : ℕ) → l + d ≡ header_length → (l == header_length) ≡ false → 0 < d
        more l d h g = ground arith

    and_then_data :
        Law msg_ctrunc receiver
        → Small
        → (s : Status) (r : ReceiveState) (k1 k : K) → HeaderPart s r k1 k
        → (let (status, (r', k')) =
              and_then s
                (r, k1)
                (λ r1 k2.
                  let (s2, r2) = check_header endian r1 in
                  and_then s2 (r2, k2) (receive_data endian msg_ctrunc receiver)) in
            After endian m rest msg_ctrunc receiver status r' k' k)
    and_then_data law s done r k1 k h =
        let (a, b, c, f, w, l, calls) = h in
        rw (check-eq r s a b c) (
          weaken endian m rest msg_ctrunc receiver _ _ _ k1 k calls l (
            data-After endian m rest msg_ctrunc receiver law
              (record r { header = sizes endian m rest; content = [] }) k1 (body endian m rest) a b
              refl refl f w))
    and_then_data law s not_yet r k1 k h = h
    and_then_data law s eof r k1 k h = h
    and_then_data law s aborted r k1 k h = h
    and_then_data law s (failed f) r k1 k h = h

    pub in_header-After :
        Law msg_ctrunc receiver
        → Small
        → (r : ReceiveState) (k : K) (h2 : Bytes) (fs : List File) → Allowed endian m rest r
        → r.header_buffer ++ h2 ≡ head endian m rest
        → 0 < length h2
        → r.files ++ fs ≡ first endian m rest
        → r.content ≡ []
        → receiver.wire k
          ≡ attach fs (h2 ++ body endian m rest) ++ (extras (others endian m rest) ++ rest)
        → (let size = header_length - length r.header_buffer in
            let (status, rk) = receive_part endian msg_ctrunc receiver header_received size r k in
            let (status', (r', k')) = and_then status rk (λ r1 k1.
              let (s2, r2) = check_header endian r1 in
              and_then s2 (r2, k1) (receive_data endian msg_ctrunc receiver)) in
            After endian m rest msg_ctrunc receiver status' r' k' k)
    unfolding receive_part
    in_header-After law s r k h2 fs a b p f c w =
        let total : length r.header_buffer + length h2 ≡ header_length =
          sym (length-append r.header_buffer h2)
          ∙ ap length b
          ∙ length-serialize_header endian (length (body endian m rest)) (length m.files) in
        let size = header_length - length r.header_buffer in
        let fits : size ≤ length h2 = omega (arith, total) in
        and_then_data law s _ _ _ k (
          header_step _ r _ h2 fs k size a b p f c w fits (
            call-Taken msg_ctrunc receiver (receiver.recvmsg k size).0 k r fs
              (h2 ++ body endian m rest) (extras (others endian m rest) ++ rest) size refl
              (law k size (omega (arith, total, p))) w
              (omega (arith, p, length-append h2 (body endian m rest)))
              (omega (arith, fits, length-append h2 (body endian m rest)))))
