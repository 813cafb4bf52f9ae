-- ===== src/UnixSocket/Delivery.antt =====
-- tryReceiveOne from the header on, and a message received in as many calls as it takes.
use mathlib.Core.List.{append-nil, append_assoc}
use edencommon.Common.{
  ℕ, suc, ◌+◌, ◌-◌, ◌<◌, ◌≤◌, ◌≡◌, refl, sym, ap, ◌∙◌, ◌==◌, inl, inr, true, List, [], ◌∷◌, ◌++◌,
  length, arith, Bool-cases, length-append, ltb,
}
use edencommon.Text.{Bytes}
use edencommon.UnixSocket.{File, Cell, Message, Endian, attach}
use edencommon.UnixSocket.Cells.{take-drop, drop-length-take}
use edencommon.UnixSocket.Send.{max_fds}
use edencommon.UnixSocket.Pending.{extras}
use edencommon.UnixSocket.Receive.{
  Receiver, Header, ReceiveState, Call, would_block, error, read, Status, done, not_yet, eof,
  aborted, failed, data_received, and_then, receive_part, receive_files, receive_data,
}
use edencommon.UnixSocket.Phases.{
  Law, Calls, Calls-append, no_call, Taken, call-Taken, length-attach,
}
use edencommon.UnixSocket.Receiving.{
  enough, some_left, length-nil, head, body, first, others, sizes, in_data, Allowed, After,
  files-After,
}

pub split_prefix :
    (xs ys us vs : Bytes)
    → xs ++ ys ≡ us ++ vs
    → length us ≤ length xs
    → (t : Bytes) × (xs ≡ us ++ t) × (vs ≡ t ++ ys)
split_prefix xs ys [] vs e l = (xs, refl, sym e)
split_prefix [] ys (u ∷ us) vs e l = absurd (omega (arith, l))
split_prefix (x ∷ xs) ys (u ∷ us) vs e l =
    let tails : xs ++ ys ≡ us ++ vs = cc in
    let heads : x ≡ u = cc in
    let (t, p, q) = split_prefix xs ys us vs tails (omega (arith, l)) in (t, rw (heads, p) refl, q)

-- Bytes that are read leave the wire.
pub shrinks :
    (fs gs : List File) (bs b1 b2 : Bytes) (zs : List Cell)
    → bs ≡ b1 ++ b2
    → 0 < length b1
    → length (attach gs b2 ++ zs) < length (attach fs bs ++ zs)
shrinks fs gs bs b1 b2 zs e p = omega (
  arith,
  p,
  length-append (attach gs b2) zs,
  length-append (attach fs bs) zs,
  length-attach gs b2,
  length-attach fs bs,
  ap length e,
  length-append b1 b2,
)

part_all : (n c d p b : ℕ) → c + d ≡ n → d ≡ p + b → (p == (n - c)) ≡ true → b ≡ 0
part_all n c d p b e f h = ground arith

module _ (endian : Endian) (m : Message) (rest : List Cell) {K : Type 0} (msg_ctrunc : ℕ)
    (receiver : Receiver K) where
  -- Calls that come after some that read.
  pub weaken :
      (s : Status) (r : ReceiveState) (k' k1 k : K)
      → Calls msg_ctrunc receiver k k1
      → length (receiver.wire k1) < length (receiver.wire k)
      → After endian m rest msg_ctrunc receiver s r k' k1
      → After endian m rest msg_ctrunc receiver s r k' k
  weaken done r k' k1 k c l h = h
  weaken not_yet r k' k1 k c l h = (
    h.0,
    h.1,
    elim h.2 [
      | inl p ↦ inl (omega (arith, p, l))
      | inr (_, q) ↦ inl (omega (arith, l, ap length q))
    ],
  )
  weaken eof r k' k1 k c l h = h
  weaken aborted r k' k1 k c l h = h
  weaken (failed f) r k' k1 k c l (e, (k0, (d, o))) =
      (e, (k0, (Calls-append msg_ctrunc receiver c d, o)))

  -- After the data.
  abbrev DataPart : Status → ReceiveState → K → K → Type 0
  DataPart done r k' k =
      Allowed endian m rest r
      × (r.header_buffer ≡ head endian m rest)
      × (r.header ≡ sizes endian m rest)
      × (r.content ≡ body endian m rest)
      × (r.files ≡ first endian m rest)
      × (receiver.wire k' ≡ extras (others endian m rest) ++ rest)
      × (length (receiver.wire k') < length (receiver.wire k))
      × Calls msg_ctrunc receiver k k'
  DataPart not_yet r k' k = After endian m rest msg_ctrunc receiver not_yet r k' k
  DataPart eof r k' k = After endian m rest msg_ctrunc receiver eof r k' k
  DataPart aborted r k' k = After endian m rest msg_ctrunc receiver aborted r k' k
  DataPart (failed f) r k' k = After endian m rest msg_ctrunc receiver (failed f) r k' k

  data_step :
      (c : Call) (r r' : ReceiveState) (d2 : Bytes) (k : K) (size : ℕ)
      → Allowed endian m rest r
      → r.header_buffer ≡ head endian m rest
      → r.header ≡ sizes endian m rest
      → r.content ++ d2 ≡ body endian m rest
      → r.files ≡ first endian m rest
      → receiver.wire k ≡ attach [] d2 ++ (extras (others endian m rest) ++ rest)
      → Taken msg_ctrunc receiver [] d2 (extras (others endian m rest) ++ rest) r k size c r'
      → DataPart (data_received c r').0 (data_received c r').1 (receiver.recvmsg k size).1 k
  unfolding data_received
  data_step would_block r r' d2 k size a b h c f w (o, e, g) =
      rw e (a, in_data d2 b h c f (g ∙ w), inr (o, g))
  data_step (error e) r r' d2 k size a b h c f w (e', o) = (e', (k, (no_call, o)))
  data_step (read []) r r' d2 k size a b h c f w (_, _, _, pos, _, _, _) =
      absurd (omega (arith, pos))
  data_step (read (x ∷ xs)) r r' d2 k size a b h c f w t =
      let (calls, b2, q, pos, most, e, g) = t in
      let all : (r.content ++ x ∷ xs) ++ b2 ≡ body endian m rest =
        append_assoc r.content (x ∷ xs) b2 ∙ ap (λ l. r.content ++ l) (sym q) ∙ c in
      let files : r.files ++ [] ≡ first endian m rest = append-nil r.files ∙ f in
      let less : length (attach [] b2 ++ (extras (others endian m rest) ++ rest))
          < length (receiver.wire k) =
        rw w (shrinks [] [] d2 (x ∷ xs) b2 (extras (others endian m rest) ++ rest) q pos) in
      elim (Bool-cases (suc (length xs) == (r.header.data_size - length r.content))) [
        | inl u ↦
            let last : b2 ≡ [] = length-nil b2 (
              part_all r.header.data_size (length r.content) (length d2) (suc (length xs))
                (length b2)
                (sym (length-append r.content d2)
                  ∙ ap length c
                  ∙ sym (ap (λ (z : Header). z.data_size) h))
                (ap length q ∙ length-append (x ∷ xs) b2) u) in
            rw (e, u, g)
              (
                a,
                b,
                h,
                sym (append-nil (r.content ++ x ∷ xs))
                    ∙ ap (λ l. (r.content ++ x ∷ xs) ++ l) (sym last)
                    ∙ all,
                files,
                ap (λ l. attach [] l ++ (extras (others endian m rest) ++ rest)) last,
                omega (arith, less),
                calls,
              )
        | inr u ↦ rw (e, u, g) (a, in_data b2 b h all files refl, inl less)
      ]

  all_files :
      (r : ReceiveState) → r.files ≡ first endian m rest → r.files ++ others endian m rest ≡ m.files
  all_files r f = rw f (
      ap (λ z. first endian m rest ++ z) (drop-length-take max_fds m.files)
      ∙ take-drop max_fds m.files)

  and_then_files :
      Law msg_ctrunc receiver
      → (s : Status) (r : ReceiveState) (k1 k : K) → DataPart s r k1 k
      → (let (status, (r', k')) = and_then s (r, k1) (receive_files endian msg_ctrunc receiver) in
          After endian m rest msg_ctrunc receiver status r' k' k)
  and_then_files law done r k1 k h =
      let (a, b, g, c, f, w, l, calls) = h in
      weaken _ _ _ k1 k calls l (
        files-After endian m rest msg_ctrunc receiver law r k1 (others endian m rest) a b g c
          (all_files r f) w)
  and_then_files law not_yet r k1 k h = h
  and_then_files law eof r k1 k h = h
  and_then_files law aborted r k1 k h = h
  and_then_files law (failed f) r k1 k h = h

  -- tryReceiveOne from the data on.
  pub data-After :
      Law msg_ctrunc receiver
      → (r : ReceiveState) (k : K) (d2 : Bytes) → Allowed endian m rest r
      → r.header_buffer ≡ head endian m rest
      → r.header ≡ sizes endian m rest
      → r.content ++ d2 ≡ body endian m rest
      → r.files ≡ first endian m rest
      → receiver.wire k ≡ attach [] d2 ++ (extras (others endian m rest) ++ rest)
      → (let (status, (r', k')) = receive_data endian msg_ctrunc receiver r k in
          After endian m rest msg_ctrunc receiver status r' k' k)
  unfolding receive_data receive_part
  data-After law r k d2 a b h c f w =
      let total : length r.content + length d2 ≡ r.header.data_size =
        sym (length-append r.content d2) ∙ ap length c ∙ sym (ap (λ (z : Header). z.data_size) h) in
      let size = r.header.data_size - length r.content in
      elim (Bool-cases (ltb (length r.content) r.header.data_size)) [
        | inl u ↦ rw u (
            and_then_files law _ _ _ k (
              data_step _ r _ d2 k size a b h c f w (
                call-Taken msg_ctrunc receiver (receiver.recvmsg k size).0 k r [] d2
                  (extras (others endian m rest) ++ rest) size refl
                  (law k size (
                    omega
                      (arith, total, some_left (length r.content) _ r.header.data_size total u)))
                  w (some_left (length r.content) _ r.header.data_size total u)
                  (omega (arith, total)))))
        | inr u ↦
            let last : d2 ≡ [] =
              length-nil d2 (enough (length r.content) _ r.header.data_size total u) in
            rw u (
              files-After endian m rest msg_ctrunc receiver law r k (others endian m rest) a b h
                (sym (append-nil r.content) ∙ ap (λ l. r.content ++ l) (sym last) ∙ c)
                (all_files r f)
                (w ∙ ap (λ l. attach [] l ++ (extras (others endian m rest) ++ rest)) last))
      ]
