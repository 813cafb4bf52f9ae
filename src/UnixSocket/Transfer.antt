-- ===== src/UnixSocket/Transfer.antt =====
-- Messages that one end sends are what the other receives.
use mathlib.Core.List.{append-nil, append_assoc}
use mathlib.Core.Path.{subst}
use edencommon.Common.{
  ℕ, zero, suc, ◌<◌, ◌≡◌, refl, sym, ap, ◌∙◌, inl, inr, ◌⊎◌, Bool, true, false, none, List, [], ◌∷◌,
  ◌++◌, length, take, arith, All,
}
use edencommon.UnixSocket.{Cell, Message, Endian, attach, Sender}
use edencommon.UnixSocket.Send.{max_fds, SendQueueEntry, new_entry, send_loop}
use edencommon.UnixSocket.Pending.{extras, Valid}
use edencommon.UnixSocket.Queue.{
  frame, pending_all, pending-new_entry, new_entry-Valid, send_loop-pending,
}
use edencommon.UnixSocket.Sending.{Law}
use edencommon.UnixSocket.Receive.{
  Received, again, recv_failed, Receiver, ReceiveState, Status, done, not_yet, eof, aborted, failed,
  try_receive_one,
}
use edencommon.UnixSocket.Phases as Phases
use edencommon.UnixSocket.Phases.{Refused, OnlyCall, length-serialize_header}
use edencommon.UnixSocket.Receiving.{
  head, body, first, others, InFrame, in_header, in_data, in_files, Allowed, Complete, After,
}
use edencommon.UnixSocket.Heading.{Small}
use edencommon.UnixSocket.Whole.{try_receive_one-After}

abbrev pub frames : Endian → List Message → List Cell
frames endian [] = []
frames endian (m ∷ ms) = frame endian m ++ frames endian ms

append-nil_right : {A : Type 0} (xs ys : List A) → xs ++ ys ≡ [] → xs ≡ []
append-nil_right [] ys e = refl
append-nil_right (x ∷ xs) ys e = cc

-- The checks of a debug build hold where it is none, or there are no files.
quiet :
    {endian : Endian} (m : Message) (rest : List Cell) (debug : Bool)
    → (debug ≡ false) ⊎ (m.files ≡ [])
    → (r : ReceiveState) (w : List Cell) → InFrame endian m rest r w
    → debug ≡ true
    → 0 < length r.files
    → ⊥
quiet m rest debug (inl e) r w f t l = cc
quiet m rest debug (inr e) r w f t l =
    let none : r.files ≡ [] = elim f [
      | in_header h2 fs b p g c x ↦ append-nil_right r.files fs (g ∙ ap (λ z. take max_fds z) e)
      | in_data d2 b h c g x ↦ g ∙ ap (λ z. take max_fds z) e
      | in_files fs2 b h c g x ↦ append-nil_right r.files fs2 (g ∙ e)
    ] in
    absurd (omega (arith, l, ap length none))

refused :
    {K : Type 0} (msg_ctrunc : ℕ) (receiver : Receiver K) (a : Received) (k k' : K)
    → OnlyCall msg_ctrunc receiver a k k'
    → Refused msg_ctrunc receiver a
refused msg_ctrunc receiver a k k' (n, p, e, _) = (k, n, p, e)

module _ {K : Type 0} (endian : Endian) (msg_ctrunc : ℕ) (receiver : Receiver K) where
  -- Events of the socket, up to so many, until a call does not wait for more.
  pub receive_calls : Bool → ℕ → ReceiveState → K → Status × (ReceiveState × K)
  receive_calls debug zero r k = (not_yet, (r, k))
  receive_calls debug (suc n) r k =
      let (status, (r', k')) = try_receive_one endian msg_ctrunc receiver debug r k in
      let rest = receive_calls debug n r' k' in elim status [ not_yet ↦ rest | s ↦ (s, (r', k')) ]

  -- The kernel gives what there is.
  abbrev pub Flows : Type 0
  Flows = (¬ (Refused msg_ctrunc receiver again)) × (¬ (Refused msg_ctrunc receiver recv_failed))

  -- The calls that come after one that returned `s`.
  calls_Complete :
      (m : Message) (rest : List Cell)
      → Phases.Law msg_ctrunc receiver
      → Flows
      → Small endian m rest
      → (debug : Bool) → (debug ≡ false) ⊎ (m.files ≡ [])
      → (n : ℕ) (r : ReceiveState) (k : K) → Allowed endian m rest r
      → InFrame endian m rest r (receiver.wire k)
      → length (receiver.wire k) < n
      → (let (status, (r', k')) = receive_calls debug n r k in
          (status ≡ done) × Complete endian m rest r' (receiver.wire k'))
  unfolding receive_calls
  calls_Complete m rest law flows s debug d zero r k a f l = absurd (omega (arith, l))
  calls_Complete m rest law flows s debug d (suc n) r k a f l =
      go (calls_Complete m rest law flows s debug d n)
        (try_receive_one endian msg_ctrunc receiver debug r k).0 refl
    where
      at :
          (status : Status)
          → (try_receive_one endian msg_ctrunc receiver debug r k).0 ≡ status
          → After endian m rest msg_ctrunc receiver status
              (try_receive_one endian msg_ctrunc receiver debug r k).1.0
              (try_receive_one endian msg_ctrunc receiver debug r k).1.1
              k
      at status e =
          subst
            (λ z.
              After endian m rest msg_ctrunc receiver z
                (try_receive_one endian msg_ctrunc receiver debug r k).1.0
                (try_receive_one endian msg_ctrunc receiver debug r k).1.1 k)
            e
            (elim (try_receive_one-After endian m rest msg_ctrunc receiver law s debug r k a f) [
              | inl (q, _) ↦ absurd (quiet m rest debug d r (receiver.wire k) f q.0 q.2)
              | inr (_, q) ↦ q
            ])

      go :
          ((r : ReceiveState) (k : K)
            → Allowed endian m rest r
            → InFrame endian m rest r (receiver.wire k)
            → length (receiver.wire k) < n
            → (let (status, (r', k')) = receive_calls debug n r k in
                (status ≡ done) × Complete endian m rest r' (receiver.wire k')))
          → (status : Status) → (try_receive_one endian msg_ctrunc receiver debug r k).0 ≡ status
          → (let (st, (r', k')) = receive_calls debug (suc n) r k in
              (st ≡ done) × Complete endian m rest r' (receiver.wire k'))
      go ih done e = rw (e, receive_calls) (refl, at done e)
      go ih not_yet e =
          let (a', f', p) = at not_yet e in
          rw (e, receive_calls)
            (ih (try_receive_one endian msg_ctrunc receiver debug r k).1.0
              (try_receive_one endian msg_ctrunc receiver debug r k).1.1 a' f'
              (elim p [
                | inl q ↦ omega (arith, q, l)
                | inr (q, _) ↦ absurd (flows.0 (refused msg_ctrunc receiver again k _ q))
              ]))
      go ih eof e = absurd (at eof e)
      go ih aborted e = absurd (at aborted e)
      go ih (failed f) e =
          let (_, (k0, (_, o))) = at (failed f) e in
          absurd (flows.1 (refused msg_ctrunc receiver recv_failed k0 _ o))

  -- In a release build, or where the message has no files: a receiver that is between two messages,
  -- where a message that its limits allow is next on the wire, and recvmsg gives some of what there
  -- is: in as many calls as the wire has bytes, and one more,
  -- the message is complete, with the data and the files that were sent, and the wire is at what
  -- follows.
  pub receive_calls-Complete :
      (m : Message) (rest : List Cell) (debug : Bool) (n : ℕ) (r : ReceiveState) (k : K)
      → Phases.Law msg_ctrunc receiver
      → Flows
      → Small endian m rest
      → (debug ≡ false) ⊎ (m.files ≡ [])
      → Allowed endian m rest r
      → (r.header_buffer ≡ []) × (r.content ≡ []) × (r.files ≡ [])
      → receiver.wire k ≡ frame endian m ++ rest
      → length (receiver.wire k) < n
      → (let (status, (r', k')) = receive_calls debug n r k in
          (status ≡ done) × Complete endian m rest r' (receiver.wire k'))
  receive_calls-Complete m rest debug n r k law flows s d a i w l =
      calls_Complete m rest law flows s debug d n r k a
        (in_header (head endian m rest) (first endian m rest)
          (ap (λ z. z ++ head endian m rest) i.0)
          (omega
            (arith, length-serialize_header endian (length (body endian m rest)) (length m.files)))
          (ap (λ z. z ++ first endian m rest) i.2) i.1
          (w
            ∙ append_assoc (attach (first endian m rest) (head endian m rest ++ body endian m rest))
                (extras (others endian m rest)) rest))
        l

unfoldable pub entries : Endian → List Message → List SendQueueEntry
entries endian [] = []
entries endian (m ∷ ms) = new_entry endian m none ∷ entries endian ms

entries-Valid : (endian : Endian) (ms : List Message) → All Valid (entries endian ms)
unfolding entries
entries-Valid endian [] = tt
entries-Valid endian (m ∷ ms) = (new_entry-Valid endian m none, entries-Valid endian ms)

pending_all-entries :
    (endian : Endian) (ms : List Message) → pending_all (entries endian ms) ≡ frames endian ms
unfolding entries
pending_all-entries endian [] = refl
pending_all-entries endian (m ∷ ms) =
    rw (pending-new_entry endian m none)
      (ap (λ l. frame endian m ++ l) (pending_all-entries endian ms))

-- What one end sends the other receives, in a release build, or where the first message has no files. A
-- queue of messages that trySend empties onto a wire that is
-- empty, whatever parts the kernel takes; then a receiver on that wire, between two messages, whose
-- limits allow the first, and whatever parts the kernel gives: the first message is received complete,
-- and the wire is at the others.
pub receive_calls-send_loop :
    {K L : Type 0} (endian : Endian) (msg_ctrunc iov_max : ℕ) (sender : Sender K)
    (receiver : Receiver L) (m : Message) (ms : List Message) (debug : Bool) (rounds n : ℕ) (k : K)
    (r : ReceiveState) (l : L)
    → Law sender iov_max
    → 0 < iov_max
    → sender.wire k ≡ []
    → (send_loop sender iov_max rounds (entries endian (m ∷ ms)) k).0 ≡ []
    → Phases.Law msg_ctrunc receiver
    → Flows endian msg_ctrunc receiver
    → receiver.wire l
      ≡ sender.wire (send_loop sender iov_max rounds (entries endian (m ∷ ms)) k).1.0
    → Small endian m (frames endian ms)
    → (debug ≡ false) ⊎ (m.files ≡ [])
    → Allowed endian m (frames endian ms) r
    → (r.header_buffer ≡ []) × (r.content ≡ []) × (r.files ≡ [])
    → length (receiver.wire l) < n
    → (let (status, (r', l')) = receive_calls endian msg_ctrunc receiver debug n r l in
        (status ≡ done) × Complete endian m (frames endian ms) r' (receiver.wire l'))
receive_calls-send_loop endian msg_ctrunc iov_max sender receiver m ms debug rounds n k r l law pos
      empty sent_all law' flows same small unchecked allowed idle enough =
    receive_calls-Complete endian msg_ctrunc receiver m (frames endian ms) debug n r l law' flows
      small unchecked allowed idle
      (same
        ∙ sym (
            append-nil
              (sender.wire (send_loop sender iov_max rounds (entries endian (m ∷ ms)) k).1.0))
        ∙ sym (
            ap
              (λ q.
                sender.wire (send_loop sender iov_max rounds (entries endian (m ∷ ms)) k).1.0
                ++ pending_all q)
              sent_all)
        ∙ (send_loop-pending sender iov_max law pos rounds (entries endian (m ∷ ms)) k
            (entries-Valid endian (m ∷ ms))).0
        ∙ ap (λ w. w ++ pending_all (entries endian (m ∷ ms))) empty
        ∙ pending_all-entries endian (m ∷ ms))
      enough
