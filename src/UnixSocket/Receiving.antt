-- ===== src/UnixSocket/Receiving.antt =====
-- A message that is on the wire is received whole, in as many calls as it takes.
use mathlib.Core.List.{append-nil, append_assoc}
use edencommon.Common.{
  ℕ, ◌+◌, ◌<◌, ◌≤◌, ◌≡◌, refl, sym, ap, ◌∙◌, ◌==◌, inl, inr, ◌⊎◌, true, false, List, [], ◌∷◌, ◌++◌,
  length, take, drop, arith, Bool-cases, length-append, ltb,
}
use edencommon.Text.{Bytes}
use edencommon.UnixSocket.{File, Cell, Message, Endian, attach}
use edencommon.UnixSocket.Cells.{take-drop}
use edencommon.UnixSocket.Send.{max_fds, concat, protocol_id, serialize_header}
use edencommon.UnixSocket.Pending.{extras, extras-next}
use edencommon.UnixSocket.Receive.{
  again, recv_failed, recv_error, aborted, Receiver, Header, ReceiveState, Call, would_block, error,
  read, Status, done, not_yet, eof, failed, files_received, receive_part, receive_files,
}
use edencommon.UnixSocket.Phases.{Law, no_call, OnlyCall, LastCall, Taken, call-Taken}

pub length-nil : {A : Type 0} (xs : List A) → length xs ≡ 0 → xs ≡ []
length-nil [] e = refl
length-nil (x ∷ xs) e = absurd (omega (arith, e))

-- A part of l, of a size n, of which d are left.
pub not_over : (l d n : ℕ) → l + d ≡ n → ltb n l ≡ false
not_over l d n e = ground arith

pub none_left : (l d n : ℕ) → l + d ≡ n → (l == n) ≡ true → d ≡ 0
none_left l d n e h = ground arith

pub enough : (l d n : ℕ) → l + d ≡ n → ltb l n ≡ false → d ≡ 0
enough l d n e h = ground arith

pub some_left : (l d n : ℕ) → l + d ≡ n → ltb l n ≡ true → 0 < d
some_left l d n e h = ground arith

module _ (endian : Endian) (m : Message) (rest : List Cell) where
  -- The bytes of the header and of the data, the files that go with them, and the others.
  abbrev pub head : Bytes
  head = serialize_header endian (length (concat m.content)) (length m.files)

  abbrev pub body : Bytes
  body = concat m.content

  abbrev pub first : List File
  first = take max_fds m.files

  abbrev pub others : List File
  others = drop (length first) m.files

  abbrev pub sizes : Header
  sizes = record { id = protocol_id; data_size = length body; num_files = length m.files }

  -- Where the receiver is, and what of the message is on the wire.
  pub data InFrame (r : ReceiveState) (w : List Cell) : Type 0 where
    in_header :
        (h2 : Bytes) (fs : List File)
        → r.header_buffer ++ h2 ≡ head
        → 0 < length h2
        → r.files ++ fs ≡ first
        → r.content ≡ []
        → w ≡ attach fs (h2 ++ body) ++ (extras others ++ rest)
        → InFrame r w
    in_data :
        (d2 : Bytes)
        → r.header_buffer ≡ head
        → r.header ≡ sizes
        → r.content ++ d2 ≡ body
        → r.files ≡ first
        → w ≡ attach [] d2 ++ (extras others ++ rest)
        → InFrame r w
    in_files :
        (fs2 : List File)
        → r.header_buffer ≡ head
        → r.header ≡ sizes
        → r.content ≡ body
        → r.files ++ fs2 ≡ m.files
        → w ≡ extras fs2 ++ rest
        → InFrame r w

  -- The limits of the receiver allow the message.
  abbrev pub Allowed : ReceiveState → Type 0
  Allowed r = (length body ≤ r.max_data_length) × (length m.files ≤ r.max_files)

  -- The message is there, and the wire is at what follows it.
  abbrev pub Complete : ReceiveState → List Cell → Type 0
  Complete r w = (r.content ≡ body) × (r.files ≡ m.files) × (w ≡ rest)

  module _ {K : Type 0} (msg_ctrunc : ℕ) (receiver : Receiver K) where
    -- What holds after a call that leads from the kernel's state `k` to `k'`, by what it returns or
    -- throws.
    abbrev pub After : Status → ReceiveState → K → K → Type 0
    After done r k' k = Complete r (receiver.wire k')
    After not_yet r k' k =
        Allowed r
        × InFrame r (receiver.wire k')
        × ((length (receiver.wire k') < length (receiver.wire k))
            ⊎ (OnlyCall msg_ctrunc receiver again k k' × (receiver.wire k' ≡ receiver.wire k)))
    After eof r k' k = ⊥
    After aborted r k' k = ⊥
    After (failed f) r k' k = (f ≡ recv_error) × LastCall msg_ctrunc receiver recv_failed k k'

    files_step :
        (c : Call) (r r' : ReceiveState) (fs2 : List File) (k : K)
        → Allowed r
        → r.header_buffer ≡ head
        → r.header ≡ sizes
        → r.content ≡ body
        → r.files ++ fs2 ≡ m.files
        → receiver.wire k ≡ extras fs2 ++ rest
        → 0 < length fs2
        → Taken msg_ctrunc receiver
            (take max_fds fs2)
            (0 ∷ [])
            (extras (drop max_fds fs2) ++ rest)
            r
            k
            1
            c
            r'
        → After (files_received c r').0 (files_received c r').1 (receiver.recvmsg k 1).1 k
    unfolding files_received
    files_step would_block r r' fs2 k a b h c f w p (o, e, g) =
        rw e (a, in_files fs2 b h c f (g ∙ w), inr (o, g))
    files_step (error e) r r' fs2 k a b h c f w p (e', o) = (e', (k, (no_call, o)))
    files_step (read []) r r' fs2 k a b h c f w p (_, _, _, pos, _, _, _) =
        absurd (omega (arith, pos))
    files_step (read (x ∷ xs)) r r' fs2 k a b h c f w p t =
        let (_, b2, q, pos, most, e, g) = t in
        let nil : b2 ≡ [] = length-nil b2 (omega (arith, ap length q, length-append xs b2)) in
        let all : (r.files ++ take max_fds fs2) ++ drop max_fds fs2 ≡ m.files =
          append_assoc r.files (take max_fds fs2) (drop max_fds fs2)
          ∙ ap (λ l. r.files ++ l) (take-drop max_fds fs2)
          ∙ f in
        let taken : List File = r.files ++ take max_fds fs2 in
        let size : r.header.num_files ≡ length m.files = ap (λ (x : Header). x.num_files) h in
        let bound : length taken + length (drop max_fds fs2) ≡ r.header.num_files =
          sym (length-append taken (drop max_fds fs2)) ∙ ap length all ∙ sym size in
        let few = not_over (length taken) (length (drop max_fds fs2)) r.header.num_files bound in
        elim (Bool-cases (length taken == r.header.num_files)) [
          | inl u ↦
              let last : drop max_fds fs2 ≡ [] =
                length-nil (drop max_fds fs2)
                  (none_left (length taken) _ r.header.num_files bound u) in
              rw (e, few, u, g, nil)
                (
                  c,
                  sym (append-nil taken) ∙ ap (λ l. taken ++ l) (sym last) ∙ all,
                  ap (λ l. extras l ++ rest) last,
                )
          | inr u ↦
              rw (e, few, u, g, nil)
                (
                  a,
                  in_files (drop max_fds fs2) b h c all refl,
                  inl (rw (w, extras-next fs2 p) (omega arith)),
                )
        ]

    pub files-After :
        Law msg_ctrunc receiver
        → (r : ReceiveState) (k : K) (fs2 : List File) → Allowed r
        → r.header_buffer ≡ head
        → r.header ≡ sizes
        → r.content ≡ body
        → r.files ++ fs2 ≡ m.files
        → receiver.wire k ≡ extras fs2 ++ rest
        → (let (status, (r', k')) = receive_files endian msg_ctrunc receiver r k in
            After status r' k' k)
    unfolding receive_files receive_part
    files-After law r k fs2 a b h c f w =
        let size : r.header.num_files ≡ length m.files = ap (λ (x : Header). x.num_files) h in
        let total = sym (length-append r.files fs2) ∙ ap length f ∙ sym size in
        elim (Bool-cases (ltb (length r.files) r.header.num_files)) [
          | inl u ↦
              let p : 0 < length fs2 = some_left (length r.files) _ r.header.num_files total u in
              rw u (
                files_step _ r _ fs2 k a b h c f w p (
                  call-Taken msg_ctrunc receiver (receiver.recvmsg k 1).0 k r (take max_fds fs2)
                    (0 ∷ []) (extras (drop max_fds fs2) ++ rest) 1 refl (law k 1 (omega arith))
                    (w ∙ ap (λ l. l ++ rest) (extras-next fs2 p)) (omega arith) (omega arith)))
          | inr u ↦
              let last : fs2 ≡ [] =
                length-nil fs2 (enough (length r.files) _ r.header.num_files total u) in
              rw u (
                c,
                sym (append-nil r.files) ∙ ap (λ l. r.files ++ l) (sym last) ∙ f,
                w ∙ ap (λ l. extras l ++ rest) last,
              )
        ]
