-- ===== src/UnixSocket/Queue.antt =====
-- The queue of trySend: the messages in their order, and their callbacks.
use mathlib.Core.List.{append-nil, append_assoc}
use edencommon.Common.{
  ℕ, zero, suc, ◌+◌, ◌%◌, ◌^◌, ◌<◌, ◌≡◌, refl, sym, ap, ◌∙◌, inl, inr, ◌⊎◌, false, Option, List, [],
  ◌∷◌, ◌++◌, length, take, drop, All, arith, map, Bool-cases, length-append,
}
use edencommon.Text.{Bytes}
use edencommon.UnixSocket.{Cell, Message, Endian, attach, Sent, blocked, send_failed, sent, Sender}
use edencommon.UnixSocket.Send.{
  SendQueueEntry, Progress, unfinished, finished, broken, max_fds, concat, enumerate_iovecs,
  serialize_header, new_entry, try_send_message, send_loop, is_nil, account, account_data,
  account_byte,
}
use edencommon.UnixSocket.Pending.{extras, pending, Valid}
use edencommon.UnixSocket.Sending.{Law, Left, try_send_message-pending}

-- All that is pending, in the order of the queue.
abbrev pub pending_all : List SendQueueEntry → List Cell
pending_all [] = []
pending_all (e ∷ queue) = pending e ++ pending_all queue

-- The cells of a message: the header and the data, with the first files, and bytes 0 with the rest.
abbrev pub frame : Endian → Message → List Cell
frame endian m =
    attach (take max_fds m.files)
      (serialize_header endian (length (concat m.content)) (length m.files) ++ concat m.content)
    ++ extras (drop (length (take max_fds m.files)) m.files)

concat-enumerate : (vs : List Bytes) → concat (enumerate_iovecs vs) ≡ concat vs
unfolding enumerate_iovecs
concat-enumerate [] = refl
concat-enumerate ([] ∷ vs) = concat-enumerate vs
concat-enumerate ((b ∷ bs) ∷ vs) = ap (λ l. (b ∷ bs) ++ l) (concat-enumerate vs)

enumerate-filled : (vs : List Bytes) → All (λ v. 0 < length v) (enumerate_iovecs vs)
unfolding enumerate_iovecs
enumerate-filled [] = tt
enumerate-filled ([] ∷ vs) = enumerate-filled vs
enumerate-filled ((b ∷ bs) ∷ vs) = (omega arith, enumerate-filled vs)

pub pending-new_entry :
    (endian : Endian) (m : Message) (callback : Option ℕ)
    → pending (new_entry endian m callback) ≡ frame endian m
unfolding new_entry serialize_header
pending-new_entry endian m callback = rw (concat-enumerate m.content) (
    ap
      (λ n.
        attach (take max_fds m.files)
          (serialize_header endian (length (concat m.content)) (length m.files) ++ concat m.content)
        ++ extras (drop n m.files))
      (let z : 0 + length (take max_fds m.files) ≡ length (take max_fds m.files) = omega arith in
        z))

pub new_entry-Valid :
    (endian : Endian) (m : Message) (callback : Option ℕ) → Valid (new_entry endian m callback)
unfolding new_entry serialize_header
new_entry-Valid endian m callback =
    let bytes = length (concat (enumerate_iovecs m.content)) in
    record {
      filled = (
        omega (
          arith,
          length-append (endian.write_be 8 18072575920575895160)
              (endian.write_be 4 (bytes % 2 ^ 32) ++ endian.write_be 4 (length m.files % 2 ^ 32)),
          endian.length-write_be 8 18072575920575895160,
        ),
        enumerate-filled m.content,
      );
      unsent = λ h. refl;
      some_sent = λ h. cc;
      bounded = omega arith;
      left = λ h. cc;
    }

abbrev pub callbacks : List SendQueueEntry → List (Option ℕ)
callbacks queue = map (λ (e : SendQueueEntry). e.callback) queue

data_callback : (e : SendQueueEntry) (a : Sent) → (account_data e a).1.callback ≡ e.callback
unfolding account_data account
data_callback e blocked = refl
data_callback e send_failed = refl
data_callback e (sent n) = refl

byte_callback :
    (e : SendQueueEntry) (n : ℕ) (a : Sent) → (account_byte e n a).1.callback ≡ e.callback
unfolding account_byte account
byte_callback e n blocked = refl
byte_callback e n send_failed = refl
byte_callback e n (sent m) = refl

Left-finished : (p : Progress) (e : SendQueueEntry) → p ≡ finished → Left p e → pending e ≡ []
Left-finished finished e h l = l
Left-finished unfinished e h l = cc
Left-finished broken e h l = cc

Left-unfinished : (p : Progress) (e : SendQueueEntry) → p ≡ unfinished → Left p e → Valid e
Left-unfinished finished e h l = cc
Left-unfinished unfinished e h l = l
Left-unfinished broken e h l = cc

Progress-cases : (p : Progress) → (p ≡ unfinished) ⊎ ((p ≡ finished) ⊎ (p ≡ broken))
Progress-cases unfinished = inl refl
Progress-cases finished = inr (inl refl)
Progress-cases broken = inr (inr refl)

module _ {K : Type 0} (sender : Sender K) (iov_max : ℕ) where
  try_send_message-callback :
      (e : SendQueueEntry) (k : K) → (try_send_message sender iov_max e k).1.0.callback ≡ e.callback
  unfolding try_send_message
  try_send_message-callback e k = elim (Bool-cases (is_nil e.iov)) [
    | inl f ↦ rw f (byte_callback (record e { at_header = false }) _ _)
    | inr f ↦ rw f (data_callback e _)
  ]

  -- The loop of trySend, whatever the kernel takes in each call: the wire followed by all that is
  -- pending stays the same, so that the bytes and the files of each message go out whole and in the
  -- order of the queue; those messages leave the queue of which nothing is pending, from its front, and
  -- their callbacks are called in that order; the others stay with theirs.
  pub send_loop-pending :
      Law sender iov_max
      → 0 < iov_max
      → (n : ℕ) (queue : List SendQueueEntry) (k : K) → All Valid queue
      → (let (queue', (k', (done, threw))) = send_loop sender iov_max n queue k in
          (sender.wire k' ++ pending_all queue' ≡ sender.wire k ++ pending_all queue)
          × (done ++ callbacks queue' ≡ callbacks queue)
          × (threw ≡ false → All Valid queue'))
  unfolding send_loop
  send_loop-pending law m zero queue k v = (refl, refl, λ _. v)
  send_loop-pending law m (suc n) [] k v = (refl, refl, λ _. tt)
  send_loop-pending law m (suc n) (e ∷ queue) k v =
      let step = try_send_message-pending sender iov_max law m e k v.0 in
      let t = try_send_message sender iov_max e k in
      let same = try_send_message-callback e k in
      elim (Progress-cases t.0) [
        | inl f ↦
            rw (f, send_loop)
              (
                kept (sender.wire t.1.1) (pending t.1.0) (pending_all queue) step.0,
                ap (λ c. c ∷ callbacks queue) same,
                λ _. (Left-unfinished t.0 t.1.0 f step.1, v.1),
              )
        | inr (inl f) ↦
            rw (f, send_loop)
              (let rest = send_loop-pending law m n queue t.1.1 v.1 in
                (
                  rest.0
                      ∙ sym (
                          ap (λ x. (sender.wire t.1.1 ++ x) ++ pending_all queue)
                            (Left-finished t.0 t.1.0 f step.1)
                          ∙ ap (λ x. x ++ pending_all queue) (append-nil (sender.wire t.1.1)))
                      ∙ ap (λ x. x ++ pending_all queue) step.0
                      ∙ append_assoc (sender.wire k) (pending e) (pending_all queue),
                  ap (λ c. e.callback ∷ c) rest.1,
                  rest.2,
                ))
        | inr (inr f) ↦
            rw (f, send_loop)
              (
                kept (sender.wire t.1.1) (pending t.1.0) (pending_all queue) step.0,
                ap (λ c. c ∷ callbacks queue) same,
                λ g. cc,
              )
      ]
    where
      kept :
          (w p q : List Cell)
          → w ++ p ≡ sender.wire k ++ pending e
          → w ++ (p ++ q) ≡ sender.wire k ++ (pending e ++ q)
      kept w p q h =
          sym (append_assoc w p q) ∙ ap (λ x. x ++ q) h ∙ append_assoc (sender.wire k) (pending e) q
