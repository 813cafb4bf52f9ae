-- ===== src/UnixSocket/Sending.antt =====
-- What trySendMessage and trySend keep: what is on the wire, followed by what is pending.
use mathlib.Core.List.{append_assoc}
use edencommon.Common.{
  ℕ, zero, suc, ◌+◌, ◌<◌, ◌≤◌, ◌≡◌, refl, sym, ap, ◌∙◌, ◌&&◌, ◌==◌, inl, inr, true, false, List, [],
  ◌∷◌, ◌++◌, length, take, drop, All, arith, Bool-cases, length-append,
}
use edencommon.Text.{Bytes}
use edencommon.UnixSocket.{File, Cell, attach, Sent, blocked, send_failed, sent, Sender, SentAs}
use edencommon.UnixSocket.Cells.{
  take-append_le, length-drop, length-take, drop_all, drop_add, drop-length-take, attach-split,
}
use edencommon.UnixSocket.Send.{
  SendQueueEntry, Progress, unfinished, finished, broken, max_fds, concat, is_first_send,
  first_files, additional_files, advance, account, account_data, account_byte, is_nil,
  try_send_message,
}
use edencommon.UnixSocket.Pending.{
  extras, extras-next, pending, Valid, concat-advance, advance-filled, advance-later,
}

pub concat-take : (m : ℕ) (vs : List Bytes) → concat (take m vs) ++ concat (drop m vs) ≡ concat vs
concat-take zero vs = refl
concat-take (suc m) [] = refl
concat-take (suc m) (v ∷ vs) =
    append_assoc v (concat (take m vs)) (concat (drop m vs)) ∙ ap (λ l. v ++ l) (concat-take m vs)

is_nil-nil : (vs : List Bytes) → is_nil vs ≡ true → vs ≡ []
unfolding is_nil
is_nil-nil [] e = refl
is_nil-nil (v ∷ vs) e = cc

length-is_nil : (vs : List Bytes) → is_nil vs ≡ false → 0 < length vs
unfolding is_nil
length-is_nil [] e = cc
length-is_nil (v ∷ vs) e = omega arith

-- What an entry is after a call.
abbrev pub Left : Progress → SendQueueEntry → Type 0
Left unfinished e = Valid e
Left finished e = pending e ≡ []
Left broken e = Unit

first_files-later : (e : SendQueueEntry) → is_first_send e ≡ false → first_files e ≡ []
first_files-later e f = rw f refl

pending-done :
    (e : SendQueueEntry)
    → e.iov ≡ []
    → is_first_send e ≡ false
    → length e.files ≤ e.files_sent
    → pending e ≡ []
pending-done e h f g =
    rw (h, first_files-later e f)
      (ap extras (drop_all (e.files_sent + 0) e.files (omega (arith, g))))

-- What is pending of an entry that is not at its first send.
pending-later :
    (e : SendQueueEntry)
    → is_first_send e ≡ false
    → pending e ≡ attach [] (concat e.iov) ++ extras (drop e.files_sent e.files)
pending-later e f = rw (first_files-later e f) (
    ap (λ n. attach [] (concat e.iov) ++ extras (drop n e.files))
      (let z : e.files_sent + 0 ≡ e.files_sent = omega arith in z))

account-Left :
    (e : SendQueueEntry) (n : ℕ)
    → All (λ v. 0 < length v) e.iov
    → is_first_send e ≡ false
    → (0 < length e.files → 0 < e.files_sent + n)
    → e.files_sent + n ≤ length e.files
    → Left (account e n).0 (account e n).1
unfolding account
account-Left e n filled f some bounded =
    elim (Bool-cases (is_nil e.iov && ((e.files_sent + n) == length e.files))) [
      | inl g ↦ rw g (
          pending-done (record e { files_sent = e.files_sent + n })
            (is_nil-nil e.iov (ground arith)) f (ground arith))
      | inr g ↦ rw g (record {
        filled = filled;
        unsent = λ h. cc;
        some_sent = λ _ h. some h;
        bounded = bounded;
        left =
            λ h. (f, let i : is_nil e.iov ≡ true = rw h (unfold is_nil in refl) in ground (arith));
      })
    ]

-- The files that a send takes along: how many, and that they are the next ones.
first_files_bound :
    (e : SendQueueEntry)
    → Valid e
    → (e.files_sent + length (first_files e) ≤ length e.files)
      × (0 < length e.files → 0 < e.files_sent + length (first_files e))
first_files_bound e v = elim (Bool-cases (is_first_send e)) [
  | inl f ↦ rw f (
    omega (arith, v.unsent f, length-take max_fds e.files),
    λ h. omega (arith, h, v.unsent f, length-take max_fds e.files),
  )
  | inr f ↦ rw f (omega (arith, v.bounded), λ h. omega (arith, v.some_sent f h))
]

data_sent :
    (before : List Cell) (fs : List File) (n m : ℕ) (vs : List Bytes) (x : List Cell)
    → 0 < n
    → n ≤ length (concat (take m vs))
    → (before ++ attach fs (take n (concat (take m vs)))) ++ (attach [] (drop n (concat vs)) ++ x)
      ≡ before ++ (attach fs (concat vs) ++ x)
data_sent before fs n m vs x p h =
    append_assoc before (attach fs (take n (concat (take m vs))))
      (attach [] (drop n (concat vs)) ++ x)
    ∙ ap (λ l. before ++ l)
        (sym (
            append_assoc (attach fs (take n (concat (take m vs)))) (attach [] (drop n (concat vs)))
              x)
          ∙ ap (λ l. l ++ x)
              (ap (λ b. attach fs b ++ attach [] (drop n (concat vs)))
                  (sym (take-append_le n (concat (take m vs)) (concat (drop m vs)) h)
                    ∙ ap (λ b. take n b) (concat-take m vs))
                ∙ attach-split fs n (concat vs) p))

account_data-pending :
    (e : SendQueueEntry) (m : ℕ) (answer : Sent) (before after : List Cell)
    → Valid e
    → 0 < length e.iov
    → SentAs before (concat (take m e.iov)) (first_files e) answer after
    → (after ++ pending (account_data e answer).1 ≡ before ++ pending e)
      × Left (account_data e answer).0 (account_data e answer).1
unfolding account_data
account_data-pending e m blocked before after v l h = (ap (λ w. w ++ pending e) h, v)
account_data-pending e m send_failed before after v l h = (ap (λ w. w ++ pending e) h, tt)
account_data-pending e m (sent n) before after v l h =
    let later = advance-later n e.iov e.iov_index e.at_header h.0 l in
    let a = advance n e.iov e.iov_index e.at_header in
    let e0 : SendQueueEntry = record e { iov = a.0; iov_index = a.1.0; at_header = a.1.1 } in
    let bound = first_files_bound e v in
    (
      rw (h.2) (
          ap (λ x. (before ++ attach (first_files e) (take n (concat (take m e.iov)))) ++ x)
            (unfold account in
              pending-later (record e0 { files_sent = e.files_sent + length (first_files e) }) later
              ∙ ap
                  (λ b.
                    attach [] b ++ extras (drop (e.files_sent + length (first_files e)) e.files))
                  (concat-advance n e.iov e.iov_index e.at_header))
          ∙ data_sent before (first_files e) n m e.iov _ h.0 h.1),
      account-Left e0 (length (first_files e))
          (advance-filled n e.iov e.iov_index e.at_header v.filled) later bound.1 bound.0,
    )

not_first : (e : SendQueueEntry) → is_first_send (record e { at_header = false }) ≡ false
not_first e = ground arith

pending-turned :
    (e : SendQueueEntry)
    → Valid e
    → e.iov ≡ []
    → (pending (record e { at_header = false }) ≡ extras (drop e.files_sent e.files))
      × (pending e ≡ extras (drop e.files_sent e.files))
      × Valid (record e { at_header = false })
pending-turned e v l = (
  pending-later (record e { at_header = false }) (not_first e)
      ∙ ap (λ vs. attach [] (concat vs) ++ extras (drop e.files_sent e.files)) l,
  pending-later e (v.left l).0
      ∙ ap (λ vs. attach [] (concat vs) ++ extras (drop e.files_sent e.files)) l,
  record {
    filled = v.filled;
    unsent =
        λ h. let f : is_first_send (record e { at_header = false }) ≡ false = not_first e in cc;
    some_sent = λ _. v.some_sent (v.left l).0;
    bounded = v.bounded;
    left = λ _. (not_first e, (v.left l).1);
  },
)

extras-additional :
    (e : SendQueueEntry)
    → e.files_sent < length e.files
    → extras (drop e.files_sent e.files)
      ≡ (0, additional_files e) ∷ extras (drop (e.files_sent + length (additional_files e)) e.files)
extras-additional e h =
    extras-next (drop e.files_sent e.files) (omega (arith, h, length-drop e.files_sent e.files))
    ∙ ap (λ fs. (0, additional_files e) ∷ extras fs)
        (sym (drop-length-take max_fds (drop e.files_sent e.files))
          ∙ sym (drop_add e.files_sent (length (additional_files e)) e.files))

account_byte-pending :
    (e : SendQueueEntry) (answer : Sent) (before after : List Cell)
    → Valid e
    → e.iov ≡ []
    → SentAs before (0 ∷ []) (additional_files e) answer after
    → (let e0 : SendQueueEntry = record e { at_header = false } in
        let (p, e') = account_byte e0 (length (additional_files e)) answer in
        (after ++ pending e' ≡ before ++ pending e) × Left p e')
unfolding account_byte
account_byte-pending e blocked before after v l h =
    let (p, q, w) = pending-turned e v l in (rw h (ap (λ x. before ++ x) (p ∙ sym q)), w)
account_byte-pending e send_failed before after v l h =
    let (p, q, w) = pending-turned e v l in (rw h (ap (λ x. before ++ x) (p ∙ sym q)), tt)
account_byte-pending e (sent n) before after v l h =
    let f = v.left l in
    let size = length (additional_files e) in
    let e0 : SendQueueEntry = record e { at_header = false } in
    let one : n ≡ 1 = omega (arith, h.0, h.1) in
    let bound : e.files_sent + size ≤ length e.files = omega (
      arith,
      f.1,
      length-take max_fds (drop e.files_sent e.files),
      length-drop e.files_sent e.files,
    ) in
    (
      rw (h.2, one)
          (append_assoc before ((0, additional_files e) ∷ []) _
            ∙ ap (λ x. before ++ x)
                (ap (λ x. (0, additional_files e) ∷ x)
                    (unfold account in
                      pending-later (record e0 { files_sent = e.files_sent + size }) (not_first e)
                      ∙ ap
                          (λ vs.
                            attach [] (concat vs) ++ extras (drop (e.files_sent + size) e.files))
                          l)
                  ∙ sym (extras-additional e f.1)
                  ∙ sym (pending-turned e v l).1)),
      account-Left e0 size v.filled (not_first e) (λ q. omega (arith, v.some_sent f.0 q)) bound,
    )

module _ {K : Type 0} (sender : Sender K) (iov_max : ℕ) where
  -- The law of the kernel's sendmsg.
  abbrev pub Law : Type 0
  Law =
      (k : K) (bs : Bytes) (fs : List File)
      → 0 < length bs
      → SentAs (sender.wire k) bs fs (sender.sendmsg k bs fs).0
          (sender.wire (sender.sendmsg k bs fs).1)

  length-concat-take :
      (vs : List Bytes)
      → 0 < iov_max
      → 0 < length vs
      → All (λ v. 0 < length v) vs
      → 0 < length (concat (take iov_max vs))
  length-concat-take vs p q a = go iov_max vs p q a
    where
      go :
          (m : ℕ) (vs : List Bytes)
          → 0 < m
          → 0 < length vs
          → All (λ v. 0 < length v) vs
          → 0 < length (concat (take m vs))
      go zero vs p q a = absurd (omega (arith, p))
      go (suc m) [] p q a = absurd (omega (arith, q))
      go (suc m) (v ∷ vs) p q a = omega (arith, a.0, length-append v (concat (take m vs)))

  -- A call of trySendMessage on an entry of the queue, whatever the kernel takes of it: the wire followed
  -- by what is pending of the entry stays the same; if the call returns that the message is finished,
  -- nothing is pending, and if it returns that it is not, the entry is as an entry of the queue is.
  pub try_send_message-pending :
      Law
      → 0 < iov_max
      → (e : SendQueueEntry) (k : K) → Valid e
      → (let (p, (e', k')) = try_send_message sender iov_max e k in
          (sender.wire k' ++ pending e' ≡ sender.wire k ++ pending e) × Left p e')
  unfolding try_send_message
  try_send_message-pending law m e k v = elim (Bool-cases (is_nil e.iov)) [
    | inl f ↦ rw f (
        account_byte-pending e _ (sender.wire k) _ v (is_nil-nil e.iov f)
          (law k (0 ∷ []) (additional_files e) (omega arith)))
    | inr f ↦ rw f (
        let l = length-is_nil e.iov f in
        account_data-pending e iov_max _ (sender.wire k) _ v l (
          law k (concat (take iov_max e.iov)) (first_files e)
            (length-concat-take e.iov m l v.filled)))
  ]
