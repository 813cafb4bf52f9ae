-- ===== src/UnixSocket/Send.antt =====
-- The send side of eden/common/utils/UnixSocket.cpp: SendQueueEntry, trySendMessage, and the loop
-- of trySend.
use edencommon.Common.{
  ℕ, zero, suc, ◌+◌, ◌-◌, ◌%◌, ◌^◌, ◌&&◌, ◌==◌, Bool, true, false, Option, List, [], ◌∷◌, ◌++◌,
  length, take, drop, leb, if◌then◌else◌,
}
use edencommon.Text.{Bytes}
use edencommon.UnixSocket.{File, Message, Endian, Sent, blocked, send_failed, sent, Sender}

-- kMaxFDs
abbrev pub max_fds : ℕ
max_fds = 253

-- kProtocolID
abbrev pub protocol_id : ℕ
protocol_id = 18072575920575895160

abbrev pub concat : List Bytes → Bytes
concat [] = []
concat (v ∷ vs) = v ++ concat vs

-- enumerateIovecs: the elements of the chain that are not empty
unfoldable pub enumerate_iovecs : List Bytes → List Bytes
enumerate_iovecs [] = []
enumerate_iovecs (v ∷ vs) =
    let rest = enumerate_iovecs vs in elim v [ [] ↦ rest | b ∷ bs ↦ (b ∷ bs) ∷ rest ]

-- serializeHeader. The sizes are passed as uint32_t.
unfoldable pub serialize_header : Endian → ℕ → ℕ → Bytes
serialize_header endian data_size num_files =
    let write_be = endian.write_be in
    write_be 8 protocol_id ++ (write_be 4 (data_size % 2 ^ 32) ++ write_be 4 (num_files % 2 ^ 32))

-- SendQueueEntry. `iov` is the iovecs from iovIndex on, and `at_header` whether iov[0] still begins
-- where the header does.
pub record SendQueueEntry : Type 0 where
  pub iov : List Bytes
  pub iov_index : ℕ
  pub at_header : Bool
  pub files : List File
  pub files_sent : ℕ
  pub callback : Option ℕ

-- createSendQueueEntry and the constructor
unfoldable pub new_entry : Endian → Message → Option ℕ → SendQueueEntry
unfolding serialize_header enumerate_iovecs
new_entry endian message callback =
    let body = enumerate_iovecs message.content in
    record {
      iov = serialize_header endian (length (concat body)) (length message.files) ∷ body;
      iov_index = 0;
      at_header = true;
      files = message.files;
      files_sent = 0;
      callback = callback;
    }

-- isFirstSend
abbrev pub is_first_send : SendQueueEntry → Bool
is_first_send e = (e.iov_index == 0) && e.at_header

-- initializeFirstControlMsg, at the first send: the files that go along
abbrev pub first_files : SendQueueEntry → List File
first_files e = if is_first_send e then take max_fds e.files else []

-- initializeAdditionalControlMsg
abbrev pub additional_files : SendQueueEntry → List File
additional_files e = take max_fds (drop e.files_sent e.files)

-- The loop that accounts for the bytes that were sent: the iovecs that are left, the index of the first
-- of them, and whether iov[0] begins where it did. No more bytes are sent than there are.
unfoldable pub advance : ℕ → List Bytes → ℕ → Bool → List Bytes × (ℕ × Bool)
advance n [] i h = ([], (i, h))
advance n (v ∷ vs) i h =
    let rest = advance (n - length v) vs (i + 1) h in
    if n == 0
    then (v ∷ vs, (i, h))
    else if leb (length v) n
    then rest
    else (drop n v ∷ vs, (i, if i == 0 then false else h))

-- What trySendMessage returns, or throws.
pub data Progress : Type 0 where
  unfinished finished broken : Progress

unfoldable pub is_nil : List Bytes → Bool
is_nil [] = true
is_nil (_ ∷ _) = false

-- Its end: the count of the files, and whether everything is sent.
unfoldable pub account : SendQueueEntry → ℕ → Progress × SendQueueEntry
unfolding is_nil
account e files_to_send =
    let e' = record e { files_sent = e.files_sent + files_to_send } in
    (if is_nil e'.iov && (e'.files_sent == length e'.files) then finished else unfinished, e')

-- What trySendMessage makes of the answer of sendmsg, where it sends data, and where it sends a byte
-- of its own.
unfoldable pub account_data : SendQueueEntry → Sent → Progress × SendQueueEntry
unfolding advance account
account_data e blocked = (unfinished, e)
account_data e send_failed = (broken, e)
account_data e (sent n) =
    let (iov', (index', at')) = advance n e.iov e.iov_index e.at_header in
    account (record e { iov = iov'; iov_index = index'; at_header = at' }) (length (first_files e))

unfoldable pub account_byte : SendQueueEntry → ℕ → Sent → Progress × SendQueueEntry
unfolding account
account_byte e files_to_send blocked = (unfinished, e)
account_byte e files_to_send send_failed = (broken, e)
account_byte e files_to_send (sent n) = account e files_to_send

-- `iov_max` is folly::kIovMax.
module _ {K : Type 0} (sender : Sender K) (iov_max : ℕ) where
  -- trySendMessage. Where all the data is sent, iov[0] is turned to a byte 0 that goes with more files.
  unfoldable pub try_send_message : SendQueueEntry → K → Progress × (SendQueueEntry × K)
  unfolding account_data account_byte is_nil
  try_send_message e k =
      if is_nil e.iov
      then (let (answer, k') = sender.sendmsg k (0 ∷ []) (additional_files e) in
          let (p, e') =
            account_byte (record e { at_header = false }) (length (additional_files e)) answer in
          (p, (e', k')))
      else (let (answer, k') = sender.sendmsg k (concat (take iov_max e.iov)) (first_files e) in
          let (p, e') = account_data e answer in (p, (e', k')))

  -- The loop of trySend, with the callbacks whose sendSuccess is called, and whether it threw.
  unfoldable pub send_loop :
      ℕ → List SendQueueEntry → K → List SendQueueEntry × (K × (List (Option ℕ) × Bool))
  unfolding try_send_message
  send_loop zero queue k = (queue, (k, ([], false)))
  send_loop (suc n) [] k = ([], (k, ([], false)))
  send_loop (suc n) (e ∷ queue) k =
      let (p, (e', k')) = try_send_message e k in
      let (queue', (k'', (done, threw))) = send_loop n queue k' in
      elim p [
        | unfinished ↦ (e' ∷ queue, (k', ([], false)))
        | broken ↦ (e' ∷ queue, (k', ([], true)))
        | finished ↦ (queue', (k'', (e.callback ∷ done, threw)))
      ]
