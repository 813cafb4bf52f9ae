-- ===== src/UnixSocket/Receive.antt =====
-- The receive side of eden/common/utils/UnixSocket.cpp: callRecvMsg, tryReceiveOne and its parts, and
-- tryReceive.
use edencommon.Common.{
  ℕ, zero, suc, ◌-◌, ◌≡◌, ◌≤◌, ◌<◌, ◌⊎◌, ◌==◌, Bool, not, true, false, List, [], ◌∷◌, ◌++◌, length,
  drop, ltb, if◌then◌else◌, ◌&&◌,
}
use edencommon.Text.{Bytes}
use edencommon.UnixSocket.{File, Cell, Endian, bytes_of, files_of}
use edencommon.UnixSocket.Send.{protocol_id}

-- A control message: SCM_RIGHTS with its files, or another.
pub data Control : Type 0 where
  rights : List File → Control
  unexpected : Control

-- What recvmsg does: EAGAIN, another error, or flags, bytes and control messages.
pub data Received : Type 0 where
  again recv_failed : Received
  got : ℕ → Bytes → List Control → Received

pub record Receiver (K : Type 0) : Type 0 where
  pub wire : K → List Cell
  pub recvmsg : K → ℕ → Received × K

-- UnixSocket::Header
pub record Header : Type 0 where
  pub id : ℕ
  pub data_size : ℕ
  pub num_files : ℕ

-- kHeaderLength
abbrev pub header_length : ℕ
header_length = 16

-- The fields of the socket that tryReceive works on: the bytes that were received of the header, the
-- header, the message, and the limits.
pub record ReceiveState : Type 0 where
  pub header_buffer : Bytes
  pub header : Header
  pub content : Bytes
  pub files : List File
  pub max_data_length : ℕ
  pub max_files : ℕ

-- What is thrown.
pub data Failure : Type 0 where
  recv_error control_truncated rights_truncated closed_partway unknown_protocol : Failure
  data_too_large too_many_files extra_files : Failure

-- What callRecvMsg returns or throws.
pub data Call : Type 0 where
  would_block : Call
  error : Failure → Call
  read : Bytes → Call

-- deserializeHeader
unfoldable pub deserialize_header : Endian → Bytes → Header
deserialize_header endian buffer = record {
  id = endian.read_be 8 buffer;
  data_size = endian.read_be 4 (drop 8 buffer);
  num_files = endian.read_be 4 (drop 12 buffer);
}

-- processReceivedControlData and processReceivedFiles: whether they return, and the files.
unfoldable pub process_received_control_data : List Control → List File → Bool × List File
process_received_control_data [] files = (true, files)
process_received_control_data (unexpected ∷ cs) files = process_received_control_data cs files
process_received_control_data (rights [] ∷ cs) files = (false, files)
process_received_control_data (rights (f ∷ fs) ∷ cs) files =
    process_received_control_data cs (files ++ f ∷ fs)

-- callRecvMsg, after recvmsg. `msg_ctrunc` is MSG_CTRUNC.
unfoldable pub call_recv_msg : ℕ → Received → ReceiveState → Call × ReceiveState
unfolding process_received_control_data
call_recv_msg msg_ctrunc again r = (would_block, r)
call_recv_msg msg_ctrunc recv_failed r = (error recv_error, r)
call_recv_msg msg_ctrunc (got flags bytes cs) r =
    if flags == msg_ctrunc
    then (error control_truncated, r)
    else (let (returns, files) = process_received_control_data cs r.files in
        (if returns then read bytes else error rights_truncated, record r { files = files }))

-- What tryReceiveOne and its parts return or throw; `eof` is `false` after a call of eofReceived, and
-- `aborted` a check of a debug build that fails.
pub data Status : Type 0 where
  done not_yet eof aborted : Status
  failed : Failure → Status

-- tryReceiveHeader, tryReceiveData and tryReceiveFiles after callRecvMsg
unfoldable pub header_received : Call → ReceiveState → Status × ReceiveState
header_received would_block r = (not_yet, r)
header_received (error f) r = (failed f, r)
header_received (read []) r =
    (if length r.header_buffer == 0 then eof else failed closed_partway, r)
header_received (read (b ∷ bs)) r =
    let buffer = r.header_buffer ++ b ∷ bs in
    (if length buffer == header_length then done else not_yet, record r { header_buffer = buffer })

unfoldable pub data_received : Call → ReceiveState → Status × ReceiveState
data_received would_block r = (not_yet, r)
data_received (error f) r = (failed f, r)
data_received (read []) r = (failed closed_partway, r)
data_received (read (b ∷ bs)) r = (
  if suc (length bs) == (r.header.data_size - length r.content) then done else not_yet,
  record r { content = r.content ++ b ∷ bs },
)

unfoldable pub files_received : Call → ReceiveState → Status × ReceiveState
files_received would_block r = (not_yet, r)
files_received (error f) r = (failed f, r)
files_received (read []) r = (failed closed_partway, r)
files_received (read (b ∷ bs)) r = (
  if ltb r.header.num_files (length r.files)
      then failed extra_files
      else if length r.files == r.header.num_files
      then done
      else not_yet,
  r,
)

unfoldable pub is_nil : {A : Type 0} → List A → Bool
is_nil [] = true
is_nil (_ ∷ _) = false

-- The checks of the header, and the buffer of the message.
unfoldable pub check_header : Endian → ReceiveState → Status × ReceiveState
unfolding deserialize_header
check_header endian r =
    let header = deserialize_header endian r.header_buffer in
    let r' = record r { header = header } in
    if header.id == protocol_id
    then if ltb r.max_data_length header.data_size
      then (failed data_too_large, r')
      else if ltb r.max_files header.num_files
      then (failed too_many_files, r')
      else (done, if ltb 0 header.data_size then record r' { content = [] } else r')
    else (failed unknown_protocol, r')

module _ {K : Type 0} where
  -- The rest of a function, where this part does not end it.
  abbrev pub and_then :
      Status
      → ReceiveState × K
      → (ReceiveState → K → Status × (ReceiveState × K))
      → Status × (ReceiveState × K)
  and_then done (r, k) rest = rest r k
  and_then not_yet rk rest = (not_yet, rk)
  and_then eof rk rest = (eof, rk)
  and_then aborted rk rest = (aborted, rk)
  and_then (failed f) rk rest = (failed f, rk)

  module _ (endian : Endian) (msg_ctrunc : ℕ) (receiver : Receiver K) where
    -- One of the three, with its call of recvmsg for so many bytes.
    unfoldable pub receive_part :
        (Call → ReceiveState → Status × ReceiveState)
        → ℕ
        → ReceiveState
        → K
        → Status × (ReceiveState × K)
    unfolding call_recv_msg
    receive_part received size r k =
        let (answer, k') = receiver.recvmsg k size in
        let (call, r') = call_recv_msg msg_ctrunc answer r in
        let (status, r'') = received call r' in (status, (r'', k'))

    -- tryReceiveOne, from the files on, from the data on, and as a whole
    unfoldable pub receive_files : ReceiveState → K → Status × (ReceiveState × K)
    unfolding receive_part files_received
    receive_files r k =
        if ltb (length r.files) r.header.num_files
        then receive_part files_received 1 r k
        else (done, (r, k))

    unfoldable pub receive_data : ReceiveState → K → Status × (ReceiveState × K)
    unfolding receive_part data_received receive_files
    receive_data r k =
        if ltb (length r.content) r.header.data_size
        then (let (status, rk) =
              receive_part data_received (r.header.data_size - length r.content) r k in
            and_then status rk receive_files)
        else receive_files r k

    -- In a debug build (`debug`), XDCHECK_EQ aborts where the message has data or files already while
    -- its header is incomplete.
    unfoldable pub try_receive_one : Bool → ReceiveState → K → Status × (ReceiveState × K)
    unfolding receive_part header_received check_header receive_data is_nil
    try_receive_one debug r k =
        if ltb (length r.header_buffer) header_length
        then if debug && not (is_nil r.content && is_nil r.files)
          then (aborted, (r, k))
          else (let (status, rk) =
                receive_part header_received (header_length - length r.header_buffer) r k in
              and_then status rk (λ r' k'.
                let (status', r'') = check_header endian r' in
                and_then status' (r'', k') receive_data))
        else receive_data r k

    -- The message that is delivered, and the state after it: it is moved out.
    abbrev pub message_of : ReceiveState → Bytes × List File
    message_of r = (r.content, r.files)

    abbrev pub reset : ReceiveState → ReceiveState
    reset r = record r { header_buffer = []; content = []; files = [] }

    -- The loop of tryReceive, of 10 rounds there. A callback of a message may uninstall itself. The
    -- messages that are delivered, and how the last round ended, if one did not deliver.
    unfoldable pub try_receive :
        Bool
        → (Bytes × List File → Bool)
        → ℕ
        → ReceiveState
        → K
        → List (Bytes × List File) × (Status × (ReceiveState × K))
    unfolding try_receive_one
    try_receive debug uninstalls zero r k = ([], (done, (r, k)))
    try_receive debug uninstalls (suc n) r k =
        let (status, (r', k')) = try_receive_one debug r k in
        let (messages, end) = try_receive debug uninstalls n (reset r') k' in
        elim status [
          | done ↦
              if uninstalls (message_of r')
              then (message_of r' ∷ [], (done, (reset r', k')))
              else (message_of r' ∷ messages, end)
          | not_yet ↦ ([], (not_yet, (r', k')))
          | eof ↦ ([], (eof, (r', k')))
          | aborted ↦ ([], (aborted, (r', k')))
          | failed f ↦ ([], (failed f, (r', k')))
        ]

-- The control messages that come with files: the kernel sends one, of all of them.
abbrev pub control_of : List File → List Control
control_of [] = []
control_of (f ∷ fs) = rights (f ∷ fs) ∷ []

-- The documented behaviour of recvmsg on a stream, with a control buffer that the files fit in: it takes
-- bytes from the front, at least one where there are some, with the files that came with them.
abbrev pub ReceivedAs : ℕ → List Cell → ℕ → Received → List Cell → Type 0
ReceivedAs msg_ctrunc before n again after = after ≡ before
ReceivedAs msg_ctrunc before n recv_failed after = Unit
ReceivedAs msg_ctrunc before n (got flags bytes cs) after =
    ((flags == msg_ctrunc) ≡ false)
    × ((pre : List Cell) × (before ≡ pre ++ after)
        × (bytes_of pre ≡ bytes)
        × (control_of (files_of pre) ≡ cs)
        × (length pre ≤ n)
        × ((0 < length pre) ⊎ (before ≡ [])))
