-- ===== src/UnixSocket.antt =====
-- eden/common/utils/UnixSocket.h and UnixSocket.cpp: messages of bytes and files over a stream
-- socket. The kernel and folly's cursors are interfaces here; callbacks are events.
pub mod Cells
pub mod Send
pub mod Pending
pub mod Sending
pub mod Queue
pub mod Receive
pub mod Phases
pub mod Receiving
pub mod Delivery
pub mod Heading
pub mod Whole
pub mod Transfer
pub mod Lifecycle
pub mod Closing
pub mod Kernel
pub mod Tests
use edencommon.Common.{
  ℕ, zero, suc, ◌+◌, ◌*◌, ◌^◌, ◌<◌, ◌≡◌, ◌≤◌, ◌⊎◌, Bool, true, false, Option, none, some, List, [],
  ◌∷◌, ◌++◌, length, take, drop, map,
}
use edencommon.Text.{Bytes}

-- An open file, by its number, whichever descriptors refer to it.
abbrev pub File : Type 0
File = ℕ

-- UnixSocket::Message. The data is the elements of the IOBuf chain.
pub record Message : Type 0 where
  pub content : List Bytes
  pub files : List File

-- Cursor::writeBE and readBE of folly, at a width in bytes.
pub record Endian : Type 0 where
  pub write_be : ℕ → ℕ → Bytes
  pub read_be : ℕ → Bytes → ℕ
  pub length-write_be : (w x : ℕ) → length (write_be w x) ≡ w
  pub read-write_be : (w x : ℕ) (rest : Bytes) → x < 256 ^ w → read_be w (write_be w x ++ rest) ≡ x

-- A byte on its way, with the files that were sent with it.
abbrev pub Cell : Type 0
Cell = ℕ × List File

abbrev pub bytes_of : List Cell → Bytes
bytes_of cs = map (λ (c : Cell). c.0) cs

abbrev pub files_of : List Cell → List File
files_of [] = []
files_of ((b, fs) ∷ cs) = fs ++ files_of cs

-- Bytes that one sendmsg sends: the files go with the first.
abbrev pub attach : List File → Bytes → List Cell
attach fs [] = []
attach fs (b ∷ bs) = (b, fs) ∷ map (λ c. (c, [])) bs

-- What sendmsg does: EAGAIN, another error, or so many bytes.
pub data Sent : Type 0 where
  blocked send_failed : Sent
  sent : ℕ → Sent

-- The socket's stream, in a state of the kernel: what has been sent and not yet been received.
-- sendmsg sends a part of what it is given that is not empty.
pub record Sender (K : Type 0) : Type 0 where
  pub wire : K → List Cell
  pub sendmsg : K → Bytes → List File → Sent × K

-- The documented behaviour of sendmsg on a stream.
abbrev pub SentAs : List Cell → Bytes → List File → Sent → List Cell → Type 0
SentAs before bs fs blocked after = after ≡ before
SentAs before bs fs send_failed after = after ≡ before
SentAs before bs fs (sent n) after =
    (0 < n) × (n ≤ length bs) × (after ≡ before ++ attach fs (take n bs))
