-- ===== src/UnixSocket/Lifecycle.antt =====
-- Closing, errors and the registration for events of eden/common/utils/UnixSocket.cpp. What trySend and
-- tryReceive get done is given; a callback is an event, and does not call the socket.
use edencommon.Common.{
  ℕ, Bool, true, false, Option, none, some, List, [], ◌∷◌, ◌++◌, take, drop, if◌then◌else◌,
}

pub data Event : Type 0 where
  send_success send_error : ℕ → Event
  socket_closed receive_error null_call : Event

-- The socket. `queue` is the callbacks of the send queue, `reads` and `writes` the events that the
-- handler is registered for, `scheduled` the timeout, and `events` the calls of the callbacks.
pub record Socket : Type 0 where
  pub is_open : Bool
  pub close_started : Bool
  pub receiving : Bool
  pub reads : Bool
  pub writes : Bool
  pub scheduled : Bool
  pub queue : List (Option ℕ)
  pub events : List Event

abbrev pub fresh : Socket
fresh = record {
  is_open = true;
  close_started = false;
  receiving = false;
  reads = false;
  writes = false;
  scheduled = false;
  queue = [];
  events = [];
}

abbrev pub is_empty : List (Option ℕ) → Bool
is_empty [] = true
is_empty (_ ∷ _) = false

-- The calls of the callbacks that are not null.
unfoldable pub calls : (ℕ → Event) → List (Option ℕ) → List Event
calls event [] = []
calls event (none ∷ cs) = calls event cs
calls event (some c ∷ cs) = event c ∷ calls event cs

-- closeNow and socketError, which differ in what the receive callback is told.
unfoldable pub shut : Event → Socket → Socket
unfolding calls
shut event s = record {
  is_open = false;
  close_started = true;
  receiving = false;
  reads = false;
  writes = false;
  scheduled = false;
  queue = [];
  events = s.events ++ (if s.receiving then event ∷ [] else []) ++ calls send_error s.queue;
}

unfoldable pub close_now : Socket → Socket
unfolding shut
close_now s = if s.is_open then shut socket_closed s else s

unfoldable pub socket_error : Socket → Socket
unfolding shut
socket_error s = if s.is_open then shut receive_error s else s

-- close. The failure of shutdown only throws.
unfoldable pub close : Socket → Socket
unfolding close_now
close s =
    if s.close_started
    then s
    else if is_empty s.queue
    then close_now s
    else if s.receiving
    then record s {
      close_started = true;
      receiving = false;
      reads = false;
      events = s.events ++ socket_closed ∷ [];
    }
    else record s { close_started = true }

-- trySend, where it finishes so many messages and then throws or does not.
unfoldable pub try_send : ℕ → Bool → Socket → Socket
unfolding calls close_now socket_error
try_send n threw s =
    let s1 = record s {
      queue = drop n s.queue;
      events = s.events ++ calls send_success (take n s.queue);
    } in
    if threw
    then socket_error s1
    else if is_empty s1.queue
    then (let s2 = record s1 { scheduled = false; writes = false } in
        if s1.close_started then close_now s2 else s2)
    else record s1 { scheduled = true; writes = true }

-- send, with the callback, which may be null.
unfoldable pub send : Option ℕ → ℕ → Bool → Socket → Socket
unfolding try_send
send callback n threw s =
    let failed : Event = elim callback [ none ↦ null_call | some c ↦ send_error c ] in
    let queued = record s { queue = s.queue ++ callback ∷ [] } in
    if s.close_started
    then record s { events = s.events ++ failed ∷ [] }
    else if is_empty s.queue
    then try_send n threw queued
    else queued

-- setReceiveCallback and clearReceiveCallback: whether they return, and the socket.
unfoldable pub set_receive_callback : Socket → Bool × Socket
set_receive_callback s =
    if s.receiving
    then (false, s)
    else if s.close_started
    then (false, s)
    else (true, record s { receiving = true; reads = true })

unfoldable pub clear_receive_callback : Socket → Bool × Socket
clear_receive_callback s =
    if s.receiving then (true, record s { receiving = false; reads = false }) else (false, s)

-- handlerReady for reads, where tryReceive throws or does not, and for writes; and timeoutExpired
unfoldable pub receive_ready : Bool → Socket → Socket
unfolding socket_error
receive_ready threw s = if threw then socket_error s else s

unfoldable pub timeout_expired : Socket → Socket
unfolding socket_error
timeout_expired s = socket_error s
