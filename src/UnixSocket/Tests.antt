-- ===== src/UnixSocket/Tests.antt =====
-- Messages sent and received over the streams of UnixSocket.Kernel, and the theorems there.
use edencommon.Common.{
  true, not, ◌≡◌, refl, false, inl, take, drop, none, some, List, [], ◌∷◌, ◌++◌, arith, All,
}
use edencommon.UnixSocket.{Cell, Message}
use edencommon.UnixSocket.Send.{
  SendQueueEntry, send_loop, new_entry, enumerate_iovecs, serialize_header, advance, account,
  account_data, account_byte, is_nil, try_send_message,
}
use edencommon.UnixSocket.Pending.{Valid}
use edencommon.UnixSocket.Queue.{frame, pending_all, callbacks, new_entry-Valid, send_loop-pending}
use edencommon.UnixSocket.Receive as Receive
use edencommon.UnixSocket.Receive.{
  ReceiveState, done, not_yet, aborted, try_receive_one, receive_part, call_recv_msg,
  header_received,
}
use edencommon.UnixSocket.Receiving.{Complete, in_header, head}
use edencommon.UnixSocket.Whole.{Outcome, try_receive_one-After}
use edencommon.UnixSocket.Transfer.{
  frames, entries, receive_calls, receive_calls-Complete, receive_calls-send_loop,
}
use edencommon.UnixSocket.Lifecycle.{Socket, fresh, is_empty, send, close, set_receive_callback}
use edencommon.UnixSocket.Closing.{
  Reach, start, next, closing, sending, set_receive, Reach-registered,
}
use edencommon.UnixSocket.Kernel.{
  big_endian, two_sent, two_sent-Law, all_sent, all_sent-Law, two_received, two_received-Law,
  two_received-again, two_received-recv_failed,
}

-- Two elements, one of which is empty, and a file.
abbrev hello : Message
hello = record { content = [] ∷ (104 ∷ 105 ∷ []) ∷ []; files = 7 ∷ [] }

abbrev idle : ReceiveState
idle = record {
  header_buffer = [];
  header = record { id = 0; data_size = 0; num_files = 0 };
  content = [];
  files = [];
  max_data_length = 1073741824;
  max_files = 100000;
}

abbrev queue : List SendQueueEntry
queue = new_entry big_endian hello (some 1) ∷ new_entry big_endian hello none ∷ []

send_loop-pending_example :
    let (queue', (k', (finished, threw))) = send_loop two_sent 1024 10 queue [] in
    (k' ++ pending_all queue' ≡ pending_all queue)
    × (finished ++ callbacks queue' ≡ callbacks queue)
    × (threw ≡ false → All Valid queue')
send_loop-pending_example =
    send_loop-pending two_sent 1024 (two_sent-Law 1024) (omega arith) 10 queue []
      (new_entry-Valid big_endian hello (some 1), (new_entry-Valid big_endian hello none, tt))

abbrev wire : List Cell
wire = frame big_endian hello ++ []

receive_calls-Complete_example :
    let (status, (r', k')) = receive_calls big_endian 1 two_received false 30 idle wire in
    (status ≡ done) × Complete big_endian hello [] r' k'
unfolding big_endian serialize_header
receive_calls-Complete_example =
    receive_calls-Complete big_endian 1 two_received hello [] false 30 idle wire two_received-Law
      (two_received-again, two_received-recv_failed) (omega arith, omega arith) (inl refl)
      (omega arith, omega arith) (refl, refl, refl) refl (omega arith)

-- The first half of a header, with the files of its message.
abbrev half_header : ReceiveState
half_header = record idle { header_buffer = take 8 (head big_endian hello []); files = 7 ∷ [] }

try_receive_one-After_example :
    Outcome big_endian hello [] 1 two_received false half_header (drop 8 wire)
unfolding big_endian serialize_header
try_receive_one-After_example =
    try_receive_one-After big_endian hello [] 1 two_received two_received-Law
      (omega arith, omega arith) false half_header (drop 8 wire) (omega arith, omega arith)
      (in_header (drop 8 (head big_endian hello [])) [] refl (omega arith) refl refl refl)

-- A debug build aborts there, and another goes on.
half_header-aborted :
    (try_receive_one big_endian 1 two_received true half_header (drop 8 wire)).0 ≡ aborted
unfolding big_endian serialize_header try_receive_one Receive.is_nil
half_header-aborted = refl

half_header-not_yet :
    (try_receive_one big_endian 1 two_received false half_header (drop 8 wire)).0 ≡ not_yet
unfolding big_endian serialize_header try_receive_one receive_part call_recv_msg header_received
half_header-not_yet = refl

receive_calls-send_loop_example :
    let sent_wire = (send_loop all_sent 1024 10 (entries big_endian (hello ∷ hello ∷ [])) []).1.0 in
    let (status, (r', l')) = receive_calls big_endian 1 two_received false 60 idle sent_wire in
    (status ≡ done) × Complete big_endian hello (frames big_endian (hello ∷ [])) r' l'
unfolding send_loop try_send_message account_data account_byte account advance is_nil new_entry
    serialize_header enumerate_iovecs big_endian entries
receive_calls-send_loop_example =
    receive_calls-send_loop big_endian 1 1024 all_sent two_received hello (hello ∷ []) false 10 60
      [] idle (send_loop all_sent 1024 10 (entries big_endian (hello ∷ hello ∷ [])) []).1.0
      (all_sent-Law 1024) (omega arith) refl refl two_received-Law
      (two_received-again, two_received-recv_failed) refl (omega arith, omega arith) (inl refl)
      (omega arith, omega arith) (refl, refl, refl) (omega arith)

-- A send that blocks, and a close that waits for it.
abbrev draining : Socket
draining = close (send (some 4) 0 false (set_receive_callback fresh).1)

draining-Reach : Reach draining
draining-Reach = next (next (next start set_receive) (sending (some 4) 0 false)) closing

Reach-registered_example :
    (draining.reads ≡ draining.receiving)
    × (draining.writes ≡ not (is_empty draining.queue))
    × (draining.scheduled ≡ not (is_empty draining.queue))
    × (draining.is_open ≡ false
        → (draining.close_started ≡ true)
          × (draining.receiving ≡ false)
          × (is_empty draining.queue ≡ true)
          × (draining.reads ≡ false)
          × (draining.writes ≡ false)
          × (draining.scheduled ≡ false))
Reach-registered_example = Reach-registered draining-Reach
