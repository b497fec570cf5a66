-- ===== src/Tcp/Connection/Tests.antt =====
-- A connection with a short output buffer, for src/Tcp/TcpConnection.cpp.
use talib.Prelude.{
  bytes, ℕ, ◌+◌, ◌≤◌, ◌≡◌, refl, true, false, some, List, [], ◌∷◌, ◌++◌, arith, length, replicate,
}
use talib.Buffer.{Buffer, IsValid, append, has_written}
use talib.Reactor.Channel.{
  new_channel, Mask, read_event, write_event, handle_event, write_call, enable_reading, is_writing,
  enable_writing,
}
use talib.Reactor.Channel.Dispatch.{calls}
use talib.Tcp.Connection.{
  Connection, connected, took, writes, updates, connect_established, connection_call,
  new_connection, send_in_loop, handle_write, keep_rest, update,
}
use talib.Tcp.Connection.Stream.{Adds, send_in_loop-Adds, handle_write-Adds, sent}
use talib.Tcp.Connection.States.{establish, run, step, rank, rank-run}
use talib.Tcp.Connection.Interest.{partial_send_stops_reading, write_handler_unreachable}

abbrev output : List ℕ → Buffer
output waiting = record {
  buffer = replicate 8 0 ++ (waiting ++ replicate 8 0);
  reader_index = 8;
  writer_index = 8 + length waiting;
}

abbrev open_connection : Mask → List ℕ → Connection
open_connection m waiting = record {
  state = connected;
  channel = record (new_channel 5) { events = m; has_read = true; has_close = true };
  input = output [];
  output = output waiting;
  effects = [];
}

abbrev abc : List ℕ
abc = bytes "abc"

empty-IsValid : IsValid (output [])
empty-IsValid = record { prepend = omega arith; ordered = omega arith; within = omega arith }

abc-IsValid : IsValid (output abc)
abc-IsValid = record { prepend = omega arith; ordered = omega arith; within = omega arith }

send_in_loop-Adds_example :
    (c' : Connection) × (send_in_loop (took 1) abc (open_connection read_event []) ≡ some c')
    × Adds abc (open_connection read_event []) c'
send_in_loop-Adds_example =
    send_in_loop-Adds (took 1) abc (open_connection read_event []) refl refl
      (record { valid = empty-IsValid; narrow = omega arith; small = omega arith })

handle_write-Adds_example :
    (c' : Connection) × (handle_write (took 2) (open_connection write_event abc) ≡ some c')
    × Adds [] (open_connection write_event abc) c'
    × (sent c'.effects ≡ 97 ∷ 98 ∷ [])
unfolding is_writing
handle_write-Adds_example =
    handle_write-Adds (took 2) (open_connection write_event abc) abc-IsValid (omega arith)

abbrev partly_sent : Connection
partly_sent = record (open_connection write_event []) {
  channel = record (open_connection write_event []).channel { added_to_loop = true };
  output = record (output []) {
    buffer = replicate 8 0 ++ (98 ∷ 99 ∷ replicate 6 0);
    writer_index = 10;
  };
  effects = writes (97 ∷ []) ∷ updates write_event ∷ [];
}

sent_partly : send_in_loop (took 1) abc (open_connection read_event []) ≡ some partly_sent
unfolding send_in_loop keep_rest update is_writing enable_writing append has_written new_channel
sent_partly = refl

partial_send_stops_reading_example : partly_sent.channel.events ≡ write_event
unfolding new_channel is_writing
partial_send_stops_reading_example =
    partial_send_stops_reading (took 1) abc (open_connection read_event []) partly_sent refl refl
      (record { read_bits = refl; no_hup = refl; no_rdhup = refl; no_err = refl }) refl
      (omega arith) sent_partly

abbrev established : Connection
established = record (new_connection 5) {
  state = connected;
  channel = record (new_connection 5).channel { events = read_event; added_to_loop = true };
  effects = updates read_event ∷ connection_call ∷ [];
}

run-established : run (establish ∷ []) (new_connection 5) ≡ some established
unfolding run step connect_established update enable_reading new_connection new_channel
run-established = refl

step-established : step establish (new_connection 5) ≡ some established
unfolding step connect_established update enable_reading new_connection new_channel
step-established = refl

rank-run_example : (rank (new_connection 5).state ≤ rank established.state) × (1 ≤ 1)
unfolding new_connection
rank-run_example = rank-run (establish ∷ []) (new_connection 5) established run-established

write_handler_unreachable_example :
    calls write_call (handle_event (record established.channel { revents = write_event })) ≡ false
write_handler_unreachable_example =
    write_handler_unreachable 5 (establish ∷ []) established write_event run-established
