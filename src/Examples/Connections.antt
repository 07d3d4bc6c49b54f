-- ===== src/Examples/Connections.antt =====
-- The theorems about muduo/net/TcpConnection.cc at concrete states.
use cs_note.Common.{ℕ, refl, List, [], ◌∷◌, arith}
use cs_note.Buffer.{received}
use cs_note.Tcp.Channel.{new_channel}
use cs_note.Tcp.Connection.{
  Connection, disconnected, wrote, new_connection, send_in_loop, handle_write,
}
use cs_note.Tcp.Connection.Stream.{IsSound, Sent, send_in_loop-Sent}
use cs_note.Tcp.Connection.Writing.{Wrote, handle_write-Wrote}
use cs_note.Tcp.Connection.Lifecycle.{
  established, sends, destroyed, reads, run, ToldResult, run-new_connection-Told,
}
use cs_note.Examples.{filled, sending, idle}

abbrev bytes : List ℕ
bytes = 97 ∷ 98 ∷ 99 ∷ []

sending-IsSound : IsSound (sending bytes)
sending-IsSound = record {
  input_valid = omega arith;
  output_valid = omega arith;
  watching = λ _. refl;
}

idle-IsSound : IsSound (idle bytes)
idle-IsSound = record {
  input_valid = omega arith;
  output_valid = omega arith;
  watching = λ _. refl;
}

-- The first write takes one byte of the three.
send_in_loop-Sent_example : Sent bytes (idle bytes) (send_in_loop bytes (wrote 1) (idle bytes))
send_in_loop-Sent_example =
    send_in_loop-Sent bytes (wrote 1) (idle bytes) idle-IsSound refl (omega arith) (omega arith)

handle_write-Wrote_example : Wrote (sending bytes) 2 (handle_write (wrote 2) (sending bytes))
handle_write-Wrote_example =
    handle_write-Wrote (wrote 2) (sending bytes) sending-IsSound refl refl (omega arith)

run-new_connection-Told_example : ToldResult (
    run
      (established ∷ sends bytes (wrote 3) ∷ reads (received []) ∷ destroyed ∷ [])
      (new_connection (new_channel 5) (filled []) (filled [])))
run-new_connection-Told_example =
    run-new_connection-Told
      (established ∷ sends bytes (wrote 3) ∷ reads (received []) ∷ destroyed ∷ []) (new_channel 5)
      (filled []) (filled [])

-- A connection whose channel watches nothing.
abbrev closed : Connection
closed = record (new_connection (new_channel 5) (filled []) (filled [])) { state = disconnected }
