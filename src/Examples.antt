-- ===== src/Examples.antt =====
-- Concrete inputs at which the theorems about muduo apply. This file has the data that they share.
pub mod Buffers
pub mod Requests
pub mod Connections
pub mod Connecting
pub mod Texts
pub mod Loops
pub mod Timing
pub mod Turning
pub mod Polling
pub mod Pooling
pub mod Serving
pub mod Writing
pub mod Zones
pub mod Framing
pub mod Waiting
pub mod Client
pub mod Rolling
pub mod Topics
use cs_note.Common.{ℕ, ◌+◌, Bool, true, false, List, [], ◌++◌, length, replicate}
use cs_note.Buffer.{Buffer}
use cs_note.Tcp.Channel.{Channel, new_channel, none_event}
use cs_note.Tcp.Connection.{Connection, new_connection, connected}

-- A buffer with a content and a little room behind it.
abbrev pub filled : List ℕ → Buffer
filled c = record {
  bytes = replicate 8 0 ++ (c ++ replicate 4 0);
  reader = 8;
  writer = 8 + length c;
}

-- A channel that is watched for reads, and maybe for writes.
abbrev reading : Bool → Channel
reading writing = record (new_channel 5) {
  events = record none_event { pollin = true; pollpri = true; pollout = writing };
  added_to_loop = true;
}

-- A connection that is up, with an output that waits.
abbrev pub sending : List ℕ → Connection
sending output = record (new_connection (reading true) (filled output) (filled output)) {
  state = connected;
}

-- A connection that is up and idle, with bytes received.
abbrev pub idle : List ℕ → Connection
idle input = record (new_connection (reading false) (filled input) (filled [])) {
  state = connected;
}
