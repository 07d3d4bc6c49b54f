-- ===== src/Tcp/Connection.antt =====
-- muduo/net/TcpConnection.h and TcpConnection.cc, as seen from the loop's thread. The channel is the
-- one of `Tcp/Channel`. `wire` is what the kernel has taken from the socket's writes; the results of
-- the system calls are arguments. The callbacks of the user are recorded in the order of their calls,
-- functors handed to `queueInLoop` in `queued`.
pub mod Stream
pub mod Writing
pub mod Lifecycle
pub mod Reading
use cs_note.Common.{
  ℕ, ◌+◌, ◌≡◌, Bool, true, false, ◌&&◌, ◌||◌, not, List, [], ◌∷◌, ◌++◌, if◌then◌else◌, leb, ltb,
  ◌==◌, length, take, drop, Checked, ok, assert, ◌>>=◌, ◌>>◌, add_size, sub_size, Option, some,
  none,
}
use cs_note.Buffer.{
  Buffer, ReadResult, received, failed, contents, readable_bytes, append, retrieve, retrieve_all,
  read_fd,
}
use cs_note.Tcp.Channel.{
  Channel, enable_reading, disable_reading, enable_writing, disable_writing, disable_all,
  is_reading, is_writing, remove,
}

pub data State : Type 0 where
  disconnected connecting connected disconnecting : State

-- The user's callbacks; a connection callback with what `connected()` then says.
pub data Callback : Type 0 where
  connection_callback : Bool → Callback
  message_callback : Callback
  close_callback : Callback

-- Functors that a connection queues.
pub data Functor : Type 0 where
  write_complete : Functor
  high_water : ℕ → Functor
  force_close_in_loop_later : Functor

pub record Connection : Type 0 where
  pub state : State
  pub reading : Bool
  pub channel : Channel
  pub high_water_mark : ℕ
  pub has_write_complete : Bool
  pub has_high_water : Bool
  pub input : Buffer
  pub output : Buffer
  pub wire : List ℕ
  pub write_shut : Bool
  pub calls : List Callback
  pub queued : List Functor

abbrev pub is_connected : State → Bool
is_connected connected = true
is_connected _ = false

abbrev pub is_disconnected : State → Bool
is_disconnected disconnected = true
is_disconnected _ = false

abbrev pub is_disconnecting : State → Bool
is_disconnecting disconnecting = true
is_disconnecting _ = false

abbrev pub is_connecting : State → Bool
is_connecting connecting = true
is_connecting _ = false

-- Connected, or on the way down.
abbrev pub is_open : State → Bool
is_open connected = true
is_open disconnecting = true
is_open _ = false

-- The constructor, for the channel of a connected socket; the mark is 64 MiB.
abbrev pub new_connection : Channel → Buffer → Buffer → Connection
new_connection channel input output = record {
  state = connecting;
  reading = true;
  channel = record channel {
    has_read = true;
    has_write = true;
    has_close = true;
    has_error = true;
  };
  high_water_mark = 67_108_864;
  has_write_complete = false;
  has_high_water = false;
  input = input;
  output = output;
  wire = [];
  write_shut = false;
  calls = [];
  queued = [];
}

-- What `write(2)` returned: how many bytes it took, or its errno.
pub data Errno : Type 0 where
  would_block pipe conn_reset other : Errno

pub data WriteResult : Type 0 where
  wrote : ℕ → WriteResult
  write_failed : Errno → WriteResult

abbrev pub call : Callback → Connection → Connection
call cb c = record c { calls = c.calls ++ cb ∷ [] }

abbrev pub queue_in_loop : Functor → Connection → Connection
queue_in_loop f c = record c { queued = c.queued ++ f ∷ [] }

abbrev pub queue_if : Bool → Functor → Connection → Connection
queue_if b f c = if b then queue_in_loop f c else c

abbrev pub is_fault : Errno → Bool
is_fault pipe = true
is_fault conn_reset = true
is_fault _ = false

-- The first write of `sendInLoop`: the bytes taken, whether the error is fatal, and the connection.
pub record Attempt : Type 0 where
  pub nwrote : ℕ
  pub fault_error : Bool
  pub conn : Connection

unfoldable pub attempt : List ℕ → WriteResult → Connection → Attempt
attempt message (wrote n) c =
    let remaining = sub_size (length message) n in
    record {
      nwrote = n;
      fault_error = false;
      conn =
          queue_if (remaining == 0 && c.has_write_complete) write_complete
            (record c { wire = c.wire ++ take n message });
    }
attempt message (write_failed e) c = record { nwrote = 0; fault_error = is_fault e; conn = c }

-- With `output` for the new output buffer: the high water callback is queued when the length of the
-- output goes over the mark, and the socket is watched for writes.
unfoldable pub buffered : ℕ → Buffer → Connection → Connection
buffered remaining output c =
    let old_len = readable_bytes c.output in
    let crossed =
      leb c.high_water_mark (add_size old_len remaining)
      && (ltb old_len c.high_water_mark && c.has_high_water) in
    record (queue_if crossed (high_water (add_size old_len remaining)) c) {
      output = output;
      channel = if is_writing c.channel then c.channel else enable_writing c.channel;
    }

-- The rest of `sendInLoop`: what was not taken goes to the output buffer.
unfoldable pub send_rest : List ℕ → Attempt → Checked Connection
send_rest message a = do
  let remaining = sub_size (length message) a.nwrote
  assert (leb remaining (length message))
  if not a.fault_error && ltb 0 remaining
      then (do
        output ← append (drop a.nwrote message) a.conn.output
        ok (buffered remaining output a.conn))
      else ok a.conn

unfoldable pub send_in_loop : List ℕ → WriteResult → Connection → Checked Connection
send_in_loop message w c =
    if is_disconnected c.state
    then ok c
    else if not (is_writing c.channel) && readable_bytes c.output == 0
    then send_rest message (attempt message w c)
    else send_rest message (record { nwrote = 0; fault_error = false; conn = c })

unfoldable pub send : List ℕ → WriteResult → Connection → Checked Connection
send message w c = if is_connected c.state then send_in_loop message w c else ok c

-- send(Buffer*) empties the buffer that it sends.
unfoldable pub send_buffer : Buffer → WriteResult → Connection → Checked (Connection × Buffer)
send_buffer buf w c =
    if is_connected c.state
    then (do c' ← send_in_loop (contents buf) w c; ok (c', retrieve_all buf))
    else ok (c, buf)

unfoldable pub shutdown_in_loop : Connection → Connection
shutdown_in_loop c = if is_writing c.channel then c else record c { write_shut = true }

unfoldable pub shutdown : Connection → Connection
shutdown c =
    if is_connected c.state then shutdown_in_loop (record c { state = disconnecting }) else c

unfoldable pub force_close : Connection → Connection
force_close c =
    if is_open c.state
    then queue_in_loop force_close_in_loop_later (record c { state = disconnecting })
    else c

-- With the delay of the timer that is to call forceClose, if one is set.
unfoldable pub force_close_with_delay : ℕ → Connection → Connection × Option ℕ
force_close_with_delay delay c =
    if is_open c.state then (record c { state = disconnecting }, some delay) else (c, none)

unfoldable pub handle_close : Connection → Checked Connection
handle_close c = do
  assert (is_open c.state)
  let c1 = record c { state = disconnected; channel = disable_all c.channel }
  ok (call close_callback (call (connection_callback false) c1))

unfoldable pub force_close_in_loop : Connection → Checked Connection
force_close_in_loop c = if is_open c.state then handle_close c else ok c

unfoldable pub start_read_in_loop : Connection → Connection
start_read_in_loop c =
    if not c.reading || not (is_reading c.channel)
    then record c { channel = enable_reading c.channel; reading = true }
    else c

unfoldable pub stop_read_in_loop : Connection → Connection
stop_read_in_loop c =
    if c.reading || is_reading c.channel
    then record c { channel = disable_reading c.channel; reading = false }
    else c

unfoldable pub connect_established : Connection → Checked Connection
connect_established c = do
  assert (is_connecting c.state)
  let tied = record c.channel { tied = true }
  ok (
      call (connection_callback true)
        (record c { state = connected; channel = enable_reading tied }))

unfoldable pub connect_destroyed : Connection → Checked Connection
connect_destroyed c = do
  let c1 =
      if is_connected c.state
      then call (connection_callback false)
          (record c { state = disconnected; channel = disable_all c.channel })
      else c
  channel ← remove c1.channel
  ok (record c1 { channel = channel })

unfoldable pub handle_read : ReadResult → Connection → Checked Connection
handle_read (received []) c = do
  (_, input) ← read_fd (received []) c.input
  handle_close (record c { input = input })
handle_read (received (x ∷ xs)) c = do
  (_, input) ← read_fd (received (x ∷ xs)) c.input
  ok (call message_callback (record c { input = input }))
handle_read (failed e) c = do
  (_, input) ← read_fd (failed e) c.input
  ok (record c { input = input })

-- After a write that took bytes: the output buffer may be empty now.
unfoldable pub wrote_output : Connection → Connection
wrote_output c =
    if readable_bytes c.output == 0
    then (let c1 =
          queue_if c.has_write_complete write_complete
            (record c { channel = disable_writing c.channel }) in
        if is_disconnecting c.state then shutdown_in_loop c1 else c1)
    else c

unfoldable pub handle_written : WriteResult → Connection → Checked Connection
handle_written (wrote n) c =
    if ltb 0 n
    then (do
      output ← retrieve n c.output
      ok (wrote_output (record c { output = output; wire = c.wire ++ take n (contents c.output) })))
    else ok c
handle_written (write_failed e) c = ok c

unfoldable pub handle_write : WriteResult → Connection → Checked Connection
handle_write w c = if is_writing c.channel then handle_written w c else ok c
