-- ===== src/Tcp/Connector.antt =====
-- muduo/net/Connector.h and Connector.cc, as seen from the loop's thread: the attempts to connect,
-- with the results of the system calls as arguments. What the connector asks of its surroundings is
-- recorded: the sockets that it closed or handed on, the timers and functors that it started.
pub mod Sockets
pub mod Attempts
pub mod Delays
use cs_note.Common.{
  ℕ, ◌+◌, ◌-◌, ◌*◌, Bool, true, false, not, Option, none, some, List, [], ◌∷◌, ◌++◌, if◌then◌else◌,
  min, Checked, ok, fault, assertion, assert, ◌>>=◌, ◌>>◌,
}

pub data State : Type 0 where
  disconnected connecting connected : State

abbrev pub max_retry_delay_ms : ℕ
max_retry_delay_ms = 30000

abbrev pub init_retry_delay_ms : ℕ
init_retry_delay_ms = 500

-- The channel's descriptor, and whether it is still watched; `resetChannel` deletes it.
pub record Watched : Type 0 where
  pub fd : ℕ
  pub enabled : Bool

pub record Connector : Type 0 where
  pub connect : Bool
  pub state : State
  pub channel : Option Watched
  pub retry_delay_ms : ℕ
  pub closed : List ℕ
  pub handed_on : List ℕ
  pub timers : List ℕ
  pub resets_queued : ℕ

abbrev pub new_connector : Connector
new_connector = record {
  connect = false;
  state = disconnected;
  channel = none;
  retry_delay_ms = init_retry_delay_ms;
  closed = [];
  handed_on = [];
  timers = [];
  resets_queued = 0;
}

abbrev pub is_disconnected : State → Bool
is_disconnected disconnected = true
is_disconnected _ = false

abbrev pub is_connecting : State → Bool
is_connecting connecting = true
is_connecting _ = false

abbrev pub has_channel : Option Watched → Bool
has_channel none = false
has_channel (some w) = true

abbrev pub close : ℕ → Connector → Connector
close sockfd c = record c { closed = c.closed ++ sockfd ∷ [] }

-- `retry`: a timer for the next attempt, and a longer delay for the one after it.
unfoldable pub retry : ℕ → Connector → Connector
retry sockfd c =
    let c1 = record (close sockfd c) { state = disconnected } in
    if c1.connect
    then record c1 {
      timers = c1.timers ++ c1.retry_delay_ms ∷ [];
      retry_delay_ms = min (c1.retry_delay_ms * 2) max_retry_delay_ms;
    }
    else c1

-- `connecting`: the socket is watched for writes.
unfoldable pub connecting_on : ℕ → Connector → Checked Connector
connecting_on sockfd c = do
  assert (not (has_channel c.channel))
  ok (record c { state = connecting; channel = some (record { fd = sockfd; enabled = true }) })

-- What `connect(2)` said.
pub data ConnectResult : Type 0 where
  in_progress retryable fatal unexpected : ConnectResult

-- The `switch` of `connect`: 0, EINPROGRESS, EINTR, EISCONN; EAGAIN, EADDRINUSE, EADDRNOTAVAIL,
-- ECONNREFUSED, ENETUNREACH; EACCES, EPERM, EAFNOSUPPORT, EALREADY, EBADF, EFAULT, ENOTSOCK; the
-- rest.
unfoldable pub connect_with : ℕ → ConnectResult → Connector → Checked Connector
connect_with sockfd in_progress c = connecting_on sockfd c
connect_with sockfd retryable c = ok (retry sockfd c)
connect_with sockfd fatal c = ok (close sockfd c)
connect_with sockfd unexpected c = ok (close sockfd c)

unfoldable pub start_in_loop : ℕ → ConnectResult → Connector → Checked Connector
start_in_loop sockfd r c = do
  assert (is_disconnected c.state)
  if c.connect then connect_with sockfd r c else ok c

unfoldable pub start : ℕ → ConnectResult → Connector → Checked Connector
start sockfd r c = start_in_loop sockfd r (record c { connect = true })

unfoldable pub restart : ℕ → ConnectResult → Connector → Checked Connector
restart sockfd r c =
    start_in_loop sockfd r
      (record c { state = disconnected; retry_delay_ms = init_retry_delay_ms; connect = true })

-- `removeAndResetChannel`: the channel is disabled and removed now, and deleted by a functor. There
-- is no channel to read without one; that is the fault of a null pointer.
unfoldable pub remove_and_reset_channel : Connector → Checked (ℕ × Connector)
remove_and_reset_channel c = elim c.channel [
  | none ↦ fault assertion
  | some w ↦ ok (
    w.fd,
    record c { channel = some (record w { enabled = false }); resets_queued = c.resets_queued + 1 },
  )
]

-- `stop` sets the flag at once and queues `stopInLoop`.
unfoldable pub stop : Connector → Connector
stop c = record c { connect = false }

unfoldable pub stop_in_loop : Connector → Checked Connector
stop_in_loop c =
    if is_connecting c.state
    then (do
      (sockfd, c') ← remove_and_reset_channel (record c { state = disconnected })
      ok (retry sockfd c'))
    else ok c

-- The functor that `removeAndResetChannel` queued.
unfoldable pub reset_channel : Connector → Connector
reset_channel c = record c { channel = none; resets_queued = c.resets_queued - 1 }

-- What SO_ERROR and the addresses of the socket say when it becomes writable.
pub data Outcome : Type 0 where
  socket_error self_connect established : Outcome

unfoldable pub finish : ℕ → Outcome → Connector → Connector
finish sockfd socket_error c = retry sockfd c
finish sockfd self_connect c = retry sockfd c
finish sockfd established c =
    let c1 = record c { state = connected } in
    if c1.connect then record c1 { handed_on = c1.handed_on ++ sockfd ∷ [] } else close sockfd c1

unfoldable pub handle_write : Outcome → Connector → Checked Connector
handle_write o c =
    if is_connecting c.state
    then (do (sockfd, c') ← remove_and_reset_channel c; ok (finish sockfd o c'))
    else (do assert (is_disconnected c.state); ok c)

unfoldable pub handle_error : Connector → Checked Connector
handle_error c =
    if is_connecting c.state
    then (do (sockfd, c') ← remove_and_reset_channel c; ok (retry sockfd c'))
    else ok c
