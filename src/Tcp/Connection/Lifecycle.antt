-- ===== src/Tcp/Connection/Lifecycle.antt =====
-- The life of a `TcpConnection` of muduo/net/TcpConnection.cc: which callbacks its user sees.
use cs_note.Common.{
  ℕ, ◌≡◌, refl, ap, ◌⊎◌, true, false, List, [], ◌∷◌, ◌++◌, append-nil, arith, Checked, ok, fault,
  ◌>>=◌,
}
use cs_note.Buffer.{Buffer, ReadResult, received, failed}
use cs_note.Tcp.Channel.{Channel, remove}
use cs_note.Tcp.Connection.{
  Connection, State, disconnected, connecting, connected, disconnecting, Callback,
  connection_callback, message_callback, close_callback, WriteResult, wrote, write_failed, send,
  send_in_loop, send_rest, attempt, buffered, shutdown, shutdown_in_loop, force_close,
  force_close_with_delay, force_close_in_loop, start_read_in_loop, stop_read_in_loop,
  connect_established, connect_destroyed, handle_read, handle_write, handle_written, wrote_output,
  handle_close, new_connection,
}

-- What the loop does to a connection, with the results of the system calls.
pub data Event : Type 0 where
  established destroyed shuts force_closes force_closes_in_loop starts_read stops_read : Event
  force_closes_with_delay : ℕ → Event
  sends sends_in_loop : List ℕ → WriteResult → Event
  reads : ReadResult → Event
  writes : WriteResult → Event

unfoldable pub step : Event → Connection → Checked Connection
step established c = connect_established c
step destroyed c = connect_destroyed c
step shuts c = ok (shutdown c)
step force_closes c = ok (force_close c)
step (force_closes_with_delay delay) c = ok ((force_close_with_delay delay c).0)
step force_closes_in_loop c = force_close_in_loop c
step starts_read c = ok (start_read_in_loop c)
step stops_read c = ok (stop_read_in_loop c)
step (sends message w) c = send message w c
step (sends_in_loop message w) c = send_in_loop message w c
step (reads r) c = handle_read r c
step (writes w) c = handle_write w c

-- The callbacks but those for messages.
unfoldable pub notices : List Callback → List Callback
notices [] = []
notices (message_callback ∷ cs) = notices cs
notices (connection_callback up ∷ cs) = connection_callback up ∷ notices cs
notices (close_callback ∷ cs) = close_callback ∷ notices cs

-- In each state, what the user has been told so far.
abbrev pub Told : State → List Callback → Type 0
Told connecting ns = ns ≡ []
Told connected ns = ns ≡ connection_callback true ∷ []
Told disconnecting ns = ns ≡ connection_callback true ∷ []
Told disconnected ns =
    (ns ≡ connection_callback true ∷ connection_callback false ∷ [])
    ⊎ (ns ≡ connection_callback true ∷ connection_callback false ∷ close_callback ∷ [])

abbrev pub IsTold : Connection → Type 0
IsTold c = Told c.state (notices c.calls)

notices-append : (cs ds : List Callback) → notices (cs ++ ds) ≡ notices cs ++ notices ds
unfolding notices
notices-append [] ds = refl
notices-append (message_callback ∷ cs) ds = notices-append cs ds
notices-append (connection_callback up ∷ cs) ds =
    ap (◌∷◌ (connection_callback up)) (notices-append cs ds)
notices-append (close_callback ∷ cs) ds = ap (◌∷◌ close_callback) (notices-append cs ds)

-- An operation that changes neither the state nor the callbacks.
pub record Quiet (c c' : Connection) : Type 0 where
  pub state : c'.state ≡ c.state
  pub calls : c'.calls ≡ c.calls

Quiet-IsTold : {c c' : Connection} → Quiet c c' → IsTold c → IsTold c'
Quiet-IsTold q t = rw (q.state, q.calls) t

abbrev pub QuietResult : Connection → Checked Connection → Type 0
QuietResult c (ok c') = Quiet c c'
QuietResult c (fault e) = Unit {0}

pub send_in_loop-Quiet :
    (message : List ℕ) (w : WriteResult) (c : Connection) → QuietResult c (send_in_loop message w c)
unfolding send_in_loop send_rest attempt buffered
send_in_loop-Quiet message (wrote n) c = ground arith
send_in_loop-Quiet message (write_failed e) c = ground arith

pub handle_write-Quiet : (w : WriteResult) (c : Connection) → QuietResult c (handle_write w c)
unfolding handle_write handle_written wrote_output shutdown_in_loop
handle_write-Quiet (wrote n) c = ground arith
handle_write-Quiet (write_failed e) c = ground arith

abbrev pub ToldResult : Checked Connection → Type 0
ToldResult (ok c) = IsTold c
ToldResult (fault e) = Unit {0}

QuietResult-Told :
    (c : Connection) (r : Checked Connection) → QuietResult c r → IsTold c → ToldResult r
QuietResult-Told c (ok c') q t = Quiet-IsTold q t
QuietResult-Told c (fault e) q t = tt

handle_close-Told : (c : Connection) → IsTold c → ToldResult (handle_close c)
unfolding handle_close notices
handle_close-Told c t = ground (
  arith,
  notices-append c.calls (connection_callback false ∷ []),
  notices-append (c.calls ++ connection_callback false ∷ []) (close_callback ∷ []),
)

connect_established-Told : (c : Connection) → IsTold c → ToldResult (connect_established c)
unfolding connect_established notices
connect_established-Told c t =
    ground (arith, notices-append c.calls (connection_callback true ∷ []))

connect_destroyed-Told : (c : Connection) → IsTold c → ToldResult (connect_destroyed c)
unfolding connect_destroyed remove notices
connect_destroyed-Told c t = ground (arith, notices-append c.calls (connection_callback false ∷ []))

handle_read-Told : (r : ReadResult) (c : Connection) → IsTold c → ToldResult (handle_read r c)
unfolding handle_read handle_close notices
handle_read-Told (received []) c t = ground (
  arith,
  notices-append c.calls (connection_callback false ∷ []),
  notices-append (c.calls ++ connection_callback false ∷ []) (close_callback ∷ []),
)
handle_read-Told (received (x ∷ xs)) c t =
    ground (arith, notices-append c.calls (message_callback ∷ []), append-nil (notices c.calls))
handle_read-Told (failed e) c t = ground arith

pub step-Told : (e : Event) (c : Connection) → IsTold c → ToldResult (step e c)
unfolding step
step-Told established c t = connect_established-Told c t
step-Told destroyed c t = connect_destroyed-Told c t
step-Told shuts c t = unfold shutdown shutdown_in_loop in ground arith
step-Told force_closes c t = unfold force_close in ground arith
step-Told (force_closes_with_delay delay) c t = unfold force_close_with_delay in ground arith
step-Told force_closes_in_loop c t =
    unfold force_close_in_loop in ground (arith, handle_close-Told c t)
step-Told starts_read c t = unfold start_read_in_loop in ground arith
step-Told stops_read c t = unfold stop_read_in_loop in ground arith
step-Told (sends message w) c t =
    unfold send in ground (arith, QuietResult-Told c _ (send_in_loop-Quiet message w c) t)
step-Told (sends_in_loop message w) c t = QuietResult-Told c _ (send_in_loop-Quiet message w c) t
step-Told (reads r) c t = handle_read-Told r c t
step-Told (writes w) c t = QuietResult-Told c _ (handle_write-Quiet w c) t

unfoldable pub run : List Event → Connection → Checked Connection
run [] c = ok c
run (e ∷ es) c = do c' ← step e c; run es c'

bind-Told :
    (r : Checked Connection) (f : Connection → Checked Connection)
    → ((c : Connection) → IsTold c → ToldResult (f c))
    → ToldResult r
    → ToldResult (r >>= f)
bind-Told (ok c) f h t = h c t
bind-Told (fault e) f h t = tt

run-Told : (es : List Event) (c : Connection) → IsTold c → ToldResult (run es c)
unfolding run
run-Told [] c t = t
run-Told (e ∷ es) c t = bind-Told (step e c) (run es) (λ c' t'. run-Told es c' t') (step-Told e c t)

-- Whatever happens to a new connection, in whatever order, up to a failed assertion: its user is told
-- once that it is up, then once that it is down, and the owner's close callback comes last if at
-- all; and what has been told agrees with the state.
pub run-new_connection-Told :
    (es : List Event) (ch : Channel) (input output : Buffer)
    → ToldResult (run es (new_connection ch input output))
unfolding notices
run-new_connection-Told es ch input output = run-Told es (new_connection ch input output) refl
