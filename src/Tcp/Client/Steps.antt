-- ===== src/Tcp/Client/Steps.antt =====
-- What the steps of a connection and of a connector do to what muduo/net/TcpClient.cc watches.
use cs_note.Common.{◌+◌, ◌≡◌, ◌≤◌, ap, true, false, List, [], ◌∷◌, ◌++◌, arith, Checked, ok, fault}
use cs_note.Buffer.{ReadResult, received, failed}
use cs_note.Tcp.Channel.{remove}
use cs_note.Tcp.Connection.{
  Connection, Callback, connection_callback, message_callback, close_callback, send, shutdown,
  shutdown_in_loop, force_close, force_close_with_delay, force_close_in_loop, start_read_in_loop,
  stop_read_in_loop, connect_established, connect_destroyed, handle_read, handle_close,
}
use cs_note.Tcp.Connection.Lifecycle.{
  Event, established, destroyed, shuts, force_closes, force_closes_with_delay, force_closes_in_loop,
  starts_read, stops_read, sends, sends_in_loop, reads, writes, step, QuietResult,
  send_in_loop-Quiet, handle_write-Quiet,
}
use cs_note.Tcp.Server.Closing.{closes}

closes-append : (cs ds : List Callback) → closes (cs ++ ds) ≡ closes cs + closes ds
unfolding closes
closes-append [] ds = omega arith
closes-append (close_callback ∷ cs) ds = ground (arith, closes-append cs ds)
closes-append (message_callback ∷ cs) ds = closes-append cs ds
closes-append (connection_callback up ∷ cs) ds = closes-append cs ds

-- No step takes back that a connection has asked for its removal.
abbrev pub GrowsResult : Connection → Checked Connection → Type 0
GrowsResult c (ok c') = closes c.calls ≤ closes c'.calls
GrowsResult c (fault e) = Unit {0}

quiet-Grows : (c : Connection) (r : Checked Connection) → QuietResult c r → GrowsResult c r
quiet-Grows c (ok c') q = omega (arith, ap closes q.calls)
quiet-Grows c (fault e) q = tt

handle_close-Grows : (c : Connection) → GrowsResult c (handle_close c)
unfolding handle_close
handle_close-Grows c = ground (
  arith,
  closes-append c.calls (connection_callback false ∷ []),
  closes-append (c.calls ++ connection_callback false ∷ []) (close_callback ∷ []),
)

handle_read-Grows : (r : ReadResult) (c : Connection) → GrowsResult c (handle_read r c)
unfolding handle_read handle_close
handle_read-Grows (received []) c = ground (
  arith,
  closes-append c.calls (connection_callback false ∷ []),
  closes-append (c.calls ++ connection_callback false ∷ []) (close_callback ∷ []),
)
handle_read-Grows (received (x ∷ xs)) c =
    ground (arith, closes-append c.calls (message_callback ∷ []))
handle_read-Grows (failed e) c = ground arith

-- connectDestroyed does not ask for it.
pub connect_destroyed-closes :
    (c c' : Connection) → connect_destroyed c ≡ ok c' → closes c'.calls ≡ closes c.calls
unfolding connect_destroyed remove closes
connect_destroyed-closes c c' e =
    ground (arith, closes-append c.calls (connection_callback false ∷ []))

pub step-Grows : (e : Event) (c : Connection) → GrowsResult c (step e c)
unfolding step
step-Grows established c =
    unfold connect_established in
    ground (arith, closes-append c.calls (connection_callback true ∷ []))
step-Grows destroyed c =
    unfold connect_destroyed remove in
    ground (arith, closes-append c.calls (connection_callback false ∷ []))
step-Grows shuts c = unfold shutdown shutdown_in_loop in ground arith
step-Grows force_closes c = unfold force_close in ground arith
step-Grows (force_closes_with_delay delay) c = unfold force_close_with_delay in ground arith
step-Grows force_closes_in_loop c =
    unfold force_close_in_loop in ground (arith, handle_close-Grows c)
step-Grows starts_read c = unfold start_read_in_loop in ground arith
step-Grows stops_read c = unfold stop_read_in_loop in ground arith
step-Grows (sends message w) c =
    unfold send in ground (arith, quiet-Grows c _ (send_in_loop-Quiet message w c))
step-Grows (sends_in_loop message w) c = quiet-Grows c _ (send_in_loop-Quiet message w c)
step-Grows (reads r) c = handle_read-Grows r c
step-Grows (writes w) c = quiet-Grows c _ (handle_write-Quiet w c)

pub shutdown-closes : (c : Connection) → closes (shutdown c).calls ≡ closes c.calls
unfolding shutdown shutdown_in_loop
shutdown-closes c = ground arith
