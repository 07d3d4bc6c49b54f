-- ===== src/Tcp/Client/Connecting.antt =====
-- What a connector does that has made its connection, for muduo/net/TcpClient.cc.
use cs_note.Common.{ℕ, assertion, ◌≡◌, Bool, true, false, ◌||◌, not, arith, Checked, ok, fault}
use cs_note.Tcp.Connector.{
  State, connected, Connector, ConnectResult, in_progress, retryable, fatal, unexpected, Outcome,
  socket_error, self_connect, established, start, start_in_loop, connect_with, connecting_on, retry,
  stop_in_loop, reset_channel, remove_and_reset_channel, finish, handle_write, handle_error,
}
use cs_note.Tcp.Client.{hands_on}

-- Whether a connector has handed its connection on.
abbrev pub is_up : State → Bool
is_up connected = true
is_up _ = false

-- What the loop does with the connector without its client: a retry, the functors, an error.
pub data Background : Type 0 where
  times_out : ℕ → ConnectResult → Background
  stops_in_loop resets errors : Background

unfoldable pub background : Background → Connector → Checked Connector
background (times_out sockfd r) c = start_in_loop sockfd r c
background stops_in_loop c = stop_in_loop c
background resets c = ok (reset_channel c)
background errors c = handle_error c

-- A connector that is up stays up.
abbrev pub UpResult : Connector → Checked Connector → Type 0
UpResult c (ok c') = (not (is_up c.state) || is_up c'.state) ≡ true
UpResult c (fault e) = Unit {0}

start_in_loop-Up :
    (sockfd : ℕ) (r : ConnectResult) (c : Connector) → UpResult c (start_in_loop sockfd r c)
unfolding start_in_loop connect_with connecting_on retry
start_in_loop-Up sockfd in_progress c = ground arith
start_in_loop-Up sockfd retryable c = ground arith
start_in_loop-Up sockfd fatal c = ground arith
start_in_loop-Up sockfd unexpected c = ground arith

pub start-Up : (sockfd : ℕ) (r : ConnectResult) (c : Connector) → UpResult c (start sockfd r c)
unfolding start
start-Up sockfd r c = start_in_loop-Up sockfd r (record c { connect = true })

pub background-Up : (b : Background) (c : Connector) → UpResult c (background b c)
unfolding background
background-Up (times_out sockfd r) c = start_in_loop-Up sockfd r c
background-Up stops_in_loop c = unfold stop_in_loop remove_and_reset_channel retry in ground arith
background-Up resets c = unfold reset_channel in ground arith
background-Up errors c = unfold handle_error remove_and_reset_channel retry in ground arith

-- `handleWrite` hands a connection on only from a connector that is not up, and it is up then.
abbrev pub HandsResult : Connector → Checked Connector → Type 0
HandsResult c (ok c') = (is_up c.state ≡ false) × ((not (hands_on c c') || is_up c'.state) ≡ true)
HandsResult c (fault e) = Unit {0}

pub handle_write-Hands : (o : Outcome) (c : Connector) → HandsResult c (handle_write o c)
unfolding handle_write remove_and_reset_channel finish retry
handle_write-Hands socket_error c = ground arith
handle_write-Hands self_connect c = ground arith
handle_write-Hands established c = ground arith

-- No attempt can be started while the connector is up.
pub start_up :
    (sockfd : ℕ) (r : ConnectResult) (c : Connector)
    → is_up c.state ≡ true
    → start sockfd r c ≡ fault assertion
unfolding start start_in_loop
start_up sockfd r c h = ground arith
