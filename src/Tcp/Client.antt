-- ===== src/Tcp/Client.antt =====
-- muduo/net/TcpClient.h and TcpClient.cc: a connector and the connection that it makes, in one loop. Connections
-- are objects in a store, named by their numbers; `queued` are those whose connectDestroyed waits in
-- the loop. The sockets and the results of connect(2) are arguments.
pub mod Steps
pub mod Connecting
pub mod Current
pub mod Reachable
use cs_note.Common.{
  ℕ, suc, Bool, true, false, ◌&&◌, not, Option, none, some, List, [], ◌∷◌, ◌++◌, if◌then◌else◌, ltb,
  ◌==◌, length, Checked, ok, fault, assertion, assert, ◌>>=◌, ◌>>◌,
}
use cs_note.Buffer.{Buffer}
use cs_note.Tcp.Channel.{Channel}
use cs_note.Tcp.Connection.{
  Connection, new_connection, connect_established, connect_destroyed, shutdown,
}
use cs_note.Tcp.Connector.{
  Connector, new_connector, ConnectResult, Outcome, start, restart, stop, handle_write,
}
use cs_note.Tcp.Connection.Lifecycle.{Event, step}
use cs_note.Tcp.Server.{put_at}
use cs_note.Tcp.Server.Closing.{closes}

pub record TcpClient : Type 0 where
  pub connector : Connector
  pub retry : Bool
  pub connect : Bool
  pub next_conn_id : ℕ
  pub connection : Option ℕ
  pub connections : ℕ → Option Connection
  pub queued : List ℕ

abbrev pub new_client : TcpClient
new_client = record {
  connector = new_connector;
  retry = false;
  connect = true;
  next_conn_id = 1;
  connection = none;
  connections = λ id. none;
  queued = [];
}

abbrev pub enable_retry : TcpClient → TcpClient
enable_retry c = record c { retry = true }

unfoldable pub connect_client : ℕ → ConnectResult → TcpClient → Checked TcpClient
connect_client sockfd r c = do
  connector ← start sockfd r c.connector
  ok (record c { connect = true; connector = connector })

abbrev pub set_connection : ℕ → Connection → TcpClient → TcpClient
set_connection id conn c = record c { connections = put_at id (some conn) c.connections }

-- `connection_->shutdown()`
abbrev pub shutdown_at : ℕ → Option Connection → TcpClient → TcpClient
shutdown_at id none c = c
shutdown_at id (some conn) c = set_connection id (shutdown conn) c

abbrev pub shutdown_current : Option ℕ → TcpClient → TcpClient
shutdown_current none c = c
shutdown_current (some id) c = shutdown_at id (c.connections id) c

abbrev pub disconnect : TcpClient → TcpClient
disconnect c = shutdown_current c.connection (record c { connect = false })

abbrev pub stop_client : TcpClient → TcpClient
stop_client c = record c { connect = false; connector = stop c.connector }

-- `newConnection`
unfoldable pub accept_connected : Channel → Buffer → Buffer → TcpClient → Checked TcpClient
accept_connected channel input output c = do
  conn ← connect_established (new_connection channel input output)
  ok (record (set_connection c.next_conn_id conn c) {
    next_conn_id = suc c.next_conn_id;
    connection = some c.next_conn_id;
  })

abbrev pub hands_on : Connector → Connector → Bool
hands_on before now = ltb (length before.handed_on) (length now.handed_on)

-- The connector's `handleWrite`, with its callback, which comes last.
unfoldable pub connector_writes :
    Outcome → Channel → Buffer → Buffer → TcpClient → Checked TcpClient
connector_writes o channel input output c = do
  connector ← handle_write o c.connector
  let c' = record c { connector = connector }
  if hands_on c.connector connector then accept_connected channel input output c' else ok c'

abbrev pub is_connection : ℕ → Option ℕ → Bool
is_connection id none = false
is_connection id (some x) = x == id

-- `removeConnection`
unfoldable pub remove_connection : ℕ → ℕ → ConnectResult → TcpClient → Checked TcpClient
remove_connection id sockfd r c = do
  assert (is_connection id c.connection)
  let c1 = record c { connection = none; queued = c.queued ++ id ∷ [] }
  if c1.retry && c1.connect
      then (do connector ← restart sockfd r c1.connector; ok (record c1 { connector = connector }))
      else ok c1

-- An event of a connection, with the close callback if that is called.
unfoldable pub act : Event → ℕ → Connection → ℕ → ConnectResult → TcpClient → Checked TcpClient
act e id conn sockfd r c = do
  conn' ← step e conn
  let c' = set_connection id conn' c
  if ltb (closes conn.calls) (closes conn'.calls) then remove_connection id sockfd r c' else ok c'

-- connectDestroyed of the first that waits.
unfoldable pub destroy : ℕ → List ℕ → Connection → TcpClient → Checked TcpClient
destroy id rest conn c = do
  conn' ← connect_destroyed conn
  ok (record (set_connection id conn' c) { queued = rest })
