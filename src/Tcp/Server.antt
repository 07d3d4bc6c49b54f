-- ===== src/Tcp/Server.antt =====
-- muduo/net/TcpServer.cc: the connections of a server. The name of a connection is the server's name and
-- address with its number, so that the map is keyed by the number, an `int` whose overflow is a fault.
-- Connections are objects in a store, with what the loops still have to run for each.
pub mod Closing
pub mod Members
pub mod Removal
use cs_note.Common.{
  ℕ, suc, ltb, ◌^◌, overflow, Bool, true, false, not, Option, none, some, List, if◌then◌else◌, ◌==◌,
  Checked, ok, fault, dangling, assert, ◌>>=◌, ◌>>◌,
}
use mathlib.Core.Option
use cs_note.Buffer.{Buffer}
use cs_note.LoopPool.{EventLoopThreadPool, new_pool, start, get_next_loop}
use cs_note.Tcp.Channel.{Channel}
use cs_note.Tcp.Connection.{Connection, new_connection, connect_established, connect_destroyed}

-- `established` says that connectEstablished has run, `removals` how often removeConnectionInLoop has,
-- which queues connectDestroyed, and `destructions` how often that has run.
pub record Member : Type 0 where
  pub io_loop : ℕ
  pub conn : Connection
  pub established : Bool
  pub removals : ℕ
  pub destructions : ℕ

pub record TcpServer : Type 0 where
  pub thread_pool : EventLoopThreadPool
  pub started : Bool
  pub listening : Bool
  pub next_conn_id : ℕ
  pub connections : ℕ → Bool
  pub members : ℕ → Option Member

abbrev pub new_server : ℕ → TcpServer
new_server loop = record {
  thread_pool = new_pool loop;
  started = false;
  listening = false;
  next_conn_id = 1;
  connections = λ id. false;
  members = λ id. none;
}

abbrev pub put_at {ℓ} : {A : Type ℓ} → ℕ → A → (ℕ → A) → ℕ → A
put_at k v f x = if x == k then v else f x

-- `start`, for the loops of the threads; the second time it does nothing.
unfoldable pub start_server : Bool → List ℕ → TcpServer → Checked TcpServer
start_server has_callback new_loops s = if s.started then ok s else (do
  (pool, _) ← start has_callback new_loops s.thread_pool
  assert (not s.listening)
  ok (record s { thread_pool = pool; started = true; listening = true }))

-- `++nextConnId_` of an `int`.
abbrev pub increment : ℕ → Checked ℕ
increment n = if ltb (suc n) (2 ^ 31) then ok (suc n) else fault overflow

-- `newConnection`, up to connectEstablished, which the loop of the connection runs.
unfoldable pub accept_connection : Channel → Buffer → Buffer → TcpServer → Checked TcpServer
accept_connection channel input output s = do
  (io_loop, pool) ← get_next_loop s.thread_pool
  next ← increment s.next_conn_id
  let member : Member = record {
    io_loop = io_loop;
    conn = new_connection channel input output;
    established = false;
    removals = 0;
    destructions = 0;
  }
  ok (record s {
    thread_pool = pool;
    next_conn_id = next;
    connections = put_at s.next_conn_id true s.connections;
    members = put_at s.next_conn_id (some member) s.members;
  })

abbrev pub set_member : ℕ → Member → TcpServer → TcpServer
set_member id m s = record s { members = put_at id (some m) s.members }

-- What the loop of a connection runs for it.
unfoldable pub establish : ℕ → Member → TcpServer → Checked TcpServer
establish id m s = do
  conn ← connect_established m.conn
  ok (set_member id (record m { conn = conn; established = true }) s)

unfoldable pub destroy : ℕ → Member → TcpServer → Checked TcpServer
destroy id m s = do
  conn ← connect_destroyed m.conn
  ok (set_member id (record m { conn = conn; destructions = suc m.destructions }) s)

-- `removeConnectionInLoop`: `erase` has found one, and connectDestroyed is queued.
unfoldable pub remove_connection_in_loop : ℕ → Member → TcpServer → Checked TcpServer
remove_connection_in_loop id m s = do
  assert (s.connections id)
  ok (
      set_member id (record m { removals = suc m.removals })
        (record s { connections = put_at id false s.connections }))

-- connectDestroyed is queued for a connection.
abbrev pub queue_destroyed : Member → Member
queue_destroyed m = record m { removals = suc m.removals }

-- The destructor queues it for all that are in the map.
unfoldable pub destroy_server : TcpServer → TcpServer
destroy_server s = record s {
  connections = λ id. false;
  members =
      λ id. if s.connections id then Option.map queue_destroyed (s.members id) else s.members id;
}
