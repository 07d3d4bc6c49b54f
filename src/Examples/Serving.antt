-- ===== src/Examples/Serving.antt =====
-- The theorems about muduo/net/TcpServer.cc at a concrete input.
use cs_note.Common.{◌≡◌, refl, true, false, none, some, [], if◌then◌else◌, ◌==◌, ok}
use cs_note.LoopPool.{start, get_next_loop}
use cs_note.Tcp.Channel.{new_channel, enable_reading, disable_all}
use cs_note.Tcp.Connection.{
  new_connection, connected, disconnected, close_callback, call, connection_callback,
  connect_established, force_close, force_close_in_loop, handle_close,
}
use cs_note.Tcp.Connection.Lifecycle.{step, force_closes, force_closes_in_loop}
use cs_note.Tcp.Server.{
  set_member, Member, TcpServer, new_server, start_server, accept_connection, establish,
  remove_connection_in_loop,
}
use cs_note.Tcp.Server.Closing.{closes}
use cs_note.Tcp.Server.Members.{
  is_due, act, Reaches, made, starts, accepts, establishes, acts, AreKept,
}
use cs_note.Tcp.Server.Removal.{removed_one, Reaches-AreKept, remove_connection_in_loop-returns}
use cs_note.Examples.{filled}

abbrev fresh : Member
fresh = record {
  io_loop = 7;
  conn = new_connection (new_channel 5) (filled []) (filled []);
  established = false;
  removals = 0;
  destructions = 0;
}

abbrev up : Member
up = record fresh {
  conn = call (connection_callback true) (record fresh.conn {
    state = connected;
    channel = enable_reading (record fresh.conn.channel { tied = true });
  });
  established = true;
}

abbrev closing : Member
closing = record up { conn = force_close up.conn }

-- A server with a connection.
abbrev serving : Member → TcpServer
serving m = record (new_server 7) {
  thread_pool = record { base_loop = 7; started = true; next = 0; loops = [] };
  started = true;
  listening = true;
  next_conn_id = 2;
  connections = λ id. if id == 1 then true else false;
  members = λ id. if id == 1 then some m else none;
}

accepted-Reaches : Reaches (serving fresh)
unfolding start_server start accept_connection get_next_loop
accepted-Reaches =
    accepts (starts (made 7) false [] refl) (new_channel 5) (filled []) (filled []) refl

abbrev one_up : TcpServer
one_up = set_member 1 up (serving fresh)

up-Reaches : Reaches one_up
unfolding establish connect_established
up-Reaches = establishes accepted-Reaches 1 fresh refl refl refl

abbrev one_closing : TcpServer
one_closing = set_member 1 closing one_up

closing-Reaches : Reaches one_closing
unfolding act step
closing-Reaches = acts up-Reaches force_closes 1 up refl refl refl

-- After forceCloseInLoop.
abbrev closed : Member
closed = record closing {
  conn = call close_callback (
      call (connection_callback false)
        (record closing.conn { state = disconnected; channel = disable_all closing.conn.channel }));
}

abbrev one_closed : TcpServer
one_closed = set_member 1 closed one_closing

closed-Reaches : Reaches one_closed
unfolding act step force_close_in_loop handle_close force_close
closed-Reaches = acts closing-Reaches force_closes_in_loop 1 closing refl refl refl

closed-due : is_due closed ≡ true
unfolding closes force_close
closed-due = refl

Reaches-AreKept_example : AreKept one_closed
Reaches-AreKept_example = Reaches-AreKept one_closed closed-Reaches

remove_connection_in_loop-returns_example :
    (remove_connection_in_loop 1 closed one_closed ≡ ok (removed_one 1 closed one_closed))
    × (one_closed.connections 1 ≡ true)
    × (closed.removals ≡ 0)
remove_connection_in_loop-returns_example =
    remove_connection_in_loop-returns one_closed 1 closed closed-Reaches refl closed-due
