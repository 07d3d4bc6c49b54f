-- ===== src/Examples/Client.antt =====
-- The theorems about muduo/net/TcpClient.cc and Acceptor.cc at concrete inputs.
use cs_note.Common.{◌≡◌, refl, none, some, [], ◌∷◌, ◌++◌, Checked, ok, fault, assertion}
use cs_note.Buffer.{received, read_fd}
use cs_note.Tcp.Channel.{new_channel, enable_reading, disable_all, remove}
use cs_note.Tcp.Connection.{
  Connection, connect_established, new_connection, handle_read, handle_close,
}
use cs_note.Tcp.Connection.Lifecycle.{reads, step}
use cs_note.Tcp.Connector.{
  in_progress, established, start, start_in_loop, connect_with, connecting_on, handle_write,
  remove_and_reset_channel, finish,
}
use cs_note.Tcp.Server.Closing.{closes}
use cs_note.Tcp.Client.{
  TcpClient, new_client, connect_client, connector_writes, accept_connected, act,
}
use cs_note.Tcp.Client.Current.{Reaches, made, connects, connector_written, IsCurrent}
use cs_note.Tcp.Client.Reachable.{Reaches-IsCurrent, connect_client_after_removal}
use cs_note.Tcp.Acceptor.{Acceptor, new_acceptor, listen, emfile, refuse, destroy}
use cs_note.Tcp.Acceptor as Accepting
use cs_note.Tcp.Acceptor.Descriptors.{AreAccounted, destroy-AreAccounted}
use cs_note.Tcp.Acceptor.Descriptors
use cs_note.Examples.{filled}

-- A client that connects on the socket 7, and then has a connection.
abbrev client_of : Checked TcpClient → TcpClient
client_of (ok c) = c
client_of (fault e) = new_client

abbrev waiting : TcpClient
waiting = client_of (connect_client 7 in_progress new_client)

abbrev online : TcpClient
online = client_of (connector_writes established (new_channel 7) (filled []) (filled []) waiting)

online-Reaches : Reaches online
unfolding connect_client start start_in_loop connect_with connecting_on connector_writes
    handle_write remove_and_reset_channel finish accept_connected connect_established enable_reading
online-Reaches =
    connector_written {c = waiting} (connects made 7 in_progress refl) established (new_channel 7)
      (filled []) (filled []) refl

Reaches-IsCurrent_example : IsCurrent online
Reaches-IsCurrent_example = Reaches-IsCurrent online online-Reaches

-- Its connection, before and after the end of the stream.
abbrev conn_of : Checked Connection → Connection
conn_of (ok conn) = conn
conn_of (fault e) = new_connection (new_channel 7) (filled []) (filled [])

abbrev conn : Connection
conn = conn_of (connect_established (new_connection (new_channel 7) (filled []) (filled [])))

abbrev ended : Connection
ended = conn_of (step (reads (received [])) conn)

-- The client does not reconnect; its user calls `connect` again.
connect_client_after_removal_example :
    (c : TcpClient) × (act (reads (received [])) 1 conn 8 in_progress online ≡ ok c)
    × (c.connection ≡ none)
    × (c.queued ≡ online.queued ++ 1 ∷ [])
    × (connect_client 9 in_progress c ≡ fault assertion)
unfolding connect_client start start_in_loop connect_with connecting_on connector_writes
    handle_write remove_and_reset_channel finish accept_connected connect_established enable_reading
    step handle_read handle_close disable_all read_fd closes
connect_client_after_removal_example =
    connect_client_after_removal online (reads (received [])) 1 conn ended 8 9 in_progress
      in_progress online-Reaches refl refl refl refl

-- An acceptor that had no descriptor left for a connection, and for which open(2) then failed.
abbrev exhausted : Acceptor
exhausted = Accepting.handle_read emfile (some 4) none (listen (new_acceptor 5 (new_channel 5) 3))

abbrev destroyed_of : Checked Acceptor → Acceptor
destroyed_of (ok a) = a
destroyed_of (fault e) = exhausted

abbrev gone : Acceptor
gone = destroyed_of (destroy exhausted)

destroy-AreAccounted_example : AreAccounted none none gone
unfolding destroy Accepting.handle_read refuse listen remove enable_reading disable_all
destroy-AreAccounted_example =
    destroy-AreAccounted exhausted gone
      (Descriptors.reads (Descriptors.listens (Descriptors.made 5 (new_channel 5) 3)) emfile
        (some 4) none)
      refl
