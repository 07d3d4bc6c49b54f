-- ===== src/Tcp/Acceptor.antt =====
-- muduo/net/Acceptor.h and Acceptor.cc. What accept(2) and open(2) return are arguments; a descriptor of
-- -1 is `none`. The descriptors that were opened, closed and handed to the callback are recorded.
pub mod Descriptors
use cs_note.Common.{
  ℕ, Bool, true, false, Option, none, some, List, [], ◌∷◌, ◌++◌, if◌then◌else◌, Checked, ok, ◌>>=◌,
}
use cs_note.Tcp.Channel.{Channel, enable_reading, disable_all, remove}

pub record Acceptor : Type 0 where
  pub accept_socket : ℕ
  pub listening : Bool
  pub channel : Channel
  pub has_callback : Bool
  pub idle_fd : Option ℕ
  pub opened : List ℕ
  pub closed : List ℕ
  pub handed_on : List ℕ

-- A new acceptor: the constructor opens the socket that `channel` is on, and then `idle_fd`, which it
-- asserts to be open.
abbrev pub new_acceptor : ℕ → Channel → ℕ → Acceptor
new_acceptor accept_socket channel idle_fd = record {
  accept_socket = accept_socket;
  listening = false;
  channel = record channel { has_read = true };
  has_callback = false;
  idle_fd = some idle_fd;
  opened = accept_socket ∷ idle_fd ∷ [];
  closed = [];
  handed_on = [];
}

abbrev pub set_new_connection_callback : Acceptor → Acceptor
set_new_connection_callback a = record a { has_callback = true }

unfoldable pub listen : Acceptor → Acceptor
listen a = record a { listening = true; channel = enable_reading a.channel }

-- `close` of -1 fails.
abbrev pub close : Option ℕ → Acceptor → Acceptor
close none a = a
close (some fd) a = record a { closed = a.closed ++ fd ∷ [] }

-- `idleFd_ = …`, with what a system call has opened.
abbrev pub opened_idle : Option ℕ → Acceptor → Acceptor
opened_idle none a = record a { idle_fd = none }
opened_idle (some fd) a = record a { idle_fd = some fd; opened = a.opened ++ fd ∷ [] }

pub data AcceptResult : Type 0 where
  accepted : ℕ → AcceptResult
  emfile other_error : AcceptResult

-- The spare descriptor makes room to accept the connection and to close it at once.
unfoldable pub refuse : Option ℕ → Option ℕ → Acceptor → Acceptor
refuse refused reopened a =
    let a1 = opened_idle refused (close a.idle_fd a) in opened_idle reopened (close a1.idle_fd a1)

-- `handleRead`; the last two arguments are the results of the second accept and of open.
unfoldable pub handle_read : AcceptResult → Option ℕ → Option ℕ → Acceptor → Acceptor
handle_read (accepted connfd) refused reopened a =
    let a1 = record a { opened = a.opened ++ connfd ∷ [] } in
    if a1.has_callback
    then record a1 { handed_on = a1.handed_on ++ connfd ∷ [] }
    else close (some connfd) a1
handle_read emfile refused reopened a = refuse refused reopened a
handle_read other_error refused reopened a = a

-- The destructor closes the spare descriptor, and that of the member `acceptSocket_` the socket.
unfoldable pub destroy : Acceptor → Checked Acceptor
destroy a = do
  channel ← remove (disable_all a.channel)
  let a1 = close a.idle_fd (record a { channel = channel; idle_fd = none })
  ok (close (some a.accept_socket) a1)
