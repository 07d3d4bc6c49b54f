-- ===== src/Tcp/Server/Closing.antt =====
-- When a connection of muduo/net/TcpConnection.cc asks its server to be removed.
use cs_note.Common.{ℕ, suc, ◌≡◌, ◌≤◌, refl, ap, true, List, [], ◌∷◌, arith, inl, inr}
use cs_note.Tcp.Connection.{
  Connection, Callback, connection_callback, message_callback, close_callback, State, disconnected,
  connecting, connected, disconnecting, is_connecting,
}
use cs_note.Tcp.Connection.Lifecycle.{notices, Told, IsTold}

-- How often a connection has asked the server to remove it.
unfoldable pub closes : List Callback → ℕ
closes [] = 0
closes (close_callback ∷ cs) = suc (closes cs)
closes (message_callback ∷ cs) = closes cs
closes (connection_callback up ∷ cs) = closes cs

pub closes-notices : (cs : List Callback) → closes (notices cs) ≡ closes cs
unfolding closes notices
closes-notices [] = refl
closes-notices (message_callback ∷ cs) = closes-notices cs
closes-notices (connection_callback up ∷ cs) = closes-notices cs
closes-notices (close_callback ∷ cs) = ap (λ n. suc n) (closes-notices cs)

pub closes-Told : (st : State) (ns : List Callback) → Told st ns → closes ns ≤ 1
unfolding closes
closes-Told connecting ns t = rw t (ground arith)
closes-Told connected ns t = rw t (ground arith)
closes-Told disconnecting ns t = rw t (ground arith)
closes-Told disconnected ns (inl t) = rw t (ground arith)
closes-Told disconnected ns (inr t) = rw t (ground arith)

-- A connection asks for its removal once at most.
pub closes-IsTold : (c : Connection) → IsTold c → closes c.calls ≤ 1
closes-IsTold c t = ground (arith, closes-notices c.calls, closes-Told c.state (notices c.calls) t)

pub closes_connecting :
    (st : State) (ns : List Callback) → is_connecting st ≡ true → Told st ns → closes ns ≡ 0
unfolding closes
closes_connecting connecting ns h t = rw t refl
closes_connecting connected ns h t = absurd (ground (arith, h))
closes_connecting disconnecting ns h t = absurd (ground (arith, h))
closes_connecting disconnected ns h t = absurd (ground (arith, h))
