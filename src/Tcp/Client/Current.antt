-- ===== src/Tcp/Client/Current.antt =====
-- The connection of a client of muduo/net/TcpClient.cc: its life, and what is to hold of it.
use cs_note.Common.{
  ℕ, ◌≡◌, refl, sym, ap, ◌∙◌, subst, Bool, true, false, ◌||◌, not, Option, none, some, List, ◌∷◌,
  ltb, ◌==◌, ==_iff, Checked, ok, fault, arith, Bool-cases, inl, inr,
}
use cs_note.Buffer.{Buffer}
use cs_note.Tcp.Channel.{Channel}
use cs_note.Tcp.Connection.{Connection}
use cs_note.Tcp.Connection.Lifecycle.{Event, step, IsTold, ToldResult, step-Told}
use cs_note.Tcp.Connector.{Connector, ConnectResult, Outcome}
use cs_note.Tcp.Server.{put_at}
use cs_note.Tcp.Server.Closing.{closes, closes-IsTold}
use cs_note.Tcp.Server.Members.{is_ordinary}
use cs_note.Tcp.Client.{
  TcpClient, new_client, enable_retry, connect_client, set_connection, disconnect, stop_client,
  connector_writes, is_connection, act, destroy,
}
use cs_note.Tcp.Client.Connecting.{is_up, Background, background}

-- The client over time: calls of its user, and what its loop does with the connector and the
-- connections. Timers and functors of the connector may run at any time.
pub data Reaches : TcpClient → Type 0 where
  made : Reaches new_client
  enables : {c : TcpClient} → Reaches c → Reaches (enable_retry c)
  connects :
      {c c' : TcpClient}
      → Reaches c
      → (sockfd : ℕ) (r : ConnectResult) → connect_client sockfd r c ≡ ok c'
      → Reaches c'
  disconnects : {c : TcpClient} → Reaches c → Reaches (disconnect c)
  stops : {c : TcpClient} → Reaches c → Reaches (stop_client c)
  connector_steps :
      {c : TcpClient} {connector : Connector}
      → Reaches c
      → (b : Background) → background b c.connector ≡ ok connector
      → Reaches (record c { connector = connector })
  connector_written :
      {c c' : TcpClient}
      → Reaches c
      → (o : Outcome) (channel : Channel) (input output : Buffer)
      → connector_writes o channel input output c ≡ ok c'
      → Reaches c'
  acts :
      {c c' : TcpClient}
      → Reaches c
      → (e : Event) (id : ℕ) (conn : Connection) (sockfd : ℕ) (r : ConnectResult)
      → c.connections id ≡ some conn
      → is_ordinary e ≡ true
      → act e id conn sockfd r c ≡ ok c'
      → Reaches c'
  destroys :
      {c c' : TcpClient}
      → Reaches c
      → (id : ℕ) (rest : List ℕ) (conn : Connection) → c.queued ≡ id ∷ rest
      → c.connections id ≡ some conn
      → destroy id rest conn c ≡ ok c'
      → Reaches c'

-- Of the connections, the client has the one that has not asked for its removal.
abbrev pub IsHeld : Option ℕ → ℕ → Option Connection → Type 0
IsHeld current id none = is_connection id current ≡ false
IsHeld current id (some conn) = IsTold conn × (is_connection id current ≡ (closes conn.calls == 0))

abbrev pub has : Option ℕ → Bool
has none = false
has (some id) = true

pub record IsCurrent (c : TcpClient) : Type 0 where
  pub held : (id : ℕ) → IsHeld c.connection id (c.connections id)
  pub up : (not (has c.connection) || is_up c.connector.state) ≡ true

abbrev pub CurrentResult : Checked TcpClient → Type 0
CurrentResult (ok c) = IsCurrent c
CurrentResult (fault e) = Unit {0}

pub put-IsHeld :
    (current : Option ℕ) (id : ℕ) (conn : Connection) (connections : ℕ → Option Connection)
    → IsHeld current id (some conn)
    → ((x : ℕ) → (x == id) ≡ false → IsHeld current x (connections x))
    → (x : ℕ) → IsHeld current x (put_at id (some conn) connections x)
put-IsHeld current id conn connections h others x = elim (Bool-cases (x == id)) [
  | inl e ↦ rw e (rw ((==_iff x id).0 e) h)
  | inr e ↦ rw e (others x e)
]

-- A connection changes, and asks for its removal no more than before.
pub replaced-IsCurrent :
    (id : ℕ) (conn conn' : Connection) (c : TcpClient)
    → c.connections id ≡ some conn
    → IsTold conn'
    → closes conn'.calls ≡ closes conn.calls
    → IsCurrent c
    → IsCurrent (set_connection id conn' c)
replaced-IsCurrent id conn conn' c at told same i =
    let before : IsHeld c.connection id (some conn) =
      subst (IsHeld c.connection id) at (i.held id) in
    record {
      held =
          put-IsHeld c.connection id conn' c.connections
            (told, before.1 ∙ ap (λ n. n == 0) (sym same)) (λ x ne. i.held x);
      up = i.up;
    }

pub told_of :
    (c : TcpClient) (id : ℕ) (conn : Connection)
    → c.connections id ≡ some conn
    → IsCurrent c
    → IsTold conn
told_of c id conn at i = (subst (IsHeld c.connection id) at (i.held id)).0

pub step_told :
    (e : Event) (conn conn' : Connection) → step e conn ≡ ok conn' → IsTold conn → IsTold conn'
step_told e conn conn' same t = subst ToldResult same (step-Told e conn t)

-- A connection that asks for its removal is the one that the client has.
pub asks-is_connection :
    (id : ℕ) (conn conn' : Connection) (c : TcpClient)
    → c.connections id ≡ some conn
    → IsTold conn'
    → ltb (closes conn.calls) (closes conn'.calls) ≡ true
    → IsCurrent c
    → is_connection id c.connection ≡ true
asks-is_connection id conn conn' c at told grows i =
    let before : IsHeld c.connection id (some conn) =
      subst (IsHeld c.connection id) at (i.held id) in
    ground (arith, before.1, closes-IsTold conn' told)

pub is_connection-other :
    (id x : ℕ) (current : Option ℕ)
    → is_connection id current ≡ true
    → (x == id) ≡ false
    → is_connection x current ≡ false
is_connection-other id x none h ne = refl
is_connection-other id x (some y) h ne = ground arith

pub dropped-IsHeld :
    (current : Option ℕ) (x : ℕ) (o : Option Connection)
    → is_connection x current ≡ false
    → IsHeld current x o
    → IsHeld none x o
dropped-IsHeld current x none e h = refl
dropped-IsHeld current x (some conn) e (told, h) = (told, sym e ∙ h)

pub taken-IsHeld :
    (id x : ℕ) (o : Option Connection) → (x == id) ≡ false → IsHeld none x o → IsHeld (some id) x o
taken-IsHeld id x none e h = ground arith
taken-IsHeld id x (some conn) e (told, h) = (told, ground (arith, h))
