-- ===== src/Tcp/Server/Members.antt =====
-- The connections of muduo/net/TcpServer.cc over time, and its map.
use cs_note.Common.{
  ℕ, ◌≡◌, ◌≤◌, ◌<◌, ◌^◌, refl, sym, subst, Bool, true, false, ◌&&◌, ◌||◌, none, some, List, ltb,
  ◌==◌, ==_iff, arith, Checked, ok, fault, ◌>>=◌, Bool-cases, inl, inr,
}
use cs_note.Buffer.{Buffer}
use cs_note.Tcp.Channel.{Channel}
use cs_note.Tcp.Connection.{Connection, is_connecting}
use cs_note.Tcp.Connection.Lifecycle.{
  Event, established, destroyed, step, notices, IsTold, ToldResult,
}
use cs_note.Tcp.Server.{
  Member, TcpServer, new_server, start_server, accept_connection, set_member, establish, destroy,
  remove_connection_in_loop,
}
use cs_note.Tcp.Server.Closing.{closes, closes-notices, closes-IsTold, closes_connecting}

abbrev pub is_due : Member → Bool
is_due m = ltb m.removals (closes m.conn.calls)

-- Events of the socket and calls of the user.
abbrev pub is_ordinary : Event → Bool
is_ordinary established = false
is_ordinary destroyed = false
is_ordinary _ = true

unfoldable pub act : Event → ℕ → Member → TcpServer → Checked TcpServer
act e id m s = do conn ← step e m.conn; ok (set_member id (record m { conn = conn }) s)

-- The server over time. Its loop and those of the connections take turns in any order; a connection
-- handles events and calls of its user once connectEstablished has run.
pub data Reaches : TcpServer → Type 0 where
  made : (loop : ℕ) → Reaches (new_server loop)
  starts :
      {s s' : TcpServer}
      → Reaches s
      → (has_callback : Bool) (loops : List ℕ) → start_server has_callback loops s ≡ ok s'
      → Reaches s'
  accepts :
      {s s' : TcpServer}
      → Reaches s
      → (channel : Channel) (input output : Buffer)
      → accept_connection channel input output s ≡ ok s'
      → Reaches s'
  establishes :
      {s s' : TcpServer}
      → Reaches s
      → (id : ℕ) (m : Member) → s.members id ≡ some m
      → m.established ≡ false
      → establish id m s ≡ ok s'
      → Reaches s'
  acts :
      {s s' : TcpServer}
      → Reaches s
      → (e : Event) (id : ℕ) (m : Member) → s.members id ≡ some m
      → (m.established && is_ordinary e) ≡ true
      → act e id m s ≡ ok s'
      → Reaches s'
  removes :
      {s s' : TcpServer}
      → Reaches s
      → (id : ℕ) (m : Member) → s.members id ≡ some m
      → is_due m ≡ true
      → remove_connection_in_loop id m s ≡ ok s'
      → Reaches s'
  destroys :
      {s s' : TcpServer}
      → Reaches s
      → (id : ℕ) (m : Member) → s.members id ≡ some m
      → m.destructions < m.removals
      → destroy id m s ≡ ok s'
      → Reaches s'

-- One connection, and whether the map has it.
pub record IsKept (m : Member) (in_map : Bool) : Type 0 where
  pub told : IsTold m.conn
  pub starting : m.established ≡ false → is_connecting m.conn.state ≡ true
  pub mapped : in_map ≡ (m.removals == 0)
  pub removed : (m.removals == 0 || m.established) ≡ true

pub record AreKept (s : TcpServer) : Type 0 where
  pub bounded : s.next_conn_id < 2 ^ 31
  pub fresh : (id : ℕ) → s.next_conn_id ≤ id → s.members id ≡ none
  pub unnamed : (id : ℕ) → s.members id ≡ none → s.connections id ≡ false
  pub kept : (id : ℕ) (m : Member) → s.members id ≡ some m → IsKept m (s.connections id)

abbrev pub AreKeptResult : Checked TcpServer → Type 0
AreKeptResult (ok s) = AreKept s
AreKeptResult (fault _) = Unit {0}

-- One connection changes, in the store and maybe in the map.
pub set_member-AreKept :
    (id : ℕ) (m m' : Member) (connections : ℕ → Bool) (s : TcpServer)
    → s.members id ≡ some m
    → ((j : ℕ) → (j == id) ≡ false → connections j ≡ s.connections j)
    → IsKept m' (connections id)
    → AreKept s
    → AreKept (set_member id m' (record s { connections = connections }))
set_member-AreKept id m m' connections s known same k i = record {
  bounded = i.bounded;
  fresh = λ j h. ground (arith, i.fresh j h, known);
  unnamed = λ j h. ground (arith, same j, i.unnamed j, h);
  kept = λ j n h. elim (Bool-cases (j == id)) [
    | inl e ↦
        let same_member : m' ≡ n = ground (arith, h, e) in
        subst (λ x. IsKept x (connections j)) same_member
          (subst (λ x. IsKept m' (connections x)) (sym ((==_iff j id).0 e)) k)
    | inr e ↦ subst (IsKept n) (sym (same j e)) (i.kept j n (ground (arith, h, e)))
  ];
}

-- When it is due, it is the first, and the map has the connection.
pub due_mapped :
    {m : Member} {in_map : Bool}
    → is_due m ≡ true
    → IsKept m in_map
    → (in_map ≡ true) × (m.removals ≡ 0)
due_mapped {m} h k = (
  ground (arith, h, k.mapped, closes-IsTold m.conn k.told),
  ground (arith, h, closes-IsTold m.conn k.told),
)

pub due_established :
    {m : Member} {in_map : Bool} → is_due m ≡ true → IsKept m in_map → m.established ≡ true
due_established {m} h k = elim (Bool-cases m.established) [
  | inl e ↦ e
  | inr e ↦ absurd (
      ground (
        arith,
        h,
        closes-notices m.conn.calls,
        closes_connecting m.conn.state (notices m.conn.calls) (k.starting e) k.told,
      ))
]

-- A connection that is established has changed.
pub changed-AreKept :
    (id : ℕ) (m : Member) (s : TcpServer) (e : Bool) (destructions : ℕ) (r : Checked Connection)
    → s.members id ≡ some m
    → e ≡ true
    → ToldResult r
    → AreKept s
    → AreKeptResult (
        r >>= λ c.
        ok (set_member id (record m { conn = c; established = e; destructions = destructions }) s))
changed-AreKept id m s e destructions (fault _) known up told i = tt
changed-AreKept id m s e destructions (ok c) known up told i =
    let k = i.kept id m known in
    set_member-AreKept id m (record m { conn = c; established = e; destructions = destructions })
      s.connections s known (λ j h. refl)
      (record {
        told = told;
        starting = λ down. absurd (ground (arith, up, down));
        mapped = k.mapped;
        removed = ground (arith, up);
      })
      i
