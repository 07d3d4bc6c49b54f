-- ===== src/Tcp/Server/Removal.antt =====
-- What may happen to a server of muduo/net/TcpServer.cc, and the removal of its connections.
use cs_note.Common.{
  ℕ, suc, ◌^◌, ltb, ltb→lt, Option, none, ◌≡◌, ◌<◌, refl, sym, ◌∙◌, subst, Bool, true, false, not,
  some, List, if◌then◌else◌, ◌==◌, arith, Checked, ok, fault, assert, ◌>>=◌, ◌>>◌, Bool-cases, inl,
  inr,
}
use mathlib.Core.Option
use cs_note.Buffer.{Buffer}
use cs_note.LoopPool.{EventLoopThreadPool, start, get_next_loop}
use cs_note.Tcp.Channel.{Channel}
use cs_note.Tcp.Connection.{new_connection, connect_established, connect_destroyed}
use cs_note.Tcp.Connection.Lifecycle.{Event, established, destroyed, step, notices, step-Told}
use cs_note.Tcp.Server.{
  Member, TcpServer, put_at, increment, start_server, accept_connection, set_member, establish,
  destroy, remove_connection_in_loop, queue_destroyed, destroy_server,
}
use cs_note.Tcp.Server.Members.{
  is_due, act, Reaches, made, starts, accepts, establishes, acts, removes, destroys, IsKept,
  AreKept, AreKeptResult, set_member-AreKept, due_mapped, due_established, changed-AreKept,
}

-- The rest of a server does not matter.
AreKept-pool :
    {s : TcpServer} (pool : EventLoopThreadPool) (started listening : Bool)
    → AreKept s
    → AreKept (record s { thread_pool = pool; started = started; listening = listening })
AreKept-pool pool started listening i = record {
  bounded = i.bounded;
  fresh = i.fresh;
  unnamed = i.unnamed;
  kept = i.kept;
}

AreKept-if :
    (b : Bool) (r r' : Checked TcpServer)
    → AreKeptResult r
    → AreKeptResult r'
    → AreKeptResult (if b then r else r')
AreKept-if true r r' h h' = h
AreKept-if false r r' h h' = h'

pool_started :
    (r : Checked (EventLoopThreadPool × List ℕ)) (b : Bool) (s : TcpServer)
    → AreKept s
    → AreKeptResult (
        r >>= λ x.
        assert b >> ok (record s { thread_pool = x.0; started = true; listening = true }))
pool_started (fault _) b s i = tt
pool_started (ok (pool, loops)) true s i = AreKept-pool pool true true i
pool_started (ok (pool, loops)) false s i = tt

start-AreKept :
    (has_callback : Bool) (loops : List ℕ) (s : TcpServer)
    → AreKept s
    → AreKeptResult (start_server has_callback loops s)
unfolding start_server
start-AreKept has_callback loops s i =
    AreKept-if s.started (ok s) _ i
      (pool_started (start has_callback loops s.thread_pool) (not s.listening) s i)

abbrev accepted : ℕ → Channel → Buffer → Buffer → Member
accepted io_loop channel input output = record {
  io_loop = io_loop;
  conn = new_connection channel input output;
  established = false;
  removals = 0;
  destructions = 0;
}

accepted-AreKept :
    (io_loop : ℕ) (pool : EventLoopThreadPool) (channel : Channel) (input output : Buffer)
    (s : TcpServer)
    → suc s.next_conn_id < 2 ^ 31
    → AreKept s
    → AreKept (record s {
      thread_pool = pool;
      next_conn_id = suc s.next_conn_id;
      connections = put_at s.next_conn_id true s.connections;
      members = put_at s.next_conn_id (some (accepted io_loop channel input output)) s.members;
    })
unfolding notices
accepted-AreKept io_loop pool channel input output s low i =
    let m = accepted io_loop channel input output in
    record {
      bounded = low;
      fresh = λ j h. ground (arith, i.fresh j (ground (arith, h)), h);
      unnamed = λ j h. ground (arith, i.unnamed j, h);
      kept = λ j n h. elim (Bool-cases (j == s.next_conn_id)) [
        | inl e ↦
            let same_member : m ≡ n = ground (arith, h, e) in
            subst (λ x. IsKept x (put_at s.next_conn_id true s.connections j)) same_member
              (record {
                told = refl;
                starting = λ _. refl;
                mapped = ground (arith, e);
                removed = refl;
              })
        | inr e ↦ subst (IsKept n) (ground (arith, e)) (i.kept j n (ground (arith, h, e)))
      ];
    }

pool_chosen :
    (r : Checked (ℕ × EventLoopThreadPool)) (channel : Channel) (input output : Buffer)
    (s : TcpServer)
    → AreKept s
    → AreKeptResult (
        r >>= λ x. increment s.next_conn_id >>= λ next. ok (record s {
          thread_pool = x.1;
          next_conn_id = next;
          connections = put_at s.next_conn_id true s.connections;
          members = put_at s.next_conn_id (some (accepted x.0 channel input output)) s.members;
        }))
pool_chosen (fault _) channel input output s i = tt
pool_chosen (ok (io_loop, pool)) channel input output s i =
    elim (Bool-cases (ltb (suc s.next_conn_id) (2 ^ 31))) [
      | inl e ↦ rw e (accepted-AreKept io_loop pool channel input output s (ltb→lt _ _ e) i)
      | inr e ↦ rw e tt
    ]

accept-AreKept :
    (channel : Channel) (input output : Buffer) (s : TcpServer)
    → AreKept s
    → AreKeptResult (accept_connection channel input output s)
unfolding accept_connection
accept-AreKept channel input output s i =
    pool_chosen (get_next_loop s.thread_pool) channel input output s i

establish-AreKept :
    (id : ℕ) (m : Member) (s : TcpServer)
    → s.members id ≡ some m
    → AreKept s
    → AreKeptResult (establish id m s)
unfolding establish step
establish-AreKept id m s known i =
    changed-AreKept id m s true m.destructions (connect_established m.conn) known refl
      (step-Told established m.conn (i.kept id m known).told) i

act-AreKept :
    (e : Event) (id : ℕ) (m : Member) (s : TcpServer)
    → s.members id ≡ some m
    → m.established ≡ true
    → AreKept s
    → AreKeptResult (act e id m s)
unfolding act
act-AreKept e id m s known up i =
    changed-AreKept id m s m.established m.destructions (step e m.conn) known up
      (step-Told e m.conn (i.kept id m known).told) i

destroy-AreKept :
    (id : ℕ) (m : Member) (s : TcpServer)
    → s.members id ≡ some m
    → m.destructions < m.removals
    → AreKept s
    → AreKeptResult (destroy id m s)
unfolding destroy step
destroy-AreKept id m s known due i =
    let k = i.kept id m known in
    changed-AreKept id m s m.established (suc m.destructions) (connect_destroyed m.conn) known
      (ground (arith, k.removed, due)) (step-Told destroyed m.conn k.told) i

abbrev pub removed_one : ℕ → Member → TcpServer → TcpServer
removed_one id m s =
    set_member id (record m { removals = suc m.removals })
      (record s { connections = put_at id false s.connections })

remove_returns :
    (id : ℕ) (m : Member) (s : TcpServer)
    → s.members id ≡ some m
    → is_due m ≡ true
    → AreKept s
    → remove_connection_in_loop id m s ≡ ok (removed_one id m s)
unfolding remove_connection_in_loop
remove_returns id m s known due i = rw (due_mapped due (i.kept id m known)).0 refl

removed-AreKept :
    (id : ℕ) (m : Member) (s : TcpServer)
    → s.members id ≡ some m
    → is_due m ≡ true
    → AreKept s
    → AreKept (removed_one id m s)
removed-AreKept id m s known due i =
    let k = i.kept id m known in
    set_member-AreKept id m (record m { removals = suc m.removals }) (put_at id false s.connections)
      s known (λ j h. ground (arith, h))
      (record {
        told = k.told;
        starting = k.starting;
        mapped = ground arith;
        removed = ground (arith, due_established due k);
      })
      i

-- In every server reached without an overflow of `nextConnId_`, the next number fits an `int`; a number
-- that has not been given out yet has no connection and is not in the map; the map has the
-- connections that have not been removed; a connection is removed only after connectEstablished has run;
-- and each has told its user what its state says.
pub Reaches-AreKept : (s : TcpServer) → Reaches s → AreKept s
Reaches-AreKept _ (made loop) = record {
  bounded = omega arith;
  fresh = λ id h. refl;
  unnamed = λ id h. refl;
  kept = λ id m h. absurd (ground (arith, h));
}
Reaches-AreKept _ (starts {s} r b loops e) =
    subst AreKeptResult e (start-AreKept b loops s (Reaches-AreKept s r))
Reaches-AreKept _ (accepts {s} r ch input output e) =
    subst AreKeptResult e (accept-AreKept ch input output s (Reaches-AreKept s r))
Reaches-AreKept _ (establishes {s} r id m known down e) =
    subst AreKeptResult e (establish-AreKept id m s known (Reaches-AreKept s r))
Reaches-AreKept _ (acts {s} r ev id m known up e) =
    subst AreKeptResult e (act-AreKept ev id m s known (ground (arith, up)) (Reaches-AreKept s r))
Reaches-AreKept _ (removes {s} r id m known due e) =
    let i = Reaches-AreKept s r in
    subst AreKeptResult (sym (remove_returns id m s known due i) ∙ e)
      (removed-AreKept id m s known due i)
Reaches-AreKept _ (destroys {s} r id m known due e) =
    subst AreKeptResult e (destroy-AreKept id m s known due (Reaches-AreKept s r))

-- In a server reached without an overflow of `nextConnId_`, when a connection has asked to be removed
-- and that has not been done, the map has it, it has never been removed, and removeConnectionInLoop takes it out; no assertion fails.
pub remove_connection_in_loop-returns :
    (s : TcpServer) (id : ℕ) (m : Member)
    → Reaches s
    → s.members id ≡ some m
    → is_due m ≡ true
    → (remove_connection_in_loop id m s ≡ ok (removed_one id m s))
      × (s.connections id ≡ true)
      × (m.removals ≡ 0)
remove_connection_in_loop-returns s id m r known due =
    let i = Reaches-AreKept s r in
    let (mapped, first) = due_mapped due (i.kept id m known) in
    (remove_returns id m s known due i, mapped, first)

-- The destructor of a reachable server leaves no connection of which connectDestroyed is not queued.
pub destroy_server-queued :
    (s : TcpServer) (id : ℕ) (m : Member)
    → Reaches s
    → (destroy_server s).members id ≡ some m
    → 0 < m.removals
unfolding destroy_server
destroy_server-queued s id m r h = elim (Bool-cases (s.connections id)) [
  | inl e ↦ queued (s.members id) (ground (arith, h, e))
  | inr e ↦
      let k = (Reaches-AreKept s r).kept id m (ground (arith, h, e)) in ground (arith, k.mapped, e)
]
  where
    queued : (o : Option Member) → Option.map queue_destroyed o ≡ some m → 0 < m.removals
    queued none g = absurd (ground (arith, g))
    queued (some n) g =
        let same : queue_destroyed n ≡ m = ground (arith, g) in
        subst (λ x. 0 < x.removals) same (omega arith)
