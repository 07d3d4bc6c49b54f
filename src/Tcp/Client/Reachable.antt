-- ===== src/Tcp/Client/Reachable.antt =====
-- The connection of a client of muduo/net/TcpClient.cc over time.
use cs_note.Common.{
  ℕ, ◌≡◌, refl, sym, ◌∙◌, subst, true, false, ◌&&◌, ◌||◌, not, Option, none, some, List, [], ◌∷◌,
  ◌++◌, if◌then◌else◌, ltb, ◌==◌, Checked, ok, fault, assertion, ◌>>=◌, arith, Bool-cases, inl, inr,
}
use cs_note.Buffer.{Buffer}
use cs_note.Tcp.Channel.{Channel}
use cs_note.Tcp.Connection.{Connection, connect_established, connect_destroyed, shutdown}
use cs_note.Tcp.Connection.Lifecycle.{
  Event, shuts, destroyed, step, IsTold, ToldResult, step-Told, notices,
}
use cs_note.Tcp.Connector.{Connector, ConnectResult, Outcome, start, restart, handle_write, stop}
use cs_note.Tcp.Server.{put_at}
use cs_note.Tcp.Server.Closing.{closes}
use cs_note.Tcp.Client.{
  TcpClient, connect_client, set_connection, shutdown_at, shutdown_current, disconnect,
  accept_connected, hands_on, connector_writes, is_connection, remove_connection, act, destroy,
}
use cs_note.Tcp.Client.Steps.{GrowsResult, step-Grows, connect_destroyed-closes, shutdown-closes}
use cs_note.Tcp.Client.Connecting.{
  is_up, UpResult, start-Up, background-Up, HandsResult, handle_write-Hands, start_up,
}
use cs_note.Tcp.Client.Current.{
  Reaches, made, enables, connects, disconnects, stops, connector_steps, connector_written, acts,
  destroys, IsHeld, has, IsCurrent, CurrentResult, put-IsHeld, replaced-IsCurrent, told_of,
  step_told, asks-is_connection, is_connection-other, dropped-IsHeld, taken-IsHeld,
}

-- Without a connection, whatever the connector does.
reconnected-Current :
    (s : Checked Connector) (c : TcpClient)
    → c.connection ≡ none
    → ((id : ℕ) → IsHeld none id (c.connections id))
    → CurrentResult (s >>= λ connector. ok (record c { connector = connector }))
reconnected-Current (ok connector) c e held = record {
  held = λ id. subst (λ x. IsHeld x id (c.connections id)) (sym e) (held id);
  up = rw e refl;
}
reconnected-Current (fault x) c e held = tt

remove_connection-Current :
    (id sockfd : ℕ) (r : ConnectResult) (c : TcpClient)
    → is_connection id c.connection ≡ true
    → ((x : ℕ) → IsHeld none x (c.connections x))
    → CurrentResult (remove_connection id sockfd r c)
unfolding remove_connection
remove_connection-Current id sockfd r c same held =
    let c1 : TcpClient = record c { connection = none; queued = c.queued ++ id ∷ [] } in
    elim (Bool-cases (c.retry && c.connect)) [
      | inl e ↦ rw (same, e) (reconnected-Current (restart sockfd r c.connector) c1 refl held)
      | inr e ↦ rw (same, e) (record { held = held; up = refl })
    ]

asked-held :
    (id : ℕ) (conn conn' : Connection) (c : TcpClient)
    → is_connection id c.connection ≡ true
    → IsTold conn'
    → (closes conn'.calls == 0) ≡ false
    → IsCurrent c
    → (x : ℕ) → IsHeld none x (put_at id (some conn') c.connections x)
asked-held id conn conn' c same told asked i =
    put-IsHeld none id conn' c.connections (told, sym asked)
      (λ x ne.
        dropped-IsHeld c.connection x (c.connections x)
          (is_connection-other id x c.connection same ne) (i.held x))

act-Current :
    (e : Event) (id : ℕ) (conn : Connection) (sockfd : ℕ) (r : ConnectResult) (c : TcpClient)
    → c.connections id ≡ some conn
    → IsCurrent c
    → CurrentResult (act e id conn sockfd r c)
unfolding act
act-Current e id conn sockfd r c at i =
    acted (step e conn) (step-Told e conn (told_of c id conn at i)) (step-Grows e conn)
  where
    acted :
        (s : Checked Connection)
        → ToldResult s
        → GrowsResult conn s
        → CurrentResult (
            s >>= λ conn'.
            if ltb (closes conn.calls) (closes conn'.calls)
            then remove_connection id sockfd r (set_connection id conn' c)
            else ok (set_connection id conn' c))
    acted (fault x) told grows = tt
    acted (ok conn') told grows = elim (Bool-cases (ltb (closes conn.calls) (closes conn'.calls))) [
      | inl h ↦
          let same = asks-is_connection id conn conn' c at told h i in
          rw h (
            remove_connection-Current id sockfd r (set_connection id conn' c) same
              (asked-held id conn conn' c same told (ground (arith, h)) i))
      | inr h ↦ rw h (replaced-IsCurrent id conn conn' c at told (ground (arith, h, grows)) i)
    ]

destroy-Current :
    (id : ℕ) (rest : List ℕ) (conn : Connection) (c : TcpClient)
    → c.connections id ≡ some conn
    → IsCurrent c
    → CurrentResult (destroy id rest conn c)
unfolding destroy
destroy-Current id rest conn c at i =
    destroyed_by (connect_destroyed conn)
      (unfold step in step-Told destroyed conn (told_of c id conn at i))
      (λ conn' e. connect_destroyed-closes conn conn' e)
  where
    destroyed_by :
        (s : Checked Connection)
        → ToldResult s
        → ((conn' : Connection) → s ≡ ok conn' → closes conn'.calls ≡ closes conn.calls)
        → CurrentResult (s >>= λ conn'. ok (record (set_connection id conn' c) { queued = rest }))
    destroyed_by (fault x) told same = tt
    destroyed_by (ok conn') told same =
        let j = replaced-IsCurrent id conn conn' c at told (same conn' refl) i in
        record { held = j.held; up = j.up }

-- A connection that has just been made.
accept_connected-Current :
    (channel : Channel) (input output : Buffer) (c : TcpClient)
    → has c.connection ≡ false
    → is_up c.connector.state ≡ true
    → IsCurrent c
    → CurrentResult (accept_connected channel input output c)
unfolding accept_connected connect_established closes notices
accept_connected-Current channel input output c empty up i = record {
  held =
      put-IsHeld (some c.next_conn_id) c.next_conn_id _ c.connections (refl, ground arith)
        (λ x ne.
          taken-IsHeld c.next_conn_id x (c.connections x) ne
            (subst (λ y. IsHeld y x (c.connections x)) (none_of c.connection empty) (i.held x)));
  up = rw up refl;
}
  where
    none_of : (o : Option ℕ) → has o ≡ false → o ≡ none
    none_of none h = refl
    none_of (some y) h = absurd (ground arith)

with_connector-Current :
    (connector : Connector) (c : TcpClient)
    → (not (is_up c.connector.state) || is_up connector.state) ≡ true
    → IsCurrent c
    → IsCurrent (record c { connector = connector })
with_connector-Current connector c h i = record { held = i.held; up = ground (arith, i.up) }

connect_client-Current :
    (sockfd : ℕ) (r : ConnectResult) (c : TcpClient)
    → IsCurrent c
    → CurrentResult (connect_client sockfd r c)
unfolding connect_client
connect_client-Current sockfd r c i =
    started (start sockfd r c.connector) (start-Up sockfd r c.connector)
  where
    started :
        (s : Checked Connector)
        → UpResult c.connector s
        → CurrentResult (s >>= λ connector. ok (record c { connect = true; connector = connector }))
    started (fault x) up = tt
    started (ok connector) up =
        let j = with_connector-Current connector c up i in record { held = j.held; up = j.up }

connector_writes-Current :
    (o : Outcome) (channel : Channel) (input output : Buffer) (c : TcpClient)
    → IsCurrent c
    → CurrentResult (connector_writes o channel input output c)
unfolding connector_writes
connector_writes-Current o channel input output c i =
    written (handle_write o c.connector) (handle_write-Hands o c.connector)
  where
    written :
        (s : Checked Connector)
        → HandsResult c.connector s
        → CurrentResult (
            s >>= λ connector.
            if hands_on c.connector connector
            then accept_connected channel input output (record c { connector = connector })
            else ok (record c { connector = connector }))
    written (fault x) h = tt
    written (ok connector) (down, up) =
        let empty : has c.connection ≡ false = ground (arith, i.up, down) in
        let j : IsCurrent (record c { connector = connector }) = record {
          held = i.held;
          up = rw empty refl;
        } in
        elim (Bool-cases (hands_on c.connector connector)) [
          | inl e ↦ rw e (
              accept_connected-Current channel input output (record c { connector = connector })
                empty (ground (arith, e, up)) j)
          | inr e ↦ rw e j
        ]

disconnect-Current : (c : TcpClient) → IsCurrent c → IsCurrent (disconnect c)
disconnect-Current c i = current c.connection
  where
    at_id :
        (id : ℕ) (o : Option Connection)
        → c.connections id ≡ o
        → IsCurrent (shutdown_at id o (record c { connect = false }))
    at_id id none e = record { held = i.held; up = i.up }
    at_id id (some conn) e =
        let j =
          replaced-IsCurrent id conn (shutdown conn) c e
            (step_told shuts conn (shutdown conn) (unfold step in refl) (told_of c id conn e i))
            (shutdown-closes conn) i in
        record { held = j.held; up = j.up }

    current : (o : Option ℕ) → IsCurrent (shutdown_current o (record c { connect = false }))
    current none = record { held = i.held; up = i.up }
    current (some id) = at_id id (c.connections id) refl

stop-up :
    (c : TcpClient)
    → (not (has c.connection) || is_up c.connector.state) ≡ true
    → (not (has c.connection) || is_up (stop c.connector).state) ≡ true
unfolding stop
stop-up c h = h

-- In every reachable client: of all the connections it made, the one that has not asked for its removal
-- is the one that it has, if there is one; each has told its user what its state says; and while it
-- has a connection, its connector is up.
pub Reaches-IsCurrent : (c : TcpClient) → Reaches c → IsCurrent c
Reaches-IsCurrent _ made = record { held = λ id. refl; up = refl }
Reaches-IsCurrent _ (enables {c} reached) =
    let i = Reaches-IsCurrent c reached in record { held = i.held; up = i.up }
Reaches-IsCurrent _ (connects {c} reached sockfd r e) =
    subst CurrentResult e (connect_client-Current sockfd r c (Reaches-IsCurrent c reached))
Reaches-IsCurrent _ (disconnects {c} reached) = disconnect-Current c (Reaches-IsCurrent c reached)
Reaches-IsCurrent _ (stops {c} reached) =
    let i = Reaches-IsCurrent c reached in record { held = i.held; up = stop-up c i.up }
Reaches-IsCurrent _ (connector_steps {c} {connector} reached b e) =
    with_connector-Current connector c
      (subst (UpResult c.connector) e (background-Up b c.connector)) (Reaches-IsCurrent c reached)
Reaches-IsCurrent _ (connector_written {c} reached o channel input output e) =
    subst CurrentResult e
      (connector_writes-Current o channel input output c (Reaches-IsCurrent c reached))
Reaches-IsCurrent _ (acts {c} reached e id conn sockfd r at ordinary done) =
    subst CurrentResult done (act-Current e id conn sockfd r c at (Reaches-IsCurrent c reached))
Reaches-IsCurrent _ (destroys {c} reached id rest conn queue at done) =
    subst CurrentResult done (destroy-Current id rest conn c at (Reaches-IsCurrent c reached))

remove_connection_lem :
    (id sockfd : ℕ) (r : ConnectResult) (c : TcpClient)
    → is_connection id c.connection ≡ true
    → (c.retry && c.connect) ≡ false
    → remove_connection id sockfd r c
      ≡ ok (record c { connection = none; queued = c.queued ++ id ∷ [] })
unfolding remove_connection
remove_connection_lem id sockfd r c same still = rw (same, still) refl

act_lem :
    (e : Event) (id : ℕ) (conn conn' : Connection) (sockfd : ℕ) (r : ConnectResult) (c : TcpClient)
    → step e conn ≡ ok conn'
    → ltb (closes conn.calls) (closes conn'.calls) ≡ true
    → act e id conn sockfd r c ≡ remove_connection id sockfd r (set_connection id conn' c)
unfolding act
act_lem e id conn conn' sockfd r c done asks = rw (done, asks) refl

-- In a reachable client that does not reconnect, a connection that asks for its removal is the
-- client's: no assertion fails, the client has no connection then, and connectDestroyed is queued.
-- A call of `connect` that follows fails the assertion of the connector, which still counts as
-- connected.
pub connect_client_after_removal :
    (c : TcpClient) (e : Event) (id : ℕ) (conn conn' : Connection) (sockfd again : ℕ)
    (r s : ConnectResult)
    → Reaches c
    → c.connections id ≡ some conn
    → step e conn ≡ ok conn'
    → ltb (closes conn.calls) (closes conn'.calls) ≡ true
    → (c.retry && c.connect) ≡ false
    → (c' : TcpClient) × (act e id conn sockfd r c ≡ ok c')
      × (c'.connection ≡ none)
      × (c'.queued ≡ c.queued ++ id ∷ [])
      × (connect_client again s c' ≡ fault assertion)
unfolding connect_client
connect_client_after_removal c e id conn conn' sockfd again r s reached at done asks still =
    let i = Reaches-IsCurrent c reached in
    let told = step_told e conn conn' done (told_of c id conn at i) in
    let same = asks-is_connection id conn conn' c at told asks i in
    let up : is_up c.connector.state ≡ true = connected_of c.connection same i.up in
    (
      record (set_connection id conn' c) { connection = none; queued = c.queued ++ id ∷ [] },
      act_lem e id conn conn' sockfd r c done asks
          ∙ remove_connection_lem id sockfd r (set_connection id conn' c) same still,
      refl,
      refl,
      rw (start_up again s c.connector up) refl,
    )
  where
    connected_of :
        (o : Option ℕ)
        → is_connection id o ≡ true
        → (not (has o) || is_up c.connector.state) ≡ true
        → is_up c.connector.state ≡ true
    connected_of none same up = absurd (ground arith)
    connected_of (some x) same up = up
