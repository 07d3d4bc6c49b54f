-- ===== src/Tcp/Connector/Attempts.antt =====
-- The life of a `Connector` of muduo/net/Connector.cc, from its construction on.
use cs_note.Common.{
  ℕ, ◌+◌, ◌-◌, ◌≡◌, ◌≢◌, refl, subst, inl, inr, Bool, true, false, Option, none, some, List, [],
  ◌∷◌, if◌then◌else◌, arith, ok, ◌>>=◌, Bool-cases, Option-cases,
}
use cs_note.Tcp.Connector.{
  State, disconnected, connecting, connected, Watched, Connector, new_connector,
  init_retry_delay_ms, retry, connecting_on, ConnectResult, in_progress, retryable, fatal,
  unexpected, connect_with, start_in_loop, start, restart, remove_and_reset_channel, stop,
  stop_in_loop, reset_channel, Outcome, finish, handle_write, handle_error, is_connecting,
  is_disconnected,
}
use cs_note.Tcp.Connector.Sockets.{
  count, watched, Shape, AllWithin, Accounted, AccountedResult, Shape-idle, opened_by, Holding,
  retry-Accounted, close-Accounted, finish-Accounted,
}

-- A new socket is in the hands of `connect`.
new-Holding :
    (sockfd : ℕ) (opened : List ℕ) (c : Connector)
    → c.state ≢ connecting
    → Accounted opened c
    → Holding sockfd (sockfd ∷ opened) c
unfolding count
new-Holding sockfd opened c idle i = record {
  sockets = λ x. omega (arith, i.sockets x);
  shape = Shape-idle c.state c.channel c.resets_queued idle i.shape;
  delay_low = i.delay_low;
  delay_high = i.delay_high;
  timers = i.timers;
}

connecting_on-Accounted :
    (sockfd : ℕ) (opened : List ℕ) (c : Connector)
    → Holding sockfd opened c
    → AccountedResult opened (connecting_on sockfd c)
unfolding connecting_on
connecting_on-Accounted sockfd opened c h = elim (Option-cases c.channel) [
  | inl e ↦ rw e (record {
    sockets = λ x. ground (arith, h.sockets x, e);
    shape = (refl, subst (λ ch. Shape disconnected ch c.resets_queued) e h.shape);
    delay_low = h.delay_low;
    delay_high = h.delay_high;
    timers = h.timers;
  })
  | inr (w, e) ↦ rw e tt
]

connect_with-Accounted :
    (sockfd : ℕ) (r : ConnectResult) (opened : List ℕ) (c : Connector)
    → c.state ≢ connecting
    → Accounted opened c
    → AccountedResult (sockfd ∷ opened) (connect_with sockfd r c)
unfolding connect_with
connect_with-Accounted sockfd in_progress opened c idle i =
    connecting_on-Accounted sockfd (sockfd ∷ opened) c (new-Holding sockfd opened c idle i)
connect_with-Accounted sockfd retryable opened c idle i =
    retry-Accounted sockfd (sockfd ∷ opened) c (new-Holding sockfd opened c idle i)
connect_with-Accounted sockfd fatal opened c idle i =
    close-Accounted sockfd (sockfd ∷ opened) c idle (new-Holding sockfd opened c idle i)
connect_with-Accounted sockfd unexpected opened c idle i =
    close-Accounted sockfd (sockfd ∷ opened) c idle (new-Holding sockfd opened c idle i)

-- A watched socket that is not watched any more is in the hands of the operation.
removed-Holding :
    (s : State) (opened : List ℕ) (c : Connector) (w : Watched)
    → c.state ≡ connecting
    → c.channel ≡ some w
    → Accounted opened c
    → Holding w.fd opened (record c {
      state = s;
      channel = some (record w { enabled = false });
      resets_queued = c.resets_queued + 1;
    })
removed-Holding s opened c w e f i =
    let (enabled, none_queued) : (w.enabled ≡ true) × (c.resets_queued ≡ 0) =
      subst (λ ch. Shape connecting ch c.resets_queued) f
        (subst (λ t. Shape t c.channel c.resets_queued) e i.shape) in
    record {
      sockets = λ x. ground (
        arith,
        subst (λ ch. count x c.closed + count x c.handed_on + watched x ch ≡ count x opened) f
            (i.sockets x),
        enabled,
      );
      shape = (refl, omega arith);
      delay_low = i.delay_low;
      delay_high = i.delay_high;
      timers = i.timers;
    }

-- `removeAndResetChannel` in a connecting connector hands the socket over; what is done with it then
-- may depend on the state, which the callers change before.
removal-Accounted :
    (s : State) (k : ℕ → Connector → Connector) (opened : List ℕ) (c : Connector)
    → ((sockfd : ℕ) (c' : Connector) → Holding sockfd opened c' → Accounted opened (k sockfd c'))
    → c.state ≡ connecting
    → Accounted opened c
    → AccountedResult opened
        (remove_and_reset_channel (record c { state = s }) >>= λ r. ok (k r.0 r.1))
unfolding remove_and_reset_channel
removal-Accounted s k opened c h e i = elim (Option-cases c.channel) [
  | inl f ↦ absurd (
      subst (λ ch. Shape connecting ch c.resets_queued) f
        (subst (λ t. Shape t c.channel c.resets_queued) e i.shape))
  | inr (w, f) ↦ rw f (h w.fd _ (removed-Holding s opened c w e f i))
]

is_connecting→ : (s : State) → is_connecting s ≡ true → s ≡ connecting
is_connecting→ disconnected h = absurd (ground arith)
is_connecting→ connecting h = refl
is_connecting→ connected h = absurd (ground arith)

is_disconnected→ : (s : State) → is_disconnected s ≡ true → s ≢ connecting
is_disconnected→ disconnected h = ground arith
is_disconnected→ connecting h = absurd (ground arith)
is_disconnected→ connected h = absurd (ground arith)

handle_write-Accounted :
    (o : Outcome) (opened : List ℕ) (c : Connector)
    → Accounted opened c
    → AccountedResult opened (handle_write o c)
unfolding handle_write
handle_write-Accounted o opened c i = elim (Bool-cases (is_connecting c.state)) [
  | inl e ↦ rw e (
      removal-Accounted c.state (λ fd c'. finish fd o c') opened c
        (λ fd c' h. finish-Accounted fd o opened c' h) (is_connecting→ c.state e) i)
  | inr e ↦ rw e ground (arith, i)
]

stop_in_loop-Accounted :
    (opened : List ℕ) (c : Connector) → Accounted opened c → AccountedResult opened (stop_in_loop c)
unfolding stop_in_loop
stop_in_loop-Accounted opened c i = elim (Bool-cases (is_connecting c.state)) [
  | inl e ↦ rw e (
      removal-Accounted disconnected retry opened c (λ fd c' h. retry-Accounted fd opened c' h)
        (is_connecting→ c.state e) i)
  | inr e ↦ rw e i
]

handle_error-Accounted :
    (opened : List ℕ) (c : Connector) → Accounted opened c → AccountedResult opened (handle_error c)
unfolding handle_error
handle_error-Accounted opened c i = elim (Bool-cases (is_connecting c.state)) [
  | inl e ↦ rw e (
      removal-Accounted c.state retry opened c (λ fd c' h. retry-Accounted fd opened c' h)
        (is_connecting→ c.state e) i)
  | inr e ↦ rw e i
]

attempt-Accounted :
    (go : Bool) (sockfd : ℕ) (r : ConnectResult) (opened : List ℕ) (c : Connector)
    → c.state ≢ connecting
    → Accounted opened c
    → AccountedResult (opened_by sockfd go opened) (if go then connect_with sockfd r c else ok c)
attempt-Accounted true sockfd r opened c idle i = connect_with-Accounted sockfd r opened c idle i
attempt-Accounted false sockfd r opened c idle i = i

start_in_loop-Accounted :
    (sockfd : ℕ) (r : ConnectResult) (opened : List ℕ) (c : Connector)
    → Accounted opened c
    → AccountedResult (opened_by sockfd c.connect opened) (start_in_loop sockfd r c)
unfolding start_in_loop
start_in_loop-Accounted sockfd r opened c i = elim (Bool-cases (is_disconnected c.state)) [
  | inl e ↦ rw e (attempt-Accounted c.connect sockfd r opened c (is_disconnected→ c.state e) i)
  | inr e ↦ rw e tt
]

restart-Accounted :
    (sockfd : ℕ) (r : ConnectResult) (opened : List ℕ) (c : Connector)
    → is_connecting c.state ≡ false
    → Accounted opened c
    → AccountedResult (sockfd ∷ opened) (restart sockfd r c)
unfolding restart
restart-Accounted sockfd r opened c idle i =
    start_in_loop-Accounted sockfd r opened
      (record c { state = disconnected; retry_delay_ms = init_retry_delay_ms; connect = true })
      (record {
        sockets = i.sockets;
        shape = Shape-idle c.state c.channel c.resets_queued (ground arith) i.shape;
        delay_low = omega arith;
        delay_high = omega arith;
        timers = i.timers;
      })

-- A channel whose deletion is queued is not watched.
queued-Shape :
    (s : State) (ch : Option Watched) (n : ℕ)
    → n ≢ 0
    → Shape s ch n
    → Shape s none (n - 1) × ((x : ℕ) → watched x ch ≡ 0)
queued-Shape s none n queued h = absurd (ground (arith, s))
queued-Shape connecting (some w) n queued h = absurd (queued h.1)
queued-Shape disconnected (some w) n queued h = (omega arith, λ x. rw h.0 refl)
queued-Shape connected (some w) n queued h = (omega arith, λ x. rw h.0 refl)

reset_channel-Accounted :
    (opened : List ℕ) (c : Connector)
    → c.resets_queued ≢ 0
    → Accounted opened c
    → Accounted opened (reset_channel c)
unfolding reset_channel
reset_channel-Accounted opened c queued i =
    let (shape, unwatched) = queued-Shape c.state c.channel c.resets_queued queued i.shape in
    record {
      sockets = λ x. omega (arith, i.sockets x, unwatched x);
      shape = shape;
      delay_low = i.delay_low;
      delay_high = i.delay_high;
      timers = i.timers;
    }

-- What can happen to a connector, in the loop's thread, and the sockets that it has been given since
-- it was made. A functor that deletes the channel runs once for each time it was queued, and
-- `restart` is called when a connection has gone down, not while one is attempted.
pub data Reaches : List ℕ → Connector → Type 0 where
  made : Reaches [] new_connector
  starts :
      {opened : List ℕ} {c c' : Connector} (sockfd : ℕ) (r : ConnectResult)
      → Reaches opened c
      → start sockfd r c ≡ ok c'
      → Reaches (sockfd ∷ opened) c'
  timer_fires :
      {opened : List ℕ} {c c' : Connector} (sockfd : ℕ) (r : ConnectResult)
      → Reaches opened c
      → start_in_loop sockfd r c ≡ ok c'
      → Reaches (opened_by sockfd c.connect opened) c'
  restarts :
      {opened : List ℕ} {c c' : Connector} (sockfd : ℕ) (r : ConnectResult)
      → Reaches opened c
      → is_connecting c.state ≡ false
      → restart sockfd r c ≡ ok c'
      → Reaches (sockfd ∷ opened) c'
  stops : {opened : List ℕ} {c : Connector} → Reaches opened c → Reaches opened (stop c)
  stops_in_loop :
      {opened : List ℕ} {c c' : Connector}
      → Reaches opened c
      → stop_in_loop c ≡ ok c'
      → Reaches opened c'
  becomes_writable :
      {opened : List ℕ} {c c' : Connector} (o : Outcome)
      → Reaches opened c
      → handle_write o c ≡ ok c'
      → Reaches opened c'
  has_error :
      {opened : List ℕ} {c c' : Connector}
      → Reaches opened c
      → handle_error c ≡ ok c'
      → Reaches opened c'
  deletes_channel :
      {opened : List ℕ} {c : Connector}
      → Reaches opened c
      → c.resets_queued ≢ 0
      → Reaches opened (reset_channel c)

-- In a connector that has been given some sockets, in whatever order things happened: each socket has
-- been closed, handed on or is watched, as many times in all as it was given, so none is lost and
-- none is closed twice; a socket is watched exactly while the state is kConnecting; and the delay
-- and every timer's delay are between 0.5 and 30 seconds.
pub Reaches-Accounted : {opened : List ℕ} {c : Connector} → Reaches opened c → Accounted opened c
unfolding start stop count AllWithin
Reaches-Accounted made = record {
  sockets = λ x. refl;
  shape = refl;
  delay_low = omega arith;
  delay_high = omega arith;
  timers = tt;
}
Reaches-Accounted (starts {opened} {c} sockfd r p e) = subst (AccountedResult (sockfd ∷ opened)) e (
    start_in_loop-Accounted sockfd r opened (record c { connect = true })
      (let i = Reaches-Accounted p in
        record {
          sockets = i.sockets;
          shape = i.shape;
          delay_low = i.delay_low;
          delay_high = i.delay_high;
          timers = i.timers;
        }))
Reaches-Accounted (timer_fires {opened} {c} sockfd r p e) =
    subst (AccountedResult (opened_by sockfd c.connect opened)) e
      (start_in_loop-Accounted sockfd r opened c (Reaches-Accounted p))
Reaches-Accounted (restarts {opened} {c} sockfd r p idle e) =
    subst (AccountedResult (sockfd ∷ opened)) e
      (restart-Accounted sockfd r opened c idle (Reaches-Accounted p))
Reaches-Accounted (stops p) =
    let i = Reaches-Accounted p in
    record {
      sockets = i.sockets;
      shape = i.shape;
      delay_low = i.delay_low;
      delay_high = i.delay_high;
      timers = i.timers;
    }
Reaches-Accounted (stops_in_loop {opened} {c} p e) =
    subst (AccountedResult opened) e (stop_in_loop-Accounted opened c (Reaches-Accounted p))
Reaches-Accounted (becomes_writable {opened} {c} o p e) =
    subst (AccountedResult opened) e (handle_write-Accounted o opened c (Reaches-Accounted p))
Reaches-Accounted (has_error {opened} {c} p e) =
    subst (AccountedResult opened) e (handle_error-Accounted opened c (Reaches-Accounted p))
Reaches-Accounted (deletes_channel {opened} {c} p queued) =
    reset_channel-Accounted opened c queued (Reaches-Accounted p)
