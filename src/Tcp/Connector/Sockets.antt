-- ===== src/Tcp/Connector/Sockets.antt =====
-- Where the sockets of a `Connector` of muduo/net/Connector.cc are, and what becomes of one that it lets
-- go of.
use cs_note.Common.{
  ℕ, ◌+◌, ◌≤◌, ◌≡◌, ◌≢◌, refl, inl, inr, Bool, true, false, Option, none, some, List, [], ◌∷◌, ◌++◌,
  if◌then◌else◌, ◌==◌, arith, Checked, ok, fault, Bool-cases,
}
use cs_note.Tcp.Connector.{
  State, disconnected, connecting, connected, Watched, Connector, max_retry_delay_ms,
  init_retry_delay_ms, close, retry, Outcome, socket_error, self_connect, established, finish,
}

-- How often a socket is in a list.
unfoldable pub count : ℕ → List ℕ → ℕ
count x [] = 0
count x (y ∷ ys) = (if x == y then 1 else 0) + count x ys

pub count-append :
    (x : ℕ) (ys : List ℕ) (z : ℕ) → count x (ys ++ z ∷ []) ≡ (if x == z then 1 else 0) + count x ys
unfolding count
count-append x [] z = refl
count-append x (y ∷ ys) z = omega (arith, count-append x ys z)

abbrev pub watched : ℕ → Option Watched → ℕ
watched x none = 0
watched x (some w) = if w.enabled then (if x == w.fd then 1 else 0) else 0

-- In how many places the connector has a socket: closed, handed on, or watched.
abbrev pub places : ℕ → Connector → ℕ
places x c = count x c.closed + count x c.handed_on + watched x c.channel

-- The state, the channel and the functors in the loop's queue that will delete the channel.
abbrev pub Shape : State → Option Watched → ℕ → Type 0
Shape connecting (some w) n = (w.enabled ≡ true) × (n ≡ 0)
Shape connecting none n = ⊥
Shape _ (some w) n = (w.enabled ≡ false) × (n ≡ 1)
Shape _ none n = n ≡ 0

unfoldable pub AllWithin : List ℕ → Type 0
AllWithin [] = Unit {0}
AllWithin (t ∷ ts) = (init_retry_delay_ms ≤ t) × (t ≤ max_retry_delay_ms) × AllWithin ts

AllWithin-append :
    (ts : List ℕ) (t : ℕ)
    → AllWithin ts
    → init_retry_delay_ms ≤ t
    → t ≤ max_retry_delay_ms
    → AllWithin (ts ++ t ∷ [])
unfolding AllWithin
AllWithin-append [] t all l h = (l, h, tt)
AllWithin-append (u ∷ ts) t (l', h', all) l h = (l', h', AllWithin-append ts t all l h)

-- A connector that has been given these sockets, the most recent one first.
pub record Accounted (opened : List ℕ) (c : Connector) : Type 0 where
  pub sockets : (x : ℕ) → places x c ≡ count x opened
  pub shape : Shape c.state c.channel c.resets_queued
  pub delay_low : init_retry_delay_ms ≤ c.retry_delay_ms
  pub delay_high : c.retry_delay_ms ≤ max_retry_delay_ms
  pub timers : AllWithin c.timers

abbrev pub AccountedResult : List ℕ → Checked Connector → Type 0
AccountedResult opened (ok c) = Accounted opened c
AccountedResult opened (fault e) = Unit {0}

pub Shape-idle :
    (s : State) (ch : Option Watched) (n : ℕ)
    → s ≢ connecting
    → Shape s ch n
    → Shape disconnected ch n
Shape-idle disconnected ch n idle h = h
Shape-idle connecting ch n idle h = absurd (idle refl)
Shape-idle connected none n idle h = h
Shape-idle connected (some w) n idle h = h

pub idle-Shape :
    (s : State) (ch : Option Watched) (n : ℕ)
    → s ≢ connecting
    → Shape disconnected ch n
    → Shape s ch n
idle-Shape disconnected ch n idle h = h
idle-Shape connecting ch n idle h = absurd (idle refl)
idle-Shape connected none n idle h = h
idle-Shape connected (some w) n idle h = h

-- A socket is opened by an attempt unless the connector has been stopped.
abbrev pub opened_by : ℕ → Bool → List ℕ → List ℕ
opened_by sockfd true opened = sockfd ∷ opened
opened_by sockfd false opened = opened

-- The same with one of the sockets in no place: in the hands of the operation that is running.
pub record Holding (sockfd : ℕ) (opened : List ℕ) (c : Connector) : Type 0 where
  pub sockets : (x : ℕ) → (if x == sockfd then 1 else 0) + places x c ≡ count x opened
  pub shape : Shape disconnected c.channel c.resets_queued
  pub delay_low : init_retry_delay_ms ≤ c.retry_delay_ms
  pub delay_high : c.retry_delay_ms ≤ max_retry_delay_ms
  pub timers : AllWithin c.timers

pub retry-Accounted :
    (sockfd : ℕ) (opened : List ℕ) (c : Connector)
    → Holding sockfd opened c
    → Accounted opened (retry sockfd c)
unfolding retry
retry-Accounted sockfd opened c h = elim (Bool-cases c.connect) [
  | inl e ↦ rw e (record {
    sockets = λ x. ground (arith, count-append x c.closed sockfd, h.sockets x);
    shape = h.shape;
    delay_low = omega (arith, h.delay_low);
    delay_high = omega arith;
    timers = AllWithin-append c.timers c.retry_delay_ms h.timers h.delay_low h.delay_high;
  })
  | inr e ↦ rw e (record {
    sockets = λ x. ground (arith, count-append x c.closed sockfd, h.sockets x);
    shape = h.shape;
    delay_low = h.delay_low;
    delay_high = h.delay_high;
    timers = h.timers;
  })
]

pub close-Accounted :
    (sockfd : ℕ) (opened : List ℕ) (c : Connector)
    → c.state ≢ connecting
    → Holding sockfd opened c
    → Accounted opened (close sockfd c)
close-Accounted sockfd opened c idle h = record {
  sockets = λ x. ground (arith, count-append x c.closed sockfd, h.sockets x);
  shape = idle-Shape c.state c.channel c.resets_queued idle h.shape;
  delay_low = h.delay_low;
  delay_high = h.delay_high;
  timers = h.timers;
}

pub finish-Accounted :
    (sockfd : ℕ) (o : Outcome) (opened : List ℕ) (c : Connector)
    → Holding sockfd opened c
    → Accounted opened (finish sockfd o c)
unfolding finish
finish-Accounted sockfd socket_error opened c h = retry-Accounted sockfd opened c h
finish-Accounted sockfd self_connect opened c h = retry-Accounted sockfd opened c h
finish-Accounted sockfd established opened c h = elim (Bool-cases c.connect) [
  | inl e ↦ rw e (record {
    sockets = λ x. ground (arith, count-append x c.handed_on sockfd, h.sockets x);
    shape = h.shape;
    delay_low = h.delay_low;
    delay_high = h.delay_high;
    timers = h.timers;
  })
  | inr e ↦ rw e (record {
    sockets = λ x. ground (arith, count-append x c.closed sockfd, h.sockets x);
    shape = h.shape;
    delay_low = h.delay_low;
    delay_high = h.delay_high;
    timers = h.timers;
  })
]
