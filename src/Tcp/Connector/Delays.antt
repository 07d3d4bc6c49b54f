-- ===== src/Tcp/Connector/Delays.antt =====
-- How long a `Connector` of muduo/net/Connector.cc waits, and what its timers find.
use cs_note.Common.{
  ℕ, ◌*◌, ◌^◌, ◌≤◌, ◌≡◌, refl, sym, subst, inl, inr, true, none, List, [], ◌∷◌, ◌++◌, if◌then◌else◌,
  min, arith, ok, fault, assertion, ◌>>=◌, Bool-cases, length, ◌∙◌, leb,
}
use native.Mathlib.Nat.{mul_assoc, mul-le-mul_right, pow-succ', one-le-pow}
use cs_note.Tcp.Connector.{
  disconnected, Connector, max_retry_delay_ms, close, retry, connecting_on, ConnectResult,
  in_progress, retryable, connect_with, start_in_loop, start, stop, stop_in_loop,
}

-- `stop` does not cancel the timer of an attempt that failed. When a connector is started, the first
-- attempt fails so that a timer is set, and it is stopped and started again before the timer fires,
-- the timer finds the state kConnecting, and the assertion of `startInLoop` fails.
pub start_in_loop_after_stop :
    (first second third : ℕ) (r : ConnectResult) (c : Connector)
    → c.state ≡ disconnected
    → c.channel ≡ none
    → (c1 : Connector) × (start first retryable c ≡ ok c1)
      × (c1.timers ≡ c.timers ++ c.retry_delay_ms ∷ [])
      × ((do
        c2 ← stop_in_loop (stop c1)
        c3 ← start second in_progress c2
        start_in_loop third r c3)
          ≡ fault assertion)
unfolding start start_in_loop connect_with retry stop stop_in_loop connecting_on
start_in_loop_after_stop first second third r c e f =
    (retry first (record c { connect = true }), rw e refl, refl, rw f refl)

min-double :
    (d p : ℕ)
    → 1 ≤ p
    → min (min (d * 2) max_retry_delay_ms * p) max_retry_delay_ms
      ≡ min (d * (2 * p)) max_retry_delay_ms
min-double d p pos_p = elim (Bool-cases (leb (d * 2) max_retry_delay_ms)) [
  | inl e ↦
      let low : d * 2 ≤ max_retry_delay_ms = ground arith in
      let same : min (d * 2) max_retry_delay_ms ≡ d * 2 = omega arith in
      rw (same, ← mul_assoc d 2 p) refl
  | inr e ↦
      let high : max_retry_delay_ms ≤ d * 2 = ground arith in
      let same : min (d * 2) max_retry_delay_ms ≡ max_retry_delay_ms = omega arith in
      rw same (omega (arith, mul_assoc d 2 p, mul-le-mul_right p high))
]

-- Attempts that fail one after another.
unfoldable pub fail_all : List ℕ → Connector → Connector
fail_all [] c = c
fail_all (sockfd ∷ sockfds) c = fail_all sockfds (retry sockfd c)

-- The delay of a connector that has not been stopped doubles with every failed attempt up to 30
-- seconds: after n of them it is the old one times 2 ^ n, or 30 seconds.
pub fail_all-retry_delay_ms :
    (sockfds : List ℕ) (c : Connector)
    → c.connect ≡ true
    → c.retry_delay_ms ≤ max_retry_delay_ms
    → (fail_all sockfds c).retry_delay_ms
      ≡ min (c.retry_delay_ms * 2 ^ length sockfds) max_retry_delay_ms
unfolding fail_all retry
fail_all-retry_delay_ms [] c going h = omega arith
fail_all-retry_delay_ms (x ∷ xs) c going h =
    subst
      (λ b.
        (fail_all xs (
          let c1 = record (close x c) { state = disconnected } in
          if b
          then record c1 {
            timers = c1.timers ++ c1.retry_delay_ms ∷ [];
            retry_delay_ms = min (c1.retry_delay_ms * 2) max_retry_delay_ms;
          }
          else c1)).retry_delay_ms
        ≡ min (c.retry_delay_ms * 2 ^ length (x ∷ xs)) max_retry_delay_ms)
      (sym going)
      (fail_all-retry_delay_ms xs
          (record (close x c) {
            state = disconnected;
            timers = c.timers ++ c.retry_delay_ms ∷ [];
            retry_delay_ms = min (c.retry_delay_ms * 2) max_retry_delay_ms;
          })
          going (omega arith)
        ∙ rw (pow-succ' 2 (length xs))
            (min-double c.retry_delay_ms (2 ^ length xs) (one-le-pow (length xs) 2 (omega arith))))
