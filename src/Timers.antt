-- ===== src/Timers.antt =====
-- muduo/net/Timer.h, Timer.cc and TimerQueue.cc: timers in a store by address, and the two sets of the
-- queue. Times and intervals are in microseconds. What the clock shows is an argument where it is read. The
-- file descriptor of the timer is seen through `alarm`, the time at which it was last set to expire.
pub mod Sets
pub mod Alarm
pub mod Agreement
pub mod Updates
pub mod Cancelling
pub mod Expiring
pub mod Resetting
pub mod Reachable
use cs_note.Common.{
  ℕ, suc, ◌+◌, ◌-◌, Bool, true, false, ◌&&◌, ◌||◌, not, Option, none, some, List, [], ◌∷◌, ◌++◌,
  if◌then◌else◌, ltb, ◌==◌, length, Checked, ok, fault, dangling, assert, ◌>>=◌, ◌>>◌,
}
use cs_note.Timers.Sets.{Pair, pair_lt, member, insert, erase, before_bound, from_bound}

-- `delta` is what `addTime` adds for the interval.
pub record Timer : Type 0 where
  pub expiration : ℕ
  pub delta : ℕ
  pub repeat : Bool
  pub sequence : ℕ

-- `timers` has the pairs of an expiration and an address, `active` and `canceling` the pairs of an
-- address and a sequence number. A deleted timer is `none` in the store.
pub record TimerQueue : Type 0 where
  pub timers : List Pair
  pub active : List Pair
  pub calling_expired_timers : Bool
  pub canceling : List Pair
  pub store : ℕ → Option Timer
  pub created : ℕ
  pub alarm : Option ℕ

abbrev pub new_queue : TimerQueue
new_queue = record {
  timers = [];
  active = [];
  calling_expired_timers = false;
  canceling = [];
  store = λ a. none;
  created = 0;
  alarm = none;
}

-- UINTPTR_MAX
abbrev pub max_address : ℕ
max_address = 18_446_744_073_709_551_615

abbrev pub put_at {ℓ} : {A : Type ℓ} → ℕ → A → (ℕ → A) → ℕ → A
put_at k v f x = if x == k then v else f x

-- A read through a pointer to a timer.
unfoldable pub deref : ℕ → TimerQueue → Checked Timer
deref a q = elim (q.store a) [ none ↦ fault dangling | some t ↦ ok t ]

abbrev pub delete : ℕ → TimerQueue → TimerQueue
delete a q = record q { store = put_at a none q.store }

-- `new Timer(cb, when, interval)`, at the address that the allocator gives; `repeat` is `interval > 0.0`.
abbrev pub new_timer : ℕ → ℕ → ℕ → Bool → TimerQueue → TimerQueue
new_timer a when delta repeat q = record q {
  store =
      put_at a
        (some
          (record { expiration = when; delta = delta; repeat = repeat; sequence = suc q.created }))
        q.store;
  created = suc q.created;
}

-- `restart`. The queue restarts timers that repeat only.
abbrev pub restart : ℕ → Timer → Timer
restart now t = record t { expiration = if t.repeat then now + t.delta else 0 }

abbrev pub is_earliest : ℕ → List Pair → Bool
is_earliest when [] = true
is_earliest when (e ∷ es) = ltb when e.0

-- The assertion that stands at both ends of most operations.
abbrev pub same_size : TimerQueue → Bool
same_size q = length q.timers == length q.active

unfoldable pub insert_timer : ℕ → TimerQueue → Checked (Bool × TimerQueue)
insert_timer a q = do
  assert (same_size q)
  t ← deref a q
  assert (not (member (t.expiration, a) q.timers))
  assert (not (member (a, t.sequence) q.active))
  let q' : TimerQueue = record q {
    timers = insert (t.expiration, a) q.timers;
    active = insert (a, t.sequence) q.active;
  }
  assert (same_size q')
  ok (is_earliest t.expiration q.timers, q')

-- `howMuchTimeFromNow`: 100 microseconds at least.
abbrev pub how_much_time_from_now : ℕ → ℕ → ℕ
how_much_time_from_now clock when = if ltb when (clock + 100) then 100 else when - clock

abbrev pub reset_timerfd : ℕ → ℕ → TimerQueue → TimerQueue
reset_timerfd clock when q = record q { alarm = some (clock + how_much_time_from_now clock when) }

unfoldable pub add_timer_in_loop : ℕ → ℕ → TimerQueue → Checked TimerQueue
add_timer_in_loop clock a q = do
  (earliest_changed, q') ← insert_timer a q
  t ← deref a q'
  ok (if earliest_changed then reset_timerfd clock t.expiration q' else q')

-- `addTimer` in the loop's thread.
abbrev pub add_timer : ℕ → ℕ → ℕ → ℕ → Bool → TimerQueue → Checked TimerQueue
add_timer clock a when delta repeat q = add_timer_in_loop clock a (new_timer a when delta repeat q)

-- An identifier is the address of a timer and its sequence number.
unfoldable pub cancel_in_loop : Pair → TimerQueue → Checked TimerQueue
cancel_in_loop id q = do
  assert (same_size q)
  q' ←
      if member id q.active
      then (do
        t ← deref id.0 q
        assert (member (t.expiration, id.0) q.timers)
        ok (record (delete id.0 q) {
          timers = erase (t.expiration, id.0) q.timers;
          active = erase id q.active;
        }))
      else ok
          (if q.calling_expired_timers then record q { canceling = insert id q.canceling } else q)
  assert (same_size q')
  ok q'

abbrev pub is_later : ℕ → List Pair → Bool
is_later now [] = true
is_later now (e ∷ es) = ltb now e.0

-- The expired entries leave the other set.
unfoldable pub deactivate : List Pair → TimerQueue → Checked TimerQueue
deactivate [] q = ok q
deactivate (e ∷ es) q = do
  t ← deref e.1 q
  assert (member (e.1, t.sequence) q.active)
  deactivate es (record q { active = erase (e.1, t.sequence) q.active })

unfoldable pub get_expired : ℕ → TimerQueue → Checked (List Pair × TimerQueue)
get_expired now q = do
  assert (same_size q)
  let expired = before_bound (now, max_address) q.timers
  let rest = from_bound (now, max_address) q.timers
  assert (is_later now rest)
  q' ← deactivate expired (record q { timers = rest })
  assert (same_size q')
  ok (expired, q')

-- `handleRead` up to the callbacks.
unfoldable pub begin_expired : ℕ → TimerQueue → Checked (List Pair × TimerQueue)
begin_expired now q = do
  (expired, q') ← get_expired now q
  ok (expired, record q' { calling_expired_timers = true; canceling = [] })

-- `run()` reads the callback of the timer; what the callback does comes as further steps.
unfoldable pub run_timer : Pair → TimerQueue → Checked TimerQueue
run_timer e q = do t ← deref e.1 q; ok q

unfoldable pub reset_each : ℕ → List Pair → TimerQueue → Checked TimerQueue
reset_each now [] q = ok q
reset_each now (e ∷ es) q = do
  t ← deref e.1 q
  q' ←
      if t.repeat && not (member (e.1, t.sequence) q.canceling)
      then (do
        (earliest_changed, r) ←
            insert_timer e.1 (record q { store = put_at e.1 (some (restart now t)) q.store })
        ok r)
      else ok (delete e.1 q)
  reset_each now es q'

-- The next alarm: the expiration of the first timer, if it is valid.
unfoldable pub next_alarm : ℕ → List Pair → TimerQueue → Checked TimerQueue
next_alarm clock [] q = ok q
next_alarm clock (e ∷ es) q = do
  t ← deref e.1 q
  ok (if ltb 0 t.expiration then reset_timerfd clock t.expiration q else q)

-- `now` is the time at which `handleRead` began, `clock` that at which it ends.
unfoldable pub reset : ℕ → List Pair → ℕ → TimerQueue → Checked TimerQueue
reset clock expired now q = do q' ← reset_each now expired q; next_alarm clock q'.timers q'

-- `handleRead` from the callbacks on.
unfoldable pub end_expired : ℕ → ℕ → List Pair → TimerQueue → Checked TimerQueue
end_expired clock now expired q =
    reset clock expired now (record q { calling_expired_timers = false })
