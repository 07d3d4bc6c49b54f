-- ===== src/Timers/Reachable.antt =====
-- The queue of muduo/net/TimerQueue.cc over time: the operations of the loop's thread one after the
-- other, those of the callbacks of timers among them.
use cs_note.Common.{
  ℕ, ◌≤◌, ◌<◌, ◌≡◌, refl, sym, ◌∙◌, subst, Bool, true, Option, none, List, [], ◌∷◌, if◌then◌else◌,
  ltb, ◌==◌, ==_iff, arith, Checked, ok, fault, assertion, ◌>>=◌, Bool-cases, inl, inr,
}
use cs_note.Timers.Sets.{Pair, member, IsSorted}
use cs_note.Timers.{
  TimerQueue, new_queue, max_address, deref, add_timer, cancel_in_loop, begin_expired, run_timer,
  end_expired,
}
use cs_note.Timers.Alarm.{
  IsArmed, IsArmed-later, is_armed, are_valid, wakes_by, latest, wakes_by_later,
}
use cs_note.Timers.Agreement.{has_address, AreOutside, Agrees}
use cs_note.Timers.Updates.{Returns, add_timer-Returns}
use cs_note.Timers.Cancelling.{cancel_in_loop-Returns}
use cs_note.Timers.Expiring.{begin_expired-Expired}
use cs_note.Timers.Resetting.{after, end_expired-Restarted}

-- Where the thread is in `handleRead`: out of it, or among the callbacks of what has expired.
pub data Phase : Type 0 where
  idle : Phase
  calling : ℕ → List Pair → Phase

abbrev pub expired_of : Phase → List Pair
expired_of idle = []
expired_of (calling now es) = es

pub data Op : Type 0 where
  add : ℕ → ℕ → ℕ → ℕ → Bool → Op
  cancel : Pair → Op
  begin : ℕ → Op
  run : Pair → Op
  end : ℕ → Op

-- The latest that the clock has shown, with what an operation reads off it.
abbrev pub clock_after : Op → ℕ → ℕ
clock_after (add clock a when delta repeat) before = if ltb before clock then clock else before
clock_after (cancel id) before = before
clock_after (begin now) before = if ltb before now then now else before
clock_after (run e) before = before
clock_after (end clock) before = if ltb before clock then clock else before

abbrev pub stay : Phase → Checked TimerQueue → Checked (Phase × TimerQueue)
stay ph m = m >>= λ q. ok (ph, q)

-- `handleRead` begins when the thread is out of it, and runs and ends when it is in it.
abbrev pub perform : Op → Phase → TimerQueue → Checked (Phase × TimerQueue)
perform (add clock a when delta repeat) ph q = stay ph (add_timer clock a when delta repeat q)
perform (cancel id) ph q = stay ph (cancel_in_loop id q)
perform (begin now) idle q = begin_expired now q >>= λ r. ok (calling now r.0, r.1)
perform (begin now) (calling _ es) q = fault assertion
perform (run e) ph q = stay ph (run_timer e q)
perform (end clock) idle q = fault assertion
perform (end clock) (calling now es) q = stay idle (end_expired clock now es q)

-- The allocator gives an address that is free, times are valid, and callbacks are those of what has
-- expired.
abbrev pub IsAllowed : Op → Phase → TimerQueue → Type 0
IsAllowed (add clock a when delta repeat) ph q = (q.store a ≡ none) × (a < max_address) × (0 < when)
IsAllowed (cancel id) ph q = Unit {0}
IsAllowed (begin now) idle q = 0 < now
IsAllowed (begin now) (calling _ es) q = ⊥
IsAllowed (run e) ph q = member e (expired_of ph) ≡ true
IsAllowed (end clock) idle q = ⊥
IsAllowed (end clock) (calling now es) q = Unit {0}

-- The number is the latest that the clock has shown.
pub data Reaches : Phase → ℕ → TimerQueue → Type 0 where
  made : (clock : ℕ) → Reaches idle clock new_queue
  step :
      {ph ph' : Phase} {before : ℕ} {q q' : TimerQueue}
      → Reaches ph before q
      → (o : Op) → IsAllowed o ph q
      → perform o ph q ≡ ok (ph', q')
      → Reaches ph' (clock_after o before) q'

-- The alarm matters outside of `handleRead`, which sets it at its end.
abbrev pub IsTimely : Phase → ℕ → TimerQueue → Type 0
IsTimely idle clock q = IsArmed clock q
IsTimely (calling now es) clock q = (0 < now) × (are_valid q.timers ≡ true)

pub record IsSound (ph : Phase) (clock : ℕ) (q : TimerQueue) : Type 0 where
  pub agrees : Agrees (expired_of ph) q
  pub timely : IsTimely ph clock q

record Performed (clock : ℕ) (r : Checked (Phase × TimerQueue)) : Type 0 where
  pub phase : Phase
  pub queue : TimerQueue
  pub returned : r ≡ ok (phase, queue)
  pub sound : IsSound phase clock queue

-- A queue of the empty sets.
new_queue-IsSound : (clock : ℕ) → IsSound idle clock new_queue
unfolding AreOutside member IsSorted are_valid
new_queue-IsSound clock = record {
  agrees = record {
    size = refl;
    timers_sorted = tt;
    active_sorted = tt;
    entry = λ w a h. absurd (ground arith);
    back = λ a n h. absurd (ground arith);
    outside = tt;
    owned = λ b u h. absurd (ground arith);
  };
  timely = record { valid = refl; armed = refl };
}

stay-Performed :
    {before clock : ℕ} {q : TimerQueue} (ph : Phase) {m : Checked TimerQueue}
    → Returns before clock (expired_of ph) q m
    → IsTimely ph before q
    → Performed clock (stay ph m)
stay-Performed idle r timely = record {
  phase = idle;
  queue = r.queue;
  returned = rw r.returned refl;
  sound = record { agrees = r.agrees; timely = r.armed timely };
}
stay-Performed (calling now es) r timely = record {
  phase = calling now es;
  queue = r.queue;
  returned = rw r.returned refl;
  sound = record { agrees = r.agrees; timely = (timely.0, r.valid timely.1) };
}

deref-AreOutside :
    (e : Pair) (es : List Pair) (q : TimerQueue)
    → member e es ≡ true
    → AreOutside es q
    → run_timer e q ≡ ok q
unfolding run_timer deref AreOutside member
deref-AreOutside e [] q h o = absurd (ground arith)
deref-AreOutside e (f ∷ es) q h (((t, stored), low), _, o) = elim (Bool-cases (e.1 == f.1)) [
  | inl k ↦ rw ((==_iff e.1 f.1).0 k) (rw (stored, deref) refl)
  | inr k ↦ deref-AreOutside e es q (ground (arith, k)) o
]

perform-Performed :
    (o : Op) (ph : Phase) (before : ℕ) (q : TimerQueue)
    → IsAllowed o ph q
    → IsSound ph before q
    → Performed (clock_after o before) (perform o ph q)
perform-Performed (add clock a when delta repeat) ph before q (gone, low, valid) s =
    stay-Performed ph
      (add_timer-Returns before clock (if ltb before clock then clock else before) a when delta
        repeat (expired_of ph) q gone low valid (ground arith) (ground arith) s.agrees)
      s.timely
perform-Performed (cancel id) ph before q allowed s =
    stay-Performed ph (cancel_in_loop-Returns before (expired_of ph) id q s.agrees) s.timely
perform-Performed (begin now) idle before q allowed s =
    let r = begin_expired-Expired now q s.agrees in
    record {
      phase = calling now r.expired;
      queue = r.queue;
      returned = rw r.returned refl;
      sound = record { agrees = r.agrees; timely = (allowed, r.valid s.timely.valid) };
    }
perform-Performed (begin now) (calling _ es) before q allowed s = absurd allowed
perform-Performed (run e) ph before q allowed s = record {
  phase = ph;
  queue = q;
  returned = rw (deref-AreOutside e (expired_of ph) q allowed s.agrees.outside) refl;
  sound = s;
}
perform-Performed (end clock) idle before q allowed s = absurd allowed
perform-Performed (end clock) (calling now es) before q allowed s =
    let (r, armed) = end_expired-Restarted clock now es q s.agrees in
    record {
      phase = idle;
      queue = r.queue;
      returned = rw r.returned refl;
      sound = record {
        agrees = r.agrees;
        timely = IsArmed-later (ground arith) (armed s.timely.0 s.timely.1);
      };
    }

abbrev IsSoundResult : ℕ → Checked (Phase × TimerQueue) → Type 0
IsSoundResult clock (ok (ph, q)) = IsSound ph clock q
IsSoundResult clock (fault _) = ⊥

-- In every reachable state both sets hold the same timers, these and those of the callbacks are all that
-- are alive, and out of `handleRead` the alarm is no later than the first timer, or than 100
-- microseconds after the latest that the clock has shown if that is later.
pub Reaches-IsSound :
    (ph : Phase) (clock : ℕ) (q : TimerQueue) → Reaches ph clock q → IsSound ph clock q
Reaches-IsSound _ _ _ (made clock) = new_queue-IsSound clock
Reaches-IsSound _ _ _ (step {ph} {before = before} {q = q} r o allowed e) =
    let p = perform-Performed o ph before q allowed (Reaches-IsSound ph before q r) in
    subst (IsSoundResult (clock_after o before)) (sym p.returned ∙ e) p.sound

-- No operation that is allowed in a reachable state fails an assertion or reads a timer that is deleted.
pub perform-returns :
    (ph : Phase) (clock : ℕ) (q : TimerQueue) (o : Op)
    → Reaches ph clock q
    → IsAllowed o ph q
    → (s : Phase × TimerQueue) × (perform o ph q ≡ ok s)
perform-returns ph clock q o r allowed =
    let p = perform-Performed o ph clock q allowed (Reaches-IsSound ph clock q r) in
    ((p.phase, p.queue), p.returned)

wakes_by-member :
    (clock w a : ℕ) (l : List Pair) (alarm : Option ℕ)
    → IsSorted l
    → is_armed clock l alarm ≡ true
    → member (w, a) l ≡ true
    → wakes_by (latest clock w) alarm ≡ true
unfolding IsSorted member
wakes_by-member clock w a [] alarm s armed h = absurd (ground arith)
wakes_by-member clock w a (e ∷ es) alarm (low, s) armed h =
    ground (arith, low (w, a), wakes_by_later clock e.0 w alarm)

-- In a reachable state out of `handleRead`, a timer that is set for a time makes the descriptor wake the
-- loop up no later than then, or than 100 microseconds after the latest that the clock has shown if
-- that is later; and a call of `handleRead` from the timer's time on takes it out to run it.
pub timer_fires :
    (clock : ℕ) (q : TimerQueue) (w a now : ℕ)
    → Reaches idle clock q
    → member (w, a) q.timers ≡ true
    → w ≤ now
    → (wakes_by (latest clock w) q.alarm ≡ true)
      × ((es : List Pair) × (q' : TimerQueue) × (begin_expired now q ≡ ok (es, q'))
          × (member (w, a) es ≡ true))
timer_fires clock q w a now r listed due =
    let s = Reaches-IsSound idle clock q r in
    let x = begin_expired-Expired now q s.agrees in
    (
      wakes_by-member clock w a q.timers q.alarm s.agrees.timers_sorted s.timely.armed listed,
      (x.expired, x.queue, x.returned, ground (arith, x.due w a, listed)),
    )

-- At the end of `handleRead` a timer that expired is alive again, set for its interval from now, if it
-- repeats and was not cancelled in a callback; else it is deleted. No other timer changes.
pub end_expired-store :
    (clock last now : ℕ) (es : List Pair) (q : TimerQueue)
    → Reaches (calling now es) last q
    → (q' : TimerQueue) × (end_expired clock now es q ≡ ok q')
      × ((b : ℕ)
          → q'.store b
            ≡ (if has_address b es then after now b (q.store b) q.canceling else q.store b))
end_expired-store clock last now es q r =
    let s = Reaches-IsSound (calling now es) last q r in
    let x = (end_expired-Restarted clock now es q s.agrees).0 in (x.queue, x.returned, x.store)
