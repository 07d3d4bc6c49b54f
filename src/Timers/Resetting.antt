-- ===== src/Timers/Resetting.antt =====
-- What `reset` of muduo/net/TimerQueue.cc does with the timers that have expired.
use cs_note.Common.{
  ℕ, ◌<◌, ◌≡◌, refl, ap, ◌∙◌, true, false, ◌&&◌, ◌||◌, not, Option, none, some, List, [], ◌∷◌,
  if◌then◌else◌, ltb, ◌==◌, ==_iff, arith, Checked, ok, Bool-cases, inl, inr,
}
use cs_note.Timers.Sets.{Pair, member}
use cs_note.Timers.{
  Timer, TimerQueue, put_at, deref, delete, restart, reset_each, next_alarm, reset, end_expired,
}
use cs_note.Timers.Alarm.{IsArmed, are_valid, alarm_for, insert-are_valid, alarm_for-is_armed}
use cs_note.Timers.Agreement.{has_address, AreOutside, Agrees, insert_timer-Inserted}
use cs_note.Timers.Updates.{Agrees-flags, delete-Agrees, restart-Agrees}

-- A timer after it has expired: alive again if it repeats and has not been cancelled meanwhile.
abbrev pub kept : ℕ → ℕ → Timer → List Pair → Option Timer
kept now a t canceling =
    if t.repeat && not (member (a, t.sequence) canceling) then some (restart now t) else none

abbrev pub after : ℕ → ℕ → Option Timer → List Pair → Option Timer
after now a none canceling = none
after now a (some t) canceling = kept now a t canceling

-- One entry after the other: `g` is the store after the first.
store_step :
    (now a b : ℕ) (es canceling canceling' : List Pair) (f g : ℕ → Option Timer) (t : Timer)
    → f a ≡ some t
    → has_address a es ≡ false
    → g ≡ put_at a (kept now a t canceling) f
    → canceling' ≡ canceling
    → (if has_address b es then after now b (g b) canceling' else g b)
      ≡ (if b == a || has_address b es then after now b (f b) canceling else f b)
store_step now a b es canceling canceling' f g t stored apart same same' =
    rw (same, same')
      (elim (Bool-cases (b == a)) [
        | inl e ↦ rw ((==_iff b a).0 e, apart, stored) (ground arith)
        | inr e ↦ rw e refl
      ])

-- What the loop of `reset` leaves: the timers of the entries as `kept` says, the others as they were.
pub record Restarted (now : ℕ) (es : List Pair) (q : TimerQueue) (r : Checked TimerQueue)
    : Type 0 where
  pub queue : TimerQueue
  pub returned : r ≡ ok queue
  pub agrees : Agrees [] queue
  pub store :
      (b : ℕ)
      → queue.store b
        ≡ (if has_address b es then after now b (q.store b) q.canceling else q.store b)
  pub valid : 0 < now → are_valid q.timers ≡ true → are_valid queue.timers ≡ true

reset_each-Restarted :
    (now : ℕ) (es : List Pair) (q : TimerQueue)
    → Agrees es q
    → Restarted now es q (reset_each now es q)
unfolding reset_each deref AreOutside has_address
reset_each-Restarted now [] q i = record {
  queue = q;
  returned = refl;
  agrees = i;
  store = λ b. refl;
  valid = λ low h. h;
}
reset_each-Restarted now ((w, a) ∷ es) q i =
    let (((t, stored), low), (quiet, apart), o) = i.outside in
    elim (Bool-cases (t.repeat && not (member (a, t.sequence) q.canceling))) [
      | inl e ↦
          let q' : TimerQueue = record q { store = put_at a (some (restart now t)) q.store } in
          let n =
            insert_timer-Inserted w a (restart now t) es q'
              (restart-Agrees w a (restart now t) es q i) (ground arith) in
          let r = reset_each-Restarted now es n.queue n.agrees in
          record {
            queue = r.queue;
            returned = rw (stored, deref) (rw e (rw n.returned r.returned));
            agrees = r.agrees;
            store = λ b.
                r.store b
                ∙ store_step now a b es q.canceling n.queue.canceling q.store n.queue.store t stored
                    apart (n.store ∙ ap (λ v. put_at a v q.store) (ground (arith, e))) n.rest.0;
            valid = λ low h. r.valid low (
                rw n.timers
                  (insert-are_valid ((restart now t).expiration) a q.timers (ground arith) h));
          }
      | inr e ↦
          let r = reset_each-Restarted now es (delete a q) (delete-Agrees w a es q i) in
          record {
            queue = r.queue;
            returned = rw (stored, deref) (rw e r.returned);
            agrees = r.agrees;
            store = λ b.
                r.store b
                ∙ store_step now a b es q.canceling q.canceling q.store (put_at a none q.store) t
                    stored apart (ap (λ v. put_at a v q.store) (ground (arith, e))) refl;
            valid = r.valid;
          }
    ]

-- The next alarm is that of the first timer.
next_alarm-Returns :
    (clock : ℕ) (l : List Pair) (q : TimerQueue)
    → ((w a : ℕ) → member (w, a) l ≡ true → member (w, a) q.timers ≡ true)
    → Agrees [] q
    → next_alarm clock l q ≡ ok (record q { alarm = alarm_for clock l q.alarm })
unfolding next_alarm deref member
next_alarm-Returns clock [] q listed i = refl
next_alarm-Returns clock ((w, a) ∷ es) q listed i =
    let (t, s, at) = i.entry w a (listed w a (ground arith)) in
    rw (s.stored, deref, at) (elim (Bool-cases (ltb 0 w)) [ inl e ↦ rw e refl | inr e ↦ rw e refl ])

-- `handleRead` from the callbacks on: it returns, and nothing is outside any more.
pub end_expired-Restarted :
    (clock now : ℕ) (es : List Pair) (q : TimerQueue)
    → Agrees es q
    → (r : Restarted now es q (end_expired clock now es q)) × (0 < now
        → are_valid q.timers ≡ true
        → IsArmed clock r.queue)
unfolding end_expired reset
end_expired-Restarted clock now es q i =
    let q' : TimerQueue = record q { calling_expired_timers = false } in
    let r = reset_each-Restarted now es q' (Agrees-flags false q.canceling q.alarm i) in
    let alarm = alarm_for clock r.queue.timers r.queue.alarm in
    (
      record {
        queue = record r.queue { alarm = alarm };
        returned =
            rw r.returned (next_alarm-Returns clock r.queue.timers r.queue (λ w a h. h) r.agrees);
        agrees = Agrees-flags r.queue.calling_expired_timers r.queue.canceling alarm r.agrees;
        store = r.store;
        valid = r.valid;
      },
      λ low h. record {
        valid = r.valid low h;
        armed = alarm_for-is_armed clock r.queue.timers r.queue.alarm (r.valid low h);
      },
    )
