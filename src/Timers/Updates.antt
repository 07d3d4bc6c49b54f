-- ===== src/Timers/Updates.antt =====
-- What adding, cancelling and deleting a timer do to the queue of muduo/net/TimerQueue.cc.
use cs_note.Common.{
  ℕ, suc, ◌+◌, ◌≤◌, ◌<◌, ◌≡◌, refl, ap, ◌∙◌, Bool, true, false, ◌||◌, Option, none, some, List, [],
  ◌∷◌, if◌then◌else◌, ◌==◌, arith, Checked, ok, Bool-cases, inl, inr,
}
use cs_note.Timers.Sets.{Pair, member, insert}
use cs_note.Timers.{
  Timer, TimerQueue, max_address, put_at, deref, delete, is_earliest, how_much_time_from_now,
  reset_timerfd, add_timer_in_loop, add_timer, new_timer,
}
use cs_note.Timers.Alarm.{IsArmed, are_valid, insert-is_armed, insert-are_valid}
use cs_note.Timers.Agreement.{
  IsActive, has_address, AreOutside, Agrees, AreOutside-frame, IsActive-frame,
  insert_timer-Inserted,
}

IsActive-apart :
    {b : ℕ} {u : Timer} {q : TimerQueue} (a : ℕ)
    → ((n : ℕ) → member (a, n) q.active ≡ false)
    → IsActive b u q
    → (b == a) ≡ false
IsActive-apart {b} {u} a quiet s = ground (arith, s.numbered, quiet u.sequence)

-- The store changes at an address that is not in use.
pub Agrees-store :
    {out : List Pair} {q : TimerQueue} (out' : List Pair) (a created : ℕ) (v : Option Timer)
    → Agrees out q
    → ((n : ℕ) → member (a, n) q.active ≡ false)
    → AreOutside out' (record q { store = put_at a v q.store; created = created })
    → ((b : ℕ) (u : Timer)
        → put_at a v q.store b ≡ some u
        → (has_address b out' || member (b, u.sequence) q.active) ≡ true)
    → Agrees out' (record q { store = put_at a v q.store; created = created })
Agrees-store {out} {q} out' a created v i quiet outside owned =
    let q' : TimerQueue = record q { store = put_at a v q.store; created = created } in
    let kept : (b : ℕ) (u : Timer) → IsActive b u q → IsActive b u q' =
      λ b u s. IsActive-frame q' (ground (arith, IsActive-apart a quiet s)) s.listed s.numbered s in
    record {
      size = i.size;
      timers_sorted = i.timers_sorted;
      active_sorted = i.active_sorted;
      entry = λ when b h. let (u, s, at) = i.entry when b h in (u, kept b u s, at);
      back = λ b n h. let (u, s, at) = i.back b n h in (u, kept b u s, at);
      outside = outside;
      owned = owned;
    }

AreOutside-store :
    (es : List Pair) (q : TimerQueue) (a created : ℕ) (v : Option Timer)
    → has_address a es ≡ false
    → AreOutside es q
    → AreOutside es (record q { store = put_at a v q.store; created = created })
AreOutside-store es q a created v apart o =
    AreOutside-frame es q (record q { store = put_at a v q.store; created = created })
      (λ b h. (ground (arith, apart, h), λ n. refl)) o

-- `delete` of a timer that is outside.
pub delete-Agrees :
    (w a : ℕ) (out : List Pair) (q : TimerQueue) → Agrees ((w, a) ∷ out) q → Agrees out (delete a q)
unfolding AreOutside has_address
delete-Agrees w a out q i =
    let (((t, stored), low), (quiet, apart), o) = i.outside in
    Agrees-store out a q.created none i quiet (AreOutside-store out q a q.created none apart o)
      (λ b u h. ground (arith, h, i.owned b u))

-- `restart` of a timer that is outside.
pub restart-Agrees :
    (w a : ℕ) (t : Timer) (out : List Pair) (q : TimerQueue)
    → Agrees ((w, a) ∷ out) q
    → Agrees ((w, a) ∷ out) (record q { store = put_at a (some t) q.store })
unfolding AreOutside has_address
restart-Agrees w a t out q i =
    let (((u, stored), low), (quiet, apart), o) = i.outside in
    Agrees-store ((w, a) ∷ out) a q.created (some t) i quiet
      ((
        ((t, ground arith), low),
        (quiet, apart),
        AreOutside-store out q a q.created (some t) apart o,
      ))
      (λ b u h. ground (arith, h, i.owned b u))

AreOutside-absent :
    (es : List Pair) (q : TimerQueue) (a : ℕ)
    → q.store a ≡ none
    → AreOutside es q
    → has_address a es ≡ false
unfolding AreOutside has_address
AreOutside-absent [] q a gone o = refl
AreOutside-absent (e ∷ es) q a gone (((t, stored), low), (quiet, apart), o) =
    ground (arith, AreOutside-absent es q a gone o)

quiet_of_none :
    {out : List Pair} (q : TimerQueue) (a : ℕ)
    → q.store a ≡ none
    → Agrees out q
    → (n : ℕ) → member (a, n) q.active ≡ false
quiet_of_none q a gone i n = elim (Bool-cases (member (a, n) q.active)) [
  | inl h ↦ absurd (ground (arith, (i.back a n h).1.stored))
  | inr h ↦ h
]

new_timer-Agrees :
    (a when delta : ℕ) (repeat : Bool) (out : List Pair) (q : TimerQueue)
    → q.store a ≡ none
    → a < max_address
    → Agrees out q
    → Agrees ((when, a) ∷ out) (new_timer a when delta repeat q)
unfolding AreOutside has_address
new_timer-Agrees a when delta repeat out q gone low i =
    let t : Timer = record {
      expiration = when;
      delta = delta;
      repeat = repeat;
      sequence = suc q.created;
    } in
    let quiet = quiet_of_none q a gone i in
    let apart = AreOutside-absent out q a gone i.outside in
    Agrees-store ((when, a) ∷ out) a (suc q.created) (some t) i quiet
      ((
        ((t, ground arith), low),
        (quiet, apart),
        AreOutside-store out q a (suc q.created) (some t) apart i.outside,
      ))
      (λ b u h. ground (arith, h, i.owned b u))

-- What an operation leaves: it returns, the queue agrees, and the loop is still to wake up in time.
pub record Returns (before after : ℕ) (out : List Pair) (q : TimerQueue) (r : Checked TimerQueue)
    : Type 0 where
  pub queue : TimerQueue
  pub returned : r ≡ ok queue
  pub agrees : Agrees out queue
  pub valid : are_valid q.timers ≡ true → are_valid queue.timers ≡ true
  pub armed : IsArmed before q → IsArmed after queue

-- The alarm, the flag and the cancellations are no part of the invariant.
pub Agrees-flags :
    {out : List Pair} {q : TimerQueue} (calling : Bool) (canceling : List Pair) (alarm : Option ℕ)
    → Agrees out q
    → Agrees out
        (record q { calling_expired_timers = calling; canceling = canceling; alarm = alarm })
Agrees-flags {out} {q} calling canceling alarm i =
    let q' : TimerQueue = record q {
      calling_expired_timers = calling;
      canceling = canceling;
      alarm = alarm;
    } in
    record {
      size = i.size;
      timers_sorted = i.timers_sorted;
      active_sorted = i.active_sorted;
      entry = λ when b h.
          let (u, s, at) = i.entry when b h in
          (u, IsActive-frame q' refl s.listed s.numbered s, at);
      back = λ b n h.
          let (u, s, at) = i.back b n h in (u, IsActive-frame q' refl s.listed s.numbered s, at);
      outside = AreOutside-frame out q q' (λ b h. (refl, λ n. refl)) i.outside;
      owned = i.owned;
    }

-- The new timer's time is valid.
inserted-are_valid :
    (clock a : ℕ) (t : Timer) (earliest : Bool) (q q' : TimerQueue)
    → 0 < t.expiration
    → q'.timers ≡ insert (t.expiration, a) q.timers
    → are_valid q.timers ≡ true
    → are_valid ((if earliest then reset_timerfd clock t.expiration q' else q').timers) ≡ true
inserted-are_valid clock a t true q q' valid timers h =
    rw timers (insert-are_valid t.expiration a q.timers valid h)
inserted-are_valid clock a t false q q' valid timers h =
    rw timers (insert-are_valid t.expiration a q.timers valid h)

-- The alarm is set where the new timer is the earliest.
inserted-IsArmed :
    (before clock after a : ℕ) (t : Timer) (earliest : Bool) (q q' : TimerQueue)
    → 0 < t.expiration
    → earliest ≡ is_earliest t.expiration q.timers
    → q'.timers ≡ insert (t.expiration, a) q.timers
    → q'.alarm ≡ q.alarm
    → before ≤ after
    → clock ≤ after
    → IsArmed before q
    → IsArmed after (if earliest then reset_timerfd clock t.expiration q' else q')
inserted-IsArmed before clock after a t true q q' valid first timers alarm later read h = record {
  valid = inserted-are_valid clock a t true q q' valid timers h.valid;
  armed = rw timers (
      ground (
        arith,
        first,
        insert-is_armed before clock after t.expiration a q.timers q.alarm later read h.armed,
      ));
}
inserted-IsArmed before clock after a t false q q' valid first timers alarm later read h = record {
  valid = inserted-are_valid clock a t false q q' valid timers h.valid;
  armed =
      rw (timers, alarm)
        (ground (
          arith,
          first,
          insert-is_armed before clock after t.expiration a q.timers q.alarm later read h.armed,
        ));
}

-- `addTimerInLoop` of a timer that is outside.
pub add_timer_in_loop-Returns :
    (before clock after w a : ℕ) (t : Timer) (out : List Pair) (q : TimerQueue)
    → Agrees ((w, a) ∷ out) q
    → q.store a ≡ some t
    → 0 < t.expiration
    → before ≤ after
    → clock ≤ after
    → Returns before after out q (add_timer_in_loop clock a q)
unfolding add_timer_in_loop deref
add_timer_in_loop-Returns before clock after w a t out q i stored valid later read =
    let r = insert_timer-Inserted w a t out q i stored in
    let stored' : r.queue.store a ≡ some t = ap (λ f. f a) r.store ∙ stored in
    record {
      queue = if r.earliest then reset_timerfd clock t.expiration r.queue else r.queue;
      returned = rw r.returned (rw (stored', deref) refl);
      agrees = elim (Bool-cases r.earliest) [
        | inl e ↦ rw e (
            Agrees-flags r.queue.calling_expired_timers r.queue.canceling
              (some (clock + how_much_time_from_now clock t.expiration)) r.agrees)
        | inr e ↦ rw e r.agrees
      ];
      valid = inserted-are_valid clock a t r.earliest q r.queue valid r.timers;
      armed = λ h.
          inserted-IsArmed before clock after a t r.earliest q r.queue valid r.is_earliest r.timers
            r.rest.1 later read h;
    }

pub add_timer-Returns :
    (before clock after a when delta : ℕ) (repeat : Bool) (out : List Pair) (q : TimerQueue)
    → q.store a ≡ none
    → a < max_address
    → 0 < when
    → before ≤ after
    → clock ≤ after
    → Agrees out q
    → Returns before after out q (add_timer clock a when delta repeat q)
add_timer-Returns before clock after a when delta repeat out q gone low valid later read i =
    let r =
      add_timer_in_loop-Returns before clock after when a
        (record { expiration = when; delta = delta; repeat = repeat; sequence = suc q.created }) out
        (new_timer a when delta repeat q) (new_timer-Agrees a when delta repeat out q gone low i)
        (ground arith) valid later read in
    record {
      queue = r.queue;
      returned = r.returned;
      agrees = r.agrees;
      valid = r.valid;
      armed = λ h. r.armed (record { valid = h.valid; armed = h.armed });
    }
