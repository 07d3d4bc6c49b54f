-- ===== src/Timers/Cancelling.antt =====
-- What `cancelInLoop` of muduo/net/TimerQueue.cc does to the queue.
use cs_note.Common.{
  ℕ, ◌≡◌, refl, sym, ap, ◌∙◌, subst, true, false, Option, none, some, List, [], ◌∷◌, if◌then◌else◌,
  ◌==◌, length, arith, ok, Bool-cases, inl, inr,
}
use cs_note.Timers.Sets.{Pair, member, insert, erase, length-erase, member-erase, erase-IsSorted}
use cs_note.Timers.{Timer, TimerQueue, deref, delete, same_size, cancel_in_loop}
use cs_note.Timers.Alarm.{IsArmed, are_valid, erase-is_armed, erase-are_valid}
use cs_note.Timers.Agreement.{
  IsActive, has_address, AreOutside, Agrees, AreOutside-frame, IsActive-frame, some-some,
  stored_unique,
}
use cs_note.Timers.Updates.{Returns, Agrees-flags, delete-Agrees}

AreOutside-active :
    (es : List Pair) (q : TimerQueue) (a n : ℕ)
    → member (a, n) q.active ≡ true
    → AreOutside es q
    → has_address a es ≡ false
unfolding AreOutside has_address
AreOutside-active [] q a n h o = refl
AreOutside-active (e ∷ es) q a n h (((t, stored), low), (quiet, apart), o) =
    ground (arith, h, quiet n, AreOutside-active es q a n h o)

-- The queue without the entries of one of its timers, and without that timer.
abbrev pub taken : ℕ → Timer → TimerQueue → TimerQueue
taken a t q = record q {
  timers = erase (t.expiration, a) q.timers;
  active = erase (a, t.sequence) q.active;
}

abbrev pub without : ℕ → Timer → TimerQueue → TimerQueue
without a t q = delete a (taken a t q)

taken-size :
    {out : List Pair} {a : ℕ} {t : Timer} {q : TimerQueue}
    → IsActive a t q
    → Agrees out q
    → length (erase (t.expiration, a) q.timers) ≡ length (erase (a, t.sequence) q.active)
taken-size {out} {a} {t} {q} s i = ground (
  arith,
  length-erase (t.expiration, a) q.timers s.listed,
  length-erase (a, t.sequence) q.active s.numbered,
  i.size,
)

-- The other timers stay.
taken-IsActive :
    {out : List Pair} {b : ℕ} {u : Timer} {q : TimerQueue} (a : ℕ) (t : Timer)
    → (b == a) ≡ false
    → Agrees out q
    → IsActive b u q
    → IsActive b u (taken a t q)
taken-IsActive {out} {b} {u} {q} a t apart i s =
    IsActive-frame (taken a t q) refl
      (ground (
        arith,
        s.listed,
        apart,
        member-erase (u.expiration, b) (t.expiration, a) q.timers i.timers_sorted,
      ))
      (ground (
        arith,
        s.numbered,
        apart,
        member-erase (b, u.sequence) (a, t.sequence) q.active i.active_sorted,
      ))
      s

-- All numbers at an active address are the timer's.
active-number :
    {out : List Pair} {a : ℕ} {t : Timer} {q : TimerQueue} (n : ℕ)
    → IsActive a t q
    → Agrees out q
    → member (a, n) q.active ≡ true
    → t.sequence ≡ n
active-number {out} {a} {t} {q} n s i h =
    let (u, s', at) = i.back a n h in
    ap (λ v. v.sequence) (some-some t u (q.store a) s.stored s'.stored) ∙ at

taken-AreOutside :
    (w : ℕ) {out : List Pair} {a : ℕ} {t : Timer} {q : TimerQueue}
    → IsActive a t q
    → Agrees out q
    → AreOutside ((w, a) ∷ out) (taken a t q)
unfolding AreOutside
taken-AreOutside w {out} {a} {t} {q} s i =
    let apart = AreOutside-active out q a t.sequence s.numbered i.outside in
    (
      ((t, s.stored), s.low),
      (
        λ n. ground (
          arith,
          member-erase (a, n) (a, t.sequence) q.active i.active_sorted,
          active-number n s i,
        ),
        apart,
      ),
      AreOutside-frame out q (taken a t q)
          (λ b h. (
            refl,
            λ n.
                ground
                  (arith, apart, h, member-erase (b, n) (a, t.sequence) q.active i.active_sorted),
          ))
          i.outside,
    )

-- The timer is outside then.
pub taken-Agrees :
    (w : ℕ) (out : List Pair) (a : ℕ) (t : Timer) (q : TimerQueue)
    → IsActive a t q
    → Agrees out q
    → Agrees ((w, a) ∷ out) (taken a t q)
unfolding has_address
taken-Agrees w out a t q s i = record {
  size = taken-size s i;
  timers_sorted = erase-IsSorted (t.expiration, a) q.timers i.timers_sorted;
  active_sorted = erase-IsSorted (a, t.sequence) q.active i.active_sorted;
  entry = λ when b h.
      let m = member-erase (when, b) (t.expiration, a) q.timers i.timers_sorted in
      let (u, s', at) = i.entry when b (ground (arith, h, m)) in
      (
        u,
        taken-IsActive a t
            (elim (Bool-cases (b == a)) [
              | inl e ↦ absurd (ground (arith, h, m, e, at, stored_unique q e s.stored s'.stored))
              | inr e ↦ e
            ])
            i s',
        at,
      );
  back = λ b n h.
      let m = member-erase (b, n) (a, t.sequence) q.active i.active_sorted in
      let (u, s', at) = i.back b n (ground (arith, h, m)) in
      (
        u,
        taken-IsActive a t
            (elim (Bool-cases (b == a)) [
              | inl e ↦ absurd (ground (arith, h, m, e, at, stored_unique q e s.stored s'.stored))
              | inr e ↦ e
            ])
            i s',
        at,
      );
  outside = taken-AreOutside w s i;
  owned = λ b u h.
      ground (
        arith,
        i.owned b u h,
        member-erase (b, u.sequence) (a, t.sequence) q.active i.active_sorted,
      );
}

pub without-Agrees :
    (out : List Pair) (a : ℕ) (t : Timer) (q : TimerQueue)
    → IsActive a t q
    → Agrees out q
    → Agrees out (without a t q)
without-Agrees out a t q s i = delete-Agrees 0 a out (taken a t q) (taken-Agrees 0 out a t q s i)

-- What cancelling leaves of an active timer, and of one that is not active.
abbrev pub cancelled : Pair → Option Timer → TimerQueue → TimerQueue
cancelled id (some t) q = without id.0 t q
cancelled id none q =
    if q.calling_expired_timers then record q { canceling = insert id q.canceling } else q

pub cancel_active :
    (out : List Pair) (a : ℕ) (t : Timer) (q : TimerQueue)
    → IsActive a t q
    → Agrees out q
    → cancel_in_loop (a, t.sequence) q ≡ ok (without a t q)
unfolding cancel_in_loop deref
cancel_active out a t q s i =
    let size : same_size q ≡ true = ground (arith, i.size) in
    let size' : same_size (without a t q) ≡ true = ground (arith, taken-size s i) in
    rw (size, s.numbered) (rw (s.stored, deref) (rw s.listed (rw size' refl)))

pub cancel_other :
    (out : List Pair) (id : Pair) (q : TimerQueue)
    → member id q.active ≡ false
    → Agrees out q
    → cancel_in_loop id q ≡ ok (cancelled id none q)
unfolding cancel_in_loop
cancel_other out id q absent i =
    let size : same_size q ≡ true = ground (arith, i.size) in
    elim (Bool-cases q.calling_expired_timers) [
      | inl e ↦ rw (size, absent, e) (rw size refl)
      | inr e ↦ rw (size, absent, e) (rw size refl)
    ]

-- What holds with the cancellation noted and without it.
noted :
    (p : TimerQueue → Type 0) (id : Pair) (q : TimerQueue)
    → p (record q { canceling = insert id q.canceling })
    → p q
    → p (cancelled id none q)
noted p id q with_it as_is = elim (Bool-cases q.calling_expired_timers) [
  | inl e ↦
      subst (λ b. p (if b then record q { canceling = insert id q.canceling } else q)) (sym e)
        with_it
  | inr e ↦
      subst (λ b. p (if b then record q { canceling = insert id q.canceling } else q)) (sym e) as_is
]

pub cancel_in_loop-Returns :
    (clock : ℕ) (out : List Pair) (id : Pair) (q : TimerQueue)
    → Agrees out q
    → Returns clock clock out q (cancel_in_loop id q)
cancel_in_loop-Returns clock out (a, n) q i = elim (Bool-cases (member (a, n) q.active)) [
  | inl h ↦
      let (t, s, at) = i.back a n h in
      record {
        queue = without a t q;
        returned =
            subst (λ k. cancel_in_loop (a, k) q ≡ ok (without a t q)) at
              (cancel_active out a t q s i);
        agrees = without-Agrees out a t q s i;
        valid = erase-are_valid (t.expiration, a) q.timers;
        armed = λ h. record {
          valid = erase-are_valid (t.expiration, a) q.timers h.valid;
          armed = erase-is_armed clock (t.expiration, a) q.timers q.alarm i.timers_sorted h.armed;
        };
      }
  | inr h ↦ record {
    queue = cancelled (a, n) none q;
    returned = cancel_other out (a, n) q h i;
    agrees =
        noted (Agrees out) (a, n) q
          (Agrees-flags q.calling_expired_timers (insert (a, n) q.canceling) q.alarm i) i;
    valid = λ h. noted (λ p. are_valid p.timers ≡ true) (a, n) q h h;
    armed = λ h. noted (IsArmed clock) (a, n) q (record { valid = h.valid; armed = h.armed }) h;
  }
]
