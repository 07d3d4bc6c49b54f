-- ===== src/Timers/Agreement.antt =====
-- The invariant of the queue of muduo/net/TimerQueue.cc: both sets hold the same timers, and these are
-- alive.
use cs_note.Common.{
  ℕ, ◌<◌, ◌≡◌, refl, sym, ◌∙◌, subst, Bool, true, false, ◌||◌, Option, some, List, [], ◌∷◌, ◌==◌,
  ==_iff, length, arith, Checked, ok, Bool-cases, inl, inr,
}
use cs_note.Timers.Sets.{
  Pair, pair_eq, member, insert, IsSorted, member-insert, length-insert, insert-IsSorted,
}
use cs_note.Timers.{Timer, TimerQueue, max_address, deref, insert_timer, is_earliest, same_size}

-- A timer in the store that one set knows by its expiration and the other by its number.
pub record IsActive (a : ℕ) (timer : Timer) (q : TimerQueue) : Type 0 where
  pub stored : q.store a ≡ some timer
  pub listed : member (timer.expiration, a) q.timers ≡ true
  pub numbered : member (a, timer.sequence) q.active ≡ true
  pub low : a < max_address

unfoldable pub has_address : ℕ → List Pair → Bool
has_address a [] = false
has_address a (e ∷ es) = a == e.1 || has_address a es

-- Timers that are alive and in neither set.
unfoldable pub AreOutside : List Pair → TimerQueue → Type 0
AreOutside [] q = Unit {0}
AreOutside (e ∷ es) q =
    (((t : Timer) × (q.store e.1 ≡ some t)) × (e.1 < max_address))
    × (((n : ℕ) → member (e.1, n) q.active ≡ false) × (has_address e.1 es ≡ false))
    × AreOutside es q

-- The queue, and the entries that are out of it while their callbacks run. No timer that is alive is
-- anywhere else.
pub record Agrees (out : List Pair) (q : TimerQueue) : Type 0 where
  pub size : length q.timers ≡ length q.active
  pub timers_sorted : IsSorted q.timers
  pub active_sorted : IsSorted q.active
  pub entry :
      (when a : ℕ)
      → member (when, a) q.timers ≡ true
      → (t : Timer) × IsActive a t q × (t.expiration ≡ when)
  pub back :
      (a n : ℕ) → member (a, n) q.active ≡ true → (t : Timer) × IsActive a t q × (t.sequence ≡ n)
  pub outside : AreOutside out q
  pub owned :
      (b : ℕ) (u : Timer)
      → q.store b ≡ some u
      → (has_address b out || member (b, u.sequence) q.active) ≡ true

pub AreOutside-frame :
    (es : List Pair) (q q' : TimerQueue)
    → ((b : ℕ)
        → has_address b es ≡ true
        → (q'.store b ≡ q.store b) × ((n : ℕ) → member (b, n) q'.active ≡ member (b, n) q.active))
    → AreOutside es q
    → AreOutside es q'
unfolding AreOutside has_address
AreOutside-frame [] q q' same o = tt
AreOutside-frame (e ∷ es) q q' same (((t, stored), low), (quiet, apart), o) =
    let (store, active) : (q'.store e.1 ≡ q.store e.1)
        × ((n : ℕ) → member (e.1, n) q'.active ≡ member (e.1, n) q.active) =
      same e.1 (ground arith) in
    (
      ((t, store ∙ stored), low),
      (λ n. active n ∙ quiet n, apart),
      AreOutside-frame es q q' (λ b h. same b (ground arith)) o,
    )

-- What is active stays so where its entries and its timer stay.
pub IsActive-frame :
    {a : ℕ} {t : Timer} {q : TimerQueue} (q' : TimerQueue)
    → q'.store a ≡ q.store a
    → member (t.expiration, a) q'.timers ≡ true
    → member (a, t.sequence) q'.active ≡ true
    → IsActive a t q
    → IsActive a t q'
IsActive-frame q' store listed numbered s = record {
  stored = store ∙ s.stored;
  listed = listed;
  numbered = numbered;
  low = s.low;
}

pub some-some : (x y : Timer) (o : Option Timer) → o ≡ some x → o ≡ some y → x ≡ y
some-some x y o h k = ground arith

-- An address holds one timer.
pub stored_unique :
    {a b : ℕ} {t u : Timer} (q : TimerQueue)
    → (b == a) ≡ true
    → q.store a ≡ some t
    → q.store b ≡ some u
    → u ≡ t
stored_unique {a} {b} {t} {u} q e s s' =
    some-some u t (q.store b) s' (subst (λ c. q.store c ≡ some t) (sym ((==_iff b a).0 e)) s)

pub IsActive-quiet :
    {a : ℕ} {t : Timer} {q : TimerQueue}
    → IsActive a t q
    → ¬ ((n : ℕ) → member (a, n) q.active ≡ false)
IsActive-quiet {a} {t} {q} s quiet = absurd (ground (arith, s.numbered, quiet t.sequence))

-- A timer outside goes into both sets; no assertion fails.
pub record Inserted (a : ℕ) (t : Timer) (out : List Pair) (q : TimerQueue)
    (r : Checked (Bool × TimerQueue)) : Type 0 where
  pub earliest : Bool
  pub queue : TimerQueue
  pub returned : r ≡ ok (earliest, queue)
  pub agrees : Agrees out queue
  pub is_earliest : earliest ≡ is_earliest t.expiration q.timers
  pub timers : queue.timers ≡ insert (t.expiration, a) q.timers
  pub store : queue.store ≡ q.store
  pub rest : (queue.canceling ≡ q.canceling) × (queue.alarm ≡ q.alarm)

pub insert_timer-Inserted :
    (w a : ℕ) (t : Timer) (out : List Pair) (q : TimerQueue)
    → Agrees ((w, a) ∷ out) q
    → q.store a ≡ some t
    → Inserted a t out q (insert_timer a q)
unfolding insert_timer deref AreOutside has_address
insert_timer-Inserted w a t out q i stored =
    let (((t', stored'), low), (quiet, apart), o) = i.outside in
    let new_active : member (a, t.sequence) q.active ≡ false = quiet t.sequence in
    let new_entry : member (t.expiration, a) q.timers ≡ false =
      elim (Bool-cases (member (t.expiration, a) q.timers)) [
        | inl h ↦ absurd (IsActive-quiet (i.entry t.expiration a h).1 quiet)
        | inr h ↦ h
      ] in
    let size : same_size q ≡ true = ground (arith, i.size) in
    let size' : (length (insert (t.expiration, a) q.timers)
          == length (insert (a, t.sequence) q.active))
        ≡ true =
      ground (
        arith,
        i.size,
        length-insert (t.expiration, a) q.timers,
        length-insert (a, t.sequence) q.active,
      ) in
    let q' : TimerQueue = record q {
      timers = insert (t.expiration, a) q.timers;
      active = insert (a, t.sequence) q.active;
    } in
    let mine : IsActive a t q' = record {
      stored = stored;
      listed = ground (arith, member-insert (t.expiration, a) (t.expiration, a) q.timers);
      numbered = ground (arith, member-insert (a, t.sequence) (a, t.sequence) q.active);
      low = low;
    } in
    let kept : (b : ℕ) (u : Timer) → IsActive b u q → IsActive b u q' = λ b u s.
      IsActive-frame q' refl
        (ground (arith, s.listed, member-insert (u.expiration, b) (t.expiration, a) q.timers))
        (ground (arith, s.numbered, member-insert (b, u.sequence) (a, t.sequence) q.active)) s in
    record {
      earliest = is_earliest t.expiration q.timers;
      queue = q';
      returned = rw size (rw (stored, deref) (rw (new_entry, new_active, size') refl));
      agrees = record {
        size = (==_iff _ _).0 size';
        timers_sorted = insert-IsSorted (t.expiration, a) q.timers i.timers_sorted;
        active_sorted = insert-IsSorted (a, t.sequence) q.active i.active_sorted;
        entry = λ when b h. elim (Bool-cases (pair_eq (when, b) (t.expiration, a))) [
          | inl e ↦ (t, subst (λ c. IsActive c t q') (ground (arith, e)) mine, ground (arith, e))
          | inr e ↦
              let (u, s, at) =
                i.entry when b
                  (ground (arith, h, e, member-insert (when, b) (t.expiration, a) q.timers)) in
              (u, kept b u s, at)
        ];
        back = λ b n h. elim (Bool-cases (pair_eq (b, n) (a, t.sequence))) [
          | inl e ↦ (t, subst (λ c. IsActive c t q') (ground (arith, e)) mine, ground (arith, e))
          | inr e ↦
              let (u, s, at) =
                i.back b n (ground (arith, h, e, member-insert (b, n) (a, t.sequence) q.active)) in
              (u, kept b u s, at)
        ];
        outside =
            AreOutside-frame out q q'
              (λ b h. (
                refl,
                λ n.
                    ground
                      (arith, member-insert (b, n) (a, t.sequence) q.active, apart, h, has_address),
              ))
              o;
        owned = λ b u h. elim (Bool-cases (b == a)) [
          | inl e ↦ ground (
            arith,
            e,
            stored_unique q e stored h,
            member-insert (b, u.sequence) (a, t.sequence) q.active,
          )
          | inr e ↦
              ground
                (arith, e, i.owned b u h, member-insert (b, u.sequence) (a, t.sequence) q.active)
        ];
      };
      is_earliest = refl;
      timers = refl;
      store = refl;
      rest = (refl, refl);
    }
