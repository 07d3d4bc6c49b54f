-- ===== src/Timers/Expiring.antt =====
-- What `getExpired` of muduo/net/TimerQueue.cc takes out of the queue.
use cs_note.Common.{
  ℕ, ◌<◌, ◌≡◌, refl, sym, subst, true, ◌&&◌, ◌||◌, List, [], ◌∷◌, ◌++◌, ltb, leb, arith, Checked,
  ok, Bool-cases, inl, inr, append_assoc, append-nil,
}
use cs_note.Timers.Sets.{
  Pair, pair_lt, member, erase, before_bound, from_bound, before-append-from, member-before_bound,
  member-from_bound,
}
use cs_note.Timers.{
  Timer, TimerQueue, max_address, deref, same_size, is_later, deactivate, get_expired,
  begin_expired,
}
use cs_note.Timers.Alarm.{are_valid, from_bound-are_valid}
use cs_note.Timers.Agreement.{has_address, AreOutside, Agrees}
use cs_note.Timers.Updates.{Agrees-flags}
use cs_note.Timers.Cancelling.{taken-Agrees}

has_address-append :
    (a : ℕ) (es fs : List Pair) → has_address a (es ++ fs) ≡ (has_address a es || has_address a fs)
unfolding has_address
has_address-append a [] fs = refl
has_address-append a (e ∷ es) fs = ground (arith, has_address-append a es fs)

-- The first of those outside may as well be the last.
AreOutside-rotate :
    (e : Pair) (es : List Pair) (q : TimerQueue)
    → AreOutside (e ∷ es) q
    → AreOutside (es ++ e ∷ []) q
unfolding AreOutside has_address
AreOutside-rotate e [] q o = o
AreOutside-rotate e (f ∷ es) q (le, (quiet, apart), (lf, (quiet', apart'), o)) = (
  lf,
  (quiet', ground (arith, apart, apart', has_address-append f.1 es (e ∷ []))),
  AreOutside-rotate e es q (le, (quiet, ground (arith, apart)), o),
)

Agrees-rotate :
    (e : Pair) (es : List Pair) (q : TimerQueue) → Agrees (e ∷ es) q → Agrees (es ++ e ∷ []) q
unfolding has_address
Agrees-rotate e es q i = record {
  size = i.size;
  timers_sorted = i.timers_sorted;
  active_sorted = i.active_sorted;
  entry = i.entry;
  back = i.back;
  outside = AreOutside-rotate e es q i.outside;
  owned = λ b u h. ground (arith, i.owned b u h, has_address-append b es (e ∷ []));
}

-- Entries leave the other set one after the other.
record Deactivated (out : List Pair) (q : TimerQueue) (r : Checked TimerQueue) : Type 0 where
  active : List Pair
  returned : r ≡ ok (record q { active = active })
  agrees : Agrees out (record q { active = active })

erase_first :
    (w a : ℕ) (t : Timer) (l : List Pair)
    → t.expiration ≡ w
    → erase (t.expiration, a) ((w, a) ∷ l) ≡ l
unfolding erase
erase_first w a t l e = ground (arith, e)

deactivate-Deactivated :
    (out es : List Pair) (q : TimerQueue)
    → Agrees out (record q { timers = es ++ q.timers })
    → Deactivated (out ++ es) q (deactivate es q)
unfolding deactivate deref member
deactivate-Deactivated out [] q i = record {
  active = q.active;
  returned = refl;
  agrees = subst (λ l. Agrees l q) (sym (append-nil out)) i;
}
deactivate-Deactivated out ((w, a) ∷ es) q i =
    let (t, s, at) = i.entry w a (ground arith) in
    let q' : TimerQueue = record q { active = erase (a, t.sequence) q.active } in
    let i' : Agrees (out ++ (w, a) ∷ []) (record q' { timers = es ++ q.timers }) =
      Agrees-rotate (w, a) out (record q' { timers = es ++ q.timers })
        (subst (λ l. Agrees ((w, a) ∷ out) (record q' { timers = l }))
          (erase_first w a t (es ++ q.timers) at)
          (taken-Agrees w out a t (record q { timers = (w, a) ∷ es ++ q.timers }) s i)) in
    let r = deactivate-Deactivated (out ++ (w, a) ∷ []) es q' i' in
    record {
      active = r.active;
      returned = rw (s.stored, deref) (rw (s.numbered) r.returned);
      agrees =
          subst (λ l. Agrees l (record q { active = r.active })) (append_assoc out ((w, a) ∷ []) es)
            r.agrees;
    }

-- The timers that are due are taken out in their order, and the others stay.
pub record Expired (now : ℕ) (q : TimerQueue) (r : Checked (List Pair × TimerQueue)) : Type 0 where
  pub expired : List Pair
  pub queue : TimerQueue
  pub returned : r ≡ ok (expired, queue)
  pub due : (w a : ℕ) → member (w, a) expired ≡ (leb w now && member (w, a) q.timers)
  pub left : (w a : ℕ) → member (w, a) queue.timers ≡ (ltb now w && member (w, a) q.timers)
  pub in_order : expired ++ queue.timers ≡ q.timers
  pub agrees : Agrees expired queue
  pub store : queue.store ≡ q.store
  pub valid : are_valid q.timers ≡ true → are_valid queue.timers ≡ true

-- Addresses of timers are below the sentry's.
low_entry :
    {out : List Pair} {q : TimerQueue} (w a : ℕ)
    → member (w, a) q.timers ≡ true
    → Agrees out q
    → a < max_address
low_entry w a h i = let (t, s, at) = i.entry w a h in s.low

pair_lt-sentry :
    {out : List Pair} {q : TimerQueue} (now w a : ℕ)
    → member (w, a) q.timers ≡ true
    → Agrees out q
    → pair_lt (w, a) (now, max_address) ≡ leb w now
pair_lt-sentry now w a h i = ground (arith, low_entry w a h i)

is_later-from_bound :
    (now : ℕ) (l : List Pair)
    → ((w a : ℕ) → member (w, a) l ≡ true → a < max_address)
    → is_later now (from_bound (now, max_address) l) ≡ true
unfolding from_bound member
is_later-from_bound now [] low = refl
is_later-from_bound now ((w, a) ∷ es) low =
    ground (arith, low w a, is_later-from_bound now es (λ v b h. low v b (ground (arith, h))))

-- A member is among those before the bound when it is due.
due_member :
    {out : List Pair} {q : TimerQueue} (now w a : ℕ)
    → Agrees out q
    → member (w, a) (before_bound (now, max_address) q.timers)
      ≡ (leb w now && member (w, a) q.timers)
due_member {out} {q} now w a i =
    let m = member-before_bound (w, a) (now, max_address) q.timers i.timers_sorted in
    elim (Bool-cases (member (w, a) q.timers)) [
      | inl h ↦ ground (arith, m, h, pair_lt-sentry now w a h i)
      | inr h ↦ ground (arith, m, h)
    ]

later_member :
    {out : List Pair} {q : TimerQueue} (now w a : ℕ)
    → Agrees out q
    → member (w, a) (from_bound (now, max_address) q.timers) ≡ (ltb now w && member (w, a) q.timers)
later_member {out} {q} now w a i =
    let m = member-from_bound (w, a) (now, max_address) q.timers i.timers_sorted in
    elim (Bool-cases (member (w, a) q.timers)) [
      | inl h ↦ ground (arith, m, h, pair_lt-sentry now w a h i)
      | inr h ↦ ground (arith, m, h)
    ]

-- In a queue that agrees and has no timer outside, `getExpired` returns.
pub get_expired-Expired :
    (now : ℕ) (q : TimerQueue) → Agrees [] q → Expired now q (get_expired now q)
unfolding get_expired
get_expired-Expired now q i =
    let expired = before_bound (now, max_address) q.timers in
    let rest = from_bound (now, max_address) q.timers in
    let joined : expired ++ rest ≡ q.timers = before-append-from (now, max_address) q.timers in
    let later = is_later-from_bound now q.timers (λ w a h. low_entry w a h i) in
    let r =
      deactivate-Deactivated [] expired (record q { timers = rest })
        (subst (λ l. Agrees [] (record q { timers = l })) (sym joined) i) in
    let q' : TimerQueue = record q { timers = rest; active = r.active } in
    let size : same_size q ≡ true = ground (arith, i.size) in
    let size' : same_size q' ≡ true = ground (arith, r.agrees.size) in
    record {
      expired = expired;
      queue = q';
      returned = rw (size, later) (rw r.returned (rw size' refl));
      due = λ w a. due_member now w a i;
      left = λ w a. later_member now w a i;
      in_order = joined;
      agrees = r.agrees;
      store = refl;
      valid = from_bound-are_valid (now, max_address) q.timers;
    }

-- `handleRead` up to the callbacks: what is expired is outside, and no cancellation is noted.
pub begin_expired-Expired :
    (now : ℕ) (q : TimerQueue) → Agrees [] q → Expired now q (begin_expired now q)
unfolding begin_expired
begin_expired-Expired now q i =
    let r = get_expired-Expired now q i in
    record {
      expired = r.expired;
      queue = record r.queue { calling_expired_timers = true; canceling = [] };
      returned = rw r.returned refl;
      due = r.due;
      left = r.left;
      in_order = r.in_order;
      agrees = Agrees-flags true [] r.queue.alarm r.agrees;
      store = r.store;
      valid = r.valid;
    }
