-- ===== src/Timers/Alarm.antt =====
-- When the descriptor of muduo/net/TimerQueue.cc is to wake the loop up.
use cs_note.Common.{
  ℕ, ◌+◌, ◌≤◌, ◌<◌, ◌≡◌, refl, Bool, true, false, ◌&&◌, Option, none, some, List, [], ◌∷◌,
  if◌then◌else◌, ltb, leb, arith,
}
use cs_note.Timers.Sets.{Pair, member, insert, erase, from_bound, IsSorted}
use cs_note.Timers.{TimerQueue, is_earliest, how_much_time_from_now}

-- The loop wakes up no later than at a time.
abbrev pub wakes_by : ℕ → Option ℕ → Bool
wakes_by w none = false
wakes_by w (some v) = leb v w

-- The later one of a time and of 100 microseconds after the clock was read.
abbrev pub latest : ℕ → ℕ → ℕ
latest clock w = if ltb w (clock + 100) then clock + 100 else w

-- It wakes up for the first of these timers.
abbrev pub is_armed : ℕ → List Pair → Option ℕ → Bool
is_armed clock [] alarm = true
is_armed clock (e ∷ es) alarm = wakes_by (latest clock e.0) alarm

-- Their times are valid.
unfoldable pub are_valid : List Pair → Bool
are_valid [] = true
are_valid (e ∷ es) = ltb 0 e.0 && are_valid es

pub record IsArmed (clock : ℕ) (q : TimerQueue) : Type 0 where
  pub valid : are_valid q.timers ≡ true
  pub armed : is_armed clock q.timers q.alarm ≡ true

-- The alarm is at the first of these entries, if its time is valid.
abbrev pub alarm_for : ℕ → List Pair → Option ℕ → Option ℕ
alarm_for clock [] alarm = alarm
alarm_for clock (e ∷ es) alarm =
    if ltb 0 e.0 then some (clock + how_much_time_from_now clock e.0) else alarm

wakes_by-latest :
    (before clock w : ℕ) (alarm : Option ℕ)
    → before ≤ clock
    → wakes_by (latest before w) alarm ≡ true
    → wakes_by (latest clock w) alarm ≡ true
wakes_by-latest before clock w none later h = ground arith
wakes_by-latest before clock w (some v) later h = ground arith

wakes_by_set :
    (clock w : ℕ) → wakes_by (latest clock w) (some (clock + how_much_time_from_now clock w)) ≡ true
wakes_by_set clock w = ground arith

pub wakes_by_later :
    (clock v w : ℕ) (alarm : Option ℕ)
    → v ≤ w
    → wakes_by (latest clock v) alarm ≡ true
    → wakes_by (latest clock w) alarm ≡ true
wakes_by_later clock v w none low h = ground arith
wakes_by_later clock v w (some u) low h = ground arith

is_armed-later :
    (before after : ℕ) (l : List Pair) (alarm : Option ℕ)
    → before ≤ after
    → is_armed before l alarm ≡ true
    → is_armed after l alarm ≡ true
is_armed-later before after [] alarm later h = refl
is_armed-later before after (e ∷ es) alarm later h = wakes_by-latest before after e.0 alarm later h

pub IsArmed-later :
    {before after : ℕ} {q : TimerQueue} → before ≤ after → IsArmed before q → IsArmed after q
IsArmed-later {before} {after} {q} later h = record {
  valid = h.valid;
  armed = is_armed-later before after q.timers q.alarm later h.armed;
}

pub insert-is_armed :
    (before clock after w a : ℕ) (l : List Pair) (alarm : Option ℕ)
    → before ≤ after
    → clock ≤ after
    → is_armed before l alarm ≡ true
    → is_armed after
        (insert (w, a) l)
        (if is_earliest w l then some (clock + how_much_time_from_now clock w) else alarm)
      ≡ true
unfolding insert
insert-is_armed before clock after w a [] alarm later read h =
    wakes_by-latest clock after w (some (clock + how_much_time_from_now clock w)) read
      (wakes_by_set clock w)
insert-is_armed before clock after w a ((v, b) ∷ es) alarm later read h = ground (
  arith,
  wakes_by-latest clock after w (some (clock + how_much_time_from_now clock w)) read
      (wakes_by_set clock w),
  wakes_by-latest before after v alarm later h,
  wakes_by_later after v w alarm,
)

pub insert-are_valid :
    (w a : ℕ) (l : List Pair) → 0 < w → are_valid l ≡ true → are_valid (insert (w, a) l) ≡ true
unfolding insert are_valid
insert-are_valid w a [] low h = ground arith
insert-are_valid w a (e ∷ es) low h = ground (arith, insert-are_valid w a es)

pub erase-is_armed :
    (clock : ℕ) (x : Pair) (l : List Pair) (alarm : Option ℕ)
    → IsSorted l
    → is_armed clock l alarm ≡ true
    → is_armed clock (erase x l) alarm ≡ true
unfolding erase IsSorted member
erase-is_armed clock x [] alarm s h = refl
erase-is_armed clock x (e ∷ []) alarm s h = ground arith
erase-is_armed clock x (e ∷ f ∷ es) alarm (low, s) h =
    ground (arith, low f (ground arith), wakes_by_later clock e.0 f.0 alarm)

pub erase-are_valid : (x : Pair) (l : List Pair) → are_valid l ≡ true → are_valid (erase x l) ≡ true
unfolding erase are_valid
erase-are_valid x [] h = refl
erase-are_valid x (e ∷ es) h = ground (arith, erase-are_valid x es)

pub from_bound-are_valid :
    (x : Pair) (l : List Pair) → are_valid l ≡ true → are_valid (from_bound x l) ≡ true
unfolding from_bound are_valid
from_bound-are_valid x [] h = refl
from_bound-are_valid x (e ∷ es) h = ground (arith, from_bound-are_valid x es)

pub alarm_for-is_armed :
    (clock : ℕ) (l : List Pair) (alarm : Option ℕ)
    → are_valid l ≡ true
    → is_armed clock l (alarm_for clock l alarm) ≡ true
unfolding are_valid
alarm_for-is_armed clock [] alarm h = refl
alarm_for-is_armed clock (e ∷ es) alarm h = ground (arith, wakes_by_set clock e.0)
