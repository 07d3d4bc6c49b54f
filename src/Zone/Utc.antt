-- ===== src/Zone/Utc.antt =====
-- `toUtcTime` and `fromUtcTime` against each other, by the calendar of Date.
use cs_note.Common.{
  ℕ, zero, suc, ltb, lt→ltb, ltb→lt, ◌^◌, ◌+◌, ◌-◌, ◌*◌, ◌/◌, ◌%◌, ◌≤◌, ◌<◌, ◌≡◌, refl, ap, ap₂,
  ◌∙◌, ltb_ℤ, sym, subst, Bool, true, false, some, ℤ, pos, negsuc, ◌+ℤ◌, ◌-ℤ◌, ◌*ℕ◌, neg_ℕ,
  is_negative, if◌then◌else◌, arith,
}
use cs_note.Date.{day_number, week_day}
use cs_note.Date.Calendar.{IsDate, date_of-day_number}
use cs_note.Date.Bounds.{
  max_day_number, get_julian_day_number-day_number, get_year_month_day-date_of,
  get_julian_day_number-first_day,
}
use cs_note.Date.Days.{day_number-onto}
use cs_note.Zone.{
  Tm, zeroed, fill_hms, utc_zone, to_int, days_and_seconds, broken_down, to_utc_time,
  from_utc_fields, from_utc_time, seconds_per_day, julian_day_of_1970,
}

-- What `toUtcTime` makes of a quotient and a remainder that C rounded towards zero.
abbrev floored : ℤ → ℤ → ℤ × ℤ
floored days seconds =
    if is_negative seconds then (days -ℤ pos 1, seconds +ℤ pos seconds_per_day) else (days, seconds)

abbrev IsFloor : ℤ → ℤ × ℤ → Type 0
IsFloor t r =
    (s : ℕ) × (r.1 ≡ pos s) × (s < seconds_per_day) × (r.0 *ℕ seconds_per_day +ℤ pos s ≡ t)

floored_negative :
    (n q r : ℕ)
    → r < seconds_per_day
    → suc n ≡ q * seconds_per_day + r
    → IsFloor (negsuc n) (floored (neg_ℕ q) (neg_ℕ r))
floored_negative n zero zero lt e = absurd (omega arith)
floored_negative n (suc q) zero lt e = (0, refl, omega arith, ground arith)
floored_negative n zero (suc r) lt e = (86400 - suc r, ground arith, omega arith, ground arith)
floored_negative n (suc q) (suc r) lt e = (86400 - suc r, ground arith, omega arith, ground arith)

-- The days up to 1970 or from there on fit an `int`.
abbrev max_seconds : ℕ
max_seconds = 2 ^ 31 * 86400

abbrev is_within : ℤ → Bool
is_within (pos n) = ltb n max_seconds
is_within (negsuc n) = ltb (suc n) max_seconds

to_int-pos : (n : ℕ) → n < 2 ^ 31 → to_int (pos n) ≡ pos n
to_int-pos n h = ground arith

to_int-neg_ℕ : (n : ℕ) → n < 2 ^ 31 → to_int (neg_ℕ n) ≡ neg_ℕ n
to_int-neg_ℕ zero h = to_int-pos 0 h
to_int-neg_ℕ (suc n) h = ground arith

-- The days may be negative, the seconds in the day are not.
days_and_seconds-IsFloor : (t : ℤ) → is_within t ≡ true → IsFloor t (days_and_seconds t)
unfolding days_and_seconds
days_and_seconds-IsFloor (pos n) h =
    rw
      (
        to_int-pos (n % 86400) (omega arith),
        to_int-pos (n / 86400) (omega (arith, ltb→lt n max_seconds h)),
      )
      (n % 86400, refl, omega arith, ap pos (omega arith))
days_and_seconds-IsFloor (negsuc n) h =
    rw
      (
        to_int-neg_ℕ (suc n % 86400) (omega arith),
        to_int-neg_ℕ (suc n / 86400) (omega (arith, ltb→lt (suc n) max_seconds h)),
      )
      (floored_negative n (suc n / 86400) (suc n % 86400) (omega arith) (omega arith))

floor_unique :
    (a b : ℤ) (s r : ℕ)
    → s < seconds_per_day
    → r < seconds_per_day
    → a *ℕ seconds_per_day +ℤ pos s ≡ b *ℕ seconds_per_day +ℤ pos r
    → (a ≡ b) × (s ≡ r)
floor_unique (pos a) (pos b) s r hs hr e = ground arith
floor_unique (pos a) (negsuc b) s r hs hr e = ground arith
floor_unique (negsuc a) (pos b) s r hs hr e = ground arith
floor_unique (negsuc a) (negsuc b) s r hs hr e = ground arith

pub days_and_seconds_of :
    (a : ℤ) (s : ℕ)
    → s < seconds_per_day
    → is_within (a *ℕ seconds_per_day +ℤ pos s) ≡ true
    → days_and_seconds (a *ℕ seconds_per_day +ℤ pos s) ≡ (a, pos s)
days_and_seconds_of a s hs within =
    let t : ℤ = a *ℕ seconds_per_day +ℤ pos s in
    let (r, e, hr, same) = days_and_seconds-IsFloor t within in
    let (days, seconds) = floor_unique (days_and_seconds t).0 a r s hr hs same in
    ap₂ (λ x y. (x, y)) days (e ∙ ap pos seconds)

-- The time of the seconds in a day of the calendar.
abbrev time_at : ℕ → ℕ → ℤ
time_at j s = (pos j -ℤ pos julian_day_of_1970) *ℕ seconds_per_day +ℤ pos s

is_within-time_at :
    (j s : ℕ) → s < seconds_per_day → j ≤ max_day_number → is_within (time_at j s) ≡ true
is_within-time_at j s hs low = ground arith

back_to_day : (j : ℕ) → pos j -ℤ pos julian_day_of_1970 +ℤ pos julian_day_of_1970 ≡ pos j
back_to_day j = ground arith

to_utc_time_at :
    (yday : Bool) (j s : ℕ)
    → s < seconds_per_day
    → j ≤ max_day_number
    → to_utc_time yday (time_at j s) ≡ broken_down yday s j
unfolding to_utc_time
to_utc_time_at yday j s hs low =
    rw
      (
        days_and_seconds_of (pos j -ℤ pos julian_day_of_1970) s hs (is_within-time_at j s hs low),
        back_to_day j,
      )
      refl

back_to_year : (y : ℕ) → pos y -ℤ pos 1900 +ℤ pos 1900 ≡ pos y
back_to_year y = ground arith

from_utc_fields_lem :
    {y m d : ℕ} (s : ℕ)
    → IsDate y m d
    → day_number y m d ≤ max_day_number
    → s < seconds_per_day
    → from_utc_fields
        (pos y -ℤ pos 1900 +ℤ pos 1900)
        (m - 1 + 1)
        d
        (s / 60 / 60)
        (s / 60 % 60)
        (s % 60)
      ≡ some (time_at (day_number y m d) s)
unfolding from_utc_fields
from_utc_fields_lem {y} {m} {d} s date low hs =
    let month : m - 1 + 1 ≡ m = omega (arith, date.month_low) in
    let seconds : s / 60 / 60 * 3600 + s / 60 % 60 * 60 + s % 60 ≡ s = omega arith in
    let counted : s < 2 ^ 31 = omega (arith, hs) in
    rw
      (
        back_to_year y,
        month,
        get_julian_day_number-day_number date (omega (arith, low)),
        seconds,
        lt→ltb s (2 ^ 31) counted,
      )
      refl

abbrev utc_of : ℕ → ℕ → ℕ → ℕ → Tm
utc_of y m d s = record (fill_hms s zeroed) {
  zone = utc_zone;
  year = pos y -ℤ pos 1900;
  month = m - 1;
  mday = d;
  wday = week_day (day_number y m d);
}

-- What `toUtcTime` makes of a day of the calendar and the seconds in it.
record IsReturned (yday : Bool) (y m d s : ℕ) : Type 0 where
  utc : Tm
  made : broken_down yday s (day_number y m d) ≡ some utc
  back : from_utc_time utc ≡ some (time_at (day_number y m d) s)

broken_down-IsReturned :
    (yday : Bool) {y m d : ℕ} (s : ℕ)
    → IsDate y m d
    → day_number y m d ≤ max_day_number
    → s < seconds_per_day
    → IsReturned yday y m d s
unfolding broken_down
broken_down-IsReturned true {y} {m} {d} s date low hs = record {
  utc = record (utc_of y m d s) { yday = day_number y m d - day_number y 1 1 };
  made =
      rw
        (
          get_year_month_day-date_of (day_number y m d) low,
          date_of-day_number y m d date,
          get_julian_day_number-first_day date low,
        )
        refl;
  back = from_utc_fields_lem s date low hs;
}
broken_down-IsReturned false {y} {m} {d} s date low hs = record {
  utc = utc_of y m d s;
  made = rw (get_year_month_day-date_of (day_number y m d) low, date_of-day_number y m d date) refl;
  back = from_utc_fields_lem s date low hs;
}

-- 1 January of the year 1, 00:00:00.
abbrev pub first_time : ℤ
first_time = neg_ℕ 62135596800

-- The end of the year 1000000.
abbrev pub end_time : ℤ
end_time = pos 31494816403200

before_first :
    (a : ℤ) (s : ℕ)
    → s < seconds_per_day
    → ltb_ℤ (a *ℕ seconds_per_day +ℤ pos s) first_time ≡ false
    → ltb_ℤ (a *ℕ seconds_per_day +ℤ pos s) end_time ≡ true
    → (n : ℕ) × (n < 365242500) × (a ≡ pos (1721426 + n) -ℤ pos julian_day_of_1970)
before_first (pos a) s hs h k = (a + 719162, ground arith, ground arith)
before_first (negsuc a) s hs h k = (719161 - a, ground arith, ground arith)

is_within-end_time :
    (t : ℤ) → ltb_ℤ t first_time ≡ false → ltb_ℤ t end_time ≡ true → is_within t ≡ true
is_within-end_time (pos n) h k = ground arith
is_within-end_time (negsuc n) h k = ground arith

-- Of every time from the year 1 to the year 1000000, the day and the seconds in it.
day_of :
    (t : ℤ)
    → ltb_ℤ t first_time ≡ false
    → ltb_ℤ t end_time ≡ true
    → (y m d s : ℕ) × IsDate y m d
      × (day_number y m d ≤ max_day_number)
      × (s < seconds_per_day)
      × (t ≡ time_at (day_number y m d) s)
day_of t h k =
    let (s, e, hs, same) = days_and_seconds-IsFloor t (is_within-end_time t h k) in
    let (n, low, from) =
      before_first (days_and_seconds t).0 s hs
        (subst (λ z. ltb_ℤ z first_time ≡ false) (sym same) h)
        (subst (λ z. ltb_ℤ z end_time ≡ true) (sym same) k) in
    let (y, m, d, date, number) = day_number-onto n in
    (
      y,
      m,
      d,
      s,
      date,
      omega (arith, low, number),
      hs,
      sym same
          ∙ ap (λ a. a *ℕ seconds_per_day +ℤ pos s)
              (from ∙ ap (λ j. pos j -ℤ pos julian_day_of_1970) (sym number)),
    )

-- From 1 January of the year 1 to the end of the year 1000000, `toUtcTime` succeeds on every time,
-- negative ones included, and `fromUtcTime` of what it makes is that time.
pub from_utc_time-to_utc_time :
    (yday : Bool) (t : ℤ)
    → ltb_ℤ t first_time ≡ false
    → ltb_ℤ t end_time ≡ true
    → (utc : Tm) × (to_utc_time yday t ≡ some utc) × (from_utc_time utc ≡ some t)
from_utc_time-to_utc_time yday t h k =
    let (y, m, d, s, date, low, hs, same) = day_of t h k in
    let r = broken_down-IsReturned yday s date low hs in
    (
      r.utc,
      ap (to_utc_time yday) same ∙ to_utc_time_at yday (day_number y m d) s hs low ∙ r.made,
      r.back ∙ ap some (sym same),
    )
