-- ===== src/Zone.antt =====
-- muduo/base/TimeZone.h and TimeZone.cc: times broken down by the calendar, in UTC and in the zones
-- of a zone file. `time_t` and the fields of `struct tm` are signed numbers; `toUtcTime` makes an `int`
-- of the days. The dates are those of Date, where a day number and a year are not negative: on others,
-- and where an `int` overflows, `to_utc_time` and `from_utc_time` answer `none`.
pub mod Utc
pub mod Local
pub mod File
use cs_note.Common.{
  ℕ, ◌+◌, ◌-◌, ◌^◌, ltb, List, codes, [], ◌*◌, ◌/◌, ◌%◌, Bool, true, false, Option, none, some,
  if◌then◌else◌, ℤ, pos, negsuc, is_negative, magnitude, ◌+ℤ◌, ◌-ℤ◌, ◌*ℕ◌, ◌/ℕ◌, ◌%ℕ◌,
}
use mathlib.Core.Option
use cs_note.Date.{YearMonthDay, is_int, get_julian_day_number, get_year_month_day, week_day}

-- `is_dst` is whether `tm_isdst` is not 0.
pub record Tm : Type 0 where
  pub year : ℤ
  pub month : ℕ
  pub mday : ℕ
  pub hour : ℕ
  pub min : ℕ
  pub sec : ℕ
  pub wday : ℕ
  pub yday : ℕ
  pub is_dst : Bool
  pub gmt_offset : ℤ
  pub zone : List ℕ

abbrev pub seconds_per_day : ℕ
seconds_per_day = 24 * 60 * 60

-- `Date::kJulianDayOf1970_01_01`
abbrev pub julian_day_of_1970 : ℕ
julian_day_of_1970 = 2440588

-- A zeroed `struct tm`.
abbrev pub zeroed : Tm
zeroed = record {
  year = pos 0;
  month = 0;
  mday = 0;
  hour = 0;
  min = 0;
  sec = 0;
  wday = 0;
  yday = 0;
  is_dst = false;
  gmt_offset = pos 0;
  zone = [];
}

abbrev pub fill_hms : ℕ → Tm → Tm
fill_hms seconds utc =
    let minutes = seconds / 60 in
    record utc { sec = seconds % 60; min = minutes % 60; hour = minutes / 60 }

abbrev pub utc_zone : List ℕ
utc_zone = codes "GMT"

-- `static_cast<int>`: the low 32 bits, with their sign.
abbrev pub to_int : ℤ → ℤ
to_int (pos n) = let w = n % 2 ^ 32 in if ltb w (2 ^ 31) then pos w else negsuc (2 ^ 32 - 1 - w)
to_int (negsuc n) = let w = n % 2 ^ 32 in if ltb w (2 ^ 31) then negsuc w else pos (2 ^ 32 - 1 - w)

-- The seconds of the day, and its number from 1970-01-01 on: the division rounds towards zero.
unfoldable pub days_and_seconds : ℤ → ℤ × ℤ
days_and_seconds seconds_since_epoch =
    let seconds = to_int (seconds_since_epoch %ℕ seconds_per_day) in
    let days = to_int (seconds_since_epoch /ℕ seconds_per_day) in
    if is_negative seconds then (days -ℤ pos 1, seconds +ℤ pos seconds_per_day) else (days, seconds)

abbrev pub with_yday : Bool → ℕ → ℕ → Tm → Option Tm
with_yday true date year utc =
    Option.map (λ start_of_year. record utc { yday = date - start_of_year })
      (get_julian_day_number year 1 1)
with_yday false date year utc = some utc

abbrev pub with_date : Bool → ℕ → ℕ → YearMonthDay → Option Tm
with_date yday seconds date ymd = with_yday yday date ymd.year (record (fill_hms seconds zeroed) {
  zone = utc_zone;
  year = pos ymd.year -ℤ pos 1900;
  month = ymd.month - 1;
  mday = ymd.day;
  wday = week_day date;
})

abbrev pub then_do {ℓ κ} : {A : Type ℓ} {B : Type κ} → Option A → (A → Option B) → Option B
then_do none f = none
then_do (some a) f = f a

-- `toUtcTime` on a date and the seconds in the day.
unfoldable pub broken_down : Bool → ℕ → ℕ → Option Tm
broken_down yday seconds date = then_do (get_year_month_day date) (with_date yday seconds date)

abbrev pub with_natural {ℓ} : {A : Type ℓ} → ℤ → (ℕ → Option A) → Option A
with_natural (pos n) f = f n
with_natural (negsuc n) f = none

unfoldable pub to_utc_time : Bool → ℤ → Option Tm
to_utc_time yday seconds_since_epoch =
    let r = days_and_seconds seconds_since_epoch in
    with_natural (r.0 +ℤ pos julian_day_of_1970) (broken_down yday (magnitude r.1))

-- `fromUtcTime` of the six fields.
unfoldable pub from_utc_fields : ℤ → ℕ → ℕ → ℕ → ℕ → ℕ → Option ℤ
from_utc_fields year month day hour minute seconds =
    let seconds_in_day = hour * 3600 + minute * 60 + seconds in
    let time : ℕ → Option ℤ = λ date.
      if is_int seconds_in_day
      then some ((pos date -ℤ pos julian_day_of_1970) *ℕ seconds_per_day +ℤ pos seconds_in_day)
      else none in
    with_natural year (λ y. then_do (get_julian_day_number y month day) time)

abbrev pub from_utc_time : Tm → Option ℤ
from_utc_time utc =
    from_utc_fields (utc.year +ℤ pos 1900) (utc.month + 1) utc.mday utc.hour utc.min utc.sec
