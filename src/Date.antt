-- ===== src/Date.antt =====
-- muduo/base/Date.h and Date.cc: dates as Julian day numbers. Years and day numbers are not
-- negative; where an `int` overflows, or a term would be negative, the answer is `none`.
pub mod Calendar
pub mod Days
pub mod Bounds
use cs_note.Common.{
  ℕ, ◌+◌, ◌-◌, ◌*◌, ◌/◌, ◌%◌, ◌^◌, Bool, ◌&&◌, Option, none, some, ltb, if◌then◌else◌,
}

pub record YearMonthDay : Type 0 where
  pub year : ℕ
  pub month : ℕ
  pub day : ℕ

abbrev pub days_per_week : ℕ
days_per_week = 7

-- `int` has 32 bits.
abbrev pub is_int : ℕ → Bool
is_int n = ltb n (2 ^ 31)

-- The number that getJulianDayNumber computes.
unfoldable pub day_number : ℕ → ℕ → ℕ → ℕ
day_number year month day =
    let a = (14 - month) / 12 in
    let y = year + 4800 - a in
    let m = month + 12 * a - 3 in
    day + (153 * m + 2) / 5 + y * 365 + y / 4 - y / 100 + y / 400 - 32045

-- Of the sums that it forms, these are the largest; from 26 on a month makes `a` negative.
unfoldable pub get_julian_day_number : ℕ → ℕ → ℕ → Option ℕ
get_julian_day_number year month day =
    let a = (14 - month) / 12 in
    let y = year + 4800 - a in
    let m = month + 12 * a - 3 in
    if ltb month 26 && (is_int (year + 4800) && is_int (day + (153 * m + 2) / 5 + y * 365 + y / 4))
    then some (day_number year month day)
    else none

-- The date that getYearMonthDay computes.
unfoldable pub date_of : ℕ → YearMonthDay
date_of julian_day_number =
    let a = julian_day_number + 32044 in
    let b = (4 * a + 3) / 146097 in
    let c = a - (b * 146097) / 4 in
    let d = (4 * c + 3) / 1461 in
    let e = c - (1461 * d) / 4 in
    let m = (5 * e + 2) / 153 in
    record {
      year = b * 100 + d - 4800 + m / 10;
      month = m + 3 - 12 * (m / 10);
      day = e - (153 * m + 2) / 5 + 1;
    }

-- Its largest product is that of `b`.
unfoldable pub get_year_month_day : ℕ → Option YearMonthDay
get_year_month_day julian_day_number =
    if is_int (4 * (julian_day_number + 32044) + 3) then some (date_of julian_day_number) else none

-- `Date::valid`
abbrev pub valid : ℕ → Bool
valid julian_day_number = ltb 0 julian_day_number

unfoldable pub week_day : ℕ → ℕ
week_day julian_day_number = (julian_day_number + 1) % days_per_week
