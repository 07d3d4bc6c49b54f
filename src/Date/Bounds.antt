-- ===== src/Date/Bounds.antt =====
-- The dates for which the `int`s of muduo/base/Date.cc do not overflow.
use cs_note.Common.{ℕ, ◌+◌, ◌-◌, ◌*◌, ◌/◌, ◌^◌, ◌≤◌, ◌<◌, ◌≡◌, some, refl, ap, ◌∙◌, lt→ltb, arith}
use cs_note.Date.{day_number, get_julian_day_number, date_of, get_year_month_day}
use cs_note.Date.Calendar.{IsDate, is_leap, day_high_32, date_of-day_number}

-- The day numbers up to here do.
abbrev pub max_day_number : ℕ
max_day_number = 536838867

pub get_julian_day_number-day_number :
    {y m d : ℕ}
    → IsDate y m d
    → day_number y m d ≤ max_day_number + 400
    → get_julian_day_number y m d ≡ some (day_number y m d)
unfolding get_julian_day_number day_number
get_julian_day_number-day_number {y} {m} {d} date h =
    let day = day_high_32 (is_leap y) m d date.day_high in
    let a : ℕ = (14 - m) / 12 in
    let y' : ℕ = y + 4800 - a in
    let sum : ℕ = d + (153 * (m + 12 * a - 3) + 2) / 5 + y' * 365 + y' / 4 in
    let month : m < 26 = omega (arith, date.month_high) in
    let year : y + 4800 < 2 ^ 31 = omega (arith, h) in
    let low : sum < 2 ^ 31 = omega (arith, h) in
    rw (lt→ltb m 26 month, lt→ltb (y + 4800) (2 ^ 31) year, lt→ltb sum (2 ^ 31) low) refl

pub get_year_month_day-date_of :
    (j : ℕ) → j ≤ max_day_number → get_year_month_day j ≡ some (date_of j)
unfolding get_year_month_day
get_year_month_day-date_of j h = ground (arith, h)

pub day_number-year : {y m d : ℕ} → IsDate y m d → y ≤ 1000000 → day_number y m d ≤ max_day_number
unfolding day_number
day_number-year {y} {m} {d} date h =
    omega (arith, day_high_32 (is_leap y) m d date.day_high, date.month_high, date.month_low, h)

first_day-IsDate : {y : ℕ} → 1 ≤ y → IsDate y 1 1
first_day-IsDate low = record {
  year_low = low;
  month_low = omega arith;
  month_high = omega arith;
  day_low = omega arith;
  day_high = omega arith;
}

first_day_low :
    (y m d : ℕ)
    → 1 ≤ m
    → m ≤ 12
    → day_number y m d ≤ max_day_number
    → day_number y 1 1 ≤ max_day_number + 400
unfolding day_number
first_day_low y m d a b h = omega arith

-- So do the first days of their years.
pub get_julian_day_number-first_day :
    {y m d : ℕ}
    → IsDate y m d
    → day_number y m d ≤ max_day_number
    → get_julian_day_number y 1 1 ≡ some (day_number y 1 1)
get_julian_day_number-first_day {y} {m} {d} date h =
    get_julian_day_number-day_number (first_day-IsDate date.year_low)
      (first_day_low y m d date.month_low date.month_high h)

-- A date of the calendar in the years from 1 to 1000000 has a Julian day number, and is read back from it.
pub get_year_month_day-get_julian_day_number :
    (y m d : ℕ)
    → IsDate y m d
    → y ≤ 1000000
    → (j : ℕ) × (get_julian_day_number y m d ≡ some j)
      × (get_year_month_day j ≡ some (record { year = y; month = m; day = d }))
get_year_month_day-get_julian_day_number y m d date h =
    let low = day_number-year date h in
    (
      day_number y m d,
      get_julian_day_number-day_number date (omega (arith, low)),
      get_year_month_day-date_of (day_number y m d) low ∙ ap some (date_of-day_number y m d date),
    )
