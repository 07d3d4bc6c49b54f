-- ===== src/Date/Days.antt =====
-- The day numbers of muduo/base/Date.cc are those of dates, without a gap.
use cs_note.Common.{
  ℕ, zero, suc, ◌+◌, ◌≡◌, refl, true, false, Bool-cases, inl, inr, ltb, ◌==◌, arith,
}
use cs_note.Date.{YearMonthDay, day_number}
use cs_note.Date.Calendar.{
  IsDate, is_leap, days_in, next_day, one-le-days_in, not_same, day_number-next_day,
}

day_after-IsDate :
    {y m d : ℕ} → IsDate y m d → ltb d (days_in (is_leap y) m) ≡ true → IsDate y m (d + 1)
day_after-IsDate date e = record {
  year_low = date.year_low;
  month_low = date.month_low;
  month_high = date.month_high;
  day_low = omega arith;
  day_high = ground arith;
}

month_after-IsDate : {y m d : ℕ} → IsDate y m d → (m == 12) ≡ false → IsDate y (m + 1) 1
month_after-IsDate {y} {m} date e = record {
  year_low = date.year_low;
  month_low = omega arith;
  month_high = omega (arith, date.month_high, not_same m 12 e);
  day_low = omega arith;
  day_high = one-le-days_in (is_leap y) (m + 1);
}

year_after-IsDate : (y : ℕ) → IsDate (y + 1) 1 1
year_after-IsDate y = record {
  year_low = omega arith;
  month_low = omega arith;
  month_high = omega arith;
  day_low = omega arith;
  day_high = omega arith;
}

-- The next day of a date is a date.
pub next_day-IsDate :
    {y m d : ℕ}
    → IsDate y m d
    → let n : YearMonthDay = next_day y m d in IsDate n.year n.month n.day
unfolding next_day
next_day-IsDate {y} {m} {d} date = elim (Bool-cases (ltb d (days_in (is_leap y) m))) [
  | inl e ↦ rw e (day_after-IsDate date e)
  | inr e ↦ elim (Bool-cases (m == 12)) [
    | inl f ↦ rw (e, f) (year_after-IsDate y)
    | inr f ↦ rw (e, f) (month_after-IsDate date f)
  ]
]

first_day : day_number 1 1 1 ≡ 1721426
unfolding day_number
first_day = refl

-- From 1 January of the year 1 on, every day number is that of a date.
pub day_number-onto : (n : ℕ) → (y m d : ℕ) × IsDate y m d × (day_number y m d ≡ 1721426 + n)
day_number-onto zero = (1, 1, 1, year_after-IsDate 0, first_day)
day_number-onto (suc n) =
    let (y, m, d, date, same) = day_number-onto n in
    let next : YearMonthDay = next_day y m d in
    (
      next.year,
      next.month,
      next.day,
      next_day-IsDate date,
      omega (arith, (day_number-next_day y m d date).0),
    )
