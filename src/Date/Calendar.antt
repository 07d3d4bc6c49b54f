-- ===== src/Date/Calendar.antt =====
-- The two conversions of muduo/base/Date.cc against the Gregorian calendar.
use cs_note.Common.{
  ℕ, ◌+◌, ◌-◌, ◌*◌, ◌/◌, ◌%◌, ◌≤◌, ◌<◌, ◌≡◌, refl, ap, ◌∙◌, le→leb, Bool-cases, sym, subst, ◌≢◌,
  ◌⊎◌, inl, inr, Bool, true, false, ◌&&◌, ◌||◌, not, if◌then◌else◌, ltb, leb, ◌==◌, all_below,
  all_below-lt, ==_iff, arith,
}
use cs_note.Date.{YearMonthDay, day_number, date_of, week_day}

abbrev pub is_leap : ℕ → Bool
is_leap y = (y % 4 == 0) && (not (y % 100 == 0) || (y % 400 == 0))

abbrev pub days_in : Bool → ℕ → ℕ
days_in leap m =
    if m == 2
    then if leap then 29 else 28
    else if (m == 4) || (m == 6) || (m == 9) || (m == 11)
    then 30
    else 31

-- A day of the calendar.
pub record IsDate (y m d : ℕ) : Type 0 where
  pub year_low : 1 ≤ y
  pub month_low : 1 ≤ m
  pub month_high : m ≤ 12
  pub day_low : 1 ≤ d
  pub day_high : d ≤ days_in (is_leap y) m

-- Years begin in March: the year of a month, the month in it and the day in it.
abbrev shift : ℕ → ℕ
shift m = (14 - m) / 12

abbrev march_month : ℕ → ℕ
march_month m = m + 12 * shift m - 3

abbrev march_day : ℕ → ℕ → ℕ
march_day m d = d - 1 + (153 * march_month m + 2) / 5

-- What has to hold of every day of a year.
abbrev day_fits : Bool → ℕ → ℕ → Bool
day_fits leap m d =
    (((5 * march_day m d + 2) / 153 == march_month m)
      && ((march_month m / 10 == shift m) && (march_month m + 3 - 12 * shift m == m)))
    && (leb (march_day m d) 364 || ((march_day m d == 365) && (leap && (shift m == 1))))

abbrev checked_day : Bool → ℕ → ℕ → Bool
checked_day leap m d = (m == 0) || (d == 0) || not (leb d (days_in leap m)) || day_fits leap m d

checked_days : (leap : Bool) → all_below 13 (λ m. all_below 32 (checked_day leap m)) ≡ true
unfolding all_below
checked_days true = refl
checked_days false = refl

checked : (leap : Bool) (m d : ℕ) → m < 13 → d < 32 → checked_day leap m d ≡ true
checked leap m d hm hd =
    all_below-lt 32 (checked_day leap m) d
      (all_below-lt 13 (λ n. all_below 32 (checked_day leap n)) m (checked_days leap) hm) hd

-- The day number before 1 March of the shifted year 0 is 32044 below 0.
abbrev days_before : ℕ → ℕ
days_before y = y * 365 + y / 4 - y / 100 + y / 400

century :
    (y e : ℕ)
    → e ≤ 364 ⊎ ((e ≡ 365) × (is_leap (y + 1) ≡ true))
    → (4 * (e + days_before y) + 3) / 146097 ≡ y / 100
century y e h = ground arith

rest_of_century :
    (y e : ℕ) → e + days_before y - (y / 100 * 146097) / 4 ≡ e + (365 * (y % 100) + y % 100 / 4)
rest_of_century y e = omega arith

year_of_century :
    (y e : ℕ)
    → e ≤ 364 ⊎ ((e ≡ 365) × (is_leap (y + 1) ≡ true))
    → (4 * (e + (365 * (y % 100) + y % 100 / 4)) + 3) / 1461 ≡ y % 100
year_of_century y e h = ground arith

day_of_year : (r e : ℕ) → e + (365 * r + r / 4) - (1461 * r) / 4 ≡ e
day_of_year r e = omega arith

-- The day of the year that `date_of` computes from.
from_day :
    (y e : ℕ)
    → e ≤ 364 ⊎ ((e ≡ 365) × (is_leap (y + 1) ≡ true))
    → (j : ℕ) → j + 32044 ≡ e + days_before y
    → date_of j ≡ record {
      year = y - 4800 + (5 * e + 2) / 153 / 10;
      month = (5 * e + 2) / 153 + 3 - 12 * ((5 * e + 2) / 153 / 10);
      day = e - (153 * ((5 * e + 2) / 153) + 2) / 5 + 1;
    }
unfolding date_of
from_day y e h j same =
    rw (same, century y e h, rest_of_century y e, year_of_century y e h, day_of_year (y % 100) e)
      (ap
        (λ z. record {
          year = z - 4800 + (5 * e + 2) / 153 / 10;
          month = (5 * e + 2) / 153 + 3 - 12 * ((5 * e + 2) / 153 / 10);
          day = e - (153 * ((5 * e + 2) / 153) + 2) / 5 + 1;
        })
        (omega arith))

record Fits (y m d : ℕ) : Type 0 where
  month_of : (5 * march_day m d + 2) / 153 ≡ march_month m
  shift_of : march_month m / 10 ≡ shift m
  month : march_month m + 3 - 12 * shift m ≡ m
  day : march_day m d - (153 * march_month m + 2) / 5 + 1 ≡ d
  last : march_day m d ≤ 364 ⊎ ((march_day m d ≡ 365) × (is_leap y ≡ true) × (shift m ≡ 1))

pub day_high_32 : (leap : Bool) (m d : ℕ) → d ≤ days_in leap m → d < 32
day_high_32 leap m d h = ground arith

day_fits-last :
    (leap : Bool) (m d : ℕ)
    → (leb (march_day m d) 364 || ((march_day m d == 365) && (leap && (shift m == 1)))) ≡ true
    → march_day m d ≤ 364 ⊎ ((march_day m d ≡ 365) × (leap ≡ true) × (shift m ≡ 1))
day_fits-last leap m d h = ground arith

or_last :
    (a b c f : Bool) → a ≡ false → b ≡ false → c ≡ true → (a || b || not c || f) ≡ true → f ≡ true
or_last a b c f ea eb ec h = ground arith

and_true : (a b : Bool) → (a && b) ≡ true → (a ≡ true) × (b ≡ true)
and_true a b h = ground arith

checked_day-day_fits :
    (leap : Bool) (m d : ℕ) → 1 ≤ m → m ≤ 12 → 1 ≤ d → d ≤ days_in leap m → day_fits leap m d ≡ true
checked_day-day_fits leap m d m1 m12 d1 h =
    let c : checked_day leap m d ≡ true = checked leap m d (omega arith) (day_high_32 leap m d h) in
    let a : (m == 0) ≡ false = ground arith in
    let b : (d == 0) ≡ false = ground arith in
    let e : leb d (days_in leap m) ≡ true = le→leb d (days_in leap m) h in
    or_last (m == 0) (d == 0) (leb d (days_in leap m)) (day_fits leap m d) a b e c

next_is_leap :
    (y m d : ℕ)
    → march_day m d ≤ 364 ⊎ ((march_day m d ≡ 365) × (is_leap y ≡ true) × (shift m ≡ 1))
    → march_day m d ≤ 364 ⊎ ((march_day m d ≡ 365) × (is_leap (y + 4800 - shift m + 1) ≡ true))
next_is_leap y m d (inl h) = inl h
next_is_leap y m d (inr (e, leap, s)) = inr (e, rw s (ground arith))

IsDate-Fits : {y m d : ℕ} → IsDate y m d → Fits y m d
IsDate-Fits {y} {m} {d} date =
    let f : day_fits (is_leap y) m d ≡ true =
      checked_day-day_fits (is_leap y) m d date.month_low date.month_high date.day_low
        date.day_high in
    let (g, l) = and_true _ _ f in
    let (a, bc) = and_true _ _ g in
    let (b, c) = and_true _ _ bc in
    let month : (5 * march_day m d + 2) / 153 ≡ march_month m = (==_iff _ _).0 a in
    record {
      month_of = month;
      shift_of = (==_iff _ _).0 b;
      month = (==_iff _ _).0 c;
      day = omega (arith, date.day_low);
      last = day_fits-last (is_leap y) m d l;
    }

-- Every date of the calendar, from the year 1 on, is read back from its Julian day number.
pub date_of-day_number :
    (y m d : ℕ)
    → IsDate y m d
    → date_of (day_number y m d) ≡ record { year = y; month = m; day = d }
unfolding day_number
date_of-day_number y m d date =
    let f : Fits y m d = IsDate-Fits date in
    let y' : ℕ = y + 4800 - shift m in
    from_day y' (march_day m d) (next_is_leap y m d f.last) (day_number y m d) (omega arith)
    ∙ rw (f.month_of, f.shift_of, f.month, f.day)
        (ap (λ z. record { year = z; month = m; day = d }) (omega (arith, date.year_low)))

-- The next day of the calendar.
unfoldable pub next_day : ℕ → ℕ → ℕ → YearMonthDay
next_day y m d =
    if ltb d (days_in (is_leap y) m)
    then record { year = y; month = m; day = d + 1 }
    else if m == 12
    then record { year = y + 1; month = 1; day = 1 }
    else record { year = y; month = m + 1; day = 1 }

-- The months but February end where the next one begins.
abbrev month_joins : Bool → ℕ → Bool
month_joins leap m =
    (m == 0)
    || (m == 2)
    || not true
    || ((march_day (m + 1) 1 == march_day m (days_in leap m) + 1) && (shift (m + 1) == shift m))

checked_months : (leap : Bool) → all_below 12 (month_joins leap) ≡ true
unfolding all_below
checked_months true = refl
checked_months false = refl

day_number_lem :
    (y m d : ℕ)
    → 1 ≤ y
    → 1 ≤ m
    → 1 ≤ d
    → day_number y m d + 32044 ≡ march_day m d + days_before (y + 4800 - shift m)
unfolding day_number
day_number_lem y m d hy hm hd = omega arith

february_end : (y : ℕ) → 1 ≤ y → day_number y 3 1 ≡ day_number y 2 (days_in (is_leap y) 2) + 1
unfolding day_number
february_end y h = ground arith

pub one-le-days_in : (leap : Bool) (m : ℕ) → 1 ≤ days_in leap m
one-le-days_in leap m = ground arith

month_end_joins :
    (y m : ℕ)
    → 1 ≤ y
    → 1 ≤ m
    → m < 12
    → (m == 2) ≡ false
    → day_number y (m + 1) 1 ≡ day_number y m (days_in (is_leap y) m) + 1
month_end_joins y m hy l h two =
    let zero_false : (m == 0) ≡ false = ground arith in
    let joins : month_joins (is_leap y) m ≡ true =
      all_below-lt 12 (month_joins (is_leap y)) m (checked_months (is_leap y)) h in
    let (a, b) = and_true _ _ (or_last (m == 0) (m == 2) true _ zero_false two refl joins) in
    let next : march_day (m + 1) 1 ≡ march_day m (days_in (is_leap y) m) + 1 = (==_iff _ _).0 a in
    let same : shift (m + 1) ≡ shift m = (==_iff _ _).0 b in
    let days : days_before (y + 4800 - shift (m + 1)) ≡ days_before (y + 4800 - shift m) =
      ap (λ z. days_before (y + 4800 - z)) same in
    omega (
      arith,
      next,
      days,
      day_number_lem y (m + 1) 1 hy (omega arith) (omega arith),
      day_number_lem y m (days_in (is_leap y) m) hy l (one-le-days_in (is_leap y) m),
    )

month_end :
    (y m : ℕ)
    → 1 ≤ y
    → 1 ≤ m
    → m < 12
    → day_number y (m + 1) 1 ≡ day_number y m (days_in (is_leap y) m) + 1
month_end y m hy l h = elim (Bool-cases (m == 2)) [
  | inl e ↦ rw ((==_iff m 2).0 e) (february_end y hy)
  | inr e ↦ month_end_joins y m hy l h e
]

day_after : (y m d : ℕ) → 1 ≤ y → 1 ≤ m → 1 ≤ d → day_number y m (d + 1) ≡ day_number y m d + 1
unfolding day_number
day_after y m d hy hm hd = omega arith

year_end : (y : ℕ) → 1 ≤ y → day_number (y + 1) 1 1 ≡ day_number y 12 31 + 1
unfolding day_number
year_end y h = omega arith

pub not_below : (a b : ℕ) → ltb a b ≡ false → b ≤ a
not_below a b h = ground arith

pub not_same : (a b : ℕ) → (a == b) ≡ false → a ≢ b
not_same a b h = ground arith

december_end :
    (y m d : ℕ) → IsDate y m d → m ≡ 12 → 31 ≤ d → day_number (y + 1) 1 1 ≡ day_number y m d + 1
december_end y m d date e h =
    let high : d ≤ 31 = subst (λ n. d ≤ days_in (is_leap y) n) e date.day_high in
    let last : d ≡ 31 = omega arith in rw (e, last) (year_end y date.year_low)

next_number :
    (y m d : ℕ)
    → IsDate y m d
    → let n : YearMonthDay = next_day y m d in
      day_number n.year n.month n.day ≡ day_number y m d + 1
unfolding next_day
next_number y m d date = elim (Bool-cases (ltb d (days_in (is_leap y) m))) [
  | inl e ↦ rw e (day_after y m d date.year_low date.month_low date.day_low)
  | inr e ↦
      let full : days_in (is_leap y) m ≤ d = not_below d (days_in (is_leap y) m) e in
      let last : d ≡ days_in (is_leap y) m = omega (arith, date.day_high) in
      elim (Bool-cases (m == 12)) [
        | inl f ↦
            let december : m ≡ 12 = (==_iff m 12).0 f in
            rw (e, f)
              (december_end y m d date december
                (subst (λ n. days_in (is_leap y) n ≤ d) december full))
        | inr f ↦
            rw (e, f)
              (month_end y m date.year_low date.month_low
                  (omega (arith, date.month_high, not_same m 12 f))
                ∙ ap (λ n. day_number y m n + 1) (sym last))
      ]
]

-- From the year 1 on, the number of the next day of the calendar is greater by 1, and its day of the week is the next
-- one of the seven.
pub day_number-next_day :
    (y m d : ℕ)
    → IsDate y m d
    → let n : YearMonthDay = next_day y m d in
      (day_number n.year n.month n.day ≡ day_number y m d + 1)
      × (week_day (day_number n.year n.month n.day) ≡ (week_day (day_number y m d) + 1) % 7)
unfolding week_day
day_number-next_day y m d date = (next_number y m d date, omega (arith, next_number y m d date))
