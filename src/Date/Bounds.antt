-- ===== src/Date/Bounds.antt =====
-- Both conversions of base/Date.cc, with the bounds of `int`.
use cu_ber.Prelude.{ℕ, suc, ◌≤◌, ◌<◌, ◌≡◌, ap, ◌∙◌, arith, some}
use cu_ber.Date.{
  julian_day_number_of, get_julian_day_number, YearMonthDay, year_month_day_of, get_year_month_day,
}
use cu_ber.Date.Calendar.{last_day, IsDate, next_day}
use cu_ber.Date.Months.{number_of}
use cu_ber.Date.Days.{
  first_number, year_month_day_of-julian_day_number_of, year_month_day_of_counts,
}

-- The last number for which `4 * a + 3` fits into an `int`, and a year that ends before it.
abbrev last_number : ℕ
last_number = 536838867

abbrev last_year : ℕ
last_year = 1465000

date_fits : (n : ℕ) → n ≤ last_number → get_year_month_day n ≡ some (year_month_day_of n)
unfolding get_year_month_day
date_fits n h = ground arith

sum_fits :
    (t : YearMonthDay)
    → IsDate t
    → number_of t ≤ last_number
    → get_julian_day_number t.year t.month t.day ≡ some (number_of t)
unfolding get_julian_day_number julian_day_number_of
sum_fits t v h = ground arith

day_small : (t : YearMonthDay) → IsDate t → t.day ≤ 31
unfolding last_day
day_small t v = ground arith

number_small : (t : YearMonthDay) → IsDate t → t.year ≤ last_year → number_of t ≤ last_number
unfolding julian_day_number_of
number_small t v h = omega (arith, h, day_small t v, v.from_year, v.from_month, v.to_month)

-- `getYearMonthDay` finds the date whose number `getJulianDayNumber` computed, and neither overflows,
-- for every date of the Gregorian calendar from the year 1 to the year 1465000.
pub get_year_month_day-get_julian_day_number :
    (t : YearMonthDay)
    → IsDate t
    → t.year ≤ last_year
    → (n : ℕ) × (get_julian_day_number t.year t.month t.day ≡ some n)
      × (get_year_month_day n ≡ some t)
get_year_month_day-get_julian_day_number t v h =
    let small = number_small t v h in
    (
      number_of t,
      sum_fits t v small,
      date_fits (number_of t) small ∙ ap some (year_month_day_of-julian_day_number_of t v),
    )

-- The numbers from 1721426, that of the first day of the year 1, to 536838866, behind which an `int`
-- overflows, are the days of the calendar in order: `getYearMonthDay` finds a date of the calendar for
-- each, `getJulianDayNumber` computes the number from it, and the date of the next number is the next
-- day.
pub get_year_month_day_counts :
    (n : ℕ)
    → first_number ≤ n
    → n < last_number
    → (t : YearMonthDay) × IsDate t
      × (get_year_month_day n ≡ some t)
      × (get_julian_day_number t.year t.month t.day ≡ some n)
      × (get_year_month_day (suc n) ≡ some (next_day t))
get_year_month_day_counts n lo hi =
    let (valid, number, next) = year_month_day_of_counts n lo in
    (
      year_month_day_of n,
      valid,
      date_fits n (omega arith),
      sum_fits (year_month_day_of n) valid (omega (arith, number)) ∙ ap some number,
      date_fits (suc n) (omega arith) ∙ ap some next,
    )
