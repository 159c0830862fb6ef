-- ===== src/Date/Tests.antt =====
-- Dates through base/Date.cc, and its theorems there.
use cu_ber.Prelude.{◌≡◌, refl, ℕ, none, some, arith}
use cu_ber.Date.{julian_day_number_of, get_julian_day_number, YearMonthDay, get_year_month_day}
use cu_ber.Date.Calendar.{has_leap_day, is_short, last_day, IsDate, next_day}
use cu_ber.Date.Bounds.{get_year_month_day-get_julian_day_number, get_year_month_day_counts}

abbrev leap_day : YearMonthDay
leap_day = record { year = 2000; month = 2; day = 29 }

-- `kJulianDayOf1970_01_01`
epoch : get_julian_day_number 1970 1 1 ≡ some 2440588
unfolding get_julian_day_number julian_day_number_of
epoch = refl

-- The first number that overflows.
overflow : get_year_month_day 536838868 ≡ none
unfolding get_year_month_day
overflow = refl

leap_day-IsDate : IsDate leap_day
unfolding last_day is_short has_leap_day
leap_day-IsDate = record {
  from_year = omega arith;
  from_day = omega arith;
  to_day = omega arith;
  from_month = omega arith;
  to_month = omega arith;
}

get_year_month_day-get_julian_day_number_example :
    (n : ℕ) × (get_julian_day_number 2000 2 29 ≡ some n) × (get_year_month_day n ≡ some leap_day)
get_year_month_day-get_julian_day_number_example =
    get_year_month_day-get_julian_day_number leap_day leap_day-IsDate (omega arith)

get_year_month_day_counts_example :
    (t : YearMonthDay) × IsDate t
    × (get_year_month_day 2451604 ≡ some t)
    × (get_julian_day_number t.year t.month t.day ≡ some 2451604)
    × (get_year_month_day 2451605 ≡ some (next_day t))
get_year_month_day_counts_example = get_year_month_day_counts 2451604 (omega arith) (omega arith)
