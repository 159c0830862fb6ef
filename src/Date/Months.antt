-- ===== src/Date/Months.antt =====
-- The number of base/Date.cc for a day and for the day before it.
use cu_ber.Prelude.{ℕ, suc, ◌≤◌, ◌<◌, ◌≡◌, arith}
use cu_ber.Date.{julian_day_number_of, YearMonthDay}
use cu_ber.Date.Calendar.{has_leap_day, is_short, last_day, IsDate, next_day}

abbrev pub number_of : YearMonthDay → ℕ
number_of t = julian_day_number_of t.year t.month t.day

same_month :
    (y m d : ℕ) → 1 ≤ d → julian_day_number_of y m (suc d) ≡ suc (julian_day_number_of y m d)
unfolding julian_day_number_of
same_month y m d lo = omega arith

next_year : (y : ℕ) → julian_day_number_of (suc y) 1 1 ≡ suc (julian_day_number_of y 12 31)
unfolding julian_day_number_of
next_year y = omega arith

february :
    (y : ℕ) → 1 ≤ y → julian_day_number_of y 3 1 ≡ suc (julian_day_number_of y 2 (last_day y 2))
unfolding julian_day_number_of last_day is_short has_leap_day
february y h = ground arith

january : (y : ℕ) → julian_day_number_of y 2 1 ≡ suc (julian_day_number_of y 1 (last_day y 1))
unfolding julian_day_number_of last_day is_short has_leap_day
january y = ground arith

other_month :
    (y m : ℕ)
    → 3 ≤ m
    → m < 12
    → julian_day_number_of y (suc m) 1 ≡ suc (julian_day_number_of y m (last_day y m))
unfolding julian_day_number_of last_day is_short has_leap_day
other_month y m lo hi = ground arith

next_month :
    (y m : ℕ)
    → 1 ≤ y
    → 1 ≤ m
    → m < 12
    → julian_day_number_of y (suc m) 1 ≡ suc (julian_day_number_of y m (last_day y m))
next_month y m hy lo hi = ground (arith, january y, february y hy, other_month y m)

december : (y : ℕ) → last_day y 12 ≡ 31
unfolding last_day is_short
december y = ground arith

pub next_day-IsDate : (t : YearMonthDay) → IsDate t → IsDate (next_day t)
unfolding next_day last_day is_short has_leap_day
next_day-IsDate t v = ground arith

-- The number of the next day is the next number.
pub number_of-next_day : (t : YearMonthDay) → IsDate t → number_of (next_day t) ≡ suc (number_of t)
unfolding next_day
number_of-next_day t v = ground (
  arith,
  same_month t.year t.month t.day v.from_day,
  next_month t.year t.month v.from_year v.from_month,
  next_year t.year,
  december t.year,
)
