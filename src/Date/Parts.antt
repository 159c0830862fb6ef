-- ===== src/Date/Parts.antt =====
-- The parts of a Julian day number in base/Date.cc: years start in March, so that a leap day is the
-- last one.
use cu_ber.Prelude.{ℕ, suc, ◌+◌, ◌-◌, ◌*◌, ◌/◌, ◌%◌, ◌≤◌, ◌≡◌, ◌≢◌, ◌⊎◌, arith}
use cu_ber.Date.{julian_day_number_of, YearMonthDay}
use cu_ber.Date.Calendar.{has_leap_day, is_short, last_day, IsDate}

-- The days of the years before a year.
abbrev pub days_before : ℕ → ℕ
days_before y = y * 365 + y / 4 - y / 100 + y / 400

-- The year ends in a leap day.
abbrev pub IsLong : ℕ → Type 0
IsLong y = (suc y % 4 ≡ 0) × ((suc y % 100 ≢ 0) ⊎ (suc y % 400 ≡ 0))

abbrev pub march_year : YearMonthDay → ℕ
march_year t = t.year + 4800 - (14 - t.month) / 12

abbrev pub march_month : YearMonthDay → ℕ
march_month t = t.month + 12 * ((14 - t.month) / 12) - 3

abbrev pub day_of_year : YearMonthDay → ℕ
day_of_year t = t.day - 1 + (153 * march_month t + 2) / 5

pub day_of_year_range :
    (t : YearMonthDay)
    → IsDate t
    → (day_of_year t ≤ 365) × (day_of_year t ≡ 365 → IsLong (march_year t))
unfolding last_day is_short has_leap_day
day_of_year_range t v = ground arith

pub julian_day_number_of-days_before :
    (t : YearMonthDay)
    → IsDate t
    → julian_day_number_of t.year t.month t.day + 32044 ≡ day_of_year t + days_before (march_year t)
unfolding julian_day_number_of
julian_day_number_of-days_before t v = ground arith

pub century_lem :
    (y n : ℕ) → n ≤ 365 → (n ≡ 365 → IsLong y) → (4 * (n + days_before y) + 3) / 146097 ≡ y / 100
century_lem y n h long = ground arith

pub in_century :
    (y n : ℕ) → n + days_before y - y / 100 * 146097 / 4 ≡ n + y % 100 * 365 + y % 100 / 4
in_century y n = omega arith

pub year_lem :
    (y n : ℕ)
    → n ≤ 365
    → (n ≡ 365 → IsLong y)
    → (4 * (n + y % 100 * 365 + y % 100 / 4) + 3) / 1461 ≡ y % 100
year_lem y n h long = ground arith

pub in_year : (k n : ℕ) → n + k * 365 + k / 4 - 1461 * k / 4 ≡ n
in_year k n = omega arith

pub month_lem : (t : YearMonthDay) → IsDate t → (5 * day_of_year t + 2) / 153 ≡ march_month t
unfolding last_day is_short has_leap_day
month_lem t v = ground arith
