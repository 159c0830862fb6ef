-- ===== src/Date.antt =====
-- base/Date.h and base/Date.cc: the Julian day number of a date and the date of a number. No difference
-- of the source is negative for a year from 1 on; where a sum does not fit into an `int`, the overflow
-- is undefined behaviour, and the model says `none`.
pub mod Calendar
pub mod Parts
pub mod Months
pub mod Days
pub mod Bounds
mod Tests
use cu_ber.Prelude.{◌^◌, Option, none, some, leb, if◌then◌else◌, ℕ, ◌+◌, ◌-◌, ◌*◌, ◌/◌}

-- INT_MAX
abbrev pub int_max : ℕ
int_max = 2 ^ 31 - 1

-- What `getJulianDayNumber` computes, if nothing overflows.
pub julian_day_number_of : ℕ → ℕ → ℕ → ℕ
julian_day_number_of year month day =
    let a = (14 - month) / 12 in
    let y = year + 4800 - a in
    let m = month + 12 * a - 3 in
    day + (153 * m + 2) / 5 + y * 365 + y / 4 - y / 100 + y / 400 - 32045

-- For a month from 1 to 12, the largest value on the way is the sum before the first difference.
pub get_julian_day_number : ℕ → ℕ → ℕ → Option ℕ
unfolding julian_day_number_of
get_julian_day_number year month day =
    let a = (14 - month) / 12 in
    let y = year + 4800 - a in
    let m = month + 12 * a - 3 in
    if leb (day + (153 * m + 2) / 5 + y * 365 + y / 4) int_max
    then some (julian_day_number_of year month day)
    else none

pub record YearMonthDay : Type 0 where
  pub year : ℕ
  pub month : ℕ
  pub day : ℕ

-- What `getYearMonthDay` computes, if nothing overflows.
pub year_month_day_of : ℕ → YearMonthDay
year_month_day_of julian_day_number =
    let a = julian_day_number + 32044 in
    let b = (4 * a + 3) / 146097 in
    let c = a - b * 146097 / 4 in
    let d = (4 * c + 3) / 1461 in
    let e = c - 1461 * d / 4 in
    let m = (5 * e + 2) / 153 in
    record {
      year = b * 100 + d - 4800 + m / 10;
      month = m + 3 - 12 * (m / 10);
      day = e - (153 * m + 2) / 5 + 1;
    }

-- The largest value on the way is the first dividend.
pub get_year_month_day : ℕ → Option YearMonthDay
unfolding year_month_day_of
get_year_month_day julian_day_number =
    let a = julian_day_number + 32044 in
    if leb (4 * a + 3) int_max then some (year_month_day_of julian_day_number) else none
