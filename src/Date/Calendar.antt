-- ===== src/Date/Calendar.antt =====
-- The Gregorian calendar, which base/Date.cc computes with: the lengths of the months and the order of
-- the days.
use cu_ber.Prelude.{ℕ, suc, ◌%◌, ◌≤◌, Bool, not, ◌&&◌, ◌||◌, ltb, ◌==◌, if◌then◌else◌}
use cu_ber.Date.{YearMonthDay}

unfoldable pub has_leap_day : ℕ → Bool
has_leap_day y = (y % 400 == 0) || ((y % 4 == 0) && not (y % 100 == 0))

-- April, June, September and November.
unfoldable pub is_short : ℕ → Bool
is_short m = (m == 4) || ((m == 6) || ((m == 9) || (m == 11)))

unfoldable pub last_day : ℕ → ℕ → ℕ
last_day y m =
    if is_short m then 30 else if not (m == 2) then 31 else if has_leap_day y then 29 else 28

pub record IsDate (t : YearMonthDay) : Type 0 where
  pub from_year : 1 ≤ t.year
  pub from_day : 1 ≤ t.day
  pub to_day : t.day ≤ last_day t.year t.month
  pub from_month : 1 ≤ t.month
  pub to_month : t.month ≤ 12

unfoldable pub next_day : YearMonthDay → YearMonthDay
next_day t =
    if ltb t.day (last_day t.year t.month)
    then record t { day = suc t.day }
    else if ltb t.month 12
    then record t { month = suc t.month; day = 1 }
    else record { year = suc t.year; month = 1; day = 1 }
