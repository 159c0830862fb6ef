-- ===== src/Date/Days.antt =====
-- The numbers of base/Date.cc count the days of the calendar.
use cu_ber.Prelude.{ℕ, zero, suc, ◌+◌, ◌-◌, ◌%◌, ◌≤◌, ◌≡◌, refl, sym, ap, ◌∙◌, subst, arith}
use cu_ber.Date.{julian_day_number_of, YearMonthDay, year_month_day_of}
use cu_ber.Date.Calendar.{is_short, last_day, IsDate, next_day}
use cu_ber.Date.Months.{number_of, next_day-IsDate, number_of-next_day}
use cu_ber.Date.Parts.{
  march_year, day_of_year, day_of_year_range, julian_day_number_of-days_before, century_lem,
  in_century, year_lem, in_year, month_lem,
}

abbrev on_date : ℕ → ℕ → ℕ → YearMonthDay
on_date y m d = record { year = y; month = m; day = d }

date_eq : (t : YearMonthDay) {y m d : ℕ} → y ≡ t.year → m ≡ t.month → d ≡ t.day → on_date y m d ≡ t
date_eq t hy hm hd = rw (hy, hm, hd) refl

-- Without the bounds, the date is found.
pub year_month_day_of-julian_day_number_of :
    (t : YearMonthDay)
    → IsDate t
    → year_month_day_of (julian_day_number_of t.year t.month t.day) ≡ t
unfolding year_month_day_of
year_month_day_of-julian_day_number_of t v =
    let (short, long) = day_of_year_range t v in
    rw
      (
        julian_day_number_of-days_before t v,
        century_lem (march_year t) (day_of_year t) short long,
        in_century (march_year t) (day_of_year t),
        year_lem (march_year t) (day_of_year t) short long,
        in_year (march_year t % 100) (day_of_year t),
        month_lem t v,
      )
      (date_eq t (omega arith) (omega arith) (omega arith))
  where
    first : 1 ≤ t.month
    first = v.from_month

    last : t.month ≤ 12
    last = v.to_month

    lo : 1 ≤ t.day
    lo = v.from_day

    y : 1 ≤ t.year
    y = v.from_year

-- The number of the first day of the year 1.
abbrev pub first_number : ℕ
first_number = 1721426

-- A day of the calendar has the number.
record IsDayOf (n : ℕ) : Type 0 where
  day_of : YearMonthDay
  valid : IsDate day_of
  number : number_of day_of ≡ n

day_after : (n : ℕ) → IsDayOf n → IsDayOf (suc n)
day_after n r = record {
  day_of = next_day r.day_of;
  valid = next_day-IsDate r.day_of r.valid;
  number = number_of-next_day r.day_of r.valid ∙ ap suc r.number;
}

first_IsDate : IsDate (on_date 1 1 1)
unfolding last_day is_short
first_IsDate = record {
  from_year = omega arith;
  from_day = omega arith;
  to_day = omega arith;
  from_month = omega arith;
  to_month = omega arith;
}

first_day : IsDayOf first_number
unfolding julian_day_number_of
first_day = record { day_of = on_date 1 1 1; valid = first_IsDate; number = refl }

day_number : (k : ℕ) → IsDayOf (k + first_number)
day_number zero = first_day
day_number (suc k) = subst IsDayOf (omega arith) (day_after (k + first_number) (day_number k))

-- The two without the bounds.
pub year_month_day_of_counts :
    (n : ℕ)
    → first_number ≤ n
    → let t = year_month_day_of n in
      IsDate t
      × (julian_day_number_of t.year t.month t.day ≡ n)
      × (year_month_day_of (suc n) ≡ next_day t)
year_month_day_of_counts n h = (
  subst IsDate (sym found) r.valid,
  ap number_of found ∙ r.number,
  ap year_month_day_of (sym (number_of-next_day r.day_of r.valid ∙ ap suc r.number))
      ∙ year_month_day_of-julian_day_number_of (next_day r.day_of)
          (next_day-IsDate r.day_of r.valid)
      ∙ ap next_day (sym found),
)
  where
    r : IsDayOf n
    r = subst IsDayOf (omega arith) (day_number (n - first_number))

    found : year_month_day_of n ≡ r.day_of
    found =
        ap year_month_day_of (sym r.number)
        ∙ year_month_day_of-julian_day_number_of r.day_of r.valid
