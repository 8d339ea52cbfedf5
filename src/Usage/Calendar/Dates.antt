-- ===== src/Usage/Calendar/Dates.antt =====
-- Lemmas on the calendar of package time, as Usage/Calendar writes it.
use my_token.Base.{ℕ, ◌+◌, ◌*◌, ◌/◌, ◌%◌, ◌≤◌, ◌<◌, ◌≡◌, arith}
use my_token.Usage.Calendar.{
  days_before, is_leap, cycle_year, year_of, days_before_month, leap_days, month_at,
}

cycle_year_bounds :
    (d : ℕ)
    → d < 146097
    → (days_before (cycle_year d) ≤ d) × (d < days_before (cycle_year d + 1)) × (cycle_year d < 400)
unfolding cycle_year days_before
cycle_year_bounds d h = omega arith

-- A year that starts before the end of another is no later one.
days_before_cancel : (y z : ℕ) → days_before y < days_before (z + 1) → y ≤ z
unfolding days_before
days_before_cancel y z h = omega arith

days_before_cycle : (q y : ℕ) → days_before (400 * q + y) ≡ 146097 * q + days_before y
unfolding days_before
days_before_cycle q y = omega arith

-- A day lies in its year.
pub year_of_bounds : (d : ℕ) → (days_before (year_of d) ≤ d) × (d < days_before (year_of d + 1))
unfolding year_of days_before
year_of_bounds d =
    let (low, high, _) = cycle_year_bounds (d % 146097) (omega arith) in
    (
      omega (arith, days_before_cycle (d / 146097) (cycle_year (d % 146097))),
      omega (arith, days_before_cycle (d / 146097) (cycle_year (d % 146097) + 1)),
    )

-- No other year holds it.
pub year_of_unique : (d y : ℕ) → days_before y ≤ d → d < days_before (y + 1) → year_of d ≡ y
year_of_unique d y low high =
    let (l, h) = year_of_bounds d in
    let early = days_before_cancel (year_of d) y (omega arith) in
    let late = days_before_cancel y (year_of d) (omega arith) in omega arith

-- Leap years have a day more.
pub days_before_next : (y : ℕ) → days_before (y + 1) ≡ days_before y + 365 + leap_days y
unfolding days_before leap_days is_leap
days_before_next y = ground arith

pub leap_days-le : (y : ℕ) → leap_days y ≤ 1
unfolding leap_days
leap_days-le y = ground arith

pub month_at-le : (leap yd : ℕ) → days_before_month leap (month_at leap yd) ≤ yd
unfolding days_before_month month_at
month_at-le leap yd = ground arith

-- Between the first of the month and a day of it all days have its month.
pub month_at_same :
    (leap yd r : ℕ)
    → days_before_month leap (month_at leap yd) ≤ r
    → r ≤ yd
    → month_at leap r ≡ month_at leap yd
unfolding days_before_month month_at
month_at_same leap yd r low high = ground arith

-- A day between the first of its year and a day of that year has the same year.
pub year_of_same : (d r : ℕ) → days_before (year_of d) ≤ r → r ≤ d → year_of r ≡ year_of d
year_of_same d r low high =
    let (l, h) = year_of_bounds d in year_of_unique r (year_of d) low (omega arith)
