-- ===== src/Usage/Calendar.antt =====
-- The part of package time that the windows rest on: the calendar of an instant in UTC, and
-- `time.Date`. An instant counts nanoseconds since the start of year 1, a Monday.
pub mod Dates
use my_token.Base.{ℕ, ◌+◌, ◌-◌, ◌*◌, ◌/◌, ◌%◌, Bool, ◌&&◌, ◌||◌, not, ltb, eqb, if◌then◌else◌}

abbrev pub second : ℕ
second = 1000000000

abbrev pub hour : ℕ
hour = 3600 * second

abbrev pub day : ℕ
day = 24 * hour

-- Days before the year with this index; year 1 has index 0.
unfoldable pub days_before : ℕ → ℕ
days_before y = 365 * y + y / 4 - y / 100 + y / 400

unfoldable pub is_leap : ℕ → Bool
is_leap y = eqb ((y + 1) % 4) 0 && (not (eqb ((y + 1) % 100) 0) || eqb ((y + 1) % 400) 0)

-- Of `days` days into a cycle of 400 years: the years that have passed in it.
unfoldable pub cycle_year : ℕ → ℕ
cycle_year d =
    let centuries = d / 36524 - d / 36524 / 4 in
    let rest = d - 36524 * centuries in
    let fours = rest / 1461 in
    let left = rest - 1461 * fours in 100 * centuries + 4 * fours + (left / 365 - left / 365 / 4)

-- `t.Year()`, as an index, of the day with this number.
unfoldable pub year_of : ℕ → ℕ
year_of d = 400 * (d / 146097) + cycle_year (d % 146097)

-- `t.YearDay() - 1`
unfoldable pub year_day : ℕ → ℕ
year_day d = d - days_before (year_of d)

-- Days of a year before a month, numbered from 0; `leap` counts the day that February may have.
unfoldable pub days_before_month : ℕ → ℕ → ℕ
days_before_month leap m =
    if ltb m 1
    then 0
    else if ltb m 2
    then 31
    else if ltb m 3
    then 59 + leap
    else if ltb m 4
    then 90 + leap
    else if ltb m 5
    then 120 + leap
    else if ltb m 6
    then 151 + leap
    else if ltb m 7
    then 181 + leap
    else if ltb m 8
    then 212 + leap
    else if ltb m 9
    then 243 + leap
    else if ltb m 10
    then 273 + leap
    else if ltb m 11
    then 304 + leap
    else 334 + leap

unfoldable pub leap_days : ℕ → ℕ
leap_days y = if is_leap y then 1 else 0

-- The month of a day of the year.
unfoldable pub month_at : ℕ → ℕ → ℕ
month_at leap yd =
    if ltb yd 31
    then 0
    else if ltb yd (59 + leap)
    then 1
    else if ltb yd (90 + leap)
    then 2
    else if ltb yd (120 + leap)
    then 3
    else if ltb yd (151 + leap)
    then 4
    else if ltb yd (181 + leap)
    then 5
    else if ltb yd (212 + leap)
    then 6
    else if ltb yd (243 + leap)
    then 7
    else if ltb yd (273 + leap)
    then 8
    else if ltb yd (304 + leap)
    then 9
    else if ltb yd (334 + leap)
    then 10
    else 11

-- `t.Month() - 1`
unfoldable pub month_of : ℕ → ℕ
month_of d = month_at (leap_days (year_of d)) (year_day d)

-- `t.Day() - 1`
unfoldable pub month_day : ℕ → ℕ
month_day d = year_day d - days_before_month (leap_days (year_of d)) (month_of d)

-- `time.Date(y, m, d, 0, 0, 0, 0, time.UTC)`, with all three counted from 0.
unfoldable pub date : ℕ → ℕ → ℕ → ℕ
date y m d = (days_before y + days_before_month (leap_days y) m + d) * day

-- `t.Weekday()`: Sunday is 0.
unfoldable pub weekday : ℕ → ℕ
weekday d = (d + 1) % 7
