-- ===== src/Usage/Window/Bounds.antt =====
-- Where each window starts (internal/domain/usage/summary.go, WindowBounds).
use my_token.Base.{
  ℕ, ◌+◌, ◌-◌, ◌*◌, ◌/◌, ◌%◌, ◌≤◌, ◌<◌, ◌≡◌, Text, ◌==◌, ==_iff, ap, Option, none, some, arith, ◌⊎◌,
}
use my_token.Usage.Event.{Time}
use my_token.Usage.Calendar.{
  day, date, days_before, year_of, month_of, month_at, month_day, year_day, weekday,
  days_before_month, leap_days,
}
use my_token.Usage.Calendar.Dates.{year_of_bounds, year_of_same, month_at-le, month_at_same}
use my_token.Usage.Window.{
  window_5h, window_24h, window_today, window_week, window_month, window_year, window_lifetime,
  parse_window, start_of_day, start_of_lifetime, window_bounds,
}

-- The midnight is the start of the day that `now` lies in.
start_of_day_lem : (now : Time) → start_of_day now ≡ now / day * day
unfolding start_of_day date month_day month_of year_day
start_of_day_lem now =
    let d = now / day in
    omega
      (arith, year_of_bounds d, month_at-le (leap_days (year_of d)) (d - days_before (year_of d)))

-- The first day of the month of a day.
first_of_month : ℕ → ℕ
first_of_month d = days_before (year_of d) + days_before_month (leap_days (year_of d)) (month_of d)

first_of_month-le : (d : ℕ) → first_of_month d ≤ d
unfolding first_of_month month_of year_day
first_of_month-le d =
    omega
      (arith, year_of_bounds d, month_at-le (leap_days (year_of d)) (d - days_before (year_of d)))

first_of_month_year : (d : ℕ) → year_of (first_of_month d) ≡ year_of d
unfolding first_of_month
first_of_month_year d = year_of_same d (first_of_month d) (omega arith) (first_of_month-le d)

first_of_month_month : (d : ℕ) → month_of (first_of_month d) ≡ month_of d
unfolding month_of year_day first_of_month
first_of_month_month d =
    let y = year_of d in
    let yd = d - days_before y in
    let first = days_before_month (leap_days y) (month_at (leap_days y) yd) in
    let e : days_before y + first - days_before y ≡ first = omega arith in
    rw (first_of_month_year d)
      (rw e (month_at_same (leap_days y) yd first (omega arith) (month_at-le (leap_days y) yd)))

first_of_month_day : (d : ℕ) → month_day (first_of_month d) ≡ 0
unfolding month_day year_day
first_of_month_day d =
    rw (first_of_month_year d, first_of_month_month d) (unfold first_of_month in omega arith)

-- The first day of the year of a day.
first_of_year_year : (d : ℕ) → year_of (days_before (year_of d)) ≡ year_of d
first_of_year_year d =
    let (low, high) = year_of_bounds d in year_of_same d (days_before (year_of d)) (omega arith) low

start_of_week_lem :
    (now : Time)
    → start_of_day now - (weekday (start_of_day now / day) + 6) % 7 * day
      ≡ (now / day - now / day % 7) * day
unfolding weekday
start_of_week_lem now = rw (start_of_day_lem now) (omega arith)

date_month_lem : (d : ℕ) → date (year_of d) (month_of d) 0 ≡ first_of_month d * day
unfolding date first_of_month
date_month_lem d = omega arith

date_year_lem : (d : ℕ) → date (year_of d) 0 0 ≡ days_before (year_of d) * day
unfolding date days_before_month
date_year_lem d = omega arith

first_of_year_day : (d : ℕ) → year_day (days_before (year_of d)) ≡ 0
unfolding year_day
first_of_year_day d = rw (first_of_year_year d) (omega arith)

week_starts_monday : (d : ℕ) → weekday (d - d % 7) ≡ 1
unfolding weekday
week_starts_monday d = omega arith

-- Today starts at the midnight before now; the week on the Monday of the last seven days; the
-- month on day 1 of the month and year of today; the year on its first day. All end now.
pub window_bounds_calendar :
    (now : Time)
    → let d = now / day in
      (window_bounds window_today now ≡ some (d * day, now))
      × ((monday : ℕ) × (window_bounds window_week now ≡ some (monday * day, now))
          × (weekday monday ≡ 1)
          × (monday ≤ d)
          × (d < monday + 7))
      × ((first : ℕ) × (window_bounds window_month now ≡ some (first * day, now))
          × (first ≤ d)
          × (year_of first ≡ year_of d)
          × (month_of first ≡ month_of d)
          × (month_day first ≡ 0))
      × ((first : ℕ) × (window_bounds window_year now ≡ some (first * day, now))
          × (first ≤ d)
          × (year_of first ≡ year_of d)
          × (year_day first ≡ 0))
unfolding window_bounds ◌==◌
window_bounds_calendar now =
    let d = now / day in
    let (low, high) = year_of_bounds d in
    (
      ap (λ s. some (s, now)) (start_of_day_lem now),
      (
        d - d % 7,
        ap (λ s. some (s, now)) (start_of_week_lem now),
        week_starts_monday d,
        omega arith,
        omega arith,
      ),
      (
        first_of_month d,
        ap (λ s. some (s, now)) (date_month_lem d),
        first_of_month-le d,
        first_of_month_year d,
        first_of_month_month d,
        first_of_month_day d,
      ),
      (
        days_before (year_of d),
        ap (λ s. some (s, now)) (date_year_lem d),
        low,
        first_of_year_year d,
        first_of_year_day d,
      ),
    )

-- The bounds end now and start no later.
abbrev pub EndsAt : Time → Option (Time × Time) → Type 0
EndsAt now none = ⊥
EndsAt now (some (start, end)) = (start ≤ end) × (end ≡ now)

-- From the year 2000 on, a wire string is a window exactly when `ParseWindow` takes it, which
-- returns it unchanged; its bounds then end now and start no later, and any other string has none.
pub parse_window_bounds :
    (s : Text) (now : Time)
    → start_of_lifetime ≤ now
    → ((parse_window s ≡ some s) × EndsAt now (window_bounds s now))
      ⊎ ((parse_window s ≡ none) × (window_bounds s now ≡ none))
unfolding parse_window window_bounds
parse_window_bounds s now h = ground (
  arith,
  ==_iff window_5h s,
  ==_iff s window_5h,
  ==_iff window_24h s,
  ==_iff s window_24h,
  ==_iff window_today s,
  ==_iff s window_today,
  ==_iff window_week s,
  ==_iff s window_week,
  ==_iff window_month s,
  ==_iff s window_month,
  ==_iff window_year s,
  ==_iff s window_year,
  ==_iff window_lifetime s,
  ==_iff s window_lifetime,
  start_of_day_lem now,
  date_month_lem (now / day),
  first_of_month-le (now / day),
  date_year_lem (now / day),
  year_of_bounds (now / day),
)
