-- ===== src/Usage/Window.antt =====
-- The windows of the console (internal/domain/usage/summary.go). A window is its wire string.
pub mod Bounds
use my_token.Base.{
  ℕ, ◌+◌, ◌-◌, ◌*◌, ◌/◌, ◌%◌, Text, codes, ◌==◌, List, [], ◌∷◌, Option, none, some, if◌then◌else◌,
}
use my_token.Usage.Event.{Time}
use my_token.Usage.Calendar.{hour, day, date, year_of, month_of, month_day, weekday}

abbrev pub window_5h : Text
window_5h = codes "5h"

abbrev pub window_24h : Text
window_24h = codes "24h"

abbrev pub window_today : Text
window_today = codes "today"

abbrev pub window_week : Text
window_week = codes "week"

abbrev pub window_month : Text
window_month = codes "month"

abbrev pub window_year : Text
window_year = codes "year"

abbrev pub window_lifetime : Text
window_lifetime = codes "lifetime"

-- `Windows`
abbrev pub all_windows : List Text
all_windows =
    window_5h ∷ window_24h ∷ window_today ∷ window_week ∷ window_month ∷ window_year
    ∷ window_lifetime ∷ []

-- The loop of `ParseWindow`.
unfoldable pub find_window : Text → List Text → Option Text
find_window s [] = none
find_window s (w ∷ ws) = if w == s then some w else find_window s ws

unfoldable pub parse_window : Text → Option Text
unfolding find_window
parse_window s = find_window s all_windows

-- The midnight that a day starts with, written as the source writes it.
unfoldable pub start_of_day : Time → Time
start_of_day now = date (year_of (now / day)) (month_of (now / day)) (month_day (now / day))

-- Year 2000 has index 1999.
unfoldable pub start_of_lifetime : Time
start_of_lifetime = date 1999 0 0

-- `none` is the error for an unknown window. `now` is in UTC already.
unfoldable pub window_bounds : Text → Time → Option (Time × Time)
window_bounds w now =
    if w == window_5h
    then some (now - 5 * hour, now)
    else if w == window_24h
    then some (now - 24 * hour, now)
    else if w == window_today
    then some (start_of_day now, now)
    else if w == window_week
    then some (start_of_day now - (weekday (start_of_day now / day) + 6) % 7 * day, now)
    else if w == window_month
    then some (date (year_of (now / day)) (month_of (now / day)) 0, now)
    else if w == window_year
    then some (date (year_of (now / day)) 0 0, now)
    else if w == window_lifetime
    then some (start_of_lifetime, now)
    else none
