-- ===== src/Usage/Tests.antt =====
-- Examples for internal/domain/usage: each theorem at a concrete input.
use my_token.Base.{
  ℕ, ◌+◌, ◌-◌, ◌*◌, ◌/◌, ◌%◌, ◌^◌, Text, codes, eqb, ltb, Bool, true, false, ◌≡◌, refl, ◌⊎◌, ◌↔◌,
  ◌≤◌, ◌<◌, List, [], ◌∷◌, ◌++◌, Map, map, filter, length, foldl, Option, none, some, ok, err,
  Result, lookup, arith, contains, ◌≢◌, member, HasNoRepeats, All,
}
use my_token.Usage.Floats.{Float64, IsOrdered}
use my_token.Usage.Event.{Event, IngestEvent, Filter, GroupBy, key_for}
use my_token.Usage.Pricing.{model_family, pricing_table}
use my_token.Usage.Pricing.Family.{model_family_listed}
use my_token.Usage.Summary.{Totals, BreakdownRow, SummaryResult, aggregate, zero_float}
use my_token.Usage.Summary.Sums.{sum_tokens, aggregate_totals}
use my_token.Usage.Summary.Groups.{HasDistinctKeys, find_row, group_row, aggregate_groups}
use my_token.Usage.Summary.Order.{IsRanked, aggregate-IsRanked}
use my_token.Usage.Repo.{
  Driver, Failure, Tables, query_failed, insert_batch, insert_each, list_events_in_window,
}
use my_token.Usage.Repo.Filters.{is_wanted}
use my_token.Usage.Service.{repo, Ingested, ingest_batch, label_row, summary, windows}
use my_token.Usage.Service.Ingest.{IsIngested, ingest_batch_lem, ingest_batch_again}
use my_token.Usage.Service.Labels.{IsLabelled, label_row_lem}
use my_token.Usage.Service.Reads.{windows_totals, summary_scope}
use my_token.Usage.Calendar.{day, weekday, year_of, month_of, month_day, year_day}
use my_token.Usage.Window.{
  all_windows, window_today, window_week, window_month, window_year, window_bounds, parse_window,
  start_of_lifetime,
}
use my_token.Usage.Window.Bounds.{EndsAt, window_bounds_calendar, parse_window_bounds}

-- Decimals with eight digits, rounded down.
abbrev pub fixed : Float64 ℕ
fixed = record {
  of_int64 = λ n. n * 10 ^ 8;
  decimal = λ m k. m * 10 ^ (8 - k);
  plus = λ a b. a + b;
  times = λ a b. a * b / 10 ^ 8;
  over = λ a b. a * 10 ^ 8 / b;
  same = eqb;
  less = ltb;
}

fixed-IsOrdered : IsOrdered fixed
fixed-IsOrdered = record {
  same_of_not = λ a b h k. ground arith;
  less_asymm = λ a b h. ground arith;
  less_trans = λ a b c h k. ground arith;
  same_trans = λ a b c h k. ground arith;
  same_symm = λ a b h. ground arith;
  less_same = λ a b c h k. ground arith;
  same_less = λ a b c h k. ground arith;
}

abbrev unchanged : Text → Text
unchanged s = s

abbrev reported : Text → Text → Text → IngestEvent
reported id actor machine = record {
  id = codes "m" ++ id;
  session_id = codes "s";
  actor = actor;
  path = codes "/repo";
  machine = machine;
  model = codes "claude-opus-4-5";
  scan_root = codes "/scan";
  input_tokens = 10;
  output_tokens = 20;
  cache_read_input_tokens = 30;
  cache_creation_input_tokens = 40;
  timestamp = 3600;
}

abbrev stored : Text → Text → Text → ℕ → Event ℕ
stored id actor machine cost = record {
  id = codes "m" ++ id;
  session_id = codes "s";
  actor = actor;
  path = codes "/repo";
  machine = machine;
  model = codes "claude-opus-4-5";
  scan_root = codes "/scan";
  input_tokens = 10;
  output_tokens = 20;
  cache_read_input_tokens = 30;
  cache_creation_input_tokens = 40;
  cost = cost;
  source = codes "claude_code";
  created_at = 3600;
}

-- Three events: two of one machine, one whose path the path breakdown leaves out.
abbrev events : List (Event ℕ)
events =
    stored (codes "1") (codes "ann") (codes "A") 5
    ∷ stored (codes "2") (codes "/repo") (codes "B") 9
    ∷ stored (codes "3") (codes "bob") (codes "A") 7
    ∷ []

abbrev all_work : Driver
all_work = record {
  begins = true;
  executes = λ i. true;
  rolls_back = true;
  commits = true;
  writes = true;
  reads_events = true;
  reads_machines = true;
  reads_scan_roots = true;
}

abbrev tables : Tables ℕ
tables = record { usage_events = events; machines = []; scan_roots = [] }

abbrev batch : List IngestEvent
batch =
    reported (codes "3") (codes "bob") (codes "A")
    ∷ reported (codes "4") (codes "ann") (codes "A")
    ∷ []

abbrev everything : Filter
everything = record { machine = []; scan_root = codes "A:/scan" }

aggregate_totals_example :
    ((aggregate fixed events GroupBy.path).totals.tokens ≡ sum_tokens events % 2 ^ 64)
    × ((aggregate fixed events GroupBy.path).totals.turns ≡ length events % 2 ^ 64)
    × ((aggregate fixed events GroupBy.path).totals.cost
        ≡ foldl (λ c e. fixed.plus c e.cost) (zero_float fixed) events)
aggregate_totals_example = aggregate_totals fixed events GroupBy.path

aggregate_groups_example :
    HasDistinctKeys (aggregate fixed events GroupBy.path).breakdown
    × ((k : Text)
        → find_row k (aggregate fixed events GroupBy.path).breakdown
          ≡ group_row fixed GroupBy.path k events)
aggregate_groups_example = aggregate_groups fixed events GroupBy.path

aggregate-IsRanked_example : IsRanked fixed (aggregate fixed events GroupBy.actor).breakdown
aggregate-IsRanked_example = aggregate-IsRanked fixed fixed-IsOrdered events GroupBy.actor

ingest_batch_lem_example :
    IsIngested fixed unchanged all_work batch tables
      (ingest_batch fixed unchanged (repo all_work) batch tables)
ingest_batch_lem_example = ingest_batch_lem fixed unchanged all_work batch tables (omega arith)

taken : (ingest_batch fixed unchanged (repo all_work) batch tables).0.error ≡ none
unfolding ingest_batch insert_batch insert_each
taken = refl

after_2000 : start_of_lifetime ≤ 64000000000000000000
unfolding start_of_lifetime my_token.Usage.Calendar.date my_token.Usage.Calendar.days_before
    my_token.Usage.Calendar.days_before_month
after_2000 = omega arith

ingest_batch_again_example :
    let t = (ingest_batch fixed unchanged (repo all_work) batch tables).1 in
    ((ingest_batch fixed unchanged (repo all_work) batch t).1 ≡ t)
    × ((ingest_batch fixed unchanged (repo all_work) batch t).0.inserted ≡ 0)
    × ((ingest_batch fixed unchanged (repo all_work) batch t).0.received ≡ length batch)
ingest_batch_again_example =
    ingest_batch_again fixed unchanged all_work all_work batch tables (omega arith) taken

-- An event of the machine "A" and the row of its key.
abbrev event : Event ℕ
event = stored (codes "1") (codes "ann") (codes "A") 5

abbrev row : BreakdownRow ℕ
row = record { key = key_for GroupBy.actor event; raw_key = []; tokens = 100; cost = 5; turns = 1 }

abbrev names : Map Text
names = (codes "A", codes "laptop") ∷ []

label_row_lem_example : IsLabelled GroupBy.actor names event row (label_row GroupBy.actor names row)
label_row_lem_example = label_row_lem GroupBy.actor names event row (ground arith) refl

abbrev noon : ℕ
noon = 63000000000000000000

window_bounds_calendar_example :
    let d = noon / day in
    (window_bounds window_today noon ≡ some (d * day, noon))
    × ((monday : ℕ) × (window_bounds window_week noon ≡ some (monday * day, noon))
        × (weekday monday ≡ 1)
        × (monday ≤ d)
        × (d < monday + 7))
    × ((first : ℕ) × (window_bounds window_month noon ≡ some (first * day, noon))
        × (first ≤ d)
        × (year_of first ≡ year_of d)
        × (month_of first ≡ month_of d)
        × (month_day first ≡ 0))
    × ((first : ℕ) × (window_bounds window_year noon ≡ some (first * day, noon))
        × (first ≤ d)
        × (year_of first ≡ year_of d)
        × (year_day first ≡ 0))
window_bounds_calendar_example = window_bounds_calendar noon

parse_window_bounds_example :
    ((parse_window (codes "week") ≡ some (codes "week"))
      × EndsAt 64000000000000000000 (window_bounds (codes "week") 64000000000000000000))
    ⊎ ((parse_window (codes "week") ≡ none)
        × (window_bounds (codes "week") 64000000000000000000 ≡ none))
parse_window_bounds_example = parse_window_bounds (codes "week") 64000000000000000000 after_2000

model_family_listed_example :
    lookup (model_family unchanged (codes "claude-sonnet-4")) (pricing_table fixed) ≢ none
model_family_listed_example = model_family_listed fixed unchanged (codes "claude-sonnet-4")

abbrev full : Totals ℕ
full = record { tokens = 200; cost = 12; turns = 2 }

abbrev empty : Totals ℕ
empty = record { tokens = 0; cost = 0; turns = 0 }

-- The two events of machine "A" lie in the windows that end at instant 7200, but for the one that
-- starts later.
abbrev window_rows : Map (Totals ℕ)
window_rows =
    (codes "5h", full)
    ∷ (codes "24h", full)
    ∷ (codes "today", full)
    ∷ (codes "week", full)
    ∷ (codes "month", full)
    ∷ (codes "year", full)
    ∷ (codes "lifetime", empty)
    ∷ []

windows_give : windows (repo all_work) fixed everything 7200 tables ≡ ok window_rows
unfolding windows window_bounds my_token.Base.◌==◌ list_events_in_window
    my_token.Usage.Repo.build_list_events_in_window_params my_token.Base.cut aggregate
    my_token.Usage.Summary.tally my_token.Usage.Window.start_of_day my_token.Usage.Calendar.date
    start_of_lifetime my_token.Usage.Summary.add_totals my_token.Usage.Calendar.days_before
    my_token.Usage.Event.tokens_for year_of my_token.Usage.Calendar.days_before_month
    my_token.Usage.Calendar.cycle_year month_of my_token.Usage.Calendar.month_at year_day month_day
    weekday
windows_give = refl

-- What the summary of today by machine gives.
abbrev today_summary : SummaryResult ℕ
today_summary = record {
  totals = full;
  breakdown = (record { key = codes "A"; raw_key = []; tokens = 200; cost = 12; turns = 2 }) ∷ [];
  reporting_installs = 1;
}

summary_gives :
    summary (repo all_work) fixed (codes "today") GroupBy.machine everything 7200 tables
    ≡ ok today_summary
unfolding summary lookup my_token.Usage.Service.substitute_hostnames window_bounds
    my_token.Base.◌==◌ list_events_in_window my_token.Usage.Repo.build_list_events_in_window_params
    my_token.Base.cut aggregate my_token.Usage.Summary.tally my_token.Usage.Window.start_of_day
    my_token.Usage.Calendar.date start_of_lifetime my_token.Usage.Summary.add_totals
    my_token.Usage.Calendar.days_before my_token.Usage.Event.tokens_for year_of
    my_token.Usage.Calendar.days_before_month my_token.Usage.Calendar.cycle_year month_of
    my_token.Usage.Calendar.month_at year_day month_day weekday my_token.Usage.Summary.sort_stable
    my_token.Usage.Summary.add_to_group my_token.Base.insert key_for my_token.Usage.Summary.place
    my_token.Usage.Repo.machine_hostnames label_row my_token.Base.add_member
    my_token.Usage.Summary.add_row my_token.Usage.Summary.row_at
summary_gives = refl

today_row : lookup (codes "today") window_rows ≡ some full
unfolding lookup my_token.Base.◌==◌
today_row = refl

windows_totals_example : (map (λ p. p.0) window_rows ≡ all_windows) × (today_summary.totals ≡ full)
windows_totals_example =
    windows_totals (repo all_work) fixed everything 7200 tables window_rows (codes "today") full
      GroupBy.machine today_summary windows_give today_row summary_gives

today_bounds : window_bounds (codes "today") 7200 ≡ some (0, 7200)
unfolding window_bounds my_token.Base.◌==◌ my_token.Usage.Repo.build_list_events_in_window_params
    my_token.Base.cut aggregate my_token.Usage.Summary.tally my_token.Usage.Window.start_of_day
    my_token.Usage.Calendar.date start_of_lifetime my_token.Usage.Summary.add_totals
    my_token.Usage.Calendar.days_before my_token.Usage.Event.tokens_for year_of
    my_token.Usage.Calendar.days_before_month my_token.Usage.Calendar.cycle_year month_of
    my_token.Usage.Calendar.month_at year_day month_day weekday
today_bounds = refl

summary_scope_example :
    let scope =
      aggregate fixed (filter (is_wanted 0 7200 everything) tables.usage_events) GroupBy.machine in
    (today_summary.totals ≡ scope.totals)
    × (today_summary.reporting_installs ≡ scope.reporting_installs)
summary_scope_example =
    summary_scope fixed all_work (codes "today") GroupBy.machine everything 7200 0 7200 tables
      today_summary (ground arith) today_bounds summary_gives
