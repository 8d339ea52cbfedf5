-- ===== src/Bff/Console/Answers.antt =====
-- What the routes of the console answer (internal/transport/bff/usage_handler.go).
use mathlib.Core.Path.{subst}
use my_token.Base.{
  ◌≤◌, ◌==◌, Bool, ltb, leb, ◌&&◌, ◌||◌, ◌++◌, Option, ◌≡◌, refl, sym, ◌∙◌, ap, true, List, [], ◌∷◌,
  map, filter, All, some, none, ok, Option-cases, inl, inr, arith, Text,
}
use my_token.Usage.Floats.{Float64}
use my_token.Usage.Event.{Event, Filter, colon, GroupBy, Time, parse_group_by}
use my_token.Usage.Summary.{Totals, BreakdownRow, SummaryResult, aggregate}
use my_token.Usage.Window.{parse_window, window_bounds, start_of_lifetime}
use my_token.Usage.Window.Bounds.{EndsAt, parse_window_bounds}
use my_token.Usage.Repo.{Driver, Tables, machine_hostnames, collect_hostnames}
use my_token.Usage.Repo.Filters.{
  HasPlainMachine, scan_root_key, is_wanted, list_events_in_window_lem,
}
use my_token.Usage.Service.{repo, label_row, substitute_hostnames, summary}
use my_token.Usage.Service.Reads.{summary_scope}
use my_token.Identity.Repo.{User}
use my_token.Http.{answer}
use my_token.Bff.Console.{
  UsageParams, UsageSummary, usage_filter_from_query, to_wire_totals, to_wire_breakdown,
  get_usage_summary,
}

-- The bounds of a window that was parsed.
bounds_of :
    (wire w : Text) (now : Time)
    → start_of_lifetime ≤ now
    → parse_window wire ≡ some w
    → (start : Time) × (end : Time) × (window_bounds w now ≡ some (start, end))
bounds_of wire w now late parsed = elim (parse_window_bounds wire now late) [
  | inr (p, _) ↦ ground (arith, p, parsed)
  | inl (p, ends) ↦
      let same : wire ≡ w = ap (λ o. elim o [ none ↦ wire | some x ↦ x ]) (sym p ∙ parsed) in
      elim (Option-cases (window_bounds wire now)) [
        | inl e ↦ absurd (subst (EndsAt now) e ends)
        | inr ((start, end), e) ↦ (start, end, rw (← same) e)
      ]
]

-- A parameter of the query that is left out, or empty, asks for everything.
abbrev pub asks : Option Text → Text → Bool
asks none v = true
asks (some []) v = true
asks (some (c ∷ w)) v = v == c ∷ w

-- The events of a window, `start` in it and `end` not, that the query asks for; a scan root is asked
-- for by the install id, a colon and the path.
abbrev pub is_asked : {F : Type 0} → Time → Time → Option Text → Option Text → Event F → Bool
is_asked start end machine scan_root e =
    leb start e.created_at
    && ltb e.created_at end
    && asks machine e.machine
    && asks scan_root (e.machine ++ colon ∷ e.scan_root)

-- The value of a filter, and what it admits.
asks_lem :
    (param : Option Text) (v : Text)
    → let f : Text = elim param [ none ↦ [] | some p ↦ p ] in (f == [] || v == f) ≡ asks param v
unfolding ◌==◌
asks_lem none v = refl
asks_lem (some []) v = refl
asks_lem (some (c ∷ w)) v = refl

is_asked_lem :
    {F : Type 0} (start end : Time) (params : UsageParams) (e : Event F)
    → is_wanted start end (usage_filter_from_query params.machine params.scan_root) e
      ≡ is_asked start end params.machine params.scan_root e
unfolding usage_filter_from_query
is_asked_lem start end params e =
    rw (asks_lem params.machine e.machine, asks_lem params.scan_root (scan_root_key e)) refl

filter-is_asked :
    {F : Type 0} (start end : Time) (params : UsageParams) (es : List (Event F))
    → filter (is_wanted start end (usage_filter_from_query params.machine params.scan_root)) es
      ≡ filter (is_asked start end params.machine params.scan_root) es
filter-is_asked start end params [] = refl
filter-is_asked start end params (e ∷ es) =
    rw (is_asked_lem start end params e, filter-is_asked start end params es) refl

module _ {F : Type 0} (fl : Float64 F) (drv : Driver) (t : Tables F) where
  substitute_hostnames_total :
      (g : GroupBy) (rows : List (BreakdownRow F))
      → drv.reads_machines ≡ true
      → (labelled : List (BreakdownRow F)) × (substitute_hostnames (repo drv) g rows t
          ≡ ok labelled)
  unfolding substitute_hostnames machine_hostnames
  substitute_hostnames_total g [] reads = ([], refl)
  substitute_hostnames_total g (row ∷ rows) reads = (
    map (label_row g (collect_hostnames [] t.machines)) (row ∷ rows),
    rw (reads, machine_hostnames) refl,
  )

  summary_total :
      (w : Text) (g : GroupBy) (f : Filter) (now start end : Time)
      → drv.reads_events ≡ true
      → drv.reads_machines ≡ true
      → All HasPlainMachine t.usage_events
      → window_bounds w now ≡ some (start, end)
      → (res : SummaryResult F) × (summary (repo drv) fl w g f now t ≡ ok res)
  unfolding summary
  summary_total w g f now start end events machines plain bounds =
      elim (list_events_in_window_lem drv start end f t.usage_events plain) [
        | inr (fails, _) ↦ ground (arith, fails, events)
        | inl listed ↦
            let scope = aggregate fl (filter (is_wanted start end f) t.usage_events) g in
            let (labelled, done) = substitute_hostnames_total g scope.breakdown machines in
            (record scope { breakdown = labelled }, rw (bounds, summary) (rw listed (rw done refl)))
      ]

  -- The totals of a body are those of the stored events that were asked for.
  abbrev pub CountsAsked : Time → Time → UsageParams → GroupBy → UsageSummary F → Type 0
  CountsAsked start end params g body =
      let scope =
        aggregate fl (filter (is_asked start end params.machine params.scan_root) t.usage_events)
          g in
      (body.totals.tokens ≡ scope.totals.tokens)
      × (body.totals.cost ≡ scope.totals.cost)
      × (body.totals.turns ≡ scope.totals.turns)
      × (body.reporting_installs ≡ scope.reporting_installs)

  -- From the year 2000 on, over tables that can be read and where no install id holds a colon, a
  -- request with a window and a dimension that are recognised is answered 200, with the totals
  -- and the number of installs of exactly the stored events that the window and the query's
  -- filters admit.
  pub get_usage_summary_lem :
      (owner : User) (params : UsageParams) (w : Text) (g : GroupBy) (now : Time)
      → start_of_lifetime ≤ now
      → drv.reads_events ≡ true
      → drv.reads_machines ≡ true
      → All HasPlainMachine t.usage_events
      → parse_window params.window ≡ some w
      → parse_group_by params.group_by ≡ some g
      → (start : Time) × (end : Time) × (body : UsageSummary F) × (window_bounds w now
          ≡ some (start, end))
        × (get_usage_summary (repo drv) (some owner) fl params now t ≡ answer 200 body)
        × CountsAsked start end params g body
  unfolding get_usage_summary
  get_usage_summary_lem owner params w g now late events machines plain window dimension =
      let (start, end, bounds) = bounds_of params.window w now late window in
      let f = usage_filter_from_query params.machine params.scan_root in
      let (res, done) = summary_total w g f now start end events machines plain bounds in
      let (totals, installs) = summary_scope fl drv w g f now start end t res plain bounds done in
      let same = filter-is_asked start end params t.usage_events in
      let totals' = totals ∙ ap (λ (es : List (Event F)). (aggregate fl es g).totals) same in
      (
        start,
        end,
        record {
          totals = to_wire_totals res.totals;
          breakdown = to_wire_breakdown res.breakdown;
          reporting_installs = res.reporting_installs;
        },
        bounds,
        rw (window, get_usage_summary) (rw dimension (rw done refl)),
        (
          ap (λ (x : Totals F). x.tokens) totals',
          ap (λ (x : Totals F). x.cost) totals',
          ap (λ (x : Totals F). x.turns) totals',
          installs ∙ ap (λ (es : List (Event F)). (aggregate fl es g).reporting_installs) same,
        ),
      )
