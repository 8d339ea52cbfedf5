-- ===== src/Bff/Console.antt =====
-- The console's reads of usage (internal/transport/bff/usage_handler.go, with
-- `bffValidationErrorBody` of middleware.go).
pub mod Answers
use my_token.Base.{
  ℕ, Text, codes, ◌==◌, not, List, [], ◌∷◌, map, Option, none, some, if◌then◌else◌, Result, ok, err,
}
use my_token.Usage.Floats.{Float64}
use my_token.Usage.Event.{Filter, Time, parse_group_by}
use my_token.Usage.Summary.{Totals, BreakdownRow}
use my_token.Usage.Window.{parse_window}
use my_token.Usage.Repo.{Driver, Tables}
use my_token.Usage.Service.{Repository, ScanRootWithHostname, summary, windows, scan_roots}
use my_token.Usage.Machines.{Sums, MachineSummary, machine_summaries}
use my_token.Identity.Repo.{User}
use my_token.Http.{ErrorEnvelope, Response, respond, refuse, answer, new_error_envelope}
use my_token.Bff.Gate.{with_owner}

unfoldable pub bff_validation_error_body : Text → Text → ErrorEnvelope
unfolding new_error_envelope
bff_validation_error_body message hint = new_error_envelope (codes "validation_error") message hint

-- `bffapi.UsageTotals`
pub record UsageTotals (F : Type 0) : Type 0 where
  pub tokens : ℕ
  pub cost : F
  pub turns : ℕ

-- `bffapi.UsageBreakdownRow`; no raw key is left out.
pub record UsageBreakdownRow (F : Type 0) : Type 0 where
  pub key : Text
  pub raw_key : Option Text
  pub tokens : ℕ
  pub cost : F
  pub turns : ℕ

-- `bffapi.UsageSummary`
pub record UsageSummary (F : Type 0) : Type 0 where
  pub totals : UsageTotals F
  pub breakdown : List (UsageBreakdownRow F)
  pub reporting_installs : ℕ

-- `bffapi.UsageWindowRow`
pub record UsageWindowRow (F : Type 0) : Type 0 where
  pub window : Text
  pub turns : ℕ
  pub tokens : ℕ
  pub cost : F

-- The parameters of the two routes that take some, as the generated code binds them.
pub record UsageParams : Type 0 where
  pub window : Text
  pub group_by : Text
  pub machine : Option Text
  pub scan_root : Option Text

unfoldable pub usage_filter_from_query : Option Text → Option Text → Filter
usage_filter_from_query machine scan_root = record {
  machine = elim machine [ none ↦ [] | some m ↦ m ];
  scan_root = elim scan_root [ none ↦ [] | some r ↦ r ];
}

module _ {F : Type 0} where
  unfoldable pub to_wire_totals : Totals F → UsageTotals F
  to_wire_totals t = record { tokens = t.tokens; cost = t.cost; turns = t.turns }

  unfoldable pub to_wire_row : BreakdownRow F → UsageBreakdownRow F
  to_wire_row r = record {
    key = r.key;
    raw_key = if not (r.raw_key == []) then some r.raw_key else none;
    tokens = r.tokens;
    cost = r.cost;
    turns = r.turns;
  }

  unfoldable pub to_wire_breakdown : List (BreakdownRow F) → List (UsageBreakdownRow F)
  unfolding to_wire_row
  to_wire_breakdown rows = map to_wire_row rows

  unfoldable pub to_wire_window : Text × Totals F → UsageWindowRow F
  to_wire_window (window, t) = record {
    window = window;
    turns = t.turns;
    tokens = t.tokens;
    cost = t.cost;
  }

  module _ {S : Type 0} (r : Repository F S) (actor : Option User) where
    unfoldable pub get_usage_scan_roots : S → Response (List ScanRootWithHostname)
    unfolding with_owner
    get_usage_scan_roots s =
        with_owner actor
          λ _. elim (scan_roots r s) [ err e ↦ respond 500 | ok rows ↦ answer 200 rows ]

    module _ (fl : Float64 F) where
      unfoldable pub get_usage_summary : UsageParams → Time → S → Response (UsageSummary F)
      unfolding with_owner usage_filter_from_query to_wire_totals to_wire_breakdown
          bff_validation_error_body
      get_usage_summary params now s = with_owner actor λ _. elim (parse_window params.window) [
        | none ↦
            refuse 400
              (bff_validation_error_body (codes "unrecognised window value") (codes "window"))
        | some window ↦ elim (parse_group_by params.group_by) [
          | none ↦
              refuse 400
                (bff_validation_error_body (codes "unrecognised group_by value") (codes "group_by"))
          | some g ↦
              let f = usage_filter_from_query params.machine params.scan_root in
              elim (summary r fl window g f now s) [
                | err e ↦ respond 500
                | ok result ↦ answer 200 (record {
                  totals = to_wire_totals result.totals;
                  breakdown = to_wire_breakdown result.breakdown;
                  reporting_installs = result.reporting_installs;
                })
              ]
        ]
      ]

      unfoldable pub get_usage_windows :
          Option Text → Option Text → Time → S → Response (List (UsageWindowRow F))
      unfolding with_owner usage_filter_from_query to_wire_window
      get_usage_windows machine scan_root now s = with_owner actor λ _.
          elim (windows r fl (usage_filter_from_query machine scan_root) now s) [
            | err e ↦ respond 500
            | ok rows ↦ answer 200 (map to_wire_window rows)
          ]

  unfoldable pub get_machines :
      Float64 F → Sums F → Driver → Option User → Tables F → Response (List (MachineSummary F))
  unfolding with_owner
  get_machines fl sums drv actor t = with_owner actor λ _. elim (machine_summaries fl sums drv t) [
    | err e ↦ respond 500
    | ok rows ↦ answer 200 rows
  ]
