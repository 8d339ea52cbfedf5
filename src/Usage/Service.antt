-- ===== src/Usage/Service.antt =====
-- The usage service (internal/domain/usage/service.go) over the repository's interface.
pub mod Ingest
pub mod Reads
pub mod Labels
use my_token.Base.{
  ℕ, Text, codes, ◌==◌, Bool, true, false, not, ◌&&◌, List, [], ◌∷◌, ◌++◌, map, length, Map, lookup,
  Option, none, some, cut, if◌then◌else◌, Result, ok, err, ◌>>=◌,
}
use my_token.Usage.Floats.{Float64}
use my_token.Usage.Pricing.{cost_for_usage}
use my_token.Usage.Event.{Event, IngestEvent, Filter, GroupBy, Time, colon}
use my_token.Usage.Summary.{Totals, BreakdownRow, SummaryResult, aggregate}
use my_token.Usage.Window.{all_windows, window_bounds}
use my_token.Usage.Repo.{
  Driver, Failure, unknown_window, Tables, ScanRootRecord, insert_batch, list_events_in_window,
  upsert_machine, machine_hostnames, upsert_scan_root, list_scan_roots,
}

-- `Repository`: methods over a state, which the reads leave alone.
pub record Repository (F S : Type 0) : Type 0 where
  pub insert_batch : List (Event F) → S → Result Failure ℕ × S
  pub list_events_in_window : Time → Time → Filter → S → Result Failure (List (Event F))
  pub upsert_machine : Text → Text → Time → S → Result Failure (Unit {0}) × S
  pub machine_hostnames : S → Result Failure (Map Text)
  pub upsert_scan_root : Text → Text → Text → Text → Time → S → Result Failure (Unit {0}) × S
  pub list_scan_roots : S → Result Failure (List ScanRootRecord)

-- `Repo`: the methods over the tables, through a driver.
module _ {F : Type 0} where
  abbrev on_events : {A : Type 0} → Tables F → A × List (Event F) → A × Tables F
  on_events t (r, rows) = (r, record t { usage_events = rows })

  abbrev pub repo : Driver → Repository F (Tables F)
  repo drv = record {
    insert_batch = λ batch t. on_events t (insert_batch drv batch t.usage_events);
    list_events_in_window = λ s e f t. list_events_in_window drv s e f t.usage_events;
    upsert_machine = λ i h now t.
        let (r, rows) = upsert_machine drv i h now t.machines in (r, record t { machines = rows });
    machine_hostnames = λ t. machine_hostnames drv t.machines;
    upsert_scan_root = λ i p n s now t.
        let (r, rows) = upsert_scan_root drv i p n s now t.scan_roots in
        (r, record t { scan_roots = rows });
    list_scan_roots = λ t. list_scan_roots drv t.scan_roots;
  }

abbrev pub source : Text
source = codes "claude_code"

-- `received, inserted, err`
pub record Ingested : Type 0 where
  pub received : ℕ
  pub inserted : ℕ
  pub error : Option Failure

module _ {F : Type 0} (fl : Float64 F) (to_lower : Text → Text) where
  -- The event that is stored: the cost and the source are the server's own.
  unfoldable pub to_event : IngestEvent → Event F
  to_event e = record {
    id = e.id;
    session_id = e.session_id;
    actor = e.actor;
    path = e.path;
    machine = e.machine;
    model = e.model;
    scan_root = e.scan_root;
    input_tokens = e.input_tokens;
    output_tokens = e.output_tokens;
    cache_read_input_tokens = e.cache_read_input_tokens;
    cache_creation_input_tokens = e.cache_creation_input_tokens;
    cost =
        cost_for_usage fl to_lower e.model e.input_tokens e.output_tokens e.cache_read_input_tokens
          e.cache_creation_input_tokens;
    source = source;
    created_at = e.timestamp;
  }

  unfoldable pub ingest_batch : {S : Type 0} → Repository F S → List IngestEvent → S → Ingested × S
  unfolding to_event
  ingest_batch r [] s = (record { received = 0; inserted = 0; error = none }, s)
  ingest_batch r (e ∷ es) s =
      let (result, s') = r.insert_batch (map to_event (e ∷ es)) s in
      (
        elim result [
          | ok n ↦ record { received = length (e ∷ es); inserted = n; error = none }
          | err x ↦ record { received = length (e ∷ es); inserted = 0; error = some x }
        ],
        s',
      )

-- `hostname, ok := hostnames[installID]; ok && hostname != ""`
unfoldable pub label_for : Map Text → Text → Option Text
label_for hostnames install_id = elim (lookup install_id hostnames) [
  | none ↦ none
  | some hostname ↦ if not (hostname == []) then some hostname else none
]

module _ {F : Type 0} where
  -- The round of substituteMachineHostnames on one row.
  unfoldable pub label_machine : Map Text → BreakdownRow F → BreakdownRow F
  unfolding label_for
  label_machine hostnames row = elim (label_for hostnames row.key) [
    | none ↦ row
    | some hostname ↦ record row { key = hostname; raw_key = row.key }
  ]

  -- The round of substituteMachineHostnamesInPathKeys and substituteMachineHostnamesInActorKeys.
  unfoldable pub label_prefix : Map Text → BreakdownRow F → BreakdownRow F
  unfolding label_for
  label_prefix hostnames row = elim (cut colon row.key) [
    | none ↦ row
    | some (install_id, rest) ↦ elim (label_for hostnames install_id) [
      | none ↦ row
      | some hostname ↦ record row { key = hostname ++ colon ∷ rest; raw_key = row.key }
    ]
  ]

  unfoldable pub label_row : GroupBy → Map Text → BreakdownRow F → BreakdownRow F
  unfolding label_machine label_prefix
  label_row GroupBy.machine hostnames row = label_machine hostnames row
  label_row GroupBy.path hostnames row = label_prefix hostnames row
  label_row GroupBy.actor hostnames row = label_prefix hostnames row

  module _ {S : Type 0} (r : Repository F S) where
    -- The substitution pass; no rows, no query.
    unfoldable pub substitute_hostnames :
        GroupBy → List (BreakdownRow F) → S → Result Failure (List (BreakdownRow F))
    substitute_hostnames g [] s = ok []
    substitute_hostnames g (row ∷ rows) s = do
      hostnames ← r.machine_hostnames s
      ok (map (label_row g hostnames) (row ∷ rows))

    module _ (fl : Float64 F) where
      unfoldable pub summary : Text → GroupBy → Filter → Time → S → Result Failure (SummaryResult F)
      summary window g f now s = elim (window_bounds window now) [
        | none ↦ err unknown_window
        | some (start, end) ↦ do
          events ← r.list_events_in_window start end f s
          let result = aggregate fl events g
          breakdown ← substitute_hostnames g result.breakdown s
          ok (record result { breakdown = breakdown })
      ]

      -- The loop of `Windows`.
      unfoldable pub windows_from :
          List Text → Filter → Time → S → Result Failure (List (Text × Totals F))
      windows_from [] f now s = ok []
      windows_from (w ∷ ws) f now s = elim (window_bounds w now) [
        | none ↦ err unknown_window
        | some (start, end) ↦ do
          events ← r.list_events_in_window start end f s
          rest ← windows_from ws f now s
          ok ((w, (aggregate fl events GroupBy.actor).totals) ∷ rest)
      ]

      unfoldable pub windows : Filter → Time → S → Result Failure (List (Text × Totals F))
      unfolding windows_from
      windows f now s = windows_from all_windows f now s

-- `UpsertScanRootInput`
pub record ScanRootInput : Type 0 where
  pub path : Text
  pub name : Text
  pub source_type : Text

-- `ScanRootWithHostname`
pub record ScanRootWithHostname : Type 0 where
  pub install_id : Text
  pub hostname : Text
  pub scan_root_path : Text
  pub name : Text
  pub source_type : Text

unfoldable pub with_hostname : Map Text → ScanRootRecord → ScanRootWithHostname
with_hostname hostnames x = record {
  install_id = x.install_id;
  hostname = elim (label_for hostnames x.install_id) [ none ↦ x.install_id | some h ↦ h ];
  scan_root_path = x.scan_root_path;
  name = x.name;
  source_type = x.source_type;
}

module _ {F S : Type 0} (r : Repository F S) where
  unfoldable pub upsert_scan_roots :
      Text → List ScanRootInput → Time → S → Result Failure (Unit {0}) × S
  upsert_scan_roots install_id [] now s = (ok tt, s)
  upsert_scan_roots install_id (sr ∷ srs) now s =
      let (result, s') = r.upsert_scan_root install_id sr.path sr.name sr.source_type now s in
      let rest = upsert_scan_roots install_id srs now s' in
      elim result [ ok _ ↦ rest | err e ↦ (err e, s') ]

  unfoldable pub scan_roots : S → Result Failure (List ScanRootWithHostname)
  scan_roots s = do
    records ← r.list_scan_roots s
    elim records [
      | [] ↦ ok []
      | x ∷ xs ↦ do hostnames ← r.machine_hostnames s; ok (map (with_hostname hostnames) (x ∷ xs))
    ]
