-- ===== src/Usage/Repo.antt =====
-- The usage tables and their repository (internal/domain/usage/repo.go, with the statements of
-- db/queries/usage_events.sql, machines.sql and scan_roots.sql). A `Driver` says which calls of the
-- database succeed; a query gives the rows in the order in which they were inserted.
pub mod Insert
pub mod Filters
use my_token.Base.{
  ℕ, suc, Text, ◌==◌, ltb, leb, Bool, true, false, not, ◌&&◌, List, [], ◌∷◌, ◌++◌, map, filter, any,
  Map, insert, Option, none, some, cut, add_int64, if◌then◌else◌, Result, ok, err,
}
use my_token.Usage.Event.{Event, Filter, Time, colon}

pub record MachineRow : Type 0 where
  pub install_id : Text
  pub hostname : Text
  pub last_seen_at : Time

pub record ScanRootRow : Type 0 where
  pub install_id : Text
  pub scan_root_path : Text
  pub name : Text
  pub source_type : Text
  pub last_seen_at : Time

-- `ScanRootRecord`
pub record ScanRootRecord : Type 0 where
  pub install_id : Text
  pub scan_root_path : Text
  pub name : Text
  pub source_type : Text

pub record Tables (F : Type 0) : Type 0 where
  pub usage_events : List (Event F)
  pub machines : List MachineRow
  pub scan_roots : List ScanRootRow

-- Errors that callers see: which call failed.
pub data Failure : Type 0 where
  begin_failed exec_failed rollback_failed commit_failed query_failed unknown_window : Failure

-- Which calls succeed; `executes i` is the i-th statement of a transaction.
pub record Driver : Type 0 where
  pub begins : Bool
  pub executes : ℕ → Bool
  pub rolls_back : Bool
  pub commits : Bool
  pub writes : Bool
  pub reads_events : Bool
  pub reads_machines : Bool
  pub reads_scan_roots : Bool

module _ {F : Type 0} where
  abbrev pub has_id : Text → List (Event F) → Bool
  has_id i es = any (λ e. e.id == i) es

  -- `INSERT OR IGNORE`: the rows that follow, and the number of rows affected.
  unfoldable pub insert_or_ignore : Event F → List (Event F) → ℕ × List (Event F)
  insert_or_ignore e rows = if has_id e.id rows then (0, rows) else (1, rows ++ e ∷ [])

  -- The loop of `InsertBatch` inside its transaction.
  unfoldable pub insert_each :
      Driver → ℕ → List (Event F) → ℕ → List (Event F) → Result Failure (ℕ × List (Event F))
  insert_each drv i [] inserted rows = ok (inserted, rows)
  insert_each drv i (e ∷ batch) inserted rows =
      let (affected, rows') = insert_or_ignore e rows in
      let rest = insert_each drv (suc i) batch (add_int64 inserted affected) rows' in
      if drv.executes i then rest else err (if drv.rolls_back then exec_failed else rollback_failed)

  -- The rows change only by a commit.
  unfoldable pub insert_batch :
      Driver → List (Event F) → List (Event F) → Result Failure ℕ × List (Event F)
  insert_batch drv batch rows =
      if not drv.begins then (err begin_failed, rows) else elim (insert_each drv 0 batch 0 rows) [
        | err e ↦ (err e, rows)
        | ok (inserted, rows') ↦
            if drv.commits then (ok inserted, rows') else (err commit_failed, rows)
      ]

-- `splitScanRootFilter`; `none` is `ok == false`.
unfoldable pub split_scan_root_filter : Text → Option (Text × Text)
split_scan_root_filter scan_root = cut colon scan_root

-- `nullableFilterArg`: NULL for the empty string.
unfoldable pub nullable_filter_arg : Text → Option Text
nullable_filter_arg v = if v == [] then none else some v

-- `db.ListUsageEventsInWindowParams`; `none` is NULL.
pub record WindowParams : Type 0 where
  pub range_start : Time
  pub range_end : Time
  pub machine : Option Text
  pub scan_root_install_id : Option Text
  pub scan_root_path : Option Text

-- `buildListEventsInWindowParams`; `none` is `ok == false`.
unfoldable pub build_list_events_in_window_params : Time → Time → Filter → Option WindowParams
unfolding nullable_filter_arg split_scan_root_filter
build_list_events_in_window_params start end f =
    if f.scan_root == []
    then some (record {
      range_start = start;
      range_end = end;
      machine = nullable_filter_arg f.machine;
      scan_root_install_id = none;
      scan_root_path = none;
    })
    else elim (split_scan_root_filter f.scan_root) [
      | none ↦ none
      | some (install_id, path) ↦ some (record {
        range_start = start;
        range_end = end;
        machine = nullable_filter_arg f.machine;
        scan_root_install_id = some install_id;
        scan_root_path = some path;
      })
    ]

-- `narg IS NULL OR column = narg`
abbrev pub null_or_eq : Option Text → Text → Bool
null_or_eq none column = true
null_or_eq (some v) column = column == v

module _ {F : Type 0} where
  -- The WHERE clause of ListUsageEventsInWindow.
  abbrev pub is_selected : WindowParams → Event F → Bool
  is_selected p e =
      leb p.range_start e.created_at
      && ltb e.created_at p.range_end
      && null_or_eq p.machine e.machine
      && null_or_eq p.scan_root_install_id e.machine
      && null_or_eq p.scan_root_path e.scan_root

  unfoldable pub list_events_in_window :
      Driver → Time → Time → Filter → List (Event F) → Result Failure (List (Event F))
  list_events_in_window drv start end f rows =
      elim (build_list_events_in_window_params start end f) [
        | none ↦ ok []
        | some p ↦ if drv.reads_events then ok (filter (is_selected p) rows) else err query_failed
      ]

-- `INSERT OR REPLACE` on the primary key: the old row goes, the new one comes last.
unfoldable pub replace_machine : MachineRow → List MachineRow → List MachineRow
replace_machine r rows = filter (λ m. not (m.install_id == r.install_id)) rows ++ r ∷ []

unfoldable pub upsert_machine :
    Driver → Text → Text → Time → List MachineRow → Result Failure (Unit {0}) × List MachineRow
unfolding replace_machine
upsert_machine drv install_id hostname last_seen_at rows =
    if drv.writes
    then (
      ok tt,
      replace_machine
          (record { install_id = install_id; hostname = hostname; last_seen_at = last_seen_at })
          rows,
    )
    else (err exec_failed, rows)

-- The loop of `MachineHostnames`.
unfoldable pub collect_hostnames : Map Text → List MachineRow → Map Text
collect_hostnames out [] = out
collect_hostnames out (m ∷ rows) = collect_hostnames (insert m.install_id m.hostname out) rows

unfoldable pub machine_hostnames : Driver → List MachineRow → Result Failure (Map Text)
unfolding collect_hostnames
machine_hostnames drv rows =
    if drv.reads_machines then ok (collect_hostnames [] rows) else err query_failed

abbrev pub same_root : ScanRootRow → ScanRootRow → Bool
same_root r s = r.install_id == s.install_id && r.scan_root_path == s.scan_root_path

unfoldable pub replace_scan_root : ScanRootRow → List ScanRootRow → List ScanRootRow
replace_scan_root r rows = filter (λ s. not (same_root s r)) rows ++ r ∷ []

unfoldable pub upsert_scan_root :
    Driver
    → Text
    → Text
    → Text
    → Text
    → Time
    → List ScanRootRow
    → Result Failure (Unit {0}) × List ScanRootRow
unfolding replace_scan_root
upsert_scan_root drv install_id path name source_type last_seen_at rows =
    if drv.writes
    then (
      ok tt,
      replace_scan_root
          (record {
            install_id = install_id;
            scan_root_path = path;
            name = name;
            source_type = source_type;
            last_seen_at = last_seen_at;
          })
          rows,
    )
    else (err exec_failed, rows)

abbrev to_record : ScanRootRow → ScanRootRecord
to_record r = record {
  install_id = r.install_id;
  scan_root_path = r.scan_root_path;
  name = r.name;
  source_type = r.source_type;
}

unfoldable pub list_scan_roots : Driver → List ScanRootRow → Result Failure (List ScanRootRecord)
list_scan_roots drv rows =
    if drv.reads_scan_roots then ok (map to_record rows) else err query_failed
