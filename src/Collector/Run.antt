-- ===== src/Collector/Run.antt =====
-- One invocation of the collector (`Run` of internal/collector/collector.go, with the types of
-- client.go and `ActorFromCwd` of actor.go). Files, the database, the resolver, JSON and the
-- server are arguments.
pub mod Again
pub mod Refused
use my_token.Base.{
  ℕ, Text, codes, ◌==◌, lt_text, Bool, true, false, List, [], ◌∷◌, ◌++◌, map, Map, lookup, insert,
  length, member, add_member, Option, none, some, if◌then◌else◌, Result, ok, err,
}
use my_token.Usage.Event.{Time}
use my_token.Usage.Floats.{Float64}
use my_token.Usage.Summary.{sort_stable}
use my_token.Collector.Pricing.{cost_for_usage}
use my_token.Collector.TouchedPaths.{Decoders}
use my_token.Collector.Transcript.{RawRecord, UsageRow, extract_usage_rows}
use my_token.Collector.Paths.{FileSystem, GitRootResolver, first_cwd_bearing_row}
use my_token.Collector.Store.{PathStore, StoreDriver}
use my_token.Collector.Scan.{Disk, ScanPath, ScannedFile, find_transcript_files}
use my_token.Collector.Sent.{SentFile, load_sent_state, filter_unsent, mark_sent, save}
use my_token.Collector.Sessions.{scan_session_paths}

abbrev pub unknown_actor : Text
unknown_actor = codes "(unknown)"

pub record ClientEvent : Type 0 where
  pub id : Text
  pub session_id : Text
  pub actor : Text
  pub path : Text
  pub machine : Text
  pub model : Text
  pub scan_root : Text
  pub input_tokens : ℕ
  pub output_tokens : ℕ
  pub cache_read_input_tokens : ℕ
  pub cache_creation_input_tokens : ℕ
  pub timestamp : Time

pub record ScanRootReport : Type 0 where
  pub path : Text
  pub name : Text
  pub source_type : Text

pub record BatchResult : Type 0 where
  pub received : ℕ
  pub inserted : ℕ

-- `BatchPoster`: `none` for an error; `P` is what it acts on.
abbrev pub BatchPoster : Type 0 → Type 0
BatchPoster P = List ScanRootReport → List ClientEvent → P → Option BatchResult × P

pub record RunResult (F : Type 0) : Type 0 where
  pub files_scanned : ℕ
  pub total_rows_found : ℕ
  pub new_rows_found : ℕ
  pub received : ℕ
  pub inserted : ℕ
  pub estimated_cost_us : F

pub data RunFailure : Type 0 where
  scan_error read_error state_error open_error path_error post_error save_error : RunFailure

-- What `Run` acts on: the file of sent ids, the database, the resolver and the server.
pub record World (W P : Type 0) : Type 0 where
  pub sent_file : SentFile
  pub store : PathStore
  pub git : W
  pub server : P

-- Everything that a run is given and does not change.
pub record Setup (F W P : Type 0) : Type 0 where
  pub fl : Float64 F
  pub to_lower : Text → Text
  pub dec : Decoders
  pub decode_record : Text → Option RawRecord
  pub parse_time : Text → Time
  pub disk : Disk
  pub fs : FileSystem
  pub read : Text → Option (List Text)
  pub drv : StoreDriver
  pub opens_store : Bool
  pub decode_ids : Text → Option (List Text)
  pub encode_ids : List Text → Text
  pub writes_state : Bool
  pub resolver : GitRootResolver W
  pub poster : BatchPoster P
  pub install_id : Text
  pub scan_paths : List ScanPath

-- `allRows`, `seenMessageIDs` and `scanRootByMessageID`.
pub record Found : Type 0 where
  pub rows : List UsageRow
  pub seen : List Text
  pub origins : Map ScannedFile

unfoldable pub add_found : ScannedFile → Found → UsageRow → Found
add_found f found r = if member r.message_id found.seen then found else record {
  rows = found.rows ++ r ∷ [];
  seen = add_member r.message_id found.seen;
  origins = insert r.message_id f found.origins;
}

unfoldable pub add_rows : ScannedFile → Found → List UsageRow → Found
unfolding add_found
add_rows f found [] = found
add_rows f found (r ∷ rows) = add_rows f (add_found f found r) rows

-- `ActorFromCwd`
abbrev pub actor_from_cwd : Text → Text
actor_from_cwd cwd = cwd

unfoldable pub actor_for_session : List UsageRow → Text → Text
actor_for_session rows session = elim (first_cwd_bearing_row rows session) [
  | none ↦ unknown_actor
  | some cwd ↦ actor_from_cwd cwd
]

abbrev no_file : ScannedFile
no_file = record { path = []; scan_root = []; name = []; source_type = [] }

unfoldable pub origin_of : Found → UsageRow → ScannedFile
origin_of found r = elim (lookup r.message_id found.origins) [ none ↦ no_file | some f ↦ f ]

unfoldable pub path_of : Map Text → Text → Text
path_of paths session = elim (lookup session paths) [ none ↦ [] | some p ↦ p ]

-- `scanRootReportsByPath[sf.ScanRoot] = …`, for each row
unfoldable pub report_roots : Found → Map ScanRootReport → List UsageRow → Map ScanRootReport
unfolding origin_of
report_roots found reports [] = reports
report_roots found reports (r ∷ rows) =
    let f = origin_of found r in
    report_roots found
      (insert f.scan_root
        (record { path = f.scan_root; name = f.name; source_type = f.source_type }) reports)
      rows

unfoldable pub mark_all : List Text → List ClientEvent → List Text
mark_all ids [] = ids
mark_all ids (e ∷ events) = mark_all (mark_sent ids e.id) events

module _ {F W P : Type 0} (su : Setup F W P) where
  -- The loop over the files: `none` where one cannot be read.
  unfoldable pub collect : Found → List ScannedFile → Option Found
  unfolding add_rows
  collect found [] = some found
  collect found (f ∷ files) = elim (su.read f.path) [
    | none ↦ none
    | some lines ↦
        collect (add_rows f found (extract_usage_rows su.decode_record su.parse_time lines)) files
  ]

  unfoldable pub event_of : Found → Map Text → UsageRow → ClientEvent
  unfolding origin_of path_of actor_for_session
  event_of found paths r = record {
    id = r.message_id;
    session_id = r.session_id;
    actor = actor_for_session found.rows r.session_id;
    path = path_of paths r.session_id;
    machine = su.install_id;
    model = r.model;
    scan_root = (origin_of found r).scan_root;
    input_tokens = r.input_tokens;
    output_tokens = r.output_tokens;
    cache_read_input_tokens = r.cache_read_input_tokens;
    cache_creation_input_tokens = r.cache_creation_input_tokens;
    timestamp = r.timestamp;
  }

  unfoldable pub estimated : F → List UsageRow → F
  estimated total [] = total
  estimated total (r ∷ rows) =
      estimated
        (su.fl.plus total (
          cost_for_usage su.fl su.to_lower r.model r.input_tokens r.output_tokens
            r.cache_read_input_tokens r.cache_creation_input_tokens))
        rows

  abbrev pub no_result : RunResult F
  no_result = record {
    files_scanned = 0;
    total_rows_found = 0;
    new_rows_found = 0;
    received = 0;
    inserted = 0;
    estimated_cost_us = su.fl.decimal 0 0;
  }

  abbrev pub Outcome : Type 0
  Outcome = Option RunFailure × (RunResult F × World W P)

  abbrev report_path_less : ScanRootReport → ScanRootReport → Bool
  report_path_less a b = lt_text a.path b.path

  -- From `poster.PostBatch` on.
  unfoldable pub post :
      List Text → List ScanRootReport → List ClientEvent → RunResult F → World W P → Outcome
  unfolding mark_all save
  post ids roots events result w =
      let (answer, server) = su.poster roots events w.server in
      let w' = record w { server = server } in
      elim answer [
        | none ↦ (some post_error, (result, w'))
        | some b ↦
            let result' = record result { received = b.received; inserted = b.inserted } in
            elim (save su.encode_ids su.writes_state (mark_all ids events)) [
              | none ↦ (some save_error, (result', w'))
              | some file ↦ (none, (result', record w' { sent_file = file }))
            ]
      ]

  -- From the events on; no event, no request.
  unfoldable pub send :
      List Text → Found → List UsageRow → Map Text → RunResult F → World W P → Outcome
  unfolding event_of report_roots estimated post
  send ids found new_rows paths result w =
      let result' = record result {
        estimated_cost_us = estimated result.estimated_cost_us new_rows;
      } in
      let roots = sort_stable report_path_less (map (λ p. p.1) (report_roots found [] new_rows)) in
      elim new_rows [
        | [] ↦ (none, (result', w))
        | r ∷ rest ↦ post ids roots (map (event_of found paths) (r ∷ rest)) result' w
      ]

  -- From `OpenPathStore` on.
  unfoldable pub attribute :
      List ScannedFile → Found → List Text → List UsageRow → RunResult F → World W P → Outcome
  unfolding send
  attribute files found ids new_rows result w =
      if su.opens_store
      then (let (scanned, (store, git)) =
            scan_session_paths su.drv su.dec su.fs su.read su.resolver (map (λ f. f.path) files)
              found.rows w.store w.git in
          let w' = record w { store = store; git = git } in
          elim scanned [
            | err e ↦ (some path_error, (result, w'))
            | ok paths ↦ send ids found new_rows paths result w'
          ])
      else (some open_error, (result, w))

  -- From `LoadSentState` on.
  unfoldable pub run_found : List ScannedFile → Found → RunResult F → World W P → Outcome
  unfolding attribute
  run_found files found result w = elim (load_sent_state su.decode_ids w.sent_file) [
    | none ↦ (some state_error, (result, w))
    | some ids ↦
        let new_rows = filter_unsent ids found.rows in
        attribute files found ids new_rows (record result { new_rows_found = length new_rows }) w
  ]

  unfoldable pub run : World W P → Outcome
  unfolding collect run_found
  run w = elim (find_transcript_files su.dec su.disk su.scan_paths) [
    | none ↦ (some scan_error, (no_result, w))
    | some files ↦
        let result = record no_result { files_scanned = length files } in
        elim (collect (record { rows = []; seen = []; origins = [] }) files) [
          | none ↦ (some read_error, (result, w))
          | some found ↦
              run_found files found (record result { total_rows_found = length found.rows }) w
        ]
  ]
