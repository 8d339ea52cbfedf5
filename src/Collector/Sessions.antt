-- ===== src/Collector/Sessions.antt =====
-- The paths of the sessions (`scanSessionPaths` of internal/collector/collector.go). `read` is
-- `ReadTranscriptLines`, `none` for an error.
pub mod Tally
pub mod Incremental
use my_token.Base.{
  ℕ, Text, ◌==◌, ltb, Bool, true, false, not, List, [], ◌∷◌, Map, insert, length, drop, member,
  add_member, Option, none, some, if◌then◌else◌, Result, ok, err,
}
use my_token.Collector.TouchedPaths.{Decoders, extract_touched_paths, first_session_id}
use my_token.Collector.Transcript.{UsageRow}
use my_token.Collector.Paths.{
  FileSystem, GitRootResolver, seed, cached_git_root_resolver, tally_git_roots,
  resolve_path_from_vote_counts, first_cwd_bearing_row,
}
use my_token.Collector.Store.{
  PathStore, StoreDriver, Failure, read_failed, all_git_roots, save_git_roots, add_votes,
  vote_counts, scan_offset, set_scan_offset,
}

-- The database, the cache of the run and what the resolver acts on.
pub record Scan (W : Type 0) : Type 0 where
  pub store : PathStore
  pub cache : Map Text × W

-- `startLine`, at most the number of lines
abbrev pub start_line : ℕ → ℕ → ℕ
start_line offset total = if ltb total offset then total else offset

module _ (dec : Decoders) (fs : FileSystem) {W : Type 0} (resolver : GitRootResolver W) where
  -- `TallyGitRoots(ExtractTouchedPaths(newLines), cachedResolver)`, where there is anything
  unfoldable pub votes_of_lines : List Text → Map Text × W → Map ℕ × (Map Text × W)
  votes_of_lines lines cache = elim (extract_touched_paths dec lines) [
    | [] ↦ ([], cache)
    | p ∷ touched ↦ tally_git_roots fs (cached_git_root_resolver resolver) (p ∷ touched) cache
  ]

module _ (drv : StoreDriver) (dec : Decoders) (fs : FileSystem) {W : Type 0}
    (resolver : GitRootResolver W) where
  -- The votes of the lines that are new, then the new offset.
  unfoldable pub record_lines :
      Text → Text → List Text → ℕ → Scan W → Result Failure (Unit {0}) × Scan W
  unfolding votes_of_lines
  record_lines session file lines offset s =
      let (votes, cache) =
        votes_of_lines dec fs resolver (drop (start_line offset (length lines)) lines) s.cache in
      let (added, store) = add_votes drv session votes s.store in
      elim added [
        | err e ↦ (err e, record s { store = store; cache = cache })
        | ok _ ↦
            let (set, store') = set_scan_offset drv session file (length lines) store in
            (set, record s { store = store'; cache = cache })
      ]

module _ (drv : StoreDriver) (dec : Decoders) (fs : FileSystem) (read : Text → Option (List Text))
    {W : Type 0} (resolver : GitRootResolver W) where
  -- One round of the loop over the files.
  unfoldable pub scan_file : Text → Scan W → Result Failure (Unit {0}) × Scan W
  unfolding record_lines
  scan_file file s = elim (read file) [
    | none ↦ (err read_failed, s)
    | some lines ↦ elim (first_session_id dec lines) [
      | none ↦ (ok tt, s)
      | some session ↦ elim (scan_offset drv session file s.store) [
        | err e ↦ (err e, s)
        | ok offset ↦ record_lines drv dec fs resolver session file lines offset s
      ]
    ]
  ]

  unfoldable pub scan_files : List Text → Scan W → Result Failure (Unit {0}) × Scan W
  unfolding scan_file
  scan_files [] s = (ok tt, s)
  scan_files (file ∷ files) s =
      let (scanned, s') = scan_file file s in
      elim scanned [ err e ↦ (err e, s') | ok _ ↦ scan_files files s' ]

  -- The loop over the rows: `pathBySession` with the sessions that were seen.
  unfoldable pub resolve_sessions :
      List UsageRow
      → List UsageRow
      → List Text
      → Map Text
      → Scan W
      → Result Failure (Map Text) × Scan W
  resolve_sessions all [] seen paths s = (ok paths, s)
  resolve_sessions all (r ∷ rows) seen paths s = elim (member r.session_id seen) [
    | true ↦ resolve_sessions all rows seen paths s
    | false ↦ elim (vote_counts drv r.session_id s.store) [
      | err e ↦ (err e, s)
      | ok counts ↦
          let (path, cache) =
            resolve_path_from_vote_counts fs (cached_git_root_resolver resolver) counts
              (first_cwd_bearing_row all r.session_id) s.cache in
          resolve_sessions all rows (add_member r.session_id seen) (insert r.session_id path paths)
            (record s { cache = cache })
    ]
  ]

  unfoldable pub scan_session_paths :
      List Text → List UsageRow → PathStore → W → Result Failure (Map Text) × (PathStore × W)
  unfolding scan_files resolve_sessions
  scan_session_paths files rows store w = elim (all_git_roots drv store) [
    | err e ↦ (err e, (store, w))
    | ok roots ↦
        let (scanned, s) =
          scan_files files (record { store = store; cache = (seed roots [], w) }) in
        elim scanned [
          | err e ↦ (err e, (s.store, s.cache.1))
          | ok _ ↦
              let (saved, store') = save_git_roots drv (seed (s.cache.0) []) s.store in
              elim saved [
                | err e ↦ (err e, (store', s.cache.1))
                | ok _ ↦
                    let (paths, s') =
                      resolve_sessions rows rows [] [] (record s { store = store' }) in
                    (paths, (s'.store, s'.cache.1))
              ]
        ]
  ]
