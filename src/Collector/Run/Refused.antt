-- ===== src/Collector/Run/Refused.antt =====
-- Runs that the server does not answer (`Run` of internal/collector/collector.go).
use my_token.Base.{
  Text, ◌≡◌, refl, ap, ◌∙◌, Bool-cases, Option-cases, Result-cases, inl, inr, List, [], ◌∷◌, map,
  length, Map, none,
}
use my_token.Collector.Transcript.{UsageRow}
use my_token.Collector.Scan.{ScannedFile, find_transcript_files}
use my_token.Collector.Sent.{filter_unsent, load_sent_state}
use my_token.Collector.Sessions.{scan_session_paths}
use my_token.Collector.Run.{
  Setup, World, RunResult, Found, ClientEvent, ScanRootReport, BatchPoster, collect, post, send,
  attribute, run_found, run, no_result,
}

-- A server that answers no request.
abbrev pub IsRefusing : {P : Type 0} → BatchPoster P → Type 0
IsRefusing {P} poster =
    (roots : List ScanRootReport) (events : List ClientEvent) (p : P)
    → (poster roots events p).0 ≡ none

module _ {F W P : Type 0} (su : Setup F W P) where
  post_refused :
      (ids : List Text) (roots : List ScanRootReport) (events : List ClientEvent)
      (result : RunResult F) (w : World W P)
      → IsRefusing su.poster
      → (post su ids roots events result w).1.1.sent_file ≡ w.sent_file
  unfolding post
  post_refused ids roots events result w mute = rw (mute roots events w.server, post) refl

  send_refused :
      (ids : List Text) (found : Found) (new_rows : List UsageRow) (paths : Map Text)
      (result : RunResult F) (w : World W P)
      → IsRefusing su.poster
      → (send su ids found new_rows paths result w).1.1.sent_file ≡ w.sent_file
  unfolding send
  send_refused ids found [] paths result w mute = refl
  send_refused ids found (r ∷ rest) paths result w mute = post_refused ids _ _ _ w mute

  attribute_refused :
      (files : List ScannedFile) (found : Found) (ids : List Text) (new_rows : List UsageRow)
      (result : RunResult F) (w : World W P)
      → IsRefusing su.poster
      → (attribute su files found ids new_rows result w).1.1.sent_file ≡ w.sent_file
  unfolding attribute
  attribute_refused files found ids new_rows result w mute =
      let (scanned, (store, git)) =
        scan_session_paths su.drv su.dec su.fs su.read su.resolver (map (λ f. f.path) files)
          found.rows w.store w.git in
      let w' : World W P = record w { store = store; git = git } in
      elim (Bool-cases su.opens_store) [
        | inr shut ↦ rw (shut, attribute) refl
        | inl opened ↦ elim (Result-cases scanned) [
          | inr (f, failed) ↦ rw (opened, attribute) (rw failed refl)
          | inl (paths, got) ↦
              let r : attribute su files found ids new_rows result w
                  ≡ send su ids found new_rows paths result w' =
                rw (opened, attribute) (rw got refl) in
              ap (λ o. o.1.1.sent_file) r ∙ send_refused ids found new_rows paths result w' mute
        ]
      ]

  -- Where the server answers no request, a run leaves the file of sent ids as it was.
  pub run_refused : (w : World W P) → IsRefusing su.poster → (run su w).1.1.sent_file ≡ w.sent_file
  unfolding run run_found
  run_refused w mute = elim (Option-cases (find_transcript_files su.dec su.disk su.scan_paths)) [
    | inl lost ↦ rw (lost, run) refl
    | inr (files, at) ↦
        elim (Option-cases (collect su (record { rows = []; seen = []; origins = [] }) files)) [
          | inl lost ↦ rw (at, run) (rw lost refl)
          | inr (found, all) ↦ elim (Option-cases (load_sent_state su.decode_ids w.sent_file)) [
            | inl lost ↦ rw (at, run) (rw all (rw (lost, run_found) refl))
            | inr (ids, loaded) ↦
                let new_rows = filter_unsent ids found.rows in
                let result : RunResult F = record (no_result su) {
                  files_scanned = length files;
                  total_rows_found = length found.rows;
                  new_rows_found = length new_rows;
                } in
                let r : run su w ≡ attribute su files found ids new_rows result w =
                  rw (at, run) (rw all (rw (loaded, run_found) refl)) in
                ap (λ o. o.1.1.sent_file) r
                ∙ attribute_refused files found ids new_rows result w mute
          ]
        ]
  ]
