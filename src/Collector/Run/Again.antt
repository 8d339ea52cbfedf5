-- ===== src/Collector/Run/Again.antt =====
-- What a run leaves for the next one (`Run` of internal/collector/collector.go).
use mathlib.Core.Path.{subst}
use my_token.Base.{
  Text, sym, ap, ◌∙◌, lt_text, ◌≡◌, refl, ◌==◌, ==_refl, Bool-cases, Option-cases, Result-cases,
  inl, inr, true, ◌||◌, List, [], ◌∷◌, map, any, length, Map, member, add_member, member-add_member,
  none, some, arith,
}
use my_token.Usage.Summary.{sort_stable}
use my_token.Collector.Transcript.{UsageRow}
use my_token.Collector.Scan.{ScannedFile, find_transcript_files}
use my_token.Collector.Sent.{
  SentFile, content, load_ids, load_sent_state, sent, mark_sent, filter_unsent, save,
}
use my_token.Collector.Sessions.{scan_session_paths}
use my_token.Collector.Run.{
  scan_error, read_error, state_error, open_error, path_error, post_error, save_error, Setup, World,
  RunResult, Found, ClientEvent, ScanRootReport, collect, event_of, mark_all, post, send, run,
  report_roots, estimated, no_result, attribute, run_found,
}

member-load_ids :
    (j : Text) (ids more : List Text)
    → member j (load_ids ids more) ≡ (member j ids || member j more)
unfolding load_ids member
member-load_ids j ids [] = ground arith
member-load_ids j ids (i ∷ more) =
    ground (arith, member-load_ids j (add_member i ids) more, member-add_member i j ids)

member-mark_all :
    (j : Text) (ids : List Text) (events : List ClientEvent)
    → member j (mark_all ids events) ≡ (member j ids || any (λ e. e.id == j) events)
unfolding mark_all mark_sent
member-mark_all j ids [] = ground arith
member-mark_all j ids (e ∷ events) =
    ground (arith, member-mark_all j (add_member e.id ids) events, member-add_member e.id j ids)

filter_unsent_nil :
    (ids ids' : List Text) (rows : List UsageRow)
    → ((j : Text) → member j ids ≡ true → member j ids' ≡ true)
    → ((j : Text)
        → any (λ r. r.message_id == j) (filter_unsent ids rows) ≡ true
        → member j ids' ≡ true)
    → filter_unsent ids' rows ≡ []
unfolding filter_unsent sent
filter_unsent_nil ids ids' [] old new = refl
filter_unsent_nil ids ids' (r ∷ rows) old new = ground (
  arith,
  filter_unsent_nil ids ids' rows old (λ j h. new j (ground (arith, h))),
  old r.message_id,
  new r.message_id,
  ==_refl r.message_id,
)

module _ {F W P : Type 0} (su : Setup F W P) where
  any-event_of :
      (j : Text) (found : Found) (paths : Map Text) (rows : List UsageRow)
      → any (λ e. e.id == j) (map (event_of su found paths) rows)
        ≡ any (λ r. r.message_id == j) rows
  unfolding event_of
  any-event_of j found paths [] = refl
  any-event_of j found paths (r ∷ rows) = ground (arith, any-event_of j found paths rows)

  -- The file of sent ids can be read and says that all rows were sent.
  abbrev IsEmptied : Found → SentFile → Type 0
  IsEmptied found file =
      (ids : List Text) × ((load_sent_state su.decode_ids file ≡ some ids)
        × (filter_unsent ids found.rows ≡ []))

  Law : Type 0
  Law = (l : List Text) → su.decode_ids (su.encode_ids l) ≡ some l

  marked-IsEmptied :
      (ids : List Text) (found : Found) (paths : Map Text) (new_rows : List UsageRow)
      → Law
      → filter_unsent ids found.rows ≡ new_rows
      → IsEmptied found
          (content (su.encode_ids (mark_all ids (map (event_of su found paths) new_rows))))
  unfolding load_sent_state Law
  marked-IsEmptied ids found paths new_rows law e =
      let events = map (event_of su found paths) new_rows in
      let all = mark_all ids events in
      (
        load_ids [] all,
        (
          rw (law all, load_sent_state) refl,
          filter_unsent_nil ids (load_ids [] all) found.rows
              (λ j h. ground (arith, member-load_ids j [] all, member-mark_all j ids events))
              (λ j h.
                let h' : any (λ r. r.message_id == j) new_rows ≡ true =
                  subst (λ rows. any (λ r. r.message_id == j) rows ≡ true) e h in
                ground (
                  arith,
                  h',
                  member-load_ids j [] all,
                  member-mark_all j ids events,
                  any-event_of j found paths new_rows,
                )),
        ),
      )

  post-IsEmptied :
      (ids : List Text) (found : Found) (paths : Map Text) (new_rows : List UsageRow)
      (roots : List ScanRootReport) (result : RunResult F) (w : World W P)
      → Law
      → filter_unsent ids found.rows ≡ new_rows
      → (post su ids roots (map (event_of su found paths) new_rows) result w).0 ≡ none
      → IsEmptied found
          ((post su ids roots (map (event_of su found paths) new_rows) result w).1.1.sent_file)
  unfolding post save event_of
  post-IsEmptied ids found paths new_rows roots result w law e done =
      let events = map (event_of su found paths) new_rows in
      elim (Option-cases ((su.poster roots events w.server).0)) [
        | inl no_answer ↦
            let run : (post su ids roots events result w).0 ≡ some post_error =
              rw (no_answer, post) refl in
            ground (arith, run, done)
        | inr (b, answer) ↦ elim (Bool-cases su.writes_state) [
          | inl writes ↦
              rw (answer, post) (rw writes (marked-IsEmptied ids found paths new_rows law e))
          | inr shut ↦
              let run : (post su ids roots events result w).0 ≡ some save_error =
                rw (answer, post) (rw shut refl) in
              ground (arith, run, done)
        ]
      ]

  send-IsEmptied :
      (ids : List Text) (found : Found) (paths : Map Text) (new_rows : List UsageRow)
      (result : RunResult F) (w : World W P)
      → Law
      → filter_unsent ids found.rows ≡ new_rows
      → load_sent_state su.decode_ids w.sent_file ≡ some ids
      → (send su ids found new_rows paths result w).0 ≡ none
      → IsEmptied found ((send su ids found new_rows paths result w).1.1.sent_file)
  unfolding send
  send-IsEmptied ids found paths [] result w law e loaded done = (ids, (loaded, e))
  send-IsEmptied ids found paths (r ∷ rest) result w law e loaded done =
      post-IsEmptied ids found paths (r ∷ rest)
        (sort_stable (λ a b. lt_text a.path b.path)
          (map (λ p. p.1) (report_roots found [] (r ∷ rest))))
        (record result { estimated_cost_us = estimated su result.estimated_cost_us (r ∷ rest) }) w
        law e done

  nothing_found : Found
  nothing_found = record { rows = []; seen = []; origins = [] }

  attribute-IsEmptied :
      (files : List ScannedFile) (found : Found) (ids : List Text) (new_rows : List UsageRow)
      (result : RunResult F) (w : World W P)
      → Law
      → filter_unsent ids found.rows ≡ new_rows
      → load_sent_state su.decode_ids w.sent_file ≡ some ids
      → (attribute su files found ids new_rows result w).0 ≡ none
      → IsEmptied found ((attribute su files found ids new_rows result w).1.1.sent_file)
  unfolding attribute
  attribute-IsEmptied files found ids new_rows result w law e loaded done =
      let (scanned, (store, git)) =
        scan_session_paths su.drv su.dec su.fs su.read su.resolver (map (λ f. f.path) files)
          found.rows w.store w.git in
      let w' : World W P = record w { store = store; git = git } in
      elim (Bool-cases su.opens_store) [
        | inr shut ↦
            let r : (attribute su files found ids new_rows result w).0 ≡ some open_error =
              rw (shut, attribute) refl in
            ground (arith, r, done)
        | inl opened ↦ elim (Result-cases scanned) [
          | inr (f, failed) ↦
              let r : (attribute su files found ids new_rows result w).0 ≡ some path_error =
                rw (opened, attribute) (rw failed refl) in
              ground (arith, r, done)
          | inl (paths, got) ↦
              let r : attribute su files found ids new_rows result w
                  ≡ send su ids found new_rows paths result w' =
                rw (opened, attribute) (rw got refl) in
              subst (λ o. IsEmptied found (o.1.1.sent_file)) (sym r)
                (send-IsEmptied ids found paths new_rows result w' law e loaded
                  (ap (λ o. o.0) (sym r) ∙ done))
        ]
      ]

  run_found-IsEmptied :
      (files : List ScannedFile) (found : Found) (result : RunResult F) (w : World W P)
      → Law
      → (run_found su files found result w).0 ≡ none
      → IsEmptied found ((run_found su files found result w).1.1.sent_file)
  unfolding run_found
  run_found-IsEmptied files found result w law done =
      elim (Option-cases (load_sent_state su.decode_ids w.sent_file)) [
        | inl lost ↦
            let r : (run_found su files found result w).0 ≡ some state_error =
              rw (lost, run_found) refl in
            ground (arith, r, done)
        | inr (ids, loaded) ↦
            let new_rows = filter_unsent ids found.rows in
            let result' : RunResult F = record result { new_rows_found = length new_rows } in
            let r : run_found su files found result w
                ≡ attribute su files found ids new_rows result' w =
              rw (loaded, run_found) refl in
            subst (λ o. IsEmptied found (o.1.1.sent_file)) (sym r)
              (attribute-IsEmptied files found ids new_rows result' w law refl loaded
                (ap (λ o. o.0) (sym r) ∙ done))
      ]

  -- Without a new row nothing is sent.
  attribute_nothing :
      (files : List ScannedFile) (found : Found) (ids : List Text) (result : RunResult F)
      (w : World W P)
      → ((attribute su files found ids [] result w).1.0.new_rows_found ≡ result.new_rows_found)
        × ((attribute su files found ids [] result w).1.1.server ≡ w.server)
  unfolding attribute send
  attribute_nothing files found ids result w = elim (Bool-cases su.opens_store) [
    | inr shut ↦ rw (shut, attribute) (refl, refl)
    | inl opened ↦
        elim (Result-cases (
          (scan_session_paths su.drv su.dec su.fs su.read su.resolver (map (λ f. f.path) files)
            found.rows w.store w.git).0)) [
              | inl (paths, got) ↦ rw (opened, attribute) (rw got (refl, refl))
              | inr (f, failed) ↦ rw (opened, attribute) (rw failed (refl, refl))
            ]
  ]

  run_found_nothing :
      (files : List ScannedFile) (found : Found) (result : RunResult F) (w : World W P)
      → IsEmptied found w.sent_file
      → ((run_found su files found result w).1.0.new_rows_found ≡ 0)
        × ((run_found su files found result w).1.1.server ≡ w.server)
  unfolding run_found
  run_found_nothing files found result w (ids, (loaded, none_new)) =
      let result_for : List UsageRow → RunResult F =
        λ rows. record result { new_rows_found = length rows } in
      rw (loaded, run_found)
        (subst
          (λ rows.
            ((attribute su files found ids rows (result_for rows) w).1.0.new_rows_found ≡ 0)
            × ((attribute su files found ids rows (result_for rows) w).1.1.server ≡ w.server))
          (sym none_new) (attribute_nothing files found ids (result_for []) w))

  -- After a run without an error, a second run on the same files finds no new row, and asks
  -- nothing of the server, where the ids that are written are read back.
  pub run_again :
      (w : World W P)
      → ((ids : List Text) → su.decode_ids (su.encode_ids ids) ≡ some ids)
      → (run su w).0 ≡ none
      → ((run su ((run su w).1.1)).1.0.new_rows_found ≡ 0)
        × ((run su ((run su w).1.1)).1.1.server ≡ (run su w).1.1.server)
  unfolding run Law
  run_again w law done = elim (Option-cases (find_transcript_files su.dec su.disk su.scan_paths)) [
    | inl lost ↦
        let r : (run su w).0 ≡ some scan_error = rw (lost, run) refl in ground (arith, r, done)
    | inr (files, at) ↦
        elim (Option-cases (collect su (record { rows = []; seen = []; origins = [] }) files)) [
          | inl lost ↦
              let r : (run su w).0 ≡ some read_error = rw (at, run) (rw lost refl) in
              ground (arith, r, done)
          | inr (found, all) ↦
              let result : RunResult F = record (no_result su) {
                files_scanned = length files;
                total_rows_found = length found.rows;
              } in
              let r : (w : World W P) → run su w ≡ run_found su files found result w =
                λ w. rw (at, run) (rw all refl) in
              let emptied =
                run_found-IsEmptied files found result w law (ap (λ o. o.0) (sym (r w)) ∙ done) in
              rw (r w) (
                rw (r ((run_found su files found result w).1.1)) (
                  run_found_nothing files found result ((run_found su files found result w).1.1)
                    emptied))
        ]
  ]
