-- ===== src/Collector/Sessions/Incremental.antt =====
-- Scans of one file (the loop over the files of `scanSessionPaths`,
-- internal/collector/collector.go).
use mathlib.Core.List.{append_assoc}
use my_token.Base.{
  ℕ, Text, ◌≡◌, refl, ◌+◌, ◌%◌, ◌^◌, List-cases, inl, inr, true, List, [], ◌∷◌, ◌++◌, Map, length,
  drop, drop-append, length-append, Option, some, arith, ap, ◌∙◌, sym, Result, ok,
}
use my_token.Collector.TouchedPaths.{
  Decoders, paths_of_line, extract_touched_paths, first_session_id,
}
use my_token.Collector.Paths.{FileSystem, count_of, tally_git_roots}
use my_token.Collector.Paths.Cache.{logged, AgreesWith, tally_git_roots_cached}
use my_token.Collector.Store.{
  StoreDriver, Failure, rows_of, add_votes, scan_offset, set_scan_offset,
}
use my_token.Collector.Store.Votes.{
  IsTable, count_of-nil, scan_offset-set_scan_offset, add_votes-HasAdded,
}
use my_token.Collector.Sessions.{Scan, start_line, votes_of_lines, record_lines, scan_file}
use my_token.Collector.Sessions.Tally.{votes_in, votes_in-append, tally_onto_lem}

-- `vote_count` of a session and a root, as a 64-bit pattern
abbrev pub vote_count : {W : Type 0} → Text → Text → Scan W → ℕ
vote_count session root s = (count_of root (rows_of session s.store.session_path_votes)) % 2 ^ 64

extract_touched_paths-append :
    (dec : Decoders) (xs ys : List Text)
    → extract_touched_paths dec (xs ++ ys)
      ≡ extract_touched_paths dec xs ++ extract_touched_paths dec ys
unfolding extract_touched_paths
extract_touched_paths-append dec [] ys = refl
extract_touched_paths-append dec (x ∷ xs) ys =
    ap (λ l. paths_of_line dec x ++ l) (extract_touched_paths-append dec xs ys)
    ∙ sym (
        append_assoc (paths_of_line dec x) (extract_touched_paths dec xs)
          (extract_touched_paths dec ys))

first_session_id-append :
    (dec : Decoders) (xs ys : List Text) (session : Text)
    → first_session_id dec xs ≡ some session
    → first_session_id dec (xs ++ ys) ≡ some session
unfolding first_session_id
first_session_id-append dec [] ys session h = ground (arith, h)
first_session_id-append dec (x ∷ xs) ys session h =
    ground (arith, first_session_id-append dec xs ys session, h)

module _ (dec : Decoders) (fs : FileSystem) (answer : Text → Option Text) where
  -- The votes of lines are a table, which says how many of their paths vote for the root.
  votes_of_lines_lem :
      (root : Text) (lines : List Text) (cache : Map Text × List Text)
      → AgreesWith answer (cache.0)
      → IsTable ((votes_of_lines dec fs (logged answer) lines cache).0)
        × (((count_of root ((votes_of_lines dec fs (logged answer) lines cache).0)) % 2 ^ 64
              ≡ (votes_in answer fs root (extract_touched_paths dec lines)) % 2 ^ 64)
            × AgreesWith answer ((votes_of_lines dec fs (logged answer) lines cache).1.0))
  unfolding votes_of_lines tally_git_roots
  votes_of_lines_lem root lines cache a = elim (List-cases (extract_touched_paths dec lines)) [
    | inl e ↦ rw (e, votes_of_lines) (tt, (rw (count_of-nil root) refl, a))
    | inr (p, (ps, e)) ↦
        let (same, a') = tally_git_roots_cached answer fs (p ∷ ps) cache [] a in
        let (t, count) = tally_onto_lem answer fs root [] (p ∷ ps) [] tt in
        rw (e, votes_of_lines) (rw same (t, (ground (arith, count, count_of-nil root), a')))
  ]

  -- The lines after the old ones, and all lines of a new file.
  drop_start :
      (old more : List Text)
      → drop (start_line (length old) (length (old ++ more))) (old ++ more) ≡ more
  drop_start old more =
      let at : start_line (length old) (length (old ++ more)) ≡ length old =
        ground (arith, length-append old more) in
      ap (λ n. drop n (old ++ more)) at ∙ drop-append old more

  drop_none : (lines : List Text) → drop (start_line 0 (length lines)) lines ≡ lines
  drop_none lines =
      let at : start_line 0 (length lines) ≡ 0 = ground arith in ap (λ n. drop n lines) at

  abbrev votes_from : Text → List Text → ℕ
  votes_from root lines = votes_in answer fs root (extract_touched_paths dec lines)

  votes_split :
      (n : ℕ) (root : Text) (old more : List Text) (first second whole : ℕ)
      → first ≡ (n + votes_from root (drop (start_line 0 (length old)) old)) % 2 ^ 64
      → second
        ≡ (first
            + votes_from root (drop (start_line (length old) (length (old ++ more))) (old ++ more)))
          % 2 ^ 64
      → whole
        ≡ (n + votes_from root (drop (start_line 0 (length (old ++ more))) (old ++ more))) % 2 ^ 64
      → second ≡ whole
  votes_split n root old more first second whole e f g =
      let all : votes_from root (old ++ more) ≡ votes_from root old + votes_from root more =
        ap (votes_in answer fs root) (extract_touched_paths-append dec old more)
        ∙ votes_in-append answer fs root (extract_touched_paths dec old)
            (extract_touched_paths dec more) in
      let e' = ap (votes_from root) (drop_none old) in
      let f' = ap (votes_from root) (drop_start old more) in
      let g' = ap (votes_from root) (drop_none (old ++ more)) in
      omega (arith, all, e, f, g, e', f', g')

  -- All calls for this session and this file succeed.
  abbrev pub Works : StoreDriver → Text → Text → Type 0
  Works drv session file =
      (drv.reads_offset session file ≡ true)
      × ((drv.adds_votes session ≡ true) × (drv.sets_offset session file ≡ true))

  -- The outcome of a scan of a file that adds the votes of some lines.
  abbrev pub HasScanned :
      StoreDriver
      → Text
      → Text
      → Text
      → ℕ
      → List Text
      → Scan (List Text)
      → Result Failure (Unit {0}) × Scan (List Text)
      → Type 0
  HasScanned drv session file root total fresh s r =
      (r.0 ≡ ok tt)
      × ((vote_count session root (r.1)
            ≡ (vote_count session root s
                + votes_in answer fs root (extract_touched_paths dec fresh))
              % 2 ^ 64)
          × ((scan_offset drv session file (r.1.store) ≡ ok total)
              × AgreesWith answer (r.1.cache.0)))

  record_lines_lem :
      (drv : StoreDriver) (session file root : Text) (lines : List Text) (offset : ℕ)
      (s : Scan (List Text))
      → Works drv session file
      → AgreesWith answer (s.cache.0)
      → HasScanned drv session file root
          (length lines)
          (drop (start_line offset (length lines)) lines)
          s
          (record_lines drv dec fs (logged answer) session file lines offset s)
  unfolding record_lines set_scan_offset
  record_lines_lem drv session file root lines offset s (reads, (adds, sets)) a =
      let fresh = drop (start_line offset (length lines)) lines in
      let (t, (count, a')) = votes_of_lines_lem root fresh s.cache a in
      let votes = votes_of_lines dec fs (logged answer) fresh s.cache in
      let (added, (total, _)) = add_votes-HasAdded drv session root (votes.0) s.store adds t in
      rw (added, record_lines)
        (rw sets (
          refl,
          (
            ground (arith, total, count),
            (
              sym (rw sets refl)
                  ∙ scan_offset-set_scan_offset drv session file (length lines)
                      ((add_votes drv session (votes.0) s.store).1) reads sets,
              a',
            ),
          ),
        ))

  -- A scan of a file with a session id: the votes of the lines past the stored offset are added,
  -- and the offset becomes the number of lines.
  pub scan_file_lem :
      (drv : StoreDriver) (read : Text → Option (List Text)) (session file root : Text)
      (lines : List Text) (offset : ℕ) (s : Scan (List Text))
      → Works drv session file
      → AgreesWith answer (s.cache.0)
      → read file ≡ some lines
      → first_session_id dec lines ≡ some session
      → scan_offset drv session file s.store ≡ ok offset
      → HasScanned drv session file root
          (length lines)
          (drop (start_line offset (length lines)) lines)
          s
          (scan_file drv dec fs read (logged answer) file s)
  unfolding scan_file
  scan_file_lem drv read session file root lines offset s works a found id start =
      rw (found, scan_file)
        (rw id (rw start (record_lines_lem drv session file root lines offset s works a)))

  -- A file that is new, has a session id, is scanned, grows by more lines and is scanned again
  -- gets for every root the votes of one scan of the grown file, as 64-bit patterns, where no call
  -- fails, the resolver answers alike each time and the cache agrees with it.
  pub scan_file_grown :
      (drv : StoreDriver) (before after : Text → Option (List Text)) (session file root : Text)
      (old more : List Text) (s : Scan (List Text))
      → Works drv session file
      → AgreesWith answer (s.cache.0)
      → before file ≡ some old
      → after file ≡ some (old ++ more)
      → first_session_id dec old ≡ some session
      → scan_offset drv session file s.store ≡ ok 0
      → ((scan_file drv dec fs after
            (logged answer)
            file
            ((scan_file drv dec fs before (logged answer) file s).1)).0
          ≡ ok tt)
        × (vote_count session root (
              (scan_file drv dec fs after
                (logged answer)
                file
                ((scan_file drv dec fs before (logged answer) file s).1)).1)
            ≡ vote_count session root ((scan_file drv dec fs after (logged answer) file s).1))
  scan_file_grown drv before after session file root old more s works a seen grown id start =
      let id' = first_session_id-append dec old more session id in
      let (_, (count, (offset, a'))) =
        scan_file_lem drv before session file root old 0 s works a seen id start in
      let once = (scan_file drv dec fs before (logged answer) file s).1 in
      let (done, (count', _)) =
        scan_file_lem drv after session file root (old ++ more) (length old) once works a' grown id'
          offset in
      let (_, (whole, _)) =
        scan_file_lem drv after session file root (old ++ more) 0 s works a grown id' start in
      (
        done,
        votes_split (vote_count session root s) root old more (vote_count session root once)
            (vote_count session root ((scan_file drv dec fs after (logged answer) file once).1))
            (vote_count session root ((scan_file drv dec fs after (logged answer) file s).1)) count
            count' whole,
      )
