-- ===== src/Collector/Store.antt =====
-- The collector's local database (internal/collector/pathstore.go). A table whose primary key
-- starts with the session is a map from the session to a map; `resolved_at` is left out, since
-- nothing reads it. `StoreDriver` says which calls of the database succeed.
pub mod Votes
use my_token.Base.{
  ℕ, Text, eqb, Bool, true, false, not, List, [], ◌∷◌, Map, lookup, insert, filter, Option, none,
  some, add_int64, if◌then◌else◌, Result, ok, err,
}
use my_token.Collector.Paths.{seed, count_of}

pub record PathStore : Type 0 where
  pub git_root_cache : Map Text
  -- session_id, git_root, vote_count
  pub session_path_votes : Map (Map ℕ)
  -- session_id, file_path, line_offset
  pub session_scan_progress : Map (Map ℕ)

pub data Failure : Type 0 where
  load_failed save_failed votes_failed offset_failed read_failed : Failure

pub record StoreDriver : Type 0 where
  pub loads_git_roots : Bool
  pub saves_git_roots : Bool
  pub adds_votes : Text → Bool
  pub reads_votes : Text → Bool
  pub reads_offset : Text → Text → Bool
  pub sets_offset : Text → Text → Bool

-- The rows of one session, none where it has none.
unfoldable pub rows_of : Text → Map (Map ℕ) → Map ℕ
rows_of session table = elim (lookup session table) [ none ↦ [] | some rows ↦ rows ]

module _ (drv : StoreDriver) where
  unfoldable pub all_git_roots : PathStore → Result Failure (Map Text)
  all_git_roots s = if drv.loads_git_roots then ok (seed s.git_root_cache []) else err load_failed

  unfoldable pub save_git_roots : Map Text → PathStore → Result Failure (Unit {0}) × PathStore
  save_git_roots [] s = (ok tt, s)
  save_git_roots (e ∷ snapshot) s =
      if drv.saves_git_roots
      then (ok tt, record s { git_root_cache = seed (e ∷ snapshot) s.git_root_cache })
      else (err save_failed, s)

-- `nonZero`
unfoldable pub non_zero : Map ℕ → Map ℕ
non_zero deltas = filter (λ d. not (eqb (d.1) 0)) deltas

-- `ON CONFLICT … DO UPDATE SET vote_count = vote_count + excluded.vote_count`, for each delta
unfoldable pub upsert_votes : Map ℕ → Map ℕ → Map ℕ
upsert_votes [] rows = rows
upsert_votes ((root, delta) ∷ deltas) rows =
    upsert_votes deltas (insert root (add_int64 (count_of root rows) delta) rows)

module _ (drv : StoreDriver) where
  unfoldable pub add_votes : Text → Map ℕ → PathStore → Result Failure (Unit {0}) × PathStore
  unfolding non_zero upsert_votes rows_of
  add_votes session deltas s = elim (non_zero deltas) [
    | [] ↦ (ok tt, s)
    | d ∷ ds ↦
        if drv.adds_votes session
        then (
          ok tt,
          record s {
            session_path_votes =
                insert session (upsert_votes (d ∷ ds) (rows_of session s.session_path_votes))
                  s.session_path_votes;
          },
        )
        else (err votes_failed, s)
  ]

  unfoldable pub vote_counts : Text → PathStore → Result Failure (Map ℕ)
  unfolding rows_of
  vote_counts session s =
      if drv.reads_votes session
      then ok (rows_of session s.session_path_votes)
      else err votes_failed

  unfoldable pub scan_offset : Text → Text → PathStore → Result Failure ℕ
  unfolding rows_of
  scan_offset session file s =
      if drv.reads_offset session file
      then ok
          (elim (lookup file (rows_of session s.session_scan_progress)) [ none ↦ 0 | some n ↦ n ])
      else err offset_failed

  unfoldable pub set_scan_offset :
      Text → Text → ℕ → PathStore → Result Failure (Unit {0}) × PathStore
  unfolding rows_of
  set_scan_offset session file offset s =
      if drv.sets_offset session file
      then (
        ok tt,
        record s {
          session_scan_progress =
              insert session (insert file offset (rows_of session s.session_scan_progress))
                s.session_scan_progress;
        },
      )
      else (err offset_failed, s)
