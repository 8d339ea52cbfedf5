-- ===== src/Collector/Paths.antt =====
-- The path of a session (internal/collector/path.go). A resolver of git roots acts on a state of
-- the caller's; the file system and package path/filepath are arguments.
pub mod Majority
pub mod Cache
use my_token.Base.{
  ℕ, suc, Text, codes, ◌==◌, lt_text, eqb, ltb, ◌-◌, ◌%◌, ◌^◌, Bool, true, false, not, ◌&&◌, ◌||◌,
  List, [], ◌∷◌, Map, lookup, insert, length, Option, none, some, add_int64, lt_int64,
  if◌then◌else◌,
}
use my_token.Collector.TouchedPaths.{is_scratch_path}
use my_token.Collector.Transcript.{UsageRow}

abbrev pub unknown_path : Text
unknown_path = codes "(unknown)"

-- `GitRootResolver`: `none` for an error.
abbrev pub GitRootResolver : Type 0 → Type 0
GitRootResolver W = Text → W → Option Text × W

-- `os.Stat` (`some true` for a directory), `filepath.Dir` and `filepath.Base`.
pub record FileSystem : Type 0 where
  pub stat : Text → Option Bool
  pub dir : Text → Text
  pub base : Text → Text

-- What `root, err := …; err != nil || root == ""` leaves.
unfoldable pub root_or : Text → Option Text → Text
root_or default none = default
root_or default (some root) = if root == [] then default else root

unfoldable pub resolve_session_path : {W : Type 0} → GitRootResolver W → Text → W → Text × W
unfolding root_or
resolve_session_path resolver cwd w = let (root, w') = resolver cwd w in (root_or cwd root, w')

unfoldable pub first_cwd_bearing_row : List UsageRow → Text → Option Text
first_cwd_bearing_row [] session = none
first_cwd_bearing_row (r ∷ rows) session =
    let rest = first_cwd_bearing_row rows session in
    if not (r.session_id == session) then rest else if not (r.cwd == []) then some r.cwd else rest

-- `Seed`
unfoldable pub seed : Map Text → Map Text → Map Text
seed [] cache = cache
seed ((dir, root) ∷ entries) cache = seed entries (insert dir root cache)

-- `CachedGitRootResolver`: its state is the cache and the state of what it wraps.
unfoldable pub cached_git_root_resolver :
    {W : Type 0} → GitRootResolver W → GitRootResolver (Map Text × W)
cached_git_root_resolver resolver dir (cache, w) = elim (lookup dir cache) [
  | some root ↦ (some root, (cache, w))
  | none ↦
      let (found, w') = resolver dir w in
      elim found [
        | none ↦ (none, (cache, w'))
        | some root ↦ (some root, (insert dir root cache, w'))
      ]
]

-- `strings.LastIndex(s, ".")`
unfoldable pub last_dot : Text → Option ℕ
last_dot [] = none
last_dot (c ∷ s) = elim (last_dot s) [
  | some i ↦ some (suc i)
  | none ↦ if eqb c b'.' then some 0 else none
]

unfoldable pub has_real_extension : Text → Bool
unfolding last_dot
has_real_extension base = elim (last_dot base) [
  | none ↦ false
  | some idx ↦ ltb 0 idx && ltb (suc idx) (length base)
]

-- `counts[root]`, 0 where the key is missing
unfoldable pub count_of : Text → Map ℕ → ℕ
count_of root counts = elim (lookup root counts) [ none ↦ 0 | some c ↦ c ]

-- `counts[root]++`, which `continue` skips.
unfoldable pub cast_vote : Option Text → Map ℕ → Map ℕ
unfolding count_of
cast_vote none counts = counts
cast_vote (some root) counts = insert root (add_int64 (count_of root counts) 1) counts

-- Equality of `int64` values.
abbrev pub eq_int64 : ℕ → ℕ → Bool
eq_int64 a b = eqb (a % 2 ^ 64) (b % 2 ^ 64)

-- The condition of the loop of `MajorityGitRoot`.
unfoldable pub beats : Text × ℕ → Text × ℕ → Bool
beats (r, c) (root, best) = lt_int64 best c || (eq_int64 c best && lt_int64 0 c && lt_text r root)

-- The loop, in the order of the iteration.
unfoldable pub leader : Text × ℕ → Map ℕ → Text × ℕ
leader w [] = w
leader w (e ∷ counts) = leader (if beats e w then e else w) counts

unfoldable pub majority_git_root : Map ℕ → Option Text
unfolding leader beats
majority_git_root counts =
    let (root, best) = leader ([], 0) counts in if lt_int64 0 best then some root else none

module _ (fs : FileSystem) where
  unfoldable pub dir_for_git_root : Text → Text
  unfolding has_real_extension
  dir_for_git_root touched = elim (fs.stat touched) [
    | some is_dir ↦ if is_dir then touched else fs.dir touched
    | none ↦ if has_real_extension (fs.base touched) then fs.dir touched else touched
  ]

  module _ {W : Type 0} (resolver : GitRootResolver W) where
    -- The root that a path votes for.
    unfoldable pub vote_of : Text → W → Option Text × W
    unfolding dir_for_git_root root_or
    vote_of p w =
        if p == [] || is_scratch_path p
        then (none, w)
        else (let (root, w') = resolver (dir_for_git_root p) w in
            (some (root_or (dir_for_git_root p) root), w'))

    unfoldable pub tally_onto : Map ℕ → List Text → W → Map ℕ × W
    unfolding vote_of cast_vote
    tally_onto counts [] w = (counts, w)
    tally_onto counts (p ∷ ps) w =
        let (vote, w') = vote_of p w in tally_onto (cast_vote vote counts) ps w'

    unfoldable pub tally_git_roots : List Text → W → Map ℕ × W
    unfolding tally_onto
    tally_git_roots touched w = tally_onto [] touched w

    unfoldable pub resolve_session_path_touched : List Text → W → Option Text × W
    unfolding tally_git_roots majority_git_root
    resolve_session_path_touched touched w =
        let (counts, w') = tally_git_roots touched w in (majority_git_root counts, w')

    -- `cwd` is `none` where `cwdOK` is false.
    unfoldable pub resolve_path_from_vote_counts : Map ℕ → Option Text → W → Text × W
    unfolding majority_git_root resolve_session_path
    resolve_path_from_vote_counts counts cwd w = elim (majority_git_root counts) [
      | some winner ↦ (winner, w)
      | none ↦ elim cwd [ some c ↦ resolve_session_path resolver c w | none ↦ (unknown_path, w) ]
    ]

    unfoldable pub resolve_session_path_full : List Text → Option Text → W → Text × W
    unfolding tally_git_roots resolve_path_from_vote_counts
    resolve_session_path_full touched cwd w =
        let (counts, w') = tally_git_roots touched w in resolve_path_from_vote_counts counts cwd w'
