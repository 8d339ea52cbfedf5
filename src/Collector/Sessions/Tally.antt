-- ===== src/Collector/Sessions/Tally.antt =====
-- Counting votes one by one (`TallyGitRoots` of internal/collector/path.go), against the number
-- of the paths that vote for a root.
use my_token.Base.{
  ℕ, Text, ◌≡◌, refl, ◌+◌, ◌%◌, ◌^◌, ◌==◌, ◌||◌, ==_iff, Bool, Bool-cases, inl, inr, false, List,
  [], ◌∷◌, ◌++◌, Map, filter, length, length-append, filter-append, add_int64, Option, none, some,
  if◌then◌else◌, arith, ap, ◌∙◌,
}
use my_token.Collector.TouchedPaths.{is_scratch_path}
use my_token.Collector.Paths.{FileSystem, count_of, cast_vote, vote_of, tally_onto}
use my_token.Collector.Paths.Cache.{logged}
use my_token.Collector.Store.Votes.{IsTable, insert-IsTable, count_of-insert}

abbrev pub is_for : Text → Option Text → Bool
is_for root none = false
is_for root (some r) = r == root

module _ (answer : Text → Option Text) (fs : FileSystem) where
  -- How many of the paths vote for the root.
  abbrev pub votes_in : Text → List Text → ℕ
  votes_in root touched =
      length (filter (λ p. is_for root ((vote_of fs (logged answer) p []).0)) touched)

  pub votes_in-append :
      (root : Text) (ps qs : List Text)
      → votes_in root (ps ++ qs) ≡ votes_in root ps + votes_in root qs
  votes_in-append root ps qs =
      let f = λ (p : Text). is_for root ((vote_of fs (logged answer) p []).0) in
      ap length (filter-append f ps qs) ∙ length-append (filter f ps) (filter f qs)

  count_of-cast_vote :
      (root : Text) (v : Option Text) (m : Map ℕ)
      → count_of root (cast_vote v m)
        ≡ (if is_for root v then add_int64 (count_of root m) 1 else count_of root m)
  unfolding cast_vote
  count_of-cast_vote root none m = refl
  count_of-cast_vote root (some r) m =
      ground (arith, count_of-insert root r (add_int64 (count_of r m) 1) m, ==_iff r root)

  cast_vote-IsTable : (v : Option Text) (m : Map ℕ) → IsTable m → IsTable (cast_vote v m)
  unfolding cast_vote
  cast_vote-IsTable none m t = t
  cast_vote-IsTable (some r) m t = insert-IsTable r (add_int64 (count_of r m) 1) m t

  -- What a path votes for does not depend on the log.
  vote_of_any_log :
      (p : Text) (log : List Text)
      → (vote_of fs (logged answer) p log).0 ≡ (vote_of fs (logged answer) p []).0
  unfolding vote_of
  vote_of_any_log p log = elim (Bool-cases (p == [] || is_scratch_path p)) [
    | inl h ↦ rw h refl
    | inr h ↦ rw h refl
  ]

  pub tally_onto_lem :
      (root : Text) (m : Map ℕ) (ps : List Text) (log : List Text)
      → IsTable m
      → IsTable ((tally_onto fs (logged answer) m ps log).0)
        × ((count_of root ((tally_onto fs (logged answer) m ps log).0)) % 2 ^ 64
            ≡ (count_of root m + votes_in root ps) % 2 ^ 64)
  unfolding tally_onto
  tally_onto_lem root m [] log t = (t, ground arith)
  tally_onto_lem root m (p ∷ ps) log t =
      let v = vote_of fs (logged answer) p log in
      let (t', count) =
        tally_onto_lem root (cast_vote (v.0) m) ps (v.1) (cast_vote-IsTable (v.0) m t) in
      (t', ground (arith, count, count_of-cast_vote root (v.0) m, vote_of_any_log p log))
