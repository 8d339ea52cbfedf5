-- ===== src/Collector/Paths/Cache.antt =====
-- What the cache of git roots does to the resolver behind it (`CachedGitRootResolver` of
-- internal/collector/path.go).
use my_token.Base.{
  ℕ, Text, ◌∙◌, sym, ap, ◌||◌, ◌≡◌, refl, Bool, Bool-cases, Option-cases, inl, inr, true, false, [],
  ◌∷◌, List, Map, Option, none, some, ◌==◌, ==_iff, member, HasNoRepeats, lookup, insert,
  lookup-insert, filter, arith,
}
use my_token.Collector.TouchedPaths.{is_scratch_path}
use my_token.Collector.Paths.{
  GitRootResolver, FileSystem, cached_git_root_resolver, root_or, dir_for_git_root, vote_of,
  cast_vote, tally_onto, tally_git_roots,
}

-- A resolver whose state is the list of the directories it was asked for.
abbrev pub logged : (Text → Option Text) → GitRootResolver (List Text)
logged answer dir log = (answer dir, dir ∷ log)

abbrev pub is_some : {A : Type 0} → Option A → Bool
is_some none = false
is_some (some a) = true

-- The directories with an answer, among those it was asked for.
abbrev pub answered : (Text → Option Text) → List Text → List Text
answered answer log = filter (λ d. is_some (answer d)) log

-- The cache holds what the resolver answers, and nothing else.
abbrev pub AgreesWith : (Text → Option Text) → Map Text → Type 0
AgreesWith answer cache = (dir root : Text) → lookup dir cache ≡ some root → answer dir ≡ some root

module _ (answer : Text → Option Text) where
  -- No directory was answered twice, and all answers are in the cache.
  abbrev pub IsKept : Map Text × List Text → Type 0
  IsKept s =
      HasNoRepeats (answered answer (s.1))
      × ((dir : Text)
          → member dir (answered answer (s.1)) ≡ true
          → is_some (lookup dir (s.0)) ≡ true)

  IsKept-insert :
      (dir root : Text) (cache : Map Text) (log : List Text)
      → lookup dir cache ≡ none
      → is_some (answer dir) ≡ true
      → IsKept (cache, log)
      → IsKept (insert dir root cache, dir ∷ log)
  unfolding member
  IsKept-insert dir root cache log miss found (once, kept) =
      let fresh : member dir (answered answer log) ≡ false = ground (arith, kept dir) in
      rw found
        ((fresh, once), λ d h. ground (arith, kept d, lookup-insert dir d root cache, ==_iff dir d))

  IsKept-skip :
      (dir : Text) (cache : Map Text) (log : List Text)
      → is_some (answer dir) ≡ false
      → IsKept (cache, log)
      → IsKept (cache, dir ∷ log)
  IsKept-skip dir cache log no_root kept = rw no_root kept

  cached-IsKept :
      (dir : Text) (s : Map Text × List Text)
      → IsKept s
      → IsKept ((cached_git_root_resolver (logged answer) dir s).1)
  unfolding cached_git_root_resolver
  cached-IsKept dir (cache, log) k = elim (Option-cases (lookup dir cache)) [
    | inr (root, hit) ↦ rw (hit, cached_git_root_resolver) k
    | inl miss ↦ elim (Option-cases (answer dir)) [
      | inl no_root ↦
          rw (miss, cached_git_root_resolver)
            (rw no_root (IsKept-skip dir cache log (rw no_root refl) k))
      | inr (root, found) ↦
          rw (miss, cached_git_root_resolver)
            (rw found (IsKept-insert dir root cache log miss (rw found refl) k))
    ]
  ]

  module _ (fs : FileSystem) where
    abbrev cached : GitRootResolver (Map Text × List Text)
    cached = cached_git_root_resolver (logged answer)

    vote_of-IsKept :
        (p : Text) (s : Map Text × List Text) → IsKept s → IsKept ((vote_of fs cached p s).1)
    unfolding vote_of
    vote_of-IsKept p s k = elim (Bool-cases (p == [] || is_scratch_path p)) [
      | inl h ↦ rw (h, vote_of) k
      | inr h ↦ rw (h, vote_of) (cached-IsKept (dir_for_git_root fs p) s k)
    ]

    tally_onto-IsKept :
        (counts : Map ℕ) (ps : List Text) (s : Map Text × List Text)
        → IsKept s
        → IsKept ((tally_onto fs cached counts ps s).1)
    unfolding tally_onto
    tally_onto-IsKept counts [] s k = k
    tally_onto-IsKept counts (p ∷ ps) s k =
        let (vote, s') = vote_of fs cached p s in
        tally_onto-IsKept (cast_vote vote counts) ps s' (vote_of-IsKept p s k)

  IsKept-start : (cache : Map Text) → IsKept (cache, [])
  unfolding member
  IsKept-start cache = (tt, λ d h. ground arith)

  -- However many paths vote, and whatever the cache was seeded with, no directory that has a git
  -- root is resolved twice.
  pub tally_git_roots_once :
      (fs : FileSystem) (touched : List Text) (cache : Map Text)
      → HasNoRepeats (
          answered answer (
            (tally_git_roots fs
              (cached_git_root_resolver (logged answer))
              touched
              (cache, [])).1.1))
  unfolding tally_git_roots
  tally_git_roots_once fs touched cache =
      (tally_onto-IsKept fs [] touched (cache, []) (IsKept-start cache)).0

  cached-AgreesWith :
      (dir : Text) (cache : Map Text) (log : List Text)
      → AgreesWith answer cache
      → ((cached_git_root_resolver (logged answer) dir (cache, log)).0 ≡ answer dir)
        × AgreesWith answer ((cached_git_root_resolver (logged answer) dir (cache, log)).1.0)
  unfolding cached_git_root_resolver
  cached-AgreesWith dir cache log a = elim (Option-cases (lookup dir cache)) [
    | inr (root, hit) ↦ rw (hit, cached_git_root_resolver) (sym (a dir root hit), a)
    | inl miss ↦ elim (Option-cases (answer dir)) [
      | inl no_root ↦ rw (miss, cached_git_root_resolver) (rw no_root (refl, a))
      | inr (root, found) ↦
          rw (miss, cached_git_root_resolver)
            (rw found
              (refl, λ d r h. ground (arith, a d r, lookup-insert dir d root cache, ==_iff dir d)))
    ]
  ]

  module _ (fs : FileSystem) where
    vote_of-AgreesWith :
        (p : Text) (cache : Map Text) (log log' : List Text)
        → AgreesWith answer cache
        → ((vote_of fs (cached_git_root_resolver (logged answer)) p (cache, log)).0
            ≡ (vote_of fs (logged answer) p log').0)
          × AgreesWith answer
              ((vote_of fs (cached_git_root_resolver (logged answer)) p (cache, log)).1.0)
    unfolding vote_of
    vote_of-AgreesWith p cache log log' a = elim (Bool-cases (p == [] || is_scratch_path p)) [
      | inl h ↦ rw (h, vote_of) (refl, a)
      | inr h ↦
          let (same, a') = cached-AgreesWith (dir_for_git_root fs p) cache log a in
          rw (h, vote_of) (ap (λ o. some (root_or (dir_for_git_root fs p) o)) same, a')
    ]

    pub tally_onto_cached :
        (counts : Map ℕ) (touched : List Text) (s : Map Text × List Text) (log : List Text)
        → AgreesWith answer (s.0)
        → ((tally_onto fs (cached_git_root_resolver (logged answer)) counts touched s).0
            ≡ (tally_onto fs (logged answer) counts touched log).0)
          × AgreesWith answer
              ((tally_onto fs (cached_git_root_resolver (logged answer)) counts touched s).1.0)
    unfolding tally_onto
    tally_onto_cached counts [] s log a = (refl, a)
    tally_onto_cached counts (p ∷ ps) s log a =
        let (same, a') = vote_of-AgreesWith p (s.0) (s.1) log a in
        let v = vote_of fs (cached_git_root_resolver (logged answer)) p s in
        let u = vote_of fs (logged answer) p log in
        let (rest, a'') = tally_onto_cached (cast_vote (v.0) counts) ps (v.1) (u.1) a' in
        (rest ∙ ap (λ o. (tally_onto fs (logged answer) (cast_vote o counts) ps (u.1)).0) same, a'')

    -- With a cache that agrees with the resolver, the votes are those of the resolver alone, and
    -- the cache still agrees with it.
    pub tally_git_roots_cached :
        (touched : List Text) (s : Map Text × List Text) (log : List Text)
        → AgreesWith answer (s.0)
        → ((tally_git_roots fs (cached_git_root_resolver (logged answer)) touched s).0
            ≡ (tally_git_roots fs (logged answer) touched log).0)
          × AgreesWith answer
              ((tally_git_roots fs (cached_git_root_resolver (logged answer)) touched s).1.0)
    unfolding tally_git_roots
    tally_git_roots_cached touched s log a = tally_onto_cached [] touched s log a
