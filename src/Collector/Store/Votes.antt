-- ===== src/Collector/Store/Votes.antt =====
-- The counts after votes are added (`AddVotes` of internal/collector/pathstore.go, `TallyGitRoots`
-- of internal/collector/path.go).
use mathlib.Core.Path.{subst}
use my_token.Base.{
  ℕ, Text, ◌≡◌, refl, ◌+◌, ◌%◌, ◌^◌, eqb, ◌==◌, ==_iff, Bool-cases, inl, inr, true, false, List, [],
  ◌∷◌, Map, map, lookup, insert, lookup-insert, member, HasNoRepeats, add_int64, ==_refl, ok,
  Result, List-cases, ◌∙◌, if◌then◌else◌, arith, sym,
}
use my_token.Collector.Paths.{count_of}
use my_token.Collector.Store.{
  PathStore, StoreDriver, Failure, non_zero, upsert_votes, rows_of, add_votes, scan_offset,
  set_scan_offset,
}

abbrev pub keys : Map ℕ → List Text
keys m = map (λ p. p.0) m

-- No key stands twice.
abbrev pub IsTable : Map ℕ → Type 0
IsTable m = HasNoRepeats (keys m)

pub count_of-insert :
    (j k : Text) (v : ℕ) (m : Map ℕ)
    → count_of j (insert k v m) ≡ (if k == j then v else count_of j m)
unfolding count_of
count_of-insert j k v m = ground (arith, lookup-insert k j v m)

member-keys-insert :
    (j k : Text) (v : ℕ) (m : Map ℕ)
    → member j (keys (insert k v m)) ≡ (if k == j then true else member j (keys m))
unfolding insert member
member-keys-insert j k v [] = refl
member-keys-insert j k v ((i, w) ∷ m) =
    ground (arith, ==_iff k j, ==_iff i k, ==_iff i j, member-keys-insert j k v m)

pub insert-IsTable : (k : Text) (v : ℕ) (m : Map ℕ) → IsTable m → IsTable (insert k v m)
unfolding insert member
insert-IsTable k v [] t = (refl, tt)
insert-IsTable k v ((i, w) ∷ m) (fresh, t) = elim (Bool-cases (i == k)) [
  | inl h ↦ rw h (rw (sym ((==_iff i k).0 h)) (fresh, t))
  | inr h ↦
      rw h
        (ground (arith, member-keys-insert i k v m, ==_iff i k, ==_iff k i), insert-IsTable k v m t)
]

pub count_of-nil : (k : Text) → count_of k [] ≡ 0
unfolding count_of lookup
count_of-nil k = refl

count_of-cons :
    (k i : Text) (w : ℕ) (m : Map ℕ)
    → count_of k ((i, w) ∷ m) ≡ (if i == k then w else count_of k m)
unfolding count_of lookup
count_of-cons k i w m = ground arith

absent-count_of : (k : Text) (m : Map ℕ) → member k (keys m) ≡ false → count_of k m ≡ 0
unfolding member
absent-count_of k [] h = count_of-nil k
absent-count_of k ((i, w) ∷ m) h = ground (arith, absent-count_of k m, count_of-cons k i w m)

-- Adding the deltas of a table adds to each root what the table says of it.
pub count_of-upsert_votes :
    (root : Text) (deltas rows : Map ℕ)
    → IsTable deltas
    → (count_of root (upsert_votes deltas rows)) % 2 ^ 64
      ≡ (count_of root rows + count_of root deltas) % 2 ^ 64
unfolding upsert_votes
count_of-upsert_votes root [] rows t = ground (arith, count_of-nil root)
count_of-upsert_votes root ((r, d) ∷ deltas) rows (fresh, t) = ground (
  arith,
  count_of-upsert_votes root deltas (insert r (add_int64 (count_of r rows) d) rows) t,
  count_of-insert root r (add_int64 (count_of r rows) d) rows,
  absent-count_of root deltas,
  count_of-cons root r d deltas,
  ==_iff r root,
)

member-non_zero :
    (k : Text) (m : Map ℕ) → member k (keys m) ≡ false → member k (keys (non_zero m)) ≡ false
unfolding non_zero member
member-non_zero k [] h = refl
member-non_zero k ((i, w) ∷ m) h = ground (arith, member-non_zero k m)

pub non_zero-IsTable : (m : Map ℕ) → IsTable m → IsTable (non_zero m)
unfolding non_zero
non_zero-IsTable [] t = tt
non_zero-IsTable ((i, w) ∷ m) (fresh, t) =
    ground (arith, member-non_zero i m fresh, non_zero-IsTable m t)

pub count_of-non_zero :
    (root : Text) (m : Map ℕ) → IsTable m → count_of root (non_zero m) ≡ count_of root m
unfolding non_zero
count_of-non_zero root [] t = refl
count_of-non_zero root ((i, w) ∷ m) (fresh, t) = elim (Bool-cases (eqb w 0)) [
  | inl z ↦ rw z (
      ground (
        arith,
        count_of-non_zero root m t,
        count_of-cons root i w m,
        absent-count_of root m,
        ==_iff i root,
      ))
  | inr n ↦ rw n (
      ground (
        arith,
        count_of-non_zero root m t,
        count_of-cons root i w m,
        count_of-cons root i w (non_zero m),
      ))
]

pub rows_of-insert :
    (session : Text) (rows : Map ℕ) (table : Map (Map ℕ))
    → rows_of session (insert session rows table) ≡ rows
unfolding rows_of
rows_of-insert session rows table =
    ground (arith, lookup-insert session session rows table, ==_refl session)

-- `AddVotes` succeeded, added to the count of the root its delta, and kept the offsets.
abbrev pub HasAdded :
    Text → Text → Map ℕ → PathStore → Result Failure (Unit {0}) × PathStore → Type 0
HasAdded session root deltas s r =
    (r.0 ≡ ok tt)
    × (((count_of root (rows_of session (r.1.session_path_votes))) % 2 ^ 64
          ≡ (count_of root (rows_of session s.session_path_votes) + count_of root deltas) % 2 ^ 64)
        × (r.1.session_scan_progress ≡ s.session_scan_progress))

pub add_votes-HasAdded :
    (drv : StoreDriver) (session root : Text) (deltas : Map ℕ) (s : PathStore)
    → drv.adds_votes session ≡ true
    → IsTable deltas
    → HasAdded session root deltas s (add_votes drv session deltas s)
unfolding add_votes
add_votes-HasAdded drv session root deltas s works t =
    let rows = rows_of session s.session_path_votes in
    let kept = count_of-non_zero root deltas t in
    elim (List-cases (non_zero deltas)) [
      | inl e ↦
          let zero_here : count_of root deltas ≡ 0 = sym kept ∙ (rw e (count_of-nil root)) in
          rw (e, add_votes) (refl, (ground (arith, zero_here), refl))
      | inr (d, (ds, e)) ↦
          let added : (count_of root (upsert_votes (d ∷ ds) rows)) % 2 ^ 64
              ≡ (count_of root rows + count_of root deltas) % 2 ^ 64 =
            subst
              (λ m.
                (count_of root (upsert_votes m rows)) % 2 ^ 64
                ≡ (count_of root rows + count_of root deltas) % 2 ^ 64)
              e
              (ground (
                arith,
                kept,
                count_of-upsert_votes root (non_zero deltas) rows (non_zero-IsTable deltas t),
              )) in
          rw (e, add_votes)
            (rw works (
              refl,
              (
                rw (rows_of-insert session (upsert_votes (d ∷ ds) rows) s.session_path_votes) added,
                refl,
              ),
            ))
    ]

-- A stored offset is read back.
pub scan_offset-set_scan_offset :
    (drv : StoreDriver) (session file : Text) (n : ℕ) (s : PathStore)
    → drv.reads_offset session file ≡ true
    → drv.sets_offset session file ≡ true
    → scan_offset drv session file ((set_scan_offset drv session file n s).1) ≡ ok n
unfolding set_scan_offset scan_offset
scan_offset-set_scan_offset drv session file n s reads sets =
    let rows = insert file n (rows_of session s.session_scan_progress) in
    rw sets (
      rw reads (
        rw (rows_of-insert session rows s.session_scan_progress) (
          ground (
            arith,
            lookup-insert file file n (rows_of session s.session_scan_progress),
            ==_refl file,
          ))))
