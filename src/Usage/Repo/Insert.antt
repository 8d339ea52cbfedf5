-- ===== src/Usage/Repo/Insert.antt =====
-- The idempotent batch insert and its transaction (internal/domain/usage/repo.go, InsertBatch).
use my_token.Base.{
  eqb, ℕ, suc, ◌+◌, ◌%◌, ◌^◌, ◌<◌, ◌≤◌, Text, ==_iff, ==_refl, true, false, ◌||◌, ◌≡◌, refl, ◌∙◌,
  ◌⊎◌, inl, inr, List, [], ◌∷◌, ◌++◌, All, length, arith, if◌then◌else◌, Bool-cases, ok, err,
}
use mathlib.Core.List.{append_assoc, append-nil}
use native.Mathlib.Nat.{zero-add}
use my_token.Usage.Event.{Event}
use my_token.Usage.Repo.{
  Driver, Failure, begin_failed, exec_failed, rollback_failed, commit_failed, has_id,
  insert_or_ignore, insert_each, insert_batch,
}

-- One of the statements from `i` to before `j` fails.
abbrev ExecFails : Driver → ℕ → ℕ → Type 0
ExecFails drv i j = (k : ℕ) × (i ≤ k) × (k < j) × (drv.executes k ≡ false)

-- All of them succeed.
abbrev ExecsSucceed : Driver → ℕ → ℕ → Type 0
ExecsSucceed drv i j = (k : ℕ) → i ≤ k → k < j → drv.executes k ≡ true

-- The begin, one of the first `n` statements, or the commit fails.
abbrev pub CallFails : Driver → ℕ → Type 0
CallFails drv n = (drv.begins ≡ false) ⊎ ExecFails drv 0 n ⊎ (drv.commits ≡ false)

-- All of these calls succeed.
abbrev pub CallsSucceed : Driver → ℕ → Type 0
CallsSucceed drv n = (drv.begins ≡ true) × ExecsSucceed drv 0 n × (drv.commits ≡ true)

first_and_later :
    (drv : Driver) (i n : ℕ)
    → drv.executes i ≡ true
    → ExecsSucceed drv (suc i) (suc i + n)
    → ExecsSucceed drv i (i + suc n)
first_and_later drv i n runs rest k low high = elim (Bool-cases (eqb k i)) [
  | inl here ↦ let same : k ≡ i = ground (arith, here) in rw same runs
  | inr above ↦ rest k (ground (arith, above, low)) (omega (arith, high))
]

module _ {F : Type 0} where
  -- The events of a batch whose id no row and no earlier event of the batch has.
  abbrev pub fresh : List (Event F) → List (Event F) → List (Event F)
  fresh rows [] = []
  fresh rows (e ∷ batch) =
      if has_id e.id rows then fresh rows batch else e ∷ fresh (rows ++ e ∷ []) batch

  -- The PRIMARY KEY: no id stands twice.
  abbrev pub HasUniqueIds : List (Event F) → Type 0
  HasUniqueIds [] = Unit
  HasUniqueIds (e ∷ es) = (has_id e.id es ≡ false) × HasUniqueIds es

  length-fresh : (rows batch : List (Event F)) → length (fresh rows batch) ≤ length batch
  length-fresh rows [] = omega arith
  length-fresh rows (e ∷ batch) =
      ground (arith, length-fresh rows batch, length-fresh (rows ++ e ∷ []) batch)

  has_id-append :
      (i : Text) (xs ys : List (Event F)) → has_id i (xs ++ ys) ≡ (has_id i xs || has_id i ys)
  has_id-append i [] ys = refl
  has_id-append i (x ∷ xs) ys = ground (arith, has_id-append i xs ys)

  -- A failure among the later statements is one among all of them.
  later :
      (drv : Driver) (i : ℕ) (batch : List (Event F)) (P : Type 0) (Q : Failure → Type 0)
      → drv.executes i ≡ true
      → (ExecsSucceed drv (suc i) (suc i + length batch) × P)
        ⊎ ((e : Failure) × ExecFails drv (suc i) (suc i + length batch) × Q e)
      → (ExecsSucceed drv i (i + suc (length batch)) × P)
        ⊎ ((e : Failure) × ExecFails drv i (i + suc (length batch)) × Q e)
  later drv i batch P Q runs (inl (rest, p)) =
      inl (first_and_later drv i (length batch) runs rest, p)
  later drv i batch P Q runs (inr (e, (k, low, high, fails), q)) =
      inr (e, (k, omega (arith, low), omega (arith, high), fails), q)

  insert_each_lem :
      (drv : Driver) (i : ℕ) (batch : List (Event F)) (n : ℕ) (rows : List (Event F))
      → n + length batch < 2 ^ 64
      → (ExecsSucceed drv i (i + length batch)
          × (insert_each drv i batch n rows
              ≡ ok (n + length (fresh rows batch), rows ++ fresh rows batch)))
        ⊎ ((e : Failure) × ExecFails drv i (i + length batch)
            × (insert_each drv i batch n rows ≡ err e))
  unfolding insert_each insert_or_ignore
  insert_each_lem drv i [] n rows h =
      let count : n ≡ n + 0 = omega arith in
      inl (λ k low high. ground (arith, low, high), cc (count, append-nil rows))
  insert_each_lem drv i (e ∷ batch) n rows h = elim (Bool-cases (drv.executes i)) [
    | inr fails ↦ inr (
      (if drv.rolls_back then exec_failed else rollback_failed),
      (i, omega arith, omega arith, fails),
      rw fails,
    )
    | inl runs ↦ elim (Bool-cases (has_id e.id rows)) [
      | inl old ↦
          let count : (n + 0) % 2 ^ 64 ≡ n = omega arith in
          rw (runs, old, count)
            (later drv i batch _ _ runs (insert_each_lem drv (suc i) batch n rows (omega arith)))
      | inr new ↦
          let count : (n + 1) % 2 ^ 64 ≡ n + 1 = omega arith in
          let k = length (fresh (rows ++ e ∷ []) batch) in
          let total : n + 1 + k ≡ n + suc k = omega arith in
          rw
            (runs, new, count, ← total, ← append_assoc rows (e ∷ []) (fresh (rows ++ e ∷ []) batch))
            (later drv i batch _ _ runs
              (insert_each_lem drv (suc i) batch (n + 1) (rows ++ e ∷ []) (omega arith)))
    ]
  ]

  -- A batch of fewer than 2^64 events is inserted whole or not at all. On success the table has
  -- gained, at its end, exactly the events whose id no row and no earlier event has, and the
  -- result is their number; on an error of any call of the database it is unchanged.
  pub insert_batch_atomic :
      (drv : Driver) (batch rows : List (Event F))
      → length batch < 2 ^ 64
      → (CallsSucceed drv (length batch)
          × (insert_batch drv batch rows
              ≡ (ok (length (fresh rows batch)), rows ++ fresh rows batch)))
        ⊎ ((e : Failure) × CallFails drv (length batch)
            × (insert_batch drv batch rows ≡ (err e, rows)))
  unfolding insert_batch
  insert_batch_atomic drv batch rows h = elim (Bool-cases drv.begins) [
    | inr closed ↦ inr (begin_failed, inl closed, rw closed)
    | inl begun ↦ elim (insert_each_lem drv 0 batch 0 rows (omega arith)) [
      | inr (e, (k, low, high, fails), failed) ↦
          inr (e, inr (inl (k, low, omega (arith, high), fails)), rw (failed, begun))
      | inl (run, done) ↦ elim (Bool-cases drv.commits) [
        | inl committed ↦ inl (
          (begun, (λ k low high. run k low (omega (arith, high))), committed),
          rw (done, begun, committed) (cc (zero-add (length (fresh rows batch)))),
        )
        | inr refused ↦ inr (commit_failed, inr (inr refused), rw (done, begun, refused))
      ]
    ]
  ]

  -- The table after a batch of any length.
  insert_each_rows :
      (drv : Driver) (i : ℕ) (batch : List (Event F)) (n : ℕ) (rows : List (Event F))
      → ((m : ℕ) × (insert_each drv i batch n rows ≡ ok (m, rows ++ fresh rows batch)))
        ⊎ ((e : Failure) × (insert_each drv i batch n rows ≡ err e))
  unfolding insert_each insert_or_ignore
  insert_each_rows drv i [] n rows = inl (n, rw append-nil refl)
  insert_each_rows drv i (e ∷ batch) n rows = elim (Bool-cases (drv.executes i)) [
    | inr fails ↦ inr ((if drv.rolls_back then exec_failed else rollback_failed), rw fails)
    | inl runs ↦ elim (Bool-cases (has_id e.id rows)) [
      | inl old ↦ rw (runs, old) (insert_each_rows drv (suc i) batch _ rows)
      | inr new ↦
          rw (runs, new, ← append_assoc rows (e ∷ []) (fresh (rows ++ e ∷ []) batch))
            (insert_each_rows drv (suc i) batch _ (rows ++ e ∷ []))
    ]
  ]

  pub insert_batch_rows :
      (drv : Driver) (batch rows : List (Event F))
      → ((insert_batch drv batch rows).1 ≡ rows)
        ⊎ ((insert_batch drv batch rows).1 ≡ rows ++ fresh rows batch)
  unfolding insert_batch
  insert_batch_rows drv batch rows = elim (Bool-cases drv.begins) [
    | inr closed ↦ inl (rw closed refl)
    | inl begun ↦ elim (insert_each_rows drv 0 batch 0 rows) [
      | inr (e, failed) ↦ inl (rw (failed, begun) refl)
      | inl (m, done) ↦ elim (Bool-cases drv.commits) [
        | inl committed ↦ inr (rw (done, begun, committed) refl)
        | inr refused ↦ inl (rw (done, begun, refused) refl)
      ]
    ]
  ]

  fresh_known :
      (rows batch : List (Event F))
      → All (λ e. has_id e.id rows ≡ true) batch
      → fresh rows batch ≡ []
  fresh_known rows [] h = refl
  fresh_known rows (e ∷ batch) h = rw h.0 (fresh_known rows batch h.1)

  All-has_id :
      (rows batch all : List (Event F))
      → rows ++ fresh rows batch ≡ all
      → All (λ e. has_id e.id all ≡ true) batch
  All-has_id rows [] all q = tt
  All-has_id rows (e ∷ batch) all q = elim (Bool-cases (has_id e.id rows)) [
    | inl old ↦
        let q' : rows ++ fresh rows batch ≡ all = rw old at q in
        (rw (← q', has_id-append e.id rows (fresh rows batch), old), All-has_id rows batch all q')
    | inr new ↦
        let rest = fresh (rows ++ e ∷ []) batch in
        let q' : rows ++ e ∷ rest ≡ all = rw new at q in
        (
          rw (← q', has_id-append e.id rows (e ∷ rest), new, ==_refl e.id),
          All-has_id (rows ++ e ∷ []) batch all (append_assoc rows (e ∷ []) rest ∙ q'),
        )
  ]

  append-HasUniqueIds :
      (e : Event F) (rows : List (Event F))
      → has_id e.id rows ≡ false
      → HasUniqueIds rows
      → HasUniqueIds (rows ++ e ∷ [])
  append-HasUniqueIds e [] new h = (refl, tt)
  append-HasUniqueIds e (r ∷ rows) new h = ground (
    arith,
    ==_iff r.id e.id,
    ==_iff e.id r.id,
    has_id-append r.id rows (e ∷ []),
    append-HasUniqueIds e rows,
  )

  -- The table keeps its primary key through any insert.
  pub fresh-HasUniqueIds :
      (rows batch : List (Event F)) → HasUniqueIds rows → HasUniqueIds (rows ++ fresh rows batch)
  fresh-HasUniqueIds rows [] h = rw append-nil h
  fresh-HasUniqueIds rows (e ∷ batch) h = elim (Bool-cases (has_id e.id rows)) [
    | inl old ↦ rw old (fresh-HasUniqueIds rows batch h)
    | inr new ↦
        rw (new, ← append_assoc rows (e ∷ []) (fresh (rows ++ e ∷ []) batch))
          (fresh-HasUniqueIds (rows ++ e ∷ []) batch (append-HasUniqueIds e rows new h))
  ]

  -- After a batch has gone in, sending it again finds nothing new.
  pub fresh_again : (rows batch : List (Event F)) → fresh (rows ++ fresh rows batch) batch ≡ []
  fresh_again rows batch = fresh_known _ batch (All-has_id rows batch _ refl)
