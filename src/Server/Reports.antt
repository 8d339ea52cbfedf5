-- ===== src/Server/Reports.antt =====
-- The usage tables over all reports (internal/transport/publicapi/usage_handler.go,
-- internal/domain/usage/repo.go), with their primary keys.
use mathlib.Core.Path.{subst}
use mathlib.Core.List.{append_assoc, append-nil}
use my_token.Base.{
  Text, ◌==◌, ==_iff, ◌≡◌, refl, sym, ◌∙◌, ap, Bool, Bool-cases, Option-cases, false, not, ◌||◌,
  inl, inr, Option, some, List, [], ◌∷◌, ◌++◌, filter, any, arith,
}
use my_token.Usage.Floats.{Float64}
use my_token.Usage.Event.{Event, IngestEvent, Time}
use my_token.Usage.Repo.{
  Driver, Tables, MachineRow, ScanRootRow, same_root, replace_machine, replace_scan_root,
}
use my_token.Usage.Repo.Insert.{HasUniqueIds, fresh-HasUniqueIds}
use my_token.Usage.Service.{repo, ScanRootInput, ingest_batch}
use my_token.Usage.Service.Ingest.{new_events, ingest_batch_rows}
use my_token.Identity.Repo.{User}
use my_token.PublicApi.Usage.{BatchRequest, ingest_usage_events_batch}
use my_token.PublicApi.Usage.Rows.{add_roots}
use my_token.PublicApi.Usage.Stored.{
  unwritten, batched, rooted, ingest_usage_events_batch-IsIngestion,
}

-- No two rows of a table have the same key.
module _ {A : Type 0} (same : A → A → Bool) where
  abbrev pub HasUnique : List A → Type 0
  HasUnique [] = Unit
  HasUnique (x ∷ rows) = (any (λ r. same r x) rows ≡ false) × HasUnique rows

any_filtered :
    {A : Type 0} (test keep : A → Bool) (rows : List A)
    → any test rows ≡ false
    → any test (filter keep rows) ≡ false
any_filtered test keep [] h = refl
any_filtered test keep (x ∷ rows) h = ground (arith, any_filtered test keep rows)

any-append :
    {A : Type 0} (test : A → Bool) (xs ys : List A)
    → any test (xs ++ ys) ≡ any test xs || any test ys
any-append test [] ys = refl
any-append test (x ∷ xs) ys = ground (arith, any-append test xs ys)

module _ {A : Type 0} (same : A → A → Bool) (symmetric : (a b : A) → same a b ≡ same b a) where
  filter-HasUnique :
      (keep : A → Bool) (rows : List A) → HasUnique same rows → HasUnique same (filter keep rows)
  filter-HasUnique keep [] h = tt
  filter-HasUnique keep (x ∷ rows) h = elim (Bool-cases (keep x)) [
    | inl k ↦ rw k (any_filtered (λ r. same r x) keep rows h.0, filter-HasUnique keep rows h.1)
    | inr k ↦ rw k (filter-HasUnique keep rows h.1)
  ]

  any-filter :
      (new : A) (rows : List A)
      → any (λ r. same r new) (filter (λ r. not (same r new)) rows) ≡ false
  any-filter new [] = refl
  any-filter new (x ∷ rows) = ground (arith, any-filter new rows)

  append-HasUnique :
      (new : A) (rows : List A)
      → any (λ r. same r new) rows ≡ false
      → HasUnique same rows
      → HasUnique same (rows ++ new ∷ [])
  append-HasUnique new [] n h = (refl, tt)
  append-HasUnique new (x ∷ rows) n h =
      let apart : same x new ≡ false = ground arith in
      let others : any (λ r. same r new) rows ≡ false = ground arith in
      (
        rw (any-append (λ r. same r x) rows (new ∷ []), h.0, symmetric new x, apart) refl,
        append-HasUnique new rows others h.1,
      )

  replace-HasUnique :
      (new : A) (rows : List A)
      → HasUnique same rows
      → HasUnique same (filter (λ r. not (same r new)) rows ++ new ∷ [])
  replace-HasUnique new rows h =
      append-HasUnique new (filter (λ r. not (same r new)) rows) (any-filter new rows)
        (filter-HasUnique (λ r. not (same r new)) rows h)

abbrev same_install : MachineRow → MachineRow → Bool
same_install a b = a.install_id == b.install_id

==_symm : (s t : Text) → (s == t) ≡ (t == s)
==_symm s t = ground (arith, ==_iff s t, ==_iff t s)

same_root_symm : (a b : ScanRootRow) → same_root a b ≡ same_root b a
same_root_symm a b =
    rw (==_symm a.install_id b.install_id, ==_symm a.scan_root_path b.scan_root_path) refl

add_roots-HasUnique :
    (install_id : Text) (now : Time) (srs : List ScanRootInput) (rows : List ScanRootRow)
    → HasUnique same_root rows
    → HasUnique same_root (add_roots install_id now srs rows)
unfolding replace_scan_root
add_roots-HasUnique install_id now [] rows h = h
add_roots-HasUnique install_id now (sr ∷ srs) rows h =
    add_roots-HasUnique install_id now srs _ (replace-HasUnique same_root same_root_symm _ rows h)

-- The primary keys of the three tables.
abbrev pub HasPrimaryKeys : {F : Type 0} → Tables F → Type 0
HasPrimaryKeys t =
    HasUniqueIds t.usage_events
    × HasUnique same_install t.machines
    × HasUnique same_root t.scan_roots

-- One report, by whomever it is sent, with the body that came and its binding.
pub record Report : Type 0 where
  pub bind : Text → Option BatchRequest
  pub actor : Option User
  pub body : Text
  pub machine_at : Time
  pub roots_at : Time

module _ {F : Type 0} (fl : Float64 F) (to_lower : Text → Text) where
  unfoldable pub report : Driver → Report → Tables F → Tables F
  report drv x t =
      (ingest_usage_events_batch (repo drv) fl to_lower x.bind x.actor x.body x.machine_at
        x.roots_at t).1

  -- The tables that some reports lead to, each of them as the database has it.
  pub data Reach (s : Tables F) : Tables F → Type 0 where
    here : Reach s s
    next : {t : Tables F} (drv : Driver) (x : Report) → Reach s t → Reach s (report drv x t)

  -- The primary keys, and the events that were there, in their order.
  abbrev pub Grows : Tables F → Tables F → Type 0
  Grows s t =
      HasPrimaryKeys t × ((more : List (Event F)) × (t.usage_events ≡ s.usage_events ++ more))

  unchanged-Grows : (t : Tables F) → HasPrimaryKeys t → Grows t t
  unchanged-Grows t keys = (keys, ([], sym (append-nil t.usage_events)))

  rooted-Grows :
      (drv : Driver) (req : BatchRequest) (now now' : Time) (s t : Tables F)
      → Grows s t
      → Grows s (rooted drv fl to_lower req now now' t)
  unfolding replace_machine
  rooted-Grows drv req now now' s t ((ids, installs, roots), more) = (
    (
      ids,
      replace-HasUnique same_install (λ a b. ==_symm a.install_id b.install_id) _ t.machines
          installs,
      add_roots-HasUnique req.install_id now' req.scan_roots t.scan_roots roots,
    ),
    more,
  )

  ingest_batch-Grows :
      (drv : Driver) (events : List IngestEvent) (s t : Tables F)
      → Grows s t
      → Grows s (ingest_batch fl to_lower (repo drv) events t).1
  ingest_batch-Grows drv events s t ((ids, installs, roots), (more, e)) =
      elim (ingest_batch_rows fl to_lower drv events t) [
        | inl same ↦ subst (Grows s) (sym same) ((ids, installs, roots), (more, e))
        | inr grown ↦
            let new = new_events fl to_lower t events in
            subst (Grows s) (sym grown) (
              (fresh-HasUniqueIds t.usage_events _ ids, installs, roots),
              (more ++ new, ap (λ rows. rows ++ new) e ∙ append_assoc s.usage_events more new),
            )
      ]

  abbrev after_report : Driver → Report → Option User → Tables F → Tables F
  after_report drv x actor t =
      (ingest_usage_events_batch (repo drv) fl to_lower x.bind actor x.body x.machine_at x.roots_at
        t).1

  report-Grows : (drv : Driver) (x : Report) (s t : Tables F) → Grows s t → Grows s (report drv x t)
  unfolding report ingest_usage_events_batch
  report-Grows drv x s t grows = elim (Option-cases x.actor) [
    | inl a ↦ subst (λ o. Grows s (after_report drv x o t)) (sym a) grows
    | inr (user, a) ↦ elim (Option-cases (x.bind x.body)) [
      | inl b ↦
          let r : after_report drv x (some user) t ≡ t =
            rw (b, after_report, ingest_usage_events_batch) refl in
          subst (λ o. Grows s (after_report drv x o t)) (sym a) (subst (Grows s) (sym r) grows)
      | inr (req, b) ↦
          subst (λ o. Grows s (after_report drv x o t)) (sym a)
            (elim (ingest_usage_events_batch-IsIngestion drv fl to_lower x.bind user x.body req
              x.machine_at x.roots_at t b) [
                | unwritten run ↦ subst (Grows s) (sym (ap (λ o. o.1) run)) grows
                | batched done t' taken run ↦
                    let rooted_first = rooted-Grows drv req x.machine_at x.roots_at s t grows in
                    subst (Grows s)
                      (ap (λ o. o.1) (taken ∙ sym (ap (λ u. (done, u)) (ap (λ o. o.1) run))))
                      (ingest_batch-Grows drv req.events s
                        (rooted drv fl to_lower req x.machine_at x.roots_at t) rooted_first)
              ])
    ]
  ]

  -- Whatever reports come in, in whatever order and with whatever calls of the database failing:
  -- no two rows of a table get the same primary key, and no event that is stored is lost or
  -- changed.
  pub Reach-Grows : (s t : Tables F) → HasPrimaryKeys s → Reach s t → Grows s t
  Reach-Grows s t keys here = unchanged-Grows s keys
  Reach-Grows s t keys (next {t = u} drv x r) = report-Grows drv x s u (Reach-Grows s u keys r)
