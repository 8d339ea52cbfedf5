-- ===== src/PublicApi/Usage/Stored.antt =====
-- What ingestion leaves in the tables (internal/transport/publicapi/usage_handler.go).
use my_token.Base.{
  Text, ◌==◌, not, filter, ◌≡◌, refl, ◌∙◌, ap, inl, inr, Bool-cases, true, List, [], ◌∷◌, ◌++◌, All,
  some, none, ok, err, Option, Result,
}
use my_token.Usage.Floats.{Float64}
use my_token.Usage.Event.{Time}
use my_token.Usage.Repo.{
  Driver, Failure, Tables, MachineRow, exec_failed, replace_machine, replace_scan_root,
}
use my_token.Usage.Service.{
  Repository, Ingested, repo, ScanRootInput, upsert_scan_roots, ingest_batch,
}
use my_token.Usage.Service.Ingest.{new_events}
use my_token.Identity.Repo.{User}
use my_token.Http.{Response, respond, answer}
use my_token.PublicApi.Usage.Rows.{
  root_row, add_roots, reported, has_root, upsert_scan_root_lem, upsert_machine_lem,
  upsert_machine_fails,
}
use my_token.PublicApi.Usage.{
  BatchRequest, BatchResponse, ingest_roots_and_events, ingest_usage_events_batch,
}

-- The route over any repository, one call after the other.
module _ {F S : Type 0} (r : Repository F S) (fl : Float64 F) (to_lower : Text → Text) where
  upsert_scan_roots_next :
      (install_id : Text) (now : Time) (sr : ScanRootInput) (srs : List ScanRootInput) (s s' : S)
      → r.upsert_scan_root install_id sr.path sr.name sr.source_type now s ≡ (ok tt, s')
      → upsert_scan_roots r install_id (sr ∷ srs) now s ≡ upsert_scan_roots r install_id srs now s'
  unfolding upsert_scan_roots
  upsert_scan_roots_next install_id now sr srs s s' e =
      ap
        (λ (out : Result Failure (Unit {0}) × S). elim out.0 [
          | ok _ ↦ upsert_scan_roots r install_id srs now out.1
          | err x ↦ (err x, out.1)
        ])
        e

  -- What follows the call for the machine.
  abbrev after_machine :
      BatchRequest → Time → Result Failure (Unit {0}) × S → Response BatchResponse × S
  after_machine req now out = elim out.0 [
    | err e ↦ (respond 500, out.1)
    | ok _ ↦ ingest_roots_and_events r fl to_lower req now out.1
  ]

  abbrev pub answered : Ingested → Response BatchResponse
  answered done = elim done.error [
    | some e ↦ respond 500
    | none ↦ answer 201 (record { received = done.received; inserted = done.inserted })
  ]

  abbrev after_batch : Ingested × S → Response BatchResponse × S
  after_batch out = (answered (out.0), out.1)

  -- What follows the scan roots.
  abbrev after_roots : BatchRequest → Result Failure (Unit {0}) × S → Response BatchResponse × S
  after_roots req out = elim out.0 [
    | err e ↦ (respond 500, out.1)
    | ok _ ↦ let (done, s) = ingest_batch fl to_lower r req.events out.1 in (answered done, s)
  ]

  module _ (bind : Text → Option BatchRequest) (actor : User) (body : Text) (req : BatchRequest)
      (bound : bind body ≡ some req) (now now' : Time) (s : S) where
    machine_lem :
        (out : Result Failure (Unit {0}) × S)
        → r.upsert_machine req.install_id req.hostname now s ≡ out
        → ingest_usage_events_batch r fl to_lower bind (some actor) body now now' s
          ≡ after_machine req now' out
    unfolding ingest_usage_events_batch
    machine_lem out h = rw (bound, ingest_usage_events_batch) (ap (after_machine req now') h)

  roots_known :
      (req : BatchRequest) (now : Time) (s s' s'' : S) (done : Ingested)
      → upsert_scan_roots r req.install_id req.scan_roots now s ≡ (ok tt, s')
      → ingest_batch fl to_lower r req.events s' ≡ (done, s'')
      → ingest_roots_and_events r fl to_lower req now s ≡ (answered done, s'')
  unfolding ingest_roots_and_events
  roots_known req now s s' s'' done h k = ap (after_roots req) h ∙ ap after_batch k

module _ {F : Type 0} (drv : Driver) (fl : Float64 F) (to_lower : Text → Text) where
  upsert_scan_roots_lem :
      (install_id : Text) (now : Time) (srs : List ScanRootInput) (t : Tables F)
      → drv.writes ≡ true
      → upsert_scan_roots (repo drv) install_id srs now t
        ≡ (ok tt, record t { scan_roots = add_roots install_id now srs t.scan_roots })
  unfolding upsert_scan_roots
  upsert_scan_roots_lem install_id now [] t w = refl
  upsert_scan_roots_lem install_id now (sr ∷ srs) t w =
      let rows = replace_scan_root (root_row install_id now sr) t.scan_roots in
      let first = upsert_scan_root_lem drv install_id now sr t.scan_roots w in
      upsert_scan_roots_next (repo drv) fl to_lower install_id now sr srs t
        (record t { scan_roots = rows }) (ap (λ r. (r.0, record t { scan_roots = r.1 })) first)
      ∙ upsert_scan_roots_lem install_id now srs (record t { scan_roots = rows }) w

  -- The tables after the machine and the scan roots of a report.
  abbrev pub rooted : BatchRequest → Time → Time → Tables F → Tables F
  rooted req now now' t = record {
    usage_events = t.usage_events;
    machines =
        replace_machine
          (record { install_id = req.install_id; hostname = req.hostname; last_seen_at = now })
          t.machines;
    scan_roots = add_roots req.install_id now' req.scan_roots t.scan_roots;
  }

  -- How far a report comes.
  pub data IsIngestion (req : BatchRequest) (now now' : Time) (t : Tables F)
      (out : Response BatchResponse × Tables F) : Type 0 where
    unwritten : out ≡ (respond 500, t) → IsIngestion req now now' t out
    batched :
        (done : Ingested) (t' : Tables F)
        → ingest_batch fl to_lower (repo drv) req.events (rooted req now now' t) ≡ (done, t')
        → out ≡ (answered (repo drv) fl to_lower done, t')
        → IsIngestion req now now' t out

  module _ (bind : Text → Option BatchRequest) (actor : User) (body : Text) (req : BatchRequest)
      (now now' : Time) (t : Tables F) (bound : bind body ≡ some req) where
    pub ingest_usage_events_batch-IsIngestion :
        IsIngestion req now now' t
          (ingest_usage_events_batch (repo drv) fl to_lower bind (some actor) body now now' t)
    ingest_usage_events_batch-IsIngestion =
        let after : Result Failure (Unit {0}) × List MachineRow
            → Result Failure (Unit {0}) × Tables F =
          λ r. (r.0, record t { machines = r.1 }) in
        elim (Bool-cases drv.writes) [
          | inr w ↦ unwritten (
              machine_lem (repo drv) fl to_lower bind actor body req bound now now' t
                (err exec_failed, t)
                (ap after (upsert_machine_fails drv req.install_id req.hostname now t.machines w)))
          | inl w ↦
              let known : Tables F = record t { machines = (rooted req now now' t).machines } in
              let first =
                machine_lem (repo drv) fl to_lower bind actor body req bound now now' t
                  (ok tt, known)
                  (ap after
                    (upsert_machine_lem drv req.install_id req.hostname now t.machines w)) in
              let second = upsert_scan_roots_lem req.install_id now' req.scan_roots known w in
              let out = ingest_batch fl to_lower (repo drv) req.events (rooted req now now' t) in
              batched (out.0) (out.1) refl (
                first
                ∙ roots_known (repo drv) fl to_lower req now' known (rooted req now now' t) (out.1)
                    (out.0) second refl)
        ]

    -- What a report leaves in the tables once it has been taken.
    abbrev pub IsStored : Tables F → Type 0
    IsStored t' =
        (t'.usage_events ≡ t.usage_events ++ new_events fl to_lower t req.events)
        × (filter (λ m. m.install_id == req.install_id) t'.machines
            ≡ record { install_id = req.install_id; hostname = req.hostname; last_seen_at = now }
              ∷ [])
        × (filter (λ m. not (m.install_id == req.install_id)) t'.machines
            ≡ filter (λ m. not (m.install_id == req.install_id)) t.machines)
        × All
            (λ sr.
              has_root (reported req.scan_roots now') req.install_id sr.path t'.scan_roots ≡ true)
            req.scan_roots
