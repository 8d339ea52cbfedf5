-- ===== src/PublicApi/Usage.antt =====
-- The ingestion route (internal/transport/publicapi/usage_handler.go). The binding of the body is
-- an argument; an event of the request has the fields of `IngestEvent`, and the two calls of
-- `time.Now` are two instants.
pub mod Rows
pub mod Stored
use my_token.Base.{ℕ, Text, List, Option, none, some, Result, ok, err}
use my_token.Usage.Floats.{Float64}
use my_token.Usage.Event.{IngestEvent, Time}
use my_token.Usage.Service.{Repository, ScanRootInput, ingest_batch, upsert_scan_roots}
use my_token.Identity.Repo.{User}
use my_token.Http.{Response, respond, refuse, answer, unauthorized_body}

-- `api.IngestUsageEventsBatchRequest`
pub record BatchRequest : Type 0 where
  pub install_id : Text
  pub hostname : Text
  pub events : List IngestEvent
  pub scan_roots : List ScanRootInput

-- `api.IngestUsageEventsBatchResponse`
pub record BatchResponse : Type 0 where
  pub received : ℕ
  pub inserted : ℕ

module _ {F S : Type 0} (r : Repository F S) (fl : Float64 F) (to_lower : Text → Text) where
  -- After the machine is known.
  unfoldable pub ingest_roots_and_events : BatchRequest → Time → S → Response BatchResponse × S
  ingest_roots_and_events req now s =
      let (rooted, s') = upsert_scan_roots r req.install_id req.scan_roots now s in
      elim rooted [
        | err e ↦ (respond 500, s')
        | ok _ ↦
            let (done, s'') = ingest_batch fl to_lower r req.events s' in
            (
              elim done.error [
                | some e ↦ respond 500
                | none ↦ answer 201 (record { received = done.received; inserted = done.inserted })
              ],
              s'',
            )
      ]

  unfoldable pub ingest_usage_events_batch :
      (Text → Option BatchRequest)
      → Option User
      → Text
      → Time
      → Time
      → S
      → Response BatchResponse × S
  unfolding ingest_roots_and_events
  ingest_usage_events_batch bind actor body now now' s = elim actor [
    | none ↦ (refuse 401 unauthorized_body, s)
    | some _ ↦ elim (bind body) [
      | none ↦ (respond 400, s)
      | some req ↦
          let (known, s') = r.upsert_machine req.install_id req.hostname now s in
          elim known [ err e ↦ (respond 500, s') | ok _ ↦ ingest_roots_and_events req now' s' ]
    ]
  ]
