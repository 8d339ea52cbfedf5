-- ===== src/Usage/Service/Ingest.antt =====
-- Ingestion over the real repository (internal/domain/usage/service.go, IngestBatch).
use my_token.Base.{
  suc, Text, codes, ◌^◌, ◌<◌, ◌≡◌, refl, ap, ◌⊎◌, inl, inr, List, [], ◌∷◌, ◌++◌, map, length, none,
  some, arith,
}
use mathlib.Core.Path.{subst}
use my_token.Usage.Pricing.{cost_for_usage}
use mathlib.Core.List.{append-nil}
use my_token.Usage.Floats.{Float64}
use my_token.Usage.Event.{Event, IngestEvent}
use my_token.Usage.Repo.{Driver, Failure, Tables}
use my_token.Usage.Repo.Insert.{
  fresh, CallsSucceed, CallFails, insert_batch_atomic, insert_batch_rows, fresh_again,
}
use my_token.Usage.Service.{Ingested, repo, to_event, ingest_batch}

module _ {F : Type 0} (fl : Float64 F) (to_lower : Text → Text) where
  -- What is to be stored of a reported event: its own fields, the cost of its tokens by the server's
  -- prices, and the source that the server sets.
  abbrev pub recorded : IngestEvent → Event F
  recorded e = record {
    id = e.id;
    session_id = e.session_id;
    actor = e.actor;
    path = e.path;
    machine = e.machine;
    model = e.model;
    scan_root = e.scan_root;
    input_tokens = e.input_tokens;
    output_tokens = e.output_tokens;
    cache_read_input_tokens = e.cache_read_input_tokens;
    cache_creation_input_tokens = e.cache_creation_input_tokens;
    cost =
        cost_for_usage fl to_lower e.model e.input_tokens e.output_tokens e.cache_read_input_tokens
          e.cache_creation_input_tokens;
    source = codes "claude_code";
    created_at = e.timestamp;
  }

  -- The events of a report that are new to the table, as they are to be stored.
  abbrev pub new_events : Tables F → List IngestEvent → List (Event F)
  new_events t events = fresh t.usage_events (map recorded events)

  length-map-recorded : (events : List IngestEvent) → length (map recorded events) ≡ length events
  length-map-recorded [] = refl
  length-map-recorded (e ∷ es) = ap suc (length-map-recorded es)

  -- What a report of some events comes to.
  abbrev pub IsIngested : Driver → List IngestEvent → Tables F → Ingested × Tables F → Type 0
  IsIngested drv events t out =
      (((events ≡ []) ⊎ CallsSucceed drv (length events))
        × (out ≡ (
          record {
            received = length events;
            inserted = length (new_events t events);
            error = none;
          },
          record t { usage_events = t.usage_events ++ new_events t events },
        )))
      ⊎ ((e : Failure) × CallFails drv (length events)
          × (out ≡ (record { received = length events; inserted = 0; error = some e }, t)))

  -- A report of fewer than 2^64 events counts them all as received. Either it is empty or every
  -- call of the database succeeded: then the table has gained, as they were reported and with the
  -- cost of the server's prices, exactly the events that are new, and `inserted` is their number.
  -- Or the begin, an insert of one of the events or the commit failed: then an error is returned,
  -- `inserted` is 0 and no table has changed.
  pub ingest_batch_lem :
      (drv : Driver) (events : List IngestEvent) (t : Tables F)
      → length events < 2 ^ 64
      → IsIngested drv events t (ingest_batch fl to_lower (repo drv) events t)
  unfolding ingest_batch to_event
  ingest_batch_lem drv [] t h = inl (inl refl, rw append-nil refl)
  ingest_batch_lem drv (e ∷ es) t h =
      let batch = map recorded (e ∷ es) in
      let count = length-map-recorded (e ∷ es) in
      let short : length batch < 2 ^ 64 = omega (arith, count) in
      elim (insert_batch_atomic drv batch t.usage_events short) [
        | inl (calls, done) ↦ inl (inr (subst (CallsSucceed drv) count calls), rw done)
        | inr (x, calls, failed) ↦ inr (x, subst (CallFails drv) count calls, rw failed)
      ]

  -- The tables after a report of any length.
  pub ingest_batch_rows :
      (drv : Driver) (events : List IngestEvent) (t : Tables F)
      → ((ingest_batch fl to_lower (repo drv) events t).1 ≡ t)
        ⊎ ((ingest_batch fl to_lower (repo drv) events t).1
            ≡ record t { usage_events = t.usage_events ++ new_events t events })
  unfolding ingest_batch to_event
  ingest_batch_rows drv [] t = inl refl
  ingest_batch_rows drv (e ∷ es) t =
      let batch = map recorded (e ∷ es) in
      elim (insert_batch_rows drv batch t.usage_events) [
        | inl same ↦ inl (ap (λ rows. record t { usage_events = rows }) same)
        | inr grown ↦ inr (ap (λ rows. record t { usage_events = rows }) grown)
      ]

  -- Once a report has been taken, sending it again changes no table, whatever the database does,
  -- and counts nothing as inserted.
  pub ingest_batch_again :
      (drv drv' : Driver) (events : List IngestEvent) (t : Tables F)
      → length events < 2 ^ 64
      → (ingest_batch fl to_lower (repo drv) events t).0.error ≡ none
      → let t' = (ingest_batch fl to_lower (repo drv) events t).1 in
        ((ingest_batch fl to_lower (repo drv') events t').1 ≡ t')
        × ((ingest_batch fl to_lower (repo drv') events t').0.inserted ≡ 0)
        × ((ingest_batch fl to_lower (repo drv') events t').0.received ≡ length events)
  ingest_batch_again drv drv' events t h taken = elim (ingest_batch_lem drv events t h) [
    | inr (e, _, failed) ↦ cc (ap (λ r. r.0.error) failed)
    | inl (_, done) ↦ rw done (
        again (record t { usage_events = t.usage_events ++ new_events t events })
          (fresh_again t.usage_events (map recorded events)))
  ]
    where
      again :
          (t' : Tables F)
          → new_events t' events ≡ []
          → ((ingest_batch fl to_lower (repo drv') events t').1 ≡ t')
            × ((ingest_batch fl to_lower (repo drv') events t').0.inserted ≡ 0)
            × ((ingest_batch fl to_lower (repo drv') events t').0.received ≡ length events)
      again t' nothing = elim (ingest_batch_lem drv' events t' h) [
        | inr (e, _, failed) ↦ rw failed (refl, refl, refl)
        | inl (_, done) ↦ rw (done, nothing, append-nil) (refl, refl, refl)
      ]
