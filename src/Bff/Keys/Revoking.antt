-- ===== src/Bff/Keys/Revoking.antt =====
-- What the owner's routes on keys do (internal/transport/bff/keys_handler.go).
use mathlib.Core.Path.{subst}
use my_token.Base.{
  ℕ, Text, ◌==◌, ==_iff, ◌≡◌, refl, sym, ◌∙◌, ap, true, false, ◌⊎◌, inl, inr, none, some, List, [],
  ◌∷◌, map, filter, any, All, ok, arith,
}
unfoldable use my_token.Base.Options.{◌>>=◌}
use my_token.Usage.Event.{Time}
use my_token.Usage.Summary.{sort_stable}
use my_token.Identity.Repo.{
  User, ApiKey, ApiKeyRow, IdentityTables, IdentityDriver, api_key_from_row, is_live, is_live_id,
  newer, get_api_key_by_hash,
}
use my_token.Identity.Repo.Agents.{join_handles, with_handle, list_all_agent_api_keys}
use my_token.Identity.Repo.Lookups.{
  failed, missing, revoked, is_other, All-first_of, revoke_api_key_by_id-IsRevocation,
  get_api_key_by_hash_lem,
}
use my_token.Identity.Service.{Credentials, bearer_token, is_dead, resolve_actor}
use my_token.Identity.Service.Resolving.{resolve_actor_dead}
use my_token.Http.{Response, respond, refuse, answer}
use my_token.Bff.Keys.{BffKey, key_not_found_body, to_bff_key, to_bff_keys, list_keys, revoke_key}

-- The row of a key that was joined with its handle.
abbrev pub bff_key : ApiKeyRow × Text → BffKey
bff_key (row, handle) = record {
  id = row.id;
  prefix = row.key_prefix;
  handle = handle;
  created_at = row.created_at;
  expires_at = row.expires_at;
}

to_bff_keys-with_handle :
    (rows : List (ApiKeyRow × Text)) → to_bff_keys (map with_handle rows) ≡ some (map bff_key rows)
unfolding to_bff_keys to_bff_key with_handle api_key_from_row ◌>>=◌
to_bff_keys-with_handle [] = refl
to_bff_keys-with_handle ((row, handle) ∷ rows) = rw (to_bff_keys-with_handle rows) refl

-- Where the tables can be read, the list of keys is answered, for a handle is never missing: the
-- live keys of agents with their handles, the newest first.
pub list_keys_lem :
    (drv : IdentityDriver) (owner : User) (t : IdentityTables)
    → drv.reads_users ≡ true
    → drv.reads_keys ≡ true
    → list_keys drv (some owner) t
      ≡ some (
          answer 200 (
            map bff_key (
              sort_stable
                (λ a b. newer (a.0) (b.0))
                (join_handles t.users (filter is_live t.api_keys)))))
unfolding list_keys list_all_agent_api_keys ◌>>=◌
list_keys_lem drv owner t users keys =
    rw (users, list_keys, list_all_agent_api_keys) (rw keys (rw (to_bff_keys-with_handle _) refl))

-- No live key of this id is among the rows.
abbrev pub IsGone : Text → List ApiKeyRow → Type 0
IsGone id rows = All (λ row. is_live_id id row ≡ false) rows

-- What a revocation by the owner does to the tables.
abbrev pub IsRevoked : Text → IdentityTables → IdentityTables → Type 0
IsRevoked id t t' =
    (any (is_live_id id) t.api_keys ≡ true)
    × IsGone id t'.api_keys
    × (filter (is_other id) t'.api_keys ≡ filter (is_other id) t.api_keys)
    × (t'.users ≡ t.users)

module _ (drv : IdentityDriver) (owner : User) (id : Text) (now : Time) (t : IdentityTables) where
  -- A revocation answers 204 if a live key had the id, and then no live key has it, the keys of
  -- other ids and the users being as they were; it answers 404 if no live key had the id, and
  -- 500 if the database fails, and then nothing changes.
  pub revoke_key_lem :
      let (response, t') = revoke_key drv (some owner) id now t in
      ((response ≡ respond 204) × IsRevoked id t t')
      ⊎ ((response ≡ refuse 404 key_not_found_body)
          × (any (is_live_id id) t.api_keys ≡ false)
          × (t' ≡ t))
      ⊎ ((response ≡ respond 500) × (drv.revokes id ≡ false) × (t' ≡ t))
  unfolding revoke_key
  revoke_key_lem = elim (revoke_api_key_by_id-IsRevocation drv id now t) [
    | failed e r ↦ inr (inr (rw (r, revoke_key) refl, e, ap (λ o. o.1) r))
    | missing m r ↦ inr (inl (rw (r, revoke_key) refl, m, ap (λ o. o.1) r))
    | revoked key l r u g o ↦ inl (rw (r, revoke_key) refl, (l, g, o, u))
  ]

-- A key of a row that is not live is dead at any time.
is_dead-api_key_from_row :
    (id : Text) (now : Time) (row : ApiKeyRow)
    → is_live_id id row ≡ false
    → row.id ≡ id
    → is_dead now (api_key_from_row row) ≡ true
unfolding is_dead api_key_from_row
is_dead-api_key_from_row id now row gone e =
    let same : (row.id == id) ≡ true = (==_iff row.id id).1 e in ground arith

row_id : (row : ApiKeyRow) → row.id ≡ (api_key_from_row row).id
unfolding api_key_from_row
row_id row = refl

-- After a revocation by the owner that was answered 204, no header whose token is a key of that
-- id resolves to anyone, whichever the time, the database's state and the JWT verifier are.
pub resolve_actor-revoke_key :
    (drv after : IdentityDriver) (cr : Credentials) (owner : User) (id : Text) (now later : Time)
    (t : IdentityTables) (header token : Text) (key : ApiKey)
    → (revoke_key drv (some owner) id now t).0 ≡ respond 204
    → bearer_token cr after header ≡ some token
    → get_api_key_by_hash after (cr.sha256_hex token) (revoke_key drv (some owner) id now t).1
      ≡ ok key
    → key.id ≡ id
    → resolve_actor cr after header later (revoke_key drv (some owner) id now t).1 ≡ none
resolve_actor-revoke_key drv after cr owner id now later t header token key done bearer found same =
    let t' : IdentityTables = (revoke_key drv (some owner) id now t).1 in
    let (row, f, made) = get_api_key_by_hash_lem after (cr.sha256_hex token) t' key found in
    let gone : IsGone id t'.api_keys = elim (revoke_key_lem drv owner id now t) [
      | inl (_, (_, g, _, _)) ↦ g
      | inr (inl (r, _, _)) ↦
          let clash : ◌≡◌ {A = ℕ} 204 404 =
            ap (λ (x : Response (Unit {0})). x.status) (sym done ∙ r) in
          absurd (omega arith)
      | inr (inr (r, _, _)) ↦
          let clash : ◌≡◌ {A = ℕ} 204 500 =
            ap (λ (x : Response (Unit {0})). x.status) (sym done ∙ r) in
          absurd (omega arith)
    ] in
    let dead : is_dead later key ≡ true =
      subst (λ k. is_dead later k ≡ true) made
        (is_dead-api_key_from_row id later row
          (All-first_of (λ r. is_live_id id r ≡ false) _ t'.api_keys row gone f)
          (row_id row ∙ ap (λ (k : ApiKey). k.id) made ∙ same)) in
    resolve_actor_dead cr after later t' header token key bearer found dead
