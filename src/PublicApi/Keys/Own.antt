-- ===== src/PublicApi/Keys/Own.antt =====
-- What agents can revoke (internal/transport/publicapi/keys_handler.go).
use my_token.Base.{Text, ◌≡◌, refl, ap, ◌⊎◌, inl, inr, true, false, filter, any, All, some}
use my_token.Usage.Event.{Time}
use my_token.Identity.Repo.{User, IdentityTables, IdentityDriver, is_own_live}
use my_token.Identity.Repo.Lookups.{
  failed, missing, revoked, is_foreign, revoke_api_key-IsRevocation,
}
use my_token.Http.{respond, refuse}
use my_token.PublicApi.Keys.{not_found_body, revoke_key}

module _ (drv : IdentityDriver) (actor : User) (id : Text) (now : Time) (t : IdentityTables) where
  -- An agent's revocation answers 204 if a live key of its own had the id, and then no such key
  -- is live, all other keys, whoever's they are, and the users being as they were; it answers 404
  -- if no live key of its own had the id, be there one of another user or not, and 500 if the
  -- database fails, and then nothing changes.
  pub revoke_key_own :
      let (response, t') = revoke_key drv (some actor) id now t in
      ((response ≡ respond 204)
        × (any (is_own_live id actor.id) t.api_keys ≡ true)
        × All (λ row. is_own_live id actor.id row ≡ false) t'.api_keys
        × (filter (is_foreign id actor.id) t'.api_keys ≡ filter (is_foreign id actor.id) t.api_keys)
        × (t'.users ≡ t.users))
      ⊎ ((response ≡ refuse 404 not_found_body)
          × (any (is_own_live id actor.id) t.api_keys ≡ false)
          × (t' ≡ t))
      ⊎ ((response ≡ respond 500) × (drv.revokes id ≡ false) × (t' ≡ t))
  unfolding revoke_key
  revoke_key_own = elim (revoke_api_key-IsRevocation drv id actor.id now t) [
    | failed e r ↦ inr (inr (rw (r, revoke_key) refl, e, ap (λ o. o.1) r))
    | missing m r ↦ inr (inl (rw (r, revoke_key) refl, m, ap (λ o. o.1) r))
    | revoked key l r u g o ↦ inl (rw (r, revoke_key) refl, l, g, o, u)
  ]
