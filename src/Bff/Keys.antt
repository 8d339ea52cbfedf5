-- ===== src/Bff/Keys.antt =====
-- The routes on keys, users and the owner (internal/transport/bff/keys_handler.go,
-- users_handler.go, me_handler.go) over the identity service, whose methods here only pass on the
-- repository. `none` is a panic.
pub mod Revoking
use my_token.Base.{Text, codes, Bool, List, [], ◌∷◌, map, Option, none, some, Result, ok, err}
unfoldable use my_token.Base.Options.{◌>>=◌, ◌>>◌}
use my_token.Usage.Event.{Time}
use my_token.Identity.Repo.{
  User, ApiKey, RepoError, not_found, broken, IdentityTables, IdentityDriver, list_active_users,
  revoke_api_key_by_id,
}
use my_token.Identity.Repo.Agents.{list_all_agent_api_keys}
use my_token.Http.{
  ErrorEnvelope, Response, respond, refuse, answer, new_error_envelope, unauthorized_body,
}
use my_token.Bff.Gate.{with_owner}

-- `bffapi.ApiKey`
pub record BffKey : Type 0 where
  pub id : Text
  pub prefix : Text
  pub handle : Text
  pub created_at : Time
  pub expires_at : Time

-- `bffapi.User`
pub record BffUser : Type 0 where
  pub id : Text
  pub handle : Text
  pub role : Text
  pub active : Bool

pub record MeResponse : Type 0 where
  pub handle : Text
  pub role : Text
  pub active : Bool

unfoldable pub key_not_found_body : ErrorEnvelope
unfolding new_error_envelope
key_not_found_body = new_error_envelope (codes "not_found") (codes "no such key") []

-- The handle is dereferenced.
unfoldable pub to_bff_key : ApiKey → Option BffKey
to_bff_key k = do
  handle ← k.handle
  some (record {
    id = k.id;
    prefix = k.key_prefix;
    handle = handle;
    created_at = k.created_at;
    expires_at = k.expires_at;
  })

unfoldable pub to_bff_keys : List ApiKey → Option (List BffKey)
unfolding to_bff_key
to_bff_keys [] = some []
to_bff_keys (k ∷ keys) = do row ← to_bff_key k; rows ← to_bff_keys keys; some (row ∷ rows)

unfoldable pub to_bff_user : User → BffUser
to_bff_user u = record { id = u.id; handle = u.handle; role = u.role; active = u.active }

module _ (drv : IdentityDriver) where
  unfoldable pub list_keys : Option User → IdentityTables → Option (Response (List BffKey))
  unfolding to_bff_keys
  list_keys actor t = elim actor [
    | none ↦ some (refuse 401 unauthorized_body)
    | some _ ↦ elim (list_all_agent_api_keys drv t) [
      | err e ↦ some (respond 500)
      | ok keys ↦ do rows ← to_bff_keys keys; some (answer 200 rows)
    ]
  ]

  unfoldable pub revoke_key :
      Option User → Text → Time → IdentityTables → Response (Unit {0}) × IdentityTables
  unfolding key_not_found_body
  revoke_key actor id now t = elim actor [
    | none ↦ (refuse 401 unauthorized_body, t)
    | some _ ↦
        let (revoked, t') = revoke_api_key_by_id drv id now t in
        (
          elim revoked [
            | err not_found ↦ refuse 404 key_not_found_body
            | err broken ↦ respond 500
            | ok _ ↦ respond 204
          ],
          t',
        )
  ]

  unfoldable pub list_users : Option User → IdentityTables → Response (List BffUser)
  unfolding with_owner to_bff_user
  list_users actor t = with_owner actor λ _. elim (list_active_users drv t) [
    | err e ↦ respond 500
    | ok users ↦ answer 200 (map to_bff_user users)
  ]

unfoldable pub handle_bff_me : Option User → Response MeResponse
unfolding with_owner
handle_bff_me actor =
    with_owner actor
      λ user. answer 200 (record { handle = user.handle; role = user.role; active = user.active })
