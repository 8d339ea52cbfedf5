-- ===== src/PublicApi/Keys.antt =====
-- The agent's own keys and identity (internal/transport/publicapi/keys_handler.go, me_handler.go)
-- over the identity service, whose methods here only pass on the repository.
pub mod Own
use my_token.Base.{Text, codes, Bool, List, [], map, Option, none, some, Result, ok, err}
use my_token.Usage.Event.{Time}
use my_token.Identity.Repo.{
  User, ApiKey, RepoError, not_found, broken, IdentityTables, IdentityDriver,
  list_api_keys_by_owner, revoke_api_key,
}
use my_token.Http.{
  ErrorEnvelope, Response, respond, refuse, answer, new_error_envelope, unauthorized_body,
}

-- `api.ApiKey`
pub record WireKey : Type 0 where
  pub id : Text
  pub prefix : Text
  pub created_at : Time
  pub expires_at : Time

pub record MeResponse : Type 0 where
  pub handle : Text
  pub role : Text
  pub active : Bool

unfoldable pub not_found_body : ErrorEnvelope
unfolding new_error_envelope
not_found_body = new_error_envelope (codes "not_found") (codes "no such key") []

unfoldable pub to_api_key : ApiKey → WireKey
to_api_key k = record {
  id = k.id;
  prefix = k.key_prefix;
  created_at = k.created_at;
  expires_at = k.expires_at;
}

module _ (drv : IdentityDriver) where
  unfoldable pub list_keys : Option User → IdentityTables → Response (List WireKey)
  unfolding to_api_key
  list_keys actor t = elim actor [
    | none ↦ refuse 401 unauthorized_body
    | some owner ↦ elim (list_api_keys_by_owner drv owner.id t) [
      | err e ↦ respond 500
      | ok keys ↦ answer 200 (map to_api_key keys)
    ]
  ]

  unfoldable pub revoke_key :
      Option User → Text → Time → IdentityTables → Response (Unit {0}) × IdentityTables
  unfolding not_found_body
  revoke_key actor id now t = elim actor [
    | none ↦ (refuse 401 unauthorized_body, t)
    | some owner ↦
        let (revoked, t') = revoke_api_key drv id owner.id now t in
        (
          elim revoked [
            | err not_found ↦ refuse 404 not_found_body
            | err broken ↦ respond 500
            | ok _ ↦ respond 204
          ],
          t',
        )
  ]

unfoldable pub handle_me : Option User → Response MeResponse
handle_me actor = elim actor [
  | none ↦ refuse 401 unauthorized_body
  | some user ↦ answer 200 (record { handle = user.handle; role = user.role; active = user.active })
]
