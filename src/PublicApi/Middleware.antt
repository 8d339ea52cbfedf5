-- ===== src/PublicApi/Middleware.antt =====
-- The two guards before every route (internal/transport/publicapi/middleware.go). The header
-- names and the lower case of package strings, `bytes.TrimSpace`, and the top-level keys of a
-- JSON object are arguments.
pub mod Guards
use my_token.Base.{
  Text, codes, ◌==◌, Bool, true, false, not, ◌||◌, List, [], ◌∷◌, any, member, Option, none, some,
  if◌then◌else◌,
}
use my_token.Usage.Event.{Time}
use my_token.Identity.Repo.{User, IdentityTables, IdentityDriver}
use my_token.Identity.Service.{Credentials, resolve_actor}
use my_token.Http.{ErrorEnvelope, Response, refuse, new_error_envelope, unauthorized_body}

-- What `io.ReadAll` gives of a body: the bytes, and whether it came without an error.
pub record Body : Type 0 where
  pub bytes : Text
  pub complete : Bool

pub record ApiRequest : Type 0 where
  pub x_actor : Text
  pub authorization : Text
  pub query_keys : List Text
  -- `none` where there is no body.
  pub body : Option Body

pub record Parsers : Type 0 where
  pub to_lower : Text → Text
  pub trim_space : Text → Text
  -- The keys of `json.Unmarshal` into a map; `none` is its error.
  pub object_keys : Text → Option (List Text)

abbrev pub forbidden_field_names : List Text
forbidden_field_names = codes "actor" ∷ codes "actorid" ∷ codes "ownerid" ∷ []

unfoldable pub actor_field_present : ErrorEnvelope
unfolding new_error_envelope
actor_field_present =
    new_error_envelope (codes "actor_field_present")
      (codes "request may not declare an actor — identity comes only from the resolved credential")
      []

module _ (ps : Parsers) where
  abbrev pub is_forbidden : Text → Bool
  is_forbidden key = member (ps.to_lower key) forbidden_field_names

  unfoldable pub has_forbidden_key : Body → Bool
  unfolding member
  has_forbidden_key body =
      if not body.complete || ps.trim_space body.bytes == []
      then false
      else elim (ps.object_keys body.bytes) [ none ↦ false | some keys ↦ any is_forbidden keys ]

  -- The request that the handlers read, its body put back; a broken body ends where it broke.
  unfoldable pub has_forbidden_body_field : ApiRequest → Bool × ApiRequest
  unfolding has_forbidden_key
  has_forbidden_body_field req = elim req.body [
    | none ↦ (false, req)
    | some body ↦ (
      has_forbidden_key body,
      record req { body = some (record { bytes = body.bytes; complete = true }) },
    )
  ]

  -- `none` where the request is refused with 400.
  unfoldable pub reject_actor_fields : ApiRequest → Option ApiRequest
  unfolding has_forbidden_body_field member
  reject_actor_fields req =
      if not (req.x_actor == [])
      then none
      else if any is_forbidden req.query_keys
      then none
      else (let (forbidden, req') = has_forbidden_body_field req in
          if forbidden then none else some req')

  -- Both guards, then the rest, which is given the actor.
  unfoldable pub guarded :
      {B : Type 0}
      → Credentials
      → IdentityDriver
      → Time
      → IdentityTables
      → ApiRequest
      → (ApiRequest → User → Response B)
      → Response B
  unfolding reject_actor_fields actor_field_present
  guarded cr drv now t req next = elim (reject_actor_fields req) [
    | none ↦ refuse 400 actor_field_present
    | some req' ↦ elim (resolve_actor cr drv req'.authorization now t) [
      | none ↦ refuse 401 unauthorized_body
      | some user ↦ next req' user
    ]
  ]
