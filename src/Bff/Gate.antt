-- ===== src/Bff/Gate.antt =====
-- The gate of the JSON routes (internal/transport/bff/json_middleware.go, with
-- `ActorFromContext` and `bffOwnerID` of middleware.go).
pub mod Admission
use my_token.Base.{Text, codes, ◌==◌, Bool, not, [], Option, none, some, lookup, if◌then◌else◌}
unfoldable use my_token.Base.Options.{◌>>=◌, ◌>>◌, stop_if}
use my_token.Usage.Event.{Time}
use my_token.Identity.Repo.{User, IdentityTables, IdentityDriver, get_user_by_id}
use my_token.Http.{Request, Response, refuse, unauthorized_body}
use my_token.Bff.Session.{Signer, parse_session_cookie, session_cookie_name}
use my_token.Bff.Login.{found}

module _ (s : Signer) (drv : IdentityDriver) where
  -- The user that the handlers are given; `none` is the answer 401.
  unfoldable pub require_json_session : Request → Time → IdentityTables → Option User
  unfolding found
  require_json_session req now t = do
    cookie ← lookup session_cookie_name req.cookies
    stop_if (cookie == [])
    user_id ← parse_session_cookie s now cookie
    user ← found (get_user_by_id drv user_id t)
    stop_if (user.role == codes "agent")
    stop_if (not user.active)
    some user

-- A handler behind `bffOwnerID`, on the user that the context has.
unfoldable pub with_owner : {B : Type 0} → Option User → (User → Response B) → Response B
with_owner actor handler = elim actor [
  | none ↦ refuse 401 unauthorized_body
  | some user ↦ handler user
]
