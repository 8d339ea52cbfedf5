-- ===== src/Bff/Login.antt =====
-- The login and its callback (internal/transport/bff/login_handler.go, callback_handler.go).
pub mod Callback
pub mod Completing
use my_token.Base.{
  ℕ, ◌/◌, ◌^◌, Text, codes, ◌==◌, Bool, not, ◌||◌, List, [], ◌∷◌, Option, none, some, lookup,
  if◌then◌else◌, Result, ok, err,
}
unfoldable use my_token.Base.Options.{◌>>=◌, ◌>>◌, stop_if}
use my_token.Usage.Event.{Time}
use my_token.Identity.Repo.{
  User, RepoError, IdentityTables, IdentityDriver, get_user_by_sso_subject,
}
use my_token.Http.{Request, Response, location, query_value}
use my_token.Bff.Session.{
  Codecs, Signer, new_session_cookie, new_state_cookie, parse_state_cookie, session_cookie_name,
  state_cookie_name, session_ttl, state_ttl,
}
use my_token.Bff.Oauth.{
  Config, OauthConfig, oauth_config, configured, secure_from_url, set_cookie, clear_cookie,
  render_login_error,
}

-- `url.Parse`, the address of `AuthCodeURL` for a state and a verifier, and `Exchange` of a code
-- with a verifier: its error, or the token's `id_token` where that is a string.
pub record Provider : Type 0 where
  pub scheme_of : Text → Option Text
  pub auth_code_url : OauthConfig → Text → Text → Text
  pub exchange : OauthConfig → Text → Text → Option (Option Text)
  -- `none` where there is no verifier of id tokens.
  pub verify_id : Option (Text → Option Text)

abbrev pub in_seconds : ℕ → ℕ
in_seconds ns = ns / 10 ^ 9

-- `randomState` over the bytes that were read.
unfoldable pub random_state : Codecs → Option Text → Option Text
random_state cx random = elim random [ none ↦ none | some bytes ↦ some (cx.encode bytes) ]

-- The user of a lookup, whatever the error.
unfoldable pub found : Result RepoError User → Option User
found (ok user) = some user
found (err e) = none

-- The response, and the code and the verifier of the exchange, where one was attempted.
pub record Outcome : Type 0 where
  pub response : Response (Unit {0})
  pub exchanged : Option (Text × Text)

module _ (p : Provider) (cfg : Config) (s : Signer) where
  unfoldable pub secure : Bool
  secure = secure_from_url p.scheme_of cfg.auth_audience

  -- The verifier and the random bytes are made by the caller.
  unfoldable pub login_handler : Text → Option Text → Time → Response (Unit {0})
  unfolding random_state secure render_login_error
  login_handler verifier random now =
      if not (configured cfg) then render_login_error [] else elim (random_state s.codecs random) [
        | none ↦ render_login_error []
        | some state ↦ elim (new_state_cookie s now state verifier) [
          | none ↦ render_login_error []
          | some value ↦ record {
            status = 302;
            set_cookies = set_cookie state_cookie_name value (in_seconds state_ttl) secure ∷ [];
            content = location (p.auth_code_url (oauth_config cfg) state verifier);
          }
        ]
      ]

  -- From the state cookie's value to the code and the verifier of the exchange.
  unfoldable pub check_state : Time → Text → Request → Option (Text × Text)
  check_state now value req = do
    (want_state, verifier) ← parse_state_cookie s now value
    let got_state = query_value (codes "state") req
    stop_if (got_state == [] || not (got_state == want_state))
    let code = query_value (codes "code") req
    stop_if (code == [])
    some (code, verifier)

  -- From the token to the value of the session cookie.
  unfoldable pub open_session :
      IdentityDriver → (Text → Option Text) → Option Text → Time → IdentityTables → Option Text
  unfolding found
  open_session drv verify_id id_token now t = do
    raw ← id_token
    stop_if (raw == [])
    sub ← verify_id raw
    user ← found (get_user_by_sso_subject drv sub t)
    stop_if (user.role == codes "agent")
    stop_if (not (user.role == codes "owner") || not user.active)
    new_session_cookie s now user.id

  -- The callback from the check of the state on.
  unfoldable pub exchange_code :
      IdentityDriver → (Text → Option Text) → Option (Text × Text) → Time → IdentityTables → Outcome
  unfolding open_session secure render_login_error
  exchange_code drv verify_id checked now t =
      let cleared = clear_cookie state_cookie_name secure in
      elim checked [
        | none ↦ record { response = render_login_error (cleared ∷ []); exchanged = none }
        | some (code, verifier) ↦
            let answered = p.exchange (oauth_config cfg) code verifier in
            elim (answered >>= λ id_token. open_session drv verify_id id_token now t) [
              | none ↦ record {
                response = render_login_error (cleared ∷ []);
                exchanged = some (code, verifier);
              }
              | some value ↦ record {
                response = record {
                  status = 302;
                  set_cookies =
                      cleared
                      ∷ set_cookie session_cookie_name value (in_seconds session_ttl) secure
                      ∷ [];
                  content = location (codes "/");
                };
                exchanged = some (code, verifier);
              }
            ]
      ]

  -- The session begins at `now`, the time of the whole call.
  unfoldable pub callback_handler : IdentityDriver → Request → Time → IdentityTables → Outcome
  unfolding check_state exchange_code render_login_error
  callback_handler drv req now t =
      if not (configured cfg)
      then record { response = render_login_error []; exchanged = none }
      else elim p.verify_id [
        | none ↦ record { response = render_login_error []; exchanged = none }
        | some verify_id ↦ elim (lookup state_cookie_name req.cookies) [
          | none ↦ record { response = render_login_error []; exchanged = none }
          | some value ↦
              if value == []
              then record { response = render_login_error []; exchanged = none }
              else exchange_code drv verify_id (check_state now value req) now t
        ]
      ]
