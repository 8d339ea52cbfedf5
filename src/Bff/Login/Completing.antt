-- ===== src/Bff/Login/Completing.antt =====
-- A login followed to its session (internal/transport/bff/login_handler.go, callback_handler.go,
-- json_middleware.go).
use my_token.Base.{
  ◌+◌, ◌<◌, Text, codes, ==_iff, ==_refl, ◌≡◌, ◌≢◌, refl, ◌∙◌, true, false, [], ◌∷◌, Option, none,
  some, lookup, Result, ok, inl, inr, arith, Bool-cases, lt→ltb, cut_last, ◌==◌,
}
use my_token.Base.Options.{◌>>=◌, bind-some, stop_if-false}
use my_token.Usage.Event.{Time}
use my_token.Identity.Repo.{
  User, RepoError, IdentityTables, IdentityDriver, get_user_by_id, get_user_by_sso_subject,
}
use my_token.Http.{Request, location, query_value}
use my_token.Bff.Session.{
  Signer, new_session_cookie, new_state_cookie, session_cookie_name, state_cookie_name, session_ttl,
  state_ttl, verify,
}
use my_token.Bff.Session.RoundTrip.{
  IsFaithful, new_session_cookie_lem, new_state_cookie_lem, parse_session_cookie-new_session_cookie,
  parse_state_cookie-new_state_cookie,
}
use my_token.Bff.Oauth.{Config, configured, oauth_config, set_cookie}
use my_token.Bff.Login.{
  Provider, found, secure, check_state, open_session, exchange_code, random_state, login_handler,
  callback_handler, in_seconds,
}
use my_token.Bff.Login.Callback.{opened, callback_handler_passes}
use my_token.Bff.Gate.{require_json_session}

not_empty : (s : Text) → s ≢ [] → (s == []) ≡ false
not_empty s h = elim (Bool-cases (s == [])) [ inl e ↦ absurd (h ((==_iff s []).0 e)) | inr f ↦ f ]

found_ok : (r : Result RepoError User) (user : User) → r ≡ ok user → found r ≡ some user
unfolding found
found_ok r user e = rw e refl

verify-filled :
    (s : Signer) (value payload : Text) → verify s value ≡ some payload → (value == []) ≡ false
unfolding verify cut_last ◌==◌
verify-filled s [] payload h = let r : verify s [] ≡ none = refl in ground (arith, r, h)
verify-filled s (a ∷ rest) payload h = refl

module _ (s : Signer) (laws : IsFaithful s.codecs) (drv : IdentityDriver) where
  -- A session of an active owner passes the gate for an hour.
  pub require_json_session-new_session_cookie :
      (made now : Time) (t : IdentityTables) (req : Request) (user : User) (value : Text)
      → new_session_cookie s made user.id ≡ some value
      → lookup session_cookie_name req.cookies ≡ some value
      → now < made + session_ttl
      → get_user_by_id drv user.id t ≡ ok user
      → user.role ≡ codes "owner"
      → user.active ≡ true
      → require_json_session s drv req now t ≡ some user
  unfolding require_json_session ◌==◌
  require_json_session-new_session_cookie made now t req user value new sent fresh stored role
        active =
      bind-some _ _ value sent
      ∙ (let (payload, _, v) = new_session_cookie_lem s laws made user.id value new in
          stop_if-false _ _ (verify-filled s value payload v))
      ∙ bind-some _ _ user.id (
          parse_session_cookie-new_session_cookie s laws made now user.id value new
          ∙ rw (lt→ltb now (made + session_ttl) fresh) refl)
      ∙ bind-some _ _ user (found_ok _ user stored)
      ∙ stop_if-false _ _ (rw role refl)
      ∙ stop_if-false _ _ (rw active refl)

module _ (p : Provider) (cfg : Config) (s : Signer) (laws : IsFaithful s.codecs) where
  -- The state that the login put into its cookie passes the check for five minutes.
  check_state-new_state_cookie :
      (started now : Time) (req : Request) (state code verifier value : Text)
      → new_state_cookie s started state verifier ≡ some value
      → now < started + state_ttl
      → query_value (codes "state") req ≡ state
      → state ≢ []
      → query_value (codes "code") req ≡ code
      → code ≢ []
      → check_state p cfg s now value req ≡ some (code, verifier)
  unfolding check_state
  check_state-new_state_cookie started now req state code verifier value new fresh back full sent
        given =
      bind-some _ _ (state, verifier)
        (parse_state_cookie-new_state_cookie s laws started now state verifier value new
          ∙ rw (lt→ltb now (started + state_ttl) fresh) refl)
      ∙ stop_if-false _ _ (rw (back, not_empty state full, ==_refl state) refl)
      ∙ stop_if-false _ _ (rw sent (not_empty code given))
      ∙ rw sent refl

  module _ (drv : IdentityDriver) (verify_id : Text → Option Text) (t : IdentityTables) where
    open_session_lem :
        (now : Time) (raw sub session : Text) (user : User)
        → raw ≢ []
        → verify_id raw ≡ some sub
        → get_user_by_sso_subject drv sub t ≡ ok user
        → user.role ≡ codes "owner"
        → user.active ≡ true
        → new_session_cookie s now user.id ≡ some session
        → open_session p cfg s drv verify_id (some raw) now t ≡ some session
    unfolding open_session ◌==◌
    open_session_lem now raw sub session user full verified stored role active new =
        bind-some _ _ raw refl
        ∙ stop_if-false _ _ (not_empty raw full)
        ∙ bind-some _ _ sub verified
        ∙ bind-some _ _ user (found_ok _ user stored)
        ∙ stop_if-false _ _ (rw role refl)
        ∙ stop_if-false _ _ (rw (role, active) refl)
        ∙ new

    -- A login sets a state cookie and sends the browser away with the state. If the browser
    -- comes back within five minutes with that cookie, that state and a code, and the provider
    -- gives for the code and the verifier an id token that names an active owner, the callback
    -- sets the session cookie of that owner and redirects to the start page.
    pub callback_handler-login_handler :
        (started now : Time) (req : Request) (bytes code verifier value raw sub session : Text)
        (user : User)
        → configured cfg ≡ true
        → p.verify_id ≡ some verify_id
        → s.codecs.encode bytes ≢ []
        → new_state_cookie s started (s.codecs.encode bytes) verifier ≡ some value
        → now < started + state_ttl
        → lookup state_cookie_name req.cookies ≡ some value
        → query_value (codes "state") req ≡ s.codecs.encode bytes
        → query_value (codes "code") req ≡ code
        → code ≢ []
        → p.exchange (oauth_config cfg) code verifier ≡ some (some raw)
        → raw ≢ []
        → verify_id raw ≡ some sub
        → get_user_by_sso_subject drv sub t ≡ ok user
        → user.role ≡ codes "owner"
        → user.active ≡ true
        → new_session_cookie s now user.id ≡ some session
        → (login_handler p cfg s verifier (some bytes) started ≡ record {
          status = 302;
          set_cookies =
              set_cookie state_cookie_name value (in_seconds state_ttl) (secure p cfg s) ∷ [];
          content = location (p.auth_code_url (oauth_config cfg) (s.codecs.encode bytes) verifier);
        })
          × (callback_handler p cfg s drv req now t ≡ opened p cfg s drv code verifier session)
    unfolding login_handler random_state callback_handler exchange_code
    callback_handler-login_handler started now req bytes code verifier value raw sub session user
          ready verifiable full new fresh sent back asked given exchanged token verified stored role
          active made =
        let checked : check_state p cfg s now value req ≡ some (code, verifier) =
          check_state-new_state_cookie started now req (s.codecs.encode bytes) code verifier value
            new fresh back full asked given in
        let entered : open_session p cfg s drv verify_id (some raw) now t ≡ some session =
          open_session_lem now raw sub session user token verified stored role active made in
        let after : (p.exchange (oauth_config cfg) code verifier >>= λ id_token.
        open_session p cfg s drv verify_id id_token now t)
            ≡ some session =
          bind-some _ _ (some raw) exchanged ∙ entered in
        let (payload, _, v) =
          new_state_cookie_lem s laws started (s.codecs.encode bytes) verifier value new in
        (
          rw (ready, login_handler) (rw new refl),
          callback_handler_passes p cfg s drv req now t verify_id value ready verifiable sent
                (verify-filled s value payload v)
              ∙ rw (checked, exchange_code) (rw after refl),
        )
