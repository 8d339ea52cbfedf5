-- ===== src/Bff/Session/Kinds.antt =====
-- One kind of cookie in the place of the other (internal/transport/bff/session.go,
-- json_middleware.go, callback_handler.go). Both are signed under one secret.
use my_token.Base.{
  ◌+◌, Text, ◌≡◌, sym, ◌∙◌, ap, ltb, [], none, some, lookup, ok, err, inl, inr, arith, Option-cases,
  if◌then◌else◌,
}
use my_token.Base.Options.{bind_some, stop_if_passes}
use my_token.Usage.Event.{Time}
use my_token.Identity.Repo.{RepoError, IdentityTables, IdentityDriver, get_user_by_id}
use my_token.Http.{Request}
use my_token.Bff.Session.{
  Codecs, Signer, SessionClaims, StateClaims, new_session_cookie, new_state_cookie,
  parse_session_cookie, parse_state_cookie, session_cookie_name, session_ttl, state_ttl,
}
use my_token.Bff.Session.RoundTrip.{
  IsFaithful, session_claims, state_claims, new_session_cookie_lem, new_state_cookie_lem,
  parse_session_cookie_claims, parse_state_cookie_claims,
}
use my_token.Bff.Login.{Provider, check_state}
use my_token.Bff.Oauth.{Config}
use my_token.Bff.Login.Callback.{check_state-IsStateChecked}
use my_token.Bff.Gate.{require_json_session}
use my_token.Bff.Gate.Admission.{found_user}

-- `json.Unmarshal` passes over the keys that a struct lacks, and leaves empty the fields whose
-- keys are absent.
pub record IsLenient (cx : Codecs) : Type 0 where
  pub session_of_state :
      (c : StateClaims) (p : Text)
      → cx.marshal_state c ≡ some p
      → cx.unmarshal_session p ≡ some (record { user_id = []; expires_at = c.expires_at })
  pub state_of_session :
      (c : SessionClaims) (p : Text)
      → cx.marshal_session c ≡ some p
      → cx.unmarshal_state p
        ≡ some (record { state = []; verifier = []; expires_at = c.expires_at })

module _ (s : Signer) (laws : IsFaithful s.codecs) (lenient : IsLenient s.codecs) where
  state_as_session :
      (made now : Time) (state verifier value user_id : Text)
      → new_state_cookie s made state verifier ≡ some value
      → parse_session_cookie s now value ≡ some user_id
      → user_id ≡ []
  state_as_session made now state verifier value user_id new h =
      let (payload, e, v) = new_state_cookie_lem s laws made state verifier value new in
      let parsed : parse_session_cookie s now value
          ≡ (if ltb now (made + state_ttl) then some [] else none) =
        parse_session_cookie_claims s laws now value payload _ v
          (lenient.session_of_state (state_claims s laws made state verifier) payload e) in
      ground (arith, parsed, h)

  -- A cookie that was made for a login opens nothing in the place of a session cookie, as long
  -- as there is no user of the empty id.
  pub require_json_session-new_state_cookie :
      (drv : IdentityDriver) (made now : Time) (t : IdentityTables) (req : Request)
      (state verifier value : Text) (missing : RepoError)
      → new_state_cookie s made state verifier ≡ some value
      → lookup session_cookie_name req.cookies ≡ some value
      → get_user_by_id drv [] t ≡ err missing
      → require_json_session s drv req now t ≡ none
  unfolding require_json_session
  require_json_session-new_state_cookie drv made now t req state verifier value missing new sent
        nobody =
      elim (Option-cases (require_json_session s drv req now t)) [
        | inl e ↦ e
        | inr (user, h) ↦
            let (cookie, c, h1) = bind_some h in
            let (_, h2) = stop_if_passes h1 in
            let (user_id, p, h3) = bind_some h2 in
            let (u, f, h4) = bind_some h3 in
            let same : cookie ≡ value =
              ap (λ o. elim o [ none ↦ value | some x ↦ x ]) (sym c ∙ sent) in
            let empty : user_id ≡ [] =
              state_as_session made now state verifier value user_id new
                (ap (parse_session_cookie s now) (sym same) ∙ p) in
            let stored : get_user_by_id drv user_id t ≡ ok u = found_user _ u f in
            let absent : get_user_by_id drv user_id t ≡ err missing =
              ap (λ i. get_user_by_id drv i t) empty ∙ nobody in
            ground (arith, sym stored ∙ absent)
      ]

  -- A session cookie in the place of a state cookie passes no check of the state, whatever the
  -- query, so that no code is exchanged for it.
  pub check_state-new_session_cookie :
      (p : Provider) (cfg : Config) (made now : Time) (req : Request) (user_id value : Text)
      → new_session_cookie s made user_id ≡ some value
      → check_state p cfg s now value req ≡ none
  check_state-new_session_cookie p cfg made now req user_id value new =
      elim (Option-cases (check_state p cfg s now value req)) [
        | inl e ↦ e
        | inr ((code, verifier), h) ↦
            let (state, parsed, _, full, _, _) =
              check_state-IsStateChecked p cfg s now value req code verifier h in
            let (payload, e, v) = new_session_cookie_lem s laws made user_id value new in
            let claims : parse_state_cookie s now value
                ≡ (if ltb now (made + session_ttl) then some ([], []) else none) =
              parse_state_cookie_claims s laws now value payload _ v
                (lenient.state_of_session (session_claims s laws made user_id) payload e) in
            ground (arith, claims, parsed, full)
      ]
