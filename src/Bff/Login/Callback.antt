-- ===== src/Bff/Login/Callback.antt =====
-- What the callback checks before an exchange and before a session
-- (internal/transport/bff/callback_handler.go).
use mathlib.Core.Path.{subst}
use my_token.Base.{
  Text, codes, ◌==◌, ==_iff, ◌≡◌, ◌≢◌, refl, sym, ◌∙◌, ap, Bool, true, false, not, ◌||◌, List, [],
  ◌∷◌, Option, none, some, lookup, ok, inl, inr, arith, Bool-cases, Option-cases,
}
use my_token.Base.Options.{◌>>=◌, bind_some, stop_if_passes}
use my_token.Usage.Event.{Time}
use my_token.Identity.Repo.{User, IdentityTables, IdentityDriver, get_user_by_sso_subject}
use my_token.Http.{Request, SetCookie, location, query_value}
use my_token.Bff.Session.{
  Signer, parse_state_cookie, new_session_cookie, session_cookie_name, state_cookie_name,
  session_ttl,
}
use my_token.Bff.Oauth.{
  Config, configured, oauth_config, set_cookie, clear_cookie, render_login_error,
}
use my_token.Bff.Login.{
  Provider, Outcome, found, secure, check_state, open_session, exchange_code, callback_handler,
  in_seconds,
}
use my_token.Bff.Gate.Admission.{found_user}

-- The state cookie is valid, its state is the query's, and the code is the query's.
abbrev pub IsStateChecked : Signer → Time → Text → Request → Text → Text → Type 0
IsStateChecked s now value req code verifier =
    (state : Text) × (parse_state_cookie s now value ≡ some (state, verifier))
    × (query_value (codes "state") req ≡ state)
    × (state ≢ [])
    × (query_value (codes "code") req ≡ code)
    × (code ≢ [])

-- The id token names an active owner, of whom the session is.
abbrev pub IsOwnerSession :
    Signer
    → IdentityDriver
    → (Text → Option Text)
    → Option Text
    → Time
    → IdentityTables
    → Text
    → Type 0
IsOwnerSession s drv verify_id id_token now t session =
    (raw : Text) × (sub : Text) × (user : User) × (id_token ≡ some raw)
    × (verify_id raw ≡ some sub)
    × (get_user_by_sso_subject drv sub t ≡ ok user)
    × (user.role ≡ codes "owner")
    × (user.active ≡ true)
    × (new_session_cookie s now user.id ≡ some session)

abbrev pub failed : List SetCookie → Option (Text × Text) → Outcome
failed cookies exchanged = record { response = render_login_error cookies; exchanged = exchanged }

module _ (p : Provider) (cfg : Config) (s : Signer) (drv : IdentityDriver) where
  -- The state cookie, deleted.
  abbrev pub cleared : SetCookie
  cleared = clear_cookie state_cookie_name (secure p cfg s)

  -- The session and the way home.
  abbrev pub opened : Text → Text → Text → Outcome
  opened code verifier session = record {
    response = record {
      status = 302;
      set_cookies =
          cleared
          ∷ set_cookie session_cookie_name session (in_seconds session_ttl) (secure p cfg s)
          ∷ [];
      content = location (codes "/");
    };
    exchanged = some (code, verifier);
  }

  -- What may come of a callback, and what each outcome shows.
  pub data IsCallback (req : Request) (now : Time) (t : IdentityTables) (o : Outcome) : Type 0 where
    refused : o ≡ failed [] none → IsCallback req now t o
    unchecked :
        (value : Text)
        → lookup state_cookie_name req.cookies ≡ some value
        → o ≡ failed (cleared ∷ []) none
        → IsCallback req now t o
    exchanged_only :
        (value code verifier : Text)
        → lookup state_cookie_name req.cookies ≡ some value
        → IsStateChecked s now value req code verifier
        → o ≡ failed (cleared ∷ []) (some (code, verifier))
        → IsCallback req now t o
    session_opened :
        (value code verifier session : Text) (verify_id : Text → Option Text)
        (id_token : Option Text)
        → lookup state_cookie_name req.cookies ≡ some value
        → IsStateChecked s now value req code verifier
        → p.verify_id ≡ some verify_id
        → p.exchange (oauth_config cfg) code verifier ≡ some id_token
        → IsOwnerSession s drv verify_id id_token now t session
        → o ≡ opened code verifier session
        → IsCallback req now t o

or_false : (a b : Bool) → (a || b) ≡ false → (a ≡ false) × (b ≡ false)
or_false a b h = ground arith

is_set : (a : Bool) → not a ≡ false → a ≡ true
is_set a h = ground arith

is_filled : (s : Text) → (s == []) ≡ false → s ≢ []
is_filled s h e = let r : (s == []) ≡ true = (==_iff s []).1 e in ground (arith, r, h)

module _ (p : Provider) (cfg : Config) (s : Signer) where
  pub check_state-IsStateChecked :
      (now : Time) (value : Text) (req : Request) (code verifier : Text)
      → check_state p cfg s now value req ≡ some (code, verifier)
      → IsStateChecked s now value req code verifier
  unfolding check_state
  check_state-IsStateChecked now value req code verifier h =
      let (claims, parsed, h1) = bind_some h in
      let (state, h2) = stop_if_passes h1 in
      let (sent, h3) = stop_if_passes h2 in
      let (given, same) = or_false _ _ state in
      let agree : query_value (codes "state") req ≡ claims.0 = (==_iff _ _).0 (is_set _ same) in
      let code_of : query_value (codes "code") req ≡ code =
        ap (λ o. elim o [ none ↦ code | some c ↦ c.0 ]) h3 in
      let verifier_of : claims.1 ≡ verifier =
        ap (λ o. elim o [ none ↦ verifier | some c ↦ c.1 ]) h3 in
      (
        claims.0,
        parsed ∙ ap (λ v. some (claims.0, v)) verifier_of,
        agree,
        λ (e : claims.0 ≡ []). is_filled _ given (agree ∙ e),
        code_of,
        λ (e : code ≡ []). is_filled _ sent (code_of ∙ e),
      )

  module _ (drv : IdentityDriver) (verify_id : Text → Option Text) (now : Time) where
    open_session-IsOwnerSession :
        (id_token : Option Text) (t : IdentityTables) (session : Text)
        → open_session p cfg s drv verify_id id_token now t ≡ some session
        → IsOwnerSession s drv verify_id id_token now t session
    unfolding open_session
    open_session-IsOwnerSession id_token t session h =
        let (raw, i, h1) = bind_some h in
        let (_, h2) = stop_if_passes h1 in
        let (sub, v, h3) = bind_some h2 in
        let (user, f, h4) = bind_some h3 in
        let (_, h5) = stop_if_passes h4 in
        let (owner, h6) = stop_if_passes h5 in
        let (role, active) = or_false _ _ owner in
        (
          raw,
          sub,
          user,
          i,
          v,
          found_user _ user f,
          (==_iff _ _).0 (is_set _ role),
          is_set _ active,
          h6,
        )

module _ (p : Provider) (cfg : Config) (s : Signer) (drv : IdentityDriver) where
  exchange_code-IsCallback :
      (req : Request) (now : Time) (t : IdentityTables) (verify_id : Text → Option Text)
      (value : Text)
      → lookup state_cookie_name req.cookies ≡ some value
      → p.verify_id ≡ some verify_id
      → IsCallback p cfg s drv req now t
          (exchange_code p cfg s drv verify_id (check_state p cfg s now value req) now t)
  unfolding exchange_code
  exchange_code-IsCallback req now t verify_id value found verified =
      elim (Option-cases (check_state p cfg s now value req)) [
        | inl c ↦ rw (c, exchange_code) (unchecked value found refl)
        | inr ((code, verifier), c) ↦
            let checked : IsStateChecked s now value req code verifier =
              check_state-IsStateChecked p cfg s now value req code verifier c in
            let answered : Option (Option Text) = p.exchange (oauth_config cfg) code verifier in
            let rest : Option Text → Option Text =
              λ (i : Option Text). open_session p cfg s drv verify_id i now t in
            elim (Option-cases (answered >>= rest)) [
              | inl a ↦
                  rw (c, exchange_code)
                    (rw a (exchanged_only value code verifier found checked refl))
              | inr (session, a) ↦
                  let (id_token, e, o) = bind_some a in
                  rw (c, exchange_code)
                    (rw a (
                      session_opened value code verifier session verify_id id_token found checked
                        verified e
                        (open_session-IsOwnerSession p cfg s drv verify_id now id_token t session o)
                        refl))
            ]
      ]

  pub callback_handler_passes :
      (req : Request) (now : Time) (t : IdentityTables) (verify_id : Text → Option Text)
      (value : Text)
      → configured cfg ≡ true
      → p.verify_id ≡ some verify_id
      → lookup state_cookie_name req.cookies ≡ some value
      → (value == []) ≡ false
      → callback_handler p cfg s drv req now t
        ≡ exchange_code p cfg s drv verify_id (check_state p cfg s now value req) now t
  unfolding callback_handler
  callback_handler_passes req now t verify_id value ready v c full =
      rw (ready, callback_handler) (rw (v, c) (rw full refl))

  -- A callback either is refused outright, or deletes the state cookie of the request. It
  -- exchanges a code only if the cookie is valid and its state is the query's, not empty, with
  -- the verifier of the cookie; and it opens a session only if the id token that comes back
  -- names an active owner, whose session it then is.
  pub callback_handler-IsCallback :
      (req : Request) (now : Time) (t : IdentityTables)
      → IsCallback p cfg s drv req now t (callback_handler p cfg s drv req now t)
  unfolding callback_handler
  callback_handler-IsCallback req now t = elim (Bool-cases (configured cfg)) [
    | inr absent ↦ rw (absent, callback_handler) (refused refl)
    | inl ready ↦ elim (Option-cases p.verify_id) [
      | inl v ↦ rw (ready, callback_handler) (rw v (refused refl))
      | inr (verify_id, v) ↦ elim (Option-cases (lookup state_cookie_name req.cookies)) [
        | inl c ↦ rw (ready, callback_handler) (rw (v, c) (refused refl))
        | inr (value, c) ↦ elim (Bool-cases (value == [])) [
          | inl empty ↦ rw (ready, callback_handler) (rw (v, c) (rw empty (refused refl)))
          | inr full ↦
              subst (IsCallback p cfg s drv req now t)
                (sym (callback_handler_passes req now t verify_id value ready v c full))
                (exchange_code-IsCallback req now t verify_id value c v)
        ]
      ]
    ]
  ]
