-- ===== src/Bff/Session.antt =====
-- The signed cookies (internal/transport/bff/session.go). HMAC, base64 and JSON are arguments;
-- the claims keep the source's fields.
pub mod RoundTrip
pub mod Kinds
use my_token.Base.{
  ℕ, ◌+◌, ◌*◌, ◌^◌, Text, codes, ◌==◌, ltb, Bool, not, ◌∷◌, ◌++◌, Option, none, some, if◌then◌else◌,
  cut_last,
}
use my_token.Usage.Event.{Time}

-- An hour and five minutes in nanoseconds.
abbrev pub session_ttl : ℕ
session_ttl = 3600 * 10 ^ 9

abbrev pub state_ttl : ℕ
state_ttl = 300 * 10 ^ 9

abbrev pub session_cookie_name : Text
session_cookie_name = codes "session"

abbrev pub state_cookie_name : Text
state_cookie_name = codes "oauth_state"

pub record SessionClaims : Type 0 where
  pub user_id : Text
  pub expires_at : Time

pub record StateClaims : Type 0 where
  pub state : Text
  pub verifier : Text
  pub expires_at : Time

-- `hmac secret message`, base64 without padding, and `json.Marshal` and `json.Unmarshal`.
pub record Codecs : Type 0 where
  pub hmac : Text → Text → Text
  pub encode : Text → Text
  pub decode : Text → Option Text
  pub marshal_session : SessionClaims → Option Text
  pub unmarshal_session : Text → Option SessionClaims
  pub marshal_state : StateClaims → Option Text
  pub unmarshal_state : Text → Option StateClaims

-- `Signer`
pub record Signer : Type 0 where
  pub codecs : Codecs
  pub secret : Text

-- '.'
abbrev pub dot : ℕ
dot = 46

unfoldable pub sign : Signer → Text → Text
sign s payload = encode payload ++ dot ∷ encode (hmac s.secret payload)
  where
    open s.codecs use {encode, hmac}

-- `none` is `errInvalidCookie`.
unfoldable pub verify : Signer → Text → Option Text
verify s token = elim (cut_last dot token) [
  | none ↦ none
  | some (head, tail) ↦ elim (s.codecs.decode head) [
    | none ↦ none
    | some payload ↦ elim (s.codecs.decode tail) [
      | none ↦ none
      | some sig ↦ if not (sig == s.codecs.hmac s.secret payload) then none else some payload
    ]
  ]
]

unfoldable pub new_session_cookie : Signer → Time → Text → Option Text
unfolding sign
new_session_cookie s now user_id =
    elim (s.codecs.marshal_session (record { user_id = user_id; expires_at = now + session_ttl })) [
      | none ↦ none
      | some payload ↦ some (sign s payload)
    ]

unfoldable pub parse_session_cookie : Signer → Time → Text → Option Text
unfolding verify
parse_session_cookie s now value = elim (verify s value) [
  | none ↦ none
  | some payload ↦ elim (s.codecs.unmarshal_session payload) [
    | none ↦ none
    | some claims ↦ if not (ltb now claims.expires_at) then none else some claims.user_id
  ]
]

unfoldable pub new_state_cookie : Signer → Time → Text → Text → Option Text
unfolding sign
new_state_cookie s now state verifier =
    elim (s.codecs.marshal_state
      (record { state = state; verifier = verifier; expires_at = now + state_ttl })) [
        | none ↦ none
        | some payload ↦ some (sign s payload)
      ]

unfoldable pub parse_state_cookie : Signer → Time → Text → Option (Text × Text)
unfolding verify
parse_state_cookie s now value = elim (verify s value) [
  | none ↦ none
  | some payload ↦ elim (s.codecs.unmarshal_state payload) [
    | none ↦ none
    | some claims ↦
        if not (ltb now claims.expires_at) then none else some (claims.state, claims.verifier)
  ]
]
