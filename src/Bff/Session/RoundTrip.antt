-- ===== src/Bff/Session/RoundTrip.antt =====
-- What the checks of a cookie accept (internal/transport/bff/session.go).
use mathlib.Core.Path.{subst}
use my_token.Base.{
  ◌+◌, Text, ◌==◌, ==_iff, ==_refl, ◌≡◌, refl, ltb, true, ◌∷◌, ◌++◌, none, some, Option-cases,
  Bool-cases, inl, inr, if◌then◌else◌, cut_last, cut_last-append, cut_last-Joins, Joins, Lacks,
  arith,
}
use my_token.Usage.Event.{Time}
use my_token.Bff.Session.{
  Codecs, Signer, SessionClaims, StateClaims, dot, sign, verify, new_session_cookie,
  parse_session_cookie, new_state_cookie, parse_state_cookie, session_ttl, state_ttl,
}

-- The alphabet of base64 has no dot, and what was encoded or marshalled is read back.
pub record IsFaithful (cx : Codecs) : Type 0 where
  pub decode-encode : (s : Text) → cx.decode (cx.encode s) ≡ some s
  pub encode-Lacks : (s : Text) → Lacks dot (cx.encode s)
  pub session_lem :
      (c : SessionClaims) (p : Text)
      → cx.marshal_session c ≡ some p
      → cx.unmarshal_session p ≡ some c
  pub state_lem :
      (c : StateClaims) (p : Text) → cx.marshal_state c ≡ some p → cx.unmarshal_state p ≡ some c

-- A token that carries the payload and the signature of the payload under the secret.
abbrev pub IsSigned : Signer → Text → Text → Type 0
IsSigned s token payload =
    (head : Text) × (tail : Text) × (token ≡ head ++ dot ∷ tail)
    × (s.codecs.decode head ≡ some payload)
    × (s.codecs.decode tail ≡ some (s.codecs.hmac s.secret payload))

module _ (s : Signer) where
  -- A payload is taken from a token only if the token ends in the payload's signature under
  -- the secret.
  pub verify-IsSigned :
      (token payload : Text) → verify s token ≡ some payload → IsSigned s token payload
  unfolding verify
  verify-IsSigned token payload h = elim (Option-cases (cut_last dot token)) [
    | inl e ↦ let r : verify s token ≡ none = rw (e, verify) refl in ground (arith, r, h)
    | inr (parts, e) ↦ elim (Option-cases (s.codecs.decode parts.0)) [
      | inl d ↦ let r : verify s token ≡ none = rw (e, verify) (rw d refl) in ground (arith, r, h)
      | inr (body, d) ↦ elim (Option-cases (s.codecs.decode parts.1)) [
        | inl f ↦
            let r : verify s token ≡ none = rw (e, verify) (rw (d, f) refl) in ground (arith, r, h)
        | inr (sig, f) ↦ elim (Bool-cases (sig == s.codecs.hmac s.secret body)) [
          | inr forged ↦
              let r : verify s token ≡ none = rw (e, verify) (rw (d, f) (rw forged refl)) in
              ground (arith, r, h)
          | inl good ↦
              let r : verify s token ≡ some body = rw (e, verify) (rw (d, f) (rw good refl)) in
              let same : body ≡ payload = ground (arith, r, h) in
              let joined : token ≡ parts.0 ++ dot ∷ parts.1 =
                subst (Joins dot token) e (cut_last-Joins dot token) in
              let signed : sig ≡ s.codecs.hmac s.secret body = (==_iff _ _).0 good in
              subst (IsSigned s token) same (parts.0, parts.1, joined, d, rw (← signed) f)
        ]
      ]
    ]
  ]

module _ (s : Signer) (laws : IsFaithful s.codecs) where
  pub verify-sign : (payload : Text) → verify s (sign s payload) ≡ some payload
  unfolding verify sign
  verify-sign payload =
      rw
        (
          cut_last-append dot (s.codecs.encode payload)
              (s.codecs.encode (s.codecs.hmac s.secret payload)) (laws.encode-Lacks _),
          verify,
          sign,
        )
        (rw
          (
            laws.decode-encode payload,
            laws.decode-encode (s.codecs.hmac s.secret payload),
            ==_refl (s.codecs.hmac s.secret payload),
          )
          refl)

  pub parse_session_cookie_claims :
      (now : Time) (value payload : Text) (c : SessionClaims)
      → verify s value ≡ some payload
      → s.codecs.unmarshal_session payload ≡ some c
      → parse_session_cookie s now value ≡ (if ltb now c.expires_at then some c.user_id else none)
  unfolding parse_session_cookie
  parse_session_cookie_claims now value payload c v u = elim (Bool-cases (ltb now c.expires_at)) [
    | inl fresh ↦ rw (v, parse_session_cookie) (rw u (rw fresh refl))
    | inr stale ↦ rw (v, parse_session_cookie) (rw u (rw stale refl))
  ]

  pub parse_state_cookie_claims :
      (now : Time) (value payload : Text) (c : StateClaims)
      → verify s value ≡ some payload
      → s.codecs.unmarshal_state payload ≡ some c
      → parse_state_cookie s now value
        ≡ (if ltb now c.expires_at then some (c.state, c.verifier) else none)
  unfolding parse_state_cookie
  parse_state_cookie_claims now value payload c v u = elim (Bool-cases (ltb now c.expires_at)) [
    | inl fresh ↦ rw (v, parse_state_cookie) (rw u (rw fresh refl))
    | inr stale ↦ rw (v, parse_state_cookie) (rw u (rw stale refl))
  ]

  abbrev pub session_claims : Time → Text → SessionClaims
  session_claims made user_id = record { user_id = user_id; expires_at = made + session_ttl }

  abbrev pub state_claims : Time → Text → Text → StateClaims
  state_claims made state verifier = record {
    state = state;
    verifier = verifier;
    expires_at = made + state_ttl;
  }

  pub new_session_cookie_lem :
      (made : Time) (user_id value : Text)
      → new_session_cookie s made user_id ≡ some value
      → (payload : Text) × (s.codecs.marshal_session (session_claims made user_id) ≡ some payload)
        × (verify s value ≡ some payload)
  unfolding new_session_cookie
  new_session_cookie_lem made user_id value h =
      elim (Option-cases (s.codecs.marshal_session (session_claims made user_id))) [
        | inl e ↦
            let r : new_session_cookie s made user_id ≡ none = rw (e, new_session_cookie) refl in
            ground (arith, r, h)
        | inr (payload, e) ↦
            let r : new_session_cookie s made user_id ≡ some (sign s payload) =
              rw (e, new_session_cookie) refl in
            let same : sign s payload ≡ value = ground (arith, r, h) in
            (payload, e, rw (← same) (verify-sign payload))
      ]

  pub new_state_cookie_lem :
      (made : Time) (state verifier value : Text)
      → new_state_cookie s made state verifier ≡ some value
      → (payload : Text) × (s.codecs.marshal_state (state_claims made state verifier)
          ≡ some payload)
        × (verify s value ≡ some payload)
  unfolding new_state_cookie
  new_state_cookie_lem made state verifier value h =
      elim (Option-cases (s.codecs.marshal_state (state_claims made state verifier))) [
        | inl e ↦
            let r : new_state_cookie s made state verifier ≡ none = rw (e, new_state_cookie) refl in
            ground (arith, r, h)
        | inr (payload, e) ↦
            let r : new_state_cookie s made state verifier ≡ some (sign s payload) =
              rw (e, new_state_cookie) refl in
            let same : sign s payload ≡ value = ground (arith, r, h) in
            (payload, e, rw (← same) (verify-sign payload))
      ]

  -- A session cookie that was made is read back as its user until an hour after it was made,
  -- and is invalid from then on.
  pub parse_session_cookie-new_session_cookie :
      (made now : Time) (user_id value : Text)
      → new_session_cookie s made user_id ≡ some value
      → parse_session_cookie s now value
        ≡ (if ltb now (made + session_ttl) then some user_id else none)
  parse_session_cookie-new_session_cookie made now user_id value h =
      let (payload, e, v) = new_session_cookie_lem made user_id value h in
      parse_session_cookie_claims now value payload (session_claims made user_id) v
        (laws.session_lem _ payload e)

  -- A state cookie that was made is read back as its state and verifier until five minutes
  -- after it was made, and is invalid from then on.
  pub parse_state_cookie-new_state_cookie :
      (made now : Time) (state verifier value : Text)
      → new_state_cookie s made state verifier ≡ some value
      → parse_state_cookie s now value
        ≡ (if ltb now (made + state_ttl) then some (state, verifier) else none)
  parse_state_cookie-new_state_cookie made now state verifier value h =
      let (payload, e, v) = new_state_cookie_lem made state verifier value h in
      parse_state_cookie_claims now value payload (state_claims made state verifier) v
        (laws.state_lem _ payload e)

-- The payload and the claims behind a session cookie that is accepted at this time.
abbrev pub IsSessionOf : Signer → Time → Text → Text → Type 0
IsSessionOf s now value user_id =
    (payload : Text) × (claims : SessionClaims) × IsSigned s value payload
    × (s.codecs.unmarshal_session payload ≡ some claims)
    × (ltb now claims.expires_at ≡ true)
    × (claims.user_id ≡ user_id)

module _ (s : Signer) where
  pub parse_session_cookie-IsSessionOf :
      (now : Time) (value user_id : Text)
      → parse_session_cookie s now value ≡ some user_id
      → IsSessionOf s now value user_id
  unfolding parse_session_cookie
  parse_session_cookie-IsSessionOf now value user_id h = elim (Option-cases (verify s value)) [
    | inl e ↦
        let r : parse_session_cookie s now value ≡ none = rw (e, parse_session_cookie) refl in
        ground (arith, r, h)
    | inr (payload, e) ↦ elim (Option-cases (s.codecs.unmarshal_session payload)) [
      | inl u ↦
          let r : parse_session_cookie s now value ≡ none =
            rw (e, parse_session_cookie) (rw u refl) in
          ground (arith, r, h)
      | inr (claims, u) ↦ elim (Bool-cases (ltb now claims.expires_at)) [
        | inr stale ↦
            let r : parse_session_cookie s now value ≡ none =
              rw (e, parse_session_cookie) (rw u (rw stale refl)) in
            ground (arith, r, h)
        | inl fresh ↦
            let r : parse_session_cookie s now value ≡ some claims.user_id =
              rw (e, parse_session_cookie) (rw u (rw fresh refl)) in
            let same : claims.user_id ≡ user_id = ground (arith, r, h) in
            (payload, claims, verify-IsSigned s value payload e, u, fresh, same)
      ]
    ]
  ]
