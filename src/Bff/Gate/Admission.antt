-- ===== src/Bff/Gate/Admission.antt =====
-- Whom the gate of the JSON routes lets in (internal/transport/bff/json_middleware.go).
use my_token.Base.{
  Text, codes, ◌==◌, ==_iff, ◌≡◌, ◌≢◌, ◌∙◌, ap, true, false, some, lookup, ok, err, Result, inl,
  inr, ◌⊎◌, arith,
}
use my_token.Base.Options.{bind_some, stop_if_passes}
use my_token.Usage.Event.{Time}
use my_token.Identity.Repo.{User, RepoError, IdentityTables, IdentityDriver, get_user_by_id}
use my_token.Identity.Service.{Credentials, resolve_actor}
use my_token.Identity.Service.Resolving.{resolve_actor-IsEntitled}
use my_token.Http.{Request}
use my_token.Bff.Session.{Signer, session_cookie_name}
use my_token.Bff.Session.RoundTrip.{IsSessionOf, parse_session_cookie-IsSessionOf}
use my_token.Bff.Login.{found}
use my_token.Bff.Gate.{require_json_session}

pub found_user : (r : Result RepoError User) (user : User) → found r ≡ some user → r ≡ ok user
unfolding found
found_user (ok u) user h = let same : u ≡ user = ground (arith, h) in ap ok same
found_user (err e) user h = ground (arith, h)

-- What a user who is let in has shown.
abbrev pub IsAdmitted : Signer → IdentityDriver → Request → Time → IdentityTables → User → Type 0
IsAdmitted s drv req now t user =
    (cookie : Text) × (user_id : Text) × (lookup session_cookie_name req.cookies ≡ some cookie)
    × IsSessionOf s now cookie user_id
    × (get_user_by_id drv user_id t ≡ ok user)
    × ((user.role == codes "agent") ≡ false)
    × (user.active ≡ true)

module _ (s : Signer) (drv : IdentityDriver) (now : Time) (t : IdentityTables) where
  -- Whoever is let in is active and no agent, in the tables as they are at this request, and
  -- the request has a session cookie of theirs: signed under the secret and not expired.
  pub require_json_session-IsAdmitted :
      (req : Request) (user : User)
      → require_json_session s drv req now t ≡ some user
      → IsAdmitted s drv req now t user
  unfolding require_json_session
  require_json_session-IsAdmitted req user h =
      let (cookie, c, h1) = bind_some h in
      let (filled, h2) = stop_if_passes h1 in
      let (user_id, p, h3) = bind_some h2 in
      let (u, f, h4) = bind_some h3 in
      let (role, h5) = stop_if_passes h4 in
      let (idle, h6) = stop_if_passes h5 in
      let same : u ≡ user = ground (arith, h6) in
      (
        cookie,
        user_id,
        c,
        parse_session_cookie-IsSessionOf s now cookie user_id p,
        found_user _ user (f ∙ ap some same),
        rw (← same) role,
        rw (← same) ground (arith, idle),
      )

  -- A user of one of the two roles who is let in by a session is no one that a header resolves to,
  -- at the same instant and over the same tables.
  pub require_json_session-resolve_actor :
      (cr : Credentials) (req : Request) (header : Text) (user : User)
      → (user.role ≡ codes "owner") ⊎ (user.role ≡ codes "agent")
      → require_json_session s drv req now t ≡ some user
      → resolve_actor cr drv header now t ≢ some user
  require_json_session-resolve_actor cr req header user roles session credential =
      let (cookie, user_id, c, p, u, not_agent, active) =
        require_json_session-IsAdmitted req user session in
      let (token, e, (not_owner, _, _)) =
        resolve_actor-IsEntitled cr drv now t header user credential in
      elim roles [
        | inl owner ↦
            let r : (user.role == codes "owner") ≡ true = (==_iff _ _).1 owner in
            ground (arith, r, not_owner)
        | inr agent ↦
            let r : (user.role == codes "agent") ≡ true = (==_iff _ _).1 agent in
            ground (arith, r, not_agent)
      ]
