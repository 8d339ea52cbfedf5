-- ===== src/Identity/Service/Resolving.antt =====
-- Whom `ResolveActor` lets in (internal/identity/service.go).
use mathlib.Core.Path.{subst}
use mathlib.Core.List.{Memᴰ}
use my_token.Base.{
  Text, codes, ◌==◌, ◌≡◌, refl, sym, ap, ◌∙◌, Bool-cases, Option-cases, Result-cases, true, false,
  ◌⊎◌, inl, inr, ◌<◌, ◌≤◌, any, All, All-Memᴰ, Option, none, some, ok, err, arith,
}
use my_token.Usage.Event.{Time}
use my_token.Identity.Repo.{
  User, ApiKey, UserRow, ApiKeyRow, api_key_from_row, get_user_by_sso_subject, not_found, broken,
  IdentityTables, IdentityDriver, get_user_by_id, get_api_key_by_hash,
}
use my_token.Identity.Repo.Found.{
  IsOf, get_user_by_id-IsOf, get_user_by_sso_subject-IsOf, get_api_key_by_hash-Memᴰ,
  get_api_key_by_hash_missing,
}
use my_token.Identity.Service.{
  Credentials, Attempt, no_key, refused, matched, is_dead, gate, bearer_token, try_api_key, try_jwt,
  resolve_actor,
}

gate_lem :
    (user actor : User)
    → gate user ≡ some actor
    → ((actor.role == codes "owner") ≡ false) × (actor.active ≡ true) × (user ≡ actor)
unfolding gate
gate_lem user actor h = elim (Bool-cases (user.role == codes "owner")) [
  | inl owner ↦ let r : gate user ≡ none = rw (owner, gate) refl in ground (arith, r, h)
  | inr agent ↦ elim (Bool-cases user.active) [
    | inr idle ↦ let r : gate user ≡ none = rw (agent, gate) (rw idle refl) in ground (arith, r, h)
    | inl active ↦
        let r : gate user ≡ some user = rw (agent, gate) (rw active refl) in
        let same : user ≡ actor = ground (arith, r, h) in
        (rw (← same) agent, rw (← same) active, same)
  ]
]

module _ (cr : Credentials) (drv : IdentityDriver) (now : Time) (t : IdentityTables) where
  -- A row of the table has the hash of this token, is not revoked and expires later than now, and its
  -- user is this one.
  abbrev pub HasLiveKey : Text → User → Type 0
  HasLiveKey token user =
      (row : ApiKeyRow) × (u : UserRow) × Memᴰ row t.api_keys
      × (row.key_hash ≡ cr.sha256_hex token)
      × (row.revoked_at ≡ none)
      × (now < row.expires_at)
      × Memᴰ u t.users
      × (u.id ≡ row.user_id)
      × IsOf user u

  -- No row of the table has the hash of this token, the verifier gives a subject for the token, and
  -- the subject is this user's.
  abbrev pub HasOnlyJwt : Text → User → Type 0
  HasOnlyJwt token user =
      (any (λ row. row.key_hash == cr.sha256_hex token) t.api_keys ≡ false)
      × ((verify : Text → Option Text) × (sub : Text) × (u : UserRow) × (cr.verify ≡ some verify)
          × (verify token ≡ some sub)
          × Memᴰ u t.users
          × (u.sso_subject ≡ some sub)
          × IsOf user u)

  -- A key that is not dead, by its row.
  is_dead_row :
      (row : ApiKeyRow)
      → is_dead now (api_key_from_row row) ≡ false
      → (row.revoked_at ≡ none) × (now < row.expires_at)
  unfolding is_dead api_key_from_row
  is_dead_row row live = elim (Option-cases row.revoked_at) [
    | inl e ↦ (e, ground (arith, live, e))
    | inr (_, e) ↦ ground (arith, live, e)
  ]

  live_key :
      (token : Text) (key : ApiKey) (user : User)
      → get_api_key_by_hash drv (cr.sha256_hex token) t ≡ ok key
      → is_dead now key ≡ false
      → get_user_by_id drv key.user_id t ≡ ok user
      → HasLiveKey token user
  unfolding api_key_from_row
  live_key token key user e live owner =
      let (row, there, hash, made) = get_api_key_by_hash-Memᴰ drv t (cr.sha256_hex token) key e in
      let (kept, later) = is_dead_row row (subst (λ k. is_dead now k ≡ false) (sym made) live) in
      let (u, known, same, is_of) = get_user_by_id-IsOf drv t key.user_id user owner in
      (
        row,
        u,
        there,
        hash,
        kept,
        later,
        known,
        same ∙ ap (λ (k : ApiKey). k.user_id) (sym made),
        is_of,
      )

  try_jwt_lem :
      (token : Text) (user : User)
      → get_api_key_by_hash drv (cr.sha256_hex token) t ≡ err not_found
      → try_jwt cr drv token t ≡ some user
      → HasOnlyJwt token user
  unfolding try_jwt
  try_jwt_lem token user e j = elim (Option-cases cr.verify) [
    | inl v ↦ let r : try_jwt cr drv token t ≡ none = rw (v, try_jwt) refl in ground (arith, r, j)
    | inr (verify, v) ↦ elim (Option-cases (verify token)) [
      | inl s ↦
          let r : try_jwt cr drv token t ≡ none = rw (v, try_jwt) (rw s refl) in
          ground (arith, r, j)
      | inr (sub, s) ↦ elim (Result-cases (get_user_by_sso_subject drv sub t)) [
        | inr (_, g) ↦
            let r : try_jwt cr drv token t ≡ none = rw (v, try_jwt) (rw s (rw g refl)) in
            ground (arith, r, j)
        | inl (found, g) ↦
            let r : try_jwt cr drv token t ≡ some found = rw (v, try_jwt) (rw s (rw g refl)) in
            let same : found ≡ user = ground (arith, r, j) in
            let (u, known, subject, is_of) =
              get_user_by_sso_subject-IsOf drv t sub user (g ∙ ap ok same) in
            (
              get_api_key_by_hash_missing drv t (cr.sha256_hex token) e,
              (verify, sub, u, v, s, known, subject, is_of),
            )
      ]
    ]
  ]

  -- What an attempt says about the tables.
  abbrev Explains : Text → Attempt → Type 0
  Explains token refused = Unit
  Explains token no_key = get_api_key_by_hash drv (cr.sha256_hex token) t ≡ err not_found
  Explains token (matched user) = HasLiveKey token user

  try_api_key-Explains : (token : Text) → Explains token (try_api_key cr drv token now t)
  unfolding try_api_key
  try_api_key-Explains token =
      elim (Result-cases (get_api_key_by_hash drv (cr.sha256_hex token) t)) [
        | inr (not_found, e) ↦ rw (e, try_api_key) e
        | inr (broken, e) ↦ rw (e, try_api_key) tt
        | inl (key, e) ↦ elim (Bool-cases (is_dead now key)) [
          | inl dead ↦ rw (e, try_api_key) (rw dead tt)
          | inr live ↦ elim (Result-cases (get_user_by_id drv key.user_id t)) [
            | inr (_, u) ↦ rw (e, try_api_key) (rw live (rw u tt))
            | inl (user, u) ↦
                rw (e, try_api_key) (rw live (rw u (live_key token key user e live u)))
          ]
        ]
      ]

  -- The rest of the code, after the attempt.
  abbrev after_attempt : Text → Attempt → Option User
  after_attempt token refused = none
  after_attempt token (matched user) = gate user
  after_attempt token no_key = elim (try_jwt cr drv token t) [ none ↦ none | some user ↦ gate user ]

  -- What a user who is let in has shown.
  abbrev pub IsEntitled : Text → User → Type 0
  IsEntitled token user =
      ((user.role == codes "owner") ≡ false)
      × (user.active ≡ true)
      × (HasLiveKey token user ⊎ HasOnlyJwt token user)

  after_attempt-IsEntitled :
      (token : Text) (a : Attempt) (actor : User)
      → Explains token a
      → after_attempt token a ≡ some actor
      → IsEntitled token actor
  after_attempt-IsEntitled token refused actor x h = ground (arith, h)
  after_attempt-IsEntitled token (matched user) actor x h =
      let (agent, active, same) = gate_lem user actor h in
      (agent, active, inl (subst (HasLiveKey token) same x))
  after_attempt-IsEntitled token no_key actor x h = elim (Option-cases (try_jwt cr drv token t)) [
    | inl e ↦
        let r : after_attempt token no_key ≡ none = rw (e, after_attempt) refl in
        ground (arith, r, h)
    | inr (user, e) ↦
        let r : after_attempt token no_key ≡ gate user = rw (e, after_attempt) refl in
        let (agent, active, same) = gate_lem user actor (sym r ∙ h) in
        (agent, active, inr (try_jwt_lem token actor x (e ∙ ap some same)))
  ]

  -- Whoever a header resolves to is active and no owner, as a row of the users says, and the header
  -- has a bearer token. Either the hash of the token is that of a stored key of theirs that is not
  -- revoked and expires later; or it is that of no stored key at all, and the verifier gives for
  -- the token the subject of that row.
  pub resolve_actor-IsEntitled :
      (header : Text) (actor : User)
      → resolve_actor cr drv header now t ≡ some actor
      → (token : Text) × (bearer_token cr drv header ≡ some token) × IsEntitled token actor
  unfolding resolve_actor
  resolve_actor-IsEntitled header actor h = elim (Option-cases (bearer_token cr drv header)) [
    | inl e ↦
        let r : resolve_actor cr drv header now t ≡ none = rw (e, resolve_actor) refl in
        ground (arith, r, h)
    | inr (token, e) ↦
        let r : resolve_actor cr drv header now t
            ≡ after_attempt token (try_api_key cr drv token now t) =
          rw (e, resolve_actor) refl in
        (
          token,
          e,
          after_attempt-IsEntitled token (try_api_key cr drv token now t) actor
              (try_api_key-Explains token) (sym r ∙ h),
        )
  ]

  pub resolve_actor_dead :
      (header token : Text) (key : ApiKey)
      → bearer_token cr drv header ≡ some token
      → get_api_key_by_hash drv (cr.sha256_hex token) t ≡ ok key
      → is_dead now key ≡ true
      → resolve_actor cr drv header now t ≡ none
  unfolding resolve_actor try_api_key
  resolve_actor_dead header token key e found dead =
      rw (e, resolve_actor) (rw (found, try_api_key) (rw dead refl))

  -- A row that was revoked, or has expired by now.
  abbrev pub IsSpent : ApiKeyRow → Type 0
  IsSpent row = ((at : Time) × (row.revoked_at ≡ some at)) ⊎ (row.expires_at ≤ now)

  is_dead-IsSpent : (row : ApiKeyRow) → IsSpent row → is_dead now (api_key_from_row row) ≡ true
  unfolding is_dead api_key_from_row
  is_dead-IsSpent row (inl (at, e)) = rw e refl
  is_dead-IsSpent row (inr past) = ground (arith, past)

  -- A token whose hash stored keys have, each of them revoked or expired, resolves to no one,
  -- whatever a verifier of JWTs says of it and whatever the database does.
  pub resolve_actor_spent :
      (header token : Text)
      → bearer_token cr drv header ≡ some token
      → any (λ row. row.key_hash == cr.sha256_hex token) t.api_keys ≡ true
      → All (λ row. row.key_hash ≡ cr.sha256_hex token → IsSpent row) t.api_keys
      → resolve_actor cr drv header now t ≡ none
  unfolding resolve_actor try_api_key
  resolve_actor_spent header token e known spent =
      let hash = cr.sha256_hex token in
      elim (Result-cases (get_api_key_by_hash drv hash t)) [
        | inr (broken, f) ↦ rw (e, resolve_actor) (rw (f, try_api_key) refl)
        | inr (not_found, f) ↦
            let missing = get_api_key_by_hash_missing drv t hash f in
            let clash : true ≡ false = sym known ∙ missing in cc
        | inl (key, f) ↦
            let (row, there, same, made) = get_api_key_by_hash-Memᴰ drv t hash key f in
            resolve_actor_dead header token key e f (
              subst (λ k. is_dead now k ≡ true) made
                (is_dead-IsSpent row
                  (All-Memᴰ (λ r. r.key_hash ≡ hash → IsSpent r) t.api_keys row spent there same)))
      ]
