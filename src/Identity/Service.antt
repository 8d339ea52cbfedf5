-- ===== src/Identity/Service.antt =====
-- Who a request comes from, and the keys (internal/identity/service.go). SHA-256 in hexadecimal,
-- `strings.TrimSpace`, the JWT verifier, the time, new ids and random keys are arguments.
pub mod Resolving
pub mod Issuing
pub mod Rotating
use my_token.Base.{
  ℕ, zero, suc, ◌+◌, ◌*◌, ◌^◌, Text, codes, ◌==◌, has_prefix, leb, Bool, true, false, not, ◌||◌,
  List, [], ◌∷◌, ◌++◌, Option, none, some, if◌then◌else◌, drop, Result, ok, err, ◌>>=◌,
}
use my_token.Usage.Event.{Time}
use my_token.Identity.Repo.{
  User, ApiKey, RepoError, not_found, broken, IdentityTables, IdentityDriver, get_user_by_id,
  get_user_by_handle, get_user_by_sso_subject, get_api_key_by_hash, create_user, create_api_key,
  list_active_users, list_api_keys_by_owner, revoke_api_key, revoke_api_key_by_id,
  disable_other_api_keys,
}

abbrev pub bearer : Text
bearer = codes "Bearer "

-- What a service is given. `verify` is `none` where no verifier is configured.
pub record Credentials : Type 0 where
  pub sha256_hex : Text → Text
  pub trim_space : Text → Text
  pub verify : Option (Text → Option Text)

-- `!key.ExpiresAt.After(now)` or revoked
unfoldable pub is_dead : Time → ApiKey → Bool
is_dead now key = (elim key.revoked_at [ none ↦ false | some _ ↦ true ]) || leb key.expires_at now

-- What `tryAPIKey` may give: `matched == false` without an error, an error, or a user.
pub data Attempt : Type 0 where
  no_key refused : Attempt
  matched : User → Attempt

unfoldable pub gate : User → Option User
gate user = if user.role == codes "owner" then none else if not user.active then none else some user

module _ (cr : Credentials) (drv : IdentityDriver) where
  unfoldable pub bearer_token : Text → Option Text
  bearer_token header =
      if not (has_prefix header bearer)
      then none
      else (let token = cr.trim_space (drop 7 header) in if token == [] then none else some token)

  unfoldable pub try_api_key : Text → Time → IdentityTables → Attempt
  unfolding is_dead
  try_api_key token now t = elim (get_api_key_by_hash drv (cr.sha256_hex token) t) [
    | err not_found ↦ no_key
    | err broken ↦ refused
    | ok key ↦
        if is_dead now key
        then refused
        else elim (get_user_by_id drv key.user_id t) [ err _ ↦ refused | ok user ↦ matched user ]
  ]

  unfoldable pub try_jwt : Text → IdentityTables → Option User
  try_jwt token t = elim cr.verify [
    | none ↦ none
    | some verify ↦ elim (verify token) [
      | none ↦ none
      | some sub ↦ elim (get_user_by_sso_subject drv sub t) [ err _ ↦ none | ok user ↦ some user ]
    ]
  ]

  -- `none` is `ErrUnauthorized`.
  unfoldable pub resolve_actor : Text → Time → IdentityTables → Option User
  unfolding bearer_token try_api_key try_jwt gate
  resolve_actor header now t = elim (bearer_token header) [
    | none ↦ none
    | some token ↦ elim (try_api_key token now t) [
      | refused ↦ none
      | matched user ↦ gate user
      | no_key ↦ elim (try_jwt token t) [ none ↦ none | some user ↦ gate user ]
    ]
  ]

-- `KeyIssuanceResult`
pub record KeyIssuanceResult : Type 0 where
  pub user : User
  pub api_key : ApiKey
  pub raw_key : Text

pub record RotateResult : Type 0 where
  pub user : User
  pub api_key : ApiKey
  pub raw_key : Text
  pub revoked_count : ℕ

-- 90 days in nanoseconds
abbrev pub api_key_ttl : ℕ
api_key_ttl = 90 * 86400 * 10 ^ 9

-- The first bytes of a text.
unfoldable pub first_bytes : ℕ → Text → Text
first_bytes n [] = []
first_bytes zero (c ∷ s) = []
first_bytes (suc n) (c ∷ s) = c ∷ first_bytes n s

abbrev pub api_key_prefix_length : ℕ
api_key_prefix_length = 12

-- "tpl_" and the hexadecimal digits of the random bytes; `none` where there are none.
unfoldable pub generate_raw_api_key : Option Text → Result RepoError Text
generate_raw_api_key random = elim random [
  | none ↦ err broken
  | some hex ↦ ok (codes "tpl_" ++ hex)
]

module _ (cr : Credentials) (drv : IdentityDriver) where
  unfoldable pub store_key :
      Text → Time → Text → Text → IdentityTables → Result RepoError ApiKey × IdentityTables
  unfolding first_bytes
  store_key uuid now user_id raw t =
      create_api_key drv uuid now user_id (cr.sha256_hex raw)
        (first_bytes api_key_prefix_length raw) (now + api_key_ttl) t

  -- The user of the handle, made where there is none.
  unfoldable pub find_or_create :
      Text → Time → Text → IdentityTables → Result RepoError User × IdentityTables
  find_or_create uuid now handle t = elim (get_user_by_handle drv handle t) [
    | ok user ↦ (ok user, t)
    | err broken ↦ (err broken, t)
    | err not_found ↦ create_user drv uuid now handle (codes "agent") none t
  ]

  unfoldable pub issue_api_key_for_handle :
      Text
      → Text
      → Option Text
      → Time
      → Text
      → IdentityTables
      → Result RepoError KeyIssuanceResult × IdentityTables
  unfolding find_or_create store_key generate_raw_api_key
  issue_api_key_for_handle user_uuid key_uuid random now handle t =
      let (found, t') = find_or_create user_uuid now handle t in
      elim found [
        | err e ↦ (err e, t')
        | ok user ↦ elim (generate_raw_api_key random) [
          | err e ↦ (err e, t')
          | ok raw ↦
              let (stored, t'') = store_key key_uuid now user.id raw t' in
              (
                elim stored [
                  | err e ↦ err e
                  | ok key ↦ ok (record { user = user; api_key = key; raw_key = raw })
                ],
                t'',
              )
        ]
      ]

  -- The new key is stored before the others are disabled.
  unfoldable pub rotate :
      Text
      → Option Text
      → Time
      → Text
      → IdentityTables
      → Result RepoError RotateResult × IdentityTables
  unfolding store_key generate_raw_api_key
  rotate key_uuid random now handle t = elim (get_user_by_handle drv handle t) [
    | err e ↦ (err e, t)
    | ok user ↦ elim (generate_raw_api_key random) [
      | err e ↦ (err e, t)
      | ok raw ↦
          let (stored, t') = store_key key_uuid now user.id raw t in
          elim stored [
            | err e ↦ (err e, t')
            | ok key ↦
                let (disabled, t'') = disable_other_api_keys drv user.id key.id now t' in
                (
                  elim disabled [
                    | err e ↦ err e
                    | ok count ↦ ok (record {
                      user = user;
                      api_key = key;
                      raw_key = raw;
                      revoked_count = count;
                    })
                  ],
                  t'',
                )
          ]
    ]
  ]
