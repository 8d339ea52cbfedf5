-- ===== src/Identity/Service/Issuing.antt =====
-- What a key that was stored is good for (internal/identity/service.go, IssueAPIKeyForHandle).
use mathlib.Core.Path.{subst}
use my_token.Base.{
  ◌+◌, Text, ◌==◌, ==_refl, leb, ◌≡◌, refl, sym, ◌∙◌, ap, Bool, Bool-cases, Result-cases, true,
  false, ◌||◌, inl, inr, List, [], ◌∷◌, ◌++◌, any, Option, none, some, Result, ok, err, arith,
}
use my_token.Usage.Event.{Time}
use my_token.Identity.Repo.{
  User, ApiKey, ApiKeyRow, RepoError, IdentityTables, IdentityDriver, api_key_from_row, first_of,
  one, get_user_by_id, get_api_key_by_hash, create_api_key,
}
use my_token.Identity.Service.{
  Credentials, KeyIssuanceResult, gate, is_dead, bearer_token, try_api_key, resolve_actor,
  find_or_create, generate_raw_api_key, store_key, issue_api_key_for_handle, first_bytes,
  api_key_prefix_length, api_key_ttl,
}

first_of-last :
    (test : ApiKeyRow → Bool) (rows : List ApiKeyRow) (row : ApiKeyRow)
    → any test rows ≡ false
    → test row ≡ true
    → first_of test (rows ++ row ∷ []) ≡ some row
unfolding first_of
first_of-last test [] row misses hits = rw (hits) refl
first_of-last test (r ∷ rows) row misses hits = elim (Bool-cases (test r)) [
  | inl hit ↦ ground (arith, hit, misses)
  | inr miss ↦ rw (miss) (first_of-last test rows row (rw miss at misses) hits)
]

any-hash :
    (id hash : Text) (rows : List ApiKeyRow)
    → any (λ k. k.id == id || k.key_hash == hash) rows ≡ false
    → any (λ k. k.key_hash == hash) rows ≡ false
any-hash id hash [] e = refl
any-hash id hash (r ∷ rows) e = ground (arith, any-hash id hash rows, e)

-- The row of a new key.
abbrev new_row : Text → Time → Text → Text → Text → Time → ApiKeyRow
new_row uuid now user_id key_hash key_prefix expires_at = record {
  id = uuid;
  user_id = user_id;
  key_hash = key_hash;
  key_prefix = key_prefix;
  created_at = now;
  expires_at = expires_at;
  revoked_at = none;
}

-- A key that was created is found under its hash.
create_api_key_found :
    (drv drv' : IdentityDriver) (uuid : Text) (now : Time) (user_id hash prefix : Text)
    (expires : Time) (t : IdentityTables) (key : ApiKey)
    → (create_api_key drv uuid now user_id hash prefix expires t).0 ≡ ok key
    → drv'.reads_keys ≡ true
    → get_api_key_by_hash drv' hash ((create_api_key drv uuid now user_id hash prefix expires t).1)
      ≡ ok (api_key_from_row (new_row uuid now user_id hash prefix expires))
unfolding create_api_key get_api_key_by_hash one
create_api_key_found drv drv' uuid now user_id hash prefix expires t key e reads =
    elim (Bool-cases (any (λ k. k.id == uuid || k.key_hash == hash) t.api_keys)) [
      | inl clash ↦ ground (arith, clash, e)
      | inr free ↦ elim (Bool-cases drv.writes_keys) [
        | inr w ↦ ground (arith, w, e)
        | inl w ↦
            rw (w, free, reads)
              (rw
                (first_of-last (λ k. k.key_hash == hash) t.api_keys
                  (new_row uuid now user_id hash prefix expires)
                  (any-hash uuid hash t.api_keys free) (==_refl hash))
                refl)
      ]
    ]

module _ (cr : Credentials) (drv drv' : IdentityDriver) where
  -- A key that was stored resolves to its user.
  resolve_actor-store_key :
      (uuid : Text) (now now' : Time) (user_id raw header : Text) (t : IdentityTables)
      (key : ApiKey) (user : User)
      → (store_key cr drv uuid now user_id raw t).0 ≡ ok key
      → drv'.reads_keys ≡ true
      → get_user_by_id drv' user_id ((store_key cr drv uuid now user_id raw t).1) ≡ ok user
      → leb (now + api_key_ttl) now' ≡ false
      → bearer_token cr drv' header ≡ some raw
      → resolve_actor cr drv' header now' ((store_key cr drv uuid now user_id raw t).1) ≡ gate user
  unfolding store_key resolve_actor try_api_key is_dead api_key_from_row
  resolve_actor-store_key uuid now now' user_id raw header t key user e reads owner alive bearer =
      let found =
        create_api_key_found drv drv' uuid now user_id (cr.sha256_hex raw)
          (first_bytes api_key_prefix_length raw) (now + api_key_ttl) t key e reads in
      rw (bearer, resolve_actor) (rw (found, try_api_key) (rw (alive, owner) refl))

  -- The end of an issue, over what the store gave.
  abbrev issued_as :
      User
      → Text
      → Result RepoError ApiKey × IdentityTables
      → Result RepoError KeyIssuanceResult × IdentityTables
  issued_as user raw out = (
    elim out.0 [
      | err e ↦ err e
      | ok key ↦ ok (record { user = user; api_key = key; raw_key = raw })
    ],
    out.1,
  )

  abbrev IsStoredAs :
      Text → Time → IdentityTables → Result RepoError KeyIssuanceResult × IdentityTables → Type 0
  IsStoredAs key_uuid now s out = elim out.0 [
    | err e ↦ Unit {0}
    | ok result ↦
        (key : ApiKey) × (store_key cr drv key_uuid now result.user.id result.raw_key s
          ≡ (ok key, out.1))
  ]

  issued_as-IsStoredAs :
      (key_uuid : Text) (now : Time) (user : User) (raw : Text) (s : IdentityTables)
      → IsStoredAs key_uuid now s (issued_as user raw (store_key cr drv key_uuid now user.id raw s))
  issued_as-IsStoredAs key_uuid now user raw s =
      go (store_key cr drv key_uuid now user.id raw s) refl
    where
      go :
          (out : Result RepoError ApiKey × IdentityTables)
          → store_key cr drv key_uuid now user.id raw s ≡ out
          → IsStoredAs key_uuid now s (issued_as user raw out)
      go (err e, s') r = tt
      go (ok key, s') r = (key, r)

  -- What is stored where a key was issued.
  issue_stores :
      (user_uuid key_uuid : Text) (random : Option Text) (now : Time) (handle : Text)
      (t t' : IdentityTables) (result : KeyIssuanceResult)
      → issue_api_key_for_handle cr drv user_uuid key_uuid random now handle t ≡ (ok result, t')
      → (s : IdentityTables) × (key : ApiKey) × (store_key cr drv key_uuid now result.user.id
            result.raw_key s
          ≡ (ok key, t'))
  unfolding issue_api_key_for_handle
  issue_stores user_uuid key_uuid random now handle t t' result e =
      let out : Result RepoError User × IdentityTables =
        find_or_create cr drv user_uuid now handle t in
      elim (Result-cases (out.0)) [
        | inr (x, f) ↦
            let r : issue_api_key_for_handle cr drv user_uuid key_uuid random now handle t
                ≡ (err x, out.1) =
              rw (f, issue_api_key_for_handle) refl in
            cc
        | inl (user, f) ↦ elim (Result-cases (generate_raw_api_key random)) [
          | inr (x, g) ↦
              let r : issue_api_key_for_handle cr drv user_uuid key_uuid random now handle t
                  ≡ (err x, out.1) =
                rw (f, issue_api_key_for_handle) (rw (g) refl) in
              cc
          | inl (raw, g) ↦
              let r : issue_api_key_for_handle cr drv user_uuid key_uuid random now handle t
                  ≡ issued_as user raw (store_key cr drv key_uuid now user.id raw out.1) =
                rw (f, issue_api_key_for_handle) (rw (g) refl) in
              let (key, stored) =
                subst (IsStoredAs key_uuid now out.1) (sym r ∙ e)
                  (issued_as-IsStoredAs key_uuid now user raw out.1) in
              (out.1, key, stored)
        ]
      ]

  -- A key that was issued resolves to its user.
  pub resolve_actor-issue_api_key_for_handle :
      (user_uuid key_uuid : Text) (random : Option Text) (now now' : Time) (handle header : Text)
      (t t' : IdentityTables) (result : KeyIssuanceResult) (user : User)
      → issue_api_key_for_handle cr drv user_uuid key_uuid random now handle t ≡ (ok result, t')
      → drv'.reads_keys ≡ true
      → get_user_by_id drv' result.user.id t' ≡ ok user
      → leb (now + api_key_ttl) now' ≡ false
      → bearer_token cr drv' header ≡ some result.raw_key
      → resolve_actor cr drv' header now' t' ≡ gate user
  resolve_actor-issue_api_key_for_handle user_uuid key_uuid random now now' handle header t t'
        result user e reads owner alive bearer =
      let (s, key, stored) = issue_stores user_uuid key_uuid random now handle t t' result e in
      let tables : (store_key cr drv key_uuid now result.user.id result.raw_key s).1 ≡ t' =
        ap (λ (o : Result RepoError ApiKey × IdentityTables). o.1) stored in
      let resolved =
        resolve_actor-store_key key_uuid now now' result.user.id result.raw_key header s key user
          (ap (λ (o : Result RepoError ApiKey × IdentityTables). o.0) stored) reads
          (subst (λ x. get_user_by_id drv' result.user.id x ≡ ok user) (sym tables) owner) alive
          bearer in
      subst (λ x. resolve_actor cr drv' header now' x ≡ gate user) tables resolved
