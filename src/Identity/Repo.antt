-- ===== src/Identity/Repo.antt =====
-- The users and api_keys tables (internal/identity/repo.go, with the statements of
-- db/queries/users.sql and api_keys.sql). `IdentityDriver` says which calls of the database
-- succeed; new ids and the time are arguments. Rows of one instant are listed in table order.
pub mod Revoking
pub mod Agents
pub mod Lookups
pub mod Found
use my_token.Base.{
  ℕ, suc, ◌+◌, Text, codes, ◌==◌, lt_text, ltb, leb, Bool, true, false, not, ◌&&◌, ◌||◌, List, [],
  ◌∷◌, ◌++◌, map, filter, any, Option, none, some, if◌then◌else◌, Result, ok, err,
}
use my_token.Usage.Event.{Time}
use my_token.Usage.Summary.{sort_stable}

pub record User : Type 0 where
  pub id : Text
  pub handle : Text
  pub role : Text
  pub active : Bool
  -- Empty where the column is NULL.
  pub sso_subject : Text
  pub created_at : Time
  pub updated_at : Time

pub record UserRow : Type 0 where
  pub id : Text
  pub handle : Text
  pub role : Text
  pub active : Bool
  pub sso_subject : Option Text
  pub created_at : Time
  pub updated_at : Time

pub record ApiKey : Type 0 where
  pub id : Text
  pub user_id : Text
  pub key_hash : Text
  pub key_prefix : Text
  pub created_at : Time
  pub expires_at : Time
  pub revoked_at : Option Time
  pub handle : Option Text

pub record ApiKeyRow : Type 0 where
  pub id : Text
  pub user_id : Text
  pub key_hash : Text
  pub key_prefix : Text
  pub created_at : Time
  pub expires_at : Time
  pub revoked_at : Option Time

-- `ErrNotFound` and any other error
pub data RepoError : Type 0 where
  not_found broken : RepoError

pub record IdentityTables : Type 0 where
  pub users : List UserRow
  pub api_keys : List ApiKeyRow

pub record IdentityDriver : Type 0 where
  pub reads_users : Bool
  pub writes_users : Bool
  pub reads_keys : Bool
  pub writes_keys : Bool
  -- The revocation of the key of this id.
  pub revokes : Text → Bool

unfoldable pub user_from_row : UserRow → User
user_from_row row = record {
  id = row.id;
  handle = row.handle;
  role = row.role;
  active = row.active;
  sso_subject = elim row.sso_subject [ none ↦ [] | some s ↦ s ];
  created_at = row.created_at;
  updated_at = row.updated_at;
}

unfoldable pub api_key_from_row : ApiKeyRow → ApiKey
api_key_from_row row = record {
  id = row.id;
  user_id = row.user_id;
  key_hash = row.key_hash;
  key_prefix = row.key_prefix;
  created_at = row.created_at;
  expires_at = row.expires_at;
  revoked_at = row.revoked_at;
  handle = none;
}

-- The first row that a statement with `:one` gives.
unfoldable pub first_of : {A : Type 0} → (A → Bool) → List A → Option A
first_of test [] = none
first_of test (row ∷ rows) = if test row then some row else first_of test rows

unfoldable pub one : {A B : Type 0} → (A → B) → Bool → Option A → Result RepoError B
one f reads found =
    if reads then elim found [ none ↦ err not_found | some row ↦ ok (f row) ] else err broken

-- `COLLATE NOCASE` folds the ASCII letters.
unfoldable pub fold_case : Text → Text
fold_case s = map (λ c. if leb 65 c && leb c 90 then c + 32 else c) s

abbrev pub is_subject : Text → UserRow → Bool
is_subject sub row = elim row.sso_subject [ none ↦ false | some s ↦ s == sub ]

abbrev pub is_live : ApiKeyRow → Bool
is_live row = elim row.revoked_at [ none ↦ true | some _ ↦ false ]

abbrev pub newer : ApiKeyRow → ApiKeyRow → Bool
newer a b = ltb b.created_at a.created_at

-- Ids, handles and subjects are unique.
unfoldable pub clashes_with : UserRow → UserRow → Bool
unfolding fold_case
clashes_with new row =
    row.id == new.id
    || (fold_case row.handle == fold_case new.handle
        || elim new.sso_subject [ none ↦ false | some sub ↦ is_subject sub row ])

module _ (drv : IdentityDriver) where
  unfoldable pub get_user_by_id : Text → IdentityTables → Result RepoError User
  unfolding one first_of user_from_row
  get_user_by_id id t = one user_from_row drv.reads_users (first_of (λ row. row.id == id) t.users)

  unfoldable pub get_user_by_handle : Text → IdentityTables → Result RepoError User
  unfolding one first_of user_from_row fold_case
  get_user_by_handle handle t =
      one user_from_row drv.reads_users
        (first_of (λ row. fold_case row.handle == fold_case handle) t.users)

  unfoldable pub get_user_by_sso_subject : Text → IdentityTables → Result RepoError User
  unfolding one first_of user_from_row
  get_user_by_sso_subject sub t =
      one user_from_row drv.reads_users (first_of (is_subject sub) t.users)

  unfoldable pub get_api_key_by_hash : Text → IdentityTables → Result RepoError ApiKey
  unfolding one first_of api_key_from_row
  get_api_key_by_hash hash t =
      one api_key_from_row drv.reads_keys (first_of (λ row. row.key_hash == hash) t.api_keys)

  -- The id and both instants are made by the caller.
  unfoldable pub create_user :
      Text
      → Time
      → Text
      → Text
      → Option Text
      → IdentityTables
      → Result RepoError User × IdentityTables
  create_user uuid now handle role sso_subject t =
      let row : UserRow = record {
        id = uuid;
        handle = handle;
        role = role;
        active = true;
        sso_subject = sso_subject;
        created_at = now;
        updated_at = now;
      } in
      if drv.writes_users && not (any (clashes_with row) t.users)
      then (ok (user_from_row row), record t { users = t.users ++ row ∷ [] })
      else (err broken, t)

  -- The id and the hash are unique.
  unfoldable pub create_api_key :
      Text
      → Time
      → Text
      → Text
      → Text
      → Time
      → IdentityTables
      → Result RepoError ApiKey × IdentityTables
  create_api_key uuid now user_id key_hash key_prefix expires_at t =
      let row : ApiKeyRow = record {
        id = uuid;
        user_id = user_id;
        key_hash = key_hash;
        key_prefix = key_prefix;
        created_at = now;
        expires_at = expires_at;
        revoked_at = none;
      } in
      if drv.writes_keys && not (any (λ k. k.id == uuid || k.key_hash == key_hash) t.api_keys)
      then (ok (api_key_from_row row), record t { api_keys = t.api_keys ++ row ∷ [] })
      else (err broken, t)

  unfoldable pub list_active_users : IdentityTables → Result RepoError (List User)
  list_active_users t =
      if drv.reads_users
      then ok (
          map user_from_row (
            sort_stable (λ a b. lt_text (fold_case a.handle) (fold_case b.handle))
              (filter (λ row. row.active) t.users)))
      else err broken

  unfoldable pub list_api_keys_by_owner : Text → IdentityTables → Result RepoError (List ApiKey)
  list_api_keys_by_owner user_id t =
      if drv.reads_keys
      then ok (
          map api_key_from_row
            (sort_stable newer (filter (λ row. row.user_id == user_id && is_live row) t.api_keys)))
      else err broken

-- `UPDATE api_keys SET revoked_at = ? WHERE …`
unfoldable pub revoke_where : (ApiKeyRow → Bool) → Time → List ApiKeyRow → List ApiKeyRow
revoke_where test now [] = []
revoke_where test now (row ∷ rows) =
    (if test row then record row { revoked_at = some now } else row) ∷ revoke_where test now rows

abbrev pub is_own_live : Text → Text → ApiKeyRow → Bool
is_own_live id user_id row = row.id == id && (row.user_id == user_id && is_live row)

abbrev pub is_live_id : Text → ApiKeyRow → Bool
is_live_id id row = row.id == id && is_live row

module _ (drv : IdentityDriver) where
  -- The statement with `RETURNING *`, by the test of its WHERE clause.
  unfoldable pub revoke_one :
      (ApiKeyRow → Bool) → Text → Time → IdentityTables → Result RepoError ApiKey × IdentityTables
  unfolding revoke_where first_of api_key_from_row
  revoke_one test id now t =
      if drv.revokes id
      then elim (first_of test t.api_keys) [
        | none ↦ (err not_found, t)
        | some row ↦ (
          ok (api_key_from_row (record row { revoked_at = some now })),
          record t { api_keys = revoke_where test now t.api_keys },
        )
      ]
      else (err broken, t)

  unfoldable pub revoke_api_key :
      Text → Text → Time → IdentityTables → Result RepoError ApiKey × IdentityTables
  unfolding revoke_one
  revoke_api_key id user_id now t = revoke_one (is_own_live id user_id) id now t

  unfoldable pub revoke_api_key_by_id :
      Text → Time → IdentityTables → Result RepoError ApiKey × IdentityTables
  unfolding revoke_one
  revoke_api_key_by_id id now t = revoke_one (is_live_id id) id now t

  -- The loop of `DisableOtherAPIKeys`.
  unfoldable pub disable_each :
      List ApiKey → Text → Text → Time → ℕ → IdentityTables → Result RepoError ℕ × IdentityTables
  unfolding revoke_api_key
  disable_each [] user_id keep_id now count t = (ok count, t)
  disable_each (key ∷ live) user_id keep_id now count t = elim (key.id == keep_id) [
    | true ↦ disable_each live user_id keep_id now count t
    | false ↦
        let (revoked, t') = revoke_api_key key.id user_id now t in
        elim revoked [
          | err e ↦ (err e, t')
          | ok _ ↦ disable_each live user_id keep_id now (suc count) t'
        ]
  ]

  unfoldable pub disable_other_api_keys :
      Text → Text → Time → IdentityTables → Result RepoError ℕ × IdentityTables
  unfolding disable_each list_api_keys_by_owner
  disable_other_api_keys user_id keep_id now t = elim (list_api_keys_by_owner drv user_id t) [
    | err e ↦ (err e, t)
    | ok live ↦ disable_each live user_id keep_id now 0 t
  ]
