-- ===== src/Identity/Repo/Lookups.antt =====
-- Lemmas on the lookups and the revocations of internal/identity/repo.go.
use mathlib.Core.Path.{subst}
use my_token.Base.{
  Text, ◌==◌, ◌≡◌, refl, sym, ◌∙◌, ap, Bool, Bool-cases, Option-cases, true, false, not, inl, inr,
  Option, none, some, List, [], ◌∷◌, filter, any, All, Result, ok, err, ◌&&◌, arith,
}
use my_token.Usage.Event.{Time}
use my_token.Identity.Repo.{
  ApiKey, ApiKeyRow, RepoError, not_found, broken, IdentityTables, IdentityDriver, api_key_from_row,
  first_of, one, is_live_id, is_own_live, revoke_where, revoke_one, revoke_api_key,
  revoke_api_key_by_id, get_api_key_by_hash,
}

pub All-first_of :
    {A : Type 0} (P : A → Type 0) (test : A → Bool) (rows : List A) (row : A)
    → All P rows
    → first_of test rows ≡ some row
    → P row
unfolding first_of
All-first_of P test [] row h e = ground (arith, e)
All-first_of P test (r ∷ rows) row h e = elim (Bool-cases (test r)) [
  | inl hit ↦
      let found : first_of test (r ∷ rows) ≡ some r = rw (hit, first_of) refl in
      let same : r ≡ row = ap (λ o. elim o [ none ↦ row | some x ↦ x ]) (sym found ∙ e) in
      subst P same h.0
  | inr miss ↦
      let skip : first_of test (r ∷ rows) ≡ first_of test rows = rw (miss, first_of) refl in
      All-first_of P test rows row h.1 (sym skip ∙ e)
]

pub first_of_misses :
    {A : Type 0} (test : A → Bool) (rows : List A)
    → first_of test rows ≡ none
    → any test rows ≡ false
unfolding first_of
first_of_misses test [] e = refl
first_of_misses test (r ∷ rows) e = ground (arith, first_of_misses test rows)

pub first_of_hits :
    {A : Type 0} (test : A → Bool) (rows : List A) (row : A)
    → first_of test rows ≡ some row
    → any test rows ≡ true
unfolding first_of
first_of_hits test [] row e = ground (arith, e)
first_of_hits test (r ∷ rows) row e = ground (arith, first_of_hits test rows row)

-- The key as a revocation leaves it.
abbrev pub revoked_at : Time → ApiKeyRow → ApiKeyRow
revoked_at now row = record row { revoked_at = some now }

module _ (test other : ApiKeyRow → Bool) where
  -- What a revocation comes to.
  pub data IsRevocation (drv : IdentityDriver) (id : Text) (t : IdentityTables)
      (out : Result RepoError ApiKey × IdentityTables) : Type 0 where
    failed : drv.revokes id ≡ false → out ≡ (err broken, t) → IsRevocation drv id t out
    missing : any test t.api_keys ≡ false → out ≡ (err not_found, t) → IsRevocation drv id t out
    revoked :
        (key : ApiKey)
        → any test t.api_keys ≡ true
        → out.0 ≡ ok key
        → out.1.users ≡ t.users
        → All (λ row. test row ≡ false) out.1.api_keys
        → filter other out.1.api_keys ≡ filter other t.api_keys
        → IsRevocation drv id t out

-- A revocation by some test, which no revoked key passes, and the keys that stay as they are.
module _ (test other : ApiKeyRow → Bool)
    (spent : (now : Time) (row : ApiKeyRow) → test (revoked_at now row) ≡ false)
    (apart : (now : Time) (row : ApiKeyRow)
      → test row ≡ true
      → (other row ≡ false) × (other (revoked_at now row) ≡ false)) where
  revoke_where_spends :
      (now : Time) (rows : List ApiKeyRow)
      → All (λ row. test row ≡ false) (revoke_where test now rows)
  unfolding revoke_where
  revoke_where_spends now [] = tt
  revoke_where_spends now (row ∷ rows) = elim (Bool-cases (test row)) [
    | inl hit ↦ (rw hit (spent now row), revoke_where_spends now rows)
    | inr miss ↦ (rw miss miss, revoke_where_spends now rows)
  ]

  filter-revoke_where :
      (now : Time) (rows : List ApiKeyRow)
      → filter other (revoke_where test now rows) ≡ filter other rows
  unfolding revoke_where
  filter-revoke_where now [] = refl
  filter-revoke_where now (row ∷ rows) = elim (Bool-cases (test row)) [
    | inl hit ↦
        let (before, after) = apart now row hit in
        rw hit (rw (before, after) (filter-revoke_where now rows))
    | inr miss ↦ rw miss (ground (arith, filter-revoke_where now rows))
  ]

  pub revoke_one-IsRevocation :
      (drv : IdentityDriver) (id : Text) (now : Time) (t : IdentityTables)
      → IsRevocation test other drv id t (revoke_one drv test id now t)
  unfolding revoke_one
  revoke_one-IsRevocation drv id now t = elim (Bool-cases (drv.revokes id)) [
    | inr e ↦ failed e (rw (e, revoke_one) refl)
    | inl e ↦ elim (Option-cases (first_of test t.api_keys)) [
      | inl f ↦ missing (first_of_misses test t.api_keys f) (rw (e, revoke_one) (rw f refl))
      | inr (row, f) ↦
          let r : revoke_one drv test id now t ≡ (
            ok (api_key_from_row (record row { revoked_at = some now })),
            record t { api_keys = revoke_where test now t.api_keys },
          ) =
            rw (e, revoke_one) (rw f refl) in
          subst (IsRevocation test other drv id t) (sym r) (
            revoked _ (first_of_hits test t.api_keys row f) refl refl
              (revoke_where_spends now t.api_keys) (filter-revoke_where now t.api_keys))
    ]
  ]

-- By id, and by id and owner.
abbrev pub is_other : Text → ApiKeyRow → Bool
is_other id row = not (row.id == id)

abbrev pub is_foreign : Text → Text → ApiKeyRow → Bool
is_foreign id user_id row = not (row.id == id && row.user_id == user_id)

is_live_id_spent :
    (id : Text) (now : Time) (row : ApiKeyRow) → is_live_id id (revoked_at now row) ≡ false
is_live_id_spent id now row = ground arith

is_live_id_apart :
    (id : Text) (now : Time) (row : ApiKeyRow)
    → is_live_id id row ≡ true
    → (is_other id row ≡ false) × (is_other id (revoked_at now row) ≡ false)
is_live_id_apart id now row h = ground arith

is_own_live_spent :
    (id user_id : Text) (now : Time) (row : ApiKeyRow)
    → is_own_live id user_id (revoked_at now row) ≡ false
is_own_live_spent id user_id now row = ground arith

is_own_live_apart :
    (id user_id : Text) (now : Time) (row : ApiKeyRow)
    → is_own_live id user_id row ≡ true
    → (is_foreign id user_id row ≡ false) × (is_foreign id user_id (revoked_at now row) ≡ false)
is_own_live_apart id user_id now row h = ground arith

pub revoke_api_key_by_id-IsRevocation :
    (drv : IdentityDriver) (id : Text) (now : Time) (t : IdentityTables)
    → IsRevocation (is_live_id id) (is_other id) drv id t (revoke_api_key_by_id drv id now t)
unfolding revoke_api_key_by_id
revoke_api_key_by_id-IsRevocation drv id now t =
    revoke_one-IsRevocation (is_live_id id) (is_other id) (is_live_id_spent id)
      (is_live_id_apart id) drv id now t

pub revoke_api_key-IsRevocation :
    (drv : IdentityDriver) (id user_id : Text) (now : Time) (t : IdentityTables)
    → IsRevocation
        (is_own_live id user_id)
        (is_foreign id user_id)
        drv
        id
        t
        (revoke_api_key drv id user_id now t)
unfolding revoke_api_key
revoke_api_key-IsRevocation drv id user_id now t =
    revoke_one-IsRevocation (is_own_live id user_id) (is_foreign id user_id)
      (is_own_live_spent id user_id) (is_own_live_apart id user_id) drv id now t

pub one_ok :
    {A B : Type 0} (f : A → B) (reads : Bool) (o : Option A) (b : B)
    → one f reads o ≡ ok b
    → (a : A) × (o ≡ some a) × (f a ≡ b)
unfolding one
one_ok f false o b h = ground (arith, h)
one_ok f true none b h = ground (arith, h)
one_ok f true (some a) b h = (a, refl, ground (arith, h))

-- A key that a lookup finds by its hash comes from a row of the table.
pub get_api_key_by_hash_lem :
    (drv : IdentityDriver) (hash : Text) (t : IdentityTables) (key : ApiKey)
    → get_api_key_by_hash drv hash t ≡ ok key
    → (row : ApiKeyRow) × (first_of (λ r. r.key_hash == hash) t.api_keys ≡ some row)
      × (api_key_from_row row ≡ key)
unfolding get_api_key_by_hash
get_api_key_by_hash_lem drv hash t key h =
    one_ok api_key_from_row drv.reads_keys (first_of (λ r. r.key_hash == hash) t.api_keys) key h
