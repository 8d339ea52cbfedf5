-- ===== src/Identity/Repo/Found.antt =====
-- The rows behind the users and keys that are found (internal/identity/repo.go).
use mathlib.Core.List.{Memᴰ}
use my_token.Base.{
  Text, ◌==◌, ==_iff, ◌≡◌, refl, sym, ◌∙◌, ap, Bool, Bool-cases, Option-cases, true, false, inl,
  inr, List, [], ◌∷◌, any, none, some, ok, err, arith,
}
use my_token.Identity.Repo.{
  User, ApiKey, UserRow, ApiKeyRow, not_found, broken, IdentityTables, IdentityDriver,
  user_from_row, api_key_from_row, first_of, one, is_subject, get_user_by_id,
  get_user_by_sso_subject, get_api_key_by_hash,
}
use my_token.Identity.Repo.Lookups.{one_ok, first_of_misses, get_api_key_by_hash_lem}

first_of-Memᴰ :
    {A : Type 0} (test : A → Bool) (rows : List A) (row : A)
    → first_of test rows ≡ some row
    → Memᴰ row rows × (test row ≡ true)
unfolding first_of
first_of-Memᴰ test [] row e = ground (arith, e)
first_of-Memᴰ test (r ∷ rows) row e = elim (Bool-cases (test r)) [
  | inl hit ↦
      let found : first_of test (r ∷ rows) ≡ some r = rw (hit, first_of) refl in
      let same : r ≡ row = ap (λ o. elim o [ none ↦ row | some x ↦ x ]) (sym found ∙ e) in
      (Memᴰ.head (sym same), ap test (sym same) ∙ hit)
  | inr miss ↦
      let skip : first_of test (r ∷ rows) ≡ first_of test rows = rw (miss, first_of) refl in
      let (later, hit) = first_of-Memᴰ test rows row (sym skip ∙ e) in (Memᴰ.tail later, hit)
]

-- The user is what a row of the table says.
abbrev pub IsOf : User → UserRow → Type 0
IsOf user u =
    (user.id ≡ u.id) × (user.handle ≡ u.handle) × (user.role ≡ u.role) × (user.active ≡ u.active)

module _ (drv : IdentityDriver) (t : IdentityTables) where
  pub get_user_by_id-IsOf :
      (id : Text) (user : User)
      → get_user_by_id drv id t ≡ ok user
      → (u : UserRow) × Memᴰ u t.users × (u.id ≡ id) × IsOf user u
  unfolding get_user_by_id user_from_row
  get_user_by_id-IsOf id user e =
      let (u, f, made) =
        one_ok user_from_row drv.reads_users (first_of (λ row. row.id == id) t.users) user e in
      let (there, hit) = first_of-Memᴰ (λ row. row.id == id) t.users u f in
      (
        u,
        there,
        (==_iff u.id id).0 hit,
        (
          ap (λ (x : User). x.id) (sym made),
          ap (λ (x : User). x.handle) (sym made),
          ap (λ (x : User). x.role) (sym made),
          ap (λ (x : User). x.active) (sym made),
        ),
      )

  pub get_user_by_sso_subject-IsOf :
      (sub : Text) (user : User)
      → get_user_by_sso_subject drv sub t ≡ ok user
      → (u : UserRow) × Memᴰ u t.users × (u.sso_subject ≡ some sub) × IsOf user u
  unfolding get_user_by_sso_subject user_from_row
  get_user_by_sso_subject-IsOf sub user e =
      let (u, f, made) =
        one_ok user_from_row drv.reads_users (first_of (is_subject sub) t.users) user e in
      let (there, hit) = first_of-Memᴰ (is_subject sub) t.users u f in
      (
        u,
        there,
        subject u hit,
        (
          ap (λ (x : User). x.id) (sym made),
          ap (λ (x : User). x.handle) (sym made),
          ap (λ (x : User). x.role) (sym made),
          ap (λ (x : User). x.active) (sym made),
        ),
      )
    where
      subject : (u : UserRow) → is_subject sub u ≡ true → u.sso_subject ≡ some sub
      subject u hit = elim (Option-cases u.sso_subject) [
        | inl e ↦ let r : is_subject sub u ≡ false = rw e refl in ground (arith, r, hit)
        | inr (s, e) ↦
            let r : is_subject sub u ≡ (s == sub) = rw e refl in
            e ∙ ap some ((==_iff s sub).0 (sym r ∙ hit))
      ]

  pub get_api_key_by_hash-Memᴰ :
      (hash : Text) (key : ApiKey)
      → get_api_key_by_hash drv hash t ≡ ok key
      → (row : ApiKeyRow) × Memᴰ row t.api_keys
        × (row.key_hash ≡ hash)
        × (api_key_from_row row ≡ key)
  get_api_key_by_hash-Memᴰ hash key e =
      let (row, f, made) = get_api_key_by_hash_lem drv hash t key e in
      let (there, hit) = first_of-Memᴰ (λ r. r.key_hash == hash) t.api_keys row f in
      (row, there, (==_iff row.key_hash hash).0 hit, made)

  -- No row has the hash of a key that is not found.
  pub get_api_key_by_hash_missing :
      (hash : Text)
      → get_api_key_by_hash drv hash t ≡ err not_found
      → any (λ row. row.key_hash == hash) t.api_keys ≡ false
  unfolding get_api_key_by_hash one
  get_api_key_by_hash_missing hash e =
      elim (Option-cases (first_of (λ row. row.key_hash == hash) t.api_keys)) [
        | inl f ↦ first_of_misses (λ row. row.key_hash == hash) t.api_keys f
        | inr (row, f) ↦ elim (Bool-cases drv.reads_keys) [
          | inl reads ↦
              let r : get_api_key_by_hash drv hash t ≡ ok (api_key_from_row row) =
                rw (reads, f) refl in
              ground (arith, r, e)
          | inr blind ↦
              let r : get_api_key_by_hash drv hash t ≡ err broken = rw (blind) refl in
              ground (arith, r, e)
        ]
      ]
