-- ===== src/Identity/Repo/Revoking.antt =====
-- Which keys are left after a revocation (internal/identity/repo.go, RevokeAPIKey and
-- DisableOtherAPIKeys).
use mathlib.Core.Path.{subst}
use my_token.Base.{
  ℕ, suc, sym, ap, ◌∙◌, Text, ◌==◌, ==_iff, ==_refl, ◌≡◌, refl, Bool, Bool-cases, Option-cases,
  Result-cases, true, false, not, ◌&&◌, inl, inr, List, [], ◌∷◌, map, filter, any, member, ok, err,
  arith,
}
use my_token.Usage.Event.{Time}
use my_token.Usage.Summary.{place, sort_stable}
use my_token.Identity.Repo.{
  ApiKey, ApiKeyRow, not_found, broken, IdentityTables, IdentityDriver, api_key_from_row, first_of,
  is_live, is_own_live, newer, revoke_where, revoke_one, revoke_api_key, list_api_keys_by_owner,
  disable_each, disable_other_api_keys,
}

abbrev ids : List ApiKeyRow → List Text
ids rows = map (λ row. row.id) rows

-- A live key of the user other than the one to keep, and not among the listed ones.
abbrev is_stray : Text → Text → List Text → ApiKeyRow → Bool
is_stray user_id keep listed row =
    (row.user_id == user_id && is_live row) && (not (row.id == keep) && not (member row.id listed))

-- What is done to one key.
stray_after :
    (user_id keep id : Text) (listed : List Text) (now : Time) (rows : List ApiKeyRow)
    → any (is_stray user_id keep (id ∷ listed)) rows ≡ false
    → any (is_stray user_id keep listed) (revoke_where (is_own_live id user_id) now rows) ≡ false
unfolding revoke_where member
stray_after user_id keep id listed now [] h = refl
stray_after user_id keep id listed now (row ∷ rows) h =
    ground (arith, stray_after user_id keep id listed now rows, ==_iff id row.id, ==_iff row.id id)

stray_kept :
    (user_id keep : Text) (listed : List Text) (rows : List ApiKeyRow)
    → any (is_stray user_id keep (keep ∷ listed)) rows ≡ false
    → any (is_stray user_id keep listed) rows ≡ false
unfolding member
stray_kept user_id keep listed [] h = refl
stray_kept user_id keep listed (row ∷ rows) h =
    ground (arith, stray_kept user_id keep listed rows, ==_iff keep row.id, ==_iff row.id keep)

member-place :
    (less : ApiKeyRow → ApiKeyRow → Bool) (j : Text) (x : ApiKeyRow) (ys : List ApiKeyRow)
    → member j (ids (place less x ys)) ≡ member j (ids (x ∷ ys))
unfolding place member
member-place less j x [] = refl
member-place less j x (y ∷ ys) = ground (arith, member-place less j x ys)

member-sort_stable :
    (less : ApiKeyRow → ApiKeyRow → Bool) (j : Text) (rows : List ApiKeyRow)
    → member j (ids (sort_stable less rows)) ≡ member j (ids rows)
unfolding sort_stable member
member-sort_stable less j [] = refl
member-sort_stable less j (x ∷ rows) =
    ground (arith, member-place less j x (sort_stable less rows), member-sort_stable less j rows)

-- All live keys of the user are listed.
listed_all :
    (user_id keep : Text) (listed : List Text) (rows : List ApiKeyRow)
    → ((j : Text)
        → member j (ids (filter (λ row. row.user_id == user_id && is_live row) rows)) ≡ true
        → member j listed ≡ true)
    → any (is_stray user_id keep listed) rows ≡ false
unfolding member
listed_all user_id keep listed [] h = refl
listed_all user_id keep listed (row ∷ rows) h = ground (
  arith,
  listed_all user_id keep listed rows (λ j k. h j (ground (arith, k))),
  h row.id,
  ==_refl row.id,
)

abbrev key_ids : List ApiKey → List Text
key_ids keys = map (λ key. key.id) keys

key_ids_from_rows : (rows : List ApiKeyRow) → key_ids (map api_key_from_row rows) ≡ ids rows
unfolding api_key_from_row
key_ids_from_rows [] = refl
key_ids_from_rows (row ∷ rows) = ap (λ l. row.id ∷ l) (key_ids_from_rows rows)

-- No live key of the user is left but the one to keep.
abbrev pub KeepsOnly : Text → Text → IdentityTables → Type 0
KeepsOnly user_id keep t =
    any (λ row. (row.user_id == user_id && is_live row) && not (row.id == keep)) t.api_keys ≡ false

no_stray :
    (user_id keep : Text) (rows : List ApiKeyRow)
    → any (is_stray user_id keep []) rows ≡ false
    → any (λ row. (row.user_id == user_id && is_live row) && not (row.id == keep)) rows ≡ false
unfolding member
no_stray user_id keep [] h = refl
no_stray user_id keep (row ∷ rows) h = ground (arith, no_stray user_id keep rows)

module _ (drv : IdentityDriver) (user_id keep : Text) (now : Time) where
  -- A revocation that succeeds changes the table as its statement says.
  pub revoke_api_key-ok :
      (id : Text) (t : IdentityTables) (key : ApiKey)
      → (revoke_api_key drv id user_id now t).0 ≡ ok key
      → (revoke_api_key drv id user_id now t).1.api_keys
        ≡ revoke_where (is_own_live id user_id) now t.api_keys
  unfolding revoke_api_key revoke_one
  revoke_api_key-ok id t key h = elim (Bool-cases (drv.revokes id)) [
    | inr shut ↦
        let r : (revoke_api_key drv id user_id now t).0 ≡ err broken =
          rw (shut, revoke_api_key) refl in
        cc
    | inl works ↦ elim (Option-cases (first_of (is_own_live id user_id) t.api_keys)) [
      | inl lost ↦
          let r : (revoke_api_key drv id user_id now t).0 ≡ err not_found =
            rw (works, revoke_api_key) (rw lost refl) in
          cc
      | inr (row, found) ↦ rw (works, revoke_api_key) (rw found refl)
    ]
  ]

  disable_each-KeepsOnly :
      (live : List ApiKey) (count n : ℕ) (t : IdentityTables)
      → any (is_stray user_id keep (key_ids live)) t.api_keys ≡ false
      → (disable_each drv live user_id keep now count t).0 ≡ ok n
      → KeepsOnly user_id keep ((disable_each drv live user_id keep now count t).1)
  unfolding disable_each
  disable_each-KeepsOnly [] count n t listed done = no_stray user_id keep t.api_keys listed
  disable_each-KeepsOnly (key ∷ live) count n t listed done = elim (Bool-cases (key.id == keep)) [
    | inl kept ↦
        let r : disable_each drv (key ∷ live) user_id keep now count t
            ≡ disable_each drv live user_id keep now count t =
          rw (kept, disable_each) refl in
        let listed' = stray_kept user_id keep (key_ids live) t.api_keys (
          subst (λ id. any (is_stray user_id keep (id ∷ key_ids live)) t.api_keys ≡ false)
            ((==_iff key.id keep).0 kept) listed) in
        subst (λ o. KeepsOnly user_id keep (o.1)) (sym r)
          (disable_each-KeepsOnly live count n t listed' (ap (λ o. o.0) (sym r) ∙ done))
    | inr other ↦
        let t' = (revoke_api_key drv key.id user_id now t).1 in
        elim (Result-cases ((revoke_api_key drv key.id user_id now t).0)) [
          | inr (e, failed) ↦
              let r : (disable_each drv (key ∷ live) user_id keep now count t).0 ≡ err e =
                rw (other, disable_each) (rw failed refl) in
              cc
          | inl (revoked, worked) ↦
              let r : disable_each drv (key ∷ live) user_id keep now count t
                  ≡ disable_each drv live user_id keep now (suc count) t' =
                rw (other, disable_each) (rw worked refl) in
              let listed' : any (is_stray user_id keep (key_ids live)) t'.api_keys ≡ false =
                ap (λ rows. any (is_stray user_id keep (key_ids live)) rows)
                  (revoke_api_key-ok key.id t revoked worked)
                ∙ stray_after user_id keep key.id (key_ids live) now t.api_keys listed in
              subst (λ o. KeepsOnly user_id keep (o.1)) (sym r)
                (disable_each-KeepsOnly live (suc count) n t' listed'
                  (ap (λ o. o.0) (sym r) ∙ done))
        ]
  ]

  -- After `DisableOtherAPIKeys` has succeeded, no live key of the user is left but the one it keeps.
  pub disable_other_api_keys-KeepsOnly :
      (n : ℕ) (t : IdentityTables)
      → (disable_other_api_keys drv user_id keep now t).0 ≡ ok n
      → KeepsOnly user_id keep ((disable_other_api_keys drv user_id keep now t).1)
  unfolding disable_other_api_keys list_api_keys_by_owner
  disable_other_api_keys-KeepsOnly n t done = elim (Bool-cases drv.reads_keys) [
    | inr shut ↦
        let r : (disable_other_api_keys drv user_id keep now t).0 ≡ err broken =
          rw (shut, disable_other_api_keys) refl in
        cc
    | inl works ↦
        let own = filter (λ row. row.user_id == user_id && is_live row) t.api_keys in
        let rows = sort_stable newer own in
        let r : disable_other_api_keys drv user_id keep now t
            ≡ disable_each drv (map api_key_from_row rows) user_id keep now 0 t =
          rw (works, disable_other_api_keys) refl in
        let listed =
          listed_all user_id keep (key_ids (map api_key_from_row rows)) t.api_keys
            (λ j h. ap (member j) (key_ids_from_rows rows) ∙ member-sort_stable newer j own ∙ h) in
        subst (λ o. KeepsOnly user_id keep (o.1)) (sym r)
          (disable_each-KeepsOnly (map api_key_from_row rows) 0 n t listed
            (ap (λ o. o.0) (sym r) ∙ done))
  ]
