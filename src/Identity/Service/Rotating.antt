-- ===== src/Identity/Service/Rotating.antt =====
-- What a rotation leaves (internal/identity/service.go, Rotate, I13).
use mathlib.Core.Path.{subst}
use my_token.Base.{
  ℕ, ◌+◌, suc, sym, ap, ◌∙◌, Text, ◌==◌, ==_iff, ◌≡◌, refl, Bool, Bool-cases, Result-cases, true,
  false, not, ◌&&◌, ◌||◌, inl, inr, List, [], ◌∷◌, ◌++◌, any, Option, none, ok, err, arith,
}
use my_token.Usage.Event.{Time}
use my_token.Identity.Repo.{
  ApiKey, ApiKeyRow, broken, IdentityTables, IdentityDriver, is_live, is_own_live, api_key_from_row,
  revoke_where, revoke_api_key, get_user_by_handle, create_api_key, list_api_keys_by_owner,
  disable_each, disable_other_api_keys,
}
use my_token.Identity.Repo.Revoking.{KeepsOnly, revoke_api_key-ok, disable_other_api_keys-KeepsOnly}
use my_token.Identity.Service.{
  Credentials, RotateResult, generate_raw_api_key, store_key, rotate, first_bytes,
  api_key_prefix_length, api_key_ttl,
}

-- The key of this id is in the table and live.
abbrev pub HasLive : Text → IdentityTables → Type 0
HasLive keep t = any (λ row. row.id == keep && is_live row) t.api_keys ≡ true

revoke_where-HasLive :
    (id keep user_id : Text) (now : Time) (rows : List ApiKeyRow)
    → (id == keep) ≡ false
    → any (λ row. row.id == keep && is_live row) rows ≡ true
    → any (λ row. row.id == keep && is_live row) (revoke_where (is_own_live id user_id) now rows)
      ≡ true
unfolding revoke_where
revoke_where-HasLive id keep user_id now [] other h = h
revoke_where-HasLive id keep user_id now (row ∷ rows) other h = ground (
  arith,
  revoke_where-HasLive id keep user_id now rows other,
  ==_iff row.id keep,
  ==_iff row.id id,
  ==_iff id keep,
)

any-last :
    (test : ApiKeyRow → Bool) (rows : List ApiKeyRow) (row : ApiKeyRow)
    → test row ≡ true
    → any test (rows ++ row ∷ []) ≡ true
any-last test [] row h = ground (arith, h)
any-last test (r ∷ rows) row h = ground (arith, any-last test rows row h)

module _ (drv : IdentityDriver) where
  disable_each-HasLive :
      (live : List ApiKey) (user_id keep : Text) (now : Time) (count n : ℕ) (t : IdentityTables)
      → HasLive keep t
      → (disable_each drv live user_id keep now count t).0 ≡ ok n
      → HasLive keep ((disable_each drv live user_id keep now count t).1)
  unfolding disable_each
  disable_each-HasLive [] user_id keep now count n t h done = h
  disable_each-HasLive (key ∷ live) user_id keep now count n t h done =
      elim (Bool-cases (key.id == keep)) [
        | inl kept ↦
            let r : disable_each drv (key ∷ live) user_id keep now count t
                ≡ disable_each drv live user_id keep now count t =
              rw (kept, disable_each) refl in
            subst (λ o. HasLive keep (o.1)) (sym r)
              (disable_each-HasLive live user_id keep now count n t h
                (ap (λ o. o.0) (sym r) ∙ done))
        | inr other ↦
            let t' = (revoke_api_key drv key.id user_id now t).1 in
            elim (Result-cases ((revoke_api_key drv key.id user_id now t).0)) [
              | inr (e, failed) ↦
                  let r : (disable_each drv (key ∷ live) user_id keep now count t).0 ≡ err e =
                    rw (other, disable_each) (rw failed refl) in
                  cc
              | inl (revoked, worked) ↦
                  let r : disable_each drv (key ∷ live) user_id keep now count t
                      ≡ disable_each drv live user_id keep now (suc count) t' =
                    rw (other, disable_each) (rw worked refl) in
                  let h' : HasLive keep t' =
                    ap (λ rows. any (λ row. row.id == keep && is_live row) rows)
                      (revoke_api_key-ok drv user_id keep now key.id t revoked worked)
                    ∙ revoke_where-HasLive key.id keep user_id now t.api_keys other h in
                  subst (λ o. HasLive keep (o.1)) (sym r)
                    (disable_each-HasLive live user_id keep now (suc count) n t' h'
                      (ap (λ o. o.0) (sym r) ∙ done))
            ]
      ]

  disable_other_api_keys-HasLive :
      (user_id keep : Text) (now : Time) (n : ℕ) (t : IdentityTables)
      → HasLive keep t
      → (disable_other_api_keys drv user_id keep now t).0 ≡ ok n
      → HasLive keep ((disable_other_api_keys drv user_id keep now t).1)
  unfolding disable_other_api_keys
  disable_other_api_keys-HasLive user_id keep now n t h done =
      elim (Result-cases (list_api_keys_by_owner drv user_id t)) [
        | inr (e, failed) ↦
            let r : (disable_other_api_keys drv user_id keep now t).0 ≡ err e =
              rw (failed, disable_other_api_keys) refl in
            cc
        | inl (live, listed) ↦
            let r : disable_other_api_keys drv user_id keep now t
                ≡ disable_each drv live user_id keep now 0 t =
              rw (listed, disable_other_api_keys) refl in
            subst (λ o. HasLive keep (o.1)) (sym r)
              (disable_each-HasLive live user_id keep now 0 n t h (ap (λ o. o.0) (sym r) ∙ done))
      ]

  create_api_key-HasLive :
      (uuid : Text) (now : Time) (user_id hash prefix : Text) (expires : Time) (t : IdentityTables)
      (key : ApiKey)
      → (create_api_key drv uuid now user_id hash prefix expires t).0 ≡ ok key
      → HasLive key.id ((create_api_key drv uuid now user_id hash prefix expires t).1)
  unfolding create_api_key api_key_from_row
  create_api_key-HasLive uuid now user_id hash prefix expires t key done =
      elim (Bool-cases
        (drv.writes_keys && not (any (λ k. k.id == uuid || k.key_hash == hash) t.api_keys))) [
          | inr shut ↦
              let r : (create_api_key drv uuid now user_id hash prefix expires t).0 ≡ err broken =
                rw (shut, create_api_key) refl in
              cc
          | inl works ↦
              let row : ApiKeyRow = record {
                id = uuid;
                user_id = user_id;
                key_hash = hash;
                key_prefix = prefix;
                created_at = now;
                expires_at = expires;
                revoked_at = none;
              } in
              let r : (create_api_key drv uuid now user_id hash prefix expires t).0
                  ≡ ok (api_key_from_row row) =
                rw (works, create_api_key) refl in
              let same : api_key_from_row row ≡ key = cc in
              let id : uuid ≡ key.id = ap (λ k. k.id) same in
              rw (works, create_api_key)
                (any-last (λ k. k.id == key.id && is_live k) t.api_keys row
                  (rw ((==_iff uuid key.id).1 id) refl))
        ]

  -- A rotation that succeeds leaves the new key live, and no other live key of the user.
  pub rotate-KeepsOnly :
      (cr : Credentials) (key_uuid : Text) (random : Option Text) (now : Time) (handle : Text)
      (t : IdentityTables) (res : RotateResult)
      → (rotate cr drv key_uuid random now handle t).0 ≡ ok res
      → HasLive res.api_key.id ((rotate cr drv key_uuid random now handle t).1)
        × KeepsOnly res.user.id res.api_key.id ((rotate cr drv key_uuid random now handle t).1)
  unfolding rotate store_key
  rotate-KeepsOnly cr key_uuid random now handle t res done =
      elim (Result-cases (get_user_by_handle drv handle t)) [
        | inr (e, lost) ↦
            let r : (rotate cr drv key_uuid random now handle t).0 ≡ err e =
              rw (lost, rotate) refl in
            cc
        | inl (user, found) ↦ elim (Result-cases (generate_raw_api_key random)) [
          | inr (e, lost) ↦
              let r : (rotate cr drv key_uuid random now handle t).0 ≡ err e =
                rw (found, rotate) (rw lost refl) in
              cc
          | inl (raw, made) ↦
              let t' = (store_key cr drv key_uuid now user.id raw t).1 in
              elim (Result-cases ((store_key cr drv key_uuid now user.id raw t).0)) [
                | inr (e, lost) ↦
                    let r : (rotate cr drv key_uuid random now handle t).0 ≡ err e =
                      rw (found, rotate) (rw made (rw lost refl)) in
                    cc
                | inl (key, stored) ↦
                    let disabled = disable_other_api_keys drv user.id key.id now t' in
                    elim (Result-cases (disabled.0)) [
                      | inr (e, lost) ↦
                          let r : (rotate cr drv key_uuid random now handle t).0 ≡ err e =
                            rw (found, rotate) (rw made (rw stored (rw lost refl))) in
                          cc
                      | inl (n, worked) ↦
                          let new : RotateResult = record {
                            user = user;
                            api_key = key;
                            raw_key = raw;
                            revoked_count = n;
                          } in
                          let r : rotate cr drv key_uuid random now handle t
                              ≡ (ok new, disabled.1) =
                            rw (found, rotate) (rw made (rw stored (rw worked refl))) in
                          let same : new ≡ res = cc in
                          subst
                            (λ x.
                              HasLive x.api_key.id ((rotate cr drv key_uuid random now handle t).1)
                              × KeepsOnly x.user.id x.api_key.id
                                  ((rotate cr drv key_uuid random now handle t).1))
                            same
                            (subst (λ o. HasLive key.id (o.1) × KeepsOnly user.id key.id (o.1))
                              (sym r)
                              (
                                disable_other_api_keys-HasLive user.id key.id now n t'
                                    (create_api_key-HasLive key_uuid now user.id (cr.sha256_hex raw)
                                      (first_bytes api_key_prefix_length raw) (now + api_key_ttl) t
                                      key stored)
                                    worked,
                                disable_other_api_keys-KeepsOnly drv user.id key.id now n t' worked,
                              ))
                    ]
              ]
        ]
      ]
