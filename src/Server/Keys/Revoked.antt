-- ===== src/Server/Keys/Revoked.antt =====
-- A revoked key over all later writes (internal/identity/repo.go, service.go).
use mathlib.Core.Path.{subst}
use my_token.Base.{
  ℕ, suc, Text, codes, ◌==◌, ◌≡◌, refl, ◌∙◌, ap, Bool, Bool-cases, Option-cases, Result-cases, true,
  false, not, ◌&&◌, ◌||◌, inl, inr, Option, none, some, List, [], ◌∷◌, ◌++◌, any, Result, ok, err,
  arith,
}
use my_token.Usage.Event.{Time}
use my_token.Identity.Repo.{
  User, ApiKey, ApiKeyRow, RepoError, not_found, broken, IdentityTables, IdentityDriver, first_of,
  one, is_live, is_live_id, is_own_live, revoke_where, revoke_one, revoke_api_key,
  revoke_api_key_by_id, create_user, create_api_key, get_user_by_handle, list_api_keys_by_owner,
  disable_each, disable_other_api_keys, api_key_from_row, get_api_key_by_hash,
}
use my_token.Identity.Repo.Lookups.{get_api_key_by_hash_lem}
use my_token.Identity.Service.{
  Credentials, bearer_token, resolve_actor, try_api_key, is_dead, refused, find_or_create,
  store_key, issue_api_key_for_handle, rotate, generate_raw_api_key, KeyIssuanceResult,
}
use my_token.Identity.Service.Resolving.{resolve_actor_dead}
use my_token.Bff.Keys as OwnerKeys
use my_token.PublicApi.Keys as AgentKeys
use my_token.Server.Keys.{
  Write, issues, rotates, agent_revokes, owner_revokes, write, Reach, here, next,
}

-- The row that a lookup by this hash finds in the keys, if it is not live, is found again.
abbrev Keeps : List ApiKeyRow → List ApiKeyRow → Type 0
Keeps rows rows' =
    (hash : Text) (row : ApiKeyRow)
    → first_of (λ r. r.key_hash == hash) rows ≡ some row
    → is_live row ≡ false
    → first_of (λ r. r.key_hash == hash) rows' ≡ some row

Keeps-revoke_where :
    (test : ApiKeyRow → Bool) (now : Time) (rows : List ApiKeyRow)
    → ((row : ApiKeyRow) → test row ≡ true → is_live row ≡ true)
    → Keeps rows (revoke_where test now rows)
unfolding first_of revoke_where
Keeps-revoke_where test now [] live hash row f dead = f
Keeps-revoke_where test now (r ∷ rows) live hash row f dead =
    elim (Bool-cases (r.key_hash == hash)) [
      | inr miss ↦
          let f' : first_of (λ r. r.key_hash == hash) rows ≡ some row = rw miss at f in
          let rest = Keeps-revoke_where test now rows live hash row f' dead in
          elim (Bool-cases (test r)) [ inl t ↦ rw t (rw miss rest) | inr t ↦ rw t (rw miss rest) ]
      | inl hit ↦
          let same : r ≡ row = ground (arith, f, hit) in
          elim (Bool-cases (test r)) [
            | inl t ↦
                let l : is_live row ≡ true = subst (λ x. is_live x ≡ true) same (live r t) in
                ground (arith, l, dead)
            | inr t ↦ rw t (rw hit (ap some same))
          ]
    ]

Keeps-append : (rows more : List ApiKeyRow) → Keeps rows (rows ++ more)
unfolding first_of
Keeps-append [] more hash row f dead = ground (arith, f)
Keeps-append (r ∷ rows) more hash row f dead = elim (Bool-cases (r.key_hash == hash)) [
  | inl hit ↦ rw hit (rw hit at f)
  | inr miss ↦ rw miss (Keeps-append rows more hash row (rw miss at f) dead)
]

module _ (drv : IdentityDriver) where
  -- What a call does to the keys.
  abbrev After : {A : Type 0} → IdentityTables → A × IdentityTables → Type 0
  After t out = Keeps t.api_keys out.1.api_keys

  unchanged-Keeps : (rows : List ApiKeyRow) → Keeps rows rows
  unchanged-Keeps rows hash row f dead = f

  twice-Keeps : (a b c : List ApiKeyRow) → Keeps a b → Keeps b c → Keeps a c
  twice-Keeps a b c h k hash row f dead = k hash row (h hash row f dead) dead

  revoke_one-After :
      (test : ApiKeyRow → Bool) (id : Text) (now : Time) (t : IdentityTables)
      → ((row : ApiKeyRow) → test row ≡ true → is_live row ≡ true)
      → After t (revoke_one drv test id now t)
  unfolding revoke_one
  revoke_one-After test id now t live = elim (Bool-cases (drv.revokes id)) [
    | inr e ↦ rw (e, revoke_one) (unchanged-Keeps t.api_keys)
    | inl e ↦ elim (Option-cases (first_of test t.api_keys)) [
      | inl f ↦ rw (e, revoke_one) (rw f (unchanged-Keeps t.api_keys))
      | inr (row, f) ↦ rw (e, revoke_one) (rw f (Keeps-revoke_where test now t.api_keys live))
    ]
  ]

  revoke_api_key-After :
      (id user_id : Text) (now : Time) (t : IdentityTables)
      → After t (revoke_api_key drv id user_id now t)
  unfolding revoke_api_key
  revoke_api_key-After id user_id now t =
      revoke_one-After (is_own_live id user_id) id now t (λ row h. ground arith)

  revoke_api_key_by_id-After :
      (id : Text) (now : Time) (t : IdentityTables) → After t (revoke_api_key_by_id drv id now t)
  unfolding revoke_api_key_by_id
  revoke_api_key_by_id-After id now t =
      revoke_one-After (is_live_id id) id now t (λ row h. ground arith)

  create_api_key-After :
      (uuid : Text) (now : Time) (user_id hash prefix : Text) (expires : Time) (t : IdentityTables)
      → After t (create_api_key drv uuid now user_id hash prefix expires t)
  unfolding create_api_key
  create_api_key-After uuid now user_id hash prefix expires t =
      elim (Bool-cases
        (drv.writes_keys && not (any (λ k. k.id == uuid || k.key_hash == hash) t.api_keys))) [
          | inl fits ↦ rw (fits, create_api_key) (Keeps-append t.api_keys _)
          | inr clash ↦ rw (clash, create_api_key) (unchanged-Keeps t.api_keys)
        ]

  create_user_keys :
      (uuid : Text) (now : Time) (handle role : Text) (sub : Option Text) (t : IdentityTables)
      → (create_user drv uuid now handle role sub t).1.api_keys ≡ t.api_keys
  unfolding create_user
  create_user_keys uuid now handle role sub t = ground arith

  -- One call after another, where the first may fail.
  abbrev then_call :
      {A B : Type 0}
      → (A → IdentityTables → Result RepoError B × IdentityTables)
      → Result RepoError A × IdentityTables
      → Result RepoError B × IdentityTables
  then_call f out = elim out.0 [ err e ↦ (err e, out.1) | ok a ↦ f a out.1 ]

  then_call-After :
      {A B : Type 0} (f : A → IdentityTables → Result RepoError B × IdentityTables)
      (t : IdentityTables) (out : Result RepoError A × IdentityTables)
      → After t out
      → ((a : A) (t' : IdentityTables) → After t' (f a t'))
      → After t (then_call f out)
  then_call-After f t (err e, t') h k = h
  then_call-After f t (ok a, t') h k =
      twice-Keeps t.api_keys t'.api_keys (f a t').1.api_keys h (k a t')

  disable_each-After :
      (live : List ApiKey) (user_id keep_id : Text) (now : Time) (count : ℕ) (t : IdentityTables)
      → After t (disable_each drv live user_id keep_id now count t)
  unfolding disable_each
  disable_each-After [] user_id keep_id now count t = unchanged-Keeps t.api_keys
  disable_each-After (key ∷ live) user_id keep_id now count t =
      elim (Bool-cases (key.id == keep_id)) [
        | inl same ↦ rw (same, disable_each) (disable_each-After live user_id keep_id now count t)
        | inr other ↦
            rw (other, disable_each)
              (then_call-After (λ _ t'. disable_each drv live user_id keep_id now (suc count) t') t
                (revoke_api_key drv key.id user_id now t)
                (revoke_api_key-After key.id user_id now t)
                (λ _ t'. disable_each-After live user_id keep_id now (suc count) t'))
      ]

  disable_other_api_keys-After :
      (user_id keep_id : Text) (now : Time) (t : IdentityTables)
      → After t (disable_other_api_keys drv user_id keep_id now t)
  unfolding disable_other_api_keys
  disable_other_api_keys-After user_id keep_id now t =
      elim (Result-cases (list_api_keys_by_owner drv user_id t)) [
        | inr (e, r) ↦ rw (r, disable_other_api_keys) (unchanged-Keeps t.api_keys)
        | inl (live, r) ↦
            rw (r, disable_other_api_keys) (disable_each-After live user_id keep_id now 0 t)
      ]

  find_or_create-After :
      (cr : Credentials) (uuid : Text) (now : Time) (handle : Text) (t : IdentityTables)
      → After t (find_or_create cr drv uuid now handle t)
  unfolding find_or_create
  find_or_create-After cr uuid now handle t =
      elim (Result-cases (get_user_by_handle drv handle t)) [
        | inl (user, r) ↦ rw (r, find_or_create) (unchanged-Keeps t.api_keys)
        | inr (broken, r) ↦ rw (r, find_or_create) (unchanged-Keeps t.api_keys)
        | inr (not_found, r) ↦
            rw (r, find_or_create, create_user_keys uuid now handle (codes "agent") none t)
              (unchanged-Keeps t.api_keys)
      ]

module _ (cr : Credentials) (drv : IdentityDriver) where
  store_key-After :
      (uuid : Text) (now : Time) (user_id raw : Text) (t : IdentityTables)
      → After drv t (store_key cr drv uuid now user_id raw t)
  unfolding store_key
  store_key-After uuid now user_id raw t = create_api_key-After drv uuid now user_id _ _ _ t

  -- What follows once the user is there.
  abbrev issue_for :
      Text
      → Option Text
      → Time
      → User
      → IdentityTables
      → Result RepoError KeyIssuanceResult × IdentityTables
  issue_for key_uuid random now user t = elim (generate_raw_api_key random) [
    | err e ↦ (err e, t)
    | ok raw ↦
        let (stored, t') = store_key cr drv key_uuid now user.id raw t in
        (
          elim stored [
            | err e ↦ err e
            | ok key ↦ ok (record { user = user; api_key = key; raw_key = raw })
          ],
          t',
        )
  ]

  issue_for-After :
      (key_uuid : Text) (random : Option Text) (now : Time) (user : User) (t : IdentityTables)
      → After drv t (issue_for key_uuid random now user t)
  issue_for-After key_uuid random now user t = elim (Result-cases (generate_raw_api_key random)) [
    | inr (e, g) ↦ rw (g, issue_for) (unchanged-Keeps drv t.api_keys)
    | inl (raw, g) ↦ rw (g, issue_for) (store_key-After key_uuid now user.id raw t)
  ]

  issue-After :
      (user_uuid key_uuid : Text) (random : Option Text) (now : Time) (handle : Text)
      (t : IdentityTables)
      → After drv t (issue_api_key_for_handle cr drv user_uuid key_uuid random now handle t)
  unfolding issue_api_key_for_handle
  issue-After user_uuid key_uuid random now handle t =
      then_call-After drv (λ user t'. issue_for key_uuid random now user t') t
        (find_or_create cr drv user_uuid now handle t)
        (find_or_create-After drv cr user_uuid now handle t)
        (λ user t'. issue_for-After key_uuid random now user t')

  rotate-After :
      (key_uuid : Text) (random : Option Text) (now : Time) (handle : Text) (t : IdentityTables)
      → After drv t (rotate cr drv key_uuid random now handle t)
  unfolding rotate
  rotate-After key_uuid random now handle t =
      elim (Result-cases (get_user_by_handle drv handle t)) [
        | inr (e, r) ↦ rw (r, rotate) (unchanged-Keeps drv t.api_keys)
        | inl (user, r) ↦ elim (Result-cases (generate_raw_api_key random)) [
          | inr (e, g) ↦ rw (r, rotate) (rw g (unchanged-Keeps drv t.api_keys))
          | inl (raw, g) ↦
              rw (r, rotate)
                (rw g (
                  then_call-After drv
                    (λ (key : ApiKey) t'.
                      let (disabled, t'') = disable_other_api_keys drv user.id key.id now t' in
                      (
                        elim disabled [
                          | err e ↦ err e
                          | ok count ↦ ok (record {
                            user = user;
                            api_key = key;
                            raw_key = raw;
                            revoked_count = count;
                          })
                        ],
                        t'',
                      ))
                    t (store_key cr drv key_uuid now user.id raw t)
                    (store_key-After key_uuid now user.id raw t)
                    (λ key t'. disable_other_api_keys-After drv user.id key.id now t')))
        ]
      ]

  write-After : (w : Write) (t : IdentityTables) → Keeps t.api_keys (write cr drv w t).api_keys
  unfolding write AgentKeys.revoke_key OwnerKeys.revoke_key
  write-After (issues user_uuid key_uuid random now handle) t =
      issue-After user_uuid key_uuid random now handle t
  write-After (rotates key_uuid random now handle) t = rotate-After key_uuid random now handle t
  write-After (agent_revokes none id now) t = unchanged-Keeps drv t.api_keys
  write-After (agent_revokes (some actor) id now) t = revoke_api_key-After drv id actor.id now t
  write-After (owner_revokes none id now) t = unchanged-Keeps drv t.api_keys
  write-After (owner_revokes (some actor) id now) t = revoke_api_key_by_id-After drv id now t

Reach-Keeps : (cr : Credentials) {s t : IdentityTables} → Reach cr s t → Keeps s.api_keys t.api_keys
Reach-Keeps cr here hash row f dead = f
Reach-Keeps cr (next {t = t} drv w r) hash row f dead =
    write-After cr drv w t hash row (Reach-Keeps cr r hash row f dead) dead

try_api_key_unread :
    (cr : Credentials) (drv : IdentityDriver) (token : Text) (now : Time) (t : IdentityTables)
    → drv.reads_keys ≡ false
    → try_api_key cr drv token now t ≡ refused
unfolding try_api_key get_api_key_by_hash one
try_api_key_unread cr drv token now t e = rw e refl

found_again :
    (drv : IdentityDriver) (hash : Text) (row : ApiKeyRow) (t : IdentityTables)
    → drv.reads_keys ≡ true
    → first_of (λ r. r.key_hash == hash) t.api_keys ≡ some row
    → get_api_key_by_hash drv hash t ≡ ok (api_key_from_row row)
unfolding get_api_key_by_hash one
found_again drv hash row t reads f = rw (reads, f) refl

spent_row :
    (now : Time) (row : ApiKeyRow) → is_live row ≡ false → is_dead now (api_key_from_row row) ≡ true
unfolding is_dead api_key_from_row
spent_row now row dead = ground arith

live_of :
    (row : ApiKeyRow) (key : ApiKey) (at_time : Time)
    → api_key_from_row row ≡ key
    → key.revoked_at ≡ some at_time
    → is_live row ≡ false
unfolding api_key_from_row
live_of row key at_time made revoked =
    let e : row.revoked_at ≡ some at_time = ap (λ (k : ApiKey). k.revoked_at) made ∙ revoked in
    rw e refl

-- Once a key has been revoked, no header with that key as its token resolves to anyone ever
-- again: after any keys that are issued, rotated or revoked since, with whatever calls of the
-- database failing then or now, and whatever the JWT verifier says.
pub resolve_actor-Reach :
    (cr : Credentials) (drv after : IdentityDriver) (s t : IdentityTables) (header token : Text)
    (key : ApiKey) (revoked_at now : Time)
    → bearer_token cr after header ≡ some token
    → get_api_key_by_hash drv (cr.sha256_hex token) s ≡ ok key
    → key.revoked_at ≡ some revoked_at
    → Reach cr s t
    → resolve_actor cr after header now t ≡ none
unfolding resolve_actor
resolve_actor-Reach cr drv after s t header token key revoked_at now bearer held revoked reach =
    let (row, f, made) = get_api_key_by_hash_lem drv (cr.sha256_hex token) s key held in
    let dead : is_live row ≡ false = live_of row key revoked_at made revoked in
    elim (Bool-cases after.reads_keys) [
      | inr unread ↦
          rw (bearer, resolve_actor) (rw (try_api_key_unread cr after token now t unread) refl)
      | inl reads ↦
          let again = Reach-Keeps cr reach (cr.sha256_hex token) row f dead in
          resolve_actor_dead cr after now t header token (api_key_from_row row) bearer
            (found_again after (cr.sha256_hex token) row t reads again) (spent_row now row dead)
    ]
