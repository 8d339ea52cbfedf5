-- ===== src/PublicApi/Middleware/Guards.antt =====
-- What the two guards let pass (internal/transport/publicapi/middleware.go).

use mathlib.Core.Path.{subst}
use mathlib.Core.List.{Memᴰ}
use my_token.Base.{
  Text, ◌==◌, ==_iff, member, ◌≡◌, refl, Bool, Bool-cases, Option-cases, true, false, not,
  if◌then◌else◌, ◌||◌, ◌⊎◌, inl, inr, any, codes, List, ◌∷◌, ◌≢◌, sym, ◌∙◌, arith, Option, none,
  some, [],
}
use my_token.Usage.Event.{Time}
use my_token.Identity.Repo.{User, IdentityTables, IdentityDriver}
use my_token.Identity.Service.{Credentials, bearer_token, resolve_actor}
use my_token.Identity.Service.Resolving.{IsEntitled, resolve_actor-IsEntitled}
use my_token.Http.{Response, refuse, unauthorized_body}
use my_token.PublicApi.Middleware.{
  Body, ApiRequest, Parsers, is_forbidden, has_forbidden_key, has_forbidden_body_field,
  reject_actor_fields, guarded, actor_field_present,
}

abbrev forbidden_in : Parsers → Option Body → Bool
forbidden_in ps none = false
forbidden_in ps (some body) = has_forbidden_key ps body

abbrev bytes_of : Option Body → Option Text
bytes_of none = none
bytes_of (some body) = some body.bytes

abbrev put_body : Option Body → Option Body
put_body none = none
put_body (some body) = some (record { bytes = body.bytes; complete = true })

bytes_of-put_body : (b : Option Body) → bytes_of (put_body b) ≡ bytes_of b
bytes_of-put_body none = refl
bytes_of-put_body (some body) = refl

abbrev declares : Parsers → ApiRequest → Bool
declares ps req =
    not (req.x_actor == []) || (any (is_forbidden ps) req.query_keys || forbidden_in ps req.body)

-- What is read of a body.
abbrev pub read_bytes : ApiRequest → Option Text
read_bytes req = bytes_of req.body

-- The request that the handlers get.
abbrev put_back : ApiRequest → ApiRequest
put_back req = record req { body = put_body req.body }

has_forbidden_body_field_lem :
    (ps : Parsers) (req : ApiRequest)
    → has_forbidden_body_field ps req ≡ (forbidden_in ps req.body, put_back req)
unfolding has_forbidden_body_field
has_forbidden_body_field_lem ps req = elim (Option-cases req.body) [
  | inl e ↦ rw e refl
  | inr (body, e) ↦ rw e refl
]

reject_actor_fields_lem :
    (ps : Parsers) (req : ApiRequest)
    → reject_actor_fields ps req ≡ (if declares ps req then none else some (put_back req))
unfolding reject_actor_fields
reject_actor_fields_lem ps req =
    let body = has_forbidden_body_field_lem ps req in
    elim (Bool-cases (req.x_actor == [])) [
      | inr header ↦ rw header refl
      | inl plain ↦ elim (Bool-cases (any (is_forbidden ps) req.query_keys)) [
        | inl query ↦ rw (plain, query) refl
        | inr clean ↦ rw (plain, clean, body) refl
      ]
    ]

-- A key that names an actor, in any mixture of cases.
abbrev pub NamesActor : Parsers → Text → Type 0
NamesActor ps key =
    (ps.to_lower key ≡ codes "actor")
    ⊎ (ps.to_lower key ≡ codes "actorid")
    ⊎ (ps.to_lower key ≡ codes "ownerid")

-- A body that was read whole, is not blank, and is a JSON object with a key that names an actor.
abbrev pub BodyDeclares : Parsers → Body → Type 0
BodyDeclares ps body =
    (keys : List Text) × (key : Text) × (body.complete ≡ true)
    × (ps.trim_space body.bytes ≢ [])
    × (ps.object_keys body.bytes ≡ some keys)
    × Memᴰ key keys
    × NamesActor ps key

-- An actor is declared in the header, in the query, or among the top-level keys of the body.
abbrev pub Declares : Parsers → ApiRequest → Type 0
Declares ps req =
    (req.x_actor ≢ [])
    ⊎ ((key : Text) × Memᴰ key req.query_keys × NamesActor ps key)
    ⊎ ((body : Body) × (req.body ≡ some body) × BodyDeclares ps body)

-- The three names in a list, and one by one.
member_of_three : (a b c k : Text) → member k (a ∷ b ∷ c ∷ []) ≡ true → (k ≡ a) ⊎ (k ≡ b) ⊎ (k ≡ c)
unfolding member
member_of_three a b c k h = elim (Bool-cases (a == k)) [
  | inl e ↦ inl (sym ((==_iff a k).0 e))
  | inr x ↦ elim (Bool-cases (b == k)) [
    | inl e ↦ inr (inl (sym ((==_iff b k).0 e)))
    | inr y ↦ elim (Bool-cases (c == k)) [
      | inl e ↦ inr (inr (sym ((==_iff c k).0 e)))
      | inr z ↦ ground (arith, x, y, z, h)
    ]
  ]
]

one_of_three : (a b c k : Text) → (k ≡ a) ⊎ (k ≡ b) ⊎ (k ≡ c) → member k (a ∷ b ∷ c ∷ []) ≡ true
unfolding member
one_of_three a b c k h = ground (arith, h, ==_iff a k, ==_iff b k, ==_iff c k)

module _ (ps : Parsers) where
  forbidden_names : (key : Text) → is_forbidden ps key ≡ true → NamesActor ps key
  forbidden_names key h = member_of_three (codes "actor") (codes "actorid") (codes "ownerid") _ h

  names_forbidden : (key : Text) → NamesActor ps key → is_forbidden ps key ≡ true
  names_forbidden key h = one_of_three (codes "actor") (codes "actorid") (codes "ownerid") _ h

  -- One of the keys names an actor.
  abbrev OneNames : List Text → Type 0
  OneNames keys = (key : Text) × Memᴰ key keys × NamesActor ps key

  any_forbidden : (keys : List Text) → any (is_forbidden ps) keys ≡ true → OneNames keys
  any_forbidden [] h = ground (arith, h)
  any_forbidden (k ∷ keys) h = elim (Bool-cases (is_forbidden ps k)) [
    | inl here ↦ (k, Memᴰ.head refl, forbidden_names k here)
    | inr other ↦
        let (key, m, named) = any_forbidden keys (rw other at h) in (key, Memᴰ.tail m, named)
  ]

  one_forbidden :
      (keys : List Text) (key : Text)
      → Memᴰ key keys
      → NamesActor ps key
      → any (is_forbidden ps) keys ≡ true
  one_forbidden [] key m named = elim m [ ]
  one_forbidden (k ∷ keys) key (Memᴰ.head same) named =
      rw (names_forbidden k (subst (NamesActor ps) same named)) refl
  one_forbidden (k ∷ keys) key (Memᴰ.tail m) named =
      let rest = one_forbidden keys key m named in ground (arith, rest)

  body_forbidden : (body : Body) → has_forbidden_key ps body ≡ true → BodyDeclares ps body
  unfolding has_forbidden_key
  body_forbidden body h = elim (Bool-cases body.complete) [
    | inr broken ↦
        let r : has_forbidden_key ps body ≡ false = rw (broken, has_forbidden_key) refl in
        ground (arith, r, h)
    | inl whole ↦ elim (Bool-cases (ps.trim_space body.bytes == [])) [
      | inl blank ↦
          let r : has_forbidden_key ps body ≡ false = rw (whole, blank, has_forbidden_key) refl in
          ground (arith, r, h)
      | inr full ↦ elim (Option-cases (ps.object_keys body.bytes)) [
        | inl k ↦
            let r : has_forbidden_key ps body ≡ false =
              rw (whole, full, has_forbidden_key) (rw k refl) in
            ground (arith, r, h)
        | inr (keys, k) ↦
            let r : has_forbidden_key ps body ≡ any (is_forbidden ps) keys =
              rw (whole, full, has_forbidden_key) (rw k refl) in
            let (key, m, named) = any_forbidden keys (sym r ∙ h) in
            (
              keys,
              key,
              whole,
              λ empty. ground (arith, full, ==_iff (ps.trim_space body.bytes) [], empty),
              k,
              m,
              named,
            )
      ]
    ]
  ]

  forbidden_body : (body : Body) → BodyDeclares ps body → has_forbidden_key ps body ≡ true
  unfolding has_forbidden_key
  forbidden_body body (keys, key, whole, full, k, m, named) =
      elim (Bool-cases (ps.trim_space body.bytes == [])) [
        | inl blank ↦ absurd (full ((==_iff (ps.trim_space body.bytes) []).0 blank))
        | inr some_bytes ↦
            rw (whole, some_bytes, has_forbidden_key) (rw k (one_forbidden keys key m named))
      ]

  declares-Declares : (req : ApiRequest) → declares ps req ≡ true → Declares ps req
  declares-Declares req h = elim (Bool-cases (req.x_actor == [])) [
    | inr header ↦ inl (λ empty. ground (arith, header, ==_iff req.x_actor [], empty))
    | inl plain ↦ elim (Bool-cases (any (is_forbidden ps) req.query_keys)) [
      | inl query ↦ inr (inl (any_forbidden req.query_keys query))
      | inr clean ↦ elim (Option-cases req.body) [
        | inl b ↦
            let r : declares ps req ≡ false = rw (plain, clean) (rw b refl) in ground (arith, r, h)
        | inr (body, b) ↦
            let r : declares ps req ≡ has_forbidden_key ps body = rw (plain, clean) (rw b refl) in
            inr (inr (body, b, body_forbidden body (sym r ∙ h)))
      ]
    ]
  ]

  Declares-declares : (req : ApiRequest) → Declares ps req → declares ps req ≡ true
  Declares-declares req (inl header) = elim (Bool-cases (req.x_actor == [])) [
    | inl empty ↦ absurd (header ((==_iff req.x_actor []).0 empty))
    | inr full ↦ rw full refl
  ]
  Declares-declares req (inr (inl (key, m, named))) =
      let query = one_forbidden req.query_keys key m named in ground (arith, query)
  Declares-declares req (inr (inr (body, b, declared))) =
      let yes_body : forbidden_in ps req.body ≡ true = rw b (forbidden_body body declared) in
      ground (arith, yes_body)

module _ (ps : Parsers) (cr : Credentials) (drv : IdentityDriver) (now : Time)
    (t : IdentityTables) where
  -- A request that declares an actor, by a header, by a key of the query or by a top-level key of a
  -- JSON body that could be read, where the keys are those of the three names in any case, is refused with 400, whatever its credential. Any
  -- other is refused with 401 if its header resolves to no one, and else is handled: with a user
  -- who is entitled to the bearer token of the header, and with the bytes of the body that came.
  pub guarded_lem :
      {B : Type 0} (req : ApiRequest) (next : ApiRequest → User → Response B)
      → (Declares ps req × (guarded ps cr drv now t req next ≡ refuse 400 actor_field_present))
        ⊎ (¬ Declares ps req
            × (resolve_actor cr drv req.authorization now t ≡ none)
            × (guarded ps cr drv now t req next ≡ refuse 401 unauthorized_body))
        ⊎ (¬ Declares ps req
            × ((req' : ApiRequest) × (user : User) × (token : Text) × (guarded ps cr drv now t req
                    next
                  ≡ next req' user)
                × (read_bytes req' ≡ read_bytes req)
                × (bearer_token cr drv req.authorization ≡ some token)
                × IsEntitled cr drv now t token user))
  unfolding guarded
  guarded_lem req next = elim (Bool-cases (declares ps req)) [
    | inl d ↦
        let r : reject_actor_fields ps req ≡ none = rw (reject_actor_fields_lem ps req, d) refl in
        inl (declares-Declares ps req d, rw (r, guarded) refl)
    | inr d ↦
        let r : reject_actor_fields ps req ≡ some (put_back req) =
          rw (reject_actor_fields_lem ps req, d) refl in
        let undeclared : ¬ Declares ps req =
          λ x. let h = Declares-declares ps req x in ground (arith, d, h) in
        elim (Option-cases (resolve_actor cr drv req.authorization now t)) [
          | inl e ↦ inr (inl (undeclared, e, rw (r, guarded) (rw e refl)))
          | inr (user, e) ↦
              let (token, bearer, entitled) =
                resolve_actor-IsEntitled cr drv now t req.authorization user e in
              inr (
                inr (
                  undeclared,
                  (
                    put_back req,
                    user,
                    token,
                    rw (r, guarded) (rw e refl),
                    bytes_of-put_body req.body,
                    bearer,
                    entitled,
                  ),
                ))
        ]
  ]
