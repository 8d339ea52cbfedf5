-- ===== src/Identity/Tests.antt =====
-- Examples for internal/identity: each theorem at a concrete input.
use my_token.Base.{
  ℕ, Text, codes, ◌==◌, ==_iff, any, All, inl, arith, ◌≡◌, refl, Bool, true, false, List, [], ◌∷◌,
  Option, none, some, ok, drop,
}
use my_token.Identity.Repo.{
  User, ApiKey, UserRow, ApiKeyRow, IdentityTables, IdentityDriver, get_api_key_by_hash,
  user_from_row, api_key_from_row,
}
use my_token.Identity.Repo.Revoking.{KeepsOnly}
use my_token.Identity.Service.{Credentials, RotateResult, bearer_token, resolve_actor, rotate}
use my_token.Identity.Service.Resolving.{
  IsEntitled, IsSpent, resolve_actor-IsEntitled, resolve_actor_spent,
}
use my_token.Identity.Service.Rotating.{HasLive, rotate-KeepsOnly}

abbrev ann : UserRow
ann = record {
  id = codes "u1";
  handle = codes "ann";
  role = codes "agent";
  active = true;
  sso_subject = none;
  created_at = 1;
  updated_at = 1;
}

abbrev key_row : Text → Option ℕ → ApiKeyRow
key_row id revoked = record {
  id = id;
  user_id = codes "u1";
  key_hash = id;
  key_prefix = id;
  created_at = 1;
  expires_at = 100;
  revoked_at = revoked;
}

-- A live key and a revoked one.
abbrev tables : IdentityTables
tables = record {
  users = ann ∷ [];
  api_keys = key_row (codes "k1") none ∷ key_row (codes "k2") (some 5) ∷ [];
}

abbrev all_work : IdentityDriver
all_work = record {
  reads_users = true;
  writes_users = true;
  reads_keys = true;
  writes_keys = true;
  revokes = λ id. true;
}

-- The hash is the token; every token is a JWT of the subject "s".
abbrev credentials : Credentials
credentials = record {
  sha256_hex = λ s. s;
  trim_space = λ s. s;
  verify = some (λ token. some (codes "s"));
}

resolves :
    resolve_actor credentials all_work (codes "Bearer k1") 10 tables ≡ some (user_from_row ann)
unfolding resolve_actor get_api_key_by_hash my_token.Base.has_prefix ◌==◌
    my_token.Identity.Repo.get_user_by_id
resolves = refl

resolve_actor-IsEntitled_example :
    (token : Text) × (bearer_token credentials all_work (codes "Bearer k1") ≡ some token)
    × IsEntitled credentials all_work 10 tables token (user_from_row ann)
resolve_actor-IsEntitled_example =
    resolve_actor-IsEntitled credentials all_work 10 tables (codes "Bearer k1") (user_from_row ann)
      resolves

takes : bearer_token credentials all_work (codes "Bearer k2") ≡ some (codes "k2")
unfolding bearer_token my_token.Base.has_prefix ◌==◌
takes = refl

-- The hashes of the two keys, and that the one in question is revoked.
is_stored : any (λ row. row.key_hash == codes "k2") tables.api_keys ≡ true
unfolding ◌==◌
is_stored = refl

apart : (codes "k1" == codes "k2") ≡ false
unfolding ◌==◌
apart = refl

only_revoked :
    All
      (λ row. row.key_hash ≡ codes "k2" → IsSpent credentials all_work 10 tables row)
      tables.api_keys
only_revoked = (
  λ (same : codes "k1" ≡ codes "k2"). ground (arith, apart, ==_iff (codes "k1") (codes "k2"), same),
  (λ same. inl (5, refl), tt),
)

resolve_actor_spent_example :
    resolve_actor credentials all_work (codes "Bearer k2") 10 tables ≡ none
resolve_actor_spent_example =
    resolve_actor_spent credentials all_work 10 tables (codes "Bearer k2") (codes "k2") takes
      is_stored only_revoked

abbrev new_row : ApiKeyRow
new_row = record {
  id = codes "k3";
  user_id = codes "u1";
  key_hash = codes "tpl_abcdefghijkl";
  key_prefix = codes "tpl_abcdefgh";
  created_at = 20;
  expires_at = 7776000000000020;
  revoked_at = none;
}

abbrev rotated : RotateResult
rotated = record {
  user = user_from_row ann;
  api_key = api_key_from_row new_row;
  raw_key = codes "tpl_abcdefghijkl";
  revoked_count = 1;
}

rotates :
    (rotate credentials all_work
      (codes "k3")
      (some (codes "abcdefghijkl"))
      20
      (codes "Ann")
      tables).0
    ≡ ok rotated
unfolding rotate my_token.Identity.Repo.get_user_by_handle ◌==◌
    my_token.Identity.Repo.create_api_key my_token.Identity.Repo.disable_other_api_keys
    my_token.Usage.Summary.sort_stable my_token.Usage.Summary.place
rotates = refl

rotate-KeepsOnly_example :
    HasLive (codes "k3") (
      (rotate credentials all_work
        (codes "k3")
        (some (codes "abcdefghijkl"))
        20
        (codes "Ann")
        tables).1)
    × KeepsOnly (codes "u1") (codes "k3") (
        (rotate credentials all_work
          (codes "k3")
          (some (codes "abcdefghijkl"))
          20
          (codes "Ann")
          tables).1)
unfolding api_key_from_row user_from_row
rotate-KeepsOnly_example =
    rotate-KeepsOnly all_work credentials (codes "k3") (some (codes "abcdefghijkl")) 20
      (codes "Ann") tables rotated rotates
