-- ===== src/DbQuery/Tests.antt =====
-- Examples for internal/dbquery: each theorem at a concrete input.
use my_token.Base.{Text, codes, refl, some, ◌≡◌, ◌∷◌, [], ◌++◌}
unfoldable use my_token.Base.{◌==◌}
use my_token.DbQuery.Scan.{lower, referenced_tables_strict}
use my_token.DbQuery.Ownership.{
  table_ownership, read_only_grants, assert_query_file, undeclared, foreign,
}

abbrev query : Text
query = codes "-- from a\nSELECT * FROM api_keys JOIN Users ON 1"

query_foreign :
    assert_query_file table_ownership read_only_grants
      (some (query ++ codes " join machines JOIN x"))
      (codes "u.sql")
      (codes "users")
    ≡ foreign (codes "machines") ∷ undeclared (codes "x") ∷ []
unfolding assert_query_file ◌==◌ lower referenced_tables_strict
query_foreign = refl

-- The file without its comment, cut before and after its keyword JOIN.
abbrev before : Text
before = codes "\nSELECT * FROM api_keys "

abbrev after : Text
after = codes " Users ON 1"
