-- ===== src/DbQuery/Ownership.antt =====
-- The rule of ownership (internal/dbquery/tableisolation.go). The two tables of the package are
-- arguments, and a check gives its failures in their order; a failed `require` ends it.
pub mod Sound
use my_token.Base.{
  Text, codes, ◌==◌, Bool, true, false, not, ◌&&◌, ◌||◌, List, [], ◌∷◌, ◌++◌, any, member, Map,
  lookup, Option, none, some, if◌then◌else◌, Result, ok, err,
}
use my_token.DbQuery.Scan.{
  ScanError, lower, strip_sql_line_comments, referenced_tables_strict, writes_to_table,
}

pub record ReadOnlyGrant : Type 0 where
  pub file : Text
  pub table : Text

abbrev pub table_ownership : Map Text
table_ownership =
    (codes "users", codes "identity")
    ∷ (codes "api_keys", codes "identity")
    ∷ (codes "usage_events", codes "usage")
    ∷ (codes "machines", codes "usage")
    ∷ (codes "scan_roots", codes "usage")
    ∷ []

abbrev pub read_only_grants : List ReadOnlyGrant
read_only_grants = []

pub data CheckFailure : Type 0 where
  unread unowned : CheckFailure
  unscanned : ScanError → CheckFailure
  own_table_missing : CheckFailure
  undeclared written foreign unused_grant : Text → CheckFailure

module _ (ownership : Map Text) (grants : List ReadOnlyGrant) where
  unfoldable pub granted_read_only : Text → Text → Bool
  granted_read_only file table = any (λ g. g.file == file && g.table == table) grants

  -- The round of one table.
  unfoldable pub check_table : Text → Text → Text → Text → List CheckFailure
  unfolding lookup granted_read_only
  check_table filename module_name stripped table = elim (lookup table ownership) [
    | none ↦ undeclared table ∷ []
    | some owner ↦
        if owner == module_name
        then []
        else if granted_read_only filename table
        then if writes_to_table stripped table then written table ∷ [] else []
        else foreign table ∷ []
  ]

  unfoldable pub check_tables : Text → Text → Text → List Text → List CheckFailure
  unfolding check_table
  check_tables filename module_name stripped [] = []
  check_tables filename module_name stripped (table ∷ tables) =
      check_table filename module_name stripped table
      ++ check_tables filename module_name stripped tables

  -- `none` for the content is a file that cannot be read.
  unfoldable pub assert_query_file : Option Text → Text → Text → List CheckFailure
  unfolding check_tables lookup member
  assert_query_file file filename own_table = elim file [
    | none ↦ unread ∷ []
    | some content ↦ elim (lookup (lower own_table) ownership) [
      | none ↦ unowned ∷ []
      | some module_name ↦ elim (referenced_tables_strict content) [
        | err e ↦ unscanned e ∷ []
        | ok tables ↦
            (if member (lower own_table) tables then [] else own_table_missing ∷ [])
            ++ check_tables filename module_name (strip_sql_line_comments content) tables
      ]
    ]
  ]

-- `AssertEveryReadOnlyGrantIsExercised` over the files by name; a failed `require` ends it.
unfoldable pub assert_every_grant : (Text → Option Text) → List ReadOnlyGrant → List CheckFailure
unfolding member
assert_every_grant files [] = []
assert_every_grant files (g ∷ grants) =
    let rest = assert_every_grant files grants in
    elim (files g.file) [
      | none ↦ unread ∷ []
      | some content ↦ elim (referenced_tables_strict content) [
        | err e ↦ unscanned e ∷ []
        | ok tables ↦
            (if member (lower g.table) tables then [] else unused_grant g.table ∷ []) ++ rest
      ]
    ]
