-- ===== src/DbQuery/Ownership/Sound.antt =====
-- What a check without a failure shows (internal/dbquery/tableisolation.go).
use my_token.Base.{Text, ◌≢◌, ◌≡◌, true, false, ◌⊎◌, List, [], All, Map, lookup, some}
use mathlib.Core.List.{Memᴰ}
use my_token.DbQuery.Scan.{starts, lower, writes_to_table}
use my_token.DbQuery.Scan.Occurrences.{word_byte, writing}
use my_token.DbQuery.Scan.Identifiers.{space_byte}
use my_token.DbQuery.Ownership.{ReadOnlyGrant, granted_read_only}

module _ (ownership : Map Text) (grants : List ReadOnlyGrant) (filename module_name : Text) where
  -- A table of the module, or one that the file may read and does not write.
  abbrev pub IsAllowed : Text → Text → Type 0
  IsAllowed stripped table =
      (owner : Text) × (lookup table ownership ≡ some owner)
      × ((owner ≡ module_name)
          ⊎ ((granted_read_only ownership grants filename table ≡ true)
              × (writes_to_table stripped table ≡ false)))

-- White space, a plain identifier, and what is left, where the identifier ends.
abbrev pub IsPlain : Text → Text → Text → Type 0
IsPlain spaces ident tail =
    (spaces ≢ [])
    × All (λ c. space_byte c ≡ true) spaces
    × All (λ c. word_byte c ≡ true) ident
    × (starts word_byte tail ≡ false)

-- The table of an identifier is one of the module, or one that a grant lets the file read where the
-- keyword is not INTO or UPDATE.
abbrev pub MayName : Map Text → List ReadOnlyGrant → Text → Text → Text → Text → Type 0
MayName ownership grants filename module_name keyword ident =
    (owner : Text) × (lookup (lower ident) ownership ≡ some owner)
    × ((owner ≡ module_name)
        ⊎ ((g : ReadOnlyGrant) × Memᴰ g grants
            × (g.file ≡ filename)
            × (g.table ≡ lower ident)
            × (¬ Memᴰ keyword writing)))
