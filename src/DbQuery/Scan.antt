-- ===== src/DbQuery/Scan.antt =====
-- The scanner of query files (internal/dbquery/tableisolation.go). Its patterns are functions on
-- bytes, and letters are matched as ASCII.
pub mod Complete
pub mod Comments
pub mod Occurrences
pub mod Identifiers
use my_token.Base.{
  ℕ, ◌+◌, Text, codes, ◌==◌, eqb, leb, Bool, true, false, not, ◌&&◌, ◌||◌, List, [], ◌∷◌, ◌++◌, map,
  member, Option, none, some, if◌then◌else◌, Result, ok, err,
}

-- `[a-zA-Z_]`, `\w` and `\s`
abbrev pub is_letter : ℕ → Bool
is_letter c = leb 65 c && leb c 90 || (leb 97 c && leb c 122 || eqb c 95)

abbrev pub is_word : ℕ → Bool
is_word c = is_letter c || leb 48 c && leb c 57

abbrev pub is_space : ℕ → Bool
is_space c = eqb c 32 || (leb 9 c && leb c 10 || leb 12 c && leb c 13)

abbrev pub to_lower_byte : ℕ → ℕ
to_lower_byte c = if leb 65 c && leb c 90 then c + 32 else c

unfoldable pub lower : Text → Text
lower s = map to_lower_byte s

-- `--[^\n]*`, replaced by nothing; the flag is on inside a comment.
unfoldable pub strip_from : Bool → Text → Text
strip_from true [] = []
strip_from true (c ∷ s) = if eqb c 10 then c ∷ strip_from false s else strip_from true s
strip_from false [] = []
strip_from false (c ∷ []) = c ∷ []
strip_from false (c ∷ d ∷ s) =
    if eqb c 45 && eqb d 45 then strip_from true s else c ∷ strip_from false (d ∷ s)

unfoldable pub strip_sql_line_comments : Text → Text
unfolding strip_from
strip_sql_line_comments content = strip_from false content

-- What follows a word, given in lower case, at the start of a text, where the word ends there.
unfoldable pub after_word : Text → Text → Option Text
after_word [] [] = some []
after_word [] (c ∷ s) = if is_word c then none else some (c ∷ s)
after_word (k ∷ word) [] = none
after_word (k ∷ word) (c ∷ s) = if eqb (to_lower_byte c) k then after_word word s else none

abbrev pub keyword_names : List Text
keyword_names = codes "from" ∷ codes "into" ∷ codes "update" ∷ codes "join" ∷ []

-- The alternatives of a pattern, in their order.
unfoldable pub after_any : List Text → Text → Option Text
unfolding after_word
after_any [] s = none
after_any (word ∷ words) s = elim (after_word word s) [
  | none ↦ after_any words s
  | some rest ↦ some rest
]

-- What follows each keyword, in the order of the text; the flag says whether a word goes on.
unfoldable pub after_keywords : List Text → Bool → Text → List Text
unfolding after_any
after_keywords words inside [] = []
after_keywords words inside (c ∷ s) =
    let more = after_keywords words (is_word c) s in
    if inside
    then more
    else elim (after_any words (c ∷ s)) [ none ↦ more | some rest ↦ rest ∷ more ]

unfoldable pub skip_spaces : Text → Text
skip_spaces [] = []
skip_spaces (c ∷ s) = if is_space c then skip_spaces s else c ∷ s

-- A run of word bytes and what follows it.
unfoldable pub split_word : Text → Text × Text
split_word [] = ([], [])
split_word (c ∷ s) =
    let (word, rest) = split_word s in if is_word c then (c ∷ word, rest) else ([], c ∷ s)

abbrev pub starts : (ℕ → Bool) → Text → Bool
starts test [] = false
starts test (c ∷ s) = test c

-- `^(\s+)([a-zA-Z_]\w*)(\s*)`: the identifier and what follows the match.
unfoldable pub ident_then_tail : Text → Option (Text × Text)
unfolding skip_spaces split_word
ident_then_tail rest =
    if not (starts is_space rest)
    then none
    else (let s = skip_spaces rest in
        if not (starts is_letter s)
        then none
        else (let (name, after) = split_word s in some (name, skip_spaces after)))

pub data ScanError : Type 0 where
  not_plain comma_follows unreadable : ScanError

-- The loop of `referencedTablesStrict`; the tables that were seen are those that are listed.
unfoldable pub tables_from : List Text → List Text → Result ScanError (List Text)
unfolding ident_then_tail lower member
tables_from [] tables = ok tables
tables_from (rest ∷ rests) tables = elim (ident_then_tail rest) [
  | none ↦ err not_plain
  | some (ident, after) ↦ elim (starts (λ c. eqb c 44) after) [
    | true ↦ err comma_follows
    | false ↦
        let name = lower ident in
        tables_from rests (if not (member name tables) then tables ++ name ∷ [] else tables)
  ]
]

unfoldable pub referenced_tables_strict : Text → Result ScanError (List Text)
unfolding tables_from strip_sql_line_comments after_keywords
referenced_tables_strict content =
    tables_from (after_keywords keyword_names false (strip_sql_line_comments content)) []

-- `\b(?:INTO|UPDATE)\s+table\b` finds a match.
unfoldable pub writes_after : Text → List Text → Bool
unfolding skip_spaces after_word lower
writes_after table [] = false
writes_after table (rest ∷ rests) =
    (starts is_space rest
      && elim (after_word (lower table) (skip_spaces rest)) [ none ↦ false | some _ ↦ true ])
    || writes_after table rests

unfoldable pub writes_to_table : Text → Text → Bool
unfolding writes_after after_keywords
writes_to_table stripped table =
    writes_after table (after_keywords (codes "into" ∷ codes "update" ∷ []) false stripped)
