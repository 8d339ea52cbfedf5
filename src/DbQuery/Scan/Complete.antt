-- ===== src/DbQuery/Scan/Complete.antt =====
-- Which tables the scanner finds (internal/dbquery/tableisolation.go).
use my_token.Base.{
  Text, ==_refl, ◌≡◌, refl, sym, ◌∙◌, ap, Bool-cases, Option-cases, true, false, not, ◌||◌, inl,
  inr, List, [], ◌∷◌, ◌++◌, All, member, some, Result, ok, err, arith, if◌then◌else◌, eqb,
}
use mathlib.Core.Path.{subst}
use my_token.DbQuery.Scan.{
  ScanError, not_plain, comma_follows, starts, ident_then_tail, lower, tables_from,
  referenced_tables_strict, strip_sql_line_comments, after_keywords, keyword_names,
}

-- A plain identifier follows, with no comma after it, and it is one of the tables.
abbrev pub IsFound : List Text → Text → Type 0
IsFound tables rest =
    (ident : Text) × (after : Text) × (ident_then_tail rest ≡ some (ident, after))
    × (starts (λ c. eqb c 44) after ≡ false)
    × (member (lower ident) tables ≡ true)

member-append : (k : Text) (xs ys : List Text) → member k (xs ++ ys) ≡ member k xs || member k ys
unfolding member
member-append k [] ys = refl
member-append k (x ∷ xs) ys = ground (arith, member-append k xs ys)

-- The list after one more name has that name and all that it had.
added :
    (name : Text) (tables : List Text)
    → (member name (if not (member name tables) then tables ++ name ∷ [] else tables) ≡ true)
      × ((k : Text)
          → member k tables ≡ true
          → member k (if not (member name tables) then tables ++ name ∷ [] else tables) ≡ true)
unfolding member
added name tables = elim (Bool-cases (member name tables)) [
  | inl old ↦ rw old (old, λ k h. h)
  | inr new ↦ rw new (
    rw (member-append name tables (name ∷ []), new) (last name),
    λ k h. rw (member-append k tables (name ∷ []), h) refl,
  )
]
  where
    last : (n : Text) → member n (n ∷ []) ≡ true
    last n = rw (member, ==_refl n) refl

tables_from-IsFound :
    (rests tables all : List Text)
    → tables_from rests tables ≡ ok all
    → All (IsFound all) rests × ((k : Text) → member k tables ≡ true → member k all ≡ true)
unfolding tables_from
tables_from-IsFound [] tables all e =
    let given : Result ScanError (List Text) → List Text =
      λ r. elim r [ ok l ↦ l | err _ ↦ tables ] in
    (tt, λ k h. subst (λ l. member k l ≡ true) (ap given e) h)
tables_from-IsFound (rest ∷ rests) tables all e = elim (Option-cases (ident_then_tail rest)) [
  | inl i ↦
      let r : tables_from (rest ∷ rests) tables ≡ err not_plain = rw (i, tables_from) refl in cc
  | inr ((ident, after), i) ↦ elim (Bool-cases (starts (λ c. eqb c 44) after)) [
    | inl c ↦
        let r : tables_from (rest ∷ rests) tables ≡ err comma_follows =
          rw (i, tables_from) (rw c refl) in
        cc
    | inr c ↦
        let name : Text = lower ident in
        let more : List Text = if not (member name tables) then tables ++ name ∷ [] else tables in
        let r : tables_from (rest ∷ rests) tables ≡ tables_from rests more =
          rw (i, tables_from) (rw c refl) in
        let (found, kept) = tables_from-IsFound rests more all (sym r ∙ e) in
        let (here, there) = added name tables in
        (((ident, after, i, c, kept name here), found), λ k h. kept k (there k h))
  ]
]

-- Every keyword outside the comments of a file that the scanner accepts is followed by a plain
-- identifier, which is one of the tables that it gives, in lower case.
pub referenced_tables_strict-IsFound :
    (content : Text) (tables : List Text)
    → referenced_tables_strict content ≡ ok tables
    → All (IsFound tables) (after_keywords keyword_names false (strip_sql_line_comments content))
unfolding referenced_tables_strict
referenced_tables_strict-IsFound content tables e =
    (tables_from-IsFound (after_keywords keyword_names false (strip_sql_line_comments content)) []
      tables e).0
