-- ===== src/DbQuery/Scan/Identifiers.antt =====
-- The identifier behind a keyword (internal/dbquery/tableisolation.go).
use mathlib.Core.Path.{subst}
use my_token.Base.{
  ℕ, Text, eqb, ◌≡◌, ◌≢◌, refl, sym, ◌∙◌, ap, inl, inr, Bool, Bool-cases, true, false, ◌||◌, [],
  ◌∷◌, ◌++◌, All, Option, none, some, arith,
}
use my_token.DbQuery.Scan.{
  is_word, is_letter, is_space, lower, skip_spaces, split_word, ident_then_tail, to_lower_byte,
  starts, after_word,
}
use my_token.DbQuery.Scan.Occurrences.{word_byte, word_byte-is_word}

-- White space, `[\t\n\f\r ]`.
abbrev pub space_byte : ℕ → Bool
space_byte c = eqb c 9 || eqb c 10 || eqb c 12 || eqb c 13 || eqb c 32

skip_spaces_lem :
    (s : Text)
    → (spaces : Text) × (s ≡ spaces ++ skip_spaces s) × All (λ c. space_byte c ≡ true) spaces
unfolding skip_spaces
skip_spaces_lem [] = ([], refl, tt)
skip_spaces_lem (c ∷ s) = elim (Bool-cases (is_space c)) [
  | inl space ↦
      let (spaces, parts, all) = skip_spaces_lem s in
      (c ∷ spaces, rw space (ap (λ l. c ∷ l) parts), (ground (arith, space), all))
  | inr other ↦ ([], rw other refl, tt)
]

split_word_lem :
    (s : Text)
    → (s ≡ (split_word s).0 ++ (split_word s).1)
      × All (λ c. word_byte c ≡ true) ((split_word s).0)
      × (starts word_byte ((split_word s).1) ≡ false)
unfolding split_word
split_word_lem [] = (refl, tt, refl)
split_word_lem (c ∷ s) = elim (Bool-cases (is_word c)) [
  | inl on ↦
      let (parts, all, end) = split_word_lem s in
      rw on (ap (λ l. c ∷ l) parts, (word_byte-is_word c ∙ on, all), end)
  | inr off ↦ rw off (refl, tt, word_byte-is_word c ∙ off)
]

-- A word is found again by its table.
after_word-lower :
    (word rest : Text)
    → starts word_byte rest ≡ false
    → after_word (lower (lower word)) (word ++ rest) ≡ some rest
unfolding after_word lower
after_word-lower [] [] end = refl
after_word-lower [] (c ∷ rest) end = rw (sym (word_byte-is_word c) ∙ end) refl
after_word-lower (c ∷ word) rest end =
    let same : eqb (to_lower_byte c) (to_lower_byte (to_lower_byte c)) ≡ true = ground arith in
    rw same (after_word-lower word rest end)

letter_no_space : (s : Text) → starts is_letter s ≡ true → starts is_space s ≡ false
letter_no_space [] e = refl
letter_no_space (c ∷ s) e = ground (arith, e)

-- White space and an identifier at the start of a text.
abbrev pub IsIdent : Text → Text → Type 0
IsIdent rest ident =
    (spaces : Text) × (tail : Text) × (rest ≡ spaces ++ (ident ++ tail))
    × (spaces ≢ [])
    × All (λ c. space_byte c ≡ true) spaces
    × All (λ c. word_byte c ≡ true) ident
    × (starts word_byte tail ≡ false)
    × (starts is_space rest ≡ true)
    × (after_word (lower (lower ident)) (skip_spaces rest) ≡ some tail)

pub ident_then_tail-IsIdent :
    (rest ident after : Text) → ident_then_tail rest ≡ some (ident, after) → IsIdent rest ident
unfolding ident_then_tail
ident_then_tail-IsIdent rest ident after e = elim (Bool-cases (starts is_space rest)) [
  | inr none_first ↦
      let r : ident_then_tail rest ≡ none = rw (none_first, ident_then_tail) refl in cc
  | inl space ↦ elim (Bool-cases (starts is_letter (skip_spaces rest))) [
    | inr other ↦
        let r : ident_then_tail rest ≡ none = rw (space, other, ident_then_tail) refl in cc
    | inl letter ↦
        let parts : Text × Text = split_word (skip_spaces rest) in
        let r : ident_then_tail rest ≡ some (parts.0, skip_spaces parts.1) =
          rw (space, letter, ident_then_tail) refl in
        let same : parts.0 ≡ ident =
          ap (λ (o : Option (Text × Text)). elim o [ none ↦ ident | some p ↦ p.0 ]) (sym r ∙ e) in
        let (spaces, apart, all) = skip_spaces_lem rest in
        let (whole, word, end) = split_word_lem (skip_spaces rest) in
        subst (IsIdent rest) same (
          spaces,
          parts.1,
          apart ∙ ap (λ x. spaces ++ x) whole,
          λ empty.
              let at : rest ≡ skip_spaces rest = apart ∙ ap (λ x. x ++ skip_spaces rest) empty in
              let clash : true ≡ false =
                sym space ∙ ap (starts is_space) at ∙ letter_no_space (skip_spaces rest) letter in
              cc,
          all,
          word,
          end,
          space,
          subst (λ x. after_word (lower (lower parts.0)) x ≡ some parts.1) (sym whole)
              (after_word-lower parts.0 parts.1 end),
        )
  ]
]
