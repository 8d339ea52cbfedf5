-- ===== src/DbQuery/Scan/Comments.antt =====
-- The comments of a query file (internal/dbquery/tableisolation.go).
use mathlib.Core.Path.{subst}
use my_token.Base.{
  ℕ, Text, eqb, ◌≡◌, refl, sym, ◌∙◌, ap, inl, inr, Bool, Bool-cases, true, false, ◌&&◌, [], ◌∷◌,
  ◌++◌, All, arith,
}
use my_token.DbQuery.Scan.{strip_from, strip_sql_line_comments}

-- Two dashes come first.
abbrev pub opens : Text → Bool
opens [] = false
opens (c ∷ []) = false
opens (c ∷ d ∷ s) = eqb c 45 && eqb d 45

abbrev pub ends_line : Text → Bool
ends_line [] = true
ends_line (c ∷ s) = eqb c 10

-- The text without its comments: a comment is two dashes and what follows them up to the end of
-- the line, and every other byte is kept.
pub data IsStripped : Text → Text → Type 0 where
  done : IsStripped [] []
  kept : (c : ℕ) {s t : Text} → opens (c ∷ s) ≡ false → IsStripped s t → IsStripped (c ∷ s) (c ∷ t)
  comment :
      (b : Text) {s t : Text}
      → All (λ c. eqb c 10 ≡ false) b
      → ends_line s ≡ true
      → IsStripped s t
      → IsStripped (45 ∷ 45 ∷ b ++ s) t

strip_to_end :
    (b s : Text)
    → All (λ c. eqb c 10 ≡ false) b
    → ends_line s ≡ true
    → strip_from true (b ++ s) ≡ strip_from false s
unfolding strip_from
strip_to_end [] [] plain end = refl
strip_to_end [] (c ∷ []) plain end = rw end refl
strip_to_end [] (c ∷ d ∷ s) plain end =
    let dash : eqb c 45 ≡ false = ground (arith, end) in rw (end, dash) refl
strip_to_end (c ∷ b) s (plain, more) end = rw plain (strip_to_end b s more end)

pub strip_from-IsStripped : {s t : Text} → IsStripped s t → strip_from false s ≡ t
unfolding strip_from
strip_from-IsStripped done = refl
strip_from-IsStripped (kept c {s = []} {t = t} first rest) =
    ap (λ l. c ∷ l) (strip_from-IsStripped rest)
strip_from-IsStripped (kept c {s = d ∷ s} {t = t} first rest) =
    rw first (ap (λ l. c ∷ l) (strip_from-IsStripped rest))
strip_from-IsStripped (comment b {s = s} {t = t} plain end rest) =
    strip_to_end b s plain end ∙ strip_from-IsStripped rest

-- What a scan has left out; the flag is on inside a comment, which goes on for some bytes.
abbrev Scanned : Bool → Text → Type 0
Scanned false s = IsStripped s (strip_from false s)
Scanned true s =
    (b : Text) × (left : Text) × (s ≡ b ++ left)
    × All (λ c. eqb c 10 ≡ false) b
    × (ends_line left ≡ true)
    × IsStripped left (strip_from true s)

scan_all : (inside : Bool) (s : Text) → Scanned inside s
unfolding strip_from
scan_all true [] = ([], [], refl, tt, refl, done)
scan_all true (c ∷ s) = elim (Bool-cases (eqb c 10)) [
  | inl end ↦ ([], c ∷ s, refl, tt, end, rw end (kept c (line_kept c s end) (scan_all false s)))
  | inr plain ↦
      let (b, left, parts, all, end, rest) = scan_all true s in
      (c ∷ b, left, ap (λ l. c ∷ l) parts, (plain, all), end, rw plain rest)
]
  where
    line_kept : (c : ℕ) (s : Text) → eqb c 10 ≡ true → opens (c ∷ s) ≡ false
    line_kept c [] end = refl
    line_kept c (d ∷ s) end = ground (arith, end)
scan_all false [] = done
scan_all false (c ∷ []) = kept c refl done
scan_all false (c ∷ d ∷ s) = elim (Bool-cases (eqb c 45 && eqb d 45)) [
  | inr no_dashes ↦ rw no_dashes (kept c no_dashes (scan_all false (d ∷ s)))
  | inl dashes ↦
      let (b, left, parts, all, end, rest) = scan_all true s in
      let first : c ≡ 45 = ground (arith, dashes) in
      let second : d ≡ 45 = ground (arith, dashes) in
      rw dashes (
        subst (λ l. IsStripped l (strip_from true s))
          (ap (λ l. 45 ∷ 45 ∷ l) (sym parts)
            ∙ ap (λ x. 45 ∷ x ∷ s) (sym second)
            ∙ ap (λ x. x ∷ d ∷ s) (sym first))
          (comment b all end rest))
]

-- What the scanner takes for a file is the file without its comments.
pub strip_sql_line_comments-IsStripped : (s : Text) → IsStripped s (strip_sql_line_comments s)
unfolding strip_sql_line_comments
strip_sql_line_comments-IsStripped s = scan_all false s
