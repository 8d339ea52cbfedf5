-- ===== src/DbQuery/Scan/Occurrences.antt =====
-- Keywords by where they stand in a text (internal/dbquery/tableisolation.go).
use mathlib.Core.Path.{subst}
use mathlib.Core.List.{Memᴰ}
use my_token.Base.{
  ℕ, ◌+◌, ◌≤◌, Text, codes, eqb, leb, ◌≡◌, refl, sym, ◌∙◌, ◌⊎◌, inl, inr, Bool, Bool-cases,
  Option-cases, true, false, ◌&&◌, ◌||◌, List, [], ◌∷◌, ◌++◌, All, none, some, arith,
}
use my_token.DbQuery.Scan.{is_word, to_lower_byte, starts, after_word, after_any, after_keywords}

-- The bytes of a word, `[0-9A-Za-z_]`.
abbrev pub word_byte : ℕ → Bool
word_byte c = leb 65 c && leb c 90 || leb 97 c && leb c 122 || leb 48 c && leb c 57 || eqb c 95

-- Whether a text ends in a byte of a word; the flag is for the empty text.
abbrev pub ends_word : Bool → Text → Bool
ends_word inside [] = inside
ends_word inside (c ∷ s) = ends_word (word_byte c) s

pub word_byte-is_word : (c : ℕ) → word_byte c ≡ is_word c
word_byte-is_word c = ground arith

-- The word spells the keyword, in small or capital letters.
abbrev pub Spells : Text → Text → Type 0
Spells [] [] = Unit
Spells (c ∷ word) (k ∷ keyword) = ((c ≡ k) ⊎ (c + 32 ≡ k)) × Spells word keyword
Spells [] (k ∷ keyword) = ⊥
Spells (c ∷ word) [] = ⊥

abbrev pub HasSmallLetters : Text → Type 0
HasSmallLetters keyword = All (λ k. (97 ≤ k) × (k ≤ 122)) keyword

folded : (c k : ℕ) → (97 ≤ k) × (k ≤ 122) → (c ≡ k) ⊎ (c + 32 ≡ k) → to_lower_byte c ≡ k
folded c k (low, high) h = ground (arith, low, high, h)

after_word-Spells :
    (word keyword rest : Text)
    → HasSmallLetters keyword
    → Spells word keyword
    → starts word_byte rest ≡ false
    → after_word keyword (word ++ rest) ≡ some rest
unfolding after_word
after_word-Spells [] [] [] small spelt apart = refl
after_word-Spells [] [] (c ∷ rest) small spelt apart = rw (sym (word_byte-is_word c) ∙ apart) refl
after_word-Spells [] (k ∷ keyword) rest small spelt apart = absurd spelt
after_word-Spells (c ∷ word) [] rest small spelt apart = absurd spelt
after_word-Spells (c ∷ word) (k ∷ keyword) rest (small, more) (spelt, spelt') apart =
    let same : eqb k k ≡ true = ground arith in
    rw (folded c k small spelt, same) (after_word-Spells word keyword rest more spelt' apart)

-- Another keyword, which begins with another letter.
abbrev pub Differs : Text → Text → Type 0
Differs [] w = ⊥
Differs (k ∷ keyword) [] = ⊥
Differs (k ∷ keyword) (j ∷ w) = eqb k j ≡ false

after_word_misses :
    (word keyword other rest : Text)
    → HasSmallLetters keyword
    → Spells word keyword
    → Differs keyword other
    → after_word other (word ++ rest) ≡ none
unfolding after_word
after_word_misses word [] other rest small spelt d = absurd d
after_word_misses word (k ∷ keyword) [] rest small spelt d = absurd d
after_word_misses [] (k ∷ keyword) (j ∷ other) rest small spelt d = absurd spelt
after_word_misses (c ∷ word) (k ∷ keyword) (j ∷ other) rest (small, more) (spelt, _) d =
    rw (folded c k small spelt, d) refl

module _ (word keyword rest : Text) (small : HasSmallLetters keyword) (spelt : Spells word keyword)
    (apart : starts word_byte rest ≡ false) where
  hits : (w : Text) → keyword ≡ w → after_word w (word ++ rest) ≡ some rest
  hits w same =
      subst (λ k. after_word k (word ++ rest) ≡ some rest) same
        (after_word-Spells word keyword rest small spelt apart)

  after_any-Memᴰ :
      (words : List Text)
      → All (λ w. (keyword ≡ w) ⊎ Differs keyword w) words
      → Memᴰ keyword words
      → after_any words (word ++ rest) ≡ some rest
  unfolding after_any
  after_any-Memᴰ [] told m = elim m [ ]
  after_any-Memᴰ (w ∷ words) (inl same, more) m = rw (hits w same, after_any) refl
  after_any-Memᴰ (w ∷ words) (inr d, more) (Memᴰ.head same) = rw (hits w same, after_any) refl
  after_any-Memᴰ (w ∷ words) (inr d, more) (Memᴰ.tail m) =
      rw (after_word_misses word keyword w rest small spelt d, after_any)
        (after_any-Memᴰ words more m)

occurs :
    (words : List Text) (before : Text) (c : ℕ) (word rest : Text) (inside : Bool)
    → after_any words (c ∷ word ++ rest) ≡ some rest
    → ends_word inside before ≡ false
    → Memᴰ rest (after_keywords words inside (before ++ c ∷ word ++ rest))
unfolding after_keywords
occurs words [] c word rest inside hit ends = rw (ends) (rw hit (Memᴰ.head refl))
occurs words (b ∷ before) c word rest inside hit ends =
    let later : Memᴰ rest (after_keywords words (is_word b) (before ++ c ∷ word ++ rest)) =
      occurs words before c word rest (is_word b) hit (rw (word_byte-is_word b) at ends) in
    elim (Bool-cases inside) [
      | inl on ↦ rw on later
      | inr off ↦ elim (Option-cases (after_any words (b ∷ before ++ c ∷ word ++ rest))) [
        | inl a ↦ rw off (rw a later)
        | inr (_, a) ↦ rw off (rw a (Memᴰ.tail later))
      ]
    ]

-- The keywords that the scanner looks for, and those of them that write.
abbrev pub scanned : List Text
scanned = codes "from" ∷ codes "into" ∷ codes "update" ∷ codes "join" ∷ []

abbrev pub writing : List Text
writing = codes "into" ∷ codes "update" ∷ []

abbrev pub IsFull : Text → Type 0
IsFull [] = ⊥
IsFull (k ∷ keyword) = Unit

-- What is needed of a keyword among some words.
abbrev pub IsTold : List Text → Text → Type 0
IsTold words keyword =
    HasSmallLetters keyword × IsFull keyword × All (λ w. (keyword ≡ w) ⊎ Differs keyword w) words

pub scanned-IsTold : (keyword : Text) → Memᴰ keyword scanned → IsTold scanned keyword
scanned-IsTold keyword (Memᴰ.head same) =
    subst (IsTold scanned) (sym same)
      (omega arith, tt, (inl refl, (inr refl, (inr refl, (inr refl, tt)))))
scanned-IsTold keyword (Memᴰ.tail (Memᴰ.head same)) =
    subst (IsTold scanned) (sym same)
      (omega arith, tt, (inr refl, (inl refl, (inr refl, (inr refl, tt)))))
scanned-IsTold keyword (Memᴰ.tail (Memᴰ.tail (Memᴰ.head same))) =
    subst (IsTold scanned) (sym same)
      (omega arith, tt, (inr refl, (inr refl, (inl refl, (inr refl, tt)))))
scanned-IsTold keyword (Memᴰ.tail (Memᴰ.tail (Memᴰ.tail (Memᴰ.head same)))) =
    subst (IsTold scanned) (sym same)
      (omega arith, tt, (inr refl, (inr refl, (inr refl, (inl refl, tt)))))
scanned-IsTold keyword (Memᴰ.tail (Memᴰ.tail (Memᴰ.tail (Memᴰ.tail m)))) = elim m [ ]

pub writing-IsTold : (keyword : Text) → Memᴰ keyword writing → IsTold writing keyword
writing-IsTold keyword (Memᴰ.head same) =
    subst (IsTold writing) (sym same) (omega arith, tt, (inl refl, (inr refl, tt)))
writing-IsTold keyword (Memᴰ.tail (Memᴰ.head same)) =
    subst (IsTold writing) (sym same) (omega arith, tt, (inr refl, (inl refl, tt)))
writing-IsTold keyword (Memᴰ.tail (Memᴰ.tail m)) = elim m [ ]

-- A keyword that stands alone is found, with what follows it.
pub occurs-IsTold :
    (words : List Text) (keyword before word rest : Text)
    → IsTold words keyword
    → Memᴰ keyword words
    → Spells word keyword
    → ends_word false before ≡ false
    → starts word_byte rest ≡ false
    → Memᴰ rest (after_keywords words false (before ++ word ++ rest))
occurs-IsTold words [] before [] rest (_, full, _) m spelt first last = absurd full
occurs-IsTold words (k ∷ keyword) before [] rest told m spelt first last = absurd spelt
occurs-IsTold words keyword before (c ∷ word) rest (small, _, told) m spelt first last =
    occurs words before c word rest false
      (after_any-Memᴰ (c ∷ word) keyword rest small spelt last words told m) first
