-- ===== src/Base/Bytes/Cut.antt =====
-- Lemmas on `strings.Cut`.
use Prim.Native.Nat.{ℕ}
use mathlib.Core.Path.{◌≡◌, ap}
use mathlib.Core.Logic.{◌≢◌, inl, inr}
use mathlib.Core.Option.{Option, none, some}
use mathlib.Core.List.{[], ◌∷◌, ◌++◌}
use native.Mathlib.Omega.{arith}
use my_token.Base.Tests.{Bool-cases, eqb, eqb_iff}
use my_token.Base.Lists.{All}
use my_token.Base.Bytes.{Text, cut}

-- The byte does not stand in the text.
abbrev pub Lacks : ℕ → Text → Type 0
Lacks c s = All (λ b. b ≢ c) s

pub cut-append : (c : ℕ) (s t : Text) → Lacks c s → cut c (s ++ c ∷ t) ≡ some (s, t)
unfolding cut
cut-append c [] t h = ground arith
cut-append c (a ∷ s) t h = ground (arith, cut-append c s t h.1)

-- What `strings.Cut` promises of its result.
abbrev pub IsCut : ℕ → Text → Option (Text × Text) → Type 0
IsCut c s none = Lacks c s
IsCut c s (some (before, after)) = (s ≡ before ++ c ∷ after) × Lacks c before

IsCut-cons :
    (c a : ℕ) (s : Text) (r : Option (Text × Text))
    → a ≢ c
    → IsCut c s r
    → IsCut c (a ∷ s) (elim r [ none ↦ none | some (before, after) ↦ some (a ∷ before, after) ])
IsCut-cons c a s none h k = (h, k)
IsCut-cons c a s (some (before, after)) h (e, k) = (ap (λ t. a ∷ t) e, (h, k))

pub cut_lem : (c : ℕ) (s : Text) → IsCut c s (cut c s)
unfolding cut
cut_lem c [] = tt
cut_lem c (a ∷ s) = elim (Bool-cases (eqb a c)) [
  | inl same ↦ rw same (ap (λ b. b ∷ s) ((eqb_iff a c).0 same), tt)
  | inr other ↦ rw other (IsCut-cons c a s (cut c s) (ground arith) (cut_lem c s))
]
