-- ===== src/Base/Bytes/CutLast.antt =====
-- A text cut at the last occurrence of a byte, as `strings.LastIndexByte` and two slices do it.
use Prim.Native.Nat.{ℕ}
use mathlib.Core.Path.{◌≡◌, refl, ap, subst}
use mathlib.Core.Logic.{inl, inr}
use mathlib.Core.Option.{Option, none, some}
use mathlib.Core.List.{[], ◌∷◌, ◌++◌}
use native.Mathlib.Omega.{arith}
use my_token.Base.Tests.{Bool-cases, Option-cases, eqb, eqb_iff, if◌then◌else◌}
use my_token.Base.Bytes.{Text}
use my_token.Base.Bytes.Cut.{Lacks}

-- What stands before and after the last `sep`.
unfoldable pub cut_last : ℕ → Text → Option (Text × Text)
cut_last sep [] = none
cut_last sep (a ∷ s) = elim (cut_last sep s) [
  | some (before, after) ↦ some (a ∷ before, after)
  | none ↦ if eqb a sep then some ([], s) else none
]

cut_last_lacking : (c : ℕ) (s : Text) → Lacks c s → cut_last c s ≡ none
unfolding cut_last
cut_last_lacking c [] h = refl
cut_last_lacking c (a ∷ s) h = ground (arith, cut_last_lacking c s h.1)

pub cut_last-append : (c : ℕ) (s t : Text) → Lacks c t → cut_last c (s ++ c ∷ t) ≡ some (s, t)
unfolding cut_last
cut_last-append c [] t h = ground (arith, cut_last_lacking c t h)
cut_last-append c (a ∷ s) t h = rw (cut_last-append c s t h) refl

-- What a cut promises of its result.
abbrev pub Joins : ℕ → Text → Option (Text × Text) → Type 0
Joins c s none = Unit
Joins c s (some (before, after)) = s ≡ before ++ c ∷ after

pub cut_last-Joins : (c : ℕ) (s : Text) → Joins c s (cut_last c s)
unfolding cut_last
cut_last-Joins c [] = tt
cut_last-Joins c (a ∷ s) = elim (Option-cases (cut_last c s)) [
  | inl e ↦ elim (Bool-cases (eqb a c)) [
    | inl same ↦ rw e (rw same (ap (λ b. b ∷ s) ((eqb_iff a c).0 same)))
    | inr other ↦ rw e (rw other tt)
  ]
  | inr (parts, e) ↦
      let joined : s ≡ parts.0 ++ c ∷ parts.1 = subst (Joins c s) e (cut_last-Joins c s) in
      rw e (ap (λ t. a ∷ t) joined)
]
