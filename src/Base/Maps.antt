-- ===== src/Base/Maps.antt =====
-- A Go map with string keys as an association list: a new key goes to the end, so the list is
-- also the order in which the keys came.
use mathlib.Core.Path.{◌≡◌, refl}
use mathlib.Core.Bool.{Bool, true, false}
use mathlib.Core.Option.{Option, none, some}
use mathlib.Core.List.{List, [], ◌∷◌}
use native.Mathlib.Omega.{arith}
use my_token.Base.Tests.{if◌then◌else◌}
use my_token.Base.Bytes.{Text, ◌==◌, ==_iff}

abbrev pub Map {ℓ} : Type ℓ → Type ℓ
Map V = List (Text × V)

module _ {ℓ} {V : Type ℓ} where
  -- `m[key] = value`
  unfoldable pub insert : Text → V → Map V → Map V
  insert key value [] = (key, value) ∷ []
  insert key value (entry ∷ rest) =
      if entry.0 == key then (key, value) ∷ rest else entry ∷ insert key value rest

  -- `value, ok := m[key]`
  unfoldable pub lookup : Text → Map V → Option V
  lookup key [] = none
  lookup key (entry ∷ rest) = if entry.0 == key then some (entry.1) else lookup key rest

  pub lookup-insert :
      (key other : Text) (value : V) (table : Map V)
      → lookup other (insert key value table)
        ≡ (if key == other then some value else lookup other table)
  unfolding insert lookup
  lookup-insert key other value [] = refl
  lookup-insert key other value (entry ∷ rest) = ground (
    arith,
    lookup-insert key other value rest,
    ==_iff (entry.0) key,
    ==_iff (entry.0) other,
    ==_iff key other,
  )

-- `s[k]` in a set of strings, which is a list here.
unfoldable pub member : Text → List Text → Bool
member k [] = false
member k (j ∷ s) = if j == k then true else member k s

-- `s[k] = true` or `s[k] = struct{}{}`
unfoldable pub add_member : Text → List Text → List Text
add_member k [] = k ∷ []
add_member k (j ∷ s) = if j == k then j ∷ s else j ∷ add_member k s

pub member-add_member :
    (k j : Text) (s : List Text) → member j (add_member k s) ≡ (if k == j then true else member j s)
unfolding member add_member
member-add_member k j [] = refl
member-add_member k j (i ∷ s) =
    ground (arith, ==_iff k j, ==_iff i k, ==_iff i j, member-add_member k j s)

abbrev pub HasNoRepeats : List Text → Type 0
HasNoRepeats [] = Unit
HasNoRepeats (k ∷ s) = (member k s ≡ false) × HasNoRepeats s

pub add_member-HasNoRepeats :
    (k : Text) (s : List Text) → HasNoRepeats s → HasNoRepeats (add_member k s)
unfolding member add_member
add_member-HasNoRepeats k [] h = (refl, tt)
add_member-HasNoRepeats k (j ∷ s) h =
    ground (arith, ==_iff k j, ==_iff j k, member-add_member k j s, add_member-HasNoRepeats k s h.1)
