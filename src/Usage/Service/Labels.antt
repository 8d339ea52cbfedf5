-- ===== src/Usage/Service/Labels.antt =====
-- Hostnames in the breakdown (internal/domain/usage/service.go, the substitution passes).
use my_token.Base.{
  Text, ◌==◌, ==_iff, ◌≡◌, ◌≢◌, refl, ◌∙◌, ap, [], Map, lookup, none, some, Lacks, cut-append,
  arith, ◌⊎◌, inl, inr, Option-cases, Bool-cases,
}
use my_token.Usage.Event.{Event, GroupBy, key_for, colon}
use my_token.Usage.Summary.{BreakdownRow}
use my_token.Usage.Service.{label_for, label_row}

-- A known hostname is one that is listed and not empty.
abbrev Known : Map Text → Text → Text → Type 0
Known hostnames install_id h = (lookup install_id hostnames ≡ some h) × (h ≢ [])

abbrev Unknown : Map Text → Text → Type 0
Unknown hostnames install_id =
    (lookup install_id hostnames ≡ none) ⊎ (lookup install_id hostnames ≡ some [])

label_for-Known :
    (hostnames : Map Text) (install_id h : Text)
    → Known hostnames install_id h
    → label_for hostnames install_id ≡ some h
unfolding label_for
label_for-Known hostnames install_id h (l, full) = elim (Bool-cases (h == [])) [
  | inl empty ↦ absurd (full ((==_iff h []).0 empty))
  | inr named ↦ rw (l, label_for) (rw named refl)
]

label_for-Unknown :
    (hostnames : Map Text) (install_id : Text)
    → Unknown hostnames install_id
    → label_for hostnames install_id ≡ none
unfolding label_for ◌==◌
label_for-Unknown hostnames install_id (inl l) = rw (l, label_for) refl
label_for-Unknown hostnames install_id (inr l) = rw (l, label_for) refl

hostname_cases :
    (hostnames : Map Text) (install_id : Text)
    → ((h : Text) × Known hostnames install_id h) ⊎ Unknown hostnames install_id
hostname_cases hostnames install_id = elim (Option-cases (lookup install_id hostnames)) [
  | inl l ↦ inr (inl l)
  | inr (h, l) ↦ elim (Bool-cases (h == [])) [
    | inl empty ↦ inr (inr (l ∙ ap some ((==_iff h []).0 empty)))
    | inr named ↦ inl (h, (l, λ same. ground (arith, named, ==_iff h [], same)))
  ]
]

module _ {F : Type 0} (hostnames : Map Text) (e : Event F) (row : BreakdownRow F) where
  labelled :
      (g : GroupBy) (h : Text)
      → Lacks colon e.machine
      → row.key ≡ key_for g e
      → label_for hostnames e.machine ≡ some h
      → label_row g hostnames row
        ≡ record row { key = key_for g (record e { machine = h }); raw_key = key_for g e }
  unfolding label_row key_for
  labelled GroupBy.machine h lacks q l = ground (arith, l)
  labelled GroupBy.path h lacks q l = ground (arith, l, cut-append colon e.machine e.path lacks)
  labelled GroupBy.actor h lacks q l = ground (arith, l, cut-append colon e.machine e.actor lacks)

  unlabelled :
      (g : GroupBy)
      → Lacks colon e.machine
      → row.key ≡ key_for g e
      → label_for hostnames e.machine ≡ none
      → label_row g hostnames row ≡ row
  unfolding label_row key_for
  unlabelled GroupBy.machine lacks q l = ground (arith, l)
  unlabelled GroupBy.path lacks q l = ground (arith, l, cut-append colon e.machine e.path lacks)
  unlabelled GroupBy.actor lacks q l = ground (arith, l, cut-append colon e.machine e.actor lacks)

module _ {F : Type 0} (g : GroupBy) (hostnames : Map Text) (e : Event F)
    (row : BreakdownRow F) where
  -- The row of an event under the name of its machine.
  abbrev pub IsLabelled : BreakdownRow F → Type 0
  IsLabelled out =
      ((h : Text) × (lookup e.machine hostnames ≡ some h)
        × (h ≢ [])
        × (out ≡ record row { key = key_for g (record e { machine = h }); raw_key = key_for g e }))
      ⊎ (((lookup e.machine hostnames ≡ none) ⊎ (lookup e.machine hostnames ≡ some []))
          × (out ≡ row))

  -- Where the install id of an event holds no colon, the row of its key gets, in every dimension,
  -- the key that the event would have if its machine were called by the hostname that is listed for
  -- it, with the original key kept in `raw_key` and the counts untouched; where no hostname is
  -- listed, or an empty one, the row is left as it is.
  pub label_row_lem :
      Lacks colon e.machine → row.key ≡ key_for g e → IsLabelled (label_row g hostnames row)
  label_row_lem lacks q = elim (hostname_cases hostnames e.machine) [
    | inl (h, (l, full)) ↦ inl (
      h,
      l,
      full,
      labelled hostnames e row g h lacks q (label_for-Known hostnames e.machine h (l, full)),
    )
    | inr u ↦
        inr (u, unlabelled hostnames e row g lacks q (label_for-Unknown hostnames e.machine u))
  ]
