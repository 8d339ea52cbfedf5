-- ===== src/Usage/Summary/Groups.antt =====
-- The rows of `Aggregate` against a grouping by key (internal/domain/usage/summary.go).
use my_token.Base.{
  Text, ◌==◌, ==_iff, Bool, not, ◌&&◌, ◌≡◌, refl, ap, ◌∙◌, List, [], ◌∷◌, filter, Option, none,
  some, Map, lookup, insert, lookup-insert, arith, if◌then◌else◌, Bool-cases, inl, inr,
}
use my_token.Usage.Floats.{Float64}
use my_token.Usage.Event.{Event, GroupBy, key_for, excluded_from_path_breakdown}
use my_token.Usage.Summary.{
  BreakdownRow, Tally, is_path, place, sort_stable, add_row, new_row, row_at, add_to_group, tally,
  tally_all, values, ranks_before, no_totals, aggregate,
}

module _ {F : Type 0} where
  -- An event that the breakdown shows.
  abbrev pub is_shown : GroupBy → Event F → Bool
  is_shown g e = not (is_path g && excluded_from_path_breakdown e)

  abbrev pub belongs : GroupBy → Text → Event F → Bool
  belongs g k e = is_shown g e && key_for g e == k

  abbrev pub find_row : Text → List (BreakdownRow F) → Option (BreakdownRow F)
  find_row k [] = none
  find_row k (r ∷ rs) = if r.key == k then some r else find_row k rs

  -- No key has two rows.
  abbrev pub HasDistinctKeys : List (BreakdownRow F) → Type 0
  HasDistinctKeys [] = Unit
  HasDistinctKeys (r ∷ rs) = (find_row r.key rs ≡ none) × HasDistinctKeys rs

  -- Each row stands under its own key, and no key stands twice.
  abbrev IsKeyed : Map (BreakdownRow F) → Type 0
  IsKeyed [] = Unit
  IsKeyed ((k, r) ∷ m) = (r.key ≡ k) × (lookup k m ≡ none) × IsKeyed m

  insert-IsKeyed :
      (k : Text) (r : BreakdownRow F) (m : Map (BreakdownRow F))
      → r.key ≡ k
      → IsKeyed m
      → IsKeyed (insert k r m)
  unfolding insert lookup
  insert-IsKeyed k r [] e h = (e, refl, tt)
  insert-IsKeyed k r ((j, s) ∷ m) e h =
      ground (arith, ==_iff j k, ==_iff k j, insert-IsKeyed k r m e h.2, lookup-insert k j r m)

  find_row-values :
      (k : Text) (m : Map (BreakdownRow F)) → IsKeyed m → find_row k (values m) ≡ lookup k m
  unfolding lookup
  find_row-values k [] h = refl
  find_row-values k ((j, r) ∷ m) h = rw (h.0, find_row-values k m h.2)

  values-HasDistinctKeys : (m : Map (BreakdownRow F)) → IsKeyed m → HasDistinctKeys (values m)
  values-HasDistinctKeys [] h = tt
  values-HasDistinctKeys ((j, r) ∷ m) h =
      (rw (h.0, find_row-values j m h.2) h.1, values-HasDistinctKeys m h.2)

module _ {F : Type 0} (less : BreakdownRow F → BreakdownRow F → Bool) where
  find_row-place :
      (k : Text) (x : BreakdownRow F) (ys : List (BreakdownRow F))
      → find_row x.key ys ≡ none
      → find_row k (place less x ys) ≡ find_row k (x ∷ ys)
  unfolding place
  find_row-place k x [] h = refl
  find_row-place k x (y ∷ ys) h =
      ground (arith, ==_iff x.key k, ==_iff y.key k, ==_iff y.key x.key, find_row-place k x ys)

  place-HasDistinctKeys :
      (x : BreakdownRow F) (ys : List (BreakdownRow F))
      → find_row x.key ys ≡ none
      → HasDistinctKeys ys
      → HasDistinctKeys (place less x ys)
  unfolding place
  place-HasDistinctKeys x [] h d = (refl, tt)
  place-HasDistinctKeys x (y ∷ ys) h d = ground (
    arith,
    ==_iff y.key x.key,
    ==_iff x.key y.key,
    find_row-place y.key x ys,
    place-HasDistinctKeys x ys,
  )

module _ {F : Type 0} (less : BreakdownRow F → BreakdownRow F → Bool) where
  -- Sorting neither adds, drops nor changes a row.
  sort_stable-rows :
      (rs : List (BreakdownRow F))
      → HasDistinctKeys rs
      → HasDistinctKeys (sort_stable less rs)
        × ((k : Text) → find_row k (sort_stable less rs) ≡ find_row k rs)
  unfolding sort_stable
  sort_stable-rows [] h = (tt, λ k. refl)
  sort_stable-rows (r ∷ rs) h =
      let (distinct, same) = sort_stable-rows rs h.1 in
      let fresh : find_row r.key (sort_stable less rs) ≡ none = same r.key ∙ h.0 in
      (
        place-HasDistinctKeys less r (sort_stable less rs) fresh distinct,
        λ k.
            find_row-place less k r (sort_stable less rs) fresh
            ∙ ap (λ o. if r.key == k then some r else o) (same k),
      )

module _ {F : Type 0} (fl : Float64 F) where
  abbrev row_or_new : Text → Option (BreakdownRow F) → BreakdownRow F
  row_or_new k o = elim o [ some row ↦ row | none ↦ new_row fl k ]

  -- The row of one key, from the events of that key alone, in their order.
  abbrev pub continue_row :
      Text → Option (BreakdownRow F) → List (Event F) → Option (BreakdownRow F)
  continue_row k o [] = o
  continue_row k o (e ∷ es) = continue_row k (some (add_row fl (row_or_new k o) e)) es

  abbrev pub group_row : GroupBy → Text → List (Event F) → Option (BreakdownRow F)
  group_row g k events = continue_row k none (filter (belongs g k) events)

  add_row-key : (r : BreakdownRow F) (e : Event F) → (add_row fl r e).key ≡ r.key
  unfolding add_row
  add_row-key r e = refl

  row_at-key : (k : Text) (m : Map (BreakdownRow F)) → IsKeyed m → (row_at fl k m).key ≡ k
  unfolding row_at lookup
  row_at-key k [] h = refl
  row_at-key k ((j, r) ∷ m) h = ground (arith, ==_iff j k, row_at-key k m h.2)

  add_to_group-IsKeyed :
      (g : GroupBy) (m : Map (BreakdownRow F)) (e : Event F)
      → IsKeyed m
      → IsKeyed (add_to_group fl g m e)
  unfolding add_to_group
  add_to_group-IsKeyed g m e h = ground (
    arith,
    insert-IsKeyed (key_for g e) (add_row fl (row_at fl (key_for g e) m) e) m
        (add_row-key (row_at fl (key_for g e) m) e ∙ row_at-key (key_for g e) m h) h,
  )

  lookup-add_to_group :
      (g : GroupBy) (k : Text) (m : Map (BreakdownRow F)) (e : Event F)
      → lookup k (add_to_group fl g m e)
        ≡ (if belongs g k e then some (add_row fl (row_or_new k (lookup k m)) e) else lookup k m)
  unfolding add_to_group row_at
  lookup-add_to_group g k m e = ground (
    arith,
    ==_iff (key_for g e) k,
    lookup-insert (key_for g e) k (add_row fl (row_at fl (key_for g e) m) e) m,
  )

  tally_all-rows :
      (g : GroupBy) (k : Text) (t : Tally F) (es : List (Event F))
      → IsKeyed t.by_key
      → IsKeyed (tally_all fl g t es).by_key
        × (lookup k (tally_all fl g t es).by_key
            ≡ continue_row k (lookup k t.by_key) (filter (belongs g k) es))
  unfolding tally_all tally
  tally_all-rows g k t [] h = (h, refl)
  tally_all-rows g k t (e ∷ es) h =
      let (keyed, found) =
        tally_all-rows g k (tally fl g t e) es (add_to_group-IsKeyed g t.by_key e h) in
      (
        keyed,
        found ∙ elim (Bool-cases (belongs g k e)) [
          | inl yes' ↦ rw (lookup-add_to_group g k t.by_key e, yes')
          | inr no' ↦ rw (lookup-add_to_group g k t.by_key e, no')
        ],
      )

  -- The breakdown has one row for each key of a shown event and no other row: what stands under a
  -- key is what the events of that key add up to, in their order, and no key has two rows.
  pub aggregate_groups :
      (events : List (Event F)) (g : GroupBy)
      → HasDistinctKeys (aggregate fl events g).breakdown
        × ((k : Text) → find_row k (aggregate fl events g).breakdown ≡ group_row g k events)
  unfolding aggregate lookup
  aggregate_groups events g =
      let t : Tally F = record { totals = no_totals fl; machines = []; by_key = [] } in
      let keyed = (tally_all-rows g [] t events tt).0 in
      let rows = values (tally_all fl g t events).by_key in
      let (distinct, same) =
        sort_stable-rows (ranks_before fl) rows (values-HasDistinctKeys _ keyed) in
      (distinct, λ k. same k ∙ find_row-values k _ keyed ∙ (tally_all-rows g k t events tt).1)
