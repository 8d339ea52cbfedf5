-- ===== src/Usage/Summary/Order.antt =====
-- The order of the breakdown and the count of installs (internal/domain/usage/summary.go).
use my_token.Base.{
  Text, ◌==◌, ==_iff, lt_text, not_lt_text_trans, lt_text-asymm, Bool, true, false, not, ◌&&◌, ◌||◌,
  ◌≡◌, refl, ◌⊎◌, inl, inr, List, [], ◌∷◌, All, length, any, member, member-add_member,
  HasNoRepeats, add_member-HasNoRepeats, arith, Bool-cases,
}
use my_token.Usage.Floats.{Float64, IsOrdered}
use my_token.Usage.Event.{Event, GroupBy}
use my_token.Usage.Summary.{
  BreakdownRow, Tally, place, sort_stable, ranks_before, tally, tally_all, no_totals, aggregate,
}

module _ {F : Type 0} (fl : Float64 F) where
  -- The first row costs more, or they cost the same and its key is not the greater one.
  abbrev pub Leads : BreakdownRow F → BreakdownRow F → Type 0
  Leads a b =
      (fl.less b.cost a.cost ≡ true)
      ⊎ ((fl.same a.cost b.cost ≡ true) × (lt_text b.key a.key ≡ false))

  -- Every row leads every later one.
  abbrev pub IsRanked : List (BreakdownRow F) → Type 0
  IsRanked [] = Unit
  IsRanked (r ∷ rs) = All (Leads r) rs × IsRanked rs

module _ {F : Type 0} (fl : Float64 F) (ordered : IsOrdered fl) where
  open ordered use {
    same_of_not, less_asymm, less_trans, same_trans, same_symm, less_same, same_less,
  }

  ranks_before-Leads : (a b : BreakdownRow F) → ranks_before fl a b ≡ true → Leads fl a b
  unfolding ranks_before
  ranks_before-Leads a b h = ground (arith, lt_text-asymm a.key b.key)

  not_ranks_before-Leads : (a b : BreakdownRow F) → ranks_before fl a b ≡ false → Leads fl b a
  unfolding ranks_before
  not_ranks_before-Leads a b h =
      ground (arith, same_of_not a.cost b.cost, same_symm a.cost b.cost, less_asymm a.cost b.cost)

  Leads-trans : (a b c : BreakdownRow F) → Leads fl a b → Leads fl b c → Leads fl a c
  Leads-trans a b c (inl p) (inl q) = inl (less_trans _ _ _ q p)
  Leads-trans a b c (inl p) (inr (q, _)) = inl (same_less _ _ _ (same_symm _ _ q) p)
  Leads-trans a b c (inr (p, _)) (inl q) = inl (less_same _ _ _ q (same_symm _ _ p))
  Leads-trans a b c (inr (p, k)) (inr (q, l)) =
      inr (same_trans _ _ _ p q, not_lt_text_trans a.key b.key c.key k l)

  All-Leads-trans :
      (a b : BreakdownRow F) (rs : List (BreakdownRow F))
      → Leads fl a b
      → All (Leads fl b) rs
      → All (Leads fl a) rs
  All-Leads-trans a b [] h all = tt
  All-Leads-trans a b (r ∷ rs) h (l, all) = (Leads-trans a b r h l, All-Leads-trans a b rs h all)

  All-place :
      (a x : BreakdownRow F) (ys : List (BreakdownRow F))
      → Leads fl a x
      → All (Leads fl a) ys
      → All (Leads fl a) (place (ranks_before fl) x ys)
  unfolding place
  All-place a x [] h all = (h, tt)
  All-place a x (y ∷ ys) h (l, all) = elim (Bool-cases (ranks_before fl y x)) [
    | inl e ↦ rw e (l, All-place a x ys h all)
    | inr e ↦ rw e (h, (l, all))
  ]

  place-IsRanked :
      (x : BreakdownRow F) (ys : List (BreakdownRow F))
      → IsRanked fl ys
      → IsRanked fl (place (ranks_before fl) x ys)
  unfolding place
  place-IsRanked x [] h = (tt, tt)
  place-IsRanked x (y ∷ ys) (all, h) = elim (Bool-cases (ranks_before fl y x)) [
    | inl e ↦ rw e (All-place y x ys (ranks_before-Leads y x e) all, place-IsRanked x ys h)
    | inr e ↦
        let first = not_ranks_before-Leads y x e in
        rw e ((first, All-Leads-trans x y ys first all), (all, h))
  ]

  sort_stable-IsRanked :
      (rs : List (BreakdownRow F)) → IsRanked fl (sort_stable (ranks_before fl) rs)
  unfolding sort_stable
  sort_stable-IsRanked [] = tt
  sort_stable-IsRanked (r ∷ rs) = place-IsRanked r _ (sort_stable-IsRanked rs)

  -- Where the comparisons of the costs are those of floats that are no NaN, every row of the
  -- breakdown costs more than each later one, or the same with a key that is not the greater.
  pub aggregate-IsRanked :
      (events : List (Event F)) (g : GroupBy) → IsRanked fl (aggregate fl events g).breakdown
  unfolding aggregate
  aggregate-IsRanked events g = sort_stable-IsRanked _

module _ {F : Type 0} where
  -- The install has a name, and an event comes from it.
  abbrev pub reports : List (Event F) → Text → Bool
  reports es m = not (m == []) && any (λ e. e.machine == m) es

module _ {F : Type 0} (fl : Float64 F) where
  tally_all-machines :
      (g : GroupBy) (t : Tally F) (es : List (Event F))
      → HasNoRepeats t.machines
      → HasNoRepeats (tally_all fl g t es).machines
        × ((m : Text)
            → member m (tally_all fl g t es).machines ≡ (member m t.machines || reports es m))
  unfolding tally_all tally
  tally_all-machines g t [] h = (h, λ m. ground arith)
  tally_all-machines g t (e ∷ es) h =
      let next : HasNoRepeats (tally fl g t e).machines =
        ground (arith, add_member-HasNoRepeats e.machine t.machines h) in
      let (distinct, same) = tally_all-machines g (tally fl g t e) es next in
      (
        distinct,
        λ m. ground (
          arith,
          same m,
          ==_iff e.machine m,
          ==_iff e.machine [],
          ==_iff m [],
          member-add_member e.machine m t.machines,
        ),
      )

  -- The number of reporting installs is that of the distinct machines, the empty name left out, of
  -- all events, shown in the breakdown or not.
  pub aggregate_installs :
      (events : List (Event F)) (g : GroupBy)
      → (machines : List Text) × (length machines ≡ (aggregate fl events g).reporting_installs)
        × HasNoRepeats machines
        × ((m : Text) → member m machines ≡ reports events m)
  unfolding aggregate member
  aggregate_installs events g =
      let t : Tally F = record { totals = no_totals fl; machines = []; by_key = [] } in
      let (distinct, same) = tally_all-machines g t events tt in
      ((tally_all fl g t events).machines, refl, distinct, same)
