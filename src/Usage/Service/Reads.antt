-- ===== src/Usage/Service/Reads.antt =====
-- The two read endpoints of the console (internal/domain/usage/service.go, Summary and Windows).
use mathlib.Core.Path.{subst}
use my_token.Base.{
  Text, ◌==◌, ==_iff, Map, lookup, Bool-cases, ◌≡◌, refl, ap, inl, inr, List, [], ◌∷◌, map, filter,
  All, some, arith, ok, err, Result-cases, Option-cases,
}
use my_token.Usage.Floats.{Float64}
use my_token.Usage.Event.{Event, Filter, GroupBy, Time}
use my_token.Usage.Summary.{Totals, Tally, SummaryResult, tally, tally_all, add_totals, aggregate}
use my_token.Usage.Window.{all_windows, window_bounds}
use my_token.Usage.Repo.{Driver, unknown_window, query_failed, Tables}
use my_token.Usage.Repo.Filters.{HasPlainMachine, is_wanted, list_events_in_window_lem}
use my_token.Usage.Service.{Repository, repo, substitute_hostnames, summary, windows_from, windows}

module _ {F : Type 0} (fl : Float64 F) where
  tally_all-totals :
      (g h : GroupBy) (t u : Tally F) (es : List (Event F))
      → t.totals ≡ u.totals
      → (tally_all fl g t es).totals ≡ (tally_all fl h u es).totals
  unfolding tally_all tally
  tally_all-totals g h t u [] e = e
  tally_all-totals g h t u (x ∷ es) e =
      tally_all-totals g h (tally fl g t x) (tally fl h u x) es (ap (λ s. add_totals fl s x) e)

  -- The dimension plays no part in the totals.
  aggregate-totals :
      (g h : GroupBy) (es : List (Event F))
      → (aggregate fl es g).totals ≡ (aggregate fl es h).totals
  unfolding aggregate
  aggregate-totals g h es = tally_all-totals g h _ _ es refl

module _ {F S : Type 0} (r : Repository F S) (fl : Float64 F) (f : Filter) (now : Time)
    (s : S) where
  -- Every summary of the window that succeeds has these totals.
  abbrev AgreesWithSummary : Text × Totals F → Type 0
  AgreesWithSummary (w, totals) =
      (g : GroupBy) (res : SummaryResult F)
      → summary r fl w g f now s ≡ ok res
      → res.totals ≡ totals

  summary-totals :
      (w : Text) (start end : Time) (events : List (Event F))
      → window_bounds w now ≡ some (start, end)
      → r.list_events_in_window start end f s ≡ ok events
      → AgreesWithSummary (w, (aggregate fl events GroupBy.actor).totals)
  unfolding summary
  summary-totals w start end events bounds listed g res e =
      let rows = (aggregate fl events g).breakdown in
      elim (Result-cases (substitute_hostnames r g rows s)) [
        | inr (x, failed) ↦
            let run : summary r fl w g f now s ≡ err x =
              rw (bounds, summary) (rw listed (rw failed refl)) in
            cc
        | inl (b, done) ↦
            let run : summary r fl w g f now s
                ≡ ok (record (aggregate fl events g) { breakdown = b }) =
              rw (bounds, summary) (rw listed (rw done refl)) in
            ground (arith, run, aggregate-totals fl g GroupBy.actor events)
      ]

  windows_from-All :
      (ws : List Text) (rows : List (Text × Totals F))
      → windows_from r fl ws f now s ≡ ok rows
      → (map (λ p. p.0) rows ≡ ws) × All AgreesWithSummary rows
  unfolding windows_from
  windows_from-All [] [] e = (refl, tt)
  windows_from-All [] (row ∷ rows) e = cc
  windows_from-All (w ∷ ws) rows e = elim (Option-cases (window_bounds w now)) [
    | inl unknown ↦
        let run : windows_from r fl (w ∷ ws) f now s ≡ err unknown_window =
          rw (unknown, windows_from) refl in
        cc
    | inr ((start, end), bounds) ↦ elim (Result-cases (r.list_events_in_window start end f s)) [
      | inr (x, failed) ↦
          let run : windows_from r fl (w ∷ ws) f now s ≡ err x =
            rw (bounds, windows_from) (rw failed refl) in
          cc
      | inl (events, listed) ↦ elim (Result-cases (windows_from r fl ws f now s)) [
        | inr (x, failed) ↦
            let run : windows_from r fl (w ∷ ws) f now s ≡ err x =
              rw (bounds, windows_from) (rw listed (rw failed refl)) in
            cc
        | inl (rest, later) ↦
            let totals = (aggregate fl events GroupBy.actor).totals in
            let run : windows_from r fl (w ∷ ws) f now s ≡ ok ((w, totals) ∷ rest) =
              rw (bounds, windows_from) (rw listed (rw later refl)) in
            let same : (w, totals) ∷ rest ≡ rows = cc in
            let (names, agree) = windows_from-All ws rest later in
            rw (← same)
              (ap (λ l. w ∷ l) names, (summary-totals w start end events bounds listed, agree))
      ]
    ]
  ]

-- What holds of every row holds of the one that is looked up.
lookup-All :
    {V : Type 0} (P : Text × V → Type 0) (k : Text) (v : V) (rows : Map V)
    → All P rows
    → lookup k rows ≡ some v
    → P (k, v)
unfolding lookup
lookup-All P k v [] _ e = ground (arith, e)
lookup-All P k v ((j, u) ∷ rows) (p, ps) e = elim (Bool-cases (j == k)) [
  | inr h ↦ lookup-All P k v rows ps (ground (arith, e, h))
  | inl h ↦
      let same : u ≡ v = ground (arith, e, h) in
      subst (λ x. P (k, x)) same (subst (λ x. P (x, u)) ((==_iff j k).0 h) p)
]

-- A table that the windows endpoint gives has one row for each of the fixed windows, in their
-- order, and the totals of a row are those of a summary of its window that succeeds under the same
-- filter, instant and data, whatever its dimension.
pub windows_totals :
    {F S : Type 0} (r : Repository F S) (fl : Float64 F) (f : Filter) (now : Time) (s : S)
    (rows : Map (Totals F)) (w : Text) (totals : Totals F) (g : GroupBy) (res : SummaryResult F)
    → windows r fl f now s ≡ ok rows
    → lookup w rows ≡ some totals
    → summary r fl w g f now s ≡ ok res
    → (map (λ p. p.0) rows ≡ all_windows) × (res.totals ≡ totals)
unfolding windows
windows_totals r fl f now s rows w totals g res e row done =
    let (names, agree) = windows_from-All r fl f now s all_windows rows e in
    (names, lookup-All (AgreesWithSummary r fl f now s) w totals rows agree row g res done)

-- A summary over the real tables, where no install id holds a colon: its totals and the number of
-- reporting installs are those of exactly the stored events that the window and the filters admit.
pub summary_scope :
    {F : Type 0} (fl : Float64 F) (drv : Driver) (w : Text) (g : GroupBy) (f : Filter)
    (now start end : Time) (t : Tables F) (res : SummaryResult F)
    → All HasPlainMachine t.usage_events
    → window_bounds w now ≡ some (start, end)
    → summary (repo drv) fl w g f now t ≡ ok res
    → let scope = aggregate fl (filter (is_wanted start end f) t.usage_events) g in
      (res.totals ≡ scope.totals) × (res.reporting_installs ≡ scope.reporting_installs)
unfolding summary
summary_scope fl drv w g f now start end t res plain bounds e =
    elim (list_events_in_window_lem drv start end f t.usage_events plain) [
      | inr (_, failed) ↦
          let run : summary (repo drv) fl w g f now t ≡ err query_failed =
            rw (bounds, summary) (rw failed refl) in
          cc
      | inl listed ↦
          let scope = aggregate fl (filter (is_wanted start end f) t.usage_events) g in
          elim (Result-cases (substitute_hostnames (repo drv) g scope.breakdown t)) [
            | inr (x, failed) ↦
                let run : summary (repo drv) fl w g f now t ≡ err x =
                  rw (bounds, summary) (rw listed (rw failed refl)) in
                cc
            | inl (b, done) ↦
                let run : summary (repo drv) fl w g f now t ≡ ok (record scope { breakdown = b }) =
                  rw (bounds, summary) (rw listed (rw done refl)) in
                ground (arith, run)
          ]
    ]
