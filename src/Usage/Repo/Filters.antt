-- ===== src/Usage/Repo/Filters.antt =====
-- The console filters (internal/domain/usage/repo.go, buildListEventsInWindowParams and
-- ListEventsInWindow).
use my_token.Base.{
  Text, ◌==◌, ==_iff, Bool, false, ◌&&◌, ◌||◌, ltb, leb, ◌≡◌, refl, ap, sym, ◌⊎◌, inl, inr, List,
  [], ◌∷◌, ◌++◌, All, filter, Option, none, some, cut-append, cut_lem, IsCut, Lacks, arith,
  Bool-cases, Option-cases, ok, err,
}
use my_token.Usage.Event.{Event, Filter, Time, colon}
use my_token.Usage.Repo.{
  Driver, query_failed, WindowParams, is_selected, split_scan_root_filter,
  build_list_events_in_window_params, list_events_in_window,
}

module _ {F : Type 0} where
  -- The composite that names an event's scan root on the wire.
  abbrev pub scan_root_key : Event F → Text
  scan_root_key e = e.machine ++ colon ∷ e.scan_root

  -- An event that the window and both filters admit; an empty filter admits every event.
  abbrev pub is_wanted : Time → Time → Filter → Event F → Bool
  is_wanted start end f e =
      leb start e.created_at
      && ltb e.created_at end
      && (f.machine == [] || e.machine == f.machine)
      && (f.scan_root == [] || scan_root_key e == f.scan_root)

  -- Install ids hold no colon; those that a collector makes are UUIDs.
  abbrev pub HasPlainMachine : Event F → Type 0
  HasPlainMachine e = Lacks colon e.machine

  -- A composite splits at the colon behind the install id.
  split-scan_root_key :
      (e : Event F)
      → HasPlainMachine e
      → split_scan_root_filter (scan_root_key e) ≡ some (e.machine, e.scan_root)
  unfolding split_scan_root_filter
  split-scan_root_key e h = cut-append colon e.machine e.scan_root h

  split_matches :
      (e : Event F) (s i p : Text)
      → HasPlainMachine e
      → split_scan_root_filter s ≡ some (i, p)
      → (e.machine == i && e.scan_root == p) ≡ (scan_root_key e == s)
  unfolding split_scan_root_filter
  split_matches e s i p h q =
      let parts : IsCut colon s (some (i, p)) = rw q at (cut_lem colon s) in
      ground (
        arith,
        ==_iff e.machine i,
        ==_iff e.scan_root p,
        ==_iff (scan_root_key e) s,
        parts.0,
        split-scan_root_key e h,
      )

  split_misses :
      (e : Event F) (s : Text)
      → HasPlainMachine e
      → split_scan_root_filter s ≡ none
      → (scan_root_key e == s) ≡ false
  split_misses e s h q = elim (Bool-cases (scan_root_key e == s)) [
    | inr other ↦ other
    | inl same ↦ cc (split-scan_root_key e h, (==_iff (scan_root_key e) s).0 same)
  ]

  -- Filtering by two tests that agree on every listed event.
  filter_agree :
      (p q : Event F → Bool) (es : List (Event F))
      → All (λ e. p e ≡ q e) es
      → filter p es ≡ filter q es
  filter_agree p q [] h = refl
  filter_agree p q (e ∷ es) h = rw (h.0, filter_agree p q es h.1)

  filter_none :
      (p : Event F → Bool) (es : List (Event F)) → All (λ e. p e ≡ false) es → filter p es ≡ []
  filter_none p [] h = refl
  filter_none p (e ∷ es) h = rw h.0 (filter_none p es h.1)

  All-map_to :
      (P Q : Event F → Type 0) (es : List (Event F))
      → ((e : Event F) → P e → Q e)
      → All P es
      → All Q es
  All-map_to P Q [] f h = tt
  All-map_to P Q (e ∷ es) f h = (f e h.0, All-map_to P Q es f h.1)

  -- What the built parameters select.
  abbrev Selects : Time → Time → Filter → Option WindowParams → Event F → Type 0
  Selects start end f none e = is_wanted start end f e ≡ false
  Selects start end f (some p) e = is_selected p e ≡ is_wanted start end f e

  build-Selects :
      (start end : Time) (f : Filter) (e : Event F)
      → HasPlainMachine e
      → Selects start end f (build_list_events_in_window_params start end f) e
  unfolding build_list_events_in_window_params
  build-Selects start end f e h = elim (Option-cases (split_scan_root_filter f.scan_root)) [
    | inl malformed ↦ ground (arith, split_misses e f.scan_root h malformed)
    | inr ((i, p), parts) ↦ ground (arith, split_matches e f.scan_root i p h parts)
  ]

  -- Where no install id holds a colon, a listing gives exactly the events of the half-open window
  -- that both filters admit: the machine filter by the install id, the scan root filter by the
  -- event's own composite. It fails only where the query does.
  pub list_events_in_window_lem :
      (drv : Driver) (start end : Time) (f : Filter) (rows : List (Event F))
      → All HasPlainMachine rows
      → (list_events_in_window drv start end f rows ≡ ok (filter (is_wanted start end f) rows))
        ⊎ ((drv.reads_events ≡ false)
            × (list_events_in_window drv start end f rows ≡ err query_failed))
  unfolding list_events_in_window
  list_events_in_window_lem drv start end f rows plain =
      let selects = λ (e : Event F) (h : HasPlainMachine e). build-Selects start end f e h in
      elim (Option-cases (build_list_events_in_window_params start end f)) [
        | inl none' ↦ inl (
            rw (none', list_events_in_window)
              (ap ok (
                sym (
                  filter_none _ rows
                    (All-map_to HasPlainMachine _ rows (λ e h. rw none' at (selects e h)) plain)))))
        | inr (p, built) ↦ elim (Bool-cases drv.reads_events) [
          | inr fails ↦ inr (fails, rw (built, list_events_in_window) (rw fails refl))
          | inl reads ↦ inl (
              rw (built, list_events_in_window)
                (rw reads (
                  ap ok (
                    filter_agree _ _ rows (
                      All-map_to HasPlainMachine _ rows (λ e h. rw built at (selects e h))
                        plain)))))
        ]
      ]
