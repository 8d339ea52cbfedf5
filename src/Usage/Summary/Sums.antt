-- ===== src/Usage/Summary/Sums.antt =====
-- What `Aggregate` sums over all events (internal/domain/usage/summary.go).
use my_token.Base.{ℕ, ◌+◌, ◌%◌, ◌^◌, ◌<◌, ◌≡◌, refl, List, [], ◌∷◌, foldl, length, arith}
use my_token.Usage.Floats.{Float64}
use my_token.Usage.Event.{Event, GroupBy, tokens_for}
use my_token.Usage.Summary.{Tally, add_totals, tally, tally_all, zero_float, no_totals, aggregate}

module _ {F : Type 0} where
  -- The exact sum of the four counters.
  abbrev pub sum_tokens : List (Event F) → ℕ
  sum_tokens [] = 0
  sum_tokens (e ∷ es) =
      (e.input_tokens + e.output_tokens + e.cache_read_input_tokens + e.cache_creation_input_tokens)
      + sum_tokens es

module _ {F : Type 0} (fl : Float64 F) where
  tally_all-tokens :
      (g : GroupBy) (t : Tally F) (es : List (Event F))
      → (tally_all fl g t es).totals.tokens % 2 ^ 64 ≡ (t.totals.tokens + sum_tokens es) % 2 ^ 64
  unfolding tally_all tally add_totals tokens_for
  tally_all-tokens g t [] = omega arith
  tally_all-tokens g t (e ∷ es) = omega (arith, tally_all-tokens g (tally fl g t e) es)

  tally_all-turns :
      (g : GroupBy) (t : Tally F) (es : List (Event F))
      → (tally_all fl g t es).totals.turns % 2 ^ 64 ≡ (t.totals.turns + length es) % 2 ^ 64
  unfolding tally_all tally add_totals
  tally_all-turns g t [] = omega arith
  tally_all-turns g t (e ∷ es) = omega (arith, tally_all-turns g (tally fl g t e) es)

  tally_all-cost :
      (g : GroupBy) (t : Tally F) (es : List (Event F))
      → (tally_all fl g t es).totals.cost ≡ foldl (λ c e. fl.plus c e.cost) t.totals.cost es
  unfolding tally_all tally add_totals
  tally_all-cost g t [] = refl
  tally_all-cost g t (e ∷ es) = tally_all-cost g (tally fl g t e) es

  -- Both counters stay words.
  tally_all_words :
      (g : GroupBy) (t : Tally F) (es : List (Event F))
      → t.totals.tokens < 2 ^ 64
      → t.totals.turns < 2 ^ 64
      → ((tally_all fl g t es).totals.tokens < 2 ^ 64)
        × ((tally_all fl g t es).totals.turns < 2 ^ 64)
  unfolding tally_all tally add_totals
  tally_all_words g t [] h k = (h, k)
  tally_all_words g t (e ∷ es) h k =
      tally_all_words g (tally fl g t e) es (omega arith) (omega arith)

  -- Whatever the dimension, the totals count every event: the tokens are the exact sum of all four
  -- counters and the turns the number of events, both reduced to a word, and the cost is the sum
  -- of the costs in the order of the events.
  pub aggregate_totals :
      (events : List (Event F)) (g : GroupBy)
      → ((aggregate fl events g).totals.tokens ≡ sum_tokens events % 2 ^ 64)
        × ((aggregate fl events g).totals.turns ≡ length events % 2 ^ 64)
        × ((aggregate fl events g).totals.cost
            ≡ foldl (λ c e. fl.plus c e.cost) (zero_float fl) events)
  unfolding aggregate
  aggregate_totals events g =
      let t : Tally F = record { totals = no_totals fl; machines = []; by_key = [] } in
      let words = tally_all_words g t events (omega arith) (omega arith) in
      (
        omega (arith, tally_all-tokens g t events),
        omega (arith, tally_all-turns g t events),
        tally_all-cost g t events,
      )
