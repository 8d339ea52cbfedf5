-- ===== src/Usage/Machines.antt =====
-- The lifetime summaries of machines (internal/domain/usage: repo.go and service.go, with the
-- statement of db/queries/machines.sql). The two sums of the database are arguments.
use my_token.Base.{
  ℕ, Text, ◌==◌, ltb, List, [], ◌∷◌, map, filter, length, add_member, if◌then◌else◌, Result, ok,
  err,
}
use my_token.Usage.Floats.{Float64}
use my_token.Usage.Event.{Event, Time}
use my_token.Usage.Summary.{sort_stable, zero_float}
use my_token.Usage.Repo.{Driver, Failure, query_failed, MachineRow, Tables}

-- A column that sqlc types as `interface{}`.
pub data Numeric (F : Type 0) : Type 0 where
  float : F → Numeric F
  integer : ℕ → Numeric F
  other : Numeric F

-- `SUM` over the costs and over the four token columns of some rows, and Go's conversions between
-- int64 and float64.
pub record Sums (F : Type 0) : Type 0 where
  pub sum_cost : List (Event F) → Numeric F
  pub sum_tokens : List (Event F) → Numeric F
  pub to_float : ℕ → F
  pub to_integer : F → ℕ

-- `ListMachineSummariesRow`
pub record MachineSummaryRow (F : Type 0) : Type 0 where
  pub install_id : Text
  pub hostname : Text
  pub last_seen_at : Time
  pub lifetime_cost : Numeric F
  pub lifetime_tokens : Numeric F
  pub collected_paths : ℕ
  pub collected_actors : ℕ

pub record MachineSummary (F : Type 0) : Type 0 where
  pub install_id : Text
  pub hostname : Text
  pub last_seen_at : Time
  pub lifetime_cost : F
  pub lifetime_tokens : ℕ
  pub collected_paths : ℕ
  pub collected_actors : ℕ

-- `COUNT(DISTINCT …)`
unfoldable pub distinct : List Text → List Text
distinct [] = []
distinct (x ∷ xs) = add_member x (distinct xs)

module _ {F : Type 0} (fl : Float64 F) (sums : Sums F) where
  unfoldable pub numeric_to_float64 : Numeric F → F
  numeric_to_float64 (float n) = n
  numeric_to_float64 (integer n) = sums.to_float n
  numeric_to_float64 other = zero_float fl

  unfoldable pub numeric_to_int64 : Numeric F → ℕ
  numeric_to_int64 (integer n) = n
  numeric_to_int64 (float n) = sums.to_integer n
  numeric_to_int64 other = 0

  -- `COALESCE(…, 0)`: a sum over no rows is NULL.
  unfoldable pub coalesce : (List (Event F) → Numeric F) → List (Event F) → Numeric F
  coalesce sum [] = integer 0
  coalesce sum (e ∷ es) = sum (e ∷ es)

  -- The group of a machine in the statement.
  unfoldable pub machine_group : List (Event F) → MachineRow → MachineSummaryRow F
  unfolding coalesce distinct
  machine_group events m =
      let own = filter (λ e. e.machine == m.install_id) events in
      record {
        install_id = m.install_id;
        hostname = m.hostname;
        last_seen_at = m.last_seen_at;
        lifetime_cost = coalesce sums.sum_cost own;
        lifetime_tokens = coalesce sums.sum_tokens own;
        collected_paths = length (distinct (map (λ e. e.path) own));
        collected_actors = length (distinct (map (λ e. e.actor) own));
      }

  unfoldable pub to_machine_summary : MachineSummaryRow F → MachineSummary F
  unfolding numeric_to_float64 numeric_to_int64
  to_machine_summary row = record {
    install_id = row.install_id;
    hostname = row.hostname;
    last_seen_at = row.last_seen_at;
    lifetime_cost = numeric_to_float64 row.lifetime_cost;
    lifetime_tokens = numeric_to_int64 row.lifetime_tokens;
    collected_paths = row.collected_paths;
    collected_actors = row.collected_actors;
  }

  -- `ListMachineSummaries`, and `MachineSummaries`, which passes it on.
  unfoldable pub machine_summaries : Driver → Tables F → Result Failure (List (MachineSummary F))
  unfolding machine_group to_machine_summary
  machine_summaries drv t =
      if drv.reads_machines
      then ok (
          map (λ m. to_machine_summary (machine_group t.usage_events m))
            (sort_stable (λ a b. ltb b.last_seen_at a.last_seen_at) t.machines))
      else err query_failed
