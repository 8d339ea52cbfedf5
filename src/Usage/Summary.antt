-- ===== src/Usage/Summary.antt =====
-- `Aggregate` (internal/domain/usage/summary.go). `byKey` and `order` are together one map that
-- keeps the order in which its keys came, which is what `Map` is.
pub mod Sums
pub mod Groups
pub mod Order
use my_token.Base.{
  ℕ, Text, ◌==◌, lt_text, Bool, true, false, not, ◌&&◌, List, [], ◌∷◌, map, Map, lookup, insert,
  add_member, Option, none, some, length, add_int64, if◌then◌else◌,
}
use my_token.Usage.Floats.{Float64}
use my_token.Usage.Event.{Event, GroupBy, key_for, excluded_from_path_breakdown, tokens_for}

pub record Totals (F : Type 0) : Type 0 where
  pub tokens : ℕ
  pub cost : F
  pub turns : ℕ

pub record BreakdownRow (F : Type 0) : Type 0 where
  pub key : Text
  pub raw_key : Text
  pub tokens : ℕ
  pub cost : F
  pub turns : ℕ

pub record SummaryResult (F : Type 0) : Type 0 where
  pub totals : Totals F
  pub breakdown : List (BreakdownRow F)
  pub reporting_installs : ℕ

-- The local variables of the loop.
pub record Tally (F : Type 0) : Type 0 where
  pub totals : Totals F
  pub machines : List Text
  pub by_key : Map (BreakdownRow F)

-- `sort.SliceStable` by `less`
module _ {A : Type 0} (less : A → A → Bool) where
  unfoldable pub place : A → List A → List A
  place x [] = x ∷ []
  place x (y ∷ ys) = if less y x then y ∷ place x ys else x ∷ y ∷ ys

  unfoldable pub sort_stable : List A → List A
  sort_stable [] = []
  sort_stable (x ∷ xs) = place x (sort_stable xs)

-- What the loop over `order` collects.
abbrev pub values : {V : Type 0} → Map V → List V
values m = map (λ p. p.1) m

abbrev pub is_path : GroupBy → Bool
is_path GroupBy.path = true
is_path _ = false

module _ {F : Type 0} (fl : Float64 F) where
  abbrev pub zero_float : F
  zero_float = fl.decimal 0 0

  abbrev pub no_totals : Totals F
  no_totals = record { tokens = 0; cost = zero_float; turns = 0 }

  abbrev pub new_row : Text → BreakdownRow F
  new_row key = record { key = key; raw_key = []; tokens = 0; cost = zero_float; turns = 0 }

  -- `totals.Tokens += tok; totals.Cost += e.Cost; totals.Turns++`
  unfoldable pub add_totals : Totals F → Event F → Totals F
  add_totals t e = record {
    tokens = add_int64 t.tokens (tokens_for e);
    cost = fl.plus t.cost e.cost;
    turns = add_int64 t.turns 1;
  }

  -- The same on a row.
  unfoldable pub add_row : BreakdownRow F → Event F → BreakdownRow F
  add_row r e = record r {
    tokens = add_int64 r.tokens (tokens_for e);
    cost = fl.plus r.cost e.cost;
    turns = add_int64 r.turns 1;
  }

  -- `row, ok := byKey[key]`, and the row that follows
  unfoldable pub row_at : Text → Map (BreakdownRow F) → BreakdownRow F
  row_at key m = elim (lookup key m) [ some row ↦ row | none ↦ new_row key ]

  -- `continue` skips an event that the path breakdown leaves out.
  unfoldable pub add_to_group : GroupBy → Map (BreakdownRow F) → Event F → Map (BreakdownRow F)
  add_to_group g m e =
      if is_path g && excluded_from_path_breakdown e
      then m
      else insert (key_for g e) (add_row (row_at (key_for g e) m) e) m

  -- One round of the loop.
  unfoldable pub tally : GroupBy → Tally F → Event F → Tally F
  tally g t e = record {
    totals = add_totals t.totals e;
    machines = if not (e.machine == []) then add_member e.machine t.machines else t.machines;
    by_key = add_to_group g t.by_key e;
  }

  unfoldable pub tally_all : GroupBy → Tally F → List (Event F) → Tally F
  tally_all g t [] = t
  tally_all g t (e ∷ es) = tally_all g (tally g t e) es

  -- The comparison that is handed to `sort.SliceStable`.
  unfoldable pub ranks_before : BreakdownRow F → BreakdownRow F → Bool
  ranks_before a b =
      if not (fl.same a.cost b.cost) then fl.less b.cost a.cost else lt_text a.key b.key

  unfoldable pub aggregate : List (Event F) → GroupBy → SummaryResult F
  unfolding tally_all
  aggregate events g =
      let t = tally_all g (record { totals = no_totals; machines = []; by_key = [] }) events in
      record {
        totals = t.totals;
        breakdown = sort_stable ranks_before (values t.by_key);
        reporting_installs = length t.machines;
      }
