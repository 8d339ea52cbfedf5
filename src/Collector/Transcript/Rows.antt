-- ===== src/Collector/Transcript/Rows.antt =====
-- Deduplication by message id (internal/collector/transcript.go, ExtractUsageRows).
use my_token.Base.{Text, ◌==◌, ◌≡◌, List, [], ◌∷◌, Option, none, some, if◌then◌else◌}
use my_token.Usage.Event.{Time}
use my_token.Collector.Transcript.{RawRecord, UsageRow, row_of_line}

abbrev pub find_message : Text → List UsageRow → Option UsageRow
find_message id [] = none
find_message id (r ∷ rs) = if r.message_id == id then some r else find_message id rs

abbrev pub HasDistinctMessages : List UsageRow → Type 0
HasDistinctMessages [] = Unit
HasDistinctMessages (r ∷ rs) = (find_message r.message_id rs ≡ none) × HasDistinctMessages rs

module _ (decode : Text → Option RawRecord) (parse_time : Text → Time) where
  abbrev pub row_with : Text → Option UsageRow → Option UsageRow → Option UsageRow
  row_with id none later = later
  row_with id (some row) later = if row.message_id == id then some row else later

  -- The row of the first line that carries the message id.
  abbrev pub first_row : Text → List Text → Option UsageRow
  first_row id [] = none
  first_row id (line ∷ lines) =
      row_with id (row_of_line decode parse_time line) (first_row id lines)
