-- ===== src/Collector/Transcript.antt =====
-- Usage rows from the lines of a transcript (internal/collector/transcript.go). What encoding/json
-- and `time.Parse` make of a line is an argument.
pub mod Rows
use my_token.Base.{
  ℕ, Text, ◌==◌, Bool, true, false, ◌||◌, List, [], ◌∷◌, Option, none, some, member, add_member,
  if◌then◌else◌,
}
use my_token.Usage.Event.{Time}

pub record RawUsage : Type 0 where
  pub input_tokens : ℕ
  pub output_tokens : ℕ
  pub cache_read_input_tokens : ℕ
  pub cache_creation_input_tokens : ℕ

-- `none` is the nil pointer.
pub record RawMessage : Type 0 where
  pub id : Text
  pub model : Text
  pub usage : Option RawUsage

pub record RawRecord : Type 0 where
  pub uuid : Text
  pub session_id : Text
  pub cwd : Text
  pub timestamp : Text
  pub message : Option RawMessage

pub record UsageRow : Type 0 where
  pub message_id : Text
  pub session_id : Text
  pub cwd : Text
  pub model : Text
  pub input_tokens : ℕ
  pub output_tokens : ℕ
  pub cache_read_input_tokens : ℕ
  pub cache_creation_input_tokens : ℕ
  pub timestamp : Time

-- The row of a record that counts: it has a message with usage and an id.
unfoldable pub row_of : (Text → Time) → RawRecord → Option UsageRow
row_of parse_time rec = elim rec.message [
  | none ↦ none
  | some message ↦ elim message.usage [
    | none ↦ none
    | some usage ↦
        if message.id == []
        then none
        else some (record {
          message_id = message.id;
          session_id = rec.session_id;
          cwd = rec.cwd;
          model = message.model;
          input_tokens = usage.input_tokens;
          output_tokens = usage.output_tokens;
          cache_read_input_tokens = usage.cache_read_input_tokens;
          cache_creation_input_tokens = usage.cache_creation_input_tokens;
          timestamp = parse_time rec.timestamp;
        })
  ]
]

module _ (decode : Text → Option RawRecord) (parse_time : Text → Time) where
  -- One line: empty, malformed and irrelevant lines give nothing.
  unfoldable pub row_of_line : Text → Option UsageRow
  unfolding row_of
  row_of_line line =
      if line == []
      then none
      else elim (decode line) [ none ↦ none | some rec ↦ row_of parse_time rec ]

  -- The loop, with `seen`.
  unfoldable pub extract_from : List Text → List Text → List UsageRow
  extract_from seen [] = []
  extract_from seen (line ∷ lines) = elim (row_of_line line) [
    | none ↦ extract_from seen lines
    | some row ↦
        let rest = extract_from (add_member row.message_id seen) lines in
        let skip = extract_from seen lines in
        if member row.message_id seen then skip else row ∷ rest
  ]

  unfoldable pub extract_usage_rows : List Text → List UsageRow
  unfolding extract_from
  extract_usage_rows lines = extract_from [] lines
