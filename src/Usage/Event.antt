-- ===== src/Usage/Event.antt =====
-- Usage events and the dimensions that they are broken down by (internal/domain/usage: repo.go,
-- service.go, summary.go).
use my_token.Base.{
  ℕ, Text, codes, ◌==◌, Bool, ◌∷◌, ◌++◌, Option, none, some, add_int64, if◌then◌else◌,
}

-- `time.Time` as nanoseconds since Go's zero time, in UTC.
abbrev pub Time : Type 0
Time = ℕ

pub record Event (F : Type 0) : Type 0 where
  pub id : Text
  pub session_id : Text
  pub actor : Text
  pub path : Text
  pub machine : Text
  pub model : Text
  pub scan_root : Text
  pub input_tokens : ℕ
  pub output_tokens : ℕ
  pub cache_read_input_tokens : ℕ
  pub cache_creation_input_tokens : ℕ
  pub cost : F
  pub source : Text
  pub created_at : Time

-- What a collector reports: no cost and no source.
pub record IngestEvent : Type 0 where
  pub id : Text
  pub session_id : Text
  pub actor : Text
  pub path : Text
  pub machine : Text
  pub model : Text
  pub scan_root : Text
  pub input_tokens : ℕ
  pub output_tokens : ℕ
  pub cache_read_input_tokens : ℕ
  pub cache_creation_input_tokens : ℕ
  pub timestamp : Time

pub record Filter : Type 0 where
  pub machine : Text
  pub scan_root : Text

pub data GroupBy : Type 0 where
  actor path machine : GroupBy

abbrev pub colon : ℕ
colon = b':'

module _ {F : Type 0} where
  -- `GroupBy.keyFor`
  unfoldable pub key_for : GroupBy → Event F → Text
  key_for GroupBy.actor e = e.machine ++ colon ∷ e.actor
  key_for GroupBy.path e = e.machine ++ colon ∷ e.path
  key_for GroupBy.machine e = e.machine

  unfoldable pub excluded_from_path_breakdown : Event F → Bool
  excluded_from_path_breakdown e = e.path == e.actor

  unfoldable pub tokens_for : Event F → ℕ
  tokens_for e =
      add_int64 (add_int64 (add_int64 e.input_tokens e.output_tokens) e.cache_read_input_tokens)
        e.cache_creation_input_tokens

-- `ParseGroupBy`
unfoldable pub parse_group_by : Text → Option GroupBy
parse_group_by s =
    if s == codes "actor"
    then some GroupBy.actor
    else if s == codes "path"
    then some GroupBy.path
    else if s == codes "machine"
    then some GroupBy.machine
    else none
