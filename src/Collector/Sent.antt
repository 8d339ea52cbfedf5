-- ===== src/Collector/Sent.antt =====
-- Which messages were sent (internal/collector/state.go). The set is a list; the order in which
-- `Save` writes it is that of the list. JSON is an argument: `decode` of a file's bytes gives the
-- ids or an error, `encode` makes the bytes.
use my_token.Base.{
  Text, Bool, not, List, [], ◌∷◌, member, add_member, filter, Option, none, some, if◌then◌else◌,
}
use my_token.Collector.Transcript.{UsageRow}

-- What `os.ReadFile` finds.
pub data SentFile : Type 0 where
  not_exist unreadable : SentFile
  content : Text → SentFile

unfoldable pub load_ids : List Text → List Text → List Text
load_ids ids [] = ids
load_ids ids (id ∷ more) = load_ids (add_member id ids) more

unfoldable pub load_sent_state : (Text → Option (List Text)) → SentFile → Option (List Text)
unfolding load_ids
load_sent_state decode not_exist = some []
load_sent_state decode unreadable = none
load_sent_state decode (content raw) = elim (decode raw) [
  | none ↦ none
  | some ids ↦ some (load_ids [] ids)
]

unfoldable pub sent : List Text → Text → Bool
sent ids message_id = member message_id ids

unfoldable pub mark_sent : List Text → Text → List Text
mark_sent ids message_id = add_member message_id ids

unfoldable pub filter_unsent : List Text → List UsageRow → List UsageRow
unfolding sent
filter_unsent ids rows = filter (λ r. not (sent ids r.message_id)) rows

-- `none` where the file cannot be written
unfoldable pub save : (List Text → Text) → Bool → List Text → Option SentFile
save encode writes ids = if writes then some (content (encode ids)) else none
