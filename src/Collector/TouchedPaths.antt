-- ===== src/Collector/TouchedPaths.antt =====
-- Paths that a session touched (internal/collector/touchedpaths.go, with expandHome of scan.go).
use my_token.Base.{
  ℕ, Text, codes, ◌==◌, eqb, has_prefix, Bool, not, ◌&&◌, ◌||◌, List, [], ◌∷◌, ◌++◌, Option, none,
  some, if◌then◌else◌,
}
use mathlib.Core.List.{reverse}

-- What encoding/json makes of bytes, the home directory and `filepath.Join`.
pub record ToolUseBlock : Type 0 where
  pub block_type : Text
  pub name : Text
  pub input : Text

pub record Decoders : Type 0 where
  -- The bytes of `message.content`; `none` for an error, no message or no content.
  pub content : Text → Option Text
  pub blocks : Text → Option (List ToolUseBlock)
  -- A string field of an object, empty where it is absent; `none` for an error.
  pub string_field : Text → Text → Option Text
  pub session_id : Text → Option Text
  pub home : Option Text
  pub join : Text → Text → Text

-- `\s`
abbrev pub is_space : ℕ → Bool
is_space c = eqb c 9 || eqb c 10 || eqb c 12 || eqb c 13 || eqb c 32

unfoldable pub skip_spaces : Text → Text
skip_spaces [] = []
skip_spaces (c ∷ t) = if is_space c then skip_spaces t else c ∷ t

-- `\s*(?:&&|;)` at the start
unfoldable pub closes : Text → Bool
unfolding skip_spaces
closes t = has_prefix (skip_spaces t) (codes "&&") || has_prefix (skip_spaces t) (codes ";")

-- `(\S+)\s*(?:&&|;)` at the start: the longest run that the rest allows.
unfoldable pub target_of : Text → Option Text
target_of [] = none
target_of (c ∷ t) = if is_space c then none else elim (target_of t) [
  | some p ↦ some (c ∷ p)
  | none ↦ if closes t then some (c ∷ []) else none
]

-- `cdPrefixPattern`: the submatch.
unfoldable pub after_cd : Text → Option Text
after_cd (c ∷ d ∷ s ∷ t) =
    if eqb c b'c' && eqb d b'd' && is_space s then target_of (skip_spaces t) else none
after_cd _ = none

unfoldable pub cd_prefix_pattern : Text → Option Text
unfolding after_cd
cd_prefix_pattern command = after_cd (skip_spaces command)

abbrev pub is_quote : ℕ → Bool
is_quote c = eqb c b'"' || eqb c 39

unfoldable pub trim_left_quotes : Text → Text
trim_left_quotes [] = []
trim_left_quotes (c ∷ t) = if is_quote c then trim_left_quotes t else c ∷ t

-- strings.Trim(s, `"'`)
unfoldable pub trim_quotes : Text → Text
unfolding trim_left_quotes
trim_quotes s = reverse (trim_left_quotes (reverse (trim_left_quotes s)))

-- `isScratchPath`
unfoldable pub is_scratch_path : Text → Bool
is_scratch_path p = p == codes "/tmp" || has_prefix p (codes "/tmp/")

-- `strings.TrimPrefix(path, "~/")`, where the prefix is there
abbrev after_tilde : Text → Text
after_tilde (a ∷ b ∷ rest) = rest
after_tilde rest = rest

module _ (dec : Decoders) where
  unfoldable pub expand_home : Text → Text
  expand_home path =
      if not (path == codes "~") && not (has_prefix path (codes "~/"))
      then path
      else elim dec.home [
        | none ↦ path
        | some home ↦ if path == codes "~" then home else dec.join home (after_tilde path)
      ]

  unfoldable pub extract_cd_path : Text → Option Text
  unfolding expand_home trim_quotes
  extract_cd_path command = elim (cd_prefix_pattern command) [
    | none ↦ none
    | some m ↦
        let target = trim_quotes m in
        if not (has_prefix target (codes "/")) && not (has_prefix target (codes "~"))
        then none
        else some (expand_home target)
  ]

  -- The field, if it decodes and is not empty.
  unfoldable pub field_of : Text → ToolUseBlock → Option Text
  field_of name b = elim (dec.string_field name b.input) [
    | none ↦ none
    | some v ↦ if v == [] then none else some v
  ]

  unfoldable pub touched_path_from_block : ToolUseBlock → Option Text
  unfolding field_of extract_cd_path
  touched_path_from_block b =
      if b.name == codes "Read" || b.name == codes "Write" || b.name == codes "Edit"
      then field_of (codes "file_path") b
      else if b.name == codes "Glob"
      then field_of (codes "path") b
      else if b.name == codes "Bash"
      then elim (field_of (codes "command") b) [ none ↦ none | some c ↦ extract_cd_path c ]
      else none

  unfoldable pub paths_of_blocks : List ToolUseBlock → List Text
  unfolding touched_path_from_block
  paths_of_blocks [] = []
  paths_of_blocks (b ∷ bs) =
      let rest = paths_of_blocks bs in
      if not (b.block_type == codes "tool_use")
      then rest
      else elim (touched_path_from_block b) [ none ↦ rest | some p ↦ p ∷ rest ]

  unfoldable pub paths_of_line : Text → List Text
  unfolding paths_of_blocks
  paths_of_line line = if line == [] then [] else elim (dec.content line) [
    | none ↦ []
    | some content ↦ elim (dec.blocks content) [ none ↦ [] | some bs ↦ paths_of_blocks bs ]
  ]

  unfoldable pub extract_touched_paths : List Text → List Text
  extract_touched_paths [] = []
  extract_touched_paths (line ∷ lines) = paths_of_line line ++ extract_touched_paths lines

  unfoldable pub first_session_id : List Text → Option Text
  first_session_id [] = none
  first_session_id (line ∷ lines) =
      let rest = first_session_id lines in
      if line == []
      then rest
      else elim (dec.session_id line) [ none ↦ rest | some id ↦ if id == [] then rest else some id ]
