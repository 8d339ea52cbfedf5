-- ===== src/Collector/Scan.antt =====
-- The transcript files (internal/collector/scan.go). `os.Stat` and `filepath.Walk` are arguments.
use my_token.Base.{
  Text, codes, ◌==◌, has_prefix, Bool, List, [], ◌∷◌, ◌++◌, Option, none, some, if◌then◌else◌,
}
use mathlib.Core.List.{reverse}
use my_token.Collector.TouchedPaths.{Decoders, expand_home}

abbrev pub default_source_type : Text
default_source_type = codes "claude_code"

-- `ScanPath` of internal/collector/config.go
pub record ScanPath : Type 0 where
  pub path : Text
  pub name : Text
  pub source_type : Text

pub record ScannedFile : Type 0 where
  pub path : Text
  pub scan_root : Text
  pub name : Text
  pub source_type : Text

-- What `os.Stat` says of a scan root.
pub data RootStat : Type 0 where
  is_missing stat_failed is_file is_dir : RootStat

-- `walk root` gives the entries in order, each with `fi.IsDir()`; `none` for an error.
pub record Disk : Type 0 where
  pub stat : Text → RootStat
  pub walk : Text → Option (List (Text × Bool))

-- `strings.HasSuffix(path, ".jsonl")`
unfoldable pub is_transcript : Text → Bool
is_transcript path = has_prefix (reverse path) (reverse (codes ".jsonl"))

-- The function that is handed to `filepath.Walk`, over all entries.
unfoldable pub files_of : Text → ScanPath → List (Text × Bool) → List ScannedFile
unfolding is_transcript
files_of root sp [] = []
files_of root sp ((path, dir) ∷ entries) =
    let rest = files_of root sp entries in
    if dir
    then rest
    else if is_transcript path
    then (record {
      path = path;
      scan_root = root;
      name = sp.name;
      source_type = if sp.source_type == [] then default_source_type else sp.source_type;
    })
      ∷ rest
    else rest

unfoldable pub find_transcript_files : Decoders → Disk → List ScanPath → Option (List ScannedFile)
unfolding files_of
find_transcript_files dec disk [] = some []
find_transcript_files dec disk (sp ∷ scan_paths) =
    let root = expand_home dec sp.path in
    let rest = find_transcript_files dec disk scan_paths in
    elim (disk.stat root) [
      | is_missing ↦ rest
      | stat_failed ↦ none
      | is_file ↦ rest
      | is_dir ↦ elim (disk.walk root) [
        | none ↦ none
        | some entries ↦ elim rest [
          | none ↦ none
          | some found ↦ some (files_of root sp entries ++ found)
        ]
      ]
    ]
