-- ===== src/IssueKey/KeyFile.antt =====
-- The key file and the resolver script (cmd/issue-key/keyfile.go). `filepath.Join` and the text of
-- the script are arguments. The files are a function from paths; directories are not kept.
use my_token.Base.{Text, codes, Bool, not, ◌==◌, List, [], ◌∷◌, Option, none, some, if◌then◌else◌}
use my_token.Base.Files.{Write, write_file}

abbrev pub Files : Type 0
Files = Text → Option Text

-- What the disk does: `os.MkdirAll`, `os.ReadFile` but for a file that is missing, `os.WriteFile`.
pub record KeyDisk : Type 0 where
  pub makes : Text → Bool
  pub reads : Text → Bool
  pub writes : Text → Write

unfoldable pub put : Text → Option Text → Files → Files
put path file files p = if p == path then file else files p

-- `os.WriteFile` at a path, and the path where it succeeds.
unfoldable pub write_at : KeyDisk → Text → Text → Files → Option Text × Files
unfolding put write_file
write_at disk path bytes files =
    let (written, file) = write_file (disk.writes path) bytes in
    (if written then some path else none, put path file files)

module _ (join : List Text → Text) (disk : KeyDisk) where
  unfoldable pub write_key_file : Text → Text → Text → Files → Option Text × Files
  unfolding write_at
  write_key_file base_dir handle raw_key files =
      let keys_dir = join (base_dir ∷ codes "keys" ∷ []) in
      if not (disk.makes keys_dir)
      then (none, files)
      else write_at disk (join (keys_dir ∷ handle ∷ [])) raw_key files

  unfoldable pub ensure_key_resolver : Text → Text → Files → Option Text × Files
  unfolding write_at
  ensure_key_resolver resolver_script base_dir files =
      let bin_dir = join (base_dir ∷ codes "bin" ∷ []) in
      if not (disk.makes bin_dir)
      then (none, files)
      else (let path = join (bin_dir ∷ codes "key" ∷ []) in
          if not (disk.reads path) then (none, files) else elim (files path) [
            | none ↦ write_at disk path resolver_script files
            | some existing ↦
                if existing == resolver_script
                then (some path, files)
                else write_at disk path resolver_script files
          ])
