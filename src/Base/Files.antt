-- ===== src/Base/Files.antt =====
-- Writing a file (`os.WriteFile`); a file that is missing is `none`.
use mathlib.Core.Bool.{Bool, true, false}
use mathlib.Core.Option.{Option, some}
use my_token.Base.Bytes.{Text}

-- A write that fails leaves whatever it leaves.
pub data Write : Type 0 where
  succeeds : Write
  fails : Option Text → Write

-- Whether the file was written, and the file.
unfoldable pub write_file : Write → Text → Bool × Option Text
write_file succeeds bytes = (true, some bytes)
write_file (fails left) bytes = (false, left)
