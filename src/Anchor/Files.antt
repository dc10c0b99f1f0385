-- ===== src/Anchor/Files.antt =====
-- A text file of lines, as `src/systeme_local_gateway/audit.py` and `audit_anchor.py` read and
-- append to it.
use systeme_local.Prelude.{String, List, [], ◌∷◌, ◌++◌}
use Prim.Native.String.{◌++◌ as ◌^◌}

-- Nothing at the path; no regular file; a file whose last line has no newline; a file of whole
-- lines.
pub data LogFile : Type 0 where
  missing : LogFile
  irregular : LogFile
  unterminated : List String → String → LogFile
  lines : List String → LogFile

-- what `json.loads` gives for a line
pub data Loaded {ℓ} (A : Type ℓ) : Type ℓ where
  not_json : Loaded A
  not_object : Loaded A
  object : A → Loaded A

-- `write(line + "\n")` on a file opened with `O_APPEND | O_CREAT`
abbrev pub with_line : String → LogFile → LogFile
with_line line missing = lines (line ∷ [])
with_line line irregular = irregular
with_line line (unterminated full rest) = lines (full ++ (rest ^ line) ∷ [])
with_line line (lines full) = lines (full ++ line ∷ [])
