-- ===== src/Queue/Worker/Errors.antt =====
-- job_worker.py: `_format_job_error`, the text that a job's `error` column gets. The lines of a
-- captured stderr are given stripped and without the blank ones, a command by its base name, and
-- a message by what `_CMD_LINE_RE` leaves of it.
pub mod Bounds
use Prim.Native.String.{◌++◌ as str_append}
use ziguijia_translate_ml.Common.{ℕ, zero, suc, String, List, [], ◌∷◌, if◌then◌else◌, is_nonempty}

pub data Exception : Type 0 where
  called_process_error : (stderr : List String) (prog returncode : String) → Exception
  other_exception : (message : String) → Exception
  system_exit : (message : String) → Exception

-- `s[:n]`
unfoldable pub take_chars : ℕ → String → String
take_chars zero s = String.[]
take_chars (suc n) String.[] = String.[]
take_chars (suc n) (String.◌∷◌ c s) = String.◌∷◌ c (take_chars n s)

-- `lines[-3:]`
abbrev pub last_three : List String → List String
last_three (a ∷ b ∷ c ∷ d ∷ rest) = last_three (b ∷ c ∷ d ∷ rest)
last_three lines = lines

-- `"; ".join(lines)`
unfoldable pub join_semicolons : List String → String
join_semicolons [] = ""
join_semicolons (a ∷ []) = a
join_semicolons (a ∷ b ∷ rest) = str_append a (str_append "; " (join_semicolons (b ∷ rest)))

unfoldable pub format_job_error : Exception → String
unfolding take_chars join_semicolons
format_job_error (called_process_error [] prog returncode) = take_chars 500 (
    str_append (if is_nonempty prog then prog else "command")
      (str_append " failed with exit status " returncode))
format_job_error (called_process_error (line ∷ lines) prog returncode) =
    take_chars 500 (join_semicolons (last_three (line ∷ lines)))
format_job_error (other_exception message) = take_chars 500 message
format_job_error (system_exit message) = take_chars 500 message
