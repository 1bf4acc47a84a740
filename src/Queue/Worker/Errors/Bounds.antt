-- ===== src/Queue/Worker/Errors/Bounds.antt =====
-- How long the text of an error can be.
use ziguijia_translate_ml.Common.{ℕ, zero, suc, String, ◌≤◌, arith, [], ◌∷◌}
use ziguijia_translate_ml.Queue.Worker.Errors.{
  Exception, called_process_error, other_exception, system_exit, take_chars, format_job_error,
}

-- `len(s)`
abbrev pub len : String → ℕ
len String.[] = 0
len (String.◌∷◌ c s) = suc (len s)

len-take_chars-le : (n : ℕ) (s : String) → len (take_chars n s) ≤ n
unfolding take_chars
len-take_chars-le zero s = omega arith
len-take_chars-le (suc n) String.[] = omega arith
len-take_chars-le (suc n) (String.◌∷◌ c s) = omega (arith, len-take_chars-le n s)

-- The text of an error has at most 500 characters, whatever was raised.
pub len-format_job_error-le : (e : Exception) → len (format_job_error e) ≤ 500
unfolding format_job_error
len-format_job_error-le (called_process_error [] prog code) = len-take_chars-le 500 _
len-format_job_error-le (called_process_error (l ∷ ls) prog code) = len-take_chars-le 500 _
len-format_job_error-le (other_exception m) = len-take_chars-le 500 m
len-format_job_error-le (system_exit m) = len-take_chars-le 500 m
