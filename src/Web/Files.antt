-- ===== src/Web/Files.antt =====
-- chatterbox-server/routes/files.py: the routes on files. What the server has outside itself (the file
-- system, the `srt` library) is a record of functions; a view is what stands behind the guards.
pub mod Calibration
pub mod Rows
pub mod Saves
use ziguijia_translate_ml.Common.{
  ℕ, String, Bool, true, false, not, Option, none, some, List, ◌∷◌, basename, ends_with,
  is_nonempty, lookup, if◌then◌else◌,
}
use ziguijia_translate_ml.Split.{Text}
use ziguijia_translate_ml.Queue.{JobQueue, Reply, success, failure}
use ziguijia_translate_ml.Queue.Submit.{resubmit_job}
use ziguijia_translate_ml.Checkpoint.{
  filename_to_checkpoint_step, clear_checkpoint_for_file, set_checkpoint_edited,
}
use ziguijia_translate_ml.Checkpoint.Edited.{set_edited_srt_file, clear_edited_srt_files}
use ziguijia_translate_ml.Checkpoint.Files.{Files, remove, invalidate_checkpoints_after}
use ziguijia_translate_ml.Web.{Outcome, View, answer, value_error, exception}
use ziguijia_translate_ml.Web.Paths.{Resolved, path_text, safe_file_path}
use ziguijia_translate_ml.Web.Srt.{Library, validate_srt_content}

-- `realpath` gives `none` where it raises ValueError, for a path with a null byte.
pub record Host : Type 0 where
  pub lib : Library
  pub realpath : String → Option Resolved
  pub lower : String → String
  pub allowed_file_dirs : List Resolved
  pub removal_fails : String → Bool
  pub write_fails : String → Bool
  pub read_text : String → Option Text

-- The job queue, what is a file or a directory, and what was written, the latest first.
pub record World : Type 0 where
  pub queue : JobQueue
  pub files : Files
  pub written : List (String × Text)

pub data Body : Type 0 where
  error : String → Body
  message : String → Body
  content : Text → Body
  attachment : (path : String) → Body
  saved : (path filename : String) → Body
  corrected :
      (content : Text) (filename : String) (matched total : ℕ)
      (displayed_only standard_only : List Text)
      → Body

-- `if not x`, for a text that may be missing
abbrev pub is_missing : Option String → Bool
is_missing none = true
is_missing (some s) = not (is_nonempty s)

abbrev pub or_empty : Option String → String
or_empty none = ""
or_empty (some s) = s

-- `files_srt_resubmit`
abbrev pub resubmitted : (access_code : String) → Reply × JobQueue → View Body World
resubmitted code (success m, q) w = (
  answer 200 (message m),
  record w { queue = clear_edited_srt_files code (set_checkpoint_edited code false q) },
)
resubmitted code (failure e, q) w = (answer 400 (error e), record w { queue = q })

unfoldable pub files_srt_resubmit : (now : ℕ) → (access_code : String) → View Body World
unfolding resubmit_job set_checkpoint_edited clear_edited_srt_files
files_srt_resubmit now code w = resubmitted code (resubmit_job now code none w.queue) w

module _ (h : Host) where
  -- `safe = safe_file_path(file_path)`, and the answer where there is none
  abbrev pub found : Option Resolved → (Resolved → View Body World) → View Body World
  found none f w = (answer 404 (error "File not allowed or not found"), w)
  found (some p) f w = f p w

  abbrev pub resolved : Option Resolved → (Resolved → View Body World) → View Body World
  resolved none f w = (value_error "embedded null byte", w)
  resolved (some p) f w = found (safe_file_path h.allowed_file_dirs w.files.is_file p) f w

  unfoldable pub with_safe : (file_path : String) → (Resolved → View Body World) → View Body World
  unfolding safe_file_path
  with_safe file_path f w = resolved (h.realpath file_path) f w

  abbrev pub read_answer : Option Text → Outcome Body
  read_answer none = exception "OSError"
  read_answer (some text) = answer 200 (content text)

  unfoldable pub files_read : (path : Option String) → View Body World
  unfolding with_safe path_text
  files_read path w =
      if is_missing path
      then (answer 400 (error "No file specified"), w)
      else with_safe (or_empty path) (λ p w'. (read_answer (h.read_text (path_text p)), w')) w

  unfoldable pub files_download : (path : Option String) → View Body World
  unfolding with_safe path_text
  files_download path w =
      if is_missing path
      then (answer 400 (error "No file specified"), w)
      else with_safe (or_empty path) (λ p w'. (answer 200 (attachment (path_text p)), w')) w

  -- `if access_code: get_job_queue().clear_checkpoint_for_file(access_code, file_path)`
  abbrev pub clear_for : (access_code : Option String) → (file_path : String) → World → World
  clear_for code path w =
      if is_missing code
      then w
      else record w { queue = clear_checkpoint_for_file (or_empty code) path w.queue }

  unfoldable pub delete_at :
      (access_code : Option String) → (file_path : String) → Resolved → View Body World
  unfolding clear_checkpoint_for_file path_text
  delete_at code path p w = if h.removal_fails (path_text p) then (exception "OSError", w) else (
    answer 200 (message "deleted"),
    clear_for code path (record w { files = remove (path_text p) w.files }),
  )

  unfoldable pub files_delete : (path access_code : Option String) → View Body World
  unfolding with_safe delete_at
  files_delete path code w =
      if is_missing path
      then (answer 400 (error "No file specified"), w)
      else with_safe (or_empty path) (delete_at code (or_empty path)) w

  -- `with open(path, "w") as f: f.write(content)`, on a file that is there
  abbrev pub write : (path : String) → Text → World → World
  write path text w = record w { written = (path, text) ∷ w.written }

  -- `if step: jq.invalidate_checkpoints_after(access_code, step)`; no job has the code None.
  abbrev pub invalidate : (access_code step : Option String) → World → World
  invalidate (some code) (some step) w =
      let (q, fs) = invalidate_checkpoints_after h.removal_fails code step (w.queue, w.files) in
      record w { queue = q; files = fs }
  invalidate code step w = w

  -- `if access_code:` the job is marked as edited
  abbrev pub mark_edited : (access_code : Option String) → (filename : String) → World → World
  mark_edited code name w = if is_missing code then w else record w {
    queue =
        set_edited_srt_file (or_empty code) name
          (set_checkpoint_edited (or_empty code) true w.queue);
  }

  unfoldable pub save_valid :
      (access_code : Option String) → Text → (path : String) → View Body World
  unfolding basename invalidate_checkpoints_after set_checkpoint_edited set_edited_srt_file
  save_valid code text path w = if h.write_fails path then (exception "OSError", w) else (
    answer 200 (message "File saved, downstream steps marked for re-run"),
    mark_edited code (basename path)
        (invalidate code (lookup (basename path) filename_to_checkpoint_step) (write path text w)),
  )

  abbrev pub if_valid : Option String → View Body World → View Body World
  if_valid none f w = f w
  if_valid (some e) f w = (value_error e, w)

  unfoldable pub save_at : (access_code : Option String) → Text → Resolved → View Body World
  unfolding path_text ends_with validate_srt_content save_valid
  save_at code text p w =
      if not (ends_with (h.lower (path_text p)) ".srt")
      then (answer 400 (error "Only .srt files can be saved via this endpoint"), w)
      else if_valid (validate_srt_content h.lib text) (save_valid code text (path_text p)) w

  unfoldable pub files_save_srt :
      (path : Option String)
      → (content : Option Text) → (access_code : Option String) → View Body World
  unfolding with_safe save_at
  files_save_srt path none code w = (answer 400 (error "Missing path or content"), w)
  files_save_srt path (some text) code w =
      if is_missing path
      then (answer 400 (error "Missing path or content"), w)
      else with_safe (or_empty path) (save_at code text) w
