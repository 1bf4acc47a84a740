-- ===== src/Examples/Routes.antt =====
-- Tests of the web application's guards and file routes, and runs of their theorems.
use ziguijia_translate_ml.Common.{
  ℕ, ◌≡◌, ◌⊎◌, ◌-◌, refl, true, false, not, Option, none, some, [], ◌∷◌, ◌++◌, ◌&&◌, arith, leb,
  ◌+◌, str_eq, basename, ends_with, if◌then◌else◌,
}
use ziguijia_translate_ml.Split.{Text}
use ziguijia_translate_ml.Sql.{select}
use ziguijia_translate_ml.Job.{Row, completed, pending}
use ziguijia_translate_ml.Queue.{JobQueue}
use ziguijia_translate_ml.Checkpoint.{done, get_checkpoint_edited}
use ziguijia_translate_ml.Checkpoint.Files.{Files}
use ziguijia_translate_ml.Checkpoint.Files.Laws.{comes_after}
use ziguijia_translate_ml.Languages.{language_in}
use ziguijia_translate_ml.Web.{Session, Request, View, answer, form_raises, guarded}
use ziguijia_translate_ml.Web.Guards.{may_pass, is_refusal, Answered, guarded_lem}
use ziguijia_translate_ml.Web.Paths.{
  Resolved, path_text, safe_file_path, is_below_any, safe_file_path_lem,
}
use ziguijia_translate_ml.Calibrate.Parse.{splitlines}
use ziguijia_translate_ml.Web.Srt.{
  Library, language_error, content_lines, validate_srt_content, validate_srt_language,
}
use ziguijia_translate_ml.Web.Srt.Mixed.{
  scripted_lines, classified_lines, validate_srt_language_mixed,
}
use ziguijia_translate_ml.Web.Files.{Host, World, Body, error, message, files_srt_resubmit}
use ziguijia_translate_ml.Web.Files.Saves.{
  IsSavable, save, files_save_srt_lem, files_srt_resubmit-save,
}
use ziguijia_translate_ml.Web.Files.Calibration.{corrected_srt_path}
use ziguijia_translate_ml.Examples.Data.{sample_row, stored}

abbrev ascii_digit : ℕ → Option ℕ
ascii_digit c = if leb 48 c && leb c 57 then some (c - 48) else none

abbrev ascii : Library
ascii = record {
  is_digit = λ c. leb 48 c && leb c 57;
  digit = ascii_digit;
  is_alpha = λ c. leb 65 c && leb c 122;
  parse_error = λ t. none;
}

-- "/jobs/1/translated.srt"
abbrev translated : Resolved
translated = "jobs" ∷ "1" ∷ "translated.srt" ∷ []

abbrev host : Host
host = record {
  lib = ascii;
  realpath = λ p. some translated;
  lower = λ s. s;
  allowed_file_dirs = ("srv" ∷ []) ∷ ("jobs" ∷ []) ∷ [];
  removal_fails = λ p. false;
  write_fails = λ p. false;
  read_text = λ p. none;
}

abbrev finished_row : Row
finished_row = sample_row completed 20 (some "ocr,translate,audio,video")

abbrev queue : JobQueue
queue = record stored { jobs = ("E5", finished_row) ∷ [] }

abbrev disk : Files
disk = record { is_dir = λ p. str_eq p "/jobs/1"; is_file = λ p. str_eq p "/jobs/1/translated.srt" }

abbrev world : World
world = record { queue = queue; files = disk; written = [] }

-- "00:00:01,000 --> 00:00:03,000" and a line of Latin letters
abbrev stamp : ℕ → Text
stamp d = 48 ∷ 48 ∷ 58 ∷ 48 ∷ 48 ∷ 58 ∷ 48 ∷ d ∷ 44 ∷ 48 ∷ 48 ∷ 48 ∷ []

abbrev srt_text : Text
srt_text = stamp 49 ++ (32 ∷ 45 ∷ 45 ∷ 62 ∷ 32 ∷ [] ++ (stamp 51 ++ (10 ∷ 97 ∷ 98 ∷ [])))

corrected_beside :
    corrected_srt_path ("jobs" ∷ "00001.zh+en.srt" ∷ []) ≡ "jobs" ∷ "00001.zh+en.corrected.srt" ∷ []
unfolding corrected_srt_path
corrected_beside = refl

found_e5 : select "E5" queue.jobs ≡ some finished_row
unfolding select
found_e5 = refl

can_save : IsSavable host "/jobs/1/translated.srt" "E5" srt_text world translated "translate"
unfolding safe_file_path path_text ends_with basename validate_srt_content
can_save = record {
  named = refl;
  coded = refl;
  real = refl;
  safe = refl;
  srt = refl;
  valid = refl;
  writable = refl;
  known = refl;
}

files_save_srt_example :
    ((save host "/jobs/1/translated.srt" "E5" srt_text world).1.written
      ≡ (path_text translated, srt_text) ∷ [])
    × (done none "E5" "audio" (save host "/jobs/1/translated.srt" "E5" srt_text world).1.queue
        ≡ (done none "E5" "audio" queue && not (comes_after "translate" "audio")))
    × (get_checkpoint_edited "E5" (save host "/jobs/1/translated.srt" "E5" srt_text world).1.queue
        ≡ true)
files_save_srt_example =
    files_save_srt_lem host "/jobs/1/translated.srt" "E5" srt_text world translated "translate"
      finished_row none "audio" can_save found_e5 refl

files_srt_resubmit-save_example :
    ((files_srt_resubmit 50 "E5" (save host "/jobs/1/translated.srt" "E5" srt_text world).1).0
      ≡ answer 200 (message "Job resubmitted"))
    × ((r : Row) × (select "E5"
            (files_srt_resubmit 50 "E5"
              (save host "/jobs/1/translated.srt" "E5" srt_text world).1).1.queue.jobs
          ≡ some r)
        × (r.status ≡ pending)
        × (r.checkpoint_edited ≡ false))
files_srt_resubmit-save_example =
    files_srt_resubmit-save host "/jobs/1/translated.srt" "E5" srt_text world translated "translate"
      finished_row 50 can_save found_e5 refl

abbrev user : Session
user = record { user_id = some 1; csrf_token = some "ab" }

abbrev forged : Request
forged = record { header_token = some "cd"; form = form_raises }

-- A view that counts its runs.
abbrev counting : View Body ℕ
counting n = (answer 200 (message "ok"), n + 1)

refused :
    guarded error user forged counting 0 ≡ (answer 403 (error "CSRF token missing or invalid"), 0)
unfolding guarded
refused = refl

guarded_example :
    ((may_pass user forged ≡ true)
      × Answered error (counting 0).0 (guarded error user forged counting 0).0
      × ((guarded error user forged counting 0).1 ≡ (counting 0).1))
    ⊎ ((may_pass user forged ≡ false)
        × (is_refusal (guarded error user forged counting 0).0 ≡ true)
        × ((guarded error user forged counting 0).1 ≡ 0))
guarded_example = guarded_lem error user forged counting 0

safe_file_path_example : safe_file_path (("srv" ∷ []) ∷ []) (λ p. true) ("etc" ∷ "passwd" ∷ []) ≡ (
    if is_below_any (("srv" ∷ []) ∷ []) ("etc" ∷ "passwd" ∷ []) && true
    then some ("etc" ∷ "passwd" ∷ [])
    else none)
safe_file_path_example = safe_file_path_lem (("srv" ∷ []) ∷ []) (λ p. true) ("etc" ∷ "passwd" ∷ [])

-- "ab行叉"
validate_srt_language_mixed_example :
    validate_srt_language ascii (97 ∷ 98 ∷ 34892 ∷ 21449 ∷ []) ≡ some language_error
unfolding content_lines scripted_lines classified_lines splitlines language_in
validate_srt_language_mixed_example =
    validate_srt_language_mixed ascii (97 ∷ 98 ∷ 34892 ∷ 21449 ∷ []) "Latin" "CJK" (λ e. cc)
      (omega arith) (omega arith) (omega arith) (omega arith)
