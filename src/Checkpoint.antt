-- ===== src/Checkpoint.antt =====
-- chatterbox-server/job_checkpoint.py, the two tables of chatterbox-server/config.py that it uses,
-- and `CheckpointHelper` of chatterbox-server/video_util.py: which steps of a job are done, in the
-- column `checkpoint` as a comma-separated list.
pub mod Edited
pub mod Files
pub mod Steps
use ziguijia_translate_ml.Common.{
  String, Bool, true, false, not, Option, none, some, List, [], ◌∷◌, ◌++◌, ◌&&◌, ◌||◌, keep, elem,
  lookup, if◌then◌else◌, str_eq, is_nonempty, split_commas, split_nonempty, join_commas, basename,
  ends_with, contains, to_slashes, split_slashes,
}
use ziguijia_translate_ml.Sql.{select, update_key}
use ziguijia_translate_ml.Job.{Row}
use ziguijia_translate_ml.Queue.{JobQueue}

-- `CHECKPOINT_ORDER`
abbrev pub checkpoint_order : List String
checkpoint_order =
    "download" ∷ "decompress" ∷ "trim" ∷ "extract_audio" ∷ "whisper" ∷ "ocr" ∷ "translate" ∷ "audio"
    ∷ "video" ∷ []

-- `FILENAME_TO_CHECKPOINT_STEP`
abbrev pub filename_to_checkpoint_step : List (String × String)
filename_to_checkpoint_step =
    ("ocr_screen.srt", "ocr")
    ∷ ("translated.srt", "translate")
    ∷ ("whisper.srt", "whisper")
    ∷ ("output_adjusted.srt", "audio")
    ∷ []

unfoldable pub set_checkpoint : (access_code checkpoint : String) → JobQueue → JobQueue
set_checkpoint code checkpoint q = record q {
  jobs = update_key code (λ _. true) (λ r. record r { checkpoint = some checkpoint }) q.jobs;
}

-- `row[0] if row and row[0] else ""`
abbrev pub text_or_empty : Option String → String
text_or_empty none = ""
text_or_empty (some s) = s

abbrev pub checkpoint_of : Option Row → String
checkpoint_of none = ""
checkpoint_of (some r) = text_or_empty r.checkpoint

unfoldable pub get_checkpoint : (access_code : String) → JobQueue → String
get_checkpoint code q = checkpoint_of (select code q.jobs)

-- `[s for s in ckpt.split(",") if s]`
unfoldable pub parts : (access_code : String) → JobQueue → List String
unfolding get_checkpoint split_nonempty
parts code q = split_nonempty (get_checkpoint code q)

-- `xs == ys`, for lists of texts
abbrev pub list_eq : List String → List String → Bool
list_eq [] [] = true
list_eq [] (y ∷ ys) = false
list_eq (x ∷ xs) [] = false
list_eq (x ∷ xs) (y ∷ ys) = str_eq x y && list_eq xs ys

-- `if new_parts != parts: set_checkpoint(...)`, where the new parts are those that are not removed
unfoldable pub remove_steps : (access_code : String) → (String → Bool) → JobQueue → JobQueue
unfolding parts set_checkpoint join_commas
remove_steps code removed q =
    let new_parts = keep (λ s. not (removed s)) (parts code q) in
    if not (list_eq new_parts (parts code q))
    then set_checkpoint code (join_commas new_parts) q
    else q

abbrev pub is_step : Option String → String → Bool
is_step none s = false
is_step (some step) s = str_eq s step

-- The step of the `if` and `elif`s over the kinds of files.
unfoldable pub pattern_step : (basename file_path : String) → Option String
unfolding ends_with contains to_slashes split_slashes
pattern_step name path =
    if str_eq name "output_modified.mp4"
    then some "video"
    else (if contains name "_decompressed.mov"
        then some "decompress"
        else (if ends_with name "_trimmed.mp4"
            then some "trim"
            else (if ends_with name ".mp4" && not (str_eq name "output_modified.mp4")
                then some "download"
                else (if elem "audio" (split_slashes (to_slashes path))
                    then some "audio"
                    else none))))

-- `steps_to_clear`
unfoldable pub steps_to_clear : (file_path : String) → String → Bool
unfolding basename pattern_step
steps_to_clear path s =
    is_step (lookup (basename path) filename_to_checkpoint_step) s
    || is_step (pattern_step (basename path) path) s

-- The early returns, where there are no parts or no steps to clear, are runs that remove nothing.
unfoldable pub clear_checkpoint_for_file : (access_code file_path : String) → JobQueue → JobQueue
unfolding remove_steps steps_to_clear
clear_checkpoint_for_file code path q = remove_steps code (steps_to_clear path) q

-- `CheckpointHelper.done` and `mark`, of the job that its functions are given: `name in
-- self.valid_steps`, where there are such
abbrev pub is_valid_step : Option (List String) → String → Bool
is_valid_step none name = true
is_valid_step (some steps) name = elem name steps

unfoldable pub done :
    (valid_steps : Option (List String)) → (access_code name : String) → JobQueue → Bool
unfolding get_checkpoint split_commas
done valid_steps code name q =
    let ckpt = get_checkpoint code q in
    is_valid_step valid_steps name && elem name (if is_nonempty ckpt then split_commas ckpt else [])

unfoldable pub mark : (access_code name : String) → JobQueue → JobQueue
unfolding parts set_checkpoint join_commas
mark code name q = set_checkpoint code (join_commas (parts code q ++ name ∷ [])) q

unfoldable pub set_checkpoint_edited :
    (access_code : String) → (edited : Bool) → JobQueue → JobQueue
set_checkpoint_edited code edited q = record q {
  jobs = update_key code (λ _. true) (λ r. record r { checkpoint_edited = edited }) q.jobs;
}

unfoldable pub get_checkpoint_edited : (access_code : String) → JobQueue → Bool
get_checkpoint_edited code q = elim (select code q.jobs) [
  | none ↦ false
  | some r ↦ r.checkpoint_edited
]
