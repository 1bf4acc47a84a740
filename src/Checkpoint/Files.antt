-- ===== src/Checkpoint/Files.antt =====
-- job_checkpoint.py: `_STEP_ARTIFACTS`, `_purge_step_artifacts` and `invalidate_checkpoints_after`,
-- with the part of the file system that they touch.
pub mod Laws
use Prim.Native.String.{◌++◌ as str_append}
use text.Mathlib.Text.{starts_with}
use ziguijia_translate_ml.Common.{
  String, Bool, not, Option, none, some, List, [], ◌∷◌, ◌&&◌, ◌||◌, elem, lookup, if◌then◌else◌,
  str_eq, is_nonempty, path_join,
}
use ziguijia_translate_ml.Sql.{select}
use ziguijia_translate_ml.Job.{Row}
use ziguijia_translate_ml.Queue.{JobQueue}
use ziguijia_translate_ml.Checkpoint.{checkpoint_order, remove_steps}

-- `_STEP_ARTIFACTS`
abbrev pub step_artifacts : List (String × List String)
step_artifacts =
    ("translate", "translated.srt" ∷ [])
    ∷ (
      "audio",
      "audio/output.wav" ∷ "audio/output_adjusted.srt" ∷ "audio/output-final-modified.srt"
          ∷ "audio/changed_segments.json" ∷ "audio_tracks/output.wav"
          ∷ "audio_tracks/output_adjusted.srt" ∷ "audio_tracks/output-final-modified.srt"
          ∷ "audio_tracks/changed_segments.json" ∷ [],
    )
    ∷ ("video", "output_modified.mp4" ∷ "output_final.mp4" ∷ [])
    ∷ []

-- What is a directory and what is a file.
pub record Files : Type 0 where
  pub is_dir : String → Bool
  pub is_file : String → Bool

-- The path itself, or one below it.
abbrev pub is_within : String → String → Bool
is_within dir p = str_eq p dir || starts_with p (str_append dir "/")

-- `shutil.rmtree`, and `os.remove`
abbrev pub rmtree : String → Files → Files
rmtree dir fs = record {
  is_dir = λ p. fs.is_dir p && not (is_within dir p);
  is_file = λ p. fs.is_file p && not (is_within dir p);
}

abbrev pub remove : String → Files → Files
remove path fs = record fs { is_file = λ p. fs.is_file p && not (str_eq p path) }

-- `ORDER[idx + 1 :]` for the step's index, and the empty list where it has none
abbrev pub steps_after : String → List String → List String
steps_after step [] = []
steps_after step (s ∷ order) = if str_eq s step then order else steps_after step order

-- `_STEP_ARTIFACTS.get(step, [])`
abbrev pub artifacts_of : String → List String
artifacts_of step = elim (lookup step step_artifacts) [ none ↦ [] | some rels ↦ rels ]

abbrev pub output_dir_of : Option Row → Option String
output_dir_of none = none
output_dir_of (some r) = r.output_dir

-- `p not in ORDER[idx + 1 :]` for a known step, `p != step` for any other
abbrev pub is_invalidated : String → String → Bool
is_invalidated step p =
    if elem step checkpoint_order then elem p (steps_after step checkpoint_order) else str_eq p step

module _ (removal_fails : String → Bool) where
  -- One path of the loop; a removal that raises is logged, and leaves the path.
  unfoldable pub purge_path : String → Files → Files
  purge_path path fs =
      if removal_fails path
      then fs
      else (if fs.is_dir path
          then rmtree path fs
          else (if fs.is_file path then remove path fs else fs))

  unfoldable pub purge_paths : String → List String → Files → Files
  unfolding purge_path path_join
  purge_paths output_dir [] fs = fs
  purge_paths output_dir (rel ∷ rels) fs =
      purge_paths output_dir rels (purge_path (path_join output_dir rel) fs)

  unfoldable pub purge_step_artifacts :
      (output_dir : String) → (steps : List String) → Files → Files
  unfolding purge_paths
  purge_step_artifacts output_dir [] fs = fs
  purge_step_artifacts output_dir (step ∷ steps) fs =
      purge_step_artifacts output_dir steps (purge_paths output_dir (artifacts_of step) fs)

  -- `if output_dir and os.path.isdir(output_dir)`
  unfoldable pub purge_in : Option String → List String → Files → Files
  unfolding purge_step_artifacts
  purge_in none steps fs = fs
  purge_in (some dir) steps fs =
      if is_nonempty dir && fs.is_dir dir then purge_step_artifacts dir steps fs else fs

  -- The artifacts are those of all later steps, done or not.
  unfoldable pub invalidate_checkpoints_after :
      (access_code step : String) → JobQueue × Files → JobQueue × Files
  unfolding remove_steps purge_in
  invalidate_checkpoints_after code step (q, fs) = (
    remove_steps code (is_invalidated step) q,
    purge_in (output_dir_of (select code q.jobs)) (steps_after step checkpoint_order) fs,
  )
