-- ===== src/Pipeline.antt =====
-- chatterbox-server/pipeline.py: what the steps of a video job share, `CheckpointHelper` of
-- chatterbox-server/video_util.py as they use it, and the checkpoint that guards a step. The
-- programs that a step runs (ffmpeg, whisper-cli, RapidVideOCR, the translation, and
-- `run_gen_audio_step` and `run_gen_video_step` with their subprocesses) are the fields of `Tools`:
-- functions of the world outside the database, of any type, that may raise.
pub mod Steps
pub mod Handlers
pub mod Laws
pub mod Keeps
pub mod Resume
pub mod Complete
pub mod Tempo
use ziguijia_translate_ml.Common.{
  ℕ, String, Bool, true, false, Option, none, some, List, if◌then◌else◌, path_join,
}
use ziguijia_translate_ml.Queue.{JobQueue}
use ziguijia_translate_ml.Queue.Worker.Errors.{Exception}
use ziguijia_translate_ml.Checkpoint.{done, mark}

pub data Result (A : Type 0) : Type 0 where
  ok : A → Result A
  error : Exception → Result A

-- The dictionary of the audio step; its fallback has no `output_wav_path`.
pub record AudioOut : Type 0 where
  pub output_srt_path : String
  pub output_wav_path : Option String
  pub changed_json_path : String

pub record AudioParams : Type 0 where
  pub temperature : ℕ
  pub target_language : String
  pub cfg_weight : ℕ
  pub exaggeration : ℕ

-- `CheckpointHelper`
pub record CheckpointHelper : Type 0 where
  pub access_code : String
  pub valid_steps : Option (List String)

pub record Tools (W : Type 0) : Type 0 where
  -- `os.path.exists`, `os.path.isfile`, and `shutil.copy2`
  pub exists : String → W → Bool
  pub is_file : String → W → Bool
  pub copy : (source target : String) → W → Result Unit × W
  -- `str(n)`
  pub show : ℕ → String
  -- the download, which answers a return code, and the wait between two attempts
  pub download : (video_number output_dir : String) → W → Result ℕ × W
  pub sleep : W → W
  -- ffmpeg, which answers a return code and the lines of its stderr
  pub extract_audio : (video_file audio_path : String) → W → Result (ℕ × List String) × W
  -- translate_srt.py, which answers a return code; it is given the language's code, in place of the
  -- name that `LANG_MAP` has for it, and whether the intro and outro markers are
  pub translate :
      (input_srt translated_srt target_language : String) → (markers : Bool) → W → Result ℕ × W
  -- run with `check=True`
  pub ocr : (video_path ocr_srt frames_dir : String) → W → Result Unit × W
  pub whisper : (audio_path whisper_srt : String) → W → Result Unit × W
  pub gen_audio : (srt audio_dir : String) → AudioParams → W → Result AudioOut × W
  pub gen_video :
      (video srt adjusted_srt changed_json video_output : String)
      → (blur : Bool) → W
      → Result Unit × W
  pub validate_duration : (video srt : String) → W → Result Unit × W
  -- `_adjust_original_audio_nonfatal`, which catches subprocess errors only, and raises any other
  pub adjust_nonfatal : (video srt : String) → AudioOut → W → Result Unit × W

-- `if ckpt and ckpt.done(name)`
unfoldable pub is_done : Option CheckpointHelper → String → JobQueue → Bool
unfolding done
is_done none name q = false
is_done (some c) name q = done c.valid_steps c.access_code name q

-- `if ckpt: ckpt.mark(name)`
unfoldable pub mark_step : Option CheckpointHelper → String → JobQueue → JobQueue
unfolding mark
mark_step none name q = q
mark_step (some c) name q = mark c.access_code name q

-- The next statement, unless this one raised.
abbrev pub and_then : {A B S : Type 0} → Result A × S → (A → S → Result B × S) → Result B × S
and_then (ok a, s) f = f a s
and_then (error e, s) f = (error e, s)

abbrev pub require : {S : Type 0} → Bool → Exception → S → Result Unit × S
require true e s = (ok tt, s)
require false e s = (error e, s)

-- A step that a checkpoint guards: skipped if it is done, marked when it has returned.
module _ {A W : Type 0} (ckpt : Option CheckpointHelper) (name : String) where
  unfoldable pub marked : JobQueue → Result A × W → Result A × (JobQueue × W)
  unfolding mark_step
  marked q (ok a, w) = (ok a, (mark_step ckpt name q, w))
  marked q (error e, w) = (error e, (q, w))

  unfoldable pub checkpointed :
      (skipped : A) → (W → Result A × W) → JobQueue × W → Result A × (JobQueue × W)
  unfolding marked is_done
  checkpointed skipped body (q, w) =
      if is_done ckpt name q then (ok skipped, (q, w)) else marked q (body w)

-- A statement that does not touch the database.
abbrev pub outside : {A W : Type 0} → (W → Result A × W) → JobQueue × W → Result A × (JobQueue × W)
outside f (q, w) = let (a, w') = f w in (a, (q, w'))

-- The value, behind a statement that does not touch the database.
abbrev pub giving :
    {A W : Type 0} → A → (W → Result Unit × W) → JobQueue × W → Result A × (JobQueue × W)
giving a f s = and_then (outside f s) (λ _ t. (ok a, t))

-- `_audio_fallback_paths`
unfoldable pub audio_fallback_paths : String → AudioOut
unfolding path_join
audio_fallback_paths audio_dir = record {
  output_srt_path = path_join audio_dir "output_adjusted.srt";
  output_wav_path = none;
  changed_json_path = path_join audio_dir "changed_segments.json";
}
