-- ===== src/Pipeline/Handlers.antt =====
-- chatterbox-server/video_custom_job.py and video_ning_job.py: the job handlers, as compositions of
-- the pipeline's steps. `job_data` is a record of the entries that a handler reads; the creation of
-- the output directory and the log are left out.
use ziguijia_translate_ml.Common.{
  String, Bool, true, false, Option, none, some, List, [], ◌∷◌, if◌then◌else◌, str_eq, path_join,
}
use ziguijia_translate_ml.Queue.{JobQueue}
use ziguijia_translate_ml.Pipeline.{
  Result, ok, AudioParams, CheckpointHelper, Tools, and_then, outside,
}
use ziguijia_translate_ml.Pipeline.Steps.{
  validate_files, validate_outputs, run_download_ckpt, run_extract_audio_ckpt, run_whisper_ckpt,
  run_ocr_ckpt, run_translate_ckpt, run_video_ckpt, run_audio_video, run_ocr_translate_step,
  run_ocr_full_pipeline,
}

pub record JobData : Type 0 where
  pub access_code : String
  pub output_dir : String
  pub video_file : String
  pub video_number : String
  pub srt_path : String
  pub cached_path : Option String
  pub blur : String
  pub ocr_only : Option String
  pub params : AudioParams

-- `CheckpointHelper(access_code, output_dir, valid_steps)`
abbrev pub helper : JobData → Option (List String) → Option CheckpointHelper
helper d steps = some (record { access_code = d.access_code; valid_steps = steps })

abbrev pub wants_blur : JobData → Bool
wants_blur d = str_eq d.blur "yes"

-- `job_data.get("ocr_only") == "yes"`
abbrev pub is_ocr_only : JobData → Bool
is_ocr_only d = elim d.ocr_only [ none ↦ false | some s ↦ str_eq s "yes" ]

abbrev pub ocr_steps : Option (List String)
ocr_steps = some ("ocr" ∷ "translate" ∷ "audio" ∷ "video" ∷ [])

abbrev pub ocr_translate_steps : Option (List String)
ocr_translate_steps = some ("ocr" ∷ "translate" ∷ [])

abbrev pub ning_steps : Option (List String)
ning_steps = some ("download" ∷ "audio" ∷ "video" ∷ [])

abbrev pub ning_ocr_steps : Option (List String)
ning_ocr_steps = some ("download" ∷ "ocr" ∷ "translate" ∷ "audio" ∷ "video" ∷ [])

abbrev pub ning_ocr_translate_steps : Option (List String)
ning_ocr_translate_steps = some ("download" ∷ "ocr" ∷ "translate" ∷ [])

abbrev pub ning_auto_steps : Option (List String)
ning_auto_steps =
    some ("download" ∷ "extract_audio" ∷ "whisper" ∷ "translate" ∷ "audio" ∷ "video" ∷ [])

module _ {W : Type 0} (tools : Tools W) (d : JobData) where
  -- No checkpoints: the audio is made again at every run.
  unfoldable pub run_video_custom_job : JobQueue × W → Result Unit × (JobQueue × W)
  unfolding run_video_ckpt path_join
  run_video_custom_job s =
      and_then
        (outside (tools.gen_audio d.srt_path (path_join d.output_dir "audio_tracks") d.params) s)
        (λ out s'.
          and_then
            (run_video_ckpt tools d.output_dir none (wants_blur d) d.video_file d.srt_path out s')
            (λ _ s''. outside (tools.adjust_nonfatal d.video_file d.srt_path out) s''))

  -- What both `_run_video_auto_job` and `_run_video_ning_auto_job` do up to the audio and the video.
  unfoldable pub transcribe :
      Option CheckpointHelper
      → (video_path : String) → JobQueue × W
      → Result String × (JobQueue × W)
  unfolding run_extract_audio_ckpt run_whisper_ckpt run_translate_ckpt
  transcribe ckpt video_path s =
      and_then (run_extract_audio_ckpt tools d.output_dir ckpt video_path s) (λ audio_path s'.
        and_then (run_whisper_ckpt tools d.output_dir ckpt audio_path s')
          (run_translate_ckpt tools d.output_dir ckpt d.params.target_language true))

  unfoldable pub run_video_auto_job : JobQueue × W → Result Unit × (JobQueue × W)
  unfolding transcribe run_audio_video
  run_video_auto_job s = and_then (transcribe (helper d none) d.video_file s) (λ srt s'.
      and_then
        (run_audio_video tools d.output_dir (helper d none) d.params "audio_tracks" (wants_blur d)
          d.video_file srt s')
        (λ _ s''. (ok tt, s'')))

  unfoldable pub run_video_ocr_job : JobQueue × W → Result Unit × (JobQueue × W)
  unfolding run_ocr_full_pipeline
  run_video_ocr_job =
      run_ocr_full_pipeline tools d.output_dir (helper d ocr_steps) d.params true "audio_tracks"
        (wants_blur d) "" d.video_file

  -- `if job_data.get("ocr_only") == "yes"`: the OCR alone, or with the translation
  unfoldable pub ocr_or_translate :
      Option CheckpointHelper → (video_path : String) → JobQueue × W → Result Unit × (JobQueue × W)
  unfolding run_ocr_ckpt run_ocr_translate_step
  ocr_or_translate ckpt video_path s =
      and_then
        (if is_ocr_only d
          then run_ocr_ckpt tools d.output_dir ckpt video_path s
          else run_ocr_translate_step tools d.output_dir ckpt d.params.target_language true
              video_path s)
        (λ _ s'. (ok tt, s'))

  unfoldable pub run_video_ocr_translate_only_job : JobQueue × W → Result Unit × (JobQueue × W)
  unfolding ocr_or_translate
  run_video_ocr_translate_only_job = ocr_or_translate (helper d ocr_translate_steps) d.video_file

  unfoldable pub download : Option CheckpointHelper → JobQueue × W → Result String × (JobQueue × W)
  unfolding run_download_ckpt
  download ckpt = run_download_ckpt tools d.output_dir ckpt d.video_number d.cached_path

  -- The last check and copy of `_run_video_job` name the files of the audio directory.
  unfoldable pub finish_video_job : JobQueue × W → Result Unit × (JobQueue × W)
  unfolding validate_files path_join
  finish_video_job s =
      let dir = path_join d.output_dir "audio" in
      and_then
        (outside
          (validate_files tools
            (path_join dir "output_adjusted.srt"
              ∷ path_join dir "output.wav"
              ∷ path_join d.output_dir "output_modified.mp4"
              ∷ [])
            "宁视频翻译")
          s)
        (λ _. outside (tools.copy (path_join dir "output_adjusted.srt") d.output_dir))

  unfoldable pub run_video_job : JobQueue × W → Result Unit × (JobQueue × W)
  unfolding download run_audio_video finish_video_job
  run_video_job s = and_then (download (helper d ning_steps) s) (λ video_path s'.
      and_then (outside (tools.validate_duration video_path d.srt_path) s') (λ _ s''.
        and_then
          (run_audio_video tools d.output_dir (helper d ning_steps) d.params "audio" (wants_blur d)
            video_path d.srt_path s'')
          (λ _. finish_video_job)))

  unfoldable pub run_video_ning_ocr_job : JobQueue × W → Result Unit × (JobQueue × W)
  unfolding download run_ocr_full_pipeline
  run_video_ning_ocr_job s = and_then (download (helper d ning_ocr_steps) s) (
      run_ocr_full_pipeline tools d.output_dir (helper d ning_ocr_steps) d.params true "audio"
        (wants_blur d) "宁视频OCR翻译")

  unfoldable pub run_video_ning_ocr_translate_only_job : JobQueue × W → Result Unit × (JobQueue × W)
  unfolding download ocr_or_translate
  run_video_ning_ocr_translate_only_job s =
      and_then (download (helper d ning_ocr_translate_steps) s)
        (ocr_or_translate (helper d ning_ocr_translate_steps))

  unfoldable pub run_video_ning_auto_job : JobQueue × W → Result Unit × (JobQueue × W)
  unfolding download transcribe run_audio_video validate_outputs
  run_video_ning_auto_job s = and_then (download (helper d ning_auto_steps) s) (λ video_path s'.
      and_then (transcribe (helper d ning_auto_steps) video_path s') (λ srt s''.
        and_then
          (run_audio_video tools d.output_dir (helper d ning_auto_steps) d.params "audio"
            (wants_blur d) video_path srt s'')
          (validate_outputs tools d.output_dir (helper d ning_auto_steps) "宁视频语音识别翻译")))
