-- ===== src/Pipeline/Steps.antt =====
-- chatterbox-server/pipeline.py: the checkpoint-aware wrappers of the steps of a video job, and the
-- OCR pipelines made of them.
use Prim.Native.String.{◌++◌ as str_append}
use ziguijia_translate_ml.Common.{
  ℕ, zero, suc, String, Bool, false, not, Option, none, some, List, [], ◌∷◌, ◌&&◌, ◌==◌, keep,
  if◌then◌else◌, is_nonempty, path_join,
}
use ziguijia_translate_ml.Queue.{JobQueue}
use ziguijia_translate_ml.Queue.Worker.Errors.{other_exception, called_process_error}
use ziguijia_translate_ml.Pipeline.{
  Result, ok, error, AudioOut, AudioParams, CheckpointHelper, Tools, and_then, giving, require,
  checkpointed, outside, audio_fallback_paths,
}

-- `", ".join(names)`
abbrev join_names : List String → String
join_names [] = ""
join_names (f ∷ []) = f
join_names (f ∷ g ∷ fs) = str_append f (str_append ", " (join_names (g ∷ fs)))

module _ {W : Type 0} (tools : Tools W) where
  -- `validate_files`
  unfoldable pub validate_files : List String → String → W → Result Unit × W
  validate_files files label w = elim (keep (λ f. not (tools.exists f w)) files) [
    | [] ↦ (ok tt, w)
    | f ∷ fs ↦ (
      error (
          other_exception
            (str_append label (str_append " output files missing: " (join_names (f ∷ fs))))),
      w,
    )
  ]

  -- The attempts of the download loop: a 20 s sleep between them.
  unfoldable pub download_attempts : ℕ → String → String → String → W → Result Unit × W
  download_attempts zero number dir path w = (ok tt, w)
  download_attempts (suc n) number dir path w =
      and_then (tools.download number dir w) (λ returncode w'.
        let rest = download_attempts n number dir path (if n == 0 then w' else tools.sleep w') in
        if returncode == 0 && tools.exists path w' then (ok tt, w') else rest)

  -- `if cached_path and os.path.isfile(cached_path)`
  abbrev pub is_cached : Option String → W → Bool
  is_cached none w = false
  is_cached (some p) w = is_nonempty p && tools.is_file p w

  unfoldable pub fetch_video : Option String → String → String → String → W → Result Unit × W
  unfolding download_attempts
  fetch_video none number dir path w = download_attempts 3 number dir path w
  fetch_video (some cached_path) number dir path w =
      if is_cached (some cached_path) w
      then tools.copy cached_path path w
      else download_attempts 3 number dir path w

  module _ (output_dir : String) (ckpt : Option CheckpointHelper) where
    unfoldable pub run_download_ckpt :
        (video_number : String)
        → (cached_path : Option String) → JobQueue × W
        → Result String × (JobQueue × W)
    unfolding checkpointed fetch_video path_join
    run_download_ckpt number cached =
        let video_path = path_join output_dir (str_append number ".mp4") in
        checkpointed ckpt "download" video_path (λ w.
          and_then (fetch_video cached number output_dir video_path w) (λ _ w'.
            and_then
              (require (tools.exists video_path w')
                (other_exception (str_append "Downloaded video not found: " video_path)) w')
              (λ _ w''. (ok video_path, w''))))

    unfoldable pub run_extract_audio_ckpt :
        (video_file : String) → JobQueue × W → Result String × (JobQueue × W)
    unfolding checkpointed path_join
    run_extract_audio_ckpt video_file =
        let audio_path = path_join output_dir "audio.wav" in
        checkpointed ckpt "extract_audio" audio_path (λ w.
          and_then (tools.extract_audio video_file audio_path w) (λ (returncode, stderr) w'.
            and_then
              (require (returncode == 0)
                (called_process_error stderr "ffmpeg" (tools.show returncode)) w')
              (λ _ w''. (ok audio_path, w''))))

    unfoldable pub run_whisper_ckpt :
        (audio_path : String) → JobQueue × W → Result String × (JobQueue × W)
    unfolding checkpointed path_join
    run_whisper_ckpt audio_path =
        let whisper_srt = path_join output_dir "whisper.srt" in
        checkpointed ckpt "whisper" whisper_srt (λ w.
          and_then (tools.whisper audio_path whisper_srt w) (λ _ w'.
            and_then
              (require (tools.exists whisper_srt w')
                (other_exception "Whisper failed to generate SRT") w')
              (λ _ w''. (ok whisper_srt, w''))))

    unfoldable pub run_ocr_ckpt :
        (video_path : String) → JobQueue × W → Result String × (JobQueue × W)
    unfolding checkpointed path_join
    run_ocr_ckpt video_path =
        let ocr_srt = path_join output_dir "ocr_screen.srt" in
        checkpointed ckpt "ocr" ocr_srt (λ w.
          and_then (tools.ocr video_path ocr_srt (path_join output_dir "frames") w) (λ _ w'.
            and_then
              (require (tools.exists ocr_srt w')
                (other_exception "RapidVideOCR pipeline failed to generate SRT") w')
              (λ _ w''. (ok ocr_srt, w''))))

    unfoldable pub run_translate_ckpt :
        (target_language : String)
        → (markers : Bool) → (input_srt : String) → JobQueue × W
        → Result String × (JobQueue × W)
    unfolding checkpointed path_join
    run_translate_ckpt lang markers input_srt =
        let translated_srt = path_join output_dir "translated.srt" in
        checkpointed ckpt "translate" translated_srt (λ w.
          and_then (tools.translate input_srt translated_srt lang markers w) (λ returncode w'.
            and_then
              (require (returncode == 0)
                (other_exception
                  (str_append "translate_srt exited with code " (tools.show returncode)))
                w')
              (λ _ w''. (ok translated_srt, w''))))

    unfoldable pub run_audio_ckpt :
        (ap : AudioParams)
        → (audio_subdir translated_srt : String) → JobQueue × W
        → Result AudioOut × (JobQueue × W)
    unfolding checkpointed path_join
    run_audio_ckpt ap audio_subdir translated_srt =
        let audio_dir = path_join output_dir audio_subdir in
        checkpointed ckpt "audio" (audio_fallback_paths audio_dir)
          (tools.gen_audio translated_srt audio_dir ap)

    -- The adjusted SRT is copied whether the step ran or not.
    unfoldable pub run_video_ckpt :
        (blur : Bool)
        → (video_file translated_srt : String) → AudioOut
        → JobQueue × W
        → Result Unit × (JobQueue × W)
    unfolding checkpointed path_join
    run_video_ckpt blur video_file srt audio_out s =
        and_then
          (checkpointed ckpt "video" tt
            (tools.gen_video video_file srt audio_out.output_srt_path audio_out.changed_json_path
              (path_join output_dir "output_modified.mp4") blur)
            s)
          (λ _. outside (tools.copy audio_out.output_srt_path output_dir))

    unfoldable pub run_ocr_translate_step :
        (target_language : String)
        → (markers : Bool) → (video_path : String) → JobQueue × W
        → Result String × (JobQueue × W)
    unfolding run_ocr_ckpt run_translate_ckpt
    run_ocr_translate_step lang markers video_path s =
        and_then (run_ocr_ckpt video_path s) (run_translate_ckpt lang markers)

    -- `audio_out["output_wav_path"]`
    abbrev pub wav_path : AudioOut → JobQueue × W → Result String × (JobQueue × W)
    wav_path out s = elim out.output_wav_path [
      | none ↦ (error (other_exception "'output_wav_path'"), s)
      | some p ↦ (ok p, s)
    ]

    -- The check of the three output files, as the pipelines with a label make it.
    unfoldable pub validate_outputs :
        String → AudioOut → JobQueue × W → Result Unit × (JobQueue × W)
    unfolding validate_files path_join
    validate_outputs label out s = and_then (wav_path out s) (λ wav. outside (
        validate_files (out.output_srt_path ∷ wav ∷ path_join output_dir "output_modified.mp4" ∷ [])
          label))

    -- From the translated SRT on: audio, video, and the adjusted original audio.
    unfoldable pub run_audio_video :
        (ap : AudioParams)
        → (audio_subdir : String) → (blur : Bool) → (video_path translated_srt : String)
        → JobQueue × W
        → Result AudioOut × (JobQueue × W)
    unfolding run_audio_ckpt run_video_ckpt
    run_audio_video ap subdir blur video_path srt s =
        and_then (run_audio_ckpt ap subdir srt s) (λ audio_out s'.
          and_then (run_video_ckpt blur video_path srt audio_out s')
            (λ _ s''. giving audio_out (tools.adjust_nonfatal video_path srt audio_out) s''))

    unfoldable pub run_ocr_full_pipeline :
        (ap : AudioParams)
        → (markers : Bool) → (audio_subdir : String) → (blur : Bool)
        → (validate_label video_path : String) → JobQueue × W
        → Result Unit × (JobQueue × W)
    unfolding run_ocr_translate_step run_audio_video validate_outputs
    run_ocr_full_pipeline ap markers subdir blur label video_path s =
        and_then (run_ocr_translate_step ap.target_language markers video_path s) (λ srt s'.
          and_then (run_audio_video ap subdir blur video_path srt s') (λ audio_out s''.
            if is_nonempty label then validate_outputs label audio_out s'' else (ok tt, s'')))
