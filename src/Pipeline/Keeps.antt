-- ===== src/Pipeline/Keeps.antt =====
-- The steps that are done, across a run of the OCR pipeline.
use ziguijia_translate_ml.Common.{
  String, ◌≡◌, refl, Bool, true, false, Option, none, some, [], ◌∷◌, if◌then◌else◌, is_nonempty,
  IsPiece-of_test, path_join,
}
use ziguijia_translate_ml.Queue.{JobQueue}
use ziguijia_translate_ml.Pipeline.{ok, AudioOut, AudioParams, CheckpointHelper, Tools, is_done}
use ziguijia_translate_ml.Pipeline.Steps.{
  validate_files, validate_outputs, wav_path, run_ocr_ckpt, run_translate_ckpt, run_audio_ckpt,
  run_video_ckpt, run_ocr_translate_step, run_audio_video, run_ocr_full_pipeline,
}
use ziguijia_translate_ml.Pipeline.Laws.{
  has_job, KeepsDone, outside-KeepsDone, checkpointed-KeepsDone, and_then-KeepsDone,
  returns-KeepsDone, giving-KeepsDone,
}

module _ {W : Type 0} (tools : Tools W) (dir : String) (c : CheckpointHelper) where
  pub run_ocr_ckpt-KeepsDone : (v : String) → KeepsDone c (run_ocr_ckpt tools dir (some c) v)
  unfolding run_ocr_ckpt
  run_ocr_ckpt-KeepsDone v = checkpointed-KeepsDone c "ocr" _ _ (IsPiece-of_test "ocr" refl refl)

  pub run_translate_ckpt-KeepsDone :
      (lang : String) (markers : Bool) (srt : String)
      → KeepsDone c (run_translate_ckpt tools dir (some c) lang markers srt)
  unfolding run_translate_ckpt
  run_translate_ckpt-KeepsDone lang markers srt =
      checkpointed-KeepsDone c "translate" _ _ (IsPiece-of_test "translate" refl refl)

  pub run_ocr_translate_step-KeepsDone :
      (lang : String) (markers : Bool) (v : String)
      → KeepsDone c (run_ocr_translate_step tools dir (some c) lang markers v)
  unfolding run_ocr_translate_step
  run_ocr_translate_step-KeepsDone lang markers v =
      and_then-KeepsDone c _ _ (run_ocr_ckpt-KeepsDone v)
        (run_translate_ckpt-KeepsDone lang markers)

  pub run_audio_video-KeepsDone :
      (params : AudioParams) (subdir : String) (blur : Bool) (v srt : String)
      → KeepsDone c (run_audio_video tools dir (some c) params subdir blur v srt)
  unfolding run_audio_video run_audio_ckpt run_video_ckpt
  run_audio_video-KeepsDone params subdir blur v srt =
      and_then-KeepsDone c _ _
        (checkpointed-KeepsDone c "audio" _ _ (IsPiece-of_test "audio" refl refl))
        (λ out.
          and_then-KeepsDone c _ _
            (and_then-KeepsDone c _ _
              (checkpointed-KeepsDone c "video" _ _ (IsPiece-of_test "video" refl refl))
              (λ _. outside-KeepsDone c (tools.copy out.output_srt_path dir)))
            (λ _. giving-KeepsDone c out (tools.adjust_nonfatal v srt out)))

  pub validate_outputs-KeepsDone :
      (label : String) (out : AudioOut)
      → KeepsDone c (validate_outputs tools dir (some c) label out)
  unfolding validate_outputs KeepsDone
  validate_outputs-KeepsDone label out = and_then-KeepsDone c _ _ (wav out.output_wav_path) (λ p.
      outside-KeepsDone c (
        validate_files tools (out.output_srt_path ∷ p ∷ path_join dir "output_modified.mp4" ∷ [])
          label))
    where
      wav :
          (o : Option String)
          → KeepsDone c (wav_path tools dir (some c) (record out { output_wav_path = o }))
      wav none s has = (has, λ j named was. was)
      wav (some p) s has = (has, λ j named was. was)

  pub run_ocr_full_pipeline-KeepsDone :
      (params : AudioParams) (markers : Bool) (subdir : String) (blur : Bool) (label v : String)
      → KeepsDone c (run_ocr_full_pipeline tools dir (some c) params markers subdir blur label v)
  unfolding run_ocr_full_pipeline
  run_ocr_full_pipeline-KeepsDone params markers subdir blur label v =
      and_then-KeepsDone c _ _ (run_ocr_translate_step-KeepsDone params.target_language markers v)
        (λ srt.
          and_then-KeepsDone c _ _ (run_audio_video-KeepsDone params subdir blur v srt)
            (λ out. checked out (is_nonempty label)))
    where
      checked :
          (out : AudioOut) (b : Bool)
          → KeepsDone c
              (λ s. if b then validate_outputs tools dir (some c) label out s else (ok tt, s))
      checked out true = validate_outputs-KeepsDone label out
      checked out false = returns-KeepsDone c tt (λ w. w)

  -- A run of the OCR pipeline for a job that is in the table, whether it returns or raises at any
  -- step, leaves every step done that was done: no work of an earlier run is thrown away.
  pub run_ocr_full_pipeline-is_done :
      (params : AudioParams) (markers : Bool) (subdir : String) (blur : Bool) (label v : String)
      (s : JobQueue × W) (j : String)
      → has_job c s.0 ≡ true
      → is_nonempty j ≡ true
      → is_done (some c) j s.0 ≡ true
      → is_done
          (some c)
          j
          (run_ocr_full_pipeline tools dir (some c) params markers subdir blur label v s).1.0
        ≡ true
  unfolding KeepsDone
  run_ocr_full_pipeline-is_done params markers subdir blur label v s j has named was =
      (run_ocr_full_pipeline-KeepsDone params markers subdir blur label v s has).1 j named was
