-- ===== src/Pipeline/Complete.antt =====
-- What a run of the OCR pipeline that returns has done.
use ziguijia_translate_ml.Common.{
  String, ◌≡◌, refl, Bool, true, false, some, if◌then◌else◌, is_nonempty, IsPiece-of_test,
}
use ziguijia_translate_ml.Queue.{JobQueue}
use ziguijia_translate_ml.Checkpoint.{is_valid_step}
use ziguijia_translate_ml.Pipeline.{
  Result, ok, AudioOut, AudioParams, CheckpointHelper, Tools, is_done, and_then, giving,
}
use ziguijia_translate_ml.Pipeline.Steps.{
  validate_outputs, run_audio_ckpt, run_video_ckpt, run_ocr_translate_step, run_audio_video,
  run_ocr_full_pipeline,
}
use ziguijia_translate_ml.Pipeline.Laws.{
  has_job, KeepsDone, outside-KeepsDone, checkpointed-KeepsDone, and_then-KeepsDone,
  returns-KeepsDone, giving-KeepsDone, checkpointed-Completes, Completes, KeepsDone-result,
}
use ziguijia_translate_ml.Pipeline.Keeps.{
  run_ocr_translate_step-KeepsDone, run_audio_video-KeepsDone, validate_outputs-KeepsDone,
}
use ziguijia_translate_ml.Pipeline.Resume.{and_then_ok, ocr_translate_done}

module _ {W : Type 0} (tools : Tools W) (dir : String) (c : CheckpointHelper) where
  run_audio_ckpt-Completes :
      (params : AudioParams) (subdir srt : String)
      → Completes c "audio" (run_audio_ckpt tools dir (some c) params subdir srt)
  unfolding run_audio_ckpt
  run_audio_ckpt-Completes params subdir srt =
      checkpointed-Completes c "audio" _ _ (IsPiece-of_test "audio" refl refl)

  run_audio_ckpt-KeepsDone :
      (params : AudioParams) (subdir srt : String)
      → KeepsDone c (run_audio_ckpt tools dir (some c) params subdir srt)
  unfolding run_audio_ckpt
  run_audio_ckpt-KeepsDone params subdir srt =
      checkpointed-KeepsDone c "audio" _ _ (IsPiece-of_test "audio" refl refl)

  -- A step that is done when the first of two statements returns is done when the second does.
  and_then-Completes :
      {A B : Type 0} (name : String) (f : JobQueue × W → Result A × (JobQueue × W))
      (g : A → JobQueue × W → Result B × (JobQueue × W))
      → is_nonempty name ≡ true
      → Completes c name f
      → KeepsDone c f
      → ((a : A) → KeepsDone c (g a))
      → Completes c name (λ s. and_then (f s) g)
  unfolding Completes
  and_then-Completes name f g named cf kf kg s s' b valid has e =
      let (a, t, e_f, e_g) = and_then_ok (f s) g b s' e in
      let (has_t, kept) = KeepsDone-result c f s (ok a, t) kf e_f has in
      let (has_s', still) = KeepsDone-result c (g a) t (ok b, s') (kg a) e_g has_t in
      still name named (cf s t a valid has e_f)

  run_video_ckpt-Completes :
      (blur : Bool) (v srt : String) (out : AudioOut)
      → Completes c "video" (run_video_ckpt tools dir (some c) blur v srt out)
  unfolding run_video_ckpt
  run_video_ckpt-Completes blur v srt out =
      and_then-Completes "video" _ _ refl
        (checkpointed-Completes c "video" _ _ (IsPiece-of_test "video" refl refl))
        (checkpointed-KeepsDone c "video" _ _ (IsPiece-of_test "video" refl refl))
        (λ _. outside-KeepsDone c (tools.copy out.output_srt_path dir))

  run_video_ckpt-KeepsDone :
      (blur : Bool) (v srt : String) (out : AudioOut)
      → KeepsDone c (run_video_ckpt tools dir (some c) blur v srt out)
  unfolding run_video_ckpt
  run_video_ckpt-KeepsDone blur v srt out =
      and_then-KeepsDone c _ _
        (checkpointed-KeepsDone c "video" _ _ (IsPiece-of_test "video" refl refl))
        (λ _. outside-KeepsDone c (tools.copy out.output_srt_path dir))

  audio_video_done :
      (params : AudioParams) (subdir : String) (blur : Bool) (v srt : String) (s s' : JobQueue × W)
      (out : AudioOut)
      → is_valid_step c.valid_steps "audio" ≡ true
      → is_valid_step c.valid_steps "video" ≡ true
      → has_job c s.0 ≡ true
      → run_audio_video tools dir (some c) params subdir blur v srt s ≡ (ok out, s')
      → (is_done (some c) "audio" s'.0 ≡ true) × (is_done (some c) "video" s'.0 ≡ true)
  unfolding run_audio_video Completes
  audio_video_done params subdir blur v srt s s' out valid_audio valid_video has e =
      let rest : (a : AudioOut) → JobQueue × W → Result AudioOut × (JobQueue × W) = λ a t.
        and_then (run_video_ckpt tools dir (some c) blur v srt a t)
          (λ _ t'. giving a (tools.adjust_nonfatal v srt a) t') in
      let keeps : (a : AudioOut) → KeepsDone c (rest a) = λ a.
        and_then-KeepsDone c (run_video_ckpt tools dir (some c) blur v srt a)
          (λ _ t'. giving a (tools.adjust_nonfatal v srt a) t')
          (run_video_ckpt-KeepsDone blur v srt a)
          (λ _. giving-KeepsDone c a (tools.adjust_nonfatal v srt a)) in
      let (a, t, e_audio, e_rest) =
        and_then_ok (run_audio_ckpt tools dir (some c) params subdir srt s) rest out s' e in
      let (has_t, kept) =
        KeepsDone-result c (run_audio_ckpt tools dir (some c) params subdir srt) s (ok a, t)
          (run_audio_ckpt-KeepsDone params subdir srt) e_audio has in
      (
        and_then-Completes "audio" (run_audio_ckpt tools dir (some c) params subdir srt) rest refl
            (run_audio_ckpt-Completes params subdir srt)
            (run_audio_ckpt-KeepsDone params subdir srt) keeps s s' out valid_audio has e,
        and_then-Completes "video" (run_video_ckpt tools dir (some c) blur v srt a)
            (λ _ t'. giving a (tools.adjust_nonfatal v srt a) t') refl
            (run_video_ckpt-Completes blur v srt a) (run_video_ckpt-KeepsDone blur v srt a)
            (λ _. giving-KeepsDone c a (tools.adjust_nonfatal v srt a)) t s' out valid_video has_t
            e_rest,
      )

  -- A run of the OCR pipeline that returns, for a job that is in the table and has these valid steps,
  -- has OCR, translation, audio and video done, whichever of them ran.
  pub run_ocr_full_pipeline_completes :
      (params : AudioParams) (markers : Bool) (subdir : String) (blur : Bool) (label v : String)
      (s s' : JobQueue × W) (u : Unit)
      → is_valid_step c.valid_steps "ocr" ≡ true
      → is_valid_step c.valid_steps "translate" ≡ true
      → is_valid_step c.valid_steps "audio" ≡ true
      → is_valid_step c.valid_steps "video" ≡ true
      → has_job c s.0 ≡ true
      → run_ocr_full_pipeline tools dir (some c) params markers subdir blur label v s ≡ (ok u, s')
      → (is_done (some c) "ocr" s'.0 ≡ true)
        × (is_done (some c) "translate" s'.0 ≡ true)
        × (is_done (some c) "audio" s'.0 ≡ true)
        × (is_done (some c) "video" s'.0 ≡ true)
  unfolding run_ocr_full_pipeline
  run_ocr_full_pipeline_completes params markers subdir blur label v s s' u vo vt va vv has e =
      let last : AudioOut → JobQueue × W → Result Unit × (JobQueue × W) = λ out t.
        if is_nonempty label then validate_outputs tools dir (some c) label out t else (ok tt, t) in
      let rest : String → JobQueue × W → Result Unit × (JobQueue × W) =
        λ srt t. and_then (run_audio_video tools dir (some c) params subdir blur v srt t) last in
      let (srt, t, e_srt, e_rest) =
        and_then_ok (run_ocr_translate_step tools dir (some c) params.target_language markers v s)
          rest u s' e in
      let (has_t, kept) =
        KeepsDone-result c
          (run_ocr_translate_step tools dir (some c) params.target_language markers v) s (ok srt, t)
          (run_ocr_translate_step-KeepsDone tools dir c params.target_language markers v) e_srt
          has in
      let (ocr_done, translate_done) =
        ocr_translate_done tools dir c params.target_language markers v s t srt vo vt has e_srt in
      let (out, t', e_out, e_last) =
        and_then_ok (run_audio_video tools dir (some c) params subdir blur v srt t) last u s'
          e_rest in
      let (has_t', kept') =
        KeepsDone-result c (run_audio_video tools dir (some c) params subdir blur v srt) t
          (ok out, t') (run_audio_video-KeepsDone tools dir c params subdir blur v srt) e_out
          has_t in
      let (audio_done, video_done) =
        audio_video_done params subdir blur v srt t t' out va vv has_t e_out in
      let (has_s', still) =
        KeepsDone-result c (last out) t' (ok u, s') (checked (is_nonempty label) out) e_last
          has_t' in
      (
        still "ocr" refl (kept' "ocr" refl ocr_done),
        still "translate" refl (kept' "translate" refl translate_done),
        still "audio" refl audio_done,
        still "video" refl video_done,
      )
    where
      checked :
          (b : Bool) (out : AudioOut)
          → KeepsDone c (λ (t : JobQueue × W).
            if b then validate_outputs tools dir (some c) label out t else (ok tt, t))
      checked true out = validate_outputs-KeepsDone tools dir c label out
      checked false out = returns-KeepsDone c tt (λ w. w)
