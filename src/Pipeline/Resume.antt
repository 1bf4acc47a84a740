-- ===== src/Pipeline/Resume.antt =====
-- What the OCR pipeline does when it runs again.
use ziguijia_translate_ml.Common.{
  String, ◌≡◌, ◌≢◌, refl, ap, sym, ◌∙◌, Bool, true, false, Option, none, some, if◌then◌else◌,
  is_nonempty, IsPiece-of_test, path_join,
}
use ziguijia_translate_ml.Queue.{JobQueue}
use ziguijia_translate_ml.Queue.Worker.Errors.{other_exception}
use ziguijia_translate_ml.Checkpoint.{is_valid_step}
use ziguijia_translate_ml.Pipeline.{
  Result, ok, error, AudioOut, AudioParams, CheckpointHelper, Tools, is_done, and_then, giving,
  outside, audio_fallback_paths,
}
use ziguijia_translate_ml.Pipeline.Steps.{
  validate_outputs, run_ocr_ckpt, run_translate_ckpt, run_audio_ckpt, run_video_ckpt,
  run_ocr_translate_step, run_audio_video, run_ocr_full_pipeline,
}
use ziguijia_translate_ml.Pipeline.Keeps.{
  run_ocr_ckpt-KeepsDone, run_translate_ckpt-KeepsDone, run_ocr_translate_step-KeepsDone,
}
use ziguijia_translate_ml.Pipeline.Laws.{
  has_job, checkpointed-Completes, checkpointed-Skips, Completes, Skips, KeepsDone-result,
}

-- Where an earlier statement raised, the whole raises.
pub and_then_ok :
    {W : Type 0} {A B : Type 0} (o : Result A × (JobQueue × W))
    (g : A → JobQueue × W → Result B × (JobQueue × W)) (b : B) (s' : JobQueue × W)
    → and_then o g ≡ (ok b, s')
    → (a : A) × (s : JobQueue × W) × (o ≡ (ok a, s)) × (g a s ≡ (ok b, s'))
and_then_ok (ok a, s) g b s' e = (a, s, refl, e)
and_then_ok (error x, s) g b s' e = cc

module _ {W : Type 0} (tools : Tools W) (dir : String) (c : CheckpointHelper) where
  run_ocr_ckpt-Completes : (v : String) → Completes c "ocr" (run_ocr_ckpt tools dir (some c) v)
  unfolding run_ocr_ckpt
  run_ocr_ckpt-Completes v = checkpointed-Completes c "ocr" _ _ (IsPiece-of_test "ocr" refl refl)

  run_translate_ckpt-Completes :
      (lang : String) (markers : Bool) (srt : String)
      → Completes c "translate" (run_translate_ckpt tools dir (some c) lang markers srt)
  unfolding run_translate_ckpt
  run_translate_ckpt-Completes lang markers srt =
      checkpointed-Completes c "translate" _ _ (IsPiece-of_test "translate" refl refl)

  run_audio_ckpt-Skips :
      (params : AudioParams) (subdir srt : String)
      → Skips c "audio"
          (audio_fallback_paths (path_join dir subdir))
          (run_audio_ckpt tools dir (some c) params subdir srt)
  unfolding run_audio_ckpt
  run_audio_ckpt-Skips params subdir srt = checkpointed-Skips c "audio" _ _

  -- A run of OCR and translation that returns has both steps done.
  pub ocr_translate_done :
      (lang : String) (markers : Bool) (v : String) (s s' : JobQueue × W) (p : String)
      → is_valid_step c.valid_steps "ocr" ≡ true
      → is_valid_step c.valid_steps "translate" ≡ true
      → has_job c s.0 ≡ true
      → run_ocr_translate_step tools dir (some c) lang markers v s ≡ (ok p, s')
      → (is_done (some c) "ocr" s'.0 ≡ true) × (is_done (some c) "translate" s'.0 ≡ true)
  unfolding run_ocr_translate_step Completes
  ocr_translate_done lang markers v s s' p valid_ocr valid_translate has e =
      let (srt, t, e_ocr, e_translate) =
        and_then_ok (run_ocr_ckpt tools dir (some c) v s)
          (run_translate_ckpt tools dir (some c) lang markers) p s' e in
      let (has_t, kept) =
        KeepsDone-result c (run_ocr_ckpt tools dir (some c) v) s (ok srt, t)
          (run_ocr_ckpt-KeepsDone tools dir c v) e_ocr has in
      let (has_s', still) =
        KeepsDone-result c (run_translate_ckpt tools dir (some c) lang markers srt) t (ok p, s')
          (run_translate_ckpt-KeepsDone tools dir c lang markers srt) e_translate has_t in
      (
        still "ocr" refl (run_ocr_ckpt-Completes v s t srt valid_ocr has e_ocr),
        run_translate_ckpt-Completes lang markers srt t s' p valid_translate has_t e_translate,
      )

  returned_out :
      (fallback out : AudioOut) (o : Result Unit × (JobQueue × W)) (s' : JobQueue × W)
      → and_then o (λ _ t. (ok fallback, t)) ≡ (ok out, s')
      → fallback ≡ out
  returned_out fallback out (ok u, s) s' e = cc
  returned_out fallback out (error x, s) s' e = cc

  given_out :
      (fallback out : AudioOut) (o : Result Unit × (JobQueue × W)) (f : W → Result Unit × W)
      (s' : JobQueue × W)
      → and_then o (λ _. giving fallback f) ≡ (ok out, s')
      → fallback ≡ out
  given_out fallback out (ok u, s) f s' e = returned_out fallback out (outside f s) s' e
  given_out fallback out (error x, s) f s' e = cc

  -- The dictionary of a skipped audio step is the fallback.
  run_audio_video_fallback :
      (params : AudioParams) (subdir : String) (blur : Bool) (v srt : String) (s s' : JobQueue × W)
      (out : AudioOut)
      → is_done (some c) "audio" s.0 ≡ true
      → run_audio_video tools dir (some c) params subdir blur v srt s ≡ (ok out, s')
      → audio_fallback_paths (path_join dir subdir) ≡ out
  unfolding run_audio_video Skips
  run_audio_video_fallback params subdir blur v srt s s' out audio_done e =
      given_out fallback out (run_video_ckpt tools dir (some c) blur v srt fallback s)
        (tools.adjust_nonfatal v srt fallback) s'
        (sym (
            ap
              (λ o. and_then o (λ a t.
                and_then (run_video_ckpt tools dir (some c) blur v srt a t)
                  (λ _ t'. giving a (tools.adjust_nonfatal v srt a) t')))
              (run_audio_ckpt-Skips params subdir srt s audio_done))
          ∙ e)
    where
      fallback : AudioOut
      fallback = audio_fallback_paths (path_join dir subdir)

  no_key :
      (msg : String) (t s' : JobQueue × W) (u : Unit)
      (g : String → JobQueue × W → Result Unit × (JobQueue × W))
      → and_then (error (other_exception msg), t) g ≢ (ok u, s')
  no_key msg t s' u g e = cc

  not_validated :
      (label : String) (out : AudioOut) (s s' : JobQueue × W) (u : Unit)
      → out.output_wav_path ≡ none
      → validate_outputs tools dir (some c) label out s ≢ (ok u, s')
  unfolding validate_outputs
  not_validated label out s s' u no_wav e = by_wav out.output_wav_path no_wav e
    where
      by_wav :
          (o : Option String)
          → o ≡ none
          → validate_outputs tools dir (some c) label (record out { output_wav_path = o }) s
            ≢ (ok u, s')
      by_wav none is_none e = cc
      by_wav (some p) is_none e = cc

  if_labelled :
      (b : Bool) (label : String) (out : AudioOut) (s s' : JobQueue × W) (u : Unit)
      → b ≡ true
      → out.output_wav_path ≡ none
      → (if b then validate_outputs tools dir (some c) label out s else (ok tt, s)) ≢ (ok u, s')
  if_labelled true label out s s' u h no_wav e = not_validated label out s s' u no_wav e
  if_labelled false label out s s' u h no_wav e = cc

  -- Where the audio step of a job is done, the OCR pipeline that checks its output files does not
  -- return: the paths that stand in for a skipped audio step have no `output_wav_path`. So a job of
  -- this kind that failed behind the audio step cannot be completed by another run.
  pub run_ocr_full_pipeline_stuck :
      (params : AudioParams) (markers : Bool) (subdir : String) (blur : Bool) (label v : String)
      (s s' : JobQueue × W) (u : Unit)
      → has_job c s.0 ≡ true
      → is_done (some c) "audio" s.0 ≡ true
      → is_nonempty label ≡ true
      → run_ocr_full_pipeline tools dir (some c) params markers subdir blur label v s ≢ (ok u, s')
  unfolding run_ocr_full_pipeline audio_fallback_paths
  run_ocr_full_pipeline_stuck params markers subdir blur label v s s' u has audio_done labelled e =
      let (srt, t, e_srt, rest) =
        and_then_ok (run_ocr_translate_step tools dir (some c) params.target_language markers v s)
          (λ srt s'.
            and_then (run_audio_video tools dir (some c) params subdir blur v srt s') (λ out s''.
              if is_nonempty label
              then validate_outputs tools dir (some c) label out s''
              else (ok tt, s'')))
          u s' e in
      let (has_t, kept) =
        KeepsDone-result c
          (run_ocr_translate_step tools dir (some c) params.target_language markers v) s (ok srt, t)
          (run_ocr_translate_step-KeepsDone tools dir c params.target_language markers v) e_srt
          has in
      let (out, t', e_out, last) =
        and_then_ok (run_audio_video tools dir (some c) params subdir blur v srt t)
          (λ out s''.
            if is_nonempty label
            then validate_outputs tools dir (some c) label out s''
            else (ok tt, s''))
          u s' rest in
      let is_fallback =
        run_audio_video_fallback params subdir blur v srt t t' out (kept "audio" refl audio_done)
          e_out in
      if_labelled (is_nonempty label) label out t' s' u labelled
        (ap (λ (x : AudioOut). x.output_wav_path) (sym is_fallback)) last
