-- ===== src/Examples/Pipelines.antt =====
-- The OCR pipeline with tools that always work, on a world that only counts their runs.
use ziguijia_translate_ml.Common.{ℕ, suc, String, ◌≡◌, refl, true, some, [], ◌∷◌}
use ziguijia_translate_ml.Sql.{select, update_key}
use ziguijia_translate_ml.Queue.{JobQueue}
use ziguijia_translate_ml.Pipeline.{Result, ok, AudioParams, CheckpointHelper, Tools, is_done}
use ziguijia_translate_ml.Pipeline.Steps.{run_ocr_translate_step, run_ocr_full_pipeline}
use ziguijia_translate_ml.Pipeline.Complete.{run_ocr_full_pipeline_completes}
use ziguijia_translate_ml.Pipeline.Keeps.{run_ocr_full_pipeline-is_done}
use ziguijia_translate_ml.Examples.Data.{stored}

abbrev tools : Tools ℕ
tools = record {
  exists = λ p w. true;
  is_file = λ p w. true;
  copy = λ source target w. (ok tt, w);
  download = λ number dir w. (ok 0, suc w);
  sleep = λ w. w;
  show = λ n. "1";
  extract_audio = λ video audio w. (ok (0, []), suc w);
  translate = λ input output lang markers w. (ok 0, suc w);
  ocr = λ video srt frames w. (ok tt, suc w);
  whisper = λ audio srt w. (ok tt, suc w);
  gen_audio = λ srt dir params w. (
    ok (record { output_srt_path = "s"; output_wav_path = some "w"; changed_json_path = "j" }),
    suc w,
  );
  gen_video = λ video srt adjusted changed output blur w. (ok tt, suc w);
  validate_duration = λ video srt w. (ok tt, w);
  adjust_nonfatal = λ video srt out w. (ok tt, w);
}

abbrev params : AudioParams
params = record { temperature = 700; target_language = "en"; cfg_weight = 250; exaggeration = 300 }

abbrev helper : String → CheckpointHelper
helper code = record {
  access_code = code;
  valid_steps = some ("download" ∷ "ocr" ∷ "translate" ∷ "audio" ∷ "video" ∷ []);
}

audio_done : is_done (some (helper "B2")) "audio" stored ≡ true
unfolding is_done select
audio_done = refl

run_ocr_full_pipeline-is_done_example :
    is_done
      (some (helper "B2"))
      "audio"
      (run_ocr_full_pipeline tools "/jobs/1"
        (some (helper "B2"))
        params
        true
        "audio"
        true
        ""
        "v.mp4"
        (stored, 0)).1.0
    ≡ true
unfolding select
run_ocr_full_pipeline-is_done_example =
    run_ocr_full_pipeline-is_done tools "/jobs/1" (helper "B2") params true "audio" true "" "v.mp4"
      (stored, 0) "audio" refl refl audio_done

-- A job with no step done: the first run starts both programs.
abbrev once : Result String × (JobQueue × ℕ)
once = run_ocr_translate_step tools "/jobs/1" (some (helper "A1")) "en" true "v.mp4" (stored, 0)

runs_both : once.1.1 ≡ 2
unfolding run_ocr_translate_step select update_key
runs_both = refl

-- The whole pipeline on the same job.
abbrev whole : Result Unit × (JobQueue × ℕ)
whole =
    run_ocr_full_pipeline tools "/jobs/1" (some (helper "A1")) params true "audio" true "" "v.mp4"
      (stored, 0)

whole_returns : whole ≡ (ok tt, whole.1)
unfolding run_ocr_full_pipeline select update_key
whole_returns = refl

run_ocr_full_pipeline_completes_example :
    (is_done (some (helper "A1")) "ocr" whole.1.0 ≡ true)
    × (is_done (some (helper "A1")) "translate" whole.1.0 ≡ true)
    × (is_done (some (helper "A1")) "audio" whole.1.0 ≡ true)
    × (is_done (some (helper "A1")) "video" whole.1.0 ≡ true)
unfolding select
run_ocr_full_pipeline_completes_example =
    run_ocr_full_pipeline_completes tools "/jobs/1" (helper "A1") params true "audio" true ""
      "v.mp4" (stored, 0) whole.1 tt refl refl refl refl refl whole_returns
