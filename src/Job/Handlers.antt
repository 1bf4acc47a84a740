-- ===== src/Job/Handlers.antt =====
-- chatterbox-server/job_types.py: the registry of job handlers and their labels. The import of a
-- handler's module is Python's, so it is a parameter.
use ziguijia_translate_ml.Common.{
  String, ◌≡◌, refl, Option, none, some, List, [], ◌∷◌, is_some, is_nonempty, if◌then◌else◌, lookup,
  keys, is_some-lookup, elem-eq_of_subset,
}

-- `_HANDLER_MODULES`
abbrev pub handler_modules : List (String × (String × String))
handler_modules =
    ("_run_gen_audio", ("audio_job", "_run_gen_audio"))
    ∷ ("_run_audio_segmentation_job", ("audio_job", "_run_audio_segmentation_job"))
    ∷ ("_run_tts_job", ("tts_job", "_run_tts_job"))
    ∷ ("_run_video_job", ("video_ning_job", "_run_video_job"))
    ∷ ("_run_video_ning_ocr_job", ("video_ning_job", "_run_video_ning_ocr_job"))
    ∷ (
      "_run_video_ning_ocr_translate_only_job",
      ("video_ning_job", "_run_video_ning_ocr_translate_only_job"),
    )
    ∷ ("_run_video_ning_auto_job", ("video_ning_job", "_run_video_ning_auto_job"))
    ∷ ("_run_video_custom_job", ("video_custom_job", "_run_video_custom_job"))
    ∷ ("_run_video_auto_job", ("video_custom_job", "_run_video_auto_job"))
    ∷ ("_run_video_ocr_job", ("video_custom_job", "_run_video_ocr_job"))
    ∷ (
      "_run_video_ocr_translate_only_job",
      ("video_custom_job", "_run_video_ocr_translate_only_job"),
    )
    ∷ ("_run_ocr_only_job", ("video_ocr_job", "_run_ocr_only_job"))
    ∷ []

-- `_JOB_TYPE_LABELS`
abbrev pub job_type_labels : List (String × String)
job_type_labels =
    ("_run_gen_audio", "音频生成")
    ∷ ("_run_video_job", "宁视频翻译")
    ∷ ("_run_video_custom_job", "自定义视频")
    ∷ ("_run_tts_job", "语音合成")
    ∷ ("_run_video_auto_job", "自动翻译视频")
    ∷ ("_run_audio_segmentation_job", "音频分段合成")
    ∷ ("_run_video_ocr_job", "OCR翻译视频")
    ∷ ("_run_video_ocr_translate_only_job", "OCR仅翻译视频（自定义）")
    ∷ ("_run_video_ning_ocr_job", "宁视频OCR翻译")
    ∷ ("_run_video_ning_ocr_translate_only_job", "宁视频OCR仅翻译")
    ∷ ("_run_video_ning_auto_job", "宁视频语音识别翻译")
    ∷ ("_run_ocr_only_job", "视频OCR提取字幕")
    ∷ []

-- What importing an attribute of a module gives.
pub data Imported {ℓ} (H : Type ℓ) : Type ℓ where
  attribute : H → Imported H
  import_error : String → Imported H

-- What `_get_run_func` gives: a handler, `None`, or the exception of the import.
pub data RunFunc {ℓ} (H : Type ℓ) : Type ℓ where
  run_func : H → RunFunc H
  no_run_func : RunFunc H
  raised : String → RunFunc H

module _ {ℓ} {H : Type ℓ} (import_attr : String → String → Imported H) where
  of_import : Imported H → RunFunc H
  of_import (attribute h) = run_func h
  of_import (import_error e) = raised e

  of_spec : Option (String × String) → RunFunc H
  unfolding of_import
  of_spec none = no_run_func
  of_spec (some (module_name, attr_name)) = of_import (import_attr module_name attr_name)

  unfoldable pub get_run_func : String → RunFunc H
  unfolding of_spec
  get_run_func name = of_spec (lookup name handler_modules)

  of_import-run_func : (i : Imported H) (h : H) → of_import i ≡ run_func h → i ≡ attribute h
  unfolding of_import
  of_import-run_func (attribute g) h e = cc
  of_import-run_func (import_error m) h e = cc

  -- A handler comes from a module by its import.
  pub get_run_func-import :
      (name : String) (h : H)
      → get_run_func name ≡ run_func h
      → (m : String) × (a : String) × (import_attr m a ≡ attribute h)
  unfolding get_run_func
  get_run_func-import name h e = of_spec-import (lookup name handler_modules) e
    where
      of_spec-import :
          (spec : Option (String × String))
          → of_spec spec ≡ run_func h
          → (m : String) × (a : String) × (import_attr m a ≡ attribute h)
      of_spec-import none e = cc
      of_spec-import (some (m, a)) e = (m, a, of_import-run_func (import_attr m a) h e)

-- `_JOB_TYPE_LABELS.get(name, name or "未知")`, where the name may be NULL
unfoldable pub get_job_type_label : Option String → String
get_job_type_label none = "未知"
get_job_type_label (some name) = elim (lookup name job_type_labels) [
  | some label ↦ label
  | none ↦ if is_nonempty name then name else "未知"
]

-- A name has a label exactly if it has a handler.
pub labels-handlers :
    (name : String) → is_some (lookup name job_type_labels) ≡ is_some (lookup name handler_modules)
labels-handlers name =
    rw (is_some-lookup, is_some-lookup)
      (elem-eq_of_subset name (keys job_type_labels) (keys handler_modules) refl refl)
