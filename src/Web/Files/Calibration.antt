-- ===== src/Web/Files/Calibration.antt =====
-- chatterbox-server/routes/files.py: `files_correct_srt` and `files_save_corrected_srt`, and
-- `validate_upload_filename` of chatterbox-server/config.py.
use Prim.Native.Char.{code}
use Prim.Native.String.{◌++◌ as str_append}
use text.Mathlib.Text.{starts_with}
use ziguijia_translate_ml.Common.{
  ℕ, String, Bool, false, not, Option, none, some, List, [], ◌∷◌, ◌||◌, ◌==◌, length, keep,
  basename, ends_with, str_eq, if◌then◌else◌,
}
use ziguijia_translate_ml.Split.{Text}
use ziguijia_translate_ml.Calibrate.{Displayed, Standard, Texts, is_empty}
use ziguijia_translate_ml.Calibrate.Walk.{Entry, matched, displayed, standard}
use ziguijia_translate_ml.Calibrate.Walk.Window.{is_matched}
use ziguijia_translate_ml.Calibrate.Slots.{align_segments}
use ziguijia_translate_ml.Calibrate.Parse.{
  Subtitle, is_blank, parse_segments, parse_displayed_segments,
}
use ziguijia_translate_ml.Calibrate.Compose.{compose_srt}
use ziguijia_translate_ml.Web.{Outcome, View, answer, value_error, exception}
use ziguijia_translate_ml.Web.Paths.{Resolved, path_text}
use ziguijia_translate_ml.Web.Srt.{validate_corrected_srt_content}
use ziguijia_translate_ml.Web.Files.{
  Host, World, Body, error, saved, corrected, is_missing, or_empty, with_safe, write,
}

-- `base.rsplit(".", 1)[0]`
unfoldable pub before_last_dot : String → Option String
before_last_dot String.[] = none
before_last_dot (String.◌∷◌ c s) = elim (before_last_dot s) [
  | some t ↦ some (String.◌∷◌ c t)
  | none ↦ if code c == b'.' then some String.[] else none
]

abbrev pub stem : String → String
stem base = elim (before_last_dot base) [ none ↦ base | some t ↦ t ]

-- The last component, and the path with another one in its place.
abbrev pub last_name : Resolved → String
last_name [] = ""
last_name (c ∷ []) = c
last_name (c ∷ d ∷ p) = last_name (d ∷ p)

abbrev pub sibling : Resolved → String → Resolved
sibling [] name = name ∷ []
sibling (c ∷ []) name = name ∷ []
sibling (c ∷ d ∷ p) name = c ∷ sibling (d ∷ p) name

-- `corrected_srt_name` and `corrected_srt_path`
unfoldable pub corrected_srt_name : Resolved → String
unfolding before_last_dot
corrected_srt_name p = str_append (stem (last_name p)) ".corrected.srt"

unfoldable pub corrected_srt_path : Resolved → Resolved
unfolding corrected_srt_name
corrected_srt_path p = sibling p (corrected_srt_name p)

-- What the calibration takes from the libraries, and the file that was uploaded: its name, and its
-- text, or the ValueError of the extraction.
pub record Tools : Type 0 where
  pub texts : Texts
  pub srt_parse : Text → Option (List Subtitle)
  pub stamp : ℕ → Text

pub data Extracted : Type 0 where
  unreadable : String → Extracted
  extracted : Text → Extracted

pub record Upload : Type 0 where
  pub filename : Option String
  pub is_empty_file : Bool
  pub standard_text : Extracted

-- `any(seg["key"] for seg in standard)`
abbrev pub any_key : List Standard → Bool
any_key [] = false
any_key (s ∷ ss) = not (is_empty s.key) || any_key ss

abbrev pub matched_count : List Entry → ℕ
matched_count es = length (keep is_matched es)

-- `displayed_only` and `standard_only`: the contents that are not blank
abbrev pub displayed_only : List Entry → List Text
displayed_only [] = []
displayed_only (displayed s f c ∷ es) =
    let rest = displayed_only es in if is_blank c then rest else c ∷ rest
displayed_only (matched s f c ∷ es) = displayed_only es
displayed_only (standard s f c ∷ es) = displayed_only es

abbrev pub standard_only : List Entry → List Text
standard_only [] = []
standard_only (standard s f c ∷ es) =
    let rest = standard_only es in if is_blank c then rest else c ∷ rest
standard_only (matched s f c ∷ es) = standard_only es
standard_only (displayed s f c ∷ es) = standard_only es

module _ (h : Host) where
  -- `validate_upload_filename`
  unfoldable pub validate_upload_filename : (filename : Option String) → Option String
  unfolding basename
  validate_upload_filename name =
      if is_missing name
      then some "文件名为空"
      else (if starts_with (h.lower (basename (or_empty name))) "output"
          then some "文件名不能以 'output' 开头"
          else none)

  module _ (t : Tools) where
    abbrev pub written_out : (name : String) → List Entry → Option Text → Outcome Body
    written_out name es none = exception "AttributeError"
    written_out name es (some text) =
        answer 200 (
          corrected text name (matched_count es) (length es) (displayed_only es) (standard_only es))

    abbrev pub aligned : (name : String) → Option (List Entry) → Outcome Body
    aligned name none = exception "the walk does not end"
    aligned name (some es) = written_out name es (compose_srt t.stamp es)

    abbrev pub calibrated : (name : String) → List Standard → Option (List Displayed) → Outcome Body
    calibrated name standards none = exception "SRTParseError"
    calibrated name standards (some ds) =
        if not (any_key standards)
        then answer 400 (error "上传的标准文件中没有检测到中文内容")
        else aligned name (align_segments t.texts ds standards)

    abbrev pub calibrate_text : (name : String) → Text → Option Text → Outcome Body
    calibrate_text name standard_text none = exception "OSError"
    calibrate_text name standard_text (some displayed_text) =
        calibrated name (parse_segments h.lib.digit t.srt_parse standard_text)
          (parse_displayed_segments t.srt_parse displayed_text)

    abbrev pub calibrate_upload : Resolved → Extracted → Outcome Body
    calibrate_upload p (unreadable e) = value_error e
    calibrate_upload p (extracted text) =
        calibrate_text (corrected_srt_name p) text (h.read_text (path_text p))

    abbrev pub calibrate_named : Resolved → Upload → Option String → Outcome Body
    calibrate_named p up (some e) = value_error e
    calibrate_named p up none =
        if up.is_empty_file
        then answer 400 (error "Uploaded standard file is empty")
        else calibrate_upload p up.standard_text

    abbrev pub calibrate_at : Option Upload → Resolved → Outcome Body
    calibrate_at none p = answer 400 (error "No standard file uploaded")
    calibrate_at (some up) p = calibrate_named p up (validate_upload_filename up.filename)

    unfoldable pub files_correct_srt : (path : Option String) → Option Upload → View Body World
    unfolding with_safe path_text corrected_srt_name validate_upload_filename parse_segments
        parse_displayed_segments align_segments compose_srt
    files_correct_srt path up w =
        if is_missing path
        then (answer 400 (error "No file specified"), w)
        else with_safe h (or_empty path) (λ p w'. (calibrate_at up p, w')) w

  -- `open(out_path, "w")` of a path that may be new
  abbrev pub create : Resolved → Text → World → World
  create p text w = write h (path_text p) text (record w {
    files = record w.files { is_file = λ q. w.files.is_file q || str_eq q (path_text p) };
  })

  abbrev pub corrected_valid : Resolved → Text → Option String → View Body World
  corrected_valid p text (some e) w = (value_error e, w)
  corrected_valid p text none w =
      if h.write_fails (path_text (corrected_srt_path p)) then (exception "OSError", w) else (
        answer 200 (saved (path_text (corrected_srt_path p)) (corrected_srt_name p)),
        create (corrected_srt_path p) text w,
      )

  unfoldable pub save_corrected_at : Text → Resolved → View Body World
  unfolding ends_with path_text validate_corrected_srt_content corrected_srt_path
  save_corrected_at text p w =
      if not (ends_with (h.lower (path_text p)) ".srt")
      then (answer 400 (error "Only .srt files can be corrected"), w)
      else corrected_valid p text (validate_corrected_srt_content h.lib text) w

  unfoldable pub files_save_corrected_srt :
      (path : Option String) → (content : Option Text) → View Body World
  unfolding with_safe save_corrected_at
  files_save_corrected_srt path none w = (answer 400 (error "Missing path or content"), w)
  files_save_corrected_srt path (some text) w =
      if is_missing path
      then (answer 400 (error "Missing path or content"), w)
      else with_safe h (or_empty path) (save_corrected_at text) w
