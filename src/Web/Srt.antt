-- ===== src/Web/Srt.antt =====
-- chatterbox-server/middleware.py: `validate_srt_content`, `_validate_srt_language`,
-- `validate_srt_target_language` and `validate_file_upload`. A text is a list of code points, and a
-- ValueError is its message.
pub mod Mixed
use ziguijia_translate_ml.Common.{
  ℕ, String, Bool, true, false, not, Option, none, some, List, [], ◌∷◌, ◌+◌, ◌*◌, ◌&&◌, ◌||◌, ltb,
  leb, ◌==◌, length, keep, is_some, if◌then◌else◌,
}
use ziguijia_translate_ml.Split.{Text, is_space, lstrip}
use ziguijia_translate_ml.Languages.{
  Counts, language_in, bump, bump_found, validate_text_matches_target_language,
}
use ziguijia_translate_ml.Calibrate.{is_empty}
use ziguijia_translate_ml.Calibrate.Parse.{
  Reader, ◌>>=◌, read_char, read_digit, read_spaces, read_two, spaces, splitlines, join_lines,
}

-- `text.lstrip("\ufeff")`
unfoldable pub strip_bom : Text → Text
strip_bom [] = []
strip_bom (c ∷ text) = let rest = strip_bom text in if c == 65279 then rest else c ∷ text

-- `line.strip()`
unfoldable pub rstrip : Text → Text
unfolding is_space
rstrip [] = []
rstrip (c ∷ text) = let rest = rstrip text in if is_empty rest && is_space c then [] else c ∷ rest

unfoldable pub strip : Text → Text
unfolding lstrip rstrip
strip line = rstrip (lstrip line)

abbrev pub begins : (part text : Text) → Bool
begins [] text = true
begins (a ∷ part) [] = false
begins (a ∷ part) (c ∷ text) = (a == c) && begins part text

-- `part in text`
unfoldable pub occurs : (part text : Text) → Bool
occurs part [] = begins part []
occurs part (c ∷ text) = let rest = occurs part text in begins part (c ∷ text) || rest

-- `UNICODE_SCRIPTS`, a range of code points in a row
abbrev pub unicode_scripts : List (String × (ℕ × ℕ))
unicode_scripts =
    ("CJK", (19968, 40959))
    ∷ ("CJK", (13312, 19903))
    ∷ ("CJK", (63744, 64255))
    ∷ ("CJK", (12352, 12447))
    ∷ ("CJK", (12448, 12543))
    ∷ ("CJK", (44032, 55215))
    ∷ ("Latin", (97, 122))
    ∷ ("Latin", (65, 90))
    ∷ ("Cyrillic", (1024, 1279))
    ∷ ("Arabic", (1536, 1791))
    ∷ ("Devanagari", (2304, 2431))
    ∷ ("Thai", (3584, 3711))
    ∷ ("Greek", (880, 1023))
    ∷ ("Hebrew", (1424, 1535))
    ∷ []

-- The two inner loops, up to the `break`.
abbrev pub script_of : ℕ → Option String
script_of cp = language_in unicode_scripts cp

unfoldable pub count_line : Text → Counts → Counts
unfolding bump language_in
count_line [] counts = counts
count_line (cp ∷ line) counts = count_line line (bump_found (script_of cp) counts)

unfoldable pub count_lines : List Text → Counts → Counts
unfolding count_line
count_lines [] counts = counts
count_lines (l ∷ ls) counts = count_lines ls (count_line l counts)

-- `sum(script_counts.values())`
unfoldable pub total : Counts → ℕ
total [] = 0
total ((k, n) ∷ counts) = n + total counts

-- `count / total >= 0.15`
abbrev pub above_threshold : (total : ℕ) → Counts → Counts
above_threshold t counts = keep (λ (e : String × ℕ). leb (3 * t) (20 * e.1)) counts

abbrev pub language_error : String
language_error = "SRT 文件包含多种语言"

abbrev pub too_many : Counts → Bool
too_many counts = ltb 0 (total counts) && ltb 1 (length (above_threshold (total counts) counts))

-- `str.isdigit` of one character, the decimal digits of a pattern, and `srt.parse`, with the message of
-- the exception that it raises
pub record Library : Type 0 where
  pub is_digit : ℕ → Bool
  pub digit : ℕ → Option ℕ
  pub is_alpha : ℕ → Bool
  pub parse_error : Text → Option String

-- `[,.]`
abbrev pub read_comma : Reader (Unit {0})
read_comma [] = none
read_comma (c ∷ text) = if (c == b',') || (c == b'.') then some (tt, text) else none

module _ (lib : Library) where
  abbrev pub all_digits : Text → Bool
  all_digits [] = true
  all_digits (c ∷ text) = lib.is_digit c && all_digits text

  -- `stripped.isdigit()`
  abbrev pub isdigit : Text → Bool
  isdigit text = not (is_empty text) && all_digits text

  -- `not stripped or stripped.isdigit() or "-->" in stripped`
  abbrev pub is_no_content : Text → Bool
  is_no_content line = is_empty line || isdigit line || occurs (45 ∷ 45 ∷ 62 ∷ []) line

  -- `content_lines`
  unfoldable pub content_lines : List Text → List Text
  unfolding strip occurs
  content_lines [] = []
  content_lines (l ∷ ls) =
      let rest = content_lines ls in if is_no_content (strip l) then rest else strip l ∷ rest

  -- `_validate_srt_language`
  unfoldable pub validate_srt_language : Text → Option String
  unfolding content_lines count_lines splitlines total
  validate_srt_language text =
      if too_many (count_lines (content_lines (splitlines text)) [])
      then some language_error
      else none

  -- `\d{2}:\d{2}:\d{2}[,.]\d{3}`
  abbrev pub read_stamp : Reader ℕ
  read_stamp = do
    _ ← read_two lib.digit
    _ ← read_char b':'
    _ ← read_two lib.digit
    _ ← read_char b':'
    _ ← read_two lib.digit
    _ ← read_comma
    _ ← read_two lib.digit
    read_digit lib.digit

  -- `_SRT_TIMING_RE` at the start of a text
  unfoldable pub read_timing : Reader ℕ
  unfolding read_char read_digit spaces
  read_timing = do
    _ ← read_stamp
    _ ← read_spaces
    _ ← read_char b'-'
    _ ← read_char b'-'
    _ ← read_char b'>'
    _ ← read_spaces
    read_stamp

  -- `_SRT_TIMING_RE.search(text)`
  unfoldable pub has_timing : Text → Bool
  unfolding read_timing
  has_timing [] = false
  has_timing (c ∷ text) = let rest = has_timing text in is_some (read_timing (c ∷ text)) || rest

  abbrev pub first_error : Option String → Option String → Option String
  first_error none later = later
  first_error (some e) later = some e

  -- `validate_srt_content`
  unfoldable pub validate_srt_content : Text → Option String
  unfolding strip_bom has_timing validate_srt_language
  validate_srt_content text =
      if not (has_timing (strip_bom text))
      then some "Uploaded file does not appear to be a valid SRT file"
      else first_error (validate_srt_language (strip_bom text)) (lib.parse_error (strip_bom text))

  -- `validate_corrected_srt_content` of chatterbox-server/routes/files.py
  unfoldable pub validate_corrected_srt_content : Text → Option String
  unfolding strip_bom has_timing
  validate_corrected_srt_content text =
      if not (has_timing (strip_bom text))
      then some "校准后的 SRT 文件格式无效"
      else lib.parse_error (strip_bom text)

  abbrev pub accepts_lines : (target : String) → List Text → Bool
  accepts_lines target [] = true
  accepts_lines target (l ∷ ls) =
      validate_text_matches_target_language lib.is_alpha (join_lines (l ∷ ls)) target

  -- `validate_srt_target_language`, for a target that is stripped and in small letters: whether the
  -- text is accepted
  unfoldable pub validate_srt_target_language : Text → (target : String) → Bool
  unfolding strip_bom splitlines content_lines join_lines validate_text_matches_target_language
  validate_srt_target_language text target =
      accepts_lines target (content_lines (splitlines (strip_bom text)))
