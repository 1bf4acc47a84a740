-- ===== src/Examples/Calibrations.antt =====
-- Tests of the calibration, and runs of its theorems.
use ziguijia_translate_ml.Common.{
  ℕ, suc, ◌≡◌, ◌≤◌, ◌-◌, ◌==◌, leb, ◌&&◌, if◌then◌else◌, refl, Option, none, some, List, [], ◌∷◌,
  arith, length, map,
}
use ziguijia_translate_ml.Split.{Text}
use ziguijia_translate_ml.Calibrate.{Displayed, Standard, Texts, min, chinese_key}
use ziguijia_translate_ml.Calibrate.Walk.{Entry, matched, displayed, standard, walk}
use ziguijia_translate_ml.Calibrate.Walk.Merge.{Merge, walk-Merge}
use ziguijia_translate_ml.Calibrate.Walk.Range.{Range}
use ziguijia_translate_ml.Calibrate.Slots.{align_segments}
use ziguijia_translate_ml.Calibrate.Slots.Laws.{
  time, times, times-align_segments, Follows, align_segments-Follows,
}
use ziguijia_translate_ml.Calibrate.Parse.{Subtitle, parse_segments}

-- Texts that correspond only where one is the other.
abbrev all_equal : Text → Text → ℕ
all_equal [] b = 0
all_equal a [] = 0
all_equal (x ∷ a) (y ∷ b) = let n = all_equal a b in if x == y then suc n else n

abbrev exact : Texts
exact = record { matches = all_equal; lower = λ s. s }

-- Displayed and standard segments of one Chinese character each.
abbrev shown : (start finish c : ℕ) → Displayed
shown start finish c = record { start = start; finish = finish; content = c ∷ []; key = c ∷ [] }

abbrev untimed : ℕ → Standard
untimed c = record { start = none; finish = none; content = c ∷ 33 ∷ []; key = c ∷ [] }

abbrev timed : (start finish c : ℕ) → Standard
timed start finish c = record {
  start = some start;
  finish = some finish;
  content = c ∷ 33 ∷ [];
  key = c ∷ [];
}

abbrev three : List Displayed
three = shown 0 1000 20000 ∷ shown 1000 2000 20001 ∷ shown 5000 6000 20002 ∷ []

-- The second displayed segment has no standard one, and a standard one is missing in the display.
abbrev standards : List Standard
standards = untimed 20000 ∷ untimed 20009 ∷ untimed 20002 ∷ untimed 20008 ∷ []

calibrated :
    align_segments exact three standards
    ≡ some (
        matched 0 1000 (20000 ∷ 33 ∷ [])
        ∷ displayed 1000 2000 (20001 ∷ [])
        ∷ standard (some 2000) (some 4000) (20009 ∷ 33 ∷ [])
        ∷ matched 5000 6000 (20002 ∷ 33 ∷ [])
        ∷ [])
unfolding align_segments
calibrated = refl

-- A standard-only entry is placed at its own time, behind the entry that follows it.
out_of_order :
    align_segments exact
      (shown 0 1000 20000 ∷ shown 2000 3000 20002 ∷ [])
      (untimed 20000 ∷ timed 10000 12000 20009 ∷ untimed 20002 ∷ [])
    ≡ some (
        matched 0 1000 (20000 ∷ 33 ∷ [])
        ∷ standard (some 10000) (some 12000) (20009 ∷ 33 ∷ [])
        ∷ matched 2000 3000 (20002 ∷ 33 ∷ [])
        ∷ [])
unfolding align_segments
out_of_order = refl

-- "行\nOkay" has the key "行".
key_ok : chinese_key (34892 ∷ 10 ∷ 79 ∷ 107 ∷ 97 ∷ 121 ∷ []) ≡ 34892 ∷ []
unfolding chinese_key
key_ok = refl

abbrev ascii_digit : ℕ → Option ℕ
ascii_digit c = if leb 48 c && leb c 57 then some (c - 48) else none

abbrev no_subtitles : Text → Option (List Subtitle)
no_subtitles text = some []

-- "#1 [0:11 - 00:14]\n行\n# 02[00:15-00:16]叉"
marked_text :
    map {B = Option ℕ × Option ℕ × Text}
      (λ (s : Standard). (s.start, s.finish, s.content))
      (parse_segments ascii_digit no_subtitles (
        35 ∷ 49 ∷ 32 ∷ 91 ∷ 48 ∷ 58 ∷ 49 ∷ 49 ∷ 32 ∷ 45 ∷ 32 ∷ 48 ∷ 48 ∷ 58 ∷ 49 ∷ 52 ∷ 93 ∷ 10
        ∷ 34892 ∷ 10 ∷ 35 ∷ 32 ∷ 48 ∷ 50 ∷ 91 ∷ 48 ∷ 48 ∷ 58 ∷ 49 ∷ 53 ∷ 45 ∷ 48 ∷ 48 ∷ 58 ∷ 49 ∷ 54
        ∷ 93 ∷ 21449 ∷ []))
    ≡ (some 11000, some 14000, 34892 ∷ []) ∷ (some 15000, some 16000, 21449 ∷ []) ∷ []
unfolding parse_segments
marked_text = refl

walk-Merge_example :
    (es : List Entry) × (walk exact 8 three standards ≡ some es) × Merge exact three standards es
walk-Merge_example = walk-Merge exact 8 three standards (omega arith)

abbrev entries : List Entry
entries =
    displayed 0 1 (7 ∷ [])
    ∷ matched 1 2 []
    ∷ standard none none []
    ∷ matched 2 3 []
    ∷ standard none none []
    ∷ []

times-align_segments_example :
    (es : List Entry) × (align_segments exact three standards ≡ some es)
    × (times es ≡ map time three)
times-align_segments_example = times-align_segments exact three standards

align_segments-Follows_example :
    (es : List Entry) × (align_segments exact three standards ≡ some es) × Follows 0 es
align_segments-Follows_example = align_segments-Follows exact three standards

all_equal-le : (a b : Text) → all_equal a b ≤ min (length a) (length b)
all_equal-le [] b = ground arith
all_equal-le (x ∷ a) [] = ground arith
all_equal-le (x ∷ a) (y ∷ b) = ground (arith, all_equal-le a b)

abbrev one_subtitle : Text → Option (List Subtitle)
one_subtitle text = some (record { start = 0; finish = 1000; content = 20000 ∷ [] } ∷ [])
