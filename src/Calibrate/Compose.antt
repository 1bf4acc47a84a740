-- ===== src/Calibrate/Compose.antt =====
-- chatterbox-server/routes/files.py: `_build_corrected_srt` and `build_corrected_srt`. The format of a
-- time is the `srt` library's, an argument.
use ziguijia_translate_ml.Common.{
  ℕ, zero, suc, Option, none, some, List, [], ◌∷◌, ◌++◌, ◌+◌, ◌/◌, ◌%◌, ltb, map, ◌≡◌, refl,
  if◌then◌else◌,
}
use ziguijia_translate_ml.Split.{Text}
use ziguijia_translate_ml.Calibrate.{Displayed, Standard, Texts, is_empty}
use ziguijia_translate_ml.Calibrate.Walk.{Entry, matched, displayed, standard}
use ziguijia_translate_ml.Calibrate.Slots.{align_segments}
use ziguijia_translate_ml.Calibrate.Slots.Laws.{Follows, align_segments-Follows}
use ziguijia_translate_ml.Calibrate.Parse.{
  Subtitle, join_lines, parse_segments, parse_displayed_segments, displayed_segment,
}

-- `str(n)`, with more fuel than there are digits
unfoldable pub digits_of : (fuel n : ℕ) → Text → Text
digits_of zero n after = after
digits_of (suc fuel) n after =
    let this = (48 + n % 10) ∷ after in
    let rest = digits_of fuel (n / 10) this in if ltb n 10 then this else rest

abbrev pub decimal : ℕ → Text
decimal n = digits_of (suc n) n []

-- " --> "
abbrev arrow : Text
arrow = 32 ∷ 45 ∷ 45 ∷ 62 ∷ 32 ∷ []

-- The lines of one entry.
abbrev block : (stamp : ℕ → Text) → (i start finish : ℕ) → Text → List Text → List Text
block stamp i start finish content rest =
    decimal i
    ∷ (stamp start ++ (arrow ++ stamp finish))
    ∷ (if is_empty content then [] ∷ rest else content ∷ [] ∷ rest)

abbrev with_block :
    (stamp : ℕ → Text)
    → (i : ℕ) → (start finish : Option ℕ) → Text
    → Option (List Text)
    → Option (List Text)
with_block stamp i (some start) (some finish) content (some rest) =
    some (block stamp i start finish content rest)
with_block stamp i _ _ content rest = none

-- The lines of the entries from the number `i` on; an entry with no time raises AttributeError.
unfoldable pub corrected_lines : (stamp : ℕ → Text) → (i : ℕ) → List Entry → Option (List Text)
unfolding digits_of
corrected_lines stamp i [] = some []
corrected_lines stamp i (matched s f c ∷ es) =
    with_block stamp i (some s) (some f) c (corrected_lines stamp (suc i) es)
corrected_lines stamp i (displayed s f c ∷ es) =
    with_block stamp i (some s) (some f) c (corrected_lines stamp (suc i) es)
corrected_lines stamp i (standard s f c ∷ es) =
    with_block stamp i s f c (corrected_lines stamp (suc i) es)

abbrev joined : Option (List Text) → Option Text
joined none = none
joined (some lines) = some (join_lines lines)

-- `_build_corrected_srt`
unfoldable pub compose_srt : (stamp : ℕ → Text) → List Entry → Option Text
unfolding corrected_lines join_lines
compose_srt stamp es = joined (corrected_lines stamp 1 es)

abbrev composed : (stamp : ℕ → Text) → Option (List Entry) → Option Text
composed stamp none = none
composed stamp (some es) = compose_srt stamp es

abbrev corrected_from :
    Texts → (stamp : ℕ → Text) → List Standard → Option (List Displayed) → Option Text
corrected_from t stamp standards none = none
corrected_from t stamp standards (some ds) = composed stamp (align_segments t ds standards)

-- `build_corrected_srt`; `none` where the displayed text cannot be parsed
unfoldable pub build_corrected_srt :
    Texts
    → (digit : ℕ → Option ℕ) → (srt_parse : Text → Option (List Subtitle)) → (stamp : ℕ → Text)
    → (displayed_text standard_text : Text) → Option Text
unfolding align_segments compose_srt parse_segments parse_displayed_segments
build_corrected_srt t digit srt_parse stamp displayed_text standard_text =
    corrected_from t stamp (parse_segments digit srt_parse standard_text)
      (parse_displayed_segments srt_parse displayed_text)

is_written :
    (stamp : ℕ → Text) (i cursor : ℕ) (es : List Entry)
    → Follows cursor es
    → (lines : List Text) × (corrected_lines stamp i es ≡ some lines)
unfolding corrected_lines
is_written stamp i cursor [] h = ([], refl)
is_written stamp i cursor (matched s f c ∷ es) h =
    let (lines, e) = is_written stamp (suc i) f es h in (block stamp i s f c lines, rw e)
is_written stamp i cursor (displayed s f c ∷ es) h =
    let (lines, e) = is_written stamp (suc i) f es h in (block stamp i s f c lines, rw e)
is_written stamp i cursor (standard none f c ∷ es) h = absurd h
is_written stamp i cursor (standard (some s) none c ∷ es) h = absurd h
is_written stamp i cursor (standard (some s) (some f) c ∷ es) h =
    let (lines, e) = is_written stamp (suc i) f es h.2 in (block stamp i s f c lines, rw e)

-- The calibration of any displayed text that the parser reads, against any text at all, gives a
-- corrected text: the walk ends, and no entry is left without its times.
pub build_corrected_srt_returns :
    (t : Texts) (digit : ℕ → Option ℕ) (srt_parse : Text → Option (List Subtitle))
    (stamp : ℕ → Text) (displayed_text standard_text : Text) (subs : List Subtitle)
    → srt_parse displayed_text ≡ some subs
    → (corrected : Text) × (build_corrected_srt t digit srt_parse stamp displayed_text standard_text
        ≡ some corrected)
unfolding build_corrected_srt parse_displayed_segments compose_srt
build_corrected_srt_returns t digit srt_parse stamp displayed_text standard_text subs parsed =
    let (es, e, ordered) =
      align_segments-Follows t (map displayed_segment subs)
        (parse_segments digit srt_parse standard_text) in
    let (lines, written) = is_written stamp 1 0 es ordered in
    (join_lines lines, rw (parsed, e, written))
