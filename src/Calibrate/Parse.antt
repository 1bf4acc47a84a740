-- ===== src/Calibrate/Parse.antt =====
-- chatterbox-server/routes/files.py: `_parse_segments` and `_parse_displayed_segments`. The parser of
-- the `srt` library, and which characters are decimal digits, are arguments.
use ziguijia_translate_ml.Common.{
  ℕ, zero, suc, Bool, true, false, not, Option, none, some, List, [], ◌∷◌, ◌++◌, ◌+◌, ◌-◌, ◌*◌,
  ◌||◌, ◌&&◌, leb, ◌==◌, length, keep, map, is_some, if◌then◌else◌,
}
use ziguijia_translate_ml.Split.{Text, is_space}
use ziguijia_translate_ml.Calibrate.{Displayed, Standard, chinese_key, is_empty}

-- A subtitle of `srt.parse`.
pub record Subtitle : Type 0 where
  pub start : ℕ
  pub finish : ℕ
  pub content : Text

-- The line boundaries of `str.splitlines`
unfoldable pub is_line_break : ℕ → Bool
is_line_break c =
    (leb 10 c && leb c 13) || (leb 28 c && leb c 30) || (c == 133) || (c == 8232) || (c == 8233)

-- A character in front of the first line.
abbrev pub in_front : ℕ → List Text → List Text
in_front c [] = (c ∷ []) ∷ []
in_front c (l ∷ ls) = (c ∷ l) ∷ ls

abbrev pub starts_line_feed : Text → Bool
starts_line_feed [] = false
starts_line_feed (c ∷ text) = c == 10

-- `text.splitlines()`; a carriage return before a line feed is one break with it
unfoldable pub splitlines : Text → List Text
unfolding is_line_break
splitlines [] = []
splitlines (c ∷ text) =
    let rest = splitlines text in
    if (c == 13) && starts_line_feed text
    then rest
    else (if is_line_break c then [] ∷ rest else in_front c rest)

-- `line.strip()`, as a test
abbrev pub is_blank : Text → Bool
is_blank [] = true
is_blank (c ∷ text) = is_space c && is_blank text

unfoldable pub join_lines : List Text → Text
join_lines [] = []
join_lines (l ∷ []) = l
join_lines (l ∷ l' ∷ ls) = l ++ (10 ∷ join_lines (l' ∷ ls))

-- `[line for line in text.splitlines() if line.strip()]`, and those lines joined
unfoldable pub full_lines : Text → List Text
unfolding splitlines is_space
full_lines text = keep (λ l. not (is_blank l)) (splitlines text)

unfoldable pub full_text : Text → Text
unfolding full_lines join_lines
full_text text = join_lines (full_lines text)

abbrev pub segment : Text → (start finish : Option ℕ) → Standard
segment content start finish = record {
  start = start;
  finish = finish;
  content = content;
  key = chinese_key content;
}

-- A reader takes a part of a text: the value, and what follows.
abbrev pub Reader : Type 0 → Type 0
Reader A = Text → Option (A × Text)

infixl 5 ◌>>=◌
abbrev pub ◌>>=◌ : {A B : Type 0} → Reader A → (A → Reader B) → Reader B
◌>>=◌ r f text = elim (r text) [ none ↦ none | some (a, rest) ↦ f a rest ]

-- `\s*`
unfoldable pub spaces : Text → Text
unfolding is_space
spaces [] = []
spaces (c ∷ text) = let rest = spaces text in if is_space c then rest else c ∷ text

abbrev pub read_spaces : Reader (Unit {0})
read_spaces text = some (tt, spaces text)

unfoldable pub read_char : ℕ → Reader (Unit {0})
read_char c [] = none
read_char c (d ∷ text) = if c == d then some (tt, text) else none

module _ (digit : ℕ → Option ℕ) where
  unfoldable pub read_digit : Reader ℕ
  read_digit [] = none
  read_digit (c ∷ text) = elim (digit c) [ none ↦ none | some n ↦ some (n, text) ]

  unfoldable pub skip_digits : Text → Text
  skip_digits [] = []
  skip_digits (c ∷ text) =
      let rest = skip_digits text in if is_some (digit c) then rest else c ∷ text

  -- `\d+`
  abbrev pub read_digits : Reader (Unit {0})
  read_digits text = elim (read_digit text) [
    | none ↦ none
    | some (n, rest) ↦ some (tt, skip_digits rest)
  ]

  -- `\d{2}`, and `\d{1,2}`
  abbrev pub read_two : Reader ℕ
  read_two text = elim (read_digit text) [
    | none ↦ none
    | some (a, rest) ↦ elim (read_digit rest) [
      | none ↦ none
      | some (b, rest') ↦ some (10 * a + b, rest')
    ]
  ]

  abbrev pub read_one_or_two : Reader ℕ
  read_one_or_two text = elim (read_digit text) [
    | none ↦ none
    | some (a, rest) ↦ elim (read_digit rest) [
      | none ↦ some (a, rest)
      | some (b, rest') ↦ some (10 * a + b, rest')
    ]
  ]

  -- A time `mm:ss`
  abbrev pub read_time : Reader ℕ
  read_time = do
    minutes ← read_one_or_two
    _ ← read_char b':'
    seconds ← read_two
    λ text. some (1000 * (60 * minutes + seconds), text)

  -- `_SRT_DOWNLOAD_MARKER_RE` at the start of a text, with `_marker_timing`
  unfoldable pub read_marker : Reader (ℕ × ℕ)
  unfolding read_char read_digit skip_digits spaces
  read_marker = do
    _ ← read_char b'#'
    _ ← read_spaces
    _ ← read_digits
    _ ← read_spaces
    _ ← read_char b'['
    _ ← read_spaces
    start ← read_time
    _ ← read_spaces
    _ ← read_char b'-'
    _ ← read_spaces
    finish ← read_time
    _ ← read_spaces
    _ ← read_char b']'
    λ text. some ((start, finish), text)

  -- The text before the first marker, and each marker with the text up to the next one.
  abbrev pub Pieces : Type 0
  Pieces = Text × List ((ℕ × ℕ) × Text)

  abbrev pub add_char : ℕ → Pieces → Pieces
  add_char c (head, pieces) = (c ∷ head, pieces)

  abbrev pub add_marker : ℕ × ℕ → Pieces → Pieces
  add_marker time (head, pieces) = ([], (time, head) ∷ pieces)

  -- `finditer`, with the slices between the matches; `skip` characters belong to the last match.
  unfoldable pub scan : (skip : ℕ) → Text → Pieces
  unfolding read_marker
  scan skip [] = ([], [])
  scan (suc skip) (c ∷ text) = scan skip text
  scan zero (c ∷ text) = elim (read_marker (c ∷ text)) [
    | none ↦ add_char c (scan zero text)
    | some (time, rest) ↦ add_marker time (scan (length text - length rest) text)
  ]

  abbrev pub marked_segment : (ℕ × ℕ) × Text → Standard
  marked_segment ((start, finish), text) = segment (full_text text) (some start) (some finish)

  abbrev pub headed : Text → List Standard → List Standard
  headed content segments =
      if is_empty content then segments else segment content none none ∷ segments

  abbrev pub timed_segment : Subtitle → Standard
  timed_segment s = segment s.content (some s.start) (some s.finish)

  abbrev pub line_segment : Text → Standard
  line_segment line = segment line none none

  -- Where there are not two markers: the subtitles, if the parser finds some, or else the lines.
  abbrev pub plain_segments : Option (List Subtitle) → Text → List Standard
  plain_segments (some (s ∷ subs)) text = map timed_segment (s ∷ subs)
  plain_segments _ text = map line_segment (full_lines text)

  abbrev pub marked_segments :
      (srt_parse : Text → Option (List Subtitle)) → Text → Pieces → List Standard
  marked_segments srt_parse text (head, m ∷ m' ∷ pieces) =
      headed (full_text head) (map marked_segment (m ∷ m' ∷ pieces))
  marked_segments srt_parse text _ = plain_segments (srt_parse text) text

  -- `_parse_segments`; the parser gives `none` where it raises
  unfoldable pub parse_segments : (srt_parse : Text → Option (List Subtitle)) → Text → List Standard
  unfolding scan full_text
  parse_segments srt_parse text = marked_segments srt_parse text (scan zero text)

abbrev pub displayed_segment : Subtitle → Displayed
displayed_segment s = record {
  start = s.start;
  finish = s.finish;
  content = s.content;
  key = chinese_key s.content;
}

-- `_parse_displayed_segments`, which raises what the parser raises
abbrev pub displayed_of : Option (List Subtitle) → Option (List Displayed)
displayed_of none = none
displayed_of (some subs) = some (map displayed_segment subs)

unfoldable pub parse_displayed_segments :
    (srt_parse : Text → Option (List Subtitle)) → Text → Option (List Displayed)
parse_displayed_segments srt_parse text = displayed_of (srt_parse text)
