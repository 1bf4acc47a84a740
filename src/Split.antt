-- ===== src/Split.antt =====
-- gen_audio/gen_audio.py, `split_text`, and chatterbox-server/audio_job.py, `_split_text`, which has
-- the same body: a text for the speech model is cut into chunks. A text is a list of code points.
pub mod Cut
pub mod Laws
use ziguijia_translate_ml.Common.{
  ℕ, zero, suc, Bool, true, false, Option, none, some, List, [], ◌∷◌, ◌&&◌, ◌||◌, ltb, leb, ◌==◌,
  length, if◌then◌else◌,
}

abbrev pub Text : Type 0
Text = List ℕ

-- `s[:n]` and `s[n:]`
unfoldable pub take : ℕ → Text → Text
take zero s = []
take (suc n) [] = []
take (suc n) (c ∷ s) = c ∷ take n s

unfoldable pub drop : ℕ → Text → Text
drop zero s = s
drop (suc n) [] = []
drop (suc n) (c ∷ s) = drop n s

-- `c.isspace()`: tab to carriage return, the separators 28 to 31, and the spaces of Unicode
unfoldable pub is_space : ℕ → Bool
is_space c =
    (leb 9 c && leb c 13)
    || (leb 28 c && leb c 32)
    || (c == 133)
    || (c == 160)
    || (c == 5760)
    || (leb 8192 c && leb c 8202)
    || (leb 8232 c && leb c 8233)
    || (c == 8239)
    || (c == 8287)
    || (c == 12288)

unfoldable pub lstrip : Text → Text
lstrip [] = []
lstrip (c ∷ s) = let rest = lstrip s in if is_space c then rest else c ∷ s

unfoldable pub starts_with : (sep s : Text) → Bool
starts_with [] s = true
starts_with (a ∷ sep) [] = false
starts_with (a ∷ sep) (c ∷ s) = (a == c) && starts_with sep s

-- `s.rfind(sep)`, where none stands for -1
unfoldable pub rfind : (sep s : Text) → Option ℕ
unfolding starts_with
rfind sep [] = none
rfind sep (c ∷ s) = elim (rfind sep s) [
  | some i ↦ some (suc i)
  | none ↦ if starts_with sep (c ∷ s) then some 0 else none
]

-- The sentence ends: a full stop, an exclamation mark or a question mark, before a space, a newline
-- or a carriage return and a newline.
abbrev pub separators : List Text
separators =
    (46 ∷ 32 ∷ [])
    ∷ (33 ∷ 32 ∷ [])
    ∷ (63 ∷ 32 ∷ [])
    ∷ (46 ∷ 10 ∷ [])
    ∷ (33 ∷ 10 ∷ [])
    ∷ (63 ∷ 10 ∷ [])
    ∷ (46 ∷ 13 ∷ 10 ∷ [])
    ∷ (33 ∷ 13 ∷ 10 ∷ [])
    ∷ (63 ∷ 13 ∷ 10 ∷ [])
    ∷ []

-- `if pos > last_boundary: last_boundary = pos + 1`, where none stands for -1
unfoldable pub later_boundary : (pos last_boundary : Option ℕ) → Option ℕ
later_boundary none b = b
later_boundary (some pos) none = some (suc pos)
later_boundary (some pos) (some b) = if ltb b pos then some (suc pos) else some b

unfoldable pub boundary_from : List Text → (last_boundary : Option ℕ) → (chunk : Text) → Option ℕ
unfolding rfind later_boundary
boundary_from [] b chunk = b
boundary_from (sep ∷ seps) b chunk = boundary_from seps (later_boundary (rfind sep chunk) b) chunk

-- The position, if it is above 0.
abbrev pub positive : Option ℕ → Option ℕ
positive none = none
positive (some zero) = none
positive (some (suc n)) = some (suc n)

-- Where a chunk of the text ends: at the last sentence end, else at the last space, else at the
-- maximum.
unfoldable pub cut : (max_len : ℕ) → (chunk : Text) → ℕ
unfolding boundary_from rfind
cut max_len chunk = elim (positive (boundary_from separators none chunk)) [
  | some last_boundary ↦ last_boundary
  | none ↦ elim (positive (rfind (32 ∷ []) chunk)) [ some last_space ↦ last_space | none ↦ max_len ]
]

-- The `while` loop, with the turns that it may take; none where they do not suffice.
abbrev pub cons_chunk : Text → Option (List Text) → Option (List Text)
cons_chunk c none = none
cons_chunk c (some cs) = some (c ∷ cs)

unfoldable pub split_loop : (turns max_len : ℕ) → Text → Option (List Text)
unfolding cut take drop lstrip
split_loop turns max_len [] = some []
split_loop zero max_len (c ∷ s) = none
split_loop (suc turns) max_len (c ∷ s) =
    let end = cut max_len (take max_len (c ∷ s)) in
    let rest = split_loop turns max_len (lstrip (drop end (c ∷ s))) in
    if leb (length (c ∷ s)) max_len then some ((c ∷ s) ∷ []) else cons_chunk (take end (c ∷ s)) rest

-- A turn for each character of the text.
unfoldable pub split_text : (max_len : ℕ) → Text → Option (List Text)
unfolding split_loop
split_text max_len s =
    if leb (length s) max_len then some (s ∷ []) else split_loop (length s) max_len s

-- `_split_text` of audio_job.py
abbrev pub audio_split_text : (max_len : ℕ) → Text → Option (List Text)
audio_split_text max_len s = split_text max_len s
