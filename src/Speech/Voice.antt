-- ===== src/Speech/Voice.antt =====
-- gen_audio/gen_audio_daemon.py: `_generate_with_retry` and `_generate_anchored`, which ask the model
-- again where its speech is not finite or runs far longer than the text. A duration is a number of
-- samples, and durations are compared as fractions.
pub mod Closest
use ziguijia_translate_ml.Common.{
  ℕ, zero, suc, String, Bool, true, false, Option, none, some, List, [], ◌∷◌, ◌+◌, ◌-◌, ◌*◌, ◌++◌,
  ◌&&◌, ltb, lookup, if◌then◌else◌,
}

-- `_SPEECH_RATE`
abbrev pub speech_rate : List (String × ℕ)
speech_rate =
    ("en", 13)
    ∷ ("de", 12)
    ∷ ("fr", 12)
    ∷ ("es", 12)
    ∷ ("pt", 12)
    ∷ ("it", 12)
    ∷ ("id", 12)
    ∷ ("ru", 12)
    ∷ ("nl", 12)
    ∷ ("tr", 12)
    ∷ ("uk", 12)
    ∷ ("vi", 11)
    ∷ ("zh", 5)
    ∷ ("ja", 6)
    ∷ ("ko", 7)
    ∷ []

-- `_SPEECH_RATE.get(lang, 10.0)`, for a language in small letters
abbrev pub rate_of : String → ℕ
rate_of lang = elim (lookup lang speech_rate) [ none ↦ 10 | some r ↦ r ]

-- What a call of the model gives: speech of so many samples, or an exception, whose message says
-- that the speech is "not finite" or anything else.
pub data Call : Type 0 where
  speech : (samples : ℕ) → Call
  not_finite : Call
  raises : String → Call

-- What the two functions give: speech, an exception, or the RuntimeError of the last attempt. Each
-- holds how often the model was loaded again.
pub data Result : Type 0 where
  wav : (samples reloads : ℕ) → Result
  raised : String → (reloads : ℕ) → Result
  exhausted : (reloads : ℕ) → Result

-- `_generate_with_retry`: `calls i` is the model's answer at the attempt `i`.
unfoldable pub generate_from : (calls : ℕ → Call) → (left attempt : ℕ) → Result
generate_from calls zero attempt = exhausted attempt
generate_from calls (suc n) attempt = elim (calls attempt) [
  | speech samples ↦ wav samples attempt
  | not_finite ↦ generate_from calls n (suc attempt)
  | raises e ↦ raised e attempt
]

unfoldable pub generate_with_retry : (calls : ℕ → Call) → Result
unfolding generate_from
generate_with_retry calls = generate_from calls 3 0

-- The expected duration in the unit of 1 / (sr * rate) seconds, and a duration in that unit
module _ (sr rate len : ℕ) where
  unfoldable pub expected_duration : ℕ
  expected_duration = (len + rate) * sr

  abbrev pub duration : (samples : ℕ) → ℕ
  duration samples = samples * rate

  -- `duration > max(4.0, expected * 2.2)`
  unfoldable pub is_overrun : (samples : ℕ) → Bool
  unfolding expected_duration
  is_overrun samples =
      ltb (4 * (sr * rate)) (duration samples)
      && ltb (22 * expected_duration) (10 * duration samples)

  -- `abs(dur - expected)`
  unfoldable pub distance : (samples : ℕ) → ℕ
  unfolding expected_duration
  distance samples =
      if ltb (duration samples) expected_duration
      then expected_duration - duration samples
      else duration samples - expected_duration

  -- `attempts.sort(key=...)` keeps the order of equals, so that the first of the closest is the best.
  unfoldable pub closest : ℕ → List ℕ → ℕ
  unfolding distance
  closest best [] = best
  closest best (w ∷ ws) = closest (if ltb (distance w) (distance best) then w else best) ws

  -- `_generate_anchored`: `tries i` is what `_generate_with_retry` gives at the attempt `i`; an
  -- exception ends the function. `earlier` are the attempts before.
  abbrev pub best_of : List ℕ → Option ℕ
  best_of [] = none
  best_of (w ∷ ws) = some (closest w ws)

  unfoldable pub anchored_from : (tries : ℕ → Option ℕ) → (left attempt : ℕ) → List ℕ → Option ℕ
  unfolding closest is_overrun
  anchored_from tries zero attempt earlier = best_of earlier
  anchored_from tries (suc n) attempt earlier = elim (tries attempt) [
    | none ↦ none
    | some w ↦ elim (is_overrun w) [
      | false ↦ some w
      | true ↦ anchored_from tries n (suc attempt) (earlier ++ w ∷ [])
    ]
  ]

  unfoldable pub generate_anchored : (tries : ℕ → Option ℕ) → Option ℕ
  unfolding anchored_from
  generate_anchored tries = anchored_from tries 3 0 []
