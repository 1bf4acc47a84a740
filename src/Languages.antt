-- ===== src/Languages.antt =====
-- chatterbox-server/language_utils.py: the language of a text by the scripts of its characters, and
-- `validate_text_matches_target_language` of chatterbox-server/middleware.py. A text is a list of code
-- points.
pub mod Laws
use ziguijia_translate_ml.Common.{
  ℕ, suc, String, Bool, true, false, not, Option, none, some, List, [], ◌∷◌, ◌*◌, ◌&&◌, ◌||◌, ltb,
  leb, elem, str_eq, if◌then◌else◌,
}

-- `CODE_POINT_RANGES`
abbrev pub code_point_ranges : List (String × (ℕ × ℕ))
code_point_ranges =
    ("zh", (19968, 40959))
    ∷ ("zh", (13312, 19903))
    ∷ ("ja", (12352, 12447))
    ∷ ("ja", (12448, 12543))
    ∷ ("ko", (44032, 55215))
    ∷ ("ar", (1536, 1791))
    ∷ ("ru", (1024, 1279))
    ∷ ("el", (880, 1023))
    ∷ ("he", (1424, 1535))
    ∷ ("hi", (2304, 2431))
    ∷ ("th", (3584, 3711))
    ∷ []

-- The inner loop, up to its `break`: the language of the first range that has the character.
unfoldable pub language_in : List (String × (ℕ × ℕ)) → (cp : ℕ) → Option String
language_in [] cp = none
language_in ((lang, (lo, hi)) ∷ ranges) cp =
    let rest = language_in ranges cp in if leb lo cp && leb cp hi then some lang else rest

abbrev pub Counts : Type 0
Counts = List (String × ℕ)

-- `counts.get(lang, 0)`
unfoldable pub get_count : String → Counts → ℕ
get_count lang [] = 0
get_count lang ((l, n) ∷ counts) = if str_eq l lang then n else get_count lang counts

-- `counts[lang] = counts.get(lang, 0) + 1`
unfoldable pub bump : String → Counts → Counts
bump lang [] = (lang, 1) ∷ []
bump lang ((l, n) ∷ counts) =
    let rest = bump lang counts in if str_eq l lang then (l, suc n) ∷ counts else (l, n) ∷ rest

abbrev pub bump_found : Option String → Counts → Counts
bump_found none counts = counts
bump_found (some lang) counts = bump lang counts

unfoldable pub count_scripts : List ℕ → Counts → Counts
unfolding bump language_in
count_scripts [] counts = counts
count_scripts (cp ∷ text) counts =
    count_scripts text (bump_found (language_in code_point_ranges cp) counts)

-- `max(counts, key=counts.get)`: the first of those with the highest count
unfoldable pub best_from : String × ℕ → Counts → String
best_from (best, n) [] = best
best_from (best, n) ((l, k) ∷ counts) =
    if ltb n k then best_from (l, k) counts else best_from (best, n) counts

-- The heuristic for Japanese.
abbrev pub prefer : Counts → (best : String) → String
prefer counts best =
    if str_eq best "ja" && ltb (get_count "ja" counts * 3) (get_count "zh" counts)
    then "zh"
    else best

abbrev pub dominant : Counts → String
dominant [] = "en"
dominant (c ∷ counts) = prefer (c ∷ counts) (best_from c counts)

unfoldable pub detect_dominant_script : List ℕ → String
unfolding count_scripts best_from get_count
detect_dominant_script text = dominant (count_scripts text [])

-- `LANG_MAP`, its keys
abbrev pub lang_map : List String
lang_map =
    "ar" ∷ "da" ∷ "de" ∷ "el" ∷ "en" ∷ "es" ∷ "fi" ∷ "fr" ∷ "he" ∷ "hi" ∷ "it" ∷ "ja" ∷ "ko" ∷ "ms"
    ∷ "nl" ∷ "no" ∷ "pl" ∷ "pt" ∷ "ru" ∷ "sv" ∷ "sw" ∷ "tr" ∷ "zh" ∷ "vi" ∷ "th" ∷ "id" ∷ []

-- `_LATIN_SCRIPT_LANGUAGES`
abbrev pub latin_script_languages : List String
latin_script_languages =
    "en" ∷ "fr" ∷ "de" ∷ "es" ∷ "pt" ∷ "it" ∷ "nl" ∷ "da" ∷ "sv" ∷ "no" ∷ "fi" ∷ "pl" ∷ "tr" ∷ "vi"
    ∷ "id" ∷ "ms" ∷ "sw" ∷ []

unfoldable pub any_letter : (is_alpha : ℕ → Bool) → List ℕ → Bool
any_letter is_alpha [] = false
any_letter is_alpha (cp ∷ text) = let rest = any_letter is_alpha text in is_alpha cp || rest

-- Whether the text is accepted, for a target that is stripped and in small letters, and a text
-- without a byte order mark; `str.isalpha` is an argument.
unfoldable pub validate_text_matches_target_language :
    (is_alpha : ℕ → Bool) → List ℕ → (target : String) → Bool
unfolding detect_dominant_script any_letter
validate_text_matches_target_language is_alpha text target =
    let detected = detect_dominant_script text in
    if not (elem target lang_map)
    then true
    else (if not (any_letter is_alpha text)
        then true
        else (if str_eq detected target
            then true
            else elem target latin_script_languages && elem detected latin_script_languages))
