-- ===== src/Web/Srt/Mixed.antt =====
-- Subtitles in two languages are rejected.
use ziguijia_translate_ml.Common.{
  ℕ, suc, String, ◌≡◌, ◌≢◌, ◌∙◌, refl, ap, true, Option, none, some, List, [], ◌∷◌, ◌+◌, ◌*◌, ◌≤◌,
  ◌<◌, arith, lt→ltb, elem, keys, length, is_some, eq_iff, if◌then◌else◌,
}
use ziguijia_translate_ml.Split.{Text}
use ziguijia_translate_ml.Languages.{Counts, get_count, bump, bump_found}
use ziguijia_translate_ml.Languages.Laws.{is_language, get_count-bump_found, get_count_nil}
use ziguijia_translate_ml.Calibrate.Parse.{splitlines}
use ziguijia_translate_ml.Web.Srt.{
  Library, script_of, count_line, count_lines, total, above_threshold, too_many, language_error,
  content_lines, validate_srt_language,
}

-- How many characters of a line, and of some lines, belong to a script, and to any script.
unfoldable pub scripted : String → Text → ℕ
scripted k [] = 0
scripted k (cp ∷ line) = (if is_language k (script_of cp) then 1 else 0) + scripted k line

unfoldable pub scripted_lines : String → List Text → ℕ
unfolding scripted
scripted_lines k [] = 0
scripted_lines k (l ∷ ls) = scripted k l + scripted_lines k ls

unfoldable pub classified : Text → ℕ
classified [] = 0
classified (cp ∷ line) = (if is_some (script_of cp) then 1 else 0) + classified line

unfoldable pub classified_lines : List Text → ℕ
unfolding classified
classified_lines [] = 0
classified_lines (l ∷ ls) = classified l + classified_lines ls

get_count-count_line :
    (k : String) (line : Text) (counts : Counts)
    → get_count k (count_line line counts) ≡ get_count k counts + scripted k line
unfolding count_line scripted
get_count-count_line k [] counts = omega arith
get_count-count_line k (cp ∷ line) counts = omega (
  arith,
  get_count-count_line k line (bump_found (script_of cp) counts),
  get_count-bump_found k (script_of cp) counts,
)

get_count-count_lines :
    (k : String) (ls : List Text) (counts : Counts)
    → get_count k (count_lines ls counts) ≡ get_count k counts + scripted_lines k ls
unfolding count_lines scripted_lines
get_count-count_lines k [] counts = omega arith
get_count-count_lines k (l ∷ ls) counts =
    omega (arith, get_count-count_lines k ls (count_line l counts), get_count-count_line k l counts)

total-bump : (k : String) (counts : Counts) → total (bump k counts) ≡ suc (total counts)
unfolding total bump
total-bump k [] = omega arith
total-bump k ((l, n) ∷ counts) = ground (arith, eq_iff k l, total-bump k counts)

total-bump_found :
    (o : Option String) (counts : Counts)
    → total (bump_found o counts) ≡ total counts + (if is_some o then 1 else 0)
total-bump_found none counts = omega arith
total-bump_found (some k) counts = omega (arith, total-bump k counts)

total-count_line :
    (line : Text) (counts : Counts)
    → total (count_line line counts) ≡ total counts + classified line
unfolding count_line classified
total-count_line [] counts = omega arith
total-count_line (cp ∷ line) counts = omega (
  arith,
  total-count_line line (bump_found (script_of cp) counts),
  total-bump_found (script_of cp) counts,
)

total-count_lines :
    (ls : List Text) (counts : Counts)
    → total (count_lines ls counts) ≡ total counts + classified_lines ls
unfolding count_lines classified_lines
total-count_lines [] counts = omega arith
total-count_lines (l ∷ ls) counts =
    omega (arith, total-count_lines ls (count_line l counts), total-count_line l counts)

-- A script with enough characters is above the threshold.
elem-above_threshold :
    (t : ℕ) (k : String) (counts : Counts)
    → 0 < get_count k counts
    → 3 * t ≤ 20 * get_count k counts
    → elem k (keys (above_threshold t counts)) ≡ true
unfolding get_count
elem-above_threshold t k [] pos h = absurd (ground arith)
elem-above_threshold t k ((l, n) ∷ counts) pos h =
    ground (arith, eq_iff k l, eq_iff l k, elem-above_threshold t k counts)

two_elems :
    (a b : String) (d : Counts)
    → a ≢ b
    → elem a (keys d) ≡ true
    → elem b (keys d) ≡ true
    → 1 < length d
two_elems a b [] ne ha hb = cc
two_elems a b (e ∷ []) ne ha hb = absurd (ground (arith, eq_iff a e.0, eq_iff b e.0, ne))
two_elems a b (e ∷ e' ∷ d) ne ha hb = omega arith

get_count-le-total : (k : String) (counts : Counts) → get_count k counts ≤ total counts
unfolding get_count total
get_count-le-total k [] = omega arith
get_count-le-total k ((l, n) ∷ counts) = ground (arith, get_count-le-total k counts)

too_many_two :
    (a b : String) (counts : Counts)
    → a ≢ b
    → 0 < get_count a counts
    → 0 < get_count b counts
    → 3 * total counts ≤ 20 * get_count a counts
    → 3 * total counts ≤ 20 * get_count b counts
    → too_many counts ≡ true
too_many_two a b counts ne pa pb ha hb =
    let two =
      two_elems a b (above_threshold (total counts) counts) ne
        (elem-above_threshold (total counts) a counts pa ha)
        (elem-above_threshold (total counts) b counts pb hb) in
    rw (lt→ltb _ _ two, lt→ltb 0 (total counts) (omega (arith, get_count-le-total a counts)))

-- A text whose lines of content have two scripts, each with 15 percent or more of the characters that
-- belong to any script, is rejected.
pub validate_srt_language_mixed :
    (lib : Library) (text : Text) (a b : String)
    → a ≢ b
    → 0 < scripted_lines a (content_lines lib (splitlines text))
    → 0 < scripted_lines b (content_lines lib (splitlines text))
    → 3 * classified_lines (content_lines lib (splitlines text))
      ≤ 20 * scripted_lines a (content_lines lib (splitlines text))
    → 3 * classified_lines (content_lines lib (splitlines text))
      ≤ 20 * scripted_lines b (content_lines lib (splitlines text))
    → validate_srt_language lib text ≡ some language_error
unfolding validate_srt_language total
validate_srt_language_mixed lib text a b ne pa pb ha hb =
    let ls = content_lines lib (splitlines text) in
    let counts = count_lines ls [] in
    let ca =
      get_count-count_lines a ls [] ∙ ap (λ (n : ℕ). n + scripted_lines a ls) (get_count_nil a) in
    let cb =
      get_count-count_lines b ls [] ∙ ap (λ (n : ℕ). n + scripted_lines b ls) (get_count_nil b) in
    let t = total-count_lines ls [] ∙ ap (λ (n : ℕ). n + classified_lines ls) total_nil in
    rw (too_many_two a b counts ne (omega arith) (omega arith) (omega arith) (omega arith))
  where
    total_nil : total [] ≡ 0
    total_nil = refl
