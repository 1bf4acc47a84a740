-- ===== src/Languages/Laws.antt =====
-- The detected language is the one with the most characters.
use mathlib.Core.Path.{ap, sym, subst}
use ziguijia_translate_ml.Common.{
  ℕ, suc, String, ◌≡◌, refl, ◌∙◌, Bool, true, false, Option, none, some, List, [], ◌∷◌, ◌+◌, ◌≤◌,
  ltb, All, str_eq, eq_iff, eq_refl, arith, if◌then◌else◌, Bool-cases, inl, inr,
}
use ziguijia_translate_ml.Sql.{select}
use ziguijia_translate_ml.Sql.Keys.{IsKeyed}
use ziguijia_translate_ml.Languages.{
  code_point_ranges, language_in, Counts, get_count, bump, bump_found, count_scripts, best_from,
  dominant, detect_dominant_script,
}

abbrev pub is_language : String → Option String → Bool
is_language lang none = false
is_language lang (some l) = str_eq l lang

-- The characters of a text whose script is that of a language.
unfoldable pub occurrences : String → List ℕ → ℕ
occurrences lang [] = 0
occurrences lang (cp ∷ text) =
    let rest = occurrences lang text in
    if is_language lang (language_in code_point_ranges cp) then suc rest else rest

get_count-bump :
    (lang l : String) (counts : Counts)
    → get_count lang (bump l counts)
      ≡ (if str_eq l lang then suc (get_count lang counts) else get_count lang counts)
unfolding get_count bump
get_count-bump lang l [] = ground (arith, eq_iff l lang)
get_count-bump lang l ((k, n) ∷ counts) =
    ground (arith, eq_iff k l, eq_iff k lang, eq_iff l lang, get_count-bump lang l counts)

pub get_count-bump_found :
    (lang : String) (o : Option String) (counts : Counts)
    → get_count lang (bump_found o counts)
      ≡ get_count lang counts + (if is_language lang o then 1 else 0)
get_count-bump_found lang none counts = omega arith
get_count-bump_found lang (some l) counts = ground (arith, get_count-bump lang l counts)

get_count-count_scripts :
    (lang : String) (text : List ℕ) (counts : Counts)
    → get_count lang (count_scripts text counts) ≡ get_count lang counts + occurrences lang text
unfolding count_scripts occurrences
get_count-count_scripts lang [] counts = omega arith
get_count-count_scripts lang (cp ∷ text) counts =
    get_count-count_scripts lang text (bump_found (language_in code_point_ranges cp) counts)
    ∙ counted (language_in code_point_ranges cp) (occurrences lang text)
  where
    counted :
        (o : Option String) (n : ℕ)
        → get_count lang (bump_found o counts) + n
          ≡ get_count lang counts + (if is_language lang o then suc n else n)
    counted o n = ground (arith, get_count-bump_found lang o counts)

pub get_count_nil : (lang : String) → get_count lang [] ≡ 0
unfolding get_count
get_count_nil lang = refl

-- A language is counted once.
select-bump :
    (k l : String) (counts : Counts)
    → str_eq l k ≡ false
    → select k counts ≡ none
    → select k (bump l counts) ≡ none
unfolding select bump
select-bump k l [] other absent = ground arith
select-bump k l ((j, n) ∷ counts) other absent = ground (arith, select-bump k l counts, eq_iff j l)

bump-IsKeyed : (l : String) (counts : Counts) → IsKeyed counts → IsKeyed (bump l counts)
unfolding bump select
bump-IsKeyed l [] h = (refl, tt)
bump-IsKeyed l ((j, n) ∷ counts) h = elim (Bool-cases (str_eq j l)) [
  | inl same ↦ rw same h
  | inr other ↦ rw other (
    select-bump j l counts (ground (arith, eq_iff l j, eq_iff j l)) h.0,
    bump-IsKeyed l counts h.1,
  )
]

count_scripts-IsKeyed :
    (text : List ℕ) (counts : Counts) → IsKeyed counts → IsKeyed (count_scripts text counts)
unfolding count_scripts
count_scripts-IsKeyed [] counts h = h
count_scripts-IsKeyed (cp ∷ text) counts h =
    count_scripts-IsKeyed text _ (found (language_in code_point_ranges cp))
  where
    found : (o : Option String) → IsKeyed (bump_found o counts)
    found none = h
    found (some l) = bump-IsKeyed l counts h

get_count-select :
    (l : String) (n : ℕ) (counts : Counts) → select l counts ≡ some n → get_count l counts ≡ n
unfolding get_count select
get_count-select l n [] found = absurd (ground arith)
get_count-select l n ((k, m) ∷ counts) found = ground (arith, get_count-select l n counts)

All-select {κ} :
    (P : String → ℕ → Type κ) (counts : Counts)
    → IsKeyed counts
    → ((l : String) → (n : ℕ) → select l counts ≡ some n → P l n)
    → All (λ e. P e.0 e.1) counts
unfolding select
All-select P [] h p = tt
All-select P ((k, m) ∷ counts) h p = (
  p k m (rw (eq_refl k) refl),
  All-select P counts h.1 (λ l n found. p l n (ground (arith, h.0, eq_iff k l, found))),
)

best_from_nil : (b : String) (n : ℕ) → best_from (b, n) [] ≡ b
unfolding best_from
best_from_nil b n = refl

best_from_more :
    (b l : String) (n k : ℕ) (counts : Counts)
    → ltb n k ≡ true
    → best_from (b, n) ((l, k) ∷ counts) ≡ best_from (l, k) counts
unfolding best_from
best_from_more b l n k counts more = rw more refl

best_from_fewer :
    (b l : String) (n k : ℕ) (counts : Counts)
    → ltb n k ≡ false
    → best_from (b, n) ((l, k) ∷ counts) ≡ best_from (b, n) counts
unfolding best_from
best_from_fewer b l n k counts fewer = rw fewer refl

-- The best of the counts, by a function that gives them, and its count `v`.
best_from-le :
    (f : String → ℕ) (v : ℕ) (b : String) (n : ℕ) (counts : Counts)
    → f b ≡ n
    → All (λ e. f e.0 ≡ e.1) counts
    → f (best_from (b, n) counts) ≡ v
    → (n ≤ v) × All (λ e. e.1 ≤ v) counts
best_from-le f v b n [] same h e = (last e, tt)
  where
    last : f (best_from (b, n) []) ≡ v → n ≤ v
    last e = omega (arith, ap f (best_from_nil b n), e, same)
best_from-le f v b n ((l, k) ∷ counts) same h e = elim (Bool-cases (ltb n k)) [
  | inl more ↦
      let (first, rest) =
        best_from-le f v l k counts h.0 h.1 (sym (ap f (best_from_more b l n k counts more)) ∙ e) in
      (ground (arith, first), (first, rest))
  | inr fewer ↦
      let (first, rest) =
        best_from-le f v b n counts same h.1
          (sym (ap f (best_from_fewer b l n k counts fewer)) ∙ e) in
      (first, (ground (arith, first), rest))
]

get_count-le :
    (lang : String) (n : ℕ) (counts : Counts)
    → All (λ e. e.1 ≤ n) counts
    → get_count lang counts ≤ n
unfolding get_count
get_count-le lang n [] h = omega arith
get_count-le lang n ((l, k) ∷ counts) h = ground (arith, h.0, get_count-le lang n counts h.1)

-- No count is above that of the best.
get_count-best_from-le :
    (lang b : String) (n : ℕ) (counts : Counts)
    → IsKeyed ((b, n) ∷ counts)
    → get_count lang ((b, n) ∷ counts) ≤ get_count (best_from (b, n) counts) ((b, n) ∷ counts)
get_count-best_from-le lang b n counts keyed =
    get_count-le lang _ ((b, n) ∷ counts)
      (best_from-le (λ l. get_count l ((b, n) ∷ counts)) _ b n counts counted.0 counted.1 refl)
  where
    counted : All (λ e. get_count e.0 ((b, n) ∷ counts) ≡ e.1) ((b, n) ∷ counts)
    counted =
        All-select (λ l k. get_count l ((b, n) ∷ counts) ≡ k) ((b, n) ∷ counts) keyed
          (λ l k found. get_count-select l k ((b, n) ∷ counts) found)

-- So the heuristic for Japanese never changes the best.
dominant_best :
    (b : String) (n : ℕ) (counts : Counts)
    → IsKeyed ((b, n) ∷ counts)
    → dominant ((b, n) ∷ counts) ≡ best_from (b, n) counts
dominant_best b n counts keyed =
    ground
      (arith, get_count-best_from-le "zh" b n counts keyed, eq_iff (best_from (b, n) counts) "ja")

-- The detected language is the one with the most characters: no language has more of them in the text,
-- by the first range that has a character. The rule that is to prefer Japanese beside Chinese never
-- applies, since it asks for more than three times as many Chinese characters as the maximum.
pub detect_dominant_script-le :
    (lang : String) (text : List ℕ)
    → occurrences lang text ≤ occurrences (detect_dominant_script text) text
unfolding detect_dominant_script get_count
detect_dominant_script-le lang text = counted (count_scripts text []) refl
  where
    total : (l : String) → get_count l (count_scripts text []) ≡ occurrences l text
    total l = omega (arith, get_count-count_scripts l text [])

    counted :
        (counts : Counts)
        → count_scripts text [] ≡ counts
        → occurrences lang text ≤ occurrences (dominant counts) text
    counted [] none_found =
        omega (arith, sym (total lang) ∙ ap (get_count lang) none_found, get_count_nil lang)
    counted ((b, n) ∷ counts) e =
        let keyed = subst IsKeyed e (count_scripts-IsKeyed text [] tt) in
        let best = best_from (b, n) counts in
        subst (λ d. occurrences lang text ≤ occurrences d text)
          (sym (dominant_best b n counts keyed))
          (omega (
            arith,
            sym (total lang) ∙ ap (get_count lang) e,
            sym (total best) ∙ ap (get_count best) e,
            get_count-best_from-le lang b n counts keyed,
          ))
