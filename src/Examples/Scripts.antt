-- ===== src/Examples/Scripts.antt =====
-- The languages of two short texts.
use ziguijia_translate_ml.Common.{ℕ, ◌≡◌, refl, true, false, List, [], ◌∷◌}
use ziguijia_translate_ml.Languages.{detect_dominant_script, validate_text_matches_target_language}

-- Two Chinese characters and one Hiragana.
abbrev kanji_text : List ℕ
kanji_text = 26085 ∷ 26412 ∷ 12399 ∷ []

kanji_text_is_chinese : detect_dominant_script kanji_text ≡ "zh"
unfolding detect_dominant_script
kanji_text_is_chinese = refl

rejected_as_japanese : validate_text_matches_target_language (λ c. true) kanji_text "ja" ≡ false
unfolding validate_text_matches_target_language
rejected_as_japanese = refl
