-- ===== src/Calibrate/Keys.antt =====
-- The keys of the segments, and the test on lengths before the costly comparison.
use ziguijia_translate_ml.Common.{
  ℕ, true, false, [], ◌∷◌, ◌≤◌, ◌≡◌, refl, ◌&&◌, length, keep, arith,
}
use ziguijia_translate_ml.Split.{Text}
use ziguijia_translate_ml.Calibrate.{
  Texts, is_cjk, is_o, is_k, drop_ok, chinese_key, is_empty, min, ratio_reaches, is_similar,
}

ok_not_cjk : (a b : ℕ) → (is_o a && is_k b) ≡ true → (is_cjk a ≡ false) × (is_cjk b ≡ false)
unfolding is_o is_k is_cjk
ok_not_cjk a b h = ground arith

keep-drop_ok : (text : Text) → keep is_cjk (drop_ok text) ≡ keep is_cjk text
unfolding drop_ok
keep-drop_ok [] = refl
keep-drop_ok (a ∷ []) = refl
keep-drop_ok (a ∷ b ∷ text) =
    ground (arith, ok_not_cjk a b, keep-drop_ok text, keep-drop_ok (b ∷ text))

-- The key of a text is its Chinese characters in order: to take out the word "ok" first makes no
-- difference.
pub chinese_key-keep : (text : Text) → chinese_key text ≡ keep is_cjk text
unfolding chinese_key
chinese_key-keep text = keep-drop_ok text

-- Where the library's matcher finds no more matching characters than the shorter text has, the test
-- on the lengths changes nothing: two texts that are not empty are similar exactly when the ratio of
-- the matcher reaches the threshold.
pub is_similar-ratio_reaches :
    (t : Texts)
    → ((a b : Text) → t.matches a b ≤ min (length a) (length b))
    → (a b : Text) → is_empty a ≡ false
    → is_empty b ≡ false
    → is_similar t a b ≡ ratio_reaches t a b
unfolding is_similar
is_similar-ratio_reaches t bounded a b ha hb = ground (arith, bounded a b)
