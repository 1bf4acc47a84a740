-- ===== src/Examples/Limiters.antt =====
-- The in-memory limiter with two requests a minute.
use ziguijia_translate_ml.Common.{◌≡◌, refl, true, false, [], ◌∷◌}
use ziguijia_translate_ml.Limits.{Store, check}

abbrev visits : Store
visits = ("a", 100 ∷ 130 ∷ []) ∷ ("b", 20 ∷ []) ∷ []

refused : (check 2 60 140 "a" visits).0 ≡ false
unfolding check
refused = refl

admitted_later : (check 2 60 170 "a" visits).0 ≡ true
unfolding check
admitted_later = refl
