-- ===== src/Calibrate.antt =====
-- chatterbox-server/routes/files.py: the calibration of a displayed subtitle file against a standard
-- one. This file has the segments, their keys and when two segments correspond. A text is a list of
-- code points; times are in milliseconds.
pub mod Keys
pub mod Walk
pub mod Slots
pub mod Parse
pub mod Compose
use ziguijia_translate_ml.Common.{
  ℕ, Bool, true, false, not, Option, [], ◌∷◌, ◌+◌, ◌*◌, ◌&&◌, ◌||◌, ltb, leb, ◌==◌, length, keep,
  if◌then◌else◌,
}
use ziguijia_translate_ml.Split.{Text, is_space}

-- A segment of the displayed file, which always has its timing.
pub record Displayed : Type 0 where
  pub start : ℕ
  pub finish : ℕ
  pub content : Text
  pub key : Text

-- A segment of the standard file; a plain text has no timing.
pub record Standard : Type 0 where
  pub start : Option ℕ
  pub finish : Option ℕ
  pub content : Text
  pub key : Text

-- What the code takes from the libraries: `SequenceMatcher(None, a, b).ratio()` is twice
-- `matches a b` over the sum of the lengths, and `str.lower`.
pub record Texts : Type 0 where
  pub matches : Text → Text → ℕ
  pub lower : Text → Text

-- `_CJK_RE`
unfoldable pub is_cjk : ℕ → Bool
is_cjk c =
    (leb 19968 c && leb c 40959) || (leb 13312 c && leb c 19903) || (leb 63744 c && leb c 64255)

-- What `_OK_TOKEN_RE` matches, a letter at a time; without regard to case, the sign for Kelvin is a k.
unfoldable pub is_o : ℕ → Bool
is_o c = (c == b'o') || (c == b'O')

unfoldable pub is_k : ℕ → Bool
is_k c = (c == b'k') || (c == b'K') || (c == 8490)

-- `_OK_TOKEN_RE.sub("", text)`
unfoldable pub drop_ok : Text → Text
unfolding is_o is_k
drop_ok [] = []
drop_ok (a ∷ []) = a ∷ []
drop_ok (a ∷ b ∷ text) =
    let rest = drop_ok text in
    let next = a ∷ drop_ok (b ∷ text) in if is_o a && is_k b then rest else next

-- `_chinese_key`
unfoldable pub chinese_key : Text → Text
unfolding drop_ok is_cjk
chinese_key text = keep is_cjk (drop_ok text)

abbrev pub is_empty : Text → Bool
is_empty [] = true
is_empty (c ∷ text) = false

abbrev pub text_eq : Text → Text → Bool
text_eq [] [] = true
text_eq (a ∷ s) (b ∷ t) = (a == b) && text_eq s t
text_eq _ _ = false

abbrev pub min : ℕ → ℕ → ℕ
min a b = if leb a b then a else b

abbrev pub max : ℕ → ℕ → ℕ
max a b = if leb a b then b else a

-- `SequenceMatcher(None, a, b).ratio() >= _MATCH_THRESHOLD`, which is 0.8
abbrev pub ratio_reaches : Texts → (a b : Text) → Bool
ratio_reaches t a b = leb (8 * (length a + length b)) (20 * t.matches a b)

-- `_chinese_similarity(a, b) >= _MATCH_THRESHOLD`
unfoldable pub is_similar : Texts → (a b : Text) → Bool
is_similar t a b =
    if is_empty a || is_empty b
    then false
    else (if ltb (20 * min (length a) (length b)) (8 * (length a + length b))
        then false
        else ratio_reaches t a b)

-- `re.sub(r"\s+", "", content).lower()`
unfoldable pub plain : Texts → Text → Text
unfolding is_space
plain t content = t.lower (keep (λ c. not (is_space c)) content)

-- `_pair_matches`
unfoldable pub pair_matches : Texts → Displayed → Standard → Bool
unfolding is_similar plain
pair_matches t d s =
    if not (is_empty d.key) && not (is_empty s.key)
    then is_similar t d.key s.key
    else (if is_empty d.key && is_empty s.key
        then not (is_empty (plain t d.content)) && text_eq (plain t d.content) (plain t s.content)
        else false)
