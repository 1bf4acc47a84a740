-- ===== src/Common/Texts.antt =====
-- Python's `s.split(",")` and `",".join(xs)`, and the round trip between them.
use Prim.Native.Char.{Char, code}
use Prim.Native.String.append
use Prim.Native.String.{String, ◌++◌ as str_append}
use mathlib.Core.Path.{◌≡◌, refl, ap}
use mathlib.Core.Bool.{Bool, true, false, not, ◌&&◌}
use mathlib.Core.List.{List, [], ◌∷◌}
use mathlib.Core.Logic.{inl, inr}
use ziguijia_translate_ml.Common.Tests.{◌==◌, if◌then◌else◌, Bool-cases}
use ziguijia_translate_ml.Common.Lists.{keep, All, All-keep_and}

-- A character in front of the first piece.
abbrev pub push_front : Char → List String → List String
push_front c [] = (String.◌∷◌ c String.[]) ∷ []
push_front c (w ∷ ws) = (String.◌∷◌ c w) ∷ ws

-- `s.split(",")`; the split of the empty text is one empty piece.
unfoldable pub split_commas : String → List String
split_commas String.[] = String.[] ∷ []
split_commas (String.◌∷◌ c s) =
    if code c == b',' then String.[] ∷ split_commas s else push_front c (split_commas s)

-- `",".join(ws)`
unfoldable pub join_commas : List String → String
join_commas [] = ""
join_commas (w ∷ []) = w
join_commas (w ∷ v ∷ ws) = str_append w (String.◌∷◌ "," (join_commas (v ∷ ws)))

-- `if s`, for a text
abbrev pub is_nonempty : String → Bool
is_nonempty String.[] = false
is_nonempty (String.◌∷◌ c s) = true

-- `[s for s in text.split(",") if s]`
unfoldable pub split_nonempty : String → List String
unfolding split_commas
split_nonempty s = keep is_nonempty (split_commas s)

-- A text with no comma in it.
abbrev pub IsCommaFree : String → Type 0
IsCommaFree String.[] = Unit
IsCommaFree (String.◌∷◌ c s) = ((code c == b',') ≡ false) × IsCommaFree s

-- A text that one piece of a comma-separated list can hold.
abbrev pub IsPiece : String → Type 0
IsPiece w = (is_nonempty w ≡ true) × IsCommaFree w

split_commas_self : (w : String) → IsCommaFree w → split_commas w ≡ w ∷ []
unfolding split_commas
split_commas_self String.[] h = refl
split_commas_self (String.◌∷◌ c s) h = rw (h.0, split_commas_self s h.1)

split_commas-append :
    (w s : String)
    → IsCommaFree w
    → split_commas (str_append w (String.◌∷◌ "," s)) ≡ w ∷ split_commas s
unfolding split_commas
split_commas-append String.[] s h = rw append.nil
split_commas-append (String.◌∷◌ c w) s h = rw append.cons (rw (h.0, split_commas-append w s h.1))

-- Joining pieces and splitting them again gives the pieces back.
pub split_nonempty-join_commas :
    (ws : List String) → All IsPiece ws → split_nonempty (join_commas ws) ≡ ws
unfolding split_nonempty join_commas
split_nonempty-join_commas [] h = refl
split_nonempty-join_commas (w ∷ []) h = rw (split_commas_self w h.0.1) (rw h.0.0)
split_nonempty-join_commas (w ∷ v ∷ ws) h =
    rw (split_commas-append w _ h.0.1)
      (rw h.0.0 (ap (◌∷◌ w) (split_nonempty-join_commas (v ∷ ws) h.1)))

split_commas-IsCommaFree : (s : String) → All IsCommaFree (split_commas s)
unfolding split_commas
split_commas-IsCommaFree String.[] = (tt, tt)
split_commas-IsCommaFree (String.◌∷◌ c s) = elim (Bool-cases (code c == b',')) [
  | inl comma ↦ rw comma (tt, split_commas-IsCommaFree s)
  | inr other ↦ rw other (in_front other (split_commas s) (split_commas-IsCommaFree s))
]
  where
    in_front :
        (code c == b',') ≡ false
        → (ws : List String) → All IsCommaFree ws
        → All IsCommaFree (push_front c ws)
    in_front other [] h = ((other, tt), tt)
    in_front other (w ∷ ws) h = ((other, h.0), h.1)

-- The pieces of a split are pieces.
pub split_nonempty-IsPiece : (s : String) → All IsPiece (split_nonempty s)
unfolding split_nonempty
split_nonempty-IsPiece s =
    All-keep_and IsCommaFree is_nonempty (split_commas s) (split_commas-IsCommaFree s)

abbrev pub is_comma_free : String → Bool
is_comma_free String.[] = true
is_comma_free (String.◌∷◌ c s) = not (code c == b',') && is_comma_free s

IsCommaFree-of_test : (w : String) → is_comma_free w ≡ true → IsCommaFree w
IsCommaFree-of_test String.[] h = tt
IsCommaFree-of_test (String.◌∷◌ c s) h =
    let (this, rest) = both (code c == b',') (is_comma_free s) h in
    (this, IsCommaFree-of_test s rest)
  where
    both : (a b : Bool) → (not a && b) ≡ true → (a ≡ false) × (b ≡ true)
    both true b h = cc
    both false b h = (refl, h)

-- The name of a step is a piece by a test.
pub IsPiece-of_test : (w : String) → is_nonempty w ≡ true → is_comma_free w ≡ true → IsPiece w
IsPiece-of_test w h k = (h, IsCommaFree-of_test w k)
