-- ===== src/Calibrate/Walk.antt =====
-- `_align_segments`: the walk over the two lists of segments.
pub mod Nearest
pub mod Merge
pub mod Window
pub mod Range
use ziguijia_translate_ml.Common.{
  ℕ, zero, suc, Bool, true, false, not, Option, none, some, List, [], ◌∷◌, ◌++◌, ◌+◌, map, ◌&&◌,
  ltb, ◌==◌, get_elem?, if◌then◌else◌,
}
use ziguijia_translate_ml.Split.{Text}
use ziguijia_translate_ml.Calibrate.{Displayed, Standard, Texts, pair_matches}

-- An entry of the result, a constructor for each `kind`; a dropped entry is left out at once.
pub data Entry : Type 0 where
  matched : (start finish : ℕ) → Text → Entry
  displayed : (start finish : ℕ) → Text → Entry
  standard : (start finish : Option ℕ) → Text → Entry

-- `add_displayed` and `add_standard`
abbrev pub add_displayed : Displayed → Entry
add_displayed d = displayed d.start d.finish d.content

abbrev pub add_standard : Standard → Entry
add_standard s = standard s.start s.finish s.content

abbrev pub add_matched : Displayed → Standard → Entry
add_matched d s = matched d.start d.finish s.content

-- The segments that the walk has not come to yet stand for the two positions `di` and `si`.
module _ (t : Texts) (ds : List Displayed) (ss : List Standard) where
  -- Whether the segments `a` and `b` places ahead are there and correspond.
  abbrev pub both_match : Option Displayed → Option Standard → Bool
  both_match (some d) (some s) = pair_matches t d s
  both_match _ _ = false

  unfoldable pub matches_at : ℕ → ℕ → Bool
  unfolding pair_matches
  matches_at a b = both_match (get_elem? ds a) (get_elem? ss b)

  -- `found is None or a + b < found[0] + found[1]`
  abbrev pub is_nearer : ℕ → ℕ → Option (ℕ × ℕ) → Bool
  is_nearer a b none = true
  is_nearer a b (some (x, y)) = ltb (a + b) (x + y)

  -- The body of the two loops.
  unfoldable pub look : ℕ → ℕ → Option (ℕ × ℕ) → Option (ℕ × ℕ)
  unfolding matches_at
  look a b found =
      if not ((a == 0) && (b == 0)) && (matches_at a b && is_nearer a b found)
      then some (a, b)
      else found

  -- `for b in range(b, b + n)`
  unfoldable pub look_row : ℕ → (n b : ℕ) → Option (ℕ × ℕ) → Option (ℕ × ℕ)
  unfolding look
  look_row a zero b found = found
  look_row a (suc n) b found = look_row a n (suc b) (look a b found)

  -- `for a in range(a, a + n)`, with rows of `w`
  unfoldable pub look_rows : (w n a : ℕ) → Option (ℕ × ℕ) → Option (ℕ × ℕ)
  unfolding look_row
  look_rows w zero a found = found
  look_rows w (suc n) a found = look_rows w n (suc a) (look_row a w 0 found)

  -- The nearest pair ahead, within `_WALK_WINDOW`.
  unfoldable pub find_anchor : Option (ℕ × ℕ)
  unfolding look_rows
  find_anchor = look_rows 11 11 0 none

-- `for x in range(di, di + a)`, and the position after it
abbrev pub copy {ℓ} : {A : Type ℓ} → (A → Entry) → ℕ → List A → List Entry → List Entry
copy f zero xs rest = rest
copy f (suc n) [] rest = rest
copy f (suc n) (x ∷ xs) rest = f x ∷ copy f n xs rest

abbrev pub skip {ℓ} : {A : Type ℓ} → ℕ → List A → List A
skip zero xs = xs
skip (suc n) [] = []
skip (suc n) (x ∷ xs) = skip n xs

abbrev pub copied :
    (a b : ℕ) → List Displayed → List Standard → Option (List Entry) → Option (List Entry)
copied a b ds ss none = none
copied a b ds ss (some es) = some (copy add_displayed a ds (copy add_standard b ss es))

abbrev pub with_entry : Entry → Option (List Entry) → Option (List Entry)
with_entry e none = none
with_entry e (some es) = some (e ∷ es)

-- The loop, each round on fuel; `none` means that the fuel ran out.
unfoldable pub walk : Texts → ℕ → List Displayed → List Standard → Option (List Entry)
unfolding pair_matches find_anchor
walk t zero ds ss = none
walk t (suc fuel) [] ss = some (map add_standard ss)
walk t (suc fuel) (d ∷ ds) [] = some (map add_displayed (d ∷ ds))
walk t (suc fuel) (d ∷ ds) (s ∷ ss) = elim (pair_matches t d s) [
  | true ↦ with_entry (add_matched d s) (walk t fuel ds ss)
  | false ↦ elim (find_anchor t (d ∷ ds) (s ∷ ss)) [
    | none ↦ some (map add_displayed (d ∷ ds) ++ map add_standard (s ∷ ss))
    | some (a, b) ↦ copied a b (d ∷ ds) (s ∷ ss) (walk t fuel (skip a (d ∷ ds)) (skip b (s ∷ ss)))
  ]
]
