-- ===== src/Calibrate/Walk/Nearest.antt =====
-- The search for the pair at which the walk goes on.
use mathlib.Core.Path.{subst}
use native.Mathlib.Decide.{ℕ_discrete}
use ziguijia_translate_ml.Common.{
  ℕ, zero, suc, true, Option, none, some, List, ◌+◌, ◌≤◌, ◌<◌, ◌≡◌, arith, sym,
}
use ziguijia_translate_ml.Calibrate.{Displayed, Standard, Texts}
use ziguijia_translate_ml.Calibrate.Walk.{matches_at, look, look_row, look_rows, find_anchor}

module _ (t : Texts) (ds : List Displayed) (ss : List Standard) where
  -- What was found is a pair ahead that corresponds, within the window.
  abbrev pub IsAnchor : Option (ℕ × ℕ) → Type 0
  IsAnchor none = Unit
  IsAnchor (some (a, b)) = (a < 11) × (b < 11) × (0 < a + b) × (matches_at t ds ss a b ≡ true)

  -- What was found is no farther than the pair at `x` and `y`.
  abbrev pub Covers : Option (ℕ × ℕ) → ℕ → ℕ → Type 0
  Covers none x y = ⊥
  Covers (some (a, b)) x y = a + b ≤ x + y

  look-IsAnchor :
      (a b : ℕ) (found : Option (ℕ × ℕ))
      → a < 11
      → b < 11
      → IsAnchor found
      → IsAnchor (look t ds ss a b found)
  unfolding look
  look-IsAnchor a b none ha hb h = ground arith
  look-IsAnchor a b (some (x, y)) ha hb h = ground arith

  look-Covers_self :
      (a b : ℕ) (found : Option (ℕ × ℕ))
      → 0 < a + b
      → matches_at t ds ss a b ≡ true
      → Covers (look t ds ss a b found) a b
  unfolding look
  look-Covers_self a b none h m = ground arith
  look-Covers_self a b (some (x, y)) h m = ground arith

  look-Covers :
      (a b x y : ℕ) (found : Option (ℕ × ℕ))
      → Covers found x y
      → Covers (look t ds ss a b found) x y
  unfolding look
  look-Covers a b x y none h = absurd h
  look-Covers a b x y (some (p, q)) h = ground arith

  look_row-IsAnchor :
      (a n b : ℕ) (found : Option (ℕ × ℕ))
      → a < 11
      → b + n ≤ 11
      → IsAnchor found
      → IsAnchor (look_row t ds ss a n b found)
  unfolding look_row
  look_row-IsAnchor a zero b found ha hb h = h
  look_row-IsAnchor a (suc n) b found ha hb h =
      look_row-IsAnchor a n (suc b) _ ha (omega arith) (look-IsAnchor a b found ha (omega arith) h)

  look_row-Covers :
      (a n b x y : ℕ) (found : Option (ℕ × ℕ))
      → Covers found x y
      → Covers (look_row t ds ss a n b found) x y
  unfolding look_row
  look_row-Covers a zero b x y found h = h
  look_row-Covers a (suc n) b x y found h =
      look_row-Covers a n (suc b) x y _ (look-Covers a b x y found h)

  look_row-Covers_self :
      (a n b y : ℕ) (found : Option (ℕ × ℕ))
      → b ≤ y
      → y < b + n
      → 0 < a + y
      → matches_at t ds ss a y ≡ true
      → Covers (look_row t ds ss a n b found) a y
  unfolding look_row
  look_row-Covers_self a zero b y found lo hi pos m = absurd (omega arith)
  look_row-Covers_self a (suc n) b y found lo hi pos m = elim (ℕ_discrete b y) [
    | yes e ↦ look_row-Covers a n (suc b) a y _ (
        subst (λ z. Covers (look t ds ss a z found) a y) (sym e) (look-Covers_self a y found pos m))
    | no ne ↦ look_row-Covers_self a n (suc b) y _ (omega (arith, ne)) (omega arith) pos m
  ]

  look_rows-IsAnchor :
      (n a : ℕ) (found : Option (ℕ × ℕ))
      → a + n ≤ 11
      → IsAnchor found
      → IsAnchor (look_rows t ds ss 11 n a found)
  unfolding look_rows
  look_rows-IsAnchor zero a found le h = h
  look_rows-IsAnchor (suc n) a found le h =
      look_rows-IsAnchor n (suc a) _ (omega arith)
        (look_row-IsAnchor a 11 0 found (omega arith) (omega arith) h)

  look_rows-Covers :
      (n a x y : ℕ) (found : Option (ℕ × ℕ))
      → Covers found x y
      → Covers (look_rows t ds ss 11 n a found) x y
  unfolding look_rows
  look_rows-Covers zero a x y found h = h
  look_rows-Covers (suc n) a x y found h =
      look_rows-Covers n (suc a) x y _ (look_row-Covers a 11 0 x y found h)

  look_rows-Covers_self :
      (n a x y : ℕ) (found : Option (ℕ × ℕ))
      → a ≤ x
      → x < a + n
      → y < 11
      → 0 < x + y
      → matches_at t ds ss x y ≡ true
      → Covers (look_rows t ds ss 11 n a found) x y
  unfolding look_rows
  look_rows-Covers_self zero a x y found lo hi hy pos m = absurd (omega arith)
  look_rows-Covers_self (suc n) a x y found lo hi hy pos m = elim (ℕ_discrete a x) [
    | yes e ↦ look_rows-Covers n (suc a) x y _ (
        subst (λ z. Covers (look_row t ds ss z 11 0 found) x y) (sym e)
          (look_row-Covers_self x 11 0 y found (omega arith) (omega arith) pos m))
    | no ne ↦ look_rows-Covers_self n (suc a) x y _ (omega (arith, ne)) (omega arith) hy pos m
  ]

  pub find_anchor-IsAnchor : IsAnchor (find_anchor t ds ss)
  unfolding find_anchor
  find_anchor-IsAnchor = look_rows-IsAnchor 11 0 none (omega arith) tt

  -- The search ahead, which looks at most ten places ahead in either list: where some pair within
  -- that window, other than the present one, corresponds, it finds a pair that corresponds, within the
  -- window and other than the present one, and no farther than that in the sum of the two distances.
  pub find_anchor_nearest :
      (x y : ℕ)
      → x < 11
      → y < 11
      → 0 < x + y
      → matches_at t ds ss x y ≡ true
      → IsAnchor (find_anchor t ds ss) × Covers (find_anchor t ds ss) x y
  unfolding find_anchor
  find_anchor_nearest x y hx hy pos m =
      (find_anchor-IsAnchor, look_rows-Covers_self 11 0 x y none (omega arith) hx hy pos m)
