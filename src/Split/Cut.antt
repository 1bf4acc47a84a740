-- ===== src/Split/Cut.antt =====
-- Where a chunk of a text ends.
use ziguijia_translate_ml.Common.{
  ℕ, zero, suc, ◌≡◌, refl, Option, none, some, List, [], ◌∷◌, ◌-◌, ◌≤◌, ◌<◌, ltb, arith, length,
  Bool-cases, Option-cases, inl, inr,
}
use ziguijia_translate_ml.Split.{
  Text, take, drop, lstrip, rfind, separators, later_boundary, boundary_from, positive, cut,
}

pub length-take : (n : ℕ) (s : Text) → length (take n s) ≤ n
unfolding take
length-take zero s = omega arith
length-take (suc n) [] = omega arith
length-take (suc n) (c ∷ s) = omega (arith, length-take n s)

pub length-drop : (n : ℕ) (s : Text) → length (drop n s) ≡ length s - n
unfolding drop
length-drop zero s = omega arith
length-drop (suc n) [] = omega arith
length-drop (suc n) (c ∷ s) = omega (arith, length-drop n s)

pub length-lstrip-le : (s : Text) → length (lstrip s) ≤ length s
unfolding lstrip
length-lstrip-le [] = omega arith
length-lstrip-le (c ∷ s) = ground (arith, length-lstrip-le s)

rfind-lt : (sep s : Text) (i : ℕ) → rfind sep s ≡ some i → i < length s
unfolding rfind
rfind-lt sep [] i found = absurd (ground arith)
rfind-lt sep (c ∷ s) i found = elim (Option-cases (rfind sep s)) [
  | inl missing ↦ ground arith
  | inr (j, later) ↦ ground (arith, rfind-lt sep s j later)
]

-- A position of a boundary: within the chunk, and not at its start.
abbrev IsWithin : Text → Option ℕ → Type 0
IsWithin chunk none = Unit
IsWithin chunk (some b) = (0 < b) × (b ≤ length chunk)

later_boundary-IsWithin :
    (sep chunk : Text) (b : Option ℕ)
    → IsWithin chunk b
    → (pos : Option ℕ) → rfind sep chunk ≡ pos
    → IsWithin chunk (later_boundary pos b)
unfolding later_boundary
later_boundary-IsWithin sep chunk b h none e = h
later_boundary-IsWithin sep chunk none h (some pos) e =
    (omega arith, omega (arith, rfind-lt sep chunk pos e))
later_boundary-IsWithin sep chunk (some b) h (some pos) e = elim (Bool-cases (ltb b pos)) [
  | inl further ↦ rw further (omega arith, omega (arith, rfind-lt sep chunk pos e))
  | inr nearer ↦ rw nearer h
]

boundary_from-IsWithin :
    (seps : List Text) (b : Option ℕ) (chunk : Text)
    → IsWithin chunk b
    → IsWithin chunk (boundary_from seps b chunk)
unfolding boundary_from
boundary_from-IsWithin [] b chunk h = h
boundary_from-IsWithin (sep ∷ seps) b chunk h =
    boundary_from-IsWithin seps _ chunk
      (later_boundary-IsWithin sep chunk b h (rfind sep chunk) refl)

positive-lt :
    (o : Option ℕ) (n i : ℕ)
    → ((j : ℕ) → o ≡ some j → j ≤ n)
    → positive o ≡ some i
    → (0 < i) × (i ≤ n)
positive-lt none n i le e = absurd (ground arith)
positive-lt (some zero) n i le e = absurd (ground arith)
positive-lt (some (suc k)) n i le e = (ground arith, ground (arith, le (suc k) refl))

pub cut_bounds :
    (max_len : ℕ) (chunk : Text)
    → 0 < max_len
    → length chunk ≤ max_len
    → (0 < cut max_len chunk) × (cut max_len chunk ≤ max_len)
unfolding cut
cut_bounds max_len chunk pos fits =
    elim (Option-cases (positive (boundary_from separators none chunk))) [
      | inr (b, e) ↦ rw (e, cut) (bounded b (positive-lt _ (length chunk) b boundary_le e))
      | inl no_boundary ↦ elim (Option-cases (positive (rfind (32 ∷ []) chunk))) [
        | inr (b, e) ↦
            rw (no_boundary, e, cut) (bounded b (positive-lt _ (length chunk) b space_le e))
        | inl no_space ↦ rw (no_boundary, no_space, cut) (pos, omega arith)
      ]
    ]
  where
    bounded : (b : ℕ) → (0 < b) × (b ≤ length chunk) → (0 < b) × (b ≤ max_len)
    bounded b h = (h.0, omega (arith, h.1, fits))

    within : (o : Option ℕ) → IsWithin chunk o → (j : ℕ) → o ≡ some j → j ≤ length chunk
    within none h j e = absurd (ground arith)
    within (some b) h j e = ground (arith, h.1)

    boundary_le : (j : ℕ) → boundary_from separators none chunk ≡ some j → j ≤ length chunk
    boundary_le = within _ (boundary_from-IsWithin separators none chunk tt)

    space_le : (j : ℕ) → rfind (32 ∷ []) chunk ≡ some j → j ≤ length chunk
    space_le j e = omega (arith, rfind-lt (32 ∷ []) chunk j e)
