-- ===== src/Speech/Voice/Closest.antt =====
-- What speech the daemon takes.
use ziguijia_translate_ml.Common.{
  ℕ, true, false, Option, some, [], ◌∷◌, ◌≤◌, ◌≡◌, ◌⊎◌, arith, refl, ltb, Bool-cases, inl, inr,
}
use ziguijia_translate_ml.Speech.Voice.{
  is_overrun, distance, closest, anchored_from, generate_anchored,
}

module _ (sr rate len : ℕ) where
  -- The speech that is taken where the three attempts give `a`, `b` and `c`: the first one that does
  -- not overrun, or where all overrun, one of them that is no farther than any from the expected
  -- duration.
  pub data IsTaken (a b c w : ℕ) : Type 0 where
    fits_first : is_overrun sr rate len a ≡ false → w ≡ a → IsTaken a b c w
    fits_second :
        is_overrun sr rate len a ≡ true → is_overrun sr rate len b ≡ false → w ≡ b → IsTaken a b c w
    fits_third :
        is_overrun sr rate len a ≡ true
        → is_overrun sr rate len b ≡ true
        → is_overrun sr rate len c ≡ false
        → w ≡ c
        → IsTaken a b c w
    closest_of_all :
        is_overrun sr rate len a ≡ true
        → is_overrun sr rate len b ≡ true
        → is_overrun sr rate len c ≡ true
        → (w ≡ a) ⊎ ((w ≡ b) ⊎ (w ≡ c))
        → distance sr rate len w ≤ distance sr rate len a
        → distance sr rate len w ≤ distance sr rate len b
        → distance sr rate len w ≤ distance sr rate len c
        → IsTaken a b c w

  closest_one :
      (a b c : ℕ)
      → (closest sr rate len a (b ∷ c ∷ []) ≡ a)
        ⊎ ((closest sr rate len a (b ∷ c ∷ []) ≡ b) ⊎ (closest sr rate len a (b ∷ c ∷ []) ≡ c))
  unfolding closest
  closest_one a b c = elim (Bool-cases (ltb (distance sr rate len b) (distance sr rate len a))) [
    | inl nearer ↦
        rw nearer (elim (Bool-cases (ltb (distance sr rate len c) (distance sr rate len b))) [
          | inl e ↦ rw e (inr (inr refl))
          | inr e ↦ rw e (inr (inl refl))
        ])
    | inr farther ↦
        rw farther (elim (Bool-cases (ltb (distance sr rate len c) (distance sr rate len a))) [
          | inl e ↦ rw e (inr (inr refl))
          | inr e ↦ rw e (inl refl)
        ])
  ]

  -- Where each of the three attempts gives speech, the function gives the first speech that does not
  -- overrun; where all overrun, it gives one than which none of the three is closer to the expected
  -- duration.
  pub generate_anchored-IsTaken :
      (tries : ℕ → Option ℕ) (a b c : ℕ)
      → tries 0 ≡ some a
      → tries 1 ≡ some b
      → tries 2 ≡ some c
      → (w : ℕ) × (generate_anchored sr rate len tries ≡ some w) × IsTaken a b c w
  unfolding generate_anchored anchored_from closest
  generate_anchored-IsTaken tries a b c ea eb ec = elim (Bool-cases (is_overrun sr rate len a)) [
    | inr fits ↦ (a, rw (ea, anchored_from, fits), fits_first fits refl)
    | inl long_a ↦ elim (Bool-cases (is_overrun sr rate len b)) [
      | inr fits ↦
          (b, rw (ea, anchored_from, long_a, eb, anchored_from, fits), fits_second long_a fits refl)
      | inl long_b ↦ elim (Bool-cases (is_overrun sr rate len c)) [
        | inr fits ↦ (
          c,
          rw (ea, anchored_from, long_a, eb, anchored_from, long_b, ec, anchored_from, fits),
          fits_third long_a long_b fits refl,
        )
        | inl long_c ↦ (
          closest sr rate len a (b ∷ c ∷ []),
          rw (ea, anchored_from, long_a, eb, anchored_from, long_b, ec, anchored_from, long_c),
          closest_of_all long_a long_b long_c (closest_one a b c) (ground arith) (ground arith)
              (ground arith),
        )
      ]
    ]
  ]
