-- ===== src/Calibrate/Walk/Merge.antt =====
-- The walk ends, and its result is a merge of the two lists.
use mathlib.Core.Path.{subst}
use ziguijia_translate_ml.Common.{
  ℕ, zero, suc, true, some, List, [], ◌∷◌, ◌++◌, ◌+◌, ◌-◌, ◌<◌, ◌≡◌, map, arith, refl, length,
  get_elem?, Bool-cases, Option-cases, inl, inr,
}
use ziguijia_translate_ml.Calibrate.{Displayed, Standard, Texts, pair_matches}
use ziguijia_translate_ml.Calibrate.Walk.{
  Entry, add_matched, add_displayed, add_standard, matches_at, find_anchor, copy, skip, walk,
}
use ziguijia_translate_ml.Calibrate.Walk.Nearest.{IsAnchor, find_anchor-IsAnchor}

-- The ways to merge two lists of segments: the next of either list is copied, or the next of both
-- are a pair that corresponds.
pub data Merge (t : Texts) : List Displayed → List Standard → List Entry → Type 0 where
  done : Merge t [] [] []
  pair :
      {d : Displayed} {s : Standard} {ds : List Displayed} {ss : List Standard} {es : List Entry}
      → pair_matches t d s ≡ true
      → Merge t ds ss es
      → Merge t (d ∷ ds) (s ∷ ss) (add_matched d s ∷ es)
  left :
      {d : Displayed} {ds : List Displayed} {ss : List Standard} {es : List Entry}
      → Merge t ds ss es
      → Merge t (d ∷ ds) ss (add_displayed d ∷ es)
  right :
      {s : Standard} {ds : List Displayed} {ss : List Standard} {es : List Entry}
      → Merge t ds ss es
      → Merge t ds (s ∷ ss) (add_standard s ∷ es)

module _ (t : Texts) where
  Merge-add_standard : (ss : List Standard) → Merge t [] ss (map add_standard ss)
  Merge-add_standard [] = done
  Merge-add_standard (s ∷ ss) = right (Merge-add_standard ss)

  Merge-all :
      (ds : List Displayed) (ss : List Standard)
      → Merge t ds ss (map add_displayed ds ++ map add_standard ss)
  Merge-all [] ss = Merge-add_standard ss
  Merge-all (d ∷ ds) ss = left (Merge-all ds ss)

  Merge-add_displayed : (ds : List Displayed) → Merge t ds [] (map add_displayed ds)
  Merge-add_displayed [] = done
  Merge-add_displayed (d ∷ ds) = left (Merge-add_displayed ds)

  Merge-copy_standard :
      (b : ℕ) (ss : List Standard) {ds : List Displayed} {es : List Entry}
      → Merge t ds (skip b ss) es
      → Merge t ds ss (copy add_standard b ss es)
  Merge-copy_standard zero ss m = m
  Merge-copy_standard (suc b) [] m = m
  Merge-copy_standard (suc b) (s ∷ ss) m = right (Merge-copy_standard b ss m)

  Merge-copy :
      (a : ℕ) (ds : List Displayed) {ss : List Standard} {es : List Entry}
      → Merge t (skip a ds) ss es
      → Merge t ds ss (copy add_displayed a ds es)
  Merge-copy zero ds m = m
  Merge-copy (suc a) [] m = m
  Merge-copy (suc a) (d ∷ ds) m = left (Merge-copy a ds m)

  length-skip {ℓ} : {A : Type ℓ} (n : ℕ) (xs : List A) → length (skip n xs) ≡ length xs - n
  length-skip zero xs = omega arith
  length-skip (suc n) [] = omega arith
  length-skip (suc n) (x ∷ xs) = omega (arith, length-skip n xs)

  lt-of_get_elem? {ℓ} :
      {A : Type ℓ} (xs : List A) (i : ℕ) (x : A) → get_elem? xs i ≡ some x → i < length xs
  lt-of_get_elem? [] i x e = cc
  lt-of_get_elem? (y ∷ xs) zero x e = omega arith
  lt-of_get_elem? (y ∷ xs) (suc i) x e = omega (arith, lt-of_get_elem? xs i x e)

  -- A pair that corresponds lies within both lists.
  matches_at-lt :
      (ds : List Displayed) (ss : List Standard) (a b : ℕ)
      → matches_at t ds ss a b ≡ true
      → (a < length ds) × (b < length ss)
  unfolding matches_at
  matches_at-lt ds ss a b m = elim (Option-cases (get_elem? ds a)) [
    | inl absent ↦ let h = rw absent at m in cc
    | inr (d, ed) ↦ elim (Option-cases (get_elem? ss b)) [
      | inl absent ↦ let h = rw (ed, absent) at m in cc
      | inr (s, es) ↦ (lt-of_get_elem? ds a d ed, lt-of_get_elem? ss b s es)
    ]
  ]

  abbrev Merges : ℕ → List Displayed → List Standard → Type 0
  Merges fuel ds ss = (es : List Entry) × (walk t fuel ds ss ≡ some es) × Merge t ds ss es

  -- With more fuel than there are segments the walk ends, and what it returns is a merge of the two
  -- lists: every segment is there once and in its order, and only pairs that correspond are joined.
  pub walk-Merge :
      (fuel : ℕ) (ds : List Displayed) (ss : List Standard)
      → length ds + length ss < fuel
      → (es : List Entry) × (walk t fuel ds ss ≡ some es) × Merge t ds ss es
  unfolding walk
  walk-Merge zero ds ss h = absurd (omega arith)
  walk-Merge (suc fuel) [] ss h = (map add_standard ss, refl, Merge-add_standard ss)
  walk-Merge (suc fuel) (d ∷ ds) [] h =
      (map add_displayed (d ∷ ds), refl, Merge-add_displayed (d ∷ ds))
  walk-Merge (suc fuel) (d ∷ ds) (s ∷ ss) h = elim (Bool-cases (pair_matches t d s)) [
    | inl same ↦
        let (es, e, m) = walk-Merge fuel ds ss (omega arith) in
        (add_matched d s ∷ es, rw (same, walk, e), pair same m)
    | inr other ↦ elim (Option-cases (find_anchor t (d ∷ ds) (s ∷ ss))) [
      | inl none_near ↦ (_, rw (other, walk, none_near), Merge-all (d ∷ ds) (s ∷ ss))
      | inr (p, near) ↦
          let anchor =
            subst (IsAnchor t (d ∷ ds) (s ∷ ss)) near (find_anchor-IsAnchor t (d ∷ ds) (s ∷ ss)) in
          let (ha, hb) = matches_at-lt (d ∷ ds) (s ∷ ss) p.0 p.1 anchor.3 in
          let (es, e, m) = walk-Merge fuel (skip p.0 (d ∷ ds)) (skip p.1 (s ∷ ss)) (
            omega (
              arith,
              h,
              ha,
              anchor.2,
              length-skip {0} p.0 (d ∷ ds),
              length-skip {0} p.1 (s ∷ ss),
            )) in
          (
            _,
            rw (other, walk, near, e),
            Merge-copy p.0 (d ∷ ds) (Merge-copy_standard p.1 (s ∷ ss) m),
          )
    ]
  ]
