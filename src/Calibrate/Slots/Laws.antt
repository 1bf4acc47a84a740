-- ===== src/Calibrate/Slots/Laws.antt =====
-- What the calibration keeps of the displayed file, and where it puts the standard-only entries.
use ziguijia_translate_ml.Common.{
  ℕ, suc, Option, none, some, List, [], ◌∷◌, ◌++◌, ◌+◌, ◌≤◌, ◌<◌, ◌≡◌, map, arith, refl, ◌∙◌,
  length, inl, inr,
}
use ziguijia_translate_ml.Calibrate.{Displayed, Standard, Texts}
use ziguijia_translate_ml.Calibrate.Walk.{Entry, matched, displayed, standard}
use ziguijia_translate_ml.Calibrate.Walk.Merge.{Merge, done, pair, left, right, walk-Merge}
use ziguijia_translate_ml.Calibrate.Walk.Window.{silence_all, window}
use ziguijia_translate_ml.Calibrate.Walk.Range.{Range, window_lem}
use ziguijia_translate_ml.Calibrate.Slots.{
  gap_end, place, slot, slot_standard_entries, align_segments,
}

-- The times of the entries that come from the displayed file.
abbrev pub time : Displayed → ℕ × ℕ
time d = (d.start, d.finish)

abbrev pub times : List Entry → List (ℕ × ℕ)
times [] = []
times (matched s f c ∷ es) = (s, f) ∷ times es
times (displayed s f c ∷ es) = (s, f) ∷ times es
times (standard s f c ∷ es) = times es

times-Merge :
    {t : Texts} {ds : List Displayed} {ss : List Standard} {es : List Entry}
    → Merge t ds ss es
    → times es ≡ map time ds
times-Merge done = refl
times-Merge (pair h m) = rw (times-Merge m)
times-Merge (left m) = rw (times-Merge m)
times-Merge (right m) = times-Merge m

times-silence_all : (es : List Entry) → times (silence_all es) ≡ times es
unfolding silence_all
times-silence_all [] = refl
times-silence_all (matched s f c ∷ es) = rw (times-silence_all es)
times-silence_all (displayed s f c ∷ es) = rw (times-silence_all es)
times-silence_all (standard s f c ∷ es) = times-silence_all es

times-append : (xs ys : List Entry) → times (xs ++ ys) ≡ times xs ++ times ys
times-append [] ys = refl
times-append (matched s f c ∷ xs) ys = rw (times-append xs ys)
times-append (displayed s f c ∷ xs) ys = rw (times-append xs ys)
times-append (standard s f c ∷ xs) ys = times-append xs ys

times-window : (es : List Entry) → times (window es) ≡ times es
times-window es = elim (window_lem es) [
  | inl (free, e) ↦ rw e (times-silence_all es)
  | inr (r, e) ↦ rw e (in_range r)
]
  where
    in_range :
        (r : Range es) → times (silence_all r.pre ++ (r.mid ++ silence_all r.post)) ≡ times es
    in_range r = simp (times-append, times-silence_all, r.whole)

times-slot : (cursor : ℕ) (es : List Entry) → times (slot cursor es) ≡ times es
unfolding slot
times-slot cursor [] = refl
times-slot cursor (matched s f c ∷ es) = rw (times-slot f es)
times-slot cursor (displayed s f c ∷ es) = rw (times-slot f es)
times-slot cursor (standard s f c ∷ es) = times-slot _ es

-- The calibration of any two files ends, and the displayed file's times are kept: the entries that
-- come from it are its segments in their order, none left out and each with the times it had.
pub times-align_segments :
    (t : Texts) (ds : List Displayed) (ss : List Standard)
    → (es : List Entry) × (align_segments t ds ss ≡ some es) × (times es ≡ map time ds)
unfolding align_segments slot_standard_entries
times-align_segments t ds ss =
    let (es, e, m) = walk-Merge t (suc (length ds + length ss)) ds ss (omega arith) in
    (
      slot_standard_entries (window es),
      rw e,
      times-slot 0 (window es) ∙ times-window es ∙ times-Merge m,
    )

-- Every standard-only entry has its times, which are a stretch that is not empty and starts no
-- earlier than the end of the entry before it, or than 0.
abbrev pub Follows : (cursor : ℕ) → List Entry → Type 0
Follows cursor [] = Unit
Follows cursor (matched s f c ∷ es) = Follows f es
Follows cursor (displayed s f c ∷ es) = Follows f es
Follows cursor (standard none f c ∷ es) = ⊥
Follows cursor (standard (some s) none c ∷ es) = ⊥
Follows cursor (standard (some s) (some f) c ∷ es) = (cursor ≤ s) × (s < f) × Follows f es

-- The own times start before the end of the gap, where there are any.
abbrev pub StartsBefore : Option ℕ → (gap : ℕ) → Type 0
StartsBefore none gap = Unit
StartsBefore (some s) gap = s < gap

place-lt :
    (cursor : ℕ) (gap own_start own_end : Option ℕ)
    → (cursor ≤ (place cursor gap own_start own_end).0)
      × ((place cursor gap own_start own_end).0 < (place cursor gap own_start own_end).1)
unfolding place
place-lt cursor none none e = ground arith
place-lt cursor none (some s) none = ground arith
place-lt cursor none (some s) (some e) = ground arith
place-lt cursor (some g) none e = ground arith
place-lt cursor (some g) (some s) none = ground arith
place-lt cursor (some g) (some s) (some e) = ground arith

slot-Follows : (cursor : ℕ) (es : List Entry) → Follows cursor (slot cursor es)
unfolding slot
slot-Follows cursor [] = tt
slot-Follows cursor (matched s f c ∷ es) = slot-Follows f es
slot-Follows cursor (displayed s f c ∷ es) = slot-Follows f es
slot-Follows cursor (standard s f c ∷ es) =
    let p = place-lt cursor (gap_end es) s f in (p.0, p.1, slot-Follows _ es)

-- In the result of any calibration every standard-only entry has its times: they are a stretch of time
-- that is not empty, and it starts no earlier than the end of the entry before it.
pub align_segments-Follows :
    (t : Texts) (ds : List Displayed) (ss : List Standard)
    → (es : List Entry) × (align_segments t ds ss ≡ some es) × Follows 0 es
unfolding align_segments slot_standard_entries
align_segments-Follows t ds ss =
    let (es, e, m) = walk-Merge t (suc (length ds + length ss)) ds ss (omega arith) in
    (slot_standard_entries (window es), rw e, slot-Follows 0 (window es))

-- In a gap with room, whose end an entry's own start comes before if it has one, the entry is placed
-- within the gap.
pub place_bounds :
    (cursor gap : ℕ) (own_start own_end : Option ℕ)
    → cursor < gap
    → StartsBefore own_start gap
    → (cursor ≤ (place cursor (some gap) own_start own_end).0)
      × ((place cursor (some gap) own_start own_end).0
          < (place cursor (some gap) own_start own_end).1)
      × ((place cursor (some gap) own_start own_end).1 ≤ gap)
unfolding place
place_bounds cursor gap none e h k = ground arith
place_bounds cursor gap (some s) none h k = ground arith
place_bounds cursor gap (some s) (some e) h k = ground arith
