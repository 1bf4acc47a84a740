-- ===== src/Calibrate/Slots.antt =====
-- `_slot_standard_entries` of chatterbox-server/routes/files.py, which gives the standard-only
-- entries their times, and `_align_segments` as a whole.
pub mod Laws
use ziguijia_translate_ml.Common.{
  ℕ, suc, Option, none, some, List, [], ◌∷◌, ◌+◌, ltb, leb, length, if◌then◌else◌,
}
use ziguijia_translate_ml.Calibrate.{Displayed, Standard, Texts, min, max}
use ziguijia_translate_ml.Calibrate.Walk.{Entry, matched, displayed, standard, walk}
use ziguijia_translate_ml.Calibrate.Walk.Window.{window}

-- `gap_end`: the start of the next entry that is displayed or matched
unfoldable pub gap_end : List Entry → Option ℕ
gap_end [] = none
gap_end (matched s f c ∷ es) = some s
gap_end (displayed s f c ∷ es) = some s
gap_end (standard s f c ∷ es) = gap_end es

-- `min(t, gap_end)`, where the gap has an end
abbrev pub up_to : Option ℕ → ℕ → ℕ
up_to none t = t
up_to (some e) t = min t e

-- The slot of two seconds, with no own timing.
unfoldable pub default_slot : (cursor : ℕ) → Option ℕ → ℕ × ℕ
default_slot cursor gap =
    let t = up_to gap (cursor + 2000) in
    if leb t cursor then (cursor, cursor + 2000) else (cursor, t)

unfoldable pub own_slot : (cursor : ℕ) → Option ℕ → (own_start own_end : ℕ) → ℕ × ℕ
unfolding default_slot
own_slot cursor gap own_start own_end =
    let s = max own_start cursor in
    let t = up_to gap own_end in
    if ltb s t
    then (s, t)
    else (if leb cursor own_start then (own_start, own_end) else default_slot cursor gap)

-- The body of the loop over one gap.
unfoldable pub place : (cursor : ℕ) → Option ℕ → (own_start own_end : Option ℕ) → ℕ × ℕ
unfolding own_slot default_slot
place cursor gap (some s) (some e) =
    if ltb s e then own_slot cursor gap s e else default_slot cursor gap
place cursor gap none e = default_slot cursor gap
place cursor gap (some s) none = default_slot cursor gap

-- The two loops as one pass: `cursor` starts a gap at the end of the entry before it.
unfoldable pub slot : (cursor : ℕ) → List Entry → List Entry
unfolding place gap_end
slot cursor [] = []
slot cursor (matched s f c ∷ es) = matched s f c ∷ slot f es
slot cursor (displayed s f c ∷ es) = displayed s f c ∷ slot f es
slot cursor (standard s f c ∷ es) =
    let p = place cursor (gap_end es) s f in standard (some p.0) (some p.1) c ∷ slot p.1 es

unfoldable pub slot_standard_entries : List Entry → List Entry
unfolding slot
slot_standard_entries es = slot 0 es

abbrev pub finish_walk : Option (List Entry) → Option (List Entry)
finish_walk none = none
finish_walk (some es) = some (slot_standard_entries (window es))

-- `_align_segments`; the fuel of the walk is one more than there are segments.
unfoldable pub align_segments : Texts → List Displayed → List Standard → Option (List Entry)
unfolding walk window slot_standard_entries
align_segments t ds ss = finish_walk (walk t (suc (length ds + length ss)) ds ss)
