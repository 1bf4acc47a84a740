-- ===== src/Calibrate/Walk/Window.antt =====
-- `_align_segments`, after the walk: outside the first and the last matched entry the displayed
-- entries are emptied and the standard ones are left out.
use ziguijia_translate_ml.Common.{
  ℕ, suc, Bool, true, false, Option, none, some, List, [], ◌∷◌, ◌++◌, ◌+◌, ◌-◌, ◌≤◌, ◌<◌, ◌≡◌, ◌||◌,
  ltb, arith, refl, ap, length, if◌then◌else◌,
}
use ziguijia_translate_ml.Calibrate.{max}
use ziguijia_translate_ml.Calibrate.Walk.{Entry, matched, displayed, standard}

-- `e["kind"] == "matched"`
abbrev pub is_matched : Entry → Bool
is_matched (matched s f c) = true
is_matched _ = false

-- `first_match` and `last_match`, for the entries from the index `i` on
unfoldable pub first_match : ℕ → List Entry → Option ℕ
first_match i [] = none
first_match i (e ∷ es) = let rest = first_match (suc i) es in if is_matched e then some i else rest

abbrev pub max_index : ℕ → Option ℕ → Option ℕ
max_index i none = some i
max_index i (some j) = some (max i j)

unfoldable pub last_match : ℕ → List Entry → Option ℕ
last_match i [] = none
last_match i (e ∷ es) =
    let rest = last_match (suc i) es in if is_matched e then max_index i rest else rest

abbrev pub is_outside : ℕ → (first last : Option ℕ) → Bool
is_outside i (some first) (some last) = ltb i first || ltb last i
is_outside i _ _ = true

-- An entry outside the window; an entry of kind "drop" is filtered out.
abbrev pub silence : Entry → List Entry → List Entry
silence (matched s f c) es = matched s f c ∷ es
silence (displayed s f c) es = displayed s f [] ∷ es
silence (standard s f c) es = es

unfoldable pub silence_outside : (first last : Option ℕ) → ℕ → List Entry → List Entry
silence_outside first last i [] = []
silence_outside first last i (e ∷ es) =
    let rest = silence_outside first last (suc i) es in
    if is_outside i first last then silence e rest else e ∷ rest

unfoldable pub window : List Entry → List Entry
unfolding first_match last_match silence_outside
window es = silence_outside (first_match 0 es) (last_match 0 es) 0 es

-- All entries, silenced.
unfoldable pub silence_all : List Entry → List Entry
silence_all [] = []
silence_all (e ∷ es) = silence e (silence_all es)

-- No entry is matched.
abbrev pub none_matched : List Entry → Bool
none_matched [] = true
none_matched (e ∷ es) = let rest = none_matched es in if is_matched e then false else rest

-- The first entry, and the last one, is matched.
abbrev pub head_matched : List Entry → Bool
head_matched [] = false
head_matched (e ∷ es) = is_matched e

abbrev pub last_matched : List Entry → Bool
last_matched [] = false
last_matched (e ∷ []) = is_matched e
last_matched (e ∷ e' ∷ es) = last_matched (e' ∷ es)

pub first_match-none : (i : ℕ) (es : List Entry) → none_matched es ≡ true → first_match i es ≡ none
unfolding first_match
first_match-none i [] h = refl
first_match-none i (e ∷ es) h = ground (arith, first_match-none (suc i) es)

pub last_match-none : (i : ℕ) (es : List Entry) → none_matched es ≡ true → last_match i es ≡ none
unfolding last_match
last_match-none i [] h = refl
last_match-none i (e ∷ es) h = ground (arith, last_match-none (suc i) es)

pub first_match-append :
    (i : ℕ) (pre es : List Entry)
    → none_matched pre ≡ true
    → head_matched es ≡ true
    → first_match i (pre ++ es) ≡ some (i + length pre)
unfolding first_match
first_match-append i [] [] h k = cc
first_match-append i [] (e ∷ es) h k = ground arith
first_match-append i (e ∷ pre) es h k = ground (arith, first_match-append (suc i) pre es)

pub last_match-mid :
    (i : ℕ) (mid post : List Entry)
    → last_matched mid ≡ true
    → none_matched post ≡ true
    → last_match i (mid ++ post) ≡ some (i + length mid - 1)
unfolding last_match
last_match-mid i [] post h k = cc
last_match-mid i (e ∷ []) post h k = ground (arith, last_match-none (suc i) post)
last_match-mid i (e ∷ e' ∷ mid) post h k = ground (arith, last_match-mid (suc i) (e' ∷ mid) post)

pub last_match-append :
    (i : ℕ) (pre es : List Entry)
    → none_matched pre ≡ true
    → last_match i (pre ++ es) ≡ last_match (i + length pre) es
unfolding last_match
last_match-append i [] es h = ap (λ j. last_match j es) (omega arith)
last_match-append i (e ∷ pre) es h = ground (
  arith,
  last_match-append (suc i) pre es,
  ap (λ (j : ℕ). last_match j es) (suc_add i (length pre)),
)
  where
    suc_add : (a b : ℕ) → suc a + b ≡ a + suc b
    suc_add a b = omega arith

pub silence_outside_all :
    (i : ℕ) (es : List Entry) → silence_outside none none i es ≡ silence_all es
unfolding silence_outside silence_all
silence_outside_all i [] = refl
silence_outside_all i (e ∷ es) = rw (silence_outside_all (suc i) es)

module _ (first last : ℕ) where
  silence_outside-none :
      (i : ℕ) (es : List Entry)
      → last < i
      → silence_outside (some first) (some last) i es ≡ silence_all es
  unfolding silence_outside silence_all
  silence_outside-none i [] h = refl
  silence_outside-none i (e ∷ es) h = ground (arith, silence_outside-none (suc i) es)

  silence_outside-mid :
      (i : ℕ) (mid post : List Entry)
      → first ≤ i
      → i + length mid ≡ suc last
      → silence_outside (some first) (some last) i (mid ++ post) ≡ mid ++ silence_all post
  unfolding silence_outside
  silence_outside-mid i [] post lo hi = silence_outside-none i post (omega arith)
  silence_outside-mid i (e ∷ mid) post lo hi = ground (arith, silence_outside-mid (suc i) mid post)

  silence-append : (e : Entry) (xs ys : List Entry) → silence e (xs ++ ys) ≡ silence e xs ++ ys
  silence-append (matched s f c) xs ys = refl
  silence-append (displayed s f c) xs ys = refl
  silence-append (standard s f c) xs ys = refl

  pub silence_outside-pre :
      (i : ℕ) (pre mid post : List Entry)
      → i + length pre ≡ first
      → first + length mid ≡ suc last
      → silence_outside (some first) (some last) i (pre ++ (mid ++ post))
        ≡ silence_all pre ++ (mid ++ silence_all post)
  unfolding silence_outside silence_all
  silence_outside-pre i [] mid post h k = silence_outside-mid i mid post (omega arith) (omega arith)
  silence_outside-pre i (e ∷ pre) mid post h k = ground (
    arith,
    silence-append e (silence_all pre) (mid ++ silence_all post),
    silence_outside-pre (suc i) pre mid post,
  )
