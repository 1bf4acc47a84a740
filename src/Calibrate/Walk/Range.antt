-- ===== src/Calibrate/Walk/Range.antt =====
-- What the window of the matched entries keeps.
use mathlib.Core.List.{append_assoc}
use ziguijia_translate_ml.Common.{
  true, List, [], ◌∷◌, ◌++◌, ◌+◌, ◌<◌, ◌≡◌, ◌⊎◌, arith, refl, sym, ap, ◌∙◌, length, Bool-cases, inl,
  inr,
}
use ziguijia_translate_ml.Calibrate.Walk.{Entry}
use ziguijia_translate_ml.Calibrate.Walk.Window.{
  is_matched, first_match, last_match, window, silence_all, none_matched, head_matched,
  last_matched, silence_outside, first_match-none, last_match-none, first_match-append,
  last_match-append, last_match-mid, silence_outside-pre, silence_outside_all,
}

-- The entries from the first to the last matched one, with what stands before and behind them.
pub record Range (es : List Entry) : Type 0 where
  pub pre : List Entry
  pub mid : List Entry
  pub post : List Entry
  pub whole : es ≡ pre ++ (mid ++ post)
  pub before : none_matched pre ≡ true
  pub first : head_matched mid ≡ true
  pub last : last_matched mid ≡ true
  pub behind : none_matched post ≡ true

last_matched-append :
    (e : Entry) (pre mid : List Entry)
    → head_matched mid ≡ true
    → last_matched mid ≡ true
    → last_matched (e ∷ (pre ++ mid)) ≡ true
last_matched-append e [] [] h k = cc
last_matched-append e [] (m ∷ mid) h k = k
last_matched-append e (p ∷ pre) mid h k = last_matched-append p pre mid h k

-- Every list of entries has no matched entry, or such a range.
Range-none_matched : (es : List Entry) → (none_matched es ≡ true) ⊎ Range es
Range-none_matched [] = inl refl
Range-none_matched (e ∷ es) = elim (Range-none_matched es) [
  | inl free ↦ elim (Bool-cases (is_matched e)) [
    | inl is ↦ inr (record {
      pre = [];
      mid = e ∷ [];
      post = es;
      whole = refl;
      before = refl;
      first = is;
      last = is;
      behind = free;
    })
    | inr not_matched ↦ inl (rw (not_matched, free))
  ]
  | inr r ↦ elim (Bool-cases (is_matched e)) [
    | inl is ↦ inr (record {
      pre = [];
      mid = e ∷ (r.pre ++ r.mid);
      post = r.post;
      whole = ap (◌∷◌ e) (r.whole ∙ sym (append_assoc r.pre r.mid r.post));
      before = refl;
      first = is;
      last = last_matched-append e r.pre r.mid r.first r.last;
      behind = r.behind;
    })
    | inr not_matched ↦ inr (record {
      pre = e ∷ r.pre;
      mid = r.mid;
      post = r.post;
      whole = ap (◌∷◌ e) r.whole;
      before = rw (not_matched, r.before);
      first = r.first;
      last = r.last;
      behind = r.behind;
    })
  ]
]

length_pos : (mid : List Entry) → head_matched mid ≡ true → 0 < length mid
length_pos [] h = cc
length_pos (e ∷ mid) h = omega arith

head_matched-append :
    (mid post : List Entry) → head_matched mid ≡ true → head_matched (mid ++ post) ≡ true
head_matched-append [] post h = cc
head_matched-append (e ∷ mid) post h = h

window-Range :
    (es : List Entry) (r : Range es)
    → window es ≡ silence_all r.pre ++ (r.mid ++ silence_all r.post)
unfolding window
window-Range es r =
    ap (λ xs. silence_outside (first_match 0 xs) (last_match 0 xs) 0 xs) r.whole
    ∙ rw
        (
          first_match-append 0 r.pre (r.mid ++ r.post) r.before
              (head_matched-append r.mid r.post r.first),
          last_match-append 0 r.pre (r.mid ++ r.post) r.before,
          last_match-mid (0 + length r.pre) r.mid r.post r.last r.behind,
        )
        (silence_outside-pre _ _ 0 r.pre r.mid r.post (omega arith)
          (omega (arith, length_pos r.mid r.first)))

pub window_lem :
    (es : List Entry)
    → ((none_matched es ≡ true) × (window es ≡ silence_all es))
      ⊎ ((r : Range es) × (window es ≡ silence_all r.pre ++ (r.mid ++ silence_all r.post)))
unfolding window
window_lem es = elim (Range-none_matched es) [
  | inl free ↦
      inl (
        free,
        rw (first_match-none 0 es free, last_match-none 0 es free) (silence_outside_all 0 es),
      )
  | inr r ↦ inr (r, window-Range es r)
]
