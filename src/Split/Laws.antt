-- ===== src/Split/Laws.antt =====
-- The chunks of a text: they end, they are short, and only white space is lost between them.
use mathlib.Core.Path.{ap, sym}
use mathlib.Core.List.{append-nil}
use ziguijia_translate_ml.Common.{
  ℕ, zero, suc, ◌≡◌, refl, ◌∙◌, not, Option, some, List, [], ◌∷◌, ◌++◌, ◌≤◌, ◌<◌, leb, arith, All,
  keep, length, Bool-cases, inl, inr,
}
use ziguijia_translate_ml.Split.{Text, take, drop, is_space, lstrip, cut, split_loop, split_text}
use ziguijia_translate_ml.Split.Cut.{length-take, length-drop, length-lstrip-le, cut_bounds}

-- A text without its white space.
abbrev pub unspaced : Text → Text
unspaced s = keep (λ c. not (is_space c)) s

abbrev pub concat : List Text → Text
concat [] = []
concat (c ∷ cs) = c ++ concat cs

unspaced-append : (s t : Text) → unspaced (s ++ t) ≡ unspaced s ++ unspaced t
unspaced-append [] t = refl
unspaced-append (c ∷ s) t = ground (arith, unspaced-append s t)

unspaced-lstrip : (s : Text) → unspaced (lstrip s) ≡ unspaced s
unfolding lstrip
unspaced-lstrip [] = refl
unspaced-lstrip (c ∷ s) = ground (arith, unspaced-lstrip s)

take-append-drop : (n : ℕ) (s : Text) → take n s ++ drop n s ≡ s
unfolding take drop
take-append-drop zero s = refl
take-append-drop (suc n) [] = refl
take-append-drop (suc n) (c ∷ s) = ap (c ∷◌) (take-append-drop n s)

-- The chunks of a text: each at most `max_len` long, with the text's characters in their order but
-- for white space.
pub record Chunks (max_len : ℕ) (s : Text) (o : Option (List Text)) : Type 0 where
  pub chunks : List Text
  pub made : o ≡ some chunks
  pub short : All (λ c. length c ≤ max_len) chunks
  pub whole : unspaced (concat chunks) ≡ unspaced s

unspaced-cons_chunk :
    (end : ℕ) (s : Text) (cs : List Text)
    → unspaced (concat cs) ≡ unspaced (lstrip (drop end s))
    → unspaced (take end s ++ concat cs) ≡ unspaced s
unspaced-cons_chunk end s cs h =
    unspaced-append (take end s) (concat cs)
    ∙ ap (unspaced (take end s) ++◌) (h ∙ unspaced-lstrip (drop end s))
    ∙ sym (unspaced-append (take end s) (drop end s))
    ∙ ap unspaced (take-append-drop end s)

-- Where the chunk at the head of a text ends.
abbrev head_end : (max_len : ℕ) → Text → ℕ
head_end max_len s = cut max_len (take max_len s)

head_end_bounds :
    (max_len : ℕ) (s : Text)
    → 0 < max_len
    → (0 < head_end max_len s) × (head_end max_len s ≤ max_len)
head_end_bounds max_len s pos = cut_bounds max_len (take max_len s) pos (length-take max_len s)

tail_shorter :
    (turns max_len : ℕ) (c : ℕ) (s : Text)
    → 0 < max_len
    → length (c ∷ s) ≤ suc turns
    → length (lstrip (drop (head_end max_len (c ∷ s)) (c ∷ s))) ≤ turns
tail_shorter turns max_len c s pos enough = omega (
  arith,
  enough,
  (head_end_bounds max_len (c ∷ s) pos).0,
  length-lstrip-le (drop (head_end max_len (c ∷ s)) (c ∷ s)),
  length-drop (head_end max_len (c ∷ s)) (c ∷ s),
)

turn-Chunks :
    (turns max_len : ℕ) (c : ℕ) (s : Text)
    → 0 < max_len
    → Chunks max_len
        (lstrip (drop (head_end max_len (c ∷ s)) (c ∷ s)))
        (split_loop turns max_len (lstrip (drop (head_end max_len (c ∷ s)) (c ∷ s))))
    → Chunks max_len (c ∷ s) (split_loop (suc turns) max_len (c ∷ s))
unfolding split_loop
turn-Chunks turns max_len c s pos rest = elim (Bool-cases (leb (length (c ∷ s)) max_len)) [
  | inl fits ↦ record {
    chunks = (c ∷ s) ∷ [];
    made = rw fits refl;
    short = (ground arith, tt);
    whole = ap unspaced (append-nil (c ∷ s));
  }
  | inr long ↦ record {
    chunks = take (head_end max_len (c ∷ s)) (c ∷ s) ∷ rest.chunks;
    made = rw (long, rest.made) refl;
    short = (
      omega (
        arith,
        length-take (head_end max_len (c ∷ s)) (c ∷ s),
        (head_end_bounds max_len (c ∷ s) pos).1,
      ),
      rest.short,
    );
    whole = unspaced-cons_chunk (head_end max_len (c ∷ s)) (c ∷ s) rest.chunks rest.whole;
  }
]

split_loop-Chunks :
    (turns max_len : ℕ) (s : Text)
    → 0 < max_len
    → length s ≤ turns
    → Chunks max_len s (split_loop turns max_len s)
unfolding split_loop
split_loop-Chunks turns max_len [] pos enough = record {
  chunks = [];
  made = refl;
  short = tt;
  whole = refl;
}
split_loop-Chunks zero max_len (c ∷ s) pos enough = absurd (omega (arith, enough))
split_loop-Chunks (suc turns) max_len (c ∷ s) pos enough =
    turn-Chunks turns max_len c s pos
      (split_loop-Chunks turns max_len _ pos (tail_shorter turns max_len c s pos enough))

-- The loop ends within a turn for each character, and leaves chunks of at most `max_len` characters
-- which put together are the text, but for white space. The maximum is not 0.
pub split_text-Chunks :
    (max_len : ℕ) (s : Text) → 0 < max_len → Chunks max_len s (split_text max_len s)
unfolding split_text
split_text-Chunks max_len s pos = elim (Bool-cases (leb (length s) max_len)) [
  | inl fits ↦ record {
    chunks = s ∷ [];
    made = rw fits refl;
    short = (ground arith, tt);
    whole = ap unspaced (append-nil s);
  }
  | inr long ↦ rw (long, split_text) (split_loop-Chunks (length s) max_len s pos (omega arith))
]
